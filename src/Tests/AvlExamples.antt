-- ===== src/Tests/AvlExamples.antt =====
-- The theorems on the trees at a concrete tree of accounts.
use rc_project.Base.{
  false, ◌≢◌, arith, ◌<◌, ◌≡◌, refl, [], ◌∷◌, pos, true, Returns, none, some, ok, All,
  if◌then◌else◌,
}
use rc_project.Memory.{Ptr, Heap, malloc}
use rc_project.Text.{codes, strcmp, parse_cmd}
use rc_project.Avl.{elements, private_avl_add}
use rc_project.Avl.Flat.{IsFlat, insert, private_avl_add-insert}
use rc_project.Avl.Order.{find, insert_sorted, remove}
use rc_project.Avl.Handle.{avl_add, avl_remove, avl_ok, cmp_at}
use rc_project.Avl.Handle.Refines.{IsValid, contents}
use rc_project.Avl.Handle.Add.{avl_add_new}
use rc_project.Avl.Handle.Remove.{avl_remove_present, found_inner}
use rc_project.Server.{Client, data_cmp}
use rc_project.Server.Compare.{data_cmp-IsComparator}
use rc_project.Server.Users.{with_client-IsValid}
use rc_project.Tests.Fixtures.{
  account, alice, bob, carol, clients, user_list, server, users-IsValid,
}

abbrev dave : Client
dave = account (codes "dave") (pos 1)

-- block 4 holds a record that is not in the tree
abbrev heap : Client → Heap Client
heap c = (malloc c clients).1

heap-IsValid : (c : Client) → IsValid data_cmp (heap c) user_list
heap-IsValid c = with_client-IsValid (server 1 true 1) users-IsValid c

apart : All (λ p. p ≢ 4) (elements user_list.root)
unfolding elements
apart = (omega arith, (omega arith, (omega arith, tt)))

no_dave : find data_cmp dave (contents (heap dave) user_list) ≡ none
unfolding find data_cmp strcmp elements
no_dave = refl

an_alice : find data_cmp alice (contents (heap alice) user_list) ≡ some alice
unfolding find data_cmp strcmp elements
an_alice = refl

avl_add_new_example :
    Returns
      (λ (code, h', tree').
        (code ≡ avl_ok)
        × IsValid data_cmp h' tree'
        × (contents h' tree' ≡ insert_sorted data_cmp dave (contents (heap dave) user_list))
        × (tree'.file ≡ bob ∷ alice ∷ carol ∷ dave ∷ [])
        × ((p : Ptr) → p < 5 → h'.cell p ≡ (heap dave).cell p)
        × ((p : Ptr) → p < 5 → p ≢ 4 → h'.live p ≡ (heap dave).live p)
        × (h'.next ≡ 6)
        × All (λ p. p ≢ 4) (elements tree'.root)
        × (h'.live 4 ≡ false))
      (avl_add data_cmp (heap dave) user_list 4 true true)
avl_add_new_example =
    avl_add_new data_cmp data_cmp-IsComparator (heap dave) user_list 4 true true (heap-IsValid dave)
      (omega arith) refl apart no_dave

avl_remove_present_example :
    Returns
      (λ (code, h', tree').
        (code ≡ avl_ok)
        × IsValid data_cmp h' tree'
        × (contents h' tree' ≡ (
            if found_inner data_cmp data_cmp-IsComparator
              (heap alice)
              user_list
              4
              true
              true
              (heap-IsValid alice)
              refl
              apart
            then contents (heap alice) user_list
            else remove data_cmp alice (contents (heap alice) user_list)))
        × (tree'.file ≡ contents h' tree')
        × (tree'.size ≡ 3)
        × (h'.cell ≡ (heap alice).cell)
        × ((p : Ptr) → p ≢ 4 → h'.live p ≡ (heap alice).live p)
        × (h'.next ≡ 5))
      (avl_remove data_cmp (heap alice) user_list 4 true true)
avl_remove_present_example =
    avl_remove_present data_cmp data_cmp-IsComparator (heap alice) user_list 4 true true
      (heap-IsValid alice) refl apart an_alice

private_avl_add-insert_example :
    (private_avl_add (cmp_at data_cmp (heap dave)) 4 user_list.root
      ≡ ok (insert (cmp_at data_cmp (heap dave)) 4 user_list.root))
    × IsFlat (insert (cmp_at data_cmp (heap dave)) 4 user_list.root)
private_avl_add-insert_example =
    private_avl_add-insert (cmp_at data_cmp (heap dave)) 4 user_list.root users-IsValid.flat

same_words : parse_cmd (some (codes "MSG")) (codes "MSG") ≡ true
unfolding parse_cmd strcmp
same_words = refl
