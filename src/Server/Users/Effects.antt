-- ===== src/Server/Users/Effects.antt =====
-- What `avl_add` and `avl_remove` make of the accounts, when the search key or the new record is the
-- block that `new_client` has just made.
use mathlib.Core.Path.{ap₂}
use rc_project.Avl.Elements.{has_both}
use rc_project.Avl.{Tree, null, node, is_null, private_avl_get, elements}
use rc_project.Avl.Handle.{cmp_at, avl_remove, AvlTree, avl_ok, avl_add}
use rc_project.Avl.Handle.Remove.{avl_remove_present}
use rc_project.Base.{
  if_agree, is_neg, is_pos, not, ◌&&◌, All-split, ◌+◌, ◌<◌, ◌≡◌, ◌≢◌, refl, ap, ◌∙◌, arith, [], ◌∷◌,
  ◌++◌, none, some, ok, returned, All, if◌then◌else◌, true, false, Bool,
}
use rc_project.Memory.{Ptr, Heap, IsBlock, Extends, Extends-malloc}
use rc_project.Avl.Order.{find, insert_sorted, remove}
use rc_project.Avl.Handle.Refines.{IsValid, contents}
use rc_project.Avl.Handle.Add.{avl_add_new}
use rc_project.Server.{Server, Client, data_cmp}
use rc_project.Server.Compare.{data_cmp-IsComparator}
use rc_project.Server.Users.{
  users, named, remove-named, UsersValid, with_client, with_client-IsValid, with_client-contents,
  with_client-cell, with_client-live, with_client-apart, find-with_client,
}

-- what adding the record `c` makes of the accounts
pub record Stored (s : Server) (c : Client) (h : Heap Client) (tree : AvlTree Client) : Type 0 where
  pub valid : IsValid data_cmp h tree
  pub holds : contents h tree ≡ insert_sorted data_cmp c (users s)
  pub file : tree.file ≡ s.user_list.file ++ (c ∷ [])
  pub extends : Extends s.clients h

Stored-of_Returns :
    (s : Server) (v : UsersValid s) (c : Client) (h : Heap Client) (tree : AvlTree Client)
    → IsValid data_cmp h tree
    → contents h tree
      ≡ insert_sorted data_cmp
          ((with_client s v c).cell s.clients.next)
          (contents (with_client s v c) s.user_list)
    → tree.file ≡ s.user_list.file ++ ((with_client s v c).cell s.clients.next ∷ [])
    → ((p : Ptr) → p < (with_client s v c).next → h.cell p ≡ (with_client s v c).cell p)
    → ((p : Ptr)
        → p < (with_client s v c).next
        → p ≢ s.clients.next
        → h.live p ≡ (with_client s v c).live p)
    → h.next ≡ (with_client s v c).next + 1
    → Stored s c h tree
Stored-of_Returns s v c h tree valid holds file cells lives next =
    let e = Extends-malloc c s.clients in
    record {
      valid = valid;
      holds =
          holds
          ∙ ap₂ (insert_sorted data_cmp) (with_client-cell s v c) (with_client-contents s v c);
      file = file ∙ ap (λ r. s.user_list.file ++ (r ∷ [])) (with_client-cell s v c);
      extends = record {
        cells = λ p lt. cells p (omega arith) ∙ e.cells p lt;
        lives = λ p lt. lives p (omega arith) (omega arith) ∙ e.lives p lt;
        grows = omega arith;
      };
    }

-- `avl_add` of a new block with a record whose name no account has
pub avl_add-Stored :
    (s : Server) (v : UsersValid s) (c : Client)
    → find data_cmp (named c.username) (users s) ≡ none
    → (h : Heap Client) × (tree : AvlTree Client) × (avl_add data_cmp
          (with_client s v c)
          s.user_list
          s.clients.next
          true
          true
        ≡ ok (avl_ok, h, tree))
      × Stored s c h tree
avl_add-Stored s v c missing =
    let ((code, h, tree), e, done) =
      returned _ (avl_add data_cmp (with_client s v c) s.user_list s.clients.next true true) (
        avl_add_new data_cmp data_cmp-IsComparator (with_client s v c) s.user_list s.clients.next
          true true (with_client-IsValid s v c) (omega arith) (with_client-live s v c)
          (with_client-apart s v c) (find-with_client s v c ∙ missing)) in
    (
      h,
      tree,
      e ∙ ap (λ k. ok (k, h, tree)) done.0,
      Stored-of_Returns s v c h tree done.1 done.2 done.3 done.4 done.5 done.6,
    )

-- whether the account with the name of `k` stands in a node with two children
unfoldable pub is_inner : Client → Heap Client → Tree Ptr → Bool
is_inner k h null = false
is_inner k h (node _ d l r) =
    let in_left = is_inner k h l in
    let in_right = is_inner k h r in
    let res = data_cmp k (h.cell d) in
    if is_neg res
    then in_left
    else if is_pos res
    then in_right
    else not (is_null l) && not (is_null r)

is_inner-get :
    (h : Heap Client) (x : Ptr) (t : Tree Ptr)
    → has_both (private_avl_get (cmp_at data_cmp h) x t) ≡ is_inner (h.cell x) h t
unfolding is_inner private_avl_get
is_inner-get h x null = refl
is_inner-get h x (node _ d l r) = ground (arith, is_inner-get h x l, is_inner-get h x r)

is_inner-agree :
    (c : Client) (h h' : Heap Client) (t : Tree Ptr)
    → Extends h h'
    → All (IsBlock h) (elements t)
    → is_inner c h' t ≡ is_inner (named c.username) h t
unfolding is_inner elements data_cmp
is_inner-agree c h h' null e a = refl
is_inner-agree c h h' (node _ d l r) e a =
    let (al, ad, ar) = All-split (IsBlock h) (elements l) d (elements r) a in
    ground (arith, is_inner-agree c h h' l e al, is_inner-agree c h h' r e ar, e.cells d ad.0)

-- what removing the account with the name of `c` makes of the accounts
pub record Dropped (s : Server) (c : Client) (h : Heap Client) (tree : AvlTree Client)
    : Type 0 where
  pub valid : IsValid data_cmp h tree
  pub holds : contents h tree ≡ (
      if is_inner (named c.username) s.clients s.user_list.root
      then users s
      else remove data_cmp (named c.username) (users s))
  pub file : tree.file ≡ contents h tree
  pub extends : Extends s.clients h

pub avl_remove-Dropped :
    (s : Server) (v : UsersValid s) (c : Client) {r : Client}
    → find data_cmp (named c.username) (users s) ≡ some r
    → (h : Heap Client) × (tree : AvlTree Client) × (avl_remove data_cmp
          (with_client s v c)
          s.user_list
          s.clients.next
          true
          true
        ≡ ok (avl_ok, h, tree))
      × Dropped s c h tree
avl_remove-Dropped s v c there =
    let ((code, h, tree), e, done) =
      returned _ (avl_remove data_cmp (with_client s v c) s.user_list s.clients.next true true) (
        avl_remove_present data_cmp data_cmp-IsComparator (with_client s v c) s.user_list
          s.clients.next true true (with_client-IsValid s v c) (with_client-live s v c)
          (with_client-apart s v c) (find-with_client s v c ∙ there)) in
    let made-Extends = Extends-malloc c s.clients in
    let inner =
      is_inner-get (with_client s v c) s.clients.next s.user_list.root
      ∙ ap (λ k. is_inner k (with_client s v c) s.user_list.root) (with_client-cell s v c)
      ∙ is_inner-agree c s.clients (with_client s v c) s.user_list.root made-Extends v.allocated in
    let kept : remove data_cmp ((with_client s v c).cell s.clients.next)
          (contents (with_client s v c) s.user_list)
        ≡ remove data_cmp (named c.username) (users s) =
      ap₂ (remove data_cmp) (with_client-cell s v c) (with_client-contents s v c)
      ∙ remove-named c (users s) in
    (
      h,
      tree,
      e ∙ ap (λ k. ok (k, h, tree)) done.0,
      record {
        valid = done.1;
        holds = done.2 ∙ if_agree inner (with_client-contents s v c) kept;
        file = done.3;
        extends = record {
          cells = λ p lt. ap (λ f. f p) done.5 ∙ made-Extends.cells p lt;
          lives = λ p lt. done.6 p (omega arith) ∙ made-Extends.lives p lt;
          grows = omega (arith, done.7);
        };
      },
    )
