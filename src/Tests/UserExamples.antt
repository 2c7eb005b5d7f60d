-- ===== src/Tests/UserExamples.antt =====
-- The theorems on the accounts at concrete commands.
use mathlib.Core.List.{map}
use rc_project.Base.{
  arith, ◌≡◌, refl, List, [], ◌∷◌, ◌++◌, pos, true, Returns, ◌>>=◌, none, some, if◌then◌else◌,
}
use rc_project.Memory.{Extends}
use rc_project.Text.{codes, strcmp}
use rc_project.Avl.{elements}
use rc_project.Avl.Order.{find, insert_sorted, remove}
use rc_project.Avl.Sorting.{insert_all}
use rc_project.Server.{Server, data_cmp}
use rc_project.Server.Admin.{NewUser, add_user, delete_user}
use rc_project.Server.Boot.{boot}
use rc_project.Server.Users.{users, UsersValid, Fits, named}
use rc_project.Server.Users.Effects.{is_inner}
use rc_project.Server.Users.Change.{new_record, Answers, add_user_new, delete_user_present}
use rc_project.Server.Users.Persist.{
  stored, Persisted, Op, add, del, OpsFit, run_ops, restart-users,
}
use rc_project.Tests.{junk_client, junk_session, junk_group}
use rc_project.Tests.Fixtures.{alice, bob, carol, server, users-IsValid}

abbrev dave : NewUser
dave = record {
  username = codes "dave";
  ip = codes "10.0.0.9";
  password = codes "abc";
  client_server = pos 1;
  p2p = pos 0;
  group = pos 1;
}

abbrev alice_again : NewUser
alice_again = record dave { username = codes "alice" }

abbrev s : Server
s = server 1 true 1

dave-Fits : Fits (codes "dave") (codes "abc") (codes "10.0.0.9")
dave-Fits = record {
  username_fits = omega arith;
  password_fits = omega arith;
  ip_fits = omega arith;
}

alice_again-Fits : Fits (codes "alice") (codes "abc") (codes "10.0.0.9")
alice_again-Fits = record {
  username_fits = omega arith;
  password_fits = omega arith;
  ip_fits = omega arith;
}

-- adds `dave`, deletes `carol`, who stands in a leaf, and `bob`, who has two children
abbrev ops : List Op
ops = add dave ∷ del (codes "carol") ∷ del (codes "bob") ∷ []

ops-OpsFit : OpsFit ops
ops-OpsFit = (dave-Fits, (omega arith, (omega arith, tt)))

s-Persisted : Persisted s
unfolding insert_all insert_sorted data_cmp strcmp elements
s-Persisted = refl

no_dave : find data_cmp (named (codes "dave")) (users s) ≡ none
unfolding find data_cmp strcmp elements
no_dave = refl

an_alice : find data_cmp (named (codes "alice")) (users s) ≡ some alice
unfolding find data_cmp strcmp elements
an_alice = refl

a_bob : find data_cmp (named (codes "bob")) (users s) ≡ some bob
unfolding find data_cmp strcmp elements
a_bob = refl

restart-users_example :
    Returns
      (λ s.
        Returns
          (λ s'. map stored (users s') ≡ map stored (users s))
          (boot junk_client junk_session junk_group s.user_list.file))
      (boot junk_client junk_session junk_group (bob ∷ alice ∷ carol ∷ bob ∷ []) >>= run_ops 9 ops)
restart-users_example =
    restart-users junk_client junk_session junk_group 9 (bob ∷ alice ∷ carol ∷ bob ∷ []) ops
      ops-OpsFit

add_user_new_example :
    Returns
      (λ s'.
        UsersValid s'
        × (users s'
            ≡ insert_sorted data_cmp (new_record 9 dave s users-IsValid dave-Fits) (users s))
        × (s'.user_list.file
            ≡ s.user_list.file ++ (new_record 9 dave s users-IsValid dave-Fits ∷ []))
        × Extends s.clients s'.clients
        × Answers 9 (codes "User " ++ codes "dave" ++ codes " created.\n") s s')
      (add_user 9 dave s)
add_user_new_example = add_user_new 9 dave s users-IsValid dave-Fits no_dave

delete_user_present_example :
    Returns
      (λ s'.
        UsersValid s'
        × (users s' ≡ (
            if is_inner (named (codes "bob")) s.clients s.user_list.root
            then users s
            else remove data_cmp (named (codes "bob")) (users s)))
        × (s'.user_list.file ≡ users s')
        × Extends s.clients s'.clients
        × Answers 9 (codes "User " ++ codes "bob" ++ codes " deleted.\n") s s')
      (delete_user 9 (codes "bob") s)
delete_user_present_example =
    delete_user_present 9 (codes "bob") s users-IsValid (omega arith) a_bob
