-- ===== src/Server/Users/Persist.antt =====
-- The records file against the accounts in memory, over the commands of the administrator.
use mathlib.Core.List.{map, map-append}
use rc_project.Base.{
  ℕ, ◌<◌, ◌≡◌, refl, ap, sym, ◌∙◌, List, [], ◌∷◌, ◌++◌, pos, Run, ok, Returns, length, returned,
  Option-cases, inl, inr, ◌>>=◌, All,
}
use rc_project.Text.{Bytes}
use rc_project.Avl.Order.{find, insert_sorted, IsSorted}
use rc_project.Avl.Sorting.{insert_all, insert_all-append, insert_all-IsSorted}
use rc_project.Avl.Handle.Mapped.{map-insert_sorted, IsSorted-map}
use rc_project.Avl.Handle.Refines.{contents-IsSorted}
use rc_project.Server.{Server, Client, Session, Group, data_cmp, username_size}
use rc_project.Server.Admin.{NewUser, add_user, delete_user}
use rc_project.Server.Boot.{boot}
use rc_project.Server.Compare.{data_cmp-IsComparator}
use rc_project.Server.Users.{Fits, users, named, UsersValid}
use rc_project.Server.Users.Change.{
  new_record, add_user_new, add_user_duplicate, delete_user_present, delete_user_missing,
}
use rc_project.Server.Users.Restart.{boot-users}

-- what a record keeps over a restart: all but the port, which a login sets in memory alone
abbrev pub stored : Client → Client
stored c = record c { port = pos 0 }

-- sorting the file's records, the first of each name, gives the accounts in memory
abbrev pub Persisted : Server → Type 0
Persisted s = insert_all data_cmp [] (map stored s.user_list.file) ≡ map stored (users s)

map-stored-insert_sorted :
    (c : Client) (xs : List Client)
    → map stored (insert_sorted data_cmp c xs) ≡ insert_sorted data_cmp (stored c) (map stored xs)
unfolding data_cmp
map-stored-insert_sorted c xs = map-insert_sorted stored data_cmp c xs

pub map-stored-insert_all :
    (acc xs : List Client)
    → map stored (insert_all data_cmp acc xs) ≡ insert_all data_cmp (map stored acc) (map stored xs)
unfolding insert_all
map-stored-insert_all acc [] = refl
map-stored-insert_all acc (x ∷ xs) =
    map-stored-insert_all (insert_sorted data_cmp x acc) xs
    ∙ ap (λ l. insert_all data_cmp l (map stored xs)) (map-stored-insert_sorted x acc)

IsSorted-stored : (xs : List Client) → IsSorted data_cmp xs → IsSorted data_cmp (map stored xs)
unfolding data_cmp
IsSorted-stored xs s = IsSorted-map stored data_cmp xs s

insert_all_snoc :
    (acc xs : List Client) (x : Client)
    → insert_all data_cmp acc (xs ++ (x ∷ []))
      ≡ insert_sorted data_cmp x (insert_all data_cmp acc xs)
unfolding insert_all
insert_all_snoc acc xs x = insert_all-append data_cmp acc xs (x ∷ [])

-- ADD keeps the file in step with the accounts, whether or not the name is taken.
pub add_user-Persisted :
    (socket : ℕ) (u : NewUser) (s : Server)
    → UsersValid s
    → Persisted s
    → Fits u.username u.password u.ip
    → (s' : Server) × (add_user socket u s ≡ ok s') × UsersValid s' × Persisted s'
add_user-Persisted socket u s v p fits =
    elim (Option-cases (find data_cmp (named u.username) (users s))) [
      | inl missing ↦
          let (s', e, done) =
            returned _ (add_user socket u s) (add_user_new socket u s v fits missing) in
          let c = new_record socket u s v fits in
          (
            s',
            e,
            done.0,
            ap (λ l. insert_all data_cmp [] (map stored l)) done.2
                ∙ ap (insert_all data_cmp []) (map-append stored s.user_list.file (c ∷ []))
                ∙ insert_all_snoc [] (map stored s.user_list.file) (stored c)
                ∙ ap (insert_sorted data_cmp (stored c)) p
                ∙ sym (map-stored-insert_sorted c (users s))
                ∙ ap (map stored) (sym done.1),
          )
      | inr (r, there) ↦
          let (s', e, done) =
            returned _ (add_user socket u s) (add_user_duplicate socket u s v fits there) in
          (
            s',
            e,
            done.0,
            ap (λ t. insert_all data_cmp [] (map stored t.file)) done.2
                ∙ p
                ∙ ap (map stored) (sym done.1),
          )
    ]

-- DEL keeps the file in step with the accounts, whether or not it finds and removes one.
pub delete_user-Persisted :
    (socket : ℕ) (username : Bytes) (s : Server)
    → UsersValid s
    → Persisted s
    → length username < username_size
    → (s' : Server) × (delete_user socket username s ≡ ok s') × UsersValid s' × Persisted s'
delete_user-Persisted socket username s v p fits =
    elim (Option-cases (find data_cmp (named username) (users s))) [
      | inl missing ↦
          let (s', e, done) =
            returned _ (delete_user socket username s)
              (delete_user_missing socket username s v fits missing) in
          (
            s',
            e,
            done.0,
            ap (λ t. insert_all data_cmp [] (map stored t.file)) done.2
                ∙ p
                ∙ ap (map stored) (sym done.1),
          )
      | inr (r, there) ↦
          let (s', e, done) =
            returned _ (delete_user socket username s)
              (delete_user_present socket username s v fits there) in
          (
            s',
            e,
            done.0,
            ap (λ l. insert_all data_cmp [] (map stored l)) done.2
                ∙ insert_all-IsSorted data_cmp data_cmp-IsComparator (map stored (users s')) (
                    IsSorted-stored (users s') (
                      contents-IsSorted data_cmp data_cmp-IsComparator s'.clients s'.user_list
                        done.0)),
          )
    ]

-- the commands that change the accounts, with their arguments
pub data Op : Type 0 where
  add : NewUser → Op
  del : Bytes → Op

abbrev pub OpFits : Op → Type 0
OpFits (add u) = Fits u.username u.password u.ip
OpFits (del username) = length username < username_size

abbrev pub OpsFit : List Op → Type 0
OpsFit = All OpFits

unfoldable pub run_op : (socket : ℕ) → Op → Server → Run Server
run_op socket (add u) s = add_user socket u s
run_op socket (del username) s = delete_user socket username s

unfoldable pub run_ops : (socket : ℕ) → List Op → Server → Run Server
unfolding run_op
run_ops socket [] s = ok s
run_ops socket (op ∷ ops) s = do s' ← run_op socket op s; run_ops socket ops s'

run_op-Persisted :
    (socket : ℕ) (op : Op) (s : Server)
    → UsersValid s
    → Persisted s
    → OpFits op
    → (s' : Server) × (run_op socket op s ≡ ok s') × UsersValid s' × Persisted s'
unfolding run_op
run_op-Persisted socket (add u) s v p fits = add_user-Persisted socket u s v p fits
run_op-Persisted socket (del username) s v p fits = delete_user-Persisted socket username s v p fits

-- From valid accounts that the file is in step with, any commands ADD and DEL whose words fit their
-- arrays run without a fault to valid accounts that the file is in step with.
pub run_ops-Persisted :
    (socket : ℕ) (ops : List Op) (s : Server)
    → UsersValid s
    → Persisted s
    → OpsFit ops
    → Returns (λ s'. UsersValid s' × Persisted s') (run_ops socket ops s)
unfolding run_ops
run_ops-Persisted socket [] s v p fits = (v, p)
run_ops-Persisted socket (op ∷ ops) s v p (fits, rest) =
    let (s', e, v', p') = run_op-Persisted socket op s v p fits in
    rw e (run_ops-Persisted socket ops s' v' p' rest)

module _ (junk : Client) (junk_session : Session) (junk_group : Group) where
  started :
      (records : List Client)
      → (s' : Server) × (boot junk junk_session junk_group records ≡ ok s')
        × UsersValid s'
        × (users s' ≡ insert_all data_cmp [] records)
        × (s'.user_list.file ≡ records)
  started records =
      let (s', e, done) =
        returned _ (boot junk junk_session junk_group records)
          (boot-users junk junk_session junk_group records) in
      (s', e, done.0, done.1, done.2)

  -- Where the file is in step with the accounts, a start of the server on that file succeeds, has
  -- the same accounts but for their ports, and is again in step.
  pub boot-Persisted :
      (s : Server)
      → Persisted s
      → Returns
          (λ s'. UsersValid s' × (map stored (users s') ≡ map stored (users s)) × Persisted s')
          (boot junk junk_session junk_group s.user_list.file)
  boot-Persisted s p =
      let (s', e, v, same, file) = started s.user_list.file in
      let again = ap (map stored) same ∙ map-stored-insert_all [] s.user_list.file in
      rw e (v, again ∙ p, ap (λ l. insert_all data_cmp [] (map stored l)) file ∙ sym again)

  -- A server that is started on any records file, changed by commands ADD and DEL whose words fit
  -- their arrays, and started again on the file that it left, has the same accounts as before the
  -- second start, but for their ports.
  pub restart-users :
      (socket : ℕ) (records : List Client) (ops : List Op)
      → OpsFit ops
      → Returns
          (λ s.
            Returns
              (λ s'. map stored (users s') ≡ map stored (users s))
              (boot junk junk_session junk_group s.user_list.file))
          (boot junk junk_session junk_group records >>= run_ops socket ops)
  restart-users socket records ops fits =
      let (s0, e0, v, same, file) = started records in
      let p : Persisted s0 =
        ap (λ l. insert_all data_cmp [] (map stored l)) file
        ∙ sym (ap (map stored) same ∙ map-stored-insert_all [] records) in
      let (s1, e1, (_, p1)) =
        returned _ (run_ops socket ops s0) (run_ops-Persisted socket ops s0 v p fits) in
      let (s2, e2, (_, again, _)) =
        returned _ (boot junk junk_session junk_group s1.user_list.file) (boot-Persisted s1 p1) in
      rw (e0, e1, e2) again
