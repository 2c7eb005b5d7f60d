-- ===== src/Server/Safety/Administration.antt =====
-- The commands of the administrator in a valid state, and the conditions on them.
use rc_project.Avl.Handle.{avl_print_client, AvlTree}
use rc_project.Avl.Handle.Refines.{private_avl_print_client-elements}
use rc_project.Server.{
  send_to_client, Server, Client, data_cmp, username_size, password_size, ip_size, write_fd,
}
use rc_project.Base.{
  ◌<◌, ◌≡◌, ap, arith, ℕ, List, [], ◌∷◌, Option, none, some, inl, inr, false, true, ok, Returns,
  returned, Option-cases, Bool-cases, Bool, length, All, if◌then◌else◌, ℤ, All-imp,
}
use rc_project.Memory.{Heap, Extends}
use rc_project.Text.{codes, Bytes, remove_end_line, strtok_r, parse_cmd}
use rc_project.Text.Scan.{scan_word, scan_int}
use rc_project.Text.Scan.Fits.{scan_word-fits, >=>-eq-some}
use rc_project.Avl.Order.{find, All-insert_sorted, All-remove}
use rc_project.Server.Users.{users, UsersValid, Fits, named}
use rc_project.Server.Users.Effects.{is_inner}
use rc_project.Server.Users.Change.{
  new_record, add_user_new, add_user_duplicate, delete_user_present, delete_user_missing,
}
use rc_project.Server.Users.Persist.{Persisted, add_user-Persisted, delete_user-Persisted}
use rc_project.Server.Commands.Login.{IsFlag}
use rc_project.Server.Admin
use rc_project.Server.Admin.{
  NewUser, AdminCommand, list, add, del, quit, scan_add, cmd_list, add_user, cmd_add, delete_user,
  cmd_del, cmd_quit, cmd_functions, commands, cmd_function, run_command,
}
use rc_project.Server.Sessions.{sessions_of}
use rc_project.Server.Safety.{
  ServerValid, IsBound-Extends, HasFlags, sent-ServerValid, write_fd-ServerValid,
}

-- a change of the accounts alone, and an answer
module _ (s s' : Server) (v : ServerValid s) (socket : ℕ) (text : Bytes) (h : Heap Client)
    (tree : AvlTree Client)
    (e : s' ≡ write_fd socket text (record s { clients = h; user_list = tree })) where
  accounts_changed :
      UsersValid s'
      → Extends s.clients s'.clients
      → All HasFlags (users s')
      → Persisted s'
      → ServerValid s'
  unfolding write_fd
  accounts_changed valid grows flags persisted = record {
    accounts = valid;
    sessions = rw e v.sessions;
    groups = rw e v.groups;
    bound =
        rw (ap (λ (t : Server). sessions_of t) e)
          (All-imp (λ x. IsBound-Extends s.clients s'.clients x grows) (sessions_of s) v.bound);
    peers = rw (ap (λ (t : Server). sessions_of t) e) v.peers;
    flags = flags;
    persisted = persisted;
    addresses = rw e v.addresses;
  }

-- the permissions of a new account are 0 or 1
abbrev pub AddFits : Option NewUser → Type 0
AddFits none = Unit
AddFits (some u) = IsFlag u.client_server × IsFlag u.p2p × IsFlag u.group

module _ (socket : ℕ) (s : Server) (v : ServerValid s) where
  add_user-ServerValid :
      (u : NewUser)
      → Fits u.username u.password u.ip
      → AddFits (some u)
      → Returns ServerValid (add_user socket u s)
  add_user-ServerValid u fits flags =
      let (t, e, valid, persisted) = add_user-Persisted socket u s v.accounts v.persisted fits in
      elim (Option-cases (find data_cmp (named u.username) (users s))) [
        | inl missing ↦
            let (s', e', done) =
              returned _ (add_user socket u s) (add_user_new socket u s v.accounts fits missing) in
            let same : t ≡ s' = cc in
            let all : All HasFlags (users s') = rw done.1 (
              All-insert_sorted data_cmp HasFlags (new_record socket u s v.accounts fits) (users s)
                flags v.flags) in
            rw e' (
              accounts_changed s s' v socket _ s'.clients s'.user_list done.4 done.0 done.3 all
                (rw same at persisted))
        | inr (r, there) ↦
            let (s', e', done) =
              returned _ (add_user socket u s)
                (add_user_duplicate socket u s v.accounts fits there) in
            let same : t ≡ s' = cc in
            rw e' (
              accounts_changed s s' v socket _ s'.clients s'.user_list done.4 done.0 done.3
                (rw done.1 v.flags) (rw same at persisted))
      ]

  delete_user-ServerValid :
      (username : Bytes)
      → length username < username_size
      → Returns ServerValid (delete_user socket username s)
  delete_user-ServerValid username fits =
      let (t, e, valid, persisted) =
        delete_user-Persisted socket username s v.accounts v.persisted fits in
      elim (Option-cases (find data_cmp (named username) (users s))) [
        | inl missing ↦
            let (s', e', done) =
              returned _ (delete_user socket username s)
                (delete_user_missing socket username s v.accounts fits missing) in
            let same : t ≡ s' = cc in
            rw e' (
              accounts_changed s s' v socket _ s'.clients s'.user_list done.4 done.0 done.3
                (rw done.1 v.flags) (rw same at persisted))
        | inr (r, there) ↦
            let (s', e', done) =
              returned _ (delete_user socket username s)
                (delete_user_present socket username s v.accounts fits there) in
            let same : t ≡ s' = cc in
            let all : All HasFlags (users s') =
              rw done.1 (elim (Bool-cases (is_inner (named username) s.clients s.user_list.root)) [
                | inl inner ↦ rw inner v.flags
                | inr outer ↦
                    rw outer (All-remove data_cmp HasFlags (named username) (users s) v.flags)
              ]) in
            rw e' (
              accounts_changed s s' v socket _ s'.clients s'.user_list done.4 done.0 done.3 all
                (rw same at persisted))
      ]

scan_add-Fits :
    (args : Bytes) (u : NewUser) → scan_add args ≡ ok (some u) → Fits u.username u.password u.ip
scan_add-Fits args u e =
    let (username, r1, e1, f1) = >=>-eq-some (scan_word username_size args) _ e in
    let (ip, r2, e2, f2) = >=>-eq-some (scan_word ip_size r1) _ f1 in
    let (password, r3, e3, f3) = >=>-eq-some (scan_word password_size r2) _ f2 in
    let (a, r4, e4, f4) = >=>-eq-some (scan_int r3) _ f3 in
    let (b, r5, e5, f5) = >=>-eq-some (scan_int r4) _ f4 in
    let (c, r6, e6, f6) = >=>-eq-some (scan_int r5) _ f5 in
    let same_username : username ≡ u.username = ground arith in
    let same_ip : ip ≡ u.ip = ground arith in
    let same_password : password ≡ u.password = ground arith in
    record {
      username_fits = scan_word-fits username_size args (rw same_username at e1);
      password_fits = scan_word-fits password_size r2 (rw same_password at e3);
      ip_fits = scan_word-fits ip_size r1 (rw same_ip at e2);
    }

-- the conversions of a command do not write past the ends of their arrays, nor read a number out of
-- range, and ADD gives permissions that are 0 or 1
abbrev pub ArgsFit : AdminCommand → Bytes → Type 0
ArgsFit list args = Unit
ArgsFit add args = Returns AddFits (scan_add args)
ArgsFit del args = Returns (λ o. Unit {0}) (scan_word username_size args)
ArgsFit quit args = Unit

-- so for the command of the table that the word names, if there is one
abbrev pub CommandFits : List (Bytes × AdminCommand) → (command : Bytes) → Bytes → Type 0
CommandFits [] command args = Unit
CommandFits ((name, f) ∷ rest) command args =
    if parse_cmd (some command) name then ArgsFit f args else CommandFits rest command args

-- the command word and the arguments of what the administrator typed
abbrev pub typed_words : Bytes → Bytes × Bytes
typed_words text = strtok_r (remove_end_line text)

abbrev pub TypedFits : Bytes → Type 0
TypedFits text = CommandFits commands (typed_words text).0 (typed_words text).1

module _ (socket : ℕ) (s : Server) (v : ServerValid s) where
  added :
      (args : Bytes) (o : Option NewUser)
      → scan_add args ≡ ok o
      → AddFits o
      → Returns (λ (exit, s'). ServerValid s') (cmd_add socket args s)
  unfolding cmd_add
  added args none e h = rw e (write_fd-ServerValid socket _ s v)
  added args (some u) e h =
      let (s', f, v') =
        returned _ (add_user socket u s)
          (add_user-ServerValid socket s v u (scan_add-Fits args u e) h) in
      rw e (rw f v')

  deleted :
      (args : Bytes) (o : Option (Bytes × Bytes))
      → scan_word username_size args ≡ ok o
      → Returns (λ (exit, s'). ServerValid s') (cmd_del socket args s)
  unfolding cmd_del
  deleted args none e = rw e (write_fd-ServerValid socket _ s v)
  deleted args (some (username, rest)) e =
      let (s', f, v') =
        returned _ (delete_user socket username s)
          (delete_user-ServerValid socket s v username (scan_word-fits username_size args e)) in
      rw e (rw f v')

  cmd_functions-ServerValid :
      (f : AdminCommand) (args : Bytes)
      → ArgsFit f args
      → Returns (λ (exit, s'). ServerValid s') (cmd_functions f socket args s)
  unfolding cmd_functions cmd_list cmd_quit avl_print_client
  cmd_functions-ServerValid list args h =
      rw
        (private_avl_print_client-elements s.clients (send_to_client socket) s.user_list.root
          v.accounts.allocated)
        (sent-ServerValid _ s v)
  cmd_functions-ServerValid add args h = let (o, e, h') = returned _ _ h in added args o e h'
  cmd_functions-ServerValid del args h = let (o, e, _) = returned _ _ h in deleted args o e
  cmd_functions-ServerValid quit args h = v

  dispatch-ServerValid :
      (table : List (Bytes × AdminCommand)) (command args : Bytes) (exit : ℤ)
      → CommandFits table command args
      → Returns
          (λ (known, exit', s'). ServerValid s')
          (Admin.dispatch table command socket args exit s)
  unfolding Admin.dispatch
  dispatch-ServerValid [] command args exit h = v
  dispatch-ServerValid ((name, f) ∷ rest) command args exit h =
      elim (Bool-cases (parse_cmd (some command) name)) [
        | inl hit ↦
            let ((exit', s'), e, v') =
              returned _ (cmd_functions f socket args s)
                (cmd_functions-ServerValid f args (rw hit at h)) in
            rw (hit, e) v'
        | inr miss ↦ rw miss (dispatch-ServerValid rest command args exit (rw miss at h))
      ]

  answered-ServerValid :
      (known : Bool) (text : Bytes) (s' : Server)
      → ServerValid s'
      → ServerValid (if known then s' else write_fd socket text s')
  answered-ServerValid true text s' v' = v'
  answered-ServerValid false text s' v' = write_fd-ServerValid socket text s' v'

  -- In a valid state the server runs every command of the administrator whose words fit their
  -- arrays, whose numbers are in range and which gives permissions that are 0 or 1, known command or
  -- not: it does not fault, and the new state is valid.
  pub run_command-ServerValid :
      (text : Bytes) (exit : ℤ)
      → TypedFits text
      → Returns (λ (exit', s'). ServerValid s') (run_command socket text exit s)
  unfolding run_command cmd_function
  run_command-ServerValid text exit h =
      let ((known, exit', s'), e, v') =
        returned _ (Admin.dispatch commands (typed_words text).0 socket (typed_words text).1 exit s)
          (dispatch-ServerValid commands (typed_words text).0 (typed_words text).1 exit h) in
      rw e (answered-ServerValid known (codes "Command not found\n") s' v')
