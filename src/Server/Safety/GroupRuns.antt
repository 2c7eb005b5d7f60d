-- ===== src/Server/Safety/GroupRuns.antt =====
-- The groups in a run of the server.
use rc_project.Server.{
  send_to_client, Server, Group, group_cmp, data_cmp, new_client, write_fd, username_size,
  max_group_name, groups,
}
use rc_project.Avl.Handle.{
  avl_print_client, avl_add, avl_remove, avl_duplicated_key, avl_key_not_found,
}
use rc_project.Base.{
  ℕ, ◌<◌, ◌≡◌, refl, sym, ◌∙◌, ℤ, pos, List, [], ◌∷◌, ◌++◌, none, some, Bool, true, false,
  if◌then◌else◌, ok, ◌>>=◌, Returns, returned, Holds, Holds-ok, Holds-bind, Holds-if, Holds-any,
  Holds-option, All, length, is_nonzero, get_elem?,
}
use rc_project.Memory.{Ptr, IsBlock}
use rc_project.Text.{Bytes, codes, remove_end_line, strtok_r, parse_cmd}
use rc_project.Text.Scan.{scan_word}
use rc_project.Avl.Order.{find}
use rc_project.Server.Admin
use rc_project.Server.Admin.{
  NewUser, AdminCommand, list, add, del, quit, scan_add, is_code, cmd_list, add_user, cmd_add,
  delete_user, cmd_del, cmd_quit, cmd_functions, commands, cmd_function, run_command,
}
use rc_project.Server.Compare.{group_cmp-IsComparator}
use rc_project.Server.Sessions.{find-insert_sorted}
use rc_project.Server.Commands.{scan_name}
use rc_project.Server.Commands.Multicast.{cmd_createmulticast}
use rc_project.Server.Groups.{groups_of, grp, find-called}
use rc_project.Server.Groups.Create.{cmd_createmulticast-new}
use rc_project.Server.Safety.Targets.{own_account}
use rc_project.Server.Safety.Multicast.{cmd_createmulticast-Onward}
use rc_project.Server.Safety.{ServerValid, IsBound}
use rc_project.Server.Safety.Lasting.{Onward, Lasts-trans, SameGroups, SameGroups-Lasts}
use rc_project.Server.Safety.Datagrams.{udp_server_worker-Onward}
use rc_project.Server.Safety.Administration.{run_command-ServerValid}
use rc_project.Server.Safety.Runs.{Event, received, typed, run_event, run_events, EventFits}

module _ (t : Server) (socket : ℕ) where
  abbrev Same : Server → Type 0
  Same = SameGroups t

  -- what a command stores, and the state
  abbrev SameAfter : ℤ × Server → Type 0
  SameAfter (exit, s) = Same s

  write_fd-Same : (text : Bytes) (s : Server) → Same s → Same (write_fd socket text s)
  unfolding write_fd
  write_fd-Same text s k = record { heap = k.heap; tree = k.tree }

  add_user-Same : (u : NewUser) (s : Server) → Same s → Holds Same (add_user socket u s)
  unfolding add_user
  add_user-Same u s k =
      Holds-any Same (new_client u.username u.password u.ip u.client_server u.p2p u.group s.clients)
        _
        (λ (client, h).
          Holds-any Same (avl_add data_cmp h s.user_list client true true) _ (λ (res, h', tree).
            let k' : Same (record s { clients = h'; user_list = tree }) = record {
              heap = k.heap;
              tree = k.tree;
            } in
            Holds-if Same (is_code res avl_duplicated_key) _ _
              (write_fd-Same (codes "User already exists\n") _ k')
              (write_fd-Same (codes "User " ++ u.username ++ codes " created.\n") _ k')))

  delete_user-Same :
      (username : Bytes) (s : Server) → Same s → Holds Same (delete_user socket username s)
  unfolding delete_user
  delete_user-Same username s k =
      Holds-any Same (new_client username [] [] (pos 1) (pos 1) (pos 1) s.clients) _ (λ (client, h).
        Holds-any Same (avl_remove data_cmp h s.user_list client true true) _ (λ (res, h', tree).
          let k' : Same (record s { clients = h'; user_list = tree }) = record {
            heap = k.heap;
            tree = k.tree;
          } in
          Holds-if Same (is_code res avl_key_not_found) _ _
            (write_fd-Same (codes "User not found\n") _ k')
            (write_fd-Same (codes "User " ++ username ++ codes " deleted.\n") _ k')))

  cmd_functions-Same :
      (f : AdminCommand) (args : Bytes) (s : Server)
      → Same s
      → Holds SameAfter (cmd_functions f socket args s)
  unfolding cmd_functions cmd_list cmd_add cmd_del cmd_quit
  cmd_functions-Same list args s k =
      Holds-any SameAfter (avl_print_client s.clients (send_to_client socket) s.user_list) _
        (λ packets. record { heap = k.heap; tree = k.tree })
  cmd_functions-Same add args s k = Holds-any SameAfter (scan_add args) _ (λ words.
      Holds-bind Same SameAfter _ _
        (Holds-option Same words _ _ (write_fd-Same _ s k) (λ u. add_user-Same u s k))
        (λ s' k'. k'))
  cmd_functions-Same del args s k = Holds-any SameAfter (scan_word username_size args) _ (λ words.
      Holds-bind Same SameAfter _ _
        (Holds-option Same words _ _ (write_fd-Same _ s k)
          (λ (username, rest). delete_user-Same username s k))
        (λ s' k'. k'))
  cmd_functions-Same quit args s k = k

  -- whether the command was found, what is stored, and the state
  abbrev SameFound : Bool × ℤ × Server → Type 0
  SameFound (found, exit, s) = Same s

  dispatch-Same :
      (table : List (Bytes × AdminCommand)) (command args : Bytes) (exit : ℤ) (s : Server)
      → Same s
      → Holds SameFound (Admin.dispatch table command socket args exit s)
  unfolding Admin.dispatch
  dispatch-Same [] command args exit s k = k
  dispatch-Same ((name, f) ∷ rest) command args exit s k =
      Holds-if SameFound (parse_cmd (some command) name) _ _
        (Holds-bind SameAfter SameFound (cmd_functions f socket args s) _
          (cmd_functions-Same f args s k) (λ (exit', s') k'. k'))
        (dispatch-Same rest command args exit s k)

  answered-Same :
      (found : Bool) (s : Server)
      → Same s
      → Same (if found then s else write_fd socket (codes "Command not found\n") s)
  answered-Same true s k = k
  answered-Same false s k = write_fd-Same (codes "Command not found\n") s k

  cmd_function-Same :
      (text : Bytes) (exit : ℤ) (s : Server)
      → Same s
      → Holds SameFound (cmd_function socket text exit s)
  unfolding cmd_function
  cmd_function-Same text exit s k =
      let (command, args) = strtok_r (remove_end_line text) in
      dispatch-Same commands command args exit s k

  run_command-Same :
      (text : Bytes) (exit : ℤ) (s : Server)
      → Same s
      → Holds SameAfter (run_command socket text exit s)
  unfolding run_command
  run_command-Same text exit s k =
      Holds-bind SameFound SameAfter (cmd_function socket text exit s) _
        (cmd_function-Same text exit s k) (λ (known, exit', s1) k'. answered-Same known s1 k')

run_event-Onward :
    (socket : ℕ) (e : Event) (s : Server)
    → ServerValid s
    → EventFits e
    → Returns (Onward s) (run_event socket e s)
unfolding run_event
run_event-Onward socket (received r) s v fits = udp_server_worker-Onward socket r s v fits
run_event-Onward socket (typed admin text exit) s v fits =
    let ((exit', s'), e, v') =
      returned _ (run_command admin text exit s)
        (run_command-ServerValid admin s v text exit fits) in
    let k =
      Holds-ok (SameAfter s admin) (exit', s')
        (run_command-Same s admin text exit s (record { heap = refl; tree = refl })) e in
    rw e (v', SameGroups-Lasts s s' k)

run_events-Onward :
    (socket : ℕ) (es : List Event) (s : Server)
    → ServerValid s
    → All EventFits es
    → Returns (Onward s) (run_events socket es s)
unfolding run_events
run_events-Onward socket [] s v fits = (v, λ name g e. e)
run_events-Onward socket (e ∷ es) s v (fit, fits) =
    let (s', f, (v', l)) = returned _ (run_event socket e s) (run_event-Onward socket e s v fit) in
    let (s'', f', (v'', l')) =
      returned _ (run_events socket es s') (run_events-Onward socket es s' v' fits) in
    rw (f, f') (v'', Lasts-trans s s' s'' l l')

-- From a valid state in which there is a group with a name, any datagrams and commands of the
-- administrator that fit, in any order, lead to a valid state, without a fault,
-- in which the same group is found by the name, with the same address.
pub run_events-group :
    (socket : ℕ) (es : List Event) (s : Server) (name : Bytes) (g : Group)
    → ServerValid s
    → All EventFits es
    → find group_cmp (grp name []) (groups_of s) ≡ some g
    → Returns
        (λ s'. ServerValid s' × (find group_cmp (grp name []) (groups_of s') ≡ some g))
        (run_events socket es s)
run_events-group socket es s name g v fits there =
    let (s', f, (v', l)) =
      returned _ (run_events socket es s) (run_events-Onward socket es s v fits) in
    rw f (v', l name g there)

module _ (p : Ptr) (args name : Bytes) (s : Server) (v : ServerValid s)
    (block : IsBlock s.sessions p) (bound : IsBound s.clients (s.sessions.cell p))
    (on : (s.sessions.cell p).logged_in ≡ true)
    (allowed : is_nonzero (s.clients.cell (s.sessions.cell p).client).group ≡ true)
    (scanned : scan_name max_group_name args ≡ ok (some name))
    (fits : length name < max_group_name) where
  -- In a valid state, in a session in use that points to the record of its account, is logged in
  -- and has the permission for groups: CREATEMULTICAST with a name that fits its array and is not
  -- taken, while addresses are left, and after it any datagrams and commands of the administrator
  -- that fit, in any order, lead without a fault to a valid state in which the name is found with
  -- the address that was the next one of the table when the group was created. A datagram fits if
  -- it has less than BUFFER_SIZE bytes, the words of its command fit their arrays, and the field
  -- `client` of a session that it makes, which the code leaves as the stack has it, is NULL. A
  -- command fits if its words fit their arrays, its numbers are in range, and the permissions that
  -- ADD gives are 0 or 1.
  pub cmd_createmulticast-run_events :
      {ip : Bytes} (socket : ℕ) (es : List Event)
      → find group_cmp (grp name ip) (groups_of s) ≡ none
      → get_elem? groups s.current_group ≡ some ip
      → All EventFits es
      → Returns
          (λ s'.
            ServerValid s' × (find group_cmp (grp name []) (groups_of s') ≡ some (grp name ip)))
          (cmd_createmulticast p args s >>= run_events socket es)
  cmd_createmulticast-run_events {ip} socket es missing next events =
      let own = own_account s.clients (s.sessions.cell p) bound on in
      let (s1, e, done) = returned _ (cmd_createmulticast p args s) (
        cmd_createmulticast-new p args name s v.groups block.1 on own.1 allowed scanned fits missing
          next) in
      let (s1', e', (v1', kept)) =
        returned (Onward s) _ (cmd_createmulticast-Onward p args s v block bound (rw scanned tt)) in
      let same : ok s1' ≡ ok s1 = sym e' ∙ e in
      let v1 : ServerValid s1 = Holds-ok ServerValid s1 v1' same in
      let there : find group_cmp (grp name []) (groups_of s1) ≡ some (grp name ip) =
        find-called name [] ip (groups_of s1)
        ∙ rw done.1 (
            find-insert_sorted group_cmp group_cmp-IsComparator (grp name ip) (groups_of s)
              missing) in
      rw e (run_events-group socket es s1 name (grp name ip) v1 events there)
