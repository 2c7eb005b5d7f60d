-- ===== src/Server/Admin.antt =====
-- code/server/src/admin: the administrator's commands (commands/admin_commands.c) and the loop that
-- reads them (admin_server.c). The log on standard output is left out.
use rc_project.Base.{
  is_pos, pos_part, ℕ, Bool, true, false, List, [], ◌∷◌, ◌++◌, Option, none, some, if◌then◌else◌,
  ◌==◌, ℤ, pos, negsuc, is_nonzero, Run, ok, fault, bad_index, ◌>>=◌,
}
use rc_project.Text.{Bytes, codes, remove_end_line, strtok_r, parse_cmd, c_string}
use rc_project.Text.Scan.{scan_word, scan_int, ◌>=>◌, matched}
use rc_project.Avl.Handle.{
  avl_add, avl_remove, avl_print_client, avl_duplicated_key, avl_key_not_found,
}
use rc_project.Server.{
  Server, data_cmp, new_client, write_fd, send_to_client, username_size, password_size, ip_size,
}

-- `res == CODE` for the results of avl_tree.c
abbrev pub is_code : ℤ → ℤ → Bool
is_code (pos a) (pos b) = a == b
is_code (negsuc a) (negsuc b) = a == b
is_code _ _ = false

-- what the arguments of ADD scan to
pub record NewUser : Type 0 where
  pub username : Bytes
  pub ip : Bytes
  pub password : Bytes
  pub client_server : ℤ
  pub p2p : ℤ
  pub group : ℤ

abbrev pub scan_add : Bytes → Run (Option NewUser)
scan_add args = scan_word username_size args >=> λ username r1. scan_word ip_size r1 >=> λ ip r2.
    scan_word password_size r2 >=> λ password r3. scan_int r3 >=> λ client_server r4.
    scan_int r4 >=> λ p2p r5. scan_int r5 >=> λ group r6. matched (record {
      username = username;
      ip = ip;
      password = password;
      client_server = client_server;
      p2p = p2p;
      group = group;
    })

-- A command returns what it stores in `*exit`, and the new state.
unfoldable pub cmd_list : (socket : ℕ) → Bytes → Server → Run (ℤ × Server)
cmd_list socket args s = do
  packets ← avl_print_client s.clients (send_to_client socket) s.user_list
  ok (pos 0, record s { sent = s.sent ++ packets })

unfoldable pub add_user : (socket : ℕ) → NewUser → Server → Run Server
add_user socket u s = do
  (client, h) ← new_client u.username u.password u.ip u.client_server u.p2p u.group s.clients
  (res, h', tree) ← avl_add data_cmp h s.user_list client true true
  let s' = record s { clients = h'; user_list = tree }
  if is_code res avl_duplicated_key
      then ok (write_fd socket (codes "User already exists\n") s')
      else ok (write_fd socket (codes "User " ++ u.username ++ codes " created.\n") s')

unfoldable pub cmd_add : (socket : ℕ) → Bytes → Server → Run (ℤ × Server)
cmd_add socket args s = do
  words ← scan_add args
  s' ← elim words [
    | none ↦ ok (
        write_fd socket
          (codes
            "Invalid usage! Use: ADD <USER-ID> <IP> <PASSWORD> <CLIENT-SERVER> <P2P> <GROUP>\n")
          s)
    | some u ↦ add_user socket u s
  ]
  ok (pos 0, s')

unfoldable pub delete_user : (socket : ℕ) → (username : Bytes) → Server → Run Server
delete_user socket username s = do
  (client, h) ← new_client username [] [] (pos 1) (pos 1) (pos 1) s.clients
  (res, h', tree) ← avl_remove data_cmp h s.user_list client true true
  let s' = record s { clients = h'; user_list = tree }
  if is_code res avl_key_not_found
      then ok (write_fd socket (codes "User not found\n") s')
      else ok (write_fd socket (codes "User " ++ username ++ codes " deleted.\n") s')

unfoldable pub cmd_del : (socket : ℕ) → Bytes → Server → Run (ℤ × Server)
cmd_del socket args s = do
  words ← scan_word username_size args
  s' ← elim words [
    | none ↦ ok (write_fd socket (codes "Invalid usage! Use: DEL <USER-ID>\n") s)
    | some (username, rest) ↦ delete_user socket username s
  ]
  ok (pos 0, s')

unfoldable pub cmd_quit : (socket : ℕ) → Bytes → Server → Run (ℤ × Server)
cmd_quit socket args s = ok (pos 1, s)

pub data AdminCommand : Type 0 where
  list add del quit : AdminCommand

-- `commands` beside `cmd_functions`
abbrev pub commands : List (Bytes × AdminCommand)
commands =
    (codes "LIST", list) ∷ (codes "ADD", add) ∷ (codes "DEL", del) ∷ (codes "QUIT", quit) ∷ []

unfoldable pub cmd_functions : AdminCommand → (socket : ℕ) → Bytes → Server → Run (ℤ × Server)
cmd_functions list = cmd_list
cmd_functions add = cmd_add
cmd_functions del = cmd_del
cmd_functions quit = cmd_quit

-- the loop over the table; `exit` is left as it is if no entry matches
unfoldable pub dispatch :
    List (Bytes × AdminCommand)
    → (command : Bytes) → (socket : ℕ) → Bytes
    → (exit : ℤ) → Server
    → Run (Bool × ℤ × Server)
unfolding parse_cmd
dispatch [] command socket args exit s = ok (false, exit, s)
dispatch ((name, f) ∷ rest) command socket args exit s =
    let next = dispatch rest command socket args exit s in
    if parse_cmd (some command) name
    then (do (exit', s') ← cmd_functions f socket args s; ok (true, exit', s'))
    else next

unfoldable pub cmd_function : (socket : ℕ) → Bytes → (exit : ℤ) → Server → Run (Bool × ℤ × Server)
unfolding dispatch remove_end_line strtok_r
cmd_function socket buffer exit s =
    let (command, args) = strtok_r (remove_end_line buffer) in
    dispatch commands command socket args exit s

-- What the loop of `handle_admin` does with one command, and the new value of `exit`.
unfoldable pub run_command : (socket : ℕ) → Bytes → (exit : ℤ) → Server → Run (ℤ × Server)
unfolding write_fd
run_command socket text exit s = do
  (command_found, exit', s1) ← cmd_function socket text exit s
  ok (exit', if command_found then s1 else write_fd socket (codes "Command not found\n") s1)

-- What one `read` gives: the bytes, and what the buffer holds behind them. The buffer is not
-- terminated by the code.
pub record Read : Type 0 where
  pub bytes : List ℕ
  pub behind : List ℕ

-- The loop over the reads of a connection, until one fails or a command sets `exit`. The flag is not
-- set before the first command: `exit` is then what the stack holds.
unfoldable pub handle_admin : (socket : ℕ) → List Read → (exit : ℤ) → Server → Run Server
handle_admin socket [] exit s = ok s
handle_admin socket (r ∷ rs) exit s = elim r.bytes [
  | [] ↦ ok s
  | _ ∷ _ ↦ elim (c_string (r.bytes ++ r.behind)) [
    | none ↦ fault bad_index
    | some text ↦ (do
      (exit', s2) ← run_command socket text exit s
      elim (is_nonzero exit') [ true ↦ ok s2 | false ↦ handle_admin socket rs exit' s2 ])
  ]
]

-- what `accept` returns, and what is read on the connection; `junk` is what the stack holds in
-- `exit` when it is served
pub record Connection : Type 0 where
  pub admin_socket : ℤ
  pub reads : List Read
  pub junk : ℤ

-- `server_worker`, over the connections that are accepted
unfoldable pub server_worker : List Connection → Server → Run Server
server_worker [] s = ok s
server_worker (c ∷ cs) s = do
  s' ←
      if is_pos c.admin_socket
      then handle_admin (pos_part c.admin_socket) c.reads c.junk s
      else ok s
  server_worker cs s'
