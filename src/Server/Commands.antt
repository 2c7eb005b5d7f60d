-- ===== src/Server/Commands.antt =====
-- code/server/src/client/commands/client_commands.c: the commands of a client, and their dispatch.
-- `p` is the client's session. `int * exit` is not used by any of them, and the log on standard
-- output is left out.
pub mod Multicast
pub mod Table
pub mod Access
pub mod Delivery
pub mod Lookup
pub mod Login
pub mod Moved
pub mod LoggedIn
pub mod Outcome
use rc_project.Base.{
  take, ℕ, ◌+◌, Bool, true, false, List, [], ◌∷◌, ◌++◌, Option, none, some, ltb, get_elem?, ◌==◌,
  if◌then◌else◌, ℤ, pos, negsuc, pos_part, is_nonzero, not, Run, ok, fault, segfault, bad_index,
  ◌>>=◌,
}
use rc_project.Memory.{Ptr, Heap, malloc, free, load, store}
use rc_project.Text.{Bytes, codes, strcmp, snprintf, remove_end_line, strtok_r, parse_cmd}
use rc_project.Text.Decimal.{print_int}
use rc_project.Text.Scan.{scan_word, scan_line, ◌>=>◌, matched}
use rc_project.Avl.Handle.{avl_get, avl_add}
use rc_project.Server.{
  Server, Client, Session, Group, SockAddr, Packet, datagram, groups, max_groups, data_cmp,
  group_cmp, session_cmp, new_client, new_group, send, send_udp_message, htons, buffer_size,
  username_size, password_size, max_group_name,
}

-- `send_udp_message(client, …)`
abbrev pub reply : Ptr → Bytes → Server → Run Server
reply p text s = do client ← load p s.sessions; ok (send_udp_message client text s)

-- `client->client`
abbrev pub account : Ptr → Server → Run Client
account p s = do client ← load p s.sessions; load client.client s.clients

-- `new_client(username, "", "", 0, 0, 0)`, `avl_get` and `free`
unfoldable pub find_client : Bytes → Server → Run (Option Ptr × Server)
find_client username s = do
  (client_arg, h) ← new_client username [] [] (pos 0) (pos 0) (pos 0) s.clients
  found ← avl_get data_cmp h s.user_list client_arg
  ok (found, record s { clients = free client_arg h })

-- `avl_get` for a session on the stack of which the address is set, and nothing else
unfoldable pub find_session : (ip : Bytes) (port : ℤ) → Server → Run (Option Ptr × Server)
find_session ip port s = do
  let (client_temp, h) =
      malloc (record (s.sessions.cell s.sessions.next) { ip = ip; port = port }) s.sessions
  found ← avl_get session_cmp h s.user_session_list client_temp
  ok (found, record s { sessions = free client_temp h })

abbrev pub scan_login : Bytes → Run (Option (Bytes × Bytes))
scan_login args = scan_word username_size args >=> λ username rest.
    scan_word password_size rest >=> λ password rest'. matched (username, password)

abbrev pub scan_msg : Bytes → Run (Option (Bytes × Bytes))
scan_msg args = scan_word username_size args >=> λ username rest.
    scan_line buffer_size rest >=> λ message rest'. matched (username, message)

abbrev pub scan_name : ℕ → Bytes → Run (Option Bytes)
scan_name size args = scan_word size args >=> λ name rest. matched name

-- `answer[flag]`
unfoldable pub answer : ℤ → Run Bytes
answer flag =
    if is_nonzero flag
    then (if pos_part flag == 1 then ok (codes "YES") else fault bad_index)
    else ok (codes "NO")

-- the branch of a login that succeeds: both records are written through their pointers
unfoldable pub login_success : Ptr → Ptr → Server → Run Server
unfolding answer send_udp_message
login_success p database_client s = do
  client ← load p s.sessions
  c ← load database_client s.clients
  let c' = record c { port = client.port; ip = client.ip }
  let client' = record client { client = database_client; logged_in = true }
  let s1 = record s {
    clients = store database_client c' s.clients;
    sessions = store p client' s.sessions;
  }
  s2 ← reply p (codes "Login successfully\n") s1
  s3 ← reply p (print_int client.port ++ codes "\n") s2
  client_server ← answer c.client_server
  p2p ← answer c.p2p
  group ← answer c.group
  reply p
      (codes "Current account permissions:\n\tClient-Server: "
        ++ client_server
        ++ codes "\n\tP2P: "
        ++ p2p
        ++ codes "\n\tGroup: "
        ++ group
        ++ codes "\n")
      s3

unfoldable pub login_found : Ptr → Ptr → (password : Bytes) → Server → Run Server
unfolding send_udp_message login_success
login_found p database_client password s = do
  client ← load p s.sessions
  c ← load database_client s.clients
  if is_nonzero (strcmp client.ip c.ip)
      then reply p (codes "You cannot login to this user account. (DIFFERENT IP)\n") s
      else if not (is_nonzero (strcmp c.password password))
      then login_success p database_client s
      else reply p (codes "Wrong password\n") s

unfoldable pub cmd_login : Ptr → Bytes → Server → Run Server
cmd_login p args s = do
  client ← load p s.sessions
  if client.logged_in then reply p (codes "You are already logged in\n") s else (do
    words ← scan_login args
    elim words [
      | none ↦ reply p (codes "Invalid usage! Use: LOGIN <USER-ID> <PASSWORD>\n") s
      | some (username, password) ↦ (do
        (found, s') ← find_client username s
        elim found [
          | none ↦ reply p (codes "User not found\n") s'
          | some database_client ↦ login_found p database_client password s'
        ])
    ])

-- the message to the target: from its session's socket, to its address with the port of the login
unfoldable pub send_message : Ptr → Ptr → (message : Bytes) → Server → Run Server
unfolding snprintf htons send_udp_message
send_message p target message s = do
  client ← load p s.sessions
  c ← load client.client s.clients
  client_session ← load target s.sessions
  let text =
      c.username
      ++ codes " ("
      ++ client.ip
      ++ codes ":"
      ++ print_int client.port
      ++ codes ") : "
      ++ message
  let target_addr : SockAddr = record {
    sin_addr = client_session.sock.sin_addr;
    sin_port = htons (pos_part client_session.port);
  }
  let message_sent =
      datagram client_session.socket target_addr
        (take buffer_size (snprintf (buffer_size + 100) text))
  reply p (codes "Message sent\n") (send message_sent s)

-- the rest of `cmd_msg`, with the session that is found and the state
unfoldable pub message_target : Ptr → (message : Bytes) → Option Ptr × Server → Run Server
message_target p message (none, s) = reply p (codes "Couldn't find user session\n") s
message_target p message (some client_session, s) = send_message p client_session message s

unfoldable pub cmd_msg : Ptr → Bytes → Server → Run Server
cmd_msg p args s = do
  client ← load p s.sessions
  if not client.logged_in
      then reply p (codes "You need to be logged in to perform this command\n") s
      else (do
        c ← load client.client s.clients
        if not (is_nonzero c.client_server)
            then reply p (codes "You do not have permission to use this command\n") s
            else (do
              words ← scan_msg args
              elim words [
                | none ↦ reply p (codes "Invalid usage! Use: MSG <USER-ID> <MSG>\n") s
                | some (username, message) ↦ (do
                  (found, s1) ← find_client username s
                  elim found [
                    | none ↦ reply p (codes "User not found\n") s1
                    | some database_client ↦ (do
                      d ← load database_client s1.clients
                      found_session ← find_session d.ip d.port s1
                      message_target p message found_session)
                  ])
              ]))

-- the rest of `cmd_p2p`, with the session that is found and the state
unfoldable pub send_address : Ptr → (username : Bytes) → Option Ptr × Server → Run Server
send_address p username (none, s) = reply p (codes "Couldn't find user session\n") s
send_address p username (some client_session, s) = do
  t ← load client_session s.sessions
  reply p (username ++ codes " IP: " ++ t.ip ++ codes " Port: " ++ print_int t.port ++ codes "\n") s

unfoldable pub cmd_p2p : Ptr → Bytes → Server → Run Server
cmd_p2p p args s = do
  client ← load p s.sessions
  if not client.logged_in
      then reply p (codes "You need to be logged in to perform this command\n") s
      else (do
        c ← load client.client s.clients
        if not (is_nonzero c.p2p)
            then reply p (codes "You do not have permission to use this command\n") s
            else (do
              words ← scan_name username_size args
              elim words [
                | none ↦ reply p (codes "Invalid usage! Use: P2P <USER-ID>\n") s
                | some username ↦ (do
                  (found, s1) ← find_client username s
                  elim found [
                    | none ↦ reply p (codes "User not found\n") s1
                    | some database_client ↦ (do
                      d ← load database_client s1.clients
                      found_session ← find_session d.ip d.port s1
                      send_address p username found_session)
                  ])
              ]))
