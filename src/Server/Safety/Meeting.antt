-- ===== src/Server/Safety/Meeting.antt =====
-- Two clients that meet: one logs in, and another one asks for its address.
use rc_project.Base.{
  pos, append_assoc, take, ◌+◌, ◌<◌, ◌≡◌, ◌≢◌, refl, ap, ◌∙◌, List, [], ◌∷◌, ◌++◌, some, false,
  true, ok, ◌>>=◌, Returns, returned, length, is_nonzero,
}
use mathlib.Core.List.{map}
use rc_project.Memory.{Ptr, IsBlock, store}
use rc_project.Text.{Bytes, codes, snprintf}
use rc_project.Text.Decimal.{print_int}
use rc_project.Avl.{elements}
use rc_project.Avl.Handle.Refines.{contents}
use rc_project.Avl.Order.{find}
use rc_project.Avl.First.{FirstAt-find}
use rc_project.Server.{
  Server, Client, Session, Packet, data_cmp, session_cmp, username_size, buffer_size, datagram,
  send_udp_message, htons, inet_ntop,
}
use rc_project.Server.Users.{users, named}
use rc_project.Server.Users.Persist.{stored}
use rc_project.Server.Sessions.{sessions_of}
use rc_project.Server.Commands.{cmd_login, cmd_msg, cmd_p2p, scan_login, scan_msg, scan_name}
use rc_project.Server.Commands.Lookup.{find-All}
use rc_project.Server.Commands.Login.{is_admitted}
use rc_project.Server.Commands.LoggedIn.{LoggedIn}
use rc_project.Server.Commands.Outcome.{cmd_login-admitted}
use rc_project.Server.Commands.Delivery.{
  cmd_msg-delivered, addressed, find-addressed, cmd_p2p-found,
}
use rc_project.Server.Safety.{ServerValid, IsBound, HasFlags, HasPeer}
use rc_project.Server.Safety.Targets.{own_account}
use rc_project.Server.Safety.Logins.{bound, LoggedIn-ServerValid}
use rc_project.Server.Safety.Agreement.{find-named, find-name, Agrees, bound-Agrees, find-Agrees}

-- the client at `q`, which is not logged in, types the name and the password of an account, and the
-- one at `p` is logged in
module _ (s : Server) (v : ServerValid s) (p q : Ptr) (other : p ≢ q)
    (args args' username password : Bytes) (block_q : IsBlock s.sessions q)
    (out : (s.sessions.cell q).logged_in ≡ false)
    (scanned : scan_login args ≡ ok (some (username, password)))
    (fits : length username < username_size)
    (listed : find session_cmp (s.sessions.cell q) (sessions_of s) ≡ some (s.sessions.cell q))
    (block_p : IsBlock s.sessions p) (bound_p : IsBound s.clients (s.sessions.cell p))
    (on : (s.sessions.cell p).logged_in ≡ true) where
  own : IsBlock s.clients (s.sessions.cell p).client
  own = own_account s.clients (s.sessions.cell p) bound_p on

  -- the address and the port of the one at `q` are those of its datagrams
  peer : HasPeer (s.sessions.cell q)
  peer = find-All session_cmp HasPeer (s.sessions.cell q) (sessions_of s) v.peers listed

  -- what the one at `p` is sent
  abbrev pub answered_to : Bytes → Packet
  answered_to text =
      datagram (s.sessions.cell p).socket (s.sessions.cell p).sock (snprintf buffer_size text)

  -- the answer to P2P
  abbrev pub address_answer : Bytes
  address_answer =
      username
      ++ codes " IP: "
      ++ inet_ntop (s.sessions.cell q).sock.sin_addr
      ++ codes " Port: "
      ++ print_int (pos (s.sessions.cell q).sock.sin_port)
      ++ codes "\n"

  -- a message of the one at `p`, as it is sent to the one at `q`
  abbrev pub message_packet : Bytes → Packet
  message_packet message =
      datagram (s.sessions.cell q).socket
        (record {
          sin_addr = (s.sessions.cell q).sock.sin_addr;
          sin_port = htons (s.sessions.cell q).sock.sin_port;
        })
        (take buffer_size (
          snprintf (buffer_size + 100) (
            (s.clients.cell (s.sessions.cell p).client).username
            ++ codes " ("
            ++ (s.sessions.cell p).ip
            ++ codes ":"
            ++ print_int (s.sessions.cell p).port
            ++ codes ") : "
            ++ message)))

  module _ {c : Client} (there : find data_cmp (named username) (users s) ≡ some c) (s1 : Server)
      (l : LoggedIn q c s s1) where
    abbrev now : Client
    now = record c { port = (s.sessions.cell q).port }

    known : find data_cmp (named username) (users s1) ≡ some now
    known =
        let first =
          FirstAt-find data_cmp c s1.clients.cell (s1.sessions.cell q).client
            (elements s.user_list.root) l.owner in
        let same =
          find-named (named username) c (users s1) (find-name (named username) (users s) there) in
        same ∙ rw l.list (first ∙ ap some l.account)

    target :
        (t : Session) × (find session_cmp (addressed now.ip now.port) (sessions_of s1) ≡ some t)
        × Agrees t (s.sessions.cell q)
    target =
        let r = (s1.sessions.cell q).client in
        let (t, found, k) =
          find-Agrees (s.sessions.cell q) (s.sessions.cell q) s.sessions.cell
            (store q (bound q r s.sessions) s.sessions).cell (elements s.user_session_list.root)
            (bound-Agrees q r s.sessions) listed in
        let key =
          find-addressed (addressed now.ip now.port) (s.sessions.cell q) (sessions_of s1) l.same_ip
            refl in
        let held : sessions_of s1
            ≡ map (store q (bound q r s.sessions) s.sessions).cell
                (elements s.user_session_list.root) =
          ap (λ z. contents s1.sessions z) (ap (λ (z : Server). z.user_session_list) l.rest)
          ∙ ap (λ h. contents h s.user_session_list) l.session in
        (t, key ∙ (ap (find session_cmp (s.sessions.cell q)) held ∙ found), k)

    valid1 : ServerValid s1
    valid1 = LoggedIn-ServerValid q c s s1 v l

    mine : s1.sessions.cell p ≡ s.sessions.cell p
    mine = l.other_sessions p other

    block1 : IsBlock s1.sessions p
    block1 = rw l.session block_p

    own1 : IsBlock s1.clients (s1.sessions.cell p).client
    own1 = rw mine (l.blocks (s.sessions.cell p).client own)

    on1 : (s1.sessions.cell p).logged_in ≡ true
    on1 = rw mine on

    -- the account of the one at `p` is as it was, but for its port
    account1 :
        stored (s1.clients.cell (s1.sessions.cell p).client)
        ≡ stored (s.clients.cell (s.sessions.cell p).client)
    account1 = rw mine (l.kept (s.sessions.cell p).client own)

    p2p_answered :
        is_nonzero (s.clients.cell (s.sessions.cell p).client).p2p ≡ true
        → scan_name username_size args' ≡ ok (some username)
        → Returns
            (λ s2. s2.sent ≡ s1.sent ++ (answered_to address_answer ∷ []))
            (cmd_p2p p args' s1)
    unfolding send_udp_message
    p2p_answered allowed scanned' =
        let (t, found, k) = target in
        let allowed1 : is_nonzero (s1.clients.cell (s1.sessions.cell p).client).p2p ≡ true =
          rw (ap (λ (k : Client). k.p2p) account1) allowed in
        rw
          (cmd_p2p-found p args' username s1 valid1.accounts valid1.sessions block1 on1 own1 fits
            allowed1 scanned' known found)
          (rw (mine, k.ip, k.port, peer.0, peer.1) refl)

    msg_answered :
        {message : Bytes}
        → is_nonzero (s.clients.cell (s.sessions.cell p).client).client_server ≡ true
        → scan_msg args' ≡ ok (some (username, message))
        → Returns
            (λ s2.
              s2.sent
              ≡ s1.sent ++ (message_packet message ∷ answered_to (codes "Message sent\n") ∷ []))
            (cmd_msg p args' s1)
    unfolding send_udp_message
    msg_answered {message} allowed scanned' =
        let (t, found, k) = target in
        let allowed1 : is_nonzero (s1.clients.cell (s1.sessions.cell p).client).client_server
            ≡ true =
          rw (ap (λ (k : Client). k.client_server) account1) allowed in
        let name1 : (s1.clients.cell (s1.sessions.cell p).client).username
            ≡ (s.clients.cell (s.sessions.cell p).client).username =
          ap (λ (k : Client). k.username) account1 in
        rw
          (cmd_msg-delivered p args' username s1 valid1.accounts valid1.sessions block1 on1 own1
            fits allowed1 scanned' known found)
          (rw (name1, mine, k.port, k.sock, k.socket, peer.1)
            (append_assoc s1.sent (message_packet message ∷ [])
              (answered_to (codes "Message sent\n") ∷ [])))

  module _ {c : Client} (there : find data_cmp (named username) (users s) ≡ some c)
      (admitted : is_admitted (some c) (s.sessions.cell q) password ≡ true) where
    logged_in : Returns (LoggedIn q c s) (cmd_login q args s)
    logged_in =
        let (f, g, k) = find-All data_cmp HasFlags (named username) (users s) v.flags there in
        cmd_login-admitted q args s v.accounts block_q.1 out username password scanned fits there
          admitted f g k

    -- In a valid state a client logs in with the name and the password of an account, from its
    -- address, and then another one, which is logged in to an account with the permission for
    -- P2P, asks for that name: neither command faults, and the last packet that the server sends
    -- is to the other client, and has the name, the IP address that the datagrams of the login
    -- have in their socket address, in decimal, and the port number as it stands there: `sin_port`,
    -- in network order, is printed as it is. Both sessions are blocks in use, and that of the other
    -- one points to the record of its account; that of the first one is in the list of sessions and
    -- not logged in yet, and the name fits its array.
    pub cmd_login-cmd_p2p :
        is_nonzero (s.clients.cell (s.sessions.cell p).client).p2p ≡ true
        → scan_name username_size args' ≡ ok (some username)
        → Returns
            (λ s2. (before : List Packet) × (s2.sent ≡ before ++ (answered_to address_answer ∷ [])))
            (cmd_login q args s >>= cmd_p2p p args')
    cmd_login-cmd_p2p allowed scanned' =
        let (s1, e, l) = returned _ (cmd_login q args s) logged_in in
        let (s2, e2, sent) =
          returned _ (cmd_p2p p args' s1) (p2p_answered there s1 l allowed scanned') in
        rw (e, e2) (s1.sent, sent)

    -- In a valid state a client logs in with the name and the password of an account, from its
    -- address, and then another one, which is logged in to an account with the permission for
    -- messages, types MSG with that name and a message: neither command faults, and the last two
    -- packets that the server sends are the message, with the name, the address and the port of
    -- its sender in front, and the answer to the sender. The message goes to the IP address that
    -- the login came from, and to its port with the bytes swapped: `htons` of the `sin_port` of its
    -- datagrams, which is in network order already. Both sessions are blocks in use, and that of
    -- the other one points to the record of its account; that of the first one is in the list of
    -- sessions and not logged in yet, and the name fits its array.
    pub cmd_login-cmd_msg :
        {message : Bytes}
        → is_nonzero (s.clients.cell (s.sessions.cell p).client).client_server ≡ true
        → scan_msg args' ≡ ok (some (username, message))
        → Returns
            (λ s2.
              (before : List Packet) × (s2.sent
                ≡ before ++ (message_packet message ∷ answered_to (codes "Message sent\n") ∷ [])))
            (cmd_login q args s >>= cmd_msg p args')
    cmd_login-cmd_msg allowed scanned' =
        let (s1, e, l) = returned _ (cmd_login q args s) logged_in in
        let (s2, e2, sent) =
          returned _ (cmd_msg p args' s1) (msg_answered there s1 l allowed scanned') in
        rw (e, e2) (s1.sent, sent)
