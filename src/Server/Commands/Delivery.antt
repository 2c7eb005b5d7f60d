-- ===== src/Server/Commands/Delivery.antt =====
-- P2P and MSG of client_commands.c: the search for the session of a user.
use rc_project.Base.{
  ◌+◌, ◌<◌, ◌≡◌, refl, sym, ◌∙◌, arith, List, [], ◌∷◌, ◌++◌, none, some, ok, pos_part, true, ℤ,
  length, is_nonzero, take,
}
use rc_project.Memory.{
  Ptr, Heap, malloc, IsBlock, Extends, Extends-malloc, scratch, Extends-scratch, load-ok,
}
use rc_project.Text.{Bytes, codes, snprintf}
use rc_project.Text.Decimal.{print_int}
use rc_project.Avl.Order.{find}
use rc_project.Avl.Handle.Refines.{IsValid, contents, IsValid-Extends, contents-Extends}
use rc_project.Server.{
  Server, Session, Client, session_cmp, data_cmp, username_size, buffer_size, send_udp_message,
  datagram, send, htons,
}
use rc_project.Server.Users.{UsersValid, users, named}
use rc_project.Server.Sessions.{
  SessionsValid, sessions_of, first_session, avl_get-some, avl_get-none,
}
use rc_project.Server.Commands.{
  find_session, find_client, cmd_p2p, cmd_msg, scan_name, scan_msg, send_message, send_address,
  message_target,
}
use rc_project.Server.Commands.Lookup.{searched, find_client-some, client_arg}

-- a search key
abbrev pub addressed : Bytes → ℤ → Session
addressed ip port = record (first_session 0 (record { sin_addr = []; sin_port = 0 }) 0) {
  ip = ip;
  port = port;
}

pub find-addressed :
    (a b : Session) (xs : List Session)
    → a.ip ≡ b.ip
    → a.port ≡ b.port
    → find session_cmp a xs ≡ find session_cmp b xs
unfolding session_cmp find
find-addressed a b [] e f = refl
find-addressed a b (x ∷ xs) e f = rw (e, f, find-addressed a b xs e f)

module _ (ip : Bytes) (port : ℤ) (s : Server) (v : SessionsValid s) where
  -- the key on the stack, and the state after the search
  abbrev pub client_temp : Session
  client_temp = record (s.sessions.cell s.sessions.next) { ip = ip; port = port }

  abbrev pub session_searched : Server
  session_searched = record s { sessions = scratch client_temp s.sessions }

  abbrev h : Heap Session
  h = (malloc client_temp s.sessions).1

  e-malloc : Extends s.sessions h
  e-malloc = Extends-malloc client_temp s.sessions

  h-find :
      find session_cmp (h.cell s.sessions.next) (contents h s.user_session_list)
      ≡ find session_cmp (addressed ip port) (sessions_of s)
  h-find =
      let cell : h.cell s.sessions.next ≡ client_temp = ground arith in
      rw (cell, contents-Extends s.sessions h s.user_session_list v.allocated e-malloc)
        (find-addressed client_temp (addressed ip port) (sessions_of s) refl refl)

  h-IsValid : IsValid session_cmp h s.user_session_list
  h-IsValid = IsValid-Extends session_cmp s.sessions h s.user_session_list v e-malloc

  h-live : h.live s.sessions.next ≡ true
  h-live = ground arith

  pub find_session-some :
      {t : Session}
      → find session_cmp (addressed ip port) (sessions_of s) ≡ some t
      → (q : Ptr) × (find_session ip port s ≡ ok (some q, session_searched))
        × IsBlock s.sessions q
        × (s.sessions.cell q ≡ t)
  unfolding find_session
  find_session-some there =
      let (q, got, block, held) =
        avl_get-some h s.user_session_list s.sessions.next h-IsValid v.allocated h-live
          (h-find ∙ there) in
      (q, rw got, block, sym (e-malloc.cells q block.0) ∙ held)

  pub find_session-none :
      find session_cmp (addressed ip port) (sessions_of s) ≡ none
      → find_session ip port s ≡ ok (none, session_searched)
  unfolding find_session
  find_session-none missing =
      rw (avl_get-none h s.user_session_list s.sessions.next h-IsValid h-live (h-find ∙ missing))

-- a session that is logged in, and the account of the name that its command gives
module _ (p : Ptr) (args username : Bytes) (s : Server) (v : UsersValid s) (sv : SessionsValid s)
    (block : IsBlock s.sessions p) (on : (s.sessions.cell p).logged_in ≡ true)
    (there : IsBlock s.clients (s.sessions.cell p).client)
    (fits : length username < username_size) where
  -- the state after both searches, for the account `c`
  abbrev pub target_searched : Client → Server
  target_searched c = session_searched c.ip c.port (searched username s v fits) sv

  own_session : (c : Client) → (target_searched c).sessions.cell p ≡ s.sessions.cell p
  own_session c =
      (Extends-scratch (client_temp c.ip c.port (searched username s v fits) sv) s.sessions).cells p
        block.0

  own_live : (c : Client) → (target_searched c).sessions.live p ≡ true
  own_live c =
      (Extends-scratch (client_temp c.ip c.port (searched username s v fits) sv) s.sessions).lives p
        block.0
      ∙ block.1

  -- the block of the account, as the code reads it after the search
  account_found :
      {c : Client}
      → find data_cmp (named username) (users s) ≡ some c
      → (q : Ptr) × (find_client username s ≡ ok (some q, searched username s v fits))
        × ((searched username s v fits).clients.live q ≡ true)
        × ((searched username s v fits).clients.cell q ≡ c)
  account_found known =
      let (q, e, b, held) = find_client-some username s v fits known in
      let e1 = Extends-scratch (client_arg username s v fits) s.clients in
      (q, e, e1.lives q b.0 ∙ b.1, e1.cells q b.0 ∙ held)

  -- With valid lists, in a session that is logged in to an account with the permission for P2P: P2P
  -- with the name of an account whose address and port a session has is answered with that address
  -- and port. Nothing else happens but that the blocks for the two searches are allocated and freed.
  pub cmd_p2p-found :
      {c : Client} {t : Session}
      → is_nonzero (s.clients.cell (s.sessions.cell p).client).p2p ≡ true
      → scan_name username_size args ≡ ok (some username)
      → find data_cmp (named username) (users s) ≡ some c
      → find session_cmp (addressed c.ip c.port) (sessions_of s) ≡ some t
      → cmd_p2p p args s
        ≡ ok (
            send_udp_message
              (s.sessions.cell p)
              (username
                ++ codes " IP: "
                ++ t.ip
                ++ codes " Port: "
                ++ print_int t.port
                ++ codes "\n")
              (target_searched c))
  unfolding cmd_p2p send_address
  cmd_p2p-found {c} {t} allowed scanned known target =
      let (q, e, live, cell) = account_found known in
      let (r, e', b, held) = find_session-some c.ip c.port (searched username s v fits) sv target in
      let e2 =
        Extends-scratch (client_temp c.ip c.port (searched username s v fits) sv) s.sessions in
      simp
        (
          load-ok p s.sessions block.1,
          load-ok (s.sessions.cell p).client s.clients there.1,
          e,
          load-ok q (searched username s v fits).clients live,
          cell,
          on,
          allowed,
          scanned,
        )
        (rw e' (
          rw (
            load-ok r (target_searched c).sessions (e2.lives r b.0 ∙ b.1),
            load-ok p (target_searched c).sessions (own_live c),
            own_session c,
            e2.cells r b.0 ∙ held,
          )))

  -- With valid lists, in a session that is logged in to an account with the permission for P2P: P2P
  -- with the name of an account whose address and port no session has is answered by saying so.
  -- Nothing else happens but that the blocks for the two searches are allocated and freed.
  pub cmd_p2p-no_session :
      {c : Client}
      → is_nonzero (s.clients.cell (s.sessions.cell p).client).p2p ≡ true
      → scan_name username_size args ≡ ok (some username)
      → find data_cmp (named username) (users s) ≡ some c
      → find session_cmp (addressed c.ip c.port) (sessions_of s) ≡ none
      → cmd_p2p p args s
        ≡ ok (
            send_udp_message
              (s.sessions.cell p)
              (codes "Couldn't find user session\n")
              (target_searched c))
  unfolding cmd_p2p send_address
  cmd_p2p-no_session {c} allowed scanned known missing =
      let (q, e, live, cell) = account_found known in
      simp
        (
          load-ok p s.sessions block.1,
          load-ok (s.sessions.cell p).client s.clients there.1,
          e,
          load-ok q (searched username s v fits).clients live,
          cell,
          on,
          allowed,
          scanned,
        )
        (rw (find_session-none c.ip c.port (searched username s v fits) sv missing)
          (rw (load-ok p (target_searched c).sessions (own_live c), own_session c)))

  -- what MSG sends to the session `t`
  abbrev pub delivery : Session → Bytes → Server → Server
  delivery t message = send (
      datagram t.socket (record { sin_addr = t.sock.sin_addr; sin_port = htons (pos_part t.port) })
        (take buffer_size (
          snprintf (buffer_size + 100) (
            (s.clients.cell (s.sessions.cell p).client).username
            ++ codes " ("
            ++ (s.sessions.cell p).ip
            ++ codes ":"
            ++ print_int (s.sessions.cell p).port
            ++ codes ") : "
            ++ message))))

  -- With valid lists, in a session that is logged in to an account with the permission for messages:
  -- MSG with the name of an account whose address and port a session has, and a message, sends the
  -- message with the sender's name, address and port in front, cut to the buffer, to that session's
  -- address, and then answers that the message was sent. Nothing else happens but that the blocks
  -- for the two searches are allocated and freed.
  pub cmd_msg-delivered :
      {c : Client} {t : Session} {message : Bytes}
      → is_nonzero (s.clients.cell (s.sessions.cell p).client).client_server ≡ true
      → scan_msg args ≡ ok (some (username, message))
      → find data_cmp (named username) (users s) ≡ some c
      → find session_cmp (addressed c.ip c.port) (sessions_of s) ≡ some t
      → cmd_msg p args s
        ≡ ok (
            send_udp_message
              (s.sessions.cell p)
              (codes "Message sent\n")
              (delivery t message (target_searched c)))
  unfolding cmd_msg message_target send_message
  cmd_msg-delivered {c} {t} {message} allowed scanned known target =
      let (q, e, live, cell) = account_found known in
      let (r, e', b, held) = find_session-some c.ip c.port (searched username s v fits) sv target in
      let e1 = Extends-scratch (client_arg username s v fits) s.clients in
      let e2 =
        Extends-scratch (client_temp c.ip c.port (searched username s v fits) sv) s.sessions in
      let me = (s.sessions.cell p).client in
      simp
        (
          load-ok p s.sessions block.1,
          load-ok me s.clients there.1,
          e,
          load-ok q (searched username s v fits).clients live,
          cell,
          on,
          allowed,
          scanned,
        )
        (rw e' (
          rw (
            load-ok r (target_searched c).sessions (e2.lives r b.0 ∙ b.1),
            load-ok p (target_searched c).sessions (own_live c),
            own_session c,
            load-ok me (target_searched c).clients (e1.lives me there.0 ∙ there.1),
            e1.cells me there.0,
            e2.cells r b.0 ∙ held,
          )))
