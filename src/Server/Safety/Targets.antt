-- ===== src/Server/Safety/Targets.antt =====
-- P2P and MSG of client_commands.c in a valid state.
use rc_project.Base.{
  ◌<◌, ◌≡◌, refl, ◌∙◌, Option, none, some, inl, inr, true, ok, ◌>>=◌, Returns, returned,
  Option-cases, Bool-cases, ℤ, length, is_nonzero,
}
use rc_project.Memory.{
  Ptr, Heap, IsBlock, Extends, Extends-refl, Extends-scratch, Extends-IsBlock, load, load-ok,
}
use rc_project.Text.{Bytes, codes}
use rc_project.Text.Scan.{scan_word, scan_line, matched}
use rc_project.Text.Scan.Fits.{scan_word-fits, >=>-eq-some}
use rc_project.Avl.Order.{find}
use rc_project.Server.{
  send_udp_message, Server, Client, Session, session_cmp, data_cmp, username_size, buffer_size,
}
use rc_project.Server.Users.{users, named}
use rc_project.Server.Sessions.{sessions_of}
use rc_project.Server.Commands.{
  reply, find_client, find_session, send_message, message_target, send_address, cmd_p2p, cmd_msg,
  scan_name, scan_msg,
}
use rc_project.Server.Commands.Lookup.{searched, client_arg, find_client-some, find_client-none}
use rc_project.Server.Commands.Delivery.{
  addressed, session_searched, client_temp, find_session-some, find_session-none,
}
use rc_project.Server.Safety.{
  send_udp_message-ServerValid, ServerValid, IsBound, Grows, Grows-ServerValid, reply-ServerValid,
  send_udp_message-ServerValid, sent-ServerValid,
}

-- a pointer that is NULL or to a block in use
abbrev pub Located {ℓ} : {D : Type ℓ} → Heap D → Option Ptr → Type 0
Located h none = Unit
Located h (some q) = IsBlock h q

module _ (username : Bytes) (s : Server) (v : ServerValid s)
    (fits : length username < username_size) where
  pub find_client-Located :
      (o : Option Ptr) × (find_client username s ≡ ok (o, searched username s v.accounts fits))
      × Located s.clients o
  find_client-Located = elim (Option-cases (find data_cmp (named username) (users s))) [
    | inl missing ↦ (none, find_client-none username s v.accounts fits missing, tt)
    | inr (c, there) ↦
        let (q, e, block, held) = find_client-some username s v.accounts fits there in
        (some q, e, block)
  ]

  pub searched-Grows : Grows s (searched username s v.accounts fits)
  searched-Grows = record {
    clients = Extends-scratch (client_arg username s v.accounts fits) s.clients;
    sessions = Extends-refl s.sessions;
    groups = Extends-refl s.group_heap;
    user_list = refl;
    user_session_list = refl;
    group_list = refl;
    current_group = refl;
  }

  pub searched-ServerValid : ServerValid (searched username s v.accounts fits)
  searched-ServerValid = Grows-ServerValid s (searched username s v.accounts fits) searched-Grows v

module _ (p : Ptr) (ip : Bytes) (port : ℤ) (s : Server) (v : ServerValid s)
    (block : IsBlock s.sessions p) where
  abbrev after : Server
  after = session_searched ip port s v.sessions

  e : Extends s.sessions after.sessions
  e = Extends-scratch (client_temp ip port s v.sessions) s.sessions

  find_session-Located :
      (o : Option Ptr) × (find_session ip port s ≡ ok (o, after)) × Located s.sessions o
  find_session-Located =
      elim (Option-cases (find session_cmp (addressed ip port) (sessions_of s))) [
        | inl missing ↦ (none, find_session-none ip port s v.sessions missing, tt)
        | inr (t, there) ↦
            let (q, f, b, held) = find_session-some ip port s v.sessions there in (some q, f, b)
      ]

  after-Grows : Grows s after
  after-Grows = record {
    clients = Extends-refl s.clients;
    sessions = e;
    groups = Extends-refl s.group_heap;
    user_list = refl;
    user_session_list = refl;
    group_list = refl;
    current_group = refl;
  }

  after-ServerValid : ServerValid after
  after-ServerValid = Grows-ServerValid s after after-Grows v

  live : after.sessions.live p ≡ true
  live = e.lives p block.0 ∙ block.1

  send_address-found :
      (username : Bytes) (o : Option Ptr)
      → Located s.sessions o
      → Returns ServerValid (send_address p username (o, after))
  unfolding send_address
  send_address-found username none b =
      reply-ServerValid p (codes "Couldn't find user session\n") after live after-ServerValid
  send_address-found username (some t) b =
      rw (load-ok t after.sessions (e.lives t b.0 ∙ b.1))
        (reply-ServerValid p _ after live after-ServerValid)

  pub send_address-ServerValid :
      (username : Bytes) → Returns ServerValid (find_session ip port s >>= send_address p username)
  send_address-ServerValid username =
      let (o, f, b) = find_session-Located in rw f (send_address-found username o b)

  module _ (message : Bytes) (own : IsBlock s.clients (s.sessions.cell p).client) where
    message_target-found :
        (o : Option Ptr)
        → Located s.sessions o
        → Returns ServerValid (message_target p message (o, after))
    unfolding message_target send_message
    message_target-found none b =
        reply-ServerValid p (codes "Couldn't find user session\n") after live after-ServerValid
    message_target-found (some t) b =
        rw
          (
            load-ok p after.sessions live,
            e.cells p block.0,
            load-ok (s.sessions.cell p).client s.clients own.1,
            load-ok t after.sessions (e.lives t b.0 ∙ b.1),
          )
          (unfold send_udp_message in sent-ServerValid _ after after-ServerValid)

    pub message_target-ServerValid :
        Returns ServerValid (find_session ip port s >>= message_target p message)
    message_target-ServerValid =
        let (o, f, b) = find_session-Located in rw f (message_target-found o b)

-- the account of a session that is logged in
pub own_account :
    (h : Heap Client) (x : Session) → IsBound h x → x.logged_in ≡ true → IsBlock h x.client
own_account h x (inl (z, out)) on = cc
own_account h x (inr (block, same)) on = block

module _ (p : Ptr) (args : Bytes) (s : Server) (v : ServerValid s) (block : IsBlock s.sessions p)
    (bound : IsBound s.clients (s.sessions.cell p)) where
  -- the account that a search finds, and the state after it
  module _ (username : Bytes) (fits : length username < username_size) where
    abbrev s1 : Server
    s1 = searched username s v.accounts fits

    e1 : Extends s.clients s1.clients
    e1 = Extends-scratch (client_arg username s v.accounts fits) s.clients

    p2p_found :
        (o : Option Ptr)
        → Located s.clients o
        → Returns ServerValid (elim o [
          | none ↦ reply p (codes "User not found\n") s1
          | some database_client ↦ (do
            d ← load database_client s1.clients
            found_session ← find_session d.ip d.port s1
            send_address p username found_session)
        ])
    p2p_found none b = reply-ServerValid p _ s1 block.1 (searched-ServerValid username s v fits)
    p2p_found (some q) b =
        rw (load-ok q s1.clients (e1.lives q b.0 ∙ b.1)) (
          send_address-ServerValid p _ _ s1 (searched-ServerValid username s v fits) block username)

    msg_found :
        (message : Bytes) (o : Option Ptr)
        → IsBlock s.clients (s.sessions.cell p).client
        → Located s.clients o
        → Returns ServerValid (elim o [
          | none ↦ reply p (codes "User not found\n") s1
          | some database_client ↦ (do
            d ← load database_client s1.clients
            found_session ← find_session d.ip d.port s1
            message_target p message found_session)
        ])
    msg_found message none own b =
        reply-ServerValid p _ s1 block.1 (searched-ServerValid username s v fits)
    msg_found message (some q) own b = rw (load-ok q s1.clients (e1.lives q b.0 ∙ b.1)) (
        message_target-ServerValid p _ _ s1 (searched-ServerValid username s v fits) block message
          (Extends-IsBlock (s.sessions.cell p).client e1 own))

  module _ (on : (s.sessions.cell p).logged_in ≡ true) where
    own : IsBlock s.clients (s.sessions.cell p).client
    own = own_account s.clients (s.sessions.cell p) bound on

    p2p_scanned :
        (o : Option Bytes)
        → scan_name username_size args ≡ ok o
        → is_nonzero (s.clients.cell (s.sessions.cell p).client).p2p ≡ true
        → Returns ServerValid (cmd_p2p p args s)
    unfolding cmd_p2p
    p2p_scanned none e allowed =
        simp
          (
            load-ok p s.sessions block.1,
            load-ok (s.sessions.cell p).client s.clients own.1,
            on,
            allowed,
            e,
          )
          (send_udp_message-ServerValid (s.sessions.cell p) _ s v)
    p2p_scanned (some username) e allowed =
        let (a, rest, word, last) =
          >=>-eq-some (scan_word username_size args) (λ w r. matched w) e in
        let same : a ≡ username = cc in
        let fits = scan_word-fits username_size args (rw same at word) in
        let (o, f, b) = find_client-Located username s v fits in
        simp
          (
            load-ok p s.sessions block.1,
            load-ok (s.sessions.cell p).client s.clients own.1,
            on,
            allowed,
            e,
          )
          (rw f (p2p_found username fits o b))

    msg_scanned :
        (o : Option (Bytes × Bytes))
        → scan_msg args ≡ ok o
        → is_nonzero (s.clients.cell (s.sessions.cell p).client).client_server ≡ true
        → Returns ServerValid (cmd_msg p args s)
    unfolding cmd_msg
    msg_scanned none e allowed =
        simp
          (
            load-ok p s.sessions block.1,
            load-ok (s.sessions.cell p).client s.clients own.1,
            on,
            allowed,
            e,
          )
          (send_udp_message-ServerValid (s.sessions.cell p) _ s v)
    msg_scanned (some (username, message)) e allowed =
        let (a, rest, word, last) = >=>-eq-some (scan_word username_size args) _ e in
        let (b, rest', line, last') = >=>-eq-some (scan_line buffer_size rest) _ last in
        let same : a ≡ username = cc in
        let fits = scan_word-fits username_size args (rw same at word) in
        let (o, f, l) = find_client-Located username s v fits in
        simp
          (
            load-ok p s.sessions block.1,
            load-ok (s.sessions.cell p).client s.clients own.1,
            on,
            allowed,
            e,
          )
          (rw f (msg_found username fits message o own l))

  -- P2P in a valid state, for a session of the list: no fault where the word fits its array.
  pub cmd_p2p-ServerValid :
      Returns (λ o. Unit {0}) (scan_name username_size args)
      → Returns ServerValid (cmd_p2p p args s)
  unfolding cmd_p2p
  cmd_p2p-ServerValid readable = elim (Bool-cases (s.sessions.cell p).logged_in) [
    | inl on ↦ elim (Bool-cases (is_nonzero (s.clients.cell (s.sessions.cell p).client).p2p)) [
      | inl allowed ↦ let (o, e, _) = returned _ _ readable in p2p_scanned on o e allowed
      | inr not_allowed ↦
          simp
            (
              load-ok p s.sessions block.1,
              load-ok (s.sessions.cell p).client s.clients (own on).1,
              on,
              not_allowed,
            )
            (send_udp_message-ServerValid (s.sessions.cell p) _ s v)
    ]
    | inr out ↦
        simp (load-ok p s.sessions block.1, out)
          (send_udp_message-ServerValid (s.sessions.cell p) _ s v)
  ]

  -- MSG in a valid state, for a session of the list: no fault where the words fit their arrays.
  pub cmd_msg-ServerValid :
      Returns (λ o. Unit {0}) (scan_msg args) → Returns ServerValid (cmd_msg p args s)
  unfolding cmd_msg
  cmd_msg-ServerValid readable = elim (Bool-cases (s.sessions.cell p).logged_in) [
    | inl on ↦
        elim (Bool-cases (is_nonzero (s.clients.cell (s.sessions.cell p).client).client_server)) [
          | inl allowed ↦ let (o, e, _) = returned _ _ readable in msg_scanned on o e allowed
          | inr not_allowed ↦
              simp
                (
                  load-ok p s.sessions block.1,
                  load-ok (s.sessions.cell p).client s.clients (own on).1,
                  on,
                  not_allowed,
                )
                (send_udp_message-ServerValid (s.sessions.cell p) _ s v)
        ]
    | inr out ↦
        simp (load-ok p s.sessions block.1, out)
          (send_udp_message-ServerValid (s.sessions.cell p) _ s v)
  ]
