-- ===== src/Server/Safety/Datagrams.antt =====
-- A datagram in a valid state: the conditions on it, and a round of udp_server_worker.
use rc_project.Base.{
  ◌<◌, ◌≡◌, refl, ap, arith, ℕ, List, [], ◌∷◌, ◌++◌, Option, none, some, ◌⊎◌, inl, inr, false, true,
  ok, fault, segfault, ◌>>=◌, Returns, returned, Option-cases, Bool-cases, Bool, length, All, ◌==◌,
  if◌then◌else◌, ltb,
}
use rc_project.Memory.{Ptr, Heap, IsBlock, load-ok}
use rc_project.Text.{codes, Bytes, c_string, remove_end_line, strtok_r, parse_cmd}
use rc_project.Avl.Order.{find, All-insert_sorted}
use rc_project.Avl.Handle.{AvlTree}
use rc_project.Server.{Server, Session, session_cmp, buffer_size, username_size, max_group_name}
use rc_project.Server.Sessions.{
  SessionsValid, sessions_of, first_session, init_client_session-known, init_client_session-first,
}
use rc_project.Server.Connect.{init_client_session}
use rc_project.Server.Commands.{scan_login, scan_msg, scan_name}
use rc_project.Server.Commands.Table.{
  ClientCommand, login, msg, p2p, createmulticast, getmulticast, client_commands,
  client_cmd_functions, dispatch, client_cmd_function,
}
use rc_project.Server.Commands.Lookup.{find-All}
use rc_project.Server.Listen.{Received, terminate, answer_unknown, udp_server_worker}
use rc_project.Server.Safety.{ServerValid, IsBound, HasPeer}
use rc_project.Server.Safety.Targets.{cmd_p2p-ServerValid, cmd_msg-ServerValid}
use rc_project.Server.Safety.Logins.{cmd_login-ServerValid}
use rc_project.Server.Safety.Multicast.{
  cmd_createmulticast-Onward, cmd_getmulticast-Onward, reply-Onward,
}
use rc_project.Server.Safety.Lasting.{
  Onward, Lasts, Lasts-trans, onward, cmd_login-SameGroups, cmd_msg-SameGroups, cmd_p2p-SameGroups,
}

-- the conversions of a command do not write past the ends of their arrays
abbrev pub ArgsFit : ClientCommand → Bytes → Type 0
ArgsFit login args = Returns (λ o. Unit {0}) (scan_login args)
ArgsFit msg args = Returns (λ o. Unit {0}) (scan_msg args)
ArgsFit p2p args = Returns (λ o. Unit {0}) (scan_name username_size args)
ArgsFit createmulticast args = Returns (λ o. Unit {0}) (scan_name max_group_name args)
ArgsFit getmulticast args = Returns (λ o. Unit {0}) (scan_name max_group_name args)

-- so for the command of the table that the word names, if there is one
abbrev pub CommandFits : List (Bytes × ClientCommand) → (command : Bytes) → Bytes → Type 0
CommandFits [] command args = Unit
CommandFits ((name, f) ∷ rest) command args =
    if parse_cmd (some command) name then ArgsFit f args else CommandFits rest command args

-- the text of a datagram, as the code sees it behind `buffer[n] = '\0'`
abbrev pub received_text : List ℕ → Bytes
received_text bytes = elim (c_string (bytes ++ (0 ∷ []))) [ none ↦ [] | some text ↦ text ]

-- the command word and the arguments of a datagram
abbrev pub received_words : Received → Bytes × Bytes
received_words r = strtok_r (remove_end_line (remove_end_line (received_text r.bytes)))

-- A datagram that leaves room for the NUL, with words that fit their arrays. The field `client` of a
-- new session, which the code does not set, is NULL.
pub record ReceivedFits (r : Received) : Type 0 where
  pub short : length r.bytes < buffer_size
  pub null_client : r.junk ≡ 0
  pub words : CommandFits client_commands (received_words r).0 (received_words r).1

c_string-nul : (bytes : List ℕ) → (t : Bytes) × (c_string (bytes ++ (0 ∷ [])) ≡ some t)
unfolding c_string
c_string-nul [] = ([], refl)
c_string-nul (b ∷ bytes) =
    let (t, e) = c_string-nul bytes in
    elim (Bool-cases (b == 0)) [ inl z ↦ ([], rw (e, z)) | inr z ↦ (b ∷ t, rw (e, z)) ]

pub terminate-ok :
    (bytes : List ℕ) → length bytes < buffer_size → terminate bytes ≡ ok (received_text bytes)
unfolding terminate
terminate-ok bytes short =
    let (t, e) = c_string-nul bytes in
    let room : ltb (length bytes) buffer_size ≡ true = ground arith in
    let text : received_text bytes ≡ t = rw (received_text, e) in rw (room, e, text)

module _ (p : Ptr) (s : Server) (v : ServerValid s) (block : IsBlock s.sessions p)
    (bound : IsBound s.clients (s.sessions.cell p)) where
  client_cmd_functions-Onward :
      (f : ClientCommand) (args : Bytes)
      → ArgsFit f args
      → Returns (Onward s) (client_cmd_functions f p args s)
  unfolding client_cmd_functions
  client_cmd_functions-Onward login args h =
      onward s _ (cmd_login-ServerValid p args s v block h) (cmd_login-SameGroups p args s)
  client_cmd_functions-Onward msg args h =
      onward s _ (cmd_msg-ServerValid p args s v block bound h) (cmd_msg-SameGroups p args s)
  client_cmd_functions-Onward p2p args h =
      onward s _ (cmd_p2p-ServerValid p args s v block bound h) (cmd_p2p-SameGroups p args s)
  client_cmd_functions-Onward createmulticast args h =
      cmd_createmulticast-Onward p args s v block bound h
  client_cmd_functions-Onward getmulticast args h = cmd_getmulticast-Onward p args s v block bound h

  -- a valid state with the groups as they were, which is the old one if no command was found
  abbrev Served : Bool × Server → Type 0
  Served (known, s') = Onward s s' × ((known ≡ true) ⊎ (s' ≡ s))

  dispatch-Served :
      (table : List (Bytes × ClientCommand)) (command args : Bytes)
      → CommandFits table command args
      → Returns Served (dispatch table command p args s)
  unfolding dispatch
  dispatch-Served [] command args h = ((v, λ name g e. e), inr refl)
  dispatch-Served ((name, f) ∷ rest) command args h =
      elim (Bool-cases (parse_cmd (some command) name)) [
        | inl hit ↦
            let (s', e, v') =
              returned _ (client_cmd_functions f p args s)
                (client_cmd_functions-Onward f args (rw hit at h)) in
            rw (hit, e) (v', inl refl)
        | inr miss ↦ rw miss (dispatch-Served rest command args (rw miss at h))
      ]

  client_cmd_function-Served :
      (buffer : Bytes)
      → CommandFits client_commands
          (strtok_r (remove_end_line buffer)).0
          (strtok_r (remove_end_line buffer)).1
      → Returns Served (client_cmd_function p buffer s)
  unfolding client_cmd_function
  client_cmd_function-Served buffer h =
      let done =
        dispatch-Served client_commands (strtok_r (remove_end_line buffer)).0
          (strtok_r (remove_end_line buffer)).1 h in
      elim (Bool-cases ((s.sessions.cell p).client == 0)) [
        | inl null ↦ simp (load-ok p s.sessions block.1, null) done
        | inr some_client ↦ elim bound [
          | inl (null, out) ↦
              let bad : ((s.sessions.cell p).client == 0) ≡ true = ground arith in cc
          | inr (own, same) ↦
              simp
                (
                  load-ok p s.sessions block.1,
                  some_client,
                  load-ok (s.sessions.cell p).client s.clients own.1,
                )
                done
        ]
      ]

  answer_unknown-Onward :
      (known : Bool) (s' : Server)
      → Served (known, s')
      → Returns (Onward s) (answer_unknown p known s')
  answer_unknown-Onward true s' (v', h) = v'
  answer_unknown-Onward false s' (v', inl e) = cc
  answer_unknown-Onward false s' (v', inr e) =
      reply-Onward p (codes "Command not found\n") s s' (rw e block.1) v'

-- a change of the sessions alone
module _ (s s1 : Server) (v : ServerValid s) (h : Heap Session) (tree : AvlTree Session)
    (e : s1 ≡ record s { sessions = h; user_session_list = tree }) where
  sessions_changed :
      SessionsValid s1
      → All (IsBound s.clients) (sessions_of s1)
      → All HasPeer (sessions_of s1)
      → ServerValid s1
  sessions_changed valid bound peers = record {
    peers = peers;
    accounts = rw e v.accounts;
    sessions = valid;
    groups = rw e v.groups;
    bound = rw (ap (λ (t : Server). t.clients) e) bound;
    flags = rw e v.flags;
    persisted = rw e v.persisted;
    addresses = rw e v.addresses;
  }

-- the state with which a command starts, for the session of its datagram
record Connected (s : Server) (o : Option Ptr × Server) : Type 0 where
  session : Ptr
  found : o.0 ≡ some session
  block : IsBlock o.1.sessions session
  bound : IsBound o.1.clients (o.1.sessions.cell session)
  valid : ServerValid o.1
  lasts : Lasts s o.1

module _ (socket : ℕ) (r : Received) (s : Server) (v : ServerValid s) (fits : ReceivedFits r) where
  abbrev first : Session
  first = first_session r.junk r.sender socket

  first-IsBound : IsBound s.clients first
  first-IsBound = inl (fits.null_client, refl)

  init_client_session-Connected :
      Returns (Connected s) (init_client_session r.junk r.sender socket s)
  init_client_session-Connected = elim (Option-cases (find session_cmp first (sessions_of s))) [
    | inl missing ↦
        let ((o, s1), e, done) =
          returned _ (init_client_session r.junk r.sender socket s)
            (init_client_session-first r.junk r.sender socket s v.sessions missing) in
        let (p, found, block, cell, valid, holds, same) = done in
        let all : All (IsBound s.clients) (sessions_of s1) = rw holds (
          All-insert_sorted session_cmp (IsBound s.clients) first (sessions_of s) first-IsBound
            v.bound) in
        let peers : All HasPeer (sessions_of s1) =
          rw holds
            (All-insert_sorted session_cmp HasPeer first (sessions_of s) (refl, refl) v.peers) in
        rw e (record {
          session = p;
          found = found;
          block = block;
          bound = rw (cell, ap (λ (t : Server). t.clients) same) first-IsBound;
          valid = sessions_changed s s1 v s1.sessions s1.user_session_list same valid all peers;
          lasts = λ name g f. rw same f;
        })
    | inr (x, there) ↦
        let ((o, s1), e, done) =
          returned _ (init_client_session r.junk r.sender socket s)
            (init_client_session-known r.junk r.sender socket s v.sessions there) in
        let (p, found, block, cell, valid, holds, same) = done in
        let all : All (IsBound s.clients) (sessions_of s1) = rw holds v.bound in
        let peers : All HasPeer (sessions_of s1) = rw holds v.peers in
        rw e (record {
          session = p;
          found = found;
          block = block;
          bound =
              rw (cell, ap (λ (t : Server). t.clients) same)
                (find-All session_cmp (IsBound s.clients) first (sessions_of s) v.bound there);
          valid = sessions_changed s s1 v s1.sessions s.user_session_list same valid all peers;
          lasts = λ name g f. rw same f;
        })
  ]

  serve_Connected :
      (o : Option Ptr) (s1 : Server)
      → Connected s (o, s1)
      → Returns (Onward s) (elim o [
        | none ↦ fault segfault
        | some p ↦ (do
          (known, s2) ← client_cmd_function p (remove_end_line (received_text r.bytes)) s1
          answer_unknown p known s2)
      ])
  serve_Connected none s1 c = let bad = c.found in cc
  serve_Connected (some p) s1 c =
      let here : p ≡ c.session = let f = c.found in cc in
      let block : IsBlock s1.sessions p = rw here c.block in
      let bound : IsBound s1.clients (s1.sessions.cell p) = rw here c.bound in
      let text = received_text r.bytes in
      let ((known, s2), e, served) =
        returned _ (client_cmd_function p (remove_end_line text) s1)
          (client_cmd_function-Served p s1 c.valid block bound (remove_end_line text) fits.words) in
      let (s3, f, (valid, lasts)) =
        returned _ (answer_unknown p known s2)
          (answer_unknown-Onward p s1 c.valid block bound known s2 served) in
      rw (e, f) (valid, Lasts-trans s s1 s3 c.lasts lasts)

  pub udp_server_worker-Onward : Returns (Onward s) (udp_server_worker socket r s)
  unfolding udp_server_worker
  udp_server_worker-Onward =
      let ((o, s1), e, c) = returned (Connected s) _ init_client_session-Connected in
      rw (terminate-ok r.bytes fits.short, e) (serve_Connected o s1 c)

  -- In a valid state the server serves every datagram that leaves room for the NUL and whose words
  -- fit their arrays, known command or not: it does not fault, and the new state is valid. It is a
  -- condition too that the field `client` of a session that the datagram makes, which the code
  -- leaves as the stack has it, is NULL.
  pub udp_server_worker-ServerValid : Returns ServerValid (udp_server_worker socket r s)
  udp_server_worker-ServerValid =
      let (s', e, (valid, lasts)) = returned (Onward s) _ udp_server_worker-Onward in rw e valid
