-- ===== src/Server/Safety/Liveness.antt =====
-- How many packets the server sends for its datagrams.
use rc_project.Base.{
  length-append, Holds, Holds-bind, Holds-if, Holds-option, Holds-any, returns, ◌+◌, ◌<◌, ◌≤◌,
  arith, ℕ, List, [], ◌∷◌, Option, none, some, true, false, ok, ◌>>=◌, Returns, length, Bool,
  if◌then◌else◌, ◌==◌, not, is_nonzero, get_elem?, All, returned, ltb,
}
use rc_project.Memory.{Ptr, load}
use rc_project.Text.{snprintf, Bytes, codes, remove_end_line, parse_cmd}
use rc_project.Server.{
  Server, SockAddr, datagram, buffer_size, send_udp_message, group_cmp, groups, max_groups,
  session_cmp, new_group, max_group_name,
}
use rc_project.Avl.Handle.{avl_get, avl_add}
use rc_project.Server.Connect.{init_client_session}
use rc_project.Server.Commands.{reply, scan_name}
use rc_project.Server.Commands.Multicast.{
  create_group, create_new_group, cmd_createmulticast, answer_group, cmd_getmulticast,
}
use rc_project.Server.Commands.Table.{
  ClientCommand, login, msg, p2p, createmulticast, getmulticast, client_commands,
  client_cmd_functions, dispatch, client_cmd_function,
}
use rc_project.Server.Listen.{Received, serve, terminate, answer_unknown, udp_server_worker}
use rc_project.Server.Safety.{ServerValid}
use rc_project.Server.Safety.Datagrams.{ReceivedFits, udp_server_worker-ServerValid}
use rc_project.Server.Safety.Answers.{Answers, cmd_p2p-Post, cmd_msg-Post, cmd_login-Post}

module _ (t : Server) where
  -- more is sent than in `t`, or as much
  abbrev pub More : Server → Type 0
  More s = length t.sent < length s.sent

  abbrev pub Same : Server → Type 0
  Same s = length t.sent ≤ length s.sent

  reply-More : (p : Ptr) (text : Bytes) (s : Server) → Same s → Holds More (reply p text s)
  unfolding send_udp_message
  reply-More p text s h = Holds-any More (load p s.sessions) _ (λ client.
      let l =
        length-append s.sent
          (datagram client.socket client.sock (snprintf buffer_size text) ∷ []) in
      omega arith)

  More-Answers : Answers Same More
  More-Answers = record {
    replies = reply-More;
    sends = λ packet s h. let l = length-append s.sent (packet ∷ []) in omega arith;
    clients = λ h s same. same;
    sessions = λ h s same. same;
    again = λ s more. omega arith;
  }

  create_group-More :
      (p group : Ptr) (name : Bytes) (s : Server)
      → Same s
      → Holds More (create_group p group name s)
  unfolding create_group
  create_group-More p group name s h =
      Holds-if More (ltb s.current_group max_groups) _ _
        (Holds-option More (get_elem? groups s.current_group) _ _ tt (λ ip.
          Holds-any More (load group s.group_heap) _ (λ g.
            Holds-any More (avl_add group_cmp _ s.group_list group true false) _
              (λ x. reply-More p _ _ h))))
        (reply-More p _ _ h)

  create_new_group-More :
      (p group : Ptr) (name : Bytes) (s : Server)
      → Same s
      → Holds More (create_new_group p group name s)
  unfolding create_new_group
  create_new_group-More p group name s h =
      Holds-any More (avl_get group_cmp s.group_heap s.group_list group) _ (λ found.
        Holds-option More found (create_group p group name s)
          (λ q. reply p (codes "Duplicated group name\n") s) (create_group-More p group name s h)
          (λ q. reply-More p _ s h))

  cmd_createmulticast-More :
      (p : Ptr) (args : Bytes) (s : Server) → Same s → Holds More (cmd_createmulticast p args s)
  unfolding cmd_createmulticast
  cmd_createmulticast-More p args s h = Holds-any More (load p s.sessions) _ (λ client.
      Holds-if More (not client.logged_in) _ _ (reply-More p _ s h) (
        Holds-any More (scan_name max_group_name args) _ (λ words.
          Holds-option More words _ _ (reply-More p _ s h) (λ name.
            Holds-any More (load client.client s.clients) _ (λ c.
              Holds-if More (not (is_nonzero c.group)) _ _ (reply-More p _ s h) (
                Holds-any More (new_group name [] s.group_heap) _
                  (λ (group, h'). create_new_group-More p group name _ h)))))))

  answer_group-More :
      (p : Ptr) (o : Option Ptr) (s : Server) → Same s → Holds More (answer_group p o s)
  unfolding answer_group
  answer_group-More p none s h = reply-More p _ s h
  answer_group-More p (some q) s h =
      Holds-any More (load q s.group_heap) _ (λ g. reply-More p _ s h)

  cmd_getmulticast-More :
      (p : Ptr) (args : Bytes) (s : Server) → Same s → Holds More (cmd_getmulticast p args s)
  unfolding cmd_getmulticast
  cmd_getmulticast-More p args s h = Holds-any More (load p s.sessions) _ (λ client.
      Holds-if More (not client.logged_in) _ _ (reply-More p _ s h) (
        Holds-any More (scan_name max_group_name args) _ (λ words.
          Holds-option More words _ _ (reply-More p _ s h) (λ name.
            Holds-any More (load client.client s.clients) _ (λ c.
              Holds-if More (not (is_nonzero c.group)) _ _ (reply-More p _ s h) (
                Holds-any More (new_group name [] s.group_heap) _ (λ (group, h').
                  Holds-any More (avl_get group_cmp h' s.group_list group) _
                    (λ found. answer_group-More p found _ h))))))))

  client_cmd_functions-More :
      (f : ClientCommand) (p : Ptr) (args : Bytes) (s : Server)
      → Same s
      → Holds More (client_cmd_functions f p args s)
  unfolding client_cmd_functions
  client_cmd_functions-More login p args s h = cmd_login-Post Same More More-Answers p args s h
  client_cmd_functions-More msg p args s h = cmd_msg-Post Same More More-Answers p args s h
  client_cmd_functions-More p2p p args s h = cmd_p2p-Post Same More More-Answers p args s h
  client_cmd_functions-More createmulticast p args s h = cmd_createmulticast-More p args s h
  client_cmd_functions-More getmulticast p args s h = cmd_getmulticast-More p args s h

  -- more is sent if a command was found
  abbrev Dispatched : Bool × Server → Type 0
  Dispatched (true, s) = More s
  Dispatched (false, s) = Same s

  dispatch-Dispatched :
      (table : List (Bytes × ClientCommand)) (command : Bytes) (p : Ptr) (args : Bytes) (s : Server)
      → Same s
      → Holds Dispatched (dispatch table command p args s)
  unfolding dispatch
  dispatch-Dispatched [] command p args s h = h
  dispatch-Dispatched ((name, f) ∷ rest) command p args s h =
      Holds-if Dispatched (parse_cmd (some command) name) _ _
        (Holds-bind More Dispatched (client_cmd_functions f p args s) _
          (client_cmd_functions-More f p args s h) (λ s' h'. h'))
        (dispatch-Dispatched rest command p args s h)

  client_cmd_function-Dispatched :
      (p : Ptr) (buffer : Bytes) (s : Server)
      → Same s
      → Holds Dispatched (client_cmd_function p buffer s)
  unfolding client_cmd_function
  client_cmd_function-Dispatched p buffer s h =
      Holds-any Dispatched (load p s.sessions) _ (λ client.
        Holds-bind Same Dispatched
          (if client.client == 0 then ok s else (do c ← load client.client s.clients; ok s)) _
          (Holds-if Same (client.client == 0) _ _ h
            (Holds-any Same (load client.client s.clients) _ (λ c. h)))
          (λ s' h'. dispatch-Dispatched client_commands _ p _ s' h'))

  answer_unknown-More :
      (p : Ptr) (known : Bool) (s : Server)
      → Dispatched (known, s)
      → Holds More (answer_unknown p known s)
  answer_unknown-More p true s h = h
  answer_unknown-More p false s h = reply-More p (codes "Command not found\n") s h

-- a new session sends nothing
init_client_session-Same :
    (t : Server) (junk : Ptr) (sock : SockAddr) (socket : ℕ)
    → Holds (λ (o, s). Same t s) (init_client_session junk sock socket t)
unfolding init_client_session
init_client_session-Same t junk sock socket =
    Holds-any (λ (x : Option Ptr × Server). Same t x.1)
      (avl_get session_cmp _ t.user_session_list t.sessions.next) _
      (λ found.
        Holds-option (λ (x : Option Ptr × Server). Same t x.1) found _ _
          (Holds-any (λ (x : Option Ptr × Server). Same t x.1)
            (avl_add session_cmp _ t.user_session_list t.sessions.next false false) _
            (λ (res, h', tree).
              Holds-any (λ (x : Option Ptr × Server). Same t x.1)
                (avl_get session_cmp h' tree t.sessions.next) _ (λ o. omega arith)))
          (λ p. omega arith))

module _ (socket : ℕ) (r : Received) (s : Server) where
  answered : Holds (More s) (udp_server_worker socket r s)
  unfolding udp_server_worker
  answered = Holds-any (More s) (terminate r.bytes) _ (λ text.
      Holds-bind (λ (o, s1). Same s s1) (More s) (init_client_session r.junk r.sender socket s) _
        (init_client_session-Same s r.junk r.sender socket)
        (λ (found, s1) h. Holds-option (More s) found _ _ tt (λ p.
          Holds-bind (Dispatched s) (More s) (client_cmd_function p (remove_end_line text) s1) _
            (client_cmd_function-Dispatched s p (remove_end_line text) s1 h)
            (λ (known, s2) h2. answer_unknown-More s p known s2 h2))))

  udp_server_worker-answers :
      ServerValid s
      → ReceivedFits r
      → Returns (λ s'. length s.sent < length s'.sent) (udp_server_worker socket r s)
  udp_server_worker-answers v fits =
      returns ServerValid (More s) (udp_server_worker socket r s)
        (udp_server_worker-ServerValid socket r s v fits) answered

-- From a valid state, the server answers every datagram of any sequence of them that fit, whatever
-- their commands are: it returns, and it has sent at least one packet for each of them. A datagram
-- fits if it has less than BUFFER_SIZE bytes, the words of its command fit their arrays, and the
-- field `client` of a session that it makes, which the code leaves as the stack has it, is NULL.
pub serve-answers :
    (socket : ℕ) (rs : List Received) (s : Server)
    → ServerValid s
    → All ReceivedFits rs
    → Returns (λ s'. length s.sent + length rs ≤ length s'.sent) (serve socket rs s)
unfolding serve
serve-answers socket [] s v fits = omega arith
serve-answers socket (r ∷ rs) s v (fit, fits) =
    let (s1, e, v1) =
      returned _ (udp_server_worker socket r s) (udp_server_worker-ServerValid socket r s v fit) in
    let more : length s.sent < length s1.sent =
      rw e at (udp_server_worker-answers socket r s v fit) in
    let (s2, e2, rest) = returned _ (serve socket rs s1) (serve-answers socket rs s1 v1 fits) in
    rw (e, e2) (omega arith)
