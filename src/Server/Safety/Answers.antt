-- ===== src/Server/Safety/Answers.antt =====
-- P2P, MSG and LOGIN as changes of the state.
use rc_project.Server.{
  session_cmp, data_cmp, Server, Client, Session, Packet, send, new_client, username_size,
}
use rc_project.Base.{
  ℤ, [], ◌++◌, Option, none, some, Holds, Holds-bind, Holds-if, Holds-option, Holds-any, not,
  is_nonzero, pos,
}
use rc_project.Avl.Handle.{avl_get}
use rc_project.Memory.{Ptr, Heap, load}
use rc_project.Text.{Bytes, strcmp, codes}
use rc_project.Text.Decimal.{print_int}
use rc_project.Server.Commands.{
  reply, find_client, find_session, scan_login, scan_msg, scan_name, login_success, login_found,
  cmd_login, send_message, cmd_msg, message_target, send_address, cmd_p2p, answer,
}

-- What the predicates on the state before and after an answer satisfy.
pub record Answers (Pre Post : Server → Type 0) : Type 0 where
  pub replies : (p : Ptr) (text : Bytes) (s : Server) → Pre s → Holds Post (reply p text s)
  pub sends : (packet : Packet) (s : Server) → Pre s → Pre (send packet s)
  pub clients : (h : Heap Client) (s : Server) → Pre s → Pre (record s { clients = h })
  pub sessions : (h : Heap Session) (s : Server) → Pre s → Pre (record s { sessions = h })
  pub again : (s : Server) → Post s → Pre s

module _ (Pre Post : Server → Type 0) (a : Answers Pre Post) where
  find_client-Pre :
      (username : Bytes) (s : Server) → Pre s → Holds (λ (o, s'). Pre s') (find_client username s)
  unfolding find_client
  find_client-Pre username s h =
      Holds-any (λ (x : Option Ptr × Server). Pre x.1)
        (new_client username [] [] (pos 0) (pos 0) (pos 0) s.clients) _
        (λ (q, h1).
          Holds-any (λ (x : Option Ptr × Server). Pre x.1) (avl_get data_cmp h1 s.user_list q) _
            (λ o. a.clients _ s h))

  find_session-Pre :
      (ip : Bytes) (port : ℤ) (s : Server)
      → Pre s
      → Holds (λ (o, s'). Pre s') (find_session ip port s)
  unfolding find_session
  find_session-Pre ip port s h =
      Holds-any (λ (x : Option Ptr × Server). Pre x.1)
        (avl_get session_cmp _ s.user_session_list s.sessions.next) _ (λ o. a.sessions _ s h)

  send_address-Post :
      (p : Ptr) (username : Bytes) (x : Option Ptr × Server)
      → Pre x.1
      → Holds Post (send_address p username x)
  unfolding send_address
  send_address-Post p username (none, s) h = a.replies p _ s h
  send_address-Post p username (some q, s) h =
      Holds-any Post (load q s.sessions) _ (λ c. a.replies p _ s h)

  pub cmd_p2p-Post : (p : Ptr) (args : Bytes) (s : Server) → Pre s → Holds Post (cmd_p2p p args s)
  unfolding cmd_p2p
  cmd_p2p-Post p args s h = Holds-any Post (load p s.sessions) _ (λ client.
      Holds-if Post (not client.logged_in) _ _ (a.replies p _ s h) (
        Holds-any Post (load client.client s.clients) _ (λ c.
          Holds-if Post (not (is_nonzero c.p2p)) _ _ (a.replies p _ s h) (
            Holds-any Post (scan_name username_size args) _ (λ words.
              Holds-option Post words _ _ (a.replies p _ s h) (λ username.
                Holds-bind (λ (o, s1). Pre s1) Post (find_client username s) _
                  (find_client-Pre username s h)
                  (λ (found, s1) h1. Holds-option Post found _ _ (a.replies p _ s1 h1) (λ q.
                    Holds-any Post (load q s1.clients) _ (λ d.
                      Holds-bind (λ (o, s2). Pre s2) Post (find_session d.ip d.port s1) _
                        (find_session-Pre d.ip d.port s1 h1)
                        (λ x h2. send_address-Post p username x h2))))))))))

  send_message-Post :
      (p target : Ptr) (message : Bytes) (s : Server)
      → Pre s
      → Holds Post (send_message p target message s)
  unfolding send_message
  send_message-Post p target message s h = Holds-any Post (load p s.sessions) _ (λ client.
      Holds-any Post (load client.client s.clients) _ (λ c.
        Holds-any Post (load target s.sessions) _
          (λ client_session. a.replies p (codes "Message sent\n") (send _ s) (a.sends _ s h))))

  message_target-Post :
      (p : Ptr) (message : Bytes) (x : Option Ptr × Server)
      → Pre x.1
      → Holds Post (message_target p message x)
  unfolding message_target
  message_target-Post p message (none, s) h = a.replies p _ s h
  message_target-Post p message (some target, s) h = send_message-Post p target message s h

  pub cmd_msg-Post : (p : Ptr) (args : Bytes) (s : Server) → Pre s → Holds Post (cmd_msg p args s)
  unfolding cmd_msg
  cmd_msg-Post p args s h = Holds-any Post (load p s.sessions) _ (λ client.
      Holds-if Post (not client.logged_in) _ _ (a.replies p _ s h) (
        Holds-any Post (load client.client s.clients) _ (λ c.
          Holds-if Post (not (is_nonzero c.client_server)) _ _ (a.replies p _ s h) (
            Holds-any Post (scan_msg args) _ (λ words.
              Holds-option Post words _ _ (a.replies p _ s h) (λ (username, message).
                Holds-bind (λ (o, s1). Pre s1) Post (find_client username s) _
                  (find_client-Pre username s h)
                  (λ (found, s1) h1. Holds-option Post found _ _ (a.replies p _ s1 h1) (λ q.
                    Holds-any Post (load q s1.clients) _ (λ d.
                      Holds-bind (λ (o, s2). Pre s2) Post (find_session d.ip d.port s1) _
                        (find_session-Pre d.ip d.port s1 h1)
                        (λ x h2. message_target-Post p message x h2))))))))))

  login_success-Post : (p q : Ptr) (s : Server) → Pre s → Holds Post (login_success p q s)
  unfolding login_success
  login_success-Post p q s h = Holds-any Post (load p s.sessions) _ (λ client.
      Holds-any Post (load q s.clients) _ (λ c.
        Holds-bind Post Post (reply p (codes "Login successfully\n") _) _
          (a.replies p (codes "Login successfully\n") _ (a.sessions _ _ (a.clients _ s h)))
          (λ s2 h2.
            Holds-bind Post Post (reply p (print_int client.port ++ codes "\n") s2) _
              (a.replies p (print_int client.port ++ codes "\n") s2 (a.again s2 h2))
              (λ s3 h3. Holds-any Post (answer c.client_server) _ (λ client_server.
                Holds-any Post (answer c.p2p) _ (λ p2p. Holds-any Post (answer c.group) _ (λ group.
                  a.replies p
                    (codes "Current account permissions:\n\tClient-Server: "
                      ++ client_server
                      ++ codes "\n\tP2P: "
                      ++ p2p
                      ++ codes "\n\tGroup: "
                      ++ group
                      ++ codes "\n")
                    s3 (a.again s3 h3))))))))

  login_found-Post :
      (p q : Ptr) (password : Bytes) (s : Server) → Pre s → Holds Post (login_found p q password s)
  unfolding login_found
  login_found-Post p q password s h = Holds-any Post (load p s.sessions) _ (λ client.
      Holds-any Post (load q s.clients) _ (λ c.
        Holds-if Post (is_nonzero (strcmp client.ip c.ip)) _ _
          (a.replies p (codes "You cannot login to this user account. (DIFFERENT IP)\n") s h)
          (Holds-if Post (not (is_nonzero (strcmp c.password password))) _ _
            (login_success-Post p q s h) (a.replies p (codes "Wrong password\n") s h))))

  pub cmd_login-Post :
      (p : Ptr) (args : Bytes) (s : Server) → Pre s → Holds Post (cmd_login p args s)
  unfolding cmd_login
  cmd_login-Post p args s h = Holds-any Post (load p s.sessions) _ (λ client.
      Holds-if Post client.logged_in _ _ (a.replies p _ s h) (
        Holds-any Post (scan_login args) _ (λ words.
          Holds-option Post words _ _ (a.replies p _ s h) (λ (username, password).
            Holds-bind (λ (o, s1). Pre s1) Post (find_client username s) _
              (find_client-Pre username s h)
              (λ (found, s1) h1.
                Holds-option Post found _ _ (a.replies p _ s1 h1)
                  (λ q. login_found-Post p q password s1 h1))))))
