-- ===== src/Server/Connect.antt =====
-- `init_client_session` of client.c.
use rc_project.Base.{ℕ, ◌>>=◌, false, Option, none, some, pos, Run, ok}
use rc_project.Memory.{Ptr, malloc, free}
use rc_project.Avl.Handle.{avl_get, avl_add}
use rc_project.Server.{Server, Session, SockAddr, session_cmp, inet_ntop}

-- The block that `avl_get` returns. `junk` is what the stack holds where `session.client` stands,
-- which the function does not set. The session is an object of the stack, and is gone at the end.
unfoldable pub init_client_session :
    (junk : Ptr) → SockAddr → ℕ → Server → Run (Option Ptr × Server)
init_client_session junk sock socket s =
    let session : Session = record {
      client = junk;
      sock = sock;
      ip = inet_ntop sock.sin_addr;
      port = pos sock.sin_port;
      socket = socket;
      logged_in = false;
    } in
    let (local, h) = malloc session s.sessions in
    do
      found ← avl_get session_cmp h s.user_session_list local
      elim found [
        | some p ↦ ok (some p, record s { sessions = free local h })
        | none ↦ (do
          (_, h', tree) ← avl_add session_cmp h s.user_session_list local false false
          added ← avl_get session_cmp h' tree local
          ok (added, record s { sessions = free local h'; user_session_list = tree }))
      ]
