-- ===== src/Server/Safety.antt =====
-- The state of the server between two commands: the invariant of the globals of main.c.
pub mod Administration
pub mod Datagrams
pub mod Logins
pub mod Multicast
pub mod Runs
pub mod Start
pub mod Targets
pub mod Answers
pub mod Lasting
pub mod GroupRuns
pub mod Agreement
pub mod Meeting
pub mod Liveness
pub mod Uninitialised
use mathlib.Core.List.{map, Perm}
use rc_project.Base.{
  ℕ, take, ◌≡◌, refl, ap, sym, ◌∙◌, List, [], ◌∷◌, ◌⊎◌, inl, inr, pos, All, All-imp, false, true,
  ok, Returns,
}
use rc_project.Memory.{Ptr, Heap, IsBlock, Extends, Extends-refl, Extends-trans, Extends-IsBlock}
use rc_project.Text.{Bytes}
use rc_project.Avl.{elements}
use rc_project.Avl.Handle.Refines.{IsValid-Extends, contents-Extends}
use rc_project.Server.{
  Server, Client, Session, Group, Packet, groups, session_cmp, data_cmp, group_cmp,
  send_udp_message, write_fd, inet_ntop,
}
use rc_project.Server.Users.{users, UsersValid}
use rc_project.Server.Users.Persist.{Persisted}
use rc_project.Server.Groups.{GroupsValid, groups_of}
use rc_project.Server.Sessions.{SessionsValid, sessions_of}
use rc_project.Server.Commands.{reply}
use rc_project.Server.Commands.Login.{IsFlag}
use rc_project.Server.Commands.Access.{reply-ok}

-- A session has no account and is not logged in, or it points to a record in use with its address.
abbrev pub IsBound : Heap Client → Session → Type 0
IsBound clients x =
    ((x.client ≡ 0) × (x.logged_in ≡ false))
    ⊎ (IsBlock clients x.client × ((clients.cell x.client).ip ≡ x.ip))

-- the address and the port of a session are those of the socket address of its datagrams, the port
-- as it stands there, which is in network order
abbrev pub HasPeer : Session → Type 0
HasPeer x = (x.ip ≡ inet_ntop x.sock.sin_addr) × (x.port ≡ pos x.sock.sin_port)

-- the permissions are 0 or 1
abbrev pub HasFlags : Client → Type 0
HasFlags c = IsFlag c.client_server × IsFlag c.p2p × IsFlag c.group

-- the addresses handed out so far
abbrev pub given_addresses : Server → List Bytes
given_addresses s = take s.current_group groups

pub record ServerValid (s : Server) : Type 0 where
  pub accounts : UsersValid s
  pub sessions : SessionsValid s
  pub groups : GroupsValid s
  pub bound : All (IsBound s.clients) (sessions_of s)
  pub peers : All HasPeer (sessions_of s)
  pub flags : All HasFlags (users s)
  pub persisted : Persisted s
  -- the groups have the first addresses of the table, each of them once
  pub addresses : Perm (map (λ (g : Group). g.ip) (groups_of s)) (given_addresses s)

-- a change of the heaps that no list sees
pub record Grows (s s' : Server) : Type 0 where
  pub clients : Extends s.clients s'.clients
  pub sessions : Extends s.sessions s'.sessions
  pub groups : Extends s.group_heap s'.group_heap
  pub user_list : s'.user_list ≡ s.user_list
  pub user_session_list : s'.user_session_list ≡ s.user_session_list
  pub group_list : s'.group_list ≡ s.group_list
  pub current_group : s'.current_group ≡ s.current_group

pub IsBound-Extends : (h h' : Heap Client) (x : Session) → Extends h h' → IsBound h x → IsBound h' x
IsBound-Extends h h' x e (inl out) = inl out
IsBound-Extends h h' x e (inr (block, same)) =
    inr (
      Extends-IsBlock x.client e block,
      ap (λ (c : Client). c.ip) (e.cells x.client block.0) ∙ same,
    )

pub Grows-ServerValid : (s s' : Server) → Grows s s' → ServerValid s → ServerValid s'
Grows-ServerValid s s' g v = record {
  accounts =
      rw g.user_list
        (IsValid-Extends data_cmp s.clients s'.clients s.user_list v.accounts g.clients);
  sessions = rw g.user_session_list (
      IsValid-Extends session_cmp s.sessions s'.sessions s.user_session_list v.sessions g.sessions);
  groups =
      rw g.group_list
        (IsValid-Extends group_cmp s.group_heap s'.group_heap s.group_list v.groups g.groups);
  bound =
      rw
        (
          g.user_session_list,
          contents-Extends s.sessions s'.sessions s.user_session_list v.sessions.allocated
              g.sessions,
        )
        (All-imp (λ x. IsBound-Extends s.clients s'.clients x g.clients) (sessions_of s) v.bound);
  peers =
      rw
        (
          g.user_session_list,
          contents-Extends s.sessions s'.sessions s.user_session_list v.sessions.allocated
              g.sessions,
        )
        v.peers;
  flags =
      rw
        (
          g.user_list,
          contents-Extends s.clients s'.clients s.user_list v.accounts.allocated g.clients,
        )
        v.flags;
  persisted =
      rw
        (
          g.user_list,
          contents-Extends s.clients s'.clients s.user_list v.accounts.allocated g.clients,
        )
        v.persisted;
  addresses =
      rw
        (
          g.group_list,
          g.current_group,
          contents-Extends s.group_heap s'.group_heap s.group_list v.groups.allocated g.groups,
        )
        v.addresses;
}

-- what is sent does not matter
pub sent-ServerValid :
    (sent : List Packet) (s : Server) → ServerValid s → ServerValid (record s { sent = sent })
sent-ServerValid sent s v = record {
  accounts = v.accounts;
  sessions = v.sessions;
  groups = v.groups;
  bound = v.bound;
  peers = v.peers;
  flags = v.flags;
  persisted = v.persisted;
  addresses = v.addresses;
}

pub send_udp_message-ServerValid :
    (x : Session) (text : Bytes) (s : Server)
    → ServerValid s
    → ServerValid (send_udp_message x text s)
unfolding send_udp_message
send_udp_message-ServerValid x text s v = sent-ServerValid _ s v

pub write_fd-ServerValid :
    (fd : ℕ) (text : Bytes) (s : Server) → ServerValid s → ServerValid (write_fd fd text s)
unfolding write_fd
write_fd-ServerValid fd text s v = sent-ServerValid _ s v

pub reply-ServerValid :
    (p : Ptr) (text : Bytes) (s : Server)
    → s.sessions.live p ≡ true
    → ServerValid s
    → Returns ServerValid (reply p text s)
reply-ServerValid p text s live v =
    rw (reply-ok p text s live) (send_udp_message-ServerValid (s.sessions.cell p) text s v)
