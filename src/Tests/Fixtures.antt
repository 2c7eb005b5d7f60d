-- ===== src/Tests/Fixtures.antt =====
-- A server with three accounts, one session and one group, for the examples.
use rc_project.Base.{ℕ, arith, ◌==◌, refl, [], ◌∷◌, Bool, true, if◌then◌else◌, ltb, pos, ℤ}
use rc_project.Memory.{Ptr, Heap}
use rc_project.Text.{Bytes, codes, strcmp}
use rc_project.Avl.{null, node, elements}
use rc_project.Avl.Handle.{AvlTree}
use rc_project.Avl.Handle.Refines.{IsValid}
use rc_project.Server.{Server, Client, Session, Group, data_cmp, session_cmp}
use rc_project.Server.Groups.{GroupsValid, grp}
use rc_project.Tests.{home}

abbrev pub account : Bytes → (flag : ℤ) → Client
account name flag = record {
  username = name;
  password = codes "secret";
  ip = codes "10.0.0.7";
  port = pos 40000;
  client_server = pos 1;
  p2p = flag;
  group = flag;
}

abbrev pub alice : Client
alice = account (codes "alice") (pos 1)

abbrev pub bob : Client
bob = account (codes "bob") (pos 1)

abbrev pub carol : Client
carol = record (account (codes "carol") (pos 0)) { port = pos 0 }

abbrev pub cells : Ptr → Client
cells p = if p == 1 then alice else if p == 2 then bob else carol

abbrev pub clients : Heap Client
clients = record { cell = cells; live = λ p. ltb p 4; next = 4 }

abbrev pub user_list : AvlTree Client
user_list = record {
  size = 3;
  root = node 1 2 (node 1 1 null null) (node 1 3 null null);
  file = bob ∷ alice ∷ carol ∷ [];
}

-- the one session, of the account at `client`
abbrev pub session : (client : Ptr) → (logged_in : Bool) → Session
session client logged_in = record {
  client = client;
  sock = home;
  ip = codes "10.0.0.7";
  port = pos 40000;
  socket = 5;
  logged_in = logged_in;
}

abbrev pub team : Group
team = grp (codes "team") (codes "239.0.0.1")

-- `given` addresses of groups are given
abbrev pub server : (client : Ptr) → (logged_in : Bool) → (given : ℕ) → Server
server client logged_in given = record {
  clients = clients;
  sessions = record { cell = λ p. session client logged_in; live = λ p. p == 1; next = 2 };
  group_heap = record { cell = λ p. team; live = λ p. p == 1; next = 2 };
  user_list = user_list;
  user_session_list = record { size = 1; root = node 1 1 null null; file = [] };
  group_list = record { size = 1; root = node 1 1 null null; file = [] };
  current_group = given;
  sent = [];
}

pub sessions-IsValid :
    IsValid session_cmp (server 1 true 1).sessions (server 1 true 1).user_session_list
unfolding elements
sessions-IsValid = record {
  flat = (omega arith, tt, tt);
  ordered = (tt, tt, tt, tt);
  allocated = ((omega arith, refl), tt);
}

pub users-IsValid : IsValid data_cmp clients user_list
unfolding elements data_cmp strcmp
users-IsValid = record {
  flat = (omega arith, (omega arith, tt, tt), (omega arith, tt, tt));
  ordered = ((refl, tt), (refl, tt), (tt, tt, tt, tt), (tt, tt, tt, tt));
  allocated = ((omega arith, refl), ((omega arith, refl), ((omega arith, refl), tt)));
}

module _ (client : Ptr) (logged_in : Bool) (given : ℕ) where
  pub groups-IsValid : GroupsValid (server client logged_in given)
  unfolding elements
  groups-IsValid = record {
    flat = (omega arith, tt, tt);
    ordered = (tt, tt, tt, tt);
    allocated = ((omega arith, refl), tt);
  }
