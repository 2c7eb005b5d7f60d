-- ===== src/ClientProgram/Start.antt =====
-- code/client/src/main.c: `main`, with create_socket and add_timeout of utils/functions.c. The calls of the system are parameters. The thread of
-- `read_multicast`, which it starts before the login, stands in Threads.
use rc_project.Base.{
  ◌*◌, ◌^◌, ◌<◌, ◌≤◌, ◌≡◌, refl, arith, ltb, overflow, Fault, Bool-cases, inl, inr, ℕ, Bool, true,
  false, List, [], Option, none, some, ◌==◌, if◌then◌else◌, not, ℤ, pos, Run, ok, fault, exited,
  ◌>>=◌, ◌>>◌,
}
use rc_project.Text.{Bytes, strcpy}
use rc_project.Server.{htons}
use rc_project.ClientProgram.{invalid_group, Machine, Program, Reply, Target, uint16}
use rc_project.ClientProgram.Menu.{authenticate}

-- `opened` and `set_option` tell whether the calls of `socket` and `setsockopt` succeed, in their order
pub record System : Type 0 where
  pub gethostbyname : Bytes → Option ℕ
  pub atoi : Bytes → ℤ
  pub opened : ℕ → Bool
  pub set_option : ℕ → Bool

-- the program before `main`, with what is typed and what the server answers
abbrev pub initial : Bytes → List (Option Reply) → Program
initial stdin replies = record {
  stdin = stdin;
  replies = replies;
  screen = [];
  sent = [];
  server_addr = record { s_addr = 0; sin_port = 0 };
  multicast_addr = record { s_addr = 0; sin_port = 0 };
  current_group = [];
  username = [];
  password = [];
  message_port = pos 0;
  multicast_ip = invalid_group;
  memberships = [];
  message_thread = false;
}

abbrev pub require : Bool → Run (Unit {0})
require true = ok tt
require false = fault exited

-- utils/functions.c: `opened` tells whether `socket` succeeds
unfoldable pub create_socket : (opened : Bool) → Run (Unit {0})
create_socket opened = if not opened then fault exited else ok tt

-- utils/functions.c: `set_timeout` tells whether `setsockopt` takes the seconds and microseconds
unfoldable pub add_timeout : (set_timeout : ℕ → ℕ → Bool) → (seconds : ℕ) → Run (Unit {0})
add_timeout set_timeout seconds =
    let tv_usec = seconds * 1000000 in
    if not (ltb tv_usec (2 ^ 31))
    then fault overflow
    else if not (set_timeout 0 tv_usec)
    then fault exited
    else ok tt

-- With a system that refuses a second or more in microseconds, no timeout but 0 is set.
pub add_timeout-fault :
    (set_timeout : ℕ → ℕ → Bool) (seconds : ℕ)
    → ((s us : ℕ) → 1000000 ≤ us → set_timeout s us ≡ false)
    → 0 < seconds
    → (e : Fault) × (add_timeout set_timeout seconds ≡ fault e)
unfolding add_timeout
add_timeout-fault set_timeout seconds refuses some_time =
    elim (Bool-cases (ltb (seconds * 1000000) (2 ^ 31))) [
      | inl small ↦ (exited, rw (small, refuses 0 (seconds * 1000000) (omega arith)) refl)
      | inr large ↦ (overflow, rw large refl)
    ]

-- the sockets for the server and P2P, and the two for multicast
unfoldable pub create_sockets : (opened : ℕ → Bool) → Run (Unit {0})
unfolding create_socket
create_sockets opened =
    create_socket (opened 0)
    >> (create_socket (opened 1) >> (create_socket (opened 2) >> create_socket (opened 3)))

unfoldable pub main : Machine → System → (argc : ℕ) → (host port : Bytes) → Program → Run Program
main m system argc host port p = if not (argc == 3) then fault exited else (do
  end_server ← strcpy 100 host
  address ← elim (system.gethostbyname end_server) [ none ↦ fault exited | some a ↦ ok a ]
  let server_addr : Target = record {
    s_addr = address;
    sin_port = htons (uint16 (system.atoi port));
  }
  created ← create_sockets system.opened
  loop ← require (system.set_option 0)
  ttl ← require (system.set_option 1)
  authenticate m (record p { server_addr = server_addr }))
