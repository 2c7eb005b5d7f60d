-- ===== src/ClientProgram.antt =====
-- The client, code/client/src/main.c: its globals and the calls of the C library and the system that
-- its functions make. A local array is the list of its bytes.
pub mod Actions
pub mod Menu
pub mod Threads
pub mod Start
pub mod Ends
pub mod Rounds
pub mod Leaving
pub mod Login
pub mod Inbox
pub mod Outcome
pub mod Datagrams
pub mod Protocol
pub mod Reads
pub mod Multicast
use rc_project.Base.{
  ℕ, ◌+◌, ◌-◌, ◌%◌, ◌*◌, Bool, true, false, zero, suc, List, [], ◌∷◌, ◌++◌, Option, none, some, ltb,
  ◌==◌, if◌then◌else◌, length, take, ℤ, pos, negsuc, Run, ok, fault, exited, hung, overflow,
  bad_index, ◌>>=◌,
}
use rc_project.Text.{Bytes, codes, c_string, snprintf}
use rc_project.Text.Scan.{scan_word, scan_int, skip_space, signed, span, fill}

-- code/client/src/config/config.h
abbrev pub buffer_size : ℕ
buffer_size = 1000

abbrev pub username_size : ℕ
username_size = 16

abbrev pub password_size : ℕ
password_size = 32

abbrev pub multicast_port : ℕ
multicast_port = 9000

abbrev pub group_size : ℕ
group_size = 16

abbrev pub invalid_group : ℕ
invalid_group = 1

-- INET_ADDRSTRLEN
abbrev pub ip_size : ℕ
ip_size = 16

-- `struct sockaddr_in`: the address as a number and the port, both as they stand in memory
pub record Target : Type 0 where
  pub s_addr : ℕ
  pub sin_port : ℕ

pub data Socket : Type 0 where
  server_socket p2p_socket multicast_write_socket : Socket

-- what `sendto` sends
pub record Packet : Type 0 where
  pub socket : Socket
  pub target : Target
  pub bytes : List ℕ

-- what `recvfrom` gives
pub record Reply : Type 0 where
  pub sender : Target
  pub bytes : List ℕ

-- The calls of the C library on addresses and the system's answer to IP_ADD_MEMBERSHIP, by the
-- memberships so far. `junk` is what the stack holds in a new array of a size, and `junk_int` what
-- it holds in the `option` of the menu.
pub record Machine : Type 0 where
  pub inet_addr : Bytes → ℕ
  pub inet_pton : Bytes → Option ℕ
  pub inet_ntop : ℕ → Bytes
  pub add_membership : List ℕ → ℕ → Bool
  pub junk : (size : ℕ) → List ℕ
  pub junk_int : ℤ

-- The globals, with what is left to read of the terminal and of the answers to `server_socket`
-- (`none` for an error), and what is printed and sent, in order. `message_thread` tells whether it
-- is started.
pub record Program : Type 0 where
  pub stdin : Bytes
  pub replies : List (Option Reply)
  pub screen : List Bytes
  pub sent : List Packet
  pub server_addr : Target
  pub multicast_addr : Target
  pub current_group : Bytes
  pub username : Bytes
  pub password : Bytes
  pub message_port : ℤ
  pub multicast_ip : ℕ
  pub memberships : List ℕ
  pub message_thread : Bool

-- printf, with the text formatted by the caller
abbrev pub print : Bytes → Program → Program
print text p = record p { screen = p.screen ++ (text ∷ []) }

-- the string in an array
unfoldable pub string : List ℕ → Run Bytes
string a = elim (c_string a) [ none ↦ fault bad_index | some text ↦ ok text ]

abbrev pub drop_front : ℕ → List ℕ → List ℕ
drop_front zero a = a
drop_front (suc n) [] = []
drop_front (suc n) (b ∷ a) = drop_front n a

-- a string and its NUL at the front of an array
abbrev pub put : Bytes → List ℕ → List ℕ
put text a = text ++ (0 ∷ drop_front (length text + 1) a)

-- `snprintf(a, size, …)`
abbrev pub print_to : (size : ℕ) → Bytes → List ℕ → List ℕ
print_to size text a = put (take (size - 1) text) a

-- `while(fgetc(stdin) != '\n');`, which does not end at the end of the input
unfoldable pub skip_line : Bytes → Run Bytes
skip_line [] = fault hung
skip_line (c ∷ s) = if c == b'\n' then ok s else skip_line s

abbrev pub next_line : Program → Run Program
next_line p = do rest ← skip_line p.stdin; ok (record p { stdin = rest })

-- `scanf("%s", a)`
unfoldable pub read_word : (size : ℕ) → List ℕ → Program → Run (List ℕ × Program)
read_word size a p = do
  found ← scan_word size p.stdin
  elim found [
    | none ↦ ok (a, record p { stdin = [] })
    | some (word, rest) ↦ ok (put word a, record p { stdin = rest })
  ]

-- `scanf("%[^\n]s", a)`
unfoldable pub read_line : (size : ℕ) → List ℕ → Program → Run (List ℕ × Program)
read_line size a p = do
  found ← fill size (span (λ c. if c == b'\n' then false else true) p.stdin)
  elim found [ none ↦ ok (a, p) | some (line, rest) ↦ ok (put line a, record p { stdin = rest }) ]

-- `scanf("%d", &option)`, which leaves `option` as it is if there is no number
unfoldable pub read_int : ℤ → Program → Run (ℤ × Program)
read_int option p = do
  found ← scan_int p.stdin
  elim found [
    | none ↦ ok (option, record p { stdin = (signed (skip_space p.stdin)).1 })
    | some (n, rest) ↦ ok (n, record p { stdin = rest })
  ]

-- `sendto(socket, a, BUFFER_SIZE, …)`
abbrev pub send_to : Socket → Target → List ℕ → Program → Program
send_to socket target a p = record p {
  sent = p.sent ++ (record { socket = socket; target = target; bytes = take buffer_size a } ∷ []);
}

-- The bytes of a reply at the front of an array of a size. `recvfrom` is told that it has
-- `buffer_size`. `none` if `recvfrom` returns 0 or less.
unfoldable pub receive_into : (size : ℕ) → List ℕ → List ℕ → Run (Option (List ℕ))
receive_into size a [] = ok none
receive_into size a (b ∷ bytes) =
    let front = take buffer_size (b ∷ bytes) in
    if ltb size (length front)
    then fault overflow
    else ok (some (front ++ drop_front (length front) a))

-- `recvfrom(server_socket, a, BUFFER_SIZE, 0, &server_addr, &slen)`, which also sets `server_addr`
abbrev pub receive_from :
    (size : ℕ) → List ℕ → List (Option Reply) → Program → Run (Option (List ℕ) × Program)
receive_from size a [] p = fault hung
receive_from size a (none ∷ replies) p = ok (none, record p { replies = replies })
receive_from size a (some r ∷ replies) p = do
  got ← receive_into size a r.bytes
  ok (got, record p { replies = replies; server_addr = r.sender })

unfoldable pub receive : (size : ℕ) → List ℕ → Program → Run (Option (List ℕ) × Program)
receive size a p = receive_from size a p.replies p

-- an `int` as the argument of `htons`
abbrev pub uint16 : ℤ → ℕ
uint16 (pos n) = n % 65536
uint16 (negsuc n) = 65535 - n % 65536
