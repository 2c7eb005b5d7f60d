-- ===== src/Server.antt =====
-- The server's data: code/server/src/client/client_struct.h, group/group.h, memory/memory.h and the
-- globals of main.c, with the comparisons of main.c and the constructors and the sending functions
-- of client.c, group.c and utils/functions.c. A function that changes the globals takes and returns
-- a `Server`. What is sent on sockets is kept in order.
pub mod Compare
pub mod Groups
pub mod Users
pub mod Connect
pub mod Sessions
pub mod Commands
pub mod Listen
pub mod Network
pub mod Main
pub mod Records
pub mod Output
pub mod Safety
pub mod Admin
pub mod Boot
use rc_project.Base.{
  ℕ, ◌+◌, ◌*◌, ◌/◌, ◌%◌, ◌^◌, ◌≡◌, Bool, true, false, List, [], ◌∷◌, ◌++◌, Option, none, some,
  if◌then◌else◌, ℤ, pos, negsuc, sub_ℕ, pos_part, neg_part, is_nonzero, take, get_elem?, Run, ok,
  fault, bad_index, ◌>>=◌,
}
use rc_project.Memory.{Ptr, Heap, empty_heap, malloc, free, load}
use rc_project.Text.{Bytes, codes, strcmp, strcpy, snprintf}
use rc_project.Text.Decimal.{print_int, digits}
use rc_project.Avl.Handle.{AvlTree, new_avl_tree, avl_get}

abbrev pub buffer_size : ℕ
buffer_size = 1000

abbrev pub username_size : ℕ
username_size = 16

abbrev pub password_size : ℕ
password_size = 32

-- INET_ADDRSTRLEN
abbrev pub ip_size : ℕ
ip_size = 16

abbrev pub max_group_name : ℕ
max_group_name = 16

-- `struct client`
pub record Client : Type 0 where
  pub username : Bytes
  pub password : Bytes
  pub ip : Bytes
  pub port : ℤ
  pub client_server : ℤ
  pub p2p : ℤ
  pub group : ℤ

-- `struct sockaddr_in`: the four bytes of the address, and the 16 bits of the port as they stand in
-- memory
pub record SockAddr : Type 0 where
  pub sin_addr : List ℕ
  pub sin_port : ℕ

-- `struct client_session`, with 0 for a null `client`; `len` is the same in all of them
pub record Session : Type 0 where
  pub client : Ptr
  pub sock : SockAddr
  pub ip : Bytes
  pub port : ℤ
  pub socket : ℕ
  pub logged_in : Bool

-- `struct group`
pub record Group : Type 0 where
  pub name : Bytes
  pub ip : Bytes

-- a datagram, or bytes on a connection; bytes of a buffer behind the text's NUL are left out
pub data Packet : Type 0 where
  datagram : (socket : ℕ) → (dest : SockAddr) → Bytes → Packet
  stream : (fd : ℕ) → Bytes → Packet

-- the globals of main.c, with the heap of each of the three types that they point to
pub record Server : Type 0 where
  pub clients : Heap Client
  pub sessions : Heap Session
  pub group_heap : Heap Group
  pub user_list : AvlTree Client
  pub user_session_list : AvlTree Session
  pub group_list : AvlTree Group
  pub current_group : ℕ
  pub sent : List Packet

abbrev pub groups : List Bytes
groups =
    codes "239.0.0.1"
    ∷ codes "239.0.0.2"
    ∷ codes "239.0.0.3"
    ∷ codes "239.0.0.4"
    ∷ codes "239.0.0.5"
    ∷ codes "239.0.0.6"
    ∷ []

-- `sizeof(groups)/sizeof(groups[0])`
abbrev pub max_groups : ℕ
max_groups = 6

-- `data_cmp` of main.c compares the strings at the two addresses: the user names, since `username` is
-- the first field of the structure.
unfoldable pub data_cmp : Client → Client → ℤ
unfolding strcmp
data_cmp a b = strcmp a.username b.username

unfoldable pub group_cmp : Group → Group → ℤ
unfolding strcmp
group_cmp a b = strcmp a.name b.name

-- `a - b` on ports, which are 16 bits wide
unfoldable pub sub_int : ℤ → ℤ → ℤ
sub_int a b = sub_ℕ (pos_part a + neg_part b) (neg_part a + pos_part b)

unfoldable pub session_cmp : Session → Session → ℤ
unfolding strcmp sub_int
session_cmp a b =
    let ip_cmp = strcmp a.ip b.ip in if is_nonzero ip_cmp then ip_cmp else sub_int a.port b.port

-- The port of the new block is what the memory held: the code does not set it.
unfoldable pub new_client :
    (username password ip : Bytes)
    → (client_server p2p group : ℤ) → Heap Client
    → Run (Ptr × Heap Client)
unfolding strcpy
new_client username password ip client_server p2p group h = do
  username ← strcpy username_size username
  password ← strcpy password_size password
  ip ← strcpy ip_size ip
  ok (
      malloc
        (record {
          username = username;
          password = password;
          ip = ip;
          port = (h.cell h.next).port;
          client_server = client_server;
          p2p = p2p;
          group = group;
        })
        h)

unfoldable pub new_group : (name ip : Bytes) → Heap Group → Run (Ptr × Heap Group)
unfolding strcpy
new_group name ip h = do
  name ← strcpy max_group_name name
  ip ← strcpy ip_size ip
  ok (malloc (record { name = name; ip = ip }) h)

abbrev pub send : Packet → Server → Server
send p s = record s { sent = s.sent ++ (p ∷ []) }

-- the text of the message is formatted by the caller
unfoldable pub send_udp_message : Session → Bytes → Server → Server
unfolding snprintf
send_udp_message client text = send (datagram client.socket client.sock (snprintf buffer_size text))

unfoldable pub write_fd : ℕ → Bytes → Server → Server
unfolding snprintf
write_fd fd text = send (stream fd (snprintf buffer_size text))

unfoldable pub send_to_client : ℕ → Client → Packet
unfolding snprintf
send_to_client socket c =
    stream socket (snprintf buffer_size (codes "User: " ++ c.username ++ codes "\n"))

-- `htons` on a little-endian machine
unfoldable pub htons : ℕ → ℕ
htons n = n % 256 * 256 + n / 256 % 256

-- `inet_ntop(AF_INET, …)`: the bytes in decimal, with dots between them
unfoldable pub inet_ntop : List ℕ → Bytes
unfolding digits
inet_ntop [] = []
inet_ntop (b ∷ []) = digits b
inet_ntop (b ∷ bs) = digits b ++ (b'.' ∷ inet_ntop bs)
