-- ===== src/Server/Main.antt =====
-- code/server/src/main.c: `main`, with the starts of the two servers in admin/admin_server.c and
-- client/client_server.c. The calls of the system are parameters.
use rc_project.Base.{
  ℕ, List, [], ◌∷◌, ◌++◌, Option, none, some, ℤ, pos_part, Run, ok, fault, exited, ◌>>=◌,
}
use rc_project.Text.{Bytes, codes, strcpy}
use rc_project.Text.Decimal.{print_int}
use rc_project.Memory.{load}
use rc_project.Server.{Server, Client, Session, Group, buffer_size}
use rc_project.Server.Boot.{port_argument, boot}
use rc_project.Server.Network.{Network, Endpoint, sock_stream, new_server}

-- AF_INET, SOCK_DGRAM and INADDR_ANY
abbrev pub af_inet : ℕ
af_inet = 2

abbrev pub sock_dgram : ℕ
sock_dgram = 2

abbrev pub inaddr_any : ℕ
inaddr_any = 0

-- the start of `admin_server`, up to the loop of its worker
unfoldable pub admin_server : Network → (port : ℤ) → Run Endpoint
admin_server net port = new_server net af_inet sock_stream 0 inaddr_any (pos_part port) 1

-- the start of `client_server`, up to the loop of its worker
unfoldable pub client_server : Network → (port : ℤ) → Run Endpoint
client_server net port = new_server net af_inet sock_dgram 0 inaddr_any (pos_part port) 16

-- `args[1]`, `args[2]` and `args[3]` of four arguments
abbrev pub arguments : List Bytes → Option (Bytes × Bytes × Bytes)
arguments (program ∷ client_port ∷ config_port ∷ file ∷ []) = some (client_port, config_port, file)
arguments other = none

-- `error`, which ends the program, if there is no value
abbrev pub or_exit {ℓ} : {A : Type ℓ} → Option A → Run A
or_exit none = fault exited
or_exit (some a) = ok a

-- What `main` has made when its threads have opened their sockets.
pub record Started : Type 0 where
  pub admin : Endpoint
  pub client : Endpoint
  pub server : Server

-- `open` gives the records of the file, or fails. The threads open their sockets in either order.
unfoldable pub main :
    (junk : Client) (junk_session : Session) (junk_group : Group)
    → Network
    → (open_file : Bytes → Option (List Client)) → (args : List Bytes) → Run Started
main junk junk_session junk_group net open_file args = do
  (client_port_text, config_port_text, path) ← or_exit (arguments args)
  client_port_found ← port_argument client_port_text
  client_port ← or_exit client_port_found
  config_port_found ← port_argument config_port_text
  config_port ← or_exit config_port_found
  file ← strcpy buffer_size path
  records ← or_exit (open_file file)
  server ← boot junk junk_session junk_group records
  admin ← admin_server net config_port
  client ← client_server net client_port
  ok (record { admin = admin; client = client; server = server })

-- What `avl_print` writes for a record of each of the three trees. `print_session` goes through the
-- pointer of a session that may have no account.
unfoldable pub print_node : Client → Bytes
print_node client = client.username ++ codes "\n"

unfoldable pub print_session : Server → Session → Run Bytes
print_session s session = do
  c ← load session.client s.clients
  ok (
      codes "("
      ++ (session.ip
          ++ (codes ":" ++ (print_int session.port ++ (codes ") " ++ (c.username ++ codes "\n"))))))

unfoldable pub print_group : Group → Bytes
print_group group = []
