-- ===== src/Server/Safety/Start.antt =====
-- `main` of the server on arguments that it takes, and what follows.
use rc_project.Base.{
  ℕ, ◌<◌, ◌^◌, ◌≡◌, refl, arith, List, [], ◌∷◌, append-nil, Option, some, ℤ, pos, pos_part, is_neg,
  is_nonzero, ok, ◌>>=◌, Returns, returned, All, length, true, false, ltb, ◌==◌, Bool-cases, inl,
  inr,
}
use rc_project.Text.{Bytes, strcpy}
use rc_project.Text.Decimal.{print_int}
use rc_project.Text.Decimal.RoundTrip.{scan_int-print_int}
use rc_project.Server.{Client, Session, Group, buffer_size, htons}
use rc_project.Server.Boot.{convert_int, port_argument, boot}
use rc_project.Server.Network.{Network, Endpoint, Address, sock_stream, new_server}
use rc_project.Server.Main.{main, admin_server, client_server, af_inet, sock_dgram, inaddr_any}
use rc_project.Server.Safety.{ServerValid, HasFlags}
use rc_project.Server.Safety.Runs.{
  Event, EventFits, run_events, boot-ServerValid, run_events-ServerValid,
}

-- the system opens every socket
pub record Opens (net : Network) : Type 0 where
  pub opened :
      (domain service protocol : ℕ) → is_nonzero (net.socket domain service protocol) ≡ true
  pub bound : (socket : ℤ) (address : Address) → is_neg (net.bind socket address) ≡ false
  pub listening : (socket : ℤ) (backlog : ℕ) → is_neg (net.listen socket backlog) ≡ false

-- the socket of a server, and its port
abbrev Serves : Network → (domain service protocol port : ℕ) → Endpoint → Type 0
Serves net domain service protocol port e =
    (e.port ≡ port) × (e.socket ≡ net.socket domain service protocol)

new_server-opened :
    (net : Network) (domain service protocol interface port backlog : ℕ)
    → Opens net
    → Returns
        (Serves net domain service protocol port)
        (new_server net domain service protocol interface port backlog)
unfolding new_server
new_server-opened net domain service protocol interface port backlog o =
    let address : Address = record {
      sin_family = domain;
      sin_port = htons port;
      s_addr = net.htonl interface;
    } in
    let socket = net.socket domain service protocol in
    elim (Bool-cases (service == sock_stream)) [
      | inl e ↦
          rw
            (
              o.opened domain service protocol,
              o.bound socket address,
              e,
              o.listening socket backlog,
            )
            (refl, refl)
      | inr e ↦ rw (o.opened domain service protocol, o.bound socket address, e) (refl, refl)
    ]

-- a port in decimal
port_argument-print_int :
    (port : ℕ)
    → 0 < port
    → port < 2 ^ 31
    → port_argument (print_int (pos port)) ≡ ok (some (pos port))
unfolding port_argument convert_int
port_argument-print_int port p small =
    let read = scan_int-print_int port [] small tt in
    let positive : ltb 0 port ≡ true = ground arith in
    rw (rw (append-nil (print_int (pos port))) at read, positive) refl

module _ (junk : Client) (junk_session : Session) (junk_group : Group) (net : Network)
    (open_file : Bytes → Option (List Client)) where
  module _ (opens : Opens net) (program path : Bytes) (client_port config_port : ℕ)
      (records : List Client) (c : 0 < client_port) (c' : client_port < 2 ^ 31)
      (a : 0 < config_port) (a' : config_port < 2 ^ 31) (fits : length path < buffer_size)
      (there : open_file path ≡ some records) (flags : All HasFlags records) where
    abbrev args : List Bytes
    args = program ∷ print_int (pos client_port) ∷ print_int (pos config_port) ∷ path ∷ []

    started :
        Returns
          (λ st.
            ServerValid st.server × (st.admin.port ≡ config_port) × (st.client.port ≡ client_port))
          (main junk junk_session junk_group net open_file args)
    unfolding main strcpy admin_server client_server
    started =
        let short : ltb (length path) buffer_size ≡ true = ground arith in
        let (s, e, v) =
          returned _ (boot junk junk_session junk_group records)
            (boot-ServerValid junk junk_session junk_group records flags) in
        let (x, ex, px) =
          returned (Serves net af_inet sock_stream 0 config_port)
            (new_server net af_inet sock_stream 0 inaddr_any config_port 1)
            (new_server-opened net af_inet sock_stream 0 inaddr_any config_port 1 opens) in
        let (y, ey, py) =
          returned (Serves net af_inet sock_dgram 0 client_port)
            (new_server net af_inet sock_dgram 0 inaddr_any client_port 16)
            (new_server-opened net af_inet sock_dgram 0 inaddr_any client_port 16 opens) in
        rw
          (
            port_argument-print_int client_port c c',
            port_argument-print_int config_port a a',
            short,
            there,
            e,
            ex,
            ey,
          )
          (v, px.0, py.0)

    -- The server is started with two positive ports below 2 ^ 31 and the path of a records file
    -- that fits its array, opens and has permissions that are 0 or 1, and the system opens its
    -- sockets: it does not end, and then serves any datagrams and commands of the administrator
    -- that fit, in any order, without a fault, to a valid state. A datagram fits if it has less
    -- than BUFFER_SIZE bytes, the words of its command fit their arrays, and the field `client` of
    -- a session that it makes, which the code leaves as the stack has it, is NULL. A command fits
    -- if its words fit their arrays, its numbers are in range, and the permissions that ADD gives
    -- are 0 or 1.
    pub main-run_events :
        (es : List Event)
        → All EventFits es
        → Returns ServerValid (
            main junk junk_session junk_group net open_file args >>= λ st.
            run_events (pos_part st.client.socket) es st.server)
    main-run_events es fit =
        let (st, e, v) =
          returned _ (main junk junk_session junk_group net open_file args) started in
        rw e (run_events-ServerValid (pos_part st.client.socket) es st.server v.0 fit)
