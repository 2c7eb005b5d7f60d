-- ===== src/Server/Network.antt =====
-- code/server/src/network/server.c. The calls of the system are parameters.
use rc_project.Base.{
  ℕ, ◌==◌, ◌&&◌, if◌then◌else◌, ℤ, is_neg, is_nonzero, not, Run, ok, fault, exited,
}
use rc_project.Server.{htons}

-- SOCK_STREAM
abbrev pub sock_stream : ℕ
sock_stream = 1

-- the address that is bound; the interface is swapped by `htonl`, of which the result is kept
pub record Address : Type 0 where
  pub sin_family : ℕ
  pub sin_port : ℕ
  pub s_addr : ℕ

pub record Network : Type 0 where
  pub socket : (domain service protocol : ℕ) → ℤ
  pub bind : ℤ → Address → ℤ
  pub listen : ℤ → (backlog : ℕ) → ℤ
  pub htonl : ℕ → ℕ

-- `struct server`, but for the worker, which is called by the callers
pub record Endpoint : Type 0 where
  pub domain : ℕ
  pub service : ℕ
  pub protocol : ℕ
  pub interface : ℕ
  pub port : ℕ
  pub backlog : ℕ
  pub address : Address
  pub socket : ℤ

-- A failure of `socket` is -1, for which the code does not test.
unfoldable pub new_server :
    Network → (domain service protocol interface port backlog : ℕ) → Run Endpoint
new_server net domain service protocol interface port backlog =
    let address : Address = record {
      sin_family = domain;
      sin_port = htons port;
      s_addr = net.htonl interface;
    } in
    let socket = net.socket domain service protocol in
    let listened = service == sock_stream && is_neg (net.listen socket backlog) in
    if not (is_nonzero socket)
    then fault exited
    else if is_neg (net.bind socket address)
    then fault exited
    else if listened
    then fault exited
    else ok (record {
      domain = domain;
      service = service;
      protocol = protocol;
      interface = interface;
      port = port;
      backlog = backlog;
      address = address;
      socket = socket;
    })
