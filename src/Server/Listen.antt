-- ===== src/Server/Listen.antt =====
-- code/server/src/client/client_server.c: one round of the loop that serves the clients, and the
-- rounds for a sequence of datagrams.
use rc_project.Base.{
  ℕ, Bool, true, false, List, [], ◌∷◌, none, some, ltb, length, if◌then◌else◌, Run, ok, fault,
  segfault, overflow, bad_index, ◌>>=◌, ◌++◌,
}
use rc_project.Memory.{Ptr}
use rc_project.Text.{Bytes, codes, c_string, remove_end_line}
use rc_project.Server.{Server, SockAddr, buffer_size}
use rc_project.Server.Connect.{init_client_session}
use rc_project.Server.Commands.{reply}
use rc_project.Server.Commands.Table.{client_cmd_function}

-- What `recvfrom` returns: the sender and at most `buffer_size` bytes. `junk` is what the stack
-- holds where `init_client_session` leaves a field unset.
pub record Received : Type 0 where
  pub sender : SockAddr
  pub bytes : List ℕ
  pub junk : Ptr

-- `buffer[n] = '\0'` is a write past the end of the buffer if `n` is its size.
unfoldable pub terminate : List ℕ → Run Bytes
terminate bytes =
    if ltb (length bytes) buffer_size
    then elim (c_string (bytes ++ (0 ∷ []))) [ none ↦ fault bad_index | some text ↦ ok text ]
    else fault overflow

-- `if(!client_cmd_function(client_session, buffer, &exit))` and what follows
abbrev pub answer_unknown : Ptr → Bool → Server → Run Server
answer_unknown p true s = ok s
answer_unknown p false s = reply p (codes "Command not found\n") s

unfoldable pub udp_server_worker : (socket : ℕ) → Received → Server → Run Server
udp_server_worker socket r s = do
  text ← terminate r.bytes
  (found, s1) ← init_client_session r.junk r.sender socket s
  elim found [
    | none ↦ fault segfault
    | some p ↦ (do
      (known, s2) ← client_cmd_function p (remove_end_line text) s1
      answer_unknown p known s2)
  ]

unfoldable pub serve : (socket : ℕ) → List Received → Server → Run Server
serve socket [] s = ok s
serve socket (r ∷ rs) s = do s' ← udp_server_worker socket r s; serve socket rs s'
