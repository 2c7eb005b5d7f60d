-- ===== src/ClientProgram/Threads.antt =====
-- code/client/src/main.c: the threads that print the messages of the other clients, over what
-- `recvfrom` returns (`none` for an error). `bound` is whether `bind` succeeded.
use rc_project.Base.{
  ℕ, Bool, List, [], ◌∷◌, ◌++◌, Option, none, some, if◌then◌else◌, Run, ok, fault, exited, not,
  ◌>>=◌,
}
use rc_project.Text.{codes}
use rc_project.Server.{htons}
use rc_project.ClientProgram.{
  buffer_size, multicast_port, Machine, Program, Reply, Target, print, string, receive_into, uint16,
}

-- the address that `read_msg` binds: INADDR_ANY is 0
unfoldable pub message_addr : Program → Target
message_addr p = record { s_addr = 0; sin_port = htons (uint16 p.message_port) }

unfoldable pub read_multicast_addr : Target
read_multicast_addr = record { s_addr = 0; sin_port = htons multicast_port }

module _ (m : Machine) where
  -- the rounds of the loop; `addr` and `buffer` are what the call of `recvfrom` before left
  unfoldable pub read_msg_loop :
      (addr : Target) → (buffer : List ℕ) → List (Option Reply) → Program → Run Program
  read_msg_loop addr buffer [] p = ok p
  read_msg_loop addr buffer (none ∷ rs) p =
      read_msg_loop addr buffer rs (print (codes "Message read error\n") p)
  read_msg_loop addr buffer (some r ∷ rs) p = do
    got ← receive_into buffer_size buffer r.bytes
    elim got [
      | none ↦ read_msg_loop r.sender buffer rs (print (codes "Message read error\n") p)
      | some b ↦ (do
        text ← string b
        let line =
            codes "[Message received from "
            ++ m.inet_ntop r.sender.s_addr
            ++ codes "] "
            ++ text
            ++ codes "\n"
        read_msg_loop r.sender b rs (print line p))
    ]

  unfoldable pub read_msg : (bound : Bool) → List (Option Reply) → Program → Run Program
  read_msg bound rs p =
      if not bound then fault exited else read_msg_loop (message_addr p) (m.junk buffer_size) rs p

  unfoldable pub read_multicast_loop :
      (buffer : List ℕ) → List (Option Reply) → Program → Run Program
  read_multicast_loop buffer [] p = ok p
  read_multicast_loop buffer (none ∷ rs) p = ok (print (codes "Multicast read error\n") p)
  read_multicast_loop buffer (some r ∷ rs) p = do
    got ← receive_into buffer_size buffer r.bytes
    elim got [
      | none ↦ ok (print (codes "Multicast read error\n") p)
      | some b ↦ (do
        text ← string b
        read_multicast_loop b rs (print (codes "[Multicast] " ++ text ++ codes "\n") p))
    ]

  unfoldable pub read_multicast : (bound : Bool) → List (Option Reply) → Program → Run Program
  read_multicast bound rs p =
      if not bound then fault exited else read_multicast_loop (m.junk buffer_size) rs p
