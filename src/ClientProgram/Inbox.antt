-- ===== src/ClientProgram/Inbox.antt =====
-- The messages of the other clients, as the thread of `read_msg` prints them.
use rc_project.Base.{
  ◌≡◌, ap, sym, ◌∙◌, List, [], ◌∷◌, ◌++◌, append_assoc, append-nil, some, true, ok,
}
use mathlib.Core.List.{map}
use rc_project.Text.{Bytes, codes}
use rc_project.ClientProgram.{buffer_size, Machine, Program, Reply, Target}
use rc_project.ClientProgram.Reads.{Carries, received-text}
use rc_project.ClientProgram.Threads.{read_msg_loop, read_msg, message_addr}

-- a datagram with a text
pub record Message : Type 0 where
  pub reply : Reply
  pub text : Bytes
  pub carries : Carries buffer_size text reply.bytes

module _ (m : Machine) where
  abbrev pub shown : Message → Bytes
  shown x =
      codes "[Message received from "
      ++ m.inet_ntop x.reply.sender.s_addr
      ++ codes "] "
      ++ x.text
      ++ codes "\n"

  loop-shown :
      (xs : List Message) (addr : Target) (buffer : Bytes) (p : Program)
      → read_msg_loop m addr buffer (map (λ (x : Message). some x.reply) xs) p
        ≡ ok (record p { screen = p.screen ++ map shown xs })
  unfolding read_msg_loop
  loop-shown [] addr buffer p = ap (λ z. ok (record p { screen = z })) (sym (append-nil p.screen))
  loop-shown (x ∷ xs) addr buffer p =
      let (b, got, is) = received-text buffer_size buffer x.text x.reply.bytes x.carries in
      rw (got, is)
        (loop-shown xs x.reply.sender b (record p { screen = p.screen ++ (shown x ∷ []) })
          ∙ ap (λ z. ok (record p { screen = z }))
              (append_assoc p.screen (shown x ∷ []) (map shown xs)))

  -- Once its socket is bound, the thread prints every message with the address of its sender, in the
  -- order in which they arrive, whatever was in its buffer before.
  pub read_msg-shown :
      (xs : List Message) (p : Program)
      → read_msg m true (map (λ (x : Message). some x.reply) xs) p
        ≡ ok (record p { screen = p.screen ++ map shown xs })
  unfolding read_msg
  read_msg-shown xs p = loop-shown xs (message_addr p) (m.junk buffer_size) p
