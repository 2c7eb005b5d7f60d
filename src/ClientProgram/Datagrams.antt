-- ===== src/ClientProgram/Datagrams.antt =====
-- The bytes of the datagrams of the client, and the server on them.
use rc_project.Base.{
  ◌+◌, ◌-◌, ◌<◌, ◌≡◌, refl, ap, arith, ℕ, zero, suc, [], ◌∷◌, false, fault, overflow, ltb, length,
  length-append, take,
}
use rc_project.Text.{Bytes}
use rc_project.Server.{Server, SockAddr}
use rc_project.Server.Listen.{terminate, udp_server_worker}
use rc_project.ClientProgram.{buffer_size, put, print_to, drop_front}

-- what `sendto` sends of an array into which a text is printed, with what the array held before
abbrev pub datagram_of : (text a : Bytes) → Bytes
datagram_of text a = take buffer_size (print_to buffer_size text a)

length-take : (n : ℕ) (w : Bytes) → n < suc (length w) → length (take n w) ≡ n
length-take zero w h = refl
length-take (suc n) [] h = absurd (omega arith)
length-take (suc n) (c ∷ w) h = ap suc (length-take n w (omega arith))

length-drop_front : (n : ℕ) (w : Bytes) → length (drop_front n w) ≡ length w - n
length-drop_front zero w = omega arith
length-drop_front (suc n) [] = omega arith
length-drop_front (suc n) (c ∷ w) = let ih = length-drop_front n w in omega arith

length-put : (text a : Bytes) → length text < length a → length (put text a) ≡ length a
length-put text a h =
    let e1 = length-append text (0 ∷ drop_front (length text + 1) a) in
    let e2 = length-drop_front (length text + 1) a in omega arith

pub take-short : (n : ℕ) (w : Bytes) → length (take n w) < suc n
take-short zero w = omega arith
take-short (suc n) [] = omega arith
take-short (suc n) (c ∷ w) = let h = take-short n w in omega arith

length-datagram :
    (n : ℕ) (text a : Bytes)
    → length a ≡ suc n
    → length (take (suc n) (put (take n text) a)) ≡ suc n
length-datagram n text a e =
    let short = take-short n text in
    let whole = length-put (take n text) a (omega arith) in
    length-take (suc n) (put (take n text) a) (omega arith)

module _ (socket : ℕ) (text a : Bytes) (sender : SockAddr) (junk : ℕ) (s : Server) where
  -- Every datagram that the client prints into an array of BUFFER_SIZE bytes, whatever its text, has
  -- BUFFER_SIZE bytes, and on it the server writes the NUL behind the end of its own array.
  pub udp_server_worker-overflow :
      length a ≡ buffer_size
      → udp_server_worker socket
          (record { sender = sender; bytes = datagram_of text a; junk = junk })
          s
        ≡ fault overflow
  unfolding udp_server_worker terminate
  udp_server_worker-overflow e =
      let long = length-datagram 999 text a e in
      let full : ltb (length (datagram_of text a)) buffer_size ≡ false = ground arith in
      rw full refl
