-- ===== src/ClientProgram/Reads.antt =====
-- What the client reads from a terminal on which words and lines are typed.
use rc_project.Base.{
  ◌+◌, ◌<◌, ◌≡◌, ◌≢◌, refl, ap, ◌∙◌, arith, ℕ, zero, suc, List, [], ◌∷◌, ◌++◌, Option, some, true,
  false, ok, fault, overflow, ltb, length, length-append, All, All-imp, take, ◌==◌, if◌then◌else◌,
}
use rc_project.Text.{Bytes}
use rc_project.Text.Scan.{scan_word, skip_space, span}
use rc_project.Text.Scan.Words.{
  IsWord, IsWordByte, AtSpace, scan_word-word, span-append, c_string-append, take-le, append_cons,
  fill-word,
}
use rc_project.ClientProgram.{
  buffer_size, Program, Reply, string, put, drop_front, read_word, read_line, receive_into, receive,
}

-- a line as it is typed, which fits its array
pub record IsLine (size : ℕ) (line : Bytes) : Type 0 where
  pub nonempty : 0 < length line
  pub fits : length line < size
  pub bytes : All (λ c. c ≢ b'\n') line

pub IsWord-live : (size : ℕ) (w : Bytes) → IsWord size w → All (λ c. c ≢ 0) w
IsWord-live size w h = All-imp (λ c (p : IsWordByte c). p.1) w h.bytes

pub string-put : (w a : Bytes) → All (λ c. c ≢ 0) w → string (put w a) ≡ ok w
unfolding string
string-put w a h = rw (string, c_string-append w (drop_front (length w + 1) a) h) refl

scan_word-newline : (size : ℕ) (s : Bytes) → scan_word size (b'\n' ∷ s) ≡ scan_word size s
unfolding scan_word skip_space
scan_word-newline size s = refl

pub read_word-word :
    (size : ℕ) (a w rest : Bytes) (p : Program)
    → p.stdin ≡ w ++ rest
    → IsWord size w
    → AtSpace rest
    → read_word size a p ≡ ok (put w a, record p { stdin = rest })
unfolding read_word
read_word-word size a w rest p e h s = rw (e, scan_word-word size w rest h s) refl

-- the end of the line before is skipped
pub read_word-newline :
    (size : ℕ) (a w rest : Bytes) (p : Program)
    → p.stdin ≡ b'\n' ∷ w ++ rest
    → IsWord size w
    → AtSpace rest
    → read_word size a p ≡ ok (put w a, record p { stdin = rest })
unfolding read_word
read_word-newline size a w rest p e h s =
    rw (e, scan_word-newline size (w ++ rest), scan_word-word size w rest h s) refl

pub read_line-line :
    (size : ℕ) (a line rest : Bytes) (p : Program)
    → p.stdin ≡ line ++ (b'\n' ∷ rest)
    → IsLine size line
    → read_line size a p ≡ ok (put line a, record p { stdin = b'\n' ∷ rest })
unfolding read_line
read_line-line size a line rest p e h =
    let other : All (λ c. (if c == b'\n' then false else true) ≡ true) line =
      All-imp (λ c (n : c ≢ b'\n'). ground arith) line h.bytes in
    rw
      (
        e,
        span-append (λ c. if c == b'\n' then false else true) line b'\n' rest other refl,
        fill-word size line (b'\n' ∷ rest) h.nonempty h.fits,
      )
      refl

pub before_newline-text :
    (w : Bytes) → All (λ c. c ≢ b'\n') w → (span (λ c. if c == b'\n' then false else true) w).0 ≡ w
before_newline-text [] h = refl
before_newline-text (c ∷ w) (hc, h) =
    let other : (c == b'\n') ≡ false = ground arith in
    rw other (ap (λ z. c ∷ z) (before_newline-text w h))

-- A datagram of the server: a text, its NUL, and what follows in a buffer.
pub record Carries (size : ℕ) (text bytes : Bytes) : Type 0 where
  pub live : All (λ c. c ≢ 0) text
  pub pad : Bytes
  pub whole : bytes ≡ text ++ (0 ∷ pad)
  pub fits : length bytes < suc size
  pub short : length bytes < suc buffer_size

pub received-front :
    (size : ℕ) (a bytes : List ℕ)
    → 0 < length bytes
    → length bytes < suc size
    → length bytes < suc buffer_size
    → receive_into size a bytes ≡ ok (some (bytes ++ drop_front (length bytes) a))
unfolding receive_into
received-front size a [] p h s = absurd (omega arith)
received-front size a (b ∷ bytes) p h s =
    let fits : ltb size (length (b ∷ bytes)) ≡ false = ground arith in
    let all : take 999 bytes ≡ bytes = take-le 999 bytes (omega arith) in
    rw (all, fits) (ap (λ z. ok (some (b ∷ (bytes ++ drop_front (suc (length z)) a)))) all)

-- the array that is receive_into into, and the text in it
pub received-text :
    (size : ℕ) (a text bytes : Bytes)
    → Carries size text bytes
    → (b : Bytes) × (receive_into size a bytes ≡ ok (some b)) × (string b ≡ ok text)
unfolding string
received-text size a text bytes h =
    let long : 0 < length bytes =
      rw (ap length h.whole, length-append text (0 ∷ h.pad)) (omega arith) in
    let same : bytes ++ drop_front (length bytes) a
        ≡ text ++ (0 ∷ (h.pad ++ drop_front (length bytes) a)) =
      ap (λ z. z ++ drop_front (length bytes) a) h.whole
      ∙ append_cons text h.pad (drop_front (length bytes) a) in
    (
      bytes ++ drop_front (length bytes) a,
      received-front size a bytes long h.fits h.short,
      rw (same, string, c_string-append text (h.pad ++ drop_front (length bytes) a) h.live) refl,
    )

pub receive-text :
    (size : ℕ) (a text : Bytes) (r : Reply) (rs : List (Option Reply)) (p : Program)
    → p.replies ≡ some r ∷ rs
    → Carries size text r.bytes
    → (b : Bytes) × (receive size a p
        ≡ ok (some b, record p { replies = rs; server_addr = r.sender }))
      × (string b ≡ ok text)
unfolding receive
receive-text size a text r rs p e h =
    let (b, got, is) = received-text size a text r.bytes h in (b, rw (e, got) refl, is)

lt-length-take : (k n : ℕ) (w : Bytes) → k < n → k < length w → k < length (take n w)
lt-length-take k zero w h l = absurd (omega arith)
lt-length-take k (suc n) [] h l = l
lt-length-take zero (suc n) (c ∷ w) h l = omega arith
lt-length-take (suc k) (suc n) (c ∷ w) h l =
    let ih = lt-length-take k n w (omega arith) (omega arith) in omega arith

received-long :
    (size : ℕ) (a bytes : Bytes)
    → size < length bytes
    → size < buffer_size
    → receive_into size a bytes ≡ fault overflow
unfolding receive_into
received-long size a [] h l = absurd (omega arith)
received-long size a (b ∷ bytes) h l =
    let long : ltb size (length (take buffer_size (b ∷ bytes))) ≡ true =
      let k = lt-length-take size buffer_size (b ∷ bytes) l h in ground arith in
    rw long refl

-- a datagram that is longer than the array, which `recvfrom` does not know of
pub receive-long :
    (size : ℕ) (a : Bytes) (r : Reply) (rs : List (Option Reply)) (p : Program)
    → p.replies ≡ some r ∷ rs
    → size < length r.bytes
    → size < buffer_size
    → receive size a p ≡ fault overflow
unfolding receive
receive-long size a r rs p e h l = rw (e, received-long size a r.bytes h l) refl
