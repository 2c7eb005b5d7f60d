-- ===== src/Text/Scan/Words.antt =====
-- `%s` on a word, and the strings in arrays that hold a word or a text.
use rc_project.Base.{
  ◌-◌, ◌<◌, ◌≡◌, ◌≢◌, refl, ap, arith, ℕ, zero, suc, List, [], ◌∷◌, ◌++◌, some, inl, inr, true,
  false, ok, ltb, length, All, take, ◌==◌, if◌then◌else◌, Bool, Option-cases, ◌||◌,
}
use rc_project.Text.{Bytes, c_string, remove_end_line}
use rc_project.Text.Scan.{is_space, scan_word, skip_space, span, fill}

-- no white space and no NUL
abbrev pub IsWordByte : ℕ → Type 0
IsWordByte c = (is_space c ≡ false) × (c ≢ 0)

pub record IsWord (size : ℕ) (w : Bytes) : Type 0 where
  pub nonempty : 0 < length w
  pub fits : length w < size
  pub bytes : All IsWordByte w

-- the end, or white space
abbrev pub AtSpace : List ℕ → Type 0
AtSpace [] = Unit
AtSpace (c ∷ s) = is_space c ≡ true

-- no NUL and no end of line
abbrev pub IsTextByte : ℕ → Type 0
IsTextByte c = ((c == 0) || (c == b'\r') || (c == b'\n')) ≡ false

-- a test that holds on a text and not behind it
pub span-append :
    (test : ℕ → Bool) (w : List ℕ) (c : ℕ) (rest : List ℕ)
    → All (λ x. test x ≡ true) w
    → test c ≡ false
    → span test (w ++ (c ∷ rest)) ≡ (w, c ∷ rest)
span-append test [] c rest h e = rw e refl
span-append test (x ∷ w) c rest (hx, h) e = rw (hx, span-append test w c rest h e) refl

pub span-all : (test : ℕ → Bool) (w : List ℕ) → All (λ x. test x ≡ true) w → span test w ≡ (w, [])
span-all test [] h = refl
span-all test (x ∷ w) (hx, h) = rw (hx, span-all test w h) refl

span-word :
    (w rest : List ℕ)
    → All IsWordByte w
    → AtSpace rest
    → span (λ c. if is_space c then false else true) (w ++ rest) ≡ (w, rest)
span-word [] [] h e = refl
span-word [] (c ∷ rest) h e = rw e refl
span-word (x ∷ w) rest (hx, h) e = rw (hx.0, span-word w rest h e) refl

pub skip_space-word :
    (size : ℕ) (w rest : List ℕ) → IsWord size w → skip_space (w ++ rest) ≡ w ++ rest
unfolding skip_space
skip_space-word size [] rest h = absurd (let p = h.nonempty in omega arith)
skip_space-word size (c ∷ w) rest h = rw h.bytes.0.0 refl

pub fill-word :
    (size : ℕ) (w rest : List ℕ)
    → 0 < length w
    → length w < size
    → fill size (w, rest) ≡ ok (some (w, rest))
fill-word size [] rest p h = absurd (omega arith)
fill-word size (c ∷ w) rest p h =
    let fits : ltb (length (c ∷ w)) size ≡ true = ground arith in rw fits refl

-- `%s` reads a word that fits its array
pub scan_word-word :
    (size : ℕ) (w rest : List ℕ)
    → IsWord size w
    → AtSpace rest
    → scan_word size (w ++ rest) ≡ ok (some (w, rest))
unfolding scan_word
scan_word-word size w rest h e =
    rw
      (
        skip_space-word size w rest h,
        span-word w rest h.bytes e,
        fill-word size w rest h.nonempty h.fits,
      )
      refl

-- the string that a NUL ends
pub c_string-append : (w rest : List ℕ) → All (λ c. c ≢ 0) w → c_string (w ++ (0 ∷ rest)) ≡ some w
unfolding c_string
c_string-append [] rest h = elim (Option-cases (c_string rest)) [
  | inl e ↦ rw e refl
  | inr (s, e) ↦ rw e refl
]
c_string-append (c ∷ w) rest (hc, h) =
    let live : (c == 0) ≡ false = ground arith in rw (c_string-append w rest h, live) refl

pub remove_end_line-text : (w : Bytes) → All IsTextByte w → remove_end_line w ≡ w
unfolding remove_end_line
remove_end_line-text [] h = refl
remove_end_line-text (c ∷ w) (hc, h) =
    let dark : ((c == b'\r') || (c == b'\n')) ≡ false = ground arith in
    rw (dark, remove_end_line-text w h) refl

pub take-string :
    (n : ℕ) (w rest : List ℕ)
    → length w < n
    → take n (w ++ (0 ∷ rest)) ≡ w ++ (0 ∷ take (n - length w - 1) rest)
take-string zero w rest h = absurd (omega arith)
take-string (suc n) [] rest h = let e : suc n - 0 - 1 ≡ n = omega arith in rw e refl
take-string (suc n) (c ∷ w) rest h =
    let e : suc n - suc (length w) - 1 ≡ n - length w - 1 = omega arith in
    rw e (ap (λ z. c ∷ z) (take-string n w rest (omega arith)))

pub take-le : (n : ℕ) (w : List ℕ) → length w < suc n → take n w ≡ w
take-le zero [] h = refl
take-le zero (c ∷ w) h = absurd (omega arith)
take-le (suc n) [] h = refl
take-le (suc n) (c ∷ w) h = ap (λ z. c ∷ z) (take-le n w (omega arith))

pub append_cons :
    (text pad rest : Bytes) → (text ++ (0 ∷ pad)) ++ rest ≡ text ++ (0 ∷ (pad ++ rest))
append_cons [] pad rest = refl
append_cons (c ∷ text) pad rest = ap (λ z. c ∷ z) (append_cons text pad rest)
