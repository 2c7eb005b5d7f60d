-- ===== src/Text/Scan.antt =====
-- The conversions of sscanf that the sources use. A conversion that matches returns its value and
-- the rest of the input. `%s` and `%[^\n]` write their bytes and a NUL to an array of a given size
-- without a bound of their own, so a longer match is a write past its end.
pub mod Fits
pub mod Words
use rc_project.Base.{
  ℕ, zero, suc, ◌+◌, ◌-◌, ◌*◌, ◌^◌, Bool, true, false, ◌||◌, ◌&&◌, List, [], ◌∷◌, Option, none,
  some, ltb, leb, ◌==◌, length, if◌then◌else◌, ℤ, pos, negsuc, Run, ok, fault, overflow, ◌>>=◌,
}

abbrev pub is_space : ℕ → Bool
is_space c = (c == b' ') || (leb 9 c && leb c 13)

abbrev pub is_digit : ℕ → Bool
is_digit c = leb b'0' c && leb c b'9'

unfoldable pub skip_space : List ℕ → List ℕ
skip_space [] = []
skip_space (c ∷ s) = if is_space c then skip_space s else c ∷ s

-- the longest front of bytes that pass a test
abbrev pub span : (ℕ → Bool) → List ℕ → List ℕ × List ℕ
span p [] = ([], [])
span p (c ∷ s) = let (front, rest) = span p s in if p c then (c ∷ front, rest) else ([], c ∷ s)

abbrev pub fill : ℕ → List ℕ × List ℕ → Run (Option (List ℕ × List ℕ))
fill size ([], rest) = ok none
fill size (c ∷ s, rest) =
    if ltb (length (c ∷ s)) size then ok (some (c ∷ s, rest)) else fault overflow

-- `%s` into `char a[size]`
unfoldable pub scan_word : ℕ → List ℕ → Run (Option (List ℕ × List ℕ))
unfolding skip_space
scan_word size s = fill size (span (λ c. if is_space c then false else true) (skip_space s))

-- ` %[^\n]` into `char a[size]`: the space of the format skips white space
unfoldable pub scan_line : ℕ → List ℕ → Run (Option (List ℕ × List ℕ))
unfolding skip_space
scan_line size s = fill size (span (λ c. if c == b'\n' then false else true) (skip_space s))

unfoldable pub read_digits : ℕ → List ℕ → ℕ × List ℕ
read_digits n [] = (n, [])
read_digits n (c ∷ s) =
    let more = read_digits (n * 10 + (c - b'0')) s in if is_digit c then more else (n, c ∷ s)

-- the digits, at least one of them
unfoldable pub scan_digits : List ℕ → Option (ℕ × List ℕ)
unfolding read_digits
scan_digits [] = none
scan_digits (c ∷ s) = if is_digit c then some (read_digits 0 (c ∷ s)) else none

-- a number out of the range of `int` is undefined
abbrev pub int_of : Bool → Option (ℕ × List ℕ) → Run (Option (ℤ × List ℕ))
int_of minus none = ok none
int_of false (some (n, s)) = if ltb n (2 ^ 31) then ok (some (pos n, s)) else fault overflow
int_of true (some (zero, s)) = ok (some (pos 0, s))
int_of true (some (suc n, s)) = if ltb n (2 ^ 31) then ok (some (negsuc n, s)) else fault overflow

abbrev pub signed : List ℕ → Bool × List ℕ
signed [] = (false, [])
signed (c ∷ s) = if c == b'-' then (true, s) else if c == b'+' then (false, s) else (false, c ∷ s)

-- `%d`
unfoldable pub scan_int : List ℕ → Run (Option (ℤ × List ℕ))
unfolding skip_space scan_digits
scan_int s = let (minus, rest) = signed (skip_space s) in int_of minus (scan_digits rest)

-- A chain of conversions: `some` if all of them match, and `none` if sscanf returns a smaller count.
infixl 5 ◌>=>◌
abbrev pub ◌>=>◌ {ℓ κ} :
    {A : Type ℓ} {B : Type κ}
    → Run (Option (A × List ℕ))
    → (A → List ℕ → Run (Option B))
    → Run (Option B)
m >=> f = m >>= λ o. elim o [ none ↦ ok none | some (a, rest) ↦ f a rest ]

abbrev pub matched {ℓ} : {A : Type ℓ} → A → Run (Option A)
matched a = ok (some a)
