-- ===== src/Text/Decimal/RoundTrip.antt =====
-- `%d` of sscanf on what `%d` of printf prints.
use mathlib.Core.Logic.{dif_pos, dif_neg}
use mathlib.Core.WellFounded.{Acc}
use native.Mathlib.Bridge.{le_prop}
use native.Mathlib.Decide.{dec_lt}
use rc_project.Base.{
  ◌+◌, ◌-◌, ◌*◌, ◌/◌, ◌%◌, ◌^◌, ◌<◌, ◌≡◌, refl, ap, sym, ◌∙◌, arith, ℕ, suc, List, [], ◌∷◌, ◌++◌,
  some, true, false, ok, pos, ltb,
}
use rc_project.Text.Decimal.{digits_acc, Acc-below, tenth-lt, digits, print_int}
use rc_project.Text.Scan.{
  is_digit, is_space, read_digits, scan_digits, scan_int, skip_space, signed,
}

-- no digit stands at the front
abbrev pub NoDigit : List ℕ → Type 0
NoDigit [] = Unit
NoDigit (c ∷ s) = is_digit c ≡ false

last_digit-is_digit : (n : ℕ) → is_digit (b'0' + n % 10) ≡ true
last_digit-is_digit n = ground arith

acc_large :
    (n : ℕ) (smaller : (m : ℕ) → m < n → Acc ◌<◌ m) (out : List ℕ) (h : 9 < n)
    → digits_acc n (Acc.intro n smaller) out
      ≡ digits_acc (n / 10) (smaller (n / 10) (tenth-lt n h)) ((b'0' + n % 10) ∷ out)
unfolding digits_acc
acc_large n smaller out h = dif_pos (dec_lt 9 n) le_prop h _ _

acc_small :
    (n : ℕ) (smaller : (m : ℕ) → m < n → Acc ◌<◌ m) (out : List ℕ)
    → ¬ (9 < n)
    → digits_acc n (Acc.intro n smaller) out ≡ (b'0' + n) ∷ out
unfolding digits_acc
acc_small n smaller out h = dif_neg (dec_lt 9 n) h _ _

digits_acc-append :
    (n : ℕ) (w : Acc ◌<◌ n) (out rest : List ℕ)
    → digits_acc n w out ++ rest ≡ digits_acc n w (out ++ rest)
digits_acc-append n (Acc.intro _ smaller) out rest = elim (dec_lt 9 n) [
  | yes h ↦
      rw (acc_large n smaller out h, acc_large n smaller (out ++ rest) h)
        (digits_acc-append (n / 10) (smaller (n / 10) (tenth-lt n h)) ((b'0' + n % 10) ∷ out) rest)
  | no h ↦ rw (acc_small n smaller out h, acc_small n smaller (out ++ rest) h) refl
]

-- reading the digits of `n` goes on with what follows them
read_digits-digits_acc :
    (n : ℕ) (w : Acc ◌<◌ n) (out : List ℕ) → read_digits 0 (digits_acc n w out) ≡ read_digits n out
unfolding read_digits
read_digits-digits_acc n (Acc.intro _ smaller) out = elim (dec_lt 9 n) [
  | yes h ↦
      let ih =
        read_digits-digits_acc (n / 10) (smaller (n / 10) (tenth-lt n h)) ((b'0' + n % 10) ∷ out) in
      let back : n / 10 * 10 + (b'0' + n % 10 - b'0') ≡ n = omega arith in
      rw (acc_large n smaller out h, ih, last_digit-is_digit n, back) refl
  | no h ↦
      let digit : is_digit (b'0' + n) ≡ true = ground arith in
      let back : 0 * 10 + (b'0' + n - b'0') ≡ n = omega arith in
      rw (acc_small n smaller out h, digit, back) refl
]

digits_acc-front :
    (n : ℕ) (w : Acc ◌<◌ n) (out : List ℕ)
    → (c : ℕ) × (s : List ℕ) × (digits_acc n w out ≡ c ∷ s) × (is_digit c ≡ true)
digits_acc-front n (Acc.intro _ smaller) out = elim (dec_lt 9 n) [
  | yes h ↦
      let (c, s, e, d) =
        digits_acc-front (n / 10) (smaller (n / 10) (tenth-lt n h)) ((b'0' + n % 10) ∷ out) in
      (c, s, acc_large n smaller out h ∙ e, d)
  | no h ↦ (b'0' + n, out, acc_small n smaller out h, ground arith)
]

read_digits-end : (n : ℕ) (rest : List ℕ) → NoDigit rest → read_digits n rest ≡ (n, rest)
unfolding read_digits
read_digits-end n [] h = refl
read_digits-end n (c ∷ s) h = rw h refl

-- a digit is no white space and no sign
signed-digit :
    (c : ℕ) (s : List ℕ) → is_digit c ≡ true → signed (skip_space (c ∷ s)) ≡ (false, c ∷ s)
unfolding skip_space
signed-digit c s d = ground arith

scan_digits-digit :
    (c : ℕ) (s : List ℕ) → is_digit c ≡ true → scan_digits (c ∷ s) ≡ some (read_digits 0 (c ∷ s))
unfolding scan_digits
scan_digits-digit c s d = rw d refl

-- A number below 2 ^ 31 that `%d` of printf prints is read back by `%d` of sscanf, up to what follows
-- it, if that is no digit.
pub scan_int-print_int :
    (n : ℕ) (rest : List ℕ)
    → n < 2 ^ 31
    → NoDigit rest
    → scan_int (print_int (pos n) ++ rest) ≡ ok (some (pos n, rest))
unfolding scan_int print_int digits
scan_int-print_int n rest small after =
    let w = Acc-below (suc n) n (omega arith) in
    let (c, s, e, d) = digits_acc-front n w rest in
    let fits : ltb n (2 ^ 31) ≡ true = ground arith in
    let whole : read_digits 0 (c ∷ s) ≡ (n, rest) =
      ap (read_digits 0) (sym e) ∙ read_digits-digits_acc n w rest ∙ read_digits-end n rest after in
    rw (digits_acc-append n w [] rest, e, signed-digit c s d, scan_digits-digit c s d, whole, fits)
      refl

-- nor is there white space in front of a number
pub skip_space-print_int :
    (n : ℕ) (rest : List ℕ) → skip_space (print_int (pos n) ++ rest) ≡ print_int (pos n) ++ rest
unfolding print_int digits skip_space
skip_space-print_int n rest =
    let w = Acc-below (suc n) n (omega arith) in
    let (c, s, e, d) = digits_acc-front n w rest in
    let dark : is_space c ≡ false = ground arith in rw (digits_acc-append n w [] rest, e, dark) refl
