-- ===== src/Text/Decimal.antt =====
-- `%d` of printf.
pub mod RoundTrip
use mathlib.Core.Logic.{dite}
use mathlib.Core.WellFounded.{Acc}
use native.Mathlib.Decide.{dec_lt}
use rc_project.Base.{ℕ, zero, suc, ◌+◌, ◌/◌, ◌%◌, ◌<◌, List, [], ◌∷◌, arith, ℤ, pos, negsuc}

Acc-below : (k n : ℕ) → n < k → Acc ◌<◌ n
Acc-below zero n h = elim h [ ]
Acc-below (suc k) n h = Acc.intro n (λ m lt. Acc-below k m (omega arith))

pub tenth-lt : (n : ℕ) → 9 < n → n / 10 < n
tenth-lt n h = omega arith

digits_acc : (n : ℕ) → Acc ◌<◌ n → List ℕ → List ℕ
digits_acc n (Acc.intro _ smaller) out =
    dite (dec_lt 9 n)
      (λ h. digits_acc (n / 10) (smaller (n / 10) (tenth-lt n h)) ((b'0' + n % 10) ∷ out))
      (λ _. (b'0' + n) ∷ out)

unfoldable pub digits : ℕ → List ℕ
unfolding digits_acc Acc-below dec_lt
digits n = digits_acc n (Acc-below (suc n) n (omega arith)) []

unfoldable pub print_int : ℤ → List ℕ
unfolding digits
print_int (pos n) = digits n
print_int (negsuc n) = b'-' ∷ digits (suc n)
