-- ===== src/Text/Scan/Fits.antt =====
-- The lengths of what the conversions of sscanf write.
use rc_project.Base.{
  ◌<◌, ◌≡◌, refl, arith, List, [], ◌∷◌, Option, none, some, ℕ, Run, ok, fault, length,
}
use rc_project.Text.Scan.{scan_word, fill, ◌>=>◌}

fill-fits :
    (size : ℕ) (x : List ℕ × List ℕ) {w r : List ℕ}
    → fill size x ≡ ok (some (w, r))
    → length w < size
fill-fits size ([], rest) e = cc
fill-fits size (c ∷ s, rest) e = ground arith

pub scan_word-fits :
    (size : ℕ) (s : List ℕ) {w r : List ℕ} → scan_word size s ≡ ok (some (w, r)) → length w < size
unfolding scan_word
scan_word-fits size s e = fill-fits size _ e

-- inversion of a chain of conversions
pub >=>-eq-some {ℓ κ} :
    {A : Type ℓ} {B : Type κ} (m : Run (Option (A × List ℕ))) (f : A → List ℕ → Run (Option B))
    {b : B}
    → (m >=> f) ≡ ok (some b)
    → (a : A) × (rest : List ℕ) × (m ≡ ok (some (a, rest))) × (f a rest ≡ ok (some b))
>=>-eq-some (ok none) f e = cc
>=>-eq-some (ok (some (a, rest))) f e = (a, rest, refl, e)
>=>-eq-some (fault k) f e = cc
