-- ===== src/Text/Prefix.antt =====
-- `starts_with` of code/server/src/utils/string.c.
use mathlib.Core.Path.{ap₂}
use rc_project.Base.{
  ◌≡◌, refl, arith, [], ◌∷◌, ◌++◌, true, false, ltb, ◌==◌, Bool-cases, inl, inr, length,
  length-append,
}
use rc_project.Text.{Bytes, starts_with, starts_with_loop}

loop-append : (b c : Bytes) → starts_with_loop (b ++ c) b ≡ true
unfolding starts_with_loop
loop-append [] [] = refl
loop-append [] (x ∷ c) = refl
loop-append (y ∷ b) c = let same : (y == y) ≡ true = ground arith in rw (same, loop-append b c) refl

loop-prefix : (a b : Bytes) → starts_with_loop a b ≡ true → (c : Bytes) × (a ≡ b ++ c)
unfolding starts_with_loop
loop-prefix a [] h = (a, refl)
loop-prefix [] (y ∷ b) h = absurd cc
loop-prefix (x ∷ a) (y ∷ b) h = elim (Bool-cases (x == y)) [
  | inl same ↦
      let e : x ≡ y = ground arith in
      let (c, f) = loop-prefix a b (rw same at h) in (c, ap₂ (λ z zs. z ∷ zs) e f)
  | inr other ↦ absurd (ground (arith, other, h))
]

-- A string that is put in front of another one starts it.
pub starts_with-append : (b c : Bytes) → starts_with (b ++ c) b ≡ true
unfolding starts_with
starts_with-append b c =
    let long : ltb (length (b ++ c)) (length b) ≡ false = ground (arith, length-append b c) in
    rw (long, loop-append b c) refl

-- `starts_with` says yes only to strings that begin with the other one.
pub starts_with-prefix : (a b : Bytes) → starts_with a b ≡ true → (c : Bytes) × (a ≡ b ++ c)
unfolding starts_with
starts_with-prefix a b h = elim (Bool-cases (ltb (length a) (length b))) [
  | inl short ↦ absurd (ground (arith, short, h))
  | inr long ↦ loop-prefix a b (rw long at h)
]
