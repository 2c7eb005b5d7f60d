-- ===== src/Base/Options.antt =====
-- Lemmas on `Option.map`.
use mathlib.Core.Option
use mathlib.Core.Option.{Option, none, some}
use mathlib.Core.Path.{◌≡◌, refl}

pub map-eq-some :
    {A B : Type 0} (f : A → B) (o : Option A) {b : B}
    → Option.map f o ≡ some b
    → (a : A) × (o ≡ some a) × (f a ≡ b)
map-eq-some f none e = cc
map-eq-some f (some a) e = (a, refl, cc)

pub map-eq-none : {A B : Type 0} (f : A → B) (o : Option A) → Option.map f o ≡ none → o ≡ none
map-eq-none f none e = refl
map-eq-none f (some a) e = cc
