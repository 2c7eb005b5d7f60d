-- ===== src/Base/Runs.antt =====
-- A run returns a value, or ends in undefined behaviour, of which the model keeps the kind, or in an
-- exit of the program, or not at all.
use mathlib.Core.Path.{◌≡◌, refl, ap, transport}
use mathlib.Core.Bool.{Bool, true, false}
use rc_project.Base.Tests.{if◌then◌else◌}
use mathlib.Core.Option.{Option, none, some}

-- `segfault`: a read or write through a pointer to no object. `cyclic`: an assignment that makes
-- the links of a tree a cycle. `overflow`: a write past the end of a fixed array, or a number out
-- of its type's range. `bad_index`: a read past the end of an array. `exited`: a call of `error`,
-- which ends the program. `hung`: a loop that does not end, or a wait for a datagram that does not
-- come. `unfinished`: the fuel that the model gives a loop is used up.
pub data Fault : Type 0 where
  segfault cyclic overflow bad_index exited hung unfinished : Fault

pub data Run {ℓ} (A : Type ℓ) : Type ℓ where
  ok : A → Run A
  fault : Fault → Run A

infixl 5 ◌>>=◌ ◌>>◌
abbrev pub ◌>>=◌ {ℓ κ} : {A : Type ℓ} {B : Type κ} → Run A → (A → Run B) → Run B
ok a >>= f = f a
fault e >>= f = fault e

abbrev pub ◌>>◌ {ℓ} : {B : Type ℓ} → Run (Unit {0}) → Run B → Run B
m >> k = m >>= λ _. k

-- the run faults nowhere, and its value satisfies `P`
abbrev pub Returns {ℓ} : {A : Type ℓ} → (A → Type 0) → Run A → Type 0
Returns P (ok a) = P a
Returns P (fault e) = ⊥

pub returned {ℓ} :
    {A : Type ℓ} (P : A → Type 0) (m : Run A) → Returns P m → (a : A) × (m ≡ ok a) × P a
returned P (ok a) p = (a, refl, p)
returned P (fault e) p = absurd p

-- the value satisfies `P` if there is one
abbrev pub Holds {ℓ} : {A : Type ℓ} → (A → Type 0) → Run A → Type 0
Holds P (ok a) = P a
Holds P (fault e) = Unit

pub Holds-bind {ℓ κ} :
    {A : Type ℓ} {B : Type κ} (P : A → Type 0) (Q : B → Type 0) (m : Run A) (f : A → Run B)
    → Holds P m
    → ((a : A) → P a → Holds Q (f a))
    → Holds Q (m >>= f)
Holds-bind P Q (ok a) f h k = k a h
Holds-bind P Q (fault e) f h k = tt

pub Holds-if {ℓ} :
    {A : Type ℓ} (P : A → Type 0) (b : Bool) (x y : Run A)
    → Holds P x
    → Holds P y
    → Holds P (if b then x else y)
Holds-if P true x y h k = h
Holds-if P false x y h k = k

pub Holds-option {ℓ κ} :
    {A : Type ℓ} {B : Type κ} (Q : B → Type 0) (o : Option A) (x : Run B) (f : A → Run B)
    → Holds Q x
    → ((a : A) → Holds Q (f a))
    → Holds Q (elim o [ none ↦ x | some a ↦ f a ])
Holds-option Q none x f e k = e
Holds-option Q (some a) x f e k = k a

-- whatever the first run gives
pub Holds-any {ℓ κ} :
    {A : Type ℓ} {B : Type κ} (Q : B → Type 0) (m : Run A) (f : A → Run B)
    → ((a : A) → Holds Q (f a))
    → Holds Q (m >>= f)
Holds-any Q (ok a) f k = k a
Holds-any Q (fault e) f k = tt

-- a run that returns
pub returns {ℓ} :
    {A : Type ℓ} (V P : A → Type 0) (m : Run A) → Returns V m → Holds P m → Returns P m
returns V P (ok a) v h = h
returns V P (fault e) v h = v

pub Holds-ok {ℓ} : {A : Type ℓ} (P : A → Type 0) {m : Run A} (a : A) → Holds P m → m ≡ ok a → P a
Holds-ok P a h e = transport (ap (Holds P) e) h
