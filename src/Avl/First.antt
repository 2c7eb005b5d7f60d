-- ===== src/Avl/First.antt =====
-- Where a search through a list of blocks stops.
use mathlib.Core.List.{map}
use rc_project.Base.{
  ◌≡◌, refl, sym, List, [], ◌∷◌, some, true, Bool-cases, inl, inr, ℤ, if◌then◌else◌,
}
use rc_project.Memory.{Ptr, Heap}
use rc_project.Avl.Order.{find, is_same}
use rc_project.Avl.Handle.{cmp_at}

module _ {A : Type 0} (cmp : A → A → ℤ) where
  -- `q` is the first block with the key of `a`
  abbrev pub FirstAt : A → (Ptr → A) → Ptr → List Ptr → Type 0
  FirstAt a cell q [] = ⊥
  FirstAt a cell q (x ∷ xs) = if is_same cmp a (cell x) then x ≡ q else FirstAt a cell q xs

  pub FirstAt-find :
      (a : A) (cell : Ptr → A) (q : Ptr) (ps : List Ptr)
      → FirstAt a cell q ps
      → find cmp a (map cell ps) ≡ some (cell q)
  unfolding find
  FirstAt-find a cell q [] f = absurd f
  FirstAt-find a cell q (x ∷ xs) f = elim (Bool-cases (is_same cmp a (cell x))) [
    | inl hit ↦ let e : x ≡ q = rw hit at f in rw (hit, e) refl
    | inr miss ↦ rw miss (FirstAt-find a cell q xs (rw miss at f))
  ]

  pub FirstAt-same :
      (a : A) (cell : Ptr → A) (q : Ptr) (ps : List Ptr)
      → FirstAt a cell q ps
      → is_same cmp a (cell q) ≡ true
  FirstAt-same a cell q [] f = absurd f
  FirstAt-same a cell q (x ∷ xs) f = elim (Bool-cases (is_same cmp a (cell x))) [
    | inl hit ↦ let e : x ≡ q = rw hit at f in rw (sym e) hit
    | inr miss ↦ FirstAt-same a cell q xs (rw miss at f)
  ]

  pub FirstAt-agree :
      (a b : A) (cell cell' : Ptr → A) (q : Ptr) (ps : List Ptr)
      → ((x : Ptr) → is_same cmp b (cell' x) ≡ is_same cmp a (cell x))
      → FirstAt a cell q ps
      → FirstAt b cell' q ps
  FirstAt-agree a b cell cell' q [] g f = f
  FirstAt-agree a b cell cell' q (x ∷ xs) g f = elim (Bool-cases (is_same cmp a (cell x))) [
    | inl hit ↦ rw (g x, hit) (rw hit at f)
    | inr miss ↦ rw (g x, miss) (FirstAt-agree a b cell cell' q xs g (rw miss at f))
  ]

  pub find-FirstAt :
      (h : Heap A) (k q : Ptr) (ps : List Ptr)
      → find (cmp_at cmp h) k ps ≡ some q
      → FirstAt (h.cell k) h.cell q ps
  unfolding find
  find-FirstAt h k q [] e = cc
  find-FirstAt h k q (x ∷ xs) e = elim (Bool-cases (is_same cmp (h.cell k) (h.cell x))) [
    | inl hit ↦ let f : some x ≡ some q = rw hit at e in rw hit cc
    | inr miss ↦ rw miss (find-FirstAt h k q xs (rw miss at e))
  ]
