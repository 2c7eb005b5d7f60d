-- ===== src/Avl/Perm.antt =====
-- Insertion into a sorted list, up to order.
use mathlib.Core.List.{map, Perm}
use mathlib.Core.List.Perm
use rc_project.Base.{◌≡◌, List, [], ◌∷◌, none, ℤ, is_neg, is_pos, Bool-cases, inl, inr}
use rc_project.Avl.Order.{find, insert_sorted}

module _ {ℓ} {A B : Type ℓ} (cmp : A → A → ℤ) (f : A → B) where
  pub map-insert_sorted-perm :
      (x : A) (xs : List A)
      → find cmp x xs ≡ none
      → Perm (map f (insert_sorted cmp x xs)) (f x ∷ map f xs)
  unfolding find insert_sorted
  map-insert_sorted-perm x [] e = Perm.refl (f x ∷ [])
  map-insert_sorted-perm x (y ∷ ys) e = elim (Bool-cases (is_neg (cmp x y))) [
    | inl n ↦ rw n (Perm.refl (f x ∷ f y ∷ map f ys))
    | inr n ↦ elim (Bool-cases (is_pos (cmp x y))) [
      | inl p ↦
          rw (n, p)
            (Perm.trans (Perm.cons (f y) (map-insert_sorted-perm x ys (rw (n, p) at e)))
              (Perm.swap (f x) (f y) (map f ys)))
      | inr p ↦ let bad = rw (n, p) at e in cc
    ]
  ]
