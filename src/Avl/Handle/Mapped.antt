-- ===== src/Avl/Handle/Mapped.antt =====
-- Comparing blocks by what they hold: the sorted lists of pointers are lists of contents.
use mathlib.Core.List.{map}
use mathlib.Core.Option
use rc_project.Base.{All-split, ◌≡◌, refl, arith, true, List, [], ◌∷◌, ℤ, is_neg, All}
use rc_project.Avl.{Tree, null, node, elements}
use rc_project.Avl.Order.{IsComparator, IsSorted, Above, Below, find, insert_sorted, remove}
use rc_project.Avl.Elements.{IsOrdered}

-- what the contents satisfy, where the blocks satisfy it
module _ {A D : Type 0} (f : A → D) where
  pub All-map : (P : D → Type 0) (xs : List A) → All (λ a. P (f a)) xs → All P (map f xs)
  All-map P [] h = tt
  All-map P (x ∷ xs) (hx, h) = (hx, All-map P xs h)

module _ {A D : Type 0} (f : A → D) (cmp : D → D → ℤ) where
  abbrev pub through : A → A → ℤ
  through a b = cmp (f a) (f b)

  pub IsComparator-through : IsComparator cmp → IsComparator through
  IsComparator-through c = record {
    flip = λ a b. c.flip (f a) (f b);
    trans = λ a b d. c.trans (f a) (f b) (f d);
    equal_left = λ a b d. c.equal_left (f a) (f b) (f d);
    equal_right = λ a b d. c.equal_right (f a) (f b) (f d);
  }

  pub find-map :
      (x : A) (xs : List A) → Option.map f (find through x xs) ≡ find cmp (f x) (map f xs)
  unfolding find
  find-map x [] = refl
  find-map x (y ∷ ys) = ground (arith, find-map x ys)

  pub map-insert_sorted :
      (x : A) (xs : List A)
      → map f (insert_sorted through x xs) ≡ insert_sorted cmp (f x) (map f xs)
  unfolding insert_sorted
  map-insert_sorted x [] = refl
  map-insert_sorted x (y ∷ ys) = ground (arith, map-insert_sorted x ys)

  pub map-remove : (x : A) (xs : List A) → map f (remove through x xs) ≡ remove cmp (f x) (map f xs)
  unfolding remove
  map-remove x [] = refl
  map-remove x (y ∷ ys) = ground (arith, map-remove x ys)

  pub IsSorted-map : (xs : List A) → IsSorted through xs → IsSorted cmp (map f xs)
  IsSorted-map [] s = tt
  IsSorted-map (x ∷ xs) (a, s) =
      (All-map f (λ d. is_neg (cmp (f x) d) ≡ true) xs a, IsSorted-map xs s)

-- the same data under another comparison that agrees on them
module _ {A : Type 0} (P : A → Type 0) (cmp cmp' : A → A → ℤ)
    (agree : (a b : A) → P a → P b → cmp a b ≡ cmp' a b) where
  Below-agree : (d : A) (xs : List A) → P d → All P xs → Below cmp d xs → Below cmp' d xs
  Below-agree d [] pd ps b = tt
  Below-agree d (x ∷ xs) pd (px, ps) (bx, b) = (rw (← agree x d px pd) bx, Below-agree d xs pd ps b)

  Above-agree : (d : A) (xs : List A) → P d → All P xs → Above cmp d xs → Above cmp' d xs
  Above-agree d [] pd ps b = tt
  Above-agree d (x ∷ xs) pd (px, ps) (bx, b) = (rw (← agree d x pd px) bx, Above-agree d xs pd ps b)

  pub IsOrdered-agree : (t : Tree A) → All P (elements t) → IsOrdered cmp t → IsOrdered cmp' t
  unfolding elements
  IsOrdered-agree null ps o = tt
  IsOrdered-agree (node h d l r) ps (b, a, ol, or) =
      let (pl, pd, pr) = All-split P (elements l) d (elements r) ps in
      (
        Below-agree d (elements l) pd pl b,
        Above-agree d (elements r) pd pr a,
        IsOrdered-agree l pl ol,
        IsOrdered-agree r pr or,
      )
