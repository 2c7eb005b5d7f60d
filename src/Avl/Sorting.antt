-- ===== src/Avl/Sorting.antt =====
-- Adding the records of a list one after the other.
use rc_project.Base.{
  ◌≡◌, ◌≢◌, refl, sym, ◌∙◌, ap, arith, true, List, [], ◌∷◌, ◌++◌, append_assoc, append-nil, ℤ,
  is_neg, All-split, some, none,
}
use rc_project.Avl.Order.{
  IsComparator, IsSorted, Below, find-Above, Above-trans, insert_sorted, find,
}

module _ {ℓ} {A : Type ℓ} (cmp : A → A → ℤ) where
  unfoldable pub insert_all : List A → List A → List A
  insert_all acc [] = acc
  insert_all acc (x ∷ xs) = insert_all (insert_sorted cmp x acc) xs

  pub insert_all-append :
      (acc xs ys : List A) → insert_all acc (xs ++ ys) ≡ insert_all (insert_all acc xs) ys
  unfolding insert_all
  insert_all-append acc [] ys = refl
  insert_all-append acc (x ∷ xs) ys = insert_all-append (insert_sorted cmp x acc) xs ys

module _ {ℓ} {A : Type ℓ} (cmp : A → A → ℤ) (c : IsComparator cmp) where
  insert_sorted_last :
      (x : A) (xs : List A) → Below cmp x xs → insert_sorted cmp x xs ≡ xs ++ (x ∷ [])
  unfolding insert_sorted
  insert_sorted_last x [] b = refl
  insert_sorted_last x (y ∷ ys) (h, b) =
      ground (arith, insert_sorted_last x ys b, c.flip x y, c.flip y x)

  Below-of_IsSorted : (x : A) (xs ys : List A) → IsSorted cmp (xs ++ (x ∷ ys)) → Below cmp x xs
  Below-of_IsSorted x [] ys s = tt
  Below-of_IsSorted x (y ∷ xs) ys (a, s) = ((All-split _ xs x ys a).1, Below-of_IsSorted x xs ys s)

  insert_all-IsSorted_from :
      (acc xs : List A) → IsSorted cmp (acc ++ xs) → insert_all cmp acc xs ≡ acc ++ xs
  unfolding insert_all
  insert_all-IsSorted_from acc [] s = sym (append-nil acc)
  insert_all-IsSorted_from acc (x ∷ xs) s =
      let e : acc ++ (x ∷ xs) ≡ (acc ++ (x ∷ [])) ++ xs = sym (append_assoc acc (x ∷ []) xs) in
      ap (λ l. insert_all cmp l xs) (insert_sorted_last x acc (Below-of_IsSorted x acc xs s))
      ∙ insert_all-IsSorted_from (acc ++ (x ∷ [])) xs (rw e at s)
      ∙ sym e

  -- a sorted list is built again as it was
  pub insert_all-IsSorted : (xs : List A) → IsSorted cmp xs → insert_all cmp [] xs ≡ xs
  insert_all-IsSorted xs s = insert_all-IsSorted_from [] xs s

  insert_sorted-eq_self :
      (x : A) (xs : List A) → IsSorted cmp xs → find cmp x xs ≢ none → insert_sorted cmp x xs ≡ xs
  unfolding insert_sorted find
  insert_sorted-eq_self x [] s e = absurd (e refl)
  insert_sorted-eq_self x (y ∷ ys) (a, s) e = ground (
    arith,
    insert_sorted-eq_self x ys s,
    λ (n : is_neg (cmp x y) ≡ true). find-Above cmp c x ys (Above-trans cmp c x y ys n a),
  )

  pub insert_sorted_found :
      (x : A) (xs : List A) {y : A}
      → IsSorted cmp xs
      → find cmp x xs ≡ some y
      → insert_sorted cmp x xs ≡ xs
  insert_sorted_found x xs s e = insert_sorted-eq_self x xs s (λ n. cc)
