-- ===== src/Avl/Order.antt =====
-- What avl_tree.c asks of `data_cmp`, and the sorted lists that its trees stand for.
use rc_project.Base.{
  ◌≡◌, refl, arith, Bool, true, false, Option, none, some, List, [], ◌∷◌, ◌++◌, if◌then◌else◌, ℤ,
  is_neg, is_pos, All, not, ◌&&◌,
}

-- The sign of the result orders the data, up to data with equal keys.
pub record IsComparator {ℓ} {A : Type ℓ} (cmp : A → A → ℤ) : Type ℓ where
  pub flip : (a b : A) → is_pos (cmp a b) ≡ is_neg (cmp b a)
  pub trans :
      (a b c : A) → is_neg (cmp a b) ≡ true → is_neg (cmp b c) ≡ true → is_neg (cmp a c) ≡ true
  pub equal_left :
      (a b c : A)
      → is_neg (cmp a b) ≡ false
      → is_pos (cmp a b) ≡ false
      → is_neg (cmp a c) ≡ is_neg (cmp b c)
  pub equal_right :
      (a b c : A)
      → is_neg (cmp a b) ≡ false
      → is_pos (cmp a b) ≡ false
      → is_neg (cmp c a) ≡ is_neg (cmp c b)

module _ {ℓ} {A : Type ℓ} (cmp : A → A → ℤ) where
  -- neither before nor behind
  abbrev pub is_same : A → A → Bool
  is_same a b = not (is_neg (cmp a b)) && not (is_pos (cmp a b))

  abbrev pub Below : A → List A → Type 0
  Below b = All (λ a. is_neg (cmp a b) ≡ true)

  abbrev pub Above : A → List A → Type 0
  Above b = All (λ a. is_neg (cmp b a) ≡ true)

  abbrev pub IsSorted : List A → Type 0
  IsSorted [] = Unit
  IsSorted (x ∷ xs) = Above x xs × IsSorted xs

  -- the first element with the key of `x`
  unfoldable pub find : A → List A → Option A
  find x [] = none
  find x (y ∷ ys) = if is_same x y then some y else find x ys

  -- `x` before the first element behind it, unless its key is there
  unfoldable pub insert_sorted : A → List A → List A
  insert_sorted x [] = x ∷ []
  insert_sorted x (y ∷ ys) =
      let rest = y ∷ insert_sorted x ys in
      if is_neg (cmp x y) then x ∷ (y ∷ ys) else if is_pos (cmp x y) then rest else y ∷ ys

  unfoldable pub remove : A → List A → List A
  remove x [] = []
  remove x (y ∷ ys) = if is_same x y then ys else y ∷ remove x ys

  pub All-insert_sorted {κ} :
      (P : A → Type κ) (x : A) (xs : List A) → P x → All P xs → All P (insert_sorted x xs)
  unfolding insert_sorted
  All-insert_sorted P x [] px h = (px, tt)
  All-insert_sorted P x (y ∷ ys) px (py, h) = ground (arith, All-insert_sorted P x ys px h)

  pub All-remove {κ} : (P : A → Type κ) (x : A) (xs : List A) → All P xs → All P (remove x xs)
  unfolding remove
  All-remove P x [] h = tt
  All-remove P x (y ∷ ys) (py, h) = ground (arith, All-remove P x ys h)

  pub insert_sorted-before :
      (x d : A) (l r : List A)
      → is_neg (cmp x d) ≡ true
      → insert_sorted x (l ++ (d ∷ r)) ≡ insert_sorted x l ++ (d ∷ r)
  unfolding insert_sorted
  insert_sorted-before x d [] r h = rw h
  insert_sorted-before x d (y ∷ l) r h = ground (arith, insert_sorted-before x d l r h)

module _ {ℓ} {A : Type ℓ} (cmp : A → A → ℤ) (c : IsComparator cmp) where
  open c use {flip, trans, equal_left, equal_right}

  pub Below-trans :
      (a b : A) (xs : List A) → is_neg (cmp a b) ≡ true → Below cmp a xs → Below cmp b xs
  Below-trans a b [] h all = tt
  Below-trans a b (x ∷ xs) h (hx, all) = (trans x a b hx h, Below-trans a b xs h all)

  pub Above-trans :
      (a b : A) (xs : List A) → is_neg (cmp a b) ≡ true → Above cmp b xs → Above cmp a xs
  Above-trans a b [] h all = tt
  Above-trans a b (x ∷ xs) h (hx, all) = (trans a b x h hx, Above-trans a b xs h all)

  pub insert_sorted-behind :
      (x d : A) (l r : List A)
      → is_pos (cmp x d) ≡ true
      → Below cmp d l
      → insert_sorted cmp x (l ++ (d ∷ r)) ≡ l ++ (d ∷ insert_sorted cmp x r)
  unfolding insert_sorted
  insert_sorted-behind x d [] r h b = ground arith
  insert_sorted-behind x d (y ∷ l) r h (hy, b) =
      ground (arith, insert_sorted-behind x d l r h b, flip x d, flip x y, trans y d x)

  pub insert_sorted_present :
      (x d : A) (l r : List A)
      → is_neg (cmp x d) ≡ false
      → is_pos (cmp x d) ≡ false
      → Below cmp d l
      → insert_sorted cmp x (l ++ (d ∷ r)) ≡ l ++ (d ∷ r)
  unfolding insert_sorted
  insert_sorted_present x d [] r n p b = ground arith
  insert_sorted_present x d (y ∷ l) r n p (hy, b) =
      ground (arith, insert_sorted_present x d l r n p b, flip x y, equal_right x d y)

  -- nothing with the key of `x` stands among elements behind `x`
  pub find-Above : (x : A) (xs : List A) → Above cmp x xs → find cmp x xs ≡ none
  unfolding find
  find-Above x [] a = refl
  find-Above x (y ∷ xs) (h, a) = ground (arith, find-Above x xs a)

  pub remove-Above : (x : A) (xs : List A) → Above cmp x xs → remove cmp x xs ≡ xs
  unfolding remove
  remove-Above x [] a = refl
  remove-Above x (y ∷ xs) (h, a) = ground (arith, remove-Above x xs a)

  pub find-before :
      (x d : A) (l r : List A)
      → is_neg (cmp x d) ≡ true
      → Above cmp d r
      → find cmp x (l ++ (d ∷ r)) ≡ find cmp x l
  unfolding find
  find-before x d [] r h a = ground (arith, find-Above x r (Above-trans x d r h a))
  find-before x d (y ∷ l) r h a = ground (arith, find-before x d l r h a)

  pub find-behind :
      (x d : A) (l r : List A)
      → is_pos (cmp x d) ≡ true
      → Below cmp d l
      → find cmp x (l ++ (d ∷ r)) ≡ find cmp x r
  unfolding find
  find-behind x d [] r h b = ground arith
  find-behind x d (y ∷ l) r h (hy, b) =
      ground (arith, find-behind x d l r h b, flip x d, flip x y, trans y d x)

  pub find_at :
      (x d : A) (l r : List A)
      → is_neg (cmp x d) ≡ false
      → is_pos (cmp x d) ≡ false
      → Below cmp d l
      → find cmp x (l ++ (d ∷ r)) ≡ some d
  unfolding find
  find_at x d [] r n p b = ground arith
  find_at x d (y ∷ l) r n p (hy, b) =
      ground (arith, find_at x d l r n p b, flip x y, equal_right x d y)

  pub remove-before :
      (x d : A) (l r : List A)
      → is_neg (cmp x d) ≡ true
      → Above cmp d r
      → remove cmp x (l ++ (d ∷ r)) ≡ remove cmp x l ++ (d ∷ r)
  unfolding remove
  remove-before x d [] r h a = ground (arith, remove-Above x r (Above-trans x d r h a))
  remove-before x d (y ∷ l) r h a = ground (arith, remove-before x d l r h a)

  pub remove-behind :
      (x d : A) (l r : List A)
      → is_pos (cmp x d) ≡ true
      → Below cmp d l
      → remove cmp x (l ++ (d ∷ r)) ≡ l ++ (d ∷ remove cmp x r)
  unfolding remove
  remove-behind x d [] r h b = ground arith
  remove-behind x d (y ∷ l) r h (hy, b) =
      ground (arith, remove-behind x d l r h b, flip x d, flip x y, trans y d x)

  pub remove_at :
      (x d : A) (l r : List A)
      → is_neg (cmp x d) ≡ false
      → is_pos (cmp x d) ≡ false
      → Below cmp d l
      → remove cmp x (l ++ (d ∷ r)) ≡ l ++ r
  unfolding remove
  remove_at x d [] r n p b = ground arith
  remove_at x d (y ∷ l) r n p (hy, b) =
      ground (arith, remove_at x d l r n p b, flip x y, equal_right x d y)
