-- ===== src/Avl/Elements.antt =====
-- avl_tree.c's search tree order, and its operations as operations on sorted lists.
use rc_project.Base.{
  ℕ, append-nil, Bool-cases, inl, inr, ◌≡◌, refl, sym, ◌∙◌, arith, Bool, true, false, Option, none,
  some, List, [], ◌∷◌, ◌++◌, not, ◌&&◌, if◌then◌else◌, ℤ, is_neg, is_pos, All, All-append,
}
use rc_project.Avl.{Tree, null, node, is_null, elements, private_avl_get, new_avl_node}
use rc_project.Avl.Flat.{insert, delete, move_up}
use rc_project.Avl.Order.{
  IsComparator, Below, Above, IsSorted, find, insert_sorted, remove, All-insert_sorted, All-remove,
  insert_sorted-before, insert_sorted-behind, insert_sorted_present, find-before, find-behind,
  find_at, remove-before, remove-behind, remove_at, Above-trans,
}

module _ {ℓ} {A : Type ℓ} where
  -- the data of a node, as `avl_get` returns it
  abbrev pub data_of : Tree A → Option A
  data_of null = none
  data_of (node h d l r) = some d

  abbrev pub has_both : Tree A → Bool
  has_both null = false
  has_both (node h d l r) = not (is_null l) && not (is_null r)

  elements-move_up :
      (h : ℕ) (d : A) (l r : Tree A)
      → elements (move_up d l r) ≡ (
          if has_both (node h d l r)
          then elements l ++ (d ∷ elements r)
          else elements l ++ elements r)
  unfolding move_up elements
  elements-move_up h d null null = refl
  elements-move_up h d null (node h' e l r) = refl
  elements-move_up h d (node h' e l r) null = sym (append-nil (elements l ++ (e ∷ elements r)))
  elements-move_up h d (node h' e l r) (node h'' e' l' r') = refl

module _ {ℓ} {A : Type ℓ} (cmp : A → A → ℤ) where
  abbrev pub IsOrdered : Tree A → Type 0
  IsOrdered null = Unit
  IsOrdered (node h d l r) =
      Below cmp d (elements l) × Above cmp d (elements r) × IsOrdered l × IsOrdered r

module _ {ℓ} {A : Type ℓ} (cmp : A → A → ℤ) (c : IsComparator cmp) where
  pub IsSorted-append :
      (d : A) (l r : List A)
      → Below cmp d l
      → Above cmp d r
      → IsSorted cmp l
      → IsSorted cmp r
      → IsSorted cmp (l ++ (d ∷ r))
  IsSorted-append d [] r b a sl sr = (a, sr)
  IsSorted-append d (x ∷ l) r (bx, b) a (al, sl) sr = (
    All-append _ l (d ∷ r) al (bx, Above-trans cmp c x d r bx a),
    IsSorted-append d l r b a sl sr,
  )

  -- The traversal of an ordered tree meets the keys in increasing order, each once.
  pub elements-IsSorted : (t : Tree A) → IsOrdered cmp t → IsSorted cmp (elements t)
  unfolding elements
  elements-IsSorted null o = tt
  elements-IsSorted (node h d l r) (b, a, ol, or) =
      IsSorted-append d (elements l) (elements r) b a (elements-IsSorted l ol)
        (elements-IsSorted r or)

  -- `avl_get` on an ordered tree finds what a search through the whole traversal finds.
  pub get-find :
      (x : A) (t : Tree A)
      → IsOrdered cmp t
      → data_of (private_avl_get cmp x t) ≡ find cmp x (elements t)
  unfolding private_avl_get elements
  get-find x null o = unfold find in refl
  get-find x (node h d l r) (b, a, ol, or) = ground (
    arith,
    get-find x l ol,
    get-find x r or,
    λ (n : is_neg (cmp x d) ≡ true). find-before cmp c x d (elements l) (elements r) n a,
    λ (n : is_pos (cmp x d) ≡ true). find-behind cmp c x d (elements l) (elements r) n b,
    λ (n : is_neg (cmp x d) ≡ false) (m : is_pos (cmp x d) ≡ false).
        find_at cmp c x d (elements l) (elements r) n m b,
  )

  pub elements-insert :
      (x : A) (t : Tree A)
      → IsOrdered cmp t
      → elements (insert cmp x t) ≡ insert_sorted cmp x (elements t)
  unfolding insert elements
  elements-insert x null o = unfold new_avl_node insert_sorted in refl
  elements-insert x (node h d l r) (b, a, ol, or) = ground (
    arith,
    elements-insert x l ol,
    elements-insert x r or,
    λ (n : is_neg (cmp x d) ≡ true). insert_sorted-before cmp x d (elements l) (elements r) n,
    λ (n : is_pos (cmp x d) ≡ true). insert_sorted-behind cmp c x d (elements l) (elements r) n b,
    λ (n : is_neg (cmp x d) ≡ false) (m : is_pos (cmp x d) ≡ false).
        insert_sorted_present cmp c x d (elements l) (elements r) n m b,
  )

  pub insert-IsOrdered : (x : A) (t : Tree A) → IsOrdered cmp t → IsOrdered cmp (insert cmp x t)
  unfolding insert
  insert-IsOrdered x null o = unfold new_avl_node elements in (tt, tt, tt, tt)
  insert-IsOrdered x (node h d l r) (b, a, ol, or) = elim (Bool-cases (is_neg (cmp x d))) [
    | inl n ↦ rw n (
      rw (elements-insert x l ol)
          (All-insert_sorted cmp (λ y. is_neg (cmp y d) ≡ true) x (elements l) n b),
      a,
      insert-IsOrdered x l ol,
      or,
    )
    | inr n ↦ elim (Bool-cases (is_pos (cmp x d))) [
      | inl p ↦
          rw (n, p)
            (
              b,
              rw (elements-insert x r or) (
                  All-insert_sorted cmp (λ y. is_neg (cmp d y) ≡ true) x (elements r)
                    (sym (c.flip x d) ∙ p) a),
              ol,
              insert-IsOrdered x r or,
            )
      | inr p ↦ rw (n, p) (b, a, ol, or)
    ]
  ]

  -- After `private_avl_remove` the traversal of an ordered tree lacks the element with the given
  -- key, unless the node with that key has two children: then it is what it was.
  pub elements-delete :
      (x : A) (t : Tree A)
      → IsOrdered cmp t
      → elements (delete cmp x t)
        ≡ (if has_both (private_avl_get cmp x t) then elements t else remove cmp x (elements t))
  unfolding delete elements private_avl_get
  elements-delete x null o = unfold remove in refl
  elements-delete x (node h d l r) (b, a, ol, or) = ground (
    arith,
    elements-delete x l ol,
    elements-delete x r or,
    elements-move_up h d l r,
    λ (n : is_neg (cmp x d) ≡ true). remove-before cmp c x d (elements l) (elements r) n a,
    λ (n : is_pos (cmp x d) ≡ true). remove-behind cmp c x d (elements l) (elements r) n b,
    λ (n : is_neg (cmp x d) ≡ false) (m : is_pos (cmp x d) ≡ false).
        remove_at cmp c x d (elements l) (elements r) n m b,
  )

  All-delete {κ} :
      (P : A → Type κ) (x : A) (t : Tree A)
      → IsOrdered cmp t
      → All P (elements t)
      → All P (elements (delete cmp x t))
  All-delete P x t o h =
      rw (elements-delete x t o) (elim (Bool-cases (has_both (private_avl_get cmp x t))) [
        | inl both ↦ rw both h
        | inr less ↦ rw less (All-remove cmp P x (elements t) h)
      ])

  move_up-IsOrdered :
      (d : A) (l r : Tree A) → IsOrdered cmp (node 0 d l r) → IsOrdered cmp (move_up d l r)
  unfolding move_up
  move_up-IsOrdered d null null o = tt
  move_up-IsOrdered d null (node h e l r) (b, a, ol, or) = or
  move_up-IsOrdered d (node h e l r) null (b, a, ol, or) = ol
  move_up-IsOrdered d (node h e l r) (node h' e' l' r') o = o

  pub delete-IsOrdered : (x : A) (t : Tree A) → IsOrdered cmp t → IsOrdered cmp (delete cmp x t)
  unfolding delete
  delete-IsOrdered x null o = tt
  delete-IsOrdered x (node h d l r) (b, a, ol, or) = elim (Bool-cases (is_neg (cmp x d))) [
    | inl n ↦
        rw n (All-delete (λ y. is_neg (cmp y d) ≡ true) x l ol b, a, delete-IsOrdered x l ol, or)
    | inr n ↦ elim (Bool-cases (is_pos (cmp x d))) [
      | inl p ↦
          rw (n, p)
            (b, All-delete (λ y. is_neg (cmp d y) ≡ true) x r or a, ol, delete-IsOrdered x r or)
      | inr p ↦ rw (n, p) (move_up-IsOrdered d l r (b, a, ol, or))
    ]
  ]
