-- ===== src/Avl/Flat.antt =====
-- avl_tree.c: the height that the nodes get, and what the rebalancing makes of it.
use rc_project.Base.{
  ℕ, ◌≤◌, ◌≡◌, refl, arith, false, if◌then◌else◌, ℤ, pos, negsuc, lt_int, is_neg, is_pos, ok,
}
use rc_project.Avl.{
  Tree, null, node, get_height, get_balance, height_expr, new_height, new_avl_node, update_height,
  rebalance_add, private_avl_add, unlink, rebalance_remove, private_avl_remove,
}

-- The height expression is its first operand, the height of the left child, whatever the second is.
pub height_expr_lem : (a b : ℕ) → height_expr a b ≡ a
unfolding height_expr
height_expr_lem a b = ground arith

module _ {ℓ} {A : Type ℓ} where
  -- every stored height is 0 or 1
  abbrev pub IsFlat : Tree A → Type 0
  IsFlat null = Unit
  IsFlat (node h d l r) = (h ≤ 1) × IsFlat l × IsFlat r

  get_height-le : (t : Tree A) → IsFlat t → get_height t ≤ 1
  unfolding get_height
  get_height-le null f = omega arith
  get_height-le (node h d l r) f = f.0

  pub new_height_lem : (l r : Tree A) → new_height l r ≡ get_height l
  new_height_lem l r = height_expr_lem (get_height l) (get_height r)

  update_height-IsFlat :
      (h : ℕ) (d : A) (l r : Tree A) → IsFlat l → IsFlat r → IsFlat (update_height (node h d l r))
  unfolding update_height
  update_height-IsFlat h d l r fl fr = (rw new_height_lem (get_height-le l fl), fl, fr)

  balance_small :
      (h : ℕ) (d : A) (l r : Tree A)
      → IsFlat l
      → IsFlat r
      → (lt_int (pos 1) (get_balance (node h d l r)) ≡ false)
        × (lt_int (get_balance (node h d l r)) (negsuc 0) ≡ false)
  unfolding get_balance
  balance_small h d l r fl fr = ground (arith, get_height-le l fl, get_height-le r fr)

  rebalance_add-eq-ok :
      (cmp : A → A → ℤ) (x : A) (t : Tree A) → IsFlat t → rebalance_add cmp x t ≡ ok t
  unfolding rebalance_add
  rebalance_add-eq-ok cmp x null f = refl
  rebalance_add-eq-ok cmp x (node h d l r) (fh, fl, fr) =
      let (a, b) = balance_small h d l r fl fr in rw (a, b)

  rebalance_remove-eq-ok : (t : Tree A) → IsFlat t → rebalance_remove t ≡ ok t
  unfolding rebalance_remove
  rebalance_remove-eq-ok null f = refl
  rebalance_remove-eq-ok (node h d l r) (fh, fl, fr) =
      let (a, b) = balance_small h d l r fl fr in rw (a, b)

  -- what the code does on the way up, when both children are flat
  add_finish :
      (cmp : A → A → ℤ) (x : A) (h : ℕ) (d : A) (l r : Tree A)
      → IsFlat l
      → IsFlat r
      → rebalance_add cmp x (update_height (node h d l r)) ≡ ok (node (get_height l) d l r)
  unfolding update_height
  add_finish cmp x h d l r fl fr =
      rw new_height_lem (rebalance_add-eq-ok cmp x _ (get_height-le l fl, fl, fr))

  remove_finish :
      (h : ℕ) (d : A) (l r : Tree A)
      → IsFlat l
      → IsFlat r
      → rebalance_remove (update_height (node h d l r)) ≡ ok (node (get_height l) d l r)
  unfolding update_height
  remove_finish h d l r fl fr =
      rw new_height_lem (rebalance_remove-eq-ok _ (get_height-le l fl, fl, fr))

-- Plain insertion and removal in a binary search tree, with no rotation: the reference for the
-- code. The height of a node that the walk passes becomes that of its left child.
module _ {ℓ} {A : Type ℓ} where
  abbrev pub relink : A → Tree A → Tree A → Tree A
  relink d l r = node (get_height l) d l r

  -- at a node with fewer than two children, the one child is moved up
  unfoldable pub move_up : A → Tree A → Tree A → Tree A
  move_up d null null = null
  move_up d null (node h e l r) = relink e l r
  move_up d (node h e l r) null = relink e l r
  move_up d (node h e l r) (node h' e' l' r') = relink d (node h e l r) (node h' e' l' r')

  relink-IsFlat : (d : A) (l r : Tree A) → IsFlat l → IsFlat r → IsFlat (relink d l r)
  relink-IsFlat d l r fl fr = (get_height-le l fl, fl, fr)

  move_up-IsFlat : (d : A) (l r : Tree A) → IsFlat l → IsFlat r → IsFlat (move_up d l r)
  unfolding move_up
  move_up-IsFlat d null null fl fr = tt
  move_up-IsFlat d null (node h e l r) fl fr = relink-IsFlat e l r fr.1 fr.2
  move_up-IsFlat d (node h e l r) null fl fr = relink-IsFlat e l r fl.1 fl.2
  move_up-IsFlat d (node h e l r) (node h' e' l' r') fl fr =
      relink-IsFlat d (node h e l r) (node h' e' l' r') fl fr

  move_up_lem :
      (h : ℕ) (d : A) (l r : Tree A)
      → IsFlat l
      → IsFlat r
      → rebalance_remove (update_height (unlink (node h d l r))) ≡ ok (move_up d l r)
  unfolding move_up unlink
  move_up_lem h d null null fl fr = unfold update_height rebalance_remove in refl
  move_up_lem h d null (node h' e l r) fl fr = remove_finish h' e l r fr.1 fr.2
  move_up_lem h d (node h' e l r) null fl fr = remove_finish h' e l r fl.1 fl.2
  move_up_lem h d (node h' e l r) (node h'' e' l' r') fl fr =
      remove_finish h d (node h' e l r) (node h'' e' l' r') fl fr

module _ {ℓ} {A : Type ℓ} (cmp : A → A → ℤ) where
  unfoldable pub insert : A → Tree A → Tree A
  insert x null = new_avl_node x
  insert x (node h d l r) =
      let go_left = relink d (insert x l) r in
      let go_right = relink d l (insert x r) in
      if is_neg (cmp x d) then go_left else if is_pos (cmp x d) then go_right else node h d l r

  unfoldable pub delete : A → Tree A → Tree A
  delete x null = null
  delete x (node h d l r) =
      let go_left = relink d (delete x l) r in
      let go_right = relink d l (delete x r) in
      if is_neg (cmp x d) then go_left else if is_pos (cmp x d) then go_right else move_up d l r

  pub insert-IsFlat : (x : A) (t : Tree A) → IsFlat t → IsFlat (insert x t)
  unfolding insert new_avl_node
  insert-IsFlat x null f = (omega arith, tt, tt)
  insert-IsFlat x (node h d l r) (fh, fl, fr) = ground (
    arith,
    insert-IsFlat x l fl,
    insert-IsFlat x r fr,
    get_height-le (insert x l),
    get_height-le l fl,
  )

  pub delete-IsFlat : (x : A) (t : Tree A) → IsFlat t → IsFlat (delete x t)
  unfolding delete
  delete-IsFlat x null f = tt
  delete-IsFlat x (node h d l r) (fh, fl, fr) = ground (
    arith,
    delete-IsFlat x l fl,
    delete-IsFlat x r fr,
    get_height-le (delete x l),
    get_height-le l fl,
    move_up-IsFlat d l r fl fr,
  )

  -- In a tree whose stored heights are all 0 or 1, the code inserts as a search tree without
  -- rotations does: no fault, and no rotation changes the links. The result is such a tree again.
  pub private_avl_add-insert :
      (x : A) (t : Tree A)
      → IsFlat t
      → (private_avl_add cmp x t ≡ ok (insert x t)) × IsFlat (insert x t)
  unfolding private_avl_add insert
  private_avl_add-insert x null f = (refl, unfold new_avl_node in (omega arith, tt, tt))
  private_avl_add-insert x (node h d l r) (fh, fl, fr) = (
    rw
        (
          (private_avl_add-insert x l fl).0,
          (private_avl_add-insert x r fr).0,
          add_finish cmp x h d (insert x l) r (insert-IsFlat x l fl) fr,
          add_finish cmp x h d l (insert x r) fl (insert-IsFlat x r fr),
        )
        (ground arith),
    insert-IsFlat x (node h d l r) (fh, fl, fr),
  )

  -- In such a tree the code removes as a search tree without rotations does, but for a node with
  -- two children, which stays: no fault, and the result is such a tree again.
  pub private_avl_remove-delete :
      (x : A) (t : Tree A)
      → IsFlat t
      → (private_avl_remove cmp x t ≡ ok (delete x t)) × IsFlat (delete x t)
  unfolding private_avl_remove delete
  private_avl_remove-delete x null f = (refl, tt)
  private_avl_remove-delete x (node h d l r) (fh, fl, fr) = (
    rw
        (
          (private_avl_remove-delete x l fl).0,
          (private_avl_remove-delete x r fr).0,
          remove_finish h d (delete x l) r (delete-IsFlat x l fl) fr,
          remove_finish h d l (delete x r) fl (delete-IsFlat x r fr),
          move_up_lem h d l r fl fr,
        )
        (ground arith),
    delete-IsFlat x (node h d l r) (fh, fl, fr),
  )
