-- ===== src/Avl.antt =====
-- code/server/src/data_structures/avl_tree.c: the tree behind the user, session and group lists.
-- This file has the static functions, over nodes whose data is of any type, and a comparison of
-- two data that stands for `tree->data_cmp`. A node that is linked once is a value: an assignment
-- to a link returns the new tree. An `int` result of the comparison is read by its sign only.
pub mod Elements
pub mod Flat
pub mod Handle
pub mod Order
pub mod First
pub mod Perm
pub mod Sorting
use rc_project.Base.{
  ℕ, ◌+◌, Bool, true, false, ◌||◌, List, [], ◌∷◌, ◌++◌, ltb, ◌==◌, if◌then◌else◌, ℤ, pos, negsuc,
  sub_ℕ, lt_int, is_neg, is_pos, Run, ok, fault, segfault, cyclic, ◌>>=◌,
}

-- `struct avl_node`, with `NULL` for no node
pub data Tree {ℓ} (A : Type ℓ) : Type ℓ where
  null : Tree A
  node : (height : ℕ) → A → Tree A → Tree A → Tree A

-- `1 + (a > b) ? a : b`, which C reads as `(1 + (a > b)) ? a : b`
unfoldable pub height_expr : ℕ → ℕ → ℕ
height_expr a b = if (1 + (if ltb b a then 1 else 0)) == 0 then b else a

module _ {ℓ} {A : Type ℓ} where
  abbrev pub is_null : Tree A → Bool
  is_null null = true
  is_null (node h d l r) = false

  -- the node that `new_avl_node` fills
  unfoldable pub new_avl_node : A → Tree A
  new_avl_node x = node 1 x null null

  unfoldable pub get_height : Tree A → ℕ
  get_height null = 0
  get_height (node h d l r) = h

  unfoldable pub get_balance : Tree A → ℤ
  unfolding get_height
  get_balance null = pos 0
  get_balance (node h d l r) = sub_ℕ (get_height l) (get_height r)

  abbrev pub new_height : Tree A → Tree A → ℕ
  new_height l r = height_expr (get_height l) (get_height r)

  unfoldable pub right_rotation : Tree A → Run (Tree A)
  unfolding get_height height_expr
  right_rotation null = fault segfault
  right_rotation (node h d null r) = fault segfault
  right_rotation (node h d (node hc dc lc null) r) = fault segfault
  right_rotation (node h d (node hc dc lc (node hs ds ls rs)) r) =
      let save = node hs ds ls rs in
      ok (node (new_height ls rs) dc lc (node (new_height save r) d save r))

  unfoldable pub left_rotation : Tree A → Run (Tree A)
  unfolding get_height height_expr
  left_rotation null = fault segfault
  left_rotation (node h d l null) = fault segfault
  left_rotation (node h d l (node hc dc null rc)) = fault segfault
  left_rotation (node h d l (node hc dc (node hs ds ls rs) rc)) =
      let save = node hs ds ls rs in
      ok (node (new_height ls rs) dc (node (new_height l save) d l save) rc)

  -- `current->height = …`
  unfoldable pub update_height : Tree A → Tree A
  unfolding get_height height_expr
  update_height null = null
  update_height (node h d l r) = node (new_height l r) d l r

  -- The pointer that the traversal for output and for the rewrite follows.
  unfoldable pub elements : Tree A → List A
  elements null = []
  elements (node h d l r) = elements l ++ (d ∷ elements r)

-- `private_avl_add`, `private_avl_get`, `private_avl_remove`
module _ {ℓ} {A : Type ℓ} (data_cmp : A → A → ℤ) where
  -- `data_cmp(new_node->data, child->data)`, where `child` is a link of the current node
  abbrev pub cmp_child : A → Tree A → Run ℤ
  cmp_child x null = fault segfault
  cmp_child x (node h d l r) = ok (data_cmp x d)

  -- The two `if (balance …)` of `private_avl_add`, after the height is set. Each inner `if` rotates
  -- the current node itself and stores the result, a node with the current node below it, into a
  -- link of the current node: if the rotation does not fault, the links are a cycle from there on.
  unfoldable pub rebalance_add : A → Tree A → Run (Tree A)
  unfolding get_balance left_rotation right_rotation
  rebalance_add x null = ok null
  rebalance_add x (node h d l r) =
      let current = node h d l r in
      let balance = get_balance current in
      if lt_int (pos 1) balance
      then (do
        res ← cmp_child x l
        if is_pos res
            then (left_rotation current >>= λ _. fault cyclic)
            else right_rotation current)
      else if lt_int balance (negsuc 0)
      then (do
        res ← cmp_child x r
        if is_neg res
            then (right_rotation current >>= λ _. fault cyclic)
            else left_rotation current)
      else ok current

  unfoldable pub private_avl_add : A → Tree A → Run (Tree A)
  unfolding new_avl_node
  private_avl_add x null = ok (new_avl_node x)
  private_avl_add x (node h d l r) =
      let res = data_cmp x d in
      let go_left = (do
        l' ← private_avl_add x l
        rebalance_add x (update_height (node h d l' r))) in
      let go_right = (do
        r' ← private_avl_add x r
        rebalance_add x (update_height (node h d l r'))) in
      if is_neg res then go_left else if is_pos res then go_right else ok (node h d l r)

  unfoldable pub private_avl_get : A → Tree A → Tree A
  private_avl_get x null = null
  private_avl_get x (node h d l r) =
      let go_left = private_avl_get x l in
      let go_right = private_avl_get x r in
      let res = data_cmp x d in
      if is_neg res then go_left else if is_pos res then go_right else node h d l r

module _ {ℓ} {A : Type ℓ} where
  -- The branch on equal keys: a node that lacks a child is overwritten by the other child, or
  -- becomes `NULL`; a node with two children is left alone.
  unfoldable pub unlink : Tree A → Tree A
  unlink null = null
  unlink (node h d l r) =
      if is_null l || is_null r then (if is_null l then r else l) else node h d l r

  -- the tail of `private_avl_remove`, from `if(current == NULL)`
  unfoldable pub rebalance_remove : Tree A → Run (Tree A)
  unfolding get_balance left_rotation right_rotation
  rebalance_remove null = ok null
  rebalance_remove (node h d l r) =
      let balance = get_balance (node h d l r) in
      if lt_int (pos 1) balance
      then (do
        l' ← if is_neg (get_balance l) then left_rotation l else ok l
        right_rotation (node h d l' r))
      else if lt_int balance (negsuc 0)
      then (do
        r' ← if is_pos (get_balance r) then right_rotation r else ok r
        left_rotation (node h d l r'))
      else ok (node h d l r)

  unfoldable pub private_avl_remove : (A → A → ℤ) → A → Tree A → Run (Tree A)
  private_avl_remove data_cmp x null = ok null
  private_avl_remove data_cmp x (node h d l r) =
      let res = data_cmp x d in
      let go_left = (do
        l' ← private_avl_remove data_cmp x l
        rebalance_remove (update_height (node h d l' r))) in
      let go_right = (do
        r' ← private_avl_remove data_cmp x r
        rebalance_remove (update_height (node h d l r'))) in
      if is_neg res
      then go_left
      else if is_pos res
      then go_right
      else rebalance_remove (update_height (unlink (node h d l r)))
