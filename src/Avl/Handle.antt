-- ===== src/Avl/Handle.antt =====
-- avl_tree.c: `struct avl_tree` and the functions that avl_tree.h exports. The data of a node is a
-- block of the heap, to which `new_avl_node` copies the data it is given; the blocks of the nodes
-- are no objects of that heap. `tree->fd` is the file that it names, as the list of its records: a
-- write appends one, since main.c opens the file with `O_APPEND`. Writes succeed, as the code
-- takes for granted.
pub mod Add
pub mod Mapped
pub mod Remove
pub mod Refines
use rc_project.Base.{
  ℕ, zero, suc, ◌+◌, ◌%◌, ◌^◌, Bool, true, false, List, [], ◌∷◌, ◌++◌, if◌then◌else◌, ℤ, pos,
  negsuc, Run, ok, ◌>>=◌, Option, none, some, is_neg, is_pos, not,
}
use rc_project.Memory.{Ptr, Heap, malloc, free, load}
use rc_project.Avl.{Tree, null, node, is_null, private_avl_get, private_avl_add, private_avl_remove}
use rc_project.Avl.Elements.{data_of}

abbrev pub avl_ok : ℤ
avl_ok = pos 0

abbrev pub avl_duplicated_key : ℤ
avl_duplicated_key = negsuc 0

abbrev pub avl_key_not_found : ℤ
avl_key_not_found = negsuc 1

pub record AvlTree (D : Type 0) : Type 0 where
  pub size : ℕ
  pub root : Tree Ptr
  pub file : List D

module _ {D : Type 0} where
  -- the file is what `fd` names
  unfoldable pub new_avl_tree : List D → AvlTree D
  new_avl_tree fd = record { size = 0; root = null; file = fd }

  -- writes the records of a tree behind those of the file
  unfoldable pub private_avl_rewrite : Heap D → Tree Ptr → List D → Run (List D)
  private_avl_rewrite h null file = ok file
  private_avl_rewrite h (node k d l r) file = do
    written ← private_avl_rewrite h l file
    x ← load d h
    private_avl_rewrite h r (written ++ (x ∷ []))

  -- what `send_to_client` sends for each node, in the order of the calls
  unfoldable pub private_avl_print_client {ℓ} :
      {M : Type ℓ} → Heap D → (D → M) → Tree Ptr → Run (List M)
  private_avl_print_client h send_to_client null = ok []
  private_avl_print_client h send_to_client (node k d l r) = do
    before ← private_avl_print_client h send_to_client l
    x ← load d h
    behind ← private_avl_print_client h send_to_client r
    ok (before ++ (send_to_client x ∷ behind))

  unfoldable pub avl_print_client {ℓ} : {M : Type ℓ} → Heap D → (D → M) → AvlTree D → Run (List M)
  avl_print_client h send_to_client tree = private_avl_print_client h send_to_client tree.root

  -- what `tree->print_data` makes of each node, in the order of the calls
  unfoldable pub private_avl_print {ℓ} : {M : Type ℓ} → Heap D → (D → M) → Tree Ptr → Run (List M)
  private_avl_print h print_data null = ok []
  private_avl_print h print_data (node k d l r) = do
    before ← private_avl_print h print_data l
    x ← load d h
    behind ← private_avl_print h print_data r
    ok (before ++ (print_data x ∷ behind))

  unfoldable pub avl_print {ℓ} : {M : Type ℓ} → Heap D → (D → M) → AvlTree D → Run (List M)
  avl_print h print_data tree = private_avl_print h print_data tree.root

module _ {D : Type 0} (data_cmp : D → D → ℤ) where
  -- `tree->data_cmp` at two pointers to blocks in use
  abbrev pub cmp_at : Heap D → Ptr → Ptr → ℤ
  cmp_at h a b = data_cmp (h.cell a) (h.cell b)

  -- The reads of the comparisons on the way of `x` down a tree, which `private_avl_get`,
  -- `private_avl_add` and `private_avl_remove` all go: each of the given data and of a node's. Those
  -- of the rebalancing in `private_avl_add` are not among them.
  unfoldable pub search_reads : Heap D → Ptr → Tree Ptr → Run (Unit {0})
  search_reads h x null = ok tt
  search_reads h x (node k d l r) =
      let go_left = search_reads h x l in
      let go_right = search_reads h x r in
      do
        a ← load x h
        b ← load d h
        if is_neg (data_cmp a b) then go_left else if is_pos (data_cmp a b) then go_right else ok tt

  -- the three functions on pointers: a comparison that reads a block that is not in use faults
  abbrev pub get_at : Heap D → Ptr → Tree Ptr → Run (Tree Ptr)
  get_at h x t = do _ ← search_reads h x t; ok (private_avl_get (cmp_at h) x t)

  abbrev pub add_at : Heap D → Ptr → Tree Ptr → Run (Tree Ptr)
  add_at h x t = do _ ← search_reads h x t; private_avl_add (cmp_at h) x t

  abbrev pub remove_at : Heap D → Ptr → Tree Ptr → Run (Tree Ptr)
  remove_at h x t = do _ ← search_reads h x t; private_avl_remove (cmp_at h) x t

  -- the pointer that is returned, with `none` for `NULL`
  unfoldable pub avl_get : Heap D → AvlTree D → Ptr → Run (Option Ptr)
  unfolding search_reads
  avl_get h tree data' = do found ← get_at h data' tree.root; ok (data_of found)

  unfoldable pub avl_add :
      Heap D → AvlTree D → Ptr → (free_data write_data : Bool) → Run (ℤ × Heap D × AvlTree D)
  unfolding search_reads
  avl_add h tree data' free_data write_data = do
    found ← get_at h data' tree.root
    if not (is_null found) then ok (avl_duplicated_key, h, tree) else (do
      d ← load data' h
      let file = if write_data then tree.file ++ (d ∷ []) else tree.file
      let (copy, h1) = malloc d h
      let h2 = if free_data then free data' h1 else h1
      root ← add_at h2 copy tree.root
      ok (avl_ok, h2, record { size = (tree.size + 1) % 2 ^ 64; root = root; file = file }))

  unfoldable pub avl_remove :
      Heap D → AvlTree D → Ptr → (free_data write_data : Bool) → Run (ℤ × Heap D × AvlTree D)
  unfolding search_reads private_avl_rewrite
  avl_remove h tree data' free_data write_data = do
    found ← get_at h data' tree.root
    if is_null found then ok (avl_key_not_found, h, tree) else (do
      root ← remove_at h data' tree.root
      let h1 = if free_data then free data' h else h
      file ← if write_data then private_avl_rewrite h1 root [] else ok tree.file
      ok (avl_ok, h1, record tree { root = root; file = file }))
