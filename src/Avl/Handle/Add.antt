-- ===== src/Avl/Handle/Add.antt =====
-- `avl_add` of avl_tree.c on a valid tree.
use mathlib.Core.List.{map}
use mathlib.Core.Path.{ap₂}
use rc_project.Base.{
  not, All-zip, ◌≢◌, ◌&&◌, ◌+◌, ◌%◌, ◌^◌, ◌<◌, ◌≡◌, refl, ◌∙◌, ap, arith, Bool, true, false, none,
  [], ◌∷◌, ◌++◌, if◌then◌else◌, ℤ, All, All-imp, map-agree, Returns, ◌==◌,
}
use rc_project.Memory.{IsBlock, Ptr, Heap, malloc, free, update, load-ok}
use rc_project.Avl.{Tree, elements}
use rc_project.Avl.Flat.{insert, private_avl_add-insert}
use rc_project.Avl.Order.{IsComparator, find, insert_sorted, All-insert_sorted}
use rc_project.Avl.Elements.{IsOrdered, elements-insert, insert-IsOrdered}
use rc_project.Avl.Handle.{AvlTree, avl_ok, cmp_at, avl_add}
use rc_project.Avl.Handle.Mapped.{map-insert_sorted, IsOrdered-agree}
use rc_project.Avl.Handle.Refines.{contents, IsValid, cmp_at-IsComparator, absent, search_reads-ok}

module _ {D : Type 0} where
  -- the block to which `new_avl_node` copies the data, and the `free` of the data
  abbrev pub copied : Heap D → Ptr → Bool → Heap D
  copied h x free_data =
      if free_data then free x (malloc (h.cell x) h).1 else (malloc (h.cell x) h).1

  pub copied-cell :
      (h : Heap D) (x : Ptr) (b : Bool) → (copied h x b).cell ≡ update h.cell h.next (h.cell x)
  copied-cell h x true = refl
  copied-cell h x false = refl

  pub copied-live :
      (h : Heap D) (x : Ptr) (b : Bool)
      → (copied h x b).live
        ≡ (λ q. if b && (q == x) then false else (if q == h.next then true else h.live q))
  copied-live h x true = refl
  copied-live h x false = refl

  pub copied-next : (h : Heap D) (x : Ptr) (b : Bool) → (copied h x b).next ≡ h.next + 1
  copied-next h x true = refl
  copied-next h x false = refl

module _ {D : Type 0} (data_cmp : D → D → ℤ) (c : IsComparator data_cmp) (h : Heap D)
    (tree : AvlTree D) (x : Ptr) (free_data write_data : Bool) (v : IsValid data_cmp h tree)
    (lt : x < h.next) (live : h.live x ≡ true) (apart : All (λ p. p ≢ x) (elements tree.root)) where
  abbrev new_heap : Heap D
  new_heap = copied h x free_data

  cells_agree : (p : Ptr) → p < h.next → new_heap.cell p ≡ h.cell p
  cells_agree p lt = rw (copied-cell h x free_data) (ground arith)

  copy_cell : new_heap.cell h.next ≡ h.cell x
  copy_cell = rw (copied-cell h x free_data) (ground arith)

  IsOrdered-copied : IsOrdered (cmp_at data_cmp new_heap) tree.root
  IsOrdered-copied =
      IsOrdered-agree (IsBlock h) (cmp_at data_cmp h) (cmp_at data_cmp new_heap)
        (λ a b la lb. cc (cells_agree a la.0, cells_agree b lb.0)) tree.root v.allocated v.ordered

  abbrev new_root : Tree Ptr
  new_root = insert (cmp_at data_cmp new_heap) h.next tree.root

  elements_new :
      elements new_root ≡ insert_sorted (cmp_at data_cmp new_heap) h.next (elements tree.root)
  elements_new =
      elements-insert (cmp_at data_cmp new_heap) (cmp_at-IsComparator data_cmp c new_heap tree)
        h.next tree.root IsOrdered-copied

  abbrev new_tree : AvlTree D
  new_tree = record {
    size = (tree.size + 1) % 2 ^ 64;
    root = new_root;
    file = if write_data then tree.file ++ (h.cell x ∷ []) else tree.file;
  }

  contents_new : contents new_heap new_tree ≡ insert_sorted data_cmp (h.cell x) (contents h tree)
  contents_new =
      ap (map new_heap.cell) elements_new
      ∙ map-insert_sorted new_heap.cell data_cmp h.next (elements tree.root)
      ∙ ap₂ (insert_sorted data_cmp) copy_cell (
          map-agree (IsBlock h) new_heap.cell h.cell (λ p b. cells_agree p b.0) (elements tree.root)
            v.allocated)

  lives_agree : (p : Ptr) → p < h.next → p ≢ x → new_heap.live p ≡ h.live p
  lives_agree p below ne = rw (copied-live h x free_data) (ground arith)

  copy-IsBlock : IsBlock new_heap h.next
  copy-IsBlock =
      rw (copied-live h x free_data, copied-next h x free_data) (omega arith, ground arith)

  kept-IsBlock : (p : Ptr) → IsBlock h p → p ≢ x → IsBlock new_heap p
  kept-IsBlock p (below, l) ne =
      (rw (copied-next h x free_data) (omega arith), lives_agree p below ne ∙ l)

  apart_new : All (λ p. p ≢ x) (elements new_root)
  apart_new = rw elements_new (
      All-insert_sorted (cmp_at data_cmp new_heap) (λ p. p ≢ x) h.next (elements tree.root)
        (omega arith) apart)

  IsValid_new : IsValid data_cmp new_heap new_tree
  IsValid_new = record {
    flat = (private_avl_add-insert (cmp_at data_cmp new_heap) h.next tree.root v.flat).1;
    ordered =
        insert-IsOrdered (cmp_at data_cmp new_heap) (cmp_at-IsComparator data_cmp c new_heap tree)
          h.next tree.root IsOrdered-copied;
    allocated = rw elements_new (
        All-insert_sorted (cmp_at data_cmp new_heap) (IsBlock new_heap) h.next (elements tree.root)
          copy-IsBlock
          (All-imp (λ p b. kept-IsBlock p b.0 b.1) (elements tree.root)
            (All-zip _ _ (elements tree.root) v.allocated apart)));
  }

  given_live : new_heap.live x ≡ not free_data
  given_live = rw (copied-live h x free_data) (ground (arith, live))

  kept_allocated : All (IsBlock new_heap) (elements tree.root)
  kept_allocated =
      All-imp (λ p b. kept-IsBlock p b.0 b.1) (elements tree.root)
        (All-zip _ _ (elements tree.root) v.allocated apart)

  -- On a valid tree under a lawful comparison, with a given block in use, below the next that
  -- `malloc` returns and not in the tree: if no record has the key of the given one, `avl_add` does not
  -- fault and returns AVL_OK. The new tree is valid and holds the old records with a copy of the
  -- given one in its place. The copy is also appended to the file, if `write_data` says so. No
  -- block that was allocated before has new contents, and none but the given one is freed, which
  -- is if `free_data` says so. One block is allocated, and the new tree has no pointer to the given
  -- block.
  pub avl_add_new :
      find data_cmp (h.cell x) (contents h tree) ≡ none
      → Returns
          (λ (code, h', tree').
            (code ≡ avl_ok)
            × IsValid data_cmp h' tree'
            × (contents h' tree' ≡ insert_sorted data_cmp (h.cell x) (contents h tree))
            × (tree'.file ≡ (if write_data then tree.file ++ (h.cell x ∷ []) else tree.file))
            × ((p : Ptr) → p < h.next → h'.cell p ≡ h.cell p)
            × ((p : Ptr) → p < h.next → p ≢ x → h'.live p ≡ h.live p)
            × (h'.next ≡ h.next + 1)
            × All (λ p. p ≢ x) (elements tree'.root)
            × (h'.live x ≡ not free_data))
          (avl_add data_cmp h tree x free_data write_data)
  unfolding avl_add
  avl_add_new e =
      rw
        (
          search_reads-ok data_cmp h x tree.root live v.allocated,
          absent data_cmp c h tree x v e,
          load-ok x h live,
          search_reads-ok data_cmp new_heap h.next tree.root copy-IsBlock.1 kept_allocated,
          (private_avl_add-insert (cmp_at data_cmp new_heap) h.next tree.root v.flat).0,
        )
        (
          refl,
          IsValid_new,
          contents_new,
          refl,
          cells_agree,
          lives_agree,
          copied-next h x free_data,
          apart_new,
          given_live,
        )
