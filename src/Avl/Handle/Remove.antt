-- ===== src/Avl/Handle/Remove.antt =====
-- `avl_remove` of avl_tree.c on a valid tree.
use mathlib.Core.List.{map}
use rc_project.Base.{
  ok, true, All-zip, ◌≢◌, ◌≡◌, refl, ◌∙◌, arith, Bool, some, List, [], if◌then◌else◌, ℤ, All,
  All-imp, Returns, Bool-cases, inl, inr,
}
use rc_project.Memory.{IsBlock, Ptr, Heap, free}
use rc_project.Avl.{Tree, elements, private_avl_get}
use rc_project.Avl.Flat.{delete, private_avl_remove-delete}
use rc_project.Avl.Order.{IsComparator, find, remove, All-remove}
use rc_project.Avl.Elements.{has_both, elements-delete, delete-IsOrdered}
use rc_project.Avl.Handle.{AvlTree, avl_ok, cmp_at, avl_remove, private_avl_rewrite}
use rc_project.Avl.Handle.Mapped.{map-remove}
use rc_project.Avl.Handle.Refines.{
  contents, IsValid, cmp_at-IsComparator, present, private_avl_rewrite-elements, search_reads-ok,
}

module _ {D : Type 0} (data_cmp : D → D → ℤ) (c : IsComparator data_cmp) (h : Heap D)
    (tree : AvlTree D) (x : Ptr) (free_data write_data : Bool) (v : IsValid data_cmp h tree)
    (live : h.live x ≡ true) (apart : All (λ p. p ≢ x) (elements tree.root)) where
  -- whether the node with the key of `x` has two children
  abbrev pub found_inner : Bool
  found_inner = has_both (private_avl_get (cmp_at data_cmp h) x tree.root)

  abbrev new_root : Tree Ptr
  new_root = delete (cmp_at data_cmp h) x tree.root

  freed-cell : (if free_data then free x h else h).cell ≡ h.cell
  freed-cell = elim (Bool-cases free_data) [ inl e ↦ rw e | inr e ↦ rw e ]

  freed-next : (if free_data then free x h else h).next ≡ h.next
  freed-next = elim (Bool-cases free_data) [ inl e ↦ rw e | inr e ↦ rw e ]

  contents_new :
      map h.cell (elements new_root)
      ≡ (if found_inner then contents h tree else remove data_cmp (h.cell x) (contents h tree))
  contents_new =
      rw
        (elements-delete (cmp_at data_cmp h) (cmp_at-IsComparator data_cmp c h tree) x tree.root
          v.ordered)
        (elim (Bool-cases found_inner) [
          | inl e ↦ rw e
          | inr e ↦ rw e (map-remove h.cell data_cmp x (elements tree.root))
        ])

  kept : All (λ p. IsBlock h p × (p ≢ x)) (elements tree.root)
  kept = All-zip _ _ (elements tree.root) v.allocated apart

  freed-live : (p : Ptr) → p ≢ x → (if free_data then free x h else h).live p ≡ h.live p
  freed-live p ne = elim (Bool-cases free_data) [ inl e ↦ rw e (ground arith) | inr e ↦ rw e ]

  allocated_new : All (λ p. IsBlock h p × (p ≢ x)) (elements new_root)
  allocated_new =
      rw
        (elements-delete (cmp_at data_cmp h) (cmp_at-IsComparator data_cmp c h tree) x tree.root
          v.ordered)
        (elim (Bool-cases found_inner) [
          | inl e ↦ rw e kept
          | inr e ↦ rw e (
              All-remove (cmp_at data_cmp h) (λ p. IsBlock h p × (p ≢ x)) x (elements tree.root)
                kept)
        ])

  abbrev file_after : Heap D → List D
  file_after h' = if write_data then map h'.cell (elements new_root) else tree.file

  module _ (h' : Heap D) (same : h'.cell ≡ h.cell) (next : h'.next ≡ h.next)
      (lives : (p : Ptr) → p ≢ x → h'.live p ≡ h.live p) where
    IsValid_new : IsValid data_cmp h' (record tree { root = new_root; file = file_after h' })
    IsValid_new = record {
      flat = (private_avl_remove-delete (cmp_at data_cmp h) x tree.root v.flat).1;
      ordered = rw same (
          delete-IsOrdered (cmp_at data_cmp h) (cmp_at-IsComparator data_cmp c h tree) x tree.root
            v.ordered);
      allocated =
          All-imp (λ p (b, ne). (rw next b.0, lives p ne ∙ b.1)) (elements new_root) allocated_new;
    }

    file_written :
        (if write_data then private_avl_rewrite h' new_root [] else ok tree.file)
        ≡ ok (file_after h')
    file_written =
        rw (private_avl_rewrite-elements h' new_root [] IsValid_new.allocated) (ground arith)

  -- On a valid tree under a lawful comparison, with a given block in use that is not in the tree: if
  -- a record has the key of the given one, `avl_remove` does not fault and returns AVL_OK. The new
  -- tree is valid. It holds the old records without that one, but if the node of that record has
  -- two children, all of them. The file, if `write_data` says so, then holds the records of the new
  -- tree. The size is what it was, no block has new contents, and none but the given one is freed.
  pub avl_remove_present :
      {r : D}
      → find data_cmp (h.cell x) (contents h tree) ≡ some r
      → Returns
          (λ (code, h', tree').
            (code ≡ avl_ok)
            × IsValid data_cmp h' tree'
            × (contents h' tree' ≡ (
                if found_inner
                then contents h tree
                else remove data_cmp (h.cell x) (contents h tree)))
            × (tree'.file ≡ (if write_data then contents h' tree' else tree.file))
            × (tree'.size ≡ tree.size)
            × (h'.cell ≡ h.cell)
            × ((p : Ptr) → p ≢ x → h'.live p ≡ h.live p)
            × (h'.next ≡ h.next))
          (avl_remove data_cmp h tree x free_data write_data)
  unfolding avl_remove
  avl_remove_present e =
      rw
        (
          search_reads-ok data_cmp h x tree.root live v.allocated,
          present data_cmp c h tree x v e,
          (private_avl_remove-delete (cmp_at data_cmp h) x tree.root v.flat).0,
          file_written _ freed-cell freed-next freed-live,
        )
        (
          refl,
          IsValid_new _ freed-cell freed-next freed-live,
          rw freed-cell contents_new,
          refl,
          refl,
          freed-cell,
          freed-live,
          freed-next,
        )
