-- ===== src/Avl/Handle/Refines.antt =====
-- avl_tree.h's functions as operations on the sorted list of the records that the tree holds.
use mathlib.Core.List.{map, map-append}
use mathlib.Core.Option
use rc_project.Base.{
  map-eq-some, map-eq-none, ◌≡◌, refl, sym, ◌∙◌, Bool, true, false, none, some, List, [], ◌∷◌, ◌++◌,
  append_assoc, append-nil, ℤ, All, All-imp, map-agree, ok, ap, Option, All-split, arith,
}
use rc_project.Memory.{load-ok, IsBlock, Extends, Extends-IsBlock, Ptr, Heap}
use rc_project.Avl.{Tree, null, node, is_null, elements, private_avl_get}
use rc_project.Avl.Flat.{IsFlat}
use rc_project.Avl.Order.{IsComparator, IsSorted, find}
use rc_project.Avl.Elements.{data_of, IsOrdered, get-find, elements-IsSorted}
use rc_project.Avl.Handle.{
  AvlTree, avl_duplicated_key, avl_key_not_found, cmp_at, avl_get, avl_add, avl_remove,
  private_avl_rewrite, private_avl_print_client, search_reads,
}
use rc_project.Avl.Handle.Mapped.{IsComparator-through, find-map, IsSorted-map, IsOrdered-agree}

module _ {D : Type 0} where
  -- the records that the tree holds, in the order of its traversal
  abbrev pub contents : Heap D → AvlTree D → List D
  contents h tree = map h.cell (elements tree.root)

  -- on a tree of blocks in use `private_avl_rewrite` appends the records, in the order of the
  -- traversal
  pub private_avl_rewrite-elements :
      (h : Heap D) (t : Tree Ptr) (file : List D)
      → All (IsBlock h) (elements t)
      → private_avl_rewrite h t file ≡ ok (file ++ map h.cell (elements t))
  unfolding private_avl_rewrite elements
  private_avl_rewrite-elements h null file a = ap ok (sym (append-nil file))
  private_avl_rewrite-elements h (node k d l r) file a =
      let (al, ad, ar) = All-split (IsBlock h) (elements l) d (elements r) a in
      rw
        (
          private_avl_rewrite-elements h l file al,
          load-ok d h ad.1,
          private_avl_rewrite-elements h r ((file ++ map h.cell (elements l)) ++ (h.cell d ∷ []))
              ar,
        )
        (simp (map-append, append_assoc))

  -- and `private_avl_print_client` calls `send_to_client` for them in that order
  pub private_avl_print_client-elements {ℓ} :
      {M : Type ℓ} (h : Heap D) (send_to_client : D → M) (t : Tree Ptr)
      → All (IsBlock h) (elements t)
      → private_avl_print_client h send_to_client t
        ≡ ok (map send_to_client (map h.cell (elements t)))
  unfolding private_avl_print_client elements
  private_avl_print_client-elements h send_to_client null a = refl
  private_avl_print_client-elements h send_to_client (node k d l r) a =
      let (al, ad, ar) = All-split (IsBlock h) (elements l) d (elements r) a in
      rw
        (
          private_avl_print_client-elements h send_to_client l al,
          load-ok d h ad.1,
          private_avl_print_client-elements h send_to_client r ar,
        )
        (simp (map-append))

  -- no comparison on the way through a tree of blocks in use faults
  pub search_reads-ok :
      (data_cmp : D → D → ℤ) (h : Heap D) (x : Ptr) (t : Tree Ptr)
      → h.live x ≡ true
      → All (IsBlock h) (elements t)
      → search_reads data_cmp h x t ≡ ok tt
  unfolding search_reads elements
  search_reads-ok data_cmp h x null live a = refl
  search_reads-ok data_cmp h x (node k d l r) live a =
      let (al, ad, ar) = All-split (IsBlock h) (elements l) d (elements r) a in
      rw
        (
          load-ok x h live,
          load-ok d h ad.1,
          search_reads-ok data_cmp h x l live al,
          search_reads-ok data_cmp h x r live ar,
        )
        (ground arith)

is_null-none : {A : Type 0} (t : Tree A) → data_of t ≡ none → is_null t ≡ true
is_null-none null e = refl
is_null-none (node k d l r) e = cc

is_null-some : {A : Type 0} (t : Tree A) {p : A} → data_of t ≡ some p → is_null t ≡ false
is_null-some null e = cc
is_null-some (node k d l r) e = refl

-- The tree of a list in memory is a flat search tree of blocks that `malloc` has handed out.
pub record IsValid {D : Type 0} (data_cmp : D → D → ℤ) (h : Heap D) (tree : AvlTree D)
    : Type 0 where
  pub flat : IsFlat tree.root
  pub ordered : IsOrdered (cmp_at data_cmp h) tree.root
  pub allocated : All (IsBlock h) (elements tree.root)

module _ {D : Type 0} (data_cmp : D → D → ℤ) (c : IsComparator data_cmp) (h : Heap D)
    (tree : AvlTree D) where
  pub cmp_at-IsComparator : IsComparator (cmp_at data_cmp h)
  cmp_at-IsComparator = IsComparator-through h.cell data_cmp c

  -- The records that a valid tree holds are in increasing order under a lawful comparison, no two
  -- with the same key.
  pub contents-IsSorted : IsValid data_cmp h tree → IsSorted data_cmp (contents h tree)
  contents-IsSorted v =
      IsSorted-map h.cell data_cmp (elements tree.root)
        (elements-IsSorted (cmp_at data_cmp h) cmp_at-IsComparator tree.root v.ordered)

  -- the pointer that a search gives
  abbrev pub avl_lookup : Ptr → Option Ptr
  avl_lookup x = data_of (private_avl_get (cmp_at data_cmp h) x tree.root)

  pub avl_get-ok :
      (x : Ptr)
      → IsValid data_cmp h tree
      → h.live x ≡ true
      → avl_get data_cmp h tree x ≡ ok (avl_lookup x)
  unfolding avl_get
  avl_get-ok x v live = rw (search_reads-ok data_cmp h x tree.root live v.allocated)

  pub avl_lookup-find :
      (x : Ptr)
      → IsValid data_cmp h tree
      → avl_lookup x ≡ find (cmp_at data_cmp h) x (elements tree.root)
  avl_lookup-find x v = get-find (cmp_at data_cmp h) cmp_at-IsComparator x tree.root v.ordered

  -- On a valid tree under a lawful comparison, the search gives the block of the record with the
  -- given key, as a search through the list of the records finds it, or `NULL` if there is none.
  pub avl_lookup-contents :
      (x : Ptr)
      → IsValid data_cmp h tree
      → Option.map h.cell (avl_lookup x) ≡ find data_cmp (h.cell x) (contents h tree)
  avl_lookup-contents x v =
      rw (avl_lookup-find x v) (find-map h.cell data_cmp x (elements tree.root))

  -- the test that `avl_add` and `avl_remove` begin with
  pub absent :
      (x : Ptr)
      → IsValid data_cmp h tree
      → find data_cmp (h.cell x) (contents h tree) ≡ none
      → is_null (private_avl_get (cmp_at data_cmp h) x tree.root) ≡ true
  absent x v e = is_null-none _ (map-eq-none h.cell _ (avl_lookup-contents x v ∙ e))

  pub present :
      (x : Ptr) {r : D}
      → IsValid data_cmp h tree
      → find data_cmp (h.cell x) (contents h tree) ≡ some r
      → is_null (private_avl_get (cmp_at data_cmp h) x tree.root) ≡ false
  present x v e =
      let (p, e', _) = map-eq-some h.cell _ (avl_lookup-contents x v ∙ e) in is_null-some _ e'

  -- On a valid tree under a lawful comparison, adding a record in use whose key is in the tree changes
  -- nothing, neither the heap nor the tree nor the file, and returns AVL_DUPLICATED_KEY.
  pub avl_add_duplicate :
      (x : Ptr) (free_data write_data : Bool) {r : D}
      → IsValid data_cmp h tree
      → h.live x ≡ true
      → find data_cmp (h.cell x) (contents h tree) ≡ some r
      → avl_add data_cmp h tree x free_data write_data ≡ ok (avl_duplicated_key, h, tree)
  unfolding avl_add
  avl_add_duplicate x fd wd v live e =
      rw (search_reads-ok data_cmp h x tree.root live v.allocated, present x v e)

  -- On a valid tree under a lawful comparison, removing by a key that no record has changes nothing
  -- and returns AVL_KEY_NOT_FOUND.
  pub avl_remove_missing :
      (x : Ptr) (free_data write_data : Bool)
      → IsValid data_cmp h tree
      → h.live x ≡ true
      → find data_cmp (h.cell x) (contents h tree) ≡ none
      → avl_remove data_cmp h tree x free_data write_data ≡ ok (avl_key_not_found, h, tree)
  unfolding avl_remove
  avl_remove_missing x fd wd v live e =
      rw (search_reads-ok data_cmp h x tree.root live v.allocated, absent x v e)

-- A tree stays valid in a heap where its blocks are still in use and compare as they did.
pub IsValid-agree :
    {D : Type 0} (data_cmp : D → D → ℤ) (h h' : Heap D) (tree : AvlTree D)
    → IsValid data_cmp h tree
    → ((p q : Ptr) → IsBlock h p → IsBlock h q → cmp_at data_cmp h p q ≡ cmp_at data_cmp h' p q)
    → ((p : Ptr) → IsBlock h p → IsBlock h' p)
    → IsValid data_cmp h' tree
IsValid-agree data_cmp h h' tree v agree blocks = record {
  flat = v.flat;
  ordered =
      IsOrdered-agree (IsBlock h) (cmp_at data_cmp h) (cmp_at data_cmp h') agree tree.root
        v.allocated v.ordered;
  allocated = All-imp blocks (elements tree.root) v.allocated;
}

pub IsValid-Extends :
    {D : Type 0} (data_cmp : D → D → ℤ) (h h' : Heap D) (tree : AvlTree D)
    → IsValid data_cmp h tree
    → Extends h h'
    → IsValid data_cmp h' tree
IsValid-Extends data_cmp h h' tree v e =
    IsValid-agree data_cmp h h' tree v (λ p q bp bq. cc (e.cells p bp.0, e.cells q bq.0))
      (λ p. Extends-IsBlock p e)

pub contents-Extends :
    {D : Type 0} (h h' : Heap D) (tree : AvlTree D)
    → All (IsBlock h) (elements tree.root)
    → Extends h h'
    → contents h' tree ≡ contents h tree
contents-Extends h h' tree a e =
    map-agree (IsBlock h) h'.cell h.cell (λ p b. e.cells p b.0) (elements tree.root) a
