-- ===== src/Memory.antt =====
-- The C heap, one for each type of object: what `malloc` and `free` do to the blocks that hold
-- objects of the type. Addresses start at 1, and `malloc` never hands one out twice. A block that
-- was freed keeps its contents here, but `load` of it is a fault.
use rc_project.Base.{
  ℕ, ◌+◌, ◌<◌, ◌≤◌, ◌≡◌, refl, ◌∙◌, arith, Bool, true, false, ◌==◌, if◌then◌else◌, Run, ok, fault,
  segfault,
}

abbrev pub Ptr : Type 0
Ptr = ℕ

abbrev pub update {ℓ} : {A : Type ℓ} → (Ptr → A) → Ptr → A → Ptr → A
update f p v q = if q == p then v else f q

pub record Heap {ℓ} (D : Type ℓ) : Type ℓ where
  pub cell : Ptr → D
  pub live : Ptr → Bool
  pub next : Ptr

module _ {ℓ} {D : Type ℓ} where
  -- no block yet; the argument is what memory holds before it is written
  abbrev pub empty_heap : D → Heap D
  empty_heap junk = record { cell = λ _. junk; live = λ _. false; next = 1 }

  -- `p = malloc(sizeof *p); *p = v`
  abbrev pub malloc : D → Heap D → Ptr × Heap D
  malloc v h = (
    h.next,
    record { cell = update h.cell h.next v; live = update h.live h.next true; next = h.next + 1 },
  )

  abbrev pub free : Ptr → Heap D → Heap D
  free p h = record h { live = update h.live p false }

  -- `*p = v`
  abbrev pub store : Ptr → D → Heap D → Heap D
  store p v h = record h { cell = update h.cell p v }

  -- `*p`, for a pointer that may be to no block
  unfoldable pub load : Ptr → Heap D → Run D
  load p h = if h.live p then ok (h.cell p) else fault segfault

  -- a block that `malloc` has handed out and that is not freed
  abbrev pub IsBlock : Heap D → Ptr → Type 0
  IsBlock h p = (p < h.next) × (h.live p ≡ true)

  -- every block of `h` is in `h'`, with the same contents
  pub record Extends (h h' : Heap D) : Type ℓ where
    pub cells : (p : Ptr) → p < h.next → h'.cell p ≡ h.cell p
    pub lives : (p : Ptr) → p < h.next → h'.live p ≡ h.live p
    pub grows : h.next ≤ h'.next

  pub Extends-refl : (h : Heap D) → Extends h h
  Extends-refl h = record { cells = λ p lt. refl; lives = λ p lt. refl; grows = omega arith }

  pub Extends-trans : {h h' h'' : Heap D} → Extends h h' → Extends h' h'' → Extends h h''
  Extends-trans e e' = record {
    cells = λ p lt. e'.cells p (omega (arith, e.grows)) ∙ e.cells p lt;
    lives = λ p lt. e'.lives p (omega (arith, e.grows)) ∙ e.lives p lt;
    grows = omega (arith, e.grows, e'.grows);
  }

  pub Extends-malloc : (v : D) (h : Heap D) → Extends h (malloc v h).1
  Extends-malloc v h = record {
    cells = λ p lt. ground arith;
    lives = λ p lt. ground arith;
    grows = omega arith;
  }

  -- a block that is allocated and freed again
  abbrev pub scratch : D → Heap D → Heap D
  scratch v h = free h.next (malloc v h).1

  pub Extends-scratch : (v : D) (h : Heap D) → Extends h (scratch v h)
  Extends-scratch v h = record {
    cells = λ p lt. ground arith;
    lives = λ p lt. ground arith;
    grows = omega arith;
  }

  pub Extends-IsBlock : {h h' : Heap D} (p : Ptr) → Extends h h' → IsBlock h p → IsBlock h' p
  Extends-IsBlock p e (lt, l) = (omega (arith, e.grows), e.lives p lt ∙ l)

  pub load-ok : (p : Ptr) (h : Heap D) → h.live p ≡ true → load p h ≡ ok (h.cell p)
  unfolding load
  load-ok p h l = rw l
