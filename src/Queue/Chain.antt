-- ===== src/Queue/Chain.antt =====
-- The nodes of a queue as a list, and what queue.c does to it.
use mathlib.Core.List.{map}
use mathlib.Core.Path.{ap₂}
use rc_project.Base.{
  ℕ, zero, suc, ◌+◌, ◌-◌, ◌/◌, ◌^◌, ◌<◌, ◌≤◌, ◌≡◌, ◌≢◌, refl, sym, ◌∙◌, arith, List, [], ◌∷◌, ◌++◌,
  Returns, returned, Bool-cases, inl, inr, if◌then◌else◌, ◌==◌, ltb, All, All-append, length-append,
  length, true, false, ok,
}
use rc_project.Memory.{Ptr, Heap, free, store, load-ok}
use rc_project.Queue.{
  Queue, QueueNode, queue_push, queue_pop, remove_loop, remove_queue, print_loop, print_queue,
}

-- the last element, or the given one if there is none
abbrev pub last_of : Ptr → List Ptr → Ptr
last_of d [] = d
last_of d (x ∷ xs) = last_of x xs

abbrev pub drop {ℓ} : {A : Type ℓ} → ℕ → List A → List A
drop zero xs = xs
drop (suc n) [] = []
drop (suc n) (x ∷ xs) = drop n xs

abbrev pub Apart : Ptr → List Ptr → Type 0
Apart x = All (λ y. y ≢ x)

abbrev pub Distinct : List Ptr → Type 0
Distinct [] = Unit
Distinct (x ∷ xs) = Apart x xs × Distinct xs

abbrev none_ptr : List Ptr
none_ptr = []

last_of-Apart : (x d : Ptr) (ps : List Ptr) → d ≢ x → Apart x ps → last_of d ps ≢ x
last_of-Apart x d [] ne a = ne
last_of-Apart x d (y ∷ ps) ne (n, a) = last_of-Apart x y ps n a

module _ {D : Type 0} where
  -- the links from `p` lead through the nodes of the list, all in use, to `NULL`
  abbrev pub Chain : Heap (QueueNode D) → Ptr → List Ptr → Type 0
  Chain h p [] = p ≡ 0
  Chain h p (x ∷ xs) = (p ≡ x) × (x ≢ 0) × (h.live x ≡ true) × Chain h (h.cell x).next_node xs

  pub record IsQueue (h : Heap (QueueNode D)) (q : Queue) (ps : List Ptr) : Type 0 where
    pub chain : Chain h q.start ps
    pub ends : q.end ≡ last_of 0 ps
    pub distinct : Distinct ps
    pub sized : q.size ≡ length ps
    pub bounded : length ps < 2 ^ 64

  -- the data in the queue, the oldest first
  abbrev pub items : Heap (QueueNode D) → List Ptr → List D
  items h ps = map (λ p. (h.cell p).data') ps

  Chain-free :
      (x : Ptr) (h : Heap (QueueNode D)) (p : Ptr) (ps : List Ptr)
      → Apart x ps
      → Chain h p ps
      → Chain (free x h) p ps
  Chain-free x h p [] a c = c
  Chain-free x h p (y ∷ ps) (ne, a) (e, z, l, c) =
      (e, z, ground arith, Chain-free x h (h.cell y).next_node ps a c)

  ends_after :
      (h : Heap (QueueNode D)) (n e x : Ptr) (ps : List Ptr)
      → Chain h n ps
      → e ≡ last_of x ps
      → (if n == 0 then 0 else e) ≡ last_of 0 ps
  ends_after h n e x [] c l = ground arith
  ends_after h n e x (y ∷ ps) (f, z, live, c) l = ground arith

  Chain-last :
      (h : Heap (QueueNode D)) (x : Ptr) (ps : List Ptr) (p : Ptr)
      → Chain h p (x ∷ ps)
      → (last_of x ps ≢ 0) × (h.live (last_of x ps) ≡ true)
  Chain-last h x [] p (e, z, l, c) = (z, l)
  Chain-last h x (y ∷ ps) p (e, z, l, c) = Chain-last h y ps (h.cell x).next_node c

  -- `queue_pop` takes the oldest node off the queue and frees it.
  pub queue_pop-first :
      (h : Heap (QueueNode D)) (q : Queue) (x : Ptr) (ps : List Ptr)
      → IsQueue h q (x ∷ ps)
      → Returns
          (λ (h', q'). IsQueue h' q' ps × (items h' ps ≡ items h ps) × (h'.live x ≡ false))
          (queue_pop h q)
  unfolding queue_pop
  queue_pop-first h q x ps v =
      let (start, z, live, c) = v.chain in
      let (a, d) = v.distinct in
      let some_start : (q.start == 0) ≡ false = ground arith in
      rw (some_start, start, load-ok x h live)
        (
          record {
            chain = Chain-free x h (h.cell x).next_node ps a c;
            ends = ends_after h (h.cell x).next_node q.end x ps c v.ends;
            distinct = d;
            sized = omega (arith, v.sized, v.bounded);
            bounded = omega (arith, v.bounded);
          },
          refl,
          ground arith,
        )

  -- the loop of `remove_queue` from any `i`, with enough fuel
  remove_loop-half :
      (fuel i : ℕ) (h : Heap (QueueNode D)) (q : Queue) (ps : List Ptr)
      → IsQueue h q ps
      → length ps ≤ fuel + i
      → i ≤ length ps + 1
      → Returns
          (λ (h', q'). IsQueue h' q' (drop ((length ps + 1 - i) / 2) ps))
          (remove_loop fuel i h q)
  unfolding remove_loop
  remove_loop-half zero i h q ps v enough below =
      let past : ltb i q.size ≡ false = ground (arith, v.sized) in
      let none_left : (length ps + 1 - i) / 2 ≡ 0 = omega arith in rw (past, none_left) v
  remove_loop-half (suc fuel) i h q [] v enough below =
      let stop : ltb i q.size ≡ false = ground (arith, v.sized) in
      let none_left : (length none_ptr + 1 - i) / 2 ≡ 0 = omega arith in rw (stop, none_left) v
  remove_loop-half (suc fuel) i h q (x ∷ ps) v enough below = elim (Bool-cases (ltb i q.size)) [
    | inl go ↦
        let ((h', q'), e, done) = returned _ (queue_pop h q) (queue_pop-first h q x ps v) in
        let under : i < length ps + 1 = ground (arith, v.sized) in
        let next : (length (x ∷ ps) + 1 - i) / 2 ≡ suc ((length ps + 1 - (i + 1)) / 2) =
          omega arith in
        rw (go, e, next) (remove_loop-half fuel (i + 1) h' q' ps done.0 (omega arith) (omega arith))
    | inr stop ↦
        let past : length ps + 1 ≤ i = ground (arith, v.sized) in
        let none_left : (length (x ∷ ps) + 1 - i) / 2 ≡ 0 = omega arith in rw (stop, none_left) v
  ]

  -- `remove_queue` takes off the older half of the nodes, rounded up, and leaves the others.
  pub remove_queue-half :
      (h : Heap (QueueNode D)) (q : Queue) (ps : List Ptr)
      → IsQueue h q ps
      → Returns (λ (h', q'). IsQueue h' q' (drop ((length ps + 1) / 2) ps)) (remove_queue h q)
  unfolding remove_queue
  remove_queue-half h q ps v =
      let all : (length ps + 1) / 2 ≡ (length ps + 1 - 0) / 2 = omega arith in
      rw all (remove_loop-half q.size 0 h q ps v (omega (arith, v.sized)) (omega arith))

  print_loop-items {ℓ} :
      {M : Type ℓ} (print_node : D → M) (h : Heap (QueueNode D)) (ps : List Ptr) (p : Ptr)
      → Chain h p ps
      → print_loop (length ps) p h print_node ≡ ok (map print_node (items h ps))
  unfolding print_loop
  print_loop-items print_node h [] p c = let null : (p == 0) ≡ true = ground arith in rw null refl
  print_loop-items print_node h (x ∷ ps) p (e, z, l, c) =
      let some_node : (p == 0) ≡ false = ground arith in
      rw (some_node, e, load-ok x h l, print_loop-items print_node h ps (h.cell x).next_node c) refl

  -- `print_queue` goes through all nodes of a queue, the oldest first: its fuel is enough.
  pub print_queue-items {ℓ} :
      {M : Type ℓ} (print_node : D → M) (h : Heap (QueueNode D)) (q : Queue) (ps : List Ptr)
      → IsQueue h q ps
      → print_queue h q print_node ≡ ok (map print_node (items h ps))
  unfolding print_queue
  print_queue-items print_node h q ps v =
      rw v.sized (print_loop-items print_node h ps q.start v.chain)

module _ {D : Type 0} (node : Ptr) (h : Heap (QueueNode D)) (live : h.live node ≡ true)
    (some_node : node ≢ 0) (unlinked : (h.cell node).next_node ≡ 0) where
  -- the heap once the node `x` links to the new one
  abbrev linked : Ptr → Heap (QueueNode D)
  linked x = store x (record (h.cell x) { next_node = node }) h

  linked-Apart : (x p : Ptr) (ps : List Ptr) → Apart x ps → Chain h p ps → Chain (linked x) p ps
  linked-Apart x p [] a c = c
  linked-Apart x p (y ∷ ps) (ne, a) (e, z, l, c) =
      let kept : (linked x).cell y ≡ h.cell y = ground arith in
      (e, z, l, rw kept (linked-Apart x (h.cell y).next_node ps a c))

  Chain-snoc :
      (p x : Ptr) (ps : List Ptr)
      → Distinct (x ∷ ps)
      → Apart node (x ∷ ps)
      → Chain h p (x ∷ ps)
      → Chain (linked (last_of x ps)) p ((x ∷ ps) ++ (node ∷ []))
  Chain-snoc p x [] d (ne, a) (e, z, l, c) =
      let here : (linked x).cell x ≡ record (h.cell x) { next_node = node } = ground arith in
      let there : (linked x).cell node ≡ h.cell node = ground arith in
      (e, z, l, rw here (refl, some_node, live, rw there unlinked))
  Chain-snoc p x (y ∷ ps) (ax, d) (ne, a) (e, z, l, c) =
      let other : last_of y ps ≢ x = last_of-Apart x y ps ax.0 ax.1 in
      let kept : (linked (last_of y ps)).cell x ≡ h.cell x = ground arith in
      (e, z, l, rw kept (Chain-snoc (h.cell x).next_node y ps d a c))

  items-linked : (x : Ptr) (ps : List Ptr) → items (linked x) ps ≡ items h ps
  items-linked x [] = refl
  items-linked x (y ∷ ps) =
      let kept : ((linked x).cell y).data' ≡ (h.cell y).data' = ground arith in
      rw (kept, items-linked x ps)

  Distinct-snoc : (ps : List Ptr) → Distinct ps → Apart node ps → Distinct (ps ++ (node ∷ []))
  Distinct-snoc [] d a = (tt, tt)
  Distinct-snoc (x ∷ ps) (ax, d) (ne, a) =
      (All-append (λ y. y ≢ x) ps (node ∷ []) ax ((λ e. ne (sym e)), tt), Distinct-snoc ps d a)

  last_of-snoc : (d : Ptr) (ps : List Ptr) → last_of d (ps ++ (node ∷ [])) ≡ node
  last_of-snoc d [] = refl
  last_of-snoc d (x ∷ ps) = last_of-snoc x ps

  items-snoc :
      (h' : Heap (QueueNode D)) (ps : List Ptr)
      → items h' (ps ++ (node ∷ [])) ≡ items h' ps ++ ((h'.cell node).data' ∷ [])
  items-snoc h' [] = refl
  items-snoc h' (x ∷ ps) = rw (items-snoc h' ps)

  -- `queue_push` of a node in use that is not in the queue and links to nothing puts it, with its
  -- data, behind the others, below 2 ^ 64 nodes.
  pub queue_push-last :
      (q : Queue) (ps : List Ptr)
      → IsQueue h q ps
      → Apart node ps
      → length ps + 1 < 2 ^ 64
      → Returns
          (λ (h', q').
            IsQueue h' q' (ps ++ (node ∷ []))
            × (items h' (ps ++ (node ∷ [])) ≡ items h ps ++ ((h.cell node).data' ∷ [])))
          (queue_push node h q)
  unfolding queue_push
  queue_push-last q [] v a room =
      let empty : (q.end == 0) ≡ true = ground (arith, v.ends) in
      rw empty (
        record {
          chain = (refl, some_node, live, unlinked);
          ends = refl;
          distinct = (tt, tt);
          sized = omega (arith, v.sized);
          bounded = omega arith;
        },
        refl,
      )
  queue_push-last q (x ∷ ps) v a room =
      let last = last_of x ps in
      let on = Chain-last h x ps q.start v.chain in
      let some_end : (q.end == 0) ≡ false = ground (arith, v.ends, on.0) in
      let own_data : ((linked last).cell node).data' ≡ (h.cell node).data' = ground arith in
      let data_kept = items-snoc (linked last) (x ∷ ps) in
      rw (some_end, v.ends, load-ok last h on.1)
        (
          record {
            chain = Chain-snoc q.start x ps v.distinct a v.chain;
            ends = sym (last_of-snoc x ps);
            distinct = Distinct-snoc (x ∷ ps) v.distinct a;
            sized = omega (arith, v.sized, room, length-append (x ∷ ps) (node ∷ []));
            bounded = omega (arith, room, length-append (x ∷ ps) (node ∷ []));
          },
          data_kept ∙ ap₂ (λ l d. l ++ (d ∷ [])) (items-linked last (x ∷ ps)) own_data,
        )
