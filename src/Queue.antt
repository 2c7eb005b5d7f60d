-- ===== src/Queue.antt =====
-- code/server/src/data_structures/queue.c. A node is a block of a heap of nodes; its data, a block
-- of its own in the source, is its value, so that it is copied with the node.
pub mod Chain
use rc_project.Base.{
  ℕ, zero, suc, ◌+◌, ◌%◌, ◌^◌, ◌-◌, List, [], ◌∷◌, Run, ok, fault, unfinished, ◌>>=◌, if◌then◌else◌,
  ◌==◌, ltb, Bool, true, false,
}
use rc_project.Memory.{Ptr, Heap, malloc, free, store, load}

-- `struct queue_node`
pub record QueueNode (D : Type 0) : Type 0 where
  pub data' : D
  pub next_node : Ptr

-- `struct queue`, with 0 for `NULL`
pub record Queue : Type 0 where
  pub size : ℕ
  pub start : Ptr
  pub end : Ptr

unfoldable pub new_queue : Queue
new_queue = record { size = 0; start = 0; end = 0 }

unfoldable pub queue_peek : Queue → Ptr
queue_peek queue = queue.start

module _ {D : Type 0} where
  unfoldable pub new_queue_node : D → Heap (QueueNode D) → Ptr × Heap (QueueNode D)
  new_queue_node data' h = malloc (record { data' = data'; next_node = 0 }) h

  -- `queue->end->next = node`, or `queue->start = node` in an empty queue
  unfoldable pub queue_push : Ptr → Heap (QueueNode D) → Queue → Run (Heap (QueueNode D) × Queue)
  queue_push node h queue =
      let size = (queue.size + 1) % 2 ^ 64 in
      if queue.end == 0 then ok (h, record { size = size; start = node; end = node }) else (do
        last ← load queue.end h
        ok (
          store queue.end (record last { next_node = node }) h,
          record queue { size = size; end = node },
        ))

  unfoldable pub queue_pop : Heap (QueueNode D) → Queue → Run (Heap (QueueNode D) × Queue)
  queue_pop h queue = if queue.start == 0 then ok (h, queue) else (do
    first ← load queue.start h
    ok (
      free queue.start h,
      record {
        size = (queue.size + 2 ^ 64 - 1) % 2 ^ 64;
        start = first.next_node;
        end = if first.next_node == 0 then 0 else queue.end;
      },
    ))

  -- The loop of `remove_queue`, for at most `fuel` rounds: the difference of the size and `i` goes
  -- down in each, so that the size at the start is enough.
  unfoldable pub remove_loop :
      (fuel i : ℕ) → Heap (QueueNode D) → Queue → Run (Heap (QueueNode D) × Queue)
  unfolding queue_pop
  remove_loop zero i h queue = if ltb i queue.size then fault unfinished else ok (h, queue)
  remove_loop (suc fuel) i h queue =
      let rest = (do (h', queue') ← queue_pop h queue; remove_loop fuel (i + 1) h' queue') in
      if ltb i queue.size then rest else ok (h, queue)

  -- The queue's own block is freed at the end: the result is the nodes that are left.
  unfoldable pub remove_queue : Heap (QueueNode D) → Queue → Run (Heap (QueueNode D) × Queue)
  unfolding remove_loop
  remove_queue h queue = remove_loop queue.size 0 h queue

  -- The loop of `print_queue` from a node, for at most `fuel` nodes.
  unfoldable pub print_loop {ℓ} :
      {M : Type ℓ} → (fuel : ℕ) → Ptr → Heap (QueueNode D) → (D → M) → Run (List M)
  print_loop zero current h print_node = if current == 0 then ok [] else fault unfinished
  print_loop (suc fuel) current h print_node =
      let more = (do
        node ← load current h
        rest ← print_loop fuel node.next_node h print_node
        ok (print_node node.data' ∷ rest)) in
      if current == 0 then ok [] else more

  -- what `print_node` makes of the data of each node
  unfoldable pub print_queue {ℓ} :
      {M : Type ℓ} → Heap (QueueNode D) → Queue → (D → M) → Run (List M)
  print_queue h queue print_node = print_loop queue.size queue.start h print_node
