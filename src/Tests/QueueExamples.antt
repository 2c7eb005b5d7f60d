-- ===== src/Tests/QueueExamples.antt =====
-- The theorems on queues at a queue of two nodes.
use rc_project.Base.{ℕ, ◌==◌, refl, arith, [], ◌∷◌, ltb, if◌then◌else◌, Returns}
use rc_project.Memory.{Heap}
use rc_project.Queue.{Queue, QueueNode, remove_queue}
use rc_project.Queue.Chain.{IsQueue, remove_queue-half}

-- nodes 1 and 2 are linked, node 3 is not
abbrev nodes : Heap (QueueNode ℕ)
nodes = record {
  cell = λ p.
      if p == 1
      then (record { data' = 10; next_node = 2 })
      else (record { data' = 20; next_node = 0 });
  live = λ p. ltb p 4;
  next = 4;
}

abbrev two : Queue
two = record { size = 2; start = 1; end = 2 }

two-IsQueue : IsQueue nodes two (1 ∷ 2 ∷ [])
two-IsQueue = record {
  chain = (refl, omega arith, refl, (refl, omega arith, refl, refl));
  ends = refl;
  distinct = ((omega arith, tt), (tt, tt));
  sized = refl;
  bounded = omega arith;
}

remove_queue-half_example : Returns (λ (h', q'). IsQueue h' q' (2 ∷ [])) (remove_queue nodes two)
remove_queue-half_example = remove_queue-half nodes two (1 ∷ 2 ∷ []) two-IsQueue
