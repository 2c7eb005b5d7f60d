-- ===== src/ThreadPool/Nodes.antt =====
-- The nodes of the queue of a pool, and what `add_thread_job` leaves as it is.
use rc_project.Base.{◌<◌, ◌≡◌, refl, true, false, Holds, Holds-any, ok}
use rc_project.Memory.{Ptr, Heap, malloc}
use rc_project.Queue.{QueueNode, new_queue_node, queue_push}
use rc_project.ThreadPool.{Job, Pool, add_thread_job}

-- no address is `NULL`, and blocks in use are below the next one
pub record HeapValid (h : Heap (QueueNode Job)) : Type 0 where
  pub null : h.live 0 ≡ false
  pub some_next : 0 < h.next
  pub below : (p : Ptr) → h.live p ≡ true → p < h.next

-- `add_thread_job` changes the nodes and the queue only.
pub add-same :
    (thread_job : Job) (s : Pool)
    → Holds
        (λ t. (t.workers ≡ s.workers) × (t.mutex ≡ s.mutex) × (t.ran ≡ s.ran))
        (add_thread_job thread_job s)
unfolding add_thread_job new_queue_node
add-same thread_job s =
    Holds-any (λ t. (t.workers ≡ s.workers) × (t.mutex ≡ s.mutex) × (t.ran ≡ s.ran))
      (queue_push s.nodes.next (malloc (record { data' = thread_job; next_node = 0 }) s.nodes).1
        s.work)
      (λ (h, work). ok (record s { nodes = h; work = work })) (λ (h, work). (refl, refl, refl))
