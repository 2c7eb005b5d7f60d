-- ===== src/ThreadPool/Jobs.antt =====
-- The jobs of a pool, the oldest first.
use mathlib.Core.Path.{ap₂}
use rc_project.Base.{
  ◌+◌, ◌<◌, ◌^◌, ◌≡◌, ◌∙◌, refl, arith, List, [], ◌∷◌, ◌++◌, true, Returns, returned, length,
}
use rc_project.Memory.{Ptr, Heap, malloc}
use rc_project.Queue.{Queue, QueueNode, new_queue_node, queue_push}
use rc_project.Queue.Chain.{Chain, IsQueue, Apart, items, queue_push-last}
use rc_project.ThreadPool.{Job, Pool, add_thread_job}
use rc_project.ThreadPool.Nodes.{HeapValid}

module _ (x : QueueNode Job) (h : Heap (QueueNode Job)) (v : HeapValid h) where
  Chain-malloc :
      (p : Ptr) (ps : List Ptr)
      → Chain h p ps
      → Chain (malloc x h).1 p ps × Apart h.next ps × (items (malloc x h).1 ps ≡ items h ps)
  Chain-malloc p [] c = (c, tt, refl)
  Chain-malloc p (y ∷ ps) (e, z, l, c) =
      let lt = v.below y l in
      let (cs, a, same) = Chain-malloc (h.cell y).next_node ps c in
      let kept : (malloc x h).1.cell y ≡ h.cell y = ground arith in
      ((e, z, ground arith, rw kept cs), (ground arith, a), rw (kept, same) refl)

  IsQueue-malloc : (q : Queue) (ps : List Ptr) → IsQueue h q ps → IsQueue (malloc x h).1 q ps
  IsQueue-malloc q ps c = record {
    chain = (Chain-malloc q.start ps c.chain).0;
    ends = c.ends;
    distinct = c.distinct;
    sized = c.sized;
    bounded = c.bounded;
  }

-- `add_thread_job` puts the job behind the others of a pool with less than `2 ^ 64 - 1` jobs, and
-- changes neither the workers nor the mutex.
pub add_thread_job-last :
    (thread_job : Job) (s : Pool) (ps : List Ptr)
    → HeapValid s.nodes
    → IsQueue s.nodes s.work ps
    → length ps + 1 < 2 ^ 64
    → Returns
        (λ t.
          IsQueue t.nodes t.work (ps ++ (s.nodes.next ∷ []))
          × (items t.nodes (ps ++ (s.nodes.next ∷ [])) ≡ items s.nodes ps ++ (thread_job ∷ []))
          × (t.workers ≡ s.workers)
          × (t.mutex ≡ s.mutex))
        (add_thread_job thread_job s)
unfolding add_thread_job new_queue_node
add_thread_job-last thread_job s ps v q room =
    let x : QueueNode Job = record { data' = thread_job; next_node = 0 } in
    let h = (malloc x s.nodes).1 in
    let node = s.nodes.next in
    let (c, a, same) = Chain-malloc x s.nodes v s.work.start ps q.chain in
    let live : h.live node ≡ true = ground arith in
    let unlinked : (h.cell node).next_node ≡ 0 = ground arith in
    let own : (h.cell node).data' ≡ thread_job = ground arith in
    let ((h', work), e, (q', all)) = returned _ (queue_push node h s.work) (
      queue_push-last node h live (ground (arith, v.some_next)) unlinked s.work ps
        (IsQueue-malloc x s.nodes v s.work ps q) a room) in
    rw e (q', all ∙ ap₂ (λ l d. l ++ (d ∷ [])) same own, refl, refl)
