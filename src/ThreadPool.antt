-- ===== src/ThreadPool.antt =====
-- code/server/src/tools/thread_pool.c: the pool, and its workers as threads that are interleaved in any
-- order. `queue_peek` and `queue_pop`, which a worker calls under the mutex, are one step, and so is
-- `add_thread_job`, of which the accesses could fall between those of a worker.
pub mod Nodes
pub mod Start
pub mod Jobs
use rc_project.Base.{
  ℕ, ◌+◌, ◌<◌, ◌≡◌, ◌≢◌, Bool, true, false, List, [], ◌∷◌, ◌++◌, Option, none, some, ◌==◌, Run, ok,
  fault, Fault, ◌>>=◌,
}
use rc_project.Memory.{Ptr, Heap, empty_heap, malloc, update, load}
use rc_project.Queue.{
  Queue, QueueNode, new_queue, new_queue_node, queue_push, queue_peek, queue_pop, remove_queue,
}

-- `struct thread_job`, with 0 for a null function
pub record Job : Type 0 where
  pub job : Ptr
  pub arg : Ptr

unfoldable pub new_thread_job : Ptr → Ptr → Job
new_thread_job job arg = record { job = job; arg = arg }

-- Where a worker stands in `thread_job`.
pub data Pc : Type 0 where
  created : (arg : Ptr) → Pc  -- before the first test of `thread_pool->active`
  testing : Pc  -- before a later one
  locking : Pc  -- before `pthread_mutex_lock`
  locked : Pc  -- before `pthread_cond_wait`
  waiting : Pc  -- in `pthread_cond_wait`, which has released the mutex
  waking : Pc  -- still in it, before it has the mutex again
  holding : Pc  -- before `queue_peek` and `queue_pop`
  taken : (node : Ptr) → Pc  -- before `pthread_mutex_unlock`
  popped : (node : Ptr) → Pc  -- before `if(thread_job->job)`
  ended : Pc
  crashed : Pc

-- `struct thread_pool`: the block at `pool` in use, the owner of the mutex, and for each worker where it
-- stands. `ran` has the functions that were called, with their arguments.
pub record Pool : Type 0 where
  pub active : ℕ
  pub nodes : Heap (QueueNode Job)
  pub work : Queue
  pub mutex : Option ℕ
  pub workers : ℕ → Pc
  pub ran : List Job

-- The pool once its queue and its mutex are set, which the code does after it has created the
-- workers: `pthread_create(&thread_pool->pool[i], NULL, thread_job, NULL)`, whose argument is `NULL`.
unfoldable pub new_thread_pool : (junk : QueueNode Job) → Pool
new_thread_pool junk = record {
  active = 1;
  nodes = empty_heap junk;
  work = new_queue;
  mutex = none;
  workers = λ i. created 0;
  ran = [];
}

-- the copy of the job is a node of its own; neither the mutex nor the signal is used
unfoldable pub add_thread_job : Job → Pool → Run Pool
unfolding new_queue_node queue_push
add_thread_job thread_job s = do
  let (node, h) = new_queue_node thread_job s.nodes
  (h', work) ← queue_push node h s.work
  ok (record s { nodes = h'; work = work })

abbrev pub goes : ℕ → Pc → Pool → Pool
goes i p s = record s { workers = update s.workers i p }

-- what is read through the pointer to a node as if it were to a job: its first two words, the
-- pointer to the data and the one to the next node
abbrev pub job_of : Ptr → QueueNode Job → Job
job_of address node = record { job = address; arg = node.next_node }

-- One step of the worker `i`. A wait may end at any time, as POSIX allows. `address` is the one of
-- the data of a node, which is never `NULL`.
pub data Move (i : ℕ) (s t : Pool) : Type 0 where
  begin_null : s.workers i ≡ created 0 → t ≡ goes i crashed s → Move i s t
  begin : (arg : Ptr) → s.workers i ≡ created arg → arg ≢ 0 → t ≡ goes i testing s → Move i s t
  enter : s.workers i ≡ testing → s.active ≡ 1 → t ≡ goes i locking s → Move i s t
  leave : s.workers i ≡ testing → s.active ≢ 1 → t ≡ goes i ended s → Move i s t
  lock :
      s.workers i ≡ locking
      → s.mutex ≡ none
      → t ≡ record (goes i locked s) { mutex = some i }
      → Move i s t
  wait : s.workers i ≡ locked → t ≡ record (goes i waiting s) { mutex = none } → Move i s t
  wake : s.workers i ≡ waiting → t ≡ goes i waking s → Move i s t
  relock :
      s.workers i ≡ waking
      → s.mutex ≡ none
      → t ≡ record (goes i holding s) { mutex = some i }
      → Move i s t
  take :
      (h : Heap (QueueNode Job)) (work : Queue)
      → s.workers i ≡ holding
      → queue_pop s.nodes s.work ≡ ok (h, work)
      → t ≡ record (goes i (taken (queue_peek s.work)) s) { nodes = h; work = work }
      → Move i s t
  take_fault :
      (e : Fault)
      → s.workers i ≡ holding
      → queue_pop s.nodes s.work ≡ fault e
      → t ≡ goes i crashed s
      → Move i s t
  unlock :
      (node : Ptr)
      → s.workers i ≡ taken node
      → t ≡ record (goes i (popped node) s) { mutex = none }
      → Move i s t
  run :
      (node address : Ptr) (x : QueueNode Job)
      → s.workers i ≡ popped node
      → load node s.nodes ≡ ok x
      → t ≡ record (goes i testing s) { ran = s.ran ++ (job_of address x ∷ []) }
      → Move i s t
  crash :
      (node : Ptr) (e : Fault)
      → s.workers i ≡ popped node
      → load node s.nodes ≡ fault e
      → t ≡ goes i crashed s
      → Move i s t

-- A worker of the pool moves, a job is added, or `remove_thread_pool` ends the activity.
pub data Step (size : ℕ) (s t : Pool) : Type 0 where
  pick : (i : ℕ) → i < size → Move i s t → Step size s t
  add : (thread_job : Job) → add_thread_job thread_job s ≡ ok t → Step size s t
  stop : t ≡ record s { active = 0 } → Step size s t

pub data Reach (size : ℕ) (s : Pool) : Pool → Type 0 where
  here : Reach size s s
  next : {t u : Pool} → Reach size s t → Step size t u → Reach size s u

pub Reach-trans : {size : ℕ} {s t u : Pool} → Reach size s t → Reach size t u → Reach size s u
Reach-trans r here = r
Reach-trans r (next r' st) = next (Reach-trans r r') st

-- `remove_thread_pool`, which ends the activity, waits until every worker has ended, and removes the
-- queue. The signals that it sends are not needed here, since a wait may end at any time.
pub record Removed (size : ℕ) (s t : Pool) : Type 0 where
  pub joined : Pool
  pub waited : Reach size (record s { active = 0 }) joined
  pub all_ended : (i : ℕ) → i < size → joined.workers i ≡ ended
  pub nodes : Heap (QueueNode Job)
  pub work : Queue
  pub removed : remove_queue joined.nodes joined.work ≡ ok (nodes, work)
  pub rest : t ≡ record joined { nodes = nodes; work = work }
