-- ===== src/Tests/PoolExamples.antt =====
-- The theorems on the thread pool at pools of two workers.
use rc_project.Base.{ℕ, ◌≡◌, refl, arith, none, true}
use rc_project.Queue.{QueueNode}
use rc_project.ThreadPool.{Removed, Job, Pool, new_thread_pool, Reach, here, next, pick, begin_null}
use rc_project.ThreadPool.Start.{
  new_thread_pool-Unstarted, new_thread_pool-Removed, unstarted_or_crashed,
}

abbrev junk : QueueNode Job
junk = record { data' = record { job = 0; arg = 0 }; next_node = 0 }

abbrev null_read : (s : Pool) × Reach 2 (new_thread_pool junk) s
unfolding new_thread_pool
null_read = (_, next here (pick 1 (omega arith) (begin_null refl refl)))

new_thread_pool-Unstarted_example :
    ((i : ℕ) → unstarted_or_crashed (null_read.0.workers i) ≡ true) × (null_read.0.mutex ≡ none)
new_thread_pool-Unstarted_example = new_thread_pool-Unstarted 2 junk null_read.0 null_read.1

new_thread_pool-Removed_example : ¬ Removed 2 null_read.0 (new_thread_pool junk)
new_thread_pool-Removed_example =
    new_thread_pool-Removed 2 junk null_read.0 (new_thread_pool junk) (omega arith) null_read.1
