-- ===== src/ThreadPool/Start.antt =====
-- The workers of `new_thread_pool`, which get `NULL` for the pool.
use rc_project.Base.{
  ℕ, ◌<◌, ◌≡◌, inl, inr, refl, ap, ◌∙◌, arith, Bool, true, false, none, ◌==◌, Holds-ok, Bool-cases,
}
use rc_project.Queue.{QueueNode}
use rc_project.ThreadPool.{
  Job, Pc, created, crashed, Pool, new_thread_pool, goes, Move, begin_null, begin, enter, leave,
  lock, wait, wake, relock, take, take_fault, unlock, run, crash, Step, pick, add, stop, Reach,
  here, next, Reach-trans, Removed,
}
use rc_project.ThreadPool.Nodes.{add-same}

-- a worker that has not started, or that has read through `NULL`
abbrev pub unstarted_or_crashed : Pc → Bool
unstarted_or_crashed (created arg) = arg == 0
unstarted_or_crashed crashed = true
unstarted_or_crashed _ = false

pub record Unstarted (s : Pool) : Type 0 where
  pub workers : (i : ℕ) → unstarted_or_crashed (s.workers i) ≡ true
  pub free_mutex : s.mutex ≡ none

Unstarted-crash : (i : ℕ) (s : Pool) → Unstarted s → Unstarted (goes i crashed s)
Unstarted-crash i s v = record {
  workers = λ j. elim (Bool-cases (j == i)) [
    | inl same ↦ ground (arith, same)
    | inr other ↦ rw other (v.workers j)
  ];
  free_mutex = v.free_mutex;
}

not_started : (i : ℕ) (s : Pool) → Unstarted s → unstarted_or_crashed (s.workers i) ≡ false → ⊥
not_started i s v e = let w = v.workers i in cc

Move-Unstarted : (i : ℕ) (s t : Pool) → Unstarted s → Move i s t → Unstarted t
Move-Unstarted i s t v (begin_null w e) = rw e (Unstarted-crash i s v)
Move-Unstarted i s t v (begin arg w z e) = absurd (not_started i s v (rw w (ground (arith, z))))
Move-Unstarted i s t v (enter w a e) = absurd (not_started i s v (rw w refl))
Move-Unstarted i s t v (leave w a e) = absurd (not_started i s v (rw w refl))
Move-Unstarted i s t v (lock w m e) = absurd (not_started i s v (rw w refl))
Move-Unstarted i s t v (wait w e) = absurd (not_started i s v (rw w refl))
Move-Unstarted i s t v (wake w e) = absurd (not_started i s v (rw w refl))
Move-Unstarted i s t v (relock w m e) = absurd (not_started i s v (rw w refl))
Move-Unstarted i s t v (take h work w p e) = absurd (not_started i s v (rw w refl))
Move-Unstarted i s t v (take_fault f w p e) = rw e (Unstarted-crash i s v)
Move-Unstarted i s t v (unlock node w e) = absurd (not_started i s v (rw w refl))
Move-Unstarted i s t v (run node address x w l e) = absurd (not_started i s v (rw w refl))
Move-Unstarted i s t v (crash node f w l e) = rw e (Unstarted-crash i s v)

Step-Unstarted : (size : ℕ) (s t : Pool) → Unstarted s → Step size s t → Unstarted t
Step-Unstarted size s t v (pick i lt mv) = Move-Unstarted i s t v mv
Step-Unstarted size s t v (add thread_job e) =
    let (w, m, r) = Holds-ok _ t (add-same thread_job s) e in
    record {
      workers = λ i. ap (λ f. unstarted_or_crashed (f i)) w ∙ v.workers i;
      free_mutex = m ∙ v.free_mutex;
    }
Step-Unstarted size s t v (stop e) =
    rw e (record { workers = v.workers; free_mutex = v.free_mutex })

Reach-Unstarted : (size : ℕ) (s t : Pool) → Unstarted s → Reach size s t → Unstarted t
Reach-Unstarted size s t v here = v
Reach-Unstarted size s t v (next {t = u} r st) =
    Step-Unstarted size u t (Reach-Unstarted size s u v r) st

started-Unstarted : (junk : QueueNode Job) → Unstarted (new_thread_pool junk)
unfolding new_thread_pool
started-Unstarted junk = record { workers = λ i. refl; free_mutex = refl }

-- In every state that the pool of `new_thread_pool` reaches, each worker has not begun or has
-- crashed, since `thread_job` reads through the `NULL` that it is given; none holds the mutex.
pub new_thread_pool-Unstarted :
    (size : ℕ) (junk : QueueNode Job) (s : Pool)
    → Reach size (new_thread_pool junk) s
    → ((i : ℕ) → unstarted_or_crashed (s.workers i) ≡ true) × (s.mutex ≡ none)
new_thread_pool-Unstarted size junk s r =
    let v = Reach-Unstarted size (new_thread_pool junk) s (started-Unstarted junk) r in
    (v.workers, v.free_mutex)

-- `remove_thread_pool` does not return for a pool of `new_thread_pool` with at least one worker, in
-- any state that the pool reaches: the first join waits for a worker that does not end.
pub new_thread_pool-Removed :
    (size : ℕ) (junk : QueueNode Job) (s t : Pool)
    → 0 < size
    → Reach size (new_thread_pool junk) s
    → ¬ Removed size s t
new_thread_pool-Removed size junk s t some_worker r removed =
    let stopped = next r (stop refl) in
    let v =
      Reach-Unstarted size (new_thread_pool junk) removed.joined (started-Unstarted junk)
        (Reach-trans stopped removed.waited) in
    not_started 0 removed.joined v (rw (removed.all_ended 0 some_worker) refl)
