-- ===== src/Threadpool.antt =====
-- src/server/threadpool.c: the pool of idle threads. An entry is the number of its struct; a worker
-- waits for its signal between two steps, and a step runs the job it was given.
pub mod Idle
pub mod Jobs
mod Tests
use dnbd3_fuse_lowlevel.Prelude.{
  ℕ, zero, suc, ◌+◌, List, [], ◌∷◌, ◌++◌, Option, none, some, Bool, true, false, not, ◌&&◌, ◌||◌,
  ltb, leb, ◌==◌, if◌then◌else◌, length, get_elem?, set,
}

-- `entry_t` and its thread: the job is `startRoutine` with its argument, `signalled` says that the
-- signal was called and not cleared, and `ended` that the thread has left its loop.
pub record Worker : Type 0 where
  pub job : Option ℕ
  pub signalled : Bool
  pub ended : Bool

-- The state of the module. `workers` are all entries ever made, `pool` is the list of idle ones,
-- `max_idle` is `none` for -1, and `done` are the jobs that were run, the last one first.
pub record Threads : Type 0 where
  pub workers : List Worker
  pub pool : List ℕ
  pub max_idle : Option ℕ
  pub shutdown : Bool
  pub done : List ℕ

abbrev pub is_some {ℓ} : {A : Type ℓ} → Option A → Bool
is_some none = false
is_some (some a) = true

-- `threadpool_init`, for an argument that is not negative.
pub init : ℕ → Threads → Threads × Bool
init max_idle t =
    if is_some t.max_idle then (t, false) else (record t { max_idle = some max_idle }, true)

-- A write to the entry `e`.
abbrev pub put_worker : Threads → ℕ → Worker → Threads
put_worker t e w = record t { workers = set t.workers e w }

abbrev pub with_job : ℕ → Worker
with_job job = record { job = some job; signalled = true; ended = false }

-- `threadpool_run`; `created` says that an entry, its signal and its thread could be made.
pub run : ℕ → Bool → Threads → Threads × Bool
run job created t = elim t.pool [
  | [] ↦
      if created
      then (record t { workers = t.workers ++ (with_job job ∷ []) }, true)
      else (t, false)
  | e ∷ es ↦ (put_worker (record t { pool = es }) e (with_job job), true)
]

-- The test `threadCount >= maxIdleThreads`.
abbrev pub is_surplus : Threads → Bool
is_surplus t = elim t.max_idle [ none ↦ true | some max_idle ↦ leb max_idle (length t.pool) ]

-- What the worker does with its job once it is woken up; `stopping` says that `_shutdown` is set
-- when the job returns.
pub work_job : Bool → ℕ → Worker → Threads → Threads
work_job stopping e w t = elim w.job [
  | none ↦ put_worker t e (record w { signalled = false })
  | some job ↦
      let t' = record t { done = job ∷ t.done } in
      if stopping || is_surplus t
      then put_worker t' e (record { job = none; signalled = false; ended = true })
      else put_worker (record t' { pool = e ∷ t.pool }) e
          (record { job = none; signalled = false; ended = false })
]

-- One round of `threadpool_worker`. `cleared` says that `signal_clear` gives a positive number, for
-- which a worker that is not signalled still waits; it may fail at any time, and then does not clear
-- the signal. A worker that has ended does nothing.
pub work : Bool → Bool → ℕ → Threads → Threads
unfolding work_job
work cleared stopping e t = elim (get_elem? t.workers e) [
  | none ↦ t
  | some w ↦
      if w.ended || (cleared && not w.signalled)
      then t
      else if t.shutdown
      then put_worker t e (record w { signalled = w.signalled && not cleared; ended = true })
      else if not cleared
      then t
      else work_job stopping e w t
]

pub call_all : List ℕ → Threads → Threads
call_all [] t = t
call_all (e ∷ es) t = elim (get_elem? t.workers e) [
  | none ↦ call_all es t
  | some w ↦ call_all es (put_worker t e (record w { signalled = true }))
]

-- `threadpool_close`
pub close : Threads → Threads
unfolding call_all
close t =
    let t' = record t { shutdown = true } in
    if is_some t.max_idle then call_all t.pool (record t' { max_idle = none }) else t'
