-- ===== src/Threadpool/Jobs.antt =====
-- src/server/threadpool.c: no job is lost, and none is run twice.
use dnbd3_fuse_lowlevel.Prelude.{
  ℕ, ◌+◌, ◌≡◌, List, [], ◌∷◌, ◌++◌, Option, none, some, Bool, true, false, not, ◌&&◌, ◌||◌,
  if◌then◌else◌, get_elem?, get_elem?-set_self, get_elem?-lt, arith, refl, Bool-cases, Option-cases,
  inl, inr,
}
use dnbd3_fuse_lowlevel.Prelude.Counts.{count, count-append}
use dnbd3_fuse_lowlevel.Threadpool.{Worker, Threads, with_job, run, is_surplus, work_job, work}
use dnbd3_fuse_lowlevel.Threadpool.Idle.{
  waiting, waiting-set, waiting-append, AllDue, AllDue-set, AllDue-append, AllIdle, AllIdle-set,
  signalled-outside,
}

-- The state while the program runs: idle entries in the pool, no more than wanted, and every job
-- given to a worker that will run it.
pub record IsSound (t : Threads) : Type 0 where
  pub running : t.shutdown ≡ false
  pub due : AllDue t.workers
  pub idle : AllIdle t.workers t.pool

-- How often a job was run or waits to be run.
abbrev pub held : Threads → ℕ → ℕ
held t job = count job t.done + waiting job t.workers

-- A step keeps the state sound, and changes what is held by the jobs that it takes in.
abbrev pub Takes : List ℕ → Threads → Threads → Type 0
Takes jobs t t' = IsSound t → IsSound t' × ((job : ℕ) → held t' job ≡ held t job + count job jobs)

abbrev pub taken : ℕ → Bool → List ℕ
taken job accepted = if accepted then job ∷ [] else []

run-Takes :
    (job : ℕ) (created : Bool) (workers : List Worker) (pool : List ℕ) (max_idle : Option ℕ)
    (done : List ℕ)
    → let t : Threads = record {
      workers = workers;
      pool = pool;
      max_idle = max_idle;
      shutdown = false;
      done = done;
    } in
      Takes (taken job (run job created t).1) t (run job created t).0
unfolding run
run-Takes job true workers [] max_idle done s = (
  record { running = refl; due = AllDue-append workers (with_job job) s.due refl; idle = tt },
  λ j. omega (arith, waiting-append j workers (with_job job)),
)
run-Takes job false workers [] max_idle done s = (s, λ j. omega arith)
run-Takes job created workers (e ∷ es) max_idle done s =
    let (idle, single, rest) = s.idle in
    (
      record {
        running = refl;
        due = AllDue-set workers e (with_job job) s.due refl;
        idle = AllIdle-set workers e (with_job job) es single rest;
      },
      λ j. omega (arith, waiting-set j workers e _ (with_job job) idle),
    )

module _ (workers : List Worker) (pool : List ℕ) (max_idle : Option ℕ) (done : List ℕ) (e : ℕ)
    (cleared stopping : Bool) where
  abbrev here : Threads
  here = record {
    workers = workers;
    pool = pool;
    max_idle = max_idle;
    shutdown = false;
    done = done;
  }

  work_job-Takes :
      (job : Option ℕ)
      → get_elem? workers e ≡ some (record { job = job; signalled = true; ended = false })
      → Takes [] here
          (work_job stopping e (record { job = job; signalled = true; ended = false }) here)
  unfolding work_job
  work_job-Takes none at s =
      let out = signalled-outside workers e _ pool at refl s.idle in
      (
        record {
          running = refl;
          due = AllDue-set workers e _ s.due refl;
          idle = AllIdle-set workers e _ pool out s.idle;
        },
        λ j. omega (
          arith,
          waiting-set j workers e _ (record { job = none; signalled = false; ended = false }) at,
        ),
      )
  work_job-Takes (some job) at s =
      let out = signalled-outside workers e _ pool at refl s.idle in
      let rest : Worker = record { job = none; signalled = false; ended = false } in
      let gone : Worker = record { job = none; signalled = false; ended = true } in
      elim (Bool-cases (stopping || is_surplus here)) [
        | inl t ↦ rw t (
          record {
            running = refl;
            due = AllDue-set workers e gone s.due refl;
            idle = AllIdle-set workers e gone pool out s.idle;
          },
          λ j. ground (arith, waiting-set j workers e _ gone at),
        )
        | inr f ↦ rw f (
          record {
            running = refl;
            due = AllDue-set workers e rest s.due refl;
            idle = (
              get_elem?-set_self workers e rest (get_elem?-lt workers e _ at),
              out,
              AllIdle-set workers e rest pool out s.idle,
            );
          },
          λ j. ground (arith, waiting-set j workers e _ rest at),
        )
      ]

  awake-Takes :
      (c : Bool) (job : Option ℕ) (signalled ended : Bool)
      → (let w : Worker = record { job = job; signalled = signalled; ended = ended } in
          get_elem? workers e ≡ some w
          → Takes [] here (
              if ended || (c && not signalled)
              then here
              else if not c
              then here
              else work_job stopping e w here))
  awake-Takes true job true false at s = work_job-Takes job at s
  awake-Takes true job false false at s = (s, λ j. omega arith)
  awake-Takes false job signalled false at s = (s, λ j. omega arith)
  awake-Takes c job signalled true at s = (s, λ j. omega arith)

  work-Takes : Takes [] here (work cleared stopping e here)
  unfolding work
  work-Takes s = elim (Option-cases (get_elem? workers e)) [
    | inl n ↦ rw n (s, λ j. omega arith)
    | inr (w, at) ↦ rw at (awake-Takes cleared w.job w.signalled w.ended at s)
  ]

-- One step of the program while it runs: a call of `threadpool_run`, or a round of a worker.
pub data Step (t : Threads) : List ℕ → Threads → Type 0 where
  called :
      (job : ℕ) (created : Bool) → Step t (taken job (run job created t).1) (run job created t).0
  worked : (cleared stopping : Bool) (e : ℕ) → Step t [] (work cleared stopping e t)

-- Some steps, with the jobs that were taken in, the last one first.
pub data Reach (t : Threads) : List ℕ → Threads → Type 0 where
  start : Reach t [] t
  next :
      (jobs more : List ℕ) (t' t'' : Threads)
      → Reach t jobs t'
      → Step t' more t''
      → Reach t (more ++ jobs) t''

abbrev running_at : Threads → Bool → Threads
running_at t shutdown = record t { shutdown = shutdown }

run_any-Takes :
    (job : ℕ) (created : Bool) (t : Threads) (shutdown : Bool)
    → shutdown ≡ false
    → Takes
        (taken job (run job created (running_at t shutdown)).1)
        (running_at t shutdown)
        (run job created (running_at t shutdown)).0
run_any-Takes job created t true e = absurd (ground arith)
run_any-Takes job created t false e = run-Takes job created t.workers t.pool t.max_idle t.done

work_any-Takes :
    (cleared stopping : Bool) (e : ℕ) (t : Threads) (shutdown : Bool)
    → shutdown ≡ false
    → Takes [] (running_at t shutdown) (work cleared stopping e (running_at t shutdown))
work_any-Takes cleared stopping e t true off = absurd (ground arith)
work_any-Takes cleared stopping e t false off =
    work-Takes t.workers t.pool t.max_idle t.done e cleared stopping

Step-Takes : (t t' : Threads) (jobs : List ℕ) → Step t jobs t' → Takes jobs t t'
Step-Takes t _ _ (called job created) s = run_any-Takes job created t t.shutdown s.running s
Step-Takes t _ _ (worked cleared stopping e) s =
    work_any-Takes cleared stopping e t t.shutdown s.running s

-- From a sound state, after any calls of `threadpool_run` and rounds of the workers, whether their
-- wait fails or not, that begin while the program is not shut down: each job that was taken in was run, or waits in a worker that is
-- signalled and alive, as often as it was taken in and held before; and the entries of the pool are
-- distinct, and are waiting workers without a job.
pub Reach-IsSound :
    (t t' : Threads) (jobs : List ℕ)
    → Reach t jobs t'
    → IsSound t
    → IsSound t' × ((job : ℕ) → held t' job ≡ held t job + count job jobs)
Reach-IsSound t _ _ start s = (s, λ j. omega arith)
Reach-IsSound t t'' _ (next jobs more t' _ r step) s =
    let (s', h) = Reach-IsSound t t' jobs r s in
    let (s'', h') = Step-Takes t' t'' more step s' in
    (s'', λ j. omega (arith, h j, h' j, count-append j more jobs))
