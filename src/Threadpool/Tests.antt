-- ===== src/Threadpool/Tests.antt =====
-- Concrete threads.
use dnbd3_fuse_lowlevel.Prelude.{ℕ, ◌+◌, ◌≡◌, [], ◌∷◌, none, some, true, false, refl}
use dnbd3_fuse_lowlevel.Threadpool.{Worker, Threads, run, work, work_job, close, call_all}
use dnbd3_fuse_lowlevel.Prelude.Counts.{count}
use dnbd3_fuse_lowlevel.Threadpool.Jobs.{IsSound, held, start, next, called, worked, Reach-IsSound}

abbrev no_threads : Threads
no_threads = record { workers = []; pool = []; max_idle = some 1; shutdown = false; done = [] }

abbrev idle_worker : Worker
idle_worker = record { job = none; signalled = false; ended = false }

abbrev one_idle : Threads
one_idle = record {
  workers = idle_worker ∷ [];
  pool = 0 ∷ [];
  max_idle = some 1;
  shutdown = false;
  done = 7 ∷ [];
}

-- The thread of a job is kept for the next one.
reused : work true false 0 (run 7 true no_threads).0 ≡ one_idle
unfolding run work work_job
reused = refl

woken_to_end :
    (work true false 0 (close one_idle)).workers
    ≡ record { job = none; signalled = false; ended = true } ∷ []
unfolding close call_all work
woken_to_end = refl

no_threads-IsSound : IsSound no_threads
no_threads-IsSound = record { running = refl; due = tt; idle = tt }

Reach-IsSound_example :
    IsSound (work true false 0 (run 7 true no_threads).0)
    × ((job : ℕ)
        → held (work true false 0 (run 7 true no_threads).0) job
          ≡ held no_threads job + count job (7 ∷ []))
unfolding run
Reach-IsSound_example =
    Reach-IsSound no_threads (work true false 0 (run 7 true no_threads).0) (7 ∷ [])
      (next (7 ∷ []) [] (run 7 true no_threads).0 _
        (next [] (7 ∷ []) no_threads _ start (called 7 true)) (worked true false 0))
      no_threads-IsSound
