-- ===== src/Integrity/Tests.antt =====
-- Concrete check queues.
use dnbd3_fuse_lowlevel.Prelude.{
  ℕ, ◌+◌, ◌<◌, ◌≡◌, ◌⊎◌, refl, [], ◌∷◌, none, some, true, false, not, ◌==◌, arith,
}
use dnbd3_fuse_lowlevel.Integrity.{QueueEntry, check_all, Blocks, integrity_check, work_entry}
use dnbd3_fuse_lowlevel.Integrity.Attach.{covers}
use dnbd3_fuse_lowlevel.Integrity.Schedule.{Scheduled, integrity_check-Scheduled}
use dnbd3_fuse_lowlevel.Integrity.Work.{bad_from, calls_for, work_entry_lem}

abbrev seven_on : QueueEntry
seven_on = record { image = some 1; block = 7; count = 3 }

abbrev gap : QueueEntry
gap = record { image = none; block = 0; count = 0 }

runs :
    (integrity_check true 1 (some 10) (gap ∷ seven_on ∷ [])
      ≡ gap ∷ record seven_on { count = 4 } ∷ [])
    × (integrity_check true 1 (some 8) (gap ∷ seven_on ∷ []) ≡ gap ∷ seven_on ∷ [])
    × (integrity_check true 2 (some 8) (gap ∷ seven_on ∷ [])
        ≡ record { image = some 2; block = 8; count = 1 } ∷ seven_on ∷ [])
unfolding integrity_check
runs = (refl, refl, refl)

integrity_check-Scheduled_example :
    Scheduled 1
      (some 10)
      (gap ∷ seven_on ∷ [])
      (integrity_check true 1 (some 10) (gap ∷ seven_on ∷ []))
integrity_check-Scheduled_example =
    integrity_check-Scheduled 1 (some 10) (gap ∷ seven_on ∷ []) (omega arith) (omega arith)
      (omega arith)

abbrev blocks : Blocks
blocks = record {
  virtual_filesize = 333_000_000;
  hash_blocks = 20;
  complete = λ k. true;
  readable = λ k. true;
  intact = λ k. not (k == 8);
  shutdown = λ k. false;
}

work_entry_example :
    let (e', bad, calls) = work_entry blocks true seven_on in
    (n : ℕ) × (0 < n)
    × (bad ≡ bad_from (seven_on.count == check_all) blocks 7 n)
    × (calls ≡ calls_for (seven_on.count == check_all) blocks bad)
    × ((image k : ℕ)
        → k < 20
        → covers seven_on image k ≡ true
        → (k < 7 + n) ⊎ (covers e' image k ≡ true))
work_entry_example =
    work_entry_lem blocks seven_on (λ k. refl) (λ k. refl) (omega arith) (omega arith) (omega arith)
      (λ h. omega arith) (omega arith)
