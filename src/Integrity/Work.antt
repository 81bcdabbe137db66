-- ===== src/Integrity/Work.antt =====
-- src/server/integrity.c: what `integrity_main` does with one entry.
use mathlib.Core.List.{append_assoc, append-nil}
use native.Mathlib.Decide.{dec_lt, ℕ_discrete}
use dnbd3_fuse_lowlevel.Prelude.{
  ◌∙◌, ℕ, zero, suc, ◌+◌, ◌^◌, ◌≤◌, ◌<◌, ◌≡◌, ◌≢◌, List, [], ◌∷◌, ◌++◌, Bool, true, false, not,
  ◌&&◌, ◌||◌, ltb, ◌==◌, if◌then◌else◌, min, arith, refl, ap, sym, ◌⊎◌, inl, inr, Bool-cases,
}
use dnbd3_fuse_lowlevel.Prelude.Words.{sub32}
use dnbd3_fuse_lowlevel.Integrity.{
  QueueEntry, check_all, Blocks, Call, corrupted_calls, Round, check_blocks, finish_entry,
  work_entry,
}
use dnbd3_fuse_lowlevel.Integrity.Attach.{covers}

-- The blocks that are looked at: all of a partial check, the complete ones of a full check.
abbrev pub looked_at : Bool → Blocks → ℕ → Bool
looked_at full b k = not full || b.complete k

-- Of the `n` blocks from `k` on, those that are looked at and have a wrong checksum, and how many
-- are looked at.
pub bad_from : Bool → Blocks → ℕ → ℕ → List ℕ
bad_from full b k zero = []
bad_from full b k (suc n) =
    if looked_at full b k && not (b.intact k)
    then k ∷ bad_from full b (k + 1) n
    else bad_from full b (k + 1) n

-- The calls for some corrupted blocks, in their order.
pub calls_for : Bool → Blocks → List ℕ → List Call
calls_for full b [] = []
calls_for full b (k ∷ ks) = corrupted_calls full b k ++ calls_for full b ks

looked_from : Bool → Blocks → ℕ → ℕ → ℕ
looked_from full b k zero = 0
looked_from full b k (suc n) =
    if looked_at full b k then suc (looked_from full b (k + 1) n) else looked_from full b (k + 1) n

looked_from-partial : (b : Blocks) (k n : ℕ) → looked_from false b k n ≡ n
unfolding looked_from
looked_from-partial b k zero = refl
looked_from-partial b k (suc n) = ap suc (looked_from-partial b (k + 1) n)

-- A round goes over some blocks, finds the bad ones among them, and stops at the last block or after
-- as many checks as it was given.
record Went (full : Bool) (b : Blocks) (r r' : Round) : Type 0 where
  steps : ℕ
  next : r'.next ≡ r.next + steps
  within : r'.next ≤ b.hash_blocks
  counted : r'.check_count + looked_from full b r.next steps ≡ r.check_count
  found : r'.corrupted ≡ r.corrupted ++ bad_from full b r.next steps
  called : r'.calls ≡ r.calls ++ calls_for full b (bad_from full b r.next steps)
  stopped : (r'.next ≡ b.hash_blocks) ⊎ (r'.check_count ≡ 0)

module _ (full : Bool) (b : Blocks) (readable : (k : ℕ) → b.readable k ≡ true)
    (runs : (k : ℕ) → b.shutdown k ≡ false) where
  step : Round → Round
  step r =
      let complete = not full || b.complete r.next in
      let bad = complete && not (b.intact r.next) in
      record {
        next = r.next + 1;
        check_count = if complete then sub32 r.check_count 1 else r.check_count;
        corrupted = if bad then r.corrupted ++ (r.next ∷ []) else r.corrupted;
        calls = if bad then r.calls ++ corrupted_calls full b r.next else r.calls;
      }

  goes_on :
      (r r' : Round)
      → 0 < r.check_count
      → r.check_count < 2 ^ 31
      → Went full b (step r) r'
      → Went full b r r'
  unfolding step bad_from looked_from calls_for
  goes_on r r' pos small w = record {
    steps = suc w.steps;
    next = omega (arith, w.next);
    within = w.within;
    counted = ground (arith, w.counted);
    found = ground (
      arith,
      w.found,
      append_assoc r.corrupted (r.next ∷ []) (bad_from full b (r.next + 1) w.steps),
    );
    called = ground (
      arith,
      w.called,
      append_assoc r.calls (corrupted_calls full b r.next)
          (calls_for full b (bad_from full b (r.next + 1) w.steps)),
    );
    stopped = w.stopped;
  }

  stopped_here :
      (r : Round)
      → r.next ≤ b.hash_blocks
      → (r.next ≡ b.hash_blocks) ⊎ (r.check_count ≡ 0)
      → Went full b r r
  unfolding bad_from looked_from calls_for
  stopped_here r h s = record {
    steps = 0;
    next = omega arith;
    within = h;
    counted = omega arith;
    found = sym (append-nil r.corrupted);
    called = sym (append-nil r.calls);
    stopped = s;
  }

  check_blocks-Went :
      (fuel : ℕ) (r : Round)
      → 0 < r.check_count
      → r.check_count < 2 ^ 31
      → r.next ≤ b.hash_blocks
      → b.hash_blocks ≤ r.next + fuel
      → Went full b r (check_blocks fuel full b r)
  unfolding check_blocks step
  check_blocks-Went zero r pos small h enough = stopped_here r h (inl (omega arith))
  check_blocks-Went (suc fuel) r pos small h enough = elim (dec_lt r.next b.hash_blocks) [
    | no end ↦
        let test : (ltb r.next b.hash_blocks && not (b.shutdown r.next)) ≡ false = ground arith in
        rw test (stopped_here r h (inl (omega arith)))
    | yes more ↦
        let test : (ltb r.next b.hash_blocks && not (b.shutdown r.next)) ≡ true =
          ground (arith, runs r.next) in
        rw (test, readable r.next)
          (elim (Bool-cases (looked_at full b r.next && ((step r).check_count == 0))) [
            | inl t ↦ rw t (
                goes_on r (step r) pos small
                  (stopped_here (step r) (omega arith) (inr (ground arith))))
            | inr f ↦ rw f (
                goes_on r (check_blocks fuel full b (step r)) pos small (
                  check_blocks-Went fuel (step r) (ground arith) (ground arith) (omega arith)
                    (omega arith)))
          ])
  ]

goes_further :
    (full : Bool) (b : Blocks) (r r' : Round) (w : Went full b r r')
    → 0 < r.check_count
    → r.next < b.hash_blocks
    → 0 < w.steps
unfolding looked_from
goes_further full b r r' w pos more = elim (ℕ_discrete w.steps 0) [
  | no ne ↦ omega arith
  | yes e ↦
      let none_seen = (rw e at w.counted) in absurd (ground (arith, none_seen, w.next, w.stopped))
]

not_lost :
    (b : Blocks) (e : QueueEntry) (r : Round)
    (w : Went
      (e.count == check_all)
      b
      (record { next = e.block; check_count = min e.count 5; corrupted = []; calls = [] })
      r)
    → 0 < e.count
    → b.hash_blocks < 2 ^ 30
    → e.block < b.hash_blocks
    → (e.count ≢ check_all → e.block + e.count ≤ b.hash_blocks)
    → e.count ≤ check_all
    → (image k : ℕ) → k < b.hash_blocks
    → covers e image k ≡ true
    → (k < e.block + w.steps) ⊎ (covers (finish_entry true e r) image k ≡ true)
unfolding finish_entry covers
not_lost b e r w pos small inside fits most image k lt c = elim (ℕ_discrete e.count check_all) [
  | yes full ↦
      let test : (e.count == check_all) ≡ true = ground arith in
      rw test (ground (arith, w.next, w.stopped, w.within))
  | no part ↦
      let test : (e.count == check_all) ≡ false = ground arith in
      let seen = (rw test at w.counted) in
      let counted = looked_from-partial b e.block w.steps in
      let until = fits part in
      rw test (ground (arith, w.next, w.stopped, w.within, seen, counted, until))
]

-- A round on an entry of an image with all blocks readable, without a shutdown, for a check of at most the blocks of the
-- image that begins inside it: the blocks found corrupted are exactly those of the next few blocks
-- that are looked at and have a wrong checksum; for each of them, in order, its range is marked as not cached, and a full check
-- is queued unless this is one; and every check of the entry was made in this round
-- or is still scheduled by the entry afterwards. At least one block is gone over.
pub work_entry_lem :
    (b : Blocks) (e : QueueEntry)
    → ((k : ℕ) → b.readable k ≡ true)
    → ((k : ℕ) → b.shutdown k ≡ false)
    → 0 < e.count
    → b.hash_blocks < 2 ^ 30
    → e.block < b.hash_blocks
    → (e.count ≢ check_all → e.block + e.count ≤ b.hash_blocks)
    → e.count ≤ check_all
    → let (e', bad, calls) = work_entry b true e in
      (n : ℕ) × (0 < n)
      × (bad ≡ bad_from (e.count == check_all) b e.block n)
      × (calls ≡ calls_for (e.count == check_all) b bad)
      × ((image k : ℕ)
          → k < b.hash_blocks
          → covers e image k ≡ true
          → (k < e.block + n) ⊎ (covers e' image k ≡ true))
unfolding work_entry
work_entry_lem b e readable runs pos small inside fits most =
    let full = e.count == check_all in
    let start : Round = record {
      next = e.block;
      check_count = min e.count 5;
      corrupted = [];
      calls = [];
    } in
    let w =
      check_blocks-Went full b readable runs b.hash_blocks start (omega arith) (omega arith)
        (omega arith) (omega arith) in
    (
      w.steps,
      goes_further full b start _ w (omega arith) inside,
      w.found,
      w.called ∙ ap (calls_for full b) (sym w.found),
      λ image k lt c. not_lost b e _ w pos small inside fits most image k lt c,
    )
