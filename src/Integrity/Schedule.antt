-- ===== src/Integrity/Schedule.antt =====
-- src/server/integrity.c: which hash blocks are scheduled for a check.
use dnbd3_fuse_lowlevel.Prelude.{
  ℕ, zero, suc, ◌+◌, ◌^◌, ◌≤◌, ◌<◌, ◌≡◌, List, [], ◌∷◌, ◌++◌, Option, none, some, true, false, ◌&&◌,
  ◌||◌, leb, ◌==◌, length, set, get_elem?, length-append, length-set, arith, ap, ◌∙◌,
}
use dnbd3_fuse_lowlevel.Integrity.{
  QueueEntry, check_queue_size, check_all, no_image, dominates, Search, attached, free_slot,
  search_slot, new_entry, insert_entry, integrity_check,
}
use dnbd3_fuse_lowlevel.Integrity.Attach.{
  covers, uncovered, scheduled, InRange, asked, SmallBlock, Searched, search_slot-Searched,
  VacantSearch, search_slot-Vacant,
}

covers-new_entry :
    (image j k : ℕ) (block : Option ℕ)
    → covers (new_entry image block) j k ≡ ((j == image) && asked block k)
unfolding covers new_entry
covers-new_entry image j k none = ground arith
covers-new_entry image j k (some block) = ground arith

new_entry-InRange :
    (image : ℕ) (block : Option ℕ)
    → SmallBlock block
    → (new_entry image block).block + (new_entry image block).count < 2 ^ 31
unfolding new_entry
new_entry-InRange image none b = omega arith
new_entry-InRange image (some block) b = omega arith

scheduled-set :
    (queue : List QueueEntry) (i : ℕ) (e n : QueueEntry) (j k : ℕ)
    → get_elem? queue i ≡ some e
    → no_image e.image ≡ true
    → scheduled (set queue i n) j k ≡ (scheduled queue j k || covers n j k)
unfolding scheduled
scheduled-set [] i e n j k at gone = cc
scheduled-set (x ∷ xs) zero e n j k at gone =
    let nothing : covers x j k ≡ false = uncovered x j k (ground (arith, at)) in
    ground (arith, nothing)
scheduled-set (x ∷ xs) (suc i) e n j k at gone = ground (arith, scheduled-set xs i e n j k at gone)

set-InRange :
    (queue : List QueueEntry) (i : ℕ) (n : QueueEntry)
    → InRange queue
    → n.block + n.count < 2 ^ 31
    → InRange (set queue i n)
set-InRange [] i n r small = tt
set-InRange (x ∷ xs) zero n r small = (small, r.1)
set-InRange (x ∷ xs) (suc i) n r small = (r.0, set-InRange xs i n r.1 small)

append-InRange :
    (queue : List QueueEntry) (n : QueueEntry)
    → InRange queue
    → n.block + n.count < 2 ^ 31
    → InRange (queue ++ (n ∷ []))
append-InRange [] n r small = (small, tt)
append-InRange (x ∷ xs) n r small = (r.0, append-InRange xs n r.1 small)

scheduled-append :
    (queue : List QueueEntry) (n : QueueEntry) (j k : ℕ)
    → scheduled (queue ++ (n ∷ [])) j k ≡ (scheduled queue j k || covers n j k)
unfolding scheduled
scheduled-append [] n j k = ground arith
scheduled-append (x ∷ xs) n j k = ground (arith, scheduled-append xs n j k)

-- The queue after a call: in range, no longer than the array, and with exactly the checks that were
-- scheduled before and those asked for.
pub record Scheduled (image : ℕ) (block : Option ℕ) (queue queue' : List QueueEntry) : Type 0 where
  pub in_range : InRange queue'
  pub bounded : length queue' ≤ check_queue_size
  pub exact :
      (j k : ℕ) → scheduled queue' j k ≡ (scheduled queue j k || ((j == image) && asked block k))

insert_entry-Scheduled :
    (image : ℕ) (block : Option ℕ) (queue : List QueueEntry) (s : Search)
    → InRange queue
    → SmallBlock block
    → length queue < check_queue_size
    → Searched image block queue s
    → VacantSearch queue s
    → Scheduled image block queue (insert_entry image block queue s)
unfolding insert_entry
insert_entry-Scheduled image block queue (attached es) r b room (r', l, h) v = record {
  in_range = r';
  bounded = omega arith;
  exact = h;
}
insert_entry-Scheduled image block queue (free_slot (some i)) r b room h (e, at, gone) =
    let n = new_entry image block in
    record {
      in_range = set-InRange queue i n r (new_entry-InRange image block b);
      bounded = omega (arith, length-set {0} queue i n);
      exact = λ j k.
          scheduled-set queue i e n j k at gone
          ∙ ap (λ c. scheduled queue j k || c) (covers-new_entry image j k block);
    }
insert_entry-Scheduled image block queue (free_slot none) r b room h v =
    let n = new_entry image block in
    let test : leb check_queue_size (length queue) ≡ false = ground arith in
    rw test (record {
      in_range = append-InRange queue n r (new_entry-InRange image block b);
      bounded = omega (arith, length-append {0} queue (n ∷ []));
      exact = λ j k.
          scheduled-append queue n j k
          ∙ ap (λ c. scheduled queue j k || c) (covers-new_entry image j k block);
    })

-- `integrity_check` while the checker runs, at a queue in range with a slot to spare, for a full
-- check or one of a block below 2 ^ 30: exactly the checks asked for are scheduled in addition to
-- those that were, and the queue stays in range and within the array.
pub integrity_check-Scheduled :
    (image : ℕ) (block : Option ℕ) (queue : List QueueEntry)
    → InRange queue
    → SmallBlock block
    → length queue < check_queue_size
    → Scheduled image block queue (integrity_check true image block queue)
unfolding integrity_check
integrity_check-Scheduled image block queue r b room =
    insert_entry-Scheduled image block queue (search_slot image block 0 queue none) r b room
      (search_slot-Searched image block 0 queue none r b)
      (search_slot-Vacant queue image block 0 queue none (λ k. ap (get_elem? queue) (omega arith))
        tt)

-- A full check that has gone past its first blocks no longer takes in a request for a later block:
-- the sum of its block and its count is no `int`.
pub partial_check-dominates :
    (e : QueueEntry) (block : ℕ)
    → e.count ≡ check_all
    → 0 < e.block
    → e.block < 2 ^ 30
    → e.block ≤ block
    → block < e.block + e.count
    → dominates e (some block) ≡ false
unfolding dominates
partial_check-dominates e block full past small lo hi = ground arith
