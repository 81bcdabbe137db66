-- ===== src/Uplink/Queue/Search.antt =====
-- src/server/uplink.c: what the search of `uplink_request` finds.
use dnbd3_fuse_lowlevel.Prelude.{
  ℕ, suc, ◌+◌, ◌≤◌, ◌<◌, ◌≡◌, List, [], ◌∷◌, true, false, not, ◌&&◌, ◌||◌, ltb, leb, ◌==◌, arith,
  ◌∙◌, ap, inl, inr, Bool-cases, ◌⊎◌, none, some, get_elem?,
}
use dnbd3_fuse_lowlevel.Uplink.{
  QueuedRequest, Status, Found, scan_slot, scan, is_free, is_none, is_pending, is_new, may_replace,
}

-- The request waits, and a reply to it would hold the bytes from `start` to below `end`.
pub record CoversRange (start end : ℕ) (r : QueuedRequest) : Type 0 where
  pub active : (is_pending r.status || is_new r.status) ≡ true
  pub low : r.from ≤ start
  pub high : end ≤ r.to

-- The same range has come with fewer hops.
pub record SameRange (start end hops : ℕ) (r : QueuedRequest) : Type 0 where
  pub active : (is_pending r.status || is_new r.status) ≡ true
  pub low : r.from ≡ start
  pub high : r.to ≡ end
  pub nearer : r.hop_count < hops

-- What is found stands in the queue.
pub record FoundOk (start end hops : ℕ) (queue : List QueuedRequest) (f : Found) : Type 0 where
  pub free_at :
      (k : ℕ)
      → f.free_slot ≡ some k
      → (r : QueuedRequest) × (get_elem? queue k ≡ some r) × (is_free r.status ≡ true)
  pub covered :
      (k : ℕ) (s : Status)
      → f.existing ≡ some (k, s)
      → (r : QueuedRequest) × (get_elem? queue k ≡ some r)
        × (r.status ≡ s)
        × CoversRange start end r
  pub looped :
      f.request_loop ≡ true
      → (k : ℕ) × (r : QueuedRequest) × (get_elem? queue k ≡ some r) × SameRange start end hops r

module _ (start end hops : ℕ) (queue : List QueuedRequest) where
  scan_slot-FoundOk :
      (i : ℕ) (r : QueuedRequest) (f : Found)
      → get_elem? queue i ≡ some r
      → FoundOk start end hops queue f
      → FoundOk start end hops queue (scan_slot start end hops i r f).0
  unfolding scan_slot
  scan_slot-FoundOk i r f at ok = elim (Bool-cases (is_none f.free_slot && is_free r.status)) [
    | inl a ↦ rw a (record {
      free_at = λ k e. (r, ground arith, ground arith);
      covered = ok.covered;
      looped = ok.looped;
    })
    | inr na ↦ rw na (elim (Bool-cases (not (is_pending r.status) && not (is_new r.status))) [
      | inl b ↦ rw b ok
      | inr nb ↦ rw nb (elim (Bool-cases (not (leb r.from start && leb end r.to))) [
        | inl c ↦ rw c ok
        | inr nc ↦
            rw nc
              (elim (Bool-cases (ltb r.hop_count hops && ((r.from == start) && (r.to == end)))) [
                | inl d ↦ rw d (record {
                  free_at = ok.free_at;
                  covered = ok.covered;
                  looped = λ e. (
                    i,
                    r,
                    at,
                    record {
                      active = ground arith;
                      low = ground arith;
                      high = ground arith;
                      nearer = ground arith;
                    },
                  );
                })
                | inr nd ↦ rw nd (elim (Bool-cases (may_replace f.existing)) [
                  | inl e ↦ rw e (record {
                    free_at = ok.free_at;
                    covered = λ k s p. (
                      r,
                      ground arith,
                      ground arith,
                      record { active = ground arith; low = ground arith; high = ground arith },
                    );
                    looped = ok.looped;
                  })
                  | inr ne ↦ rw ne ok
                ])
              ])
      ])
    ])
  ]

  pub scan-FoundOk :
      (i : ℕ) (rest : List QueuedRequest) (f : Found)
      → ((k : ℕ) → get_elem? queue (i + k) ≡ get_elem? rest k)
      → FoundOk start end hops queue f
      → FoundOk start end hops queue (scan start end hops i rest f)
  unfolding scan
  scan-FoundOk i [] f tail ok = ok
  scan-FoundOk i (r ∷ rest) f tail ok =
      let here : get_elem? queue i ≡ some r = ap (get_elem? queue) (omega arith) ∙ tail 0 in
      let ok' = scan_slot-FoundOk i r f here ok in
      let later =
        scan-FoundOk (i + 1) rest (scan_slot start end hops i r f).0
          (λ k. ap (get_elem? queue) (omega arith) ∙ tail (suc k)) ok' in
      elim (Bool-cases (scan_slot start end hops i r f).1) [ inl e ↦ rw e ok' | inr e ↦ rw e later ]

abbrev pub AllUsed : List QueuedRequest → Type 0
AllUsed [] = Unit {0}
AllUsed (r ∷ rs) = (is_free r.status ≡ false) × AllUsed rs

scan_slot-unfound :
    (start end hops i : ℕ) (r : QueuedRequest) (f : Found)
    → (scan_slot start end hops i r f).0.free_slot ≡ none
    → (f.free_slot ≡ none) × (is_free r.status ≡ false)
unfolding scan_slot
scan_slot-unfound start end hops i r f e = ground arith

scan_slot-stop :
    (start end hops i : ℕ) (r : QueuedRequest) (f : Found)
    → (scan_slot start end hops i r f).1 ≡ true
    → ((scan_slot start end hops i r f).0.request_loop ≡ true)
      ⊎ (is_none (scan_slot start end hops i r f).0.free_slot ≡ false)
unfolding scan_slot
scan_slot-stop start end hops i r f e = ground arith

scan_unfound-cons :
    (start end hops i : ℕ) (r : QueuedRequest) (rest : List QueuedRequest) (f : Found)
    → (scan start end hops i (r ∷ rest) f).free_slot ≡ none
    → (scan start end hops i (r ∷ rest) f).request_loop ≡ false
    → let f' = (scan_slot start end hops i r f).0 in
      ((scan_slot start end hops i r f).1 ≡ false)
      × ((scan start end hops (i + 1) rest f').free_slot ≡ none)
      × ((scan start end hops (i + 1) rest f').request_loop ≡ false)
unfolding scan
scan_unfound-cons start end hops i r rest f e l =
    ground (arith, scan_slot-stop start end hops i r f)

scan-keeps :
    (start end hops i : ℕ) (rest : List QueuedRequest) (f : Found)
    → (scan start end hops i rest f).free_slot ≡ none
    → (scan start end hops i rest f).request_loop ≡ false
    → f.free_slot ≡ none
scan-keeps start end hops i [] f e l = unfold scan in e
scan-keeps start end hops i (r ∷ rest) f e l =
    let (s, e', l') = scan_unfound-cons start end hops i r rest f e l in
    (scan_slot-unfound start end hops i r f (scan-keeps start end hops (i + 1) rest _ e' l')).0

-- If the search ends with no free slot and no loop, every slot is in use.
pub scan-AllUsed :
    (start end hops i : ℕ) (rest : List QueuedRequest) (f : Found)
    → (scan start end hops i rest f).free_slot ≡ none
    → (scan start end hops i rest f).request_loop ≡ false
    → AllUsed rest
scan-AllUsed start end hops i [] f e l = tt
scan-AllUsed start end hops i (r ∷ rest) f e l =
    let (s, e', l') = scan_unfound-cons start end hops i r rest f e l in
    (
      (scan_slot-unfound start end hops i r f (scan-keeps start end hops (i + 1) rest _ e' l')).1,
      scan-AllUsed start end hops (i + 1) rest _ e' l',
    )
