-- ===== src/Uplink/Queue/Enqueue.antt =====
-- src/server/uplink.c: how `uplink_request` puts a request into the queue.
use dnbd3_fuse_lowlevel.Prelude.{
  ℕ, zero, suc, ◌≤◌, ◌≡◌, ◌≢◌, List, [], ◌∷◌, ◌++◌, Bool, true, false, ◌||◌, leb, arith, refl, sym,
  ◌∙◌, ap, inl, inr, Bool-cases, Option-cases, ◌⊎◌, Option, none, some, get_elem?, set, length,
  length-append, length-set, get_elem?-lt, get_elem?-set_self, get_elem?-set_ne,
  get_elem?-append_self, get_elem?-append_ne,
}
use native.Mathlib.Decide.{dec_le}
use dnbd3_fuse_lowlevel.Uplink.{
  QueuedRequest, Status, Found, nothing_found, scan, is_free, is_pending, is_new, attach, Outcome,
  cycle, full, queued, entry, place, enqueue, max_uplink_queue,
}
use dnbd3_fuse_lowlevel.Uplink.Queue.{SlotOk, IsWellFormed}
use dnbd3_fuse_lowlevel.Uplink.Queue.Search.{
  CoversRange, SameRange, FoundOk, scan-FoundOk, AllUsed, scan-AllUsed,
}

set-IsWellFormed :
    (queue : List QueuedRequest) (i : ℕ) (r : QueuedRequest)
    → IsWellFormed queue
    → SlotOk r
    → IsWellFormed (set queue i r)
set-IsWellFormed [] i r w ok = tt
set-IsWellFormed (x ∷ xs) zero r w ok = (ok, w.1)
set-IsWellFormed (x ∷ xs) (suc i) r w ok = (w.0, set-IsWellFormed xs i r w.1 ok)

append-IsWellFormed :
    (queue : List QueuedRequest) (r : QueuedRequest)
    → IsWellFormed queue
    → SlotOk r
    → IsWellFormed (queue ++ (r ∷ []))
append-IsWellFormed [] r w ok = (ok, tt)
append-IsWellFormed (x ∷ xs) r w ok = (w.0, append-IsWellFormed xs r w.1 ok)

entry-SlotOk :
    (client handle start end hops : ℕ) (attached : Bool)
    → SlotOk (entry client handle start end hops attached)
unfolding entry
entry-SlotOk client handle start end hops true = record { free_iff = refl; idle = refl }
entry-SlotOk client handle start end hops false = record { free_iff = refl; idle = refl }

unattached :
    (slot : ℕ) (existing : Option (ℕ × Status)) → existing ≡ none → attach slot existing ≡ true → ⊥
unattached slot none e a = cc
unattached slot (some (k, s)) e a = cc

apart :
    (queue : List QueuedRequest) (k slot : ℕ) (r : QueuedRequest)
    → get_elem? queue k ≡ some r
    → (is_pending r.status || is_new r.status) ≡ true
    → ((slot ≡ length queue)
        ⊎ ((s : QueuedRequest) × (get_elem? queue slot ≡ some s) × (is_free s.status ≡ true)))
    → k ≢ slot
apart queue k slot r at active (inl end) e = omega (arith, get_elem?-lt queue k r at)
apart queue k slot r at active (inr (s, at', unused)) e =
    let same : some r ≡ some s = sym at ∙ ap (get_elem? queue) e ∙ at' in ground (arith, same)

module _ (client handle start end hops : ℕ) (queue : List QueuedRequest) where
  -- What the outcome says: a cycle is reported only if the same range waits with fewer hops; the
  -- queue is full only if all 1500 slots are in use; otherwise the new queue is well formed and no
  -- longer than 1500, a slot that was free or new holds the request, every other slot is as it was,
  -- and a request that is not sent has another slot whose reply will hold its range.
  abbrev pub Enqueued : Outcome → Type 0
  Enqueued cycle =
      (k : ℕ) × (r : QueuedRequest) × (get_elem? queue k ≡ some r) × SameRange start end hops r
  Enqueued full = AllUsed queue × (max_uplink_queue ≤ length queue)
  Enqueued (queued slot queue' attached) =
      IsWellFormed queue'
      × (length queue' ≤ max_uplink_queue)
      × (get_elem? queue' slot ≡ some (entry client handle start end hops attached))
      × ((k : ℕ) → k ≢ slot → get_elem? queue' k ≡ get_elem? queue k)
      × ((slot ≡ length queue)
          ⊎ ((r : QueuedRequest) × (get_elem? queue slot ≡ some r) × (is_free r.status ≡ true)))
      × (attached ≡ true
          → (k : ℕ) × (r : QueuedRequest) × (k ≢ slot)
            × (get_elem? queue' k ≡ some r)
            × CoversRange start end r)

  found_all : FoundOk start end hops queue (scan start end hops 0 queue nothing_found)
  found_all =
      scan-FoundOk start end hops queue 0 queue nothing_found
        (λ k. ap (get_elem? queue) (omega arith))
        (record { free_at = λ k e. cc; covered = λ k s e. cc; looped = λ e. cc })

  -- The slot that an attached request relies on is not the one that it takes.
  attached_to :
      (slot : ℕ) (found : Found) (queue' : List QueuedRequest)
      → FoundOk start end hops queue found
      → ((slot ≡ length queue)
          ⊎ ((r : QueuedRequest) × (get_elem? queue slot ≡ some r) × (is_free r.status ≡ true)))
      → ((k : ℕ) → k ≢ slot → get_elem? queue' k ≡ get_elem? queue k)
      → attach slot found.existing ≡ true
      → (k : ℕ) × (r : QueuedRequest) × (k ≢ slot)
        × (get_elem? queue' k ≡ some r)
        × CoversRange start end r
  attached_to slot found queue' ok unused same e = elim (Option-cases found.existing) [
    | inl nope ↦ absurd (unattached slot found.existing nope e)
    | inr ((k, s), p) ↦
        let (r, at, is, covers) = ok.covered k s p in
        let ne = apart queue k slot r at covers.active unused in (k, r, ne, same k ne ∙ at, covers)
  ]

  place-Enqueued :
      (found : Found)
      → IsWellFormed queue
      → length queue ≤ max_uplink_queue
      → FoundOk start end hops queue found
      → (found.free_slot ≡ none → AllUsed queue)
      → Enqueued (place client handle start end hops queue found)
  unfolding place
  place-Enqueued found w short ok used = elim (Option-cases found.free_slot) [
    | inl e ↦
        rw (e, place)
          (elim (dec_le max_uplink_queue (length queue)) [
            | yes long ↦
                let test : leb max_uplink_queue (length queue) ≡ true = ground arith in
                rw test (used e, long)
            | no room ↦
                let test : leb max_uplink_queue (length queue) ≡ false = ground arith in
                let same = λ (k : ℕ) (ne : k ≢ length queue).
                  get_elem?-append_ne queue k (new_entry (attach (length queue) found.existing))
                    ne in
                rw test (
                  append-IsWellFormed queue _ w (entry-SlotOk client handle start end hops _),
                  omega (
                    arith,
                    length-append {0} queue (new_entry (attach (length queue) found.existing) ∷ []),
                  ),
                  get_elem?-append_self queue _,
                  same,
                  inl refl,
                  attached_to (length queue) found _ ok (inl refl) same,
                )
          ])
    | inr (slot, e) ↦
        let at = ok.free_at slot e in
        let same = λ (k : ℕ) (ne : k ≢ slot).
          get_elem?-set_ne queue (new_entry (attach slot found.existing)) (λ p. ne (sym p)) in
        rw (e, place)
          (
            set-IsWellFormed queue slot _ w (entry-SlotOk client handle start end hops _),
            omega (arith, length-set {0} queue slot (new_entry (attach slot found.existing))),
            get_elem?-set_self queue slot _ (get_elem?-lt queue slot at.0 at.1),
            same,
            inr at,
            attached_to slot found _ ok (inr at) same,
          )
  ]
    where
      new_entry : Bool → QueuedRequest
      new_entry = entry client handle start end hops

  -- The queue part of `uplink_request`, at a well-formed queue of at most 1500 slots: its outcome is
  -- as `Enqueued` says.
  pub enqueue-Enqueued :
      IsWellFormed queue
      → length queue ≤ max_uplink_queue
      → Enqueued (enqueue client handle start end hops queue)
  unfolding enqueue
  enqueue-Enqueued w short =
      let found = scan start end hops 0 queue nothing_found in
      elim (Bool-cases found.request_loop) [
        | inl e ↦ rw e (found_all.looped e)
        | inr e ↦ rw e (
            place-Enqueued found w short found_all
              (λ none_free. scan-AllUsed start end hops 0 queue nothing_found none_free e))
      ]
