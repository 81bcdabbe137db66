-- ===== src/Uplink/Queue/Dispatch.antt =====
-- src/server/uplink.c: how `uplink_handleReceive` hands a reply to the clients.
use mathlib.Core.List.{reverse, reverse-cons}
use dnbd3_fuse_lowlevel.Prelude.{
  ℕ, ◌≡◌, List, [], ◌∷◌, ◌++◌, append_nil, none, some, Bool, ◌&&◌, not, if◌then◌else◌, map, arith,
  refl, ◌∙◌, inl, inr, Bool-cases,
}
use dnbd3_fuse_lowlevel.Uplink.{
  free, processing, QueuedRequest, Reply, inside, mark_processing, mark_all, serve_one, serve_all,
  reply_to, handle_reply, is_free,
}
use dnbd3_fuse_lowlevel.Uplink.Queue.{
  SlotOk, IsWellFormed, IsTrimmed, keep, waiting, trim_cons, trim_cons-IsWellFormed,
  trim_cons-IsTrimmed, waiting-trim_cons,
}

-- Whether a slot is answered, and the slot after it.
abbrev due : ℕ → ℕ → QueuedRequest → Bool
due start end r = not (is_free r.status) && inside start end r

abbrev marked : ℕ → ℕ → QueuedRequest → QueuedRequest
marked start end r = if due start end r then record r { status = processing } else r

abbrev served : ℕ → ℕ → QueuedRequest → QueuedRequest
served start end r = if due start end r then record r { status = free; client = none } else r

-- The asserts hold at a slot that is well formed.
mark_processing-SlotOk :
    (start end : ℕ) (r : QueuedRequest)
    → SlotOk r
    → mark_processing start end r ≡ some (marked start end r)
unfolding mark_processing
mark_processing-SlotOk start end r ok = ground (arith, ok.free_iff, ok.idle)

serve_one-SlotOk :
    (start end : ℕ) (r : QueuedRequest)
    → SlotOk r
    → serve_one start end (marked start end r)
      ≡ some (served start end r, if due start end r then reply_to r ∷ [] else [])
unfolding serve_one reply_to
serve_one-SlotOk start end r ok = ground (arith, ok.free_iff, ok.idle)

-- The replies that are due to a list of requests, in the order of sending: the last slot first.
abbrev pub replies_due : ℕ → ℕ → List QueuedRequest → List Reply
replies_due start end l = reverse (map reply_to (keep (inside start end) l))

replies_due-cons :
    (start end : ℕ) (r : QueuedRequest) (l : List QueuedRequest)
    → replies_due start end (if is_free r.status then l else r ∷ l) ≡ (
        if is_free r.status
        then replies_due start end l
        else if inside start end r
        then replies_due start end l ++ (reply_to r ∷ [])
        else replies_due start end l)
unfolding keep
replies_due-cons start end r l = elim (Bool-cases (is_free r.status)) [
  | inl f ↦ rw f refl
  | inr u ↦ rw u (elim (Bool-cases (inside start end r)) [
    | inl i ↦ rw i (reverse-cons (reply_to r) (map reply_to (keep (inside start end) l)))
    | inr o ↦ rw o refl
  ])
]

served-SlotOk : (start end : ℕ) (r : QueuedRequest) → SlotOk r → SlotOk (served start end r)
served-SlotOk start end r ok = ground (arith, ok.free_iff, ok.idle)

keep-served :
    (start end : ℕ) (r : QueuedRequest) (l : List QueuedRequest)
    → (if is_free (served start end r).status then l else served start end r ∷ l)
      ≡ (if is_free r.status then l else if inside start end r then l else r ∷ l)
keep-served start end r l = ground arith

replies-served :
    (start end : ℕ) (r : QueuedRequest) (l : List Reply)
    → l ++ (if due start end r then reply_to r ∷ [] else [])
      ≡ (if is_free r.status then l else if inside start end r then l ++ (reply_to r ∷ []) else l)
replies-served start end r l = ground (arith, append_nil l)

-- Both passes over a well-formed queue: the slots between them, and what they leave.
record Dispatched (start end : ℕ) (queue : List QueuedRequest) : Type 0 where
  between : List QueuedRequest
  after : List QueuedRequest
  replies : List Reply
  first : mark_all start end queue ≡ some between
  second : serve_all start end between ≡ some (after, replies)
  well : IsWellFormed after
  trimmed : IsTrimmed after
  left : waiting after ≡ keep (λ r. not (inside start end r)) (waiting queue)
  sent : replies ≡ replies_due start end (waiting queue)

queue-Dispatched :
    (start end : ℕ) (queue : List QueuedRequest) → IsWellFormed queue → Dispatched start end queue
unfolding keep mark_all serve_all
queue-Dispatched start end [] w = record {
  between = [];
  after = [];
  replies = [];
  first = refl;
  second = refl;
  well = tt;
  trimmed = tt;
  left = refl;
  sent = refl;
}
queue-Dispatched start end (r ∷ rs) (ok, w) =
    let d = queue-Dispatched start end rs w in
    let r' = served start end r in
    record {
      between = marked start end r ∷ d.between;
      after = trim_cons r' d.after;
      replies = d.replies ++ (if due start end r then reply_to r ∷ [] else []);
      first = rw (mark_processing-SlotOk start end r ok, mark_all, d.first) refl;
      second = rw (d.second, serve_all, serve_one-SlotOk start end r ok) refl;
      well = trim_cons-IsWellFormed r' d.after (served-SlotOk start end r ok) d.well;
      trimmed = trim_cons-IsTrimmed r' d.after d.trimmed;
      left =
          waiting-trim_cons r' d.after
          ∙ keep-served start end r (waiting d.after)
          ∙ ground (arith, d.left);
      sent =
          replies-served start end r d.replies
          ∙ ground (arith, d.sent, replies_due-cons start end r (waiting rs));
    }

-- A reply for the bytes from `start` to below `end`, at a well-formed queue: no assert fails, and
-- exactly the waiting requests inside that range are answered, each once, the last slot first, each
-- with its own client, handle and range; exactly those leave the queue, and the others keep their
-- order. The queue is well formed again, with no slot left in processing, and ends in a slot in use.
pub handle_reply_lem :
    (start end : ℕ) (queue : List QueuedRequest)
    → IsWellFormed queue
    → (queue' : List QueuedRequest) × (replies : List Reply) × (handle_reply start end queue
        ≡ some (queue', replies))
      × IsWellFormed queue'
      × IsTrimmed queue'
      × (waiting queue' ≡ keep (λ r. not (inside start end r)) (waiting queue))
      × (replies ≡ replies_due start end (waiting queue))
unfolding handle_reply
handle_reply_lem start end queue w =
    let d = queue-Dispatched start end queue w in
    (
      d.after,
      d.replies,
      rw (d.first, d.second, handle_reply) refl,
      d.well,
      d.trimmed,
      d.left,
      d.sent,
    )
