-- ===== src/Uplink.antt =====
-- src/server/uplink.c and src/server/globals.h: the request queue of an uplink.
-- The queue is the list of the first `queueLen` entries of the array. The lock of the queue is held
-- throughout each operation here, so no other thread comes in between.

pub mod Link
pub mod Receive
pub mod Replication
pub mod Queue
mod Tests
use dnbd3_fuse_lowlevel.Prelude.{
  ℕ, zero, suc, ◌+◌, ◌-◌, ◌*◌, ◌/◌, ◌%◌, ◌^◌, List, [], ◌∷◌, ◌++◌, Option, none, some, Bool, true,
  false, not, ◌&&◌, ◌||◌, ltb, leb, ◌==◌, if◌then◌else◌, length, set, get_elem?,
}
use dnbd3_fuse_lowlevel.Prelude.Words.{add64, sub64, cast32, align_down, align_up}
use dnbd3_fuse_lowlevel.Image.{block_size}

-- `ULR_FREE`, `ULR_NEW`, `ULR_PENDING` and `ULR_PROCESSING`
pub data Status : Type 0 where
  free new pending processing : Status

-- `dnbd3_queued_request_t`; a client is the number of its struct, `none` the null pointer.
pub record QueuedRequest : Type 0 where
  pub handle : ℕ
  pub from : ℕ
  pub to : ℕ
  pub client : Option ℕ
  pub status : Status
  pub hop_count : ℕ

-- `SERVER_MAX_UPLINK_QUEUE`
abbrev pub max_uplink_queue : ℕ
max_uplink_queue = 1500

abbrev pub is_free : Status → Bool
is_free free = true
is_free _ = false

abbrev pub is_new : Status → Bool
is_new new = true
is_new _ = false

abbrev pub is_pending : Status → Bool
is_pending pending = true
is_pending _ = false

abbrev pub is_processing : Status → Bool
is_processing processing = true
is_processing _ = false

abbrev pub is_none {ℓ} : {A : Type ℓ} → Option A → Bool
is_none none = true
is_none (some a) = false

abbrev pub is_empty {ℓ} : {A : Type ℓ} → List A → Bool
is_empty [] = true
is_empty (x ∷ xs) = false

-- The pointers are equal.
abbrev pub same_client : Option ℕ → Option ℕ → Bool
same_client none none = true
same_client none (some b) = false
same_client (some a) none = false
same_client (some a) (some b) = a == b

-- `uplink_removeClient`: the loop runs from the last entry to the first.
pub clear_client : ℕ → QueuedRequest → QueuedRequest
clear_client client r =
    if same_client r.client (some client) then record r { client = none; status = free } else r

pub remove_client : ℕ → List QueuedRequest → List QueuedRequest
unfolding clear_client
remove_client client [] = []
remove_client client (r ∷ rs) =
    let rest = remove_client client rs in
    let r' = clear_client client r in if is_none r'.client && is_empty rest then [] else r' ∷ rest

-- The request lies inside a reply for `start` to below `end`.
abbrev pub inside : ℕ → ℕ → QueuedRequest → Bool
inside start end r = leb start r.from && leb r.to end

-- `uplink_handleReceive`, 2): the requests inside a reply for `start` to below `end`; `none` is a
-- failed assert.
pub mark_processing : ℕ → ℕ → QueuedRequest → Option QueuedRequest
mark_processing start end r =
    if is_processing r.status
    then none
    else if not (is_pending r.status) && not (is_new r.status)
    then some r
    else if is_none r.client
    then none
    else if leb start r.from && leb r.to end
    then some (record r { status = processing })
    else some r

pub mark_all : ℕ → ℕ → List QueuedRequest → Option (List QueuedRequest)
unfolding mark_processing
mark_all start end [] = some []
mark_all start end (r ∷ rs) = elim (mark_processing start end r) [
  | none ↦ none
  | some r' ↦ elim (mark_all start end rs) [ none ↦ none | some rs' ↦ some (r' ∷ rs') ]
]

-- What is sent to a client: `handle`, and the bytes from `from` to below `to`.
pub record Reply : Type 0 where
  pub client : Option ℕ
  pub handle : ℕ
  pub from : ℕ
  pub to : ℕ

pub reply_to : QueuedRequest → Reply
reply_to r = record { client = r.client; handle = r.handle; from = r.from; to = r.to }

-- 3): the loop runs from the last entry to the first; the replies come in the order of sending. With
-- a slot goes what is sent for it.
pub serve_one : ℕ → ℕ → QueuedRequest → Option (QueuedRequest × List Reply)
unfolding reply_to
serve_one start end r =
    if not (is_processing r.status)
    then some (r, [])
    else if not (leb start r.from && leb r.to end)
    then none
    else some (record r { status = free; client = none }, reply_to r ∷ [])

pub serve_all : ℕ → ℕ → List QueuedRequest → Option (List QueuedRequest × List Reply)
unfolding serve_one
serve_all start end [] = some ([], [])
serve_all start end (r ∷ rs) = elim (serve_all start end rs) [
  | none ↦ none
  | some (rest, replies) ↦ elim (serve_one start end r) [
    | none ↦ none
    | some (r', reply) ↦
        some (if is_free r'.status && is_empty rest then [] else r' ∷ rest, replies ++ reply)
  ]
]

pub handle_reply : ℕ → ℕ → List QueuedRequest → Option (List QueuedRequest × List Reply)
unfolding mark_all serve_all
handle_reply start end queue = elim (mark_all start end queue) [
  | none ↦ none
  | some marked ↦ serve_all start end marked
]

-- `uplink_request`: the search for a free slot and for a request that covers this one.
pub record Found : Type 0 where
  pub free_slot : Option ℕ
  pub existing : Option (ℕ × Status)
  pub request_loop : Bool

abbrev pub nothing_found : Found
nothing_found = record { free_slot = none; existing = none; request_loop = false }

-- `foundExisting == -1 || existingType == ULR_PENDING`
abbrev pub may_replace : Option (ℕ × Status) → Bool
may_replace none = true
may_replace (some (i, status)) = is_pending status

-- One round of the search at slot `i`: what is found so far, and whether the loop breaks.
pub scan_slot : ℕ → ℕ → ℕ → ℕ → QueuedRequest → Found → Found × Bool
scan_slot start end hops i r found =
    if is_none found.free_slot && is_free r.status
    then (record found { free_slot = some i }, false)
    else if not (is_pending r.status) && not (is_new r.status)
    then (found, false)
    else if not (leb r.from start && leb end r.to)
    then (found, false)
    else if ltb r.hop_count hops && ((r.from == start) && (r.to == end))
    then (record found { request_loop = true }, true)
    else if may_replace found.existing
    then (record found { existing = some (i, r.status) }, not (is_none found.free_slot))
    else (found, false)

pub scan : ℕ → ℕ → ℕ → ℕ → List QueuedRequest → Found → Found
unfolding scan_slot
scan start end hops i [] found = found
scan start end hops i (r ∷ rs) found =
    let (found', stop) = scan_slot start end hops i r found in
    let rest = scan start end hops (i + 1) rs found' in if stop then found' else rest

-- Attach to the request found if it is new, or stands above the slot taken; else send this one.
abbrev pub attach : ℕ → Option (ℕ × Status) → Bool
attach slot none = false
attach slot (some (i, status)) = is_new status || not (ltb i slot)

pub data Outcome : Type 0 where
  -- a cyclic proxy chain, or no slot
  cycle full : Outcome
  -- the slot, the queue, and whether the request waits for another one's reply
  queued : ℕ → List QueuedRequest → Bool → Outcome

pub entry : ℕ → ℕ → ℕ → ℕ → ℕ → Bool → QueuedRequest
entry client handle start end hops attached = record {
  handle = handle;
  from = start;
  to = end;
  client = some client;
  status = if attached then pending else new;
  hop_count = hops;
}

pub place : ℕ → ℕ → ℕ → ℕ → ℕ → List QueuedRequest → Found → Outcome
unfolding entry
place client handle start end hops queue found = elim found.free_slot [
  | some slot ↦
      let attached = attach slot found.existing in
      queued slot (set queue slot (entry client handle start end hops attached)) attached
  | none ↦
      let slot = length queue in
      let attached = attach slot found.existing in
      if leb max_uplink_queue slot
      then full
      else queued slot (queue ++ (entry client handle start end hops attached ∷ [])) attached
]

pub enqueue : ℕ → ℕ → ℕ → ℕ → ℕ → List QueuedRequest → Outcome
unfolding scan place
enqueue client handle start end hops queue =
    let found = scan start end hops 0 queue nothing_found in
    if found.request_loop then cycle else place client handle start end hops queue found
