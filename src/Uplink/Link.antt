-- ===== src/Uplink/Link.antt =====
-- src/server/uplink.c: `uplink_request` and `uplink_sendRequests`, with what they send.
-- The queue is not changed by other threads while `uplink_request` sends without its lock.
pub mod Send
pub mod Accept
use dnbd3_fuse_lowlevel.Prelude.{
  ℕ, zero, suc, ◌+◌, ◌-◌, ◌*◌, ◌/◌, ◌%◌, ◌^◌, List, [], ◌∷◌, ◌++◌, Option, none, some, Bool, true,
  false, not, ◌&&◌, ◌||◌, ltb, leb, ◌==◌, if◌then◌else◌, set, get_elem?,
}
use dnbd3_fuse_lowlevel.Prelude.Words.{add64, sub64, cast32, align_down, align_up}
use dnbd3_fuse_lowlevel.Host.{Host, is_same_address}
use dnbd3_fuse_lowlevel.Image.{block_size}
use dnbd3_fuse_lowlevel.Uplink.{
  Status, free, new, pending, QueuedRequest, is_new, is_pending, same_client, is_none, Outcome,
  cycle, full, queued, enqueue,
}

-- The parts of `dnbd3_connection_t` that these functions use; `fd` is `none` for -1.
pub record Link : Type 0 where
  pub fd : Option ℕ
  pub version : ℕ
  pub current_server : Host
  pub shutdown : Bool
  pub cycle_detected : Bool
  pub queue : List QueuedRequest

pub record Client : Type 0 where
  pub id : ℕ
  pub host : Host

-- The arguments of `dnbd3_get_block`.
pub record BlockRequest : Type 0 where
  pub offset : ℕ
  pub size : ℕ
  pub handle : ℕ
  pub hops : ℕ

-- `COND_HOPCOUNT` of the hop count plus one, which stops at 200.
pub sent_hops : ℕ → ℕ → ℕ
sent_hops version hops = if leb 3 version then (if ltb hops 200 then hops + 1 else hops) else 0

-- The whole blocks around a request.
pub block_request : ℕ → ℕ → ℕ → ℕ → BlockRequest
unfolding sent_hops
block_request version from to hops = record {
  offset = align_down block_size from;
  size = cast32 (sub64 (align_up block_size to) (align_down block_size from));
  handle = align_down block_size from;
  hops = sent_hops version hops;
}

-- What `uplink_request` does: the link after it, its result, what it sent, and whether it woke up
-- the thread of the uplink.
pub record Done : Type 0 where
  pub link : Link
  pub ok : Bool
  pub sent : List BlockRequest
  pub woken : Bool

-- After a direct request: the entry is pending if it is still this one.
pub mark_sent : ℕ → ℕ → ℕ → List QueuedRequest → List QueuedRequest
mark_sent slot handle client queue = elim (get_elem? queue slot) [
  | none ↦ queue
  | some r ↦
      if (r.handle == handle) && (same_client r.client (some client) && is_new r.status)
      then set queue slot (record r { status = pending })
      else queue
]

-- `direct` is `none` if `mutex_trylock` fails, else the result that `dnbd3_get_block` would have.
pub send_direct : Link → ℕ → ℕ → ℕ → ℕ → ℕ → ℕ → Option Bool → Done
unfolding mark_sent block_request
send_direct link slot client handle start end hops direct = elim direct [
  | none ↦ record { link = link; ok = true; sent = []; woken = true }
  | some sent_ok ↦ elim link.fd [
    | none ↦ record { link = link; ok = true; sent = []; woken = true }
    | some fd ↦
        let message = block_request link.version start end hops in
        if sent_ok
        then record {
          link = record link { queue = mark_sent slot handle client link.queue };
          ok = true;
          sent = message ∷ [];
          woken = false;
        }
        else record { link = link; ok = true; sent = []; woken = true }
  ]
]

refused : Link → Done
refused link = record { link = link; ok = false; sent = []; woken = false }

cyclic : Link → Done
cyclic link = record {
  link = record link { cycle_detected = true };
  ok = false;
  sent = [];
  woken = true;
}

-- What follows the critical section of `uplink_request`.
pub after_enqueue : ℕ → ℕ → ℕ → ℕ → ℕ → Link → Option Bool → Outcome → Done
unfolding refused cyclic send_direct
after_enqueue client handle start end hops link direct cycle = cyclic link
after_enqueue client handle start end hops link direct full = refused link
after_enqueue client handle start end hops link direct (queued slot queue attached) =
    let link' = record link { queue = queue } in
    if attached
    then record { link = link'; ok = true; sent = []; woken = false }
    else send_direct link' slot client handle start end hops direct

-- `uplink_request` of a client with an image that has this uplink.
pub request : ℕ → Client → ℕ → ℕ → ℕ → ℕ → Link → Option Bool → Done
unfolding refused cyclic enqueue after_enqueue
request max_payload client handle start size hops link direct =
    if ltb max_payload size
    then refused link
    else if link.shutdown
    then refused link
    else if not (hops == 0) && is_same_address link.current_server client.host
    then cyclic link
    else after_enqueue client.id handle start (add64 start size) hops link direct
        (enqueue client.id handle start (add64 start size) hops link.queue)

-- `uplink_sendRequests` from slot `j` on, where `send_ok` says which calls of `dnbd3_get_block`
-- succeed: the queue, what was sent, and whether all went well.
pub send_requests :
    Bool → ℕ → (ℕ → Bool) → ℕ → List QueuedRequest → List QueuedRequest × List BlockRequest × Bool
unfolding block_request
send_requests new_only version send_ok j [] = ([], [], true)
send_requests new_only version send_ok j (r ∷ rs) =
    let (rest, sent, ok) = send_requests new_only version send_ok (j + 1) rs in
    if not (is_new r.status) && (new_only || not (is_pending r.status))
    then (r ∷ rest, sent, ok)
    else (let r' = record r { status = pending } in
        if send_ok j
        then (r' ∷ rest, block_request version r.from r.to r.hop_count ∷ sent, ok)
        else (r' ∷ rs, [], false))
