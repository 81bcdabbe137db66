-- ===== src/Uplink/Receive.antt =====
-- src/server/uplink.c: `uplink_handleReceive`, with the cache file as the set of its bytes that were
-- written. What reading the socket and `pwrite` give is a list of results; no results are left where
-- the run is cut off.
pub mod Loop
pub mod Outside
pub mod Store
mod Tests
use dnbd3_fuse_lowlevel.Prelude.{
  ℕ, zero, suc, ◌+◌, ◌-◌, ◌*◌, ◌/◌, ◌%◌, ◌^◌, List, [], ◌∷◌, ◌++◌, Option, none, some, Bool, true,
  false, not, ◌&&◌, ◌||◌, ltb, leb, ◌==◌, if◌then◌else◌,
}
use dnbd3_fuse_lowlevel.Prelude.Words.{add64, cast32}
use dnbd3_fuse_lowlevel.Image.{Image, map_byte_size}
use dnbd3_fuse_lowlevel.Image.CacheMap.{update_cachemap}
use dnbd3_fuse_lowlevel.Uplink.{QueuedRequest, Reply, handle_reply, is_none, is_empty, same_client}
use dnbd3_fuse_lowlevel.Uplink.Link.{BlockRequest}
use dnbd3_fuse_lowlevel.Uplink.Replication.{
  Mode, is_full, hash_start, Replication, send_replication_request,
}

-- A result of `pwrite`: a number of bytes, EINTR, no space, a bad descriptor, or another error. The
-- flags say whether space was made free, and whether the file was opened again.
pub data Write : Type 0 where
  wrote : ℕ → Write
  interrupted failed : Write
  no_space : Bool → Write
  bad_file : Bool → Write

abbrev pub store : (ℕ → Bool) → ℕ → ℕ → ℕ → Bool
store stored from n b = stored b || (leb from b && ltb b (from + n))

-- `while ( done < inReply.size )`: the bytes done, and the cache file.
pub write_loop : ℕ → ℕ → Bool → ℕ → (ℕ → Bool) → List Write → ℕ × (ℕ → Bool)
write_loop start size try_again done stored [] = (done, stored)
write_loop start size try_again done stored (interrupted ∷ ws) =
    let rest = write_loop start size try_again done stored ws in
    if not (ltb done size) then (done, stored) else rest
write_loop start size try_again done stored (failed ∷ ws) = (done, stored)
write_loop start size try_again done stored (no_space freed ∷ ws) =
    let rest = write_loop start size false done stored ws in
    if not (ltb done size) || (not try_again || not freed) then (done, stored) else rest
write_loop start size try_again done stored (bad_file reopened ∷ ws) =
    let rest = write_loop start size false done stored ws in
    if not (ltb done size) || (not try_again || not reopened) then (done, stored) else rest
write_loop start size try_again done stored (wrote n ∷ ws) =
    let rest = write_loop start size try_again (done + n) (store stored (start + done) n) ws in
    if not (ltb done size) || ((n == 0) || ltb (size - done) n) then (done, stored) else rest

-- What the function changes.
pub record Receiver : Type 0 where
  pub queue : List QueuedRequest
  pub image : Image
  pub replication : Replication
  pub idle_time : ℕ
  pub stored : ℕ → Bool

-- 1) Write to cache file, if it is open; `none` is a failed assert.
pub cache_block : ℕ → ℕ → Bool → List Write → Receiver → Option Receiver
unfolding write_loop
cache_block start size false writes r = some r
cache_block start size true writes r =
    let (done, stored) = write_loop start size true 0 r.stored writes in
    if ltb 0 done
    then elim (update_cachemap r.image start (add64 start done) true) [
      | none ↦ none
      | some (image, checks) ↦ some (record r { image = image; stored = stored })
    ]
    else some (record r { stored = stored })

-- What follows the dispatch to the clients.
pub after_dispatch : ℕ → Bool → Replication → Replication
after_dispatch start served rep = record {
  next_index =
      if served && is_none rep.next_index
      then some (hash_start (cast32 (start / map_byte_size)))
      else rep.next_index;
  replicated_last = rep.replicated_last;
  handle = if same_client rep.handle (some start) then none else rep.handle;
}

-- A reply CMD_GET_BLOCK whose payload is read: the state, and what is sent to clients; `none` is a
-- failed assert.
pub receive_block : ℕ → ℕ → Bool → List Write → Receiver → Option (Receiver × List Reply)
unfolding cache_block after_dispatch
receive_block start size cache_ok writes r = elim (cache_block start size cache_ok writes r) [
  | none ↦ none
  | some r' ↦ elim (handle_reply start (add64 start size) r'.queue) [
    | none ↦ none
    | some (queue, replies) ↦
        let served = not (is_empty replies) in
        some (
          record r' {
            queue = queue;
            replication = after_dispatch start served r'.replication;
            idle_time = if served then 0 else r'.idle_time;
          },
          replies,
        )
  ]
]

-- What comes from the socket: a block, another message, nothing more for now, or an error, which may
-- also be a wrong magic number, too much payload, or the end of the connection.
pub data Incoming : Type 0 where
  block : ℕ → ℕ → Bool → List Write → Incoming
  other nothing broken : Incoming

-- `uplink_connectionFailed`, as far as replication goes.
pub connection_failed : Mode → Replication → Replication
connection_failed mode rep = record {
  next_index = if is_full mode && is_none rep.next_index then some 0 else rep.next_index;
  replicated_last = rep.replicated_last;
  handle = none;
}

-- The end of a run without error: a free line is used for replication, which `send` stands for.
pub end_run :
    (Image → Replication → Replication × Option BlockRequest)
    → Receiver
    → Receiver × Option BlockRequest
end_run send r =
    if is_none r.replication.handle && is_empty r.queue
    then (let (rep, message) = send r.image r.replication in
        (record r { replication = rep }, message))
    else (r, none)

-- `uplink_handleReceive`: the state, what is sent to clients, the replication request, and whether
-- the connection is still good.
pub handle_receive :
    Mode
    → ℕ
    → (Image → Replication → Replication × Option BlockRequest)
    → List Incoming
    → Receiver
    → Option (Receiver × List Reply × Option BlockRequest × Bool)
unfolding receive_block connection_failed end_run
handle_receive mode max_payload send [] r = some (r, [], none, true)
handle_receive mode max_payload send (nothing ∷ more) r =
    let (r', message) = end_run send r in some (r', [], message, true)
handle_receive mode max_payload send (broken ∷ more) r =
    some (record r { replication = connection_failed mode r.replication }, [], none, false)
handle_receive mode max_payload send (other ∷ more) r = handle_receive mode max_payload send more r
handle_receive mode max_payload send (block start size cache_ok writes ∷ more) r =
    if ltb max_payload size
    then some (record r { replication = connection_failed mode r.replication }, [], none, false)
    else elim (receive_block start size cache_ok writes r) [
      | none ↦ none
      | some (r', replies) ↦ elim (handle_receive mode max_payload send more r') [
        | none ↦ none
        | some (r'', later, message, good) ↦ some (r'', replies ++ later, message, good)
      ]
    ]
