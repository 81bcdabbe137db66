-- ===== src/Uplink/Replication.antt =====
-- src/server/uplink.c: background replication. An index into the cache map is a number, -1 is `none`.
pub mod Empty
pub mod Next
pub mod Request
mod Tests
use dnbd3_fuse_lowlevel.Prelude.{
  ℕ, zero, suc, ◌+◌, ◌-◌, ◌*◌, ◌/◌, ◌%◌, ◌^◌, min, List, [], ◌∷◌, Option, none, some, Bool, true,
  false, not, ◌&&◌, ◌||◌, ltb, leb, ◌==◌, if◌then◌else◌, get_or,
}
use dnbd3_fuse_lowlevel.Prelude.Words.{cast32, sub64}
use dnbd3_fuse_lowlevel.Image.{Image, block_size, map_byte_size, map_bytes}
use dnbd3_fuse_lowlevel.Uplink.{is_none}
use dnbd3_fuse_lowlevel.Uplink.Link.{BlockRequest}

-- `BGR_DISABLED`, `BGR_FULL` and `BGR_HASHBLOCK`
pub data Mode : Type 0 where
  disabled full hash_block : Mode

abbrev pub is_disabled : Mode → Bool
is_disabled disabled = true
is_disabled _ = false

abbrev pub is_full : Mode → Bool
is_full full = true
is_full _ = false

abbrev pub is_hash_block : Mode → Bool
is_hash_block hash_block = true
is_hash_block _ = false

-- `MAP_BYTES_PER_HASH_BLOCK`, and `x & MAP_INDEX_HASH_START_MASK`
abbrev pub bytes_per_hash_block : ℕ
bytes_per_hash_block = 512

abbrev pub hash_start : ℕ → ℕ
hash_start x = x / 512 * 512

-- The loop of `uplink_sendReplicationRequest`, from `j` on with `n` rounds to go.
pub find_byte : ℕ → ℕ → ℕ → Bool → List ℕ → Option ℕ
find_byte zero j len replicated map = none
find_byte (suc n) j len replicated map =
    let rest = find_byte n (j + 1) len replicated map in
    let i = j % len in
    if not (get_or map i 0 == 0xff) && (not (i == len - 1) || not replicated) then some i else rest

abbrev pub is_full_byte : List ℕ → ℕ → Bool → ℕ → Bool
is_full_byte map len replicated i = (get_or map i 0 == 0xff) || ((i + 1 == len) && replicated)

abbrev pub is_empty_byte : List ℕ → ℕ → Bool
is_empty_byte map i = get_or map i 0 == 0

abbrev pub or_else : Option ℕ → ℕ → Option ℕ
or_else none i = some i
or_else (some r) i = some r

-- The loop of `uplink_findNextIncompleteHashBlock`, from `j` on with `n` rounds to go.
pub next_loop : ℕ → ℕ → ℕ → ℕ → Bool → List ℕ → Option ℕ → Option ℕ
next_loop zero j start len replicated map retval = none
next_loop (suc n) j start len replicated map retval =
    let i = (start + j) % len in
    let full = is_full_byte map len replicated i in
    let empty = is_empty_byte map i in
    let crossed = hash_start i == i in
    let rest =
      next_loop n (j + 1) start len replicated map
        (if crossed then (if empty then some i else none) else retval) in
    if not empty && not full
    then or_else retval i
    else if crossed
    then rest
    else if full
    then (if is_none retval then rest else retval)
    else if is_none retval
    then some i
    else rest

-- `uplink_findNextIncompleteHashBlock`
pub find_next_incomplete_hash_block : Option (List ℕ) → ℕ → Bool → ℕ → Option ℕ
unfolding next_loop
find_next_incomplete_hash_block none size replicated index = none
find_next_incomplete_hash_block (some map) size replicated index =
    next_loop (map_bytes size) 0 (hash_start index) (map_bytes size) replicated map none

-- `nextReplicationIndex`, `replicatedLastBlock` and `replicationHandle` of the link, `none` being
-- `REP_NONE`.
pub record Replication : Type 0 where
  pub next_index : Option ℕ
  pub replicated_last : Bool
  pub handle : Option ℕ

-- `endByte`
abbrev pub end_byte : Mode → ℕ → ℕ → ℕ
end_byte mode next len =
    if is_full mode then next + len else min (hash_start (next + bytes_per_hash_block)) len

-- `replicationIndex` before the request is made.
pub replication_index : Mode → List ℕ → ℕ → Bool → ℕ → Option ℕ
unfolding find_byte find_next_incomplete_hash_block
replication_index mode map size replicated next =
    let len = map_bytes size in
    let end = end_byte mode next len in
    let found = find_byte (end - next) next len replicated map in
    if is_none found && is_hash_block mode
    then find_next_incomplete_hash_block (some map) size replicated end
    else found

-- The request for 32 KiB, or what is left of the image.
pub replication_request : ℕ → ℕ → ℕ → BlockRequest
replication_request version size i =
    let offset = i * map_byte_size % 2 ^ 64 in
    record {
      offset = offset;
      size = cast32 (min (sub64 size offset) map_byte_size);
      handle = offset;
      hops = if leb 3 version then 1 else 0;
    }

-- What follows a request that was sent for the byte `i` of the map.
pub after_request : Mode → List ℕ → ℕ → ℕ → Replication → Replication
unfolding find_next_incomplete_hash_block
after_request mode map size i rep =
    let last = rep.replicated_last || (i == map_bytes size - 1) in
    record {
      next_index =
          if is_hash_block mode && ((i + 1) % bytes_per_hash_block == 0)
          then find_next_incomplete_hash_block (some map) size last (i + 1)
          else some (i + 1);
      replicated_last = last;
      handle = some (i * map_byte_size % 2 ^ 64);
    }

-- The request for a byte of the map, where `ok` is the result of `dnbd3_get_block`.
pub replicate_byte :
    Mode → ℕ → Bool → List ℕ → ℕ → Replication → Option ℕ → Replication × Option BlockRequest
unfolding after_request replication_request
replicate_byte mode version ok map size rep none = (record rep { next_index = none }, none)
replicate_byte mode version ok map size rep (some i) =
    let message = replication_request version size i in
    if ok
    then (after_request mode map size i rep, some message)
    else (record rep { handle = some message.offset }, none)

-- `uplink_sendReplicationRequest`: `connected` says that the link has a socket and a cache file, and
-- `users` is the number of users of the image.
pub send_replication_request :
    Mode → ℕ → Bool → ℕ → ℕ → Bool → Image → Replication → Replication × Option BlockRequest
unfolding replicate_byte replication_index
send_replication_request mode min_clients connected users version ok image rep =
    if not connected
      || (is_disabled mode
          || (not (is_none rep.handle)
              || (ltb image.virtual_filesize block_size || ltb users min_clients)))
    then (rep, none)
    else elim rep.next_index [
      | none ↦ (rep, none)
      | some next ↦ elim image.cache_map [
        | none ↦ (rep, none)
        | some map ↦
            replicate_byte mode version ok map image.virtual_filesize rep
              (replication_index mode map image.virtual_filesize rep.replicated_last next)
      ]
    ]
