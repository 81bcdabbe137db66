-- ===== src/Net.antt =====
-- src/server/net.c: how a request for a block is answered.
pub mod Cached
pub mod Serve
mod Tests
use dnbd3_fuse_lowlevel.Prelude.{
  ℕ, zero, suc, ◌+◌, ◌-◌, ◌*◌, ◌/◌, ◌%◌, ◌^◌, List, Option, none, some, Bool, true, false, not,
  ◌&&◌, ◌||◌, ltb, leb, ◌==◌, if◌then◌else◌, get_or,
}
use dnbd3_fuse_lowlevel.Prelude.Bytes.{has_bit}
use dnbd3_fuse_lowlevel.Prelude.Words.{add64, sub64, cast32, align_down}
use dnbd3_fuse_lowlevel.Image.{Image, block_size}
use dnbd3_fuse_lowlevel.Image.CacheMap.{map_x}

-- Middle - quick checking: the bytes from `pos` to below `last` are 0xff. `false` without fuel.
pub middle_full : ℕ → ℕ → ℕ → List ℕ → Bool
middle_full zero pos last map = not (ltb pos last)
middle_full (suc fuel) pos last map =
    let rest = middle_full fuel (add64 pos 1) last map in
    if ltb pos last then (get_or map pos 0 == 0xff) && rest else true

-- First byte: `do … while ( firstByteInMap == (pos >> 15) && pos < end )`, at most eight rounds.
pub first_marked : ℕ → ℕ → ℕ → ℕ → List ℕ → Bool
first_marked zero first pos end map = false
first_marked (suc fuel) first pos end map =
    let next = add64 pos block_size in
    let rest = first_marked fuel first next end map in
    has_bit (get_or map first 0) (map_x pos)
    && (if (first == next / 2 ^ 15) && ltb next end then rest else true)

-- Last byte: `while ( pos < end )`, at most eight rounds.
pub last_marked : ℕ → ℕ → ℕ → ℕ → List ℕ → Bool
last_marked zero last pos end map = not (ltb pos end)
last_marked (suc fuel) last pos end map =
    let rest = last_marked fuel last (add64 pos block_size) end map in
    if ltb pos end then has_bit (get_or map last 0) (map_x pos) && rest else true

-- `isCached` of an image whose map is there, for the blocks from `start` to below `end`.
pub is_cached : List ℕ → ℕ → ℕ → Bool
is_cached map start end =
    let first = start / 2 ^ 15 in
    let last = sub64 end 1 / 2 ^ 15 in
    middle_full last (add64 first 1) last map
    && (first_marked 8 first start end map
        && (if first == last then true else last_marked 8 last (last * 2 ^ 15) end map))

-- What the handler does with a request.
pub data Answer : Type 0 where
  -- the reply `CMD_ERROR`
  refuse : Answer
  -- `uplink_request( client, handle, offset, size, hops )`
  relay : Answer
  -- the header, so many bytes of the file, and so many null bytes
  send : ℕ → ℕ → ℕ → Answer

-- `realBytes`, and the argument of `sendPadding`, which is not called at 0.
pub real_bytes : Image → ℕ → ℕ → ℕ
real_bytes image offset size =
    if leb (add64 offset size) image.real_filesize then size else sub64 image.real_filesize offset

pub padding : ℕ → ℕ → ℕ
padding size real = if ltb (cast32 real) size then size - cast32 real else 0

pub send_block : Image → ℕ → ℕ → Answer
unfolding real_bytes padding
send_block image offset size =
    if size == 0
    then send 0 0 0
    else send size (real_bytes image offset size) (padding size (real_bytes image offset size))

-- The blocks that a request touches are all cached, or the image is complete.
pub block_ready : Option (List ℕ) → ℕ → ℕ → Bool
unfolding is_cached
block_ready none offset size = true
block_ready (some map) offset size =
    let start = align_down block_size offset in
    let end = align_down block_size (add64 (add64 offset size) (block_size - 1)) in
    (size == 0) || is_cached map start end

-- `case CMD_GET_BLOCK`, for `offset_small` and `size` of the request.
pub get_block : Image → ℕ → ℕ → Answer
unfolding send_block block_ready
get_block image offset size =
    if leb image.virtual_filesize offset
    then refuse
    else if ltb image.virtual_filesize (add64 offset size)
    then refuse
    else if block_ready image.cache_map offset size
    then send_block image offset size
    else relay
