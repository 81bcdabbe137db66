-- ===== src/Image/CacheMap.antt =====
-- src/server/image.c: the cache map of an image, one bit for each block of 4 KiB.
-- An access out of the map's range reads 0 and writes nothing; `Bounds` rules it out.
mod Tests
pub mod Blocks
pub mod Update
pub mod Checks
pub mod Complete
pub mod Estimate
use dnbd3_fuse_lowlevel.Prelude.{
  ℕ, zero, suc, ◌+◌, ◌-◌, ◌*◌, ◌/◌, ◌%◌, ◌^◌, List, [], ◌∷◌, Option, none, some, Bool, true, false,
  not, ◌&&◌, ◌||◌, ltb, leb, ◌==◌, if◌then◌else◌, get_or, set, replicate,
}
use dnbd3_fuse_lowlevel.Prelude.Bytes.{has_bit, with_bit, without_bit, low_mask}
use Prim.Native.Nat.{bit_and}
use dnbd3_fuse_lowlevel.Prelude.Words.{cast32, add64, align_down, align_up}
use dnbd3_fuse_lowlevel.Image.{Image, block_size, hash_block_size, map_byte_size, map_bytes}

-- The byte and the bit of a position: `pos >> 15` and `(pos >> 12) & 7`.
abbrev pub map_x : ℕ → ℕ
map_x pos = pos / 2 ^ 12 % 8

-- One round of the loop of `image_updateCachemap`: the map, and `setNewBlocks`.
pub mark_block : Bool → ℕ → List ℕ × Bool → List ℕ × Bool
mark_block true pos (map, new) =
    let y = cast32 (pos / 2 ^ 15) in
    let byte = get_or map y 0 in
    (set map y (with_bit byte (map_x pos)), new || not (has_bit byte (map_x pos)))
mark_block false pos (map, new) =
    let y = cast32 (pos / 2 ^ 15) in (set map y (without_bit (get_or map y 0) (map_x pos)), new)

-- `while ( pos < end )`, with fuel for the rounds.
pub mark_blocks : ℕ → Bool → ℕ → ℕ → List ℕ × Bool → List ℕ × Bool
mark_blocks zero setting pos end st = st
mark_blocks (suc fuel) setting pos end st =
    let rest = mark_blocks fuel setting (add64 pos block_size) end (mark_block setting pos st) in
    if ltb pos end then rest else st

-- `n` bytes from index `i` on are 0xff.
pub all_full : ℕ → ℕ → List ℕ → Bool
all_full zero i map = true
all_full (suc n) i map = (get_or map i 0 == 0xff) && all_full n (i + 1) map

-- The bits of the blocks from `pos` to below `end`; `false` also if the fuel runs out.
pub all_marked : ℕ → ℕ → ℕ → List ℕ → Bool
all_marked zero pos end map = not (ltb pos end)
all_marked (suc fuel) pos end map =
    let rest = all_marked fuel (add64 pos block_size) end map in
    if ltb pos end then has_bit (get_or map (pos / 2 ^ 15) 0) (map_x pos) && rest else true

-- `image_isHashBlockComplete`. A hash block has 4096 blocks, so the loop has that many rounds.
pub is_hash_block_complete : Option (List ℕ) → ℕ → ℕ → Bool
unfolding all_full all_marked
is_hash_block_complete none block real = true
is_hash_block_complete (some map) block real =
    let end = add64 block 1 * hash_block_size % 2 ^ 64 in
    if leb end real
    then all_full (hash_block_size / (block_size * 8))
        (cast32 (block * hash_block_size % 2 ^ 64 / (block_size * 8))) map
    else all_marked 4096 (block * hash_block_size % 2 ^ 64) real map

-- The hash blocks from `pos` to below `end` that are handed to `integrity_check`, in order.
pub queue_hash_blocks : ℕ → ℕ → ℕ → Option (List ℕ) → ℕ → List ℕ
queue_hash_blocks zero pos end map real = []
queue_hash_blocks (suc fuel) pos end map real =
    let rest = queue_hash_blocks fuel (add64 pos hash_block_size) end map real in
    let block = cast32 (pos / hash_block_size) in
    if ltb pos end
    then (if is_hash_block_complete map block real then block ∷ rest else rest)
    else []

-- From `setNewBlocks && image->crc32 != NULL` on. The lock is dropped during `integrity_check`;
-- no other thread changes the map here.
pub queue_checks : Option (List ℕ) → Bool → ℕ → ℕ → Image → List ℕ
queue_checks none new start end image = []
queue_checks (some _) false start end image = []
queue_checks (some _) true start end image =
    let end' = align_up hash_block_size end in
    queue_hash_blocks (end' / hash_block_size) (align_down hash_block_size start) end'
      image.cache_map image.real_filesize

-- The map that the loop starts from; `none` where a complete image is set as cached.
pub map_to_change : Option (List ℕ) → Bool → ℕ → Option (List ℕ)
map_to_change (some map) setting size = some map
map_to_change none true size = none
map_to_change none false size = some (replicate (map_bytes size) 0xff)

-- `image_updateCachemap` behind its asserts: the image, and the hash blocks to check.
pub change_range : Image → ℕ → ℕ → Bool → Image × List ℕ
change_range image start end setting =
    if leb end start
    then (image, [])
    else elim (map_to_change image.cache_map setting image.virtual_filesize) [
      | none ↦ (image, [])
      | some map ↦
          let (map', new) = mark_blocks (end / block_size) setting start end (map, false) in
          let image' = record image { cache_map = some map' } in
          (image', queue_checks image.crc32 new start end image')
    ]

-- `image_updateCachemap`; `none` is a failed assert.
pub update_cachemap : Image → ℕ → ℕ → Bool → Option (Image × List ℕ)
update_cachemap image start end setting =
    if leb end image.virtual_filesize && leb start end
    then (if setting
        then some (change_range image (align_up block_size start) (align_down block_size end) true)
        else some
            (change_range image (align_down block_size start) (align_up block_size end) false))
    else none

-- The mask for the last byte of the map.
pub last_byte : ℕ → ℕ
last_byte size = let blocks = size / 2 ^ 12 % 8 in if blocks == 0 then 0xff else low_mask blocks

map_complete : List ℕ → ℕ → Bool
unfolding all_full last_byte
map_complete map size =
    let len = map_bytes size in
    all_full (len - 1) 0 map
    && (bit_and (get_or map (len - 1) 0) (last_byte size) == last_byte size)

-- `image_isComplete`: the image, the result, and whether the map file is unlinked.
pub is_complete : Image → Image × Bool × Bool
unfolding map_complete
is_complete image =
    if image.virtual_filesize == 0 then (image, false, false) else elim image.cache_map [
      | none ↦ (image, true, false)
      | some map ↦
          if map_complete map image.virtual_filesize
          then (record image { cache_map = none }, true, true)
          else (image, false, false)
    ]

-- The sum over the first `n` bytes from index `i` on.
pub percent_sum : ℕ → ℕ → List ℕ → ℕ
percent_sum zero i map = 0
percent_sum (suc n) i map =
    let byte = get_or map i 0 in
    let here : ℕ = if byte == 0xff then 100 else if byte == 0 then 0 else 50 in
    here + percent_sum n (i + 1) map

-- `image_getCompletenessEstimate` at the time `now`; `wait` is `8 + rand() % 32`. It is `none` if the
-- `int` of the sum overflows.
pub completeness_estimate : Image → ℕ → ℕ → Option (Image × ℕ)
completeness_estimate image now wait = elim image.cache_map [
  | none ↦ some (image, if image.working then 100 else 0)
  | some map ↦
      if not (leb image.next_completeness_estimate now)
      then some (image, image.completeness_estimate)
      else let len = map_bytes image.virtual_filesize in
        let sum = percent_sum len 0 map in
        if len == 0
        then some (image, 0)
        else if leb (2 ^ 31) sum
        then none
        else some (
          record image {
            completeness_estimate = sum / len;
            next_completeness_estimate = now + wait;
          },
          sum / len,
        )
]
