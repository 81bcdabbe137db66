-- ===== src/Image.antt =====
-- src/server/globals.h (`struct _dnbd3_image`), src/server/image.h and src/config.h: an image and its sizes.
pub mod CacheMap
use dnbd3_fuse_lowlevel.Prelude.{ℕ, ◌+◌, ◌-◌, ◌/◌, ◌*◌, ◌^◌, List, Option, Bool, none, some}
use dnbd3_fuse_lowlevel.Prelude.Words.{cast32, add64}

-- `DNBD3_BLOCK_SIZE`, and what one byte of a cache map and one checksum stand for.
abbrev pub block_size : ℕ
block_size = 4096

abbrev pub map_byte_size : ℕ
map_byte_size = 2 ^ 15

abbrev pub hash_block_size : ℕ
hash_block_size = 2 ^ 24

-- `IMGSIZE_TO_MAPBYTES`
abbrev pub map_bytes : ℕ → ℕ
map_bytes bytes = cast32 (add64 bytes (2 ^ 15 - 1) / 2 ^ 15)

-- `IMGSIZE_TO_HASHBLOCKS`
abbrev pub hash_blocks : ℕ → ℕ
hash_blocks bytes = cast32 (add64 bytes (hash_block_size - 1) / hash_block_size)

-- The fields that the operations on the cache map use. A null pointer is `none`.
pub record Image : Type 0 where
  pub cache_map : Option (List ℕ)
  pub virtual_filesize : ℕ
  pub real_filesize : ℕ
  pub next_completeness_estimate : ℕ
  pub crc32 : Option (List ℕ)
  pub completeness_estimate : ℕ
  pub working : Bool
