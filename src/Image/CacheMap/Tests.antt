-- ===== src/Image/CacheMap/Tests.antt =====
-- Concrete images: the cache map's operations evaluated, and the theorems at inputs.
use dnbd3_fuse_lowlevel.Prelude.{
  ℕ, zero, suc, ◌*◌, ◌≤◌, ◌<◌, ◌≡◌, ◌↔◌, ◌⊎◌, refl, List, [], ◌∷◌, none, some, true, false, not,
  ◌&&◌, ◌||◌, ltb, leb, arith, elem,
}
use dnbd3_fuse_lowlevel.Prelude.Bytes.{AllBytes, has_bit, with_bit, without_bit}
use dnbd3_fuse_lowlevel.Image.{Image}
use dnbd3_fuse_lowlevel.Image.CacheMap.{
  update_cachemap, is_hash_block_complete, is_complete, change_range, mark_blocks, mark_block,
  queue_checks, queue_hash_blocks, map_to_change,
}
use dnbd3_fuse_lowlevel.Image.CacheMap.Blocks.{cached, Covers}
use dnbd3_fuse_lowlevel.Image.CacheMap.Update.{
  IsValid, image_cached, update_cachemap-set, update_cachemap-clear,
}
use dnbd3_fuse_lowlevel.Image.CacheMap.Checks.{update_cachemap-checks}
use dnbd3_fuse_lowlevel.Image.CacheMap.Complete.{
  AllCached, is_hash_block_complete_iff, is_complete_lem,
}

-- Ten blocks, of which 0, 1 and 8 are cached.
abbrev map : List ℕ
map = 3 ∷ 1 ∷ []

abbrev image : Image
image = record {
  cache_map = some map;
  virtual_filesize = 40960;
  real_filesize = 40000;
  next_completeness_estimate = 5;
  crc32 = some (7 ∷ []);
  completeness_estimate = 0;
  working = true;
}

map-AllBytes : AllBytes map
map-AllBytes zero = omega arith
map-AllBytes (suc zero) = omega arith
map-AllBytes (suc (suc i)) = omega arith

map-Covers : Covers map 10
map-Covers = record { bytes = map-AllBytes; long = omega arith; small = omega arith }

image-IsValid : IsValid image
image-IsValid = record { whole = refl; small = omega arith; covers = map-Covers }

-- Bytes 4096 to 12400 hold blocks 1 and 2 only, and reach into blocks 1, 2 and 3.
set_run :
    update_cachemap image 4096 12400 true
    ≡ some (record image { cache_map = some (7 ∷ 1 ∷ []) }, [])
unfolding update_cachemap change_range mark_blocks mark_block map_to_change queue_checks
    queue_hash_blocks has_bit with_bit without_bit is_hash_block_complete
set_run = refl

clear_run :
    update_cachemap image 4097 4097 false
    ≡ some (record image { cache_map = some (1 ∷ 1 ∷ []) }, [])
unfolding update_cachemap change_range mark_blocks mark_block map_to_change queue_checks
    queue_hash_blocks has_bit with_bit without_bit is_hash_block_complete
clear_run = refl

update_cachemap-set_example :
    (image' : Image) × (checks : List ℕ) × (update_cachemap image 4096 12400 true
      ≡ some (image', checks))
    × (image' ≡ record image { cache_map = image'.cache_map })
    × IsValid image'
    × ((k : ℕ)
        → k < 10
        → image_cached image' k
          ≡ (image_cached image k || (leb 4096 (4096 * k) && leb (4096 * suc k) 12400)))
update_cachemap-set_example =
    update_cachemap-set image 4096 12400 image-IsValid (omega arith) (omega arith)

update_cachemap-clear_example :
    (image' : Image) × (checks : List ℕ) × (update_cachemap image 4096 12400 false
      ≡ some (image', checks))
    × (image' ≡ record image { cache_map = image'.cache_map })
    × IsValid image'
    × ((k : ℕ)
        → k < 10
        → image_cached image' k
          ≡ (image_cached image k && not (ltb 4096 (4096 * suc k) && ltb (4096 * k) 12400)))
update_cachemap-clear_example =
    update_cachemap-clear image 4096 12400 image-IsValid (omega arith) (omega arith)

update_cachemap-checks_example :
    (image' : Image) × (checks : List ℕ) × (update_cachemap image 0 40960 true
      ≡ some (image', checks))
    × (AllCached map 0 10 → checks ≡ [])
    × ((k b : ℕ)
        → 0 ≤ k
        → k < 10
        → cached map k ≡ false
        → elem b checks ≡ (leb 0 b && ltb b 1 && is_hash_block_complete image'.cache_map b 40000))
update_cachemap-checks_example =
    update_cachemap-checks image map (7 ∷ []) 0 40960 0 10 image-IsValid refl refl (omega arith)
      (omega arith) refl refl (omega arith)

is_hash_block_complete_example :
    (is_hash_block_complete (some map) 0 40000 ≡ true)
    ↔ ((k : ℕ) → 0 ≤ k → k < 4096 → 4096 * k < 40000 → cached map k ≡ true)
is_hash_block_complete_example = is_hash_block_complete_iff map 0 40000 map-Covers (omega arith)

is_complete_example :
    ((is_complete image ≡ (record image { cache_map = none }, true, true)) × AllCached map 0 10)
    ⊎ ((is_complete image ≡ (image, false, false)) × ¬ (AllCached map 0 10))
is_complete_example = is_complete_lem image map refl map-Covers refl (omega arith)
