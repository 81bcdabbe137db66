-- ===== src/Image/CacheMap/Update.antt =====
-- src/server/image.c: what `image_updateCachemap` does to the set of cached blocks.
use dnbd3_fuse_lowlevel.Prelude.{
  ℕ, zero, suc, ◌+◌, ◌*◌, ◌/◌, ◌^◌, ◌≤◌, ◌<◌, ◌≡◌, inl, inr, refl, List, Option, none, some, Bool,
  true, false, not, ◌&&◌, ◌||◌, ltb, leb, if◌then◌else◌, get_or, replicate, length-replicate, arith,
  Option-cases,
}
use native.Mathlib.Decide.{dec_lt}
use dnbd3_fuse_lowlevel.Prelude.Bytes.{AllBytes}
use dnbd3_fuse_lowlevel.Prelude.Words.{align_down, align_up}
use dnbd3_fuse_lowlevel.Image.{Image, block_size, map_bytes}
use dnbd3_fuse_lowlevel.Image.CacheMap.{change_range, update_cachemap, map_to_change}
use dnbd3_fuse_lowlevel.Image.CacheMap.Blocks.{
  cached_full, cached, Covers, cached-mark_blocks, mark_blocks-Covers,
}

-- Block `k` of an image counts as cached if the image has no map, being complete.
abbrev pub map_cached : Option (List ℕ) → ℕ → Bool
map_cached none k = true
map_cached (some map) k = cached map k

abbrev pub image_cached : Image → ℕ → Bool
image_cached image k = map_cached image.cache_map k

abbrev pub MapCovers : Option (List ℕ) → ℕ → Type 0
MapCovers none n = Unit {0}
MapCovers (some map) n = Covers map n

-- An image of a whole number of blocks, at most 2 ^ 34 of them, that its map covers.
pub record IsValid (image : Image) : Type 0 where
  pub whole : 4096 * (image.virtual_filesize / 4096) ≡ image.virtual_filesize
  pub small : image.virtual_filesize / 4096 ≤ 2 ^ 34
  pub covers : MapCovers image.cache_map (image.virtual_filesize / 4096)

get_or-replicate : (n i : ℕ) → i < n → get_or {A = ℕ} (replicate n 0xff) i 0 ≡ 0xff
get_or-replicate zero i h = elim h [ ]
get_or-replicate (suc n) zero h = refl
get_or-replicate (suc n) (suc i) h = get_or-replicate n i (omega arith)

replicate-AllBytes : (n : ℕ) → AllBytes (replicate n 0xff)
replicate-AllBytes zero i = omega arith
replicate-AllBytes (suc n) zero = omega arith
replicate-AllBytes (suc n) (suc i) = replicate-AllBytes n i

fresh-Covers :
    (size : ℕ) → size / 4096 ≤ 2 ^ 34 → Covers (replicate (map_bytes size) 0xff) (size / 4096)
fresh-Covers size h = record {
  bytes = replicate-AllBytes (map_bytes size);
  long = omega (arith, length-replicate {0} {A = ℕ} (map_bytes size) 0xff);
  small = h;
}

fresh-cached :
    (size k : ℕ)
    → size / 4096 ≤ 2 ^ 34
    → k < size / 4096
    → cached (replicate (map_bytes size) 0xff) k ≡ true
fresh-cached size k h lt = cached_full _ k (get_or-replicate (map_bytes size) (k / 8) (omega arith))

-- What `map_to_change` yields has the image's cached blocks.
map_to_change-cached :
    (map : Option (List ℕ)) (setting : Bool) (size : ℕ) (m : List ℕ)
    → size / 4096 ≤ 2 ^ 34
    → MapCovers map (size / 4096)
    → map_to_change map setting size ≡ some m
    → Covers m (size / 4096) × ((k : ℕ) → k < size / 4096 → cached m k ≡ map_cached map k)
unfolding map_to_change
map_to_change-cached (some map) setting size m h c e =
    let p : map ≡ m = ground arith in (rw (← p) c, λ k lt. rw p)
map_to_change-cached none true size m h c e = cc
map_to_change-cached none false size m h c e =
    let p : replicate (map_bytes size) 0xff ≡ m = ground arith in
    (rw (← p) (fresh-Covers size h), λ k lt. rw (← p) (fresh-cached size k h lt))

no_change :
    (map : Option (List ℕ)) (setting : Bool) (size : ℕ)
    → map_to_change map setting size ≡ none
    → (map ≡ none) × (setting ≡ true)
unfolding map_to_change
no_change (some map) setting size e = cc
no_change none true size e = (refl, refl)
no_change none false size e = cc

-- `change_range` on block borders: the blocks from `i` to below `j` get the value `setting`, unless
-- there is no map and `setting` is true; no other block of the image changes, and it stays valid.
change_range-image_cached :
    (image : Image) (setting : Bool) (i j : ℕ)
    → IsValid image
    → j ≤ image.virtual_filesize / 4096
    → let image' = (change_range image (4096 * i) (4096 * j) setting).0 in
      IsValid image'
      × ((k : ℕ)
          → k < image.virtual_filesize / 4096
          → image_cached image' k ≡ (if leb i k && ltb k j then setting else image_cached image k))
unfolding change_range
change_range-image_cached image setting i j v h = elim (dec_lt i j) [
  | no ge ↦
      let test : leb (4096 * j) (4096 * i) ≡ true = ground arith in
      rw (test, change_range) (v, λ k lt. ground arith)
  | yes lt ↦ elim (Option-cases (map_to_change image.cache_map setting image.virtual_filesize)) [
    | inl e ↦ unchanged e lt
    | inr (m, e) ↦ changed m e lt
  ]
]
  where
    n : ℕ
    n = image.virtual_filesize / 4096

    test : i < j → leb (4096 * j) (4096 * i) ≡ false
    test lt = ground arith

    Goal : Image → Type 0
    Goal image' =
        IsValid image'
        × ((k : ℕ)
            → k < n
            → image_cached image' k
              ≡ (if leb i k && ltb k j then setting else image_cached image k))

    unchanged :
        map_to_change image.cache_map setting image.virtual_filesize ≡ none
        → i < j
        → Goal (change_range image (4096 * i) (4096 * j) setting).0
    unchanged e lt =
        rw (test lt, change_range)
          (rw (e, change_range)
            (v, λ k lt. ground (arith, no_change image.cache_map setting image.virtual_filesize e)))

    changed :
        (m : List ℕ)
        → map_to_change image.cache_map setting image.virtual_filesize ≡ some m
        → i < j
        → Goal (change_range image (4096 * i) (4096 * j) setting).0
    changed m e lt =
        let (c, old) =
          map_to_change-cached image.cache_map setting image.virtual_filesize m v.small v.covers
            e in
        rw (test lt, change_range)
          (rw (e, change_range)
            (
              record {
                whole = v.whole;
                small = v.small;
                covers = mark_blocks-Covers _ setting i j n (m, false) c h;
              },
              λ k lt.
                  rw
                    (cached-mark_blocks (4096 * j / 4096) setting i j n k (m, false) c h
                      (omega arith))
                    (rw (old k lt) refl),
            ))

change_range-frame :
    (image : Image) (start end : ℕ) (setting : Bool)
    → let image' = (change_range image start end setting).0 in
      image' ≡ record image { cache_map = image'.cache_map }
unfolding change_range
change_range-frame image start end setting = ground arith

-- A call that sets the bytes from `start` to below `end` of a valid image as cached, with
-- `start ≤ end` inside the image, fails no assert and leaves a valid image, in which a block is
-- cached exactly if it was, or lies whole between `start` and `end`. Only the map changes.
pub update_cachemap-set :
    (image : Image) (start end : ℕ)
    → IsValid image
    → start ≤ end
    → end ≤ image.virtual_filesize
    → (image' : Image) × (checks : List ℕ) × (update_cachemap image start end true
        ≡ some (image', checks))
      × (image' ≡ record image { cache_map = image'.cache_map })
      × IsValid image'
      × ((k : ℕ)
          → k < image.virtual_filesize / 4096
          → image_cached image' k
            ≡ (image_cached image k || (leb start (4096 * k) && leb (4096 * suc k) end)))
unfolding update_cachemap
update_cachemap-set image start end v le inside =
    let i = (start + 4095) / 4096 in
    let j = end / 4096 in
    let down : align_down block_size end ≡ 4096 * j = omega arith in
    let up : align_up block_size start ≡ 4096 * i = omega (arith, v.small, v.whole) in
    let (valid, all) = change_range-image_cached image true i j v (omega arith) in
    let test : leb end image.virtual_filesize ≡ true = ground arith in
    let order : leb start end ≡ true = ground arith in
    (
      (change_range image (4096 * i) (4096 * j) true).0,
      (change_range image (4096 * i) (4096 * j) true).1,
      rw (test, order, up, down) refl,
      change_range-frame image _ _ _,
      valid,
      λ k lt. rw (all k lt) (ground arith),
    )

-- A call that marks the bytes from `start` to below `end` as not cached takes out exactly the
-- blocks that reach into the range from `start` to `end`, and keeps the others.
-- Only the map of the image changes.
pub update_cachemap-clear :
    (image : Image) (start end : ℕ)
    → IsValid image
    → start ≤ end
    → end ≤ image.virtual_filesize
    → (image' : Image) × (checks : List ℕ) × (update_cachemap image start end false
        ≡ some (image', checks))
      × (image' ≡ record image { cache_map = image'.cache_map })
      × IsValid image'
      × ((k : ℕ)
          → k < image.virtual_filesize / 4096
          → image_cached image' k
            ≡ (image_cached image k && not (ltb start (4096 * suc k) && ltb (4096 * k) end)))
unfolding update_cachemap
update_cachemap-clear image start end v le inside =
    let i = start / 4096 in
    let j = (end + 4095) / 4096 in
    let down : align_down block_size start ≡ 4096 * i = omega arith in
    let up : align_up block_size end ≡ 4096 * j = omega (arith, v.small, v.whole) in
    let (valid, all) = change_range-image_cached image false i j v (omega (arith, v.whole)) in
    let test : leb end image.virtual_filesize ≡ true = ground arith in
    let order : leb start end ≡ true = ground arith in
    (
      (change_range image (4096 * i) (4096 * j) false).0,
      (change_range image (4096 * i) (4096 * j) false).1,
      rw (test, order, up, down) refl,
      change_range-frame image _ _ _,
      valid,
      λ k lt. rw (all k lt) (ground arith),
    )

-- A range that ends behind the image fails the assert.
pub update_cachemap_outside :
    (image : Image) (start end : ℕ) (setting : Bool)
    → image.virtual_filesize < end
    → update_cachemap image start end setting ≡ none
unfolding update_cachemap
update_cachemap_outside image start end setting behind =
    let test : leb end image.virtual_filesize ≡ false = ground arith in rw test refl
