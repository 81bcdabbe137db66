-- ===== src/Image/CacheMap/Checks.antt =====
-- src/server/image.c: which hash blocks `image_updateCachemap` hands to the integrity checker.
use dnbd3_fuse_lowlevel.Prelude.{
  ℕ, zero, suc, ◌+◌, ◌*◌, ◌/◌, ◌%◌, ◌^◌, ◌≤◌, ◌<◌, ◌≡◌, inl, inr, refl, ap, List, [], Option, none,
  some, true, false, ◌&&◌, ltb, leb, elem, arith, Bool-cases,
}
use native.Mathlib.Decide.{dec_lt, ℕ_discrete}
use dnbd3_fuse_lowlevel.Prelude.Words.{align_down, align_up}
use dnbd3_fuse_lowlevel.Image.{Image, block_size, hash_block_size}
use dnbd3_fuse_lowlevel.Image.CacheMap.{
  mark_blocks, change_range, update_cachemap, map_to_change, is_hash_block_complete, queue_checks,
  queue_hash_blocks,
}
use dnbd3_fuse_lowlevel.Image.CacheMap.Blocks.{cached, Covers, new-mark_blocks}
use dnbd3_fuse_lowlevel.Image.CacheMap.Update.{IsValid, MapCovers}
use dnbd3_fuse_lowlevel.Image.CacheMap.Complete.{AllCached}

-- The loop over the hash blocks from `i` to below `j` hands on exactly the complete ones.
elem-queue_hash_blocks :
    (fuel i j real b : ℕ) (map : Option (List ℕ))
    → j ≤ 2 ^ 30
    → j ≤ i + fuel
    → elem b (queue_hash_blocks fuel (2 ^ 24 * i) (2 ^ 24 * j) map real)
      ≡ (leb i b && ltb b j && is_hash_block_complete map b real)
unfolding queue_hash_blocks
elem-queue_hash_blocks zero i j real b map h enough = ground arith
elem-queue_hash_blocks (suc fuel) i j real b map h enough = elim (dec_lt i j) [
  | yes lt ↦
      let next : (2 ^ 24 * i + 2 ^ 24) % 2 ^ 64 ≡ 2 ^ 24 * suc i = omega arith in
      let here : 2 ^ 24 * i / 2 ^ 24 % 2 ^ 32 ≡ i = omega arith in
      let test : ltb (2 ^ 24 * i) (2 ^ 24 * j) ≡ true = ground arith in
      let rest = elem-queue_hash_blocks fuel (suc i) j real b map h (omega arith) in
      rw (test, next, here)
        (elim (ℕ_discrete b i) [
          | yes eq ↦ rw eq (ground (arith, rw eq at rest))
          | no ne ↦ ground (arith, rest)
        ])
  | no ge ↦
      let test : ltb (2 ^ 24 * i) (2 ^ 24 * j) ≡ false = ground arith in rw test (ground arith)
]

new-false :
    (i j n : ℕ) (map : List ℕ)
    → Covers map n
    → j ≤ n
    → AllCached map i j
    → (mark_blocks (4096 * j / 4096) true (4096 * i) (4096 * j) (map, false)).1 ≡ false
new-false i j n map c h all =
    (new-mark_blocks (4096 * j / 4096) i j n (map, false) c h (omega arith)).1 (refl, all)

new-true :
    (i j n k : ℕ) (map : List ℕ)
    → Covers map n
    → j ≤ n
    → i ≤ k
    → k < j
    → cached map k ≡ false
    → (mark_blocks (4096 * j / 4096) true (4096 * i) (4096 * j) (map, false)).1 ≡ true
new-true i j n k map c h lo hi e =
    elim (Bool-cases (mark_blocks (4096 * j / 4096) true (4096 * i) (4096 * j) (map, false)).1) [
      | inl t ↦ t
      | inr f ↦
          let all =
            ((new-mark_blocks (4096 * j / 4096) i j n (map, false) c h (omega arith)).0 f).1 k lo
              hi in
          cc
    ]

none_queued :
    (crc : Option (List ℕ)) (start end : ℕ) (image : Image)
    → queue_checks crc false start end image ≡ []
unfolding queue_checks
none_queued none start end image = refl
none_queued (some crcs) start end image = refl

MapCovers-some :
    (m : Option (List ℕ)) (map : List ℕ) (n : ℕ) → m ≡ some map → MapCovers m n → Covers map n
MapCovers-some none map n e c = cc
MapCovers-some (some map') map n e c = let p : map' ≡ map = ground arith in rw (← p) c

-- `queue_checks` after a range that ends in the image, in terms of hash blocks.
elem-queue_checks :
    (image : Image) (crcs : List ℕ) (i j b : ℕ)
    → image.crc32 ≡ some crcs
    → j ≤ 2 ^ 34
    → elem b (queue_checks image.crc32 true (4096 * i) (4096 * j) image) ≡ (
        leb (i / 4096) b
        && ltb b ((j + 4095) / 4096)
        && is_hash_block_complete image.cache_map b image.real_filesize)
unfolding queue_checks
elem-queue_checks image crcs i j b e h =
    let last : align_up hash_block_size (4096 * j) ≡ 2 ^ 24 * ((j + 4095) / 4096) = omega arith in
    let first : align_down hash_block_size (4096 * i) ≡ 2 ^ 24 * (i / 4096) = omega arith in
    rw (e, queue_checks)
      (rw (last, first) (elem-queue_hash_blocks _ _ _ _ _ _ (omega arith) (omega arith)))

changed :
    (image : Image) (map : List ℕ) (i j : ℕ)
    → image.cache_map ≡ some map
    → i < j
    → let marked = mark_blocks (4096 * j / 4096) true (4096 * i) (4096 * j) (map, false) in
      let image' : Image = record image { cache_map = some marked.0 } in
      change_range image (4096 * i) (4096 * j) true
      ≡ (image', queue_checks image.crc32 marked.1 (4096 * i) (4096 * j) image')
unfolding change_range map_to_change
changed image map i j e lt =
    let some_blocks : leb (4096 * j) (4096 * i) ≡ false = ground arith in
    rw some_blocks (ground (arith, e))

-- A call on a valid partial image with a checksum list, for a range that holds the whole blocks
-- from `i` to below `j`, at least one: if all of them were cached before, no check is queued. If one
-- was not, the checks queued are for exactly those hash blocks that overlap these blocks and are
-- complete in the new map.
pub update_cachemap-checks :
    (image : Image) (map crcs : List ℕ) (start end i j : ℕ)
    → IsValid image
    → image.cache_map ≡ some map
    → image.crc32 ≡ some crcs
    → start ≤ end
    → end ≤ image.virtual_filesize
    → i ≡ (start + 4095) / 4096
    → j ≡ end / 4096
    → i < j
    → (image' : Image) × (checks : List ℕ) × (update_cachemap image start end true
        ≡ some (image', checks))
      × (AllCached map i j → checks ≡ [])
      × ((k b : ℕ)
          → i ≤ k
          → k < j
          → cached map k ≡ false
          → elem b checks ≡ (
              leb (i / 4096) b
              && ltb b ((j + 4095) / 4096)
              && is_hash_block_complete image'.cache_map b image.real_filesize))
unfolding update_cachemap
update_cachemap-checks image map crcs start end i j v em ec le inside ei ej lt =
    let n = image.virtual_filesize / 4096 in
    let covers : Covers map n = MapCovers-some image.cache_map map n em v.covers in
    let down : align_down block_size end ≡ 4096 * j = omega arith in
    let up : align_up block_size start ≡ 4096 * i = omega (arith, v.small, v.whole) in
    let test : leb end image.virtual_filesize ≡ true = ground arith in
    let order : leb start end ≡ true = ground arith in
    let marked = mark_blocks (4096 * j / 4096) true (4096 * i) (4096 * j) (map, false) in
    let image' : Image = record image { cache_map = some marked.0 } in
    (
      image',
      queue_checks image.crc32 marked.1 (4096 * i) (4096 * j) image',
      rw (test, order, up, down) (ap some (changed image map i j em lt)),
      λ all.
          rw (new-false i j n map covers (omega arith) all)
            (none_queued image.crc32 (4096 * i) (4096 * j) image'),
      λ k b lo hi e.
          rw (new-true i j n k map covers (omega arith) lo hi e)
            (elem-queue_checks image' crcs i j b ec (omega (arith, v.small))),
    )
