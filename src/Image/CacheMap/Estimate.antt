-- ===== src/Image/CacheMap/Estimate.antt =====
-- src/server/image.c: the completeness estimate.
use dnbd3_fuse_lowlevel.Prelude.{
  ℕ, zero, suc, ◌+◌, ◌*◌, ◌/◌, ◌^◌, ◌≤◌, ◌<◌, ◌≡◌, ◌↔◌, refl, List, some, get_or, arith,
}
use native.Mathlib.Decide.{ℕ_discrete}
use dnbd3_fuse_lowlevel.Image.{Image, map_bytes}
use dnbd3_fuse_lowlevel.Image.CacheMap.{percent_sum, completeness_estimate}

percent_sum-le : (n i : ℕ) (map : List ℕ) → percent_sum n i map ≤ 100 * n
unfolding percent_sum
percent_sum-le zero i map = omega arith
percent_sum-le (suc n) i map = ground (arith, percent_sum-le n (i + 1) map)

-- 100 in every one of the bytes, if the sum is as high as it can be, and only then.
percent_sum-full :
    (n i : ℕ) (map : List ℕ)
    → (percent_sum n i map ≡ 100 * n) ↔ ((j : ℕ) → i ≤ j → j < i + n → get_or map j 0 ≡ 0xff)
unfolding percent_sum
percent_sum-full zero i map = ((λ e j lo hi. absurd (omega arith)), (λ all. refl))
percent_sum-full (suc n) i map =
    let rest = percent_sum-full n (i + 1) map in
    (
      (λ e j lo hi. elim (ℕ_discrete j i) [
        | yes eq ↦ rw eq (ground (arith, percent_sum-le n (i + 1) map))
        | no ne ↦
            rest.0 (ground (arith, percent_sum-le n (i + 1) map)) j (omega arith) (omega arith)
      ]),
      (λ all. ground (
        arith,
        all i (omega arith) (omega arith),
        rest.1 (λ j lo hi. all j (omega arith) (omega arith)),
      )),
    )

average : (s n : ℕ) → 0 < n → s ≤ 100 * n → (s / n ≤ 100) × ((s / n ≡ 100) ↔ (s ≡ 100 * n))
average s n pos h = (grind arith, ((λ e. grind arith), (λ e. grind arith)))

estimated :
    (image : Image) (map : List ℕ) (now wait : ℕ)
    → image.cache_map ≡ some map
    → image.next_completeness_estimate ≤ now
    → 0 < map_bytes image.virtual_filesize
    → 100 * map_bytes image.virtual_filesize < 2 ^ 31
    → let len = map_bytes image.virtual_filesize in
      let percent = percent_sum len 0 map / len in
      completeness_estimate image now wait
      ≡ some (
        record image { completeness_estimate = percent; next_completeness_estimate = now + wait },
        percent,
      )
unfolding completeness_estimate
estimated image map now wait e due pos small =
    ground (arith, percent_sum-le (map_bytes image.virtual_filesize) 0 map)

-- For a partial image whose estimate is due, with at least one byte in its map and 100 times their
-- number below 2 ^ 31: there is an estimate, it is at most 100, it is 100 exactly if all bytes of the
-- map are 0xff, it is stored with the next time, and nothing else of the image changes.
pub completeness_estimate_lem :
    (image : Image) (map : List ℕ) (now wait : ℕ)
    → image.cache_map ≡ some map
    → image.next_completeness_estimate ≤ now
    → 0 < map_bytes image.virtual_filesize
    → 100 * map_bytes image.virtual_filesize < 2 ^ 31
    → (percent : ℕ) × (completeness_estimate image now wait
        ≡ some (
          record image { completeness_estimate = percent; next_completeness_estimate = now + wait },
          percent,
        ))
      × (percent ≤ 100)
      × ((percent ≡ 100) ↔ ((j : ℕ) → j < map_bytes image.virtual_filesize → get_or map j 0 ≡ 0xff))
completeness_estimate_lem image map now wait e due pos small =
    let len = map_bytes image.virtual_filesize in
    let part = average (percent_sum len 0 map) len pos (percent_sum-le len 0 map) in
    let full = percent_sum-full len 0 map in
    (
      percent_sum len 0 map / len,
      estimated image map now wait e due pos small,
      part.0,
      (
        (λ h j lt. full.0 (part.1.0 h) j (omega arith) (omega arith)),
        (λ all. part.1.1 (full.1 (λ j lo hi. all j (omega arith)))),
      ),
    )
