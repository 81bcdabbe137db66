-- ===== src/Net/Cached.antt =====
-- src/server/net.c: `isCached` against the set of cached blocks.
use dnbd3_fuse_lowlevel.Prelude.{
  ℕ, zero, suc, ◌+◌, ◌-◌, ◌*◌, ◌/◌, ◌%◌, ◌^◌, ◌≤◌, ◌<◌, min, ◌≡◌, ◌↔◌, refl, List, true, false,
  ◌&&◌, ltb, ◌==◌, get_or, arith,
}
use native.Mathlib.Decide.{dec_lt, ℕ_discrete}
use dnbd3_fuse_lowlevel.Prelude.Bytes.{has_bit, AllBytes}
use dnbd3_fuse_lowlevel.Prelude.Words.{add64, sub64}
use dnbd3_fuse_lowlevel.Image.{block_size}
use dnbd3_fuse_lowlevel.Image.CacheMap.Blocks.{cached, cached_lem}
use dnbd3_fuse_lowlevel.Image.CacheMap.Complete.{AllCached, full_byte}
use dnbd3_fuse_lowlevel.Net.{middle_full, first_marked, last_marked, is_cached}

middle_full_iff :
    (fuel pos last : ℕ) (map : List ℕ)
    → AllBytes map
    → last < 2 ^ 32
    → last ≤ pos + fuel
    → (middle_full fuel pos last map ≡ true) ↔ AllCached map (8 * pos) (8 * last)
unfolding middle_full
middle_full_iff zero pos last map b small enough =
    ((λ e k lo hi. absurd (omega arith)), (λ all. ground arith))
middle_full_iff (suc fuel) pos last map b small enough = elim (dec_lt pos last) [
  | yes lt ↦
      let next : (pos + 1) % 2 ^ 64 ≡ suc pos = omega arith in
      let head = full_byte map pos b in
      let rest = middle_full_iff fuel (suc pos) last map b small (omega arith) in
      let test : ltb pos last ≡ true = ground arith in
      rw (test, next)
        (
          (λ e k lo hi. elim (dec_lt k (8 * pos + 8)) [
            | yes near ↦ head.0 (ground arith) k lo near
            | no far ↦ rest.0 (ground arith) k (omega arith) hi
          ]),
          (λ all. ground (
            arith,
            head.1 (λ k lo hi. all k lo (omega arith)),
            rest.1 (λ k lo hi. all k (omega arith) hi),
          )),
        )
  | no ge ↦
      let test : ltb pos last ≡ false = ground arith in
      rw test ((λ e k lo hi. absurd (omega arith)), (λ all. refl))
]

in_byte :
    (map : List ℕ) (i y pos : ℕ)
    → pos ≡ 4096 * i
    → y ≡ i / 8
    → has_bit (get_or map y 0) (pos / 2 ^ 12 % 8) ≡ cached map i
in_byte map i y pos p q =
    let at : pos / 2 ^ 15 ≡ y = omega arith in rw (← at) (cached_lem map i pos p)

first_marked_iff :
    (fuel i j y pos end : ℕ) (map : List ℕ)
    → j ≤ 2 ^ 40
    → pos ≡ 4096 * i
    → end ≡ 4096 * j
    → y ≡ i / 8
    → i < j
    → 8 * y + 8 ≤ i + fuel
    → (first_marked fuel y pos end map ≡ true) ↔ AllCached map i (min j (8 * y + 8))
unfolding first_marked
first_marked_iff zero i j y pos end map small p e at lt enough = absurd (omega arith)
first_marked_iff (suc fuel) i j y pos end map small p e at lt enough =
    let next : add64 pos block_size ≡ 4096 * suc i = omega arith in
    let here = in_byte map i y pos p at in
    let only : (k : ℕ) → i ≤ k → k < suc i → k ≡ i = λ k lo hi. omega arith in
    elim (dec_lt (suc i) (min j (8 * y + 8))) [
      | yes more ↦
          let rest =
            first_marked_iff fuel (suc i) j y (add64 pos block_size) end map small next e
              (omega arith) (omega arith) (omega arith) in
          let test : ((y == add64 pos block_size / 2 ^ 15) && ltb (add64 pos block_size) end)
              ≡ true =
            ground arith in
          rw (test, here)
            (
              (λ h k lo hi. elim (dec_lt i k) [
                | yes gt ↦ rest.0 (ground arith) k gt hi
                | no le ↦ rw (only k lo (omega arith)) (ground arith)
              ]),
              (λ all. ground (
                arith,
                all i (omega arith) (omega arith),
                rest.1 (λ k lo hi. all k (omega arith) hi),
              )),
            )
      | no stop ↦
          let test : ((y == add64 pos block_size / 2 ^ 15) && ltb (add64 pos block_size) end)
              ≡ false =
            ground arith in
          rw (test, here)
            (
              (λ h k lo hi. rw (only k lo (omega arith)) (ground arith)),
              (λ all. ground (arith, all i (omega arith) (omega arith))),
            )
    ]

last_marked_iff :
    (fuel i j y pos end : ℕ) (map : List ℕ)
    → j ≤ 2 ^ 40
    → pos ≡ 4096 * i
    → end ≡ 4096 * j
    → y * 8 ≤ i
    → j ≤ 8 * y + 8
    → j ≤ i + fuel
    → (last_marked fuel y pos end map ≡ true) ↔ AllCached map i j
unfolding last_marked
last_marked_iff zero i j y pos end map small p e lo hi enough =
    ((λ h k a b. absurd (omega arith)), (λ all. ground arith))
last_marked_iff (suc fuel) i j y pos end map small p e lo hi enough = elim (dec_lt i j) [
  | yes lt ↦
      let next : add64 pos block_size ≡ 4096 * suc i = omega arith in
      let here = in_byte map i y pos p (omega arith) in
      let rest =
        last_marked_iff fuel (suc i) j y (add64 pos block_size) end map small next e (omega arith)
          hi (omega arith) in
      let test : ltb pos end ≡ true = ground arith in
      rw (test, here)
        (
          (λ h k a b. elim (dec_lt i k) [
            | yes gt ↦ rest.0 (ground arith) k gt b
            | no le ↦ let same : k ≡ i = omega arith in rw same (ground arith)
          ]),
          (λ all. ground (arith, all i (omega arith) lt, rest.1 (λ k a b. all k (omega arith) b))),
        )
  | no ge ↦
      let test : ltb pos end ≡ false = ground arith in
      rw test ((λ h k a b. absurd (omega arith)), (λ all. refl))
]

-- The quick check by map bytes, and the checks of the first and of the last byte, together say that
-- every block from `i` to below `j` is cached, for a range that is not empty.
pub is_cached_iff :
    (map : List ℕ) (i j : ℕ)
    → AllBytes map
    → i < j
    → j ≤ 2 ^ 34
    → (is_cached map (4096 * i) (4096 * j) ≡ true) ↔ AllCached map i j
unfolding is_cached
is_cached_iff map i j b lt small =
    let y = i / 8 in
    let z = (j - 1) / 8 in
    let first : 4096 * i / 2 ^ 15 ≡ y = omega arith in
    let last : sub64 (4096 * j) 1 / 2 ^ 15 ≡ z = omega arith in
    let next : add64 y 1 ≡ suc y = omega arith in
    let mid = middle_full_iff z (suc y) z map b (omega arith) (omega arith) in
    let low =
      first_marked_iff 8 i j y (4096 * i) (4096 * j) map (omega arith) refl refl refl lt
        (omega arith) in
    let high =
      last_marked_iff 8 (8 * z) j z (z * 2 ^ 15) (4096 * j) map (omega arith) (omega arith) refl
        (omega arith) (omega arith) (omega arith) in
    rw (first, last, next)
      (elim (ℕ_discrete y z) [
        | yes eq ↦
            let test : (y == z) ≡ true = ground arith in
            rw test (
              (λ e k lo hi. low.0 (ground arith) k lo (omega arith)),
              (λ all. ground (
                arith,
                low.1 (λ k lo hi. all k lo (omega arith)),
                mid.1 (λ k lo hi. absurd (omega arith)),
              )),
            )
        | no ne ↦
            let test : (y == z) ≡ false = ground arith in
            rw test (
              (λ e k lo hi. elim (dec_lt k (8 * y + 8)) [
                | yes near ↦ low.0 (ground arith) k lo (omega arith)
                | no far ↦ elim (dec_lt k (8 * z)) [
                  | yes middle ↦ mid.0 (ground arith) k (omega arith) middle
                  | no end ↦ high.0 (ground arith) k (omega arith) hi
                ]
              ]),
              (λ all. ground (
                arith,
                low.1 (λ k lo hi. all k lo (omega arith)),
                mid.1 (λ k lo hi. all k (omega arith) (omega arith)),
                high.1 (λ k lo hi. all k (omega arith) hi),
              )),
            )
      ])
