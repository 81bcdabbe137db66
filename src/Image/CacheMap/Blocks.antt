-- ===== src/Image/CacheMap/Blocks.antt =====
-- The cache map as a set of blocks, and what one round of the loops does to that set.
use dnbd3_fuse_lowlevel.Prelude.{
  ℕ, zero, suc, ◌+◌, ◌*◌, ◌/◌, ◌%◌, ◌^◌, ◌≤◌, ◌<◌, ◌≡◌, ◌↔◌, inl, inr, List, Bool, true, false, not,
  ◌&&◌, ◌||◌, ltb, leb, ◌==◌, if◌then◌else◌, get_or, length, get_or-set, length-set, arith,
  Bool-cases, ltb→lt, ltb→ge,
}
use dnbd3_fuse_lowlevel.Prelude.Bytes.{
  has_bit, with_bit, without_bit, has_bit-with_bit, has_bit-without_bit, with_bit-lt,
  without_bit-lt, AllBytes, set-AllBytes, all_bits_sound, all_bits-full,
}
use dnbd3_fuse_lowlevel.Image.CacheMap.{mark_block, mark_blocks}

-- Block `k` is cached: bit `k % 8` of byte `k / 8`.
pub cached : List ℕ → ℕ → Bool
cached map k = has_bit (get_or map (k / 8) 0) (k % 8)

-- A map that is long enough for blocks below `n`, with fewer than 2 ^ 31 bytes.
pub record Covers (map : List ℕ) (n : ℕ) : Type 0 where
  pub bytes : AllBytes map
  pub long : n ≤ 8 * length map
  pub small : n ≤ 2 ^ 34

byte_of : (i : ℕ) → i < 2 ^ 34 → 4096 * i / 2 ^ 15 % 2 ^ 32 ≡ i / 8
byte_of i h = omega arith

bit_of : (i : ℕ) → 4096 * i / 2 ^ 12 % 8 ≡ i % 8
bit_of i = omega arith

-- A block that is marked becomes cached, or not cached; every other block stays.
pub cached-mark_block :
    (setting : Bool) (i k n : ℕ) (map : List ℕ) (new : Bool)
    → Covers map n
    → i < n
    → cached (mark_block setting (4096 * i) (map, new)).0 k
      ≡ (if i == k then setting else cached map k)
unfolding cached mark_block
cached-mark_block true i k n map new c h =
    rw
      (
        byte_of i (omega arith),
        bit_of i,
        get_or-set map (i / 8) (k / 8) (with_bit (get_or map (i / 8) 0) (i % 8)) 0,
      )
      (ground (
        arith,
        has_bit-with_bit (get_or map (i / 8) 0) (i % 8) (k % 8) (c.bytes (i / 8)) (omega arith)
            (omega arith),
      ))
cached-mark_block false i k n map new c h =
    rw
      (
        byte_of i (omega arith),
        bit_of i,
        get_or-set map (i / 8) (k / 8) (without_bit (get_or map (i / 8) 0) (i % 8)) 0,
      )
      (ground (
        arith,
        has_bit-without_bit (get_or map (i / 8) 0) (i % 8) (k % 8) (c.bytes (i / 8)) (omega arith)
            (omega arith),
      ))

pub mark_block-Covers :
    (setting : Bool) (i n : ℕ) (map : List ℕ) (new : Bool)
    → Covers map n
    → i < n
    → Covers (mark_block setting (4096 * i) (map, new)).0 n
unfolding mark_block
mark_block-Covers true i n map new c h = record {
  bytes = set-AllBytes map _ _ c.bytes (with_bit-lt _ _ (c.bytes _) (omega arith));
  long = omega (arith, length-set {0} map (4096 * i / 2 ^ 15 % 2 ^ 32), c.long);
  small = c.small;
}
mark_block-Covers false i n map new c h = record {
  bytes = set-AllBytes map _ _ c.bytes (without_bit-lt _ _ (c.bytes _) (omega arith));
  long = omega (arith, length-set {0} map (4096 * i / 2 ^ 15 % 2 ^ 32), c.long);
  small = c.small;
}

step_pos : (i : ℕ) → i < 2 ^ 34 → (4096 * i + 4096) % 2 ^ 64 ≡ 4096 * suc i
step_pos i h = omega arith

test_pos : (i j : ℕ) → ltb (4096 * i) (4096 * j) ≡ ltb i j
test_pos i j = ground arith

-- The loop of `image_updateCachemap` over the blocks from `i` to below `j` gives each of them the
-- value `setting`, whatever the map held, and leaves all other blocks as they were.
pub cached-mark_blocks :
    (fuel : ℕ) (setting : Bool) (i j n k : ℕ) (st : List ℕ × Bool)
    → Covers st.0 n
    → j ≤ n
    → j ≤ i + fuel
    → cached (mark_blocks fuel setting (4096 * i) (4096 * j) st).0 k
      ≡ (if leb i k && ltb k j then setting else cached st.0 k)
unfolding mark_blocks
cached-mark_blocks zero setting i j n k st c h enough = ground arith
cached-mark_blocks (suc fuel) setting i j n k st c h enough = elim (Bool-cases (ltb i j)) [
  | inl more ↦
      rw (step_pos i (omega (arith, c.small, ltb→lt i j more)), test_pos i j, more)
        (rw
          (
            cached-mark_blocks fuel setting (suc i) j n k (mark_block setting (4096 * i) st)
                (mark_block-Covers setting i n st.0 st.1 c (omega (arith, ltb→lt i j more))) h
                (omega arith),
            cached-mark_block setting i k n st.0 st.1 c (omega (arith, ltb→lt i j more)),
          )
          (ground arith))
  | inr stop ↦ rw (test_pos i j, stop) (ground arith)
]

pub mark_blocks-Covers :
    (fuel : ℕ) (setting : Bool) (i j n : ℕ) (st : List ℕ × Bool)
    → Covers st.0 n
    → j ≤ n
    → Covers (mark_blocks fuel setting (4096 * i) (4096 * j) st).0 n
unfolding mark_blocks
mark_blocks-Covers zero setting i j n st c h = c
mark_blocks-Covers (suc fuel) setting i j n st c h = elim (Bool-cases (ltb i j)) [
  | inl more ↦
      rw (step_pos i (omega (arith, c.small, ltb→lt i j more)), test_pos i j, more)
        (mark_blocks-Covers fuel setting (suc i) j n (mark_block setting (4096 * i) st)
          (mark_block-Covers setting i n st.0 st.1 c (omega (arith, ltb→lt i j more))) h)
  | inr stop ↦ rw (test_pos i j, stop) c
]

new-mark_block :
    (i n : ℕ) (st : List ℕ × Bool)
    → Covers st.0 n
    → i < n
    → (mark_block true (4096 * i) st).1 ≡ (st.1 || not (cached st.0 i))
unfolding mark_block cached
new-mark_block i n st c h = rw (byte_of i (omega (arith, c.small)), bit_of i)

-- `setNewBlocks` stays false exactly if it was and every block of the range was cached before.
pub new-mark_blocks :
    (fuel i j n : ℕ) (st : List ℕ × Bool)
    → Covers st.0 n
    → j ≤ n
    → j ≤ i + fuel
    → ((mark_blocks fuel true (4096 * i) (4096 * j) st).1 ≡ false)
      ↔ ((st.1 ≡ false) × ((k : ℕ) → i ≤ k → k < j → cached st.0 k ≡ true))
unfolding mark_blocks
new-mark_blocks zero i j n st c h enough = ((λ e. (e, λ k lo hi. absurd (omega arith))), (λ e. e.0))
new-mark_blocks (suc fuel) i j n st c h enough = elim (Bool-cases (ltb i j)) [
  | inl more ↦
      let lt = ltb→lt i j more in
      let st' = mark_block true (4096 * i) st in
      let ih =
        new-mark_blocks fuel (suc i) j n st' (mark_block-Covers true i n st.0 st.1 c (omega arith))
          h (omega arith) in
      let new = new-mark_block i n st c (omega arith) in
      let kept = λ (k : ℕ). cached-mark_block true i k n st.0 st.1 c (omega arith) in
      rw (step_pos i (omega (arith, c.small)), test_pos i j, more)
        (
          (λ e. (
            ground (arith, ih.0 e, new),
            λ k lo hi. ground (arith, (ih.0 e).1 k, (ih.0 e).0, new, kept k),
          )),
          (λ e. ih.1 (ground (arith, new, e.1 i), λ k lo hi. ground (arith, e.1 k, kept k))),
        )
  | inr stop ↦
      rw (test_pos i j, stop)
        ((λ e. (e, λ k lo hi. absurd (omega (arith, ltb→ge i j stop)))), (λ e. e.0))
]

pub byte-cached :
    (map : List ℕ) (y x : ℕ) → x < 8 → cached map (8 * y + x) ≡ has_bit (get_or map y 0) x
unfolding cached
byte-cached map y x h =
    let p : (8 * y + x) / 8 ≡ y = omega arith in
    let q : (8 * y + x) % 8 ≡ x = omega arith in rw (p, q)

pub cached_lem :
    (map : List ℕ) (i pos : ℕ)
    → pos ≡ 4096 * i
    → has_bit (get_or map (pos / 2 ^ 15) 0) (pos / 2 ^ 12 % 8) ≡ cached map i
unfolding cached
cached_lem map i pos p =
    let a : pos / 2 ^ 15 ≡ i / 8 = omega arith in
    let b : pos / 2 ^ 12 % 8 ≡ i % 8 = omega arith in rw (a, b)

pub cached_full : (map : List ℕ) (k : ℕ) → get_or map (k / 8) 0 ≡ 0xff → cached map k ≡ true
unfolding cached
cached_full map k e =
    all_bits_sound (get_or map (k / 8) 0) 8 (k % 8) (rw e (all_bits-full 255 (omega arith)))
      (omega arith)
