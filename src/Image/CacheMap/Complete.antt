-- ===== src/Image/CacheMap/Complete.antt =====
-- src/server/image.c: when a hash block, and when the whole image, counts as complete.
use dnbd3_fuse_lowlevel.Prelude.{
  ℕ, zero, suc, ◌+◌, ◌-◌, ◌*◌, ◌/◌, ◌%◌, ◌^◌, ◌≤◌, ◌<◌, ◌≡◌, ◌↔◌, ◌⊎◌, inl, inr, refl, List, none,
  some, true, false, ltb, leb, ◌==◌, get_or, arith, Bool-cases, sym, ◌∙◌,
}
use native.Mathlib.Decide.{dec_lt, dec_le, ℕ_discrete}
use Prim.Native.Nat.{bit_and}
use dnbd3_fuse_lowlevel.Prelude.Bytes.{
  has_bit, AllBytes, all_bits, all_bits_sound, all_bits_complete, all_bits-full, covers_mask,
  covers_full_mask,
}
use dnbd3_fuse_lowlevel.Prelude.Words.{cast32, add64}
use dnbd3_fuse_lowlevel.Image.{Image, block_size, hash_block_size, map_bytes}
use dnbd3_fuse_lowlevel.Image.CacheMap.{
  all_marked, all_full, is_hash_block_complete, is_complete, map_complete, last_byte,
}
use dnbd3_fuse_lowlevel.Image.CacheMap.Blocks.{cached, Covers, byte-cached, cached_lem}

-- The blocks from `i` to below `j` are all cached.
abbrev pub AllCached : List ℕ → ℕ → ℕ → Type 0
AllCached map i j = (k : ℕ) → i ≤ k → k < j → cached map k ≡ true

-- The `n` lowest bits of a byte are set exactly if its first `n` blocks are cached.
bits_iff :
    (map : List ℕ) (y n : ℕ)
    → n ≤ 8
    → (all_bits (get_or map y 0) n ≡ true) ↔ AllCached map (8 * y) (8 * y + n)
bits_iff map y n h = (
  (λ e k lo hi.
      let p : 8 * y + (k - 8 * y) ≡ k = omega arith in
      rw (← p) (
        byte-cached map y (k - 8 * y) (omega arith)
        ∙ all_bits_sound _ n (k - 8 * y) e (omega arith))),
  (λ all. all_bits_complete (get_or map y 0) n (λ x lt.
      sym (byte-cached map y x (omega arith)) ∙ all (8 * y + x) (omega arith) (omega arith))),
)

-- A byte is 0xff exactly if its eight blocks are cached.
pub full_byte :
    (map : List ℕ) (y : ℕ)
    → AllBytes map
    → (get_or map y 0 ≡ 0xff) ↔ AllCached map (8 * y) (8 * y + 8)
full_byte map y b =
    let bits = bits_iff map y 8 (omega arith) in
    let full = all_bits-full (get_or map y 0) (b y) in
    ((λ e. bits.0 (ground (arith, full))), (λ all. ground (arith, bits.1 all, full)))

all_full_iff :
    (n i : ℕ) (map : List ℕ)
    → AllBytes map
    → (all_full n i map ≡ true) ↔ AllCached map (8 * i) (8 * (i + n))
unfolding all_full
all_full_iff zero i map b = ((λ e k lo hi. absurd (omega arith)), (λ all. refl))
all_full_iff (suc n) i map b =
    let head = full_byte map i b in
    let rest = all_full_iff n (i + 1) map b in
    (
      (λ e k lo hi. elim (dec_lt k (8 * i + 8)) [
        | yes lt ↦ head.0 (ground arith) k lo lt
        | no ge ↦ rest.0 (ground arith) k (omega arith) (omega arith)
      ]),
      (λ all. ground (
        arith,
        head.1 (λ k lo hi. all k lo (omega arith)),
        rest.1 (λ k lo hi. all k (omega arith) (omega arith)),
      )),
    )

-- The bits of the blocks from `i` to below `j`; the fuel may be any number that is large enough.
all_marked_iff :
    (fuel i j n : ℕ) (pos end : ℕ) (map : List ℕ)
    → Covers map n
    → j ≤ n
    → j ≤ i + fuel
    → pos ≡ 4096 * i
    → end ≤ 4096 * j
    → 4096 * j < end + 4096
    → (all_marked fuel pos end map ≡ true) ↔ AllCached map i j
unfolding all_marked
all_marked_iff zero i j n pos end map c h enough p lo hi =
    ((λ e k a b. absurd (omega arith)), (λ all. ground arith))
all_marked_iff (suc fuel) i j n pos end map c h enough p lo hi = elim (dec_lt i j) [
  | yes more ↦
      let next : add64 pos block_size ≡ 4096 * suc i = omega (arith, c.small) in
      let rest =
        all_marked_iff fuel (suc i) j n (add64 pos block_size) end map c h (omega arith) next lo
          hi in
      let here : has_bit (get_or map (pos / 2 ^ 15) 0) (pos / 2 ^ 12 % 8) ≡ cached map i =
        cached_lem map i pos p in
      let test : ltb pos end ≡ true = ground arith in
      rw (test, here)
        (
          (λ e k a b. elim (dec_lt i k) [
            | yes lt ↦ rest.0 (ground arith) k lt b
            | no ge ↦ let q : k ≡ i = omega arith in rw q (ground arith)
          ]),
          (λ all.
              ground (arith, all i (omega arith) more, rest.1 (λ k a b. all k (omega arith) b))),
        )
  | no stop ↦
      let test : ltb pos end ≡ false = ground arith in
      rw test ((λ e k a b. absurd (omega arith)), (λ all. refl))
]

abbrev blocks_of : ℕ → ℕ
blocks_of size = (size + 4095) / 4096

-- `image_isHashBlockComplete` is true exactly if every block of the hash block that begins inside
-- the file is cached. The map has to cover the file, and the file to be shorter than 2 ^ 46 bytes.
pub is_hash_block_complete_iff :
    (map : List ℕ) (block real : ℕ)
    → Covers map (blocks_of real)
    → block < 2 ^ 22
    → (is_hash_block_complete (some map) block real ≡ true)
      ↔ ((k : ℕ) → 4096 * block ≤ k → k < 4096 * suc block → 4096 * k < real → cached map k ≡ true)
unfolding is_hash_block_complete
is_hash_block_complete_iff map block real c small = elim (dec_le ((block + 1) * 2 ^ 24) real) [
  | yes inner ↦
      let test : leb ((block + 1) % 2 ^ 64 * 2 ^ 24 % 2 ^ 64) real ≡ true = ground arith in
      let start : cast32 (block * hash_block_size % 2 ^ 64 / (block_size * 8)) ≡ 512 * block =
        omega (arith, c.small) in
      let full = all_full_iff 512 (512 * block) map c.bytes in
      rw (test, start)
        (
          (λ e k a b lt. full.0 e k (omega arith) (omega arith)),
          (λ all. full.1 (λ k a b. all k (omega arith) (omega arith) (omega arith))),
        )
  | no last ↦
      let test : leb ((block + 1) % 2 ^ 64 * 2 ^ 24 % 2 ^ 64) real ≡ false = ground arith in
      let start : block * hash_block_size % 2 ^ 64 ≡ 4096 * (4096 * block) = omega arith in
      let marked =
        all_marked_iff 4096 (4096 * block) (blocks_of real) (blocks_of real) _ real map c
          (omega arith) (omega arith) start (omega arith) (omega arith) in
      rw test (
        (λ e k a b lt. marked.0 e k a (omega arith)),
        (λ all. marked.1 (λ k a b. all k a (omega arith) (omega arith))),
      )
]

last_byte_iff :
    (map : List ℕ) (size y : ℕ)
    → AllBytes map
    → 4096 * (size / 4096) ≡ size
    → 0 < size
    → y ≡ (size - 1) / 2 ^ 15
    → ((bit_and (get_or map y 0) (last_byte size) == last_byte size) ≡ true)
      ↔ AllCached map (8 * y) (size / 4096)
unfolding last_byte
last_byte_iff map size y b whole pos at =
    let byte = get_or map y 0 in
    elim (ℕ_discrete (size / 2 ^ 12 % 8) 0) [
      | yes e ↦
          let bits = bits_iff map y 8 (omega arith) in
          let test : (size / 2 ^ 12 % 8 == 0) ≡ true = ground arith in
          let until : 8 * y + 8 ≡ size / 4096 = omega arith in
          rw (test, covers_full_mask byte (b y), ← until) bits
      | no ne ↦
          let bits = bits_iff map y (size / 2 ^ 12 % 8) (omega arith) in
          let test : (size / 2 ^ 12 % 8 == 0) ≡ false = ground arith in
          let until : 8 * y + size / 2 ^ 12 % 8 ≡ size / 4096 = omega arith in
          rw (test, covers_mask byte (size / 2 ^ 12 % 8) (b y) (omega arith)) (rw until at bits)
    ]

map_complete_iff :
    (map : List ℕ) (size : ℕ)
    → Covers map (size / 4096)
    → 4096 * (size / 4096) ≡ size
    → 0 < size
    → (map_complete map size ≡ true) ↔ AllCached map 0 (size / 4096)
unfolding map_complete
map_complete_iff map size c whole pos =
    let y = (size - 1) / 2 ^ 15 in
    let len : map_bytes size - 1 ≡ y = omega (arith, c.small) in
    let full = all_full_iff y 0 map c.bytes in
    let last = last_byte_iff map size y c.bytes whole pos refl in
    rw len (
      (λ e k lo hi. elim (dec_lt k (8 * y)) [
        | yes lt ↦ full.0 (ground arith) k lo (omega arith)
        | no ge ↦ last.0 (ground arith) k (omega arith) hi
      ]),
      (λ all. ground (
        arith,
        full.1 (λ k lo hi. all k lo (omega arith)),
        last.1 (λ k lo hi. all k (omega arith) hi),
      )),
    )

-- A partial image of a whole number of blocks, at least one, whose map covers them:
-- `image_isComplete` answers true exactly if every block is cached. It drops the map and unlinks
-- the map file if so, and leaves the image and the file as they are if not.
pub is_complete_lem :
    (image : Image) (map : List ℕ)
    → image.cache_map ≡ some map
    → Covers map (image.virtual_filesize / 4096)
    → 4096 * (image.virtual_filesize / 4096) ≡ image.virtual_filesize
    → 0 < image.virtual_filesize
    → ((is_complete image ≡ (record image { cache_map = none }, true, true))
        × AllCached map 0 (image.virtual_filesize / 4096))
      ⊎ ((is_complete image ≡ (image, false, false))
          × ¬ (AllCached map 0 (image.virtual_filesize / 4096)))
unfolding is_complete
is_complete_lem image map e c whole pos =
    let complete = map_complete_iff map image.virtual_filesize c whole pos in
    elim (Bool-cases (map_complete map image.virtual_filesize)) [
      | inl t ↦ inl (ground arith, complete.0 t)
      | inr f ↦ inr (ground arith, λ all. ground (arith, complete.1 all))
    ]
