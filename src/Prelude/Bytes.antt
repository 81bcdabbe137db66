-- ===== src/Prelude/Bytes.antt =====
-- Bytes and the bits of a byte: what `&`, `|` and `~` do to one bit, checked at every byte.
use Prim.Native.Nat.{ℕ, zero, suc, ◌-◌, ◌^◌, ◌<◌, bit_and, bit_or}
use mathlib.Core.Path.{◌≡◌, refl}
use mathlib.Core.Bool.{Bool, true, false, not, ◌&&◌, ◌||◌}
use mathlib.Core.List.{List}
use native.Mathlib.Omega.{arith}
use native.Mathlib.Decide.{dec_lt}
use dnbd3_fuse_lowlevel.Prelude.Tests.{◌==◌, ltb}
use dnbd3_fuse_lowlevel.Prelude.Lists.{get_or, set, get_or-set}

-- `(b & (1 << x)) != 0`
unfoldable pub has_bit : ℕ → ℕ → Bool
has_bit b x = not (bit_and b (2 ^ x) == 0)

-- `b | (1 << x)`, and `b & ~(1 << x)` of a byte
unfoldable pub with_bit : ℕ → ℕ → ℕ
with_bit b x = bit_or b (2 ^ x)

unfoldable pub without_bit : ℕ → ℕ → ℕ
without_bit b x = bit_and b (255 - 2 ^ x)

bool_eq : Bool → Bool → Bool
bool_eq true b = b
bool_eq false b = not b

bool_eq_sound : (a b : Bool) → bool_eq a b ≡ true → a ≡ b
unfolding bool_eq
bool_eq_sound a b h = ground arith

-- A test of the numbers below a bound, by evaluation.
passes : (ℕ → Bool) → ℕ → Bool
passes test zero = true
passes test (suc n) = passes test n && test n

passes_at : (test : ℕ → Bool) (n x : ℕ) → x < n → passes test n ≡ true → test x ≡ true
unfolding passes
passes_at test zero x lt h = elim lt [ ]
passes_at test (suc n) x lt h = elim (dec_lt x n) [
  | yes below ↦ passes_at test n x below (ground arith)
  | no top ↦ let e : x ≡ n = omega arith in rw e (ground arith)
]

-- A test that passes at every byte and every pair of bit positions.
abbrev table : (ℕ → ℕ → ℕ → Bool) → Bool
table p = passes (λ b. passes (λ x. passes (p b x) 8) 8) 256

table_sound :
    (p : ℕ → ℕ → ℕ → Bool) (b x y : ℕ) → table p ≡ true → b < 256 → x < 8 → y < 8 → p b x y ≡ true
table_sound p b x y h hb hx hy = passes_at (p b x) 8 y hy (
    passes_at (λ x. passes (p b x) 8) 8 x hx
      (passes_at (λ b. passes (λ x. passes (p b x) 8) 8) 256 b hb h))

mark_table : table (λ b x y. bool_eq (has_bit (with_bit b x) y) (has_bit b y || x == y)) ≡ true
unfolding passes bool_eq has_bit with_bit
mark_table = refl

clear_table :
    table (λ b x y. bool_eq (has_bit (without_bit b x) y) (has_bit b y && not (x == y))) ≡ true
unfolding passes bool_eq has_bit without_bit
clear_table = refl

range_table : table (λ b x y. ltb (with_bit b x) 256 && ltb (without_bit b x) 256) ≡ true
unfolding passes with_bit without_bit
range_table = refl

pub has_bit-with_bit :
    (b x y : ℕ) → b < 256 → x < 8 → y < 8 → has_bit (with_bit b x) y ≡ (has_bit b y || x == y)
has_bit-with_bit b x y hb hx hy = bool_eq_sound _ _ (table_sound _ b x y mark_table hb hx hy)

pub has_bit-without_bit :
    (b x y : ℕ)
    → b < 256
    → x < 8
    → y < 8
    → has_bit (without_bit b x) y ≡ (has_bit b y && not (x == y))
has_bit-without_bit b x y hb hx hy = bool_eq_sound _ _ (table_sound _ b x y clear_table hb hx hy)

pub with_bit-lt : (b x : ℕ) → b < 256 → x < 8 → with_bit b x < 256
with_bit-lt b x hb hx = ground (
  arith,
  table_sound (λ b x y. ltb (with_bit b x) 256 && ltb (without_bit b x) 256) b x 0 range_table,
)

pub without_bit-lt : (b x : ℕ) → b < 256 → x < 8 → without_bit b x < 256
without_bit-lt b x hb hx = ground (
  arith,
  table_sound (λ b x y. ltb (with_bit b x) 256 && ltb (without_bit b x) 256) b x 0 range_table,
)

-- The bits below `n`.
pub all_bits : ℕ → ℕ → Bool
all_bits b n = passes (has_bit b) n

pub all_bits_sound : (b n x : ℕ) → all_bits b n ≡ true → x < n → has_bit b x ≡ true
unfolding all_bits
all_bits_sound b n x h lt = passes_at (has_bit b) n x lt h

pub all_bits_complete : (b n : ℕ) → ((x : ℕ) → x < n → has_bit b x ≡ true) → all_bits b n ≡ true
unfolding all_bits passes
all_bits_complete b zero h = refl
all_bits_complete b (suc n) h =
    ground (arith, h n (omega arith), all_bits_complete b n (λ x lt. h x (omega arith)))

full_table : passes (λ b. bool_eq (all_bits b 8) (b == 255)) 256 ≡ true
unfolding passes bool_eq all_bits has_bit
full_table = refl

-- A byte is 0xff exactly if its eight bits are set.
pub all_bits-full : (b : ℕ) → b < 256 → all_bits b 8 ≡ (b == 255)
all_bits-full b h = bool_eq_sound _ _ (passes_at _ 256 b h full_table)

-- `for (j = 0; j < n; ++j) mask |= (uint8_t)(1 << j);`
unfoldable pub low_mask : ℕ → ℕ
low_mask zero = 0
low_mask (suc n) = with_bit (low_mask n) n

mask_table :
    passes (λ b. passes (λ n. bool_eq (bit_and b (low_mask n) == low_mask n) (all_bits b n)) 8) 256
    ≡ true
unfolding passes bool_eq all_bits has_bit low_mask with_bit
mask_table = refl

pub covers_mask :
    (b n : ℕ) → b < 256 → n < 8 → (bit_and b (low_mask n) == low_mask n) ≡ all_bits b n
covers_mask b n hb hn =
    let row = λ (b : ℕ) (n : ℕ). bool_eq (bit_and b (low_mask n) == low_mask n) (all_bits b n) in
    bool_eq_sound _ _
      (passes_at (row b) 8 n hn (passes_at (λ b. passes (row b) 8) 256 b hb mask_table))

-- A buffer of bytes: no entry is over 255.
abbrev pub AllBytes : List ℕ → Type 0
AllBytes m = (i : ℕ) → get_or m i 0 < 256

pub set-AllBytes : (m : List ℕ) (i v : ℕ) → AllBytes m → v < 256 → AllBytes (set m i v)
set-AllBytes m i v h hv j = rw (get_or-set m i j v 0) (ground (arith, h j))

full_mask_table : passes (λ b. bool_eq (bit_and b 255 == 255) (all_bits b 8)) 256 ≡ true
unfolding passes bool_eq all_bits has_bit
full_mask_table = refl

pub covers_full_mask : (b : ℕ) → b < 256 → (bit_and b 255 == 255) ≡ all_bits b 8
covers_full_mask b h = bool_eq_sound _ _ (passes_at _ 256 b h full_mask_table)
