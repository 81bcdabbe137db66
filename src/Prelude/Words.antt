-- ===== src/Prelude/Words.antt =====
-- Machine integers as native numbers: sums wrap, casts cut off, masks are quotients and remainders.
use dnbd3_fuse_lowlevel.Prelude.{ℕ, ◌+◌, ◌-◌, ◌*◌, ◌/◌, ◌%◌, ◌^◌}

-- `uint64_t` and `uint32_t` addition
abbrev pub add64 : ℕ → ℕ → ℕ
add64 a b = (a + b) % 2 ^ 64

abbrev pub add32 : ℕ → ℕ → ℕ
add32 a b = (a + b) % 2 ^ 32

abbrev pub sub32 : ℕ → ℕ → ℕ
sub32 a b = (a + 2 ^ 32 - b) % 2 ^ 32

-- A cast to `int` or `uint32_t`, as a bit pattern; below 2 ^ 31 it is the same number.
abbrev pub cast32 : ℕ → ℕ
cast32 x = x % 2 ^ 32

-- `x & ~(uint64_t)(m - 1)` for a power of two `m`
abbrev pub align_down : ℕ → ℕ → ℕ
align_down m x = x / m * m

-- `(x + m - 1) & ~(uint64_t)(m - 1)`
abbrev pub align_up : ℕ → ℕ → ℕ
align_up m x = align_down m (add64 x (m - 1))

-- `uint64_t` subtraction
abbrev pub sub64 : ℕ → ℕ → ℕ
sub64 a b = (a + 2 ^ 64 - b) % 2 ^ 64
