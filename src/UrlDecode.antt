-- ===== src/UrlDecode.antt =====
-- src/server/urldecode.c: decoding a query in place. A byte is a number below 256, the memory gives
-- the byte at each address.
pub mod Strings
pub mod Copy
pub mod Value
pub mod Contents
pub mod Fields
pub mod RoundTrip
pub mod Query
mod Tests
use dnbd3_fuse_lowlevel.Prelude.{
  ℕ, zero, suc, ◌+◌, ◌-◌, ◌*◌, ◌%◌, List, [], ◌∷◌, Option, none, some, Bool, true, false, not, ◌&&◌,
  ◌||◌, ltb, leb, ◌==◌, if◌then◌else◌,
}
use dnbd3_fuse_lowlevel.Prelude.Maps.{update}

abbrev pub Memory : Type 0
Memory = ℕ → ℕ

-- `struct field`: the address and length of the name, and of the value.
pub record Field : Type 0 where
  pub name : ℕ
  pub name_len : ℕ
  pub value : ℕ
  pub value_len : ℕ

-- `hex2int`; `none` for the jump to `normie`.
unfoldable pub hex2int : ℕ → Option ℕ
hex2int a =
    if leb 97 a
    then some (a - (97 - 65 - 10))
    else if ltb 70 a
    then none
    else if leb 65 a
    then some (a - (65 - 10))
    else if ltb a 48 || ltb 57 a
    then none
    else some (a - 48)

-- The byte for the two characters behind a percent sign.
unfoldable pub escape : ℕ → ℕ → Option ℕ
unfolding hex2int
escape a b = if ltb 102 a || ltb 102 b then none else (elim (hex2int a) [
  | none ↦ none
  | some x ↦ elim (hex2int b) [ none ↦ none | some y ↦ some ((16 * x + y) % 256) ]
])

-- The loop over a name, for at most `n` bytes, from `src` to `dst` up to `end`.
pub copy_name : ℕ → Memory → ℕ → ℕ → ℕ → Memory × ℕ × ℕ
copy_name zero m src dst end = (m, src, dst)
copy_name (suc n) m src dst end =
    let rest = copy_name n (update m dst (m src)) (src + 1) (dst + 1) end in
    if ltb src end && not (m src == 61) then rest else (m, src, dst)

-- The byte that is written for the value at `src`, and how many bytes it takes.
pub value_step : Memory → ℕ → ℕ → ℕ × ℕ
unfolding escape
value_step m src end =
    let decoded =
      if m src == 37 && ltb (src + 2) end then escape (m (src + 1)) (m (src + 2)) else none in
    elim decoded [ some v ↦ (v, 3) | none ↦ if m src == 43 then (32, 1) else (m src, 1) ]

-- The loop over a value.
pub copy_value : ℕ → Memory → ℕ → ℕ → ℕ → Memory × ℕ × ℕ
unfolding value_step
copy_value zero m src dst end = (m, src, dst)
copy_value (suc n) m src dst end =
    let step = value_step m src end in
    let rest = copy_value n (update m dst step.0) (src + step.1) (dst + 1) end in
    if ltb src end && not (m src == 38) then rest else (m, src, dst)

-- The outer loop, with room for `max` fields.
pub decode_fields : ℕ → Memory → ℕ → ℕ → ℕ → Memory × List Field
unfolding copy_name copy_value
decode_fields zero m src dst end = (m, [])
decode_fields (suc max) m src dst end =
    let n = copy_name (end - src) m src dst end in
    let (m1, src1, dst1) = n in
    let v = copy_value (end - (src1 + 1)) m1 (src1 + 1) (dst1 + 1) end in
    let (m2, src2, dst2) = v in
    let field : Field = record {
      name = dst;
      name_len = dst1 - dst;
      value = dst1 + 1;
      value_len = dst2 - (dst1 + 1);
    } in
    let rest = decode_fields max m2 (src2 + 1) (dst2 + 1) end in
    if src1 == end
    then (m1, [])
    else if leb end src2
    then (m2, field ∷ [])
    else (rest.0, field ∷ rest.1)

-- `urldecode` of the string of `len` bytes at `s`.
pub urldecode : ℕ → Memory → ℕ → ℕ → Memory × List Field
unfolding decode_fields
urldecode max m s len = decode_fields max m s s (s + len)
