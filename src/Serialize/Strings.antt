-- ===== src/Serialize/Strings.antt =====
-- src/serialize.c: a string at the end of a buffer.
use dnbd3_fuse_lowlevel.Prelude.{
  ℕ, zero, suc, ◌+◌, ◌-◌, ◌≤◌, ◌<◌, ◌≡◌, ◌≢◌, List, some, false, leb, ◌==◌, get_or, arith, refl,
  ◌∙◌,
}
use dnbd3_fuse_lowlevel.Serialize.{Buffer, read, string_end, get_string}

string_end-none :
    (n p : ℕ) (buf : List ℕ)
    → ((k : ℕ) → p ≤ k → k < p + n → get_or buf k 0 ≢ 0)
    → string_end n p buf ≡ p + n
unfolding string_end
string_end-none zero p buf h = omega arith
string_end-none (suc n) p buf h =
    let more : (get_or buf p 0 == 0) ≡ false = ground (arith, h p (omega arith) (omega arith)) in
    let rest = string_end-none n (p + 1) buf (λ k lo hi. h k (omega arith) (omega arith)) in
    rw more (rest ∙ omega arith)

-- Where the data ends without a null byte and the byte of memory behind it is 0, `serializer_get_string`
-- takes the rest of the data as a string and moves the pointer beyond the end of the buffer.
pub get_string_unterminated :
    (b : Buffer)
    → b.buffer_pointer < b.buffer_end
    → ((k : ℕ) → b.buffer_pointer ≤ k → k < b.buffer_end → get_or b.buffer k 0 ≢ 0)
    → get_or b.buffer b.buffer_end b.behind ≡ 0
    → get_string b ≡ (
      record b { buffer_pointer = b.buffer_end + 1 },
      some (read b.buffer b.buffer_pointer (b.buffer_end - b.buffer_pointer)),
    )
unfolding get_string
get_string_unterminated b room full behind =
    let test : leb b.buffer_end b.buffer_pointer ≡ false = ground arith in
    let ptr =
      string_end-none (b.buffer_end - b.buffer_pointer) b.buffer_pointer b.buffer
        (λ k lo hi. full k lo (omega arith)) in
    let at_end : b.buffer_pointer + (b.buffer_end - b.buffer_pointer) ≡ b.buffer_end =
      omega arith in
    rw (test, ptr, at_end, behind) refl
