-- ===== src/Serialize/RoundTrip.antt =====
-- src/serialize.c: what is put into a buffer is got out of it again.
use dnbd3_fuse_lowlevel.Prelude.{
  ℕ, ◌+◌, ◌-◌, ◌^◌, ◌≤◌, ◌<◌, ◌≡◌, List, [], ◌∷◌, ◌++◌, some, false, ltb, leb, get_or, length,
  length-append, map, arith, refl, ap, ◌∙◌, sym,
}
use dnbd3_fuse_lowlevel.Serialize.{
  Buffer, max_payload, reset_read, reset_write, read, get_word, get_string, word_bytes,
  written_length,
}
use dnbd3_fuse_lowlevel.Serialize.Memory.{
  Holds, get_or_default, read-Holds, Holds-append, length-word_bytes, word_value-word_bytes, NoNull,
  string_end-Holds,
}
use dnbd3_fuse_lowlevel.Serialize.Items.{
  Item, uint8, uint16, uint64, string, item_bytes, put_items, kind, get_item, get_items, IsItem,
  AreItems, all_bytes, put_items-Put,
}

-- Behind the bytes of a value.
abbrev pub after : Buffer → ℕ → Buffer
after b n = record b { buffer_pointer = b.buffer_pointer + n }

pub get_word-Holds :
    (n v : ℕ) (b : Buffer)
    → Holds b.buffer b.buffer_pointer (word_bytes n v)
    → v < 256 ^ n
    → b.buffer_pointer + n ≤ b.buffer_end
    → get_word n b ≡ (after b n, v)
unfolding get_word
get_word-Holds n v b h small room =
    let test : ltb b.buffer_end (b.buffer_pointer + n) ≡ false = ground arith in
    let bytes : read b.buffer b.buffer_pointer n ≡ word_bytes n v =
      ap (read b.buffer b.buffer_pointer) (sym (length-word_bytes n v))
      ∙ read-Holds b.buffer b.buffer_pointer (word_bytes n v) h in
    rw (test, bytes, word_value-word_bytes n v small) refl

pub get_string-Holds :
    (s : List ℕ) (b : Buffer)
    → Holds b.buffer b.buffer_pointer (s ++ (0 ∷ []))
    → NoNull s
    → b.buffer_pointer + length s < b.buffer_end
    → b.buffer_end ≤ length b.buffer
    → get_string b ≡ (after b (length s + 1), some s)
unfolding get_string
get_string-Holds s b h ok room big =
    let start = b.buffer_pointer in
    let test : leb b.buffer_end b.buffer_pointer ≡ false = ground arith in
    let ptr =
      string_end-Holds (b.buffer_end - b.buffer_pointer) b.buffer_pointer b.buffer s h ok
        (omega arith) in
    let halves = Holds-append b.buffer b.buffer_pointer s (0 ∷ []) h in
    let last : get_or b.buffer (b.buffer_pointer + length s) b.behind ≡ 0 =
      get_or_default b.buffer (b.buffer_pointer + length s) b.behind (omega arith)
      ∙ ap (λ i. get_or b.buffer i 0) {y = b.buffer_pointer + length s + 0} (omega arith)
      ∙ halves.1 0 (omega arith) in
    let len : b.buffer_pointer + length s - b.buffer_pointer ≡ length s = omega arith in
    let next : b.buffer_pointer + length s + 1 ≡ b.buffer_pointer + (length s + 1) = omega arith in
    rw (test, ptr, last, len, read-Holds b.buffer b.buffer_pointer s halves.0, next) refl

get_item-Holds :
    (i : Item) (b : Buffer)
    → Holds b.buffer b.buffer_pointer (item_bytes i)
    → IsItem i
    → b.buffer_pointer + length (item_bytes i) ≤ b.buffer_end
    → b.buffer_end ≤ length b.buffer
    → get_item b (kind i) ≡ (after b (length (item_bytes i)), some i)
get_item-Holds (uint8 v) b h ok room big =
    let len = length-word_bytes 1 v in
    rw (get_word-Holds 1 v b h (omega arith) (omega arith), len) refl
get_item-Holds (uint16 v) b h ok room big =
    let len = length-word_bytes 2 v in
    rw (get_word-Holds 2 v b h (omega arith) (omega arith), len) refl
get_item-Holds (uint64 v) b h ok room big =
    let len = length-word_bytes 8 v in
    rw (get_word-Holds 8 v b h (omega arith) (omega arith), len) refl
get_item-Holds (string s) b h ok room big =
    let len = length-append {0} s (0 ∷ []) in
    rw (get_string-Holds s b h ok (omega arith) big, len) refl

get_items-Holds :
    (is : List Item) (b : Buffer)
    → Holds b.buffer b.buffer_pointer (all_bytes is)
    → AreItems is
    → b.buffer_pointer + length (all_bytes is) ≤ b.buffer_end
    → b.buffer_end ≤ length b.buffer
    → get_items b (map kind is) ≡ map some is
get_items-Holds [] b h ok room big = refl
get_items-Holds (i ∷ is) b h ok room big =
    let both = length-append {0} (item_bytes i) (all_bytes is) in
    let halves = Holds-append b.buffer b.buffer_pointer (item_bytes i) (all_bytes is) h in
    let first = get_item-Holds i b halves.0 ok.0 (omega arith) big in
    let rest =
      get_items-Holds is (after b (length (item_bytes i))) halves.1 ok.1 (omega arith) big in
    rw (first, rest) refl

-- Values put into a fresh buffer of MAX_PAYLOAD bytes, if all of them fit, come out again in order
-- from any buffer that received as many bytes as were written; strings have no null byte, and words
-- fit their types.
pub get_items-put_items :
    (is : List Item) (b r : Buffer)
    → AreItems is
    → length b.buffer ≡ max_payload
    → length r.buffer ≡ max_payload
    → length (all_bytes is) ≤ max_payload
    → ((k : ℕ)
        → k < written_length (put_items (reset_write b) is)
        → get_or r.buffer k 0 ≡ get_or (put_items (reset_write b) is).buffer k 0)
    → (written_length (put_items (reset_write b) is) ≡ length (all_bytes is))
      × (get_items (reset_read r (written_length (put_items (reset_write b) is))) (map kind is)
          ≡ map some is)
get_items-put_items is b r ok big_b big_r fits received =
    let p = put_items-Put is (reset_write b) (omega arith) (omega arith) in
    let written : written_length (put_items (reset_write b) is) ≡ length (all_bytes is) =
      omega (arith, p.moved) in
    (
      written,
      get_items-Holds is (reset_read r (written_length (put_items (reset_write b) is)))
          (λ k small.
            let same : 0 + k ≡ k = omega arith in
            rw same (
              received k (omega arith)
              ∙ ap (λ i. get_or (put_items (reset_write b) is).buffer i 0) (sym same)
              ∙ p.there k small))
          ok (omega arith) (omega arith),
    )
