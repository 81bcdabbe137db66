-- ===== src/Serialize/Items.antt =====
-- src/serialize.c: the values of a message, and what putting them into a buffer does.
use dnbd3_fuse_lowlevel.Prelude.{
  ℕ, ◌+◌, ◌^◌, ◌≤◌, ◌<◌, ◌≡◌, List, [], ◌∷◌, ◌++◌, Option, none, some, false, ltb, get_or, length,
  length-append, arith, refl, ap, ◌∙◌, sym,
}
use dnbd3_fuse_lowlevel.Serialize.{
  Buffer, get_uint8, get_uint16, get_uint64, get_string, put_bytes, put_uint8, put_uint16,
  put_uint64, put_string, word_bytes,
}
use dnbd3_fuse_lowlevel.Serialize.Memory.{
  Holds, append-Holds, length-write, write-below, write-Holds, NoNull,
}

-- A value of a message.
pub data Item : Type 0 where
  uint8 : ℕ → Item
  uint16 : ℕ → Item
  uint64 : ℕ → Item
  string : List ℕ → Item

abbrev pub item_bytes : Item → List ℕ
item_bytes (uint8 v) = word_bytes 1 v
item_bytes (uint16 v) = word_bytes 2 v
item_bytes (uint64 v) = word_bytes 8 v
item_bytes (string s) = s ++ (0 ∷ [])

abbrev pub put_item : Buffer → Item → Buffer
put_item b (uint8 v) = put_uint8 b v
put_item b (uint16 v) = put_uint16 b v
put_item b (uint64 v) = put_uint64 b v
put_item b (string s) = put_string b s

abbrev pub put_items : Buffer → List Item → Buffer
put_items b [] = b
put_items b (i ∷ is) = put_items (put_item b i) is

-- Reading values of given types; `none` is a string that is not there.
abbrev pub string_item : Buffer × Option (List ℕ) → Buffer × Option Item
string_item (b, none) = (b, none)
string_item (b, some s) = (b, some (string s))

pub data Kind : Type 0 where
  a_uint8 a_uint16 a_uint64 a_string : Kind

abbrev pub kind : Item → Kind
kind (uint8 v) = a_uint8
kind (uint16 v) = a_uint16
kind (uint64 v) = a_uint64
kind (string s) = a_string

abbrev pub get_item : Buffer → Kind → Buffer × Option Item
get_item b a_uint8 = let (b', v) = get_uint8 b in (b', some (uint8 v))
get_item b a_uint16 = let (b', v) = get_uint16 b in (b', some (uint16 v))
get_item b a_uint64 = let (b', v) = get_uint64 b in (b', some (uint64 v))
get_item b a_string = string_item (get_string b)

abbrev pub get_items : Buffer → List Kind → List (Option Item)
get_items b [] = []
get_items b (k ∷ ks) = let (b', i) = get_item b k in i ∷ get_items b' ks

-- A value fits its type.
abbrev pub IsItem : Item → Type 0
IsItem (uint8 v) = v < 2 ^ 8
IsItem (uint16 v) = v < 2 ^ 16
IsItem (uint64 v) = v < 2 ^ 64
IsItem (string s) = NoNull s

abbrev pub AreItems : List Item → Type 0
AreItems [] = Unit {0}
AreItems (i ∷ is) = IsItem i × AreItems is

abbrev pub all_bytes : List Item → List ℕ
all_bytes [] = []
all_bytes (i ∷ is) = item_bytes i ++ all_bytes is

-- Bytes that fit are written, and what stands before them is kept.
pub record Put (b b' : Buffer) (bytes : List ℕ) : Type 0 where
  pub moved : b'.buffer_pointer ≡ b.buffer_pointer + length bytes
  pub limit : b'.buffer_end ≡ b.buffer_end
  pub size : length b'.buffer ≡ length b.buffer
  pub there : Holds b'.buffer b.buffer_pointer bytes
  pub kept : (k : ℕ) → k < b.buffer_pointer → get_or b'.buffer k 0 ≡ get_or b.buffer k 0

put_bytes-Put :
    (bytes : List ℕ) (b : Buffer)
    → b.buffer_pointer + length bytes ≤ b.buffer_end
    → b.buffer_end ≤ length b.buffer
    → Put b (put_bytes bytes b) bytes
unfolding put_bytes
put_bytes-Put bytes b fits big =
    let room : ltb b.buffer_end (b.buffer_pointer + length bytes) ≡ false = ground arith in
    rw room (record {
      moved = refl;
      limit = refl;
      size = length-write b.buffer b.buffer_pointer bytes;
      there = write-Holds b.buffer b.buffer_pointer bytes (omega arith);
      kept = λ k small. write-below b.buffer b.buffer_pointer bytes k small;
    })

put_item-Put :
    (i : Item) (b : Buffer)
    → b.buffer_pointer + length (item_bytes i) ≤ b.buffer_end
    → b.buffer_end ≤ length b.buffer
    → Put b (put_item b i) (item_bytes i)
put_item-Put (uint8 v) b fits big = put_bytes-Put (word_bytes 1 v) b fits big
put_item-Put (uint16 v) b fits big = put_bytes-Put (word_bytes 2 v) b fits big
put_item-Put (uint64 v) b fits big = put_bytes-Put (word_bytes 8 v) b fits big
put_item-Put (string s) b fits big = put_bytes-Put (s ++ (0 ∷ [])) b fits big

Put-append : (b b1 b2 : Buffer) (xs ys : List ℕ) → Put b b1 xs → Put b1 b2 ys → Put b b2 (xs ++ ys)
Put-append b b1 b2 xs ys p q = record {
  moved = omega (arith, p.moved, q.moved, length-append {0} xs ys);
  limit = q.limit ∙ p.limit;
  size = q.size ∙ p.size;
  there =
      append-Holds b2.buffer b.buffer_pointer xs ys
        (λ k small. q.kept (b.buffer_pointer + k) (omega (arith, p.moved)) ∙ p.there k small)
        (λ k small. ap (λ i. get_or b2.buffer (i + k) 0) (sym p.moved) ∙ q.there k small);
  kept = λ k small. q.kept k (omega (arith, p.moved)) ∙ p.kept k small;
}

pub put_items-Put :
    (is : List Item) (b : Buffer)
    → b.buffer_pointer + length (all_bytes is) ≤ b.buffer_end
    → b.buffer_end ≤ length b.buffer
    → Put b (put_items b is) (all_bytes is)
put_items-Put [] b fits big = record {
  moved = omega arith;
  limit = refl;
  size = refl;
  there = λ k small. absurd (omega arith);
  kept = λ k small. refl;
}
put_items-Put (i ∷ is) b fits big =
    let both = length-append {0} (item_bytes i) (all_bytes is) in
    let p = put_item-Put i b (omega arith) big in
    let q =
      put_items-Put is (put_item b i) (omega (arith, p.moved, p.limit))
        (omega (arith, p.size, p.limit)) in
    Put-append b (put_item b i) (put_items (put_item b i) is) (item_bytes i) (all_bytes is) p q
