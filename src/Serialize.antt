-- ===== src/Serialize.antt =====
-- src/serialize.c: the buffer of a message's payload. Pointers into it are indices; words are stored
-- with the low byte first on every host, as `net_order_16` and `net_order_64` provide.
pub mod Items
pub mod Memory
pub mod RoundTrip
pub mod Strings
mod Tests
use dnbd3_fuse_lowlevel.Prelude.{
  ℕ, zero, suc, ◌+◌, ◌-◌, ◌*◌, ◌/◌, ◌%◌, ◌^◌, min, List, [], ◌∷◌, ◌++◌, Option, none, some, Bool,
  true, false, not, ◌&&◌, ◌||◌, ltb, leb, ◌==◌, if◌then◌else◌, get_or, set, length,
}
use dnbd3_fuse_lowlevel.Prelude.Words.{cast32}

-- `MAX_PAYLOAD`
abbrev pub max_payload : ℕ
max_payload = 1000

-- `serialized_buffer_t`; `behind` is the byte of memory that follows the array.
pub record Buffer : Type 0 where
  pub buffer : List ℕ
  pub behind : ℕ
  pub buffer_end : ℕ
  pub buffer_pointer : ℕ

abbrev pub reset_read : Buffer → ℕ → Buffer
reset_read b data_len = record b { buffer_end = min max_payload data_len; buffer_pointer = 0 }

abbrev pub reset_write : Buffer → Buffer
reset_write b = record b { buffer_end = max_payload; buffer_pointer = 0 }

-- `memcpy` out of the buffer, and into it.
pub read : List ℕ → ℕ → ℕ → List ℕ
read buf p zero = []
read buf p (suc n) = get_or buf p 0 ∷ read buf (p + 1) n

pub write : List ℕ → ℕ → List ℕ → List ℕ
write buf p [] = buf
write buf p (x ∷ xs) = write (set buf p x) (p + 1) xs

pub word_value : List ℕ → ℕ
word_value [] = 0
word_value (x ∷ xs) = x + 256 * word_value xs

pub word_bytes : ℕ → ℕ → List ℕ
word_bytes zero value = []
word_bytes (suc n) value = value % 256 ∷ word_bytes n (value / 256)

-- A word of `n` bytes, or 0 if the buffer is at its end.
pub get_word : ℕ → Buffer → Buffer × ℕ
unfolding read word_value
get_word n b = if ltb b.buffer_end (b.buffer_pointer + n) then (b, 0) else (
  record b { buffer_pointer = b.buffer_pointer + n },
  word_value (read b.buffer b.buffer_pointer n),
)

abbrev pub get_uint8 : Buffer → Buffer × ℕ
get_uint8 b = get_word 1 b

abbrev pub get_uint16 : Buffer → Buffer × ℕ
get_uint16 b = get_word 2 b

abbrev pub get_uint64 : Buffer → Buffer × ℕ
get_uint64 b = get_word 8 b

-- Bytes are written if they fit, and nothing otherwise.
pub put_bytes : List ℕ → Buffer → Buffer
unfolding write
put_bytes bytes b = if ltb b.buffer_end (b.buffer_pointer + length bytes) then b else record b {
  buffer = write b.buffer b.buffer_pointer bytes;
  buffer_pointer = b.buffer_pointer + length bytes;
}

abbrev pub put_uint8 : Buffer → ℕ → Buffer
put_uint8 b value = put_bytes (word_bytes 1 value) b

abbrev pub put_uint16 : Buffer → ℕ → Buffer
put_uint16 b value = put_bytes (word_bytes 2 value) b

abbrev pub put_uint64 : Buffer → ℕ → Buffer
put_uint64 b value = put_bytes (word_bytes 8 value) b

-- A string is its bytes without the null byte at its end.
abbrev pub put_string : Buffer → List ℕ → Buffer
put_string b value = put_bytes (value ++ (0 ∷ [])) b

-- `while (ptr < buffer->buffer_end && *ptr) ++ptr;` with `n` bytes to the end.
pub string_end : ℕ → ℕ → List ℕ → ℕ
string_end zero p buf = p
string_end (suc n) p buf =
    let rest = string_end n (p + 1) buf in if get_or buf p 0 == 0 then p else rest

-- `serializer_get_string`; `none` is the null pointer.
pub get_string : Buffer → Buffer × Option (List ℕ)
unfolding string_end read
get_string b =
    if leb b.buffer_end b.buffer_pointer
    then (b, none)
    else let start = b.buffer_pointer in
      let ptr = string_end (b.buffer_end - start) start b.buffer in
      if get_or b.buffer ptr b.behind == 0
      then (record b { buffer_pointer = ptr + 1 }, some (read b.buffer start (ptr - start)))
      else (b, none)

abbrev pub written_length : Buffer → ℕ
written_length b = cast32 b.buffer_pointer
