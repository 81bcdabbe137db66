-- ===== src/Serialize/Tests.antt =====
-- Concrete messages.
use dnbd3_fuse_lowlevel.Prelude.{◌≡◌, List, [], ◌∷◌, some, replicate, map, arith, refl}
use dnbd3_fuse_lowlevel.Serialize.{
  Buffer, reset_read, reset_write, written_length, put_uint16, put_bytes, word_bytes, write,
}
use dnbd3_fuse_lowlevel.Serialize.Items.{Item, uint8, uint16, string, kind, put_items, get_items}
use dnbd3_fuse_lowlevel.Serialize.RoundTrip.{get_items-put_items}

abbrev empty_buffer : Buffer
empty_buffer = record {
  buffer = replicate 1000 0;
  behind = 0;
  buffer_end = 1000;
  buffer_pointer = 0;
}

abbrev items : List Item
items = uint16 300 ∷ string (b'a' ∷ b'b' ∷ []) ∷ uint8 7 ∷ []

abbrev short : Buffer
short = record { buffer = 0 ∷ 0 ∷ 0 ∷ []; behind = 0; buffer_end = 3; buffer_pointer = 0 }

low_byte_first : (put_uint16 short 300).buffer ≡ 44 ∷ 1 ∷ 0 ∷ []
unfolding put_bytes word_bytes write
low_byte_first = refl

get_items-put_items_example :
    (written_length (put_items (reset_write empty_buffer) items) ≡ 6)
    × (get_items
          (reset_read
            (put_items (reset_write empty_buffer) items)
            (written_length (put_items (reset_write empty_buffer) items)))
          (map kind items)
        ≡ map some items)
unfolding word_bytes put_bytes write
get_items-put_items_example =
    get_items-put_items items empty_buffer (put_items (reset_write empty_buffer) items)
      (omega arith) refl refl (omega arith) (λ k small. refl)

-- Two bytes of data, and a null byte behind them.
abbrev two_bytes : Buffer
two_bytes = record { buffer = b'a' ∷ b'b' ∷ 0 ∷ []; behind = 1; buffer_end = 2; buffer_pointer = 0 }
