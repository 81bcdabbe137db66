-- ===== src/Select/Tests.antt =====
-- A concrete request for an image.
use dnbd3_fuse_lowlevel.Prelude.{
  ℕ, ◌≡◌, List, [], ◌∷◌, Option, none, some, true, false, replicate, arith, refl,
}
use dnbd3_fuse_lowlevel.Prelude.Bytes.{has_bit}
use dnbd3_fuse_lowlevel.Serialize.{Buffer, written_length}
use dnbd3_fuse_lowlevel.Select.{
  Config, Served, admits, choose_image, handshake, recv_request_payload, select_image, sent_bytes,
}
use dnbd3_fuse_lowlevel.Select.Exchange.{Replied, IsServed, select_image-handshake}

abbrev buffer : Buffer
buffer = record { buffer = replicate 1000 0; behind = 0; buffer_end = 0; buffer_pointer = 0 }

abbrev config : Config
config = record { is_proxy = true; bgr_full = false; lookup_missing_for_proxy = false }

abbrev image : Served
image = record {
  name = b'a' ∷ b'b' ∷ [];
  rid = 4;
  complete = true;
  working = true;
  virtual_filesize = 81920;
  uplink = none;
}

abbrev load : List ℕ → ℕ → Option Served
load name rid = none

abbrev get : List ℕ → ℕ → Option Served
get name rid = some image

-- A proxy that replicates in the background gets complete images only.
complete_for_proxy : choose_image config load get (b'a' ∷ []) 0 3 ≡ some image
unfolding choose_image has_bit
complete_for_proxy = refl

image-IsServed : IsServed image
image-IsServed = record {
  name_ok = ground arith;
  name_short = omega arith;
  rid_ok = omega arith;
  size_ok = omega arith;
}

select_image-handshake_example :
    (payload : Buffer) × (recv_request_payload
        (written_length (select_image (b'a' ∷ b'b' ∷ []) 0 3 buffer))
        (sent_bytes (select_image (b'a' ∷ b'b' ∷ []) 0 3 buffer))
        buffer
      ≡ some payload)
    × Replied buffer (some image) true true (
        handshake config load get false true
          (written_length (select_image (b'a' ∷ b'b' ∷ []) 0 3 buffer))
          payload)
unfolding choose_image has_bit admits
select_image-handshake_example =
    select_image-handshake config load get false true (b'a' ∷ b'b' ∷ []) 0 3 buffer buffer buffer
      refl refl refl (ground arith) (omega arith) (omega arith) (omega arith) image-IsServed
