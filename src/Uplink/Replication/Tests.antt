-- ===== src/Uplink/Replication/Tests.antt =====
-- Concrete replications.
use dnbd3_fuse_lowlevel.Prelude.{
  ℕ, zero, suc, ◌<◌, ◌≡◌, List, [], ◌∷◌, ◌++◌, none, some, true, false, get_or, replicate, arith,
  refl,
}
use dnbd3_fuse_lowlevel.Image.{Image}
use dnbd3_fuse_lowlevel.Uplink.Replication.{full, Replication, send_replication_request}
use dnbd3_fuse_lowlevel.Uplink.Replication.Request.{Requested, send_replication_request-full}

abbrev map : List ℕ
map = 0xff ∷ 0xff ∷ 7 ∷ []

-- Two bytes and a half of the map: 20 blocks.
abbrev image : Image
image = record {
  cache_map = some map;
  virtual_filesize = 81920;
  real_filesize = 81920;
  next_completeness_estimate = 0;
  crc32 = none;
  completeness_estimate = 0;
  working = true;
}

abbrev start : Replication
start = record { next_index = some 1; replicated_last = false; handle = none }

last_byte_requested : send_replication_request full 0 true 1 3 true image start ≡ (
  record { next_index = some 3; replicated_last = true; handle = some 65536 },
  some (record { offset = 65536; size = 16384; handle = 65536; hops = 1 }),
)
unfolding send_replication_request
last_byte_requested = refl

send_replication_request-full_example :
    Requested 81920 map false 1 (send_replication_request full 0 true 1 3 true image start)
send_replication_request-full_example =
    send_replication_request-full 3 1 0 1 image map false refl (omega arith) (omega arith)
      (omega arith) (omega arith)

get_or-replicate_append :
    (n : ℕ) (xs : List ℕ) (k : ℕ) → k < n → get_or (replicate n 0 ++ xs) k 0 ≡ 0
get_or-replicate_append zero xs k small = absurd (omega arith)
get_or-replicate_append (suc n) xs zero small = refl
get_or-replicate_append (suc n) xs (suc k) small = get_or-replicate_append n xs k (omega arith)

abbrev two_hash_blocks : List ℕ
two_hash_blocks = replicate 512 0 ++ (7 ∷ [])
