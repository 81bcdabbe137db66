-- ===== src/Uplink/Receive/Tests.antt =====
-- A concrete run.
use dnbd3_fuse_lowlevel.Prelude.{
  ℕ, zero, suc, ◌≡◌, List, [], ◌∷◌, Option, none, some, true, false, arith, refl,
}
use dnbd3_fuse_lowlevel.Image.{Image}
use dnbd3_fuse_lowlevel.Image.CacheMap.Blocks.{Covers}
use dnbd3_fuse_lowlevel.Prelude.Bytes.{AllBytes}
use dnbd3_fuse_lowlevel.Uplink.Replication.{full, Replication, send_replication_request}
use dnbd3_fuse_lowlevel.Uplink.{QueuedRequest, pending}
use dnbd3_fuse_lowlevel.Uplink.Link.{BlockRequest}
use dnbd3_fuse_lowlevel.Uplink.Receive.{
  receive_block, wrote, interrupted, no_space, write_loop, Receiver, block, nothing, handle_receive,
}
use dnbd3_fuse_lowlevel.Uplink.Receive.Outside.{receive_block_outside}
use dnbd3_fuse_lowlevel.Uplink.Receive.Store.{IsSound, Ends, handle_receive-IsSound}

abbrev map : List ℕ
map = 0 ∷ 0 ∷ []

abbrev image : Image
image = record {
  cache_map = some map;
  virtual_filesize = 40960;
  real_filesize = 40000;
  next_completeness_estimate = 0;
  crc32 = none;
  completeness_estimate = 0;
  working = true;
}

abbrev waiting_request : QueuedRequest
waiting_request = record {
  handle = 9;
  from = 5000;
  to = 6000;
  client = some 3;
  status = pending;
  hop_count = 0;
}

abbrev start : Receiver
start = record {
  queue = waiting_request ∷ [];
  image = image;
  replication = record { next_index = some 0; replicated_last = false; handle = some 4096 };
  idle_time = 7;
  stored = λ b. true;
}

-- A short write, an interrupted one and a full disk where space is made once.
written_in_parts :
    (write_loop 4096 8192 true 0
      (λ b. false)
      (wrote 5000 ∷ interrupted ∷ no_space true ∷ wrote 100 ∷ no_space true ∷ [])).0
    ≡ 5100
unfolding write_loop
written_in_parts = refl

abbrev send : Image → Replication → Replication × Option BlockRequest
send i rep = send_replication_request full 0 true 1 3 true i rep

map-AllBytes : AllBytes map
map-AllBytes zero = omega arith
map-AllBytes (suc zero) = omega arith
map-AllBytes (suc (suc i)) = omega arith

map-Covers : Covers map 10
map-Covers = record { bytes = map-AllBytes; long = omega arith; small = omega arith }

start-IsSound : IsSound 40960 start
start-IsSound = record {
  valid = record { whole = refl; small = omega arith; covers = map-Covers };
  same_size = refl;
  backed = λ k small c b lo hi. refl;
  queue = (record { free_iff = refl; idle = refl }, tt);
}

handle_receive-IsSound_example :
    Ends 40960
      (handle_receive full 65536 send (block 4096 8192 true (wrote 8192 ∷ []) ∷ nothing ∷ []) start)
handle_receive-IsSound_example =
    handle_receive-IsSound full 65536 40960 send
      (block 4096 8192 true (wrote 8192 ∷ []) ∷ nothing ∷ []) start start-IsSound (omega arith, tt)

receive_block_outside_example : receive_block 40960 4096 true (wrote 4096 ∷ []) start ≡ none
receive_block_outside_example =
    receive_block_outside 40960 4096 start (omega arith) (omega arith) (omega arith)
