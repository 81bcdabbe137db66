-- ===== src/Net/Tests.antt =====
-- Concrete requests, answered.
use dnbd3_fuse_lowlevel.Prelude.{
  ℕ, zero, suc, none, ◌≡◌, ◌↔◌, refl, List, [], ◌∷◌, some, true, arith,
}
use dnbd3_fuse_lowlevel.Prelude.Bytes.{AllBytes, has_bit}
use dnbd3_fuse_lowlevel.Image.{Image}
use dnbd3_fuse_lowlevel.Image.CacheMap.Complete.{AllCached}
use dnbd3_fuse_lowlevel.Net.{
  refuse, relay, send, get_block, is_cached, middle_full, first_marked, last_marked,
}
use dnbd3_fuse_lowlevel.Net.Cached.{is_cached_iff}

-- 25 blocks, of which 5 to 19 are cached; the file ends inside the last block.
abbrev map : List ℕ
map = 0xe0 ∷ 0xff ∷ 0x0f ∷ 0 ∷ []

abbrev image : Image
image = record {
  cache_map = some map;
  virtual_filesize = 102400;
  real_filesize = 100000;
  next_completeness_estimate = 0;
  crc32 = some [];
  completeness_estimate = 0;
  working = true;
}

map-AllBytes : AllBytes map
map-AllBytes zero = omega arith
map-AllBytes (suc zero) = omega arith
map-AllBytes (suc (suc zero)) = omega arith
map-AllBytes (suc (suc (suc zero))) = omega arith
map-AllBytes (suc (suc (suc (suc i)))) = omega arith

answers :
    (get_block image 20480 61440 ≡ send 61440 61440 0)
    × (get_block image 20480 61441 ≡ relay)
    × (get_block image 20000 10 ≡ relay)
    × (get_block image 102400 0 ≡ refuse)
    × (get_block image 0 102401 ≡ refuse)
    × (get_block (record image { cache_map = none }) 98304 4096 ≡ send 4096 1696 2400)
unfolding get_block middle_full first_marked last_marked has_bit
answers = (refl, refl, refl, refl, refl, refl)

is_cached_example : (is_cached map 20480 81920 ≡ true) ↔ AllCached map 5 20
is_cached_example = is_cached_iff map 5 20 map-AllBytes (omega arith) (omega arith)
