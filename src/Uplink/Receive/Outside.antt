-- ===== src/Uplink/Receive/Outside.antt =====
-- src/server/uplink.c: a block from the uplink that is not inside the image.
use dnbd3_fuse_lowlevel.Prelude.{
  ℕ, ◌+◌, ◌-◌, ◌^◌, ◌<◌, ◌≡◌, [], ◌∷◌, none, Bool, true, false, not, ◌||◌, ltb, ◌==◌, arith, refl,
}
use dnbd3_fuse_lowlevel.Prelude.Words.{add64}
use dnbd3_fuse_lowlevel.Image.CacheMap.Update.{update_cachemap_outside}
use dnbd3_fuse_lowlevel.Uplink.Receive.{wrote, write_loop, Receiver, cache_block, receive_block}

write_loop_whole :
    (start size : ℕ) (stored : ℕ → Bool)
    → 0 < size
    → (write_loop start size true 0 stored (wrote size ∷ [])).0 ≡ size
unfolding write_loop
write_loop_whole start size stored pos =
    let test : (not (ltb 0 size) || ((size == 0) || ltb (size - 0) size)) ≡ false = ground arith in
    rw test (omega arith)

cache_block_outside :
    (start size : ℕ) (r : Receiver)
    → 0 < size
    → r.image.virtual_filesize < start + size
    → start + size < 2 ^ 64
    → cache_block start size true (wrote size ∷ []) r ≡ none
unfolding cache_block
cache_block_outside start size r pos behind small =
    let whole = write_loop_whole start size r.stored pos in
    let some_done : ltb 0 size ≡ true = ground arith in
    let out = update_cachemap_outside r.image start (add64 start size) true (omega arith) in
    rw (whole, some_done, out) refl

-- A reply for a block that ends behind the end of the image, below 2 ^ 64, fails an assert once its
-- bytes are written to the cache file, whether the block was requested or not.
pub receive_block_outside :
    (start size : ℕ) (r : Receiver)
    → 0 < size
    → r.image.virtual_filesize < start + size
    → start + size < 2 ^ 64
    → receive_block start size true (wrote size ∷ []) r ≡ none
unfolding receive_block
receive_block_outside start size r pos behind small =
    rw (cache_block_outside start size r pos behind small, receive_block) refl
