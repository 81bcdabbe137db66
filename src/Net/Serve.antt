-- ===== src/Net/Serve.antt =====
-- src/server/net.c: which bytes a reply carries.
use dnbd3_fuse_lowlevel.Prelude.{ℕ, ◌+◌, ◌-◌, ◌*◌, ◌/◌, ◌≤◌, ◌<◌, min, ◌≡◌, ◌⊎◌, List, Option, true}
use dnbd3_fuse_lowlevel.Image.{Image}
use dnbd3_fuse_lowlevel.Image.CacheMap.Update.{map_cached}
use dnbd3_fuse_lowlevel.Net.{Answer, refuse, relay, send}

-- Every block that the bytes from `offset` to below `offset + size` touch is cached.
abbrev pub TouchedCached : Option (List ℕ) → ℕ → ℕ → Type 0
TouchedCached map offset size =
    (k : ℕ) → offset / 4096 ≤ k → 4096 * k < offset + size → 0 < size → map_cached map k ≡ true

-- What each answer means: a refused request reaches beyond the image; a relayed one lies in it and
-- touches a block that is not cached; an answered one lies in it and touches cached blocks only, and
-- the header announces the size asked for. If it begins at most at the end of the file, so many bytes
-- follow, of which those inside the file come from it; if it begins behind that, in the padding of
-- the last block, the file is asked for more bytes than announced.
abbrev pub Meaning : Image → ℕ → ℕ → Answer → Type 0
Meaning image offset size refuse =
    (image.virtual_filesize ≤ offset) ⊎ (image.virtual_filesize < offset + size)
Meaning image offset size relay =
    (offset < image.virtual_filesize)
    × (offset + size ≤ image.virtual_filesize)
    × ¬ (TouchedCached image.cache_map offset size)
Meaning image offset size (send announced file null) =
    (offset < image.virtual_filesize)
    × (offset + size ≤ image.virtual_filesize)
    × TouchedCached image.cache_map offset size
    × (announced ≡ size)
    × (offset ≤ image.real_filesize
        → (file ≡ min size (image.real_filesize - offset)) × (file + null ≡ size))
    × (image.real_filesize < offset → 0 < size → size < file)
