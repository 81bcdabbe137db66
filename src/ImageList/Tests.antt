-- ===== src/ImageList/Tests.antt =====
-- A concrete list of images.
use dnbd3_fuse_lowlevel.Prelude.{
  ℕ, ◌≡◌, ◌≢◌, ◌↔◌, [], ◌∷◌, none, some, true, false, ◌==◌, if◌then◌else◌, arith, refl, ◌⊎◌,
}
use dnbd3_fuse_lowlevel.Slots.{contains, remove_from_list}
use dnbd3_fuse_lowlevel.ImageList.{
  Images, Entry, get, release, remove, use_image, find, same_name, free_image,
}
use dnbd3_fuse_lowlevel.ImageList.Get.{Got, get-Got}
use dnbd3_fuse_lowlevel.ImageList.Lifetime.{IsSafe, drop_user}
use dnbd3_fuse_lowlevel.ImageList.Reach.{removed, released, next, here, got, Reach-IsSafe}

-- Two revisions of one image; every other number stands for an image that is freed.
abbrev files : ℕ → Entry
files p =
    if p == 1
    then record { name = b'a' ∷ []; rid = 1; users = 0; freed = false }
    else (if p == 2
        then record { name = b'a' ∷ []; rid = 2; users = 0; freed = false }
        else record { name = []; rid = 0; users = 0; freed = true })

abbrev start : Images
start = record { slots = some 1 ∷ none ∷ some 2 ∷ []; entries = files }

abbrev in_use : Images
in_use = use_image start 2

newest_found : get (b'a' ∷ []) 0 start ≡ (in_use, some 2)
unfolding get find same_name
newest_found = refl

revision_found : get (b'a' ∷ []) 1 start ≡ (use_image start 1, some 1)
unfolding get find same_name
revision_found = refl

slash_refused : get (b'a' ∷ b'/' ∷ []) 0 start ≡ (start, none)
unfolding get
slash_refused = refl

abbrev removed_in_use : Images
removed_in_use = remove 2 (get (b'a' ∷ []) 0 start).0

abbrev end : Images
end = record { slots = some 1 ∷ []; entries = (free_image (drop_user removed_in_use 2) 2).entries }

kept_in_use : (removed_in_use.entries 2).freed ≡ false
unfolding get find same_name remove contains remove_from_list
kept_in_use = refl

freed_late : release 2 removed_in_use ≡ some end
unfolding get find same_name remove contains remove_from_list release
freed_late = refl

get-Got_example : Got (b'a' ∷ []) 0 start (get (b'a' ∷ []) 0 start)
get-Got_example = get-Got (b'a' ∷ []) 0 start

start-IsSafe : IsSafe 3 start
start-IsSafe = record {
  unused = λ p f. ground arith;
  unlisted = λ p f. ground arith;
  once = λ p. ground arith;
  fits = omega arith;
}

Reach-IsSafe_example :
    IsSafe 3 end
    × ((p : ℕ)
        → (contains start.slots p ≡ true)
          ⊎ (((start.entries p).users ≢ 0) ⊎ ((start.entries p).freed ≡ true))
        → ((end.entries p).freed ≡ true)
          ↔ ((contains end.slots p ≡ false) × ((end.entries p).users ≡ 0)))
Reach-IsSafe_example =
    Reach-IsSafe 3 start end
      (next removed_in_use end
        (next (get (b'a' ∷ []) 0 start).0 removed_in_use (next start _ here (got (b'a' ∷ []) 0))
          (removed 2))
        (released 2 end freed_late))
      start-IsSafe
