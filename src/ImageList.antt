-- ===== src/ImageList.antt =====
-- src/server/image.c: the list of images and the counts of their users.
-- Images are numbers; the struct behind a number is kept after it is freed, and `freed` says so.
pub mod Find
pub mod Get
pub mod Lifetime
pub mod Reach
mod Tests
use dnbd3_fuse_lowlevel.Prelude.{
  ℕ, ◌+◌, ◌-◌, ◌^◌, List, [], ◌∷◌, Option, none, some, Bool, true, false, not, ◌&&◌, ◌||◌, ltb, leb,
  ◌==◌, if◌then◌else◌,
}
use dnbd3_fuse_lowlevel.Slots.{contains, add_to_list, remove_from_list}

-- What the list functions use of `struct _dnbd3_image`; a name is its bytes.
pub record Entry : Type 0 where
  pub name : List ℕ
  pub rid : ℕ
  pub users : ℕ
  pub freed : Bool

pub record Images : Type 0 where
  pub slots : List (Option ℕ)
  pub entries : ℕ → Entry

abbrev pub update : (ℕ → Entry) → ℕ → Entry → ℕ → Entry
update entries p e q = if p == q then e else entries q

abbrev pub put : Images → ℕ → Entry → Images
put s p e = record s { entries = update s.entries p e }

-- `strcmp( a, b ) == 0`
pub same_name : List ℕ → List ℕ → Bool
same_name [] [] = true
same_name [] (b ∷ bs) = false
same_name (a ∷ as') [] = false
same_name (a ∷ as') (b ∷ bs) = (a == b) && same_name as' bs

-- The test of the loop of `image_get`: `true` breaks it with this image.
abbrev pub better : (ℕ → Entry) → ℕ → Option ℕ → ℕ → Bool
better entries revision none p = revision == 0
better entries revision (some c) p = (revision == 0) && ltb (entries c).rid (entries p).rid

-- The loop of `image_get` over the slots.
pub find : (ℕ → Entry) → List ℕ → ℕ → List (Option ℕ) → Option ℕ → Option ℕ
find entries name revision [] candidate = candidate
find entries name revision (none ∷ ss) candidate = find entries name revision ss candidate
find entries name revision (some p ∷ ss) candidate =
    let matches = same_name (entries p).name name in
    let rest =
      find entries name revision ss
        (if matches && better entries revision candidate p then some p else candidate) in
    if matches && (revision == (entries p).rid) then some p else rest

abbrev pub last_is : ℕ → List ℕ → Bool
last_is c [] = false
last_is c (x ∷ []) = x == c
last_is c (x ∷ y ∷ ys) = last_is c (y ∷ ys)

abbrev pub first_is : ℕ → List ℕ → Bool
first_is c [] = false
first_is c (x ∷ xs) = x == c

abbrev pub no_name : List ℕ → Bool
no_name [] = true
no_name (x ∷ xs) = false

abbrev pub use_image : Images → ℕ → Images
use_image s p = let e = s.entries p in put s p (record e { users = e.users + 1 })

abbrev pub use_found : Images → Option ℕ → Images × Option ℕ
use_found s none = (s, none)
use_found s (some p) = (use_image s p, some p)

-- `image_get` up to the count of users: what follows concerns whether the image works.
pub get : List ℕ → ℕ → Images → Images × Option ℕ
unfolding find
get name revision s =
    if no_name name || (last_is b'/' name || first_is b'/' name)
    then (s, none)
    else use_found s (find s.entries name revision s.slots none)

-- `image_lock`
pub lock : ℕ → Images → Images × Option ℕ
lock p s = if contains s.slots p then (use_image s p, some p) else (s, none)

abbrev pub free_image : Images → ℕ → Images
free_image s p = let e = s.entries p in put s p (record e { freed = true })

-- `image_release`; `none` is a failed assert.
pub release : ℕ → Images → Option Images
release p s =
    let e = s.entries p in
    if e.users == 0
    then none
    else (let s' = put s p (record e { users = e.users - 1 }) in
        if not (e.users - 1 == 0) || contains s.slots p then some s' else some (free_image s' p))

-- `image_remove`
pub remove : ℕ → Images → Images
remove p s =
    let s' = record s { slots = remove_from_list p s.slots } in
    if contains s.slots p && ((s.entries p).users == 0) then free_image s' p else s'

abbrev pub with_slots : Images → Option (List (Option ℕ)) → Images × Bool
with_slots s none = (s, false)
with_slots s (some slots) = (record s { slots = slots }, true)

-- `image_addToList`, and the result; the number that `imgIdCounter` gives is left out.
pub add_image : ℕ → ℕ → Images → Images × Bool
add_image max p s = with_slots s (add_to_list max p s.slots)
