-- ===== src/ImageList/Lifetime.antt =====
-- src/server/image.c: an image in use or in the list is not freed, whatever the calls.
use dnbd3_fuse_lowlevel.Prelude.{
  ℕ, ◌-◌, ◌≤◌, ◌≡◌, ◌≢◌, List, Option, none, some, true, false, not, ◌&&◌, ◌||◌, ◌==◌,
  if◌then◌else◌, length, arith, ◌⊎◌, inl, inr, Bool-cases,
}
use native.Mathlib.Decide.{ℕ_discrete}
use dnbd3_fuse_lowlevel.Slots.{contains, add_to_list, remove_from_list}
use dnbd3_fuse_lowlevel.Slots.Laws.{
  count, Added, add_to_list-Added, count-remove_from_list, contains_count, length-remove_from_list,
}
use dnbd3_fuse_lowlevel.ImageList.{
  Images, put, use_image, free_image, get, lock, release, remove, add_image, with_slots,
}
use dnbd3_fuse_lowlevel.ImageList.Get.{Got, get-Got}

-- An image that is freed has no users and is not in the list, and the list holds each image once
-- and has no more slots than it may have.
pub record IsSafe (max : ℕ) (s : Images) : Type 0 where
  pub unused : (p : ℕ) → (s.entries p).freed ≡ true → (s.entries p).users ≡ 0
  pub unlisted : (p : ℕ) → (s.entries p).freed ≡ true → count s.slots p ≡ 0
  pub once : (p : ℕ) → count s.slots p ≤ 1
  pub fits : length s.slots ≤ max

-- An image that nobody uses and that is not in the list is freed.
abbrev pub IsCollected : Images → ℕ → Type 0
IsCollected s p = count s.slots p ≡ 0 → (s.entries p).users ≡ 0 → (s.entries p).freed ≡ true

-- What every operation keeps.
abbrev pub Keeps : ℕ → Images → Images → Type 0
Keeps max s s' = IsSafe max s → IsSafe max s' × ((p : ℕ) → IsCollected s p → IsCollected s' p)

use_image-Keeps :
    (max : ℕ) (s : Images) (p : ℕ) → contains s.slots p ≡ true → Keeps max s (use_image s p)
use_image-Keeps max s p here v =
    let listed = (contains_count s.slots p).0 here in
    (
      record {
        unused = λ q f. ground (arith, v.unused q, v.unlisted q);
        unlisted = λ q f. ground (arith, v.unlisted q, v.unlisted p);
        once = v.once;
        fits = v.fits;
      },
      λ q k c u. ground (arith, k),
    )

pub unchanged : (max : ℕ) (s : Images) → Keeps max s s
unchanged max s v = (v, λ p k. k)

pub lock-Keeps : (max : ℕ) (p : ℕ) (s : Images) → Keeps max s (lock p s).0
unfolding lock
lock-Keeps max p s = elim (Bool-cases (contains s.slots p)) [
  | inl t ↦ rw t (use_image-Keeps max s p t)
  | inr f ↦ rw f (unchanged max s)
]

abbrev pub drop_user : Images → ℕ → Images
drop_user s p = let e = s.entries p in put s p (record e { users = e.users - 1 })

drop_user-Keeps :
    (max : ℕ) (s : Images) (p : ℕ)
    → (s.entries p).users ≢ 0
    → ((s.entries p).users ≢ 1) ⊎ (contains s.slots p ≡ true)
    → Keeps max s (drop_user s p)
drop_user-Keeps max s p n more v =
    let listed = contains_count s.slots p in
    (
      record {
        unused = λ q f. ground (arith, v.unused q);
        unlisted = λ q f. ground (arith, v.unlisted q);
        once = v.once;
        fits = v.fits;
      },
      λ q k c u. ground (arith, k, listed, more),
    )

collect-Keeps :
    (max : ℕ) (s : Images) (p : ℕ)
    → (s.entries p).users ≡ 1
    → contains s.slots p ≡ false
    → Keeps max s (free_image (drop_user s p) p)
collect-Keeps max s p one gone v =
    let listed = contains_count s.slots p in
    (
      record {
        unused = λ q f. ground (arith, v.unused q);
        unlisted = λ q f. ground (arith, v.unlisted q, listed);
        once = v.once;
        fits = v.fits;
      },
      λ q k c u. ground (arith, k),
    )

pub release-Keeps : (max : ℕ) (p : ℕ) (s s' : Images) → release p s ≡ some s' → Keeps max s s'
unfolding release
release-Keeps max p s s' e = elim (ℕ_discrete (s.entries p).users 0) [
  | yes z ↦ absurd (ground (arith, z))
  | no n ↦ elim (Bool-cases (not ((s.entries p).users - 1 == 0) || contains s.slots p)) [
    | inl t ↦
        (let same : drop_user s p ≡ s' = ground (arith, n) in
          rw (← same) (drop_user-Keeps max s p n (ground arith)))
    | inr f ↦
        (let same : free_image (drop_user s p) p ≡ s' = ground (arith, n) in
          rw (← same) (collect-Keeps max s p (ground arith) (ground arith)))
  ]
]

abbrev without : Images → ℕ → Images
without s p = record s { slots = remove_from_list p s.slots }

pub remove-Keeps : (max : ℕ) (p : ℕ) (s : Images) → Keeps max s (remove p s)
unfolding remove
remove-Keeps max p s v =
    let left : (q : ℕ)
        → count (remove_from_list p s.slots) q ≡ (if p == q then 0 else count s.slots q) =
      λ q. count-remove_from_list p q s.slots in
    let short = length-remove_from_list p s.slots in
    let listed = contains_count s.slots p in
    elim (Bool-cases (contains s.slots p && ((s.entries p).users == 0))) [
      | inl t ↦ rw t (
        record {
          unused = λ q f. ground (arith, v.unused q, t);
          unlisted = λ q f. ground (arith, v.unlisted q, left q);
          once = λ q. ground (arith, v.once q, left q);
          fits = omega arith;
        },
        λ q k c u. ground (arith, k, left q),
      )
      | inr f ↦ rw f (
        record {
          unused = v.unused;
          unlisted = λ q e. ground (arith, v.unlisted q, left q);
          once = λ q. ground (arith, v.once q, left q);
          fits = omega arith;
        },
        λ q k c u. ground (arith, k, left q, listed, f),
      )
    ]

pub get-Keeps :
    (max : ℕ) (name : List ℕ) (revision : ℕ) (s : Images) → Keeps max s (get name revision s).0
get-Keeps max name revision s = found (get name revision s) (get-Got name revision s)
  where
    found : (r : Images × Option ℕ) → Got name revision s r → Keeps max s r.0
    found (s', none) (e, why) = rw e (unchanged max s)
    found (s', some p) (e, fine, m, newest) = rw e (use_image-Keeps max s p m.listed)

-- A new image, just loaded: nobody uses it, and it is neither freed nor in the list.
pub record IsNew (s : Images) (p : ℕ) : Type 0 where
  pub alive : (s.entries p).freed ≡ false
  pub idle : (s.entries p).users ≡ 0
  pub fresh : count s.slots p ≡ 0

pub add_image-Keeps : (max p : ℕ) (s : Images) → IsNew s p → Keeps max s (add_image max p s).0
unfolding add_image
add_image-Keeps max p s new v =
    added (add_to_list max p s.slots) (add_to_list-Added max p s.slots v.fits)
  where
    added :
        (r : Option (List (Option ℕ)))
        → Added max p s.slots r
        → IsSafe max (with_slots s r).0
          × ((q : ℕ) → IsCollected s q → IsCollected (with_slots s r).0 q)
    added none h = unchanged max s v
    added (some slots) (counts, short) = (
      record {
        unused = v.unused;
        unlisted = λ q f. ground (arith, v.unlisted q, counts q, new.alive);
        once = λ q. ground (arith, v.once q, counts q, new.fresh);
        fits = short;
      },
      λ q k c u. ground (arith, k, counts q),
    )
