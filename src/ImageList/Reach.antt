-- ===== src/ImageList/Reach.antt =====
-- src/server/image.c: runs of calls of the functions of the image list.
use dnbd3_fuse_lowlevel.Prelude.{ℕ, ◌≡◌, ◌≢◌, List, some, true, false, arith, ◌⊎◌, ◌↔◌}
use dnbd3_fuse_lowlevel.Slots.{contains}
use dnbd3_fuse_lowlevel.Slots.Laws.{contains_count}
use dnbd3_fuse_lowlevel.ImageList.{Images, get, lock, release, remove, add_image}
use dnbd3_fuse_lowlevel.ImageList.Lifetime.{
  IsSafe, IsCollected, Keeps, unchanged, IsNew, get-Keeps, lock-Keeps, release-Keeps, remove-Keeps,
  add_image-Keeps,
}

-- One call of the functions of the list, `max` its capacity.
pub data Step (max : ℕ) (s : Images) : Images → Type 0 where
  got : (name : List ℕ) (revision : ℕ) → Step max s (get name revision s).0
  locked : (p : ℕ) → Step max s (lock p s).0
  released : (p : ℕ) (s' : Images) → release p s ≡ some s' → Step max s s'
  removed : (p : ℕ) → Step max s (remove p s)
  added : (p : ℕ) → IsNew s p → Step max s (add_image max p s).0

pub data Reach (max : ℕ) (s : Images) : Images → Type 0 where
  here : Reach max s s
  next : (s' s'' : Images) → Reach max s s' → Step max s' s'' → Reach max s s''

Step-Keeps : (max : ℕ) (s s' : Images) → Step max s s' → Keeps max s s'
Step-Keeps max s _ (got name revision) = get-Keeps max name revision s
Step-Keeps max s _ (locked p) = lock-Keeps max p s
Step-Keeps max s s' (released p _ e) = release-Keeps max p s s' e
Step-Keeps max s _ (removed p) = remove-Keeps max p s
Step-Keeps max s _ (added p new) = add_image-Keeps max p s new

Reach-Keeps : (max : ℕ) (s s' : Images) → Reach max s s' → Keeps max s s'
Reach-Keeps max s _ here v = unchanged max s v
Reach-Keeps max s s'' (next s' _ r step) v =
    let (v', k) = Reach-Keeps max s s' r v in
    let (v'', k') = Step-Keeps max s' s'' step v' in (v'', λ p c. k' p (k p c))

-- From a list with no image freed too early, any calls of `image_get`, `image_lock`,
-- `image_release`, `image_remove` and, for new images, `image_addToList` lead to such a list again;
-- an image that was in the list at first, or in use or freed, is then freed exactly if nobody uses
-- it and it is not in the list.
pub Reach-IsSafe :
    (max : ℕ) (s s' : Images)
    → Reach max s s'
    → IsSafe max s
    → IsSafe max s'
      × ((p : ℕ)
          → (contains s.slots p ≡ true) ⊎ (((s.entries p).users ≢ 0) ⊎ ((s.entries p).freed ≡ true))
          → ((s'.entries p).freed ≡ true)
            ↔ ((contains s'.slots p ≡ false) × ((s'.entries p).users ≡ 0)))
Reach-IsSafe max s s' r v =
    let (v', k) = Reach-Keeps max s s' r v in
    (
      v',
      λ p known.
          let old = contains_count s.slots p in
          let now = contains_count s'.slots p in
          let collected : IsCollected s p = λ c u. ground (arith, known, old) in
          (
            (λ f. (ground (arith, v'.unlisted p f, now), v'.unused p f)),
            λ (gone, idle). k p collected (ground (arith, now)) idle,
          ),
    )
