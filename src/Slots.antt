-- ===== src/Slots.antt =====
-- src/server/net.c and src/server/image.c: the arrays `_clients` and `_images` with the number of
-- their slots in use. A pointer is the number of its struct, an empty slot `none`; the list is the
-- array up to that number.
pub mod Laws
mod Tests
use dnbd3_fuse_lowlevel.Prelude.{
  ℕ, ◌+◌, List, [], ◌∷◌, ◌++◌, Option, none, some, Bool, true, false, ◌&&◌, ◌||◌, leb, ◌==◌,
  if◌then◌else◌, length,
}

abbrev pub holds : Option ℕ → ℕ → Bool
holds none p = false
holds (some q) p = q == p

abbrev pub is_vacant : Option ℕ → Bool
is_vacant none = true
is_vacant (some q) = false

abbrev pub no_slots : List (Option ℕ) → Bool
no_slots [] = true
no_slots (s ∷ ss) = false

unfoldable pub contains : List (Option ℕ) → ℕ → Bool
contains [] p = false
contains (s ∷ ss) p = holds s p || contains ss p

-- The first empty slot is filled, if there is one.
unfoldable pub fill : ℕ → List (Option ℕ) → Option (List (Option ℕ))
fill p [] = none
fill p (none ∷ ss) = some (some p ∷ ss)
fill p (some q ∷ ss) = elim (fill p ss) [ none ↦ none | some ss' ↦ some (some q ∷ ss') ]

-- `addToList` and `image_addToList` for at most `max` slots; `none` is the result false.
pub add_to_list : ℕ → ℕ → List (Option ℕ) → Option (List (Option ℕ))
unfolding fill
add_to_list max p slots = elim (fill p slots) [
  | some slots' ↦ some slots'
  | none ↦ if leb max (length slots) then none else some (slots ++ (some p ∷ []))
]

-- `removeFromList` and the loop of `image_remove`: from the last slot to the first.
unfoldable pub remove_from_list : ℕ → List (Option ℕ) → List (Option ℕ)
remove_from_list p [] = []
remove_from_list p (s ∷ ss) =
    let rest = remove_from_list p ss in
    let s' : Option ℕ = if holds s p then none else s in
    if is_vacant s' && no_slots rest then [] else s' ∷ rest
