-- ===== src/Slots/Tests.antt =====
-- Concrete arrays of slots.
use dnbd3_fuse_lowlevel.Prelude.{ℕ, ◌≡◌, List, [], ◌∷◌, Option, none, some, refl}
use dnbd3_fuse_lowlevel.Slots.{add_to_list, remove_from_list}

abbrev pub three : List (Option ℕ)
three = some 5 ∷ none ∷ some 7 ∷ []

abbrev full : List (Option ℕ)
full = some 5 ∷ some 9 ∷ some 7 ∷ []

fills_gap : add_to_list 3 9 three ≡ some full
unfolding add_to_list
fills_gap = refl

grows : add_to_list 4 9 full ≡ some (some 5 ∷ some 9 ∷ some 7 ∷ some 9 ∷ [])
unfolding add_to_list
grows = refl

refuses : add_to_list 3 9 full ≡ none
unfolding add_to_list
refuses = refl

shrinks : remove_from_list 7 three ≡ some 5 ∷ []
unfolding remove_from_list
shrinks = refl
