-- ===== src/ImageList/Get.antt =====
-- src/server/image.c: what `image_get` answers.
use dnbd3_fuse_lowlevel.Prelude.{
  ℕ, ◌≤◌, ◌≡◌, ◌≢◌, List, [], ◌∷◌, Option, none, some, Bool, true, false, ◌||◌, arith, refl, ◌⊎◌,
  inl, inr, Bool-cases,
}
use native.Mathlib.Decide.{ℕ_discrete}
use dnbd3_fuse_lowlevel.Slots.{contains}
use dnbd3_fuse_lowlevel.ImageList.{
  Images, same_name, last_is, first_is, no_name, use_image, use_found, get,
}
use dnbd3_fuse_lowlevel.ImageList.Find.{Exact, find-Exact, Latest, find-Latest}

same_name_sound : (a b : List ℕ) → same_name a b ≡ true → a ≡ b
unfolding same_name
same_name_sound [] [] e = refl
same_name_sound [] (y ∷ b) e = absurd (ground arith)
same_name_sound (x ∷ a) [] e = absurd (ground arith)
same_name_sound (x ∷ a) (y ∷ b) e =
    let head : x ≡ y = ground arith in
    let tail = same_name_sound a b (ground arith) in rw (head, tail) refl

same_name_refl : (a : List ℕ) → same_name a a ≡ true
unfolding same_name
same_name_refl [] = refl
same_name_refl (x ∷ a) = ground (arith, same_name_refl a)

-- An image of the list that a name and a revision ask for; revision 0 asks for any.
pub record Matches (s : Images) (name : List ℕ) (revision p : ℕ) : Type 0 where
  pub listed : contains s.slots p ≡ true
  pub named_so : (s.entries p).name ≡ name
  pub revised : (revision ≡ 0) ⊎ ((s.entries p).rid ≡ revision)

abbrev pub is_malformed : List ℕ → Bool
is_malformed name = no_name name || (last_is b'/' name || first_is b'/' name)

-- The results that a call for a name and a revision may have.
abbrev pub Got : List ℕ → ℕ → Images → Images × Option ℕ → Type 0
Got name revision s (s', none) =
    (s' ≡ s) × ((is_malformed name ≡ true) ⊎ ((q : ℕ) → ¬ (Matches s name revision q)))
Got name revision s (s', some p) =
    (s' ≡ use_image s p)
    × (is_malformed name ≡ false)
    × Matches s name revision p
    × (revision ≡ 0
        → ((s.entries p).rid ≡ 0)
          ⊎ ((q : ℕ) → Matches s name revision q → (s.entries q).rid ≤ (s.entries p).rid))

Got-Exact :
    (name : List ℕ) (revision : ℕ) (s : Images) (r : Option ℕ)
    → is_malformed name ≡ false
    → revision ≢ 0
    → Exact s.entries name revision s.slots r
    → Got name revision s (use_found s r)
Got-Exact name revision s none f ne ex = (
  refl,
  inr (λ q m. ex q m.listed (rw m.named_so (same_name_refl name)) (ground (arith, m.revised))),
)
Got-Exact name revision s (some p) f ne (here, same, rid) = (
  refl,
  f,
  record { listed = here; named_so = same_name_sound _ _ same; revised = inr rid },
  λ z. absurd (ne z),
)

Got-Latest :
    (name : List ℕ) (revision : ℕ) (s : Images) (r : Option ℕ)
    → is_malformed name ≡ false
    → revision ≡ 0
    → Latest s.entries name revision s.slots none r
    → Got name revision s (use_found s r)
Got-Latest name revision s none f z (e, h) =
    (refl, inr (λ q m. ground (arith, h q m.listed, same_name_refl name, m.named_so)))
Got-Latest name revision s (some p) f z n =
    let here : (contains s.slots p ≡ true) × (same_name (s.entries p).name name ≡ true) =
      elim n.origin [ inl e ↦ absurd (ground (arith, e)) | inr h ↦ h ] in
    let named_so = same_name_sound _ _ here.1 in
    (
      refl,
      f,
      record { listed = here.0; named_so = named_so; revised = inl z },
      λ e. elim n.newest [
        | inl zero_rid ↦ inl zero_rid
        | inr (all, old) ↦ inr (λ q m. all q m.listed (rw m.named_so (same_name_refl name)))
      ],
    )

-- The call `image_get` finds an image of the list with the name, and raises its users by one and
-- changes nothing else. Asked for a revision it finds one with that revision; asked for 0 it finds
-- one with revision 0 or with none newer. It finds none, and changes nothing, exactly if the name
-- is empty or has a slash at an end, or if no image of the list is asked for.
pub get-Got :
    (name : List ℕ) (revision : ℕ) (s : Images) → Got name revision s (get name revision s)
unfolding get
get-Got name revision s = elim (Bool-cases (is_malformed name)) [
  | inl t ↦ rw t (refl, inl t)
  | inr f ↦ rw f (elim (ℕ_discrete revision 0) [
    | yes z ↦ Got-Latest name revision s _ f z (find-Latest s.entries name revision s.slots none z)
    | no ne ↦ Got-Exact name revision s _ f ne (find-Exact s.entries name revision s.slots ne)
  ])
]
