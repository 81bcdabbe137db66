-- ===== src/Integrity/Attach.antt =====
-- src/server/integrity.c: the search for the entry that takes in a request, or for a free slot.
use dnbd3_fuse_lowlevel.Prelude.{
  ℕ, suc, ◌+◌, ◌^◌, ◌<◌, ◌≡◌, List, [], ◌∷◌, Option, none, some, Bool, true, false, not, ◌&&◌, ◌||◌,
  ltb, leb, ◌==◌, if◌then◌else◌, length, get_elem?, arith, refl, ap, ◌∙◌, inl, inr, Bool-cases,
  if_cases,
}
use dnbd3_fuse_lowlevel.Integrity.{
  QueueEntry, check_all, is_image, no_image, dominates, expand, Search, attached, free_slot,
  put_back, search_slot,
}

-- The check of a hash block of an image is scheduled.
unfoldable pub covers : QueueEntry → ℕ → ℕ → Bool
covers e image k = is_image e.image image && (leb e.block k && ltb k (e.block + e.count))

pub uncovered : (e : QueueEntry) (j k : ℕ) → no_image e.image ≡ true → covers e j k ≡ false
unfolding covers
uncovered e j k gone = ground arith

unfoldable pub scheduled : List QueueEntry → ℕ → ℕ → Bool
scheduled [] image k = false
scheduled (e ∷ es) image k = covers e image k || scheduled es image k

-- No range runs over the largest int.
abbrev pub InRange : List QueueEntry → Type 0
InRange [] = Unit {0}
InRange (e ∷ es) = (e.block + e.count < 2 ^ 31) × InRange es

-- The blocks that a call asks for.
abbrev pub asked : Option ℕ → ℕ → Bool
asked none k = ltb k check_all
asked (some block) k = k == block

covers-expand :
    (e : QueueEntry) (image block j k : ℕ)
    → e.block + e.count < 2 ^ 31
    → block < 2 ^ 30
    → is_image e.image image ≡ true
    → dominates e (some block) ≡ true
    → covers (expand e (some block)) j k ≡ (covers e j k || ((j == image) && (k == block)))
unfolding covers expand dominates
covers-expand e image block j k small b same dom = ground arith

abbrev pub SmallBlock : Option ℕ → Type 0
SmallBlock none = Unit {0}
SmallBlock (some block) = block < 2 ^ 30

expand-InRange :
    (e : QueueEntry) (block : Option ℕ)
    → e.block + e.count < 2 ^ 31
    → SmallBlock block
    → dominates e block ≡ true
    → (expand e block).block + (expand e block).count < 2 ^ 31
unfolding expand dominates
expand-InRange e none small b dom = small
expand-InRange e (some block) small b dom = ground arith

full_dominates : (e : QueueEntry) → dominates e none ≡ true → ⊥
unfolding dominates
full_dominates e h = cc

covers-expand-asked :
    (e : QueueEntry) (block : Option ℕ) (image j k : ℕ)
    → e.block + e.count < 2 ^ 31
    → SmallBlock block
    → is_image e.image image ≡ true
    → dominates e block ≡ true
    → covers (expand e block) j k ≡ (covers e j k || ((j == image) && asked block k))
covers-expand-asked e none image j k small b same dom = absurd (full_dominates e dom)
covers-expand-asked e (some block) image j k small b same dom =
    covers-expand e image block j k small b same dom

-- What the search says about the entries that it goes through.
abbrev pub Searched : ℕ → Option ℕ → List QueueEntry → Search → Type 0
Searched image block es (attached es') =
    InRange es'
    × (length es' ≡ length es)
    × ((j k : ℕ) → scheduled es' j k ≡ (scheduled es j k || ((j == image) && asked block k)))
Searched image block es (free_slot slot) = Unit {0}

put_back-Searched :
    (image : ℕ) (block : Option ℕ) (e : QueueEntry) (es : List QueueEntry) (s : Search)
    → e.block + e.count < 2 ^ 31
    → Searched image block es s
    → Searched image block (e ∷ es) (put_back e s)
unfolding scheduled
put_back-Searched image block e es (free_slot slot) small h = tt
put_back-Searched image block e es (attached es') small (r, l, h) =
    ((small, r), omega arith, λ j k. ground (arith, h j k))

pub search_slot-Searched :
    (image : ℕ) (block : Option ℕ) (i : ℕ) (es : List QueueEntry) (slot : Option ℕ)
    → InRange es
    → SmallBlock block
    → Searched image block es (search_slot image block i es slot)
unfolding search_slot scheduled
search_slot-Searched image block i [] slot r b = tt
search_slot-Searched image block i (e ∷ es) slot (small, r) b =
    let found = no_image slot && no_image e.image in
    elim (Bool-cases (not found && (is_image e.image image && dominates e block))) [
      | inl t ↦ rw t (
        (expand-InRange e block small b (ground arith), r),
        refl,
        λ j k.
            ground
              (arith, covers-expand-asked e block image j k small b (ground arith) (ground arith)),
      )
      | inr f ↦ rw f (
          put_back-Searched image block e es _ small
            (search_slot-Searched image block (i + 1) es (if found then some i else slot) r b))
    ]

-- The slot that is found holds no image.
abbrev pub Vacant : List QueueEntry → Option ℕ → Type 0
Vacant queue none = Unit {0}
Vacant queue (some i) = (e : QueueEntry) × (get_elem? queue i ≡ some e) × (no_image e.image ≡ true)

abbrev pub VacantSearch : List QueueEntry → Search → Type 0
VacantSearch queue (attached es) = Unit {0}
VacantSearch queue (free_slot slot) = Vacant queue slot

put_back-Vacant :
    (queue : List QueueEntry) (e : QueueEntry) (s : Search)
    → VacantSearch queue s
    → VacantSearch queue (put_back e s)
put_back-Vacant queue e (attached es) v = tt
put_back-Vacant queue e (free_slot slot) v = v

module _ (queue : List QueueEntry) (image : ℕ) (block : Option ℕ) where
  found-Vacant :
      (i : ℕ) (e : QueueEntry) (slot : Option ℕ)
      → get_elem? queue i ≡ some e
      → Vacant queue slot
      → Vacant queue (if no_image slot && no_image e.image then some i else slot)
  found-Vacant i e slot at v = elim (Bool-cases (no_image slot && no_image e.image)) [
    | inl t ↦ rw t (e, at, ground arith)
    | inr f ↦ rw f v
  ]

  pub search_slot-Vacant :
      (i : ℕ) (es : List QueueEntry) (slot : Option ℕ)
      → ((k : ℕ) → get_elem? queue (i + k) ≡ get_elem? es k)
      → Vacant queue slot
      → VacantSearch queue (search_slot image block i es slot)
  unfolding search_slot
  search_slot-Vacant i [] slot tail v = v
  search_slot-Vacant i (e ∷ es) slot tail v =
      let found = no_image slot && no_image e.image in
      let here : get_elem? queue i ≡ some e = ap (get_elem? queue) (omega arith) ∙ tail 0 in
      let rest =
        search_slot-Vacant (i + 1) es (if found then some i else slot)
          (λ k. ap (get_elem? queue) (omega arith) ∙ tail (suc k)) (found-Vacant i e slot here v) in
      if_cases (VacantSearch queue) (not found && (is_image e.image image && dominates e block)) _ _
        tt (put_back-Vacant queue e _ rest)
