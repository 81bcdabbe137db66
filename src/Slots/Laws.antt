-- ===== src/Slots/Laws.antt =====
-- What adding and removing does to the set of pointers in an array of slots.
use dnbd3_fuse_lowlevel.Prelude.{
  ℕ, suc, ◌≤◌, ◌<◌, ◌≡◌, List, [], ◌∷◌, ◌++◌, Option, none, some, true, false, ◌&&◌, leb, ◌==◌,
  if◌then◌else◌, length, length-append, set, get_elem?, arith, refl, sym, ◌∙◌, ◌↔◌, inl, inr,
  Option-cases,
}
use native.Mathlib.Decide.{dec_le}
use dnbd3_fuse_lowlevel.Slots.{
  holds, is_vacant, no_slots, contains, fill, add_to_list, remove_from_list,
}

-- No slot is left out at the end, and every pointer is there once.
abbrev pub count : List (Option ℕ) → ℕ → ℕ
count [] p = 0
count (s ∷ ss) p = if holds s p then suc (count ss p) else count ss p

abbrev pub EndsInUse : List (Option ℕ) → Type 0
EndsInUse [] = Unit {0}
EndsInUse (s ∷ []) = is_vacant s ≡ false
EndsInUse (s ∷ t ∷ ss) = EndsInUse (t ∷ ss)

pub contains_count : (ss : List (Option ℕ)) (p : ℕ) → (contains ss p ≡ true) ↔ (0 < count ss p)
unfolding contains
contains_count [] p = ((λ e. absurd (ground arith)), (λ h. absurd (omega arith)))
contains_count (s ∷ ss) p =
    let ih = contains_count ss p in ((λ e. ground (arith, ih)), (λ h. ground (arith, ih)))

-- The slots before an empty one are full.
fill-count :
    (p q : ℕ) (ss ss' : List (Option ℕ))
    → fill p ss ≡ some ss'
    → (count ss' q ≡ (if p == q then suc (count ss q) else count ss q)) × (length ss' ≡ length ss)
unfolding fill
fill-count p q [] ss' e = cc
fill-count p q (none ∷ ss) ss' e = ground (arith, e)
fill-count p q (some r ∷ ss) ss' e = elim (Option-cases (fill p ss)) [
  | inl n ↦ absurd (ground (arith, n))
  | inr (rest, r') ↦
      let ih = fill-count p q ss rest r' in
      let same : some r ∷ rest ≡ ss' = ground (arith, r') in rw (← same) (ground (arith, ih))
]

-- Filling writes into one slot, which was empty.
pub fill-set :
    (p : ℕ) (ss ss' : List (Option ℕ))
    → fill p ss ≡ some ss'
    → (i : ℕ) × (get_elem? ss i ≡ some none) × (ss' ≡ set ss i (some p))
unfolding fill
fill-set p [] ss' e = cc
fill-set p (none ∷ ss) ss' e = (0, refl, ground (arith, e))
fill-set p (some r ∷ ss) ss' e = elim (Option-cases (fill p ss)) [
  | inl n ↦ absurd (ground (arith, n))
  | inr (rest, r') ↦
      let (i, at, same) = fill-set p ss rest r' in
      let e' : some r ∷ rest ≡ ss' = ground (arith, r') in (suc i, at, (rw (← same) (sym e')))
]

count-append :
    (ss : List (Option ℕ)) (p q : ℕ)
    → count (ss ++ (some p ∷ [])) q ≡ (if p == q then suc (count ss q) else count ss q)
count-append [] p q = refl
count-append (s ∷ ss) p q = ground (arith, count-append ss p q)

abbrev pub AllTaken : List (Option ℕ) → Type 0
AllTaken [] = Unit {0}
AllTaken (s ∷ ss) = (is_vacant s ≡ false) × AllTaken ss

fill-AllTaken : (p : ℕ) (ss : List (Option ℕ)) → fill p ss ≡ none → AllTaken ss
unfolding fill
fill-AllTaken p [] e = tt
fill-AllTaken p (none ∷ ss) e = cc
fill-AllTaken p (some r ∷ ss) e = elim (Option-cases (fill p ss)) [
  | inl n ↦ (refl, fill-AllTaken p ss n)
  | inr (rest, r') ↦ absurd (ground (arith, r'))
]

-- What adding a pointer does: with success it is there once more, nothing else changes, and the
-- array is no longer than it may be; it fails only if every slot is taken and there are `max`.
abbrev pub Added : ℕ → ℕ → List (Option ℕ) → Option (List (Option ℕ)) → Type 0
Added max p ss none = AllTaken ss × (max ≤ length ss)
Added max p ss (some ss') =
    ((q : ℕ) → count ss' q ≡ (if p == q then suc (count ss q) else count ss q)) × (length ss' ≤ max)

-- `addToList` and `image_addToList`, at an array of at most `max` slots.
pub add_to_list-Added :
    (max p : ℕ) (ss : List (Option ℕ)) → length ss ≤ max → Added max p ss (add_to_list max p ss)
unfolding add_to_list
add_to_list-Added max p ss short = elim (Option-cases (fill p ss)) [
  | inr (rest, e) ↦
      rw (e, add_to_list)
        ((λ q. (fill-count p q ss rest e).0), omega (arith, (fill-count p p ss rest e).1))
  | inl n ↦
      rw (n, add_to_list)
        (elim (dec_le max (length ss)) [
          | yes full ↦
              let test : leb max (length ss) ≡ true = ground arith in
              rw test (fill-AllTaken p ss n, full)
          | no room ↦
              let test : leb max (length ss) ≡ false = ground arith in
              rw test
                ((λ q. count-append ss p q), omega (arith, length-append {0} ss (some p ∷ [])))
        ])
]

remove_cons :
    (s : Option ℕ) (rest : List (Option ℕ)) (q : ℕ)
    → count (if is_vacant s && no_slots rest then [] else s ∷ rest) q
      ≡ (if holds s q then suc (count rest q) else count rest q)
remove_cons none [] q = refl
remove_cons none (t ∷ rest) q = refl
remove_cons (some r) [] q = refl
remove_cons (some r) (t ∷ rest) q = refl

cons-EndsInUse :
    (s : Option ℕ) (rest : List (Option ℕ))
    → EndsInUse rest
    → EndsInUse (if is_vacant s && no_slots rest then [] else s ∷ rest)
cons-EndsInUse none [] h = tt
cons-EndsInUse none (t ∷ rest) h = h
cons-EndsInUse (some r) [] h = refl
cons-EndsInUse (some r) (t ∷ rest) h = h

pub count-remove_from_list :
    (p q : ℕ) (ss : List (Option ℕ))
    → count (remove_from_list p ss) q ≡ (if p == q then 0 else count ss q)
unfolding remove_from_list
count-remove_from_list p q [] = ground arith
count-remove_from_list p q (s ∷ ss) =
    let s' : Option ℕ = if holds s p then none else s in
    let ih = count-remove_from_list p q ss in
    remove_cons s' (remove_from_list p ss) q ∙ ground (arith, ih)

ends : (p : ℕ) (ss : List (Option ℕ)) → EndsInUse (remove_from_list p ss)
unfolding remove_from_list
ends p [] = tt
ends p (s ∷ ss) = cons-EndsInUse (if holds s p then none else s) (remove_from_list p ss) (ends p ss)

remove_length :
    (s : Option ℕ) (rest : List (Option ℕ))
    → length (if is_vacant s && no_slots rest then [] else s ∷ rest) ≤ suc (length rest)
remove_length none [] = omega arith
remove_length none (t ∷ rest) = omega arith
remove_length (some r) [] = omega arith
remove_length (some r) (t ∷ rest) = omega arith

pub length-remove_from_list :
    (p : ℕ) (ss : List (Option ℕ)) → length (remove_from_list p ss) ≤ length ss
unfolding remove_from_list
length-remove_from_list p [] = omega arith
length-remove_from_list p (s ∷ ss) =
    let s' : Option ℕ = if holds s p then none else s in
    omega (arith, remove_length s' (remove_from_list p ss), length-remove_from_list p ss)

-- After `removeFromList`, or the loop of `image_remove`, the pointer is gone, every other one is
-- there as often as before, and the last slot is in use.
pub remove_from_list_lem :
    (p : ℕ) (ss : List (Option ℕ))
    → ((q : ℕ) → count (remove_from_list p ss) q ≡ (if p == q then 0 else count ss q))
      × EndsInUse (remove_from_list p ss)
remove_from_list_lem p ss = ((λ q. count-remove_from_list p q ss), ends p ss)
