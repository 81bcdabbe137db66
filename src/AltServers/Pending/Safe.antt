-- ===== src/AltServers/Pending/Safe.antt =====
-- The asserts of the measurements hold, and an uplink that is removed is in no slot.
use dnbd3_fuse_lowlevel.Prelude.{
  ℕ, ◌≡◌, ◌≢◌, Bool, Option, none, some, true, ◌&&◌, get_elem?, arith, refl, Bool-cases,
  Option-cases, inl, inr,
}
use dnbd3_fuse_lowlevel.Slots.{contains, fill}
use dnbd3_fuse_lowlevel.AltServers.Pending.{
  do_change, is_in_progress, waiting, Checks, find_uplink, remove_uplink, take_pending, Step,
  created, asked, removed, switched, noticed, taken, measured, cleared, IsInitial, Reach, start,
  next,
}
use dnbd3_fuse_lowlevel.AltServers.Pending.Sound.{IsSound, remove_uplink-Absent}
use dnbd3_fuse_lowlevel.AltServers.Pending.Steps.{
  created-IsSound, asked-IsSound, removed-IsSound, switched-IsSound, noticed-IsSound, taken-IsSound,
  measured-IsSound, cleared-IsSound,
}

Step-IsSound : (s s' : Checks) → Step s s' → IsSound s → IsSound s'
Step-IsSound s _ (created u connected absent) h = created-IsSound s h u connected absent
Step-IsSound s s' (asked u _ guard e) h = asked-IsSound s h u s' guard e
Step-IsSound s _ (removed u w) h = removed-IsSound s h u w
Step-IsSound s _ (switched u r) h = switched-IsSound s h u r
Step-IsSound s _ (noticed u r) h = noticed-IsSound s h u r
Step-IsSound s s' (taken there i _ w e) h = taken-IsSound s h there i s' w e
Step-IsSound s _ (measured i u r w busy quiet) h = measured-IsSound s h i u r w
Step-IsSound s _ (cleared i u w) h = cleared-IsSound s h i u w

Reach-IsSound : (s s' : Checks) → Reach s s' → IsInitial s → IsSound s'
Reach-IsSound s _ start h = record {
  running = λ i u at. absurd (h.empty i u at);
  once = λ i j u ne at bt. absurd (h.empty i u at);
  known = h.known;
  held = λ i u w. let waits = h.waits in cc;
}
Reach-IsSound s s'' (next s' _ r step) h = Step-IsSound s' s'' step (Reach-IsSound s s' r h)

take_safe :
    (s : Checks) (there : Bool) (i : ℕ)
    → IsSound s
    → s.worker ≡ waiting
    → take_pending there i s ≢ none
unfolding take_pending
take_safe s there i h w e = go (get_elem? s.slots i) refl
  where
    go : (x : Option (Option ℕ)) → get_elem? s.slots i ≡ x → ⊥
    go none n = ground (arith, n, e)
    go (some none) n = ground (arith, n, e)
    go (some (some u)) n = elim (h.running i u n) [
      | inl f ↦ cc
      | inr p ↦
          let busy : is_in_progress (s.result u) ≡ true = rw p refl in ground (arith, n, busy, e)
    ]

find_safe : (s : Checks) (u : ℕ) → IsSound s → s.result u ≢ do_change → find_uplink u s ≢ none
unfolding find_uplink
find_safe s u h other e = elim (Bool-cases (s.better u)) [
  | inl b ↦ other (h.known u b)
  | inr b ↦ elim (Bool-cases (is_in_progress (s.result u) && contains s.slots u)) [
    | inl t ↦ absurd (ground (arith, b, t, e))
    | inr f ↦ elim (Option-cases (fill u s.slots)) [
      | inl n ↦ absurd (ground (arith, b, f, n, e))
      | inr (slots, k) ↦ absurd (ground (arith, b, f, k, e))
    ]
  ]
]

-- After any of the steps that `Step` lists from an initial state, in any order and each as one whole:
-- the assert of `altservers_main` holds for each slot that it takes while it waits, whether the image
-- of its uplink is still there or not; the assert of `altservers_findUplink` holds for each uplink
-- whose result is not that it should switch; and an uplink that is removed is in no slot.
pub Reach-take_pending :
    (s s' : Checks)
    → Reach s s'
    → IsInitial s
    → ((there : Bool) (i : ℕ) → s'.worker ≡ waiting → take_pending there i s' ≢ none)
      × ((u : ℕ) → s'.result u ≢ do_change → find_uplink u s' ≢ none)
      × ((u i : ℕ) → get_elem? (remove_uplink u s').slots i ≢ some (some u))
Reach-take_pending s s' r h =
    let sound = Reach-IsSound s s' r h in
    (
      λ there i w. take_safe s' there i sound w,
      λ u other. find_safe s' u sound other,
      λ u i. remove_uplink-Absent u s' i,
    )
