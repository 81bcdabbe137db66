-- ===== src/AltServers/Pending/Sound.antt =====
-- The table of measurements while it is used: what is true of the slots, and how they are read.
use dnbd3_fuse_lowlevel.Prelude.{
  ℕ, zero, suc, ◌≡◌, ◌≢◌, ◌⊎◌, List, [], ◌∷◌, Option, none, some, true, ◌==◌, set, get_elem?, arith,
  refl, ap, Bool-cases, inl, inr,
}
use dnbd3_fuse_lowlevel.Slots.{contains}
use dnbd3_fuse_lowlevel.AltServers.Pending.{
  in_progress, do_change, Worker, waiting, measuring, finished, Checks, clear_slots, remove_uplink,
}

-- Each slot that is not being finished has an uplink that waits, no uplink is in two of them, and a
-- better server is known only until the uplink switches.
pub record IsSound (s : Checks) : Type 0 where
  pub running :
      (i u : ℕ)
      → get_elem? s.slots i ≡ some (some u)
      → (s.worker ≡ finished i u) ⊎ (s.result u ≡ in_progress)
  pub once :
      (i j u : ℕ)
      → i ≢ j
      → get_elem? s.slots i ≡ some (some u)
      → get_elem? s.slots j ≡ some (some u)
      → (s.worker ≡ finished i u) ⊎ (s.worker ≡ finished j u)
  pub known : (u : ℕ) → s.better u ≡ true → s.result u ≡ do_change
  pub held : (i u : ℕ) → s.worker ≡ measuring i u → get_elem? s.slots i ≡ some (some u)

pub read_set :
    (xs : List (Option ℕ)) (k i : ℕ) (v w : Option ℕ)
    → get_elem? (set xs k v) i ≡ some w
    → ((i ≡ k) × (v ≡ w)) ⊎ ((i ≢ k) × (get_elem? xs i ≡ some w))
read_set [] k i v w e = cc
read_set (x ∷ xs) zero zero v w e = inl (refl, ground (arith, e))
read_set (x ∷ xs) zero (suc i) v w e = inr ((λ h. absurd (omega arith)), e)
read_set (x ∷ xs) (suc k) zero v w e = inr ((λ h. absurd (omega arith)), e)
read_set (x ∷ xs) (suc k) (suc i) v w e = elim (read_set xs k i v w e) [
  | inl (same, is) ↦ inl (ap suc same, is)
  | inr (other, at) ↦ inr ((λ h. other (omega arith)), at)
]

-- What is in a slot after the slots of `u` were cleared.
pub read_clear :
    (u : ℕ) (xs : List (Option ℕ)) (i v : ℕ)
    → get_elem? (clear_slots u xs) i ≡ some (some v)
    → (get_elem? xs i ≡ some (some v)) × (v ≢ u)
unfolding clear_slots
read_clear u [] i v e = cc
read_clear u (none ∷ xs) zero v e = cc
read_clear u (some w ∷ xs) zero v e = elim (Bool-cases (w == u)) [
  | inl t ↦ absurd (ground (arith, t, e))
  | inr f ↦ (ground (arith, f, e), ground (arith, f, e))
]
read_clear u (x ∷ xs) (suc i) v e = read_clear u xs i v e

pub contains_at :
    (u : ℕ) (xs : List (Option ℕ))
    → contains xs u ≡ true
    → (i : ℕ) × (get_elem? xs i ≡ some (some u))
unfolding contains
contains_at u [] h = absurd (ground arith)
contains_at u (none ∷ xs) h = let (i, at) = contains_at u xs h in (suc i, at)
contains_at u (some w ∷ xs) h = elim (Bool-cases (w == u)) [
  | inl t ↦ let same : w ≡ u = ground arith in (0, ap (λ x. some (some x)) same)
  | inr f ↦ let (i, at) = contains_at u xs (ground (arith, f)) in (suc i, at)
]

-- An uplink is in no slot.
abbrev pub Absent : ℕ → Checks → Type 0
Absent u s = (i : ℕ) → get_elem? s.slots i ≢ some (some u)

pub remove_uplink-Absent : (u : ℕ) (s : Checks) → Absent u (remove_uplink u s)
unfolding remove_uplink
remove_uplink-Absent u s i at = (read_clear u s.slots i u at).1 refl

abbrev pub slot_of : Worker → ℕ
slot_of waiting = 0
slot_of (measuring i u) = i
slot_of (finished i u) = i

abbrev pub uplink_of : Worker → ℕ
uplink_of waiting = 0
uplink_of (measuring i u) = u
uplink_of (finished i u) = u
