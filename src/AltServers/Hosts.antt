-- ===== src/AltServers/Hosts.antt =====
-- How often a host is in the list of alternative servers, and how often any test holds there.
use dnbd3_fuse_lowlevel.Prelude.{
  ℕ, zero, suc, ◌+◌, ◌≡◌, List, [], ◌∷◌, ◌++◌, some, Bool, true, if◌then◌else◌, set, get_elem?,
  length, length-set, arith, refl, ap, Option-cases, inl, inr,
}
use dnbd3_fuse_lowlevel.AltServers.{AltServer, swap}

abbrev pub unit : Bool → ℕ
unit b = if b then 1 else 0

-- The entries that pass a test.
unfoldable pub passing : (AltServer → Bool) → List AltServer → ℕ
passing p [] = 0
passing p (s ∷ ss) = if p s then suc (passing p ss) else passing p ss

pub passing-set :
    (p : AltServer → Bool) (ss : List AltServer) (i : ℕ) (s t : AltServer)
    → get_elem? ss i ≡ some s
    → passing p (set ss i t) + unit (p s) ≡ passing p ss + unit (p t)
unfolding passing
passing-set p [] i s t at = cc
passing-set p (r ∷ ss) zero s t at = let e : r ≡ s = ground arith in rw e (ground arith)
passing-set p (r ∷ ss) (suc i) s t at = ground (arith, passing-set p ss i s t at)

pub passing-append :
    (p : AltServer → Bool) (ss : List AltServer) (t : AltServer)
    → passing p (ss ++ (t ∷ [])) ≡ passing p ss + unit (p t)
unfolding passing
passing-append p [] t = ground arith
passing-append p (s ∷ ss) t = ground (arith, passing-append p ss t)

pub passing-all : (ss : List AltServer) → passing (λ s. true) ss ≡ length ss
unfolding passing
passing-all [] = refl
passing-all (s ∷ ss) = ap suc (passing-all ss)

pub get_elem?-swapped :
    (ss : List AltServer) (i j : ℕ) (s t : AltServer)
    → get_elem? ss i ≡ some s
    → get_elem? ss j ≡ some t
    → get_elem? (set ss i t) j ≡ some t
get_elem?-swapped [] i j s t at bt = cc
get_elem?-swapped (r ∷ ss) zero zero s t at bt = refl
get_elem?-swapped (r ∷ ss) zero (suc j) s t at bt = bt
get_elem?-swapped (r ∷ ss) (suc i) zero s t at bt = bt
get_elem?-swapped (r ∷ ss) (suc i) (suc j) s t at bt = get_elem?-swapped ss i j s t at bt

-- Swapping two entries leaves as many that pass.
pub passing-swap :
    (p : AltServer → Bool) (i j : ℕ) (ss : List AltServer) → passing p (swap i j ss) ≡ passing p ss
unfolding swap
passing-swap p i j ss = elim (Option-cases (get_elem? ss i)) [
  | inl n ↦ rw (n, swap) refl
  | inr (s, at) ↦ elim (Option-cases (get_elem? ss j)) [
    | inl n ↦ rw (at, n, swap) refl
    | inr (t, bt) ↦
        rw (at, bt, swap)
          (omega (
            arith,
            passing-set p ss i s t at,
            passing-set p (set ss i t) j t s (get_elem?-swapped ss i j s t at bt),
          ))
  ]
]

pub length-swap : (i j : ℕ) (ss : List AltServer) → length (swap i j ss) ≡ length ss
unfolding swap
length-swap i j ss = elim (Option-cases (get_elem? ss i)) [
  | inl n ↦ rw (n, swap) refl
  | inr (s, at) ↦ elim (Option-cases (get_elem? ss j)) [
    | inl n ↦ rw (at, n, swap) refl
    | inr (t, bt) ↦
        rw (at, bt, swap) (omega (arith, length-set {0} (set ss i t) j s, length-set {0} ss i t))
  ]
]
