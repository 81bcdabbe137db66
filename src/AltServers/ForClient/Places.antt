-- ===== src/AltServers/ForClient/Places.antt =====
-- The place that the inner loop of `altservers_getListForClient` finds for a server.
use dnbd3_fuse_lowlevel.Prelude.{
  ◌∙◌, ℕ, zero, suc, ◌+◌, ◌≤◌, ◌<◌, ◌≡◌, List, [], ◌∷◌, ◌++◌, map, Option, none, some, true, false,
  ltb, get_or, take, length, arith, refl, ap, Bool-cases, inl, inr,
}
use dnbd3_fuse_lowlevel.Prelude.Ints.{ℤ, pos, leb_int}
use dnbd3_fuse_lowlevel.Host.{Host}
use dnbd3_fuse_lowlevel.AltServers.{AltServer}
use dnbd3_fuse_lowlevel.AltServers.ForClient.{score, find_place}
use dnbd3_fuse_lowlevel.AltServers.ForClient.Arrays.{insert_at}
use dnbd3_fuse_lowlevel.AltServers.ForClient.Ranked.{insert}

pub map-take {ℓ κ} :
    {A : Type ℓ} {B : Type κ} (f : A → B) (n : ℕ) (xs : List A)
    → map f (take n xs) ≡ take n (map f xs)
map-take f zero xs = refl
map-take f (suc n) [] = refl
map-take f (suc n) (x ∷ xs) = ap (λ ys. f x ∷ ys) (map-take f n xs)

pub map-insert_at {ℓ κ} :
    {A : Type ℓ} {B : Type κ} (f : A → B) (j : ℕ) (x : A) (xs : List A)
    → map f (insert_at j x xs) ≡ insert_at j (f x) (map f xs)
unfolding insert_at
map-insert_at f zero x xs = refl
map-insert_at f (suc j) x [] = refl
map-insert_at f (suc j) x (y ∷ ys) = ap (λ zs. f y ∷ zs) (map-insert_at f j x ys)

pub get_or-append {ℓ} :
    {A : Type ℓ} (xs rest : List A) (i : ℕ) (d : A)
    → i < length xs
    → get_or (xs ++ rest) i d ≡ get_or xs i d
get_or-append [] rest i d lt = absurd (omega arith)
get_or-append (x ∷ xs) rest zero d lt = refl
get_or-append (x ∷ xs) rest (suc i) d lt = get_or-append xs rest i d (omega arith)

pub at_index : (xs : List ℤ) {i j : ℕ} → i ≡ j → get_or xs i (pos 0) ≡ get_or xs j (pos 0)
at_index xs e = ap (λ i. get_or xs i (pos 0)) e

module _ (host : Host) where
  -- Where the inner loop enters `x` among the servers `suf` from `j` on.
  abbrev pub Entered : AltServer → ℕ → ℕ → List AltServer → Option ℕ → Type 0
  Entered x k j suf none = take k (insert host x suf) ≡ suf
  Entered x k j suf (some p) =
      (q : ℕ) × (p ≡ j + q) × (q < k) × (q ≤ length suf) × (insert_at q x suf ≡ insert host x suf)

  Entered-later :
      (x s : AltServer) (k j : ℕ) (ss : List AltServer) (r : Option ℕ)
      → leb_int (score host x) (score host s) ≡ true
      → Entered x k (j + 1) ss r
      → Entered x (suc k) j (s ∷ ss) r
  unfolding insert insert_at
  Entered-later x s k j ss none le h = rw le (ap (λ zs. s ∷ zs) h)
  Entered-later x s k j ss (some p) le (q, e, lt, short, h) =
      (suc q, omega arith, omega arith, omega arith, rw le (ap (λ zs. s ∷ zs) h))

  pub find_place-Entered :
      (x : AltServer) (k j count : ℕ) (suf : List AltServer) (scores : List ℤ)
      → count ≡ j + length suf
      → length suf ≤ k
      → ((i : ℕ)
          → i < length suf
          → get_or scores (j + i) (pos 0) ≡ get_or (map (score host) suf) i (pos 0))
      → Entered x k j suf (find_place k (score host x) scores count j)
  unfolding find_place insert insert_at
  find_place-Entered x zero j count [] scores e short same = refl
  find_place-Entered x zero j count (s ∷ ss) scores e short same = absurd (omega arith)
  find_place-Entered x (suc k) j count [] scores e short same =
      let test : ltb j count ≡ false = ground arith in
      rw test (0, omega arith, omega arith, omega arith, refl)
  find_place-Entered x (suc k) j count (s ∷ ss) scores e short same =
      let test : ltb j count ≡ true = ground arith in
      let here : get_or scores j (pos 0) ≡ score host s =
        at_index scores (omega arith) ∙ same 0 (omega arith) in
      let ih =
        find_place-Entered x k (j + 1) count ss scores (omega arith) (omega arith)
          (λ i lt. at_index scores (omega arith) ∙ same (suc i) (omega arith)) in
      elim (Bool-cases (leb_int (score host x) (score host s))) [
        | inl t ↦ rw (test, here, t, find_place) (Entered-later x s k j ss _ t ih)
        | inr f ↦
            rw (test, here, f, find_place) (0, omega arith, omega arith, omega arith, rw f refl)
      ]
