-- ===== src/AltServers/ForClient/Ranked.antt =====
-- The servers that a client is told are the best of those it may know, in order.
use dnbd3_fuse_lowlevel.Prelude.{
  ◌∙◌, ℕ, zero, suc, ◌+◌, ◌≡◌, List, [], ◌∷◌, Bool, true, not, ◌&&◌, if◌then◌else◌, if_cases, take,
  arith, refl, ap, sym, Bool-cases, inl, inr,
}
use dnbd3_fuse_lowlevel.Prelude.Ints.{leb_int, leb_int_total}
use dnbd3_fuse_lowlevel.Host.{Host}
use dnbd3_fuse_lowlevel.AltServers.{AltServer, is_empty}
use dnbd3_fuse_lowlevel.AltServers.Hosts.{passing}
use dnbd3_fuse_lowlevel.AltServers.ForClient.{score}

-- The servers that clients may know.
abbrev pub public : AltServer → Bool
public s = not (is_empty s) && not s.is_private

-- All of them by score, those of one score in the order of the list: the reference.
unfoldable pub insert : Host → AltServer → List AltServer → List AltServer
insert host x [] = x ∷ []
insert host x (y ∷ ys) =
    let rest = insert host x ys in
    if leb_int (score host x) (score host y) then y ∷ rest else x ∷ y ∷ ys

unfoldable pub rank : Host → List AltServer → List AltServer → List AltServer
unfolding insert
rank host ranked [] = ranked
rank host ranked (s ∷ ss) = rank host (if public s then insert host s ranked else ranked) ss

-- No server comes before one with a higher score.
abbrev pub Below : Host → AltServer → List AltServer → Type 0
Below host x [] = Unit {0}
Below host x (y ∷ ys) = leb_int (score host y) (score host x) ≡ true

abbrev pub Descending : Host → List AltServer → Type 0
Descending host [] = Unit {0}
Descending host (x ∷ xs) = Below host x xs × Descending host xs

take-suc {ℓ} : {A : Type ℓ} (n : ℕ) (ys : List A) → take n (take (suc n) ys) ≡ take n ys
take-suc zero ys = refl
take-suc (suc n) [] = refl
take-suc (suc n) (y ∷ ys) = ap (λ zs. y ∷ zs) (take-suc n ys)

take_cons {ℓ} :
    {A : Type ℓ} (n : ℕ) (y : A) (ys : List A) → take n (y ∷ take n ys) ≡ take n (y ∷ ys)
take_cons zero y ys = refl
take_cons (suc n) y ys = ap (λ zs. y ∷ zs) (take-suc n ys)

pub take_idem {ℓ} : {A : Type ℓ} (n : ℕ) (ys : List A) → take n (take n ys) ≡ take n ys
take_idem zero ys = refl
take_idem (suc n) [] = refl
take_idem (suc n) (y ∷ ys) = ap (λ zs. y ∷ zs) (take_idem n ys)

module _ (host : Host) where
  insert-Below :
      (x y : AltServer) (ys : List AltServer)
      → leb_int (score host x) (score host y) ≡ true
      → Below host y ys
      → Below host y (insert host x ys)
  unfolding insert
  insert-Below x y [] le h = le
  insert-Below x y (z ∷ ys) le h =
      if_cases (Below host y) (leb_int (score host x) (score host z)) (z ∷ insert host x ys) _ h le

  pub insert-Descending :
      (x : AltServer) (ys : List AltServer)
      → Descending host ys
      → Descending host (insert host x ys)
  unfolding insert
  insert-Descending x [] h = (tt, tt)
  insert-Descending x (y ∷ ys) (below, h) =
      elim (Bool-cases (leb_int (score host x) (score host y))) [
        | inl t ↦ rw t (insert-Below x y ys t below, insert-Descending x ys h)
        | inr f ↦ let le = leb_int_total (score host x) (score host y) f in rw f (le, (below, h))
      ]

  pub rank-Descending :
      (ss ranked : List AltServer) → Descending host ranked → Descending host (rank host ranked ss)
  unfolding rank
  rank-Descending [] ranked h = h
  rank-Descending (s ∷ ss) ranked h =
      rank-Descending ss (if public s then insert host s ranked else ranked) (
        if_cases (Descending host) (public s) (insert host s ranked) ranked
          (insert-Descending s ranked h) h)

  passing-insert :
      (p : AltServer → Bool) (x : AltServer) (ys : List AltServer)
      → passing p (insert host x ys) ≡ passing p (x ∷ ys)
  unfolding insert passing
  passing-insert p x [] = refl
  passing-insert p x (y ∷ ys) =
      if_cases (λ (r : List AltServer). passing p r ≡ passing p (x ∷ y ∷ ys))
        (leb_int (score host x) (score host y)) (y ∷ insert host x ys) _
        (ground (arith, passing-insert p x ys)) refl

  pub passing-rank :
      (p : AltServer → Bool) (ss ranked : List AltServer)
      → passing p (rank host ranked ss) ≡ passing p ranked + passing (λ s. public s && p s) ss
  unfolding rank passing
  passing-rank p [] ranked = omega arith
  passing-rank p (s ∷ ss) ranked = elim (Bool-cases (public s)) [
    | inl t ↦
        rw (t, rank)
          (ground (arith, passing-rank p ss (insert host s ranked), passing-insert p s ranked))
    | inr f ↦ rw (f, rank) (ground (arith, passing-rank p ss ranked))
  ]

  -- Cutting off the ranking before a server is inserted makes no difference.
  pub take-insert :
      (n : ℕ) (x : AltServer) (ys : List AltServer)
      → take n (insert host x (take n ys)) ≡ take n (insert host x ys)
  unfolding insert
  take-insert zero x ys = refl
  take-insert (suc n) x [] = refl
  take-insert (suc n) x (y ∷ ys) = elim (Bool-cases (leb_int (score host x) (score host y))) [
    | inl t ↦ rw t (ap (λ (zs : List AltServer). y ∷ zs) (take-insert n x ys))
    | inr f ↦ rw f (ap (λ (zs : List AltServer). x ∷ zs) (take_cons n y ys))
  ]

  -- Nor does it over a whole list of servers.
  pub take-rank :
      (n : ℕ) (ss ranked : List AltServer)
      → take n (rank host ranked ss) ≡ take n (rank host (take n ranked) ss)
  unfolding rank
  take-rank n [] ranked = sym (take_idem n ranked)
  take-rank n (s ∷ ss) ranked = elim (Bool-cases (public s)) [
    | inl t ↦ rw t (
        take-rank n ss (insert host s ranked)
        ∙ ap (λ zs. take n (rank host zs ss)) (sym (take-insert n s ranked))
        ∙ sym (take-rank n ss (insert host s (take n ranked))))
    | inr f ↦ rw f (take-rank n ss ranked)
  ]
