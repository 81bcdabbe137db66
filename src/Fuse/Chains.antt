-- ===== src/Fuse/Chains.antt =====
-- Chains of nodes in memory: a path through the field `next`, and what a write to it does.
use dnbd3_fuse_lowlevel.Prelude.{
  ℕ, ◌≤◌, ◌<◌, ◌≡◌, ◌≢◌, List, [], ◌∷◌, ◌++◌, Option, none, some, arith, refl, ap,
}
use dnbd3_fuse_lowlevel.Prelude.Counts.{count}
use dnbd3_fuse_lowlevel.Prelude.Maps.{update, update_self, update_other}

-- From `h` the nodes `xs` are passed, up to `m`.
abbrev pub Chain : (ℕ → Option ℕ) → Option ℕ → List ℕ → Option ℕ → Type 0
Chain next h [] m = h ≡ m
Chain next h (x ∷ xs) m = (h ≡ some x) × Chain next (next x) xs m

abbrev pub last : List ℕ → Option ℕ
last [] = none
last (x ∷ []) = some x
last (x ∷ y ∷ ys) = last (y ∷ ys)

abbrev pub Distinct : List ℕ → Type 0
Distinct xs = (a : ℕ) → count a xs ≤ 1

pub Chain-append :
    (next : ℕ → Option ℕ) (h m k : Option ℕ) (xs ys : List ℕ)
    → Chain next h xs m
    → Chain next m ys k
    → Chain next h (xs ++ ys) k
Chain-append next h m k [] ys c d = rw c d
Chain-append next h m k (x ∷ xs) ys (e, c) d = (e, Chain-append next (next x) m k xs ys c d)

-- A write to a node that is not passed.
pub Chain-update :
    (next : ℕ → Option ℕ) (h m v : Option ℕ) (xs : List ℕ) (r : ℕ)
    → count r xs ≡ 0
    → Chain next h xs m
    → Chain (update next r v) h xs m
Chain-update next h m v [] r out c = c
Chain-update next h m v (x ∷ xs) r out (e, c) =
    let other : x ≢ r = ground (arith, out) in
    (
      e,
      rw (update_other next r v x other)
          (Chain-update next (next x) m v xs r (ground (arith, out)) c),
    )

-- A write to the last node passed.
pub Chain-relink :
    (next : ℕ → Option ℕ) (h m v : Option ℕ) (xs : List ℕ) (r : ℕ)
    → count r xs ≡ 0
    → Chain next h (xs ++ (r ∷ [])) m
    → Chain (update next r v) h (xs ++ (r ∷ [])) v
Chain-relink next h m v [] r out (e, c) = (e, update_self next r v)
Chain-relink next h m v (x ∷ xs) r out (e, c) =
    let other : x ≢ r = ground (arith, out) in
    (
      e,
      rw (update_other next r v x other)
          (Chain-relink next (next x) m v xs r (ground (arith, out)) c),
    )

pub last-snoc : (xs : List ℕ) (x : ℕ) → last (xs ++ (x ∷ [])) ≡ some x
last-snoc [] x = refl
last-snoc (y ∷ []) x = refl
last-snoc (y ∷ z ∷ xs) x = last-snoc (z ∷ xs) x

pub last-append : (xs : List ℕ) (y : ℕ) (ys : List ℕ) → last (xs ++ (y ∷ ys)) ≡ last (y ∷ ys)
last-append [] y ys = refl
last-append (x ∷ []) y ys = refl
last-append (x ∷ z ∷ xs) y ys = last-append (z ∷ xs) y ys

-- The last node, split off.
pub last_split : (xs : List ℕ) (r : ℕ) → last xs ≡ some r → (ps : List ℕ) × (xs ≡ ps ++ (r ∷ []))
last_split [] r e = cc
last_split (x ∷ []) r e = ([], ground (arith, e))
last_split (x ∷ y ∷ ys) r e =
    let (ps, same) = last_split (y ∷ ys) r e in (x ∷ ps, ap (λ (zs : List ℕ). x ∷ zs) same)

pub last-none : (xs : List ℕ) → last xs ≡ none → xs ≡ []
last-none [] e = refl
last-none (x ∷ []) e = cc
last-none (x ∷ y ∷ ys) e = absurd (ground (arith, last-none (y ∷ ys) e))

-- The last node of a list is in it.
pub last-count : (xs : List ℕ) (r : ℕ) → last xs ≡ some r → 0 < count r xs
last-count [] r e = cc
last-count (x ∷ []) r e = ground (arith, e)
last-count (x ∷ y ∷ ys) r e = ground (arith, last-count (y ∷ ys) r e)
