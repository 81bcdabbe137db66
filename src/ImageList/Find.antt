-- ===== src/ImageList/Find.antt =====
-- src/server/image.c: which image `image_get` finds.
use dnbd3_fuse_lowlevel.Prelude.{
  ℕ, ◌≤◌, ◌≡◌, ◌≢◌, List, [], ◌∷◌, Option, none, some, Bool, true, false, ◌&&◌, ◌==◌, if◌then◌else◌,
  arith, refl, ◌⊎◌, inl, inr, Bool-cases,
}
use dnbd3_fuse_lowlevel.Slots.{contains, holds}
use dnbd3_fuse_lowlevel.ImageList.{Entry, same_name, better, find}

module _ (entries : ℕ → Entry) (name : List ℕ) (revision : ℕ) where
  abbrev pub named : ℕ → Bool
  named p = same_name (entries p).name name

  -- What the loop has found after some slots, where it asks for a given revision.
  abbrev pub Exact : List (Option ℕ) → Option ℕ → Type 0
  Exact ss none = (q : ℕ) → contains ss q ≡ true → named q ≡ true → (entries q).rid ≢ revision
  Exact ss (some p) = (contains ss p ≡ true) × (named p ≡ true) × ((entries p).rid ≡ revision)

  Exact-cons :
      (s : Option ℕ) (ss : List (Option ℕ)) (r : Option ℕ)
      → ((q : ℕ) → holds s q ≡ true → named q ≡ true → (entries q).rid ≢ revision)
      → Exact ss r
      → Exact (s ∷ ss) r
  unfolding contains
  Exact-cons s ss none miss ex = λ q c n. ground (arith, miss q, ex q)
  Exact-cons s ss (some p) miss ex = (ground (arith, ex.0), ex.1, ex.2)

  pub find-Exact :
      (ss : List (Option ℕ)) → revision ≢ 0 → Exact ss (find entries name revision ss none)
  unfolding find contains
  find-Exact [] ne = λ q c n. absurd (ground arith)
  find-Exact (none ∷ ss) ne = Exact-cons none ss _ (λ q h n. cc) (find-Exact ss ne)
  find-Exact (some p ∷ ss) ne =
      let never : (revision == 0) ≡ false = ground arith in
      let stays : (if named p && better entries revision none p then some p else none) ≡ none =
        ground arith in
      elim (Bool-cases (named p && (revision == (entries p).rid))) [
        | inl t ↦ rw t (ground arith, ground arith, ground arith)
        | inr f ↦
            rw (f, stays) (Exact-cons (some p) ss _ (λ q h n. ground arith) (find-Exact ss ne))
      ]

  abbrev pub AtMost : ℕ → Option ℕ → Type 0
  AtMost n none = Unit {0}
  AtMost n (some c) = (entries c).rid ≤ n

  -- The same where it asks for the newest one, with a candidate from before.
  abbrev pub IsNewest : List (Option ℕ) → Option ℕ → ℕ → Type 0
  IsNewest ss before p =
      ((entries p).rid ≡ 0)
      ⊎ (((q : ℕ) → contains ss q ≡ true → named q ≡ true → (entries q).rid ≤ (entries p).rid)
          × AtMost (entries p).rid before)

  pub record Newest (ss : List (Option ℕ)) (before : Option ℕ) (p : ℕ) : Type 0 where
    pub origin : (before ≡ some p) ⊎ ((contains ss p ≡ true) × (named p ≡ true))
    pub newest : IsNewest ss before p

  abbrev pub Latest : List (Option ℕ) → Option ℕ → Option ℕ → Type 0
  Latest ss before none = (before ≡ none) × ((q : ℕ) → contains ss q ≡ true → named q ≡ false)
  Latest ss before (some p) = Newest ss before p

  abbrev after : ℕ → Option ℕ → Option ℕ
  after p before = if named p && better entries revision before p then some p else before

  AtMost-if :
      (n : ℕ) (b : Bool) (x y : Option ℕ)
      → AtMost n (if b then x else y)
      → (b ≡ true → AtMost n x) × (b ≡ false → AtMost n y)
  AtMost-if n true x y h = ((λ e. h), (λ e. absurd (ground arith)))
  AtMost-if n false x y h = ((λ e. absurd (ground arith)), (λ e. h))

  after_old :
      (p n : ℕ) (before : Option ℕ) → revision ≡ 0 → AtMost n (after p before) → AtMost n before
  after_old p n none z h = tt
  after_old p n (some c) z h =
      let cases = AtMost-if n _ (some p) (some c) h in
      elim (Bool-cases (named p && better entries revision (some c) p)) [
        | inl t ↦ (let h' = cases.0 t in ground arith)
        | inr f ↦ cases.1 f
      ]

  after_new :
      (p n : ℕ) (before : Option ℕ)
      → revision ≡ 0
      → named p ≡ true
      → AtMost n (after p before)
      → (entries p).rid ≤ n
  after_new p n none z m h = (AtMost-if n _ (some p) none h).0 (ground arith)
  after_new p n (some c) z m h =
      let cases = AtMost-if n _ (some p) (some c) h in
      elim (Bool-cases (named p && better entries revision (some c) p)) [
        | inl t ↦ cases.0 t
        | inr f ↦ (let h' = cases.1 f in ground arith)
      ]

  IsNewest-cons :
      (p r : ℕ) (ss : List (Option ℕ)) (before : Option ℕ)
      → revision ≡ 0
      → IsNewest ss (after p before) r
      → IsNewest (some p ∷ ss) before r
  unfolding contains
  IsNewest-cons p r ss before z (inl e) = inl e
  IsNewest-cons p r ss before z (inr (all, old)) = inr (
    (λ q c m. elim (Bool-cases (p == q)) [
      | inl t ↦
          (let named_p : named p ≡ true = ground (arith, m) in
            let bound = after_new p (entries r).rid before z named_p old in ground (arith, bound))
      | inr f ↦ all q (ground arith) m
    ]),
    after_old p (entries r).rid before z old,
  )

  Latest-cons :
      (p : ℕ) (ss : List (Option ℕ)) (before r : Option ℕ)
      → revision ≡ 0
      → Latest ss (after p before) r
      → Latest (some p ∷ ss) before r
  unfolding contains
  Latest-cons p ss before none z (e, h) = (ground (arith, e), λ q c. ground (arith, h q, e))
  Latest-cons p ss before (some r) z n = record {
    origin = ground (arith, n.origin);
    newest = IsNewest-cons p r ss before z n.newest;
  }

  Latest-skip :
      (ss : List (Option ℕ)) (before r : Option ℕ)
      → Latest ss before r
      → Latest (none ∷ ss) before r
  unfolding contains
  Latest-skip ss before none l = l
  Latest-skip ss before (some r) l = record { origin = l.origin; newest = l.newest }

  pub find-Latest :
      (ss : List (Option ℕ)) (before : Option ℕ)
      → revision ≡ 0
      → Latest ss before (find entries name revision ss before)
  unfolding find contains
  find-Latest [] none z = (refl, λ q c. absurd (ground arith))
  find-Latest [] (some c) z = record {
    origin = inl refl;
    newest = inr ((λ q e. absurd (ground arith)), omega arith);
  }
  find-Latest (none ∷ ss) before z = Latest-skip ss before _ (find-Latest ss before z)
  find-Latest (some p ∷ ss) before z =
      elim (Bool-cases (named p && (revision == (entries p).rid))) [
        | inl t ↦
            rw t (record { origin = inr (ground arith, ground arith); newest = inl (ground arith) })
        | inr f ↦ rw f (Latest-cons p ss before _ z (find-Latest ss (after p before) z))
      ]
