-- ===== src/Fuse/Queue.antt =====
-- The linked list of pending requests is a list: entering appends a request.
use dnbd3_fuse_lowlevel.Prelude.{
  ◌∙◌, ℕ, ◌<◌, ◌≡◌, ◌≢◌, List, [], ◌∷◌, ◌++◌, none, some, arith, refl, sym, Option-cases, inl, inr,
}
use mathlib.Core.Path.{subst}
use dnbd3_fuse_lowlevel.Prelude.Counts.{count, count-append}
use dnbd3_fuse_lowlevel.Prelude.Maps.{update, update_self, update_other}
use dnbd3_fuse_lowlevel.Fuse.{Requests, enqueue_request}
use dnbd3_fuse_lowlevel.Fuse.Chains.{
  Chain, last, Distinct, Chain-append, Chain-update, Chain-relink, last-snoc, last_split, last-none,
  last-count,
}

-- The list in memory is `xs`.
pub record IsList (q : Requests) (xs : List ℕ) : Type 0 where
  pub chain : Chain q.next q.head xs none
  pub tail : q.tail ≡ last xs
  pub distinct : Distinct xs

-- The fields of other nodes are as before.
abbrev pub Frame : Requests → Requests → List ℕ → Type 0
Frame q q' xs = (x : ℕ) → count x xs ≡ 0 → q'.next x ≡ q.next x

snoc-Distinct : (p : ℕ) (xs : List ℕ) → count p xs ≡ 0 → Distinct xs → Distinct (xs ++ (p ∷ []))
snoc-Distinct p xs new h a = ground (arith, count-append a xs (p ∷ []), h a)

enqueue_behind :
    (p t : ℕ) (q : Requests) (ps : List ℕ)
    → IsList q (ps ++ (t ∷ []))
    → count p (ps ++ (t ∷ [])) ≡ 0
    → let next = update (update q.next p none) t (some p) in
      IsList (record { head = q.head; tail = some p; next = next }) ((ps ++ (t ∷ [])) ++ (p ∷ []))
enqueue_behind p t q ps h new = record {
  chain =
      Chain-append (update (update q.next p none) t (some p)) q.head (some p) none (ps ++ (t ∷ []))
        (p ∷ [])
        (Chain-relink (update q.next p none) q.head none (some p) ps t alone
          (Chain-update q.next q.head none none (ps ++ (t ∷ [])) p new h.chain))
        (refl, update_other (update q.next p none) t (some p) p apart ∙ update_self q.next p none);
  tail = sym (last-snoc (ps ++ (t ∷ [])) p);
  distinct = snoc-Distinct p (ps ++ (t ∷ [])) new h.distinct;
}
  where
    alone : count t ps ≡ 0
    alone = ground (arith, h.distinct t, count-append t ps (t ∷ []))

    apart : p ≢ t
    apart e = ground (arith, new, e, count-append p ps (t ∷ []))

-- `enqueueRequest` reads through no null pointer and appends the request, if it is not pending yet,
-- and changes the field `next` of no other struct than it and those in the list.
pub enqueue_request-IsList :
    (p : ℕ) (q : Requests) (xs : List ℕ)
    → IsList q xs
    → count p xs ≡ 0
    → (q' : Requests) × (enqueue_request p q ≡ some q')
      × IsList q' (xs ++ (p ∷ []))
      × Frame q q' (p ∷ xs)
unfolding enqueue_request
enqueue_request-IsList p q [] h new =
    let next = update q.next p none in
    (
      record { head = some p; tail = some p; next = next },
      rw (h.chain) refl,
      record {
        chain = (refl, update_self q.next p none);
        tail = refl;
        distinct = λ a. ground arith;
      },
      λ x out. update_other q.next p none x (ground (arith, out)),
    )
enqueue_request-IsList p q (x ∷ xs) h new = elim (Option-cases (last (x ∷ xs))) [
  | inl n ↦ absurd (ground (arith, last-none (x ∷ xs) n))
  | inr (t, e) ↦ go t e (last_split (x ∷ xs) t e)
]
  where
    outside : (y t : ℕ) → count y (p ∷ x ∷ xs) ≡ 0 → 0 < count t (x ∷ xs) → y ≡ t → ⊥
    outside y t out inside k =
        let out' : count t (p ∷ x ∷ xs) ≡ 0 = subst (λ z. count z (p ∷ x ∷ xs) ≡ 0) k out in
        absurd (ground (arith, out', inside))

    go :
        (t : ℕ)
        → last (x ∷ xs) ≡ some t
        → (ps : List ℕ) × (x ∷ xs ≡ ps ++ (t ∷ []))
        → (q' : Requests) × (enqueue_request p q ≡ some q')
          × IsList q' ((x ∷ xs) ++ (p ∷ []))
          × Frame q q' (p ∷ x ∷ xs)
    go t e (ps, same) =
        let there : q.tail ≡ some t = h.tail ∙ e in
        let first : q.head ≡ some x = h.chain.0 in
        let list =
          enqueue_behind p t q ps (subst (IsList q) same h)
            (subst (λ (zs : List ℕ). count p zs ≡ 0) same new) in
        let inside = last-count (x ∷ xs) t e in
        let r' : Requests = record {
          head = q.head;
          tail = some p;
          next = update (update q.next p none) t (some p);
        } in
        (
          r',
          rw (first, there) refl,
          subst (λ zs. IsList r' (zs ++ (p ∷ []))) (sym same) list,
          λ y out.
              update_other (update q.next p none) t (some p) y (λ k. outside y t out inside k)
              ∙ update_other q.next p none y (ground (arith, out)),
        )
