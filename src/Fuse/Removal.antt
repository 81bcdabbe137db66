-- ===== src/Fuse/Removal.antt =====
-- Removing a request from the linked list takes it out of the list, and comes to an end.
use dnbd3_fuse_lowlevel.Prelude.{
  ◌∙◌, ℕ, zero, suc, ◌+◌, ◌≤◌, ◌<◌, ◌≡◌, List, [], ◌∷◌, ◌++◌, Option, none, some, true, false, ◌==◌,
  if◌then◌else◌, length, append_nil, elem, arith, refl, ap, sym, Bool-cases, Option-cases, inl, inr,
}
use mathlib.Core.Path.{subst}
use dnbd3_fuse_lowlevel.Prelude.Counts.{count, count-append}
use dnbd3_fuse_lowlevel.Prelude.Maps.{update, update_other}
use dnbd3_fuse_lowlevel.Slots.{holds}
use dnbd3_fuse_lowlevel.Fuse.{Requests, enqueue_request, unlink, remove_from, remove_request}
use dnbd3_fuse_lowlevel.Fuse.Chains.{
  Chain, last, Distinct, Chain-append, Chain-update, Chain-relink, last-snoc, last-append,
  last_split, last-none, last-count,
}
use dnbd3_fuse_lowlevel.Fuse.Queue.{IsList, Frame, enqueue_request-IsList}

unfoldable pub delete : ℕ → List ℕ → List ℕ
delete p [] = []
delete p (x ∷ xs) = let rest = delete p xs in if x == p then xs else x ∷ rest

-- What removing makes of the list and what it gives; it goes on only if there are `n` nodes or more.
abbrev pub Removed : ℕ → ℕ → Requests → List ℕ → List ℕ → Option (Option ℕ × Requests) → Type 0
Removed n p q pre suf none = n ≤ length suf
Removed n p q pre suf (some (r, q')) =
    (r ≡ (if elem p suf then some p else none))
    × IsList q' (pre ++ delete p suf)
    × Frame q q' (pre ++ suf)

unlink_tail :
    (tail prev : Option ℕ) (i : ℕ) (pre rest : List ℕ)
    → tail ≡ last (pre ++ (i ∷ rest))
    → Distinct (pre ++ (i ∷ rest))
    → prev ≡ last pre
    → (if holds tail i then prev else tail) ≡ last (pre ++ rest)
unlink_tail tail prev i pre [] e d behind =
    let is : tail ≡ some i = e ∙ last-snoc pre i in
    let test : (i == i) ≡ true = ground arith in rw (is, test, append_nil pre) behind
unlink_tail tail prev i pre (y ∷ ys) e d behind =
    let is : tail ≡ last (y ∷ ys) = e ∙ last-append pre i (y ∷ ys) in
    elim (Option-cases (last (y ∷ ys))) [
      | inl n ↦ absurd (ground (arith, last-none (y ∷ ys) n))
      | inr (t, k) ↦
          let inside = last-count (y ∷ ys) t k in
          let other : (t == i) ≡ false =
            ground (arith, d i, count-append i pre (i ∷ y ∷ ys), inside) in
          let there : tail ≡ some t = is ∙ k in rw (there, other) (sym (last-append pre y ys ∙ k))
    ]

unlink-Distinct :
    (i : ℕ) (pre rest : List ℕ) → Distinct (pre ++ (i ∷ rest)) → Distinct (pre ++ rest)
unlink-Distinct i pre rest d a =
    ground (arith, d a, count-append a pre (i ∷ rest), count-append a pre rest)

-- The node `i` is taken out from between `pre` and `rest`.
abbrev Unlinked : Requests → Option ℕ → ℕ → List ℕ → List ℕ → Type 0
Unlinked q prev i pre rest =
    IsList (unlink prev i q) (pre ++ rest) × Frame q (unlink prev i q) (pre ++ (i ∷ rest))

unlink_first :
    (q : Requests) (i : ℕ) (rest : List ℕ)
    → IsList q (i ∷ rest)
    → Chain q.next (q.next i) rest none
    → Unlinked q none i [] rest
unfolding unlink
unlink_first q i rest h after = (
  record {
    chain = after;
    tail = unlink_tail q.tail none i [] rest h.tail h.distinct refl;
    distinct = unlink-Distinct i [] rest h.distinct;
  },
  λ x out. refl,
)

unlink_behind :
    (q : Requests) (r i : ℕ) (ps rest : List ℕ)
    → IsList q ((ps ++ (r ∷ [])) ++ (i ∷ rest))
    → Chain q.next q.head (ps ++ (r ∷ [])) (some i)
    → Chain q.next (q.next i) rest none
    → Unlinked q (some r) i (ps ++ (r ∷ [])) rest
unfolding unlink
unlink_behind q r i ps rest h before after = (
  record {
    chain =
        Chain-append (update q.next r (q.next i)) q.head (q.next i) none (ps ++ (r ∷ [])) rest
          (Chain-relink q.next q.head (some i) (q.next i) ps r alone before)
          (Chain-update q.next (q.next i) none (q.next i) rest r gone after);
    tail =
        unlink_tail q.tail (some r) i (ps ++ (r ∷ [])) rest h.tail h.distinct
          (sym (last-snoc ps r));
    distinct = unlink-Distinct i (ps ++ (r ∷ [])) rest h.distinct;
  },
  λ x out. update_other q.next r (q.next i) x (λ e. outside x out e),
)
  where
    sums : count r ((ps ++ (r ∷ [])) ++ (i ∷ rest)) ≡ count r ps + 1 + count r (i ∷ rest)
    sums = ground (arith, count-append r (ps ++ (r ∷ [])) (i ∷ rest), count-append r ps (r ∷ []))

    alone : count r ps ≡ 0
    alone = omega (arith, h.distinct r, sums)

    gone : count r rest ≡ 0
    gone = ground (arith, h.distinct r, sums)

    outside : (x : ℕ) → count x ((ps ++ (r ∷ [])) ++ (i ∷ rest)) ≡ 0 → x ≡ r → ⊥
    outside x out e =
        let out' = subst (λ y. count y ((ps ++ (r ∷ [])) ++ (i ∷ rest)) ≡ 0) e out in
        absurd (omega (arith, out', sums))

unlink-IsList :
    (q : Requests) (prev : Option ℕ) (i : ℕ) (pre rest : List ℕ)
    → IsList q (pre ++ (i ∷ rest))
    → prev ≡ last pre
    → Chain q.next q.head pre (some i)
    → Chain q.next (q.next i) rest none
    → Unlinked q prev i pre rest
unlink-IsList q none i pre rest h behind before after =
    let nothing : [] ≡ pre = sym (last-none pre (sym behind)) in
    subst (λ (zs : List ℕ). Unlinked q none i zs rest) nothing
      (unlink_first q i rest (subst (λ (zs : List ℕ). IsList q (zs ++ (i ∷ rest))) (sym nothing) h)
        after)
unlink-IsList q (some r) i pre rest h behind before after =
    let (ps, same) = last_split pre r (sym behind) in
    subst (λ (zs : List ℕ). Unlinked q (some r) i zs rest) (sym same)
      (unlink_behind q r i ps rest (subst (λ (zs : List ℕ). IsList q (zs ++ (i ∷ rest))) same h)
        (subst (λ (zs : List ℕ). Chain q.next q.head zs (some i)) same before) after)

snoc : (xs : List ℕ) (x : ℕ) (ys : List ℕ) → (xs ++ (x ∷ [])) ++ ys ≡ xs ++ (x ∷ ys)
snoc [] x ys = refl
snoc (z ∷ xs) x ys = ap (λ (zs : List ℕ). z ∷ zs) (snoc xs x ys)

Removed-cons :
    (n p i : ℕ) (q : Requests) (pre rest : List ℕ) (r : Option (Option ℕ × Requests))
    → (i == p) ≡ false
    → Removed n p q (pre ++ (i ∷ [])) rest r
    → Removed (suc n) p q pre (i ∷ rest) r
unfolding delete
Removed-cons n p i q pre rest none f h = omega (arith, h)
Removed-cons n p i q pre rest (some (r, q')) f (e, list, frame) =
    let other : (p == i) ≡ false = ground (arith, f) in
    (
      rw other e,
      rw f (subst (IsList q') (snoc pre i (delete p rest)) list),
      subst (λ (zs : List ℕ). Frame q q' zs) (snoc pre i rest) frame,
    )

pub remove_from-Removed :
    (n p : ℕ) (prev it : Option ℕ) (q : Requests) (pre suf : List ℕ)
    → IsList q (pre ++ suf)
    → prev ≡ last pre
    → Chain q.next q.head pre it
    → Chain q.next it suf none
    → Removed n p q pre suf (remove_from n p prev it q)
unfolding remove_from delete
remove_from-Removed zero p prev it q pre suf h behind before after = omega arith
remove_from-Removed (suc n) p prev it q pre [] h behind before after =
    rw after (refl, h, λ x out. refl)
remove_from-Removed (suc n) p prev it q pre (i ∷ rest) h behind before (here, after) =
    elim (Bool-cases (i == p)) [
      | inl t ↦
          let same : (p == i) ≡ true = ground (arith, t) in
          let is : i ≡ p = ground (arith, t) in
          let (list, frame) =
            unlink-IsList q prev i pre rest h behind (subst (Chain q.next q.head pre) here before)
              after in
          let gone : delete p (i ∷ rest) ≡ rest = rw t refl in
          rw (here, t, same)
            (
              ap some is,
              subst (λ (zs : List ℕ). IsList (unlink prev i q) (pre ++ zs)) (sym gone) list,
              frame,
            )
      | inr f ↦
          rw (here, f, remove_from)
            (Removed-cons n p i q pre rest (remove_from n p (some i) (q.next i) q) f (
              remove_from-Removed n p (some i) (q.next i) q (pre ++ (i ∷ [])) rest
                (subst (IsList q) (sym (snoc pre i rest)) h) (sym (last-snoc pre i))
                (Chain-append q.next q.head (some i) (q.next i) pre (i ∷ [])
                  (subst (Chain q.next q.head pre) here before) (refl, refl))
                after))
    ]

-- The list of requests in memory behaves as a list: `enqueueRequest` reads through no null pointer and
-- appends a request that is not pending; `removeRequest`, where more steps are allowed than requests
-- are pending, comes to an end, gives the request if it was pending, and takes it out.
pub enqueue_remove-IsList :
    (p n : ℕ) (q : Requests) (xs : List ℕ)
    → IsList q xs
    → length xs < n
    → (count p xs ≡ 0
        → (q' : Requests) × (enqueue_request p q ≡ some q') × IsList q' (xs ++ (p ∷ [])))
      × ((r : Option ℕ) × (q' : Requests) × (remove_request n p q ≡ some (r, q'))
          × (r ≡ (if elem p xs then some p else none))
          × IsList q' (delete p xs))
unfolding remove_request
enqueue_remove-IsList p n q xs h enough = (
  λ new. let (q', e, list, frame) = enqueue_request-IsList p q xs h new in (q', e, list),
  go (remove_from n p none q.head q) refl
      (remove_from-Removed n p none q.head q [] xs h refl refl h.chain),
)
  where
    go :
        (x : Option (Option ℕ × Requests))
        → remove_from n p none q.head q ≡ x
        → Removed n p q [] xs x
        → (r : Option ℕ) × (q' : Requests) × (remove_request n p q ≡ some (r, q'))
          × (r ≡ (if elem p xs then some p else none))
          × IsList q' (delete p xs)
    go none e short = absurd (omega arith)
    go (some (r, q')) e (is, list, frame) = (r, q', e, is, list)
