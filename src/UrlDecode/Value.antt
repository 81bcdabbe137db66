-- ===== src/UrlDecode/Value.antt =====
-- src/server/urldecode.c: the loop over a value decodes in place.
use dnbd3_fuse_lowlevel.Prelude.{
  ◌∙◌, ℕ, zero, suc, ◌+◌, ◌≤◌, ◌≡◌, ◌⊎◌, List, [], ◌∷◌, Option, none, some, true, false, ◌&&◌, ltb,
  ◌==◌, if◌then◌else◌, length, arith, refl, sym, ap, Bool-cases, Option-cases, inl, inr,
}
use mathlib.Core.Path.{subst}
use dnbd3_fuse_lowlevel.Prelude.Maps.{update}
use dnbd3_fuse_lowlevel.UrlDecode.{Memory, escape, value_step, copy_value}
use dnbd3_fuse_lowlevel.UrlDecode.Strings.{before, plain, unescape, Holds}
use dnbd3_fuse_lowlevel.UrlDecode.Copy.{Copied, Copied-nil, Copied-cons, update-Holds, escape-some}

-- What the step over `x`, with `xs` behind it, does: a byte for itself, or a byte for three.
abbrev Step : Memory → ℕ → ℕ → ℕ → List ℕ → Type 0
Step m src end x xs =
    ((value_step m src end ≡ (plain x, 1))
      × (unescape (x ∷ before 38 xs) ≡ plain x ∷ unescape (before 38 xs)))
    ⊎ ((v a b : ℕ) × (r : List ℕ) × (value_step m src end ≡ (v, 3))
        × (xs ≡ a ∷ b ∷ r)
        × (before 38 xs ≡ a ∷ b ∷ before 38 r)
        × (unescape (x ∷ before 38 xs) ≡ v ∷ unescape (before 38 r)))

-- The two characters behind `x`, if it is a percent sign.
abbrev decoded : ℕ → ℕ → ℕ → Option ℕ
decoded x a b = if x == 37 then escape a b else none

unescape-none :
    (x a b : ℕ) (r : List ℕ)
    → decoded x a b ≡ none
    → unescape (x ∷ a ∷ b ∷ r) ≡ plain x ∷ unescape (a ∷ b ∷ r)
unfolding unescape
unescape-none x a b r e = rw (e, unescape) refl

unescape-some :
    (x a b v : ℕ) (r : List ℕ) → decoded x a b ≡ some v → unescape (x ∷ a ∷ b ∷ r) ≡ v ∷ unescape r
unfolding unescape
unescape-some x a b v r e = rw (e, unescape) refl

unescape-plain :
    (x a b : ℕ) (r : List ℕ)
    → decoded x a b ≡ none
    → unescape (x ∷ before 38 (a ∷ b ∷ r)) ≡ plain x ∷ unescape (before 38 (a ∷ b ∷ r))
unfolding unescape before
unescape-plain x a b r e = elim (Bool-cases (a == 38)) [
  | inl t ↦ rw (t) refl
  | inr f ↦ elim (Bool-cases (b == 38)) [
    | inl t ↦ rw (f, t) refl
    | inr f' ↦ rw (f, f') (unescape-none x a b (before 38 r) e)
  ]
]

unescape_last :
    (x a : ℕ) → unescape (x ∷ before 38 (a ∷ [])) ≡ plain x ∷ unescape (before 38 (a ∷ []))
unfolding unescape before
unescape_last x a = elim (Bool-cases (a == 38)) [ inl t ↦ rw (t) refl | inr f ↦ rw (f) refl ]

before_behind :
    (a b v : ℕ) (r : List ℕ) → escape a b ≡ some v → before 38 (a ∷ b ∷ r) ≡ a ∷ b ∷ before 38 r
unfolding before
before_behind a b v r e = let (f, g) = escape-some a b v e in rw (f, g) refl

-- What the step looks at.
abbrev seen : Memory → ℕ → ℕ → Option ℕ
seen m src end =
    if m src == 37 && ltb (src + 2) end then escape (m (src + 1)) (m (src + 2)) else none

step_plain :
    (m : Memory) (src end x : ℕ)
    → m src ≡ x
    → seen m src end ≡ none
    → value_step m src end ≡ (plain x, 1)
unfolding value_step plain
step_plain m src end x here n = elim (Bool-cases (x == 43)) [
  | inl t ↦ rw (n, value_step, here, t) refl
  | inr f ↦ rw (n, value_step, here, f) refl
]

step_escaped :
    (m : Memory) (src end v : ℕ) → seen m src end ≡ some v → value_step m src end ≡ (v, 3)
unfolding value_step
step_escaped m src end v s = rw (s, value_step) refl

seen_end : (m : Memory) (src end : ℕ) → ltb (src + 2) end ≡ false → seen m src end ≡ none
seen_end m src end test = elim (Bool-cases (m src == 37)) [
  | inl t ↦ rw (t, test) refl
  | inr f ↦ rw f refl
]

value_step-Step :
    (m : Memory) (src end x : ℕ) (xs : List ℕ)
    → end ≡ src + length (x ∷ xs)
    → Holds m src (x ∷ xs)
    → Step m src end x xs
unfolding Holds before unescape
value_step-Step m src end x [] e (here, h) =
    inl (step_plain m src end x here (seen_end m src end (ground (arith, e))), refl)
value_step-Step m src end x (a ∷ []) e (here, h) =
    inl (step_plain m src end x here (seen_end m src end (ground (arith, e))), unescape_last x a)
value_step-Step m src end x (a ∷ b ∷ r) e (here, (second, (third, h))) =
    let test : ltb (src + 2) end ≡ true = ground (arith, e) in
    let two : src + 1 + 1 ≡ src + 2 = omega arith in
    let third' : m (src + 2) ≡ b = subst (λ k. m k ≡ b) two third in
    let same : seen m src end ≡ decoded x a b = step_seen here second third' test in
    elim (Option-cases (decoded x a b)) [
      | inl n ↦ inl (step_plain m src end x here (same ∙ n), unescape-plain x a b r n)
      | inr (v, s) ↦
          let split = before_behind a b v r (ground (arith, s)) in
          inr (
            v,
            a,
            b,
            r,
            step_escaped m src end v (same ∙ s),
            refl,
            split,
            ap (λ (zs : List ℕ). unescape (x ∷ zs)) split ∙ unescape-some x a b v (before 38 r) s,
          )
    ]
  where
    step_seen :
        m src ≡ x
        → m (src + 1) ≡ a
        → m (src + 2) ≡ b
        → ltb (src + 2) end ≡ true
        → seen m src end ≡ decoded x a b
    step_seen here second third test = elim (Bool-cases (x == 37)) [
      | inl t ↦ rw (here, second, third, test, t) refl
      | inr f ↦ rw (here, f) refl
    ]

copy_value_next :
    (n : ℕ) (m : Memory) (src dst end x v t : ℕ)
    → m src ≡ x
    → ltb src end ≡ true
    → (x == 38) ≡ false
    → value_step m src end ≡ (v, t)
    → copy_value (suc n) m src dst end ≡ copy_value n (update m dst v) (src + t) (dst + 1) end
unfolding copy_value
copy_value_next n m src dst end x v t here test f step =
    let other : (m src == 38) ≡ false = rw here f in
    let one : copy_value (suc n) m src dst end ≡ (
        let s = value_step m src end in copy_value n (update m dst s.0) (src + s.1) (dst + 1) end) =
      rw (test, other, copy_value) refl in
    one ∙ ap (λ (s : ℕ × ℕ). copy_value n (update m dst s.0) (src + s.1) (dst + 1) end) step

-- The result in the words of the caller.
Copied-same :
    (m : Memory) (src dst : ℕ) (out out' : List ℕ) (eaten eaten' : ℕ) (r r' : Memory × ℕ × ℕ)
    → out' ≡ out
    → eaten' ≡ eaten
    → r' ≡ r
    → Copied m src dst out eaten r
    → Copied m src dst out' eaten' r'
Copied-same m src dst out out' eaten eaten' r r' e f g h =
    subst (λ z. Copied m src dst z eaten' r') (sym e)
      (subst (λ z. Copied m src dst out z r') (sym f)
        (subst (Copied m src dst out eaten) (sym g) h))

third_Holds :
    (m : Memory) (src a b : ℕ) (r xs : List ℕ)
    → xs ≡ a ∷ b ∷ r
    → Holds m (src + 1) xs
    → Holds m (src + 3) r
unfolding Holds
third_Holds m src a b r xs e h =
    let (second, (third, rest)) = subst (Holds m (src + 1)) e h in
    let three : src + 1 + 1 + 1 ≡ src + 3 = omega arith in subst (λ k. Holds m k r) three rest

pub copy_value-Copied :
    (n : ℕ) (m : Memory) (src dst end : ℕ) (xs : List ℕ)
    → dst ≤ src
    → length xs ≤ n
    → end ≡ src + length xs
    → Holds m src xs
    → Copied m src dst
        (unescape (before 38 xs))
        (length (before 38 xs))
        (copy_value n m src dst end)
unfolding copy_value before Holds unescape
copy_value-Copied zero m src dst end [] le enough e h = Copied-nil m src dst
copy_value-Copied (suc n) m src dst end [] le enough e h =
    let test : ltb src end ≡ false = ground (arith, e) in
    rw (test, copy_value) (Copied-nil m src dst)
copy_value-Copied zero m src dst end (x ∷ xs) le enough e h = absurd (omega (arith, enough))
copy_value-Copied (suc n) m src dst end (x ∷ xs) le enough e (here, h) =
    let test : ltb src end ≡ true = ground (arith, e) in
    elim (Bool-cases (x == 38)) [
      | inl t ↦ rw (here, test, t, copy_value) (Copied-nil m src dst)
      | inr f ↦
          let split : before 38 (x ∷ xs) ≡ x ∷ before 38 xs = rw f refl in
          let len : length (before 38 (x ∷ xs)) ≡ suc (length (before 38 xs)) = ap length split in
          let out : unescape (before 38 (x ∷ xs)) ≡ unescape (x ∷ before 38 xs) =
            ap unescape split in
          elim (value_step-Step m src end x xs e (here, h)) [
            | inl (step, is) ↦
                Copied-same m src dst (plain x ∷ unescape (before 38 xs)) _
                  (length (before 38 xs) + 1) _ _ _ (out ∙ is) (omega (arith, len))
                  (copy_value_next n m src dst end x (plain x) 1 here test f step)
                  (Copied-cons m src dst (plain x) 1 _ _ _ le (omega arith) (
                    copy_value-Copied n (update m dst (plain x)) (src + 1) (dst + 1) end xs
                      (omega (arith, le)) (omega (arith, enough)) (omega (arith, e))
                      (update-Holds m dst (plain x) (src + 1) xs (omega (arith, le)) h)))
            | inr (v, a, b, r, step, xs_is, split', is) ↦
                let len' : length (before 38 xs) ≡ suc (suc (length (before 38 r))) =
                  ap length split' in
                let size : length xs ≡ suc (suc (length r)) = ap length xs_is in
                let h' : Holds m (src + 3) r = third_Holds m src a b r xs xs_is h in
                Copied-same m src dst (v ∷ unescape (before 38 r)) _ (length (before 38 r) + 3) _ _
                  _ (out ∙ is) (omega (arith, len, len'))
                  (copy_value_next n m src dst end x v 3 here test f step)
                  (Copied-cons m src dst v 3 _ _ _ le (omega arith) (
                    copy_value-Copied n (update m dst v) (src + 3) (dst + 1) end r
                      (omega (arith, le)) (omega (arith, enough, size)) (omega (arith, e, size))
                      (update-Holds m dst v (src + 3) r (omega (arith, le)) h')))
          ]
    ]
