-- ===== src/UrlDecode/Contents.antt =====
-- src/server/urldecode.c: the bytes of a field stand where its addresses say.
use dnbd3_fuse_lowlevel.Prelude.{
  ◌∙◌, ℕ, suc, ◌+◌, ◌-◌, ◌≤◌, ◌<◌, ◌≡◌, List, [], ◌∷◌, Option, none, some, ◌==◌, length, arith,
  refl, ap, Bool-cases, inl, inr,
}
use mathlib.Core.Path.{subst}
use dnbd3_fuse_lowlevel.UrlDecode.{Memory, Field}
use dnbd3_fuse_lowlevel.UrlDecode.Strings.{before, behind, Holds, bytes}
use dnbd3_fuse_lowlevel.UrlDecode.Copy.{Copied, bytes-frame}

-- Names and values at the addresses that the fields give.
unfoldable pub contents : Memory → List Field → List (List ℕ × List ℕ)
contents m [] = []
contents m (f ∷ fs) = (bytes m f.name f.name_len, bytes m f.value f.value_len) ∷ contents m fs

-- Where the bytes behind `bs` and one more stand.
abbrev pub Behind : List ℕ → List ℕ → Option (List ℕ) → Type 0
Behind xs bs none = length bs ≡ length xs
Behind xs bs (some ys) =
    (length xs ≡ length bs + 1 + length ys)
    × ((m : Memory) (s : ℕ) → Holds m s xs → Holds m (s + length bs + 1) ys)

Behind-cons :
    (x : ℕ) (xs bs : List ℕ) (r : Option (List ℕ)) → Behind xs bs r → Behind (x ∷ xs) (x ∷ bs) r
unfolding Holds
Behind-cons x xs bs none h = ap suc h
Behind-cons x xs bs (some ys) (len, h) = (
  omega (arith, len),
  λ m s holds.
      let e : s + 1 + length bs + 1 ≡ s + length (x ∷ bs) + 1 = omega arith in
      subst (λ k. Holds m k ys) e (h m (s + 1) holds.1),
)

pub behind-Behind : (c : ℕ) (xs : List ℕ) → Behind xs (before c xs) (behind c xs)
unfolding behind before Holds
behind-Behind c [] = refl
behind-Behind c (x ∷ xs) = elim (Bool-cases (x == c)) [
  | inl t ↦ rw (t) (
    omega arith,
    λ m s h. let e : s + 1 ≡ s + 0 + 1 = omega arith in subst (λ k. Holds m k xs) e h.1,
  )
  | inr f ↦ rw (f) (Behind-cons x xs (before c xs) (behind c xs) (behind-Behind c xs))
]

-- A name of `name` bytes written to `dst` and a value of `value` bytes behind it and one more.
abbrev pub field_at : ℕ → ℕ → ℕ → Field
field_at dst dst1 dst2 = record {
  name = dst;
  name_len = dst1 - dst;
  value = dst1 + 1;
  value_len = dst2 - (dst1 + 1);
}

-- A field is read back from any memory that is the same up to its end.
pub field-contents :
    (m m3 : Memory) (src dst : ℕ) (name value : List ℕ) (l1 l2 : ℕ) (n v : Memory × ℕ × ℕ)
    → Copied m src dst name l1 n
    → Copied n.0 (n.1 + 1) (n.2 + 1) value l2 v
    → ((k : ℕ) → k < v.2 → m3 k ≡ v.0 k)
    → (fs : List Field) → contents m3 (field_at dst n.2 v.2 ∷ fs) ≡ (name, value) ∷ contents m3 fs
unfolding contents
field-contents m m3 src dst name value l1 l2 n v hn hv same fs =
    let len1 : n.2 - dst ≡ length name = omega (arith, hn.to) in
    let len2 : v.2 - (n.2 + 1) ≡ length value = omega (arith, hv.to) in
    let first : bytes m3 dst (n.2 - dst) ≡ name = rw len1 (
      bytes-frame n.0 m3 dst (length name)
        (λ k le lt. same k (omega (arith, lt, hn.to, hv.to)) ∙ hv.old k (omega (arith, lt, hn.to)))
      ∙ hn.written) in
    let second : bytes m3 (n.2 + 1) (v.2 - (n.2 + 1)) ≡ value = rw len2 (
      bytes-frame v.0 m3 (n.2 + 1) (length value) (λ k le lt. same k (omega (arith, lt, hv.to)))
      ∙ hv.written) in
    rw (first, second) refl

-- The result `r` of decoding `xs` from `src` on to `dst`, up to `end`.
abbrev pub Decoded : Memory → ℕ → ℕ → List (List ℕ × List ℕ) → Memory × List Field → Type 0
Decoded m dst end fields r =
    (contents r.0 r.1 ≡ fields)
    × ((k : ℕ) → k < dst → r.0 k ≡ m k)
    × ((k : ℕ) → end ≤ k → r.0 k ≡ m k)
