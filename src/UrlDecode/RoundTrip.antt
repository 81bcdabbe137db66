-- ===== src/UrlDecode/RoundTrip.antt =====
-- src/server/urldecode.c: decoding undoes encoding, with upper case digits.
use Prim.{Unit}
use dnbd3_fuse_lowlevel.Prelude.{
  ◌∙◌, ℕ, ◌+◌, ◌*◌, ◌/◌, ◌%◌, ◌≤◌, ◌<◌, ◌≡◌, ◌≢◌, ◌⊎◌, List, [], ◌∷◌, ◌++◌, some, Bool, true, false,
  ltb, ◌==◌, if◌then◌else◌, elem, arith, refl, Bool-cases, inl, inr,
}
use dnbd3_fuse_lowlevel.UrlDecode.{hex2int, escape}
use dnbd3_fuse_lowlevel.UrlDecode.Strings.{before, behind, plain, unescape}

-- A hexadecimal digit in upper case, and one above nine in lower case.
unfoldable pub upper : ℕ → ℕ
upper n = if ltb n 10 then 48 + n else 55 + n

abbrev pub lower : ℕ → ℕ
lower n = 87 + n

-- A value is encoded; the test says which bytes are kept.
unfoldable pub encode : (ℕ → Bool) → List ℕ → List ℕ
unfolding upper
encode keep [] = []
encode keep (c ∷ cs) =
    let rest = encode keep cs in
    if keep c then c ∷ rest else 37 ∷ upper (c / 16) ∷ upper (c % 16) ∷ rest

-- A query with its names as they stand.
unfoldable pub query : (ℕ → Bool) → List (List ℕ × List ℕ) → List ℕ
unfolding encode
query keep [] = []
query keep ((name, value) ∷ []) = name ++ (61 ∷ encode keep value)
query keep ((name, value) ∷ f ∷ fs) =
    name ++ (61 ∷ (encode keep value ++ (38 ∷ query keep (f ∷ fs))))

-- The bytes `%`, `&`, `+` and `=` are not kept.
abbrev pub KeepsPlain : (ℕ → Bool) → Type 0
KeepsPlain keep = (c : ℕ) → keep c ≡ true → (c ≢ 37) × (c ≢ 38) × (c ≢ 43) × (c ≢ 61)

unfoldable pub IsBytes : List ℕ → Type 0
IsBytes [] = Unit
IsBytes (c ∷ cs) = (c < 256) × IsBytes cs

-- Names as they stand without an equals sign, and values of bytes.
unfoldable pub IsQuery : List (List ℕ × List ℕ) → Type 0
IsQuery [] = Unit
IsQuery ((name, value) ∷ fs) = (elem 61 name ≡ false) × IsBytes value × IsQuery fs

-- A pair of upper case digits is decoded to its byte; a lower case digit in the second place is not.
pub escape-upper :
    (h l : ℕ)
    → h < 16
    → l < 16
    → (escape (upper h) (upper l) ≡ some (16 * h + l))
      × (10 ≤ l → escape (upper h) (lower l) ≢ some (16 * h + l))
unfolding escape hex2int upper
escape-upper h l small small' =
    (ground (arith, small, small'), λ big e. absurd (ground (arith, small, small', big, e)))

unescape_kept : (c : ℕ) (xs : List ℕ) → c ≢ 37 → unescape (c ∷ xs) ≡ plain c ∷ unescape xs
unfolding unescape
unescape_kept c [] other = refl
unescape_kept c (a ∷ []) other = refl
unescape_kept c (a ∷ b ∷ xs) other =
    let test : (c == 37) ≡ false = ground (arith, other) in rw (test, unescape) refl

unescape_pair :
    (a b v : ℕ) (xs : List ℕ) → escape a b ≡ some v → unescape (37 ∷ a ∷ b ∷ xs) ≡ v ∷ unescape xs
unfolding unescape
unescape_pair a b v xs e = rw (e, unescape) refl

pub unescape-encode :
    (keep : ℕ → Bool) (cs : List ℕ) → KeepsPlain keep → IsBytes cs → unescape (encode keep cs) ≡ cs
unfolding encode IsBytes unescape plain
unescape-encode keep [] plain_kept h = refl
unescape-encode keep (c ∷ cs) plain_kept (small, h) = elim (Bool-cases (keep c)) [
  | inl t ↦
      let (percent, amp, plus, sign) = plain_kept c t in
      let test : (c == 43) ≡ false = ground (arith, plus) in
      let is : plain c ≡ c = rw test refl in
      rw t (
        unescape_kept c (encode keep cs) percent
        ∙ rw (is, unescape-encode keep cs plain_kept h) refl)
  | inr f ↦
      let byte : 16 * (c / 16) + c % 16 ≡ c = omega arith in
      rw f (
        unescape_pair (upper (c / 16)) (upper (c % 16)) (16 * (c / 16) + c % 16) (encode keep cs)
          (escape-upper (c / 16) (c % 16) (omega (arith, small)) (omega arith)).0
        ∙ rw (byte, unescape-encode keep cs plain_kept h) refl)
]

-- No ampersand and no equals sign is in an encoded string.
abbrev IsSeparator : ℕ → Type 0
IsSeparator sep = (sep ≡ 38) ⊎ (sep ≡ 61)

pub encode-elem :
    (sep : ℕ) (keep : ℕ → Bool) (cs : List ℕ)
    → IsSeparator sep
    → KeepsPlain keep
    → IsBytes cs
    → elem sep (encode keep cs) ≡ false
unfolding encode IsBytes upper
encode-elem sep keep [] is plain_kept h = refl
encode-elem sep keep (c ∷ cs) is plain_kept (small, h) = elim (Bool-cases (keep c)) [
  | inl t ↦
      let (percent, amp, plus, sign) = plain_kept c t in
      let test : (sep == c) ≡ false = ground (arith, is, amp, sign) in
      rw (t, test) (encode-elem sep keep cs is plain_kept h)
  | inr f ↦
      let mark : (sep == 37) ≡ false = ground (arith, is) in
      let first : (sep == upper (c / 16)) ≡ false = ground (arith, small, is) in
      let second : (sep == upper (c % 16)) ≡ false = ground (arith, is) in
      rw (f, mark, first, second) (encode-elem sep keep cs is plain_kept h)
]

-- What stands before and behind the first `c`, where `xs` has none.
pub before-append :
    (c : ℕ) (xs ys : List ℕ) → elem c xs ≡ false → before c (xs ++ ys) ≡ xs ++ before c ys
unfolding before
before-append c [] ys h = refl
before-append c (x ∷ xs) ys h =
    let test : (x == c) ≡ false = ground (arith, h) in
    rw (test, before-append c xs ys (ground (arith, h))) refl

pub behind-append : (c : ℕ) (xs ys : List ℕ) → elem c xs ≡ false → behind c (xs ++ ys) ≡ behind c ys
unfolding behind
behind-append c [] ys h = refl
behind-append c (x ∷ xs) ys h =
    let test : (x == c) ≡ false = ground (arith, h) in
    rw (test) (behind-append c xs ys (ground (arith, h)))

-- Names and values of bytes, and the query in which both are encoded.
unfoldable pub IsForm : List (List ℕ × List ℕ) → Type 0
unfolding IsBytes
IsForm [] = Unit
IsForm ((name, value) ∷ fs) = IsBytes name × IsBytes value × IsForm fs

unfoldable pub encode_names : (ℕ → Bool) → List (List ℕ × List ℕ) → List (List ℕ × List ℕ)
unfolding encode
encode_names keep [] = []
encode_names keep ((name, value) ∷ fs) = (encode keep name, value) ∷ encode_names keep fs

unfoldable pub form : (ℕ → Bool) → List (List ℕ × List ℕ) → List ℕ
unfolding query encode_names
form keep fs = query keep (encode_names keep fs)
