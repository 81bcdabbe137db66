-- ===== src/UrlDecode/Query.antt =====
-- src/server/urldecode.c: an encoded query is decoded to its names and values.
use dnbd3_fuse_lowlevel.Prelude.{
  ◌∙◌, ℕ, zero, suc, ◌≤◌, ◌≡◌, List, [], ◌∷◌, ◌++◌, none, some, Bool, true, false, ◌==◌, elem,
  length, append_nil, map, inl, inr, arith, refl, sym, ap,
}
use dnbd3_fuse_lowlevel.UrlDecode.{Memory, urldecode}
use dnbd3_fuse_lowlevel.UrlDecode.Strings.{before, behind, parse, Holds}
use dnbd3_fuse_lowlevel.UrlDecode.Contents.{contents}
use dnbd3_fuse_lowlevel.UrlDecode.Fields.{parse_last, parse_more, urldecode-parse}
use dnbd3_fuse_lowlevel.UrlDecode.RoundTrip.{
  IsForm, form, encode_names, encode, query, KeepsPlain, IsQuery, unescape-encode, encode-elem,
  before-append, behind-append,
}

-- Up to the separator, and what stands behind it.
before_separator : (c : ℕ) (xs ys : List ℕ) → elem c xs ≡ false → before c (xs ++ (c ∷ ys)) ≡ xs
unfolding before
before_separator c xs ys h =
    let test : (c == c) ≡ true = ground arith in
    before-append c xs (c ∷ ys) h ∙ rw test (append_nil xs)

behind_separator :
    (c : ℕ) (xs ys : List ℕ) → elem c xs ≡ false → behind c (xs ++ (c ∷ ys)) ≡ some ys
unfolding behind
behind_separator c xs ys h =
    let test : (c == c) ≡ true = ground arith in behind-append c xs (c ∷ ys) h ∙ rw test refl

-- All of a list without the separator.
before_all : (c : ℕ) (xs : List ℕ) → elem c xs ≡ false → before c xs ≡ xs
unfolding before
before_all c xs h = ap (before c) (sym (append_nil xs)) ∙ (before-append c xs [] h ∙ append_nil xs)

behind_all : (c : ℕ) (xs : List ℕ) → elem c xs ≡ false → behind c xs ≡ none
unfolding behind
behind_all c xs h = ap (behind c) (sym (append_nil xs)) ∙ behind-append c xs [] h

parse-query :
    (keep : ℕ → Bool) (max : ℕ) (fs : List (List ℕ × List ℕ))
    → KeepsPlain keep
    → IsQuery fs
    → length fs ≤ max
    → parse max (query keep fs) ≡ fs
unfolding query IsQuery parse behind
parse-query keep zero [] plain_kept h le = refl
parse-query keep (suc max) [] plain_kept h le = refl
parse-query keep zero (f ∷ fs) plain_kept h le = absurd (omega (arith, le))
parse-query keep (suc max) ((name, value) ∷ []) plain_kept (no_sign, bytes, h) le =
    let no_amp = encode-elem 38 keep value (inl refl) plain_kept bytes in
    parse_last max (name ++ (61 ∷ encode keep value)) (encode keep value)
      (behind_separator 61 name (encode keep value) no_sign)
      (behind_all 38 (encode keep value) no_amp)
    ∙ rw
        (
          before_separator 61 name (encode keep value) no_sign,
          before_all 38 (encode keep value) no_amp,
          unescape-encode keep value plain_kept bytes,
        )
        refl
parse-query keep (suc max) ((name, value) ∷ f ∷ fs) plain_kept (no_sign, bytes, h) le =
    let no_amp = encode-elem 38 keep value (inl refl) plain_kept bytes in
    let tail = query keep (f ∷ fs) in
    let ys = encode keep value ++ (38 ∷ tail) in
    parse_more max (name ++ (61 ∷ ys)) ys tail (behind_separator 61 name ys no_sign)
      (behind_separator 38 (encode keep value) tail no_amp)
    ∙ rw
        (
          before_separator 61 name ys no_sign,
          before_separator 38 (encode keep value) tail no_amp,
          unescape-encode keep value plain_kept bytes,
          parse-query keep max (f ∷ fs) plain_kept h (omega (arith, le)),
        )
        refl

encode_names-IsQuery :
    (keep : ℕ → Bool) (fs : List (List ℕ × List ℕ))
    → KeepsPlain keep
    → IsForm fs
    → IsQuery (encode_names keep fs)
unfolding encode_names IsQuery IsForm
encode_names-IsQuery keep [] plain_kept h = tt
encode_names-IsQuery keep ((name, value) ∷ fs) plain_kept (bytes, bytes', h) = (
  encode-elem 61 keep name (inr refl) plain_kept bytes,
  bytes',
  encode_names-IsQuery keep fs plain_kept h,
)

length-encode_names :
    (keep : ℕ → Bool) (fs : List (List ℕ × List ℕ)) → length (encode_names keep fs) ≡ length fs
unfolding encode_names
length-encode_names keep [] = refl
length-encode_names keep (f ∷ fs) = ap suc (length-encode_names keep fs)

encode_names_map :
    (keep : ℕ → Bool) (fs : List (List ℕ × List ℕ))
    → encode_names keep fs ≡ map (λ f. (encode keep f.0, f.1)) fs
unfolding encode_names
encode_names_map keep [] = refl
encode_names_map keep ((name, value) ∷ fs) =
    ap (λ (gs : List (List ℕ × List ℕ)). (encode keep name, value) ∷ gs) (encode_names_map keep fs)

-- A query whose names and values were encoded with upper case digits, whatever other bytes than `%`,
-- `&`, `+` and `=` were kept, is decoded to its values, if there is room for all its fields; the names
-- are given as they stand in the query, still encoded.
pub urldecode-query :
    (keep : ℕ → Bool) (max : ℕ) (m : Memory) (s : ℕ) (fs : List (List ℕ × List ℕ))
    → KeepsPlain keep
    → IsForm fs
    → length fs ≤ max
    → Holds m s (form keep fs)
    → let r = urldecode max m s (length (form keep fs)) in
      contents r.0 r.1 ≡ map (λ f. (encode keep f.0, f.1)) fs
unfolding form
urldecode-query keep max m s fs plain_kept h le holds =
    let named = encode_names keep fs in
    let (same, old, ahead) = urldecode-parse max m s (query keep named) holds in
    same
    ∙ (parse-query keep max named plain_kept (encode_names-IsQuery keep fs plain_kept h)
          (omega (arith, le, length-encode_names keep fs))
        ∙ encode_names_map keep fs)
