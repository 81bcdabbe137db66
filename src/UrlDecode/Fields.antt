-- ===== src/UrlDecode/Fields.antt =====
-- src/server/urldecode.c: the fields that are found in the memory are those of the query.
use dnbd3_fuse_lowlevel.Prelude.{
  ◌∙◌, ℕ, zero, suc, ◌+◌, ◌-◌, ◌≤◌, ◌<◌, ◌≡◌, List, [], ◌∷◌, Option, none, some, true, false, leb,
  ◌==◌, length, arith, refl, sym, ap,
}
use mathlib.Core.Path.{subst}
use dnbd3_fuse_lowlevel.UrlDecode.{Memory, Field, copy_name, copy_value, decode_fields, urldecode}
use dnbd3_fuse_lowlevel.UrlDecode.Strings.{before, behind, unescape, parse, Holds}
use dnbd3_fuse_lowlevel.UrlDecode.Copy.{Copied, Holds-frame, copy_name-Copied}
use dnbd3_fuse_lowlevel.UrlDecode.Value.{copy_value-Copied}
use dnbd3_fuse_lowlevel.UrlDecode.Contents.{
  contents, Behind, behind-Behind, field_at, field-contents, Decoded,
}

-- The copies of a name and of a value behind it.
module _ (max : ℕ) (m : Memory) (src dst end : ℕ) where
  abbrev name_copy : Memory × ℕ × ℕ
  name_copy = copy_name (end - src) m src dst end

  abbrev value_copy : Memory × ℕ × ℕ
  value_copy =
      copy_value (end - (name_copy.1 + 1)) name_copy.0 (name_copy.1 + 1) (name_copy.2 + 1) end

  abbrev rest_fields : Memory × List Field
  rest_fields = decode_fields max value_copy.0 (value_copy.1 + 1) (value_copy.2 + 1) end

  no_name : (name_copy.1 == end) ≡ true → decode_fields (suc max) m src dst end ≡ (name_copy.0, [])
  unfolding decode_fields
  no_name t = rw (t, decode_fields) refl

  last_field :
      (name_copy.1 == end) ≡ false
      → leb end value_copy.1 ≡ true
      → decode_fields (suc max) m src dst end
        ≡ (value_copy.0, field_at dst name_copy.2 value_copy.2 ∷ [])
  unfolding decode_fields
  last_field f t = rw (f, t, decode_fields) refl

  more_fields :
      (name_copy.1 == end) ≡ false
      → leb end value_copy.1 ≡ false
      → decode_fields (suc max) m src dst end
        ≡ (rest_fields.0, field_at dst name_copy.2 value_copy.2 ∷ rest_fields.1)
  unfolding decode_fields
  more_fields f g = rw (f, g, decode_fields) refl

Decoded-same :
    (m : Memory) (dst end : ℕ) (fields fields' : List (List ℕ × List ℕ))
    (r r' : Memory × List Field)
    → fields' ≡ fields
    → r' ≡ r
    → Decoded m dst end fields r
    → Decoded m dst end fields' r'
Decoded-same m dst end fields fields' r r' e f h =
    subst (λ z. Decoded m dst end z r') (sym e) (subst (Decoded m dst end fields) (sym f) h)

parse-none : (max : ℕ) (xs : List ℕ) → behind 61 xs ≡ none → parse (suc max) xs ≡ []
unfolding parse
parse-none max xs e = rw (e, parse) refl

pub parse_last :
    (max : ℕ) (xs ys : List ℕ)
    → behind 61 xs ≡ some ys
    → behind 38 ys ≡ none
    → parse (suc max) xs ≡ (before 61 xs, unescape (before 38 ys)) ∷ []
unfolding parse
parse_last max xs ys e f = rw (e, f, parse) refl

pub parse_more :
    (max : ℕ) (xs ys zs : List ℕ)
    → behind 61 xs ≡ some ys
    → behind 38 ys ≡ some zs
    → parse (suc max) xs ≡ (before 61 xs, unescape (before 38 ys)) ∷ parse max zs
unfolding parse
parse_more max xs ys zs e f = rw (e, f, parse) refl

no_fields : (m : Memory) → contents m [] ≡ []
unfolding contents
no_fields m = refl

decode_zero :
    (m : Memory) (src dst end : ℕ) (xs : List ℕ)
    → Decoded m dst end (parse zero xs) (decode_fields zero m src dst end)
unfolding decode_fields parse contents
decode_zero m src dst end xs = (refl, λ k lt. refl, λ k le. refl)

decode_fields-Decoded :
    (max : ℕ) (m : Memory) (src dst end : ℕ) (xs : List ℕ)
    → dst ≤ src
    → end ≡ src + length xs
    → Holds m src xs
    → Decoded m dst end (parse max xs) (decode_fields max m src dst end)
decode_fields-Decoded zero m src dst end xs le e h = decode_zero m src dst end xs
decode_fields-Decoded (suc max) m src dst end xs le e h =
    from_name (behind 61 xs) refl (behind-Behind 61 xs)
      (copy_name-Copied (end - src) m src dst end xs le (omega (arith, e)) e h)
      (λ m'' src'' dst'' zs. decode_fields-Decoded max m'' src'' dst'' end zs)
  where
    Rest : Type 0
    Rest =
        (m'' : Memory) (src'' dst'' : ℕ) (zs : List ℕ)
        → dst'' ≤ src''
        → end ≡ src'' + length zs
        → Holds m'' src'' zs
        → Decoded m'' dst'' end (parse max zs) (decode_fields max m'' src'' dst'' end)

    n : Memory × ℕ × ℕ
    n = name_copy max m src dst end

    v : Memory × ℕ × ℕ
    v = value_copy max m src dst end

    l1 : ℕ
    l1 = length (before 61 xs)

    from_value :
        (ys : List ℕ) (r : Option (List ℕ))
        → behind 61 xs ≡ some ys
        → behind 38 ys ≡ r
        → Behind ys (before 38 ys) r
        → (n.1 == end) ≡ false
        → n.1 + 1 + length ys ≡ end
        → Holds n.0 (n.1 + 1) ys
        → Copied m src dst (before 61 xs) l1 n
        → Copied n.0 (n.1 + 1) (n.2 + 1) (unescape (before 38 ys)) (length (before 38 ys)) v
        → Rest
        → Decoded m dst end (parse (suc max) xs) (decode_fields (suc max) m src dst end)
    from_value ys none is r_is b other len at hn hv rest =
        Decoded-same m dst end ((before 61 xs, unescape (before 38 ys)) ∷ []) _
          (v.0, field_at dst n.2 v.2 ∷ []) _ (parse_last max xs ys is r_is)
          (last_field max m src dst end other (ground (arith, hv.read, b, len)))
          (
            field-contents m v.0 src dst _ _ l1 _ n v hn hv (λ k lt. refl) []
                ∙ ap (λ (fs : List (List ℕ × List ℕ)). (before 61 xs, unescape (before 38 ys)) ∷ fs)
                    (no_fields v.0),
            λ k lt. hv.old k (omega (arith, hn.to, lt)) ∙ hn.old k lt,
            λ k ge.
                hv.ahead k (omega (arith, b, len, ge))
                ∙ hn.ahead k (omega (arith, hn.read, len, ge)),
          )
    from_value ys (some zs) is r_is (len', behind_h) other len at hn hv rest =
        let place : n.1 + 1 + length (before 38 ys) + 1 ≡ v.1 + 1 = omega (arith, hv.read) in
        let at' : Holds v.0 (v.1 + 1) zs =
          subst (λ k. Holds v.0 k zs) place
            (Holds-frame n.0 v.0 (n.1 + 1 + length (before 38 ys) + 1) zs
              (λ k ge. hv.ahead k (omega (arith, ge))) (behind_h n.0 (n.1 + 1) at)) in
        let below : v.2 + 1 ≤ v.1 + 1 =
          omega (arith, hv.read, hv.to, hv.fits, hn.read, hn.to, le) in
        let (same, old, ahead) =
          rest v.0 (v.1 + 1) (v.2 + 1) zs below (omega (arith, hv.read, len', len)) at' in
        let r = rest_fields max m src dst end in
        Decoded-same m dst end ((before 61 xs, unescape (before 38 ys)) ∷ parse max zs) _
          (r.0, field_at dst n.2 v.2 ∷ r.1) _ (parse_more max xs ys zs is r_is)
          (more_fields max m src dst end other (ground (arith, hv.read, len', len)))
          (
            field-contents m r.0 src dst _ _ l1 _ n v hn hv (λ k lt. old k (omega (arith, lt))) r.1
                ∙ ap (λ (fs : List (List ℕ × List ℕ)). (before 61 xs, unescape (before 38 ys)) ∷ fs)
                    same,
            λ k lt.
                old k (omega (arith, hv.to, hn.to, lt))
                ∙ (hv.old k (omega (arith, hn.to, lt)) ∙ hn.old k lt),
            λ k ge.
                ahead k ge
                ∙ (hv.ahead k (omega (arith, len', len, ge))
                    ∙ hn.ahead k (omega (arith, hn.read, len, ge))),
          )

    from_name :
        (r : Option (List ℕ))
        → behind 61 xs ≡ r
        → Behind xs (before 61 xs) r
        → Copied m src dst (before 61 xs) l1 n
        → Rest
        → Decoded m dst end (parse (suc max) xs) (decode_fields (suc max) m src dst end)
    from_name none is b hn rest =
        Decoded-same m dst end [] _ (n.0, []) _ (parse-none max xs is)
          (no_name max m src dst end (ground (arith, hn.read, b, e)))
          (no_fields n.0, hn.old, λ k ge. hn.ahead k (omega (arith, b, e, ge)))
    from_name (some ys) is (len, behind_h) hn rest =
        let total : n.1 + 1 + length ys ≡ end = omega (arith, hn.read, len, e) in
        let other : (n.1 == end) ≡ false = ground (arith, total) in
        let at : Holds n.0 (n.1 + 1) ys =
          let place : src + l1 + 1 ≡ n.1 + 1 = omega (arith, hn.read) in
          subst (λ k. Holds n.0 k ys) place
            (Holds-frame m n.0 (src + l1 + 1) ys (λ k ge. hn.ahead k (omega (arith, ge)))
              (behind_h m src h)) in
        from_value ys (behind 38 ys) is refl (behind-Behind 38 ys) other total at hn
          (copy_value-Copied (end - (n.1 + 1)) n.0 (n.1 + 1) (n.2 + 1) end ys
            (omega (arith, hn.read, hn.to, le)) (omega (arith, total)) (sym total) at)
          rest

-- Decoding a query in place finds the fields of the query, as far as there is room for them: names and
-- values stand in memory where the fields say; no byte outside of the string is changed.
pub urldecode-parse :
    (max : ℕ) (m : Memory) (s : ℕ) (xs : List ℕ)
    → Holds m s xs
    → let r = urldecode max m s (length xs) in
      (contents r.0 r.1 ≡ parse max xs)
      × ((k : ℕ) → k < s → r.0 k ≡ m k)
      × ((k : ℕ) → s + length xs ≤ k → r.0 k ≡ m k)
unfolding urldecode
urldecode-parse max m s xs h =
    decode_fields-Decoded max m s s (s + length xs) xs (omega arith) refl h
