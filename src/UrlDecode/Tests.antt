-- ===== src/UrlDecode/Tests.antt =====
-- src/server/urldecode.c: the theorems about decoding at concrete queries.
use dnbd3_fuse_lowlevel.Prelude.{
  ℕ, ◌+◌, ◌*◌, ◌≤◌, ◌<◌, ◌≡◌, ◌≢◌, List, [], ◌∷◌, some, Bool, ◌==◌, get_or, map, length, arith,
  refl,
}
use Prim.{tt}
use dnbd3_fuse_lowlevel.UrlDecode.{Memory, escape, urldecode}
use dnbd3_fuse_lowlevel.UrlDecode.Strings.{before, behind, plain, unescape, parse, Holds}
use dnbd3_fuse_lowlevel.UrlDecode.Contents.{contents}
use dnbd3_fuse_lowlevel.UrlDecode.Fields.{urldecode-parse}
use dnbd3_fuse_lowlevel.UrlDecode.RoundTrip.{
  upper, lower, encode, query, form, encode_names, KeepsPlain, IsBytes, IsForm, escape-upper,
}
use dnbd3_fuse_lowlevel.UrlDecode.Query.{urldecode-query}

-- `a=b%26`
abbrev text : List ℕ
text = 97 ∷ 61 ∷ 98 ∷ 37 ∷ 50 ∷ 54 ∷ []

abbrev memory : Memory
memory = λ k. get_or text k 0

memory-Holds : Holds memory 0 text
unfolding Holds
memory-Holds = (refl, (refl, (refl, (refl, (refl, (refl, tt))))))

decoded : parse 4 text ≡ (97 ∷ [], 98 ∷ 38 ∷ []) ∷ []
unfolding parse before behind unescape escape plain
decoded = refl

urldecode-parse_example :
    let r = urldecode 4 memory 0 6 in
    (contents r.0 r.1 ≡ parse 4 text)
    × ((k : ℕ) → k < 0 → r.0 k ≡ memory k)
    × ((k : ℕ) → 0 + 6 ≤ k → r.0 k ≡ memory k)
urldecode-parse_example = urldecode-parse 4 memory 0 text memory-Holds

escape-upper_example :
    (escape (upper 2) (upper 15) ≡ some (16 * 2 + 15))
    × (10 ≤ 15 → escape (upper 2) (lower 15) ≢ some (16 * 2 + 15))
escape-upper_example = escape-upper 2 15 (omega arith) (omega arith)

abbrev keep : ℕ → Bool
keep c = c == 98

keep-KeepsPlain : KeepsPlain keep
keep-KeepsPlain c e = (
  λ k. absurd (ground (arith, e, k)),
  λ k. absurd (ground (arith, e, k)),
  λ k. absurd (ground (arith, e, k)),
  λ k. absurd (ground (arith, e, k)),
)

-- `b&` is the value of `a`; only `b` is kept, so that the name stands as `%61`.
abbrev fields : List (List ℕ × List ℕ)
fields = (97 ∷ [], 98 ∷ 38 ∷ []) ∷ []

fields-IsForm : IsForm fields
unfolding IsForm IsBytes
fields-IsForm = ((omega arith, tt), (omega arith, (omega arith, tt)), tt)

-- `%61=b%26`
abbrev form_memory : Memory
form_memory = λ k. get_or (37 ∷ 54 ∷ 49 ∷ 61 ∷ 98 ∷ 37 ∷ 50 ∷ 54 ∷ []) k 0

fields-Holds : Holds form_memory 0 (form keep fields)
unfolding Holds form query encode_names encode upper
fields-Holds = (refl, (refl, (refl, (refl, (refl, (refl, (refl, (refl, tt))))))))

urldecode-query_example :
    let r = urldecode 1 form_memory 0 (length (form keep fields)) in
    contents r.0 r.1 ≡ map (λ f. (encode keep f.0, f.1)) fields
urldecode-query_example =
    urldecode-query keep 1 form_memory 0 fields keep-KeepsPlain fields-IsForm (omega arith)
      fields-Holds
