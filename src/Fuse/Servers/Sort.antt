-- ===== src/Fuse/Servers/Sort.antt =====
-- src/fuse/connection.c: `sortAltServers` moves servers that work to the front.
pub mod Exchange
use dnbd3_fuse_lowlevel.Prelude.{
  ◌∙◌, ℕ, zero, suc, ◌+◌, ◌-◌, ◌≤◌, ◌<◌, ◌≡◌, ◌≢◌, ◌⊎◌, List, [], ◌∷◌, Option, none, some, Bool,
  true, false, not, ◌&&◌, ◌||◌, ltb, leb, ◌==◌, if◌then◌else◌, get_elem?, get_elem?-lt,
  get_elem?-set_self, get_elem?-set_ne, get_elem?-none, set, length, length-set, arith, refl, sym,
  Bool-cases, Option-cases, inl, inr,
}
use dnbd3_fuse_lowlevel.Host.{Host}
use dnbd3_fuse_lowlevel.Fuse.Servers.{
  Server, max_alts, max_alts_active, fail_backoff_start_count, is_unused, reset, skip_usable,
  switch, sort_from, sort_alt_servers,
}

-- A server that did not fail much, and one without failures.
abbrev pub is_usable : Server → Bool
is_usable s = not (is_unused s) && leb s.consecutive_fails fail_backoff_start_count

abbrev pub is_spare : Server → Bool
is_spare s = not (is_unused s) && s.consecutive_fails == 0

abbrev pub unit : Bool → ℕ
unit b = if b then 1 else 0

-- How many entries have a host that passes a test.
unfoldable pub hosted : (Host → Bool) → List Server → ℕ
hosted p [] = 0
hosted p (s ∷ ss) = (if p s.host then 1 else 0) + hosted p ss

-- The entries before `ac` are usable, and those from the inactive ones on up to `ia` not spare.
abbrev pub Front : ℕ → List Server → Type 0
Front ac ss = (k : ℕ) (s : Server) → k < ac → get_elem? ss k ≡ some s → is_usable s ≡ true

abbrev pub Back : ℕ → List Server → Type 0
Back ia ss =
    (k : ℕ) (s : Server)
    → max_alts_active ≤ k
    → k < ia
    → get_elem? ss k ≡ some s
    → is_spare s ≡ false

abbrev pub Sorted : List Server → Type 0
Sorted ss = Front max_alts_active ss ⊎ Back max_alts ss

-- What `sortAltServers` makes of `ss`.
pub record Sorting (ss ss' : List Server) : Type 0 where
  pub len : length ss' ≡ length ss
  pub hosts : (p : Host → Bool) → hosted p ss' ≡ hosted p ss
  pub sorted : Sorted ss'

pub hosted-set :
    (p : Host → Bool) (ss : List Server) (i : ℕ) (s t : Server)
    → get_elem? ss i ≡ some s
    → hosted p (set ss i t) + unit (p s.host) ≡ hosted p ss + unit (p t.host)
unfolding hosted
hosted-set p [] i s t at = cc
hosted-set p (r ∷ ss) zero s t at = let e : r ≡ s = ground arith in rw e (ground arith)
hosted-set p (r ∷ ss) (suc i) s t at = ground (arith, hosted-set p ss i s t at)

-- An active entry that is not usable is found, or all are usable.
pub record Skipped (ac : ℕ) (ss : List Server) (r : ℕ) : Type 0 where
  pub bound : r ≤ max_alts_active
  pub front : Front ac ss → Front r ss
  pub found : r < max_alts_active → (s : Server) × (get_elem? ss r ≡ some s)

pub Front-suc :
    (ac : ℕ) (ss : List Server) (s : Server)
    → get_elem? ss ac ≡ some s
    → is_usable s ≡ true
    → Front ac ss
    → Front (ac + 1) ss
Front-suc ac ss s at use_s front k t lt at_t = elim (Bool-cases (k == ac)) [
  | inl b ↦
      let e : k ≡ ac = ground (arith, b) in
      let at' : get_elem? ss k ≡ some s = rw e at in
      let same : some s ≡ some t = sym at' ∙ at_t in
      let e' : s ≡ t = ground (arith, same) in rw (← e') use_s
  | inr b ↦ front k t (ground (arith, lt, b)) at_t
]

pub skip_usable-Skipped :
    (n ac : ℕ) (ss : List Server)
    → n + ac ≡ max_alts_active
    → max_alts_active ≤ length ss
    → Skipped ac ss (skip_usable n ac ss)
unfolding skip_usable
skip_usable-Skipped zero ac ss sum len = record {
  bound = omega (arith, sum);
  front = λ f. f;
  found = λ lt. absurd (omega (arith, sum, lt));
}
skip_usable-Skipped (suc n) ac ss sum len = elim (Option-cases (get_elem? ss ac)) [
  | inl none_at ↦ absurd (omega (arith, sum, len, get_elem?-none ss ac none_at))
  | inr (s, at) ↦
      elim (Bool-cases (is_unused s || ltb fail_backoff_start_count s.consecutive_fails)) [
        | inl t ↦
            rw (at, t, skip_usable)
              (record { bound = omega (arith, sum); front = λ f. f; found = λ lt. (s, at) })
        | inr f ↦
            let rest = skip_usable-Skipped n (ac + 1) ss (omega (arith, sum)) len in
            let use_s : is_usable s ≡ true = ground (arith, f) in
            rw (at, f, skip_usable)
              (record {
                bound = rest.bound;
                front = λ front. rest.front (Front-suc ac ss s at use_s front);
                found = rest.found;
              })
      ]
]
