-- ===== src/Fuse/Servers/Sort/Exchange.antt =====
-- src/fuse/connection.c: exchanging an inactive server that works for an active one that does not.
use dnbd3_fuse_lowlevel.Prelude.{
  ◌∙◌, ℕ, zero, suc, ◌+◌, ◌-◌, ◌*◌, ◌≤◌, ◌<◌, ◌≡◌, ◌≢◌, List, some, Bool, false, ◌||◌, ltb, ◌==◌,
  get_elem?, get_elem?-set_ne, get_elem?-set_cases, get_elem?-none, some_injective, set, length,
  length-set, arith, refl, sym, Bool-cases, Option-cases, inl, inr,
}
use dnbd3_fuse_lowlevel.Host.{Host}
use dnbd3_fuse_lowlevel.Fuse.Servers.{
  Server, max_alts, max_alts_active, fail_backoff_start_count, is_unused, reset, skip_usable,
  switch, sort_from, sort_alt_servers,
}
use dnbd3_fuse_lowlevel.Fuse.Servers.Sort.{
  is_spare, hosted, Front, Back, Sorted, Sorting, hosted-set, skip_usable-Skipped,
}

module _ (ia ac : ℕ) (inactive active : Server) (ss : List Server) where
  put : Server
  put = reset active.host (fail_backoff_start_count * 4) inactive

  switch-len : length (switch ia ac inactive active ss) ≡ length ss
  unfolding switch
  switch-len = length-set {0} _ ac _ ∙ length-set {0} ss ia _

  switch-hosts :
      (p : Host → Bool)
      → get_elem? ss ia ≡ some inactive
      → get_elem? ss ac ≡ some active
      → ac < ia
      → hosted p (switch ia ac inactive active ss) ≡ hosted p ss
  unfolding switch put reset
  switch-hosts p at_i at_a lt =
      let n : ia ≢ ac = λ e. absurd (omega (arith, lt, e)) in
      let at_a' : get_elem? (set ss ia put) ac ≡ some active =
        get_elem?-set_ne ss {i = ia} {j = ac} put n ∙ at_a in
      ground (
        arith,
        hosted-set p ss ia inactive put at_i,
        hosted-set p (set ss ia put) ac active (reset inactive.host 0 active) at_a',
      )

  switch-Front :
      get_elem? ss ia ≡ some inactive
      → get_elem? ss ac ≡ some active
      → ac < ia
      → Front ac ss
      → Front ac (switch ia ac inactive active ss)
  unfolding switch reset put
  switch-Front at_i at_a lt front k t k_lt at =
      let n : ac ≢ k = λ e. absurd (omega (arith, k_lt, e)) in
      let m : ia ≢ k = λ e. absurd (omega (arith, k_lt, lt, e)) in
      let at' : get_elem? ss k ≡ some t =
        sym (get_elem?-set_ne ss {i = ia} {j = k} put m)
        ∙ sym (get_elem?-set_ne (set ss ia put) {i = ac} {j = k} (reset inactive.host 0 active) n)
        ∙ at in
      front k t k_lt at'

  switch-Back :
      get_elem? ss ia ≡ some inactive
      → get_elem? ss ac ≡ some active
      → ac < max_alts_active
      → Back ia ss
      → Back (ia + 1) (switch ia ac inactive active ss)
  unfolding switch reset put
  switch-Back at_i at_a lt back k t low k_lt at =
      let n : ac ≢ k = λ e. absurd (omega (arith, low, lt, e)) in
      let at' : get_elem? (set ss ia put) k ≡ some t =
        sym (get_elem?-set_ne (set ss ia put) {i = ac} {j = k} (reset inactive.host 0 active) n)
        ∙ at in
      elim (get_elem?-set_cases ss ia k inactive put t at_i at') [
        | inl (here, is) ↦ rw is (ground arith)
        | inr (apart, at_k) ↦ back k t low (omega (arith, k_lt, apart)) at_k
      ]

Back-suc :
    (ia : ℕ) (ss : List Server) (s : Server)
    → get_elem? ss ia ≡ some s
    → is_spare s ≡ false
    → Back ia ss
    → Back (ia + 1) ss
Back-suc ia ss s at used back k t low lt at_t = elim (Bool-cases (k == ia)) [
  | inl b ↦
      let e : k ≡ ia = ground (arith, b) in
      let at' : get_elem? ss k ≡ some s = rw e at in
      let same : s ≡ t = some_injective s t (sym at' ∙ at_t) in rw (← same) used
  | inr b ↦ back k t low (ground (arith, lt, b)) at_t
]

sort_from-Sorting :
    (n ia ac : ℕ) (ss : List Server)
    → n + ia ≡ max_alts
    → max_alts_active ≤ ia
    → ac ≤ max_alts_active
    → length ss ≡ max_alts
    → Front ac ss
    → Back ia ss
    → Sorting ss (sort_from n ia ac ss)
unfolding sort_from
sort_from-Sorting zero ia ac ss sum low ac_le len front back = record {
  len = refl;
  hosts = λ p. refl;
  sorted = inr (λ k s low lt at. back k s low (omega (arith, lt, sum)) at);
}
sort_from-Sorting (suc n) ia ac ss sum low ac_le len front back =
    elim (Option-cases (get_elem? ss ia)) [
      | inl none_at ↦ absurd (omega (arith, sum, len, get_elem?-none ss ia none_at))
      | inr (s, at) ↦ elim (Bool-cases (is_unused s || ltb 0 s.consecutive_fails)) [
        | inl t ↦
            let used : is_spare s ≡ false = ground (arith, t) in
            rw (at, t, sort_from)
              (sort_from-Sorting n (ia + 1) ac ss (omega (arith, sum)) (omega (arith, low)) ac_le
                len front (Back-suc ia ss s at used back))
        | inr f ↦
            let r = skip_usable (max_alts_active - ac) ac ss in
            let skipped =
              skip_usable-Skipped (max_alts_active - ac) ac ss (omega (arith, ac_le))
                (omega (arith, len)) in
            elim (Bool-cases (r == max_alts_active)) [
              | inl all ↦
                  let e : max_alts_active ≡ r = ground (arith, all) in
                  rw (at, f, all, sort_from)
                    (record {
                      len = refl;
                      hosts = λ p. refl;
                      sorted = inl (λ k s lt at. skipped.front front k s (omega (arith, e, lt)) at);
                    })
              | inr some_left ↦
                  let lt : r < max_alts_active = ground (arith, some_left, skipped.bound) in
                  let (active, at_a) = skipped.found lt in
                  let below : r < ia = omega (arith, lt, low) in
                  let next = switch ia r s active ss in
                  let same = switch-len ia r s active ss in
                  let rest =
                    sort_from-Sorting n (ia + 1) r next (omega (arith, sum)) (omega (arith, low))
                      skipped.bound (omega (arith, len, same))
                      (switch-Front ia r s active ss at at_a below (skipped.front front))
                      (switch-Back ia r s active ss at at_a lt back) in
                  rw (at, f, some_left, at_a, sort_from)
                    (record {
                      len = rest.len ∙ same;
                      hosts = λ p. rest.hosts p ∙ switch-hosts ia r s active ss p at at_a below;
                      sorted = rest.sorted;
                    })
            ]
      ]
    ]

-- Sorting keeps the hosts, each as often as before, and then all active servers are in use and did not
-- fail more than the backoff allows, or no inactive one is in use without failures.
pub sort_alt_servers-Sorted :
    (ss : List Server)
    → length ss ≡ max_alts
    → (length (sort_alt_servers ss) ≡ max_alts)
      × ((p : Host → Bool) → hosted p (sort_alt_servers ss) ≡ hosted p ss)
      × Sorted (sort_alt_servers ss)
unfolding sort_alt_servers
sort_alt_servers-Sorted ss len =
    let r =
      sort_from-Sorting (max_alts - max_alts_active) max_alts_active 0 ss refl (omega arith)
        (omega arith) len (λ k s lt at. absurd (omega (arith, lt)))
        (λ k s low lt at. absurd (omega (arith, low, lt))) in
    (r.len ∙ len, r.hosts, r.sorted)
