-- ===== src/AltServers/Failures.antt =====
-- src/server/altservers.c: what the failure of a server does to its entry and to the order.
use dnbd3_fuse_lowlevel.Prelude.{
  ◌∙◌, ℕ, zero, suc, ◌+◌, ◌≤◌, ◌<◌, ◌≡◌, ◌⊎◌, List, [], ◌∷◌, Option, none, some, Bool, true, false,
  not, ◌&&◌, ltb, ◌==◌, if◌then◌else◌, if_cases, ap, set, get_elem?, get_elem?-set_self,
  get_elem?-set_ne, get_elem?-lt, length, length-set, arith, refl, Option-cases, Bool-cases, inl,
  inr,
}
use dnbd3_fuse_lowlevel.Host.{Host, is_same_address_port}
use dnbd3_fuse_lowlevel.AltServers.{
  Ticks, timing_diff, AltServer, uplink_fail_increase, rtt_interval_init, is_empty, swap,
  find_failed, count_failure, server_failed,
}
use dnbd3_fuse_lowlevel.AltServers.Hosts.{passing, passing-set, passing-swap}

-- A server in use without failures.
abbrev pub works : AltServer → Bool
works s = not (is_empty s) && s.num_fails == 0

-- No entry behind `l` is such a server.
abbrev pub NoneBehind : List AltServer → ℕ → Type 0
NoneBehind ss l = (k : ℕ) (t : AltServer) → l < k → get_elem? ss k ≡ some t → works t ≡ false

abbrev NoneAt : List AltServer → Type 0
NoneAt ss = (k : ℕ) (t : AltServer) → get_elem? ss k ≡ some t → works t ≡ false

none_cons : (s : AltServer) (ss : List AltServer) → works s ≡ false → NoneAt ss → NoneAt (s ∷ ss)
none_cons s ss w h zero t at = let e : s ≡ t = ground arith in rw (← e) w
none_cons s ss w h (suc k) t at = h k t at

behind_first : (s : AltServer) (ss : List AltServer) → NoneAt ss → NoneBehind (s ∷ ss) 0
behind_first s ss h zero t lt at = absurd (omega arith)
behind_first s ss h (suc k) t lt at = h k t at

behind_cons :
    (s : AltServer) (ss : List AltServer) (m : ℕ) → NoneBehind ss m → NoneBehind (s ∷ ss) (suc m)
behind_cons s ss m h zero t lt at = absurd (omega arith)
behind_cons s ss m h (suc k) t lt at = h k t (omega arith) at

-- What the loop knows behind the failed entry.
abbrev LastOk : List AltServer → ℕ → Option ℕ → Option ℕ → Type 0
LastOk ss i before last_ok =
    ((last_ok ≡ before) × NoneAt ss)
    ⊎ ((m : ℕ) × (t : AltServer) × (last_ok ≡ some (i + m))
        × (get_elem? ss m ≡ some t)
        × NoneBehind ss m)

LastOk-cons :
    (s : AltServer) (ss : List AltServer) (i : ℕ) (w : Bool) (before last_ok : Option ℕ)
    → works s ≡ w
    → LastOk ss (i + 1) (if w then some i else before) last_ok
    → LastOk (s ∷ ss) i before last_ok
LastOk-cons s ss i true before last_ok e (inl (same, h)) =
    inr (0, s, ground arith, refl, behind_first s ss h)
LastOk-cons s ss i false before last_ok e (inl (same, h)) = inl (same, none_cons s ss e h)
LastOk-cons s ss i w before last_ok e (inr (m, t, same, at, h)) =
    inr (suc m, t, ground arith, at, behind_cons s ss m h)

-- The failed entry stays, the last one that works is found.
after_found :
    (host : Host) (ss : List AltServer) (i f : ℕ) (before : Option ℕ)
    → (last_ok : Option ℕ) × (find_failed host ss i (some f) before ≡ (some f, last_ok))
      × LastOk ss i before last_ok
unfolding find_failed
after_found host [] i f before = (before, refl, inl (refl, λ k t at. cc))
after_found host (s ∷ ss) i f before =
    let next : Option ℕ = if works s then some i else before in
    let (last_ok, e, h) = after_found host ss (i + 1) f next in
    (last_ok, e, LastOk-cons s ss i (works s) before last_ok refl h)

abbrev Finds : Host → List AltServer → ℕ → Option ℕ × Option ℕ → Type 0
Finds host ss i r =
    (((j : ℕ) (s : AltServer) → get_elem? ss j ≡ some s → is_same_address_port host s.host ≡ false)
      × (r ≡ (none, none)))
    ⊎ ((j : ℕ) × (s : AltServer) × (last_ok : Option ℕ) × (r ≡ (some (i + j), last_ok))
        × (get_elem? ss j ≡ some s)
        × (is_same_address_port host s.host ≡ true)
        × (((last_ok ≡ none) × NoneBehind ss j)
            ⊎ ((l : ℕ) × (t : AltServer) × (last_ok ≡ some (i + l))
                × (j < l)
                × (get_elem? ss l ≡ some t)
                × NoneBehind ss l)))

at_index :
    (r : Option ℕ × Option ℕ) (last_ok : Option ℕ) {x y : ℕ}
    → x ≡ y
    → r ≡ (some x, last_ok)
    → r ≡ (some y, last_ok)
at_index r last_ok e h = rw (← e) h

elsewhere :
    (host : Host) (s : AltServer) (ss : List AltServer)
    → is_same_address_port host s.host ≡ false
    → ((j : ℕ) (t : AltServer) → get_elem? ss j ≡ some t → is_same_address_port host t.host ≡ false)
    → (j : ℕ) (t : AltServer) → get_elem? (s ∷ ss) j ≡ some t
    → is_same_address_port host t.host ≡ false
elsewhere host s ss f h zero t at = let e : s ≡ t = ground arith in rw (← e) f
elsewhere host s ss f h (suc j) t at = h j t at

find_failed-Finds :
    (host : Host) (ss : List AltServer) (i : ℕ) → Finds host ss i (find_failed host ss i none none)
unfolding find_failed
find_failed-Finds host [] i = inl ((λ j s at. cc), refl)
find_failed-Finds host (s ∷ ss) i = elim (Bool-cases (is_same_address_port host s.host)) [
  | inl t ↦ rw (t, find_failed) (found t (after_found host ss (i + 1) i none))
  | inr f ↦
      rw (f, find_failed)
        (further f (find_failed host ss (i + 1) none none) (find_failed-Finds host ss (i + 1)))
]
  where
    found :
        is_same_address_port host s.host ≡ true
        → (last_ok : Option ℕ) × (find_failed host ss (i + 1) (some i) none ≡ (some i, last_ok))
          × LastOk ss (i + 1) none last_ok
        → Finds host (s ∷ ss) i (find_failed host ss (i + 1) (some i) none)
    found t (last_ok, e, inl (same, h)) = inr (
      0,
      s,
      last_ok,
      at_index _ last_ok (omega arith) e,
      refl,
      t,
      inl (same, behind_first s ss h),
    )
    found t (last_ok, e, inr (m, r, same, at, h)) = inr (
      0,
      s,
      last_ok,
      at_index _ last_ok (omega arith) e,
      refl,
      t,
      inr (suc m, r, ground arith, omega arith, at, behind_cons s ss m h),
    )

    further :
        is_same_address_port host s.host ≡ false
        → (r : Option ℕ × Option ℕ) → Finds host ss (i + 1) r
        → Finds host (s ∷ ss) i r
    further f r (inl (h, e)) = inl (elsewhere host s ss f h, e)
    further f r (inr (j, t, last_ok, e, at, same, inl (n, h))) = inr (
      suc j,
      t,
      last_ok,
      at_index r last_ok (omega arith) e,
      at,
      same,
      inl (n, behind_cons s ss j h),
    )
    further f r (inr (j, t, last_ok, e, at, same, inr (l, u, n, lt, there, h))) = inr (
      suc j,
      t,
      last_ok,
      at_index r last_ok (omega arith) e,
      at,
      same,
      inr (suc l, u, ground arith, omega arith, there, behind_cons s ss l h),
    )

-- The list after the failure of a server.
pub data Failed (now : Ticks) (host : Host) (ss : List AltServer) : List AltServer → Type 0 where
  unknown :
      ((j : ℕ) (s : AltServer) → get_elem? ss j ≡ some s → is_same_address_port host s.host ≡ false)
      → Failed now host ss ss
  recent :
      (f : ℕ) (s : AltServer)
      → get_elem? ss f ≡ some s
      → is_same_address_port host s.host ≡ true
      → timing_diff s.last_fail now ≤ rtt_interval_init
      → Failed now host ss ss
  counted :
      (f l : ℕ) (s : AltServer) (ss' : List AltServer)
      → get_elem? ss f ≡ some s
      → is_same_address_port host s.host ≡ true
      → rtt_interval_init < timing_diff s.last_fail now
      → f ≤ l
      → get_elem? ss' l
        ≡ some (record s { num_fails = s.num_fails + uplink_fail_increase; last_fail = now })
      → NoneBehind ss' l
      → Failed now host ss ss'

set-NoneBehind :
    (ss : List AltServer) (i l : ℕ) (s : AltServer)
    → i ≤ l
    → NoneBehind ss l
    → NoneBehind (set ss i s) l
set-NoneBehind ss i l s le h k t lt at =
    h k t lt (rw (← get_elem?-set_ne ss {i = i} {j = k} s (λ e. absurd (omega arith))) at)

swap-Failed :
    (now : Ticks) (host : Host) (ss : List AltServer) (f l : ℕ) (s t : AltServer)
    → get_elem? ss f ≡ some s
    → is_same_address_port host s.host ≡ true
    → rtt_interval_init < timing_diff s.last_fail now
    → f < l
    → get_elem? ss l ≡ some t
    → NoneBehind ss l
    → let r = record s { num_fails = s.num_fails + uplink_fail_increase; last_fail = now } in
      Failed now host ss (swap f l (set ss f r))
unfolding swap
swap-Failed now host ss f l s t at same due lt there h =
    let r = record s { num_fails = s.num_fails + uplink_fail_increase; last_fail = now } in
    let at' : get_elem? (set ss f r) f ≡ some r =
      get_elem?-set_self ss f r (get_elem?-lt ss f s at) in
    let there' : get_elem? (set ss f r) l ≡ some t =
      get_elem?-set_ne ss {i = f} {j = l} r (λ e. absurd (omega arith)) ∙ there in
    let short : l < length ss = get_elem?-lt ss l t there in
    rw (at', there', swap)
      (counted f l s (set (set (set ss f r) f t) l r) at same due (omega arith)
        (get_elem?-set_self (set (set ss f r) f t) l r
          (omega (arith, short, length-set {0} (set ss f r) f t, length-set {0} ss f r)))
        (set-NoneBehind (set (set ss f r) f t) l l r (omega arith) (
          set-NoneBehind (set ss f r) f l t (omega arith)
            (set-NoneBehind ss f l r (omega arith) h))))

-- What is known of the last server that works, behind the failed one.
abbrev Behind : List AltServer → ℕ → Option ℕ → Type 0
Behind ss j none = NoneBehind ss j
Behind ss j (some l) = (t : AltServer) × (j < l) × (get_elem? ss l ≡ some t) × NoneBehind ss l

count_failure-Failed :
    (now : Ticks) (host : Host) (ss : List AltServer) (j : ℕ) (s : AltServer) (last_ok : Option ℕ)
    → get_elem? ss j ≡ some s
    → is_same_address_port host s.host ≡ true
    → Behind ss j last_ok
    → Failed now host ss (count_failure now j last_ok ss)
unfolding count_failure
count_failure-Failed now host ss j s last_ok at same behind =
    elim (Bool-cases (ltb rtt_interval_init (timing_diff s.last_fail now))) [
      | inl due ↦ rw (at, due, count_failure) (go (ground (arith, due)) last_ok behind)
      | inr not_due ↦ rw (at, not_due, count_failure) (recent j s at same (ground (arith, not_due)))
    ]
  where
    go :
        rtt_interval_init < timing_diff s.last_fail now
        → (last_ok : Option ℕ) → Behind ss j last_ok
        → let r = record s { num_fails = s.num_fails + uplink_fail_increase; last_fail = now } in
          Failed now host ss (elim last_ok [ none ↦ set ss j r | some l ↦ swap j l (set ss j r) ])
    go due none h =
        let r = record s { num_fails = s.num_fails + uplink_fail_increase; last_fail = now } in
        counted j j s (set ss j r) at same due (omega arith)
          (get_elem?-set_self ss j r (get_elem?-lt ss j s at))
          (set-NoneBehind ss j j r (omega arith) h)
    go due (some l) (t, lt, there, h) = swap-Failed now host ss j l s t at same due lt there h

-- After the failure of a server, the list is as it was if the server is not in it, or if its last
-- failure is too recent; otherwise its failures are counted up, and the entry stands at the same
-- place or further behind, so that no server in use without failures comes after it.
pub server_failed-Failed :
    (now : Ticks) (host : Host) (ss : List AltServer)
    → Failed now host ss (server_failed now host ss)
unfolding server_failed
server_failed-Failed now host ss =
    go (find_failed host ss 0 none none) (find_failed-Finds host ss 0)
  where
    found :
        (j : ℕ) (s : AltServer) (last_ok : Option ℕ) (r : Option ℕ × Option ℕ)
        → r ≡ (some j, last_ok)
        → get_elem? ss j ≡ some s
        → is_same_address_port host s.host ≡ true
        → Behind ss j last_ok
        → Failed now host ss (elim r.0 [ none ↦ ss | some f ↦ count_failure now f r.1 ss ])
    found j s last_ok r e at same h =
        let first : r.0 ≡ some j = ap (λ x. x.0) e in
        let second : r.1 ≡ last_ok = ap (λ x. x.1) e in
        rw (first, second) (count_failure-Failed now host ss j s last_ok at same h)

    go :
        (r : Option ℕ × Option ℕ)
        → Finds host ss 0 r
        → Failed now host ss (elim r.0 [ none ↦ ss | some f ↦ count_failure now f r.1 ss ])
    go r (inl (h, n)) = rw n (unknown h)
    go r (inr (j, s, last_ok, n, at, same, inl (no_ok, h))) =
        found j s none r (at_index r none {x = 0 + j} (omega arith) (rw (← no_ok) n)) at same h
    go r (inr (j, s, last_ok, n, at, same, inr (l, t, is_ok, lt, there, h))) =
        let place : last_ok ≡ some l = is_ok ∙ ap some (omega arith) in
        found j s (some l) r (at_index r (some l) {x = 0 + j} (omega arith) (rw (← place) n)) at
          same (t, lt, there, h)

-- The failure of a server leaves the hosts of the list.
pub server_failed-hosts :
    (now : Ticks) (host : Host) (ss : List AltServer) (q : Host → Bool)
    → passing (λ s. q s.host) (server_failed now host ss) ≡ passing (λ s. q s.host) ss
unfolding server_failed count_failure
server_failed-hosts now host ss q = go (find_failed host ss 0 none none)
  where
    set_same :
        (f : ℕ) (s t : AltServer)
        → get_elem? ss f ≡ some s
        → t.host ≡ s.host
        → passing (λ s. q s.host) (set ss f t) ≡ passing (λ s. q s.host) ss
    set_same f s t at e =
        let h = passing-set (λ s. q s.host) ss f s t at in
        let same : q t.host ≡ q s.host = ap q e in ground (arith, h, same)

    go :
        (r : Option ℕ × Option ℕ)
        → passing (λ s. q s.host) (elim r.0 [ none ↦ ss | some f ↦ count_failure now f r.1 ss ])
          ≡ passing (λ s. q s.host) ss
    go (none, last_ok) = refl
    go (some f, last_ok) = elim (Option-cases (get_elem? ss f)) [
      | inl n ↦ rw (n, count_failure) refl
      | inr (s, at) ↦
          rw (at, count_failure)
            (if_cases (λ ss'. passing (λ s. q s.host) ss' ≡ passing (λ s. q s.host) ss)
              (ltb rtt_interval_init (timing_diff s.last_fail now)) _ _ (moved s at last_ok) refl)
    ]
      where
        moved :
            (s : AltServer)
            → get_elem? ss f ≡ some s
            → (last_ok : Option ℕ)
            → let r = record s {
              num_fails = s.num_fails + uplink_fail_increase;
              last_fail = now;
            } in
              passing
                (λ s. q s.host)
                (elim last_ok [ none ↦ set ss f r | some l ↦ swap f l (set ss f r) ])
              ≡ passing (λ s. q s.host) ss
        moved s at none = set_same f s _ at refl
        moved s at (some l) = passing-swap (λ s. q s.host) f l _ ∙ set_same f s _ at refl
