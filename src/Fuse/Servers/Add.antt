-- ===== src/Fuse/Servers/Add.antt =====
-- src/fuse/connection.c: what adding servers does to the array.
use dnbd3_fuse_lowlevel.Prelude.{
  ◌∙◌, ℕ, zero, suc, ◌+◌, ◌≡◌, ◌≢◌, ◌⊎◌, List, [], ◌∷◌, Option, none, some, Bool, true, false, ◌==◌,
  get_elem?, get_elem?-lt, get_elem?-set_self, get_elem?-set_ne, get_elem?-set_cases, set, length,
  length-set, arith, refl, sym, Bool-cases, inl, inr,
}
use dnbd3_fuse_lowlevel.Host.{Host, is_same_address}
use dnbd3_fuse_lowlevel.Host.Same.{is_same_address_sym, is_same_address_refl}
use dnbd3_fuse_lowlevel.Fuse.Servers.{
  Server, is_unused, reset, is_known, replaces, free_slot, add_server,
}

-- No two entries in use have the same address.
unfoldable pub IsDistinct : List Server → Type 0
IsDistinct ss =
    (i j : ℕ) (s t : Server)
    → i ≢ j
    → get_elem? ss i ≡ some s
    → get_elem? ss j ≡ some t
    → is_unused s ≡ false
    → is_same_address s.host t.host ≡ false

-- Entries in use stay as they are.
abbrev pub Keeps : List Server → List Server → Type 0
Keeps ss ss' =
    (k : ℕ) (s : Server) → get_elem? ss k ≡ some s → is_unused s ≡ false → get_elem? ss' k ≡ some s

-- The host is in the array, or all entries are in use.
abbrev pub Told : Host → List Server → Type 0
Told h ss =
    ((k : ℕ) × (s : Server) × (get_elem? ss k ≡ some s) × (is_same_address h s.host ≡ true))
    ⊎ ((k : ℕ) (s : Server) → get_elem? ss k ≡ some s → is_unused s ≡ false)

abbrev Slot : List Server → ℕ → Option ℕ → Type 0
Slot ss i none = (k : ℕ) (s : Server) → get_elem? ss k ≡ some s → is_unused s ≡ false
Slot ss i (some k) =
    (j : ℕ) × (s : Server) × (k ≡ i + j) × (get_elem? ss j ≡ some s) × (is_unused s ≡ true)

Slot-cons :
    (s : Server) (ss : List Server) (i : ℕ) (r : Option ℕ)
    → is_unused s ≡ false
    → Slot ss (i + 1) r
    → Slot (s ∷ ss) i r
Slot-cons s ss i none used h = go
  where
    go : (k : ℕ) (t : Server) → get_elem? (s ∷ ss) k ≡ some t → is_unused t ≡ false
    go zero t at = let e : s ≡ t = ground arith in rw (← e) used
    go (suc k) t at = h k t at
Slot-cons s ss i (some k) used (j, t, e, at, free) = (suc j, t, omega (arith, e), at, free)

-- No slot is found but a free one: no entry is replaced.
free_slot-Slot : (all ss : List Server) (i : ℕ) → Slot ss i (free_slot all ss i none)
unfolding free_slot replaces
free_slot-Slot all [] i = λ k s at. cc
free_slot-Slot all (s ∷ ss) i = elim (Bool-cases (is_unused s)) [
  | inl t ↦ rw (t, free_slot) (0, s, omega arith, refl, t)
  | inr f ↦ rw (f, free_slot) (Slot-cons s ss i _ f (free_slot-Slot all ss (i + 1)))
]

abbrev Known : Host → List Server → Bool → Type 0
Known h ss true =
    (k : ℕ) × (s : Server) × (get_elem? ss k ≡ some s) × (is_same_address h s.host ≡ true)
Known h ss false = (k : ℕ) (s : Server) → get_elem? ss k ≡ some s → is_same_address h s.host ≡ false

is_known-Known : (h : Host) (ss : List Server) → Known h ss (is_known h ss)
unfolding is_known
is_known-Known h [] = λ k s at. cc
is_known-Known h (s ∷ ss) = elim (Bool-cases (is_same_address h s.host)) [
  | inl t ↦ rw (t, is_known) (0, s, refl, t)
  | inr f ↦ rw (f, is_known) (go f (is_known h ss) (is_known-Known h ss))
]
  where
    go : is_same_address h s.host ≡ false → (b : Bool) → Known h ss b → Known h (s ∷ ss) b
    go f true (k, t, at, same) = (suc k, t, at, same)
    go f false other = behind
      where
        behind :
            (k : ℕ) (t : Server) → get_elem? (s ∷ ss) k ≡ some t → is_same_address h t.host ≡ false
        behind zero t at = let e : s ≡ t = ground arith in rw (← e) f
        behind (suc k) t at = other k t at

-- What adding one host does.
pub record Added (h : Host) (ss ss' : List Server) : Type 0 where
  pub len : length ss' ≡ length ss
  pub keeps : Keeps ss ss'
  pub distinct : IsDistinct ss → IsDistinct ss'
  pub told : h.type ≢ 0 → Told h ss'

same_Added : (h : Host) (ss : List Server) → (h.type ≢ 0 → Told h ss) → Added h ss ss
same_Added h ss told = record {
  len = refl;
  keeps = λ k s at used. at;
  distinct = λ d. d;
  told = told;
}

-- A new host at `k`.
module _ (h : Host) (ss : List Server) (k : ℕ) (r s : Server) where
  set-IsDistinct :
      get_elem? ss k ≡ some r
      → s.host ≡ h
      → Known h ss false
      → IsDistinct ss
      → IsDistinct (set ss k s)
  unfolding IsDistinct
  set-IsDistinct at host new d i j t u apart at_t at_u used =
      elim (get_elem?-set_cases ss k i r s t at at_t) [
        | inl (i_k, t_s) ↦ elim (get_elem?-set_cases ss k j r s u at at_u) [
          | inl (j_k, u_s) ↦ absurd (apart (i_k ∙ sym j_k))
          | inr (n, at_j) ↦ rw (t_s, host) (new j u at_j)
        ]
        | inr (n, at_i) ↦ elim (get_elem?-set_cases ss k j r s u at at_u) [
          | inl (j_k, u_s) ↦
              rw (u_s, host)
                (elim (Bool-cases (is_same_address t.host h)) [
                  | inl same ↦
                      absurd (ground (arith, is_same_address_sym t.host h same, new i t at_i))
                  | inr other ↦ other
                ])
          | inr (m, at_j) ↦ d i j t u apart at_i at_j used
        ]
      ]

  set-Keeps : get_elem? ss k ≡ some r → is_unused r ≡ true → Keeps ss (set ss k s)
  set-Keeps at free j t at_t used = elim (Bool-cases (k == j)) [
    | inl b ↦
        let e : k ≡ j = ground (arith, b) in
        let here : some r ≡ some t = sym at ∙ (rw e at_t) in
        let same : r ≡ t = ground (arith, here) in
        let free' : is_unused t ≡ true = rw (← same) free in absurd (ground (arith, free', used))
    | inr b ↦
        let n : k ≢ j = λ e. absurd (ground (arith, b, e)) in
        get_elem?-set_ne ss {i = k} {j = j} s n ∙ at_t
  ]

reset_host : (h : Host) (n : ℕ) (s : Server) → (reset h n s).host ≡ h
unfolding reset
reset_host h n s = refl

placed :
    (h : Host) (ss : List Server) (r : Option ℕ)
    → Known h ss false
    → Slot ss 0 r
    → Added h ss (elim r [
      | none ↦ ss
      | some k ↦ elim (get_elem? ss k) [ none ↦ ss | some s ↦ set ss k (reset h 0 s) ]
    ])
placed h ss none new full = same_Added h ss (λ ok. inr full)
placed h ss (some k) new (j, r, e, at_j, free) =
    let at : get_elem? ss k ≡ some r = let e' : k ≡ j = omega (arith, e) in rw e' at_j in
    let s = reset h 0 r in
    let added : Added h ss (set ss k s) = record {
      len = length-set {0} ss k s;
      keeps = set-Keeps h ss k r s at free;
      distinct = set-IsDistinct h ss k r s at (reset_host h 0 r) new;
      told = λ ok. inl (
        k,
        s,
        get_elem?-set_self ss k s (get_elem?-lt ss k r at),
        rw (reset_host h 0 r) (is_same_address_refl h),
      );
    } in
    rw at added

pub add_server-Added : (h : Host) (ss : List Server) → Added h ss (add_server h ss)
unfolding add_server
add_server-Added h ss = elim (Bool-cases (h.type == 0)) [
  | inl t ↦ rw (t, add_server) (same_Added h ss (λ ok. absurd (ok (ground arith))))
  | inr f ↦ go f (is_known h ss) refl (is_known-Known h ss)
]
  where
    go :
        (h.type == 0) ≡ false
        → (b : Bool) → is_known h ss ≡ b
        → Known h ss b
        → Added h ss (add_server h ss)
    go f true e known = rw (f, e, add_server) (same_Added h ss (λ ok. inl known))
    go f false e new =
        rw (f, e, add_server) (placed h ss (free_slot ss ss 0 none) new (free_slot-Slot ss ss 0))
