-- ===== src/AltServers/ForUplink/Listed.antt =====
-- What `altservers_getListForUplink` gives, and what it does to the list of servers.
use dnbd3_fuse_lowlevel.Prelude.{
  ◌∙◌, ℕ, zero, suc, ◌+◌, ◌-◌, ◌*◌, ◌%◌, ◌≤◌, ◌<◌, ◌≡◌, ◌⊎◌, List, [], ◌∷◌, ◌++◌, Option, none,
  some, false, ltb, leb, ◌==◌, if◌then◌else◌, take, length, min, arith, refl, ap, sym, Bool-cases,
  inl, inr,
}
use native.Mathlib.Nat.{mod-lt}
use dnbd3_fuse_lowlevel.Host.{Host}
use dnbd3_fuse_lowlevel.AltServers.{AltServer, swap}
use dnbd3_fuse_lowlevel.AltServers.Hosts.{length-swap}
use dnbd3_fuse_lowlevel.AltServers.ForUplink.{
  pick_other, Setting, ask_all, ask_twice, get_list_for_uplink,
}
use dnbd3_fuse_lowlevel.AltServers.ForUplink.Chosen.{healthy, retried, hosts_of, lower_first}
use dnbd3_fuse_lowlevel.AltServers.ForUplink.Passes.{first_pass, second_pass, lower_first-zero}

take-append_short {ℓ} :
    {A : Type ℓ} (n : ℕ) (xs ys : List A) → n ≤ length xs → take n (xs ++ ys) ≡ take n xs
take-append_short zero xs ys h = refl
take-append_short (suc n) [] ys h = absurd (omega arith)
take-append_short (suc n) (x ∷ xs) ys h =
    ap (λ zs. x ∷ zs) (take-append_short n xs ys (omega arith))

take-append_long {ℓ} :
    {A : Type ℓ} (n m : ℕ) (xs ys : List A)
    → n ≡ length xs + m
    → take n (xs ++ ys) ≡ xs ++ take m ys
take-append_long n m [] ys h = let e : n ≡ m = omega arith in rw e refl
take-append_long zero m (x ∷ xs) ys h = absurd (omega arith)
take-append_long (suc n) m (x ∷ xs) ys h =
    ap (λ zs. x ∷ zs) (take-append_long n m xs ys (omega arith))

-- The reference: the hosts in order, and the list with the failures that were taken off.
abbrev pub Chosen : Setting → ℕ → List AltServer → List AltServer × List Host → Type 0
Chosen c size servers (servers', output) =
    (output ≡ take size (hosts_of (healthy c) servers ++ hosts_of (retried c) servers))
    × (servers' ≡ lower_first c (size - length (hosts_of (healthy c) servers)) servers)

asked :
    (c : Setting) (size m : ℕ) (servers : List AltServer)
    → size ≡ suc m
    → Chosen c size servers (ask_all c (length servers) size (length servers * 2) 0 servers [])
asked c size m servers e =
    let n = length servers in
    let found = hosts_of (healthy c) servers in
    let first =
      first_pass c n size (n * 2) n m [] servers [] (omega arith) (omega arith) (omega arith) in
    elim (Bool-cases (leb (suc m) (length found))) [
      | inl t ↦
          let enough : size ≤ length found = ground arith in
          let none_more : size - length found ≡ 0 = omega arith in
          rw (first, t, none_more, e)
            (
              sym (take-append_short (suc m) found (hosts_of (retried c) servers) (ground arith)),
              sym (lower_first-zero c servers),
            )
      | inr f ↦
          let rest : size ≡ length found + suc (size - length found - 1) = ground arith in
          let left = size - length found - 1 in
          let index : n + length {A = AltServer} [] ≡ n = omega arith in
          let same : size - length found ≡ suc left = ground arith in
          let second : ask_all c n size n n servers found ≡ (
            lower_first c (suc left) servers,
            found ++ take (suc left) (hosts_of (retried c) servers),
          ) =
            ap (λ i. ask_all c n size n i servers found) (sym index)
            ∙ second_pass c n size n left [] servers found refl (omega arith) rest in
          let whole = take-append_long size (suc left) found (hosts_of (retried c) servers) rest in
          rw (first, f, second) (sym whole, ap (λ k. lower_first c k servers) (sym same))
    ]

ask_twice-Chosen :
    (c : Setting) (size : ℕ) (servers : List AltServer)
    → 0 < size
    → Chosen c (min size (length servers)) servers (ask_twice c size servers)
unfolding ask_twice ask_all hosts_of lower_first
ask_twice-Chosen c size [] some_size =
    let none_there : min size 0 ≡ 0 = omega arith in rw none_there (refl, refl)
ask_twice-Chosen c size (s ∷ ss) some_size =
    let n = suc (length ss) in
    let e : (if ltb n size then n else size) ≡ min size n = ground arith in
    rw e (asked c (min size n) (min size n - 1) (s ∷ ss) (omega arith))

-- No number drawn gives another server than the first.
abbrev pub Useless : ℕ → List ℕ → Type 0
Useless n [] = Unit {0}
Useless n (d ∷ ds) = (d % n ≡ 0) × Useless n ds

-- The list with the first server and another one swapped, if there are two.
abbrev pub Flipped : List AltServer → List AltServer → Type 0
Flipped servers servers' =
    (servers' ≡ servers)
    ⊎ ((i : ℕ) × (0 < i) × (i < length servers) × (servers' ≡ swap 0 i servers))

abbrev pub Listed :
    Setting → List ℕ → ℕ → List AltServer → Option (List AltServer × List Host) → Type 0
Listed c draws size servers none = (1 < length servers) × Useless (length servers) draws
Listed c draws size servers (some r) =
    (flipped : List AltServer) × Flipped servers flipped
    × Chosen c (min size (length servers)) flipped r

picked : (n : ℕ) (draws : List ℕ) → 0 < n → elim (pick_other n draws) as (λ r. Type 0) [
  | none ↦ Useless n draws
  | some i ↦ (0 < i) × (i < n)
]
unfolding pick_other
picked n [] h = tt
picked n (d ∷ ds) h = elim (Bool-cases (d % n == 0)) [
  | inl t ↦ rw t (go (ground arith) (pick_other n ds) (picked n ds h))
  | inr f ↦ rw f (ground (arith, f), mod-lt d h)
]
  where
    go :
        d % n ≡ 0
        → (r : Option ℕ)
        → elim r as (λ r. Type 0) [ none ↦ Useless n ds | some i ↦ (0 < i) × (i < n) ]
        → elim r as (λ r. Type 0) [ none ↦ Useless n (d ∷ ds) | some i ↦ (0 < i) × (i < n) ]
    go e none u = (e, u)
    go e (some i) u = u

-- `altservers_getListForUplink` swaps the first server of the list with another one, if there are two
-- servers, and gives the first `size` of these hosts in the order of the list: those of the usable
-- servers without failures, then those of the usable servers that failed, but in an emergency, or not
-- too often or long ago; of the ones given that failed, one failure is taken off, save in an
-- emergency. It has a result as soon as a number is drawn that is no multiple of the number of
-- servers.
pub get_list_for_uplink-Listed :
    (c : Setting) (draws : List ℕ) (size : ℕ) (servers : List AltServer)
    → Listed c draws size servers (get_list_for_uplink c draws size servers)
unfolding get_list_for_uplink
get_list_for_uplink-Listed c draws zero servers =
    let none_asked : min 0 (length servers) ≡ 0 = omega arith in
    let none_left : 0 - length (hosts_of (healthy c) servers) ≡ 0 = omega arith in
    rw none_asked (servers, inl refl, (refl, rw none_left (sym (lower_first-zero c servers))))
get_list_for_uplink-Listed c draws (suc size) servers =
    let some_asked : (suc size == 0) ≡ false = ground arith in
    elim (Bool-cases (ltb 1 (length servers))) [
      | inr f ↦
          rw (some_asked, f)
            (servers, inl refl, ask_twice-Chosen c (suc size) servers (omega arith))
      | inl t ↦
          rw (some_asked, t)
            (go (ground arith) (pick_other (length servers) draws)
              (picked (length servers) draws (ground arith)))
    ]
  where
    go :
        1 < length servers
        → (r : Option ℕ)
        → elim r as (λ r. Type 0) [
          | none ↦ Useless (length servers) draws
          | some i ↦ (0 < i) × (i < length servers)
        ]
        → Listed c draws
            (suc size)
            servers
            (elim r [ none ↦ none | some i ↦ some (ask_twice c (suc size) (swap 0 i servers)) ])
    go many none h = (many, h)
    go many (some i) (low, high) = (
      swap 0 i servers,
      inr (i, low, high, refl),
      rw (← length-swap 0 i servers)
          (ask_twice-Chosen c (suc size) (swap 0 i servers) (omega arith)),
    )
