-- ===== src/AltServers/Valid.antt =====
-- src/server/altservers.c: adding a server, and the list stays well formed.
use dnbd3_fuse_lowlevel.Prelude.{
  ℕ, suc, ◌+◌, ◌≤◌, ◌<◌, ◌≡◌, ◌≢◌, ◌⊎◌, List, [], ◌∷◌, ◌++◌, Option, none, some, Bool, true, false,
  ◌&&◌, leb, if◌then◌else◌, set, get_elem?, get_elem?-set_self, get_elem?-lt, get_elem?-append_self,
  length, length-set, length-append, arith, refl, Bool-cases, inl, inr,
}
use native.Mathlib.Decide.{dec_le}
use dnbd3_fuse_lowlevel.Host.{Host, is_same_address_port}
use dnbd3_fuse_lowlevel.Host.Same.{
  same_type, is_same_address_port_refl, is_same_address_port_sym, is_same_address_port_trans,
}
use dnbd3_fuse_lowlevel.AltServers.{
  AltServer, max_alts, is_empty, is_unset, find_slot, blank, fill_entry, add,
}
use dnbd3_fuse_lowlevel.AltServers.Hosts.{unit, passing, passing-set, passing-append}

-- The entries of a host.
abbrev pub copies : Host → List AltServer → ℕ
copies host ss = passing (λ s. is_same_address_port s.host host) ss

-- No more entries than the array has, and each host once.
pub record IsValid (ss : List AltServer) : Type 0 where
  pub fits : length ss ≤ max_alts
  pub distinct : (host : Host) → host.type ≢ 0 → copies host ss ≤ 1

-- Which slot the loop over the list gives.
abbrev Place : List AltServer → ℕ → Option ℕ → Option ℕ → Type 0
Place ss i (some f) r = r ≡ some f
Place ss i none none = passing is_empty ss ≡ 0
Place ss i none (some k) =
    (j : ℕ) × (s : AltServer) × (k ≡ i + j) × (get_elem? ss j ≡ some s) × (is_empty s ≡ true)

abbrev Slot : Host → List AltServer → ℕ → Option ℕ → Option (Option ℕ) → Type 0
Slot host ss i free none = 0 < copies host ss
Slot host ss i free (some r) = (copies host ss ≡ 0) × Place ss i free r

Place-cons :
    (s : AltServer) (ss : List AltServer) (i : ℕ) (empty : Bool) (free r : Option ℕ)
    → is_empty s ≡ empty
    → Place ss (i + 1) (if is_unset free && empty then some i else free) r
    → Place (s ∷ ss) i free r
unfolding passing
Place-cons s ss i empty (some f) r e p = p
Place-cons s ss i true none none e p = absurd (ground arith)
Place-cons s ss i true none (some k) e p = (0, s, ground arith, refl, e)
Place-cons s ss i false none none e p = rw e p
Place-cons s ss i false none (some k) e (j, t, at, here, empty) =
    (suc j, t, omega arith, here, empty)

find_slot-Slot :
    (host : Host) (ss : List AltServer) (i : ℕ) (free : Option ℕ)
    → Slot host ss i free (find_slot host ss i free)
unfolding find_slot passing
find_slot-Slot host [] i none = (refl, refl)
find_slot-Slot host [] i (some f) = (refl, refl)
find_slot-Slot host (s ∷ ss) i free =
    let next : Option ℕ = if is_unset free && is_empty s then some i else free in
    let ih = find_slot-Slot host ss (i + 1) next in
    elim (Bool-cases (is_same_address_port s.host host)) [
      | inl t ↦ rw (t, find_slot) (ground arith)
      | inr f ↦ rw (f, find_slot) (go f (find_slot host ss (i + 1) next) ih)
    ]
  where
    go :
        is_same_address_port s.host host ≡ false
        → (r : Option (Option ℕ))
        → Slot host ss (i + 1) (if is_unset free && is_empty s then some i else free) r
        → Slot host (s ∷ ss) i free r
    go f none h = rw f h
    go f (some r) (none_here, p) = (rw f none_here, Place-cons s ss i (is_empty s) free r refl p)

-- What adding a server does: it fails if the host is known or no entry is left; otherwise the host
-- is in the list once, with the marks given, and the other hosts are there as often as before.
abbrev pub Added : Host → Bool → Bool → List AltServer → Option (List AltServer) → Type 0
Added host is_private is_client_only ss none =
    (0 < copies host ss) ⊎ ((length ss ≡ max_alts) × (passing is_empty ss ≡ 0))
Added host is_private is_client_only ss (some ss') =
    (copies host ss ≡ 0)
    × (copies host ss' ≡ 1)
    × ((other : Host)
        → other.type ≢ 0
        → is_same_address_port host other ≡ false
        → copies other ss' ≡ copies other ss)
    × ((i : ℕ) × (s : AltServer) × (get_elem? ss' i ≡ some s)
        × (s.host ≡ host)
        × (s.is_private ≡ is_private)
        × (s.is_client_only ≡ is_client_only))
    × IsValid ss'

pub same_copies :
    (a b : Host) (ss : List AltServer) → is_same_address_port a b ≡ true → copies a ss ≡ copies b ss
unfolding passing
same_copies a b [] h = refl
same_copies a b (s ∷ ss) h =
    rw (same_copies a b ss h) (elim (Bool-cases (is_same_address_port s.host a)) [
      | inl t ↦ rw (t, is_same_address_port_trans s.host a b t h) refl
      | inr f ↦ elim (Bool-cases (is_same_address_port s.host b)) [
        | inl t ↦ absurd (
            ground
              (arith, is_same_address_port_trans s.host b a t (is_same_address_port_sym a b h)))
        | inr f' ↦ rw (f, f') refl
      ]
    ])

-- An entry for a new host in place of none.
module _ (host : Host) (ss ss' : List AltServer) (used : host.type ≢ 0) (valid : IsValid ss) where
  abbrev One : Type 0
  One =
      (other : Host)
      → other.type ≢ 0
      → copies other ss' ≡ copies other ss + unit (is_same_address_port host other)

  one_distinct : copies host ss ≡ 0 → One → (other : Host) → other.type ≢ 0 → copies other ss' ≤ 1
  one_distinct new one other ok = elim (Bool-cases (is_same_address_port host other)) [
    | inl t ↦ ground (arith, one other ok, same_copies host other ss t)
    | inr f ↦ ground (arith, valid.distinct other ok, one other ok)
  ]

  -- The entry stands at `i`.
  added :
      (i : ℕ) (s : AltServer) (is_private is_client_only : Bool)
      → copies host ss ≡ 0
      → One
      → length ss' ≤ max_alts
      → get_elem? ss' i ≡ some s
      → s.host ≡ host
      → s.is_private ≡ is_private
      → s.is_client_only ≡ is_client_only
      → is_same_address_port host host ≡ true
      → Added host is_private is_client_only ss (some ss')
  added i s is_private is_client_only new one fits at h p c self = (
    new,
    ground (arith, one host used),
    λ other ok f. ground (arith, one other ok),
    (i, s, at, h, p, c),
    record { fits = fits; distinct = one_distinct new one },
  )

filled_host :
    (host : Host) (comment : Option (List ℕ)) (p c : Bool) (s : AltServer)
    → let t = fill_entry host comment p c s in
      (t.host ≡ host) × (t.is_private ≡ p) × (t.is_client_only ≡ c)
unfolding fill_entry
filled_host host none p c s = (refl, refl, refl)
filled_host host (some text) p c s = (refl, refl, refl)

one_set :
    (host other : Host) (ss : List AltServer) (k : ℕ) (s t : AltServer)
    → get_elem? ss k ≡ some s
    → is_empty s ≡ true
    → t.host ≡ host
    → other.type ≢ 0
    → copies other (set ss k t) ≡ copies other ss + unit (is_same_address_port host other)
one_set host other ss k s t at empty h ok = elim (Bool-cases (is_same_address_port s.host other)) [
  | inl same ↦ absurd (ok (ground (arith, same_type s.host other same)))
  | inr f ↦
      let e = passing-set (λ r. is_same_address_port r.host other) ss k s t at in
      let e' : passing (λ r. is_same_address_port r.host other) (set ss k t)
            + unit (is_same_address_port s.host other)
          ≡ copies other ss + unit (is_same_address_port host other) =
        rw (← h) e in
      ground (arith, e')
]

one_append :
    (host other : Host) (ss : List AltServer) (t : AltServer)
    → t.host ≡ host
    → copies other (ss ++ (t ∷ [])) ≡ copies other ss + unit (is_same_address_port host other)
one_append host other ss t h =
    rw (← h) (passing-append (λ r. is_same_address_port r.host other) ss t)

-- Adding to a valid list fails only if the host is known or no entry is left; otherwise the list
-- stays valid, has the host once, with the marks given, and the other hosts as often as before.
pub add-Added :
    (host : Host) (comment : Option (List ℕ)) (is_private is_client_only : Bool)
    (ss : List AltServer)
    → IsValid ss
    → host.type ≢ 0
    → Added host is_private is_client_only ss (add host comment is_private is_client_only ss)
unfolding add
add-Added host comment p c ss valid used =
    go (find_slot host ss 0 none) refl (find_slot-Slot host ss 0 none)
  where
    self : is_same_address_port host host ≡ true
    self = is_same_address_port_refl host

    at_index :
        (j k : ℕ) (s : AltServer) → k ≡ 0 + j → get_elem? ss j ≡ some s → get_elem? ss k ≡ some s
    at_index j k s e at = let same : k ≡ j = omega arith in rw same at

    go :
        (r : Option (Option ℕ))
        → find_slot host ss 0 none ≡ r
        → Slot host ss 0 none r
        → Added host p c ss (add host comment p c ss)
    go none e known = rw (e, add) (inl known)
    go (some (some k)) e (new, (j, s, at_k, at, empty)) =
        let t = fill_entry host comment p c s in
        let (h, hp, hc) = filled_host host comment p c s in
        let at' : get_elem? ss k ≡ some s = at_index j k s at_k at in
        let one : One host ss (set ss k t) used valid =
          λ other ok. one_set host other ss k s t at' empty h ok in
        rw (e, at', add)
          (added host ss (set ss k t) used valid k t p c new one
            (omega (arith, valid.fits, length-set {0} ss k t))
            (get_elem?-set_self ss k t (get_elem?-lt ss k s at')) h hp hc self)
    go (some none) e (new, no_empty) =
        let t = fill_entry host comment p c blank in
        let (h, hp, hc) = filled_host host comment p c blank in
        elim (dec_le max_alts (length ss)) [
          | yes full ↦
              let test : leb max_alts (length ss) ≡ true = ground arith in
              rw (e, test, add) (inr (omega (arith, valid.fits), no_empty))
          | no room ↦
              let test : leb max_alts (length ss) ≡ false = ground arith in
              let one : One host ss (ss ++ (t ∷ [])) used valid =
                λ other ok. one_append host other ss t h in
              rw (e, test, add)
                (added host ss (ss ++ (t ∷ [])) used valid (length ss) t p c new one
                  (omega (arith, length-append {0} ss (t ∷ []))) (get_elem?-append_self ss t) h hp
                  hc self)
        ]
