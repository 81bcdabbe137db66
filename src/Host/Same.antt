-- ===== src/Host/Same.antt =====
-- The comparison of addresses and ports in src/server/helper.h is symmetric and transitive.
use dnbd3_fuse_lowlevel.Prelude.{ℕ, ◌≡◌, List, [], ◌∷◌, true, take, arith, refl}
use dnbd3_fuse_lowlevel.Host.{Host, same_bytes, addr_len, is_same_address, is_same_address_port}

same_bytes_sym : (as' bs : List ℕ) → same_bytes as' bs ≡ same_bytes bs as'
unfolding same_bytes
same_bytes_sym [] [] = refl
same_bytes_sym [] (b ∷ bs) = refl
same_bytes_sym (a ∷ as') [] = refl
same_bytes_sym (a ∷ as') (b ∷ bs) = ground (arith, same_bytes_sym as' bs)

same_bytes_refl : (bs : List ℕ) → same_bytes bs bs ≡ true
unfolding same_bytes
same_bytes_refl [] = refl
same_bytes_refl (b ∷ bs) = ground (arith, same_bytes_refl bs)

same_bytes_trans :
    (as' bs cs : List ℕ)
    → same_bytes as' bs ≡ true
    → same_bytes bs cs ≡ true
    → same_bytes as' cs ≡ true
unfolding same_bytes
same_bytes_trans [] [] cs p q = q
same_bytes_trans [] (b ∷ bs) cs p q = absurd (ground arith)
same_bytes_trans (a ∷ as') [] cs p q = absurd (ground arith)
same_bytes_trans (a ∷ as') (b ∷ bs) [] p q = absurd (ground arith)
same_bytes_trans (a ∷ as') (b ∷ bs) (c ∷ cs) p q =
    ground (arith, same_bytes_trans as' bs cs (ground arith) (ground arith))

-- What two hosts with the same address and port have in common.
abbrev Agree : Host → Host → Type 0
Agree a b =
    (a.type ≡ b.type)
    × (a.port ≡ b.port)
    × (same_bytes (take (addr_len a.type) a.addr) (take (addr_len a.type) b.addr) ≡ true)

agree : (a b : Host) → is_same_address_port a b ≡ true → Agree a b
unfolding is_same_address_port
agree a b h = (ground arith, ground arith, ground arith)

same_if : (a b : Host) → Agree a b → is_same_address_port a b ≡ true
unfolding is_same_address_port
same_if a b (t, p, s) = ground arith

pub same_type : (a b : Host) → is_same_address_port a b ≡ true → a.type ≡ b.type
same_type a b h = (agree a b h).0

pub is_same_address_port_refl : (a : Host) → is_same_address_port a a ≡ true
is_same_address_port_refl a =
    same_if a a (refl, refl, same_bytes_refl (take (addr_len a.type) a.addr))

pub is_same_address_port_sym :
    (a b : Host) → is_same_address_port a b ≡ true → is_same_address_port b a ≡ true
is_same_address_port_sym a b h =
    let (t, p, s) = agree a b h in
    same_if b a (
      ground arith,
      ground arith,
      rw (← t, same_bytes_sym (take (addr_len a.type) b.addr) (take (addr_len a.type) a.addr)) s,
    )

pub is_same_address_port_trans :
    (a b c : Host)
    → is_same_address_port a b ≡ true
    → is_same_address_port b c ≡ true
    → is_same_address_port a c ≡ true
is_same_address_port_trans a b c h k =
    let (t, p, s) = agree a b h in
    let (t', p', s') = agree b c k in
    same_if a c
      (ground arith, ground arith, same_bytes_trans _ (take (addr_len a.type) b.addr) _ s (rw t s'))

pub is_same_address_refl : (a : Host) → is_same_address a a ≡ true
unfolding is_same_address
is_same_address_refl a = ground (arith, same_bytes_refl (take (addr_len a.type) a.addr))

pub is_same_address_sym : (a b : Host) → is_same_address a b ≡ true → is_same_address b a ≡ true
unfolding is_same_address
is_same_address_sym a b h =
    let t : a.type ≡ b.type = ground arith in
    let s : same_bytes (take (addr_len a.type) b.addr) (take (addr_len a.type) a.addr) ≡ true =
      rw (same_bytes_sym (take (addr_len a.type) b.addr) (take (addr_len a.type) a.addr))
        (ground arith) in
    rw (← t) (ground (arith, s))

pub same_address_type : (a b : Host) → is_same_address a b ≡ true → a.type ≡ b.type
unfolding is_same_address
same_address_type a b h = ground arith
