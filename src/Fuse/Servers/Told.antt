-- ===== src/Fuse/Servers/Told.antt =====
-- src/fuse/connection.c: what `addAltServers` does to the array.
use dnbd3_fuse_lowlevel.Prelude.{
  ◌∙◌, ℕ, zero, suc, ◌≡◌, ◌≢◌, List, [], ◌∷◌, replicate, some, false, get_elem?, get_elem?-lt,
  get_elem?-none, length, arith, refl, sym, Option-cases, inl, inr,
}
use mathlib.Core.Path.{subst}
use dnbd3_fuse_lowlevel.Host.{Host}
use dnbd3_fuse_lowlevel.Host.Same.{same_address_type}
use dnbd3_fuse_lowlevel.Fuse.Servers.{
  Server, is_unused, add_server, add_all, no_host, add_alt_servers,
}
use dnbd3_fuse_lowlevel.Fuse.Servers.Add.{IsDistinct, Keeps, Told, add_server-Added}

-- Changes that keep the entries in use keep what is known.
Told-Keeps :
    (h : Host) (ss ss' : List Server)
    → h.type ≢ 0
    → length ss' ≡ length ss
    → Keeps ss ss'
    → Told h ss
    → Told h ss'
Told-Keeps h ss ss' ok len keeps (inl (k, s, at, same)) =
    let t : h.type ≡ s.host.type = same_address_type h s.host same in
    let used : is_unused s ≡ false = ground (arith, ok, t) in inl (k, s, keeps k s at used, same)
Told-Keeps h ss ss' ok len keeps (inr full) = inr go
  where
    go : (k : ℕ) (t : Server) → get_elem? ss' k ≡ some t → is_unused t ≡ false
    go k t at = elim (Option-cases (get_elem? ss k)) [
      | inl n ↦ absurd (omega (arith, len, get_elem?-none ss k n, get_elem?-lt ss' k t at))
      | inr (s, at_s) ↦
          let used = full k s at_s in
          let same : some s ≡ some t = sym (keeps k s at_s used) ∙ at in
          let e : s ≡ t = ground (arith, same) in rw (← e) used
    ]

add_all-Keeps :
    (news : List Host) (ss : List Server)
    → IsDistinct ss
    → (length (add_all news ss) ≡ length ss)
      × Keeps ss (add_all news ss)
      × IsDistinct (add_all news ss)
      × ((i : ℕ) (h : Host) → get_elem? news i ≡ some h → h.type ≢ 0 → Told h (add_all news ss))
unfolding add_all
add_all-Keeps [] ss d = (refl, λ k s at used. at, d, λ i h at. cc)
add_all-Keeps (h ∷ hs) ss d =
    let first = add_server-Added h ss in
    let (len, keeps, d', told) = add_all-Keeps hs (add_server h ss) (first.distinct d) in
    (
      len ∙ first.len,
      λ k s at used. keeps k s (first.keeps k s at used) used,
      d',
      go len keeps told,
    )
  where
    go :
        length (add_all hs (add_server h ss)) ≡ length (add_server h ss)
        → Keeps (add_server h ss) (add_all hs (add_server h ss))
        → ((i : ℕ) (g : Host)
            → get_elem? hs i ≡ some g
            → g.type ≢ 0
            → Told g (add_all hs (add_server h ss)))
        → (i : ℕ) (g : Host) → get_elem? (h ∷ hs) i ≡ some g
        → g.type ≢ 0
        → Told g (add_all hs (add_server h ss))
    go len keeps told zero g at ok =
        let e : h ≡ g = ground arith in
        let ok' : h.type ≢ 0 = rw e ok in
        subst (λ (x : Host). Told x (add_all hs (add_server h ss))) e
          (Told-Keeps h (add_server h ss) (add_all hs (add_server h ss)) ok' len keeps
            ((add_server-Added h ss).told ok'))
    go len keeps told (suc i) g at ok = told i g at ok

-- Where no two entries in use have the same address, adding the servers that the client was told of
-- leaves it so, keeps the number of entries, and changes no entry in use, however often its server
-- failed; each of those servers is in the array, or all entries are in use. Those told of are cleared.
pub add_alt_servers-Keeps :
    (news : List Host) (ss : List Server)
    → IsDistinct ss
    → let r = add_alt_servers news ss in
      (length r.1 ≡ length ss)
      × Keeps ss r.1
      × IsDistinct r.1
      × ((i : ℕ) (h : Host) → get_elem? news i ≡ some h → h.type ≢ 0 → Told h r.1)
      × (r.0 ≡ replicate (length news) no_host)
unfolding add_alt_servers
add_alt_servers-Keeps news ss d =
    let (len, keeps, d', told) = add_all-Keeps news ss d in (len, keeps, d', told, refl)
