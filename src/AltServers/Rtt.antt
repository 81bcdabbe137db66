-- ===== src/AltServers/Rtt.antt =====
-- src/server/altservers.c: the history of round trip times and its average.
use dnbd3_fuse_lowlevel.Prelude.{
  ℕ, ◌*◌, ◌%◌, ◌^◌, ◌≤◌, ◌<◌, ◌≡◌, List, [], ◌∷◌, Bool, if_cases, refl, set, get_or, get_or-set,
  length, length-set, arith,
}
use dnbd3_fuse_lowlevel.Prelude.Words.{add32}
use dnbd3_fuse_lowlevel.Host.{Host, is_same_address_port}
use dnbd3_fuse_lowlevel.AltServers.{AltServer, rtt_probes, new_rtt, average, update_rtt}
use dnbd3_fuse_lowlevel.AltServers.Hosts.{passing}

-- Each of the five probes lies in a range.
abbrev pub Within : ℕ → ℕ → List ℕ → Type 0
Within lo hi rtt =
    (length rtt ≡ rtt_probes)
    × ((i : ℕ) → i < rtt_probes → (lo ≤ get_or rtt i 0) × (get_or rtt i 0 ≤ hi))

abbrev pub AllWithin : ℕ → ℕ → List AltServer → Type 0
AllWithin lo hi [] = Unit {0}
AllWithin lo hi (s ∷ ss) = Within lo hi s.rtt × AllWithin lo hi ss

set-Within :
    (lo hi v i : ℕ) (rtt : List ℕ) → lo ≤ v → v ≤ hi → Within lo hi rtt → Within lo hi (set rtt i v)
set-Within lo hi v i rtt above below (len, h) = (
  omega (arith, length-set {0} rtt i v),
  λ j lt.
      let (a, b) = h j lt in
      let e = get_or-set rtt i j v 0 in (ground (arith, e, a), ground (arith, e, b)),
)

average-Within :
    (lo hi : ℕ) (rtt : List ℕ)
    → 5 * hi < 2 ^ 32
    → Within lo hi rtt
    → (lo ≤ average rtt) × (average rtt ≤ hi)
unfolding average
average-Within lo hi rtt small (len, h) =
    let (a0, b0) = h 0 (omega arith) in
    let (a1, b1) = h 1 (omega arith) in
    let (a2, b2) = h 2 (omega arith) in
    let (a3, b3) = h 3 (omega arith) in
    let (a4, b4) = h 4 (omega arith) in (omega arith, omega arith)

-- The average that comes back lies between bounds of the new time and of all histories, if sums of
-- five do not wrap; and the histories stay within them.
pub update_rtt-Within :
    (lo hi rtt : ℕ) (host : Host) (ss : List AltServer)
    → 5 * hi < 2 ^ 32
    → lo ≤ rtt
    → rtt ≤ hi
    → AllWithin lo hi ss
    → let (avg, ss') = update_rtt host rtt ss in (lo ≤ avg) × (avg ≤ hi) × AllWithin lo hi ss'
unfolding update_rtt new_rtt
update_rtt-Within lo hi rtt host [] small above below h = (above, below, tt)
update_rtt-Within lo hi rtt host (s ∷ ss) small above below (h, hs) =
    let (a, b, rest) = update_rtt-Within lo hi rtt host ss small above below hs in
    let here = set-Within lo hi rtt (add32 s.rtt_index 1 % rtt_probes) s.rtt above below h in
    let (a', b') = average-Within lo hi _ small here in
    if_cases (λ (r : ℕ × List AltServer). (lo ≤ r.0) × (r.0 ≤ hi) × AllWithin lo hi r.1)
      (is_same_address_port host s.host) (average (new_rtt rtt s).rtt, new_rtt rtt s ∷ ss) _
      (a', b', (here, hs)) (a, b, (h, rest))

-- The hosts of the list stay.
pub update_rtt-hosts :
    (rtt : ℕ) (host : Host) (ss : List AltServer) (q : Host → Bool)
    → passing (λ s. q s.host) (update_rtt host rtt ss).1 ≡ passing (λ s. q s.host) ss
unfolding update_rtt passing new_rtt
update_rtt-hosts rtt host [] q = refl
update_rtt-hosts rtt host (s ∷ ss) q =
    if_cases
      (λ (r : ℕ × List AltServer). passing (λ s. q s.host) r.1 ≡ passing (λ s. q s.host) (s ∷ ss))
      (is_same_address_port host s.host) (average (new_rtt rtt s).rtt, new_rtt rtt s ∷ ss) _ refl
      (ground (arith, update_rtt-hosts rtt host ss q))
