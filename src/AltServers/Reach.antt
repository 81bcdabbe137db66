-- ===== src/AltServers/Reach.antt =====
-- The list of alternative servers over any calls of the functions of src/server/altservers.c.
use dnbd3_fuse_lowlevel.Prelude.{
  ◌∙◌, ℕ, zero, suc, ◌≤◌, ◌≡◌, ◌≢◌, List, [], ◌∷◌, Option, some, Bool, true, if◌then◌else◌,
  if_cases, arith, refl, Bool-cases, inl, inr,
}
use mathlib.Core.Path.{subst}
use dnbd3_fuse_lowlevel.Host.{Host, is_same_address_port}
use dnbd3_fuse_lowlevel.AltServers.{Ticks, AltServer, add, swap, server_failed, update_rtt}
use dnbd3_fuse_lowlevel.AltServers.Hosts.{passing, passing-swap, passing-all}
use dnbd3_fuse_lowlevel.AltServers.Valid.{copies, IsValid, Added, same_copies, add-Added}
use dnbd3_fuse_lowlevel.AltServers.Failures.{server_failed-hosts}
use dnbd3_fuse_lowlevel.AltServers.Rtt.{update_rtt-hosts}
use dnbd3_fuse_lowlevel.AltServers.ForUplink.{Setting, lower_fails, get_list_for_uplink}
use dnbd3_fuse_lowlevel.AltServers.ForUplink.Chosen.{retried, lower_first}
use dnbd3_fuse_lowlevel.AltServers.ForUplink.Listed.{Listed, get_list_for_uplink-Listed}

-- One call: a server is added, fails, answers, or the list is asked for servers to try.
pub data Step (ss : List AltServer) : List AltServer → Type 0 where
  added :
      (host : Host) (comment : Option (List ℕ)) (is_private is_client_only : Bool)
      (ss' : List AltServer)
      → host.type ≢ 0
      → add host comment is_private is_client_only ss ≡ some ss'
      → Step ss ss'
  failed : (now : Ticks) (host : Host) → Step ss (server_failed now host ss)
  answered : (host : Host) (rtt : ℕ) → Step ss (update_rtt host rtt ss).1
  asked :
      (c : Setting) (draws : List ℕ) (size : ℕ) (ss' : List AltServer) (output : List Host)
      → get_list_for_uplink c draws size ss ≡ some (ss', output)
      → Step ss ss'

pub data Reach (ss : List AltServer) : List AltServer → Type 0 where
  start : Reach ss ss
  next : (ss' ss'' : List AltServer) → Reach ss ss' → Step ss' ss'' → Reach ss ss''

-- The same hosts, as often.
abbrev SameHosts : List AltServer → List AltServer → Type 0
SameHosts ss ss' = (q : Host → Bool) → passing (λ s. q s.host) ss' ≡ passing (λ s. q s.host) ss

abbrev pub Keeps : List AltServer → List AltServer → Type 0
Keeps ss ss' = IsValid ss' × ((host : Host) → host.type ≢ 0 → copies host ss ≤ copies host ss')

SameHosts-Keeps : (ss ss' : List AltServer) → SameHosts ss ss' → IsValid ss → Keeps ss ss'
SameHosts-Keeps ss ss' same valid = (
  record {
    fits = omega (arith, valid.fits, same (λ h. true), passing-all ss, passing-all ss');
    distinct =
        λ host ok. omega (arith, valid.distinct host ok, same (λ h. is_same_address_port h host));
  },
  λ host ok. omega (arith, same (λ h. is_same_address_port h host)),
)

lower_first-SameHosts :
    (c : Setting) (m : ℕ) (ss : List AltServer) → SameHosts ss (lower_first c m ss)
unfolding lower_first passing
lower_first-SameHosts c m [] q = refl
lower_first-SameHosts c zero (s ∷ ss) q = refl
lower_first-SameHosts c (suc m) (s ∷ ss) q =
    if_cases (λ (r : List AltServer). passing (λ s. q s.host) r ≡ passing (λ s. q s.host) (s ∷ ss))
      (retried c s) ((if c.emergency then s else lower_fails s) ∷ lower_first c m ss) _
      (if_cases
        (λ (t : AltServer).
          passing (λ s. q s.host) (t ∷ lower_first c m ss) ≡ passing (λ s. q s.host) (s ∷ ss))
        c.emergency s (lower_fails s) (ground (arith, lower_first-SameHosts c m ss q))
        (ground (arith, lower_first-SameHosts c m ss q)))
      (ground (arith, lower_first-SameHosts c (suc m) ss q))

Added-Keeps :
    (host : Host) (p c : Bool) (ss ss' : List AltServer)
    → Added host p c ss (some ss')
    → Keeps ss ss'
Added-Keeps host p c ss ss' (new, one, others, entry, valid) = (
  valid,
  λ other ok. elim (Bool-cases (is_same_address_port host other)) [
    | inl t ↦ omega (arith, same_copies host other ss t)
    | inr f ↦ omega (arith, others other ok f)
  ],
)

asked-Keeps :
    (c : Setting) (draws : List ℕ) (size : ℕ) (ss ss' : List AltServer) (output : List Host)
    → Listed c draws size ss (some (ss', output))
    → SameHosts ss ss'
asked-Keeps c draws size ss ss' output (flipped, inl e, (chosen, taken)) q =
    rw (taken, e) (lower_first-SameHosts c _ ss q)
asked-Keeps c draws size ss ss' output (flipped, inr (i, low, high, e), (chosen, taken)) q =
    rw (taken, e) (lower_first-SameHosts c _ (swap 0 i ss) q ∙ passing-swap (λ s. q s.host) 0 i ss)

Step-Keeps : (ss ss' : List AltServer) → Step ss ss' → IsValid ss → Keeps ss ss'
Step-Keeps ss ss' (added host comment p c _ used e) valid =
    Added-Keeps host p c ss ss'
      (subst (Added host p c ss) e (add-Added host comment p c ss valid used))
Step-Keeps ss _ (failed now host) valid =
    SameHosts-Keeps ss _ (server_failed-hosts now host ss) valid
Step-Keeps ss _ (answered host rtt) valid =
    SameHosts-Keeps ss _ (update_rtt-hosts rtt host ss) valid
Step-Keeps ss ss' (asked c draws size _ output e) valid =
    SameHosts-Keeps ss ss'
      (asked-Keeps c draws size ss ss' output
        (subst (Listed c draws size ss) e (get_list_for_uplink-Listed c draws size ss)))
      valid

-- Over any calls that add servers with an address, count failures, enter round trip times and ask for
-- servers to try, a valid list stays valid, with at most as many entries as the array has and no host
-- twice, and every host in it stays.
pub Reach-IsValid :
    (ss ss' : List AltServer)
    → Reach ss ss'
    → IsValid ss
    → IsValid ss' × ((host : Host) → host.type ≢ 0 → copies host ss ≤ copies host ss')
Reach-IsValid ss _ start valid = (valid, λ host ok. omega arith)
Reach-IsValid ss ss'' (next ss' _ r step) valid =
    let (valid', more) = Reach-IsValid ss ss' r valid in
    let (valid'', more') = Step-Keeps ss' ss'' step valid' in
    (valid'', λ host ok. omega (arith, more host ok, more' host ok))
