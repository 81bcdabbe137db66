-- ===== src/AltServers/ForUplink/Chosen.antt =====
-- Which servers are chosen for an uplink: first those without failures, then those that failed but
-- may be tried again, each once.
use dnbd3_fuse_lowlevel.Prelude.{
  ℕ, zero, suc, ◌≡◌, List, [], ◌∷◌, Bool, true, false, not, ◌&&◌, ◌||◌, leb, ◌==◌, if◌then◌else◌,
  arith,
}
use dnbd3_fuse_lowlevel.Host.{Host}
use dnbd3_fuse_lowlevel.AltServers.{
  timing_diff, AltServer, bad_uplink_thres, bad_uplink_ignore, is_empty,
}
use dnbd3_fuse_lowlevel.AltServers.ForUplink.{Setting, skipped, lowered, kept, judge, lower_fails}

-- The servers that may be uplinks, those without failures, and those that may be tried again.
abbrev pub usable : Setting → AltServer → Bool
usable c s = not (is_empty s) && ((not c.private_only || s.is_private) && not s.is_client_only)

abbrev pub healthy : Setting → AltServer → Bool
healthy c s = usable c s && s.num_fails == 0

abbrev pub retried : Setting → AltServer → Bool
retried c s =
    usable c s
    && (not (s.num_fails == 0)
        && (c.emergency
            || (leb s.num_fails bad_uplink_thres
                || leb bad_uplink_ignore (timing_diff s.last_fail c.now))))

unfoldable pub hosts_of : (AltServer → Bool) → List AltServer → List Host
hosts_of p [] = []
hosts_of p (s ∷ ss) = let rest = hosts_of p ss in if p s then s.host ∷ rest else rest

-- The first `m` of the servers tried again have one failure less, save in an emergency.
unfoldable pub lower_first : Setting → ℕ → List AltServer → List AltServer
lower_first c m [] = []
lower_first c zero (s ∷ ss) = s ∷ ss
lower_first c (suc m) (s ∷ ss) =
    if retried c s
    then (if c.emergency then s else lower_fails s) ∷ lower_first c m ss
    else s ∷ lower_first c (suc m) ss

pub judge_first :
    (c : Setting) (s : AltServer) → judge c true s ≡ (if healthy c s then kept else skipped)
unfolding judge
judge_first c s = ground arith

pub judge_second :
    (c : Setting) (s : AltServer)
    → judge c false s ≡ (if retried c s then (if c.emergency then kept else lowered) else skipped)
unfolding judge
judge_second c s = ground arith
