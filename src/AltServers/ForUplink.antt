-- ===== src/AltServers/ForUplink.antt =====
-- src/server/altservers.c: `altservers_getListForUplink`, the servers to try for an uplink.
pub mod Chosen
pub mod Passes
pub mod Listed
use dnbd3_fuse_lowlevel.Prelude.{
  ℕ, zero, suc, ◌+◌, ◌-◌, ◌*◌, ◌%◌, List, [], ◌∷◌, ◌++◌, Option, none, some, Bool, true, false, not,
  ◌&&◌, ltb, leb, ◌==◌, if◌then◌else◌, set, get_elem?, length,
}
use dnbd3_fuse_lowlevel.Host.{Host}
use dnbd3_fuse_lowlevel.AltServers.{
  Ticks, timing_diff, AltServer, bad_uplink_thres, bad_uplink_ignore, is_empty, swap,
}

-- `do { i = rand() % n; } while ( i == 0 )`, where `draws` are the results of `rand`.
pub pick_other : ℕ → List ℕ → Option ℕ
pick_other n [] = none
pick_other n (d ∷ ds) = let rest = pick_other n ds in if d % n == 0 then rest else some (d % n)

-- What the code goes by: `_proxyPrivateOnly`, `emergency` and the time.
pub record Setting : Type 0 where
  pub private_only : Bool
  pub emergency : Bool
  pub now : Ticks

-- What a round makes of a server: it is passed over, or included, with one failure less or as it is.
pub data Verdict : Type 0 where
  skipped : Verdict
  lowered : Verdict
  kept : Verdict

pub judge : Setting → Bool → AltServer → Verdict
judge c first s =
    if is_empty s
    then skipped
    else if c.private_only && not s.is_private
    then skipped
    else if s.is_client_only
    then skipped
    else if first
    then (if ltb 0 s.num_fails then skipped else kept)
    else if s.num_fails == 0
    then skipped
    else if not c.emergency
        && (ltb bad_uplink_thres s.num_fails
            && ltb (timing_diff s.last_fail c.now) bad_uplink_ignore)
    then skipped
    else if not c.emergency
    then lowered
    else kept

abbrev pub lower_fails : AltServer → AltServer
lower_fails s = record s { num_fails = s.num_fails - 1 }

-- A round with the server at `i % n`: the list, the output, and whether it is full.
pub visit :
    ℕ → ℕ → List AltServer → List Host → AltServer → Verdict → List AltServer × List Host × Bool
visit size at servers output s skipped = (servers, output, false)
visit size at servers output s kept =
    (servers, output ++ (s.host ∷ []), leb size (length output + 1))
visit size at servers output s lowered =
    (set servers at (lower_fails s), output ++ (s.host ∷ []), leb size (length output + 1))

-- The loop from round `i` on, for `k` more rounds: the list, and what was written to the output.
pub ask_all : Setting → ℕ → ℕ → ℕ → ℕ → List AltServer → List Host → List AltServer × List Host
unfolding judge visit
ask_all c n size zero i servers output = (servers, output)
ask_all c n size (suc k) i servers output = elim (get_elem? servers (i % n)) [
  | none ↦ (servers, output)
  | some s ↦
      let (servers', output', full) = visit size (i % n) servers output s (judge c (ltb i n) s) in
      let rest = ask_all c n size k (i + 1) servers' output' in
      if full then (servers', output') else rest
]

-- The loop over the list, twice.
pub ask_twice : Setting → ℕ → List AltServer → List AltServer × List Host
unfolding ask_all
ask_twice c size servers =
    let n = length servers in ask_all c n (if ltb n size then n else size) (n * 2) 0 servers []

-- `altservers_getListForUplink`: the list and the output; `none` if `draws` has no usable number.
unfoldable pub get_list_for_uplink :
    Setting → List ℕ → ℕ → List AltServer → Option (List AltServer × List Host)
unfolding pick_other ask_twice
get_list_for_uplink c draws size servers =
    if size == 0
    then some (servers, [])
    else if ltb 1 (length servers)
    then (elim (pick_other (length servers) draws) [
      | none ↦ none
      | some i ↦ some (ask_twice c size (swap 0 i servers))
    ])
    else some (ask_twice c size servers)
