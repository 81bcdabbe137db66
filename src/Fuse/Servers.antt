-- ===== src/Fuse/Servers.antt =====
-- src/fuse/connection.c: the servers that the fuse client knows, in the array `altservers`: adding
-- those that it was told of, sorting, the times of probes, and whether to change the server.
pub mod Add
pub mod Told
pub mod Sort
pub mod Probe
pub mod Decide
mod Tests
use dnbd3_fuse_lowlevel.Prelude.{
  ℕ, zero, suc, ◌+◌, ◌-◌, ◌*◌, ◌/◌, ◌%◌, List, [], ◌∷◌, Option, none, some, Bool, true, false, not,
  ◌&&◌, ◌||◌, ltb, leb, ◌==◌, if◌then◌else◌, get_elem?, set, length, take, replicate,
}
use dnbd3_fuse_lowlevel.Host.{Host, is_same_address}

-- `alt_server_t`
pub record Server : Type 0 where
  pub host : Host
  pub consecutive_fails : ℕ
  pub rtt : ℕ
  pub rtts : List ℕ
  pub rtt_index : ℕ
  pub best_count : ℕ
  pub live_rtt : ℕ

-- `MAX_ALTS`, `MAX_ALTS_ACTIVE`, `FAIL_BACKOFF_START_COUNT`, `RTT_COUNT`, `RTT_UNREACHABLE` and
-- `RTT_ABSOLUTE_THRESHOLD`
abbrev pub max_alts : ℕ
max_alts = 16

abbrev pub max_alts_active : ℕ
max_alts_active = 5

abbrev pub fail_backoff_start_count : ℕ
fail_backoff_start_count = 8

abbrev pub rtt_count : ℕ
rtt_count = 4

abbrev pub rtt_unreachable : ℕ
rtt_unreachable = 0x7ffffff

abbrev pub rtt_absolute_threshold : ℕ
rtt_absolute_threshold = 80000

abbrev pub is_unused : Server → Bool
is_unused s = s.host.type == 0

-- An entry is given another host.
pub reset : Host → ℕ → Server → Server
reset host fails s = record s {
  host = host;
  consecutive_fails = fails;
  best_count = 0;
  rtts = set s.rtts 0 rtt_unreachable;
  rtt_index = 1;
  live_rtt = 0;
}

pub is_known : Host → List Server → Bool
is_known h [] = false
is_known h (s ∷ ss) = is_same_address h s.host || is_known h ss

-- The test for an entry that may be replaced.
pub replaces : List Server → Server → Option ℕ → Bool
replaces all s none = false
replaces all s (some slot) = elim (get_elem? all slot) [
  | none ↦ false
  | some r ↦
      ltb fail_backoff_start_count s.consecutive_fails
      && ltb r.consecutive_fails s.consecutive_fails
]

-- The search for a slot in `addAltServers`, from entry `i` on.
pub free_slot : List Server → List Server → ℕ → Option ℕ → Option ℕ
unfolding replaces
free_slot all [] i slot = slot
free_slot all (s ∷ ss) i slot =
    let rest = free_slot all ss (i + 1) (if replaces all s slot then some i else slot) in
    if is_unused s then some i else rest

pub add_server : Host → List Server → List Server
unfolding reset is_known free_slot
add_server h ss = if h.type == 0 || is_known h ss then ss else (elim (free_slot ss ss 0 none) [
  | none ↦ ss
  | some k ↦ elim (get_elem? ss k) [ none ↦ ss | some s ↦ set ss k (reset h 0 s) ]
])

pub add_all : List Host → List Server → List Server
unfolding add_server
add_all [] ss = ss
add_all (h ∷ hs) ss = add_all hs (add_server h ss)

abbrev pub no_host : Host
no_host = record { addr = replicate 16 0; port = 0; type = 0 }

-- `addAltServers`, on `newservers` and `altservers`.
pub add_alt_servers : List Host → List Server → List Host × List Server
unfolding add_all
add_alt_servers news ss = (replicate (length news) no_host, add_all news ss)

-- The inner loop of `sortAltServers`, with `n` active entries left.
pub skip_usable : ℕ → ℕ → List Server → ℕ
skip_usable zero ac ss = ac
skip_usable (suc n) ac ss =
    let rest = skip_usable n (ac + 1) ss in
    elim (get_elem? ss ac) [
      | none ↦ ac
      | some s ↦
          if is_unused s || ltb fail_backoff_start_count s.consecutive_fails then ac else rest
    ]

-- The hosts of two entries are exchanged.
pub switch : ℕ → ℕ → Server → Server → List Server → List Server
unfolding reset
switch ia ac inactive active ss =
    set (set ss ia (reset active.host (fail_backoff_start_count * 4) inactive)) ac
      (reset inactive.host 0 active)

-- The loop of `sortAltServers`, with `n` entries left.
pub sort_from : ℕ → ℕ → ℕ → List Server → List Server
unfolding skip_usable switch
sort_from zero ia ac ss = ss
sort_from (suc n) ia ac ss = elim (get_elem? ss ia) [
  | none ↦ ss
  | some inactive ↦
      let ac' = skip_usable (max_alts_active - ac) ac ss in
      let skipped = sort_from n (ia + 1) ac ss in
      if is_unused inactive || ltb 0 inactive.consecutive_fails
      then skipped
      else if ac' == max_alts_active
      then ss
      else (elim (get_elem? ss ac') [
        | none ↦ ss
        | some active ↦ sort_from n (ia + 1) ac' (switch ia ac' inactive active ss)
      ])
]

-- `sortAltServers`
pub sort_alt_servers : List Server → List Server
unfolding sort_from
sort_alt_servers ss = sort_from (max_alts - max_alts_active) max_alts_active 0 ss

-- How a probe ends: with a failure, which counts `extra` times more, or with the time in
-- microseconds.
pub data ProbeResult : Type 0 where
  failed : ℕ → ProbeResult
  measured : ℕ → ProbeResult

pub advance : ℕ → ℕ
advance i = if leb rtt_count i then 0 else i + 1

-- Writing the array `rtts`; `none` outside of it.
pub store_rtt : ℕ → ℕ → List ℕ → Option (List ℕ)
store_rtt i v rtts = if ltb i (length rtts) then some (set rtts i v) else none

pub sum : List ℕ → ℕ
sum [] = 0
sum (x ∷ xs) = x + sum xs

-- What `probeAltServers` does to the entry of a server while the client has a connection.
pub probe_server : ProbeResult → Server → Option Server
unfolding advance store_rtt sum
probe_server (failed extra) s =
    let i = advance s.rtt_index in
    elim (store_rtt i rtt_unreachable s.rtts) [
      | none ↦ none
      | some rtts ↦ some (record s {
        rtt_index = i;
        rtts = rtts;
        consecutive_fails = s.consecutive_fails + extra + 1;
      })
    ]
probe_server (measured time) s =
    let i = advance s.rtt_index in
    elim (store_rtt i time s.rtts) [
      | none ↦ none
      | some rtts ↦ some (record s {
        rtt_index = i;
        rtts = rtts;
        consecutive_fails = 0;
        rtt =
            if not (s.live_rtt == 0)
            then (sum (take rtt_count rtts) + s.live_rtt) / (rtt_count + 1)
            else sum (take rtt_count rtts) / rtt_count;
      })
    ]

pub probe_all : List ProbeResult → Server → Option Server
unfolding probe_server
probe_all [] s = some s
probe_all (o ∷ os) s = elim (probe_server o s) [ none ↦ none | some s' ↦ probe_all os s' ]

-- The slow decay of `liveRtt`.
pub decay : Server → Server → Server
decay current s =
    if ltb current.live_rtt s.live_rtt && ltb s.rtt s.live_rtt
    then record s { live_rtt = s.live_rtt - (s.live_rtt / 100 + 1) }
    else s

pub count_best : Bool → Server → Server
count_best is_best s =
    if is_best
    then record s { best_count = if ltb s.best_count 50 then s.best_count + 2 else s.best_count }
    else if ltb 0 s.best_count
    then record s { best_count = s.best_count - 1 }
    else s

-- The test for the best server, which comes first in more and more measurements.
pub is_better : ℕ → Server → Server → Bool
is_better random current s =
    ltb 12 s.best_count && (ltb s.rtt current.rtt && ltb (random % 50) s.best_count)

-- The loop over the active servers, with `n` of them left, in the array with the best server at `b`
-- and the current one at `c`; `none` if a null pointer is read.
pub weigh_active : ℕ → ℕ → ℕ → ℕ → Option ℕ → Bool → List Server → Option (List Server × Bool)
unfolding decay count_best is_better
weigh_active zero i random b c do_switch ss = some (ss, do_switch)
weigh_active (suc n) i random b none do_switch ss = none
weigh_active (suc n) i random b (some c) do_switch ss = elim (get_elem? ss c) [
  | none ↦ none
  | some current ↦ elim (get_elem? ss i) [
    | none ↦ none
    | some s ↦
        let s' = count_best (i == b) (decay current s) in
        weigh_active n (i + 1) random b (some c)
          (if i == b && is_better random current s' then true else do_switch) (set ss i s')
  ]
]

-- The failures of the inactive servers are forgotten, from entry `i` on.
pub forgive : ℕ → List Server → List Server
forgive i [] = []
forgive i (s ∷ ss) =
    (if leb max_alts_active i then record s { consecutive_fails = s.consecutive_fails - 1 } else s)
    ∷ forgive (i + 1) ss

-- `bestCount` of the others after the decision to change to the server at `b`.
pub clear_others : ℕ → ℕ → List Server → List Server
clear_others b i [] = []
clear_others b i (s ∷ ss) =
    (if i == b then s else record s { best_count = 0 }) ∷ clear_others b (i + 1) ss

-- Whether to change, after the loop.
pub confirm : Server → Server → Bool → Bool
confirm current best do_switch =
    if do_switch && not (ltb best.best_count (current.best_count + 8))
    then true
    else ltb (best.rtt + rtt_absolute_threshold) current.rtt
      || ltb (best.rtt + 1000) (current.rtt * 2 / 3)

-- The end of `probeAltServers`, where the server at `b` was the best, up to `switchConnection`.
pub decide_switch : ℕ → ℕ → Option ℕ → List Server → Option (List Server × Bool)
unfolding weigh_active forgive clear_others confirm
decide_switch random b none ss = elim (weigh_active max_alts_active 0 random b none false ss) [
  | none ↦ none
  | some r ↦ let ss' = forgive 0 r.0 in some (if r.1 then clear_others b 0 ss' else ss', r.1)
]
decide_switch random b (some c) ss =
    elim (weigh_active max_alts_active 0 random b (some c) false ss) [
      | none ↦ none
      | some r ↦
          let ss' = forgive 0 r.0 in
          elim (get_elem? ss' b) [
            | none ↦ none
            | some best ↦ elim (get_elem? ss' c) [
              | none ↦ none
              | some current ↦
                  let change = confirm current best r.1 in
                  some (if change then clear_others b 0 ss' else ss', change)
            ]
          ]
    ]
