-- ===== src/AltServers.antt =====
-- src/server/altservers.c: the list of alternative servers, with their round trip times and
-- failures. The list is the array `altServers` up to `numAltServers`; the entries behind it are zero.
pub mod Hosts
pub mod Valid
pub mod Failures
pub mod Rtt
pub mod ForClient
pub mod ForUplink
pub mod Reach
pub mod Pending
pub mod Measure
mod Tests
use dnbd3_fuse_lowlevel.Prelude.{
  ℕ, zero, suc, ◌+◌, ◌-◌, ◌*◌, ◌/◌, ◌%◌, List, [], ◌∷◌, ◌++◌, Option, none, some, Bool, true, false,
  not, ◌&&◌, ◌||◌, ltb, leb, ◌==◌, if◌then◌else◌, set, get_elem?, get_or, take, length, replicate,
}
use Prim.Native.Nat.{bit_and}
use dnbd3_fuse_lowlevel.Prelude.Words.{add32, cast32}
use dnbd3_fuse_lowlevel.Host.{Host, host_ip4, is_same_address_port}

-- `ticks`, since the start of the server
pub record Ticks : Type 0 where
  pub sec : ℕ
  pub nsec : ℕ

-- `timing_diff`
pub timing_diff : Ticks → Ticks → ℕ
timing_diff start end =
    if leb end.sec start.sec
    then 0
    else cast32 (if ltb end.nsec start.nsec then end.sec - start.sec - 1 else end.sec - start.sec)

-- `dnbd3_alt_server_t`
pub record AltServer : Type 0 where
  pub comment : List ℕ
  pub host : Host
  pub rtt : List ℕ
  pub rtt_index : ℕ
  pub is_private : Bool
  pub is_client_only : Bool
  pub last_fail : Ticks
  pub num_fails : ℕ

-- `SERVER_MAX_ALTS`, `COMMENT_LENGTH`, `SERVER_RTT_PROBES`, `SERVER_UPLINK_FAIL_INCREASE`,
-- `SERVER_RTT_INTERVAL_INIT`, `SERVER_BAD_UPLINK_THRES` and `SERVER_BAD_UPLINK_IGNORE`
abbrev pub max_alts : ℕ
max_alts = 100

abbrev pub comment_length : ℕ
comment_length = 120

abbrev pub rtt_probes : ℕ
rtt_probes = 5

abbrev pub uplink_fail_increase : ℕ
uplink_fail_increase = 5

abbrev pub rtt_interval_init : ℕ
rtt_interval_init = 5

abbrev pub bad_uplink_thres : ℕ
bad_uplink_thres = 40

abbrev pub bad_uplink_ignore : ℕ
bad_uplink_ignore = 180

-- `host.type == 0`
abbrev pub is_empty : AltServer → Bool
is_empty s = s.host.type == 0

abbrev pub is_unset : Option ℕ → Bool
is_unset none = true
is_unset (some i) = false

-- The loop of `altservers_add` from entry `i` on: `none` if the host is known, else `freeSlot`.
pub find_slot : Host → List AltServer → ℕ → Option ℕ → Option (Option ℕ)
find_slot host [] i free = some free
find_slot host (s ∷ ss) i free =
    let next : Option ℕ = if is_unset free && is_empty s then some i else free in
    let rest = find_slot host ss (i + 1) next in
    if is_same_address_port s.host host then none else rest

-- An entry of the array that was never used.
abbrev pub blank : AltServer
blank = record {
  comment = [];
  host = record { addr = replicate 16 0; port = 0; type = 0 };
  rtt = replicate rtt_probes 0;
  rtt_index = 0;
  is_private = false;
  is_client_only = false;
  last_fail = record { sec = 0; nsec = 0 };
  num_fails = 0;
}

-- What `altservers_add` writes into an entry.
pub fill_entry : Host → Option (List ℕ) → Bool → Bool → AltServer → AltServer
fill_entry host comment is_private is_client_only s =
    let s' = record s { host = host; is_private = is_private; is_client_only = is_client_only } in
    elim comment [ none ↦ s' | some text ↦ record s' { comment = take (comment_length - 1) text } ]

-- `altservers_add`; `none` is the result false.
pub add : Host → Option (List ℕ) → Bool → Bool → List AltServer → Option (List AltServer)
add host comment is_private is_client_only servers = elim (find_slot host servers 0 none) [
  | none ↦ none
  | some (some i) ↦ elim (get_elem? servers i) [
    | none ↦ none
    | some s ↦ some (set servers i (fill_entry host comment is_private is_client_only s))
  ]
  | some none ↦
      if leb max_alts (length servers)
      then none
      else some (servers ++ (fill_entry host comment is_private is_client_only blank ∷ []))
]

-- `tmp = a[i]; a[i] = a[j]; a[j] = tmp`
pub swap : ℕ → ℕ → List AltServer → List AltServer
swap i j servers = elim (get_elem? servers i) [
  | none ↦ servers
  | some s ↦ elim (get_elem? servers j) [ none ↦ servers | some t ↦ set (set servers i t) j s ]
]

-- The loop of `altservers_serverFailed` from entry `i` on: `foundIndex` and `lastOk`.
pub find_failed : Host → List AltServer → ℕ → Option ℕ → Option ℕ → Option ℕ × Option ℕ
find_failed host [] i found last_ok = (found, last_ok)
find_failed host (s ∷ ss) i found last_ok = elim found [
  | none ↦
      let next : Option ℕ = if is_same_address_port host s.host then some i else none in
      find_failed host ss (i + 1) next last_ok
  | some f ↦
      let next : Option ℕ = if not (is_empty s) && s.num_fails == 0 then some i else last_ok in
      find_failed host ss (i + 1) (some f) next
]

-- The failure of the entry `f`.
pub count_failure : Ticks → ℕ → Option ℕ → List AltServer → List AltServer
count_failure now f last_ok servers = elim (get_elem? servers f) [
  | none ↦ servers
  | some s ↦
      if ltb rtt_interval_init (timing_diff s.last_fail now)
      then (let failed =
            set servers f
              (record s { num_fails = s.num_fails + uplink_fail_increase; last_fail = now }) in
          elim last_ok [ none ↦ failed | some l ↦ swap f l failed ])
      else servers
]

-- `altservers_serverFailed`
pub server_failed : Ticks → Host → List AltServer → List AltServer
server_failed now host servers =
    let (found, last_ok) = find_failed host servers 0 none none in
    elim found [ none ↦ servers | some f ↦ count_failure now f last_ok servers ]

-- The entry of a server that answered, and the average of its history.
pub new_rtt : ℕ → AltServer → AltServer
new_rtt rtt s = record s {
  rtt = set s.rtt (add32 s.rtt_index 1 % rtt_probes) rtt;
  rtt_index = add32 s.rtt_index 1;
  num_fails = if ltb 0 s.num_fails then s.num_fails - 1 else s.num_fails;
}

pub average : List ℕ → ℕ
average rtt =
    cast32 (get_or rtt 0 0 + get_or rtt 1 0 + get_or rtt 2 0 + get_or rtt 3 0 + get_or rtt 4 0)
    / rtt_probes

-- `altservers_updateRtt`: the average, and the list.
pub update_rtt : Host → ℕ → List AltServer → ℕ × List AltServer
update_rtt host rtt [] = (rtt, [])
update_rtt host rtt (s ∷ ss) =
    let (avg, rest) = update_rtt host rtt ss in
    if is_same_address_port host s.host
    then (average (new_rtt rtt s).rtt, new_rtt rtt s ∷ ss)
    else (avg, s ∷ rest)

-- `altservers_netCloseness`: the groups of four bits that agree in the first `max` bytes, and
-- `none` for -1.
pub closeness : ℕ → List ℕ → List ℕ → ℕ → ℕ
closeness zero xs ys n = n
closeness (suc max) [] ys n = n
closeness (suc max) (x ∷ xs) [] n = n
closeness (suc max) (x ∷ xs) (y ∷ ys) n =
    let rest = closeness max xs ys (n + 2) in
    if not (bit_and x 0xf0 == bit_and y 0xf0)
    then n
    else if not (bit_and x 0x0f == bit_and y 0x0f)
    then n + 1
    else rest

pub net_closeness : Host → Host → Option ℕ
net_closeness a b =
    if not (a.type == b.type)
    then none
    else some (closeness (if a.type == host_ip4 then 4 else 16) a.addr b.addr 0)
