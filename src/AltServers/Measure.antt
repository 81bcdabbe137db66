-- ===== src/AltServers/Measure.antt =====
-- src/server/altservers.c: what `altservers_main` does for one uplink: it measures some servers and
-- chooses the best. What the calls on a socket give is an argument.
pub mod Sockets
pub mod Best
use dnbd3_fuse_lowlevel.Prelude.{
  ℕ, suc, ◌+◌, ◌*◌, ◌/◌, List, [], ◌∷◌, ◌++◌, Option, none, some, Bool, true, false, not, ◌&&◌,
  ◌||◌, ltb, ◌==◌, if◌then◌else◌, length,
}
use dnbd3_fuse_lowlevel.Prelude.Words.{cast32}
use dnbd3_fuse_lowlevel.Host.{Host, same_bytes, is_same_address_port}
use dnbd3_fuse_lowlevel.Image.{block_size}
use dnbd3_fuse_lowlevel.AltServers.{Ticks, AltServer, server_failed, update_rtt}
use dnbd3_fuse_lowlevel.AltServers.Pending.{RttResult, do_change, not_reachable, dont_change}

-- `RTT_UNREACHABLE`, `MIN_SUPPORTED_SERVER` and `CMD_GET_BLOCK`
abbrev pub rtt_unreachable : ℕ
rtt_unreachable = 0x7FFFFFF

abbrev pub min_supported_server : ℕ
min_supported_server = 2

abbrev pub cmd_get_block : ℕ
cmd_get_block = 1

-- `RTT_THRESHOLD_FACTOR`
abbrev pub rtt_threshold_factor : ℕ → ℕ
rtt_threshold_factor us = us * 2 / 3

-- What a server says of an image.
pub record Offer : Type 0 where
  pub version : ℕ
  pub name : Option (List ℕ)
  pub rid : ℕ
  pub size : ℕ

-- What the calls on the connection to a server give, from `sock_connect` on; `none` for a failure.
pub record Probe : Type 0 where
  pub sock : Option ℕ
  pub select_ok : Bool
  pub offer : Option Offer
  pub get_ok : Bool
  pub reply : Option (ℕ × ℕ)
  pub received : ℕ
  pub elapsed : ℕ
  pub now : Ticks

-- The parts of an uplink that are read, and its image.
pub record Target : Type 0 where
  pub fd : Option ℕ
  pub current_server : Host
  pub cycle_detected : Bool
  pub name : List ℕ
  pub rid : ℕ
  pub virtual_filesize : ℕ

-- What comes of one server: no socket, a socket with a failure or without the image, or a time.
pub data Verdict : Type 0 where
  no_socket : Verdict
  failure : ℕ → Verdict
  unavailable : ℕ → Verdict
  timed : ℕ → ℕ → Verdict

abbrev pub is_unset : Option ℕ → Bool
is_unset none = true
is_unset (some fd) = false

pub check_reply : Probe → ℕ → ℕ → Verdict
check_reply p sock version = elim p.reply [
  | none ↦ failure sock
  | some reply ↦
      if not (reply.0 == cmd_get_block) || not (reply.1 == block_size)
      then failure sock
      else if not (p.received == block_size)
      then failure sock
      else timed sock version
]

pub check_offer : Target → Probe → ℕ → Offer → Verdict
unfolding check_reply
check_offer t p sock offer =
    if ltb offer.version min_supported_server then failure sock else (elim offer.name [
      | none ↦ failure sock
      | some name ↦
          if not (same_bytes name t.name)
          then failure sock
          else if not (offer.rid == t.rid)
          then failure sock
          else if not (offer.size == t.virtual_filesize)
          then failure sock
          else if not p.get_ok
          then failure sock
          else check_reply p sock offer.version
    ])

pub check_server : Target → Probe → Verdict
unfolding check_offer
check_server t p = elim p.sock [
  | none ↦ no_socket
  | some sock ↦
      if not p.select_ok
      then failure sock
      else (elim p.offer [ none ↦ unavailable sock | some offer ↦ check_offer t p sock offer ])
]

-- A server with its average time.
pub record Candidate : Type 0 where
  pub sock : ℕ
  pub host : Host
  pub version : ℕ
  pub avg : ℕ

-- The round trip time, and the average that counts for the choice.
pub rtt_of : Target → Host → ℕ → ℕ
rtt_of t host elapsed = cast32 (
    elapsed
    + (if is_same_address_port host t.current_server && t.cycle_detected then 1000000 else 0))

pub penalise : Target → Host → ℕ → ℕ
penalise t host avg =
    if (t.cycle_detected || is_unset t.fd) && is_same_address_port host t.current_server
    then cast32 (avg * 2 + 50000)
    else avg

-- The list of servers, the best one so far, the time of the current one, and what was closed.
pub record Round : Type 0 where
  pub servers : List AltServer
  pub best : Option Candidate
  pub current_rtt : ℕ
  pub closed : List ℕ

abbrev pub best_rtt : Option Candidate → ℕ
best_rtt none = rtt_unreachable
best_rtt (some c) = c.avg

abbrev pub best_sock : Option Candidate → List ℕ
best_sock none = []
best_sock (some c) = c.sock ∷ []

-- A server that answered.
pub weigh : Target → Candidate → Round → Round
weigh t c r =
    if not (is_unset t.fd) && is_same_address_port c.host t.current_server
    then record r { current_rtt = c.avg; closed = c.sock ∷ r.closed }
    else if ltb c.avg (best_rtt r.best)
    then record r { best = some c; closed = best_sock r.best ++ r.closed }
    else record r { closed = c.sock ∷ r.closed }

-- What follows from a verdict on a server.
pub settle : Target → Host → Probe → Round → Verdict → Round
unfolding rtt_of penalise weigh
settle t host p r no_socket = r
settle t host p r (failure sock) = record r {
  servers = server_failed p.now host r.servers;
  closed = sock ∷ r.closed;
}
settle t host p r (unavailable sock) = record r { closed = sock ∷ r.closed }
settle t host p r (timed sock version) =
    let (avg, servers) = update_rtt host (rtt_of t host p.elapsed) r.servers in
    let c : Candidate = record {
      sock = sock;
      host = host;
      version = version;
      avg = penalise t host avg;
    } in
    weigh t c (record r { servers = servers })

pub measure_one : Target → Host → Probe → Round → Round
unfolding check_server settle
measure_one t host p r = settle t host p r (check_server t p)

pub measure_all : Target → List (Host × Probe) → Round → Round
unfolding measure_one
measure_all t [] r = r
measure_all t ((host, p) ∷ ps) r = measure_all t ps (measure_one t host p r)

-- What is written into the uplink, and whether the image is made to work again.
pub record Decision : Type 0 where
  pub result : RttResult
  pub better : Option Candidate
  pub closed : List ℕ
  pub enabled : Bool

abbrev pub may_switch : Target → ℕ → ℕ → Bool
may_switch t best current =
    is_unset t.fd || (ltb best 10000000 && ltb best (rtt_threshold_factor current))

pub decide : Target → Round → Decision
decide t r = elim r.best [
  | none ↦
      if r.current_rtt == rtt_unreachable
      then record { result = not_reachable; better = none; closed = r.closed; enabled = false }
      else record { result = dont_change; better = none; closed = r.closed; enabled = true }
  | some c ↦
      if may_switch t c.avg r.current_rtt
      then record { result = do_change; better = some c; closed = r.closed; enabled = false }
      else record {
        result = dont_change;
        better = none;
        closed = c.sock ∷ r.closed;
        enabled = true;
      }
]

-- The current server is measured too, if it is not among the servers.
pub is_among : Host → List Host → Bool
is_among host [] = false
is_among host (s ∷ ss) =
    let rest = is_among host ss in if is_same_address_port host s then true else rest

pub with_current : Target → List Host → List Host
unfolding is_among
with_current t hosts =
    if is_unset t.fd
    then hosts
    else if is_among t.current_server hosts
    then hosts
    else hosts ++ (t.current_server ∷ [])

-- All of it, for the servers with what their connections give: the list of servers and the decision.
unfoldable pub measure : Target → List AltServer → List (Host × Probe) → List AltServer × Decision
unfolding measure_all decide
measure t servers probes =
    let r =
      measure_all t probes
        (record { servers = servers; best = none; current_rtt = rtt_unreachable; closed = [] }) in
    (r.servers, decide t r)
