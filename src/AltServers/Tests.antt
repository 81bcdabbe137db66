-- ===== src/AltServers/Tests.antt =====
-- Concrete lists of alternative servers.
use dnbd3_fuse_lowlevel.Prelude.{
  ℕ, zero, suc, ◌+◌, ◌≤◌, ◌≡◌, ◌≢◌, List, [], ◌∷◌, map, none, some, Bool, true, false, ◌&&◌,
  get_elem?, take, length, replicate, arith, refl,
}
use dnbd3_fuse_lowlevel.Prelude.Ints.{pos}
use dnbd3_fuse_lowlevel.Prelude.Counts.{count}
use dnbd3_fuse_lowlevel.Host.{Host, same_bytes, is_same_address_port}
use dnbd3_fuse_lowlevel.Slots.{fill}
use dnbd3_fuse_lowlevel.AltServers.{
  Ticks, AltServer, timing_diff, add, find_slot, fill_entry, swap, find_failed, count_failure,
  server_failed, new_rtt, average, update_rtt, closeness, net_closeness,
}
use dnbd3_fuse_lowlevel.AltServers.Hosts.{passing}
use dnbd3_fuse_lowlevel.AltServers.Valid.{copies, IsValid}
use dnbd3_fuse_lowlevel.AltServers.Failures.{Failed, server_failed-Failed}
use dnbd3_fuse_lowlevel.AltServers.Reach.{added, answered, start, next, Reach-IsValid}
use dnbd3_fuse_lowlevel.AltServers.ForClient.{ServerEntry, to_entry, get_list_for_client}
use dnbd3_fuse_lowlevel.AltServers.ForClient.Ranked.{public, Descending}
use dnbd3_fuse_lowlevel.AltServers.ForClient.Listed.{ranking, get_list_for_client-rank}
use dnbd3_fuse_lowlevel.AltServers.ForUplink.{Setting, get_list_for_uplink}
use dnbd3_fuse_lowlevel.AltServers.ForUplink.Listed.{Listed, get_list_for_uplink-Listed}
use dnbd3_fuse_lowlevel.Prelude.Maps.{update}
use dnbd3_fuse_lowlevel.AltServers.Pending
use dnbd3_fuse_lowlevel.AltServers.Pending.{
  RttResult, idle, in_progress, do_change, Worker, waiting, measuring, Checks, find_uplink,
  remove_uplink, take_pending, finish, clear_pending, IsInitial,
}
use dnbd3_fuse_lowlevel.AltServers.Pending.Safe.{Reach-take_pending}
use dnbd3_fuse_lowlevel.AltServers.Measure.{Probe, Target, Candidate, best_sock, measure}
use dnbd3_fuse_lowlevel.AltServers.Measure.Sockets.{opened, measure-opened}
use dnbd3_fuse_lowlevel.AltServers.Measure.Best.{answers, Decided, measure-Decided}

abbrev at_host : ℕ → Host
at_host n = record { addr = 10 ∷ 0 ∷ 0 ∷ n ∷ []; port = 5003; type = 2 }

abbrev at_start : Ticks
at_start = record { sec = 0; nsec = 0 }

abbrev server : ℕ → ℕ → AltServer
server n fails = record {
  comment = [];
  host = at_host n;
  rtt = replicate 5 0;
  rtt_index = 0;
  is_private = false;
  is_client_only = false;
  last_fail = at_start;
  num_fails = fails;
}

abbrev servers : List AltServer
servers = server 1 0 ∷ server 2 0 ∷ server 3 7 ∷ []

-- The failed server goes behind the last one that works.
fails_last :
    map (λ s. s.num_fails) (server_failed (record { sec = 9; nsec = 0 }) (at_host 1) servers)
    ≡ 0 ∷ 5 ∷ 7 ∷ []
unfolding server_failed find_failed is_same_address_port count_failure timing_diff swap
fails_last = refl

server_failed-Failed_example :
    Failed
      (record { sec = 9; nsec = 0 })
      (at_host 1)
      servers
      (server_failed (record { sec = 9; nsec = 0 }) (at_host 1) servers)
server_failed-Failed_example =
    server_failed-Failed (record { sec = 9; nsec = 0 }) (at_host 1) servers

-- The list for a client.
abbrev no_entries : List ServerEntry
no_entries = replicate 3 (record { host = at_host 0; failures = 0 })

told :
    (get_list_for_client (at_host 2) servers no_entries (replicate 3 (pos 0)) 2).0
    ≡ to_entry (server 2 0) ∷ to_entry (server 1 0) ∷ record { host = at_host 0; failures = 0 } ∷ []
unfolding get_list_for_client net_closeness closeness
told = refl

get_list_for_client-rank_example :
    let (output', count) =
      get_list_for_client (at_host 2) servers no_entries (replicate 3 (pos 0)) 2 in
    let best = take 2 (ranking (at_host 2) servers) in
    (count ≡ length best)
    × (take count output' ≡ map to_entry best)
    × Descending (at_host 2) (ranking (at_host 2) servers)
    × ((p : AltServer → Bool)
        → passing p (ranking (at_host 2) servers) ≡ passing (λ s. public s && p s) servers)
get_list_for_client-rank_example =
    get_list_for_client-rank (at_host 2) servers no_entries (replicate 3 (pos 0)) 2
      (λ e. absurd (omega arith)) (omega arith) (omega arith)

-- The list for an uplink.
abbrev setting : Setting
setting = record { private_only = false; emergency = false; now = record { sec = 200; nsec = 0 } }

asks :
    get_list_for_uplink setting (3 ∷ 5 ∷ []) 4 servers
    ≡ some (server 3 6 ∷ server 2 0 ∷ server 1 0 ∷ [], at_host 2 ∷ at_host 1 ∷ at_host 3 ∷ [])
unfolding get_list_for_uplink swap timing_diff
asks = refl

get_list_for_uplink-Listed_example :
    Listed setting (3 ∷ 5 ∷ []) 4 servers (get_list_for_uplink setting (3 ∷ 5 ∷ []) 4 servers)
get_list_for_uplink-Listed_example = get_list_for_uplink-Listed setting (3 ∷ 5 ∷ []) 4 servers

-- A run of calls.
empty_list : IsValid []
unfolding passing
empty_list = record { fits = omega arith; distinct = λ host ok. omega arith }

abbrev one_server : List AltServer
one_server =
    record {
      comment = 120 ∷ [];
      host = at_host 1;
      rtt = replicate 5 0;
      rtt_index = 0;
      is_private = true;
      is_client_only = false;
      last_fail = at_start;
      num_fails = 0;
    }
    ∷ []

adds : add (at_host 1) (some (120 ∷ [])) true false [] ≡ some one_server
unfolding add find_slot fill_entry
adds = refl

not_twice : add (at_host 1) none true false one_server ≡ none
unfolding add find_slot is_same_address_port
not_twice = refl

averages : (update_rtt (at_host 1) 50 one_server).0 ≡ 10
unfolding update_rtt is_same_address_port new_rtt average
averages = refl

Reach-IsValid_example :
    IsValid (update_rtt (at_host 1) 50 one_server).1
    × ((host : Host)
        → host.type ≢ 0
        → copies host [] ≤ copies host (update_rtt (at_host 1) 50 one_server).1)
Reach-IsValid_example =
    Reach-IsValid [] (update_rtt (at_host 1) 50 one_server).1
      (next one_server _
        (next [] one_server start (
          added (at_host 1) (some (120 ∷ [])) true false one_server (λ e. absurd (omega arith))
            adds))
        (answered (at_host 1) 50))
      empty_list

-- Measurements.
abbrev no_checks : Checks
no_checks = record {
  slots = none ∷ none ∷ [];
  result = λ u. idle;
  better = λ u. false;
  worker = waiting;
}

no_checks-IsInitial : IsInitial no_checks
no_checks-IsInitial = record {
  empty = λ i u. empty_slot i;
  waits = refl;
  known = λ u b. absurd (ground (arith, b));
}
  where
    empty_slot : {u : ℕ} (i : ℕ) → get_elem? no_checks.slots i ≢ some (some u)
    empty_slot zero = λ e. cc
    empty_slot (suc zero) = λ e. cc
    empty_slot (suc (suc i)) = λ e. cc

abbrev asked_once : Checks
asked_once = record {
  slots = some 5 ∷ none ∷ [];
  result = update (λ u. idle) 5 in_progress;
  better = λ u. false;
  worker = waiting;
}

asks_once : find_uplink 5 no_checks ≡ some asked_once
unfolding find_uplink fill
asks_once = refl

Reach-take_pending_example :
    ((there : Bool) (i : ℕ) → asked_once.worker ≡ waiting → take_pending there i asked_once ≢ none)
    × ((u : ℕ) → asked_once.result u ≢ do_change → find_uplink u asked_once ≢ none)
    × ((u i : ℕ) → get_elem? (remove_uplink u asked_once).slots i ≢ some (some u))
Reach-take_pending_example =
    Reach-take_pending no_checks asked_once
      (Pending.next no_checks asked_once Pending.start
        (Pending.asked 5 asked_once (λ e. cc) asks_once))
      no_checks-IsInitial

abbrev target : Target
target = record {
  fd = some 3;
  current_server = at_host 1;
  cycle_detected = false;
  name = 105 ∷ [];
  rid = 1;
  virtual_filesize = 8192;
}

abbrev probe : ℕ → ℕ → Probe
probe sock elapsed = record {
  sock = some sock;
  select_ok = true;
  offer = some (record { version = 3; name = some (105 ∷ []); rid = 1; size = 8192 });
  get_ok = true;
  reply = some (1, 4096);
  received = 4096;
  elapsed = elapsed;
  now = at_start;
}

abbrev probes : List (Host × Probe)
probes = (at_host 1, probe 7 5000) ∷ (at_host 2, probe 8 100) ∷ (at_host 3, probe 9 200) ∷ []

abbrev best_of_two : Candidate
best_of_two = record { sock = 8; host = at_host 2; version = 3; avg = 20 }

switches :
    (measure target servers probes).1
    ≡ record { result = do_change; better = some best_of_two; closed = 9 ∷ 7 ∷ []; enabled = false }
unfolding measure update_rtt is_same_address_port same_bytes new_rtt average
switches = refl

measure-opened_example :
    let d = (measure target servers probes).1 in
    count 8 d.closed + count 8 (best_sock d.better) ≡ count 8 (opened probes)
measure-opened_example = measure-opened target servers probes 8

measure-Decided_example :
    Decided target (answers target servers probes) (measure target servers probes).1
measure-Decided_example = measure-Decided target servers probes
