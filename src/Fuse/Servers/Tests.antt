-- ===== src/Fuse/Servers/Tests.antt =====
-- src/fuse/connection.c: the theorems about the servers of the fuse client at concrete arrays.
use dnbd3_fuse_lowlevel.Prelude.{
  ℕ, zero, suc, ◌+◌, ◌<◌, ◌≡◌, ◌≢◌, List, [], ◌∷◌, ◌++◌, none, some, Bool, true, get_elem?,
  some_injective, length, replicate, arith, refl,
}
use dnbd3_fuse_lowlevel.Host.{Host, is_same_address}
use dnbd3_fuse_lowlevel.Fuse.Servers.{
  Server, max_alts, rtt_absolute_threshold, no_host, is_unused, add_alt_servers, sort_alt_servers,
  failed, measured, probe_all, decide_switch,
}
use dnbd3_fuse_lowlevel.Fuse.Servers.Add.{IsDistinct, Keeps, Told}
use dnbd3_fuse_lowlevel.Fuse.Servers.Told.{add_alt_servers-Keeps}
use dnbd3_fuse_lowlevel.Fuse.Servers.Sort.{hosted, Sorted}
use dnbd3_fuse_lowlevel.Fuse.Servers.Sort.Exchange.{sort_alt_servers-Sorted}
use dnbd3_fuse_lowlevel.Fuse.Servers.Probe.{probe_all_outside}
use dnbd3_fuse_lowlevel.Fuse.Servers.Decide.{SameTimes, decide_faster}

abbrev host : ℕ → Host
host n = record { addr = 10 ∷ 0 ∷ 0 ∷ n ∷ []; port = 5003; type = 2 }

abbrev server : Host → ℕ → ℕ → Server
server h fails time = record {
  host = h;
  consecutive_fails = fails;
  rtt = time;
  rtts = time ∷ time ∷ time ∷ time ∷ [];
  rtt_index = 1;
  best_count = 0;
  live_rtt = 0;
}

-- A server that failed, and a free entry.
abbrev two_servers : List Server
two_servers = server (host 1) 20 900 ∷ server no_host 0 0 ∷ []

two_servers-IsDistinct : IsDistinct two_servers
unfolding IsDistinct is_same_address
two_servers-IsDistinct zero zero s t apart at_s at_t used = absurd (apart refl)
two_servers-IsDistinct zero (suc zero) s t apart at_s at_t used =
    let e : server (host 1) 20 900 ≡ s = some_injective (server (host 1) 20 900) s at_s in
    let f : server no_host 0 0 ≡ t = some_injective (server no_host 0 0) t at_t in
    rw (← e, ← f) refl
two_servers-IsDistinct zero (suc (suc j)) s t apart at_s at_t used = cc
two_servers-IsDistinct (suc zero) j s t apart at_s at_t used =
    let e : server no_host 0 0 ≡ s = some_injective (server no_host 0 0) s at_s in
    let free : is_unused s ≡ true = rw (← e) refl in absurd (ground (arith, free, used))
two_servers-IsDistinct (suc (suc i)) j s t apart at_s at_t used = cc

add_alt_servers-Keeps_example :
    let r = add_alt_servers (host 2 ∷ host 3 ∷ []) two_servers in
    (length r.1 ≡ 2)
    × Keeps two_servers r.1
    × IsDistinct r.1
    × ((i : ℕ) (h : Host) → get_elem? (host 2 ∷ host 3 ∷ []) i ≡ some h → h.type ≢ 0 → Told h r.1)
    × (r.0 ≡ replicate 2 no_host)
add_alt_servers-Keeps_example =
    add_alt_servers-Keeps (host 2 ∷ host 3 ∷ []) two_servers two_servers-IsDistinct

-- The first active server failed often, the second inactive one works.
abbrev full_array : List Server
full_array =
    server (host 1) 20 900 ∷ replicate 5 (server (host 2) 0 500)
    ++ (server (host 3) 0 700 ∷ replicate 9 (server (host 4) 2 600))

sort_alt_servers-Sorted_example :
    (length (sort_alt_servers full_array) ≡ max_alts)
    × ((p : Host → Bool) → hosted p (sort_alt_servers full_array) ≡ hosted p full_array)
    × Sorted (sort_alt_servers full_array)
sort_alt_servers-Sorted_example = sort_alt_servers-Sorted full_array refl

probe_all_outside_example :
    probe_all
      (measured 400 ∷ failed 0 ∷ measured 500 ∷ measured 300 ∷ failed 10 ∷ [])
      (server (host 1) 0 900)
    ≡ none
probe_all_outside_example =
    probe_all_outside (measured 400 ∷ failed 0 ∷ measured 500 ∷ measured 300 ∷ failed 10 ∷ [])
      (server (host 1) 0 900) refl (omega arith) (omega arith)

-- The second server is faster by far.
abbrev active_array : List Server
active_array = server (host 1) 0 90000 ∷ replicate 4 (server (host 2) 0 500)

decide_faster_example :
    ((ss' : List Server) × (change : Bool) × (decide_switch 7 1 (some 0) active_array
        ≡ some (ss', change))
      × SameTimes active_array ss'
      × (change ≡ true → 500 < 90000)
      × (500 + rtt_absolute_threshold < 90000 → change ≡ true))
    × (decide_switch 7 1 none active_array ≡ none)
decide_faster_example =
    decide_faster 7 1 0 (server (host 2) 0 500) (server (host 1) 0 90000) active_array (omega arith)
      refl refl
