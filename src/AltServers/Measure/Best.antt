-- ===== src/AltServers/Measure/Best.antt =====
-- The decision of a measurement: the best of the servers that answered, if it is good enough.
use dnbd3_fuse_lowlevel.Prelude.{
  ◌∙◌, ◌++◌, ℕ, zero, suc, ◌≤◌, ◌<◌, ◌≡◌, ◌⊎◌, List, [], ◌∷◌, Option, none, some, Bool, true, false,
  not, ◌&&◌, ltb, ◌==◌, if◌then◌else◌, if_cases, get_elem?, arith, refl, sym, Bool-cases, inl, inr,
}
use mathlib.Core.Path.{subst}
use dnbd3_fuse_lowlevel.Host.{Host, is_same_address_port}
use dnbd3_fuse_lowlevel.AltServers.{AltServer, server_failed, update_rtt}
use dnbd3_fuse_lowlevel.AltServers.Pending.{do_change, not_reachable, dont_change}
use dnbd3_fuse_lowlevel.AltServers.Measure.{
  rtt_unreachable, Probe, Target, Verdict, no_socket, failure, unavailable, timed, is_unset,
  check_server, Candidate, rtt_of, penalise, Round, best_rtt, best_sock, weigh, settle, measure_one,
  measure_all, Decision, may_switch, decide, measure,
}

-- The servers that answered, in order, each with its average at that time.
abbrev answer : Target → Host → Probe → ℕ → ℕ → List AltServer → Candidate
answer t host p sock version servers = record {
  sock = sock;
  host = host;
  version = version;
  avg = penalise t host (update_rtt host (rtt_of t host p.elapsed) servers).0;
}

-- The list of servers after one of them was tried.
abbrev servers_after : Target → Host → Probe → Verdict → List AltServer → List AltServer
servers_after t host p no_socket servers = servers
servers_after t host p (failure sock) servers = server_failed p.now host servers
servers_after t host p (unavailable sock) servers = servers
servers_after t host p (timed sock version) servers =
    (update_rtt host (rtt_of t host p.elapsed) servers).1

abbrev pub answered :
    Target → Host → Probe → Verdict → List AltServer → List Candidate → List Candidate
answered t host p (timed sock version) servers rest = answer t host p sock version servers ∷ rest
answered t host p v servers rest = rest

pub answers : Target → List AltServer → List (Host × Probe) → List Candidate
answers t servers [] = []
answers t servers ((host, p) ∷ ps) =
    answered t host p (check_server t p) servers
      (answers t (servers_after t host p (check_server t p) servers) ps)

-- The server that the uplink is connected to.
abbrev pub is_current : Target → Candidate → Bool
is_current t c = not (is_unset t.fd) && is_same_address_port c.host t.current_server

-- Its time: the last one measured.
abbrev pub current_time : Target → ℕ → List Candidate → ℕ
current_time t before [] = before
current_time t before (c ∷ cs) = current_time t (if is_current t c then c.avg else before) cs

-- `b` is the best of `cs` and of `before`.
pub record IsBest (t : Target) (before : Option Candidate) (cs : List Candidate)
    (b : Option Candidate) : Type 0 where
  pub found :
      (b ≡ before)
      ⊎ ((i : ℕ) × (c : Candidate) × (b ≡ some c)
          × (get_elem? cs i ≡ some c)
          × (is_current t c ≡ false)
          × (c.avg < best_rtt before))
  pub lower : best_rtt b ≤ best_rtt before
  pub least :
      (i : ℕ) (c : Candidate)
      → get_elem? cs i ≡ some c
      → is_current t c ≡ false
      → best_rtt b ≤ c.avg

module _ (t : Target) where
  least_cons :
      (n : ℕ) (c : Candidate) (cs : List Candidate)
      → (is_current t c ≡ false → n ≤ c.avg)
      → ((i : ℕ) (d : Candidate) → get_elem? cs i ≡ some d → is_current t d ≡ false → n ≤ d.avg)
      → (i : ℕ) (d : Candidate) → get_elem? (c ∷ cs) i ≡ some d
      → is_current t d ≡ false
      → n ≤ d.avg
  least_cons n c cs first rest zero d at f =
      let same : c ≡ d = ground arith in
      subst (λ (x : Candidate). n ≤ x.avg) same
        (first (subst (λ (x : Candidate). is_current t x ≡ false) (sym same) f))
  least_cons n c cs first rest (suc i) d at f = rest i d at f

  -- A further server in front.
  IsBest-cons :
      (c : Candidate) (before b : Option Candidate) (cs : List Candidate) (less : Bool)
      → is_current t c ≡ false
      → ltb c.avg (best_rtt before) ≡ less
      → IsBest t (if less then some c else before) cs b
      → IsBest t before (c ∷ cs) b
  IsBest-cons c before b cs true other e h = record {
    found = elim h.found [
      | inl first ↦ inr (0, c, first, refl, other, ground arith)
      | inr (i, d, is, at, f, lt) ↦ inr (suc i, d, is, at, f, ground arith)
    ];
    lower = let low = h.lower in ground arith;
    least = least_cons (best_rtt b) c cs (λ f. h.lower) h.least;
  }
  IsBest-cons c before b cs false other e h = record {
    found = elim h.found [
      | inl first ↦ inl first
      | inr (i, d, is, at, f, lt) ↦ inr (suc i, d, is, at, f, lt)
    ];
    lower = h.lower;
    least = least_cons (best_rtt b) c cs (λ f. let low = h.lower in ground arith) h.least;
  }

  IsBest-current :
      (c : Candidate) (before b : Option Candidate) (cs : List Candidate)
      → is_current t c ≡ true
      → IsBest t before cs b
      → IsBest t before (c ∷ cs) b
  IsBest-current c before b cs same h = record {
    found = elim h.found [
      | inl first ↦ inl first
      | inr (i, d, is, at, f, lt) ↦ inr (suc i, d, is, at, f, lt)
    ];
    lower = h.lower;
    least = least_cons (best_rtt b) c cs (λ f. absurd (ground (arith, same, f))) h.least;
  }

  -- What a round ends with, from the state before the servers `cs`.
  abbrev Ends : List Candidate → Round → Round → Type 0
  Ends cs r r' = IsBest t r.best cs r'.best × (r'.current_rtt ≡ current_time t r.current_rtt cs)

  weigh-Ends :
      (c : Candidate) (cs : List Candidate) (r r' : Round)
      → Ends cs (weigh t c r) r'
      → Ends (c ∷ cs) r r'
  unfolding weigh
  weigh-Ends c cs r r' = go (is_current t c) (ltb c.avg (best_rtt r.best)) refl refl
    where
      go :
          (cur less : Bool)
          → is_current t c ≡ cur
          → ltb c.avg (best_rtt r.best) ≡ less
          → Ends cs
              (if cur
                then record r { current_rtt = c.avg; closed = c.sock ∷ r.closed }
                else if less
                then record r { best = some c; closed = best_sock r.best ++ r.closed }
                else record r { closed = c.sock ∷ r.closed })
              r'
          → IsBest t r.best (c ∷ cs) r'.best
            × (r'.current_rtt ≡ current_time t (if cur then c.avg else r.current_rtt) cs)
      go true less e e' (h, k) = (IsBest-current c r.best r'.best cs e h, k)
      go false true e e' (h, k) = (IsBest-cons c r.best r'.best cs true e e' h, k)
      go false false e e' (h, k) = (IsBest-cons c r.best r'.best cs false e e' h, k)

  weigh_servers : (c : Candidate) (r : Round) → (weigh t c r).servers ≡ r.servers
  unfolding weigh
  weigh_servers c r =
      if_cases (λ (q : Round). q.servers ≡ r.servers)
        (not (is_unset t.fd) && is_same_address_port c.host t.current_server) _ _ refl
        (if_cases (λ (q : Round). q.servers ≡ r.servers) (ltb c.avg (best_rtt r.best)) _ _ refl
          refl)

  settle_servers :
      (host : Host) (p : Probe) (r : Round) (v : Verdict)
      → (settle t host p r v).servers ≡ servers_after t host p v r.servers
  unfolding settle
  settle_servers host p r no_socket = refl
  settle_servers host p r (failure sock) = refl
  settle_servers host p r (unavailable sock) = refl
  settle_servers host p r (timed sock version) = weigh_servers _ _

  settle-Ends :
      (host : Host) (p : Probe) (r r' : Round) (v : Verdict) (cs : List Candidate)
      → Ends cs (settle t host p r v) r'
      → Ends (answered t host p v r.servers cs) r r'
  unfolding settle
  settle-Ends host p r r' no_socket cs h = h
  settle-Ends host p r r' (failure sock) cs h = h
  settle-Ends host p r r' (unavailable sock) cs h = h
  settle-Ends host p r r' (timed sock version) cs h =
      weigh-Ends _ cs (record r { servers = _ }) r' h

  measure_all-Ends :
      (ps : List (Host × Probe)) (r : Round) (servers : List AltServer)
      → r.servers ≡ servers
      → Ends (answers t servers ps) r (measure_all t ps r)
  unfolding measure_all measure_one answers
  measure_all-Ends [] r servers e =
      (record { found = inl refl; lower = omega arith; least = λ i c at f. cc }, refl)
  measure_all-Ends ((host, p) ∷ ps) r servers e =
      let v = check_server t p in
      rw (← e) (
        settle-Ends host p r (measure_all t ps (settle t host p r v)) v
          (answers t (servers_after t host p v r.servers) ps)
          (measure_all-Ends ps (settle t host p r v) (servers_after t host p v r.servers)
            (settle_servers host p r v)))

-- The decision, from the servers that answered: a server is chosen that is not the current one, whose
-- time is the least of those and below the limit, and that is good enough; or none may be chosen.
pub data Decided (t : Target) (cs : List Candidate) : Decision → Type 0 where
  chosen :
      (d : Decision) (i : ℕ) (c : Candidate)
      → d.result ≡ do_change
      → d.better ≡ some c
      → get_elem? cs i ≡ some c
      → is_current t c ≡ false
      → c.avg < rtt_unreachable
      → ((j : ℕ) (other : Candidate)
          → get_elem? cs j ≡ some other
          → is_current t other ≡ false
          → c.avg ≤ other.avg)
      → may_switch t c.avg (current_time t rtt_unreachable cs) ≡ true
      → Decided t cs d
  kept :
      (d : Decision)
      → d.result ≡ dont_change
      → d.better ≡ none
      → ((j : ℕ) (other : Candidate)
          → get_elem? cs j ≡ some other
          → is_current t other ≡ false
          → other.avg < rtt_unreachable
          → may_switch t other.avg (current_time t rtt_unreachable cs) ≡ false)
      → Decided t cs d
  lost :
      (d : Decision)
      → d.result ≡ not_reachable
      → d.better ≡ none
      → current_time t rtt_unreachable cs ≡ rtt_unreachable
      → ((j : ℕ) (other : Candidate)
          → get_elem? cs j ≡ some other
          → is_current t other ≡ false
          → rtt_unreachable ≤ other.avg)
      → Decided t cs d

decide-Decided :
    (t : Target) (cs : List Candidate) (r : Round)
    → IsBest t none cs r.best
    → r.current_rtt ≡ current_time t rtt_unreachable cs
    → Decided t cs (decide t r)
unfolding decide
decide-Decided t cs r h k = go r.best h
  where
    go :
        (b : Option Candidate)
        → IsBest t none cs b
        → Decided t cs (decide t (record r { best = b }))
    go none h = elim (Bool-cases (r.current_rtt == rtt_unreachable)) [
      | inl e ↦ rw e (lost _ refl refl (ground (arith, e, k)) h.least)
      | inr e ↦ rw e (
          kept _ refl refl
            (λ j other at f lt. absurd (let n = h.least j other at f in omega arith)))
    ]
    go (some c) h = elim (Bool-cases (may_switch t c.avg r.current_rtt)) [
      | inl e ↦ rw e (elim h.found [
        | inl n ↦ cc
        | inr (i, d, is, at, f, lt) ↦
            let same : c ≡ d = ground (arith, is) in
            let f' : is_current t c ≡ false =
              subst (λ (x : Candidate). is_current t x ≡ false) (sym same) f in
            let lt' : c.avg < rtt_unreachable =
              subst (λ (x : Candidate). x.avg < rtt_unreachable) (sym same) lt in
            chosen _ i c refl refl (at ∙ sym is) f' lt' h.least (rw (← k) e)
      ])
      | inr e ↦ rw e (
          kept _ refl refl
            (λ j other at f lt. let le = h.least j other at f in rw (← k) (ground (arith, e, le))))
    ]

-- A measurement decides for a server that answered and is not the current one, whose average is the
-- least of those and below the limit and good enough beside that of the current server; or to keep
-- the server, and then none of those that answered below the limit is good enough; or that no server
-- is reachable, and then none answered below the limit.
pub measure-Decided :
    (t : Target) (servers : List AltServer) (probes : List (Host × Probe))
    → Decided t (answers t servers probes) (measure t servers probes).1
unfolding measure
measure-Decided t servers probes =
    let r : Round = record {
      servers = servers;
      best = none;
      current_rtt = rtt_unreachable;
      closed = [];
    } in
    let (best, current) = measure_all-Ends t probes r servers refl in
    decide-Decided t (answers t servers probes) (measure_all t probes r) best current
