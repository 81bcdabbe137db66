-- ===== src/AltServers/Measure/Sockets.antt =====
-- No socket of a measurement is lost, and none is closed twice.
use dnbd3_fuse_lowlevel.Prelude.{
  ℕ, ◌+◌, ◌≡◌, List, [], ◌∷◌, ◌++◌, Option, none, some, not, ◌&&◌, ◌||◌, ltb, ◌==◌, if◌then◌else◌,
  if_cases, arith, refl, ap,
}
use dnbd3_fuse_lowlevel.Prelude.Counts.{count, count-append}
use dnbd3_fuse_lowlevel.Host.{Host, same_bytes, is_same_address_port}
use dnbd3_fuse_lowlevel.Image.{block_size}
use dnbd3_fuse_lowlevel.AltServers.{AltServer}
use dnbd3_fuse_lowlevel.AltServers.Measure.{
  rtt_unreachable, min_supported_server, cmd_get_block, Offer, Probe, Target, Verdict, no_socket,
  failure, unavailable, timed, is_unset, check_reply, check_offer, check_server, Candidate, Round,
  best_rtt, best_sock, weigh, settle, measure_one, measure_all, Decision, may_switch, decide,
  measure,
}

-- The sockets that were opened.
abbrev pub opened : List (Host × Probe) → List ℕ
opened [] = []
opened ((host, p) ∷ ps) = elim p.sock [ none ↦ [] | some sock ↦ sock ∷ [] ] ++ opened ps

-- The socket that a verdict is about.
abbrev verdict_sock : Verdict → List ℕ
verdict_sock no_socket = []
verdict_sock (failure sock) = sock ∷ []
verdict_sock (unavailable sock) = sock ∷ []
verdict_sock (timed sock version) = sock ∷ []

-- The sockets closed, or open for the best server.
abbrev held : ℕ → Round → ℕ
held fd r = count fd r.closed + count fd (best_sock r.best)

-- A verdict is about this socket.
abbrev About : ℕ → Verdict → Type 0
About sock v = verdict_sock v ≡ sock ∷ []

check_reply-About : (p : Probe) (sock version : ℕ) → About sock (check_reply p sock version)
unfolding check_reply
check_reply-About p sock version = go p.reply
  where
    go :
        (o : Option (ℕ × ℕ))
        → About sock (elim o [
          | none ↦ failure sock
          | some reply ↦
              if not (reply.0 == cmd_get_block) || not (reply.1 == block_size)
              then failure sock
              else if not (p.received == block_size)
              then failure sock
              else timed sock version
        ])
    go none = refl
    go (some reply) =
        if_cases (About sock) (not (reply.0 == cmd_get_block) || not (reply.1 == block_size))
          (failure sock) _ refl
          (if_cases (About sock) (not (p.received == block_size)) (failure sock) _ refl refl)

check_offer-About :
    (t : Target) (p : Probe) (sock : ℕ) (offer : Offer) → About sock (check_offer t p sock offer)
unfolding check_offer
check_offer-About t p sock offer =
    if_cases (About sock) (ltb offer.version min_supported_server) (failure sock) _ refl
      (go offer.name)
  where
    go :
        (o : Option (List ℕ))
        → About sock (elim o [
          | none ↦ failure sock
          | some name ↦
              if not (same_bytes name t.name)
              then failure sock
              else if not (offer.rid == t.rid)
              then failure sock
              else if not (offer.size == t.virtual_filesize)
              then failure sock
              else if not p.get_ok
              then failure sock
              else check_reply p sock offer.version
        ])
    go none = refl
    go (some name) = if_cases (About sock) (not (same_bytes name t.name)) (failure sock) _ refl (
        if_cases (About sock) (not (offer.rid == t.rid)) (failure sock) _ refl (
          if_cases (About sock) (not (offer.size == t.virtual_filesize)) (failure sock) _ refl (
            if_cases (About sock) (not p.get_ok) (failure sock) _ refl
              (check_reply-About p sock offer.version))))

check_server_sock :
    (t : Target) (p : Probe)
    → verdict_sock (check_server t p) ≡ elim p.sock [ none ↦ [] | some sock ↦ sock ∷ [] ]
unfolding check_server
check_server_sock t p = go p.sock
  where
    offered :
        (sock : ℕ) (o : Option Offer)
        → About sock (elim o [ none ↦ unavailable sock | some offer ↦ check_offer t p sock offer ])
    offered sock none = refl
    offered sock (some offer) = check_offer-About t p sock offer

    go :
        (o : Option ℕ)
        → verdict_sock (elim o [
          | none ↦ no_socket
          | some sock ↦ if not p.select_ok then failure sock else (elim p.offer [
            | none ↦ unavailable sock
            | some offer ↦ check_offer t p sock offer
          ])
        ])
          ≡ elim o [ none ↦ [] | some sock ↦ sock ∷ [] ]
    go none = refl
    go (some sock) =
        if_cases (About sock) (not p.select_ok) (failure sock) _ refl (offered sock p.offer)

weigh_sock :
    (t : Target) (c : Candidate) (r : Round) (fd : ℕ)
    → held fd (weigh t c r) ≡ held fd r + count fd (c.sock ∷ [])
unfolding weigh
weigh_sock t c r fd =
    if_cases (λ (q : Round). held fd q ≡ held fd r + count fd (c.sock ∷ []))
      (not (is_unset t.fd) && is_same_address_port c.host t.current_server) _ _ (ground arith)
      (if_cases (λ (q : Round). held fd q ≡ held fd r + count fd (c.sock ∷ []))
        (ltb c.avg (best_rtt r.best)) _ _
        (ground (arith, count-append fd (best_sock r.best) r.closed)) (ground arith))

settle_sock :
    (t : Target) (host : Host) (p : Probe) (r : Round) (fd : ℕ) (v : Verdict)
    → held fd (settle t host p r v) ≡ held fd r + count fd (verdict_sock v)
unfolding settle
settle_sock t host p r fd no_socket = omega arith
settle_sock t host p r fd (failure sock) = ground arith
settle_sock t host p r fd (unavailable sock) = ground arith
settle_sock t host p r fd (timed sock version) = weigh_sock t _ _ fd

measure_one_sock :
    (t : Target) (host : Host) (p : Probe) (r : Round) (fd : ℕ)
    → held fd (measure_one t host p r) ≡ held fd r + count fd (verdict_sock (check_server t p))
unfolding measure_one
measure_one_sock t host p r fd = settle_sock t host p r fd (check_server t p)

measure_all_sock :
    (t : Target) (ps : List (Host × Probe)) (r : Round) (fd : ℕ)
    → held fd (measure_all t ps r) ≡ held fd r + count fd (opened ps)
unfolding measure_all
measure_all_sock t [] r fd = omega arith
measure_all_sock t ((host, p) ∷ ps) r fd =
    let one = measure_one_sock t host p r fd in
    let all = measure_all_sock t ps (measure_one t host p r) fd in
    let here = ap (count fd) (check_server_sock t p) in
    let sum = count-append fd (elim p.sock [ none ↦ [] | some sock ↦ sock ∷ [] ]) (opened ps) in
    omega (arith, one, all, here, sum)

decide_sock :
    (t : Target) (r : Round) (fd : ℕ)
    → count fd (decide t r).closed + count fd (best_sock (decide t r).better) ≡ held fd r
unfolding decide
decide_sock t r fd = go r.best
  where
    go :
        (b : Option Candidate)
        → let d = decide t (record r { best = b }) in
          count fd d.closed + count fd (best_sock d.better)
          ≡ count fd r.closed + count fd (best_sock b)
    go none =
        if_cases
          (λ (d : Decision).
            count fd d.closed + count fd (best_sock d.better) ≡ count fd r.closed + 0)
          (r.current_rtt == rtt_unreachable) _ _ refl refl
    go (some c) =
        if_cases
          (λ (d : Decision).
            count fd d.closed + count fd (best_sock d.better)
            ≡ count fd r.closed + count fd (c.sock ∷ []))
          (may_switch t c.avg r.current_rtt) _ _ refl (ground arith)

-- Of the sockets that a measurement opens, each is closed once, but the one that is handed to the
-- uplink with the decision to change.
pub measure-opened :
    (t : Target) (servers : List AltServer) (probes : List (Host × Probe)) (fd : ℕ)
    → let d = (measure t servers probes).1 in
      count fd d.closed + count fd (best_sock d.better) ≡ count fd (opened probes)
unfolding measure
measure-opened t servers probes fd =
    let r : Round = record {
      servers = servers;
      best = none;
      current_rtt = rtt_unreachable;
      closed = [];
    } in
    omega (arith, decide_sock t (measure_all t probes r) fd, measure_all_sock t probes r fd)
