-- ===== src/Fuse/Servers/Probe.antt =====
-- src/fuse/connection.c: the index into the times of a server.
use dnbd3_fuse_lowlevel.Prelude.{
  ◌∙◌, ℕ, ◌+◌, ◌≤◌, ◌<◌, ◌≡◌, List, [], ◌∷◌, Option, none, some, ltb, length, length-set, arith,
  refl, Bool-cases, inl, inr,
}
use dnbd3_fuse_lowlevel.Fuse.Servers.{
  Server, rtt_count, ProbeResult, failed, measured, advance, store_rtt, probe_server, probe_all,
}

-- After a probe the index is the next one, unless it is outside of the array.
abbrev Probed : ℕ → Option Server → Type 0
Probed i none = advance i ≡ rtt_count
Probed i (some s) =
    (length s.rtts ≡ rtt_count) × (s.rtt_index ≡ advance i) × (advance i < rtt_count)

probe_server-Probed :
    (o : ProbeResult) (s : Server)
    → length s.rtts ≡ rtt_count
    → s.rtt_index ≤ rtt_count
    → Probed s.rtt_index (probe_server o s)
unfolding probe_server store_rtt advance
probe_server-Probed (failed extra) s len le =
    elim (Bool-cases (ltb (advance s.rtt_index) (length s.rtts))) [
      | inl t ↦
          rw (t, probe_server, store_rtt)
            (length-set {0} s.rtts _ _ ∙ len, refl, ground (arith, t, len))
      | inr f ↦ rw (f, probe_server, store_rtt) (ground (arith, f, len, le))
    ]
probe_server-Probed (measured time) s len le =
    elim (Bool-cases (ltb (advance s.rtt_index) (length s.rtts))) [
      | inl t ↦
          rw (t, probe_server, store_rtt)
            (length-set {0} s.rtts _ _ ∙ len, refl, ground (arith, t, len))
      | inr f ↦ rw (f, probe_server, store_rtt) (ground (arith, f, len, le))
    ]

-- The index grows with each probe until it is outside.
probe_all_from :
    (os : List ProbeResult) (s : Server)
    → length s.rtts ≡ rtt_count
    → s.rtt_index < rtt_count
    → rtt_count ≤ s.rtt_index + length os
    → probe_all os s ≡ none
unfolding probe_all advance
probe_all_from [] s len lt enough = absurd (omega (arith, lt, enough))
probe_all_from (o ∷ os) s len lt enough =
    go (probe_server o s) refl (probe_server-Probed o s len (omega (arith, lt)))
      (λ s'. probe_all_from os s')
  where
    go :
        (r : Option Server)
        → probe_server o s ≡ r
        → Probed s.rtt_index r
        → ((s' : Server)
            → length s'.rtts ≡ rtt_count
            → s'.rtt_index < rtt_count
            → rtt_count ≤ s'.rtt_index + length os
            → probe_all os s' ≡ none)
        → probe_all (o ∷ os) s ≡ none
    go none e out rest = rw (e, probe_all) refl
    go (some s') e (len', is, inside) rest =
        let step : advance s.rtt_index ≡ s.rtt_index + 1 = ground (arith, lt) in
        rw (e, probe_all)
          (rest s' len' (omega (arith, is, inside)) (omega (arith, is, step, enough)))

-- Of five probes of a server one writes outside of the array of its times, however they end.
pub probe_all_outside :
    (os : List ProbeResult) (s : Server)
    → length s.rtts ≡ rtt_count
    → s.rtt_index ≤ rtt_count
    → rtt_count < length os
    → probe_all os s ≡ none
unfolding probe_all advance
probe_all_outside [] s len le enough = absurd (omega (arith, enough))
probe_all_outside (o ∷ os) s len le enough =
    go (probe_server o s) refl (probe_server-Probed o s len le)
  where
    go :
        (r : Option Server)
        → probe_server o s ≡ r
        → Probed s.rtt_index r
        → probe_all (o ∷ os) s ≡ none
    go none e out = rw (e, probe_all) refl
    go (some s') e (len', is, inside) =
        rw (e, probe_all)
          (probe_all_from os s' len' (ground (arith, is, inside)) (omega (arith, enough)))
