-- ===== src/Fuse/Servers/Decide.antt =====
-- src/fuse/connection.c: the decision of `probeAltServers` to change the server.
use dnbd3_fuse_lowlevel.Prelude.{
  ◌∙◌, ℕ, zero, suc, ◌+◌, ◌-◌, ◌≤◌, ◌<◌, ◌≡◌, ◌≢◌, List, [], ◌∷◌, Option, none, some, Bool, true,
  false, ◌&&◌, ltb, leb, ◌==◌, if◌then◌else◌, if_cases, get_elem?, get_elem?-lt, get_elem?-set_self,
  get_elem?-set_ne, get_elem?-none, some_injective, set, length, length-set, arith, refl, sym, ap,
  Bool-cases, Option-cases, inl, inr,
}
use dnbd3_fuse_lowlevel.Fuse.Servers.{
  Server, max_alts_active, rtt_absolute_threshold, decay, count_best, is_better, weigh_active,
  forgive, clear_others, confirm, decide_switch,
}

-- The same server with the same time.
abbrev pub Alike : Server → Server → Type 0
Alike s s' = (s'.rtt ≡ s.rtt) × (s'.host ≡ s.host)

-- The array has the same servers with the same times.
abbrev pub SameTimes : List Server → List Server → Type 0
SameTimes ss ss' =
    (k : ℕ) (s : Server)
    → get_elem? ss k ≡ some s
    → (s' : Server) × (get_elem? ss' k ≡ some s') × Alike s s'

SameTimes-trans : (ss ts us : List Server) → SameTimes ss ts → SameTimes ts us → SameTimes ss us
SameTimes-trans ss ts us h k i s at =
    let (t, at_t, (r, a)) = h i s at in
    let (u, at_u, (r', a')) = k i t at_t in (u, at_u, (r' ∙ r, a' ∙ a))

decay-Alike : (c s : Server) → Alike s (decay c s)
unfolding decay
decay-Alike c s =
    if_cases (Alike s) (ltb c.live_rtt s.live_rtt && ltb s.rtt s.live_rtt) _ s (refl, refl)
      (refl, refl)

count_best-Alike : (b : Bool) (s : Server) → Alike s (count_best b s)
unfolding count_best
count_best-Alike true s = (refl, refl)
count_best-Alike false s = if_cases (Alike s) (ltb 0 s.best_count) _ s (refl, refl) (refl, refl)

set-SameTimes :
    (ss : List Server) (i : ℕ) (s s' : Server)
    → get_elem? ss i ≡ some s
    → Alike s s'
    → SameTimes ss (set ss i s')
set-SameTimes ss i s s' at alike k t at_t = elim (Bool-cases (i == k)) [
  | inl b ↦
      let e : i ≡ k = ground (arith, b) in
      let same : s ≡ t = some_injective s t (sym at ∙ (rw e at_t)) in
      (s', rw (← e) (get_elem?-set_self ss i s' (get_elem?-lt ss i s at)), rw (← same) alike)
  | inr b ↦
      let n : i ≢ k = λ e. absurd (ground (arith, b, e)) in
      (t, get_elem?-set_ne ss {i = i} {j = k} s' n ∙ at_t, (refl, refl))
]

forgive-SameTimes : (i : ℕ) (ss : List Server) → SameTimes ss (forgive i ss)
unfolding forgive
forgive-SameTimes i [] k s at = cc
forgive-SameTimes i (r ∷ ss) zero s at =
    let e : r ≡ s = ground arith in
    (
      if leb max_alts_active i then record r { consecutive_fails = r.consecutive_fails - 1 } else r,
      refl,
      rw (← e) (
          if_cases (Alike r) (leb max_alts_active i)
            (record r { consecutive_fails = r.consecutive_fails - 1 }) r (refl, refl) (refl, refl)),
    )
forgive-SameTimes i (r ∷ ss) (suc k) s at = forgive-SameTimes (i + 1) ss k s at

clear_others-SameTimes : (b i : ℕ) (ss : List Server) → SameTimes ss (clear_others b i ss)
unfolding clear_others
clear_others-SameTimes b i [] k s at = cc
clear_others-SameTimes b i (r ∷ ss) zero s at =
    let e : r ≡ s = ground arith in
    (
      if i == b then r else record r { best_count = 0 },
      refl,
      rw (← e)
          (if_cases (Alike r) (i == b) r (record r { best_count = 0 }) (refl, refl) (refl, refl)),
    )
clear_others-SameTimes b i (r ∷ ss) (suc k) s at = clear_others-SameTimes b (i + 1) ss k s at

-- What the loop over the active servers leaves.
abbrev Weighed : ℕ → Server → Server → List Server → Option (List Server × Bool) → Type 0
Weighed b best current ss none = ⊥
Weighed b best current ss (some (ss', do_switch)) =
    SameTimes ss ss' × (do_switch ≡ true → best.rtt < current.rtt)

due_faster :
    (random b i : ℕ) (best current s s' : Server) (ss : List Server) (do_switch : Bool)
    → get_elem? ss b ≡ some best
    → get_elem? ss i ≡ some s
    → Alike s s'
    → (do_switch ≡ true → best.rtt < current.rtt)
    → (if i == b && is_better random current s' then true else do_switch) ≡ true
    → best.rtt < current.rtt
unfolding is_better
due_faster random b i best current s s' ss do_switch at_b at_i (r, a) before now =
    elim (Bool-cases (i == b && is_better random current s')) [
      | inl t ↦
          let e : i ≡ b = ground (arith, t) in
          let same : s ≡ best = some_injective s best (sym at_i ∙ (rw e at_b)) in
          let r' : s'.rtt ≡ best.rtt = r ∙ ap (λ (x : Server). x.rtt) same in ground (arith, t, r')
      | inr f ↦ before (ground (arith, now, f))
    ]

Weighed-step :
    (b : ℕ) (best current best' current' : Server) (ss ts : List Server)
    (r : Option (List Server × Bool))
    → SameTimes ss ts
    → best'.rtt ≡ best.rtt
    → current'.rtt ≡ current.rtt
    → Weighed b best' current' ts r
    → Weighed b best current ss r
Weighed-step b best current best' current' ss ts none same e f h = h
Weighed-step b best current best' current' ss ts (some (us, do_switch)) same e f (same', faster) =
    (SameTimes-trans ss ts us same same', λ now. omega (arith, e, f, faster now))

weigh_active-Weighed :
    (n i random b c : ℕ) (do_switch : Bool) (best current : Server) (ss : List Server)
    → n + i ≤ length ss
    → get_elem? ss b ≡ some best
    → get_elem? ss c ≡ some current
    → (do_switch ≡ true → best.rtt < current.rtt)
    → Weighed b best current ss (weigh_active n i random b (some c) do_switch ss)
unfolding weigh_active
weigh_active-Weighed zero i random b c do_switch best current ss le at_b at_c before =
    (λ k s at. (s, at, (refl, refl)), before)
weigh_active-Weighed (suc n) i random b c do_switch best current ss le at_b at_c before =
    elim (Option-cases (get_elem? ss i)) [
      | inl none_at ↦ absurd (omega (arith, le, get_elem?-none ss i none_at))
      | inr (s, at) ↦
          let s' = count_best (i == b) (decay current s) in
          let (r1, h1) = decay-Alike current s in
          let (r2, h2) = count_best-Alike (i == b) (decay current s) in
          let alike : Alike s s' = (r2 ∙ r1, h2 ∙ h1) in
          let next = if i == b && is_better random current s' then true else do_switch in
          let same = set-SameTimes ss i s s' at alike in
          let (best', at_b', (r_b, h_b)) = same b best at_b in
          let (current', at_c', (r_c, h_c)) = same c current at_c in
          let rest =
            weigh_active-Weighed n (i + 1) random b c next best' current' (set ss i s')
              (omega (arith, le, length-set {0} ss i s')) at_b' at_c'
              (λ now. omega (
                arith,
                r_b,
                r_c,
                due_faster random b i best current s s' ss do_switch at_b at alike before now,
              )) in
          rw (at_c, at, weigh_active)
            (Weighed-step b best current best' current' ss (set ss i s') _ same r_b r_c rest)
    ]

-- A confirmed change is one to a faster server, and one to a much faster server is confirmed.
confirm_faster :
    (current best : Server) (do_switch : Bool)
    → (do_switch ≡ true → best.rtt < current.rtt)
    → (confirm current best do_switch ≡ true → best.rtt < current.rtt)
      × (best.rtt + rtt_absolute_threshold < current.rtt → confirm current best do_switch ≡ true)
unfolding confirm
confirm_faster current best true h = (λ now. h refl, λ far. ground (arith, far))
confirm_faster current best false h = (λ now. ground (arith, now), λ far. ground (arith, far))

-- If the current server is in the array, with the best one and all active ones, the decision is made
-- without reading a null pointer; it keeps the servers and their times, a change is made only to a
-- server that is faster than the current one, and surely to one that is faster by more than the
-- absolute threshold. If the current server is not in the array, a null pointer is read.
pub decide_faster :
    (random b c : ℕ) (best current : Server) (ss : List Server)
    → max_alts_active ≤ length ss
    → get_elem? ss b ≡ some best
    → get_elem? ss c ≡ some current
    → ((ss' : List Server) × (change : Bool) × (decide_switch random b (some c) ss
          ≡ some (ss', change))
        × SameTimes ss ss'
        × (change ≡ true → best.rtt < current.rtt)
        × (best.rtt + rtt_absolute_threshold < current.rtt → change ≡ true))
      × (decide_switch random b none ss ≡ none)
unfolding decide_switch weigh_active
decide_faster random b c best current ss le at_b at_c = (
  go (weigh_active max_alts_active 0 random b (some c) false ss) refl (
      weigh_active-Weighed max_alts_active 0 random b c false best current ss (omega (arith, le))
        at_b at_c (λ now. absurd (ground (arith, now)))),
  refl,
)
  where
    go :
        (r : Option (List Server × Bool))
        → weigh_active max_alts_active 0 random b (some c) false ss ≡ r
        → Weighed b best current ss r
        → (ss' : List Server) × (change : Bool) × (decide_switch random b (some c) ss
            ≡ some (ss', change))
          × SameTimes ss ss'
          × (change ≡ true → best.rtt < current.rtt)
          × (best.rtt + rtt_absolute_threshold < current.rtt → change ≡ true)
    go none e h = absurd h
    go (some (ts, do_switch)) e (same, faster) =
        let us = forgive 0 ts in
        let same' = SameTimes-trans ss ts us same (forgive-SameTimes 0 ts) in
        let (best', at_b', (r_b, h_b)) = same' b best at_b in
        let (current', at_c', (r_c, h_c)) = same' c current at_c in
        let change = confirm current' best' do_switch in
        let (only, surely) =
          confirm_faster current' best' do_switch (λ now. omega (arith, r_b, r_c, faster now)) in
        (
          if change then clear_others b 0 us else us,
          change,
          rw (e, at_b', at_c', decide_switch) refl,
          if_cases (SameTimes ss) change (clear_others b 0 us) us
              (SameTimes-trans ss us (clear_others b 0 us) same' (clear_others-SameTimes b 0 us))
              same',
          λ now. omega (arith, r_b, r_c, only now),
          λ far. surely (omega (arith, r_b, r_c, far)),
        )
