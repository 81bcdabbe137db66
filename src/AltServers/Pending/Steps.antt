-- ===== src/AltServers/Pending/Steps.antt =====
-- Each step of the measurements keeps the table sound.
use dnbd3_fuse_lowlevel.Prelude.{
  ◌∙◌, ℕ, ◌≡◌, ◌≢◌, List, Option, none, some, Bool, true, false, ◌&&◌, ◌==◌, if◌then◌else◌,
  if_cases, set, get_elem?, get_elem?-set_ne, arith, refl, sym, ap, Bool-cases, Option-cases, inl,
  inr,
}
use mathlib.Core.Path.{subst}
use native.Mathlib.Decide.{ℕ_discrete}
use dnbd3_fuse_lowlevel.Slots.{contains, fill}
use dnbd3_fuse_lowlevel.Slots.Laws.{fill-set}
use dnbd3_fuse_lowlevel.Prelude.Maps.{update, update_self, update_other}
use dnbd3_fuse_lowlevel.AltServers.Pending.{
  RttResult, idle, in_progress, dont_change, do_change, not_reachable, is_in_progress, is_do_change,
  waiting, measuring, finished, Checks, find_uplink, remove_uplink, take_pending, finish,
  clear_pending, switch_server, see_unreachable, create, drop_pending,
}
use dnbd3_fuse_lowlevel.AltServers.Pending.Sound.{
  IsSound, read_set, read_clear, contains_at, Absent, slot_of, uplink_of,
}

module _ (s : Checks) (h : IsSound s) where
  -- What a change of the result of `u`, and of its better server, does to `known`.
  known_both :
      (u : ℕ) (b : Bool) (r : RttResult)
      → (b ≡ true → r ≡ do_change)
      → (v : ℕ) → update s.better u b v ≡ true
      → update s.result u r v ≡ do_change
  known_both u b r new v = go (v == u)
    where
      go :
          (c : Bool)
          → (if c then b else s.better v) ≡ true
          → (if c then r else s.result v) ≡ do_change
      go true = new
      go false = h.known v

  known_result :
      (u : ℕ) (r : RttResult)
      → (s.better u ≡ true → r ≡ do_change)
      → (v : ℕ) → s.better v ≡ true
      → update s.result u r v ≡ do_change
  known_result u r new v b = elim (Bool-cases (v == u)) [
    | inl t ↦ let same : v ≡ u = ground arith in rw t (new (rw (← same) b))
    | inr f ↦ rw f (h.known v b)
  ]

  pub created-IsSound : (u : ℕ) (connected : Bool) → Absent u s → IsSound (create u connected s)
  unfolding create
  created-IsSound u connected absent = record {
    running = λ i v at. elim (h.running i v at) [
      | inl w ↦ inl w
      | inr r ↦ inr (update_other s.result u _ v (λ e. absent i (rw (← e) at)) ∙ r)
    ];
    once = h.once;
    known =
        known_both u connected (if connected then do_change else idle) (connected_result connected);
    held = h.held;
  }
    where
      connected_result : (b : Bool) → b ≡ true → (if b then do_change else idle) ≡ do_change
      connected_result true e = refl
      connected_result false e = absurd (ground arith)

  pub asked-IsSound :
      (u : ℕ) (s' : Checks) → s.result u ≢ in_progress → find_uplink u s ≡ some s' → IsSound s'
  unfolding find_uplink
  asked-IsSound u s' guard e = elim (Bool-cases (s.better u)) [
    | inl b ↦ absurd (ground (arith, b, e))
    | inr b ↦
        let quiet : (is_in_progress (s.result u) && contains s.slots u) ≡ false =
          not_waiting (s.result u) guard (contains s.slots u) in
        elim (Option-cases (fill u s.slots)) [
          | inl n ↦ subst IsSound (ground (arith, b, quiet, n, e)) h
          | inr (slots, f) ↦
              subst IsSound (ground (arith, b, quiet, f, e))
                (entered b slots (fill-set u s.slots slots f))
        ]
  ]
    where
      not_waiting : (r : RttResult) → r ≢ in_progress → (c : Bool) → (is_in_progress r && c) ≡ false
      not_waiting idle g c = refl
      not_waiting in_progress g c = absurd (g refl)
      not_waiting dont_change g c = refl
      not_waiting do_change g c = refl
      not_waiting not_reachable g c = refl

      entered :
          s.better u ≡ false
          → (slots : List (Option ℕ))
          → (k : ℕ) × (get_elem? s.slots k ≡ some none) × (slots ≡ set s.slots k (some u))
          → IsSound (record s { slots = slots; result = update s.result u in_progress })
      entered b slots (k, vacant, e) = record {
        running = λ i v at. elim (read_set s.slots k i (some u) (some v) (rw (← e) at)) [
          | inl (here, is) ↦
              let same : u ≡ v = ground (arith, is) in
              inr (rw (← same) (update_self s.result u in_progress))
          | inr (other, old) ↦ elim (h.running i v old) [
            | inl w ↦ inl w
            | inr p ↦ inr (
                if_cases (λ (r : RttResult). r ≡ in_progress) (v == u) in_progress (s.result v) refl
                  p)
          ]
        ];
        once = λ i j v ne at bt. elim (read_set s.slots k i (some u) (some v) (rw (← e) at)) [
          | inl (here, is) ↦ elim (read_set s.slots k j (some u) (some v) (rw (← e) bt)) [
            | inl (here', is') ↦ absurd (ne (omega arith))
            | inr (other', old') ↦ inr (only j v (ground (arith, is)) old')
          ]
          | inr (other, old) ↦ elim (read_set s.slots k j (some u) (some v) (rw (← e) bt)) [
            | inl (here', is') ↦ inl (only i v (ground (arith, is')) old)
            | inr (other', old') ↦ h.once i j v ne old old'
          ]
        ];
        known = known_result u in_progress (λ b'. absurd (ground (arith, b, b')));
        held = λ i v m.
            let old = h.held i v m in
            rw e (get_elem?-set_ne s.slots {i = k} {j = i} (some u) (apart i v old) ∙ old);
      }
        where
          only : (j v : ℕ) → u ≡ v → get_elem? s.slots j ≡ some (some v) → s.worker ≡ finished j v
          only j v same old = elim (h.running j v old) [
            | inl w ↦ w
            | inr p ↦ absurd (guard (rw same p))
          ]

          apart : (i v : ℕ) → get_elem? s.slots i ≡ some (some v) → k ≢ i
          apart i v old same = let x : get_elem? s.slots i ≡ some none = rw (← same) vacant in cc

  pub removed-IsSound : (u : ℕ) → s.worker ≡ waiting → IsSound (remove_uplink u s)
  unfolding remove_uplink
  removed-IsSound u w = record {
    running = λ i v at.
        let (old, other) = read_clear u s.slots i v at in
        elim (h.running i v old) [
          | inl f ↦ inl f
          | inr p ↦ inr (
              if_cases (λ (f : ℕ → RttResult). f v ≡ in_progress) (contains s.slots u) _ s.result
                (update_other s.result u not_reachable v other ∙ p) p)
        ];
    once = λ i j v ne at bt.
        h.once i j v ne (read_clear u s.slots i v at).0 (read_clear u s.slots j v bt).0;
    known = after_remove (contains s.slots u) refl;
    held = λ i v m. cc;
  }
    where
      after_remove :
          (c : Bool)
          → contains s.slots u ≡ c
          → (v : ℕ) → s.better v ≡ true
          → (if c then update s.result u not_reachable else s.result) v ≡ do_change
      after_remove true e = known_result u not_reachable (λ b.
          let (i, at) = contains_at u s.slots e in
          let k = h.known u b in elim (h.running i u at) [ inl f ↦ cc | inr p ↦ cc ])
      after_remove false e = h.known

  pub switched-IsSound : (u : ℕ) → s.result u ≡ do_change → IsSound (switch_server u s)
  unfolding switch_server
  switched-IsSound u r = record {
    running = λ i v at. elim (h.running i v at) [
      | inl w ↦ inl w
      | inr p ↦ inr (update_other s.result u _ v (λ e. cc) ∙ p)
    ];
    once = h.once;
    known = known_both u false idle (λ e. cc);
    held = h.held;
  }

  pub noticed-IsSound : (u : ℕ) → s.result u ≡ not_reachable → IsSound (see_unreachable u s)
  unfolding see_unreachable
  noticed-IsSound u r = record {
    running = λ i v at. elim (h.running i v at) [
      | inl w ↦ inl w
      | inr p ↦ inr (update_other s.result u _ v (λ e. cc) ∙ p)
    ];
    once = h.once;
    known = known_result u idle (λ b. let k = h.known u b in cc);
    held = h.held;
  }

  dropped-IsSound :
      (i u : ℕ)
      → s.worker ≡ waiting
      → get_elem? s.slots i ≡ some (some u)
      → s.result u ≡ in_progress
      → IsSound (drop_pending i u s)
  dropped-IsSound i u w n p = record {
    running = λ j v at. elim (read_set s.slots i j none (some v) at) [
      | inl (here, is) ↦ cc
      | inr (other, old) ↦ elim (h.running j v old) [
        | inl f ↦ cc
        | inr q ↦ inr (update_other s.result u _ v (λ e. other (only j v old e)) ∙ q)
      ]
    ];
    once = λ j k v ne at bt. elim (read_set s.slots i j none (some v) at) [
      | inl (here, is) ↦ cc
      | inr (other, old) ↦ elim (read_set s.slots i k none (some v) bt) [
        | inl (here', is') ↦ cc
        | inr (other', old') ↦ h.once j k v ne old old'
      ]
    ];
    known = known_result u not_reachable (λ b. let k = h.known u b in cc);
    held = λ j v m. cc;
  }
    where
      only : (j v : ℕ) → get_elem? s.slots j ≡ some (some v) → v ≡ u → j ≡ i
      only j v old e = elim (ℕ_discrete j i) [
        | yes same ↦ same
        | no ne ↦ elim (h.once j i u ne (rw (← e) old) n) [ inl f ↦ cc | inr f ↦ cc ]
      ]

  pub taken-IsSound :
      (image_there : Bool) (i : ℕ) (s' : Checks)
      → s.worker ≡ waiting
      → take_pending image_there i s ≡ some s'
      → IsSound s'
  unfolding take_pending
  taken-IsSound image_there i s' w e = go image_there (get_elem? s.slots i) refl e
    where
      taken_with :
          (u : ℕ)
          → get_elem? s.slots i ≡ some (some u)
          → IsSound (record s { worker = measuring i u })
      taken_with u n = record {
        running = λ j v at. elim (h.running j v at) [ inl f ↦ cc | inr p ↦ inr p ];
        once = λ j k v ne at bt. elim (h.once j k v ne at bt) [ inl f ↦ cc | inr f ↦ cc ];
        known = h.known;
        held = λ j v m.
            let slot : i ≡ j = ap slot_of m in
            let uplink : u ≡ v = ap uplink_of m in rw (← slot, ← uplink) n;
      }

      go :
          (there : Bool) (x : Option (Option ℕ))
          → get_elem? s.slots i ≡ x
          → take_pending there i s ≡ some s'
          → IsSound s'
      go there none n e = subst IsSound (ground (arith, n, e)) h
      go there (some none) n e = subst IsSound (ground (arith, n, e)) h
      go there (some (some u)) n e = elim (h.running i u n) [
        | inl f ↦ cc
        | inr p ↦
            let busy : is_in_progress (s.result u) ≡ true = rw p refl in
            elim (Bool-cases there) [
              | inl t ↦ subst IsSound (ground (arith, n, busy, t, e)) (taken_with u n)
              | inr f ↦ subst IsSound (ground (arith, n, f, e)) (dropped-IsSound i u w n p)
            ]
      ]

  pub measured-IsSound :
      (i u : ℕ) (r : RttResult) → s.worker ≡ measuring i u → IsSound (finish r i u s)
  unfolding finish
  measured-IsSound i u r w = record {
    running = λ j v at. elim (Bool-cases (v == u)) [
      | inl t ↦
          let same : u ≡ v = ground (arith, t) in
          elim (Bool-cases (j == i)) [
            | inl here ↦
                let e : i ≡ j = ground (arith, here) in
                inl (ap (λ x. finished x u) e ∙ ap (finished j) same)
            | inr away ↦
                let mine : get_elem? s.slots i ≡ some (some v) =
                  h.held i u w ∙ ap (λ x. some (some x)) same in
                elim (h.once j i v (ground (arith, away)) at mine) [ inl f ↦ cc | inr f ↦ cc ]
          ]
      | inr f ↦ inr (rw f (other_running j v at))
    ];
    once = λ j k v ne at bt. elim (h.once j k v ne at bt) [ inl f ↦ cc | inr f ↦ cc ];
    known = after r;
    held = λ j v m. cc;
  }
    where
      never : {q : RttResult} → s.better u ≡ true → q ≡ do_change
      never b =
          let k = h.known u b in elim (h.running i u (h.held i u w)) [ inl f ↦ cc | inr p ↦ cc ]

      after :
          (q : RttResult)
          → (v : ℕ) → (if is_do_change q then update s.better u true else s.better) v ≡ true
          → update s.result u q v ≡ do_change
      after idle = known_result u idle never
      after in_progress = known_result u in_progress never
      after dont_change = known_result u dont_change never
      after do_change = known_both u true do_change (λ e. refl)
      after not_reachable = known_result u not_reachable never

      other_running : (j v : ℕ) → get_elem? s.slots j ≡ some (some v) → s.result v ≡ in_progress
      other_running j v at = elim (h.running j v at) [ inl f ↦ cc | inr p ↦ p ]

  pub cleared-IsSound : (i u : ℕ) → s.worker ≡ finished i u → IsSound (clear_pending i s)
  unfolding clear_pending
  cleared-IsSound i u w = record {
    running = λ j v at. elim (read_set s.slots i j none (some v) at) [
      | inl (here, is) ↦ cc
      | inr (other, old) ↦ elim (h.running j v old) [
        | inl f ↦ absurd (other (same_slot j v f))
        | inr p ↦ inr p
      ]
    ];
    once = λ j k v ne at bt. elim (read_set s.slots i j none (some v) at) [
      | inl (here, is) ↦ cc
      | inr (other, old) ↦ elim (read_set s.slots i k none (some v) bt) [
        | inl (here', is') ↦ cc
        | inr (other', old') ↦ elim (h.once j k v ne old old') [
          | inl f ↦ absurd (other (same_slot j v f))
          | inr f ↦ absurd (other' (same_slot k v f))
        ]
      ]
    ];
    known = h.known;
    held = λ j v m. cc;
  }
    where
      same_slot : (j v : ℕ) → s.worker ≡ finished j v → j ≡ i
      same_slot j v f = ap slot_of (sym f ∙ w)
