-- ===== src/AltServers/ForUplink/Passes.antt =====
-- The two passes of `altservers_getListForUplink` over the list of servers.
use dnbd3_fuse_lowlevel.Prelude.{
  ◌∙◌, ℕ, zero, suc, ◌+◌, ◌%◌, ◌<◌, ◌≡◌, List, [], ◌∷◌, ◌++◌, some, Bool, true, false, ltb, leb,
  if◌then◌else◌, set, get_elem?, take, length, length-append, arith, refl, ap, Bool-cases, inl, inr,
}
use native.Mathlib.Nat.{mod-eq_of_lt, add-mod_left}
use dnbd3_fuse_lowlevel.Host.{Host}
use dnbd3_fuse_lowlevel.AltServers.{AltServer}
use dnbd3_fuse_lowlevel.AltServers.ForUplink.{
  Setting, Verdict, skipped, lowered, kept, judge, lower_fails, visit, ask_all,
}
use dnbd3_fuse_lowlevel.AltServers.ForUplink.Chosen.{
  healthy, retried, hosts_of, lower_first, judge_first, judge_second,
}

pub snoc {ℓ} :
    {A : Type ℓ} (xs : List A) (x : A) (ys : List A) → (xs ++ (x ∷ [])) ++ ys ≡ xs ++ (x ∷ ys)
snoc [] x ys = refl
snoc (z ∷ xs) x ys = ap (λ zs. z ∷ zs) (snoc xs x ys)

pub append_nil {ℓ} : {A : Type ℓ} (xs : List A) → xs ++ [] ≡ xs
append_nil [] = refl
append_nil (x ∷ xs) = ap (λ zs. x ∷ zs) (append_nil xs)

get_elem?-append {ℓ} :
    {A : Type ℓ} (xs : List A) (x : A) (ys : List A)
    → get_elem? (xs ++ (x ∷ ys)) (length xs) ≡ some x
get_elem?-append [] x ys = refl
get_elem?-append (z ∷ xs) x ys = get_elem?-append xs x ys

set-append {ℓ} :
    {A : Type ℓ} (xs : List A) (x v : A) (ys : List A)
    → set (xs ++ (x ∷ ys)) (length xs) v ≡ xs ++ (v ∷ ys)
set-append [] x v ys = refl
set-append (z ∷ xs) x v ys = ap (λ zs. z ∷ zs) (set-append xs x v ys)

pub lower_first-zero : (c : Setting) (ss : List AltServer) → lower_first c 0 ss ≡ ss
unfolding lower_first
lower_first-zero c [] = refl
lower_first-zero c (s ∷ ss) = refl

module _ (c : Setting) (n size : ℕ) where
  -- The server at round `i`.
  at_round :
      (pre : List AltServer) (s : AltServer) (ss : List AltServer) (i : ℕ)
      → i % n ≡ length pre
      → get_elem? (pre ++ (s ∷ ss)) (i % n) ≡ some s
  at_round pre s ss i e = rw e (get_elem?-append pre s ss)

  abbrev continue : ℕ → ℕ → List AltServer × List Host × Bool → List AltServer × List Host
  continue k i r = if r.2 then (r.0, r.1) else ask_all c n size k i r.0 r.1

  round_lem :
      (k i : ℕ) (servers : List AltServer) (out : List Host) (s : AltServer) (v : Verdict)
      → get_elem? servers (i % n) ≡ some s
      → judge c (ltb i n) s ≡ v
      → ask_all c n size (suc k) i servers out
        ≡ continue k (i + 1) (visit size (i % n) servers out s v)
  unfolding ask_all
  round_lem k i servers out s v at e = rw (at, e, ask_all) refl

  -- What the rest of the first pass makes of the servers `suf`.
  abbrev after_first :
      ℕ → ℕ → List AltServer → List AltServer → List Host → List AltServer × List Host
  after_first left m servers suf out =
      if leb (suc m) (length (hosts_of (healthy c) suf))
      then (servers, out ++ take (suc m) (hosts_of (healthy c) suf))
      else ask_all c n size left n servers (out ++ hosts_of (healthy c) suf)

  -- A round of the first pass, where the rounds after it are known.
  first_round :
      (k left m : ℕ) (pre : List AltServer) (s : AltServer) (ss : List AltServer) (out : List Host)
      → length pre < n
      → size ≡ length out + suc m
      → ((m : ℕ) (out : List Host)
          → size ≡ length out + suc m
          → ask_all c n size k (length pre + 1) (pre ++ (s ∷ ss)) out
            ≡ after_first left m (pre ++ (s ∷ ss)) ss out)
      → ask_all c n size (suc k) (length pre) (pre ++ (s ∷ ss)) out
        ≡ after_first left m (pre ++ (s ∷ ss)) (s ∷ ss) out
  unfolding hosts_of visit
  first_round k left m pre s ss out inside es ih =
      let test : ltb (length pre) n ≡ true = ground (arith, inside) in
      let here : length pre % n ≡ length pre = mod-eq_of_lt inside in
      let at = at_round pre s ss (length pre) here in
      let servers = pre ++ (s ∷ ss) in
      elim (Bool-cases (healthy c s)) [
        | inl t ↦
            let v : judge c (ltb (length pre) n) s ≡ kept = rw test (judge_first c s ∙ rw t refl) in
            round_lem k (length pre) servers out s kept at v ∙ rw (t, hosts_of) (chosen m es)
        | inr f ↦
            let v : judge c (ltb (length pre) n) s ≡ skipped =
              rw test (judge_first c s ∙ rw f refl) in
            round_lem k (length pre) servers out s skipped at v ∙ rw (f, hosts_of) (ih m out es)
      ]
    where
      chosen :
          (m : ℕ)
          → size ≡ length out + suc m
          → continue k
              (length pre + 1)
              (pre ++ (s ∷ ss), out ++ (s.host ∷ []), leb size (length out + 1))
            ≡ (if leb (suc m) (suc (length (hosts_of (healthy c) ss)))
                then (pre ++ (s ∷ ss), out ++ (s.host ∷ take m (hosts_of (healthy c) ss)))
                else ask_all c n size left n
                    (pre ++ (s ∷ ss))
                    (out ++ (s.host ∷ hosts_of (healthy c) ss)))
      chosen zero e =
          let full : leb size (length out + 1) ≡ true = ground arith in
          let enough : leb 1 (suc (length (hosts_of (healthy c) ss))) ≡ true = ground arith in
          rw (full, enough) refl
      chosen (suc m) e =
          let room : leb size (length out + 1) ≡ false = ground arith in
          let same : leb (suc (suc m)) (suc (length (hosts_of (healthy c) ss)))
              ≡ leb (suc m) (length (hosts_of (healthy c) ss)) =
            ground arith in
          let more = snoc out s.host (take (suc m) (hosts_of (healthy c) ss)) in
          let all = snoc out s.host (hosts_of (healthy c) ss) in
          rw (room, same, ← more, ← all)
            (ih m (out ++ (s.host ∷ [])) (omega (arith, length-append {0} out (s.host ∷ []))))

  -- The first pass, from the servers `suf` on.
  pub first_pass :
      (k left m : ℕ) (pre suf : List AltServer) (out : List Host)
      → k ≡ length suf + left
      → n ≡ length pre + length suf
      → size ≡ length out + suc m
      → ask_all c n size k (length pre) (pre ++ suf) out ≡ after_first left m (pre ++ suf) suf out
  unfolding hosts_of
  first_pass k left m pre [] out ek en es =
      let none_left : k ≡ left = omega arith in
      let all : length pre ≡ n = omega arith in
      let test : leb (suc m) 0 ≡ false = ground arith in
      rw (none_left, all, test, append_nil out) refl
  first_pass zero left m pre (s ∷ ss) out ek en es = absurd (omega arith)
  first_pass (suc k) left m pre (s ∷ ss) out ek en es =
      let len = length-append {0} pre (s ∷ []) in
      let e : length (pre ++ (s ∷ [])) ≡ length pre + 1 = omega (arith, len) in
      first_round k left m pre s ss out (omega arith) es (λ m out es.
        rw (← snoc pre s ss, ← e)
          (first_pass k left m (pre ++ (s ∷ [])) ss out (omega arith) (omega (arith, len)) es))

  -- What the rest of the second pass makes of the servers `suf`.
  abbrev after_second : ℕ → List AltServer → List AltServer → List Host → List AltServer × List Host
  after_second m pre suf out =
      (pre ++ lower_first c m suf, out ++ take m (hosts_of (retried c) suf))

  abbrev tried : AltServer → AltServer
  tried s = if c.emergency then s else lower_fails s

  visit_retried :
      (pre : List AltServer) (s : AltServer) (ss : List AltServer) (out : List Host) (at : ℕ)
      → at ≡ length pre
      → visit size at (pre ++ (s ∷ ss)) out s (if c.emergency then kept else lowered)
        ≡ (pre ++ (tried s ∷ ss), out ++ (s.host ∷ []), leb size (length out + 1))
  unfolding visit
  visit_retried pre s ss out at e = go c.emergency
    where
      go :
          (b : Bool)
          → visit size at (pre ++ (s ∷ ss)) out s (if b then kept else lowered) ≡ (
            pre ++ ((if b then s else lower_fails s) ∷ ss),
            out ++ (s.host ∷ []),
            leb size (length out + 1),
          )
      go true = refl
      go false = rw (e, set-append pre s (lower_fails s) ss) refl

  -- A round of the second pass, where the rounds after it are known.
  second_round :
      (k m : ℕ) (pre : List AltServer) (s : AltServer) (ss : List AltServer) (out : List Host)
      → length pre < n
      → size ≡ length out + suc m
      → ((m : ℕ) (t : AltServer) (out : List Host)
          → size ≡ length out + suc m
          → ask_all c n size k (n + length pre + 1) (pre ++ (t ∷ ss)) out
            ≡ after_second (suc m) (pre ++ (t ∷ [])) ss out)
      → ask_all c n size (suc k) (n + length pre) (pre ++ (s ∷ ss)) out
        ≡ after_second (suc m) pre (s ∷ ss) out
  unfolding hosts_of lower_first visit ask_all
  second_round k m pre s ss out inside es ih =
      let i = n + length pre in
      let test : ltb i n ≡ false = ground arith in
      let here : i % n ≡ length pre = add-mod_left n (length pre) ∙ mod-eq_of_lt inside in
      let at = at_round pre s ss i here in
      let servers = pre ++ (s ∷ ss) in
      elim (Bool-cases (retried c s)) [
        | inl t ↦
            let v : judge c (ltb i n) s ≡ (if c.emergency then kept else lowered) =
              rw test (judge_second c s ∙ rw t refl) in
            round_lem k i servers out s _ at v
            ∙ ap (continue k (i + 1)) (visit_retried pre s ss out (i % n) here)
            ∙ rw (t, hosts_of, lower_first) (chosen m es)
        | inr f ↦
            let v : judge c (ltb i n) s ≡ skipped = rw test (judge_second c s ∙ rw f refl) in
            round_lem k i servers out s skipped at v
            ∙ rw (f, hosts_of, lower_first, ← snoc pre s (lower_first c (suc m) ss)) (ih m s out es)
      ]
    where
      chosen :
          (m : ℕ)
          → size ≡ length out + suc m
          → continue k
              (n + length pre + 1)
              (pre ++ (tried s ∷ ss), out ++ (s.host ∷ []), leb size (length out + 1))
            ≡ (
              pre ++ (tried s ∷ lower_first c m ss),
              out ++ (s.host ∷ take m (hosts_of (retried c) ss)),
            )
      chosen zero e =
          let full : leb size (length out + 1) ≡ true = ground arith in
          rw (full, lower_first-zero c ss) refl
      chosen (suc m) e =
          let room : leb size (length out + 1) ≡ false = ground arith in
          rw
            (
              room,
              ← snoc out s.host (take (suc m) (hosts_of (retried c) ss)),
              ← snoc pre (tried s) (lower_first c (suc m) ss),
            )
            (ih m (tried s) (out ++ (s.host ∷ []))
              (omega (arith, length-append {0} out (s.host ∷ []))))

  -- The second pass, from the servers `suf` on.
  pub second_pass :
      (k m : ℕ) (pre suf : List AltServer) (out : List Host)
      → k ≡ length suf
      → n ≡ length pre + length suf
      → size ≡ length out + suc m
      → ask_all c n size k (n + length pre) (pre ++ suf) out ≡ after_second (suc m) pre suf out
  unfolding hosts_of lower_first ask_all
  second_pass (suc k) m pre [] out ek en es = absurd (omega arith)
  second_pass zero m pre [] out ek en es = rw (append_nil out) refl
  second_pass zero m pre (s ∷ ss) out ek en es = absurd (omega arith)
  second_pass (suc k) m pre (s ∷ ss) out ek en es =
      second_round k m pre s ss out (omega arith) es (λ m t out es.
        let len = length-append {0} pre (t ∷ []) in
        let e : n + length (pre ++ (t ∷ [])) ≡ n + length pre + 1 = omega (arith, len) in
        rw (← snoc pre t ss, ← e)
          (second_pass k m (pre ++ (t ∷ [])) ss out (omega arith) (omega (arith, len)) es))
