-- ===== src/AltServers/ForClient/Listed.antt =====
-- `altservers_getListForClient` gives the first servers of the ranking.
use dnbd3_fuse_lowlevel.Prelude.{
  ◌∙◌, ℕ, zero, suc, ◌+◌, ◌≤◌, ◌<◌, ◌≡◌, ◌≢◌, List, [], ◌∷◌, ◌++◌, map, Option, none, some, Bool,
  true, false, not, ◌&&◌, ◌||◌, ltb, ◌==◌, if◌then◌else◌, if_cases, set, get_or, take, length,
  length-map, length-take, arith, refl, ap, sym,
}
use dnbd3_fuse_lowlevel.Prelude.Ints.{ℤ, pos, leb_int}
use dnbd3_fuse_lowlevel.Host.{Host}
use dnbd3_fuse_lowlevel.AltServers.{AltServer, is_empty}
use dnbd3_fuse_lowlevel.AltServers.Hosts.{passing}
use dnbd3_fuse_lowlevel.AltServers.ForClient.{
  ServerEntry, to_entry, score, Listing, find_place, enter, enter_server, consider, consider_all,
  get_list_for_client,
}
use dnbd3_fuse_lowlevel.AltServers.ForClient.Arrays.{insert_at, take_nil, Holds, enter-Holds}
use dnbd3_fuse_lowlevel.AltServers.ForClient.Ranked.{
  public, insert, rank, Descending, rank-Descending, passing-rank, take-rank, take_idem,
}
use dnbd3_fuse_lowlevel.AltServers.ForClient.Places.{
  map-take, map-insert_at, get_or-append, at_index, Entered, find_place-Entered,
}

take_all : (n : ℕ) (ss : List AltServer) → length ss ≤ n → take n ss ≡ ss
take_all zero [] h = refl
take_all zero (s ∷ ss) h = absurd (omega arith)
take_all (suc n) [] h = refl
take_all (suc n) (s ∷ ss) h = ap (λ xs. s ∷ xs) (take_all n ss (omega arith))

take-length {ℓ} : {A : Type ℓ} (xs rest : List A) → take (length xs) (xs ++ rest) ≡ xs
take-length [] rest = refl
take-length (x ∷ xs) rest = ap (λ ys. x ∷ ys) (take-length xs rest)

module _ (host : Host) where
  length-insert :
      (x : AltServer) (ss : List AltServer) → length (insert host x ss) ≡ suc (length ss)
  unfolding insert
  length-insert x [] = refl
  length-insert x (y ∷ ys) =
      if_cases (λ (r : List AltServer). length r ≡ suc (suc (length ys)))
        (leb_int (score host x) (score host y)) (y ∷ insert host x ys) _
        (ap suc (length-insert x ys)) refl

  -- The arrays hold these servers and their scores.
  record Lists (size : ℕ) (l : Listing) (ss : List AltServer) : Type 0 where
    output : Holds size l.output (map to_entry ss)
    scores : Holds size l.scores (map (score host) ss)
    count : l.count ≡ length ss
    fits : length ss ≤ size

  score_at :
      (size : ℕ) (scores : List ℤ) (ss : List AltServer)
      → Holds size scores (map (score host) ss)
      → (i : ℕ) → i < length ss
      → get_or scores (0 + i) (pos 0) ≡ get_or (map (score host) ss) i (pos 0)
  score_at size scores ss (rest, e, long) i lt =
      let inside : i < length (map (score host) ss) = omega (arith, length-map ss (score host)) in
      at_index scores (omega arith)
      ∙ ap (λ xs. get_or xs i (pos 0)) e
      ∙ get_or-append (map (score host) ss) rest i (pos 0) inside

  -- Entering a value keeps what an array holds.
  enter-map {ℓ} :
      {A : Type ℓ} (f : AltServer → A) (size count q : ℕ) (x : AltServer) (arr : List A)
      (ss : List AltServer)
      → Holds size arr (map f ss)
      → count ≡ length ss
      → q ≤ length ss
      → length ss ≤ size
      → q < size
      → insert_at q x ss ≡ insert host x ss
      → Holds size (enter size count q (f x) arr) (map f (take size (insert host x ss)))
  enter-map f size count q x arr ss h e short fits lt same =
      let n : count ≡ length (map f ss) = omega (arith, length-map ss f) in
      let held =
        enter-Holds size q (f x) arr (map f ss) h (omega (arith, length-map ss f))
          (omega (arith, length-map ss f)) lt in
      rw (n, ← same, map-take f size (insert_at q x ss), map-insert_at f q x ss) held

  enter_server-Lists :
      (size q : ℕ) (x : AltServer) (l : Listing) (ss : List AltServer)
      → Lists size l ss
      → q ≤ length ss
      → q < size
      → insert_at q x ss ≡ insert host x ss
      → Lists size (enter_server size q (score host x) x l) (take size (insert host x ss))
  unfolding enter_server
  enter_server-Lists size q x l ss h short lt same = record {
    output = enter-map to_entry size l.count q x l.output ss h.output h.count short h.fits lt same;
    scores =
        enter-map (score host) size l.count q x l.scores ss h.scores h.count short h.fits lt same;
    count =
        ground (arith, h.count, h.fits, length-take size (insert host x ss), length-insert x ss);
    fits = omega (arith, length-take size (insert host x ss));
  }

  -- What one round of the loop makes of the best servers so far.
  abbrev better : ℕ → AltServer → List AltServer → List AltServer
  better size s ss = if public s then take size (insert host s ss) else ss

  Entered-Lists :
      (size : ℕ) (x : AltServer) (l : Listing) (ss : List AltServer)
      → Lists size l ss
      → (r : Option ℕ) → Entered host x size 0 ss r
      → Lists size
          (elim r [
            | none ↦ l
            | some j ↦ if ltb l.count j then l else enter_server size j (score host x) x l
          ])
          (take size (insert host x ss))
  Entered-Lists size x l ss h none e = rw e h
  Entered-Lists size x l ss h (some j) (q, at, lt, short, same) =
      let e : j ≡ q = omega arith in
      let test : ltb l.count q ≡ false = ground (arith, h.count) in
      rw (e, test) (enter_server-Lists size q x l ss h short lt same)

  set_first {ℓ} :
      {A : Type ℓ} (size : ℕ) (v : A) (arr : List A)
      → suc size ≤ length arr
      → Holds (suc size) (set arr 0 v) (v ∷ [])
  set_first size v [] long = absurd (omega arith)
  set_first size v (a ∷ as') long = (as', refl, long)

  first-Lists :
      (size : ℕ) (x : AltServer) (l : Listing)
      → 0 < size
      → Lists size l []
      → Lists size
          (record {
            output = set l.output 0 (to_entry x);
            scores = set l.scores 0 (score host x);
            count = 1;
          })
          (take size (insert host x []))
  unfolding insert
  first-Lists zero x l some_size h = absurd (omega arith)
  first-Lists (suc size) x l some_size h = rw (take_nil {A = AltServer} size) (record {
    output = set_first size (to_entry x) l.output h.output.2;
    scores = set_first size (score host x) l.scores h.scores.2;
    count = refl;
    fits = omega arith;
  })

  consider-Lists :
      (size : ℕ) (s : AltServer) (l : Listing) (ss : List AltServer)
      → 0 < size
      → Lists size l ss
      → Lists size (consider host size s l) (better size s ss)
  unfolding consider
  consider-Lists size s l ss some_size h = by_case (is_empty s) s.is_private
    where
      at_first :
          (ss : List AltServer)
          → (l.count == 0) ≡ true
          → Lists size l ss
          → Lists size
              (record {
                output = set l.output 0 (to_entry s);
                scores = set l.scores 0 (score host s);
                count = 1;
              })
              (take size (insert host s ss))
      at_first [] e k = first-Lists size s l some_size k
      at_first (t ∷ ts) e k = absurd (ground (arith, k.count))

      main :
          (none_yet : Bool)
          → (l.count == 0) ≡ none_yet
          → Lists size
              (if none_yet
                then record {
                  output = set l.output 0 (to_entry s);
                  scores = set l.scores 0 (score host s);
                  count = 1;
                }
                else (elim (find_place size (score host s) l.scores l.count 0) [
                  | none ↦ l
                  | some j ↦ if ltb l.count j then l else enter_server size j (score host s) s l
                ]))
              (take size (insert host s ss))
      main true e = at_first ss e h
      main false e =
          Entered-Lists size s l ss h (find_place size (score host s) l.scores l.count 0) (
            find_place-Entered host s size 0 l.count ss l.scores (omega (arith, h.count)) h.fits
              (score_at size l.scores ss h.scores))

      by_case :
          (empty private : Bool)
          → Lists size
              (if empty
                then l
                else if private
                then l
                else if l.count == 0
                then record {
                  output = set l.output 0 (to_entry s);
                  scores = set l.scores 0 (score host s);
                  count = 1;
                }
                else (elim (find_place size (score host s) l.scores l.count 0) [
                  | none ↦ l
                  | some j ↦ if ltb l.count j then l else enter_server size j (score host s) s l
                ]))
              (if not empty && not private then take size (insert host s ss) else ss)
      by_case true private = h
      by_case false true = h
      by_case false false = main (l.count == 0) refl

  consider_all-Lists :
      (size : ℕ) (servers : List AltServer) (l : Listing) (ss : List AltServer)
      → 0 < size
      → Lists size l ss
      → take size ss ≡ ss
      → Lists size (consider_all host size servers l) (take size (rank host ss servers))
  unfolding consider_all rank
  consider_all-Lists size [] l ss some_size h e = rw e h
  consider_all-Lists size (s ∷ servers) l ss some_size h e =
      let held =
        consider_all-Lists size servers (consider host size s l) (better size s ss) some_size
          (consider-Lists size s l ss some_size h) (cut (public s)) in
      rw (same (public s)) held
    where
      cut :
          (b : Bool)
          → take size (if b then take size (insert host s ss) else ss)
            ≡ (if b then take size (insert host s ss) else ss)
      cut true = take_idem size (insert host s ss)
      cut false = e

      same :
          (b : Bool)
          → take size (rank host (if b then insert host s ss else ss) servers)
            ≡ take size (rank host (if b then take size (insert host s ss) else ss) servers)
      same true = take-rank host size servers (insert host s ss)
      same false = refl

  length-rank :
      (servers ss : List AltServer) → length (rank host ss servers) ≤ length ss + length servers
  unfolding rank
  length-rank [] ss = omega arith
  length-rank (s ∷ servers) ss =
      if_cases
        (λ (r : List AltServer). length (rank host r servers) ≤ length ss + suc (length servers))
        (public s) (insert host s ss) ss
        (omega (arith, length-rank servers (insert host s ss), length-insert s ss))
        (omega (arith, length-rank servers ss))

  take_longer :
      (n m : ℕ) (ss : List AltServer)
      → length ss ≤ m
      → take (if ltb m n then m else n) ss ≡ take n ss
  take_longer n m ss short = go (ltb m n) refl
    where
      go : (b : Bool) → ltb m n ≡ b → take (if b then m else n) ss ≡ take n ss
      go true e = take_all m ss short ∙ sym (take_all n ss (ground arith))
      go false e = refl

  told :
      (size : ℕ) (l : Listing) (best : List AltServer)
      → Lists size l best
      → (l.count ≡ length best) × (take l.count l.output ≡ map to_entry best)
  told size l best h =
      let (rest, e, long) = h.output in
      let n : l.count ≡ length (map to_entry best) =
        omega (arith, h.count, length-map best to_entry) in
      (h.count, rw (n, e) (take-length (map to_entry best) rest))

  -- The servers that may be told: the public ones by score.
  abbrev pub ranking : List AltServer → List AltServer
  ranking servers = rank host [] servers

  passing-ranking :
      (servers : List AltServer) (p : AltServer → Bool)
      → passing p (ranking servers) ≡ passing (λ s. public s && p s) servers
  unfolding passing
  passing-ranking servers p = omega (arith, passing-rank host p servers [])

  -- `altservers_getListForClient` writes the first `size` servers of the ranking to the start of the
  -- output and returns their number, where the arrays have `size` places and the client an address;
  -- no server comes before one with a higher score, and the ranking is made of the servers in use
  -- that are not private.
  pub get_list_for_client-rank :
      (servers : List AltServer) (output : List ServerEntry) (scores : List ℤ) (size : ℕ)
      → host.type ≢ 0
      → size ≤ length output
      → size ≤ length scores
      → let (output', count) = get_list_for_client host servers output scores size in
        let best = take size (ranking servers) in
        (count ≡ length best)
        × (take count output' ≡ map to_entry best)
        × Descending host (ranking servers)
        × ((p : AltServer → Bool)
            → passing p (ranking servers) ≡ passing (λ s. public s && p s) servers)
  unfolding get_list_for_client rank
  get_list_for_client-rank servers output scores size typed room room' =
      let told_of = λ (r : List ServerEntry × ℕ).
        (r.1 ≡ length (take size (ranking servers)))
        × (take r.1 r.0 ≡ map to_entry (take size (ranking servers))) in
      let (count, entries) : told_of (get_list_for_client host servers output scores size) =
        go servers size room room' in
      (count, entries, rank-Descending host servers [] tt, λ p. passing-ranking servers p)
    where
      go :
          (servers : List AltServer) (size : ℕ)
          → size ≤ length output
          → size ≤ length scores
          → let (output', count) = get_list_for_client host servers output scores size in
            (count ≡ length (take size (ranking servers)))
            × (take count output' ≡ map to_entry (take size (ranking servers)))
      go [] size room room' =
          let test : (host.type == 0 || (length {A = AltServer} [] == 0 || size == 0)) ≡ true =
            ground arith in
          rw (test, take_nil {A = AltServer} size) (refl, refl)
      go (s ∷ ss) zero room room' =
          let test : (host.type == 0 || (length (s ∷ ss) == 0 || 0 == 0)) ≡ true = ground arith in
          rw test (refl, refl)
      go (s ∷ ss) (suc size) room room' =
          let test : (host.type == 0 || (length (s ∷ ss) == 0 || suc size == 0)) ≡ false =
            ground arith in
          let n : ℕ = if ltb (length (s ∷ ss)) (suc size) then length (s ∷ ss) else suc size in
          let l : Listing = record { output = output; scores = scores; count = 0 } in
          let cut =
            take_longer (suc size) (length (s ∷ ss)) (ranking (s ∷ ss))
              (omega (arith, length-rank (s ∷ ss) [])) in
          let some_size : 0 < n = ground arith in
          let fits : n ≤ suc size = ground arith in
          let start : Lists n l [] = record {
            output = (output, refl, omega arith);
            scores = (scores, refl, omega arith);
            count = refl;
            fits = omega arith;
          } in
          let held = told n _ _ (consider_all-Lists n (s ∷ ss) l [] some_size start (take_nil n)) in
          rw (test, ← cut) held
