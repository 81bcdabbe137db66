-- ===== src/Uplink/Replication/Next.antt =====
-- src/server/uplink.c: what `uplink_findNextIncompleteHashBlock` finds.
use dnbd3_fuse_lowlevel.Prelude.{
  ℕ, zero, suc, ◌+◌, ◌/◌, ◌%◌, ◌≤◌, ◌<◌, ◌≡◌, List, Option, none, some, Bool, true, false, not,
  ◌&&◌, ◌||◌, ◌==◌, if◌then◌else◌, get_or, arith, refl, ap, ◌∙◌, ◌⊎◌, inl, inr, Bool-cases,
}
use native.Mathlib.Nat.{mod-lt, suc-mod, mod-eq_of_lt, mod_self}
use native.Mathlib.Decide.{ℕ_discrete}
use dnbd3_fuse_lowlevel.Image.{map_bytes}
use dnbd3_fuse_lowlevel.Uplink.{is_none}
use dnbd3_fuse_lowlevel.Uplink.Replication.{
  hash_start, is_full_byte, is_empty_byte, or_else, next_loop, find_next_incomplete_hash_block,
}

-- The index after `i` in the map, which starts again at its end.
cyclic_next :
    (a len : ℕ)
    → 0 < len
    → ((a + 1) % len ≡ 0) ⊎ (((a + 1) % len ≡ a % len + 1) × (a % len + 1 < len))
cyclic_next a len pos =
    let step : (a + 1) % len ≡ suc (a % len) % len =
      ap (λ x. x % len) (omega arith) ∙ suc-mod a len in
    let below = mod-lt a pos in
    elim (ℕ_discrete (suc (a % len)) len) [
      | yes e ↦ inl (step ∙ ap (λ x. x % len) e ∙ mod_self len)
      | no ne ↦
          (let room : suc (a % len) < len = omega arith in
            inr (step ∙ mod-eq_of_lt room ∙ omega arith, omega arith))
    ]

module _ (map : List ℕ) (len : ℕ) (replicated : Bool) where
  -- A byte of the map that is not full. Its hash block has a byte that is not empty or counts as
  -- full too, or a hash block begins with a byte that is neither.
  pub record Incomplete (i : ℕ) : Type 0 where
    pub inside : i < len
    pub missing : (get_or map i 0 == 0xff) ≡ false
    pub other : ℕ
    pub other_inside : other < len
    pub mixed :
        ((other / 512 ≡ i / 512)
          × ((is_empty_byte map other ≡ false) ⊎ (is_full_byte map len replicated other ≡ true)))
        ⊎ (((hash_start other == other) ≡ true)
            × ((is_empty_byte map other || is_full_byte map len replicated other) ≡ false))

  -- What is known at the byte `i`: a full byte before it in its hash block, or an empty one.
  abbrev Known : ℕ → Option ℕ → Type 0
  Known i none =
      ((k : ℕ) × (k < len) × (k / 512 ≡ i / 512) × (is_full_byte map len replicated k ≡ true))
      ⊎ ((hash_start i == i) ≡ true)
  Known i (some r) =
      (r < len)
      × (is_empty_byte map r ≡ true)
      × ((r / 512 ≡ i / 512) ⊎ ((hash_start i == i) ≡ true))

  -- What is known after it.
  abbrev Seen : ℕ → Option ℕ → Type 0
  Seen i none =
      (k : ℕ) × (k < len) × (k / 512 ≡ i / 512) × (is_full_byte map len replicated k ≡ true)
  Seen i (some r) = (r < len) × (is_empty_byte map r ≡ true) × (r / 512 ≡ i / 512)

  abbrev pub Result : Option ℕ → Type 0
  Result none = Unit {0}
  Result (some i) = Incomplete i

  Seen-Known :
      (i j : ℕ) (retval : Option ℕ)
      → (j / 512 ≡ i / 512) ⊎ ((hash_start j == j) ≡ true)
      → Seen i retval
      → Known j retval
  Seen-Known i j none (inl same) (k, lt, near, f) = inl (k, lt, omega arith, f)
  Seen-Known i j none (inr t) s = inr t
  Seen-Known i j (some r) (inl same) (lt, gap, near) = (lt, gap, inl (omega arith))
  Seen-Known i j (some r) (inr t) (lt, gap, near) = (lt, gap, inr t)

  Seen-next :
      (a : ℕ) (retval : Option ℕ) → 0 < len → Seen (a % len) retval → Known ((a + 1) % len) retval
  Seen-next a retval pos seen = Seen-Known (a % len) _ retval near seen
    where
      near :
          ((a + 1) % len / 512 ≡ a % len / 512)
          ⊎ ((hash_start ((a + 1) % len) == (a + 1) % len) ≡ true)
      near = elim (cyclic_next a len pos) [
        | inl z ↦ inr (ground (arith, z))
        | inr (e, room) ↦ elim (Bool-cases (hash_start (a % len + 1) == a % len + 1)) [
          | inl t ↦ inr (rw e t)
          | inr f ↦ inl (rw e (ground (arith, f)))
        ]
      ]

  -- The state after a byte at the start of a hash block, and after one that is not.
  Seen-crossed :
      (i : ℕ)
      → i < len
      → (not (is_empty_byte map i) && not (is_full_byte map len replicated i)) ≡ false
      → Seen i (if is_empty_byte map i then some i else none)
  Seen-crossed i small stays = elim (Bool-cases (is_empty_byte map i)) [
    | inl t ↦ rw t (small, t, refl)
    | inr f ↦ rw f (i, small, refl, ground (arith, f))
  ]

  Known-Seen :
      (i : ℕ) (retval : Option ℕ) → (hash_start i == i) ≡ false → Known i retval → Seen i retval
  Known-Seen i none f (inl k) = k
  Known-Seen i none f (inr t) = absurd (ground (arith, f, t))
  Known-Seen i (some r) f (lt, gap, inl near) = (lt, gap, near)
  Known-Seen i (some r) f (lt, gap, inr t) = absurd (ground (arith, f, t))

  -- The loop ends at a byte that is neither full nor empty.
  or_else-Result :
      (i : ℕ) (retval : Option ℕ)
      → i < len
      → Known i retval
      → (not (is_empty_byte map i) && not (is_full_byte map len replicated i)) ≡ true
      → Result (or_else retval i)
  or_else-Result i none small k m = record {
    inside = small;
    missing = ground arith;
    other = i;
    other_inside = small;
    mixed = inl (refl, inl (ground arith));
  }
  or_else-Result i (some r) small (lt, gap, near) m = record {
    inside = lt;
    missing = ground arith;
    other = i;
    other_inside = small;
    mixed = elim near [
      | inl same ↦ inl (omega arith, inl (ground arith))
      | inr t ↦ inr (t, ground arith)
    ];
  }

  -- It ends at a full byte with an empty one before it, or at an empty byte with a full one.
  full-Result :
      (i r : ℕ)
      → i < len
      → Seen i (some r)
      → is_full_byte map len replicated i ≡ true
      → Incomplete r
  full-Result i r small (lt, gap, near) full = record {
    inside = lt;
    missing = ground arith;
    other = i;
    other_inside = small;
    mixed = inl (omega arith, inr full);
  }

  empty-Result :
      (i : ℕ) → i < len → Seen i none → is_full_byte map len replicated i ≡ false → Incomplete i
  empty-Result i small (k, lt, near, full) gap = record {
    inside = small;
    missing = ground arith;
    other = k;
    other_inside = lt;
    mixed = inl (near, inr full);
  }

  at_full :
      (i : ℕ) (retval rest : Option ℕ)
      → i < len
      → is_full_byte map len replicated i ≡ true
      → Seen i retval
      → (Seen i retval → Result rest)
      → Result (if is_none retval then rest else retval)
  at_full i none rest small full s go = go s
  at_full i (some r) rest small full s go = full-Result i r small s full

  at_gap :
      (i : ℕ) (retval rest : Option ℕ)
      → i < len
      → is_full_byte map len replicated i ≡ false
      → Seen i retval
      → (Seen i retval → Result rest)
      → Result (if is_none retval then some i else rest)
  at_gap i none rest small gap s go = empty-Result i small s gap
  at_gap i (some r) rest small gap s go = go s

  next_loop-Result :
      (n j start : ℕ) (retval : Option ℕ)
      → 0 < len
      → Known ((start + j) % len) retval
      → Result (next_loop n j start len replicated map retval)
  unfolding next_loop
  next_loop-Result zero j start retval pos k = tt
  next_loop-Result (suc n) j start retval pos k =
      let i = (start + j) % len in
      let small = mod-lt (start + j) pos in
      let go : (r : Option ℕ) → Seen i r → Result (next_loop n (j + 1) start len replicated map r) =
        λ r s.
          let shift : start + (j + 1) ≡ start + j + 1 = omega arith in
          let known : Known ((start + (j + 1)) % len) r =
            rw shift (Seen-next (start + j) r pos s) in
          next_loop-Result n (j + 1) start r pos known in
      elim (Bool-cases (not (is_empty_byte map i) && not (is_full_byte map len replicated i))) [
        | inl t ↦ rw t (or_else-Result i retval small k t)
        | inr f ↦ elim (Bool-cases (hash_start i == i)) [
          | inl c ↦ rw (f, c) (go _ (Seen-crossed i small f))
          | inr c ↦
              (let s = Known-Seen i retval c k in
                elim (Bool-cases (is_full_byte map len replicated i)) [
                  | inl full ↦ rw (f, c, full) (at_full i retval _ small full s (go retval))
                  | inr gap ↦ rw (f, c, gap) (at_gap i retval _ small gap s (go retval))
                ])
        ]
      ]

-- What `uplink_findNextIncompleteHashBlock` finds, for an image with a cache map and a start inside
-- the map or at its end, is a byte of the map that is not full; its hash block has a byte that is
-- not empty or counts as full too, or else some hash block begins with a byte that is neither empty
-- nor full.
pub find_next_incomplete_hash_block_lem :
    (map : List ℕ) (size : ℕ) (replicated : Bool) (index : ℕ)
    → 0 < map_bytes size
    → index ≤ map_bytes size
    → Result map
        (map_bytes size)
        replicated
        (find_next_incomplete_hash_block (some map) size replicated index)
unfolding find_next_incomplete_hash_block
find_next_incomplete_hash_block_lem map size replicated index pos le =
    next_loop-Result map (map_bytes size) replicated (map_bytes size) 0 (hash_start index) none pos
      (inr aligned)
  where
    aligned :
        (hash_start ((hash_start index + 0) % map_bytes size)
          == (hash_start index + 0) % map_bytes size)
        ≡ true
    aligned = elim (ℕ_discrete (hash_start index) (map_bytes size)) [
      | yes e ↦
          (let z : (hash_start index + 0) % map_bytes size ≡ 0 =
              ap (λ x. x % map_bytes size) {y = map_bytes size} (omega (arith, e))
              ∙ mod_self (map_bytes size) in
            rw z refl)
      | no ne ↦
          (let same : (hash_start index + 0) % map_bytes size ≡ hash_start index =
              ap (λ x. x % map_bytes size) {y = hash_start index} (omega arith)
              ∙ mod-eq_of_lt (omega arith) in
            rw same (ground arith))
    ]
