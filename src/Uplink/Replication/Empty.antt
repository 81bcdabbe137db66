-- ===== src/Uplink/Replication/Empty.antt =====
-- src/server/uplink.c: `uplink_findNextIncompleteHashBlock` at an empty hash block.
use dnbd3_fuse_lowlevel.Prelude.{
  ℕ, zero, suc, ◌+◌, ◌%◌, ◌≤◌, ◌<◌, ◌≡◌, List, none, some, Bool, true, false, not, ◌&&◌, ◌==◌,
  get_or, arith, refl, ap, ◌∙◌, inl, inr, Bool-cases,
}
use native.Mathlib.Nat.{mod-eq_of_lt}
use native.Mathlib.Decide.{ℕ_discrete}
use dnbd3_fuse_lowlevel.Image.{map_bytes}
use dnbd3_fuse_lowlevel.Uplink.Replication.{
  hash_start, is_full_byte, is_empty_byte, next_loop, find_next_incomplete_hash_block,
}

module _ (map : List ℕ) (len s : ℕ) (replicated : Bool) where
  -- From a byte of an empty hash block on, the loop runs into the next hash block and breaks there.
  next_loop-empty :
      (n j : ℕ)
      → 0 < j
      → j ≤ 512
      → 513 ≤ n + j
      → s + 512 < len
      → s % 512 ≡ 0
      → ((k : ℕ) → k < 512 → get_or map (s + k) 0 ≡ 0)
      → (not (is_empty_byte map (s + 512)) && not (is_full_byte map len replicated (s + 512)))
        ≡ true
      → next_loop n j s len replicated map (some s) ≡ some s
  unfolding next_loop
  next_loop-empty zero j pos le fuel room start gap next = absurd (omega arith)
  next_loop-empty (suc n) j pos le fuel room start gap next =
      let same : (s + j) % len ≡ s + j = mod-eq_of_lt (omega arith) in
      elim (ℕ_discrete j 512) [
        | yes e ↦
            (let test : (not (is_empty_byte map ((s + j) % len))
                    && not (is_full_byte map len replicated ((s + j) % len)))
                  ≡ true =
                rw (same, e) next in
              rw test refl)
        | no ne ↦
            (let empty : is_empty_byte map ((s + j) % len) ≡ true =
                rw (same, gap j (omega arith)) refl in
              let inner : (hash_start ((s + j) % len) == (s + j) % len) ≡ false =
                rw same (ground arith) in
              let rest =
                next_loop-empty n (j + 1) (omega arith) (omega arith) (omega arith) room start gap
                  next in
              elim (Bool-cases (is_full_byte map len replicated ((s + j) % len))) [
                | inl full ↦ rw (empty, inner, full) refl
                | inr part ↦ rw (empty, inner, part) rest
              ])
      ]

  next_loop-first :
      (n : ℕ)
      → 513 ≤ n
      → s + 512 < len
      → s % 512 ≡ 0
      → ((k : ℕ) → k < 512 → get_or map (s + k) 0 ≡ 0)
      → (not (is_empty_byte map (s + 512)) && not (is_full_byte map len replicated (s + 512)))
        ≡ true
      → next_loop n 0 s len replicated map none ≡ some s
  unfolding next_loop
  next_loop-first zero fuel room start gap next = absurd (omega arith)
  next_loop-first (suc n) fuel room start gap next =
      let same : (s + 0) % len ≡ s =
        ap (λ x. x % len) {y = s} (omega arith) ∙ mod-eq_of_lt (omega arith) in
      let none_there : get_or map s 0 ≡ 0 =
        ap (λ x. get_or map x 0) {y = s + 0} (omega arith) ∙ gap 0 (omega arith) in
      let empty : is_empty_byte map ((s + 0) % len) ≡ true = rw (same, none_there) refl in
      let aligned : (hash_start ((s + 0) % len) == (s + 0) % len) ≡ true = rw same (ground arith) in
      rw (empty, aligned, same)
        (next_loop-empty n 1 (omega arith) (omega arith) (omega arith) room start gap next)

-- At the start of a hash block with no byte cached, where the next hash block follows and begins
-- with a byte that is neither empty nor full, `uplink_findNextIncompleteHashBlock` gives the empty
-- hash block.
pub find_next_incomplete_hash_block_empty :
    (map : List ℕ) (size s : ℕ) (replicated : Bool)
    → s % 512 ≡ 0
    → s + 512 < map_bytes size
    → ((k : ℕ) → k < 512 → get_or map (s + k) 0 ≡ 0)
    → (not (is_empty_byte map (s + 512))
        && not (is_full_byte map (map_bytes size) replicated (s + 512)))
      ≡ true
    → find_next_incomplete_hash_block (some map) size replicated s ≡ some s
unfolding find_next_incomplete_hash_block
find_next_incomplete_hash_block_empty map size s replicated start room gap next =
    let same : hash_start s ≡ s = omega arith in
    rw same (
      next_loop-first map (map_bytes size) s replicated (map_bytes size) (omega arith) room start
        gap next)
