-- ===== src/Uplink/Receive/Loop.antt =====
-- src/server/uplink.c: which bytes the loop of `pwrite` stores.
use dnbd3_fuse_lowlevel.Prelude.{
  ℕ, ◌+◌, ◌-◌, ◌≤◌, ◌≡◌, List, [], ◌∷◌, Bool, false, not, ◌&&◌, ◌||◌, ltb, leb, ◌==◌, arith,
  Bool-cases, if_cases, inl, inr,
}
use dnbd3_fuse_lowlevel.Uplink.Receive.{
  Write, wrote, interrupted, failed, no_space, bad_file, store, write_loop,
}

-- After some bytes of a block are done, exactly those are written in addition.
pub record Wrote (start size done : ℕ) (stored : ℕ → Bool) (r : ℕ × (ℕ → Bool)) : Type 0 where
  pub from : done ≤ r.0
  pub within : r.0 ≤ size
  pub exact : (b : ℕ) → r.1 b ≡ (stored b || (leb (start + done) b && ltb b (start + r.0)))

Wrote-stop :
    (start size done : ℕ) (stored : ℕ → Bool)
    → done ≤ size
    → Wrote start size done stored (done, stored)
Wrote-stop start size done stored le = record {
  from = omega arith;
  within = le;
  exact = λ b. ground arith;
}

pub write_loop-Wrote :
    (start size : ℕ) (try_again : Bool) (done : ℕ) (stored : ℕ → Bool) (ws : List Write)
    → done ≤ size
    → Wrote start size done stored (write_loop start size try_again done stored ws)
unfolding write_loop
write_loop-Wrote start size try_again done stored [] le = Wrote-stop start size done stored le
write_loop-Wrote start size try_again done stored (interrupted ∷ ws) le =
    if_cases (Wrote start size done stored) (not (ltb done size)) _ _
      (Wrote-stop start size done stored le)
      (write_loop-Wrote start size try_again done stored ws le)
write_loop-Wrote start size try_again done stored (failed ∷ ws) le =
    Wrote-stop start size done stored le
write_loop-Wrote start size try_again done stored (no_space freed ∷ ws) le =
    if_cases (Wrote start size done stored) (not (ltb done size) || (not try_again || not freed)) _
      _ (Wrote-stop start size done stored le) (write_loop-Wrote start size false done stored ws le)
write_loop-Wrote start size try_again done stored (bad_file reopened ∷ ws) le =
    if_cases (Wrote start size done stored) (not (ltb done size) || (not try_again || not reopened))
      _ _ (Wrote-stop start size done stored le)
      (write_loop-Wrote start size false done stored ws le)
write_loop-Wrote start size try_again done stored (wrote n ∷ ws) le =
    elim (Bool-cases (not (ltb done size) || ((n == 0) || ltb (size - done) n))) [
      | inl t ↦ rw t (Wrote-stop start size done stored le)
      | inr f ↦ rw f (
          let more =
            write_loop-Wrote start size try_again (done + n) (store stored (start + done) n) ws
              (ground (arith, f)) in
          record {
            from = omega (arith, more.from);
            within = more.within;
            exact = λ b. ground (arith, more.exact b, more.from);
          })
    ]
