-- ===== src/Prelude/Maps.antt =====
-- Functions from numbers, changed at one place.
use Prim.Native.Nat.{ℕ}
use mathlib.Core.Path.{◌≡◌, refl}
use mathlib.Core.Logic.{◌≢◌}
use mathlib.Core.Bool.{true, false}
use native.Mathlib.Omega.{arith}
use dnbd3_fuse_lowlevel.Prelude.Tests.{◌==◌, if◌then◌else◌}

abbrev pub update : {A : Type 0} → (ℕ → A) → ℕ → A → ℕ → A
update f u v = λ x. if x == u then v else f x

pub update_self : {A : Type 0} (f : ℕ → A) (u : ℕ) (v : A) → update f u v u ≡ v
update_self f u v = let test : (u == u) ≡ true = ground arith in rw test refl

pub update_other : {A : Type 0} (f : ℕ → A) (u : ℕ) (v : A) (x : ℕ) → x ≢ u → update f u v x ≡ f x
update_other f u v x h = let test : (x == u) ≡ false = ground (arith, h) in rw test refl
