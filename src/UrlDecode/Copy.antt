-- ===== src/UrlDecode/Copy.antt =====
-- src/server/urldecode.c: the loops over a name and a value copy in place what they mean to.
use dnbd3_fuse_lowlevel.Prelude.{
  ◌∙◌, ℕ, zero, suc, ◌+◌, ◌≤◌, ◌<◌, ◌≡◌, List, [], ◌∷◌, some, true, false, ltb, ◌==◌, length, arith,
  refl, Bool-cases, inl, inr,
}
use mathlib.Core.Path.{subst}
use dnbd3_fuse_lowlevel.Prelude.Maps.{update, update_self, update_other}
use dnbd3_fuse_lowlevel.UrlDecode.{Memory, hex2int, escape, copy_name}
use dnbd3_fuse_lowlevel.UrlDecode.Strings.{before, Holds, bytes}

pub Holds-frame :
    (m m' : Memory) (s : ℕ) (xs : List ℕ)
    → ((k : ℕ) → s ≤ k → m' k ≡ m k)
    → Holds m s xs
    → Holds m' s xs
unfolding Holds
Holds-frame m m' s [] same h = h
Holds-frame m m' s (x ∷ xs) same (here, h) = (
  same s (omega arith) ∙ here,
  Holds-frame m m' (s + 1) xs (λ k le. same k (omega (arith, le))) h,
)

pub bytes-frame :
    (m m' : Memory) (s n : ℕ)
    → ((k : ℕ) → s ≤ k → k < s + n → m' k ≡ m k)
    → bytes m' s n ≡ bytes m s n
unfolding bytes
bytes-frame m m' s zero same = refl
bytes-frame m m' s (suc n) same =
    rw
      (
        same s (omega arith) (omega arith),
        bytes-frame m m' (s + 1) n (λ k le lt. same k (omega (arith, le)) (omega (arith, lt))),
      )
      refl

-- `eaten` bytes were read from `src` and `out` was written to `dst`; the bytes before that and those
-- not yet read are as before.
pub record Copied (m : Memory) (src dst : ℕ) (out : List ℕ) (eaten : ℕ) (r : Memory × ℕ × ℕ)
    : Type 0 where
  pub written : bytes r.0 dst (length out) ≡ out
  pub read : r.1 ≡ src + eaten
  pub to : r.2 ≡ dst + length out
  pub fits : length out ≤ eaten
  pub old : (k : ℕ) → k < dst → r.0 k ≡ m k
  pub ahead : (k : ℕ) → src + eaten ≤ k → r.0 k ≡ m k

pub Copied-nil : (m : Memory) (src dst : ℕ) → Copied m src dst [] 0 (m, src, dst)
unfolding bytes
Copied-nil m src dst = record {
  written = refl;
  read = omega arith;
  to = omega arith;
  fits = omega arith;
  old = λ k lt. refl;
  ahead = λ k le. refl;
}

-- A byte is written for `t` bytes that are read.
pub Copied-cons :
    (m : Memory) (src dst v t : ℕ) (out : List ℕ) (eaten : ℕ) (r : Memory × ℕ × ℕ)
    → dst ≤ src
    → 0 < t
    → Copied (update m dst v) (src + t) (dst + 1) out eaten r
    → Copied m src dst (v ∷ out) (eaten + t) r
unfolding bytes
Copied-cons m src dst v t out eaten r le pos h = record {
  written = rw (h.old dst (omega arith) ∙ update_self m dst v, h.written) refl;
  read = omega (arith, h.read);
  to = omega (arith, h.to);
  fits = omega (arith, h.fits, pos);
  old = λ k lt.
      h.old k (omega (arith, lt)) ∙ update_other m dst v k (λ e. absurd (omega (arith, e, lt)));
  ahead = λ k ge.
      h.ahead k (omega (arith, ge))
      ∙ update_other m dst v k (λ e. absurd (omega (arith, e, ge, le, pos)));
}

pub update-Holds :
    (m : Memory) (dst v s : ℕ) (xs : List ℕ) → dst < s → Holds m s xs → Holds (update m dst v) s xs
update-Holds m dst v s xs lt h =
    Holds-frame m (update m dst v) s xs
      (λ k le. update_other m dst v k (λ e. absurd (omega (arith, e, lt, le)))) h

pub copy_name-Copied :
    (n : ℕ) (m : Memory) (src dst end : ℕ) (xs : List ℕ)
    → dst ≤ src
    → length xs ≤ n
    → end ≡ src + length xs
    → Holds m src xs
    → Copied m src dst (before 61 xs) (length (before 61 xs)) (copy_name n m src dst end)
unfolding copy_name before Holds
copy_name-Copied zero m src dst end [] le enough e h = Copied-nil m src dst
copy_name-Copied (suc n) m src dst end [] le enough e h =
    let test : ltb src end ≡ false = ground (arith, e) in
    rw (test, copy_name) (Copied-nil m src dst)
copy_name-Copied zero m src dst end (x ∷ xs) le enough e h = absurd (omega (arith, enough))
copy_name-Copied (suc n) m src dst end (x ∷ xs) le enough e (here, h) =
    let test : ltb src end ≡ true = ground (arith, e) in
    elim (Bool-cases (x == 61)) [
      | inl t ↦ rw (here, test, t, copy_name) (Copied-nil m src dst)
      | inr f ↦
          let rest =
            copy_name-Copied n (update m dst x) (src + 1) (dst + 1) end xs (omega (arith, le))
              (omega (arith, enough)) (omega (arith, e))
              (update-Holds m dst x (src + 1) xs (omega (arith, le)) h) in
          let more =
            Copied-cons m src dst x 1 (before 61 xs) (length (before 61 xs)) _ le (omega arith)
              rest in
          let count : length (before 61 xs) + 1 ≡ suc (length (before 61 xs)) = omega arith in
          rw (here, test, f, copy_name)
            (subst
              (λ z.
                Copied m src dst (x ∷ before 61 xs) z
                  (copy_name n (update m dst x) (src + 1) (dst + 1) end))
              count more)
    ]

-- An ampersand is no digit.
pub escape-some : (a b v : ℕ) → escape a b ≡ some v → ((a == 38) ≡ false) × ((b == 38) ≡ false)
unfolding escape hex2int
escape-some a b v e = (ground (arith, e), ground (arith, e))
