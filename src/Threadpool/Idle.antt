-- ===== src/Threadpool/Idle.antt =====
-- src/server/threadpool.c: jobs and idle entries of a list of workers.
use dnbd3_fuse_lowlevel.Prelude.{
  ℕ, zero, suc, ◌+◌, ◌≡◌, ◌≢◌, List, [], ◌∷◌, ◌++◌, Option, none, some, Bool, true, false, not,
  ◌&&◌, ◌||◌, ◌==◌, if◌then◌else◌, get_elem?, set, elem, get_elem?-set_ne, get_elem?-lt,
  get_elem?-append_ne, arith, refl, ap, ◌∙◌, sym, Bool-cases, inl, inr,
}
use dnbd3_fuse_lowlevel.Threadpool.{Worker, is_some}

-- How often a job is in a list, or given to workers.
abbrev pub given : ℕ → Worker → ℕ
given job w = elim w.job [ none ↦ 0 | some j ↦ if j == job then 1 else 0 ]

abbrev pub waiting : ℕ → List Worker → ℕ
waiting job [] = 0
waiting job (w ∷ ws) = given job w + waiting job ws

pub waiting-set :
    (job : ℕ) (ws : List Worker) (e : ℕ) (w w' : Worker)
    → get_elem? ws e ≡ some w
    → waiting job (set ws e w') + given job w ≡ waiting job ws + given job w'
waiting-set job [] e w w' at = cc
waiting-set job (x ∷ xs) zero w w' at =
    let same : given job x ≡ given job w = ground (arith, at) in omega arith
waiting-set job (x ∷ xs) (suc e) w w' at = omega (arith, waiting-set job xs e w w' at)

pub waiting-append :
    (job : ℕ) (ws : List Worker) (w : Worker)
    → waiting job (ws ++ (w ∷ [])) ≡ waiting job ws + given job w
waiting-append job [] w = omega arith
waiting-append job (x ∷ xs) w = omega (arith, waiting-append job xs w)

-- A worker with a job is signalled and has not ended.
abbrev pub is_due : Worker → Bool
is_due w = not (is_some w.job) || (w.signalled && not w.ended)

abbrev pub AllDue : List Worker → Type 0
AllDue [] = Unit {0}
AllDue (w ∷ ws) = (is_due w ≡ true) × AllDue ws

pub AllDue-set :
    (ws : List Worker) (e : ℕ) (w : Worker) → AllDue ws → is_due w ≡ true → AllDue (set ws e w)
AllDue-set [] e w d ok = tt
AllDue-set (x ∷ xs) zero w d ok = (ok, d.1)
AllDue-set (x ∷ xs) (suc e) w d ok = (d.0, AllDue-set xs e w d.1 ok)

pub AllDue-append :
    (ws : List Worker) (w : Worker) → AllDue ws → is_due w ≡ true → AllDue (ws ++ (w ∷ []))
AllDue-append [] w d ok = (ok, tt)
AllDue-append (x ∷ xs) w d ok = (d.0, AllDue-append xs w d.1 ok)

-- The entries of the pool wait without a job, and each is there once.
abbrev pub IsIdle : List Worker → ℕ → Type 0
IsIdle ws e = get_elem? ws e ≡ some (record { job = none; signalled = false; ended = false })

abbrev pub AllIdle : List Worker → List ℕ → Type 0
AllIdle ws [] = Unit {0}
AllIdle ws (e ∷ es) = IsIdle ws e × (elem e es ≡ false) × AllIdle ws es

pub AllIdle-set :
    (ws : List Worker) (e : ℕ) (w : Worker) (es : List ℕ)
    → elem e es ≡ false
    → AllIdle ws es
    → AllIdle (set ws e w) es
AllIdle-set ws e w [] out i = tt
AllIdle-set ws e w (x ∷ xs) out (idle, single, i) =
    let ne : e ≢ x = ground arith in
    (
      get_elem?-set_ne ws {i = e} {j = x} w ne ∙ idle,
      single,
      AllIdle-set ws e w xs (ground arith) i,
    )

pub AllIdle-append :
    (ws : List Worker) (w : Worker) (es : List ℕ) → AllIdle ws es → AllIdle (ws ++ (w ∷ [])) es
AllIdle-append ws w [] i = tt
AllIdle-append ws w (x ∷ xs) (idle, single, i) =
    let lt = get_elem?-lt ws x _ idle in
    (get_elem?-append_ne ws x w (λ e. omega arith) ∙ idle, single, AllIdle-append ws w xs i)

abbrev is_signalled : Option Worker → Bool
is_signalled none = false
is_signalled (some w) = w.signalled

pub signalled-outside :
    (ws : List Worker) (e : ℕ) (w : Worker) (es : List ℕ)
    → get_elem? ws e ≡ some w
    → w.signalled ≡ true
    → AllIdle ws es
    → elem e es ≡ false
signalled-outside ws e w [] at s i = refl
signalled-outside ws e w (x ∷ xs) at s (idle, single, i) =
    let rest = signalled-outside ws e w xs at s i in
    elim (Bool-cases (e == x)) [
      | inl t ↦
          (let same : e ≡ x = ground arith in
            let off : w.signalled ≡ false =
              ap is_signalled (sym at ∙ ap (get_elem? ws) same ∙ idle) in
            absurd (ground (arith, off, s)))
      | inr f ↦ ground (arith, rest, f)
    ]
