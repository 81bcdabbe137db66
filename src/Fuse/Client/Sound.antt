-- ===== src/Fuse/Client/Sound.antt =====
-- What is true of the requests of the fuse client, and how entering one keeps it.
use dnbd3_fuse_lowlevel.Prelude.{
  ℕ, ◌+◌, ◌≤◌, ◌<◌, ◌≡◌, List, [], ◌∷◌, ◌++◌, Option, none, some, Bool, ◌&&◌, ◌==◌, if◌then◌else◌,
  if_cases, elem, arith, refl,
}
use dnbd3_fuse_lowlevel.Prelude.Counts.{count, count-append}
use dnbd3_fuse_lowlevel.Slots.{holds}
use dnbd3_fuse_lowlevel.Fuse.Chains.{Chain}
use dnbd3_fuse_lowlevel.Fuse.Queue.{IsList, enqueue_request-IsList}
use dnbd3_fuse_lowlevel.Fuse.Removal.{delete}
use dnbd3_fuse_lowlevel.Fuse.Client.{Connection, send_request, enter_request, fail}

-- The pending requests are `xs`, those to be entered again `ys`.
pub record IsSound (c : Connection) (xs ys : List ℕ) : Type 0 where
  pub list : IsList c.requests xs
  pub chain : Chain c.requests.next c.drained ys none
  pub apart : (a : ℕ) → count a xs + count a ys ≤ 1
  pub kept : (a : ℕ) → count a xs + count a ys + count a c.answered ≡ count a c.accepted
  pub once : (a : ℕ) → count a c.refused ≤ count a c.answered

pub Chain-frame :
    (f g : ℕ → Option ℕ) (h m : Option ℕ) (ys : List ℕ)
    → ((x : ℕ) → 0 < count x ys → g x ≡ f x)
    → Chain f h ys m
    → Chain g h ys m
Chain-frame f g h m [] same c = c
Chain-frame f g h m (y ∷ ys) same (e, c) = (
  e,
  rw (same y (ground arith))
      (Chain-frame f g (f y) m ys (λ x inside. same x (ground (arith, inside))) c),
)

-- What `IsSound` is about is the same.
abbrev pub Same : Connection → Connection → Type 0
Same c c' =
    (c'.requests ≡ c.requests)
    × (c'.drained ≡ c.drained)
    × (c'.answered ≡ c.answered)
    × (c'.accepted ≡ c.accepted)
    × (c'.refused ≡ c.refused)

pub Same-IsSound :
    (c c' : Connection) (xs ys : List ℕ) → Same c c' → IsSound c xs ys → IsSound c' xs ys
Same-IsSound c c' xs ys (r, d, w, a, f) h = record {
  list = rw r h.list;
  chain = rw (r, d) h.chain;
  apart = h.apart;
  kept = λ x. rw (w, a) (h.kept x);
  once = λ x. rw (w, f) (h.once x);
}

send_request-Same : (p : ℕ) (send_ok : Bool) (c : Connection) → Same c (send_request p send_ok c)
unfolding send_request
send_request-Same p send_ok c = go c.sock
  where
    go :
        (s : Option ℕ)
        → Same c (elim s [
          | none ↦ c
          | some fd ↦
              if send_ok then record c { sent = (fd, p) ∷ c.sent } else record c { sock = none }
        ])
    go none = (refl, refl, refl, refl, refl)
    go (some fd) =
        if_cases (Same c) send_ok (record c { sent = (fd, p) ∷ c.sent }) _
          (refl, refl, refl, refl, refl) (refl, refl, refl, refl, refl)

pub fail-Same : (fd : ℕ) (c : Connection) → Same c (fail fd c)
unfolding fail
fail-Same fd c =
    if_cases (Same c) (holds c.sock fd) (record c { sock = none }) c (refl, refl, refl, refl, refl)
      (refl, refl, refl, refl, refl)

-- Entering a request that is neither pending nor drained.
pub enter_request-IsSound :
    (p : ℕ) (send_ok : Bool) (c : Connection) (xs ys : List ℕ)
    → IsList c.requests xs
    → Chain c.requests.next c.drained ys none
    → ((a : ℕ) → count a (p ∷ xs) + count a ys ≤ 1)
    → ((a : ℕ) → count a (p ∷ xs) + count a ys + count a c.answered ≡ count a c.accepted)
    → ((a : ℕ) → count a c.refused ≤ count a c.answered)
    → (c' : Connection) × (enter_request p send_ok c ≡ some c') × IsSound c' (xs ++ (p ∷ [])) ys
unfolding enter_request
enter_request-IsSound p send_ok c xs ys list chain apart kept once =
    let new : count p xs ≡ 0 = ground (arith, apart p) in
    let (q, e, list', frame) = enqueue_request-IsList p c.requests xs list new in
    let c' : Connection = record c { requests = q } in
    let sound : IsSound c' (xs ++ (p ∷ [])) ys = record {
      list = list';
      chain =
          Chain-frame c.requests.next q.next c.drained none ys
            (λ x inside. frame x (ground (arith, apart x, inside))) chain;
      apart = λ a. ground (arith, apart a, count-append a xs (p ∷ []));
      kept = λ a. ground (arith, kept a, count-append a xs (p ∷ []));
      once = once;
    } in
    (
      send_request p send_ok c',
      rw (e, enter_request) refl,
      Same-IsSound c' (send_request p send_ok c') _ ys (send_request-Same p send_ok c') sound,
    )

pub count-delete :
    (a p : ℕ) (xs : List ℕ)
    → count a xs ≡ count a (delete p xs) + (if elem p xs && p == a then 1 else 0)
unfolding delete
count-delete a p [] = ground arith
count-delete a p (x ∷ xs) = ground (arith, count-delete a p xs)
