-- ===== src/Uplink/Queue.antt =====
-- src/server/uplink.c: the queue as the list of the requests that wait, without its free slots.
pub mod Remove
pub mod Dispatch
pub mod Search
pub mod Enqueue
use dnbd3_fuse_lowlevel.Prelude.{
  ℕ, ◌≡◌, List, [], ◌∷◌, ◌++◌, Bool, true, false, not, ◌&&◌, leb, if◌then◌else◌, arith,
}
use dnbd3_fuse_lowlevel.Uplink.{
  QueuedRequest, is_free, is_processing, is_none, is_empty, same_client,
}
use dnbd3_fuse_lowlevel.Prelude.{some}

-- A slot is free exactly if it has no client, and is processed only while a reply is dispatched.
pub record SlotOk (r : QueuedRequest) : Type 0 where
  pub free_iff : is_free r.status ≡ is_none r.client
  pub idle : is_processing r.status ≡ false

abbrev pub IsWellFormed : List QueuedRequest → Type 0
IsWellFormed [] = Unit {0}
IsWellFormed (r ∷ rs) = SlotOk r × IsWellFormed rs

-- The last slot is in use.
abbrev pub IsTrimmed : List QueuedRequest → Type 0
IsTrimmed [] = Unit {0}
IsTrimmed (r ∷ []) = is_free r.status ≡ false
IsTrimmed (r ∷ s ∷ rs) = IsTrimmed (s ∷ rs)

unfoldable pub keep : (QueuedRequest → Bool) → List QueuedRequest → List QueuedRequest
keep p [] = []
keep p (r ∷ rs) = if p r then r ∷ keep p rs else keep p rs

-- The requests of the queue in the order of their slots.
abbrev pub waiting : List QueuedRequest → List QueuedRequest
waiting = keep (λ r. not (is_free r.status))

abbrev pub belongs_to : ℕ → QueuedRequest → Bool
belongs_to client r = same_client r.client (some client)

-- A slot before the slots that are left, dropped if it is free and the last one.
abbrev pub trim_cons : QueuedRequest → List QueuedRequest → List QueuedRequest
trim_cons r rest = if is_free r.status && is_empty rest then [] else r ∷ rest

pub trim_cons-IsWellFormed :
    (r : QueuedRequest) (rest : List QueuedRequest)
    → SlotOk r
    → IsWellFormed rest
    → IsWellFormed (trim_cons r rest)
trim_cons-IsWellFormed r [] ok w = ground arith
trim_cons-IsWellFormed r (s ∷ rest) ok w = ground arith

pub trim_cons-IsTrimmed :
    (r : QueuedRequest) (rest : List QueuedRequest) → IsTrimmed rest → IsTrimmed (trim_cons r rest)
trim_cons-IsTrimmed r [] t = ground arith
trim_cons-IsTrimmed r (s ∷ rest) t = ground arith

pub waiting-trim_cons :
    (r : QueuedRequest) (rest : List QueuedRequest)
    → waiting (trim_cons r rest) ≡ (if is_free r.status then waiting rest else r ∷ waiting rest)
unfolding keep
waiting-trim_cons r [] = ground arith
waiting-trim_cons r (s ∷ rest) = ground arith
