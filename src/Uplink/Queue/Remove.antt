-- ===== src/Uplink/Queue/Remove.antt =====
-- src/server/uplink.c: `uplink_removeClient`.
use dnbd3_fuse_lowlevel.Prelude.{ℕ, ◌≡◌, List, [], ◌∷◌, not, if◌then◌else◌, arith, refl, ◌∙◌}
use dnbd3_fuse_lowlevel.Uplink.{QueuedRequest, clear_client, remove_client, is_free}
use dnbd3_fuse_lowlevel.Uplink.Queue.{
  SlotOk, IsWellFormed, IsTrimmed, keep, waiting, belongs_to, trim_cons, trim_cons-IsWellFormed,
  trim_cons-IsTrimmed, waiting-trim_cons,
}

clear_client-SlotOk : (client : ℕ) (r : QueuedRequest) → SlotOk r → SlotOk (clear_client client r)
unfolding clear_client
clear_client-SlotOk client r ok = ground arith

remove_client_step :
    (client : ℕ) (r : QueuedRequest) (rs : List QueuedRequest)
    → SlotOk r
    → remove_client client (r ∷ rs) ≡ trim_cons (clear_client client r) (remove_client client rs)
unfolding remove_client
remove_client_step client r rs ok =
    let same = (clear_client-SlotOk client r ok).free_iff in rw same refl

keep-clear_client :
    (client : ℕ) (r : QueuedRequest) (l : List QueuedRequest)
    → SlotOk r
    → (if is_free (clear_client client r).status then l else clear_client client r ∷ l)
      ≡ (if is_free r.status then l else if belongs_to client r then l else r ∷ l)
unfolding clear_client
keep-clear_client client r l ok = ground arith

-- Of a well-formed queue `uplink_removeClient` keeps exactly the requests of the other clients, in
-- their order, and the queue stays well formed and ends in a slot in use.
pub remove_client_lem :
    (client : ℕ) (queue : List QueuedRequest)
    → IsWellFormed queue
    → IsWellFormed (remove_client client queue)
      × IsTrimmed (remove_client client queue)
      × (waiting (remove_client client queue)
          ≡ keep (λ r. not (belongs_to client r)) (waiting queue))
unfolding keep
remove_client_lem client [] w = unfold remove_client in (tt, tt, refl)
remove_client_lem client (r ∷ rs) (ok, w) =
    let (w', t', e') = remove_client_lem client rs w in
    let rest = remove_client client rs in
    let r' = clear_client client r in
    rw (remove_client_step client r rs ok) (
      trim_cons-IsWellFormed r' rest (clear_client-SlotOk client r ok) w',
      trim_cons-IsTrimmed r' rest t',
      waiting-trim_cons r' rest ∙ keep-clear_client client r (waiting rest) ok ∙ ground (arith, e'),
    )
