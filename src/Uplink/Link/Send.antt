-- ===== src/Uplink/Link/Send.antt =====
-- src/server/uplink.c: what `uplink_sendRequests` and `uplink_request` send to the uplink server.
use dnbd3_fuse_lowlevel.Prelude.{
  ℕ, ◌+◌, ◌%◌, ◌^◌, ◌≤◌, ◌<◌, ◌≡◌, ◌≢◌, [], ◌∷◌, Bool, true, false, arith, refl,
}
use dnbd3_fuse_lowlevel.Uplink.{queued, entry, enqueue, remove_client, place}
use dnbd3_fuse_lowlevel.Uplink.Queue.{keep, waiting}
use dnbd3_fuse_lowlevel.Uplink.Link.{block_request, send_requests}

-- A request of at most 2 ^ 31 bytes, below 2 ^ 56, is relayed as whole blocks that hold it, and that
-- reach less than a block beyond it on either side.
pub block_request-covers :
    (version from to hops : ℕ)
    → from ≤ to
    → to ≤ from + 2 ^ 31
    → to < 2 ^ 56
    → let message = block_request version from to hops in
      (message.offset ≤ from)
      × (from < message.offset + 4096)
      × (to ≤ message.offset + message.size)
      × (message.offset + message.size < to + 4096)
      × (message.offset % 4096 ≡ 0)
      × (message.size % 4096 ≡ 0)
      × (message.handle ≡ message.offset)
unfolding block_request
block_request-covers version from to hops le short small = omega arith

-- Two clients ask for the same range while the uplink cannot send: the second request attaches to
-- the first, which is still new. If the first client then leaves, the second request waits as
-- pending, and a run that sends the new requests sends nothing for it.
pub attached_request_lost :
    (first second handle handle' start end hops version : ℕ) (send_ok : ℕ → Bool)
    → first ≢ second
    → let old = entry first handle start end hops false in
      let late = entry second handle' start end hops true in
      (enqueue first handle start end hops [] ≡ queued 0 (old ∷ []) false)
      × (enqueue second handle' start end hops (old ∷ []) ≡ queued 1 (old ∷ late ∷ []) true)
      × (waiting (remove_client first (old ∷ late ∷ [])) ≡ late ∷ [])
      × ((send_requests true version send_ok 0 (remove_client first (old ∷ late ∷ []))).1 ≡ [])
unfolding enqueue entry remove_client send_requests keep place
attached_request_lost first second handle handle' start end hops version send_ok ne =
    (refl, ground arith, ground arith, ground arith)
