-- ===== src/Uplink/Link/Accept.antt =====
-- src/server/uplink.c: what becomes of a request that `uplink_request` accepts or turns down.
use dnbd3_fuse_lowlevel.Prelude.{
  ℕ, ◌≤◌, ◌<◌, ◌≡◌, List, [], ◌∷◌, Bool, true, false, not, ◌&&◌, ◌==◌, ◌⊎◌, Option, none, some,
  get_elem?, length, set, ◌≢◌,
}
use dnbd3_fuse_lowlevel.Prelude.Words.{add64}
use dnbd3_fuse_lowlevel.Host.{is_same_address}
use dnbd3_fuse_lowlevel.Uplink.{QueuedRequest, queued, entry, max_uplink_queue}
use dnbd3_fuse_lowlevel.Uplink.Queue.Search.{AllUsed, SameRange}
use dnbd3_fuse_lowlevel.Uplink.Queue.Enqueue.{Enqueued}
use dnbd3_fuse_lowlevel.Uplink.Link.{Link, Client, BlockRequest, Done, block_request}

-- Turned down without any effect, or with the mark of a cycle, which the thread is woken up for.
abbrev pub IsRefused : Link → Done → Type 0
IsRefused link done = done ≡ record { link = link; ok = false; sent = []; woken = false }

abbrev pub IsCyclic : Link → Done → Type 0
IsCyclic link done =
    done
    ≡ record { link = record link { cycle_detected = true }; ok = false; sent = []; woken = true }

-- The request `as_pending` in the queue `queue`, which has it as `as_new` unless it is attached, and
-- what was sent for it: it is attached and nothing is sent; or there was a lock, a socket and no
-- error, it was sent and is pending; or else it stays new and the thread is woken up to send it.
abbrev pub Fate :
    BlockRequest
    → QueuedRequest
    → Option Bool
    → Link
    → ℕ
    → List QueuedRequest
    → Bool
    → Done
    → Type 0
Fate message as_pending direct link slot queue true done =
    done ≡ record { link = record link { queue = queue }; ok = true; sent = []; woken = false }
Fate message as_pending direct link slot queue false done =
    ((direct ≡ some true)
      × ((fd : ℕ) × (link.fd ≡ some fd))
      × (done ≡ record {
        link = record link { queue = set queue slot as_pending };
        ok = true;
        sent = message ∷ [];
        woken = false;
      }))
    ⊎ (((direct ≢ some true) ⊎ (link.fd ≡ none))
        × (done
            ≡ record { link = record link { queue = queue }; ok = true; sent = []; woken = true }))

abbrev sent_with : Link → BlockRequest → Done
sent_with link message = record { link = link; ok = true; sent = message ∷ []; woken = false }

-- Why a request is refused, or counts as a cycle: too long, or the uplink ends, or the queue is full;
-- the client is the server of the uplink itself, or a slot holds the same range with less hops.
module _ (max_payload handle start size hops : ℕ) (client : Client) (link : Link)
    (direct : Option Bool) where
  abbrev end : ℕ
  end = add64 start size

  abbrev pub TurnedDown : Done → Type 0
  TurnedDown done =
      ((max_payload < size)
        ⊎ ((link.shutdown ≡ true) ⊎ (AllUsed link.queue × (max_uplink_queue ≤ length link.queue))))
      × IsRefused link done

  abbrev pub Looped : Done → Type 0
  Looped done =
      ((not (hops == 0) && is_same_address link.current_server client.host ≡ true)
        ⊎ ((k : ℕ) × (r : QueuedRequest) × (get_elem? link.queue k ≡ some r)
            × SameRange start end hops r))
      × IsCyclic link done

  -- None of the reasons to turn it down at once, the slot and the queue as `Enqueued` says, and the
  -- fate.
  abbrev pub Taken : Done → Type 0
  Taken done =
      (size ≤ max_payload)
      × (link.shutdown ≡ false)
      × (not (hops == 0) && is_same_address link.current_server client.host ≡ false)
      × ((slot : ℕ) × (queue : List QueuedRequest) × (attached : Bool) × Enqueued client.id handle
            start end hops link.queue (queued slot queue attached)
          × Fate (block_request link.version start end hops)
              (entry client.id handle start end hops true) direct link slot queue attached done)

  abbrev pub Answered : Done → Type 0
  Answered done = TurnedDown done ⊎ (Looped done ⊎ Taken done)
