-- ===== src/Uplink/Tests.antt =====
-- Concrete queues of an uplink.
use dnbd3_fuse_lowlevel.Prelude.{
  Option, ◌≡◌, refl, List, [], ◌∷◌, none, some, true, false, not, arith,
}
use dnbd3_fuse_lowlevel.Host.{Host}
use dnbd3_fuse_lowlevel.Uplink.{
  QueuedRequest, Reply, inside, free, new, pending, remove_client, handle_reply, cycle, queued,
  entry, enqueue,
}
use dnbd3_fuse_lowlevel.Uplink.Queue.{keep, waiting, belongs_to, IsWellFormed, IsTrimmed}
use dnbd3_fuse_lowlevel.Uplink.Queue.Remove.{remove_client_lem}
use dnbd3_fuse_lowlevel.Uplink.Queue.Dispatch.{handle_reply_lem, replies_due}
use dnbd3_fuse_lowlevel.Uplink.Queue.Enqueue.{Enqueued, enqueue-Enqueued}
use dnbd3_fuse_lowlevel.Uplink.Link.{Link, Client, send_requests}
use dnbd3_fuse_lowlevel.Uplink.Link.Send.{attached_request_lost}

abbrev slot_a : QueuedRequest
slot_a = record {
  handle = 11;
  from = 0;
  to = 4096;
  client = some 1;
  status = pending;
  hop_count = 0;
}

abbrev slot_b : QueuedRequest
slot_b = record { handle = 0; from = 0; to = 0; client = none; status = free; hop_count = 0 }

abbrev slot_c : QueuedRequest
slot_c = record {
  handle = 13;
  from = 4096;
  to = 8192;
  client = some 2;
  status = new;
  hop_count = 3;
}

abbrev queue : List QueuedRequest
queue = slot_a ∷ slot_b ∷ slot_c ∷ []

queue-IsWellFormed : IsWellFormed queue
queue-IsWellFormed = (
  record { free_iff = refl; idle = refl },
  (record { free_iff = refl; idle = refl }, (record { free_iff = refl; idle = refl }, tt)),
)

abbrev after_reply : Option (List QueuedRequest)
after_reply = elim (handle_reply 4096 8192 queue) [ none ↦ none | some (q, replies) ↦ some q ]

runs :
    (remove_client 2 queue ≡ slot_a ∷ [])
    × (after_reply ≡ some (slot_a ∷ []))
    × (enqueue 3 14 512 1024 0 queue
        ≡ queued 1 (slot_a ∷ entry 3 14 512 1024 0 false ∷ slot_c ∷ []) false)
    × (enqueue 3 14 4096 8192 3 queue
        ≡ queued 1 (slot_a ∷ entry 3 14 4096 8192 3 true ∷ slot_c ∷ []) true)
    × (enqueue 3 14 4096 8192 4 queue ≡ cycle)
unfolding remove_client handle_reply enqueue
runs = (refl, refl, refl, refl, refl)

remove_client_example :
    IsWellFormed (remove_client 2 queue)
    × IsTrimmed (remove_client 2 queue)
    × (waiting (remove_client 2 queue) ≡ keep (λ r. not (belongs_to 2 r)) (waiting queue))
remove_client_example = remove_client_lem 2 queue queue-IsWellFormed

handle_reply_example :
    (queue' : List QueuedRequest) × (replies : List Reply) × (handle_reply 4096 8192 queue
      ≡ some (queue', replies))
    × IsWellFormed queue'
    × IsTrimmed queue'
    × (waiting queue' ≡ keep (λ r. not (inside 4096 8192 r)) (waiting queue))
    × (replies ≡ replies_due 4096 8192 (waiting queue))
handle_reply_example = handle_reply_lem 4096 8192 queue queue-IsWellFormed

enqueue-Enqueued_example : Enqueued 3 14 4096 8192 3 queue (enqueue 3 14 4096 8192 3 queue)
enqueue-Enqueued_example = enqueue-Enqueued 3 14 4096 8192 3 queue queue-IsWellFormed (omega arith)

abbrev host : Host
host = record { addr = []; port = 5003; type = 2 }

abbrev link : Link
link = record {
  fd = some 9;
  version = 3;
  current_server = host;
  shutdown = false;
  cycle_detected = false;
  queue = queue;
}

abbrev client : Client
client = record { id = 3; host = host }

attached_request_lost_example :
    let old = entry 1 11 0 4096 0 false in
    let late = entry 2 12 0 4096 0 true in
    (enqueue 1 11 0 4096 0 [] ≡ queued 0 (old ∷ []) false)
    × (enqueue 2 12 0 4096 0 (old ∷ []) ≡ queued 1 (old ∷ late ∷ []) true)
    × (waiting (remove_client 1 (old ∷ late ∷ [])) ≡ late ∷ [])
    × ((send_requests true 3 (λ i. true) 0 (remove_client 1 (old ∷ late ∷ []))).1 ≡ [])
attached_request_lost_example = attached_request_lost 1 2 11 12 0 4096 0 3 (λ i. true) (omega arith)
