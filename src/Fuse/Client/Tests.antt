-- ===== src/Fuse/Client/Tests.antt =====
-- src/fuse/connection.c: the theorems about the fuse client at concrete requests.
use dnbd3_fuse_lowlevel.Prelude.{
  ℕ, ◌+◌, ◌<◌, ◌≡◌, List, [], ◌∷◌, ◌++◌, Option, none, some, Bool, true, if◌then◌else◌, length,
  elem, arith, refl,
}
use dnbd3_fuse_lowlevel.Prelude.Counts.{count}
use dnbd3_fuse_lowlevel.Prelude.Maps.{update}
use dnbd3_fuse_lowlevel.Fuse.{Requests, enqueue_request, remove_request}
use dnbd3_fuse_lowlevel.Fuse.Queue.{IsList}
use dnbd3_fuse_lowlevel.Fuse.Removal.{delete, enqueue_remove-IsList}
use dnbd3_fuse_lowlevel.Fuse.Client.{
  Connection, connection_read, Arrival, receive_reply, resend, direct_probe, given, received, Reach,
  start, next,
}
use dnbd3_fuse_lowlevel.Fuse.Client.Sound.{IsSound}
use dnbd3_fuse_lowlevel.Fuse.Client.Kept.{IsFresh}
use dnbd3_fuse_lowlevel.Fuse.Client.Answered.{Reach-switch_connection, direct_probe-delete}

abbrev two_requests : Requests
two_requests = record {
  head = some 5;
  tail = some 6;
  next = update (update (λ x. none) 5 (some 6)) 6 none;
}

two_requests-IsList : IsList two_requests (5 ∷ 6 ∷ [])
two_requests-IsList = record {
  chain = (refl, (refl, refl));
  tail = refl;
  distinct = λ a. ground arith;
}

enqueue_remove-IsList_example :
    (count 7 (5 ∷ 6 ∷ []) ≡ 0
      → (q' : Requests) × (enqueue_request 7 two_requests ≡ some q')
        × IsList q' ((5 ∷ 6 ∷ []) ++ (7 ∷ [])))
    × ((r : Option ℕ) × (q' : Requests) × (remove_request 3 7 two_requests ≡ some (r, q'))
        × (r ≡ (if elem 7 (5 ∷ 6 ∷ []) then some 7 else none))
        × IsList q' (delete 7 (5 ∷ 6 ∷ [])))
enqueue_remove-IsList_example =
    enqueue_remove-IsList 7 3 two_requests (5 ∷ 6 ∷ []) two_requests-IsList (omega arith)

abbrev fresh_client : Connection
fresh_client = record {
  requests = record { head = none; tail = none; next = λ x. none };
  sock = some 3;
  drained = none;
  sent = [];
  answered = [];
  refused = [];
  accepted = [];
}

abbrev asking_client : Connection
asking_client = record fresh_client {
  requests = record { head = some 5; tail = some 5; next = update (λ x. none) 5 none };
  sent = (3, 5) ∷ [];
  accepted = 5 ∷ [];
}

abbrev arrived : Arrival
arrived = record { payload_ok = true; send_ok = true; reply_ok = true }

abbrev answered_client : Connection
answered_client = record asking_client {
  requests = record { head = none; tail = none; next = update (λ x. none) 5 none };
  answered = 5 ∷ [];
}

asked : connection_read 5 true fresh_client ≡ some asking_client
unfolding connection_read enqueue_request
asked = refl

got : receive_reply 2 3 5 arrived asking_client ≡ some answered_client
unfolding receive_reply remove_request
got = refl

answered_client-Reach : Reach fresh_client answered_client
answered_client-Reach =
    next asking_client answered_client
      (next fresh_client asking_client start (given 5 true asking_client refl asked))
      (received 2 3 5 arrived answered_client got)

fresh_client-IsFresh : IsFresh fresh_client
unfolding IsFresh
fresh_client-IsFresh = (refl, refl, refl, refl, refl, refl)

Reach-switch_connection_example :
    (xs : List ℕ) × (ys : List ℕ) × IsSound answered_client xs ys
    × ((p : ℕ) (send_ok : Bool)
        → count p answered_client.accepted ≡ count p answered_client.answered
        → (c' : Connection) × (connection_read p send_ok answered_client ≡ some c'))
    × ((send_ok : Bool) → (c' : Connection) × (resend send_ok answered_client ≡ some c'))
    × ((n fd p : ℕ) (a : Arrival)
        → length xs < n
        → (c' : Connection) × (receive_reply n fd p a answered_client ≡ some c'))
Reach-switch_connection_example =
    Reach-switch_connection fresh_client answered_client fresh_client-IsFresh answered_client-Reach

asking_client-IsSound : IsSound asking_client (5 ∷ []) []
asking_client-IsSound = record {
  list = record { chain = (refl, refl); tail = refl; distinct = λ a. ground arith };
  chain = refl;
  apart = λ a. ground arith;
  kept = λ a. ground arith;
  once = λ a. omega arith;
}

direct_probe-delete_example :
    (c' : Connection) × (direct_probe 2 5 arrived asking_client ≡ some c')
    × IsList c'.requests (delete 5 (5 ∷ []))
    × (c'.drained ≡ none)
    × (count 5 (delete 5 (5 ∷ [])) + 0 ≡ 0)
    × (count 5 c'.answered < count 5 c'.accepted)
direct_probe-delete_example =
    direct_probe-delete 2 5 arrived asking_client (5 ∷ []) [] asking_client-IsSound (omega arith)
      refl refl
