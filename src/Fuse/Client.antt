-- ===== src/Fuse/Client.antt =====
-- src/fuse/connection.c: what the threads of the fuse client do with requests. Results of sending and
-- receiving are arguments; waking up the background thread is left out.
pub mod Sound
pub mod Kept
pub mod Answered
mod Tests
use dnbd3_fuse_lowlevel.Prelude.{
  ℕ, List, [], ◌∷◌, Option, none, some, Bool, true, false, not, ◌&&◌, ◌==◌, if◌then◌else◌, ◌≡◌, ◌≢◌,
  length,
}
use dnbd3_fuse_lowlevel.Prelude.Counts.{count}
use dnbd3_fuse_lowlevel.Slots.{holds}
use dnbd3_fuse_lowlevel.Fuse.{Requests, enqueue_request, remove_request}

-- `requests`, `connection.sockFd`, the chain that `switchConnection` still has to enter again, what
-- was sent on which socket, the requests that fuse gave, those that were answered with
-- `fuse_reply_buf`, and those that were answered with `fuse_reply_err` after that failed.
pub record Connection : Type 0 where
  pub requests : Requests
  pub sock : Option ℕ
  pub drained : Option ℕ
  pub sent : List (ℕ × ℕ)
  pub answered : List ℕ
  pub refused : List ℕ
  pub accepted : List ℕ

-- A request is sent on the socket, if there is one; a failure gives the socket up.
pub send_request : ℕ → Bool → Connection → Connection
send_request p send_ok c = elim c.sock [
  | none ↦ c
  | some fd ↦ if send_ok then record c { sent = (fd, p) ∷ c.sent } else record c { sock = none }
]

-- Entering and sending, as in `connection_read` after it took the lock.
pub enter_request : ℕ → Bool → Connection → Option Connection
unfolding send_request
enter_request p send_ok c = elim (enqueue_request p c.requests) [
  | none ↦ none
  | some q ↦ some (send_request p send_ok (record c { requests = q }))
]

-- `connection_read` of a new request.
pub connection_read : ℕ → Bool → Connection → Option Connection
unfolding enter_request
connection_read p send_ok c = enter_request p send_ok (record c { accepted = p ∷ c.accepted })

-- The end of `connection_receiveThreadMain` for the socket `fd`.
pub fail : ℕ → Connection → Connection
fail fd c = if holds c.sock fd then record c { sock = none } else c

-- What comes with a reply: the payload arrives or not, whether a request that is tried again can be
-- sent, and whether `fuse_reply_buf` succeeds.
pub record Arrival : Type 0 where
  pub payload_ok : Bool
  pub send_ok : Bool
  pub reply_ok : Bool

-- What happens to a reply on `fd` after the list gave `found`, or nothing.
pub finish_reply : ℕ → Arrival → Option ℕ → Connection → Option Connection
unfolding enter_request fail
finish_reply fd a none c = some (if a.payload_ok then c else fail fd c)
finish_reply fd a (some found) c =
    if a.payload_ok
    then some (record c {
      answered = found ∷ c.answered;
      refused = if a.reply_ok then c.refused else found ∷ c.refused;
    })
    else (elim (enter_request found a.send_ok c) [ none ↦ none | some c' ↦ some (fail fd c') ])

-- A reply to CMD_GET_BLOCK with handle `p` on `fd`, in a list of less than `n` requests.
pub receive_reply : ℕ → ℕ → ℕ → Arrival → Connection → Option Connection
unfolding finish_reply
receive_reply n fd p a c = elim (remove_request n p c.requests) [
  | none ↦ none
  | some r ↦ finish_reply fd a r.0 (record c { requests = r.1 })
]

-- `switchConnection` up to the resending: `peer_ok` is the result of `getpeername`, `asked_ok` that of
-- asking for servers.
pub switch_connection : ℕ → Bool → Bool → Connection → Connection
switch_connection fd peer_ok asked_ok c =
    if peer_ok
    then record c {
      sock = if asked_ok then some fd else none;
      drained = c.requests.head;
      requests = record { head = none; tail = none; next = c.requests.next };
    }
    else record c { sock = none }

-- A round of the resending.
pub resend : Bool → Connection → Option Connection
unfolding enter_request
resend send_ok c = elim c.drained [
  | none ↦ some c
  | some it ↦ enter_request it send_ok (record c { drained = c.requests.next it })
]

-- The direct probe in `probeAltServers` for the request `p`: its payload is received by the probe.
pub direct_probe : ℕ → ℕ → Arrival → Connection → Option Connection
unfolding enter_request
direct_probe n p a c = elim (remove_request n p c.requests) [
  | none ↦ none
  | some r ↦
      let c' = record c { requests = r.1 } in
      elim r.0 [
        | none ↦ some c'
        | some found ↦ if a.payload_ok then some c' else enter_request found a.send_ok c'
      ]
]

-- The steps of the threads, but for direct probes. A request is new if it was answered as often as it
-- was given; a switch begins when the one before has ended.
pub data Step (c : Connection) : Connection → Type 0 where
  given :
      (p : ℕ) (send_ok : Bool) (c' : Connection)
      → count p c.accepted ≡ count p c.answered
      → connection_read p send_ok c ≡ some c'
      → Step c c'
  received :
      (n fd p : ℕ) (a : Arrival) (c' : Connection) → receive_reply n fd p a c ≡ some c' → Step c c'
  failed : (fd : ℕ) → Step c (fail fd c)
  switched :
      (fd : ℕ) (peer_ok asked_ok : Bool)
      → c.drained ≡ none
      → Step c (switch_connection fd peer_ok asked_ok c)
  resent : (send_ok : Bool) (c' : Connection) → resend send_ok c ≡ some c' → Step c c'

pub data Reach (c : Connection) : Connection → Type 0 where
  start : Reach c c
  next : (c' c'' : Connection) → Reach c c' → Step c' c'' → Reach c c''
