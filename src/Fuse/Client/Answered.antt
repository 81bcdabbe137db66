-- ===== src/Fuse/Client/Answered.antt =====
-- What becomes of the requests of fuse: none is lost or answered twice by the receiving threads and
-- the changes of the server, and one is lost by a direct probe.
use dnbd3_fuse_lowlevel.Prelude.{
  ◌∙◌, ℕ, ◌+◌, ◌<◌, ◌≡◌, List, [], Option, none, some, Bool, true, length, elem, arith, refl, inl,
  inr,
}
use dnbd3_fuse_lowlevel.Prelude.Counts.{count}
use dnbd3_fuse_lowlevel.Fuse.{Requests, remove_from, remove_request}
use dnbd3_fuse_lowlevel.Fuse.Queue.{IsList}
use dnbd3_fuse_lowlevel.Fuse.Removal.{delete, Removed, remove_from-Removed}
use dnbd3_fuse_lowlevel.Fuse.Client.{
  Connection, connection_read, Arrival, receive_reply, resend, direct_probe, Reach,
}
use dnbd3_fuse_lowlevel.Fuse.Client.Sound.{IsSound, count-delete}
use dnbd3_fuse_lowlevel.Fuse.Client.Kept.{
  IsFresh, IsFresh-Sound, Reach-Sound, connection_read-Sound, receive_reply-Sound, resend-Sound,
}

-- In every client that the steps but for direct probes reach from one without requests, the list of
-- pending requests in memory is a list `xs`, and those still to be entered after a change of the
-- server are a list `ys`; no request is in them twice. Each request was handed to `fuse_reply_buf` as
-- often as it was given, but for one time less if it is in them, and to `fuse_reply_err`, after that
-- failed, at most as often. A new request is entered, a request is entered again, and a reply is dealt
-- with in less than `n` steps if less than `n` requests are pending: no null pointer is read.
pub Reach-switch_connection :
    (fresh c : Connection)
    → IsFresh fresh
    → Reach fresh c
    → (xs : List ℕ) × (ys : List ℕ) × IsSound c xs ys
      × ((p : ℕ) (send_ok : Bool)
          → count p c.accepted ≡ count p c.answered
          → (c' : Connection) × (connection_read p send_ok c ≡ some c'))
      × ((send_ok : Bool) → (c' : Connection) × (resend send_ok c ≡ some c'))
      × ((n fd p : ℕ) (a : Arrival)
          → length xs < n
          → (c' : Connection) × (receive_reply n fd p a c ≡ some c'))
Reach-switch_connection fresh c start_h reach =
    let (xs, ys, h) = Reach-Sound fresh c reach (IsFresh-Sound fresh start_h) in
    (
      xs,
      ys,
      h,
      λ p send_ok new.
          let (c', e, h') = connection_read-Sound p send_ok c new (xs, ys, h) in (c', e),
      λ send_ok. let (c', e, h') = resend-Sound send_ok c (xs, ys, h) in (c', e),
      λ n fd p a enough. elim (receive_reply-Sound n fd p a c xs ys h) [
        | inl (e, short) ↦ absurd (omega (arith, enough, short))
        | inr (c', e, h') ↦ (c', e)
      ],
    )

-- After a direct probe received the payload of a pending request, the request is neither pending nor
-- to be entered again, and it was not answered: it was answered less often than it was given.
pub direct_probe-delete :
    (n p : ℕ) (a : Arrival) (c : Connection) (xs ys : List ℕ)
    → IsSound c xs ys
    → length xs < n
    → elem p xs ≡ true
    → a.payload_ok ≡ true
    → (c' : Connection) × (direct_probe n p a c ≡ some c')
      × IsList c'.requests (delete p xs)
      × (c'.drained ≡ c.drained)
      × (count p (delete p xs) + count p ys ≡ 0)
      × (count p c'.answered < count p c'.accepted)
unfolding direct_probe remove_request
direct_probe-delete n p a c xs ys h enough there ok =
    go (remove_from n p none c.requests.head c.requests) refl
      (remove_from-Removed n p none c.requests.head c.requests [] xs h.list refl refl h.list.chain)
  where
    go :
        (x : Option (Option ℕ × Requests))
        → remove_from n p none c.requests.head c.requests ≡ x
        → Removed n p c.requests [] xs x
        → (c' : Connection) × (direct_probe n p a c ≡ some c')
          × IsList c'.requests (delete p xs)
          × (c'.drained ≡ c.drained)
          × (count p (delete p xs) + count p ys ≡ 0)
          × (count p c'.answered < count p c'.accepted)
    go none e short = absurd (omega (arith, enough, short))
    go (some (r, q)) e (is, list, frame) =
        let found : r ≡ some p = is ∙ rw there refl in
        (
          record c { requests = q },
          rw (e, found, ok, direct_probe, remove_request) refl,
          list,
          refl,
          ground (arith, h.apart p, count-delete p p xs, there),
          ground (arith, h.apart p, h.kept p, count-delete p p xs, there),
        )
