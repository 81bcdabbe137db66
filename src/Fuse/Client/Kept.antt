-- ===== src/Fuse/Client/Kept.antt =====
-- The steps of the fuse client keep what is true of its requests.
use dnbd3_fuse_lowlevel.Prelude.{
  ◌∙◌, ℕ, ◌≤◌, ◌≡◌, ◌⊎◌, List, [], ◌∷◌, ◌++◌, Option, none, some, Bool, true, false, if◌then◌else◌,
  length, elem, arith, refl, ap, sym, Bool-cases, inl, inr,
}
use mathlib.Core.Path.{subst}
use dnbd3_fuse_lowlevel.Prelude.Counts.{count}
use dnbd3_fuse_lowlevel.Fuse.{Requests, remove_from, remove_request}
use dnbd3_fuse_lowlevel.Fuse.Queue.{IsList, Frame}
use dnbd3_fuse_lowlevel.Fuse.Removal.{delete, Removed, remove_from-Removed}
use dnbd3_fuse_lowlevel.Fuse.Client.{
  Connection, enter_request, connection_read, fail, Arrival, finish_reply, receive_reply,
  switch_connection, resend, Step, given, received, failed, switched, resent, Reach, start, next,
}
use dnbd3_fuse_lowlevel.Fuse.Client.Sound.{
  IsSound, Chain-frame, Same-IsSound, fail-Same, enter_request-IsSound, count-delete,
}

-- Some lists describe the client.
abbrev pub Sound : Connection → Type 0
Sound c = (xs : List ℕ) × (ys : List ℕ) × IsSound c xs ys

pub connection_read-Sound :
    (p : ℕ) (send_ok : Bool) (c : Connection)
    → count p c.accepted ≡ count p c.answered
    → Sound c
    → (c' : Connection) × (connection_read p send_ok c ≡ some c') × Sound c'
unfolding connection_read
connection_read-Sound p send_ok c new (xs, ys, h) =
    let (c', e, h') =
      enter_request-IsSound p send_ok (record c { accepted = p ∷ c.accepted }) xs ys h.list h.chain
        (λ a. ground (arith, h.apart a, h.kept p, new)) (λ a. ground (arith, h.kept a)) h.once in
    (c', e, (xs ++ (p ∷ []), ys, h'))

-- After the request `p` was found and taken out.
module _ (c : Connection) (p : ℕ) (q : Requests) (xs ys : List ℕ) where
  abbrev answered_with : Bool → Connection
  answered_with reply_ok = record c {
    requests = q;
    answered = p ∷ c.answered;
    refused = if reply_ok then c.refused else p ∷ c.refused;
  }

  taken-IsSound :
      (reply_ok : Bool)
      → IsSound c xs ys
      → IsList q (delete p xs)
      → Frame c.requests q xs
      → elem p xs ≡ true
      → IsSound (answered_with reply_ok) (delete p xs) ys
  taken-IsSound reply_ok h list frame there = record {
    list = list;
    chain =
        Chain-frame c.requests.next q.next c.drained none ys
          (λ x inside. frame x (omega (arith, h.apart x, inside))) h.chain;
    apart = λ a. ground (arith, h.apart a, count-delete a p xs);
    kept = λ a. ground (arith, h.kept a, count-delete a p xs, there);
    once = λ a. ground (arith, h.once a);
  }

  missed-IsSound :
      IsSound c xs ys
      → IsList q (delete p xs)
      → Frame c.requests q xs
      → elem p xs ≡ false
      → IsSound (record c { requests = q }) (delete p xs) ys
  missed-IsSound h list frame away = record {
    list = list;
    chain =
        Chain-frame c.requests.next q.next c.drained none ys
          (λ x inside. frame x (omega (arith, h.apart x, inside))) h.chain;
    apart = λ a. ground (arith, h.apart a, count-delete a p xs);
    kept = λ a. ground (arith, h.kept a, count-delete a p xs, away);
    once = h.once;
  }

  again-Sound :
      (send_ok : Bool)
      → IsSound c xs ys
      → IsList q (delete p xs)
      → Frame c.requests q xs
      → elem p xs ≡ true
      → (c' : Connection) × (enter_request p send_ok (record c { requests = q }) ≡ some c')
        × Sound c'
  again-Sound send_ok h list frame there =
      let (c', e, h') =
        enter_request-IsSound p send_ok (record c { requests = q }) (delete p xs) ys list
          (Chain-frame c.requests.next q.next c.drained none ys
            (λ x inside. frame x (omega (arith, h.apart x, inside))) h.chain)
          (λ a. ground (arith, h.apart a, count-delete a p xs, there))
          (λ a. ground (arith, h.kept a, count-delete a p xs, there)) h.once in
      (c', e, (delete p xs ++ (p ∷ []), ys, h'))

failed-Sound : (fd : ℕ) (c : Connection) → Sound c → Sound (fail fd c)
failed-Sound fd c (xs, ys, h) = (xs, ys, Same-IsSound c (fail fd c) xs ys (fail-Same fd c) h)

finish_reply-Sound :
    (fd p : ℕ) (a : Arrival) (c : Connection) (q : Requests) (xs ys : List ℕ) (r : Option ℕ)
    → IsSound c xs ys
    → IsList q (delete p xs)
    → Frame c.requests q xs
    → r ≡ (if elem p xs then some p else none)
    → (c' : Connection) × (finish_reply fd a r (record c { requests = q }) ≡ some c') × Sound c'
unfolding finish_reply
finish_reply-Sound fd p a c q xs ys r h list frame is = elim (Bool-cases (elem p xs)) [
  | inl there ↦
      let found : r ≡ some p = is ∙ rw there refl in
      elim (Bool-cases a.payload_ok) [
        | inl ok ↦ (
          answered_with c p q xs ys a.reply_ok,
          rw (found, ok) refl,
          (delete p xs, ys, taken-IsSound c p q xs ys a.reply_ok h list frame there),
        )
        | inr bad ↦
            let (c', e, h') = again-Sound c p q xs ys a.send_ok h list frame there in
            (fail fd c', rw (found, bad, e) refl, failed-Sound fd c' h')
      ]
  | inr away ↦
      let nothing : r ≡ none = is ∙ rw away refl in
      let h' : Sound (record c { requests = q }) =
        (delete p xs, ys, missed-IsSound c p q xs ys h list frame away) in
      elim (Bool-cases a.payload_ok) [
        | inl ok ↦ (record c { requests = q }, rw (nothing, ok) refl, h')
        | inr bad ↦ (
          fail fd (record c { requests = q }),
          rw (nothing, bad) refl,
          failed-Sound fd (record c { requests = q }) h',
        )
      ]
]

-- It goes on to a sound client, or more requests are pending than steps are allowed.
pub receive_reply-Sound :
    (n fd p : ℕ) (a : Arrival) (c : Connection) (xs ys : List ℕ)
    → IsSound c xs ys
    → ((receive_reply n fd p a c ≡ none) × (n ≤ length xs))
      ⊎ ((c' : Connection) × (receive_reply n fd p a c ≡ some c') × Sound c')
unfolding receive_reply remove_request
receive_reply-Sound n fd p a c xs ys h =
    go (remove_from n p none c.requests.head c.requests) refl
      (remove_from-Removed n p none c.requests.head c.requests [] xs h.list refl refl h.list.chain)
  where
    go :
        (x : Option (Option ℕ × Requests))
        → remove_from n p none c.requests.head c.requests ≡ x
        → Removed n p c.requests [] xs x
        → ((receive_reply n fd p a c ≡ none) × (n ≤ length xs))
          ⊎ ((c' : Connection) × (receive_reply n fd p a c ≡ some c') × Sound c')
    go none e short = inl (rw (e, receive_reply, remove_request) refl, short)
    go (some (r, q)) e (is, list, frame) =
        let (c', f, h') = finish_reply-Sound fd p a c q xs ys r h list frame is in
        inr (c', rw (e, receive_reply, remove_request) f, h')

switch_connection-Sound :
    (fd : ℕ) (peer_ok asked_ok : Bool) (c : Connection)
    → c.drained ≡ none
    → Sound c
    → Sound (switch_connection fd peer_ok asked_ok c)
unfolding switch_connection
switch_connection-Sound fd true asked_ok c ended (xs, y ∷ ys, h) = cc
switch_connection-Sound fd true asked_ok c ended (xs, [], h) = (
  [],
  xs,
  record {
    list = record { chain = refl; tail = refl; distinct = λ a. omega arith };
    chain = h.list.chain;
    apart = λ a. omega (arith, h.apart a);
    kept = λ a. omega (arith, h.kept a);
    once = h.once;
  },
)
switch_connection-Sound fd false asked_ok c ended (xs, ys, h) =
    (xs, ys, Same-IsSound c (record c { sock = none }) xs ys (refl, refl, refl, refl, refl) h)

pub resend-Sound :
    (send_ok : Bool) (c : Connection)
    → Sound c
    → (c' : Connection) × (resend send_ok c ≡ some c') × Sound c'
unfolding resend
resend-Sound send_ok c (xs, [], h) = (c, rw (h.chain) refl, (xs, [], h))
resend-Sound send_ok c (xs, y ∷ ys, h) =
    let (first, rest) = h.chain in
    let (c', e, h') =
      enter_request-IsSound y send_ok (record c { drained = c.requests.next y }) xs ys h.list rest
        (λ a. ground (arith, h.apart a)) (λ a. ground (arith, h.kept a)) h.once in
    (c', rw (first, resend) e, (xs ++ (y ∷ []), ys, h'))

some_injective : (c c' : Connection) → some c ≡ some c' → c ≡ c'
some_injective c c' e = ap (λ (o : Option Connection). elim o [ none ↦ c | some d ↦ d ]) e

same_result :
    (o : Option Connection) (c c' : Connection) → o ≡ some c → o ≡ some c' → Sound c → Sound c'
same_result o c c' e e' h = subst Sound (some_injective c c' (sym e ∙ e')) h

Step-Sound : (c c' : Connection) → Step c c' → Sound c → Sound c'
Step-Sound c c' (given p send_ok d new e) h =
    let (d', e', h') = connection_read-Sound p send_ok c new h in same_result _ d' d e' e h'
Step-Sound c c' (received n fd p a d e) (xs, ys, h) =
    elim (receive_reply-Sound n fd p a c xs ys h) [
      | inl (nothing, short) ↦ let f : none ≡ some d = sym nothing ∙ e in cc
      | inr (d', e', h') ↦ same_result _ d' d e' e h'
    ]
Step-Sound c c' (failed fd) h = failed-Sound fd c h
Step-Sound c c' (switched fd peer_ok asked_ok ended) h =
    switch_connection-Sound fd peer_ok asked_ok c ended h
Step-Sound c c' (resent send_ok d e) h =
    let (d', e', h') = resend-Sound send_ok c h in same_result _ d' d e' e h'

pub Reach-Sound : (c c' : Connection) → Reach c c' → Sound c → Sound c'
Reach-Sound c c' start h = h
Reach-Sound c c'' (next c' d r s) h = Step-Sound c' c'' s (Reach-Sound c c' r h)

-- Nothing is pending, and nothing was given yet.
unfoldable pub IsFresh : Connection → Type 0
IsFresh c =
    (c.requests.head ≡ none)
    × (c.requests.tail ≡ none)
    × (c.drained ≡ none)
    × (c.answered ≡ [])
    × (c.accepted ≡ [])
    × (c.refused ≡ [])

pub IsFresh-Sound : (c : Connection) → IsFresh c → Sound c
unfolding IsFresh
IsFresh-Sound c (head, tail, drained, answered, accepted, refused) = (
  [],
  [],
  record {
    list = record { chain = head; tail = tail; distinct = λ a. omega arith };
    chain = drained;
    apart = λ a. omega arith;
    kept = λ a. rw (answered, accepted) refl;
    once = λ a. rw (answered, refused) (omega arith);
  },
)
