-- ===== src/Fuse.antt =====
-- src/fuse/connection.c: the list of pending requests of the fuse client, a linked list whose nodes
-- are the requests. A request is the number of its struct; `next` gives the field of each.
pub mod Chains
pub mod Queue
pub mod Removal
pub mod Client
pub mod Servers
use dnbd3_fuse_lowlevel.Prelude.{
  ℕ, zero, suc, List, [], ◌∷◌, Option, none, some, Bool, true, false, ◌==◌, if◌then◌else◌,
}
use dnbd3_fuse_lowlevel.Prelude.Maps.{update}
use dnbd3_fuse_lowlevel.Slots.{holds}

-- `requests`, with the field `next` of the structs.
pub record Requests : Type 0 where
  pub head : Option ℕ
  pub tail : Option ℕ
  pub next : ℕ → Option ℕ

-- `enqueueRequest`; `none` if it reads through a null pointer.
pub enqueue_request : ℕ → Requests → Option Requests
enqueue_request p q = elim q.head [
  | none ↦ some (record { head = some p; tail = some p; next = update q.next p none })
  | some h ↦ elim q.tail [
    | none ↦ none
    | some t ↦
        some
          (record { head = q.head; tail = some p; next = update (update q.next p none) t (some p) })
  ]
]

-- The node `i` behind `prev` is taken out.
pub unlink : Option ℕ → ℕ → Requests → Requests
unlink prev i q = record {
  head = elim prev [ none ↦ q.next i | some r ↦ q.head ];
  tail = if holds q.tail i then prev else q.tail;
  next = elim prev [ none ↦ q.next | some r ↦ update q.next r (q.next i) ];
}

-- The loop of `removeRequest` from `it` on, which is behind `prev`, for at most `n` nodes; `none` if
-- there are more. With the result, `none` for a null pointer.
pub remove_from : ℕ → ℕ → Option ℕ → Option ℕ → Requests → Option (Option ℕ × Requests)
unfolding unlink
remove_from zero p prev it q = none
remove_from (suc n) p prev none q = some (none, q)
remove_from (suc n) p prev (some i) q =
    let rest = remove_from n p (some i) (q.next i) q in
    if i == p then some (some i, unlink prev i q) else rest

-- `removeRequest`
pub remove_request : ℕ → ℕ → Requests → Option (Option ℕ × Requests)
unfolding remove_from
remove_request n p q = remove_from n p none q.head q
