-- ===== src/AltServers/ForClient.antt =====
-- src/server/altservers.c: `altservers_getListForClient`, the list of servers that a client is told.
pub mod Arrays
pub mod Ranked
pub mod Places
pub mod Listed
use dnbd3_fuse_lowlevel.Prelude.{
  ℕ, zero, suc, ◌+◌, ◌-◌, List, [], ◌∷◌, Option, none, some, Bool, true, false, ◌&&◌, ◌||◌, ltb,
  leb, ◌==◌, if◌then◌else◌, set, get_or, length,
}
use dnbd3_fuse_lowlevel.Prelude.Ints.{ℤ, pos, negsuc, sub_int, leb_int}
use dnbd3_fuse_lowlevel.Host.{Host}
use dnbd3_fuse_lowlevel.AltServers.{AltServer, is_empty, net_closeness}

-- `dnbd3_server_entry_t`
pub record ServerEntry : Type 0 where
  pub host : Host
  pub failures : ℕ

abbrev pub to_entry : AltServer → ServerEntry
to_entry s = record { host = s.host; failures = 0 }

-- How near a server is to the client.
pub score : Host → AltServer → ℤ
unfolding sub_int
score host s =
    if host.type == s.host.type
    then (elim (net_closeness host s.host) [
      | none ↦ negsuc s.num_fails
      | some near ↦ sub_int near s.num_fails
    ])
    else negsuc (s.num_fails + 127)

-- `memmove( &a[j + 1], &a[j], sizeof(a[0]) * (size - j - 1) )`; `push` moves what comes after `x`.
pub push {ℓ} : {A : Type ℓ} → ℕ → A → List A → List A
push zero x ys = ys
push (suc n) x [] = []
push (suc n) x (y ∷ ys) = x ∷ push n y ys

pub shift_up {ℓ} : {A : Type ℓ} → ℕ → ℕ → List A → List A
unfolding push
shift_up size j [] = []
shift_up size zero (x ∷ xs) = x ∷ push (size - 1) x xs
shift_up size (suc j) (x ∷ xs) = x ∷ shift_up (size - 1) j xs

-- A value is entered at `j` into the first `count` of `size` places.
pub enter {ℓ} : {A : Type ℓ} → ℕ → ℕ → ℕ → A → List A → List A
unfolding shift_up
enter size count j v xs =
    set (if ltb j count && ltb (j + 1) size then shift_up size j xs else xs) j v

-- The arrays `output` and `scores`, and `count`.
pub record Listing : Type 0 where
  pub output : List ServerEntry
  pub scores : List ℤ
  pub count : ℕ

-- The inner loop from `j` on, for the `k` places left: where the server is entered.
pub find_place : ℕ → ℤ → List ℤ → ℕ → ℕ → Option ℕ
find_place zero mine scores count j = none
find_place (suc k) mine scores count j =
    let rest = find_place k mine scores count (j + 1) in
    if ltb j count && leb_int mine (get_or scores j (pos 0)) then rest else some j

pub enter_server : ℕ → ℕ → ℤ → AltServer → Listing → Listing
unfolding enter
enter_server size j mine s l = record {
  output = enter size l.count j (to_entry s) l.output;
  scores = enter size l.count j mine l.scores;
  count = if ltb l.count size then l.count + 1 else l.count;
}

-- One round of the loop over the servers.
pub consider : Host → ℕ → AltServer → Listing → Listing
unfolding score find_place enter_server
consider host size s l =
    if is_empty s
    then l
    else if s.is_private
    then l
    else (let mine = score host s in
        if l.count == 0
        then record {
          output = set l.output 0 (to_entry s);
          scores = set l.scores 0 mine;
          count = 1;
        }
        else (elim (find_place size mine l.scores l.count 0) [
          | none ↦ l
          | some j ↦ if ltb l.count j then l else enter_server size j mine s l
        ]))

pub consider_all : Host → ℕ → List AltServer → Listing → Listing
unfolding consider
consider_all host size [] l = l
consider_all host size (s ∷ ss) l = consider_all host size ss (consider host size s l)

-- `altservers_getListForClient`; `scores` is what the array holds at first.
unfoldable pub get_list_for_client :
    Host → List AltServer → List ServerEntry → List ℤ → ℕ → List ServerEntry × ℕ
unfolding consider_all
get_list_for_client host servers output scores size =
    if host.type == 0 || (length servers == 0 || size == 0)
    then (output, 0)
    else (let size' = if ltb (length servers) size then length servers else size in
        let l =
          consider_all host size' servers
            (record { output = output; scores = scores; count = 0 }) in
        (l.output, l.count))
