-- ===== src/Uplink/Replication/Request.antt =====
-- src/server/uplink.c: what `uplink_sendReplicationRequest` requests.
use dnbd3_fuse_lowlevel.Prelude.{
  ℕ, zero, suc, ◌+◌, ◌-◌, ◌*◌, ◌%◌, ◌^◌, ◌≤◌, ◌<◌, ◌≡◌, List, Option, none, some, Bool, true, false,
  not, ◌&&◌, ◌||◌, ltb, ◌==◌, get_or, arith, refl, ap, ◌∙◌, sym, ◌⊎◌, inl, inr, Bool-cases,
}
use native.Mathlib.Nat.{mod-lt, mod-eq_of_lt, add-mod_right}
use native.Mathlib.Decide.{dec_lt}
use dnbd3_fuse_lowlevel.Image.{Image, block_size, map_byte_size, map_bytes}
use dnbd3_fuse_lowlevel.Uplink.{is_none}
use dnbd3_fuse_lowlevel.Uplink.Link.{BlockRequest}
use dnbd3_fuse_lowlevel.Uplink.Replication.{
  full, find_byte, Replication, replication_index, replication_request, after_request,
  replicate_byte, send_replication_request,
}

-- The byte `i` of the map is worth a request.
abbrev pub wanted : List ℕ → ℕ → Bool → ℕ → Bool
wanted map len replicated i = not (get_or map i 0 == 0xff) && (not (i == len - 1) || not replicated)

-- The first byte, in cyclic order from `j` on, that is worth a request within `n` bytes.
abbrev pub FirstOf : List ℕ → ℕ → Bool → ℕ → ℕ → Option ℕ → Type 0
FirstOf map len replicated n j none =
    (k : ℕ) → k < n → wanted map len replicated ((j + k) % len) ≡ false
FirstOf map len replicated n j (some i) =
    (k : ℕ) × (k < n)
    × ((j + k) % len ≡ i)
    × (wanted map len replicated i ≡ true)
    × ((k' : ℕ) → k' < k → wanted map len replicated ((j + k') % len) ≡ false)

module _ (map : List ℕ) (len : ℕ) (replicated : Bool) where
  misses :
      (n j : ℕ)
      → wanted map len replicated (j % len) ≡ false
      → ((k : ℕ) → k < n → wanted map len replicated ((j + 1 + k) % len) ≡ false)
      → (k : ℕ) → k < suc n
      → wanted map len replicated ((j + k) % len) ≡ false
  misses n j not_here later zero small = let same : j + 0 ≡ j = omega arith in rw same not_here
  misses n j not_here later (suc k) small =
      let same : j + suc k ≡ j + 1 + k = omega arith in rw same (later k (omega arith))

  FirstOf-cons :
      (n j : ℕ) (r : Option ℕ)
      → wanted map len replicated (j % len) ≡ false
      → FirstOf map len replicated n (j + 1) r
      → FirstOf map len replicated (suc n) j r
  FirstOf-cons n j none not_here f = misses n j not_here f
  FirstOf-cons n j (some i) not_here (k, small, at, w, before) =
      let same : j + suc k ≡ j + 1 + k = omega arith in
      (suc k, omega arith, rw same at, w, misses k j not_here before)

  find_byte-FirstOf : (n j : ℕ) → FirstOf map len replicated n j (find_byte n j len replicated map)
  unfolding find_byte
  find_byte-FirstOf zero j = λ k small. absurd (omega arith)
  find_byte-FirstOf (suc n) j = elim (Bool-cases (wanted map len replicated (j % len))) [
    | inl t ↦
        (let same : j + 0 ≡ j = omega arith in
          rw t (0, omega arith, rw same refl, t, λ k' small. absurd (omega arith)))
    | inr f ↦ rw f (FirstOf-cons n j _ f (find_byte-FirstOf n (j + 1)))
  ]

-- A request for the byte `i` of the map: inside the image, not empty, at most 32 KiB, from the first
-- byte of the file that `i` stands for, and for all that `i` stands for if the image has that much.
pub record IsFor (size i : ℕ) (m : BlockRequest) : Type 0 where
  pub starts : m.offset ≡ i * map_byte_size
  pub filled : 0 < m.size
  pub ends : m.offset + m.size ≤ size
  pub whole : (m.size ≡ map_byte_size) ⊎ (m.offset + m.size ≡ size)
  pub handle : m.handle ≡ m.offset

replication_request-IsFor :
    (version size i : ℕ)
    → size ≤ 2 ^ 46
    → i < map_bytes size
    → IsFor size i (replication_request version size i)
unfolding replication_request
replication_request-IsFor version size i small inside = record {
  starts = omega arith;
  filled = omega arith;
  ends = omega arith;
  whole = ground arith;
  handle = refl;
}

-- What a call may do with a map of a full replication: nothing is missing and the replication ends,
-- or the first byte from the index on is requested, and the next call goes on behind it.
abbrev pub Requested : ℕ → List ℕ → Bool → ℕ → Replication × Option BlockRequest → Type 0
Requested size map last next (rep', none) =
    (rep'.next_index ≡ none)
    × ((i : ℕ) → i < map_bytes size → wanted map (map_bytes size) last i ≡ false)
Requested size map last next (rep', some m) =
    (i : ℕ) × (i < map_bytes size)
    × FirstOf map (map_bytes size) last (map_bytes size) next (some i)
    × IsFor size i m
    × (rep'.next_index ≡ some (i + 1))
    × (rep'.handle ≡ some m.offset)

all_missed :
    (map : List ℕ) (len next : ℕ) (replicated : Bool)
    → next ≤ len
    → FirstOf map len replicated len next none
    → (i : ℕ) → i < len
    → wanted map len replicated i ≡ false
all_missed map len next replicated inside f i small = elim (dec_lt i next) [
  | no ge ↦
      (let same : (next + (i - next)) % len ≡ i =
          ap (λ x. x % len) {y = i} (omega arith) ∙ mod-eq_of_lt small in
        ap (wanted map len replicated) (sym same) ∙ f (i - next) (omega arith))
  | yes lt ↦
      (let same : (next + (len - next + i)) % len ≡ i =
          ap (λ x. x % len) {y = i + len} (omega arith)
          ∙ add-mod_right i len
          ∙ mod-eq_of_lt small in
        ap (wanted map len replicated) (sym same) ∙ f (len - next + i) (omega arith))
]

replicate_byte-Requested :
    (version size next : ℕ) (map : List ℕ) (rep : Replication) (r : Option ℕ)
    → next ≤ map_bytes size
    → size ≤ 2 ^ 46
    → 0 < map_bytes size
    → FirstOf map (map_bytes size) rep.replicated_last (map_bytes size) next r
    → Requested size map rep.replicated_last next (replicate_byte full version true map size rep r)
unfolding replicate_byte after_request
replicate_byte-Requested version size next map rep none inside small pos f =
    (refl, all_missed map (map_bytes size) next rep.replicated_last inside f)
replicate_byte-Requested version size next map rep (some i) inside small pos f =
    let (k, lt, at, w, before) = f in
    let inside_map : i < map_bytes size = omega (arith, at, mod-lt (next + k) pos) in
    let m = replication_request-IsFor version size i small inside_map in
    (i, inside_map, f, m, refl, refl)

replication_index-full :
    (map : List ℕ) (size next : ℕ) (last : Bool)
    → replication_index full map size last next
      ≡ find_byte (map_bytes size) next (map_bytes size) last map
unfolding replication_index
replication_index-full map size next last =
    let rounds : next + map_bytes size - next ≡ map_bytes size = omega arith in
    rw rounds
      (elim (Bool-cases (is_none (find_byte (map_bytes size) next (map_bytes size) last map))) [
        | inl t ↦ rw t refl
        | inr f ↦ rw f refl
      ])

-- A call of `uplink_sendReplicationRequest` for full replication, where it may send and sending
-- works, with an image of at most 2 ^ 46 bytes and the next index inside the map or at its end: it
-- requests the first byte of the map, in cyclic order, that is not full, the last one only if it was
-- not requested before, and goes on behind it; if there is none, replication ends.
pub send_replication_request-full :
    (version users min_clients next : ℕ) (image : Image) (map : List ℕ) (last : Bool)
    → image.cache_map ≡ some map
    → next ≤ map_bytes image.virtual_filesize
    → block_size ≤ image.virtual_filesize
    → image.virtual_filesize ≤ 2 ^ 46
    → min_clients ≤ users
    → Requested image.virtual_filesize map last next (
        send_replication_request full min_clients true users version true image
          (record { next_index = some next; replicated_last = last; handle = none }))
unfolding send_replication_request
send_replication_request-full version users min_clients next image map last is_map inside big small
      enough =
    let go : (ltb image.virtual_filesize block_size || ltb users min_clients) ≡ false =
      ground arith in
    let rep : Replication = record {
      next_index = some next;
      replicated_last = last;
      handle = none;
    } in
    rw (go, is_map, replication_index-full map image.virtual_filesize next last)
      (replicate_byte-Requested version image.virtual_filesize next map rep _ inside small
        (omega arith)
        (find_byte-FirstOf map (map_bytes image.virtual_filesize) last
          (map_bytes image.virtual_filesize) next))
