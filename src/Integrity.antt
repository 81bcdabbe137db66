-- ===== src/Integrity.antt =====
-- src/server/integrity.c: the queue of hash blocks to check, and the work on one entry of it.
-- An `int` is its bit pattern; block numbers are never negative but for the argument -1, here `none`.
pub mod Attach
mod Tests
pub mod Schedule
pub mod Work
use dnbd3_fuse_lowlevel.Prelude.{
  ℕ, zero, suc, ◌+◌, ◌-◌, ◌*◌, ◌/◌, ◌%◌, ◌^◌, List, [], ◌∷◌, ◌++◌, Option, none, some, Bool, true,
  false, not, ◌&&◌, ◌||◌, ltb, leb, ◌==◌, if◌then◌else◌, length, set, min,
}
use dnbd3_fuse_lowlevel.Prelude.Words.{add32, sub32}
use dnbd3_fuse_lowlevel.Image.{hash_block_size}

-- `CHECK_QUEUE_SIZE` and `CHECK_ALL`
abbrev pub check_queue_size : ℕ
check_queue_size = 200

abbrev pub check_all : ℕ
check_all = 0x7fff_ffff

-- `queue_entry`; an image is the number of its struct.
pub record QueueEntry : Type 0 where
  pub image : Option ℕ
  pub block : ℕ
  pub count : ℕ

abbrev pub is_image : Option ℕ → ℕ → Bool
is_image none image = false
is_image (some i) image = i == image

abbrev pub no_image : Option ℕ → Bool
no_image none = true
no_image (some i) = false

-- `checkQueue[i].block <= block && checkQueue[i].block + checkQueue[i].count >= block`
pub dominates : QueueEntry → Option ℕ → Bool
dominates e none = false
dominates e (some block) =
    let sum = add32 e.block e.count in leb e.block block && (ltb sum (2 ^ 31) && leb block sum)

-- The entry that the request is attached to, expanded if it ends just before the block.
pub expand : QueueEntry → Option ℕ → QueueEntry
expand e none = e
expand e (some block) =
    if add32 e.block e.count == block then record e { count = add32 e.count 1 } else e

-- The loop of `integrity_check` over the entries from slot `i` on: the entries with the request
-- attached to one of them, or else the first free slot.
pub data Search : Type 0 where
  attached : List QueueEntry → Search
  free_slot : Option ℕ → Search

abbrev pub put_back : QueueEntry → Search → Search
put_back e (attached es) = attached (e ∷ es)
put_back e (free_slot slot) = free_slot slot

pub search_slot : ℕ → Option ℕ → ℕ → List QueueEntry → Option ℕ → Search
unfolding dominates expand
search_slot image block i [] slot = free_slot slot
search_slot image block i (e ∷ es) slot =
    let found = no_image slot && no_image e.image in
    let rest = search_slot image block (i + 1) es (if found then some i else slot) in
    if not found && (is_image e.image image && dominates e block)
    then attached (expand e block ∷ es)
    else put_back e rest

pub new_entry : ℕ → Option ℕ → QueueEntry
new_entry image none = record { image = some image; block = 0; count = check_all }
new_entry image (some block) = record { image = some image; block = block; count = 1 }

pub insert_entry : ℕ → Option ℕ → List QueueEntry → Search → List QueueEntry
unfolding new_entry
insert_entry image block queue (attached es) = es
insert_entry image block queue (free_slot (some slot)) = set queue slot (new_entry image block)
insert_entry image block queue (free_slot none) =
    if leb check_queue_size (length queue) then queue else queue ++ (new_entry image block ∷ [])

-- `integrity_check`: the queue after it, `running` being `bRunning`.
pub integrity_check : Bool → ℕ → Option ℕ → List QueueEntry → List QueueEntry
unfolding search_slot insert_entry
integrity_check running image block queue =
    if running then insert_entry image block queue (search_slot image block 0 queue none) else queue

-- What the work on an entry depends on: which blocks are complete, which can be opened for reading,
-- and which have the right checksum; at which blocks the loop finds `_shutdown` set. The program
-- exits if the file cannot be flushed.
pub record Blocks : Type 0 where
  pub virtual_filesize : ℕ
  pub hash_blocks : ℕ
  pub complete : ℕ → Bool
  pub readable : ℕ → Bool
  pub intact : ℕ → Bool
  pub shutdown : ℕ → Bool

-- The calls for a corrupted block: `image_updateCachemap` with `false` for a range, and
-- `integrity_check` with -1, which no entry takes in, so that the one at work stays as it is.
pub data Call : Type 0 where
  clear_range : ℕ → ℕ → Call
  queue_full_check : Call

pub corrupted_calls : Bool → Blocks → ℕ → List Call
corrupted_calls full b block =
    clear_range (block * hash_block_size) (min ((block + 1) * hash_block_size) b.virtual_filesize)
    ∷ (if full then [] else queue_full_check ∷ [])

-- The loop over the blocks of an entry: the next block, the checks left, the blocks found corrupted,
-- and the calls made for them.
pub record Round : Type 0 where
  pub next : ℕ
  pub check_count : ℕ
  pub corrupted : List ℕ
  pub calls : List Call

-- `while ( blocks[0] < numHashBlocks && !_shutdown )`; `full` is `qCount == CHECK_ALL`.
pub check_blocks : ℕ → Bool → Blocks → Round → Round
unfolding corrupted_calls
check_blocks zero full b r = r
check_blocks (suc fuel) full b r =
    let complete = not full || b.complete r.next in
    let bad = complete && not (b.intact r.next) in
    let left = if complete then sub32 r.check_count 1 else r.check_count in
    let r' : Round = record {
      next = r.next + 1;
      check_count = left;
      corrupted = if bad then r.corrupted ++ (r.next ∷ []) else r.corrupted;
      calls = if bad then r.calls ++ corrupted_calls full b r.next else r.calls;
    } in
    let rest = check_blocks fuel full b r' in
    if not (ltb r.next b.hash_blocks && not (b.shutdown r.next))
    then r
    else if not (b.readable r.next)
    then r
    else if complete && (left == 0)
    then r'
    else rest

-- The entry after the loop: its count is brought up to date, and it is given up or goes on.
pub finish_entry : Bool → QueueEntry → Round → QueueEntry
finish_entry fd_ok e r =
    let count = if e.count == check_all then e.count else sub32 e.count (sub32 r.next e.block) in
    let ended = not (r.check_count == 0) || ((count == 0) || (leb (2 ^ 31) count || not fd_ok)) in
    if ended
    then record { image = none; block = e.block; count = count }
    else record { image = e.image; block = r.next; count = count }

-- The work of `integrity_main` on one entry whose image is there and has a checksum list: the entry
-- after it, the blocks found corrupted, and the calls made for them; `fd_ok` says that a descriptor
-- could be opened. The field `working` of the image is left out.
pub work_entry : Blocks → Bool → QueueEntry → QueueEntry × List ℕ × List Call
unfolding check_blocks finish_entry
work_entry b fd_ok e =
    let start : Round = record {
      next = e.block;
      check_count = min e.count 5;
      corrupted = [];
      calls = [];
    } in
    let r = if fd_ok then check_blocks b.hash_blocks (e.count == check_all) b start else start in
    (finish_entry fd_ok e r, r.corrupted, r.calls)
