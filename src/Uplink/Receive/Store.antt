-- ===== src/Uplink/Receive/Store.antt =====
-- src/server/uplink.c: a block counts as cached only if its bytes are in the cache file.
use dnbd3_fuse_lowlevel.Prelude.{
  ℕ, suc, ◌+◌, ◌*◌, ◌/◌, ◌≤◌, ◌<◌, ◌≡◌, List, [], ◌∷◌, ◌++◌, Option, none, some, Bool, true, false,
  ◌&&◌, ◌||◌, ltb, leb, arith, refl, ap, ◌∙◌, Bool-cases, inl, inr,
}
use dnbd3_fuse_lowlevel.Prelude.Words.{add64}
use dnbd3_fuse_lowlevel.Image.{Image}
use dnbd3_fuse_lowlevel.Image.CacheMap.Update.{IsValid, image_cached, update_cachemap-set}
use dnbd3_fuse_lowlevel.Uplink.{Reply, is_none, is_empty}
use dnbd3_fuse_lowlevel.Uplink.Queue.{IsWellFormed}
use dnbd3_fuse_lowlevel.Uplink.Queue.Dispatch.{handle_reply_lem}
use dnbd3_fuse_lowlevel.Uplink.Link.{BlockRequest}
use dnbd3_fuse_lowlevel.Uplink.Replication.{Mode, Replication}
use dnbd3_fuse_lowlevel.Uplink.Receive.{
  Write, write_loop, Receiver, cache_block, receive_block, Incoming, block, other, nothing, broken,
  connection_failed, end_run, handle_receive,
}
use dnbd3_fuse_lowlevel.Uplink.Receive.Loop.{Wrote, write_loop-Wrote}

-- The map says of no block that it is cached unless all its bytes were written.
abbrev pub IsBacked : Image → (ℕ → Bool) → Type 0
IsBacked image stored =
    (k : ℕ)
    → k < image.virtual_filesize / 4096
    → image_cached image k ≡ true
    → (b : ℕ) → 4096 * k ≤ b
    → b < 4096 * suc k
    → stored b ≡ true

-- What holds between the messages of a run.
pub record IsSound (size : ℕ) (r : Receiver) : Type 0 where
  pub valid : IsValid r.image
  pub same_size : r.image.virtual_filesize ≡ size
  pub backed : IsBacked r.image r.stored
  pub queue : IsWellFormed r.queue

cache_block-IsSound :
    (total start size : ℕ) (cache_ok : Bool) (writes : List Write) (r : Receiver)
    → IsSound total r
    → start + size ≤ total
    → (r' : Receiver) × (cache_block start size cache_ok writes r ≡ some r')
      × IsSound total r'
      × (r'.queue ≡ r.queue)
unfolding cache_block
cache_block-IsSound total start size false writes r s inside = (r, refl, s, refl)
cache_block-IsSound total start size true writes r s inside =
    let w = write_loop-Wrote start size true 0 r.stored writes (omega arith) in
    let done = (write_loop start size true 0 r.stored writes).0 in
    let stored = (write_loop start size true 0 r.stored writes).1 in
    let written = w.within in
    elim (Bool-cases (ltb 0 (write_loop start size true 0 r.stored writes).0)) [
      | inr f ↦ rw f (
        record r { stored = stored },
        refl,
        record {
          valid = s.valid;
          same_size = s.same_size;
          backed = λ k small c b lo hi. ground (arith, w.exact b, s.backed k small c b lo hi);
          queue = s.queue;
        },
        refl,
      )
      | inl t ↦
          (let whole = s.valid.whole in
            let bound = s.valid.small in
            let end : add64 start (write_loop start size true 0 r.stored writes).0
                ≡ start + (write_loop start size true 0 r.stored writes).0 =
              omega arith in
            let (image', checks, e, frame, valid', exact) =
              update_cachemap-set r.image start
                (start + (write_loop start size true 0 r.stored writes).0) s.valid (omega arith)
                (omega arith) in
            let same : image'.virtual_filesize ≡ r.image.virtual_filesize =
              ap (λ i. i.virtual_filesize) frame in
            rw (t, end, e)
              (
                record r { image = image'; stored = stored },
                refl,
                record {
                  valid = valid';
                  same_size = same ∙ s.same_size;
                  backed = backed_by image' done stored w same exact;
                  queue = s.queue;
                },
                refl,
              ))
    ]
  where
    backed_by :
        (image' : Image) (done : ℕ) (stored : ℕ → Bool)
        → Wrote start size 0 r.stored (done, stored)
        → image'.virtual_filesize ≡ r.image.virtual_filesize
        → ((k : ℕ)
            → k < r.image.virtual_filesize / 4096
            → image_cached image' k ≡ (
                image_cached r.image k
                || (leb start (4096 * k) && leb (4096 * suc k) (start + done))))
        → IsBacked image' stored
    backed_by image' done stored w same exact k small c b lo hi =
        let small' : k < r.image.virtual_filesize / 4096 = omega arith in
        let now = exact k small' in
        let bytes = w.exact b in
        elim (Bool-cases (image_cached r.image k)) [
          | inl old ↦ (let was = s.backed k small' old b lo hi in ground (arith, bytes))
          | inr new ↦
              (let range : (leb start (4096 * k) && leb (4096 * suc k) (start + done)) ≡ true =
                  ground (arith, c, now, new) in
                ground (arith, bytes, range))
        ]

receive_block-IsSound :
    (total start size : ℕ) (cache_ok : Bool) (writes : List Write) (r : Receiver)
    → IsSound total r
    → start + size ≤ total
    → (r' : Receiver) × (replies : List Reply) × (receive_block start size cache_ok writes r
        ≡ some (r', replies))
      × IsSound total r'
unfolding receive_block
receive_block-IsSound total start size cache_ok writes r s inside =
    let (r1, e, s', same) = cache_block-IsSound total start size cache_ok writes r s inside in
    let (queue, replies, dispatch, well, trimmed, left, sent) =
      handle_reply_lem start (add64 start size) r1.queue s'.queue in
    rw (e, receive_block, dispatch)
      (
        _,
        _,
        refl,
        record { valid = s'.valid; same_size = s'.same_size; backed = s'.backed; queue = well },
      )

-- Every block that comes in lies inside the image.
abbrev pub AllInside : ℕ → List Incoming → Type 0
AllInside total [] = Unit {0}
AllInside total (block start size cache_ok writes ∷ more) =
    (start + size ≤ total) × AllInside total more
AllInside total (other ∷ more) = AllInside total more
AllInside total (nothing ∷ more) = AllInside total more
AllInside total (broken ∷ more) = AllInside total more

-- A run that ends well, with a state that is sound.
abbrev pub Ends : ℕ → Option (Receiver × List Reply × Option BlockRequest × Bool) → Type 0
Ends total result =
    (r' : Receiver) × (replies : List Reply) × (message : Option BlockRequest) × (good : Bool)
    × (result ≡ some (r', replies, message, good))
    × IsSound total r'

replication-IsSound :
    (total : ℕ) (r : Receiver) (rep : Replication)
    → IsSound total r
    → IsSound total (record r { replication = rep })
replication-IsSound total r rep s = record {
  valid = s.valid;
  same_size = s.same_size;
  backed = s.backed;
  queue = s.queue;
}

end_run-IsSound :
    (total : ℕ) (send : Image → Replication → Replication × Option BlockRequest) (r : Receiver)
    → IsSound total r
    → IsSound total (end_run send r).0
unfolding end_run
end_run-IsSound total send r s =
    elim (Bool-cases (is_none r.replication.handle && is_empty r.queue)) [
      | inl t ↦ rw t (replication-IsSound total r _ s)
      | inr f ↦ rw f s
    ]

-- A run of `uplink_handleReceive` over any messages whose blocks lie inside the image, whatever the
-- results of writing to the cache file, fails no assert and keeps this: the image is valid, of every
-- block that its map says is cached all bytes were written to the file, and the queue is well formed.
pub handle_receive-IsSound :
    (mode : Mode) (max_payload total : ℕ)
    (send : Image → Replication → Replication × Option BlockRequest)
    → (incoming : List Incoming) (r : Receiver) → IsSound total r
    → AllInside total incoming
    → Ends total (handle_receive mode max_payload send incoming r)
unfolding handle_receive
handle_receive-IsSound mode max_payload total send [] r s a = (r, [], none, true, refl, s)
handle_receive-IsSound mode max_payload total send (nothing ∷ more) r s a =
    ((end_run send r).0, [], (end_run send r).1, true, refl, end_run-IsSound total send r s)
handle_receive-IsSound mode max_payload total send (broken ∷ more) r s a =
    (_, [], none, false, refl, replication-IsSound total r (connection_failed mode r.replication) s)
handle_receive-IsSound mode max_payload total send (other ∷ more) r s a =
    handle_receive-IsSound mode max_payload total send more r s a
handle_receive-IsSound mode max_payload total send (block start size cache_ok writes ∷ more) r s
      (inside, a) =
    let (r1, replies, e, s1) = receive_block-IsSound total start size cache_ok writes r s inside in
    let (r2, later, message, good, e2, s2) =
      handle_receive-IsSound mode max_payload total send more r1 s1 a in
    elim (Bool-cases (ltb max_payload size)) [
      | inl t ↦ rw t (
        _,
        [],
        none,
        false,
        refl,
        replication-IsSound total r (connection_failed mode r.replication) s,
      )
      | inr f ↦ rw (f, e, e2) (r2, replies ++ later, message, good, refl, s2)
    ]
