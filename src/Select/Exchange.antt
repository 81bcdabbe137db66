-- ===== src/Select/Exchange.antt =====
-- src/shared/protocol.h and src/server/net.c: a client and a server that speak the same version.
use dnbd3_fuse_lowlevel.Prelude.{
  ℕ, ◌+◌, ◌^◌, ◌≤◌, ◌<◌, ◌≡◌, List, [], ◌∷◌, ◌++◌, Option, none, some, Bool, true, false, ◌&&◌,
  ◌||◌, ltb, ◌==◌, length, length-append, arith, refl, Bool-cases, inl, inr,
}
use dnbd3_fuse_lowlevel.Serialize.{
  Buffer, max_payload, reset_write, get_uint64, written_length, word_bytes,
}
use dnbd3_fuse_lowlevel.Serialize.Memory.{length-write, read-length, length-word_bytes, NoNull}
use dnbd3_fuse_lowlevel.Serialize.Items.{Item, uint16, uint64, string, all_bytes, put_items}
use dnbd3_fuse_lowlevel.Serialize.RoundTrip.{after, get_word-Holds}
use dnbd3_fuse_lowlevel.Select.{
  protocol_version, select_image, recv_request_payload, Config, Served, choose_image, admits,
  select_reply, Selection, answer, handshake, Selected, select_image_reply, sent_bytes,
}
use dnbd3_fuse_lowlevel.Select.Parse.{
  message, message-length, received-Holds, begin-Begun, split, received, request_items,
  handshake-request, begin_bytes-length, request_items-length, recv_request_payload-received,
}

abbrev reply_items : Served → List Item
reply_items image =
    uint16 protocol_version
    ∷ string image.name
    ∷ uint16 image.rid
    ∷ uint64 image.virtual_filesize
    ∷ []

-- An image as the list of images holds it.
pub record IsServed (image : Served) : Type 0 where
  pub name_ok : NoNull image.name
  pub name_short : length image.name ≤ 987
  pub rid_ok : image.rid < 2 ^ 16
  pub size_ok : image.virtual_filesize < 2 ^ 64

abbrev pub selected : Served → Selected
selected image = record {
  version = protocol_version;
  name = some image.name;
  rid = image.rid;
  image_size = image.virtual_filesize;
}

-- The client reads what the server says of the image.
select_image_reply-select_reply :
    (image : Served) (b c : Buffer)
    → IsServed image
    → length b.buffer ≡ max_payload
    → length c.buffer ≡ max_payload
    → select_image_reply true
        (written_length (select_reply protocol_version image b))
        (sent_bytes (select_reply protocol_version image b))
        c
      ≡ some (selected image)
unfolding select_image_reply select_reply
select_image_reply-select_reply image b c ok big_b big_c =
    let l4 = length-word_bytes 8 image.virtual_filesize in
    let a4 = length-append {0} (word_bytes 8 image.virtual_filesize) [] in
    let cut =
      begin_bytes-length protocol_version image.name image.rid
        (word_bytes 8 image.virtual_filesize ++ []) in
    let size : length (all_bytes (reply_items image)) ≡ length image.name + 13 = omega arith in
    let short = ok.name_short in
    let wrote = message-length (reply_items image) b c big_b (omega arith) in
    let holds = received-Holds (reply_items image) b c big_b big_c (omega arith) in
    let whole = length-write c.buffer 0 (message b (reply_items image)) in
    let p = received b (reply_items image) c in
    let begun =
      begin-Begun (received b (reply_items image) c) protocol_version image.name image.rid
        (word_bytes 8 image.virtual_filesize ++ []) holds (omega arith) ok.name_ok ok.rid_ok
        (omega arith) (omega arith) in
    let b3 = after (after (after p 2) (length image.name + 1)) 2 in
    let (h4, r4) =
      split p.buffer (0 + 2 + (length image.name + 1) + 2) 8 (word_bytes 8 image.virtual_filesize)
        [] l4 begun.left in
    let size_ok = ok.size_ok in
    let last : get_uint64 (after (after (after p 2) (length image.name + 1)) 2)
        ≡ (after (after (after (after p 2) (length image.name + 1)) 2) 8, image.virtual_filesize) =
      get_word-Holds 8 image.virtual_filesize b3 h4 (omega arith) (omega arith) in
    let sent =
      read-length (put_items (reset_write b) (reply_items image)).buffer 0
        (written_length (put_items (reset_write b) (reply_items image))) in
    let test : (ltb (written_length (put_items (reset_write b) (reply_items image))) 3
          || ltb max_payload (written_length (put_items (reset_write b) (reply_items image))))
        ≡ false =
      ground (arith, wrote, size) in
    let all_there : (length (message b (reply_items image))
          == written_length (put_items (reset_write b) (reply_items image)))
        ≡ true =
      ground (arith, sent) in
    rw (test, all_there, begun.first, begun.second, begun.third, last) refl

-- What comes of a request for an image: `chosen` is the image for the client, `admitted` says that
-- it works and is not clogged, and `c` is the buffer in which the client receives the reply.
abbrev pub Replied : Buffer → Option Served → Bool → Bool → Selection → Type 0
Replied c none admitted send_ok s = (s.image ≡ none) × (s.reply ≡ none) × (s.ok ≡ false)
Replied c (some image) false send_ok s = (s.image ≡ some image) × (s.reply ≡ none) × (s.ok ≡ false)
Replied c (some image) true send_ok s =
    (s.image ≡ some image)
    × (s.ok ≡ send_ok)
    × (reply : Buffer) × (s.reply ≡ some reply)
    × (select_image_reply true (written_length reply) (sent_bytes reply) c ≡ some (selected image))

abbrev pub is_admitted : Option Served → Bool → Bool
is_admitted none lucky = false
is_admitted (some image) lucky = image.working && admits image lucky

abbrev pub AreServed : Option Served → Type 0
AreServed none = Unit {0}
AreServed (some image) = IsServed image

answer-Replied :
    (flags : ℕ) (b4 c : Buffer) (lucky send_ok : Bool) (chosen : Option Served)
    → length b4.buffer ≡ max_payload
    → length c.buffer ≡ max_payload
    → AreServed chosen
    → Replied c chosen
        (is_admitted chosen lucky)
        send_ok
        (answer protocol_version flags b4 lucky send_ok chosen)
unfolding answer
answer-Replied flags b4 c lucky send_ok none big_b big_c ok = (refl, refl, refl)
answer-Replied flags b4 c lucky send_ok (some image) big_b big_c ok =
    elim (Bool-cases (image.working && admits image lucky)) [
      | inl t ↦ rw t (
        refl,
        refl,
        select_reply protocol_version image b4,
        refl,
        select_image_reply-select_reply image b4 c ok big_b big_c,
      )
      | inr f ↦ rw f (refl, refl, refl)
    ]

-- A client sends the request of `dnbd3_select_image` for a name without null bytes of at most 994
-- bytes, and all its bytes arrive. The server takes the payload in and chooses the image by just
-- that name, revision and flags. If there is none, or it does not work or its uplink is clogged, the
-- server sends no reply; else the client's `dnbd3_select_image_reply` reads from the reply the
-- protocol version and the name, revision and size of the chosen image.
pub select_image-handshake :
    (config : Config) (load get : List ℕ → ℕ → Option Served) (lucky send_ok : Bool)
    → (name : List ℕ) (rid flags : ℕ) (b r c : Buffer) → length b.buffer ≡ max_payload
    → length r.buffer ≡ max_payload
    → length c.buffer ≡ max_payload
    → NoNull name
    → length name ≤ 994
    → rid < 2 ^ 16
    → flags < 2 ^ 8
    → AreServed (choose_image config load get name rid flags)
    → (payload : Buffer) × (recv_request_payload
          (written_length (select_image name rid flags b))
          (sent_bytes (select_image name rid flags b))
          r
        ≡ some payload)
      × Replied c
          (choose_image config load get name rid flags)
          (is_admitted (choose_image config load get name rid flags) lucky)
          send_ok
          (handshake config load get lucky send_ok
            (written_length (select_image name rid flags b))
            payload)
unfolding select_image recv_request_payload
select_image-handshake config load get lucky send_ok name rid flags b r c big_b big_r big_c ok short
      r_ok f_ok served =
    let (b4, big4, same) =
      handshake-request config load get lucky send_ok name rid flags b r big_b big_r ok short r_ok
        f_ok in
    let size = request_items-length name rid flags in
    (
      received b (request_items name rid flags) r,
      recv_request_payload-received (request_items name rid flags) b r big_b (omega arith)
          (omega arith),
      rw same (
          answer-Replied flags b4 c lucky send_ok (choose_image config load get name rid flags) big4
            big_c served),
    )
