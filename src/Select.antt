-- ===== src/Select.antt =====
-- src/shared/protocol.h and src/server/net.c: how a client selects an image. The bytes that a socket
-- delivers are arguments; `sock_recv` gives fewer than asked for if the connection ends.
pub mod Parse
pub mod Exchange
mod Tests
use dnbd3_fuse_lowlevel.Prelude.{
  ℕ, zero, suc, ◌+◌, ◌^◌, List, [], ◌∷◌, Option, none, some, Bool, true, false, not, ◌&&◌, ◌||◌,
  ltb, leb, ◌==◌, if◌then◌else◌, length,
}
use dnbd3_fuse_lowlevel.Prelude.Bytes.{has_bit}
use dnbd3_fuse_lowlevel.Uplink.{is_none}
use dnbd3_fuse_lowlevel.Serialize.{
  Buffer, max_payload, reset_read, reset_write, write, read, get_uint8, get_uint16, get_uint64,
  get_string, put_uint8, put_uint16, put_uint64, put_string, written_length,
}

-- `PROTOCOL_VERSION`, `MIN_SUPPORTED_CLIENT` and `SERVER_UPLINK_QUEUELEN_THRES`
abbrev pub protocol_version : ℕ
protocol_version = 3

abbrev pub min_supported_client : ℕ
min_supported_client = 2

abbrev pub uplink_queuelen_thres : ℕ
uplink_queuelen_thres = 900

-- The payload of `dnbd3_select_image`.
pub select_image : List ℕ → ℕ → ℕ → Buffer → Buffer
select_image name rid flags8 serialized =
    put_uint8
      (put_uint16 (put_string (put_uint16 (reset_write serialized) protocol_version) name) rid)
      flags8

-- `recv_request_payload`, `bytes` being what the socket delivers.
pub recv_request_payload : ℕ → List ℕ → Buffer → Option Buffer
recv_request_payload size bytes payload =
    if (size == 0) || (ltb max_payload size || not (length bytes == size))
    then none
    else some (reset_read (record payload { buffer = write payload.buffer 0 bytes }) size)

-- The settings `_isProxy`, `_backgroundReplication == BGR_FULL` and `_lookupMissingForProxy`.
pub record Config : Type 0 where
  pub is_proxy : Bool
  pub bgr_full : Bool
  pub lookup_missing_for_proxy : Bool

-- What the handshake reads of an image; it has a cache map unless it is complete. Of the uplink it
-- reads whether it has a cache file, and the length of its queue.
pub record Served : Type 0 where
  pub name : List ℕ
  pub rid : ℕ
  pub complete : Bool
  pub working : Bool
  pub virtual_filesize : ℕ
  pub uplink : Option (Bool × ℕ)

-- `FLAGS8_SERVER` and `FLAGS8_BG_REP`
abbrev pub is_server_flag : ℕ → Bool
is_server_flag flags = has_bit flags 0

abbrev pub bg_rep_flag : ℕ → Bool
bg_rep_flag flags = has_bit flags 1

abbrev pub only_complete : Option Served → Option Served
only_complete none = none
only_complete (some image) = if image.complete then some image else none

-- The image for the client; `load` is `image_getOrLoad` and `get` is `image_get`.
pub choose_image :
    Config
    → (List ℕ → ℕ → Option Served)
    → (List ℕ → ℕ → Option Served)
    → List ℕ
    → ℕ
    → ℕ
    → Option Served
choose_image config load get name rid flags =
    if not (is_server_flag flags) || not config.is_proxy
    then load name rid
    else if not config.bgr_full && bg_rep_flag flags
    then only_complete (get name rid)
    else if config.lookup_missing_for_proxy
    then load name rid
    else get name rid

-- The uplink of an incomplete image is missing, without a cache file, or clogged.
abbrev pub is_clogged : Option (Bool × ℕ) → Bool
is_clogged none = true
is_clogged (some (cache_ok, queue_len)) = not cache_ok || ltb uplink_queuelen_thres queue_len

-- `bOk` before the reply, `lucky` being `( rand() % 4 ) == 1`.
pub admits : Served → Bool → Bool
admits image lucky = if image.complete || not (is_clogged image.uplink) then true else lucky

-- The payload of the reply.
pub select_reply : ℕ → Served → Buffer → Buffer
select_reply client_version image payload =
    put_uint64
      (put_uint16
        (put_string
          (put_uint16 (reset_write payload)
            (if ltb client_version 3 then client_version else protocol_version))
          image.name)
        image.rid)
      image.virtual_filesize

-- What the handshake leaves: `isServer` and `image` of the client, what was sent, and `bOk`.
pub record Selection : Type 0 where
  pub is_server : Bool
  pub image : Option Served
  pub reply : Option Buffer
  pub ok : Bool

pub answer : ℕ → ℕ → Buffer → Bool → Bool → Option Served → Selection
unfolding admits select_reply
answer client_version flags payload lucky send_ok none = record {
  is_server = is_server_flag flags;
  image = none;
  reply = none;
  ok = false;
}
answer client_version flags payload lucky send_ok (some image) =
    if image.working && admits image lucky
    then record {
      is_server = is_server_flag flags;
      image = some image;
      reply = some (select_reply client_version image payload);
      ok = send_ok;
    }
    else record { is_server = is_server_flag flags; image = some image; reply = none; ok = false }

abbrev pub named : Option (List ℕ) → List ℕ
named none = []
named (some name) = name

-- The handshake of `net_handleNewConnection` from the received payload on.
pub handshake :
    Config
    → (List ℕ → ℕ → Option Served)
    → (List ℕ → ℕ → Option Served)
    → Bool
    → Bool
    → ℕ
    → Buffer
    → Selection
unfolding choose_image answer
handshake config load get lucky send_ok size payload =
    let (b1, client_version) = get_uint16 payload in
    let (b2, image_name) = get_string b1 in
    let (b3, rid) = get_uint16 b2 in
    let (b4, flags) = get_uint8 b3 in
    if ltb size 3 || (is_none image_name || ltb client_version min_supported_client)
    then record { is_server = is_server_flag flags; image = none; reply = none; ok = false }
    else answer client_version flags b4 lucky send_ok
        (choose_image config load get (named image_name) rid flags)

-- What `dnbd3_select_image_reply` reads of a reply.
pub record Selected : Type 0 where
  pub version : ℕ
  pub name : Option (List ℕ)
  pub rid : ℕ
  pub image_size : ℕ

-- `dnbd3_select_image_reply` of a reply whose header arrived, with `is_select` for the command
-- CMD_SELECT_IMAGE.
pub select_image_reply : Bool → ℕ → List ℕ → Buffer → Option Selected
select_image_reply is_select size bytes buffer =
    if not is_select || (ltb size 3 || ltb max_payload size)
    then none
    else if not (length bytes == size)
    then none
    else let b = reset_read (record buffer { buffer = write buffer.buffer 0 bytes }) size in
      let (b1, version) = get_uint16 b in
      let (b2, name) = get_string b1 in
      let (b3, rid) = get_uint16 b2 in
      let (b4, image_size) = get_uint64 b3 in
      some (record { version = version; name = name; rid = rid; image_size = image_size })

-- The bytes of a buffer that go over the socket.
abbrev pub sent_bytes : Buffer → List ℕ
sent_bytes b = read b.buffer 0 (written_length b)
