-- ===== src/Select/Parse.antt =====
-- src/shared/protocol.h and src/server/net.c: what the server reads of the request for an image.
use dnbd3_fuse_lowlevel.Prelude.{
  ℕ, ◌+◌, ◌^◌, ◌≤◌, ◌<◌, ◌≡◌, List, [], ◌∷◌, ◌++◌, Option, some, Bool, false, not, ◌||◌, ltb, ◌==◌,
  get_or, length, length-append, arith, refl, ap, ◌∙◌, sym,
}
use dnbd3_fuse_lowlevel.Serialize.{
  Buffer, max_payload, reset_read, reset_write, write, get_uint8, get_uint16, get_string,
  written_length, word_bytes,
}
use dnbd3_fuse_lowlevel.Serialize.Memory.{
  Holds, length-write, write-Holds, read-length, read-get_or, Holds-append, length-word_bytes,
  NoNull,
}
use dnbd3_fuse_lowlevel.Serialize.Items.{
  Item, uint8, uint16, string, all_bytes, put_items, put_items-Put,
}
use dnbd3_fuse_lowlevel.Serialize.RoundTrip.{after, get_word-Holds, get_string-Holds}
use dnbd3_fuse_lowlevel.Select.{
  protocol_version, recv_request_payload, Config, Served, choose_image, answer, handshake,
  sent_bytes,
}

-- The message of some items, as it is sent.
abbrev pub message : Buffer → List Item → List ℕ
message b is = sent_bytes (put_items (reset_write b) is)

module _ (is : List Item) (b r : Buffer) where
  pub message-length :
      length b.buffer ≡ max_payload
      → length (all_bytes is) ≤ max_payload
      → written_length (put_items (reset_write b) is) ≡ length (all_bytes is)
  message-length big fits =
      let p = put_items-Put is (reset_write b) (omega arith) (omega arith) in omega (arith, p.moved)

  pub received-Holds :
      length b.buffer ≡ max_payload
      → length r.buffer ≡ max_payload
      → length (all_bytes is) ≤ max_payload
      → Holds (write r.buffer 0 (message b is)) 0 (all_bytes is)
  received-Holds big_b big_r fits k small =
      let p = put_items-Put is (reset_write b) (omega arith) (omega arith) in
      let len = message-length big_b fits in
      let sent =
        read-length (put_items (reset_write b) is).buffer 0
          (written_length (put_items (reset_write b) is)) in
      write-Holds r.buffer 0 (message b is) (omega arith) k (omega arith)
      ∙ read-get_or (put_items (reset_write b) is).buffer 0 _ k (omega arith)
      ∙ p.there k small

-- The three values that both messages begin with.
abbrev pub begin_bytes : ℕ → List ℕ → ℕ → List ℕ → List ℕ
begin_bytes version name rid tail =
    word_bytes 2 version ++ ((name ++ (0 ∷ [])) ++ (word_bytes 2 rid ++ tail))

pub begin_bytes-length :
    (version : ℕ) (name : List ℕ) (rid : ℕ) (tail : List ℕ)
    → length (begin_bytes version name rid tail) ≡ length name + 5 + length tail
begin_bytes-length version name rid tail =
    let l1 = length-word_bytes 2 version in
    let l2 = length-append {0} name (0 ∷ []) in
    let l3 = length-word_bytes 2 rid in
    let a1 =
      length-append {0} (word_bytes 2 version) ((name ++ (0 ∷ [])) ++ (word_bytes 2 rid ++ tail)) in
    let a2 = length-append {0} (name ++ (0 ∷ [])) (word_bytes 2 rid ++ tail) in
    let a3 = length-append {0} (word_bytes 2 rid) tail in omega arith

pub record Begun (b : Buffer) (version : ℕ) (name : List ℕ) (rid : ℕ) (tail : List ℕ) : Type 0 where
  pub first : get_uint16 b ≡ (after b 2, version)
  pub second : get_string (after b 2) ≡ (after (after b 2) (length name + 1), some name)
  pub third :
      get_uint16 (after (after b 2) (length name + 1))
      ≡ (after (after (after b 2) (length name + 1)) 2, rid)
  pub left : Holds b.buffer (b.buffer_pointer + 2 + (length name + 1) + 2) tail

-- The head of what stands in a buffer, where its length is known, and what follows it.
pub split :
    (buf : List ℕ) (p n : ℕ) (xs ys : List ℕ)
    → length xs ≡ n
    → Holds buf p (xs ++ ys)
    → Holds buf p xs × Holds buf (p + n) ys
split buf p n xs ys len h =
    let (hx, hy) = Holds-append buf p xs ys h in
    (hx, λ k small. ap (λ i. get_or buf (p + i + k) 0) (sym len) ∙ hy k small)

pub begin-Begun :
    (b : Buffer) (version : ℕ) (name : List ℕ) (rid : ℕ) (tail : List ℕ)
    → Holds b.buffer b.buffer_pointer (begin_bytes version name rid tail)
    → version < 2 ^ 16
    → NoNull name
    → rid < 2 ^ 16
    → b.buffer_pointer + length (begin_bytes version name rid tail) ≤ b.buffer_end
    → b.buffer_end ≤ length b.buffer
    → Begun b version name rid tail
begin-Begun b version name rid tail h v_ok n_ok r_ok fits big =
    let l1 = length-word_bytes 2 version in
    let l2 = length-append {0} name (0 ∷ []) in
    let l3 = length-word_bytes 2 rid in
    let cut = begin_bytes-length version name rid tail in
    let (h1, r1) = split b.buffer b.buffer_pointer 2 (word_bytes 2 version) _ l1 h in
    let (h2, r2) =
      split b.buffer (b.buffer_pointer + 2) (length name + 1) (name ++ (0 ∷ []))
        (word_bytes 2 rid ++ tail) l2 r1 in
    let (h3, r3) =
      split b.buffer (b.buffer_pointer + 2 + (length name + 1)) 2 (word_bytes 2 rid) tail l3 r2 in
    record {
      first = get_word-Holds 2 version b h1 (omega arith) (omega arith);
      second = get_string-Holds name (after b 2) h2 n_ok (omega arith) big;
      third =
          get_word-Holds 2 rid (after (after b 2) (length name + 1)) h3 (omega arith) (omega arith);
      left = r3;
    }

-- What `reset_read` makes of a buffer that received a message.
abbrev pub received : Buffer → List Item → Buffer → Buffer
received b is r =
    reset_read (record r { buffer = write r.buffer 0 (message b is) })
      (written_length (put_items (reset_write b) is))

abbrev pub request_items : List ℕ → ℕ → ℕ → List Item
request_items name rid flags = uint16 protocol_version ∷ string name ∷ uint16 rid ∷ uint8 flags ∷ []

pub request_items-length :
    (name : List ℕ) (rid flags : ℕ)
    → length (all_bytes (request_items name rid flags)) ≡ length name + 6
request_items-length name rid flags =
    let l4 = length-word_bytes 1 flags in
    let a4 = length-append {0} (word_bytes 1 flags) [] in
    let cut = begin_bytes-length protocol_version name rid (word_bytes 1 flags ++ []) in omega arith

-- A message that is not empty is taken in.
pub recv_request_payload-received :
    (is : List Item) (b r : Buffer)
    → length b.buffer ≡ max_payload
    → 0 < length (all_bytes is)
    → length (all_bytes is) ≤ max_payload
    → recv_request_payload (written_length (put_items (reset_write b) is)) (message b is) r
      ≡ some (received b is r)
unfolding recv_request_payload
recv_request_payload-received is b r big pos fits =
    let wrote = message-length is b r big fits in
    let sent =
      read-length (put_items (reset_write b) is).buffer 0
        (written_length (put_items (reset_write b) is)) in
    let test : ((written_length (put_items (reset_write b) is) == 0)
          || (ltb max_payload (written_length (put_items (reset_write b) is))
              || not (length (message b is) == written_length (put_items (reset_write b) is))))
        ≡ false =
      ground (arith, wrote, sent) in
    rw test refl

-- The server reads what the client asked for.
pub handshake-request :
    (config : Config) (load get : List ℕ → ℕ → Option Served) (lucky send_ok : Bool)
    → (name : List ℕ) (rid flags : ℕ) (b r : Buffer) → length b.buffer ≡ max_payload
    → length r.buffer ≡ max_payload
    → NoNull name
    → length name ≤ 994
    → rid < 2 ^ 16
    → flags < 2 ^ 8
    → (b4 : Buffer) × (length b4.buffer ≡ max_payload)
      × (handshake config load get lucky send_ok
            (written_length (put_items (reset_write b) (request_items name rid flags)))
            (received b (request_items name rid flags) r)
          ≡ answer protocol_version flags b4 lucky send_ok
              (choose_image config load get name rid flags))
unfolding handshake
handshake-request config load get lucky send_ok name rid flags b r big_b big_r ok short r_ok f_ok =
    let is = request_items name rid flags in
    let l4 = length-word_bytes 1 flags in
    let size = request_items-length name rid flags in
    let cut = begin_bytes-length protocol_version name rid (word_bytes 1 flags ++ []) in
    let wrote = message-length (request_items name rid flags) b r big_b (omega arith) in
    let holds = received-Holds (request_items name rid flags) b r big_b big_r (omega arith) in
    let whole = length-write r.buffer 0 (message b (request_items name rid flags)) in
    let p = received b (request_items name rid flags) r in
    let begun =
      begin-Begun (received b (request_items name rid flags) r) protocol_version name rid
        (word_bytes 1 flags ++ []) holds (omega arith) ok r_ok (omega arith) (omega arith) in
    let b3 = after (after (after p 2) (length name + 1)) 2 in
    let (h4, r4) =
      split p.buffer (0 + 2 + (length name + 1) + 2) 1 (word_bytes 1 flags) [] l4 begun.left in
    let last : get_uint8 (after (after (after p 2) (length name + 1)) 2)
        ≡ (after (after (after (after p 2) (length name + 1)) 2) 1, flags) =
      get_word-Holds 1 flags b3 h4 (omega arith) (omega arith) in
    let test : ltb (written_length (put_items (reset_write b) (request_items name rid flags))) 3
        ≡ false =
      ground (arith, wrote, size) in
    (after b3 1, whole ∙ big_r, rw (begun.first, begun.second, begun.third, last, test) refl)
