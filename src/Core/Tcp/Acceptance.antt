-- ===== src/Core/Tcp/Acceptance.antt =====
-- The hellos that are accepted, and the ACK that answers them.
use muc_opcua.Common.{
  ℕ, ◌+◌, ◌%◌, ◌^◌, ◌≤◌, ◌<◌, ◌≡◌, refl, sym, subst, List, [], ◌∷◌, ◌++◌, some, false, arith,
  length, Holds, Holds-overwrite, overwrite, ltb, leb, ◌&&◌, le→ltb,
}
use muc_opcua.Status.{good}
use muc_opcua.Encoding.Types.{int32_min}
use muc_opcua.Encoding.Le.{le_u32, put_u32}
use muc_opcua.Encoding.Reader.{reader_init, read_int32, read_uint32}
use muc_opcua.Encoding.Text.{read_string}
use muc_opcua.Encoding.Format.{IsU32, IsStr, str_format}
use muc_opcua.Encoding.Calculus.{Reads, Reads-bind, Reads-map, Reads-pure}
use muc_opcua.Encoding.Words.{Reads-uint32, Reads-int32}
use muc_opcua.Encoding.Strings.{Reads-string}
use muc_opcua.Core.Tcp.{
  Connection, Config, Hello, HelloResult, established, min_chunk_size, check_size, read_limits,
  read_hello, negotiate, write_ack, answer, process_hello,
}

-- The fields of a hello that a server can accept: words, a URL below 4096 bytes or none, and
-- buffers of at least the minimum chunk size.
pub record IsHello (h : Hello) : Type 0 where
  pub version_IsU32 : IsU32 h.version
  pub receive_IsU32 : IsU32 h.receive_size
  pub send_IsU32 : IsU32 h.send_size
  pub message_IsU32 : IsU32 h.message_size_limit
  pub chunk_IsU32 : IsU32 h.chunk_count_limit
  pub url_IsStr : IsStr h.endpoint_url
  pub url_short : (leb 4096 h.endpoint_url.length && ltb h.endpoint_url.length int32_min) ≡ false
  pub receive_enough : min_chunk_size ≤ h.receive_size
  pub send_enough : min_chunk_size ≤ h.send_size

abbrev pub limits_format : Hello → List ℕ
limits_format h =
    le_u32 h.version
    ++ (le_u32 h.receive_size
        ++ (le_u32 h.send_size
            ++ (le_u32 h.message_size_limit
                ++ (le_u32 h.chunk_count_limit ++ str_format h.endpoint_url))))

-- The message: HELF, its size and the fields.
abbrev pub hello_format : ℕ → Hello → List ℕ
hello_format size h = 72 ∷ 69 ∷ 76 ∷ 70 ∷ (le_u32 size ++ limits_format h)

Reads-limits : (h : Hello) → IsHello h → Reads read_limits (limits_format h) h
unfolding read_limits
Reads-limits h w =
    Reads-bind read_uint32 _ (le_u32 h.version) _ h.version h
      (Reads-uint32 h.version w.version_IsU32)
      (Reads-bind read_uint32 _ (le_u32 h.receive_size) _ h.receive_size h
        (Reads-uint32 h.receive_size w.receive_IsU32)
        (Reads-bind read_uint32 _ (le_u32 h.send_size) _ h.send_size h
          (Reads-uint32 h.send_size w.send_IsU32)
          (Reads-bind read_uint32 _ (le_u32 h.message_size_limit) _ h.message_size_limit h
            (Reads-uint32 h.message_size_limit w.message_IsU32)
            (Reads-bind read_uint32 _ (le_u32 h.chunk_count_limit) (str_format h.endpoint_url)
              h.chunk_count_limit h (Reads-uint32 h.chunk_count_limit w.chunk_IsU32)
              (Reads-map read_string _ (str_format h.endpoint_url) h.endpoint_url
                (Reads-string h.endpoint_url w.url_IsStr))))))

Reads-check_size : (n : ℕ) → n < int32_min → Reads (check_size n n) [] tt
unfolding check_size
Reads-check_size n small buf r eb es fits holds =
    rw (le→ltb ((n % 2 ^ 32 + int32_min) % 2 ^ 32) ((n + int32_min) % 2 ^ 32) (omega arith))
      (Reads-pure tt buf r eb es fits holds)

Reads-hello :
    (n : ℕ) (h : Hello)
    → n < int32_min
    → IsHello h
    → Reads (read_hello n) (le_u32 n ++ limits_format h) h
unfolding read_hello
Reads-hello n h small w =
    Reads-bind read_int32 _ (le_u32 n) (limits_format h) n h (Reads-int32 n (omega arith)) (
      Reads-bind (check_size n n) (λ _. read_limits) [] (limits_format h) tt h
        (Reads-check_size n small) (Reads-limits h w))

answer_lem :
    (config : Config) (h : Hello) (c : Connection) (ack : List ℕ) (n : ℕ)
    → IsHello h
    → 28 ≤ n
    → answer config h c ack n ≡ record {
      status = good;
      connection = record (negotiate config h c) { state = established };
      ack_message = write_ack (negotiate config h c) ack;
      ack_length = 28;
    }
unfolding answer
answer_lem config h c ack n w room =
    let receive : min_chunk_size ≤ h.receive_size = w.receive_enough in
    let send : min_chunk_size ≤ h.send_size = w.send_enough in
    rw
      (
        w.url_short,
        le→ltb h.receive_size min_chunk_size receive,
        le→ltb h.send_size min_chunk_size send,
        le→ltb n 28 room,
      )
      refl

abbrev accepted : Config → Hello → Connection → List ℕ → HelloResult
accepted config h c ack = record {
  status = good;
  connection = record (negotiate config h c) { state = established };
  ack_message = write_ack (negotiate config h c) ack;
  ack_length = 28;
}

eight : (n : ℕ) (h : Hello) → 8 ≤ length (hello_format n h)
unfolding le_u32
eight n h = omega arith

-- The ACK: ACKF, 28, the protocol version 0, and what the peer may send, receive and ask for.
abbrev pub ack_format : Connection → List ℕ
ack_format c =
    65
    ∷ 67
    ∷ 75
    ∷ 70
    ∷ (le_u32 28
        ++ (le_u32 0
            ++ (le_u32 c.send_buffer_size
                ++ (le_u32 c.receive_buffer_size
                    ++ (le_u32 c.max_message_size ++ le_u32 c.max_chunk_count)))))

write_ack-Holds :
    (c : Connection) (ack : List ℕ) → 28 ≤ length ack → Holds (write_ack c ack) 0 (ack_format c)
unfolding write_ack put_u32 le_u32 overwrite
write_ack-Holds c ack room = Holds-overwrite ack 0 (ack_format c) room

process_hello_lem :
    (c : Connection) (message : List ℕ) (n : ℕ) (config : Config) (ack : List ℕ) (ack_length : ℕ)
    (h : Hello)
    → Holds message 0 (hello_format n h)
    → n ≡ length (hello_format n h)
    → n < int32_min
    → IsHello h
    → 28 ≤ ack_length
    → process_hello c message n config ack ack_length ≡ accepted config h c ack
unfolding process_hello
process_hello_lem c message n config ack ack_length h (h0, (h1, (h2, (h3, rest)))) size small w
      room =
    let len : length (hello_format n h) ≡ 4 + length (le_u32 n ++ limits_format h) = omega arith in
    let read : read_hello n (record (reader_init (some message) n) { position = 4 }) ≡ _ =
      Reads-hello n h small w message (record (reader_init (some message) n) { position = 4 }) refl
        refl (omega (arith, len)) rest in
    rw (le→ltb n 8 (omega (arith, eight n h)), h0, h1, h2, h3, read)
      (answer_lem config h c ack ack_length w room)

-- Success, with the negotiated connection and its ACK.
abbrev pub Answered : Config → Hello → Connection → HelloResult → Type 0
Answered config h c r =
    (r.status ≡ good)
    × (r.ack_length ≡ 28)
    × (r.connection ≡ record (negotiate config h c) { state = established })
    × Holds r.ack_message 0 (ack_format (negotiate config h c))

-- A well-formed hello of the announced size, with buffers of at least the minimum chunk size, is
-- answered where the ACK has room: the status is MU_STATUS_GOOD, the connection is established with
-- the negotiated values, and the 28 bytes of the ACK carry their number, protocol version 0, and
-- the connection's send and receive buffer sizes, message size and chunk count.
pub hello_accepted :
    (c : Connection) (message : List ℕ) (n : ℕ) (config : Config) (ack : List ℕ) (ack_length : ℕ)
    (h : Hello)
    → Holds message 0 (hello_format n h)
    → n ≡ length (hello_format n h)
    → n < int32_min
    → IsHello h
    → 28 ≤ ack_length
    → ack_length ≤ length ack
    → Answered config h c (process_hello c message n config ack ack_length)
hello_accepted c message n config ack ack_length h holds size small w room mem =
    subst (Answered config h c)
      (sym (process_hello_lem c message n config ack ack_length h holds size small w room))
      (refl, refl, refl, write_ack-Holds (negotiate config h c) ack (omega arith))
