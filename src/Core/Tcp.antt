-- ===== src/Core/Tcp.antt =====
-- src/core/tcp_connection.c: the hello that opens a connection and the messages around it.
mod Honest
pub mod Acceptance
pub mod Refusal
pub mod Negotiation
use muc_opcua.Common.{
  ℕ, ◌+◌, ◌%◌, ◌^◌, List, [], ◌∷◌, Option, none, some, Bool, true, false, ◌&&◌, ◌||◌, not, ltb, leb,
  ◌==◌, ◌/=◌, if◌then◌else◌, get_or, overwrite, length,
}
use muc_opcua.Status.{
  good, bad_internal_error, bad_tcp_message_type_invalid, bad_tcp_message_too_large,
  bad_tcp_not_enough_resources, bad_tcp_endpoint_url_invalid, Result, error, ok,
}
use muc_opcua.Encoding.State.{Outcome, done, fail, M, ◌>>=◌, ◌>>◌, pure, raise}
use muc_opcua.Encoding.Le.{put_u32}
use muc_opcua.Encoding.Types.{Str, int32_min}
use muc_opcua.Encoding.Reader.{Reader, reader_init, read_int32, read_uint32}
use muc_opcua.Encoding.Writer.{Writer, writer_init}
use muc_opcua.Encoding.Text.{read_string, write_string}

-- `mu_tcp_state_t`.
pub data TcpState : Type 0 where
  closed : TcpState
  connected : TcpState
  established : TcpState

-- `mu_tcp_connection_t`.
pub record Connection : Type 0 where
  pub state : TcpState
  pub receive_buffer_size : ℕ
  pub send_buffer_size : ℕ
  pub max_message_size : ℕ
  pub max_chunk_count : ℕ
  pub protocol_version : ℕ

-- The fields of `mu_server_config_t` that the hello reads; the buffer sizes are `size_t`.
pub record Config : Type 0 where
  pub receive_limit : ℕ
  pub send_limit : ℕ
  pub message_limit : ℕ
  pub chunk_limit : ℕ

-- MU_MIN_CHUNK_SIZE of include/muc_opcua/config.h.
abbrev pub min_chunk_size : ℕ
min_chunk_size = 8192

unfoldable pub connection_init : Connection
connection_init = record {
  state = closed;
  receive_buffer_size = 0;
  send_buffer_size = 0;
  max_message_size = 0;
  max_chunk_count = 0;
  protocol_version = 0;
}

-- What a hello carries behind its MessageSize.
pub record Hello : Type 0 where
  pub version : ℕ
  pub receive_size : ℕ
  pub send_size : ℕ
  pub message_size_limit : ℕ
  pub chunk_count_limit : ℕ
  pub endpoint_url : Str

-- `a > b` on the patterns of two int32.
abbrev pub int32_gt : ℕ → ℕ → Bool
int32_gt a b = ltb ((b + int32_min) % 2 ^ 32) ((a + int32_min) % 2 ^ 32)

unfoldable pub check_size : ℕ → ℕ → M Reader (Unit {0})
check_size length message_size =
    if int32_gt message_size (length % 2 ^ 32) then raise bad_tcp_message_too_large else pure tt

unfoldable pub read_limits : M Reader Hello
read_limits = do
  version ← read_uint32
  receive_size ← read_uint32
  send_size ← read_uint32
  message_size_limit ← read_uint32
  chunk_count_limit ← read_uint32
  endpoint_url ← read_string
  pure (record {
    version = version;
    receive_size = receive_size;
    send_size = send_size;
    message_size_limit = message_size_limit;
    chunk_count_limit = chunk_count_limit;
    endpoint_url = endpoint_url;
  })

unfoldable pub read_hello : ℕ → M Reader Hello
read_hello length = do message_size ← read_int32; check_size length message_size; read_limits

-- What a call leaves: its status, the connection, and the ACK with its length.
pub record HelloResult : Type 0 where
  pub status : ℕ
  pub connection : Connection
  pub ack_message : List ℕ
  pub ack_length : ℕ

-- A return that has not touched the ACK.
abbrev pub unanswered : Connection → List ℕ → ℕ → ℕ → HelloResult
unanswered connection ack_message ack_length status = record {
  status = status;
  connection = connection;
  ack_message = ack_message;
  ack_length = ack_length;
}

abbrev pub min : ℕ → ℕ → ℕ
min a b = if ltb a b then a else b

-- A limit of 0 asks for the server's own.
abbrev pub or_default : ℕ → ℕ → ℕ
or_default n d = if n == 0 then d else n

unfoldable pub negotiate : Config → Hello → Connection → Connection
negotiate config hello connection = record connection {
  protocol_version = hello.version;
  receive_buffer_size = min hello.receive_size (config.send_limit % 2 ^ 32);
  send_buffer_size = min hello.send_size (config.receive_limit % 2 ^ 32);
  max_message_size =
      or_default (min hello.message_size_limit config.message_limit) config.message_limit;
  max_chunk_count = or_default (min hello.chunk_count_limit config.chunk_limit) config.chunk_limit;
}

unfoldable pub write_ack : Connection → List ℕ → List ℕ
write_ack connection ack_message =
    let typed = overwrite ack_message 0 (65 ∷ 67 ∷ 75 ∷ 70 ∷ []) in
    let sized = put_u32 typed 4 28 in
    let versioned = put_u32 sized 8 0 in
    let receiving = put_u32 versioned 12 connection.send_buffer_size in
    let sending = put_u32 receiving 16 connection.receive_buffer_size in
    let limited = put_u32 sending 20 connection.max_message_size in
    put_u32 limited 24 connection.max_chunk_count

-- What follows the hello's fields.
unfoldable pub answer : Config → Hello → Connection → List ℕ → ℕ → HelloResult
answer config hello connection ack_message ack_length =
    let negotiated = negotiate config hello connection in
    if leb 4096 hello.endpoint_url.length && ltb hello.endpoint_url.length int32_min
    then unanswered connection ack_message ack_length bad_tcp_endpoint_url_invalid
    else if ltb hello.receive_size min_chunk_size || ltb hello.send_size min_chunk_size
    then unanswered connection ack_message ack_length bad_tcp_not_enough_resources
    else if ltb ack_length 28
    then unanswered negotiated ack_message ack_length bad_internal_error
    else record {
      status = good;
      connection = record negotiated { state = established };
      ack_message = write_ack negotiated ack_message;
      ack_length = 28;
    }

abbrev pub conclude : Config → Connection → List ℕ → ℕ → Outcome Reader Hello → HelloResult
conclude config connection ack_message ack_length (done hello r) =
    answer config hello connection ack_message ack_length
conclude config connection ack_message ack_length (fail e r) =
    unanswered connection ack_message ack_length e

abbrev pub is_hello : List ℕ → Bool
is_hello message =
    get_or message 0 0 == 72
    && get_or message 1 0 == 69
    && get_or message 2 0 == 76
    && get_or message 3 0 == 70

unfoldable pub process_hello : Connection → List ℕ → ℕ → Config → List ℕ → ℕ → HelloResult
process_hello connection message message_length config ack_message ack_length =
    if ltb message_length 8
    then unanswered connection ack_message ack_length bad_tcp_message_too_large
    else if not (is_hello message)
    then unanswered connection ack_message ack_length bad_tcp_message_type_invalid
    else conclude config connection ack_message ack_length (
        read_hello message_length
          (record (reader_init (some message) message_length) { position = 4 }))

-- The bytes of a C string, none for NULL, and its `strlen`.
abbrev pub strlen : Option (List ℕ) → ℕ
strlen none = 0
strlen (some bytes) = length bytes

abbrev pub c_string : Option (List ℕ) → Str
c_string reason = record { length = strlen reason; bytes = reason }

-- The message and its length, of a C string whose length is an int32.
unfoldable pub create_error_message :
    ℕ → Option (List ℕ) → List ℕ → ℕ → Result (Option (List ℕ) × ℕ)
create_error_message error_code reason err_message err_length =
    let total_len = 8 + 4 + 4 + strlen reason in
    let typed = overwrite err_message 0 (69 ∷ 82 ∷ 82 ∷ 70 ∷ []) in
    let sized = put_u32 typed 4 total_len in
    let coded = put_u32 sized 8 error_code in
    if ltb err_length total_len
    then error bad_internal_error
    else elim (write_string (c_string reason)
        (record (writer_init (some coded) err_length) { position = 12 })) [
          | done _ w ↦ ok (w.buffer, w.position)
          | fail e w ↦ error e
        ]

abbrev pub or_empty : Option (List ℕ) → Option (List ℕ)
or_empty none = some []
or_empty (some bytes) = some bytes

-- `server_uri` and `endpoint` are config->application_uri and config->endpoint_url.
unfoldable pub create_reverse_hello :
    Option (List ℕ) → Option (List ℕ) → List ℕ → ℕ → Result (Option (List ℕ) × ℕ)
create_reverse_hello server_uri endpoint buffer length =
    let server_uri_len = strlen server_uri in
    let endpoint_len = strlen endpoint in
    let total = 8 + 4 + server_uri_len + 4 + endpoint_len in
    let typed = overwrite buffer 0 (82 ∷ 72 ∷ 69 ∷ 70 ∷ []) in
    let sized = put_u32 typed 4 total in
    let write =
      write_string (c_string (or_empty server_uri))
      >> write_string (c_string (or_empty endpoint)) in
    if leb 4096 server_uri_len || leb 4096 endpoint_len
    then error bad_tcp_message_too_large
    else if ltb length total
    then error bad_internal_error
    else elim (write (record (writer_init (some sized) length) { position = 8 })) [
      | done _ w ↦ ok (w.buffer, w.position)
      | fail e w ↦ error e
    ]
