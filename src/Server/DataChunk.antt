-- ===== src/Server/DataChunk.antt =====
-- src/core/server/data_chunk.c: an OPN or MSG chunk under policy None, from its header to the chunk
-- of its response.
use muc_opcua.Common.{
  ℕ, ◌+◌, ◌-◌, ◌%◌, ◌^◌, List, [], ◌∷◌, Option, none, some, Bool, false, not, ◌&&◌, ◌||◌, leb, ◌==◌,
  ◌/=◌, if◌then◌else◌, slice, length, overwrite,
}
use muc_opcua.Status.{good, bad_decoding_error, Result, error, ok}
use muc_opcua.Encoding.State.{Outcome, done, fail, M, ◌>>=◌, pure}
use muc_opcua.Encoding.Types.{Str, null_str, NodeId, numeric, string, guid, opaque, unknown}
use muc_opcua.Encoding.Reader.{Reader, reader_init, read_uint32}
use muc_opcua.Encoding.Text.{read_string}
use muc_opcua.Encoding.NodeIds.{read_nodeid}
use muc_opcua.Core.Sequence.{validate}
use muc_opcua.Core.Uasc.{
  symmetric_header_size, asymmetric_none_header_size, Framed, finalize_symmetric,
  finalize_asymmetric_none,
}
use muc_opcua.Services.SecureChannel.{SecureChannel, channel_close}
use muc_opcua.Server.{Server, Served, Announced, Neighbours, send_buffer_chunk, abort_connection}

-- Whether the chunk is accepted, and the channel that the test leaves.
unfoldable pub accept_inbound_chunk : SecureChannel → Bool → ℕ → ℕ → ℕ → Bool × SecureChannel
accept_inbound_chunk channel is_opn channel_id token_id sequence_number =
    let validated = validate channel.sequence sequence_number in
    if not is_opn && (channel_id /= channel.channel_id || token_id /= channel.token_id)
    then (false, channel)
    else (validated.0 == good, record channel { sequence = validated.1 })

-- The type of a request that may be dispatched: a number of namespace 0.
unfoldable pub ns0_numeric : NodeId → Option ℕ
ns0_numeric id = elim id.identifier [
  | numeric n ↦ if id.namespace_index == 0 then some n else none
  | string s ↦ none
  | guid bs ↦ none
  | opaque len bs ↦ none
  | unknown t ↦ none
]

-- What a chunk says before its body.
pub record ChunkHeader : Type 0 where
  pub channel_id : ℕ
  pub token_id : ℕ
  pub security_policy : Str
  pub sender_certificate : Str
  pub sequence_number : ℕ
  pub request_id : ℕ

-- The asymmetric security header of an OPN, or the token of a MSG.
abbrev pub Security : Type 0
Security = ℕ × Str × Str

unfoldable pub read_opn_security : M Reader Security
read_opn_security = do
  policy ← read_string
  certificate ← read_string
  thumbprint ← read_string
  pure (0, policy, certificate)

unfoldable pub read_msg_security : M Reader Security
read_msg_security = read_uint32 >>= λ token. pure (token, null_str, null_str)

unfoldable pub read_chunk_header : Bool → M Reader ChunkHeader
read_chunk_header is_opn = do
  channel ← read_uint32
  security ← (if is_opn then read_opn_security else read_msg_security)
  number ← read_uint32
  id ← read_uint32
  pure (record {
    channel_id = channel;
    token_id = security.0;
    security_policy = security.1;
    sender_certificate = security.2;
    sequence_number = number;
    request_id = id;
  })

-- A request that was accepted.
pub record Request : Type 0 where
  pub is_opn : Bool
  pub request_id : ℕ
  pub request_type : NodeId
  pub body : List ℕ
  pub announced : Announced

-- What becomes of a chunk: it is dropped, the connection is aborted, or a request is served.
pub data Inbound : Type 0 where
  dropped : SecureChannel → Inbound
  aborted : SecureChannel → Inbound
  accepted : SecureChannel → Request → Inbound

-- The message body behind the header: its type, and the rest of it.
abbrev pub with_type :
    SecureChannel → Bool → ℕ → Announced → List ℕ → ℕ → Outcome Reader NodeId → Inbound
with_type channel is_opn request_id announced msg msg_len (done request_type r) =
    accepted channel (record {
      is_opn = is_opn;
      request_id = request_id;
      request_type = request_type;
      body = slice msg r.position (msg_len - r.position);
      announced = announced;
    })
with_type channel is_opn request_id announced msg msg_len (fail e r) = dropped channel

abbrev pub announce : Bool → ChunkHeader → Announced
announce is_opn header =
    if is_opn then some (header.security_policy, header.sender_certificate) else none

-- What follows the header of a chunk.
unfoldable pub accept_header :
    SecureChannel → Bool → List ℕ → ℕ → Outcome Reader ChunkHeader → Inbound
accept_header channel is_opn msg msg_len (fail e r) = dropped channel
accept_header channel is_opn msg msg_len (done header r) =
    let test =
      accept_inbound_chunk channel is_opn header.channel_id header.token_id
        header.sequence_number in
    if not test.0
    then aborted test.1
    else with_type test.1 is_opn header.request_id (announce is_opn header) msg msg_len
        (read_nodeid r)

-- The part of handle_data_chunk_plaintext in front of the dispatch.
unfoldable pub receive_plaintext : SecureChannel → List ℕ → ℕ → Bool → Inbound
receive_plaintext channel msg msg_len is_opn =
    accept_header channel is_opn msg msg_len
      (read_chunk_header is_opn (record (reader_init (some msg) msg_len) { position = 8 }))

module _ {App : Type 0} (neighbours : Neighbours App) where
  abbrev pub with_channel : Server App → SecureChannel → Server App
  with_channel server channel = record server {
    conn = record server.conn { secure_channel = channel };
  }

  -- A ServiceFault in place of a failed response; none where it does not fit.
  abbrev pub or_fault : Served App → ℕ → Option (List ℕ)
  or_fault served capacity =
      if served.status == good
      then some served.payload
      else neighbours.service_fault served.server.shared.app served.status capacity

  -- The dispatch of a request: what the service gives, or the refusal of a type that is none.
  unfoldable pub serve : Server App → Request → ℕ → Served App
  serve server request capacity = elim (ns0_numeric request.request_type) [
    | none ↦ record { status = bad_decoding_error; payload = []; server = server }
    | some type ↦
        neighbours.dispatch server request.announced request.request_id type request.body capacity
  ]

  -- `++server_secure_channel.out_sequence_number`.
  abbrev pub next_number : Server App → Server App
  next_number server =
      let channel = server.conn.secure_channel in
      with_channel server
        (record channel { out_sequence_number = (channel.out_sequence_number + 1) % 2 ^ 32 })

  abbrev pub framed : Server App → Result Framed → Server App
  framed server (error status) = server
  framed server (ok (buffer, total)) =
      send_buffer_chunk neighbours
        (record server { shared = record server.shared { send_buffer = buffer } }) total

  -- The header in front of a response whose body stands in the send buffer, and the chunk's way out.
  unfoldable pub send_framed : Server App → Bool → ℕ → ℕ → Server App
  send_framed server is_opn request_id body_length =
      let channel = server.conn.secure_channel in
      framed server (
        if is_opn
        then finalize_asymmetric_none server.shared.send_buffer server.shared.config.send_limit
            channel.channel_id channel.out_sequence_number request_id body_length
        else finalize_symmetric server.shared.send_buffer server.shared.config.send_limit
            channel.channel_id channel.token_id channel.out_sequence_number request_id body_length)

  -- The service writes its response behind the space for the header; an empty one is not sent.
  unfoldable pub respond : Server App → Bool → ℕ → ℕ → Option (List ℕ) → Server App
  respond server is_opn request_id offset none = server
  respond server is_opn request_id offset (some []) = server
  respond server is_opn request_id offset (some (b ∷ bs)) =
      let written = record server {
        shared = record server.shared {
          send_buffer = overwrite server.shared.send_buffer offset (b ∷ bs);
        };
      } in
      send_framed (next_number written) is_opn request_id (length (b ∷ bs))

  -- A channel whose OPN was refused is closed.
  abbrev pub close_rejected : Bool → Server App → Server App
  close_rejected opn_rejected server =
      if opn_rejected && server.conn.secure_channel.is_open
      then with_channel server (channel_close server.conn.secure_channel).1
      else server

  abbrev pub header_size : Bool → ℕ
  header_size is_opn = if is_opn then asymmetric_none_header_size else symmetric_header_size

  -- The part of handle_data_chunk_plaintext from the dispatch on.
  unfoldable pub answer_plaintext : Server App → Request → Server App
  answer_plaintext server request =
      let offset = header_size request.is_opn in
      let capacity = server.shared.config.send_limit - offset in
      let served = serve server request capacity in
      if leb server.shared.config.send_limit offset
      then server
      else close_rejected (request.is_opn && served.status /= good) (
          respond served.server request.is_opn request.request_id offset (or_fault served capacity))

  unfoldable pub conclude : Server App → (Server App → Request → Server App) → Inbound → Server App
  conclude server answer (dropped channel) = with_channel server channel
  conclude server answer (aborted channel) =
      abort_connection neighbours (with_channel server channel)
  conclude server answer (accepted channel request) = answer (with_channel server channel) request

  unfoldable pub handle_data_chunk_plaintext : Server App → List ℕ → ℕ → Bool → Server App
  handle_data_chunk_plaintext server msg msg_len is_opn =
      conclude server answer_plaintext
        (receive_plaintext server.conn.secure_channel msg msg_len is_opn)
