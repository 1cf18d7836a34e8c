-- ===== src/Server/Tests.antt =====
-- The server's theorems at concrete messages.
use muc_opcua.Common.{
  ℕ, ◌+◌, ◌<◌, ◌^◌, ◌≡◌, refl, inl, List, [], ◌∷◌, ◌++◌, none, true, false, arith, length,
  replicate,
}
use muc_opcua.Encoding.Le.{le_u32}
use muc_opcua.Encoding.Types.{NodeId, numeric}
use muc_opcua.Encoding.Identifiers.{nodeid_format}
use muc_opcua.Encoding.Format.{IsNodeId}
use muc_opcua.Core.Sequence.{validate}
use muc_opcua.Core.Tcp.{Connection, established}
use muc_opcua.Services.SecureChannel.{SecureChannel, zero_keys}
use muc_opcua.Server.{Conn, Shared, Server, Neighbours}
use muc_opcua.Server.DataChunk.{accepted, receive_plaintext, with_channel}
use muc_opcua.Server.Process.{chunk_assembler_init, final_dispatch, process_message}
use muc_opcua.Server.Part.{Part, IsPart, part_bytes, Holds-self, parse_part, part_header}
use muc_opcua.Server.Assembly.{process_messages, chunks, holding, validated, IsNext, request_of}
use muc_opcua.Server.Reassembly.{IsIdle, unsplit, assembled_request, injected_request}
use muc_opcua.Server.Binding.{IsSingle, IsBoundService, process_message-IsBoundService}
use muc_opcua.Server.Numbering.{numbered_refused}
use muc_opcua.Server.Poll.{Receive, poll_process_buffer}
use muc_opcua.Server.Poll.Stream.{Leaves, poll_process_buffer_lem}

-- Services that answer with the body that they were given and note how many requests they saw.
abbrev echo : Neighbours ℕ
echo = record {
  dispatch = λ server announced request_id type body space. record {
    status = 0;
    payload = body;
    server = record server { shared = record server.shared { app = server.shared.app + 1 } };
  };
  service_fault = λ app status space. none;
  tcp_write = λ chunk. true;
  crypto = none;
  capacity = 8192;
  secure_capacity = 11264;
}

abbrev channel : SecureChannel
channel = record {
  channel_id = 5;
  token_id = 1;
  created_at = 0;
  revised_lifetime = 60000;
  sequence = record { last_sequence_number = 10; is_initialized = true };
  out_sequence_number = 3;
  in_last_sequence_number = 0;
  is_open = true;
  policy = 1;
  mode = 1;
  client_keys = zero_keys;
  server_keys = zero_keys;
  keys_valid = false;
}

abbrev greeted : Connection
greeted = record {
  state = established;
  receive_buffer_size = 8192;
  send_buffer_size = 8192;
  max_message_size = 65536;
  max_chunk_count = 16;
  protocol_version = 0;
}

abbrev peer : Conn
peer = record { is_connected = true; tcp_conn = greeted; secure_channel = channel }

-- A connection that has said hello and has no channel.
abbrev stranger : Conn
stranger = record {
  is_connected = true;
  tcp_conn = greeted;
  secure_channel = record channel { channel_id = 0; token_id = 0; is_open = false };
}

abbrev shared : Shared ℕ
shared = record {
  config = record {
    receive_limit = 8192;
    send_limit = 8192;
    message_limit = 65536;
    chunk_limit = 16;
  };
  send_buffer = replicate 64 0;
  chunk_assembly = chunk_assembler_init;
  sent = [];
  app = 0;
}

abbrev server : Server ℕ
server = record { conn = peer; shared = shared }

abbrev read_request : NodeId
read_request = record { namespace_index = 0; identifier = numeric 85 }

abbrev part : ℕ → List ℕ → Part
part number body = record {
  channel_id = 5;
  token_id = 1;
  sequence_number = number;
  request_id = 9;
  body = body;
}

part-IsPart :
    (number : ℕ) (body : List ℕ)
    → number < 2 ^ 32
    → 0 < length body
    → length body < 100
    → IsPart (part number body)
part-IsPart number body word some_bytes short = record {
  channel_IsU32 = omega arith;
  token_IsU32 = omega arith;
  number_IsU32 = word;
  request_IsU32 = omega arith;
  nonempty = some_bytes;
  size_IsU32 = omega arith;
}

server-IsIdle : IsIdle echo server
unfolding chunk_assembler_init
server-IsIdle = record { on = refl; live = refl; inactive = refl }

part-IsNext : (body : List ℕ) → IsNext echo channel (part 11 body)
unfolding validate
part-IsNext body = record { same_channel = refl; same_token = refl; next = refl }

read_request-IsNodeId : IsNodeId read_request
read_request-IsNodeId = (omega arith, omega arith)

assembled_request_example :
    let whole =
      part_bytes 70
        (unsplit echo (part 11 (85 ∷ 7 ∷ [])) (nodeid_format read_request ++ (7 ∷ []))) in
    (process_messages echo server
        (chunks echo (part 90 (0 ∷ []) ∷ []) ++ (part_bytes 70 (part 11 (85 ∷ 7 ∷ [])) ∷ []))
      ≡ final_dispatch echo
          (with_channel echo
            (holding echo server (nodeid_format read_request ++ (7 ∷ [])))
            (validated echo channel 11))
          (request_of echo (part 11 (85 ∷ 7 ∷ [])) read_request (7 ∷ [])))
    × (receive_plaintext channel whole (length whole) false
        ≡ accepted
            (validated echo channel 11)
            (request_of echo (part 11 (85 ∷ 7 ∷ [])) read_request (7 ∷ [])))
    × ((process_messages echo server (
          chunks echo (part 90 (0 ∷ []) ∷ [])
          ++ (part_bytes 70 (part 11 (85 ∷ 7 ∷ [])) ∷ []))).shared.chunk_assembly
        ≡ chunk_assembler_init)
unfolding nodeid_format
assembled_request_example =
    assembled_request echo server (part 90 (0 ∷ [])) [] (part 11 (85 ∷ 7 ∷ [])) read_request
      (7 ∷ []) server-IsIdle (part-IsPart 90 (0 ∷ []) (omega arith) (omega arith) (omega arith), tt)
      (part-IsPart 11 (85 ∷ 7 ∷ []) (omega arith) (omega arith) (omega arith))
      (part-IsPart 11 (0 ∷ 85 ∷ 7 ∷ []) (omega arith) (omega arith) (omega arith))
      (part-IsNext (85 ∷ 7 ∷ [])) read_request-IsNodeId refl (omega arith)

-- The stranger's chunk carries the type of the request and one byte of its body.
injected_request_example :
    let after =
      process_message echo
        (record { conn = stranger; shared = shared })
        (part_bytes 67 (part 90 (0 ∷ 85 ∷ 3 ∷ []))) in
    process_message echo
      (record { conn = peer; shared = after.shared })
      (part_bytes 70 (part 11 (7 ∷ [])))
    ≡ final_dispatch echo
        (with_channel echo
          (holding echo server (nodeid_format read_request ++ (3 ∷ 7 ∷ [])))
          (validated echo channel 11))
        (request_of echo (part 11 (7 ∷ [])) read_request (3 ∷ 7 ∷ []))
unfolding nodeid_format chunk_assembler_init
injected_request_example =
    injected_request echo shared stranger peer (part 90 (0 ∷ 85 ∷ 3 ∷ [])) (part 11 (7 ∷ []))
      read_request (3 ∷ []) (record { on = refl; live = refl; inactive = refl }) refl
      (part-IsPart 90 (0 ∷ 85 ∷ 3 ∷ []) (omega arith) (omega arith) (omega arith)) refl
      (part-IsPart 11 (7 ∷ []) (omega arith) (omega arith) (omega arith)) (part-IsNext (7 ∷ []))
      read_request-IsNodeId (omega arith)

numbered_refused_example :
    let after =
      process_messages echo server
        (chunks echo (part 11 (0 ∷ []) ∷ []) ++ (part_bytes 70 (part 12 (85 ∷ 7 ∷ [])) ∷ [])) in
    (after.conn.is_connected ≡ false)
    × (after.shared.app ≡ server.shared.app)
    × (after.shared.sent ≡ server.shared.sent)
    × (after.shared.chunk_assembly ≡ chunk_assembler_init)
numbered_refused_example =
    numbered_refused echo server (part 11 (0 ∷ [])) [] (part 12 (85 ∷ 7 ∷ [])) server-IsIdle
      (part-IsPart 11 (0 ∷ []) (omega arith) (omega arith) (omega arith), tt)
      (part-IsPart 12 (85 ∷ 7 ∷ []) (omega arith) (omega arith) (omega arith)) refl (omega arith)
      (refl, refl) (omega arith)

abbrev single : Part
single = part 11 (0 ∷ 85 ∷ 7 ∷ [])

single-IsSingle : IsSingle echo server (part_bytes 70 single)
unfolding chunk_assembler_init
single-IsSingle = record {
  live = refl;
  inactive = refl;
  header = part_header 70 single;
  was_parsed =
      parse_part 70 single (inl refl)
        (part-IsPart 11 (0 ∷ 85 ∷ 7 ∷ []) (omega arith) (omega arith) (omega arith));
  type_msg = refl;
  no_continuation = refl;
}

process_message-IsBoundService_example :
    IsBoundService echo server
      (part_bytes 70 single)
      (process_message echo server (part_bytes 70 single))
process_message-IsBoundService_example =
    process_message-IsBoundService echo server (part_bytes 70 single) single-IsSingle

-- One chunk, and five bytes of the next.
abbrev chunk : List ℕ
chunk = part_bytes 67 (part 90 (0 ∷ []))

abbrev rest : List ℕ
rest = 77 ∷ 83 ∷ 71 ∷ 70 ∷ 30 ∷ []

abbrev incoming : Receive
incoming = record { buffer = chunk ++ rest; read_pos = 0; rx_len = 30 }

poll_process_buffer_example :
    let after = poll_process_buffer echo server incoming 8192 in
    (after.0 ≡ process_messages echo server (chunk ∷ [])) × Leaves echo rest after.0 after.1
unfolding part_bytes le_u32
poll_process_buffer_example =
    poll_process_buffer_lem echo server incoming 8192 (chunk ∷ []) rest refl
      (
        record {
          large = omega arith;
          small = omega arith;
          size_word = omega arith;
          says = (refl, (refl, (refl, (refl, tt))));
        },
        tt,
      )
      (inl (omega arith)) refl (Holds-self (chunk ++ rest)) (omega arith)
