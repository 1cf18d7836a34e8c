-- ===== src/Core/Tests.antt =====
-- The transport's theorems at concrete values.
use muc_opcua.Common.{
  ℕ, ◌≡◌, refl, List, [], ◌∷◌, ◌++◌, none, arith, length, replicate, slice, some, Holds,
}
use muc_opcua.Status.{ok}
use muc_opcua.Encoding.Le.{get_u32, le_u32}
use muc_opcua.Core.Sequence.{init, accept_all}
use muc_opcua.Core.Sequence.Replay.{replay_refused}
use muc_opcua.Core.Uasc.{finalize_symmetric, finalize_asymmetric_none, policy_uri}
use muc_opcua.Core.Chunk.{MessageHeader, parse_message_header, parse_sequence_header}
use muc_opcua.Core.Response.{final_header, numbers, symmetric_frame}
use muc_opcua.Core.OpenResponse.{asymmetric_frame}
use muc_opcua.Core.Tcp.{
  Config, Hello, c_string, create_error_message, connection_init, process_hello, read_hello,
  check_size, read_limits, answer,
}
use muc_opcua.Encoding.Reader.{reader_init, read_int32, read_uint32, ensure_bytes}
use muc_opcua.Encoding.State.{done}
use muc_opcua.Encoding.Text.{read_string, read_string_payload, ensure_string_payload}
use muc_opcua.Core.Tcp.Acceptance.{Answered, hello_format, hello_accepted}
use muc_opcua.Core.Tcp.Refusal.{error_header, error_message_read}
use muc_opcua.Core.Tcp.Negotiation.{WithinLimits, IsConfig, hello-WithinLimits, hello_refused}

-- A response of eight bytes behind the space for its header.
abbrev send_buffer : List ℕ
send_buffer = replicate 24 0 ++ (1 ∷ 2 ∷ 3 ∷ 4 ∷ 5 ∷ 6 ∷ 7 ∷ 8 ∷ []) ++ replicate 64 0

symmetric_frame_example :
    (buf' : List ℕ) × (finalize_symmetric send_buffer 96 77 1 5 9 8 ≡ ok (buf', 32))
    × (parse_message_header buf' 32 ≡ ok (final_header 77 83 71 32 77))
    × (get_u32 buf' 12 ≡ 1)
    × (parse_sequence_header buf' 32 16 ≡ ok (24, numbers 5 9))
    × (slice buf' 24 8 ≡ slice send_buffer 24 8)
symmetric_frame_example =
    symmetric_frame send_buffer 96 77 1 5 9 8 (omega arith) (omega arith) (omega arith)
      (omega arith) (omega arith) (omega arith) (omega arith)

asymmetric_frame_example :
    (buf' : List ℕ) × (finalize_asymmetric_none send_buffer 96 77 5 9 8 ≡ ok (buf', 87))
    × (parse_message_header buf' 87 ≡ ok (final_header 79 80 78 87 77))
    × (get_u32 buf' 12 ≡ length policy_uri)
    × (slice buf' 16 (length policy_uri) ≡ policy_uri)
    × (parse_sequence_header buf' 87 71 ≡ ok (79, numbers 5 9))
    × (slice buf' 79 8 ≡ slice send_buffer 79 8)
asymmetric_frame_example =
    asymmetric_frame send_buffer 96 77 5 9 8 (omega arith) (omega arith) (omega arith) (omega arith)
      (omega arith) (omega arith)

abbrev close_header : MessageHeader
close_header = final_header 67 76 79 57 77

abbrev server_config : Config
server_config = record {
  receive_limit = 8192;
  send_limit = 16384;
  message_limit = 65536;
  chunk_limit = 8;
}

server_config-IsConfig : IsConfig server_config
server_config-IsConfig = record {
  receive_enough = omega arith;
  send_enough = omega arith;
  chunk_enough = omega arith;
  message_enough = omega arith;
}

-- A hello that asks for buffers of 65536 bytes, no limits and an empty URL.
abbrev hello : List ℕ
hello =
    72 ∷ 69 ∷ 76 ∷ 70 ∷ 32 ∷ 0 ∷ 0 ∷ 0 ∷ 0 ∷ 0 ∷ 0 ∷ 0 ∷ 0 ∷ 0 ∷ 1 ∷ 0 ∷ 0 ∷ 0 ∷ 1 ∷ 0 ∷ 0 ∷ 0 ∷ 0
    ∷ 0 ∷ 0 ∷ 0 ∷ 0 ∷ 0 ∷ 0 ∷ 0 ∷ 0 ∷ 0 ∷ []

abbrev ack : List ℕ
ack = replicate 28 0

hello-WithinLimits_example :
    WithinLimits server_config
      (process_hello connection_init hello 32 server_config ack 28).connection
unfolding process_hello connection_init read_hello read_int32 ensure_bytes check_size get_u32
    read_limits read_uint32 read_string read_string_payload ensure_string_payload answer
hello-WithinLimits_example =
    hello-WithinLimits connection_init hello 32 server_config ack 28 server_config-IsConfig refl

-- The same hello with one byte missing.
hello_refused_example :
    ((process_hello connection_init hello 31 server_config ack 28).connection.state
      ≡ connection_init.state)
    × ((process_hello connection_init hello 31 server_config ack 28).ack_message ≡ ack)
unfolding process_hello connection_init read_hello read_int32 ensure_bytes check_size get_u32
hello_refused_example = hello_refused connection_init hello 31 server_config ack 28 (omega arith)

-- Number 5 again after 6 and 7, in a run that began with 4.
replay_refused_example : accept_all init ((4 ∷ []) ++ 5 ∷ ((6 ∷ 7 ∷ []) ++ 5 ∷ [])) ≡ none
replay_refused_example =
    replay_refused init (4 ∷ []) (6 ∷ 7 ∷ []) [] 5 (omega arith) (omega arith, (omega arith, tt))
      (omega arith)

-- The fields of that hello.
abbrev asked : Hello
asked = record {
  version = 0;
  receive_size = 65536;
  send_size = 65536;
  message_size_limit = 0;
  chunk_count_limit = 0;
  endpoint_url = record { length = 0; bytes = some [] };
}

hello_accepted_example :
    Answered server_config asked connection_init
      (process_hello connection_init hello 32 server_config ack 28)
unfolding le_u32
hello_accepted_example =
    hello_accepted connection_init hello 32 server_config ack 28 asked hello_Holds refl
      (omega arith)
      (record {
        version_IsU32 = omega arith;
        receive_IsU32 = omega arith;
        send_IsU32 = omega arith;
        message_IsU32 = omega arith;
        chunk_IsU32 = omega arith;
        url_IsStr = (refl, omega arith);
        url_short = refl;
        receive_enough = omega arith;
        send_enough = omega arith;
      })
      (omega arith) (omega arith)
  where
    hello_Holds : Holds hello 0 (hello_format 32 asked)
    hello_Holds = (
      refl,
      (
        refl,
        (
          refl,
          (
            refl,
            (
              refl,
              (
                refl,
                (
                  refl,
                  (
                    refl,
                    (
                      refl,
                      (
                        refl,
                        (
                          refl,
                          (
                            refl,
                            (
                              refl,
                              (
                                refl,
                                (
                                  refl,
                                  (
                                    refl,
                                    (
                                      refl,
                                      (
                                        refl,
                                        (
                                          refl,
                                          (
                                            refl,
                                            (
                                              refl,
                                              (
                                                refl,
                                                (
                                                  refl,
                                                  (
                                                    refl,
                                                    (
                                                      refl,
                                                      (
                                                        refl,
                                                        (
                                                          refl,
                                                          (
                                                            refl,
                                                            (refl, (refl, (refl, (refl, tt)))),
                                                          ),
                                                        ),
                                                      ),
                                                    ),
                                                  ),
                                                ),
                                              ),
                                            ),
                                          ),
                                        ),
                                      ),
                                    ),
                                  ),
                                ),
                              ),
                            ),
                          ),
                        ),
                      ),
                    ),
                  ),
                ),
              ),
            ),
          ),
        ),
      ),
    )

-- Bad_TcpMessageTooLarge for the reason "no".
error_message_read_example :
    (buf' : List ℕ) × (create_error_message 0x80800000 (some (110 ∷ 111 ∷ [])) send_buffer 96
      ≡ ok (some buf', 18))
    × (parse_message_header buf' 18 ≡ ok (error_header 18))
    × (get_u32 buf' 8 ≡ 0x80800000)
    × (read_string (record (reader_init (some buf') 18) { position = 12 })
        ≡ done
            (c_string (some (110 ∷ 111 ∷ [])))
            (record (reader_init (some buf') 18) { position = 18 }))
error_message_read_example =
    error_message_read 0x80800000 (110 ∷ 111 ∷ []) send_buffer 96 (omega arith) (omega arith)
      (omega arith) (omega arith)
