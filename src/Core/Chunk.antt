-- ===== src/Core/Chunk.antt =====
-- src/core/message_chunk.c: the header of a message chunk and the sequence header in it.
use muc_opcua.Common.{
  ℕ, ◌+◌, ◌-◌, ◌*◌, ◌^◌, List, ◌∷◌, ◌++◌, some, Bool, true, not, ◌&&◌, ltb, ◌==◌, ◌/=◌,
  if◌then◌else◌, get_or, overwrite, bit_or,
}
use muc_opcua.Status.{
  good, bad_internal_error, bad_encoding_error, bad_decoding_error, bad_tcp_message_type_invalid,
  bad_tcp_message_too_large, bad_tcp_internal_error, Result, error, ok,
}
use muc_opcua.Encoding.State.{done, fail}
use muc_opcua.Encoding.Le.{get_u32, le_u32}
use muc_opcua.Encoding.Reader.{reader_init, read_statuscode}
use muc_opcua.Core.Uasc.{symmetric_header_size}

-- `mu_message_header_t`, with the three bytes of `message_type` apart.
pub record MessageHeader : Type 0 where
  pub type_0 : ℕ
  pub type_1 : ℕ
  pub type_2 : ℕ
  pub chunk_type : ℕ
  pub message_size : ℕ
  pub secure_channel_id : ℕ

-- `mu_sequence_header_t`.
pub record SequenceHeader : Type 0 where
  pub sequence_number : ℕ
  pub request_id : ℕ

-- The three bytes of a message type as the number that the code compares.
abbrev pub msg_type : MessageHeader → ℕ
msg_type h = bit_or (bit_or h.type_0 (h.type_1 * 2 ^ 8)) (h.type_2 * 2 ^ 16)

-- HEL, ACK and ERR, and with OPN, CLO and MSG all the types.
abbrev pub is_connection_type : ℕ → Bool
is_connection_type t = if t == 0x4C4548 then true else if t == 0x4B4341 then true else t == 0x525245

abbrev pub is_message_type : ℕ → Bool
is_message_type t =
    if is_connection_type t
    then true
    else if t == 0x4E504F
    then true
    else if t == 0x4F4C43
    then true
    else t == 0x47534D

-- The status of an abort chunk: its error, which may not be MU_STATUS_GOOD.
abbrev pub abort_status : List ℕ → ℕ → Result MessageHeader
abort_status buffer length =
    elim (read_statuscode
      (record (reader_init (some buffer) length) { position = symmetric_header_size })) [
        | done status r ↦ error (if status == good then bad_tcp_internal_error else status)
        | fail status r ↦ error status
      ]

-- What is read behind the first eight bytes, for a header whose type is neither HEL, ACK nor ERR.
unfoldable pub parse_channel : List ℕ → ℕ → MessageHeader → Result MessageHeader
parse_channel buffer length h =
    let header : MessageHeader = record h { secure_channel_id = get_u32 buffer 8 } in
    if ltb length 12
    then error bad_tcp_internal_error
    else if ltb h.message_size 12
    then error bad_tcp_internal_error
    else if h.chunk_type == 65
    then (if h.type_0 == 79
        then error bad_tcp_internal_error
        else if ltb h.message_size (symmetric_header_size + 4)
        then error bad_tcp_internal_error
        else abort_status buffer length)
    else ok header

-- The first eight bytes.
abbrev pub fixed_header : List ℕ → MessageHeader
fixed_header buffer = record {
  type_0 = get_or buffer 0 0;
  type_1 = get_or buffer 1 0;
  type_2 = get_or buffer 2 0;
  chunk_type = get_or buffer 3 0;
  message_size = get_u32 buffer 4;
  secure_channel_id = 0;
}

-- The tests on the first eight bytes, and what follows.
unfoldable pub check_header : List ℕ → ℕ → MessageHeader → Result MessageHeader
check_header buffer length h =
    if not (is_message_type (msg_type h))
    then error bad_tcp_message_type_invalid
    else if h.chunk_type /= 67 && h.chunk_type /= 70 && h.chunk_type /= 65
    then error bad_tcp_message_type_invalid
    else if ltb h.message_size 8
    then error bad_tcp_internal_error
    else if ltb length h.message_size
    then error bad_tcp_message_too_large
    else if h.chunk_type == 67 && h.type_0 /= 77
    then error bad_tcp_internal_error
    else if is_connection_type (msg_type h)
    then ok h
    else parse_channel buffer length h

unfoldable pub parse_message_header : List ℕ → ℕ → Result MessageHeader
parse_message_header buffer length =
    if ltb length 8
    then error bad_tcp_internal_error
    else check_header buffer length (fixed_header buffer)

abbrev pub header_bytes : MessageHeader → List ℕ
header_bytes h =
    h.type_0
    ∷ h.type_1
    ∷ h.type_2
    ∷ h.chunk_type
    ∷ (le_u32 h.message_size ++ le_u32 h.secure_channel_id)

unfoldable pub write_message_header : List ℕ → ℕ → MessageHeader → Result (List ℕ)
write_message_header buffer length h =
    if ltb length 12 then error bad_internal_error else ok (overwrite buffer 0 (header_bytes h))

-- The sequence header and the offset behind it.
unfoldable pub parse_sequence_header : List ℕ → ℕ → ℕ → Result (ℕ × SequenceHeader)
parse_sequence_header buffer length offset =
    if ltb length offset
    then error bad_decoding_error
    else if ltb (length - offset) 4
    then error bad_decoding_error
    else if ltb (length - (offset + 4)) 4
    then error bad_decoding_error
    else ok (
      offset + 4 + 4,
      record { sequence_number = get_u32 buffer offset; request_id = get_u32 buffer (offset + 4) },
    )

-- The first number is stored before the room for the second is tested; the buffer of a failed
-- call is not modelled.
unfoldable pub write_sequence_header : List ℕ → ℕ → ℕ → SequenceHeader → Result (List ℕ × ℕ)
write_sequence_header buffer length offset h =
    if ltb length offset
    then error bad_encoding_error
    else if ltb (length - offset) 4
    then error bad_encoding_error
    else if ltb (length - (offset + 4)) 4
    then error bad_encoding_error
    else ok (
      overwrite (overwrite buffer offset (le_u32 h.sequence_number)) (offset + 4)
          (le_u32 h.request_id),
      offset + 4 + 4,
    )
