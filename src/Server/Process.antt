-- ===== src/Server/Process.antt =====
-- src/core/server/process_message.c: one message of a connection, with the assembly of the chunks of
-- a MSG.
use muc_opcua.Common.{
  ℕ, ◌+◌, ◌-◌, List, [], ◌++◌, none, some, Bool, true, false, not, ◌&&◌, leb, ltb, ◌==◌,
  if◌then◌else◌, slice, length,
}
use muc_opcua.Status.{good, bad_tcp_internal_error, error, ok}
use muc_opcua.Encoding.State.{Outcome, done, fail}
use muc_opcua.Encoding.Reader.{Reader, reader_init}
use muc_opcua.Core.Uasc.{symmetric_header_size}
use muc_opcua.Core.Chunk.{MessageHeader, fixed_header, parse_message_header}
use muc_opcua.Core.Tcp.{TcpState, closed, connected, established, process_hello}
use muc_opcua.Services.SecureChannel.{SecureChannel, channel_close}
use muc_opcua.Server.{
  Server, Assembler, Neighbours, disconnect, send_buffer_chunk, send_tcp_error_chunk,
  abort_connection,
}
use muc_opcua.Server.DataChunk.{
  ChunkHeader, read_chunk_header, Request, Inbound, dropped, aborted, accepted, accept_header,
  serve, or_fault, respond, with_channel, handle_data_chunk_plaintext,
}
use muc_opcua.Server.Secure.{handle_data_chunk_secure}

-- mu_chunk_assembler_init and mu_chunk_assembler_reset.
unfoldable pub chunk_assembler_init : Assembler
chunk_assembler_init = record { buffer = []; is_active = false }

unfoldable pub chunk_assembler_reset : Assembler → Assembler
chunk_assembler_reset assembler = record { buffer = []; is_active = false }

-- 'O' 'P' 'N', 'M' 'S' 'G' and 'C' 'L' 'O'.
abbrev pub is_type : ℕ → ℕ → ℕ → MessageHeader → Bool
is_type a b c header = header.type_0 == a && header.type_1 == b && header.type_2 == c

abbrev pub is_opn : MessageHeader → Bool
is_opn header = is_type 79 80 78 header

abbrev pub is_msg : MessageHeader → Bool
is_msg header = is_type 77 83 71 header

abbrev pub is_clo : MessageHeader → Bool
is_clo header = is_type 67 76 79 header

module _ {App : Type 0} (neighbours : Neighbours App) where
  abbrev pub with_assembly : Server App → Assembler → Server App
  with_assembly server assembler = record server {
    shared = record server.shared { chunk_assembly = assembler };
  }

  unfoldable pub reset_assembly : Server App → Server App
  reset_assembly server = with_assembly server (chunk_assembler_reset server.shared.chunk_assembly)

  unfoldable pub process_message_hello : Server App → List ℕ → ℕ → Server App
  process_message_hello server msg msg_len =
      let config = server.shared.config in
      let result =
        process_hello server.conn.tcp_conn msg msg_len config server.shared.send_buffer
          config.send_limit in
      let greeted : Server App = record {
        conn = record server.conn { tcp_conn = result.connection };
        shared = record server.shared { send_buffer = result.ack_message };
      } in
      if result.status == good
      then send_buffer_chunk neighbours greeted result.ack_length
      else disconnect neighbours greeted

  -- `memcpy` behind what the assembler holds.
  abbrev pub append_body : Assembler → List ℕ → Assembler
  append_body assembler body = record { buffer = assembler.buffer ++ body; is_active = true }

  -- An inactive assembler begins empty.
  abbrev pub begun : Assembler → Assembler
  begun assembler =
      if not assembler.is_active then record { buffer = []; is_active = true } else assembler

  abbrev pub overflows : Assembler → ℕ → Bool
  overflows assembler body_len = ltb neighbours.capacity (length assembler.buffer + body_len)

  unfoldable pub continuation : Server App → List ℕ → ℕ → Server App
  continuation server msg msg_len =
      let body_len = msg_len - symmetric_header_size in
      let assembler = begun server.shared.chunk_assembly in
      if leb msg_len symmetric_header_size
      then send_tcp_error_chunk neighbours server bad_tcp_internal_error
      else if overflows assembler body_len
      then send_tcp_error_chunk neighbours (reset_assembly server) bad_tcp_internal_error
      else with_assembly server (append_body assembler (slice msg symmetric_header_size body_len))

  -- The answer to an assembled request; the assembler is empty after it.
  unfoldable pub final_dispatch : Server App → Request → Server App
  final_dispatch server request =
      let capacity = server.shared.config.send_limit - symmetric_header_size in
      let served = serve neighbours server request capacity in
      if leb server.shared.config.send_limit symmetric_header_size
      then reset_assembly server
      else reset_assembly (
          respond neighbours served.server false request.request_id symmetric_header_size
            (or_fault neighbours served capacity))

  -- The assembled body in place of the one that follows the last header.
  unfoldable pub accept_assembled : SecureChannel → List ℕ → Outcome Reader ChunkHeader → Inbound
  accept_assembled channel body (fail e r) = dropped channel
  accept_assembled channel body (done header r) =
      accept_header channel false body (length body)
        (done header (reader_init (some body) (length body)))

  -- What does not come to a dispatch empties the assembler.
  unfoldable pub conclude_assembled : Server App → Inbound → Server App
  conclude_assembled server (dropped channel) =
      reset_assembly (with_channel neighbours server channel)
  conclude_assembled server (aborted channel) =
      abort_connection neighbours (reset_assembly (with_channel neighbours server channel))
  conclude_assembled server (accepted channel request) =
      final_dispatch (with_channel neighbours server channel) request

  -- A final chunk while the assembler is active.
  unfoldable pub final_chunk : Server App → List ℕ → ℕ → Server App
  final_chunk server msg msg_len =
      let body_len = msg_len - symmetric_header_size in
      let assembler = server.shared.chunk_assembly in
      let whole = append_body assembler (slice msg symmetric_header_size body_len) in
      if leb msg_len symmetric_header_size
      then reset_assembly server
      else if overflows assembler body_len
      then reset_assembly server
      else conclude_assembled (with_assembly server whole) (
          accept_assembled server.conn.secure_channel whole.buffer
            (read_chunk_header false (record (reader_init (some msg) msg_len) { position = 8 })))

  unfoldable pub process_message_opn_or_msg : Server App → List ℕ → ℕ → Bool → Server App
  process_message_opn_or_msg server msg msg_len opn = elim neighbours.crypto [
    | some crypto ↦ handle_data_chunk_secure neighbours crypto server msg msg_len opn
    | none ↦ handle_data_chunk_plaintext neighbours server msg msg_len opn
  ]

  unfoldable pub close_channel : Server App → Server App
  close_channel server =
      disconnect neighbours
        (with_channel neighbours server (channel_close server.conn.secure_channel).1)

  -- A message with a good header.
  unfoldable pub process_chunk : Server App → List ℕ → ℕ → MessageHeader → Server App
  process_chunk server msg msg_len header =
      if is_msg header && header.chunk_type == 67
      then continuation server msg msg_len
      else if is_msg header && header.chunk_type == 70 && server.shared.chunk_assembly.is_active
      then final_chunk server msg msg_len
      else if is_clo header
      then close_channel server
      else if not (is_opn header) && not (is_msg header)
      then server
      else process_message_opn_or_msg server msg msg_len (is_opn header)

  -- A message with a bad header: the peer is told of one with the type of a continuation chunk,
  -- where there was a header at all.
  unfoldable pub refuse_header : Server App → List ℕ → ℕ → ℕ → Server App
  refuse_header server msg msg_len status = reset_assembly (
      if leb 8 msg_len && (fixed_header msg).chunk_type == 67
      then send_tcp_error_chunk neighbours server status
      else server)

  abbrev pub is_closed : TcpState → Bool
  is_closed closed = true
  is_closed connected = false
  is_closed established = false

  unfoldable pub process_message : Server App → List ℕ → Server App
  process_message server msg =
      if is_closed server.conn.tcp_conn.state
      then process_message_hello server msg (length msg)
      else elim (parse_message_header msg (length msg)) [
        | error status ↦ refuse_header server msg (length msg) status
        | ok header ↦ process_chunk server msg (length msg) header
      ]
