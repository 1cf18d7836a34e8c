-- ===== src/Server/Reassembly.antt =====
-- A request in several chunks: what the server makes of it, and of chunks that others send.
use muc_opcua.Common.{
  ℕ, ◌+◌, ◌≤◌, ◌≡◌, refl, ap, ◌∙◌, List, [], ◌∷◌, ◌++◌, true, false, arith, length, length-append,
  append_assoc, leb, if_both, some, ◌-◌, slice, slice-eq_of_Holds, Holds, Holds-append_left,
  Holds-append_right,
}
use muc_opcua.Encoding.State.{done}
use muc_opcua.Encoding.Types.{NodeId}
use muc_opcua.Encoding.Reader.{Reader, reader_init, advance}
use muc_opcua.Encoding.NodeIds.{read_nodeid}
use muc_opcua.Encoding.Format.{IsNodeId}
use muc_opcua.Encoding.Identifiers.{nodeid_format, Reads-nodeid}
use muc_opcua.Core.Uasc.{symmetric_header_size}
use muc_opcua.Services.SecureChannel.{SecureChannel}
use muc_opcua.Server.{Conn, Shared, Server, Assembler, Neighbours}
use muc_opcua.Server.DataChunk.{Request, accepted, accept_header, receive_plaintext, with_channel}
use muc_opcua.Server.Process.{
  is_closed, begun, final_dispatch, process_message, reset_assembly, chunk_assembler_reset,
  chunk_assembler_init,
}
use muc_opcua.Server.Part.{
  Part, IsPart, part_bytes, part-Holds, joined, AreParts, read_part, length-part_bytes,
}
use muc_opcua.Server.Assembly.{
  process_messages, chunks, holding, continued, continued_all, concluded, message_first, validated,
  IsNext, request_of, accept_lem,
}

module _ {App : Type 0} (neighbours : Neighbours App) where
  -- A connection that has said hello, on a server that holds no chunks.
  pub record IsIdle (server : Server App) : Type 0 where
    pub on : server.conn.is_connected ≡ true
    pub live : is_closed neighbours server.conn.tcp_conn.state ≡ false
    pub inactive : server.shared.chunk_assembly.is_active ≡ false

  begun_lem :
      (server : Server App)
      → server.shared.chunk_assembly.is_active ≡ false
      → begun neighbours server.shared.chunk_assembly ≡ record { buffer = []; is_active = true }
  begun_lem server h = rw h refl

  -- The continuation chunks of a request that begins.
  pub begun_all :
      (server : Server App) (part : Part) (parts : List Part) (msgs : List (List ℕ))
      → IsIdle server
      → AreParts (part ∷ parts)
      → length (joined (part ∷ parts)) ≤ neighbours.capacity
      → process_messages neighbours server (chunks neighbours (part ∷ parts) ++ msgs)
        ≡ process_messages neighbours (holding neighbours server (joined (part ∷ parts))) msgs
  begun_all server part parts msgs idle (hp, hs) fits =
      let none_yet : begun neighbours server.shared.chunk_assembly
          ≡ record { buffer = []; is_active = true } =
        begun_lem server idle.inactive in
      let len : length (part.body ++ joined parts) ≡ length part.body + length (joined parts) =
        length-append part.body (joined parts) in
      message_first neighbours server (part_bytes 67 part) (chunks neighbours parts ++ msgs) idle.on
      ∙ ap (λ state. process_messages neighbours state (chunks neighbours parts ++ msgs))
          (continued neighbours server part idle.live hp (rw none_yet (omega arith))
            ∙ ap (λ (a : Assembler). holding neighbours server (a.buffer ++ part.body)) none_yet)
      ∙ continued_all neighbours server part.body parts msgs idle.on idle.live hs (omega arith)

  pub last_message :
      (server : Server App) (msg : List ℕ)
      → server.conn.is_connected ≡ true
      → process_messages neighbours server (msg ∷ []) ≡ process_message neighbours server msg
  unfolding process_messages
  last_message server msg on = message_first neighbours server msg [] on

  -- The same request in one chunk.
  abbrev pub unsplit : Part → List ℕ → Part
  unsplit part whole = record part { body = whole }

  pub received_whole :
      (channel : SecureChannel) (part : Part) (id : NodeId) (payload : List ℕ)
      → let whole = unsplit part (nodeid_format id ++ payload) in
        IsPart whole
        → IsNext neighbours channel part
        → IsNodeId id
        → receive_plaintext channel (part_bytes 70 whole) (length (part_bytes 70 whole)) false
          ≡ accepted
              (validated neighbours channel part.sequence_number)
              (request_of neighbours part id payload)
  unfolding receive_plaintext accept_header
  received_whole channel part id payload h next hid =
      let whole : Part = unsplit part (nodeid_format id ++ payload) in
      let msg : List ℕ = part_bytes 70 whole in
      let body : Holds msg 24 (nodeid_format id ++ payload) = (part-Holds 70 whole).2 in
      let n : ℕ = length (nodeid_format id) in
      let len : length msg ≡ 24 + length (nodeid_format id ++ payload) =
        length-part_bytes 70 whole in
      let len' : length (nodeid_format id ++ payload) ≡ n + length payload =
        length-append (nodeid_format id) payload in
      let start : Reader = record (reader_init (some msg) (length msg)) { position = 24 } in
      let typed : read_nodeid start ≡ done id (advance n start) =
        Reads-nodeid id hid msg start refl refl (omega arith)
          (Holds-append_left msg 24 (nodeid_format id) payload body) in
      let rest : slice msg (24 + n) (length msg - (24 + n)) ≡ payload =
        ap (slice msg (24 + n)) (omega arith)
        ∙ slice-eq_of_Holds msg (24 + n) payload
            (Holds-append_right msg 24 (24 + n) (nodeid_format id) payload refl body) in
      rw
        (
          read_part 70 whole h,
          accept_lem neighbours channel whole (record {
            same_channel = next.same_channel;
            same_token = next.same_token;
            next = next.next;
          }),
          typed,
        )
        (ap
          (λ bs.
            accepted (validated neighbours channel part.sequence_number)
              (request_of neighbours part id bs))
          rest)

  -- A dispatch ends with an empty assembler, whatever the service does with the server.
  final_dispatch-reset :
      (server : Server App) (request : Request)
      → (final_dispatch neighbours server request).shared.chunk_assembly ≡ chunk_assembler_init
  unfolding final_dispatch reset_assembly chunk_assembler_reset chunk_assembler_init
  final_dispatch-reset server request =
      if_both
        (λ (s : Server App). s.shared.chunk_assembly ≡ record { buffer = []; is_active = false })
        (leb server.shared.config.send_limit symmetric_header_size)
        (reset_assembly neighbours server) _ refl refl

  -- A server that holds no chunks takes in a request that comes in two or more of them, with bodies
  -- that fit the assembly buffer together, where the last one has the channel's ids and its next
  -- number. It dispatches the request that handle_data_chunk_plaintext, which receives the chunks of a
  -- channel under policy None, would receive one chunk with the joined bodies as, and it does so
  -- under any policy of the channel. The assembler is then empty and inactive.
  pub assembled_request :
      (server : Server App) (part : Part) (parts : List Part) (final : Part) (id : NodeId)
      (payload : List ℕ)
      → IsIdle server
      → AreParts (part ∷ parts)
      → IsPart final
      → IsPart (unsplit final (nodeid_format id ++ payload))
      → IsNext neighbours server.conn.secure_channel final
      → IsNodeId id
      → joined (part ∷ parts) ++ final.body ≡ nodeid_format id ++ payload
      → length (joined (part ∷ parts)) + length final.body ≤ neighbours.capacity
      → let whole = part_bytes 70 (unsplit final (nodeid_format id ++ payload)) in
        let channel = validated neighbours server.conn.secure_channel final.sequence_number in
        let request = request_of neighbours final id payload in
        (process_messages neighbours server
            (chunks neighbours (part ∷ parts) ++ (part_bytes 70 final ∷ []))
          ≡ final_dispatch neighbours
              (with_channel neighbours
                (holding neighbours server (nodeid_format id ++ payload))
                channel)
              request)
        × (receive_plaintext server.conn.secure_channel whole (length whole) false
            ≡ accepted channel request)
        × ((process_messages neighbours server (
              chunks neighbours (part ∷ parts) ++ (part_bytes 70 final ∷ []))).shared.chunk_assembly
            ≡ chunk_assembler_init)
  assembled_request server part parts final id payload idle hs hf hw next hid e fits =
      let runs : process_messages neighbours server
            (chunks neighbours (part ∷ parts) ++ (part_bytes 70 final ∷ []))
          ≡ final_dispatch neighbours
              (with_channel neighbours (holding neighbours server (nodeid_format id ++ payload))
                (validated neighbours server.conn.secure_channel final.sequence_number))
              (request_of neighbours final id payload) =
        begun_all server part parts (part_bytes 70 final ∷ []) idle hs (omega arith)
        ∙ last_message (holding neighbours server (joined (part ∷ parts))) (part_bytes 70 final)
            idle.on
        ∙ concluded neighbours server (joined (part ∷ parts)) final id payload idle.live hf next hid
            e fits in
      (
        runs,
        received_whole server.conn.secure_channel final id payload hw next hid,
        ap (λ (s : Server App). s.shared.chunk_assembly) runs ∙ final_dispatch-reset _ _,
      )

  -- The server holds the chunks of all connections in one place: where a connection that has said
  -- hello, and no more, sends a continuation chunk with a request type and some bytes, the next final
  -- chunk of any other connection is dispatched there, as a request of that type with the bytes in
  -- front of its body. Nothing is asked of the first connection's channel, token or number, and the
  -- policy of neither channel plays a part.
  pub injected_request :
      (shared : Shared App) (intruder victim : Conn) (part final : Part) (id : NodeId)
      (bytes : List ℕ)
      → IsIdle (record { conn = intruder; shared = shared })
      → is_closed neighbours victim.tcp_conn.state ≡ false
      → IsPart part
      → part.body ≡ nodeid_format id ++ bytes
      → IsPart final
      → IsNext neighbours victim.secure_channel final
      → IsNodeId id
      → length part.body + length final.body ≤ neighbours.capacity
      → let after =
          process_message neighbours
            (record { conn = intruder; shared = shared })
            (part_bytes 67 part) in
        let server : Server App = record { conn = victim; shared = shared } in
        process_message neighbours
          (record { conn = victim; shared = after.shared })
          (part_bytes 70 final)
        ≡ final_dispatch neighbours
            (with_channel neighbours
              (holding neighbours server (nodeid_format id ++ (bytes ++ final.body)))
              (validated neighbours victim.secure_channel final.sequence_number))
            (request_of neighbours final id (bytes ++ final.body))
  injected_request shared intruder victim part final id bytes idle live hp e hf next hid fits =
      let attacker : Server App = record { conn = intruder; shared = shared } in
      let server : Server App = record { conn = victim; shared = shared } in
      let none_yet : begun neighbours shared.chunk_assembly
          ≡ record { buffer = []; is_active = true } =
        begun_lem attacker idle.inactive in
      ap
        (λ (after : Server App).
          process_message neighbours (record { conn = victim; shared = after.shared })
            (part_bytes 70 final))
        (continued neighbours attacker part idle.live hp (rw none_yet (omega arith))
          ∙ ap (λ (a : Assembler). holding neighbours attacker (a.buffer ++ part.body)) none_yet)
      ∙ concluded neighbours server part.body final id (bytes ++ final.body) live hf next hid
          (ap (λ bs. bs ++ final.body) e ∙ append_assoc (nodeid_format id) bytes final.body) fits
