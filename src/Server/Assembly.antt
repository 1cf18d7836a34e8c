-- ===== src/Server/Assembly.antt =====
-- A request in several chunks, as the server takes it in.
use muc_opcua.Common.{
  ℕ, ◌+◌, ◌-◌, ◌≤◌, ◌≡◌, refl, sym, ap, ◌∙◌, inl, inr, List, [], ◌∷◌, ◌++◌, none, some, true, false,
  arith, length, length-append, append_nil, append_assoc, slice, slice-eq_of_Holds,
  Holds-append_left, Holds-append_right, if◌then◌else◌, ◌/=◌,
}
use muc_opcua.Status.{good}
use muc_opcua.Encoding.State.{done}
use muc_opcua.Encoding.Types.{NodeId}
use muc_opcua.Encoding.Reader.{Reader, reader_init}
use muc_opcua.Encoding.NodeIds.{read_nodeid}
use muc_opcua.Encoding.Format.{IsNodeId}
use muc_opcua.Encoding.Identifiers.{nodeid_format, Reads-nodeid}
use muc_opcua.Core.Sequence.{validate}
use muc_opcua.Services.SecureChannel.{SecureChannel}
use muc_opcua.Server.{Server, Neighbours}
use muc_opcua.Server.DataChunk.{
  accept_inbound_chunk, Request, accepted, accept_header, with_channel,
}
use muc_opcua.Server.Process.{
  is_closed, with_assembly, begun, continuation, final_dispatch, accept_assembled,
  conclude_assembled, final_chunk, process_chunk, process_message,
}
use muc_opcua.Server.Part.{
  Part, part_bytes, IsPart, Holds-self, length-part_bytes, parse_part, part_body, chunk_header,
  read_part, joined, AreParts,
}

module _ {App : Type 0} (neighbours : Neighbours App) where
  -- The messages of a connection, as the loop of src/core/server/poll.c hands them over: until the
  -- connection ends.
  unfoldable pub process_messages : Server App → List (List ℕ) → Server App
  process_messages server [] = server
  process_messages server (msg ∷ msgs) =
      let rest = process_messages (process_message neighbours server msg) msgs in
      if server.conn.is_connected then rest else server

  abbrev pub chunks : List Part → List (List ℕ)
  chunks [] = []
  chunks (part ∷ parts) = part_bytes 67 part ∷ chunks parts

  abbrev pub holding : Server App → List ℕ → Server App
  holding server bytes =
      with_assembly neighbours server (record { buffer = bytes; is_active = true })

  -- A continuation chunk is appended, whatever its channel, token and number are.
  pub continued :
      (server : Server App) (part : Part)
      → is_closed neighbours server.conn.tcp_conn.state ≡ false
      → IsPart part
      → length (begun neighbours server.shared.chunk_assembly).buffer + length part.body
        ≤ neighbours.capacity
      → process_message neighbours server (part_bytes 67 part)
        ≡ holding server ((begun neighbours server.shared.chunk_assembly).buffer ++ part.body)
  unfolding process_message process_chunk continuation
  continued server part live h fits =
      let len : length (part_bytes 67 part) ≡ 24 + length part.body = length-part_bytes 67 part in
      rw (live, parse_part 67 part (inr refl) h, part_body 67 part) (ground (arith, h.nonempty))

  pub message_first :
      (server : Server App) (msg : List ℕ) (msgs : List (List ℕ))
      → server.conn.is_connected ≡ true
      → process_messages server (msg ∷ msgs)
        ≡ process_messages (process_message neighbours server msg) msgs
  unfolding process_messages
  message_first server msg msgs on = simp on refl

  pub continued_all :
      (server : Server App) (acc : List ℕ) (parts : List Part) (msgs : List (List ℕ))
      → server.conn.is_connected ≡ true
      → is_closed neighbours server.conn.tcp_conn.state ≡ false
      → AreParts parts
      → length acc + length (joined parts) ≤ neighbours.capacity
      → process_messages (holding server acc) (chunks parts ++ msgs)
        ≡ process_messages (holding server (acc ++ joined parts)) msgs
  unfolding process_messages
  continued_all server acc [] msgs on live h fits =
      ap (λ bytes. process_messages (holding server bytes) msgs) (sym (append_nil acc))
  continued_all server acc (part ∷ parts) msgs on live (hp, hs) fits =
      let len : length (part.body ++ joined parts) ≡ length part.body + length (joined parts) =
        length-append part.body (joined parts) in
      let len' : length (acc ++ part.body) ≡ length acc + length part.body =
        length-append acc part.body in
      message_first (holding server acc) (part_bytes 67 part) (chunks parts ++ msgs) on
      ∙ ap (λ state. process_messages state (chunks parts ++ msgs))
          (continued (holding server acc) part live hp (omega arith))
      ∙ continued_all server (acc ++ part.body) parts msgs on live hs (omega arith)
      ∙ ap (λ bytes. process_messages (holding server bytes) msgs)
          (append_assoc acc part.body (joined parts))

  abbrev pub validated : SecureChannel → ℕ → SecureChannel
  validated channel number = record channel { sequence = (validate channel.sequence number).1 }

  -- Whether the server accepts a chunk of the channel: its ids are the channel's, and its number is
  -- the next one.
  pub record IsNext (channel : SecureChannel) (part : Part) : Type 0 where
    pub same_channel : part.channel_id ≡ channel.channel_id
    pub same_token : part.token_id ≡ channel.token_id
    pub next : (validate channel.sequence part.sequence_number).0 ≡ good

  abbrev pub request_of : Part → NodeId → List ℕ → Request
  request_of part id payload = record {
    is_opn = false;
    request_id = part.request_id;
    request_type = id;
    body = payload;
    announced = none;
  }

  pub accept_lem :
      (channel : SecureChannel) (part : Part)
      → IsNext channel part
      → accept_inbound_chunk channel false part.channel_id part.token_id part.sequence_number
        ≡ (true, validated channel part.sequence_number)
  unfolding accept_inbound_chunk
  accept_lem channel part h =
      let same : (part.channel_id /= channel.channel_id) ≡ false = ground (arith, h.same_channel) in
      let token : (part.token_id /= channel.token_id) ≡ false = ground (arith, h.same_token) in
      rw (same, token, h.next) refl

  pub read_type :
      (id : NodeId) (payload : List ℕ)
      → IsNodeId id
      → let whole = nodeid_format id ++ payload in
        read_nodeid (reader_init (some whole) (length whole))
        ≡ done id (record (reader_init (some whole) (length whole)) {
          position = length (nodeid_format id);
        })
  read_type id payload h =
      let whole : List ℕ = nodeid_format id ++ payload in
      Reads-nodeid id h whole (reader_init (some whole) (length whole)) refl refl
        (omega (arith, length-append (nodeid_format id) payload))
        (Holds-append_left whole 0 (nodeid_format id) payload (Holds-self whole))
      ∙ ap (λ (p : ℕ). done id (record (reader_init (some whole) (length whole)) { position = p }))
          (omega arith)

  pub behind_type :
      (id : NodeId) (payload : List ℕ)
      → let whole = nodeid_format id ++ payload in
        slice whole (length (nodeid_format id)) (length whole - length (nodeid_format id)) ≡ payload
  behind_type id payload =
      let whole : List ℕ = nodeid_format id ++ payload in
      ap (slice whole (length (nodeid_format id)))
        (omega (arith, length-append (nodeid_format id) payload))
      ∙ slice-eq_of_Holds whole (length (nodeid_format id)) payload (
          Holds-append_right whole 0 (length (nodeid_format id)) (nodeid_format id) payload
            (omega arith) (Holds-self whole))

  accept_assembled_lem :
      (channel : SecureChannel) (part : Part) (id : NodeId) (payload : List ℕ) (r : Reader)
      → IsNext channel part
      → IsNodeId id
      → accept_assembled neighbours channel
          (nodeid_format id ++ payload)
          (done (chunk_header part) r)
        ≡ accepted (validated channel part.sequence_number) (request_of part id payload)
  unfolding accept_assembled accept_header
  accept_assembled_lem channel part id payload r h hid =
      rw (accept_lem channel part h, read_type id payload hid)
        (ap (λ bs. accepted (validated channel part.sequence_number) (request_of part id bs))
          (behind_type id payload))

  -- The last chunk of an assembled request.
  pub concluded :
      (server : Server App) (acc : List ℕ) (part : Part) (id : NodeId) (payload : List ℕ)
      → is_closed neighbours server.conn.tcp_conn.state ≡ false
      → IsPart part
      → IsNext server.conn.secure_channel part
      → IsNodeId id
      → acc ++ part.body ≡ nodeid_format id ++ payload
      → length acc + length part.body ≤ neighbours.capacity
      → process_message neighbours (holding server acc) (part_bytes 70 part)
        ≡ final_dispatch neighbours
            (with_channel neighbours
              (holding server (nodeid_format id ++ payload))
              (validated server.conn.secure_channel part.sequence_number))
            (request_of part id payload)
  unfolding process_message process_chunk final_chunk conclude_assembled
  concluded server acc part id payload live hp h hid e fits =
      let len : length (part_bytes 70 part) ≡ 24 + length part.body = length-part_bytes 70 part in
      rw
        (
          live,
          parse_part 70 part (inl refl) hp,
          part_body 70 part,
          read_part 70 part hp,
          e,
          accept_assembled_lem server.conn.secure_channel part id payload _ h hid,
        )
        (ground (arith, hp.nonempty))
