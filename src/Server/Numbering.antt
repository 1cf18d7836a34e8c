-- ===== src/Server/Numbering.antt =====
-- The numbers of a request's chunks. OPC 10000-6, 6.7.2.4, which src/core/sequence.c implements, gives
-- each chunk the next number, but the server validates that of the last chunk only.
use muc_opcua.Common.{
  ℕ, ◌+◌, ◌≤◌, ◌<◌, ◌≡◌, refl, ap, ◌∙◌, inl, inr, Bool-cases, ◌/=◌, ◌||◌, List, [], ◌∷◌, ◌++◌, true,
  false, arith, length,
}
use muc_opcua.Status.{bad_security_checks_failed}
use muc_opcua.Encoding.State.{done}
use muc_opcua.Encoding.Reader.{Reader}
use muc_opcua.Core.Sequence.{Validator, validate, wrap_limit}
use muc_opcua.Services.SecureChannel.{SecureChannel}
use muc_opcua.Server.{Server, Neighbours, abort_connection}
use muc_opcua.Server.DataChunk.{aborted, accept_header, accept_inbound_chunk}
use muc_opcua.Server.Process.{
  is_closed, chunk_assembler_init, reset_assembly, chunk_assembler_reset, accept_assembled,
  conclude_assembled, final_chunk, process_chunk, process_message,
}
use muc_opcua.Server.Part.{
  Part, IsPart, part_bytes, joined, AreParts, chunk_header, read_part, parse_part, part_body,
  length-part_bytes,
}
use muc_opcua.Server.Assembly.{process_messages, chunks, holding}
use muc_opcua.Server.Reassembly.{IsIdle, begun_all, last_message}

-- The numbers that follow `n`, one for each chunk.
abbrev pub AreNumbered : ℕ → List Part → Part → Type 0
AreNumbered n [] final = final.sequence_number ≡ n + 1
AreNumbered n (part ∷ parts) final =
    (part.sequence_number ≡ n + 1) × AreNumbered (n + 1) parts final

numbered_last :
    (n : ℕ) (parts : List Part) (final : Part)
    → AreNumbered n parts final
    → final.sequence_number ≡ n + 1 + length parts
numbered_last n [] final e = omega arith
numbered_last n (part ∷ parts) final (e, h) = omega (arith, numbered_last (n + 1) parts final h)

-- A number that is not the next one, away from the wrap.
skipped :
    (v : Validator) (n : ℕ)
    → v.is_initialized ≡ true
    → v.last_sequence_number ≤ wrap_limit
    → v.last_sequence_number + 1 < n
    → validate v n ≡ (bad_security_checks_failed, v)
unfolding validate
skipped v n i low h = ground arith

refused_number :
    (channel : SecureChannel) (c t n : ℕ)
    → validate channel.sequence n ≡ (bad_security_checks_failed, channel.sequence)
    → accept_inbound_chunk channel false c t n ≡ (false, channel)
unfolding accept_inbound_chunk
refused_number channel c t n h =
    elim (Bool-cases (c /= channel.channel_id || t /= channel.token_id)) [
      | inl e ↦ rw e refl
      | inr e ↦ rw (e, h) refl
    ]

module _ {App : Type 0} (neighbours : Neighbours App) where
  refused_assembled :
      (channel : SecureChannel) (part : Part) (body : List ℕ) (r : Reader)
      → validate channel.sequence part.sequence_number
        ≡ (bad_security_checks_failed, channel.sequence)
      → accept_assembled neighbours channel body (done (chunk_header part) r) ≡ aborted channel
  unfolding accept_assembled accept_header
  refused_assembled channel part body r h =
      rw (refused_number channel part.channel_id part.token_id part.sequence_number h) refl

  refused_last :
      (server : Server App) (acc : List ℕ) (part : Part)
      → is_closed neighbours server.conn.tcp_conn.state ≡ false
      → IsPart part
      → validate server.conn.secure_channel.sequence part.sequence_number
        ≡ (bad_security_checks_failed, server.conn.secure_channel.sequence)
      → length acc + length part.body ≤ neighbours.capacity
      → process_message neighbours (holding neighbours server acc) (part_bytes 70 part)
        ≡ abort_connection neighbours
            (reset_assembly neighbours (holding neighbours server (acc ++ part.body)))
  unfolding process_message process_chunk final_chunk conclude_assembled
  refused_last server acc part live hp h fits =
      let len : length (part_bytes 70 part) ≡ 24 + length part.body = length-part_bytes 70 part in
      rw
        (
          live,
          parse_part 70 part (inl refl) hp,
          part_body 70 part,
          read_part 70 part hp,
          refused_assembled server.conn.secure_channel part (acc ++ part.body) _ h,
        )
        (ground (arith, hp.nonempty))

  -- A request in two or more chunks that a client numbers as it has to, one number for each chunk and
  -- none left out, away from the wrap, on a channel that has accepted a number before, with bodies
  -- that fit the assembly buffer together: a server that held no chunks takes the last chunk for a
  -- skipped number. It ends the connection, sends nothing, and no service sees the request.
  pub numbered_refused :
      (server : Server App) (part : Part) (parts : List Part) (final : Part)
      → IsIdle neighbours server
      → AreParts (part ∷ parts)
      → IsPart final
      → server.conn.secure_channel.sequence.is_initialized ≡ true
      → server.conn.secure_channel.sequence.last_sequence_number ≤ wrap_limit
      → AreNumbered server.conn.secure_channel.sequence.last_sequence_number (part ∷ parts) final
      → length (joined (part ∷ parts)) + length final.body ≤ neighbours.capacity
      → let after =
          process_messages neighbours server
            (chunks neighbours (part ∷ parts) ++ (part_bytes 70 final ∷ [])) in
        (after.conn.is_connected ≡ false)
        × (after.shared.app ≡ server.shared.app)
        × (after.shared.sent ≡ server.shared.sent)
        × (after.shared.chunk_assembly ≡ chunk_assembler_init)
  unfolding abort_connection reset_assembly chunk_assembler_reset chunk_assembler_init
  numbered_refused server part parts final idle hs hf i low numbered fits =
      let n : ℕ = server.conn.secure_channel.sequence.last_sequence_number in
      let skip : validate server.conn.secure_channel.sequence final.sequence_number
          ≡ (bad_security_checks_failed, server.conn.secure_channel.sequence) =
        skipped server.conn.secure_channel.sequence final.sequence_number i low
          (omega (arith, numbered_last n (part ∷ parts) final numbered)) in
      let runs : process_messages neighbours server
            (chunks neighbours (part ∷ parts) ++ (part_bytes 70 final ∷ []))
          ≡ abort_connection neighbours (
              reset_assembly neighbours
                (holding neighbours server (joined (part ∷ parts) ++ final.body))) =
        begun_all neighbours server part parts (part_bytes 70 final ∷ []) idle hs (omega arith)
        ∙ last_message neighbours (holding neighbours server (joined (part ∷ parts)))
            (part_bytes 70 final) idle.on
        ∙ refused_last server (joined (part ∷ parts)) final idle.live hf skip fits in
      (
        ap (λ (s : Server App). s.conn.is_connected) runs,
        ap (λ (s : Server App). s.shared.app) runs,
        ap (λ (s : Server App). s.shared.sent) runs,
        ap (λ (s : Server App). s.shared.chunk_assembly) runs,
      )
