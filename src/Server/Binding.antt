-- ===== src/Server/Binding.antt =====
-- Which messages come to a service: what is in them, and what the channel asks of it.
use muc_opcua.Common.{
  ℕ, ◌≡◌, ◌≢◌, refl, sym, List, Option, none, some, Bool, true, false, ◌&&◌, subst, arith, ◌==◌,
  length, inl, inr, ◌⊎◌, ==→eq, ==→ne, if_cases,
}
use muc_opcua.Status.{ok}
use muc_opcua.Encoding.Reader.{reader_init}
use muc_opcua.Core.Chunk.{MessageHeader, parse_message_header}
use muc_opcua.Services.Policy.{none_id}
use muc_opcua.Services.SecureChannel.{SecureChannel}
use muc_opcua.Server.{Server, Neighbours, Crypto, abort_connection}
use muc_opcua.Server.DataChunk.{
  read_chunk_header, Request, Inbound, dropped, aborted, accepted, with_channel, receive_plaintext,
  answer_plaintext, conclude, handle_data_chunk_plaintext,
}
use muc_opcua.Server.Secure.{receive_msg, answer_secure, handle_data_chunk_secure}
use muc_opcua.Server.Process.{
  is_closed, is_msg, is_opn, is_clo, process_message, process_chunk, process_message_opn_or_msg,
}
use muc_opcua.Server.Accepted.{HasHeader, plain, HasParts, secured}

-- A MSG whose chunk is not a continuation, of a connection that has said hello, on a server that holds
-- no chunks.
pub record IsSingle {App : Type 0} (neighbours : Neighbours App) (server : Server App)
    (msg : List ℕ) : Type 0 where
  pub live : is_closed neighbours server.conn.tcp_conn.state ≡ false
  pub inactive : server.shared.chunk_assembly.is_active ≡ false
  pub header : MessageHeader
  pub was_parsed : parse_message_header msg (length msg) ≡ ok header
  pub type_msg : is_msg header ≡ true
  pub no_continuation : (header.chunk_type == 67) ≡ false

module _ {App : Type 0} (neighbours : Neighbours App) where
  -- No service has seen anything, and nothing was sent.
  abbrev IsUnserved : Server App → Server App → Type 0
  IsUnserved server after =
      (after.shared.app ≡ server.shared.app) × (after.shared.sent ≡ server.shared.sent)

  -- The server answers a request whose header was read from the message.
  pub record IsPlain (server : Server App) (msg : List ℕ) (after : Server App) : Type 0 where
    pub channel : SecureChannel
    pub request : Request
    pub no_security : (neighbours.crypto ≡ none) ⊎ (server.conn.secure_channel.policy ≡ none_id)
    pub answered :
        after ≡ answer_plaintext neighbours (with_channel neighbours server channel) request
    pub header_read :
        HasHeader server.conn.secure_channel msg request
          (read_chunk_header false (record (reader_init (some msg) (length msg)) { position = 8 }))

  -- The server answers a request that was unwrapped with the channel's keys.
  pub record IsSecured (server : Server App) (msg : List ℕ) (after : Server App) : Type 0 where
    pub crypto : Crypto
    pub channel : SecureChannel
    pub request : Request
    pub is_adapter : neighbours.crypto ≡ some crypto
    pub security : server.conn.secure_channel.policy ≢ none_id
    pub answered :
        after ≡ answer_secure neighbours crypto (with_channel neighbours server channel) request
    pub has_parts : HasParts crypto server.conn.secure_channel msg request

  abbrev pub IsBoundService : Server App → List ℕ → Server App → Type 0
  IsBoundService server msg after =
      IsUnserved server after ⊎ (IsPlain server msg after ⊎ IsSecured server msg after)

  -- What is not accepted, no service sees.
  conclude_cases :
      (server : Server App) (answer : Server App → Request → Server App) (i : Inbound)
      → IsUnserved server (conclude neighbours server answer i)
        ⊎ ((channel : SecureChannel) × (request : Request) × (i ≡ accepted channel request)
            × (conclude neighbours server answer i
                ≡ answer (with_channel neighbours server channel) request))
  unfolding conclude abort_connection
  conclude_cases server answer (dropped channel) = inl (refl, refl)
  conclude_cases server answer (aborted channel) = inl (refl, refl)
  conclude_cases server answer (accepted channel request) = inr (channel, request, refl, refl)

  plaintext-IsBoundService :
      (server : Server App) (msg : List ℕ)
      → (neighbours.crypto ≡ none) ⊎ (server.conn.secure_channel.policy ≡ none_id)
      → IsBoundService server msg
          (handle_data_chunk_plaintext neighbours server msg (length msg) false)
  unfolding handle_data_chunk_plaintext receive_plaintext
  plaintext-IsBoundService server msg none_asked =
      elim (conclude_cases server (answer_plaintext neighbours)
        (receive_plaintext server.conn.secure_channel msg (length msg) false)) [
          | inl unserved ↦ inl unserved
          | inr (channel, request, e, answers) ↦ inr (
              inl (record {
                channel = channel;
                request = request;
                no_security = none_asked;
                answered = answers;
                header_read = plain server.conn.secure_channel msg _ channel request e;
              }))
        ]

  secure-IsBoundService :
      (crypto : Crypto) (server : Server App) (msg : List ℕ)
      → neighbours.crypto ≡ some crypto
      → server.conn.secure_channel.policy ≢ none_id
      → IsBoundService server msg (
          conclude neighbours server
            (answer_secure neighbours crypto)
            (receive_msg crypto server.conn.secure_channel msg))
  unfolding receive_msg
  secure-IsBoundService crypto server msg adapter policy =
      elim (conclude_cases server (answer_secure neighbours crypto)
        (receive_msg crypto server.conn.secure_channel msg)) [
          | inl unserved ↦ inl unserved
          | inr (channel, request, e, answers) ↦ inr (
              inr (record {
                crypto = crypto;
                channel = channel;
                request = request;
                is_adapter = adapter;
                security = policy;
                answered = answers;
                has_parts = secured crypto server.conn.secure_channel msg _ channel request refl e;
              }))
        ]

  with_adapter :
      (server : Server App) (msg : List ℕ) (adapter : Option Crypto)
      → neighbours.crypto ≡ adapter
      → IsBoundService server msg (elim adapter [
        | some crypto ↦ handle_data_chunk_secure neighbours crypto server msg (length msg) false
        | none ↦ handle_data_chunk_plaintext neighbours server msg (length msg) false
      ])
  unfolding handle_data_chunk_secure
  with_adapter server msg none e = plaintext-IsBoundService server msg (inl e)
  with_adapter server msg (some crypto) e =
      if_cases (IsBoundService server msg) (server.conn.secure_channel.policy == none_id) _ _
        (λ p. plaintext-IsBoundService server msg (inr (==→eq _ none_id p)))
        (λ p. secure-IsBoundService crypto server msg e (==→ne _ none_id p))

  no_clo : (header : MessageHeader) → is_msg header ≡ true → is_clo header ≡ false
  no_clo header h = ground arith

  no_opn : (header : MessageHeader) → is_msg header ≡ true → is_opn header ≡ false
  no_opn header h = ground arith

  no_final : (b active : Bool) → active ≡ false → (b && active) ≡ false
  no_final true active h = h
  no_final false active h = refl

  single_chunk :
      (server : Server App) (msg : List ℕ)
      → IsSingle neighbours server msg
      → process_message neighbours server msg
        ≡ process_message_opn_or_msg neighbours server msg (length msg) false
  unfolding process_message process_chunk
  single_chunk server msg single =
      rw
        (
          single.live,
          single.was_parsed,
          single.type_msg,
          single.no_continuation,
          no_clo single.header single.type_msg,
          no_opn single.header single.type_msg,
          no_final (single.header.chunk_type == 70) server.shared.chunk_assembly.is_active
              single.inactive,
        )
        refl

  -- Whatever bytes a MSG has that is not a continuation, on a server that holds no chunks: either no
  -- service sees it and nothing is sent, or it names the channel and its token, carries the next
  -- number, and what is answered is the request with the id, the type and the rest of the body in
  -- it. Under policy None, or without a crypto adapter, these are read from the message. Under
  -- another policy the channel has keys, the message was unwrapped with them, and they are read from
  -- what was unwrapped.
  pub process_message-IsBoundService :
      (server : Server App) (msg : List ℕ)
      → IsSingle neighbours server msg
      → IsBoundService server msg (process_message neighbours server msg)
  unfolding process_message_opn_or_msg
  process_message-IsBoundService server msg single =
      subst (IsBoundService server msg) (sym (single_chunk server msg single))
        (with_adapter server msg neighbours.crypto refl)
