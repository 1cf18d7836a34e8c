-- ===== src/Server/Secure.antt =====
-- handle_data_chunk_secure of src/core/server/data_chunk.c: a chunk where a crypto adapter is present.
use muc_opcua.Common.{
  ℕ, List, [], ◌∷◌, Option, none, some, Bool, true, false, not, ◌&&◌, ◌==◌, ◌/=◌, if◌then◌else◌,
  length, overwrite,
}
use muc_opcua.Status.{good}
use muc_opcua.Encoding.State.{Outcome, done, fail, M, ◌>>=◌}
use muc_opcua.Encoding.Types.{Str, null_str}
use muc_opcua.Encoding.Reader.{Reader, reader_init, read_uint32}
use muc_opcua.Encoding.Text.{read_string}
use muc_opcua.Encoding.NodeIds.{read_nodeid}
use muc_opcua.Services.Policy.{none_id}
use muc_opcua.Services.SecureChannel.{SecureChannel}
use muc_opcua.Server.{Server, Announced, Crypto, Unwrapped, Neighbours, send_buffer_chunk}
use muc_opcua.Server.DataChunk.{
  accept_inbound_chunk, Request, Inbound, dropped, aborted, with_type, serve, or_fault, next_number,
  close_rejected, conclude, handle_data_chunk_plaintext,
}

-- The channel id and the policy URI in front of an encrypted OPN; the id itself is not used.
unfoldable pub read_opn_policy : M Reader Str
read_opn_policy = read_uint32 >>= λ channel. read_string

-- secure_unwrap_opn and secure_unwrap_msg.
abbrev pub opn_parts : Crypto → List ℕ → Outcome Reader Str → Option (Unwrapped × Str)
opn_parts crypto msg (fail e r) = none
opn_parts crypto msg (done policy r) = elim (crypto.unwrap_opn msg) [
  | none ↦ none
  | some parts ↦ some (parts, policy)
]

unfoldable pub secure_unwrap_opn : Crypto → List ℕ → ℕ → Option (Unwrapped × Str)
secure_unwrap_opn crypto msg msg_len =
    opn_parts crypto msg
      (read_opn_policy (record (reader_init (some msg) msg_len) { position = 8 }))

unfoldable pub secure_unwrap_msg : Crypto → SecureChannel → List ℕ → Option Unwrapped
secure_unwrap_msg crypto channel msg =
    if channel.keys_valid then crypto.unwrap_msg channel msg else none

-- What follows the unwrapping.
unfoldable pub accept_unwrapped : SecureChannel → Bool → Announced → Unwrapped → Inbound
accept_unwrapped channel is_opn announced parts =
    let test =
      accept_inbound_chunk channel is_opn parts.channel_id parts.token_id parts.sequence_number in
    if not test.0
    then aborted test.1
    else with_type (record test.1 { in_last_sequence_number = parts.sequence_number }) is_opn
        parts.request_id announced parts.body (length parts.body)
        (read_nodeid (reader_init (some parts.body) (length parts.body)))

-- An OPN leaves its policy in the channel before it is accepted.
unfoldable pub receive_opn : Crypto → SecureChannel → List ℕ → ℕ → Inbound
receive_opn crypto channel msg msg_len = elim (secure_unwrap_opn crypto msg msg_len) [
  | none ↦ dropped channel
  | some (parts, policy) ↦
      accept_unwrapped (record channel { policy = parts.policy }) true
        (some (policy, parts.certificate)) parts
]

unfoldable pub receive_msg : Crypto → SecureChannel → List ℕ → Inbound
receive_msg crypto channel msg = elim (secure_unwrap_msg crypto channel msg) [
  | none ↦ dropped channel
  | some parts ↦ accept_unwrapped channel false none parts
]

abbrev pub certificate_of : Announced → Str
certificate_of none = null_str
certificate_of (some (policy, certificate)) = certificate

module _ {App : Type 0} (neighbours : Neighbours App) (crypto : Crypto) where
  -- The wrapped response in the send buffer, and its way out.
  abbrev pub send_wrapped : Server App → Option (List ℕ) → Server App
  send_wrapped server none = server
  send_wrapped server (some chunk) =
      send_buffer_chunk neighbours
        (record server {
          shared = record server.shared {
            send_buffer = overwrite server.shared.send_buffer 0 chunk;
          };
        })
        (length chunk)

  abbrev pub wrap : SecureChannel → Bool → Unwrapped → List ℕ → Option (List ℕ)
  wrap channel is_opn parts body =
      if is_opn then crypto.wrap_opn channel parts body else crypto.wrap_msg channel parts body

  -- What is left of the request for its response: its id and certificate, and the next number.
  abbrev pub response_parts : SecureChannel → Request → Unwrapped
  response_parts channel request = record {
    policy = channel.policy;
    channel_id = channel.channel_id;
    token_id = channel.token_id;
    sequence_number = channel.out_sequence_number;
    request_id = request.request_id;
    certificate = certificate_of request.announced;
    body = [];
  }

  -- A response that cannot be written, or is empty, is not sent, and the channel is not closed.
  unfoldable pub respond_secure : Server App → Request → Bool → Option (List ℕ) → Server App
  respond_secure server request opn_rejected none = server
  respond_secure server request opn_rejected (some []) = server
  respond_secure server request opn_rejected (some (b ∷ bs)) =
      let numbered = next_number neighbours server in
      let channel = numbered.conn.secure_channel in
      close_rejected neighbours opn_rejected (
        send_wrapped numbered
          (wrap channel request.is_opn (response_parts channel request) (b ∷ bs)))

  unfoldable pub answer_secure : Server App → Request → Server App
  answer_secure server request =
      let served = serve neighbours server request neighbours.secure_capacity in
      respond_secure served.server request (request.is_opn && served.status /= good)
        (or_fault neighbours served neighbours.secure_capacity)

  unfoldable pub handle_data_chunk_secure : Server App → List ℕ → ℕ → Bool → Server App
  handle_data_chunk_secure server msg msg_len is_opn =
      let channel = server.conn.secure_channel in
      if not is_opn && channel.policy == none_id
      then handle_data_chunk_plaintext neighbours server msg msg_len false
      else conclude neighbours server answer_secure (
          if is_opn then receive_opn crypto channel msg msg_len else receive_msg crypto channel msg)
