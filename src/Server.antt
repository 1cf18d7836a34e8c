-- ===== src/Server.antt =====
-- src/core/server: the server between its transport and its services. The services, the cryptography
-- of chunks and the transport are an interface; `App` is the state of the services.
pub mod DataChunk
pub mod Secure
pub mod Process
pub mod Part
pub mod Assembly
pub mod Reassembly
pub mod Numbering
pub mod Poll
pub mod Accepted
pub mod Binding
mod Tests
use muc_opcua.Common.{ℕ, List, [], ◌∷◌, Option, none, some, Bool, true, false, if◌then◌else◌, take}
use muc_opcua.Status.{Result, error, ok}
use muc_opcua.Encoding.Types.{Str}
use muc_opcua.Encoding.Reader.{contents}
use muc_opcua.Core.Tcp.{Connection, Config, create_error_message}
use muc_opcua.Services.SecureChannel.{SecureChannel}

-- What belongs to one connection: `is_connected` is whether its client_handle is not NULL.
pub record Conn : Type 0 where
  pub is_connected : Bool
  pub tcp_conn : Connection
  pub secure_channel : SecureChannel

-- `mu_chunk_assembler_t`, without the ids that nothing reads. `buffer` is what was copied into the
-- array so far, whose size is `capacity` below; its length is that of the list.
pub record Assembler : Type 0 where
  pub buffer : List ℕ
  pub is_active : Bool

-- What all connections share. `sent` is what went to the transport, the last chunk first.
pub record Shared (App : Type 0) : Type 0 where
  pub config : Config
  pub send_buffer : List ℕ
  pub chunk_assembly : Assembler
  pub sent : List (List ℕ)
  pub app : App

-- The active connection and the rest of the server.
pub record Server (App : Type 0) : Type 0 where
  pub conn : Conn
  pub shared : Shared App

-- What a service gives: its status, its response and the state that it leaves.
pub record Served (App : Type 0) : Type 0 where
  pub status : ℕ
  pub payload : List ℕ
  pub server : Server App

-- What an OPN chunk announced to the service: its policy and the client's certificate.
abbrev pub Announced : Type 0
Announced = Option (Str × Str)

-- A chunk that the cryptography has taken apart: the ids and numbers in it, and its body.
pub record Unwrapped : Type 0 where
  pub policy : ℕ
  pub channel_id : ℕ
  pub token_id : ℕ
  pub sequence_number : ℕ
  pub request_id : ℕ
  pub certificate : Str
  pub body : List ℕ

-- mu_asym_chunk_unwrap and _wrap, and mu_sym_chunk_unwrap and _wrap or their AEAD forms, as the
-- channel's policy has it. The wrapping of a response has the request's id, number and certificate.
pub record Crypto : Type 0 where
  pub unwrap_opn : List ℕ → Option Unwrapped
  pub unwrap_msg : SecureChannel → List ℕ → Option Unwrapped
  pub wrap_opn : SecureChannel → Unwrapped → List ℕ → Option (List ℕ)
  pub wrap_msg : SecureChannel → Unwrapped → List ℕ → Option (List ℕ)

-- The neighbours. `dispatch` is mu_service_dispatch for a request id, a request type, a body and the
-- space for a response; `service_fault` is mu_write_service_fault; `tcp_write` is whether the
-- transport took the whole chunk; `capacity` is MU_CHUNK_ASSEMBLY_BUFFER_SIZE and
-- `secure_capacity` is MU_SECURE_RESP_MAX.
pub record Neighbours (App : Type 0) : Type 0 where
  pub dispatch : Server App → Announced → ℕ → ℕ → List ℕ → ℕ → Served App
  pub service_fault : App → ℕ → ℕ → Option (List ℕ)
  pub tcp_write : List ℕ → Bool
  pub crypto : Option Crypto
  pub capacity : ℕ
  pub secure_capacity : ℕ

module _ {App : Type 0} (neighbours : Neighbours App) where
  abbrev pub disconnect : Server App → Server App
  disconnect server = record server { conn = record server.conn { is_connected = false } }

  -- A chunk of which not all was taken is left half on the wire: the connection ends.
  unfoldable pub send_buffer_chunk : Server App → ℕ → Server App
  send_buffer_chunk server total =
      let chunk = take total server.shared.send_buffer in
      if neighbours.tcp_write chunk
      then record server { shared = record server.shared { sent = chunk ∷ server.shared.sent } }
      else disconnect server

  unfoldable pub send_tcp_error_chunk : Server App → ℕ → Server App
  send_tcp_error_chunk server error_code =
      elim (create_error_message error_code none server.shared.send_buffer
        server.shared.config.send_limit) [
          | error status ↦ server
          | ok r ↦
              send_buffer_chunk
                (record server { shared = record server.shared { send_buffer = contents r.0 } }) r.1
        ]

  unfoldable pub abort_connection : Server App → Server App
  abort_connection server = disconnect server
