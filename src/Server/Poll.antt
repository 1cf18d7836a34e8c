-- ===== src/Server/Poll.antt =====
-- poll_process_buffer of src/core/server/poll.c: the bytes of a connection, cut into its messages.
pub mod Stream
use muc_opcua.Common.{
  ℕ, zero, suc, ◌+◌, ◌-◌, ◌^◌, ◌≤◌, ◌<◌, ◌≡◌, ◌⊎◌, inl, inr, refl, sym, ap, subst, get_or, ◌∙◌,
  List, [], ◌∷◌, ◌++◌, true, false, not, arith, ◌||◌, ltb, ◌==◌, if◌then◌else◌, length,
  length-append, slice, slice-eq_of_Holds, overwrite, Holds, Holds-append_left, Holds-append_right,
  Holds-overwrite, Bool-cases,
}
use muc_opcua.Encoding.Le.{le_u32, get_u32, get_u32-le_u32}
use muc_opcua.Server.{Server, Neighbours, disconnect}
use muc_opcua.Server.Process.{process_message}
use muc_opcua.Server.Assembly.{process_messages, message_first}

-- The receive buffer of a connection: `rx_len` bytes from `read_pos` on are not consumed yet.
pub record Receive : Type 0 where
  pub buffer : List ℕ
  pub read_pos : ℕ
  pub rx_len : ℕ

-- Whether the loop came to an end with so many bytes consumed, or the connection ended.
pub data Loop (App : Type 0) : Type 0 where
  finished : Server App → ℕ → Loop App
  ended : Server App → Loop App

unfoldable pub poll_msg_size : List ℕ → ℕ → ℕ
poll_msg_size buffer offset = get_u32 buffer (offset + 4)

-- What is left is moved to the front when the buffer is nearly full.
unfoldable pub compact : Receive → ℕ → Receive
compact rx buffer_size =
    if rx.rx_len == 0
    then record rx { read_pos = 0 }
    else if ltb buffer_size (rx.read_pos + rx.rx_len + 64)
    then record rx {
      buffer = overwrite rx.buffer 0 (slice rx.buffer rx.read_pos rx.rx_len);
      read_pos = 0;
    }
    else rx

module _ {App : Type 0} (neighbours : Neighbours App) where
  -- The loop, in at most as many rounds as there are bytes: each message has at least eight.
  unfoldable pub process_loop : ℕ → Receive → ℕ → Server App → ℕ → Loop App
  process_loop zero rx buffer_size server consumed = finished server consumed
  process_loop (suc fuel) rx buffer_size server consumed =
      let msg_size = poll_msg_size rx.buffer (rx.read_pos + consumed) in
      let after =
        process_message neighbours server (slice rx.buffer (rx.read_pos + consumed) msg_size) in
      let rest = process_loop fuel rx buffer_size after (consumed + msg_size) in
      if not server.conn.is_connected || ltb (rx.rx_len - consumed) 8
      then finished server consumed
      else if ltb msg_size 8 || ltb buffer_size msg_size
      then ended (disconnect neighbours server)
      else if ltb (rx.rx_len - consumed) msg_size
      then finished server consumed
      else if not after.conn.is_connected
      then ended after
      else rest

  unfoldable pub poll_conclude : Receive → ℕ → Loop App → Server App × Receive
  poll_conclude rx buffer_size (ended server) = (server, record rx { read_pos = 0; rx_len = 0 })
  poll_conclude rx buffer_size (finished server consumed) = (
    server,
    compact (record rx { rx_len = rx.rx_len - consumed; read_pos = rx.read_pos + consumed })
        buffer_size,
  )

  unfoldable pub poll_process_buffer : Server App → Receive → ℕ → Server App × Receive
  poll_process_buffer server rx buffer_size =
      poll_conclude rx buffer_size (process_loop rx.rx_len rx buffer_size server 0)
