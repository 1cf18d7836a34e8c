-- ===== src/Core/Framing.antt =====
-- The headers that are written into a chunk are the headers that are parsed from it.
use muc_opcua.Common.{
  ℕ, ◌≤◌, ◌≡◌, ◌⊎◌, refl, ◌∙◌, List, true, false, length, Holds, Holds-append_left,
  Holds-append_right, Holds-overwrite, overwrite, arith, le→ltb,
}
use muc_opcua.Status.{ok}
use muc_opcua.Encoding.Format.{IsU32}
use muc_opcua.Encoding.Le.{le_u32, get_u32-le_u32}
use muc_opcua.Core.Chunk.{
  MessageHeader, msg_type, is_connection_type, is_message_type, header_bytes, fixed_header,
  parse_channel, check_header, parse_message_header, write_message_header,
}

-- The header of a final or intermediate chunk on a channel that fits `n` bytes.
pub record IsChannelHeader (h : MessageHeader) (n : ℕ) : Type 0 where
  pub known : is_message_type (msg_type h) ≡ true
  pub channelled : is_connection_type (msg_type h) ≡ false
  pub chunk : (h.chunk_type ≡ 70) ⊎ ((h.chunk_type ≡ 67) × (h.type_0 ≡ 77))
  pub large : 12 ≤ h.message_size
  pub small : h.message_size ≤ n
  pub size_IsU32 : IsU32 h.message_size
  pub channel_IsU32 : IsU32 h.secure_channel_id

length-le_u32 : (v : ℕ) → length (le_u32 v) ≡ 4
unfolding le_u32
length-le_u32 v = refl

fixed_header_lem :
    (buf : List ℕ) (h : MessageHeader)
    → IsU32 h.message_size
    → Holds buf 0 (header_bytes h)
    → fixed_header buf ≡ record h { secure_channel_id = 0 }
fixed_header_lem buf h hs (h0, (h1, (h2, (h3, rest)))) = rw (
  h0,
  h1,
  h2,
  h3,
  get_u32-le_u32 buf 4 h.message_size hs
      (Holds-append_left buf 4 (le_u32 h.message_size) (le_u32 h.secure_channel_id) rest),
)

parse_channel_lem :
    (buf : List ℕ) (n : ℕ) (h : MessageHeader)
    → IsChannelHeader h n
    → Holds buf 0 (header_bytes h)
    → parse_channel buf n (record h { secure_channel_id = 0 }) ≡ ok h
unfolding parse_channel
parse_channel_lem buf n h w (_, (_, (_, (_, rest)))) =
    rw
      (get_u32-le_u32 buf 8 h.secure_channel_id w.channel_IsU32 (
        Holds-append_right buf 4 8 (le_u32 h.message_size) (le_u32 h.secure_channel_id)
          (omega (arith, length-le_u32 h.message_size)) rest))
      (ground arith)

check_header_lem :
    (buf : List ℕ) (n : ℕ) (h : MessageHeader)
    → IsChannelHeader h n
    → check_header buf n (record h { secure_channel_id = 0 })
      ≡ parse_channel buf n (record h { secure_channel_id = 0 })
unfolding check_header
check_header_lem buf n h w = rw (w.known, w.channelled) (ground arith)

pub parse_message_header_lem :
    (buf : List ℕ) (n : ℕ) (h : MessageHeader)
    → IsChannelHeader h n
    → Holds buf 0 (header_bytes h)
    → parse_message_header buf n ≡ ok h
unfolding parse_message_header
parse_message_header_lem buf n h w holds =
    let large : 12 ≤ h.message_size = w.large in
    let small : h.message_size ≤ n = w.small in
    rw (le→ltb n 8 (omega arith), fixed_header_lem buf h w.size_IsU32 holds)
      (check_header_lem buf n h w ∙ parse_channel_lem buf n h w holds)

length-header_bytes : (h : MessageHeader) → length (header_bytes h) ≡ 12
unfolding le_u32
length-header_bytes h = refl

-- The header of a final or intermediate chunk on a channel, written into a buffer of at least its
-- message size and 12 bytes, is parsed back as it was.
pub header_roundtrip :
    (buf : List ℕ) (n : ℕ) (h : MessageHeader)
    → IsChannelHeader h n
    → n ≤ length buf
    → (buf' : List ℕ) × (write_message_header buf n h ≡ ok buf')
      × (parse_message_header buf' n ≡ ok h)
unfolding write_message_header
header_roundtrip buf n h w mem =
    let large : 12 ≤ h.message_size = w.large in
    let small : h.message_size ≤ n = w.small in
    (
      overwrite buf 0 (header_bytes h),
      rw (le→ltb n 12 (omega arith)) refl,
      parse_message_header_lem (overwrite buf 0 (header_bytes h)) n h w
          (Holds-overwrite buf 0 (header_bytes h) (omega (arith, length-header_bytes h))),
    )
