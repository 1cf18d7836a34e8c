-- ===== src/Core/Response.antt =====
-- A response chunk under a channel's token, as the receiving side reads it.
use muc_opcua.Common.{
  ℕ, ◌+◌, ◌≤◌, ◌≡◌, refl, inl, List, ◌++◌, length, Holds, Holds-append_left, Holds-append_right,
  Holds-overwrite, overwrite, slice, slice-overwrite_after, arith, le→ltb, true, false,
}
use muc_opcua.Status.{ok}
use muc_opcua.Encoding.Format.{IsU32}
use muc_opcua.Encoding.Le.{le_u32, get_u32, put_u32, get_u32-le_u32}
use muc_opcua.Core.Uasc.{finalize_symmetric, symmetric_header}
use muc_opcua.Core.Chunk.{
  MessageHeader, SequenceHeader, msg_type, is_message_type, is_connection_type, header_bytes,
  parse_message_header, parse_sequence_header,
}
use muc_opcua.Core.Framing.{IsChannelHeader, parse_message_header_lem}

abbrev pub final_header : ℕ → ℕ → ℕ → ℕ → ℕ → MessageHeader
final_header t0 t1 t2 size channel = record {
  type_0 = t0;
  type_1 = t1;
  type_2 = t2;
  chunk_type = 70;
  message_size = size;
  secure_channel_id = channel;
}

abbrev pub numbers : ℕ → ℕ → SequenceHeader
numbers n i = record { sequence_number = n; request_id = i }

pub final_header-IsChannelHeader :
    (t0 t1 t2 size ch : ℕ)
    → is_message_type (msg_type (final_header t0 t1 t2 size ch)) ≡ true
    → is_connection_type (msg_type (final_header t0 t1 t2 size ch)) ≡ false
    → 12 ≤ size
    → IsU32 size
    → IsU32 ch
    → IsChannelHeader (final_header t0 t1 t2 size ch) size
final_header-IsChannelHeader t0 t1 t2 size ch known channelled large hs hc = record {
  known = known;
  channelled = channelled;
  chunk = inl refl;
  large = large;
  small = omega arith;
  size_IsU32 = hs;
  channel_IsU32 = hc;
}

abbrev symmetric_bytes : ℕ → ℕ → ℕ → ℕ → ℕ → List ℕ
symmetric_bytes total ch tok seq req =
    header_bytes (final_header 77 83 71 total ch) ++ (le_u32 tok ++ (le_u32 seq ++ le_u32 req))

symmetric_header_lem :
    (buf : List ℕ) (total ch tok seq req : ℕ)
    → symmetric_header buf total ch tok seq req
      ≡ overwrite buf 0 (symmetric_bytes total ch tok seq req)
unfolding put_u32 le_u32 overwrite
symmetric_header_lem buf total ch tok seq req = refl

length-symmetric_bytes :
    (total ch tok seq req : ℕ) → length (symmetric_bytes total ch tok seq req) ≡ 24
unfolding le_u32
length-symmetric_bytes total ch tok seq req = refl

pub parse_sequence_header_lem :
    (buf : List ℕ) (n p seq req : ℕ)
    → IsU32 seq
    → IsU32 req
    → p + 8 ≤ n
    → Holds buf p (le_u32 seq)
    → Holds buf (p + 4) (le_u32 req)
    → parse_sequence_header buf n p ≡ ok (p + 4 + 4, numbers seq req)
unfolding parse_sequence_header
parse_sequence_header_lem buf n p seq req hs hr fits hold hold' =
    rw (get_u32-le_u32 buf p seq hs hold, get_u32-le_u32 buf (p + 4) req hr hold') (ground arith)

symmetric-Holds :
    (buf : List ℕ) (total ch tok seq req : ℕ)
    → Holds buf 0 (symmetric_bytes total ch tok seq req)
    → Holds buf 0 (header_bytes (final_header 77 83 71 total ch))
      × (Holds buf 12 (le_u32 tok) × (Holds buf 16 (le_u32 seq) × Holds buf 20 (le_u32 req)))
unfolding le_u32
symmetric-Holds buf total ch tok seq req h =
    let head : List ℕ = header_bytes (final_header 77 83 71 total ch) in
    let behind : Holds buf 12 (le_u32 tok ++ (le_u32 seq ++ le_u32 req)) =
      Holds-append_right buf 0 12 head (le_u32 tok ++ (le_u32 seq ++ le_u32 req)) refl h in
    let last : Holds buf 16 (le_u32 seq ++ le_u32 req) =
      Holds-append_right buf 12 16 (le_u32 tok) (le_u32 seq ++ le_u32 req) refl behind in
    (
      Holds-append_left buf 0 head (le_u32 tok ++ (le_u32 seq ++ le_u32 req)) h,
      (
        Holds-append_left buf 12 (le_u32 tok) (le_u32 seq ++ le_u32 req) behind,
        (
          Holds-append_left buf 16 (le_u32 seq) (le_u32 req) last,
          Holds-append_right buf 16 20 (le_u32 seq) (le_u32 req) refl last,
        ),
      ),
    )

-- A response that fits the buffer is framed; the receiver parses from it a final MSG chunk with
-- the total length and the channel's id, the token, the sequence header in front of the body, and
-- the body itself.
pub symmetric_frame :
    (buf : List ℕ) (size ch tok seq req body : ℕ)
    → IsU32 ch
    → IsU32 tok
    → IsU32 seq
    → IsU32 req
    → IsU32 (24 + body)
    → 24 + body ≤ size
    → size ≤ length buf
    → (buf' : List ℕ) × (finalize_symmetric buf size ch tok seq req body ≡ ok (buf', 24 + body))
      × (parse_message_header buf' (24 + body) ≡ ok (final_header 77 83 71 (24 + body) ch))
      × (get_u32 buf' 12 ≡ tok)
      × (parse_sequence_header buf' (24 + body) 16 ≡ ok (24, numbers seq req))
      × (slice buf' 24 body ≡ slice buf 24 body)
unfolding finalize_symmetric
symmetric_frame buf size ch tok seq req body hc ht hs hr hl fits mem =
    let total : ℕ = 24 + body in
    let bytes : List ℕ = symmetric_bytes total ch tok seq req in
    let len : length bytes ≡ 24 = length-symmetric_bytes total ch tok seq req in
    let framed : List ℕ = overwrite buf 0 bytes in
    let (h0, (h12, (h16, h20))) =
      symmetric-Holds framed total ch tok seq req (Holds-overwrite buf 0 bytes (omega arith)) in
    (
      framed,
      rw (le→ltb size total fits, symmetric_header_lem buf total ch tok seq req) refl,
      parse_message_header_lem framed total (final_header 77 83 71 total ch)
          (final_header-IsChannelHeader 77 83 71 total ch refl refl (omega arith) hl hc) h0,
      get_u32-le_u32 framed 12 tok ht h12,
      parse_sequence_header_lem framed total 16 seq req hs hr (omega arith) h16 h20,
      slice-overwrite_after buf 0 24 body bytes (omega arith),
    )
