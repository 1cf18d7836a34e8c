-- ===== src/Server/Part.antt =====
-- One chunk of a MSG as a client writes it, and what the parsers make of it.
use muc_opcua.Common.{
  ℕ, suc, ◌+◌, ◌-◌, ◌<◌, ◌≡◌, ◌⊎◌, refl, ap, ◌∙◌, inl, inr, List, [], ◌∷◌, ◌++◌, some, false, arith,
  length, slice, slice-eq_of_Holds, Holds, Holds-append_left, Holds-append_right,
}
use muc_opcua.Status.{ok}
use muc_opcua.Encoding.Le.{le_u32}
use muc_opcua.Encoding.State.{done}
use muc_opcua.Encoding.Types.{null_str}
use muc_opcua.Encoding.Reader.{reader_init, read_uint32}
use muc_opcua.Encoding.Format.{IsU32}
use muc_opcua.Encoding.Calculus.{Reads, Reads-bind, Reads-map}
use muc_opcua.Encoding.Words.{Reads-uint32}
use muc_opcua.Core.Chunk.{MessageHeader, header_bytes, parse_message_header}
use muc_opcua.Core.Framing.{parse_message_header_lem}
use muc_opcua.Core.Uasc.{symmetric_header_size}
use muc_opcua.Server.DataChunk.{ChunkHeader, read_chunk_header, read_msg_security}

-- One chunk of a MSG as a client writes it.
pub record Part : Type 0 where
  pub channel_id : ℕ
  pub token_id : ℕ
  pub sequence_number : ℕ
  pub request_id : ℕ
  pub body : List ℕ

abbrev pub part_header : ℕ → Part → MessageHeader
part_header kind part = record {
  type_0 = 77;
  type_1 = 83;
  type_2 = 71;
  chunk_type = kind;
  message_size = 24 + length part.body;
  secure_channel_id = part.channel_id;
}

abbrev numbers_bytes : Part → List ℕ
numbers_bytes part = le_u32 part.sequence_number ++ le_u32 part.request_id

-- The bytes of the chunk; `kind` is 67, 'C', or 70, 'F'.
unfoldable pub part_bytes : ℕ → Part → List ℕ
part_bytes kind part =
    header_bytes (part_header kind part)
    ++ (le_u32 part.token_id ++ (numbers_bytes part ++ part.body))

-- A chunk with a body, whose numbers and size are words.
pub record IsPart (part : Part) : Type 0 where
  pub channel_IsU32 : IsU32 part.channel_id
  pub token_IsU32 : IsU32 part.token_id
  pub number_IsU32 : IsU32 part.sequence_number
  pub request_IsU32 : IsU32 part.request_id
  pub nonempty : 0 < length part.body
  pub size_IsU32 : IsU32 (24 + length part.body)

Holds-cons : (x p : ℕ) (buf bs : List ℕ) → Holds buf p bs → Holds (x ∷ buf) (suc p) bs
Holds-cons x p buf [] h = tt
Holds-cons x p buf (b ∷ bs) h = (h.0, Holds-cons x (suc p) buf bs h.1)

pub Holds-self : (bs : List ℕ) → Holds bs 0 bs
Holds-self [] = tt
Holds-self (b ∷ bs) = (refl, Holds-cons b 0 bs bs (Holds-self bs))

pub length-part_bytes :
    (kind : ℕ) (part : Part) → length (part_bytes kind part) ≡ 24 + length part.body
unfolding part_bytes le_u32
length-part_bytes kind part = omega arith

-- Where the fields of a chunk lie.
pub part-Holds :
    (kind : ℕ) (part : Part)
    → Holds (part_bytes kind part) 0 (header_bytes (part_header kind part))
      × Holds
          (part_bytes kind part)
          8
          (le_u32 part.channel_id ++ (le_u32 part.token_id ++ numbers_bytes part))
      × Holds (part_bytes kind part) 24 part.body
unfolding part_bytes le_u32
part-Holds kind part =
    let self : Holds (part_bytes kind part) 0 (part_bytes kind part) =
      Holds-self (part_bytes kind part) in
    let behind : Holds (part_bytes kind part) 8
        ((le_u32 part.channel_id ++ (le_u32 part.token_id ++ numbers_bytes part)) ++ part.body) =
      Holds-append_right (part_bytes kind part) 0 8
        (77 ∷ 83 ∷ 71 ∷ kind ∷ le_u32 (24 + length part.body))
        ((le_u32 part.channel_id ++ (le_u32 part.token_id ++ numbers_bytes part)) ++ part.body) refl
        self in
    (
      Holds-append_left (part_bytes kind part) 0 (header_bytes (part_header kind part))
          (le_u32 part.token_id ++ (numbers_bytes part ++ part.body)) self,
      Holds-append_left (part_bytes kind part) 8
          (le_u32 part.channel_id ++ (le_u32 part.token_id ++ numbers_bytes part)) part.body behind,
      Holds-append_right (part_bytes kind part) 8 24
          (le_u32 part.channel_id ++ (le_u32 part.token_id ++ numbers_bytes part)) part.body refl
          behind,
    )

pub parse_part :
    (kind : ℕ) (part : Part)
    → (kind ≡ 70) ⊎ (kind ≡ 67)
    → IsPart part
    → parse_message_header (part_bytes kind part) (length (part_bytes kind part))
      ≡ ok (part_header kind part)
parse_part kind part chunk h =
    parse_message_header_lem (part_bytes kind part) (length (part_bytes kind part))
      (part_header kind part)
      (record {
        known = refl;
        channelled = refl;
        chunk = elim chunk [ inl e ↦ inl e | inr e ↦ inr (e, refl) ];
        large = omega arith;
        small = omega (arith, length-part_bytes kind part);
        size_IsU32 = h.size_IsU32;
        channel_IsU32 = h.channel_IsU32;
      })
      (part-Holds kind part).0

pub part_body :
    (kind : ℕ) (part : Part)
    → slice
        (part_bytes kind part)
        symmetric_header_size
        (length (part_bytes kind part) - symmetric_header_size)
      ≡ part.body
part_body kind part =
    ap (slice (part_bytes kind part) symmetric_header_size)
      (omega (arith, length-part_bytes kind part))
    ∙ slice-eq_of_Holds (part_bytes kind part) 24 part.body (part-Holds kind part).2

abbrev pub chunk_header : Part → ChunkHeader
chunk_header part = record {
  channel_id = part.channel_id;
  token_id = part.token_id;
  security_policy = null_str;
  sender_certificate = null_str;
  sequence_number = part.sequence_number;
  request_id = part.request_id;
}

Reads-chunk_header :
    (part : Part)
    → IsPart part
    → Reads
        (read_chunk_header false)
        (le_u32 part.channel_id ++ (le_u32 part.token_id ++ numbers_bytes part))
        (chunk_header part)
unfolding read_chunk_header read_msg_security
Reads-chunk_header part h =
    Reads-bind read_uint32 _ (le_u32 part.channel_id) _ part.channel_id _
      (Reads-uint32 part.channel_id h.channel_IsU32)
      (Reads-bind read_msg_security _ (le_u32 part.token_id) (numbers_bytes part)
        (part.token_id, null_str, null_str) _
        (Reads-map read_uint32 _ (le_u32 part.token_id) part.token_id
          (Reads-uint32 part.token_id h.token_IsU32))
        (Reads-bind read_uint32 _ (le_u32 part.sequence_number) (le_u32 part.request_id)
          part.sequence_number _ (Reads-uint32 part.sequence_number h.number_IsU32)
          (Reads-map read_uint32 _ (le_u32 part.request_id) part.request_id
            (Reads-uint32 part.request_id h.request_IsU32))))

pub read_part :
    (kind : ℕ) (part : Part)
    → IsPart part
    → read_chunk_header false
        (record (reader_init (some (part_bytes kind part)) (length (part_bytes kind part))) {
          position = 8;
        })
      ≡ done
          (chunk_header part)
          (record (reader_init (some (part_bytes kind part)) (length (part_bytes kind part))) {
            position = 24;
          })
unfolding le_u32
read_part kind part h =
    Reads-chunk_header part h (part_bytes kind part)
      (record (reader_init (some (part_bytes kind part)) (length (part_bytes kind part))) {
        position = 8;
      })
      refl refl (omega (arith, length-part_bytes kind part)) (part-Holds kind part).1

-- The bodies of chunks, one behind the other.
abbrev pub joined : List Part → List ℕ
joined [] = []
joined (part ∷ parts) = part.body ++ joined parts

abbrev pub AreParts : List Part → Type 0
AreParts [] = Unit
AreParts (part ∷ parts) = IsPart part × AreParts parts
