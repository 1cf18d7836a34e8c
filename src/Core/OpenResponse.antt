-- ===== src/Core/OpenResponse.antt =====
-- An OpenSecureChannel response chunk, as the receiving side reads it.
use muc_opcua.Common.{
  ℕ, ◌+◌, ◌≤◌, ◌≡◌, refl, List, ◌++◌, length, Holds, Holds-append_left, Holds-append_right,
  Holds-overwrite, overwrite, slice, slice-overwrite_after, arith, le→ltb, slice-eq_of_Holds,
}
use muc_opcua.Status.{ok}
use muc_opcua.Encoding.Format.{IsU32}
use muc_opcua.Encoding.Le.{le_u32, get_u32, put_u32, get_u32-le_u32}
use muc_opcua.Core.Uasc.{finalize_asymmetric_none, asymmetric_none_header, policy_uri}
use muc_opcua.Core.Chunk.{header_bytes, parse_message_header, parse_sequence_header}
use muc_opcua.Core.Framing.{parse_message_header_lem}
use muc_opcua.Core.Response.{
  final_header, numbers, final_header-IsChannelHeader, parse_sequence_header_lem,
}

abbrev asymmetric_bytes : ℕ → ℕ → ℕ → ℕ → List ℕ
asymmetric_bytes total ch seq req =
    header_bytes (final_header 79 80 78 total ch)
    ++ (le_u32 47
        ++ (policy_uri ++ (le_u32 0xffffffff ++ (le_u32 0xffffffff ++ (le_u32 seq ++ le_u32 req)))))

asymmetric_header_lem :
    (buf : List ℕ) (total ch seq req : ℕ)
    → asymmetric_none_header buf total ch seq req
      ≡ overwrite buf 0 (asymmetric_bytes total ch seq req)
unfolding put_u32 le_u32 overwrite
asymmetric_header_lem buf total ch seq req = refl

length-asymmetric_bytes : (total ch seq req : ℕ) → length (asymmetric_bytes total ch seq req) ≡ 79
unfolding le_u32
length-asymmetric_bytes total ch seq req = refl

-- The channel header, the policy's length and URI, the two null strings and the sequence header.
record AsymmetricHolds (buf : List ℕ) (total ch seq req : ℕ) : Type 0 where
  header_Holds : Holds buf 0 (header_bytes (final_header 79 80 78 total ch))
  policy_length_Holds : Holds buf 12 (le_u32 47)
  policy_Holds : Holds buf 16 policy_uri
  sequence_Holds : Holds buf 71 (le_u32 seq)
  request_Holds : Holds buf 75 (le_u32 req)

asymmetric_holds :
    (buf : List ℕ) (total ch seq req : ℕ)
    → Holds buf 0 (asymmetric_bytes total ch seq req)
    → AsymmetricHolds buf total ch seq req
unfolding le_u32
asymmetric_holds buf total ch seq req h =
    let head : List ℕ = header_bytes (final_header 79 80 78 total ch) in
    let numbers_ : List ℕ = le_u32 seq ++ le_u32 req in
    let certificates : List ℕ = le_u32 0xffffffff ++ (le_u32 0xffffffff ++ numbers_) in
    let secured : List ℕ = le_u32 47 ++ (policy_uri ++ certificates) in
    let at_12 : Holds buf 12 secured = Holds-append_right buf 0 12 head secured refl h in
    let at_16 : Holds buf 16 (policy_uri ++ certificates) =
      Holds-append_right buf 12 16 (le_u32 47) (policy_uri ++ certificates) refl at_12 in
    let at_63 : Holds buf 63 certificates =
      Holds-append_right buf 16 63 policy_uri certificates refl at_16 in
    let at_71 : Holds buf 71 numbers_ =
      Holds-append_right buf 63 71 (le_u32 0xffffffff ++ le_u32 0xffffffff) numbers_ refl at_63 in
    record {
      header_Holds = Holds-append_left buf 0 head secured h;
      policy_length_Holds = Holds-append_left buf 12 (le_u32 47) (policy_uri ++ certificates) at_12;
      policy_Holds = Holds-append_left buf 16 policy_uri certificates at_16;
      sequence_Holds = Holds-append_left buf 71 (le_u32 seq) (le_u32 req) at_71;
      request_Holds = Holds-append_right buf 71 75 (le_u32 seq) (le_u32 req) refl at_71;
    }

-- An OpenSecureChannel response under SecurityPolicy None that fits the buffer is framed; the
-- receiver parses from it a final OPN chunk with the total length and the channel's id, the
-- policy's URI behind its length, the sequence header in front of the body, and the body itself.
pub asymmetric_frame :
    (buf : List ℕ) (size ch seq req body : ℕ)
    → IsU32 ch
    → IsU32 seq
    → IsU32 req
    → IsU32 (79 + body)
    → 79 + body ≤ size
    → size ≤ length buf
    → (buf' : List ℕ) × (finalize_asymmetric_none buf size ch seq req body ≡ ok (buf', 79 + body))
      × (parse_message_header buf' (79 + body) ≡ ok (final_header 79 80 78 (79 + body) ch))
      × (get_u32 buf' 12 ≡ length policy_uri)
      × (slice buf' 16 (length policy_uri) ≡ policy_uri)
      × (parse_sequence_header buf' (79 + body) 71 ≡ ok (79, numbers seq req))
      × (slice buf' 79 body ≡ slice buf 79 body)
unfolding finalize_asymmetric_none
asymmetric_frame buf size ch seq req body hc hs hr hl fits mem =
    let total : ℕ = 79 + body in
    let bytes : List ℕ = asymmetric_bytes total ch seq req in
    let len : length bytes ≡ 79 = length-asymmetric_bytes total ch seq req in
    let framed : List ℕ = overwrite buf 0 bytes in
    let h : AsymmetricHolds framed total ch seq req =
      asymmetric_holds framed total ch seq req (Holds-overwrite buf 0 bytes (omega arith)) in
    (
      framed,
      rw (le→ltb size total fits, asymmetric_header_lem buf total ch seq req) refl,
      parse_message_header_lem framed total (final_header 79 80 78 total ch)
          (final_header-IsChannelHeader 79 80 78 total ch refl refl (omega arith) hl hc)
          h.header_Holds,
      get_u32-le_u32 framed 12 47 (omega arith) h.policy_length_Holds,
      slice-eq_of_Holds framed 16 policy_uri h.policy_Holds,
      parse_sequence_header_lem framed total 71 seq req hs hr (omega arith) h.sequence_Holds
          h.request_Holds,
      slice-overwrite_after buf 0 79 body bytes (omega arith),
    )
