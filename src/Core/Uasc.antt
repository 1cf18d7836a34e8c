-- ===== src/Core/Uasc.antt =====
-- src/core/uasc.c: the header that the server puts in front of a response body. The writes are
-- those of the C code in its order; the body lies behind the header already.
use muc_opcua.Common.{ℕ, ◌+◌, List, [], ◌∷◌, ltb, if◌then◌else◌, overwrite, codes}
use muc_opcua.Status.{bad_response_too_large, Result, error, ok}
use muc_opcua.Encoding.Le.{put_u32}

-- MU_UASC_SYMMETRIC_HEADER_SIZE and MU_UASC_ASYMMETRIC_NONE_HEADER_SIZE.
abbrev pub symmetric_header_size : ℕ
symmetric_header_size = 24

abbrev pub asymmetric_none_header_size : ℕ
asymmetric_none_header_size = 79

abbrev pub policy_uri : List ℕ
policy_uri = codes "http://opcfoundation.org/UA/SecurityPolicy#None"

-- A chunk: the buffer and the total length.
abbrev pub Framed : Type 0
Framed = List ℕ × ℕ

abbrev pub symmetric_header : List ℕ → ℕ → ℕ → ℕ → ℕ → ℕ → List ℕ
symmetric_header buffer total secure_channel_id token_id sequence_number request_id =
    let typed = overwrite buffer 0 (77 ∷ 83 ∷ 71 ∷ 70 ∷ []) in
    let sized = put_u32 typed 4 total in
    let channelled = put_u32 sized 8 secure_channel_id in
    let secured = put_u32 channelled 12 token_id in
    let numbered = put_u32 secured 16 sequence_number in put_u32 numbered 20 request_id

unfoldable pub finalize_symmetric : List ℕ → ℕ → ℕ → ℕ → ℕ → ℕ → ℕ → Result Framed
finalize_symmetric buffer buffer_size secure_channel_id token_id sequence_number request_id
      body_length =
    let total = symmetric_header_size + body_length in
    if ltb buffer_size total
    then error bad_response_too_large
    else ok
        (symmetric_header buffer total secure_channel_id token_id sequence_number request_id, total)

abbrev pub asymmetric_none_header : List ℕ → ℕ → ℕ → ℕ → ℕ → List ℕ
asymmetric_none_header buffer total secure_channel_id sequence_number request_id =
    let typed = overwrite buffer 0 (79 ∷ 80 ∷ 78 ∷ 70 ∷ []) in
    let sized = put_u32 typed 4 total in
    let channelled = put_u32 sized 8 secure_channel_id in
    let measured = put_u32 channelled 12 47 in
    let named = overwrite measured 16 policy_uri in
    let no_certificate = put_u32 named 63 0xffffffff in
    let no_thumbprint = put_u32 no_certificate 67 0xffffffff in
    let numbered = put_u32 no_thumbprint 71 sequence_number in put_u32 numbered 75 request_id

unfoldable pub finalize_asymmetric_none : List ℕ → ℕ → ℕ → ℕ → ℕ → ℕ → Result Framed
finalize_asymmetric_none buffer buffer_size secure_channel_id sequence_number request_id
      body_length =
    let total = asymmetric_none_header_size + body_length in
    if ltb buffer_size total
    then error bad_response_too_large
    else ok
        (asymmetric_none_header buffer total secure_channel_id sequence_number request_id, total)
