-- ===== src/Authorization/Base64url.antt =====
-- src/cu/core_2022_server/authorization/base64url.c: the decoder. The output is the list of the bytes
-- written so far, and `out_pos` its length; `rejected` and `none` are the result -1.
pub mod Format
pub mod RoundTrip
pub mod Anything
mod Tests
use muc_opcua.Common.{
  ℕ, ◌+◌, ◌-◌, ◌*◌, ◌/◌, ◌%◌, List, [], ◌∷◌, ◌++◌, Option, none, some, Bool, true, false, ◌&&◌, ltb,
  leb, ◌==◌, if◌then◌else◌, length, bit_or,
}

abbrev pub padding : ℕ
padding = 64

unfoldable pub b64url_value : ℕ → Option ℕ
b64url_value c =
    if leb b'A' c && leb c b'Z'
    then some (c - b'A')
    else if leb b'a' c && leb c b'z'
    then some (c - b'a' + 26)
    else if leb b'0' c && leb c b'9'
    then some (c - b'0' + 52)
    else if c == b'-'
    then some 62
    else if c == b'_'
    then some 63
    else if c == b'='
    then some padding
    else none

-- The three bytes that four values stand for, cast to `unsigned char`.
abbrev pub first_byte : ℕ → ℕ → ℕ
first_byte a b = bit_or (a * 4) (b / 16) % 256

abbrev pub second_byte : ℕ → ℕ → ℕ
second_byte b c = bit_or (b * 16) (c / 4) % 256

abbrev pub third_byte : ℕ → ℕ → ℕ
third_byte c d = bit_or (c * 64) d % 256

-- What a step or the whole comes to. On a failure too, there is what has been written by then.
pub data Pushing : Type 0 where
  pushed : List ℕ → List ℕ → Pushing
  overfull : List ℕ → Pushing

pub data Decoding : Type 0 where
  decoded : List ℕ → Decoding
  rejected : List ℕ → Decoding

-- A value joins the quad, whose four values are written once they are complete.
unfoldable pub push_value : ℕ → List ℕ → List ℕ → ℕ → Pushing
push_value output_max output (a ∷ b ∷ c ∷ []) d =
    if ltb output_max (length output + 3)
    then overfull output
    else pushed (output ++ (first_byte a b ∷ second_byte b c ∷ third_byte c d ∷ [])) []
push_value output_max output quad v = pushed output (quad ++ (v ∷ []))

-- The flush of a partial quad.
unfoldable pub flush : ℕ → List ℕ → List ℕ → Decoding
flush output_max output (a ∷ []) = rejected output
flush output_max output (a ∷ b ∷ []) =
    if ltb output_max (length output + 1)
    then rejected output
    else decoded (output ++ (first_byte a b ∷ []))
flush output_max output (a ∷ b ∷ c ∷ []) =
    if ltb output_max (length output + 2)
    then rejected output
    else decoded (output ++ (first_byte a b ∷ second_byte b c ∷ []))
flush output_max output quad = decoded output

-- The loop over the characters.
unfoldable pub decode_loop : ℕ → List ℕ → List ℕ → List ℕ → Decoding
decode_loop output_max output quad [] = flush output_max output quad
decode_loop output_max output quad (c ∷ input) = elim (b64url_value c) [
  | none ↦ rejected output
  | some v ↦ elim (v == padding) [
    | true ↦ flush output_max output quad
    | false ↦ elim (push_value output_max output quad v) [
      | overfull output' ↦ rejected output'
      | pushed output' quad' ↦ decode_loop output_max output' quad' input
    ]
  ]
]

-- The function's run, what it has written behind it, and its result.
unfoldable pub decode_run : List ℕ → ℕ → Decoding
decode_run input output_max =
    if length input == 0 then decoded [] else decode_loop output_max [] [] input

abbrev pub written : Decoding → List ℕ
written (decoded bs) = bs
written (rejected bs) = bs

abbrev pub result : Decoding → Option (List ℕ)
result (decoded bs) = some bs
result (rejected bs) = none

unfoldable pub base64url_decode : List ℕ → ℕ → Option (List ℕ)
base64url_decode input output_max = result (decode_run input output_max)
