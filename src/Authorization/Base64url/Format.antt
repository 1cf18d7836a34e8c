-- ===== src/Authorization/Base64url/Format.antt =====
-- The encoding of RFC 4648, section 5, without padding, and what the decoder's parts do on it.
use muc_opcua.Common.{
  ℕ, ◌+◌, ◌-◌, ◌*◌, ◌/◌, ◌%◌, ◌^◌, ◌<◌, ◌≡◌, ap, ◌∙◌, List, [], ◌∷◌, some, ltb, ◌==◌, if◌then◌else◌,
  arith, bit_or,
}
use muc_opcua.Common.Bits.{bit_or_disjoint, bit_or_comm}
use muc_opcua.Authorization.Base64url.{b64url_value, first_byte, second_byte, third_byte}

-- The alphabet.
abbrev pub letter : ℕ → ℕ
letter n =
    if ltb n 26
    then b'A' + n
    else if ltb n 52
    then b'a' + (n - 26)
    else if ltb n 62
    then b'0' + (n - 52)
    else if n == 62
    then b'-'
    else b'_'

-- Three bytes are four values of six bits.
abbrev pub value_0 : ℕ → ℕ
value_0 x = x / 4

abbrev pub value_1 : ℕ → ℕ → ℕ
value_1 x y = (x % 4) * 16 + y / 16

abbrev pub value_2 : ℕ → ℕ → ℕ
value_2 y z = (y % 16) * 4 + z / 64

abbrev pub value_3 : ℕ → ℕ
value_3 z = z % 64

unfoldable pub base64url_encode : List ℕ → List ℕ
base64url_encode [] = []
base64url_encode (x ∷ []) = letter (value_0 x) ∷ letter (value_1 x 0) ∷ []
base64url_encode (x ∷ y ∷ []) =
    letter (value_0 x) ∷ letter (value_1 x y) ∷ letter (value_2 y 0) ∷ []
base64url_encode (x ∷ y ∷ z ∷ bs) =
    letter (value_0 x)
    ∷ letter (value_1 x y)
    ∷ letter (value_2 y z)
    ∷ letter (value_3 z)
    ∷ base64url_encode bs

pub b64url_value-letter : (n : ℕ) → n < 64 → b64url_value (letter n) ≡ some n
unfolding b64url_value
b64url_value-letter n h = ground arith

joined : (k q r : ℕ) → r < 2 ^ k → bit_or (q * 2 ^ k) r ≡ r + q * 2 ^ k
joined k q r h = bit_or_comm (q * 2 ^ k) r ∙ bit_or_disjoint k r q h

pub first_byte_lem : (x y : ℕ) → x < 256 → y < 256 → first_byte (value_0 x) (value_1 x y) ≡ x
first_byte_lem x y h k =
    ap (λ n. n % 256) (joined 2 (value_0 x) (value_1 x y / 16) (omega arith)) ∙ omega arith

pub second_byte_lem : (x y z : ℕ) → y < 256 → z < 256 → second_byte (value_1 x y) (value_2 y z) ≡ y
second_byte_lem x y z h k =
    ap (λ n. n % 256) (joined 4 (value_1 x y) (value_2 y z / 4) (omega arith)) ∙ omega arith

pub third_byte_lem : (y z : ℕ) → z < 256 → third_byte (value_2 y z) (value_3 z) ≡ z
third_byte_lem y z h =
    ap (λ n. n % 256) (joined 6 (value_2 y z) (value_3 z) (omega arith)) ∙ omega arith
