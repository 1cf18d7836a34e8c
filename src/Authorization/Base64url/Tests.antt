-- ===== src/Authorization/Base64url/Tests.antt =====
-- The decoder's theorems at concrete values.
use muc_opcua.Common.{ℕ, ◌≡◌, refl, List, [], ◌∷◌, ◌++◌, none, some, arith}
use muc_opcua.Authorization.Base64url.{
  base64url_decode, decode_run, b64url_value, decode_loop, push_value, flush,
}
use muc_opcua.Authorization.Base64url.Format.{base64url_encode}
use muc_opcua.Authorization.Base64url.RoundTrip.{decode-encode}
use muc_opcua.Authorization.Base64url.Anything.{
  Within, IsLetter, base64url_decode-Within, base64url_decode-refused,
}

abbrev text_bytes : List ℕ
text_bytes = b'M' ∷ 255 ∷ b'n' ∷ 0 ∷ []

decode-encode_example :
    base64url_decode (base64url_encode text_bytes ++ (b'=' ∷ b'=' ∷ [])) 8 ≡ some text_bytes
decode-encode_example =
    decode-encode text_bytes (b'=' ∷ b'=' ∷ []) 8 (omega arith) refl (omega arith)

abbrev word : List ℕ
word = b'T' ∷ b'W' ∷ b'F' ∷ b'u' ∷ b'-' ∷ b'_' ∷ []

-- Six characters, the last of which are refused for want of space.
base64url_decode-Within_example : Within 3 18 (decode_run word 3)
base64url_decode-Within_example = base64url_decode-Within word 3

plus_refused : ¬ IsLetter b'+'
plus_refused (n, small, e) = ground arith

base64url_decode-refused_example : base64url_decode (b'T' ∷ b'+' ∷ b'F' ∷ []) 4 ≡ none
base64url_decode-refused_example =
    base64url_decode-refused (b'T' ∷ []) (b'F' ∷ []) b'+' 4 ((19, omega arith, refl), tt)
      plus_refused (λ e. omega arith)

-- RFC 4648 gives Man as TWFu.
man : base64url_decode (b'T' ∷ b'W' ∷ b'F' ∷ b'u' ∷ []) 3 ≡ some (b'M' ∷ b'a' ∷ b'n' ∷ [])
unfolding base64url_decode decode_run decode_loop b64url_value push_value flush
man = refl
