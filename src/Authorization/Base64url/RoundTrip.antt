-- ===== src/Authorization/Base64url/RoundTrip.antt =====
-- What the decoder gives for an encoding, and for anything else.
use muc_opcua.Common.{
  ℕ, suc, ◌+◌, ◌<◌, ◌≤◌, ◌≡◌, refl, sym, ap, ap₂, ◌∙◌, subst, List, [], ◌∷◌, ◌++◌, some, le→ltb,
  ne→==, ◌==◌, if◌then◌else◌, length, length-append, append_assoc, append_nil, All, arith,
}
use muc_opcua.Authorization.Base64url.{
  b64url_value, first_byte, second_byte, third_byte, push_value, flush, decode_loop,
  base64url_decode, decode_run, decoded, result, pushed,
}
use muc_opcua.Authorization.Base64url.Format.{
  letter, value_0, value_1, value_2, value_3, base64url_encode, b64url_value-letter, first_byte_lem,
  second_byte_lem, third_byte_lem,
}

abbrev pub IsByte : ℕ → Type 0
IsByte b = b < 256

-- The end of the text, or a padding character.
abbrev pub Ends : List ℕ → Type 0
Ends [] = Unit
Ends (c ∷ cs) = c ≡ b'='

decode_loop-Ends :
    (output_max : ℕ) (output quad rest : List ℕ)
    → Ends rest
    → decode_loop output_max output quad rest ≡ flush output_max output quad
unfolding decode_loop b64url_value
decode_loop-Ends output_max output quad [] e = refl
decode_loop-Ends output_max output quad (c ∷ rest) e = rw e refl

decode_loop-letter :
    (output_max : ℕ) (output quad output' quad' input : List ℕ) (n : ℕ)
    → n < 64
    → push_value output_max output quad n ≡ pushed output' quad'
    → decode_loop output_max output quad (letter n ∷ input)
      ≡ decode_loop output_max output' quad' input
unfolding decode_loop
decode_loop-letter output_max output quad output' quad' input n h e =
    rw (b64url_value-letter n h, ne→== n 64 (omega arith), e, decode_loop) refl

-- Two, three and four letters from an empty quad on.
two_letters :
    (output_max : ℕ) (output rest : List ℕ) (a b : ℕ)
    → a < 64
    → b < 64
    → decode_loop output_max output [] (letter a ∷ letter b ∷ rest)
      ≡ decode_loop output_max output (a ∷ b ∷ []) rest
unfolding push_value
two_letters output_max output rest a b h k =
    decode_loop-letter output_max output [] output (a ∷ []) (letter b ∷ rest) a h refl
    ∙ decode_loop-letter output_max output (a ∷ []) output (a ∷ b ∷ []) rest b k refl

three_letters :
    (output_max : ℕ) (output rest : List ℕ) (a b c : ℕ)
    → a < 64
    → b < 64
    → c < 64
    → decode_loop output_max output [] (letter a ∷ letter b ∷ letter c ∷ rest)
      ≡ decode_loop output_max output (a ∷ b ∷ c ∷ []) rest
unfolding push_value
three_letters output_max output rest a b c h k l =
    two_letters output_max output (letter c ∷ rest) a b h k
    ∙ decode_loop-letter output_max output (a ∷ b ∷ []) output (a ∷ b ∷ c ∷ []) rest c l refl

four_letters :
    (output_max : ℕ) (output rest : List ℕ) (a b c d : ℕ)
    → a < 64
    → b < 64
    → c < 64
    → d < 64
    → length output + 3 ≤ output_max
    → decode_loop output_max output [] (letter a ∷ letter b ∷ letter c ∷ letter d ∷ rest)
      ≡ decode_loop output_max
          (output ++ (first_byte a b ∷ second_byte b c ∷ third_byte c d ∷ []))
          []
          rest
unfolding push_value
four_letters output_max output rest a b c d h k l m room =
    three_letters output_max output (letter d ∷ rest) a b c h k l
    ∙ decode_loop-letter output_max output (a ∷ b ∷ c ∷ []) _ [] rest d m
        (rw (le→ltb output_max (length output + 3) room) refl)

decode_loop-encode :
    (output_max : ℕ) (bs output rest : List ℕ)
    → All IsByte bs
    → Ends rest
    → length output + length bs ≤ output_max
    → decode_loop output_max output [] (base64url_encode bs ++ rest) ≡ decoded (output ++ bs)
unfolding base64url_encode flush
decode_loop-encode output_max [] output rest wf ends room =
    decode_loop-Ends output_max output [] rest ends ∙ ap decoded (sym (append_nil output))
decode_loop-encode output_max (x ∷ []) output rest (h, wf) ends room =
    two_letters output_max output rest (value_0 x) (value_1 x 0) (omega arith) (omega arith)
    ∙ decode_loop-Ends output_max output (value_0 x ∷ value_1 x 0 ∷ []) rest ends
    ∙ rw (le→ltb output_max (length output + 1) room)
        (ap (λ b. decoded (output ++ (b ∷ []))) (first_byte_lem x 0 h (omega arith)))
decode_loop-encode output_max (x ∷ y ∷ []) output rest (h, (k, wf)) ends room =
    three_letters output_max output rest (value_0 x) (value_1 x y) (value_2 y 0) (omega arith)
      (omega arith) (omega arith)
    ∙ decode_loop-Ends output_max output (value_0 x ∷ value_1 x y ∷ value_2 y 0 ∷ []) rest ends
    ∙ rw (le→ltb output_max (length output + 2) room) (
        ap₂ (λ b c. decoded (output ++ (b ∷ c ∷ []))) (first_byte_lem x y h k)
          (second_byte_lem x y 0 k (omega arith)))
decode_loop-encode output_max (x ∷ y ∷ z ∷ bs) output rest (h, (k, (l, wf))) ends room =
    four_letters output_max output (base64url_encode bs ++ rest) (value_0 x) (value_1 x y)
      (value_2 y z) (value_3 z) (omega arith) (omega arith) (omega arith) (omega arith)
      (omega arith)
    ∙ ap (λ o. decode_loop output_max (output ++ o) [] (base64url_encode bs ++ rest))
        (three x y z h k l)
    ∙ decode_loop-encode output_max bs (output ++ (x ∷ y ∷ z ∷ [])) rest wf ends
        (omega (arith, length-append output (x ∷ y ∷ z ∷ [])))
    ∙ ap decoded (append_assoc output (x ∷ y ∷ z ∷ []) bs)
  where
    three :
        (a b c : ℕ)
        → a < 256
        → b < 256
        → c < 256
        → ◌≡◌ {A = List ℕ}
            (first_byte (value_0 a) (value_1 a b)
              ∷ second_byte (value_1 a b) (value_2 b c)
              ∷ third_byte (value_2 b c) (value_3 c)
              ∷ [])
            (a ∷ b ∷ c ∷ [])
    three a b c p q r =
        ap₂ (λ u v. u ∷ v) (first_byte_lem a b p q)
          (ap₂ (λ u v. u ∷ v ∷ []) (second_byte_lem a b c q r) (third_byte_lem b c r))

-- What mu_base64url_decode gives for the encoding of bytes for which there is room, alone or with a
-- padding character and anything behind it, is these bytes.
pub decode-encode :
    (bs rest : List ℕ) (output_max : ℕ)
    → All IsByte bs
    → Ends rest
    → length bs ≤ output_max
    → base64url_decode (base64url_encode bs ++ rest) output_max ≡ some bs
unfolding base64url_decode decode_run decode_loop flush
decode-encode bs rest output_max wf ends room =
    ap result (by_length (base64url_encode bs ++ rest) refl)
  where
    all_of : decode_loop output_max [] [] (base64url_encode bs ++ rest) ≡ decoded bs
    all_of = decode_loop-encode output_max bs [] rest wf ends (omega arith)

    by_length :
        (input : List ℕ)
        → base64url_encode bs ++ rest ≡ input
        → (if length input == 0 then decoded [] else decode_loop output_max [] [] input)
          ≡ decoded bs
    by_length [] e = subst (λ t. decode_loop output_max [] [] t ≡ decoded bs) e all_of
    by_length (c ∷ input) e =
        rw (ne→== (suc (length input)) 0 (omega arith))
          (subst (λ t. decode_loop output_max [] [] t ≡ decoded bs) e all_of)
