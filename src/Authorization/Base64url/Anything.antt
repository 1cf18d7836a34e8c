-- ===== src/Authorization/Base64url/Anything.antt =====
-- What the decoder does with any input: it stays within the output, and refuses what is no letter.
use muc_opcua.Common.{
  ℕ, ◌+◌, ◌*◌, ◌≤◌, ◌≡◌, ◌≢◌, refl, List, [], ◌∷◌, ◌++◌, Option, none, some, Bool, true, false, ltb,
  ne→==, ==→eq, leb, ◌&&◌, ◌-◌, ◌<◌, ◌==◌, if◌then◌else◌, if_cases, length, length-append, All,
  arith,
}
use muc_opcua.Authorization.Base64url.Format.{letter, b64url_value-letter}
use muc_opcua.Authorization.Base64url.{
  b64url_value, padding, first_byte, second_byte, third_byte, push_value, flush, decode_loop,
  base64url_decode, decode_run, Decoding, decoded, rejected, written, result, Pushing, pushed,
  overfull,
}

-- At most so many bytes have been written, whether or not there is a result.
abbrev pub Within : ℕ → ℕ → Decoding → Type 0
Within output_max budget d = (length (written d) ≤ output_max) × (4 * length (written d) ≤ budget)

ltb-ge : (a b : ℕ) → ltb a b ≡ false → b ≤ a
ltb-ge a b e = ground arith

writes :
    (output_max budget : ℕ) (output more : List ℕ)
    → length output ≤ output_max
    → 4 * (length output + length more) ≤ budget
    → Within output_max budget (
        if ltb output_max (length output + length more)
        then rejected output
        else decoded (output ++ more))
writes output_max budget output more room fits =
    if_cases (Within output_max budget) (ltb output_max (length output + length more))
      (rejected output) (decoded (output ++ more)) (λ e. (room, omega arith))
      (λ e.
        let space = ltb-ge output_max (length output + length more) e in
        (
          omega (arith, length-append output more, space),
          omega (arith, length-append output more, fits),
        ))

flush-Within :
    (output_max : ℕ) (output quad : List ℕ)
    → length output ≤ output_max
    → Within output_max (4 * length output + 3 * length quad) (flush output_max output quad)
unfolding flush
flush-Within output_max output [] room = (room, omega arith)
flush-Within output_max output (a ∷ []) room = (room, omega arith)
flush-Within output_max output (a ∷ b ∷ []) room =
    writes output_max (4 * length output + 6) output (first_byte a b ∷ []) room (omega arith)
flush-Within output_max output (a ∷ b ∷ c ∷ []) room =
    writes output_max (4 * length output + 9) output (first_byte a b ∷ second_byte b c ∷ []) room
      (omega arith)
flush-Within output_max output (a ∷ b ∷ c ∷ d ∷ quad) room = (room, omega arith)

-- A push keeps within the output, and pays for each byte with the values of the quad.
abbrev Pushed : ℕ → ℕ → Pushing → Type 0
Pushed output_max budget (overfull output) =
    (length output ≤ output_max) × (4 * length output ≤ budget)
Pushed output_max budget (pushed output quad) =
    (length output ≤ output_max) × (4 * length output + 3 * length quad ≤ budget)

push_value-Pushed :
    (output_max : ℕ) (output quad : List ℕ) (v : ℕ)
    → length output ≤ output_max
    → Pushed output_max
        (4 * length output + 3 * length quad + 3)
        (push_value output_max output quad v)
unfolding push_value
push_value-Pushed output_max output [] v room = (room, omega arith)
push_value-Pushed output_max output (a ∷ []) v room = (room, omega arith)
push_value-Pushed output_max output (a ∷ b ∷ []) v room = (room, omega arith)
push_value-Pushed output_max output (a ∷ b ∷ c ∷ []) v room =
    if_cases (Pushed output_max _) (ltb output_max (length output + 3)) (overfull output)
      (pushed (output ++ (first_byte a b ∷ second_byte b c ∷ third_byte c v ∷ [])) [])
      (λ e. (room, omega arith))
      (λ e.
        let fits = ltb-ge output_max (length output + 3) e in
        let len = length-append output (first_byte a b ∷ second_byte b c ∷ third_byte c v ∷ []) in
        (omega (arith, len, fits), omega (arith, len)))
push_value-Pushed output_max output (a ∷ b ∷ c ∷ d ∷ quad) v room =
    (room, omega (arith, length-append quad (v ∷ [])))

Within-more :
    (output_max small large : ℕ) (r : Decoding)
    → small ≤ large
    → Within output_max small r
    → Within output_max large r
Within-more output_max small large r h (room, fits) = (room, omega arith)

decode_loop-Within :
    (output_max : ℕ) (output quad input : List ℕ)
    → length output ≤ output_max
    → Within output_max
        (4 * length output + 3 * length quad + 3 * length input)
        (decode_loop output_max output quad input)
unfolding decode_loop
decode_loop-Within output_max output quad [] room =
    Within-more output_max (4 * length output + 3 * length quad) _ (flush output_max output quad)
      (omega arith) (flush-Within output_max output quad room)
decode_loop-Within output_max output quad (c ∷ input) room =
    by_value (b64url_value c) (λ out q small. decode_loop-Within output_max out q input small)
  where
    budget : ℕ
    budget = 4 * length output + 3 * length quad + 3 * length (c ∷ input)

    by_push :
        (p : Pushing)
        → Pushed output_max (4 * length output + 3 * length quad + 3) p
        → ((out q : List ℕ)
            → length out ≤ output_max
            → Within output_max
                (4 * length out + 3 * length q + 3 * length input)
                (decode_loop output_max out q input))
        → Within output_max budget (elim p [
          | overfull output' ↦ rejected output'
          | pushed output' quad' ↦ decode_loop output_max output' quad' input
        ])
    by_push (overfull out) (small, fits) ih = (small, omega arith)
    by_push (pushed out q) (small, fits) ih =
        Within-more output_max (4 * length out + 3 * length q + 3 * length input) budget
          (decode_loop output_max out q input) (omega (arith, fits)) (ih out q small)

    by_padding :
        (v : ℕ) (b : Bool)
        → ((out q : List ℕ)
            → length out ≤ output_max
            → Within output_max
                (4 * length out + 3 * length q + 3 * length input)
                (decode_loop output_max out q input))
        → Within output_max budget (elim b [
          | true ↦ flush output_max output quad
          | false ↦ elim (push_value output_max output quad v) [
            | overfull output' ↦ rejected output'
            | pushed output' quad' ↦ decode_loop output_max output' quad' input
          ]
        ])
    by_padding v true ih =
        Within-more output_max (4 * length output + 3 * length quad) budget
          (flush output_max output quad) (omega arith) (flush-Within output_max output quad room)
    by_padding v false ih =
        by_push (push_value output_max output quad v)
          (push_value-Pushed output_max output quad v room) ih

    by_value :
        (o : Option ℕ)
        → ((out q : List ℕ)
            → length out ≤ output_max
            → Within output_max
                (4 * length out + 3 * length q + 3 * length input)
                (decode_loop output_max out q input))
        → Within output_max budget (elim o [
          | none ↦ rejected output
          | some v ↦ elim (v == padding) [
            | true ↦ flush output_max output quad
            | false ↦ elim (push_value output_max output quad v) [
              | overfull output' ↦ rejected output'
              | pushed output' quad' ↦ decode_loop output_max output' quad' input
            ]
          ]
        ])
    by_value none ih = (room, omega arith)
    by_value (some v) ih = by_padding v (v == padding) ih

-- For any input, the bytes that are written into the output fit into it and are at most three for
-- four characters, also where the function fails.
pub base64url_decode-Within :
    (input : List ℕ) (output_max : ℕ)
    → Within output_max (3 * length input) (decode_run input output_max)
unfolding decode_run
base64url_decode-Within input output_max =
    if_cases (Within output_max (3 * length input)) (length input == 0) (decoded []) _
      (λ e. (omega arith, omega arith))
      (λ e.
        Within-more output_max _ (3 * length input) (decode_loop output_max [] [] input)
          (omega arith) (decode_loop-Within output_max [] [] input (omega arith)))

-- The characters of the alphabet of RFC 4648, section 5.
abbrev pub IsLetter : ℕ → Type 0
IsLetter c = (n : ℕ) × (n < 64) × (c ≡ letter n)

upper_IsLetter : (c : ℕ) → leb b'A' c ≡ true → leb c b'Z' ≡ true → IsLetter c
upper_IsLetter c h k = (c - b'A', ground arith, ground arith)

lower_IsLetter : (c : ℕ) → leb b'a' c ≡ true → leb c b'z' ≡ true → IsLetter c
lower_IsLetter c h k = (c - b'a' + 26, ground arith, ground arith)

digit_IsLetter : (c : ℕ) → leb b'0' c ≡ true → leb c b'9' ≡ true → IsLetter c
digit_IsLetter c h k = (c - b'0' + 52, ground arith, ground arith)

and-true : (a b : Bool) → (a && b) ≡ true → (a ≡ true) × (b ≡ true)
and-true true b e = (refl, e)
and-true false b e = cc

-- A character that is not of the alphabet, and no padding, has no value.
value_refused : (c : ℕ) → ¬ IsLetter c → c ≢ b'=' → b64url_value c ≡ none
unfolding b64url_value
value_refused c h k =
    if_cases (λ (o : Option ℕ). o ≡ none) (leb b'A' c && leb c b'Z') _ _
      (λ e. let (l, u) = and-true _ _ e in absurd (h (upper_IsLetter c l u)))
      (λ _.
        if_cases (λ (o : Option ℕ). o ≡ none) (leb b'a' c && leb c b'z') _ _
          (λ e. let (l, u) = and-true _ _ e in absurd (h (lower_IsLetter c l u)))
          (λ _.
            if_cases (λ (o : Option ℕ). o ≡ none) (leb b'0' c && leb c b'9') _ _
              (λ e. let (l, u) = and-true _ _ e in absurd (h (digit_IsLetter c l u)))
              (λ _.
                if_cases (λ (o : Option ℕ). o ≡ none) (c == b'-') _ _
                  (λ e. absurd (h (62, omega arith, ==→eq c b'-' e)))
                  (λ _.
                    if_cases (λ (o : Option ℕ). o ≡ none) (c == b'_') _ _
                      (λ e. absurd (h (63, omega arith, ==→eq c b'_' e)))
                      (λ _.
                        if_cases (λ (o : Option ℕ). o ≡ none) (c == b'=') (some padding) none
                          (λ e. absurd (k (==→eq c b'=' e))) (λ _. refl))))))

decode_loop-refused :
    (output_max : ℕ) (output quad before after : List ℕ) (c : ℕ)
    → All IsLetter before
    → b64url_value c ≡ none
    → result (decode_loop output_max output quad (before ++ (c ∷ after))) ≡ none
unfolding decode_loop
decode_loop-refused output_max output quad [] after c wf e = rw (e, decode_loop) refl
decode_loop-refused output_max output quad (b ∷ before) after c ((v, small, same), wf) e =
    rw (same, b64url_value-letter v small, decode_loop, ne→== v 64 (omega arith))
      (by_push (push_value output_max output quad v)
        (λ out q. decode_loop-refused output_max out q before after c wf e))
  where
    by_push :
        (p : Pushing)
        → ((out q : List ℕ) → result (decode_loop output_max out q (before ++ (c ∷ after))) ≡ none)
        → result (elim p [
          | overfull output' ↦ rejected output'
          | pushed output' quad' ↦ decode_loop output_max output' quad' (before ++ (c ∷ after))
        ])
          ≡ none
    by_push (overfull out) ih = refl
    by_push (pushed out q) ih = ih out q

-- A text with a character that is outside the alphabet of RFC 4648, section 5, and no padding
-- character, before which there are characters of the alphabet only, is refused, whatever the
-- output's size.
pub base64url_decode-refused :
    (before after : List ℕ) (c output_max : ℕ)
    → All IsLetter before
    → ¬ IsLetter c
    → c ≢ b'='
    → base64url_decode (before ++ (c ∷ after)) output_max ≡ none
unfolding base64url_decode decode_run
base64url_decode-refused before after c output_max wf outside no_padding =
    rw (ne→== (length (before ++ (c ∷ after))) 0 (omega (arith, length-append before (c ∷ after))))
      (decode_loop-refused output_max [] [] before after c wf (value_refused c outside no_padding))
