-- ===== src/Core/Tcp/Refusal.antt =====
-- The error message that ends a connection, as the peer reads it.
use muc_opcua.Common.{
  ℕ, ◌+◌, ◌≤◌, ◌≡◌, refl, sym, subst, ap, ◌∙◌, List, [], ◌∷◌, ◌++◌, some, arith, length,
  length-append, Holds, Holds-append_left, Holds-append_right, Holds-overwrite, overwrite,
  overwrite-append, le→ltb,
}
use muc_opcua.Status.{ok}
use muc_opcua.Encoding.State.{done}
use muc_opcua.Encoding.Le.{le_u32, get_u32, put_u32, get_u32-le_u32}
use muc_opcua.Encoding.Reader.{reader_init}
use muc_opcua.Encoding.Writer.{writer_init}
use muc_opcua.Encoding.Text.{read_string, write_string}
use muc_opcua.Encoding.Format.{IsU32, str_format}
use muc_opcua.Encoding.Strings.{Reads-string, Writes-string}
use muc_opcua.Core.Chunk.{MessageHeader, check_header, parse_message_header}
use muc_opcua.Core.Tcp.{c_string, create_error_message}

abbrev pub error_header : ℕ → MessageHeader
error_header size = record {
  type_0 = 69;
  type_1 = 82;
  type_2 = 82;
  chunk_type = 70;
  message_size = size;
  secure_channel_id = 0;
}

abbrev error_head : ℕ → ℕ → List ℕ
error_head total code = 69 ∷ 82 ∷ 82 ∷ 70 ∷ (le_u32 total ++ le_u32 code)

parse_error_header :
    (buf : List ℕ) (n code : ℕ)
    → 8 ≤ n
    → IsU32 n
    → Holds buf 0 (error_head n code)
    → parse_message_header buf n ≡ ok (error_header n)
unfolding parse_message_header check_header
parse_error_header buf n code large hn (h0, (h1, (h2, (h3, rest)))) =
    rw
      (
        le→ltb n 8 large,
        h0,
        h1,
        h2,
        h3,
        get_u32-le_u32 buf 4 n hn (Holds-append_left buf 4 (le_u32 n) (le_u32 code) rest),
      )
      (ground arith)

error_head_lem :
    (buf : List ℕ) (total code : ℕ)
    → put_u32 (put_u32 (overwrite buf 0 (69 ∷ 82 ∷ 82 ∷ 70 ∷ [])) 4 total) 8 code
      ≡ overwrite buf 0 (error_head total code)
unfolding put_u32 le_u32 overwrite
error_head_lem buf total code = refl

length-error_head : (total code : ℕ) → length (error_head total code) ≡ 12
unfolding le_u32
length-error_head total code = refl

length-error_reason : (bs : List ℕ) → length (str_format (c_string (some bs))) ≡ 4 + length bs
unfolding le_u32
length-error_reason bs = omega arith

code-Holds :
    (buf : List ℕ) (total code : ℕ)
    → Holds buf 0 (error_head total code)
    → Holds buf 8 (le_u32 code)
unfolding le_u32
code-Holds buf total code (_, (_, (_, (_, rest)))) =
    Holds-append_right buf 4 8 (le_u32 total) (le_u32 code) refl rest

-- An error message for a reason of at most 4096 bytes that fits the buffer is created; the peer
-- parses from it a final ERR chunk of the total length, and reads the error code and the reason.
pub error_message_read :
    (code : ℕ) (bs buf : List ℕ) (n : ℕ)
    → IsU32 code
    → length bs ≤ 4096
    → 16 + length bs ≤ n
    → n ≤ length buf
    → (buf' : List ℕ) × (create_error_message code (some bs) buf n ≡ ok (some buf', 16 + length bs))
      × (parse_message_header buf' (16 + length bs) ≡ ok (error_header (16 + length bs)))
      × (get_u32 buf' 8 ≡ code)
      × (read_string (record (reader_init (some buf') (16 + length bs)) { position = 12 })
          ≡ done
              (c_string (some bs))
              (record (reader_init (some buf') (16 + length bs)) { position = 16 + length bs }))
unfolding create_error_message
error_message_read code bs buf n hc small fits mem =
    let total : ℕ = 16 + length bs in
    let head : List ℕ = error_head total code in
    let body : List ℕ = str_format (c_string (some bs)) in
    let coded : List ℕ = overwrite buf 0 head in
    let len : length head ≡ 12 = length-error_head total code in
    let body_len : length body ≡ 4 + length bs = length-error_reason bs in
    let both : length (head ++ body) ≡ length head + length body = length-append head body in
    let message : List ℕ = overwrite coded 12 body in
    let same : message ≡ overwrite buf 0 (head ++ body) =
      overwrite-append buf 0 12 head body (omega arith) in
    let holds : Holds message 0 (head ++ body) =
      subst (λ (b : List ℕ). Holds b 0 (head ++ body)) (sym same)
        (Holds-overwrite buf 0 (head ++ body) (omega arith)) in
    let head_holds : Holds message 0 head = Holds-append_left message 0 head body holds in
    let written : write_string (c_string (some bs))
          (record (writer_init (some coded) n) { position = 12 })
        ≡ _ =
      Writes-string (c_string (some bs)) (refl, small) coded
        (record (writer_init (some coded) n) { position = 12 }) refl refl (omega arith) in
    (
      message,
      rw (le→ltb n (16 + length bs) fits, error_head_lem buf total code, written)
          (ap (λ (p : ℕ). ok (some message, p)) (omega arith)),
      parse_error_header message total code (omega arith) (omega arith) head_holds,
      get_u32-le_u32 message 8 code hc (code-Holds message total code head_holds),
      Reads-string (c_string (some bs)) (refl, small) message
            (record (reader_init (some message) total) { position = 12 }) refl refl (omega arith)
            (Holds-append_right message 0 12 head body (omega arith) holds)
          ∙ ap
              (λ (p : ℕ).
                done (c_string (some bs))
                  (record (reader_init (some message) total) { position = p }))
              (omega arith),
    )
