-- ===== src/Encoding/Text.antt =====
-- src/encoding/binary_string.c: String and ByteString, a length and that many bytes.
-- mu_binary_read_bytestring and mu_binary_write_bytestring are these functions under a cast.
use muc_opcua.Common.{ℕ, ◌-◌, List, Option, some, ◌||◌, leb, ltb, ◌==◌, if◌then◌else◌, slice, take}
use muc_opcua.Status.{bad_encoding_error, bad_decoding_error, bad_encoding_limits_exceeded}
use muc_opcua.Encoding.State.{done, fail, M, ◌>>=◌, ◌>>◌, pure, raise}
use muc_opcua.Encoding.Types.{Str, null_str, int32_minus_one, int32_min}
use muc_opcua.Encoding.Reader.{Reader, contents, advance, read_int32, reader_fail}
use muc_opcua.Encoding.Writer.{Writer, emit, write_int32}

-- MU_MAX_ENCODED_STRING_LENGTH of include/muc_opcua/config.h.
abbrev pub max_encoded_string_length : ℕ
max_encoded_string_length = 4096

unfoldable pub ensure_string_payload : ℕ → M Reader (Unit {0})
unfolding reader_fail
ensure_string_payload n r =
    if n == 0 || leb int32_min n
    then done tt r
    else if ltb r.length r.position
    then reader_fail bad_decoding_error r
    else if ltb (r.length - r.position) n
    then reader_fail bad_decoding_error r
    else done tt r

-- `value->data = reader->buffer + reader->position; reader->position += length;`
abbrev pub fetch_slice : ℕ → M Reader Str
fetch_slice n r =
    done (record { length = n; bytes = some (slice (contents r.buffer) r.position n) })
      (advance n r)

-- What follows the length. An impossible or excessive length is refused, but does not trip the
-- reader.
unfoldable pub read_string_payload : ℕ → M Reader Str
read_string_payload n =
    if n == int32_minus_one
    then pure null_str
    else if leb int32_min n
    then raise bad_decoding_error
    else if ltb max_encoded_string_length n
    then raise bad_encoding_limits_exceeded
    else (ensure_string_payload n >> fetch_slice n)

unfoldable pub read_string : M Reader Str
read_string = do n ← read_int32; read_string_payload n

-- mu_checked_memcpy_off of src/core/safe_mem.h into the writer's buffer, and the step behind it.
-- A refused copy does not trip the writer.
unfoldable pub copy_payload : ℕ → Option (List ℕ) → M Writer (Unit {0})
copy_payload n src w =
    if ltb w.length w.position || ltb (w.length - w.position) n
    then fail bad_encoding_error w
    else done tt (emit (take n (contents src)) w)

unfoldable pub write_string : Str → M Writer (Unit {0})
write_string value =
    if value.length == int32_minus_one
    then write_int32 int32_minus_one
    else if leb int32_min value.length
    then raise bad_encoding_error
    else if ltb max_encoded_string_length value.length
    then raise bad_encoding_limits_exceeded
    else (write_int32 value.length
        >> (if value.length == 0 then pure tt else copy_payload value.length value.bytes))
