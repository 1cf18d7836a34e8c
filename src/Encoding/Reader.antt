-- ===== src/Encoding/Reader.antt =====
-- src/encoding/binary_reader.c: the primitive reads. A read checks the remaining bytes first, and
-- a read that finds too few of them trips the reader for good.
use muc_opcua.Common.{
  ℕ, ◌+◌, ◌-◌, List, [], Option, none, some, Bool, true, false, not, ◌&&◌, ◌||◌, leb, ltb, ◌==◌,
  ◌/=◌, if◌then◌else◌, get_or,
}
use muc_opcua.Status.{good, bad_internal_error, bad_decoding_error}
use muc_opcua.Encoding.State.{done, fail, M, ◌>>=◌, ◌>>◌, pure}
use muc_opcua.Encoding.Le.{get_u16, get_u32, get_u64}
use muc_opcua.Encoding.Types.{int32_minus_one, int32_min}

-- `mu_binary_reader_t`; `buffer` is `none` for NULL.
pub record Reader : Type 0 where
  pub buffer : Option (List ℕ)
  pub length : ℕ
  pub position : ℕ
  pub status : ℕ

abbrev pub reader_init : Option (List ℕ) → ℕ → Reader
reader_init buffer length = record { buffer = buffer; length = length; position = 0; status = good }

abbrev pub contents : Option (List ℕ) → List ℕ
contents none = []
contents (some bytes) = bytes

abbrev pub is_null : Option (List ℕ) → Bool
is_null none = true
is_null (some bytes) = false

abbrev pub advance : ℕ → Reader → Reader
advance n r = record r { position = r.position + n }

unfoldable pub reader_status : M Reader (Unit {0})
reader_status r = if r.status /= good then fail r.status r else done tt r

unfoldable pub reader_fail : {A : Type 0} → ℕ → M Reader A
reader_fail status r = fail status (record r { status = status })

unfoldable pub ensure_bytes : ℕ → M Reader (Unit {0})
unfolding reader_fail
ensure_bytes count r =
    if r.status == good
      && not (is_null r.buffer)
      && leb r.position r.length
      && leb count (r.length - r.position)
    then done tt r
    else if r.status /= good
    then fail r.status r
    else if is_null r.buffer
    then reader_fail bad_internal_error r
    else reader_fail bad_decoding_error r

-- `*value = get(&reader->buffer[reader->position]); reader->position += n;`
abbrev pub fetch : (List ℕ → ℕ → ℕ) → ℕ → M Reader ℕ
fetch get n r = done (get (contents r.buffer) r.position) (advance n r)

abbrev pub byte_at : List ℕ → ℕ → ℕ
byte_at src p = get_or src p 0

unfoldable pub read_boolean : M Reader Bool
read_boolean = do ensure_bytes 1; b ← fetch byte_at 1; pure (b /= 0)

unfoldable pub read_byte : M Reader ℕ
read_byte = do ensure_bytes 1; fetch byte_at 1

-- The cast to a signed type keeps the bit pattern.
unfoldable pub read_sbyte : M Reader ℕ
read_sbyte = do ensure_bytes 1; fetch byte_at 1

unfoldable pub read_int16 : M Reader ℕ
read_int16 = do ensure_bytes 2; fetch get_u16 2

unfoldable pub read_uint16 : M Reader ℕ
read_uint16 = do ensure_bytes 2; fetch get_u16 2

unfoldable pub read_int32 : M Reader ℕ
read_int32 = do ensure_bytes 4; fetch get_u32 4

unfoldable pub read_uint32 : M Reader ℕ
read_uint32 = do ensure_bytes 4; fetch get_u32 4

unfoldable pub read_int64 : M Reader ℕ
read_int64 = do ensure_bytes 8; fetch get_u64 8

unfoldable pub read_uint64 : M Reader ℕ
read_uint64 = do ensure_bytes 8; fetch get_u64 8

-- A float or double is read as its bit pattern.
unfoldable pub read_float : M Reader ℕ
read_float = read_uint32

unfoldable pub read_double : M Reader ℕ
read_double = read_uint64

unfoldable pub read_statuscode : M Reader ℕ
read_statuscode = read_uint32

-- The test behind the decoded count: below -1, or more elements than `size_t` positions are left.
unfoldable pub check_array_length : ℕ → ℕ → M Reader ℕ
unfolding reader_fail
check_array_length size_max n r =
    if (leb int32_min n && n /= int32_minus_one)
      || (ltb 0 n && ltb n int32_min && ltb (size_max - r.position) n)
    then reader_fail bad_decoding_error r
    else done n r

-- `size_max` is SIZE_MAX of the target.
unfoldable pub read_array_length : ℕ → M Reader ℕ
read_array_length size_max = do ensure_bytes 4; n ← fetch get_u32 4; check_array_length size_max n
