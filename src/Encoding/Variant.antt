-- ===== src/Encoding/Variant.antt =====
-- src/encoding/binary_variant.c and variant_type.c: the Variant, its values and its arrays. The
-- structures that the writer stores in an ExtensionObject are left out: `other 22` is one.
pub mod Format
pub mod Arrays
pub mod DataValue
pub mod RoundTrip
pub mod Typed
mod Tests
use muc_opcua.Common.{
  ℕ, zero, suc, ◌-◌, ◌/◌, ◌%◌, ◌^◌, List, [], ◌∷◌, Option, none, some, Bool, true, false, not, ◌&&◌,
  ◌||◌, leb, ltb, ◌==◌, ◌/=◌, if◌then◌else◌, take, bit_and, bit_or,
}
use muc_opcua.Status.{
  bad_encoding_error, bad_decoding_error, bad_encoding_limits_exceeded, bad_out_of_memory,
}
use muc_opcua.Encoding.State.{done, fail, M, ◌>>=◌, ◌>>◌, pure, raise}
use muc_opcua.Encoding.Types.{Str, NodeId, QualifiedName, LocalizedText, int32_minus_one, int32_min}
use muc_opcua.Encoding.Reader.{
  Reader, read_boolean, read_byte, read_sbyte, read_int16, read_uint16, read_int32, read_uint32,
  read_int64, read_uint64, read_float, read_double, read_statuscode,
}
use muc_opcua.Encoding.Writer.{
  Writer, write_boolean, write_byte, write_sbyte, write_int16, write_uint16, write_int32,
  write_uint32, write_int64, write_uint64, write_float, write_double, write_statuscode,
}
use muc_opcua.Encoding.Text.{read_string, write_string}
use muc_opcua.Encoding.NodeIds.{
  read_nodeid, write_nodeid, read_qualified_name, write_qualified_name,
}
use muc_opcua.Encoding.Composite.{read_localized_text, write_localized_text}

-- The union of `mu_variant_t` under its tag; a signed number, a float and a double are their bit
-- patterns. `other` is a tag that the scalar functions have no case for.
pub data Scalar : Type 0 where
  boolean : Bool → Scalar
  sbyte byte int16 uint16 int32 uint32 int64 uint64 float double datetime statuscode : ℕ → Scalar
  string bytestring : Str → Scalar
  nodeid : NodeId → Scalar
  qualified_name : QualifiedName → Scalar
  localized_text : LocalizedText → Scalar
  other : ℕ → Scalar

-- `mu_builtin_type_t`.
abbrev pub scalar_type : Scalar → ℕ
scalar_type (boolean b) = 1
scalar_type (sbyte n) = 2
scalar_type (byte n) = 3
scalar_type (int16 n) = 4
scalar_type (uint16 n) = 5
scalar_type (int32 n) = 6
scalar_type (uint32 n) = 7
scalar_type (int64 n) = 8
scalar_type (uint64 n) = 9
scalar_type (float n) = 10
scalar_type (double n) = 11
scalar_type (string s) = 12
scalar_type (datetime n) = 13
scalar_type (bytestring s) = 15
scalar_type (nodeid id) = 17
scalar_type (statuscode n) = 19
scalar_type (qualified_name q) = 20
scalar_type (localized_text t) = 21
scalar_type (other t) = t

-- `mu_variant_t`. The array has its type, its length as an int32 pattern, and its elements (`none`
-- for NULL), each of that type.
pub data Variant : Type 0 where
  null : Bool → Variant
  scalar : Scalar → Variant
  array : ℕ → ℕ → Option (List Scalar) → Variant

-- What the code takes from its target and its C library: SIZE_MAX, `sizeof` of the C type of each
-- built-in type, and for which counts and sizes `calloc` gives memory.
pub record Platform : Type 0 where
  pub size_max : ℕ
  pub size_of : ℕ → ℕ
  pub calloc : ℕ → ℕ → Bool
  pub max_array_length : ℕ

-- The types that the table of sizes names.
abbrev pub has_stride : ℕ → Bool
has_stride type =
    (leb 1 type && leb type 13) || type == 15 || type == 17 || (leb 19 type && leb type 21)

unfoldable pub element_size : Platform → ℕ → ℕ
element_size platform type = if has_stride type then platform.size_of type else 0

abbrev pub number : M Reader ℕ → (ℕ → Scalar) → M Reader Scalar
number read make = read >>= λ n. pure (make n)

unfoldable pub read_scalar_value : ℕ → M Reader Scalar
read_scalar_value type =
    if type == 1
    then (read_boolean >>= λ b. pure (boolean b))
    else if type == 2
    then number read_sbyte sbyte
    else if type == 3
    then number read_byte byte
    else if type == 4
    then number read_int16 int16
    else if type == 5
    then number read_uint16 uint16
    else if type == 6
    then number read_int32 int32
    else if type == 7
    then number read_uint32 uint32
    else if type == 8
    then number read_int64 int64
    else if type == 9
    then number read_uint64 uint64
    else if type == 10
    then number read_float float
    else if type == 11
    then number read_double double
    else if type == 12
    then (read_string >>= λ s. pure (string s))
    else if type == 15
    then (read_string >>= λ s. pure (bytestring s))
    else if type == 13
    then number read_int64 datetime
    else if type == 19
    then number read_statuscode statuscode
    else if type == 17
    then (read_nodeid >>= λ id. pure (nodeid id))
    else if type == 20
    then (read_qualified_name >>= λ q. pure (qualified_name q))
    else if type == 21
    then (read_localized_text >>= λ t. pure (localized_text t))
    else raise bad_decoding_error

unfoldable pub write_scalar_value : Scalar → M Writer (Unit {0})
write_scalar_value (boolean b) = write_boolean b
write_scalar_value (sbyte n) = write_sbyte n
write_scalar_value (byte n) = write_byte n
write_scalar_value (int16 n) = write_int16 n
write_scalar_value (uint16 n) = write_uint16 n
write_scalar_value (int32 n) = write_int32 n
write_scalar_value (uint32 n) = write_uint32 n
write_scalar_value (int64 n) = write_int64 n
write_scalar_value (uint64 n) = write_uint64 n
write_scalar_value (float n) = write_float n
write_scalar_value (double n) = write_double n
write_scalar_value (string s) = write_string s
write_scalar_value (bytestring s) = write_string s
write_scalar_value (datetime n) = write_int64 n
write_scalar_value (statuscode n) = write_statuscode n
write_scalar_value (nodeid id) = write_nodeid id
write_scalar_value (qualified_name q) = write_qualified_name q
write_scalar_value (localized_text t) = write_localized_text t
write_scalar_value (other t) = raise bad_encoding_error

-- The loop of the array's elements.
unfoldable pub read_elements : ℕ → ℕ → M Reader (List Scalar)
read_elements type zero = pure []
read_elements type (suc n) =
    read_scalar_value type >>= λ x. read_elements type n >>= λ xs. pure (x ∷ xs)

-- A plain return: the reader is not tripped.
unfoldable pub check_remaining : ℕ → M Reader (Unit {0})
check_remaining length r =
    if ltb r.length r.position || ltb (r.length - r.position) length
    then fail bad_decoding_error r
    else done tt r

-- The decoded elements lie in memory of their own. On a failure it is freed.
unfoldable pub read_array_elements : Platform → ℕ → ℕ → M Reader (Option (List Scalar))
read_array_elements platform type length =
    if element_size platform type == 0
    then raise bad_decoding_error
    else (check_remaining length
        >> (if ltb (platform.size_max / element_size platform type) length
            then raise bad_decoding_error
            else if not (platform.calloc length (element_size platform type))
            then raise bad_out_of_memory
            else (read_elements type length >>= λ xs. pure (some xs))))

-- The dimensions are read over.
unfoldable pub skip_int32s : ℕ → M Reader (Unit {0})
skip_int32s zero = pure tt
skip_int32s (suc n) = read_int32 >>= λ dim. skip_int32s n

unfoldable pub skip_dimensions : M Reader (Unit {0})
skip_dimensions = do
  dim_count ← read_int32
  (if leb int32_min dim_count && dim_count /= int32_minus_one
      then raise bad_decoding_error
      else if dim_count == int32_minus_one
      then pure tt
      else skip_int32s dim_count)

-- `length` is an int32 pattern: from `int32_min` on it is negative.
unfoldable pub read_array : Platform → ℕ → Bool → ℕ → M Reader Variant
read_array platform type has_dimensions length =
    if leb int32_min length && length /= int32_minus_one
    then raise bad_decoding_error
    else if ltb length int32_min && ltb platform.max_array_length length
    then raise bad_encoding_limits_exceeded
    else (do
      elements ←
          (if ltb 0 length && ltb length int32_min
            then read_array_elements platform type length
            else pure none)
      (if has_dimensions then skip_dimensions else pure tt)
      pure (array type length elements))

unfoldable pub read_variant : Platform → M Reader Variant
read_variant platform = do
  encoding_mask ← read_byte
  (if bit_and encoding_mask 0x40 /= 0 && not (bit_and encoding_mask 0x80 /= 0)
      then raise bad_decoding_error
      else if bit_and encoding_mask 0x3f == 0
      then pure (null false)
      else if bit_and encoding_mask 0x80 /= 0
      then (read_int32 >>= λ length.
          read_array platform (bit_and encoding_mask 0x3f) (bit_and encoding_mask 0x40 /= 0) length)
      else (read_scalar_value (bit_and encoding_mask 0x3f) >>= λ x. pure (scalar x)))

abbrev pub variant_type : Variant → ℕ
variant_type (null is_array) = 0
variant_type (scalar x) = scalar_type x
variant_type (array type length elements) = type

abbrev pub is_array : Variant → Bool
is_array (null flag) = flag
is_array (scalar x) = false
is_array (array type length elements) = true

unfoldable pub write_elements : List Scalar → M Writer (Unit {0})
write_elements [] = pure tt
write_elements (x ∷ xs) = write_scalar_value x >> write_elements xs

unfoldable pub write_array : Platform → ℕ → ℕ → Option (List Scalar) → M Writer (Unit {0})
write_array platform type length none = write_int32 length
write_array platform type length (some xs) =
    write_int32 length
    >> (if leb int32_min length
        then pure tt
        else if element_size platform type == 0
        then raise bad_encoding_error
        else write_elements (take length xs))

unfoldable pub write_value : Platform → Variant → M Writer (Unit {0})
write_value platform (null flag) = pure tt
write_value platform (scalar x) = write_scalar_value x
write_value platform (array type length elements) = write_array platform type length elements

unfoldable pub write_variant : Platform → Variant → M Writer (Unit {0})
write_variant platform variant =
    write_byte (bit_or (variant_type variant % 2 ^ 8) (if is_array variant then 0x80 else 0))
    >> (if variant_type variant == 0 then pure tt else write_value platform variant)

-- Whether a value of type `actual` may be written where `expected` is declared.
unfoldable pub variant_type_is_assignable : ℕ → ℕ → Bool
variant_type_is_assignable expected actual = if expected == actual then true else false
