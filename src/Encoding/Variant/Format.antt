-- ===== src/Encoding/Variant/Format.antt =====
-- The bytes of a scalar value, and that the code reads and writes them.
use muc_opcua.Common.{
  ℕ, ◌≤◌, ◌<◌, ◌^◌, ◌≡◌, List, [], ◌∷◌, arith, length, length-append, Option, none, some, true,
}
use muc_opcua.Encoding.Le.{le_u16, le_u32, le_u64}
use muc_opcua.Encoding.Reader.{
  read_boolean, read_byte, read_sbyte, read_int16, read_uint16, read_int32, read_uint32, read_int64,
  read_uint64, read_float, read_double, read_statuscode,
}
use muc_opcua.Encoding.Text.{read_string}
use muc_opcua.Encoding.NodeIds.{read_nodeid, read_qualified_name}
use muc_opcua.Encoding.Composite.{read_localized_text}
use muc_opcua.Encoding.Format.{
  IsU16, IsU32, IsU64, IsStr, IsNodeId, IsQualifiedName, str_format, str_format_of,
  qualified_name_format,
}
use muc_opcua.Encoding.Calculus.{Reads, Writes, Reads-map}
use muc_opcua.Encoding.Words.{
  boolean_byte, Reads-boolean, Reads-byte, Reads-sbyte, Reads-int16, Reads-uint16, Reads-int32,
  Reads-uint32, Reads-int64, Reads-uint64, Reads-float, Reads-double, Reads-statuscode,
  Writes-boolean, Writes-byte, Writes-sbyte, Writes-int16, Writes-uint16, Writes-int32,
  Writes-uint32, Writes-int64, Writes-uint64, Writes-float, Writes-double, Writes-statuscode,
}
use muc_opcua.Encoding.Strings.{Reads-string, Writes-string}
use muc_opcua.Encoding.Identifiers.{
  nodeid_format, Reads-nodeid, Writes-nodeid, Reads-qualified_name, Writes-qualified_name,
}
use muc_opcua.Encoding.Localized.{
  IsLocalizedText, localized_format, Reads-localized_text, Writes-localized_text,
}
use muc_opcua.Encoding.Variant as V
use muc_opcua.Encoding.Variant.{Scalar, scalar_type, read_scalar_value, write_scalar_value}

-- Which scalars have an encoding.
abbrev pub IsScalar : Scalar → Type 0
IsScalar (V.boolean b) = Unit
IsScalar (V.sbyte n) = n < 2 ^ 8
IsScalar (V.byte n) = n < 2 ^ 8
IsScalar (V.int16 n) = IsU16 n
IsScalar (V.uint16 n) = IsU16 n
IsScalar (V.int32 n) = IsU32 n
IsScalar (V.uint32 n) = IsU32 n
IsScalar (V.int64 n) = IsU64 n
IsScalar (V.uint64 n) = IsU64 n
IsScalar (V.float n) = IsU32 n
IsScalar (V.double n) = IsU64 n
IsScalar (V.string s) = IsStr s
IsScalar (V.bytestring s) = IsStr s
IsScalar (V.datetime n) = IsU64 n
IsScalar (V.statuscode n) = IsU32 n
IsScalar (V.nodeid id) = IsNodeId id
IsScalar (V.qualified_name q) = IsQualifiedName q
IsScalar (V.localized_text t) = IsLocalizedText t
IsScalar (V.other t) = ⊥

unfoldable pub scalar_format : Scalar → List ℕ
scalar_format (V.boolean b) = boolean_byte b ∷ []
scalar_format (V.sbyte n) = n ∷ []
scalar_format (V.byte n) = n ∷ []
scalar_format (V.int16 n) = le_u16 n
scalar_format (V.uint16 n) = le_u16 n
scalar_format (V.int32 n) = le_u32 n
scalar_format (V.uint32 n) = le_u32 n
scalar_format (V.int64 n) = le_u64 n
scalar_format (V.uint64 n) = le_u64 n
scalar_format (V.float n) = le_u32 n
scalar_format (V.double n) = le_u64 n
scalar_format (V.string s) = str_format s
scalar_format (V.bytestring s) = str_format s
scalar_format (V.datetime n) = le_u64 n
scalar_format (V.statuscode n) = le_u32 n
scalar_format (V.nodeid id) = nodeid_format id
scalar_format (V.qualified_name q) = qualified_name_format q
scalar_format (V.localized_text t) = localized_format t
scalar_format (V.other t) = []

pub Reads-scalar :
    (x : Scalar) → IsScalar x → Reads (read_scalar_value (scalar_type x)) (scalar_format x) x
unfolding read_scalar_value scalar_format
Reads-scalar (V.boolean b) h =
    Reads-map read_boolean V.boolean (boolean_byte b ∷ []) b (Reads-boolean b)
Reads-scalar (V.sbyte n) h = Reads-map read_sbyte V.sbyte (n ∷ []) n (Reads-sbyte n)
Reads-scalar (V.byte n) h = Reads-map read_byte V.byte (n ∷ []) n (Reads-byte n)
Reads-scalar (V.int16 n) h = Reads-map read_int16 V.int16 (le_u16 n) n (Reads-int16 n h)
Reads-scalar (V.uint16 n) h = Reads-map read_uint16 V.uint16 (le_u16 n) n (Reads-uint16 n h)
Reads-scalar (V.int32 n) h = Reads-map read_int32 V.int32 (le_u32 n) n (Reads-int32 n h)
Reads-scalar (V.uint32 n) h = Reads-map read_uint32 V.uint32 (le_u32 n) n (Reads-uint32 n h)
Reads-scalar (V.int64 n) h = Reads-map read_int64 V.int64 (le_u64 n) n (Reads-int64 n h)
Reads-scalar (V.uint64 n) h = Reads-map read_uint64 V.uint64 (le_u64 n) n (Reads-uint64 n h)
Reads-scalar (V.float n) h = Reads-map read_float V.float (le_u32 n) n (Reads-float n h)
Reads-scalar (V.double n) h = Reads-map read_double V.double (le_u64 n) n (Reads-double n h)
Reads-scalar (V.string s) h = Reads-map read_string V.string (str_format s) s (Reads-string s h)
Reads-scalar (V.bytestring s) h =
    Reads-map read_string V.bytestring (str_format s) s (Reads-string s h)
Reads-scalar (V.datetime n) h = Reads-map read_int64 V.datetime (le_u64 n) n (Reads-int64 n h)
Reads-scalar (V.statuscode n) h =
    Reads-map read_statuscode V.statuscode (le_u32 n) n (Reads-statuscode n h)
Reads-scalar (V.nodeid id) h =
    Reads-map read_nodeid V.nodeid (nodeid_format id) id (Reads-nodeid id h)
Reads-scalar (V.qualified_name q) h =
    Reads-map read_qualified_name V.qualified_name (qualified_name_format q) q
      (Reads-qualified_name q h)
Reads-scalar (V.localized_text t) h =
    Reads-map read_localized_text V.localized_text (localized_format t) t (Reads-localized_text t h)
Reads-scalar (V.other t) h = absurd h

pub Writes-scalar : (x : Scalar) → IsScalar x → Writes (write_scalar_value x) (scalar_format x)
unfolding write_scalar_value scalar_format
Writes-scalar (V.boolean b) h = Writes-boolean b
Writes-scalar (V.sbyte n) h = Writes-sbyte n
Writes-scalar (V.byte n) h = Writes-byte n
Writes-scalar (V.int16 n) h = Writes-int16 n
Writes-scalar (V.uint16 n) h = Writes-uint16 n
Writes-scalar (V.int32 n) h = Writes-int32 n
Writes-scalar (V.uint32 n) h = Writes-uint32 n
Writes-scalar (V.int64 n) h = Writes-int64 n
Writes-scalar (V.uint64 n) h = Writes-uint64 n
Writes-scalar (V.float n) h = Writes-float n
Writes-scalar (V.double n) h = Writes-double n
Writes-scalar (V.string s) h = Writes-string s h
Writes-scalar (V.bytestring s) h = Writes-string s h
Writes-scalar (V.datetime n) h = Writes-int64 n
Writes-scalar (V.statuscode n) h = Writes-statuscode n
Writes-scalar (V.nodeid id) h = Writes-nodeid id h
Writes-scalar (V.qualified_name q) h = Writes-qualified_name q h
Writes-scalar (V.localized_text t) h = Writes-localized_text t h
Writes-scalar (V.other t) h = absurd h

str_nonempty : (n : ℕ) (o : Option (List ℕ)) → 1 ≤ length (str_format_of n o)
unfolding le_u32
str_nonempty n none = omega arith
str_nonempty n (some bs) = omega (arith, length-append (le_u32 n) bs)

-- Every scalar takes at least one byte.
pub scalar_format-nonempty : (x : Scalar) → IsScalar x → 1 ≤ length (scalar_format x)
unfolding scalar_format le_u16 le_u32 le_u64 nodeid_format localized_format
scalar_format-nonempty (V.boolean b) h = omega arith
scalar_format-nonempty (V.sbyte n) h = omega arith
scalar_format-nonempty (V.byte n) h = omega arith
scalar_format-nonempty (V.int16 n) h = omega arith
scalar_format-nonempty (V.uint16 n) h = omega arith
scalar_format-nonempty (V.int32 n) h = omega arith
scalar_format-nonempty (V.uint32 n) h = omega arith
scalar_format-nonempty (V.int64 n) h = omega arith
scalar_format-nonempty (V.uint64 n) h = omega arith
scalar_format-nonempty (V.float n) h = omega arith
scalar_format-nonempty (V.double n) h = omega arith
scalar_format-nonempty (V.string s) h = str_nonempty s.length s.bytes
scalar_format-nonempty (V.bytestring s) h = str_nonempty s.length s.bytes
scalar_format-nonempty (V.datetime n) h = omega arith
scalar_format-nonempty (V.statuscode n) h = omega arith
scalar_format-nonempty (V.nodeid id) h = omega arith
scalar_format-nonempty (V.qualified_name q) h =
    omega (arith, length-append (le_u16 q.namespace_index) (str_format q.name))
scalar_format-nonempty (V.localized_text t) h = omega arith
scalar_format-nonempty (V.other t) h = absurd h

-- The scalars that an array may hold have a place in the table of sizes, and a tag of six bits.
pub scalar_type-has_stride :
    (x : Scalar)
    → IsScalar x
    → (V.has_stride (scalar_type x) ≡ true) × (1 ≤ scalar_type x) × (scalar_type x ≤ 21)
scalar_type-has_stride x h = ground arith
