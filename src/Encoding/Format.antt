-- ===== src/Encoding/Format.antt =====
-- The byte formats of OPC 10000-6, written down independently of the code that reads and writes
-- them, and which values have one.
use muc_opcua.Common.{
  ℕ, ◌≤◌, ◌<◌, ◌^◌, ◌≡◌, List, [], ◌∷◌, ◌++◌, Option, none, some, ◌&&◌, length, leb, ◌==◌,
  if◌then◌else◌,
}
use muc_opcua.Encoding.Le.{le_u16, le_u32}
use muc_opcua.Encoding.Types.{
  Str, int32_minus_one, Identifier, numeric, string, guid, opaque, unknown, NodeId, QualifiedName,
}

abbrev pub IsU16 : ℕ → Type 0
IsU16 n = n < 2 ^ 16

abbrev pub IsU32 : ℕ → Type 0
IsU32 n = n < 2 ^ 32

abbrev pub IsU64 : ℕ → Type 0
IsU64 n = n < 2 ^ 64

-- A string is NULL with length -1, or at most 4096 bytes with their number.
abbrev pub IsStrOf : ℕ → Option (List ℕ) → Type 0
IsStrOf n none = n ≡ int32_minus_one
IsStrOf n (some bs) = (n ≡ length bs) × (n ≤ 4096)

abbrev pub IsStr : Str → Type 0
IsStr s = IsStrOf s.length s.bytes

abbrev pub str_format_of : ℕ → Option (List ℕ) → List ℕ
str_format_of n none = le_u32 n
str_format_of n (some bs) = le_u32 n ++ bs

abbrev pub str_format : Str → List ℕ
str_format s = str_format_of s.length s.bytes

-- The identifiers of a `mu_nodeid_t`: 16 bytes of a Guid, at most 16 of an Opaque.
abbrev pub IsIdentifier : Identifier → Type 0
IsIdentifier (numeric id) = IsU32 id
IsIdentifier (string s) = IsStr s
IsIdentifier (guid bs) = length bs ≡ 16
IsIdentifier (opaque len bs) = (len ≡ length bs) × (len ≤ 16)
IsIdentifier (unknown t) = ⊥

abbrev pub IsNodeId : NodeId → Type 0
IsNodeId id = IsU16 id.namespace_index × IsIdentifier id.identifier

-- What follows the encoding byte: the TwoByte, FourByte and Numeric formats for numbers.
abbrev pub identifier_format : ℕ → Identifier → List ℕ
identifier_format ns (numeric id) =
    if ns == 0 && leb id 255
    then id ∷ []
    else if leb ns 255 && leb id 65535
    then ns ∷ le_u16 id
    else le_u16 ns ++ le_u32 id
identifier_format ns (string s) = le_u16 ns ++ str_format s
identifier_format ns (guid bs) = le_u16 ns ++ bs
identifier_format ns (opaque len bs) = le_u16 ns ++ (le_u32 len ++ bs)
identifier_format ns (unknown t) = []

abbrev pub IsQualifiedName : QualifiedName → Type 0
IsQualifiedName q = IsU16 q.namespace_index × IsStr q.name

abbrev pub qualified_name_format : QualifiedName → List ℕ
qualified_name_format q = le_u16 q.namespace_index ++ str_format q.name
