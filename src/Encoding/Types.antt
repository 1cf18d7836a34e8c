-- ===== src/Encoding/Types.antt =====
-- include/muc_opcua/types.h: the built-in types of the wire.
use muc_opcua.Common.{ℕ, List, Option, none}

-- `opcua_int32_t` and the other signed types are their bit patterns: -1 is 0xffffffff.
abbrev pub int32_minus_one : ℕ
int32_minus_one = 0xffffffff

abbrev pub int32_min : ℕ
int32_min = 0x80000000

-- `mu_string_t` and `mu_bytestring_t`: `length` is an int32 pattern, `bytes` what `data` points at
-- (`none` for NULL).
pub record Str : Type 0 where
  pub length : ℕ
  pub bytes : Option (List ℕ)

abbrev pub null_str : Str
null_str = record { length = int32_minus_one; bytes = none }

-- The union of `mu_nodeid_t` with its tag; `unknown` is a tag outside the enumeration.
pub data Identifier : Type 0 where
  numeric : ℕ → Identifier
  string : Str → Identifier
  guid : List ℕ → Identifier
  opaque : ℕ → List ℕ → Identifier
  unknown : ℕ → Identifier

pub record NodeId : Type 0 where
  pub namespace_index : ℕ
  pub identifier : Identifier

pub record ExpandedNodeId : Type 0 where
  pub node_id : NodeId
  pub namespace_uri : Str
  pub server_index : ℕ

pub record QualifiedName : Type 0 where
  pub namespace_index : ℕ
  pub name : Str

pub record LocalizedText : Type 0 where
  pub locale : Str
  pub text : Str

-- A double is its 64-bit pattern.
pub record Range : Type 0 where
  pub low : ℕ
  pub high : ℕ

pub record EuInformation : Type 0 where
  pub namespace_uri : Str
  pub unit_id : ℕ
  pub display_name : LocalizedText
  pub description : LocalizedText

pub record UsernameIdentityToken : Type 0 where
  pub policy_id : Str
  pub username : Str
  pub password : Str
  pub encryption_algorithm : Str

pub record CertificateIdentityToken : Type 0 where
  pub policy_id : Str
  pub certificate_data : Str
