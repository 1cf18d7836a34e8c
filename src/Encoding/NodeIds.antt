-- ===== src/Encoding/NodeIds.antt =====
-- src/encoding/binary_nodeid.c: NodeId, ExpandedNodeId and QualifiedName
-- (with MUC_OPCUA_CU_EXTENDED_NODEIDS, the Guid and Opaque formats).
use muc_opcua.Common.{
  ℕ, zero, suc, ◌%◌, ◌^◌, List, [], ◌∷◌, Bool, true, false, not, ◌&&◌, ◌||◌, leb, ltb, ◌==◌, ◌/=◌,
  if◌then◌else◌, bit_and, bit_or, get_or, take,
}
use muc_opcua.Status.{bad_encoding_error, bad_decoding_error}
use muc_opcua.Encoding.State.{fail, M, ◌>>=◌, ◌>>◌, pure, raise}
use muc_opcua.Encoding.Types.{
  Str, null_str, int32_min, Identifier, numeric, string, guid, opaque, unknown, NodeId,
  ExpandedNodeId, QualifiedName,
}
use muc_opcua.Encoding.Reader.{
  Reader, contents, is_null, read_byte, read_uint16, read_int32, read_uint32,
}
use muc_opcua.Encoding.Writer.{Writer, write_byte, write_uint16, write_int32, write_uint32}
use muc_opcua.Encoding.Text.{read_string, write_string}

-- The loops over the bytes of a Guid or Opaque identifier.
unfoldable pub read_bytes : ℕ → M Reader (List ℕ)
read_bytes zero = pure []
read_bytes (suc n) = do b ← read_byte; bs ← read_bytes n; pure (b ∷ bs)

unfoldable pub write_bytes : List ℕ → M Writer (Unit {0})
write_bytes [] = pure tt
write_bytes (b ∷ bs) = write_byte b >> write_bytes bs

abbrev node : ℕ → Identifier → NodeId
node ns i = record { namespace_index = ns; identifier = i }

-- The cases of the switch in mu_binary_read_nodeid.
unfoldable pub read_two_byte : M Reader NodeId
read_two_byte = do id ← read_byte; pure (node 0 (numeric id))

unfoldable pub read_four_byte : M Reader NodeId
read_four_byte = do ns ← read_byte; id ← read_uint16; pure (node ns (numeric id))

unfoldable pub read_numeric : M Reader NodeId
read_numeric = do ns ← read_uint16; id ← read_uint32; pure (node ns (numeric id))

unfoldable pub read_string_id : M Reader NodeId
read_string_id = do ns ← read_uint16; s ← read_string; pure (node ns (string s))

unfoldable pub read_guid : M Reader NodeId
read_guid = do ns ← read_uint16; bs ← read_bytes 16; pure (node ns (guid bs))

unfoldable pub read_opaque_payload : ℕ → ℕ → M Reader NodeId
read_opaque_payload ns len =
    if leb int32_min len || ltb 16 len
    then raise bad_decoding_error
    else (do bs ← read_bytes len; pure (node ns (opaque len bs)))

unfoldable pub read_opaque : M Reader NodeId
read_opaque = do ns ← read_uint16; len ← read_int32; read_opaque_payload ns len

unfoldable pub read_format : ℕ → M Reader NodeId
read_format format =
    if format == 0
    then read_two_byte
    else if format == 1
    then read_four_byte
    else if format == 2
    then read_numeric
    else if format == 3
    then read_string_id
    else if format == 4
    then read_guid
    else if format == 5
    then read_opaque
    else raise bad_decoding_error

unfoldable pub read_nodeid : M Reader NodeId
read_nodeid = do mask ← read_byte; read_format (bit_and mask 0x0f)

-- The shortest format that holds a numeric identifier, as in both writers.
abbrev pub numeric_format : ℕ → ℕ → ℕ
numeric_format ns id =
    if ns == 0 && leb id 255 then 0 else if leb ns 255 && leb id 65535 then 1 else 2

-- What follows the encoding byte.
unfoldable pub write_numeric : ℕ → ℕ → ℕ → M Writer (Unit {0})
write_numeric format ns id =
    if format == 0
    then write_byte (id % 2 ^ 8)
    else if format == 1
    then (write_byte (ns % 2 ^ 8) >> write_uint16 (id % 2 ^ 16))
    else (write_uint16 ns >> write_uint32 id)

unfoldable pub write_identifier : ℕ → Identifier → M Writer (Unit {0})
write_identifier ns (numeric id) = write_numeric (numeric_format ns id) ns id
write_identifier ns (string s) = write_uint16 ns >> write_string s
write_identifier ns (guid bs) = write_uint16 ns >> write_bytes bs
write_identifier ns (opaque len bs) =
    write_uint16 ns >> (write_int32 len >> write_bytes (take len bs))
write_identifier ns (unknown t) = raise bad_encoding_error

abbrev pub format_of : ℕ → Identifier → ℕ
format_of ns (numeric id) = numeric_format ns id
format_of ns (string s) = 3
format_of ns (guid bs) = 4
format_of ns (opaque len bs) = 5
format_of ns (unknown t) = 6

abbrev pub is_known : Identifier → Bool
is_known (unknown t) = false
is_known other = true

unfoldable pub write_nodeid : NodeId → M Writer (Unit {0})
write_nodeid value =
    if is_known value.identifier
    then write_byte (format_of value.namespace_index value.identifier)
      >> write_identifier value.namespace_index value.identifier
    else raise bad_encoding_error

-- The optional fields behind the NodeId of an ExpandedNodeId.
unfoldable pub read_namespace_uri : ℕ → M Reader Str
read_namespace_uri mask = if bit_and mask 0x80 /= 0 then read_string else pure null_str

unfoldable pub read_server_index : ℕ → M Reader ℕ
read_server_index mask = if bit_and mask 0x40 /= 0 then read_uint32 else pure 0

unfoldable pub read_expanded_fields : ℕ → M Reader ExpandedNodeId
read_expanded_fields mask = do
  id ← read_nodeid
  uri ← read_namespace_uri mask
  index ← read_server_index mask
  pure (record { node_id = id; namespace_uri = uri; server_index = index })

unfoldable pub read_expanded_nodeid : M Reader ExpandedNodeId
read_expanded_nodeid r =
    if is_null r.buffer || leb r.length r.position
    then fail bad_decoding_error r
    else read_expanded_fields (get_or (contents r.buffer) r.position 0) r

-- `value->namespace_uri.length >= 0 && value->namespace_uri.data != NULL`
abbrev pub has_uri : Str → Bool
has_uri uri = ltb uri.length int32_min && not (is_null uri.bytes)

abbrev pub uri_flag : Str → ℕ
uri_flag uri = if has_uri uri then 0x80 else 0

abbrev pub index_flag : ℕ → ℕ
index_flag index = if index == 0 then 0 else 0x40

unfoldable pub write_expanded_nodeid : ExpandedNodeId → M Writer (Unit {0})
write_expanded_nodeid value =
    if is_known id.identifier
    then write_byte (
        bit_or (bit_or (format_of id.namespace_index id.identifier) (uri_flag value.namespace_uri))
          (index_flag value.server_index))
      >> (write_identifier id.namespace_index id.identifier
          >> ((if has_uri value.namespace_uri then write_string value.namespace_uri else pure tt)
              >> (if value.server_index == 0 then pure tt else write_uint32 value.server_index)))
    else raise bad_encoding_error
  where
    open value use {node_id as id}

unfoldable pub read_qualified_name : M Reader QualifiedName
read_qualified_name = do
  ns ← read_uint16
  s ← read_string
  pure (record { namespace_index = ns; name = s })

unfoldable pub write_qualified_name : QualifiedName → M Writer (Unit {0})
write_qualified_name value = write_uint16 value.namespace_index >> write_string value.name
