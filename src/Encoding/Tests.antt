-- ===== src/Encoding/Tests.antt =====
-- The codec's theorems at concrete values.
use muc_opcua.Common.{ℕ, zero, suc, refl, List, [], ◌∷◌, some, arith, replicate}
use muc_opcua.Encoding.Types.{Str, NodeId, numeric, string, ExpandedNodeId}
use muc_opcua.Encoding.Le.{le_u16, le_u32}
use muc_opcua.Encoding.Reader.{Reader, reader_init}
use muc_opcua.Encoding.Writer.{Writer, writer_init}
use muc_opcua.Encoding.NodeIds.{
  read_nodeid, write_nodeid, read_expanded_nodeid, write_expanded_nodeid,
}
use muc_opcua.Encoding.Composite.{read_eu_information, read_username_identity_token}
use muc_opcua.Encoding.Extension.{skip_extension_object}
use muc_opcua.Encoding.Identifiers.{nodeid_format}
use muc_opcua.Encoding.Expanded.{expanded_format}
use muc_opcua.Encoding.Confined.{Agree, Same}
use muc_opcua.Encoding.Confined.Span.{decoders_confined, swap}
use muc_opcua.Encoding.RoundTrip.{ReadsBack, nodeid_roundtrip, expanded_nodeid_roundtrip}

abbrev memory : List ℕ
memory = replicate 64 0

-- A writer in the middle of a message.
abbrev writer : Writer
writer = record (writer_init (some memory) 64) { position = 5 }

abbrev name : Str
name = record { length = 3; bytes = some (112 ∷ 105 ∷ 100 ∷ []) }

abbrev named_node : NodeId
named_node = record { namespace_index = 300; identifier = string name }

nodeid_roundtrip_example :
    ReadsBack (write_nodeid named_node) read_nodeid named_node writer (nodeid_format named_node)
unfolding le_u16 le_u32 nodeid_format
nodeid_roundtrip_example =
    nodeid_roundtrip named_node writer memory (omega arith, (refl, omega arith))
      (record { memory = refl; healthy = refl; room = omega arith; backed = omega arith })

abbrev remote_node : ExpandedNodeId
remote_node = record {
  node_id = record { namespace_index = 0; identifier = numeric 85 };
  namespace_uri = name;
  server_index = 7;
}

expanded_nodeid_roundtrip_example :
    ReadsBack
      (write_expanded_nodeid remote_node)
      read_expanded_nodeid
      remote_node
      writer
      (expanded_format remote_node)
unfolding le_u16 le_u32 expanded_format
expanded_nodeid_roundtrip_example =
    expanded_nodeid_roundtrip remote_node writer memory
      ((omega arith, omega arith), (refl, omega arith), omega arith)
      (record { memory = refl; healthy = refl; room = omega arith; backed = omega arith })

-- A NodeId in the two-byte format, and behind the reader's two bytes different memory.
abbrev received : List ℕ
received = 0 ∷ 85 ∷ 1 ∷ []

abbrev stale : List ℕ
stale = 0 ∷ 85 ∷ 9 ∷ 9 ∷ []

received-Agree : Agree 2 received stale
received-Agree zero h = refl
received-Agree (suc zero) h = refl
received-Agree (suc (suc i)) h = absurd (omega arith)

abbrev message : Reader
message = reader_init (some received) 2

decoders_confined_example :
    Same 2 received stale (read_nodeid message) (read_nodeid (swap message stale))
    × Same 2 received stale
        (read_expanded_nodeid message)
        (read_expanded_nodeid (swap message stale))
    × Same 2 received stale (read_eu_information message) (read_eu_information (swap message stale))
    × Same 2 received stale
        (read_username_identity_token message)
        (read_username_identity_token (swap message stale))
    × Same 2 received stale
        (skip_extension_object message)
        (skip_extension_object (swap message stale))
decoders_confined_example =
    decoders_confined message received stale refl (omega arith) received-Agree
