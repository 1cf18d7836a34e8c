-- ===== src/Encoding/RoundTrip.antt =====
-- What a writer stored, a reader over the same bytes gives back.
use muc_opcua.Common.{
  ℕ, ◌+◌, ◌≤◌, ◌≡◌, refl, ap, List, some, length, overwrite, Holds-overwrite, arith,
}
use muc_opcua.Status.{good}
use muc_opcua.Encoding.State.{done, M}
use muc_opcua.Encoding.Types.{NodeId, ExpandedNodeId, QualifiedName, EuInformation}
use muc_opcua.Encoding.Reader.{Reader}
use muc_opcua.Encoding.Writer.{Writer, emit, store}
use muc_opcua.Encoding.NodeIds.{
  read_nodeid, write_nodeid, read_expanded_nodeid, write_expanded_nodeid, read_qualified_name,
  write_qualified_name,
}
use muc_opcua.Encoding.Composite.{read_eu_information, write_eu_information}
use muc_opcua.Encoding.Format.{IsNodeId, IsQualifiedName, qualified_name_format}
use muc_opcua.Encoding.Calculus.{Reads, Writes}
use muc_opcua.Encoding.Identifiers.{
  nodeid_format, Reads-nodeid, Writes-nodeid, Reads-qualified_name, Writes-qualified_name,
}
use muc_opcua.Encoding.Expanded.{
  IsExpandedNodeId, expanded_format, Reads-expanded_nodeid, Writes-expanded_nodeid,
}
use muc_opcua.Encoding.Localized.{
  IsEuInformation, eu_format, Reads-eu_information, Writes-eu_information,
}

-- A writer that has not failed, over real memory, with room for `n` bytes.
pub record HasRoom (w : Writer) (buf : List ℕ) (n : ℕ) : Type 0 where
  pub memory : w.buffer ≡ some buf
  pub healthy : w.status ≡ good
  pub room : w.position + n ≤ w.length
  pub backed : w.length ≤ length buf

-- A fresh reader over the writer's buffer, at the given position.
abbrev pub reopen : Writer → ℕ → Reader
reopen w p = record { buffer = w.buffer; length = w.length; position = p; status = good }

-- `write` succeeds and moves by the length of `bs`; `read`, started where the write started, gives
-- `a` and ends where the write ended.
abbrev pub ReadsBack :
    {A : Type 0} → M Writer (Unit {0}) → M Reader A → A → Writer → List ℕ → Type 0
ReadsBack write read a w bs =
    (w' : Writer) × (write w ≡ done tt w')
    × (w'.position ≡ w.position + length bs)
    × (read (reopen w' w.position) ≡ done a (reopen w' w'.position))

pub roundtrip :
    {A : Type 0} (write : M Writer (Unit {0})) (read : M Reader A) (bs : List ℕ) (a : A)
    (w : Writer) (buf : List ℕ)
    → Writes write bs
    → Reads read bs a
    → HasRoom w buf (length bs)
    → ReadsBack write read a w bs
roundtrip write read bs a w buf hw hr room = (
  emit bs w,
  hw buf w room.memory room.healthy room.room,
  refl,
  hr (overwrite buf w.position bs) (reopen (emit bs w) w.position)
      (ap (λ o. store o w.position bs) room.memory) refl room.room
      (Holds-overwrite buf w.position bs (omega arith)),
)

-- Every well-formed NodeId, in whichever of the six formats the writer picks, is read back as it
-- was written, wherever the writer has room for it; the reader stops exactly behind it.
pub nodeid_roundtrip :
    (id : NodeId) (w : Writer) (buf : List ℕ)
    → IsNodeId id
    → HasRoom w buf (length (nodeid_format id))
    → ReadsBack (write_nodeid id) read_nodeid id w (nodeid_format id)
nodeid_roundtrip id w buf h room =
    roundtrip (write_nodeid id) read_nodeid (nodeid_format id) id w buf (Writes-nodeid id h)
      (Reads-nodeid id h) room

-- Every well-formed ExpandedNodeId is read back with its namespace URI and server index, present
-- or not, and the reader stops exactly behind it.
pub expanded_nodeid_roundtrip :
    (x : ExpandedNodeId) (w : Writer) (buf : List ℕ)
    → IsExpandedNodeId x
    → HasRoom w buf (length (expanded_format x))
    → ReadsBack (write_expanded_nodeid x) read_expanded_nodeid x w (expanded_format x)
expanded_nodeid_roundtrip x w buf h room =
    roundtrip (write_expanded_nodeid x) read_expanded_nodeid (expanded_format x) x w buf
      (Writes-expanded_nodeid x h) (Reads-expanded_nodeid x h) room

-- Every well-formed QualifiedName is read back as it was written, and the reader stops behind it.
pub qualified_name_roundtrip :
    (q : QualifiedName) (w : Writer) (buf : List ℕ)
    → IsQualifiedName q
    → HasRoom w buf (length (qualified_name_format q))
    → ReadsBack (write_qualified_name q) read_qualified_name q w (qualified_name_format q)
qualified_name_roundtrip q w buf h room =
    roundtrip (write_qualified_name q) read_qualified_name (qualified_name_format q) q w buf
      (Writes-qualified_name q h) (Reads-qualified_name q h) room

-- Every well-formed EUInformation is read back with both its localized texts, each with the parts
-- that were present, and the reader stops behind it.
pub eu_information_roundtrip :
    (u : EuInformation) (w : Writer) (buf : List ℕ)
    → IsEuInformation u
    → HasRoom w buf (length (eu_format u))
    → ReadsBack (write_eu_information u) read_eu_information u w (eu_format u)
eu_information_roundtrip u w buf h room =
    roundtrip (write_eu_information u) read_eu_information (eu_format u) u w buf
      (Writes-eu_information u h) (Reads-eu_information u h) room
