-- ===== src/Encoding/Expanded.antt =====
-- Reading and writing an ExpandedNodeId: the flags share the encoding byte with the format.
use muc_opcua.Common.{
  ℕ, zero, suc, ◌≤◌, ◌≡◌, ap, ◌∙◌, List, [], ◌∷◌, ◌++◌, Option, none, some, Bool, true, false, not,
  inl, inr, arith, Bool-cases, ◌==◌, ◌/=◌, bit_and, bit_or, ==→eq, if◌then◌else◌, get_or, lt→leb,
  Holds,
}
use muc_opcua.Encoding.Le.{le_u32}
use muc_opcua.Encoding.State.{pure}
use muc_opcua.Encoding.Types.{
  Str, null_str, Identifier, numeric, string, guid, opaque, unknown, ExpandedNodeId,
}
use muc_opcua.Encoding.Reader.{contents, is_null}
use muc_opcua.Encoding.Writer.{write_byte, write_uint32}
use muc_opcua.Encoding.Text.{write_string}
use muc_opcua.Encoding.NodeIds.{
  read_nodeid, write_identifier, format_of, read_namespace_uri, read_server_index,
  read_expanded_fields, read_expanded_nodeid, has_uri, uri_flag, index_flag, write_expanded_nodeid,
}
use muc_opcua.Encoding.Format.{
  IsU32, IsStrOf, IsStr, IsIdentifier, IsNodeId, str_format_of, identifier_format,
}
use muc_opcua.Encoding.Calculus.{
  Reads, Writes, Reads-pure, Reads-bind, Reads-map, Writes-pure, Writes-bind,
}
use muc_opcua.Encoding.Words.{Reads-uint32, Writes-byte, Writes-uint32}
use muc_opcua.Encoding.Strings.{Reads-string, Writes-string}
use muc_opcua.Encoding.Identifiers.{known, Reads-nodeid_masked, Writes-identifier}

abbrev flagged : ℕ → Bool → Bool → ℕ
flagged k u x = bit_or (bit_or k (if u then 0x80 else 0)) (if x then 0 else 0x40)

-- The three parts of the encoding byte can be told apart.
flags :
    (k : ℕ) (u x : Bool)
    → k ≤ 5
    → (bit_and (flagged k u x) 0x0f ≡ k)
      × ((bit_and (flagged k u x) 0x80 /= 0) ≡ u)
      × ((bit_and (flagged k u x) 0x40 /= 0) ≡ not x)
flags zero u x h = ground arith
flags (suc zero) u x h = ground arith
flags (suc (suc zero)) u x h = ground arith
flags (suc (suc (suc zero))) u x h = ground arith
flags (suc (suc (suc (suc zero)))) u x h = ground arith
flags (suc (suc (suc (suc (suc zero))))) u x h = ground arith
flags (suc (suc (suc (suc (suc (suc k)))))) u x h = absurd (omega arith)

format_of-le : (ns : ℕ) (i : Identifier) → IsIdentifier i → format_of ns i ≤ 5
format_of-le ns (numeric id) h = ground arith
format_of-le ns (string s) h = omega arith
format_of-le ns (guid bs) h = omega arith
format_of-le ns (opaque len bs) h = omega arith
format_of-le ns (unknown t) h = absurd h

abbrev pub IsExpandedNodeId : ExpandedNodeId → Type 0
IsExpandedNodeId x = IsNodeId x.node_id × IsStr x.namespace_uri × IsU32 x.server_index

abbrev pub uri_format_of : ℕ → Option (List ℕ) → List ℕ
uri_format_of n none = []
uri_format_of n (some bs) = str_format_of n (some bs)

abbrev pub index_format : ℕ → List ℕ
index_format index = if index == 0 then [] else le_u32 index

-- The NodeId with the flags in its encoding byte, then the fields that they announce.
unfoldable pub expanded_format : ExpandedNodeId → List ℕ
expanded_format x =
    bit_or (bit_or (format_of id.namespace_index id.identifier) (uri_flag x.namespace_uri))
      (index_flag x.server_index)
    ∷ (identifier_format id.namespace_index id.identifier
        ++ (uri_format_of x.namespace_uri.length x.namespace_uri.bytes
            ++ index_format x.server_index))
  where
    open x use {node_id as id}

abbrev str : ℕ → Option (List ℕ) → Str
str n o = record { length = n; bytes = o }

no_uri : (n : ℕ) → IsStrOf n none → has_uri (str n none) ≡ false
no_uri n h = ground arith

some_uri : (n : ℕ) (bs : List ℕ) → IsStrOf n (some bs) → has_uri (str n (some bs)) ≡ true
some_uri n bs h = ground arith

Reads-uri :
    (mask n : ℕ) (o : Option (List ℕ))
    → (bit_and mask 0x80 /= 0) ≡ has_uri (str n o)
    → IsStrOf n o
    → Reads (read_namespace_uri mask) (uri_format_of n o) (str n o)
unfolding read_namespace_uri
Reads-uri mask n none e h = rw (e ∙ no_uri n h, h) (Reads-pure null_str)
Reads-uri mask n (some bs) e h = rw (e ∙ some_uri n bs h) (Reads-string (str n (some bs)) h)

Writes-uri :
    (n : ℕ) (o : Option (List ℕ))
    → IsStrOf n o
    → Writes (if has_uri (str n o) then write_string (str n o) else pure tt) (uri_format_of n o)
Writes-uri n none h = rw (no_uri n h) Writes-pure
Writes-uri n (some bs) h = rw (some_uri n bs h) (Writes-string (str n (some bs)) h)

Reads-index :
    (mask index : ℕ)
    → (bit_and mask 0x40 /= 0) ≡ not (index == 0)
    → IsU32 index
    → Reads (read_server_index mask) (index_format index) index
unfolding read_server_index
Reads-index mask index e h = elim (Bool-cases (index == 0)) [
  | inl z ↦ rw (e ∙ ap not z, z) (rw (==→eq index 0 z) (Reads-pure 0))
  | inr nz ↦ rw (e ∙ ap not nz, nz) (Reads-uint32 index h)
]

Writes-index :
    (index : ℕ) → Writes (if index == 0 then pure tt else write_uint32 index) (index_format index)
Writes-index index = elim (Bool-cases (index == 0)) [
  | inl e ↦ rw e Writes-pure
  | inr e ↦ rw e (Writes-uint32 index)
]

Reads-expanded_fields :
    (x : ExpandedNodeId)
    → IsExpandedNodeId x
    → let mask =
        flagged
          (format_of x.node_id.namespace_index x.node_id.identifier)
          (has_uri x.namespace_uri)
          (x.server_index == 0) in
      Reads (read_expanded_fields mask) (expanded_format x) x
unfolding read_expanded_fields expanded_format
Reads-expanded_fields x (hid, hs, hi) =
    let ns : ℕ = x.node_id.namespace_index in
    let i : Identifier = x.node_id.identifier in
    let k : ℕ = format_of ns i in
    let mask : ℕ = flagged k (has_uri x.namespace_uri) (x.server_index == 0) in
    let (low, hu, hx) =
      flags k (has_uri x.namespace_uri) (x.server_index == 0) (format_of-le ns i hid.1) in
    Reads-bind read_nodeid _ (mask ∷ identifier_format ns i) _ x.node_id x
      (Reads-nodeid_masked mask ns i low hid.0 hid.1)
      (Reads-bind (read_namespace_uri mask) _ _ (index_format x.server_index) x.namespace_uri x
        (Reads-uri mask x.namespace_uri.length x.namespace_uri.bytes hu hs)
        (Reads-map (read_server_index mask) _ (index_format x.server_index) x.server_index
          (Reads-index mask x.server_index hx hi)))

mask_ahead :
    (x : ExpandedNodeId) (buf : List ℕ) (p : ℕ)
    → Holds buf p (expanded_format x)
    → get_or buf p 0
      ≡ flagged
          (format_of x.node_id.namespace_index x.node_id.identifier)
          (has_uri x.namespace_uri)
          (x.server_index == 0)
unfolding expanded_format
mask_ahead x buf p h = h.0

-- The reader looks at the encoding byte before it reads the NodeId.
pub Reads-expanded_nodeid :
    (x : ExpandedNodeId) → IsExpandedNodeId x → Reads read_expanded_nodeid (expanded_format x) x
unfolding read_expanded_nodeid
Reads-expanded_nodeid x h buf r eb es fits hs =
    rw (ap is_null eb, lt→leb r.length r.position (unfold expanded_format in omega arith))
      (rw (ap (λ o. get_or (contents o) r.position 0) eb ∙ mask_ahead x buf r.position hs)
        (Reads-expanded_fields x h buf r eb es fits hs))

pub Writes-expanded_nodeid :
    (x : ExpandedNodeId) → IsExpandedNodeId x → Writes (write_expanded_nodeid x) (expanded_format x)
unfolding write_expanded_nodeid expanded_format
Writes-expanded_nodeid x (hid, hs, hi) =
    let ns : ℕ = x.node_id.namespace_index in
    let i : Identifier = x.node_id.identifier in
    rw (known i hid.1) (
      Writes-bind (write_byte _) _ (_ ∷ []) _ (Writes-byte _) (
        Writes-bind (write_identifier ns i) _ (identifier_format ns i) _
          (Writes-identifier ns i hid.1)
          (Writes-bind _ _ (uri_format_of x.namespace_uri.length x.namespace_uri.bytes)
            (index_format x.server_index)
            (Writes-uri x.namespace_uri.length x.namespace_uri.bytes hs)
            (Writes-index x.server_index))))
