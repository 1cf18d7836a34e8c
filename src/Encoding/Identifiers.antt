-- ===== src/Encoding/Identifiers.antt =====
-- Reading and writing a NodeId and a QualifiedName, by the calculus.
use muc_opcua.Common.{
  ℕ, ◌≤◌, ◌^◌, ◌%◌, ◌≡◌, refl, sym, List, [], ◌∷◌, ◌++◌, true, inl, inr, arith, length, take_all,
  Bool-cases, leb, ◌==◌, ◌&&◌, bit_and, lt→leb, le→ltb,
}
use muc_opcua.Encoding.Le.{le_u16, le_u32}
use muc_opcua.Encoding.State.{M, ◌>>=◌, pure}
use muc_opcua.Encoding.Types.{
  Identifier, numeric, string, guid, opaque, unknown, NodeId, QualifiedName, int32_min,
}
use muc_opcua.Encoding.Reader.{Reader, read_byte, read_uint16, read_uint32, read_int32}
use muc_opcua.Encoding.Writer.{write_byte, write_uint16, write_uint32, write_int32}
use muc_opcua.Encoding.Text.{read_string, write_string}
use muc_opcua.Encoding.NodeIds.{
  read_bytes, write_bytes, read_two_byte, read_four_byte, read_numeric, read_string_id, read_guid,
  read_opaque_payload, read_opaque, read_format, read_nodeid, write_numeric, write_identifier,
  format_of, is_known, numeric_format, write_nodeid, read_qualified_name, write_qualified_name,
}
use muc_opcua.Encoding.Format.{
  IsU16, IsU32, IsIdentifier, IsNodeId, str_format, identifier_format, IsQualifiedName,
  qualified_name_format,
}
use muc_opcua.Encoding.Calculus.{
  Reads, Writes, Reads-pure, Reads-bind, Reads-map, Writes-pure, Writes-bind,
}
use muc_opcua.Encoding.Words.{
  Reads-byte, Reads-uint16, Reads-uint32, Reads-int32, Writes-byte, Writes-uint16, Writes-uint32,
  Writes-int32,
}
use muc_opcua.Encoding.Strings.{Reads-string, Writes-string}

abbrev pub node : ℕ → Identifier → NodeId
node ns i = record { namespace_index = ns; identifier = i }

Reads-bytes : (bs : List ℕ) → Reads (read_bytes (length bs)) bs bs
unfolding read_bytes
Reads-bytes [] = Reads-pure []
Reads-bytes (b ∷ bs) =
    Reads-bind read_byte _ (b ∷ []) bs b (b ∷ bs) (Reads-byte b)
      (Reads-map (read_bytes (length bs)) (λ cs. b ∷ cs) bs bs (Reads-bytes bs))

Reads-bytes_of : (n : ℕ) (bs : List ℕ) → n ≡ length bs → Reads (read_bytes n) bs bs
Reads-bytes_of n bs e = rw e (Reads-bytes bs)

Writes-bytes : (bs : List ℕ) → Writes (write_bytes bs) bs
unfolding write_bytes
Writes-bytes [] = Writes-pure
Writes-bytes (b ∷ bs) =
    Writes-bind (write_byte b) (write_bytes bs) (b ∷ []) bs (Writes-byte b) (Writes-bytes bs)

-- A namespace index, and an identifier read behind it.
Reads-after_ns :
    {A : Type 0} (m : M Reader A) (f : A → Identifier) (ns : ℕ) (bs : List ℕ) (a : A)
    → IsU16 ns
    → Reads m bs a
    → Reads (read_uint16 >>= λ n. m >>= λ x. pure (node n (f x))) (le_u16 ns ++ bs) (node ns (f a))
Reads-after_ns m f ns bs a h hm =
    Reads-bind read_uint16 _ (le_u16 ns) bs ns (node ns (f a)) (Reads-uint16 ns h)
      (Reads-map m (λ x. node ns (f x)) bs a hm)

Reads-opaque_payload :
    (ns len : ℕ) (bs : List ℕ)
    → len ≡ length bs
    → len ≤ 16
    → Reads (read_opaque_payload ns len) bs (node ns (opaque len bs))
unfolding read_opaque_payload
Reads-opaque_payload ns len bs e h =
    rw (lt→leb int32_min len (omega arith), le→ltb 16 len h)
      (Reads-map (read_bytes len) (λ cs. node ns (opaque len cs)) bs bs (Reads-bytes_of len bs e))

Reads-numeric :
    (ns id : ℕ)
    → IsU16 ns
    → IsU32 id
    → Reads
        (read_format (numeric_format ns id))
        (identifier_format ns (numeric id))
        (node ns (numeric id))
unfolding read_format read_two_byte read_four_byte read_numeric
Reads-numeric ns id hns hid = elim (Bool-cases (ns == 0 && leb id 255)) [
  | inl e ↦ rw e (
      let z : ns ≡ 0 = ground arith in
      rw z (Reads-map read_byte (λ i. node 0 (numeric i)) (id ∷ []) id (Reads-byte id)))
  | inr e ↦ rw e (elim (Bool-cases (leb ns 255 && leb id 65535)) [
    | inl e' ↦ rw e' (
        Reads-bind read_byte _ (ns ∷ []) (le_u16 id) ns (node ns (numeric id)) (Reads-byte ns) (
          Reads-map read_uint16 (λ i. node ns (numeric i)) (le_u16 id) id
            (Reads-uint16 id (ground arith))))
    | inr e' ↦
        rw e' (Reads-after_ns read_uint32 numeric ns (le_u32 id) id hns (Reads-uint32 id hid))
  ])
]

-- The format that the writer picks is the one that the reader selects.
pub Reads-identifier :
    (ns : ℕ) (i : Identifier)
    → IsU16 ns
    → IsIdentifier i
    → Reads (read_format (format_of ns i)) (identifier_format ns i) (node ns i)
unfolding read_format read_string_id read_guid read_opaque
Reads-identifier ns (numeric id) hns h = Reads-numeric ns id hns h
Reads-identifier ns (string s) hns h =
    Reads-after_ns read_string string ns (str_format s) s hns (Reads-string s h)
Reads-identifier ns (guid bs) hns h =
    Reads-after_ns (read_bytes 16) guid ns bs bs hns (Reads-bytes_of 16 bs (sym h))
Reads-identifier ns (opaque len bs) hns (e, small) =
    Reads-bind read_uint16 _ (le_u16 ns) (le_u32 len ++ bs) ns _ (Reads-uint16 ns hns) (
      Reads-bind read_int32 _ (le_u32 len) bs len _ (Reads-int32 len (omega arith))
        (Reads-opaque_payload ns len bs e small))
Reads-identifier ns (unknown t) hns h = absurd h

Writes-numeric :
    (ns id : ℕ)
    → Writes (write_numeric (numeric_format ns id) ns id) (identifier_format ns (numeric id))
unfolding write_numeric
Writes-numeric ns id = elim (Bool-cases (ns == 0 && leb id 255)) [
  | inl e ↦ rw e (let m : id % 2 ^ 8 ≡ id = ground arith in rw m (Writes-byte id))
  | inr e ↦ rw e (elim (Bool-cases (leb ns 255 && leb id 65535)) [
    | inl e' ↦ rw e' (
        let m : id % 2 ^ 16 ≡ id = ground arith in
        let k : ns % 2 ^ 8 ≡ ns = ground arith in
        rw (m, k)
          (Writes-bind (write_byte ns) (write_uint16 id) (ns ∷ []) (le_u16 id) (Writes-byte ns)
            (Writes-uint16 id)))
    | inr e' ↦ rw e' (
        Writes-bind (write_uint16 ns) (write_uint32 id) (le_u16 ns) (le_u32 id) (Writes-uint16 ns)
          (Writes-uint32 id))
  ])
]

pub Writes-identifier :
    (ns : ℕ) (i : Identifier)
    → IsIdentifier i
    → Writes (write_identifier ns i) (identifier_format ns i)
unfolding write_identifier
Writes-identifier ns (numeric id) h = Writes-numeric ns id
Writes-identifier ns (string s) h =
    Writes-bind (write_uint16 ns) (write_string s) (le_u16 ns) (str_format s) (Writes-uint16 ns)
      (Writes-string s h)
Writes-identifier ns (guid bs) h =
    Writes-bind (write_uint16 ns) (write_bytes bs) (le_u16 ns) bs (Writes-uint16 ns)
      (Writes-bytes bs)
Writes-identifier ns (opaque len bs) (e, small) = rw (take_all bs len e) (
    Writes-bind (write_uint16 ns) _ (le_u16 ns) (le_u32 len ++ bs) (Writes-uint16 ns) (
      Writes-bind (write_int32 len) (write_bytes bs) (le_u32 len) bs (Writes-int32 len)
        (Writes-bytes bs)))
Writes-identifier ns (unknown t) h = absurd h

-- The encoding byte, and what follows it.
unfoldable pub nodeid_format : NodeId → List ℕ
nodeid_format id =
    format_of id.namespace_index id.identifier ∷ identifier_format id.namespace_index id.identifier

format_low_bits : (ns : ℕ) (i : Identifier) → bit_and (format_of ns i) 0x0f ≡ format_of ns i
format_low_bits ns (numeric id) = ground arith
format_low_bits ns (string s) = refl
format_low_bits ns (guid bs) = refl
format_low_bits ns (opaque len bs) = refl
format_low_bits ns (unknown t) = refl

-- Any encoding byte whose low digit is the format will do.
pub Reads-nodeid_masked :
    (mask ns : ℕ) (i : Identifier)
    → bit_and mask 0x0f ≡ format_of ns i
    → IsU16 ns
    → IsIdentifier i
    → Reads read_nodeid (mask ∷ identifier_format ns i) (node ns i)
unfolding read_nodeid
Reads-nodeid_masked mask ns i e hns h =
    Reads-bind read_byte _ (mask ∷ []) (identifier_format ns i) mask (node ns i) (Reads-byte mask)
      (rw e (Reads-identifier ns i hns h))

pub Reads-nodeid : (id : NodeId) → IsNodeId id → Reads read_nodeid (nodeid_format id) id
unfolding nodeid_format
Reads-nodeid id (hns, h) =
    Reads-nodeid_masked _ id.namespace_index id.identifier
      (format_low_bits id.namespace_index id.identifier) hns h

pub known : (i : Identifier) → IsIdentifier i → is_known i ≡ true
known (numeric id) h = refl
known (string s) h = refl
known (guid bs) h = refl
known (opaque len bs) h = refl
known (unknown t) h = absurd h

pub Writes-nodeid : (id : NodeId) → IsNodeId id → Writes (write_nodeid id) (nodeid_format id)
unfolding write_nodeid nodeid_format
Writes-nodeid id (hns, h) = rw (known id.identifier h) (
    Writes-bind (write_byte _) (write_identifier id.namespace_index id.identifier)
      (format_of id.namespace_index id.identifier ∷ []) _ (Writes-byte _)
      (Writes-identifier id.namespace_index id.identifier h))

pub Reads-qualified_name :
    (q : QualifiedName) → IsQualifiedName q → Reads read_qualified_name (qualified_name_format q) q
unfolding read_qualified_name
Reads-qualified_name q (hns, h) =
    Reads-bind read_uint16 _ (le_u16 q.namespace_index) (str_format q.name) q.namespace_index q
      (Reads-uint16 q.namespace_index hns)
      (Reads-map read_string (λ s. record { namespace_index = q.namespace_index; name = s })
        (str_format q.name) q.name (Reads-string q.name h))

pub Writes-qualified_name :
    (q : QualifiedName)
    → IsQualifiedName q
    → Writes (write_qualified_name q) (qualified_name_format q)
unfolding write_qualified_name
Writes-qualified_name q (hns, h) =
    Writes-bind (write_uint16 q.namespace_index) (write_string q.name) (le_u16 q.namespace_index) _
      (Writes-uint16 q.namespace_index) (Writes-string q.name h)
