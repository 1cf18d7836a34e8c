-- ===== src/AddressSpace.antt =====
-- src/address_space/node_id.c: the order of NodeIds, the index over the nodes, and the lookups. A
-- node stands for its NodeId, and a pointer to a node for its place in the array.
mod Key
mod Equal
pub mod Order
pub mod Total
pub mod Index
mod Tests
use Prim.Native.Nat.{compare, Ordering}
use muc_opcua.Common.{
  ℕ, zero, suc, ◌+◌, ◌-◌, ◌/◌, ◌%◌, ◌^◌, List, [], ◌∷◌, Option, none, some, Bool, true, false, not,
  ◌||◌, ◌&&◌, ltb, leb, ◌==◌, ◌/=◌, ◌<◌, if◌then◌else◌, length, get_elem?, get_or, set, take,
}
use muc_opcua.Encoding.Types.{
  Str, int32_min, Identifier, numeric, string, guid, opaque, unknown, NodeId,
}

-- `mu_nodeid_type_t`.
abbrev pub identifier_type : Identifier → ℕ
identifier_type (numeric id) = 0
identifier_type (string s) = 1
identifier_type (guid bs) = 2
identifier_type (opaque len bs) = 3
identifier_type (unknown t) = t

-- `if (a < b) return -1; if (a > b) return 1;` and what follows; the result of a comparison counts
-- only by its sign.
abbrev pub and_then : Ordering → Ordering → Ordering
and_then Ordering.lt rest = Ordering.lt
and_then Ordering.eq rest = rest
and_then Ordering.gt rest = Ordering.gt

-- `memcmp` on lists of the same length.
abbrev pub lex : List ℕ → List ℕ → Ordering
lex [] [] = Ordering.eq
lex [] (y ∷ ys) = Ordering.lt
lex (x ∷ xs) [] = Ordering.gt
lex (x ∷ xs) (y ∷ ys) = and_then (compare x y) (lex xs ys)

abbrev pub memcmp : List ℕ → List ℕ → ℕ → Ordering
memcmp xs ys n = lex (take n xs) (take n ys)

-- An int32 pattern as a number with the same order.
abbrev pub biased : ℕ → ℕ
biased n = (n + int32_min) % 2 ^ 32

abbrev pub not_positive : ℕ → Bool
not_positive n = n == 0 || leb int32_min n

-- The data of two strings of the same positive length; NULL is the smallest address.
abbrev pub compare_data : Option (List ℕ) → Option (List ℕ) → ℕ → Ordering
compare_data none none n = Ordering.eq
compare_data none (some ys) n = Ordering.lt
compare_data (some xs) none n = Ordering.gt
compare_data (some xs) (some ys) n = memcmp xs ys n

abbrev pub compare_str : Str → Str → Ordering
compare_str s t =
    and_then (compare (biased s.length) (biased t.length))
      (if not_positive s.length then Ordering.eq else compare_data s.bytes t.bytes s.length)

-- Identifiers of the same type.
abbrev pub compare_identifier : Identifier → Identifier → Ordering
compare_identifier (numeric a) (numeric b) = compare a b
compare_identifier (string s) (string t) = compare_str s t
compare_identifier (guid xs) (guid ys) = memcmp xs ys 16
compare_identifier (opaque m xs) (opaque n ys) =
    and_then (compare m n) (if m == 0 then Ordering.eq else memcmp xs ys m)
compare_identifier _ _ = Ordering.eq

unfoldable pub compare_direct : NodeId → NodeId → Ordering
compare_direct a b = and_then (compare a.namespace_index b.namespace_index) (
    and_then (compare (identifier_type a.identifier) (identifier_type b.identifier))
      (compare_identifier a.identifier b.identifier))

abbrev pub is_eq : Ordering → Bool
is_eq Ordering.lt = false
is_eq Ordering.eq = true
is_eq Ordering.gt = false

-- `<= 0`, of the result of a comparison.
abbrev pub not_gt : Ordering → Bool
not_gt Ordering.lt = true
not_gt Ordering.eq = true
not_gt Ordering.gt = false

abbrev pub equal_data : Option (List ℕ) → Option (List ℕ) → ℕ → Bool
equal_data none none n = true
equal_data none (some ys) n = false
equal_data (some xs) none n = false
equal_data (some xs) (some ys) n = is_eq (memcmp xs ys n)

abbrev pub equal_str : Str → Str → Bool
equal_str s t =
    if s.length /= t.length
    then false
    else if not_positive s.length
    then true
    else equal_data s.bytes t.bytes s.length

abbrev pub equal_identifier : Identifier → Identifier → Bool
equal_identifier (numeric a) (numeric b) = a == b
equal_identifier (string s) (string t) = equal_str s t
equal_identifier (guid xs) (guid ys) = is_eq (memcmp xs ys 16)
equal_identifier (opaque m xs) (opaque n ys) =
    if m /= n then false else if m == 0 then true else is_eq (memcmp xs ys m)
equal_identifier _ _ = false

unfoldable pub nodeid_equal : NodeId → NodeId → Bool
nodeid_equal a b =
    if a.namespace_index /= b.namespace_index
    then false
    else if identifier_type a.identifier /= identifier_type b.identifier
    then false
    else equal_identifier a.identifier b.identifier

unfoldable pub in_namespace : NodeId → ℕ → Bool
in_namespace id namespace_index = id.namespace_index == namespace_index
