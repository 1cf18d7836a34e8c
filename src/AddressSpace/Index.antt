-- ===== src/AddressSpace/Index.antt =====
-- src/address_space/node_id.c: the index over the nodes and the lookups; address_space.c: the
-- validation. A result `none` is a read outside an array, or a loop that has not ended.
mod Insert
mod Build
mod Sorted
pub mod Search
mod Held
mod Lookup
pub mod Agreement
pub mod Rebuilt
pub mod Direct
use Prim.Native.Nat.{Ordering}
use muc_opcua.Common.{
  ℕ, zero, suc, ◌+◌, ◌-◌, ◌/◌, ◌%◌, ◌^◌, List, [], ◌∷◌, Option, none, some, Bool, true, false, not,
  ◌||◌, ◌&&◌, ltb, ◌==◌, ◌/=◌, if◌then◌else◌, length, get_elem?, set,
}
use muc_opcua.Encoding.Types.{NodeId}
use muc_opcua.AddressSpace.{compare_direct, nodeid_equal, not_gt}

-- `mu_address_space_index_t`; `built_for` is the address of an address space, 0 for NULL.
pub record Index : Type 0 where
  pub order : List ℕ
  pub count : ℕ
  pub indexed : Bool
  pub built_for : ℕ
  pub built_count : ℕ

-- `mu_address_space_t` at its address, with the NodeIds of its nodes.
pub record AddressSpace : Type 0 where
  pub address : ℕ
  pub nodes : List NodeId

-- `nodes[place]`, and its place.
abbrev pub node_direct : List NodeId → ℕ → Option (ℕ × NodeId)
node_direct nodes place = elim (get_elem? nodes place) [ none ↦ none | some id ↦ some (place, id) ]

-- `nodes[order[position]]`.
abbrev pub read_place : List NodeId → Option ℕ → Option (ℕ × NodeId)
read_place nodes none = none
read_place nodes (some place) = node_direct nodes place

abbrev pub node_at : List NodeId → List ℕ → ℕ → Option (ℕ × NodeId)
node_at nodes order position = read_place nodes (get_elem? order position)

-- The inner loop of `mu_address_space_rebuild_index`, and the write that follows it.
unfoldable pub insert_node : List NodeId → ℕ → NodeId → ℕ → List ℕ → Option (List ℕ)
insert_node nodes i current zero order = some (set order 0 (i % 2 ^ 16))
insert_node nodes i current (suc position) order = elim (node_at nodes order position) [
  | none ↦ none
  | some (place, previous) ↦
      let rest = insert_node nodes i current position (set order (suc position) place) in
      if not_gt (compare_direct previous current)
      then some (set order (suc position) (i % 2 ^ 16))
      else rest
]

-- The outer loop, over the nodes from `i` on.
unfoldable pub index_nodes : List NodeId → ℕ → List NodeId → Index → Option Index
index_nodes nodes i [] index = some index
index_nodes nodes i (current ∷ todo) index =
    elim (insert_node nodes i current index.count index.order) [
      | none ↦ none
      | some order ↦
          index_nodes nodes (suc i) todo (record index { order = order; count = suc index.count })
    ]

-- The fields that are reset before the bound on the number of nodes is checked.
abbrev pub reset_index : AddressSpace → Index → Index
reset_index space index = record index {
  built_for = space.address;
  built_count = length space.nodes;
  count = 0;
  indexed = false;
}

-- `max_nodes` is MU_INTERN_MAX_ADDRESS_SPACE_NODES.
unfoldable pub rebuild_index : ℕ → AddressSpace → Index → Option Index
rebuild_index max_nodes space index =
    if ltb max_nodes (length space.nodes) || ltb 65535 (length space.nodes)
    then some (reset_index space index)
    else index_nodes space.nodes 0 space.nodes (record (reset_index space index) { indexed = true })

-- The nodes from place `i` on.
unfoldable pub find_from : ℕ → List NodeId → NodeId → Option ℕ
find_from i [] id = none
find_from i (node ∷ nodes) id =
    let rest = find_from (suc i) nodes id in if nodeid_equal node id then some i else rest

abbrev pub find_linear : List NodeId → NodeId → Option ℕ
find_linear nodes id = find_from 0 nodes id

-- The binary search over what `at` reads, for `fuel` rounds at most.
unfoldable pub find_binary : (ℕ → Option (ℕ × NodeId)) → NodeId → ℕ → ℕ → ℕ → Option (Option ℕ)
find_binary at id zero left right = none
find_binary at id (suc fuel) left right =
    let mid = left + (right - left) / 2 in
    elim (ltb left right) [
      | false ↦ some none
      | true ↦ elim (at mid) [
        | none ↦ none
        | some (place, node) ↦ elim (compare_direct node id) [
          | Ordering.lt ↦ find_binary at id fuel (mid + 1) right
          | Ordering.gt ↦ find_binary at id fuel left mid
          | Ordering.eq ↦ some (some place)
        ]
      ]
    ]

unfoldable pub find_indexed : AddressSpace → Index → NodeId → Option (Option ℕ)
find_indexed space index id =
    find_binary (node_at space.nodes index.order) id (suc index.count) 0 index.count

unfoldable pub find_binary_direct : AddressSpace → NodeId → Option (Option ℕ)
find_binary_direct space id =
    find_binary (node_direct space.nodes) id (suc (length space.nodes)) 0 (length space.nodes)

-- `node != NULL ? node : mu_address_space_find_node_linear(address_space, node_id)`.
abbrev pub or_linear : List NodeId → NodeId → Option (Option ℕ) → Option (Option ℕ)
or_linear nodes id none = none
or_linear nodes id (some none) = some (find_linear nodes id)
or_linear nodes id (some (some place)) = some (some place)

-- `mu_address_space_find_node` without an index; `base` is the address of the base address space.
unfoldable pub find_node_direct : ℕ → AddressSpace → NodeId → Option (Option ℕ)
find_node_direct base space id =
    if space.address == base
    then or_linear space.nodes id (find_binary_direct space id)
    else some (find_linear space.nodes id)

-- The rebuild where the index stands for another array.
abbrev pub fresh_index : ℕ → AddressSpace → Index → Option Index
fresh_index max_nodes space index =
    if index.built_for /= space.address || index.built_count /= length space.nodes
    then rebuild_index max_nodes space index
    else some index

-- What was found, with the index for the next lookup.
abbrev pub with_index : Index → Option (Option ℕ) → Option (Index × Option ℕ)
with_index index none = none
with_index index (some found) = some (index, found)

abbrev pub find_fresh : AddressSpace → NodeId → Option Index → Option (Index × Option ℕ)
find_fresh space id none = none
find_fresh space id (some index) =
    with_index index
      (if index.indexed then find_indexed space index id else some (find_linear space.nodes id))

-- `mu_address_space_find_node` with an index, which it returns.
unfoldable pub find_node_indexed : ℕ → AddressSpace → Index → NodeId → Option (Index × Option ℕ)
find_node_indexed max_nodes space index id = find_fresh space id (fresh_index max_nodes space index)

-- The search for duplicates of `mu_address_space_validate`: true where one is found.
unfoldable pub occurs : NodeId → List NodeId → Bool
occurs id [] = false
occurs id (node ∷ nodes) = nodeid_equal id node || occurs id nodes

unfoldable pub has_duplicate : List NodeId → Bool
has_duplicate [] = false
has_duplicate (node ∷ nodes) = occurs node nodes || has_duplicate nodes
