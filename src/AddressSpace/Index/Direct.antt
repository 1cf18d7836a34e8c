-- ===== src/AddressSpace/Index/Direct.antt =====
-- Lookups without an index.
use muc_opcua.Common.{
  ℕ, suc, ◌<◌, ◌≡◌, refl, sym, ap, ◌∙◌, List, Option, some, none, Bool, true, false, ◌==◌,
  if◌then◌else◌, get_elem?, length, arith, get_elem?-lt,
}
use muc_opcua.Encoding.Types.{NodeId}
use muc_opcua.Encoding.Format.{IsNodeId}
use muc_opcua.AddressSpace.{compare_direct, is_eq, not_gt}
use muc_opcua.AddressSpace.Index.{
  AddressSpace, node_direct, find_linear, find_binary, find_binary_direct, or_linear,
  find_node_direct,
}
use muc_opcua.AddressSpace.Index.Insert.{node_direct_lem, read_place-direct}
use muc_opcua.AddressSpace.Index.Search.{Table, Found, find_binary-Found}
use muc_opcua.AddressSpace.Index.Lookup.{equal_of_compare, All-get, linear_some}
use muc_opcua.AddressSpace.Index.Agreement.{IsSpace}

direct_reads :
    (nodes : List NodeId) (k place : ℕ) (node : NodeId)
    → node_direct nodes k ≡ some (place, node)
    → get_elem? nodes place ≡ some node
direct_reads nodes k place node e = read_place-direct nodes (some k) place node e

-- The array itself as a table.
direct-Table :
    (S : Type 0) (space : AddressSpace)
    → IsSpace space
    → (S
        → (j k : ℕ) (p q : ℕ × NodeId) → j < k
        → k < length space.nodes
        → node_direct space.nodes j ≡ some p
        → node_direct space.nodes k ≡ some q
        → not_gt (compare_direct p.1 q.1) ≡ true)
    → Table S (node_direct space.nodes) (length space.nodes)
direct-Table S space good sorted = record {
  there = λ k lt.
      let (node, e) = get_elem?-lt space.nodes k lt in
      ((k, node), node_direct_lem space.nodes k node e, All-get space.nodes k node good.wf e);
  sorted = sorted;
}

direct-Found :
    (space : AddressSpace) (id : NodeId)
    → IsSpace space
    → IsNodeId id
    → (o : Option (Option ℕ)) → Found ⊥ (node_direct space.nodes) (length space.nodes) id o
    → or_linear space.nodes id o ≡ some (find_linear space.nodes id)
direct-Found space id good wf none found = absurd found
direct-Found space id good wf (some none) found = refl
direct-Found space id good wf (some (some place)) (node, k, lt, e, c) =
    let reads = direct_reads space.nodes k place node e in
    ap some (
      sym (
        linear_some 0 space.nodes id place node good.wf wf good.distinct reads
          (equal_of_compare node id (All-get space.nodes place node good.wf reads) wf ∙ ap is_eq c)
        ∙ ap some (omega arith)))

-- A lookup without an index finds what the linear search finds, over the nodes of the base address
-- space or another, sorted or not; the nodes are well-formed and distinct.
pub find_node_direct-find_linear :
    (base : ℕ) (space : AddressSpace) (id : NodeId)
    → IsSpace space
    → IsNodeId id
    → find_node_direct base space id ≡ some (find_linear space.nodes id)
unfolding find_node_direct find_binary_direct
find_node_direct-find_linear base space id good wf = by_address (space.address == base)
  where
    by_address :
        (b : Bool)
        → (if b
            then or_linear space.nodes id (
                find_binary
                  (node_direct space.nodes)
                  id
                  (suc (length space.nodes))
                  0
                  (length space.nodes))
            else some (find_linear space.nodes id))
          ≡ some (find_linear space.nodes id)
    by_address false = refl
    by_address true = direct-Found space id good wf _ (
        find_binary-Found ⊥ (node_direct space.nodes) (length space.nodes) id
          (direct-Table ⊥ space good (λ none. absurd none)) wf)
