-- ===== src/AddressSpace/Tests.antt =====
-- The theorems on the address space at concrete values.
use Prim.Native.Nat.{Ordering}
use muc_opcua.Common.{ℕ, ◌<◌, ◌≡◌, refl, [], ◌∷◌, some, false, true, replicate, get_elem?, arith}
use muc_opcua.Encoding.Types.{numeric, string, NodeId}
use muc_opcua.AddressSpace.{compare_direct, nodeid_equal, is_eq}
use muc_opcua.AddressSpace.Order.{swap}
use muc_opcua.AddressSpace.Total.{compare_direct-total}
use muc_opcua.AddressSpace.Index.{
  Index, AddressSpace, find_linear, find_node_direct, find_node_indexed, rebuild_index, node_at,
  has_duplicate, occurs, index_nodes, insert_node, find_indexed, find_binary,
}
use muc_opcua.AddressSpace.Index.Search.{Table}
use muc_opcua.AddressSpace.Index.Agreement.{
  IsSpace, IsIndex, StandsFor, find_node_indexed-find_linear,
}
use muc_opcua.AddressSpace.Index.Rebuilt.{rebuild_index-IsSorted}
use muc_opcua.AddressSpace.Index.Direct.{find_node_direct-find_linear}

abbrev number : ℕ → NodeId
number n = record { namespace_index = 1; identifier = numeric n }

abbrev named : NodeId
named = record {
  namespace_index = 1;
  identifier = string (record { length = 2; bytes = some (97 ∷ 98 ∷ []) });
}

abbrev three_nodes : AddressSpace
three_nodes = record { address = 4096; nodes = named ∷ number 7 ∷ number 3 ∷ [] }

abbrev empty_index : Index
empty_index = record {
  order = replicate 8 0;
  count = 0;
  indexed = false;
  built_for = 0;
  built_count = 0;
}

three_nodes-distinct : has_duplicate (named ∷ number 7 ∷ number 3 ∷ []) ≡ false
unfolding has_duplicate occurs nodeid_equal
three_nodes-distinct = refl

three_nodes-IsSpace : IsSpace three_nodes
three_nodes-IsSpace = record { wf = omega arith; distinct = three_nodes-distinct }

empty_index-IsIndex : IsIndex 8 three_nodes empty_index
empty_index-IsIndex = record { room = omega arith; current = λ a b c. absurd (omega (arith, a)) }

find_node_indexed_example :
    (new : Index) × (find_node_indexed 8 three_nodes empty_index (number 3)
      ≡ some (new, find_linear three_nodes.nodes (number 3)))
    × StandsFor 8 three_nodes new
find_node_indexed_example =
    find_node_indexed-find_linear 8 three_nodes empty_index (number 3) three_nodes-IsSpace
      (omega arith) empty_index-IsIndex

find_node_direct_example :
    find_node_direct 4096 three_nodes (number 3) ≡ some (find_linear three_nodes.nodes (number 3))
find_node_direct_example =
    find_node_direct-find_linear 4096 three_nodes (number 3) three_nodes-IsSpace (omega arith)

rebuild_index-IsSorted_example :
    (new : Index) × (rebuild_index 8 three_nodes empty_index ≡ some new)
    × (new.indexed ≡ true)
    × (new.count ≡ 3)
    × Table Unit (node_at three_nodes.nodes new.order) 3
    × ((place : ℕ) (node : NodeId)
        → get_elem? three_nodes.nodes place ≡ some node
        → (k : ℕ) × (k < 3) × (node_at three_nodes.nodes new.order k ≡ some (place, node)))
rebuild_index-IsSorted_example =
    rebuild_index-IsSorted 8 three_nodes empty_index three_nodes-IsSpace (omega arith) (omega arith)
      (omega arith)

compare_direct-total_example :
    (compare_direct (number 3) named ≡ swap (compare_direct named (number 3)))
    × (compare_direct named (number 3) ≡ Ordering.lt
        → compare_direct (number 3) (number 7) ≡ Ordering.lt
        → compare_direct named (number 7) ≡ Ordering.lt)
    × (nodeid_equal named (number 3) ≡ is_eq (compare_direct named (number 3)))
compare_direct-total_example =
    compare_direct-total named (number 3) (number 7) (omega arith) (omega arith) (omega arith)

-- The index finds the node that stands last.
found_last :
    find_node_indexed 8 three_nodes empty_index (number 3)
    ≡ some (
      record {
        order = 2 ∷ 1 ∷ 0 ∷ replicate 5 0;
        count = 3;
        indexed = true;
        built_for = 4096;
        built_count = 3;
      },
      some 2,
    )
unfolding find_node_indexed rebuild_index index_nodes insert_node compare_direct find_indexed
    find_binary
found_last = refl
