-- ===== src/AddressSpace/Index/Rebuilt.antt =====
-- What a rebuild of the index leaves.
use muc_opcua.Common.{ℕ, ◌<◌, ◌≤◌, ◌≡◌, refl, [], Option, some, none, true, get_elem?, length}
use muc_opcua.Encoding.Types.{NodeId}
use muc_opcua.AddressSpace.Index.{Index, AddressSpace, node_at, reset_index, rebuild_index}
use muc_opcua.AddressSpace.Index.Build.{Built, rebuild_index_lem}
use muc_opcua.AddressSpace.Index.Sorted.{insert_entries-Sorted}
use muc_opcua.AddressSpace.Index.Search.{Table}
use muc_opcua.AddressSpace.Index.Held.{Holds-Table, Holds-Has}
use muc_opcua.AddressSpace.Index.Agreement.{IsSpace, entries, entry_of}

-- A rebuild of an index, where the nodes fit, ends with an array whose first slots name each place
-- once and are in the order of the NodeIds: each slot in use reads a node, no slot reads a greater
-- one than a later slot, and each node is read. The nodes are well-formed and fit into the array.
pub rebuild_index-IsSorted :
    (max_nodes : ℕ) (space : AddressSpace) (index : Index)
    → IsSpace space
    → length space.nodes ≤ max_nodes
    → length space.nodes ≤ 65535
    → max_nodes ≤ length index.order
    → (new : Index) × (rebuild_index max_nodes space index ≡ some new)
      × (new.indexed ≡ true)
      × (new.count ≡ length space.nodes)
      × Table Unit (node_at space.nodes new.order) (length space.nodes)
      × ((place : ℕ) (node : NodeId)
          → get_elem? space.nodes place ≡ some node
          → (k : ℕ) × (k < length space.nodes)
            × (node_at space.nodes new.order k ≡ some (place, node)))
rebuild_index-IsSorted max_nodes space index good fits small room =
    built (rebuild_index max_nodes space index)
      (rebuild_index_lem max_nodes space index fits small room)
  where
    built :
        (r : Option Index)
        → Built space.nodes
            (entries space)
            (length space.nodes)
            (record (reset_index space index) { indexed = true })
            r
        → (new : Index) × (r ≡ some new)
          × (new.indexed ≡ true)
          × (new.count ≡ length space.nodes)
          × Table Unit (node_at space.nodes new.order) (length space.nodes)
          × ((place : ℕ) (node : NodeId)
              → get_elem? space.nodes place ≡ some node
              → (k : ℕ) × (k < length space.nodes)
                × (node_at space.nodes new.order k ≡ some (place, node)))
    built none bad = absurd bad
    built (some new) done =
        let (in_order, all) = insert_entries-Sorted 0 space.nodes [] good.wf tt tt in
        (
          new,
          refl,
          done.indexed,
          done.count,
          Holds-Table space.nodes new.order (length space.nodes) (entries space) done.holds all
              in_order,
          λ place node e.
              Holds-Has space.nodes new.order (length space.nodes) (place, node) (entries space)
                (entry_of space place node e) done.holds,
        )
