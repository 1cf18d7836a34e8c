-- ===== src/AddressSpace/Index/Agreement.antt =====
-- `mu_address_space_find_node` on each of its paths finds what the linear search finds.
use muc_opcua.Common.{
  ℕ, ◌+◌, ◌<◌, ◌≤◌, ◌≡◌, refl, sym, ap, ◌∙◌, subst, inl, inr, List, [], Option, some, none, Bool,
  true, false, ◌||◌, ltb, ◌/=◌, if◌then◌else◌, All, get_elem?, length, arith, Bool-cases,
}
use muc_opcua.Encoding.Types.{NodeId}
use muc_opcua.Encoding.Format.{IsNodeId}
use muc_opcua.AddressSpace.{is_eq}
use muc_opcua.AddressSpace.Index.{
  Index, AddressSpace, node_at, reset_index, rebuild_index, find_linear, find_indexed, fresh_index,
  with_index, find_fresh, find_node_indexed, has_duplicate,
}
use muc_opcua.AddressSpace.Index.Insert.{insert_entries, Holds, read_place-direct}
use muc_opcua.AddressSpace.Index.Build.{Built, rebuild_index_lem}
use muc_opcua.AddressSpace.Index.Sorted.{
  IsEntry, Sorted, Has, insert_entries-Sorted, insert_entries-Has_new,
}
use muc_opcua.AddressSpace.Index.Search.{Found, find_binary-Found}
use muc_opcua.AddressSpace.Index.Held.{Holds-Table, Holds-Has}
use muc_opcua.AddressSpace.Index.Lookup.{equal_of_compare, All-get, linear_none, linear_some}

-- The nodes of an address space: well-formed NodeIds, no two of them equal.
pub record IsSpace (space : AddressSpace) : Type 0 where
  pub wf : All IsNodeId space.nodes
  pub distinct : has_duplicate space.nodes ≡ false

abbrev pub entries : AddressSpace → List (ℕ × NodeId)
entries space = insert_entries 0 space.nodes []

-- What an index must hold where it claims to stand for the nodes.
pub record IsIndex (max_nodes : ℕ) (space : AddressSpace) (index : Index) : Type 0 where
  pub room : max_nodes ≤ length index.order
  pub current :
      index.built_for ≡ space.address
      → index.built_count ≡ length space.nodes
      → index.indexed ≡ true
      → (index.count ≡ length space.nodes)
        × Holds space.nodes (length space.nodes) (entries space) index.order

pub entry_of :
    (space : AddressSpace) (place : ℕ) (node : NodeId)
    → get_elem? space.nodes place ≡ some node
    → Has (place, node) (entries space)
entry_of space place node e =
    subst (λ t. Has (t, node) (entries space)) (zero_plus place)
      (insert_entries-Has_new 0 place space.nodes node [] e)
  where
    zero_plus : (a : ℕ) → 0 + a ≡ a
    zero_plus a = omega arith

module _ (space : AddressSpace) (id : NodeId) (good : IsSpace space) (wf : IsNodeId id) where
  -- A search that reads the nodes, each of them where it is complete, finds what the linear one does.
  Found-linear :
      (at : ℕ → Option (ℕ × NodeId)) (n : ℕ) (o : Option ℕ)
      → ((k place : ℕ) (node : NodeId)
          → at k ≡ some (place, node)
          → get_elem? space.nodes place ≡ some node)
      → ((place : ℕ) (node : NodeId)
          → get_elem? space.nodes place ≡ some node
          → (k : ℕ) × (k < n) × (at k ≡ some (place, node)))
      → Found Unit at n id (some o)
      → o ≡ find_linear space.nodes id
  Found-linear at n none reads complete found = sym (
      linear_none 0 space.nodes id (λ place node e.
        let (k, lt, f) = complete place node e in
        equal_of_compare node id (All-get space.nodes place node good.wf e) wf
        ∙ found tt k (place, node) lt f))
  Found-linear at n (some place) reads complete (node, k, lt, e, c) = sym (
      linear_some 0 space.nodes id place node good.wf wf good.distinct (reads k place node e) (
        equal_of_compare node id (All-get space.nodes place node good.wf (reads k place node e)) wf
        ∙ ap is_eq c)
      ∙ ap some (omega arith))

  Sorted-entries : Sorted (entries space) × All IsEntry (entries space)
  Sorted-entries = insert_entries-Sorted 0 space.nodes [] good.wf tt tt

  held_linear :
      (order : List ℕ) (n : ℕ) (o : Option (Option ℕ))
      → Holds space.nodes n (entries space) order
      → Found Unit (node_at space.nodes order) n id o
      → o ≡ some (find_linear space.nodes id)
  held_linear order n none h found = absurd found
  held_linear order n (some o) h found = ap some (
      Found-linear (node_at space.nodes order) n o
        (λ k place node e. read_place-direct space.nodes (get_elem? order k) place node e)
        (λ place node e.
          Holds-Has space.nodes order n (place, node) (entries space) (entry_of space place node e)
            h)
        found)

  find_indexed_lem :
      (index : Index) (n : ℕ)
      → index.count ≡ n
      → Holds space.nodes n (entries space) index.order
      → find_indexed space index id ≡ some (find_linear space.nodes id)
  unfolding find_indexed
  find_indexed_lem index n e h =
      held_linear index.order index.count _
        (subst (λ m. Holds space.nodes m (entries space) index.order) (sym e) h)
        (find_binary-Found Unit (node_at space.nodes index.order) index.count id
          (Holds-Table space.nodes index.order index.count (entries space)
            (subst (λ m. Holds space.nodes m (entries space) index.order) (sym e) h)
            (Sorted-entries.1) (Sorted-entries.0))
          wf)

-- The index after a lookup: it stands for the nodes.
abbrev pub StandsFor : ℕ → AddressSpace → Index → Type 0
StandsFor max_nodes space index =
    IsIndex max_nodes space index
    × (index.built_for ≡ space.address)
    × (index.built_count ≡ length space.nodes)

too_many :
    (max_nodes n : ℕ) → (ltb max_nodes n || ltb 65535 n) ≡ false → (n ≤ max_nodes) × (n ≤ 65535)
too_many max_nodes n e = (ground arith, ground arith)

rebuild_index-many :
    (max_nodes : ℕ) (space : AddressSpace) (index : Index)
    → (ltb max_nodes (length space.nodes) || ltb 65535 (length space.nodes)) ≡ true
    → rebuild_index max_nodes space index ≡ some (reset_index space index)
unfolding rebuild_index
rebuild_index-many max_nodes space index e = rw e refl

rebuilt :
    (max_nodes : ℕ) (space : AddressSpace) (index : Index)
    → IsIndex max_nodes space index
    → (new : Index) × (rebuild_index max_nodes space index ≡ some new)
      × StandsFor max_nodes space new
rebuilt max_nodes space index old =
    elim (Bool-cases (ltb max_nodes (length space.nodes) || ltb 65535 (length space.nodes))) [
      | inl many ↦ (
        reset_index space index,
        rebuild_index-many max_nodes space index many,
        (reset, refl, refl),
      )
      | inr few ↦
          let (fits, small) = too_many max_nodes (length space.nodes) few in
          built (rebuild_index max_nodes space index)
            (rebuild_index_lem max_nodes space index fits small old.room)
    ]
  where
    reset : IsIndex max_nodes space (reset_index space index)
    reset = record { room = old.room; current = λ a b c. absurd (ground arith) }

    built :
        (r : Option Index)
        → Built space.nodes
            (entries space)
            (length space.nodes)
            (record (reset_index space index) { indexed = true })
            r
        → (new : Index) × (r ≡ some new) × StandsFor max_nodes space new
    built none bad = absurd bad
    built (some new) done = (
      new,
      refl,
      (
        record {
          room = subst (λ n. max_nodes ≤ n) (sym done.room) old.room;
          current = λ a b c. (done.count, done.holds);
        },
        done.built_for,
        done.built_count,
      ),
    )

no_test : (a b c d : ℕ) → ((a /= b) || (c /= d)) ≡ false → (a ≡ b) × (c ≡ d)
no_test a b c d e = (ground arith, ground arith)

fresh_index_lem :
    (max_nodes : ℕ) (space : AddressSpace) (index : Index)
    → IsIndex max_nodes space index
    → (new : Index) × (fresh_index max_nodes space index ≡ some new) × StandsFor max_nodes space new
fresh_index_lem max_nodes space index old =
    elim (Bool-cases
      ((index.built_for /= space.address) || (index.built_count /= length space.nodes))) [
        | inl stale ↦
            let (new, e, stands) = rebuilt max_nodes space index old in (new, rw stale e, stands)
        | inr fresh ↦
            let (address, count) =
              no_test index.built_for space.address index.built_count (length space.nodes) fresh in
            (index, rw fresh refl, (old, address, count))
      ]

-- A lookup through an index finds what the linear search over the nodes finds, and keeps an index
-- for the next lookup that stands for these nodes. The nodes are well-formed and distinct, and the
-- index is one that an earlier lookup has left, or that has not been built.
pub find_node_indexed-find_linear :
    (max_nodes : ℕ) (space : AddressSpace) (index : Index) (id : NodeId)
    → IsSpace space
    → IsNodeId id
    → IsIndex max_nodes space index
    → (new : Index) × (find_node_indexed max_nodes space index id
        ≡ some (new, find_linear space.nodes id))
      × StandsFor max_nodes space new
unfolding find_node_indexed
find_node_indexed-find_linear max_nodes space index id good wf old =
    let (new, e, (held, address, count)) = fresh_index_lem max_nodes space index old in
    (new, looked_up new e held address count, (held, address, count))
  where
    search :
        (new : Index)
        → IsIndex max_nodes space new
        → new.built_for ≡ space.address
        → new.built_count ≡ length space.nodes
        → (b : Bool) → new.indexed ≡ b
        → (if b then find_indexed space new id else some (find_linear space.nodes id))
          ≡ some (find_linear space.nodes id)
    search new held address count false e = refl
    search new held address count true e =
        let (n, h) = held.current address count e in
        find_indexed_lem space id good wf new (length space.nodes) n h

    looked_up :
        (new : Index)
        → fresh_index max_nodes space index ≡ some new
        → IsIndex max_nodes space new
        → new.built_for ≡ space.address
        → new.built_count ≡ length space.nodes
        → find_node_indexed max_nodes space index id ≡ some (new, find_linear space.nodes id)
    looked_up new e held address count =
        ap (find_fresh space id) e
        ∙ ap (with_index new) (search new held address count new.indexed refl)
