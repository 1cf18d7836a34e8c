-- ===== src/AddressSpace/Index/Build.antt =====
-- A rebuilt index holds each node once, in the order of the insertions.
use muc_opcua.Common.{
  ℕ, suc, ◌+◌, ◌≤◌, ◌^◌, ◌≡◌, refl, sym, ap, ◌∙◌, subst, List, [], ◌∷◌, ◌++◌, Option, none, some,
  true, length, get_elem?, arith, append_assoc, le→ltb,
}
use muc_opcua.Encoding.Types.{NodeId}
use muc_opcua.AddressSpace.Index.{
  Index, AddressSpace, insert_node, index_nodes, reset_index, rebuild_index,
}
use muc_opcua.AddressSpace.Index.Insert.{
  insert_entry, insert_entries, Holds, Inserted, insert_node_lem,
}

-- The nodes from place `i` on.
abbrev pub Suffix : List NodeId → ℕ → List NodeId → Type 0
Suffix nodes i [] = Unit
Suffix nodes i (x ∷ xs) = (get_elem? nodes i ≡ some x) × Suffix nodes (suc i) xs

get_elem?-append :
    (xs ys : List NodeId) (y : NodeId) → get_elem? (xs ++ (y ∷ ys)) (length xs) ≡ some y
get_elem?-append [] ys y = refl
get_elem?-append (x ∷ xs) ys y = get_elem?-append xs ys y

Suffix-append : (xs ys : List NodeId) (i : ℕ) → i ≡ length xs → Suffix (xs ++ ys) i ys
Suffix-append xs [] i e = tt
Suffix-append xs (y ∷ ys) i e = (
  ap (get_elem? (xs ++ (y ∷ ys))) e ∙ get_elem?-append xs ys y,
  subst (λ l. Suffix l (suc i) ys) (append_assoc xs (y ∷ []) ys)
      (Suffix-append (xs ++ (y ∷ [])) ys (suc i) (omega (arith, e, length-snoc xs))),
)
  where
    length-snoc : (l : List NodeId) → length (l ++ (y ∷ [])) ≡ suc (length l)
    length-snoc [] = refl
    length-snoc (z ∷ l) = ap suc (length-snoc l)

pub Suffix-self : (nodes : List NodeId) → Suffix nodes 0 nodes
Suffix-self nodes = Suffix-append [] nodes 0 refl

add-zero : (n : ℕ) → n + 0 ≡ n
add-zero n = omega arith

suc-add : (m n : ℕ) → suc m + n ≡ m + suc n
suc-add m n = omega arith

zero-add : (n : ℕ) → 0 + n ≡ n
zero-add n = omega arith

module _ (nodes : List NodeId) where
  -- The index holds the entries, and otherwise stands for what it stood for.
  pub record IsBuilt (ps : List (ℕ × NodeId)) (n : ℕ) (old new : Index) : Type 0 where
    pub count : new.count ≡ n
    pub holds : Holds nodes n ps new.order
    pub indexed : new.indexed ≡ old.indexed
    pub built_for : new.built_for ≡ old.built_for
    pub built_count : new.built_count ≡ old.built_count
    pub room : length new.order ≡ length old.order

  abbrev pub Built : List (ℕ × NodeId) → ℕ → Index → Option Index → Type 0
  Built ps n old none = ⊥
  Built ps n old (some new) = IsBuilt ps n old new

  index_nodes_lem :
      (todo : List NodeId) (i : ℕ) (ps : List (ℕ × NodeId)) (index : Index)
      → Suffix nodes i todo
      → i + length todo ≤ 2 ^ 16
      → index.count + length todo ≤ length index.order
      → Holds nodes index.count ps index.order
      → Built
          (insert_entries i todo ps)
          (index.count + length todo)
          index
          (index_nodes nodes i todo index)
  unfolding index_nodes
  index_nodes_lem [] i ps index here small room h = record {
    count = omega arith;
    holds = subst (λ n. Holds nodes n ps index.order) (sym (add-zero index.count)) h;
    indexed = refl;
    built_for = refl;
    built_count = refl;
    room = refl;
  }
  index_nodes_lem (current ∷ todo) i ps index (here, next) small room h =
      step (insert_node nodes i current index.count index.order)
        (insert_node_lem nodes i current index.count ps index.order (omega arith) here (omega arith)
          h)
        (index_nodes_lem todo (suc i) (insert_entry (i, current) ps))
    where
      inserted : List ℕ → Index
      inserted order = record index { order = order; count = suc index.count }

      step :
          (o : Option (List ℕ))
          → Inserted nodes index.count (insert_entry (i, current) ps) index.order o
          → ((old : Index)
              → Suffix nodes (suc i) todo
              → suc i + length todo ≤ 2 ^ 16
              → old.count + length todo ≤ length old.order
              → Holds nodes old.count (insert_entry (i, current) ps) old.order
              → Built
                  (insert_entries (suc i) todo (insert_entry (i, current) ps))
                  (old.count + length todo)
                  old
                  (index_nodes nodes (suc i) todo old))
          → Built
              (insert_entries (suc i) todo (insert_entry (i, current) ps))
              (index.count + suc (length todo))
              index
              (elim o [
                | none ↦ none
                | some order ↦ index_nodes nodes (suc i) todo (inserted order)
              ])
      step none bad ih = bad
      step (some order) (holds, len, same) ih =
          carry (index_nodes nodes (suc i) todo (inserted order))
            (ih (inserted order) next (omega arith) (omega (arith, len)) holds)
        where
          carry :
              (r : Option Index)
              → Built
                  (insert_entries (suc i) todo (insert_entry (i, current) ps))
                  (suc index.count + length todo)
                  (inserted order)
                  r
              → Built
                  (insert_entries (suc i) todo (insert_entry (i, current) ps))
                  (index.count + suc (length todo))
                  index
                  r
          carry none bad = bad
          carry (some new) built = record {
            count = omega (arith, built.count);
            holds =
                subst
                  (λ n.
                    Holds nodes n (insert_entries (suc i) todo (insert_entry (i, current) ps))
                      new.order)
                  (suc-add index.count (length todo)) built.holds;
            indexed = built.indexed;
            built_for = built.built_for;
            built_count = built.built_count;
            room = built.room ∙ len;
          }

pub rebuild_index_lem :
    (max_nodes : ℕ) (space : AddressSpace) (index : Index)
    → length space.nodes ≤ max_nodes
    → length space.nodes ≤ 65535
    → max_nodes ≤ length index.order
    → Built space.nodes
        (insert_entries 0 space.nodes [])
        (length space.nodes)
        (record (reset_index space index) { indexed = true })
        (rebuild_index max_nodes space index)
unfolding rebuild_index
rebuild_index_lem max_nodes space index fits small room =
    rw (le→ltb max_nodes (length space.nodes) fits, le→ltb 65535 (length space.nodes) small)
      (subst
        (λ n.
          Built space.nodes (insert_entries 0 space.nodes []) n
            (record (reset_index space index) { indexed = true })
            (index_nodes space.nodes 0 space.nodes
              (record (reset_index space index) { indexed = true })))
        (zero-add (length space.nodes))
        (index_nodes_lem space.nodes space.nodes 0 []
          (record (reset_index space index) { indexed = true }) (Suffix-self space.nodes)
          (omega arith) (omega arith) tt))
