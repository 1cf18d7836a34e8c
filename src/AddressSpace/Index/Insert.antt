-- ===== src/AddressSpace/Index/Insert.antt =====
-- The insertion loops, on the array, insert into the list of the entries, the last one first.
use muc_opcua.Common.{
  ℕ, zero, suc, ◌%◌, ◌^◌, ◌<◌, ◌≡◌, ◌≢◌, refl, sym, ap, ◌∙◌, subst, List, [], ◌∷◌, Option, none,
  some, Bool, true, false, if◌then◌else◌, length, get_elem?, set, length-set, arith,
}
use muc_opcua.Encoding.Types.{NodeId}
use muc_opcua.AddressSpace.{compare_direct, not_gt}
use muc_opcua.AddressSpace.Index.{node_direct, read_place, node_at, insert_node}

pub get_elem?-set_self : (xs : List ℕ) (i v : ℕ) → i < length xs → get_elem? (set xs i v) i ≡ some v
get_elem?-set_self [] i v h = elim h [ ]
get_elem?-set_self (x ∷ xs) zero v h = refl
get_elem?-set_self (x ∷ xs) (suc i) v h = get_elem?-set_self xs i v (omega arith)

pub get_elem?-set_ne : (xs : List ℕ) (i j v : ℕ) → i ≢ j → get_elem? (set xs i v) j ≡ get_elem? xs j
get_elem?-set_ne [] i j v h = refl
get_elem?-set_ne (x ∷ xs) zero zero v h = absurd (h refl)
get_elem?-set_ne (x ∷ xs) zero (suc j) v h = refl
get_elem?-set_ne (x ∷ xs) (suc i) zero v h = refl
get_elem?-set_ne (x ∷ xs) (suc i) (suc j) v h = get_elem?-set_ne xs i j v (λ e. h (ap suc e))

-- An entry put behind those that are not above it.
abbrev pub insert_entry : ℕ × NodeId → List (ℕ × NodeId) → List (ℕ × NodeId)
insert_entry (i, current) [] = (i, current) ∷ []
insert_entry (i, current) ((place, previous) ∷ ps) =
    let rest = insert_entry (i, current) ps in
    if not_gt (compare_direct previous current)
    then (i, current) ∷ (place, previous) ∷ ps
    else (place, previous) ∷ rest

abbrev pub insert_entries : ℕ → List NodeId → List (ℕ × NodeId) → List (ℕ × NodeId)
insert_entries i [] ps = ps
insert_entries i (current ∷ todo) ps = insert_entries (suc i) todo (insert_entry (i, current) ps)

module _ (nodes : List NodeId) where
  -- The first `n` slots stand for the entries, the last slot first.
  abbrev pub Holds : ℕ → List (ℕ × NodeId) → List ℕ → Type 0
  Holds zero [] order = Unit
  Holds zero (p ∷ ps) order = ⊥
  Holds (suc n) [] order = ⊥
  Holds (suc n) (p ∷ ps) order = (node_at nodes order n ≡ some p) × Holds n ps order

  Holds-same :
      (n : ℕ) (ps : List (ℕ × NodeId)) (order order' : List ℕ)
      → ((k : ℕ) → k < n → get_elem? order k ≡ get_elem? order' k)
      → Holds n ps order
      → Holds n ps order'
  Holds-same zero [] order order' same h = tt
  Holds-same zero (p ∷ ps) order order' same h = absurd h
  Holds-same (suc n) [] order order' same h = absurd h
  Holds-same (suc n) (p ∷ ps) order order' same (e, h) = (
    sym (ap (read_place nodes) (same n (omega arith))) ∙ e,
    Holds-same n ps order order' (λ k lt. same k (omega arith)) h,
  )

  -- What `insert_node` does: the entry is in its place among the first `suc n`, and the slots behind
  -- are as they were.
  abbrev pub Inserted : ℕ → List (ℕ × NodeId) → List ℕ → Option (List ℕ) → Type 0
  Inserted n ps order none = ⊥
  Inserted n ps order (some order') =
      Holds (suc n) ps order'
      × (length order' ≡ length order)
      × ((k : ℕ) → n < k → get_elem? order' k ≡ get_elem? order k)

  pub node_direct_lem :
      (i : ℕ) (current : NodeId)
      → get_elem? nodes i ≡ some current
      → node_direct nodes i ≡ some (i, current)
  node_direct_lem i current e = rw (e, node_direct) refl

  -- The entry written behind the first `n`.
  put :
      (i : ℕ) (current : NodeId) (n : ℕ) (ps : List (ℕ × NodeId)) (order : List ℕ)
      → i < 2 ^ 16
      → get_elem? nodes i ≡ some current
      → n < length order
      → Holds n ps order
      → Inserted n ((i, current) ∷ ps) order (some (set order n (i % 2 ^ 16)))
  put i current n ps order small here room h = (
    (
      ap (read_place nodes) (get_elem?-set_self order n (i % 2 ^ 16) room ∙ ap some (omega arith))
          ∙ node_direct_lem i current here,
      Holds-same n ps order (set order n (i % 2 ^ 16))
          (λ k lt. sym (get_elem?-set_ne order n k (i % 2 ^ 16) (omega arith))) h,
    ),
    length-set order n (i % 2 ^ 16),
    λ k lt. get_elem?-set_ne order n k (i % 2 ^ 16) (omega arith),
  )

  -- The entry moved back by one, and the new one inserted before it.
  moved :
      (place : ℕ) (previous : NodeId) (n : ℕ) (ps : List (ℕ × NodeId)) (order : List ℕ)
      (result : Option (List ℕ))
      → suc n < length order
      → node_direct nodes place ≡ some (place, previous)
      → Inserted n ps (set order (suc n) place) result
      → Inserted (suc n) ((place, previous) ∷ ps) order result
  moved place previous n ps order none room e h = h
  moved place previous n ps order (some order') room e (holds, len, same) = (
    (
      ap (read_place nodes)
            (same (suc n) (omega arith) ∙ get_elem?-set_self order (suc n) place room)
          ∙ e,
      holds,
    ),
    len ∙ length-set order (suc n) place,
    λ k lt. same k (omega arith) ∙ get_elem?-set_ne order (suc n) k place (omega arith),
  )

  named :
      (o : Option NodeId) (place p : ℕ) (id : NodeId)
      → ◌≡◌ {A = Option (ℕ × NodeId)}
          (elim o [ none ↦ none | some node ↦ some (place, node) ])
          (some (p, id))
      → (place ≡ p) × (o ≡ some id)
  named none place p id e = absurd (ground arith)
  named (some node) place p id e = (ground arith, ground arith)

  -- A slot that reads an entry names its place.
  pub read_place-direct :
      (o : Option ℕ) (place : ℕ) (id : NodeId)
      → read_place nodes o ≡ some (place, id)
      → get_elem? nodes place ≡ some id
  read_place-direct none place id e = absurd (ground arith)
  read_place-direct (some q) place id e =
      let both = named (get_elem? nodes q) q place id e in
      subst (λ t. get_elem? nodes t ≡ some id) both.0 both.1

  pub insert_node_lem :
      (i : ℕ) (current : NodeId) (n : ℕ) (ps : List (ℕ × NodeId)) (order : List ℕ)
      → i < 2 ^ 16
      → get_elem? nodes i ≡ some current
      → n < length order
      → Holds n ps order
      → Inserted n (insert_entry (i, current) ps) order (insert_node nodes i current n order)
  unfolding insert_node
  insert_node_lem i current zero [] order small here room h =
      put i current zero [] order small here room h
  insert_node_lem i current zero (p ∷ ps) order small here room h = absurd h
  insert_node_lem i current (suc n) [] order small here room h = absurd h
  insert_node_lem i current (suc n) ((place, previous) ∷ ps) order small here room (e, h) =
      rw (e, insert_node)
        (step (not_gt (compare_direct previous current))
          (put i current (suc n) ((place, previous) ∷ ps) order small here room (e, h))
          (moved place previous n (insert_entry (i, current) ps) order
            (insert_node nodes i current n (set order (suc n) place)) room
            (node_direct_lem place previous
              (read_place-direct (get_elem? order n) place previous e))
            (insert_node_lem i current n ps (set order (suc n) place) small here
              (omega (arith, length-set order (suc n) place))
              (Holds-same n ps order (set order (suc n) place)
                (λ k lt. sym (get_elem?-set_ne order (suc n) k place (omega arith))) h))))
    where
      step :
          (b : Bool)
          → Inserted
              (suc n)
              ((i, current) ∷ (place, previous) ∷ ps)
              order
              (some (set order (suc n) (i % 2 ^ 16)))
          → Inserted
              (suc n)
              ((place, previous) ∷ insert_entry (i, current) ps)
              order
              (insert_node nodes i current n (set order (suc n) place))
          → Inserted
              (suc n)
              (if b
                then (i, current) ∷ (place, previous) ∷ ps
                else (place, previous) ∷ insert_entry (i, current) ps)
              order
              (if b
                then some (set order (suc n) (i % 2 ^ 16))
                else insert_node nodes i current n (set order (suc n) place))
      step true x y = x
      step false x y = y
