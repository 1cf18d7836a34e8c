-- ===== src/AddressSpace/Index/Held.antt =====
-- An array that holds the entries is a sorted table of them.
use muc_opcua.Common.{
  ℕ, zero, suc, ◌<◌, ◌≡◌, refl, sym, ap, ◌∙◌, subst, ◌⊎◌, inl, inr, List, [], ◌∷◌, some, true, All,
  arith,
}
use muc_opcua.Encoding.Types.{NodeId}
use muc_opcua.Encoding.Format.{IsNodeId}
use muc_opcua.AddressSpace.{compare_direct, not_gt}
use muc_opcua.AddressSpace.Index.{node_at}
use muc_opcua.AddressSpace.Index.Insert.{Holds}
use muc_opcua.AddressSpace.Index.Sorted.{IsEntry, AtMost, Sorted, Has}
use muc_opcua.AddressSpace.Index.Search.{Table}

below_or_last : (k n : ℕ) → k < suc n → (k < n) ⊎ (k ≡ n)
below_or_last k n h = grind arith

AtMost-Has :
    (id : NodeId) (p : ℕ × NodeId) (ps : List (ℕ × NodeId))
    → AtMost id ps
    → Has p ps
    → not_gt (compare_direct p.1 id) ≡ true
AtMost-Has id p [] below has = absurd has
AtMost-Has id p (q ∷ ps) (e, below) (inl same) =
    subst (λ (r : ℕ × NodeId). not_gt (compare_direct r.1 id) ≡ true) (sym same) e
AtMost-Has id p (q ∷ ps) (e, below) (inr has) = AtMost-Has id p ps below has

module _ (nodes : List NodeId) (order : List ℕ) where
  -- Each slot in use reads an entry, and each entry is read.
  Holds-there :
      (n k : ℕ) (ps : List (ℕ × NodeId))
      → k < n
      → Holds nodes n ps order
      → All IsEntry ps
      → (p : ℕ × NodeId) × (node_at nodes order k ≡ some p) × IsNodeId p.1 × Has p ps
  Holds-there zero k ps lt h all = elim lt [ ]
  Holds-there (suc n) k [] lt h all = absurd h
  Holds-there (suc n) k (q ∷ ps) lt (e, h) (first, all) = elim (below_or_last k n lt) [
    | inl below ↦
        let (p, found, wf, has) = Holds-there n k ps below h all in (p, found, wf, inr has)
    | inr last ↦ (q, ap (node_at nodes order) last ∙ e, first, inl refl)
  ]

  pub Holds-Has :
      (n : ℕ) (p : ℕ × NodeId) (ps : List (ℕ × NodeId))
      → Has p ps
      → Holds nodes n ps order
      → (k : ℕ) × (k < n) × (node_at nodes order k ≡ some p)
  Holds-Has n p [] has h = absurd has
  Holds-Has zero p (q ∷ ps) has h = absurd h
  Holds-Has (suc n) p (q ∷ ps) (inl same) (e, h) = (n, omega arith, e ∙ ap some (sym same))
  Holds-Has (suc n) p (q ∷ ps) (inr has) (e, h) =
      let (k, lt, found) = Holds-Has n p ps has h in (k, omega arith, found)

  Holds-Sorted :
      (n : ℕ) (ps : List (ℕ × NodeId))
      → Holds nodes n ps order
      → All IsEntry ps
      → Sorted ps
      → (j k : ℕ) (p q : ℕ × NodeId) → j < k
      → k < n
      → node_at nodes order j ≡ some p
      → node_at nodes order k ≡ some q
      → not_gt (compare_direct p.1 q.1) ≡ true
  Holds-Sorted zero ps h all sorted j k p q lt small e f = elim small [ ]
  Holds-Sorted (suc n) [] h all sorted j k p q lt small e f = absurd h
  Holds-Sorted (suc n) (r ∷ ps) (g, h) (first, all) (below, sorted) j k p q lt small e f =
      elim (below_or_last k n small) [
        | inl before ↦ Holds-Sorted n ps h all sorted j k p q lt before e f
        | inr last ↦
            let (s, found, wf, has) = Holds-there n j ps (omega (arith, lt, last)) h all in
            let same : s ≡ p = cc (sym found ∙ e) in
            let end : r ≡ q = cc (sym g ∙ ap (node_at nodes order) (sym last) ∙ f) in
            subst (λ (t : ℕ × NodeId). not_gt (compare_direct p.1 t.1) ≡ true) end
              (subst (λ (t : ℕ × NodeId). not_gt (compare_direct t.1 r.1) ≡ true) same
                (AtMost-Has r.1 s ps below has))
      ]

  pub Holds-Table :
      (n : ℕ) (ps : List (ℕ × NodeId))
      → Holds nodes n ps order
      → All IsEntry ps
      → Sorted ps
      → Table Unit (node_at nodes order) n
  Holds-Table n ps h all sorted = record {
    there = λ k lt. let (p, found, wf, has) = Holds-there n k ps lt h all in (p, found, wf);
    sorted = λ s j k p q lt small e f. Holds-Sorted n ps h all sorted j k p q lt small e f;
  }
