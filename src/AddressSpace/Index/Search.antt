-- ===== src/AddressSpace/Index/Search.antt =====
-- The binary search over a sorted table: it ends, and finds what the table holds.
use Prim.Native.Nat.{Ordering}
use muc_opcua.Common.{
  ℕ, zero, suc, ◌+◌, ◌-◌, ◌/◌, ◌<◌, ◌≤◌, ◌≡◌, refl, sym, ap, ◌∙◌, subst, ◌⊎◌, inl, inr, Option,
  some, none, Bool, true, false, ltb, ltb→lt, arith,
}
use muc_opcua.Encoding.Types.{NodeId}
use muc_opcua.Encoding.Format.{IsNodeId}
use muc_opcua.AddressSpace.{compare_direct, not_gt, is_eq}
use muc_opcua.AddressSpace.Key.{key, compare_direct-key}
use muc_opcua.AddressSpace.Order.{le_lt, le_gt}
use muc_opcua.AddressSpace.Index.{find_binary}

-- The first `n` reads of a table of nodes, which is sorted where `S` holds.
pub record Table (S : Type 0) (at : ℕ → Option (ℕ × NodeId)) (n : ℕ) : Type 0 where
  pub there : (k : ℕ) → k < n → (p : ℕ × NodeId) × (at k ≡ some p) × IsNodeId p.1
  pub sorted :
      S
      → (j k : ℕ) (p q : ℕ × NodeId) → j < k
      → k < n
      → at j ≡ some p
      → at k ≡ some q
      → not_gt (compare_direct p.1 q.1) ≡ true

le_lt_of :
    (a b c : NodeId)
    → IsNodeId a
    → IsNodeId b
    → IsNodeId c
    → not_gt (compare_direct a b) ≡ true
    → compare_direct b c ≡ Ordering.lt
    → compare_direct a c ≡ Ordering.lt
le_lt_of a b c h k l x y =
    compare_direct-key a c h l
    ∙ le_lt (key a) (key b) (key c) (sym (ap not_gt (compare_direct-key a b h k)) ∙ x)
        (sym (compare_direct-key b c k l) ∙ y)

le_gt_of :
    (a b c : NodeId)
    → IsNodeId a
    → IsNodeId b
    → IsNodeId c
    → not_gt (compare_direct a b) ≡ true
    → compare_direct a c ≡ Ordering.gt
    → compare_direct b c ≡ Ordering.gt
le_gt_of a b c h k l x y =
    compare_direct-key b c k l
    ∙ le_gt (key a) (key b) (key c) (sym (ap not_gt (compare_direct-key a b h k)) ∙ x)
        (sym (compare_direct-key a c h l) ∙ y)

ltb→le : (a b : ℕ) → ltb a b ≡ false → b ≤ a
ltb→le a b e = ground arith

module _ (S : Type 0) (at : ℕ → Option (ℕ × NodeId)) (n : ℕ) (id : NodeId) where
  abbrev pub Compares : ℕ → Ordering → Type 0
  Compares k c = S → (p : ℕ × NodeId) → at k ≡ some p → compare_direct p.1 id ≡ c

  -- What a search may return: a node that compares as equal, or nothing where none does in
  -- a sorted table.
  abbrev pub Found : Option (Option ℕ) → Type 0
  Found none = ⊥
  Found (some none) =
      S → (k : ℕ) (p : ℕ × NodeId) → k < n → at k ≡ some p → is_eq (compare_direct p.1 id) ≡ false
  Found (some (some place)) =
      (node : NodeId) × (k : ℕ) × (k < n)
      × (at k ≡ some (place, node))
      × (compare_direct node id ≡ Ordering.eq)

  module _ (table : Table S at n) (wf : IsNodeId id) where
    same_read : (k : ℕ) (p q : ℕ × NodeId) → at k ≡ some p → at k ≡ some q → p ≡ q
    same_read k p q e f = cc (sym e ∙ f)

    wf_read : (k : ℕ) (q : ℕ × NodeId) → k < n → at k ≡ some q → IsNodeId q.1
    wf_read k q lt e =
        let (p, found, h) = table.there k lt in
        subst (λ (r : ℕ × NodeId). IsNodeId r.1) (same_read k p q found e) h

    upto : (a b : ℕ) → a < b + 1 → (a < b) ⊎ (a ≡ b)
    upto a b x = grind arith

    from : (a b : ℕ) → b ≤ a → (b < a) ⊎ (a ≡ b)
    from a b x = grind arith

    -- What one comparison says of the slots before and behind.
    lower_half :
        (mid : ℕ) (p : ℕ × NodeId)
        → mid < n
        → at mid ≡ some p
        → compare_direct p.1 id ≡ Ordering.lt
        → (k : ℕ) → k < mid + 1
        → Compares k Ordering.lt
    lower_half mid p room e c k lt s q f = elim (upto k mid lt) [
      | inl below ↦
          le_lt_of q.1 p.1 id (wf_read k q (omega arith) f) (wf_read mid p room e) wf
            (table.sorted s k mid q p below room f e) c
      | inr same ↦
          subst (λ (r : ℕ × NodeId). compare_direct r.1 id ≡ Ordering.lt)
            (same_read mid p q e (subst (λ i. at i ≡ some q) same f)) c
    ]

    upper_half :
        (mid : ℕ) (p : ℕ × NodeId)
        → mid < n
        → at mid ≡ some p
        → compare_direct p.1 id ≡ Ordering.gt
        → (k : ℕ) → mid ≤ k
        → k < n
        → Compares k Ordering.gt
    upper_half mid p room e c k le lt s q f = elim (from k mid le) [
      | inl above ↦
          le_gt_of p.1 q.1 id (wf_read mid p room e) (wf_read k q lt f) wf
            (table.sorted s mid k p q above lt e f) c
      | inr same ↦
          subst (λ (r : ℕ × NodeId). compare_direct r.1 id ≡ Ordering.gt)
            (same_read mid p q e (subst (λ i. at i ≡ some q) same f)) c
    ]

    abbrev Range : ℕ → ℕ → Type 0
    Range left right =
        (left ≤ right)
        × (right ≤ n)
        × ((k : ℕ) → k < left → Compares k Ordering.lt)
        × ((k : ℕ) → right ≤ k → k < n → Compares k Ordering.gt)

    none_left : (left right : ℕ) → right ≤ left → Range left right → Found (some none)
    none_left left right stop (_, _, below, above) s k p lt e = elim (side k left) [
      | inl before ↦ ap is_eq (below k before s p e)
      | inr behind ↦ ap is_eq (above k (omega arith) lt s p e)
    ]
      where
        side : (a b : ℕ) → (a < b) ⊎ (b ≤ a)
        side a b = grind arith

    -- One round, with the search of either half.
    halve :
        (left right : ℕ)
        → Range left right
        → left < right
        → (lower upper : Option (Option ℕ))
        → (Range (left + (right - left) / 2 + 1) right → Found upper)
        → (Range left (left + (right - left) / 2) → Found lower)
        → (o : Option (ℕ × NodeId)) → at (left + (right - left) / 2) ≡ o
        → Found (elim o [
          | none ↦ none
          | some (place, node) ↦ elim (compare_direct node id) [
            | Ordering.lt ↦ upper
            | Ordering.gt ↦ lower
            | Ordering.eq ↦ some (some place)
          ]
        ])
    halve left right range lt lower upper hi lo none e =
        let (p, found, h) = table.there (left + (right - left) / 2) (omega arith) in
        absurd (cc (sym e ∙ found))
    halve left right (le, room, below, above) lt lower upper hi lo (some (place, node)) e =
        by_order (compare_direct node id) refl
      where
        mid : ℕ
        mid = left + (right - left) / 2

        by_order :
            (c : Ordering)
            → compare_direct node id ≡ c
            → Found (elim c [
              | Ordering.lt ↦ upper
              | Ordering.gt ↦ lower
              | Ordering.eq ↦ some (some place)
            ])
        by_order Ordering.lt c =
            hi (omega arith, room, lower_half mid (place, node) (omega arith) e c, above)
        by_order Ordering.gt c =
            lo (omega arith, omega arith, below, upper_half mid (place, node) (omega arith) e c)
        by_order Ordering.eq c = (node, mid, omega arith, e, c)

    find_binary_lem :
        (fuel left right : ℕ)
        → right - left < fuel
        → Range left right
        → Found (find_binary at id fuel left right)
    unfolding find_binary
    find_binary_lem zero left right enough range = elim enough [ ]
    find_binary_lem (suc fuel) left right enough range =
        by_test (ltb left right) refl (λ l r small inside. find_binary_lem fuel l r small inside)
      where
        by_test :
            (b : Bool)
            → ltb left right ≡ b
            → ((l r : ℕ) → r - l < fuel → Range l r → Found (find_binary at id fuel l r))
            → Found (elim b [
              | false ↦ some none
              | true ↦ elim (at (left + (right - left) / 2)) [
                | none ↦ none
                | some (place, node) ↦ elim (compare_direct node id) [
                  | Ordering.lt ↦ find_binary at id fuel (left + (right - left) / 2 + 1) right
                  | Ordering.gt ↦ find_binary at id fuel left (left + (right - left) / 2)
                  | Ordering.eq ↦ some (some place)
                ]
              ]
            ])
        by_test false e ih = none_left left right (ltb→le left right e) range
        by_test true e ih =
            halve left right range (ltb→lt left right e)
              (find_binary at id fuel left (left + (right - left) / 2))
              (find_binary at id fuel (left + (right - left) / 2 + 1) right)
              (λ r. ih (left + (right - left) / 2 + 1) right (omega (arith, ltb→lt left right e)) r)
              (λ r. ih left (left + (right - left) / 2) (omega (arith, ltb→lt left right e)) r)
              (at (left + (right - left) / 2)) refl

    -- The whole search: the fuel of the definitions is enough.
    pub find_binary-Found : Found (find_binary at id (suc n) 0 n)
    find_binary-Found = find_binary_lem (suc n) 0 n (omega arith) (
      omega arith,
      omega arith,
      λ k lt. absurd (omega (arith, lt)),
      λ k le lt. absurd (omega (arith, le, lt)),
    )
