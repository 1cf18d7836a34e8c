-- ===== src/AddressSpace/Index/Sorted.antt =====
-- The insertions keep the entries sorted, and lose none of them.
use Prim.Native.Nat.{Ordering}
use muc_opcua.Common.{
  ℕ, zero, suc, ◌≡◌, refl, sym, ap, ap₂, ◌∙◌, subst, ◌⊎◌, inl, inr, List, [], ◌∷◌, some, true,
  false, if_both, if_cases, All, get_elem?, ◌+◌, arith,
}
use muc_opcua.Encoding.Types.{NodeId}
use muc_opcua.Encoding.Format.{IsNodeId}
use muc_opcua.AddressSpace.{compare_direct, not_gt}
use muc_opcua.AddressSpace.Key.{key, compare_direct-key}
use muc_opcua.AddressSpace.Order.{le_trans, gt_swap}
use muc_opcua.AddressSpace.Index.Insert.{insert_entry, insert_entries}

abbrev pub IsEntry : ℕ × NodeId → Type 0
IsEntry p = IsNodeId p.1

-- No entry is above `id`.
abbrev pub AtMost : NodeId → List (ℕ × NodeId) → Type 0
AtMost id [] = Unit
AtMost id (p ∷ ps) = (not_gt (compare_direct p.1 id) ≡ true) × AtMost id ps

-- The last entry first.
abbrev pub Sorted : List (ℕ × NodeId) → Type 0
Sorted [] = Unit
Sorted (p ∷ ps) = AtMost p.1 ps × Sorted ps

abbrev pub Has : ℕ × NodeId → List (ℕ × NodeId) → Type 0
Has p [] = ⊥
Has p (q ∷ ps) = (p ≡ q) ⊎ Has p ps

le_trans_of :
    (a b c : NodeId)
    → IsNodeId a
    → IsNodeId b
    → IsNodeId c
    → not_gt (compare_direct a b) ≡ true
    → not_gt (compare_direct b c) ≡ true
    → not_gt (compare_direct a c) ≡ true
le_trans_of a b c h k l x y =
    ap not_gt (compare_direct-key a c h l)
    ∙ le_trans (key a) (key b) (key c) (sym (ap not_gt (compare_direct-key a b h k)) ∙ x)
        (sym (ap not_gt (compare_direct-key b c k l)) ∙ y)

le_total_of :
    (a b : NodeId)
    → IsNodeId a
    → IsNodeId b
    → not_gt (compare_direct a b) ≡ false
    → not_gt (compare_direct b a) ≡ true
le_total_of a b h k e = ap not_gt (
    compare_direct-key b a k h
    ∙ gt_swap (key a) (key b) (is_gt _ (sym (ap not_gt (compare_direct-key a b h k)) ∙ e)))
  where
    is_gt : (o : Ordering) → not_gt o ≡ false → o ≡ Ordering.gt
    is_gt Ordering.lt q = absurd (ground arith)
    is_gt Ordering.eq q = absurd (ground arith)
    is_gt Ordering.gt q = refl

AtMost-up :
    (a b : NodeId) (ps : List (ℕ × NodeId))
    → IsNodeId a
    → IsNodeId b
    → All IsEntry ps
    → not_gt (compare_direct a b) ≡ true
    → AtMost a ps
    → AtMost b ps
AtMost-up a b [] h k all e below = tt
AtMost-up a b (p ∷ ps) h k (first, all) e (x, below) =
    (le_trans_of p.1 a b first h k x e, AtMost-up a b ps h k all e below)

insert_entry-AtMost :
    (i : ℕ) (current id : NodeId) (ps : List (ℕ × NodeId))
    → not_gt (compare_direct current id) ≡ true
    → AtMost id ps
    → AtMost id (insert_entry (i, current) ps)
insert_entry-AtMost i current id [] e below = (e, tt)
insert_entry-AtMost i current id ((place, previous) ∷ ps) e (x, below) =
    if_both (AtMost id) (not_gt (compare_direct previous current)) _ _ (e, (x, below))
      (x, insert_entry-AtMost i current id ps e below)

insert_entry-Sorted :
    (i : ℕ) (current : NodeId) (ps : List (ℕ × NodeId))
    → IsNodeId current
    → All IsEntry ps
    → Sorted ps
    → Sorted (insert_entry (i, current) ps)
insert_entry-Sorted i current [] h all sorted = (tt, tt)
insert_entry-Sorted i current ((place, previous) ∷ ps) h (first, all) (below, sorted) =
    if_cases Sorted (not_gt (compare_direct previous current)) _ _
      (λ e. ((e, AtMost-up previous current ps first h all e below), (below, sorted)))
      (λ e. (
        insert_entry-AtMost i current previous ps (le_total_of previous current first h e) below,
        insert_entry-Sorted i current ps h all sorted,
      ))

insert_entry-All :
    (i : ℕ) (current : NodeId) (ps : List (ℕ × NodeId))
    → IsNodeId current
    → All IsEntry ps
    → All IsEntry (insert_entry (i, current) ps)
insert_entry-All i current [] h all = (h, tt)
insert_entry-All i current ((place, previous) ∷ ps) h (first, all) =
    if_both (All IsEntry) (not_gt (compare_direct previous current)) _ _ (h, (first, all))
      (first, insert_entry-All i current ps h all)

insert_entry-Has_new :
    (i : ℕ) (current : NodeId) (ps : List (ℕ × NodeId))
    → Has (i, current) (insert_entry (i, current) ps)
insert_entry-Has_new i current [] = inl refl
insert_entry-Has_new i current ((place, previous) ∷ ps) =
    if_both (Has (i, current)) (not_gt (compare_direct previous current)) _ _ (inl refl)
      (inr (insert_entry-Has_new i current ps))

insert_entry-Has :
    (i : ℕ) (current : NodeId) (p : ℕ × NodeId) (ps : List (ℕ × NodeId))
    → Has p ps
    → Has p (insert_entry (i, current) ps)
insert_entry-Has i current p [] has = absurd has
insert_entry-Has i current p ((place, previous) ∷ ps) has =
    if_both (Has p) (not_gt (compare_direct previous current)) _ _ (inr has)
      (later (insert_entry-Has i current p ps) has)
  where
    later :
        (Has p ps → Has p (insert_entry (i, current) ps))
        → Has p ((place, previous) ∷ ps)
        → Has p ((place, previous) ∷ insert_entry (i, current) ps)
    later ih (inl e) = inl e
    later ih (inr there) = inr (ih there)

-- The entries of the nodes from place `i` on, with those that were there.
pub insert_entries-Sorted :
    (i : ℕ) (todo : List NodeId) (ps : List (ℕ × NodeId))
    → All IsNodeId todo
    → All IsEntry ps
    → Sorted ps
    → Sorted (insert_entries i todo ps) × All IsEntry (insert_entries i todo ps)
insert_entries-Sorted i [] ps wf all sorted = (sorted, all)
insert_entries-Sorted i (current ∷ todo) ps (h, wf) all sorted =
    insert_entries-Sorted (suc i) todo (insert_entry (i, current) ps) wf
      (insert_entry-All i current ps h all) (insert_entry-Sorted i current ps h all sorted)

insert_entries-Has :
    (i : ℕ) (todo : List NodeId) (p : ℕ × NodeId) (ps : List (ℕ × NodeId))
    → Has p ps
    → Has p (insert_entries i todo ps)
insert_entries-Has i [] p ps has = has
insert_entries-Has i (current ∷ todo) p ps has =
    insert_entries-Has (suc i) todo p (insert_entry (i, current) ps)
      (insert_entry-Has i current p ps has)

first_entry :
    (i : ℕ) (current id : NodeId)
    → some current ≡ some id
    → ◌≡◌ {A = ℕ × NodeId} (i, current) (i + 0, id)
first_entry i current id e = ap₂ (λ a b. (a, b)) (omega arith) (cc e)

pub insert_entries-Has_new :
    (i k : ℕ) (todo : List NodeId) (id : NodeId) (ps : List (ℕ × NodeId))
    → get_elem? todo k ≡ some id
    → Has (i + k, id) (insert_entries i todo ps)
insert_entries-Has_new i k [] id ps e = absurd (ground arith)
insert_entries-Has_new i zero (current ∷ todo) id ps e =
    insert_entries-Has (suc i) todo (i + 0, id) (insert_entry (i, current) ps)
      (subst (λ q. Has q (insert_entry (i, current) ps)) (first_entry i current id e)
        (insert_entry-Has_new i current ps))
insert_entries-Has_new i (suc k) (current ∷ todo) id ps e =
    subst (λ n. Has (n, id) (insert_entries (suc i) todo (insert_entry (i, current) ps)))
      (omega arith) (insert_entries-Has_new (suc i) k todo id (insert_entry (i, current) ps) e)
