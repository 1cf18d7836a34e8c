-- ===== src/AddressSpace/Index/Lookup.antt =====
-- The linear search finds the one node that is equal; so do the others, where that is what they
-- find.
-- The lookups find what the linear search finds.
use Prim.Native.Nat.{Ordering}
use muc_opcua.Common.{
  ℕ, zero, suc, ◌+◌, ◌≡◌, refl, sym, ap, ◌∙◌, subst, inl, inr, List, [], ◌∷◌, some, none, Bool,
  true, false, ◌||◌, All, get_elem?, arith, Bool-cases,
}
use muc_opcua.Encoding.Types.{NodeId}
use muc_opcua.Encoding.Format.{IsNodeId}
use muc_opcua.AddressSpace.{compare_direct, nodeid_equal, lex, is_eq}
use muc_opcua.AddressSpace.Key.{key, compare_direct-key, lex_same}
use muc_opcua.AddressSpace.Equal.{nodeid_equal-key}
use muc_opcua.AddressSpace.Order.{lex_eq}
use muc_opcua.AddressSpace.Index.{find_from, occurs, has_duplicate}

is_eq-eq : (o : Ordering) → is_eq o ≡ true → o ≡ Ordering.eq
is_eq-eq Ordering.lt e = absurd (ground arith)
is_eq-eq Ordering.eq e = refl
is_eq-eq Ordering.gt e = absurd (ground arith)

equal_keys : (a b : NodeId) → IsNodeId a → IsNodeId b → nodeid_equal a b ≡ true → key a ≡ key b
equal_keys a b h k e = lex_eq (key a) (key b) (is_eq-eq _ (sym (nodeid_equal-key a b h k) ∙ e))

-- Two NodeIds that are equal to a third are equal.
equal_common :
    (a b c : NodeId)
    → IsNodeId a
    → IsNodeId b
    → IsNodeId c
    → nodeid_equal a c ≡ true
    → nodeid_equal b c ≡ true
    → nodeid_equal a b ≡ true
equal_common a b c h k l e f =
    nodeid_equal-key a b h k
    ∙ ap is_eq (
        ap (λ t. lex t (key b)) (equal_keys a c h l e ∙ sym (equal_keys b c k l f))
        ∙ lex_same (key b))

pub equal_of_compare :
    (a b : NodeId) → IsNodeId a → IsNodeId b → nodeid_equal a b ≡ is_eq (compare_direct a b)
equal_of_compare a b h k = nodeid_equal-key a b h k ∙ sym (ap is_eq (compare_direct-key a b h k))

pub All-get :
    (nodes : List NodeId) (k : ℕ) (node : NodeId)
    → All IsNodeId nodes
    → get_elem? nodes k ≡ some node
    → IsNodeId node
All-get [] k node all e = absurd (ground arith)
All-get (x ∷ xs) zero node (h, all) e = subst IsNodeId (cc e) h
All-get (x ∷ xs) (suc k) node (h, all) e = All-get xs k node all e

pub linear_none :
    (i : ℕ) (nodes : List NodeId) (id : NodeId)
    → ((k : ℕ) (node : NodeId) → get_elem? nodes k ≡ some node → nodeid_equal node id ≡ false)
    → find_from i nodes id ≡ none
unfolding find_from
linear_none i [] id h = refl
linear_none i (x ∷ xs) id h =
    rw (h 0 x refl) (linear_none (suc i) xs id (λ k node e. h (suc k) node e))

or_false : (a b : Bool) → (a || b) ≡ false → (a ≡ false) × (b ≡ false)
or_false true b e = absurd (ground arith)
or_false false b e = (refl, e)

occurs-get :
    (id : NodeId) (nodes : List NodeId) (k : ℕ) (node : NodeId)
    → occurs id nodes ≡ false
    → get_elem? nodes k ≡ some node
    → nodeid_equal id node ≡ false
unfolding occurs
occurs-get id [] k node none_of e = absurd (ground arith)
occurs-get id (x ∷ xs) zero node none_of e =
    subst (λ t. nodeid_equal id t ≡ false) (cc e)
      (or_false (nodeid_equal id x) (occurs id xs) none_of).0
occurs-get id (x ∷ xs) (suc k) node none_of e =
    occurs-get id xs k node (or_false (nodeid_equal id x) (occurs id xs) none_of).1 e

-- Of distinct nodes only one is equal to what is looked up.
pub linear_some :
    (i : ℕ) (nodes : List NodeId) (id : NodeId) (k : ℕ) (node : NodeId)
    → All IsNodeId nodes
    → IsNodeId id
    → has_duplicate nodes ≡ false
    → get_elem? nodes k ≡ some node
    → nodeid_equal node id ≡ true
    → find_from i nodes id ≡ some (i + k)
unfolding find_from has_duplicate
linear_some i [] id k node all wf distinct e f = absurd (ground arith)
linear_some i (x ∷ xs) id zero node all wf distinct e f =
    let same : node ≡ x = cc e in
    rw (subst (λ t. nodeid_equal t id ≡ true) same f) (ap some (omega arith))
linear_some i (x ∷ xs) id (suc k) node (h, all) wf distinct e f =
    elim (Bool-cases (nodeid_equal x id)) [
      | inl first ↦ absurd (
          cc (
            sym (equal_common x node id h (All-get xs k node all e) wf first f)
            ∙ occurs-get x xs k node (or_false (occurs x xs) (has_duplicate xs) distinct).0 e))
      | inr other ↦ rw other (
          linear_some (suc i) xs id k node all wf
            (or_false (occurs x xs) (has_duplicate xs) distinct).1 e f
          ∙ ap some (omega arith))
    ]
