-- ===== src/AddressSpace/Total.antt =====
-- The order of NodeIds that the index and the base address space are sorted by.
use Prim.Native.Nat.{Ordering}
use muc_opcua.Common.{◌≡◌, sym, ap, ◌∙◌}
use muc_opcua.Encoding.Types.{NodeId}
use muc_opcua.Encoding.Format.{IsNodeId}
use muc_opcua.AddressSpace.{compare_direct, nodeid_equal, is_eq}
use muc_opcua.AddressSpace.Key.{key, compare_direct-key}
use muc_opcua.AddressSpace.Equal.{nodeid_equal-key}
use muc_opcua.AddressSpace.Order.{swap, swap_lem, lex-lt_trans}

-- The comparison of well-formed NodeIds is a total order: exchanging the two exchanges less and
-- greater, less is transitive, and it is equal on those NodeIds that `mu_nodeid_equal` takes for
-- equal.
pub compare_direct-total :
    (a b c : NodeId)
    → IsNodeId a
    → IsNodeId b
    → IsNodeId c
    → (compare_direct b a ≡ swap (compare_direct a b))
      × (compare_direct a b ≡ Ordering.lt
          → compare_direct b c ≡ Ordering.lt
          → compare_direct a c ≡ Ordering.lt)
      × (nodeid_equal a b ≡ is_eq (compare_direct a b))
compare_direct-total a b c h k l = (
  compare_direct-key b a k h
      ∙ swap_lem (key a) (key b)
      ∙ ap swap (sym (compare_direct-key a b h k)),
  λ x y.
      compare_direct-key a c h l
      ∙ lex-lt_trans (key a) (key b) (key c) (sym (compare_direct-key a b h k) ∙ x)
          (sym (compare_direct-key b c k l) ∙ y),
  nodeid_equal-key a b h k ∙ sym (ap is_eq (compare_direct-key a b h k)),
)
