-- ===== src/AddressSpace/Equal.antt =====
-- Two well-formed NodeIds are equal to the code when their keys compare as equal.
use Prim.Native.Nat.{compare, Ordering}
use native.Mathlib.Omega.{compare-eq, compare-lt, compare-gt}
use muc_opcua.Common.{
  ℕ, ◌≡◌, refl, ap, ◌∙◌, List, Option, none, some, Bool, true, false, ◌==◌, ◌/=◌, if◌then◌else◌,
  arith,
}
use muc_opcua.Encoding.Types.{Identifier, numeric, string, guid, opaque, unknown, NodeId}
use muc_opcua.Encoding.Format.{IsStrOf, IsIdentifier, IsNodeId}
use muc_opcua.AddressSpace.{
  identifier_type, and_then, lex, biased, not_positive, compare_str, compare_identifier,
  compare_direct, is_eq, equal_str, equal_identifier, nodeid_equal,
}
use muc_opcua.AddressSpace.Key.{key, compare_direct-key, biased_eq}

-- A test for a difference decides as a comparison does.
ne_test :
    (a b : ℕ) (x : Bool) (r : Ordering)
    → (a ≡ b → x ≡ is_eq r)
    → (if a /= b then false else x) ≡ is_eq (and_then (compare a b) r)
ne_test a b x r h = by_order (compare a b) refl
  where
    by_order :
        (o : Ordering)
        → compare a b ≡ o
        → (if elim o [ Ordering.eq ↦ false | _ ↦ true ] then false else x) ≡ is_eq (and_then o r)
    by_order Ordering.lt e = refl
    by_order Ordering.eq e = h (compare-eq a b e)
    by_order Ordering.gt e = refl

-- So it does where the numbers are compared in another form.
ne_test_form :
    (a b c d : ℕ) (x : Bool) (r : Ordering)
    → (a ≡ b → c ≡ d)
    → (c ≡ d → a ≡ b)
    → (a ≡ b → x ≡ is_eq r)
    → (if a /= b then false else x) ≡ is_eq (and_then (compare c d) r)
ne_test_form a b c d x r to from h = by_order (compare a b) (compare c d) refl refl
  where
    by_order :
        (o p : Ordering)
        → compare a b ≡ o
        → compare c d ≡ p
        → (if elim o [ Ordering.eq ↦ false | _ ↦ true ] then false else x) ≡ is_eq (and_then p r)
    by_order Ordering.lt Ordering.lt e f = refl
    by_order Ordering.lt Ordering.gt e f = refl
    by_order Ordering.gt Ordering.lt e f = refl
    by_order Ordering.gt Ordering.gt e f = refl
    by_order Ordering.eq Ordering.eq e f = h (compare-eq a b e)
    by_order Ordering.lt Ordering.eq e f =
        absurd (omega (arith, compare-lt a b e, from (compare-eq c d f)))
    by_order Ordering.gt Ordering.eq e f =
        absurd (omega (arith, compare-gt a b e, from (compare-eq c d f)))
    by_order Ordering.eq Ordering.lt e f =
        absurd (omega (arith, compare-lt c d f, to (compare-eq a b e)))
    by_order Ordering.eq Ordering.gt e f =
        absurd (omega (arith, compare-gt c d f, to (compare-eq a b e)))

if-is_eq :
    (b : Bool) (x : Bool) (r : Ordering)
    → x ≡ is_eq r
    → (if b then true else x) ≡ is_eq (if b then Ordering.eq else r)
if-is_eq true x r h = refl
if-is_eq false x r h = h

equal_str_lem :
    (n m : ℕ) (o p : Option (List ℕ))
    → IsStrOf n o
    → IsStrOf m p
    → equal_str (record { length = n; bytes = o }) (record { length = m; bytes = p })
      ≡ is_eq (compare_str (record { length = n; bytes = o }) (record { length = m; bytes = p }))
equal_str_lem n m none none h k = ground arith
equal_str_lem n m none (some ys) h (k, small) = ground arith
equal_str_lem n m (some xs) none (h, small) k = ground arith
equal_str_lem n m (some xs) (some ys) (h, small) (k, small') =
    ne_test_form n m (biased n) (biased m) _ _ (ap biased) (biased_eq n m small small')
      (λ _. if-is_eq (not_positive n) _ _ refl)

equal_identifier_lem :
    (a b : Identifier)
    → IsIdentifier a
    → IsIdentifier b
    → identifier_type a ≡ identifier_type b
    → equal_identifier a b ≡ is_eq (compare_identifier a b)
equal_identifier_lem (numeric a) (numeric b) h k e = by_order (compare a b)
  where
    by_order : (o : Ordering) → elim o [ Ordering.eq ↦ true | _ ↦ false ] ≡ is_eq o
    by_order Ordering.lt = refl
    by_order Ordering.eq = refl
    by_order Ordering.gt = refl
equal_identifier_lem (string s) (string t) h k e =
    equal_str_lem s.length t.length s.bytes t.bytes h k
equal_identifier_lem (guid xs) (guid ys) h k e = refl
equal_identifier_lem (opaque m xs) (opaque n ys) h k e =
    ne_test m n _ _ (λ _. if-is_eq (m == 0) _ _ refl)
equal_identifier_lem (unknown t) b h k e = absurd h
equal_identifier_lem a (unknown t) h k e = absurd k
equal_identifier_lem (numeric a) (string t) h k e = absurd (omega (arith, e))
equal_identifier_lem (numeric a) (guid ys) h k e = absurd (omega (arith, e))
equal_identifier_lem (numeric a) (opaque n ys) h k e = absurd (omega (arith, e))
equal_identifier_lem (string s) (numeric b) h k e = absurd (omega (arith, e))
equal_identifier_lem (string s) (guid ys) h k e = absurd (omega (arith, e))
equal_identifier_lem (string s) (opaque n ys) h k e = absurd (omega (arith, e))
equal_identifier_lem (guid xs) (numeric b) h k e = absurd (omega (arith, e))
equal_identifier_lem (guid xs) (string t) h k e = absurd (omega (arith, e))
equal_identifier_lem (guid xs) (opaque n ys) h k e = absurd (omega (arith, e))
equal_identifier_lem (opaque m xs) (numeric b) h k e = absurd (omega (arith, e))
equal_identifier_lem (opaque m xs) (string t) h k e = absurd (omega (arith, e))
equal_identifier_lem (opaque m xs) (guid ys) h k e = absurd (omega (arith, e))

nodeid_equal-compare_direct :
    (a b : NodeId) → IsNodeId a → IsNodeId b → nodeid_equal a b ≡ is_eq (compare_direct a b)
unfolding nodeid_equal compare_direct
nodeid_equal-compare_direct a b (_, h) (_, k) =
    ne_test a.namespace_index b.namespace_index _ _ (λ _.
      ne_test (identifier_type a.identifier) (identifier_type b.identifier) _ _
        (equal_identifier_lem a.identifier b.identifier h k))

pub nodeid_equal-key :
    (a b : NodeId) → IsNodeId a → IsNodeId b → nodeid_equal a b ≡ is_eq (lex (key a) (key b))
nodeid_equal-key a b h k =
    nodeid_equal-compare_direct a b h k ∙ ap is_eq (compare_direct-key a b h k)
