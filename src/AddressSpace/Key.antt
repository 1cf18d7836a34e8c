-- ===== src/AddressSpace/Key.antt =====
-- The order of well-formed NodeIds is that of their keys, as words.
use Prim.Native.Nat.{compare, Ordering}
use native.Mathlib.Omega.{compare-eq}
use muc_opcua.Common.{
  ℕ, ◌≤◌, ◌≡◌, refl, sym, ◌∙◌, List, [], ◌∷◌, Option, none, some, Bool, true, false, ◌==◌,
  if◌then◌else◌, length, take_all, arith, ==→eq,
}
use muc_opcua.Encoding.Types.{Identifier, numeric, string, guid, opaque, unknown, NodeId}
use muc_opcua.Encoding.Format.{IsStrOf, IsIdentifier, IsNodeId}
use muc_opcua.AddressSpace.{
  identifier_type, and_then, lex, memcmp, biased, not_positive, compare_str, compare_identifier,
  compare_direct,
}

abbrev pub bytes_of : Option (List ℕ) → List ℕ
bytes_of none = []
bytes_of (some bs) = bs

abbrev pub identifier_key : Identifier → List ℕ
identifier_key (numeric id) = id ∷ []
identifier_key (string s) = biased s.length ∷ bytes_of s.bytes
identifier_key (guid bs) = bs
identifier_key (opaque len bs) = len ∷ bs
identifier_key (unknown t) = []

abbrev pub key : NodeId → List ℕ
key id = id.namespace_index ∷ identifier_type id.identifier ∷ identifier_key id.identifier

pub lex_same : (xs : List ℕ) → lex xs xs ≡ Ordering.eq
lex_same [] = refl
lex_same (x ∷ xs) = ground (arith, lex_same xs)

-- What follows a comparison counts where it finds no difference.
and_then-cong :
    (a b : ℕ) (p q : Ordering)
    → (a ≡ b → p ≡ q)
    → and_then (compare a b) p ≡ and_then (compare a b) q
and_then-cong a b p q h = by_order (compare a b) refl
  where
    by_order : (o : Ordering) → compare a b ≡ o → and_then o p ≡ and_then o q
    by_order Ordering.lt e = refl
    by_order Ordering.eq e = h (compare-eq a b e)
    by_order Ordering.gt e = refl

memcmp_all : (xs ys : List ℕ) (n : ℕ) → n ≡ length xs → n ≡ length ys → memcmp xs ys n ≡ lex xs ys
memcmp_all xs ys n h k = rw (take_all xs n h, take_all ys n k) refl

data_lem :
    (xs ys : List ℕ) (n : ℕ) (empty : Bool)
    → n ≡ length xs
    → n ≡ length ys
    → (empty ≡ true → n ≡ 0)
    → (if empty then Ordering.eq else memcmp xs ys n) ≡ lex xs ys
data_lem xs ys n false h k z = memcmp_all xs ys n h k
data_lem [] [] n true h k z = refl
data_lem [] (y ∷ ys) n true h k z = absurd (omega (arith, h, k))
data_lem (x ∷ xs) ys n true h k z = absurd (omega (arith, h, z refl))

not_positive-zero : (n : ℕ) → n ≤ 4096 → not_positive n ≡ true → n ≡ 0
not_positive-zero n h e = ground arith

pub biased_eq : (n m : ℕ) → n ≤ 4096 → m ≤ 4096 → biased n ≡ biased m → n ≡ m
biased_eq n m h k e = omega arith

compare_str_lem :
    (n m : ℕ) (o p : Option (List ℕ))
    → IsStrOf n o
    → IsStrOf m p
    → compare_str (record { length = n; bytes = o }) (record { length = m; bytes = p })
      ≡ lex (biased n ∷ bytes_of o) (biased m ∷ bytes_of p)
compare_str_lem n m none none h k = ground arith
compare_str_lem n m none (some ys) h (k, small) = ground arith
compare_str_lem n m (some xs) none (h, small) k = ground arith
compare_str_lem n m (some xs) (some ys) (h, small) (k, small') =
    and_then-cong (biased n) (biased m) _ _ (λ e.
      data_lem xs ys n (not_positive n) h (omega (arith, biased_eq n m small small' e))
        (not_positive-zero n small))

compare_identifier_lem :
    (a b : Identifier)
    → IsIdentifier a
    → IsIdentifier b
    → identifier_type a ≡ identifier_type b
    → compare_identifier a b ≡ lex (identifier_key a) (identifier_key b)
compare_identifier_lem (numeric a) (numeric b) h k e = by_order (compare a b)
  where
    by_order : (o : Ordering) → o ≡ and_then o Ordering.eq
    by_order Ordering.lt = refl
    by_order Ordering.eq = refl
    by_order Ordering.gt = refl
compare_identifier_lem (string s) (string t) h k e =
    compare_str_lem s.length t.length s.bytes t.bytes h k
compare_identifier_lem (guid xs) (guid ys) h k e = memcmp_all xs ys 16 (sym h) (sym k)
compare_identifier_lem (opaque m xs) (opaque n ys) (h, _) (k, _) e =
    and_then-cong m n _ _ (λ q. data_lem xs ys m (m == 0) h (q ∙ k) (==→eq m 0))
compare_identifier_lem (unknown t) b h k e = absurd h
compare_identifier_lem a (unknown t) h k e = absurd k
compare_identifier_lem (numeric a) (string t) h k e = absurd (omega (arith, e))
compare_identifier_lem (numeric a) (guid ys) h k e = absurd (omega (arith, e))
compare_identifier_lem (numeric a) (opaque n ys) h k e = absurd (omega (arith, e))
compare_identifier_lem (string s) (numeric b) h k e = absurd (omega (arith, e))
compare_identifier_lem (string s) (guid ys) h k e = absurd (omega (arith, e))
compare_identifier_lem (string s) (opaque n ys) h k e = absurd (omega (arith, e))
compare_identifier_lem (guid xs) (numeric b) h k e = absurd (omega (arith, e))
compare_identifier_lem (guid xs) (string t) h k e = absurd (omega (arith, e))
compare_identifier_lem (guid xs) (opaque n ys) h k e = absurd (omega (arith, e))
compare_identifier_lem (opaque m xs) (numeric b) h k e = absurd (omega (arith, e))
compare_identifier_lem (opaque m xs) (string t) h k e = absurd (omega (arith, e))
compare_identifier_lem (opaque m xs) (guid ys) h k e = absurd (omega (arith, e))

-- The order of NodeIds is that of their keys.
pub compare_direct-key :
    (a b : NodeId) → IsNodeId a → IsNodeId b → compare_direct a b ≡ lex (key a) (key b)
unfolding compare_direct
compare_direct-key a b (_, h) (_, k) = and_then-cong a.namespace_index b.namespace_index _ _ (λ _.
    and_then-cong (identifier_type a.identifier) (identifier_type b.identifier) _ _
      (compare_identifier_lem a.identifier b.identifier h k))
