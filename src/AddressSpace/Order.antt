-- ===== src/AddressSpace/Order.antt =====
-- The order of words, and so of NodeIds, is total: at most one of less, equal and greater, and each
-- is transitive.
use Prim.Native.Nat.{compare, Ordering}
use native.Mathlib.Omega.{compare-eq, compare-lt, compare-gt}
use muc_opcua.Common.{ℕ, ◌<◌, ◌≡◌, refl, sym, ap, ap₂, ◌∙◌, subst, List, [], ◌∷◌, true, arith}
use muc_opcua.AddressSpace.{and_then, lex, not_gt}

lt→compare : (a b : ℕ) → a < b → compare a b ≡ Ordering.lt
lt→compare a b h = ground arith

gt→compare : (a b : ℕ) → b < a → compare a b ≡ Ordering.gt
gt→compare a b h = ground arith

compare_self : (a : ℕ) → compare a a ≡ Ordering.eq
compare_self a = ground arith

-- What a comparison of the heads says, with the rest where they are equal.
data Heads (a b : ℕ) : Ordering → Type 0 where
  below : a < b → Heads a b Ordering.lt
  same : a ≡ b → Heads a b Ordering.eq
  above : b < a → Heads a b Ordering.gt

heads : (a b : ℕ) → Heads a b (compare a b)
heads a b = by_order (compare a b) refl
  where
    by_order : (o : Ordering) → compare a b ≡ o → Heads a b o
    by_order Ordering.lt e = below (compare-lt a b e)
    by_order Ordering.eq e = same (compare-eq a b e)
    by_order Ordering.gt e = above (compare-gt a b e)

abbrev pub swap : Ordering → Ordering
swap Ordering.lt = Ordering.gt
swap Ordering.eq = Ordering.eq
swap Ordering.gt = Ordering.lt

swap-Heads :
    (a b : ℕ) (o p q : Ordering)
    → Heads a b o
    → q ≡ swap p
    → and_then (compare b a) q ≡ swap (and_then o p)
swap-Heads a b o p q (below h) e = rw (gt→compare b a h) refl
swap-Heads a b o p q (same h) e = rw (h, compare_self b) e
swap-Heads a b o p q (above h) e = rw (lt→compare b a h) refl

pub swap_lem : (xs ys : List ℕ) → lex ys xs ≡ swap (lex xs ys)
swap_lem [] [] = refl
swap_lem [] (y ∷ ys) = refl
swap_lem (x ∷ xs) [] = refl
swap_lem (x ∷ xs) (y ∷ ys) = swap-Heads x y (compare x y) _ _ (heads x y) (swap_lem xs ys)

eq-Heads :
    (a b : ℕ) (o p : Ordering)
    → Heads a b o
    → and_then o p ≡ Ordering.eq
    → (a ≡ b) × (p ≡ Ordering.eq)
eq-Heads a b o p (below h) e = absurd (ground arith)
eq-Heads a b o p (same h) e = (h, e)
eq-Heads a b o p (above h) e = absurd (ground arith)

pub lex_eq : (xs ys : List ℕ) → lex xs ys ≡ Ordering.eq → xs ≡ ys
lex_eq [] [] e = refl
lex_eq [] (y ∷ ys) e = absurd (ground arith)
lex_eq (x ∷ xs) [] e = absurd (ground arith)
lex_eq (x ∷ xs) (y ∷ ys) e =
    let h = eq-Heads x y (compare x y) (lex xs ys) (heads x y) e in
    ap₂ (λ a as'. a ∷ as') h.0 (lex_eq xs ys h.1)

lt-Heads :
    (a b c : ℕ) (o p q r s : Ordering)
    → Heads a b o
    → Heads b c p
    → and_then o q ≡ Ordering.lt
    → and_then p r ≡ Ordering.lt
    → (q ≡ Ordering.lt → r ≡ Ordering.lt → s ≡ Ordering.lt)
    → and_then (compare a c) s ≡ Ordering.lt
lt-Heads a b c o p q r s (below h) (below k) e f step = rw (lt→compare a c (omega arith)) refl
lt-Heads a b c o p q r s (below h) (same k) e f step = rw (lt→compare a c (omega arith)) refl
lt-Heads a b c o p q r s (same h) (below k) e f step = rw (lt→compare a c (omega arith)) refl
lt-Heads a b c o p q r s (same h) (same k) e f step = rw (h, k, compare_self c) (step e f)
lt-Heads a b c o p q r s (above h) k e f step = absurd (ground arith)
lt-Heads a b c o p q r s h (above k) e f step = absurd (ground arith)

pub lex-lt_trans :
    (xs ys zs : List ℕ)
    → lex xs ys ≡ Ordering.lt
    → lex ys zs ≡ Ordering.lt
    → lex xs zs ≡ Ordering.lt
lex-lt_trans [] [] zs e f = f
lex-lt_trans [] (y ∷ ys) [] e f = absurd (ground arith)
lex-lt_trans [] (y ∷ ys) (z ∷ zs) e f = refl
lex-lt_trans (x ∷ xs) [] zs e f = absurd (ground arith)
lex-lt_trans (x ∷ xs) (y ∷ ys) [] e f = absurd (ground arith)
lex-lt_trans (x ∷ xs) (y ∷ ys) (z ∷ zs) e f =
    lt-Heads x y z (compare x y) (compare y z) (lex xs ys) (lex ys zs) (lex xs zs) (heads x y)
      (heads y z) e f (lex-lt_trans xs ys zs)

pub le_lt :
    (xs ys zs : List ℕ)
    → not_gt (lex xs ys) ≡ true
    → lex ys zs ≡ Ordering.lt
    → lex xs zs ≡ Ordering.lt
le_lt xs ys zs h k = by_order (lex xs ys) refl h
  where
    by_order : (o : Ordering) → lex xs ys ≡ o → not_gt o ≡ true → lex xs zs ≡ Ordering.lt
    by_order Ordering.lt e q = lex-lt_trans xs ys zs e k
    by_order Ordering.eq e q = subst (λ t. lex t zs ≡ Ordering.lt) (sym (lex_eq xs ys e)) k
    by_order Ordering.gt e q = absurd (ground arith)

pub lt_le :
    (xs ys zs : List ℕ)
    → lex xs ys ≡ Ordering.lt
    → not_gt (lex ys zs) ≡ true
    → lex xs zs ≡ Ordering.lt
lt_le xs ys zs k h = by_order (lex ys zs) refl h
  where
    by_order : (o : Ordering) → lex ys zs ≡ o → not_gt o ≡ true → lex xs zs ≡ Ordering.lt
    by_order Ordering.lt e q = lex-lt_trans xs ys zs k e
    by_order Ordering.eq e q = subst (λ t. lex xs t ≡ Ordering.lt) (lex_eq ys zs e) k
    by_order Ordering.gt e q = absurd (ground arith)

pub le_trans :
    (xs ys zs : List ℕ)
    → not_gt (lex xs ys) ≡ true
    → not_gt (lex ys zs) ≡ true
    → not_gt (lex xs zs) ≡ true
le_trans xs ys zs h k = by_order (lex xs ys) refl h
  where
    by_order : (o : Ordering) → lex xs ys ≡ o → not_gt o ≡ true → not_gt (lex xs zs) ≡ true
    by_order Ordering.lt e q = ap not_gt (lt_le xs ys zs e k)
    by_order Ordering.eq e q = subst (λ t. not_gt (lex t zs) ≡ true) (sym (lex_eq xs ys e)) k
    by_order Ordering.gt e q = absurd (ground arith)

pub gt_swap : (xs ys : List ℕ) → lex xs ys ≡ Ordering.gt → lex ys xs ≡ Ordering.lt
gt_swap xs ys e = swap_lem xs ys ∙ ap swap e

pub lt_swap : (xs ys : List ℕ) → lex xs ys ≡ Ordering.lt → lex ys xs ≡ Ordering.gt
lt_swap xs ys e = swap_lem xs ys ∙ ap swap e

pub le_gt :
    (xs ys zs : List ℕ)
    → not_gt (lex xs ys) ≡ true
    → lex xs zs ≡ Ordering.gt
    → lex ys zs ≡ Ordering.gt
le_gt xs ys zs h k = lt_swap zs ys (lt_le zs xs ys (gt_swap xs zs k) h)
