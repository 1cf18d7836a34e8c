-- ===== src/Common/Slots.antt =====
-- An array of which the first slots are in use: taking, dropping and storing.
use Prim.Native.Nat.{ℕ, zero, suc, ◌<◌}
use mathlib.Core.Path.{◌≡◌, refl, ap}
use mathlib.Core.Bool.{Bool, true, false}
use mathlib.Core.List.{List, [], ◌∷◌, ◌++◌}
use mathlib.Core.Option.{some}
use native.Mathlib.Omega.{arith}
use muc_opcua.Common.Lists.{length, get_elem?, set, take}
use muc_opcua.Common.Tests.{if◌then◌else◌}

module _ {ℓ} {A : Type ℓ} where
  abbrev pub drop : ℕ → List A → List A
  drop zero xs = xs
  drop (suc n) [] = []
  drop (suc n) (x ∷ xs) = drop n xs

  abbrev pub filter : (A → Bool) → List A → List A
  filter p [] = []
  filter p (x ∷ xs) = let rest = filter p xs in if p x then x ∷ rest else rest

  pub append_nil : (xs : List A) → xs ++ [] ≡ xs
  append_nil [] = refl
  append_nil (x ∷ xs) = ap (λ t. x ∷ t) (append_nil xs)

  pub append_assoc : (xs ys zs : List A) → (xs ++ ys) ++ zs ≡ xs ++ (ys ++ zs)
  append_assoc [] ys zs = refl
  append_assoc (x ∷ xs) ys zs = ap (λ t. x ∷ t) (append_assoc xs ys zs)

  pub filter-append :
      (p : A → Bool) (xs ys : List A) → filter p (xs ++ ys) ≡ filter p xs ++ filter p ys
  filter-append p [] ys = refl
  filter-append p (x ∷ xs) ys = by_test (p x) (filter-append p xs ys)
    where
      by_test :
          (b : Bool)
          → filter p (xs ++ ys) ≡ filter p xs ++ filter p ys
          → (if b then x ∷ filter p (xs ++ ys) else filter p (xs ++ ys))
            ≡ (if b then x ∷ filter p xs else filter p xs) ++ filter p ys
      by_test true ih = ap (λ t. x ∷ t) ih
      by_test false ih = ih

  -- A slot inside the array is there.
  pub get_elem?-lt : (xs : List A) (i : ℕ) → i < length xs → (x : A) × (get_elem? xs i ≡ some x)
  get_elem?-lt [] i h = elim h [ ]
  get_elem?-lt (x ∷ xs) zero h = (x, refl)
  get_elem?-lt (x ∷ xs) (suc i) h = get_elem?-lt xs i (omega arith)

  pub drop-get :
      (xs : List A) (i : ℕ) (x : A) → get_elem? xs i ≡ some x → drop i xs ≡ x ∷ drop (suc i) xs
  drop-get [] i x e = ground arith
  drop-get (y ∷ xs) zero x e = ground arith
  drop-get (y ∷ xs) (suc i) x e = drop-get xs i x e

  pub take-get :
      (xs : List A) (i : ℕ) (x : A)
      → get_elem? xs i ≡ some x
      → take (suc i) xs ≡ take i xs ++ (x ∷ [])
  take-get [] i x e = ground arith
  take-get (y ∷ xs) zero x e = ground arith
  take-get (y ∷ xs) (suc i) x e = ap (λ t. y ∷ t) (take-get xs i x e)

  -- A store in the first free slot, in a used one, and before the part that is looked at.
  pub take-set_end :
      (xs : List A) (i : ℕ) (x : A)
      → i < length xs
      → take (suc i) (set xs i x) ≡ take i xs ++ (x ∷ [])
  take-set_end [] i x h = elim h [ ]
  take-set_end (y ∷ xs) zero x h = refl
  take-set_end (y ∷ xs) (suc i) x h = ap (λ t. y ∷ t) (take-set_end xs i x (omega arith))

  pub take-set_inside :
      (xs : List A) (n i : ℕ) (x : A) → i < n → take n (set xs i x) ≡ set (take n xs) i x
  take-set_inside xs zero i x h = elim h [ ]
  take-set_inside [] (suc n) i x h = refl
  take-set_inside (y ∷ xs) (suc n) zero x h = refl
  take-set_inside (y ∷ xs) (suc n) (suc i) x h =
      ap (λ t. y ∷ t) (take-set_inside xs n i x (omega arith))

  pub drop-set_before : (xs : List A) (n i : ℕ) (x : A) → i < n → drop n (set xs i x) ≡ drop n xs
  drop-set_before xs zero i x h = elim h [ ]
  drop-set_before [] (suc n) i x h = refl
  drop-set_before (y ∷ xs) (suc n) zero x h = refl
  drop-set_before (y ∷ xs) (suc n) (suc i) x h = drop-set_before xs n i x (omega arith)
