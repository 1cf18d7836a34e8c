-- ===== src/Subscription/Lifecycle/Slots.antt =====
-- src/cu/core_2022_server/subscription/basic/tick.c: a write to the first slot
-- that passes a test, and what it keeps of an array.
use muc_opcua.Common.{
  suc, ◌+◌, ◌≡◌, inl, inr, refl, List, [], ◌∷◌, Option, none, some, Bool, true, false, length,
  Bool-cases, arith, ap,
}
use muc_opcua.Subscription.Lifecycle.{write_first, write_all, in_front, count_slots}

module _ {A : Type 0} where
  -- What holds of the array, when one is written.
  abbrev pub Holds : (List A → Type 0) → Option (List A) → Type 0
  Holds P none = Unit
  Holds P (some ys) = P ys

  pub Holds-in_front :
      (P Q : List A → Type 0) (x : A)
      → ((ys : List A) → Q ys → P (x ∷ ys))
      → (written : Option (List A)) → Holds Q written
      → Holds P (in_front x written)
  Holds-in_front P Q x h none q = tt
  Holds-in_front P Q x h (some ys) q = h ys q

  pub Holds-any :
      (P : List A → Type 0) → ((ys : List A) → P ys) → (written : Option (List A)) → Holds P written
  Holds-any P h none = tt
  Holds-any P h (some ys) = h ys

  pub Holds-map :
      (P Q : List A → Type 0)
      → ((ys : List A) → P ys → Q ys)
      → (written : Option (List A)) → Holds P written
      → Holds Q written
  Holds-map P Q h none k = tt
  Holds-map P Q h (some ys) k = h ys k

  pub Holds-and :
      (P Q : List A → Type 0) (written : Option (List A))
      → Holds P written
      → Holds Q written
      → Holds (λ ys. P ys × Q ys) written
  Holds-and P Q none p q = tt
  Holds-and P Q (some ys) p q = (p, q)

  pub length-write_first :
      (p : A → Bool) (f : A → A) (xs : List A)
      → Holds (λ ys. length ys ≡ length xs) (write_first p f xs)
  length-write_first p f [] = tt
  length-write_first p f (x ∷ xs) = elim (Bool-cases (p x)) [
    | inl e ↦ rw e refl
    | inr e ↦ rw e (
        Holds-in_front (λ ys. length ys ≡ suc (length xs)) (λ ys. length ys ≡ length xs) x
          (λ ys h. ap suc h) (write_first p f xs) (length-write_first p f xs))
  ]

  -- A count goes up by one when the slot that is written did not count and does now, and down by one
  -- the other way round.
  pub count-up :
      (p q : A → Bool) (f : A → A)
      → ((x : A) → p x ≡ true → (q x ≡ false) × (q (f x) ≡ true))
      → (xs : List A) → Holds (λ ys. count_slots q ys ≡ count_slots q xs + 1) (write_first p f xs)
  count-up p q f h [] = tt
  count-up p q f h (x ∷ xs) = elim (Bool-cases (p x)) [
    | inl e ↦ let (before, after) = h x e in rw (e, before, after) refl
    | inr e ↦ rw e (
        Holds-in_front (λ ys. count_slots q ys ≡ count_slots q (x ∷ xs) + 1)
          (λ ys. count_slots q ys ≡ count_slots q xs + 1) x (λ ys ih. ground arith)
          (write_first p f xs) (count-up p q f h xs))
  ]

  pub count-down :
      (p q : A → Bool) (f : A → A)
      → ((x : A) → p x ≡ true → (q x ≡ true) × (q (f x) ≡ false))
      → (xs : List A) → Holds (λ ys. count_slots q ys + 1 ≡ count_slots q xs) (write_first p f xs)
  count-down p q f h [] = tt
  count-down p q f h (x ∷ xs) = elim (Bool-cases (p x)) [
    | inl e ↦ let (before, after) = h x e in rw (e, before, after) refl
    | inr e ↦ rw e (
        Holds-in_front (λ ys. count_slots q ys + 1 ≡ count_slots q (x ∷ xs))
          (λ ys. count_slots q ys + 1 ≡ count_slots q xs) x (λ ys ih. ground arith)
          (write_first p f xs) (count-down p q f h xs))
  ]

  pub count-write_all :
      (p q : A → Bool) (y : A)
      → ((x : A) → p x ≡ true → q x ≡ true)
      → q y ≡ false
      → (xs : List A) → count_slots q (write_all p y xs) + count_slots p xs ≡ count_slots q xs
  count-write_all p q y h hy [] = refl
  count-write_all p q y h hy (x ∷ xs) =
      let rest = count-write_all p q y h hy xs in
      elim (Bool-cases (p x)) [
        | inl e ↦ let counted = h x e in rw (e, hy, counted) (ground arith)
        | inr e ↦ rw e (ground arith)
      ]
