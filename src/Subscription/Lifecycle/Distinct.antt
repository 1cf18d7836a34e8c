-- ===== src/Subscription/Lifecycle/Distinct.antt =====
-- src/cu/core_2022_server/subscription/basic/tick.c: arrays of subscriptions in
-- which no id is in use twice, under a write to one slot.
use muc_opcua.Common.{
  ℕ, zero, suc, ◌≡◌, ◌⊎◌, inl, inr, refl, sym, subst, ap, ◌∙◌, List, [], ◌∷◌, Option, none, some,
  Bool, true, false, if◌then◌else◌, Bool-cases, arith, get_elem?, set,
}
use muc_opcua.Subscription.Lifecycle.{Subscription, write_first, any_slot, has_id}
use muc_opcua.Subscription.Lifecycle.Slots.{Holds, Holds-in_front, Holds-and, Holds-any, Holds-map}

abbrev pub Distinct : List Subscription → Type 0
Distinct [] = Unit
Distinct (s ∷ ss) = Distinct ss × (s.in_use ≡ true → any_slot (has_id s.subscription_id) ss ≡ false)

pub cond_false : (b r : Bool) → (if b then true else r) ≡ false → (b ≡ false) × (r ≡ false)
cond_false true r h = absurd (true_false h)
  where
    true_false : true ≡ false → ⊥
    true_false p = cc
cond_false false r h = (refl, h)

pub has_id-own : (s : Subscription) → s.in_use ≡ true → has_id s.subscription_id s ≡ true
has_id-own s h = ground arith

has_id-same :
    (i : ℕ) (s : Subscription) → has_id i s ≡ true → (s.in_use ≡ true) × (s.subscription_id ≡ i)
has_id-same i s h = ground arith

true-false : (b : Bool) → b ≡ true → b ≡ false → ⊥
true-false b h k = cc

not-true : (b : Bool) → ¬ (b ≡ true) → b ≡ false
not-true true h = absurd (h refl)
not-true false h = refl

-- A write gives a slot only an id that it had, or one that is free.
abbrev pub IdsFrom : (ℕ → Type 0) → (Subscription → Bool) → (Subscription → Subscription) → Type 0
IdsFrom Free p f =
    (s : Subscription) (i : ℕ) → p s ≡ true → has_id i (f s) ≡ true → (has_id i s ≡ true) ⊎ Free i

abbrev Shuns : Subscription → List Subscription → Type 0
Shuns s t = s.in_use ≡ true → any_slot (has_id s.subscription_id) t ≡ false

module _ (p : Subscription → Bool) (f : Subscription → Subscription) where
  any_slot-written :
      (Free : ℕ → Type 0)
      → IdsFrom Free p f
      → (i : ℕ) → ¬ Free i
      → (ss : List Subscription) → any_slot (has_id i) ss ≡ false
      → Holds (λ t. any_slot (has_id i) t ≡ false) (write_first p f ss)
  any_slot-written Free ids i taken [] h = tt
  any_slot-written Free ids i taken (s ∷ ss) h =
      let (own, rest) = cond_false (has_id i s) (any_slot (has_id i) ss) h in
      elim (Bool-cases (p s)) [
        | inl e ↦
            let gone = not-true (has_id i (f s)) (λ k. elim (ids s i e k) [
              | inl had ↦ true-false (has_id i s) had own
              | inr free ↦ taken free
            ]) in
            rw (e, gone) rest
        | inr e ↦ rw e (
            Holds-in_front (λ t. any_slot (has_id i) t ≡ false) (λ t. any_slot (has_id i) t ≡ false)
              s (λ t k. rw (own, k) refl) (write_first p f ss)
              (any_slot-written Free ids i taken ss rest))
      ]

  Shuns-written :
      (Free : ℕ → Type 0)
      → IdsFrom Free p f
      → (s : Subscription) (ss : List Subscription)
      → ((i : ℕ) → Free i → any_slot (has_id i) (s ∷ ss) ≡ false)
      → Shuns s ss
      → Holds (Shuns s) (write_first p f ss)
  Shuns-written Free ids s ss unused h = elim (Bool-cases s.in_use) [
    | inl used ↦
        Holds-map (λ t. any_slot (has_id s.subscription_id) t ≡ false) (Shuns s) (λ t k _. k)
          (write_first p f ss)
          (any_slot-written Free ids s.subscription_id
            (λ free.
              true-false (has_id s.subscription_id s) (has_id-own s used)
                (cond_false _ _ (unused s.subscription_id free)).0)
            ss (h used))
    | inr free ↦
        Holds-any (Shuns s) (λ t used. absurd (true-false s.in_use used free)) (write_first p f ss)
  ]

  pub Distinct-written :
      (Free : ℕ → Type 0)
      → IdsFrom Free p f
      → (ss : List Subscription) → ((i : ℕ) → Free i → any_slot (has_id i) ss ≡ false)
      → Distinct ss
      → Holds Distinct (write_first p f ss)
  Distinct-written Free ids [] unused d = tt
  Distinct-written Free ids (s ∷ ss) unused (d, h) = elim (Bool-cases (p s)) [
    | inl e ↦ rw e (
      d,
      λ opened. elim (ids s (f s).subscription_id e (has_id-own (f s) opened)) [
        | inl had ↦
            let (used, same) = has_id-same (f s).subscription_id s had in
            subst (λ i. any_slot (has_id i) ss ≡ false) same (h used)
        | inr free ↦ (cond_false _ _ (unused (f s).subscription_id free)).1
      ],
    )
    | inr e ↦ rw e (
        Holds-in_front Distinct (λ t. Distinct t × Shuns s t) s (λ t k. k) (write_first p f ss)
          (Holds-and Distinct (Shuns s) (write_first p f ss)
            (Distinct-written Free ids ss (λ i free. (cond_false _ _ (unused i free)).1) d)
            (Shuns-written Free ids s ss unused h)))
  ]

-- A subscription whose id stays is replaced in its place.
any_slot-set :
    (q : Subscription → Bool) (ss : List Subscription) (i : ℕ) (s : Subscription)
    → any_slot q ss ≡ false
    → q s ≡ false
    → any_slot q (set ss i s) ≡ false
any_slot-set q [] i s h hs = refl
any_slot-set q (x ∷ xs) zero s h hs = rw (hs, (cond_false (q x) (any_slot q xs) h).1) refl
any_slot-set q (x ∷ xs) (suc i) s h hs =
    let (hx, rest) = cond_false (q x) (any_slot q xs) h in
    rw (hx, any_slot-set q xs i s rest hs) refl

some-same : (x s : Subscription) → some x ≡ some s → x ≡ s
some-same x s e = ap (from x) e
  where
    from : Subscription → Option Subscription → Subscription
    from d none = d
    from d (some y) = y

pub any_slot-get :
    (q : Subscription → Bool) (ss : List Subscription) (i : ℕ) (s : Subscription)
    → any_slot q ss ≡ false
    → get_elem? ss i ≡ some s
    → q s ≡ false
any_slot-get q [] i s h e = cc
any_slot-get q (x ∷ xs) zero s h e =
    ap q (sym (some-same x s e)) ∙ (cond_false (q x) (any_slot q xs) h).0
any_slot-get q (x ∷ xs) (suc i) s h e =
    any_slot-get q xs i s (cond_false (q x) (any_slot q xs) h).1 e

pub Distinct-moved :
    (ss : List Subscription) (i session : ℕ) (s : Subscription)
    → Distinct ss
    → get_elem? ss i ≡ some s
    → Distinct (set ss i (record s { session_id = session }))
Distinct-moved [] i session s d e = tt
Distinct-moved (x ∷ xs) zero session s (d, h) e = (d, subst (λ y. Shuns y xs) (some-same x s e) h)
Distinct-moved (x ∷ xs) (suc i) session s (d, h) e = (
  Distinct-moved xs i session s d e,
  λ used.
      any_slot-set (has_id x.subscription_id) xs i (record s { session_id = session }) (h used)
        (any_slot-get (has_id x.subscription_id) xs i s (h used) e),
)

Shuns-place :
    (x : Subscription) (xs : List Subscription) (j : ℕ) (a b : Subscription)
    → Shuns x xs
    → some x ≡ some a
    → get_elem? xs j ≡ some b
    → a.in_use ≡ true
    → b.in_use ≡ true
    → a.subscription_id ≡ b.subscription_id
    → ⊥
Shuns-place x xs j a b h ea eb ua ub same =
    let shuns = subst (λ y. Shuns y xs) (some-same x a ea) h in
    true-false (has_id b.subscription_id b) (has_id-own b ub) (
      subst (λ i. has_id i b ≡ false) same
        (any_slot-get (has_id a.subscription_id) xs j b (shuns ua) eb))

-- In such an array, two places whose subscriptions are in use under one id are the same place.
pub Distinct-place :
    (ss : List Subscription) (i j : ℕ) (a b : Subscription)
    → Distinct ss
    → get_elem? ss i ≡ some a
    → get_elem? ss j ≡ some b
    → a.in_use ≡ true
    → b.in_use ≡ true
    → a.subscription_id ≡ b.subscription_id
    → i ≡ j
Distinct-place [] i j a b d ea eb ua ub same = cc
Distinct-place (x ∷ xs) zero zero a b d ea eb ua ub same = refl
Distinct-place (x ∷ xs) zero (suc j) a b (d, h) ea eb ua ub same =
    absurd (Shuns-place x xs j a b h ea eb ua ub same)
Distinct-place (x ∷ xs) (suc i) zero a b (d, h) ea eb ua ub same =
    absurd (Shuns-place x xs i b a h eb ea ub ua (sym same))
Distinct-place (x ∷ xs) (suc i) (suc j) a b (d, h) ea eb ua ub same =
    ap suc (Distinct-place xs i j a b d ea eb ua ub same)
