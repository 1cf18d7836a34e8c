-- ===== src/Subscription/Lifecycle/Allocation.antt =====
-- src/cu/core_2022_server/subscription/basic/tick.c: the search through the ids. The ids that it tries
-- are counted against the slots that could hold one.
use muc_opcua.Common.{
  ℕ, zero, suc, ◌+◌, ◌≤◌, ◌<◌, ◌%◌, ◌^◌, ◌≡◌, ◌≢◌, ◌⊎◌, ◌||◌, Bool-cases, ==→eq, eq→==, inl, inr,
  refl, subst, sym, List, [], ◌∷◌, Bool, true, false, ◌==◌, if◌then◌else◌, length, arith,
}
use muc_opcua.Subscription.Lifecycle.{or_one, allocate_id, any_slot}

-- The id that is tried after an id.
abbrev pub behind : ℕ → ℕ
behind id = or_one ((id + 1) % 2 ^ 32)

-- How many of the `n` ids from `id` on pass a test.
abbrev pub hits : (ℕ → Bool) → ℕ → ℕ → ℕ
hits p zero id = 0
hits p (suc n) id = let rest = hits p n (behind id) in if p id then suc rest else rest

behind-small : (id : ℕ) → id < 4294967295 → behind id ≡ id + 1
behind-small id h = ground arith

behind-last : behind 4294967295 ≡ 1
behind-last = refl

pub or_one-bounds : (id : ℕ) → id < 4294967296 → (1 ≤ or_one id) × (or_one id ≤ 4294967295)
or_one-bounds id h = ground arith

behind-bounds : (id : ℕ) → (1 ≤ behind id) × (behind id ≤ 4294967295)
behind-bounds id = ground arith

last-cases : (id : ℕ) → id ≤ 4294967295 → (id < 4294967295) ⊎ (id ≡ 4294967295)
last-cases id h = ground arith

-- From `id` on, `n` ids do not reach `a`, unless they have gone round.
abbrev Avoids : ℕ → ℕ → ℕ → Type 0
Avoids a n id = (id + n ≤ a) ⊎ ((a < id) × (id + n ≤ a + 4294967295))

Avoids-other : (a n id : ℕ) → Avoids a (suc n) id → a ≢ id
Avoids-other a n id (inl h) = λ e. omega arith
Avoids-other a n id (inr (h, k)) = λ e. omega arith

Avoids-round :
    (a n id : ℕ) → 1 ≤ id → id ≤ 4294967295 → suc n ≤ 4294967295 → id ≡ a → Avoids a n (behind id)
Avoids-round a n id l b m e = elim (last-cases id b) [
  | inl small ↦ rw (behind-small id small) (inr (omega arith, omega arith))
  | inr last ↦ rw last (inl (omega arith))
]

Avoids-behind :
    (a n id : ℕ) → a ≢ id → id ≤ 4294967295 → Avoids a (suc n) id → Avoids a n (behind id)
Avoids-behind a n id d b (inl h) = elim (last-cases id b) [
  | inl small ↦ rw (behind-small id small) (inl (omega arith))
  | inr last ↦ rw last (inl (omega arith))
]
Avoids-behind a n id d b (inr (h, k)) = elim (last-cases id b) [
  | inl small ↦ rw (behind-small id small) (inr (omega arith, omega arith))
  | inr last ↦ rw last (inl (omega arith))
]

hits-Avoids : (a n id : ℕ) → id ≤ 4294967295 → Avoids a n id → hits (λ x. x == a) n id ≡ 0
hits-Avoids a zero id b h = refl
hits-Avoids a (suc n) id b h =
    let other = Avoids-other a n id h in
    let rest = hits-Avoids a n (behind id) (behind-bounds id).1 (Avoids-behind a n id other b h) in
    ground arith

hits-once : (a n id : ℕ) → 1 ≤ id → id ≤ 4294967295 → n ≤ 4294967295 → hits (λ x. x == a) n id ≤ 1
hits-once a zero id l b m = omega arith
hits-once a (suc n) id l b m =
    let rest = hits-once a n (behind id) (behind-bounds id).0 (behind-bounds id).1 (omega arith) in
    elim (Bool-cases (id == a)) [
      | inl same ↦
          let none =
            hits-Avoids a n (behind id) (behind-bounds id).1
              (Avoids-round a n id l b m (==→eq id a same)) in
          ground arith
      | inr other ↦ ground arith
    ]

-- A slot accounts for one hit at most.
hits-or : (p q : ℕ → Bool) (n id : ℕ) → hits (λ x. p x || q x) n id ≤ hits p n id + hits q n id
hits-or p q zero id = omega arith
hits-or p q (suc n) id = let rest = hits-or p q n (behind id) in ground arith

hits_mono :
    (p q : ℕ → Bool) → ((x : ℕ) → p x ≡ true → q x ≡ true) → (n id : ℕ) → hits p n id ≤ hits q n id
hits_mono p q h zero id = omega arith
hits_mono p q h (suc n) id =
    let rest = hits_mono p q h n (behind id) in
    elim (Bool-cases (p id)) [
      | inl passes ↦ let both = h id passes in ground arith
      | inr fails ↦ ground arith
    ]

hits-none : (n id : ℕ) → hits (λ i. false) n id ≤ 0
hits-none zero id = omega arith
hits-none (suc n) id = hits-none n (behind id)

or-of : (a b : Bool) → (if a then true else b) ≡ true → (a || b) ≡ true
or-of true b e = refl
or-of false b e = e

pub hits-any_slot :
    {A : Type 0}
    → (holds : A → ℕ → Bool) (key : A → ℕ) → ((x : A) (i : ℕ) → holds x i ≡ true → i ≡ key x)
    → (slots : List A) (n id : ℕ) → 1 ≤ id
    → id ≤ 4294967295
    → n ≤ 4294967295
    → hits (λ i. any_slot (λ x. holds x i) slots) n id ≤ length slots
hits-any_slot holds key h [] n id l b m = hits-none n id
hits-any_slot holds key h (x ∷ xs) n id l b m =
    let rest = hits-any_slot holds key h xs n id l b m in
    let split =
      hits_mono (λ i. any_slot (λ y. holds y i) (x ∷ xs))
        (λ i. holds x i || any_slot (λ y. holds y i) xs) (λ i e. or-of (holds x i) _ e) n id in
    let parts = hits-or (λ i. holds x i) (λ i. any_slot (λ y. holds y i) xs) n id in
    let own =
      hits_mono (λ i. holds x i) (λ i. i == key x) (λ i e. eq→== i (key x) (h x i e)) n id in
    let once = hits-once (key x) n id l b m in omega arith

-- An id that is fit to be given out.
pub record IsDrawn (in_use : ℕ → Bool) (drawn : ℕ × ℕ) : Type 0 where
  pub positive : 1 ≤ drawn.0
  pub bounded : drawn.0 < 4294967296
  pub unused : in_use drawn.0 ≡ false
  pub next_bounded : drawn.1 < 4294967296

IsDrawn-now :
    (in_use : ℕ → Bool) (next : ℕ)
    → next < 4294967296
    → in_use (or_one next) ≡ false
    → IsDrawn in_use (or_one next, behind (or_one next))
IsDrawn-now in_use next b h =
    let (l, u) = or_one-bounds next b in
    let v = (behind-bounds (or_one next)).1 in
    record { positive = l; bounded = omega arith; unused = h; next_bounded = omega arith }

or_one-same : (id : ℕ) → 1 ≤ id → or_one id ≡ id
or_one-same id h = ground arith

hits-taken :
    (p : ℕ → Bool) (n id : ℕ) → p id ≡ true → hits p (suc n) id < suc n → hits p n (behind id) < n
hits-taken p n id e h = ground arith

pub allocate_id-IsDrawn :
    (in_use : ℕ → Bool) (n next : ℕ)
    → next < 4294967296
    → hits in_use n (or_one next) < n
    → IsDrawn in_use (allocate_id in_use n next)
unfolding allocate_id
allocate_id-IsDrawn in_use zero next b h = absurd (omega arith)
allocate_id-IsDrawn in_use (suc n) next b h = elim (Bool-cases (in_use (or_one next))) [
  | inl taken ↦
      let (l, u) = behind-bounds (or_one next) in
      rw taken (
        allocate_id-IsDrawn in_use n (behind (or_one next)) (omega arith) (
          subst (λ k. hits in_use n k < n) (sym (or_one-same (behind (or_one next)) l))
            (hits-taken in_use n (or_one next) taken h)))
  | inr unused ↦ rw unused (IsDrawn-now in_use next b unused)
]
