-- ===== src/Services/Memstore/Refine/Entries.antt =====
-- Lists of points with one point for each timestamp.
use muc_opcua.Common.{
  ℕ, suc, ◌<◌, ◌≡◌, refl, sym, ap, ◌∙◌, inl, inr, List, [], ◌∷◌, ◌++◌, Bool, true, false, ltb, ◌==◌,
  if◌then◌else◌, if_cases, Bool-cases, length, set, filter, arith, ==→eq, subst,
}
use muc_opcua.Services.Memstore.{Point}

module _ {V : Type 0} where
  abbrev pub has : ℕ → List (Point V) → Bool
  has ts [] = false
  has ts (x ∷ xs) = if x.source_timestamp == ts then true else has ts xs

  -- The place of the timestamp; the length if it is not there.
  abbrev pub index_of : ℕ → List (Point V) → ℕ
  index_of ts [] = 0
  index_of ts (x ∷ xs) = if x.source_timestamp == ts then 0 else suc (index_of ts xs)

  abbrev pub replace : Point V → List (Point V) → List (Point V)
  replace p [] = []
  replace p (x ∷ xs) = (if x.source_timestamp == p.source_timestamp then p else x) ∷ replace p xs

  abbrev pub Unique : List (Point V) → Type 0
  Unique [] = Unit
  Unique (x ∷ xs) = Unique xs × (has x.source_timestamp xs ≡ false)

  pub has-index_of : (ts : ℕ) (xs : List (Point V)) → ltb (index_of ts xs) (length xs) ≡ has ts xs
  has-index_of ts [] = refl
  has-index_of ts (x ∷ xs) = ground (arith, has-index_of ts xs)

  pub index_of-lt : (ts : ℕ) (xs : List (Point V)) → has ts xs ≡ true → index_of ts xs < length xs
  index_of-lt ts xs h = ground (arith, has-index_of ts xs)

  -- A timestamp that is not in the list.
  absent :
      (ts : ℕ) (x : Point V) (xs : List (Point V))
      → has ts (x ∷ xs) ≡ false
      → ((x.source_timestamp == ts) ≡ false) × (has ts xs ≡ false)
  absent ts x xs h = (ground (arith, h), ground (arith, h))

  replace_absent :
      (p : Point V) (xs : List (Point V)) → has p.source_timestamp xs ≡ false → replace p xs ≡ xs
  replace_absent p [] h = refl
  replace_absent p (x ∷ xs) h =
      let (other, rest) = absent p.source_timestamp x xs h in
      rw other (ap (λ t. x ∷ t) (replace_absent p xs rest))

  pub set-index_of :
      (p : Point V) (xs : List (Point V))
      → Unique xs
      → has p.source_timestamp xs ≡ true
      → set xs (index_of p.source_timestamp xs) p ≡ replace p xs
  set-index_of p [] u h = refl
  set-index_of p (x ∷ xs) (u, fresh) h =
      elim (Bool-cases (x.source_timestamp == p.source_timestamp)) [
        | inl e ↦ rw e (
            ap (λ t. p ∷ t)
              (sym (replace_absent p xs (subst (λ ts. has ts xs ≡ false) (==→eq _ _ e) fresh))))
        | inr e ↦ rw e (ap (λ t. x ∷ t) (set-index_of p xs u (rw e at h)))
      ]

  has-append :
      (ts : ℕ) (xs ys : List (Point V))
      → has ts xs ≡ false
      → has ts ys ≡ false
      → has ts (xs ++ ys) ≡ false
  has-append ts [] ys h k = k
  has-append ts (x ∷ xs) ys h k =
      let (other, rest) = absent ts x xs h in rw other (has-append ts xs ys rest k)

  pub Unique-append :
      (p : Point V) (xs : List (Point V))
      → Unique xs
      → has p.source_timestamp xs ≡ false
      → Unique (xs ++ (p ∷ []))
  Unique-append p [] u h = (tt, refl)
  Unique-append p (x ∷ xs) (u, fresh) h =
      let (other, rest) = absent p.source_timestamp x xs h in
      (Unique-append p xs u rest, has-append x.source_timestamp xs (p ∷ []) fresh (ground arith))

  has-replace : (p : Point V) (ts : ℕ) (xs : List (Point V)) → has ts (replace p xs) ≡ has ts xs
  has-replace p ts [] = refl
  has-replace p ts (x ∷ xs) = elim (Bool-cases (x.source_timestamp == p.source_timestamp)) [
    | inl e ↦ rw (e, ==→eq _ _ e, has-replace p ts xs) refl
    | inr e ↦ rw (e, has-replace p ts xs) refl
  ]

  pub Unique-replace : (p : Point V) (xs : List (Point V)) → Unique xs → Unique (replace p xs)
  Unique-replace p [] u = tt
  Unique-replace p (x ∷ xs) (u, fresh) = (
    Unique-replace p xs u,
    elim (Bool-cases (x.source_timestamp == p.source_timestamp)) [
      | inl e ↦ rw e (
          has-replace p p.source_timestamp xs ∙ subst (λ ts. has ts xs ≡ false) (==→eq _ _ e) fresh)
      | inr e ↦ rw e (has-replace p x.source_timestamp xs ∙ fresh)
    ],
  )

  has-filter :
      (f : Point V → Bool) (ts : ℕ) (xs : List (Point V))
      → has ts xs ≡ false
      → has ts (filter f xs) ≡ false
  has-filter f ts [] h = refl
  has-filter f ts (x ∷ xs) h =
      let (other, rest) = absent ts x xs h in
      if_cases (λ ys. has ts ys ≡ false) (f x) (x ∷ filter f xs) (filter f xs)
        (λ _. rw other (has-filter f ts xs rest)) (λ _. has-filter f ts xs rest)

  pub Unique-filter : (f : Point V → Bool) (xs : List (Point V)) → Unique xs → Unique (filter f xs)
  Unique-filter f [] u = tt
  Unique-filter f (x ∷ xs) (u, fresh) =
      if_cases Unique (f x) (x ∷ filter f xs) (filter f xs)
        (λ _. (Unique-filter f xs u, has-filter f x.source_timestamp xs fresh))
        (λ _. Unique-filter f xs u)

  pub length-replace : (p : Point V) (xs : List (Point V)) → length (replace p xs) ≡ length xs
  length-replace p [] = refl
  length-replace p (x ∷ xs) = ap suc (length-replace p xs)
