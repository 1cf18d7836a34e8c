-- ===== src/Subscription/Queue/Ring.antt =====
-- The slots of a ring, in the order in which they are reported.
use muc_opcua.Common.{
  ℕ, zero, suc, ◌+◌, ◌-◌, ◌<◌, ◌≤◌, ◌≡◌, ◌≢◌, refl, sym, ap, ap₂, ◌∙◌, [], ◌∷◌, ◌++◌, ltb,
  if◌then◌else◌, ne→==, eq→==, arith,
}
use muc_opcua.Subscription.Queue.{Entry, queue_next, store_slot, reported_entries}

-- The index after `n` steps.
abbrev pub advance : ℕ → ℕ → ℕ → ℕ
advance size zero i = i
advance size (suc n) i = advance size n (queue_next i size)

pub advance-suc : (size n i : ℕ) → advance size (suc n) i ≡ queue_next (advance size n i) size
advance-suc size zero i = refl
advance-suc size (suc n) i = advance-suc size n (queue_next i size)

-- The index that many steps on, where the way round is taken at most once.
abbrev pub wrapped : ℕ → ℕ → ℕ
wrapped size k = if ltb k size then k else k - size

next_wrapped :
    (size i n : ℕ)
    → i < size
    → size < 256
    → suc n ≤ size
    → (queue_next i size < size) × (wrapped size (queue_next i size + n) ≡ wrapped size (i + suc n))
next_wrapped size i n h s k = (ground arith, ground arith)

pub advance_lem :
    (size n i : ℕ) → i < size → size < 256 → n ≤ size → advance size n i ≡ wrapped size (i + n)
advance_lem size zero i h s k = ground arith
advance_lem size (suc n) i h s k =
    let (small, e) = next_wrapped size i n h s k in
    advance_lem size n (queue_next i size) small s (omega arith) ∙ e

wrapped_ne :
    (size i k n : ℕ) → i < size → k < n → n < size → wrapped size (i + k) ≢ wrapped size (i + n)
wrapped_ne size i k n h l m = ground arith

wrapped_lt : (size i n : ℕ) → i < size → n ≤ size → wrapped size (i + n) < size
wrapped_lt size i n h m = ground arith

-- The indices of a round differ.
pub advance_ne :
    (size i k n : ℕ)
    → i < size
    → size < 256
    → k < n
    → n < size
    → advance size k i ≢ advance size n i
advance_ne size i k n h s l m e =
    wrapped_ne size i k n h l m
      (sym (advance_lem size k i h s (omega arith)) ∙ e ∙ advance_lem size n i h s (omega arith))

pub advance_lt : (size i n : ℕ) → i < size → size < 256 → n ≤ size → advance size n i < size
advance_lt size i n h s m = omega (arith, advance_lem size n i h s m, wrapped_lt size i n h m)

pub advance_round : (size i : ℕ) → i < size → size < 256 → advance size size i ≡ i
advance_round size i h s = advance_lem size size i h s (omega arith) ∙ ground arith

module _ {V : Type 0} (size : ℕ) where
  -- The last entry, apart.
  pub reported_entries-suc :
      (queue : ℕ → Entry V) (n i : ℕ)
      → reported_entries queue size (suc n) i
        ≡ reported_entries queue size n i ++ (queue (advance size n i) ∷ [])
  reported_entries-suc queue zero i = refl
  reported_entries-suc queue (suc n) i =
      ap (λ l. queue i ∷ l) (reported_entries-suc queue n (queue_next i size))

  -- A store in a slot that is not reported.
  pub reported_entries-store :
      (queue : ℕ → Entry V) (entry : Entry V) (j n i : ℕ)
      → ((k : ℕ) → k < n → advance size k i ≢ j)
      → reported_entries (store_slot queue j entry) size n i ≡ reported_entries queue size n i
  reported_entries-store queue entry j zero i h = refl
  reported_entries-store queue entry j (suc n) i h =
      ap₂ (λ x l. x ∷ l) (rw (ne→== i j (h 0 (omega arith))) refl)
        (reported_entries-store queue entry j n (queue_next i size)
          (λ k lt. h (suc k) (omega arith)))

  pub store_slot-same :
      (queue : ℕ → Entry V) (j k : ℕ) (entry : Entry V) → k ≡ j → store_slot queue j entry k ≡ entry
  store_slot-same queue j k entry e = rw (eq→== k j e) refl
