-- ===== src/Subscription/Queue/Refine.antt =====
-- The queue as the list of its reports, oldest first.
use muc_opcua.Common.{
  ℕ, zero, suc, ◌+◌, ◌<◌, ◌≡◌, ◌≢◌, refl, sym, ap, ap₂, ◌∙◌, List, [], ◌∷◌, ◌++◌, Bool, ltb,
  if◌then◌else◌, length, drop, arith,
}
use muc_opcua.Subscription.Queue.{
  Entry, queue_next, queue_previous, store_slot, mark_entry, reported_entries,
}
use muc_opcua.Subscription.Queue.Ring.{
  advance, advance_lem, wrapped, advance_ne, advance_round, reported_entries-suc,
  reported_entries-store, store_slot-same,
}

pub next_lt : (h size : ℕ) → h < size → size < 256 → queue_next h size < size
next_lt h size small s = ground arith

pub previous_lem :
    (h size m : ℕ) → h < size → size < 256 → size ≡ suc m → queue_previous h size ≡ advance size m h
previous_lem h size m small s e =
    arithmetic h size m small s e ∙ sym (advance_lem size m h small s (omega arith))
  where
    arithmetic : (a b c : ℕ) → a < b → b < 256 → b ≡ suc c → queue_previous a b ≡ wrapped b (a + c)
    arithmetic a b c p q r = ground arith

module _ {V : Type 0} where
  abbrev pub mark_first : List (Entry V) → List (Entry V)
  mark_first [] = []
  mark_first (x ∷ xs) = mark_entry x ∷ xs

  abbrev pub drop_last : List (Entry V) → List (Entry V)
  drop_last [] = []
  drop_last (x ∷ []) = []
  drop_last (x ∷ y ∷ xs) = x ∷ drop_last (y ∷ xs)

  -- What a report does to the list: it goes to the end while there is room; then either the oldest
  -- one is dropped and the next marked, or the newest one is replaced by the marked report.
  abbrev pub queue_report : ℕ → Bool → Entry V → List (Entry V) → List (Entry V)
  queue_report size oldest entry xs =
      if ltb (length xs) size
      then xs ++ (entry ∷ [])
      else if oldest
      then mark_first (drop 1 xs ++ (entry ∷ []))
      else drop_last xs ++ (mark_entry entry ∷ [])

  drop_last-snoc : (xs : List (Entry V)) (x : Entry V) → drop_last (xs ++ (x ∷ [])) ≡ xs
  drop_last-snoc [] x = refl
  drop_last-snoc (y ∷ []) x = refl
  drop_last-snoc (y ∷ z ∷ xs) x = ap (λ l. y ∷ l) (drop_last-snoc (z ∷ xs) x)

  pub length-reported_entries :
      (queue : ℕ → Entry V) (size n i : ℕ) → length (reported_entries queue size n i) ≡ n
  length-reported_entries queue size zero i = refl
  length-reported_entries queue size (suc n) i =
      ap suc (length-reported_entries queue size n (queue_next i size))

  pub append_lem :
      (queue : ℕ → Entry V) (size n h : ℕ) (entry : Entry V)
      → h < size
      → size < 256
      → n < size
      → reported_entries (store_slot queue (advance size n h) entry) size (suc n) h
        ≡ reported_entries queue size n h ++ (entry ∷ [])
  append_lem queue size n h entry small s room =
      reported_entries-suc size (store_slot queue (advance size n h) entry) n h
      ∙ ap₂ (λ l x. l ++ (x ∷ []))
          (reported_entries-store size queue entry (advance size n h) n h
            (λ k lt. advance_ne size h k n small s lt room))
          (store_slot-same size queue (advance size n h) (advance size n h) entry refl)

  -- The slot of the oldest report takes the new one.
  pub rotate_lem :
      (queue : ℕ → Entry V) (size m h : ℕ) (entry : Entry V)
      → h < size
      → size < 256
      → size ≡ suc m
      → reported_entries (store_slot queue h entry) size (suc m) (queue_next h size)
        ≡ drop 1 (reported_entries queue size (suc m) h) ++ (entry ∷ [])
  rotate_lem queue size m h entry small s e =
      let round : advance size m (queue_next h size) ≡ h =
        ap (λ n. advance size n h) (sym e) ∙ advance_round size h small s in
      reported_entries-suc size (store_slot queue h entry) m (queue_next h size)
      ∙ ap₂ (λ l x. l ++ (x ∷ []))
          (reported_entries-store size queue entry h m (queue_next h size) (λ k lt q.
            advance_ne size (queue_next h size) k m (next_lt h size small s) s lt (omega arith)
              (q ∙ sym round)))
          (store_slot-same size queue h (advance size m (queue_next h size)) entry round)

  pub mark_lem :
      (queue : ℕ → Entry V) (size m h : ℕ)
      → h < size
      → size < 256
      → size ≡ suc m
      → reported_entries (store_slot queue h (mark_entry (queue h))) size (suc m) h
        ≡ mark_first (reported_entries queue size (suc m) h)
  mark_lem queue size m h small s e =
      ap₂ (λ x l. x ∷ l) (store_slot-same size queue h h (mark_entry (queue h)) refl)
        (reported_entries-store size queue (mark_entry (queue h)) h m (queue_next h size)
          (λ k lt q. advance_ne size h 0 (suc k) small s (omega arith) (omega arith) (sym q)))

  pub newest_lem :
      (queue : ℕ → Entry V) (size m h j : ℕ) (entry : Entry V)
      → h < size
      → size < 256
      → size ≡ suc m
      → j ≡ advance size m h
      → reported_entries
          (store_slot (store_slot queue j entry) j (mark_entry (store_slot queue j entry j)))
          size
          (suc m)
          h
        ≡ drop_last (reported_entries queue size (suc m) h) ++ (mark_entry entry ∷ [])
  newest_lem queue size m h j entry small s e at =
      let apart : (k : ℕ) → k < m → advance size k h ≢ j =
        λ k lt q. advance_ne size h k m small s lt (omega arith) (q ∙ at) in
      reported_entries-suc size
        (store_slot (store_slot queue j entry) j (mark_entry (store_slot queue j entry j))) m h
      ∙ ap₂ (λ l x. l ++ (x ∷ []))
          (reported_entries-store size (store_slot queue j entry)
              (mark_entry (store_slot queue j entry j)) j m h apart
            ∙ reported_entries-store size queue entry j m h apart
            ∙ sym (drop_last-snoc (reported_entries queue size m h) (queue (advance size m h)))
            ∙ ap drop_last (sym (reported_entries-suc size queue m h)))
          (store_slot-same size (store_slot queue j entry) j (advance size m h)
              (mark_entry (store_slot queue j entry j)) (sym at)
            ∙ ap mark_entry (store_slot-same size queue j j entry refl))
