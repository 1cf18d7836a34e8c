-- ===== src/Subscription/Queue/Resize.antt =====
-- A change of the size of a queue that is in use.
use muc_opcua.Common.{
  ℕ, zero, suc, ◌+◌, ◌-◌, ◌<◌, ◌≤◌, ◌≡◌, refl, ap, ◌∙◌, some, Bool, get_elem?, arith,
}
use muc_opcua.Subscription.Queue.{
  Entry, Item, clamp_queue_size, queue_next, reported_entries, modify_queue,
}
use muc_opcua.Subscription.Queue.Ring.{advance, advance_lem, wrapped}
use muc_opcua.Subscription.Queue.Reports.{live, Valid}

grown : (depth size old : ℕ) → old < size → size ≤ depth → clamp_queue_size depth size ≡ size
grown depth size old h k = ground arith

slot_behind :
    (size old head : ℕ) → old < size → head ≤ old → wrapped size (head + (old - head)) ≡ old
slot_behind size old head h k = ground arith

module _ {V : Type 0} where
  reported_entries-get :
      (queue : ℕ → Entry V) (size n i k : ℕ)
      → k < n
      → get_elem? (reported_entries queue size n i) k ≡ some (queue (advance size k i))
  reported_entries-get queue size zero i k lt = elim lt [ ]
  reported_entries-get queue size (suc n) i zero lt = refl
  reported_entries-get queue size (suc n) i (suc k) lt =
      reported_entries-get queue size n (queue_next i size) k (omega arith)

  -- Where a full queue whose oldest report is not in the first slot is made larger, the next
  -- notification reports a slot that has not been part of the queue: the one behind the old end.
  pub modify_queue-stale :
      (depth : ℕ) (item : Item V) (size : ℕ) (discard : Bool)
      → Valid depth item
      → item.queue_count ≡ item.queue_size
      → 0 < item.queue_head
      → item.queue_size < size
      → size ≤ depth
      → get_elem? (live (modify_queue depth item size discard)) (item.queue_size - item.queue_head)
        ≡ some (item.queue item.queue_size)
  unfolding modify_queue
  modify_queue-stale depth item size discard v full wraps larger fits =
      ap
        (λ s.
          get_elem? (reported_entries item.queue s item.queue_count item.queue_head)
            (item.queue_size - item.queue_head))
        (grown depth size item.queue_size larger fits)
      ∙ reported_entries-get item.queue size item.queue_count item.queue_head
          (item.queue_size - item.queue_head) (omega (arith, v.head_fits))
      ∙ ap (λ i. some (item.queue i))
          (advance_lem size (item.queue_size - item.queue_head) item.queue_head
              (omega (arith, v.head_fits)) (omega (arith, v.small_depth)) (omega arith)
            ∙ slot_behind size item.queue_size item.queue_head larger (omega (arith, v.head_fits)))
