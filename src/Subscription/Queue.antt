-- ===== src/Subscription/Queue.antt =====
-- src/cu/core_2022_server/subscription/basic: the queue of a monitored item, which
-- subscription_monitor.c fills, notification.c reports and deadband.c drains. The array is a function
-- on its indices. What else of an item a report changes, its last reported number, is left out.
pub mod Ring
pub mod Refine
pub mod Reports
pub mod Drain
pub mod Resize
mod Tests
use muc_opcua.Common.{
  ℕ, zero, suc, ◌+◌, ◌-◌, ◌%◌, List, [], ◌∷◌, Bool, true, false, ltb, leb, ◌==◌, if◌then◌else◌,
  bit_or,
}

-- A slot of the queue; the value is only copied.
pub record Entry (V : Type 0) : Type 0 where
  pub value : V
  pub status : ℕ

-- The fields of `mu_monitored_item_t` that make the queue.
pub record Item (V : Type 0) : Type 0 where
  pub queue : ℕ → Entry V
  pub queue_head : ℕ
  pub queue_tail : ℕ
  pub queue_count : ℕ
  pub queue_size : ℕ
  pub discard_oldest : Bool
  pub queue_overflow : Bool
  pub pending : Bool
  pub has_reported : Bool

-- MU_STATUSCODE_INFOTYPE_DATAVALUE_OVERFLOW.
abbrev pub overflow_bits : ℕ
overflow_bits = 0x480

abbrev pub clamp_queue_size : ℕ → ℕ → ℕ
clamp_queue_size depth size = if size == 0 then 1 else if ltb depth size then depth else size

abbrev pub queue_next : ℕ → ℕ → ℕ
queue_next index size = if leb size ((index + 1) % 256) then 0 else (index + 1) % 256

abbrev pub queue_previous : ℕ → ℕ → ℕ
queue_previous index size = if index == 0 then (size - 1) % 256 else index - 1

module _ {V : Type 0} where
  abbrev pub store_slot : (ℕ → Entry V) → ℕ → Entry V → ℕ → Entry V
  store_slot queue index entry = λ k. if k == index then entry else queue k

  -- `depth` is MU_INTERN_MONITORED_QUEUE_DEPTH; the size is that of the item returned.
  abbrev pub effective_queue_size : ℕ → Item V → Item V
  effective_queue_size depth item =
      let size = clamp_queue_size depth item.queue_size in
      record item {
        queue_size = size;
        queue_head = if leb size item.queue_head then 0 else item.queue_head;
        queue_tail = if leb size item.queue_tail then 0 else item.queue_tail;
        queue_count = if ltb size item.queue_count then size % 256 else item.queue_count;
      }

  abbrev pub mark_entry : Entry V → Entry V
  mark_entry entry = record entry { status = bit_or entry.status overflow_bits }

  abbrev pub mark_overflow : Item V → ℕ → Item V
  mark_overflow item index = record item {
    queue = store_slot item.queue index (mark_entry (item.queue index));
    queue_overflow = true;
  }

  -- The three cases of a report, on an item with its effective size.
  abbrev pub append_report : Item V → Entry V → Item V
  append_report item entry = record item {
    queue = store_slot item.queue item.queue_tail entry;
    queue_tail = queue_next item.queue_tail item.queue_size;
    queue_count = (item.queue_count + 1) % 256;
  }

  abbrev pub discard_oldest_report : Item V → Entry V → Item V
  discard_oldest_report item entry =
      mark_overflow
        (record item {
          queue_head = queue_next item.queue_head item.queue_size;
          queue = store_slot item.queue item.queue_tail entry;
          queue_tail = queue_next item.queue_tail item.queue_size;
        })
        (queue_next item.queue_head item.queue_size)

  abbrev pub replace_newest_report : Item V → Entry V → Item V
  replace_newest_report item entry =
      let newest = queue_previous item.queue_tail item.queue_size in
      mark_overflow (record item { queue = store_slot item.queue newest entry }) newest

  abbrev pub place_report : Item V → Entry V → Item V
  place_report item entry =
      if ltb item.queue_count item.queue_size
      then append_report item entry
      else if item.discard_oldest
      then discard_oldest_report item entry
      else replace_newest_report item entry

  -- `monitored_item_enqueue_report`.
  unfoldable pub enqueue_report : ℕ → Item V → Entry V → Item V
  enqueue_report depth item entry =
      let placed = place_report (effective_queue_size depth item) entry in
      record placed { has_reported = true; pending = ltb 0 placed.queue_count }

  -- The loop of `monitored_item_drain_reported_entries`, for `remaining` rounds at most: the item,
  -- and what remains.
  unfoldable pub drain_loop : ℕ → Item V → Item V × ℕ
  drain_loop zero item = (item, 0)
  drain_loop (suc remaining) item =
      let rest = drain_loop remaining (record item {
        queue_head = queue_next item.queue_head item.queue_size;
        queue_count = item.queue_count - 1;
      }) in
      if ltb 0 item.queue_count then rest else (item, suc remaining)

  abbrev pub finish_drain : Item V → Item V
  finish_drain item =
      if item.queue_count == 0
      then record item { queue_head = 0; queue_tail = 0; pending = false; queue_overflow = false }
      else record item { pending = true }

  -- `monitored_item_drain_reported_entries`, for a number of entries that is not negative.
  unfoldable pub drain_reported_entries : ℕ → Item V → ℕ → Item V × ℕ
  drain_reported_entries depth item remaining =
      let (drained, left) = drain_loop remaining (effective_queue_size depth item) in
      (finish_drain drained, left)

  -- What `apply_modify_item_fields` in monitored_items.c does to the queue of an item.
  unfoldable pub modify_queue : ℕ → Item V → ℕ → Bool → Item V
  modify_queue depth item size discard = record item {
    queue_size = clamp_queue_size depth size;
    discard_oldest = discard;
  }

  -- The entries that the loop of the notification writes, for `n` of them.
  abbrev pub reported_entries : (ℕ → Entry V) → ℕ → ℕ → ℕ → List (Entry V)
  reported_entries queue size zero index = []
  reported_entries queue size (suc n) index =
      queue index ∷ reported_entries queue size n (queue_next index size)
