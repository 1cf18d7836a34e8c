-- ===== src/Subscription/Queue/Tests.antt =====
-- The queue's theorems at concrete values.
use muc_opcua.Common.{ℕ, ◌-◌, ◌≡◌, refl, [], ◌∷◌, some, true, false, drop, get_elem?, arith}
use muc_opcua.Subscription.Queue.{Entry, Item, enqueue_report, drain_reported_entries, modify_queue}
use muc_opcua.Subscription.Queue.Refine.{queue_report}
use muc_opcua.Subscription.Queue.Reports.{live, Valid, enqueue_report-Refines}
use muc_opcua.Subscription.Queue.Drain.{drain_reported_entries-Refines}
use muc_opcua.Subscription.Queue.Resize.{modify_queue-stale}

abbrev report : ℕ → Entry ℕ
report v = record { value = v; status = 0 }

-- A full queue of two reports that has gone round.
abbrev full_item : Item ℕ
full_item = record {
  queue = report;
  queue_head = 1;
  queue_tail = 1;
  queue_count = 2;
  queue_size = 2;
  discard_oldest = true;
  queue_overflow = false;
  pending = true;
  has_reported = true;
}

full_item-Valid : Valid 5 full_item
full_item-Valid = record {
  small_depth = omega arith;
  some_size = omega arith;
  size_fits = omega arith;
  head_fits = omega arith;
  count_fits = omega arith;
  tail_at = refl;
}

enqueue_report-Refines_example :
    (live (enqueue_report 5 full_item (report 9)) ≡ queue_report 2 true (report 9) (live full_item))
    × Valid 5 (enqueue_report 5 full_item (report 9))
enqueue_report-Refines_example = enqueue_report-Refines 5 full_item (report 9) full_item-Valid

drain_reported_entries-Refines_example :
    (live (drain_reported_entries 5 full_item 1).0 ≡ drop 1 (live full_item))
    × ((drain_reported_entries 5 full_item 1).1 ≡ 1 - 2)
    × Valid 5 (drain_reported_entries 5 full_item 1).0
drain_reported_entries-Refines_example =
    drain_reported_entries-Refines 5 full_item 1 full_item-Valid

modify_queue-stale_example :
    get_elem? (live (modify_queue 5 full_item 4 true)) (2 - 1) ≡ some (report 2)
modify_queue-stale_example =
    modify_queue-stale 5 full_item 4 true full_item-Valid refl (omega arith) (omega arith)
      (omega arith)

-- The oldest report is dropped, and the next one carries the overflow.
oldest_dropped :
    live (enqueue_report 5 full_item (report 9))
    ≡ record { value = 0; status = 0x480 } ∷ report 9 ∷ []
unfolding enqueue_report
oldest_dropped = refl
