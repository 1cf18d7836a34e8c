-- ===== src/Subscription/Queue/Reports.antt =====
-- Filling and draining the queue of an item.
use muc_opcua.Common.{
  ℕ, suc, ◌+◌, ◌-◌, ◌%◌, ◌<◌, ◌≤◌, ◌≡◌, refl, sym, ap, ap₂, ◌∙◌, subst, List, [], ◌∷◌, ◌++◌, true,
  false, ltb, leb, if◌then◌else◌, if_cases, le→ltb, lt→ltb, ltb→lt, length, drop, arith,
}
use muc_opcua.Subscription.Queue.{
  Entry, Item, queue_next, queue_previous, store_slot, mark_entry, reported_entries,
  clamp_queue_size, effective_queue_size, append_report, discard_oldest_report,
  replace_newest_report, place_report, enqueue_report,
}
use muc_opcua.Subscription.Queue.Ring.{advance, advance-suc, advance_lt, advance_round}
use muc_opcua.Subscription.Queue.Refine.{
  mark_first, drop_last, queue_report, append_lem, rotate_lem, mark_lem, newest_lem, previous_lem,
  next_lt, length-reported_entries,
}

clamped : (depth size : ℕ) → 0 < size → size ≤ depth → clamp_queue_size depth size ≡ size
clamped depth size h k = ground arith

at_size : (count size : ℕ) → count ≤ size → ltb count size ≡ false → count ≡ size
at_size count size h e = ground arith

same_index : (size index : ℕ) → index < size → (if leb size index then 0 else index) ≡ index
same_index size index h = ground arith

same_count :
    (size count : ℕ) → count ≤ size → (if ltb size count then size % 256 else count) ≡ count
same_count size count h = ground arith

module _ {V : Type 0} where
  -- The reports in the queue, oldest first.
  abbrev pub live : Item V → List (Entry V)
  live item = reported_entries item.queue item.queue_size item.queue_count item.queue_head

  -- A queue of an item whose size has not changed since it was empty.
  pub record Valid (depth : ℕ) (item : Item V) : Type 0 where
    pub small_depth : depth < 256
    pub some_size : 0 < item.queue_size
    pub size_fits : item.queue_size ≤ depth
    pub head_fits : item.queue_head < item.queue_size
    pub count_fits : item.queue_count ≤ item.queue_size
    pub tail_at : item.queue_tail ≡ advance item.queue_size item.queue_count item.queue_head

  -- The effective size of a valid queue is its size, and nothing moves.
  pub effective_queue_size-Valid :
      (depth : ℕ) (item : Item V) → Valid depth item → effective_queue_size depth item ≡ item
  effective_queue_size-Valid depth item v =
      let size = clamped depth item.queue_size v.some_size v.size_fits in
      let tail : item.queue_tail < item.queue_size =
        subst (λ t. t < item.queue_size) (sym v.tail_at)
          (advance_lt item.queue_size item.queue_head item.queue_count v.head_fits
            (omega (arith, v.size_fits, v.small_depth)) v.count_fits) in
      (λ i. record item {
        queue_size = size i;
        queue_head = if leb (size i) item.queue_head then 0 else item.queue_head;
        queue_tail = if leb (size i) item.queue_tail then 0 else item.queue_tail;
        queue_count = if ltb (size i) item.queue_count then size i % 256 else item.queue_count;
      })
      ∙ (λ i. record item {
        queue_head = same_index item.queue_size item.queue_head v.head_fits i;
        queue_tail = same_index item.queue_size item.queue_tail tail i;
        queue_count = same_count item.queue_size item.queue_count v.count_fits i;
      })

  module _ (depth : ℕ) (item : Item V) (entry : Entry V) (v : Valid depth item) where
    small : item.queue_size < 256
    small = omega (arith, v.size_fits, v.small_depth)

    abbrev Reported : Item V → Type 0
    Reported after =
        (live after ≡ queue_report item.queue_size item.discard_oldest entry (live item))
        × Valid depth after

    report_here :
        item.queue_count < item.queue_size
        → queue_report item.queue_size item.discard_oldest entry (live item)
          ≡ live item ++ (entry ∷ [])
    report_here room =
        rw
          (lt→ltb (length (live item)) item.queue_size (
            omega (
              arith,
              length-reported_entries item.queue item.queue_size item.queue_count item.queue_head,
            )))
          refl

    report_full :
        item.queue_count ≡ item.queue_size
        → queue_report item.queue_size item.discard_oldest entry (live item)
          ≡ queue_report 0 item.discard_oldest entry (live item)
    report_full full =
        rw
          (
            le→ltb (length (live item)) item.queue_size (
                omega (
                  arith,
                  length-reported_entries item.queue item.queue_size item.queue_count
                      item.queue_head,
                )),
            le→ltb (length (live item)) 0 (omega arith),
          )
          refl

    append-Reported : item.queue_count < item.queue_size → Reported (append_report item entry)
    append-Reported room =
        let count : (item.queue_count + 1) % 256 ≡ suc item.queue_count =
          omega (arith, room, small) in
        (
          ap₂
                (λ t n.
                  reported_entries (store_slot item.queue t entry) item.queue_size n
                    item.queue_head)
                v.tail_at count
              ∙ append_lem item.queue item.queue_size item.queue_count item.queue_head entry
                  v.head_fits small room
              ∙ sym (report_here room),
          record {
            small_depth = v.small_depth;
            some_size = v.some_size;
            size_fits = v.size_fits;
            head_fits = v.head_fits;
            count_fits = omega (arith, count, room);
            tail_at =
                ap (λ t. queue_next t item.queue_size) v.tail_at
                ∙ sym (advance-suc item.queue_size item.queue_count item.queue_head)
                ∙ ap (λ n. advance item.queue_size n item.queue_head) (sym count);
          },
        )

    full_tail : item.queue_count ≡ item.queue_size → item.queue_tail ≡ item.queue_head
    full_tail full =
        v.tail_at
        ∙ ap (λ n. advance item.queue_size n item.queue_head) full
        ∙ advance_round item.queue_size item.queue_head v.head_fits small

    oldest-Reported :
        (m : ℕ)
        → item.queue_size ≡ suc m
        → item.queue_count ≡ item.queue_size
        → item.discard_oldest ≡ true
        → Reported (discard_oldest_report item entry)
    oldest-Reported m e full oldest =
        let next = queue_next item.queue_head item.queue_size in
        let next_fits : next < item.queue_size =
          next_lt item.queue_head item.queue_size v.head_fits small in
        (
          ap₂
                (λ t n.
                  reported_entries
                    (store_slot (store_slot item.queue t entry) next
                      (mark_entry (store_slot item.queue t entry next)))
                    item.queue_size n next)
                (full_tail full) (full ∙ e)
              ∙ mark_lem (store_slot item.queue item.queue_head entry) item.queue_size m next
                  next_fits small e
              ∙ ap mark_first (
                  rotate_lem item.queue item.queue_size m item.queue_head entry v.head_fits small e)
              ∙ ap
                  (λ n. mark_first (
                    drop 1 (reported_entries item.queue item.queue_size n item.queue_head)
                    ++ (entry ∷ [])))
                  (sym (full ∙ e))
              ∙ sym (
                  report_full full ∙ rw (oldest, le→ltb (length (live item)) 0 (omega arith)) refl),
          record {
            small_depth = v.small_depth;
            some_size = v.some_size;
            size_fits = v.size_fits;
            head_fits = next_fits;
            count_fits = v.count_fits;
            tail_at =
                ap (λ t. queue_next t item.queue_size) (full_tail full)
                ∙ sym (advance_round item.queue_size next next_fits small)
                ∙ ap (λ n. advance item.queue_size n next) (sym full);
          },
        )

    newest-Reported :
        (m : ℕ)
        → item.queue_size ≡ suc m
        → item.queue_count ≡ item.queue_size
        → item.discard_oldest ≡ false
        → Reported (replace_newest_report item entry)
    newest-Reported m e full newest =
        let j = queue_previous item.queue_tail item.queue_size in
        let at : j ≡ advance item.queue_size m item.queue_head =
          ap (λ t. queue_previous t item.queue_size) (full_tail full)
          ∙ previous_lem item.queue_head item.queue_size m v.head_fits small e in
        (
          ap
                (λ n.
                  reported_entries
                    (store_slot (store_slot item.queue j entry) j
                      (mark_entry (store_slot item.queue j entry j)))
                    item.queue_size n item.queue_head)
                (full ∙ e)
              ∙ newest_lem item.queue item.queue_size m item.queue_head j entry v.head_fits small e
                  at
              ∙ ap
                  (λ n.
                    drop_last (reported_entries item.queue item.queue_size n item.queue_head)
                    ++ (mark_entry entry ∷ []))
                  (sym (full ∙ e))
              ∙ sym (
                  report_full full ∙ rw (newest, le→ltb (length (live item)) 0 (omega arith)) refl),
          record {
            small_depth = v.small_depth;
            some_size = v.some_size;
            size_fits = v.size_fits;
            head_fits = v.head_fits;
            count_fits = v.count_fits;
            tail_at = v.tail_at;
          },
        )

    place-Reported : Reported (place_report item entry)
    place-Reported =
        if_cases Reported (ltb item.queue_count item.queue_size) _ _
          (λ room. append-Reported (ltb→lt item.queue_count item.queue_size room))
          (λ no.
            let full = at_size item.queue_count item.queue_size v.count_fits no in
            if_cases Reported item.discard_oldest _ _
              (oldest-Reported (item.queue_size - 1) (omega (arith, v.some_size)) full)
              (newest-Reported (item.queue_size - 1) (omega (arith, v.some_size)) full))

  -- A report to a valid queue does to the list of the reports what the item asks for: it goes to the
  -- end while there is room; in a full queue it takes the place of the oldest report, with the
  -- overflow marked on the one that is then oldest, or, marked itself, that of the newest. The queue
  -- stays valid.
  pub enqueue_report-Refines :
      (depth : ℕ) (item : Item V) (entry : Entry V)
      → Valid depth item
      → (live (enqueue_report depth item entry)
          ≡ queue_report item.queue_size item.discard_oldest entry (live item))
        × Valid depth (enqueue_report depth item entry)
  unfolding enqueue_report
  enqueue_report-Refines depth item entry v =
      subst
        (λ (start : Item V).
          (live (reported (place_report start entry))
            ≡ queue_report item.queue_size item.discard_oldest entry (live item))
          × Valid depth (reported (place_report start entry)))
        (sym (effective_queue_size-Valid depth item v))
        (
          (place-Reported depth item entry v).0,
          finished (place_report item entry) ((place-Reported depth item entry v).1),
        )
    where
      reported : Item V → Item V
      reported placed = record placed { has_reported = true; pending = ltb 0 placed.queue_count }

      finished : (placed : Item V) → Valid depth placed → Valid depth (reported placed)
      finished placed w = record {
        small_depth = w.small_depth;
        some_size = w.some_size;
        size_fits = w.size_fits;
        head_fits = w.head_fits;
        count_fits = w.count_fits;
        tail_at = w.tail_at;
      }
