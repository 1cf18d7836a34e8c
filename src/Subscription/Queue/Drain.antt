-- ===== src/Subscription/Queue/Drain.antt =====
-- Draining the queue of an item after its reports have been sent.
use muc_opcua.Common.{
  ℕ, zero, suc, ◌-◌, ◌<◌, ◌≤◌, ◌≡◌, refl, sym, ap, ◌∙◌, subst, List, [], false, ltb, ◌==◌, if_cases,
  ==→eq, ltb→lt, drop, arith,
}
use muc_opcua.Subscription.Queue.{
  Entry, Item, queue_next, reported_entries, drain_loop, finish_drain, drain_reported_entries,
}
use muc_opcua.Subscription.Queue.Ring.{advance}
use muc_opcua.Subscription.Queue.Refine.{next_lt}
use muc_opcua.Subscription.Queue.Reports.{live, Valid, effective_queue_size-Valid}

ltb-not : (a b : ℕ) → ltb a b ≡ false → b ≤ a
ltb-not a b e = ground arith

pred_suc : (n : ℕ) → 0 < n → n ≡ suc (n - 1)
pred_suc n h = omega arith

module _ {V : Type 0} (depth : ℕ) where
  -- What a drain leaves, of `n` entries that may go.
  abbrev Drained : ℕ → Item V → Item V × ℕ → Type 0
  Drained n item r =
      (live r.0 ≡ drop n (live item)) × (r.1 ≡ n - item.queue_count) × Valid depth r.0

  drop_none :
      (n : ℕ) (queue : ℕ → Entry V) (size count i : ℕ)
      → count ≡ 0
      → reported_entries queue size count i ≡ drop n (reported_entries queue size count i)
  drop_none n queue size count i e =
      ap (λ c. reported_entries queue size c i) e
      ∙ empty n
      ∙ sym (ap (λ c. drop n (reported_entries queue size c i)) e)
    where
      empty : (k : ℕ) → ◌≡◌ {A = List (Entry V)} [] (drop k [])
      empty zero = refl
      empty (suc k) = refl

  one_less : Item V → Item V
  one_less item = record item {
    queue_head = queue_next item.queue_head item.queue_size;
    queue_count = item.queue_count - 1;
  }

  one_less-Valid :
      (item : Item V)
      → Valid depth item
      → 0 < item.queue_count
      → Valid depth (record item {
        queue_head = queue_next item.queue_head item.queue_size;
        queue_count = item.queue_count - 1;
      })
  one_less-Valid item v some = record {
    small_depth = v.small_depth;
    some_size = v.some_size;
    size_fits = v.size_fits;
    head_fits =
        next_lt item.queue_head item.queue_size v.head_fits
          (omega (arith, v.size_fits, v.small_depth));
    count_fits = omega (arith, v.count_fits);
    tail_at =
        v.tail_at
        ∙ ap (λ n. advance item.queue_size n item.queue_head) (pred_suc item.queue_count some);
  }

  drain_loop-Drained :
      (n : ℕ) (item : Item V) → Valid depth item → Drained n item (drain_loop n item)
  unfolding drain_loop
  drain_loop-Drained zero item v = (refl, omega arith, v)
  drain_loop-Drained (suc n) item v =
      if_cases (Drained (suc n) item) (ltb 0 item.queue_count) _ _
        (λ e.
          let some = ltb→lt 0 item.queue_count e in
          let (rest, left, w) = drain_loop-Drained n _ (one_less-Valid item v some) in
          (
            rest
                ∙ sym (
                    ap
                      (λ c.
                        drop (suc n)
                          (reported_entries item.queue item.queue_size c item.queue_head))
                      (pred_suc item.queue_count some)),
            left ∙ omega (arith, some),
            w,
          ))
        (λ e.
          let none = ltb-not 0 item.queue_count e in
          (
            drop_none (suc n) item.queue item.queue_size item.queue_count item.queue_head
                (omega (arith, none)),
            omega (arith, none),
            v,
          ))

  finish_drain-Valid :
      (item : Item V)
      → Valid depth item
      → (live (finish_drain item) ≡ live item) × Valid depth (finish_drain item)
  finish_drain-Valid item v =
      if_cases (λ (r : Item V). (live r ≡ live item) × Valid depth r) (item.queue_count == 0) _ _
        (λ e.
          let none = ==→eq item.queue_count 0 e in
          (
            ap (λ c. reported_entries item.queue item.queue_size c 0) none
                ∙ sym
                    (ap (λ c. reported_entries item.queue item.queue_size c item.queue_head) none),
            record {
              small_depth = v.small_depth;
              some_size = v.some_size;
              size_fits = v.size_fits;
              head_fits = v.some_size;
              count_fits = v.count_fits;
              tail_at = ap (λ c. advance item.queue_size c 0) (sym none);
            },
          ))
        (λ e. (
          refl,
          record {
            small_depth = v.small_depth;
            some_size = v.some_size;
            size_fits = v.size_fits;
            head_fits = v.head_fits;
            count_fits = v.count_fits;
            tail_at = v.tail_at;
          },
        ))

  -- A drain of a valid queue removes the oldest reports, as many as were sent or all of them, returns
  -- how many sent ones are still to be removed elsewhere, and leaves a valid queue.
  pub drain_reported_entries-Refines :
      (item : Item V) (sent : ℕ)
      → Valid depth item
      → (live (drain_reported_entries depth item sent).0 ≡ drop sent (live item))
        × ((drain_reported_entries depth item sent).1 ≡ sent - item.queue_count)
        × Valid depth (drain_reported_entries depth item sent).0
  unfolding drain_reported_entries
  drain_reported_entries-Refines item sent v =
      let (rest, left, w) = drain_loop-Drained sent item v in
      let (same, w') = finish_drain-Valid (drain_loop sent item).0 w in
      subst
        (λ (start : Item V).
          (live (finish_drain (drain_loop sent start).0) ≡ drop sent (live item))
          × ((drain_loop sent start).1 ≡ sent - item.queue_count)
          × Valid depth (finish_drain (drain_loop sent start).0))
        (sym (effective_queue_size-Valid depth item v)) (same ∙ rest, left, w')
