-- ===== src/Subscription/Lifecycle/Counted.antt =====
-- src/cu/core_2022_server/subscription/basic/tick.c: the same for the calls on monitored items and on
-- Publish requests, the transfer and the start.
use muc_opcua.Common.{
  ℕ, zero, suc, ◌+◌, ◌≡◌, refl, sym, ap, ◌∙◌, List, Option, none, some, true, false, not, ◌==◌,
  length, arith, get_elem?, replicate, if_both, length-set,
}
use muc_opcua.Status.{good, bad_too_many_monitored_items, bad_subscription_id_invalid}
use muc_opcua.Subscription.Lifecycle.{
  Subscription, MonitoredItem, Subscriptions, PublishRequest, empty_subscription, empty_item,
  write_first, count_slots,
}
use muc_opcua.Subscription.Lifecycle.Items.{
  init, store_item, allocate_monitored_item_id, free_item, new_item, monitored_item_alloc, is_item,
  remove_item, monitored_item_delete, transfer_found, transfer, park, publish_request_enqueue,
}
use muc_opcua.Subscription.Lifecycle.Slots.{Holds, count-up, count-down}
use muc_opcua.Subscription.Lifecycle.Distinct.{Distinct, Distinct-moved}
use muc_opcua.Subscription.Lifecycle.Invariant.{Invariant, item_in_use}

items-written :
    (n : ℕ) (e : Subscriptions) (id next : ℕ) (written : Option (List MonitoredItem))
    → Holds (λ t. count_slots item_in_use t ≡ count_slots item_in_use e.monitored_items + 1) written
    → Invariant n e
    → Invariant n (store_item e (id, next) written).1
items-written n e id next none more inv = inv
items-written n e id next (some t) more inv =
    let before = inv.counted in
    let counts : e.active_monitored_items_count + 1 ≡ count_slots item_in_use t = omega arith in
    if_both (λ (r : ℕ × Subscriptions). Invariant n r.1) (id == 0)
      (bad_too_many_monitored_items, record e { next_monitored_item_id = next })
      (
        good,
        record e {
          monitored_items = t;
          next_monitored_item_id = next;
          active_monitored_items_count = e.active_monitored_items_count + 1;
        },
      )
      (record {
        size = inv.size;
        distinct = inv.distinct;
        next_bounded = inv.next_bounded;
        counted = before;
      })
      (record {
        size = inv.size;
        distinct = inv.distinct;
        next_bounded = inv.next_bounded;
        counted = counts;
      })

free_item-counts : (item : MonitoredItem) → free_item item ≡ true → item.in_use ≡ false
free_item-counts item h = ground arith

pub Invariant-monitored_item_alloc :
    (n : ℕ) (e : Subscriptions) (subscription_id : ℕ)
    → Invariant n e
    → Invariant n (monitored_item_alloc e subscription_id).1
unfolding monitored_item_alloc
Invariant-monitored_item_alloc n e subscription_id inv =
    let f = λ (item : MonitoredItem). new_item subscription_id (allocate_monitored_item_id e).0 in
    items-written n e (allocate_monitored_item_id e).0 (allocate_monitored_item_id e).1
      (write_first free_item f e.monitored_items)
      (count-up free_item item_in_use f (λ item h. (free_item-counts item h, refl))
        e.monitored_items)
      inv

item_removed :
    (n : ℕ) (e : Subscriptions) (written : Option (List MonitoredItem))
    → Holds (λ t. count_slots item_in_use t + 1 ≡ count_slots item_in_use e.monitored_items) written
    → Invariant n e
    → Invariant n (remove_item e written).1
item_removed n e none fewer inv = inv
item_removed n e (some t) fewer inv =
    let before = inv.counted in
    record {
      size = inv.size;
      distinct = inv.distinct;
      next_bounded = inv.next_bounded;
      counted = omega arith;
    }

is_item-counts :
    (subscription_id id : ℕ) (item : MonitoredItem)
    → is_item subscription_id id item ≡ true
    → item.in_use ≡ true
is_item-counts subscription_id id item h = ground arith

pub Invariant-monitored_item_delete :
    (n : ℕ) (e : Subscriptions) (subscription_id id : ℕ)
    → Invariant n e
    → Invariant n (monitored_item_delete e subscription_id id).1
unfolding monitored_item_delete
Invariant-monitored_item_delete n e subscription_id id inv =
    let p = is_item subscription_id id in
    item_removed n e (write_first p (λ item. empty_item) e.monitored_items)
      (count-down p item_in_use (λ item. empty_item)
        (λ item h. (is_item-counts subscription_id id item h, refl)) e.monitored_items)
      inv

subscription_moved :
    (n : ℕ) (e : Subscriptions) (i session_id : ℕ) (found : Option Subscription)
    → get_elem? e.subscriptions i ≡ found
    → Invariant n e
    → Invariant n (transfer_found e i session_id found).1
subscription_moved n e i session_id none h inv = inv
subscription_moved n e i session_id (some sub) h inv =
    if_both (λ (r : ℕ × Subscriptions). Invariant n r.1) (not sub.in_use)
      (bad_subscription_id_invalid, e) _ inv
      (record {
        size = length-set e.subscriptions i (record sub { session_id = session_id }) ∙ inv.size;
        distinct = Distinct-moved e.subscriptions i session_id sub inv.distinct h;
        next_bounded = inv.next_bounded;
        counted = inv.counted;
      })

pub Invariant-transfer :
    (n : ℕ) (e : Subscriptions) (i session_id : ℕ)
    → Invariant n e
    → Invariant n (transfer e i session_id).1
unfolding transfer
Invariant-transfer n e i session_id inv =
    subscription_moved n e i session_id (get_elem? e.subscriptions i) refl inv

-- The queue of Publish requests has no part in it.
pub Invariant-queue :
    (n : ℕ) (e : Subscriptions) (queue : List PublishRequest)
    → Invariant n e
    → Invariant n (record e { publish_queue = queue })
Invariant-queue n e queue inv = record {
  size = inv.size;
  distinct = inv.distinct;
  next_bounded = inv.next_bounded;
  counted = inv.counted;
}

request_parked :
    (n : ℕ) (e : Subscriptions) (written : Option (List PublishRequest))
    → Invariant n e
    → Invariant n (park e written).1
request_parked n e none inv = inv
request_parked n e (some queue) inv = Invariant-queue n e queue inv

pub Invariant-publish_request_enqueue :
    (n : ℕ) (e : Subscriptions) (session_id request_id request_handle now_ms : ℕ)
    → Invariant n e
    → Invariant n (publish_request_enqueue e session_id request_id request_handle now_ms).1
unfolding publish_request_enqueue
Invariant-publish_request_enqueue n e session_id request_id request_handle now_ms inv =
    request_parked n e _ inv

unused_slot : empty_subscription.in_use ≡ true → ⊥
unused_slot h = cc

replicate-Invariant :
    (n items : ℕ)
    → (length (replicate n empty_subscription) ≡ n)
      × (Distinct (replicate n empty_subscription)
          × (count_slots item_in_use (replicate items empty_item) ≡ 0))
replicate-Invariant zero zero = (refl, (tt, refl))
replicate-Invariant zero (suc items) =
    let (_, (_, counted)) = replicate-Invariant zero items in (refl, (tt, counted))
replicate-Invariant (suc n) items =
    let (size, (distinct, counted)) = replicate-Invariant n items in
    (ap suc size, ((distinct, λ used. absurd (unused_slot used)), counted))

pub Invariant-init : (n items requests : ℕ) → Invariant n (init n items requests)
unfolding init
Invariant-init n items requests =
    let (size, (distinct, counted)) = replicate-Invariant n items in
    record { size = size; distinct = distinct; next_bounded = omega arith; counted = sym counted }
