-- ===== src/Subscription/Lifecycle/Invariant.antt =====
-- src/cu/core_2022_server/subscription/basic/tick.c: what holds of the engine between calls, and the
-- calls on subscriptions.
use muc_opcua.Common.{
  ℕ, suc, ◌<◌, ◌≡◌, inl, inr, refl, sym, subst, ◌∙◌, List, Option, none, some, Bool, true, false,
  ◌==◌, length, arith, if_both,
}
use muc_opcua.Status.{good, bad_too_many_subscriptions}
use muc_opcua.Subscription.Lifecycle.{
  Subscription, MonitoredItem, Subscriptions, Parameters, empty_subscription, empty_item,
  write_first, any_slot, count_slots, has_id, is_free, subscription_id_in_use,
  allocate_subscription_id, apply_parameters, new_subscription, store_subscription, create,
  is_subscription, is_item_of, delete_found, delete, modify_found, modify, or_one,
}
use muc_opcua.Subscription.Lifecycle.Slots.{Holds, length-write_first, count-write_all}
use muc_opcua.Subscription.Lifecycle.Distinct.{Distinct, IdsFrom, Distinct-written}
use muc_opcua.Subscription.Lifecycle.Allocation.{
  hits-any_slot, or_one-bounds, IsDrawn, allocate_id-IsDrawn,
}

abbrev pub item_in_use : MonitoredItem → Bool
item_in_use item = item.in_use

pub record Invariant (n : ℕ) (e : Subscriptions) : Type 0 where
  pub size : length e.subscriptions ≡ n
  pub distinct : Distinct e.subscriptions
  pub next_bounded : e.next_subscription_id < 4294967296
  pub counted : e.active_monitored_items_count ≡ count_slots item_in_use e.monitored_items

has_id-key : (s : Subscription) (i : ℕ) → has_id i s ≡ true → i ≡ s.subscription_id
has_id-key s i h = ground arith

items-used : (id : ℕ) (item : MonitoredItem) → is_item_of id item ≡ true → item.in_use ≡ true
items-used id item h = ground arith

empty-unused : (i : ℕ) → has_id i empty_subscription ≡ true → ⊥
empty-unused i h = cc

pub allocate_subscription_id-IsDrawn :
    (n : ℕ) (e : Subscriptions)
    → n < 4294967295
    → Invariant n e
    → IsDrawn (subscription_id_in_use e.subscriptions) (allocate_subscription_id e)
unfolding allocate_subscription_id subscription_id_in_use
allocate_subscription_id-IsDrawn n e small inv =
    let (l, u) = or_one-bounds e.next_subscription_id inv.next_bounded in
    let bound =
      hits-any_slot (λ s i. has_id i s) (λ s. s.subscription_id) (λ s i h. has_id-key s i h)
        e.subscriptions (suc (length e.subscriptions)) (or_one e.next_subscription_id) l u
        (let size = inv.size in omega arith) in
    allocate_id-IsDrawn (subscription_id_in_use e.subscriptions) (suc (length e.subscriptions))
      e.next_subscription_id inv.next_bounded (omega arith)

subscriptions-written :
    (n : ℕ) (e : Subscriptions) (id next : ℕ) (written : Option (List Subscription))
    → next < 4294967296
    → Holds (λ t. length t ≡ length e.subscriptions) written
    → Holds Distinct written
    → Invariant n e
    → Invariant n (store_subscription e (id, next) written).1
subscriptions-written n e id next none b size distinct inv = inv
subscriptions-written n e id next (some t) b size distinct inv =
    if_both (λ (r : ℕ × Subscriptions). Invariant n r.1) (id == 0)
      (bad_too_many_subscriptions, record e { next_subscription_id = next })
      (good, record e { subscriptions = t; next_subscription_id = next })
      (record { size = inv.size; distinct = inv.distinct; next_bounded = b; counted = inv.counted })
      (record {
        size = size ∙ inv.size;
        distinct = distinct;
        next_bounded = b;
        counted = inv.counted;
      })

new-IdsFrom :
    (id session_id : ℕ) (wanted : Parameters) (enabled : Bool) (now_ms : ℕ)
    → IdsFrom (λ i. i ≡ id) is_free (λ s. new_subscription id session_id wanted enabled now_ms)
unfolding apply_parameters
new-IdsFrom id session_id wanted enabled now_ms s i h k = inr (ground arith)

pub Invariant-create :
    (n : ℕ) (e : Subscriptions) (session_id : ℕ) (wanted : Parameters) (enabled : Bool) (now_ms : ℕ)
    → n < 4294967295
    → Invariant n e
    → Invariant n (create e session_id wanted enabled now_ms).1
unfolding create subscription_id_in_use
Invariant-create n e session_id wanted enabled now_ms small inv =
    let drawn = allocate_subscription_id-IsDrawn n e small inv in
    let id = (allocate_subscription_id e).0 in
    let f = λ (s : Subscription). new_subscription id session_id wanted enabled now_ms in
    subscriptions-written n e id (allocate_subscription_id e).1
      (write_first is_free f e.subscriptions) drawn.next_bounded
      (length-write_first is_free f e.subscriptions)
      (Distinct-written is_free f (λ i. i ≡ id) (new-IdsFrom id session_id wanted enabled now_ms)
        e.subscriptions
        (λ i same. subst (λ j. any_slot (has_id j) e.subscriptions ≡ false) (sym same) drawn.unused)
        inv.distinct)
      inv

subscription_deleted :
    (n : ℕ) (e : Subscriptions) (id : ℕ) (written : Option (List Subscription))
    → Holds (λ t. length t ≡ length e.subscriptions) written
    → Holds Distinct written
    → Invariant n e
    → Invariant n (delete_found e id written).1
subscription_deleted n e id none size distinct inv = inv
subscription_deleted n e id (some t) size distinct inv =
    let counts =
      count-write_all (is_item_of id) item_in_use empty_item (λ item h. items-used id item h) refl
        e.monitored_items in
    let before = inv.counted in
    record {
      size = size ∙ inv.size;
      distinct = distinct;
      next_bounded = inv.next_bounded;
      counted = omega arith;
    }

pub Invariant-delete :
    (n : ℕ) (e : Subscriptions) (session_id id : ℕ)
    → Invariant n e
    → Invariant n (delete e session_id id).1
unfolding delete
Invariant-delete n e session_id id inv =
    let p = is_subscription session_id id in
    subscription_deleted n e id (write_first p (λ s. empty_subscription) e.subscriptions)
      (length-write_first p (λ s. empty_subscription) e.subscriptions)
      (Distinct-written p (λ s. empty_subscription) (λ i. ⊥) (λ s i h k. absurd (empty-unused i k))
        e.subscriptions (λ i k. absurd k) inv.distinct)
      inv

subscription_modified :
    (n : ℕ) (e : Subscriptions) (written : Option (List Subscription))
    → Holds (λ t. length t ≡ length e.subscriptions) written
    → Holds Distinct written
    → Invariant n e
    → Invariant n (modify_found e written).1
subscription_modified n e none size distinct inv = inv
subscription_modified n e (some t) size distinct inv = record {
  size = size ∙ inv.size;
  distinct = distinct;
  next_bounded = inv.next_bounded;
  counted = inv.counted;
}

pub Invariant-modify :
    (n : ℕ) (e : Subscriptions) (session_id id : ℕ) (wanted : Parameters)
    → Invariant n e
    → Invariant n (modify e session_id id wanted).1
unfolding modify apply_parameters
Invariant-modify n e session_id id wanted inv =
    let p = is_subscription session_id id in
    subscription_modified n e (write_first p (apply_parameters wanted) e.subscriptions)
      (length-write_first p (apply_parameters wanted) e.subscriptions)
      (Distinct-written p (apply_parameters wanted) (λ i. ⊥) (λ s i h k. inl k) e.subscriptions
        (λ i k. absurd k) inv.distinct)
      inv
