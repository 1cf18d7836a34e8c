-- ===== src/Subscription/Lifecycle/Tests.antt =====
-- src/cu/core_2022_server/subscription/basic/tick.c: subscriptions at concrete calls.
use muc_opcua.Common.{ℕ, ◌≡◌, ◌≢◌, refl, true, false, arith, ◌≤◌}
use muc_opcua.Status.{good, bad_subscription_id_invalid, bad_too_many_subscriptions}
use muc_opcua.Subscription.Lifecycle.{
  Subscription, Subscriptions, Parameters, allocate_id, apply_parameters, allocate_subscription_id,
  subscription_id_in_use, monitored_item_id_in_use, revise_keep_alive, revise_lifetime, create,
  delete, new_subscription, count_slots,
}
use muc_opcua.Subscription.Lifecycle.Items.{init, allocate_monitored_item_id, monitored_item_alloc}
use muc_opcua.Subscription.Lifecycle.Invariant.{item_in_use}
use muc_opcua.Subscription.Lifecycle.Reachable.{
  Reachable, initial, after, creates, adds_item, subscription_ids_distinct, active_items_counted,
  create_succeeds,
}

abbrev wanted : Parameters
wanted = record {
  interval_ms = 100;
  requested_lifetime_count = 10;
  requested_keep_alive_count = 5;
  max_notifications = 0;
  wanted_priority = 0;
}

abbrev fresh : Subscriptions
fresh = init 2 2 1

abbrev one_created : Subscriptions
one_created = (create fresh 7 wanted true 1000).1

abbrev two_created : Subscriptions
two_created = (create one_created 8 wanted false 1500).1

abbrev first_made : Subscription
first_made = new_subscription 1 7 wanted true 1000

abbrev second_made : Subscription
second_made = new_subscription 2 8 wanted false 1500

abbrev with_item : Subscriptions
with_item = (monitored_item_alloc two_created 2).1

abbrev fresh-Reachable : Reachable 2 2 1 fresh
fresh-Reachable = initial

abbrev one_created-Reachable : Reachable 2 2 1 one_created
one_created-Reachable = after initial (creates 7 wanted true 1000)

abbrev two_created-Reachable : Reachable 2 2 1 two_created
two_created-Reachable = after one_created-Reachable (creates 8 wanted false 1500)

abbrev with_item-Reachable : Reachable 2 2 1 with_item
with_item-Reachable = after two_created-Reachable (adds_item 2)

-- The revised counts: the lifetime is three times the keep-alive count at least.
counts_revised : revise_lifetime 10 (revise_keep_alive 5) ≡ 15
unfolding revise_keep_alive revise_lifetime
counts_revised = refl

-- The last id is followed by 1.
id_wraps : allocate_id (λ id. false) 2 0xFFFFFFFF ≡ (0xFFFFFFFF, 1)
unfolding allocate_id
id_wraps = refl

-- A third subscription finds no place.
no_place : (create two_created 7 wanted true 2000).0 ≡ bad_too_many_subscriptions
unfolding create init allocate_id allocate_subscription_id subscription_id_in_use apply_parameters
    revise_keep_alive revise_lifetime
no_place = refl

-- Another session does not delete it.
not_owner : (delete one_created 8 1).0 ≡ bad_subscription_id_invalid
unfolding delete create init allocate_id allocate_subscription_id subscription_id_in_use
    apply_parameters
not_owner = refl

-- Its items go with it.
items_go : (delete with_item 8 2).1.active_monitored_items_count ≡ 0
unfolding delete monitored_item_alloc allocate_monitored_item_id monitored_item_id_in_use create
    init allocate_id allocate_subscription_id subscription_id_in_use apply_parameters
items_go = refl

subscription_ids_distinct_example : first_made.subscription_id ≢ second_made.subscription_id
unfolding create init allocate_id allocate_subscription_id subscription_id_in_use apply_parameters
subscription_ids_distinct_example =
    subscription_ids_distinct 2 2 1 two_created 0 1 first_made second_made (omega arith)
      two_created-Reachable refl refl refl refl (λ e. omega arith)

active_items_counted_example :
    with_item.active_monitored_items_count ≡ count_slots item_in_use with_item.monitored_items
active_items_counted_example =
    active_items_counted 2 2 1 with_item (omega arith) with_item-Reachable

create_succeeds_example :
    ((create one_created 8 wanted false 1500).0 ≡ good)
    × ((id : ℕ) × ((1 ≤ id)
          × ((subscription_id_in_use one_created.subscriptions id ≡ false)
              × (subscription_id_in_use two_created.subscriptions id ≡ true))))
unfolding create init allocate_id allocate_subscription_id subscription_id_in_use apply_parameters
create_succeeds_example =
    create_succeeds 2 2 1 one_created 8 wanted false 1500 (omega arith) one_created-Reachable refl
