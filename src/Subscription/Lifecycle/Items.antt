-- ===== src/Subscription/Lifecycle/Items.antt =====
-- src/cu/core_2022_server/subscription/basic/tick.c: the monitored items of a subscription, its move to
-- another session, the parked Publish requests, and the start of the engine.
use muc_opcua.Common.{
  ℕ, suc, ◌+◌, ◌-◌, List, Option, none, some, Bool, true, not, ◌&&◌, ◌==◌, ◌/=◌, if◌then◌else◌,
  length, get_elem?, set, replicate,
}
use muc_opcua.Status.{
  good, bad_subscription_id_invalid, bad_too_many_monitored_items, bad_too_many_publish_requests,
  bad_monitored_item_id_invalid,
}
use muc_opcua.Subscription.Lifecycle.{
  Subscription, MonitoredItem, PublishRequest, Subscriptions, empty_subscription, empty_item,
  empty_request, write_first, allocate_id, monitored_item_id_in_use, count_for_session,
  publish_request_queue_clear,
}

-- `mu_subscriptions_init` over arrays of these lengths.
unfoldable pub init : ℕ → ℕ → ℕ → Subscriptions
init n_subscriptions n_items n_requests = record {
  subscriptions = replicate n_subscriptions empty_subscription;
  monitored_items = replicate n_items empty_item;
  publish_queue = replicate n_requests empty_request;
  next_subscription_id = 1;
  next_monitored_item_id = 1;
  active_monitored_items_count = 0;
}

abbrev pub new_item : ℕ → ℕ → MonitoredItem
new_item subscription_id id = record {
  in_use = true;
  subscription_id = subscription_id;
  monitored_item_id = id;
}

abbrev pub store_item : Subscriptions → ℕ × ℕ → Option (List MonitoredItem) → ℕ × Subscriptions
store_item engine (id, next) none = (bad_too_many_monitored_items, engine)
store_item engine (id, next) (some items) =
    if id == 0
    then (bad_too_many_monitored_items, record engine { next_monitored_item_id = next })
    else (
      good,
      record engine {
        monitored_items = items;
        next_monitored_item_id = next;
        active_monitored_items_count = engine.active_monitored_items_count + 1;
      },
    )

unfoldable pub allocate_monitored_item_id : Subscriptions → ℕ × ℕ
allocate_monitored_item_id engine =
    allocate_id (monitored_item_id_in_use engine.monitored_items)
      (suc (length engine.monitored_items)) engine.next_monitored_item_id

abbrev pub free_item : MonitoredItem → Bool
free_item item = not item.in_use

unfoldable pub monitored_item_alloc : Subscriptions → ℕ → ℕ × Subscriptions
monitored_item_alloc engine subscription_id =
    let drawn = allocate_monitored_item_id engine in
    store_item engine drawn
      (write_first free_item (λ item. new_item subscription_id drawn.0) engine.monitored_items)

abbrev pub is_item : ℕ → ℕ → MonitoredItem → Bool
is_item subscription_id id item =
    item.in_use && (item.subscription_id == subscription_id && item.monitored_item_id == id)

abbrev pub remove_item : Subscriptions → Option (List MonitoredItem) → ℕ × Subscriptions
remove_item engine none = (bad_monitored_item_id_invalid, engine)
remove_item engine (some items) = (
  good,
  record engine {
    monitored_items = items;
    active_monitored_items_count = engine.active_monitored_items_count - 1;
  },
)

unfoldable pub monitored_item_delete : Subscriptions → ℕ → ℕ → ℕ × Subscriptions
monitored_item_delete engine subscription_id id =
    remove_item engine
      (write_first (is_item subscription_id id) (λ item. empty_item) engine.monitored_items)

-- The queue of a session is cleared when it holds no subscription any more.
abbrev pub transfer_found : Subscriptions → ℕ → ℕ → Option Subscription → ℕ × Subscriptions
transfer_found engine i session_id none = (bad_subscription_id_invalid, engine)
transfer_found engine i session_id (some sub) =
    let subs = set engine.subscriptions i (record sub { session_id = session_id }) in
    if not sub.in_use then (bad_subscription_id_invalid, engine) else (
      good,
      record engine {
        subscriptions = subs;
        publish_queue =
            if sub.session_id /= session_id && count_for_session subs sub.session_id == 0
            then publish_request_queue_clear engine.publish_queue sub.session_id
            else engine.publish_queue;
      },
    )

unfoldable pub transfer : Subscriptions → ℕ → ℕ → ℕ × Subscriptions
transfer engine i session_id = transfer_found engine i session_id (get_elem? engine.subscriptions i)

abbrev pub park : Subscriptions → Option (List PublishRequest) → ℕ × Subscriptions
park engine none = (bad_too_many_publish_requests, engine)
park engine (some queue) = (good, record engine { publish_queue = queue })

unfoldable pub publish_request_enqueue : Subscriptions → ℕ → ℕ → ℕ → ℕ → ℕ × Subscriptions
publish_request_enqueue engine session_id request_id request_handle now_ms = park engine (
    write_first (λ request. not request.in_use)
      (λ request. record {
        in_use = true;
        session_id = session_id;
        request_id = request_id;
        request_handle = request_handle;
        enqueued_ms = now_ms;
      })
      engine.publish_queue)
