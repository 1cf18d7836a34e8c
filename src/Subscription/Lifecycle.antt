-- ===== src/Subscription/Lifecycle.antt =====
-- src/cu/core_2022_server/subscription/basic/tick.c: the life of subscriptions and of their monitored
-- items in the arrays of `mu_subscriptions_t`, and the parked Publish requests. The fields are those
-- that these functions use; a pointer into an array is a place in it.
mod Items
mod Slots
mod Distinct
mod Invariant
mod Counted
mod Allocation
mod Reachable
mod Tests
use muc_opcua.Common.{
  ℕ, zero, suc, ◌+◌, ◌-◌, ◌*◌, ◌/◌, ◌%◌, ◌^◌, List, [], ◌∷◌, Option, none, some, Bool, true, false,
  not, ◌&&◌, ltb, ◌==◌, ◌/=◌, if◌then◌else◌, length,
}
use muc_opcua.Status.{
  good, bad_subscription_id_invalid, bad_too_many_subscriptions, bad_too_many_monitored_items,
  bad_too_many_publish_requests, bad_monitored_item_id_invalid,
}

pub record Subscription : Type 0 where
  pub in_use : Bool
  pub subscription_id : ℕ
  pub session_id : ℕ
  pub publishing_interval_ms : ℕ
  pub max_keep_alive_count : ℕ
  pub lifetime_count : ℕ
  pub max_notifications_per_publish : ℕ
  pub priority : ℕ
  pub publishing_enabled : Bool
  pub sequence_number : ℕ
  pub keep_alive_counter : ℕ
  pub lifetime_counter : ℕ
  pub next_publish_ms : ℕ
  pub more_notifications : Bool

pub record MonitoredItem : Type 0 where
  pub in_use : Bool
  pub subscription_id : ℕ
  pub monitored_item_id : ℕ

pub record PublishRequest : Type 0 where
  pub in_use : Bool
  pub session_id : ℕ
  pub request_id : ℕ
  pub request_handle : ℕ
  pub enqueued_ms : ℕ

-- `mu_subscriptions_t`.
pub record Subscriptions : Type 0 where
  pub subscriptions : List Subscription
  pub monitored_items : List MonitoredItem
  pub publish_queue : List PublishRequest
  pub next_subscription_id : ℕ
  pub next_monitored_item_id : ℕ
  pub active_monitored_items_count : ℕ

-- What `memset` leaves of a slot.
abbrev pub empty_subscription : Subscription
empty_subscription = record {
  in_use = false;
  subscription_id = 0;
  session_id = 0;
  publishing_interval_ms = 0;
  max_keep_alive_count = 0;
  lifetime_count = 0;
  max_notifications_per_publish = 0;
  priority = 0;
  publishing_enabled = false;
  sequence_number = 0;
  keep_alive_counter = 0;
  lifetime_counter = 0;
  next_publish_ms = 0;
  more_notifications = false;
}

abbrev pub empty_item : MonitoredItem
empty_item = record { in_use = false; subscription_id = 0; monitored_item_id = 0 }

abbrev pub empty_request : PublishRequest
empty_request = record {
  in_use = false;
  session_id = 0;
  request_id = 0;
  request_handle = 0;
  enqueued_ms = 0;
}

-- The loops over an array: whether a slot passes, how many do, and a write to the first that does.
abbrev pub any_slot : {A : Type 0} → (A → Bool) → List A → Bool
any_slot p [] = false
any_slot p (x ∷ xs) = let rest = any_slot p xs in if p x then true else rest

abbrev pub count_slots : {A : Type 0} → (A → Bool) → List A → ℕ
count_slots p [] = 0
count_slots p (x ∷ xs) = let rest = count_slots p xs in if p x then rest + 1 else rest

abbrev pub in_front : {A : Type 0} → A → Option (List A) → Option (List A)
in_front x none = none
in_front x (some xs) = some (x ∷ xs)

abbrev pub write_first : {A : Type 0} → (A → Bool) → (A → A) → List A → Option (List A)
write_first p f [] = none
write_first p f (x ∷ xs) =
    let rest = write_first p f xs in if p x then some (f x ∷ xs) else in_front x rest

abbrev pub write_all : {A : Type 0} → (A → Bool) → A → List A → List A
write_all p y [] = []
write_all p y (x ∷ xs) = let rest = write_all p y xs in if p x then y ∷ rest else x ∷ rest

abbrev pub has_id : ℕ → Subscription → Bool
has_id id sub = sub.in_use && sub.subscription_id == id

unfoldable pub subscription_id_in_use : List Subscription → ℕ → Bool
subscription_id_in_use subs id = any_slot (has_id id) subs

unfoldable pub monitored_item_id_in_use : List MonitoredItem → ℕ → Bool
monitored_item_id_in_use items id =
    any_slot (λ item. item.in_use && item.monitored_item_id == id) items

abbrev pub or_one : ℕ → ℕ
or_one id = if id == 0 then 1 else id

-- The loop over ids, from the next one on: the first that is not in use, or 0; and the next one
-- behind it. It is the same for subscriptions and for items.
unfoldable pub allocate_id : (ℕ → Bool) → ℕ → ℕ → ℕ × ℕ
allocate_id in_use zero next = (0, next)
allocate_id in_use (suc n) next =
    let id = or_one next in
    let behind = or_one ((id + 1) % 2 ^ 32) in
    let rest = allocate_id in_use n behind in if not (in_use id) then (id, behind) else rest

unfoldable pub revise_keep_alive : ℕ → ℕ
revise_keep_alive requested =
    if ltb (0xFFFFFFFF / 3) (or_one requested) then 0xFFFFFFFF / 3 else or_one requested

unfoldable pub revise_lifetime : ℕ → ℕ → ℕ
revise_lifetime requested keep_alive =
    if ltb requested (keep_alive * 3 % 2 ^ 32) then keep_alive * 3 % 2 ^ 32 else requested

-- What a client asks for.
pub record Parameters : Type 0 where
  pub interval_ms : ℕ
  pub requested_lifetime_count : ℕ
  pub requested_keep_alive_count : ℕ
  pub max_notifications : ℕ
  pub wanted_priority : ℕ

unfoldable pub apply_parameters : Parameters → Subscription → Subscription
apply_parameters wanted sub =
    let keep_alive = revise_keep_alive wanted.requested_keep_alive_count in
    record sub {
      publishing_interval_ms = wanted.interval_ms;
      max_keep_alive_count = keep_alive;
      lifetime_count = revise_lifetime wanted.requested_lifetime_count keep_alive;
      max_notifications_per_publish = wanted.max_notifications;
      priority = wanted.wanted_priority;
    }

abbrev pub is_free : Subscription → Bool
is_free sub = not sub.in_use

abbrev pub new_subscription : ℕ → ℕ → Parameters → Bool → ℕ → Subscription
new_subscription id session_id wanted enabled now_ms =
    record (apply_parameters wanted (record empty_subscription {
      in_use = true;
      subscription_id = id;
      session_id = session_id;
    })) {
      publishing_enabled = enabled;
      sequence_number = 1;
      next_publish_ms = (now_ms + wanted.interval_ms) % 2 ^ 64;
    }

-- The slot is looked for first, and the id drawn then; the id that comes next is kept either way.
abbrev pub store_subscription :
    Subscriptions → ℕ × ℕ → Option (List Subscription) → ℕ × Subscriptions
store_subscription engine (id, next) none = (bad_too_many_subscriptions, engine)
store_subscription engine (id, next) (some subs) =
    if id == 0
    then (bad_too_many_subscriptions, record engine { next_subscription_id = next })
    else (good, record engine { subscriptions = subs; next_subscription_id = next })

unfoldable pub allocate_subscription_id : Subscriptions → ℕ × ℕ
allocate_subscription_id engine =
    allocate_id (subscription_id_in_use engine.subscriptions) (suc (length engine.subscriptions))
      engine.next_subscription_id

unfoldable pub create : Subscriptions → ℕ → Parameters → Bool → ℕ → ℕ × Subscriptions
create engine session_id wanted enabled now_ms =
    let drawn = allocate_subscription_id engine in
    store_subscription engine drawn (
      write_first is_free (λ sub. new_subscription drawn.0 session_id wanted enabled now_ms)
        engine.subscriptions)

abbrev pub is_subscription : ℕ → ℕ → Subscription → Bool
is_subscription session_id id sub =
    sub.in_use && (sub.session_id == session_id && sub.subscription_id == id)

abbrev pub is_item_of : ℕ → MonitoredItem → Bool
is_item_of id item = item.in_use && item.subscription_id == id

abbrev pub delete_found : Subscriptions → ℕ → Option (List Subscription) → ℕ × Subscriptions
delete_found engine id none = (bad_subscription_id_invalid, engine)
delete_found engine id (some subs) = (
  good,
  record engine {
    subscriptions = subs;
    monitored_items = write_all (is_item_of id) empty_item engine.monitored_items;
    active_monitored_items_count =
        engine.active_monitored_items_count - count_slots (is_item_of id) engine.monitored_items;
  },
)

unfoldable pub delete : Subscriptions → ℕ → ℕ → ℕ × Subscriptions
delete engine session_id id =
    delete_found engine id
      (write_first (is_subscription session_id id) (λ sub. empty_subscription) engine.subscriptions)

-- ModifySubscription applies new parameters to the subscription that it finds.
abbrev pub modify_found : Subscriptions → Option (List Subscription) → ℕ × Subscriptions
modify_found engine none = (bad_subscription_id_invalid, engine)
modify_found engine (some subs) = (good, record engine { subscriptions = subs })

unfoldable pub modify : Subscriptions → ℕ → ℕ → Parameters → ℕ × Subscriptions
modify engine session_id id wanted =
    modify_found engine
      (write_first (is_subscription session_id id) (apply_parameters wanted) engine.subscriptions)

unfoldable pub count_for_session : List Subscription → ℕ → ℕ
count_for_session subs session_id =
    count_slots (λ sub. sub.in_use && sub.session_id == session_id) subs

unfoldable pub publish_request_queue_clear : List PublishRequest → ℕ → List PublishRequest
publish_request_queue_clear queue session_id =
    write_all (λ request. request.in_use && request.session_id == session_id) empty_request queue
