-- ===== src/Subscription/Lifecycle/Reachable.antt =====
-- src/cu/core_2022_server/subscription/basic/tick.c: the engine's arrays under every sequence of calls of
-- its functions; CloseSession, the timeout of sessions and the publishing delete through them too.
use muc_opcua.Common.{
  ℕ, ◌≤◌, ◌<◌, ◌≡◌, ◌≢◌, inl, inr, refl, List, [], ◌∷◌, some, Bool, true, false, if◌then◌else◌,
  Bool-cases, arith, get_elem?, eq→==, ne→==,
}
use muc_opcua.Status.{good}
use muc_opcua.Subscription.Lifecycle.{
  Subscription, Subscriptions, Parameters, write_first, any_slot, count_slots, has_id, is_free,
  subscription_id_in_use, allocate_subscription_id, apply_parameters, new_subscription,
  store_subscription, create, delete, modify, publish_request_queue_clear,
}
use muc_opcua.Subscription.Lifecycle.Items.{
  init, monitored_item_alloc, monitored_item_delete, transfer, publish_request_enqueue,
}
use muc_opcua.Subscription.Lifecycle.Distinct.{Distinct-place}
use muc_opcua.Subscription.Lifecycle.Invariant.{
  Invariant, item_in_use, Invariant-create, Invariant-delete, Invariant-modify,
  allocate_subscription_id-IsDrawn,
}
use muc_opcua.Subscription.Lifecycle.Counted.{
  Invariant-monitored_item_alloc, Invariant-monitored_item_delete, Invariant-transfer,
  Invariant-queue, Invariant-publish_request_enqueue, Invariant-init,
}

-- One call, with any arguments and any outcome.
pub data Step (e : Subscriptions) : Subscriptions → Type 0 where
  creates :
      (session_id : ℕ) (wanted : Parameters) (enabled : Bool) (now_ms : ℕ)
      → Step e (create e session_id wanted enabled now_ms).1
  deletes : (session_id id : ℕ) → Step e (delete e session_id id).1
  modifies : (session_id id : ℕ) (wanted : Parameters) → Step e (modify e session_id id wanted).1
  transfers : (i session_id : ℕ) → Step e (transfer e i session_id).1
  adds_item : (subscription_id : ℕ) → Step e (monitored_item_alloc e subscription_id).1
  removes_item : (subscription_id id : ℕ) → Step e (monitored_item_delete e subscription_id id).1
  parks :
      (session_id request_id request_handle now_ms : ℕ)
      → Step e (publish_request_enqueue e session_id request_id request_handle now_ms).1
  clears :
      (session_id : ℕ)
      → Step e (record e { publish_queue = publish_request_queue_clear e.publish_queue session_id })

-- What the calls make of a new engine with arrays of these lengths.
pub data Reachable (n items requests : ℕ) : Subscriptions → Type 0 where
  initial : Reachable n items requests (init n items requests)
  after :
      {e t : Subscriptions} → Reachable n items requests e → Step e t → Reachable n items requests t

Invariant-Step :
    (n : ℕ) (e t : Subscriptions) → n < 4294967295 → Invariant n e → Step e t → Invariant n t
Invariant-Step n e t small inv (creates session_id wanted enabled now_ms) =
    Invariant-create n e session_id wanted enabled now_ms small inv
Invariant-Step n e t small inv (deletes session_id id) = Invariant-delete n e session_id id inv
Invariant-Step n e t small inv (modifies session_id id wanted) =
    Invariant-modify n e session_id id wanted inv
Invariant-Step n e t small inv (transfers i session_id) = Invariant-transfer n e i session_id inv
Invariant-Step n e t small inv (adds_item subscription_id) =
    Invariant-monitored_item_alloc n e subscription_id inv
Invariant-Step n e t small inv (removes_item subscription_id id) =
    Invariant-monitored_item_delete n e subscription_id id inv
Invariant-Step n e t small inv (parks session_id request_id request_handle now_ms) =
    Invariant-publish_request_enqueue n e session_id request_id request_handle now_ms inv
Invariant-Step n e t small inv (clears session_id) =
    Invariant-queue n e (publish_request_queue_clear e.publish_queue session_id) inv

Invariant-Reachable :
    (n items requests : ℕ) (e : Subscriptions)
    → n < 4294967295
    → Reachable n items requests e
    → Invariant n e
Invariant-Reachable n items requests e small initial = Invariant-init n items requests
Invariant-Reachable n items requests e small (after {e = before} reached step) =
    Invariant-Step n before e small (Invariant-Reachable n items requests before small reached) step

-- In every state that calls can bring an engine with fewer than 2^32 - 1 places to, two different places
-- whose subscriptions are in use have different ids.
pub subscription_ids_distinct :
    (n items requests : ℕ) (e : Subscriptions) (i j : ℕ) (a b : Subscription)
    → n < 4294967295
    → Reachable n items requests e
    → get_elem? e.subscriptions i ≡ some a
    → get_elem? e.subscriptions j ≡ some b
    → a.in_use ≡ true
    → b.in_use ≡ true
    → i ≢ j
    → a.subscription_id ≢ b.subscription_id
subscription_ids_distinct n items requests e i j a b small reached ea eb ua ub apart =
    let inv = Invariant-Reachable n items requests e small reached in
    λ same. apart (Distinct-place e.subscriptions i j a b inv.distinct ea eb ua ub same)

-- In every such state, the number of active monitored items that the engine keeps is the number of
-- places of monitored items that are in use.
pub active_items_counted :
    (n items requests : ℕ) (e : Subscriptions)
    → n < 4294967295
    → Reachable n items requests e
    → e.active_monitored_items_count ≡ count_slots item_in_use e.monitored_items
active_items_counted n items requests e small reached =
    let inv = Invariant-Reachable n items requests e small reached in inv.counted

id_written :
    (f : Subscription → Subscription) (id : ℕ)
    → ((s : Subscription) → has_id id (f s) ≡ true)
    → (ss : List Subscription) → any_slot is_free ss ≡ true
    → (t : List Subscription) × ((write_first is_free f ss ≡ some t)
        × (any_slot (has_id id) t ≡ true))
id_written f id h [] room = cc
id_written f id h (s ∷ ss) room = elim (Bool-cases (is_free s)) [
  | inl free ↦ let own = h s in rw free (f s ∷ ss, (refl, by_head (has_id id (f s)) _ own))
  | inr used ↦
      let (t, (e, k)) = id_written f id h ss (by_rest (is_free s) _ used room) in
      rw (used, e) (s ∷ t, (refl, by_tail (has_id id s) _ k))
]
  where
    by_head : (b r : Bool) → b ≡ true → (if b then true else r) ≡ true
    by_head true r h = refl
    by_head false r h = cc

    by_tail : (b r : Bool) → r ≡ true → (if b then true else r) ≡ true
    by_tail true r h = refl
    by_tail false r h = h

    by_rest : (b r : Bool) → b ≡ false → (if b then true else r) ≡ true → r ≡ true
    by_rest true r h k = cc
    by_rest false r h k = k

new-has_id :
    (id session_id : ℕ) (wanted : Parameters) (enabled : Bool) (now_ms : ℕ)
    → has_id id (new_subscription id session_id wanted enabled now_ms) ≡ true
unfolding apply_parameters
new-has_id id session_id wanted enabled now_ms = eq→== id id refl

-- What a store of the subscription with a drawn id comes to.
stored :
    (e : Subscriptions) (id next : ℕ) (t : List Subscription)
    → 1 ≤ id
    → any_slot (has_id id) t ≡ true
    → ((store_subscription e (id, next) (some t)).0 ≡ good)
      × (any_slot (has_id id) (store_subscription e (id, next) (some t)).1.subscriptions ≡ true)
stored e id next t l h = rw (ne→== id 0 (λ k. omega arith)) (refl, h)

-- In every such state that has a free place, CreateSubscription succeeds, and there is a positive id
-- that no subscription had and that one has afterwards.
pub create_succeeds :
    (n items requests : ℕ) (e : Subscriptions) (session_id : ℕ) (wanted : Parameters)
    (enabled : Bool) (now_ms : ℕ)
    → n < 4294967295
    → Reachable n items requests e
    → any_slot is_free e.subscriptions ≡ true
    → ((create e session_id wanted enabled now_ms).0 ≡ good)
      × ((id : ℕ) × ((1 ≤ id)
            × ((subscription_id_in_use e.subscriptions id ≡ false)
                × (subscription_id_in_use
                      (create e session_id wanted enabled now_ms).1.subscriptions
                      id
                    ≡ true))))
unfolding create subscription_id_in_use
create_succeeds n items requests e session_id wanted enabled now_ms small reached room =
    let drawn =
      allocate_subscription_id-IsDrawn n e small
        (Invariant-Reachable n items requests e small reached) in
    let f = λ (s : Subscription).
      new_subscription (allocate_subscription_id e).0 session_id wanted enabled now_ms in
    let (t, (w, h)) =
      id_written f (allocate_subscription_id e).0
        (λ s. new-has_id (allocate_subscription_id e).0 session_id wanted enabled now_ms)
        e.subscriptions room in
    let (succeeds, has) =
      stored e (allocate_subscription_id e).0 (allocate_subscription_id e).1 t drawn.positive h in
    rw w (succeeds, ((allocate_subscription_id e).0, (drawn.positive, (drawn.unused, has))))
