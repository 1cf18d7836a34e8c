-- ===== src/Subscription/Retransmit/Tests.antt =====
-- The theorems on retransmission at concrete values.
use muc_opcua.Common.{ℕ, ◌≡◌, refl, List, [], ◌∷◌, some, true, false, ◌==◌, if◌then◌else◌, arith}
use muc_opcua.Status.{good, bad_sequence_number_unknown, bad_message_not_available}
use muc_opcua.Subscription.Retransmit.{
  Subscription, subscription_find, store_retransmit, acknowledge, republish,
}
use muc_opcua.Subscription.Retransmit.Laws.{store_retransmit_lem, republish-other}

abbrev subscription : ℕ → Subscription
subscription id = record {
  retransmit = record { valid = false; sequence_number = 0; publish_time = 0; message = [] };
  subscription_id = id;
  session_id = 7;
  in_use = true;
}

abbrev two_subscriptions : List Subscription
two_subscriptions = subscription 1 ∷ subscription 2 ∷ []

second_found : subscription_find two_subscriptions 7 2 ≡ some (1, subscription 2)
unfolding subscription_find
second_found = refl

first_found : subscription_find two_subscriptions 7 1 ≡ some (0, subscription 1)
unfolding subscription_find
first_found = refl

republish-other_example :
    (republish (store_retransmit two_subscriptions (1, subscription 2) 5 99 (1 ∷ [])) 7 1 4
      ≡ republish two_subscriptions 7 1 4)
    × (republish (acknowledge two_subscriptions 7 2 5).1 7 1 4 ≡ republish two_subscriptions 7 1 4)
republish-other_example =
    republish-other two_subscriptions 1 0 7 2 7 1 (subscription 2) (subscription 1) 5 99 4 (1 ∷ [])
      second_found first_found (omega arith)

abbrev stored_second : List Subscription
stored_second = store_retransmit two_subscriptions (1, subscription 2) 5 99 (1 ∷ 2 ∷ 3 ∷ [])

store_retransmit_example :
    ((n : ℕ)
      → republish stored_second 7 2 n
        ≡ (if 5 == n then (good, 1 ∷ 2 ∷ 3 ∷ []) else (bad_message_not_available, [])))
    × ((acknowledge stored_second 7 2 5).0 ≡ good)
    × ((n : ℕ)
        → republish (acknowledge stored_second 7 2 5).1 7 2 n ≡ (bad_message_not_available, []))
    × ((acknowledge (acknowledge stored_second 7 2 5).1 7 2 5).0 ≡ bad_sequence_number_unknown)
store_retransmit_example =
    store_retransmit_lem two_subscriptions 7 2 1 (subscription 2) 5 99 (1 ∷ 2 ∷ 3 ∷ []) second_found
      (omega arith)
