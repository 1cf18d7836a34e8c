-- ===== src/Subscription/Retransmit.antt =====
-- src/cu/core_2022_server/subscription/basic/retransmit.c, and mu_subscription_find of tick.c. A pointer
-- to a subscription is its place in the array, with what stands there.
pub mod Laws
mod Tests
use muc_opcua.Common.{
  ℕ, zero, suc, List, [], ◌∷◌, Option, none, some, Bool, true, false, ◌&&◌, ltb, ◌==◌,
  if◌then◌else◌, length,
}
use muc_opcua.Status.{
  good, bad_subscription_id_invalid, bad_sequence_number_unknown, bad_message_not_available,
}

-- MU_RETRANSMIT_BYTES.
abbrev pub retransmit_bytes : ℕ
retransmit_bytes = 256

-- `mu_retransmit_slot_t`; the message is the bytes in use of its buffer.
pub record RetransmitSlot : Type 0 where
  pub valid : Bool
  pub sequence_number : ℕ
  pub publish_time : ℕ
  pub message : List ℕ

-- The fields of `mu_subscription_t` that the lookup and the retransmission use.
pub record Subscription : Type 0 where
  pub retransmit : RetransmitSlot
  pub subscription_id : ℕ
  pub session_id : ℕ
  pub in_use : Bool

abbrev pub is_subscription : Subscription → ℕ → ℕ → Bool
is_subscription sub session_id subscription_id =
    sub.in_use && (sub.session_id == session_id && sub.subscription_id == subscription_id)

abbrev pub next_place : Option (ℕ × Subscription) → Option (ℕ × Subscription)
next_place none = none
next_place (some (i, sub)) = some (suc i, sub)

unfoldable pub subscription_find : List Subscription → ℕ → ℕ → Option (ℕ × Subscription)
subscription_find [] session_id subscription_id = none
subscription_find (sub ∷ subs) session_id subscription_id =
    let rest = next_place (subscription_find subs session_id subscription_id) in
    if is_subscription sub session_id subscription_id then some (0, sub) else rest

-- A write to the slot of the subscription at a place.
unfoldable pub set_retransmit : List Subscription → ℕ → RetransmitSlot → List Subscription
set_retransmit [] i slot = []
set_retransmit (sub ∷ subs) zero slot = record sub { retransmit = slot } ∷ subs
set_retransmit (sub ∷ subs) (suc i) slot = sub ∷ set_retransmit subs i slot

abbrev pub empty_slot : RetransmitSlot → RetransmitSlot
empty_slot slot = record slot { valid = false; message = [] }

-- What `store_retransmit` leaves in the slot.
abbrev pub stored_slot : RetransmitSlot → ℕ → ℕ → List ℕ → RetransmitSlot
stored_slot slot sequence_number publish_time body =
    if ltb retransmit_bytes (length body) then empty_slot slot else record {
      valid = true;
      sequence_number = sequence_number;
      publish_time = publish_time;
      message = body;
    }

unfoldable pub store_retransmit :
    List Subscription → ℕ × Subscription → ℕ → ℕ → List ℕ → List Subscription
store_retransmit subs (i, sub) sequence_number publish_time body =
    set_retransmit subs i (stored_slot sub.retransmit sequence_number publish_time body)

abbrev pub retains : Subscription → ℕ → Bool
retains sub sequence_number =
    sub.retransmit.valid && sub.retransmit.sequence_number == sequence_number

abbrev pub acknowledge_found :
    List Subscription → Option (ℕ × Subscription) → ℕ → ℕ × List Subscription
acknowledge_found subs none sequence_number = (bad_subscription_id_invalid, subs)
acknowledge_found subs (some (i, sub)) sequence_number =
    if retains sub sequence_number
    then (good, set_retransmit subs i (empty_slot sub.retransmit))
    else (bad_sequence_number_unknown, subs)

-- `mu_subscription_acknowledge`.
unfoldable pub acknowledge : List Subscription → ℕ → ℕ → ℕ → ℕ × List Subscription
acknowledge subs session_id subscription_id sequence_number =
    acknowledge_found subs (subscription_find subs session_id subscription_id) sequence_number

abbrev pub republish_found : Option (ℕ × Subscription) → ℕ → ℕ × List ℕ
republish_found none sequence_number = (bad_subscription_id_invalid, [])
republish_found (some (i, sub)) sequence_number =
    if retains sub sequence_number
    then (good, sub.retransmit.message)
    else (bad_message_not_available, [])

-- `mu_subscription_republish`: the status and the message; NULL with length 0 is the empty one.
unfoldable pub republish : List Subscription → ℕ → ℕ → ℕ → ℕ × List ℕ
republish subs session_id subscription_id sequence_number =
    republish_found (subscription_find subs session_id subscription_id) sequence_number
