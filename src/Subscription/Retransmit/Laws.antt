-- ===== src/Subscription/Retransmit/Laws.antt =====
-- A message is retained until it is acknowledged or the next one comes.
use muc_opcua.Common.{
  ℕ, zero, suc, ◌≤◌, ◌≡◌, ◌≢◌, refl, sym, ap, ◌∙◌, List, [], ◌∷◌, Option, none, some, Bool, true,
  false, le→ltb, ne→==, eq→==, ◌==◌, if◌then◌else◌, length, arith,
}
use muc_opcua.Status.{good, bad_sequence_number_unknown, bad_message_not_available}
use muc_opcua.Subscription.Retransmit.{
  RetransmitSlot, Subscription, retransmit_bytes, is_subscription, next_place, subscription_find,
  set_retransmit, empty_slot, stored_slot, store_retransmit, retains, acknowledge_found,
  acknowledge, republish_found, republish,
}

-- What a lookup gives after a write to the slot at place `i`.
abbrev pub rewritten : ℕ → RetransmitSlot → Option (ℕ × Subscription) → Option (ℕ × Subscription)
rewritten i slot none = none
rewritten i slot (some (j, sub)) =
    some (j, (if j == i then record sub { retransmit = slot } else sub))

rewritten_next :
    (i : ℕ) (slot : RetransmitSlot) (found : Option (ℕ × Subscription))
    → next_place (rewritten i slot found) ≡ rewritten (suc i) slot (next_place found)
rewritten_next i slot none = refl
rewritten_next i slot (some (j, sub)) = ground arith

same_later :
    (slot : RetransmitSlot) (found : Option (ℕ × Subscription))
    → next_place found ≡ rewritten 0 slot (next_place found)
same_later slot none = refl
same_later slot (some (j, sub)) = ground arith

rewritten_if :
    (i : ℕ) (slot : RetransmitSlot) (b : Bool) (x y : Option (ℕ × Subscription))
    → (if b then rewritten i slot x else rewritten i slot y) ≡ rewritten i slot (if b then x else y)
rewritten_if i slot true x y = refl
rewritten_if i slot false x y = refl

first_kept :
    (i : ℕ) (sub : Subscription) (slot : RetransmitSlot)
    → some (0, sub) ≡ rewritten (suc i) slot (some (0, sub))
first_kept i sub slot = rw (ne→== 0 (suc i) (omega arith)) refl

pub find-set_retransmit :
    (subs : List Subscription) (i session_id subscription_id : ℕ) (slot : RetransmitSlot)
    → subscription_find (set_retransmit subs i slot) session_id subscription_id
      ≡ rewritten i slot (subscription_find subs session_id subscription_id)
unfolding subscription_find set_retransmit
find-set_retransmit [] i session_id subscription_id slot = refl
find-set_retransmit (sub ∷ subs) zero session_id subscription_id slot =
    ap
      (λ r.
        if is_subscription sub session_id subscription_id
        then some (0, record sub { retransmit = slot })
        else r)
      (same_later slot (subscription_find subs session_id subscription_id))
    ∙ rewritten_if 0 slot (is_subscription sub session_id subscription_id) (some (0, sub))
        (next_place (subscription_find subs session_id subscription_id))
find-set_retransmit (sub ∷ subs) (suc i) session_id subscription_id slot =
    ap (λ r. if is_subscription sub session_id subscription_id then some (0, sub) else r)
      (ap next_place (find-set_retransmit subs i session_id subscription_id slot)
        ∙ rewritten_next i slot (subscription_find subs session_id subscription_id))
    ∙ ap
        (λ x.
          if is_subscription sub session_id subscription_id
          then x
          else rewritten (suc i) slot
              (next_place (subscription_find subs session_id subscription_id)))
        (first_kept i sub slot)
    ∙ rewritten_if (suc i) slot (is_subscription sub session_id subscription_id) (some (0, sub))
        (next_place (subscription_find subs session_id subscription_id))

-- The subscription at the place that was written.
found_here :
    (subs : List Subscription) (session_id subscription_id i : ℕ) (sub : Subscription)
    (slot : RetransmitSlot)
    → subscription_find subs session_id subscription_id ≡ some (i, sub)
    → subscription_find (set_retransmit subs i slot) session_id subscription_id
      ≡ some (i, record sub { retransmit = slot })
found_here subs session_id subscription_id i sub slot e =
    find-set_retransmit subs i session_id subscription_id slot
    ∙ ap (rewritten i slot) e
    ∙ rw (eq→== i i refl) refl

abbrev full_slot : ℕ → ℕ → List ℕ → RetransmitSlot
full_slot sequence_number publish_time body = record {
  valid = true;
  sequence_number = sequence_number;
  publish_time = publish_time;
  message = body;
}

-- The slot is acknowledged and emptied.
acknowledged_lem :
    (stored : List Subscription) (session_id subscription_id i : ℕ) (sub : Subscription) (n at : ℕ)
    (body : List ℕ)
    → subscription_find stored session_id subscription_id
      ≡ some (i, record sub { retransmit = full_slot n at body })
    → acknowledge stored session_id subscription_id n
      ≡ (good, set_retransmit stored i (empty_slot (full_slot n at body)))
unfolding acknowledge
acknowledged_lem stored session_id subscription_id i sub n at body e =
    ap (λ f. acknowledge_found stored f n) e ∙ rw (eq→== n n refl) refl

nothing_left :
    (subs : List Subscription) (session_id subscription_id i : ℕ) (sub : Subscription)
    (slot : RetransmitSlot)
    → subscription_find subs session_id subscription_id ≡ some (i, sub)
    → ((n : ℕ)
        → republish (set_retransmit subs i (empty_slot slot)) session_id subscription_id n
          ≡ (bad_message_not_available, []))
      × ((n : ℕ)
          → (acknowledge (set_retransmit subs i (empty_slot slot)) session_id subscription_id n).0
            ≡ bad_sequence_number_unknown)
unfolding acknowledge republish
nothing_left subs session_id subscription_id i sub slot e =
    let gone = found_here subs session_id subscription_id i sub (empty_slot slot) e in
    (
      λ n. ap (λ f. republish_found f n) gone,
      λ n. ap (λ f. (acknowledge_found (set_retransmit subs i (empty_slot slot)) f n).0) gone,
    )

stored_lem :
    (subs : List Subscription) (i : ℕ) (sub : Subscription) (n at : ℕ) (body : List ℕ)
    → length body ≤ retransmit_bytes
    → store_retransmit subs (i, sub) n at body ≡ set_retransmit subs i (full_slot n at body)
unfolding store_retransmit
stored_lem subs i sub n at body fits = rw (le→ltb retransmit_bytes (length body) fits) refl

republished_lem :
    (stored : List Subscription) (session_id subscription_id i : ℕ) (sub : Subscription) (n at : ℕ)
    (body : List ℕ)
    → subscription_find stored session_id subscription_id
      ≡ some (i, record sub { retransmit = full_slot n at body })
    → (k : ℕ)
    → republish stored session_id subscription_id k
      ≡ (if n == k then (good, body) else (bad_message_not_available, []))
unfolding republish
republished_lem stored session_id subscription_id i sub n at body e k =
    ap (λ f. republish_found f k) e

-- After a message that fits is stored for a subscription, a Republish with its sequence number gives
-- the message, and with any other number none; an acknowledgement of it succeeds, after which no
-- number gives a message and a second acknowledgement is refused.
pub store_retransmit_lem :
    (subs : List Subscription) (session_id subscription_id i : ℕ) (sub : Subscription)
    (sequence_number publish_time : ℕ) (body : List ℕ)
    → subscription_find subs session_id subscription_id ≡ some (i, sub)
    → length body ≤ retransmit_bytes
    → let stored = store_retransmit subs (i, sub) sequence_number publish_time body in
      let acknowledged = acknowledge stored session_id subscription_id sequence_number in
      ((n : ℕ)
        → republish stored session_id subscription_id n
          ≡ (if sequence_number == n then (good, body) else (bad_message_not_available, [])))
      × (acknowledged.0 ≡ good)
      × ((n : ℕ)
          → republish acknowledged.1 session_id subscription_id n ≡ (bad_message_not_available, []))
      × ((acknowledge acknowledged.1 session_id subscription_id sequence_number).0
          ≡ bad_sequence_number_unknown)
store_retransmit_lem subs session_id subscription_id i sub n at body e fits =
    let full = full_slot n at body in
    let stored = store_retransmit subs (i, sub) n at body in
    let found : subscription_find stored session_id subscription_id
        ≡ some (i, record sub { retransmit = full }) =
      ap (λ l. subscription_find l session_id subscription_id)
        (stored_lem subs i sub n at body fits)
      ∙ found_here subs session_id subscription_id i sub full e in
    let acked = acknowledged_lem stored session_id subscription_id i sub n at body found in
    let left =
      nothing_left stored session_id subscription_id i (record sub { retransmit = full }) full
        found in
    (
      republished_lem stored session_id subscription_id i sub n at body found,
      ap (λ (r : ℕ × List Subscription). r.0) acked,
      λ k.
          ap (λ (r : ℕ × List Subscription). republish r.1 session_id subscription_id k) acked
          ∙ left.0 k,
      ap (λ (r : ℕ × List Subscription). (acknowledge r.1 session_id subscription_id n).0) acked
          ∙ left.1 n,
    )

republish-set_retransmit :
    (subs : List Subscription) (i j session_id subscription_id n : ℕ) (sub : Subscription)
    (slot : RetransmitSlot)
    → subscription_find subs session_id subscription_id ≡ some (j, sub)
    → j ≢ i
    → republish (set_retransmit subs i slot) session_id subscription_id n
      ≡ republish subs session_id subscription_id n
unfolding republish
republish-set_retransmit subs i j session_id subscription_id n sub slot e other =
    ap (λ f. republish_found f n)
      (find-set_retransmit subs i session_id subscription_id slot
        ∙ ap (rewritten i slot) e
        ∙ rw (ne→== j i other) refl
        ∙ sym e)

-- A message that is stored or acknowledged for one subscription changes no Republish of another one,
-- whatever the outcome.
pub republish-other :
    (subs : List Subscription) (i j session_id subscription_id other_session other_id : ℕ)
    (sub other : Subscription) (sequence_number publish_time n : ℕ) (body : List ℕ)
    → subscription_find subs session_id subscription_id ≡ some (i, sub)
    → subscription_find subs other_session other_id ≡ some (j, other)
    → j ≢ i
    → (republish
          (store_retransmit subs (i, sub) sequence_number publish_time body)
          other_session
          other_id
          n
        ≡ republish subs other_session other_id n)
      × (republish
            (acknowledge subs session_id subscription_id sequence_number).1
            other_session
            other_id
            n
          ≡ republish subs other_session other_id n)
unfolding store_retransmit acknowledge
republish-other subs i j session_id subscription_id other_session other_id sub other k at n body e f
      apart =
    (
      republish-set_retransmit subs i j other_session other_id n other
          (stored_slot sub.retransmit k at body) f apart,
      ap (λ found. republish (acknowledge_found subs found k).1 other_session other_id n) e
          ∙ by_test (retains sub k),
    )
  where
    by_test :
        (b : Bool)
        → republish
            (if◌then◌else◌ {A = ℕ × List Subscription} b
              (good, set_retransmit subs i (empty_slot sub.retransmit))
              (bad_sequence_number_unknown, subs)).1
            other_session
            other_id
            n
          ≡ republish subs other_session other_id n
    by_test true =
        republish-set_retransmit subs i j other_session other_id n other (empty_slot sub.retransmit)
          f apart
    by_test false = refl
