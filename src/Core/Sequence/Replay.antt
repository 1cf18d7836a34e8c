-- ===== src/Core/Sequence/Replay.antt =====
-- Which runs of SequenceNumbers are accepted.
use muc_opcua.Common.{
  ℕ, suc, ◌+◌, ◌%◌, ◌^◌, ◌≤◌, ◌<◌, ◌≡◌, ◌⊎◌, inl, inr, refl, List, [], ◌∷◌, ◌++◌, Option, none,
  some, true, arith, length, All, Bool-cases, ◌==◌, ◌≢◌, ==→eq,
}
use muc_opcua.Status.{good}
use muc_opcua.Encoding.Format.{IsU32}
use muc_opcua.Core.Sequence.{Validator, validate, accept_all, wrap_limit}

-- What is known after `k` chunks from a last number `a`: no wrap so far, or one that cost the way
-- up to the limit, and the way back from below 1024.
abbrev Progress : ℕ → ℕ → ℕ → Type 0
Progress a k b = (b ≡ a + k) ⊎ (wrap_limit + 2 + b ≤ k + a + 1023)

abbrev running : ℕ → Validator
running b = record { last_sequence_number = b; is_initialized = true }

-- An accepted number becomes the last one.
accepted_running : (v : Validator) (n : ℕ) → (validate v n).0 ≡ good → (validate v n).1 ≡ running n
unfolding validate
accepted_running v n e = ground arith

accepted_number :
    (b n : ℕ)
    → (validate (running b) n).0 ≡ good
    → (n ≡ (b + 1) % 2 ^ 32) ⊎ ((wrap_limit < b) × (n < 1024))
unfolding validate
accepted_number b n e = elim (Bool-cases (n == (b + 1) % 2 ^ 32)) [
  | inl next ↦ inl (ground arith)
  | inr other ↦ inr (ground arith)
]

step-Progress :
    (a k b n : ℕ)
    → IsU32 a
    → IsU32 b
    → Progress a k b
    → (n ≡ (b + 1) % 2 ^ 32) ⊎ ((wrap_limit < b) × (n < 1024))
    → Progress a (suc k) n
step-Progress a k b n ha hb (inl p) (inl e) = elim (Bool-cases (b == 4294967295)) [
  | inl top ↦ let top' : b ≡ 4294967295 = ground arith in inr (omega arith)
  | inr below ↦ let below' : b ≢ 4294967295 = ground arith in inl (omega arith)
]
step-Progress a k b n ha hb (inl p) (inr e) = inr (omega arith)
step-Progress a k b n ha hb (inr p) (inl e) = inr (omega arith)
step-Progress a k b n ha hb (inr p) (inr e) = inr (omega arith)

-- The first chunk of an accepted run is accepted, and so is the rest of the run behind it.
accept_step :
    (v : Validator) (n : ℕ) (ns : List ℕ) (w : Validator)
    → accept_all v (n ∷ ns) ≡ some w
    → ((validate v n).0 ≡ good) × (accept_all (running n) ns ≡ some w)
unfolding accept_all
accept_step v n ns w e = elim (Bool-cases ((validate v n).0 == good)) [
  | inl ok ↦
      let ok' : (validate v n).0 ≡ good = ==→eq _ _ ok in
      (ok', rw (← accepted_running v n ok') (rw ok at e))
  | inr bad ↦ absurd (none_some (rw bad at e))
]
  where
    none_some : none ≡ some w → ⊥
    none_some p = cc

add_zero : (k : ℕ) → suc k + 0 ≡ suc k
add_zero k = omega arith

add_suc : (k n : ℕ) → suc k + suc n ≡ suc (suc k) + n
add_suc k n = omega arith

far_apart : (n k : ℕ) → Progress n (1 + k) n → 4294965250 ≤ k + 1
far_apart n k (inl p) = omega arith
far_apart n k (inr p) = omega arith

run-Progress :
    (a k b n : ℕ) (ns ys : List ℕ) (w : Validator)
    → IsU32 a
    → IsU32 b
    → IsU32 n
    → All IsU32 ns
    → Progress a k b
    → accept_all (running b) (ns ++ n ∷ ys) ≡ some w
    → Progress a (suc k + length ns) n
run-Progress a k b n [] ys w ha hb hn hs p e =
    let (ok, _) = accept_step (running b) n ys w e in
    rw (add_zero k) (step-Progress a k b n ha hb p (accepted_number b n ok))
run-Progress a k b n (m ∷ ns) ys w ha hb hn (hm, hs) p e =
    let (ok, rest) = accept_step (running b) m (ns ++ n ∷ ys) w e in
    rw (add_suc k (length ns)) (
      run-Progress a (suc k) m n ns ys w ha hm hn hs
        (step-Progress a k b m ha hb p (accepted_number b m ok)) rest)

-- The run in front of any suffix is accepted, and leaves a validator that accepts the suffix.
accept_behind :
    (v : Validator) (xs ys : List ℕ) (n : ℕ) (w : Validator)
    → accept_all v (xs ++ n ∷ ys) ≡ some w
    → accept_all (running n) ys ≡ some w
accept_behind v [] ys n w e = (accept_step v n ys w e).1
accept_behind v (x ∷ xs) ys n w e =
    accept_behind (running x) xs ys n w (accept_step v x (xs ++ n ∷ ys) w e).1

-- In a run of chunks that are all accepted, from any validator, two chunks with the same
-- SequenceNumber have at least 4294965250 chunks from the one to the other.
replay_far :
    (v w : Validator) (xs ns ys : List ℕ) (n : ℕ)
    → IsU32 n
    → All IsU32 ns
    → accept_all v (xs ++ n ∷ (ns ++ n ∷ ys)) ≡ some w
    → 4294965250 ≤ length ns + 1
replay_far v w xs ns ys n hn hs e = far_apart n (length ns) (
    run-Progress n 0 n n ns ys w hn hn hn hs (inl (omega arith))
      (accept_behind v xs (ns ++ n ∷ ys) n w e))

-- Whatever the validator has seen, a run of chunks in which a SequenceNumber comes again after
-- fewer than 4294965250 chunks is refused: the number itself or one before it ends the connection.
pub replay_refused :
    (v : Validator) (xs ns ys : List ℕ) (n : ℕ)
    → IsU32 n
    → All IsU32 ns
    → length ns + 1 < 4294965250
    → accept_all v (xs ++ n ∷ (ns ++ n ∷ ys)) ≡ none
replay_refused v xs ns ys n hn hs few = refused (accept_all v (xs ++ n ∷ (ns ++ n ∷ ys))) refl
  where
    refused : (o : Option Validator) → accept_all v (xs ++ n ∷ (ns ++ n ∷ ys)) ≡ o → o ≡ none
    refused none e = refl
    refused (some w) e = absurd (omega (arith, replay_far v w xs ns ys n hn hs e))
