-- ===== src/Core/Sequence.antt =====
-- src/core/sequence.c: validation of inbound SequenceNumbers.
pub mod Replay
use muc_opcua.Common.{
  ℕ, ◌+◌, ◌%◌, ◌^◌, List, [], ◌∷◌, Option, none, some, Bool, true, false, not, ◌&&◌, ltb, ◌==◌,
  if◌then◌else◌,
}
use muc_opcua.Status.{good, bad_security_checks_failed}

-- `mu_sequence_validator_t`; the number is a uint32.
pub record Validator : Type 0 where
  pub last_sequence_number : ℕ
  pub is_initialized : Bool

unfoldable pub init : Validator
init = record { last_sequence_number = 0; is_initialized = false }

-- UInt32.MaxValue - 1024: above it the number may wrap.
abbrev pub wrap_limit : ℕ
wrap_limit = 4294966271

-- `mu_sequence_validate`: the status and the validator that it leaves.
unfoldable pub validate : Validator → ℕ → ℕ × Validator
validate v n =
    if not v.is_initialized
    then (good, record { last_sequence_number = n; is_initialized = true })
    else if n == (v.last_sequence_number + 1) % 2 ^ 32
    then (good, record v { last_sequence_number = n })
    else if ltb wrap_limit v.last_sequence_number && ltb n 1024
    then (good, record v { last_sequence_number = n })
    else (bad_security_checks_failed, v)

-- A run of chunks that are all accepted; `none` at the first refusal, where the connection ends.
unfoldable pub accept_all : Validator → List ℕ → Option Validator
accept_all v [] = some v
accept_all v (n ∷ ns) =
    let rest = accept_all (validate v n).1 ns in if (validate v n).0 == good then rest else none
