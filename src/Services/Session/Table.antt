-- ===== src/Services/Session/Table.antt =====
-- src/services/session.c: the lookups in the table of sessions and the generation of identifiers,
-- and initialize_create_session of src/core/service_dispatch/create_session.c. A pointer into the
-- table is an index.
use muc_opcua.Common.{
  ℕ, zero, suc, ◌+◌, ◌*◌, ◌%◌, ◌^◌, List, [], ◌∷◌, Option, none, some, Bool, true, false, not, ◌&&◌,
  ◌==◌, ◌/=◌, if◌then◌else◌, length, get_elem?, set, bit_xor,
}
use muc_opcua.Status.{good, bad_security_checks_failed, bad_too_many_sessions, Result, error, ok}
use muc_opcua.Encoding.Le.{get_u32}
use muc_opcua.Services.Session.{Session, is_closed, create_with_identifiers}

-- The loops over the table: the first index that passes, and whether there is one.
abbrev pub after : Option ℕ → Option ℕ
after none = none
after (some i) = some (suc i)

abbrev pub find_first : (Session → Bool) → List Session → Option ℕ
find_first p [] = none
find_first p (s ∷ ss) = let rest = find_first p ss in if p s then some 0 else after rest

abbrev pub any_session : (Session → Bool) → List Session → Bool
any_session p [] = false
any_session p (s ∷ ss) = let rest = any_session p ss in if p s then true else rest

abbrev pub is_open : Session → Bool
is_open s = not (is_closed s.state)

abbrev pub open_with_token : ℕ → Session → Bool
open_with_token auth_token s = is_open s && s.auth_token == auth_token

unfoldable pub find_by_token : List Session → ℕ → Option ℕ
find_by_token sessions auth_token = find_first (open_with_token auth_token) sessions

unfoldable pub find_free : List Session → Option ℕ
find_free sessions = find_first (λ s. is_closed s.state) sessions

unfoldable pub find_closed_by_token : List Session → ℕ → Option ℕ
find_closed_by_token sessions auth_token =
    find_first (λ s. is_closed s.state && s.auth_token == auth_token) sessions

unfoldable pub session_id_active : List Session → ℕ → Bool
session_id_active sessions session_id =
    any_session (λ s. is_open s && s.session_id == session_id) sessions

unfoldable pub authentication_token_active : List Session → ℕ → Bool
authentication_token_active sessions auth_token = any_session (open_with_token auth_token) sessions

-- `mu_entropy_adapter_t`: generate_random, of the platform, with the number of bytes it is asked
-- for; `none` without an adapter.
abbrev pub Entropy : Type 0
Entropy = Option (ℕ → Result (List ℕ))

-- The loop over the salts: the first candidate that is not in use, of `n` from `salt` on.
unfoldable pub first_free : (ℕ → ℕ) → (ℕ → Bool) → ℕ → ℕ → Result ℕ
first_free candidate active zero salt = error bad_security_checks_failed
first_free candidate active (suc n) salt =
    let rest = first_free candidate active n (suc salt) in
    if not (active (candidate salt)) then ok (candidate salt) else rest

unfoldable pub id_candidate : ℕ → ℕ → ℕ
id_candidate base salt =
    let candidate = bit_xor base (0x9E3779B9 * (salt % 2 ^ 32) % 2 ^ 32) in
    if candidate == 0 then bit_xor 0x85EBCA6B (salt % 2 ^ 32) else candidate

unfoldable pub token_candidate : ℕ → ℕ → ℕ
token_candidate base salt =
    let candidate = (bit_xor base 0xA5A5A5A5 + 0x9E3779B9 * (salt % 2 ^ 32) % 2 ^ 32) % 2 ^ 32 in
    if candidate == 0 then bit_xor 0xC2B2AE35 (salt % 2 ^ 32) else candidate

-- Four random bytes as a number, and what is made of it.
abbrev pub with_random : Entropy → (ℕ → Result ℕ) → Result ℕ
with_random none use_base = error bad_security_checks_failed
with_random (some generate_random) use_base = elim (generate_random 4) [
  | error status ↦ error bad_security_checks_failed
  | ok random ↦ use_base (get_u32 random 0)
]

unfoldable pub generate_session_id : List Session → Entropy → Result ℕ
generate_session_id sessions entropy =
    with_random entropy (λ base.
      first_free (id_candidate base) (session_id_active sessions) (suc (length sessions)) 0)

unfoldable pub generate_authentication_token : List Session → Entropy → Result ℕ
generate_authentication_token sessions entropy = with_random entropy (λ base.
    first_free (token_candidate base) (authentication_token_active sessions) (suc (length sessions))
      0)

-- The session stored in its slot of the table, if its status is good.
abbrev pub store_created : List Session → ℕ → Option ℕ → ℕ × Session → Result (ℕ × List Session)
store_created sessions slot tick (status, s) =
    if status /= good then error status else ok (slot, set sessions slot (touched tick s))
  where
    touched : Option ℕ → Session → Session
    touched none s = s
    touched (some now) s = record s { last_activity_ms = now }

abbrev pub session_at : List Session → ℕ → Option Session
session_at sessions slot = get_elem? sessions slot

abbrev pub create_in_slot :
    List Session
    → ℕ
    → Option Session
    → ℕ
    → ℕ
    → Option ℕ
    → Result ℕ
    → Result ℕ
    → ℕ
    → Result (ℕ × List Session)
create_in_slot sessions slot none bits channel tick id token prefix = error bad_too_many_sessions
create_in_slot sessions slot (some s) bits channel tick (error status) token prefix = error status
create_in_slot sessions slot (some s) bits channel tick (ok id) (error status) prefix = error status
create_in_slot sessions slot (some s) bits channel tick (ok id) (ok token) prefix =
    if prefix /= good
    then error prefix
    else store_created sessions slot tick (create_with_identifiers s bits id token channel)

abbrev pub in_free_slot :
    List Session → Option ℕ → ℕ → ℕ → Option ℕ → Result ℕ → Result ℕ → ℕ → Result (ℕ × List Session)
in_free_slot sessions none bits channel tick id token prefix = error bad_too_many_sessions
in_free_slot sessions (some slot) bits channel tick id token prefix =
    create_in_slot sessions slot (session_at sessions slot) bits channel tick id token prefix

-- The slot and the table after CreateSession. `first` and `second` are the adapter at its two
-- calls, `prefix` the status of write_response_prefix, `tick` the clock's reading if there is one.
-- The identifiers are drawn before the earlier results are tested; a draw has no other effect here.
unfoldable pub initialize_create_session :
    List Session → Entropy → Entropy → ℕ → ℕ → ℕ → Option ℕ → Result (ℕ × List Session)
initialize_create_session sessions first second prefix bits channel tick =
    in_free_slot sessions (find_free sessions) bits channel tick
      (generate_session_id sessions first) (generate_authentication_token sessions second) prefix
