-- ===== src/Services/Tests.antt =====
-- The services' theorems at concrete values.
use muc_opcua.Common.{
  ℕ, ◌≡◌, refl, List, [], ◌∷◌, Option, some, none, false, replicate, get_elem?, codes,
}
use muc_opcua.Status.{Result, error, ok}
use muc_opcua.Encoding.Types.{Str}
use muc_opcua.Services.Policy.{basic256sha256_id, policy_from_uri}
use muc_opcua.Services.Session.{Session, session_init, create_with_identifiers}
use muc_opcua.Services.Session.Timeout.{InBounds}
use muc_opcua.Services.Session.Table.{
  Entropy, find_by_token, initialize_create_session, find_free, generate_session_id, first_free,
  session_id_active, generate_authentication_token, authentication_token_active,
}
use muc_opcua.Services.Session.Runs.{
  Reachable, initial, next, creates, token_routes, timeouts-InBounds,
}
use muc_opcua.Services.SecureChannel.{
  SecureChannel, channel_open, zero_keys, mode_none, mode_sign, requested_policy_id, check_security,
  is_valid_security_mode, issue_or_renew, generate_channel_id,
}
use muc_opcua.Encoding.Le.{get_u32}
use muc_opcua.Services.SecureChannel.Opening.{Opened, open_establishes}

-- A platform's random numbers: always the bytes 1, 2, 3, 4.
abbrev fixed_entropy : Entropy
fixed_entropy = some (λ n. ok (1 ∷ 2 ∷ 3 ∷ 4 ∷ []))

abbrev created_slot : Result (ℕ × List Session)
created_slot =
    initialize_create_session (replicate 2 session_init) fixed_entropy fixed_entropy 0
      0x40ed4c0000000000 77 none

abbrev table_of : Result (ℕ × List Session) → List Session
table_of (error e) = []
table_of (ok (slot, t)) = t

abbrev session_of : Option Session → Session
session_of none = session_init
session_of (some s) = s

abbrev two_slots : List Session
two_slots = table_of created_slot

abbrev first_session : Session
first_session = session_of (get_elem? two_slots 0)

two_slots-Reachable : Reachable 2 two_slots
unfolding initialize_create_session find_free session_init generate_session_id first_free
    session_id_active generate_authentication_token authentication_token_active
    create_with_identifiers
two_slots-Reachable =
    next initial (creates fixed_entropy fixed_entropy 0 0x40ed4c0000000000 77 none refl)

token_routes_example : find_by_token two_slots first_session.auth_token ≡ some 0
unfolding initialize_create_session find_free session_init generate_session_id first_free
    session_id_active generate_authentication_token authentication_token_active
    create_with_identifiers
token_routes_example = token_routes 2 two_slots 0 first_session two_slots-Reachable refl refl

timeouts-InBounds_example : InBounds first_session.revised_session_timeout_ms
unfolding initialize_create_session find_free session_init generate_session_id first_free
    session_id_active generate_authentication_token authentication_token_active
    create_with_identifiers
timeouts-InBounds_example =
    timeouts-InBounds 2 two_slots 0 first_session two_slots-Reachable refl refl

-- A channel that the OPN header has classified as Basic256Sha256.
abbrev classified : SecureChannel
classified = record {
  channel_id = 0;
  token_id = 0;
  created_at = 0;
  revised_lifetime = 0;
  sequence = record { last_sequence_number = 0; is_initialized = false };
  out_sequence_number = 0;
  in_last_sequence_number = 0;
  is_open = false;
  policy = basic256sha256_id;
  mode = mode_none;
  client_keys = zero_keys;
  server_keys = zero_keys;
  keys_valid = false;
}

abbrev basic256sha256 : Option Str
basic256sha256 = some (record {
  length = 57;
  bytes = some (codes "http://opcfoundation.org/UA/SecurityPolicy#Basic256Sha256");
})

open_establishes_example :
    Opened classified
      (channel_open classified basic256sha256 mode_sign 60 fixed_entropy).1
      (requested_policy_id basic256sha256)
      mode_sign
unfolding channel_open check_security requested_policy_id policy_from_uri is_valid_security_mode
    issue_or_renew generate_channel_id get_u32
open_establishes_example =
    open_establishes classified basic256sha256 mode_sign 60 fixed_entropy refl
