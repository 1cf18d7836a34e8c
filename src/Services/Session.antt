-- ===== src/Services/Session.antt =====
-- src/services/session.c: the operations on one session. The table of sessions is Session/Table.
pub mod Timeout
pub mod Table
pub mod Unique
pub mod Runs
use muc_opcua.Common.{
  ℕ, ◌+◌, ◌-◌, ◌*◌, ◌/◌, ◌%◌, ◌^◌, List, [], ◌∷◌, Bool, true, false, not, ◌&&◌, ltb, leb, ◌==◌,
  ◌/=◌, if◌then◌else◌, replicate, bit_and, bit_or, slice,
}
use muc_opcua.Status.{
  good, bad_internal_error, bad_session_id_invalid, bad_identity_token_invalid,
  bad_secure_channel_id_invalid,
}

-- `mu_session_state_t`.
pub data SessionState : Type 0 where
  closed : SessionState
  created : SessionState
  activated : SessionState

-- `mu_session_t` of the build with several connections and redundancy, without the roles, which
-- session.c does not touch.
pub record Session : Type 0 where
  pub state : SessionState
  pub session_id : ℕ
  pub auth_token : ℕ
  pub revised_session_timeout_ms : ℕ
  pub last_activity_ms : ℕ
  pub server_nonce : List ℕ
  pub secure_channel_id : ℕ
  pub user_identity_kind : ℕ
  pub user_identity_len : ℕ
  pub user_identity : List ℕ

abbrev pub is_closed : SessionState → Bool
is_closed closed = true
is_closed created = false
is_closed activated = false

-- The IEEE-754 patterns of 10000.0 and 3600000.0.
abbrev pub timeout_min_bits : ℕ
timeout_min_bits = 0x40c3880000000000

abbrev pub timeout_max_bits : ℕ
timeout_max_bits = 0x414b774000000000

abbrev pub double_sign_bit : ℕ
double_sign_bit = 0x8000000000000000

unfoldable pub clamp_timeout_bits : ℕ → ℕ
clamp_timeout_bits bits =
    if bit_and bits double_sign_bit /= 0
    then timeout_min_bits
    else if ltb bits timeout_min_bits
    then timeout_min_bits
    else if ltb timeout_max_bits bits
    then timeout_max_bits
    else bits

-- The exponent less its bias, modulo 2 ^ 32, and the shifts of a uint64.
unfoldable pub duration_bits_to_ms : ℕ → ℕ
duration_bits_to_ms bits =
    let exponent = bit_and (bits / 2 ^ 52) 0x7ff in
    let fraction = bit_and bits 0x000fffffffffffff in
    let mantissa = bit_or (1 * 2 ^ 52) fraction in
    let unbiased = (exponent + 2 ^ 32 - 1023) % 2 ^ 32 in
    if leb 52 unbiased
    then mantissa * 2 ^ (unbiased - 52) % 2 ^ 64 % 2 ^ 32
    else mantissa / 2 ^ (52 - unbiased) % 2 ^ 32

abbrev pub zero_nonce : List ℕ
zero_nonce = replicate 32 0

unfoldable pub session_init : Session
session_init = record {
  state = closed;
  session_id = 0;
  auth_token = 0;
  revised_session_timeout_ms = 0;
  last_activity_ms = 0;
  server_nonce = zero_nonce;
  secure_channel_id = 0;
  user_identity_kind = 0;
  user_identity_len = 0;
  user_identity = replicate 64 0;
}

-- `memcmp(a, b, n) == 0` on the bytes of two lists.
abbrev pub same_bytes : List ℕ → List ℕ → Bool
same_bytes [] [] = true
same_bytes [] (b ∷ bs) = false
same_bytes (a ∷ rest) [] = false
same_bytes (a ∷ rest) (b ∷ bs) = a == b && same_bytes rest bs

unfoldable pub same_user : Session → Session → Bool
same_user a b =
    if a.user_identity_kind /= b.user_identity_kind
    then false
    else if a.user_identity_len /= b.user_identity_len
    then false
    else same_bytes (slice a.user_identity 0 a.user_identity_len)
        (slice b.user_identity 0 a.user_identity_len)

-- The status and the session that a call leaves. The identifiers and the timeout that
-- mu_session_create_with_identifiers gives back are those that it stored.
unfoldable pub create_with_identifiers : Session → ℕ → ℕ → ℕ → ℕ → ℕ × Session
create_with_identifiers s requested_timeout_bits session_id auth_token channel_id =
    if not (is_closed s.state) then (bad_internal_error, s) else (
      good,
      record s {
        session_id = session_id;
        auth_token = auth_token;
        secure_channel_id = channel_id;
        revised_session_timeout_ms =
            duration_bits_to_ms (clamp_timeout_bits requested_timeout_bits);
        state = created;
      },
    )

unfoldable pub create : Session → ℕ → ℕ × Session
create s requested_timeout_bits = create_with_identifiers s requested_timeout_bits 1 12345 0

unfoldable pub validate_secure_channel : Session → ℕ → ℕ
validate_secure_channel s active_secure_channel_id =
    if s.secure_channel_id /= active_secure_channel_id then bad_secure_channel_id_invalid else good

unfoldable pub activate : Session → ℕ → ℕ → ℕ × Session
activate s auth_token encoding_id =
    if is_closed s.state
    then (bad_session_id_invalid, s)
    else if s.auth_token /= auth_token
    then (bad_session_id_invalid, s)
    else if encoding_id /= 321 && encoding_id /= 324 && encoding_id /= 327 && encoding_id /= 940
    then (bad_identity_token_invalid, s)
    else (good, record s { state = activated })

unfoldable pub close : Session → ℕ → ℕ × Session
close s auth_token =
    if is_closed s.state
    then (bad_session_id_invalid, s)
    else if s.auth_token /= auth_token
    then (bad_session_id_invalid, s)
    else (good, record s { state = closed; server_nonce = zero_nonce })

unfoldable pub close_timeout : Session → Session
close_timeout s =
    if is_closed s.state then s else record s { state = closed; server_nonce = zero_nonce }
