-- ===== src/Services/SecureChannel.antt =====
-- src/services/secure_channel.c: opening, renewing and closing a secure channel.
pub mod Opening
use muc_opcua.Common.{
  ℕ, suc, ◌+◌, ◌%◌, ◌^◌, List, [], Option, none, some, Bool, true, false, not, ◌||◌, ltb, leb, ◌==◌,
  ◌/=◌, if◌then◌else◌, slice, take, replicate,
}
use muc_opcua.Status.{
  good, bad_security_checks_failed, bad_security_policy_rejected, bad_security_mode_rejected,
  bad_tcp_secure_channel_unknown, Result, error, ok,
}
use muc_opcua.Encoding.Le.{get_u32}
use muc_opcua.Encoding.Types.{Str, int32_min}
use muc_opcua.Core.Sequence
use muc_opcua.Core.Sequence.{Validator}
use muc_opcua.Services.Policy.{
  invalid_id, none_id, basic256sha256_id, aes128_sha256_rsaoaep_id, aes256_sha256_rsapss_id,
  AsymFamily, no_family, rsa, ecc, policy_from_uri, asym_family,
}
use muc_opcua.Services.Session.Table.{Entropy}

-- `mu_message_security_mode_t`.
abbrev pub mode_none : ℕ
mode_none = 1

abbrev pub mode_sign : ℕ
mode_sign = 2

abbrev pub mode_sign_and_encrypt : ℕ
mode_sign_and_encrypt = 3

-- The secret part of `mu_sym_keys_t`.
pub record SymKeys : Type 0 where
  pub key_policy : ℕ
  pub signing_key : List ℕ
  pub encrypting_key : List ℕ
  pub iv : List ℕ
  pub cipher_ctx_valid : Bool

abbrev pub zero_keys : SymKeys
zero_keys = record {
  key_policy = 0;
  signing_key = replicate 32 0;
  encrypting_key = replicate 32 0;
  iv = replicate 16 0;
  cipher_ctx_valid = false;
}

-- `mu_secure_channel_t` of the build with cryptography.
pub record SecureChannel : Type 0 where
  pub channel_id : ℕ
  pub token_id : ℕ
  pub created_at : ℕ
  pub revised_lifetime : ℕ
  pub sequence : Validator
  pub out_sequence_number : ℕ
  pub in_last_sequence_number : ℕ
  pub is_open : Bool
  pub policy : ℕ
  pub mode : ℕ
  pub client_keys : SymKeys
  pub server_keys : SymKeys
  pub keys_valid : Bool

-- The bytes that a string's length counts.
abbrev pub str_bytes : Str → Option (List ℕ)
str_bytes s = elim s.bytes [ none ↦ none | some bytes ↦ some (take s.length bytes) ]

unfoldable pub requested_policy_id : Option Str → ℕ
requested_policy_id none = none_id
requested_policy_id (some s) =
    if s.length == 0 || leb int32_min s.length
    then none_id
    else elim (str_bytes s) [ none ↦ invalid_id | some bytes ↦ policy_from_uri (some bytes) ]

unfoldable pub is_valid_security_mode : ℕ → Bool
is_valid_security_mode mode =
    mode == mode_none || mode == mode_sign || mode == mode_sign_and_encrypt

unfoldable pub generate_channel_id : Entropy → Result ℕ
generate_channel_id none = error bad_security_checks_failed
generate_channel_id (some generate_random) = elim (generate_random 4) [
  | error status ↦ error bad_security_checks_failed
  | ok random ↦ ok (let candidate = get_u32 random 0 in if candidate == 0 then 1 else candidate)
]

unfoldable pub channel_init : SecureChannel → SecureChannel
channel_init channel = record channel {
  channel_id = 0;
  token_id = 0;
  created_at = 0;
  revised_lifetime = 0;
  is_open = false;
  out_sequence_number = 0;
  policy = none_id;
  mode = mode_none;
  client_keys = zero_keys;
  server_keys = zero_keys;
  keys_valid = false;
  sequence = Sequence.init;
}

abbrev pub is_ecc : AsymFamily → Bool
is_ecc no_family = false
is_ecc rsa = false
is_ecc ecc = true

-- A channel with a policy other than None takes that policy, and a mode other than None.
abbrev pub check_secured : ℕ → ℕ → ℕ → ℕ
check_secured policy requested mode =
    if requested /= policy
    then bad_security_policy_rejected
    else if mode == mode_none
    then bad_security_mode_rejected
    else good

-- The tests of mu_secure_channel_open.
unfoldable pub check_security : ℕ → ℕ → ℕ → ℕ
check_security policy requested mode =
    if requested == invalid_id
    then bad_security_policy_rejected
    else if not (is_valid_security_mode mode)
    then bad_security_mode_rejected
    else if policy == none_id
    then (if requested /= none_id
        then bad_security_policy_rejected
        else if mode /= mode_none
        then bad_security_mode_rejected
        else good)
    else if policy == basic256sha256_id
        || policy == aes128_sha256_rsaoaep_id
        || policy == aes256_sha256_rsapss_id
    then check_secured policy requested mode
    else if is_ecc (asym_family policy)
    then check_secured policy requested mode
    else bad_security_policy_rejected

unfoldable pub clamp_lifetime : ℕ → ℕ
clamp_lifetime requested =
    let raised = if ltb requested 10000 then 10000 else requested in
    if ltb 3600000 raised then 3600000 else raised

-- A new channel draws its id; a renewal counts its token on.
unfoldable pub issue_or_renew : SecureChannel → Entropy → Result SecureChannel
issue_or_renew channel entropy =
    if not channel.is_open
    then elim (generate_channel_id entropy) [
      | error status ↦ error status
      | ok id ↦ ok (record channel { channel_id = id; token_id = 1; is_open = true })
    ]
    else ok (record channel { token_id = (channel.token_id + 1) % 2 ^ 32 })

-- The status and the channel; the revised lifetime is the one in it.
unfoldable pub channel_open : SecureChannel → Option Str → ℕ → ℕ → Entropy → ℕ × SecureChannel
channel_open channel security_policy security_mode requested_lifetime entropy =
    let checked =
      check_security channel.policy (requested_policy_id security_policy) security_mode in
    if checked /= good then (checked, channel) else elim (issue_or_renew channel entropy) [
      | error status ↦ (status, channel)
      | ok issued ↦ (
        good,
        record issued {
          revised_lifetime = clamp_lifetime requested_lifetime;
          mode = security_mode;
        },
      )
    ]

-- The cipher contexts that the crypto adapter releases hold no modelled state.
unfoldable pub channel_close : SecureChannel → ℕ × SecureChannel
channel_close channel =
    if not channel.is_open
    then (bad_tcp_secure_channel_unknown, channel)
    else (good, channel_init channel)
