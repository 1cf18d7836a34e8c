-- ===== src/Status.antt =====
-- include/muc_opcua/status.h: the status codes that the modelled functions return. A status is the
-- 32-bit number that goes over the wire; 0 is MU_STATUS_GOOD.
use muc_opcua.Common.{ℕ}

abbrev pub good : ℕ
good = 0

abbrev pub bad_internal_error : ℕ
bad_internal_error = 0x80020000

abbrev pub bad_out_of_memory : ℕ
bad_out_of_memory = 0x80030000

abbrev pub bad_encoding_error : ℕ
bad_encoding_error = 0x80060000

abbrev pub bad_decoding_error : ℕ
bad_decoding_error = 0x80070000

abbrev pub bad_encoding_limits_exceeded : ℕ
bad_encoding_limits_exceeded = 0x80080000

abbrev pub bad_response_too_large : ℕ
bad_response_too_large = 0x80B90000

abbrev pub bad_security_checks_failed : ℕ
bad_security_checks_failed = 0x80130000

abbrev pub bad_identity_token_invalid : ℕ
bad_identity_token_invalid = 0x80200000

abbrev pub bad_secure_channel_id_invalid : ℕ
bad_secure_channel_id_invalid = 0x80220000

abbrev pub bad_session_id_invalid : ℕ
bad_session_id_invalid = 0x80250000

abbrev pub bad_security_mode_rejected : ℕ
bad_security_mode_rejected = 0x80540000

abbrev pub bad_security_policy_rejected : ℕ
bad_security_policy_rejected = 0x80550000

abbrev pub bad_tcp_message_type_invalid : ℕ
bad_tcp_message_type_invalid = 0x807E0000

abbrev pub bad_tcp_secure_channel_unknown : ℕ
bad_tcp_secure_channel_unknown = 0x807F0000

abbrev pub bad_tcp_message_too_large : ℕ
bad_tcp_message_too_large = 0x80800000

abbrev pub bad_tcp_not_enough_resources : ℕ
bad_tcp_not_enough_resources = 0x80810000

abbrev pub bad_tcp_internal_error : ℕ
bad_tcp_internal_error = 0x80820000

abbrev pub bad_tcp_endpoint_url_invalid : ℕ
bad_tcp_endpoint_url_invalid = 0x80830000

abbrev pub bad_subscription_id_invalid : ℕ
bad_subscription_id_invalid = 0x80280000

abbrev pub bad_sequence_number_unknown : ℕ
bad_sequence_number_unknown = 0x807A0000

abbrev pub bad_message_not_available : ℕ
bad_message_not_available = 0x807B0000

abbrev pub bad_entry_exists : ℕ
bad_entry_exists = 0x809F0000

abbrev pub bad_no_entry_exists : ℕ
bad_no_entry_exists = 0x80A00000

abbrev pub bad_invalid_argument : ℕ
bad_invalid_argument = 0x80AB0000

-- What a function gives that returns a status and, if it is MU_STATUS_GOOD, a value.
pub data Result {ℓ} (A : Type ℓ) : Type ℓ where
  error : ℕ → Result A
  ok : A → Result A

abbrev pub bad_too_many_sessions : ℕ
bad_too_many_sessions = 0x80560000

abbrev pub bad_too_many_subscriptions : ℕ
bad_too_many_subscriptions = 0x80770000

abbrev pub bad_too_many_publish_requests : ℕ
bad_too_many_publish_requests = 0x80780000

abbrev pub bad_too_many_monitored_items : ℕ
bad_too_many_monitored_items = 0x80DB0000

abbrev pub bad_monitored_item_id_invalid : ℕ
bad_monitored_item_id_invalid = 0x80420000
