-- ===== src/Authorization.antt =====
-- src/cu/core_2022_server/authorization: the decoding of tokens.
pub mod Base64url
