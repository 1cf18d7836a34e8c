-- ===== src/Services/Policy.antt =====
-- src/security/security_policy.c: the SecurityPolicies by their ids and URIs, with the columns of
-- the parameter table that the secure channel reads.
use muc_opcua.Common.{
  ℕ, List, [], ◌∷◌, ◌++◌, Option, none, some, Bool, ◌==◌, if◌then◌else◌, codes, length,
}
use muc_opcua.Services.Session.{same_bytes}

-- `mu_security_policy_id_t`.
abbrev pub invalid_id : ℕ
invalid_id = 0

abbrev pub none_id : ℕ
none_id = 1

abbrev pub basic256sha256_id : ℕ
basic256sha256_id = 2

abbrev pub aes128_sha256_rsaoaep_id : ℕ
aes128_sha256_rsaoaep_id = 3

abbrev pub aes256_sha256_rsapss_id : ℕ
aes256_sha256_rsapss_id = 4

abbrev pub ecc_nistp256_id : ℕ
ecc_nistp256_id = 5

abbrev pub ecc_curve25519_id : ℕ
ecc_curve25519_id = 6

-- `mu_asym_family_t`.
pub data AsymFamily : Type 0 where
  no_family : AsymFamily
  rsa : AsymFamily
  ecc : AsymFamily

pub record PolicyParams : Type 0 where
  pub id : ℕ
  pub uri : List ℕ
  pub family : AsymFamily

abbrev row : ℕ → List ℕ → AsymFamily → PolicyParams
row id name family = record {
  id = id;
  uri = codes "http://opcfoundation.org/UA/SecurityPolicy#" ++ name;
  family = family;
}

abbrev pub policy_table : List PolicyParams
policy_table =
    row none_id (codes "None") no_family
    ∷ row basic256sha256_id (codes "Basic256Sha256") rsa
    ∷ row aes128_sha256_rsaoaep_id (codes "Aes128_Sha256_RsaOaep") rsa
    ∷ row aes256_sha256_rsapss_id (codes "Aes256_Sha256_RsaPss") rsa
    ∷ row ecc_nistp256_id (codes "ECC_nistP256") ecc
    ∷ row ecc_curve25519_id (codes "ECC_curve25519") ecc
    ∷ []

abbrev pub row_of : List PolicyParams → ℕ → Option PolicyParams
row_of [] id = none
row_of (p ∷ ps) id = let rest = row_of ps id in if p.id == id then some p else rest

abbrev pub policy_row : ℕ → Option PolicyParams
policy_row id = row_of policy_table id

-- The `length` bytes of the URI are those of the row.
abbrev pub uri_equals : List ℕ → List ℕ → Bool
uri_equals uri expected = same_bytes uri expected

abbrev pub id_of : List PolicyParams → List ℕ → ℕ
id_of [] uri = invalid_id
id_of (p ∷ ps) uri = let rest = id_of ps uri in if uri_equals uri p.uri then p.id else rest

-- `uri` is `none` for NULL, else the bytes that the length counts.
unfoldable pub policy_from_uri : Option (List ℕ) → ℕ
policy_from_uri none = none_id
policy_from_uri (some uri) = if length uri == 0 then none_id else id_of policy_table uri

unfoldable pub policy_uri : ℕ → Option (List ℕ)
policy_uri id = elim (policy_row id) [ none ↦ none | some p ↦ some p.uri ]

unfoldable pub asym_family : ℕ → AsymFamily
asym_family id = elim (policy_row id) [ none ↦ no_family | some p ↦ p.family ]
