-- ===== src/Encoding/Composite.antt =====
-- src/encoding/binary_reader.c and binary_writer.c: identity tokens, Range, LocalizedText and
-- EUInformation.
use muc_opcua.Common.{ℕ, Bool, ltb, ◌/=◌, if◌then◌else◌, bit_and, bit_or}
use muc_opcua.Encoding.State.{M, ◌>>=◌, ◌>>◌, pure}
use muc_opcua.Encoding.Types.{
  Str, null_str, int32_min, Range, LocalizedText, EuInformation, UsernameIdentityToken,
  CertificateIdentityToken,
}
use muc_opcua.Encoding.Reader.{Reader, reader_status, read_byte, read_int32, read_double}
use muc_opcua.Encoding.Writer.{Writer, write_byte, write_int32, write_double}
use muc_opcua.Encoding.Text.{read_string, write_string}

unfoldable pub read_username_identity_token : M Reader UsernameIdentityToken
read_username_identity_token = do
  reader_status
  policy ← read_string
  name ← read_string
  secret ← read_string
  algorithm ← read_string
  pure (record {
    policy_id = policy;
    username = name;
    password = secret;
    encryption_algorithm = algorithm;
  })

unfoldable pub read_certificate_identity_token : M Reader CertificateIdentityToken
read_certificate_identity_token = do
  reader_status
  policy ← read_string
  certificate ← read_string
  pure (record { policy_id = policy; certificate_data = certificate })

unfoldable pub read_range : M Reader Range
read_range = do lo ← read_double; hi ← read_double; pure (record { low = lo; high = hi })

unfoldable pub write_range : Range → M Writer (Unit {0})
write_range value = write_double value.low >> write_double value.high

unfoldable pub read_locale : ℕ → M Reader Str
read_locale mask = if bit_and mask 0x01 /= 0 then read_string else pure null_str

unfoldable pub read_text : ℕ → M Reader Str
read_text mask = if bit_and mask 0x02 /= 0 then read_string else pure null_str

unfoldable pub read_localized_text : M Reader LocalizedText
read_localized_text = do
  mask ← read_byte
  l ← read_locale mask
  t ← read_text mask
  pure (record { locale = l; text = t })

-- `value->locale.length >= 0` on the int32 pattern.
abbrev pub is_present : Str → Bool
is_present s = ltb s.length int32_min

abbrev pub text_mask : LocalizedText → ℕ
text_mask value =
    bit_or (if is_present value.locale then 0x01 else 0) (if is_present value.text then 0x02 else 0)

unfoldable pub write_localized_text : LocalizedText → M Writer (Unit {0})
write_localized_text value =
    write_byte (text_mask value)
    >> ((if bit_and (text_mask value) 0x01 /= 0 then write_string value.locale else pure tt)
        >> (if bit_and (text_mask value) 0x02 /= 0 then write_string value.text else pure tt))

unfoldable pub read_eu_information : M Reader EuInformation
read_eu_information = do
  uri ← read_string
  unit ← read_int32
  shown ← read_localized_text
  about ← read_localized_text
  pure (record { namespace_uri = uri; unit_id = unit; display_name = shown; description = about })

unfoldable pub write_eu_information : EuInformation → M Writer (Unit {0})
write_eu_information value =
    write_string value.namespace_uri
    >> (write_int32 value.unit_id
        >> (write_localized_text value.display_name >> write_localized_text value.description))
