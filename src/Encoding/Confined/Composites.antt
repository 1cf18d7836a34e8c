-- ===== src/Encoding/Confined/Composites.antt =====
-- The composite decoders and the skipping of an ExtensionObject are confined to the span.
use muc_opcua.Common.{
  ℕ, ◌+◌, ◌-◌, ◌≡◌, refl, List, inl, inr, arith, Bool-cases, leb, ltb, ◌/=◌, ◌||◌, true, false,
}
use muc_opcua.Status.{bad_decoding_error, good}
use muc_opcua.Encoding.State.{M}
use muc_opcua.Encoding.Types.{null_str}
use muc_opcua.Encoding.Reader.{Reader, reader_status, reader_fail, read_byte, read_int32}
use muc_opcua.Encoding.Text.{read_string}
use muc_opcua.Encoding.NodeIds.{read_nodeid}
use muc_opcua.Encoding.Composite.{
  read_username_identity_token, read_locale, read_text, read_localized_text, read_eu_information,
}
use muc_opcua.Encoding.Extension.{
  read_body_length, read_extension_object_header, skip_body, skip_extension_object,
}
use muc_opcua.Encoding.Confined.{
  Agree, Twin, Same, Confined, Confined-pure, Confined-raise, advance-Twin,
}
use muc_opcua.Encoding.Confined.Decoders.{
  Ok-if, Ok-byte, Ok-int32, Ok-string, Ok-bind, Ok-map, Ok-nodeid, tripped-Twin,
}

module _ (n : ℕ) (bytes others : List ℕ) (agree : Agree n bytes others) where
  abbrev Ok : {A : Type 0} → M Reader A → Type 0
  Ok m = Confined n bytes others m

  Ok-locale : (mask : ℕ) → Ok (read_locale mask)
  unfolding read_locale
  Ok-locale mask =
      Ok-if n bytes others agree _ _ _ (Ok-string n bytes others agree)
        (Confined-pure n bytes others null_str)

  Ok-text : (mask : ℕ) → Ok (read_text mask)
  unfolding read_text
  Ok-text mask =
      Ok-if n bytes others agree _ _ _ (Ok-string n bytes others agree)
        (Confined-pure n bytes others null_str)

  pub Ok-localized_text : Ok read_localized_text
  unfolding read_localized_text
  Ok-localized_text =
      Ok-bind n bytes others agree read_byte _ (Ok-byte n bytes others agree) (λ mask.
        Ok-bind n bytes others agree (read_locale mask) _ (Ok-locale mask)
          (λ l. Ok-map n bytes others agree (read_text mask) _ (Ok-text mask)))

  pub Ok-eu_information : Ok read_eu_information
  unfolding read_eu_information
  Ok-eu_information =
      Ok-bind n bytes others agree read_string _ (Ok-string n bytes others agree) (λ uri.
        Ok-bind n bytes others agree read_int32 _ (Ok-int32 n bytes others agree) (λ unit.
          Ok-bind n bytes others agree read_localized_text _ Ok-localized_text
            (λ shown. Ok-map n bytes others agree read_localized_text _ Ok-localized_text)))

  status-Same :
      (r s : Reader)
      → Twin n bytes others r s
      → Same n bytes others (reader_status r) (reader_status s)
  unfolding reader_status
  status-Same r s t = elim (Bool-cases (r.status /= good)) [
    | inl e ↦ let es : (s.status /= good) ≡ true = ground arith in rw (e, es) (t.same_status, t)
    | inr e ↦ let es : (s.status /= good) ≡ false = ground arith in rw (e, es) (refl, t)
  ]

  pub Ok-username_identity_token : Ok read_username_identity_token
  unfolding read_username_identity_token
  Ok-username_identity_token =
      Ok-bind n bytes others agree reader_status _ (record { apply = status-Same })
        (λ u. Ok-bind n bytes others agree read_string _ (Ok-string n bytes others agree) (λ policy.
          Ok-bind n bytes others agree read_string _ (Ok-string n bytes others agree) (λ name.
            Ok-bind n bytes others agree read_string _ (Ok-string n bytes others agree) (λ secret.
              Ok-map n bytes others agree read_string _ (Ok-string n bytes others agree)))))

  Ok-body_length : (mask : ℕ) → Ok (read_body_length mask)
  unfolding read_body_length
  Ok-body_length mask = Ok-if n bytes others agree _ _ _ (Confined-pure n bytes others 0) (
      Ok-if n bytes others agree _ _ _
        (Ok-bind n bytes others agree read_int32 _ (Ok-int32 n bytes others agree) (λ len.
          Ok-if n bytes others agree _ _ _ (Confined-raise n bytes others ℕ bad_decoding_error)
            (Confined-pure n bytes others len)))
        (Confined-raise n bytes others ℕ bad_decoding_error))

  skip-Same :
      (len : ℕ) (r s : Reader)
      → Twin n bytes others r s
      → Same n bytes others (skip_body len r) (skip_body len s)
  unfolding skip_body reader_fail
  skip-Same len r s t = elim (Bool-cases (leb (r.position + len) n)) [
    | inl e ↦
        let tr : (ltb r.length r.position || ltb (r.length - r.position) len) ≡ false =
          ground arith in
        let ts : (ltb s.length s.position || ltb (s.length - s.position) len) ≡ false =
          ground arith in
        rw (tr, ts) (refl, advance-Twin n bytes others len r s t (ground arith))
    | inr e ↦
        let tr : (ltb r.length r.position || ltb (r.length - r.position) len) ≡ true =
          ground arith in
        let ts : (ltb s.length s.position || ltb (s.length - s.position) len) ≡ true =
          ground arith in
        rw (tr, ts) (refl, tripped-Twin n bytes others agree bad_decoding_error r s t)
  ]

  pub Ok-skip_extension_object : Ok skip_extension_object
  unfolding skip_extension_object read_extension_object_header
  Ok-skip_extension_object =
      Ok-bind n bytes others agree _ _
        (Ok-bind n bytes others agree read_nodeid _ (Ok-nodeid n bytes others agree) (λ id.
          Ok-bind n bytes others agree read_byte _ (Ok-byte n bytes others agree) (λ mask.
            Ok-map n bytes others agree (read_body_length mask) (λ len. (id, len))
              (Ok-body_length mask))))
        (λ h. record { apply = skip-Same h.1 })
