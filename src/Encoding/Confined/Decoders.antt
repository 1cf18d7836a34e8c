-- ===== src/Encoding/Confined/Decoders.antt =====
-- The decoders of words, strings and NodeIds are confined to the span of their reader.
use muc_opcua.Common.{
  ℕ, zero, suc, ◌+◌, ◌≤◌, ◌<◌, ◌≡◌, ◌⊎◌, refl, sym, ap, ap₂, ◌∙◌, List, [], ◌∷◌, some, inl, inr,
  arith, get_or, slice, bit_and, Bool-cases, leb, ◌||◌, Bool, true, false, if◌then◌else◌,
}
use muc_opcua.Status.{bad_decoding_error, bad_encoding_limits_exceeded}
use muc_opcua.Encoding.State.{done, fail, M, ◌>>=◌, ◌>>◌, pure}
use muc_opcua.Encoding.Le.{get_u16, get_u32}
use muc_opcua.Encoding.Types.{Str, null_str, int32_min, NodeId}
use muc_opcua.Encoding.Reader.{
  Reader, contents, is_null, byte_at, reader_fail, read_byte, read_uint16, read_uint32, read_int32,
}
use muc_opcua.Encoding.Text.{ensure_string_payload, fetch_slice, read_string_payload, read_string}
use muc_opcua.Encoding.NodeIds.{
  read_bytes, read_two_byte, read_four_byte, read_numeric, read_string_id, read_guid,
  read_opaque_payload, read_opaque, read_format, read_nodeid, read_namespace_uri, read_server_index,
  read_expanded_fields, read_expanded_nodeid,
}
use muc_opcua.Encoding.Confined.{
  Agree, Twin, Same, Confined, Confined-pure, Confined-raise, Confined-bind, Confined-word, Local,
  advance-Twin,
}

module _ (n : ℕ) (bytes others : List ℕ) (agree : Agree n bytes others) where
  abbrev pub Ok : {A : Type 0} → M Reader A → Type 0
  Ok m = Confined n bytes others m

  pub Ok-if : {A : Type 0} (b : Bool) (x y : M Reader A) → Ok x → Ok y → Ok (if b then x else y)
  Ok-if true x y hx hy = hx
  Ok-if false x y hx hy = hy

  pub Ok-byte : Ok read_byte
  unfolding read_byte
  Ok-byte = Confined-word n bytes others byte_at 1 (λ p h. agree p (omega arith))

  u16-Local : Local n bytes others get_u16 2
  unfolding get_u16
  u16-Local p h = rw (agree p (omega arith), agree (suc p) (omega arith))

  u32-Local : Local n bytes others get_u32 4
  unfolding get_u32
  u32-Local p h = rw (
    agree p (omega arith),
    agree (suc p) (omega arith),
    agree (suc (suc p)) (omega arith),
    agree (suc (suc (suc p))) (omega arith),
  )

  pub Ok-uint16 : Ok read_uint16
  unfolding read_uint16
  Ok-uint16 = Confined-word n bytes others get_u16 2 u16-Local

  pub Ok-uint32 : Ok read_uint32
  unfolding read_uint32
  Ok-uint32 = Confined-word n bytes others get_u32 4 u32-Local

  pub Ok-int32 : Ok read_int32
  unfolding read_int32
  Ok-int32 = Confined-word n bytes others get_u32 4 u32-Local

  slice_local : (p k : ℕ) → p + k ≤ n → slice bytes p k ≡ slice others p k
  unfolding slice
  slice_local p zero h = refl
  slice_local p (suc k) h = ap₂ ◌∷◌ (agree p (omega arith)) (slice_local (suc p) k (omega arith))

  payload_same :
      (k : ℕ) (r s : Reader)
      → k < int32_min
      → Twin n bytes others r s
      → ((ensure_string_payload k r ≡ done tt r)
          × (ensure_string_payload k s ≡ done tt s)
          × (r.position + k ≤ n))
        ⊎ ((ensure_string_payload k r
              ≡ fail bad_decoding_error (record r { status = bad_decoding_error }))
            × (ensure_string_payload k s
                ≡ fail bad_decoding_error (record s { status = bad_decoding_error })))
  unfolding ensure_string_payload reader_fail
  payload_same k r s small t = elim (Bool-cases (leb (r.position + k) n)) [
    | inl room ↦ inl (ground arith, ground arith, ground arith)
    | inr short ↦ inr (ground arith, ground arith)
  ]

  pub tripped-Twin :
      (e : ℕ) (r s : Reader)
      → Twin n bytes others r s
      → Twin n bytes others (record r { status = e }) (record s { status = e })
  tripped-Twin e r s t = ground arith

  payload-Twin :
      (k : ℕ) (r s : Reader)
      → k < int32_min
      → Twin n bytes others r s
      → Same n bytes others
          ((ensure_string_payload k >> fetch_slice k) r)
          ((ensure_string_payload k >> fetch_slice k) s)
  payload-Twin k r s small t = elim (payload_same k r s small t) [
    | inl (er, es, room) ↦
        rw (er, es, ◌>>=◌)
          (
            ap (λ xs. record { length = k; bytes = some xs })
                (ap (λ o. slice (contents o) r.position k) t.left
                  ∙ slice_local r.position k room
                  ∙ ap₂ (λ o (p : ℕ). slice (contents o) p k) (sym t.right) t.same_position),
            advance-Twin n bytes others k r s t room,
          )
    | inr (er, es) ↦ rw (er, es, ◌>>=◌) (refl, tripped-Twin bad_decoding_error r s t)
  ]

  Ok-payload_of : (k : ℕ) → k < int32_min → Ok (ensure_string_payload k >> fetch_slice k)
  Ok-payload_of k small = record { apply = λ r s t. payload-Twin k r s small t }

  Ok-else :
      {A : Type 0} (b : Bool) (x y : M Reader A)
      → Ok x
      → (b ≡ false → Ok y)
      → Ok (if b then x else y)
  Ok-else true x y hx hy = hx
  Ok-else false x y hx hy = hy refl

  Ok-string_payload : (k : ℕ) → Ok (read_string_payload k)
  unfolding read_string_payload
  Ok-string_payload k = Ok-if _ (pure null_str) _ (Confined-pure n bytes others null_str) (
      Ok-else (leb int32_min k) _ _ (Confined-raise n bytes others Str bad_decoding_error) (λ small.
        Ok-if _ _ _ (Confined-raise n bytes others Str bad_encoding_limits_exceeded)
          (Ok-payload_of k (ground arith))))

  pub Ok-string : Ok read_string
  unfolding read_string
  Ok-string = Confined-bind n bytes others read_int32 read_string_payload Ok-int32 Ok-string_payload

  -- `m`, and a value made of what it read.
  pub Ok-map : {A B : Type 0} (m : M Reader A) (f : A → B) → Ok m → Ok (m >>= λ x. pure (f x))
  Ok-map m f h =
      Confined-bind n bytes others m (λ x. pure (f x)) h (λ x. Confined-pure n bytes others (f x))

  pub Ok-bind :
      {A B : Type 0} (m : M Reader A) (f : A → M Reader B)
      → Ok m
      → ((a : A) → Ok (f a))
      → Ok (m >>= f)
  Ok-bind m f hm hf = Confined-bind n bytes others m f hm hf

  Ok-bytes : (k : ℕ) → Ok (read_bytes k)
  unfolding read_bytes
  Ok-bytes zero = Confined-pure n bytes others []
  Ok-bytes (suc k) =
      Ok-bind read_byte _ Ok-byte (λ b. Ok-map (read_bytes k) (λ bs. b ∷ bs) (Ok-bytes k))

  Ok-opaque_payload : (ns len : ℕ) → Ok (read_opaque_payload ns len)
  unfolding read_opaque_payload
  Ok-opaque_payload ns len =
      Ok-if _ _ _ (Confined-raise n bytes others NodeId bad_decoding_error)
        (Ok-map (read_bytes len) _ (Ok-bytes len))

  Ok-format : (format : ℕ) → Ok (read_format format)
  unfolding read_format read_two_byte read_four_byte read_numeric read_string_id read_guid
      read_opaque
  Ok-format format = Ok-if _ _ _ (Ok-map read_byte _ Ok-byte) (
      Ok-if _ _ _ (Ok-bind read_byte _ Ok-byte (λ ns. Ok-map read_uint16 _ Ok-uint16)) (
        Ok-if _ _ _ (Ok-bind read_uint16 _ Ok-uint16 (λ ns. Ok-map read_uint32 _ Ok-uint32)) (
          Ok-if _ _ _ (Ok-bind read_uint16 _ Ok-uint16 (λ ns. Ok-map read_string _ Ok-string)) (
            Ok-if _ _ _
              (Ok-bind read_uint16 _ Ok-uint16 (λ ns. Ok-map (read_bytes 16) _ (Ok-bytes 16)))
              (Ok-if _ _ _
                (Ok-bind read_uint16 _ Ok-uint16
                  (λ ns. Ok-bind read_int32 _ Ok-int32 (Ok-opaque_payload ns)))
                (Confined-raise n bytes others NodeId bad_decoding_error))))))

  pub Ok-nodeid : Ok read_nodeid
  unfolding read_nodeid
  Ok-nodeid = Ok-bind read_byte _ Ok-byte (λ mask. Ok-format (bit_and mask 0x0f))

  Ok-namespace_uri : (mask : ℕ) → Ok (read_namespace_uri mask)
  unfolding read_namespace_uri
  Ok-namespace_uri mask = Ok-if _ _ _ Ok-string (Confined-pure n bytes others null_str)

  Ok-server_index : (mask : ℕ) → Ok (read_server_index mask)
  unfolding read_server_index
  Ok-server_index mask = Ok-if _ _ _ Ok-uint32 (Confined-pure n bytes others 0)

  Ok-expanded_fields : (mask : ℕ) → Ok (read_expanded_fields mask)
  unfolding read_expanded_fields
  Ok-expanded_fields mask = Ok-bind read_nodeid _ Ok-nodeid (λ id.
      Ok-bind (read_namespace_uri mask) _ (Ok-namespace_uri mask)
        (λ uri. Ok-map (read_server_index mask) _ (Ok-server_index mask)))

  -- The byte that is looked at before it is read.
  expanded-Same :
      (r s : Reader)
      → Twin n bytes others r s
      → Same n bytes others (read_expanded_nodeid r) (read_expanded_nodeid s)
  unfolding read_expanded_nodeid
  expanded-Same r s t = elim (Bool-cases (leb n r.position)) [
    | inl e ↦
        let tr : (is_null r.buffer || leb r.length r.position) ≡ true = ground arith in
        let ts : (is_null s.buffer || leb s.length s.position) ≡ true = ground arith in
        rw (tr, ts) (refl, t)
    | inr e ↦
        let tr : (is_null r.buffer || leb r.length r.position) ≡ false = ground arith in
        let ts : (is_null s.buffer || leb s.length s.position) ≡ false = ground arith in
        let byte : get_or (contents r.buffer) r.position 0
            ≡ get_or (contents s.buffer) s.position 0 =
          ap (λ o. get_or (contents o) r.position 0) t.left
          ∙ agree r.position (ground arith)
          ∙ ap₂ (λ o (p : ℕ). get_or (contents o) p 0) (sym t.right) t.same_position in
        rw (tr, ts, byte)
          ((Ok-expanded_fields (get_or (contents s.buffer) s.position 0)).apply r s t)
  ]

  pub Ok-expanded_nodeid : Ok read_expanded_nodeid
  Ok-expanded_nodeid = record { apply = expanded-Same }
