-- ===== src/Encoding/Confined/Variants.antt =====
-- The decoders of Variants and DataValues are confined to the span of their reader.
use muc_opcua.Common.{
  ℕ, zero, suc, ◌-◌, ◌≤◌, ◌≡◌, refl, List, [], ◌∷◌, false, none, some, inl, inr, arith, Bool, leb,
  ◌&&◌, Bool-cases, ltb, ◌/=◌, ◌==◌, bit_and, if◌then◌else◌,
}
use muc_opcua.Status.{bad_decoding_error, bad_encoding_limits_exceeded, bad_out_of_memory}
use muc_opcua.Encoding.State.{Outcome, done, fail, M, ◌>>=◌, pure, raise}
use muc_opcua.Encoding.Le.{get_u16, get_u32, get_u64}
use muc_opcua.Encoding.Types.{int32_min, int32_minus_one}
use muc_opcua.Encoding.Reader.{
  reader_init, Reader, byte_at, fetch, ensure_bytes, read_boolean, read_byte, read_sbyte,
  read_int16, read_uint16, read_int32, read_uint32, read_int64, read_uint64, read_float,
  read_double, read_statuscode,
}
use muc_opcua.Encoding.Text.{read_string}
use muc_opcua.Encoding.NodeIds.{read_nodeid, read_qualified_name}
use muc_opcua.Encoding.Composite.{read_localized_text}
use muc_opcua.Encoding.Confined.{
  Agree, Twin, Same, Confined, Confined-pure, Confined-raise, Confined-bind, Confined-word, Local,
}
use muc_opcua.Encoding.Confined.Decoders.{
  Ok-if, Ok-byte, Ok-uint16, Ok-uint32, Ok-int32, Ok-string, Ok-nodeid,
}
use muc_opcua.Encoding.Confined.Composites.{Ok-localized_text}
use muc_opcua.Encoding.Confined.Span.{swap, swap-Twin}
use muc_opcua.Encoding.Variant as V
use muc_opcua.Encoding.Variant.{
  Scalar, Variant, null, scalar, array, Platform, read_scalar_value, read_elements, check_remaining,
  read_array_elements, skip_int32s, skip_dimensions, read_array, read_variant,
}
use muc_opcua.Encoding.Variant.DataValue.{read_if, read_datavalue}

module _ (n : ℕ) (bytes others : List ℕ) (agree : Agree n bytes others) where
  abbrev Ok : {A : Type 0} → M Reader A → Type 0
  Ok m = Confined n bytes others m

  either : {A : Type 0} (b : Bool) (x y : M Reader A) → Ok x → Ok y → Ok (if b then x else y)
  either b x y hx hy = Ok-if n bytes others agree b x y hx hy

  next :
      {A B : Type 0} (m : M Reader A) (f : A → M Reader B)
      → Ok m
      → ((a : A) → Ok (f a))
      → Ok (m >>= f)
  next m f hm hf = Confined-bind n bytes others m f hm hf

  give : {A : Type 0} (a : A) → Ok (pure a)
  give a = Confined-pure n bytes others a

  refuse : (A : Type 0) (e : ℕ) → Ok {A = A} (raise e)
  refuse A e = Confined-raise n bytes others A e

  u16-Local : Local n bytes others get_u16 2
  unfolding get_u16
  u16-Local p h = rw (agree p (omega arith), agree (suc p) (omega arith))

  u64-Local : Local n bytes others get_u64 8
  unfolding get_u64 get_u32
  u64-Local p h = rw (
    agree p (omega arith),
    agree (suc p) (omega arith),
    agree (suc (suc p)) (omega arith),
    agree (suc (suc (suc p))) (omega arith),
    agree (suc (suc (suc (suc p)))) (omega arith),
    agree (suc (suc (suc (suc (suc p))))) (omega arith),
    agree (suc (suc (suc (suc (suc (suc p)))))) (omega arith),
    agree (suc (suc (suc (suc (suc (suc (suc p))))))) (omega arith),
  )

  boolean_behind :
      (o : Outcome Reader (Unit {0}))
      → ◌>>=◌ {S = Reader}
          (λ (x : Reader). o)
          (λ u. fetch byte_at 1 >>= λ b. pure (b /= 0))
          (reader_init none 0)
        ≡ ◌>>=◌ {S = Reader}
            (◌>>=◌ {S = Reader} (λ (x : Reader). o) (λ u. fetch byte_at 1))
            (λ b. pure (b /= 0))
            (reader_init none 0)
  boolean_behind (done u s) = refl
  boolean_behind (fail e s) = refl

  boolean_lem : (r : Reader) → read_boolean r ≡ (read_byte >>= λ b. pure (b /= 0)) r
  unfolding read_boolean read_byte
  boolean_lem r = boolean_behind (ensure_bytes 1 r)

  Ok-boolean : Ok read_boolean
  Ok-boolean = record {
    apply = λ r s t.
        rw (boolean_lem r, boolean_lem s)
          ((next read_byte (λ b. pure (b /= 0)) (Ok-byte n bytes others agree)
              (λ b. give (b /= 0))).apply
            r s t);
  }

  Ok-sbyte : Ok read_sbyte
  unfolding read_sbyte
  Ok-sbyte = Confined-word n bytes others byte_at 1 (λ p h. agree p (omega arith))

  Ok-int16 : Ok read_int16
  unfolding read_int16
  Ok-int16 = Confined-word n bytes others get_u16 2 u16-Local

  Ok-int64 : Ok read_int64
  unfolding read_int64
  Ok-int64 = Confined-word n bytes others get_u64 8 u64-Local

  Ok-uint64 : Ok read_uint64
  unfolding read_uint64
  Ok-uint64 = Confined-word n bytes others get_u64 8 u64-Local

  Ok-float : Ok read_float
  unfolding read_float
  Ok-float = Ok-uint32 n bytes others agree

  Ok-double : Ok read_double
  unfolding read_double
  Ok-double = Ok-uint64

  Ok-statuscode : Ok read_statuscode
  unfolding read_statuscode
  Ok-statuscode = Ok-uint32 n bytes others agree

  Ok-qualified_name : Ok read_qualified_name
  unfolding read_qualified_name
  Ok-qualified_name =
      next read_uint16 _ (Ok-uint16 n bytes others agree)
        (λ ns. next read_string _ (Ok-string n bytes others agree) (λ s. give _))

  -- One case of the chain.
  choice :
      {A : Type 0} (b : Bool) (m : M Reader A) (make : A → Scalar) (y : M Reader Scalar)
      → Ok m
      → Ok y
      → Ok (if b then (m >>= λ a. pure (make a)) else y)
  choice b m make y hm hy = either b _ y (next m (λ a. pure (make a)) hm (λ a. give (make a))) hy

  Ok-scalar : (type : ℕ) → Ok (read_scalar_value type)
  unfolding read_scalar_value
  Ok-scalar type = choice (type == 1) read_boolean V.boolean _ Ok-boolean (
      choice (type == 2) read_sbyte V.sbyte _ Ok-sbyte (
        choice (type == 3) read_byte V.byte _ (Ok-byte n bytes others agree) (
          choice (type == 4) read_int16 V.int16 _ Ok-int16 (
            choice (type == 5) read_uint16 V.uint16 _ (Ok-uint16 n bytes others agree) (
              choice (type == 6) read_int32 V.int32 _ (Ok-int32 n bytes others agree) (
                choice (type == 7) read_uint32 V.uint32 _ (Ok-uint32 n bytes others agree) (
                  choice (type == 8) read_int64 V.int64 _ Ok-int64 (
                    choice (type == 9) read_uint64 V.uint64 _ Ok-uint64 (
                      choice (type == 10) read_float V.float _ Ok-float (
                        choice (type == 11) read_double V.double _ Ok-double (
                          choice (type == 12) read_string V.string _
                            (Ok-string n bytes others agree)
                            (choice (type == 15) read_string V.bytestring _
                              (Ok-string n bytes others agree)
                              (choice (type == 13) read_int64 V.datetime _ Ok-int64 (
                                choice (type == 19) read_statuscode V.statuscode _ Ok-statuscode (
                                  choice (type == 17) read_nodeid V.nodeid _
                                    (Ok-nodeid n bytes others agree)
                                    (choice (type == 20) read_qualified_name V.qualified_name _
                                      Ok-qualified_name
                                      (choice (type == 21) read_localized_text V.localized_text _
                                        (Ok-localized_text n bytes others agree)
                                        (refuse Scalar bad_decoding_error))))))))))))))))))

  Ok-elements : (type k : ℕ) → Ok (read_elements type k)
  unfolding read_elements
  Ok-elements type zero = give []
  Ok-elements type (suc k) =
      next (read_scalar_value type) _ (Ok-scalar type)
        (λ x. next (read_elements type k) _ (Ok-elements type k) (λ xs. give (x ∷ xs)))

  remaining-Same :
      (k : ℕ) (r s : Reader)
      → Twin n bytes others r s
      → Same n bytes others (check_remaining k r) (check_remaining k s)
  unfolding check_remaining
  remaining-Same k r s t = elim (Bool-cases (ltb (n - r.position) k)) [
    | inl e ↦
        let er : check_remaining k r ≡ fail bad_decoding_error r = ground arith in
        let es : check_remaining k s ≡ fail bad_decoding_error s = ground arith in
        rw (er, es) (refl, t)
    | inr e ↦
        let er : check_remaining k r ≡ done tt r = ground arith in
        let es : check_remaining k s ≡ done tt s = ground arith in rw (er, es) (refl, t)
  ]

  Ok-remaining : (k : ℕ) → Ok (check_remaining k)
  Ok-remaining k = record { apply = remaining-Same k }

  Ok-array_elements : (platform : Platform) (type k : ℕ) → Ok (read_array_elements platform type k)
  unfolding read_array_elements
  Ok-array_elements platform type k = either _ _ _ (refuse _ bad_decoding_error) (
      next (check_remaining k) _ (Ok-remaining k) (λ u. either _ _ _ (refuse _ bad_decoding_error) (
        either _ _ _ (refuse _ bad_out_of_memory)
          (next (read_elements type k) _ (Ok-elements type k) (λ xs. give (some xs))))))

  Ok-int32s : (k : ℕ) → Ok (skip_int32s k)
  unfolding skip_int32s
  Ok-int32s zero = give tt
  Ok-int32s (suc k) = next read_int32 _ (Ok-int32 n bytes others agree) (λ dim. Ok-int32s k)

  Ok-dimensions : Ok skip_dimensions
  unfolding skip_dimensions
  Ok-dimensions =
      next read_int32 _ (Ok-int32 n bytes others agree)
        (λ k. either _ _ _ (refuse _ bad_decoding_error) (either _ _ _ (give tt) (Ok-int32s k)))

  Ok-array :
      (platform : Platform) (type : ℕ) (dims : Bool) (k : ℕ) → Ok (read_array platform type dims k)
  unfolding read_array
  Ok-array platform type dims k =
      either (leb int32_min k && k /= int32_minus_one) _ _ (refuse _ bad_decoding_error) (
        either (ltb k int32_min && ltb platform.max_array_length k) _ _
          (refuse _ bad_encoding_limits_exceeded)
          (next _ _
            (either (ltb 0 k && ltb k int32_min) _ _ (Ok-array_elements platform type k)
              (give none))
            (λ o. next _ _ (either dims _ _ Ok-dimensions (give tt)) (λ u. give (array type k o)))))

  pub Ok-variant : (platform : Platform) → Ok (read_variant platform)
  unfolding read_variant
  Ok-variant platform = next read_byte _ (Ok-byte n bytes others agree) (λ mask.
      either _ _ _ (refuse _ bad_decoding_error) (
        either _ _ _ (give (null false)) (
          either _ _ _
            (next read_int32 _ (Ok-int32 n bytes others agree)
              (λ k. Ok-array platform (bit_and mask 0x3f) (bit_and mask 0x40 /= 0) k))
            (next (read_scalar_value _) _ (Ok-scalar (bit_and mask 0x3f)) (λ x. give (scalar x))))))

  field : {A : Type 0} (b : Bool) (m : M Reader A) → Ok m → Ok (read_if b m)
  field b m h = either b _ _ (next m _ h (λ a. give (some a))) (give none)

  pub Ok-datavalue : (platform : Platform) → Ok (read_datavalue platform)
  unfolding read_datavalue
  Ok-datavalue platform = next read_byte _ (Ok-byte n bytes others agree) (λ mask.
      next _ _ (field (bit_and mask 0x01 /= 0) (read_variant platform) (Ok-variant platform)) (λ v.
        next _ _ (field (bit_and mask 0x02 /= 0) read_statuscode Ok-statuscode) (λ s.
          next _ _ (field (bit_and mask 0x04 /= 0) read_int64 Ok-int64) (λ st.
            next _ _ (field (bit_and mask 0x10 /= 0) read_uint16 (Ok-uint16 n bytes others agree))
              (λ sp. next _ _ (field (bit_and mask 0x08 /= 0) read_int64 Ok-int64) (λ vt.
                next _ _
                  (field (bit_and mask 0x20 /= 0) read_uint16 (Ok-uint16 n bytes others agree))
                  (λ vp. give _)))))))

-- For any bytes in the buffer, well formed or hostile: the decoders of Variants and of DataValues
-- give the same result over another buffer that agrees below the reader's length, so they read
-- nothing behind it; and the reader that they leave has its length and a position within it.
pub variants_confined :
    (platform : Platform) (r : Reader) (bytes others : List ℕ)
    → r.buffer ≡ some bytes
    → r.position ≤ r.length
    → Agree r.length bytes others
    → Same r.length bytes others (read_variant platform r) (read_variant platform (swap r others))
      × Same r.length bytes others
          (read_datavalue platform r)
          (read_datavalue platform (swap r others))
variants_confined platform r bytes others e inside agree = (
  (Ok-variant r.length bytes others agree platform).apply r (swap r others)
      (swap-Twin r bytes others e inside),
  (Ok-datavalue r.length bytes others agree platform).apply r (swap r others)
      (swap-Twin r bytes others e inside),
)
