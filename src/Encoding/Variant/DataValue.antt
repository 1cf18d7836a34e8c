-- ===== src/Encoding/Variant/DataValue.antt =====
-- src/encoding/binary_datavalue.c: the DataValue, each field of it present or absent.
use muc_opcua.Common.{
  ℕ, ◌≡◌, List, [], ◌∷◌, ◌++◌, Option, none, some, Bool, true, false, arith, ◌/=◌, if◌then◌else◌,
  bit_and, bit_or,
}
use muc_opcua.Encoding.Le.{le_u16, le_u32, le_u64}
use muc_opcua.Encoding.State.{M, ◌>>=◌, ◌>>◌, pure}
use muc_opcua.Encoding.Reader.{Reader, read_byte, read_uint16, read_int64, read_statuscode}
use muc_opcua.Encoding.Writer.{Writer, write_byte, write_uint16, write_int64, write_statuscode}
use muc_opcua.Encoding.Format.{IsU16, IsU32, IsU64}
use muc_opcua.Encoding.Calculus.{
  Reads, Writes, Reads-pure, Reads-bind, Reads-map, Writes-pure, Writes-bind,
}
use muc_opcua.Encoding.Words.{
  Reads-byte, Reads-uint16, Reads-int64, Reads-statuscode, Writes-byte, Writes-uint16, Writes-int64,
  Writes-statuscode,
}
use muc_opcua.Encoding.Variant.{Variant, Platform, read_variant, write_variant}
use muc_opcua.Encoding.Variant.Arrays.{IsVariant, variant_format, Reads-variant, Writes-variant}

-- `mu_datavalue_t`; a field whose `has_` flag is false is `none`.
pub record DataValue : Type 0 where
  pub value : Option Variant
  pub status : Option ℕ
  pub source_timestamp : Option ℕ
  pub source_picoseconds : Option ℕ
  pub server_timestamp : Option ℕ
  pub server_picoseconds : Option ℕ

-- `if (value->has_...) status = mu_binary_read_...(reader, ...);`
abbrev pub read_if : {A : Type 0} → Bool → M Reader A → M Reader (Option A)
read_if present m = if present then (m >>= λ a. pure (some a)) else pure none

abbrev pub write_if : {A : Type 0} → (A → M Writer (Unit {0})) → Option A → M Writer (Unit {0})
write_if write none = pure tt
write_if write (some a) = write a

unfoldable pub read_datavalue : Platform → M Reader DataValue
read_datavalue platform = do
  encoding_mask ← read_byte
  v ← read_if (bit_and encoding_mask 0x01 /= 0) (read_variant platform)
  s ← read_if (bit_and encoding_mask 0x02 /= 0) read_statuscode
  st ← read_if (bit_and encoding_mask 0x04 /= 0) read_int64
  sp ← read_if (bit_and encoding_mask 0x10 /= 0) read_uint16
  vt ← read_if (bit_and encoding_mask 0x08 /= 0) read_int64
  vp ← read_if (bit_and encoding_mask 0x20 /= 0) read_uint16
  pure (record {
    value = v;
    status = s;
    source_timestamp = st;
    source_picoseconds = sp;
    server_timestamp = vt;
    server_picoseconds = vp;
  })

abbrev pub is_some : {A : Type 0} → Option A → Bool
is_some none = false
is_some (some a) = true

abbrev pub flag : Bool → ℕ → ℕ
flag b bit = if b then bit else 0

abbrev pub presence_mask : Bool → Bool → Bool → Bool → Bool → Bool → ℕ
presence_mask v s st sp vt vp =
    bit_or
      (bit_or (bit_or (bit_or (bit_or (flag v 0x01) (flag s 0x02)) (flag st 0x04)) (flag sp 0x10))
        (flag vt 0x08))
      (flag vp 0x20)

abbrev pub datavalue_mask : DataValue → ℕ
datavalue_mask d =
    presence_mask (is_some d.value) (is_some d.status) (is_some d.source_timestamp)
      (is_some d.source_picoseconds) (is_some d.server_timestamp) (is_some d.server_picoseconds)

unfoldable pub write_datavalue : Platform → DataValue → M Writer (Unit {0})
write_datavalue platform d = do
  write_byte (datavalue_mask d)
  write_if (write_variant platform) d.value
  write_if write_statuscode d.status
  write_if write_int64 d.source_timestamp
  write_if write_uint16 d.source_picoseconds
  write_if write_int64 d.server_timestamp
  write_if write_uint16 d.server_picoseconds

-- Each field that is present has an encoding.
abbrev pub IsField : {A : Type 0} → (A → Type 0) → Option A → Type 0
IsField P none = Unit
IsField P (some a) = P a

abbrev pub IsDataValue : Platform → DataValue → Type 0
IsDataValue platform d =
    IsField (IsVariant platform) d.value
    × IsField IsU32 d.status
    × IsField IsU64 d.source_timestamp
    × IsField IsU16 d.source_picoseconds
    × IsField IsU64 d.server_timestamp
    × IsField IsU16 d.server_picoseconds

abbrev pub field_format : {A : Type 0} → (A → List ℕ) → Option A → List ℕ
field_format f none = []
field_format f (some a) = f a

unfoldable pub datavalue_format : DataValue → List ℕ
datavalue_format d =
    datavalue_mask d
    ∷ (field_format variant_format d.value
        ++ (field_format le_u32 d.status
            ++ (field_format le_u64 d.source_timestamp
                ++ (field_format le_u16 d.source_picoseconds
                    ++ (field_format le_u64 d.server_timestamp
                        ++ field_format le_u16 d.server_picoseconds)))))

presence_bits :
    (v s st sp vt vp : Bool)
    → let mask = presence_mask v s st sp vt vp in
      ((bit_and mask 0x01 /= 0) ≡ v)
      × ((bit_and mask 0x02 /= 0) ≡ s)
      × ((bit_and mask 0x04 /= 0) ≡ st)
      × ((bit_and mask 0x10 /= 0) ≡ sp)
      × ((bit_and mask 0x08 /= 0) ≡ vt)
      × ((bit_and mask 0x20 /= 0) ≡ vp)
presence_bits v s st sp vt vp = ground arith

Reads-field :
    {A : Type 0} (b : Bool) (m : M Reader A) (f : A → List ℕ) (P : A → Type 0) (o : Option A)
    → ((a : A) → P a → Reads m (f a) a)
    → b ≡ is_some o
    → IsField P o
    → Reads (read_if b m) (field_format f o) o
Reads-field b m f P none hm e h = rw e (Reads-pure none)
Reads-field b m f P (some a) hm e h = rw e (Reads-map m some (f a) a (hm a h))

Writes-field :
    {A : Type 0} (w : A → M Writer (Unit {0})) (f : A → List ℕ) (P : A → Type 0) (o : Option A)
    → ((a : A) → P a → Writes (w a) (f a))
    → IsField P o
    → Writes (write_if w o) (field_format f o)
Writes-field w f P none hw h = Writes-pure
Writes-field w f P (some a) hw h = hw a h

pub Reads-datavalue :
    (platform : Platform) (d : DataValue)
    → IsDataValue platform d
    → Reads (read_datavalue platform) (datavalue_format d) d
unfolding read_datavalue datavalue_format
Reads-datavalue platform d (hv, hs, hst, hsp, hvt, hvp) =
    let (bv, bs, bst, bsp, bvt, bvp) =
      presence_bits (is_some d.value) (is_some d.status) (is_some d.source_timestamp)
        (is_some d.source_picoseconds) (is_some d.server_timestamp)
        (is_some d.server_picoseconds) in
    Reads-bind read_byte _ (datavalue_mask d ∷ []) _ (datavalue_mask d) d
      (Reads-byte (datavalue_mask d))
      (Reads-bind _ _ (field_format variant_format d.value) _ d.value d
        (Reads-field _ (read_variant platform) variant_format (IsVariant platform) d.value
          (Reads-variant platform) bv hv)
        (Reads-bind _ _ (field_format le_u32 d.status) _ d.status d
          (Reads-field _ read_statuscode le_u32 IsU32 d.status Reads-statuscode bs hs)
          (Reads-bind _ _ (field_format le_u64 d.source_timestamp) _ d.source_timestamp d
            (Reads-field _ read_int64 le_u64 IsU64 d.source_timestamp Reads-int64 bst hst)
            (Reads-bind _ _ (field_format le_u16 d.source_picoseconds) _ d.source_picoseconds d
              (Reads-field _ read_uint16 le_u16 IsU16 d.source_picoseconds Reads-uint16 bsp hsp)
              (Reads-bind _ _ (field_format le_u64 d.server_timestamp) _ d.server_timestamp d
                (Reads-field _ read_int64 le_u64 IsU64 d.server_timestamp Reads-int64 bvt hvt)
                (Reads-map _ (λ x. record d { server_picoseconds = x })
                  (field_format le_u16 d.server_picoseconds) d.server_picoseconds
                  (Reads-field _ read_uint16 le_u16 IsU16 d.server_picoseconds Reads-uint16 bvp
                    hvp)))))))

pub Writes-datavalue :
    (platform : Platform) (d : DataValue)
    → IsDataValue platform d
    → Writes (write_datavalue platform d) (datavalue_format d)
unfolding write_datavalue datavalue_format
Writes-datavalue platform d (hv, hs, hst, hsp, hvt, hvp) =
    Writes-bind (write_byte (datavalue_mask d)) _ (datavalue_mask d ∷ []) _
      (Writes-byte (datavalue_mask d))
      (Writes-bind _ _ (field_format variant_format d.value) _
        (Writes-field (write_variant platform) variant_format (IsVariant platform) d.value
          (Writes-variant platform) hv)
        (Writes-bind _ _ (field_format le_u32 d.status) _
          (Writes-field write_statuscode le_u32 IsU32 d.status (λ v h. Writes-statuscode v) hs)
          (Writes-bind _ _ (field_format le_u64 d.source_timestamp) _
            (Writes-field write_int64 le_u64 IsU64 d.source_timestamp (λ v h. Writes-int64 v) hst)
            (Writes-bind _ _ (field_format le_u16 d.source_picoseconds) _
              (Writes-field write_uint16 le_u16 IsU16 d.source_picoseconds (λ v h. Writes-uint16 v)
                hsp)
              (Writes-bind _ _ (field_format le_u64 d.server_timestamp) _
                (Writes-field write_int64 le_u64 IsU64 d.server_timestamp (λ v h. Writes-int64 v)
                  hvt)
                (Writes-field write_uint16 le_u16 IsU16 d.server_picoseconds
                  (λ v h. Writes-uint16 v) hvp))))))
