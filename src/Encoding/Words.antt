-- ===== src/Encoding/Words.antt =====
-- The primitive reads and writes, by the calculus.
use muc_opcua.Common.{ℕ, refl, [], ◌∷◌, Bool, true, false, if◌then◌else◌, ◌/=◌, ◌≡◌, ap, ◌∙◌}
use muc_opcua.Encoding.Le.{le_u16, le_u32, le_u64, get_u16-le_u16, get_u32-le_u32, get_u64-le_u64}
use muc_opcua.Encoding.State.{done, ◌>>=◌}
use muc_opcua.Encoding.Reader.{
  read_boolean, read_byte, read_sbyte, read_int16, read_int64, read_float, read_statuscode,
  read_uint16, read_uint32, read_int32, read_uint64, read_double, byte_at, contents, advance,
}
use muc_opcua.Encoding.Writer.{
  write_boolean, write_byte, write_sbyte, write_int16, write_int64, write_float, write_statuscode,
  write_uint16, write_uint32, write_int32, write_uint64, write_double,
}
use muc_opcua.Encoding.Format.{IsU16, IsU32, IsU64}
use muc_opcua.Encoding.Calculus.{Reads, Writes, Reads-word, ensure_bytes_lem, Writes-word}

pub Reads-byte : (b : ℕ) → Reads read_byte (b ∷ []) b
unfolding read_byte
Reads-byte b = Reads-word byte_at (b ∷ []) b (λ buf p h. h.0)

pub Reads-uint16 : (v : ℕ) → IsU16 v → Reads read_uint16 (le_u16 v) v
unfolding read_uint16 le_u16
Reads-uint16 v h = Reads-word _ (le_u16 v) v (λ buf p. get_u16-le_u16 buf p v h)

pub Reads-uint32 : (v : ℕ) → IsU32 v → Reads read_uint32 (le_u32 v) v
unfolding read_uint32 le_u32
Reads-uint32 v h = Reads-word _ (le_u32 v) v (λ buf p. get_u32-le_u32 buf p v h)

pub Reads-int32 : (v : ℕ) → IsU32 v → Reads read_int32 (le_u32 v) v
unfolding read_int32 le_u32
Reads-int32 v h = Reads-word _ (le_u32 v) v (λ buf p. get_u32-le_u32 buf p v h)

pub Reads-uint64 : (v : ℕ) → IsU64 v → Reads read_uint64 (le_u64 v) v
unfolding read_uint64 le_u64
Reads-uint64 v h = Reads-word _ (le_u64 v) v (λ buf p. get_u64-le_u64 buf p v h)

pub Reads-double : (v : ℕ) → IsU64 v → Reads read_double (le_u64 v) v
unfolding read_double
Reads-double v h = Reads-uint64 v h

pub Writes-byte : (b : ℕ) → Writes (write_byte b) (b ∷ [])
unfolding write_byte
Writes-byte b = Writes-word 1 (b ∷ []) refl

pub Writes-uint16 : (v : ℕ) → Writes (write_uint16 v) (le_u16 v)
unfolding write_uint16 le_u16
Writes-uint16 v = Writes-word 2 (le_u16 v) refl

pub Writes-uint32 : (v : ℕ) → Writes (write_uint32 v) (le_u32 v)
unfolding write_uint32 le_u32
Writes-uint32 v = Writes-word 4 (le_u32 v) refl

pub Writes-int32 : (v : ℕ) → Writes (write_int32 v) (le_u32 v)
unfolding write_int32
Writes-int32 v = Writes-uint32 v

pub Writes-uint64 : (v : ℕ) → Writes (write_uint64 v) (le_u64 v)
unfolding write_uint64 le_u64
Writes-uint64 v = Writes-word 8 (le_u64 v) refl

pub Writes-double : (v : ℕ) → Writes (write_double v) (le_u64 v)
unfolding write_double
Writes-double v = Writes-uint64 v

abbrev pub boolean_byte : Bool → ℕ
boolean_byte b = if b then 1 else 0

boolean-byte : (b : Bool) → (boolean_byte b /= 0) ≡ b
boolean-byte true = refl
boolean-byte false = refl

pub Reads-boolean : (b : Bool) → Reads read_boolean (boolean_byte b ∷ []) b
unfolding read_boolean
Reads-boolean b buf r eb es fits h =
    rw (ensure_bytes_lem 1 buf r eb es fits, ◌>>=◌)
      (ap (λ x. done x (advance 1 r))
        (ap (λ o. byte_at (contents o) r.position /= 0) eb
          ∙ ap (λ (n : ℕ). n /= 0) h.0
          ∙ boolean-byte b))

pub Reads-sbyte : (v : ℕ) → Reads read_sbyte (v ∷ []) v
unfolding read_sbyte read_byte
Reads-sbyte v = Reads-byte v

pub Reads-int16 : (v : ℕ) → IsU16 v → Reads read_int16 (le_u16 v) v
unfolding read_int16 read_uint16
Reads-int16 v h = Reads-uint16 v h

pub Reads-int64 : (v : ℕ) → IsU64 v → Reads read_int64 (le_u64 v) v
unfolding read_int64 read_uint64
Reads-int64 v h = Reads-uint64 v h

pub Reads-float : (v : ℕ) → IsU32 v → Reads read_float (le_u32 v) v
unfolding read_float
Reads-float v h = Reads-uint32 v h

pub Reads-statuscode : (v : ℕ) → IsU32 v → Reads read_statuscode (le_u32 v) v
unfolding read_statuscode
Reads-statuscode v h = Reads-uint32 v h

pub Writes-boolean : (b : Bool) → Writes (write_boolean b) (boolean_byte b ∷ [])
unfolding write_boolean
Writes-boolean b = Writes-word 1 (boolean_byte b ∷ []) refl

pub Writes-sbyte : (v : ℕ) → Writes (write_sbyte v) (v ∷ [])
unfolding write_sbyte
Writes-sbyte v = Writes-word 1 (v ∷ []) refl

pub Writes-int16 : (v : ℕ) → Writes (write_int16 v) (le_u16 v)
unfolding write_int16
Writes-int16 v = Writes-uint16 v

pub Writes-int64 : (v : ℕ) → Writes (write_int64 v) (le_u64 v)
unfolding write_int64
Writes-int64 v = Writes-uint64 v

pub Writes-float : (v : ℕ) → Writes (write_float v) (le_u32 v)
unfolding write_float
Writes-float v = Writes-uint32 v

pub Writes-statuscode : (v : ℕ) → Writes (write_statuscode v) (le_u32 v)
unfolding write_statuscode
Writes-statuscode v = Writes-uint32 v
