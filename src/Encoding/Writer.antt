-- ===== src/Encoding/Writer.antt =====
-- src/encoding/binary_writer.c: the primitive writes. A write checks the remaining space first, and
-- a write that finds too little of it trips the writer for good.
use muc_opcua.Common.{
  ℕ, ◌+◌, ◌-◌, List, [], ◌∷◌, Option, none, some, Bool, true, false, not, ◌&&◌, leb, ◌==◌, ◌/=◌,
  if◌then◌else◌, length, overwrite,
}
use muc_opcua.Status.{good, bad_internal_error, bad_encoding_error}
use muc_opcua.Encoding.State.{done, fail, M, ◌>>◌}
use muc_opcua.Encoding.Le.{le_u16, le_u32, le_u64}

-- `mu_binary_writer_t`; `buffer` is `none` for NULL, else the memory that `length` bounds.
pub record Writer : Type 0 where
  pub buffer : Option (List ℕ)
  pub length : ℕ
  pub position : ℕ
  pub status : ℕ

abbrev pub writer_init : Option (List ℕ) → ℕ → Writer
writer_init buffer length = record { buffer = buffer; length = length; position = 0; status = good }

abbrev pub is_null : Option (List ℕ) → Bool
is_null none = true
is_null (some bytes) = false

abbrev pub store : Option (List ℕ) → ℕ → List ℕ → Option (List ℕ)
store none p bs = none
store (some buf) p bs = some (overwrite buf p bs)

-- The bytes stored at the position, which moves behind them.
abbrev pub emit : List ℕ → Writer → Writer
emit bs w = record w { buffer = store w.buffer w.position bs; position = w.position + length bs }

unfoldable pub writer_status : M Writer (Unit {0})
writer_status w = if w.status /= good then fail w.status w else done tt w

unfoldable pub writer_fail : ℕ → M Writer (Unit {0})
writer_fail status w = fail status (record w { status = status })

unfoldable pub ensure_space : ℕ → M Writer (Unit {0})
unfolding writer_fail
ensure_space count w =
    if w.status == good
      && not (is_null w.buffer)
      && leb w.position w.length
      && leb count (w.length - w.position)
    then done tt w
    else if w.status /= good
    then fail w.status w
    else if is_null w.buffer
    then writer_fail bad_internal_error w
    else writer_fail bad_encoding_error w

-- The stores of one primitive write.
abbrev pub put : List ℕ → M Writer (Unit {0})
put bs w = done tt (emit bs w)

unfoldable pub write_boolean : Bool → M Writer (Unit {0})
write_boolean value = do ensure_space 1; put ((if value then 1 else 0) ∷ [])

unfoldable pub write_byte : ℕ → M Writer (Unit {0})
write_byte value = do ensure_space 1; put (value ∷ [])

unfoldable pub write_sbyte : ℕ → M Writer (Unit {0})
write_sbyte value = do ensure_space 1; put (value ∷ [])

unfoldable pub write_uint16 : ℕ → M Writer (Unit {0})
write_uint16 value = do ensure_space 2; put (le_u16 value)

unfoldable pub write_int16 : ℕ → M Writer (Unit {0})
write_int16 value = write_uint16 value

unfoldable pub write_uint32 : ℕ → M Writer (Unit {0})
write_uint32 value = do ensure_space 4; put (le_u32 value)

unfoldable pub write_int32 : ℕ → M Writer (Unit {0})
write_int32 value = write_uint32 value

unfoldable pub write_uint64 : ℕ → M Writer (Unit {0})
write_uint64 value = do ensure_space 8; put (le_u64 value)

unfoldable pub write_int64 : ℕ → M Writer (Unit {0})
write_int64 value = write_uint64 value

unfoldable pub write_float : ℕ → M Writer (Unit {0})
write_float value = write_uint32 value

unfoldable pub write_double : ℕ → M Writer (Unit {0})
write_double value = write_uint64 value

unfoldable pub write_statuscode : ℕ → M Writer (Unit {0})
write_statuscode value = write_uint32 value
