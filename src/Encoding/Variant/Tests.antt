-- ===== src/Encoding/Variant/Tests.antt =====
-- The theorems on Variants and DataValues at concrete values.
use muc_opcua.Common.{ℕ, zero, suc, refl, List, [], ◌∷◌, none, some, true, arith, replicate}
use muc_opcua.Encoding.Le.{le_u16, le_u32, le_u64, get_u16, get_u32}
use muc_opcua.Encoding.Reader.{Reader, reader_init, ensure_bytes, read_byte, read_int32, read_int16}
use muc_opcua.Encoding.Writer.{Writer, writer_init}
use muc_opcua.Encoding.RoundTrip.{ReadsBack}
use muc_opcua.Encoding.Confined.{Agree, Same}
use muc_opcua.Encoding.Confined.Span.{swap}
use muc_opcua.Encoding.Confined.Variants.{variants_confined}
use muc_opcua.Encoding.Variant.{
  Variant, array, int16, Platform, read_variant, write_variant, read_array, read_array_elements,
  element_size, check_remaining, read_elements, read_scalar_value,
}
use muc_opcua.Encoding.Variant.Format.{scalar_format}
use muc_opcua.Encoding.Variant.Arrays.{variant_format, elements_format}
use muc_opcua.Encoding.Variant.DataValue.{
  DataValue, read_datavalue, write_datavalue, datavalue_format,
}
use muc_opcua.Encoding.Variant.RoundTrip.{variant_roundtrip, datavalue_roundtrip}
use muc_opcua.Encoding.Variant.Typed.{IsDeclared, variant-IsDeclared}

-- A 32-bit target whose `calloc` always gives memory.
abbrev target : Platform
target = record {
  size_max = 0xffffffff;
  size_of = λ type. 8;
  calloc = λ count size. true;
  max_array_length = 512;
}

abbrev memory : List ℕ
memory = replicate 64 0

abbrev writer : Writer
writer = record (writer_init (some memory) 64) { position = 5 }

abbrev samples : Variant
samples = array 4 2 (some (int16 7 ∷ int16 300 ∷ []))

variant_roundtrip_example :
    ReadsBack
      (write_variant target samples)
      (read_variant target)
      samples
      writer
      (variant_format samples)
unfolding le_u16 le_u32 variant_format elements_format scalar_format
variant_roundtrip_example =
    variant_roundtrip target samples writer memory
      (
        refl,
        omega arith,
        ((refl, omega arith, (refl, omega arith, tt))),
        record {
          sized = omega arith;
          fits = omega arith;
          granted = refl;
          allowed = omega arith;
          counted = omega arith;
        },
      )
      (record { memory = refl; healthy = refl; room = omega arith; backed = omega arith })

abbrev reading : DataValue
reading = record {
  value = some samples;
  status = none;
  source_timestamp = some 132223104000000000;
  source_picoseconds = none;
  server_timestamp = none;
  server_picoseconds = some 10;
}

datavalue_roundtrip_example :
    ReadsBack
      (write_datavalue target reading)
      (read_datavalue target)
      reading
      writer
      (datavalue_format reading)
unfolding le_u16 le_u32 le_u64 datavalue_format variant_format elements_format scalar_format
datavalue_roundtrip_example =
    datavalue_roundtrip target reading writer memory
      (
        (
          refl,
          omega arith,
          ((refl, omega arith, (refl, omega arith, tt))),
          record {
            sized = omega arith;
            fits = omega arith;
            granted = refl;
            allowed = omega arith;
            counted = omega arith;
          },
        ),
        tt,
        omega arith,
        tt,
        tt,
        omega arith,
      )
      (record { memory = refl; healthy = refl; room = omega arith; backed = omega arith })

-- An Int16 array of one element, and behind it different memory.
abbrev received : List ℕ
received = 0x84 ∷ 1 ∷ 0 ∷ 0 ∷ 0 ∷ 7 ∷ 0 ∷ 1 ∷ []

abbrev stale : List ℕ
stale = 0x84 ∷ 1 ∷ 0 ∷ 0 ∷ 0 ∷ 7 ∷ 0 ∷ 9 ∷ 9 ∷ []

abbrev message : Reader
message = reader_init (some received) 7

variant-IsDeclared_example : IsDeclared target message (array 4 1 (some (int16 7 ∷ [])))
unfolding read_variant read_array read_array_elements element_size check_remaining read_elements
    read_scalar_value ensure_bytes read_byte read_int32 read_int16 get_u16 get_u32
variant-IsDeclared_example =
    variant-IsDeclared target message (record message { position = 7 })
      (array 4 1 (some (int16 7 ∷ []))) refl

received-Agree : Agree 7 received stale
received-Agree zero h = refl
received-Agree (suc zero) h = refl
received-Agree (suc (suc zero)) h = refl
received-Agree (suc (suc (suc zero))) h = refl
received-Agree (suc (suc (suc (suc zero)))) h = refl
received-Agree (suc (suc (suc (suc (suc zero))))) h = refl
received-Agree (suc (suc (suc (suc (suc (suc zero)))))) h = refl
received-Agree (suc (suc (suc (suc (suc (suc (suc i))))))) h = absurd (omega arith)

variants_confined_example :
    Same 7 received stale (read_variant target message) (read_variant target (swap message stale))
    × Same 7 received stale
        (read_datavalue target message)
        (read_datavalue target (swap message stale))
variants_confined_example =
    variants_confined target message received stale refl (omega arith) received-Agree
