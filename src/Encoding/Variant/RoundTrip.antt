-- ===== src/Encoding/Variant/RoundTrip.antt =====
-- What the writer stored for a Variant or a DataValue, the reader gives back.
use muc_opcua.Common.{ℕ, List, length}
use muc_opcua.Encoding.Writer.{Writer}
use muc_opcua.Encoding.RoundTrip.{HasRoom, ReadsBack, roundtrip}
use muc_opcua.Encoding.Variant.{Variant, Platform, read_variant, write_variant}
use muc_opcua.Encoding.Variant.Arrays.{IsVariant, variant_format, Reads-variant, Writes-variant}
use muc_opcua.Encoding.Variant.DataValue.{
  DataValue, read_datavalue, write_datavalue, IsDataValue, datavalue_format, Reads-datavalue,
  Writes-datavalue,
}

-- Every Variant with an encoding (null; a scalar of any of the eighteen types; a NULL array; an
-- array of at least one element, all of its type, within the limit and the memory that the target
-- grants) is read back as it was written, and the reader stops exactly behind it.
pub variant_roundtrip :
    (platform : Platform) (v : Variant) (w : Writer) (buf : List ℕ)
    → IsVariant platform v
    → HasRoom w buf (length (variant_format v))
    → ReadsBack (write_variant platform v) (read_variant platform) v w (variant_format v)
variant_roundtrip platform v w buf h room =
    roundtrip (write_variant platform v) (read_variant platform) (variant_format v) v w buf
      (Writes-variant platform v h) (Reads-variant platform v h) room

-- Every DataValue is read back with the fields that were present, and no others, whichever of the
-- 64 combinations they are, where its value is a Variant with an encoding and its numbers fit
-- their fields; the reader stops exactly behind it.
pub datavalue_roundtrip :
    (platform : Platform) (d : DataValue) (w : Writer) (buf : List ℕ)
    → IsDataValue platform d
    → HasRoom w buf (length (datavalue_format d))
    → ReadsBack (write_datavalue platform d) (read_datavalue platform) d w (datavalue_format d)
datavalue_roundtrip platform d w buf h room =
    roundtrip (write_datavalue platform d) (read_datavalue platform) (datavalue_format d) d w buf
      (Writes-datavalue platform d h) (Reads-datavalue platform d h) room
