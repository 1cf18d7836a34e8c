-- ===== src/Encoding/Extension.antt =====
-- src/encoding/binary_extension_object.c: the ExtensionObject's header and its bounded body.
use muc_opcua.Common.{ℕ, ◌-◌, ◌%◌, ◌^◌, some, ◌||◌, leb, ltb, ◌==◌, ◌/=◌, if◌then◌else◌, slice}
use muc_opcua.Status.{good, bad_internal_error, bad_decoding_error}
use muc_opcua.Encoding.State.{Outcome, done, fail, M, ◌>>=◌, ◌>>◌, pure, raise}
use muc_opcua.Encoding.Types.{int32_min, NodeId}
use muc_opcua.Encoding.Reader.{
  Reader, contents, is_null, advance, reader_init, reader_fail, read_byte, read_int32,
}
use muc_opcua.Encoding.Writer.{Writer, write_byte, write_int32}
use muc_opcua.Encoding.NodeIds.{read_nodeid, write_nodeid}

unfoldable pub read_body_length : ℕ → M Reader ℕ
read_body_length mask =
    if mask == 0
    then pure 0
    else if mask == 1 || mask == 2
    then (do len ← read_int32; if leb int32_min len then raise bad_decoding_error else pure len)
    else raise bad_decoding_error

unfoldable pub read_extension_object_header : M Reader (NodeId × ℕ)
read_extension_object_header = do
  id ← read_nodeid
  mask ← read_byte
  len ← read_body_length mask
  pure (id, len)

unfoldable pub write_extension_object_header : NodeId → ℕ → M Writer (Unit {0})
write_extension_object_header id len =
    write_nodeid id
    >> (if len == 0 then write_byte 0 else (write_byte 1 >> write_int32 (len % 2 ^ 32)))

-- The body decoder runs on a reader of its own over the `len` bytes ahead; what it leaves unread,
-- or reads past, trips the outer reader.
unfoldable pub finish_body : {A : Type 0} → ℕ → Outcome Reader A → M Reader A
unfolding reader_fail
finish_body len (fail e body) r = reader_fail e r
finish_body len (done a body) r =
    if body.status /= good
    then reader_fail body.status r
    else if body.position /= len
    then reader_fail bad_decoding_error r
    else done a (advance len r)

unfoldable pub read_extension_object_body : {A : Type 0} → ℕ → M Reader A → M Reader A
unfolding finish_body reader_fail
read_extension_object_body len decoder r =
    if r.status /= good
    then fail r.status r
    else if is_null r.buffer
    then fail bad_internal_error r
    else if ltb r.length r.position || ltb (r.length - r.position) len
    then reader_fail bad_decoding_error r
    else finish_body len
        (decoder (reader_init (some (slice (contents r.buffer) r.position len)) len)) r

unfoldable pub skip_body : ℕ → M Reader (Unit {0})
unfolding reader_fail
skip_body len r =
    if ltb r.length r.position || ltb (r.length - r.position) len
    then reader_fail bad_decoding_error r
    else done tt (advance len r)

unfoldable pub skip_extension_object : M Reader (Unit {0})
skip_extension_object = do (id, len) ← read_extension_object_header; skip_body len
