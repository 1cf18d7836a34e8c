-- ===== src/Encoding/Strings.antt =====
-- Reading and writing a String, by the calculus.
use muc_opcua.Common.{
  ℕ, ◌+◌, ◌≤◌, ◌≡◌, ap, ap₂, ◌∙◌, List, [], ◌∷◌, Option, none, some, arith, length, take_all, ◌==◌,
  if◌then◌else◌, le→ltb, lt→leb, eq→==, ne→==, slice, slice-eq_of_Holds,
}
use muc_opcua.Encoding.Le.{le_u32}
use muc_opcua.Encoding.State.{done, ◌>>=◌, pure}
use muc_opcua.Encoding.Types.{Str, null_str, int32_minus_one, int32_min}
use muc_opcua.Encoding.Reader.{Reader, contents, advance, read_int32}
use muc_opcua.Encoding.Writer.{write_int32}
use muc_opcua.Encoding.Text.{
  ensure_string_payload, read_string_payload, read_string, copy_payload, write_string,
}
use muc_opcua.Encoding.Format.{IsStrOf, IsStr, str_format_of, str_format}
use muc_opcua.Encoding.Calculus.{Reads, Writes, Reads-pure, Reads-bind, Writes-pure, Writes-bind}
use muc_opcua.Encoding.Words.{Reads-int32, Writes-int32}

abbrev str : ℕ → Option (List ℕ) → Str
str n o = record { length = n; bytes = o }

ensure_string_payload_lem :
    (n : ℕ) (r : Reader) → r.position + n ≤ r.length → ensure_string_payload n r ≡ done tt r
unfolding ensure_string_payload
ensure_string_payload_lem n r fits = ground arith

Reads-payload :
    (n : ℕ) (bs : List ℕ)
    → n ≡ length bs
    → n ≤ 4096
    → Reads (read_string_payload n) bs (str n (some bs))
unfolding read_string_payload
Reads-payload n bs e small buf r eb es fits h =
    rw
      (ne→== n int32_minus_one (omega arith), lt→leb int32_min n (omega arith), le→ltb 4096 n small)
      (rw (ensure_string_payload_lem n r (omega arith), ◌>>=◌)
        (ap (λ (k : ℕ). done (str n (some (slice (contents r.buffer) r.position k))) (advance n r))
            e
          ∙ ap₂ (λ xs (k : ℕ). done (str n (some xs)) (advance k r))
              (ap (λ o. slice (contents o) r.position (length bs)) eb
                ∙ slice-eq_of_Holds buf r.position bs h)
              e))

Writes-payload : (n : ℕ) (bs : List ℕ) → n ≡ length bs → Writes (copy_payload n (some bs)) bs
unfolding copy_payload
Writes-payload n bs e buf w eb es fits = rw (take_all bs n e) (ground arith)

Reads-null : Reads (read_string_payload int32_minus_one) [] null_str
unfolding read_string_payload
Reads-null = Reads-pure null_str

Writes-tail :
    (n : ℕ) (bs : List ℕ)
    → n ≡ length bs
    → Writes (if n == 0 then pure tt else copy_payload n (some bs)) bs
Writes-tail n [] e = rw (eq→== n 0 e) Writes-pure
Writes-tail n (b ∷ bs) e = rw (ne→== n 0 (omega arith)) (Writes-payload n (b ∷ bs) e)

pub Reads-string_of :
    (n : ℕ) (o : Option (List ℕ)) → IsStrOf n o → Reads read_string (str_format_of n o) (str n o)
unfolding read_string le_u32
Reads-string_of n none e = rw e (
    Reads-bind read_int32 read_string_payload (le_u32 int32_minus_one) [] int32_minus_one null_str
      (Reads-int32 int32_minus_one (omega arith)) Reads-null)
Reads-string_of n (some bs) (e, small) =
    Reads-bind read_int32 read_string_payload (le_u32 n) bs n _ (Reads-int32 n (omega arith))
      (Reads-payload n bs e small)

pub Writes-string_of :
    (n : ℕ) (o : Option (List ℕ))
    → IsStrOf n o
    → Writes (write_string (str n o)) (str_format_of n o)
unfolding write_string
Writes-string_of n none e = rw e (Writes-int32 int32_minus_one)
Writes-string_of n (some bs) (e, small) =
    rw
      (ne→== n int32_minus_one (omega arith), lt→leb int32_min n (omega arith), le→ltb 4096 n small)
      (Writes-bind (write_int32 n) _ (le_u32 n) bs (Writes-int32 n) (Writes-tail n bs e))

pub Reads-string : (s : Str) → IsStr s → Reads read_string (str_format s) s
Reads-string s h = Reads-string_of s.length s.bytes h

pub Writes-string : (s : Str) → IsStr s → Writes (write_string s) (str_format s)
Writes-string s h = Writes-string_of s.length s.bytes h
