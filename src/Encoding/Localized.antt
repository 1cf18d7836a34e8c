-- ===== src/Encoding/Localized.antt =====
-- Reading and writing LocalizedText, EUInformation and Range, by the calculus.
use muc_opcua.Common.{
  ℕ, ◌≡◌, ◌∙◌, List, [], ◌∷◌, ◌++◌, Option, none, some, Bool, true, false, arith, ◌/=◌, bit_and,
  bit_or, if◌then◌else◌,
}
use muc_opcua.Encoding.Le.{le_u32, le_u64}
use muc_opcua.Encoding.State.{pure}
use muc_opcua.Encoding.Types.{Str, null_str, LocalizedText, EuInformation, Range}
use muc_opcua.Encoding.Reader.{read_byte, read_int32, read_double}
use muc_opcua.Encoding.Writer.{write_byte, write_int32, write_double}
use muc_opcua.Encoding.Text.{read_string, write_string}
use muc_opcua.Encoding.Composite.{
  read_range, write_range, read_locale, read_text, read_localized_text, is_present, text_mask,
  write_localized_text, read_eu_information, write_eu_information,
}
use muc_opcua.Encoding.Format.{IsU32, IsU64, IsStrOf, IsStr, str_format_of, str_format}
use muc_opcua.Encoding.Calculus.{
  Reads, Writes, Reads-pure, Reads-bind, Reads-map, Writes-pure, Writes-bind,
}
use muc_opcua.Encoding.Words.{
  Reads-byte, Reads-int32, Reads-double, Writes-byte, Writes-int32, Writes-double,
}
use muc_opcua.Encoding.Strings.{Reads-string, Writes-string}

abbrev str : ℕ → Option (List ℕ) → Str
str n o = record { length = n; bytes = o }

-- A field that is NULL is left out.
abbrev pub part_format_of : ℕ → Option (List ℕ) → List ℕ
part_format_of n none = []
part_format_of n (some bs) = str_format_of n (some bs)

abbrev pub part_format : Str → List ℕ
part_format s = part_format_of s.length s.bytes

abbrev pub IsLocalizedText : LocalizedText → Type 0
IsLocalizedText t = IsStr t.locale × IsStr t.text

unfoldable pub localized_format : LocalizedText → List ℕ
localized_format t = text_mask t ∷ (part_format t.locale ++ part_format t.text)

abbrev pub IsEuInformation : EuInformation → Type 0
IsEuInformation u =
    IsStr u.namespace_uri
    × IsU32 u.unit_id
    × IsLocalizedText u.display_name
    × IsLocalizedText u.description

unfoldable pub eu_format : EuInformation → List ℕ
unfolding localized_format
eu_format u =
    str_format u.namespace_uri
    ++ (le_u32 u.unit_id ++ (localized_format u.display_name ++ localized_format u.description))

masks :
    (l t : Bool)
    → let mask = bit_or (if l then 0x01 else 0) (if t then 0x02 else 0) in
      ((bit_and mask 0x01 /= 0) ≡ l) × ((bit_and mask 0x02 /= 0) ≡ t)
masks l t = ground arith

absent : (n : ℕ) → IsStrOf n none → is_present (str n none) ≡ false
absent n h = ground arith

present : (n : ℕ) (bs : List ℕ) → IsStrOf n (some bs) → is_present (str n (some bs)) ≡ true
present n bs h = ground arith

Reads-part :
    (b : Bool) (n : ℕ) (o : Option (List ℕ))
    → b ≡ is_present (str n o)
    → IsStrOf n o
    → Reads (if b then read_string else pure null_str) (part_format_of n o) (str n o)
Reads-part b n none e h = rw (e ∙ absent n h, h) (Reads-pure null_str)
Reads-part b n (some bs) e h = rw (e ∙ present n bs h) (Reads-string (str n (some bs)) h)

Writes-part :
    (b : Bool) (n : ℕ) (o : Option (List ℕ))
    → b ≡ is_present (str n o)
    → IsStrOf n o
    → Writes (if b then write_string (str n o) else pure tt) (part_format_of n o)
Writes-part b n none e h = rw (e ∙ absent n h) Writes-pure
Writes-part b n (some bs) e h = rw (e ∙ present n bs h) (Writes-string (str n (some bs)) h)

pub Reads-localized_text :
    (t : LocalizedText) → IsLocalizedText t → Reads read_localized_text (localized_format t) t
unfolding read_localized_text localized_format read_locale read_text
Reads-localized_text t (hl, ht) =
    let (ml, mt) = masks (is_present t.locale) (is_present t.text) in
    Reads-bind read_byte _ (text_mask t ∷ []) _ (text_mask t) t (Reads-byte (text_mask t)) (
      Reads-bind _ _ (part_format t.locale) (part_format t.text) t.locale t
        (Reads-part _ t.locale.length t.locale.bytes ml hl)
        (Reads-map _ (λ x. record { locale = t.locale; text = x }) (part_format t.text) t.text
          (Reads-part _ t.text.length t.text.bytes mt ht)))

pub Writes-localized_text :
    (t : LocalizedText) → IsLocalizedText t → Writes (write_localized_text t) (localized_format t)
unfolding write_localized_text localized_format
Writes-localized_text t (hl, ht) =
    let (ml, mt) = masks (is_present t.locale) (is_present t.text) in
    Writes-bind (write_byte (text_mask t)) _ (text_mask t ∷ []) _ (Writes-byte (text_mask t)) (
      Writes-bind _ _ (part_format t.locale) (part_format t.text)
        (Writes-part _ t.locale.length t.locale.bytes ml hl)
        (Writes-part _ t.text.length t.text.bytes mt ht))

pub Reads-eu_information :
    (u : EuInformation) → IsEuInformation u → Reads read_eu_information (eu_format u) u
unfolding read_eu_information eu_format
Reads-eu_information u (hs, hu, hd, hx) =
    Reads-bind read_string _ (str_format u.namespace_uri) _ u.namespace_uri u
      (Reads-string u.namespace_uri hs)
      (Reads-bind read_int32 _ (le_u32 u.unit_id) _ u.unit_id u (Reads-int32 u.unit_id hu) (
        Reads-bind read_localized_text _ (localized_format u.display_name)
          (localized_format u.description) u.display_name u (Reads-localized_text u.display_name hd)
          (Reads-map read_localized_text _ (localized_format u.description) u.description
            (Reads-localized_text u.description hx))))

pub Writes-eu_information :
    (u : EuInformation) → IsEuInformation u → Writes (write_eu_information u) (eu_format u)
unfolding write_eu_information eu_format
Writes-eu_information u (hs, hu, hd, hx) =
    Writes-bind (write_string u.namespace_uri) _ (str_format u.namespace_uri) _
      (Writes-string u.namespace_uri hs)
      (Writes-bind (write_int32 u.unit_id) _ (le_u32 u.unit_id) _ (Writes-int32 u.unit_id) (
        Writes-bind (write_localized_text u.display_name) _ (localized_format u.display_name) _
          (Writes-localized_text u.display_name hd) (Writes-localized_text u.description hx)))

unfoldable pub range_format : Range → List ℕ
range_format x = le_u64 x.low ++ le_u64 x.high

pub Reads-range : (x : Range) → IsU64 x.low → IsU64 x.high → Reads read_range (range_format x) x
unfolding read_range range_format
Reads-range x hl hh =
    Reads-bind read_double _ (le_u64 x.low) (le_u64 x.high) x.low x (Reads-double x.low hl)
      (Reads-map read_double _ (le_u64 x.high) x.high (Reads-double x.high hh))

pub Writes-range : (x : Range) → Writes (write_range x) (range_format x)
unfolding write_range range_format
Writes-range x =
    Writes-bind (write_double x.low) (write_double x.high) (le_u64 x.low) (le_u64 x.high)
      (Writes-double x.low) (Writes-double x.high)
