-- ===== src/Encoding/Variant/Arrays.antt =====
-- Which Variants have an encoding, its bytes, and that the code reads and writes them.
use muc_opcua.Common.{
  ℕ, zero, suc, ◌/◌, ◌%◌, ◌^◌, ◌≤◌, ◌<◌, ◌≡◌, refl, sym, subst, List, [], ◌∷◌, ◌++◌, Option, none,
  some, Bool, true, false, arith, length, length-append, take_all, ◌==◌, ◌/=◌, ◌&&◌, bit_and,
  bit_or, if◌then◌else◌, ne→==, le→ltb, lt→leb, lt→ltb, Bool-cases, inl, inr, ==→eq,
}
use muc_opcua.Encoding.Le.{le_u32}
use muc_opcua.Encoding.State.{M, ◌>>=◌, ◌>>◌, pure}
use muc_opcua.Encoding.Types.{int32_minus_one, int32_min}
use muc_opcua.Encoding.Reader.{Reader, read_byte, read_int32}
use muc_opcua.Encoding.Writer.{write_byte, write_int32}
use muc_opcua.Encoding.Calculus.{
  Reads, Writes, Reads-pure, Reads-bind, Reads-map, Writes-pure, Writes-bind,
}
use muc_opcua.Encoding.Words.{Reads-byte, Reads-int32, Writes-byte, Writes-int32}
use muc_opcua.Encoding.Variant.{
  Scalar, scalar_type, Variant, null, scalar, array, Platform, has_stride, element_size,
  read_scalar_value, write_scalar_value, read_elements, check_remaining, read_array_elements,
  read_array, read_variant, variant_type, is_array, write_elements, write_array, write_value,
  write_variant,
}
use muc_opcua.Encoding.Variant.Format.{
  IsScalar, scalar_format, Reads-scalar, Writes-scalar, scalar_format-nonempty,
  scalar_type-has_stride,
}

-- The elements of an array of the type `type`.
abbrev pub AreElements : ℕ → List Scalar → Type 0
AreElements type [] = Unit
AreElements type (x ∷ xs) = (scalar_type x ≡ type) × IsScalar x × AreElements type xs

unfoldable pub elements_format : List Scalar → List ℕ
elements_format [] = []
elements_format (x ∷ xs) = scalar_format x ++ elements_format xs

-- What an array with elements needs of the target, and of MU_INTERN_MAX_ARRAY_LENGTH.
pub record Allocates (platform : Platform) (type length : ℕ) : Type 0 where
  pub sized : 0 < platform.size_of type
  pub fits : length ≤ platform.size_max / platform.size_of type
  pub granted : platform.calloc length (platform.size_of type) ≡ true
  pub allowed : length ≤ platform.max_array_length
  pub counted : platform.max_array_length < int32_min

-- A Variant as the reader gives it: null without the array bit, a scalar, a NULL array of length -1
-- or 0, or the elements.
abbrev pub IsVariant : Platform → Variant → Type 0
IsVariant platform (null flag) = flag ≡ false
IsVariant platform (scalar x) = IsScalar x
IsVariant platform (array type n none) =
    (0 < type) × (type < 64) × ((n /= 0) && (n /= int32_minus_one) ≡ false)
IsVariant platform (array type n (some xs)) =
    (n ≡ length xs) × (0 < n) × AreElements type xs × Allocates platform type n

abbrev pub payload_format : Variant → List ℕ
payload_format (null flag) = []
payload_format (scalar x) = scalar_format x
payload_format (array type n none) = le_u32 n
payload_format (array type n (some xs)) = le_u32 n ++ elements_format xs

-- The encoding byte, and what follows it.
unfoldable pub variant_format : Variant → List ℕ
variant_format v =
    bit_or (variant_type v % 2 ^ 8) (if is_array v then 0x80 else 0) ∷ payload_format v

Reads-elements :
    (type : ℕ) (xs : List Scalar)
    → AreElements type xs
    → Reads (read_elements type (length xs)) (elements_format xs) xs
unfolding read_elements elements_format
Reads-elements type [] h = Reads-pure []
Reads-elements type (x ∷ xs) (e, hx, hs) =
    Reads-bind (read_scalar_value type) _ (scalar_format x) (elements_format xs) x (x ∷ xs)
      (subst (λ t. Reads (read_scalar_value t) (scalar_format x) x) e (Reads-scalar x hx))
      (Reads-map (read_elements type (length xs)) (λ ys. x ∷ ys) (elements_format xs) xs
        (Reads-elements type xs hs))

Writes-elements :
    (type : ℕ) (xs : List Scalar)
    → AreElements type xs
    → Writes (write_elements xs) (elements_format xs)
unfolding write_elements elements_format
Writes-elements type [] h = Writes-pure
Writes-elements type (x ∷ xs) (e, hx, hs) =
    Writes-bind (write_scalar_value x) (write_elements xs) (scalar_format x) (elements_format xs)
      (Writes-scalar x hx) (Writes-elements type xs hs)

-- An element takes at least one byte.
elements_room :
    (type : ℕ) (xs : List Scalar) → AreElements type xs → length xs ≤ length (elements_format xs)
unfolding elements_format
elements_room type [] h = omega arith
elements_room type (x ∷ xs) (e, hx, hs) = omega (
  arith,
  scalar_format-nonempty x hx,
  elements_room type xs hs,
  length-append (scalar_format x) (elements_format xs),
)

Reads-check_remaining :
    {A : Type 0} (n : ℕ) (rest : M Reader A) (bs : List ℕ) (a : A)
    → n ≤ length bs
    → Reads rest bs a
    → Reads (check_remaining n >> rest) bs a
unfolding check_remaining
Reads-check_remaining n rest bs a small h buf r eb es fits hold =
    rw (le→ltb r.length r.position (omega arith), ◌>>=◌) (ground (arith, h buf r eb es fits hold))

-- The elements of an array lie in memory of their own.
Reads-array_elements :
    (platform : Platform) (type : ℕ) (xs : List Scalar)
    → 0 < length xs
    → AreElements type xs
    → Allocates platform type (length xs)
    → Reads (read_array_elements platform type (length xs)) (elements_format xs) (some xs)
unfolding read_array_elements element_size
Reads-array_elements platform type [] h e room = absurd (omega arith)
Reads-array_elements platform type (x ∷ xs) h (e, hx, hs) room =
    rw (stride, ne→== (platform.size_of type) 0 (ground (arith, room.sized)))
      (Reads-check_remaining (length (x ∷ xs)) _ (elements_format (x ∷ xs)) (some (x ∷ xs))
        (elements_room type (x ∷ xs) (e, hx, hs))
        (rw
          (
            le→ltb (platform.size_max / platform.size_of type) (length (x ∷ xs)) room.fits,
            room.granted,
          )
          (Reads-map (read_elements type (length (x ∷ xs))) some (elements_format (x ∷ xs)) (x ∷ xs)
            (Reads-elements type (x ∷ xs) (e, hx, hs)))))
  where
    stride : has_stride type ≡ true
    stride = subst (λ t. has_stride t ≡ true) e (scalar_type-has_stride x hx).0

-- What the encoding byte says of an array's type, and of a scalar's.
mask_bits : (flag : Bool) (type : ℕ) → Bool
mask_bits flag type =
    let mask = bit_or (type % 2 ^ 8) (if flag then 0x80 else 0) in
    (bit_and mask 0x40 == 0)
    && (bit_and mask 0x3f == type)
    && (if flag then bit_and mask 0x80 /= 0 else bit_and mask 0x80 == 0)

all_below : ℕ → (ℕ → Bool) → Bool
all_below zero p = true
all_below (suc n) p = p n && all_below n p

all_below_lem : (n : ℕ) (p : ℕ → Bool) (i : ℕ) → all_below n p ≡ true → i < n → p i ≡ true
unfolding all_below
all_below_lem zero p i e h = absurd (omega arith)
all_below_lem (suc n) p i e h = elim (Bool-cases (i == n)) [
  | inl same ↦ subst (λ k. p k ≡ true) (sym (==→eq i n same)) (ground arith)
  | inr other ↦ all_below_lem n p i (ground arith) (ground arith)
]

scalar_mask :
    (type : ℕ)
    → type < 64
    → let mask = bit_or (type % 2 ^ 8) 0 in
      (bit_and mask 0x40 ≡ 0) × (bit_and mask 0x3f ≡ type) × (bit_and mask 0x80 ≡ 0)
unfolding all_below mask_bits
scalar_mask type h =
    let bits : mask_bits false type ≡ true = all_below_lem 64 (mask_bits false) type refl h in
    ground arith

array_mask :
    (type : ℕ)
    → type < 64
    → let mask = bit_or (type % 2 ^ 8) 0x80 in
      (bit_and mask 0x40 ≡ 0) × (bit_and mask 0x3f ≡ type) × ((bit_and mask 0x80 /= 0) ≡ true)
unfolding all_below mask_bits
array_mask type h =
    let bits : mask_bits true type ≡ true = all_below_lem 64 (mask_bits true) type refl h in
    ground arith

Reads-null_array :
    (platform : Platform) (type n : ℕ)
    → ((n /= 0) && (n /= int32_minus_one)) ≡ false
    → Reads (read_array platform type false n) [] (array type n none)
unfolding read_array
Reads-null_array platform type n h = elim (Bool-cases (n == 0)) [
  | inl e ↦
      rw (==→eq n 0 e, le→ltb platform.max_array_length 0 (omega arith))
        (Reads-pure (array type 0 none))
  | inr e ↦
      rw (==→eq n int32_minus_one (ground arith)) (Reads-pure (array type int32_minus_one none))
]

Reads-full_array :
    (platform : Platform) (type n : ℕ) (xs : List Scalar)
    → n ≡ length xs
    → 0 < n
    → AreElements type xs
    → Allocates platform type n
    → Reads (read_array platform type false n) (elements_format xs) (array type n (some xs))
unfolding read_array
Reads-full_array platform type n xs e h hs room =
    let small : n < int32_min = omega (arith, room.allowed, room.counted) in
    rw
      (
        lt→leb int32_min n small,
        lt→ltb n int32_min small,
        le→ltb platform.max_array_length n room.allowed,
        lt→ltb 0 n h,
      )
      (Reads-map (read_array_elements platform type n) (λ o. array type n o) (elements_format xs)
        (some xs)
        (subst (λ k. Reads (read_array_elements platform type k) (elements_format xs) (some xs))
          (sym e)
          (Reads-array_elements platform type xs (omega arith) hs
            (subst (Allocates platform type) e room))))

-- What follows the encoding byte of an array.
Reads-array :
    (platform : Platform) (type n : ℕ) (o : Option (List Scalar))
    → IsVariant platform (array type n o)
    → Reads
        (read_int32 >>= λ k. read_array platform type false k)
        (payload_format (array type n o))
        (array type n o)
unfolding le_u32
Reads-array platform type n none (low, high, h) =
    Reads-bind read_int32 _ (le_u32 n) [] n (array type n none) (Reads-int32 n (ground arith))
      (Reads-null_array platform type n h)
Reads-array platform type n (some xs) (e, h, hs, room) =
    Reads-bind read_int32 _ (le_u32 n) (elements_format xs) n (array type n (some xs))
      (Reads-int32 n (omega (arith, room.allowed, room.counted)))
      (Reads-full_array platform type n xs e h hs room)

array_type :
    (platform : Platform) (type n : ℕ) (o : Option (List Scalar))
    → IsVariant platform (array type n o)
    → (0 < type) × (type < 64)
array_type platform type n none (low, high, h) = (low, high)
array_type platform type n (some []) (e, h, hs, room) = absurd (omega arith)
array_type platform type n (some (x ∷ xs)) (e, h, (t, hx, hs), room) =
    omega (arith, scalar_type-has_stride x hx)

pub Reads-variant :
    (platform : Platform) (v : Variant)
    → IsVariant platform v
    → Reads (read_variant platform) (variant_format v) v
unfolding read_variant variant_format
Reads-variant platform (null flag) h =
    rw h
      (Reads-bind read_byte _ (0 ∷ []) [] 0 (null false) (Reads-byte 0) (Reads-pure (null false)))
Reads-variant platform (scalar x) h =
    let (known, low, high) = scalar_type-has_stride x h in
    let (dims, tag, bit) = scalar_mask (scalar_type x) (omega arith) in
    Reads-bind read_byte _ (_ ∷ []) (scalar_format x) _ (scalar x) (Reads-byte _) (
      rw (dims, tag, bit, ne→== (scalar_type x) 0 (omega arith))
        (Reads-map (read_scalar_value (scalar_type x)) scalar (scalar_format x) x
          (Reads-scalar x h)))
Reads-variant platform (array type n o) h =
    let (low, high) = array_type platform type n o h in
    let (dims, tag, bit) = array_mask type high in
    Reads-bind read_byte _ (_ ∷ []) (payload_format (array type n o)) _ (array type n o)
      (Reads-byte _)
      (rw (dims, tag, bit, ne→== type 0 (omega arith)) (Reads-array platform type n o h))

Writes-array :
    (platform : Platform) (type n : ℕ) (o : Option (List Scalar))
    → IsVariant platform (array type n o)
    → Writes (write_array platform type n o) (payload_format (array type n o))
unfolding write_array element_size
Writes-array platform type n none h = Writes-int32 n
Writes-array platform type n (some []) (e, h, hs, room) = absurd (omega arith)
Writes-array platform type n (some (x ∷ xs)) (e, h, (t, hx, hs), room) =
    let stride : has_stride type ≡ true =
      subst (λ k. has_stride k ≡ true) t (scalar_type-has_stride x hx).0 in
    Writes-bind (write_int32 n) _ (le_u32 n) (elements_format (x ∷ xs)) (Writes-int32 n) (
      rw
        (
          lt→leb int32_min n (omega (arith, room.allowed, room.counted)),
          stride,
          ne→== (platform.size_of type) 0 (ground (arith, room.sized)),
          take_all (x ∷ xs) n e,
        )
        (Writes-elements type (x ∷ xs) (t, hx, hs)))

pub Writes-variant :
    (platform : Platform) (v : Variant)
    → IsVariant platform v
    → Writes (write_variant platform v) (variant_format v)
unfolding write_variant write_value variant_format
Writes-variant platform (null flag) h =
    Writes-bind (write_byte _) (pure tt) (_ ∷ []) [] (Writes-byte _) Writes-pure
Writes-variant platform (scalar x) h =
    Writes-bind (write_byte _) _ (_ ∷ []) (scalar_format x) (Writes-byte _)
      (rw (ne→== (scalar_type x) 0 (omega (arith, scalar_type-has_stride x h))) (Writes-scalar x h))
Writes-variant platform (array type n o) h =
    Writes-bind (write_byte _) _ (_ ∷ []) (payload_format (array type n o)) (Writes-byte _) (
      rw (ne→== type 0 (omega (arith, array_type platform type n o h)))
        (Writes-array platform type n o h))
