-- ===== src/Encoding/Variant/Typed.antt =====
-- Whatever bytes arrive, what the decoder accepts is a Variant of the type that it declares.
use muc_opcua.Common.{
  ℕ, zero, suc, ◌≤◌, ◌<◌, ◌≡◌, ◌≢◌, ◌⊎◌, inl, inr, refl, sym, ap, subst, ◌∙◌, List, [], ◌∷◌, Option,
  none, some, Bool, true, false, not, arith, length, ltb, ◌==◌, ◌/=◌, ◌&&◌, bit_and, if◌then◌else◌,
  ==→eq, ==→ne, Bool-cases, leb,
}
use muc_opcua.Status.{bad_decoding_error, bad_encoding_limits_exceeded, bad_out_of_memory}
use muc_opcua.Encoding.State.{done, M, ◌>>=◌, pure}
use muc_opcua.Encoding.Types.{int32_min, int32_minus_one}
use muc_opcua.Encoding.Reader.{Reader, read_byte, read_int32}
use muc_opcua.Encoding.Variant.{
  Scalar, other, scalar_type, Variant, null, scalar, array, Platform, element_size,
  read_scalar_value, read_elements, check_remaining, read_array_elements, read_array, read_variant,
}
use muc_opcua.Encoding.Ensures.{
  Ends, Ensures, Ensures-pure, Ensures-raise, Ends-first, Ensures-bind, Ensures-then, Ensures-if,
  Ensures-both, Ensures-weaken,
}

/=→ne : (a : ℕ) → (a /= 0) ≡ true → a ≢ 0
/=→ne a e = λ k. ground arith

not_array : (a : ℕ) → (a /= 0) ≡ false → a ≡ 0
not_array a e = ground arith

-- One of the eighteen types that have a value.
abbrev pub IsKnown : Scalar → Type 0
IsKnown (other t) = ⊥
IsKnown _ = Unit

abbrev pub Of : ℕ → Scalar → Type 0
Of type x = (scalar_type x ≡ type) × IsKnown x

Ensures-case :
    {A : Type 0} (type k : ℕ) (m : M Reader A) (make : A → Scalar) (y : M Reader Scalar)
    → ((a : A) → Of k (make a))
    → Ensures (Of type) y
    → Ensures (Of type) (if type == k then (m >>= λ a. pure (make a)) else y)
Ensures-case type k m make y hk hy =
    Ensures-if (Of type) (type == k) (m >>= λ a. pure (make a)) y
      (λ e.
        Ensures-then (Of type) m (λ a. pure (make a))
          (λ a. Ensures-pure (Of type) (make a) ((hk a).0 ∙ sym (==→eq type k e), (hk a).1)))
      (λ e. hy)

Ensures-scalar : (type : ℕ) → Ensures (Of type) (read_scalar_value type)
unfolding read_scalar_value
Ensures-scalar type =
    Ensures-case type 1 _ _ _ (λ a. (refl, tt))
      (Ensures-case type 2 _ _ _ (λ a. (refl, tt))
        (Ensures-case type 3 _ _ _ (λ a. (refl, tt))
          (Ensures-case type 4 _ _ _ (λ a. (refl, tt))
            (Ensures-case type 5 _ _ _ (λ a. (refl, tt))
              (Ensures-case type 6 _ _ _ (λ a. (refl, tt))
                (Ensures-case type 7 _ _ _ (λ a. (refl, tt))
                  (Ensures-case type 8 _ _ _ (λ a. (refl, tt))
                    (Ensures-case type 9 _ _ _ (λ a. (refl, tt))
                      (Ensures-case type 10 _ _ _ (λ a. (refl, tt))
                        (Ensures-case type 11 _ _ _ (λ a. (refl, tt))
                          (Ensures-case type 12 _ _ _ (λ a. (refl, tt))
                            (Ensures-case type 15 _ _ _ (λ a. (refl, tt))
                              (Ensures-case type 13 _ _ _ (λ a. (refl, tt))
                                (Ensures-case type 19 _ _ _ (λ a. (refl, tt))
                                  (Ensures-case type 17 _ _ _ (λ a. (refl, tt))
                                    (Ensures-case type 20 _ _ _ (λ a. (refl, tt))
                                      (Ensures-case type 21 _ _ _ (λ a. (refl, tt))
                                        (Ensures-raise (Of type)
                                          bad_decoding_error))))))))))))))))))

-- An array of the type: as many elements as it says, each of that type.
abbrev AreOf : ℕ → List Scalar → Type 0
AreOf type [] = Unit
AreOf type (x ∷ xs) = Of type x × AreOf type xs

abbrev Elements : ℕ → ℕ → List Scalar → Type 0
Elements type n xs = (length xs ≡ n) × AreOf type xs

Ensures-Elements : (type n : ℕ) → Ensures (Elements type n) (read_elements type n)
unfolding read_elements
Ensures-Elements type zero = Ensures-pure (Elements type zero) [] (refl, tt)
Ensures-Elements type (suc n) =
    Ensures-bind (Of type) (Elements type (suc n)) (read_scalar_value type) _ (Ensures-scalar type)
      (λ x hx.
        Ensures-bind (Elements type n) (Elements type (suc n)) (read_elements type n) _
          (Ensures-Elements type n)
          (λ xs hs. Ensures-pure (Elements type (suc n)) (x ∷ xs) (ap suc hs.0, (hx, hs.1))))

-- What an accepted array satisfies: it is NULL of length 0 or -1; or it has between one element
-- and the limit, as many as it says, each of its type, in memory that was granted for them.
abbrev IsTypedArray : Platform → ℕ → ℕ → Option (List Scalar) → Type 0
IsTypedArray platform type n none = (n ≡ 0) ⊎ (n ≡ int32_minus_one)
IsTypedArray platform type n (some xs) =
    Elements type n xs
    × (0 < n)
    × (n ≤ platform.max_array_length)
    × (platform.calloc n (element_size platform type) ≡ true)

-- A Variant of the type in the low six bits of its encoding byte, an array where the highest bit says
-- so. The bit for dimensions is there on arrays only.
abbrev IsTyped : Platform → ℕ → Variant → Type 0
IsTyped platform mask (null flag) = (bit_and mask 0x3f ≡ 0) × (flag ≡ false)
IsTyped platform mask (scalar x) = (bit_and mask 0x80 ≡ 0) × Of (bit_and mask 0x3f) x
IsTyped platform mask (array type n o) =
    (bit_and mask 0x80 ≢ 0)
    × (type ≡ bit_and mask 0x3f)
    × (type ≢ 0)
    × IsTypedArray platform type n o

pub record IsDeclared (platform : Platform) (r : Reader) (v : Variant) : Type 0 where
  pub encoding_mask : ℕ
  pub behind : Reader
  pub was_read : read_byte r ≡ done encoding_mask behind
  pub dimensions_of_array : (bit_and encoding_mask 0x40 ≡ 0) ⊎ (bit_and encoding_mask 0x80 ≢ 0)
  pub is_typed : IsTyped platform encoding_mask v

not-not : (b : Bool) → not b ≡ false → b ≡ true
not-not true e = refl
not-not false e = sym e

Ensures-array_elements :
    (platform : Platform) (type n : ℕ)
    → 0 < n
    → n ≤ platform.max_array_length
    → Ensures (IsTypedArray platform type n) (read_array_elements platform type n)
unfolding read_array_elements
Ensures-array_elements platform type n h small =
    let P : Option (List Scalar) → Type 0 = IsTypedArray platform type n in
    Ensures-both P _ _ _ (Ensures-raise P bad_decoding_error) (
      Ensures-then P (check_remaining n) _ (λ u.
        Ensures-both P _ _ _ (Ensures-raise P bad_decoding_error) (
          Ensures-if P (not (platform.calloc n (element_size platform type))) _ _
            (λ e. Ensures-raise P bad_out_of_memory)
            (λ granted.
              Ensures-bind (Elements type n) P (read_elements type n) _ (Ensures-Elements type n)
                (λ xs hs. Ensures-pure P (some xs) (hs, h, small, not-not _ granted))))))

abbrev IsArrayOf : Platform → ℕ → Variant → Type 0
IsArrayOf platform type (null flag) = ⊥
IsArrayOf platform type (scalar x) = ⊥
IsArrayOf platform type (array type' n o) = (type' ≡ type) × IsTypedArray platform type' n o

Ensures-read_array :
    (platform : Platform) (type n : ℕ) (dims : Bool)
    → Ensures (IsArrayOf platform type) (read_array platform type dims n)
unfolding read_array
Ensures-read_array platform type n dims =
    let Q : Variant → Type 0 = IsArrayOf platform type in
    let P : Option (List Scalar) → Type 0 = IsTypedArray platform type n in
    Ensures-if Q (leb int32_min n && n /= int32_minus_one) _ _
      (λ e. Ensures-raise Q bad_decoding_error)
      (λ low.
        Ensures-if Q (ltb n int32_min && ltb platform.max_array_length n) _ _
          (λ e. Ensures-raise Q bad_encoding_limits_exceeded)
          (λ high.
            Ensures-bind P Q _ _
              (Ensures-if P (ltb 0 n && ltb n int32_min) _ _
                (λ e. Ensures-array_elements platform type n (ground arith) (ground arith))
                (λ e. Ensures-pure P none (ground arith)))
              (λ o h. Ensures-then Q _ _ (λ u. Ensures-pure Q (array type n o) (refl, h)))))

is-array :
    (platform : Platform) (mask : ℕ) (v : Variant)
    → bit_and mask 0x80 ≢ 0
    → bit_and mask 0x3f ≢ 0
    → IsArrayOf platform (bit_and mask 0x3f) v
    → IsTyped platform mask v
is-array platform mask (null flag) a some_type h = absurd h
is-array platform mask (scalar x) a some_type h = absurd h
is-array platform mask (array type n o) a some_type (e, h) = (a, e, (λ k. some_type (sym e ∙ k)), h)

dimensions : (a b : ℕ) → (a /= 0 && not (b /= 0)) ≡ false → (a ≡ 0) ⊎ (b ≢ 0)
dimensions a b e = elim (Bool-cases (a == 0)) [
  | inl zero_bit ↦ inl (==→eq a 0 zero_bit)
  | inr set_bit ↦ inr (λ k. ground arith)
]

Ends-variant :
    (platform : Platform) (r : Reader) → Ends (IsDeclared platform r) (read_variant platform r)
unfolding read_variant
Ends-variant platform r =
    let Q : Variant → Type 0 = IsDeclared platform r in
    Ends-first Q read_byte _ r (read_byte r) refl (λ mask behind e.
      Ensures-if Q (bit_and mask 0x40 /= 0 && not (bit_and mask 0x80 /= 0)) _ _
        (λ _. Ensures-raise Q bad_decoding_error)
        (λ high.
          let made : (v : Variant) → IsTyped platform mask v → Q v = λ v h. record {
            encoding_mask = mask;
            behind = behind;
            was_read = e;
            dimensions_of_array = dimensions _ _ high;
            is_typed = h;
          } in
          Ensures-if Q (bit_and mask 0x3f == 0) _ _
            (λ z. Ensures-pure Q (null false) (made (null false) (==→eq _ 0 z, refl)))
            (λ t.
              Ensures-if Q (bit_and mask 0x80 /= 0) _ _
                (λ a. Ensures-then Q read_int32 _ (λ n.
                  Ensures-weaken (IsArrayOf platform (bit_and mask 0x3f)) Q _
                    (λ v h. made v (is-array platform mask v (/=→ne _ a) (==→ne _ 0 t) h))
                    (Ensures-read_array platform (bit_and mask 0x3f) n (bit_and mask 0x40 /= 0))))
                (λ a.
                  Ensures-bind (Of (bit_and mask 0x3f)) Q (read_scalar_value (bit_and mask 0x3f)) _
                    (Ensures-scalar (bit_and mask 0x3f))
                    (λ x h. Ensures-pure Q (scalar x) (made (scalar x) (not_array _ a, h)))))))

-- Any bytes at all, well formed or hostile, and any target: where the decoder accepts a Variant, an
-- encoding byte was read, and the Variant is what that byte declares. Its low six bits are the type,
-- and the highest bit tells an array: a null for the type 0; otherwise a scalar of that type, which
-- is a known one; or an array of that type, which is NULL of length 0 or -1, or has as many elements
-- as it says, all of that type, no more than the limit, in memory that `calloc` granted. Dimensions
-- are declared of arrays only.
pub variant-IsDeclared :
    (platform : Platform) (r s : Reader) (v : Variant)
    → read_variant platform r ≡ done v s
    → IsDeclared platform r v
variant-IsDeclared platform r s v e =
    subst (Ends (IsDeclared platform r)) e (Ends-variant platform r)
