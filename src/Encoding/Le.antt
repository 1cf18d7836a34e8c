-- ===== src/Encoding/Le.antt =====
-- src/encoding/binary_le.h: little-endian words in a byte buffer.
use muc_opcua.Common.{
  ℕ, suc, ◌+◌, ◌*◌, ◌/◌, ◌%◌, ◌^◌, ◌<◌, ◌≡◌, ap, ◌∙◌, List, [], ◌∷◌, bit_and, bit_or, arith, get_or,
  overwrite, Holds,
}
use muc_opcua.Common.Bits.{bit_or_disjoint, bit_and_ff}

-- The bytes that mu_binary_le_put_u16, _u32 and _u64 store.
unfoldable pub le_u16 : ℕ → List ℕ
le_u16 v = bit_and v 0xff ∷ bit_and (v / 2 ^ 8) 0xff ∷ []

unfoldable pub le_u32 : ℕ → List ℕ
le_u32 v =
    bit_and v 0xff
    ∷ bit_and (v / 2 ^ 8) 0xff
    ∷ bit_and (v / 2 ^ 16) 0xff
    ∷ bit_and (v / 2 ^ 24) 0xff
    ∷ []

unfoldable pub le_u64 : ℕ → List ℕ
le_u64 v =
    bit_and v 0xff
    ∷ bit_and (v / 2 ^ 8) 0xff
    ∷ bit_and (v / 2 ^ 16) 0xff
    ∷ bit_and (v / 2 ^ 24) 0xff
    ∷ bit_and (v / 2 ^ 32) 0xff
    ∷ bit_and (v / 2 ^ 40) 0xff
    ∷ bit_and (v / 2 ^ 48) 0xff
    ∷ bit_and (v / 2 ^ 56) 0xff
    ∷ []

unfoldable pub put_u32 : List ℕ → ℕ → ℕ → List ℕ
put_u32 dst p value = overwrite dst p (le_u32 value)

-- `src` is the buffer from index `p` on. The bytes are below 256, so no shift overflows.
unfoldable pub get_u16 : List ℕ → ℕ → ℕ
get_u16 src p = bit_or (get_or src p 0) (get_or src (suc p) 0 * 2 ^ 8) % 2 ^ 16

unfoldable pub get_u32 : List ℕ → ℕ → ℕ
get_u32 src p =
    bit_or
      (bit_or (bit_or (get_or src p 0) (get_or src (suc p) 0 * 2 ^ 8))
        (get_or src (suc (suc p)) 0 * 2 ^ 16))
      (get_or src (suc (suc (suc p))) 0 * 2 ^ 24)

unfoldable pub get_u64 : List ℕ → ℕ → ℕ
get_u64 src p =
    bit_or
      (bit_or
        (bit_or (bit_or (get_u32 src p) (get_or src (suc (suc (suc (suc p)))) 0 * 2 ^ 32))
          (get_or src (suc (suc (suc (suc (suc p))))) 0 * 2 ^ 40))
        (get_or src (suc (suc (suc (suc (suc (suc p)))))) 0 * 2 ^ 48))
      (get_or src (suc (suc (suc (suc (suc (suc (suc p))))))) 0 * 2 ^ 56)

-- The `|` of four bytes is their weighted sum.
or_bytes :
    (a b c d : ℕ)
    → a < 256
    → b < 256
    → c < 256
    → bit_or (bit_or (bit_or a (b * 2 ^ 8)) (c * 2 ^ 16)) (d * 2 ^ 24)
      ≡ a + b * 2 ^ 8 + c * 2 ^ 16 + d * 2 ^ 24
or_bytes a b c d ha hb hc =
    ap (λ t. bit_or (bit_or t (c * 2 ^ 16)) (d * 2 ^ 24)) (bit_or_disjoint 8 a b ha)
    ∙ ap (λ t. bit_or t (d * 2 ^ 24)) (bit_or_disjoint 16 (a + b * 2 ^ 8) c (omega arith))
    ∙ bit_or_disjoint 24 (a + b * 2 ^ 8 + c * 2 ^ 16) d (omega arith)

-- Reading back what was stored.
pub get_u16-le_u16 :
    (buf : List ℕ) (p v : ℕ) → v < 2 ^ 16 → Holds buf p (le_u16 v) → get_u16 buf p ≡ v
unfolding le_u16 get_u16
get_u16-le_u16 buf p v h (h0, (h1, _)) =
    rw (h0, h1, bit_and_ff v, bit_and_ff (v / 2 ^ 8))
      (ap (λ t. t % 2 ^ 16) (bit_or_disjoint 8 (v % 256) (v / 2 ^ 8 % 256) (omega arith))
        ∙ omega arith)

pub get_u32-le_u32 :
    (buf : List ℕ) (p v : ℕ) → v < 2 ^ 32 → Holds buf p (le_u32 v) → get_u32 buf p ≡ v
unfolding le_u32 get_u32
get_u32-le_u32 buf p v h (h0, (h1, (h2, (h3, _)))) =
    rw
      (
        h0,
        h1,
        h2,
        h3,
        bit_and_ff v,
        bit_and_ff (v / 2 ^ 8),
        bit_and_ff (v / 2 ^ 16),
        bit_and_ff (v / 2 ^ 24),
      )
      (or_bytes (v % 256) (v / 2 ^ 8 % 256) (v / 2 ^ 16 % 256) (v / 2 ^ 24 % 256) (omega arith)
          (omega arith) (omega arith)
        ∙ omega arith)

more_bytes :
    (l a b c d : ℕ)
    → l < 2 ^ 32
    → a < 256
    → b < 256
    → c < 256
    → bit_or (bit_or (bit_or (bit_or l (a * 2 ^ 32)) (b * 2 ^ 40)) (c * 2 ^ 48)) (d * 2 ^ 56)
      ≡ l + a * 2 ^ 32 + b * 2 ^ 40 + c * 2 ^ 48 + d * 2 ^ 56
more_bytes l a b c d hl ha hb hc =
    ap (λ t. bit_or (bit_or (bit_or t (b * 2 ^ 40)) (c * 2 ^ 48)) (d * 2 ^ 56))
      (bit_or_disjoint 32 l a hl)
    ∙ ap (λ t. bit_or (bit_or t (c * 2 ^ 48)) (d * 2 ^ 56))
        (bit_or_disjoint 40 (l + a * 2 ^ 32) b (omega arith))
    ∙ ap (λ t. bit_or t (d * 2 ^ 56))
        (bit_or_disjoint 48 (l + a * 2 ^ 32 + b * 2 ^ 40) c (omega arith))
    ∙ bit_or_disjoint 56 (l + a * 2 ^ 32 + b * 2 ^ 40 + c * 2 ^ 48) d (omega arith)

low_word : (buf : List ℕ) (p v : ℕ) → Holds buf p (le_u64 v) → get_u32 buf p ≡ v % 2 ^ 32
unfolding le_u64 get_u32
low_word buf p v (h0, (h1, (h2, (h3, _)))) =
    rw
      (
        h0,
        h1,
        h2,
        h3,
        bit_and_ff v,
        bit_and_ff (v / 2 ^ 8),
        bit_and_ff (v / 2 ^ 16),
        bit_and_ff (v / 2 ^ 24),
      )
      (or_bytes (v % 256) (v / 2 ^ 8 % 256) (v / 2 ^ 16 % 256) (v / 2 ^ 24 % 256) (omega arith)
          (omega arith) (omega arith)
        ∙ omega arith)

pub get_u64-le_u64 :
    (buf : List ℕ) (p v : ℕ) → v < 2 ^ 64 → Holds buf p (le_u64 v) → get_u64 buf p ≡ v
unfolding le_u64 get_u64
get_u64-le_u64 buf p v h hs =
    let (_, (_, (_, (_, (h4, (h5, (h6, (h7, _)))))))) = hs in
    rw
      (
        low_word buf p v hs,
        h4,
        h5,
        h6,
        h7,
        bit_and_ff (v / 2 ^ 32),
        bit_and_ff (v / 2 ^ 40),
        bit_and_ff (v / 2 ^ 48),
        bit_and_ff (v / 2 ^ 56),
      )
      (more_bytes (v % 2 ^ 32) (v / 2 ^ 32 % 256) (v / 2 ^ 40 % 256) (v / 2 ^ 48 % 256)
          (v / 2 ^ 56 % 256) (omega arith) (omega arith) (omega arith) (omega arith)
        ∙ omega arith)
