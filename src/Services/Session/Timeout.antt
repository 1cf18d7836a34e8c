-- ===== src/Services/Session/Timeout.antt =====
-- The revised timeout lies between ten seconds and an hour, for every pattern of a double.
use muc_opcua.Common.{
  ℕ, zero, suc, ◌+◌, ◌-◌, ◌*◌, ◌/◌, ◌%◌, ◌^◌, ◌≤◌, ◌≡◌, ◌∙◌, ap, bit_and, bit_or, arith,
}
use muc_opcua.Common.Bits.{bit_or_disjoint, bit_or_comm, bit_and_mask}
use muc_opcua.Services.Session.{
  clamp_timeout_bits, duration_bits_to_ms, timeout_min_bits, timeout_max_bits,
}

clamp_bounds :
    (b : ℕ) → (timeout_min_bits ≤ clamp_timeout_bits b) × (clamp_timeout_bits b ≤ timeout_max_bits)
unfolding clamp_timeout_bits
clamp_bounds b = (ground arith, ground arith)

mantissa_lem : (b : ℕ) → bit_or (1 * 2 ^ 52) (bit_and b 0x000fffffffffffff) ≡ b % 2 ^ 52 + 2 ^ 52
mantissa_lem b =
    bit_or_comm (1 * 2 ^ 52) (bit_and b 0x000fffffffffffff)
    ∙ ap (λ f. bit_or f (1 * 2 ^ 52)) (bit_and_mask 52 b)
    ∙ bit_or_disjoint 52 (b % 2 ^ 52) 1 (omega arith)

-- A result within the bounds.
abbrev pub InBounds : ℕ → Type 0
InBounds ms = (10000 ≤ ms) × (ms ≤ 3600000)

-- The nine exponents of the patterns between the bounds.
exponent_bounds :
    (j b : ℕ)
    → b / 2 ^ 52 ≡ 1036 + j
    → timeout_min_bits ≤ b
    → b ≤ timeout_max_bits
    → InBounds (duration_bits_to_ms b)
unfolding duration_bits_to_ms
exponent_bounds zero b e lo hi = rw (mantissa_lem b, e) (omega arith, omega arith)
exponent_bounds (suc zero) b e lo hi = rw (mantissa_lem b, e) (omega arith, omega arith)
exponent_bounds (suc (suc zero)) b e lo hi = rw (mantissa_lem b, e) (omega arith, omega arith)
exponent_bounds (suc (suc (suc zero))) b e lo hi = rw (mantissa_lem b, e) (omega arith, omega arith)
exponent_bounds (suc (suc (suc (suc zero)))) b e lo hi =
    rw (mantissa_lem b, e) (omega arith, omega arith)
exponent_bounds (suc (suc (suc (suc (suc zero))))) b e lo hi =
    rw (mantissa_lem b, e) (omega arith, omega arith)
exponent_bounds (suc (suc (suc (suc (suc (suc zero)))))) b e lo hi =
    rw (mantissa_lem b, e) (omega arith, omega arith)
exponent_bounds (suc (suc (suc (suc (suc (suc (suc zero))))))) b e lo hi =
    rw (mantissa_lem b, e) (omega arith, omega arith)
exponent_bounds (suc (suc (suc (suc (suc (suc (suc (suc zero)))))))) b e lo hi =
    rw (mantissa_lem b, e) (omega arith, omega arith)
exponent_bounds (suc (suc (suc (suc (suc (suc (suc (suc (suc j))))))))) b e lo hi =
    absurd (omega arith)

-- Whatever pattern a client asks for, the revised timeout in milliseconds lies between 10000 and
-- 3600000.
pub timeout_bounds : (bits : ℕ) → InBounds (duration_bits_to_ms (clamp_timeout_bits bits))
timeout_bounds bits =
    let b : ℕ = clamp_timeout_bits bits in
    let (lo, hi) = clamp_bounds bits in exponent_bounds (b / 2 ^ 52 - 1036) b (omega arith) lo hi
