-- ===== src/Common/Bits.antt =====
-- Masks, shifts and `|` of disjoint fields as arithmetic.
use Prim.Native.Nat.{
  ℕ, zero, suc, ◌+◌, ◌-◌, ◌*◌, ◌/◌, ◌%◌, ◌^◌, ◌≤◌, ◌<◌, min, max, digits, bit_and, bit_or,
  bit_and-bitwise, bit_or-bitwise,
}
use mathlib.Core.Path.{◌≡◌, refl, ap, sym, ◌∙◌}
use native.Mathlib.Nat.{pow-suc, one-le-pow}
use native.Mathlib.Omega.{arith}

-- The digit recursion gives one result for every count of digits that is large enough.
module _ (z : ℕ → ℕ) (f : ℕ → ℕ → ℕ) where
  digits_enough : (n m a b : ℕ) → a ≤ n → a ≤ m → digits z f n a b ≡ digits z f m a b
  digits_enough n m zero b p q = empty n ∙ sym (empty m)
    where
      empty : (k : ℕ) → digits z f k 0 b ≡ z b
      empty zero = refl
      empty (suc k) = refl
  digits_enough zero m (suc a) b p q = elim p [ ]
  digits_enough (suc n) zero (suc a) b p q = elim q [ ]
  digits_enough (suc n) (suc m) (suc a) b p q =
      rw (digits_enough n m (suc a / 2) (b / 2) (omega arith) (omega arith))

-- The lowest binary digit of `|` and `&`.
or_digit : (a b : ℕ) → bit_or a b ≡ bit_or (a / 2) (b / 2) * 2 + max (a % 2) (b % 2)
or_digit zero b = omega (arith, bit_or-bitwise 0 b, bit_or-bitwise 0 (b / 2))
or_digit (suc a) b = omega (
  arith,
  bit_or-bitwise (suc a) b,
  bit_or-bitwise (suc a / 2) (b / 2),
  digits_enough (λ y. y) max a (suc a / 2) (suc a / 2) (b / 2) (omega arith) (omega arith),
)

and_digit : (a b : ℕ) → bit_and a b ≡ bit_and (a / 2) (b / 2) * 2 + min (a % 2) (b % 2)
and_digit zero b = omega (arith, bit_and-bitwise 0 b, bit_and-bitwise 0 (b / 2))
and_digit (suc a) b = omega (
  arith,
  bit_and-bitwise (suc a) b,
  bit_and-bitwise (suc a / 2) (b / 2),
  digits_enough (λ y. 0) min a (suc a / 2) (suc a / 2) (b / 2) (omega arith) (omega arith),
)

zero-bit_or : (b : ℕ) → bit_or 0 b ≡ b
zero-bit_or b = bit_or-bitwise 0 b

double_pow : (q k : ℕ) → q * 2 ^ suc k ≡ q * 2 ^ k + q * 2 ^ k
double_pow q k = omega (arith, ap (λ (t : ℕ). q * t) (pow-suc 2 k))

-- `r | (q << k)` is a sum where `r` fits `k` bits.
pub bit_or_disjoint : (k r q : ℕ) → r < 2 ^ k → bit_or r (q * 2 ^ k) ≡ r + q * 2 ^ k
bit_or_disjoint zero zero q h = omega (arith, zero-bit_or (q * 1))
bit_or_disjoint zero (suc r) q h = absurd (omega arith)
bit_or_disjoint (suc k) r q h = ground (
  arith,
  or_digit r (q * 2 ^ suc k),
  double_pow q k,
  pow-suc 2 k,
  bit_or_disjoint k (r / 2) q (omega (arith, pow-suc 2 k)),
)

bit_and-zero : (k a : ℕ) → a ≤ k → bit_and a 0 ≡ 0
bit_and-zero k zero h = bit_and-bitwise 0 0
bit_and-zero zero (suc a) h = elim h [ ]
bit_and-zero (suc k) (suc a) h =
    omega (arith, and_digit (suc a) 0, bit_and-zero k (suc a / 2) (omega arith))

mask_fields : (k r q : ℕ) → r < 2 ^ k → bit_and (r + q * 2 ^ k) (2 ^ k - 1) ≡ r
mask_fields zero r q h = omega (arith, bit_and-zero (r + q * 1) (r + q * 1) (omega arith))
mask_fields (suc k) r q h = ground (
  arith,
  and_digit (r + q * 2 ^ suc k) (2 ^ suc k - 1),
  double_pow q k,
  pow-suc 2 k,
  one-le-pow k 2,
  mask_fields k (r / 2) q (omega (arith, pow-suc 2 k)),
)

-- A mask of `k` low bits is the remainder by `2 ^ k`.
pub bit_and_mask : (k a : ℕ) → bit_and a (2 ^ k - 1) ≡ a % 2 ^ k
bit_and_mask k a =
    ground
      (arith, one-le-pow k 2, mask_fields k (a % 2 ^ k) (a / 2 ^ k) (omega (arith, one-le-pow k 2)))

pub bit_and_ff : (a : ℕ) → bit_and a 0xff ≡ a % 256
bit_and_ff a = bit_and_mask 8 a

pub bit_and_0f : (a : ℕ) → bit_and a 0x0f ≡ a % 16
bit_and_0f a = bit_and_mask 4 a

or_comm_fuel : (k a b : ℕ) → a ≤ k → b ≤ k → bit_or a b ≡ bit_or b a
or_comm_fuel zero zero zero ha hb = refl
or_comm_fuel zero zero (suc b) ha hb = elim hb [ ]
or_comm_fuel zero (suc a) b ha hb = elim ha [ ]
or_comm_fuel (suc k) a b ha hb =
    ground (
      arith,
      or_digit a b,
      or_digit b a,
      or_comm_fuel k (a / 2) (b / 2) (omega arith) (omega arith),
    )

pub bit_or_comm : (a b : ℕ) → bit_or a b ≡ bit_or b a
bit_or_comm a b = or_comm_fuel (a + b) a b (omega arith) (omega arith)
