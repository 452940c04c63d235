-- ===== src/Prelude/Bits.antt =====
-- A number as a set of small numbers: `a >> i & 1`, and what the bitwise operations do to it.
use Prim.Native.Nat.{
  ℕ, zero, suc, ◌+◌, ◌-◌, ◌*◌, ◌/◌, ◌%◌, ◌^◌, ◌≤◌, min, max, bit_and, bit_or, digits,
  bit_and-bitwise, bit_or-bitwise,
}
use mathlib.Core.Path.{◌≡◌, refl, ◌∙◌}
use mathlib.Core.Bool.{Bool, false, ◌&&◌, ◌||◌}
use native.Mathlib.Omega.{arith}
use m2c.Prelude.Tests.{nat_beq, ltb}

-- `a >> i & 1`.
abbrev pub bit : ℕ → ℕ → Bool
bit a zero = nat_beq (a % 2) 1
bit a (suc i) = bit (a / 2) i

pub zero-bit : (i : ℕ) → bit 0 i ≡ false
zero-bit zero = refl
zero-bit (suc i) = zero-bit i

module _ (z : ℕ → ℕ) (f : ℕ → ℕ → ℕ) where
  -- Any count of digits that reaches the first number gives the same result.
  digits-enough : (n m a b : ℕ) → a ≤ n → a ≤ m → digits z f n a b ≡ digits z f m a b
  digits-enough zero zero zero b h k = refl
  digits-enough zero (suc m) zero b h k = refl
  digits-enough (suc n) zero zero b h k = refl
  digits-enough (suc n) (suc m) zero b h k = refl
  digits-enough zero m (suc a) b h k = absurd (omega arith)
  digits-enough (suc n) zero (suc a) b h k = absurd (omega arith)
  digits-enough (suc n) (suc m) (suc a) b h k =
      rw (digits-enough n m (suc a / 2) (b / 2) (omega arith) (omega arith))

and_step : (a b : ℕ) → bit_and a b ≡ bit_and (a / 2) (b / 2) * 2 + min (a % 2) (b % 2)
and_step zero b = omega (arith, bit_and-bitwise 0 b, bit_and-bitwise 0 (b / 2))
and_step (suc a) b =
    bit_and-bitwise (suc a) b
    ∙ omega (
      arith,
      bit_and-bitwise (suc a / 2) (b / 2),
      digits-enough (λ _. 0) min a (suc a / 2) (suc a / 2) (b / 2) (omega arith) (omega arith),
    )

or_step : (a b : ℕ) → bit_or a b ≡ bit_or (a / 2) (b / 2) * 2 + max (a % 2) (b % 2)
or_step zero b = omega (arith, bit_or-bitwise 0 b, bit_or-bitwise 0 (b / 2))
or_step (suc a) b =
    bit_or-bitwise (suc a) b
    ∙ omega (
      arith,
      bit_or-bitwise (suc a / 2) (b / 2),
      digits-enough (λ y. y) max a (suc a / 2) (suc a / 2) (b / 2) (omega arith) (omega arith),
    )

pub bit-and : (a b i : ℕ) → bit (bit_and a b) i ≡ (bit a i && bit b i)
bit-and a b zero = ground (arith, and_step a b)
bit-and a b (suc i) = rw (half) (bit-and (a / 2) (b / 2) i)
  where
    half : bit_and a b / 2 ≡ bit_and (a / 2) (b / 2)
    half = omega (arith, and_step a b)

pub bit-or : (a b i : ℕ) → bit (bit_or a b) i ≡ (bit a i || bit b i)
bit-or a b zero = ground (arith, or_step a b)
bit-or a b (suc i) = rw (half) (bit-or (a / 2) (b / 2) i)
  where
    half : bit_or a b / 2 ≡ bit_or (a / 2) (b / 2)
    half = omega (arith, or_step a b)

-- `1 << i` is the set of i alone, and `(1 << n) - 1` the set of the numbers below n.
pub bit-power : (i j : ℕ) → bit (2 ^ i) j ≡ nat_beq i j
bit-power zero zero = refl
bit-power zero (suc j) = zero-bit j ∙ ground arith
bit-power (suc i) zero = ground arith
bit-power (suc i) (suc j) = rw half (bit-power i j ∙ ground arith)
  where
    half : 2 ^ suc i / 2 ≡ 2 ^ i
    half = omega arith

power_pos : (n : ℕ) → 1 ≤ 2 ^ n
power_pos zero = omega arith
power_pos (suc n) = omega (arith, power_pos n)

pub bit-ones : (n j : ℕ) → bit (2 ^ n - 1) j ≡ ltb j n
bit-ones zero j = zero-bit j ∙ ground arith
bit-ones (suc n) zero = ground (arith, power_pos n)
bit-ones (suc n) (suc j) = rw half (bit-ones n j ∙ ground arith)
  where
    half : (2 ^ suc n - 1) / 2 ≡ 2 ^ n - 1
    half = omega (arith, power_pos n)

-- Numbers with the same bits are the same.
bits-eq_fuel : (n a b : ℕ) → a ≤ n → b ≤ n → ((i : ℕ) → bit a i ≡ bit b i) → a ≡ b
bits-eq_fuel zero a b h k same = omega arith
bits-eq_fuel (suc n) a b h k same =
    let high = bits-eq_fuel n (a / 2) (b / 2) (omega arith) (omega arith) (λ i. same (suc i)) in
    let low : a % 2 ≡ b % 2 = ground (arith, same 0) in omega arith

pub bits-eq : (a b : ℕ) → ((i : ℕ) → bit a i ≡ bit b i) → a ≡ b
bits-eq a b same = bits-eq_fuel (a + b) a b (omega arith) (omega arith) same

and_le_fuel : (n a b : ℕ) → a ≤ n → bit_and a b ≤ b
and_le_fuel zero zero b h = omega (arith, bit_and-bitwise 0 b)
and_le_fuel zero (suc a) b h = absurd (omega arith)
and_le_fuel (suc n) zero b h = omega (arith, bit_and-bitwise 0 b)
and_le_fuel (suc n) (suc a) b h =
    omega (arith, and_step (suc a) b, and_le_fuel n (suc a / 2) (b / 2) (omega arith))

pub and_le : (a b : ℕ) → bit_and a b ≤ b
and_le a b = and_le_fuel a a b (omega arith)
