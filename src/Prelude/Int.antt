-- ===== src/Prelude/Int.antt =====
-- Python's unbounded integers over the native numbers, with floor shifts and two's-complement
-- bit operations. Sums and orders go through the two parts of an integer.
use Prim.Native.Nat.{ℕ, suc, ◌+◌, ◌-◌, ◌*◌, ◌/◌, ◌^◌, ◌≤◌, bit_and, bit_or, bit_xor}
use mathlib.Core.Path.{◌≡◌}
use mathlib.Core.Logic.{◌↔◌}
use mathlib.Core.Bool.{Bool, true, false}
use native.Mathlib.Omega.{arith}
use m2c.Prelude.Tests.{leb, nat_beq, if◌then◌else◌}
use m2c.Prelude.Classes.{Eq}

-- `negsuc n` is -(n + 1).
pub data ℤ : Type 0 where
  pos : ℕ → ℤ
  negsuc : ℕ → ℤ

abbrev pub pos_part : ℤ → ℕ
pos_part (pos n) = n
pos_part (negsuc n) = 0

abbrev pub neg_part : ℤ → ℕ
neg_part (pos n) = 0
neg_part (negsuc n) = suc n

-- a - b, as an integer.
abbrev pub sub_ℕ : ℕ → ℕ → ℤ
sub_ℕ a b = if leb b a then pos (a - b) else negsuc (b - a - 1)

infixl 65 ◌+ℤ◌ ◌-ℤ◌
infixl 70 ◌*ℤ◌
infix 50 ◌≤ℤ◌
unfoldable pub ◌+ℤ◌ : ℤ → ℤ → ℤ
a +ℤ b = sub_ℕ (pos_part a + pos_part b) (neg_part a + neg_part b)

unfoldable pub ◌-ℤ◌ : ℤ → ℤ → ℤ
a -ℤ b = sub_ℕ (pos_part a + neg_part b) (neg_part a + pos_part b)

unfoldable pub ◌*ℤ◌ : ℤ → ℤ → ℤ
a *ℤ b =
    sub_ℕ (pos_part a * pos_part b + neg_part a * neg_part b)
      (pos_part a * neg_part b + neg_part a * pos_part b)

abbrev pub ◌≤ℤ◌ : ℤ → ℤ → Type 0
a ≤ℤ b = pos_part a + neg_part b ≤ pos_part b + neg_part a

abbrev pub leb_ℤ : ℤ → ℤ → Bool
leb_ℤ a b = leb (pos_part a + neg_part b) (pos_part b + neg_part a)

abbrev pub int_beq : ℤ → ℤ → Bool
int_beq (pos a) (pos b) = nat_beq a b
int_beq (negsuc a) (negsuc b) = nat_beq a b
int_beq _ _ = false

pub int_beq_iff : (a b : ℤ) → (int_beq a b ≡ true) ↔ (a ≡ b)
int_beq_iff (pos a) (pos b) = ground arith
int_beq_iff (negsuc a) (negsuc b) = ground arith
int_beq_iff (pos a) (negsuc b) = ground arith
int_beq_iff (negsuc a) (pos b) = ground arith

instance abbrev pub int_eq : Eq ℤ
int_eq = record { same = int_beq; same_iff = int_beq_iff }

-- `a << n` and `a >> n` (which rounds down) for a shift count that is not negative.
unfoldable pub shl : ℤ → ℕ → ℤ
shl (pos a) n = pos (a * 2 ^ n)
shl (negsuc a) n = negsuc ((a + 1) * 2 ^ n - 1)

unfoldable pub shr : ℤ → ℕ → ℤ
shr (pos a) n = pos (a / 2 ^ n)
shr (negsuc a) n = negsuc (a / 2 ^ n)

-- `negsuc n` is the complement of n, so each operation reduces to one on natural numbers;
-- `m & ~n` is m less what m and n share.
unfoldable pub and_ℤ : ℤ → ℤ → ℤ
and_ℤ (pos a) (pos b) = pos (bit_and a b)
and_ℤ (pos a) (negsuc b) = pos (a - bit_and a b)
and_ℤ (negsuc a) (pos b) = pos (b - bit_and b a)
and_ℤ (negsuc a) (negsuc b) = negsuc (bit_or a b)

unfoldable pub or_ℤ : ℤ → ℤ → ℤ
or_ℤ (pos a) (pos b) = pos (bit_or a b)
or_ℤ (pos a) (negsuc b) = negsuc (b - bit_and b a)
or_ℤ (negsuc a) (pos b) = negsuc (a - bit_and a b)
or_ℤ (negsuc a) (negsuc b) = negsuc (bit_and a b)

unfoldable pub xor_ℤ : ℤ → ℤ → ℤ
xor_ℤ (pos a) (pos b) = pos (bit_xor a b)
xor_ℤ (pos a) (negsuc b) = negsuc (bit_xor a b)
xor_ℤ (negsuc a) (pos b) = negsuc (bit_xor a b)
xor_ℤ (negsuc a) (negsuc b) = pos (bit_xor a b)

pub +ℤ_parts :
    (a b : ℤ)
    → pos_part (a +ℤ b) + neg_part a + neg_part b ≡ neg_part (a +ℤ b) + pos_part a + pos_part b
unfolding ◌+ℤ◌
+ℤ_parts a b = ground arith

pub -ℤ_parts :
    (a b : ℤ)
    → pos_part (a -ℤ b) + neg_part a + pos_part b ≡ neg_part (a -ℤ b) + pos_part a + neg_part b
unfolding ◌-ℤ◌
-ℤ_parts a b = ground arith

pub eq_of_parts : (a b : ℤ) → pos_part a + neg_part b ≡ pos_part b + neg_part a → a ≡ b
eq_of_parts a b h = ground arith

pub ruleset int_laws = (arith, +ℤ_parts, -ℤ_parts, eq_of_parts)
