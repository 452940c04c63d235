-- ===== src/Asm/Literal.antt =====
-- AsmLiteral.as_s16 and as_s8: a value read as a signed field of an instruction word. `x & 0xFFFF`
-- is a remainder by 2 ^ 16, since Python's `&` reads a negative number as two's complement.
use m2c.Prelude.{ℕ, ◌+◌, ◌-◌, ◌%◌, ◌≡◌, arith}
use m2c.Prelude.Int.{ℤ, pos, negsuc, ◌+ℤ◌, ◌-ℤ◌, ◌≤ℤ◌, pos_part, neg_part}

-- `v & (2 ^ k - 1)` for m = 2 ^ k.
low : ℕ → ℤ → ℕ
low m (pos n) = n % m
low m (negsuc n) = m - 1 - n % m

unfoldable pub as_s16 : ℤ → ℤ
unfolding low
as_s16 v = pos (low 0x10000 (v +ℤ pos 0x8000)) -ℤ pos 0x8000

unfoldable pub as_s8 : ℤ → ℤ
unfolding low
as_s8 v = pos (low 0x100 (v +ℤ pos 0x80)) -ℤ pos 0x80

abbrev pub Congruent : ℕ → ℤ → ℤ → Type 0
Congruent m a b = (pos_part a + neg_part b) % m ≡ (pos_part b + neg_part a) % m

-- For every value v, v.as_s16() lies in [-0x8000, 0x7fff] and differs from v by a multiple of
-- 2 ^ 16, which determines it.
pub as_s16_lem :
    (v : ℤ)
    → (negsuc 0x7fff ≤ℤ as_s16 v) × (as_s16 v ≤ℤ pos 0x7fff) × Congruent 0x10000 (as_s16 v) v
unfolding as_s16 ◌+ℤ◌ ◌-ℤ◌
as_s16_lem (pos n) = ground arith
as_s16_lem (negsuc n) = ground arith

-- For every value v, v.as_s8() lies in [-0x80, 0x7f] and differs from v by a multiple of 2 ^ 8.
pub as_s8_lem :
    (v : ℤ) → (negsuc 0x7f ≤ℤ as_s8 v) × (as_s8 v ≤ℤ pos 0x7f) × Congruent 0x100 (as_s8 v) v
unfolding as_s8 ◌+ℤ◌ ◌-ℤ◌
as_s8_lem (pos n) = ground arith
as_s8_lem (negsuc n) = ground arith
