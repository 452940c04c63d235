-- ===== src/Demangle/Digits.antt =====
-- Numbers in mangled names: what is printed in decimal is read back.
use m2c.Prelude.{
  ℕ, zero, suc, ◌+◌, ◌-◌, ◌*◌, ◌/◌, ◌%◌, ◌<◌, ◌≡◌, refl, ◌∙◌, ap, Bool, true, false, ◌&&◌, [], ◌∷◌,
  ◌++◌, length, take, drop, nat_eq, nat_beq, ltb, if◌then◌else◌, length-append, Bool-cases, inl,
  inr, arith,
}
use m2c.Prelude.Int.{pos}
use m2c.Prelude.Text.{is_digit_code, decimal_codes, decimal_codes_up_to}
use m2c.Demangle.{
  Text, ok, value_error, ◌>>=◌, read_exact, read_number, is_number_char, peek_number, int_digits,
  int_of,
}

abbrev pub all_digits : Text → Bool
all_digits [] = true
all_digits (c ∷ cs) = is_digit_code c && all_digits cs

all_digits-append : (s t : Text) → all_digits (s ++ t) ≡ (all_digits s && all_digits t)
all_digits-append [] t = refl
all_digits-append (c ∷ s) t = ground (arith, all_digits-append s t)

int_digits-append :
    (s : Text) (n c : ℕ)
    → int_digits n (s ++ c ∷ [])
      ≡ (int_digits n s >>= λ m. if is_digit_code c then ok (m * 10 + (c - b'0')) else value_error)
unfolding int_digits
int_digits-append [] n c = refl
int_digits-append (d ∷ s) n c = elim (Bool-cases (is_digit_code d)) [
  | inl digit ↦ rw digit (int_digits-append s (n * 10 + (d - b'0')) c)
  | inr other ↦ rw other
]

digit : (n : ℕ) → n < 10 → is_digit_code (b'0' + n) ≡ true
digit n h = ground arith

decimal_up_to-all_digits : (f n : ℕ) → n < f → all_digits (decimal_codes_up_to f n) ≡ true
unfolding decimal_codes_up_to
decimal_up_to-all_digits zero n h = absurd (omega arith)
decimal_up_to-all_digits (suc f) n h = elim (Bool-cases (ltb n 10)) [
  | inl small ↦ rw (small, digit n (ground arith)) refl
  | inr large ↦
      rw
        (
          large,
          all_digits-append (decimal_codes_up_to f (n / 10)) ((b'0' + n % 10) ∷ []),
          digit (n % 10) (omega arith),
        )
        (ground (arith, decimal_up_to-all_digits f (n / 10) (ground arith)))
]

int_digits-decimal_up_to : (f n : ℕ) → n < f → int_digits 0 (decimal_codes_up_to f n) ≡ ok n
unfolding decimal_codes_up_to int_digits
int_digits-decimal_up_to zero n h = absurd (omega arith)
int_digits-decimal_up_to (suc f) n h = elim (Bool-cases (ltb n 10)) [
  | inl small ↦ rw (small, digit n (ground arith)) (ap ok (omega arith))
  | inr large ↦
      rw
        (
          large,
          int_digits-append (decimal_codes_up_to f (n / 10)) 0 (b'0' + n % 10),
          int_digits-decimal_up_to f (n / 10) (ground arith),
          digit (n % 10) (omega arith),
        )
        (ap ok (omega arith))
]

pub decimal_codes-all_digits : (n : ℕ) → all_digits (decimal_codes n) ≡ true
unfolding decimal_codes
decimal_codes-all_digits n = decimal_up_to-all_digits (suc n) n (omega arith)

pub int_digits-decimal_codes : (n : ℕ) → int_digits 0 (decimal_codes n) ≡ ok n
unfolding decimal_codes
int_digits-decimal_codes n = int_digits-decimal_up_to (suc n) n (omega arith)

pub length-decimal_codes : (n : ℕ) → 0 < length (decimal_codes n)
unfolding decimal_codes decimal_codes_up_to
length-decimal_codes n = elim (Bool-cases (ltb n 10)) [
  | inl small ↦ rw small (omega arith)
  | inr large ↦
      rw large
        (omega (arith, length-append (decimal_codes_up_to n (n / 10)) ((b'0' + n % 10) ∷ [])))
]

-- A text of digits that is not empty reads as a number without a sign.
int_of-digits :
    (s : Text)
    → 0 < length s
    → all_digits s ≡ true
    → int_of s ≡ (int_digits 0 s >>= λ n. ok (pos n))
unfolding int_of
int_of-digits [] h d = absurd (omega arith)
int_of-digits (c ∷ []) h d = rw (no_sign c (ground arith)) refl
  where
    no_sign : (c : ℕ) → is_digit_code c ≡ true → nat_beq c b'-' ≡ false
    no_sign c d = ground arith
int_of-digits (c ∷ e ∷ s) h d = rw (no_sign c (ground arith)) refl
  where
    no_sign : (c : ℕ) → is_digit_code c ≡ true → nat_beq c b'-' ≡ false
    no_sign c d = ground arith

pub int_of-decimal_codes : (n : ℕ) → int_of (decimal_codes n) ≡ ok (pos n)
int_of-decimal_codes n =
    int_of-digits (decimal_codes n) (length-decimal_codes n) (decimal_codes-all_digits n)
    ∙ rw (int_digits-decimal_codes n) refl

-- Digits are read up to what does not look like a number.
pub read_number-digits :
    (s rest : Text)
    → all_digits s ≡ true
    → peek_number rest ≡ false
    → read_number (s ++ rest) ≡ (s, rest)
unfolding read_number
read_number-digits [] [] d h = refl
read_number-digits [] (c ∷ rest) d h = rw h refl
read_number-digits (c ∷ s) rest d h =
    rw (number c (ground arith), read_number-digits s rest (ground arith) h) refl
  where
    number : (c : ℕ) → is_digit_code c ≡ true → is_number_char c ≡ true
    number c d = ground arith

take-append : (s rest : Text) → take (length s) (s ++ rest) ≡ s
take-append [] rest = refl
take-append (c ∷ s) rest = rw (take-append s rest)

drop-append : (s rest : Text) → drop (length s) (s ++ rest) ≡ rest
drop-append [] rest = refl
drop-append (c ∷ s) rest = drop-append s rest

pub read_exact-append : (s rest : Text) → read_exact (s ++ rest) (length s) ≡ ok (s, rest)
unfolding read_exact
read_exact-append s rest = rw (enough, take-append s rest, drop-append s rest) refl
  where
    enough : ltb (length (s ++ rest)) (length s) ≡ false
    enough = ground (arith, length-append s rest)
