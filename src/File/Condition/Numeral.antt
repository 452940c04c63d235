-- ===== src/File/Condition/Numeral.antt =====
-- Numbers as eval_cpp_if of m2c/asm_file.py reads them with `int(tok, 0)`: written in decimal, or in
-- hexadecimal behind 0x.
use Prim.Native.Char.{Char, code}
use m2c.Prelude.{
  ℕ, ◌+◌, ◌*◌, ◌≡◌, refl, ◌∙◌, ap, Bool, true, false, not, ◌&&◌, some, List, [], ◌∷◌, nat_eq,
  nat_beq, ltb, and-eq_true, String, arith, not-eq_true,
}
use m2c.Prelude.Text.{codes, is_digit_code}
use m2c.File.Condition.{digit_value, digits_value, decimal_value, int_0, starts_digit, number_truth}

pub data Digit : Type 0 where
  d0 d1 d2 d3 d4 d5 d6 d7 d8 d9 da db dc dd de df : Digit

abbrev pub digit_number : Digit → ℕ
digit_number d0 = 0
digit_number d1 = 1
digit_number d2 = 2
digit_number d3 = 3
digit_number d4 = 4
digit_number d5 = 5
digit_number d6 = 6
digit_number d7 = 7
digit_number d8 = 8
digit_number d9 = 9
digit_number da = 10
digit_number db = 11
digit_number dc = 12
digit_number dd = 13
digit_number de = 14
digit_number df = 15

abbrev pub digit_char : Digit → Char
digit_char d0 = "0"
digit_char d1 = "1"
digit_char d2 = "2"
digit_char d3 = "3"
digit_char d4 = "4"
digit_char d5 = "5"
digit_char d6 = "6"
digit_char d7 = "7"
digit_char d8 = "8"
digit_char d9 = "9"
digit_char da = "a"
digit_char db = "b"
digit_char dc = "c"
digit_char dd = "d"
digit_char de = "e"
digit_char df = "f"

-- A zero, a decimal number by its first digit and the others, or a hexadecimal one.
pub data Numeral : Type 0 where
  zero_number : Numeral
  decimal_number hex_number : Digit → List Digit → Numeral

unfoldable pub digits_text : List Digit → String
digits_text [] = String.[]
digits_text (d ∷ ds) = String.◌∷◌ (digit_char d) (digits_text ds)

abbrev pub numeral_text : Numeral → String
numeral_text zero_number = "0"
numeral_text (decimal_number d ds) = String.◌∷◌ (digit_char d) (digits_text ds)
numeral_text (hex_number d ds) =
    String.◌∷◌ "0" (String.◌∷◌ "x" (String.◌∷◌ (digit_char d) (digits_text ds)))

-- The number that digits stand for behind those of `n`.
pub number_of : ℕ → ℕ → List Digit → ℕ
number_of base n [] = n
number_of base n (d ∷ ds) = number_of base (n * base + digit_number d) ds

abbrev pub numeral_value : Numeral → ℕ
numeral_value zero_number = 0
numeral_value (decimal_number d ds) = number_of 10 (digit_number d) ds
numeral_value (hex_number d ds) = number_of 16 (digit_number d) ds

pub are_decimal : List Digit → Bool
are_decimal [] = true
are_decimal (d ∷ ds) = ltb (digit_number d) 10 && are_decimal ds

-- A decimal number does not start with a zero.
abbrev pub is_good_numeral : Numeral → Bool
is_good_numeral zero_number = true
is_good_numeral (decimal_number d ds) = not (nat_beq (digit_number d) 0) && are_decimal (d ∷ ds)
is_good_numeral (hex_number d ds) = true

digit_value-hex : (d : Digit) → digit_value 16 (code (digit_char d)) ≡ some (digit_number d)
digit_value-hex d0 = refl
digit_value-hex d1 = refl
digit_value-hex d2 = refl
digit_value-hex d3 = refl
digit_value-hex d4 = refl
digit_value-hex d5 = refl
digit_value-hex d6 = refl
digit_value-hex d7 = refl
digit_value-hex d8 = refl
digit_value-hex d9 = refl
digit_value-hex da = refl
digit_value-hex db = refl
digit_value-hex dc = refl
digit_value-hex dd = refl
digit_value-hex de = refl
digit_value-hex df = refl

digit_value-decimal :
    (d : Digit)
    → ltb (digit_number d) 10 ≡ true
    → (digit_value 10 (code (digit_char d)) ≡ some (digit_number d))
      × (is_digit_code (code (digit_char d)) ≡ true)
digit_value-decimal d0 h = (refl, refl)
digit_value-decimal d1 h = (refl, refl)
digit_value-decimal d2 h = (refl, refl)
digit_value-decimal d3 h = (refl, refl)
digit_value-decimal d4 h = (refl, refl)
digit_value-decimal d5 h = (refl, refl)
digit_value-decimal d6 h = (refl, refl)
digit_value-decimal d7 h = (refl, refl)
digit_value-decimal d8 h = (refl, refl)
digit_value-decimal d9 h = (refl, refl)
digit_value-decimal _ h = cc

-- No digit is an underscore, and only the first one is the code of a zero.
digit_char-code :
    (d : Digit)
    → (nat_beq (code (digit_char d)) b'_' ≡ false)
      × (nat_beq (digit_number d) 0 ≡ false → nat_beq (code (digit_char d)) b'0' ≡ false)
digit_char-code d0 = (refl, λ h. cc)
digit_char-code d1 = (refl, λ h. refl)
digit_char-code d2 = (refl, λ h. refl)
digit_char-code d3 = (refl, λ h. refl)
digit_char-code d4 = (refl, λ h. refl)
digit_char-code d5 = (refl, λ h. refl)
digit_char-code d6 = (refl, λ h. refl)
digit_char-code d7 = (refl, λ h. refl)
digit_char-code d8 = (refl, λ h. refl)
digit_char-code d9 = (refl, λ h. refl)
digit_char-code da = (refl, λ h. refl)
digit_char-code db = (refl, λ h. refl)
digit_char-code dc = (refl, λ h. refl)
digit_char-code dd = (refl, λ h. refl)
digit_char-code de = (refl, λ h. refl)
digit_char-code df = (refl, λ h. refl)

digits_value-hex :
    (n : ℕ) (ds : List Digit)
    → digits_value 16 false n (codes (digits_text ds)) ≡ some (number_of 16 n ds)
unfolding digits_value digits_text number_of
digits_value-hex n [] = refl
digits_value-hex n (d ∷ ds) =
    rw ((digit_char-code d).0, digits_value)
      (rw (digit_value-hex d) (digits_value-hex (n * 16 + digit_number d) ds))

digits_value-decimal :
    (n : ℕ) (ds : List Digit)
    → are_decimal ds ≡ true
    → digits_value 10 false n (codes (digits_text ds)) ≡ some (number_of 10 n ds)
unfolding digits_value digits_text number_of are_decimal
digits_value-decimal n [] h = refl
digits_value-decimal n (d ∷ ds) h =
    let (first, others) = and-eq_true (ltb (digit_number d) 10) (are_decimal ds) h in
    rw ((digit_char-code d).0, digits_value)
      (rw (digit_value-decimal d first).0
        (digits_value-decimal (n * 10 + digit_number d) ds others))

first_digit :
    (base n : ℕ) (d : Digit) (ds : List Digit) (after : Bool)
    → digit_value base (code (digit_char d)) ≡ some (digit_number d)
    → digits_value base false (0 * base + digit_number d) (codes (digits_text ds)) ≡ some n
    → digits_value base after 0 (code (digit_char d) ∷ codes (digits_text ds)) ≡ some n
unfolding digits_value
first_digit base n d ds after v h = rw ((digit_char-code d).0, digits_value) (rw v h)

int_0-nonzero :
    (c : ℕ) (cs : List ℕ) → nat_beq c b'0' ≡ false → int_0 (c ∷ cs) ≡ decimal_value (c ∷ cs)
unfolding int_0
int_0-nonzero c [] h = refl
int_0-nonzero c (d ∷ cs) h = rw (h, int_0) refl

decimal_value-some :
    (c n : ℕ) (cs : List ℕ)
    → nat_beq c b'0' ≡ false
    → digits_value 10 true 0 (c ∷ cs) ≡ some n
    → decimal_value (c ∷ cs) ≡ some n
decimal_value-some c n cs h e = rw (decimal_value, e, h) refl

plus_0 : (n base : ℕ) → 0 * base + n ≡ n
plus_0 n base = ground arith

int_0-decimal :
    (d : Digit) (ds : List Digit)
    → nat_beq (digit_number d) 0 ≡ false
    → are_decimal (d ∷ ds) ≡ true
    → int_0 (code (digit_char d) ∷ codes (digits_text ds)) ≡ some (number_of 10 (digit_number d) ds)
unfolding are_decimal
int_0-decimal d ds nonzero h =
    let (first, others) = and-eq_true (ltb (digit_number d) 10) (are_decimal ds) h in
    let apart = (digit_char-code d).1 nonzero in
    let read =
      first_digit 10 (number_of 10 (digit_number d) ds) d ds true (digit_value-decimal d first).0 (
        ap (λ n. digits_value 10 false n (codes (digits_text ds))) (plus_0 (digit_number d) 10)
        ∙ digits_value-decimal (digit_number d) ds others) in
    int_0-nonzero (code (digit_char d)) (codes (digits_text ds)) apart
    ∙ decimal_value-some (code (digit_char d)) (number_of 10 (digit_number d) ds)
        (codes (digits_text ds)) apart read

int_0-hex :
    (d : Digit) (ds : List Digit)
    → int_0 (codes (numeral_text (hex_number d ds))) ≡ some (number_of 16 (digit_number d) ds)
unfolding int_0
int_0-hex d ds = first_digit 16 (number_of 16 (digit_number d) ds) d ds false (digit_value-hex d) (
    ap (λ n. digits_value 16 false n (codes (digits_text ds))) (plus_0 (digit_number d) 16)
    ∙ digits_value-hex (digit_number d) ds)

pub int_0-numeral :
    (k : Numeral)
    → is_good_numeral k ≡ true
    → int_0 (codes (numeral_text k)) ≡ some (numeral_value k)
unfolding int_0 digits_value
int_0-numeral zero_number h = refl
int_0-numeral (decimal_number d ds) h =
    let (nonzero, digits) =
      and-eq_true (not (nat_beq (digit_number d) 0)) (are_decimal (d ∷ ds)) h in
    int_0-decimal d ds (not-eq_true (nat_beq (digit_number d) 0) nonzero) digits
int_0-numeral (hex_number d ds) h = int_0-hex d ds

pub number_truth-numeral :
    (k : Numeral)
    → is_good_numeral k ≡ true
    → number_truth (numeral_text k) ≡ some (ltb 0 (numeral_value k))
number_truth-numeral k h =
    rw (number_truth, int_0-numeral k h) (ap some (positive (numeral_value k)))
  where
    positive : (n : ℕ) → not (nat_beq n 0) ≡ ltb 0 n
    positive n = ground arith

pub starts_digit-numeral :
    (k : Numeral) → is_good_numeral k ≡ true → starts_digit (numeral_text k) ≡ true
unfolding are_decimal
starts_digit-numeral zero_number h = refl
starts_digit-numeral (decimal_number d ds) h =
    let (nonzero, digits) =
      and-eq_true (not (nat_beq (digit_number d) 0)) (are_decimal (d ∷ ds)) h in
    (digit_value-decimal d (and-eq_true (ltb (digit_number d) 10) (are_decimal ds) digits).0).1
starts_digit-numeral (hex_number d ds) h = refl
