-- ===== src/Demangle/Steps.antt =====
-- Single steps of the parsers on the front of a text.
use m2c.Prelude.{
  ℕ, zero, suc, ◌+◌, ◌-◌, ◌*◌, ◌<◌, ◌≡◌, refl, ◌∙◌, ap, Bool, true, false, not, ◌&&◌, [], ◌∷◌, ◌++◌,
  length, nat_eq, nat_beq, contains, append_assoc, arith,
}
use m2c.Prelude.Dict.{lookup}
use m2c.Prelude.Int.{pos}
use m2c.Prelude.Text.{is_digit_code, decimal_codes}
use m2c.Demangle.{
  Text, Kind, const, pointer, reference, signed, unsigned, simple, Result, ok, ◌>>=◌, read_exact,
  read_number, int_digits, int_of, delimiters, is_number_char, peek_in, peek_number,
}
use m2c.Demangle.Parse.{
  partition, ends_in, parse_name, parse_number, read_counted, parse_template, parse_dim, parse_kind,
}
use m2c.Demangle.Mangle.{letter, prefixed}
use m2c.Demangle.Digits.{
  all_digits, decimal_codes-all_digits, length-decimal_codes, int_of-decimal_codes,
  read_number-digits, read_exact-append,
}

-- A name's body does not start like a number or a delimiter.
abbrev pub starts_body : Text → Bool
starts_body [] = false
starts_body (c ∷ s) = not (is_number_char c) && not (contains delimiters c)

body-peeks :
    (body rest : Text)
    → starts_body body ≡ true
    → (peek_number (body ++ rest) ≡ false) × (peek_in delimiters (body ++ rest) ≡ false)
body-peeks [] rest h = cc
body-peeks (c ∷ s) rest h = (ground arith, ground arith)

parse_number-positive :
    (f n : ℕ) (s rest : Text)
    → 0 < length s
    → 0 < n
    → int_of s ≡ ok (pos n)
    → peek_in delimiters rest ≡ false
    → parse_number (suc (suc f)) s rest
      ≡ (read_exact rest n >>= λ read. parse_template f (read.0) (read.1))
unfolding parse_number read_counted
parse_number-positive f n [] rest h p i d = absurd (omega arith)
parse_number-positive f zero (c ∷ s) rest h p i d = absurd (omega arith)
parse_number-positive f (suc n) (c ∷ s) rest h p i d = rw (i, d) refl

parse_name-number :
    (f : ℕ) (s rest : Text)
    → read_number (s ++ rest) ≡ (s, rest)
    → parse_name (suc f) (s ++ rest) ≡ parse_number f s rest
unfolding parse_name
parse_name-number f s rest r = ap (λ (q : Text × Text). parse_number f (q.0) (q.1)) r

-- A name behind its length is read whole.
pub parse_name-prefixed :
    (f : ℕ) (body rest : Text)
    → starts_body body ≡ true
    → parse_name (suc (suc (suc f))) (prefixed body ++ rest) ≡ parse_template f body rest
parse_name-prefixed f body rest h =
    let (number, delimiter) = body-peeks body rest h in
    ap (parse_name (suc (suc (suc f)))) (append_assoc (decimal_codes (length body)) body rest)
    ∙ (parse_name-number (suc (suc f)) (decimal_codes (length body)) (body ++ rest) (
          read_number-digits (decimal_codes (length body)) (body ++ rest)
            (decimal_codes-all_digits (length body)) number)
        ∙ parse_number-positive f (length body) (decimal_codes (length body)) (body ++ rest)
            (length-decimal_codes (length body)) (positive body h)
            (int_of-decimal_codes (length body)) delimiter
        ∙ rw (read_exact-append body rest) refl)
  where
    positive : (s : Text) → starts_body s ≡ true → 0 < length s
    positive [] k = cc
    positive (c ∷ s) k = omega arith

pub partition-bracket :
    (base params : Text)
    → contains base b'<' ≡ false
    → partition (base ++ (b'<' ∷ params)) ≡ (base, params)
unfolding partition
partition-bracket [] params h = refl
partition-bracket (c ∷ base) params h =
    rw (partition-bracket base params (ground arith), other) refl
  where
    other : nat_beq c b'<' ≡ false
    other = ground arith

pub contains-bracket : (base params : Text) → contains (base ++ (b'<' ∷ params)) b'<' ≡ true
contains-bracket [] params = refl
contains-bracket (c ∷ base) params = ground (arith, contains-bracket base params)

pub ends_in-append : (s t : Text) (c : ℕ) → 0 < length t → ends_in c (s ++ t) ≡ ends_in c t
ends_in-append [] t c h = refl
ends_in-append (a ∷ []) [] c h = absurd (omega arith)
ends_in-append (a ∷ []) (b ∷ t) c h = refl
ends_in-append (a ∷ b ∷ s) t c h = ends_in-append (b ∷ s) t c h

-- The dimension of an array.
pub parse_dim-digits :
    (f dim n : ℕ) (s rest : Text)
    → all_digits s ≡ true
    → length s < f
    → int_digits dim s ≡ ok n
    → parse_dim f dim (s ++ (b'_' ∷ rest)) ≡ ok (n, rest)
unfolding parse_dim int_digits
parse_dim-digits zero dim n s rest d h i = absurd (omega arith)
parse_dim-digits (suc f) dim n [] rest d h i = ap (λ (m : Result ℕ). m >>= λ k. ok (k, rest)) i
parse_dim-digits (suc f) dim n (c ∷ s) rest d h i =
    let digit : is_digit_code c ≡ true = ground arith in
    rw (other digit, digit, parse_dim)
      (parse_dim-digits f (dim * 10 + (c - b'0')) n s rest (ground arith) (omega arith)
        (rw digit at i))
  where
    other : is_digit_code c ≡ true → nat_beq c b'_' ≡ false
    other e = ground arith

pub parse_kind-letter :
    (f : ℕ) (k : Kind) (rest : Text) → parse_kind (suc f) (letter k) rest ≡ ok (simple k, rest)
unfolding parse_kind lookup
parse_kind-letter f const rest = refl
parse_kind-letter f pointer rest = refl
parse_kind-letter f reference rest = refl
parse_kind-letter f signed rest = refl
parse_kind-letter f unsigned rest = refl
parse_kind-letter f _ rest = refl

pub letter-is_number_char : (k : Kind) → is_number_char (letter k) ≡ false
letter-is_number_char const = refl
letter-is_number_char pointer = refl
letter-is_number_char reference = refl
letter-is_number_char signed = refl
letter-is_number_char unsigned = refl
letter-is_number_char _ = refl

-- A count of at most nine.
pub int_of-count : (n : ℕ) → n < 10 → int_of ((b'0' + n) ∷ []) ≡ ok (pos n)
unfolding int_of int_digits
int_of-count n h = rw (no_sign, digit) (ap (λ m. ok (pos m)) (omega arith))
  where
    no_sign : nat_beq (b'0' + n) b'-' ≡ false
    no_sign = ground arith

    digit : is_digit_code (b'0' + n) ≡ true
    digit = ground arith
