-- ===== src/Demangle/Fits.antt =====
-- What a parser of m2c/demangle_codewarrior.py leaves of its input, and that its fuel is enough.
use m2c.Prelude.{
  ℕ, suc, ◌+◌, ◌-◌, ◌≤◌, ◌<◌, ◌≡◌, refl, Bool, true, false, [], ◌∷◌, length, leb, leb→le,
  and-eq_true, ltb, take, drop, contains, nat_beq, nat_eq, ◌++◌, inl, inr, Bool-cases, zero, ◌*◌,
  arith,
}
use m2c.Prelude.Text.{is_digit_code, decimal_codes}
use m2c.Demangle.{
  Text, simple, array, qualified, function, symbol_reference, CxxType, no_terms, add_term, Result,
  ok, value_error, other_error, out_of_fuel, ◌>>=◌, read_char, read_exact, is_number_char,
  peek_number, read_number, int_digits, int_of,
}
use m2c.Demangle.Parse.{partition, all_read, class_names}
use m2c.Demangle.Digits.{all_digits, decimal_codes-all_digits}

-- The fuel was enough, and a result leaves at most `n` characters.
abbrev pub fits : {A : Type 0} → ℕ → Result (A × Text) → Bool
fits n (ok (a, rest)) = leb (length rest) n
fits n value_error = true
fits n other_error = true
fits n out_of_fuel = false

-- The fuel was enough.
abbrev pub returns_some : {A : Type 0} → Result A → Bool
returns_some out_of_fuel = false
returns_some _ = true

module _ {A B : Type 0} where
  pub fits-bind :
      (r : Result (A × Text)) (next : A × Text → Result (B × Text)) (n m : ℕ)
      → fits n r ≡ true
      → ((a : A) (rest : Text) → length rest ≤ n → fits m (next (a, rest)) ≡ true)
      → fits m (r >>= next) ≡ true
  fits-bind (ok (a, rest)) next n m h k = k a rest (leb→le (length rest) n h)
  fits-bind value_error next n m h k = refl
  fits-bind other_error next n m h k = refl
  fits-bind out_of_fuel next n m h k = h

  pub fits-bind_some :
      (r : Result A) (next : A → Result (B × Text)) (m : ℕ)
      → returns_some r ≡ true
      → ((a : A) → fits m (next a) ≡ true)
      → fits m (r >>= next) ≡ true
  fits-bind_some (ok a) next m h k = k a
  fits-bind_some value_error next m h k = refl
  fits-bind_some other_error next m h k = refl
  fits-bind_some out_of_fuel next m h k = h

module _ {A : Type 0} where
  pub fits-elim :
      (b : Bool) (x y : Result (A × Text)) (m : ℕ)
      → (b ≡ true → fits m x ≡ true)
      → (b ≡ false → fits m y ≡ true)
      → fits m (elim b [ true ↦ x | false ↦ y ]) ≡ true
  fits-elim true x y m f g = f refl
  fits-elim false x y m f g = g refl

  pub fits-weaken : (r : Result (A × Text)) (n m : ℕ) → n ≤ m → fits n r ≡ true → fits m r ≡ true
  fits-weaken (ok (a, rest)) n m l h = ground (arith, leb→le (length rest) n h)
  fits-weaken value_error n m l h = refl
  fits-weaken other_error n m l h = refl
  fits-weaken out_of_fuel n m l h = h

module _ {A : Type 0} where
  pub fits-read_char :
      (src : Text) (next : ℕ × Text → Result (A × Text)) (m : ℕ)
      → ((c : ℕ) (rest : Text) → suc (length rest) ≡ length src → fits m (next (c, rest)) ≡ true)
      → fits m (read_char src >>= next) ≡ true
  fits-read_char [] next m k = refl
  fits-read_char (c ∷ src) next m k = k c src refl

  pub all_read-returns_some : (a : A) (rest : Text) → returns_some (all_read (a, rest)) ≡ true
  unfolding all_read
  all_read-returns_some a [] = refl
  all_read-returns_some a (c ∷ rest) = refl

  pub fits-all_read :
      (r : Result (A × Text)) (n : ℕ) → fits n r ≡ true → returns_some (r >>= all_read) ≡ true
  fits-all_read (ok (a, rest)) n h = all_read-returns_some a rest
  fits-all_read value_error n h = refl
  fits-all_read other_error n h = refl
  fits-all_read out_of_fuel n h = h

length-take-drop :
    (src : Text) (n : ℕ)
    → n ≤ length src
    → (length (take n src) ≡ n) × (n + length (drop n src) ≡ length src)
length-take-drop src zero h = (refl, omega arith)
length-take-drop [] (suc n) h = absurd (omega arith)
length-take-drop (c ∷ src) (suc n) h =
    let (front, back) = length-take-drop src n (omega arith) in (omega arith, omega arith)

module _ {A : Type 0} where
  pub fits-read_exact :
      (src : Text) (n : ℕ) (next : Text × Text → Result (A × Text)) (m : ℕ)
      → ((body rest : Text)
          → length body ≡ n
          → n + length rest ≡ length src
          → fits m (next (body, rest)) ≡ true)
      → fits m (read_exact src n >>= next) ≡ true
  unfolding read_exact
  fits-read_exact src n next m k = elim (Bool-cases (ltb (length src) n)) [
    | inl e ↦ rw e refl
    | inr e ↦
        let (front, back) = length-take-drop src n (ground arith) in
        rw e (k (take n src) (drop n src) front back)
  ]

int_digits-returns_some : (n : ℕ) (s : Text) → returns_some (int_digits n s) ≡ true
unfolding int_digits
int_digits-returns_some n [] = refl
int_digits-returns_some n (c ∷ s) = elim (Bool-cases (is_digit_code c)) [
  | inl e ↦ rw e (int_digits-returns_some (n * 10 + (c - b'0')) s)
  | inr e ↦ rw e refl
]

returns_some-map :
    {A B : Type 0} (r : Result A) (f : A → B)
    → returns_some r ≡ true
    → returns_some (r >>= λ a. ok (f a)) ≡ true
returns_some-map (ok a) f h = refl
returns_some-map value_error f h = refl
returns_some-map other_error f h = refl
returns_some-map out_of_fuel f h = h

pub int_of-returns_some : (s : Text) → returns_some (int_of s) ≡ true
unfolding int_of
int_of-returns_some [] = refl
int_of-returns_some (c ∷ []) = elim (Bool-cases (nat_beq c b'-')) [
  | inl e ↦ rw e refl
  | inr e ↦ rw e (returns_some-map (int_digits 0 (c ∷ [])) _ (int_digits-returns_some 0 (c ∷ [])))
]
int_of-returns_some (c ∷ d ∷ s) = elim (Bool-cases (nat_beq c b'-')) [
  | inl e ↦ rw e (returns_some-map (int_digits 0 (d ∷ s)) _ (int_digits-returns_some 0 (d ∷ s)))
  | inr e ↦
      rw e (returns_some-map (int_digits 0 (c ∷ d ∷ s)) _ (int_digits-returns_some 0 (c ∷ d ∷ s)))
]

pub class_names-returns_some : (type : CxxType) → returns_some (class_names type) ≡ true
class_names-returns_some no_terms = refl
class_names-returns_some (add_term (simple k) no_terms) = refl
class_names-returns_some (add_term (array n) no_terms) = refl
class_names-returns_some (add_term (qualified names) no_terms) = refl
class_names-returns_some (add_term (function params result) no_terms) = refl
class_names-returns_some (add_term (symbol_reference s) no_terms) = refl
class_names-returns_some (add_term (simple k) (add_term u ts)) = refl
class_names-returns_some (add_term (array n) (add_term u ts)) = refl
class_names-returns_some (add_term (qualified names) (add_term u ts)) = refl
class_names-returns_some (add_term (function params result) (add_term u ts)) = refl
class_names-returns_some (add_term (symbol_reference s) (add_term u ts)) = refl

pub length-read_number :
    (src : Text) → length (read_number src).0 + length (read_number src).1 ≡ length src
unfolding read_number
length-read_number [] = refl
length-read_number (c ∷ src) = elim (Bool-cases (is_number_char c)) [
  | inl e ↦ let ih = length-read_number src in rw e (omega (arith, ih))
  | inr e ↦ rw e (omega arith)
]

-- A number that starts the text is read.
pub read_number-peek_number :
    (c : ℕ) (src : Text)
    → peek_number (c ∷ src) ≡ true
    → length (read_number (c ∷ src)).1 ≤ length src
unfolding read_number
read_number-peek_number c src h = let total = length-read_number src in rw h (omega (arith, total))

length-read_number_digits :
    (ds s : Text) → all_digits ds ≡ true → length (read_number (ds ++ s)).1 ≤ length s
unfolding read_number
length-read_number_digits [] s h = let total = length-read_number s in omega (arith, total)
length-read_number_digits (d ∷ ds) s h =
    let (first, others) = and-eq_true (is_digit_code d) (all_digits ds) h in
    let ih = length-read_number_digits ds s others in rw first ih

pub length-read_number_decimal :
    (n : ℕ) (s : Text) → length (read_number (decimal_codes n ++ s)).1 ≤ length s
length-read_number_decimal n s =
    length-read_number_digits (decimal_codes n) s (decimal_codes-all_digits n)

pub length-partition :
    (name : Text) → contains name b'<' ≡ true → length (partition name).1 < length name
unfolding partition
length-partition [] h = cc
length-partition (c ∷ name) h = elim (Bool-cases (nat_beq c b'<')) [
  | inl e ↦ rw e (omega arith)
  | inr e ↦ let ih = length-partition name (ground (arith, e, h)) in rw e (omega arith)
]
