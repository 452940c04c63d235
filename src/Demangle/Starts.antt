-- ===== src/Demangle/Starts.antt =====
-- How mangled texts start, which is what the parser decides by.
use m2c.Prelude.{
  ◌<◌, ◌≡◌, refl, Bool, true, false, not, [], ◌∷◌, ◌++◌, length, nat_eq, contains, append_assoc,
  arith,
}
use m2c.Prelude.Text.{decimal_codes}
use m2c.Demangle.{
  Text, CxxName, plain_name, template_name, no_names, add_name, CxxTerm, simple, array, qualified,
  function, symbol_reference, Kind, const, pointer, reference, signed, unsigned, CxxType, no_terms,
  add_term, delimiters, peek_in, peek_number, at_end_or,
}
use m2c.Demangle.Mangle.{
  letter, prefixed, mangle_name, mangle_params, mangle_term, mangle_type, is_good_term,
  is_good_type,
}
use m2c.Demangle.Digits.{all_digits, decimal_codes-all_digits, length-decimal_codes}

-- The text has a first character, and it ends no list of types.
abbrev pub starts : Text → Bool
starts [] = false
starts (c ∷ s) = not (contains (b'_' ∷ delimiters) c)

pub starts-append : (s rest : Text) → starts s ≡ true → starts (s ++ rest) ≡ true
starts-append [] rest h = cc
starts-append (c ∷ s) rest h = h

pub length-starts : (s : Text) → starts s ≡ true → 0 < length s
length-starts [] h = cc
length-starts (c ∷ s) h = omega arith

pub starts-peek_in : (s rest : Text) → starts s ≡ true → peek_in delimiters (s ++ rest) ≡ false
starts-peek_in [] rest h = cc
starts-peek_in (c ∷ s) rest h = ground arith

pub starts-at_end_or :
    (s rest : Text) → starts s ≡ true → at_end_or (b'_' ∷ delimiters) (s ++ rest) ≡ false
starts-at_end_or [] rest h = cc
starts-at_end_or (c ∷ s) rest h = ground arith

digits_start :
    (s : Text)
    → 0 < length s
    → all_digits s ≡ true
    → (starts s ≡ true) × ((rest : Text) → peek_number (s ++ rest) ≡ true)
digits_start [] h d = absurd (omega arith)
digits_start (c ∷ s) h d = (ground arith, λ rest. ground arith)

prefixed_start :
    (body : Text)
    → (starts (prefixed body) ≡ true) × ((rest : Text) → peek_number (prefixed body ++ rest) ≡ true)
prefixed_start body =
    let (s, p) =
      digits_start (decimal_codes (length body)) (length-decimal_codes (length body))
        (decimal_codes-all_digits (length body)) in
    (
      starts-append (decimal_codes (length body)) body s,
      λ rest. rw (append_assoc (decimal_codes (length body)) body rest) (p (body ++ rest)),
    )

pub starts-mangle_name : (n : CxxName) → starts (mangle_name n) ≡ true
unfolding mangle_name
starts-mangle_name (plain_name name) = (prefixed_start name).0
starts-mangle_name (template_name base params) =
    (prefixed_start (base ++ (b'<' ∷ mangle_params params))).0

pub mangle_name-peek_number :
    (n : CxxName) (rest : Text) → peek_number (mangle_name n ++ rest) ≡ true
unfolding mangle_name
mangle_name-peek_number (plain_name name) rest = (prefixed_start name).1 rest
mangle_name-peek_number (template_name base params) rest =
    (prefixed_start (base ++ (b'<' ∷ mangle_params params))).1 rest

letter-starts : (k : Kind) → not (contains (b'_' ∷ delimiters) (letter k)) ≡ true
letter-starts const = refl
letter-starts pointer = refl
letter-starts reference = refl
letter-starts signed = refl
letter-starts unsigned = refl
letter-starts _ = refl

pub starts-mangle_term : (t : CxxTerm) → is_good_term t ≡ true → starts (mangle_term t) ≡ true
unfolding mangle_term is_good_term
starts-mangle_term (simple k) h = letter-starts k
starts-mangle_term (array n) h = refl
starts-mangle_term (qualified no_names) h = cc
starts-mangle_term (qualified (add_name n no_names)) h = starts-mangle_name n
starts-mangle_term (qualified (add_name n (add_name m names))) h = refl
starts-mangle_term (function params result) h = refl
starts-mangle_term (symbol_reference s) h = cc

pub starts-mangle_type : (t : CxxType) → is_good_type t ≡ true → starts (mangle_type t) ≡ true
unfolding mangle_type is_good_type
starts-mangle_type no_terms h = cc
starts-mangle_type (add_term t no_terms) h =
    starts-append (mangle_term t) [] (starts-mangle_term t (ground arith))
starts-mangle_type (add_term t (add_term u type)) h =
    starts-append (mangle_term t) (mangle_type (add_term u type))
      (starts-mangle_term t (ground arith))
