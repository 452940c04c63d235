-- ===== src/Demangle/Mangle.antt =====
-- The mangling scheme that m2c/demangle_codewarrior.py reads, written as a printer: what a type looks
-- like in a symbol, and which types have such a text.
use m2c.Prelude.{
  ℕ, suc, ◌+◌, Bool, true, false, not, ◌&&◌, [], ◌∷◌, ◌++◌, length, nat_eq, ltb, contains,
}
use m2c.Prelude.Text.{decimal_codes}
use m2c.Demangle.{
  Text, Kind, const, pointer, reference, signed, unsigned, ellipsis, void, bool, char, short, int,
  long, long_long, wide_char, float, double, long_double, CxxName, plain_name, template_name,
  CxxNames, no_names, add_name, CxxTerm, simple, array, qualified, function, symbol_reference,
  CxxReturn, no_return, returns, CxxType, no_terms, add_term, CxxTypes, no_types, add_type,
  delimiters, is_number_char, is_nonterminating,
}

abbrev pub letter : Kind → ℕ
letter const = b'C'
letter pointer = b'P'
letter reference = b'R'
letter signed = b'S'
letter unsigned = b'U'
letter ellipsis = b'e'
letter void = b'v'
letter bool = b'b'
letter char = b'c'
letter short = b's'
letter int = b'i'
letter long = b'l'
letter long_long = b'x'
letter wide_char = b'w'
letter float = b'f'
letter double = b'd'
letter long_double = b'r'

abbrev pub count : CxxNames → ℕ
count no_names = 0
count (add_name n names) = suc (count names)

-- A name behind its length.
abbrev pub prefixed : Text → Text
prefixed body = decimal_codes (length body) ++ body

unfoldable mutual
  pub mangle_name : CxxName → Text
  mangle_name (plain_name name) = prefixed name
  mangle_name (template_name base params) = prefixed (base ++ (b'<' ∷ mangle_params params))

  -- The parameters with the bracket that closes them.
  pub mangle_params : CxxTypes → Text
  mangle_params no_types = []
  mangle_params (add_type type no_types) = mangle_type type ++ b'>' ∷ []
  mangle_params (add_type type (add_type next types)) =
      mangle_type type ++ (b',' ∷ mangle_params (add_type next types))

  pub mangle_names : CxxNames → Text
  mangle_names no_names = []
  mangle_names (add_name n names) = mangle_name n ++ mangle_names names

  -- A single name needs no Q; references to symbols are not printed.
  pub mangle_term : CxxTerm → Text
  mangle_term (simple k) = letter k ∷ []
  mangle_term (array n) = b'A' ∷ (decimal_codes n ++ b'_' ∷ [])
  mangle_term (qualified no_names) = []
  mangle_term (qualified (add_name n no_names)) = mangle_name n
  mangle_term (qualified (add_name n (add_name m names))) =
      b'Q' ∷ (b'0' + suc (suc (count names))) ∷ mangle_names (add_name n (add_name m names))
  mangle_term (function params result) = b'F' ∷ (mangle_types params ++ mangle_return result)
  mangle_term (symbol_reference s) = []

  pub mangle_return : CxxReturn → Text
  mangle_return no_return = []
  mangle_return (returns type) = b'_' ∷ mangle_type type

  pub mangle_type : CxxType → Text
  mangle_type no_terms = []
  mangle_type (add_term t type) = mangle_term t ++ mangle_type type

  pub mangle_types : CxxTypes → Text
  mangle_types no_types = []
  mangle_types (add_type type types) = mangle_type type ++ mangle_types types

-- The last term is a function without a return type, or with one that ends so: what follows must end
-- the list of its parameters.
unfoldable mutual
  pub is_open : CxxType → Bool
  is_open no_terms = false
  is_open (add_term t no_terms) = is_open_term t
  is_open (add_term t (add_term u type)) = is_open (add_term u type)

  pub is_open_term : CxxTerm → Bool
  is_open_term (simple k) = false
  is_open_term (array n) = false
  is_open_term (qualified names) = false
  is_open_term (function params result) = is_open_return result
  is_open_term (symbol_reference s) = false

  pub is_open_return : CxxReturn → Bool
  is_open_return no_return = true
  is_open_return (returns type) = is_open type

-- A name does not start like a number or end a parameter, and has no bracket.
abbrev pub is_base : Text → Bool
is_base [] = true
is_base (c ∷ cs) =
    not (is_number_char c) && (not (contains delimiters c) && not (contains (c ∷ cs) b'<'))

abbrev pub is_ident : Text → Bool
is_ident [] = false
is_ident (c ∷ cs) = is_base (c ∷ cs)

unfoldable mutual
  pub is_good_name : CxxName → Bool
  is_good_name (plain_name name) = is_ident name
  is_good_name (template_name base params) = is_base base && is_good_params params

  -- The parameters of a template.
  pub is_good_params : CxxTypes → Bool
  is_good_params no_types = false
  is_good_params (add_type type no_types) = is_good_type type
  is_good_params (add_type type (add_type next types)) =
      is_good_type type && is_good_params (add_type next types)

  pub is_good_names : CxxNames → Bool
  is_good_names no_names = true
  is_good_names (add_name n names) = is_good_name n && is_good_names names

  pub is_good_term : CxxTerm → Bool
  is_good_term (simple k) = true
  is_good_term (array n) = true
  is_good_term (qualified names) =
      ltb 0 (count names) && (ltb (count names) 10 && is_good_names names)
  is_good_term (function params result) = is_good_types params && is_good_return result
  is_good_term (symbol_reference s) = false

  pub is_good_return : CxxReturn → Bool
  is_good_return no_return = true
  is_good_return (returns type) = is_good_type type

  pub is_good_type : CxxType → Bool
  is_good_type no_terms = false
  is_good_type (add_term t no_terms) = is_good_term t && not (is_nonterminating t)
  is_good_type (add_term t (add_term u type)) =
      is_good_term t && (is_nonterminating t && is_good_type (add_term u type))

  -- The parameters of a function.
  pub is_good_types : CxxTypes → Bool
  is_good_types no_types = true
  is_good_types (add_type type types) =
      is_good_type type && (not (is_open type) && is_good_types types)
