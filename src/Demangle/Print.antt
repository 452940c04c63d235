-- ===== src/Demangle/Print.antt =====
-- m2c/demangle_codewarrior.py: the `__str__` methods, and demangle.
use m2c.Prelude.{
  ℕ, Bool, true, false, ◌&&◌, ◌||◌, Option, none, some, List, [], ◌∷◌, ◌++◌, nat_eq, nat_beq, leb,
  if◌then◌else◌,
}
use m2c.Prelude.Text.{codes, decimal_codes}
use m2c.Demangle.{
  Text, Kind, const, pointer, reference, signed, unsigned, ellipsis, void, bool, char, short, int,
  long, long_long, wide_char, float, double, long_double, CxxName, plain_name, template_name,
  CxxNames, no_names, add_name, CxxTerm, simple, array, qualified, function, symbol_reference,
  CxxReturn, no_return, returns, CxxType, no_terms, add_term, CxxTypes, no_types, add_type,
  CxxSymbol, symbol, Result, ok, value_error, other_error, ◌>>=◌,
}
use m2c.Demangle.Parse.{text_beq, parse}

abbrev pub kind_text : Kind → Text
kind_text const = codes "const"
kind_text pointer = codes "*"
kind_text reference = codes "&"
kind_text signed = codes "signed"
kind_text unsigned = codes "unsigned"
kind_text ellipsis = codes "..."
kind_text void = codes "void"
kind_text bool = codes "bool"
kind_text char = codes "char"
kind_text short = codes "short"
kind_text int = codes "int"
kind_text long = codes "long"
kind_text long_long = codes "long long"
kind_text wide_char = codes "wchar_t"
kind_text float = codes "float"
kind_text double = codes "double"
kind_text long_double = codes "long double"

-- OPS.
abbrev pub operators : List (Text × Text)
operators =
    (codes "__nw", codes " new")
    ∷ (codes "__nwa", codes " new[]")
    ∷ (codes "__dl", codes " delete")
    ∷ (codes "__dla", codes " delete[]")
    ∷ (codes "__pl", codes "+")
    ∷ (codes "__mi", codes "-")
    ∷ (codes "__ml", codes "*")
    ∷ (codes "__dv", codes "/")
    ∷ (codes "__md", codes "%")
    ∷ (codes "__er", codes "^")
    ∷ (codes "__adv", codes "/=")
    ∷ (codes "__ad", codes "&")
    ∷ (codes "__or", codes "|")
    ∷ (codes "__co", codes "~")
    ∷ (codes "__nt", codes "!")
    ∷ (codes "__as", codes "=")
    ∷ (codes "__lt", codes "<")
    ∷ (codes "__gt", codes ">")
    ∷ (codes "__apl", codes "+=")
    ∷ (codes "__ami", codes "-=")
    ∷ (codes "__amu", codes "*=")
    ∷ (codes "__amd", codes "%=")
    ∷ (codes "__aer", codes "^=")
    ∷ (codes "__aad", codes "&=")
    ∷ (codes "__aor", codes "|=")
    ∷ (codes "__ls", codes "<<")
    ∷ (codes "__rs", codes ">>")
    ∷ (codes "__ars", codes ">>=")
    ∷ (codes "__als", codes "<<=")
    ∷ (codes "__eq", codes "==")
    ∷ (codes "__ne", codes "!=")
    ∷ (codes "__le", codes "<=")
    ∷ (codes "__ge", codes ">=")
    ∷ (codes "__aa", codes "&&")
    ∷ (codes "__oo", codes "||")
    ∷ (codes "__pp", codes "++")
    ∷ (codes "__mm", codes "--")
    ∷ (codes "__cl", codes "()")
    ∷ (codes "__vc", codes "[]")
    ∷ (codes "__rf", codes "->")
    ∷ (codes "__cm", codes ",")
    ∷ (codes "__rm", codes "->*")
    ∷ []

abbrev pub operator_of : List (Text × Text) → Text → Option Text
operator_of [] name = none
operator_of ((key, op) ∷ rest) name = if text_beq key name then some op else operator_of rest name

-- `sep.join(texts)`.
unfoldable pub join : Text → List Text → Text
join sep [] = []
join sep (t ∷ []) = t
join sep (t ∷ u ∷ ts) = t ++ (sep ++ join sep (u ∷ ts))

abbrev pub reverse_onto : List Text → List Text → List Text
reverse_onto [] done = done
reverse_onto (t ∷ ts) done = reverse_onto ts (t ∷ done)

-- The last names of a qualified name, of which the last may stand for an operator, a constructor or a
-- destructor. The first argument is the name before, where there is one.
unfoldable pub fix_last : Option Text → List Text → Result (List Text)
fix_last before [] = ok []
fix_last before (t ∷ u ∷ ts) = fix_last (some t) (u ∷ ts) >>= λ rest. ok (t ∷ rest)
fix_last before (t ∷ []) = elim (operator_of operators t) [
  | some op ↦ ok ((codes "operator" ++ op) ∷ [])
  | none ↦ elim (text_beq t (codes "__ct")) [
    | true ↦ elim before [ none ↦ other_error | some class_name ↦ ok (class_name ∷ []) ]
    | false ↦ elim (text_beq t (codes "__dt")) [
      | true ↦ elim before [ none ↦ other_error | some class_name ↦ ok ((b'~' ∷ class_name) ∷ []) ]
      | false ↦ ok (t ∷ [])
    ]
  ]
]

-- Whitespace in ASCII, for `strip`.
abbrev pub is_space : ℕ → Bool
is_space c = nat_beq c b' ' || (leb 9 c && leb c 13) || (leb 28 c && leb c 31)

abbrev pub strip_left : Text → Text
strip_left [] = []
strip_left (c ∷ s) = let rest = strip_left s in if is_space c then rest else c ∷ s

abbrev pub strip_right : Text → Text
strip_right [] = []
strip_right (c ∷ s) = elim (strip_right s) [
  | [] ↦ if is_space c then [] else c ∷ []
  | d ∷ rest ↦ c ∷ d ∷ rest
]

unfoldable pub strip : Text → Text
strip s = strip_right (strip_left s)

unfoldable mutual
  pub name_text : CxxName → Result Text
  name_text (plain_name name) = ok name
  name_text (template_name name params) =
      types_texts params >>= λ texts. ok (name ++ (b'<' ∷ (join (codes ", ") texts ++ b'>' ∷ [])))

  pub names_texts : CxxNames → Result (List Text)
  names_texts no_names = ok []
  names_texts (add_name n names) = name_text n >>= λ t. names_texts names >>= λ rest. ok (t ∷ rest)

  -- `names[-1]` fails on an empty list, which IndexError is no ValueError either.
  pub term_text : CxxTerm → Result Text
  term_text (simple k) = ok (kind_text k)
  term_text (array n) = ok (b'[' ∷ (decimal_codes n ++ b']' ∷ []))
  term_text (qualified no_names) = other_error
  term_text (qualified (add_name n names)) = name_text n >>= λ t. names_texts names >>= λ rest.
      fix_last none (t ∷ rest) >>= λ fixed. ok (join (codes "::") fixed)
  term_text (function params result) = return_text result >>= λ prefix.
      types_texts params >>= λ texts. ok (prefix ++ (b'(' ∷ (join (codes ", ") texts ++ b')' ∷ [])))
  term_text (symbol_reference s) = symbol_text s >>= λ t. ok (b'&' ∷ t)

  pub return_text : CxxReturn → Result Text
  return_text no_return = ok []
  return_text (returns type) = terms_texts type >>= λ texts.
      ok (strip (join (codes " ") (reverse_onto texts [])) ++ codes " (*) ")

  -- The texts of the terms, first to last.
  pub terms_texts : CxxType → Result (List Text)
  terms_texts no_terms = ok []
  terms_texts (add_term term type) =
      term_text term >>= λ t. terms_texts type >>= λ rest. ok (t ∷ rest)

  pub types_texts : CxxTypes → Result (List Text)
  types_texts no_types = ok []
  types_texts (add_type type types) = terms_texts type >>= λ texts.
      types_texts types >>= λ rest. ok (strip (join (codes " ") (reverse_onto texts [])) ∷ rest)

  pub symbol_text : CxxSymbol → Result Text
  symbol_text (symbol name type) = term_text name >>= λ t. terms_texts type >>= λ texts.
      ok (t ++ (b' ' ∷ strip (join (codes " ") (reverse_onto texts []))))

-- A ValueError from `parse` or from printing gives the mangled text back.
abbrev pub or_mangled : Text → Result Text → Result Text
or_mangled mangled value_error = ok mangled
or_mangled mangled other = other

unfoldable pub demangle : ℕ → Text → Result Text
demangle fuel mangled = or_mangled mangled (parse fuel mangled >>= symbol_text)
