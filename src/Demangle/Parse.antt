-- ===== src/Demangle/Parse.antt =====
-- m2c/demangle_codewarrior.py: the parsers of CxxName, CxxTerm, CxxType and CxxSymbol, and parse.
use m2c.Prelude.{
  ℕ, zero, suc, ◌+◌, ◌-◌, ◌*◌, Bool, true, false, ◌&&◌, ◌||◌, none, some, [], ◌∷◌, ◌++◌, length,
  nat_eq, nat_beq, contains, if◌then◌else◌,
}
use m2c.Prelude.Dict.{lookup}
use m2c.Prelude.Int.{ℤ, pos, negsuc, pos_part}
use m2c.Prelude.Text.{is_digit_code, codes, decimal_codes}
use m2c.Demangle.{
  Text, kind_letters, CxxName, plain_name, template_name, CxxNames, no_names, add_name, CxxTerm,
  simple, array, qualified, function, symbol_reference, CxxReturn, no_return, returns, CxxType,
  no_terms, add_term, CxxTypes, no_types, add_type, CxxSymbol, symbol, Result, ok, value_error,
  other_error, out_of_fuel, ◌>>=◌, read_char, read_exact, peek_in, peek_number, at_end_or,
  delimiters, read_number, int_of, is_nonterminating,
}

-- `name.partition("<")`: what stands before and behind the first "<".
unfoldable pub partition : Text → Text × Text
partition [] = ([], [])
partition (c ∷ cs) =
    let rest = partition cs in if nat_beq c b'<' then ([], cs) else (c ∷ rest.0, rest.1)

-- `name[-1]`, of a name that is not empty.
abbrev pub ends_in : ℕ → Text → Bool
ends_in c [] = false
ends_in c (d ∷ []) = nat_beq d c
ends_in c (d ∷ e ∷ cs) = ends_in c (e ∷ cs)

-- The end of as_stringio: the buffer has to be read whole.
unfoldable pub all_read : {A : Type 0} → A × Text → Result A
all_read (a, []) = ok a
all_read (a, _ ∷ _) = value_error

abbrev pub text_beq : Text → Text → Bool
text_beq [] [] = true
text_beq (a ∷ s) (b ∷ t) = nat_beq a b && text_beq s t
text_beq _ _ = false

-- `text in STATIC_FUNCTIONS`.
abbrev pub is_static : Text → Bool
is_static s = text_beq s (codes "__sinit") || text_beq s (codes "__sterm")

-- `len(lookahead) < 2 or lookahead[1] in "CFQ0123456789"`, for the lookahead behind an underscore.
abbrev pub may_split : Text → Bool
may_split [] = true
may_split (_ ∷ []) = true
may_split (_ ∷ c ∷ _) = is_digit_code c || contains (b'C' ∷ b'F' ∷ b'Q' ∷ []) c

abbrev pub new_depth : ℕ → ℕ → ℕ
new_depth c depth =
    if nat_beq c b'<' then depth + 1 else if nat_beq c b'>' then depth - 1 else depth

-- A "__" starts at this underscore, and `base_name` may end before it.
abbrev pub is_split : ℕ → Text → Bool
is_split c src = nat_beq c b'_' && (peek_in (b'_' ∷ []) src && may_split src)

-- The loop of CxxSymbol.parse over the input: the state is `chars`, `template_depth`, `base_name` and
-- `strip_underscores`, of which the last two are the result.
unfoldable pub find_base : Text → Text → ℕ → Text → ℕ → Text × ℕ
find_base [] chars depth base strip = (base, strip)
find_base (c ∷ src) chars depth base strip =
    let more =
      find_base src (chars ++ c ∷ []) (new_depth c depth) (if is_split c src then chars else base)
        (if is_split c src then 2 else strip) in
    if contains delimiters c && nat_beq depth 0
    then (if nat_beq strip 0 then chars else base, strip)
    else if is_static (chars ++ c ∷ [])
    then (chars ++ c ∷ [], 1)
    else more

-- The class name that stands before the type of a symbol has to be one qualified term.
abbrev pub class_names : CxxType → Result CxxNames
class_names (add_term (qualified names) no_terms) = ok names
class_names _ = other_error

abbrev pub append_name : CxxNames → CxxName → CxxNames
append_name no_names n = add_name n no_names
append_name (add_name m names) n = add_name m (append_name names n)

-- A call takes a unit of fuel; a loop is a call for each round.
unfoldable mutual
  pub parse_name : ℕ → Text → Result (CxxName × Text)
  parse_name zero src = out_of_fuel
  parse_name (suc f) src = parse_number f (read_number src).0 (read_number src).1

  -- The rest of CxxName.parse, with `number_str` and what follows it.
  pub parse_number : ℕ → Text → Text → Result (CxxName × Text)
  parse_number zero number_str src = out_of_fuel
  parse_number (suc f) [] src = value_error
  parse_number (suc f) (c ∷ cs) src = int_of (c ∷ cs) >>= λ number. elim (peek_in delimiters src) [
    | true ↦ ok (plain_name (c ∷ cs), src)
    | false ↦ read_counted f number src
  ]

  -- A length has to be positive.
  pub read_counted : ℕ → ℤ → Text → Result (CxxName × Text)
  read_counted zero number src = out_of_fuel
  read_counted (suc f) (negsuc n) src = value_error
  read_counted (suc f) (pos zero) src = value_error
  read_counted (suc f) (pos (suc n)) src =
      read_exact src (suc n) >>= λ read. parse_template f (read.0) (read.1)

  -- The rest of CxxName.parse, with the name and what follows it.
  pub parse_template : ℕ → Text → Text → Result (CxxName × Text)
  parse_template zero name src = out_of_fuel
  parse_template (suc f) name src = elim (contains name b'<') [
    | false ↦ ok (plain_name name, src)
    | true ↦ elim (ends_in b'>' name) [
      | false ↦ value_error
      | true ↦ parse_params f (partition name).1 >>= λ read.
          all_read read >>= λ params. ok (template_name (partition name).0 params, src)
    ]
  ]

  pub parse_params : ℕ → Text → Result (CxxTypes × Text)
  parse_params zero src = out_of_fuel
  parse_params (suc f) src = parse_type f src >>= λ first. after_param f (first.0) (first.1)

  -- What follows a parameter: the bracket that closes the list, or a comma and more.
  pub after_param : ℕ → CxxType → Text → Result (CxxTypes × Text)
  after_param zero type src = out_of_fuel
  after_param (suc f) type [] = value_error
  after_param (suc f) type (sep ∷ src) = elim (nat_beq sep b'>') [
    | true ↦ ok (add_type type no_types, src)
    | false ↦ elim (nat_beq sep b',') [
      | true ↦ parse_params f src >>= λ more. ok (add_type type (more.0), more.1)
      | false ↦ value_error
    ]
  ]

  pub parse_names : ℕ → ℕ → Text → Result (CxxNames × Text)
  parse_names zero count src = out_of_fuel
  parse_names (suc f) zero src = ok (no_names, src)
  parse_names (suc f) (suc count) src = parse_name f src >>= λ first.
      parse_names f count (first.1) >>= λ more. ok (add_name (first.0) (more.0), more.1)

  -- The loop that reads the dimension.
  pub parse_dim : ℕ → ℕ → Text → Result (ℕ × Text)
  parse_dim zero dim src = out_of_fuel
  parse_dim (suc f) dim [] = value_error
  parse_dim (suc f) dim (c ∷ src) = elim (nat_beq c b'_') [
    | true ↦ ok (dim, src)
    | false ↦ elim (is_digit_code c) [
      | true ↦ parse_dim f (dim * 10 + (c - b'0')) src
      | false ↦ value_error
    ]
  ]

  pub parse_function_params : ℕ → Text → Result (CxxTypes × Text)
  parse_function_params zero src = out_of_fuel
  parse_function_params (suc f) src = elim (at_end_or (b'_' ∷ delimiters) src) [
    | true ↦ ok (no_types, src)
    | false ↦ parse_type f src >>= λ first.
        parse_function_params f (first.1) >>= λ more. ok (add_type (first.0) (more.0), more.1)
  ]

  pub parse_return : ℕ → Text → Result (CxxReturn × Text)
  parse_return zero src = out_of_fuel
  parse_return (suc f) [] = ok (no_return, [])
  parse_return (suc f) (c ∷ src) = elim (nat_beq c b'_') [
    | true ↦ parse_type f src >>= λ read. ok (returns (read.0), read.1)
    | false ↦ ok (no_return, c ∷ src)
  ]

  -- The rest of CxxTerm.parse, with the letter that was read.
  pub parse_kind : ℕ → ℕ → Text → Result (CxxTerm × Text)
  parse_kind zero letter src = out_of_fuel
  parse_kind (suc f) letter src = elim (nat_beq letter b'Q') [
    | true ↦ read_char src >>= λ c. int_of (c.0 ∷ []) >>= λ count.
        parse_names f (pos_part count) (c.1) >>= λ names. ok (qualified (names.0), names.1)
    | false ↦ elim (nat_beq letter b'F') [
      | true ↦ parse_function_params f src >>= λ params.
          parse_return f (params.1) >>= λ result. ok (function (params.0) (result.0), result.1)
      | false ↦ elim (nat_beq letter b'A') [
        | true ↦ parse_dim f 0 src >>= λ dim. ok (array (dim.0), dim.1)
        | false ↦ elim (nat_beq letter b'&') [
          | true ↦ parse_symbol f src >>= λ sym. ok (symbol_reference (sym.0), sym.1)
          | false ↦ elim (lookup letter kind_letters) [
            | none ↦ value_error
            | some kind ↦ ok (simple kind, src)
          ]
        ]
      ]
    ]
  ]

  pub parse_term : ℕ → Text → Result (CxxTerm × Text)
  parse_term zero src = out_of_fuel
  parse_term (suc f) src = elim (peek_number src) [
    | true ↦ parse_name f src >>= λ n. ok (qualified (add_name (n.0) no_names), n.1)
    | false ↦ read_char src >>= λ c. parse_kind f (c.0) (c.1)
  ]

  pub parse_type : ℕ → Text → Result (CxxType × Text)
  parse_type zero src = out_of_fuel
  parse_type (suc f) src = elim (peek_in delimiters src) [
    | true ↦ ok (no_terms, src)
    | false ↦ parse_term f src >>= λ first. after_term f (first.0) (first.1)
  ]

  -- A term that is not terminating has more behind it.
  pub after_term : ℕ → CxxTerm → Text → Result (CxxType × Text)
  after_term zero term src = out_of_fuel
  after_term (suc f) term src = elim (is_nonterminating term) [
    | false ↦ ok (add_term term no_terms, src)
    | true ↦ parse_type f src >>= λ more. ok (add_term term (more.0), more.1)
  ]

  pub parse_symbol : ℕ → Text → Result (CxxSymbol × Text)
  parse_symbol zero src = out_of_fuel
  parse_symbol (suc f) src =
      parse_split f (find_base src [] 0 src 0).0 (find_base src [] 0 src 0).1 src

  -- The rest of CxxSymbol.parse, with `base_name` and `strip_underscores`.
  pub parse_split : ℕ → Text → ℕ → Text → Result (CxxSymbol × Text)
  parse_split zero base strip src = out_of_fuel
  parse_split (suc f) base strip src = read_exact src (length base + strip) >>= λ read.
      elim (is_static base) [
        | true ↦ parse_static f base (read.1)
        | false ↦ parse_signature f base (read.1)
      ]

  -- A static function has a fixed type, and what follows is its file.
  pub parse_static : ℕ → Text → Text → Result (CxxSymbol × Text)
  parse_static zero base src = out_of_fuel
  parse_static (suc f) base src = parse_type f (codes "Fv_v") >>= λ read. all_read read >>= λ type.
      ok (
        symbol (qualified (add_name (plain_name src) (add_name (plain_name base) no_names))) type,
        [],
      )

  -- The rest of CxxSymbol.parse, with `base_name` and what follows the underscores.
  pub parse_signature : ℕ → Text → Text → Result (CxxSymbol × Text)
  parse_signature zero base src = out_of_fuel
  parse_signature (suc f) base src =
      parse_type f src >>= λ class. parse_qualified f base (class.0) (class.1)

  -- The rest of CxxSymbol.parse, with the first type, which is the symbol's if nothing follows it.
  pub parse_qualified : ℕ → Text → CxxType → Text → Result (CxxSymbol × Text)
  parse_qualified zero base class src = out_of_fuel
  parse_qualified (suc f) base class src = elim (at_end_or delimiters src) [
    | true ↦
        parse_base f base >>= λ name. ok (symbol (qualified (add_name name no_names)) class, src)
    | false ↦ parse_type f src >>= λ type. class_names class >>= λ names.
        parse_base f base >>= λ name.
        ok (symbol (qualified (append_name names name)) (type.0), type.1)
  ]

  -- `CxxName.parse` on the base name behind its length.
  pub parse_base : ℕ → Text → Result CxxName
  parse_base zero base = out_of_fuel
  parse_base (suc f) base = parse_name f (decimal_codes (length base) ++ base) >>= all_read

-- `mangled.replace(new, old)` for a `new` of three characters.
unfoldable pub replace : ℕ → ℕ → ℕ → ℕ → Text → Text
replace p q r old (a ∷ b ∷ c ∷ s) =
    let found = replace p q r old s in
    let kept = replace p q r old (b ∷ c ∷ s) in
    if nat_beq a p && (nat_beq b q && nat_beq c r) then old ∷ found else a ∷ kept
replace p q r old s = s

-- The loop over DOLDISASM_SUBSTITUTIONS.
unfoldable pub undo_substitutions : Text → Text
undo_substitutions s = replace b'$' b'$' b'5' b'-' (
    replace b'$' b'$' b'4' b',' (
      replace b'$' b'$' b'3' 0x5c (
        replace b'$' b'$' b'2' b'@' (replace b'$' b'$' b'1' b'>' (replace b'$' b'$' b'0' b'<' s)))))

unfoldable pub parse : ℕ → Text → Result CxxSymbol
parse fuel mangled = parse_symbol fuel (undo_substitutions mangled) >>= all_read
