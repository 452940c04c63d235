-- ===== src/Examples/Demangle.antt =====
-- The test cases of m2c/demangle_codewarrior.py, and the theorems on mangled names.
use m2c.Prelude.{
  ◌+◌, ◌*◌, ◌<◌, ◌≡◌, refl, ◌⊎◌, ◌++◌, true, false, [], ◌∷◌, length, ltb→lt, contains, nat_eq,
}
use m2c.Prelude.Dict.{lookup}
use m2c.Prelude.Text.{codes, decimal_codes, decimal_codes_up_to}
use m2c.Demangle.{
  Text, const, pointer, reference, char, int, plain_name, template_name, CxxNames, no_names,
  add_name, simple, array, qualified, function, returns, CxxType, no_terms, add_term, no_types,
  add_type, symbol, ok, other_error, read_exact, read_number, int_digits, int_of, ◌>>=◌,
}
use m2c.Demangle.Parse.{
  partition, all_read, find_base, parse_type, parse_symbol, replace, undo_substitutions, parse,
  append_name,
}
use m2c.Demangle.Print.{join, strip, reverse_onto, fix_last, symbol_text, terms_texts, demangle}
use m2c.Demangle.Mangle.{mangle_type, is_open, is_good_type}
use m2c.Demangle.Symbol.{mangle_signature, mangle_symbol}
use m2c.Demangle.RoundTrip.{parse_type-mangle_type}
use m2c.Demangle.SymbolRoundTrip.{is_good_owner, is_split_once, parse-mangle_symbol}
use m2c.Demangle.Cases.{test_cases, is_output, all_pass}
use m2c.Demangle.Printing.{demangle-outcomes}
use m2c.Demangle.Constructors.{structor, demangle-structor}

test_cases_pass : all_pass test_cases ≡ true
unfolding all_pass is_output lookup decimal_codes decimal_codes_up_to read_exact read_number
    int_digits int_of demangle parse parse_symbol undo_substitutions replace find_base all_read
    symbol_text fix_last join strip partition
test_cases_pass = refl

-- A function that takes a template by reference and an array of pointers.
abbrev callback : CxxType
callback =
    add_term
      (function
        (add_type
          (add_term (simple reference) (
            add_term (simple const) (
              add_term
                (qualified (
                  add_name
                    (template_name (codes "Vec")
                      (add_type (add_term (simple int) no_terms) no_types))
                    no_names))
                no_terms)))
          (add_type
            (add_term (array 12) (add_term (simple pointer) (add_term (simple char) no_terms)))
            no_types))
        (returns (add_term (simple int) no_terms)))
      no_terms

mangled_callback : mangle_type callback ≡ codes "FRC6Vec<i>A12_Pc_i"
unfolding decimal_codes decimal_codes_up_to mangle_type
mangled_callback = refl

callback-IsGood : is_good_type callback ≡ true
unfolding is_good_type is_open
callback-IsGood = refl

callback_short : 8 * length (mangle_type callback) + 6 < 200
unfolding decimal_codes decimal_codes_up_to mangle_type
callback_short = ltb→lt (8 * length (mangle_type callback) + 6) 200 refl

parse_type-mangle_type_example :
    parse_type 200 (mangle_type callback ++ codes ",i") ≡ ok (callback, codes ",i")
parse_type-mangle_type_example =
    parse_type-mangle_type callback (codes ",i") 200 callback-IsGood (unfold is_open in refl)
      callback_short

abbrev owner : CxxNames
owner = add_name (plain_name (codes "Foo")) no_names

-- The symbol run__3Foo with the type of callback.
run_splits : is_split_once (codes "run") (mangle_signature owner callback) ≡ true
unfolding decimal_codes decimal_codes_up_to mangle_type
run_splits = refl

run_plain : contains (mangle_symbol (codes "run") owner callback) b'$' ≡ false
unfolding decimal_codes decimal_codes_up_to mangle_type
run_plain = refl

run_short : 8 * length (mangle_symbol (codes "run") owner callback) + 8 < 300
unfolding decimal_codes decimal_codes_up_to mangle_type
run_short = ltb→lt (8 * length (mangle_symbol (codes "run") owner callback) + 8) 300 refl

owner-IsGood : is_good_owner owner ≡ true
unfolding is_good_type is_open
owner-IsGood = refl

parse-mangle_symbol_example :
    parse 300 (mangle_symbol (codes "run") owner callback)
    ≡ ok (symbol (qualified (append_name owner (plain_name (codes "run")))) callback)
parse-mangle_symbol_example =
    parse-mangle_symbol (codes "run") owner callback 300 refl owner-IsGood callback-IsGood
      run_splits run_plain run_short

demangle-outcomes_example :
    ((text : Text) × (demangle 100 (codes "foo__Ul") ≡ ok text))
    ⊎ (demangle 100 (codes "foo__Ul") ≡ other_error)
demangle-outcomes_example = demangle-outcomes (codes "foo__Ul") 100 (ltb→lt 63 100 refl)

structor_splits : is_split_once (structor true) (mangle_signature owner callback) ≡ true
unfolding decimal_codes decimal_codes_up_to mangle_type
structor_splits = refl

structor_plain : contains (mangle_symbol (structor true) owner callback) b'$' ≡ false
unfolding decimal_codes decimal_codes_up_to mangle_type
structor_plain = refl

structor_short : 8 * length (mangle_symbol (structor true) owner callback) + 8 < 300
unfolding decimal_codes decimal_codes_up_to mangle_type
structor_short = ltb→lt (8 * length (mangle_symbol (structor true) owner callback) + 8) 300 refl

demangle-structor_example : demangle 300 (mangle_symbol (structor true) owner callback) ≡ (
    terms_texts callback >>= λ texts. ok (
      (codes "Foo" ++ (codes "::" ++ codes "~Foo"))
      ++ (b' ' ∷ strip (join (codes " ") (reverse_onto texts [])))))
demangle-structor_example =
    demangle-structor true (codes "Foo") callback 300 refl callback-IsGood structor_splits
      structor_plain structor_short
