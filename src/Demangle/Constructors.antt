-- ===== src/Demangle/Constructors.antt =====
-- Constructors and destructors in m2c/demangle_codewarrior.py: the last names "__ct" and "__dt" of a
-- qualified CxxTerm.
use m2c.Prelude.{
  ℕ, ◌+◌, ◌*◌, ◌<◌, ◌≡◌, refl, ◌∙◌, ap, Bool, true, false, [], ◌∷◌, ◌++◌, length, contains, nat_eq,
  if◌then◌else◌,
}
use m2c.Prelude.Text.{codes}
use m2c.Demangle.{
  Text, plain_name, no_names, add_name, qualified, CxxType, symbol, Result, ok, value_error,
  other_error, out_of_fuel, ◌>>=◌,
}
use m2c.Demangle.Print.{
  join, reverse_onto, strip, fix_last, name_text, names_texts, term_text, terms_texts, symbol_text,
  or_mangled, demangle,
}
use m2c.Demangle.Mangle.{is_ident, is_good_name, is_good_names, is_good_term, is_good_type}
use m2c.Demangle.Symbol.{mangle_signature, mangle_symbol}
use m2c.Demangle.SymbolRoundTrip.{is_good_owner, is_split_once, parse-mangle_symbol}
use m2c.Demangle.Printing.{prints, prints-bind, prints-terms_texts}

abbrev pub structor : Bool → Text
structor is_destructor = if is_destructor then codes "__dt" else codes "__ct"

structor-is_ident : (is_destructor : Bool) → is_ident (structor is_destructor) ≡ true
structor-is_ident true = refl
structor-is_ident false = refl

plain_owner :
    (class : Text)
    → is_ident class ≡ true
    → is_good_owner (add_name (plain_name class) no_names) ≡ true
unfolding is_good_term is_good_names is_good_name
plain_owner [] i = cc
plain_owner (c ∷ cs) i = rw i refl

or_mangled-prints : (mangled : Text) (r : Result Text) → prints r ≡ true → or_mangled mangled r ≡ r
or_mangled-prints mangled (ok t) h = refl
or_mangled-prints mangled other_error h = refl
or_mangled-prints mangled value_error h = cc
or_mangled-prints mangled out_of_fuel h = refl

member :
    (is_destructor : Bool) (class : Text) (type : CxxType)
    → symbol_text (
        symbol
          (qualified
            (add_name (plain_name class) (add_name (plain_name (structor is_destructor)) no_names)))
          type)
      ≡ (terms_texts type >>= λ texts. ok (
          (class ++ (codes "::" ++ (if is_destructor then b'~' ∷ class else class)))
          ++ (b' ' ∷ strip (join (codes " ") (reverse_onto texts [])))))
unfolding symbol_text term_text name_text names_texts fix_last join
member true class type = refl
member false class type = refl

-- A constructor comes out as its class, two colons and the class again, a destructor with a tilde
-- before the second one, and then the type, if the class is an identifier, the type has a text, the
-- mangled text has no escape and splits behind the name only, and the fuel is above eight units for
-- each character and eight.
pub demangle-structor :
    (is_destructor : Bool) (class : Text) (type : CxxType) (f : ℕ)
    → is_ident class ≡ true
    → is_good_type type ≡ true
    → is_split_once
        (structor is_destructor)
        (mangle_signature (add_name (plain_name class) no_names) type)
      ≡ true
    → contains
        (mangle_symbol (structor is_destructor) (add_name (plain_name class) no_names) type)
        b'$'
      ≡ false
    → 8
          * length
              (mangle_symbol (structor is_destructor) (add_name (plain_name class) no_names) type)
        + 8
      < f
    → demangle f
        (mangle_symbol (structor is_destructor) (add_name (plain_name class) no_names) type)
      ≡ (terms_texts type >>= λ texts. ok (
          (class ++ (codes "::" ++ (if is_destructor then b'~' ∷ class else class)))
          ++ (b' ' ∷ strip (join (codes " ") (reverse_onto texts [])))))
unfolding demangle
demangle-structor is_destructor class type f i h once plain b =
    ap
      (λ r.
        or_mangled
          (mangle_symbol (structor is_destructor) (add_name (plain_name class) no_names) type)
          (r >>= symbol_text))
      (parse-mangle_symbol (structor is_destructor) (add_name (plain_name class) no_names) type f
        (structor-is_ident is_destructor) (plain_owner class i) h once plain b)
    ∙ ap
        (or_mangled
          (mangle_symbol (structor is_destructor) (add_name (plain_name class) no_names) type))
        (member is_destructor class type)
    ∙ or_mangled-prints
        (mangle_symbol (structor is_destructor) (add_name (plain_name class) no_names) type) _
        (prints-bind (terms_texts type) _ (prints-terms_texts type) (λ texts. refl))
