-- ===== src/Demangle/Printing.antt =====
-- What m2c/demangle_codewarrior.py's demangle returns.
use m2c.Prelude.{
  ℕ, ◌+◌, ◌*◌, ◌<◌, ◌≡◌, refl, ◌⊎◌, inl, inr, Bool, true, false, Option, none, some, List, [], ◌∷◌,
  length, Bool-cases, Option-cases,
}
use m2c.Prelude.Text.{codes}
use m2c.Demangle.{
  Text, CxxName, plain_name, template_name, CxxNames, no_names, add_name, CxxTerm, simple, array,
  qualified, function, symbol_reference, CxxReturn, no_return, returns, CxxType, no_terms, add_term,
  CxxTypes, no_types, add_type, CxxSymbol, symbol, Result, ok, value_error, other_error,
  out_of_fuel, ◌>>=◌,
}
use m2c.Demangle.Parse.{text_beq, parse}
use m2c.Demangle.Print.{
  operators, operator_of, fix_last, name_text, names_texts, term_text, return_text, terms_texts,
  types_texts, symbol_text, or_mangled, demangle,
}
use m2c.Demangle.Fits.{returns_some}
use m2c.Demangle.Total.{parse-returns_some}

-- No ValueError, and nothing that takes fuel.
abbrev pub prints : {A : Type 0} → Result A → Bool
prints (ok a) = true
prints other_error = true
prints _ = false

pub prints-bind :
    {A B : Type 0} (r : Result A) (next : A → Result B)
    → prints r ≡ true
    → ((a : A) → prints (next a) ≡ true)
    → prints (r >>= next) ≡ true
prints-bind (ok a) next h k = k a
prints-bind other_error next h k = refl
prints-bind value_error next h k = cc
prints-bind out_of_fuel next h k = cc

prints-fix_last : (before : Option Text) (ts : List Text) → prints (fix_last before ts) ≡ true
unfolding fix_last
prints-fix_last before [] = refl
prints-fix_last before (t ∷ u ∷ ts) =
    prints-bind (fix_last (some t) (u ∷ ts)) _ (prints-fix_last (some t) (u ∷ ts)) (λ rest. refl)
prints-fix_last before (t ∷ []) = elim (Option-cases (operator_of operators t)) [
  | inr (op, e) ↦ rw e refl
  | inl e ↦ elim (Bool-cases (text_beq t (codes "__ct"))) [
    | inl c ↦ rw (e, c) (names_class (λ name. name ∷ []) before)
    | inr c ↦ elim (Bool-cases (text_beq t (codes "__dt"))) [
      | inl d ↦ rw (e, c, d) (names_class (λ name. (b'~' ∷ name) ∷ []) before)
      | inr d ↦ rw (e, c, d) refl
    ]
  ]
]
  where
    names_class :
        (f : Text → List Text) (before : Option Text)
        → prints (elim before [ none ↦ other_error | some class_name ↦ ok (f class_name) ]) ≡ true
    names_class f none = refl
    names_class f (some c) = refl

mutual
  unfolding name_text names_texts term_text return_text terms_texts types_texts symbol_text

  prints-name_text : (n : CxxName) → prints (name_text n) ≡ true
  prints-name_text (plain_name name) = refl
  prints-name_text (template_name name params) =
      prints-bind (types_texts params) _ (prints-types_texts params) (λ texts. refl)

  prints-names_texts : (ns : CxxNames) → prints (names_texts ns) ≡ true
  prints-names_texts no_names = refl
  prints-names_texts (add_name n ns) =
      prints-bind (name_text n) _ (prints-name_text n)
        (λ t. prints-bind (names_texts ns) _ (prints-names_texts ns) (λ rest. refl))

  prints-term_text : (t : CxxTerm) → prints (term_text t) ≡ true
  prints-term_text (simple k) = refl
  prints-term_text (array n) = refl
  prints-term_text (qualified no_names) = refl
  prints-term_text (qualified (add_name n ns)) =
      prints-bind (name_text n) _ (prints-name_text n) (λ t.
        prints-bind (names_texts ns) _ (prints-names_texts ns) (λ rest.
          prints-bind (fix_last none (t ∷ rest)) _ (prints-fix_last none (t ∷ rest))
            (λ fixed. refl)))
  prints-term_text (function params result) =
      prints-bind (return_text result) _ (prints-return_text result)
        (λ prefix. prints-bind (types_texts params) _ (prints-types_texts params) (λ texts. refl))
  prints-term_text (symbol_reference s) =
      prints-bind (symbol_text s) _ (prints-symbol_text s) (λ t. refl)

  prints-return_text : (r : CxxReturn) → prints (return_text r) ≡ true
  prints-return_text no_return = refl
  prints-return_text (returns t) =
      prints-bind (terms_texts t) _ (prints-terms_texts t) (λ texts. refl)

  pub prints-terms_texts : (t : CxxType) → prints (terms_texts t) ≡ true
  prints-terms_texts no_terms = refl
  prints-terms_texts (add_term t ts) =
      prints-bind (term_text t) _ (prints-term_text t)
        (λ u. prints-bind (terms_texts ts) _ (prints-terms_texts ts) (λ rest. refl))

  prints-types_texts : (ts : CxxTypes) → prints (types_texts ts) ≡ true
  prints-types_texts no_types = refl
  prints-types_texts (add_type t ts) =
      prints-bind (terms_texts t) _ (prints-terms_texts t)
        (λ u. prints-bind (types_texts ts) _ (prints-types_texts ts) (λ rest. refl))

  prints-symbol_text : (s : CxxSymbol) → prints (symbol_text s) ≡ true
  prints-symbol_text (symbol name t) =
      prints-bind (term_text name) _ (prints-term_text name)
        (λ u. prints-bind (terms_texts t) _ (prints-terms_texts t) (λ texts. refl))

prints-or_mangled :
    (mangled : Text) (r : Result Text)
    → returns_some r ≡ true
    → prints (or_mangled mangled r) ≡ true
prints-or_mangled mangled (ok t) h = refl
prints-or_mangled mangled value_error h = refl
prints-or_mangled mangled other_error h = refl
prints-or_mangled mangled out_of_fuel h = h

returns_some-bind :
    {A B : Type 0} (r : Result A) (next : A → Result B)
    → returns_some r ≡ true
    → ((a : A) → prints (next a) ≡ true)
    → returns_some (r >>= next) ≡ true
returns_some-bind (ok a) next h k = some_prints (next a) (k a)
  where
    some_prints : {B : Type 0} (r : Result B) → prints r ≡ true → returns_some r ≡ true
    some_prints (ok b) h = refl
    some_prints other_error h = refl
    some_prints value_error h = refl
    some_prints out_of_fuel h = h
returns_some-bind value_error next h k = refl
returns_some-bind other_error next h k = refl
returns_some-bind out_of_fuel next h k = h

outcomes : (r : Result Text) → prints r ≡ true → ((text : Text) × (r ≡ ok text)) ⊎ (r ≡ other_error)
outcomes (ok text) h = inl (text, refl)
outcomes other_error h = inr refl
outcomes value_error h = cc
outcomes out_of_fuel h = cc

-- With fuel above eight units for each character and seven, demangle returns a text or raises an
-- exception that is no ValueError.
pub demangle-outcomes :
    (mangled : Text) (f : ℕ)
    → 8 * length mangled + 7 < f
    → ((text : Text) × (demangle f mangled ≡ ok text)) ⊎ (demangle f mangled ≡ other_error)
unfolding demangle
demangle-outcomes mangled f h = outcomes (demangle f mangled) (
    prints-or_mangled mangled (parse f mangled >>= symbol_text) (
      returns_some-bind (parse f mangled) symbol_text (parse-returns_some mangled f h)
        prints-symbol_text))
