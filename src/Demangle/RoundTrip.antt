-- ===== src/Demangle/RoundTrip.antt =====
-- What is mangled parses back.
use m2c.Prelude.{
  ℕ, zero, suc, ◌+◌, ◌*◌, ◌<◌, ◌≡◌, true, not, ◌&&◌, ◌||◌, [], ◌∷◌, ◌++◌, length, nat_eq, ltb,
  length-append, and-eq_true, not-eq_true, ltb→lt, arith,
}
use m2c.Prelude.Text.{decimal_codes}
use m2c.Demangle.{
  Text, CxxName, plain_name, template_name, CxxNames, no_names, add_name, CxxTerm, simple, array,
  qualified, function, symbol_reference, CxxReturn, no_return, returns, CxxType, no_terms, add_term,
  CxxTypes, no_types, add_type, ok, delimiters, is_nonterminating, at_end_or,
}
use m2c.Demangle.Parse.{
  parse_name, parse_params, parse_names, parse_function_params, parse_return, parse_term,
  parse_type,
}
use m2c.Demangle.Mangle.{
  count, mangle_name, mangle_params, mangle_names, mangle_term, mangle_return, mangle_type,
  mangle_types, is_open, is_open_term, is_open_return, is_base, is_good_name, is_good_params,
  is_good_names, is_good_term, is_good_return, is_good_type, is_good_types,
}
use m2c.Demangle.Digits.{decimal_codes-all_digits, int_digits-decimal_codes}
use m2c.Demangle.Starts.{length-starts, starts-mangle_name, starts-mangle_term, starts-mangle_type}
use m2c.Demangle.Steps.{parse_dim-digits}
use m2c.Demangle.Reads.{
  may_follow, read_plain, ends_in-mangle_params, read_template, step_last_term, step_term,
  step_last_param, step_param, step_name_term, step_names, step_name, step_function, step_array,
  step_no_return, step_returns, step_no_more, step_function_param, any_delimiter, regroup,
  step_simple, return_ends, nonterminating_follow, step_no_names, shut_follow,
}

mutual
  unfolding mangle_name mangle_params mangle_names mangle_term mangle_return mangle_type
      mangle_types is_open is_open_term is_open_return is_good_name is_good_params is_good_names
      is_good_term is_good_return is_good_type is_good_types

  name_reads :
      (n : CxxName) (rest : Text) (f : ℕ)
      → is_good_name n ≡ true
      → 8 * length (mangle_name n) < f
      → parse_name (suc (suc (suc (suc f)))) (mangle_name n ++ rest) ≡ ok (n, rest)
  name_reads (plain_name name) rest f h b = read_plain name rest f h
  name_reads (template_name base params) rest f h b =
      let (plain, good) = and-eq_true (is_base base) (is_good_params params) h in
      let (l, e) = ends_in-mangle_params params good in
      let shorter : 8 * length (mangle_params params) < f = omega (
        arith,
        length-append (decimal_codes (length (base ++ (b'<' ∷ mangle_params params))))
            (base ++ (b'<' ∷ mangle_params params)),
        length-append base (b'<' ∷ mangle_params params),
      ) in
      read_template base (mangle_params params) rest params f plain l e
        (params_read params f good shorter)

  params_read :
      (ps : CxxTypes) (f : ℕ)
      → is_good_params ps ≡ true
      → 8 * length (mangle_params ps) < f
      → parse_params f (mangle_params ps) ≡ ok (ps, [])
  params_read no_types f h b = cc
  params_read (add_type t no_types) zero h b = absurd (omega arith)
  params_read (add_type t no_types) (suc zero) h b =
      absurd (omega (arith, length-append (mangle_type t) (b'>' ∷ [])))
  params_read (add_type t no_types) (suc (suc f)) h b = step_last_param t (mangle_type t) f (
      type_reads t (b'>' ∷ []) (suc f) h (any_delimiter (is_open t))
        (omega (arith, length-append (mangle_type t) (b'>' ∷ []))))
  params_read (add_type t (add_type u ts)) zero h b = absurd (omega arith)
  params_read (add_type t (add_type u ts)) (suc zero) h b =
      absurd (omega (arith, length-append (mangle_type t) (b',' ∷ mangle_params (add_type u ts))))
  params_read (add_type t (add_type u ts)) (suc (suc f)) h b =
      let (first, others) = and-eq_true (is_good_type t) (is_good_params (add_type u ts)) h in
      step_param t (add_type u ts) (mangle_type t) (mangle_params (add_type u ts)) f
        (type_reads t (b',' ∷ mangle_params (add_type u ts)) (suc f) first
          (any_delimiter (is_open t))
          (omega (arith, length-append (mangle_type t) (b',' ∷ mangle_params (add_type u ts)))))
        (params_read (add_type u ts) f others
          (omega (arith, length-append (mangle_type t) (b',' ∷ mangle_params (add_type u ts)))))

  names_read :
      (ns : CxxNames) (rest : Text) (f : ℕ)
      → is_good_names ns ≡ true
      → 8 * length (mangle_names ns) + 5 < f
      → parse_names f (count ns) (mangle_names ns ++ rest) ≡ ok (ns, rest)
  names_read no_names rest zero h b = absurd (omega arith)
  names_read no_names rest (suc f) h b = step_no_names rest f
  names_read (add_name n ns) rest zero h b = absurd (omega arith)
  names_read (add_name n ns) rest (suc zero) h b = absurd (omega arith)
  names_read (add_name n ns) rest (suc (suc zero)) h b = absurd (omega arith)
  names_read (add_name n ns) rest (suc (suc (suc zero))) h b = absurd (omega arith)
  names_read (add_name n ns) rest (suc (suc (suc (suc zero)))) h b = absurd (omega arith)
  names_read (add_name n ns) rest (suc (suc (suc (suc (suc f))))) h b =
      let (first, others) = and-eq_true (is_good_name n) (is_good_names ns) h in
      let long = length-starts (mangle_name n) (starts-mangle_name n) in
      let total = length-append (mangle_name n) (mangle_names ns) in
      regroup (parse_names (suc (suc (suc (suc (suc f))))) (suc (count ns))) (add_name n ns)
        (mangle_name n) (mangle_names ns) rest
        (step_name n ns (mangle_name n) (mangle_names ns) rest (suc (suc (suc (suc f)))) (count ns)
          (name_reads n (mangle_names ns ++ rest) f first (omega arith))
          (names_read ns rest (suc (suc (suc (suc f)))) others (omega arith)))

  term_reads :
      (t : CxxTerm) (rest : Text) (f : ℕ)
      → is_good_term t ≡ true
      → may_follow (is_open_term t) rest ≡ true
      → 8 * length (mangle_term t) + 5 < f
      → parse_term f (mangle_term t ++ rest) ≡ ok (t, rest)
  term_reads (simple k) rest zero h m b = absurd (omega arith)
  term_reads (simple k) rest (suc zero) h m b = absurd (omega arith)
  term_reads (simple k) rest (suc (suc f)) h m b = step_simple k rest f
  term_reads (array n) rest zero h m b = absurd (omega arith)
  term_reads (array n) rest (suc zero) h m b = absurd (omega arith)
  term_reads (array n) rest (suc (suc f)) h m b = step_array n rest f (
      parse_dim-digits f 0 n (decimal_codes n) rest (decimal_codes-all_digits n)
        (omega (arith, length-append (decimal_codes n) (b'_' ∷ []))) (int_digits-decimal_codes n))
  term_reads (qualified no_names) rest f h m b = cc
  term_reads (qualified (add_name n no_names)) rest zero h m b = absurd (omega arith)
  term_reads (qualified (add_name n no_names)) rest (suc zero) h m b = absurd (omega arith)
  term_reads (qualified (add_name n no_names)) rest (suc (suc zero)) h m b = absurd (omega arith)
  term_reads (qualified (add_name n no_names)) rest (suc (suc (suc zero))) h m b =
      absurd (omega arith)
  term_reads (qualified (add_name n no_names)) rest (suc (suc (suc (suc zero)))) h m b =
      absurd (omega arith)
  term_reads (qualified (add_name n no_names)) rest (suc (suc (suc (suc (suc f))))) h m b =
      step_name_term n rest (suc (suc (suc (suc f))))
        (name_reads n rest f (and-eq_true (is_good_name n) true h).0 (omega arith))
  term_reads (qualified (add_name n (add_name k ns))) rest zero h m b = absurd (omega arith)
  term_reads (qualified (add_name n (add_name k ns))) rest (suc zero) h m b = absurd (omega arith)
  term_reads (qualified (add_name n (add_name k ns))) rest (suc (suc f)) h m b =
      let (some, fits) =
        and-eq_true (ltb 0 (suc (suc (count ns))))
          (ltb (suc (suc (count ns))) 10 && is_good_names (add_name n (add_name k ns))) h in
      let (few, good) =
        and-eq_true (ltb (suc (suc (count ns))) 10) (is_good_names (add_name n (add_name k ns)))
          fits in
      step_names (add_name n (add_name k ns)) (mangle_name n ++ mangle_names (add_name k ns)) rest f
        (ltb→lt (suc (suc (count ns))) 10 few)
        (names_read (add_name n (add_name k ns)) rest f good (omega arith))
  term_reads (function params result) rest zero h m b = absurd (omega arith)
  term_reads (function params result) rest (suc zero) h m b = absurd (omega arith)
  term_reads (function params result) rest (suc (suc f)) h m b =
      let (inputs, output) = and-eq_true (is_good_types params) (is_good_return result) h in
      let total = length-append (mangle_types params) (mangle_return result) in
      step_function params result (mangle_types params) (mangle_return result) rest f
        (types_read params (mangle_return result ++ rest) f inputs (return_ends result rest m)
          (omega arith))
        (return_reads result rest f output m (omega arith))
  term_reads (symbol_reference s) rest f h m b = cc

  return_reads :
      (r : CxxReturn) (rest : Text) (f : ℕ)
      → is_good_return r ≡ true
      → may_follow (is_open_return r) rest ≡ true
      → 8 * length (mangle_return r) + 1 < f
      → parse_return f (mangle_return r ++ rest) ≡ ok (r, rest)
  return_reads no_return rest zero h m b = absurd (omega arith)
  return_reads no_return rest (suc f) h m b = step_no_return rest f m
  return_reads (returns t) rest zero h m b = absurd (omega arith)
  return_reads (returns t) rest (suc f) h m b =
      step_returns t (mangle_type t) rest f (type_reads t rest f h m (omega arith))

  type_reads :
      (t : CxxType) (rest : Text) (f : ℕ)
      → is_good_type t ≡ true
      → may_follow (is_open t) rest ≡ true
      → 8 * length (mangle_type t) + 6 < f
      → parse_type f (mangle_type t ++ rest) ≡ ok (t, rest)
  type_reads no_terms rest f h m b = cc
  type_reads (add_term t no_terms) rest zero h m b = absurd (omega arith)
  type_reads (add_term t no_terms) rest (suc zero) h m b = absurd (omega arith)
  type_reads (add_term t no_terms) rest (suc (suc f)) h m b =
      let (good, last) = and-eq_true (is_good_term t) (not (is_nonterminating t)) h in
      let total = length-append (mangle_term t) [] in
      regroup (parse_type (suc (suc f))) (add_term t no_terms) (mangle_term t) [] rest (
        step_last_term t (mangle_term t) rest f (starts-mangle_term t good)
          (not-eq_true (is_nonterminating t) last) (term_reads t rest (suc f) good m (omega arith)))
  type_reads (add_term t (add_term u ts)) rest zero h m b = absurd (omega arith)
  type_reads (add_term t (add_term u ts)) rest (suc zero) h m b = absurd (omega arith)
  type_reads (add_term t (add_term u ts)) rest (suc (suc f)) h m b =
      let (good, others) =
        and-eq_true (is_good_term t) (is_nonterminating t && is_good_type (add_term u ts)) h in
      let (more, good_rest) =
        and-eq_true (is_nonterminating t) (is_good_type (add_term u ts)) others in
      let starting = starts-mangle_term t good in
      let long = length-starts (mangle_term t) starting in
      let total = length-append (mangle_term t) (mangle_type (add_term u ts)) in
      regroup (parse_type (suc (suc f))) (add_term t (add_term u ts)) (mangle_term t)
        (mangle_type (add_term u ts)) rest
        (step_term t (add_term u ts) (mangle_term t) (mangle_type (add_term u ts)) rest f starting
          more
          (term_reads t (mangle_type (add_term u ts) ++ rest) (suc f) good
            (nonterminating_follow t more (mangle_type (add_term u ts) ++ rest)) (omega arith))
          (type_reads (add_term u ts) rest f good_rest m (omega arith)))

  types_read :
      (ps : CxxTypes) (rest : Text) (f : ℕ)
      → is_good_types ps ≡ true
      → at_end_or (b'_' ∷ delimiters) rest ≡ true
      → 8 * length (mangle_types ps) + 7 < f
      → parse_function_params f (mangle_types ps ++ rest) ≡ ok (ps, rest)
  types_read no_types rest zero h e b = absurd (omega arith)
  types_read no_types rest (suc f) h e b = step_no_more rest f e
  types_read (add_type t ts) rest zero h e b = absurd (omega arith)
  types_read (add_type t ts) rest (suc f) h e b =
      let (good, others) = and-eq_true (is_good_type t) (not (is_open t) && is_good_types ts) h in
      let (shut, good_rest) = and-eq_true (not (is_open t)) (is_good_types ts) others in
      let starting = starts-mangle_type t good in
      let long = length-starts (mangle_type t) starting in
      let total = length-append (mangle_type t) (mangle_types ts) in
      regroup (parse_function_params (suc f)) (add_type t ts) (mangle_type t) (mangle_types ts) rest
        (step_function_param t ts (mangle_type t) (mangle_types ts) rest f starting
          (type_reads t (mangle_types ts ++ rest) f good
            (shut_follow (is_open t) (mangle_types ts ++ rest) shut) (omega arith))
          (types_read ts rest f good_rest e (omega arith)))

-- With fuel above eight units for each character and six, the parser reads a mangled type off the front
-- of any text, if the type is one that has a text: its names are identifiers or templates of such
-- types, its terms but the last modify what follows, and at most nine names are qualified. Behind a type
-- that ends in a function without a return type the text has to end, or go on with a comma or a
-- closing bracket.
pub parse_type-mangle_type :
    (t : CxxType) (rest : Text) (f : ℕ)
    → is_good_type t ≡ true
    → (not (is_open t) || at_end_or delimiters rest) ≡ true
    → 8 * length (mangle_type t) + 6 < f
    → parse_type f (mangle_type t ++ rest) ≡ ok (t, rest)
parse_type-mangle_type t rest f h m b = type_reads t rest f h m b
