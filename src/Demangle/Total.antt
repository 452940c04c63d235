-- ===== src/Demangle/Total.antt =====
-- The parsers of m2c/demangle_codewarrior.py return.
use m2c.Prelude.{
  ℕ, zero, suc, ◌+◌, ◌-◌, ◌*◌, ◌≤◌, ◌<◌, ◌≡◌, refl, true, false, [], ◌∷◌, ◌++◌, length, nat_beq,
  contains, nat_eq, arith,
}
use m2c.Prelude.Dict.{lookup}
use m2c.Prelude.Int.{ℤ, pos, negsuc, pos_part}
use m2c.Prelude.Text.{decimal_codes}
use m2c.Demangle.{
  Text, kind_letters, plain_name, template_name, no_names, add_name, CxxTerm, array, qualified,
  function, symbol_reference, no_return, returns, CxxType, no_terms, add_term, no_types, add_type,
  symbol, peek_in, peek_number, at_end_or, delimiters, read_number, int_of, is_nonterminating,
}
use m2c.Demangle.Parse.{
  partition, all_read, ends_in, parse_name, parse_number, read_counted, parse_template,
  parse_params, after_param, parse_names, parse_dim, parse_function_params, parse_return,
  parse_kind, parse_term, parse_type, after_term, is_static, find_base, parse_symbol, parse_split,
  parse_static, parse_signature, parse_qualified, parse_base, class_names, append_name,
  undo_substitutions, parse,
}
use m2c.Demangle.Escapes.{length-undo_substitutions}
use m2c.Demangle.Fits.{
  fits, returns_some, fits-bind, fits-bind_some, fits-elim, fits-weaken, fits-read_char,
  fits-read_exact, fits-all_read, all_read-returns_some, int_of-returns_some,
  class_names-returns_some, length-read_number, read_number-peek_number, length-read_number_decimal,
  length-partition,
}
use m2c.Demangle.Leaves.{
  leaves, length-is_static, static_fits, nothing_named, fewer, kind_result, parse_dim-fits, moves,
}

mutual
  unfolding parse_name parse_number read_counted parse_template parse_params after_param parse_names
      parse_function_params parse_return parse_kind parse_term parse_type after_term parse_symbol
      parse_split parse_signature parse_qualified parse_base

  name_fits :
      (src : Text) (f : ℕ)
      → 8 * length (read_number src).1 + 2 < f
      → fits (length src - 1) (parse_name f src) ≡ true
  name_fits src zero h = absurd (omega arith)
  name_fits src (suc f) h =
      number_fits (read_number src).0 (read_number src).1 (length src) f (length-read_number src)
        (omega arith)

  number_fits :
      (num src : Text) (n f : ℕ)
      → length num + length src ≡ n
      → 8 * length src + 1 < f
      → fits (n - 1) (parse_number f num src) ≡ true
  number_fits num src n zero e h = absurd (omega arith)
  number_fits [] src n (suc f) e h = refl
  number_fits (c ∷ cs) src n (suc f) e h =
      fits-bind_some (int_of (c ∷ cs)) _ (n - 1) (int_of-returns_some (c ∷ cs)) (λ number.
        fits-elim (peek_in delimiters src) _ _ (n - 1)
          (λ p. leaves (plain_name (c ∷ cs)) src (n - 1) (omega arith))
          (λ p.
            fits-weaken (read_counted f number src) (length src) (n - 1) (omega arith)
              (counted_fits number src f (omega arith))))

  counted_fits :
      (number : ℤ) (src : Text) (f : ℕ)
      → 8 * length src < f
      → fits (length src) (read_counted f number src) ≡ true
  counted_fits number src zero h = absurd (omega arith)
  counted_fits (negsuc n) src (suc f) h = refl
  counted_fits (pos zero) src (suc f) h = refl
  counted_fits (pos (suc n)) src (suc f) h =
      fits-read_exact src (suc n) _ (length src) (λ body rest e e'.
        fits-weaken (parse_template f body rest) (length rest) (length src) (omega arith)
          (template_fits body rest f (omega arith) (omega arith)))

  template_fits :
      (name src : Text) (f : ℕ)
      → 8 * length name ≤ f
      → 0 < f
      → fits (length src) (parse_template f name src) ≡ true
  template_fits name src zero h p = absurd (omega arith)
  template_fits name src (suc f) h p =
      fits-elim (contains name b'<') _ _ (length src)
        (λ e.
          fits-elim (ends_in b'>' name) _ _ (length src)
            (λ e'.
              fits-bind (parse_params f (partition name).1) _ (length (partition name).1)
                (length src)
                (params_fits (partition name).1 f
                  (let shorter = length-partition name e in omega (arith, shorter)))
                (λ ps rest l.
                  fits-bind_some (all_read (ps, rest)) _ (length src)
                    (all_read-returns_some ps rest)
                    (λ params.
                      leaves (template_name (partition name).0 params) src (length src)
                        (omega arith))))
            (λ e'. refl))
        (λ e. leaves (plain_name name) src (length src) (omega arith))

  params_fits :
      (src : Text) (f : ℕ) → 8 * length src + 3 < f → fits (length src) (parse_params f src) ≡ true
  params_fits src zero h = absurd (omega arith)
  params_fits src (suc f) h =
      fits-bind (parse_type f src) _ (length src) (length src) (type_fits src f (omega arith))
        (λ t rest l.
          fits-weaken (after_param f t rest) (length rest) (length src) l
            (after_param-fits t rest f (omega arith)))

  after_param-fits :
      (t : CxxType) (src : Text) (f : ℕ)
      → 8 * length src + 2 < f
      → fits (length src) (after_param f t src) ≡ true
  after_param-fits t src zero h = absurd (omega arith)
  after_param-fits t [] (suc f) h = refl
  after_param-fits t (sep ∷ src) (suc f) h =
      fits-elim (nat_beq sep b'>') _ _ (suc (length src))
        (λ e. leaves (add_type t no_types) src (suc (length src)) (omega arith))
        (λ e.
          fits-elim (nat_beq sep b',') _ _ (suc (length src))
            (λ e'.
              fits-bind (parse_params f src) _ (length src) (suc (length src))
                (params_fits src f (omega arith))
                (λ ps rest l. leaves (add_type t ps) rest (suc (length src)) (omega arith)))
            (λ e'. refl))

  names_fits :
      (count : ℕ) (src : Text) (f : ℕ)
      → 8 * length src + 3 < f
      → fits (length src) (parse_names f count src) ≡ true
  names_fits count src zero h = absurd (omega arith)
  names_fits zero src (suc f) h = leaves no_names src (length src) (omega arith)
  names_fits (suc count) [] (suc zero) h = absurd (omega arith)
  names_fits (suc count) [] (suc (suc zero)) h = absurd (omega arith)
  names_fits (suc count) [] (suc (suc (suc f))) h = nothing_named f count
  names_fits (suc count) (c ∷ src) (suc f) h =
      let total = length-read_number (c ∷ src) in
      fits-bind (parse_name f (c ∷ src)) _ (suc (length src) - 1) (suc (length src))
        (name_fits (c ∷ src) f (omega arith))
        (λ n rest l.
          fits-bind (parse_names f count rest) _ (length rest) (suc (length src))
            (names_fits count rest f (omega arith))
            (λ ns rest' l'. leaves (add_name n ns) rest' (suc (length src)) (omega arith)))

  function_params_fits :
      (src : Text) (f : ℕ)
      → 8 * length src + 3 < f
      → fits (length src) (parse_function_params f src) ≡ true
  function_params_fits src zero h = absurd (omega arith)
  function_params_fits [] (suc f) h = refl
  function_params_fits (c ∷ src) (suc f) h =
      fits-elim (contains (b'_' ∷ delimiters) c) _ _ (suc (length src))
        (λ e. leaves no_types (c ∷ src) (suc (length src)) (omega arith))
        (λ e.
          fits-bind (parse_type f (c ∷ src)) _ (length src) (suc (length src))
            (type_moves c src f (fewer c e) (omega arith))
            (λ t rest l.
              fits-bind (parse_function_params f rest) _ (length rest) (suc (length src))
                (function_params_fits rest f (omega arith))
                (λ ts rest' l'. leaves (add_type t ts) rest' (suc (length src)) (omega arith))))

  return_fits :
      (src : Text) (f : ℕ) → 8 * length src + 3 < f → fits (length src) (parse_return f src) ≡ true
  return_fits src zero h = absurd (omega arith)
  return_fits [] (suc f) h = refl
  return_fits (c ∷ src) (suc f) h =
      fits-elim (nat_beq c b'_') _ _ (suc (length src))
        (λ e.
          fits-bind (parse_type f src) _ (length src) (suc (length src))
            (type_fits src f (omega arith))
            (λ t rest l. leaves (returns t) rest (suc (length src)) (omega arith)))
        (λ e. leaves no_return (c ∷ src) (suc (length src)) (omega arith))

  kind_fits :
      (letter : ℕ) (src : Text) (f : ℕ)
      → 8 * length src + 8 < f
      → fits (length src) (parse_kind f letter src) ≡ true
  kind_fits letter src zero h = absurd (omega arith)
  kind_fits letter src (suc f) h =
      fits-elim (nat_beq letter b'Q') _ _ (length src)
        (λ e. fits-read_char src _ (length src) (λ c rest r.
          fits-bind_some (int_of (c ∷ [])) _ (length src) (int_of-returns_some (c ∷ [])) (λ count.
            fits-bind (parse_names f (pos_part count) rest) _ (length rest) (length src)
              (names_fits (pos_part count) rest f (omega arith))
              (λ ns rest' l. leaves (qualified ns) rest' (length src) (omega arith)))))
        (λ e.
          fits-elim (nat_beq letter b'F') _ _ (length src)
            (λ e1.
              fits-bind (parse_function_params f src) _ (length src) (length src)
                (function_params_fits src f (omega arith))
                (λ ts rest l.
                  fits-bind (parse_return f rest) _ (length rest) (length src)
                    (return_fits rest f (omega arith))
                    (λ r rest' l'. leaves (function ts r) rest' (length src) (omega arith))))
            (λ e1.
              fits-elim (nat_beq letter b'A') _ _ (length src)
                (λ e2.
                  fits-bind (parse_dim f 0 src) _ (length src) (length src)
                    (parse_dim-fits f 0 src (omega arith))
                    (λ d rest l. leaves (array d) rest (length src) l))
                (λ e2.
                  fits-elim (nat_beq letter b'&') _ _ (length src)
                    (λ e3.
                      fits-bind (parse_symbol f src) _ (length src) (length src)
                        (symbol_fits src f (omega arith))
                        (λ s rest l. leaves (symbol_reference s) rest (length src) l))
                    (λ e3. kind_result (lookup letter kind_letters) src))))

  term_fits :
      (c : ℕ) (src : Text) (f : ℕ)
      → 8 * length src + 9 < f
      → fits (length src) (parse_term f (c ∷ src)) ≡ true
  term_fits c src zero h = absurd (omega arith)
  term_fits c src (suc f) h =
      fits-elim (peek_number (c ∷ src)) _ _ (length src)
        (λ e.
          fits-bind (parse_name f (c ∷ src)) _ (suc (length src) - 1) (length src)
            (name_fits (c ∷ src) f
              (let shorter = read_number-peek_number c src e in omega (arith, shorter)))
            (λ n rest l. leaves (qualified (add_name n no_names)) rest (length src) (omega arith)))
        (λ e. kind_fits c src f (omega arith))

  type_moves :
      (c : ℕ) (src : Text) (f : ℕ)
      → contains delimiters c ≡ false
      → 8 * length src + 10 < f
      → fits (length src) (parse_type f (c ∷ src)) ≡ true
  type_moves c src zero e h = absurd (omega arith)
  type_moves c src (suc f) e h =
      fits-elim (contains delimiters c) _ _ (length src) (λ e'. absurd (ground arith))
        (λ e'.
          moves c src f (term_fits c src f (omega arith))
            (λ t rest l. after_term-fits t rest f (omega arith)))

  type_fits :
      (src : Text) (f : ℕ) → 8 * length src + 2 < f → fits (length src) (parse_type f src) ≡ true
  type_fits src zero h = absurd (omega arith)
  type_fits [] (suc zero) h = absurd (omega arith)
  type_fits [] (suc (suc f)) h = refl
  type_fits (c ∷ src) (suc f) h =
      fits-elim (contains delimiters c) _ _ (suc (length src))
        (λ e. leaves no_terms (c ∷ src) (suc (length src)) (omega arith))
        (λ e. fits-weaken _ (length src) (suc (length src)) (omega arith) (
          moves c src f (term_fits c src f (omega arith))
            (λ t rest l. after_term-fits t rest f (omega arith))))

  after_term-fits :
      (t : CxxTerm) (src : Text) (f : ℕ)
      → 8 * length src + 3 < f
      → fits (length src) (after_term f t src) ≡ true
  after_term-fits t src zero h = absurd (omega arith)
  after_term-fits t src (suc f) h =
      fits-elim (is_nonterminating t) _ _ (length src)
        (λ e.
          fits-bind (parse_type f src) _ (length src) (length src) (type_fits src f (omega arith))
            (λ ts rest l. leaves (add_term t ts) rest (length src) l))
        (λ e. leaves (add_term t no_terms) src (length src) (omega arith))

  symbol_fits :
      (src : Text) (f : ℕ) → 8 * length src + 7 < f → fits (length src) (parse_symbol f src) ≡ true
  symbol_fits src zero h = absurd (omega arith)
  symbol_fits src (suc f) h =
      split_fits (find_base src [] 0 src 0).0 (find_base src [] 0 src 0).1 src f (omega arith)

  split_fits :
      (base : Text) (strip : ℕ) (src : Text) (f : ℕ)
      → 8 * length src + 6 < f
      → fits (length src) (parse_split f base strip src) ≡ true
  split_fits base strip src zero h = absurd (omega arith)
  split_fits base strip src (suc f) h =
      fits-read_exact src (length base + strip) _ (length src) (λ body rest e e'.
        fits-elim (is_static base) _ _ (length src)
          (λ s.
            let seven = length-is_static base s in
            fits-weaken (parse_static f base rest) 0 (length src) (omega arith)
              (static_fits base rest f (omega (arith, seven))))
          (λ s. signature_fits base rest (length src) f (omega arith) (omega arith) (omega arith)))

  signature_fits :
      (base src : Text) (n f : ℕ)
      → length base ≤ n
      → length src ≤ n
      → 8 * n + 5 < f
      → fits n (parse_signature f base src) ≡ true
  signature_fits base src n zero b l h = absurd (omega arith)
  signature_fits base src n (suc f) b l h =
      fits-bind (parse_type f src) _ (length src) n (type_fits src f (omega arith))
        (λ t rest l'. qualified_fits base t rest n f b (omega arith) (omega arith))

  qualified_fits :
      (base : Text) (class : CxxType) (src : Text) (n f : ℕ)
      → length base ≤ n
      → length src ≤ n
      → 8 * n + 4 < f
      → fits n (parse_qualified f base class src) ≡ true
  qualified_fits base class src n zero b l h = absurd (omega arith)
  qualified_fits base class src n (suc f) b l h =
      fits-elim (at_end_or delimiters src) _ _ n
        (λ e.
          fits-bind_some (parse_base f base) _ n (base_returns base f (omega arith))
            (λ name. leaves (symbol (qualified (add_name name no_names)) class) src n l))
        (λ e.
          fits-bind (parse_type f src) _ (length src) n (type_fits src f (omega arith))
            (λ t rest l'.
              fits-bind_some (class_names class) _ n (class_names-returns_some class) (λ names.
                fits-bind_some (parse_base f base) _ n (base_returns base f (omega arith)) (λ name.
                  leaves (symbol (qualified (append_name names name)) t) rest n (omega arith)))))

  base_returns :
      (base : Text) (f : ℕ) → 8 * length base + 3 < f → returns_some (parse_base f base) ≡ true
  base_returns base zero h = absurd (omega arith)
  base_returns base (suc f) h =
      let shorter = length-read_number_decimal (length base) base in
      fits-all_read (parse_name f (decimal_codes (length base) ++ base))
        (length (decimal_codes (length base) ++ base) - 1)
        (name_fits (decimal_codes (length base) ++ base) f (omega (arith, shorter)))

-- Fuel above eight units for each character and seven is enough to parse a symbol: the parser returns it
-- or raises an exception.
pub parse-returns_some :
    (mangled : Text) (f : ℕ) → 8 * length mangled + 7 < f → returns_some (parse f mangled) ≡ true
unfolding parse
parse-returns_some mangled f h =
    fits-all_read (parse_symbol f (undo_substitutions mangled))
      (length (undo_substitutions mangled))
      (symbol_fits (undo_substitutions mangled) f
        (let shorter = length-undo_substitutions mangled in omega (arith, shorter)))
