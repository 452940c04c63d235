-- ===== src/Demangle/Reads.antt =====
-- One step of each parser of m2c/demangle_codewarrior.py on a mangled text, from what its parts read.
use m2c.Prelude.{
  ℕ, suc, ◌+◌, ◌<◌, ◌≡◌, refl, ◌∙◌, ap, Bool, true, false, not, ◌||◌, [], ◌∷◌, ◌++◌, length, nat_eq,
  nat_beq, contains, length-append, append_assoc, arith,
}
use m2c.Prelude.Text.{decimal_codes}
use m2c.Demangle.{
  Text, Kind, CxxName, plain_name, template_name, CxxNames, no_names, add_name, CxxTerm, simple,
  array, qualified, function, symbol_reference, CxxReturn, no_return, returns, CxxType, no_terms,
  add_term, CxxTypes, no_types, add_type, Result, ok, delimiters, is_nonterminating, at_end_or,
}
use m2c.Demangle.Parse.{
  all_read, ends_in, parse_name, parse_template, parse_params, after_param, parse_names, parse_dim,
  parse_function_params, parse_return, parse_kind, parse_term, parse_type, after_term,
}
use m2c.Demangle.Mangle.{
  letter, count, prefixed, mangle_name, mangle_params, mangle_return, mangle_type, is_open_term,
  is_open_return, is_base, is_ident, is_good_params,
}
use m2c.Demangle.Starts.{starts, starts-peek_in, starts-at_end_or, mangle_name-peek_number}
use m2c.Demangle.Steps.{
  starts_body, parse_name-prefixed, partition-bracket, contains-bracket, ends_in-append,
  parse_kind-letter, letter-is_number_char, int_of-count,
}

-- Only a type that is not open may have anything but a delimiter behind it.
abbrev pub may_follow : Bool → Text → Bool
may_follow open_ended rest = not open_ended || at_end_or delimiters rest

pub read_plain :
    (name rest : Text) (f : ℕ)
    → is_ident name ≡ true
    → parse_name (suc (suc (suc (suc f)))) (prefixed name ++ rest) ≡ ok (plain_name name, rest)
unfolding parse_template
read_plain [] rest f h = cc
read_plain (c ∷ name) rest f h =
    parse_name-prefixed (suc f) (c ∷ name) rest (ground arith)
    ∙ rw (no_bracket, parse_template) refl
  where
    no_bracket : contains (c ∷ name) b'<' ≡ false
    no_bracket = ground arith

base_starts :
    (base params : Text) → is_base base ≡ true → starts_body (base ++ (b'<' ∷ params)) ≡ true
base_starts [] params h = refl
base_starts (c ∷ base) params h = ground arith

base_bracket : (base : Text) → is_base base ≡ true → contains base b'<' ≡ false
base_bracket [] h = refl
base_bracket (c ∷ base) h = ground arith

pub ends_in-mangle_params :
    (ps : CxxTypes)
    → is_good_params ps ≡ true
    → (0 < length (mangle_params ps)) × (ends_in b'>' (mangle_params ps) ≡ true)
unfolding mangle_params is_good_params
ends_in-mangle_params no_types h = cc
ends_in-mangle_params (add_type t no_types) h = (
  omega (arith, length-append (mangle_type t) (b'>' ∷ [])),
  ends_in-append (mangle_type t) (b'>' ∷ []) b'>' (omega arith),
)
ends_in-mangle_params (add_type t (add_type u ts)) h =
    let (l, e) = ends_in-mangle_params (add_type u ts) (ground arith) in
    (
      omega (arith, length-append (mangle_type t) (b',' ∷ mangle_params (add_type u ts))),
      ends_in-append (mangle_type t) (b',' ∷ mangle_params (add_type u ts)) b'>' (omega arith)
          ∙ (ends_in-append (b',' ∷ []) (mangle_params (add_type u ts)) b'>' l ∙ e),
    )

pub read_template :
    (base printed rest : Text) (params : CxxTypes) (f : ℕ)
    → is_base base ≡ true
    → 0 < length printed
    → ends_in b'>' printed ≡ true
    → parse_params f printed ≡ ok (params, [])
    → parse_name (suc (suc (suc (suc f)))) (prefixed (base ++ (b'<' ∷ printed)) ++ rest)
      ≡ ok (template_name base params, rest)
unfolding parse_template all_read
read_template base printed rest params f h l e r =
    parse_name-prefixed (suc f) (base ++ (b'<' ∷ printed)) rest (base_starts base printed h)
    ∙ rw
        (
          contains-bracket base printed,
          ends,
          partition-bracket base printed (base_bracket base h),
          r,
          parse_template,
        )
        refl
  where
    ends : ends_in b'>' (base ++ (b'<' ∷ printed)) ≡ true
    ends =
        ends_in-append base (b'<' ∷ printed) b'>' (omega arith)
        ∙ (ends_in-append (b'<' ∷ []) printed b'>' l ∙ e)

after_last :
    (t : CxxTerm) (rest : Text) (f : ℕ)
    → is_nonterminating t ≡ false
    → after_term (suc f) t rest ≡ ok (add_term t no_terms, rest)
unfolding after_term
after_last t rest f n = rw (n, after_term) refl

after_more :
    (t : CxxTerm) (type : CxxType) (more rest : Text) (f : ℕ)
    → is_nonterminating t ≡ true
    → parse_type f more ≡ ok (type, rest)
    → after_term (suc f) t more ≡ ok (add_term t type, rest)
unfolding after_term
after_more t type more rest f n q = rw (n, q, after_term) refl

pub step_last_term :
    (t : CxxTerm) (s rest : Text) (f : ℕ)
    → starts s ≡ true
    → is_nonterminating t ≡ false
    → parse_term (suc f) (s ++ rest) ≡ ok (t, rest)
    → parse_type (suc (suc f)) (s ++ rest) ≡ ok (add_term t no_terms, rest)
unfolding parse_type
step_last_term t s rest f h n r =
    rw (starts-peek_in s rest h, r, parse_type) (after_last t rest f n)

pub step_term :
    (t : CxxTerm) (type : CxxType) (s more rest : Text) (f : ℕ)
    → starts s ≡ true
    → is_nonterminating t ≡ true
    → parse_term (suc f) (s ++ (more ++ rest)) ≡ ok (t, more ++ rest)
    → parse_type f (more ++ rest) ≡ ok (type, rest)
    → parse_type (suc (suc f)) (s ++ (more ++ rest)) ≡ ok (add_term t type, rest)
unfolding parse_type
step_term t type s more rest f h n r q =
    rw (starts-peek_in s (more ++ rest) h, r, parse_type)
      (after_more t type (more ++ rest) rest f n q)

pub step_last_param :
    (type : CxxType) (s : Text) (f : ℕ)
    → parse_type (suc f) (s ++ (b'>' ∷ [])) ≡ ok (type, b'>' ∷ [])
    → parse_params (suc (suc f)) (s ++ (b'>' ∷ [])) ≡ ok (add_type type no_types, [])
unfolding parse_params after_param
step_last_param type s f r = rw r refl

pub step_param :
    (type : CxxType) (types : CxxTypes) (s more : Text) (f : ℕ)
    → parse_type (suc f) (s ++ (b',' ∷ more)) ≡ ok (type, b',' ∷ more)
    → parse_params f more ≡ ok (types, [])
    → parse_params (suc (suc f)) (s ++ (b',' ∷ more)) ≡ ok (add_type type types, [])
unfolding parse_params after_param
step_param type types s more f r q = rw (r, q) refl

pub step_name_term :
    (n : CxxName) (rest : Text) (f : ℕ)
    → parse_name f (mangle_name n ++ rest) ≡ ok (n, rest)
    → parse_term (suc f) (mangle_name n ++ rest) ≡ ok (qualified (add_name n no_names), rest)
unfolding parse_term
step_name_term n rest f r = rw (mangle_name-peek_number n rest, r, parse_term) refl

pub step_names :
    (names : CxxNames) (printed rest : Text) (f : ℕ)
    → count names < 10
    → parse_names f (count names) (printed ++ rest) ≡ ok (names, rest)
    → parse_term (suc (suc f)) ((b'Q' ∷ (b'0' + count names) ∷ printed) ++ rest)
      ≡ ok (qualified names, rest)
unfolding parse_term parse_kind
step_names names printed rest f h r = rw (int_of-count (count names) h, r) refl

pub step_name :
    (n : CxxName) (names : CxxNames) (s more rest : Text) (f k : ℕ)
    → parse_name f (s ++ (more ++ rest)) ≡ ok (n, more ++ rest)
    → parse_names f k (more ++ rest) ≡ ok (names, rest)
    → parse_names (suc f) (suc k) (s ++ (more ++ rest)) ≡ ok (add_name n names, rest)
unfolding parse_names
step_name n names s more rest f k r q = rw (r, q) refl

pub step_function :
    (params : CxxTypes) (result : CxxReturn) (s more rest : Text) (f : ℕ)
    → parse_function_params f (s ++ (more ++ rest)) ≡ ok (params, more ++ rest)
    → parse_return f (more ++ rest) ≡ ok (result, rest)
    → parse_term (suc (suc f)) ((b'F' ∷ (s ++ more)) ++ rest) ≡ ok (function params result, rest)
unfolding parse_term parse_kind
step_function params result s more rest f r q = rw (append_assoc s more rest, r, q) refl

pub step_array :
    (n : ℕ) (rest : Text) (f : ℕ)
    → parse_dim f 0 (decimal_codes n ++ (b'_' ∷ rest)) ≡ ok (n, rest)
    → parse_term (suc (suc f)) ((b'A' ∷ (decimal_codes n ++ b'_' ∷ [])) ++ rest)
      ≡ ok (array n, rest)
unfolding parse_term parse_kind
step_array n rest f r = rw (append_assoc (decimal_codes n) (b'_' ∷ []) rest, r) refl

pub step_no_return :
    (rest : Text) (f : ℕ)
    → at_end_or delimiters rest ≡ true
    → parse_return (suc f) rest ≡ ok (no_return, rest)
unfolding parse_return
step_no_return [] f h = refl
step_no_return (c ∷ rest) f h = rw (other, parse_return) refl
  where
    other : nat_beq c b'_' ≡ false
    other = ground arith

pub step_returns :
    (type : CxxType) (s rest : Text) (f : ℕ)
    → parse_type f (s ++ rest) ≡ ok (type, rest)
    → parse_return (suc f) (b'_' ∷ (s ++ rest)) ≡ ok (returns type, rest)
unfolding parse_return
step_returns type s rest f r = rw r refl

pub step_no_more :
    (rest : Text) (f : ℕ)
    → at_end_or (b'_' ∷ delimiters) rest ≡ true
    → parse_function_params (suc f) rest ≡ ok (no_types, rest)
unfolding parse_function_params
step_no_more rest f h = rw (h, parse_function_params) refl

pub step_function_param :
    (type : CxxType) (types : CxxTypes) (s more rest : Text) (f : ℕ)
    → starts s ≡ true
    → parse_type f (s ++ (more ++ rest)) ≡ ok (type, more ++ rest)
    → parse_function_params f (more ++ rest) ≡ ok (types, rest)
    → parse_function_params (suc f) (s ++ (more ++ rest)) ≡ ok (add_type type types, rest)
unfolding parse_function_params
step_function_param type types s more rest f h r q =
    rw (starts-at_end_or s (more ++ rest) h, r, q, parse_function_params) refl

pub any_delimiter : (b : Bool) → (not b || true) ≡ true
any_delimiter b = ground arith

-- Two parts of one text, bracketed to the right.
pub regroup :
    {A : Type 0} (p : Text → Result (A × Text)) (a : A) (s more rest : Text)
    → p (s ++ (more ++ rest)) ≡ ok (a, rest)
    → p ((s ++ more) ++ rest) ≡ ok (a, rest)
regroup p a s more rest h = ap p (append_assoc s more rest) ∙ h

pub step_simple :
    (k : Kind) (rest : Text) (f : ℕ)
    → parse_term (suc (suc f)) ((letter k ∷ []) ++ rest) ≡ ok (simple k, rest)
unfolding parse_term
step_simple k rest f = rw (letter-is_number_char k, parse_term) (parse_kind-letter f k rest)

pub return_ends :
    (r : CxxReturn) (rest : Text)
    → may_follow (is_open_return r) rest ≡ true
    → at_end_or (b'_' ∷ delimiters) (mangle_return r ++ rest) ≡ true
unfolding is_open_return mangle_return
return_ends no_return [] m = refl
return_ends no_return (c ∷ rest) m = ground arith
return_ends (returns t) rest m = refl

pub nonterminating_follow :
    (t : CxxTerm)
    → is_nonterminating t ≡ true
    → (rest : Text) → may_follow (is_open_term t) rest ≡ true
unfolding is_open_term
nonterminating_follow (simple k) h rest = refl
nonterminating_follow (array n) h rest = refl
nonterminating_follow (qualified ns) h rest = refl
nonterminating_follow (function ps r) h rest = cc
nonterminating_follow (symbol_reference s) h rest = refl

pub step_no_names : (rest : Text) (f : ℕ) → parse_names (suc f) 0 rest ≡ ok (no_names, rest)
unfolding parse_names
step_no_names rest f = refl

pub shut_follow :
    (open_ended : Bool) (rest : Text) → not open_ended ≡ true → may_follow open_ended rest ≡ true
shut_follow false rest h = refl
shut_follow true rest h = cc
