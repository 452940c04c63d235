-- ===== src/File/Condition/Truth.antt =====
-- What a condition of `#if` in m2c/asm_file.py means, and that eval_cpp_if evaluates it so.
use m2c.Prelude.{
  ℕ, suc, ◌≡◌, refl, sym, ◌∙◌, ap, subst, Bool, true, false, not, ◌&&◌, ◌||◌, Option, none, some,
  List, [], ◌∷◌, ◌++◌, ◌==◌, string_eq, Bool-cases, ltb, and-eq_true, not-eq_true, inl, inr, String,
  Outcome, ok, raised, ◌>>=◌, arith,
}
use m2c.Prelude.Int.{pos, negsuc}
use m2c.File.Condition.Numeral.{Numeral, numeral_text, numeral_value, is_good_numeral}
use m2c.File.Condition.Tokens.{is_word}
use m2c.Asm.{Argument, literal}
use m2c.File.{Preproc, define_of, is_some, check_ifdef, check_ifdef-define_of, check_ifdef-is_some}
use m2c.File.Condition.{
  starts_digit, number_truth, value_truth, Parsed, or_raise, eval_name, parse1, parse3,
}

-- A condition, as its operators nest: an Any is joined by ||, an All by &&.
mutual
  pub data Unary : Type 0 where
    number : Numeral → Unary
    macro defined : String → Unary
    negation : Unary → Unary
    group : Any → Unary

  pub data All : Type 0 where
    one : Unary → All
    and_also : Unary → All → All

  pub data Any : Type 0 where
    only : All → Any
    or_else : All → Any → Any

abbrev pub not_value : Option Bool → Option Bool
not_value none = none
not_value (some b) = some (not b)

-- Both sides need a value.
abbrev pub both : Option Bool → Option Bool → Option Bool
both (some a) (some b) = some (a && b)
both _ _ = none

abbrev pub either : Option Bool → Option Bool → Option Bool
either (some a) (some b) = some (a || b)
either _ _ = none

-- What a macro's value means: no value is false, a number is true unless it is zero, and anything else
-- is no condition.
abbrev pub macro_truth : Option Argument → Option Bool
macro_truth none = some false
macro_truth (some (literal (pos n))) = some (ltb 0 n)
macro_truth (some (literal (negsuc n))) = some true
macro_truth (some _) = none

value_truth-macro : (v : Option Argument) → value_truth v ≡ macro_truth v
value_truth-macro none = refl
value_truth-macro (some (literal (pos n))) = ap some (ground arith)
value_truth-macro (some (literal (negsuc n))) = refl
value_truth-macro (some _) = refl

-- The value of a condition where `values` are the defines, if it has one.
unfoldable mutual
  pub truth_unary : (String → Option Argument) → Unary → Option Bool
  truth_unary values (number k) = some (ltb 0 (numeral_value k))
  truth_unary values (macro t) = macro_truth (values t)
  truth_unary values (defined t) = some (is_some (values t))
  truth_unary values (negation u) = not_value (truth_unary values u)
  truth_unary values (group c) = truth_any values c

  pub truth_all : (String → Option Argument) → All → Option Bool
  truth_all values (one u) = truth_unary values u
  truth_all values (and_also u us) = both (truth_unary values u) (truth_all values us)

  pub truth_any : (String → Option Argument) → Any → Option Bool
  truth_any values (only c) = truth_all values c
  truth_any values (or_else c cs) = either (truth_all values c) (truth_any values cs)

unfoldable mutual
  pub write_unary : Unary → List String
  write_unary (number k) = numeral_text k ∷ []
  write_unary (macro t) = t ∷ []
  write_unary (defined t) = "defined" ∷ "(" ∷ t ∷ ")" ∷ []
  write_unary (negation u) = "!" ∷ write_unary u
  write_unary (group c) = "(" ∷ (write_any c ++ ")" ∷ [])

  pub write_all : All → List String
  write_all (one u) = write_unary u
  write_all (and_also u us) = write_unary u ++ ("&&" ∷ write_all us)

  pub write_any : Any → List String
  write_any (only c) = write_all c
  write_any (or_else c cs) = write_all c ++ ("||" ∷ write_any cs)

-- A token that is no operator and no number.
abbrev pub is_name : String → Bool
is_name t = not (t == "!") && (not (t == "(") && (not (t == "defined") && not (starts_digit t)))

unfoldable mutual
  pub is_good_unary : Unary → Bool
  is_good_unary (number k) = is_good_numeral k
  is_good_unary (macro t) = is_word t && is_name t
  is_good_unary (defined t) = is_word t
  is_good_unary (negation u) = is_good_unary u
  is_good_unary (group c) = is_good_any c

  pub is_good_all : All → Bool
  is_good_all (one u) = is_good_unary u
  is_good_all (and_also u us) = is_good_unary u && is_good_all us

  pub is_good_any : Any → Bool
  is_good_any (only c) = is_good_all c
  is_good_any (or_else c cs) = is_good_all c && is_good_any cs

abbrev pub values_of : Preproc → String → Option Argument
values_of st name = define_of st.defines name

-- The outcome of a parser: no value is an exception, and a value leaves the rest of the tokens and the
-- values of the defines.
abbrev pub Evaluates : Outcome Parsed → Option Bool → List String → Preproc → Type 0
Evaluates r none rest st = r ≡ raised
Evaluates r (some b) rest st =
    (st' : Preproc) × (r ≡ ok (record { value = b; tokens = rest; state = st' }))
    × (values_of st' ≡ values_of st)

pub or_raise-Evaluates :
    (v : Option Bool) (rest : List String) (st : Preproc) → Evaluates (or_raise v rest st) v rest st
or_raise-Evaluates none rest st = refl
or_raise-Evaluates (some b) rest st = (st, refl, refl)

checked_values :
    (name directive : String) (st : Preproc)
    → values_of (check_ifdef name directive st).1 ≡ values_of st
checked_values name directive st = λ i other. check_ifdef-define_of name directive st other i

not_token :
    (t token : String) → starts_digit t ≡ true → starts_digit token ≡ false → (t == token) ≡ false
not_token t token h h' = elim (Bool-cases (t == token)) [
  | inl e ↦ absurd (ground (arith, sym h ∙ ap starts_digit ((string_eq.same_iff t token).0 e) ∙ h'))
  | inr e ↦ e
]

module _ (directive : String) where
  pub eval_name-Evaluates :
      (t : String) (rest : List String) (st : Preproc) (v : Option Argument)
      → Evaluates (eval_name directive t rest st v) (macro_truth v) rest st
  eval_name-Evaluates t rest st none =
      ((check_ifdef t directive st).1, refl, checked_values t directive st)
  eval_name-Evaluates t rest st (some v) =
      subst (λ r. Evaluates (or_raise (value_truth (some v)) rest st) r rest st)
        (value_truth-macro (some v)) (or_raise-Evaluates (value_truth (some v)) rest st)

  pub number_step :
      (f : ℕ) (t : String) (rest : List String) (st : Preproc)
      → starts_digit t ≡ true
      → parse1 directive (suc f) (t ∷ rest) st ≡ or_raise (number_truth t) rest st
  unfolding parse1
  number_step f t rest st h =
      rw (parse1, not_token t "!" h refl, not_token t "(" h refl, not_token t "defined" h refl, h)
        refl

  pub name_step :
      (f : ℕ) (t : String) (rest : List String) (st : Preproc)
      → is_name t ≡ true
      → parse1 directive (suc f) (t ∷ rest) st
        ≡ eval_name directive t rest st (define_of st.defines t)
  unfolding parse1
  name_step f t rest st h =
      let (n1, h1) =
        and-eq_true (not (t == "!"))
          (not (t == "(") && (not (t == "defined") && not (starts_digit t))) h in
      let (n2, h2) =
        and-eq_true (not (t == "(")) (not (t == "defined") && not (starts_digit t)) h1 in
      let (n3, n4) = and-eq_true (not (t == "defined")) (not (starts_digit t)) h2 in
      rw
        (
          parse1,
          not-eq_true (t == "!") n1,
          not-eq_true (t == "(") n2,
          not-eq_true (t == "defined") n3,
          not-eq_true (starts_digit t) n4,
        )
        refl

  pub parse1-Evaluates_defined :
      (f : ℕ) (t : String) (rest : List String) (st : Preproc)
      → Evaluates
          (parse1 directive (suc f) ("defined" ∷ "(" ∷ t ∷ ")" ∷ rest) st)
          (some (is_some (values_of st t)))
          rest
          st
  unfolding parse1
  parse1-Evaluates_defined f t rest st = (
    (check_ifdef t directive st).1,
    ap (λ b. ok (record { value = b; tokens = rest; state = (check_ifdef t directive st).1 }))
        (check_ifdef-is_some t directive st),
    checked_values t directive st,
  )

  pub parse1-Evaluates_negation :
      (f : ℕ) (toks rest : List String) (st : Preproc) (v : Option Bool)
      → Evaluates (parse1 directive f toks st) v rest st
      → Evaluates (parse1 directive (suc f) ("!" ∷ toks) st) (not_value v) rest st
  unfolding parse1
  parse1-Evaluates_negation f toks rest st none e = rw e refl
  parse1-Evaluates_negation f toks rest st (some b) (st', e, same) = (st', rw e refl, same)

  pub parse1-Evaluates_group :
      (f : ℕ) (toks rest : List String) (st : Preproc) (v : Option Bool)
      → Evaluates (parse3 directive f toks st) v (")" ∷ rest) st
      → Evaluates (parse1 directive (suc f) ("(" ∷ toks) st) v rest st
  unfolding parse1
  parse1-Evaluates_group f toks rest st none e = rw e refl
  parse1-Evaluates_group f toks rest st (some b) (st', e, same) = (st', rw e refl, same)

abbrev pub after : Option Bool → (Bool → Option Bool) → Option Bool
after none w = none
after (some b) w = w b

pub Evaluates-bind :
    (call : Outcome Parsed) (next : Parsed → Outcome Parsed) (v goal : Option Bool)
    (w : Bool → Option Bool) (mid rest : List String) (st : Preproc)
    → after v w ≡ goal
    → Evaluates call v mid st
    → ((b : Bool) (st' : Preproc)
        → values_of st' ≡ values_of st
        → Evaluates (next (record { value = b; tokens = mid; state = st' })) (w b) rest st')
    → Evaluates (call >>= next) goal rest st
Evaluates-bind call next v goal w mid rest st same e k =
    subst (λ o. Evaluates (call >>= next) o rest st) same (chain v e)
  where
    onwards :
        (w' : Option Bool) (b : Bool) (st' : Preproc)
        → call ≡ ok (record { value = b; tokens = mid; state = st' })
        → values_of st' ≡ values_of st
        → Evaluates (next (record { value = b; tokens = mid; state = st' })) w' rest st'
        → Evaluates (call >>= next) w' rest st
    onwards none b st' e same' h = rw e h
    onwards (some c) b st' e same' (st'', e', same'') = (st'', rw e e', same'' ∙ same')

    chain :
        (v : Option Bool) → Evaluates call v mid st → Evaluates (call >>= next) (after v w) rest st
    chain none e = rw e refl
    chain (some b) (st', e, same') = onwards (w b) b st' e same' (k b st' same')

pub after-some : (v : Option Bool) → after v some ≡ v
after-some none = refl
after-some (some b) = refl

pub after-both : (v w : Option Bool) → after v (λ b. both (some b) w) ≡ both v w
after-both none w = refl
after-both (some b) w = refl

pub after_and : (r : Bool) (v : Option Bool) → after v (λ b. some (r && b)) ≡ both (some r) v
after_and r none = refl
after_and r (some b) = refl

pub after_ands :
    (r : Bool) (v w : Option Bool)
    → after v (λ b. both (some (r && b)) w) ≡ both (some r) (both v w)
after_ands r none w = refl
after_ands r (some b) none = refl
after_ands r (some b) (some c) = ap some (ground arith)

pub after-either : (v w : Option Bool) → after v (λ b. either (some b) w) ≡ either v w
after-either none w = refl
after-either (some b) w = refl

pub after_or : (r : Bool) (v : Option Bool) → after v (λ b. some (r || b)) ≡ either (some r) v
after_or r none = refl
after_or r (some b) = refl

pub after_ors :
    (r : Bool) (v w : Option Bool)
    → after v (λ b. either (some (r || b)) w) ≡ either (some r) (either v w)
after_ors r none w = refl
after_ors r (some b) none = refl
after_ors r (some b) (some c) = ap some (ground arith)

-- The text ends, or goes on with another token.
abbrev pub goes_on_without : String → List String → Bool
goes_on_without token [] = true
goes_on_without token (t ∷ rest) = not (t == token)
