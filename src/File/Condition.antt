-- ===== src/File/Condition.antt =====
-- eval_cpp_if of m2c/asm_file.py.
use Prim.Native.Char.{Char, code}
use m2c.Prelude.{
  ℕ, zero, suc, ◌+◌, ◌-◌, ◌*◌, Bool, true, false, not, ◌&&◌, ◌||◌, Option, none, some, List, [],
  ◌∷◌, ◌++◌, ◌==◌, string_eq, nat_beq, nat_eq, contains, ltb, leb, if◌then◌else◌, String,
  text_append, Outcome, ok, raised, out_of_fuel, ◌>>=◌, length,
}
use m2c.Prelude.Int.{ℤ, pos, int_beq, int_eq}
use m2c.Prelude.Text.{codes, is_digit_code, is_upper_code, is_lower_code}
use m2c.Asm.{Argument, literal, global_symbol, section_symbol, bin_op}
use m2c.File.{Preproc, define_of, check_ifdef}
pub mod Numeral
pub mod Tokens
pub mod Truth
pub mod Correct
pub mod Text

-- A character of `[a-zA-Z0-9_]`.
abbrev pub is_word_code : ℕ → Bool
is_word_code c = is_lower_code c || (is_upper_code c || (is_digit_code c || nat_beq c b'_'))

-- `isspace` on a single ASCII character.
abbrev is_space_code : ℕ → Bool
is_space_code c = nat_beq c b' ' || ((leb 9 c && leb c 13) || (leb 28 c && leb c 31))

-- The longest word at the front, and the rest.
unfoldable pub split_word : String → String × String
split_word String.[] = (String.[], String.[])
split_word (String.◌∷◌ c s) =
    let more = split_word s in
    if is_word_code (code c) then (String.◌∷◌ c (more.0), more.1) else (String.[], String.◌∷◌ c s)

-- The tokens of `[a-zA-Z0-9_]+|&&|\|\||.` but whitespace, on fuel for each token.
unfoldable pub tokenize : ℕ → String → List String
tokenize zero s = []
tokenize (suc f) String.[] = []
tokenize (suc f) (String.◌∷◌ c String.[]) =
    if is_space_code (code c) then [] else String.◌∷◌ c String.[] ∷ []
tokenize (suc f) (String.◌∷◌ c (String.◌∷◌ d s)) = elim (is_word_code (code c)) [
  | true ↦
      (split_word (String.◌∷◌ c (String.◌∷◌ d s))).0
      ∷ tokenize f (split_word (String.◌∷◌ c (String.◌∷◌ d s))).1
  | false ↦ elim (nat_beq (code c) (code d) && (nat_beq (code c) b'&' || nat_beq (code c) b'|')) [
    | true ↦ String.◌∷◌ c (String.◌∷◌ d String.[]) ∷ tokenize f s
    | false ↦ elim (is_space_code (code c)) [
      | true ↦ tokenize f (String.◌∷◌ d s)
      | false ↦ String.◌∷◌ c String.[] ∷ tokenize f (String.◌∷◌ d s)
    ]
  ]
]

-- The value of a digit in a base up to sixteen.
abbrev pub digit_value : ℕ → ℕ → Option ℕ
digit_value base c =
    let v =
      if is_digit_code c
      then c - b'0'
      else if leb b'a' c && leb c b'f'
      then c - b'a' + 10
      else if leb b'A' c && leb c b'F'
      then c - b'A' + 10
      else base in
    if ltb v base then some v else none

-- Digits with single underscores between them; `open` after an underscore, and where one may not stand.
unfoldable pub digits_value : ℕ → Bool → ℕ → List ℕ → Option ℕ
digits_value base after n [] = if after then none else some n
digits_value base after n (c ∷ cs) = elim (nat_beq c b'_') [
  | true ↦ elim after [ true ↦ none | false ↦ digits_value base true n cs ]
  | false ↦ elim (digit_value base c) [
    | none ↦ none
    | some v ↦ digits_value base false (n * base + v) cs
  ]
]

-- `int(text, 0)`, for a text that starts with a digit.
abbrev prefixed_value : ℕ → List ℕ → Option ℕ
prefixed_value base [] = none
prefixed_value base (c ∷ cs) = digits_value base false 0 (c ∷ cs)

abbrev pub decimal_value : List ℕ → Option ℕ
decimal_value [] = none
decimal_value (c ∷ cs) = elim (digits_value 10 true 0 (c ∷ cs)) [
  | none ↦ none
  | some n ↦ if nat_beq c b'0' && not (nat_beq n 0) then none else some n
]

unfoldable pub int_0 : List ℕ → Option ℕ
int_0 (z ∷ p ∷ cs) = elim (nat_beq z b'0') [
  | false ↦ decimal_value (z ∷ p ∷ cs)
  | true ↦ elim (contains (b'x' ∷ b'X' ∷ []) p) [
    | true ↦ prefixed_value 16 cs
    | false ↦ elim (contains (b'o' ∷ b'O' ∷ []) p) [
      | true ↦ prefixed_value 8 cs
      | false ↦ elim (contains (b'b' ∷ b'B' ∷ []) p) [
        | true ↦ prefixed_value 2 cs
        | false ↦ decimal_value (z ∷ p ∷ cs)
      ]
    ]
  ]
]
int_0 cs = decimal_value cs

-- `tok[0].isnumeric()`.
abbrev pub starts_digit : String → Bool
starts_digit String.[] = false
starts_digit (String.◌∷◌ c s) = is_digit_code (code c)

-- The value of a token that is a number; anything but an int raises.
abbrev pub number_truth : String → Option Bool
number_truth tok = elim (int_0 (codes tok)) [ none ↦ none | some n ↦ some (not (nat_beq n 0)) ]

-- The value of a name; the second component tells whether it is looked up by check_ifdef.
abbrev pub value_truth : Option Argument → Option Bool
value_truth none = some false
value_truth (some (literal v)) = some (not (v == pos 0))
value_truth (some _) = none

-- A value, the tokens from `i` on, and the state.
pub record Parsed : Type 0 where
  pub value : Bool
  pub tokens : List String
  pub state : Preproc

abbrev pub or_raise : Option Bool → List String → Preproc → Outcome Parsed
or_raise none toks st = raised
or_raise (some b) toks st = ok (record { value = b; tokens = toks; state = st })

-- `defined (name)`.
abbrev pub eval_defined : String → List String → Preproc → Outcome Parsed
eval_defined directive (open_bracket ∷ name ∷ close_bracket ∷ toks) st =
    if open_bracket == "(" && close_bracket == ")"
    then or_raise (some (check_ifdef name directive st).0) toks (check_ifdef name directive st).1
    else raised
eval_defined directive _ st = raised

-- A name: an unset one goes through check_ifdef, for its warning.
abbrev pub eval_name : String → String → List String → Preproc → Option Argument → Outcome Parsed
eval_name directive tok toks st none =
    ok (record { value = false; tokens = toks; state = (check_ifdef tok directive st).1 })
eval_name directive tok toks st (some value) = or_raise (value_truth (some value)) toks st

abbrev pub negated : Parsed → Outcome Parsed
negated p = ok (record { value = not p.value; tokens = p.tokens; state = p.state })

abbrev pub end_bracket : Bool → List String → Preproc → Outcome Parsed
end_bracket b [] st = raised
end_bracket b (tok ∷ toks) st =
    if tok == ")" then ok (record { value = b; tokens = toks; state = st }) else raised

-- Every token has to be read.
abbrev pub all_parsed : Parsed → Outcome (Bool × Preproc)
all_parsed p = elim p.tokens [ [] ↦ ok (p.value, p.state) | _ ∷ _ ↦ raised ]

-- A call takes a unit of fuel, and so does a round of a loop.
module _ (directive : String) where
  unfoldable mutual
    pub parse1 : ℕ → List String → Preproc → Outcome Parsed
    parse1 zero toks st = out_of_fuel
    parse1 (suc f) [] st = raised
    parse1 (suc f) (tok ∷ toks) st = elim (tok == "!") [
      | true ↦ parse1 f toks st >>= negated
      | false ↦ elim (tok == "(") [
        | true ↦ parse3 f toks st >>= λ p. end_bracket p.value p.tokens p.state
        | false ↦ elim (tok == "defined") [
          | true ↦ eval_defined directive toks st
          | false ↦ elim (starts_digit tok) [
            | true ↦ or_raise (number_truth tok) toks st
            | false ↦ eval_name directive tok toks st (define_of st.defines tok)
          ]
        ]
      ]
    ]

    pub parse2 : ℕ → List String → Preproc → Outcome Parsed
    parse2 zero toks st = out_of_fuel
    parse2 (suc f) toks st = parse1 f toks st >>= λ p. and_loop f p.value p.tokens p.state

    -- Both sides of an operator are evaluated.
    pub and_loop : ℕ → Bool → List String → Preproc → Outcome Parsed
    and_loop zero r toks st = out_of_fuel
    and_loop (suc f) r [] st = ok (record { value = r; tokens = []; state = st })
    and_loop (suc f) r (tok ∷ toks) st = elim (tok == "&&") [
      | true ↦ parse1 f toks st >>= λ p. and_loop f (r && p.value) p.tokens p.state
      | false ↦ ok (record { value = r; tokens = tok ∷ toks; state = st })
    ]

    pub parse3 : ℕ → List String → Preproc → Outcome Parsed
    parse3 zero toks st = out_of_fuel
    parse3 (suc f) toks st = parse2 f toks st >>= λ p. or_loop f p.value p.tokens p.state

    pub or_loop : ℕ → Bool → List String → Preproc → Outcome Parsed
    or_loop zero r toks st = out_of_fuel
    or_loop (suc f) r [] st = ok (record { value = r; tokens = []; state = st })
    or_loop (suc f) r (tok ∷ toks) st = elim (tok == "||") [
      | true ↦ parse2 f toks st >>= λ p. or_loop f (r || p.value) p.tokens p.state
      | false ↦ ok (record { value = r; tokens = tok ∷ toks; state = st })
    ]

  unfoldable pub eval_tokens : ℕ → List String → Preproc → Outcome (Bool × Preproc)
  eval_tokens fuel toks st = parse3 fuel toks st >>= all_parsed

  unfoldable pub eval_cpp_if : ℕ → String → Preproc → Outcome (Bool × Preproc)
  eval_cpp_if fuel expr st = eval_tokens fuel (tokenize (suc (length (codes expr))) expr) st
