-- ===== src/Pattern.antt =====
-- m2c/asm_pattern.py: the data of assembly patterns, and what one attempt at a match remembers.
pub mod Part
pub mod Matcher
pub mod Rewrite
pub mod Extends
pub mod Instance
pub mod Sound
pub mod Parts
pub mod Segment
pub mod Clobbers
pub mod Loop
use m2c.Prelude.{
  ℕ, zero, suc, ◌+◌, ◌≡◌, refl, Bool, true, false, not, ◌&&◌, ◌||◌, Option, none, some, List, [],
  ◌∷◌, ◌++◌, String, Eq, ◌==◌, string_eq, option_beq, leb, nat_beq, if◌then◌else◌, length, contains,
  Outcome, ok, raised, ◌>>=◌,
}
use m2c.Prelude.Int.{ℤ, pos, negsuc, ◌+ℤ◌, ◌-ℤ◌, shl, int_eq}
use m2c.Prelude.Dict.{Map, lookup, insert}
use m2c.Prelude.Text.{codes, is_upper, starts_with_code}
use m2c.Asm.{
  Register, register_eq, Writeback, pre, post, Argument, register, register_list, global_symbol,
  section_symbol, address_mode, macro, literal, bin_op, symbol_name?, Label, BodyPart,
}

-- TryMatchState. The sets of uses are lists; a key with no entry stands for the empty set, as in
-- Python's `defaultdict(set)`.
pub record TryMatchState : Type 0 where
  pub symbolic_registers : Map String Register
  pub symbolic_labels_def : Map String Label
  pub symbolic_labels_uses : Map String (List String)
  pub symbolic_literals : Map String ℤ
  pub wildcard_items : List BodyPart

abbrev pub empty_state : TryMatchState
empty_state = record {
  symbolic_registers = [];
  symbolic_labels_def = [];
  symbolic_labels_uses = [];
  symbolic_literals = [];
  wildcard_items = [];
}

-- A method that answers yes or no; what it bound before it failed stays bound.
abbrev pub Answer : Type 0
Answer = Bool × TryMatchState

-- match_var, with the dictionary that it may extend.
unfoldable pub match_var : {T : Type 0} ⦃e : Eq T⦄ → Map String T → String → T → Bool × Map String T
match_var var_map key value = elim (lookup key var_map) [
  | some known ↦ (known == value, var_map)
  | none ↦ (true, insert key value var_map)
]

-- A register name of one letter is a variable.
abbrev pub is_symbolic : Register → Bool
is_symbolic exp = leb (length (codes exp.register_name)) 1

unfoldable pub match_reg : Register → Register → TryMatchState → Answer
match_reg actual exp st =
    let found = match_var st.symbolic_registers exp.register_name actual in
    if is_symbolic exp
    then (found.0, record st { symbolic_registers = found.1 })
    else (exp.register_name == actual.register_name, st)

abbrev pub uses_of : TryMatchState → String → List String
uses_of st key = elim (lookup key st.symbolic_labels_uses) [ some us ↦ us | none ↦ [] ]

-- `us <= set(names)`.
abbrev pub all_in : List String → List String → Bool
all_in [] names = true
all_in (u ∷ us) names = contains names u && all_in us names

-- match_label_def: a pattern defines each of its labels once.
unfoldable pub match_label_def : String → Label → TryMatchState → Outcome Answer
match_label_def key defn st = elim (lookup key st.symbolic_labels_def) [
  | some _ ↦ raised
  | none ↦ ok (
    all_in (uses_of st key) defn.names,
    record st { symbolic_labels_def = insert key defn st.symbolic_labels_def },
  )
]

-- `defn is not None and use not in defn.names`.
abbrev pub excludes : Option Label → String → Bool
excludes none use_name = false
excludes (some defn) use_name = not (contains defn.names use_name)

unfoldable pub match_label_use : String → String → TryMatchState → Answer
match_label_use key use_name st =
    if excludes (lookup key st.symbolic_labels_def) use_name then (false, st) else (
      true,
      record st {
        symbolic_labels_uses = insert key (use_name ∷ uses_of st key) st.symbolic_labels_uses;
      },
    )

abbrev math_op : String → ℤ → ℤ → Outcome ℤ
math_op op a (pos b) =
    if op == "+"
    then ok (a +ℤ pos b)
    else if op == "-"
    then ok (a -ℤ pos b)
    else if op == "<<"
    then ok (shl a b)
    else raised
math_op op a (negsuc b) =
    if op == "+" then ok (a +ℤ negsuc b) else if op == "-" then ok (a -ℤ negsuc b) else raised

abbrev known_literal : Map String ℤ → String → Outcome ℤ
known_literal literals s = elim (lookup s literals) [ some v ↦ ok v | none ↦ raised ]

-- eval_math: an expression of a pattern, over the literals bound so far.
unfoldable pub eval_math : Map String ℤ → Argument → Outcome ℤ
eval_math literals (literal v) = ok v
eval_math literals (bin_op op l r) = do
  a ← eval_math literals l
  b ← eval_math literals r
  math_op op a b
eval_math literals (global_symbol s) = known_literal literals s
eval_math literals (section_symbol s _ _) = known_literal literals s
eval_math literals _ = raised

abbrev pub is_barrel_op : String → Bool
is_barrel_op op = op == "lsl" || op == "lsr" || op == "asr" || op == "ror" || op == "rrx"

-- The cases of a name in a pattern: a label, a literal variable, any other name but `_`.
abbrev pub match_label_name : Option String → String → TryMatchState → Answer
match_label_name (some n) s st = match_label_use s n st
match_label_name none s st = (false, st)

abbrev pub match_literal_name : Argument → String → TryMatchState → Answer
match_literal_name (literal v) s st =
    let found = match_var st.symbolic_literals s v in
    (found.0, record st { symbolic_literals = found.1 })
match_literal_name _ s st = (false, st)

abbrev pub match_plain_name : Option String → String → TryMatchState → Answer
match_plain_name (some n) s st = (n == s, st)
match_plain_name none s st = (false, st)

unfoldable pub match_symbol : Argument → String → TryMatchState → Answer
match_symbol a s st =
    if starts_with_code b'.' s
    then match_label_name (symbol_name? a) s st
    else if is_upper s
    then match_literal_name a s st
    else if s == "_"
    then (true, st)
    else match_plain_name (symbol_name? a) s st

-- `all(self.match_reg(ar, er) for ar, er in zip(…))`, which stops at the first mismatch.
unfoldable pub match_regs : List Register → List Register → TryMatchState → Answer
match_regs (a ∷ as_) (e ∷ es) st =
    let now = match_reg a e st in
    let rest = match_regs as_ es now.1 in if now.0 then rest else (false, now.1)
match_regs _ _ st = (true, st)

abbrev pub writeback_beq : Option Writeback → Option Writeback → Bool
writeback_beq = option_beq same
  where
    same : Writeback → Writeback → Bool
    same pre pre = true
    same post post = true
    same _ _ = false

-- `first and second`, where the second is asked only if the first holds.
abbrev pub and_then : Answer → (TryMatchState → Outcome Answer) → Outcome Answer
and_then now rest = elim now.0 [ true ↦ rest now.1 | false ↦ ok (false, now.1) ]

-- `… and test`, for a test that changes nothing.
abbrev pub and_test : Bool → Answer → Outcome Answer
and_test test now = ok (now.0 && test, now.1)

unfoldable pub match_arg : Argument → Argument → TryMatchState → Outcome Answer
match_arg (literal w) (literal v) st = ok (w == v, st)
match_arg _ (literal v) st = ok (false, st)
match_arg (register a) (register e) st = ok (match_reg a e st)
match_arg _ (register e) st = ok (false, st)
match_arg a (global_symbol s) st = ok (match_symbol a s st)
match_arg a (section_symbol s _ _) st = ok (match_symbol a s st)
match_arg (address_mode b d w) (address_mode b' d' w') st =
    and_then (match_reg b b' st) λ st₁. match_arg d d' st₁ >>= and_test (writeback_beq w w')
match_arg _ (address_mode _ _ _) st = ok (false, st)
match_arg (bin_op op l r) (bin_op op' l' r') st =
    and_then (is_barrel_op op' && op == op', st)
      λ st₁. match_arg l l' st₁ >>= λ now. and_then now (match_arg r r')
match_arg (literal v) (bin_op op' l' r') st =
    and_then (not (is_barrel_op op'), st)
      λ st₁. eval_math st₁.symbolic_literals (bin_op op' l' r') >>= λ n. ok (v == n, st₁)
match_arg _ (bin_op _ _ _) st = ok (false, st)
match_arg (macro n a) (macro n' a') st = and_then (n == n', st) (match_arg a a')
match_arg _ (macro _ _) st = ok (false, st)
match_arg (register_list as_) (register_list es) st =
    ok (if nat_beq (length as_) (length es) then match_regs as_ es st else (false, st))
match_arg _ (register_list _) st = ok (false, st)
