-- ===== src/Pattern/Matcher.antt =====
-- m2c/asm_pattern.py: AsmMatcher and its try_match. The matcher's `arch` is a parameter where it is
-- used; `asm_data` is only handed on to the patterns, which are functions here.
use m2c.Prelude.{
  ℕ, ◌+◌, ◌-◌, Bool, true, false, Option, none, some, List, [], ◌∷◌, String, if◌then◌else◌, take,
  drop, get_elem?, Outcome, ok, raised, ◌>>=◌, nat_beq,
}
use m2c.Prelude.Int.{ℤ}
use m2c.Prelude.Dict.{Map}
use m2c.Prelude.Text.{codes}
use m2c.Asm.{Register, Label, BodyPart}
use m2c.Pattern.{TryMatchState, Answer, empty_state}
use m2c.Pattern.Part.{PatternPart, instr_part, Pattern, match_one, match_meta}

pub record AsmMatch : Type 0 where
  pub body : List BodyPart
  pub wildcard_items : List BodyPart
  pub regs : Map String Register
  pub literals : Map String ℤ
  pub labels : Map String Label

pub record AsmMatcher : Type 0 where
  pub input : List BodyPart
  pub labels : List String
  pub output : List BodyPart
  pub index : ℕ

-- `pat.mnemonic[0] == "."`, which raises on an empty mnemonic.
abbrev pub dot_first : List ℕ → Outcome Bool
dot_first [] = raised
dot_first (c ∷ cs) = ok (nat_beq c b'.')

abbrev pub is_meta : PatternPart → Outcome Bool
is_meta (instr_part ins) = dot_first (codes ins.mnemonic)
is_meta _ = ok false

abbrev meta_answer : PatternPart → TryMatchState → Outcome Answer
meta_answer (instr_part ins) st = match_meta ins st
meta_answer _ st = raised

-- `index < len(self.input) and state.match_one(self.input[index], pat)`.
abbrev pub part_answer : Option BodyPart → PatternPart → TryMatchState → Outcome Answer
part_answer (some actual) pat st = match_one actual pat st
part_answer none pat st = ok (false, st)

-- How the loop over the pattern goes on after a part, at the next index and state, if it does.
abbrev pub Progress : Type 0
Progress = Option (ℕ × TryMatchState)

abbrev after_meta : Bool → ℕ → Answer → Progress
after_meta optional index (true, st) = some (index, st)
after_meta optional index (false, st) = if optional then some (index, st) else none

abbrev pub after_part : Bool → ℕ → Answer → Progress
after_part optional index (true, st) = some (index + 1, st)
after_part optional index (false, st) = if optional then some (index, st) else none

-- One round of the loop.
unfoldable pub match_step :
    List BodyPart → PatternPart × Bool → ℕ → TryMatchState → Outcome Progress
match_step input (pat, optional) index st = do
  meta ← is_meta pat
  elim meta [
    | true ↦ do answer ← meta_answer pat st; ok (after_meta optional index answer)
    | false ↦ do
      answer ← part_answer (get_elem? input index) pat st
      ok (after_part optional index answer)
  ]

unfoldable pub match_parts : List BodyPart → Pattern → ℕ → TryMatchState → Outcome Progress
match_parts input [] index st = ok (some (index, st))
match_parts input (part ∷ parts) index st = do
  progress ← match_step input part index st
  elim progress [ some (index', st') ↦ match_parts input parts index' st' | none ↦ ok none ]

-- `self.input[start_index:index]` with what the state holds.
abbrev pub as_match : List BodyPart → ℕ → Progress → Option AsmMatch
as_match input start none = none
as_match input start (some (index, st)) = some (record {
  body = take (index - start) (drop start input);
  wildcard_items = st.wildcard_items;
  regs = st.symbolic_registers;
  literals = st.symbolic_literals;
  labels = st.symbolic_labels_def;
})

unfoldable pub try_match : AsmMatcher → Pattern → Outcome (Option AsmMatch)
try_match matcher pattern = do
  progress ← match_parts matcher.input pattern matcher.index empty_state
  ok (as_match matcher.input matcher.index progress)
