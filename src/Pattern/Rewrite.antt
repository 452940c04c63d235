-- ===== src/Pattern/Rewrite.antt =====
-- m2c/asm_pattern.py: AsmMatcher.apply, which puts a replacement in the output and keeps track of
-- the registers that the replaced code wrote, and the loop of simplify_patterns.
-- `arch.parse` is virtual, one implementation to an architecture, and a pattern is any function that
-- looks at the matcher; both are parameters.
use m2c.Prelude.{
  ℕ, zero, suc, ◌+◌, Bool, true, false, ◌||◌, Option, none, some, List, [], ◌∷◌, ◌++◌, String,
  if◌then◌else◌, length, take, drop, get_elem?, contains, Outcome, ok, raised, out_of_fuel, ◌>>=◌,
}
use m2c.Asm.{
  Argument, AsmInstruction, Location, location_eq, InstructionMeta, Instruction, BodyPart, instr,
  label,
}
use m2c.Pattern.Matcher.{AsmMatcher}

-- ReplacementPart: an AsmInstruction still to be parsed, or a part of a body.
pub data ReplacementPart : Type 0 where
  asm : AsmInstruction → ReplacementPart
  part : BodyPart → ReplacementPart

pub record Replacement : Type 0 where
  pub new_body : List ReplacementPart
  pub num_consumed : ℕ
  pub clobbers : Option (List Location)

-- InstructionMeta.missing and derived.
abbrev pub missing_meta : InstructionMeta
missing_meta = record { emit_goto = false; filename = "<unknown>"; lineno = 0; synthetic = true }

abbrev pub derived : InstructionMeta → InstructionMeta
derived m = record m { synthetic = true }

unfoldable pub derived_meta : List BodyPart → InstructionMeta
derived_meta [] = missing_meta
derived_meta (instr i ∷ body) = derived i.meta
derived_meta (label l ∷ body) = derived_meta body

abbrev pub ParseInstruction : Type 0
ParseInstruction = String → List Argument → InstructionMeta → Outcome Instruction

abbrev parse_part : ParseInstruction → InstructionMeta → ReplacementPart → Outcome BodyPart
parse_part parse meta (asm i) = do parsed ← parse i.mnemonic i.args meta; ok (instr parsed)
parse_part parse meta (part p) = ok p

-- The parts of the replacement, with its instructions parsed.
unfoldable pub parse_parts :
    ParseInstruction → InstructionMeta → List ReplacementPart → Outcome (List BodyPart)
parse_parts parse meta [] = ok []
parse_parts parse meta (p ∷ ps) = do
  first ← parse_part parse meta p
  rest ← parse_parts parse meta ps
  ok (first ∷ rest)

-- The locations that a part writes: its outputs, then its clobbers.
abbrev pub writes : BodyPart → List Location
writes (instr i) = i.outputs ++ i.clobbers
writes (label l) = []

abbrev pub all_writes : List BodyPart → List Location
all_writes [] = []
all_writes (p ∷ ps) = writes p ++ all_writes ps

-- `final_instr`, the last instruction of the new parts, whose clobbers are extended in place.
unfoldable pub final_clobbers : List BodyPart → Option (List Location)
final_clobbers [] = none
final_clobbers (label l ∷ ps) = final_clobbers ps
final_clobbers (instr i ∷ ps) = elim (final_clobbers ps) [
  | some later ↦ some later
  | none ↦ some i.clobbers
]

unfoldable pub set_final_clobbers : List Location → List BodyPart → List BodyPart
set_final_clobbers locs [] = []
set_final_clobbers locs (label l ∷ ps) = label l ∷ set_final_clobbers locs ps
set_final_clobbers locs (instr i ∷ ps) = elim (final_clobbers ps) [
  | some _ ↦ instr i ∷ set_final_clobbers locs ps
  | none ↦ instr (record i { clobbers = locs }) ∷ ps
]

-- The locations of the input that the replacement does not write are appended, each once.
unfoldable pub add_missing : List Location → List Location → List Location → List Location
add_missing repl_writes known [] = known
add_missing repl_writes known (loc ∷ locs) =
    add_missing repl_writes
      (if contains repl_writes loc || contains known loc then known else known ++ loc ∷ []) locs

-- `repl.clobbers is None`: the assertion fails when something was written and nothing is left to
-- take the clobber.
unfoldable pub infer_clobbers : List Location → List BodyPart → Outcome (List BodyPart)
infer_clobbers [] new_parts = ok new_parts
infer_clobbers (loc ∷ locs) new_parts = elim (final_clobbers new_parts) [
  | none ↦ raised
  | some known ↦
      ok (set_final_clobbers (add_missing (all_writes new_parts) known (loc ∷ locs)) new_parts)
]

unfoldable pub explicit_clobbers : List Location → List BodyPart → Outcome (List BodyPart)
explicit_clobbers [] new_parts = ok new_parts
explicit_clobbers (loc ∷ locs) new_parts = elim (final_clobbers new_parts) [
  | none ↦ raised
  | some known ↦ ok (set_final_clobbers (known ++ loc ∷ locs) new_parts)
]

unfoldable pub with_clobbers :
    Option (List Location) → List BodyPart → List BodyPart → Outcome (List BodyPart)
with_clobbers none consumed new_parts = infer_clobbers (all_writes consumed) new_parts
with_clobbers (some locs) consumed new_parts = explicit_clobbers locs new_parts

unfoldable pub apply : ParseInstruction → Replacement → AsmMatcher → Outcome AsmMatcher
apply parse repl m = do
  let left = drop m.index m.input
  new_parts ← parse_parts parse (derived_meta left) repl.new_body
  emitted ← with_clobbers repl.clobbers (take repl.num_consumed left) new_parts
  ok (record m { output = m.output ++ emitted; index = m.index + repl.num_consumed })

abbrev pub AsmPattern : Type 0
AsmPattern = AsmMatcher → Outcome (Option Replacement)

-- `{name for item in body if isinstance(item, Label) for name in item.names}`.
abbrev pub label_names : List BodyPart → List String
label_names [] = []
label_names (label l ∷ body) = l.names ++ label_names body
label_names (instr i ∷ body) = label_names body

-- One round of the while loop at an index inside the input.
unfoldable pub advance :
    ParseInstruction → AsmPattern → AsmMatcher → BodyPart → Bool → Outcome (AsmMatcher × Bool)
advance parse pattern m item matched_any = do
  found ← pattern m
  elim found [
    | some repl ↦ do m' ← apply parse repl m; ok (m', true)
    | none ↦ ok (record m { output = m.output ++ item ∷ []; index = m.index + 1 }, matched_any)
  ]

-- The while loop of simplify_patterns for one pattern; the fuel bounds its rounds.
unfoldable pub run_pattern :
    ℕ → ParseInstruction → AsmPattern → AsmMatcher → Bool → Outcome (AsmMatcher × Bool)
run_pattern zero parse pattern m matched_any = out_of_fuel
run_pattern (suc f) parse pattern m matched_any = elim (get_elem? m.input m.index) [
  | some item ↦ do
    next ← advance parse pattern m item matched_any
    run_pattern f parse pattern next.0 next.1
  | none ↦ ok (m, matched_any)
]

abbrev pub fresh_matcher : List BodyPart → AsmMatcher
fresh_matcher body = record { input = body; labels = label_names body; output = []; index = 0 }

-- One round of the loop over the patterns. Each round takes at least one item, so one more round
-- than items is enough where a replacement consumes something.
unfoldable pub simplify_pattern :
    ParseInstruction → AsmPattern → List BodyPart → Outcome (List BodyPart)
simplify_pattern parse pattern body = do
  done ← run_pattern (suc (length body)) parse pattern (fresh_matcher body) false
  ok (if done.1 then done.0.output else body)

unfoldable pub simplify_patterns :
    ParseInstruction → List AsmPattern → List BodyPart → Outcome (List BodyPart)
simplify_patterns parse [] body = ok body
simplify_patterns parse (pattern ∷ patterns) body = do
  body' ← simplify_pattern parse pattern body
  simplify_patterns parse patterns body'
