-- ===== src/Examples/Pattern.antt =====
-- Assembly patterns (m2c/asm_pattern.py) on concrete bodies, as `addiu $a0, $a0, 4` against the pattern
-- `addiu $x, $x, N`.
use m2c.Prelude.{
  ℕ, zero, suc, ◌<◌, ◌≡◌, ◌≢◌, refl, true, false, Option, none, some, List, [], ◌∷◌, String, take,
  drop, subst, ok-injective, ok, raised, out_of_fuel, In, inl, inr, arith,
}
use mathlib.Core.Option.{some-injective}
use m2c.Prelude.Int.{pos}
use m2c.Prelude.Dict.{lookup, insert}
use m2c.Asm.{
  Register, Argument, register, global_symbol, literal, Location, reg, Instruction, BodyPart, instr,
  label,
}
use m2c.Pattern.{
  TryMatchState, empty_state, match_var, match_reg, match_symbol, match_arg, match_label_def,
  match_label_use,
}
use m2c.Pattern.Part.{
  instr_part, label_part, Pattern, match_args, match_operands, match_instr, match_label, match_one,
}
use m2c.Pattern.Matcher.{AsmMatch, AsmMatcher, match_step, match_parts, try_match}
use m2c.Pattern.Rewrite.{
  Replacement, part, missing_meta, ParseInstruction, parse_parts, derived_meta, all_writes,
  final_clobbers, set_final_clobbers, add_missing, infer_clobbers, with_clobbers, apply, AsmPattern,
  advance, run_pattern, simplify_pattern, simplify_patterns,
}
use m2c.Pattern.Extends.{IsConsistent, empty_state-IsConsistent, Extends, match_arg-Extends}
use m2c.Pattern.Instance.{Instance}
use m2c.Pattern.Sound.{match_arg-Instance}
use m2c.Pattern.Segment.{Selects, try_match-Selects}
use m2c.Pattern.Clobbers.{emitted, apply-writes, apply-keeps_writes}
use m2c.Pattern.Loop.{Consumes, simplify_patterns-ends, simplify_patterns-same}

abbrev r : String → Register
r s = record { register_name = s }

abbrev simple : String → List Argument → List Location → Instruction
simple mnemonic args outputs = record {
  mnemonic = mnemonic;
  args = args;
  meta = missing_meta;
  inputs = [];
  clobbers = [];
  outputs = outputs;
  jump_target = none;
  function_target = none;
  is_conditional = false;
  is_return = false;
  is_load = false;
  is_store = false;
  is_effectful = true;
  has_delay_slot = false;
  is_branch_likely = false;
  in_pattern = false;
}

abbrev addiu : BodyPart
addiu = instr (
    simple "addiu" (register (r "a0") ∷ register (r "a0") ∷ literal (pos 4) ∷ [])
      (reg (r "a0") ∷ []))

abbrev move : BodyPart
move = instr (simple "move" (register (r "v0") ∷ register (r "a0") ∷ []) (reg (r "v0") ∷ []))

abbrev increment : Pattern
increment =
    (
      instr_part (record {
        mnemonic = "addiu";
        args = register (r "x") ∷ register (r "x") ∷ global_symbol "N" ∷ [];
      }),
      false,
    )
    ∷ []

abbrev at_second : AsmMatcher
at_second = record { input = move ∷ addiu ∷ []; labels = []; output = move ∷ []; index = 1 }

abbrev increment_match : AsmMatch
increment_match = record {
  body = addiu ∷ [];
  wildcard_items = [];
  regs = ("x", r "a0") ∷ [];
  literals = ("N", pos 4) ∷ [];
  labels = [];
}

increment_matches : try_match at_second increment ≡ ok (some increment_match)
unfolding try_match match_parts match_step match_one match_instr match_operands match_args match_arg
    match_symbol match_reg match_var lookup insert
increment_matches = refl

-- A branch to a label behind it: `bnez $x, .L` and `.L:`.
abbrev branch_over : Pattern
branch_over =
    (
      instr_part (record { mnemonic = "bnez"; args = register (r "x") ∷ global_symbol ".L" ∷ [] }),
      false,
    )
    ∷ (label_part (record { names = ".L" ∷ [] }), false)
    ∷ []

abbrev branch_matcher : String → AsmMatcher
branch_matcher name = record {
  input =
      instr (simple "bnez" (register (r "a0") ∷ global_symbol ".after" ∷ []) [])
      ∷ label (record { names = name ∷ [] })
      ∷ [];
  labels = [];
  output = [];
  index = 0;
}

abbrev branch_match : AsmMatch
branch_match = record {
  body = (branch_matcher ".after").input;
  wildcard_items = [];
  regs = ("x", r "a0") ∷ [];
  literals = [];
  labels = (".L", record { names = ".after" ∷ [] }) ∷ [];
}

branch_matches : try_match (branch_matcher ".after") branch_over ≡ ok (some branch_match)
unfolding try_match match_parts match_step match_one match_instr match_operands match_args match_arg
    match_symbol match_reg match_var match_label match_label_def match_label_use lookup insert
branch_matches = refl

-- The label behind the branch is another one.
branch_elsewhere : try_match (branch_matcher ".other") branch_over ≡ ok none
unfolding try_match match_parts match_step match_one match_instr match_operands match_args match_arg
    match_symbol match_reg match_var match_label match_label_def match_label_use lookup insert
branch_elsewhere = refl

try_match-Selects_example :
    (n : ℕ) × (st : TryMatchState) × (branch_match.body
      ≡ take n (drop 0 (branch_matcher ".after").input))
    × Selects st branch_match.body branch_over
    × (branch_match.regs ≡ st.symbolic_registers)
    × (branch_match.literals ≡ st.symbolic_literals)
    × (branch_match.labels ≡ st.symbolic_labels_def)
    × IsConsistent st
try_match-Selects_example =
    try_match-Selects (branch_matcher ".after") branch_over branch_match
      (refl, refl, (refl, refl, tt)) branch_matches

abbrev bound_state : TryMatchState
bound_state = record empty_state { symbolic_registers = ("x", r "a0") ∷ [] }

x_matches : match_arg (register (r "a0")) (register (r "x")) empty_state ≡ ok (true, bound_state)
unfolding match_arg match_reg match_var lookup insert
x_matches = refl

match_arg-Instance_example :
    Instance bound_state (register (r "a0")) (register (r "x")) × IsConsistent bound_state
match_arg-Instance_example =
    match_arg-Instance (register (r "a0")) (register (r "x")) empty_state bound_state
      empty_state-IsConsistent x_matches

match_arg-Extends_example : Extends empty_state bound_state
match_arg-Extends_example =
    match_arg-Extends (register (r "a0")) (register (r "x")) empty_state true bound_state x_matches

-- The two instructions are replaced by one that writes only v0, so a0 is clobbered.
abbrev both : AsmMatcher
both = record { input = move ∷ addiu ∷ []; labels = []; output = []; index = 0 }

abbrev fused : Instruction
fused = simple "fused" [] (reg (r "v0") ∷ [])

abbrev fuse : Replacement
fuse = record { new_body = part (instr fused) ∷ []; num_consumed = 2; clobbers = none }

abbrev no_parser : ParseInstruction
no_parser mnemonic args meta = raised

abbrev fused_matcher : AsmMatcher
fused_matcher = record {
  input = move ∷ addiu ∷ [];
  labels = [];
  output = instr (record fused { clobbers = reg (r "a0") ∷ [] }) ∷ [];
  index = 2;
}

fuse_applied : apply no_parser fuse both ≡ ok fused_matcher
unfolding apply parse_parts with_clobbers infer_clobbers add_missing final_clobbers
    set_final_clobbers derived_meta
fuse_applied = refl

fuse_parsed :
    parse_parts no_parser (derived_meta (move ∷ addiu ∷ [])) fuse.new_body ≡ ok (instr fused ∷ [])
unfolding parse_parts
fuse_parsed = refl

apply-writes_example : In (reg (r "a0")) (all_writes (emitted both fused_matcher))
apply-writes_example =
    apply-writes no_parser fuse both fused_matcher (reg (r "a0")) refl fuse_applied (inr (inl refl))

apply-keeps_writes_example : In (reg (r "v0")) (all_writes (emitted both fused_matcher))
apply-keeps_writes_example =
    apply-keeps_writes no_parser fuse both fused_matcher (instr fused ∷ []) (reg (r "v0")) refl
      fuse_applied fuse_parsed (inl refl)

-- A pattern that fuses at the start and matches nowhere else.
abbrev fuse_at : ℕ → Option Replacement
fuse_at zero = some fuse
fuse_at (suc i) = none

abbrev fuse_first : AsmPattern
fuse_first m = ok (fuse_at m.index)

fuse_at-pos : (i : ℕ) (x : Replacement) → fuse_at i ≡ some x → 0 < x.num_consumed
fuse_at-pos zero x h =
    subst (λ (y : Replacement). 0 < y.num_consumed) (some-injective _ _ h) (omega arith)
fuse_at-pos (suc i) x h = cc

fuse_first-Consumes : Consumes no_parser fuse_first
fuse_first-Consumes = record {
  parse_ends = λ i args meta. cc;
  match_ends = λ m. cc;
  positive = λ m x h. fuse_at-pos m.index x (ok-injective h);
}

simplified :
    simplify_patterns no_parser (fuse_first ∷ []) (move ∷ addiu ∷ move ∷ [])
    ≡ ok (instr (record fused { clobbers = reg (r "a0") ∷ [] }) ∷ move ∷ [])
unfolding simplify_patterns simplify_pattern run_pattern advance apply parse_parts with_clobbers
    infer_clobbers add_missing final_clobbers set_final_clobbers derived_meta
simplified = refl

simplify_patterns-ends_example :
    simplify_patterns no_parser (fuse_first ∷ []) (move ∷ addiu ∷ []) ≢ out_of_fuel
simplify_patterns-ends_example =
    simplify_patterns-ends no_parser (fuse_first ∷ []) (fuse_first-Consumes, tt) (move ∷ addiu ∷ [])

abbrev never_match : AsmPattern
never_match m = ok none

simplify_patterns-same_example :
    simplify_patterns no_parser (never_match ∷ []) (move ∷ addiu ∷ []) ≡ ok (move ∷ addiu ∷ [])
simplify_patterns-same_example =
    simplify_patterns-same no_parser (never_match ∷ []) ((λ m. refl), tt) (move ∷ addiu ∷ [])
