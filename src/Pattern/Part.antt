-- ===== src/Pattern/Part.antt =====
-- m2c/asm_pattern.py: one part of a pattern against one part of a function's body
-- (TryMatchState.match_one), and the directives of a pattern (match_meta).
use m2c.Prelude.{
  ℕ, suc, Bool, true, false, none, some, List, [], ◌∷◌, ◌++◌, String, ◌==◌, string_eq, nat_beq,
  if◌then◌else◌, length, get_elem?, Outcome, ok, raised, ◌>>=◌, ◌>>◌, assert,
}
use m2c.Prelude.Dict.{lookup, insert, remove}
use m2c.Prelude.Text.{is_upper}
use m2c.Asm.{
  Register, Argument, register, literal, symbol_name?, AsmInstruction, Label, Instruction, BodyPart,
  instr, label,
}
use m2c.Pattern.{TryMatchState, Answer, and_then, match_label_def, eval_math, match_arg}

-- PatternPart: `None` is the wildcard.
pub data PatternPart : Type 0 where
  wildcard : PatternPart
  label_part : Label → PatternPart
  instr_part : AsmInstruction → PatternPart

-- Each part of a pattern with its flag `optional`.
abbrev pub Pattern : Type 0
Pattern = List (PatternPart × Bool)

-- The loop over `zip(ins.args, exp.args)`, left at the first mismatch.
unfoldable pub match_args : List Argument → List Argument → TryMatchState → Outcome Answer
match_args (a ∷ as_) (e ∷ es) st = do now ← match_arg a e st; and_then now (match_args as_ es)
match_args _ _ st = ok (true, st)

-- `if exp.args:`, so a pattern without arguments leaves them open.
unfoldable pub match_operands : List Argument → List Argument → TryMatchState → Outcome Answer
match_operands as_ [] st = ok (true, st)
match_operands as_ (e ∷ es) st =
    if nat_beq (length as_) (suc (length es)) then match_args as_ (e ∷ es) st else ok (false, st)

unfoldable pub match_instr : Instruction → AsmInstruction → TryMatchState → Outcome Answer
match_instr ins exp st =
    if ins.mnemonic == exp.mnemonic then match_operands ins.args exp.args st else ok (false, st)

unfoldable pub match_label : BodyPart → List String → TryMatchState → Outcome Answer
match_label (label l) (key ∷ []) st = match_label_def key l st
match_label (instr _) (key ∷ []) st = ok (false, st)
match_label _ _ st = raised

unfoldable pub match_one : BodyPart → PatternPart → TryMatchState → Outcome Answer
match_one actual wildcard st =
    ok (true, record st { wildcard_items = st.wildcard_items ++ actual ∷ [] })
match_one actual (label_part l) st = match_label actual l.names st
match_one (instr ins) (instr_part exp) st = match_instr ins exp st
match_one (label _) (instr_part exp) st = ok (false, st)

-- `ins.args[i]`.
abbrev arg_at : AsmInstruction → ℕ → Outcome Argument
arg_at ins i = elim (get_elem? ins.args i) [ some a ↦ ok a | none ↦ raised ]

abbrev set_literal : Argument → Argument → TryMatchState → Outcome Answer
set_literal target e st = elim (symbol_name? target) [
  | some s ↦ do
    assert (is_upper s)
    v ← eval_math st.symbolic_literals e
    ok (true, record st { symbolic_literals = insert s v st.symbolic_literals })
  | none ↦ raised
]

abbrev forget_reg : Register → TryMatchState → Outcome Answer
forget_reg r st = elim (lookup r.register_name st.symbolic_registers) [
  | some _ ↦
      ok (true, record st { symbolic_registers = remove r.register_name st.symbolic_registers })
  | none ↦ raised
]

abbrev forget : Argument → TryMatchState → Outcome Answer
forget (register r) st = forget_reg r st
forget _ st = raised

unfoldable pub match_meta : AsmInstruction → TryMatchState → Outcome Answer
match_meta ins st =
    if ins.mnemonic == ".eq"
    then (do
      e ← arg_at ins 1
      res ← eval_math st.symbolic_literals e
      target ← arg_at ins 0
      match_arg (literal res) target st)
    else if ins.mnemonic == ".set"
    then (do target ← arg_at ins 0; e ← arg_at ins 1; set_literal target e st)
    else if ins.mnemonic == ".forget"
    then (do target ← arg_at ins 0; forget target st)
    else raised
