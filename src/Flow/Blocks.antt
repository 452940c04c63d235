-- ===== src/Flow/Blocks.antt =====
-- m2c/flow_graph.py: Block, BlockBuilder, and build_blocks for the architectures without delay slots
-- and for fragments.
pub mod Order
pub mod Jumps
pub mod Finish
pub mod Total
pub mod Whole
use m2c.Prelude.{
  ℕ, zero, suc, ◌+◌, Bool, true, false, not, ◌||◌, ◌&&◌, Option, none, some, List, [], ◌∷◌, ◌++◌,
  String, text_append, string_eq, ◌==◌, if◌then◌else◌, ltb, Outcome, ok, raised, ◌>>=◌, ◌>>◌,
  assert,
}
use m2c.Prelude.Text.{decimal, strip_suffix}
use m2c.Asm.{
  Argument, global_symbol, Label, JumpDest, target, by_register, table, InstructionMeta,
  Instruction, BodyPart, instr, label,
}
use m2c.Pattern.Rewrite.{ParseInstruction, derived, AsmPattern, simplify_patterns}
use m2c.Flow.Labels.{minimize_labels}

-- The references of a block are its instructions.
pub record Block : Type 0 where
  pub index : ℕ
  pub block_label : Option Label
  pub approx_label_name : String
  pub instructions : List Instruction
  pub is_safeguard : Bool

pub record BlockBuilder : Type 0 where
  pub curr_index : ℕ
  pub curr_label : Option Label
  pub last_label_name : String
  pub label_counter : ℕ
  pub curr_instructions : List Instruction
  pub blocks : List Block

abbrev pub empty_builder : BlockBuilder
empty_builder = record {
  curr_index = 0;
  curr_label = none;
  last_label_name = "initial";
  label_counter = 0;
  curr_instructions = [];
  blocks = [];
}

abbrev pub label_name : BlockBuilder → String
label_name b =
    if ltb 0 b.label_counter
    then text_append b.last_label_name (text_append "." (decimal b.label_counter))
    else b.last_label_name

abbrev pub next_block : BlockBuilder → Block
next_block b = record {
  index = b.curr_index;
  block_label = b.curr_label;
  approx_label_name = label_name b;
  instructions = b.curr_instructions;
  is_safeguard = false;
}

abbrev pub after_block : BlockBuilder → BlockBuilder
after_block b = record {
  curr_index = b.curr_index + 1;
  curr_label = none;
  last_label_name = b.last_label_name;
  label_counter = b.label_counter + 1;
  curr_instructions = [];
  blocks = b.blocks ++ next_block b ∷ [];
}

-- The block that new_block returns is the last of `blocks` then.
unfoldable pub new_block : BlockBuilder → BlockBuilder
new_block b = elim b.curr_instructions [ [] ↦ b | _ ∷ _ ↦ after_block b ]

unfoldable pub add_instruction : Instruction → BlockBuilder → BlockBuilder
add_instruction i b = record b { curr_instructions = b.curr_instructions ++ i ∷ [] }

-- `assert not self._curr_label`, and `label.names[0]`, which raises on a label without a name.
unfoldable pub set_label : Label → BlockBuilder → Outcome BlockBuilder
set_label l b = elim b.curr_label [
  | some _ ↦ raised
  | none ↦ elim l.names [
    | [] ↦ raised
    | name ∷ _ ↦ ok (record b { curr_label = some l; last_label_name = name; label_counter = 0 })
  ]
]

abbrev pub is_jump : Instruction → Bool
is_jump i = elim i.jump_target [ some _ ↦ true | none ↦ i.is_return ]

abbrev pub internal_label : String → String → String
internal_label base related = text_append "._m2c_" (text_append related base)

-- What build_blocks changes: the builder and `cond_return_target`.
pub record Building : Type 0 where
  pub builder : BlockBuilder
  pub cond_return_target : Option String

abbrev pub return_label : Option String → String
return_label (some name) = name
return_label none = internal_label "conditionalreturn" ""

-- The loop over the list of jump targets.
unfoldable pub retarget : List String → Option String → List String × Option String
retarget [] cond_return = ([], cond_return)
retarget (name ∷ names) cond_return =
    if name == "_m2c_ret"
    then (let rest = retarget names (some (return_label cond_return)) in
        (return_label cond_return ∷ rest.0, rest.1))
    else (let rest = retarget names cond_return in (name ∷ rest.0, rest.1))

abbrev pub retarget_jump : Instruction → Option String → Instruction × Option String
retarget_jump i cond_return = elim i.jump_target [
  | some (table names) ↦
      if i.is_conditional
      then (let changed = retarget names cond_return in
          (record i { jump_target = some (table (changed.0)) }, changed.1))
      else (i, cond_return)
  | some (target _) ↦ (i, cond_return)
  | some (by_register _) ↦ (i, cond_return)
  | none ↦ (i, cond_return)
]

abbrev pub or_raise : Option String → Outcome String
or_raise (some s) = ok s
or_raise none = raised

unfoldable pub add_plain : Instruction → BlockBuilder → BlockBuilder
add_plain i b = let added = add_instruction i b in if is_jump i then new_block added else added

-- A conditional return becomes a branch to a return block at the end of the function.
unfoldable pub add_conditional_return : ParseInstruction → Instruction → Building → Outcome Building
add_conditional_return parse i s = do
  let name = return_label s.cond_return_target
  mnemonic ← or_raise (strip_suffix "lr" i.mnemonic)
  branch ← parse mnemonic (global_symbol name ∷ []) (derived i.meta)
  ok (record {
    builder = new_block (add_instruction branch s.builder);
    cond_return_target = some name;
  })

unfoldable pub process_instruction : ParseInstruction → Instruction → Building → Outcome Building
process_instruction parse item s =
    let changed = retarget_jump item s.cond_return_target in
    let i = changed.0 in
    let s' = record s { cond_return_target = changed.1 } in
    if i.is_conditional && i.is_return
    then add_conditional_return parse i s'
    else ok (record s' { builder = add_plain i s.builder })

unfoldable pub process_no_delay_slots : ParseInstruction → BodyPart → Building → Outcome Building
process_no_delay_slots parse (label l) s = do
  b ← set_label l (new_block s.builder)
  ok (record s { builder = b })
process_no_delay_slots parse (instr i) s = process_instruction parse i s

unfoldable pub process_all : ParseInstruction → List BodyPart → Building → Outcome Building
process_all parse [] s = ok s
process_all parse (item ∷ body) s = process_no_delay_slots parse item s >>= process_all parse body

abbrev pub mark_safeguard : List Block → List Block
mark_safeguard [] = []
mark_safeguard (b ∷ []) = record b { is_safeguard = true } ∷ []
mark_safeguard (b ∷ bs) = b ∷ mark_safeguard bs

abbrev pub add_instructions : List Instruction → BlockBuilder → BlockBuilder
add_instructions [] b = b
add_instructions (i ∷ is) b = add_instructions is (add_instruction i b)

-- `block_builder.new_block()`, whose block is asserted to exist and marked.
unfoldable pub add_safeguard : List Instruction → BlockBuilder → Outcome BlockBuilder
add_safeguard missing_return b =
    let full = add_instructions missing_return b in
    let closed = new_block full in
    elim full.curr_instructions [
      | [] ↦ raised
      | _ ∷ _ ↦ ok (record closed { blocks = mark_safeguard closed.blocks })
    ]

-- The empty return block that conditional returns jump to.
unfoldable pub add_return_block :
    List Instruction → Option String → BlockBuilder → Outcome BlockBuilder
add_return_block missing_return none b = ok b
add_return_block missing_return (some name) b = do
  labelled ← set_label (record { names = name ∷ [] }) b
  ok (new_block (add_instructions missing_return labelled))

abbrev pub is_empty_builder : BlockBuilder → Bool
is_empty_builder b = elim b.blocks [
  | _ ∷ _ ↦ false
  | [] ↦ elim b.curr_instructions [ [] ↦ true | _ ∷ _ ↦ false ]
]

-- What follows the loop over the body.
unfoldable pub finish_blocks : Bool → List Instruction → Building → Outcome (List Block)
finish_blocks fragment missing_return s =
    if is_empty_builder s.builder
    then raised
    else if fragment
    then ok ((new_block s.builder).blocks)
    else (add_safeguard missing_return s.builder >>= λ b.
        add_return_block missing_return s.cond_return_target b >>= λ b'. ok (b'.blocks))

abbrev pub start_building : Building
start_building = record { builder = empty_builder; cond_return_target = none }

unfoldable pub cut_blocks :
    ParseInstruction → Bool → List Instruction → List BodyPart → Outcome (List Block)
cut_blocks parse fragment missing_return body =
    process_all parse body start_building >>= finish_blocks fragment missing_return

-- build_blocks for an architecture without delay slots, or for a fragment.
unfoldable pub build_blocks :
    ParseInstruction
    → List AsmPattern
    → List String
    → List Instruction
    → Bool
    → List BodyPart
    → Outcome (List Block)
build_blocks parse patterns mentioned missing_return fragment body =
    if fragment
    then cut_blocks parse true missing_return body
    else (simplify_patterns parse patterns (minimize_labels mentioned body) >>= λ simplified.
        cut_blocks parse false missing_return (minimize_labels mentioned simplified))
