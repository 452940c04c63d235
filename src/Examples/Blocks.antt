-- ===== src/Examples/Blocks.antt =====
-- minimize_labels and build_blocks (m2c/flow_graph.py) on a small PowerPC function.
use m2c.Prelude.{
  ◌≡◌, refl, inl, inr, true, false, none, some, List, [], ◌∷◌, ◌++◌, String, string_eq, ok, raised,
}
use m2c.Prelude.Text.{strip_suffix, decimal, decimal_digits}
use m2c.Asm.{Argument, global_symbol, target, InstructionMeta, Instruction, BodyPart, instr, label}
use m2c.Pattern.Rewrite.{ParseInstruction, simplify_patterns}
use m2c.Flow.Labels.{
  keep_names, mentioned_names, jump_name, call_name, instruction_names, labels_used, flush,
  merge_labels, minimize_labels,
}
use m2c.Flow.Labels.Merge.{instructions, is_separated, minimize_labels-shape}
use m2c.Flow.Labels.Targets.{after_label, IsUsed, by_jump, minimize_labels-after_label}
use m2c.Flow.Blocks.{
  Block, new_block, set_label, process_no_delay_slots, process_all, cut_blocks, build_blocks,
}
use m2c.Flow.Blocks.Jumps.{are_cut}
use m2c.Flow.Blocks.Order.{block_instructions, emit}
use m2c.Flow.Blocks.Whole.{returned, build_blocks_lem}

abbrev pub here : InstructionMeta
here = record { emit_goto = false; filename = "f.s"; lineno = 1; synthetic = false }

abbrev pub plain : String → List Argument → InstructionMeta → Instruction
plain mnemonic args meta = record {
  mnemonic = mnemonic;
  args = args;
  meta = meta;
  inputs = [];
  clobbers = [];
  outputs = [];
  jump_target = none;
  function_target = none;
  is_conditional = false;
  is_return = false;
  is_load = false;
  is_store = false;
  is_effectful = true;
  has_delay_slot = false;
  is_branch_likely = false;
  in_pattern = false;
}

-- A parser that takes an instruction with a symbol for a conditional branch.
abbrev parse_branch : ParseInstruction
parse_branch mnemonic (global_symbol name ∷ args) meta =
    ok (record (plain mnemonic (global_symbol name ∷ args) meta) {
      jump_target = some (target name);
      is_conditional = true;
    })
parse_branch mnemonic args meta = ok (plain mnemonic args meta)

abbrev branch : String → String → Instruction
branch mnemonic name = record (plain mnemonic (global_symbol name ∷ []) here) {
  jump_target = some (target name);
  is_conditional = true;
}

abbrev blr : Instruction
blr = record (plain "blr" [] here) { is_return = true }

abbrev beqlr : Instruction
beqlr = record (plain "beqlr" [] here) { is_return = true; is_conditional = true }

abbrev named : String → BodyPart
named name = label (record { names = name ∷ [] })

-- A loop with an early return; nothing mentions `f`.
abbrev loop_body : List BodyPart
loop_body =
    named "f"
    ∷ instr (plain "nop" [] here)
    ∷ named ".dead"
    ∷ named ".loop"
    ∷ instr beqlr
    ∷ instr (branch "bne" ".loop")
    ∷ []

abbrev loop_simplified : List BodyPart
loop_simplified =
    instr (plain "nop" [] here) ∷ named ".loop" ∷ instr beqlr ∷ instr (branch "bne" ".loop") ∷ []

loop_minimized : minimize_labels [] loop_body ≡ loop_simplified
unfolding minimize_labels merge_labels labels_used mentioned_names instruction_names jump_name
    call_name keep_names flush
loop_minimized = refl

loop_body-IsUsed : IsUsed [] loop_body ".loop"
loop_body-IsUsed = by_jump (branch "bne" ".loop") (inr (inr (inr (inr (inr (inl refl)))))) refl

minimize_labels-after_label_example :
    after_label ".loop" (minimize_labels [] loop_body) ≡ after_label ".loop" loop_body
minimize_labels-after_label_example =
    minimize_labels-after_label [] loop_body ".loop" loop_body-IsUsed

minimize_labels-shape_example :
    (instructions (minimize_labels [] loop_body) ≡ instructions loop_body)
    × (is_separated (minimize_labels [] loop_body) ≡ true)
minimize_labels-shape_example = minimize_labels-shape [] loop_body

abbrev early : Instruction
early =
    record (plain "beq" (global_symbol "._m2c_conditionalreturn" ∷ [])
      (record here { synthetic = true })) {
        jump_target = some (target "._m2c_conditionalreturn");
        is_conditional = true;
      }

loop_patterns :
    simplify_patterns parse_branch [] (minimize_labels [] loop_body) ≡ ok loop_simplified
unfolding simplify_patterns minimize_labels merge_labels labels_used mentioned_names
    instruction_names jump_name call_name keep_names flush
loop_patterns = refl

loop_emitted :
    emit parse_branch (minimize_labels [] loop_simplified) none
    ≡ ok (plain "nop" [] here ∷ early ∷ branch "bne" ".loop" ∷ [], some "._m2c_conditionalreturn")
unfolding minimize_labels merge_labels labels_used mentioned_names instruction_names jump_name
    call_name keep_names flush strip_suffix
loop_emitted = refl

build_blocks_example :
    (blocks : List Block) × (build_blocks parse_branch [] [] (blr ∷ []) false loop_body ≡ ok blocks)
    × (block_instructions blocks
        ≡ ((plain "nop" [] here ∷ early ∷ branch "bne" ".loop" ∷ []) ++ blr ∷ [])
          ++ returned (blr ∷ []) refl (some "._m2c_conditionalreturn"))
    × (are_cut 0 blocks ≡ true)
build_blocks_example =
    build_blocks_lem (blr ∷ []) refl parse_branch [] [] loop_body loop_simplified
      (plain "nop" [] here) (early ∷ branch "bne" ".loop" ∷ []) (some "._m2c_conditionalreturn")
      refl loop_patterns loop_emitted

label_twice : cut_blocks parse_branch true [] (named "a" ∷ named "b" ∷ instr blr ∷ []) ≡ raised
unfolding cut_blocks process_all process_no_delay_slots new_block set_label
label_twice = refl

thirty : decimal 30 ≡ "30"
unfolding decimal decimal_digits
thirty = refl
