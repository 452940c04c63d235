-- ===== src/Flow/Blocks/Order.antt =====
-- build_blocks and the order of the instructions.
use m2c.Prelude.{
  ◌≡◌, refl, sym, ◌∙◌, Bool, true, ◌&&◌, Option, none, some, List, [], ◌∷◌, ◌++◌, String,
  if◌then◌else◌, Outcome, ok, ◌>>=◌,
}
use m2c.Prelude.Text.{strip_suffix}
use m2c.Asm.{global_symbol, Label, Instruction, BodyPart, instr, label}
use m2c.Pattern.Rewrite.{ParseInstruction, derived}
use m2c.Flow.Blocks.{
  Block, BlockBuilder, next_block, after_block, new_block, add_instruction, return_label,
  retarget_jump, or_raise,
}
use m2c.Flow.Blocks.Jumps.{is_full}

abbrev pub block_instructions : List Block → List Instruction
block_instructions [] = []
block_instructions (b ∷ bs) = b.instructions ++ block_instructions bs

-- All that was added so far, in order.
abbrev pub contents : BlockBuilder → List Instruction
contents b = block_instructions b.blocks ++ b.curr_instructions

-- The branch that a conditional return becomes.
abbrev pub emit_return :
    ParseInstruction → Instruction → Option String → Outcome (Instruction × Option String)
emit_return parse i name = do
  mnemonic ← or_raise (strip_suffix "lr" i.mnemonic)
  branch ← parse mnemonic (global_symbol (return_label name) ∷ []) (derived i.meta)
  ok (branch, some (return_label name))

-- What an instruction of the body becomes, and `cond_return_target` after it.
abbrev pub emit_one :
    ParseInstruction → Instruction → Option String → Outcome (Instruction × Option String)
emit_one parse i name =
    if i.is_conditional && i.is_return then emit_return parse i name else ok (i, name)

abbrev pub emit :
    ParseInstruction → List BodyPart → Option String → Outcome (List Instruction × Option String)
emit parse [] name = ok ([], name)
emit parse (label l ∷ body) name = emit parse body name
emit parse (instr i ∷ body) name =
    emit_one parse (retarget_jump i name).0 (retarget_jump i name).1 >>= λ first.
    emit parse body (first.1) >>= λ rest. ok (first.0 ∷ rest.0, rest.1)

-- After new_block the open block has no label then.
abbrev pub can_label : BlockBuilder → Bool
can_label b = elim b.curr_label [ none ↦ true | some _ ↦ is_full b.curr_instructions ]

pub append_assoc : (xs ys zs : List Instruction) → (xs ++ ys) ++ zs ≡ xs ++ (ys ++ zs)
append_assoc [] ys zs = refl
append_assoc (x ∷ xs) ys zs = rw (append_assoc xs ys zs)

pub append_empty : (xs : List Instruction) → xs ++ [] ≡ xs
append_empty [] = refl
append_empty (x ∷ xs) = rw (append_empty xs)

block_instructions-append :
    (bs : List Block) (b : Block)
    → block_instructions (bs ++ b ∷ []) ≡ block_instructions bs ++ b.instructions
block_instructions-append [] b = append_empty b.instructions
block_instructions-append (c ∷ bs) b =
    rw (block_instructions-append bs b)
      (sym (append_assoc c.instructions (block_instructions bs) b.instructions))

pub contents-new_block : (b : BlockBuilder) → contents (new_block b) ≡ contents b
unfolding new_block
contents-new_block b = go b.curr_instructions refl
  where
    go :
        (is : List Instruction)
        → b.curr_instructions ≡ is
        → contents (elim is [ [] ↦ b | _ ∷ _ ↦ after_block b ]) ≡ contents b
    go [] e = refl
    go (i ∷ is) e =
        append_empty (block_instructions (b.blocks ++ next_block b ∷ []))
        ∙ block_instructions-append b.blocks (next_block b)

pub contents-add :
    (i : Instruction) (b : BlockBuilder) → contents (add_instruction i b) ≡ contents b ++ i ∷ []
unfolding add_instruction
contents-add i b = sym (append_assoc (block_instructions b.blocks) b.curr_instructions (i ∷ []))

abbrev label_of : BlockBuilder → Option Label
label_of b = b.curr_label

pub new_block-unlabelled : (b : BlockBuilder) → can_label b ≡ true → (new_block b).curr_label ≡ none
unfolding new_block
new_block-unlabelled b h = go b.curr_instructions b.curr_label refl refl h
  where
    go :
        (is : List Instruction) (l : Option Label)
        → b.curr_instructions ≡ is
        → b.curr_label ≡ l
        → (elim l [ none ↦ true | some _ ↦ is_full is ]) ≡ true
        → label_of (elim is [ [] ↦ b | _ ∷ _ ↦ after_block b ]) ≡ none
    go [] none e el k = el
    go [] (some _) e el k = cc
    go (i ∷ is) l e el k = refl

is_full-append : (xs : List Instruction) (i : Instruction) → is_full (xs ++ i ∷ []) ≡ true
is_full-append [] i = refl
is_full-append (x ∷ xs) i = refl

pub can_label-full : (b : BlockBuilder) → is_full b.curr_instructions ≡ true → can_label b ≡ true
can_label-full b h = go b.curr_label
  where
    go : (l : Option Label) → (elim l [ none ↦ true | some _ ↦ is_full b.curr_instructions ]) ≡ true
    go none = refl
    go (some _) = h

pub can_label-add : (i : Instruction) (b : BlockBuilder) → can_label (add_instruction i b) ≡ true
unfolding add_instruction
can_label-add i b = can_label-full (add_instruction i b) (is_full-append b.curr_instructions i)

pub can_label-new_block : (b : BlockBuilder) → can_label b ≡ true → can_label (new_block b) ≡ true
can_label-new_block b h = rw (new_block-unlabelled b h) refl
