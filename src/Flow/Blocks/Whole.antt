-- ===== src/Flow/Blocks/Whole.antt =====
-- build_blocks as a whole: that it returns, and which instructions its blocks hold.
use m2c.Prelude.{
  ◌≡◌, refl, sym, ◌∙◌, ap, true, false, Option, none, some, List, [], ◌∷◌, ◌++◌, String, ok, raised,
}
use m2c.Asm.{Label, Instruction, BodyPart}
use m2c.Pattern.Rewrite.{ParseInstruction, AsmPattern, simplify_patterns}
use m2c.Flow.Labels.{minimize_labels}
use m2c.Flow.Labels.Merge.{minimize_labels-shape}
use m2c.Flow.Blocks.{
  Block, BlockBuilder, after_block, new_block, Building, mark_safeguard, add_instructions,
  add_safeguard, add_return_block, is_empty_builder, finish_blocks, start_building, cut_blocks,
  build_blocks,
}
use m2c.Flow.Blocks.Jumps.{is_full, is_straight, are_cut}
use m2c.Flow.Blocks.Finish.{add_instructions-eq, cut_blocks-are_cut}
use m2c.Flow.Blocks.Order.{
  block_instructions, contents, emit, contents-new_block, new_block-unlabelled, append_assoc,
  append_empty, can_label-full,
}
use m2c.Flow.Blocks.Total.{set_label_lem, process_all_lem}

new_block-closed : (b : BlockBuilder) → (new_block b).curr_instructions ≡ []
unfolding new_block
new_block-closed b = go b.curr_instructions refl
  where
    instructions_of : BlockBuilder → List Instruction
    instructions_of c = c.curr_instructions

    go :
        (is : List Instruction)
        → b.curr_instructions ≡ is
        → instructions_of (elim is [ [] ↦ b | _ ∷ _ ↦ after_block b ]) ≡ []
    go [] e = e
    go (i ∷ is) e = refl

-- What the blocks hold once no block is open.
closed-contents :
    (b : BlockBuilder) → b.curr_instructions ≡ [] → block_instructions b.blocks ≡ contents b
closed-contents b e = rw e (sym (append_empty (block_instructions b.blocks)))

block_instructions-mark :
    (bs : List Block) → block_instructions (mark_safeguard bs) ≡ block_instructions bs
block_instructions-mark [] = refl
block_instructions-mark (b ∷ []) = refl
block_instructions-mark (b ∷ c ∷ bs) = rw (block_instructions-mark (c ∷ bs)) refl

is_full-append_right : (xs ys : List Instruction) → is_full ys ≡ true → is_full (xs ++ ys) ≡ true
is_full-append_right [] ys h = h
is_full-append_right (x ∷ xs) ys h = refl

contents-add_instructions :
    (is : List Instruction) (b : BlockBuilder) → contents (add_instructions is b) ≡ contents b ++ is
contents-add_instructions is b =
    rw (add_instructions-eq is b)
      (sym (append_assoc (block_instructions b.blocks) b.curr_instructions is))

curr-add_instructions :
    (is : List Instruction) (b : BlockBuilder)
    → (add_instructions is b).curr_instructions ≡ b.curr_instructions ++ is
curr-add_instructions is b = rw (add_instructions-eq is b) refl

not_empty :
    (b : BlockBuilder) (i : Instruction) (is : List Instruction)
    → contents b ≡ i ∷ is
    → is_empty_builder b ≡ false
not_empty b i is h = go b.blocks b.curr_instructions h
  where
    go :
        (bs : List Block) (cs : List Instruction)
        → block_instructions bs ++ cs ≡ i ∷ is
        → (elim bs [ _ ∷ _ ↦ false | [] ↦ elim cs [ [] ↦ true | _ ∷ _ ↦ false ] ]) ≡ false
    go (_ ∷ _) cs e = refl
    go [] [] e = cc
    go [] (_ ∷ _) e = refl

-- A builder with no open block.
record IsDone (b : BlockBuilder) (is : List Instruction) : Type 0 where
  holds : contents b ≡ is
  unlabelled : b.curr_label ≡ none
  shut : b.curr_instructions ≡ []

module _ (missing_return : List Instruction) (some_return : is_full missing_return ≡ true) where
  add_safeguard_lem :
      (b : BlockBuilder)
      → (b' : BlockBuilder) × (add_safeguard missing_return b ≡ ok b')
        × IsDone b' (contents b ++ missing_return)
  unfolding add_safeguard
  add_safeguard_lem b =
      go (add_instructions missing_return b) (contents-add_instructions missing_return b) (
        ap is_full (curr-add_instructions missing_return b)
        ∙ is_full-append_right b.curr_instructions missing_return some_return)
    where
      go :
          (full : BlockBuilder)
          → contents full ≡ contents b ++ missing_return
          → is_full full.curr_instructions ≡ true
          → (b' : BlockBuilder) × ((elim full.curr_instructions [
            | [] ↦ raised
            | _ ∷ _ ↦
                ok (record (new_block full) { blocks = mark_safeguard (new_block full).blocks })
          ])
              ≡ ok b')
            × IsDone b' (contents b ++ missing_return)
      go full holds nonempty = opened full.curr_instructions nonempty
        where
          opened :
              (is : List Instruction)
              → is_full is ≡ true
              → (b' : BlockBuilder) × ((elim is [
                | [] ↦ raised
                | _ ∷ _ ↦
                    ok (record (new_block full) { blocks = mark_safeguard (new_block full).blocks })
              ])
                  ≡ ok b')
                × IsDone b' (contents b ++ missing_return)
          opened [] e = cc
          opened (i ∷ is) e = (
            record (new_block full) { blocks = mark_safeguard (new_block full).blocks },
            refl,
            record {
              holds =
                  ap (λ bs. bs ++ (new_block full).curr_instructions)
                    (block_instructions-mark (new_block full).blocks)
                  ∙ (contents-new_block full ∙ holds);
              unlabelled = new_block-unlabelled full (can_label-full full nonempty);
              shut = new_block-closed full;
            },
          )

  abbrev pub returned : Option String → List Instruction
  returned none = []
  returned (some name) = missing_return

  add_return_block_lem :
      (target : Option String) (b : BlockBuilder) (is : List Instruction)
      → IsDone b is
      → (b' : BlockBuilder) × (add_return_block missing_return target b ≡ ok b')
        × (block_instructions b'.blocks ≡ is ++ returned target)
  unfolding add_return_block
  add_return_block_lem none b is d =
      (b, refl, closed-contents b d.shut ∙ (d.holds ∙ sym (append_empty is)))
  add_return_block_lem (some name) b is d =
      let l : Label = record { names = name ∷ [] } in
      let (labelled, e, same) = set_label_lem l b refl d.unlabelled in
      let full = add_instructions missing_return labelled in
      rw e (
        new_block full,
        refl,
        closed-contents (new_block full) (new_block-closed full)
            ∙ (contents-new_block full
                ∙ (contents-add_instructions missing_return labelled
                    ∙ ap (λ x. x ++ missing_return) (same ∙ d.holds))),
      )

  finish_blocks_lem :
      (s : Building) (i : Instruction) (is : List Instruction)
      → contents s.builder ≡ i ∷ is
      → (blocks : List Block) × (finish_blocks false missing_return s ≡ ok blocks)
        × (block_instructions blocks
            ≡ ((i ∷ is) ++ missing_return) ++ returned s.cond_return_target)
  unfolding finish_blocks
  finish_blocks_lem s i is h =
      let (b, e, d) = add_safeguard_lem s.builder in
      let (b', e', all) =
        add_return_block_lem s.cond_return_target b (contents s.builder ++ missing_return) d in
      rw (not_empty s.builder i is h, e)
        (rw e' (
          b'.blocks,
          refl,
          all ∙ ap (λ x. (x ++ missing_return) ++ returned s.cond_return_target) h,
        ))

  -- build_blocks for a function on an architecture without delay slots, where the patterns return and
  -- the conditional returns parse, at least one instruction is left, and the missing return of the
  -- architecture has an instruction and no jump but at its end: it returns. The blocks hold, in order,
  -- the instructions of the simplified body, the missing return, and the missing return again if there
  -- was a conditional return; they are numbered from 0 on, none is empty, and a jump is the last
  -- instruction of its block.
  pub build_blocks_lem :
      (parse : ParseInstruction) (patterns : List AsmPattern) (mentioned : List String)
      (body simplified : List BodyPart) (i : Instruction) (is : List Instruction)
      (target : Option String)
      → is_straight missing_return ≡ true
      → simplify_patterns parse patterns (minimize_labels mentioned body) ≡ ok simplified
      → emit parse (minimize_labels mentioned simplified) none ≡ ok (i ∷ is, target)
      → (blocks : List Block) × (build_blocks parse patterns mentioned missing_return false body
          ≡ ok blocks)
        × (block_instructions blocks ≡ ((i ∷ is) ++ missing_return) ++ returned target)
        × (are_cut 0 blocks ≡ true)
  unfolding build_blocks cut_blocks
  build_blocks_lem parse patterns mentioned body simplified i is target straight es em =
      let (_, sep) = minimize_labels-shape mentioned simplified in
      let (s, ep, step) =
        process_all_lem parse (minimize_labels mentioned simplified) start_building (i ∷ is) target
          sep refl em in
      let (blocks, ef, held) = finish_blocks_lem s i is step.added in
      let whole : cut_blocks parse false missing_return (minimize_labels mentioned simplified)
          ≡ ok blocks =
        rw ep ef in
      rw es (
        blocks,
        whole,
        held ∙ ap (λ t. ((i ∷ is) ++ missing_return) ++ returned t) step.target,
        cut_blocks-are_cut missing_return straight parse false
            (minimize_labels mentioned simplified) blocks whole,
      )
