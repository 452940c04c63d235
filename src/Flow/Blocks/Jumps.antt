-- ===== src/Flow/Blocks/Jumps.antt =====
-- Where the jumps stand in the blocks that build_blocks cuts, and how the blocks are numbered.
use m2c.Prelude.{
  ℕ, suc, ◌+◌, ◌≡◌, refl, subst, Bool, true, false, not, ◌&&◌, inl, inr, Option, none, some, List,
  [], ◌∷◌, ◌++◌, String, string_eq, if◌then◌else◌, nat_beq, length, length-append, Bool-cases, ok,
  raised, >>=-eq-ok, ok-injective, arith,
}
use m2c.Prelude.Text.{strip_suffix}
use m2c.Asm.{Label, Instruction, BodyPart, instr, label}
use m2c.Pattern.Rewrite.{ParseInstruction, derived}
use m2c.Flow.Blocks.{
  Block, BlockBuilder, next_block, after_block, new_block, add_instruction, set_label, is_jump,
  Building, retarget_jump, or_raise, add_plain, add_conditional_return, process_instruction,
  process_no_delay_slots, process_all,
}

abbrev pub no_jump : List Instruction → Bool
no_jump [] = true
no_jump (i ∷ is) = not (is_jump i) && no_jump is

-- Only the last instruction may be a jump.
abbrev pub is_straight : List Instruction → Bool
is_straight [] = true
is_straight (i ∷ []) = true
is_straight (i ∷ is) = not (is_jump i) && is_straight is

abbrev pub is_full : List Instruction → Bool
is_full [] = false
is_full (_ ∷ _) = true

-- The blocks are numbered from `n` on, none is empty, and a jump is the last instruction of its block.
abbrev pub are_cut : ℕ → List Block → Bool
are_cut n [] = true
are_cut n (b ∷ bs) =
    nat_beq b.index n
    && (is_full b.instructions && (is_straight b.instructions && are_cut (suc n) bs))

pub record IsCut (b : BlockBuilder) : Type 0 where
  pub number : b.curr_index ≡ length b.blocks
  pub cut : are_cut 0 b.blocks ≡ true
  pub jumpless : no_jump b.curr_instructions ≡ true

are_cut-append :
    (n : ℕ) (bs : List Block) (b : Block)
    → are_cut n bs ≡ true
    → b.index ≡ n + length bs
    → is_full b.instructions ≡ true
    → is_straight b.instructions ≡ true
    → are_cut n (bs ++ b ∷ []) ≡ true
are_cut-append n [] b h e full straight = ground arith
are_cut-append n (c ∷ bs) b h e full straight =
    ground (arith, are_cut-append (suc n) bs b (ground arith) (omega arith) full straight)

pub is_straight-append :
    (xs ys : List Instruction)
    → no_jump xs ≡ true
    → is_straight ys ≡ true
    → is_straight (xs ++ ys) ≡ true
is_straight-append [] ys h k = k
is_straight-append (x ∷ []) [] h k = refl
is_straight-append (x ∷ []) (y ∷ ys) h k = ground arith
is_straight-append (x ∷ x' ∷ xs) ys h k =
    ground (arith, is_straight-append (x' ∷ xs) ys (ground arith) k)

no_jump-append :
    (xs ys : List Instruction) → no_jump xs ≡ true → no_jump ys ≡ true → no_jump (xs ++ ys) ≡ true
no_jump-append [] ys h k = k
no_jump-append (x ∷ xs) ys h k = ground (arith, no_jump-append xs ys (ground arith) k)

-- A builder whose open block may end in a jump.
pub record IsReady (b : BlockBuilder) : Type 0 where
  pub number : b.curr_index ≡ length b.blocks
  pub cut : are_cut 0 b.blocks ≡ true
  pub straight : is_straight b.curr_instructions ≡ true

no_jump-is_straight : (is : List Instruction) → no_jump is ≡ true → is_straight is ≡ true
no_jump-is_straight [] h = refl
no_jump-is_straight (i ∷ []) h = refl
no_jump-is_straight (i ∷ j ∷ is) h = ground (arith, no_jump-is_straight (j ∷ is) (ground arith))

pub IsCut→IsReady : (b : BlockBuilder) → IsCut b → IsReady b
IsCut→IsReady b c = record {
  number = c.number;
  cut = c.cut;
  straight = no_jump-is_straight b.curr_instructions c.jumpless;
}

pub new_block-IsCut : (b : BlockBuilder) → IsReady b → IsCut (new_block b)
unfolding new_block
new_block-IsCut b r = go b.curr_instructions refl
  where
    go :
        (is : List Instruction)
        → b.curr_instructions ≡ is
        → IsCut (elim is [ [] ↦ b | _ ∷ _ ↦ after_block b ])
    go [] e = record { number = r.number; cut = r.cut; jumpless = rw e refl }
    go (i ∷ is) e = record {
      number = ground (arith, r.number, length-append b.blocks (next_block b ∷ []));
      cut =
          are_cut-append 0 b.blocks (next_block b) r.cut (ground (arith, r.number)) (rw e refl)
            r.straight;
      jumpless = refl;
    }

add_one-IsReady : (i : Instruction) (b : BlockBuilder) → IsCut b → IsReady (add_instruction i b)
unfolding add_instruction
add_one-IsReady i b c = record {
  number = c.number;
  cut = c.cut;
  straight = is_straight-append b.curr_instructions (i ∷ []) c.jumpless refl;
}

add_plain-IsCut : (i : Instruction) (b : BlockBuilder) → IsCut b → IsCut (add_plain i b)
unfolding add_plain add_instruction
add_plain-IsCut i b c = elim (Bool-cases (is_jump i)) [
  | inl jump ↦ rw jump (new_block-IsCut (add_instruction i b) (add_one-IsReady i b c))
  | inr plain ↦ rw plain (record {
    number = c.number;
    cut = c.cut;
    jumpless = no_jump-append b.curr_instructions (i ∷ []) c.jumpless (rw plain refl);
  })
]

pub set_label-IsCut : (l : Label) (b b' : BlockBuilder) → set_label l b ≡ ok b' → IsCut b → IsCut b'
unfolding set_label
set_label-IsCut l b b' h c = go b.curr_label l.names h
  where
    go :
        (current : Option Label) (names : List String)
        → (elim current [
          | some _ ↦ raised
          | none ↦ elim names [
            | [] ↦ raised
            | name ∷ _ ↦
                ok (record b { curr_label = some l; last_label_name = name; label_counter = 0 })
          ]
        ])
          ≡ ok b'
        → IsCut b'
    go (some _) names e = cc
    go none [] e = cc
    go none (name ∷ _) e =
        subst IsCut (ok-injective e)
          (record { number = c.number; cut = c.cut; jumpless = c.jumpless })

module _ (parse : ParseInstruction) where
  add_conditional_return-IsCut :
      (i : Instruction) (s s' : Building)
      → add_conditional_return parse i s ≡ ok s'
      → IsCut s.builder
      → IsCut s'.builder
  unfolding add_conditional_return
  add_conditional_return-IsCut i s s' h c =
      let (mnemonic, _, h₁) = >>=-eq-ok (or_raise (strip_suffix "lr" i.mnemonic)) _ h in
      let (branch, _, h₂) = >>=-eq-ok (parse mnemonic _ (derived i.meta)) _ h₁ in
      subst (λ t. IsCut t.builder) (ok-injective h₂)
        (new_block-IsCut (add_instruction branch s.builder) (add_one-IsReady branch s.builder c))

  process_instruction-IsCut :
      (item : Instruction) (s s' : Building)
      → process_instruction parse item s ≡ ok s'
      → IsCut s.builder
      → IsCut s'.builder
  unfolding process_instruction
  process_instruction-IsCut item s s' h c = go (retarget_jump item s.cond_return_target) h
    where
      go :
          (changed : Instruction × Option String)
          → (if (changed.0).is_conditional && (changed.0).is_return
              then add_conditional_return parse
                  (changed.0)
                  (record s { cond_return_target = changed.1 })
              else ok (record s {
                builder = add_plain (changed.0) s.builder;
                cond_return_target = changed.1;
              }))
            ≡ ok s'
          → IsCut s'.builder
      go (i, name) e = elim (Bool-cases (i.is_conditional && i.is_return)) [
        | inl ends ↦
            add_conditional_return-IsCut i (record s { cond_return_target = name }) s'
              (rw ends at e) c
        | inr plain ↦
            subst (λ t. IsCut t.builder) (ok-injective (rw plain at e))
              (add_plain-IsCut i s.builder c)
      ]

  process_no_delay_slots-IsCut :
      (item : BodyPart) (s s' : Building)
      → process_no_delay_slots parse item s ≡ ok s'
      → IsCut s.builder
      → IsCut s'.builder
  unfolding process_no_delay_slots
  process_no_delay_slots-IsCut (label l) s s' h c =
      let (b, e, h₁) = >>=-eq-ok (set_label l (new_block s.builder)) _ h in
      subst (λ t. IsCut t.builder) (ok-injective h₁)
        (set_label-IsCut l (new_block s.builder) b e
          (new_block-IsCut s.builder (IsCut→IsReady s.builder c)))
  process_no_delay_slots-IsCut (instr i) s s' h c = process_instruction-IsCut i s s' h c

  pub process_all-IsCut :
      (body : List BodyPart) (s s' : Building)
      → process_all parse body s ≡ ok s'
      → IsCut s.builder
      → IsCut s'.builder
  unfolding process_all
  process_all-IsCut [] s s' h c = subst (λ t. IsCut t.builder) (ok-injective h) c
  process_all-IsCut (item ∷ body) s s' h c =
      let (mid, e, h₁) = >>=-eq-ok (process_no_delay_slots parse item s) _ h in
      process_all-IsCut body mid s' h₁ (process_no_delay_slots-IsCut item s mid e c)
