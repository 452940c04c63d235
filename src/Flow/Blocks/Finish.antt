-- ===== src/Flow/Blocks/Finish.antt =====
-- The end of build_blocks, and the blocks that it returns.
use m2c.Prelude.{
  ℕ, suc, ◌≡◌, refl, sym, ◌∙◌, subst, Bool, true, false, inl, inr, Option, none, some, List, [],
  ◌∷◌, ◌++◌, String, string_eq, if◌then◌else◌, length, Bool-cases, ok, raised, ◌>>=◌, >>=-eq-ok,
  ok-injective,
}
use m2c.Asm.{Label, Instruction, BodyPart}
use m2c.Pattern.Rewrite.{ParseInstruction}
use m2c.Flow.Blocks.{
  Block, BlockBuilder, new_block, add_instruction, set_label, Building, process_all, mark_safeguard,
  add_instructions, add_safeguard, add_return_block, is_empty_builder, finish_blocks,
  start_building, cut_blocks,
}
use m2c.Flow.Blocks.Jumps.{
  is_straight, are_cut, IsCut, IsReady, is_straight-append, new_block-IsCut, IsCut→IsReady,
  set_label-IsCut, process_all-IsCut,
}

append_assoc : (xs ys zs : List Instruction) → (xs ++ ys) ++ zs ≡ xs ++ (ys ++ zs)
append_assoc [] ys zs = refl
append_assoc (x ∷ xs) ys zs = rw (append_assoc xs ys zs)

append_empty : (xs : List Instruction) → xs ++ [] ≡ xs
append_empty [] = refl
append_empty (x ∷ xs) = rw (append_empty xs)

pub add_instructions-eq :
    (is : List Instruction) (b : BlockBuilder)
    → add_instructions is b ≡ record b { curr_instructions = b.curr_instructions ++ is }
unfolding add_instruction
add_instructions-eq [] b = rw (append_empty b.curr_instructions) refl
add_instructions-eq (i ∷ is) b =
    add_instructions-eq is (add_instruction i b)
    ∙ rw (append_assoc b.curr_instructions (i ∷ []) is) refl

add_instructions-IsReady :
    (is : List Instruction) (b : BlockBuilder)
    → is_straight is ≡ true
    → IsCut b
    → IsReady (add_instructions is b)
add_instructions-IsReady is b h c = rw (add_instructions-eq is b) (record {
  number = c.number;
  cut = c.cut;
  straight = is_straight-append b.curr_instructions is c.jumpless h;
})

mark_safeguard-are_cut : (n : ℕ) (bs : List Block) → are_cut n (mark_safeguard bs) ≡ are_cut n bs
mark_safeguard-are_cut n [] = refl
mark_safeguard-are_cut n (b ∷ []) = refl
mark_safeguard-are_cut n (b ∷ c ∷ bs) = rw (mark_safeguard-are_cut (suc n) (c ∷ bs)) refl

length-mark_safeguard : (bs : List Block) → length (mark_safeguard bs) ≡ length bs
length-mark_safeguard [] = refl
length-mark_safeguard (b ∷ []) = refl
length-mark_safeguard (b ∷ c ∷ bs) = rw (length-mark_safeguard (c ∷ bs)) refl

marked-IsCut : (b : BlockBuilder) → IsCut b → IsCut (record b { blocks = mark_safeguard b.blocks })
marked-IsCut b c = record {
  number = c.number ∙ sym (length-mark_safeguard b.blocks);
  cut = mark_safeguard-are_cut 0 b.blocks ∙ c.cut;
  jumpless = c.jumpless;
}

module _ (missing_return : List Instruction) (straight : is_straight missing_return ≡ true) where
  add_safeguard-IsCut :
      (b b' : BlockBuilder) → add_safeguard missing_return b ≡ ok b' → IsCut b → IsCut b'
  unfolding add_safeguard
  add_safeguard-IsCut b b' h c = go (add_instructions missing_return b) h (
      new_block-IsCut (add_instructions missing_return b)
        (add_instructions-IsReady missing_return b straight c))
    where
      go :
          (full : BlockBuilder)
          → (elim full.curr_instructions [
            | [] ↦ raised
            | _ ∷ _ ↦
                ok (record (new_block full) { blocks = mark_safeguard (new_block full).blocks })
          ])
            ≡ ok b'
          → IsCut (new_block full)
          → IsCut b'
      go full e c' = opened full.curr_instructions e
        where
          opened :
              (is : List Instruction)
              → (elim is [
                | [] ↦ raised
                | _ ∷ _ ↦
                    ok (record (new_block full) { blocks = mark_safeguard (new_block full).blocks })
              ])
                ≡ ok b'
              → IsCut b'
          opened [] e' = cc
          opened (i ∷ is) e' = subst IsCut (ok-injective e') (marked-IsCut (new_block full) c')

  add_return_block-IsCut :
      (target : Option String) (b b' : BlockBuilder)
      → add_return_block missing_return target b ≡ ok b'
      → IsCut b
      → IsCut b'
  unfolding add_return_block
  add_return_block-IsCut none b b' h c = subst IsCut (ok-injective h) c
  add_return_block-IsCut (some name) b b' h c =
      let l : Label = record { names = name ∷ [] } in
      let (labelled, e, h₁) = >>=-eq-ok (set_label l b) _ h in
      subst IsCut (ok-injective h₁) (
        new_block-IsCut (add_instructions missing_return labelled) (
          add_instructions-IsReady missing_return labelled straight
            (set_label-IsCut l b labelled e c)))

  finish_blocks-are_cut :
      (fragment : Bool) (s : Building) (blocks : List Block)
      → finish_blocks fragment missing_return s ≡ ok blocks
      → IsCut s.builder
      → are_cut 0 blocks ≡ true
  unfolding finish_blocks
  finish_blocks-are_cut fragment s blocks h c = elim (Bool-cases (is_empty_builder s.builder)) [
    | inl empty ↦ absurd (never (rw empty at h))
    | inr full ↦ not_empty fragment (rw full at h)
  ]
    where
      never : raised ≡ ok blocks → ⊥
      never e = cc

      not_empty :
          (f : Bool)
          → (if f
              then ok ((new_block s.builder).blocks)
              else (add_safeguard missing_return s.builder >>= λ b.
                  add_return_block missing_return s.cond_return_target b >>= λ b'. ok (b'.blocks)))
            ≡ ok blocks
          → are_cut 0 blocks ≡ true
      not_empty true e =
          subst (λ bs. are_cut 0 bs ≡ true) (ok-injective e)
            (new_block-IsCut s.builder (IsCut→IsReady s.builder c)).cut
      not_empty false e =
          let (b, e₁, h₁) = >>=-eq-ok (add_safeguard missing_return s.builder) _ e in
          let (b', e₂, h₂) =
            >>=-eq-ok (add_return_block missing_return s.cond_return_target b) _ h₁ in
          subst (λ bs. are_cut 0 bs ≡ true) (ok-injective h₂)
            (add_return_block-IsCut s.cond_return_target b b' e₂
              (add_safeguard-IsCut s.builder b e₁ c)).cut

  -- Where the arch's missing return has no jump but at its end, the blocks that the loop over a body
  -- and its end return are numbered from 0 on, none is empty, and a jump is the last of its block.
  pub cut_blocks-are_cut :
      (parse : ParseInstruction) (fragment : Bool) (body : List BodyPart) (blocks : List Block)
      → cut_blocks parse fragment missing_return body ≡ ok blocks
      → are_cut 0 blocks ≡ true
  unfolding cut_blocks
  cut_blocks-are_cut parse fragment body blocks h =
      let (s, e, h₁) = >>=-eq-ok (process_all parse body start_building) _ h in
      finish_blocks-are_cut fragment s blocks h₁ (
        process_all-IsCut parse body start_building s e
          (record { number = refl; cut = refl; jumpless = refl }))
