-- ===== src/Flow/Blocks/Total.antt =====
-- build_blocks does not raise on a body in which no two labels stand in a row, and loses no instruction.
use m2c.Prelude.{
  ◌≡◌, refl, sym, ◌∙◌, ap, Bool, true, false, ◌||◌, ◌&&◌, inl, inr, Option, none, some, List, [],
  ◌∷◌, ◌++◌, String, if◌then◌else◌, Bool-cases, and-eq_true, ok, raised, >>=-eq-ok, ok-injective,
  arith,
}
use m2c.Prelude.Text.{strip_suffix}
use m2c.Asm.{Label, Instruction, BodyPart, instr, label}
use m2c.Pattern.Rewrite.{ParseInstruction, derived}
use m2c.Flow.Labels.Merge.{follows_label, is_named, is_separated}
use m2c.Flow.Blocks.{
  BlockBuilder, new_block, add_instruction, set_label, is_jump, Building, return_label,
  retarget_jump, or_raise, add_plain, add_conditional_return, process_instruction,
  process_no_delay_slots, process_all,
}
use m2c.Flow.Blocks.Order.{
  contents, emit_return, emit_one, emit, can_label, contents-new_block, contents-add, can_label-add,
  can_label-new_block, new_block-unlabelled, append_assoc, append_empty,
}

-- After one step: what was added, and whether a label may follow.
pub record IsStep (s s' : Building) (is : List Instruction) (name : Option String) : Type 0 where
  pub added : contents s'.builder ≡ contents s.builder ++ is
  pub target : s'.cond_return_target ≡ name

add_plain-contents :
    (i : Instruction) (b : BlockBuilder) → contents (add_plain i b) ≡ contents b ++ i ∷ []
unfolding add_plain
add_plain-contents i b = elim (Bool-cases (is_jump i)) [
  | inl jump ↦ rw jump (contents-new_block (add_instruction i b) ∙ contents-add i b)
  | inr plain ↦ rw plain (contents-add i b)
]

add_plain-can_label : (i : Instruction) (b : BlockBuilder) → can_label (add_plain i b) ≡ true
unfolding add_plain
add_plain-can_label i b = elim (Bool-cases (is_jump i)) [
  | inl jump ↦ rw jump (can_label-new_block (add_instruction i b) (can_label-add i b))
  | inr plain ↦ rw plain (can_label-add i b)
]

pub set_label_lem :
    (l : Label) (b : BlockBuilder)
    → is_named l ≡ true
    → b.curr_label ≡ none
    → (b' : BlockBuilder) × (set_label l b ≡ ok b') × (contents b' ≡ contents b)
unfolding set_label
set_label_lem l b h none_yet = rw none_yet (go l.names h)
  where
    go :
        (names : List String)
        → (elim names [ [] ↦ false | _ ∷ _ ↦ true ]) ≡ true
        → (b' : BlockBuilder) × ((elim names [
          | [] ↦ raised
          | name ∷ _ ↦
              ok (record b { curr_label = some l; last_label_name = name; label_counter = 0 })
        ])
            ≡ ok b')
          × (contents b' ≡ contents b)
    go [] e = cc
    go (name ∷ _) e = (_, refl, refl)

module _ (parse : ParseInstruction) where
  process_instruction_lem :
      (item i : Instruction) (s : Building) (name : Option String)
      → emit_one parse
          (retarget_jump item s.cond_return_target).0
          (retarget_jump item s.cond_return_target).1
        ≡ ok (i, name)
      → (s' : Building) × (process_instruction parse item s ≡ ok s')
        × IsStep s s' (i ∷ []) name
        × (can_label s'.builder ≡ true)
  unfolding process_instruction add_conditional_return
  process_instruction_lem item i s name h = go (retarget_jump item s.cond_return_target) h
    where
      go :
          (changed : Instruction × Option String)
          → emit_one parse (changed.0) (changed.1) ≡ ok (i, name)
          → (s' : Building) × ((if (changed.0).is_conditional && (changed.0).is_return
                then add_conditional_return parse
                    (changed.0)
                    (record s { cond_return_target = changed.1 })
                else ok (record s {
                  builder = add_plain (changed.0) s.builder;
                  cond_return_target = changed.1;
                }))
              ≡ ok s')
            × IsStep s s' (i ∷ []) name
            × (can_label s'.builder ≡ true)
      go (j, target) e = elim (Bool-cases (j.is_conditional && j.is_return)) [
        | inl ends ↦ rw ends (returns (rw ends at e))
        | inr plain ↦
            let p = ok-injective (rw plain at e) in
            rw plain (plainly (ap (λ q. q.0) p) (ap (λ q. q.1) p))
      ]
        where
          plainly :
              j ≡ i
              → target ≡ name
              → (s' : Building) × (ok
                    (record s { builder = add_plain j s.builder; cond_return_target = target })
                  ≡ ok s')
                × IsStep s s' (i ∷ []) name
                × (can_label s'.builder ≡ true)
          plainly ej en = (
            record s { builder = add_plain j s.builder; cond_return_target = target },
            refl,
            record {
              added = add_plain-contents j s.builder ∙ ap (λ x. contents s.builder ++ x ∷ []) ej;
              target = en;
            },
            add_plain-can_label j s.builder,
          )

          returns :
              emit_return parse j target ≡ ok (i, name)
              → (s' : Building) × (add_conditional_return parse j
                    (record s { cond_return_target = target })
                  ≡ ok s')
                × IsStep s s' (i ∷ []) name
                × (can_label s'.builder ≡ true)
          returns k =
              let (mnemonic, e₁, k₁) = >>=-eq-ok (or_raise (strip_suffix "lr" j.mnemonic)) _ k in
              let (branch, e₂, k₂) = >>=-eq-ok (parse mnemonic _ (derived j.meta)) _ k₁ in
              let p = ok-injective k₂ in
              rw (e₁) (
                rw e₂ (
                  record {
                    builder = new_block (add_instruction branch s.builder);
                    cond_return_target = some (return_label target);
                  },
                  refl,
                  record {
                    added =
                        contents-new_block (add_instruction branch s.builder)
                        ∙ (contents-add branch s.builder
                            ∙ ap (λ x. contents s.builder ++ x ∷ []) (ap (λ q. q.0) p));
                    target = ap (λ q. q.1) p;
                  },
                  can_label-new_block (add_instruction branch s.builder)
                      (can_label-add branch s.builder),
                ))

  -- A label may come next, or no label does.
  abbrev pub may_go_on : Building → List BodyPart → Bool
  may_go_on s body = can_label s.builder || follows_label body

  pub process_all_lem :
      (body : List BodyPart) (s : Building) (is : List Instruction) (name : Option String)
      → is_separated body ≡ true
      → may_go_on s body ≡ true
      → emit parse body s.cond_return_target ≡ ok (is, name)
      → (s' : Building) × (process_all parse body s ≡ ok s') × IsStep s s' is name
  unfolding process_all process_no_delay_slots
  process_all_lem [] s is name sep may h =
      let p = ok-injective h in
      (
        s,
        refl,
        record {
          added =
              sym (append_empty (contents s.builder))
              ∙ ap (λ x. contents s.builder ++ x) (ap (λ q. q.0) p);
          target = ap (λ q. q.1) p;
        },
      )
  process_all_lem (label l ∷ body) s is name sep may h =
      let (named, rest) = and-eq_true (is_named l) (follows_label body && is_separated body) sep in
      let (follows, sep') = and-eq_true (follows_label body) (is_separated body) rest in
      let free : (new_block s.builder).curr_label ≡ none =
        new_block-unlabelled s.builder (ground arith) in
      let (b, e, same) = set_label_lem l (new_block s.builder) named free in
      let mid : Building = record s { builder = b } in
      let (s', e', step) = process_all_lem body mid is name sep' (ground arith) h in
      rw e (
        s',
        e',
        record {
          added = step.added ∙ ap (λ x. x ++ is) (same ∙ contents-new_block s.builder);
          target = step.target;
        },
      )
  process_all_lem (instr i ∷ body) s is name sep may h =
      let (first, e₁, h₁) =
        >>=-eq-ok
          (emit_one parse (retarget_jump i s.cond_return_target).0
            (retarget_jump i s.cond_return_target).1)
          _ h in
      let (rest, e₂, h₂) = >>=-eq-ok (emit parse body (first.1)) _ h₁ in
      let (mid, em, step, can) = process_instruction_lem i (first.0) s (first.1) e₁ in
      let (s', es, later) =
        process_all_lem body mid (rest.0) (rest.1) sep (rw can refl)
          (ap (emit parse body) step.target ∙ e₂) in
      let p = ok-injective h₂ in
      rw em (
        s',
        es,
        record {
          added =
              later.added
              ∙ (ap (λ x. x ++ rest.0) step.added
                  ∙ (append_assoc (contents s.builder) (first.0 ∷ []) (rest.0)
                      ∙ ap (λ x. contents s.builder ++ x) (ap (λ q. q.0) p)));
          target = later.target ∙ ap (λ q. q.1) p;
        },
      )
