-- ===== src/Flow/Labels/Targets.antt =====
-- minimize_labels and where the labels point.
use m2c.Prelude.{
  ◌≡◌, refl, subst, ◌∙◌, sym, Bool, true, false, ◌&&◌, ◌||◌, Option, none, some, List, [], ◌∷◌,
  ◌++◌, String, string_eq, ◌==◌, contains, contains-append, contains-eq, In, In→contains, beq_refl,
  ◌⊎◌, if◌then◌else◌, inl, inr, Bool-cases, arith,
}
use m2c.Asm.{Argument, symbol_name?, Label, target, Instruction, BodyPart, instr, label}
use m2c.Flow.Labels.{
  keep_names, flush, merge_labels, labels_used, minimize_labels, mentioned_names, instruction_names,
  jump_name, call_name,
}
use m2c.Flow.Labels.Merge.{instructions, merge_labels-instructions}

-- The instructions from the first label of that name on.
abbrev pub after_label : String → List BodyPart → Option (List Instruction)
after_label name [] = none
after_label name (label l ∷ body) =
    if contains l.names name then some (instructions body) else after_label name body
after_label name (instr i ∷ body) = after_label name body

-- What the pending names answer before the rest does.
abbrev pub pending : List String → String → List BodyPart → Option (List Instruction)
pending cur_label name body =
    if contains cur_label name then some (instructions body) else after_label name body

keep_names-contains :
    (used names : List String) (name : String)
    → contains (keep_names used names) name ≡ (contains used name && contains names name)
unfolding keep_names
keep_names-contains used [] name = ground arith
keep_names-contains used (own ∷ names) name = elim (Bool-cases (contains used own)) [
  | inl kept ↦
      rw kept (ground (arith, keep_names-contains used names name, contains-eq used own name kept))
  | inr dropped ↦
      rw (dropped, keep_names-contains used names name)
        (elim (Bool-cases (name == own)) [
          | inl same ↦
              let e = (string_eq.same_iff name own).0 same in
              let unused : contains used name ≡ false =
                subst (λ x. contains used x ≡ false) (sym e) dropped in
              rw unused
          | inr other ↦ rw other
        ])
]

flush-after_label :
    (names : List String) (name : String) (i : Instruction) (rest : List BodyPart)
    → after_label name (flush names ++ instr i ∷ rest)
      ≡ (if contains names name then some (i ∷ instructions rest) else after_label name rest)
unfolding flush
flush-after_label [] name i rest = refl
flush-after_label (own ∷ names) name i rest = refl

merge_labels-after_label :
    (used cur_label : List String) (name : String) (body : List BodyPart)
    → contains used name ≡ true
    → after_label name (merge_labels used cur_label body) ≡ pending cur_label name body
unfolding merge_labels flush
merge_labels-after_label used [] name [] h = refl
merge_labels-after_label used (own ∷ names) name [] h = ground arith
merge_labels-after_label used cur_label name (label l ∷ body) h =
    merge_labels-after_label used (cur_label ++ keep_names used l.names) name body h
    ∙ rw
        (
          contains-append cur_label (keep_names used l.names) name,
          keep_names-contains used l.names name,
          h,
        )
        (first_of (contains cur_label name) (contains l.names name))
  where
    first_of :
        (a b : Bool)
        → (if a || true && b then some (instructions body) else after_label name body) ≡ (
            if a
            then some (instructions body)
            else (if b then some (instructions body) else after_label name body))
    first_of true b = refl
    first_of false true = refl
    first_of false false = refl
merge_labels-after_label used cur_label name (instr i ∷ body) h =
    rw
      (
        flush-after_label cur_label name i (merge_labels used [] body),
        merge_labels-instructions used [] body,
        merge_labels-after_label used [] name body h,
      )
      refl

-- What makes a name used: the data mentions it and a label of the body declares it, an instruction of
-- the body jumps to it by name, or an instruction calls it.
pub data IsUsed (mentioned : List String) (body : List BodyPart) (name : String) : Type 0 where
  by_data :
      (l : Label)
      → In (label l) body
      → In name l.names
      → In name mentioned
      → IsUsed mentioned body name
  by_jump :
      (i : Instruction)
      → In (instr i) body
      → i.jump_target ≡ some (target name)
      → IsUsed mentioned body name
  by_call :
      (i : Instruction) (callee : Argument)
      → In (instr i) body
      → i.function_target ≡ some callee
      → symbol_name? callee ≡ some name
      → IsUsed mentioned body name

appended :
    (xs ys : List String) (name : String)
    → (contains xs name ≡ true) ⊎ (contains ys name ≡ true)
    → contains (xs ++ ys) name ≡ true
appended xs ys name (inl h) = ground (arith, contains-append xs ys name)
appended xs ys name (inr h) = ground (arith, contains-append xs ys name)

mentioned_names-used :
    (mentioned : List String) (body : List BodyPart) (name : String) (l : Label)
    → In (label l) body
    → contains l.names name ≡ true
    → contains mentioned name ≡ true
    → contains (mentioned_names mentioned body) name ≡ true
unfolding mentioned_names
mentioned_names-used mentioned [] name l at h m = elim at [ ]
mentioned_names-used mentioned (b ∷ body) name l (inl e) h m =
    subst (λ b. contains (mentioned_names mentioned (b ∷ body)) name ≡ true) e
      (appended (keep_names mentioned l.names) (mentioned_names mentioned body) name
        (inl (ground (arith, keep_names-contains mentioned l.names name))))
mentioned_names-used mentioned (label k ∷ body) name l (inr at) h m =
    appended (keep_names mentioned k.names) (mentioned_names mentioned body) name
      (inr (mentioned_names-used mentioned body name l at h m))
mentioned_names-used mentioned (instr i ∷ body) name l (inr at) h m =
    mentioned_names-used mentioned body name l at h m

instruction_names-used :
    (body : List BodyPart) (name : String) (i : Instruction)
    → In (instr i) body
    → (contains (jump_name i.jump_target) name ≡ true)
      ⊎ (contains (call_name i.function_target) name ≡ true)
    → contains (instruction_names body) name ≡ true
unfolding instruction_names
instruction_names-used [] name i at h = elim at [ ]
instruction_names-used (b ∷ body) name i (inl e) h =
    subst (λ b. contains (instruction_names (b ∷ body)) name ≡ true) e (here h)
  where
    here :
        (contains (jump_name i.jump_target) name ≡ true)
          ⊎ (contains (call_name i.function_target) name ≡ true)
        → contains
            (jump_name i.jump_target ++ (call_name i.function_target ++ instruction_names body))
            name
          ≡ true
    here (inl j) =
        appended (jump_name i.jump_target) (call_name i.function_target ++ instruction_names body)
          name (inl j)
    here (inr c) =
        appended (jump_name i.jump_target) (call_name i.function_target ++ instruction_names body)
          name (inr (appended (call_name i.function_target) (instruction_names body) name (inl c)))
instruction_names-used (label l ∷ body) name i (inr at) h = instruction_names-used body name i at h
instruction_names-used (instr k ∷ body) name i (inr at) h =
    appended (jump_name k.jump_target) (call_name k.function_target ++ instruction_names body) name
      (inr (
        appended (call_name k.function_target) (instruction_names body) name
          (inr (instruction_names-used body name i at h))))

call_name-named :
    (callee : Argument) (name : String)
    → symbol_name? callee ≡ some name
    → contains (call_name (some callee)) name ≡ true
unfolding call_name
call_name-named callee name e =
    subst (λ found. contains (elim found [ none ↦ [] | some name ↦ name ∷ [] ]) name ≡ true) (sym e)
      (ground (arith, beq_refl name))

labels_used-IsUsed :
    (mentioned : List String) (body : List BodyPart) (name : String)
    → IsUsed mentioned body name
    → contains (labels_used mentioned body) name ≡ true
unfolding labels_used jump_name
labels_used-IsUsed mentioned body name (by_data l at declared m) =
    appended (mentioned_names mentioned body) (instruction_names body) name (
      inl (
        mentioned_names-used mentioned body name l at (In→contains l.names name declared)
          (In→contains mentioned name m)))
labels_used-IsUsed mentioned body name (by_jump i at e) =
    appended (mentioned_names mentioned body) (instruction_names body) name
      (inr (instruction_names-used body name i at (inl (rw e (ground (arith, beq_refl name))))))
labels_used-IsUsed mentioned body name (by_call i callee at e named) =
    appended (mentioned_names mentioned body) (instruction_names body) name (
      inr (
        instruction_names-used body name i at (
          inr (
            subst (λ t. contains (call_name t) name ≡ true) (sym e)
              (call_name-named callee name named)))))

-- A name labels the same instructions after minimize_labels as before, if an instruction of the body
-- jumps to it by name or calls it, or a label of the body declares it and the data mentions it, as it
-- does the targets of a jump table.
pub minimize_labels-after_label :
    (mentioned : List String) (body : List BodyPart) (name : String)
    → IsUsed mentioned body name
    → after_label name (minimize_labels mentioned body) ≡ after_label name body
unfolding minimize_labels
minimize_labels-after_label mentioned body name used =
    merge_labels-after_label (labels_used mentioned body) [] name body
      (labels_used-IsUsed mentioned body name used)
