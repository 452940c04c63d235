-- ===== src/Flow/Labels/Merge.antt =====
-- The shape of the body that minimize_labels returns.
use m2c.Prelude.{◌≡◌, refl, Bool, true, false, ◌&&◌, List, [], ◌∷◌, ◌++◌, String, string_eq}
use m2c.Asm.{Label, Instruction, BodyPart, instr, label}
use m2c.Flow.Labels.{keep_names, flush, merge_labels, labels_used, minimize_labels}

abbrev pub instructions : List BodyPart → List Instruction
instructions [] = []
instructions (label l ∷ body) = instructions body
instructions (instr i ∷ body) = i ∷ instructions body

-- Each label has a name, and an instruction or the end follows it.
abbrev pub follows_label : List BodyPart → Bool
follows_label (label l ∷ body) = false
follows_label _ = true

abbrev pub is_named : Label → Bool
is_named l = elim l.names [ [] ↦ false | _ ∷ _ ↦ true ]

abbrev pub is_separated : List BodyPart → Bool
is_separated [] = true
is_separated (label l ∷ body) = is_named l && (follows_label body && is_separated body)
is_separated (instr i ∷ body) = is_separated body

flush-instructions :
    (names : List String) (rest : List BodyPart)
    → instructions (flush names ++ rest) ≡ instructions rest
unfolding flush
flush-instructions [] rest = refl
flush-instructions (name ∷ names) rest = refl

pub merge_labels-instructions :
    (used cur_label : List String) (body : List BodyPart)
    → instructions (merge_labels used cur_label body) ≡ instructions body
unfolding merge_labels flush
merge_labels-instructions used [] [] = refl
merge_labels-instructions used (name ∷ names) [] = refl
merge_labels-instructions used cur_label (label l ∷ body) =
    merge_labels-instructions used (cur_label ++ keep_names used l.names) body
merge_labels-instructions used cur_label (instr i ∷ body) =
    rw
      (
        flush-instructions cur_label (instr i ∷ merge_labels used [] body),
        merge_labels-instructions used [] body,
      )
      refl

flush-is_separated :
    (names : List String) (i : Instruction) (rest : List BodyPart)
    → is_separated rest ≡ true
    → is_separated (flush names ++ instr i ∷ rest) ≡ true
unfolding flush
flush-is_separated [] i rest h = h
flush-is_separated (name ∷ names) i rest h = h

merge_labels-is_separated :
    (used cur_label : List String) (body : List BodyPart)
    → is_separated (merge_labels used cur_label body) ≡ true
unfolding merge_labels flush
merge_labels-is_separated used [] [] = refl
merge_labels-is_separated used (name ∷ names) [] = refl
merge_labels-is_separated used cur_label (label l ∷ body) =
    merge_labels-is_separated used (cur_label ++ keep_names used l.names) body
merge_labels-is_separated used cur_label (instr i ∷ body) =
    flush-is_separated cur_label i (merge_labels used [] body)
      (merge_labels-is_separated used [] body)

-- minimize_labels keeps the instructions and their order, and in its result each label has a name and
-- no two labels stand in a row.
pub minimize_labels-shape :
    (mentioned : List String) (body : List BodyPart)
    → (instructions (minimize_labels mentioned body) ≡ instructions body)
      × (is_separated (minimize_labels mentioned body) ≡ true)
unfolding minimize_labels
minimize_labels-shape mentioned body = (
  merge_labels-instructions (labels_used mentioned body) [] body,
  merge_labels-is_separated (labels_used mentioned body) [] body,
)
