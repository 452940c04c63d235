-- ===== src/Flow/Labels.antt =====
-- m2c/flow_graph.py: minimize_labels, which drops the labels that nothing mentions and merges labels
-- that stand in a row.
pub mod Merge
pub mod Targets
use m2c.Prelude.{
  Bool, true, false, ◌||◌, Option, none, some, List, [], ◌∷◌, ◌++◌, String, string_eq, ◌==◌,
  contains, if◌then◌else◌,
}
use m2c.Asm.{
  Argument, symbol_name?, Label, JumpDest, target, by_register, table, Instruction, BodyPart, instr,
  label,
}

-- The names in `names` that are also in `wanted`, in order.
unfoldable pub keep_names : List String → List String → List String
keep_names wanted [] = []
keep_names wanted (name ∷ names) =
    let rest = keep_names wanted names in if contains wanted name then name ∷ rest else rest

-- The names that the labels of the body declare and that the data mentions.
unfoldable pub mentioned_names : List String → List BodyPart → List String
mentioned_names mentioned [] = []
mentioned_names mentioned (label l ∷ body) =
    keep_names mentioned l.names ++ mentioned_names mentioned body
mentioned_names mentioned (instr i ∷ body) = mentioned_names mentioned body

unfoldable pub jump_name : Option JumpDest → List String
jump_name (some (target name)) = name ∷ []
jump_name _ = []

unfoldable pub call_name : Option Argument → List String
call_name none = []
call_name (some arg) = elim (symbol_name? arg) [ none ↦ [] | some name ↦ name ∷ [] ]

-- The names that the instructions of the body jump to or call.
unfoldable pub instruction_names : List BodyPart → List String
instruction_names [] = []
instruction_names (label l ∷ body) = instruction_names body
instruction_names (instr i ∷ body) =
    jump_name i.jump_target ++ (call_name i.function_target ++ instruction_names body)

-- The set `labels_used`.
unfoldable pub labels_used : List String → List BodyPart → List String
labels_used mentioned body = mentioned_names mentioned body ++ instruction_names body

-- `if cur_label: new_function.body.append(Label(tuple(cur_label)))`.
unfoldable pub flush : List String → List BodyPart
flush [] = []
flush (name ∷ names) = label (record { names = name ∷ names }) ∷ []

-- The second loop, with `cur_label` as it stands.
unfoldable pub merge_labels : List String → List String → List BodyPart → List BodyPart
merge_labels used cur_label [] = flush cur_label
merge_labels used cur_label (label l ∷ body) =
    merge_labels used (cur_label ++ keep_names used l.names) body
merge_labels used cur_label (instr i ∷ body) =
    flush cur_label ++ instr i ∷ merge_labels used [] body

unfoldable pub minimize_labels : List String → List BodyPart → List BodyPart
minimize_labels mentioned body = merge_labels (labels_used mentioned body) [] body
