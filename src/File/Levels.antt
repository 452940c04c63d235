-- ===== src/File/Levels.antt =====
-- The conditional directives of parse_file in m2c/asm_file.py: `ifdef_level`, which is 0 where lines are
-- processed, and the stack `ifdef_levels`.
use m2c.Prelude.{
  ℕ, zero, suc, ◌+◌, ◌-◌, ◌*◌, Bool, true, false, not, List, [], ◌∷◌, ◌++◌, ◌==◌, string_eq,
  contains, nat_beq, if◌then◌else◌, length, String, text_append, Outcome, ok, raised, ◌>>=◌,
}
use m2c.Prelude.Int.{ℤ, pos, ◌+ℤ◌, ◌-ℤ◌}
use m2c.Prelude.Text.{codes}
use m2c.File.{Preproc, add_warning, check_ifdef}
use m2c.File.Condition.{eval_cpp_if}
pub mod Groups
pub mod Branches

-- What a line's first word asks for.
pub data Alternative : Type 0 where
  elifdef elifndef elif else_branch : Alternative

pub data Conditional : Type 0 where
  ifdef ifndef asm_if cpp_if : Conditional
  alternative : Alternative → Conditional
  endif macro end_macro other : Conditional

unfoldable pub classify : String → Conditional
classify directive =
    if contains (".ifdef" ∷ "#ifdef" ∷ []) directive
    then ifdef
    else if contains (".ifndef" ∷ "#ifndef" ∷ []) directive
    then ifndef
    else if directive == ".if"
    then asm_if
    else if directive == "#if"
    then cpp_if
    else if directive == "#elif"
    then alternative elif
    else if directive == "#elifdef"
    then alternative elifdef
    else if directive == "#elifndef"
    then alternative elifndef
    else if contains ("#else" ∷ ".else" ∷ []) directive
    then alternative else_branch
    else if contains (".endif" ∷ "#endif" ∷ []) directive
    then endif
    else if directive == ".macro"
    then macro
    else if directive == ".endm"
    then end_macro
    else other

-- A directive line: the word, `args_str`, and the words of `line.split()` behind the first.
pub record Line : Type 0 where
  pub directive : String
  pub args_str : String
  pub words : List String

-- `ifdef_levels` has its top first.
pub record Levels : Type 0 where
  pub preproc : Preproc
  pub ifdef_level : ℤ
  pub ifdef_levels : List ℕ

-- `1 - int(active)`.
abbrev pub level_of : Bool → ℕ
level_of active = if active then 0 else 1

abbrev pub push : ℕ → Preproc → Levels → Levels
push level p st = record {
  preproc = p;
  ifdef_level = st.ifdef_level +ℤ pos level;
  ifdef_levels = level ∷ st.ifdef_levels;
}

abbrev pub open_group : Levels → Bool × Preproc → Outcome Levels
open_group st (active, p) = ok (push (level_of active) p st)

-- Four units of fuel for each character, which is at least a token.
abbrev pub eval_if : Line → Preproc → Outcome (Bool × Preproc)
eval_if line p = eval_cpp_if line.directive (4 * length (codes line.args_str) + 3) line.args_str p

-- The condition of `.if`.
abbrev pub eval_asm_if : List String → Preproc → Outcome (Bool × Preproc)
eval_asm_if [] p = raised
eval_asm_if (macro_name ∷ _) p =
    if macro_name == "0"
    then ok (false, p)
    else if macro_name == "1"
    then ok (true, p)
    else ok (
      true,
      record {
        defines = p.defines;
        warnings =
            add_warning p.warnings
              (text_append "Note: ignoring .if " (text_append macro_name " directive"));
      },
    )

abbrev pub negate_test : Bool × Preproc → Bool × Preproc
negate_test (active, p) = (not active, p)

-- The condition of an alternative that is tried.
abbrev pub eval_alternative : Alternative → Line → Preproc → Outcome (Bool × Preproc)
eval_alternative elifdef line p = ok (check_ifdef line.args_str line.directive p)
eval_alternative elifndef line p = ok (negate_test (check_ifdef line.args_str line.directive p))
eval_alternative elif line p = eval_if line p
eval_alternative else_branch line p = ok (true, p)

-- An alternative is tried if its group is inactive and was not active before, at level 1.
abbrev pub try_alternative : Alternative → Line → Levels → List ℕ → ℤ → ℕ → Outcome Levels
try_alternative a line st below level top = elim (nat_beq top 1) [
  | true ↦ eval_alternative a line st.preproc >>= λ r. ok (record {
    preproc = r.1;
    ifdef_level = level +ℤ pos (level_of (r.0));
    ifdef_levels = level_of (r.0) ∷ below;
  })
  | false ↦
      ok (record { preproc = st.preproc; ifdef_level = level +ℤ pos 2; ifdef_levels = 2 ∷ below })
]

-- `ifdef_levels.pop()` fails on an empty stack.
abbrev pub next_alternative : Alternative → Line → Levels → List ℕ → Outcome Levels
next_alternative a line st [] = raised
next_alternative a line st (top ∷ below) =
    try_alternative a line st below (st.ifdef_level -ℤ pos top) top

abbrev pub close_group : Levels → List ℕ → Outcome Levels
close_group st [] = raised
close_group st (top ∷ below) =
    ok (record {
      preproc = st.preproc;
      ifdef_level = st.ifdef_level -ℤ pos top;
      ifdef_levels = below;
    })

unfoldable pub step : Conditional → Line → Levels → Outcome Levels
step ifdef line st = open_group st (check_ifdef line.args_str line.directive st.preproc)
step ifndef line st =
    open_group st (negate_test (check_ifdef line.args_str line.directive st.preproc))
step asm_if line st = eval_asm_if line.words st.preproc >>= open_group st
step cpp_if line st = eval_if line st.preproc >>= open_group st
step (alternative a) line st = next_alternative a line st st.ifdef_levels
step endif line st = close_group st st.ifdef_levels
step macro line st = ok (record {
  preproc = st.preproc;
  ifdef_level = st.ifdef_level +ℤ pos 1;
  ifdef_levels = st.ifdef_levels;
})
step end_macro line st = ok (record {
  preproc = st.preproc;
  ifdef_level = st.ifdef_level -ℤ pos 1;
  ifdef_levels = st.ifdef_levels;
})
step other line st = ok st

-- The loop over the lines.
unfoldable pub run : List Line → Levels → Outcome Levels
run [] st = ok st
run (line ∷ lines) st = step (classify line.directive) line st >>= run lines
