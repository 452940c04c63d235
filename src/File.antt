-- ===== src/File.antt =====
-- m2c/asm_file.py: the state of the preprocessor, its warnings and the test for a defined macro.
use m2c.Prelude.{
  ◌≡◌, refl, sym, ◌∙◌, ap, Bool, true, false, Option, none, some, List, [], ◌∷◌, ◌++◌, ◌==◌,
  string_eq, contains, if◌then◌else◌, String, text_append, Eq, Bool-cases, Option-cases, inl, inr,
  ◌⊎◌, arith,
}
use m2c.Prelude.Dict.{lookup, insert, lookup-insert}
use m2c.Asm.{Argument}
use m2c.Asm.Fold.{Defines}
pub mod Condition
pub mod Levels
pub mod Ascii
pub mod Data

-- `asm_state.defines` and `warnings`.
pub record Preproc : Type 0 where
  pub defines : Defines
  pub warnings : List String

abbrev pub add_warning : List String → String → List String
add_warning warnings new = if contains warnings new then warnings else warnings ++ new ∷ []

abbrev pub is_some : {A : Type 0} → Option A → Bool
is_some none = false
is_some (some a) = true

abbrev pub or_none : {A : Type 0} → Option (Option A) → Option A
or_none none = none
or_none (some value) = value

-- `asm_state.defines.get(name, None)`.
unfoldable pub define_of : Defines → String → Option Argument
define_of defines name = or_none (lookup name defines)

abbrev pub unset_note : String → String → String
unset_note macro_name directive = text_append "Note: assuming " (
    text_append macro_name (
      text_append " is unset for " (
        text_append directive (
          text_append ", pass -D" (
            text_append macro_name
              (text_append "/-U" (text_append macro_name " to set/unset explicitly.")))))))

-- check_ifdef, with what `asm_state.defines` has for the macro.
abbrev checked : String → String → Preproc → Option (Option Argument) → Bool × Preproc
checked macro_name directive st none = (
  false,
  record {
    defines = insert macro_name none st.defines;
    warnings = add_warning st.warnings (unset_note macro_name directive);
  },
)
checked macro_name directive st (some value) = (is_some value, st)

unfoldable pub check_ifdef : String → String → Preproc → Bool × Preproc
check_ifdef macro_name directive st = checked macro_name directive st (lookup macro_name st.defines)

insert-define_of :
    (name : String) (defines : Defines) (other : String)
    → lookup name defines ≡ none
    → define_of (insert name none defines) other ≡ define_of defines other
unfolding define_of
insert-define_of name defines other h =
    ap or_none (lookup-insert name other none defines) ∙ same (Bool-cases (name == other))
  where
    same :
        ((name == other) ≡ true) ⊎ ((name == other) ≡ false)
        → or_none (if name == other then some none else lookup other defines)
          ≡ or_none (lookup other defines)
    same (inl e) =
        rw e (ap or_none (sym h ∙ ap (λ k. lookup k defines) ((string_eq.same_iff name other).0 e)))
    same (inr e) = rw e refl

-- A macro that is taken to be unset keeps its value.
pub check_ifdef-define_of :
    (name directive : String) (st : Preproc) (other : String)
    → define_of (check_ifdef name directive st).1.defines other ≡ define_of st.defines other
unfolding check_ifdef
check_ifdef-define_of name directive st other = kept (lookup name st.defines) refl
  where
    kept :
        (found : Option (Option Argument))
        → lookup name st.defines ≡ found
        → define_of (checked name directive st found).1.defines other ≡ define_of st.defines other
    kept none e = insert-define_of name st.defines other e
    kept (some v) e = refl

pub check_ifdef-is_some :
    (name directive : String) (st : Preproc)
    → (check_ifdef name directive st).0 ≡ is_some (define_of st.defines name)
unfolding check_ifdef define_of
check_ifdef-is_some name directive st = answer (lookup name st.defines)
  where
    answer :
        (found : Option (Option Argument))
        → (checked name directive st found).0 ≡ is_some (or_none found)
    answer none = refl
    answer (some v) = refl
