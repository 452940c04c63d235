-- ===== src/File/Levels/Branches.antt =====
-- Which branch of a conditional group in m2c/asm_file.py is processed.
use m2c.Prelude.{
  ℕ, ◌≡◌, refl, ◌∙◌, ap, Bool, true, false, not, length, ◌*◌, ◌+◌, List, [], ◌∷◌, if◌then◌else◌,
  Outcome, ok, raised, out_of_fuel, ◌>>=◌,
}
use m2c.Prelude.Int.{ℤ, pos, ◌+ℤ◌, ◌-ℤ◌}
use m2c.File.{Preproc, is_some, define_of, check_ifdef, check_ifdef-is_some}
use m2c.File.Condition.{eval_cpp_if}
use m2c.Prelude.Text.{codes}
use m2c.File.Levels.{
  Alternative, elifdef, elifndef, elif, else_branch, alternative, Line, Levels, level_of,
  eval_alternative, step,
}
use m2c.File.Levels.Groups.{sub_add}

-- A group waits for a condition that holds, is in the branch of the first one, or is behind it.
pub data Progress : Type 0 where
  waiting current done : Progress

abbrev pub level_at : Progress → ℕ
level_at waiting = 1
level_at current = 0
level_at done = 2

abbrev chosen : Bool → Progress
chosen active = if active then current else waiting

-- What the alternatives ask: #elifdef whether the macro has a value, #elifndef whether it has none, and
-- #elif its expression; the branch of an else is always taken. The tests for a macro note that they
-- take an unknown one for unset.
pub asked : Alternative → Line → Preproc → Outcome (Bool × Preproc)
asked elifdef line p =
    ok (is_some (define_of p.defines line.args_str), (check_ifdef line.args_str line.directive p).1)
asked elifndef line p = ok (
  not (is_some (define_of p.defines line.args_str)),
  (check_ifdef line.args_str line.directive p).1,
)
asked elif line p =
    eval_cpp_if line.directive (4 * length (codes line.args_str) + 3) line.args_str p
asked else_branch line p = ok (true, p)

eval_alternative-asked :
    (a : Alternative) (line : Line) (p : Preproc) → eval_alternative a line p ≡ asked a line p
unfolding asked
eval_alternative-asked elifdef line p =
    ap (λ b. ok (b, (check_ifdef line.args_str line.directive p).1))
      (check_ifdef-is_some line.args_str line.directive p)
eval_alternative-asked elifndef line p =
    ap (λ b. ok (not b, (check_ifdef line.args_str line.directive p).1))
      (check_ifdef-is_some line.args_str line.directive p)
eval_alternative-asked elif line p = refl
eval_alternative-asked else_branch line p = refl

-- The branch that a list of alternatives chooses: conditions are evaluated up to the first that holds.
abbrev pub choose : List (Alternative × Line) → Progress → Preproc → Outcome (Progress × Preproc)
choose [] at p = ok (at, p)
choose ((a, line) ∷ more) waiting p = asked a line p >>= λ r. choose more (chosen (r.0)) (r.1)
choose ((a, line) ∷ more) current p = ok (done, p)
choose ((a, line) ∷ more) done p = ok (done, p)

unfoldable pub run_alternatives : List (Alternative × Line) → Levels → Outcome Levels
run_alternatives [] st = ok st
run_alternatives ((a, line) ∷ more) st = step (alternative a) line st >>= run_alternatives more

-- The state in a group at some progress, above the level and the stack around it.
abbrev pub in_group : ℤ → List ℕ → Progress × Preproc → Levels
in_group outside below (at, p) = record {
  preproc = p;
  ifdef_level = outside +ℤ pos (level_at at);
  ifdef_levels = level_at at ∷ below;
}

run_alternatives-done :
    (more : List (Alternative × Line)) (outside : ℤ) (below : List ℕ) (p : Preproc)
    → run_alternatives more (in_group outside below (done, p))
      ≡ ok (in_group outside below (done, p))
unfolding run_alternatives step
run_alternatives-done [] outside below p = refl
run_alternatives-done ((a, line) ∷ more) outside below p =
    ap
      (λ z.
        run_alternatives more
          (record { preproc = p; ifdef_level = z +ℤ pos 2; ifdef_levels = 2 ∷ below }))
      (sub_add outside 2)
    ∙ run_alternatives-done more outside below p

-- Alternatives in a row, from any progress of the group that they are in: the group is active exactly in
-- the branch of the first condition that holds, where an #elifdef asks whether its macro has a value, an
-- #elifndef whether it has none, an #elif its expression and an else nothing, and later conditions are
-- not evaluated.
pub run_alternatives-choose :
    (alternatives : List (Alternative × Line)) (at : Progress) (outside : ℤ) (below : List ℕ)
    (p : Preproc)
    → run_alternatives alternatives (in_group outside below (at, p))
      ≡ (choose alternatives at p >>= λ r. ok (in_group outside below r))
unfolding run_alternatives step
run_alternatives-choose [] at outside below p = refl
run_alternatives-choose ((a, line) ∷ more) current outside below p =
    ap
      (λ z.
        run_alternatives more
          (record { preproc = p; ifdef_level = z +ℤ pos 2; ifdef_levels = 2 ∷ below }))
      (sub_add outside 0)
    ∙ run_alternatives-done more outside below p
run_alternatives-choose ((a, line) ∷ more) done outside below p =
    ap
      (λ z.
        run_alternatives more
          (record { preproc = p; ifdef_level = z +ℤ pos 2; ifdef_levels = 2 ∷ below }))
      (sub_add outside 2)
    ∙ run_alternatives-done more outside below p
run_alternatives-choose ((a, line) ∷ more) waiting outside below p =
    tried (eval_alternative a line p) (λ at p'. run_alternatives-choose more at outside below p')
    ∙ ap (λ r. (r >>= λ r. choose more (chosen (r.0)) (r.1)) >>= λ r. ok (in_group outside below r))
        (eval_alternative-asked a line p)
  where
    entered :
        (b : Bool) (p' : Preproc)
        → run_alternatives more (record {
          preproc = p';
          ifdef_level = ((outside +ℤ pos 1) -ℤ pos 1) +ℤ pos (level_of b);
          ifdef_levels = level_of b ∷ below;
        })
          ≡ run_alternatives more (in_group outside below (chosen b, p'))
    entered true p' =
        ap
          (λ z.
            run_alternatives more
              (record { preproc = p'; ifdef_level = z +ℤ pos 0; ifdef_levels = 0 ∷ below }))
          (sub_add outside 1)
    entered false p' =
        ap
          (λ z.
            run_alternatives more
              (record { preproc = p'; ifdef_level = z +ℤ pos 1; ifdef_levels = 1 ∷ below }))
          (sub_add outside 1)

    tried :
        (r : Outcome (Bool × Preproc))
        → ((at : Progress) (p' : Preproc)
            → run_alternatives more (in_group outside below (at, p'))
              ≡ (choose more at p' >>= λ r. ok (in_group outside below r)))
        → ((r >>= λ r. ok (record {
          preproc = r.1;
          ifdef_level = ((outside +ℤ pos 1) -ℤ pos 1) +ℤ pos (level_of (r.0));
          ifdef_levels = level_of (r.0) ∷ below;
        }))
            >>= run_alternatives more)
          ≡ ((r >>= λ r. choose more (chosen (r.0)) (r.1)) >>= λ r. ok (in_group outside below r))
    tried (ok (b, p')) ih = entered b p' ∙ ih (chosen b) p'
    tried raised ih = refl
    tried out_of_fuel ih = refl
