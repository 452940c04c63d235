-- ===== src/File/Levels/Groups.antt =====
-- Balanced lines in m2c/asm_file.py: a group of conditional directives leaves the levels as they were,
-- and `ifdef_level` is the sum of the stack.
use m2c.Prelude.{
  ℕ, ◌≡◌, refl, sym, ◌∙◌, ap, subst, Bool, true, false, List, [], ◌∷◌, ◌++◌, nat_beq, Outcome, ok,
  raised, out_of_fuel, ◌>>=◌, >>=-eq-ok, ok-injective, arith,
}
use m2c.Prelude.Int.{ℤ, pos, negsuc, ◌+ℤ◌, ◌-ℤ◌}
use m2c.File.{Preproc, check_ifdef}
use m2c.File.Levels.{
  Alternative, Conditional, ifdef, ifndef, asm_if, cpp_if, alternative, endif, macro, end_macro,
  other, classify, Line, Levels, level_of, open_group, eval_if, eval_asm_if, negate_test,
  eval_alternative, next_alternative, close_group, step, run,
}

abbrev pub is_opener : Conditional → Bool
is_opener ifdef = true
is_opener ifndef = true
is_opener asm_if = true
is_opener cpp_if = true
is_opener _ = false

-- Lines in which every group is closed, and the rest of a group behind a part of it.
mutual
  pub data Balanced : List Line → Type 0 where
    nothing : Balanced []
    plain :
        {line : Line} {lines : List Line}
        → classify line.directive ≡ other
        → Balanced lines
        → Balanced (line ∷ lines)
    group :
        {line : Line} {body rest : List Line}
        → is_opener (classify line.directive) ≡ true
        → Balanced body
        → Rest rest
        → Balanced (line ∷ (body ++ rest))

  pub data Rest : List Line → Type 0 where
    next :
        {line : Line} {body rest : List Line} {a : Alternative}
        → classify line.directive ≡ alternative a
        → Balanced body
        → Rest rest
        → Rest (line ∷ (body ++ rest))
    closed :
        {line : Line} {lines : List Line}
        → classify line.directive ≡ endif
        → Balanced lines
        → Rest (line ∷ lines)

run-append :
    (front back : List Line) (st : Levels) → run (front ++ back) st ≡ (run front st >>= run back)
unfolding run
run-append [] back st = refl
run-append (line ∷ front) back st =
    inner (step (classify line.directive) line st) (λ st'. run-append front back st')
  where
    inner :
        (r : Outcome Levels)
        → ((st' : Levels) → run (front ++ back) st' ≡ (run front st' >>= run back))
        → (r >>= run (front ++ back)) ≡ ((r >>= run front) >>= run back)
    inner (ok st') ih = ih st'
    inner raised ih = refl
    inner out_of_fuel ih = refl

opened :
    (call : Outcome (Bool × Preproc)) (st st' : Levels)
    → (call >>= open_group st) ≡ ok st'
    → (l : ℕ) × (st'.ifdef_levels ≡ l ∷ st.ifdef_levels)
      × (st'.ifdef_level ≡ st.ifdef_level +ℤ pos l)
opened (ok (b, p)) st st' h =
    let e = ok-injective h in
    (level_of b, ap (λ s. s.ifdef_levels) (sym e), ap (λ s. s.ifdef_level) (sym e))
opened raised st st' h = cc
opened out_of_fuel st st' h = cc

step-opener :
    (c : Conditional) (line : Line) (st st' : Levels)
    → is_opener c ≡ true
    → step c line st ≡ ok st'
    → (l : ℕ) × (st'.ifdef_levels ≡ l ∷ st.ifdef_levels)
      × (st'.ifdef_level ≡ st.ifdef_level +ℤ pos l)
unfolding step
step-opener ifdef line st st' o h =
    opened (ok (check_ifdef line.args_str line.directive st.preproc)) st st' h
step-opener ifndef line st st' o h =
    opened (ok (negate_test (check_ifdef line.args_str line.directive st.preproc))) st st' h
step-opener asm_if line st st' o h = opened (eval_asm_if line.words st.preproc) st st' h
step-opener cpp_if line st st' o h = opened (eval_if line st.preproc) st st' h
step-opener (alternative a) line st st' o h = cc
step-opener endif line st st' o h = cc
step-opener macro line st st' o h = cc
step-opener end_macro line st st' o h = cc
step-opener other line st st' o h = cc

pub sub_add : (z : ℤ) (l : ℕ) → (z +ℤ pos l) -ℤ pos l ≡ z
unfolding ◌+ℤ◌ ◌-ℤ◌
sub_add (pos n) l = ground arith
sub_add (negsuc n) l = ground arith

alternative_tried :
    (call : Outcome (Bool × Preproc)) (below : List ℕ) (level : ℤ) (st' : Levels)
    → (call >>= λ r. ok (record {
      preproc = r.1;
      ifdef_level = level +ℤ pos (level_of (r.0));
      ifdef_levels = level_of (r.0) ∷ below;
    }))
      ≡ ok st'
    → (l : ℕ) × (st'.ifdef_levels ≡ l ∷ below) × (st'.ifdef_level ≡ level +ℤ pos l)
alternative_tried (ok (b, p)) below level st' h =
    let e = ok-injective h in
    (level_of b, ap (λ s. s.ifdef_levels) (sym e), ap (λ s. s.ifdef_level) (sym e))
alternative_tried raised below level st' h = cc
alternative_tried out_of_fuel below level st' h = cc

-- An alternative replaces the top of the stack.
step-alternative :
    (a : Alternative) (line : Line) (st st' : Levels) (top : ℕ) (below : List ℕ)
    → st.ifdef_levels ≡ top ∷ below
    → step (alternative a) line st ≡ ok st'
    → (l : ℕ) × (st'.ifdef_levels ≡ l ∷ below)
      × (st'.ifdef_level ≡ (st.ifdef_level -ℤ pos top) +ℤ pos l)
unfolding step
step-alternative a line st st' top below e h =
    tried (nat_beq top 1) (subst (λ levels. next_alternative a line st levels ≡ ok st') e h)
  where
    tried :
        (b : Bool)
        → elim b [
          | true ↦ eval_alternative a line st.preproc >>= λ r. ok (record {
            preproc = r.1;
            ifdef_level = (st.ifdef_level -ℤ pos top) +ℤ pos (level_of (r.0));
            ifdef_levels = level_of (r.0) ∷ below;
          })
          | false ↦ ok (record {
            preproc = st.preproc;
            ifdef_level = (st.ifdef_level -ℤ pos top) +ℤ pos 2;
            ifdef_levels = 2 ∷ below;
          })
        ]
          ≡ ok st'
        → (l : ℕ) × (st'.ifdef_levels ≡ l ∷ below)
          × (st'.ifdef_level ≡ (st.ifdef_level -ℤ pos top) +ℤ pos l)
    tried true h =
        alternative_tried (eval_alternative a line st.preproc) below (st.ifdef_level -ℤ pos top) st'
          h
    tried false h =
        let e = ok-injective h in
        (2, ap (λ s. s.ifdef_levels) (sym e), ap (λ s. s.ifdef_level) (sym e))

step-other : (line : Line) (st : Levels) → step other line st ≡ ok st
unfolding step
step-other line st = refl

step-endif :
    (line : Line) (st st' : Levels) (top : ℕ) (below : List ℕ)
    → st.ifdef_levels ≡ top ∷ below
    → step endif line st ≡ ok st'
    → (st'.ifdef_levels ≡ below) × (st'.ifdef_level ≡ st.ifdef_level -ℤ pos top)
unfolding step
step-endif line st st' top below e h =
    let e' = ok-injective (subst (λ levels. close_group st levels ≡ ok st') e h) in
    (ap (λ s. s.ifdef_levels) (sym e'), ap (λ s. s.ifdef_level) (sym e'))

mutual
  unfolding run

  run-Balanced_keeps :
      {lines : List Line}
      → Balanced lines
      → (st st' : Levels) → run lines st ≡ ok st'
      → (st'.ifdef_levels ≡ st.ifdef_levels) × (st'.ifdef_level ≡ st.ifdef_level)
  run-Balanced_keeps nothing st st' h =
      let e = ok-injective h in (ap (λ s. s.ifdef_levels) (sym e), ap (λ s. s.ifdef_level) (sym e))
  run-Balanced_keeps (plain {line} {lines} c b) st st' h = run-Balanced_keeps b st st' (
      ap (λ r. r >>= run lines) (sym (step-other line st))
      ∙ subst (λ k. (step k line st >>= run lines) ≡ ok st') c h)
  run-Balanced_keeps (group {line} {body} {rest} o b r) st st' h =
      let (st1, h1, h2) =
        >>=-eq-ok (step (classify line.directive) line st) (run (body ++ rest)) h in
      let (l, levels1, level1) = step-opener (classify line.directive) line st st1 o h1 in
      let (st2, h3, h4) =
        >>=-eq-ok (run body st1) (run rest) (sym (run-append body rest st1) ∙ h2) in
      let (levels2, level2) = run-Balanced_keeps b st1 st2 h3 in
      let (levels3, level3) = run-Rest r st2 st' l st.ifdef_levels (levels2 ∙ levels1) h4 in
      (levels3, level3 ∙ ap (λ z. z -ℤ pos l) (level2 ∙ level1) ∙ sub_add st.ifdef_level l)

  run-Rest :
      {lines : List Line}
      → Rest lines
      → (st st' : Levels) (top : ℕ) (below : List ℕ) → st.ifdef_levels ≡ top ∷ below
      → run lines st ≡ ok st'
      → (st'.ifdef_levels ≡ below) × (st'.ifdef_level ≡ st.ifdef_level -ℤ pos top)
  run-Rest (closed {line} {lines} c b) st st' top below e h =
      let (st1, h1, h2) = >>=-eq-ok (step (classify line.directive) line st) (run lines) h in
      let (levels1, level1) =
        step-endif line st st1 top below e (subst (λ k. step k line st ≡ ok st1) c h1) in
      let (levels2, level2) = run-Balanced_keeps b st1 st' h2 in
      (levels2 ∙ levels1, level2 ∙ level1)
  run-Rest (next {line} {body} {rest} {a} c b r) st st' top below e h =
      let (st1, h1, h2) =
        >>=-eq-ok (step (classify line.directive) line st) (run (body ++ rest)) h in
      let (l, levels1, level1) =
        step-alternative a line st st1 top below e (subst (λ k. step k line st ≡ ok st1) c h1) in
      let (st2, h3, h4) =
        >>=-eq-ok (run body st1) (run rest) (sym (run-append body rest st1) ∙ h2) in
      let (levels2, level2) = run-Balanced_keeps b st1 st2 h3 in
      let (levels3, level3) = run-Rest r st2 st' l below (levels2 ∙ levels1) h4 in
      (
        levels3,
        level3 ∙ ap (λ z. z -ℤ pos l) (level2 ∙ level1) ∙ sub_add (st.ifdef_level -ℤ pos top) l,
      )

-- Balanced lines, in which groups nest and every group is closed and no macro is defined, leave
-- ifdef_level and ifdef_levels as they were, whatever the conditions come to, where no condition fails.
pub run-Balanced :
    {lines : List Line}
    → Balanced lines
    → (st st' : Levels) → run lines st ≡ ok st'
    → (st'.ifdef_levels ≡ st.ifdef_levels) × (st'.ifdef_level ≡ st.ifdef_level)
run-Balanced b st st' h = run-Balanced_keeps b st st' h
