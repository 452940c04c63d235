-- ===== src/Pattern/Segment.antt =====
-- What try_match returns: a stretch of the input, part by part an instance of the pattern.
use m2c.Prelude.{
  ℕ, zero, suc, ◌+◌, ◌-◌, ◌≡◌, refl, sym, ◌∙◌, ap, subst, ◌⊎◌, inl, inr, Bool, true, false, ◌&&◌,
  take, drop, get_elem?, Option, none, some, List, [], ◌∷◌, string_eq, Outcome, ok, >>=-eq-ok,
  ok-injective, arith,
}
use mathlib.Core.Option.{some-injective}
use m2c.Asm.{BodyPart}
use m2c.Pattern.{TryMatchState, Answer, empty_state}
use m2c.Pattern.Part.{PatternPart, Pattern, match_one}
use m2c.Pattern.Matcher.{
  AsmMatch, AsmMatcher, is_meta, part_answer, Progress, match_step, match_parts, try_match,
  as_match, after_part,
}
use m2c.Pattern.Extends.{
  IsConsistent, empty_state-IsConsistent, Extends, Extends-refl, Extends-trans,
}
use m2c.Pattern.Parts.{
  PartInstance, PartInstance-mono, is_label, match_one-Grows, match_one-Extends, match_one-Instance,
}

module _ (st : TryMatchState) where
  -- The parts, in order, are instances of those of the pattern, of which optional ones may be left
  -- out.
  pub data Selects : List BodyPart → Pattern → Type 0 where
    done : Selects [] []
    used :
        {b : BodyPart} {bs : List BodyPart} {p : PatternPart} {opt : Bool} {ps : Pattern}
        → PartInstance st b p
        → Selects bs ps
        → Selects (b ∷ bs) ((p, opt) ∷ ps)
    skipped :
        {bs : List BodyPart} {p : PatternPart} {ps : Pattern}
        → Selects bs ps
        → Selects bs ((p, true) ∷ ps)

Selects-mono :
    {st st' : TryMatchState} {bs : List BodyPart} {ps : Pattern}
    → Extends st st'
    → Selects st bs ps
    → Selects st' bs ps
Selects-mono x done = done
Selects-mono x (used {b} {p} h t) = used (PartInstance-mono x b p h) (Selects-mono x t)
Selects-mono x (skipped t) = skipped (Selects-mono x t)

pub drop-get_elem? :
    {A : Type 0} (xs : List A) (i : ℕ) (x : A)
    → get_elem? xs i ≡ some x
    → drop i xs ≡ x ∷ drop (i + 1) xs
drop-get_elem? [] i x h = cc
drop-get_elem? (y ∷ xs) zero x h = ground arith
drop-get_elem? (y ∷ xs) (suc i) x h = ground (arith, drop-get_elem? xs i x)

-- No part of the pattern is a directive, and none is an optional label.
abbrev pub IsPlain : Pattern → Type 0
IsPlain [] = Unit {0}
IsPlain ((p, opt) ∷ ps) = (is_meta p ≡ ok false) × ((is_label p && opt) ≡ false) × IsPlain ps

at_index : {i j : ℕ} {s t : TryMatchState} → ◌≡◌ {A = Progress} (some (i, s)) (some (j, t)) → j ≡ i
at_index e = ap (λ (x : ℕ × TryMatchState). x.0) (sym (some-injective _ _ e))

at_state : {i j : ℕ} {s t : TryMatchState} → ◌≡◌ {A = Progress} (some (i, s)) (some (j, t)) → s ≡ t
at_state e = ap (λ (x : ℕ × TryMatchState). x.1) (some-injective _ _ e)

-- A part that is no directive was used at the index, or was optional and left out.
abbrev StepCase :
    List BodyPart → PatternPart → Bool → ℕ → TryMatchState → ℕ → TryMatchState → Type 0
StepCase input p opt index st index' st' =
    ((b : BodyPart) × (get_elem? input index ≡ some b)
      × (index' ≡ index + 1)
      × (match_one b p st ≡ ok (true, st')))
    ⊎ ((opt ≡ true) × (index' ≡ index) × Extends st st')

after_part-cases :
    (input : List BodyPart) (p : PatternPart) (opt : Bool) (index : ℕ) (st : TryMatchState)
    (index' : ℕ) (st' : TryMatchState) (found : Option BodyPart) (answer : Answer)
    → (is_label p && opt) ≡ false
    → get_elem? input index ≡ found
    → part_answer found p st ≡ ok answer
    → after_part opt index answer ≡ some (index', st')
    → StepCase input p opt index st index' st'
after_part-cases input p opt index st index' st' none (true, s) q f a e = cc
after_part-cases input p true index st index' st' none (false, s) q f a e =
    let kept = ap (λ (x : Answer). x.1) (ok-injective a) ∙ at_state e in
    inr (refl, at_index e, subst (Extends st) kept (Extends-refl st))
after_part-cases input p false index st index' st' none (false, s) q f a e = cc
after_part-cases input p opt index st index' st' (some b) (true, s) q f a e =
    inl (b, f, at_index e, a ∙ ap (λ t. ok (true, t)) (at_state e))
after_part-cases input p true index st index' st' (some b) (false, s) q f a e = inr (
  refl,
  at_index e,
  subst (Extends st) (at_state e) (match_one-Grows b p st (ground (arith, q)) (false, s) a),
)
after_part-cases input p false index st index' st' (some b) (false, s) q f a e = cc

match_step-cases :
    (input : List BodyPart) (p : PatternPart) (opt : Bool) (index : ℕ) (st : TryMatchState)
    (index' : ℕ) (st' : TryMatchState)
    → is_meta p ≡ ok false
    → (is_label p && opt) ≡ false
    → match_step input (p, opt) index st ≡ ok (some (index', st'))
    → StepCase input p opt index st index' st'
unfolding match_step
match_step-cases input p opt index st index' st' m q h =
    let (answer, ea, eb) =
      >>=-eq-ok (part_answer (get_elem? input index) p st) _ (rw (m, match_step) at h) in
    after_part-cases input p opt index st index' st' (get_elem? input index) answer q refl ea
      (ok-injective eb)

-- One more part in front of the parts selected after it.
Selects-step :
    (input : List BodyPart) (p : PatternPart) (opt : Bool) (ps : Pattern) (index : ℕ)
    (st : TryMatchState) (index₁ : ℕ) (st₁ : TryMatchState) (index' : ℕ) (st' : TryMatchState)
    → StepCase input p opt index st index₁ st₁
    → (n : ℕ) × (index' ≡ index₁ + n)
      × Extends st₁ st'
      × Selects st' (take n (drop index₁ input)) ps
    → (n : ℕ) × (index' ≡ index + n)
      × Extends st st'
      × Selects st' (take n (drop index input)) ((p, opt) ∷ ps)
Selects-step input p opt ps index st index₁ st₁ index' st' (inl (b, f, i, h)) (n, e, x, t) = (
  suc n,
  omega arith,
  Extends-trans (match_one-Extends b p st st₁ h) x,
  rw (drop-get_elem? input index b f) (
      used (PartInstance-mono x b p (match_one-Instance b p st st₁ h))
        (subst (λ k. Selects st' (take n (drop k input)) ps) i t)),
)
Selects-step input p opt ps index st index₁ st₁ index' st' (inr (o, i, y)) (n, e, x, t) = (
  n,
  omega arith,
  Extends-trans y x,
  rw o (skipped (subst (λ k. Selects st' (take n (drop k input)) ps) i t)),
)

abbrev Found : List BodyPart → Pattern → ℕ → TryMatchState → ℕ → TryMatchState → Type 0
Found input ps index st index' st' =
    (n : ℕ) × (index' ≡ index + n) × Extends st st' × Selects st' (take n (drop index input)) ps

abbrev next_parts : List BodyPart → Pattern → Progress → Outcome Progress
next_parts input ps (some (i, s)) = match_parts input ps i s
next_parts input ps none = ok none

match_parts-Selects :
    (input : List BodyPart) (ps : Pattern) (index : ℕ) (st : TryMatchState) (index' : ℕ)
    (st' : TryMatchState)
    → IsPlain ps
    → match_parts input ps index st ≡ ok (some (index', st'))
    → Found input ps index st index' st'
unfolding match_parts
match_parts-Selects input [] index st index' st' m h =
    let same = ok-injective h in
    (0, omega (arith, at_index same), subst (Extends st) (at_state same) (Extends-refl st), done)
match_parts-Selects input ((p, opt) ∷ ps) index st index' st' m h =
    let (progress, ep, er) = >>=-eq-ok (match_step input (p, opt) index st) _ h in
    go progress ep er (λ i s. match_parts-Selects input ps i s index' st' m.2)
  where
    go :
        (progress : Progress)
        → match_step input (p, opt) index st ≡ ok progress
        → next_parts input ps progress ≡ ok (some (index', st'))
        → ((i : ℕ) (s : TryMatchState)
            → match_parts input ps i s ≡ ok (some (index', st'))
            → Found input ps i s index' st')
        → Found input ((p, opt) ∷ ps) index st index' st'
    go none ep er ih = cc
    go (some (i, s)) ep er ih =
        Selects-step input p opt ps index st i s index' st'
          (match_step-cases input p opt index st i s m.0 m.1 ep) (ih i s er)

-- If a pattern that has no directives and no optional labels matches, the match is a stretch of the
-- input from the matcher's index on, and it selects the pattern: its parts are instances, in order, of
-- those of the pattern, under one set of bindings, which the match reports, with only optional parts
-- left out. Where the pattern both uses and defines a label, the name that the input uses is one of the
-- names of the label in the match.
pub try_match-Selects :
    (matcher : AsmMatcher) (pattern : Pattern) (m : AsmMatch)
    → IsPlain pattern
    → try_match matcher pattern ≡ ok (some m)
    → (n : ℕ) × (st : TryMatchState) × (m.body ≡ take n (drop matcher.index matcher.input))
      × Selects st m.body pattern
      × (m.regs ≡ st.symbolic_registers)
      × (m.literals ≡ st.symbolic_literals)
      × (m.labels ≡ st.symbolic_labels_def)
      × IsConsistent st
unfolding try_match
try_match-Selects matcher pattern m no_meta h =
    let (progress, ep, er) =
      >>=-eq-ok (match_parts matcher.input pattern matcher.index empty_state) _ h in
    go progress ep (ok-injective er)
  where
    go :
        (progress : Progress)
        → match_parts matcher.input pattern matcher.index empty_state ≡ ok progress
        → as_match matcher.input matcher.index progress ≡ some m
        → (n : ℕ) × (st : TryMatchState) × (m.body ≡ take n (drop matcher.index matcher.input))
          × Selects st m.body pattern
          × (m.regs ≡ st.symbolic_registers)
          × (m.literals ≡ st.symbolic_literals)
          × (m.labels ≡ st.symbolic_labels_def)
          × IsConsistent st
    go none ep er = cc
    go (some (i, s)) ep er =
        let (n, e, x, t) =
          match_parts-Selects matcher.input pattern matcher.index empty_state i s no_meta ep in
        let same = sym (some-injective _ _ er) in
        let count : i - matcher.index ≡ n = omega arith in
        let body =
          ap (λ (x : AsmMatch). x.body) same
          ∙ ap (λ k. take k (drop matcher.index matcher.input)) count in
        (
          n,
          s,
          body,
          subst (λ bs. Selects s bs pattern) (sym body) t,
          ap (λ (x : AsmMatch). x.regs) same,
          ap (λ (x : AsmMatch). x.literals) same,
          ap (λ (x : AsmMatch). x.labels) same,
          x.consistent empty_state-IsConsistent,
        )
