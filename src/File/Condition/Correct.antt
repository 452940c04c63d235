-- ===== src/File/Condition/Correct.antt =====
-- eval_cpp_if of m2c/asm_file.py evaluates a written condition to its value.
use m2c.Prelude.{
  ℕ, zero, suc, ◌+◌, ◌*◌, ◌<◌, ◌≡◌, refl, sym, subst, Bool, true, ltb, ap, ◌∙◌, ◌&&◌, ◌||◌, Option,
  none, some, List, [], ◌∷◌, ◌++◌, ◌==◌, string_eq, append_assoc, append-nil, length, length-append,
  and-eq_true, not-eq_true, String, Outcome, ok, raised, ◌>>=◌, arith,
}
use m2c.File.{Preproc}
use m2c.File.Condition.{
  or_raise, Parsed, parse1, parse2, and_loop, parse3, or_loop, all_parsed, eval_tokens,
}
use m2c.File.Condition.Numeral.{
  numeral_text, numeral_value, starts_digit-numeral, number_truth-numeral,
}
use m2c.File.Condition.Tokens.{is_word}
use m2c.File.Condition.Truth.{
  macro_truth, is_name, Unary, number, macro, defined, negation, group, All, one, and_also, Any,
  only, or_else, both, either, truth_unary, truth_all, truth_any, write_unary, write_all, write_any,
  is_good_unary, is_good_all, is_good_any, values_of, Evaluates, eval_name-Evaluates, number_step,
  name_step, parse1-Evaluates_defined, parse1-Evaluates_negation, parse1-Evaluates_group,
  Evaluates-bind, after-some, after-both, after_and, after_ands, after-either, after_or, after_ors,
  goes_on_without,
}

-- The outcome of the whole condition.
abbrev pub Answers : Outcome (Bool × Preproc) → Option Bool → Preproc → Type 0
Answers r none st = r ≡ raised
Answers r (some b) st = (st' : Preproc) × (r ≡ ok (b, st')) × (values_of st' ≡ values_of st)

module _ (directive : String) where
  and_stops :
      (f : ℕ) (r : Bool) (rest : List String) (st : Preproc)
      → goes_on_without "&&" rest ≡ true
      → and_loop directive (suc f) r rest st ≡ ok (record { value = r; tokens = rest; state = st })
  unfolding and_loop
  and_stops f r [] st h = refl
  and_stops f r (t ∷ rest) st h = rw (and_loop, not-eq_true (t == "&&") h) refl

  or_stops :
      (f : ℕ) (r : Bool) (rest : List String) (st : Preproc)
      → goes_on_without "||" rest ≡ true
      → or_loop directive (suc f) r rest st ≡ ok (record { value = r; tokens = rest; state = st })
  unfolding or_loop
  or_stops f r [] st h = refl
  or_stops f r (t ∷ rest) st h = rw (or_loop, not-eq_true (t == "||") h) refl

  moved :
      (parse : List String → Preproc → Outcome Parsed) (s middle rest : List String)
      (v : Option Bool) (st : Preproc) (end : List String)
      → Evaluates (parse (s ++ (middle ++ rest)) st) v end st
      → Evaluates (parse ((s ++ middle) ++ rest) st) v end st
  moved parse s middle rest v st end h =
      subst (λ t. Evaluates (parse t st) v end st) (sym (append_assoc s middle rest)) h

  mutual
    unfolding truth_unary truth_all truth_any write_unary write_all write_any is_good_unary
        is_good_all is_good_any parse2 parse3 and_loop or_loop

    unary_reads :
        (u : Unary) (rest : List String) (st : Preproc) (f : ℕ)
        → is_good_unary u ≡ true
        → 4 * length (write_unary u) < f
        → Evaluates
            (parse1 directive f (write_unary u ++ rest) st)
            (truth_unary (values_of st) u)
            rest
            st
    unary_reads u rest st zero g h = absurd (omega arith)
    unary_reads (number k) rest st (suc f) g h =
        subst (λ r. Evaluates r (some (ltb 0 (numeral_value k))) rest st)
          (sym (
            number_step directive f (numeral_text k) rest st (starts_digit-numeral k g)
            ∙ ap (λ v. or_raise v rest st) (number_truth-numeral k g)))
          (st, refl, refl)
    unary_reads (macro t) rest st (suc f) g h =
        subst (λ r. Evaluates r (macro_truth (values_of st t)) rest st)
          (sym (name_step directive f t rest st (and-eq_true (is_word t) (is_name t) g).1))
          (eval_name-Evaluates directive t rest st (values_of st t))
    unary_reads (defined t) rest st (suc f) g h = parse1-Evaluates_defined directive f t rest st
    unary_reads (negation u) rest st (suc f) g h =
        parse1-Evaluates_negation directive f (write_unary u ++ rest) rest st
          (truth_unary (values_of st) u) (unary_reads u rest st f g (omega arith))
    unary_reads (group c) rest st (suc f) g h =
        parse1-Evaluates_group directive f ((write_any c ++ ")" ∷ []) ++ rest) rest st
          (truth_any (values_of st) c)
          (moved (parse3 directive f) (write_any c) (")" ∷ []) rest (truth_any (values_of st) c) st
            (")" ∷ rest)
            (any_reads c (")" ∷ rest) st f g refl refl
              (omega (arith, length-append (write_any c) (")" ∷ [])))))

    all_reads :
        (c : All) (rest : List String) (st : Preproc) (f : ℕ)
        → is_good_all c ≡ true
        → goes_on_without "&&" rest ≡ true
        → 4 * length (write_all c) + 1 < f
        → Evaluates
            (parse2 directive f (write_all c ++ rest) st)
            (truth_all (values_of st) c)
            rest
            st
    all_reads c rest st zero g e h = absurd (omega arith)
    all_reads (one u) rest st (suc zero) g e h = absurd (omega arith)
    all_reads (one u) rest st (suc (suc f)) g e h =
        Evaluates-bind (parse1 directive (suc f) (write_unary u ++ rest) st) _
          (truth_unary (values_of st) u) _ some rest rest st
          (after-some (truth_unary (values_of st) u))
          (unary_reads u rest st (suc f) g (omega arith))
          (λ b st' same. (st', and_stops f b rest st' e, refl))
    all_reads (and_also u us) rest st (suc f) g e h =
        let (first, others) = and-eq_true (is_good_unary u) (is_good_all us) g in
        let total = length-append (write_unary u) ("&&" ∷ write_all us) in
        moved (parse2 directive (suc f)) (write_unary u) ("&&" ∷ write_all us) rest _ st rest (
          Evaluates-bind (parse1 directive f (write_unary u ++ ("&&" ∷ (write_all us ++ rest))) st)
            _ (truth_unary (values_of st) u) _ (λ b. both (some b) (truth_all (values_of st) us))
            ("&&" ∷ (write_all us ++ rest)) rest st
            (after-both (truth_unary (values_of st) u) (truth_all (values_of st) us))
            (unary_reads u ("&&" ∷ (write_all us ++ rest)) st f first (omega arith))
            (λ b st' same.
              subst
                (λ vals.
                  Evaluates (and_loop directive f b ("&&" ∷ (write_all us ++ rest)) st')
                    (both (some b) (truth_all vals us)) rest st')
                same (ands_read us b rest st' f others e (omega arith))))

    ands_read :
        (c : All) (r : Bool) (rest : List String) (st : Preproc) (f : ℕ)
        → is_good_all c ≡ true
        → goes_on_without "&&" rest ≡ true
        → 4 * length (write_all c) + 1 < f
        → Evaluates
            (and_loop directive f r ("&&" ∷ (write_all c ++ rest)) st)
            (both (some r) (truth_all (values_of st) c))
            rest
            st
    ands_read c r rest st zero g e h = absurd (omega arith)
    ands_read (one u) r rest st (suc zero) g e h = absurd (omega arith)
    ands_read (one u) r rest st (suc (suc f)) g e h =
        Evaluates-bind (parse1 directive (suc f) (write_unary u ++ rest) st) _
          (truth_unary (values_of st) u) _ (λ b. some (r && b)) rest rest st
          (after_and r (truth_unary (values_of st) u))
          (unary_reads u rest st (suc f) g (omega arith))
          (λ b st' same. (st', and_stops f (r && b) rest st' e, refl))
    ands_read (and_also u us) r rest st (suc f) g e h =
        let (first, others) = and-eq_true (is_good_unary u) (is_good_all us) g in
        let total = length-append (write_unary u) ("&&" ∷ write_all us) in
        moved (λ t. and_loop directive (suc f) r ("&&" ∷ t)) (write_unary u) ("&&" ∷ write_all us)
          rest _ st rest
          (Evaluates-bind (parse1 directive f (write_unary u ++ ("&&" ∷ (write_all us ++ rest))) st)
            _ (truth_unary (values_of st) u) _
            (λ b. both (some (r && b)) (truth_all (values_of st) us))
            ("&&" ∷ (write_all us ++ rest)) rest st
            (after_ands r (truth_unary (values_of st) u) (truth_all (values_of st) us))
            (unary_reads u ("&&" ∷ (write_all us ++ rest)) st f first (omega arith))
            (λ b st' same.
              subst
                (λ vals.
                  Evaluates (and_loop directive f (r && b) ("&&" ∷ (write_all us ++ rest)) st')
                    (both (some (r && b)) (truth_all vals us)) rest st')
                same (ands_read us (r && b) rest st' f others e (omega arith))))

    any_reads :
        (c : Any) (rest : List String) (st : Preproc) (f : ℕ)
        → is_good_any c ≡ true
        → goes_on_without "&&" rest ≡ true
        → goes_on_without "||" rest ≡ true
        → 4 * length (write_any c) + 2 < f
        → Evaluates
            (parse3 directive f (write_any c ++ rest) st)
            (truth_any (values_of st) c)
            rest
            st
    any_reads c rest st zero g e e' h = absurd (omega arith)
    any_reads (only c) rest st (suc zero) g e e' h = absurd (omega arith)
    any_reads (only c) rest st (suc (suc f)) g e e' h =
        Evaluates-bind (parse2 directive (suc f) (write_all c ++ rest) st) _
          (truth_all (values_of st) c) _ some rest rest st (after-some (truth_all (values_of st) c))
          (all_reads c rest st (suc f) g e (omega arith))
          (λ b st' same. (st', or_stops f b rest st' e', refl))
    any_reads (or_else c cs) rest st (suc f) g e e' h =
        let (first, others) = and-eq_true (is_good_all c) (is_good_any cs) g in
        let total = length-append (write_all c) ("||" ∷ write_any cs) in
        moved (parse3 directive (suc f)) (write_all c) ("||" ∷ write_any cs) rest _ st rest (
          Evaluates-bind (parse2 directive f (write_all c ++ ("||" ∷ (write_any cs ++ rest))) st) _
            (truth_all (values_of st) c) _ (λ b. either (some b) (truth_any (values_of st) cs))
            ("||" ∷ (write_any cs ++ rest)) rest st
            (after-either (truth_all (values_of st) c) (truth_any (values_of st) cs))
            (all_reads c ("||" ∷ (write_any cs ++ rest)) st f first refl (omega arith))
            (λ b st' same.
              subst
                (λ vals.
                  Evaluates (or_loop directive f b ("||" ∷ (write_any cs ++ rest)) st')
                    (either (some b) (truth_any vals cs)) rest st')
                same (ors_read cs b rest st' f others e e' (omega arith))))

    ors_read :
        (c : Any) (r : Bool) (rest : List String) (st : Preproc) (f : ℕ)
        → is_good_any c ≡ true
        → goes_on_without "&&" rest ≡ true
        → goes_on_without "||" rest ≡ true
        → 4 * length (write_any c) + 2 < f
        → Evaluates
            (or_loop directive f r ("||" ∷ (write_any c ++ rest)) st)
            (either (some r) (truth_any (values_of st) c))
            rest
            st
    ors_read c r rest st zero g e e' h = absurd (omega arith)
    ors_read (only c) r rest st (suc zero) g e e' h = absurd (omega arith)
    ors_read (only c) r rest st (suc (suc f)) g e e' h =
        Evaluates-bind (parse2 directive (suc f) (write_all c ++ rest) st) _
          (truth_all (values_of st) c) _ (λ b. some (r || b)) rest rest st
          (after_or r (truth_all (values_of st) c)) (all_reads c rest st (suc f) g e (omega arith))
          (λ b st' same. (st', or_stops f (r || b) rest st' e', refl))
    ors_read (or_else c cs) r rest st (suc f) g e e' h =
        let (first, others) = and-eq_true (is_good_all c) (is_good_any cs) g in
        let total = length-append (write_all c) ("||" ∷ write_any cs) in
        moved (λ t. or_loop directive (suc f) r ("||" ∷ t)) (write_all c) ("||" ∷ write_any cs) rest
          _ st rest
          (Evaluates-bind (parse2 directive f (write_all c ++ ("||" ∷ (write_any cs ++ rest))) st) _
            (truth_all (values_of st) c) _
            (λ b. either (some (r || b)) (truth_any (values_of st) cs))
            ("||" ∷ (write_any cs ++ rest)) rest st
            (after_ors r (truth_all (values_of st) c) (truth_any (values_of st) cs))
            (all_reads c ("||" ∷ (write_any cs ++ rest)) st f first refl (omega arith))
            (λ b st' same.
              subst
                (λ vals.
                  Evaluates (or_loop directive f (r || b) ("||" ∷ (write_any cs ++ rest)) st')
                    (either (some (r || b)) (truth_any vals cs)) rest st')
                same (ors_read cs (r || b) rest st' f others e e' (omega arith))))

  answers :
      (call : Outcome Parsed) (v : Option Bool) (st : Preproc)
      → Evaluates call v [] st
      → Answers (call >>= all_parsed) v st
  answers call none st e = rw e refl
  answers call (some b) st (st', e, same) = (st', rw e refl, same)

  -- The value of a condition's tokens: Text is about a condition's text.
  pub eval_tokens-write_any :
      (c : Any) (st : Preproc) (f : ℕ)
      → is_good_any c ≡ true
      → 4 * length (write_any c) + 2 < f
      → Answers (eval_tokens directive f (write_any c) st) (truth_any (values_of st) c) st
  unfolding eval_tokens
  eval_tokens-write_any c st f g h =
      answers (parse3 directive f (write_any c) st) (truth_any (values_of st) c) st (
        subst (λ t. Evaluates (parse3 directive f t st) (truth_any (values_of st) c) [] st)
          (append-nil (write_any c)) (any_reads c [] st f g refl refl h))
