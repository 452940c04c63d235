-- ===== src/Pattern/Loop.antt =====
-- The loop of simplify_patterns ends, and leaves a body alone that no pattern matches.
use m2c.Prelude.{
  ℕ, zero, suc, ◌+◌, ◌<◌, ◌≡◌, ◌≢◌, refl, sym, ap, subst, inl, inr, Bool, true, false, Option, none,
  some, List, [], ◌∷◌, ◌++◌, length, take, drop, get_elem?, Outcome, ok, raised, out_of_fuel, ◌>>=◌,
  >>=-eq-ok, ok-injective, Option-cases, arith,
}
use m2c.Asm.{Location, BodyPart, instr}
use m2c.Pattern.Matcher.{AsmMatcher}
use m2c.Pattern.Rewrite.{
  Replacement, ReplacementPart, asm, part, ParseInstruction, parse_parts, derived_meta, all_writes,
  infer_clobbers, explicit_clobbers, with_clobbers, apply, AsmPattern, advance, run_pattern,
  fresh_matcher, simplify_pattern, simplify_patterns,
}

-- The parser and the patterns end, and a replacement consumes something.
pub record Consumes (parse : ParseInstruction) (pattern : AsmPattern) : Type 0 where
  pub parse_ends : (i : _) (args : _) (meta : _) → parse i args meta ≢ out_of_fuel
  pub match_ends : (m : AsmMatcher) → pattern m ≢ out_of_fuel
  pub positive : (m : AsmMatcher) (r : Replacement) → pattern m ≡ ok (some r) → 0 < r.num_consumed

bind-ends :
    {A B : Type 0} (m : Outcome A) (f : A → Outcome B)
    → m ≢ out_of_fuel
    → ((a : A) → m ≡ ok a → f a ≢ out_of_fuel)
    → (m >>= f) ≢ out_of_fuel
bind-ends (ok a) f hm hf = hf a refl
bind-ends raised f hm hf = cc
bind-ends out_of_fuel f hm hf = absurd (hm refl)

infer_clobbers-ends :
    (locs : List Location) (ps : List BodyPart) → infer_clobbers locs ps ≢ out_of_fuel
unfolding infer_clobbers
infer_clobbers-ends [] ps = cc
infer_clobbers-ends (l ∷ locs) ps = ground arith

explicit_clobbers-ends :
    (locs : List Location) (ps : List BodyPart) → explicit_clobbers locs ps ≢ out_of_fuel
unfolding explicit_clobbers
explicit_clobbers-ends [] ps = cc
explicit_clobbers-ends (l ∷ locs) ps = ground arith

with_clobbers-ends :
    (c : Option (List Location)) (used ps : List BodyPart) → with_clobbers c used ps ≢ out_of_fuel
unfolding with_clobbers
with_clobbers-ends none used ps = infer_clobbers-ends (all_writes used) ps
with_clobbers-ends (some locs) used ps = explicit_clobbers-ends locs ps

lt-length_of_get_elem? :
    {A : Type 0} (xs : List A) (i : ℕ) (x : A) → get_elem? xs i ≡ some x → i < length xs
lt-length_of_get_elem? [] i x h = cc
lt-length_of_get_elem? (y ∷ xs) zero x h = omega arith
lt-length_of_get_elem? (y ∷ xs) (suc i) x h = omega (arith, lt-length_of_get_elem? xs i x h)

module _ (parse : ParseInstruction) (pattern : AsmPattern) (c : Consumes parse pattern) where
  parse_parts-ends :
      (meta : _) (ps : List ReplacementPart) → parse_parts parse meta ps ≢ out_of_fuel
  unfolding parse_parts
  parse_parts-ends meta [] = cc
  parse_parts-ends meta (asm i ∷ ps) =
      bind-ends (parse i.mnemonic i.args meta >>= λ p. ok (instr p)) _
        (bind-ends (parse i.mnemonic i.args meta) _ (c.parse_ends i.mnemonic i.args meta) λ p e. cc)
        λ p e. bind-ends (parse_parts parse meta ps) _ (parse_parts-ends meta ps) λ rest e'. cc
  parse_parts-ends meta (part p ∷ ps) =
      bind-ends (parse_parts parse meta ps) _ (parse_parts-ends meta ps) λ rest e'. cc

  apply-ends : (r : Replacement) (m : AsmMatcher) → apply parse r m ≢ out_of_fuel
  unfolding apply
  apply-ends r m =
      bind-ends (parse_parts parse (derived_meta (drop m.index m.input)) r.new_body) _
        (parse_parts-ends _ r.new_body)
        λ ps e.
          bind-ends (with_clobbers r.clobbers (take r.num_consumed (drop m.index m.input)) ps) _
            (with_clobbers-ends r.clobbers _ ps) λ out e'. cc

  apply-moves :
      (r : Replacement) (m m' : AsmMatcher)
      → apply parse r m ≡ ok m'
      → (m'.input ≡ m.input) × (m'.index ≡ m.index + r.num_consumed)
  unfolding apply
  apply-moves r m m' h =
      let (ps, e, h₁) =
        >>=-eq-ok (parse_parts parse (derived_meta (drop m.index m.input)) r.new_body) _ h in
      let (out, e', h₂) =
        >>=-eq-ok (with_clobbers r.clobbers (take r.num_consumed (drop m.index m.input)) ps) _ h₁ in
      let same = sym (ok-injective h₂) in
      (ap (λ (x : AsmMatcher). x.input) same, ap (λ (x : AsmMatcher). x.index) same)

  -- Each round moves on in the same input.
  abbrev Moved : AsmMatcher → AsmMatcher × Bool → Type 0
  Moved m next = (next.0.input ≡ m.input) × (m.index < next.0.index)

  advance-moves :
      (m : AsmMatcher) (item : BodyPart) (b : Bool)
      → (advance parse pattern m item b ≢ out_of_fuel)
        × ((next : AsmMatcher × Bool) → advance parse pattern m item b ≡ ok next → Moved m next)
  unfolding advance
  advance-moves m item b = (
    bind-ends (pattern m) _ (c.match_ends m) ends,
    λ next h. let (found, ef, en) = >>=-eq-ok (pattern m) _ h in moves found ef next en,
  )
    where
      after : Option Replacement → Outcome (AsmMatcher × Bool)
      after (some repl) = apply parse repl m >>= λ m'. ok (m', true)
      after none = ok (record m { output = m.output ++ item ∷ []; index = m.index + 1 }, b)

      ends : (found : Option Replacement) → pattern m ≡ ok found → after found ≢ out_of_fuel
      ends (some r) e = bind-ends (apply parse r m) _ (apply-ends r m) λ m' e'. cc
      ends none e = cc

      moves :
          (found : Option Replacement)
          → pattern m ≡ ok found
          → (next : AsmMatcher × Bool) → after found ≡ ok next
          → Moved m next
      moves (some r) e next h =
          let (m', em, en) = >>=-eq-ok (apply parse r m) _ h in
          let (input, index) = apply-moves r m m' em in
          let some_taken = c.positive m r e in
          subst (Moved m) (ok-injective en) (input, omega arith)
      moves none e next h = subst (Moved m) (ok-injective h) (refl, omega arith)

  run_pattern-ends :
      (f : ℕ) (m : AsmMatcher) (b : Bool)
      → length m.input < f + m.index
      → 0 < f
      → run_pattern f parse pattern m b ≢ out_of_fuel
  unfolding run_pattern
  run_pattern-ends zero m b h p = absurd (omega arith)
  run_pattern-ends (suc f) m b h p = elim (Option-cases (get_elem? m.input m.index)) [
    | inl over ↦ rw (over, run_pattern) (cc)
    | inr (item, e) ↦
        let inside = lt-length_of_get_elem? m.input m.index item e in
        let (ends, moves) = advance-moves m item b in
        rw (e, run_pattern)
          (bind-ends (advance parse pattern m item b) _ ends λ next en.
            let (input, index) = moves next en in
            run_pattern-ends f next.0 next.1 (omega (arith, ap length input))
              (omega (arith, ap length input)))
  ]

  simplify_pattern-ends : (body : List BodyPart) → simplify_pattern parse pattern body ≢ out_of_fuel
  unfolding simplify_pattern
  simplify_pattern-ends body =
      bind-ends (run_pattern (suc (length body)) parse pattern (fresh_matcher body) false) _
        (run_pattern-ends (suc (length body)) (fresh_matcher body) false (omega arith)
          (omega arith))
        λ done e. cc

abbrev pub AllConsume : ParseInstruction → List AsmPattern → Type 0
AllConsume parse [] = Unit {0}
AllConsume parse (p ∷ ps) = Consumes parse p × AllConsume parse ps

-- If every pattern's replacements consume at least one part of the input, and neither the patterns
-- nor the instruction parser run for ever, then simplify_patterns ends on every body: the fuel of one
-- round more than the body has parts is enough for each pattern.
pub simplify_patterns-ends :
    (parse : ParseInstruction) (patterns : List AsmPattern)
    → AllConsume parse patterns
    → (body : List BodyPart) → simplify_patterns parse patterns body ≢ out_of_fuel
unfolding simplify_patterns
simplify_patterns-ends parse [] c body = cc
simplify_patterns-ends parse (p ∷ ps) c body =
    bind-ends (simplify_pattern parse p body) _ (simplify_pattern-ends parse p c.0 body)
      λ body' e. simplify_patterns-ends parse ps c.1 body'

-- Away from the matches the loop copies its input: a pattern that never matches moves what is left
-- of the input to the output.
run_pattern-copies :
    (parse : ParseInstruction) (pattern : AsmPattern)
    → ((m : AsmMatcher) → pattern m ≡ ok none)
    → (f : ℕ) (m : AsmMatcher) (b : Bool) → length m.input < f + m.index
    → 0 < f
    → (m' : AsmMatcher) × (run_pattern f parse pattern m b ≡ ok (m', b))
unfolding run_pattern advance
run_pattern-copies parse pattern nm zero m b h p = absurd (omega arith)
run_pattern-copies parse pattern nm (suc f) m b h p =
    elim (Option-cases (get_elem? m.input m.index)) [
      | inl over ↦ (m, rw (over, run_pattern))
      | inr (item, e) ↦
          let inside = lt-length_of_get_elem? m.input m.index item e in
          let next = record m { output = m.output ++ item ∷ []; index = m.index + 1 } in
          let (m', r) = run_pattern-copies parse pattern nm f next b (omega arith) (omega arith) in
          (m', rw (e, run_pattern) (rw (nm m) r))
    ]

abbrev pub NoneMatch : List AsmPattern → Type 0
NoneMatch [] = Unit {0}
NoneMatch (p ∷ ps) = ((m : AsmMatcher) → p m ≡ ok none) × NoneMatch ps

-- If none of the patterns ever matches, simplify_patterns returns the body as it was.
pub simplify_patterns-same :
    (parse : ParseInstruction) (patterns : List AsmPattern)
    → NoneMatch patterns
    → (body : List BodyPart) → simplify_patterns parse patterns body ≡ ok body
unfolding simplify_patterns simplify_pattern
simplify_patterns-same parse [] nm body = refl
simplify_patterns-same parse (p ∷ ps) nm body =
    let (m', e) =
      run_pattern-copies parse p nm.0 (suc (length body)) (fresh_matcher body) false (omega arith)
        (omega arith) in
    rw e (simplify_patterns-same parse ps nm.1 body)
