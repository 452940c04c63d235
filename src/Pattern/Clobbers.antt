-- ===== src/Pattern/Clobbers.antt =====
-- What the replaced code wrote, the replacement writes or clobbers.
use m2c.Prelude.{
  or-eq_true, ◌≡◌, refl, sym, ◌∙◌, ap, subst, ◌⊎◌, inl, inr, ◌||◌, none, some, List, [], ◌∷◌, ◌++◌,
  if◌then◌else◌, take, drop, length, contains, contains→In, In, In-append_left, In-append_right,
  In-append_cases, ok, >>=-eq-ok, ok-injective, Bool-cases, Option-cases,
}
use mathlib.Core.Option.{some-injective}
use m2c.Asm.{Location, location_eq, BodyPart, instr, label}
use m2c.Pattern.Matcher.{AsmMatcher}
use m2c.Pattern.Rewrite.{
  Replacement, ParseInstruction, parse_parts, derived_meta, all_writes, final_clobbers,
  set_final_clobbers, add_missing, infer_clobbers, with_clobbers, apply,
}

abbrev Subset : List Location → List Location → Type 0
Subset xs ys = (loc : Location) → In loc xs → In loc ys

append-Subset :
    (xs xs' ys ys' : List Location) → Subset xs xs' → Subset ys ys' → Subset (xs ++ ys) (xs' ++ ys')
append-Subset xs xs' ys ys' f g loc i = elim (In-append_cases loc xs ys i) [
  | inl l ↦ In-append_left loc xs' ys' (f loc l)
  | inr r ↦ In-append_right loc xs' ys' (g loc r)
]

module _ (w : List Location) where
  add_missing-keeps : (known locs : List Location) → Subset known (add_missing w known locs)
  unfolding add_missing
  add_missing-keeps known [] loc h = h
  add_missing-keeps known (l ∷ locs) loc h = elim (Bool-cases (contains w l || contains known l)) [
    | inl seen ↦ rw seen (add_missing-keeps known locs loc h)
    | inr new ↦
        rw new (add_missing-keeps (known ++ l ∷ []) locs loc (In-append_left loc known (l ∷ []) h))
  ]

  -- Each location is written already or is known in the end.
  add_missing-covers :
      (known locs : List Location) (loc : Location)
      → In loc locs
      → In loc w ⊎ In loc (add_missing w known locs)
  unfolding add_missing
  add_missing-covers known [] loc h = elim h [ ]
  add_missing-covers known (l ∷ locs) loc (inr h) =
      add_missing-covers (if contains w l || contains known l then known else known ++ l ∷ []) locs
        loc h
  add_missing-covers known (l ∷ locs) loc (inl e) =
      elim (Bool-cases (contains w l || contains known l)) [
        | inl seen ↦ rw seen (elim (or-eq_true (contains w l) (contains known l) seen) [
          | inl a ↦ inl (rw e (contains→In w l a))
          | inr b ↦ inr (rw e (add_missing-keeps known locs l (contains→In known l b)))
        ])
        | inr new ↦ rw new (
            inr (
              rw e (
                add_missing-keeps (known ++ l ∷ []) locs l
                  (In-append_right l known (l ∷ []) (inl refl)))))
      ]

-- The locations put in are written.
set_final_clobbers-has :
    (locs known : List Location) (ps : List BodyPart)
    → final_clobbers ps ≡ some known
    → Subset locs (all_writes (set_final_clobbers locs ps))
unfolding final_clobbers set_final_clobbers
set_final_clobbers-has locs known [] h loc i = cc
set_final_clobbers-has locs known (label l ∷ ps) h loc i =
    set_final_clobbers-has locs known ps h loc i
set_final_clobbers-has locs known (instr p ∷ ps) h loc i = elim (Option-cases (final_clobbers ps)) [
  | inl last ↦
      rw (last, set_final_clobbers)
        (In-append_left loc (p.outputs ++ locs) (all_writes ps)
          (In-append_right loc p.outputs locs i))
  | inr (k, e) ↦
      rw (e, set_final_clobbers)
        (In-append_right loc (p.outputs ++ p.clobbers) (all_writes (set_final_clobbers locs ps))
          (set_final_clobbers-has locs k ps e loc i))
]

-- Nothing that was written is lost, if the last instruction's clobbers are among those put in.
set_final_clobbers-keeps :
    (locs known : List Location) (ps : List BodyPart)
    → final_clobbers ps ≡ some known
    → Subset known locs
    → Subset (all_writes ps) (all_writes (set_final_clobbers locs ps))
unfolding final_clobbers set_final_clobbers
set_final_clobbers-keeps locs known [] h s loc i = cc
set_final_clobbers-keeps locs known (label l ∷ ps) h s loc i =
    set_final_clobbers-keeps locs known ps h s loc i
set_final_clobbers-keeps locs known (instr p ∷ ps) h s loc i =
    elim (Option-cases (final_clobbers ps)) [
      | inl last ↦
          rw (last, set_final_clobbers)
            (append-Subset (p.outputs ++ p.clobbers) (p.outputs ++ locs) (all_writes ps)
              (all_writes ps)
              (append-Subset p.outputs p.outputs p.clobbers locs (λ l m. m)
                (λ l m. s l (subst (In l) (known_here last) m)))
              (λ l m. m) loc i)
      | inr (k, e) ↦
          rw (e, set_final_clobbers)
            (append-Subset (p.outputs ++ p.clobbers) (p.outputs ++ p.clobbers) (all_writes ps)
              (all_writes (set_final_clobbers locs ps)) (λ l m. m)
              (set_final_clobbers-keeps locs k ps e (λ l m. s l (subst (In l) (known_later e) m)))
              loc i)
    ]
  where
    known_here : final_clobbers ps ≡ none → p.clobbers ≡ known
    known_here last = some-injective _ _ (rw (last, final_clobbers) at h)

    known_later : {k : List Location} → final_clobbers ps ≡ some k → k ≡ known
    known_later e = some-injective _ _ (rw (e, final_clobbers) at h)

infer_clobbers-writes :
    (locs : List Location) (ps emitted : List BodyPart)
    → infer_clobbers locs ps ≡ ok emitted
    → Subset locs (all_writes emitted) × Subset (all_writes ps) (all_writes emitted)
unfolding infer_clobbers
infer_clobbers-writes [] ps emitted h =
    (λ loc i. elim i [ ], λ loc i. subst (λ e. In loc (all_writes e)) (ok-injective h) i)
infer_clobbers-writes (l ∷ locs) ps emitted h = elim (Option-cases (final_clobbers ps)) [
  | inl n ↦ cc (rw (n, infer_clobbers) at h)
  | inr (known, e) ↦
      let all = add_missing (all_writes ps) known (l ∷ locs) in
      let same = ok-injective (rw (e, infer_clobbers) at h) in
      let old =
        set_final_clobbers-keeps all known ps e
          (add_missing-keeps (all_writes ps) known (l ∷ locs)) in
      rw (← same) (
        λ loc i. elim (add_missing-covers (all_writes ps) known (l ∷ locs) loc i) [
          | inl w ↦ old loc w
          | inr a ↦ set_final_clobbers-has all known ps e loc a
        ],
        old,
      )
]

drop-length-append : {A : Type 0} (xs ys : List A) → drop (length xs) (xs ++ ys) ≡ ys
drop-length-append [] ys = refl
drop-length-append (x ∷ xs) ys = drop-length-append xs ys

-- What a later matcher has in its output after that of an earlier one.
abbrev pub emitted : AsmMatcher → AsmMatcher → List BodyPart
emitted m m' = drop (length m.output) m'.output

apply_parts :
    (parse : ParseInstruction) (repl : Replacement) (m m' : AsmMatcher)
    → apply parse repl m ≡ ok m'
    → (new_parts : List BodyPart) × (parse_parts parse
          (derived_meta (drop m.index m.input))
          repl.new_body
        ≡ ok new_parts)
      × (with_clobbers repl.clobbers (take repl.num_consumed (drop m.index m.input)) new_parts
          ≡ ok (emitted m m'))
unfolding apply
apply_parts parse repl m m' h =
    let left = drop m.index m.input in
    let (new_parts, ep, h₁) = >>=-eq-ok (parse_parts parse (derived_meta left) repl.new_body) _ h in
    let (out, ee, h₂) =
      >>=-eq-ok (with_clobbers repl.clobbers (take repl.num_consumed left) new_parts) _ h₁ in
    let output = ap (λ (x : AsmMatcher). x.output) (ok-injective h₂) in
    let same = ap (drop (length m.output)) (sym output) ∙ drop-length-append m.output out in
    (new_parts, ep, ee ∙ ap ok (sym same))

-- If apply returns, for a replacement that leaves the clobbers to be inferred, then every location
-- that an instruction of the consumed input writes or clobbers is written or clobbered by an
-- instruction that apply put in the output.
pub apply-writes :
    (parse : ParseInstruction) (repl : Replacement) (m m' : AsmMatcher) (loc : Location)
    → repl.clobbers ≡ none
    → apply parse repl m ≡ ok m'
    → In loc (all_writes (take repl.num_consumed (drop m.index m.input)))
    → In loc (all_writes (emitted m m'))
unfolding with_clobbers
apply-writes parse repl m m' loc c h i =
    let used = take repl.num_consumed (drop m.index m.input) in
    let (ps, ep, ee) = apply_parts parse repl m m' h in
    let inferred = ap (λ o. with_clobbers o used ps) (sym c) ∙ ee in
    (infer_clobbers-writes (all_writes used) ps (emitted m m') inferred).0 loc i

-- If apply returns, for a replacement that leaves the clobbers to be inferred, then all that the
-- replacement's own parts write or clobber stays written or clobbered in what is put out.
pub apply-keeps_writes :
    (parse : ParseInstruction) (repl : Replacement) (m m' : AsmMatcher) (ps : List BodyPart)
    (loc : Location)
    → repl.clobbers ≡ none
    → apply parse repl m ≡ ok m'
    → parse_parts parse (derived_meta (drop m.index m.input)) repl.new_body ≡ ok ps
    → In loc (all_writes ps)
    → In loc (all_writes (emitted m m'))
unfolding with_clobbers
apply-keeps_writes parse repl m m' ps loc c h p i =
    let used = take repl.num_consumed (drop m.index m.input) in
    let (ps', ep, ee) = apply_parts parse repl m m' h in
    let inferred = ap (λ o. with_clobbers o used ps') (sym c) ∙ ee in
    let same = ok-injective (sym p ∙ ep) in
    (infer_clobbers-writes (all_writes used) ps' (emitted m m') inferred).1 loc
      (subst (λ x. In loc (all_writes x)) same i)
