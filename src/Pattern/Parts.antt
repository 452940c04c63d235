-- ===== src/Pattern/Parts.antt =====
-- One part of a body against one part of a pattern: an answer of yes means an instance.
use m2c.Prelude.{
  suc, ◌≡◌, ◌≢◌, refl, ◌∙◌, inl, inr, true, nat_beq, nat_beq_iff, beq_refl, length, some, List, [],
  ◌∷◌, String, ◌==◌, string_eq, Bool-cases, Option-cases, arith, Bool, false, subst, sym, In,
  contains, and-eq_true,
}
use m2c.Prelude.Dict.{insert, lookup, lookup-insert}
use m2c.Asm.{Argument, AsmInstruction, Label, Instruction, BodyPart, instr, label}
use mathlib.Core.Option.{some-injective}
use m2c.Pattern.{TryMatchState, uses_of, all_in, match_label_def, and_then, match_arg}
use m2c.Pattern.Part.{
  PatternPart, wildcard, label_part, instr_part, match_args, match_operands, match_instr,
  match_label, match_one,
}
use m2c.Pattern.Extends.{
  IsConsistent, Extends, Grows, Grows-ok, Grows-and_then, Grows-bind, stays, match_arg-Grows,
  Within-insert,
}
use m2c.Pattern.Instance.{Instance, Instance-mono}
use m2c.Pattern.Sound.{
  WhenTrue, WhenTrue-ok, WhenTrue-and_then, WhenTrue-bind, never, holds_true, match_arg-WhenTrue,
}

module _ (st : TryMatchState) where
  abbrev pub ArgsInstance : List Argument → List Argument → Type 0
  ArgsInstance [] [] = Unit {0}
  ArgsInstance (a ∷ as_) (e ∷ es) = Instance st a e × ArgsInstance as_ es
  ArgsInstance _ _ = ⊥

  -- A wildcard takes any part, a label of the pattern is bound to the label that it met, and an
  -- instruction has the mnemonic and, if the pattern gives any, instances of the arguments.
  abbrev pub PartInstance : BodyPart → PatternPart → Type 0
  PartInstance b wildcard = Unit {0}
  PartInstance b (label_part l) =
      (key : String) × (defn : Label) × (l.names ≡ key ∷ [])
      × (b ≡ label defn)
      × (lookup key st.symbolic_labels_def ≡ some defn)
  PartInstance b (instr_part exp) =
      (ins : Instruction) × (b ≡ instr ins)
      × (ins.mnemonic ≡ exp.mnemonic)
      × (exp.args ≢ [] → ArgsInstance ins.args exp.args)

module _ {st st' : TryMatchState} (x : Extends st st') where
  ArgsInstance-mono : (as_ es : List Argument) → ArgsInstance st as_ es → ArgsInstance st' as_ es
  ArgsInstance-mono [] [] h = tt
  ArgsInstance-mono (a ∷ as_) (e ∷ es) h = (Instance-mono x a e h.0, ArgsInstance-mono as_ es h.1)
  ArgsInstance-mono [] (e ∷ es) h = h
  ArgsInstance-mono (a ∷ as_) [] h = h

  pub PartInstance-mono :
      (b : BodyPart) (p : PatternPart) → PartInstance st b p → PartInstance st' b p
  PartInstance-mono b wildcard h = tt
  PartInstance-mono b (label_part l) h = (h.0, h.1, h.2, h.3, x.labels h.0 h.1 h.4)
  PartInstance-mono b (instr_part exp) h =
      (h.0, h.1, h.2, λ n. ArgsInstance-mono h.0.args exp.args (h.3 n))

match_args-Grows : (as_ es : List Argument) (st : TryMatchState) → Grows st (match_args as_ es st)
unfolding match_args
match_args-Grows [] es st = stays st
match_args-Grows (a ∷ as_) [] st = stays st
match_args-Grows (a ∷ as_) (e ∷ es) st =
    Grows-bind st (match_arg a e st) (λ now. and_then now (match_args as_ es))
      λ now h.
        Grows-and_then st now (match_args as_ es) (match_arg-Grows a e st now h)
          (match_args-Grows as_ es now.1)

match_args-Instance :
    (as_ es : List Argument) (st : TryMatchState)
    → length as_ ≡ length es
    → WhenTrue (λ st'. ArgsInstance st' as_ es) (match_args as_ es st)
unfolding match_args
match_args-Instance [] [] st n = λ st' h. tt
match_args-Instance [] (e ∷ es) st n = absurd (omega arith)
match_args-Instance (a ∷ as_) [] st n = absurd (omega arith)
match_args-Instance (a ∷ as_) (e ∷ es) st n =
    WhenTrue-bind _ (match_arg a e st) (λ now. and_then now (match_args as_ es))
      λ now h. WhenTrue-and_then _ now (match_args as_ es) λ first st' rest. (
        Instance-mono (match_args-Grows as_ es now.1 (true, st') rest) a e
            (match_arg-WhenTrue a e st now.1 (holds_true now h first)),
        match_args-Instance as_ es now.1 (omega arith) st' rest,
      )

match_operands-Grows :
    (as_ es : List Argument) (st : TryMatchState) → Grows st (match_operands as_ es st)
unfolding match_operands
match_operands-Grows as_ [] st = stays st
match_operands-Grows as_ (e ∷ es) st = elim (Bool-cases (nat_beq (length as_) (suc (length es)))) [
  | inl same ↦ rw same (match_args-Grows as_ (e ∷ es) st)
  | inr other ↦ rw other (stays st)
]

match_operands-Instance :
    (as_ es : List Argument) (st : TryMatchState)
    → WhenTrue (λ st'. es ≢ [] → ArgsInstance st' as_ es) (match_operands as_ es st)
unfolding match_operands
match_operands-Instance as_ [] st = λ st' h n. absurd (n refl)
match_operands-Instance as_ (e ∷ es) st =
    elim (Bool-cases (nat_beq (length as_) (suc (length es)))) [
      | inl same ↦
          rw same (λ st' h _. match_args-Instance as_ (e ∷ es) st ((nat_beq_iff _ _).0 same) st' h)
      | inr other ↦ rw other (never _ st)
    ]

match_instr-Grows :
    (i : Instruction) (e : AsmInstruction) (st : TryMatchState) → Grows st (match_instr i e st)
unfolding match_instr
match_instr-Grows i e st = elim (Bool-cases (i.mnemonic == e.mnemonic)) [
  | inl same ↦ rw same (match_operands-Grows i.args e.args st)
  | inr other ↦ rw other (stays st)
]

match_instr-Instance :
    (i : Instruction) (e : AsmInstruction) (st : TryMatchState)
    → WhenTrue (λ st'. PartInstance st' (instr i) (instr_part e)) (match_instr i e st)
unfolding match_instr
match_instr-Instance i e st = elim (Bool-cases (i.mnemonic == e.mnemonic)) [
  | inl same ↦ rw same (λ st' h.
      (i, refl, (string_eq.same_iff _ _).0 same, match_operands-Instance i.args e.args st st' h))
  | inr other ↦ rw other (never _ st)
]

insert_label-IsConsistent :
    (key : String) (l : Label) (st : TryMatchState)
    → all_in (uses_of st key) l.names ≡ true
    → IsConsistent st
    → IsConsistent (record st { symbolic_labels_def = insert key l st.symbolic_labels_def })
insert_label-IsConsistent key l st within c s defn w known used = elim (Bool-cases (key == s)) [
  | inl e ↦
      subst (λ (d : Label). contains d.names w ≡ true)
        (some-injective _ _ (rw (lookup-insert key s l st.symbolic_labels_def, e) at known))
        (all_in-contains (uses_of st key) l.names w within
          (subst (λ k. In w (uses_of st k)) (sym ((string_eq.same_iff key s).0 e)) used))
  | inr e ↦ c s defn w (rw (lookup-insert key s l st.symbolic_labels_def, e) at known) used
]
  where
    all_in-contains :
        (us names : List String) (w : String)
        → all_in us names ≡ true
        → In w us
        → contains names w ≡ true
    all_in-contains [] names w h m = elim m [ ]
    all_in-contains (u ∷ us) names w h (inl e) =
        subst (λ n. contains names n ≡ true) (sym e)
          (and-eq_true (contains names u) (all_in us names) h).0
    all_in-contains (u ∷ us) names w h (inr m) =
        all_in-contains us names w (and-eq_true (contains names u) (all_in us names) h).1 m

-- A label that is defined holds every name that is noted for it.
match_label_def-Extends :
    (key : String) (l : Label) (st : TryMatchState)
    → WhenTrue (Extends st) (match_label_def key l st)
unfolding match_label_def
match_label_def-Extends key l st = elim (Option-cases (lookup key st.symbolic_labels_def)) [
  | inl fresh ↦
      rw (fresh, match_label_def)
        (WhenTrue-ok (Extends st) _ (λ within. record {
          registers = λ k v p. p;
          literals = λ k v p. p;
          labels = Within-insert st.symbolic_labels_def key l fresh;
          uses = λ k u p. p;
          consistent = insert_label-IsConsistent key l st within;
        }))
  | inr (d, known) ↦ rw (known, match_label_def) (λ b e. cc)
]

match_label_def-bound :
    (key : String) (l : Label) (st : TryMatchState)
    → WhenTrue (λ st'. lookup key st'.symbolic_labels_def ≡ some l) (match_label_def key l st)
unfolding match_label_def
match_label_def-bound key l st = elim (Option-cases (lookup key st.symbolic_labels_def)) [
  | inl fresh ↦
      rw (fresh, match_label_def)
        (WhenTrue-ok _ _ (λ _. lookup-insert key key l st.symbolic_labels_def ∙ rw (beq_refl key)))
  | inr (d, known) ↦ rw (known, match_label_def) (λ b e. cc)
]

match_label-Extends :
    (b : BodyPart) (names : List String) (st : TryMatchState)
    → WhenTrue (Extends st) (match_label b names st)
unfolding match_label
match_label-Extends (label l) (key ∷ []) st = match_label_def-Extends key l st
match_label-Extends (instr i) (key ∷ []) st = never _ st
match_label-Extends (label l) [] st = λ b e. cc
match_label-Extends (instr i) [] st = λ b e. cc
match_label-Extends (label l) (k ∷ k' ∷ ks) st = λ b e. cc
match_label-Extends (instr i) (k ∷ k' ∷ ks) st = λ b e. cc

match_label-bound :
    (b : BodyPart) (l : Label) (names : List String) (st : TryMatchState)
    → l.names ≡ names
    → WhenTrue (λ st'. PartInstance st' b (label_part l)) (match_label b names st)
unfolding match_label
match_label-bound (label d) l (key ∷ []) st n =
    λ st' h. (key, d, n, refl, match_label_def-bound key d st st' h)
match_label-bound (instr i) l (key ∷ []) st n = never _ st
match_label-bound (label d) l [] st n = λ st' h. cc
match_label-bound (instr i) l [] st n = λ st' h. cc
match_label-bound (label d) l (k ∷ k' ∷ ks) st n = λ st' h. cc
match_label-bound (instr i) l (k ∷ k' ∷ ks) st n = λ st' h. cc

abbrev pub is_label : PatternPart → Bool
is_label (label_part l) = true
is_label wildcard = false
is_label (instr_part e) = false

-- Whatever the answer for a part that is not a label.
pub match_one-Grows :
    (b : BodyPart) (p : PatternPart) (st : TryMatchState)
    → is_label p ≡ false
    → Grows st (match_one b p st)
unfolding match_one
match_one-Grows b wildcard st n = Grows-ok st _ (record {
  registers = λ k v h. h;
  literals = λ k v h. h;
  labels = λ k v h. h;
  uses = λ k u h. h;
  consistent = λ c. c;
})
match_one-Grows b (label_part l) st n = cc
match_one-Grows (instr i) (instr_part e) st n = match_instr-Grows i e st
match_one-Grows (label l) (instr_part e) st n = stays st

pub match_one-Extends :
    (b : BodyPart) (p : PatternPart) (st : TryMatchState) → WhenTrue (Extends st) (match_one b p st)
unfolding match_one
match_one-Extends b wildcard st = λ st' h. match_one-Grows b wildcard st refl (true, st') h
match_one-Extends b (label_part l) st = match_label-Extends b l.names st
match_one-Extends b (instr_part e) st =
    λ st' h. match_one-Grows b (instr_part e) st refl (true, st') h

pub match_one-Instance :
    (b : BodyPart) (p : PatternPart) (st : TryMatchState)
    → WhenTrue (λ st'. PartInstance st' b p) (match_one b p st)
unfolding match_one
match_one-Instance b wildcard st = λ st' h. tt
match_one-Instance b (label_part l) st = match_label-bound b l l.names st refl
match_one-Instance (instr i) (instr_part e) st = match_instr-Instance i e st
match_one-Instance (label l) (instr_part e) st = never _ st
