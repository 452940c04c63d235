-- ===== src/Pattern/Instance.antt =====
-- What it means for an argument to be an instance of a pattern's argument under the bindings of a
-- state, independently of the matcher. Instances
-- stay instances under more bindings.
use m2c.Prelude.{
  ℕ, ◌≤◌, ◌<◌, ◌≡◌, ◌≢◌, refl, sym, ◌⊎◌, inl, inr, Bool, true, false, Option, none, some, List, [],
  ◌∷◌, String, ◌==◌, string_eq, contains, length, if◌then◌else◌, In, Outcome, ok, raised,
  ok-injective, >>=-eq-ok,
}
use m2c.Prelude.Int.{ℤ, pos, negsuc, ◌+ℤ◌, ◌-ℤ◌, shl, int_eq}
use m2c.Prelude.Dict.{Map, lookup}
use m2c.Prelude.Text.{codes, is_upper, starts_with_code}
use m2c.Asm.{
  Register, register_eq, Argument, register, register_list, global_symbol, section_symbol,
  address_mode, macro, literal, bin_op, symbol_name?,
}
use m2c.Pattern.{TryMatchState, uses_of, math_op, eval_math, known_literal}
use m2c.Pattern.Extends.{Within, Extends}

-- The value of an operator of a pattern's expression.
abbrev pub OpValue : String → ℤ → ℤ → ℤ → Type 0
OpValue op a b v =
    ((op ≡ "+") × (v ≡ a +ℤ b))
    ⊎ (((op ≡ "-") × (v ≡ a -ℤ b)) ⊎ ((op ≡ "<<") × ((n : ℕ) × (b ≡ pos n) × (v ≡ shl a n))))

-- The value of a pattern's expression, where a name has the value that it is bound to.
abbrev pub Value : Map String ℤ → Argument → ℤ → Type 0
Value literals (literal k) v = v ≡ k
Value literals (bin_op op l r) v =
    (a : ℤ) × (b : ℤ) × Value literals l a × Value literals r b × OpValue op a b v
Value literals (global_symbol s) v = lookup s literals ≡ some v
Value literals (section_symbol s _ _) v = lookup s literals ≡ some v
Value literals _ v = ⊥

module _ (st : TryMatchState) where
  -- A register with a name of one letter is a variable, which is bound to the argument's register; any
  -- other register is named alike.
  abbrev pub RegInstance : Register → Register → Type 0
  RegInstance a e =
      (length (codes e.register_name) ≤ 1 → lookup e.register_name st.symbolic_registers ≡ some a)
      × (1 < length (codes e.register_name) → e.register_name ≡ a.register_name)

  abbrev pub RegsInstance : List Register → List Register → Type 0
  RegsInstance [] [] = Unit {0}
  RegsInstance (a ∷ as_) (e ∷ es) = RegInstance a e × RegsInstance as_ es
  RegsInstance _ _ = ⊥

  -- A dotted name is a label that the argument is noted to use, an upper-case name is bound to the
  -- argument's number, `_` is anything, and any other name is the argument's name.
  abbrev pub NameInstance : Argument → String → Type 0
  NameInstance a s =
      (starts_with_code b'.' s ≡ true
        → (n : String) × (symbol_name? a ≡ some n) × In n (uses_of st s))
      × (starts_with_code b'.' s ≡ false
          → is_upper s ≡ true
          → (v : ℤ) × (a ≡ literal v) × (lookup s st.symbolic_literals ≡ some v))
      × (starts_with_code b'.' s ≡ false → is_upper s ≡ false → s ≢ "_" → symbol_name? a ≡ some s)

  abbrev pub Instance : Argument → Argument → Type 0
  Instance (literal w) (literal v) = w ≡ v
  Instance _ (literal v) = ⊥
  Instance (register a) (register e) = RegInstance a e
  Instance _ (register e) = ⊥
  Instance a (global_symbol s) = NameInstance a s
  Instance a (section_symbol s _ _) = NameInstance a s
  Instance (address_mode b d w) (address_mode b' d' w') =
      RegInstance b b' × Instance d d' × (w ≡ w')
  Instance _ (address_mode _ _ _) = ⊥
  Instance (bin_op op l r) (bin_op op' l' r') =
      (contains ("lsl" ∷ "lsr" ∷ "asr" ∷ "ror" ∷ "rrx" ∷ []) op' ≡ true)
      × (op ≡ op')
      × Instance l l'
      × Instance r r'
  Instance (literal v) (bin_op op' l' r') = Value st.symbolic_literals (bin_op op' l' r') v
  Instance _ (bin_op _ _ _) = ⊥
  Instance (macro n a) (macro n' a') = (n ≡ n') × Instance a a'
  Instance _ (macro _ _) = ⊥
  Instance (register_list as_) (register_list es) = RegsInstance as_ es
  Instance _ (register_list _) = ⊥

Value-mono :
    (m m' : Map String ℤ) → Within m m' → (e : Argument) (v : ℤ) → Value m e v → Value m' e v
Value-mono m m' h (literal k) v e = e
Value-mono m m' h (bin_op op l r) v (a, b, ea, eb, o) =
    (a, b, Value-mono m m' h l a ea, Value-mono m m' h r b eb, o)
Value-mono m m' h (global_symbol s) v e = h s v e
Value-mono m m' h (section_symbol s _ _) v e = h s v e
Value-mono m m' h _ v e = elim e [ ]

math_op-OpValue : (op : String) (a b v : ℤ) → math_op op a b ≡ ok v → OpValue op a b v
math_op-OpValue op a (pos n) v h = cases (op == "+") (op == "-") (op == "<<") refl refl refl h
  where
    cases :
        (p m s : Bool)
        → (op == "+") ≡ p
        → (op == "-") ≡ m
        → (op == "<<") ≡ s
        → (if p
            then ok (a +ℤ pos n)
            else if m
            then ok (a -ℤ pos n)
            else if s
            then ok (shl a n)
            else raised)
          ≡ ok v
        → OpValue op a (pos n) v
    cases true m s ep em es e = inl ((string_eq.same_iff op "+").0 ep, sym (ok-injective e))
    cases false true s ep em es e =
        inr (inl ((string_eq.same_iff op "-").0 em, sym (ok-injective e)))
    cases false false true ep em es e =
        inr (inr ((string_eq.same_iff op "<<").0 es, (n, refl, sym (ok-injective e))))
    cases false false false ep em es e = cc
math_op-OpValue op a (negsuc n) v h = cases (op == "+") (op == "-") refl refl h
  where
    cases :
        (p m : Bool)
        → (op == "+") ≡ p
        → (op == "-") ≡ m
        → (if p then ok (a +ℤ negsuc n) else if m then ok (a -ℤ negsuc n) else raised) ≡ ok v
        → OpValue op a (negsuc n) v
    cases true m ep em e = inl ((string_eq.same_iff op "+").0 ep, sym (ok-injective e))
    cases false true ep em e = inr (inl ((string_eq.same_iff op "-").0 em, sym (ok-injective e)))
    cases false false ep em e = cc

known_literal-bound :
    (m : Map String ℤ) (s : String) (v : ℤ) → known_literal m s ≡ ok v → lookup s m ≡ some v
known_literal-bound m s v h = found (lookup s m) h
  where
    found :
        (o : Option ℤ)
        → (elim o as (λ _. Outcome ℤ) [ some v ↦ ok v | none ↦ raised ]) ≡ ok v
        → o ≡ some v
    found none h = cc
    found (some w) h = cc

pub eval_math-Value : (m : Map String ℤ) (e : Argument) (v : ℤ) → eval_math m e ≡ ok v → Value m e v
unfolding eval_math
eval_math-Value m (literal k) v h = sym (ok-injective h)
eval_math-Value m (bin_op op l r) v h =
    let (a, ea, h') = >>=-eq-ok (eval_math m l) _ h in
    let (b, eb, h'') = >>=-eq-ok (eval_math m r) _ h' in
    (a, b, eval_math-Value m l a ea, eval_math-Value m r b eb, math_op-OpValue op a b v h'')
eval_math-Value m (global_symbol s) v h = known_literal-bound m s v h
eval_math-Value m (section_symbol s _ _) v h = known_literal-bound m s v h
eval_math-Value m _ v h = cc

module _ {st st' : TryMatchState} (x : Extends st st') where
  pub RegInstance-mono : (a e : Register) → RegInstance st a e → RegInstance st' a e
  RegInstance-mono a e h = (λ v. x.registers e.register_name a (h.0 v), h.1)

  RegsInstance-mono : (as_ es : List Register) → RegsInstance st as_ es → RegsInstance st' as_ es
  RegsInstance-mono [] [] h = tt
  RegsInstance-mono (a ∷ as_) (e ∷ es) h = (RegInstance-mono a e h.0, RegsInstance-mono as_ es h.1)
  RegsInstance-mono [] (e ∷ es) h = h
  RegsInstance-mono (a ∷ as_) [] h = h

  NameInstance-mono : (a : Argument) (s : String) → NameInstance st a s → NameInstance st' a s
  NameInstance-mono a s h = (
    λ dot. let (n, e, i) = h.0 dot in (n, e, x.uses s n i),
    λ plain upper. let (v, e, k) = h.1 plain upper in (v, e, x.literals s v k),
    h.2,
  )

  pub Instance-mono : (a e : Argument) → Instance st a e → Instance st' a e
  Instance-mono (literal w) (literal v) h = h
  Instance-mono _ (literal v) h = elim h [ ]
  Instance-mono (register a) (register e) h = RegInstance-mono a e h
  Instance-mono _ (register e) h = elim h [ ]
  Instance-mono a (global_symbol s) h = NameInstance-mono a s h
  Instance-mono a (section_symbol s _ _) h = NameInstance-mono a s h
  Instance-mono (address_mode b d w) (address_mode b' d' w') h =
      (RegInstance-mono b b' h.0, Instance-mono d d' h.1, h.2)
  Instance-mono _ (address_mode _ _ _) h = elim h [ ]
  Instance-mono (bin_op op l r) (bin_op op' l' r') h =
      (h.0, h.1, Instance-mono l l' h.2, Instance-mono r r' h.3)
  Instance-mono (literal v) (bin_op op' l' r') h = Value-mono _ _ x.literals (bin_op op' l' r') v h
  Instance-mono _ (bin_op _ _ _) h = elim h [ ]
  Instance-mono (macro n a) (macro n' a') h = (h.0, Instance-mono a a' h.1)
  Instance-mono _ (macro _ _) h = elim h [ ]
  Instance-mono (register_list as_) (register_list es) h = RegsInstance-mono as_ es h
  Instance-mono _ (register_list _) h = elim h [ ]
