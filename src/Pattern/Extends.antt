-- ===== src/Pattern/Extends.antt =====
-- What a pattern has bound stays bound while arguments are matched, whether they match or not.
use m2c.Prelude.{
  ◌≡◌, sym, ◌∙◌, inl, inr, Bool, true, false, not, nat_beq, length, ◌&&◌, Option, none, some, List,
  [], ◌∷◌, String, Eq, ◌==◌, string_eq, beq_refl, if◌then◌else◌, In, contains, Outcome, ok, ◌>>=◌,
  >>=-eq-ok, ok-injective, ap, subst, Bool-cases, Option-cases, arith,
}
use mathlib.Core.Option.{some-injective}
use m2c.Prelude.Text.{is_upper, starts_with_code}
use m2c.Prelude.Int.{ℤ, int_eq}
use m2c.Prelude.Dict.{Map, lookup, insert, lookup-insert}
use m2c.Asm.{
  Register, register_eq, Argument, register, register_list, global_symbol, section_symbol,
  address_mode, macro, literal, bin_op, symbol_name?, Label,
}
use m2c.Pattern.{
  TryMatchState, empty_state, Answer, match_var, is_symbolic, match_reg, uses_of, and_test,
  writeback_beq, is_barrel_op, eval_math, match_label_use, excludes, match_label_name,
  match_literal_name, match_plain_name, match_symbol, match_regs, and_then, match_arg,
}

-- Every entry of the first dictionary is in the second.
abbrev pub Within : {V : Type 0} → Map String V → Map String V → Type 0
Within {V} m m' = (k : String) (v : V) → lookup k m ≡ some v → lookup k m' ≡ some v

-- Every noted use of a label that is bound is one of the label's names.
abbrev pub IsConsistent : TryMatchState → Type 0
IsConsistent st =
    (key : String) (defn : Label) (use_name : String)
    → lookup key st.symbolic_labels_def ≡ some defn
    → In use_name (uses_of st key)
    → contains defn.names use_name ≡ true

pub empty_state-IsConsistent : IsConsistent empty_state
unfolding lookup
empty_state-IsConsistent key defn use_name known used = cc

pub record Extends (st st' : TryMatchState) : Type 0 where
  pub registers : Within st.symbolic_registers st'.symbolic_registers
  pub literals : Within st.symbolic_literals st'.symbolic_literals
  pub labels : Within st.symbolic_labels_def st'.symbolic_labels_def
  pub uses : (k u : String) → In u (uses_of st k) → In u (uses_of st' k)
  pub consistent : IsConsistent st → IsConsistent st'

pub Extends-refl : (st : TryMatchState) → Extends st st
Extends-refl st = record {
  registers = λ k v h. h;
  literals = λ k v h. h;
  labels = λ k v h. h;
  uses = λ k u h. h;
  consistent = λ c. c;
}

pub Extends-trans :
    {st₁ st₂ st₃ : TryMatchState} → Extends st₁ st₂ → Extends st₂ st₃ → Extends st₁ st₃
Extends-trans p q = record {
  registers = λ k v h. q.registers k v (p.registers k v h);
  literals = λ k v h. q.literals k v (p.literals k v h);
  labels = λ k v h. q.labels k v (p.labels k v h);
  uses = λ k u h. q.uses k u (p.uses k u h);
  consistent = λ c. q.consistent (p.consistent c);
}

module _ {V : Type 0} (m : Map String V) (key : String) (value : V) where
  pub Within-insert : lookup key m ≡ none → Within m (insert key value m)
  Within-insert fresh k v h = ground (arith, lookup-insert key k value m, string_eq.same_iff key k)

module _ {V : Type 0} ⦃e : Eq V⦄ (m : Map String V) (key : String) (value : V) where
  pub Within-match_var : Within m (match_var m key value).1
  unfolding match_var
  Within-match_var k v h = elim (Option-cases (lookup key m)) [
    | inl fresh ↦ rw (fresh, match_var) (Within-insert m key value fresh k v h)
    | inr (w, known) ↦ rw (known, match_var) h
  ]

  -- A variable that matched is bound to the value.
  pub match_var-bound :
      (match_var m key value).0 ≡ true → lookup key (match_var m key value).1 ≡ some value
  unfolding match_var
  match_var-bound h = elim (Option-cases (lookup key m)) [
    | inl fresh ↦ rw (fresh, match_var) (lookup-insert key key value m ∙ rw (beq_refl key))
    | inr (w, known) ↦
        rw (known, match_var)
          (known ∙ ap some ((e.same_iff w value).0 (rw (known, match_var) at h)))
  ]

module _ (st : TryMatchState) where
  set_registers-Extends :
      (m : Map String Register)
      → Within st.symbolic_registers m
      → Extends st (record st { symbolic_registers = m })
  set_registers-Extends m h = record {
    registers = h;
    literals = λ k v p. p;
    labels = λ k v p. p;
    uses = λ k u p. p;
    consistent = λ c. c;
  }

  set_literals-Extends :
      (m : Map String ℤ)
      → Within st.symbolic_literals m
      → Extends st (record st { symbolic_literals = m })
  set_literals-Extends m h = record {
    registers = λ k v p. p;
    literals = h;
    labels = λ k v p. p;
    uses = λ k u p. p;
    consistent = λ c. c;
  }

  abbrev pub add_use : String → String → TryMatchState
  add_use key u = record st {
    symbolic_labels_uses = insert key (u ∷ uses_of st key) st.symbolic_labels_uses;
  }

  pub uses_of-add_use :
      (key u k : String)
      → uses_of (add_use key u) k ≡ (if key == k then u ∷ uses_of st key else uses_of st k)
  uses_of-add_use key u k =
      ground (arith, lookup-insert key k (u ∷ uses_of st key) st.symbolic_labels_uses)

  -- A use that no bound label excludes.
  add_use-IsConsistent :
      (key u : String)
      → excludes (lookup key st.symbolic_labels_def) u ≡ false
      → IsConsistent st
      → IsConsistent (add_use key u)
  add_use-IsConsistent key u allowed c s defn w known used = elim (Bool-cases (key == s)) [
    | inl e ↦ cases e (rw (uses_of-add_use key u s, e) at used)
    | inr e ↦ c s defn w known (rw (uses_of-add_use key u s, e) at used)
  ]
    where
      named :
          (d : Option Label) → excludes d u ≡ false → d ≡ some defn → contains defn.names u ≡ true
      named none x e = cc
      named (some d) x e =
          subst (λ (l : Label). contains l.names u ≡ true) (some-injective _ _ e)
            (ground (arith, x))

      cases : (key == s) ≡ true → In w (u ∷ uses_of st key) → contains defn.names w ≡ true
      cases e (inl same) =
          subst (λ n. contains defn.names n ≡ true) (sym same)
            (named (lookup key st.symbolic_labels_def) allowed (
              subst (λ k. lookup k st.symbolic_labels_def ≡ some defn)
                (sym ((string_eq.same_iff key s).0 e)) known))
      cases e (inr old) =
          c s defn w known (subst (λ k. In w (uses_of st k)) ((string_eq.same_iff key s).0 e) old)

  add_use-Extends :
      (key u : String)
      → excludes (lookup key st.symbolic_labels_def) u ≡ false
      → Extends st (add_use key u)
  add_use-Extends key u allowed = record {
    registers = λ k v p. p;
    literals = λ k v p. p;
    labels = λ k v p. p;
    uses = λ k w p. elim (Bool-cases (key == k)) [
      | inl e ↦
          rw (uses_of-add_use key u k, e)
            (inr (subst (λ x. In w (uses_of st x)) (sym ((string_eq.same_iff key k).0 e)) p))
      | inr e ↦ rw (uses_of-add_use key u k, e) p
    ];
    consistent = add_use-IsConsistent key u allowed;
  }

  pub match_reg-Extends : (a e : Register) → Extends st (match_reg a e st).1
  unfolding match_reg
  match_reg-Extends a e = elim (Bool-cases (is_symbolic e)) [
    | inl v ↦
        rw v (set_registers-Extends _ (Within-match_var st.symbolic_registers e.register_name a))
    | inr c ↦ rw c (Extends-refl st)
  ]

  pub match_label_use-Extends : (key u : String) → Extends st (match_label_use key u st).1
  unfolding match_label_use
  match_label_use-Extends key u =
      elim (Bool-cases (excludes (lookup key st.symbolic_labels_def) u)) [
        | inl out ↦ rw out (Extends-refl st)
        | inr in_ ↦ rw in_ (add_use-Extends key u in_)
      ]

  match_label_name-Extends :
      (o : Option String) (s : String) → Extends st (match_label_name o s st).1
  match_label_name-Extends none s = Extends-refl st
  match_label_name-Extends (some n) s = match_label_use-Extends s n

  match_literal_name-Extends :
      (a : Argument) (s : String) → Extends st (match_literal_name a s st).1
  match_literal_name-Extends (literal v) s =
      set_literals-Extends _ (Within-match_var st.symbolic_literals s v)
  match_literal_name-Extends _ s = Extends-refl st

  match_plain_name-Extends :
      (o : Option String) (s : String) → Extends st (match_plain_name o s st).1
  match_plain_name-Extends none s = Extends-refl st
  match_plain_name-Extends (some n) s = Extends-refl st

  pub match_symbol-Extends : (a : Argument) (s : String) → Extends st (match_symbol a s st).1
  unfolding match_symbol
  match_symbol-Extends a s = elim (Bool-cases (starts_with_code b'.' s)) [
    | inl dot ↦ rw dot (match_label_name-Extends (symbol_name? a) s)
    | inr plain ↦ rw plain (elim (Bool-cases (is_upper s)) [
      | inl upper ↦ rw upper (match_literal_name-Extends a s)
      | inr lower ↦ rw lower (elim (Bool-cases (s == "_")) [
        | inl any ↦ rw any (Extends-refl st)
        | inr named ↦ rw named (match_plain_name-Extends (symbol_name? a) s)
      ])
    ])
  ]

pub match_regs-Extends :
    (as_ es : List Register) (st : TryMatchState) → Extends st (match_regs as_ es st).1
unfolding match_regs
match_regs-Extends [] es st = Extends-refl st
match_regs-Extends (a ∷ as_) [] st = Extends-refl st
match_regs-Extends (a ∷ as_) (e ∷ es) st =
    let now = match_reg-Extends st a e in
    elim (Bool-cases (match_reg a e st).0) [
      | inl more ↦ rw more (Extends-trans now (match_regs-Extends as_ es (match_reg a e st).1))
      | inr stop ↦ rw stop now
    ]

-- A call that returned only added to the state.
abbrev pub Grows : TryMatchState → Outcome Answer → Type 0
Grows st r = (b : Answer) → r ≡ ok b → Extends st b.1

pub Grows-ok : (st : TryMatchState) (b : Answer) → Extends st b.1 → Grows st (ok b)
Grows-ok st b h c e = rw (← ok-injective e) h

pub stays : (st : TryMatchState) {b : Bool} → Grows st (ok (b, st))
stays st c e = Grows-ok st _ (Extends-refl st) c e

pub Grows-and_then :
    (st : TryMatchState) (now : Answer) (rest : TryMatchState → Outcome Answer)
    → Extends st now.1
    → Grows now.1 (rest now.1)
    → Grows st (and_then now rest)
Grows-and_then st (true, st₁) rest h g b e = Extends-trans h (g b e)
Grows-and_then st (false, st₁) rest h g b e = Grows-ok st (false, st₁) h b e

pub Grows-bind :
    {A : Type 0} (st : TryMatchState) (m : Outcome A) (f : A → Outcome Answer)
    → ((a : A) → m ≡ ok a → Grows st (f a))
    → Grows st (m >>= f)
Grows-bind st m f h b e = let (a, ea, eb) = >>=-eq-ok m f e in h a ea b eb

pub match_arg-Grows : (a e : Argument) (st : TryMatchState) → Grows st (match_arg a e st)
unfolding match_arg
match_arg-Grows (literal w) (literal v) st = stays st
match_arg-Grows _ (literal v) st = stays st
match_arg-Grows (register a) (register e) st = Grows-ok st _ (match_reg-Extends st a e)
match_arg-Grows _ (register e) st = stays st
match_arg-Grows a (global_symbol s) st = Grows-ok st _ (match_symbol-Extends st a s)
match_arg-Grows a (section_symbol s _ _) st = Grows-ok st _ (match_symbol-Extends st a s)
match_arg-Grows (address_mode b d w) (address_mode b' d' w') st =
    Grows-and_then st (match_reg b b' st)
      (λ st₁. match_arg d d' st₁ >>= and_test (writeback_beq w w')) (match_reg-Extends st b b')
      (Grows-bind _ (match_arg d d' (match_reg b b' st).1) (and_test (writeback_beq w w'))
        λ now e. Grows-ok _ (now.0 && writeback_beq w w', now.1) (match_arg-Grows d d' _ now e))
match_arg-Grows _ (address_mode _ _ _) st = stays st
match_arg-Grows (bin_op op l r) (bin_op op' l' r') st =
    Grows-and_then st (is_barrel_op op' && op == op', st)
      (λ st₁. match_arg l l' st₁ >>= λ now. and_then now (match_arg r r')) (Extends-refl st)
      (Grows-bind st (match_arg l l' st) (λ now. and_then now (match_arg r r'))
        λ now e.
          Grows-and_then st now (match_arg r r') (match_arg-Grows l l' st now e)
            (match_arg-Grows r r' now.1))
match_arg-Grows (literal v) (bin_op op' l' r') st =
    Grows-and_then st (not (is_barrel_op op'), st)
      (λ st₁. eval_math st₁.symbolic_literals (bin_op op' l' r') >>= λ n. ok (v == n, st₁))
      (Extends-refl st)
      (Grows-bind st (eval_math st.symbolic_literals (bin_op op' l' r')) (λ n. ok (v == n, st))
        λ n e. stays st)
match_arg-Grows _ (bin_op _ _ _) st = stays st
match_arg-Grows (macro n a) (macro n' a') st =
    Grows-and_then st (n == n', st) (match_arg a a') (Extends-refl st) (match_arg-Grows a a' st)
match_arg-Grows _ (macro _ _) st = stays st
match_arg-Grows (register_list as_) (register_list es) st =
    elim (Bool-cases (nat_beq (length as_) (length es))) [
      | inl same ↦ rw same (Grows-ok st _ (match_regs-Extends as_ es st))
      | inr other ↦ rw other (stays st)
    ]
match_arg-Grows _ (register_list _) st = stays st

-- If match_arg returns, with whichever answer, then every register, literal and label that was bound
-- still has its value, every noted use of a label is still noted, and if the noted uses of bound labels
-- were names of these labels, they still are.
pub match_arg-Extends :
    (a e : Argument) (st : TryMatchState) (b : Bool) (st' : TryMatchState)
    → match_arg a e st ≡ ok (b, st')
    → Extends st st'
match_arg-Extends a e st b st' h = match_arg-Grows a e st (b, st') h
