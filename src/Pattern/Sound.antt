-- ===== src/Pattern/Sound.antt =====
-- match_arg answers yes only for an instance of the pattern's argument under the bindings that it
-- returns.
use m2c.Prelude.{
  ◌≡◌, refl, sym, ◌∙◌, ap, subst, inl, inr, Bool, true, false, not, nat_beq, length, ◌&&◌, Option,
  none, some, List, [], ◌∷◌, String, contains, ◌==◌, string_eq, beq_refl, In, Outcome, ok, ◌>>=◌,
  >>=-eq-ok, ok-injective, Bool-cases, arith, and-eq_true, nat_beq_iff,
}
use m2c.Prelude.Int.{ℤ, int_eq}
use m2c.Prelude.Dict.{lookup}
use m2c.Prelude.Text.{starts_with_code}
use m2c.Asm.{
  Register, Writeback, pre, post, register_eq, Argument, register, register_list, global_symbol,
  section_symbol, address_mode, macro, literal, bin_op, symbol_name?,
}
use m2c.Pattern.{
  TryMatchState, Answer, is_symbolic, match_reg, uses_of, match_label_use, excludes, match_symbol,
  match_label_name, match_literal_name, match_plain_name, match_regs, and_then, and_test,
  writeback_beq, is_barrel_op, eval_math, match_arg,
}
use m2c.Pattern.Instance.{
  RegInstance, RegsInstance, NameInstance, Instance, eval_math-Value, RegInstance-mono,
  Instance-mono,
}
use m2c.Pattern.Extends.{
  IsConsistent, match_var-bound, match_arg-Grows, match_regs-Extends, uses_of-add_use,
}

-- The state after a call that answered yes satisfies `P`.
abbrev pub WhenTrue : (TryMatchState → Type 0) → Outcome Answer → Type 0
WhenTrue P r = (st' : TryMatchState) → r ≡ ok (true, st') → P st'

pub WhenTrue-ok :
    (P : TryMatchState → Type 0) (b : Answer) → (b.0 ≡ true → P b.1) → WhenTrue P (ok b)
WhenTrue-ok P b h st' e =
    let same = ok-injective e in
    subst P (ap (λ (x : Answer). x.1) same) (h (ap (λ (x : Answer). x.0) same))

match_reg-Instance :
    (a e : Register) (st : TryMatchState)
    → (match_reg a e st).0 ≡ true
    → RegInstance (match_reg a e st).1 a e
unfolding match_reg
match_reg-Instance a e st h = elim (Bool-cases (is_symbolic e)) [
  | inl v ↦ rw v (
    λ _. match_var-bound st.symbolic_registers e.register_name a (rw v at h),
    λ f. ground (arith, v),
  )
  | inr c ↦ rw c (
    λ f. ground (arith, c),
    λ _. (string_eq.same_iff e.register_name a.register_name).0 (rw c at h),
  )
]

match_regs_step :
    (a e : Register) (as_ es : List Register) (st : TryMatchState)
    → (match_reg a e st).0 ≡ true
    → match_regs (a ∷ as_) (e ∷ es) st ≡ match_regs as_ es (match_reg a e st).1
unfolding match_regs
match_regs_step a e as_ es st h = rw h

match_regs_first :
    (a e : Register) (as_ es : List Register) (st : TryMatchState)
    → (match_regs (a ∷ as_) (e ∷ es) st).0 ≡ true
    → (match_reg a e st).0 ≡ true
unfolding match_regs
match_regs_first a e as_ es st h = ground arith

match_regs-Instance :
    (as_ es : List Register) (st : TryMatchState)
    → length as_ ≡ length es
    → (match_regs as_ es st).0 ≡ true
    → RegsInstance (match_regs as_ es st).1 as_ es
match_regs-Instance [] [] st n h = tt
match_regs-Instance [] (e ∷ es) st n h = absurd (omega arith)
match_regs-Instance (a ∷ as_) [] st n h = absurd (omega arith)
match_regs-Instance (a ∷ as_) (e ∷ es) st n h =
    let first = match_regs_first a e as_ es st h in
    let step = match_regs_step a e as_ es st first in
    let st₁ = (match_reg a e st).1 in
    subst (λ (r : Answer). RegsInstance r.1 (a ∷ as_) (e ∷ es)) (sym step)
      (
        RegInstance-mono (match_regs-Extends as_ es st₁) a e (match_reg-Instance a e st first),
        match_regs-Instance as_ es st₁ (omega arith) (rw step at h),
      )

match_label_use-bound :
    (s n : String) (st : TryMatchState)
    → (match_label_use s n st).0 ≡ true
    → In n (uses_of (match_label_use s n st).1 s)
unfolding match_label_use
match_label_use-bound s n st h = elim (Bool-cases (excludes (lookup s st.symbolic_labels_def) n)) [
  | inl out ↦ cc (rw out at h)
  | inr in_ ↦ rw in_ (rw (uses_of-add_use st s n s, beq_refl s) (inl refl))
]

label_name-Instance :
    (o : Option String) (s : String) (st : TryMatchState)
    → (match_label_name o s st).0 ≡ true
    → (n : String) × (o ≡ some n) × In n (uses_of (match_label_name o s st).1 s)
label_name-Instance none s st h = cc
label_name-Instance (some n) s st h = (n, refl, match_label_use-bound s n st h)

literal_name-Instance :
    (a : Argument) (s : String) (st : TryMatchState)
    → (match_literal_name a s st).0 ≡ true
    → (v : ℤ) × (a ≡ literal v)
      × (lookup s (match_literal_name a s st).1.symbolic_literals ≡ some v)
literal_name-Instance (literal v) s st h = (v, refl, match_var-bound st.symbolic_literals s v h)
literal_name-Instance _ s st h = cc

plain_name-Instance :
    (o : Option String) (s : String) (st : TryMatchState)
    → (match_plain_name o s st).0 ≡ true
    → o ≡ some s
plain_name-Instance none s st h = cc
plain_name-Instance (some n) s st h = ap some ((string_eq.same_iff n s).0 h)

match_symbol-Instance :
    (a : Argument) (s : String) (st : TryMatchState)
    → (match_symbol a s st).0 ≡ true
    → NameInstance (match_symbol a s st).1 a s
unfolding match_symbol
match_symbol-Instance a s st h = elim (Bool-cases (starts_with_code b'.' s)) [
  | inl dot ↦
      rw dot (λ _. label_name-Instance (symbol_name? a) s st (rw dot at h), λ p. cc, λ p. cc)
  | inr plain ↦ rw plain (
    λ d. cc,
    λ _ up. rw up (literal_name-Instance a s st (rw (plain, up) at h)),
    λ _ low named. elim (Bool-cases (s == "_")) [
      | inl any ↦ absurd (named ((string_eq.same_iff s "_").0 any))
      | inr other ↦ plain_name-Instance (symbol_name? a) s st (rw (plain, low, other) at h)
    ],
  )
]

pub WhenTrue-and_then :
    (P : TryMatchState → Type 0) (now : Answer) (rest : TryMatchState → Outcome Answer)
    → (now.0 ≡ true → WhenTrue P (rest now.1))
    → WhenTrue P (and_then now rest)
WhenTrue-and_then P (true, st) rest h = h refl
WhenTrue-and_then P (false, st) rest h = λ st' e. cc

pub WhenTrue-bind :
    {A : Type 0} (P : TryMatchState → Type 0) (m : Outcome A) (f : A → Outcome Answer)
    → ((a : A) → m ≡ ok a → WhenTrue P (f a))
    → WhenTrue P (m >>= f)
WhenTrue-bind P m f h st' e = let (a, ea, eb) = >>=-eq-ok m f e in h a ea st' eb

pub never : (P : TryMatchState → Type 0) (st : TryMatchState) → WhenTrue P (ok (false, st))
never P st st' e = cc

pub not-eq_true : (b : Bool) → not b ≡ true → b ≡ false
not-eq_true b h = ground arith

pub holds_true :
    (now : Answer) {r : Outcome Answer} → r ≡ ok now → now.0 ≡ true → r ≡ ok (true, now.1)
holds_true now e h = cc

writeback_beq-eq : (w w' : Option Writeback) → writeback_beq w w' ≡ true → w ≡ w'
writeback_beq-eq none none h = refl
writeback_beq-eq none (some w) h = cc
writeback_beq-eq (some w) none h = cc
writeback_beq-eq (some pre) (some pre) h = refl
writeback_beq-eq (some post) (some post) h = refl
writeback_beq-eq (some pre) (some post) h = cc
writeback_beq-eq (some post) (some pre) h = cc

is_barrel_op-contains :
    (op : String)
    → is_barrel_op op ≡ true
    → contains ("lsl" ∷ "lsr" ∷ "asr" ∷ "ror" ∷ "rrx" ∷ []) op ≡ true
is_barrel_op-contains op h = ground arith

pub match_arg-WhenTrue :
    (a e : Argument) (st : TryMatchState) → WhenTrue (λ st'. Instance st' a e) (match_arg a e st)
unfolding match_arg
match_arg-WhenTrue (literal w) (literal v) st =
    WhenTrue-ok _ (w == v, st) (λ h. (int_eq.same_iff w v).0 h)
match_arg-WhenTrue _ (literal v) st = never _ st
match_arg-WhenTrue (register a) (register e) st =
    WhenTrue-ok (λ s. RegInstance s a e) (match_reg a e st) (match_reg-Instance a e st)
match_arg-WhenTrue _ (register e) st = never _ st
match_arg-WhenTrue a (global_symbol s) st =
    WhenTrue-ok (λ t. NameInstance t a s) (match_symbol a s st) (match_symbol-Instance a s st)
match_arg-WhenTrue a (section_symbol s _ _) st =
    WhenTrue-ok (λ t. NameInstance t a s) (match_symbol a s st) (match_symbol-Instance a s st)
match_arg-WhenTrue (address_mode b d w) (address_mode b' d' w') st =
    WhenTrue-and_then _ (match_reg b b' st)
      (λ st₁. match_arg d d' st₁ >>= and_test (writeback_beq w w'))
      λ hb.
        WhenTrue-bind _ (match_arg d d' (match_reg b b' st).1) (and_test (writeback_beq w w'))
          λ now e.
            WhenTrue-ok _ (now.0 && writeback_beq w w', now.1)
              λ both.
                let (hd, hw) = and-eq_true now.0 (writeback_beq w w') both in
                (
                  RegInstance-mono (match_arg-Grows d d' _ now e) b b'
                      (match_reg-Instance b b' st hb),
                  match_arg-WhenTrue d d' _ now.1 (holds_true now e hd),
                  writeback_beq-eq w w' hw,
                )
match_arg-WhenTrue _ (address_mode _ _ _) st = never _ st
match_arg-WhenTrue (bin_op op l r) (bin_op op' l' r') st =
    WhenTrue-and_then _ (is_barrel_op op' && op == op', st)
      (λ st₁. match_arg l l' st₁ >>= λ now. and_then now (match_arg r r'))
      λ ho.
        WhenTrue-bind _ (match_arg l l' st) (λ now. and_then now (match_arg r r'))
          λ now e. WhenTrue-and_then _ now (match_arg r r') λ hl st' er.
            let (hb, he) = and-eq_true (is_barrel_op op') (op == op') ho in
            (
              is_barrel_op-contains op' hb,
              (string_eq.same_iff op op').0 he,
              Instance-mono (match_arg-Grows r r' now.1 (true, st') er) l l'
                  (match_arg-WhenTrue l l' st now.1 (holds_true now e hl)),
              match_arg-WhenTrue r r' now.1 st' er,
            )
match_arg-WhenTrue (literal v) (bin_op op' l' r') st =
    WhenTrue-and_then _ (not (is_barrel_op op'), st)
      (λ st₁. eval_math st₁.symbolic_literals (bin_op op' l' r') >>= λ n. ok (v == n, st₁))
      λ hn.
        WhenTrue-bind _ (eval_math st.symbolic_literals (bin_op op' l' r')) (λ n. ok (v == n, st))
          λ n e.
            WhenTrue-ok _ (v == n, st)
              λ hv.
                eval_math-Value st.symbolic_literals (bin_op op' l' r') v
                  (e ∙ ap ok (sym ((int_eq.same_iff v n).0 hv)))
match_arg-WhenTrue _ (bin_op _ _ _) st = never _ st
match_arg-WhenTrue (macro n a) (macro n' a') st =
    WhenTrue-and_then _ (n == n', st) (match_arg a a')
      λ hn st' e. ((string_eq.same_iff n n').0 hn, match_arg-WhenTrue a a' st st' e)
match_arg-WhenTrue _ (macro _ _) st = never _ st
match_arg-WhenTrue (register_list as_) (register_list es) st =
    elim (Bool-cases (nat_beq (length as_) (length es))) [
      | inl same ↦ rw same (
          WhenTrue-ok _ (match_regs as_ es st)
            (match_regs-Instance as_ es st ((nat_beq_iff _ _).0 same)))
      | inr other ↦ rw other (never _ st)
    ]
match_arg-WhenTrue _ (register_list _) st = never _ st

-- If match_arg answers yes, then the argument is an instance of the pattern's argument under the
-- bindings that the call leaves behind, where a label in the pattern is noted to be used by the name in
-- the argument; and if the noted uses of bound labels were names of these labels, they still are.
pub match_arg-Instance :
    (a e : Argument) (st st' : TryMatchState)
    → IsConsistent st
    → match_arg a e st ≡ ok (true, st')
    → Instance st' a e × IsConsistent st'
match_arg-Instance a e st st' c h =
    (match_arg-WhenTrue a e st st' h, (match_arg-Grows a e st (true, st') h).consistent c)
