-- ===== src/Asm/Fold/Value.antt =====
-- Constant folding keeps the value of an argument.
use native.Mathlib.Nat.{pow-suc}
use m2c.Prelude.{
  ◌<◌, ℕ, zero, suc, ◌*◌, ◌^◌, ◌≡◌, refl, inl, inr, Option, none, some, String, ◌==◌, string_eq,
  if◌then◌else◌, ok, >>=-eq-ok, ok-injective, arith, sym, ◌∙◌, Option-cases,
}
use m2c.Prelude.Int.{ℤ, pos, negsuc, ◌+ℤ◌, ◌-ℤ◌, ◌*ℤ◌, shl, shr, and_ℤ, or_ℤ, xor_ℤ}
use m2c.Asm.{Argument, global_symbol, section_symbol, literal, bin_op}
use m2c.Asm.Fold.{Defines, fold_op, fold_bin, rebuild, define?, constant_fold}

-- What an operator means on numbers: a shift to the left multiplies by a power of two.
abbrev pub shift_value : (ℤ → ℕ → ℤ) → ℤ → ℤ → Option ℤ
shift_value f a (pos n) = some (f a n)
shift_value f a (negsuc n) = none

unfoldable pub op_value : String → ℤ → ℤ → Option ℤ
op_value op a b =
    if op == "+"
    then some (a +ℤ b)
    else if op == "-"
    then some (a -ℤ b)
    else if op == "*"
    then some (a *ℤ b)
    else if op == ">>"
    then shift_value shr a b
    else if op == "<<"
    then shift_value (λ x n. x *ℤ pos (2 ^ n)) a b
    else if op == "&"
    then some (and_ℤ a b)
    else if op == "|"
    then some (or_ℤ a b)
    else if op == "^"
    then some (xor_ℤ a b)
    else none

abbrev pub both : String → Option ℤ → Option ℤ → Option ℤ
both op (some a) (some b) = op_value op a b
both op _ _ = none

-- The number that an argument stands for where `env` gives the symbols their values.
unfoldable pub value : (String → ℤ) → Argument → Option ℤ
value env (literal v) = some v
value env (global_symbol s) = some (env s)
value env (section_symbol s _ _) = some (env s)
value env (bin_op op l r) = both op (value env l) (value env r)
value env _ = none

pow_pos : (n : ℕ) → 0 < 2 ^ n
pow_pos zero = omega arith
pow_pos (suc n) = let step = pow-suc 2 n in omega (arith, step, pow_pos n)

pub shl-eq-mul : (a : ℤ) (n : ℕ) → shl a n ≡ a *ℤ pos (2 ^ n)
unfolding shl ◌*ℤ◌
shl-eq-mul (pos a) n = ground arith
shl-eq-mul (negsuc a) n = ground (arith, pow_pos n, grow (2 ^ n) a)
  where
    grow : (p b : ℕ) → (0 < p) → 0 < suc b * p
    grow p b h = grind arith

fold_op-value : (op : String) (a b v : ℤ) → fold_op op a b ≡ ok (some v) → op_value op a b ≡ some v
unfolding fold_op op_value
fold_op-value op a (pos b) v h = ground (arith, shl-eq-mul a b)
fold_op-value op a (negsuc b) v h = ground arith

-- An operator that is not folded has no value.
fold_op-none : (op : String) (a b : ℤ) → fold_op op a b ≡ ok none → op_value op a b ≡ none
unfolding fold_op op_value
fold_op-none op a (pos b) h = ground arith
fold_op-none op a (negsuc b) h = ground arith

rebuild-value :
    (env : String → ℤ) (op : String) (x y : ℤ) (o : Option ℤ)
    → fold_op op x y ≡ ok o
    → value env (rebuild op (literal x) (literal y) o) ≡ op_value op x y
unfolding value
rebuild-value env op x y none h = refl
rebuild-value env op x y (some v) h = sym (fold_op-value op x y v h)

fold_bin-value :
    (env : String → ℤ) (op : String) (l r b : Argument)
    → fold_bin op l r ≡ ok b
    → value env b ≡ both op (value env l) (value env r)
unfolding fold_bin value
fold_bin-value env op (literal x) (literal y) b h =
    let (o, e, e') = >>=-eq-ok (fold_op op x y) _ h in
    rw (← ok-injective e') (rebuild-value env op x y o e)
fold_bin-value env op l r b h = rw (← ok-injective h) refl

-- Each define stands for the value that the environment gives its name.
abbrev pub Agrees : (String → ℤ) → Defines → Type 0
Agrees env defines =
    (s : String) (e : Argument) → define? defines s ≡ some e → value env e ≡ some (env s)

-- Whenever constant_fold returns, and whatever the fuel, the folded argument has the value of the
-- original one (or none where it had none), if each define agrees with the value of its name.
pub constant_fold-value :
    (env : String → ℤ) (defines : Defines)
    → Agrees env defines
    → (f : ℕ) (a b : Argument) → constant_fold f defines a ≡ ok b
    → value env b ≡ value env a
unfolding constant_fold value
constant_fold-value env defines agree zero a b h = cc
constant_fold-value env defines agree (suc f) (global_symbol s) b h =
    elim (Option-cases (define? defines s)) [
      | inl e ↦ rw (← ok-injective (rw (e, constant_fold) at h)) refl
      | inr (d, e) ↦
          constant_fold-value env defines agree f d b (rw (e, constant_fold) at h) ∙ agree s d e
    ]
constant_fold-value env defines agree (suc f) (section_symbol s n d) b h =
    elim (Option-cases (define? defines s)) [
      | inl e ↦ rw (← ok-injective (rw (e, constant_fold) at h)) refl
      | inr (d', e) ↦
          constant_fold-value env defines agree f d' b (rw (e, constant_fold) at h) ∙ agree s d' e
    ]
constant_fold-value env defines agree (suc f) (bin_op op l r) b h =
    let (l', el, h') = >>=-eq-ok (constant_fold f defines l) _ h in
    let (r', er, h'') = >>=-eq-ok (constant_fold f defines r) _ h' in
    rw (
      fold_bin-value env op l' r' b h'',
      constant_fold-value env defines agree f l l' el,
      constant_fold-value env defines agree f r r' er,
    )
constant_fold-value env defines agree (suc f) _ b h = rw (← ok-injective h) refl
