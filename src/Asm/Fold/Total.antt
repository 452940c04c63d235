-- ===== src/Asm/Fold/Total.antt =====
-- When constant folding ends, and what it then returns: the defines must not refer back to
-- themselves, which a rank on their names expresses.
use m2c.Prelude.{
  ℕ, zero, suc, ◌≤◌, max, ◌≡◌, ◌≢◌, refl, inl, inr, Option, none, some, String, Outcome, ok, raised,
  out_of_fuel, ◌>>=◌, arith, Option-cases, ◌∙◌, string_eq,
}
use m2c.Prelude.Int.{ℤ, pos, negsuc}
use m2c.Asm.{Argument, global_symbol, section_symbol, literal, bin_op}
use m2c.Asm.Fold.{Defines, fold_op, fold_bin, define?, constant_fold}
use m2c.Asm.Fold.Value.{value, op_value, both, Agrees, shl-eq-mul}

-- How deep the folding of an argument nests, when the define of a name `s` nests `rank s` deep.
abbrev pub nesting : (String → ℕ) → Argument → ℕ
nesting rank (global_symbol s) = suc (rank s)
nesting rank (section_symbol s n d) = suc (rank s)
nesting rank (bin_op op l r) = suc (max (nesting rank l) (nesting rank r))
nesting rank _ = 1

abbrev pub IsRanked : (String → ℕ) → Defines → Type 0
IsRanked rank defines =
    (s : String) (e : Argument) → define? defines s ≡ some e → nesting rank e ≤ rank s

fold_op-ne-out_of_fuel : (op : String) (a b : ℤ) → fold_op op a b ≢ out_of_fuel
unfolding fold_op
fold_op-ne-out_of_fuel op a (pos b) h = ground arith
fold_op-ne-out_of_fuel op a (negsuc b) h = ground arith

fold_bin-ne-out_of_fuel : (op : String) (l r : Argument) → fold_bin op l r ≢ out_of_fuel
unfolding fold_bin
fold_bin-ne-out_of_fuel op (literal a) (literal b) h = ground (arith, fold_op-ne-out_of_fuel op a b)
fold_bin-ne-out_of_fuel op _ _ h = cc

bind-ne-out_of_fuel :
    {A B : Type 0} (m : Outcome A) (f : A → Outcome B)
    → m ≢ out_of_fuel
    → ((a : A) → f a ≢ out_of_fuel)
    → (m >>= f) ≢ out_of_fuel
bind-ne-out_of_fuel (ok a) f hm hf = hf a
bind-ne-out_of_fuel raised f hm hf = cc
bind-ne-out_of_fuel out_of_fuel f hm hf = absurd (hm refl)

-- If the defines are ranked, constant_fold ends on every argument, with a result or an exception,
-- as soon as its fuel is at least the nesting of the argument.
pub constant_fold-ends :
    (rank : String → ℕ) (defines : Defines)
    → IsRanked rank defines
    → (f : ℕ) (a : Argument) → nesting rank a ≤ f
    → constant_fold f defines a ≢ out_of_fuel
unfolding constant_fold
constant_fold-ends rank defines ranked zero (bin_op op l r) h = absurd (omega arith)
constant_fold-ends rank defines ranked zero _ h = absurd (omega arith)
constant_fold-ends rank defines ranked (suc f) (global_symbol s) h =
    elim (Option-cases (define? defines s)) [
      | inl e ↦ rw (e, constant_fold) (cc)
      | inr (e', e) ↦
          rw (e, constant_fold)
            (constant_fold-ends rank defines ranked f e' (omega (arith, ranked s e' e)))
    ]
constant_fold-ends rank defines ranked (suc f) (section_symbol s n d) h =
    elim (Option-cases (define? defines s)) [
      | inl e ↦ rw (e, constant_fold) (cc)
      | inr (e', e) ↦
          rw (e, constant_fold)
            (constant_fold-ends rank defines ranked f e' (omega (arith, ranked s e' e)))
    ]
constant_fold-ends rank defines ranked (suc f) (bin_op op l r) h =
    bind-ne-out_of_fuel (constant_fold f defines l) _
      (constant_fold-ends rank defines ranked f l (omega arith))
      λ l'.
        bind-ne-out_of_fuel (constant_fold f defines r) _
          (constant_fold-ends rank defines ranked f r (omega arith))
          λ r'. fold_bin-ne-out_of_fuel op l' r'
constant_fold-ends rank defines ranked (suc f) _ h = cc

-- Every symbol has a define.
abbrev pub IsClosed : Defines → Argument → Type 0
IsClosed defines (global_symbol s) = define? defines s ≢ none
IsClosed defines (section_symbol s n d) = define? defines s ≢ none
IsClosed defines (bin_op op l r) = IsClosed defines l × IsClosed defines r
IsClosed defines _ = Unit {0}

op_value-fold_op :
    (op : String) (a b v : ℤ) → op_value op a b ≡ some v → fold_op op a b ≡ ok (some v)
unfolding fold_op op_value
op_value-fold_op op a (pos b) v h = ground (arith, shl-eq-mul a b)
op_value-fold_op op a (negsuc b) v h = ground arith

both-eq-some :
    (op : String) (x y : Option ℤ) (v : ℤ)
    → both op x y ≡ some v
    → (a : ℤ) × (b : ℤ) × (x ≡ some a) × (y ≡ some b) × (op_value op a b ≡ some v)
both-eq-some op (some a) (some b) v h = (a, b, refl, refl, h)
both-eq-some op (some a) none v h = cc
both-eq-some op none y v h = cc

fold_bin-literals :
    (op : String) (x y v : ℤ)
    → op_value op x y ≡ some v
    → fold_bin op (literal x) (literal y) ≡ ok (literal v)
unfolding fold_bin
fold_bin-literals op x y v e = rw (op_value-fold_op op x y v e) refl

-- If the defines are ranked, closed and agree with the values of their names, then with fuel for its
-- nesting constant_fold turns each closed argument that has a value into the literal of that value.
pub constant_fold-literal :
    (env : String → ℤ) (rank : String → ℕ) (defines : Defines)
    → Agrees env defines
    → IsRanked rank defines
    → ((s : String) (e : Argument) → define? defines s ≡ some e → IsClosed defines e)
    → (f : ℕ) (a : Argument) (v : ℤ) → nesting rank a ≤ f
    → IsClosed defines a
    → value env a ≡ some v
    → constant_fold f defines a ≡ ok (literal v)
unfolding constant_fold value
constant_fold-literal env rank defines agree ranked closed zero (bin_op op l r) v h c e =
    absurd (omega arith)
constant_fold-literal env rank defines agree ranked closed zero _ v h c e = absurd (omega arith)
constant_fold-literal env rank defines agree ranked closed (suc f) (global_symbol s) v h c e =
    elim (Option-cases (define? defines s)) [
      | inl n ↦ absurd (c n)
      | inr (d, p) ↦
          rw (p, constant_fold)
            (constant_fold-literal env rank defines agree ranked closed f d v
              (omega (arith, ranked s d p)) (closed s d p) (agree s d p ∙ e))
    ]
constant_fold-literal env rank defines agree ranked closed (suc f) (section_symbol s n k) v h c e =
    elim (Option-cases (define? defines s)) [
      | inl n ↦ absurd (c n)
      | inr (d, p) ↦
          rw (p, constant_fold)
            (constant_fold-literal env rank defines agree ranked closed f d v
              (omega (arith, ranked s d p)) (closed s d p) (agree s d p ∙ e))
    ]
constant_fold-literal env rank defines agree ranked closed (suc f) (bin_op op l r) v h c e =
    let (x, y, ex, ey, ev) = both-eq-some op (value env l) (value env r) v e in
    rw (constant_fold-literal env rank defines agree ranked closed f l x (omega arith) c.0 ex) (
      rw (constant_fold-literal env rank defines agree ranked closed f r y (omega arith) c.1 ey)
        (fold_bin-literals op x y v ev))
constant_fold-literal env rank defines agree ranked closed (suc f) (literal k) v h c e = cc
constant_fold-literal env rank defines agree ranked closed (suc f) _ v h c e = cc

-- A symbol that is defined as itself, as `.set a, a` does for a new name, makes constant_fold recurse
-- without end: no fuel is enough.
pub constant_fold-self_define :
    (defines : Defines) (s : String)
    → define? defines s ≡ some (global_symbol s)
    → (f : ℕ) → constant_fold f defines (global_symbol s) ≡ out_of_fuel
unfolding constant_fold
constant_fold-self_define defines s e zero = refl
constant_fold-self_define defines s e (suc f) =
    rw (e, constant_fold) (constant_fold-self_define defines s e f)
