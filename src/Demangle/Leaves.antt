-- ===== src/Demangle/Leaves.antt =====
-- What single readers of m2c/demangle_codewarrior.py leave of their input.
use m2c.Prelude.{
  ℕ, zero, suc, ◌-◌, ◌≤◌, ◌<◌, ◌≡◌, refl, ap, subst, true, false, Option, none, some, [], ◌∷◌,
  length, nat_beq, le→leb, contains, nat_eq, or-eq_true, inl, inr, arith,
}
use m2c.Prelude.Dict.{lookup}
use m2c.Prelude.Text.{is_digit_code, codes}
use m2c.Demangle.{Text, Kind, CxxTerm, simple, ok, value_error, ◌>>=◌, delimiters, read_number}
use m2c.Demangle.Parse.{
  all_read, parse_names, parse_dim, parse_term, after_term, is_static, parse_static, text_beq,
}
use m2c.Demangle.Symbol.{text_beq→≡}
use m2c.Demangle.Fits.{fits, fits-bind, fits-elim, fits-weaken}

-- A result that leaves no more than what is there.
pub leaves :
    {A : Type 0} (a : A) (rest : Text) (n : ℕ) → length rest ≤ n → fits n (ok (a, rest)) ≡ true
leaves a rest n h = le→leb (length rest) n h

pub length-is_static : (s : Text) → is_static s ≡ true → length s ≡ 7
length-is_static s h =
    elim (or-eq_true (text_beq s (codes "__sinit")) (text_beq s (codes "__sterm")) h) [
      | inl e ↦ ap length (text_beq→≡ s (codes "__sinit") e)
      | inr e ↦ ap length (text_beq→≡ s (codes "__sterm") e)
    ]

-- The type of a static function is read whole.
pub static_fits : (base src : Text) (f : ℕ) → 12 < f → fits 0 (parse_static f base src) ≡ true
unfolding parse_static lookup all_read
static_fits base src f h = subst (λ f. fits 0 (parse_static f base src) ≡ true) back refl
  where
    back : suc (suc (suc (suc (suc (suc (suc (suc (suc (suc (suc (suc (f - 12)))))))))))) ≡ f
    back = omega arith

pub nothing_named : (f count : ℕ) → fits 0 (parse_names (suc (suc (suc f))) (suc count) []) ≡ true
unfolding parse_names read_number
nothing_named f count = refl

pub fewer : (c : ℕ) → contains (b'_' ∷ delimiters) c ≡ false → contains delimiters c ≡ false
fewer c h = ground arith

pub kind_result :
    (found : Option Kind) (src : Text)
    → fits (length src) (elim found [ none ↦ value_error | some kind ↦ ok (simple kind, src) ])
      ≡ true
kind_result none src = refl
kind_result (some kind) src = leaves (simple kind) src (length src) (omega arith)

pub parse_dim-fits :
    (f dim : ℕ) (src : Text) → length src < f → fits (length src) (parse_dim f dim src) ≡ true
unfolding parse_dim
parse_dim-fits zero dim src h = absurd (omega arith)
parse_dim-fits (suc f) dim [] h = refl
parse_dim-fits (suc f) dim (c ∷ src) h =
    fits-elim (nat_beq c b'_') _ _ (suc (length src))
      (λ e. le→leb (length src) (suc (length src)) (omega arith))
      (λ e.
        fits-elim (is_digit_code c) _ _ (suc (length src))
          (λ e'.
            fits-weaken _ (length src) (suc (length src)) (omega arith)
              (parse_dim-fits f _ src (omega arith)))
          (λ e'. refl))

-- A term and what it modifies.
pub moves :
    (c : ℕ) (src : Text) (f : ℕ)
    → fits (length src) (parse_term f (c ∷ src)) ≡ true
    → ((t : CxxTerm) (rest : Text)
        → length rest ≤ length src
        → fits (length rest) (after_term f t rest) ≡ true)
    → fits (length src) (parse_term f (c ∷ src) >>= λ first. after_term f (first.0) (first.1))
      ≡ true
moves c src f h k =
    fits-bind (parse_term f (c ∷ src)) _ (length src) (length src) h
      (λ t rest l. fits-weaken (after_term f t rest) (length rest) (length src) l (k t rest l))
