-- ===== src/Demangle/Escapes.antt =====
-- The loop over DOLDISASM_SUBSTITUTIONS in m2c/demangle_codewarrior.py.
use m2c.Prelude.{
  ℕ, ◌≤◌, ◌≡◌, refl, ◌∙◌, Bool, false, ◌&&◌, ◌||◌, [], ◌∷◌, length, contains, nat_eq, nat_beq,
  Bool-cases, beq_comm, inl, inr, arith,
}
use m2c.Demangle.{Text}
use m2c.Demangle.Parse.{replace, undo_substitutions}

length-replace : (p q r old : ℕ) (s : Text) → length (replace p q r old s) ≤ length s
unfolding replace
length-replace p q r old [] = omega arith
length-replace p q r old (a ∷ []) = omega arith
length-replace p q r old (a ∷ b ∷ []) = omega arith
length-replace p q r old (a ∷ b ∷ c ∷ s) =
    elim (Bool-cases (nat_beq a p && (nat_beq b q && nat_beq c r))) [
      | inl e ↦ let shorter = length-replace p q r old s in rw e (omega (arith, shorter))
      | inr e ↦ let shorter = length-replace p q r old (b ∷ c ∷ s) in rw e (omega (arith, shorter))
    ]

pub length-undo_substitutions : (s : Text) → length (undo_substitutions s) ≤ length s
unfolding undo_substitutions
length-undo_substitutions s =
    let s0 = replace b'$' b'$' b'0' b'<' s in
    let s1 = replace b'$' b'$' b'1' b'>' s0 in
    let s2 = replace b'$' b'$' b'2' b'@' s1 in
    let s3 = replace b'$' b'$' b'3' 0x5c s2 in
    let s4 = replace b'$' b'$' b'4' b',' s3 in
    let h0 = length-replace b'$' b'$' b'0' b'<' s in
    let h1 = length-replace b'$' b'$' b'1' b'>' s0 in
    let h2 = length-replace b'$' b'$' b'2' b'@' s1 in
    let h3 = length-replace b'$' b'$' b'3' 0x5c s2 in
    let h4 = length-replace b'$' b'$' b'4' b',' s3 in
    let h5 = length-replace b'$' b'$' b'5' b'-' s4 in omega arith

or-eq_false : (a b : Bool) → (a || b) ≡ false → (a ≡ false) × (b ≡ false)
or-eq_false a b h = ground arith

replace-absent : (p q r old : ℕ) (s : Text) → contains s p ≡ false → replace p q r old s ≡ s
unfolding replace
replace-absent p q r old [] h = refl
replace-absent p q r old (a ∷ []) h = refl
replace-absent p q r old (a ∷ b ∷ []) h = refl
replace-absent p q r old (a ∷ b ∷ c ∷ s) h =
    let (first, others) = or-eq_false (nat_beq p a) (contains (b ∷ c ∷ s) p) h in
    let ih = replace-absent p q r old (b ∷ c ∷ s) others in rw (beq_comm a p ∙ first, ih) refl

pub undo_substitutions-absent : (s : Text) → contains s b'$' ≡ false → undo_substitutions s ≡ s
unfolding undo_substitutions
undo_substitutions-absent s h =
    rw
      (
        replace-absent b'$' b'$' b'0' b'<' s h,
        replace-absent b'$' b'$' b'1' b'>' s h,
        replace-absent b'$' b'$' b'2' b'@' s h,
        replace-absent b'$' b'$' b'3' 0x5c s h,
        replace-absent b'$' b'$' b'4' b',' s h,
        replace-absent b'$' b'$' b'5' b'-' s h,
      )
      refl
