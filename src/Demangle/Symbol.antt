-- ===== src/Demangle/Symbol.antt =====
-- Where CxxSymbol.parse of m2c/demangle_codewarrior.py splits a symbol, and that a mangled symbol parses
-- back.
use m2c.Prelude.{
  ℕ, ◌≡◌, refl, sym, ◌∙◌, subst, Bool, true, false, not, ◌&&◌, [], ◌∷◌, ◌++◌, take, nat_eq, nat_beq,
  contains, append-nil, append_assoc, and-eq_true, or-eq_true, not-eq_true, arith, inl, inr,
  Bool-cases,
}
use m2c.Prelude.Text.{codes}
use m2c.Demangle.{Text, CxxNames, no_names, add_name, qualified, CxxType, delimiters}
use m2c.Demangle.Mangle.{mangle_term, mangle_type}
use m2c.Demangle.Parse.{text_beq, is_static, may_split, new_depth, is_split, find_base}

-- No character but a bracketed one ends the symbol, and none starts a split; `rest` follows `s`.
abbrev pub is_calm : ℕ → Text → Text → Bool
is_calm depth [] rest = true
is_calm depth (c ∷ s) rest =
    not (contains delimiters c && nat_beq depth 0)
    && (not (is_split c (s ++ rest)) && is_calm (new_depth c depth) s rest)

abbrev pub depth_after : ℕ → Text → ℕ
depth_after depth [] = depth
depth_after depth (c ∷ s) = depth_after (new_depth c depth) s

pub text_beq→≡ : (s t : Text) → text_beq s t ≡ true → s ≡ t
text_beq→≡ [] [] h = refl
text_beq→≡ [] (b ∷ t) h = cc
text_beq→≡ (a ∷ s) [] h = cc
text_beq→≡ (a ∷ s) (b ∷ t) h = let ih = text_beq→≡ s t in ground arith

-- A prefix that is the name of a static function is the first seven characters.
static_prefix :
    (chars rest : Text) → is_static chars ≡ true → is_static (take 7 (chars ++ rest)) ≡ true
static_prefix chars rest h =
    elim (or-eq_true (text_beq chars (codes "__sinit")) (text_beq chars (codes "__sterm")) h) [
      | inl e ↦
          subst (λ s. is_static (take 7 (s ++ rest)) ≡ true)
            (sym (text_beq→≡ chars (codes "__sinit") e)) refl
      | inr e ↦
          subst (λ s. is_static (take 7 (s ++ rest)) ≡ true)
            (sym (text_beq→≡ chars (codes "__sterm") e)) refl
    ]

pub not_static :
    (chars rest : Text) → is_static (take 7 (chars ++ rest)) ≡ false → is_static chars ≡ false
not_static chars rest h = elim (Bool-cases (is_static chars)) [
  | inl e ↦ absurd (ground (arith, static_prefix chars rest e, h))
  | inr e ↦ e
]

-- The loop goes over a calm text without a split.
find_base-is_calm :
    (s rest chars base : Text) (depth strip : ℕ)
    → is_calm depth s rest ≡ true
    → is_static (take 7 (chars ++ (s ++ rest))) ≡ false
    → find_base (s ++ rest) chars depth base strip
      ≡ find_base rest (chars ++ s) (depth_after depth s) base strip
unfolding find_base
find_base-is_calm [] rest chars base depth strip calm st = rw (append-nil chars) refl
find_base-is_calm (c ∷ s) rest chars base depth strip calm st =
    let (inner, others) =
      and-eq_true (not (contains delimiters c && nat_beq depth 0))
        (not (is_split c (s ++ rest)) && is_calm (new_depth c depth) s rest) calm in
    let (whole, calm') =
      and-eq_true (not (is_split c (s ++ rest))) (is_calm (new_depth c depth) s rest) others in
    let st' =
      subst (λ t. is_static (take 7 t) ≡ false) (sym (append_assoc chars (c ∷ []) (s ++ rest)))
        st in
    let here = not_static (chars ++ (c ∷ [])) (s ++ rest) st' in
    let ih =
      find_base-is_calm s rest (chars ++ (c ∷ [])) base (new_depth c depth) strip calm' st' in
    let no_end = not-eq_true (contains delimiters c && nat_beq depth 0) inner in
    let no_split = not-eq_true (is_split c (s ++ rest)) whole in
    rw (no_end, here, no_split, ih, append_assoc chars (c ∷ []) s) refl

-- The signature of a symbol: the class it belongs to, if any, and its type.
abbrev pub mangle_signature : CxxNames → CxxType → Text
mangle_signature no_names type = mangle_type type
mangle_signature (add_name n names) type =
    mangle_term (qualified (add_name n names)) ++ mangle_type type

abbrev pub mangle_symbol : Text → CxxNames → CxxType → Text
mangle_symbol base names type = base ++ (b'_' ∷ b'_' ∷ mangle_signature names type)

-- The base name ends at the underscores before the signature.
pub find_base-split :
    (base sig full : Text)
    → is_static (take 7 (base ++ (b'_' ∷ b'_' ∷ sig))) ≡ false
    → is_calm 0 base (b'_' ∷ b'_' ∷ sig) ≡ true
    → may_split (b'_' ∷ sig) ≡ true
    → is_split b'_' sig ≡ false
    → is_calm (depth_after 0 base) sig [] ≡ true
    → find_base (base ++ (b'_' ∷ b'_' ∷ sig)) [] 0 full 0 ≡ (base, 2)
unfolding find_base
find_base-split base sig full st calm splits single calm' =
    let first = find_base-is_calm base (b'_' ∷ b'_' ∷ sig) [] full 0 0 calm st in
    let st1 =
      subst (λ t. is_static (take 7 t) ≡ false) (sym (append_assoc base (b'_' ∷ []) (b'_' ∷ sig)))
        st in
    let st2 =
      subst (λ t. is_static (take 7 t) ≡ false)
        (sym (append_assoc (base ++ b'_' ∷ []) (b'_' ∷ []) sig)) st1 in
    let here1 = not_static (base ++ b'_' ∷ []) (b'_' ∷ sig) st1 in
    let here2 = not_static ((base ++ b'_' ∷ []) ++ b'_' ∷ []) sig st2 in
    let st3 =
      subst (λ t. is_static (take 7 (((base ++ b'_' ∷ []) ++ b'_' ∷ []) ++ t)) ≡ false)
        (sym (append-nil sig)) st2 in
    let last =
      find_base-is_calm sig [] ((base ++ b'_' ∷ []) ++ b'_' ∷ []) base (depth_after 0 base) 2 calm'
        st3 in
    let last' =
      subst
        (λ t.
          find_base t ((base ++ b'_' ∷ []) ++ b'_' ∷ []) (depth_after 0 base) base 2 ≡ (base, 2))
        (append-nil sig) last in
    first ∙ rw (here1, here2, splits, single, last') refl
