-- ===== src/Demangle/SymbolRoundTrip.antt =====
-- Mangled symbols of m2c/demangle_codewarrior.py parse back.
use m2c.Prelude.{
  ℕ, zero, suc, ◌+◌, ◌*◌, ◌<◌, ◌≡◌, refl, sym, ◌∙◌, ap, subst, Bool, true, false, not, ◌&&◌, [],
  ◌∷◌, ◌++◌, length, take, nat_eq, contains, length-append, append-nil, append_assoc, and-eq_true,
  not-eq_true, arith,
}
use m2c.Demangle.{
  Text, plain_name, CxxNames, no_names, add_name, qualified, CxxType, no_terms, add_term, symbol,
  ok, ◌>>=◌, read_exact, at_end_or, delimiters,
}
use m2c.Demangle.Parse.{
  is_static, may_split, is_split, append_name, all_read, parse_name, parse_type, parse_base,
  parse_signature, parse_symbol, parse_split, parse_qualified, parse,
}
use m2c.Demangle.Mangle.{
  prefixed, mangle_term, mangle_type, is_open, is_ident, is_good_term, is_good_type,
}
use m2c.Demangle.Digits.{read_exact-append}
use m2c.Demangle.Starts.{starts, starts-append, starts-mangle_term, starts-mangle_type}
use m2c.Demangle.Reads.{read_plain, any_delimiter}
use m2c.Demangle.RoundTrip.{parse_type-mangle_type}
use m2c.Demangle.Escapes.{undo_substitutions-absent}
use m2c.Demangle.Symbol.{
  is_calm, depth_after, not_static, find_base-split, mangle_signature, mangle_symbol,
}

starts-more : (s : Text) → starts s ≡ true → at_end_or delimiters s ≡ false
starts-more [] h = cc
starts-more (c ∷ s) h = ground arith

starts-is_split : (s : Text) → starts s ≡ true → is_split b'_' s ≡ false
starts-is_split [] h = cc
starts-is_split (c ∷ s) h = ground arith

parse_base-ident :
    (f : ℕ) (base : Text)
    → is_ident base ≡ true
    → parse_base (suc (suc (suc (suc (suc f))))) base ≡ ok (plain_name base)
unfolding parse_base
parse_base-ident f base h =
    ap (λ s. parse_name (suc (suc (suc (suc f)))) s >>= all_read) (sym (append-nil (prefixed base)))
    ∙ ap (λ r. r >>= all_read) (read_plain base [] f h)
    ∙ (unfold all_read in refl)

-- The classes of a symbol: none, or names that can be qualified.
abbrev pub is_good_owner : CxxNames → Bool
is_good_owner no_names = true
is_good_owner (add_name n names) = is_good_term (qualified (add_name n names))

starts-mangle_signature :
    (names : CxxNames) (type : CxxType)
    → is_good_owner names ≡ true
    → is_good_type type ≡ true
    → starts (mangle_signature names type) ≡ true
starts-mangle_signature no_names type g h = starts-mangle_type type h
starts-mangle_signature (add_name n names) type g h =
    starts-append (mangle_term (qualified (add_name n names))) (mangle_type type)
      (starts-mangle_term (qualified (add_name n names)) g)

and_true : (a : Bool) → a ≡ true → (a && true) ≡ true
and_true a h = ground arith

class_reads :
    (names : CxxNames) (rest : Text) (f : ℕ)
    → is_good_term (qualified names) ≡ true
    → 8 * length (mangle_term (qualified names)) + 6 < f
    → parse_type f (mangle_term (qualified names) ++ rest)
      ≡ ok (add_term (qualified names) no_terms, rest)
unfolding is_good_type is_open mangle_type
class_reads names rest f g b =
    subst (λ s. parse_type f (s ++ rest) ≡ ok (add_term (qualified names) no_terms, rest))
      (append-nil (mangle_term (qualified names)))
      (parse_type-mangle_type (add_term (qualified names) no_terms) rest f
        (and_true (is_good_term (qualified names)) g) refl
        (omega (arith, length-append (mangle_term (qualified names)) [])))

qualified_reads :
    (f : ℕ) (base : Text) (names : CxxNames) (type : CxxType) (s : Text)
    → at_end_or delimiters s ≡ false
    → parse_type f s ≡ ok (type, [])
    → parse_base f base ≡ ok (plain_name base)
    → parse_qualified (suc f) base (add_term (qualified names) no_terms) s
      ≡ ok (symbol (qualified (append_name names (plain_name base))) type, [])
unfolding parse_qualified
qualified_reads f base names type [] e reads reads' = cc
qualified_reads f base names type (c ∷ s) e reads reads' =
    rw (e, parse_qualified, reads, reads') refl

type_reads_alone :
    (type : CxxType) (f : ℕ)
    → is_good_type type ≡ true
    → 8 * length (mangle_type type) + 6 < f
    → parse_type f (mangle_type type) ≡ ok (type, [])
type_reads_alone type f h b =
    subst (λ s. parse_type f s ≡ ok (type, [])) (append-nil (mangle_type type))
      (parse_type-mangle_type type [] f h (any_delimiter (is_open type)) b)

parse_signature-mangle_signature :
    (base : Text) (names : CxxNames) (type : CxxType) (f : ℕ)
    → is_ident base ≡ true
    → is_good_owner names ≡ true
    → is_good_type type ≡ true
    → 8 * length (mangle_signature names type) + 6 < f
    → parse_signature (suc (suc f)) base (mangle_signature names type)
      ≡ ok (symbol (qualified (append_name names (plain_name base))) type, [])
unfolding parse_signature
parse_signature-mangle_signature base names type zero i g h b = absurd (omega arith)
parse_signature-mangle_signature base names type (suc zero) i g h b = absurd (omega arith)
parse_signature-mangle_signature base names type (suc (suc zero)) i g h b = absurd (omega arith)
parse_signature-mangle_signature base names type (suc (suc (suc zero))) i g h b =
    absurd (omega arith)
parse_signature-mangle_signature base names type (suc (suc (suc (suc zero)))) i g h b =
    absurd (omega arith)
parse_signature-mangle_signature base no_names type (suc (suc (suc (suc (suc f))))) i g h b =
    rw
      (
        type_reads_alone type (suc (suc (suc (suc (suc (suc f)))))) h (omega arith),
        parse_base-ident f base i,
      )
      refl
parse_signature-mangle_signature base (add_name n names) type (suc (suc (suc (suc (suc f))))) i g h
      b =
    let total = length-append (mangle_term (qualified (add_name n names))) (mangle_type type) in
    let class =
      class_reads (add_name n names) (mangle_type type) (suc (suc (suc (suc (suc (suc f)))))) g
        (omega arith) in
    let reads = type_reads_alone type (suc (suc (suc (suc (suc f))))) h (omega arith) in
    ap
      (λ r. r >>= λ class'.
        parse_qualified (suc (suc (suc (suc (suc (suc f)))))) base (class'.0) (class'.1))
      class
    ∙ qualified_reads (suc (suc (suc (suc (suc f))))) base (add_name n names) type
        (mangle_type type) (starts-more (mangle_type type) (starts-mangle_type type h)) reads
        (parse_base-ident f base i)

-- The text splits at one place, behind the base name, and is no static function's.
abbrev pub is_split_once : Text → Text → Bool
is_split_once base sig =
    not (is_static (take 7 (base ++ (b'_' ∷ b'_' ∷ sig))))
    && (is_calm 0 base (b'_' ∷ b'_' ∷ sig)
        && (may_split (b'_' ∷ sig) && is_calm (depth_after 0 base) sig []))

parse_symbol-signature :
    (base sig : Text) (f : ℕ)
    → is_split_once base sig ≡ true
    → starts sig ≡ true
    → parse_symbol (suc (suc f)) (base ++ (b'_' ∷ b'_' ∷ sig)) ≡ parse_signature f base sig
unfolding parse_symbol
parse_symbol-signature base sig f h start =
    let (st, others) =
      and-eq_true (not (is_static (take 7 (base ++ (b'_' ∷ b'_' ∷ sig)))))
        (is_calm 0 base (b'_' ∷ b'_' ∷ sig)
          && (may_split (b'_' ∷ sig) && is_calm (depth_after 0 base) sig []))
        h in
    let (calm, others') =
      and-eq_true (is_calm 0 base (b'_' ∷ b'_' ∷ sig))
        (may_split (b'_' ∷ sig) && is_calm (depth_after 0 base) sig []) others in
    let (splits, calm') =
      and-eq_true (may_split (b'_' ∷ sig)) (is_calm (depth_after 0 base) sig []) others' in
    let st' = not-eq_true (is_static (take 7 (base ++ (b'_' ∷ b'_' ∷ sig)))) st in
    let found =
      find_base-split base sig (base ++ (b'_' ∷ b'_' ∷ sig)) st' calm splits
        (starts-is_split sig start) calm' in
    let read =
      subst (λ n. read_exact (base ++ (b'_' ∷ b'_' ∷ sig)) n ≡ ok (base ++ (b'_' ∷ b'_' ∷ []), sig))
        (length-append base (b'_' ∷ b'_' ∷ []))
        (subst
          (λ s.
            read_exact s (length (base ++ (b'_' ∷ b'_' ∷ [])))
            ≡ ok (base ++ (b'_' ∷ b'_' ∷ []), sig))
          (append_assoc base (b'_' ∷ b'_' ∷ []) sig)
          (read_exact-append (base ++ (b'_' ∷ b'_' ∷ [])) sig)) in
    ap (λ r. parse_split (suc f) (r.0) (r.1) (base ++ (b'_' ∷ b'_' ∷ sig))) found
    ∙ rw (read, not_static base (b'_' ∷ b'_' ∷ sig) st') refl

-- A mangled symbol parses to the name in its classes and the type, with fuel above eight units for each
-- character of the text and eight, if the name is an identifier, the classes and the type have a text,
-- the text has no escape and one place to split it, and does not start like a static function.
pub parse-mangle_symbol :
    (base : Text) (names : CxxNames) (type : CxxType) (f : ℕ)
    → is_ident base ≡ true
    → is_good_owner names ≡ true
    → is_good_type type ≡ true
    → is_split_once base (mangle_signature names type) ≡ true
    → contains (mangle_symbol base names type) b'$' ≡ false
    → 8 * length (mangle_symbol base names type) + 8 < f
    → parse f (mangle_symbol base names type)
      ≡ ok (symbol (qualified (append_name names (plain_name base))) type)
unfolding parse
parse-mangle_symbol base names type zero i g h once plain b = absurd (omega arith)
parse-mangle_symbol base names type (suc zero) i g h once plain b = absurd (omega arith)
parse-mangle_symbol base names type (suc (suc zero)) i g h once plain b = absurd (omega arith)
parse-mangle_symbol base names type (suc (suc (suc zero))) i g h once plain b = absurd (omega arith)
parse-mangle_symbol base names type (suc (suc (suc (suc f)))) i g h once plain b =
    let total = length-append base (b'_' ∷ b'_' ∷ mangle_signature names type) in
    ap (λ s. parse_symbol (suc (suc (suc (suc f)))) s >>= all_read)
      (undo_substitutions-absent (mangle_symbol base names type) plain)
    ∙ ap (λ r. r >>= all_read)
        (parse_symbol-signature base (mangle_signature names type) (suc (suc f)) once
            (starts-mangle_signature names type g h)
          ∙ parse_signature-mangle_signature base names type f i g h (omega arith))
    ∙ (unfold all_read in refl)
