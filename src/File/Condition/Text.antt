-- ===== src/File/Condition/Text.antt =====
-- eval_cpp_if of m2c/asm_file.py on the text of a condition.
use m2c.Prelude.{◌≡◌, refl, true, [], ◌∷◌, and-eq_true, String, arith}
use m2c.File.Condition.Tokens.{
  are_name_chars, is_word, is_token, are_tokens, spaced, are_tokens-append, numeral_text-IsToken,
}
use m2c.File.Condition.Truth.{
  Unary, number, macro, defined, negation, group, All, one, and_also, Any, only, or_else,
  write_unary, write_all, write_any, is_name, is_good_unary, is_good_all, is_good_any,
}

word-IsToken : (t : String) → is_word t ≡ true → is_token t ≡ true
word-IsToken t h = ground arith

defined-IsToken : is_token "defined" ≡ true
unfolding are_name_chars
defined-IsToken = refl

mutual
  unfolding are_tokens write_unary write_all write_any is_good_unary is_good_all is_good_any

  unary_tokens : (u : Unary) → is_good_unary u ≡ true → are_tokens (write_unary u) ≡ true
  unary_tokens (number k) g = rw (numeral_text-IsToken k) refl
  unary_tokens (macro t) g = rw (word-IsToken t (and-eq_true (is_word t) (is_name t) g).0) refl
  unary_tokens (defined t) g = rw (word-IsToken t g) (rw defined-IsToken refl)
  unary_tokens (negation u) g = unary_tokens u g
  unary_tokens (group c) g = are_tokens-append (write_any c) (")" ∷ []) (any_tokens c g) refl

  all_tokens : (c : All) → is_good_all c ≡ true → are_tokens (write_all c) ≡ true
  all_tokens (one u) g = unary_tokens u g
  all_tokens (and_also u us) g =
      let (first, others) = and-eq_true (is_good_unary u) (is_good_all us) g in
      are_tokens-append (write_unary u) ("&&" ∷ write_all us) (unary_tokens u first)
        (all_tokens us others)

  any_tokens : (c : Any) → is_good_any c ≡ true → are_tokens (write_any c) ≡ true
  any_tokens (only c) g = all_tokens c g
  any_tokens (or_else c cs) g =
      let (first, others) = and-eq_true (is_good_all c) (is_good_any cs) g in
      are_tokens-append (write_all c) ("||" ∷ write_any cs) (all_tokens c first)
        (any_tokens cs others)

-- The text of a condition: its tokens, with a space behind each.
abbrev pub text_of : Any → String
text_of c = spaced (write_any c)
