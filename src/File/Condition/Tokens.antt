-- ===== src/File/Condition/Tokens.antt =====
-- The tokens of a written condition, as eval_cpp_if of m2c/asm_file.py finds them.
use Prim.Native.Char.{Char, code}
use m2c.Prelude.{
  ℕ, zero, suc, ◌+◌, ◌<◌, ◌≡◌, ◌≢◌, Bool-cases, refl, sym, ◌∙◌, ap, subst, Bool, true, false, ◌&&◌,
  ◌||◌, List, [], ◌∷◌, ◌++◌, ◌==◌, string_eq, length, nat_eq, nat_beq, leb, and-eq_true, or-eq_true,
  contains, String, inl, inr, arith,
}
use m2c.Prelude.Text.{codes}
use m2c.File.Condition.{is_word_code, split_word, tokenize}
use m2c.File.Condition.Numeral.{
  Digit, d0, d1, d2, d3, d4, d5, d6, d7, d8, d9, da, db, dc, dd, de, df, digit_char, digits_text,
  Numeral, zero_number, decimal_number, hex_number, numeral_text,
}

-- A letter, a digit or an underscore.
abbrev pub is_name_char : ℕ → Bool
is_name_char c =
    (leb b'0' c && leb c b'9')
    || ((leb b'A' c && leb c b'Z') || ((leb b'a' c && leb c b'z') || nat_beq c b'_'))

unfoldable pub are_name_chars : String → Bool
are_name_chars String.[] = true
are_name_chars (String.◌∷◌ c s) = is_name_char (code c) && are_name_chars s

abbrev pub is_word : String → Bool
is_word String.[] = false
is_word (String.◌∷◌ c s) = is_name_char (code c) && are_name_chars s

-- An operator or bracket of conditions, or a word.
abbrev pub is_token : String → Bool
is_token t = is_word t || contains ("!" ∷ "(" ∷ ")" ∷ "&&" ∷ "||" ∷ []) t

unfoldable pub are_tokens : List String → Bool
are_tokens [] = true
are_tokens (t ∷ ts) = is_token t && are_tokens ts

-- A token with a space behind it, in front of the rest of the text.
unfoldable pub put : String → String → String
put String.[] rest = String.◌∷◌ " " rest
put (String.◌∷◌ c s) rest = String.◌∷◌ c (put s rest)

-- The text of tokens, with a space behind each.
unfoldable pub spaced : List String → String
spaced [] = String.[]
spaced (t ∷ ts) = put t (spaced ts)

pub are_tokens-append :
    (ss ts : List String)
    → are_tokens ss ≡ true
    → are_tokens ts ≡ true
    → are_tokens (ss ++ ts) ≡ true
unfolding are_tokens
are_tokens-append [] ts h h' = h'
are_tokens-append (s ∷ ss) ts h h' =
    let (first, others) = and-eq_true (is_token s) (are_tokens ss) h in
    rw first (are_tokens-append ss ts others h')

name_char-word : (c : ℕ) → is_name_char c ≡ true → is_word_code c ≡ true
name_char-word c h = ground arith

split_word-put :
    (s rest : String)
    → are_name_chars s ≡ true
    → ◌≡◌ {A = String × String} (split_word (put s rest)) (s, String.◌∷◌ " " rest)
unfolding split_word put are_name_chars
split_word-put String.[] rest h = refl
split_word-put (String.◌∷◌ c s) rest h =
    let (first, others) = and-eq_true (is_name_char (code c)) (are_name_chars s) h in
    rw (name_char-word (code c) first) (rw (split_word-put s rest others) refl)

tokenize-space :
    (f : ℕ) (s : String) → length (codes s) < f → tokenize (suc f) (String.◌∷◌ " " s) ≡ tokenize f s
unfolding tokenize
tokenize-space zero s h = absurd (omega arith)
tokenize-space (suc f) String.[] h = refl
tokenize-space (suc f) (String.◌∷◌ d s) h = spaces (nat_beq b' ' (code d))
  where
    spaces :
        (b : Bool)
        → (elim (b && false) as (λ _. List String) [
          | true ↦ String.◌∷◌ " " (String.◌∷◌ d String.[]) ∷ tokenize (suc f) s
          | false ↦ tokenize (suc f) (String.◌∷◌ d s)
        ])
          ≡ tokenize (suc f) (String.◌∷◌ d s)
    spaces true = refl
    spaces false = refl

step_word :
    (f : ℕ) (s : String) (c : Char)
    → is_word_code (code c) ≡ true
    → length (codes s) ≢ 0
    → tokenize (suc f) (String.◌∷◌ c s)
      ≡ (split_word (String.◌∷◌ c s)).0 ∷ tokenize f (split_word (String.◌∷◌ c s)).1
unfolding tokenize
step_word f String.[] c h n = absurd (n refl)
step_word f (String.◌∷◌ d s) c h n = rw (h, tokenize) refl

put_nonempty : (s rest : String) → length (codes (put s rest)) ≢ 0
unfolding put
put_nonempty String.[] rest e = ground (arith, e)
put_nonempty (String.◌∷◌ c s) rest e = ground (arith, e)

tokenize-word :
    (f : ℕ) (t rest : String)
    → is_word t ≡ true
    → tokenize (suc f) (put t rest) ≡ t ∷ tokenize f (String.◌∷◌ " " rest)
unfolding put are_name_chars
tokenize-word f String.[] rest h = cc
tokenize-word f (String.◌∷◌ c s) rest h =
    step_word f (put s rest) c
      (name_char-word (code c) (and-eq_true (is_name_char (code c)) (are_name_chars s) h).0)
      (put_nonempty s rest)
    ∙ ap (λ (p : String × String). p.0 ∷ tokenize f (p.1)) (split_word-put (String.◌∷◌ c s) rest h)

-- An operator, of one or of two characters, with anything behind it.
tokenize-operator :
    (f : ℕ) (t rest : String)
    → contains ("!" ∷ "(" ∷ ")" ∷ "&&" ∷ "||" ∷ []) t ≡ true
    → tokenize (suc f) (put t rest) ≡ t ∷ tokenize f (String.◌∷◌ " " rest)
unfolding put tokenize
tokenize-operator f t rest h = elim (Bool-cases (t == "!")) [
  | inl e ↦ at_token "!" t (sym ((string_eq.same_iff t "!").0 e)) refl
  | inr n1 ↦ elim (Bool-cases (t == "(")) [
    | inl e ↦ at_token "(" t (sym ((string_eq.same_iff t "(").0 e)) refl
    | inr n2 ↦ elim (Bool-cases (t == ")")) [
      | inl e ↦ at_token ")" t (sym ((string_eq.same_iff t ")").0 e)) refl
      | inr n3 ↦ elim (Bool-cases (t == "&&")) [
        | inl e ↦ at_token "&&" t (sym ((string_eq.same_iff t "&&").0 e)) refl
        | inr n4 ↦ elim (Bool-cases (t == "||")) [
          | inl e ↦ at_token "||" t (sym ((string_eq.same_iff t "||").0 e)) refl
          | inr n5 ↦ cc
        ]
      ]
    ]
  ]
]
  where
    at_token :
        (s t : String)
        → s ≡ t
        → tokenize (suc f) (put s rest) ≡ s ∷ tokenize f (String.◌∷◌ " " rest)
        → tokenize (suc f) (put t rest) ≡ t ∷ tokenize f (String.◌∷◌ " " rest)
    at_token s t e h =
        subst (λ x. tokenize (suc f) (put x rest) ≡ x ∷ tokenize f (String.◌∷◌ " " rest)) e h

tokenize-put :
    (f : ℕ) (t rest : String)
    → is_token t ≡ true
    → tokenize (suc f) (put t rest) ≡ t ∷ tokenize f (String.◌∷◌ " " rest)
tokenize-put f t rest h =
    elim (or-eq_true (is_word t) (contains ("!" ∷ "(" ∷ ")" ∷ "&&" ∷ "||" ∷ []) t) h) [
      | inl w ↦ tokenize-word f t rest w
      | inr o ↦ tokenize-operator f t rest o
    ]

length-put :
    (t rest : String) → length (codes (put t rest)) ≡ length (codes t) + 1 + length (codes rest)
unfolding put
length-put String.[] rest = omega arith
length-put (String.◌∷◌ c t) rest = omega (arith, length-put t rest)

put_longer :
    (t rest : String) → is_token t ≡ true → length (codes rest) + 1 < length (codes (put t rest))
put_longer String.[] rest h = cc
put_longer (String.◌∷◌ c t) rest h = omega (arith, length-put (String.◌∷◌ c t) rest)

-- The tokens of the text are the tokens that it was written from.
pub tokenize-spaced :
    (f : ℕ) (ts : List String)
    → are_tokens ts ≡ true
    → length (codes (spaced ts)) < f
    → tokenize f (spaced ts) ≡ ts
unfolding spaced are_tokens tokenize
tokenize-spaced zero ts h l = absurd (omega arith)
tokenize-spaced (suc f) [] h l = refl
tokenize-spaced (suc zero) (t ∷ ts) h l =
    let room = put_longer t (spaced ts) (and-eq_true (is_token t) (are_tokens ts) h).0 in
    absurd (omega (arith, room))
tokenize-spaced (suc (suc f)) (t ∷ ts) h l =
    let (first, others) = and-eq_true (is_token t) (are_tokens ts) h in
    let room = put_longer t (spaced ts) first in
    tokenize-put (suc f) t (spaced ts) first
    ∙ ap (λ us. t ∷ us)
        (tokenize-space f (spaced ts) (omega (arith, room))
          ∙ tokenize-spaced f ts others (omega (arith, room)))

digit_name_char : (d : Digit) → is_name_char (code (digit_char d)) ≡ true
digit_name_char d0 = refl
digit_name_char d1 = refl
digit_name_char d2 = refl
digit_name_char d3 = refl
digit_name_char d4 = refl
digit_name_char d5 = refl
digit_name_char d6 = refl
digit_name_char d7 = refl
digit_name_char d8 = refl
digit_name_char d9 = refl
digit_name_char da = refl
digit_name_char db = refl
digit_name_char dc = refl
digit_name_char dd = refl
digit_name_char de = refl
digit_name_char df = refl

are_name_chars-digits : (ds : List Digit) → are_name_chars (digits_text ds) ≡ true
unfolding are_name_chars digits_text
are_name_chars-digits [] = refl
are_name_chars-digits (d ∷ ds) = rw (digit_name_char d) (are_name_chars-digits ds)

pub numeral_text-IsToken : (k : Numeral) → is_token (numeral_text k) ≡ true
unfolding are_name_chars
numeral_text-IsToken zero_number = refl
numeral_text-IsToken (decimal_number d ds) =
    rw (digit_name_char d) (rw (are_name_chars-digits ds) refl)
numeral_text-IsToken (hex_number d ds) = rw (digit_name_char d) (rw (are_name_chars-digits ds) refl)
