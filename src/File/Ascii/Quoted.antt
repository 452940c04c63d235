-- ===== src/File/Ascii/Quoted.antt =====
-- Quoted bytes read back by parse_ascii_directive of m2c/asm_file.py, and that it returns.
use m2c.Prelude.{
  ℕ, zero, suc, ◌+◌, ◌-◌, ◌*◌, ◌/◌, ◌%◌, ◌<◌, ◌≡◌, refl, sym, ◌∙◌, ap, subst, Bool, true, false,
  ◌&&◌, ◌||◌, List, [], ◌∷◌, ◌++◌, length, append_assoc, append-nil, nat_eq, nat_beq, ltb, leb,
  if◌then◌else◌, Bool-cases, and-eq_true, or-eq_true, nat_beq_iff, ltb→lt, inl, inr, some, none,
  arith,
}
use m2c.Prelude.Dict.{lookup}
use m2c.Prelude.Text.{is_digit_code}
use m2c.File.Ascii.{
  AsciiResult, ret_bytes, encode_error, encode, read_octal, byte_and_rest, read_escape, finish,
  terminator, loop, loop_escape, parse_ascii_directive,
}

-- A byte in quotes: printable ASCII stands for itself, a quote or a backslash has a backslash before it,
-- and any other byte is three octal digits.
abbrev pub is_printable : ℕ → Bool
is_printable b = leb 32 b && leb b 126

abbrev pub quote_byte : ℕ → List ℕ
quote_byte b =
    if nat_beq b b'"' || nat_beq b 0x5c
    then (0x5c ∷ b ∷ [])
    else if is_printable b
    then (b ∷ [])
    else (0x5c ∷ (b'0' + b / 64) ∷ (b'0' + b / 8 % 8) ∷ (b'0' + b % 8) ∷ [])

unfoldable pub quote_bytes : List ℕ → List ℕ
quote_bytes [] = []
quote_bytes (b ∷ bytes) = quote_byte b ++ quote_bytes bytes

-- The parts of a directive, with a comma behind each.
unfoldable pub write_parts : List (List ℕ) → List ℕ
write_parts [] = []
write_parts (part ∷ parts) = b'"' ∷ (quote_bytes part ++ (b'"' ∷ b',' ∷ b' ' ∷ write_parts parts))

unfoldable pub are_bytes : List ℕ → Bool
are_bytes [] = true
are_bytes (b ∷ bytes) = ltb b 256 && are_bytes bytes

unfoldable pub all_bytes : List (List ℕ) → Bool
all_bytes [] = true
all_bytes (part ∷ parts) = are_bytes part && all_bytes parts

-- What the parts stand for.
unfoldable pub joined : Bool → List (List ℕ) → List ℕ
joined z [] = []
joined z (part ∷ parts) = (part ++ terminator z) ++ joined z parts

octal_digit : (d : ℕ) → d < 8 → is_digit_code (b'0' + d) ≡ true
octal_digit d h = ground arith

octal_value :
    (b : ℕ) → b < 256 → (b / 64 * 8 + (b'0' + b / 8 % 8 - b'0')) * 8 + (b'0' + b % 8 - b'0') ≡ b
octal_value b h = ground arith

read_octal-digit :
    (left value c : ℕ) (line : List ℕ)
    → is_digit_code c ≡ true
    → read_octal (suc left) value (c ∷ line) ≡ read_octal left (value * 8 + (c - b'0')) line
unfolding read_octal
read_octal-digit left value c line h = rw (h, read_octal) refl

read_octal-zero : (value : ℕ) (line : List ℕ) → read_octal 0 value line ≡ (value, line)
unfolding read_octal
read_octal-zero value [] = refl
read_octal-zero value (c ∷ line) = refl

-- An octal byte.
read_octal-digits :
    (b : ℕ) (line : List ℕ)
    → b < 256
    → read_octal 2 (b / 64) ((b'0' + b / 8 % 8) ∷ (b'0' + b % 8) ∷ line) ≡ (b, line)
read_octal-digits b line h =
    read_octal-digit 1 (b / 64) (b'0' + b / 8 % 8) ((b'0' + b % 8) ∷ line)
      (octal_digit (b / 8 % 8) (omega arith))
    ∙ read_octal-digit 0 (b / 64 * 8 + (b'0' + b / 8 % 8 - b'0')) (b'0' + b % 8) line
        (octal_digit (b % 8) (omega arith))
    ∙ read_octal-zero _ line
    ∙ ap (λ v. (v, line)) (octal_value b h)

read_escape-digit :
    (d : ℕ) (line : List ℕ)
    → d < 4
    → read_escape (b'0' + d) line ≡ some (byte_and_rest (read_octal 2 d line))
unfolding lookup
read_escape-digit zero line h = refl
read_escape-digit (suc zero) line h = refl
read_escape-digit (suc (suc zero)) line h = refl
read_escape-digit (suc (suc (suc zero))) line h = refl
read_escape-digit (suc (suc (suc (suc d)))) line h = absurd (omega arith)

read_escape-octal :
    (b : ℕ) (line : List ℕ)
    → b < 256
    → read_escape (b'0' + b / 64) ((b'0' + b / 8 % 8) ∷ (b'0' + b % 8) ∷ line) ≡ some (b ∷ [], line)
read_escape-octal b line h =
    read_escape-digit (b / 64) ((b'0' + b / 8 % 8) ∷ (b'0' + b % 8) ∷ line) (omega arith)
    ∙ ap (λ r. some (byte_and_rest r)) (read_octal-digits b line h)
    ∙ ap (λ v. some (v ∷ [], line)) (omega arith)

read_escape-itself :
    (b : ℕ) (line : List ℕ)
    → (nat_beq b b'"' || nat_beq b 0x5c) ≡ true
    → read_escape b line ≡ some (b ∷ [], line)
unfolding lookup
read_escape-itself b line h = elim (or-eq_true (nat_beq b b'"') (nat_beq b 0x5c) h) [
  | inl e ↦
      subst (λ c. read_escape c line ≡ some (c ∷ [], line)) (sym ((nat_beq_iff b b'"').0 e)) refl
  | inr e ↦
      subst (λ c. read_escape c line ≡ some (c ∷ [], line)) (sym ((nat_beq_iff b 0x5c).0 e)) refl
]

quote_byte-escaped :
    (b : ℕ) → (nat_beq b b'"' || nat_beq b 0x5c) ≡ true → quote_byte b ≡ 0x5c ∷ b ∷ []
quote_byte-escaped b e = rw e refl

quote_byte-printable :
    (b : ℕ)
    → (nat_beq b b'"' || nat_beq b 0x5c) ≡ false
    → is_printable b ≡ true
    → quote_byte b ≡ b ∷ []
quote_byte-printable b e p = rw (e, p) refl

quote_byte-octal :
    (b : ℕ)
    → (nat_beq b b'"' || nat_beq b 0x5c) ≡ false
    → is_printable b ≡ false
    → quote_byte b ≡ 0x5c ∷ (b'0' + b / 64) ∷ (b'0' + b / 8 % 8) ∷ (b'0' + b % 8) ∷ []
quote_byte-octal b e p = rw (e, p) refl

add_0 : (n : ℕ) → 0 + n ≡ n
add_0 n = omega arith

module _ (z : Bool) where
  loop_escape-some :
      (f n c : ℕ) (ret line bytes rest : List ℕ)
      → read_escape c line ≡ some (bytes, rest)
      → loop_escape z (suc f) n ret (c ∷ line) ≡ loop z f true n (ret ++ bytes) rest
  unfolding loop_escape
  loop_escape-some f n c ret line bytes rest e =
      ap
        (λ r. elim r as (λ _. AsciiResult) [
          | none ↦ encode_error
          | some (bytes, rest) ↦ loop z f true n (ret ++ bytes) rest
        ])
        e

  loop-escape :
      (f n b c : ℕ) (ret line line' : List ℕ)
      → read_escape c line ≡ some (b ∷ [], line')
      → loop z (suc (suc f)) true n ret (0x5c ∷ c ∷ line) ≡ loop z f true n (ret ++ b ∷ []) line'
  unfolding loop
  loop-escape f n b c ret line line' e = loop_escape-some f n c ret line (b ∷ []) line' e

  loop-plain :
      (f n c : ℕ) (ret line : List ℕ)
      → nat_beq c b'"' ≡ false
      → nat_beq c 0x5c ≡ false
      → is_printable c ≡ true
      → loop z (suc f) true n ret (c ∷ line) ≡ loop z f true n (ret ++ c ∷ []) line
  unfolding loop
  loop-plain f n c ret line q e p =
      rw (q, e, loop)
        (ap
          (λ r. elim r as (λ _. AsciiResult) [
            | none ↦ encode_error
            | some bytes ↦ loop z f true n (ret ++ bytes) line
          ])
          (ascii c p))
    where
      ascii : (c : ℕ) → is_printable c ≡ true → encode c ≡ some (c ∷ [])
      ascii c p = ground arith

  -- The loop goes on behind a text with the bytes it stands for, and enough fuel.
  abbrev GoesOn : ℕ → ℕ → List ℕ → List ℕ → List ℕ → List ℕ → Type 0
  GoesOn f n ret text bytes rest =
      (g : ℕ) × (length rest < g)
      × (loop z f true n ret (text ++ rest) ≡ loop z g true n (ret ++ bytes) rest)

  loop-quote_byte :
      (f n b : ℕ) (ret rest : List ℕ)
      → b < 256
      → length (quote_byte b ++ rest) < f
      → GoesOn f n ret (quote_byte b) (b ∷ []) rest
  loop-quote_byte zero n b ret rest l h = absurd (omega arith)
  loop-quote_byte (suc f) n b ret rest l h = elim (Bool-cases (nat_beq b b'"' || nat_beq b 0x5c)) [
    | inl e ↦
        subst (λ q. length (q ++ rest) < suc f → GoesOn (suc f) n ret q (b ∷ []) rest)
          (sym (quote_byte-escaped b e)) (quoted f (read_escape-itself b rest e)) h
    | inr e ↦ elim (Bool-cases (is_printable b)) [
      | inl p ↦
          subst (λ q. length (q ++ rest) < suc f → GoesOn (suc f) n ret q (b ∷ []) rest)
            (sym (quote_byte-printable b e p))
            (λ h'.
              (f, omega arith, loop-plain f n b ret rest (ground (arith, e)) (ground (arith, e)) p))
            h
      | inr p ↦
          subst (λ q. length (q ++ rest) < suc f → GoesOn (suc f) n ret q (b ∷ []) rest)
            (sym (quote_byte-octal b e p)) (octal f) h
    ]
  ]
    where
      quoted :
          (f : ℕ)
          → read_escape b rest ≡ some (b ∷ [], rest)
          → length (0x5c ∷ b ∷ rest) < suc f
          → GoesOn (suc f) n ret (0x5c ∷ b ∷ []) (b ∷ []) rest
      quoted zero e h = absurd (omega arith)
      quoted (suc f) e h = (f, omega arith, loop-escape f n b b ret rest rest e)

      octal :
          (f : ℕ)
          → length (0x5c ∷ (b'0' + b / 64) ∷ (b'0' + b / 8 % 8) ∷ (b'0' + b % 8) ∷ rest) < suc f
          → GoesOn
              (suc f)
              n
              ret
              (0x5c ∷ (b'0' + b / 64) ∷ (b'0' + b / 8 % 8) ∷ (b'0' + b % 8) ∷ [])
              (b ∷ [])
              rest
      octal zero h = absurd (omega arith)
      octal (suc f) h = (
        f,
        omega arith,
        loop-escape f n b (b'0' + b / 64) ret ((b'0' + b / 8 % 8) ∷ (b'0' + b % 8) ∷ rest) rest
            (read_escape-octal b rest l),
      )

  loop-quote_bytes :
      (bytes : List ℕ) (f n : ℕ) (ret rest : List ℕ)
      → are_bytes bytes ≡ true
      → length (quote_bytes bytes ++ rest) < f
      → GoesOn f n ret (quote_bytes bytes) bytes rest
  unfolding quote_bytes are_bytes
  loop-quote_bytes [] f n ret rest a h =
      (f, h, ap (λ r. loop z f true n r rest) (sym (append-nil ret)))
  loop-quote_bytes (b ∷ bytes) f n ret rest a h =
      let (first, others) = and-eq_true (ltb b 256) (are_bytes bytes) a in
      let split = append_assoc (quote_byte b) (quote_bytes bytes) rest in
      let (g, l, e) =
        loop-quote_byte f n b ret (quote_bytes bytes ++ rest) (ltb→lt b 256 first)
          (subst (λ t. length t < f) split h) in
      let (g', l', e') = loop-quote_bytes bytes g n (ret ++ b ∷ []) rest others l in
      (
        g',
        l',
        ap (loop z f true n ret) split
            ∙ e
            ∙ e'
            ∙ ap (λ r. loop z g' true n r rest) (append_assoc ret (b ∷ []) bytes),
      )

  -- The quote behind a part, and what separates it from the next.
  loop-behind :
      (g n : ℕ) (ret rest : List ℕ)
      → length (b'"' ∷ b',' ∷ b' ' ∷ rest) < g
      → (f : ℕ) × (length rest < f)
        × (loop z g true n ret (b'"' ∷ b',' ∷ b' ' ∷ rest)
            ≡ loop z f false n (ret ++ terminator z) rest)
  unfolding loop
  loop-behind zero n ret rest h = absurd (omega arith)
  loop-behind (suc zero) n ret rest h = absurd (omega arith)
  loop-behind (suc (suc zero)) n ret rest h = absurd (omega arith)
  loop-behind (suc (suc (suc f))) n ret rest h = (f, omega arith, refl)

  loop-write_parts :
      (parts : List (List ℕ)) (f n : ℕ) (ret : List ℕ)
      → all_bytes parts ≡ true
      → length (write_parts parts) < f
      → loop z f false n ret (write_parts parts)
        ≡ finish false (length parts + n) (ret ++ joined z parts)
  unfolding loop write_parts all_bytes joined
  loop-write_parts [] zero n ret a h = absurd (omega arith)
  loop-write_parts [] (suc f) n ret a h = rw (add_0 n, append-nil ret) refl
  loop-write_parts (part ∷ parts) zero n ret a h = absurd (omega arith)
  loop-write_parts (part ∷ parts) (suc f) n ret a h =
      let (first, others) = and-eq_true (are_bytes part) (all_bytes parts) a in
      let (g, l, e) =
        loop-quote_bytes part f (suc n) ret (b'"' ∷ b',' ∷ b' ' ∷ write_parts parts) first
          (omega arith) in
      let (g', l', e') = loop-behind g (suc n) (ret ++ part) (write_parts parts) l in
      e
      ∙ e'
      ∙ loop-write_parts parts g' (suc n) ((ret ++ part) ++ terminator z) others l'
      ∙ ap (finish false (length parts + suc n)) (
          append_assoc (ret ++ part) (terminator z) (joined z parts)
          ∙ append_assoc ret part (terminator z ++ joined z parts)
          ∙ ap (λ t. ret ++ t) (sym (append_assoc part (terminator z) (joined z parts))))
      ∙ ap (λ k. finish false k (ret ++ ((part ++ terminator z) ++ joined z parts))) (omega arith)

finish_some : (k : ℕ) (bytes : List ℕ) → finish false (suc k + 0) bytes ≡ ret_bytes bytes
finish_some k bytes = rw (positive k) refl
  where
    positive : (k : ℕ) → nat_beq (suc k + 0) 0 ≡ false
    positive k = ground arith

-- A directive of at least one part, whose bytes are written in quotes with a comma behind each part,
-- reads as these bytes, with a zero behind each part for .asciz.
pub parse_ascii_directive-write_parts :
    (part : List ℕ) (parts : List (List ℕ)) (z : Bool)
    → all_bytes (part ∷ parts) ≡ true
    → parse_ascii_directive (write_parts (part ∷ parts)) z ≡ ret_bytes (joined z (part ∷ parts))
unfolding parse_ascii_directive
parse_ascii_directive-write_parts part parts z a =
    loop-write_parts z (part ∷ parts) (suc (length (write_parts (part ∷ parts)))) 0 [] a
      (omega arith)
    ∙ finish_some (length parts) (joined z (part ∷ parts))
