-- ===== src/File/Ascii/Ends.antt =====
-- parse_ascii_directive of m2c/asm_file.py returns on every line.
use m2c.Prelude.{
  ℕ, zero, suc, ◌+◌, ◌-◌, ◌*◌, ◌≤◌, ◌<◌, ◌≡◌, refl, Bool, true, false, not, ◌&&◌, Option, none,
  some, List, [], ◌∷◌, ◌++◌, length, nat_eq, nat_beq, leb, Bool-cases, Option-cases, inl, inr, ◌⊎◌,
  and-eq_true, arith,
}
use m2c.Prelude.Dict.{lookup}
use m2c.Prelude.Text.{is_digit_code}
use m2c.File.Ascii.{
  AsciiResult, ret_bytes, decomp_failure, encode_error, encode, char_escapes, hex_digit, read_hex,
  read_octal, byte_and_rest, with_rest, read_escape, finish, terminator, at_end, loop, loop_escape,
}

-- A line without surrogates can be encoded.
pub can_encode : List ℕ → Bool
can_encode [] = true
can_encode (c ∷ line) = not (leb 0xd800 c && leb c 0xdfff) && can_encode line

-- A rest of a line: not longer, and without surrogates if the line has none.
abbrev IsRest : List ℕ → List ℕ → Type 0
IsRest rest line = (length rest ≤ length line) × (can_encode line ≡ true → can_encode rest ≡ true)

can_encode-tail : (c : ℕ) (line : List ℕ) → can_encode (c ∷ line) ≡ true → can_encode line ≡ true
unfolding can_encode
can_encode-tail c line h = (and-eq_true (not (leb 0xd800 c && leb c 0xdfff)) (can_encode line) h).1

cons-IsRest : (c : ℕ) (rest line : List ℕ) → IsRest rest line → IsRest rest (c ∷ line)
cons-IsRest c rest line (l, e) = (omega arith, λ h. e (can_encode-tail c line h))

whole : (line : List ℕ) → IsRest line line
whole line = (omega arith, λ h. h)

read_hex-IsRest : (value : ℕ) (line : List ℕ) → IsRest (read_hex value line).1 line
unfolding read_hex
read_hex-IsRest value [] = whole []
read_hex-IsRest value (c ∷ line) = elim (Option-cases (hex_digit c)) [
  | inl e ↦ rw (e, read_hex) (whole (c ∷ line))
  | inr (d, e) ↦
      rw (e, read_hex)
        (cons-IsRest c (read_hex (value * 16 + d) line).1 line
          (read_hex-IsRest (value * 16 + d) line))
]

read_octal-IsRest : (left value : ℕ) (line : List ℕ) → IsRest (read_octal left value line).1 line
unfolding read_octal
read_octal-IsRest left value [] = whole []
read_octal-IsRest zero value (c ∷ line) = whole (c ∷ line)
read_octal-IsRest (suc left) value (c ∷ line) = elim (Bool-cases (is_digit_code c)) [
  | inl e ↦
      rw (e, read_octal)
        (cons-IsRest c (read_octal left (value * 8 + (c - b'0')) line).1 line
          (read_octal-IsRest left (value * 8 + (c - b'0')) line))
  | inr e ↦ rw (e, read_octal) (whole (c ∷ line))
]

-- Bytes, a DecompFailure, or a UnicodeEncodeError on a line that has a surrogate.
abbrev pub Returns : List ℕ → AsciiResult → Type 0
Returns line r =
    ((bytes : List ℕ) × (r ≡ ret_bytes bytes))
    ⊎ ((r ≡ decomp_failure) ⊎ ((r ≡ encode_error) × (can_encode line ≡ false)))

Returns-line :
    (rest line : List ℕ) (r : AsciiResult)
    → (can_encode line ≡ true → can_encode rest ≡ true)
    → Returns rest r
    → Returns line r
Returns-line rest line r e (inl b) = inl b
Returns-line rest line r e (inr (inl d)) = inr (inl d)
Returns-line rest line r e (inr (inr (x, bad))) = inr (
    inr (
      x,
      elim (Bool-cases (can_encode line)) [
        | inl have ↦ ground (arith, e have)
        | inr lacking ↦ lacking
      ],
    ))

tail-Returns : (c : ℕ) (line : List ℕ) (r : AsciiResult) → Returns line r → Returns (c ∷ line) r
tail-Returns c line r = Returns-line line (c ∷ line) r (can_encode-tail c line)

finish-Returns :
    (in_quote : Bool) (n : ℕ) (ret line : List ℕ) → Returns line (finish in_quote n ret)
finish-Returns true n ret line = inr (inl refl)
finish-Returns false zero ret line = inr (inl refl)
finish-Returns false (suc n) ret line = inl (ret, rw (positive n) refl)
  where
    positive : (n : ℕ) → nat_beq (suc n) 0 ≡ false
    positive n = ground arith

-- What is read of a character and the line behind it: bytes and a rest of that line, or none if there is
-- a surrogate.
abbrev Reads : ℕ → List ℕ → Option (List ℕ × List ℕ) → Type 0
Reads c line none = can_encode (c ∷ line) ≡ false
Reads c line (some (bytes, rest)) = IsRest rest line

byte_and_rest-IsRest :
    (line : List ℕ) (r : ℕ × List ℕ) → IsRest (r.1) line → IsRest (byte_and_rest r).1 line
byte_and_rest-IsRest line (v, rest) h = h

encode-Reads : (c : ℕ) (line : List ℕ) → Reads c line (with_rest line (encode c))
unfolding can_encode
encode-Reads c line = elim (Bool-cases (leb 0xd800 c && leb c 0xdfff)) [
  | inl e ↦ rw e (ground (arith, e))
  | inr e ↦ rw e (whole line)
]

read_escape-Reads : (c : ℕ) (line : List ℕ) → Reads c line (read_escape c line)
read_escape-Reads c line = read (lookup c char_escapes) (nat_beq c b'x') (is_digit_code c)
  where
    read :
        (found : Option ℕ) (x d : Bool)
        → Reads c line (elim found as (λ _. Option (List ℕ × List ℕ)) [
          | some byte ↦ some (byte ∷ [], line)
          | none ↦ elim x [
            | true ↦ some (byte_and_rest (read_hex 0 line))
            | false ↦ elim d [
              | true ↦ some (byte_and_rest (read_octal 2 (c - b'0') line))
              | false ↦ with_rest line (encode c)
            ]
          ]
        ])
    read (some byte) x d = whole line
    read none true d = byte_and_rest-IsRest line (read_hex 0 line) (read_hex-IsRest 0 line)
    read none false true =
        byte_and_rest-IsRest line (read_octal 2 (c - b'0') line)
          (read_octal-IsRest 2 (c - b'0') line)
    read none false false = encode-Reads c line

-- What follows of a round, for each case of what was read.
encode-Returns :
    (line : List ℕ) (encoded : Option (List ℕ)) (after : List ℕ → AsciiResult) (c : ℕ)
    → Reads c line (with_rest line encoded)
    → ((bytes : List ℕ) → Returns (c ∷ line) (after bytes))
    → Returns
        (c ∷ line)
        (elim encoded as (λ _. AsciiResult) [ none ↦ encode_error | some bytes ↦ after bytes ])
encode-Returns line none after c r h = inr (inr (refl, r))
encode-Returns line (some bytes) after c r h = h bytes

escape-Returns :
    (c : ℕ) (line : List ℕ) (escape : Option (List ℕ × List ℕ))
    (after : List ℕ → List ℕ → AsciiResult)
    → Reads c line escape
    → ((bytes rest : List ℕ) → IsRest rest line → Returns rest (after bytes rest))
    → Returns (c ∷ line) (elim escape as (λ _. AsciiResult) [
      | none ↦ encode_error
      | some (bytes, rest) ↦ after bytes rest
    ])
escape-Returns c line none after r h = inr (inr (refl, r))
escape-Returns c line (some (bytes, rest)) after (l, e) h =
    Returns-line rest (c ∷ line) (after bytes rest) (λ all. e (can_encode-tail c line all))
      (h bytes rest (l, e))

guard-Returns :
    (c : ℕ) (line : List ℕ) (after : AsciiResult)
    → (at_end line ≡ false → Returns line after)
    → Returns
        (c ∷ line)
        (elim (at_end line) as (λ _. AsciiResult) [ true ↦ decomp_failure | false ↦ after ])
guard-Returns c [] after h = inr (inl refl)
guard-Returns c (d ∷ line) after h =
    Returns-line (d ∷ line) (c ∷ d ∷ line) after (can_encode-tail c (d ∷ line)) (h refl)

module _ (z : Bool) where
  mutual
    unfolding loop loop_escape

    loop-Returns :
        (f : ℕ) (in_quote : Bool) (n : ℕ) (ret line : List ℕ)
        → length line < f
        → Returns line (loop z f in_quote n ret line)
    loop-Returns zero in_quote n ret line h = absurd (omega arith)
    loop-Returns (suc f) in_quote n ret [] h = finish-Returns in_quote n ret []
    loop-Returns (suc f) false n ret (c ∷ line) h = elim (Bool-cases (nat_beq c b'"')) [
      | inl e ↦
          rw (e, loop) (tail-Returns c line _ (loop-Returns f true (suc n) ret line (omega arith)))
      | inr e ↦ rw (e, loop) (tail-Returns c line _ (loop-Returns f false n ret line (omega arith)))
    ]
    loop-Returns (suc f) true n ret (c ∷ line) h = elim (Bool-cases (nat_beq c b'"')) [
      | inl e ↦
          rw (e, loop)
            (tail-Returns c line _
              (loop-Returns f false n (ret ++ terminator z) line (omega arith)))
      | inr e ↦ elim (Bool-cases (nat_beq c 0x5c)) [
        | inl b ↦
            rw (e, b, loop)
              (guard-Returns c line (loop_escape z f n ret line)
                (λ more. loop_escape-Returns f n ret line more (omega arith)))
        | inr b ↦
            rw (e, b, loop)
              (encode-Returns line (encode c) (λ bytes. loop z f true n (ret ++ bytes) line) c
                (encode-Reads c line)
                (λ bytes.
                  tail-Returns c line _ (loop-Returns f true n (ret ++ bytes) line (omega arith))))
      ]
    ]

    loop_escape-Returns :
        (f n : ℕ) (ret line : List ℕ)
        → at_end line ≡ false
        → length line < f
        → Returns line (loop_escape z f n ret line)
    loop_escape-Returns zero n ret line more h = absurd (omega arith)
    loop_escape-Returns (suc f) n ret [] more h = cc
    loop_escape-Returns (suc f) n ret (c ∷ line) more h =
        escape-Returns c line (read_escape c line)
          (λ bytes rest. loop z f true n (ret ++ bytes) rest) (read_escape-Reads c line)
          (λ bytes rest r.
            let shorter = r.0 in loop-Returns f true n (ret ++ bytes) rest (omega (arith, shorter)))
