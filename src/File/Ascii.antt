-- ===== src/File/Ascii.antt =====
-- parse_ascii_directive of m2c/asm_file.py. A line is a list of character codes.
use m2c.Prelude.{
  ℕ, zero, suc, ◌+◌, ◌-◌, ◌*◌, ◌/◌, ◌%◌, Bool, true, false, ◌&&◌, ◌||◌, Option, none, some, List,
  [], ◌∷◌, ◌++◌, length, nat_eq, nat_beq, ltb, leb, if◌then◌else◌,
}
use m2c.Prelude.Dict.{Map, lookup}
use m2c.Prelude.Text.{is_digit_code}
pub mod Quoted
pub mod Ends

-- How a call ends: with `b"".join(ret)`, with a DecompFailure, with an IndexError, or with a
-- UnicodeEncodeError; `no_fuel` is of the model alone.
pub data AsciiResult : Type 0 where
  ret_bytes : List ℕ → AsciiResult
  decomp_failure index_error encode_error no_fuel : AsciiResult

abbrev pub utf_8 : ℕ → List ℕ
utf_8 c =
    if ltb c 0x80
    then (c ∷ [])
    else if ltb c 0x800
    then ((0xc0 + c / 64) ∷ (0x80 + c % 64) ∷ [])
    else if ltb c 0x10000
    then ((0xe0 + c / 4096) ∷ (0x80 + c / 64 % 64) ∷ (0x80 + c % 64) ∷ [])
    else ((0xf0 + c / 262144)
        ∷ (0x80 + c / 4096 % 64)
        ∷ (0x80 + c / 64 % 64)
        ∷ (0x80 + c % 64)
        ∷ [])

-- `c.encode("utf-8")`, which fails on a surrogate.
abbrev pub encode : ℕ → Option (List ℕ)
encode c = if leb 0xd800 c && leb c 0xdfff then none else some (utf_8 c)

abbrev pub char_escapes : Map ℕ ℕ
char_escapes = (b'b', 8) ∷ (b'f', 12) ∷ (b'n', 10) ∷ (b'r', 13) ∷ (b't', 9) ∷ (b'v', 11) ∷ []

-- The value of a hexadecimal digit.
abbrev pub hex_digit : ℕ → Option ℕ
hex_digit c =
    if is_digit_code c
    then some (c - b'0')
    else if leb b'a' c && leb c b'f'
    then some (c - b'a' + 10)
    else if leb b'A' c && leb c b'F'
    then some (c - b'A' + 10)
    else none

-- Any number of hexadecimal digits.
unfoldable pub read_hex : ℕ → List ℕ → ℕ × List ℕ
read_hex value [] = (value, [])
read_hex value (c ∷ line) = elim (hex_digit c) [
  | none ↦ (value, c ∷ line)
  | some d ↦ read_hex (value * 16 + d) line
]

-- At most so many digits, each weighed as an octal one.
unfoldable pub read_octal : ℕ → ℕ → List ℕ → ℕ × List ℕ
read_octal left value [] = (value, [])
read_octal zero value (c ∷ line) = (value, c ∷ line)
read_octal (suc left) value (c ∷ line) = elim (is_digit_code c) [
  | false ↦ (value, c ∷ line)
  | true ↦ read_octal left (value * 8 + (c - b'0')) line
]

abbrev pub byte_and_rest : ℕ × List ℕ → List ℕ × List ℕ
byte_and_rest (value, line) = ((value % 256) ∷ [], line)

abbrev pub with_rest : List ℕ → Option (List ℕ) → Option (List ℕ × List ℕ)
with_rest line none = none
with_rest line (some bytes) = some (bytes, line)

-- What a backslash and what follows stand for, and the rest of the line.
abbrev pub read_escape : ℕ → List ℕ → Option (List ℕ × List ℕ)
read_escape c line = elim (lookup c char_escapes) [
  | some byte ↦ some (byte ∷ [], line)
  | none ↦ elim (nat_beq c b'x') [
    | true ↦ some (byte_and_rest (read_hex 0 line))
    | false ↦ elim (is_digit_code c) [
      | true ↦ some (byte_and_rest (read_octal 2 (c - b'0') line))
      | false ↦ with_rest line (encode c)
    ]
  ]
]

abbrev pub finish : Bool → ℕ → List ℕ → AsciiResult
finish in_quote num_parts ret =
    if in_quote
    then decomp_failure
    else if nat_beq num_parts 0
    then decomp_failure
    else ret_bytes ret

abbrev pub terminator : Bool → List ℕ
terminator z = if z then (0 ∷ []) else []

-- `i == len(line)`, for the rest of the line from `i`.
abbrev pub at_end : List ℕ → Bool
at_end [] = true
at_end (_ ∷ _) = false

-- The loop over the line, with a unit of fuel for each round.
module _ (z : Bool) where
  unfoldable mutual
    pub loop : ℕ → Bool → ℕ → List ℕ → List ℕ → AsciiResult
    loop zero in_quote num_parts ret line = no_fuel
    loop (suc f) in_quote num_parts ret [] = finish in_quote num_parts ret
    loop (suc f) false num_parts ret (c ∷ line) = elim (nat_beq c b'"') [
      | true ↦ loop f true (suc num_parts) ret line
      | false ↦ loop f false num_parts ret line
    ]
    loop (suc f) true num_parts ret (c ∷ line) = elim (nat_beq c b'"') [
      | true ↦ loop f false num_parts (ret ++ terminator z) line
      | false ↦ elim (nat_beq c 0x5c) [
        | true ↦ elim (at_end line) [
          | true ↦ decomp_failure
          | false ↦ loop_escape f num_parts ret line
        ]
        | false ↦ elim (encode c) [
          | none ↦ encode_error
          | some bytes ↦ loop f true num_parts (ret ++ bytes) line
        ]
      ]
    ]

    -- The rest of the round behind a backslash, from `c = line[i]`.
    pub loop_escape : ℕ → ℕ → List ℕ → List ℕ → AsciiResult
    loop_escape zero num_parts ret line = no_fuel
    loop_escape (suc f) num_parts ret [] = index_error
    loop_escape (suc f) num_parts ret (c ∷ line) = elim (read_escape c line) [
      | none ↦ encode_error
      | some (bytes, rest) ↦ loop f true num_parts (ret ++ bytes) rest
    ]

unfoldable pub parse_ascii_directive : List ℕ → Bool → AsciiResult
parse_ascii_directive line z = loop z (suc (length line)) false 0 [] line
