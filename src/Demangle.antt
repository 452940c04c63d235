-- ===== src/Demangle.antt =====
-- m2c/demangle_codewarrior.py: the data of demangled C++ names, and reading from the input buffer.
pub mod Parse
pub mod Print
pub mod Cases
pub mod Mangle
pub mod Digits
pub mod Starts
pub mod Steps
pub mod Reads
pub mod Escapes
pub mod Fits
pub mod Leaves
pub mod Total
pub mod Printing
pub mod Constructors
pub mod Symbol
pub mod SymbolRoundTrip
pub mod RoundTrip
use m2c.Prelude.{
  ℕ, zero, suc, ◌+◌, ◌-◌, ◌*◌, Bool, true, false, not, ◌&&◌, ◌||◌, Option, none, some, List, [],
  ◌∷◌, ◌++◌, length, take, drop, nat_eq, ltb, leb, nat_beq, contains, if◌then◌else◌,
}
use m2c.Prelude.Dict.{Map, lookup}
use m2c.Prelude.Int.{ℤ, pos, negsuc}
use m2c.Prelude.Text.{is_digit_code}

-- The code points of a name or of what is left of the buffer.
abbrev pub Text : Type 0
Text = List ℕ

-- CxxTerm.Kind, but for the four kinds that carry data.
pub data Kind : Type 0 where
  const pointer reference signed unsigned ellipsis void bool char short int long long_long : Kind
  wide_char float double long_double : Kind

-- CxxName, CxxTerm, CxxType and CxxSymbol; a term of a kind with data has that data. A list of names,
-- of types or of terms is a type of its own here.
mutual
  pub data CxxName : Type 0 where
    plain_name : Text → CxxName
    template_name : Text → CxxTypes → CxxName

  pub data CxxNames : Type 0 where
    no_names : CxxNames
    add_name : CxxName → CxxNames → CxxNames

  pub data CxxTerm : Type 0 where
    simple : Kind → CxxTerm
    array : ℕ → CxxTerm
    qualified : CxxNames → CxxTerm
    function : CxxTypes → CxxReturn → CxxTerm
    symbol_reference : CxxSymbol → CxxTerm

  pub data CxxReturn : Type 0 where
    no_return : CxxReturn
    returns : CxxType → CxxReturn

  pub data CxxType : Type 0 where
    no_terms : CxxType
    add_term : CxxTerm → CxxType → CxxType

  pub data CxxTypes : Type 0 where
    no_types : CxxTypes
    add_type : CxxType → CxxTypes → CxxTypes

  pub data CxxSymbol : Type 0 where
    symbol : CxxTerm → CxxType → CxxSymbol

-- What a call comes to. `demangle` handles a ValueError only; the other exceptions are a failed
-- assertion, and an IndexError for the last of no names.
pub data Result (A : Type 0) : Type 0 where
  ok : A → Result A
  value_error other_error out_of_fuel : Result A

infixl 5 ◌>>=◌
abbrev pub ◌>>=◌ : {A B : Type 0} → Result A → (A → Result B) → Result B
ok a >>= next = next a
value_error >>= next = value_error
other_error >>= next = other_error
out_of_fuel >>= next = out_of_fuel

-- `read_exact(src, 1)`.
abbrev pub read_char : Text → Result (ℕ × Text)
read_char [] = value_error
read_char (c ∷ src) = ok (c, src)

unfoldable pub read_exact : Text → ℕ → Result (Text × Text)
read_exact src size =
    if ltb (length src) size then value_error else ok (take size src, drop size src)

-- `peek(src) in chars`; at the end `peek` returns the empty text.
abbrev pub peek_in : Text → Text → Bool
peek_in chars [] = false
peek_in chars (c ∷ src) = contains chars c

-- `peek(src) in ("", ",", ">")` and the like.
abbrev pub at_end_or : Text → Text → Bool
at_end_or chars [] = true
at_end_or chars (c ∷ src) = contains chars c

abbrev pub delimiters : Text
delimiters = b',' ∷ b'>' ∷ []

-- NUMBER_CHARS.
abbrev pub is_number_char : ℕ → Bool
is_number_char c = is_digit_code c || contains (b'-' ∷ []) c

-- `peek(src) in CxxName.NUMBER_CHARS`.
abbrev pub peek_number : Text → Bool
peek_number [] = false
peek_number (c ∷ src) = is_number_char c

-- The loop that reads `number_str`.
unfoldable pub read_number : Text → Text × Text
read_number [] = ([], [])
read_number (c ∷ src) =
    let more = read_number src in if is_number_char c then (c ∷ more.0, more.1) else ([], c ∷ src)

-- `int` of a text of digits, after those that are read.
unfoldable pub int_digits : ℕ → Text → Result ℕ
int_digits n [] = ok n
int_digits n (c ∷ cs) =
    let more = int_digits (n * 10 + (c - b'0')) cs in if is_digit_code c then more else value_error

-- -n.
abbrev pub negate : ℕ → ℤ
negate zero = pos zero
negate (suc n) = negsuc n

-- `int(text)` for a text of NUMBER_CHARS: an optional sign, and at least one digit.
unfoldable pub int_of : Text → Result ℤ
int_of [] = value_error
int_of (c ∷ []) =
    if nat_beq c b'-' then value_error else (int_digits 0 (c ∷ []) >>= λ n. ok (pos n))
int_of (c ∷ d ∷ cs) =
    if nat_beq c b'-'
    then (int_digits 0 (d ∷ cs) >>= λ n. ok (negate n))
    else (int_digits 0 (c ∷ d ∷ cs) >>= λ n. ok (pos n))

-- The letter of each kind.
abbrev pub kind_letters : Map ℕ Kind
kind_letters =
    (b'C', const)
    ∷ (b'P', pointer)
    ∷ (b'R', reference)
    ∷ (b'S', signed)
    ∷ (b'U', unsigned)
    ∷ (b'e', ellipsis)
    ∷ (b'v', void)
    ∷ (b'b', bool)
    ∷ (b'c', char)
    ∷ (b's', short)
    ∷ (b'i', int)
    ∷ (b'l', long)
    ∷ (b'x', long_long)
    ∷ (b'w', wide_char)
    ∷ (b'f', float)
    ∷ (b'd', double)
    ∷ (b'r', long_double)
    ∷ []

-- `kind in NONTERMINATING_KINDS`.
abbrev pub is_nonterminating_kind : Kind → Bool
is_nonterminating_kind const = true
is_nonterminating_kind pointer = true
is_nonterminating_kind reference = true
is_nonterminating_kind signed = true
is_nonterminating_kind unsigned = true
is_nonterminating_kind _ = false

abbrev pub is_nonterminating : CxxTerm → Bool
is_nonterminating (simple k) = is_nonterminating_kind k
is_nonterminating (array n) = true
is_nonterminating _ = false
