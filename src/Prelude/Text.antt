-- ===== src/Prelude/Text.antt =====
-- The tests on ASCII text that the program makes character by character.
use Prim.Native.Nat.{ℕ, zero, suc, ◌+◌, ◌/◌, ◌%◌}
use Prim.Native.Char.{code}
use Prim.Native.String.{String, ◌++◌ as text_append}
use mathlib.Core.Bool.{Bool, false, not, ◌&&◌, ◌||◌}
use mathlib.Core.List.{List, [], ◌∷◌, ◌++◌}
use mathlib.Core.Option.{Option, none, some}
use mathlib.Core.Option
use m2c.Prelude.Classes.{◌==◌, string_eq}
use m2c.Prelude.Lists.{get_elem?}
use m2c.Prelude.Tests.{leb, ltb, nat_beq, if◌then◌else◌}

-- The code points of a text.
abbrev pub codes : String → List ℕ
codes String.[] = []
codes (String.◌∷◌ c s) = code c ∷ codes s

abbrev pub is_digit_code : ℕ → Bool
is_digit_code c = leb b'0' c && leb c b'9'

abbrev pub is_upper_code : ℕ → Bool
is_upper_code c = leb b'A' c && leb c b'Z'

abbrev pub is_lower_code : ℕ → Bool
is_lower_code c = leb b'a' c && leb c b'z'

abbrev pub any_code : (ℕ → Bool) → List ℕ → Bool
any_code p [] = false
any_code p (c ∷ cs) = p c || any_code p cs

-- `s.isupper()` on ASCII: some letter, and no lower-case one.
abbrev pub is_upper : String → Bool
is_upper s = any_code is_upper_code (codes s) && not (any_code is_lower_code (codes s))

abbrev starts_code : ℕ → List ℕ → Bool
starts_code c [] = false
starts_code c (d ∷ ds) = nat_beq d c

-- `s.startswith(c)` for a single character, given by its code.
abbrev pub starts_with_code : ℕ → String → Bool
starts_with_code c s = starts_code c (codes s)

-- `str(n)` of a natural number.
abbrev digit_text : ℕ → String
digit_text d =
    or_nothing (get_elem? ("0" ∷ "1" ∷ "2" ∷ "3" ∷ "4" ∷ "5" ∷ "6" ∷ "7" ∷ "8" ∷ "9" ∷ []) d)
  where
    or_nothing : Option String → String
    or_nothing (some s) = s
    or_nothing none = ""

unfoldable pub decimal_digits : ℕ → ℕ → String
decimal_digits zero n = ""
decimal_digits (suc fuel) n =
    let high = decimal_digits fuel (n / 10) in
    if ltb n 10 then digit_text n else text_append high (digit_text (n % 10))

unfoldable pub decimal : ℕ → String
decimal n = decimal_digits (suc n) n

-- `s[:-len(suffix)]` if the text ends in the suffix.
unfoldable pub strip_suffix : String → String → Option String
strip_suffix suffix String.[] = if suffix == "" then some "" else none
strip_suffix suffix (String.◌∷◌ c s) =
    let rest = strip_suffix suffix s in
    if suffix == String.◌∷◌ c s then some "" else Option.map (String.◌∷◌ c) rest

-- The code points of `str(n)`.
unfoldable pub decimal_codes_up_to : ℕ → ℕ → List ℕ
decimal_codes_up_to zero n = []
decimal_codes_up_to (suc fuel) n =
    let high = decimal_codes_up_to fuel (n / 10) in
    if ltb n 10 then (b'0' + n) ∷ [] else high ++ (b'0' + n % 10) ∷ []

unfoldable pub decimal_codes : ℕ → List ℕ
decimal_codes n = decimal_codes_up_to (suc n) n
