-- ===== src/Asm/Fold.antt =====
-- constant_fold of m2c/asm_instruction.py: arithmetic on literals is carried out, and symbols that
-- the assembler's `.set` and `#define` lines define are replaced.
pub mod Value
pub mod Total
use m2c.Prelude.{
  ℕ, zero, suc, ◌≡◌, refl, Bool, true, false, Option, none, some, String, ◌==◌, string_eq,
  if◌then◌else◌, Outcome, ok, raised, out_of_fuel, ◌>>=◌,
}
use m2c.Prelude.Int.{ℤ, pos, negsuc, ◌+ℤ◌, ◌-ℤ◌, ◌*ℤ◌, shl, shr, and_ℤ, or_ℤ, xor_ℤ}
use m2c.Prelude.Dict.{Map, lookup}
use m2c.Asm.{Argument, global_symbol, section_symbol, literal, bin_op, symbol_name?}

-- AsmState.defines; a name bound to `none` is explicitly undefined.
abbrev pub Defines : Type 0
Defines = Map String (Option Argument)

-- Python raises on a negative shift count.
abbrev shift : (ℤ → ℕ → ℤ) → ℤ → ℤ → Outcome (Option ℤ)
shift f a (pos n) = ok (some (f a n))
shift f a (negsuc n) = raised

-- The operators that are folded; any other leaves the operation as it is.
unfoldable pub fold_op : String → ℤ → ℤ → Outcome (Option ℤ)
fold_op op a b =
    if op == "+"
    then ok (some (a +ℤ b))
    else if op == "-"
    then ok (some (a -ℤ b))
    else if op == "*"
    then ok (some (a *ℤ b))
    else if op == ">>"
    then shift shr a b
    else if op == "<<"
    then shift shl a b
    else if op == "&"
    then ok (some (and_ℤ a b))
    else if op == "|"
    then ok (some (or_ℤ a b))
    else if op == "^"
    then ok (some (xor_ℤ a b))
    else ok none

abbrev rebuild : String → Argument → Argument → Option ℤ → Argument
rebuild op l r none = bin_op op l r
rebuild op l r (some v) = literal v

unfoldable pub fold_bin : String → Argument → Argument → Outcome Argument
fold_bin op (literal a) (literal b) = do
  v ← fold_op op a b
  ok (rebuild op (literal a) (literal b) v)
fold_bin op l r = ok (bin_op op l r)

-- The value that a defined symbol is replaced by.
unfoldable pub define? : Defines → String → Option Argument
define? defines s = elim (lookup s defines) [ some (some e) ↦ some e | _ ↦ none ]

-- Python recurses on the value of a define, with no bound: the fuel counts nested calls.
unfoldable pub constant_fold : ℕ → Defines → Argument → Outcome Argument
constant_fold zero defines arg = out_of_fuel
constant_fold (suc f) defines (global_symbol s) = elim (define? defines s) [
  | some e ↦ constant_fold f defines e
  | none ↦ ok (global_symbol s)
]
constant_fold (suc f) defines (section_symbol s n d) = elim (define? defines s) [
  | some e ↦ constant_fold f defines e
  | none ↦ ok (section_symbol s n d)
]
constant_fold (suc f) defines (bin_op op l r) = do
  l' ← constant_fold f defines l
  r' ← constant_fold f defines r
  fold_bin op l' r'
constant_fold (suc f) defines arg = ok arg
