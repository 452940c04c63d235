-- ===== src/Examples/Asm.antt =====
-- Literals and constant folding (m2c/asm_instruction.py) on concrete arguments.
use m2c.Prelude.{
  ℕ, ◌≡◌, ◌≢◌, refl, true, none, some, [], ◌∷◌, String, ◌==◌, string_eq, if◌then◌else◌, ok, raised,
  out_of_fuel, arith,
}
use m2c.Prelude.Int.{ℤ, pos, negsuc, ◌+ℤ◌, ◌-ℤ◌, ◌*ℤ◌, shl, shr, ◌≤ℤ◌}
use m2c.Prelude.Dict.{lookup}
use m2c.Asm.{Argument, global_symbol, literal, bin_op}
use m2c.Asm.Literal.{as_s16, as_s8, Congruent, as_s16_lem, as_s8_lem}
use m2c.Asm.Fold.{Defines, fold_op, fold_bin, define?, constant_fold}
use m2c.Asm.Fold.Value.{value, op_value, Agrees, constant_fold-value}
use m2c.Asm.Fold.Total.{
  IsRanked, IsClosed, constant_fold-ends, constant_fold-literal, constant_fold-self_define,
}

as_s16_high : as_s16 (pos 0xfff0) ≡ negsuc 15
unfolding as_s16 ◌+ℤ◌ ◌-ℤ◌
as_s16_high = refl

as_s16_lem_example :
    (negsuc 0x7fff ≤ℤ as_s16 (pos 0x1fff0))
    × (as_s16 (pos 0x1fff0) ≤ℤ pos 0x7fff)
    × Congruent 0x10000 (as_s16 (pos 0x1fff0)) (pos 0x1fff0)
as_s16_lem_example = as_s16_lem (pos 0x1fff0)

as_s8_lem_example :
    (negsuc 0x7f ≤ℤ as_s8 (negsuc 0x80))
    × (as_s8 (negsuc 0x80) ≤ℤ pos 0x7f)
    × Congruent 0x100 (as_s8 (negsuc 0x80)) (negsuc 0x80)
as_s8_lem_example = as_s8_lem (negsuc 0x80)

-- `.set BASE, 0x100` and the operand `BASE + 4 << 2`, which groups as BASE + (4 << 2).
abbrev base_define : Defines
base_define = ("BASE", some (literal (pos 0x100))) ∷ []

abbrev operand : Argument
operand = bin_op "+" (global_symbol "BASE") (bin_op "<<" (literal (pos 4)) (literal (pos 2)))

abbrev base_env : String → ℤ
base_env s = if "BASE" == s then pos 0x100 else pos 0

folded : constant_fold 3 base_define operand ≡ ok (literal (pos 0x110))
unfolding constant_fold fold_bin fold_op define? lookup ◌+ℤ◌ shl
folded = refl

negative_shift : constant_fold 3 [] (bin_op ">>" (literal (pos 4)) (literal (negsuc 0))) ≡ raised
unfolding constant_fold fold_bin fold_op
negative_shift = refl

floor_shift :
    constant_fold 2 [] (bin_op ">>" (literal (negsuc 4)) (literal (pos 1)))
    ≡ ok (literal (negsuc 2))
unfolding constant_fold fold_bin fold_op shr
floor_shift = refl

define?-base :
    (s : String) (e : Argument)
    → define? base_define s ≡ some e
    → (("BASE" == s) ≡ true) × (e ≡ literal (pos 0x100))
unfolding define? lookup
define?-base s e h = ground arith

base-Agrees : Agrees base_env base_define
unfolding value
base-Agrees s e h = let (same, val) = define?-base s e h in rw (val, same)

abbrev base_rank : String → ℕ
base_rank s = 1

base-IsRanked : IsRanked base_rank base_define
base-IsRanked s e h = let (same, val) = define?-base s e h in rw val (omega arith)

base-IsClosed :
    (s : String) (e : Argument) → define? base_define s ≡ some e → IsClosed base_define e
base-IsClosed s e h = let (same, val) = define?-base s e h in rw val tt

base_defined : define? base_define "BASE" ≢ none
unfolding define? lookup
base_defined = cc

operand-value : value base_env operand ≡ some (pos 0x110)
unfolding value op_value ◌+ℤ◌ ◌*ℤ◌
operand-value = refl

constant_fold-value_example : value base_env (literal (pos 0x110)) ≡ value base_env operand
constant_fold-value_example =
    constant_fold-value base_env base_define base-Agrees 3 operand (literal (pos 0x110)) folded

constant_fold-literal_example : constant_fold 3 base_define operand ≡ ok (literal (pos 0x110))
constant_fold-literal_example =
    constant_fold-literal base_env base_rank base_define base-Agrees base-IsRanked base-IsClosed 3
      operand (pos 0x110) (omega arith) (base_defined, (tt, tt)) operand-value

constant_fold-ends_example : constant_fold 3 base_define operand ≢ out_of_fuel
constant_fold-ends_example =
    constant_fold-ends base_rank base_define base-IsRanked 3 operand (omega arith)

-- `.set a, a`.
abbrev self_define : Defines
self_define = ("a", some (global_symbol "a")) ∷ []

self_defined : define? self_define "a" ≡ some (global_symbol "a")
unfolding define? lookup
self_defined = refl

constant_fold-self_define_example : constant_fold 1000 self_define (global_symbol "a") ≡ out_of_fuel
constant_fold-self_define_example = constant_fold-self_define self_define "a" self_defined 1000
