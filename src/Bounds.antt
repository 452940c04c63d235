-- ===== src/Bounds.antt =====
-- m2c/if_statements.py: Bounds, which keeps the values that a switch control may have after some
-- conditional branches.
pub mod Narrow
pub mod Values
use m2c.Prelude.{
  ℕ, zero, suc, ◌^◌, ◌-◌, Bool, true, false, not, ◌&&◌, ◌||◌, Option, none, some, List, [], ◌∷◌,
  ◌++◌, ◌==◌, contains, length, ltb, if◌then◌else◌, Outcome, ok, raised, ◌>>◌, assert,
}
use m2c.Prelude.Int.{ℤ, pos, negsuc, pos_part, ◌+ℤ◌, ◌-ℤ◌, leb_ℤ, int_eq}

-- The holes are a set, so a hole that is added twice does not matter.
pub record Bounds : Type 0 where
  pub lower : ℤ
  pub upper : ℤ
  pub holes : List ℤ

-- `Bounds()`: from -(2**31) to (2**32) - 1.
abbrev pub default_bounds : Bounds
default_bounds = record { lower = negsuc (2 ^ 31 - 1); upper = pos (2 ^ 32 - 1); holes = [] }

-- __post_init__, which the constructor and `replace` run.
abbrev pub post_init : Bounds → Outcome Bounds
post_init b = assert (leb_ℤ b.lower b.upper) >> ok b

unfoldable pub without : ℤ → Bounds → Outcome Bounds
without hole b = post_init (record b { holes = hole ∷ b.holes })

abbrev pub empty_bounds : Bounds
empty_bounds = record { lower = pos 0; upper = pos 0; holes = pos 0 ∷ [] }

unfoldable pub at_most : ℤ → Bounds → Outcome Bounds
at_most val b =
    if leb_ℤ b.lower val && leb_ℤ val b.upper
    then post_init (record b { upper = val })
    else if not (leb_ℤ val b.upper)
    then ok b
    else post_init empty_bounds

unfoldable pub at_least : ℤ → Bounds → Outcome Bounds
at_least val b =
    if leb_ℤ b.lower val && leb_ℤ val b.upper
    then post_init (record b { lower = val })
    else if not (leb_ℤ b.lower val)
    then ok b
    else post_init empty_bounds

-- The loop of `values` over `left` numbers from `i` on.
unfoldable pub values_loop : ℕ → ℤ → List ℤ → ℕ → List ℤ → Option (List ℤ)
values_loop zero i holes max_count values = some values
values_loop (suc left) i holes max_count values =
    let skipped = values_loop left (i +ℤ pos 1) holes max_count values in
    let longer = values ++ i ∷ [] in
    let taken = values_loop left (i +ℤ pos 1) holes max_count longer in
    if not (contains holes i)
    then if ltb max_count (length longer) then none else taken
    else skipped

-- `len(range(lower, upper + 1))`.
abbrev pub span : Bounds → ℕ
span b = pos_part (b.upper +ℤ pos 1 -ℤ b.lower)

unfoldable pub values : ℕ → Bounds → Option (List ℤ)
values max_count b = values_loop (span b) b.lower b.holes max_count []
