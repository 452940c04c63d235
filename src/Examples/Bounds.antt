-- ===== src/Examples/Bounds.antt =====
-- Bounds (m2c/if_statements.py) on small intervals.
use m2c.Prelude.{
  ◌^◌, ◌-◌, ◌≡◌, refl, true, not, ◌&&◌, some, none, List, [], ◌∷◌, ◌==◌, contains, length, ltb,
  if◌then◌else◌, ok,
}
use m2c.Prelude.Int.{ℤ, pos, negsuc, ◌+ℤ◌, ◌-ℤ◌, leb_ℤ, int_eq}
use m2c.Bounds.{Bounds, default_bounds, without, at_most, at_least, values_loop, values}
use m2c.Bounds.Narrow.{admits, without-admits, at_most-admits, at_least-admits}
use m2c.Bounds.Values.{is_distinct, values-listed}

abbrev two_to_four : Bounds
two_to_four = record { lower = pos 2; upper = pos 4; holes = pos 3 ∷ [] }

default_narrowed :
    at_most (pos 4) default_bounds
    ≡ ok (record { lower = negsuc (2 ^ 31 - 1); upper = pos 4; holes = [] })
unfolding at_most
default_narrowed = refl

listed_values : values 2 two_to_four ≡ some (pos 2 ∷ pos 4 ∷ [])
unfolding values values_loop ◌+ℤ◌ ◌-ℤ◌
listed_values = refl

too_many_values : values 1 two_to_four ≡ none
unfolding values values_loop ◌+ℤ◌ ◌-ℤ◌
too_many_values = refl

without-admits_example :
    (b' : Bounds) × (without (pos 4) two_to_four ≡ ok b')
    × ((v : ℤ) → admits b' v ≡ (admits two_to_four v && not (v == pos 4)))
    × (leb_ℤ b'.lower b'.upper ≡ true)
without-admits_example = without-admits (pos 4) two_to_four refl

at_most-admits_example :
    (b' : Bounds) × (at_most (pos 1) two_to_four ≡ ok b')
    × ((v : ℤ) → admits b' v ≡ (admits two_to_four v && leb_ℤ v (pos 1)))
    × (leb_ℤ b'.lower b'.upper ≡ true)
at_most-admits_example = at_most-admits (pos 1) two_to_four refl

at_least-admits_example :
    (b' : Bounds) × (at_least (pos 4) two_to_four ≡ ok b')
    × ((v : ℤ) → admits b' v ≡ (admits two_to_four v && leb_ℤ (pos 4) v))
    × (leb_ℤ b'.lower b'.upper ≡ true)
at_least-admits_example = at_least-admits (pos 4) two_to_four refl

values-listed_example :
    (vs : List ℤ) × ((v : ℤ) → contains vs v ≡ admits two_to_four v)
    × (is_distinct vs ≡ true)
    × (values 2 two_to_four ≡ (if ltb 2 (length vs) then none else some vs))
values-listed_example = values-listed 2 two_to_four refl
