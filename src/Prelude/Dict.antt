-- ===== src/Prelude/Dict.antt =====
-- Python dictionaries as association lists: the first entry of a key counts.
use mathlib.Core.Path.{◌≡◌, refl}
use mathlib.Core.Option.{Option, none, some}
use mathlib.Core.List.{List, [], ◌∷◌}
use native.Mathlib.Omega.{arith}
use m2c.Prelude.Tests.{if◌then◌else◌}
use m2c.Prelude.Classes.{Eq, ◌==◌}

abbrev pub Map {ℓ κ} : Type ℓ → Type κ → Type (ℓ ⊔ κ)
Map K V = List (K × V)

module _ {ℓ κ} {K : Type ℓ} {V : Type κ} ⦃e : Eq K⦄ where
  -- `d.get(key)`.
  unfoldable pub lookup : K → Map K V → Option V
  lookup key [] = none
  lookup key ((own, value) ∷ rest) = if own == key then some value else lookup key rest

  -- `d[key] = value`.
  unfoldable pub insert : K → V → Map K V → Map K V
  insert key new [] = (key, new) ∷ []
  insert key new ((own, value) ∷ rest) =
      if own == key then (own, new) ∷ rest else (own, value) ∷ insert key new rest

  -- `d.pop(key, None)`.
  unfoldable pub remove : K → Map K V → Map K V
  remove key [] = []
  remove key ((own, value) ∷ rest) =
      let left = remove key rest in if own == key then left else (own, value) ∷ left

  pub lookup-insert :
      (key other : K) (new : V) (dict : Map K V)
      → lookup other (insert key new dict) ≡ (if key == other then some new else lookup other dict)
  unfolding lookup insert
  lookup-insert key other new [] = refl
  lookup-insert key other new ((own, value) ∷ rest) = ground (
    arith,
    lookup-insert key other new rest,
    e.same_iff own key,
    e.same_iff own other,
    e.same_iff key other,
  )

  pub lookup-remove :
      (key other : K) (dict : Map K V)
      → lookup other (remove key dict) ≡ (if key == other then none else lookup other dict)
  unfolding lookup remove
  lookup-remove key other [] = ground arith
  lookup-remove key other ((own, value) ∷ rest) = ground (
    arith,
    lookup-remove key other rest,
    e.same_iff own key,
    e.same_iff own other,
    e.same_iff key other,
  )
