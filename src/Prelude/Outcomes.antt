-- ===== src/Prelude/Outcomes.antt =====
-- The outcome of a Python call: a value, a raised exception (a failed assertion, a missing key), or
-- fuel that ran out, which has no counterpart in the program.
use mathlib.Core.Path.{◌≡◌, refl}
use mathlib.Core.Bool.{Bool, true, false}

pub data Outcome {ℓ} (A : Type ℓ) : Type ℓ where
  ok : A → Outcome A
  raised out_of_fuel : Outcome A

infixl 5 ◌>>=◌ ◌>>◌
abbrev pub ◌>>=◌ {ℓ κ} : {X : Type ℓ} {Y : Type κ} → Outcome X → (X → Outcome Y) → Outcome Y
raised >>= next = raised
out_of_fuel >>= next = out_of_fuel
ok x >>= next = next x

abbrev pub ◌>>◌ {ℓ κ} : {X : Type ℓ} {Y : Type κ} → Outcome X → Outcome Y → Outcome Y
first >> second = first >>= λ _. second

-- `assert b`.
abbrev pub assert : Bool → Outcome (Unit {0})
assert true = ok tt
assert false = raised

-- A chain that returned: its first call returned, and so did the rest on that value.
pub >>=-eq-ok {ℓ κ} :
    {X : Type ℓ} {Y : Type κ} (call : Outcome X) (next : X → Outcome Y) {y : Y}
    → (call >>= next) ≡ ok y
    → (x : X) × (call ≡ ok x) × (next x ≡ ok y)
>>=-eq-ok raised next returned = cc
>>=-eq-ok out_of_fuel next returned = cc
>>=-eq-ok (ok x) next returned = (x, refl, returned)

pub ok-injective {ℓ} : {A : Type ℓ} {a b : A} → ok a ≡ ok b → a ≡ b
ok-injective h = cc
