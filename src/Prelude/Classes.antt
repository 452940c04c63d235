-- ===== src/Prelude/Classes.antt =====
-- Equality tests as an interface, with the instances that the components use.
use Prim.Native.Nat.{ℕ}
use Prim.Native.String.{String}
use text.Mathlib.Text.{◌==◌ as str_eq}
use text.Mathlib.TextEquality.{eq_iff}
use mathlib.Core.Path.{◌≡◌, refl}
use mathlib.Core.Logic.{◌↔◌}
use mathlib.Core.Bool.{Bool, true, false, ◌||◌}
use mathlib.Core.Option.{Option, none, some}
use mathlib.Core.List.{List, [], ◌∷◌, ◌++◌}
use native.Mathlib.Omega.{arith}
use m2c.Prelude.Tests.{nat_beq, nat_beq_iff}
use m2c.Prelude.Lists.{In}

pub record Eq {ℓ} (A : Type ℓ) : Type ℓ where
  pub same : A → A → Bool
  pub same_iff : (x y : A) → (same x y ≡ true) ↔ (x ≡ y)

infix 50 ◌==◌
abbrev pub ◌==◌ {ℓ} : {A : Type ℓ} ⦃e : Eq A⦄ → A → A → Bool
◌==◌ ⦃e⦄ = e.same

instance abbrev pub nat_eq : Eq ℕ
nat_eq = record { same = nat_beq; same_iff = nat_beq_iff }

instance abbrev pub string_eq : Eq String
string_eq = record { same = str_eq; same_iff = eq_iff }

abbrev pub option_beq {ℓ} : {A : Type ℓ} → (A → A → Bool) → Option A → Option A → Bool
option_beq f none none = true
option_beq f (some a) (some b) = f a b
option_beq f _ _ = false

module _ {ℓ} {A : Type ℓ} ⦃e : Eq A⦄ where
  pub beq_refl : (a : A) → (a == a) ≡ true
  beq_refl a = (e.same_iff a a).1 refl

  -- `x in xs`.
  abbrev pub contains : List A → A → Bool
  contains [] a = false
  contains (x ∷ xs) a = a == x || contains xs a

module _ {A : Type 0} ⦃e : Eq A⦄ where
  pub contains→In : (xs : List A) (a : A) → contains xs a ≡ true → In a xs
  contains→In [] a h = cc
  contains→In (x ∷ xs) a h = ground (arith, e.same_iff a x, contains→In xs a)

  pub In→contains : (xs : List A) (a : A) → In a xs → contains xs a ≡ true
  In→contains [] a h = elim h [ ]
  In→contains (x ∷ xs) a h = ground (arith, e.same_iff a x, In→contains xs a)

module _ {ℓ} {A : Type ℓ} ⦃e : Eq A⦄ where
  pub beq_comm : (a b : A) → (a == b) ≡ (b == a)
  beq_comm a b = ground (arith, e.same_iff a b, e.same_iff b a)

  pub contains-append :
      (xs ys : List A) (a : A) → contains (xs ++ ys) a ≡ (contains xs a || contains ys a)
  contains-append [] ys a = refl
  contains-append (x ∷ xs) ys a = ground (arith, contains-append xs ys a)

  -- What equals a member is a member.
  pub contains-eq :
      (xs : List A) (a b : A) → contains xs a ≡ true → (b == a) ≡ true → contains xs b ≡ true
  contains-eq xs a b h same = ground (arith, e.same_iff b a)
