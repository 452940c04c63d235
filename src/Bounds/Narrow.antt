-- ===== src/Bounds/Narrow.antt =====
-- What narrowing does to the admitted values.
use m2c.Prelude.{
  ◌≡◌, refl, ◌∙◌, Bool, true, false, not, ◌&&◌, ◌||◌, inl, inr, ◌∷◌, ◌==◌, contains, Bool-cases, ok,
  arith,
}
use m2c.Prelude.Int.{ℤ, pos, negsuc, leb_ℤ, int_eq}
use m2c.Bounds.{Bounds, empty_bounds, without, at_most, at_least}

abbrev pub admits : Bounds → ℤ → Bool
admits b v = leb_ℤ b.lower v && (leb_ℤ v b.upper && not (contains b.holes v))

empty_bounds-admits : (v : ℤ) → admits empty_bounds v ≡ false
empty_bounds-admits (pos v) = ground arith
empty_bounds-admits (negsuc v) = ground arith

-- On bounds whose ends are in order, `without` returns and takes exactly the hole away.
pub without-admits :
    (hole : ℤ) (b : Bounds)
    → leb_ℤ b.lower b.upper ≡ true
    → (b' : Bounds) × (without hole b ≡ ok b')
      × ((v : ℤ) → admits b' v ≡ (admits b v && not (v == hole)))
      × (leb_ℤ b'.lower b'.upper ≡ true)
unfolding without
without-admits hole b h = rw h (
  record b { holes = hole ∷ b.holes },
  refl,
  λ v. swap (leb_ℤ b.lower v) (leb_ℤ v b.upper) (v == hole) (contains b.holes v),
  h,
)
  where
    swap : (l u e c : Bool) → (l && (u && not (e || c))) ≡ (l && (u && not c) && not e)
    swap l u e c = ground arith

-- On bounds whose ends are in order, `at_most` returns and keeps exactly the admitted values up to
-- `val`.
pub at_most-admits :
    (val : ℤ) (b : Bounds)
    → leb_ℤ b.lower b.upper ≡ true
    → (b' : Bounds) × (at_most val b ≡ ok b')
      × ((v : ℤ) → admits b' v ≡ (admits b v && leb_ℤ v val))
      × (leb_ℤ b'.lower b'.upper ≡ true)
unfolding at_most
at_most-admits val b h = elim (Bool-cases (leb_ℤ b.lower val)) [
  | inl above ↦ elim (Bool-cases (leb_ℤ val b.upper)) [
    | inl inside ↦
        rw (above, inside) (record b { upper = val }, refl, λ v. narrowed v inside, above)
    | inr beyond ↦ rw (above, beyond) (b, refl, λ v. unchanged v beyond, h)
  ]
  | inr below ↦ elim (Bool-cases (leb_ℤ val b.upper)) [
    | inl inside ↦
        rw (below, inside) (empty_bounds, refl, λ v. empty_bounds-admits v ∙ emptied v below, refl)
    | inr beyond ↦ rw (below, beyond) (b, refl, λ v. unchanged v beyond, h)
  ]
]
  where
    narrowed :
        (v : ℤ)
        → leb_ℤ val b.upper ≡ true
        → (leb_ℤ b.lower v && (leb_ℤ v val && not (contains b.holes v)))
          ≡ (leb_ℤ b.lower v && (leb_ℤ v b.upper && not (contains b.holes v)) && leb_ℤ v val)
    narrowed v k = ground arith

    unchanged :
        (v : ℤ)
        → leb_ℤ val b.upper ≡ false
        → (leb_ℤ b.lower v && (leb_ℤ v b.upper && not (contains b.holes v)))
          ≡ (leb_ℤ b.lower v && (leb_ℤ v b.upper && not (contains b.holes v)) && leb_ℤ v val)
    unchanged v k = ground arith

    emptied :
        (v : ℤ)
        → leb_ℤ b.lower val ≡ false
        → false ≡ (leb_ℤ b.lower v && (leb_ℤ v b.upper && not (contains b.holes v)) && leb_ℤ v val)
    emptied v k = ground arith

-- On bounds whose ends are in order, `at_least` returns and keeps exactly the admitted values from
-- `val` on.
pub at_least-admits :
    (val : ℤ) (b : Bounds)
    → leb_ℤ b.lower b.upper ≡ true
    → (b' : Bounds) × (at_least val b ≡ ok b')
      × ((v : ℤ) → admits b' v ≡ (admits b v && leb_ℤ val v))
      × (leb_ℤ b'.lower b'.upper ≡ true)
unfolding at_least
at_least-admits val b h = elim (Bool-cases (leb_ℤ val b.upper)) [
  | inl inside ↦ elim (Bool-cases (leb_ℤ b.lower val)) [
    | inl above ↦ rw (above, inside) (record b { lower = val }, refl, λ v. narrowed v above, inside)
    | inr below ↦ rw below (b, refl, λ v. unchanged v below, h)
  ]
  | inr beyond ↦ elim (Bool-cases (leb_ℤ b.lower val)) [
    | inl above ↦
        rw (above, beyond) (empty_bounds, refl, λ v. empty_bounds-admits v ∙ emptied v beyond, refl)
    | inr below ↦ rw below (b, refl, λ v. unchanged v below, h)
  ]
]
  where
    narrowed :
        (v : ℤ)
        → leb_ℤ b.lower val ≡ true
        → (leb_ℤ val v && (leb_ℤ v b.upper && not (contains b.holes v)))
          ≡ (leb_ℤ b.lower v && (leb_ℤ v b.upper && not (contains b.holes v)) && leb_ℤ val v)
    narrowed v k = ground arith

    unchanged :
        (v : ℤ)
        → leb_ℤ b.lower val ≡ false
        → (leb_ℤ b.lower v && (leb_ℤ v b.upper && not (contains b.holes v)))
          ≡ (leb_ℤ b.lower v && (leb_ℤ v b.upper && not (contains b.holes v)) && leb_ℤ val v)
    unchanged v k = ground arith

    emptied :
        (v : ℤ)
        → leb_ℤ val b.upper ≡ false
        → false ≡ (leb_ℤ b.lower v && (leb_ℤ v b.upper && not (contains b.holes v)) && leb_ℤ val v)
    emptied v k = ground arith
