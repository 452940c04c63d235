-- ===== src/Bounds/Values.antt =====
-- The values that Bounds.values lists.
use m2c.Prelude.{
  ℕ, zero, suc, ◌+◌, ◌≡◌, ◌≢◌, refl, ◌∙◌, Bool, true, false, not, ◌&&◌, inl, inr, Option, none,
  some, List, [], ◌∷◌, ◌++◌, ◌==◌, contains, Bool-cases, length, length-append, if◌then◌else◌, ltb,
  arith,
}
use m2c.Prelude.Int.{
  ℤ, pos, pos_part, neg_part, ◌+ℤ◌, leb_ℤ, int_eq, int_beq_iff, eq_of_parts, +ℤ_parts, -ℤ_parts,
}
use m2c.Bounds.{Bounds, span, values_loop, values}
use m2c.Bounds.Narrow.{admits}

-- The numbers from `i` on that are no holes, among `left` of them.
abbrev pub listed : ℕ → ℤ → List ℤ → List ℤ
listed zero i holes = []
listed (suc left) i holes =
    if contains holes i then listed left (i +ℤ pos 1) holes else i ∷ listed left (i +ℤ pos 1) holes

append_assoc : (xs ys zs : List ℤ) → (xs ++ ys) ++ zs ≡ xs ++ (ys ++ zs)
append_assoc [] ys zs = refl
append_assoc (x ∷ xs) ys zs = rw (append_assoc xs ys zs)

append_empty : (xs : List ℤ) → xs ++ [] ≡ xs
append_empty [] = refl
append_empty (x ∷ xs) = rw (append_empty xs)

-- The result for the numbers that were kept.
abbrev capped : ℕ → List ℤ → Option (List ℤ)
capped max_count vs = if ltb max_count (length vs) then none else some vs

values_loop-capped :
    (left : ℕ) (i : ℤ) (holes : List ℤ) (max_count : ℕ) (vs : List ℤ)
    → ltb max_count (length vs) ≡ false
    → values_loop left i holes max_count vs ≡ capped max_count (vs ++ listed left i holes)
unfolding values_loop
values_loop-capped zero i holes max_count vs h = rw (append_empty vs, h) refl
values_loop-capped (suc left) i holes max_count vs h = elim (Bool-cases (contains holes i)) [
  | inl hole ↦ rw hole (values_loop-capped left (i +ℤ pos 1) holes max_count vs h)
  | inr kept ↦ elim (Bool-cases (ltb max_count (length (vs ++ i ∷ [])))) [
    | inl over ↦ rw (kept, over) (overflow over)
    | inr fits ↦
        rw (kept, fits)
          (values_loop-capped left (i +ℤ pos 1) holes max_count (vs ++ i ∷ []) fits
            ∙ rw (append_assoc vs (i ∷ []) (listed left (i +ℤ pos 1) holes)) refl)
  ]
]
  where
    overflow :
        ltb max_count (length (vs ++ i ∷ [])) ≡ true
        → none ≡ capped max_count (vs ++ i ∷ listed left (i +ℤ pos 1) holes)
    overflow over =
        ground
          (arith, length-append vs (i ∷ []), length-append vs (i ∷ listed left (i +ℤ pos 1) holes))

listed-contains :
    (left : ℕ) (i : ℤ) (holes : List ℤ) (v : ℤ)
    → contains (listed left i holes) v ≡ (
        leb_ℤ i v
        && (ltb (pos_part v + neg_part i) (pos_part i + neg_part v + left)
            && not (contains holes v)))
listed-contains zero i holes v = ground arith
listed-contains (suc left) i holes v = elim (Bool-cases (v == i)) [
  | inl here ↦ elim (Bool-cases (contains holes i)) [
    | inl hole ↦
        rw (hole, listed-contains left (i +ℤ pos 1) holes v)
          (ground (arith, at_hole ((int_beq_iff v i).0 here) hole))
    | inr kept ↦ rw (kept, here) (first_kept ((int_beq_iff v i).0 here) kept)
  ]
  | inr away ↦ elim (Bool-cases (contains holes i)) [
    | inl hole ↦
        rw (hole, listed-contains left (i +ℤ pos 1) holes v)
          (later (contains holes v) (λ e. ground (arith, int_beq_iff v i)))
    | inr kept ↦
        rw (kept, away, listed-contains left (i +ℤ pos 1) holes v)
          (later (contains holes v) (λ e. ground (arith, int_beq_iff v i)))
  ]
]
  where
    at_hole : v ≡ i → contains holes i ≡ true → contains holes v ≡ true
    at_hole e h = rw e h

    first_kept :
        v ≡ i
        → contains holes i ≡ false
        → true ≡ (
            leb_ℤ i v
            && (ltb (pos_part v + neg_part i) (pos_part i + neg_part v + suc left)
                && not (contains holes v)))
    first_kept e kept = rw (e, kept) (ground arith)

    later :
        (c : Bool)
        → (v ≢ i)
        → (leb_ℤ (i +ℤ pos 1) v
            && (ltb (pos_part v + neg_part (i +ℤ pos 1)) (pos_part (i +ℤ pos 1) + neg_part v + left)
                && not c))
          ≡ (leb_ℤ i v
              && (ltb (pos_part v + neg_part i) (pos_part i + neg_part v + suc left) && not c))
    later c apart = ground (arith, +ℤ_parts i (pos 1), eq_of_parts v i)

-- No number is listed twice.
abbrev pub is_distinct : List ℤ → Bool
is_distinct [] = true
is_distinct (v ∷ vs) = not (contains vs v) && is_distinct vs

listed-is_distinct : (left : ℕ) (i : ℤ) (holes : List ℤ) → is_distinct (listed left i holes) ≡ true
listed-is_distinct zero i holes = refl
listed-is_distinct (suc left) i holes = elim (Bool-cases (contains holes i)) [
  | inl hole ↦ rw hole (listed-is_distinct left (i +ℤ pos 1) holes)
  | inr kept ↦ rw (kept, later (contains holes i), listed-is_distinct left (i +ℤ pos 1) holes) refl
]
  where
    below :
        (c : Bool)
        → (leb_ℤ (i +ℤ pos 1) i
            && (ltb (pos_part i + neg_part (i +ℤ pos 1)) (pos_part (i +ℤ pos 1) + neg_part i + left)
                && not c))
          ≡ false
    below c = ground (arith, +ℤ_parts i (pos 1))

    later : (c : Bool) → contains (listed left (i +ℤ pos 1) holes) i ≡ false
    later c = listed-contains left (i +ℤ pos 1) holes i ∙ below (contains holes i)

-- On bounds whose ends are in order, `values` returns each admitted number once, or none if they are
-- more than `max_count`: there is one list without repetitions of exactly the admitted numbers that
-- both cases are about.
pub values-listed :
    (max_count : ℕ) (b : Bounds)
    → leb_ℤ b.lower b.upper ≡ true
    → (vs : List ℤ) × ((v : ℤ) → contains vs v ≡ admits b v)
      × (is_distinct vs ≡ true)
      × (values max_count b ≡ (if ltb max_count (length vs) then none else some vs))
unfolding values
values-listed max_count b h = (
  listed (span b) b.lower b.holes,
  λ v. listed-contains (span b) b.lower b.holes v ∙ in_span v,
  listed-is_distinct (span b) b.lower b.holes,
  values_loop-capped (span b) b.lower b.holes max_count [] (ground arith),
)
  where
    in_span :
        (v : ℤ)
        → (leb_ℤ b.lower v
            && (ltb (pos_part v + neg_part b.lower) (pos_part b.lower + neg_part v + span b)
                && not (contains b.holes v)))
          ≡ admits b v
    in_span v = ground (arith, +ℤ_parts b.upper (pos 1), -ℤ_parts (b.upper +ℤ pos 1) b.lower)
