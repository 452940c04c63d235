-- ===== src/Flow/Dominators/Parents.antt =====
-- The loop "Calculate parents" of compute_relations.
use m2c.Prelude.{
  ℕ, zero, suc, ◌<◌, ◌≡◌, refl, sym, subst, ◌⊎◌, inl, inr, ◌↔◌, List, [], ◌∷◌, ◌++◌, nat_beq,
  nat_beq_iff, In, In-append_left, In-append_right, In-append_cases, Bool-cases, arith,
}
use m2c.Flow.Dominators.{edges_to, calculate_parents}

In-edges_to :
    (v node : ℕ) (children : List ℕ) (p : ℕ)
    → In p (edges_to v node children)
    → (p ≡ node) × In v children
In-edges_to v node [] p m = elim m [ ]
In-edges_to v node (child ∷ children) p m = elim (Bool-cases (nat_beq child v)) [
  | inl here ↦
      at_child ((nat_beq_iff child v).0 here) (In-edges_to v node children p) (rw here at m)
  | inr away ↦ let (e, later) = In-edges_to v node children p (rw away at m) in (e, inr later)
]
  where
    at_child :
        child ≡ v
        → (In p (edges_to v node children) → (p ≡ node) × In v children)
        → In p (node ∷ edges_to v node children)
        → (p ≡ node) × In v (child ∷ children)
    at_child e ih (inl same) = (same, inl (sym e))
    at_child e ih (inr later) = let (same, _) = ih later in (same, inl (sym e))

edges_to-has : (v node : ℕ) (children : List ℕ) → In v children → In node (edges_to v node children)
edges_to-has v node [] m = elim m [ ]
edges_to-has v node (child ∷ children) (inl e) = rw ((nat_beq_iff child v).1 (sym e)) (inl refl)
edges_to-has v node (child ∷ children) (inr m) = elim (Bool-cases (nat_beq child v)) [
  | inl here ↦ rw here (inl refl)
  | inr away ↦ rw away (edges_to-has v node children m)
]

-- After the loop over the first `n` nodes, the parents of `v` are exactly those of the nodes that have
-- `v` as a child.
pub calculate_parents_lem :
    (children : ℕ → List ℕ) (n v p : ℕ)
    → In p (calculate_parents children n v) ↔ ((p < n) × In v (children p))
unfolding calculate_parents
calculate_parents_lem children zero v p = (λ m. elim m [ ], λ h. absurd (below (h.0)))
  where
    below : p < 0 → ⊥
    below lt = omega arith
calculate_parents_lem children (suc n) v p =
    let (before, after) = calculate_parents_lem children n v p in
    (
      λ m.
          onward before
            (In-append_cases p (calculate_parents children n v) (edges_to v n (children n)) m),
      λ h. back after (h.0) (h.1),
    )
  where
    onward :
        (In p (calculate_parents children n v) → (p < n) × In v (children p))
        → In p (calculate_parents children n v) ⊎ In p (edges_to v n (children n))
        → (p < suc n) × In v (children p)
    onward ih (inl m) = let (lt, mv) = ih m in (suc_lt lt, mv)
      where
        suc_lt : p < n → p < suc n
        suc_lt lt = omega arith
    onward ih (inr m) =
        let (e, mv) = In-edges_to v n (children n) p m in
        (last_lt e, subst (λ q. In v (children q)) (sym e) mv)
      where
        last_lt : p ≡ n → p < suc n
        last_lt e = omega arith

    back :
        ((p < n) × In v (children p) → In p (calculate_parents children n v))
        → p < suc n
        → In v (children p)
        → In p (calculate_parents children n v ++ edges_to v n (children n))
    back ih lt mv = elim (Bool-cases (nat_beq p n)) [
      | inl last ↦ at_last ((nat_beq_iff p n).0 last)
      | inr earlier ↦
          In-append_left p (calculate_parents children n v) (edges_to v n (children n))
            (ih (ground arith, mv))
    ]
      where
        at_last : p ≡ n → In p (calculate_parents children n v ++ edges_to v n (children n))
        at_last e = In-append_right p (calculate_parents children n v) (edges_to v n (children n)) (
            subst (λ q. In q (edges_to v n (children n))) (sym e)
              (edges_to-has v n (children n) (subst (λ q. In v (children q)) e mv)))
