-- ===== src/Examples/Graph.antt =====
-- Dominators and reachability (m2c/flow_graph.py) on a small graph.
use m2c.Prelude.{
  ℕ, zero, suc, ltb, ◌&&◌, and-eq_true, get_elem?, Option, some, none, ◌<◌, ◌≡◌, refl, ◌↔◌, inl,
  inr, Bool, true, false, List, [], ◌∷◌, In, ok, arith,
}
use m2c.Prelude.Bits.{bit}
use m2c.Prelude.Dict.{lookup, insert}
use m2c.Flow.Dominators.{
  Doms, calculate_parents, initial_doms, meet, store, visit, sweep, iterate, compute_dominators,
}
use m2c.Flow.Dominators.Step.{dom, Avoiding}
use m2c.Flow.Dominators.Correct.{compute_dominators_lem}
use m2c.Flow.Dominators.Parents.{calculate_parents_lem}
use m2c.Flow.Reach.{extend, reach_loop, inv_reachable_without}
use m2c.Flow.Reach.Correct.{Reaches, inv_reachable_without_lem}

-- 0 → 1, 0 → 2, 1 → 3, 2 → 3, 3 → 1.
abbrev pub or_none : Option (List ℕ) → List ℕ
or_none (some xs) = xs
or_none none = []

abbrev diamond : ℕ → List ℕ
diamond v = or_none (get_elem? ((1 ∷ 2 ∷ []) ∷ (3 ∷ []) ∷ (3 ∷ []) ∷ (1 ∷ []) ∷ []) v)

abbrev pub parents_of : ℕ → List ℕ
parents_of v = or_none (get_elem? ([] ∷ (0 ∷ 3 ∷ []) ∷ (0 ∷ []) ∷ (1 ∷ 2 ∷ []) ∷ []) v)

parents_of_one : calculate_parents diamond 4 1 ≡ parents_of 1
unfolding calculate_parents
parents_of_one = refl

all_below : List ℕ → Bool
all_below [] = true
all_below (x ∷ xs) = ltb x 4 && all_below xs

all_below-In : (xs : List ℕ) (p : ℕ) → all_below xs ≡ true → In p xs → p < 4
unfolding all_below
all_below-In [] p h m = elim m [ ]
all_below-In (x ∷ xs) p h (inl e) = ground arith
all_below-In (x ∷ xs) p h (inr m) = all_below-In xs p ((and-eq_true (ltb x 4) (all_below xs) h).1) m

parents_all_below : (v : ℕ) → all_below (parents_of v) ≡ true
unfolding all_below
parents_all_below zero = refl
parents_all_below (suc zero) = refl
parents_all_below (suc (suc zero)) = refl
parents_all_below (suc (suc (suc zero))) = refl
parents_all_below (suc (suc (suc (suc v)))) = refl

pub parents_below : (v p : ℕ) → v < 4 → In p (parents_of v) → p < 4
parents_below v p h m = all_below-In (parents_of v) p (parents_all_below v) m

compute_dominators_example :
    (doms : Doms) × (compute_dominators 100 4 0 parents_of ≡ ok doms)
    × ((v i : ℕ) → v < 4 → i < 4 → (bit (dom doms v) i ≡ false) ↔ Avoiding 4 0 parents_of i v)
compute_dominators_example =
    compute_dominators_lem 4 0 parents_of 100 (omega arith) parents_below (omega arith)

diamond_dominators :
    compute_dominators 100 4 0 parents_of
    ≡ ok ((0, 0b0001) ∷ (1, 0b0011) ∷ (2, 0b0101) ∷ (3, 0b1001) ∷ [])
unfolding compute_dominators iterate sweep visit store meet initial_doms lookup insert
diamond_dominators = refl

inv_reachable_without_example :
    (reachable : List ℕ) × (inv_reachable_without 20 parents_of 3 1 ≡ ok reachable)
    × ((v : ℕ) → In v reachable ↔ Reaches 4 parents_of (3 ∷ []) 1 v)
inv_reachable_without_example =
    inv_reachable_without_lem 4 parents_of 3 1 20 (omega arith) parents_below (omega arith)

reached : inv_reachable_without 20 parents_of 3 1 ≡ ok (0 ∷ 2 ∷ 3 ∷ [])
unfolding inv_reachable_without reach_loop extend
reached = refl

calculate_parents_example : In 3 (calculate_parents diamond 4 1) ↔ ((3 < 4) × In 1 (diamond 3))
calculate_parents_example = calculate_parents_lem diamond 4 1 3
