-- ===== src/Flow/Reach.antt =====
-- m2c/flow_graph.py: inv_reachable_without, which compute_relations calls for the body of a loop.
pub mod Correct
use m2c.Prelude.{
  ℕ, zero, suc, Bool, true, false, ◌||◌, List, [], ◌∷◌, ◌++◌, ◌==◌, nat_eq, contains, if◌then◌else◌,
  Outcome, ok, raised, out_of_fuel,
}

-- `stack.extend(xs)`; the head of the list is the top of the stack.
unfoldable pub extend : List ℕ → List ℕ → List ℕ
extend [] stack = stack
extend (x ∷ xs) stack = extend xs (x ∷ stack)

unfoldable pub reach_loop : ℕ → (ℕ → List ℕ) → ℕ → List ℕ → List ℕ → Outcome (List ℕ)
reach_loop zero parents without reachable stack = out_of_fuel
reach_loop (suc fuel) parents without reachable [] = ok reachable
reach_loop (suc fuel) parents without reachable (node ∷ stack) =
    let skipped = reach_loop fuel parents without reachable stack in
    let added = reach_loop fuel parents without (node ∷ reachable) (extend (parents node) stack) in
    if node == without || contains reachable node then skipped else added

unfoldable pub inv_reachable_without : ℕ → (ℕ → List ℕ) → ℕ → ℕ → Outcome (List ℕ)
inv_reachable_without fuel parents end without = reach_loop fuel parents without [] (end ∷ [])
