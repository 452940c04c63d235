-- ===== src/Flow/Dominators.antt =====
-- m2c/flow_graph.py: compute_dominators, the fixed point inside compute_relations. A node is its
-- index in `nodes`, and a set of nodes is a number, as in the source.
pub mod Step
pub mod Correct
pub mod Parents
use m2c.Prelude.{
  ℕ, zero, suc, ◌-◌, ◌^◌, bit_and, bit_or, Bool, true, false, Option, none, some, List, [], ◌∷◌,
  ◌++◌, nat_eq, nat_beq, if◌then◌else◌, Outcome, ok, raised, out_of_fuel, ◌>>=◌, ◌>>◌, assert,
}
use m2c.Prelude.Dict.{Map, lookup, insert}

abbrev pub Doms : Type 0
Doms = Map ℕ ℕ

-- `d[key]`, which raises if there is no entry.
abbrev pub found : Option ℕ → Outcome ℕ
found (some d) = ok d
found none = raised

-- What a node appends to the parents of `v`: itself, once for each edge to `v`.
abbrev pub edges_to : ℕ → ℕ → List ℕ → List ℕ
edges_to v node [] = []
edges_to v node (child ∷ children) =
    let rest = edges_to v node children in if nat_beq child v then node ∷ rest else rest

-- The loop "Calculate parents": the parents of `v` after the first `n` nodes.
unfoldable pub calculate_parents : (ℕ → List ℕ) → ℕ → ℕ → List ℕ
calculate_parents children zero v = []
calculate_parents children (suc n) v = calculate_parents children n v ++ edges_to v n (children n)

abbrev pub initial : ℕ → ℕ → ℕ → ℕ
initial nnodes entry i = if nat_beq i entry then 2 ^ i else 2 ^ nnodes - 1

-- The first loop, which sets `doms[n]` for the first `n` nodes.
unfoldable pub initial_doms : ℕ → ℕ → ℕ → Doms
initial_doms nnodes entry zero = []
initial_doms nnodes entry (suc n) = insert n (initial nnodes entry n) (initial_doms nnodes entry n)

-- `for parent in parents(node): nset = nset & doms[parent]`.
unfoldable pub meet : List ℕ → Doms → ℕ → Outcome ℕ
meet [] doms nset = ok nset
meet (p ∷ ps) doms nset = do d ← found (lookup p doms); meet ps doms (bit_and nset d)

-- `if nset != doms[node]`, with the two assignments that it guards.
unfoldable pub store : ℕ → ℕ → ℕ → Doms → Bool → Outcome (Doms × Bool)
store i nset own doms changes =
    if nat_beq nset own
    then ok (doms, changes)
    else (assert (nat_beq (bit_and nset own) nset) >> ok (insert i nset doms, true))

-- The body of the loop over `i_to_node`.
unfoldable pub visit : ℕ → (ℕ → List ℕ) → ℕ → Doms → Bool → Outcome (Doms × Bool)
visit entry parents i doms changes =
    if nat_beq i entry
    then ok (doms, changes)
    else (found (lookup i doms) >>= λ own.
        meet (parents i) doms own >>= λ met. store i (bit_or met (2 ^ i)) own doms changes)

-- One round over the nodes from `i` on, of which `left` are left.
unfoldable pub sweep : ℕ → (ℕ → List ℕ) → ℕ → ℕ → Doms → Bool → Outcome (Doms × Bool)
sweep entry parents zero i doms changes = ok (doms, changes)
sweep entry parents (suc left) i doms changes = visit entry parents i doms changes >>= λ state.
    sweep entry parents left (suc i) (state.0) (state.1)

-- `while changes`.
unfoldable pub iterate : ℕ → ℕ → ℕ → (ℕ → List ℕ) → Doms → Outcome Doms
iterate zero nnodes entry parents doms = out_of_fuel
iterate (suc fuel) nnodes entry parents doms = sweep entry parents nnodes 0 doms false >>= λ state.
    let again = iterate fuel nnodes entry parents (state.0) in
    if state.1 then again else ok (state.0)

unfoldable pub compute_dominators : ℕ → ℕ → ℕ → (ℕ → List ℕ) → Outcome Doms
compute_dominators fuel nnodes entry parents =
    iterate fuel nnodes entry parents (initial_doms nnodes entry nnodes)
