-- ===== src/Flow/Clobbered.antt =====
-- m2c/flow_graph.py: locs_clobbered_until_dominator, the locations that may change between a node
-- and its immediate dominator.
pub mod Correct
use m2c.Prelude.{
  ℕ, zero, suc, List, [], ◌∷◌, ◌++◌, nat_eq, contains, if◌then◌else◌, Outcome, ok, raised,
  out_of_fuel, Option, none, some,
}
use m2c.Asm.{Location, Instruction}
use m2c.Flow.Reach.{extend}

-- `clobbered.update(instr.outputs)` and `clobbered.update(instr.clobbers)` for each instruction.
unfoldable pub update_clobbered : List Instruction → List Location → List Location
update_clobbered [] clobbered = clobbered
update_clobbered (i ∷ is) clobbered = update_clobbered is (i.clobbers ++ (i.outputs ++ clobbered))

unfoldable pub clobbered_loop :
    ℕ
    → (ℕ → List ℕ)
    → (ℕ → List Instruction)
    → List ℕ
    → List ℕ
    → List Location
    → Outcome (List Location)
clobbered_loop zero parents block seen stack clobbered = out_of_fuel
clobbered_loop (suc fuel) parents block seen [] clobbered = ok clobbered
clobbered_loop (suc fuel) parents block seen (n ∷ stack) clobbered =
    let skipped = clobbered_loop fuel parents block seen stack clobbered in
    let added =
      clobbered_loop fuel parents block (n ∷ seen) (extend (parents n) stack)
        (update_clobbered (block n) clobbered) in
    if contains seen n then skipped else added

-- The assertion that the node has an immediate dominator comes first. `node.parents[:]` is a stack
-- whose top is the last parent.
unfoldable pub collect_clobbered :
    ℕ → (ℕ → List ℕ) → (ℕ → List Instruction) → ℕ → Option ℕ → Outcome (List Location)
collect_clobbered fuel parents block node none = raised
collect_clobbered fuel parents block node (some imdom) =
    clobbered_loop fuel parents block (imdom ∷ []) (extend (parents node) []) []

unfoldable pub locs_clobbered_until_dominator :
    ℕ → (ℕ → List ℕ) → (ℕ → List Instruction) → (ℕ → Option ℕ) → ℕ → Outcome (List Location)
locs_clobbered_until_dominator fuel parents block immediate_dominator node =
    collect_clobbered fuel parents block node (immediate_dominator node)
