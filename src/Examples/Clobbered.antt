-- ===== src/Examples/Clobbered.antt =====
-- locs_clobbered_until_dominator (m2c/flow_graph.py) on the join of a small graph.
use m2c.Prelude.{ℕ, zero, suc, ◌≡◌, refl, ◌↔◌, Option, none, some, List, [], ◌∷◌, In, ok, arith}
use m2c.Asm.{Location, reg, Instruction}
use m2c.Flow.Reach.{extend}
use m2c.Flow.Reach.Correct.{Reaches}
use m2c.Flow.Clobbered.{
  update_clobbered, clobbered_loop, collect_clobbered, locs_clobbered_until_dominator,
}
use m2c.Flow.Clobbered.Correct.{Changes, locs_clobbered_until_dominator_lem}
use m2c.Examples.Blocks.{plain, here}
use m2c.Examples.Graph.{parents_of, parents_below}

abbrev register_of : ℕ → Location
register_of zero = reg (record { register_name = "r0" })
register_of (suc n) = reg (record { register_name = "r3" })

-- Node 0 writes r0, the other nodes write r3.
abbrev block_of : ℕ → List Instruction
block_of n = record (plain "li" [] here) { outputs = register_of n ∷ [] } ∷ []

abbrev dominator_of : ℕ → Option ℕ
dominator_of zero = none
dominator_of (suc n) = some 0

locs_clobbered_until_dominator_example :
    (locs : List Location) × (locs_clobbered_until_dominator 20 parents_of block_of dominator_of 3
      ≡ ok locs)
    × ((loc : Location)
        → In loc locs
          ↔ ((n : ℕ) × Reaches 4 parents_of (parents_of 3) 0 n × Changes (block_of n) loc))
locs_clobbered_until_dominator_example =
    locs_clobbered_until_dominator_lem parents_of block_of 0 20 4 dominator_of 3 refl (omega arith)
      parents_below (omega arith)

clobbered_at_join :
    locs_clobbered_until_dominator 20 parents_of block_of dominator_of 3
    ≡ ok (register_of 1 ∷ register_of 3 ∷ register_of 2 ∷ [])
unfolding locs_clobbered_until_dominator collect_clobbered clobbered_loop extend update_clobbered
clobbered_at_join = refl
