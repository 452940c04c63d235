-- ===== src/Examples/Phi.antt =====
-- phi_loc_sources (m2c/flow_graph.py) on the join of a small graph.
use m2c.Prelude.{
  ℕ, zero, suc, ◌≡◌, refl, ◌↔◌, ◌⊎◌, true, Option, none, some, [], ◌∷◌, contains, ok, arith,
}
use m2c.Asm.{Location, reg}
use m2c.Flow.RefSet
use m2c.Flow.RefSet.{Reference, prologue_ref, instr_ref, reference_eq, RefSet, update}
use m2c.Flow.Reach.{extend}
use m2c.Flow.Phi.{InstructionRefs, last_touch, phi_loop, phi_from, phi_loc_sources}
use m2c.Flow.Phi.Writers.{SpoiledAt, ComesTo, phi_loc_sources_lem}
use m2c.Examples.Blocks.{plain, here}
use m2c.Examples.Graph.{parents_of, parents_below}

abbrev r3 : Location
r3 = reg (record { register_name = "r3" })

-- Node 1 writes r3, and so does node 2; node 0 leaves it alone.
abbrev refs_of : ℕ → InstructionRefs
refs_of zero = []
refs_of (suc n) = (instr_ref n, record (plain "li" [] here) { outputs = r3 ∷ [] }) ∷ []

abbrev dominator_of : ℕ → Option ℕ
dominator_of zero = none
dominator_of (suc n) = some 0

abbrev at_entry : RefSet
at_entry = prologue_ref r3 ∷ []

phi_loc_sources_example :
    (sources : RefSet) × (phi_loc_sources 20 parents_of refs_of dominator_of 3 r3 at_entry
      ≡ ok sources)
    × (SpoiledAt parents_of refs_of r3 0 at_entry 4 3 × (sources ≡ [])
        ⊎ (¬ SpoiledAt parents_of refs_of r3 0 at_entry 4 3)
          × ((r : Reference)
              → (contains sources r ≡ true) ↔ ComesTo parents_of refs_of r3 0 at_entry 4 3 r))
phi_loc_sources_example =
    phi_loc_sources_lem parents_of refs_of r3 0 at_entry 20 4 dominator_of 3 refl (omega arith)
      parents_below (omega arith)

sources_at_join :
    phi_loc_sources 20 parents_of refs_of dominator_of 3 r3 at_entry
    ≡ ok (instr_ref 1 ∷ instr_ref 0 ∷ [])
unfolding phi_loc_sources phi_from phi_loop extend last_touch RefSet.add update
sources_at_join = refl
