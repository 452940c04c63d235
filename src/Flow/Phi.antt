-- ===== src/Flow/Phi.antt =====
-- m2c/flow_graph.py: phi_loc_sources, where the value of a location at a node may come from.
pub mod Correct
pub mod Touches
pub mod Writers
use m2c.Prelude.{
  ℕ, zero, suc, Bool, true, false, List, [], ◌∷◌, nat_eq, nat_beq, contains, if◌then◌else◌, Option,
  none, some, Outcome, ok, raised, out_of_fuel,
}
use m2c.Asm.{Location, location_eq, Instruction}
use m2c.Flow.RefSet
use m2c.Flow.RefSet.{Reference, RefSet, update}
use m2c.Flow.LocationRefs.{is_nonempty}
use m2c.Flow.Reach.{extend}

-- The references of a block, each with its instruction.
abbrev pub InstructionRefs : Type 0
InstructionRefs = List (Reference × Instruction)

-- What the scan over a block from its end finds.
pub data Touch : Type 0 where
  written_by : Reference → Touch
  clobbered untouched : Touch

unfoldable pub last_touch : Location → InstructionRefs → Touch
last_touch loc [] = untouched
last_touch loc ((ref, i) ∷ refs) = elim (last_touch loc refs) [
  | written_by later ↦ written_by later
  | clobbered ↦ clobbered
  | untouched ↦
      if contains i.outputs loc
      then written_by ref
      else if contains i.clobbers loc
      then clobbered
      else untouched
]

module _ (parents : ℕ → List ℕ) (block : ℕ → InstructionRefs) (loc : Location) (imdom : ℕ)
    (imdom_srcs : RefSet) where
  unfoldable pub phi_loop : ℕ → List ℕ → List ℕ → RefSet → Outcome RefSet
  phi_loop zero seen stack sources = out_of_fuel
  phi_loop (suc fuel) seen [] sources = ok sources
  phi_loop (suc fuel) seen (n ∷ stack) sources =
      let skipped = phi_loop fuel seen stack sources in
      let dominated = phi_loop fuel (n ∷ seen) stack (update imdom_srcs sources) in
      let onward = phi_loop fuel (n ∷ seen) (extend (parents n) stack) sources in
      if contains seen n
      then skipped
      else if nat_beq n imdom
      then if is_nonempty imdom_srcs then dominated else ok []
      else elim (last_touch loc (block n)) [
        | written_by ref ↦ phi_loop fuel (n ∷ seen) stack (RefSet.add ref sources)
        | clobbered ↦ ok []
        | untouched ↦ onward
      ]

unfoldable pub phi_from :
    ℕ → (ℕ → List ℕ) → (ℕ → InstructionRefs) → ℕ → Location → RefSet → Option ℕ → Outcome RefSet
phi_from fuel parents block node loc imdom_srcs none = raised
phi_from fuel parents block node loc imdom_srcs (some imdom) =
    phi_loop parents block loc imdom imdom_srcs fuel [] (extend (parents node) []) []

unfoldable pub phi_loc_sources :
    ℕ
    → (ℕ → List ℕ)
    → (ℕ → InstructionRefs)
    → (ℕ → Option ℕ)
    → ℕ
    → Location
    → RefSet
    → Outcome RefSet
phi_loc_sources fuel parents block immediate_dominator node loc imdom_srcs =
    phi_from fuel parents block node loc imdom_srcs (immediate_dominator node)
