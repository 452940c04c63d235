-- ===== src/Examples/Flow.antt =====
-- The use graph (m2c/flow_graph.py) on a small function.
use m2c.Prelude.{◌≡◌, refl, true, not, ◌&&◌, some, [], ◌∷◌, ◌==◌, contains, ok}
use m2c.Prelude.Dict.{lookup, insert}
use m2c.Asm.{Location, reg, location_eq}
use m2c.Flow.RefSet
use m2c.Flow.RefSet.{
  Reference, prologue_ref, epilogue_ref, instr_ref, reference_eq, get_unique, update, equals,
  all_in,
}
use m2c.Flow.LocationRefs
use m2c.Flow.Uses.{UseGraph, add_at, sources, add_instruction_use, clear_instruction_inputs}
use m2c.Flow.Uses.Consistency.{IsConsistent, empty-IsConsistent, add_instruction_use-IsConsistent}
use m2c.Flow.Uses.ClearTotal.{clear_instruction_inputs_lem}

abbrev a0 : Location
a0 = reg (record { register_name = "a0" })

abbrev no_uses : UseGraph
no_uses = record { instr_inputs = []; instr_uses = [] }

-- Instruction 1 reads a0 as the caller left it, and instruction 2 reads a0 from instruction 1.
abbrev first_use : UseGraph
first_use = add_instruction_use (instr_ref 1) a0 (prologue_ref a0) no_uses

abbrev two_uses : UseGraph
two_uses = add_instruction_use (instr_ref 2) a0 (instr_ref 1) first_use

add_instruction_use-IsConsistent_example : IsConsistent first_use
add_instruction_use-IsConsistent_example =
    add_instruction_use-IsConsistent (instr_ref 1) a0 (prologue_ref a0) no_uses empty-IsConsistent

clear_instruction_inputs_example :
    (g' : UseGraph) × (clear_instruction_inputs (instr_ref 2) two_uses ≡ ok g')
    × IsConsistent g'
    × ((u : Reference) (l : Location) (s : Reference)
        → contains (sources g' u l) s
          ≡ (not (u == instr_ref 2) && contains (sources two_uses u l) s))
clear_instruction_inputs_example = clear_instruction_inputs_lem (instr_ref 2) two_uses (
    add_instruction_use-IsConsistent (instr_ref 2) a0 (instr_ref 1) first_use
      add_instruction_use-IsConsistent_example)

unique_source : get_unique (sources two_uses (instr_ref 2) a0) ≡ some (instr_ref 1)
unfolding get_unique LocationRefs.get lookup add_instruction_use add_at LocationRefs.add
    LocationRefs.has insert RefSet.add
unique_source = refl

same_sets :
    equals (update (instr_ref 1 ∷ []) (instr_ref 2 ∷ [])) (instr_ref 1 ∷ instr_ref 2 ∷ []) ≡ true
unfolding equals all_in update RefSet.add
same_sets = refl
