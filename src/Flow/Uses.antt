-- ===== src/Flow/Uses.antt =====
-- m2c/flow_graph.py: the two dictionaries of a FlowGraph that say which references the inputs of an
-- instruction come from and where its outputs go.
pub mod Views
pub mod Clean
pub mod Consistency
pub mod Clear
pub mod ClearTotal
use m2c.Prelude.{Option, none, some, [], ◌∷◌, Outcome, ok, raised, ◌>>=◌}
use m2c.Prelude.Dict.{Map, lookup, insert, remove}
use m2c.Asm.{Location, location_eq}
use m2c.Flow.RefSet
use m2c.Flow.RefSet.{Reference, reference_eq, RefSet}
use m2c.Flow.LocationRefs
use m2c.Flow.LocationRefs.{LocationRefSetDict}

-- The two dictionaries of a FlowGraph; both are `defaultdict`s.
pub record UseGraph : Type 0 where
  pub instr_inputs : Map Reference LocationRefSetDict
  pub instr_uses : Map Reference LocationRefSetDict

abbrev pub or_new : Option LocationRefSetDict → LocationRefSetDict
or_new (some d) = d
or_new none = []

abbrev pub dict_at : Reference → Map Reference LocationRefSetDict → LocationRefSetDict
dict_at ref m = or_new (lookup ref m)

-- `m[ref].add(loc, other)`.
unfoldable pub add_at :
    Reference
    → Location
    → Reference
    → Map Reference LocationRefSetDict
    → Map Reference LocationRefSetDict
add_at ref loc other m = insert ref (LocationRefs.add loc other (dict_at ref m)) m

-- Where the value of `loc` at `use` comes from, and which references read `loc` from `src`.
abbrev pub sources : UseGraph → Reference → Location → RefSet
sources g use_ref loc = LocationRefs.get loc (dict_at use_ref g.instr_inputs)

abbrev pub users : UseGraph → Reference → Location → RefSet
users g src loc = LocationRefs.get loc (dict_at src g.instr_uses)

unfoldable pub add_instruction_use : Reference → Location → Reference → UseGraph → UseGraph
add_instruction_use use_ref loc src g = record {
  instr_inputs = add_at use_ref loc src g.instr_inputs;
  instr_uses = add_at src loc use_ref g.instr_uses;
}

-- `self.instr_uses[use].get(loc).remove(ref)`.
unfoldable pub remove_use : Reference → Location → Reference → UseGraph → Outcome UseGraph
remove_use src loc ref g = do
  left ← RefSet.remove ref (users g src loc)
  ok (record g {
    instr_uses = insert src (insert loc left (dict_at src g.instr_uses)) g.instr_uses;
  })

unfoldable pub remove_uses : RefSet → Location → Reference → UseGraph → Outcome UseGraph
remove_uses [] loc ref g = ok g
remove_uses (src ∷ srcs) loc ref g = do g' ← remove_use src loc ref g; remove_uses srcs loc ref g'

unfoldable pub remove_all_uses : LocationRefSetDict → Reference → UseGraph → Outcome UseGraph
remove_all_uses [] ref g = ok g
remove_all_uses ((loc, srcs) ∷ items) ref g = do
  g' ← remove_uses srcs loc ref g
  remove_all_uses items ref g'

unfoldable pub clear_instruction_inputs : Reference → UseGraph → Outcome UseGraph
clear_instruction_inputs ref g = do
  g' ← remove_all_uses (dict_at ref g.instr_inputs) ref g
  ok (record g' { instr_inputs = remove ref g'.instr_inputs })
