-- ===== src/Flow/LocationRefs.antt =====
-- m2c/flow_graph.py: LocationRefSetDict, a map from locations to sets of references.
use m2c.Prelude.{Bool, true, false, not, ◌&&◌, Option, none, some, [], ◌∷◌, if◌then◌else◌}
use m2c.Prelude.Dict
use m2c.Prelude.Dict.{Map, lookup, insert}
use m2c.Asm.{Location, location_eq}
use m2c.Flow.RefSet
use m2c.Flow.RefSet.{Reference, RefSet}

-- LocationRefSetDict: a missing location stands for the empty set.
abbrev pub LocationRefSetDict : Type 0
LocationRefSetDict = Map Location RefSet

abbrev pub or_empty : Option RefSet → RefSet
or_empty (some refs) = refs
or_empty none = []

unfoldable pub get : Location → LocationRefSetDict → RefSet
get loc d = or_empty (lookup loc d)

abbrev pub is_nonempty : RefSet → Bool
is_nonempty [] = false
is_nonempty (_ ∷ _) = true

-- `loc in self`.
unfoldable pub has : Location → LocationRefSetDict → Bool
has loc d = is_nonempty (get loc d)

unfoldable pub add : Location → Reference → LocationRefSetDict → LocationRefSetDict
add loc ref d =
    if not (has loc d) then insert loc (ref ∷ []) d else insert loc (RefSet.add ref (get loc d)) d

unfoldable pub remove : Location → LocationRefSetDict → LocationRefSetDict
remove loc d = Dict.remove loc d

-- is_empty.
unfoldable pub is_empty : LocationRefSetDict → Bool
is_empty [] = true
is_empty ((_, refs) ∷ d) = not (is_nonempty refs) && is_empty d
