-- ===== src/Flow/RefSet.antt =====
-- m2c/flow_graph.py: references to instructions, and RefSet, a set of them kept as a list.
use m2c.Prelude.{
  ℕ, ◌≡◌, ◌↔◌, Bool, true, false, ◌&&◌, Option, none, some, List, [], ◌∷◌, ◌++◌, Eq, ◌==◌, nat_eq,
  nat_beq, nat_beq_iff, if◌then◌else◌, contains, length, Outcome, ok, raised, ◌>>=◌, arith,
}
use m2c.Asm.{Location, location_eq}

-- An InstrRef is compared by identity, which a number stands for.
pub data Reference : Type 0 where
  prologue_ref : Location → Reference
  epilogue_ref : Location → Reference
  instr_ref : ℕ → Reference

abbrev pub reference_beq : Reference → Reference → Bool
reference_beq (prologue_ref a) (prologue_ref b) = a == b
reference_beq (epilogue_ref a) (epilogue_ref b) = a == b
reference_beq (instr_ref a) (instr_ref b) = a == b
reference_beq _ _ = false

pub reference_beq_iff : (a b : Reference) → (reference_beq a b ≡ true) ↔ (a ≡ b)
reference_beq_iff (prologue_ref a) (prologue_ref b) = ground (arith, location_eq.same_iff a b)
reference_beq_iff (epilogue_ref a) (epilogue_ref b) = ground (arith, location_eq.same_iff a b)
reference_beq_iff (instr_ref a) (instr_ref b) = ground (arith, nat_beq_iff a b)
reference_beq_iff (prologue_ref a) (epilogue_ref b) = ground arith
reference_beq_iff (prologue_ref a) (instr_ref b) = ground arith
reference_beq_iff (epilogue_ref a) (prologue_ref b) = ground arith
reference_beq_iff (epilogue_ref a) (instr_ref b) = ground arith
reference_beq_iff (instr_ref a) (prologue_ref b) = ground arith
reference_beq_iff (instr_ref a) (epilogue_ref b) = ground arith

instance abbrev pub reference_eq : Eq Reference
reference_eq = record { same = reference_beq; same_iff = reference_beq_iff }

-- RefSet: a set kept as a list, in the order of insertion.
abbrev pub RefSet : Type 0
RefSet = List Reference

-- get_unique.
unfoldable pub get_unique : RefSet → Option Reference
get_unique (r ∷ []) = some r
get_unique _ = none

unfoldable pub add : Reference → RefSet → RefSet
add ref refs = if contains refs ref then refs else refs ++ ref ∷ []

unfoldable pub update : RefSet → RefSet → RefSet
update [] refs = refs
update (r ∷ other) refs = update other (add r refs)

-- `self.refs.remove(ref)`, which raises if the reference is not there.
unfoldable pub remove : Reference → RefSet → Outcome RefSet
remove ref [] = raised
remove ref (r ∷ refs) =
    let rest = remove ref refs >>= λ left. ok (r ∷ left) in if ref == r then ok refs else rest

-- `__eq__`: as many references, and each of the first set in the second.
unfoldable pub all_in : RefSet → RefSet → Bool
all_in [] other = true
all_in (r ∷ refs) other = contains other r && all_in refs other

unfoldable pub equals : RefSet → RefSet → Bool
equals a b = nat_beq (length a) (length b) && all_in a b
