-- ===== src/Flow/Uses/Views.antt =====
-- What adding a use changes in either view of the dictionaries.
use m2c.Prelude.{
  ◌≡◌, refl, ◌∙◌, inl, inr, false, not, ◌&&◌, ◌||◌, [], ◌∷◌, ◌==◌, if◌then◌else◌, contains,
  contains-append, contains-eq, Bool-cases, arith,
}
use m2c.Prelude.Dict.{Map, insert, lookup-insert}
use m2c.Asm.{Location, location_eq}
use m2c.Flow.RefSet
use m2c.Flow.RefSet.{Reference, reference_eq, RefSet}
use m2c.Flow.LocationRefs
use m2c.Flow.LocationRefs.{LocationRefSetDict}
use m2c.Flow.Uses.{UseGraph, dict_at, add_at, sources, users, add_instruction_use}

pub contains-add :
    (r x : Reference) (refs : RefSet) → contains (RefSet.add r refs) x ≡ (x == r || contains refs x)
unfolding RefSet.add
contains-add r x refs = elim (Bool-cases (contains refs r)) [
  | inl old ↦ rw old (ground (arith, contains-eq refs r x old))
  | inr new ↦ rw new (contains-append refs (r ∷ []) x ∙ ground arith)
]

pub get-insert :
    (loc l : Location) (refs : RefSet) (d : LocationRefSetDict)
    → LocationRefs.get l (insert loc refs d) ≡ (if loc == l then refs else LocationRefs.get l d)
unfolding LocationRefs.get
get-insert loc l refs d = ground (arith, lookup-insert loc l refs d)

-- The set that is stored under the location.
abbrev pub stored : Location → Reference → LocationRefSetDict → RefSet
stored loc r d =
    if not (LocationRefs.has loc d) then r ∷ [] else RefSet.add r (LocationRefs.get loc d)

pub add-eq-insert :
    (loc : Location) (r : Reference) (d : LocationRefSetDict)
    → LocationRefs.add loc r d ≡ insert loc (stored loc r d) d
unfolding LocationRefs.add
add-eq-insert loc r d = elim (Bool-cases (LocationRefs.has loc d)) [
  | inl old ↦ rw old
  | inr new ↦ rw new
]

contains-empty :
    (refs : RefSet) (x : Reference)
    → LocationRefs.is_nonempty refs ≡ false
    → contains refs x ≡ false
contains-empty [] x h = refl
contains-empty (r ∷ refs) x h = cc

contains-stored :
    (loc : Location) (r x : Reference) (d : LocationRefSetDict)
    → contains (stored loc r d) x ≡ (x == r || contains (LocationRefs.get loc d) x)
unfolding LocationRefs.has
contains-stored loc r x d = elim (Bool-cases (LocationRefs.has loc d)) [
  | inl old ↦ rw old (contains-add r x (LocationRefs.get loc d))
  | inr new ↦ rw (new, contains-empty (LocationRefs.get loc d) x new)
]

pub get-add :
    (loc l : Location) (r : Reference) (d : LocationRefSetDict)
    → LocationRefs.get l (LocationRefs.add loc r d)
      ≡ (if loc == l then stored loc r d else LocationRefs.get l d)
get-add loc l r d = rw (add-eq-insert loc r d) (get-insert loc l (stored loc r d) d)

pub contains-get-add :
    (loc l : Location) (r x : Reference) (d : LocationRefSetDict)
    → contains (LocationRefs.get l (LocationRefs.add loc r d)) x
      ≡ (loc == l && x == r || contains (LocationRefs.get l d) x)
contains-get-add loc l r x d = rw (get-add loc l r d) (elim (Bool-cases (loc == l)) [
  | inl here ↦ rw (here, contains-stored loc r x d) (rw ((location_eq.same_iff loc l).0 here) refl)
  | inr away ↦ rw away
])

pub dict_at-insert :
    (ref r : Reference) (d : LocationRefSetDict) (m : Map Reference LocationRefSetDict)
    → dict_at r (insert ref d m) ≡ (if ref == r then d else dict_at r m)
dict_at-insert ref r d m = ground (arith, lookup-insert ref r d m)

contains-add_at :
    (ref r : Reference) (loc l : Location) (other x : Reference)
    (m : Map Reference LocationRefSetDict)
    → contains (LocationRefs.get l (dict_at r (add_at ref loc other m))) x
      ≡ (ref == r && (loc == l && x == other) || contains (LocationRefs.get l (dict_at r m)) x)
unfolding add_at
contains-add_at ref r loc l other x m =
    rw (dict_at-insert ref r (LocationRefs.add loc other (dict_at ref m)) m)
      (elim (Bool-cases (ref == r)) [
        | inl here ↦
            rw (here, contains-get-add loc l other x (dict_at ref m))
              (rw ((reference_eq.same_iff ref r).0 here) refl)
        | inr away ↦ rw away
      ])

module _ (use_ref : Reference) (loc : Location) (src : Reference) (g : UseGraph) where
  pub sources-add :
      (u : Reference) (l : Location) (s : Reference)
      → contains (sources (add_instruction_use use_ref loc src g) u l) s
        ≡ (use_ref == u && (loc == l && s == src) || contains (sources g u l) s)
  unfolding add_instruction_use
  sources-add u l s = contains-add_at use_ref u loc l src s g.instr_inputs

  pub users-add :
      (s : Reference) (l : Location) (u : Reference)
      → contains (users (add_instruction_use use_ref loc src g) s l) u
        ≡ (src == s && (loc == l && u == use_ref) || contains (users g s l) u)
  unfolding add_instruction_use
  users-add s l u = contains-add_at src s loc l use_ref u g.instr_uses
