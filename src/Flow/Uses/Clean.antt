-- ===== src/Flow/Uses/Clean.antt =====
-- The dictionary of one reference: each location has one entry, and each entry is free of
-- repetitions.
use m2c.Prelude.{
  ◌≡◌, refl, ◌∙◌, subst, inl, inr, Bool, false, ◌&&◌, ◌||◌, [], ◌∷◌, ◌++◌, ◌==◌, contains,
  contains-append, Bool-cases, beq_comm, arith,
}
use m2c.Prelude.Dict.{Map, lookup, insert}
use m2c.Asm.{Location, location_eq}
use m2c.Flow.RefSet
use m2c.Flow.RefSet.{Reference, reference_eq, RefSet}
use m2c.Flow.LocationRefs
use m2c.Flow.LocationRefs.{LocationRefSetDict}
use m2c.Flow.Uses.{dict_at, add_at}
use m2c.Flow.Uses.Views.{stored, add-eq-insert, dict_at-insert}

-- No reference stands twice in the list.
abbrev pub IsUnique : RefSet → Type 0
IsUnique [] = Unit {0}
IsUnique (r ∷ refs) = (contains refs r ≡ false) × IsUnique refs

append-IsUnique :
    (refs : RefSet) (r : Reference)
    → IsUnique refs
    → contains refs r ≡ false
    → IsUnique (refs ++ r ∷ [])
append-IsUnique [] r u h = (refl, tt)
append-IsUnique (x ∷ refs) r u h = (
  contains-append refs (r ∷ []) x ∙ ground (arith, beq_comm r x),
  append-IsUnique refs r u.1 (ground arith),
)

add-IsUnique : (refs : RefSet) (r : Reference) → IsUnique refs → IsUnique (RefSet.add r refs)
unfolding RefSet.add
add-IsUnique refs r u = elim (Bool-cases (contains refs r)) [
  | inl old ↦ rw old u
  | inr new ↦ rw new (append-IsUnique refs r u new)
]

pub stored-IsUnique :
    (loc : Location) (r : Reference) (d : LocationRefSetDict)
    → IsUnique (LocationRefs.get loc d)
    → IsUnique (stored loc r d)
stored-IsUnique loc r d u = elim (Bool-cases (LocationRefs.has loc d)) [
  | inl old ↦ rw old (add-IsUnique (LocationRefs.get loc d) r u)
  | inr new ↦ rw new (refl, tt)
]

abbrev pub has_key : Location → LocationRefSetDict → Bool
has_key l [] = false
has_key l ((loc, _) ∷ items) = loc == l || has_key l items

abbrev pub IsClean : LocationRefSetDict → Type 0
IsClean [] = Unit {0}
IsClean ((loc, srcs) ∷ items) = IsUnique srcs × (has_key loc items ≡ false) × IsClean items

has_key-insert :
    (k l : Location) (refs : RefSet) (d : LocationRefSetDict)
    → has_key l (insert k refs d) ≡ (k == l || has_key l d)
unfolding insert
has_key-insert k l refs [] = refl
has_key-insert k l refs ((loc, srcs) ∷ d) = elim (Bool-cases (loc == k)) [
  | inl here ↦ rw (here, (location_eq.same_iff loc k).0 here) (ground arith)
  | inr away ↦ rw (away, has_key-insert k l refs d) (ground arith)
]

insert-IsClean :
    (k : Location) (refs : RefSet) (d : LocationRefSetDict)
    → IsUnique refs
    → IsClean d
    → IsClean (insert k refs d)
unfolding insert
insert-IsClean k refs [] u c = (u, refl, tt)
insert-IsClean k refs ((loc, srcs) ∷ d) u (us, fresh, c) = elim (Bool-cases (loc == k)) [
  | inl here ↦ rw here (u, fresh, c)
  | inr away ↦ rw away (
    us,
    has_key-insert k loc refs d ∙ rw (beq_comm k loc, away) fresh,
    insert-IsClean k refs d u c,
  )
]

get-IsUnique : (l : Location) (d : LocationRefSetDict) → IsClean d → IsUnique (LocationRefs.get l d)
unfolding LocationRefs.get lookup
get-IsUnique l [] c = tt
get-IsUnique l ((loc, srcs) ∷ d) (u, fresh, c) = elim (Bool-cases (loc == l)) [
  | inl here ↦ rw here u
  | inr away ↦ rw away (get-IsUnique l d c)
]

pub add-IsClean :
    (loc : Location) (r : Reference) (d : LocationRefSetDict)
    → IsClean d
    → IsClean (LocationRefs.add loc r d)
add-IsClean loc r d c =
    rw (add-eq-insert loc r d)
      (insert-IsClean loc (stored loc r d) d (stored-IsUnique loc r d (get-IsUnique loc d c)) c)

-- Some entry at the location holds the source.
abbrev pub listed : LocationRefSetDict → Reference → Location → Bool
listed [] s l = false
listed ((loc, srcs) ∷ items) s l = loc == l && contains srcs s || listed items s l

pub listed-has_key :
    (d : LocationRefSetDict) (s : Reference) (l : Location)
    → has_key l d ≡ false
    → listed d s l ≡ false
listed-has_key [] s l h = refl
listed-has_key ((loc, srcs) ∷ d) s l h = elim (Bool-cases (loc == l)) [
  | inl here ↦ cc
  | inr away ↦ rw away (listed-has_key d s l (rw away at h))
]

pub listed-eq-get :
    (d : LocationRefSetDict) (s : Reference) (l : Location)
    → IsClean d
    → listed d s l ≡ contains (LocationRefs.get l d) s
unfolding LocationRefs.get lookup
listed-eq-get [] s l c = refl
listed-eq-get ((loc, srcs) ∷ d) s l (u, fresh, c) = elim (Bool-cases (loc == l)) [
  | inl here ↦
      let e = (location_eq.same_iff loc l).0 here in
      rw (here, listed-has_key d s l (subst (λ k. has_key k d ≡ false) e fresh))
        (or_false (contains srcs s))
  | inr away ↦ rw away (listed-eq-get d s l c)
]
  where
    or_false : (b : Bool) → (b || false) ≡ b
    or_false b = ground arith

pub add_at-IsClean :
    (ref : Reference) (loc : Location) (other : Reference) (m : Map Reference LocationRefSetDict)
    → ((r : Reference) → IsClean (dict_at r m))
    → (r : Reference) → IsClean (dict_at r (add_at ref loc other m))
unfolding add_at
add_at-IsClean ref loc other m c r =
    rw (dict_at-insert ref r (LocationRefs.add loc other (dict_at ref m)) m)
      (elim (Bool-cases (ref == r)) [
        | inl here ↦ rw here (add-IsClean loc other (dict_at ref m) (c ref))
        | inr away ↦ rw away (c r)
      ])
