-- ===== src/Flow/Phi/Touches.antt =====
-- What the scan over a block in phi_loc_sources (m2c/flow_graph.py) finds, by what the instructions write
-- and clobber.
use m2c.Prelude.{
  ◌≡◌, refl, sym, ◌∙◌, ap, subst, inl, inr, Bool, true, false, not, ◌&&◌, [], ◌∷◌, ◌++◌, nat_eq,
  contains, if◌then◌else◌, Bool-cases, arith,
}
use m2c.Asm.{Location, location_eq, Instruction}
use m2c.Flow.RefSet.{Reference, reference_eq}
use m2c.Flow.Phi.{InstructionRefs, Touch, written_by, clobbered, untouched, last_touch}

-- No instruction writes or clobbers the location.
pub leaves_alone : Location → InstructionRefs → Bool
leaves_alone loc [] = true
leaves_alone loc ((ref, i) ∷ refs) =
    not (contains i.outputs loc) && (not (contains i.clobbers loc) && leaves_alone loc refs)

-- An instruction writes the location, and those behind it leave it alone.
abbrev pub WrittenLast : Location → InstructionRefs → Reference → Type 0
WrittenLast loc refs ref =
    (front : InstructionRefs) × (i : Instruction) × (back : InstructionRefs) × (refs
      ≡ front ++ (ref, i) ∷ back)
    × (contains i.outputs loc ≡ true)
    × (leaves_alone loc back ≡ true)

-- An instruction clobbers the location without writing it, and those behind it leave it alone.
abbrev pub ClobberedLast : Location → InstructionRefs → Type 0
ClobberedLast loc refs =
    (front : InstructionRefs) × (ref : Reference) × (i : Instruction) × (back : InstructionRefs)
    × (refs ≡ front ++ (ref, i) ∷ back)
    × (contains i.outputs loc ≡ false)
    × (contains i.clobbers loc ≡ true)
    × (leaves_alone loc back ≡ true)

abbrev is_untouched : Touch → Bool
is_untouched untouched = true
is_untouched (written_by ref) = false
is_untouched clobbered = false

abbrev touch : Location → Reference × Instruction → Touch → Touch
touch loc (ref, i) (written_by later) = written_by later
touch loc (ref, i) clobbered = clobbered
touch loc (ref, i) untouched =
    if contains i.outputs loc
    then written_by ref
    else if contains i.clobbers loc
    then clobbered
    else untouched

last_touch-touch :
    (loc : Location) (r : Reference × Instruction) (refs : InstructionRefs)
    → last_touch loc (r ∷ refs) ≡ touch loc r (last_touch loc refs)
unfolding last_touch
last_touch-touch loc (ref, i) refs = same (last_touch loc refs)
  where
    same :
        (t : Touch)
        → (elim t as (λ _. Touch) [
          | written_by later ↦ written_by later
          | clobbered ↦ clobbered
          | untouched ↦
              if contains i.outputs loc
              then written_by ref
              else if contains i.clobbers loc
              then clobbered
              else untouched
        ])
          ≡ touch loc (ref, i) t
    same (written_by later) = refl
    same clobbered = refl
    same untouched = refl

pub leaves_alone-untouched :
    (loc : Location) (refs : InstructionRefs)
    → leaves_alone loc refs ≡ true
    → last_touch loc refs ≡ untouched
unfolding leaves_alone last_touch
leaves_alone-untouched loc [] h = refl
leaves_alone-untouched loc ((ref, i) ∷ refs) h =
    last_touch-touch loc (ref, i) refs
    ∙ ap (touch loc (ref, i)) (leaves_alone-untouched loc refs (ground (arith, h)))
    ∙ rw (quiet (contains i.outputs loc) (contains i.clobbers loc) h).0
        (rw (quiet (contains i.outputs loc) (contains i.clobbers loc) h).1 refl)
  where
    quiet :
        (a b : Bool)
        → (not a && (not b && leaves_alone loc refs)) ≡ true
        → (a ≡ false) × (b ≡ false)
    quiet a b e = (ground (arith, e), ground (arith, e))

pub untouched-leaves_alone :
    (loc : Location) (refs : InstructionRefs)
    → last_touch loc refs ≡ untouched
    → leaves_alone loc refs ≡ true
unfolding leaves_alone last_touch
untouched-leaves_alone loc [] h = refl
untouched-leaves_alone loc ((ref, i) ∷ refs) h =
    read (last_touch loc refs) (untouched-leaves_alone loc refs)
      (sym (last_touch-touch loc (ref, i) refs) ∙ h)
  where
    read :
        (t : Touch)
        → (t ≡ untouched → leaves_alone loc refs ≡ true)
        → touch loc (ref, i) t ≡ untouched
        → (not (contains i.outputs loc) && (not (contains i.clobbers loc) && leaves_alone loc refs))
          ≡ true
    read (written_by later) ih e = cc
    read clobbered ih e = cc
    read untouched ih e = elim (Bool-cases (contains i.outputs loc)) [
      | inl w ↦ absurd (other (rw w at e))
      | inr w ↦ elim (Bool-cases (contains i.clobbers loc)) [
        | inl c ↦ absurd (clobber (rw (w, c) at e))
        | inr c ↦ ground (arith, w, c, ih refl)
      ]
    ]
      where
        other : written_by ref ≡ untouched → ⊥
        other x = cc

        clobber : clobbered ≡ untouched → ⊥
        clobber x = cc

-- A touch that is not overwritten by what stands before it.
last_touch-append :
    (loc : Location) (front refs : InstructionRefs)
    → is_untouched (last_touch loc refs) ≡ false
    → last_touch loc (front ++ refs) ≡ last_touch loc refs
last_touch-append loc [] refs h = refl
last_touch-append loc (r ∷ front) refs h =
    last_touch-touch loc r (front ++ refs)
    ∙ ap (touch loc r) (last_touch-append loc front refs h)
    ∙ kept (last_touch loc refs) h
  where
    kept : (t : Touch) → is_untouched t ≡ false → touch loc r t ≡ t
    kept (written_by later) e = refl
    kept clobbered e = refl
    kept untouched e = cc

pub WrittenLast-written_by :
    (loc : Location) (refs : InstructionRefs) (r : Reference)
    → WrittenLast loc refs r
    → last_touch loc refs ≡ written_by r
WrittenLast-written_by loc refs r (front, i, back, e, w, alone) =
    ap (last_touch loc) e
    ∙ last_touch-append loc front ((r, i) ∷ back) (ap is_untouched here)
    ∙ here
  where
    here : last_touch loc ((r, i) ∷ back) ≡ written_by r
    here =
        last_touch-touch loc (r, i) back
        ∙ ap (touch loc (r, i)) (leaves_alone-untouched loc back alone)
        ∙ rw w refl

pub ClobberedLast-clobbered :
    (loc : Location) (refs : InstructionRefs)
    → ClobberedLast loc refs
    → last_touch loc refs ≡ clobbered
ClobberedLast-clobbered loc refs (front, r, i, back, e, w, c, alone) =
    ap (last_touch loc) e
    ∙ last_touch-append loc front ((r, i) ∷ back) (ap is_untouched here)
    ∙ here
  where
    here : last_touch loc ((r, i) ∷ back) ≡ clobbered
    here =
        last_touch-touch loc (r, i) back
        ∙ ap (touch loc (r, i)) (leaves_alone-untouched loc back alone)
        ∙ rw (w, c) refl

-- What a touch says of the instructions.
abbrev pub TouchOf : Location → InstructionRefs → Touch → Type 0
TouchOf loc refs (written_by r) = WrittenLast loc refs r
TouchOf loc refs clobbered = ClobberedLast loc refs
TouchOf loc refs untouched = leaves_alone loc refs ≡ true

pub last_touch-TouchOf :
    (loc : Location) (refs : InstructionRefs) → TouchOf loc refs (last_touch loc refs)
unfolding last_touch leaves_alone
last_touch-TouchOf loc [] = refl
last_touch-TouchOf loc ((ref, i) ∷ refs) =
    subst (TouchOf loc ((ref, i) ∷ refs)) (sym (last_touch-touch loc (ref, i) refs))
      (read (last_touch loc refs) (last_touch-TouchOf loc refs))
  where
    still :
        (a b : Bool)
        → a ≡ false
        → b ≡ false
        → leaves_alone loc refs ≡ true
        → (not a && (not b && leaves_alone loc refs)) ≡ true
    still a b ea eb h = ground arith

    read : (t : Touch) → TouchOf loc refs t → TouchOf loc ((ref, i) ∷ refs) (touch loc (ref, i) t)
    read (written_by r) (front, j, back, e, w, alone) =
        ((ref, i) ∷ front, j, back, ap (λ t. (ref, i) ∷ t) e, w, alone)
    read clobbered (front, r, j, back, e, w, c, alone) =
        ((ref, i) ∷ front, r, j, back, ap (λ t. (ref, i) ∷ t) e, w, c, alone)
    read untouched alone = elim (Bool-cases (contains i.outputs loc)) [
      | inl w ↦ rw w ([], i, refs, refl, w, alone)
      | inr w ↦ elim (Bool-cases (contains i.clobbers loc)) [
        | inl c ↦ rw (w, c) ([], ref, i, refs, refl, w, c, alone)
        | inr c ↦ rw (w, c) (still (contains i.outputs loc) (contains i.clobbers loc) w c alone)
      ]
    ]
