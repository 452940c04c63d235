-- ===== src/Flow/Phi/Correct.antt =====
-- phi_loc_sources returns the sources that reach the node, or nothing where one path spoils them.
use m2c.Prelude.{
  ℕ, zero, suc, ◌+◌, ◌≤◌, ◌<◌, ◌≡◌, refl, sym, ◌∙◌, ap, subst, ◌⊎◌, inl, inr, ◌↔◌, Bool, true,
  false, not, ◌||◌, Option, some, List, [], ◌∷◌, ◌==◌, nat_eq, nat_beq, contains, length, In,
  if◌then◌else◌, Bool-cases, ok, ok-injective, arith,
}
use m2c.Asm.{Location, location_eq}
use m2c.Flow.RefSet
use m2c.Flow.RefSet.{Reference, reference_eq, RefSet, update}
use m2c.Flow.LocationRefs.{is_nonempty}
use m2c.Flow.Uses.Views.{contains-add}
use m2c.Flow.Reach.{extend, reach_loop}
use m2c.Flow.Reach.Correct.{
  Closed, Reaches, weight, reach_from_roots, In-extend, In-extend_new, length-extend,
}
use m2c.Flow.Phi.{
  InstructionRefs, Touch, written_by, clobbered, untouched, last_touch, phi_loop, phi_from,
  phi_loc_sources,
}

contains-update :
    (other refs : RefSet) (r : Reference)
    → contains (update other refs) r ≡ (contains other r || contains refs r)
unfolding update
contains-update [] refs r = refl
contains-update (o ∷ other) refs r =
    contains-update other (RefSet.add o refs) r
    ∙ rw (contains-add o r refs) (swap (contains other r) (r == o) (contains refs r))
  where
    swap : (a b c : Bool) → (a || (b || c)) ≡ (b || a || c)
    swap a b c = ground arith

module _ (parents : ℕ → List ℕ) (block : ℕ → InstructionRefs) (loc : Location) (imdom : ℕ)
    (imdom_srcs : RefSet) where
  -- A path goes on behind a node that is not the dominator and leaves the location alone.
  abbrev pub open_parents : ℕ → List ℕ
  open_parents n = if nat_beq n imdom then [] else elim (last_touch loc (block n)) [
    | untouched ↦ parents n
    | written_by _ ↦ []
    | clobbered ↦ []
  ]

  -- The node makes the location unusable: it clobbers it, or is the dominator and had no source.
  abbrev pub spoils : ℕ → Bool
  spoils n =
      if nat_beq n imdom then not (is_nonempty imdom_srcs) else elim (last_touch loc (block n)) [
        | untouched ↦ false
        | written_by _ ↦ false
        | clobbered ↦ true
      ]

  -- The node contributes the reference.
  abbrev pub gives : ℕ → Reference → Bool
  gives n r = if nat_beq n imdom then contains imdom_srcs r else elim (last_touch loc (block n)) [
    | untouched ↦ false
    | written_by ref ↦ r == ref
    | clobbered ↦ false
  ]

  abbrev give : ℕ → RefSet → RefSet
  give n sources =
      if nat_beq n imdom then update imdom_srcs sources else elim (last_touch loc (block n)) [
        | untouched ↦ sources
        | written_by ref ↦ RefSet.add ref sources
        | clobbered ↦ sources
      ]

  contains-give :
      (n : ℕ) (sources : RefSet) (r : Reference)
      → contains (give n sources) r ≡ (gives n r || contains sources r)
  contains-give n sources r = elim (Bool-cases (nat_beq n imdom)) [
    | inl at ↦ rw at (contains-update imdom_srcs sources r)
    | inr away ↦ rw away (touched (last_touch loc (block n)))
  ]
    where
      touched :
          (t : Touch)
          → contains
              (elim t [
                | untouched ↦ sources
                | written_by ref ↦ RefSet.add ref sources
                | clobbered ↦ sources
              ])
              r
            ≡ ((elim t [ untouched ↦ false | written_by ref ↦ r == ref | clobbered ↦ false ])
                || contains sources r)
      touched untouched = refl
      touched (written_by ref) = contains-add ref r sources
      touched clobbered = refl

  abbrev some_spoils : List ℕ → Bool
  some_spoils [] = false
  some_spoils (n ∷ ns) = spoils n || some_spoils ns

  abbrev given : List ℕ → RefSet
  given [] = []
  given (n ∷ ns) = give n (given ns)

  -- What a node that is not spoiling makes the loop do.
  phi_step :
      (fuel : ℕ) (seen : List ℕ) (n : ℕ) (stack : List ℕ) (sources : RefSet)
      → contains seen n ≡ false
      → phi_loop parents block loc imdom imdom_srcs (suc fuel) seen (n ∷ stack) sources ≡ (
          if spoils n
          then ok []
          else phi_loop parents block loc imdom imdom_srcs fuel
              (n ∷ seen)
              (extend (open_parents n) stack)
              (give n sources))
  unfolding phi_loop extend
  phi_step fuel seen n stack sources new = rw new (elim (Bool-cases (nat_beq n imdom)) [
    | inl at ↦
        rw at
          (elim (Bool-cases (is_nonempty imdom_srcs)) [ inl full ↦ rw full | inr empty ↦ rw empty ])
    | inr away ↦ rw away (touched (last_touch loc (block n)))
  ])
    where
      touched :
          (t : Touch)
          → (elim t [
            | written_by ref ↦
                phi_loop parents block loc imdom imdom_srcs fuel
                  (n ∷ seen)
                  stack
                  (RefSet.add ref sources)
            | clobbered ↦ ok []
            | untouched ↦
                phi_loop parents block loc imdom imdom_srcs fuel
                  (n ∷ seen)
                  (extend (parents n) stack)
                  sources
          ])
            ≡ (if (elim t [ untouched ↦ false | written_by _ ↦ false | clobbered ↦ true ])
                then ok []
                else phi_loop parents block loc imdom imdom_srcs fuel
                    (n ∷ seen)
                    (extend
                      (elim t [ untouched ↦ parents n | written_by _ ↦ [] | clobbered ↦ [] ])
                      stack)
                    (elim t [
                      | untouched ↦ sources
                      | written_by ref ↦ RefSet.add ref sources
                      | clobbered ↦ sources
                    ]))
      touched untouched = refl
      touched (written_by ref) = refl
      touched clobbered = refl

  module _ (nnodes : ℕ) where
    spoiled_stays :
        (fuel : ℕ) (seen stack final : List ℕ)
        → reach_loop fuel open_parents nnodes seen stack ≡ ok final
        → some_spoils seen ≡ true
        → some_spoils final ≡ true
    unfolding reach_loop
    spoiled_stays zero seen stack final e h = cc
    spoiled_stays (suc fuel) seen [] final e h = ap some_spoils (sym (ok-injective e)) ∙ h
    spoiled_stays (suc fuel) seen (n ∷ stack) final e h =
        elim (Bool-cases (n == nnodes || contains seen n)) [
          | inl skip ↦ spoiled_stays fuel seen stack final (rw skip at e) h
          | inr new ↦
              spoiled_stays fuel (n ∷ seen) (extend (open_parents n) stack) final (rw new at e)
                (ground arith)
        ]

    abbrev result : List ℕ → RefSet
    result final = if some_spoils final then [] else given final

    phi_loop-result :
        (fuel : ℕ) (seen stack final : List ℕ)
        → ((v p : ℕ) → v < nnodes → In p (open_parents v) → p < nnodes)
        → ((v : ℕ) → In v stack → v < nnodes)
        → reach_loop fuel open_parents nnodes seen stack ≡ ok final
        → some_spoils seen ≡ false
        → phi_loop parents block loc imdom imdom_srcs fuel seen stack (given seen)
          ≡ ok (result final)
    unfolding phi_loop reach_loop
    phi_loop-result zero seen stack final graph below e h = cc
    phi_loop-result (suc fuel) seen [] final graph below e h =
        ap ok (ap (λ b. if b then [] else given seen) (sym h))
        ∙ ap (λ f. ok (result f)) (ok-injective e)
    phi_loop-result (suc fuel) seen (n ∷ stack) final graph below e h =
        elim (Bool-cases (contains seen n)) [
          | inl old ↦ rw old (
              phi_loop-result fuel seen stack final graph (λ v m. below v (inr m))
                (rw (skipped old) at e) h)
          | inr new ↦ phi_step fuel seen n stack (given seen) new ∙ elim (Bool-cases (spoils n)) [
            | inl bad ↦ rw bad (
                ap (λ b. ok (if b then [] else given final))
                  (sym (
                    spoiled_stays fuel (n ∷ seen) (extend (open_parents n) stack) final
                      (rw (taken new) at e) (rw bad refl))))
            | inr good ↦ rw good (
                phi_loop-result fuel (n ∷ seen) (extend (open_parents n) stack) final graph
                  (λ v m. inside v (In-extend v (open_parents n) stack m)) (rw (taken new) at e)
                  (rw good h))
          ]
        ]
      where
        skipped : contains seen n ≡ true → (n == nnodes || contains seen n) ≡ true
        skipped old = ground arith

        taken : contains seen n ≡ false → (n == nnodes || contains seen n) ≡ false
        taken new = ground (arith, below n (inl refl))

        inside : (v : ℕ) → In v (open_parents n) ⊎ In v stack → v < nnodes
        inside v (inl m) = graph n v (below n (inl refl)) m
        inside v (inr m) = below v (inr m)

  spoils-In : (n : ℕ) (final : List ℕ) → In n final → spoils n ≡ true → some_spoils final ≡ true
  spoils-In n [] m h = elim m [ ]
  spoils-In n (x ∷ final) (inl e) h = ground (arith, subst (λ y. spoils y ≡ true) e h)
  spoils-In n (x ∷ final) (inr m) h = ground (arith, spoils-In n final m h)

  some_spoils-In :
      (final : List ℕ) → some_spoils final ≡ true → (n : ℕ) × In n final × (spoils n ≡ true)
  some_spoils-In [] h = cc
  some_spoils-In (x ∷ final) h = elim (Bool-cases (spoils x)) [
    | inl bad ↦ (x, inl refl, bad)
    | inr good ↦ let (n, m, s) = some_spoils-In final (rw good at h) in (n, inr m, s)
  ]

  given-In :
      (final : List ℕ) (r : Reference)
      → (contains (given final) r ≡ true) ↔ ((n : ℕ) × In n final × (gives n r ≡ true))
  given-In [] r = (λ h. cc, λ c. elim (c.1) [ ])
  given-In (x ∷ final) r =
      let ih = given-In final r in
      (
        λ h. onward ih.0 (sym (contains-give x (given final) r) ∙ h),
        λ c. contains-give x (given final) r ∙ back (c.0) (c.1) (c.2) ih.1,
      )
    where
      onward :
          (contains (given final) r ≡ true → (n : ℕ) × In n final × (gives n r ≡ true))
          → (gives x r || contains (given final) r) ≡ true
          → (n : ℕ) × In n (x ∷ final) × (gives n r ≡ true)
      onward ih h = elim (Bool-cases (gives x r)) [
        | inl yes_x ↦ (x, inl refl, yes_x)
        | inr no_x ↦ let (n, m, g) = ih (rw no_x at h) in (n, inr m, g)
      ]

      back :
          (n : ℕ)
          → In n (x ∷ final)
          → gives n r ≡ true
          → ((k : ℕ) × In k final × (gives k r ≡ true) → contains (given final) r ≡ true)
          → (gives x r || contains (given final) r) ≡ true
      back n (inl e) g ih = ground (arith, subst (λ y. gives y r ≡ true) e g)
      back n (inr m) g ih = ground (arith, ih (n, m, g))

  -- The location cannot be used at the node: a path leads back from it to a node that spoils it.
  abbrev pub Spoiled : ℕ → ℕ → Type 0
  Spoiled nnodes node =
      (n : ℕ) × Reaches nnodes open_parents (parents node) nnodes n × (spoils n ≡ true)

  -- A path leads back from the node to one that contributes the reference.
  abbrev pub Contributed : ℕ → ℕ → Reference → Type 0
  Contributed nnodes node r =
      (n : ℕ) × Reaches nnodes open_parents (parents node) nnodes n × (gives n r ≡ true)

  open_parents-In : (v p : ℕ) → In p (open_parents v) → In p (parents v)
  open_parents-In v p m = elim (Bool-cases (nat_beq v imdom)) [
    | inl at ↦ absurd (nothing (rw at at m))
    | inr away ↦ touched (last_touch loc (block v)) (rw away at m)
  ]
    where
      nothing : In p [] → ⊥
      nothing m' = m'

      touched :
          (t : Touch)
          → In p (elim t [ untouched ↦ parents v | written_by _ ↦ [] | clobbered ↦ [] ])
          → In p (parents v)
      touched untouched m' = m'
      touched (written_by _) m' = elim m' [ ]
      touched clobbered m' = elim m' [ ]

  open_parents_le : (v : ℕ) → length (open_parents v) ≤ length (parents v)
  open_parents_le v = elim (Bool-cases (nat_beq v imdom)) [
    | inl at ↦ rw at (omega arith)
    | inr away ↦ rw away (touched (last_touch loc (block v)))
  ]
    where
      touched :
          (t : Touch)
          → length (elim t [ untouched ↦ parents v | written_by _ ↦ [] | clobbered ↦ [] ])
            ≤ length (parents v)
      touched untouched = omega arith
      touched (written_by _) = omega arith
      touched clobbered = omega arith

  open_weight_le :
      (nnodes n : ℕ) (roots : List ℕ)
      → weight nnodes open_parents roots nnodes n [] ≤ weight nnodes parents roots nnodes n []
  open_weight_le nnodes zero roots = omega arith
  open_weight_le nnodes (suc n) roots =
      omega (arith, open_weight_le nnodes n roots, open_parents_le n)

  -- The result, by the last touch of each block: Writers states it by what the blocks write.
  pub phi_loc_sources-last_touch :
      (fuel nnodes : ℕ) (immediate_dominator : ℕ → Option ℕ) (node : ℕ)
      → immediate_dominator node ≡ some imdom
      → node < nnodes
      → Closed nnodes parents (parents node) nnodes
      → weight nnodes parents (parents node) nnodes nnodes [] + length (parents node) < fuel
      → (sources : RefSet) × (phi_loc_sources fuel parents block immediate_dominator node loc
            imdom_srcs
          ≡ ok sources)
        × (Spoiled nnodes node × (sources ≡ [])
            ⊎ (¬ Spoiled nnodes node)
              × ((r : Reference) → (contains sources r ≡ true) ↔ Contributed nnodes node r))
  unfolding phi_loc_sources phi_from
  phi_loc_sources-last_touch fuel nnodes immediate_dominator node dominated lt graph h =
      let (final, e, all) =
        reach_from_roots nnodes open_parents (parents node) nnodes fuel (extend (parents node) [])
          open_closed below (λ v. (from_parents v, In-extend_new v (parents node) []))
          (omega (
            arith,
            length-extend (parents node) [],
            open_weight_le nnodes nnodes (parents node),
          )) in
      (
        result nnodes final,
        ap (phi_from fuel parents block node loc imdom_srcs) dominated
            ∙ phi_loop-result nnodes fuel [] (extend (parents node) []) final open_closed below e
                refl,
        conclusion final all,
      )
    where
      open_closed : (v p : ℕ) → v < nnodes → In p (open_parents v) → p < nnodes
      open_closed v p k m = graph v p k (open_parents-In v p m)

      from_parents : (v : ℕ) → In v (extend (parents node) []) → In v (parents node)
      from_parents v m = elim (In-extend v (parents node) [] m) [
        | inl at ↦ at
        | inr nowhere ↦ elim nowhere [ ]
      ]

      below : (v : ℕ) → In v (extend (parents node) []) → v < nnodes
      below v m = graph node v lt (from_parents v m)

      conclusion :
          (final : List ℕ)
          → ((v : ℕ) → In v final ↔ Reaches nnodes open_parents (parents node) nnodes v)
          → Spoiled nnodes node × (result nnodes final ≡ [])
            ⊎ (¬ Spoiled nnodes node)
              × ((r : Reference)
                  → (contains (result nnodes final) r ≡ true) ↔ Contributed nnodes node r)
      conclusion final all = elim (Bool-cases (some_spoils final)) [
        | inl bad ↦
            let (n, m, s) = some_spoils-In final bad in inl ((n, (all n).0 m, s), rw bad refl)
        | inr good ↦ inr (
          λ spoiled.
              unspoiled good
                (spoils-In (spoiled.0) final ((all (spoiled.0)).1 (spoiled.1)) (spoiled.2)),
          λ r. rw good (
            λ k. let (n, m, g) = (given-In final r).0 k in (n, (all n).0 m, g),
            λ c. (given-In final r).1 (c.0, (all (c.0)).1 (c.1), c.2),
          ),
        )
      ]
        where
          unspoiled : some_spoils final ≡ false → some_spoils final ≡ true → ⊥
          unspoiled a b = cc
