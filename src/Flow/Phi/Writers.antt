-- ===== src/Flow/Phi/Writers.antt =====
-- phi_loc_sources (m2c/flow_graph.py), by what the blocks write and clobber.
use m2c.Prelude.{
  ℕ, ◌+◌, ◌<◌, ◌≡◌, ◌≢◌, refl, sym, subst, ◌⊎◌, inl, inr, ◌↔◌, Bool, true, false, not, Option, some,
  List, [], ◌∷◌, ◌==◌, nat_eq, nat_beq, nat_beq_iff, contains, length, if◌then◌else◌, Bool-cases,
  beq_refl, ok, arith,
}
use std.Path.{fun_ext}
use m2c.Asm.{Location, location_eq}
use m2c.Flow.RefSet.{Reference, reference_eq, RefSet}
use m2c.Flow.LocationRefs.{is_nonempty}
use m2c.Flow.Reach.Correct.{Closed, Reaches, weight}
use m2c.Flow.Phi.{
  InstructionRefs, Touch, written_by, clobbered, untouched, last_touch, phi_loc_sources,
}
use m2c.Flow.Phi.Correct.{
  open_parents, spoils, gives, Spoiled, Contributed, phi_loc_sources-last_touch,
}
use m2c.Flow.Phi.Touches.{
  leaves_alone, WrittenLast, ClobberedLast, TouchOf, leaves_alone-untouched, untouched-leaves_alone,
  WrittenLast-written_by, ClobberedLast-clobbered, last_touch-TouchOf,
}

nat_beq-apart : (a b : ℕ) → nat_beq a b ≡ false → a ≢ b
nat_beq-apart a b h = ground arith

module _ (parents : ℕ → List ℕ) (block : ℕ → InstructionRefs) (loc : Location) (imdom : ℕ)
    (imdom_srcs : RefSet) where
  -- A path goes on behind a node that is not the dominator and leaves the location alone.
  abbrev pub next_nodes : ℕ → List ℕ
  next_nodes n =
      if nat_beq n imdom then [] else if leaves_alone loc (block n) then parents n else []

  -- The node makes the location unusable: it clobbers it last, or is the dominator and has no source.
  abbrev pub Spoils : ℕ → Type 0
  Spoils n = ((n ≡ imdom) × (imdom_srcs ≡ [])) ⊎ ((n ≢ imdom) × ClobberedLast loc (block n))

  -- The node contributes the reference: it writes it last, or is the dominator and has this source.
  abbrev pub Gives : ℕ → Reference → Type 0
  Gives n r =
      ((n ≡ imdom) × (contains imdom_srcs r ≡ true)) ⊎ ((n ≢ imdom) × WrittenLast loc (block n) r)

  -- A path leads back from the node to one that spoils the location.
  abbrev pub SpoiledAt : ℕ → ℕ → Type 0
  SpoiledAt nnodes node = (n : ℕ) × Reaches nnodes next_nodes (parents node) nnodes n × Spoils n

  -- A path leads back from the node to one that contributes the reference.
  abbrev pub ComesTo : ℕ → ℕ → Reference → Type 0
  ComesTo nnodes node r = (n : ℕ) × Reaches nnodes next_nodes (parents node) nnodes n × Gives n r

  open_parents-next_nodes :
      (n : ℕ) → open_parents parents block loc imdom imdom_srcs n ≡ next_nodes n
  open_parents-next_nodes n = elim (Bool-cases (nat_beq n imdom)) [
    | inl at ↦ rw at refl
    | inr away ↦ rw away (
        touched (last_touch loc (block n)) (leaves_alone loc (block n))
          (untouched-leaves_alone loc (block n)) (leaves_alone-untouched loc (block n)))
  ]
    where
      touched :
          (t : Touch) (b : Bool)
          → (t ≡ untouched → b ≡ true)
          → (b ≡ true → t ≡ untouched)
          → (elim t as (λ _. List ℕ) [ untouched ↦ parents n | written_by _ ↦ [] | clobbered ↦ [] ])
            ≡ (if b then parents n else [])
      touched untouched b onto back = rw (onto refl) refl
      touched (written_by ref) true onto back = absurd (apart (back refl))
        where
          apart : written_by ref ≡ untouched → ⊥
          apart x = cc
      touched (written_by ref) false onto back = refl
      touched clobbered true onto back = absurd (apart (back refl))
        where
          apart : clobbered ≡ untouched → ⊥
          apart x = cc
      touched clobbered false onto back = refl

  empty_iff : (srcs : RefSet) → (not (is_nonempty srcs) ≡ true) ↔ (srcs ≡ [])
  empty_iff [] = (λ h. refl, λ h. refl)
  empty_iff (r ∷ srcs) = (λ h. cc, λ h. cc)

  spoils-Spoils : (n : ℕ) → (spoils parents block loc imdom imdom_srcs n ≡ true) ↔ Spoils n
  spoils-Spoils n = elim (Bool-cases (nat_beq n imdom)) [
    | inl at ↦ rw at (
      λ h. inl ((nat_beq_iff n imdom).0 at, (empty_iff imdom_srcs).0 h),
      λ s. elim s [
        | inl (_, e) ↦ (empty_iff imdom_srcs).1 e
        | inr (f, _) ↦ absurd (f ((nat_beq_iff n imdom).0 at))
      ],
    )
    | inr away ↦ rw away (
      λ h. inr (
        nat_beq-apart n imdom away,
        onto (last_touch loc (block n)) (last_touch-TouchOf loc (block n)) h,
      ),
      λ s. elim s [
        | inl (e, _) ↦ absurd (nat_beq-apart n imdom away e)
        | inr (_, c) ↦ rw (ClobberedLast-clobbered loc (block n) c) refl
      ],
    )
  ]
    where
      onto :
          (t : Touch)
          → TouchOf loc (block n) t
          → (elim t as (λ _. Bool) [ untouched ↦ false | written_by _ ↦ false | clobbered ↦ true ])
            ≡ true
          → ClobberedLast loc (block n)
      onto untouched m h = cc
      onto (written_by ref) m h = cc
      onto clobbered m h = m

  gives-Gives :
      (n : ℕ) (r : Reference) → (gives parents block loc imdom imdom_srcs n r ≡ true) ↔ Gives n r
  gives-Gives n r = elim (Bool-cases (nat_beq n imdom)) [
    | inl at ↦ rw at (
      λ h. inl ((nat_beq_iff n imdom).0 at, h),
      λ s. elim s [ inl (_, e) ↦ e | inr (f, _) ↦ absurd (f ((nat_beq_iff n imdom).0 at)) ],
    )
    | inr away ↦ rw away (
      λ h. inr (
        nat_beq-apart n imdom away,
        onto (last_touch loc (block n)) (last_touch-TouchOf loc (block n)) h,
      ),
      λ s. elim s [
        | inl (e, _) ↦ absurd (nat_beq-apart n imdom away e)
        | inr (_, w) ↦ rw (WrittenLast-written_by loc (block n) r w) (beq_refl r)
      ],
    )
  ]
    where
      onto :
          (t : Touch)
          → TouchOf loc (block n) t
          → (elim t as (λ _. Bool) [
            | untouched ↦ false
            | written_by ref ↦ r == ref
            | clobbered ↦ false
          ])
            ≡ true
          → WrittenLast loc (block n) r
      onto untouched m h = cc
      onto (written_by ref) m h =
          subst (WrittenLast loc (block n)) (sym ((reference_eq.same_iff r ref).0 h)) m
      onto clobbered m h = cc

  -- If the node has an immediate dominator and the parents of nodes are nodes, phi_loc_sources returns
  -- with enough rounds for all nodes and edges. Going back from the node along the paths that leave the
  -- location alone and end at the dominator: if one meets a node that clobbers the location last, or
  -- meets the dominator and that has no source, the result is empty; if none does, the result has
  -- exactly the last writers that the paths meet and, where they meet the dominator, its sources.
  pub phi_loc_sources_lem :
      (fuel nnodes : ℕ) (immediate_dominator : ℕ → Option ℕ) (node : ℕ)
      → immediate_dominator node ≡ some imdom
      → node < nnodes
      → Closed nnodes parents (parents node) nnodes
      → weight nnodes parents (parents node) nnodes nnodes [] + length (parents node) < fuel
      → (sources : RefSet) × (phi_loc_sources fuel parents block immediate_dominator node loc
            imdom_srcs
          ≡ ok sources)
        × (SpoiledAt nnodes node × (sources ≡ [])
            ⊎ (¬ SpoiledAt nnodes node)
              × ((r : Reference) → (contains sources r ≡ true) ↔ ComesTo nnodes node r))
  phi_loc_sources_lem fuel nnodes immediate_dominator node dominated lt graph h =
      let (sources, e, cases) =
        phi_loc_sources-last_touch parents block loc imdom imdom_srcs fuel nnodes
          immediate_dominator node dominated lt graph h in
      (sources, e, restated sources cases)
    where
      there :
          (n : ℕ)
          → Reaches nnodes (open_parents parents block loc imdom imdom_srcs) (parents node) nnodes n
          → Reaches nnodes next_nodes (parents node) nnodes n
      there n =
          subst (λ next. Reaches nnodes next (parents node) nnodes n)
            (fun_ext open_parents-next_nodes)

      here :
          (n : ℕ)
          → Reaches nnodes next_nodes (parents node) nnodes n
          → Reaches nnodes (open_parents parents block loc imdom imdom_srcs) (parents node) nnodes n
      here n =
          subst (λ next. Reaches nnodes next (parents node) nnodes n)
            (sym (fun_ext open_parents-next_nodes))

      restated :
          (sources : RefSet)
          → Spoiled parents block loc imdom imdom_srcs nnodes node × (sources ≡ [])
            ⊎ (¬ Spoiled parents block loc imdom imdom_srcs nnodes node)
              × ((r : Reference)
                  → (contains sources r ≡ true)
                    ↔ Contributed parents block loc imdom imdom_srcs nnodes node r)
          → SpoiledAt nnodes node × (sources ≡ [])
            ⊎ (¬ SpoiledAt nnodes node)
              × ((r : Reference) → (contains sources r ≡ true) ↔ ComesTo nnodes node r)
      restated sources (inl ((n, path, s), e)) = inl ((n, there n path, (spoils-Spoils n).0 s), e)
      restated sources (inr (unspoiled, all)) = inr (
        λ s. unspoiled (s.0, here (s.0) (s.1), (spoils-Spoils (s.0)).1 (s.2)),
        λ r. (
          λ m. let (n, path, g) = (all r).0 m in (n, there n path, (gives-Gives n r).0 g),
          λ c. (all r).1 (c.0, here (c.0) (c.1), (gives-Gives (c.0) r).1 (c.2)),
        ),
      )
