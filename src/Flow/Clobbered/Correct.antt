-- ===== src/Flow/Clobbered/Correct.antt =====
-- locs_clobbered_until_dominator collects what the nodes between write or clobber.
use m2c.Prelude.{
  ℕ, zero, suc, ◌+◌, ◌<◌, ◌≡◌, refl, ◌∙◌, ap, subst, ◌⊎◌, inl, inr, ◌↔◌, ◌||◌, Option, some, List,
  [], ◌∷◌, ◌++◌, ◌==◌, nat_eq, contains, contains-append, length, In, In-append_left,
  In-append_right, In-append_cases, Bool-cases, ok, ◌>>=◌, arith,
}
use m2c.Asm.{Location, Instruction}
use m2c.Flow.Reach.{extend, reach_loop}
use m2c.Flow.Reach.Correct.{
  Closed, Reaches, weight, reach_from_roots, In-extend, In-extend_new, length-extend,
}
use m2c.Flow.Clobbered.{
  update_clobbered, clobbered_loop, collect_clobbered, locs_clobbered_until_dominator,
}

-- Some instruction of the list writes or clobbers the location.
abbrev pub Changes : List Instruction → Location → Type 0
Changes [] loc = ⊥
Changes (i ∷ is) loc = (In loc i.outputs ⊎ In loc i.clobbers) ⊎ Changes is loc

update_clobbered-In :
    (is : List Instruction) (clobbered : List Location) (loc : Location)
    → In loc (update_clobbered is clobbered) ↔ (Changes is loc ⊎ In loc clobbered)
unfolding update_clobbered
update_clobbered-In [] clobbered loc =
    (λ m. inr m, λ c. elim c [ inl no_change ↦ elim no_change [ ] | inr m ↦ m ])
update_clobbered-In (i ∷ is) clobbered loc =
    let later = update_clobbered-In is (i.clobbers ++ (i.outputs ++ clobbered)) loc in
    (λ m. onward (later.0 m), λ c. later.1 (back c))
  where
    onward :
        Changes is loc ⊎ In loc (i.clobbers ++ (i.outputs ++ clobbered))
        → Changes (i ∷ is) loc ⊎ In loc clobbered
    onward (inl c) = inl (inr c)
    onward (inr m) = elim (In-append_cases loc i.clobbers (i.outputs ++ clobbered) m) [
      | inl at ↦ inl (inl (inr at))
      | inr rest ↦ elim (In-append_cases loc i.outputs clobbered rest) [
        | inl at ↦ inl (inl (inl at))
        | inr old ↦ inr old
      ]
    ]

    back :
        Changes (i ∷ is) loc ⊎ In loc clobbered
        → Changes is loc ⊎ In loc (i.clobbers ++ (i.outputs ++ clobbered))
    back (inl (inl (inl m))) = inr (
        In-append_right loc i.clobbers (i.outputs ++ clobbered)
          (In-append_left loc i.outputs clobbered m))
    back (inl (inl (inr m))) = inr (In-append_left loc i.clobbers (i.outputs ++ clobbered) m)
    back (inl (inr c)) = inl c
    back (inr m) = inr (
        In-append_right loc i.clobbers (i.outputs ++ clobbered)
          (In-append_right loc i.outputs clobbered m))

module _ (parents : ℕ → List ℕ) (block : ℕ → List Instruction) (imdom : ℕ) where
  -- What is clobbered once these nodes are seen.
  abbrev clobbered_by : List ℕ → List Location
  clobbered_by [] = []
  clobbered_by (n ∷ seen) = update_clobbered (block n) (clobbered_by seen)

  contains-seen :
      (reachable : List ℕ) (n : ℕ)
      → contains (reachable ++ imdom ∷ []) n ≡ (n == imdom || contains reachable n)
  contains-seen reachable n = contains-append reachable (imdom ∷ []) n ∙ ground arith

  clobbered_loop-reach_loop :
      (fuel : ℕ) (reachable stack : List ℕ)
      → clobbered_loop fuel parents block (reachable ++ imdom ∷ []) stack (clobbered_by reachable)
        ≡ (reach_loop fuel parents imdom reachable stack >>= λ r. ok (clobbered_by r))
  unfolding clobbered_loop reach_loop
  clobbered_loop-reach_loop zero reachable stack = refl
  clobbered_loop-reach_loop (suc fuel) reachable [] = refl
  clobbered_loop-reach_loop (suc fuel) reachable (n ∷ stack) =
      rw (contains-seen reachable n) (elim (Bool-cases (n == imdom || contains reachable n)) [
        | inl seen ↦ rw seen (clobbered_loop-reach_loop fuel reachable stack)
        | inr new ↦
            rw new (clobbered_loop-reach_loop fuel (n ∷ reachable) (extend (parents n) stack))
      ])

  clobbered_by-In :
      (seen : List ℕ) (loc : Location)
      → In loc (clobbered_by seen) ↔ ((n : ℕ) × In n seen × Changes (block n) loc)
  clobbered_by-In [] loc = (λ m. elim m [ ], λ c. elim (c.1) [ ])
  clobbered_by-In (n ∷ seen) loc =
      let first = update_clobbered-In (block n) (clobbered_by seen) loc in
      let rest = clobbered_by-In seen loc in
      (λ m. onward (first.0 m) rest.0, λ c. first.1 (back (c.0) (c.1) (c.2) rest.1))
    where
      onward :
          Changes (block n) loc ⊎ In loc (clobbered_by seen)
          → (In loc (clobbered_by seen) → (k : ℕ) × In k seen × Changes (block k) loc)
          → (k : ℕ) × In k (n ∷ seen) × Changes (block k) loc
      onward (inl c) ih = (n, inl refl, c)
      onward (inr m) ih = let (k, mk, c) = ih m in (k, inr mk, c)

      back :
          (k : ℕ)
          → In k (n ∷ seen)
          → Changes (block k) loc
          → ((j : ℕ) × In j seen × Changes (block j) loc → In loc (clobbered_by seen))
          → Changes (block n) loc ⊎ In loc (clobbered_by seen)
      back k (inl e) c ih = inl (subst (λ x. Changes (block x) loc) e c)
      back k (inr m) c ih = inr (ih (k, m, c))

  locs_clobbered_until_dominator-dominated :
      (fuel : ℕ) (immediate_dominator : ℕ → Option ℕ) (node : ℕ)
      → immediate_dominator node ≡ some imdom
      → locs_clobbered_until_dominator fuel parents block immediate_dominator node
        ≡ clobbered_loop fuel parents block (imdom ∷ []) (extend (parents node) []) []
  unfolding locs_clobbered_until_dominator collect_clobbered
  locs_clobbered_until_dominator-dominated fuel immediate_dominator node dominated =
      ap (collect_clobbered fuel parents block node) dominated

  -- If the node has an immediate dominator and the parents of nodes are nodes,
  -- locs_clobbered_until_dominator returns with enough rounds for all nodes and edges. A location is in
  -- the result exactly if an instruction writes or clobbers it in the block of a node from which a walk
  -- leads to a parent of the node without meeting the immediate dominator.
  pub locs_clobbered_until_dominator_lem :
      (fuel nnodes : ℕ) (immediate_dominator : ℕ → Option ℕ) (node : ℕ)
      → immediate_dominator node ≡ some imdom
      → node < nnodes
      → Closed nnodes parents (parents node) imdom
      → weight nnodes parents (parents node) imdom nnodes [] + length (parents node) < fuel
      → (locs : List Location) × (locs_clobbered_until_dominator fuel parents block
            immediate_dominator node
          ≡ ok locs)
        × ((loc : Location)
            → In loc locs
              ↔ ((n : ℕ) × Reaches nnodes parents (parents node) imdom n × Changes (block n) loc))
  locs_clobbered_until_dominator_lem fuel nnodes immediate_dominator node dominated lt graph h =
      let (reachable, e, all) =
        reach_from_roots nnodes parents (parents node) imdom fuel (extend (parents node) []) graph
          (λ v m. graph node v lt (from_parents v m))
          (λ v. (from_parents v, In-extend_new v (parents node) []))
          (omega (arith, length-extend (parents node) [])) in
      (
        clobbered_by reachable,
        locs_clobbered_until_dominator-dominated fuel immediate_dominator node dominated
            ∙ (clobbered_loop-reach_loop fuel [] (extend (parents node) []) ∙ rw e refl),
        λ loc. (
          λ m. let (n, mn, c) = (clobbered_by-In reachable loc).0 m in (n, (all n).0 mn, c),
          λ w. (clobbered_by-In reachable loc).1 (w.0, (all (w.0)).1 (w.1), w.2),
        ),
      )
    where
      from_parents : (v : ℕ) → In v (extend (parents node) []) → In v (parents node)
      from_parents v m = elim (In-extend v (parents node) [] m) [
        | inl at ↦ at
        | inr nowhere ↦ elim nowhere [ ]
      ]
