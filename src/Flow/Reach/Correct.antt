-- ===== src/Flow/Reach/Correct.antt =====
-- inv_reachable_without ends, and returns the nodes that reach the end without the given node.
use m2c.Prelude.{
  ℕ, zero, suc, ◌+◌, ◌≤◌, ◌<◌, ◌≡◌, ◌≢◌, refl, sym, ◌∙◌, ap, subst, ◌⊎◌, inl, inr, ◌↔◌, false, List,
  [], ◌∷◌, ◌==◌, nat_eq, nat_beq, nat_beq_iff, contains, contains→In, In, length, if◌then◌else◌,
  Bool-cases, ok, arith,
}
use m2c.Flow.Reach.{extend, reach_loop, inv_reachable_without}

pub length-extend : (xs stack : List ℕ) → length (extend xs stack) ≡ length xs + length stack
unfolding extend
length-extend [] stack = omega arith
length-extend (x ∷ xs) stack = omega (arith, length-extend xs (x ∷ stack))

pub In-extend : (y : ℕ) (xs stack : List ℕ) → In y (extend xs stack) → In y xs ⊎ In y stack
unfolding extend
In-extend y [] stack m = inr m
In-extend y (x ∷ xs) stack m = elim (In-extend y xs (x ∷ stack) m) [
  | inl later ↦ inl (inr later)
  | inr (inl e) ↦ inl (inl e)
  | inr (inr old) ↦ inr old
]

In-extend_old : (y : ℕ) (xs stack : List ℕ) → In y stack → In y (extend xs stack)
unfolding extend
In-extend_old y [] stack m = m
In-extend_old y (x ∷ xs) stack m = In-extend_old y xs (x ∷ stack) (inr m)

pub In-extend_new : (y : ℕ) (xs stack : List ℕ) → In y xs → In y (extend xs stack)
unfolding extend
In-extend_new y [] stack m = elim m [ ]
In-extend_new y (x ∷ xs) stack (inl e) = In-extend_old y xs (x ∷ stack) (inl e)
In-extend_new y (x ∷ xs) stack (inr m) = In-extend_new y xs (x ∷ stack) m

module _ (nnodes : ℕ) (parents : ℕ → List ℕ) (roots : List ℕ) (without : ℕ) where
  -- A walk from the node to a root that does not meet `without`.
  pub data Reaches : ℕ → Type 0 where
    arrived : (root : ℕ) → In root roots → root ≢ without → Reaches root
    backward : (node p : ℕ) → Reaches node → In p (parents node) → p ≢ without → Reaches p

  abbrev pub Closed : Type 0
  Closed = (v p : ℕ) → v < nnodes → In p (parents v) → p < nnodes

  -- What is left to push for the nodes that are not yet reachable.
  abbrev pub weight : ℕ → List ℕ → ℕ
  weight zero reachable = 0
  weight (suc n) reachable =
      weight n reachable + (if contains reachable n then 0 else suc (length (parents n)))

  weight-add_above :
      (n v : ℕ) (reachable : List ℕ) → n ≤ v → weight n (v ∷ reachable) ≡ weight n reachable
  weight-add_above zero v reachable h = refl
  weight-add_above (suc n) v reachable h =
      ground (arith, weight-add_above n v reachable (omega arith))

  weight-add :
      (n v : ℕ) (reachable : List ℕ)
      → v < n
      → contains reachable v ≡ false
      → weight n (v ∷ reachable) + suc (length (parents v)) ≡ weight n reachable
  weight-add zero v reachable h new = absurd (omega arith)
  weight-add (suc n) v reachable h new = elim (Bool-cases (nat_beq n v)) [
    | inl last ↦
        let e = (nat_beq_iff n v).0 last in
        let unseen : contains reachable n ≡ false =
          subst (λ x. contains reachable x ≡ false) (sym e) new in
        let lengths : length (parents v) ≡ length (parents n) =
          ap (λ x. length (parents x)) (sym e) in
        rw (last, unseen, weight-add_above n v reachable (omega arith), lengths) (omega arith)
    | inr before ↦ let lt : v < n = ground arith in ground (arith, weight-add n v reachable lt new)
  ]

  record IsInv (reachable stack : List ℕ) : Type 0 where
    reached : (v : ℕ) → In v reachable → Reaches v
    pending : (v : ℕ) → In v stack → v ≢ without → Reaches v
    inside : (v : ℕ) → In v stack → v < nnodes
    ends : (root : ℕ) → In root roots → root ≢ without → In root reachable ⊎ In root stack
    closed :
        (v p : ℕ) → In v reachable → In p (parents v) → p ≢ without → In p reachable ⊎ In p stack

  skip-IsInv :
      (reachable stack : List ℕ) (node : ℕ)
      → (node ≡ without) ⊎ In node reachable
      → IsInv reachable (node ∷ stack)
      → IsInv reachable stack
  skip-IsInv reachable stack node why i = record {
    reached = i.reached;
    pending = λ v m. i.pending v (inr m);
    inside = λ v m. i.inside v (inr m);
    ends = λ root m apart. settle root apart (i.ends root m apart);
    closed = λ v p m mp apart. settle p apart (i.closed v p m mp apart);
  }
    where
      known :
          (v : ℕ) → v ≢ without → v ≡ node → (node ≡ without) ⊎ In node reachable → In v reachable
      known v apart e (inl at) = absurd (apart (e ∙ at))
      known v apart e (inr m) = subst (λ x. In x reachable) (sym e) m

      settle :
          (v : ℕ) → v ≢ without → In v reachable ⊎ In v (node ∷ stack) → In v reachable ⊎ In v stack
      settle v apart (inl m) = inl m
      settle v apart (inr (inl e)) = inl (known v apart e why)
      settle v apart (inr (inr m)) = inr m

  add-IsInv :
      (reachable stack : List ℕ) (node : ℕ)
      → Closed
      → node ≢ without
      → IsInv reachable (node ∷ stack)
      → IsInv (node ∷ reachable) (extend (parents node) stack)
  add-IsInv reachable stack node graph other i = record {
    reached = reached_now;
    pending = λ v m apart. pending_now v apart (In-extend v (parents node) stack m);
    inside = λ v m. inside_now v (In-extend v (parents node) stack m);
    ends = λ root m apart. settle root (i.ends root m apart);
    closed = closed_now;
  }
    where
      self : Reaches node
      self = i.pending node (inl refl) other

      reached_now : (v : ℕ) → In v (node ∷ reachable) → Reaches v
      reached_now v (inl e) = subst Reaches (sym e) self
      reached_now v (inr m) = i.reached v m

      pending_now : (v : ℕ) → v ≢ without → In v (parents node) ⊎ In v stack → Reaches v
      pending_now v apart (inl m) = backward node v self m apart
      pending_now v apart (inr m) = i.pending v (inr m) apart

      inside_now : (v : ℕ) → In v (parents node) ⊎ In v stack → v < nnodes
      inside_now v (inl m) = graph node v (i.inside node (inl refl)) m
      inside_now v (inr m) = i.inside v (inr m)

      settle :
          (v : ℕ)
          → In v reachable ⊎ In v (node ∷ stack)
          → In v (node ∷ reachable) ⊎ In v (extend (parents node) stack)
      settle v (inl m) = inl (inr m)
      settle v (inr (inl e)) = inl (inl e)
      settle v (inr (inr m)) = inr (In-extend_old v (parents node) stack m)

      closed_now :
          (v p : ℕ)
          → In v (node ∷ reachable)
          → In p (parents v)
          → p ≢ without
          → In p (node ∷ reachable) ⊎ In p (extend (parents node) stack)
      closed_now v p (inl e) m apart =
          inr (In-extend_new p (parents node) stack (subst (λ x. In p (parents x)) e m))
      closed_now v p (inr mv) m apart = settle p (i.closed v p mv m apart)

  reach_loop_lem :
      (fuel : ℕ) (reachable stack : List ℕ)
      → Closed
      → IsInv reachable stack
      → weight nnodes reachable + length stack < fuel
      → (final : List ℕ) × (reach_loop fuel parents without reachable stack ≡ ok final)
        × IsInv final []
  unfolding reach_loop
  reach_loop_lem zero reachable stack graph i h = absurd (omega arith)
  reach_loop_lem (suc fuel) reachable [] graph i h = (reachable, refl, i)
  reach_loop_lem (suc fuel) reachable (node ∷ stack) graph i h =
      elim (Bool-cases (node == without)) [
        | inl at ↦ rw at (
            reach_loop_lem fuel reachable stack graph
              (skip-IsInv reachable stack node (inl ((nat_beq_iff node without).0 at)) i)
              (omega arith))
        | inr other ↦ elim (Bool-cases (contains reachable node)) [
          | inl old ↦
              rw (other, old)
                (reach_loop_lem fuel reachable stack graph
                  (skip-IsInv reachable stack node (inr (contains→In reachable node old)) i)
                  (omega arith))
          | inr new ↦
              rw (other, new)
                (reach_loop_lem fuel (node ∷ reachable) (extend (parents node) stack) graph
                  (add-IsInv reachable stack node graph (λ e. ground arith) i)
                  (omega (
                    arith,
                    weight-add nnodes node reachable (i.inside node (inl refl)) new,
                    length-extend (parents node) stack,
                  )))
        ]
      ]

  initial-IsInv :
      (stack : List ℕ)
      → ((v : ℕ) → In v stack → v < nnodes)
      → ((v : ℕ) → In v stack ↔ In v roots)
      → IsInv [] stack
  initial-IsInv stack below same = record {
    reached = λ v m. elim m [ ];
    pending = λ v m apart. arrived v ((same v).0 m) apart;
    inside = below;
    ends = λ root m apart. inr ((same root).1 m);
    closed = λ v p m mp apart. elim m [ ];
  }

  none_pending : (v : ℕ) (reachable : List ℕ) → In v reachable ⊎ In v [] → In v reachable
  none_pending v reachable (inl m) = m
  none_pending v reachable (inr m) = elim m [ ]

  complete : (reachable : List ℕ) → IsInv reachable [] → (v : ℕ) → Reaches v → In v reachable
  complete reachable i _ (arrived root m apart) = none_pending root reachable (i.ends root m apart)
  complete reachable i _ (backward node p before m apart) =
      none_pending p reachable (i.closed node p (complete reachable i node before) m apart)

  -- The loop from the roots on returns exactly the nodes that reach a root.
  pub reach_from_roots :
      (fuel : ℕ) (stack : List ℕ)
      → Closed
      → ((v : ℕ) → In v stack → v < nnodes)
      → ((v : ℕ) → In v stack ↔ In v roots)
      → weight nnodes [] + length stack < fuel
      → (reachable : List ℕ) × (reach_loop fuel parents without [] stack ≡ ok reachable)
        × ((v : ℕ) → In v reachable ↔ Reaches v)
  reach_from_roots fuel stack graph below same h =
      let (reachable, e, i) =
        reach_loop_lem fuel [] stack graph (initial-IsInv stack below same) h in
      (reachable, e, λ v. (i.reached v, complete reachable i v))

module _ (nnodes : ℕ) (parents : ℕ → List ℕ) (end without : ℕ) where
  only_end : (v : ℕ) → end < nnodes → In v (end ∷ []) → v < nnodes
  only_end v lt (inl e) = omega arith
  only_end v lt (inr m) = elim m [ ]

  -- With one round for each node and one for each edge, and two more, inv_reachable_without returns,
  -- if the end and the parents of nodes are nodes, and it returns exactly the nodes from which a walk
  -- leads to the end without meeting `without`.
  pub inv_reachable_without_lem :
      (fuel : ℕ)
      → end < nnodes
      → Closed nnodes parents (end ∷ []) without
      → weight nnodes parents (end ∷ []) without nnodes [] + 1 < fuel
      → (reachable : List ℕ) × (inv_reachable_without fuel parents end without ≡ ok reachable)
        × ((v : ℕ) → In v reachable ↔ Reaches nnodes parents (end ∷ []) without v)
  unfolding inv_reachable_without
  inv_reachable_without_lem fuel lt graph h =
      reach_from_roots nnodes parents (end ∷ []) without fuel (end ∷ []) graph
        (λ v m. only_end v lt m) (λ v. (λ m. m, λ m. m)) h
