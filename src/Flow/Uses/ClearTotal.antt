-- ===== src/Flow/Uses/ClearTotal.antt =====
-- clear_instruction_inputs on a consistent graph: it never raises, and it keeps the graph consistent.
use m2c.Prelude.{
  ◌≡◌, refl, sym, ◌∙◌, subst, inl, inr, Bool, true, false, not, ◌&&◌, [], ◌∷◌, ◌==◌, if◌then◌else◌,
  contains, Bool-cases, beq_comm, beq_refl, ok, arith,
}
use m2c.Prelude.Dict.{Map, lookup, remove, lookup-remove}
use m2c.Asm.{Location, location_eq}
use m2c.Flow.RefSet
use m2c.Flow.RefSet.{Reference, reference_eq, RefSet}
use m2c.Flow.LocationRefs
use m2c.Flow.LocationRefs.{LocationRefSetDict}
use m2c.Flow.Uses.{
  UseGraph, dict_at, sources, users, remove_use, remove_uses, remove_all_uses,
  clear_instruction_inputs,
}
use m2c.Flow.Uses.Clean.{IsUnique, IsClean, has_key, listed, listed-has_key, listed-eq-get}
use m2c.Flow.Uses.Consistency.{IsConsistent}
use m2c.Flow.Uses.Clear.{Cleared, remove_use-Cleared, remove_uses-Cleared, remove_all_uses-Cleared}

remove-Total :
    (r : Reference) (refs : RefSet)
    → contains refs r ≡ true
    → (left : RefSet) × (RefSet.remove r refs ≡ ok left)
unfolding RefSet.remove
remove-Total r [] h = cc
remove-Total r (y ∷ refs) h = elim (Bool-cases (r == y)) [
  | inl here ↦ (refs, rw here refl)
  | inr later ↦
      let (left, e) = remove-Total r refs (rw later at h) in (y ∷ left, rw (later, e) refl)
]

clash : {A : Type 0} {b : Bool} → b ≡ false → b ≡ true → A
clash no_b a_b = cc

module _ (ref : Reference) where
  remove_use-Total :
      (src : Reference) (loc : Location) (g : UseGraph)
      → contains (users g src loc) ref ≡ true
      → (g' : UseGraph) × (remove_use src loc ref g ≡ ok g')
  unfolding remove_use
  remove_use-Total src loc g h =
      let (left, e) = remove-Total ref (users g src loc) h in rw e (_, refl)

  still_there :
      (src : Reference) (loc : Location) (s : Reference) (g g' : UseGraph)
      → Cleared ref (λ s l. src == s && loc == l) g g'
      → (src == s) ≡ false
      → contains (users g s loc) ref ≡ true
      → contains (users g' s loc) ref ≡ true
  still_there src loc s g g' c apart h = c.view s loc ref ∙ rw (apart, h) (keep (ref == ref))
    where
      keep : (b : Bool) → (true && not (b && false)) ≡ true
      keep b = ground arith

  remove_uses-Total :
      (srcs : RefSet) (loc : Location) (g : UseGraph)
      → ((s : Reference) (l : Location) → IsUnique (users g s l))
      → IsUnique srcs
      → ((s : Reference) → contains srcs s ≡ true → contains (users g s loc) ref ≡ true)
      → (g' : UseGraph) × (remove_uses srcs loc ref g ≡ ok g')
  unfolding remove_uses
  remove_uses-Total [] loc g u us h = (g, refl)
  remove_uses-Total (src ∷ srcs) loc g u (fresh, us) h =
      let (g₁, e₁) = remove_use-Total src loc g (h src (rw (beq_refl src) refl)) in
      let first = remove_use-Cleared ref src loc g g₁ u e₁ in
      let (g₂, e₂) =
        remove_uses-Total srcs loc g₁ first.unique us
          (λ s m. still_there src loc s g g₁ first (apart s m) (h s (ground arith))) in
      (g₂, rw e₁ e₂)
    where
      apart : (s : Reference) → contains srcs s ≡ true → (src == s) ≡ false
      apart s m = elim (Bool-cases (src == s)) [
        | inl same ↦
            clash
              (subst (λ z. contains srcs z ≡ false) ((reference_eq.same_iff src s).0 same) fresh) m
        | inr other ↦ other
      ]

  remove_all_uses-Total :
      (items : LocationRefSetDict) (g : UseGraph)
      → ((s : Reference) (l : Location) → IsUnique (users g s l))
      → IsClean items
      → ((s : Reference) (l : Location)
          → listed items s l ≡ true
          → contains (users g s l) ref ≡ true)
      → (g' : UseGraph) × (remove_all_uses items ref g ≡ ok g')
  unfolding remove_all_uses
  remove_all_uses-Total [] g u c h = (g, refl)
  remove_all_uses-Total ((loc, srcs) ∷ items) g u (us, fresh, c) h =
      let (g₁, e₁) =
        remove_uses-Total srcs loc g u us (λ s m. h s loc (rw (beq_refl loc, m) refl)) in
      let first = remove_uses-Cleared ref srcs loc g g₁ u e₁ in
      let (g₂, e₂) = remove_all_uses-Total items g₁ first.unique c (later g₁ first) in
      (g₂, rw e₁ e₂)
    where
      later :
          (g₁ : UseGraph)
          → Cleared ref (λ s l. loc == l && contains srcs s) g g₁
          → (s : Reference) (l : Location) → listed items s l ≡ true
          → contains (users g₁ s l) ref ≡ true
      later g₁ first s l m = elim (Bool-cases (loc == l)) [
        | inl here ↦
            clash
              (listed-has_key items s l
                (subst (λ k. has_key k items ≡ false) ((location_eq.same_iff loc l).0 here) fresh))
              m
        | inr away ↦ first.view s l ref ∙ rw (away, h s l (rw (away) m)) (keep (ref == ref))
      ]
        where
          keep : (b : Bool) → (true && not (b && false)) ≡ true
          keep b = ground arith

  abbrev popped : UseGraph → UseGraph
  popped g = record g { instr_inputs = remove ref g.instr_inputs }

  dict_at-remove :
      (r : Reference) (m : Map Reference LocationRefSetDict)
      → dict_at r (remove ref m) ≡ (if ref == r then [] else dict_at r m)
  dict_at-remove r m = ground (arith, lookup-remove ref r m)

  module _ (g g₁ : UseGraph) (c : IsConsistent g)
      (cleared : Cleared ref (listed (dict_at ref g.instr_inputs)) g g₁) where
    popped-sources :
        (u : Reference) (l : Location) (s : Reference)
        → contains (sources (popped g₁) u l) s ≡ (not (u == ref) && contains (sources g u l) s)
    unfolding LocationRefs.get lookup
    popped-sources u l s =
        rw (cleared.inputs, dict_at-remove u g.instr_inputs, beq_comm ref u)
          (elim (Bool-cases (u == ref)) [ inl same ↦ rw same | inr other ↦ rw other ])

    popped-users :
        (u : Reference) (l : Location) (s : Reference)
        → contains (users (popped g₁) s l) u ≡ (not (u == ref) && contains (users g s l) u)
    popped-users u l s =
        cleared.view s l u
        ∙ rw (listed-eq-get (dict_at ref g.instr_inputs) s l (c.clean ref), c.inverse ref l s)
            (elim (Bool-cases (u == ref)) [
              | inl same ↦
                  rw (same, (reference_eq.same_iff u ref).0 same)
                    (never (contains (users g s l) ref))
              | inr other ↦ rw other (keep (contains (users g s l) u))
            ])
      where
        never : (b : Bool) → (b && not (true && b)) ≡ (not true && b)
        never b = ground arith

        keep : (b : Bool) → (b && not (false && contains (users g s l) ref)) ≡ (not false && b)
        keep b = ground arith

    popped-IsConsistent : IsConsistent (popped g₁)
    popped-IsConsistent = record {
      inverse = λ u l s. popped-sources u l s ∙ (rw (c.inverse u l s) (sym (popped-users u l s)));
      unique = cleared.unique;
      clean = λ r.
          rw (cleared.inputs, dict_at-remove r g.instr_inputs)
            (elim (Bool-cases (ref == r)) [
              | inl same ↦ rw same tt
              | inr other ↦ rw other (c.clean r)
            ]);
    }

  -- On a consistent graph clear_instruction_inputs does not raise. The reference then has no sources
  -- and is no user of anything; every other pair stays; and the graph is consistent again.
  pub clear_instruction_inputs_lem :
      (g : UseGraph)
      → IsConsistent g
      → (g' : UseGraph) × (clear_instruction_inputs ref g ≡ ok g')
        × IsConsistent g'
        × ((u : Reference) (l : Location) (s : Reference)
            → contains (sources g' u l) s ≡ (not (u == ref) && contains (sources g u l) s))
  unfolding clear_instruction_inputs
  clear_instruction_inputs_lem g c =
      let (g₁, e) =
        remove_all_uses-Total (dict_at ref g.instr_inputs) g c.unique (c.clean ref) (λ s l m.
          sym (c.inverse ref l s)
          ∙ (sym (listed-eq-get (dict_at ref g.instr_inputs) s l (c.clean ref)) ∙ m)) in
      let cleared = remove_all_uses-Cleared ref (dict_at ref g.instr_inputs) g g₁ c.unique e in
      rw e (popped g₁, refl, popped-IsConsistent g g₁ c cleared, popped-sources g g₁ c cleared)
