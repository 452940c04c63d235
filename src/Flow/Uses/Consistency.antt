-- ===== src/Flow/Uses/Consistency.antt =====
-- instr_inputs and instr_uses say the same: the invariant that validate_instruction_graph asserts.
use m2c.Prelude.{
  ◌≡◌, refl, sym, ◌∙◌, ap, subst, inl, inr, Bool, false, not, ◌&&◌, ◌||◌, [], ◌∷◌, ◌==◌, contains,
  Bool-cases, beq_comm, ok, >>=-eq-ok, ok-injective, arith,
}
use m2c.Prelude.Dict.{Map, lookup}
use m2c.Asm.{Location, location_eq}
use m2c.Flow.RefSet
use m2c.Flow.RefSet.{Reference, reference_eq, RefSet}
use m2c.Flow.LocationRefs
use m2c.Flow.LocationRefs.{LocationRefSetDict}
use m2c.Flow.Uses.{UseGraph, dict_at, add_at, sources, users, add_instruction_use}
use m2c.Flow.Uses.Views.{sources-add, users-add, dict_at-insert, get-add}
use m2c.Flow.Uses.Clean.{IsUnique, IsClean, stored-IsUnique, add_at-IsClean}

pub record IsConsistent (g : UseGraph) : Type 0 where
  -- `src` is a source of `loc` at `use_ref` exactly if `use_ref` uses `loc` from `src`.
  pub inverse :
      (use_ref : Reference) (loc : Location) (src : Reference)
      → contains (sources g use_ref loc) src ≡ contains (users g src loc) use_ref
  pub unique : (src : Reference) (loc : Location) → IsUnique (users g src loc)
  pub clean : (use_ref : Reference) → IsClean (dict_at use_ref g.instr_inputs)

module _ (r y x : Reference) (refs rest : RefSet) where
  removed_here :
      r ≡ y → contains refs y ≡ false → contains refs x ≡ (contains (y ∷ refs) x && not (x == r))
  removed_here e h = elim (Bool-cases (x == y)) [
    | inl same ↦ rw (e, same, (reference_eq.same_iff x y).0 same) h
    | inr other ↦ rw (e, other) (ground arith)
  ]

  removed_later :
      (r == y) ≡ false
      → contains rest x ≡ (contains refs x && not (x == r))
      → contains (y ∷ rest) x ≡ (contains (y ∷ refs) x && not (x == r))
  removed_later d h = elim (Bool-cases (x == y)) [
    | inl same ↦
        let e = (reference_eq.same_iff x y).0 same in
        let apart : (x == r) ≡ false = subst (λ z. (z == r) ≡ false) (sym e) (beq_comm y r ∙ d) in
        rw (same, apart)
    | inr other ↦ rw (other) h
  ]

-- After `refs.remove(r)` everything but r is as before.
pub remove-lem :
    (r : Reference) (refs left : RefSet)
    → IsUnique refs
    → RefSet.remove r refs ≡ ok left
    → IsUnique left × ((x : Reference) → contains left x ≡ (contains refs x && not (x == r)))
unfolding RefSet.remove
remove-lem r [] left u h = cc
remove-lem r (y ∷ refs) left u h = elim (Bool-cases (r == y)) [
  | inl here ↦
      let e = (reference_eq.same_iff r y).0 here in
      subst Removed (ok-injective (rw (here, RefSet.remove) at h))
        (u.1, λ x. removed_here r y x refs refs e u.0)
  | inr later ↦
      let (rest, er, el) = >>=-eq-ok (RefSet.remove r refs) _ (rw (later, RefSet.remove) at h) in
      let (ur, views) = remove-lem r refs rest u.1 er in
      subst Removed (ok-injective el)
        ((views y ∙ rw u.0, ur), λ x. removed_later r y x refs rest later (views x))
]
  where
    Removed : RefSet → Type 0
    Removed left' =
        IsUnique left'
        × ((x : Reference) → contains left' x ≡ (contains (y ∷ refs) x && not (x == r)))

abbrev pub AllUnique : Map Reference LocationRefSetDict → Type 0
AllUnique m = (r : Reference) (l : Location) → IsUnique (LocationRefs.get l (dict_at r m))

add_at-AllUnique :
    (ref : Reference) (loc : Location) (other : Reference) (m : Map Reference LocationRefSetDict)
    → AllUnique m
    → AllUnique (add_at ref loc other m)
unfolding add_at
add_at-AllUnique ref loc other m u r l =
    rw (dict_at-insert ref r (LocationRefs.add loc other (dict_at ref m)) m)
      (elim (Bool-cases (ref == r)) [
        | inl here ↦
            rw (here, get-add loc l other (dict_at ref m))
              (elim (Bool-cases (loc == l)) [
                | inl at ↦ rw at (stored-IsUnique loc other (dict_at ref m) (u ref loc))
                | inr away ↦ rw away (u ref l)
              ])
        | inr away ↦ rw away (u r l)
      ])

shuffle : (a b c : Bool) → (a && (b && c)) ≡ (c && (b && a))
shuffle a b c = ground arith

-- Adding a use to the two dictionaries keeps them inverse to one another and their sets of uses
-- without repetition.
pub add_instruction_use-IsConsistent :
    (use_ref : Reference) (loc : Location) (src : Reference) (g : UseGraph)
    → IsConsistent g
    → IsConsistent (add_instruction_use use_ref loc src g)
add_instruction_use-IsConsistent use_ref loc src g c = record {
  inverse = λ u l s.
      sources-add use_ref loc src g u l s
      ∙ inverse_step u l s
      ∙ sym (users-add use_ref loc src g s l u);
  unique = unfold add_instruction_use in add_at-AllUnique src loc use_ref g.instr_uses c.unique;
  clean = unfold add_instruction_use in add_at-IsClean use_ref loc src g.instr_inputs c.clean;
}
  where
    inverse_step :
        (u : Reference) (l : Location) (s : Reference)
        → (use_ref == u && (loc == l && s == src) || contains (sources g u l) s)
          ≡ (src == s && (loc == l && u == use_ref) || contains (users g s l) u)
    inverse_step u l s =
        rw (c.inverse u l s, beq_comm use_ref u, beq_comm s src)
          (ap (λ b. b || contains (users g s l) u) (shuffle (u == use_ref) (loc == l) (src == s)))

pub empty-IsConsistent : IsConsistent (record { instr_inputs = []; instr_uses = [] })
unfolding LocationRefs.get lookup
empty-IsConsistent = record { inverse = λ u l s. refl; unique = λ s l. tt; clean = λ u. tt }
