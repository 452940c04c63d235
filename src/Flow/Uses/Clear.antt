-- ===== src/Flow/Uses/Clear.antt =====
-- clear_instruction_inputs takes a reference out of both dictionaries.
use m2c.Prelude.{
  ◌≡◌, refl, ◌∙◌, subst, inl, inr, Bool, true, false, not, ◌&&◌, ◌||◌, [], ◌∷◌, ◌==◌, if◌then◌else◌,
  contains, Bool-cases, beq_comm, ok, >>=-eq-ok, ok-injective, arith,
}
use m2c.Prelude.Dict.{insert}
use m2c.Asm.{Location, location_eq}
use m2c.Flow.RefSet
use m2c.Flow.RefSet.{Reference, reference_eq, RefSet}
use m2c.Flow.LocationRefs.{LocationRefSetDict}
use m2c.Flow.Uses.{UseGraph, dict_at, users, remove_use, remove_uses, remove_all_uses}
use m2c.Flow.Uses.Views.{get-insert, dict_at-insert}
use m2c.Flow.Uses.Clean.{IsUnique, listed}
use m2c.Flow.Uses.Consistency.{AllUnique, remove-lem}

module _ (ref : Reference) where
  -- From the first graph to the second, `ref` left the users of the sources and locations that `gone`
  -- names, and nothing else changed.
  pub record Cleared (gone : Reference → Location → Bool) (g g' : UseGraph) : Type 0 where
    pub inputs : g'.instr_inputs ≡ g.instr_inputs
    pub unique : AllUnique g'.instr_uses
    pub view :
        (s : Reference) (l : Location) (u : Reference)
        → contains (users g' s l) u ≡ (contains (users g s l) u && not (u == ref && gone s l))

  Cleared-trans :
      (p q pq : Reference → Location → Bool) (g₁ g₂ g₃ : UseGraph)
      → ((s : Reference) (l : Location) → pq s l ≡ (p s l || q s l))
      → Cleared p g₁ g₂
      → Cleared q g₂ g₃
      → Cleared pq g₁ g₃
  Cleared-trans p q pq g₁ g₂ g₃ both c d = record {
    inputs = d.inputs ∙ c.inputs;
    unique = d.unique;
    view = λ s l u.
        d.view s l u
        ∙ rw (c.view s l u, both s l)
            (merge (contains (users g₁ s l) u) (u == ref) (p s l) (q s l));
  }
    where
      merge : (b r x y : Bool) → (b && not (r && x) && not (r && y)) ≡ (b && not (r && (x || y)))
      merge b r x y = ground arith

  Cleared-nothing :
      (p : Reference → Location → Bool) (g : UseGraph)
      → ((s : Reference) (l : Location) → p s l ≡ false)
      → AllUnique g.instr_uses
      → Cleared p g g
  Cleared-nothing p g nowhere u = record {
    inputs = refl;
    unique = u;
    view = λ s l x. rw (nowhere s l) (keep (contains (users g s l) x) (x == ref));
  }
    where
      keep : (b r : Bool) → b ≡ (b && not (r && false))
      keep b r = ground arith

  abbrev put : Reference → Location → RefSet → UseGraph → UseGraph
  put src loc left g = record g {
    instr_uses = insert src (insert loc left (dict_at src g.instr_uses)) g.instr_uses;
  }

  users-put :
      (src : Reference) (loc : Location) (left : RefSet) (g : UseGraph) (s : Reference)
      (l : Location)
      → users (put src loc left g) s l ≡ (if src == s && loc == l then left else users g s l)
  users-put src loc left g s l =
      rw (dict_at-insert src s (insert loc left (dict_at src g.instr_uses)) g.instr_uses)
        (elim (Bool-cases (src == s)) [
          | inl here ↦
              rw (here, get-insert loc l left (dict_at src g.instr_uses))
                (rw ((reference_eq.same_iff src s).0 here) refl)
          | inr away ↦ rw away
        ])

  put-Cleared :
      (src : Reference) (loc : Location) (left : RefSet) (g : UseGraph)
      → AllUnique g.instr_uses
      → IsUnique left
      → ((x : Reference) → contains left x ≡ (contains (users g src loc) x && not (x == ref)))
      → Cleared (λ s l. src == s && loc == l) g (put src loc left g)
  put-Cleared src loc left g u ul view = record {
    inputs = refl;
    unique = λ s l. rw (users-put src loc left g s l) (elim (Bool-cases (src == s && loc == l)) [
      | inl at ↦ rw at ul
      | inr away ↦ rw away (u s l)
    ]);
    view = λ s l x. rw (users-put src loc left g s l) (elim (Bool-cases (src == s)) [
      | inl here ↦ elim (Bool-cases (loc == l)) [
        | inl at ↦
            at_place s l x ((reference_eq.same_iff src s).0 here)
              ((location_eq.same_iff loc l).0 at) here at
        | inr away ↦ rw (here, away) (keep (contains (users g s l) x) (x == ref))
      ]
      | inr away ↦ rw away (keep (contains (users g s l) x) (x == ref))
    ]);
  }
    where
      keep : (b r : Bool) → b ≡ (b && not (r && false))
      keep b r = ground arith

      drop_true : (b r : Bool) → (b && not r) ≡ (b && not (r && true))
      drop_true b r = ground arith

      at_place :
          (s : Reference) (l : Location) (x : Reference)
          → src ≡ s
          → loc ≡ l
          → (src == s) ≡ true
          → (loc == l) ≡ true
          → contains (if src == s && loc == l then left else users g s l) x
            ≡ (contains (users g s l) x && not (x == ref && (src == s && loc == l)))
      at_place s l x es el hs hl =
          rw (hs, hl) (view x ∙ rw (es, el) (drop_true (contains (users g s l) x) (x == ref)))

  pub remove_use-Cleared :
      (src : Reference) (loc : Location) (g g' : UseGraph)
      → AllUnique g.instr_uses
      → remove_use src loc ref g ≡ ok g'
      → Cleared (λ s l. src == s && loc == l) g g'
  unfolding remove_use
  remove_use-Cleared src loc g g' u h =
      let (left, er, eg) = >>=-eq-ok (RefSet.remove ref (users g src loc)) _ h in
      let (ul, view) = remove-lem ref (users g src loc) left (u src loc) er in
      subst (Cleared (λ s l. src == s && loc == l) g) (ok-injective eg)
        (put-Cleared src loc left g u ul view)

  pub remove_uses-Cleared :
      (srcs : RefSet) (loc : Location) (g g' : UseGraph)
      → AllUnique g.instr_uses
      → remove_uses srcs loc ref g ≡ ok g'
      → Cleared (λ s l. loc == l && contains srcs s) g g'
  unfolding remove_uses
  remove_uses-Cleared [] loc g g' u h =
      subst (Cleared _ g) (ok-injective h) (Cleared-nothing _ g (λ s l. ground arith) u)
  remove_uses-Cleared (src ∷ srcs) loc g g' u h =
      let (g₁, e₁, e₂) = >>=-eq-ok (remove_use src loc ref g) _ h in
      let first = remove_use-Cleared src loc g g₁ u e₁ in
      let rest = remove_uses-Cleared srcs loc g₁ g' first.unique e₂ in
      Cleared-trans _ _ _ g g₁ g'
        (λ s l. rw (beq_comm s src) (split (src == s) (loc == l) (contains srcs s))) first rest
    where
      split : (a b c : Bool) → (b && (a || c)) ≡ (a && b || b && c)
      split a b c = ground arith

  pub remove_all_uses-Cleared :
      (items : LocationRefSetDict) (g g' : UseGraph)
      → AllUnique g.instr_uses
      → remove_all_uses items ref g ≡ ok g'
      → Cleared (listed items) g g'
  unfolding remove_all_uses
  remove_all_uses-Cleared [] g g' u h =
      subst (Cleared _ g) (ok-injective h) (Cleared-nothing _ g (λ s l. refl) u)
  remove_all_uses-Cleared ((loc, srcs) ∷ items) g g' u h =
      let (g₁, e₁, e₂) = >>=-eq-ok (remove_uses srcs loc ref g) _ h in
      let first = remove_uses-Cleared srcs loc g g₁ u e₁ in
      let rest = remove_all_uses-Cleared items g₁ g' first.unique e₂ in
      Cleared-trans _ _ _ g g₁ g' (λ s l. refl) first rest
