-- ===== src/Flow/Dominators/Step.antt =====
-- One visit of compute_dominators: what it preserves, and when it makes progress.
use m2c.Prelude.{
  ℕ, zero, suc, ◌+◌, ◌^◌, ◌≤◌, ◌<◌, bit_and, bit_or, ◌≡◌, ◌≢◌, refl, sym, ◌∙◌, ap, subst, inl, inr,
  Bool, true, false, ◌&&◌, ◌||◌, Option, none, some, List, [], ◌∷◌, In, nat_eq, nat_beq,
  nat_beq_iff, if◌then◌else◌, Bool-cases, ok, arith,
}
use m2c.Prelude.Bits.{bit, bit-and, bit-or, bit-power, bits-eq, and_le}
use m2c.Prelude.Dict.{lookup, insert, lookup-insert}
use m2c.Flow.Dominators.{Doms, meet, store, visit}

abbrev pub or_zero : Option ℕ → ℕ
or_zero (some d) = d
or_zero none = 0

-- The set that is stored for a node.
abbrev pub dom : Doms → ℕ → ℕ
dom doms v = or_zero (lookup v doms)

-- The sum of the stored numbers, which a change lowers.
abbrev pub total : ℕ → Doms → ℕ
total zero doms = 0
total (suc n) doms = total n doms + dom doms n

dom-insert :
    (i v new : ℕ) (doms : Doms)
    → dom (insert i new doms) v ≡ (if nat_beq i v then new else dom doms v)
dom-insert i v new doms = ground (arith, lookup-insert i v new doms)

total-insert_above :
    (n i new : ℕ) (doms : Doms) → n ≤ i → total n (insert i new doms) ≡ total n doms
total-insert_above zero i new doms h = refl
total-insert_above (suc n) i new doms h =
    ground (arith, dom-insert i n new doms, total-insert_above n i new doms (omega arith))

total-insert :
    (n i new : ℕ) (doms : Doms)
    → i < n
    → total n (insert i new doms) + dom doms i ≡ total n doms + new
total-insert zero i new doms h = absurd (omega arith)
total-insert (suc n) i new doms h = elim (Bool-cases (nat_beq i n)) [
  | inl last ↦
      let e = (nat_beq_iff i n).0 last in
      ground (arith, dom-insert i n new doms, total-insert_above n i new doms (omega arith))
  | inr before ↦
      let lt : i < n = ground arith in
      ground (arith, dom-insert i n new doms, total-insert n i new doms lt)
]

module _ (nnodes entry : ℕ) (parents : ℕ → List ℕ) where
  -- There is a walk from the entry to `v` that does not meet `i`.
  pub data Avoiding (i : ℕ) : ℕ → Type 0 where
    start : entry ≢ i → Avoiding i entry
    walk : (p v : ℕ) → Avoiding i p → In p (parents v) → v ≢ i → Avoiding i v

  pub record IsSound (doms : Doms) : Type 0 where
    pub present : (v : ℕ) → v < nnodes → lookup v doms ≡ some (dom doms v)
    pub at_entry : dom doms entry ≡ 2 ^ entry
    pub itself : (v : ℕ) → v < nnodes → bit (dom doms v) v ≡ true
    pub avoids : (v i : ℕ) → v < nnodes → i < nnodes → bit (dom doms v) i ≡ false → Avoiding i v

  abbrev pub Closed : Type 0
  Closed = (v p : ℕ) → v < nnodes → In p (parents v) → p < nnodes

  -- What the parents of `v` avoid, `v` avoids too, unless it is `v` itself.
  abbrev pub IsStable : Doms → ℕ → Type 0
  IsStable doms v =
      (v ≢ entry)
      → (i p : ℕ) → In p (parents v)
      → bit (dom doms p) i ≡ false
      → v ≢ i
      → bit (dom doms v) i ≡ false

  abbrev pub all_have : Doms → List ℕ → ℕ → Bool
  all_have doms [] i = true
  all_have doms (p ∷ ps) i = bit (dom doms p) i && all_have doms ps i

  meet_lem :
      (doms : Doms) (ps : List ℕ) (nset : ℕ)
      → ((p : ℕ) → In p ps → lookup p doms ≡ some (dom doms p))
      → (met : ℕ) × (meet ps doms nset ≡ ok met)
        × ((i : ℕ) → bit met i ≡ (bit nset i && all_have doms ps i))
  unfolding meet
  meet_lem doms [] nset h = (nset, refl, λ i. ground arith)
  meet_lem doms (p ∷ ps) nset h =
      let (met, e, view) = meet_lem doms ps (bit_and nset (dom doms p)) (λ q m. h q (inr m)) in
      rw (h p (inl refl)) (met, e, λ i. view i ∙ ground (arith, bit-and nset (dom doms p) i))

  all_have-In :
      (doms : Doms) (ps : List ℕ) (i p : ℕ)
      → In p ps
      → bit (dom doms p) i ≡ false
      → all_have doms ps i ≡ false
  all_have-In doms [] i p m h = elim m [ ]
  all_have-In doms (q ∷ ps) i p (inl e) h = rw (sym e, h) refl
  all_have-In doms (q ∷ ps) i p (inr m) h = ground (arith, all_have-In doms ps i p m h)

  some_lacks :
      (doms : Doms) (ps : List ℕ) (i : ℕ)
      → all_have doms ps i ≡ false
      → (p : ℕ) × In p ps × (bit (dom doms p) i ≡ false)
  some_lacks doms [] i h = cc
  some_lacks doms (q ∷ ps) i h = elim (Bool-cases (bit (dom doms q) i)) [
    | inl has ↦ let (p, m, l) = some_lacks doms ps i (rw has at h) in (p, inr m, l)
    | inr lacks ↦ (q, inl refl, lacks)
  ]

  -- A visit leaves the state as it is, and the node is stable, or it lowers the total.
  pub data Progress (i : ℕ) (doms : Doms) (changes : Bool) : Doms × Bool → Type 0 where
    same : IsStable doms i → Progress i doms changes (doms, changes)
    lower :
        (doms' : Doms)
        → total nnodes doms' < total nnodes doms
        → Progress i doms changes (doms', true)

  -- The set that a visit computes for `v`.
  module _ (closed : Closed) (doms : Doms) (s : IsSound doms) (v : ℕ) (lt : v < nnodes)
      (other : v ≢ entry) where
    record IsMet (nset : ℕ) : Type 0 where
      view :
          (i : ℕ) → bit nset i ≡ (bit (dom doms v) i && all_have doms (parents v) i || nat_beq v i)

    met-below : (nset : ℕ) → IsMet nset → bit_and nset (dom doms v) ≡ nset
    met-below nset m = bits-eq (bit_and nset (dom doms v)) nset (λ i.
        bit-and nset (dom doms v) i
        ∙ rw (m.view i) (elim (Bool-cases (nat_beq v i)) [
          | inl e ↦ rw (e) (keep_true i ((nat_beq_iff v i).0 e))
          | inr n ↦ rw n (keep (bit (dom doms v) i) (all_have doms (parents v) i))
        ]))
      where
        keep : (a b : Bool) → ((a && b || false) && a) ≡ (a && b || false)
        keep a b = ground arith

        keep_true :
            (i : ℕ)
            → v ≡ i
            → ((bit (dom doms v) i && all_have doms (parents v) i || true) && bit (dom doms v) i)
              ≡ (bit (dom doms v) i && all_have doms (parents v) i || true)
        keep_true i e =
            let self : bit (dom doms v) i ≡ true =
              subst (λ j. bit (dom doms v) j ≡ true) e (s.itself v lt) in
            rw self (ground arith)

    new_avoids : (nset : ℕ) → IsMet nset → (i : ℕ) → i < nnodes → bit nset i ≡ false → Avoiding i v
    new_avoids nset m i k lacks = elim (Bool-cases (nat_beq v i)) [
      | inl e ↦
          absurd (
            by_self (m.view i ∙ rw e (or_true (bit (dom doms v) i && all_have doms (parents v) i))))
      | inr n ↦ elim (Bool-cases (bit (dom doms v) i)) [
        | inr before ↦ s.avoids v i lt k before
        | inl has ↦
            let (p, mem, l) = some_lacks doms (parents v) i (
              parent_lacks (bit nset i) (bit (dom doms v) i) (all_have doms (parents v) i)
                (nat_beq v i) (m.view i) lacks has) in
            walk p v (s.avoids p i (closed v p lt mem) k l) mem (λ e. ground arith)
      ]
    ]
      where
        by_self : bit nset i ≡ true → ⊥
        by_self has = cc

        parent_lacks : (x a b c : Bool) → x ≡ (a && b || c) → x ≡ false → a ≡ true → b ≡ false
        parent_lacks x a b c e no_x is_a = ground arith

        or_true : (b : Bool) → (b || true) ≡ true
        or_true b = ground arith

    insert-IsSound : (nset : ℕ) → IsMet nset → IsSound (insert v nset doms)
    insert-IsSound nset m = record {
      present = λ w h. ground (arith, lookup-insert v w nset doms, s.present w h);
      at_entry = dom-insert v entry nset doms ∙ ground (arith, s.at_entry);
      itself = λ w h. rw (dom-insert v w nset doms) (elim (Bool-cases (nat_beq v w)) [
        | inl e ↦ rw e (m.view w ∙ rw e (ground arith))
        | inr n ↦ rw n (s.itself w h)
      ]);
      avoids = λ w i h k lacks. elim (Bool-cases (nat_beq v w)) [
        | inl e ↦
            subst (Avoiding i) ((nat_beq_iff v w).0 e)
              (new_avoids nset m i k (rw (dom-insert v w nset doms, e) at lacks))
        | inr n ↦ s.avoids w i h k (rw (dom-insert v w nset doms, n) at lacks)
      ];
    }

    met-IsStable : (nset : ℕ) → IsMet nset → nset ≡ dom doms v → IsStable doms v
    met-IsStable nset m e n i p mem l apart =
        ap (λ x. bit x i) (sym e)
        ∙ (m.view i ∙ rw (all_have-In doms (parents v) i p mem l, differ apart) (ground arith))
      where
        differ : v ≢ i → nat_beq v i ≡ false
        differ d = ground arith

    store-Progress :
        (nset : ℕ) (changes : Bool)
        → IsMet nset
        → (state : Doms × Bool) × (store v nset (dom doms v) doms changes ≡ ok state)
          × IsSound (state.0)
          × Progress v doms changes state
    unfolding store
    store-Progress nset changes m = elim (Bool-cases (nat_beq nset (dom doms v))) [
      | inl same_set ↦ rw same_set (
        (doms, changes),
        refl,
        s,
        same (met-IsStable nset m ((nat_beq_iff nset (dom doms v)).0 same_set)),
      )
      | inr new ↦
          let below = met-below nset m in
          rw (new, below, (nat_beq_iff nset nset).1 refl)
            (
              (insert v nset doms, true),
              refl,
              insert-IsSound nset m,
              lower (insert v nset doms) (smaller below new),
            )
    ]
      where
        smaller :
            bit_and nset (dom doms v) ≡ nset
            → nat_beq nset (dom doms v) ≡ false
            → total nnodes (insert v nset doms) < total nnodes doms
        smaller below new =
            ground (arith, and_le nset (dom doms v), total-insert nnodes v nset doms lt)

  pub visit-Progress :
      (i : ℕ) (doms : Doms) (changes : Bool)
      → Closed
      → IsSound doms
      → i < nnodes
      → (state : Doms × Bool) × (visit entry parents i doms changes ≡ ok state)
        × IsSound (state.0)
        × Progress i doms changes state
  unfolding visit
  visit-Progress i doms changes closed s lt = elim (Bool-cases (nat_beq i entry)) [
    | inl e ↦
        rw e ((doms, changes), refl, s, same (λ apart. absurd (apart ((nat_beq_iff i entry).0 e))))
    | inr n ↦
        let other : i ≢ entry = λ e. ground arith in
        let (met, em, view) =
          meet_lem doms (parents i) (dom doms i) (λ p m. s.present p (closed i p lt m)) in
        let (state, es, s', p) =
          store-Progress closed doms s i lt other (bit_or met (2 ^ i)) changes
            (record { view = λ j. bit-or met (2 ^ i) j ∙ rw (view j, bit-power i j) }) in
        rw (n, s.present i lt) (rw em (state, es, s', p))
  ]
