-- ===== src/Flow/Dominators/Correct.antt =====
-- compute_dominators ends, and what it returns is dominance.
use m2c.Prelude.{
  ℕ, zero, suc, ◌+◌, ◌*◌, ◌^◌, ◌≤◌, ◌<◌, ◌≡◌, refl, sym, ◌∙◌, ap, subst, inl, inr, ◌↔◌, Bool, true,
  false, some, List, nat_eq, nat_beq, nat_beq_iff, ltb, if◌then◌else◌, Bool-cases, Outcome, ok,
  arith,
}
use m2c.Prelude.Bits.{bit, bit-power, bit-ones}
use m2c.Prelude.Dict.{lookup, lookup-insert}
use m2c.Flow.Dominators.{Doms, sweep, iterate, initial, initial_doms, compute_dominators}
use m2c.Flow.Dominators.Step.{
  dom, total, Avoiding, start, walk, IsSound, Closed, IsStable, Progress, same, lower,
  visit-Progress,
}

lt_of_le_lt : (a b c : ℕ) → a ≤ b → b < c → a < c
lt_of_le_lt a b c h k = omega arith

power_le : (a b : ℕ) → a ≤ b → 2 ^ a ≤ 2 ^ b
power_le zero zero h = omega arith
power_le (suc a) zero h = absurd (omega arith)
power_le zero (suc b) h = omega (arith, power_le zero b (omega arith))
power_le (suc a) (suc b) h = omega (arith, power_le a b (omega arith))

module _ (nnodes entry : ℕ) (parents : ℕ → List ℕ) where
  -- A round from node `i` on leaves the state as it is, and all its nodes are stable, or lowers the
  -- total.
  data Round (i left : ℕ) (doms : Doms) (changes : Bool) : Doms × Bool → Type 0 where
    unchanged :
        ((v : ℕ) → i ≤ v → v < i + left → IsStable nnodes entry parents doms v)
        → Round i left doms changes (doms, changes)
    lowered :
        (doms' : Doms)
        → total nnodes doms' < total nnodes doms
        → Round i left doms changes (doms', true)

  after_same :
      (i left : ℕ) (doms : Doms) (changes : Bool) (state : Doms × Bool)
      → IsStable nnodes entry parents doms i
      → Round (suc i) left doms changes state
      → Round i (suc left) doms changes state
  after_same i left doms changes _ st (unchanged rest) = unchanged (λ v h k.
      elim (Bool-cases (nat_beq i v)) [
        | inl e ↦ subst (IsStable nnodes entry parents doms) ((nat_beq_iff i v).0 e) st
        | inr n ↦ rest v (ground arith) (omega arith)
      ])
  after_same i left doms changes _ st (lowered doms' lt) = lowered doms' lt

  after_lower :
      (i left : ℕ) (doms doms' : Doms) (changes : Bool) (state : Doms × Bool)
      → total nnodes doms' < total nnodes doms
      → Round (suc i) left doms' true state
      → Round i (suc left) doms changes state
  after_lower i left doms doms' changes _ h (unchanged rest) = lowered doms' h
  after_lower i left doms doms' changes _ h (lowered doms'' lt) = lowered doms'' (omega arith)

  after_visit :
      (i left : ℕ) (doms : Doms) (changes : Bool) (mid state : Doms × Bool)
      → Progress nnodes entry parents i doms changes mid
      → Round (suc i) left (mid.0) (mid.1) state
      → Round i (suc left) doms changes state
  after_visit i left doms changes _ state (same st) r = after_same i left doms changes state st r
  after_visit i left doms changes _ state (lower doms' h) r =
      after_lower i left doms doms' changes state h r

  sweep-Round :
      (left i : ℕ) (doms : Doms) (changes : Bool)
      → Closed nnodes entry parents
      → IsSound nnodes entry parents doms
      → i + left ≤ nnodes
      → (state : Doms × Bool) × (sweep entry parents left i doms changes ≡ ok state)
        × IsSound nnodes entry parents (state.0)
        × Round i left doms changes state
  unfolding sweep
  sweep-Round zero i doms changes closed s h =
      ((doms, changes), refl, s, unchanged (λ v a b. absurd (omega arith)))
  sweep-Round (suc left) i doms changes closed s h =
      let (mid, em, sm, pm) =
        visit-Progress nnodes entry parents i doms changes closed s (omega arith) in
      let (state, es, ss, r) = sweep-Round left (suc i) (mid.0) (mid.1) closed sm (omega arith) in
      rw em (state, es, ss, after_visit i left doms changes mid state pm r)

  record IsFixed (doms : Doms) : Type 0 where
    sound : IsSound nnodes entry parents doms
    stable : (v : ℕ) → v < nnodes → IsStable nnodes entry parents doms v

  settle-Round :
      (doms : Doms) (state : Doms × Bool) (again : Doms → Outcome Doms)
      → IsSound nnodes entry parents (state.0)
      → Round 0 nnodes doms false state
      → ((doms' : Doms)
          → IsSound nnodes entry parents doms'
          → total nnodes doms' < total nnodes doms
          → (final : Doms) × (again doms' ≡ ok final) × IsFixed final)
      → (final : Doms) × ((if state.1 then again (state.0) else ok (state.0)) ≡ ok final)
        × IsFixed final
  settle-Round doms _ again ss (unchanged st) ih =
      (doms, refl, record { sound = ss; stable = λ v lt. st v (omega arith) (omega arith) })
  settle-Round doms _ again ss (lowered doms' lt) ih = ih doms' ss lt

  iterate-IsFixed :
      (fuel : ℕ) (doms : Doms)
      → Closed nnodes entry parents
      → IsSound nnodes entry parents doms
      → total nnodes doms < fuel
      → (final : Doms) × (iterate fuel nnodes entry parents doms ≡ ok final) × IsFixed final
  unfolding iterate
  iterate-IsFixed zero doms closed s h = absurd (omega arith)
  iterate-IsFixed (suc fuel) doms closed s h =
      let (state, es, ss, r) = sweep-Round nnodes 0 doms false closed s (omega arith) in
      rw es (
        settle-Round doms state (iterate fuel nnodes entry parents) ss r
          (λ doms' s' lt. iterate-IsFixed fuel doms' closed s' (omega arith)))

  -- At a fixed point, what a walk to a node avoids is not in its set.
  avoided :
      (doms : Doms)
      → Closed nnodes entry parents
      → IsFixed doms
      → (i v : ℕ) → v < nnodes
      → Avoiding nnodes entry parents i v
      → bit (dom doms v) i ≡ false
  avoided doms closed f i _ lt (start apart) =
      rw f.sound.at_entry (bit-power entry i ∙ ground arith)
  avoided doms closed f i _ lt (walk p v before m apart) = elim (Bool-cases (nat_beq v entry)) [
    | inl e ↦
        let at : v ≡ entry = (nat_beq_iff v entry).0 e in
        rw (at, f.sound.at_entry) (bit-power entry i ∙ ground arith)
    | inr n ↦
        f.stable v lt (λ e. ground arith) i p m (avoided doms closed f i p (closed v p lt m) before)
          apart
  ]

  initial_present :
      (n v : ℕ) → v < n → lookup v (initial_doms nnodes entry n) ≡ some (initial nnodes entry v)
  unfolding initial_doms
  initial_present zero v h = absurd (omega arith)
  initial_present (suc n) v h =
      lookup-insert n v (initial nnodes entry n) (initial_doms nnodes entry n)
      ∙ elim (Bool-cases (nat_beq n v)) [
        | inl e ↦ rw (e, (nat_beq_iff n v).0 e) refl
        | inr away ↦ rw away (initial_present n v (ground arith))
      ]

  dom-initial :
      (v : ℕ) → v < nnodes → dom (initial_doms nnodes entry nnodes) v ≡ initial nnodes entry v
  dom-initial v h = rw (initial_present nnodes v h) refl

  initial_avoids :
      (v i : ℕ)
      → i < nnodes
      → bit (initial nnodes entry v) i ≡ false
      → Avoiding nnodes entry parents i v
  initial_avoids v i k lacks = elim (Bool-cases (nat_beq v entry)) [
    | inl e ↦
        let at : v ≡ entry = (nat_beq_iff v entry).0 e in
        let apart : nat_beq v i ≡ false = sym (bit-power v i) ∙ rw e at lacks in
        subst (Avoiding nnodes entry parents i) (sym at) (start (λ same_node. ground arith))
    | inr n ↦
        let outside : ltb i nnodes ≡ false = sym (bit-ones nnodes i) ∙ rw n at lacks in
        absurd (ground arith)
  ]

  initial_doms-IsSound :
      entry < nnodes → IsSound nnodes entry parents (initial_doms nnodes entry nnodes)
  initial_doms-IsSound lt = record {
    present = λ v h. initial_present nnodes v h ∙ ap some (sym (dom-initial v h));
    at_entry = dom-initial entry lt ∙ ground arith;
    itself = λ v h. rw (dom-initial v h) (elim (Bool-cases (nat_beq v entry)) [
      | inl e ↦ rw e (bit-power v v ∙ ground arith)
      | inr n ↦ rw n (bit-ones nnodes v ∙ ground arith)
    ]);
    avoids =
        λ v i h k lacks. initial_avoids v i k (ap (λ d. bit d i) (sym (dom-initial v h)) ∙ lacks);
  }

  initial_le : (v : ℕ) → v ≤ nnodes → initial nnodes entry v ≤ 2 ^ nnodes
  initial_le v h = elim (Bool-cases (nat_beq v entry)) [
    | inl e ↦ rw e (power_le v nnodes h)
    | inr n ↦ rw n (omega arith)
  ]

  initial_total :
      (n : ℕ)
      → n ≤ nnodes
      → entry < nnodes
      → total n (initial_doms nnodes entry nnodes) ≤ n * 2 ^ nnodes
  initial_total zero h lt = omega arith
  initial_total (suc n) h lt = grind (
    arith,
    initial_total n (omega arith) lt,
    dom-initial n (omega arith),
    initial_le n (omega arith),
  )

  -- compute_dominators returns, with more rounds allowed than `nnodes * 2 ** nnodes`, if the entry and
  -- the parents of nodes are nodes; its assertion never fails. A node is missing in the set of `v`
  -- exactly if some walk from the entry to `v` does not meet it: the sets are the dominators.
  pub compute_dominators_lem :
      (fuel : ℕ)
      → entry < nnodes
      → Closed nnodes entry parents
      → nnodes * 2 ^ nnodes < fuel
      → (doms : Doms) × (compute_dominators fuel nnodes entry parents ≡ ok doms)
        × ((v i : ℕ)
            → v < nnodes
            → i < nnodes
            → (bit (dom doms v) i ≡ false) ↔ Avoiding nnodes entry parents i v)
  unfolding compute_dominators
  compute_dominators_lem fuel lt closed h =
      let (doms, e, f) =
        iterate-IsFixed fuel (initial_doms nnodes entry nnodes) closed (initial_doms-IsSound lt)
          (lt_of_le_lt _ _ _ (initial_total nnodes (omega arith) lt) h) in
      (doms, e, λ v i hv hi. (f.sound.avoids v i hv hi, avoided doms closed f i v hv))
