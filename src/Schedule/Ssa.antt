-- ===== src/Schedule/Ssa.antt =====
-- What `_verify_schedule` guarantees of the operations of a schedule.
use ag_infer.Prelude.{
  true, All-In, ℕ, ◌+◌, ◌<◌, ◌≡◌, ◌≢◌, refl, sym, ap₂, String, false, not, ◌&&◌, Option, none, some,
  List, [], ◌∷◌, ◌++◌, map, ok, arith, raise_if, raise_if-eq-ok, >>=-then, ok-injective, traverse,
  ◌==◌, length, range, elem, all_of, All, All-imp, All-append, Pairwise, subst,
}
use ag_infer.Prelude.Loops.{traverse-All}
use ag_infer.Schedule.{ScheduledValue, ScheduledOp, item}
use ag_infer.Schedule.Produced.{Produces, IsMade, values-AreMade, item-In, item-named}
use ag_infer.Schedule.Verify.{
  defined_by, verify_input, is_some, define_outputs, verify_ops, needs_producer, verify_value,
  verify_schedule,
}

-- The value exists, and what is noted as its producer, if anything, stands before the operation.
pub record Earlier (values : List ScheduledValue) (index value_id : ℕ) : Type 0 where
  pub value : ScheduledValue
  pub found : item values value_id ≡ ok value
  pub before : (producer : ℕ) → value.producer ≡ some producer → producer < index

verify_input-Earlier :
    (values : List ScheduledValue) (index value_id : ℕ) (u : Unit {0})
    → verify_input values index value_id ≡ ok u
    → Earlier values index value_id
unfolding verify_input
verify_input-Earlier values index value_id u e =
    >>=-then (item values value_id) _ e λ value found passed.
      let tested = raise_if-eq-ok _ _ passed in
      record {
        value = value;
        found = found;
        before = λ producer p. let early = rw p at tested in ground arith;
      }

-- A value without a definition, after one definition more.
defined_by-skip :
    (o index v : ℕ) (produced : List (ℕ × ℕ))
    → defined_by ((o, index) ∷ produced) v ≡ none
    → (o ≢ v) × (defined_by produced v ≡ none)
unfolding defined_by
defined_by-skip o index v produced h = ground arith

defined_by-unless : (o : Option ℕ) → is_some o ≡ false → o ≡ none
defined_by-unless none h = refl
defined_by-unless (some n) h = cc

define_outputs-fresh :
    (index : ℕ) (produced : List (ℕ × ℕ)) (outs : List ℕ) {produced' : List (ℕ × ℕ)} (v : ℕ)
    → define_outputs index produced outs ≡ ok produced'
    → defined_by produced' v ≡ none
    → (defined_by produced v ≡ none) × All (λ o. o ≢ v) outs
unfolding define_outputs
define_outputs-fresh index produced [] v e n =
    (subst (λ l. defined_by l v ≡ none) (sym (ok-injective e)) n, tt)
define_outputs-fresh index produced (o ∷ outs) v e n =
    >>=-then (raise_if (is_some (defined_by produced o)) _) _ e λ _ _ rest.
      let (later, others) = define_outputs-fresh index ((o, index) ∷ produced) outs v rest n in
      let (other, earlier) = defined_by-skip o index v produced later in (earlier, (other, others))

define_outputs-once :
    (index : ℕ) (produced : List (ℕ × ℕ)) (outs : List ℕ) {produced' : List (ℕ × ℕ)}
    → define_outputs index produced outs ≡ ok produced'
    → All (λ o. defined_by produced o ≡ none) outs × Pairwise ◌≢◌ outs
unfolding define_outputs
define_outputs-once index produced [] e = (tt, tt)
define_outputs-once index produced (o ∷ outs) e =
    >>=-then (raise_if (is_some (defined_by produced o)) _) _ e λ _ fresh rest.
      let (news, apart) = define_outputs-once index ((o, index) ∷ produced) outs rest in
      (
        (
          defined_by-unless (defined_by produced o) (raise_if-eq-ok _ _ fresh),
          All-imp _ _ outs (λ v h. (defined_by-skip o index v produced h).1) news,
        ),
        (All-imp _ _ outs (λ v h. (defined_by-skip o index v produced h).0) news, apart),
      )

-- The outputs of all operations.
abbrev pub outputs_of : List ScheduledOp → List ℕ
outputs_of [] = []
outputs_of (op ∷ ops) = op.outputs ++ outputs_of ops

Pairwise-append :
    (xs ys : List ℕ)
    → Pairwise ◌≢◌ xs
    → Pairwise ◌≢◌ ys
    → All (λ y. All (λ x. x ≢ y) xs) ys
    → Pairwise ◌≢◌ (xs ++ ys)
Pairwise-append [] ys p q h = q
Pairwise-append (x ∷ xs) ys p q h = (
  All-append (λ y. x ≢ y) xs ys p.0 (All-imp _ _ ys (λ y a. a.0) h),
  Pairwise-append xs ys p.1 q (All-imp _ _ ys (λ y a. a.1) h),
)

-- What the loop over the operations has checked of those that are left.
record AreSsa (values : List ScheduledValue) (expected_index : ℕ) (produced : List (ℕ × ℕ))
    (ops : List ScheduledOp) : Type 0 where
  numbered : map (λ (op : ScheduledOp). op.execution_index) ops ≡ range expected_index (length ops)
  available : All (λ (op : ScheduledOp). All (Earlier values op.execution_index) op.inputs) ops
  new : All (λ v. defined_by produced v ≡ none) (outputs_of ops)
  once : Pairwise ◌≢◌ (outputs_of ops)

verify_ops-AreSsa :
    (values : List ScheduledValue) (ids : List ℕ) (expected_index : ℕ) (produced : List (ℕ × ℕ))
    (ops : List ScheduledOp) {produced' : List (ℕ × ℕ)}
    → verify_ops values ids expected_index produced ops ≡ ok produced'
    → AreSsa values expected_index produced ops
unfolding verify_ops range
verify_ops-AreSsa values ids i produced [] e = record {
  numbered = refl;
  available = tt;
  new = tt;
  once = tt;
}
verify_ops-AreSsa values ids i produced (op ∷ ops) e =
    >>=-then (raise_if (not (op.execution_index == i)) _) _ e λ _ numbered e1.
      >>=-then (raise_if (not (all_of (λ v. elem v ids) (op.inputs ++ op.outputs))) _) _ e1
        λ _ _ e2.
          >>=-then (traverse (verify_input values op.execution_index) op.inputs) _ e2 λ _ inputs e3.
            >>=-then (define_outputs op.execution_index produced op.outputs) _ e3
              λ next defined rest.
                let s = verify_ops-AreSsa values ids (i + 1) next ops rest in
                let tested = raise_if-eq-ok _ _ numbered in
                let same : op.execution_index ≡ i = ground arith in
                let (news, apart) =
                  define_outputs-once op.execution_index produced op.outputs defined in
                let kept =
                  All-imp _ _ (outputs_of ops)
                    (λ v h. define_outputs-fresh op.execution_index produced op.outputs v defined h)
                    s.new in
                record {
                  numbered = ap₂ ◌∷◌ same s.numbered;
                  available = (
                    traverse-All (verify_input values op.execution_index)
                        (Earlier values op.execution_index)
                        (verify_input-Earlier values op.execution_index) op.inputs inputs,
                    s.available,
                  );
                  new =
                      All-append _ op.outputs (outputs_of ops) news
                        (All-imp _ _ (outputs_of ops) (λ v h. h.0) kept);
                  once =
                      Pairwise-append op.outputs (outputs_of ops) apart s.once
                        (All-imp _ _ (outputs_of ops) (λ v h. h.1) kept);
                }

-- An operand exists at its identifier. If a producer is noted for it, an earlier operation outputs it; and one
-- is noted for each temporary and each alias of a state.
pub record Available (values : List ScheduledValue) (ops : List ScheduledOp) (index value_id : ℕ)
    : Type 0 where
  pub value : ScheduledValue
  pub found : item values value_id ≡ ok value
  pub named : value.value_id ≡ value_id
  pub before :
      (producer : ℕ)
      → value.producer ≡ some producer
      → (producer < index) × Produces ops producer value_id
  pub needed : needs_producer value.storage ≡ true → (p : ℕ) × (value.producer ≡ some p)

Earlier-Available :
    (values : List ScheduledValue) (ops : List ScheduledOp) (index value_id : ℕ)
    → map (λ (v : ScheduledValue). v.value_id) values ≡ range 0 (length values)
    → All (IsMade ops) values
    → Earlier values index value_id
    → Available values ops index value_id
Earlier-Available values ops index value_id in_order made e =
    let named = item-named values value_id in_order e.found in
    let m = All-In (IsMade ops) e.value values made (item-In values value_id e.found) in
    record {
      value = e.value;
      found = e.found;
      named = named;
      before = λ p noted. (e.before p noted, subst (λ v. Produces ops p v) named (m.by p noted));
      needed = m.needed;
    }

-- A schedule in static single assignment form.
pub record IsSsa (values : List ScheduledValue) (ops : List ScheduledOp) : Type 0 where
  pub numbered : map (λ (op : ScheduledOp). op.execution_index) ops ≡ range 0 (length ops)
  pub available :
      All (λ (op : ScheduledOp). All (Available values ops op.execution_index) op.inputs) ops
  pub once : Pairwise ◌≢◌ (outputs_of ops)

-- In every schedule that `_verify_schedule` accepts, and whose values stand in the order of their
-- identifiers, each operation has its position as its index; each operand exists; an operand that is a
-- temporary or an alias of a state is an output of an earlier operation, and so is every other one
-- for which a producer is noted; and no value is an output twice.
pub verify_schedule-IsSsa :
    (values : List ScheduledValue) (ops : List ScheduledOp)
    (entry_inputs entry_outputs states : List (String × ℕ))
    → map (λ (v : ScheduledValue). v.value_id) values ≡ range 0 (length values)
    → verify_schedule values ops entry_inputs entry_outputs states ≡ ok tt
    → IsSsa values ops
unfolding verify_schedule
verify_schedule-IsSsa values ops entry_inputs entry_outputs states in_order e =
    let ids = map (λ (v : ScheduledValue). v.value_id) values in
    >>=-then
      (raise_if
        (not (
          all_of (λ i. elem i (range 0 (length values))) ids
          && all_of (λ i. elem i ids) (range 0 (length values))))
        _)
      _ e
      λ _ _ e1. >>=-then (verify_ops values ids 0 [] ops) _ e1 λ produced accepted e2.
        >>=-then (traverse (verify_value values produced) values) _ e2 λ _ checked _.
          let s = verify_ops-AreSsa values ids 0 [] ops accepted in
          let made = values-AreMade values ids ops produced accepted checked in
          record {
            numbered = s.numbered;
            available =
                All-imp _ _ ops
                  (λ op.
                    All-imp _ _ op.inputs
                      (λ v. Earlier-Available values ops op.execution_index v in_order made))
                  s.available;
            once = s.once;
          }
