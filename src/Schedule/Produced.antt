-- ===== src/Schedule/Produced.antt =====
-- Where the producers come from that `_verify_schedule` has checked.
use ag_infer.Prelude.{
  ℕ, zero, suc, ◌+◌, ◌≡◌, refl, sym, ap, ◌∙◌, ◌⊎◌, inl, inr, true, false, not, Option, none, some,
  List, [], ◌∷◌, ◌++◌, map, ok, raise_if, raise_if-eq-ok, >>=-then, ok-injective, traverse,
  Bool-cases, Option-cases, ◌==◌, ==_iff, length, range, elem, all_of, All, In, subst, arith,
}
use ag_infer.Prelude.Loops.{traverse-All}
use ag_infer.Prelude.{some-injective}
use ag_infer.Schedule.{ScheduledValue, ScheduledOp, item}
use ag_infer.Schedule.Verify.{
  defined_by, verify_input, is_some, define_outputs, verify_ops, needs_producer, same_producer,
  verify_producer, verify_value,
}

-- An operation with an index, among whose outputs a value is.
abbrev pub Produces : List ScheduledOp → ℕ → ℕ → Type 0
Produces ops index value_id =
    (op : ScheduledOp) × In op ops
    × (op.execution_index ≡ index)
    × (elem value_id op.outputs ≡ true)

define_outputs-from :
    (index : ℕ) (produced : List (ℕ × ℕ)) (outs : List ℕ) {produced' : List (ℕ × ℕ)} (v p : ℕ)
    → define_outputs index produced outs ≡ ok produced'
    → defined_by produced' v ≡ some p
    → (defined_by produced v ≡ some p) ⊎ ((index ≡ p) × (elem v outs ≡ true))
unfolding define_outputs defined_by elem
define_outputs-from index produced [] v p e d =
    inl (subst (λ l. defined_by l v ≡ some p) (sym (ok-injective e)) d)
define_outputs-from index produced (o ∷ outs) v p e d =
    >>=-then (raise_if (is_some (defined_by produced o)) _) _ e λ _ _ rest.
      elim (define_outputs-from index ((o, index) ∷ produced) outs v p rest d) [
        | inr (same, m) ↦ inr (same, ground arith)
        | inl before ↦ elim (Bool-cases (o == v)) [
          | inl here ↦ inr (some-injective (rw here at before), ground arith)
          | inr other ↦ inl (rw other at before)
        ]
      ]

verify_ops-from :
    (values : List ScheduledValue) (ids : List ℕ) (expected_index : ℕ) (produced : List (ℕ × ℕ))
    (ops : List ScheduledOp) {produced' : List (ℕ × ℕ)} (v p : ℕ)
    → verify_ops values ids expected_index produced ops ≡ ok produced'
    → defined_by produced' v ≡ some p
    → (defined_by produced v ≡ some p) ⊎ Produces ops p v
unfolding verify_ops
verify_ops-from values ids i produced [] v p e d =
    inl (subst (λ l. defined_by l v ≡ some p) (sym (ok-injective e)) d)
verify_ops-from values ids i produced (op ∷ ops) v p e d =
    >>=-then (raise_if (not (op.execution_index == i)) _) _ e λ _ _ e1.
      >>=-then (raise_if (not (all_of (λ v. elem v ids) (op.inputs ++ op.outputs))) _) _ e1
        λ _ _ e2.
          >>=-then (traverse (verify_input values op.execution_index) op.inputs) _ e2 λ _ _ e3.
            >>=-then (define_outputs op.execution_index produced op.outputs) _ e3
              λ next defined rest. elim (verify_ops-from values ids (i + 1) next ops v p rest d) [
                | inr (other, among, index, m) ↦ inr (other, inr among, index, m)
                | inl sooner ↦
                    elim (define_outputs-from op.execution_index produced op.outputs v p defined
                      sooner) [
                        | inl before ↦ inl before
                        | inr (index, m) ↦ inr (op, inl refl, index, m)
                      ]
              ]

nothing_defined : (v p : ℕ) → defined_by [] v ≡ some p → ⊥
unfolding defined_by
nothing_defined v p d = cc

-- What the check of a value says of its producer.
pub record IsMade (ops : List ScheduledOp) (value : ScheduledValue) : Type 0 where
  pub by : (p : ℕ) → value.producer ≡ some p → Produces ops p value.value_id
  pub needed : needs_producer value.storage ≡ true → (p : ℕ) × (value.producer ≡ some p)

same_producer-some : (o : Option ℕ) (p : ℕ) → not (same_producer o p) ≡ false → o ≡ some p
same_producer-some none p h = cc
same_producer-some (some index) p h = ap some ((==_iff index p).0 (ground arith))

verify_producer-by :
    (produced : List (ℕ × ℕ)) (value : ScheduledValue) (p : ℕ) {u : Unit {0}}
    → verify_producer produced value ≡ ok u
    → value.producer ≡ some p
    → defined_by produced value.value_id ≡ some p
unfolding verify_producer
verify_producer-by produced value p e made =
    let tested = rw (made, verify_producer) at e in
    same_producer-some (defined_by produced value.value_id) p (raise_if-eq-ok _ _ tested)

verify_producer-needed :
    (produced : List (ℕ × ℕ)) (value : ScheduledValue) {u : Unit {0}}
    → verify_producer produced value ≡ ok u
    → needs_producer value.storage ≡ true
    → (p : ℕ) × (value.producer ≡ some p)
unfolding verify_producer
verify_producer-needed produced value e needed = elim (Option-cases value.producer) [
  | inr made ↦ made
  | inl n ↦
      let tested = rw (n, verify_producer) at e in
      absurd (let free = raise_if-eq-ok _ _ tested in cc)
]

pub values-AreMade :
    (values : List ScheduledValue) (ids : List ℕ) (ops : List ScheduledOp) (produced : List (ℕ × ℕ))
    {us : List (Unit {0})}
    → verify_ops values ids 0 [] ops ≡ ok produced
    → traverse (verify_value values produced) values ≡ ok us
    → All (IsMade ops) values
unfolding verify_value
values-AreMade values ids ops produced ran checked =
    traverse-All (verify_value values produced) (IsMade ops)
      (λ value u e. >>=-then (verify_producer produced value) _ e λ _ passed _. record {
        by = λ p made.
            elim (verify_ops-from values ids 0 [] ops value.value_id p ran
              (verify_producer-by produced value p passed made)) [
                | inl nothing ↦ absurd (nothing_defined value.value_id p nothing)
                | inr found ↦ found
              ];
        needed = verify_producer-needed produced value passed;
      })
      values checked

pub item-In : {A : Type 0} (xs : List A) (i : ℕ) {x : A} → item xs i ≡ ok x → In x xs
unfolding item
item-In [] i e = cc
item-In (y ∷ ys) zero e = inl (sym (ok-injective e))
item-In (y ∷ ys) (suc i) e = inr (item-In ys i e)

item-named_from :
    (values : List ScheduledValue) (start i : ℕ) {value : ScheduledValue}
    → map (λ (v : ScheduledValue). v.value_id) values ≡ range start (length values)
    → item values i ≡ ok value
    → value.value_id ≡ start + i
unfolding item range
item-named_from [] start i h e = cc
item-named_from (v ∷ values) start zero h e =
    let same = ok-injective e in
    let first : v.value_id ≡ start = cc in
    ap (λ (v : ScheduledValue). v.value_id) (sym same) ∙ first ∙ (omega arith)
item-named_from (v ∷ values) start (suc i) h e =
    let later : map (λ (v : ScheduledValue). v.value_id) values
        ≡ range (start + 1) (length values) =
      cc in
    item-named_from values (start + 1) i later e ∙ (omega arith)

-- In a table in the order of the identifiers, a value stands at its identifier.
pub item-named :
    (values : List ScheduledValue) (i : ℕ) {value : ScheduledValue}
    → map (λ (v : ScheduledValue). v.value_id) values ≡ range 0 (length values)
    → item values i ≡ ok value
    → value.value_id ≡ i
item-named values i h e = item-named_from values 0 i h e ∙ (omega arith)
