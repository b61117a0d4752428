-- ===== src/Schedule/Verify.antt =====
-- `_verify_schedule` of src/aginfer/lowering/schedule.py. A dictionary from values to the operations
-- that define them is a list of entries where the newest counts.
use ag_infer.Prelude.{
  ℕ, ◌+◌, String, Bool, true, false, not, ◌&&◌, Option, none, some, List, [], ◌∷◌, ◌++◌, map,
  Result, ok, err, assertion_error, ◌>>=◌, ◌>>◌, raise_if, traverse, leb, ◌==◌, if◌then◌else◌,
  length, range, elem, all_of,
}
use ag_infer.Schedule.{ValueStorage, ScheduledValue, ScheduledOp, item}

-- The operation that has defined a value.
unfoldable pub defined_by : List (ℕ × ℕ) → ℕ → Option ℕ
defined_by [] value_id = none
defined_by ((v, index) ∷ rest) value_id =
    if v == value_id then some index else defined_by rest value_id

-- Is the value defined at the given operation or behind it?
abbrev pub not_before : Option ℕ → ℕ → Bool
not_before none index = false
not_before (some producer) index = leb index producer

unfoldable pub verify_input : List ScheduledValue → ℕ → ℕ → Result (Unit {0})
verify_input values index value_id = do
  value ← item values value_id
  raise_if (not_before value.producer index) assertion_error

abbrev pub is_some : Option ℕ → Bool
is_some none = false
is_some (some n) = true

unfoldable pub define_outputs : ℕ → List (ℕ × ℕ) → List ℕ → Result (List (ℕ × ℕ))
unfolding defined_by
define_outputs index produced [] = ok produced
define_outputs index produced (value_id ∷ rest) = do
  raise_if (is_some (defined_by produced value_id)) assertion_error
  define_outputs index ((value_id, index) ∷ produced) rest

-- The loop over the operations; `ids` are the identifiers of the values.
unfoldable pub verify_ops :
    List ScheduledValue → List ℕ → ℕ → List (ℕ × ℕ) → List ScheduledOp → Result (List (ℕ × ℕ))
unfolding verify_input define_outputs
verify_ops values ids expected_index produced [] = ok produced
verify_ops values ids expected_index produced (op ∷ rest) = do
  raise_if (not (op.execution_index == expected_index)) assertion_error
  raise_if (not (all_of (λ v. elem v ids) (op.inputs ++ op.outputs))) assertion_error
  _ ← traverse (verify_input values op.execution_index) op.inputs
  produced' ← define_outputs op.execution_index produced op.outputs
  verify_ops values ids (expected_index + 1) produced' rest

abbrev pub needs_producer : ValueStorage → Bool
needs_producer ValueStorage.state_alias = true
needs_producer ValueStorage.temporary = true
needs_producer _ = false

abbrev pub same_producer : Option ℕ → ℕ → Bool
same_producer none producer = false
same_producer (some index) producer = index == producer

unfoldable pub verify_producer : List (ℕ × ℕ) → ScheduledValue → Result (Unit {0})
unfolding defined_by
verify_producer produced value = elim value.producer [
  | none ↦ raise_if (needs_producer value.storage) assertion_error
  | some producer ↦
      raise_if (not (same_producer (defined_by produced value.value_id) producer)) assertion_error
]

abbrev pub is_state : ValueStorage → Bool
is_state ValueStorage.state = true
is_state _ = false

unfoldable pub verify_alias : List ScheduledValue → ScheduledValue → Result (Unit {0})
verify_alias values value = elim value.storage [
  | ValueStorage.state_alias ↦ elim value.alias_of [
    | none ↦ err assertion_error
    | some target ↦ do
      root ← item values target
      raise_if (not (is_state root.storage)) assertion_error
  ]
  | _ ↦ raise_if (is_some value.alias_of) assertion_error
]

-- The loop body over the values.
unfoldable pub verify_value :
    List ScheduledValue → List (ℕ × ℕ) → ScheduledValue → Result (Unit {0})
unfolding verify_producer verify_alias
verify_value values produced value = do verify_producer produced value; verify_alias values value

-- `_verify_schedule`
unfoldable pub verify_schedule :
    List ScheduledValue
    → List ScheduledOp
    → List (String × ℕ)
    → List (String × ℕ)
    → List (String × ℕ)
    → Result (Unit {0})
unfolding verify_ops verify_value
verify_schedule values ops entry_inputs entry_outputs states = do
  let ids = map (λ (v : ScheduledValue). v.value_id) values
  raise_if
      (not (
        all_of (λ i. elem i (range 0 (length values))) ids
        && all_of (λ i. elem i ids) (range 0 (length values))))
      assertion_error
  produced ← verify_ops values ids 0 [] ops
  _ ← traverse (verify_value values produced) values
  raise_if (not (all_of (λ r. elem r.1 ids) (entry_inputs ++ entry_outputs ++ states)))
      assertion_error
