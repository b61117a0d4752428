-- ===== src/Memory.antt =====
-- The data of src/aginfer/lowering/memory.py, and the pieces of `build_memory_plan`: the sizes of
-- tensors, the alias graph, the last uses, the state region and the requests to the arena.
pub mod Build
pub mod Planner
pub mod Roots
pub mod Liveness
mod Runs
use ag_infer.Prelude.{
  ℕ, zero, suc, ◌+◌, ◌-◌, ◌*◌, ◌/◌, ◌^◌, ◌≤◌, ◌≡◌, String, Bool, true, false, not, ◌&&◌, ◌||◌,
  Option, none, some, List, [], ◌∷◌, ◌++◌, map, Result, ok, err, validation_error, assertion_error,
  key_error, ◌>>=◌, ◌>>◌, raise_if, traverse, fold_result, ltb, leb, ◌==◌, if◌then◌else◌, str_eq,
  length, list_eq, elem, max, bit_and,
}
use ag_infer.Arena.{uint64_max, align, checked_add, Pending, Placed}
use ag_infer.Schedule.{
  Dim, static, symbol, TensorSignature, Attribute, ints, ValueStorage, ScheduledValue, ScheduledOp,
  ExecutionSchedule, item, attribute,
}
use ag_infer.Views.{static_shape, is_row_major_identity_transpose, is_row_major_identity_broadcast}

-- A dictionary from integers: the entry in front counts, as the last assignment does.
module _ {A : Type 0} where
  unfoldable pub get : List (ℕ × A) → ℕ → Option A
  get [] key = none
  get ((k, v) ∷ rest) key = if k == key then some v else get rest key

  abbrev pub put : List (ℕ × A) → ℕ → A → List (ℕ × A)
  put entries key v = (key, v) ∷ entries

  -- `d[key]`
  abbrev pub or_key_error : Option A → Result A
  or_key_error none = err key_error
  or_key_error (some a) = ok a

-- `_DTYPE_BYTES`
pub dtype_bytes : String → Option ℕ
dtype_bytes dtype =
    if str_eq dtype "f32"
    then some 4
    else if str_eq dtype "f16"
    then some 2
    else if str_eq dtype "bf16"
    then some 2
    else if str_eq dtype "i32"
    then some 4
    else if str_eq dtype "bool"
    then some 1
    else none

-- `math.prod`
unfoldable pub product : List ℕ → ℕ
product [] = 1
product (n ∷ ns) = n * product ns

-- `_byte_size`
pub byte_size : ScheduledValue → Result ℕ
unfolding dtype_bytes product
byte_size value = elim (dtype_bytes value.type.dtype) [
  | none ↦ err validation_error
  | some element_bytes ↦ elim (static_shape value.type.shape) [
    | none ↦ err validation_error
    | some shape ↦
        if product shape == 0 || ltb (uint64_max / element_bytes) (product shape)
        then err validation_error
        else ok (product shape * element_bytes)
  ]
]

-- `AllocationRegion`
pub data AllocationRegion : Type 0 where
  unused external constant state arena alias : AllocationRegion

pub record ValueAllocation : Type 0 where
  pub value_id : ℕ
  pub region : AllocationRegion
  pub byte_size : ℕ
  pub offset : Option ℕ
  pub allocation_bytes : Option ℕ
  pub alias_of : Option ℕ

pub record LivenessInterval : Type 0 where
  pub value_id : ℕ
  pub start : ℕ
  pub end : ℕ
  pub byte_size : ℕ
  pub allocation_bytes : ℕ
  pub offset : ℕ

-- The alignment that `build_memory_plan` accepts.
pub check_alignment : ℕ → Result (Unit {0})
check_alignment alignment =
    raise_if
      (alignment == 0 || ltb (2 ^ 20) alignment || not (bit_and alignment (alignment - 1) == 0))
      validation_error

-- The state values that stand for the storage of a state.
pub state_aliases : List (ℕ × ℕ) → List ScheduledValue → Result (List (ℕ × ℕ))
state_aliases aliases [] = ok aliases
state_aliases aliases (value ∷ rest) = elim value.storage [
  | ValueStorage.state_alias ↦ elim value.alias_of [
    | none ↦ err assertion_error
    | some target ↦ state_aliases (put aliases value.value_id target) rest
  ]
  | _ ↦ state_aliases aliases rest
]

-- What the planner makes of an operation: it runs, or it is left out, with its result an alias of
-- its operand or not.
pub data Treatment : Type 0 where
  runs : Treatment
  elided : Treatment
  aliased : ℕ → ℕ → Treatment

-- `op.outputs[0]` and `op.inputs[0]`
abbrev pub alias_first : ScheduledOp → Result Treatment
alias_first op = do output ← item op.outputs 0; input ← item op.inputs 0; ok (aliased output input)

pub treat_reshape : ScheduledOp → Result Treatment
treat_reshape op = do
  raise_if (not (length op.inputs == 1) || not (length op.outputs == 1)) assertion_error
  alias_first op

-- The ladder of tests on one operation.
pub treatment : ExecutionSchedule → List ℕ → ScheduledOp → Result Treatment
unfolding treat_reshape
treatment schedule materialized op =
    if elem op.execution_index materialized
    then ok elided
    else if str_eq op.opcode "reshape"
    then treat_reshape op
    else if str_eq op.opcode "transpose"
    then (do
      identity ← is_row_major_identity_transpose schedule op
      if identity then alias_first op else ok runs)
    else if str_eq op.opcode "broadcast_in_dim"
    then (do
      identity ← is_row_major_identity_broadcast schedule op
      if identity then alias_first op else ok runs)
    else if str_eq op.opcode "state_read"
    then ok elided
    else ok runs

-- The aliases and the indices of the operations that are left out.
pub record Aliasing : Type 0 where
  pub aliases : List (ℕ × ℕ)
  pub elided_ops : List ℕ

pub record_treatment : Aliasing → ScheduledOp → Treatment → Aliasing
record_treatment a op runs = a
record_treatment a op elided = record a { elided_ops = a.elided_ops ++ (op.execution_index ∷ []) }
record_treatment a op (aliased output input) = record {
  aliases = put a.aliases output input;
  elided_ops = a.elided_ops ++ (op.execution_index ∷ []);
}

pub treat : ExecutionSchedule → List ℕ → Aliasing → ScheduledOp → Result Aliasing
treat schedule materialized a op = do
  t ← treatment schedule materialized op
  ok (record_treatment a op t)

-- The walk from a value to its root. `visited` holds the values that were passed. The number of
-- entries bounds the steps, since each step passes another key: `Memory.Roots` proves it.
pub find_root : List (ℕ × ℕ) → ℕ → List ℕ → ℕ → Result ℕ
find_root aliases zero visited root = err key_error
find_root aliases (suc fuel) visited root = elim (get aliases root) [
  | none ↦ ok root
  | some next ↦
      let rest = find_root aliases fuel (root ∷ visited) next in
      if elem root visited then err validation_error else rest
]

-- The root of a value, and the test that its bytes are those of the root.
pub root_of : List (ℕ × ℕ) → List ℕ → ScheduledValue → Result ℕ
root_of aliases byte_sizes value = do
  root ← find_root aliases (suc (suc (length aliases))) [] value.value_id
  root_bytes ← item byte_sizes root
  value_bytes ← item byte_sizes value.value_id
  raise_if (not (root_bytes == value_bytes)) validation_error
  ok root

-- `uses[root] = max(uses.get(root, -1), index)`
pub use_at : List (ℕ × ℕ) → ℕ → ℕ → List (ℕ × ℕ)
use_at uses root index =
    put uses root (elim (get uses root) [ none ↦ index | some last ↦ max last index ])

pub use_value : List ℕ → ℕ → List (ℕ × ℕ) → ℕ → Result (List (ℕ × ℕ))
unfolding use_at
use_value roots index uses value_id = do root ← item roots value_id; ok (use_at uses root index)

pub use_inputs : List ℕ → List (ℕ × ℕ) → ScheduledOp → Result (List (ℕ × ℕ))
use_inputs roots uses op = fold_result (use_value roots op.execution_index) uses op.inputs

-- The last use of each root: by an operation, or as an output behind the last operation.
pub last_uses : ExecutionSchedule → List ℕ → Result (List (ℕ × ℕ))
last_uses schedule roots = do
  uses ← fold_result (use_inputs roots) [] schedule.ops
  fold_result (use_value roots (length schedule.ops)) uses (map (λ r. r.1) schedule.entry_outputs)

-- The state region: its end, and the offset and size of each state.
pub record StateRegion : Type 0 where
  pub state_end : ℕ
  pub offsets : List (ℕ × (ℕ × ℕ))

pub add_state : ℕ → List ℕ → StateRegion → String × ℕ → Result StateRegion
add_state alignment byte_sizes region (name, value_id) = do
  bytes ← item byte_sizes value_id
  size ← align bytes alignment
  start ← align region.state_end alignment
  checked_add start size
  ok (record { state_end = start + size; offsets = put region.offsets value_id (start, size) })

pub state_region : ℕ → List ℕ → List (String × ℕ) → Result StateRegion
state_region alignment byte_sizes states =
    fold_result (add_state alignment byte_sizes) (record { state_end = 0; offsets = [] }) states

abbrev pub is_temporary : ValueStorage → Bool
is_temporary ValueStorage.temporary = true
is_temporary _ = false

-- The request of a value to the arena, if it is a temporary root that is not materialized.
pub request : ℕ → List ℕ → List ℕ → List (ℕ × ℕ) → List ℕ → ScheduledValue → Result (Option Pending)
request alignment byte_sizes roots uses materialized value = do
  root ← item roots value.value_id
  if not (root == value.value_id)
        || not (is_temporary value.storage)
        || elem value.value_id materialized
      then ok none
      else elim value.producer [
        | none ↦ err assertion_error
        | some producer ↦ do
          bytes ← item byte_sizes value.value_id
          size ← align bytes alignment
          ok (
              some (record {
                start = producer;
                value_id = value.value_id;
                end =
                    max producer
                      (elim (get uses value.value_id) [ none ↦ producer | some last ↦ last ]);
                bytes = size;
              }))
      ]

unfoldable pub present : List (Option Pending) → List Pending
present [] = []
present (none ∷ rest) = present rest
present (some p ∷ rest) = p ∷ present rest
