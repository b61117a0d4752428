-- ===== src/Memory/Build.antt =====
-- The tables of `build_memory_plan` and the allocation of each value, of src/aginfer/lowering/memory.py. The SHA-256 of
-- the text of a schedule is an argument, and of a literal materialization only what is read here is
-- kept: its records, the number of its bytes, and its digests.
pub mod Intervals
use ag_infer.Prelude.{
  ℕ, String, Bool, false, not, ◌||◌, Option, none, some, List, [], ◌∷◌, map, Result, ok, err,
  validation_error, assertion_error, ◌>>=◌, ◌>>◌, raise_if, traverse, leb, ◌==◌, if◌then◌else◌,
  str_eq, length, list_eq,
}
use ag_infer.Arena.{align, Placed}
use ag_infer.Schedule.{ValueStorage, ScheduledValue, ExecutionSchedule, item, attribute}
use ag_infer.Views.{static_shape, tuple_of}
use ag_infer.Memory.{get, put, or_key_error, AllocationRegion, ValueAllocation, LivenessInterval}

pub record LiteralRecord : Type 0 where
  pub execution_index : ℕ
  pub site : String
  pub source_value_id : ℕ
  pub output_value_id : ℕ
  pub source_identity : String
  pub dtype : String
  pub layout : String
  pub device : String
  pub shape : List ℕ
  pub broadcast_dimensions : List ℕ
  pub blob_offset : ℕ
  pub byte_size : ℕ

pub record LiteralMaterialization : Type 0 where
  pub inventory_sha256 : String
  pub schedule_sha256 : String
  pub digest : String
  pub alignment : ℕ
  pub data_bytes : ℕ
  pub records : List LiteralRecord

pub record MemoryPlan : Type 0 where
  pub schedule_sha256 : String
  pub literal_materialization_sha256 : Option String
  pub alignment : ℕ
  pub arena_bytes : ℕ
  pub state_bytes : ℕ
  pub peak_live_arena_bytes : ℕ
  pub naive_arena_bytes : ℕ
  pub entry_input_bytes : ℕ
  pub entry_output_bytes : ℕ
  pub constant_bytes : ℕ
  pub allocations : List ValueAllocation
  pub intervals : List LivenessInterval
  pub elided_ops : List ℕ
  pub command_schedule_sha256 : Option String

abbrev same_option : Option String → String → Bool
same_option none s = false
same_option (some t) s = str_eq t s

abbrev same_tuple : Option (List ℕ) → List ℕ → Bool
same_tuple none ns = false
same_tuple (some ms) ns = list_eq ms ns

-- The comparison of a materialized literal with the operation that it replaces.
pub check_record : ExecutionSchedule → LiteralRecord → Result (Unit {0})
check_record schedule record' = do
  raise_if (leb (length schedule.ops) record'.execution_index) validation_error
  op ← item schedule.ops record'.execution_index
  raise_if
      (not (str_eq op.site record'.site)
        || not (str_eq op.opcode "broadcast_in_dim")
        || not (list_eq op.inputs (record'.source_value_id ∷ []))
        || not (list_eq op.outputs (record'.output_value_id ∷ [])))
      validation_error
  source ← item schedule.values record'.source_value_id
  raise_if (not (same_option source.constant_identity record'.source_identity)) validation_error
  output ← item schedule.values record'.output_value_id
  raise_if
      (not (str_eq output.type.dtype record'.dtype)
        || not (str_eq output.type.layout record'.layout)
        || not (str_eq output.type.device record'.device)
        || not (same_tuple (static_shape output.type.shape) record'.shape)
        || not (
            same_tuple (tuple_of (attribute "broadcast_dimensions" op.attributes))
              record'.broadcast_dimensions))
      validation_error

-- `{record.output_value_id: record for record in records}`
pub by_output : List (ℕ × LiteralRecord) → List LiteralRecord → List (ℕ × LiteralRecord)
by_output entries [] = entries
by_output entries (r ∷ rest) = by_output (put entries r.output_value_id r) rest

-- What the planner reads of the optional materialization.
pub record Materialized : Type 0 where
  pub by_value : List (ℕ × LiteralRecord)
  pub ops : List ℕ
  pub digest : Option String
  pub bytes : ℕ
  pub alignment : ℕ

pub check_materialization :
    String → ExecutionSchedule → Option LiteralMaterialization → Result Materialized
unfolding check_record by_output
check_materialization sha256 schedule none =
    ok (record { by_value = []; ops = []; digest = none; bytes = 0; alignment = 1 })
check_materialization sha256 schedule (some m) = do
  raise_if
      (not (str_eq m.schedule_sha256 sha256)
        || not (str_eq m.inventory_sha256 schedule.inventory_sha256))
      validation_error
  _ ← traverse (check_record schedule) m.records
  ok (record {
    by_value = by_output [] m.records;
    ops = map (λ r. r.execution_index) m.records;
    digest = some m.digest;
    bytes = m.data_bytes;
    alignment = m.alignment;
  })

unfoldable pub interval_of : List ℕ → Placed → Result LivenessInterval
interval_of byte_sizes p = do
  bytes ← item byte_sizes p.value_id
  ok (record {
    value_id = p.value_id;
    start = p.start;
    end = p.end;
    byte_size = bytes;
    allocation_bytes = p.bytes;
    offset = p.offset;
  })

-- The tables that an allocation is read from.
pub record Tables : Type 0 where
  pub byte_sizes : List ℕ
  pub roots : List ℕ
  pub materialized : Materialized
  pub state_offsets : List (ℕ × (ℕ × ℕ))
  pub intervals : List LivenessInterval

abbrev pub owned : ℕ → AllocationRegion → ℕ → ℕ → ℕ → ValueAllocation
owned value_id region bytes offset allocation_bytes = record {
  value_id = value_id;
  region = region;
  byte_size = bytes;
  offset = some offset;
  allocation_bytes = some allocation_bytes;
  alias_of = none;
}

abbrev pub outside : ℕ → AllocationRegion → ℕ → ValueAllocation
outside value_id region bytes = record {
  value_id = value_id;
  region = region;
  byte_size = bytes;
  offset = none;
  allocation_bytes = none;
  alias_of = none;
}

-- `interval_by_value[value_id]`
pub interval_by_value : List LivenessInterval → ℕ → Option LivenessInterval
interval_by_value [] value_id = none
interval_by_value (i ∷ rest) value_id = elim (interval_by_value rest value_id) [
  | some later ↦ some later
  | none ↦ if i.value_id == value_id then some i else none
]

-- The allocation of a root, by the storage class of its value.
pub allocate_root : Tables → ScheduledValue → ℕ → Result ValueAllocation
unfolding interval_by_value
allocate_root t value bytes = elim value.storage [
  | ValueStorage.entry_input ↦ ok (outside value.value_id AllocationRegion.external bytes)
  | ValueStorage.constant ↦ ok (outside value.value_id AllocationRegion.constant bytes)
  | other ↦ elim (get t.materialized.by_value value.value_id) [
    | some record' ↦ do
      size ← align record'.byte_size t.materialized.alignment
      ok (owned value.value_id AllocationRegion.constant bytes record'.blob_offset size)
    | none ↦ elim other [
      | ValueStorage.state ↦ do
        (offset, size) ← or_key_error (get t.state_offsets value.value_id)
        ok (owned value.value_id AllocationRegion.state bytes offset size)
      | ValueStorage.temporary ↦ do
        i ← or_key_error (interval_by_value t.intervals value.value_id)
        ok (owned value.value_id AllocationRegion.arena bytes i.offset i.allocation_bytes)
      | _ ↦ err assertion_error
    ]
  ]
]

pub allocate : Tables → ScheduledValue → Result ValueAllocation
unfolding allocate_root
allocate t value = do
  root ← item t.roots value.value_id
  bytes ← item t.byte_sizes value.value_id
  if not (root == value.value_id)
      then ok (record {
        value_id = value.value_id;
        region = AllocationRegion.alias;
        byte_size = bytes;
        offset = none;
        allocation_bytes = none;
        alias_of = some root;
      })
      else allocate_root t value bytes

-- What a run of the planner computes of the tables.
unfoldable pub tables : Unit {0}
unfolding check_materialization check_record by_output interval_of allocate allocate_root
    interval_by_value
tables = tt
