-- ===== src/Replan.antt =====
-- `replan_memory_for_commands` of src/aginfer/lowering/memory.py: liveness and the arena for the values
-- that commands exchange. The SHA-256 of the texts of a schedule and of the receipts of the
-- commands are arguments.
pub mod Commands
pub mod Loop
pub mod Safe
mod Runs
use ag_infer.Prelude.{
  ℕ, zero, suc, ◌+◌, ◌≡◌, String, Bool, true, false, not, ◌&&◌, ◌||◌, Option, none, some, List, [],
  ◌∷◌, ◌++◌, map, Result, ok, err, validation_error, ◌>>=◌, ◌>>◌, raise_if, traverse, fold_result,
  leb, ◌==◌, if◌then◌else◌, str_eq, length, elem, range, all_of, sum_by,
}
use ag_infer.Arena.{align, Pending, Placed, allocate_intervals}
use ag_infer.Schedule.{ScheduledValue, ExecutionSchedule, item}
use ag_infer.Memory.{
  get, put, or_key_error, AllocationRegion, ValueAllocation, LivenessInterval, present,
}
use ag_infer.Memory.Build.{MemoryPlan, owned, outside}
use ag_infer.Command.{CommandOperand, is_write}
use ag_infer.Assemble.{
  CommandPlacement, allocation_of, same_ids, find_alias_root, reads_value, is_arena_region, known,
}
use ag_infer.Assemble.Order.{order_command_placements}
use ag_infer.Assemble.Stream.{disjoint}

-- The local variables of the loop over the commands. `last_use` and `first_write` are from roots to
-- positions of commands.
pub record Uses : Type 0 where
  pub written : List ℕ
  pub first_write : List (ℕ × ℕ)
  pub last_use : List (ℕ × ℕ)

-- The roots that one command reads and writes, and the last uses up to its operands.
pub record Access : Type 0 where
  pub reads : List ℕ
  pub writes : List ℕ
  pub last_use : List (ℕ × ℕ)

-- The loop body over the operands.
pub access_operand : List ValueAllocation → List ℕ → ℕ → Access → CommandOperand → Result Access
access_operand allocations roots index a operand = do
  raise_if (leb (length roots) operand.value_id) validation_error
  root ← item roots operand.value_id
  allocation ← or_key_error (allocation_of allocations root)
  raise_if (leb allocation.byte_size operand.byte_offset) validation_error
  raise_if (is_write operand.access && elem root a.writes) validation_error
  ok (record {
    reads = if reads_value operand.access then root ∷ a.reads else a.reads;
    writes = if is_write operand.access then root ∷ a.writes else a.writes;
    last_use = put a.last_use root index;
  })

-- The loop body over the roots that a command reads.
pub check_read : List ValueAllocation → List ℕ → ℕ → Result (Unit {0})
check_read allocations written root = do
  allocation ← or_key_error (allocation_of allocations root)
  raise_if (is_arena_region allocation.region && not (elem root written)) validation_error

abbrev pub is_fixed_region : AllocationRegion → Bool
is_fixed_region AllocationRegion.constant = true
is_fixed_region AllocationRegion.external = true
is_fixed_region _ = false

-- The loop body over the roots that a command writes.
pub note_write : List ValueAllocation → ℕ → Uses → ℕ → Result Uses
note_write allocations index u root = do
  allocation ← or_key_error (allocation_of allocations root)
  raise_if (is_fixed_region allocation.region) validation_error
  raise_if (is_arena_region allocation.region && elem root u.written) validation_error
  ok (record u {
    written = root ∷ u.written;
    first_write =
        if known (get u.first_write root) then u.first_write else put u.first_write root index;
  })

pub use_command : List ValueAllocation → List ℕ → ℕ → Uses → CommandPlacement → Result Uses
unfolding access_operand check_read note_write
use_command allocations roots index u p = do
  a ←
      fold_result (access_operand allocations roots index)
        (record { reads = []; writes = []; last_use = u.last_use }) p.command.operands
  _ ← traverse (check_read allocations u.written) a.reads
  fold_result (note_write allocations index) (record u { last_use = a.last_use }) a.writes

pub use_commands : List ValueAllocation → List ℕ → ℕ → Uses → List CommandPlacement → Result Uses
unfolding use_command
use_commands allocations roots index u [] = ok u
use_commands allocations roots index u (p ∷ rest) = do
  u' ← use_command allocations roots index u p
  use_commands allocations roots (index + 1) u' rest

-- The request of a root that lives in the arena between commands.
pub boundary_request :
    List ValueAllocation → List ℕ → List ℕ → Uses → ℕ → ℕ → Result (Option Pending)
boundary_request allocations roots outputs u alignment value_id = do
  root ← item roots value_id
  allocation ← or_key_error (allocation_of allocations value_id)
  if not (root == value_id) || not (is_arena_region allocation.region) || elem value_id outputs
      then ok none
      else elim (get u.last_use value_id) [
        | none ↦ ok none
        | some last ↦ elim (get u.first_write value_id) [
          | none ↦ err validation_error
          | some first ↦ do
            bytes ← align allocation.byte_size alignment
            ok (some (record { start = first; value_id = value_id; end = last; bytes = bytes }))
        ]
      ]

pub boundary_interval : List ValueAllocation → Placed → Result LivenessInterval
boundary_interval allocations p = do
  allocation ← or_key_error (allocation_of allocations p.value_id)
  ok (record {
    value_id = p.value_id;
    start = p.start;
    end = p.end;
    byte_size = allocation.byte_size;
    allocation_bytes = p.bytes;
    offset = p.offset;
  })

-- `interval_by_value.get(value_id)`
pub interval_at : List LivenessInterval → ℕ → Option LivenessInterval
interval_at [] value_id = none
interval_at (i ∷ rest) value_id = elim (interval_at rest value_id) [
  | some later ↦ some later
  | none ↦ if i.value_id == value_id then some i else none
]

-- The final allocation of a value.
pub boundary_allocation :
    List ValueAllocation → List ℕ → List ℕ → List LivenessInterval → ℕ → Result ValueAllocation
unfolding interval_at
boundary_allocation allocations roots outputs intervals value_id = do
  allocation ← or_key_error (allocation_of allocations value_id)
  root ← item roots value_id
  ok (
      if not (root == value_id)
      then allocation
      else if elem value_id outputs
      then outside value_id AllocationRegion.external allocation.byte_size
      else if is_arena_region allocation.region
      then elim (interval_at intervals value_id) [
        | none ↦ outside value_id AllocationRegion.unused allocation.byte_size
        | some i ↦
            owned value_id AllocationRegion.arena allocation.byte_size i.offset i.allocation_bytes
      ]
      else allocation)

-- What is known before the loop over the commands.
pub record Entry : Type 0 where
  pub records : List CommandPlacement
  pub roots : List ℕ
  pub outputs : List ℕ

-- The root of each value of the schedule, in the order of its table.
pub value_roots : List ValueAllocation → List ScheduledValue → Result (List ℕ)
unfolding find_alias_root
value_roots allocations values =
    traverse
      (λ (v : ScheduledValue). do
        _ ← or_key_error (allocation_of allocations v.value_id)
        find_alias_root allocations (suc (suc (length allocations))) [] v.value_id)
      values

-- The checks in front of that loop.
pub enter_boundary : ExecutionSchedule → MemoryPlan → List CommandPlacement → Result Entry
unfolding value_roots
enter_boundary schedule plan placements = do
  records ← order_command_placements schedule plan placements
  raise_if (length records == 0) validation_error
  raise_if (not (same_ids (map (λ a. a.value_id) plan.allocations) (length schedule.values)))
      validation_error
  roots ← value_roots plan.allocations schedule.values
  inputs ← traverse (λ (r : String × ℕ). item roots r.1) schedule.entry_inputs
  outputs ← traverse (λ (r : String × ℕ). item roots r.1) schedule.entry_outputs
  raise_if (not (disjoint inputs outputs)) validation_error
  regions ← traverse (λ root. or_key_error (allocation_of plan.allocations root)) outputs
  raise_if (not (all_of (λ (a : ValueAllocation). is_arena_region a.region) regions))
      validation_error
  ok (record { records = records; roots = roots; outputs = outputs })

-- The intervals of the boundary values, the size of the arena, and the live peak.
pub boundary_arena :
    ExecutionSchedule → MemoryPlan → Entry → Uses → Result (List LivenessInterval × ℕ × ℕ)
unfolding boundary_request boundary_interval
boundary_arena schedule plan e u = do
  requests ←
      traverse (boundary_request plan.allocations e.roots e.outputs u plan.alignment)
        (range 0 (length schedule.values))
  (placed, arena_bytes, peak_live) ← allocate_intervals (present requests) plan.alignment
  intervals ← traverse (boundary_interval plan.allocations) placed
  ok (intervals, arena_bytes, peak_live)

abbrev pub no_uses : Uses
no_uses = record { written = []; first_write = []; last_use = [] }

module _ (schedule_sha256 : ExecutionSchedule → String)
    (receipts_sha256 : List CommandPlacement → String) where
  -- `replan_memory_for_commands`
  pub replan_memory_for_commands :
      ExecutionSchedule → MemoryPlan → List CommandPlacement → Result MemoryPlan
  unfolding enter_boundary use_commands boundary_arena boundary_allocation
  replan_memory_for_commands schedule plan placements = do
    raise_if (not (str_eq plan.schedule_sha256 (schedule_sha256 schedule))) validation_error
    e ← enter_boundary schedule plan placements
    u ← use_commands plan.allocations e.roots 0 no_uses e.records
    raise_if (not (all_of (λ root. elem root u.written) e.outputs)) validation_error
    (intervals, arena_bytes, peak_live) ← boundary_arena schedule plan e u
    allocations ←
        traverse (boundary_allocation plan.allocations e.roots e.outputs intervals)
          (range 0 (length schedule.values))
    ok (record plan {
      arena_bytes = arena_bytes;
      peak_live_arena_bytes = peak_live;
      naive_arena_bytes = sum_by (λ (i : LivenessInterval). i.allocation_bytes) intervals;
      allocations = allocations;
      intervals = intervals;
      command_schedule_sha256 = some (receipts_sha256 e.records);
    })
