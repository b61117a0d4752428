-- ===== src/Memory/Planner.antt =====
-- `_verify_memory_plan` and `build_memory_plan` of src/aginfer/lowering/memory.py. The SHA-256 of the
-- text of a schedule is the argument `digest`.
pub mod Sweep
pub mod Verifier
pub mod Live
use ag_infer.Prelude.{
  ℕ, zero, suc, ◌+◌, ◌-◌, ◌≤◌, ◌≡◌, String, Bool, true, false, not, ◌&&◌, ◌||◌, Option, none, some,
  List, [], ◌∷◌, ◌++◌, map, Result, ok, err, assertion_error, ◌>>=◌, ◌>>◌, raise_if, traverse,
  fold_result, ltb, leb, ◌==◌, if◌then◌else◌, length, list_eq, range, sum_by, sorted, filter_by,
}
use ag_infer.Arena.{overlap, Placed, allocate_intervals}
use ag_infer.Schedule.{ValueStorage, ScheduledValue, ScheduledOp, ExecutionSchedule, item}
use ag_infer.Memory.{
  get, byte_size, AllocationRegion, ValueAllocation, LivenessInterval, check_alignment,
  state_aliases, Aliasing, treat, root_of, last_uses, StateRegion, state_region, request, present,
}
use ag_infer.Memory.Build.{
  LiteralRecord, LiteralMaterialization, MemoryPlan, check_materialization, Materialized, Tables,
  interval_of, allocate,
}

-- The test of an arena or state allocation against the size of its region.
pub verify_bounds : Option ℕ → Option ℕ → ℕ → Result (Unit {0})
verify_bounds (some offset) (some bytes) limit =
    raise_if (ltb limit offset || ltb (limit - offset) bytes) assertion_error
verify_bounds _ _ limit = err assertion_error

-- The test of the allocation of a materialized literal.
pub verify_literal : LiteralRecord → ℕ → ValueAllocation → Result (Unit {0})
verify_literal r data_bytes a = elim a.region [
  | AllocationRegion.constant ↦ elim a.offset [
    | none ↦ err assertion_error
    | some offset ↦ elim a.allocation_bytes [
      | none ↦ err assertion_error
      | some bytes ↦
          raise_if
            (not (offset == r.blob_offset)
              || not (a.byte_size == r.byte_size)
              || ltb data_bytes offset
              || ltb (data_bytes - offset) bytes)
            assertion_error
    ]
  ]
  | _ ↦ err assertion_error
]

-- The loop body over the allocations that are no aliases.
pub verify_owned : MemoryPlan → Materialized → ValueAllocation → Result (Unit {0})
unfolding verify_literal verify_bounds
verify_owned plan m a = elim a.alias_of [
  | some target ↦ err assertion_error
  | none ↦ elim (get m.by_value a.value_id) [
    | some r ↦ verify_literal r m.bytes a
    | none ↦ elim a.region [
      | AllocationRegion.arena ↦ verify_bounds a.offset a.allocation_bytes plan.arena_bytes
      | AllocationRegion.state ↦ verify_bounds a.offset a.allocation_bytes plan.state_bytes
      | _ ↦ ok tt
    ]
  ]
]

-- The loop body over the allocations.
pub verify_allocation : MemoryPlan → List ℕ → Materialized → ValueAllocation → Result (Unit {0})
unfolding verify_owned
verify_allocation plan roots m a = elim a.region [
  | AllocationRegion.alias ↦ elim a.alias_of [
    | none ↦ err assertion_error
    | some target ↦ do root ← item roots a.value_id; raise_if (not (root == target)) assertion_error
  ]
  | _ ↦ verify_owned plan m a
]

-- `key=lambda item: (item.start, item.value_id)`
abbrev pub interval_leb : LivenessInterval → LivenessInterval → Bool
interval_leb a b = ltb a.start b.start || (a.start == b.start && leb a.value_id b.value_id)

-- Does a live interval overlap the new one?
pub collides : LivenessInterval → List LivenessInterval → Bool
collides i [] = false
collides i (a ∷ rest) =
    overlap i.offset i.allocation_bytes a.offset a.allocation_bytes || collides i rest

-- The sweep over the intervals in the order of their starts.
pub sweep : List LivenessInterval → List LivenessInterval → Result (Unit {0})
unfolding collides
sweep active [] = ok tt
sweep active (i ∷ rest) =
    let live = filter_by (λ a. leb i.start a.end) active in
    do raise_if (collides i live) assertion_error; sweep (live ++ (i ∷ [])) rest

-- `_verify_memory_plan`
pub verify_memory_plan : ExecutionSchedule → MemoryPlan → List ℕ → Materialized → Result (Unit {0})
unfolding verify_allocation sweep
verify_memory_plan schedule plan roots m = do
  raise_if (not (length plan.allocations == length schedule.values)) assertion_error
  raise_if
      (not (list_eq (map (λ a. a.value_id) plan.allocations) (range 0 (length schedule.values))))
      assertion_error
  _ ← traverse (verify_allocation plan roots m) plan.allocations
  sweep [] (sorted interval_leb plan.intervals)

abbrev pub is_constant : ValueStorage → Bool
is_constant ValueStorage.constant = true
is_constant _ = false

-- `sum(byte_sizes[value_id] for ... )`
pub bytes_of_all : List ℕ → List ℕ → Result ℕ
bytes_of_all byte_sizes ids = do sizes ← traverse (item byte_sizes) ids; ok (sum_by (λ n. n) sizes)

-- The roots and the operations that are left out: the alias graph of the schedule.
pub alias_graph : ExecutionSchedule → List ℕ → List ℕ → Result (List ℕ × List ℕ)
alias_graph schedule materialized byte_sizes = do
  first ← state_aliases [] schedule.values
  a ←
      fold_result (treat schedule materialized) (record { aliases = first; elided_ops = [] })
        schedule.ops
  roots ← traverse (root_of a.aliases byte_sizes) schedule.values
  ok (roots, a.elided_ops)

-- The intervals of the temporaries in the arena, the size of the arena and the live peak.
pub plan_arena :
    ExecutionSchedule
    → ℕ
    → List ℕ
    → List ℕ
    → List ℕ
    → List (ℕ × ℕ)
    → Result (List LivenessInterval × ℕ × ℕ)
plan_arena schedule alignment materialized byte_sizes roots uses = do
  requests ← traverse (request alignment byte_sizes roots uses materialized) schedule.values
  (placed, arena_bytes, peak_live) ← allocate_intervals (present requests) alignment
  intervals ← traverse (interval_of byte_sizes) placed
  ok (intervals, arena_bytes, peak_live)

-- What `build_memory_plan` has computed before it allocates the values one by one.
pub record Prepared : Type 0 where
  pub tables : Tables
  pub elided_ops : List ℕ
  pub uses : List (ℕ × ℕ)
  pub state_end : ℕ
  pub arena_bytes : ℕ
  pub peak_live : ℕ

-- The first part of `build_memory_plan`: the materialized literals, the sizes, the alias graph, the
-- last uses, the state region and the arena.
pub prepare : String → ExecutionSchedule → ℕ → Option LiteralMaterialization → Result Prepared
prepare sha256 schedule alignment literals = do
  m ← check_materialization sha256 schedule literals
  byte_sizes ← traverse byte_size schedule.values
  (roots, elided_ops) ← alias_graph schedule m.ops byte_sizes
  uses ← last_uses schedule roots
  states ← state_region alignment byte_sizes schedule.states
  (intervals, arena_bytes, peak_live) ←
      plan_arena schedule alignment (map (λ e. e.0) m.by_value) byte_sizes roots uses
  ok (record {
    tables = record {
      byte_sizes = byte_sizes;
      roots = roots;
      materialized = m;
      state_offsets = states.offsets;
      intervals = intervals;
    };
    elided_ops = elided_ops;
    uses = uses;
    state_end = states.state_end;
    arena_bytes = arena_bytes;
    peak_live = peak_live;
  })

-- The second part: the allocation of each value and the sums, in a plan.
pub plan_from : String → ExecutionSchedule → ℕ → Prepared → Result MemoryPlan
plan_from sha256 schedule alignment p = do
  allocations ← traverse (allocate p.tables) schedule.values
  entry_input_bytes ← bytes_of_all p.tables.byte_sizes (map (λ r. r.1) schedule.entry_inputs)
  entry_output_bytes ← bytes_of_all p.tables.byte_sizes (map (λ r. r.1) schedule.entry_outputs)
  constant_bytes ←
      bytes_of_all p.tables.byte_sizes
        (map (λ v. v.value_id) (filter_by (λ v. is_constant v.storage) schedule.values))
  ok (record {
    schedule_sha256 = sha256;
    literal_materialization_sha256 = p.tables.materialized.digest;
    alignment = alignment;
    arena_bytes = p.arena_bytes;
    state_bytes = p.state_end;
    peak_live_arena_bytes = p.peak_live;
    naive_arena_bytes = sum_by (λ (i : LivenessInterval). i.allocation_bytes) p.tables.intervals;
    entry_input_bytes = entry_input_bytes;
    entry_output_bytes = entry_output_bytes;
    constant_bytes = p.tables.materialized.bytes + constant_bytes;
    allocations = allocations;
    intervals = p.tables.intervals;
    elided_ops = p.elided_ops;
    command_schedule_sha256 = none;
  })

-- `build_memory_plan`
module _ (digest : ExecutionSchedule → String) where
  pub build_memory_plan : ExecutionSchedule → ℕ → Option LiteralMaterialization → Result MemoryPlan
  unfolding prepare plan_from
  build_memory_plan schedule alignment literals = do
    check_alignment alignment
    p ← prepare (digest schedule) schedule alignment literals
    plan ← plan_from (digest schedule) schedule alignment p
    verify_memory_plan schedule plan p.tables.roots p.tables.materialized
    ok plan

-- What a run of the planner computes.
unfoldable pub planner : Unit {0}
unfolding build_memory_plan prepare plan_from plan_arena alias_graph bytes_of_all verify_memory_plan
    verify_allocation verify_owned verify_literal verify_bounds sweep collides
planner = tt
