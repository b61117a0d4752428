-- ===== src/Memory/Runs.antt =====
-- Runs of the planner, and its theorems at a concrete schedule.
use ag_infer.Prelude.{
  ℕ, suc, ◌^◌, ◌≡◌, refl, String, Option, none, some, List, [], ◌∷◌, ok, err, validation_error,
  assertion_error, ◌⊎◌, length, traverse, fold_result, sorted, insert_sorted, range, filter_by,
  all_of, elem, distinct, list_eq,
}
use ag_infer.Arena.{allocator}
use ag_infer.Schedule.{
  static, ValueStorage, ScheduledValue, ScheduledOp, ExecutionSchedule, item, attribute,
}
use ag_infer.Views.{view_tests}
use ag_infer.Memory.{
  get, dtype_bytes, product, byte_size, AllocationRegion, ValueAllocation, LivenessInterval,
  check_alignment, state_aliases, treat_reshape, treatment, record_treatment, treat, find_root,
  root_of, use_at, use_value, use_inputs, last_uses, add_state, state_region, request, present,
}
use ag_infer.Memory.Build.{MemoryPlan, Materialized, tables}
use ag_infer.Memory.Planner.{verify_memory_plan, build_memory_plan, planner}
use ag_infer.Memory.Planner.Verifier.{IsVerified, verify_memory_plan-IsVerified}
use ag_infer.Memory.Planner.Live.{IsPlanOf, build_memory_plan-IsPlanOf, check_alignment-power}
use ag_infer.Memory.Roots.{AliasPath, RunsIntoCycle, find_root-ends}

abbrev value : ℕ → ValueStorage → Option ℕ → ScheduledValue
value id storage producer = record {
  value_id = id;
  debug_name = "";
  type = record {
    dtype = "f32";
    shape = static 8 ∷ static 16 ∷ [];
    layout = "row_major";
    device = "cuda";
  };
  storage = storage;
  producer = producer;
  alias_of = none;
  constant_identity = none;
}

abbrev op_with : ℕ → String → List ℕ → ℕ → ScheduledOp
op_with index opcode inputs output = record {
  execution_index = index;
  invocation_id = 0;
  site = "main:0";
  opcode = opcode;
  inputs = inputs;
  outputs = output ∷ [];
  attributes = [];
}

-- A sum of an input and a constant, its view by a reshape, two further operations, and a state.
abbrev schedule : ExecutionSchedule
schedule = record {
  program_sha256 = "p";
  inventory_sha256 = "i";
  entry = "main";
  entry_inputs = ("x", 0) ∷ [];
  entry_outputs = ("y", 5) ∷ [];
  states = ("s", 6) ∷ [];
  values =
      value 0 ValueStorage.entry_input none
      ∷ value 1 ValueStorage.constant none
      ∷ value 2 ValueStorage.temporary (some 0)
      ∷ value 3 ValueStorage.temporary (some 1)
      ∷ value 4 ValueStorage.temporary (some 2)
      ∷ value 5 ValueStorage.temporary (some 3)
      ∷ value 6 ValueStorage.state none
      ∷ [];
  ops =
      op_with 0 "add" (0 ∷ 1 ∷ []) 2
      ∷ op_with 1 "reshape" (2 ∷ []) 3
      ∷ op_with 2 "mul" (3 ∷ 1 ∷ []) 4
      ∷ op_with 3 "mul" (4 ∷ 6 ∷ []) 5
      ∷ [];
}

computed : Unit {0}
unfolding planner tables allocator view_tests get dtype_bytes product byte_size check_alignment
    state_aliases treat_reshape treatment record_treatment treat find_root root_of use_at use_value
    use_inputs last_uses add_state state_region request present traverse fold_result sorted
    insert_sorted range filter_by all_of elem distinct list_eq item attribute
computed = tt

abbrev allocation : ℕ → AllocationRegion → Option ℕ → Option ℕ → Option ℕ → ValueAllocation
allocation id region offset bytes alias = record {
  value_id = id;
  region = region;
  byte_size = 512;
  offset = offset;
  allocation_bytes = bytes;
  alias_of = alias;
}

abbrev interval : ℕ → ℕ → ℕ → ℕ → LivenessInterval
interval id start end offset = record {
  value_id = id;
  start = start;
  end = end;
  byte_size = 512;
  allocation_bytes = 512;
  offset = offset;
}

-- The bytes of the first result are used again when its view is dead.
abbrev plan : MemoryPlan
plan = record {
  schedule_sha256 = "p";
  literal_materialization_sha256 = none;
  alignment = 256;
  arena_bytes = 1024;
  state_bytes = 512;
  peak_live_arena_bytes = 1024;
  naive_arena_bytes = 1536;
  entry_input_bytes = 512;
  entry_output_bytes = 512;
  constant_bytes = 512;
  allocations =
      allocation 0 AllocationRegion.external none none none
      ∷ allocation 1 AllocationRegion.constant none none none
      ∷ allocation 2 AllocationRegion.arena (some 0) (some 512) none
      ∷ allocation 3 AllocationRegion.alias none none (some 2)
      ∷ allocation 4 AllocationRegion.arena (some 512) (some 512) none
      ∷ allocation 5 AllocationRegion.arena (some 0) (some 512) none
      ∷ allocation 6 AllocationRegion.state (some 0) (some 512) none
      ∷ [];
  intervals = interval 2 0 2 0 ∷ interval 4 2 3 512 ∷ interval 5 3 4 0 ∷ [];
  elided_ops = 1 ∷ [];
  command_schedule_sha256 = none;
}

abbrev digest : ExecutionSchedule → String
digest s = s.program_sha256

plan_built : build_memory_plan digest schedule (2 ^ 8) none ≡ ok plan
unfolding computed
plan_built = refl

abbrev no_literals : Materialized
no_literals = record { by_value = []; ops = []; digest = none; bytes = 0; alignment = 1 }

abbrev roots : List ℕ
roots = 0 ∷ 1 ∷ 2 ∷ 2 ∷ 4 ∷ 5 ∷ 6 ∷ []

plan_accepted : verify_memory_plan schedule plan roots no_literals ≡ ok tt
unfolding computed
plan_accepted = refl

-- The blocks of the second and the third interval, at the same offset.
overlap_refused :
    verify_memory_plan schedule
      (record plan { intervals = interval 4 2 3 0 ∷ interval 5 3 4 0 ∷ [] })
      roots
      no_literals
    ≡ err assertion_error
unfolding computed
overlap_refused = refl

abbrev cycle : List (ℕ × ℕ)
cycle = (3, 2) ∷ (2, 3) ∷ []

cycle_found : find_root cycle 4 [] 3 ≡ err validation_error
unfolding computed
cycle_found = refl

find_root-ends_example :
    ((r : ℕ) × (find_root cycle (suc (suc (length cycle))) [] 3 ≡ ok r) × AliasPath cycle 3 r)
    ⊎ ((find_root cycle (suc (suc (length cycle))) [] 3 ≡ err validation_error)
        × RunsIntoCycle cycle 3)
find_root-ends_example = find_root-ends cycle 3

verify_memory_plan-IsVerified_example : IsVerified schedule plan roots no_literals
verify_memory_plan-IsVerified_example =
    verify_memory_plan-IsVerified schedule plan roots no_literals plan_accepted

build_memory_plan-IsPlanOf_example : IsPlanOf "p" schedule none plan
build_memory_plan-IsPlanOf_example =
    build_memory_plan-IsPlanOf digest schedule (2 ^ 8) none plan plan_built

alignment_taken : check_alignment 256 ≡ ok tt
unfolding computed
alignment_taken = refl

check_alignment-power_example : (k : ℕ) × (256 ≡ 2 ^ k)
check_alignment-power_example = check_alignment-power 256 alignment_taken
