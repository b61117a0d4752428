-- ===== src/Replan/Runs.antt =====
-- Runs of the planning for commands, and its theorem at a concrete schedule.
use ag_infer.Prelude.{
  ℕ, ◌≡◌, refl, none, some, String, Option, List, [], ◌∷◌, ok, err, validation_error, traverse,
  fold_result, sorted, insert_sorted, range, filter_by, all_of, elem, distinct, list_eq,
}
use ag_infer.Arena.{allocator}
use ag_infer.Schedule.{ExecutionSchedule, item, attribute}
use ag_infer.Memory.{get, present, AllocationRegion, ValueAllocation}
use ag_infer.Memory.Build.{MemoryPlan}
use ag_infer.Command.{checks}
use ag_infer.Assemble.{CommandPlacement, requirements}
use ag_infer.Assemble.Order.{ordering}
use ag_infer.Assemble.Stream.{assembly}
use ag_infer.Assemble.Example.{schedule, plan, mul, update, placements}
use ag_infer.Replan.{
  value_roots, access_operand, check_read, note_write, use_command, use_commands, boundary_request,
  boundary_interval, interval_at, boundary_allocation, enter_boundary, boundary_arena,
  replan_memory_for_commands,
}
use ag_infer.Replan.Safe.{IsReplanned, replan_memory_for_commands-IsReplanned}

computed : Unit {0}
unfolding value_roots allocator requirements ordering assembly checks get present traverse
    fold_result sorted insert_sorted range filter_by all_of elem distinct list_eq item attribute
    access_operand check_read note_write use_command use_commands boundary_request boundary_interval
    interval_at boundary_allocation enter_boundary boundary_arena replan_memory_for_commands
computed = tt

abbrev schedule_digest : ExecutionSchedule → String
schedule_digest s = s.program_sha256

abbrev receipts_digest : List CommandPlacement → String
receipts_digest records = "r"

abbrev allocation : ℕ → AllocationRegion → Option ℕ → Option ℕ → Option ℕ → ValueAllocation
allocation id region offset bytes alias = record {
  value_id = id;
  region = region;
  byte_size = 512;
  offset = offset;
  allocation_bytes = bytes;
  alias_of = alias;
}

-- The output is now outside of the arena.
abbrev replanned : MemoryPlan
replanned = record plan {
  arena_bytes = 512;
  peak_live_arena_bytes = 512;
  naive_arena_bytes = 512;
  allocations =
      allocation 0 AllocationRegion.external none none none
      ∷ allocation 1 AllocationRegion.constant none none none
      ∷ allocation 2 AllocationRegion.arena (some 0) (some 512) none
      ∷ allocation 3 AllocationRegion.external none none none
      ∷ allocation 4 AllocationRegion.state (some 0) (some 512) none
      ∷ allocation 5 AllocationRegion.alias none none (some 4)
      ∷ [];
  intervals =
      record {
        value_id = 2;
        start = 0;
        end = 1;
        byte_size = 512;
        allocation_bytes = 512;
        offset = 0;
      }
      ∷ [];
  command_schedule_sha256 = some "r";
}

replanned_lem :
    replan_memory_for_commands schedule_digest receipts_digest schedule plan placements
    ≡ ok replanned
unfolding computed
replanned_lem = refl

-- A command reads a temporary that none writes.
unwritten_refused :
    replan_memory_for_commands schedule_digest receipts_digest schedule plan (mul ∷ update ∷ [])
    ≡ err validation_error
unfolding computed
unwritten_refused = refl

replan_memory_for_commands-IsReplanned_example : IsReplanned schedule plan placements replanned
replan_memory_for_commands-IsReplanned_example =
    replan_memory_for_commands-IsReplanned schedule_digest receipts_digest schedule plan placements
      8 replanned refl replanned_lem
