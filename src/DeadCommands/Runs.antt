-- ===== src/DeadCommands/Runs.antt =====
-- A run of the removal of dead commands, and its theorem at a concrete schedule.
use ag_infer.Prelude.{
  ◌≡◌, refl, none, some, List, [], ◌∷◌, ◌++◌, ok, traverse, fold_result, sorted, insert_sorted,
  range, filter_by, all_of, elem, distinct, list_eq,
}
use ag_infer.Schedule.{ExecutionSchedule, item, attribute}
use ag_infer.Memory.{get, AllocationRegion}
use ag_infer.Memory.Build.{MemoryPlan}
use ag_infer.Inventory.{is_one_of}
use ag_infer.Command.{read, write}
use ag_infer.Assemble.{CommandPlacement, requirements}
use ag_infer.Assemble.Order.{ordering}
use ag_infer.Assemble.Example.{
  schedule, plan, value_of, operation, allocation, operand, placement, add, mul, update,
}
use ag_infer.DeadCommands.{
  packed_root, packed_roots, operand_roots, with_writes, written_roots, times_written, all_result,
  any_of, is_pure, sweep_command, sweep_commands, covered_by, eliminate_dead_commands,
}
use ag_infer.DeadCommands.Live.{IsLive, eliminate_dead_commands-IsLive}

computed : Unit {0}
unfolding requirements ordering get traverse fold_result sorted insert_sorted range filter_by all_of
    elem distinct list_eq item attribute is_one_of packed_root packed_roots operand_roots
    with_writes written_roots times_written all_result any_of is_pure sweep_command sweep_commands
    covered_by eliminate_dead_commands
computed = tt

-- The schedule with a product that nobody reads.
abbrev wasteful : ExecutionSchedule
wasteful = record schedule {
  values = schedule.values ++ (value_of 6 (some 3) ∷ []);
  ops = schedule.ops ++ (operation 3 "mul" (2 ∷ 1 ∷ []) 6 ∷ []);
}

abbrev wasteful_plan : MemoryPlan
wasteful_plan = record plan {
  allocations =
      plan.allocations ++ (allocation 6 AllocationRegion.arena (some 0) (some 512) none ∷ []);
}

abbrev unread : CommandPlacement
unread = placement 3 (operand 2 read ∷ operand 1 read ∷ operand 6 write ∷ [])

abbrev placements : List CommandPlacement
placements = unread ∷ update ∷ mul ∷ add ∷ []

abbrev swept_plan : MemoryPlan
swept_plan = record wasteful_plan { elided_ops = 3 ∷ [] }

-- The write of the state is kept, although no command reads it.
removed :
    eliminate_dead_commands wasteful wasteful_plan placements
    ≡ ok (swept_plan, add ∷ mul ∷ update ∷ [])
unfolding computed
removed = refl

eliminate_dead_commands-IsLive_example :
    IsLive wasteful wasteful_plan placements swept_plan (add ∷ mul ∷ update ∷ [])
eliminate_dead_commands-IsLive_example =
    eliminate_dead_commands-IsLive wasteful wasteful_plan placements swept_plan
      (add ∷ mul ∷ update ∷ []) removed
