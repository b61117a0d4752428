-- ===== src/Assemble/Stream.antt =====
-- `assemble_command_stream` of src/aginfer/lowering/assemble.py. The SHA-256 of the texts of a
-- schedule and of a plan are arguments.
pub mod Coverage
use ag_infer.Prelude.{
  ℕ, ◌+◌, ◌≡◌, String, Bool, true, false, not, ◌&&◌, ◌||◌, List, [], ◌∷◌, ◌++◌, map, Result, ok,
  err, validation_error, ◌>>=◌, ◌>>◌, raise_if, fold_result, ltb, leb, ◌==◌, if◌then◌else◌, str_eq,
  length, elem, range, all_of, max,
}
use ag_infer.Schedule.{ExecutionSchedule}
use ag_infer.Memory.Build.{MemoryPlan}
use ag_infer.Command.{CudaArch, CommandOperand, ProviderCommand, CommandStream, check_stream}
use ag_infer.Assemble.{CommandPlacement}
use ag_infer.Assemble.Order.{order_command_placements}

-- The anchors and the executions of the placements that were passed.
pub record Cover : Type 0 where
  pub anchors : List ℕ
  pub covered : List ℕ

abbrev pub disjoint : List ℕ → List ℕ → Bool
disjoint xs ys = all_of (λ x. not (elem x ys)) xs

pub cover_placement : ExecutionSchedule → MemoryPlan → Cover → CommandPlacement → Result Cover
cover_placement schedule plan c p = do
  raise_if (elem p.execution_index c.anchors) validation_error
  raise_if (not (all_of (λ i. ltb i (length schedule.ops)) p.covered)) validation_error
  raise_if (not (disjoint p.covered c.covered)) validation_error
  raise_if (not (disjoint p.covered plan.elided_ops)) validation_error
  raise_if
      (not (
        all_of (λ (o : CommandOperand). ltb o.value_id (length schedule.values))
          p.command.operands))
      validation_error
  ok (record { anchors = p.execution_index ∷ c.anchors; covered = p.covered ++ c.covered })

-- `covered | elided == set(range(count))`
pub covers_all : List ℕ → List ℕ → ℕ → Bool
covers_all covered elided count =
    all_of (λ i. ltb i count) covered
    && all_of (λ i. ltb i count) elided
    && all_of (λ i. elem i covered || elem i elided) (range 0 count)

-- The checks on the coverage of the schedule.
pub check_coverage : ExecutionSchedule → MemoryPlan → List CommandPlacement → Result (Unit {0})
unfolding cover_placement covers_all
check_coverage schedule plan records = do
  raise_if (length records == 0) validation_error
  c ← fold_result (cover_placement schedule plan) (record { anchors = []; covered = [] }) records
  raise_if (not (covers_all c.covered plan.elided_ops (length schedule.ops))) validation_error

pub workspace_of : List CommandPlacement → ℕ
workspace_of [] = 0
workspace_of (p ∷ rest) =
    max (p.command.workspace_offset + p.command.workspace_bytes) (workspace_of rest)

module _ (schedule_sha256 : ExecutionSchedule → String) (plan_sha256 : MemoryPlan → List ℕ) where
  -- `assemble_command_stream`
  pub assemble_command_stream :
      ExecutionSchedule → MemoryPlan → List CommandPlacement → CudaArch → Result CommandStream
  unfolding check_coverage workspace_of
  assemble_command_stream schedule plan records target_arch = do
    raise_if (not (str_eq plan.schedule_sha256 (schedule_sha256 schedule))) validation_error
    check_coverage schedule plan records
    ordered ← order_command_placements schedule plan records
    let stream : CommandStream = record {
      target_arch = target_arch;
      memory_plan_sha256 = plan_sha256 plan;
      value_count = length schedule.values;
      arena_bytes = plan.arena_bytes;
      state_bytes = plan.state_bytes;
      workspace_bytes = workspace_of ordered;
      commands = map (λ (p : CommandPlacement). p.command) ordered;
    }
    check_stream stream
    ok stream

-- What a run of the assembly computes.
unfoldable pub assembly : Unit {0}
unfolding cover_placement covers_all check_coverage workspace_of assemble_command_stream
assembly = tt
