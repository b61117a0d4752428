-- ===== src/Assemble/Runs.antt =====
-- Runs of the assembly, and its theorems at a concrete schedule.
use ag_infer.Assemble.Order.Cycles.{Waiting}
use ag_infer.Prelude.{
  ◌<◌, All, arith, ℕ, suc, ◌≡◌, ◌⊎◌, refl, String, List, [], ◌∷◌, ok, err, validation_error, length,
  traverse, fold_result, sorted, insert_sorted, range, filter_by, all_of, elem, distinct, list_eq,
}
use ag_infer.Prelude.Bytes.{to_hex, from_hex}
use ag_infer.Schedule.{ExecutionSchedule, item, attribute}
use ag_infer.Memory.{get}
use ag_infer.Memory.Build.{MemoryPlan}
use ag_infer.Command.{sm120, CommandStream, checks}
use ag_infer.Assemble.{find_alias_root, requirements}
use ag_infer.Assemble.Roots.{AliasPath, find_alias_root-ends}
use ag_infer.Assemble.Order.{ordering, order_indices}
use ag_infer.Assemble.Order.Topology.{IsTopological}
use ag_infer.Assemble.Order.Placed.{order_indices-outcome}
use ag_infer.Assemble.Stream.{assembly, assemble_command_stream}
use ag_infer.Assemble.Stream.Coverage.{IsAssembled, assemble_command_stream-IsAssembled}
use ag_infer.Assemble.Example.{schedule, plan, digest, add, mul, update, placements}

computed : Unit {0}
unfolding requirements ordering assembly checks to_hex from_hex get traverse fold_result sorted
    insert_sorted range filter_by all_of elem distinct list_eq item attribute
computed = tt

-- Three keys, in reversed order.
abbrev keys : List ℕ
keys = 2 ∷ 1 ∷ 0 ∷ []

abbrev dependencies : List (ℕ × ℕ)
dependencies = (0, 1) ∷ (1, 2) ∷ []

in_order : order_indices keys dependencies ≡ ok (2 ∷ 1 ∷ 0 ∷ [])
unfolding computed
in_order = refl

cycle_refused : order_indices keys ((2, 0) ∷ dependencies) ≡ err validation_error
unfolding computed
cycle_refused = refl

dependencies_below : All (λ (d : ℕ × ℕ). d.1 < length keys) dependencies
dependencies_below = (omega arith, (omega arith, tt))

order_indices-outcome_example :
    ((order : List ℕ) × (order_indices keys dependencies ≡ ok order)
      × (length order ≡ length keys)
      × IsTopological (length keys) dependencies order)
    ⊎ ((order_indices keys dependencies ≡ err validation_error)
        × ((i : ℕ) × Waiting dependencies i i))
order_indices-outcome_example = order_indices-outcome keys dependencies dependencies_below

abbrev schedule_digest : ExecutionSchedule → String
schedule_digest s = s.program_sha256

abbrev plan_digest : MemoryPlan → List ℕ
plan_digest p = digest

abbrev stream : CommandStream
stream = record {
  target_arch = sm120;
  memory_plan_sha256 = digest;
  value_count = 6;
  arena_bytes = 1024;
  state_bytes = 512;
  workspace_bytes = 64;
  commands = add.command ∷ mul.command ∷ update.command ∷ [];
}

assembled :
    assemble_command_stream schedule_digest plan_digest schedule plan placements sm120 ≡ ok stream
unfolding computed
assembled = refl

-- A placement that no other one covers is missing.
uncovered_refused :
    assemble_command_stream schedule_digest plan_digest schedule plan (mul ∷ add ∷ []) sm120
    ≡ err validation_error
unfolding computed
uncovered_refused = refl

assemble_command_stream-IsAssembled_example : IsAssembled schedule plan placements stream
assemble_command_stream-IsAssembled_example =
    assemble_command_stream-IsAssembled schedule_digest plan_digest schedule plan placements sm120
      stream assembled

find_alias_root-ends_example :
    ((r : ℕ) × (find_alias_root plan.allocations (suc (suc (length plan.allocations))) [] 5 ≡ ok r)
      × AliasPath plan.allocations 5 r)
    ⊎ (find_alias_root plan.allocations (suc (suc (length plan.allocations))) [] 5
        ≡ err validation_error)
find_alias_root-ends_example = find_alias_root-ends plan.allocations 5
