-- ===== src/DeadCommands.antt =====
-- src/aginfer/compiler/dead_commands.py, and `_roots` of src/aginfer/packed_weights.py: the removal of
-- commands whose results no kept command reads and no output is.
pub mod Swept
pub mod Live
mod Runs
use ag_infer.Prelude.{
  ℕ, suc, String, Bool, true, false, not, ◌&&◌, ◌||◌, ◌==◌, List, [], ◌∷◌, ◌++◌, map, Result, ok,
  ◌>>=◌, traverse, if◌then◌else◌, length, elem, range, all_of, distinct, sorted, leb, filter_by,
}
use ag_infer.Schedule.{ScheduledOp, ExecutionSchedule, item}
use ag_infer.Memory.{ValueAllocation, or_key_error}
use ag_infer.Memory.Build.{MemoryPlan}
use ag_infer.Inventory.{is_one_of}
use ag_infer.Command.{
  OperandAccess, read, write, read_write, CommandOperand, ProviderCommand, is_write,
}
use ag_infer.Assemble.{
  CommandPlacement, allocation_of, find_alias_root, reads_value, is_arena_region,
}
use ag_infer.Assemble.Order.{order_command_placements}

abbrev pub pure_ops : List String
pure_ops =
    "add" ∷ "mul" ∷ "cast" ∷ "linear" ∷ "gelu" ∷ "silu" ∷ "layer_norm" ∷ "rms_norm" ∷ "rope_default"
    ∷ "scaled_dot_product_attention" ∷ "reshape" ∷ "transpose" ∷ "slice" ∷ "broadcast_in_dim" ∷ []

-- `_roots` of packed_weights.py
pub packed_root : List ValueAllocation → ℕ → Result ℕ
unfolding find_alias_root
packed_root allocations value_id = do
  _ ← or_key_error (allocation_of allocations value_id)
  find_alias_root allocations (suc (suc (length allocations))) [] value_id

pub packed_roots : List ValueAllocation → Result (List ℕ)
unfolding packed_root
packed_roots allocations = traverse (packed_root allocations) (range 0 (length allocations))

-- The roots of the operands of a command that pass a test on their access.
pub operand_roots : List ℕ → (OperandAccess → Bool) → List CommandOperand → Result (List ℕ)
operand_roots roots test operands =
    traverse (λ (o : CommandOperand). item roots o.value_id)
      (filter_by (λ (o : CommandOperand). test o.access) operands)

-- A placement with the roots that its command writes.
pub with_writes : List ℕ → CommandPlacement → Result (CommandPlacement × List ℕ)
unfolding operand_roots
with_writes roots p = do outputs ← operand_roots roots is_write p.command.operands; ok (p, outputs)

pub written_roots : List (CommandPlacement × List ℕ) → List ℕ
written_roots [] = []
written_roots (row ∷ rest) = row.1 ++ written_roots rest

-- `Counter`: how often a root is written.
pub times_written : List (CommandPlacement × List ℕ) → ℕ → ℕ
unfolding written_roots
times_written rows root = length (filter_by (λ v. v == root) (written_roots rows))

-- `all(... for x in xs)`, where the test may raise.
pub all_result : {A : Type 0} → (A → Result Bool) → List A → Result Bool
all_result test [] = ok true
all_result test (x ∷ xs) = do
  holds ← test x
  let rest = all_result test xs
  if holds then rest else ok false

-- `any(... for x in xs)`
pub any_of : (ℕ → Bool) → List ℕ → Bool
any_of test [] = false
any_of test (x ∷ xs) = test x || any_of test xs

abbrev pub is_in_place : OperandAccess → Bool
is_in_place read_write = true
is_in_place _ = false

-- `c.provider_id in (1, 2, 4, 5) and (c.abi_major, c.abi_minor) == (1, 0)`
abbrev pub is_known_provider : ProviderCommand → Bool
is_known_provider c =
    elem c.provider_id (1 ∷ 2 ∷ 4 ∷ 5 ∷ []) && c.abi_major == 1 && c.abi_minor == 0

-- The value of `pure`; the tests after one that fails are not run.
pub is_pure :
    ExecutionSchedule
    → MemoryPlan
    → List (CommandPlacement × List ℕ)
    → CommandPlacement
    → List ℕ
    → Result Bool
unfolding all_result times_written
is_pure schedule plan rows p outputs = if not (is_known_provider p.command) then ok false else (do
  pure_ops_only ←
      all_result (λ i. do op ← item schedule.ops i; ok (is_one_of op.opcode pure_ops)) p.covered
  let plain =
      pure_ops_only
      && all_of (λ (o : CommandOperand). not (is_in_place o.access) && o.byte_offset == 0)
          p.command.operands
  let private_outputs =
      all_result
        (λ v. do
          a ← item plan.allocations v
          ok (is_arena_region a.region && times_written rows v == 1))
        outputs
  if plain then private_outputs else ok false)

-- The local variables of the loop, which runs from the last command to the first.
pub record Sweep : Type 0 where
  pub needed : List ℕ
  pub kept : List CommandPlacement
  pub removed : List CommandPlacement

-- The loop body.
pub sweep_command :
    ExecutionSchedule
    → MemoryPlan
    → List ℕ
    → List (CommandPlacement × List ℕ)
    → CommandPlacement × List ℕ
    → Sweep
    → Result Sweep
unfolding is_pure operand_roots
sweep_command schedule plan roots rows (p, outputs) s = do
  pure ← is_pure schedule plan rows p outputs
  let dead = pure && not (any_of (λ v. elem v s.needed) outputs)
  let kept : Result Sweep = do
    reads ← operand_roots roots reads_value p.command.operands
    ok (record { needed = reads ++ s.needed; kept = p ∷ s.kept; removed = s.removed })
  if dead then ok (record s { removed = p ∷ s.removed }) else kept

-- The loop: what follows a command is swept before it.
pub sweep_commands :
    ExecutionSchedule
    → MemoryPlan
    → List ℕ
    → List (CommandPlacement × List ℕ)
    → List ℕ
    → List (CommandPlacement × List ℕ)
    → Result Sweep
unfolding sweep_command
sweep_commands schedule plan roots rows outputs [] =
    ok (record { needed = outputs; kept = []; removed = [] })
sweep_commands schedule plan roots rows outputs (row ∷ rest) = do
  s ← sweep_commands schedule plan roots rows outputs rest
  sweep_command schedule plan roots rows row s

pub covered_by : List CommandPlacement → List ℕ
covered_by [] = []
covered_by (p ∷ rest) = p.covered ++ covered_by rest

-- `eliminate_dead_commands`
pub eliminate_dead_commands :
    ExecutionSchedule
    → MemoryPlan
    → List CommandPlacement
    → Result (MemoryPlan × List CommandPlacement)
unfolding packed_roots with_writes sweep_commands covered_by
eliminate_dead_commands schedule plan placements = do
  records ← order_command_placements schedule plan placements
  roots ← packed_roots plan.allocations
  rows ← traverse (with_writes roots) records
  outputs ← traverse (λ (r : String × ℕ). item roots r.1) schedule.entry_outputs
  s ← sweep_commands schedule plan roots rows outputs rows
  let elided = sorted leb (distinct (covered_by s.removed ++ plan.elided_ops))
  ok (record plan { elided_ops = elided }, s.kept)
