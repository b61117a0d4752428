-- ===== src/Assemble/Example.antt =====
-- A schedule of three operations, its memory plan, and a command for each operation.
use ag_infer.Prelude.{ℕ, String, Option, none, some, List, [], ◌∷◌, true, replicate}
use ag_infer.Schedule.{static, str, ValueStorage, ScheduledValue, ScheduledOp, ExecutionSchedule}
use ag_infer.Memory.{AllocationRegion, ValueAllocation}
use ag_infer.Memory.Build.{MemoryPlan}
use ag_infer.Command.{cuda_kernel, read, write, read_write, OperandAccess, CommandOperand}
use ag_infer.Assemble.{CommandPlacement}

abbrev value : ℕ → ValueStorage → Option ℕ → ScheduledValue
value id storage producer = record {
  value_id = id;
  debug_name = "";
  type = record { dtype = "f32"; shape = static 128 ∷ []; layout = "row_major"; device = "cuda" };
  storage = storage;
  producer = producer;
  alias_of = none;
  constant_identity = none;
}

abbrev pub operation : ℕ → String → List ℕ → ℕ → ScheduledOp
operation index opcode inputs output = record {
  execution_index = index;
  invocation_id = 0;
  site = "main";
  opcode = opcode;
  inputs = inputs;
  outputs = output ∷ [];
  attributes = [];
}

-- A temporary
abbrev pub value_of : ℕ → Option ℕ → ScheduledValue
value_of id producer = value id ValueStorage.temporary producer

-- A sum, a product, and a state that takes the product up.
abbrev pub schedule : ExecutionSchedule
schedule = record {
  program_sha256 = "p";
  inventory_sha256 = "i";
  entry = "main";
  entry_inputs = ("x", 0) ∷ [];
  entry_outputs = ("y", 3) ∷ [];
  states = ("s", 4) ∷ [];
  values =
      value 0 ValueStorage.entry_input none
      ∷ value 1 ValueStorage.constant none
      ∷ value_of 2 (some 0)
      ∷ value_of 3 (some 1)
      ∷ value 4 ValueStorage.state none
      ∷ value 5 ValueStorage.state_alias (some 2)
      ∷ [];
  ops =
      operation 0 "add" (0 ∷ 1 ∷ []) 2
      ∷ operation 1 "mul" (2 ∷ 1 ∷ []) 3
      ∷ record (operation 2 "state_update" (4 ∷ 3 ∷ []) 5) { attributes = ("state", str "s") ∷ [] }
      ∷ [];
}

abbrev pub allocation : ℕ → AllocationRegion → Option ℕ → Option ℕ → Option ℕ → ValueAllocation
allocation id region offset bytes alias = record {
  value_id = id;
  region = region;
  byte_size = 512;
  offset = offset;
  allocation_bytes = bytes;
  alias_of = alias;
}

abbrev pub plan : MemoryPlan
plan = record {
  schedule_sha256 = "p";
  literal_materialization_sha256 = none;
  alignment = 256;
  arena_bytes = 1024;
  state_bytes = 512;
  peak_live_arena_bytes = 1024;
  naive_arena_bytes = 1024;
  entry_input_bytes = 512;
  entry_output_bytes = 512;
  constant_bytes = 512;
  allocations =
      allocation 0 AllocationRegion.external none none none
      ∷ allocation 1 AllocationRegion.constant none none none
      ∷ allocation 2 AllocationRegion.arena (some 0) (some 512) none
      ∷ allocation 3 AllocationRegion.arena (some 512) (some 512) none
      ∷ allocation 4 AllocationRegion.state (some 0) (some 512) none
      ∷ allocation 5 AllocationRegion.alias none none (some 4)
      ∷ [];
  intervals = [];
  elided_ops = [];
  command_schedule_sha256 = none;
}

-- Sixty-four times the character `1`.
abbrev pub digest : List ℕ
digest = replicate 64 49

abbrev pub operand : ℕ → OperandAccess → CommandOperand
operand id access = record { value_id = id; access = access; byte_offset = 0 }

abbrev pub placement : ℕ → List CommandOperand → CommandPlacement
placement index operands = record {
  execution_index = index;
  covered = index ∷ [];
  command = record {
    tag = cuda_kernel;
    provider_id = 1;
    abi_major = 1;
    abi_minor = 0;
    capability_digest = digest;
    operands = operands;
    payload = index ∷ [];
    workspace_offset = 0;
    workspace_bytes = 64;
    capture_safe = true;
  };
}

abbrev pub add : CommandPlacement
add = placement 0 (operand 0 read ∷ operand 1 read ∷ operand 2 write ∷ [])

abbrev pub mul : CommandPlacement
mul = placement 1 (operand 2 read ∷ operand 1 read ∷ operand 3 write ∷ [])

abbrev pub update : CommandPlacement
update = placement 2 (operand 3 read ∷ operand 4 read_write ∷ [])

-- The placements, the last one first.
abbrev pub placements : List CommandPlacement
placements = update ∷ mul ∷ add ∷ []
