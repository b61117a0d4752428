-- ===== src/Assemble.antt =====
-- src/aginfer/lowering/assemble.py: the placements of commands and what each of them requires. The
-- order of the placements is in Assemble/Order, the command stream in Assemble/Stream.
pub mod Roots
pub mod Order
pub mod Stream
pub mod Example
mod Runs
use ag_infer.Prelude.{
  ℕ, zero, suc, ◌+◌, ◌≡◌, String, Bool, true, false, not, ◌&&◌, ◌||◌, Option, none, some, List, [],
  ◌∷◌, ◌++◌, map, Result, ok, err, validation_error, key_error, ◌>>=◌, ◌>>◌, raise_if, traverse,
  fold_result, ltb, leb, ◌==◌, if◌then◌else◌, str_eq, length, list_eq, elem, distinct, sorted,
  range, all_of, filter_by,
}
use ag_infer.Schedule.{
  Attribute, str, ScheduledValue, ScheduledOp, ExecutionSchedule, item, attribute,
}
use ag_infer.Memory.{get, put, or_key_error, AllocationRegion, ValueAllocation}
use ag_infer.Memory.Build.{MemoryPlan}
use ag_infer.Command.{
  OperandAccess, read, write, read_write, CommandOperand, ProviderCommand, is_write,
}

-- `CommandPlacement`; `covered` is `covered_execution_indices`.
pub record CommandPlacement : Type 0 where
  pub execution_index : ℕ
  pub covered : List ℕ
  pub command : ProviderCommand

-- `CommandPlacement.__post_init__`
pub check_placement : CommandPlacement → Result (Unit {0})
check_placement p =
    raise_if
      (length p.covered == 0
        || not (list_eq (sorted leb (distinct p.covered)) p.covered)
        || not (elem p.execution_index p.covered))
      validation_error

-- `allocations[value_id]`, of `{a.value_id: a for a in memory_plan.allocations}`
unfoldable pub allocation_of : List ValueAllocation → ℕ → Option ValueAllocation
allocation_of [] value_id = none
allocation_of (a ∷ rest) value_id = elim (allocation_of rest value_id) [
  | some later ↦ some later
  | none ↦ if a.value_id == value_id then some a else none
]

-- The walk along the aliases of a plan. The number of allocations bounds its steps:
-- `Assemble.Roots` proves it.
unfoldable pub find_alias_root : List ValueAllocation → ℕ → List ℕ → ℕ → Result ℕ
unfolding allocation_of
find_alias_root allocations zero seen root = err key_error
find_alias_root allocations (suc fuel) seen root = elim (allocation_of allocations root) [
  | none ↦ err validation_error
  | some a ↦ elim a.region [
    | AllocationRegion.alias ↦ elim a.alias_of [
      | none ↦ err validation_error
      | some target ↦
          let rest = find_alias_root allocations fuel (root ∷ seen) target in
          if elem root seen then err validation_error else rest
    ]
    | _ ↦ ok root
  ]
]

-- `set(allocations) == set(range(count))`
pub same_ids : List ℕ → ℕ → Bool
same_ids ids count = all_of (λ i. ltb i count) ids && all_of (λ i. elem i ids) (range 0 count)

-- The roots of all values, from the allocations of a plan.
unfoldable pub alias_roots : List ValueAllocation → ℕ → Result (List ℕ)
unfolding find_alias_root
alias_roots allocations count =
    traverse (find_alias_root allocations (suc (suc (length allocations))) []) (range 0 count)

abbrev pub reads_value : OperandAccess → Bool
reads_value write = false
reads_value _ = true

-- What the commands write, read, and do to states, up to some command. `writers` is from the roots
-- to the commands; `reads` holds pairs of a command and a root; `events` holds, for a state, an execution
-- that touches it with the command that stands for it.
pub record Requirements : Type 0 where
  pub writers : List (ℕ × ℕ)
  pub reads : List (ℕ × ℕ)
  pub events : List (ℕ × (ℕ × ℕ))

-- `states.get(name)`, where the name is the attribute of an operation.
pub state_named : List (String × ℕ) → Option Attribute → Option ℕ
state_named [] name = none
state_named ((key, value_id) ∷ rest) name = elim (state_named rest name) [
  | some later ↦ some later
  | none ↦ elim name [
    | some (str text) ↦ if str_eq key text then some value_id else none
    | _ ↦ none
  ]
]

abbrev pub is_value : Option ℕ → ℕ → Bool
is_value none value_id = false
is_value (some n) value_id = n == value_id

-- Does an operation read or write a state, as the operand does?
pub touches : Bool → Bool → String → Bool
touches reading writing opcode =
    (reading && str_eq opcode "state_read")
    || (writing && (str_eq opcode "state_write" || str_eq opcode "state_update"))

-- The covered executions that touch the state.
pub covered_events : ExecutionSchedule → ℕ → Bool → Bool → List ℕ → Result (List ℕ)
unfolding state_named touches
covered_events schedule root reading writing [] = ok []
covered_events schedule root reading writing (execution ∷ rest) = do
  op ← item schedule.ops execution
  more ← covered_events schedule root reading writing rest
  ok (
      if is_value (state_named schedule.states (attribute "state" op.attributes)) root
        && touches reading writing op.opcode
      then execution ∷ more
      else more)

-- The operation that reads the state into the operand, if that is how it came about.
pub read_event : ExecutionSchedule → Bool → ScheduledValue → Result (List ℕ)
read_event schedule reading value = elim value.producer [
  | none ↦ ok []
  | some producer ↦
      if reading
      then (do
        op ← item schedule.ops producer
        ok (if str_eq op.opcode "state_read" then producer ∷ [] else []))
      else ok []
]

abbrev pub is_constant_region : AllocationRegion → Bool
is_constant_region AllocationRegion.constant = true
is_constant_region _ = false

abbrev pub is_arena_region : AllocationRegion → Bool
is_arena_region AllocationRegion.arena = true
is_arena_region _ = false

abbrev pub known : Option ℕ → Bool
known none = false
known (some n) = true

-- What all commands are checked against.
pub record Boundary : Type 0 where
  pub schedule : ExecutionSchedule
  pub allocations : List ValueAllocation
  pub roots : List ℕ
  pub inputs : List ℕ
  pub outputs : List ℕ

-- An access to a state.
pub require_state : Boundary → ℕ → List ℕ → CommandOperand → ℕ → Requirements → Result Requirements
unfolding covered_events read_event
require_state b index covered operand root r = do
  let reading = reads_value operand.access
  touched ← covered_events b.schedule root reading (is_write operand.access) covered
  value ← item b.schedule.values operand.value_id
  produced ← read_event b.schedule reading value
  raise_if (length (touched ++ produced) == 0) validation_error
  ok (record r { events = r.events ++ map (λ e. (root, (e, index))) (touched ++ produced) })

-- An access to any other storage.
pub require_value :
    Boundary → ℕ → CommandOperand → ℕ → AllocationRegion → Requirements → Result Requirements
require_value b index operand root region r = do
  raise_if (is_write operand.access && (is_constant_region region || elem root b.inputs))
      validation_error
  raise_if (is_write operand.access && known (get r.writers root)) validation_error
  ok (record {
    writers = if is_write operand.access then put r.writers root index else r.writers;
    reads =
        if reads_value operand.access && (is_arena_region region || elem root b.outputs)
        then r.reads ++ ((index, root) ∷ [])
        else r.reads;
    events = r.events;
  })

-- The loop body over the operands of a command.
pub require_operand : Boundary → ℕ → List ℕ → Requirements → CommandOperand → Result Requirements
unfolding require_state require_value
require_operand b index covered r operand = do
  raise_if (leb (length b.roots) operand.value_id) validation_error
  root ← item b.roots operand.value_id
  a ← or_key_error (allocation_of b.allocations root)
  elim a.region [
    | AllocationRegion.unused ↦ err validation_error
    | AllocationRegion.state ↦ require_state b index covered operand root r
    | region ↦ require_value b index operand root region r
  ]

-- The loop over the commands.
pub require_all : Boundary → ℕ → Requirements → List CommandPlacement → Result Requirements
unfolding require_operand
require_all b index r [] = ok r
require_all b index r (p ∷ rest) = do
  raise_if (not (all_of (λ i. ltb i (length b.schedule.ops)) p.covered)) validation_error
  r' ← fold_result (require_operand b index p.covered) r p.command.operands
  require_all b (index + 1) r' rest

-- What a run of the requirements computes.
unfoldable pub requirements : Unit {0}
unfolding check_placement allocation_of find_alias_root same_ids alias_roots state_named touches
    covered_events read_event require_state require_value require_operand require_all
requirements = tt
