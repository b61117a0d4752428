-- ===== src/Assemble/Order.antt =====
-- `order_command_placements` of src/aginfer/lowering/assemble.py: the dependencies between commands
-- and their order. A set of dependencies is a list of pairs, the command and the one it waits for;
-- the heap of ready commands is a list in the order of its keys.
pub mod Topology
pub mod Cycles
pub mod Reads
pub mod Placed
use ag_infer.Prelude.{
  ℕ, zero, suc, ◌+◌, ◌≡◌, String, Bool, true, false, not, ◌&&◌, ◌||◌, Option, none, some, List, [],
  ◌∷◌, ◌++◌, map, Result, ok, err, validation_error, assertion_error, ◌>>=◌, ◌>>◌, raise_if,
  traverse, ltb, leb, ◌==◌, if◌then◌else◌, length, get_or, elem, distinct, sorted, insert_sorted,
  range, filter_by,
}
use ag_infer.Schedule.{ExecutionSchedule, item}
use ag_infer.Memory.{get}
use ag_infer.Memory.Build.{MemoryPlan}
use ag_infer.Assemble.{CommandPlacement, alias_roots, same_ids, Requirements, Boundary, require_all}

-- A command that reads what another one writes waits for it.
pub read_dependencies : List (ℕ × ℕ) → List (ℕ × ℕ) → Result (List (ℕ × ℕ))
read_dependencies writers [] = ok []
read_dependencies writers ((index, root) ∷ rest) = elim (get writers root) [
  | none ↦ err validation_error
  | some writer ↦ do more ← read_dependencies writers rest; ok ((index, writer) ∷ more)
]

-- Python's `<=` on pairs.
abbrev pub pair_leb : ℕ × ℕ → ℕ × ℕ → Bool
pair_leb a b = ltb a.0 b.0 || (a.0 == b.0 && leb a.1 b.1)

-- Neighbours in the order of the events: the second command waits for the first.
pub chain : List (ℕ × ℕ) → List (ℕ × ℕ)
chain [] = []
chain (a ∷ []) = []
chain (a ∷ b ∷ rest) = if a.1 == b.1 then chain (b ∷ rest) else (b.1, a.1) ∷ chain (b ∷ rest)

-- The events of one state.
pub events_of : ℕ → List (ℕ × (ℕ × ℕ)) → List (ℕ × ℕ)
events_of root [] = []
events_of root ((r, event) ∷ rest) =
    if r == root then event ∷ events_of root rest else events_of root rest

pub state_dependencies : List (ℕ × (ℕ × ℕ)) → List ℕ → List (ℕ × ℕ)
unfolding chain events_of
state_dependencies events [] = []
state_dependencies events (root ∷ rest) =
    chain (sorted pair_leb (events_of root events)) ++ state_dependencies events rest

-- All dependencies between the commands.
pub dependencies_of : Requirements → Result (List (ℕ × ℕ))
unfolding read_dependencies state_dependencies
dependencies_of r = do
  reads ← read_dependencies r.writers r.reads
  ok (reads ++ state_dependencies r.events (distinct (map (λ e. e.0) r.events)))

-- Does a command wait for any, and does it wait for a given one?
pub blocked : List (ℕ × ℕ) → ℕ → Bool
blocked [] i = false
blocked (d ∷ rest) i = d.0 == i || blocked rest i

pub waits_for : List (ℕ × ℕ) → ℕ → ℕ → Bool
waits_for [] i j = false
waits_for (d ∷ rest) i j = (d.0 == i && d.1 == j) || waits_for rest i j

-- The dependencies that are left when a command has been taken, and the commands that are ready then.
pub release : List (ℕ × ℕ) → ℕ → List (ℕ × ℕ)
release dependencies index = filter_by (λ d. not (d.1 == index)) dependencies

pub woken : List (ℕ × ℕ) → ℕ → ℕ → List ℕ
unfolding release blocked waits_for
woken dependencies index count =
    filter_by (λ i. waits_for dependencies i index && not (blocked (release dependencies index) i))
      (range 0 count)

-- `heapq.heappush`; the key of a command is its execution index.
pub push_all : List ℕ → List ℕ → List (ℕ × ℕ) → List (ℕ × ℕ)
push_all keys [] ready = ready
push_all keys (i ∷ rest) ready =
    push_all keys rest (insert_sorted pair_leb (get_or keys i 0, i) ready)

-- The loop that takes the ready commands in the order of their keys. Each command is taken once,
-- so that their number is enough fuel: `Assemble.Order.Topology` proves it.
pub take_ready : List ℕ → ℕ → List (ℕ × ℕ) → List (ℕ × ℕ) → Result (List ℕ)
unfolding release woken push_all
take_ready keys fuel dependencies [] = ok []
take_ready keys zero dependencies (r ∷ ready) = err assertion_error
take_ready keys (suc fuel) dependencies ((key, index) ∷ ready) = do
  rest ←
      take_ready keys fuel (release dependencies index)
        (push_all keys (woken dependencies index (length keys)) ready)
  ok (index ∷ rest)

-- The commands in their order, as indices.
pub order_indices : List ℕ → List (ℕ × ℕ) → Result (List ℕ)
unfolding take_ready blocked
order_indices keys dependencies = do
  order ←
      take_ready keys (length keys) dependencies
        (push_all keys (filter_by (λ i. not (blocked dependencies i)) (range 0 (length keys))) [])
  raise_if (not (length order == length keys)) validation_error
  ok order

-- What the placements require, with the checks that lead to it.
pub placement_requirements :
    ExecutionSchedule → MemoryPlan → List CommandPlacement → Result Requirements
placement_requirements schedule plan records = do
  let keys = map (λ (p : CommandPlacement). p.execution_index) records
  raise_if (length records == 0) validation_error
  raise_if (not (length (distinct keys) == length records)) validation_error
  let ids = map (λ a. a.value_id) plan.allocations
  raise_if (not (same_ids ids (length schedule.values))) validation_error
  roots ← alias_roots plan.allocations (length schedule.values)
  inputs ← traverse (λ (r : String × ℕ). item roots r.1) schedule.entry_inputs
  outputs ← traverse (λ (r : String × ℕ). item roots r.1) schedule.entry_outputs
  let b : Boundary = record {
    schedule = schedule;
    allocations = plan.allocations;
    roots = roots;
    inputs = inputs;
    outputs = outputs;
  }
  require_all b 0 (record { writers = []; reads = []; events = [] }) records

-- `order_command_placements`
unfoldable pub order_command_placements :
    ExecutionSchedule → MemoryPlan → List CommandPlacement → Result (List CommandPlacement)
unfolding placement_requirements dependencies_of order_indices
order_command_placements schedule plan records = do
  r ← placement_requirements schedule plan records
  dependencies ← dependencies_of r
  order ← order_indices (map (λ (p : CommandPlacement). p.execution_index) records) dependencies
  traverse (item records) order

-- What a run of the order computes.
unfoldable pub ordering : Unit {0}
unfolding read_dependencies chain events_of state_dependencies dependencies_of blocked waits_for
    release woken push_all take_ready order_indices placement_requirements order_command_placements
ordering = tt
