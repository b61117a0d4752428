-- ===== src/Schedule.antt =====
-- src/aginfer/lowering/schedule.py and the `TensorSignature` of lowering/inventory.py: the data of
-- an execution schedule. The identifiers of values are positions in the table of values.
pub mod Verify
pub mod Produced
pub mod Ssa
mod Runs
use ag_infer.Prelude.{
  ℕ, zero, suc, String, Bool, Option, none, some, List, [], ◌∷◌, Result, ok, err, index_error,
  if◌then◌else◌, str_eq,
}

-- A dimension of a shape: an integer, or the name of a symbol.
pub data Dim : Type 0 where
  static : ℕ → Dim
  symbol : String → Dim

pub record TensorSignature : Type 0 where
  pub dtype : String
  pub shape : List Dim
  pub layout : String
  pub device : String

-- An attribute of an operation. A tuple is one of integers; the axes and sizes that it holds are
-- not negative in a verified program. The bits of a float stand for it.
pub data Attribute : Type 0 where
  bool : Bool → Attribute
  int : ℕ → Attribute
  float : ℕ → Attribute
  str : String → Attribute
  ints : List ℕ → Attribute

-- `ValueStorage`
pub data ValueStorage : Type 0 where
  entry_input constant state state_alias temporary : ValueStorage

pub record ScheduledValue : Type 0 where
  pub value_id : ℕ
  pub debug_name : String
  pub type : TensorSignature
  pub storage : ValueStorage
  pub producer : Option ℕ
  pub alias_of : Option ℕ
  pub constant_identity : Option String

pub record ScheduledOp : Type 0 where
  pub execution_index : ℕ
  pub invocation_id : ℕ
  pub site : String
  pub opcode : String
  pub inputs : List ℕ
  pub outputs : List ℕ
  pub attributes : List (String × Attribute)

pub record ExecutionSchedule : Type 0 where
  pub program_sha256 : String
  pub inventory_sha256 : String
  pub entry : String
  pub entry_inputs : List (String × ℕ)
  pub entry_outputs : List (String × ℕ)
  pub states : List (String × ℕ)
  pub values : List ScheduledValue
  pub ops : List ScheduledOp

-- `values[i]`, which raises out of range.
module _ {A : Type 0} where
  unfoldable pub item : List A → ℕ → Result A
  item [] i = err index_error
  item (x ∷ xs) zero = ok x
  item (x ∷ xs) (suc i) = item xs i

-- `dict(attributes).get(name)`: of equal keys the last counts.
unfoldable pub attribute : String → List (String × Attribute) → Option Attribute
attribute name [] = none
attribute name ((key, value) ∷ rest) = elim (attribute name rest) [
  | some later ↦ some later
  | none ↦ if str_eq key name then some value else none
]
