-- ===== src/Inventory.antt =====
-- src/aginfer/lowering/inventory.py: the requirements of a program, and how an operation is
-- classified. The signature of a tensor stands for its type.
use ag_infer.Prelude.{
  ℕ, ◌++◌, String, Bool, true, false, not, ◌&&◌, Option, none, some, List, [], ◌∷◌, Result, ok, err,
  type_error, ◌>>=◌, if◌then◌else◌, str_eq, all_of, list_eq, drop,
}
use Prim.Native.String.{◌++◌ as joined}
use ag_infer.Schedule.{Dim, TensorSignature, Attribute, ints, item}
use ag_infer.Views.{static_shape}

-- `LoweringKind`
pub data LoweringKind : Type 0 where
  builtin_meta memory gemm attention aot_cuda blocked : LoweringKind

-- `RequirementStatus`
pub data RequirementStatus : Type 0 where
  meta required blocked : RequirementStatus

pub record InventoryOp : Type 0 where
  pub function : String
  pub op_index : ℕ
  pub opcode : String
  pub executions : ℕ
  pub lowering_kind : LoweringKind
  pub status : RequirementStatus
  pub inputs : List String
  pub outputs : List String
  pub input_types : List TensorSignature
  pub output_types : List TensorSignature
  pub attributes : List (String × Attribute)
  pub constant_identity : Option String
  pub blocker : Option String

-- `ExecutionRef`
pub record ExecutionRef : Type 0 where
  pub function : String
  pub op_index : ℕ

pub record LoweringInventory : Type 0 where
  pub program_sha256 : String
  pub entry : String
  pub function_invocations : List (String × ℕ)
  pub ops : List InventoryOp
  pub execution_order : List ExecutionRef

-- `opcode in {...}`
unfoldable pub is_one_of : String → List String → Bool
is_one_of opcode [] = false
is_one_of opcode (name ∷ rest) = if str_eq opcode name then true else is_one_of opcode rest

abbrev pub meta_opcodes : List String
meta_opcodes = "constant" ∷ "constant_ref" ∷ "call" ∷ []

abbrev pub memory_opcodes : List String
memory_opcodes =
    "broadcast_in_dim" ∷ "concat" ∷ "reshape" ∷ "slice" ∷ "state_read" ∷ "state_write"
    ∷ "state_update" ∷ "transpose" ∷ []

abbrev pub aot_opcodes : List String
aot_opcodes =
    "add" ∷ "cast" ∷ "cumulative_sum" ∷ "gather" ∷ "gelu" ∷ "layer_norm" ∷ "logical_and" ∷ "mul"
    ∷ "reduce_max" ∷ "reduce_sum" ∷ "relu" ∷ "rms_norm" ∷ "rope" ∷ "rope_default" ∷ "silu"
    ∷ "sinusoidal_embedding" ∷ "softmax" ∷ []

-- `op.attribute(name)`: of equal keys the first counts.
pub first_attribute : String → List (String × Attribute) → Option Attribute
first_attribute name [] = none
first_attribute name ((key, value) ∷ rest) =
    if str_eq key name then some value else first_attribute name rest

-- `tuple(int(value) for value in op.attribute(name))` of a verified operation, whose attribute is a
-- tuple of integers or missing. The characters of a text, through which Python would go, are not
-- considered: a text raises here, as every other attribute that is no tuple does.
pub ints_of : List (String × Attribute) → String → Result (List ℕ)
unfolding first_attribute
ints_of attributes name = elim (first_attribute name attributes) [
  | some (ints values) ↦ ok values
  | _ ↦ err type_error
]

-- `tuple(kernel) == strides`, where a dimension may be the name of a symbol.
pub same_dims : List Dim → List ℕ → Bool
same_dims dims values = elim (static_shape dims) [
  | none ↦ false
  | some shape ↦ list_eq shape values
]

-- A kind, a status, and the reason why no provider class fits.
pub record Classified : Type 0 where
  pub kind : LoweringKind
  pub status : RequirementStatus
  pub blocker : Option String

abbrev pub needs : LoweringKind → Classified
needs kind = record { kind = kind; status = RequirementStatus.required; blocker = none }

abbrev pub blocked_by : String → Classified
blocked_by reason = record {
  kind = LoweringKind.blocked;
  status = RequirementStatus.blocked;
  blocker = some reason;
}

-- The branch on `conv2d`.
unfoldable pub classify_conv2d :
    List (String × Attribute) → List TensorSignature → Result Classified
unfolding ints_of same_dims
classify_conv2d attributes input_types = do
  weight ← item input_types 1
  pads ← ints_of attributes "pads"
  strides ← ints_of attributes "strides"
  ok (
      if list_eq pads (0 ∷ 0 ∷ 0 ∷ 0 ∷ []) && same_dims (drop 2 weight.shape) strides
      then needs LoweringKind.gemm
      else blocked_by "overlapping or padded conv2d has no E2 provider class")

-- `_classify`
unfoldable pub classify :
    String
    → List (String × Attribute)
    → List TensorSignature
    → List TensorSignature
    → Result Classified
unfolding classify_conv2d
classify opcode attributes input_types output_types =
    if is_one_of opcode meta_opcodes
    then ok (record {
      kind = LoweringKind.builtin_meta;
      status = RequirementStatus.meta;
      blocker = none;
    })
    else if not
        (all_of (λ (t : TensorSignature). str_eq t.device "cuda") (input_types ++ output_types))
    then ok (blocked_by "E2 native inventory currently requires CUDA tensors")
    else if is_one_of opcode memory_opcodes
    then ok (needs LoweringKind.memory)
    else if is_one_of opcode ("linear" ∷ "matmul" ∷ [])
    then ok (needs LoweringKind.gemm)
    else if str_eq opcode "scaled_dot_product_attention"
    then ok (needs LoweringKind.attention)
    else if str_eq opcode "conv2d"
    then classify_conv2d attributes input_types
    else if is_one_of opcode aot_opcodes
    then ok (needs LoweringKind.aot_cuda)
    else ok (blocked_by (joined "opcode " (joined opcode " has no E2 provider class")))
