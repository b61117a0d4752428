-- ===== src/Capability/Runs.antt =====
-- Runs of the choice of capabilities, and its theorems at a concrete registry.
use ag_infer.Prelude.{
  ℕ, ◌+◌, ◌≡◌, refl, String, true, false, none, List, [], ◌∷◌, ◌++◌, ok, err, validation_error,
  length, replicate, all_of, list_eq, filter_by, sorted, insert_sorted, sum_by,
}
use Prim.Native.String.{len}
use mathlib.Core.List.{Permᴰ}
use ag_infer.Prelude.Bytes.{to_hex, from_hex}
use ag_infer.Schedule.{static, bool, float, TensorSignature, item}
use ag_infer.Inventory.{
  LoweringKind, RequirementStatus, InventoryOp, LoweringInventory, is_one_of, classify_conv2d,
  classify, needs,
}
use ag_infer.Command.{CudaArch, sm120, checks}
use ag_infer.Capability.{
  ProviderCapability, ProviderReceipt, ResolutionIssue, ProviderResolution, IssueKind, check_text,
  strictly_sorted, check_capability, float_is, same_float, attribute_eq, dims_eq, types_eq,
  attributes_eq, matches, exact_for, digest_leb, has_digest, all_distinct, issue_of, receipt_of,
  ordered_by_digest, answer_required, answer_as, answer_all, resolve_provider_capabilities,
}
use ag_infer.Capability.Classes.{IsClassified, classify-IsClassified}
use ag_infer.Capability.Answers.{
  Answers, runtime_executions, resolve_provider_capabilities-Answers,
  resolve_provider_capabilities_executions,
}
use ag_infer.Capability.Registry.{resolve_provider_capabilities-Permᴰ}

computed : Unit {0}
unfolding checks to_hex from_hex all_of list_eq filter_by sorted insert_sorted item is_one_of
    classify_conv2d classify check_text strictly_sorted check_capability float_is same_float
    attribute_eq dims_eq types_eq attributes_eq matches exact_for digest_leb has_digest all_distinct
    issue_of receipt_of ordered_by_digest answer_required answer_as answer_all
    resolve_provider_capabilities
computed = tt

abbrev tensor : TensorSignature
tensor = record { dtype = "f32"; shape = static 4 ∷ []; layout = "row_major"; device = "cuda" }

added : classify "add" [] (tensor ∷ tensor ∷ []) (tensor ∷ []) ≡ ok (needs LoweringKind.aot_cuda)
unfolding computed
added = refl

classify-IsClassified_example :
    IsClassified ((tensor ∷ tensor ∷ []) ++ (tensor ∷ [])) (needs LoweringKind.aot_cuda)
classify-IsClassified_example =
    classify-IsClassified "add" [] (tensor ∷ tensor ∷ []) (tensor ∷ [])
      (needs LoweringKind.aot_cuda) added

-- The bits of 1.0
float_is_one : attribute_eq (float 4607182418800017408) (bool true) ≡ true
unfolding computed
float_is_one = refl

nul_refused : check_text "a\0b" ≡ err validation_error
unfolding computed
nul_refused = refl

one_byte : len "\0" ≡ 1
one_byte = refl

abbrev op : ℕ → String → LoweringKind → RequirementStatus → InventoryOp
op index opcode kind status = record {
  function = "main";
  op_index = index;
  opcode = opcode;
  executions = 10;
  lowering_kind = kind;
  status = status;
  inputs = "%0" ∷ [];
  outputs = "%1" ∷ [];
  input_types = tensor ∷ [];
  output_types = tensor ∷ [];
  attributes = [];
  constant_identity = none;
  blocker = none;
}

abbrev inventory : LoweringInventory
inventory = record {
  program_sha256 = "p";
  entry = "main";
  function_invocations = ("main", 10) ∷ [];
  ops =
      op 0 "constant" LoweringKind.builtin_meta RequirementStatus.meta
      ∷ op 1 "gelu" LoweringKind.aot_cuda RequirementStatus.required
      ∷ op 2 "relu" LoweringKind.aot_cuda RequirementStatus.required
      ∷ op 3 "odd" LoweringKind.blocked RequirementStatus.blocked
      ∷ [];
  execution_order = [];
}

-- Sixty-four times the character `1`.
abbrev text : List ℕ
text = replicate 64 49

abbrev capability : ℕ → String → ProviderCapability
capability id opcode = record {
  provider_id = id;
  abi_major = 1;
  abi_minor = 0;
  provider_version = "1";
  implementation_id = "kernel";
  implementation_digest = text;
  target_arch = sm120;
  lowering_kind = LoweringKind.aot_cuda;
  opcode = opcode;
  input_types = tensor ∷ [];
  output_types = tensor ∷ [];
  attributes = [];
  supports_capture = true;
  workspace_bytes = 0;
}

capability_built :
    exact_for
      (op 1 "gelu" LoweringKind.aot_cuda RequirementStatus.required)
      2
      1
      0
      "1"
      "kernel"
      text
      sm120
      true
      0
    ≡ ok (capability 2 "gelu")
unfolding computed
capability_built = refl

-- In place of SHA-256.
abbrev digest : ProviderCapability → List ℕ
digest c = c.provider_id ∷ []

abbrev detail : InventoryOp → CudaArch → String
detail op target_arch = "missing"

abbrev inventory_digest : LoweringInventory → List ℕ
inventory_digest i = 7 ∷ []

abbrev registry : List ProviderCapability
registry = capability 4 "relu" ∷ capability 3 "relu" ∷ capability 2 "gelu" ∷ []

abbrev issue : ℕ → String → IssueKind → String → List (List ℕ) → ResolutionIssue
issue index opcode kind detail candidates = record {
  site = ("main", index);
  opcode = opcode;
  executions = 10;
  kind = kind;
  detail = detail;
  candidates = candidates;
}

-- One operation has its capability, another one has two, and the third is blocked.
abbrev resolution : ProviderResolution
resolution = record {
  inventory_sha256 = 7 ∷ [];
  program_sha256 = "p";
  target_arch = sm120;
  receipts =
      record {
        site = ("main", 1);
        executions = 10;
        capability_digest = 2 ∷ [];
        provider_id = 2;
        abi_major = 1;
        abi_minor = 0;
        provider_version = "1";
        implementation_id = "kernel";
        implementation_digest = text;
        supports_capture = true;
        workspace_bytes = 0;
      }
      ∷ [];
  issues =
      issue 2 "relu" IssueKind.ambiguous "multiple exact provider capabilities match"
        ((3 ∷ []) ∷ (4 ∷ []) ∷ [])
      ∷ issue 3 "odd" IssueKind.inventory_blocked "inventory site is blocked" []
      ∷ [];
}

resolved :
    resolve_provider_capabilities digest detail inventory_digest inventory registry sm120 false
    ≡ ok resolution
unfolding computed
resolved = refl

strict_refused :
    resolve_provider_capabilities digest detail inventory_digest inventory registry sm120 true
    ≡ err validation_error
unfolding computed
strict_refused = refl

resolve_provider_capabilities-Answers_example :
    Answers digest registry sm120 inventory.ops resolution.receipts resolution.issues
    × (false ≡ true → length resolution.issues ≡ 0)
resolve_provider_capabilities-Answers_example =
    resolve_provider_capabilities-Answers digest detail inventory_digest inventory registry sm120
      false resolution resolved

resolve_provider_capabilities_executions_example :
    sum_by (λ (x : ProviderReceipt). x.executions) resolution.receipts
      + sum_by (λ (x : ResolutionIssue). x.executions) resolution.issues
    ≡ sum_by runtime_executions inventory.ops
resolve_provider_capabilities_executions_example =
    resolve_provider_capabilities_executions digest detail inventory_digest inventory registry sm120
      false resolution resolved

abbrev reordered : List ProviderCapability
reordered = capability 3 "relu" ∷ capability 4 "relu" ∷ capability 2 "gelu" ∷ []

registry-Permᴰ : Permᴰ registry reordered
registry-Permᴰ = Permᴰ.swap refl refl

resolve_provider_capabilities-Permᴰ_example :
    resolve_provider_capabilities digest detail inventory_digest inventory registry sm120 false
    ≡ resolve_provider_capabilities digest detail inventory_digest inventory reordered sm120 false
resolve_provider_capabilities-Permᴰ_example =
    resolve_provider_capabilities-Permᴰ digest detail inventory_digest inventory registry reordered
      sm120 false registry-Permᴰ
