-- ===== src/Capability.antt =====
-- src/aginfer/lowering/capability.py: the registry of the capabilities of providers, and the choice of
-- one for every operation of an inventory. The SHA-256 of a record, the text of an unmet
-- requirement and the digest of an inventory are arguments.
pub mod Classes
pub mod Answers
pub mod Registry
mod Runs
use ag_infer.Prelude.{
  ℕ, ◌+◌, ◌*◌, ◌/◌, ◌%◌, ◌^◌, ◌-◌, String, Bool, true, false, not, ◌&&◌, ◌||◌, Option, none, some,
  List, [], ◌∷◌, ◌++◌, map, Result, ok, err, validation_error, ◌>>=◌, ◌>>◌, raise_if, if◌then◌else◌,
  str_eq, all_of, list_eq, ltb, leb, ◌==◌, filter_by, sorted, length,
}
use Prim.Native.String.{len, compare}
use text.Mathlib.Text.{find?, is_le}
use ag_infer.Schedule.{Dim, static, symbol, TensorSignature, Attribute, bool, int, float, str, ints}
use ag_infer.Inventory.{LoweringKind, RequirementStatus, InventoryOp, LoweringInventory}
use ag_infer.Command.{CudaArch, arch_code, digest_bytes}

pub record ProviderCapability : Type 0 where
  pub provider_id : ℕ
  pub abi_major : ℕ
  pub abi_minor : ℕ
  pub provider_version : String
  pub implementation_id : String
  pub implementation_digest : List ℕ
  pub target_arch : CudaArch
  pub lowering_kind : LoweringKind
  pub opcode : String
  pub input_types : List TensorSignature
  pub output_types : List TensorSignature
  pub attributes : List (String × Attribute)
  pub supports_capture : Bool
  pub workspace_bytes : ℕ

-- `_text`; the length of a text is that of its UTF-8.
pub check_text : String → Result (Unit {0})
check_text value =
    raise_if
      (len value == 0
        || (elim (find? value "\0") [ none ↦ false | some i ↦ true ])
        || ltb 4096 (len value))
      validation_error

-- The kinds in the check of `lowering_kind`.
abbrev pub is_runtime_kind : LoweringKind → Bool
is_runtime_kind LoweringKind.builtin_meta = false
is_runtime_kind LoweringKind.blocked = false
is_runtime_kind _ = true

abbrev pub text_leb : String → String → Bool
text_leb a b = is_le (compare a b)

-- Is a name not empty, without a NUL?
abbrev pub is_name : String → Bool
is_name key = not (len key == 0) && (elim (find? key "\0") [ none ↦ true | some i ↦ false ])

-- `keys == sorted(keys)` where no key comes twice: every key is less than the next.
pub strictly_sorted : List String → Bool
strictly_sorted [] = true
strictly_sorted (a ∷ []) = true
strictly_sorted (a ∷ b ∷ rest) = text_leb a b && not (str_eq a b) && strictly_sorted (b ∷ rest)

-- `ProviderCapability.__post_init__`
pub check_capability : ProviderCapability → Result (Unit {0})
unfolding check_text strictly_sorted
check_capability c = do
  raise_if (c.provider_id == 0 || ltb (2 ^ 32 - 1) c.provider_id) validation_error
  raise_if (c.abi_major == 0 || ltb (2 ^ 32 - 1) c.abi_major) validation_error
  raise_if (ltb (2 ^ 32 - 1) c.abi_minor) validation_error
  check_text c.provider_version
  check_text c.implementation_id
  _ ← digest_bytes c.implementation_digest
  check_text c.opcode
  raise_if (not (is_runtime_kind c.lowering_kind)) validation_error
  raise_if
      (not (
        all_of (λ (t : TensorSignature). str_eq t.device "cuda") (c.input_types ++ c.output_types)))
      validation_error
  let keys = map (λ a. a.0) c.attributes
  raise_if (not (all_of is_name keys)) validation_error
  raise_if (not (strictly_sorted keys)) validation_error
  raise_if (ltb (2 ^ 64 - 1) c.workspace_bytes) validation_error

pub record ProviderReceipt : Type 0 where
  pub site : String × ℕ
  pub executions : ℕ
  pub capability_digest : List ℕ
  pub provider_id : ℕ
  pub abi_major : ℕ
  pub abi_minor : ℕ
  pub provider_version : String
  pub implementation_id : String
  pub implementation_digest : List ℕ
  pub supports_capture : Bool
  pub workspace_bytes : ℕ

-- The `kind` of an issue.
pub data IssueKind : Type 0 where
  inventory_blocked unresolved ambiguous : IssueKind

pub record ResolutionIssue : Type 0 where
  pub site : String × ℕ
  pub opcode : String
  pub executions : ℕ
  pub kind : IssueKind
  pub detail : String
  pub candidates : List (List ℕ)

pub record ProviderResolution : Type 0 where
  pub inventory_sha256 : List ℕ
  pub program_sha256 : String
  pub target_arch : CudaArch
  pub receipts : List ProviderReceipt
  pub issues : List ResolutionIssue

-- Python's `==` on attributes. A Boolean equals the integer 0 or 1, and a float equals an integer
-- of the same value, while a NaN equals nothing; the number stands for the 64 bits of the float.
pub float_is : ℕ → ℕ → Bool
float_is bits n =
    let magnitude = bits % 2 ^ 63 in
    let exponent = magnitude / 2 ^ 52 in
    let fraction = magnitude % 2 ^ 52 in
    let mantissa = if exponent == 0 then fraction else fraction + 2 ^ 52 in
    let scale = if exponent == 0 then 1 else exponent in
    if magnitude == 0
    then n == 0
    else not (exponent == 2047)
      && ltb bits (2 ^ 63)
      && (if leb 1075 scale
          then mantissa * 2 ^ (scale - 1075) == n
          else mantissa == n * 2 ^ (1075 - scale))

pub same_float : ℕ → ℕ → Bool
same_float a b =
    not (ltb (2047 * 2 ^ 52) (a % 2 ^ 63)) && (a == b || (a % 2 ^ 63 == 0 && b % 2 ^ 63 == 0))

abbrev pub bool_number : Bool → ℕ
bool_number false = 0
bool_number true = 1

-- `==` of attributes by value. Python takes an object inside a tuple as equal to itself before it asks
-- `==`, so a NaN that two operations share would be equal there; the identity of objects is not
-- modelled, and a NaN equals nothing here.
pub attribute_eq : Attribute → Attribute → Bool
unfolding float_is same_float
attribute_eq (str a) (str b) = str_eq a b
attribute_eq (ints a) (ints b) = list_eq a b
attribute_eq (bool a) (bool b) = bool_number a == bool_number b
attribute_eq (bool a) (int b) = bool_number a == b
attribute_eq (int a) (bool b) = a == bool_number b
attribute_eq (int a) (int b) = a == b
attribute_eq (float a) (float b) = same_float a b
attribute_eq (float a) (int b) = float_is a b
attribute_eq (int a) (float b) = float_is b a
attribute_eq (float a) (bool b) = float_is a (bool_number b)
attribute_eq (bool a) (float b) = float_is b (bool_number a)
attribute_eq _ _ = false

pub dims_eq : List Dim → List Dim → Bool
dims_eq [] [] = true
dims_eq (static a ∷ xs) (static b ∷ ys) = a == b && dims_eq xs ys
dims_eq (symbol a ∷ xs) (symbol b ∷ ys) = str_eq a b && dims_eq xs ys
dims_eq _ _ = false

pub types_eq : List TensorSignature → List TensorSignature → Bool
unfolding dims_eq
types_eq [] [] = true
types_eq (a ∷ xs) (b ∷ ys) =
    str_eq a.dtype b.dtype
    && dims_eq a.shape b.shape
    && str_eq a.layout b.layout
    && str_eq a.device b.device
    && types_eq xs ys
types_eq _ _ = false

pub attributes_eq : List (String × Attribute) → List (String × Attribute) → Bool
unfolding attribute_eq
attributes_eq [] [] = true
attributes_eq ((a, x) ∷ xs) ((b, y) ∷ ys) = str_eq a b && attribute_eq x y && attributes_eq xs ys
attributes_eq _ _ = false

abbrev pub kind_number : LoweringKind → ℕ
kind_number LoweringKind.builtin_meta = 0
kind_number LoweringKind.memory = 1
kind_number LoweringKind.gemm = 2
kind_number LoweringKind.attention = 3
kind_number LoweringKind.aot_cuda = 4
kind_number LoweringKind.blocked = 5

-- `_matches`
pub matches : InventoryOp → CudaArch → ProviderCapability → Bool
unfolding types_eq attributes_eq
matches op target_arch c =
    arch_code c.target_arch == arch_code target_arch
    && kind_number c.lowering_kind == kind_number op.lowering_kind
    && str_eq c.opcode op.opcode
    && types_eq c.input_types op.input_types
    && types_eq c.output_types op.output_types
    && attributes_eq c.attributes op.attributes

-- `ProviderCapability.exact_for`
pub exact_for :
    InventoryOp
    → ℕ
    → ℕ
    → ℕ
    → String
    → String
    → List ℕ
    → CudaArch
    → Bool
    → ℕ
    → Result ProviderCapability
unfolding check_capability
exact_for op provider_id abi_major abi_minor provider_version implementation_id
      implementation_digest target_arch supports_capture workspace_bytes =
    do
      raise_if (elim op.status [ RequirementStatus.required ↦ false | _ ↦ true ]) validation_error
      let c : ProviderCapability = record {
        provider_id = provider_id;
        abi_major = abi_major;
        abi_minor = abi_minor;
        provider_version = provider_version;
        implementation_id = implementation_id;
        implementation_digest = implementation_digest;
        target_arch = target_arch;
        lowering_kind = op.lowering_kind;
        opcode = op.opcode;
        input_types = op.input_types;
        output_types = op.output_types;
        attributes = op.attributes;
        supports_capture = supports_capture;
        workspace_bytes = workspace_bytes;
      }
      check_capability c
      ok c

-- The order of the texts of digests.
unfoldable pub digest_leb : List ℕ → List ℕ → Bool
digest_leb [] ys = true
digest_leb (x ∷ xs) [] = false
digest_leb (x ∷ xs) (y ∷ ys) = ltb x y || (x == y && digest_leb xs ys)

unfoldable pub has_digest : List ℕ → List (List ℕ) → Bool
has_digest d [] = false
has_digest d (e ∷ rest) = list_eq d e || has_digest d rest

-- `len(digests) == len(set(digests))`
unfoldable pub all_distinct : List (List ℕ) → Bool
unfolding has_digest
all_distinct [] = true
all_distinct (d ∷ rest) = not (has_digest d rest) && all_distinct rest

pub issue_of : InventoryOp → IssueKind → String → List (List ℕ) → ResolutionIssue
issue_of op kind detail candidates = record {
  site = (op.function, op.op_index);
  opcode = op.opcode;
  executions = op.executions;
  kind = kind;
  detail = detail;
  candidates = candidates;
}

-- `item.blocker or "inventory site is blocked"`
abbrev pub blocked_detail : Option String → String
blocked_detail none = "inventory site is blocked"
blocked_detail (some reason) = if str_eq reason "" then "inventory site is blocked" else reason

module _ (digest : ProviderCapability → List ℕ) where
  pub receipt_of : InventoryOp → ProviderCapability → ProviderReceipt
  receipt_of op c = record {
    site = (op.function, op.op_index);
    executions = op.executions;
    capability_digest = digest c;
    provider_id = c.provider_id;
    abi_major = c.abi_major;
    abi_minor = c.abi_minor;
    provider_version = c.provider_version;
    implementation_id = c.implementation_id;
    implementation_digest = c.implementation_digest;
    supports_capture = c.supports_capture;
    workspace_bytes = c.workspace_bytes;
  }

  -- `tuple(sorted(capability_records, key=lambda item: item.digest))`
  pub ordered_by_digest : List ProviderCapability → List ProviderCapability
  unfolding digest_leb
  ordered_by_digest capabilities = sorted (λ a b. digest_leb (digest a) (digest b)) capabilities

module _ (digest : ProviderCapability → List ℕ)
    (requirement_detail : InventoryOp → CudaArch → String) where
  -- What the loop adds for an operation that requires a provider.
  pub answer_required :
      CudaArch → InventoryOp → List ProviderCapability → List ProviderReceipt × List ResolutionIssue
  unfolding receipt_of issue_of
  answer_required target_arch op [] =
      ([], issue_of op IssueKind.unresolved (requirement_detail op target_arch) [] ∷ [])
  answer_required target_arch op (c ∷ []) = (receipt_of digest op c ∷ [], [])
  answer_required target_arch op (c ∷ d ∷ rest) = (
    [],
    issue_of op IssueKind.ambiguous "multiple exact provider capabilities match"
          (map digest (c ∷ d ∷ rest))
        ∷ [],
  )

  -- The loop body over the operations, on each status.
  pub answer_as :
      CudaArch
      → List ProviderCapability
      → InventoryOp
      → RequirementStatus
      → List ProviderReceipt × List ResolutionIssue
  unfolding answer_required matches
  answer_as target_arch ordered op RequirementStatus.meta = ([], [])
  answer_as target_arch ordered op RequirementStatus.blocked =
      ([], issue_of op IssueKind.inventory_blocked (blocked_detail op.blocker) [] ∷ [])
  answer_as target_arch ordered op RequirementStatus.required =
      answer_required target_arch op (filter_by (matches op target_arch) ordered)

  pub answer_all :
      CudaArch
      → List ProviderCapability
      → List InventoryOp
      → List ProviderReceipt × List ResolutionIssue
  unfolding answer_as
  answer_all target_arch ordered [] = ([], [])
  answer_all target_arch ordered (op ∷ rest) =
      let here = answer_as target_arch ordered op op.status in
      let more = answer_all target_arch ordered rest in (here.0 ++ more.0, here.1 ++ more.1)

module _ (digest : ProviderCapability → List ℕ)
    (requirement_detail : InventoryOp → CudaArch → String)
    (inventory_sha256 : LoweringInventory → List ℕ) where
  -- `resolve_provider_capabilities`, with `ProviderResolution.require_complete`
  pub resolve_provider_capabilities :
      LoweringInventory → List ProviderCapability → CudaArch → Bool → Result ProviderResolution
  unfolding answer_all ordered_by_digest all_distinct
  resolve_provider_capabilities inventory capabilities target_arch strict = do
    raise_if (not (all_distinct (map digest capabilities))) validation_error
    let ordered = ordered_by_digest digest capabilities
    let answers = answer_all digest requirement_detail target_arch ordered inventory.ops
    raise_if (strict && not (length answers.1 == 0)) validation_error
    ok (record {
      inventory_sha256 = inventory_sha256 inventory;
      program_sha256 = inventory.program_sha256;
      target_arch = target_arch;
      receipts = answers.0;
      issues = answers.1;
    })
