-- ===== src/Views.antt =====
-- `_is_row_major_identity_transpose` and `_is_row_major_identity_broadcast` of
-- src/aginfer/lowering/memory.py: which transposes and broadcasts leave every element of a
-- row-major tensor in its place, so that the memory planner aliases the result to the operand.
pub mod Offset
pub mod Axes
pub mod Identity
mod Runs
use ag_infer.Prelude.{
  ℕ, zero, suc, ◌+◌, ◌≡◌, String, Bool, true, false, not, ◌&&◌, ◌||◌, Option, none, some, List, [],
  ◌∷◌, map, ok, Result, ◌>>=◌, ◌>>◌, ltb, leb, ◌==◌, if◌then◌else◌, str_eq, length, get_or, all_of,
  range, elem, list_eq, filter_by, distinct, sorted,
}
use ag_infer.Schedule.{
  Dim, static, symbol, TensorSignature, Attribute, ints, ScheduledValue, ScheduledOp,
  ExecutionSchedule, item, attribute,
}

-- The shape where all dimensions are integers.
pub static_shape : List Dim → Option (List ℕ)
static_shape [] = some []
static_shape (static n ∷ rest) = elim (static_shape rest) [ none ↦ none | some ns ↦ some (n ∷ ns) ]
static_shape (symbol s ∷ rest) = none

-- `shape[axis]` for an axis that is in range.
abbrev pub dim : List ℕ → ℕ → ℕ
dim shape axis = get_or shape axis 0

abbrev pub tuple_of : Option Attribute → Option (List ℕ)
tuple_of (some (ints axes)) = some axes
tuple_of _ = none

-- The types that both tests ask for: one element type, one device, row-major on both sides.
pub same_kind : TensorSignature → TensorSignature → Bool
same_kind source target =
    str_eq source.dtype target.dtype
    && str_eq source.device target.device
    && str_eq source.layout "row_major"
    && str_eq target.layout "row_major"

-- The axes, in the given order, that are longer than one.
pub long_axes : List ℕ → List ℕ → List ℕ
long_axes shape axes = filter_by (λ axis. not (dim shape axis == 1)) axes

-- The conditions on a transpose, for static shapes.
pub transpose_keeps_order : List ℕ → List ℕ → List ℕ → Bool
transpose_keeps_order source target permutation =
    length permutation == length source
    && list_eq (sorted leb permutation) (range 0 (length source))
    && list_eq target (map (dim source) permutation)
    && list_eq (long_axes source (range 0 (length source))) (long_axes source permutation)

-- The conditions on a broadcast, for static shapes.
pub broadcast_keeps_order : List ℕ → List ℕ → List ℕ → Bool
broadcast_keeps_order source target dimensions =
    length dimensions == length source
    && list_eq (sorted leb dimensions) dimensions
    && length (distinct dimensions) == length dimensions
    && all_of (λ axis. ltb axis (length target)) dimensions
    && all_of (λ axis. elem axis dimensions || dim target axis == 1) (range 0 (length target))
    && list_eq source (map (dim target) dimensions)

-- A test of the two shapes and the axes, behind the conditions that both tests share.
pub view_of :
    (List ℕ → List ℕ → List ℕ → Bool) → TensorSignature → TensorSignature → Option Attribute → Bool
view_of test source target attr = same_kind source target && (elim (tuple_of attr) [
  | none ↦ false
  | some axes ↦ elim (static_shape source.shape) [
    | none ↦ false
    | some from_shape ↦ elim (static_shape target.shape) [
      | none ↦ false
      | some to_shape ↦ test from_shape to_shape axes
    ]
  ]
])

abbrev pub only : List ℕ → Option ℕ
only [] = none
only (x ∷ []) = some x
only (x ∷ y ∷ rest) = none

-- Both tests read the types of the one operand and the one result.
pub unary_view :
    (List ℕ → List ℕ → List ℕ → Bool) → String → ExecutionSchedule → ScheduledOp → Result Bool
unary_view test name schedule op = elim (only op.inputs) [
  | none ↦ ok false
  | some input ↦ elim (only op.outputs) [
    | none ↦ ok false
    | some output ↦ do
      source ← item schedule.values input
      target ← item schedule.values output
      ok (view_of test source.type target.type (attribute name op.attributes))
  ]
]

-- `_is_row_major_identity_transpose`
pub is_row_major_identity_transpose : ExecutionSchedule → ScheduledOp → Result Bool
is_row_major_identity_transpose = unary_view transpose_keeps_order "permutation"

-- `_is_row_major_identity_broadcast`
pub is_row_major_identity_broadcast : ExecutionSchedule → ScheduledOp → Result Bool
is_row_major_identity_broadcast = unary_view broadcast_keeps_order "broadcast_dimensions"

-- What a run of the two tests computes.
unfoldable pub view_tests : Unit {0}
unfolding is_row_major_identity_transpose is_row_major_identity_broadcast unary_view view_of
    same_kind static_shape transpose_keeps_order broadcast_keeps_order long_axes
view_tests = tt
