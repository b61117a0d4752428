-- ===== src/Views/Runs.antt =====
-- Runs of the two tests, and their theorems at concrete operations.
use ag_infer.Prelude.{
  ℕ, ◌≡◌, refl, true, false, none, some, List, [], ◌∷◌, ok, String, sorted, insert_sorted, range,
  filter_by, all_of, elem, distinct, list_eq,
}
use ag_infer.Schedule.{
  Dim, static, TensorSignature, Attribute, ints, ScheduledValue, temporary, ScheduledOp,
  ExecutionSchedule, item, attribute,
}
use ag_infer.Views.{
  static_shape, same_kind, long_axes, transpose_keeps_order, broadcast_keeps_order, view_of,
  unary_view, is_row_major_identity_transpose, is_row_major_identity_broadcast,
}
use ag_infer.Views.Offset.{row_major, InBounds, select}
use ag_infer.Views.Identity.{View, identity_transpose-keeps_place, identity_broadcast-keeps_place}

abbrev tensor : List Dim → TensorSignature
tensor shape = record { dtype = "f32"; shape = shape; layout = "row_major"; device = "cuda" }

abbrev value : ℕ → List Dim → ScheduledValue
value id shape = record {
  value_id = id;
  debug_name = "temporary";
  type = tensor shape;
  storage = temporary;
  producer = some 0;
  alias_of = none;
  constant_identity = none;
}

-- A tensor of 1 x 2 x 3, one of 2 x 1 x 3, one of 2 x 3 x 1 and one of 2 x 3.
abbrev schedule : ExecutionSchedule
schedule = record {
  program_sha256 = "";
  inventory_sha256 = "";
  entry = "main";
  entry_inputs = [];
  entry_outputs = [];
  states = [];
  values =
      value 0 (static 1 ∷ static 2 ∷ static 3 ∷ [])
      ∷ value 1 (static 2 ∷ static 1 ∷ static 3 ∷ [])
      ∷ value 2 (static 3 ∷ static 2 ∷ static 1 ∷ [])
      ∷ value 3 (static 2 ∷ static 3 ∷ [])
      ∷ [];
  ops = [];
}

abbrev op_with : String → List (String × Attribute) → ℕ → ℕ → ScheduledOp
op_with opcode attributes input output = record {
  execution_index = 0;
  invocation_id = 0;
  site = "main:0";
  opcode = opcode;
  inputs = input ∷ [];
  outputs = output ∷ [];
  attributes = attributes;
}

abbrev moves_one : ScheduledOp
moves_one = op_with "transpose" (("permutation", ints (1 ∷ 0 ∷ 2 ∷ [])) ∷ []) 0 1

abbrev moves_all : ScheduledOp
moves_all = op_with "transpose" (("permutation", ints (2 ∷ 1 ∷ 0 ∷ [])) ∷ []) 0 2

abbrev adds_one : ScheduledOp
adds_one = op_with "broadcast_in_dim" (("broadcast_dimensions", ints (0 ∷ 2 ∷ [])) ∷ []) 3 1

views : Unit {0}
unfolding is_row_major_identity_transpose is_row_major_identity_broadcast unary_view view_of
    same_kind static_shape transpose_keeps_order broadcast_keeps_order long_axes sorted
    insert_sorted range filter_by all_of elem distinct list_eq item attribute
views = tt

transpose_taken : is_row_major_identity_transpose schedule moves_one ≡ ok true
unfolding views
transpose_taken = refl

transpose_refused : is_row_major_identity_transpose schedule moves_all ≡ ok false
unfolding views
transpose_refused = refl

broadcast_taken : is_row_major_identity_broadcast schedule adds_one ≡ ok true
unfolding views
broadcast_taken = refl

identity_transpose-keeps_place_example :
    (v : View schedule moves_one "permutation") × ((index : List ℕ)
      → InBounds v.from_shape index
      → row_major v.to_shape (select index v.axes) ≡ row_major v.from_shape index)
identity_transpose-keeps_place_example =
    identity_transpose-keeps_place schedule moves_one transpose_taken

identity_broadcast-keeps_place_example :
    (v : View schedule adds_one "broadcast_dimensions") × ((index : List ℕ)
      → InBounds v.to_shape index
      → row_major v.from_shape (select index v.axes) ≡ row_major v.to_shape index)
identity_broadcast-keeps_place_example =
    identity_broadcast-keeps_place schedule adds_one broadcast_taken
