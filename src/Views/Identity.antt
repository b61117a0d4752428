-- ===== src/Views/Identity.antt =====
-- A transpose or a broadcast that the planner aliases keeps every element in its place.
use ag_infer.Prelude.{
  ℕ, ◌+◌, ◌≤◌, ◌<◌, ◌≡◌, ap, ◌∙◌, inl, inr, Bool, true, false, not, ◌&&◌, ◌||◌, Option, none, some,
  List, [], ◌∷◌, arith, ltb, leb, ◌==◌, length, range, all_of, elem, list_eq→eq, sorted, All, ok,
  String, Option-cases, >>=-eq-ok, ok-injective,
}
use ag_infer.Schedule.{
  TensorSignature, Attribute, ints, ScheduledValue, ScheduledOp, ExecutionSchedule, item, attribute,
}
use ag_infer.Views.{
  static_shape, dim, tuple_of, long_axes, transpose_keeps_order, broadcast_keeps_order, view_of,
  only, is_row_major_identity_transpose, is_row_major_identity_broadcast, unary_view,
}
use ag_infer.Views.Axes.{Increasing, sorted-distinct-Increasing, all_of-range, long-mapped}
use ag_infer.Views.Offset.{row_major, InBounds, select, row_major-select}

and-left : (a b : Bool) → (a && b) ≡ true → a ≡ true
and-left a b h = ground arith

and-right : (a b : Bool) → (a && b) ≡ true → b ≡ true
and-right a b h = ground arith

transpose_keeps_place :
    (source target permutation index : List ℕ)
    → transpose_keeps_order source target permutation ≡ true
    → InBounds source index
    → row_major target (select index permutation) ≡ row_major source index
unfolding transpose_keeps_order long_axes
transpose_keeps_place source target permutation index h inside =
    let shapes : target ≡ select source permutation = list_eq→eq _ _ (ground arith) in
    let order =
      list_eq→eq (long_axes source (range 0 (length source))) (long_axes source permutation)
        (ground arith) in
    ap (λ t. row_major t (select index permutation)) shapes
    ∙ row_major-select source index permutation inside order

all_of→All :
    (test : ℕ → Bool) (P : ℕ → Type 0) (xs : List ℕ)
    → ((a : ℕ) → test a ≡ true → P a)
    → all_of test xs ≡ true
    → All P xs
unfolding all_of
all_of→All test P [] f h = tt
all_of→All test P (x ∷ xs) f h = (f x (and-left _ _ h), all_of→All test P xs f (and-right _ _ h))

broadcast_keeps_place :
    (source target dimensions index : List ℕ)
    → broadcast_keeps_order source target dimensions ≡ true
    → InBounds target index
    → row_major source (select index dimensions) ≡ row_major target index
unfolding broadcast_keeps_order
broadcast_keeps_place source target dimensions index h inside =
    let shapes : source ≡ select target dimensions = list_eq→eq _ _ (ground arith) in
    let sorts : sorted leb dimensions ≡ dimensions = list_eq→eq _ _ (ground arith) in
    let increasing : Increasing 0 dimensions =
      sorted-distinct-Increasing dimensions sorts (ground arith) in
    let below : All (λ a. a < 0 + length target) dimensions =
      all_of→All (λ a. ltb a (length target)) _ dimensions (λ a t. ground arith) (ground arith) in
    let cover : all_of (λ axis. elem axis dimensions || dim target axis == 1)
          (range 0 (length target))
        ≡ true =
      ground arith in
    let long : ℕ → Bool = λ a. not (dim target a == 1) in
    let short : (a : ℕ)
        → 0 ≤ a
        → a < 0 + length target
        → elem a dimensions ≡ false
        → long a ≡ false =
      λ a lo hi n.
        let one =
          all_of-range (λ axis. elem axis dimensions || dim target axis == 1) 0 (length target) a
            cover lo hi in
        ground arith in
    ap (λ t. row_major t (select index dimensions)) shapes
    ∙ row_major-select target index dimensions inside
        (long-mapped long 0 (length target) dimensions increasing below short)

-- What the planner has found out about an operation that it aliases: it has one operand and one
-- result, whose shapes are static, and the axes that its attribute names.
pub record View (schedule : ExecutionSchedule) (op : ScheduledOp) (name : String) : Type 0 where
  pub input : ℕ
  pub output : ℕ
  pub source : ScheduledValue
  pub target : ScheduledValue
  pub axes : List ℕ
  pub from_shape : List ℕ
  pub to_shape : List ℕ
  pub one_input : op.inputs ≡ input ∷ []
  pub one_output : op.outputs ≡ output ∷ []
  pub reads : item schedule.values input ≡ ok source
  pub writes : item schedule.values output ≡ ok target
  pub names : attribute name op.attributes ≡ some (ints axes)
  pub from_static : static_shape source.type.shape ≡ some from_shape
  pub to_static : static_shape target.type.shape ≡ some to_shape

only-eq-some : (xs : List ℕ) {x : ℕ} → only xs ≡ some x → xs ≡ x ∷ []
only-eq-some [] e = cc
only-eq-some (x ∷ []) e = cc
only-eq-some (x ∷ y ∷ xs) e = cc

tuple_of-eq-some :
    (a : Option Attribute) {axes : List ℕ} → tuple_of a ≡ some axes → a ≡ some (ints axes)
tuple_of-eq-some none e = cc
tuple_of-eq-some (some (Attribute.bool b)) e = cc
tuple_of-eq-some (some (Attribute.int n)) e = cc
tuple_of-eq-some (some (Attribute.float n)) e = cc
tuple_of-eq-some (some (Attribute.str s)) e = cc
tuple_of-eq-some (some (ints axes)) e = cc

abbrev Shapes : Type 0
Shapes = List ℕ → List ℕ → List ℕ → Bool

view_of-true :
    (test : Shapes) (source target : TensorSignature) (axes : Option Attribute)
    → view_of test source target axes ≡ true
    → (a : List ℕ) × (f : List ℕ) × (t : List ℕ) × (axes ≡ some (ints a))
      × (static_shape source.shape ≡ some f)
      × (static_shape target.shape ≡ some t)
      × (test f t a ≡ true)
unfolding view_of
view_of-true test source target axes h = elim (Option-cases (tuple_of axes)) [
  | inl n ↦ absurd (ground arith)
  | inr (a, ea) ↦ elim (Option-cases (static_shape source.shape)) [
    | inl n ↦ absurd (ground arith)
    | inr (f, ef) ↦ elim (Option-cases (static_shape target.shape)) [
      | inl n ↦ absurd (ground arith)
      | inr (t, et) ↦ (a, f, t, tuple_of-eq-some axes ea, ef, et, ground arith)
    ]
  ]
]

unary_view-View :
    (test : Shapes) (name : String) (schedule : ExecutionSchedule) (op : ScheduledOp)
    → unary_view test name schedule op ≡ ok true
    → (v : View schedule op name) × (test v.from_shape v.to_shape v.axes ≡ true)
unfolding unary_view
unary_view-View test name schedule op e = elim (Option-cases (only op.inputs)) [
  | inl n ↦ absurd (ground arith)
  | inr (input, ei) ↦ elim (Option-cases (only op.outputs)) [
    | inl n ↦ absurd (ground arith)
    | inr (output, eo) ↦
        let body = rw (ei, eo, unary_view) at e in
        let (source, es, more) = >>=-eq-ok (item schedule.values input) _ body in
        let (target, et, done) = >>=-eq-ok (item schedule.values output) _ more in
        let (a, f, t, names, from_static, to_static, passed) =
          view_of-true test source.type target.type (attribute name op.attributes)
            (ok-injective done) in
        (
          record {
            input = input;
            output = output;
            source = source;
            target = target;
            axes = a;
            from_shape = f;
            to_shape = t;
            one_input = only-eq-some op.inputs ei;
            one_output = only-eq-some op.outputs eo;
            reads = es;
            writes = et;
            names = names;
            from_static = from_static;
            to_static = to_static;
          },
          passed,
        )
  ]
]

-- A transpose that the planner takes for the identity has one operand and one result of static
-- shapes, and every index of the operand has the place in the row-major operand that the permuted
-- index has in the row-major result.
pub identity_transpose-keeps_place :
    (schedule : ExecutionSchedule) (op : ScheduledOp)
    → is_row_major_identity_transpose schedule op ≡ ok true
    → (v : View schedule op "permutation") × ((index : List ℕ)
        → InBounds v.from_shape index
        → row_major v.to_shape (select index v.axes) ≡ row_major v.from_shape index)
unfolding is_row_major_identity_transpose
identity_transpose-keeps_place schedule op e =
    let (v, passed) = unary_view-View transpose_keeps_order "permutation" schedule op e in
    (v, λ index inside. transpose_keeps_place v.from_shape v.to_shape v.axes index passed inside)

-- A broadcast that the planner takes for the identity has one operand and one result of static
-- shapes, and every index of the result has the place in the row-major result that the index of
-- the element it copies has in the row-major operand.
pub identity_broadcast-keeps_place :
    (schedule : ExecutionSchedule) (op : ScheduledOp)
    → is_row_major_identity_broadcast schedule op ≡ ok true
    → (v : View schedule op "broadcast_dimensions") × ((index : List ℕ)
        → InBounds v.to_shape index
        → row_major v.from_shape (select index v.axes) ≡ row_major v.to_shape index)
unfolding is_row_major_identity_broadcast
identity_broadcast-keeps_place schedule op e =
    let (v, passed) = unary_view-View broadcast_keeps_order "broadcast_dimensions" schedule op e in
    (v, λ index inside. broadcast_keeps_place v.from_shape v.to_shape v.axes index passed inside)
