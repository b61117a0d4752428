-- ===== src/Memory/Planner/Live.antt =====
-- What `build_memory_plan` returns: a verified plan in which every value is live while it is read.
use ag_infer.Prelude.{
  ℕ, ◌^◌, ◌≤◌, ◌≡◌, ap, ◌∙◌, subst, Option, some, List, [], ◌∷◌, map, arith, length, All, All-imp,
  All-sorted, ok, >>=-eq-ok, >>=-then, ok-injective, raise_if-eq-ok, traverse, String,
}
use ag_infer.Prelude.Bits.{power_of_two}
use ag_infer.Prelude.Loops.{traverse-carries}
use ag_infer.Arena.{Pending, Placed, pending_leb, allocate_intervals}
use ag_infer.Arena.Plan.{request_of, allocate_intervals-requests}
use ag_infer.Schedule.{ScheduledValue, ScheduledOp, ExecutionSchedule, item}
use ag_infer.Memory.{
  byte_size, LivenessInterval, check_alignment, last_uses, state_region, request, present,
}
use ag_infer.Memory.Build.{
  LiteralMaterialization, MemoryPlan, Materialized, check_materialization, interval_of, allocate,
}
use ag_infer.Memory.Build.Intervals.{NeedsArena, IsPlaced, allocations-ArePlaced}
use ag_infer.Memory.Planner.{
  alias_graph, plan_arena, bytes_of_all, verify_memory_plan, Prepared, prepare, plan_from,
  build_memory_plan,
}
use ag_infer.Memory.Planner.Verifier.{IsVerified, verify_memory_plan-IsVerified}
use ag_infer.Memory.Liveness.{ValueUsed, Lasts, last_uses-used, request-Requested, present-All}

-- An alignment that the planner accepts is a power of two.
pub check_alignment-power :
    (alignment : ℕ) {u : Unit {0}}
    → check_alignment alignment ≡ ok u
    → (k : ℕ) × (alignment ≡ 2 ^ k)
unfolding check_alignment
check_alignment-power alignment e =
    let passed = raise_if-eq-ok _ _ e in power_of_two alignment (ground arith) (ground arith)

pub everything : {A : Type 0} (xs : List A) → All (λ (x : A). Unit {0}) xs
everything [] = tt
everything (x ∷ xs) = (tt, everything xs)

pub map-All :
    {A B : Type 0} (f : A → B) (P : B → Type 0) (xs : List A)
    → All P (map f xs)
    → All (λ x. P (f x)) xs
map-All f P [] h = tt
map-All f P (x ∷ xs) h = (h.0, map-All f P xs h.1)

-- The lifetime of an interval starts before it ends, at the last use of its value or later.
abbrev pub Spans : List (ℕ × ℕ) → ℕ → ℕ → ℕ → Type 0
Spans uses value start end = (start ≤ end) × Lasts uses value end

abbrev PendingSpans : List (ℕ × ℕ) → Pending → Type 0
PendingSpans uses p = Spans uses p.value_id p.start p.end

abbrev pub IntervalSpans : List (ℕ × ℕ) → LivenessInterval → Type 0
IntervalSpans uses i = Spans uses i.value_id i.start i.end

interval_of-Spans :
    (byte_sizes : List ℕ) (uses : List (ℕ × ℕ)) (p : Placed) (i : LivenessInterval)
    → interval_of byte_sizes p ≡ ok i
    → PendingSpans uses (request_of p)
    → IntervalSpans uses i
unfolding interval_of
interval_of-Spans byte_sizes uses p i e h =
    let (bytes, sized, done) = >>=-eq-ok (item byte_sizes p.value_id) _ e in
    subst (IntervalSpans uses) (ok-injective done) h

plan_arena-Spans :
    (schedule : ExecutionSchedule) (k : ℕ) (materialized byte_sizes roots : List ℕ)
    (uses : List (ℕ × ℕ)) {intervals : List LivenessInterval} {arena_bytes peak_live : ℕ}
    → plan_arena schedule (2 ^ k) materialized byte_sizes roots uses
      ≡ ok (intervals, arena_bytes, peak_live)
    → All (IntervalSpans uses) intervals
unfolding plan_arena
plan_arena-Spans schedule k materialized byte_sizes roots uses e =
    let one = request (2 ^ k) byte_sizes roots uses materialized in
    let (requests, asked, e1) = >>=-eq-ok (traverse one schedule.values) _ e in
    let ((placed, arena, peak), packed, e2) =
      >>=-eq-ok (allocate_intervals (present requests) (2 ^ k)) _ e1 in
    let (intervals, measured, done) = >>=-eq-ok (traverse (interval_of byte_sizes) placed) _ e2 in
    let every : All (λ (v : ScheduledValue). Unit {0}) schedule.values =
      everything schedule.values in
    let spans : All (PendingSpans uses) (present requests) =
      present-All (PendingSpans uses) requests (
        traverse-carries one (λ v. Unit {0}) (λ o. (p : Pending) → o ≡ some p → PendingSpans uses p)
          (λ v o h _ p q.
            let r =
              request-Requested (2 ^ k) byte_sizes roots uses materialized v p (h ∙ ap ok q) in
            (r.ordered, r.lasts))
          schedule.values every asked) in
    let in_order : All (PendingSpans uses) (map request_of placed) =
      rw (allocate_intervals-requests (present requests) k placed arena peak packed)
        (All-sorted (PendingSpans uses) pending_leb (present requests) spans) in
    subst (λ t. All (IntervalSpans uses) t.0) (ok-injective done)
      (traverse-carries (interval_of byte_sizes) (λ p. PendingSpans uses (request_of p))
        (IntervalSpans uses) (λ p i h. interval_of-Spans byte_sizes uses p i h) placed
        (map-All request_of (PendingSpans uses) placed in_order) measured)

-- An interval of the value's root lasts to `n` at least.
abbrev LivesUntil : List ℕ → List LivenessInterval → ℕ → ℕ → Type 0
LivesUntil roots intervals n value =
    All (λ (i : LivenessInterval). item roots value ≡ ok i.value_id → n ≤ i.end) intervals

ValueUsed-LivesUntil :
    (roots : List ℕ) (uses : List (ℕ × ℕ)) (intervals : List LivenessInterval) (n value : ℕ)
    → All (IntervalSpans uses) intervals
    → ValueUsed roots uses n value
    → LivesUntil roots intervals n value
ValueUsed-LivesUntil roots uses intervals n value spans used =
    All-imp (IntervalSpans uses) _ intervals (λ i s g. s.1 n (used i.value_id g)) spans

-- A plan of a schedule: the literals, the sizes and the roots of its values are those that the schedule and
-- the materialized literals determine, and the operations that the plan leaves out those of the alias graph.
pub record IsPlanOf (sha256 : String) (schedule : ExecutionSchedule)
    (literals : Option LiteralMaterialization) (plan : MemoryPlan) : Type 0 where
  pub materialized : Materialized
  pub checked : check_materialization sha256 schedule literals ≡ ok materialized
  pub byte_sizes : List ℕ
  pub sized : traverse byte_size schedule.values ≡ ok byte_sizes
  pub roots : List ℕ
  pub graph : alias_graph schedule materialized.ops byte_sizes ≡ ok (roots, plan.elided_ops)
  pub verified : IsVerified schedule plan roots materialized
  pub held :
      All
        (λ v. NeedsArena roots materialized v → IsPlaced plan.intervals plan.allocations v.value_id)
        schedule.values
  pub ordered : All (λ (i : LivenessInterval). i.start ≤ i.end) plan.intervals
  pub reads :
      All
        (λ (op : ScheduledOp). All (LivesUntil roots plan.intervals op.execution_index) op.inputs)
        schedule.ops
  pub returns :
      All
        (LivesUntil roots plan.intervals (length schedule.ops))
        (map (λ r. r.1) schedule.entry_outputs)

-- What the planner has prepared is consistent: each interval spans the uses of its value.
record IsPrepared (sha256 : String) (schedule : ExecutionSchedule)
    (literals : Option LiteralMaterialization) (p : Prepared) : Type 0 where
  checked : check_materialization sha256 schedule literals ≡ ok p.tables.materialized
  sized : traverse byte_size schedule.values ≡ ok p.tables.byte_sizes
  graph :
      alias_graph schedule p.tables.materialized.ops p.tables.byte_sizes
      ≡ ok (p.tables.roots, p.elided_ops)
  spans : All (IntervalSpans p.uses) p.tables.intervals
  used : last_uses schedule p.tables.roots ≡ ok p.uses

prepare-IsPrepared :
    (sha256 : String) (schedule : ExecutionSchedule) (k : ℕ)
    (literals : Option LiteralMaterialization) {p : Prepared}
    → prepare sha256 schedule (2 ^ k) literals ≡ ok p
    → IsPrepared sha256 schedule literals p
unfolding prepare
prepare-IsPrepared sha256 schedule k literals e =
    >>=-then (check_materialization sha256 schedule literals) _ e λ m checked e1.
      >>=-then (traverse byte_size schedule.values) _ e1 λ byte_sizes sized e2.
        >>=-then (alias_graph schedule m.ops byte_sizes) _ e2 λ graph aliased e3.
          >>=-then (last_uses schedule graph.0) _ e3 λ uses used e4.
            >>=-then (state_region (2 ^ k) byte_sizes schedule.states) _ e4 λ states _ e5.
              >>=-then
                (plan_arena schedule (2 ^ k) (map (λ e. e.0) m.by_value) byte_sizes graph.0 uses) _
                e5
                λ arena packed done.
                  subst (IsPrepared sha256 schedule literals) (ok-injective done) (record {
                    checked = checked;
                    sized = sized;
                    graph = aliased;
                    spans =
                        plan_arena-Spans schedule k (map (λ e. e.0) m.by_value) byte_sizes graph.0
                          uses packed;
                    used = used;
                  })

plan_from-carries :
    (sha256 : String) (schedule : ExecutionSchedule) (alignment : ℕ) (p : Prepared)
    {plan : MemoryPlan}
    → plan_from sha256 schedule alignment p ≡ ok plan
    → (p.tables.intervals ≡ plan.intervals)
      × (p.elided_ops ≡ plan.elided_ops)
      × (traverse (allocate p.tables) schedule.values ≡ ok plan.allocations)
unfolding plan_from
plan_from-carries sha256 schedule alignment p e =
    >>=-then (traverse (allocate p.tables) schedule.values) _ e λ allocations made e1.
      >>=-then (bytes_of_all _ _) _ e1 λ inputs _ e2.
        >>=-then (bytes_of_all _ _) _ e2 λ outputs _ e3.
          >>=-then (bytes_of_all _ _) _ e3 λ constants _ done. (
            ap (λ (t : MemoryPlan). t.intervals) (ok-injective done),
            ap (λ (t : MemoryPlan). t.elided_ops) (ok-injective done),
            made ∙ ap (λ (t : MemoryPlan). ok t.allocations) (ok-injective done),
          )

IsPrepared-IsPlanOf :
    (sha256 : String) (schedule : ExecutionSchedule) (literals : Option LiteralMaterialization)
    (p : Prepared) (plan : MemoryPlan)
    → IsPrepared sha256 schedule literals p
    → (p.tables.intervals ≡ plan.intervals)
      × (p.elided_ops ≡ plan.elided_ops)
      × (traverse (allocate p.tables) schedule.values ≡ ok plan.allocations)
    → IsVerified schedule plan p.tables.roots p.tables.materialized
    → IsPlanOf sha256 schedule literals plan
IsPrepared-IsPlanOf sha256 schedule literals p plan v (same, same_ops, made) verified =
    let roots = p.tables.roots in
    let spans = rw same at v.spans in
    let (ops_used, outputs_used) = last_uses-used roots schedule v.used in
    record {
      materialized = p.tables.materialized;
      checked = v.checked;
      byte_sizes = p.tables.byte_sizes;
      sized = v.sized;
      roots = roots;
      graph = v.graph ∙ ap (λ ops. ok (roots, ops)) same_ops;
      verified = verified;
      held =
          rw same at
            (allocations-ArePlaced p.tables schedule.values plan.allocations made (λ a m. m));
      ordered = All-imp (IntervalSpans p.uses) _ plan.intervals (λ i s. s.0) spans;
      reads =
          All-imp (λ op. All (ValueUsed roots p.uses op.execution_index) op.inputs) _ schedule.ops
            (λ op.
              All-imp (ValueUsed roots p.uses op.execution_index) _ op.inputs
                (λ v. ValueUsed-LivesUntil roots p.uses plan.intervals op.execution_index v spans))
            ops_used;
      returns =
          All-imp (ValueUsed roots p.uses (length schedule.ops)) _
            (map (λ r. r.1) schedule.entry_outputs)
            (λ v. ValueUsed-LivesUntil roots p.uses plan.intervals (length schedule.ops) v spans)
            outputs_used;
    }

-- Every plan that `build_memory_plan` returns, with or without materialized literals, is one that its
-- verifier accepts. Each temporary that is its own root, in the alias graph of the schedule, and is no
-- materialized literal has a block of the arena, the one of an interval of its value. No value is given up
-- early: an interval of the root of an operand lasts at least to the operation that reads the operand,
-- and that of an output to the end of the schedule. The plan leaves out the operations of the alias graph.
pub build_memory_plan-IsPlanOf :
    (digest : ExecutionSchedule → String) (schedule : ExecutionSchedule) (alignment : ℕ)
    (literals : Option LiteralMaterialization) (plan : MemoryPlan)
    → build_memory_plan digest schedule alignment literals ≡ ok plan
    → IsPlanOf (digest schedule) schedule literals plan
unfolding build_memory_plan
build_memory_plan-IsPlanOf digest schedule alignment literals plan e =
    >>=-then (check_alignment alignment) _ e λ _ power e1.
      >>=-then (prepare (digest schedule) schedule alignment literals) _ e1 λ p prepared e2.
        >>=-then (plan_from (digest schedule) schedule alignment p) _ e2 λ plan' made e3.
          >>=-then (verify_memory_plan schedule plan' p.tables.roots p.tables.materialized) _ e3
            λ _ accepted done.
              let (k, is_power) = check_alignment-power alignment power in
              subst (IsPlanOf (digest schedule) schedule literals) (ok-injective done) (
                IsPrepared-IsPlanOf (digest schedule) schedule literals p plan'
                  (prepare-IsPrepared (digest schedule) schedule k literals
                    (rw is_power at prepared))
                  (plan_from-carries (digest schedule) schedule alignment p made)
                  (verify_memory_plan-IsVerified schedule plan' p.tables.roots p.tables.materialized
                    accepted))
