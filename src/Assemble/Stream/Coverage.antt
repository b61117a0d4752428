-- ===== src/Assemble/Stream/Coverage.antt =====
-- What `assemble_command_stream` guarantees of the coverage of the schedule, and of the stream.
use ag_infer.Prelude.{
  ℕ, ◌+◌, ◌≤◌, ◌≡◌, refl, sym, ap, ◌∙◌, inl, inr, String, Bool, true, false, not, ◌&&◌, ◌||◌, List,
  [], ◌∷◌, ◌++◌, map, ok, arith, raise_if, raise_if-eq-ok, >>=-then, ok-injective, subst,
  fold_result, ltb, ◌==◌, length, elem, range, all_of, All, All-imp, Pairwise, Bool-cases, str_eq,
}
use ag_infer.Prelude.Sets.{elem-append, all_of-All}
use ag_infer.Schedule.{ExecutionSchedule}
use ag_infer.Memory.Build.{MemoryPlan}
use ag_infer.Command.{CudaArch, CommandOperand, ProviderCommand, CommandStream, check_stream}
use ag_infer.Assemble.{CommandPlacement}
use ag_infer.Assemble.Order.{order_command_placements}
use ag_infer.Assemble.Order.Placed.{IsOrdered, order_command_placements-IsOrdered}
use ag_infer.Assemble.Stream.{
  Cover, disjoint, cover_placement, covers_all, check_coverage, workspace_of,
  assemble_command_stream,
}

-- No element of the one list is in the other.
abbrev pub Disjoint : List ℕ → List ℕ → Type 0
Disjoint xs ys = (i : ℕ) → elem i xs ≡ true → elem i ys ≡ false

disjoint-Disjoint : (xs ys : List ℕ) → disjoint xs ys ≡ true → Disjoint xs ys
unfolding all_of elem
disjoint-Disjoint [] ys h i m = cc
disjoint-Disjoint (x ∷ xs) ys h i m = elim (Bool-cases (i == x)) [
  | inl same ↦ let e : i ≡ x = ground arith in rw e (ground arith)
  | inr other ↦ disjoint-Disjoint xs ys (ground arith) i (ground arith)
]

-- The executions of all placements.
abbrev pub covered_of : List CommandPlacement → List ℕ
covered_of [] = []
covered_of (p ∷ ps) = p.covered ++ covered_of ps

-- Every execution of the schedule is left out by the memory plan, or it belongs to exactly one placement.
pub record IsCovered (schedule : ExecutionSchedule) (plan : MemoryPlan)
    (records : List CommandPlacement) : Type 0 where
  pub apart : Pairwise (λ (p q : CommandPlacement). Disjoint q.covered p.covered) records
  pub elided_apart : All (λ (p : CommandPlacement). Disjoint p.covered plan.elided_ops) records
  pub complete :
      All
        (λ i. (elem i (covered_of records) || elem i plan.elided_ops) ≡ true)
        (range 0 (length schedule.ops))

record IsFold (plan : MemoryPlan) (c c' : Cover) (records : List CommandPlacement) : Type 0 where
  collected : (i : ℕ) → elem i c'.covered ≡ (elem i (covered_of records) || elem i c.covered)
  new : All (λ (p : CommandPlacement). Disjoint p.covered c.covered) records
  apart : Pairwise (λ (p q : CommandPlacement). Disjoint q.covered p.covered) records
  elided_apart : All (λ (p : CommandPlacement). Disjoint p.covered plan.elided_ops) records

-- One placement more.
record IsStep (plan : MemoryPlan) (c c' : Cover) (p : CommandPlacement) : Type 0 where
  covered : p.covered ++ c.covered ≡ c'.covered
  new : Disjoint p.covered c.covered
  elided_apart : Disjoint p.covered plan.elided_ops

cover_placement-IsStep :
    (schedule : ExecutionSchedule) (plan : MemoryPlan) (c c' : Cover) (p : CommandPlacement)
    → cover_placement schedule plan c p ≡ ok c'
    → IsStep plan c c' p
unfolding cover_placement
cover_placement-IsStep schedule plan c c' p e =
    >>=-then (raise_if (elem p.execution_index c.anchors) _) _ e λ _ _ e1.
      >>=-then (raise_if (not (all_of (λ i. ltb i (length schedule.ops)) p.covered)) _) _ e1
        λ _ _ e2. >>=-then (raise_if (not (disjoint p.covered c.covered)) _) _ e2 λ _ new e3.
          >>=-then (raise_if (not (disjoint p.covered plan.elided_ops)) _) _ e3 λ _ elided e4.
            >>=-then
              (raise_if
                (not (
                  all_of (λ (o : CommandOperand). ltb o.value_id (length schedule.values))
                    p.command.operands))
                _)
              _ e4
              λ _ _ done. record {
                covered = ap (λ (x : Cover). x.covered) (ok-injective done);
                new = disjoint-Disjoint p.covered c.covered (not-false _ (raise_if-eq-ok _ _ new));
                elided_apart =
                    disjoint-Disjoint p.covered plan.elided_ops
                      (not-false _ (raise_if-eq-ok _ _ elided));
              }
  where
    not-false : (b : Bool) → not b ≡ false → b ≡ true
    not-false true h = refl
    not-false false h = cc

fold_result-IsFold :
    (schedule : ExecutionSchedule) (plan : MemoryPlan) (c c' : Cover)
    (records : List CommandPlacement)
    → fold_result (cover_placement schedule plan) c records ≡ ok c'
    → IsFold plan c c' records
unfolding fold_result elem
fold_result-IsFold schedule plan c c' [] e = record {
  collected = λ i. ap (λ (x : Cover). elem i x.covered) (sym (ok-injective e));
  new = tt;
  apart = tt;
  elided_apart = tt;
}
fold_result-IsFold schedule plan c c' (p ∷ ps) e =
    >>=-then (cover_placement schedule plan c p) _ e λ c1 one rest.
      let s = cover_placement-IsStep schedule plan c c1 p one in
      let f = fold_result-IsFold schedule plan c1 c' ps rest in
      let split = λ (i : ℕ). ap (elem i) (sym s.covered) ∙ elem-append i p.covered c.covered in
      record {
        collected = λ i.
            let a = f.collected i in
            let b = elem-append i p.covered (covered_of ps) in let d = split i in ground arith;
        new = (
          s.new,
          All-imp _ _ ps (λ q h i m. let a = h i m in let d = split i in ground arith) f.new,
        );
        apart = (
          All-imp _ _ ps (λ q h i m. let a = h i m in let d = split i in ground arith) f.new,
          f.apart,
        );
        elided_apart = (s.elided_apart, f.elided_apart);
      }

elem-nil : (i : ℕ) → elem i [] ≡ false
unfolding elem
elem-nil i = refl

check_coverage-IsCovered :
    (schedule : ExecutionSchedule) (plan : MemoryPlan) (records : List CommandPlacement)
    {u : Unit {0}}
    → check_coverage schedule plan records ≡ ok u
    → IsCovered schedule plan records
unfolding check_coverage covers_all
check_coverage-IsCovered schedule plan records e =
    let none_yet : Cover = record { anchors = []; covered = [] } in
    >>=-then (raise_if (length records == 0) _) _ e λ _ _ e1.
      >>=-then (fold_result (cover_placement schedule plan) none_yet records) _ e1 λ c folded last.
        let f = fold_result-IsFold schedule plan none_yet c records folded in
        let n = length schedule.ops in
        let passed = raise_if-eq-ok _ _ last in
        let all =
          all_of-All (λ i. elem i c.covered || elem i plan.elided_ops) (range 0 n)
            (third (all_of (λ i. ltb i n) c.covered) (all_of (λ i. ltb i n) plan.elided_ops) _
              passed) in
        record {
          apart = f.apart;
          elided_apart = f.elided_apart;
          complete =
              All-imp _ _ (range 0 n)
                (λ i h. replaced _ _ _ (f.collected i ∙ nothing (elem i (covered_of records)) i) h)
                all;
        }
  where
    third : (a b c : Bool) → not (a && b && c) ≡ false → c ≡ true
    third true true true h = refl
    third true true false h = cc
    third true false c h = cc
    third false b c h = cc

    replaced : (a b c : Bool) → a ≡ b → (a || c) ≡ true → (b || c) ≡ true
    replaced a b c e h = rw e at h

    nothing : (b : Bool) (i : ℕ) → (b || elem i []) ≡ b
    nothing true i = refl
    nothing false i = elem-nil i

workspace_of-All :
    (ps : List CommandPlacement) (w : ℕ)
    → workspace_of ps ≤ w
    → All
        (λ (c : ProviderCommand). c.workspace_offset + c.workspace_bytes ≤ w)
        (map (λ (p : CommandPlacement). p.command) ps)
unfolding workspace_of
workspace_of-All [] w h = tt
workspace_of-All (p ∷ ps) w h = (omega arith, workspace_of-All ps w (omega arith))

-- A stream that was assembled from placements.
pub record IsAssembled (schedule : ExecutionSchedule) (plan : MemoryPlan)
    (records : List CommandPlacement) (stream : CommandStream) : Type 0 where
  pub covered : IsCovered schedule plan records
  pub ordered : List CommandPlacement
  pub is_ordered : IsOrdered schedule plan records ordered
  pub commands : map (λ (p : CommandPlacement). p.command) ordered ≡ stream.commands
  pub workspace :
      All
        (λ (c : ProviderCommand). c.workspace_offset + c.workspace_bytes ≤ stream.workspace_bytes)
        stream.commands
  pub checked : check_stream stream ≡ ok tt

module _ (schedule_sha256 : ExecutionSchedule → String) (plan_sha256 : MemoryPlan → List ℕ) where
  -- Where `assemble_command_stream` returns a stream, every execution of the schedule is left out by the
  -- memory plan or belongs to exactly one placement; the commands are those of the placements, each once and
  -- in an order that respects what they require; each has its workspace in that of the stream; and
  -- the stream passed the checks of its constructor.
  pub assemble_command_stream-IsAssembled :
      (schedule : ExecutionSchedule) (plan : MemoryPlan) (records : List CommandPlacement)
      (target_arch : CudaArch) (stream : CommandStream)
      → assemble_command_stream schedule_sha256 plan_sha256 schedule plan records target_arch
        ≡ ok stream
      → IsAssembled schedule plan records stream
  unfolding assemble_command_stream
  assemble_command_stream-IsAssembled schedule plan records target_arch stream e =
      >>=-then (raise_if (not (str_eq plan.schedule_sha256 (schedule_sha256 schedule))) _) _ e
        λ _ _ e1. >>=-then (check_coverage schedule plan records) _ e1 λ _ covers e2.
          >>=-then (order_command_placements schedule plan records) _ e2 λ ordered orders e3.
            let made : CommandStream = record {
              target_arch = target_arch;
              memory_plan_sha256 = plan_sha256 plan;
              value_count = length schedule.values;
              arena_bytes = plan.arena_bytes;
              state_bytes = plan.state_bytes;
              workspace_bytes = workspace_of ordered;
              commands = map (λ (p : CommandPlacement). p.command) ordered;
            } in
            >>=-then (check_stream made) _ e3 λ _ checks done.
              subst (IsAssembled schedule plan records) (ok-injective done) (record {
                covered = check_coverage-IsCovered schedule plan records covers;
                ordered = ordered;
                is_ordered =
                    order_command_placements-IsOrdered schedule plan records ordered orders;
                commands = refl;
                workspace = workspace_of-All ordered (workspace_of ordered) (omega arith);
                checked = checks;
              })
