-- ===== src/Replan/Safe.antt =====
-- What `replan_memory_for_commands` guarantees.
use ag_infer.Prelude.{
  ℕ, ◌+◌, ◌^◌, ◌≤◌, ◌<◌, ◌≡◌, refl, sym, ap, ◌∙◌, inl, inr, String, Bool, true, false, not, ◌||◌,
  some, List, [], ◌∷◌, map, ok, arith, raise_if, >>=-then, ok-injective, some-injective, subst,
  traverse, ◌==◌, elem, range, length, All, All-imp, All-sorted, Pairwise, Bool-cases, Option-cases,
  all_of, str_eq,
}
use ag_infer.Prelude.Loops.{traverse-carries, traverse-Pairwise}
use ag_infer.Arena.{align, Pending, Placed, pending_leb, allocate_intervals}
use ag_infer.Arena.Align.{align_bounds}
use ag_infer.Arena.Rounds
use ag_infer.Arena.Plan.{request_of, allocate_intervals-requests, allocate_intervals-IsArena}
use ag_infer.Schedule.{ExecutionSchedule, item}
use ag_infer.Memory.{get, or_key_error, ValueAllocation, LivenessInterval, present}
use ag_infer.Memory.Build.{MemoryPlan}
use ag_infer.Memory.Liveness.{present-All}
use ag_infer.Memory.Planner.Sweep.{Apart}
use ag_infer.Memory.Planner.Live.{everything, map-All}
use ag_infer.Command.{CommandOperand}
use ag_infer.Assemble.{CommandPlacement, allocation_of, is_arena_region, same_ids}
use ag_infer.Assemble.Order.{order_command_placements}
use ag_infer.Assemble.Stream.{disjoint}
use ag_infer.Replan.{
  value_roots, Uses, Entry, no_uses, use_commands, boundary_request, boundary_interval,
  boundary_arena, boundary_allocation, enter_boundary, replan_memory_for_commands,
}
use ag_infer.Replan.Commands
use ag_infer.Memory.Build.Intervals.{or_key_error-some}
use ag_infer.Replan.Loop

module _ (allocations : List ValueAllocation) (u : Uses) where
  -- The lifetime of a root of the arena: from its first write to its last use.
  record IsLifetime (value_id start end : ℕ) : Type 0 where
    allocation : ValueAllocation
    allocated : allocation_of allocations value_id ≡ some allocation
    arena : is_arena_region allocation.region ≡ true
    first : get u.first_write value_id ≡ some start
    last : get u.last_use value_id ≡ some end

  boundary_request-IsLifetime :
      (roots outputs : List ℕ) (k value_id : ℕ) (p : Pending)
      → Commands.Positive allocations roots u.last_use
      → boundary_request allocations roots outputs u (2 ^ k) value_id ≡ ok (some p)
      → IsLifetime p.value_id p.start p.end × (0 < p.bytes)
  unfolding boundary_request
  boundary_request-IsLifetime roots outputs k value_id p positive e =
      >>=-then (item roots value_id) _ e λ root found e1.
        >>=-then (or_key_error (allocation_of allocations value_id)) _ e1 λ a allocated e2.
          elim (Bool-cases
            (not (root == value_id) || not (is_arena_region a.region) || elem value_id outputs)) [
              | inl t ↦ absurd (let skipped = rw t at e2 in cc)
              | inr f ↦
                  let e3 = rw f at e2 in
                  elim (Option-cases (get u.last_use value_id)) [
                    | inl n ↦ absurd (let skipped = rw n at e3 in cc)
                    | inr (last, lasts) ↦
                        let e4 = rw lasts at e3 in
                        elim (Option-cases (get u.first_write value_id)) [
                          | inl n ↦ absurd (let skipped = rw n at e4 in cc)
                          | inr (first, starts) ↦
                              let e5 = rw starts at e4 in
                              >>=-then (align a.byte_size (2 ^ k)) _ e5 λ bytes aligned done.
                                let here =
                                  or_key_error-some (allocation_of allocations value_id)
                                    allocated in
                                let (b, there, some_bytes) = positive value_id last lasts in
                                let same : a ≡ b = some-injective (sym here ∙ there) in
                                let large =
                                  subst (λ (x : ValueAllocation). 0 < x.byte_size) (sym same)
                                    some_bytes in
                                let bounds = align_bounds a.byte_size k aligned in
                                subst
                                  (λ (q : Pending).
                                    IsLifetime q.value_id q.start q.end × (0 < q.bytes))
                                  (some-injective (ok-injective done))
                                  (
                                    record {
                                      allocation = a;
                                      allocated = here;
                                      arena =
                                          in_arena (root == value_id) (is_arena_region a.region)
                                            (elem value_id outputs) f;
                                      first = starts;
                                      last = lasts;
                                    },
                                    omega arith,
                                  )
                        ]
                  ]
            ]
    where
      in_arena : (b c d : Bool) → (not b || not c || d) ≡ false → c ≡ true
      in_arena true true d h = refl
      in_arena true false d h = cc
      in_arena false c d h = cc

  boundary_interval-fields :
      (p : Placed) (i : LivenessInterval)
      → boundary_interval allocations p ≡ ok i
      → (i.value_id ≡ p.value_id)
        × (i.start ≡ p.start)
        × (i.end ≡ p.end)
        × (i.offset ≡ p.offset)
        × (i.allocation_bytes ≡ p.bytes)
  unfolding boundary_interval
  boundary_interval-fields p i e =
      >>=-then (or_key_error (allocation_of allocations p.value_id)) _ e λ a _ done.
        let same = sym (ok-injective done) in
        (
          ap (λ (x : LivenessInterval). x.value_id) same,
          ap (λ (x : LivenessInterval). x.start) same,
          ap (λ (x : LivenessInterval). x.end) same,
          ap (λ (x : LivenessInterval). x.offset) same,
          ap (λ (x : LivenessInterval). x.allocation_bytes) same,
        )

-- The arena of the boundary values, with the lifetimes that it was laid out for.
record IsLaidOut (allocations : List ValueAllocation) (u : Uses) (intervals : List LivenessInterval)
    (arena_bytes : ℕ) : Type 0 where
  apart : Pairwise Apart intervals
  within : All (λ (i : LivenessInterval). i.offset + i.allocation_bytes ≤ arena_bytes) intervals
  lifetimes :
      All (λ (i : LivenessInterval). IsLifetime allocations u i.value_id i.start i.end) intervals

abbrev Lived : List ValueAllocation → Uses → Pending → Type 0
Lived allocations u p = IsLifetime allocations u p.value_id p.start p.end × (0 < p.bytes)

moved :
    (allocations : List ValueAllocation) (u : Uses) (p : Placed) (i : LivenessInterval)
    → i.value_id ≡ p.value_id
    → i.start ≡ p.start
    → i.end ≡ p.end
    → IsLifetime allocations u p.value_id p.start p.end
    → IsLifetime allocations u i.value_id i.start i.end
moved allocations u p i v s e l =
    subst (λ x. IsLifetime allocations u x i.start i.end) (sym v)
      (subst (λ x. IsLifetime allocations u p.value_id x i.end) (sym s)
        (subst (λ x. IsLifetime allocations u p.value_id p.start x) (sym e) l))

-- The fields that an interval takes from its placement.
abbrev Fields : Placed → LivenessInterval → Type 0
Fields p i =
    (i.value_id ≡ p.value_id)
    × (i.start ≡ p.start)
    × (i.end ≡ p.end)
    × (i.offset ≡ p.offset)
    × (i.allocation_bytes ≡ p.bytes)

carry-Apart :
    (a b : Placed) (a' b' : LivenessInterval)
    → Fields a a'
    → Fields b b'
    → Rounds.Apart a b
    → Apart a' b'
carry-Apart a b a' b' (_, s, e, o, n) (_, s', e', o', n') apart =
    λ h h'. let clear = apart (omega arith) (omega arith) in rw (o, n, o', n') clear

boundary_arena-IsLaidOut :
    (schedule : ExecutionSchedule) (plan : MemoryPlan) (k : ℕ) (e : Entry) (u : Uses)
    {r : List LivenessInterval × ℕ × ℕ}
    → plan.alignment ≡ 2 ^ k
    → Commands.Positive plan.allocations e.roots u.last_use
    → boundary_arena schedule plan e u ≡ ok r
    → IsLaidOut plan.allocations u r.0 r.1
unfolding boundary_arena
boundary_arena-IsLaidOut schedule plan k e u power positive h =
    let all = range 0 (length schedule.values) in
    >>=-then (traverse (boundary_request plan.allocations e.roots e.outputs u plan.alignment) all) _
      h
      λ requests asked h1.
        >>=-then (allocate_intervals (present requests) plan.alignment) _ h1 λ t placing h2.
          >>=-then (traverse (boundary_interval plan.allocations) t.0) _ h2
            λ intervals measured done.
              let lived = present-All (Lived plan.allocations u) requests (
                traverse-carries
                  (boundary_request plan.allocations e.roots e.outputs u plan.alignment)
                  (λ i. Unit {0}) (λ o. (p : Pending) → o ≡ some p → Lived plan.allocations u p)
                  (λ i o f _ p q.
                    boundary_request-IsLifetime plan.allocations u e.roots e.outputs k i p positive
                      (subst
                        (λ n.
                          boundary_request plan.allocations e.roots e.outputs u n i ≡ ok (some p))
                        power (f ∙ ap ok q)))
                  all (everything all) asked) in
              let placing' =
                subst (λ n. allocate_intervals (present requests) n ≡ ok (t.0, t.1, t.2)) power
                  placing in
              let arena =
                allocate_intervals-IsArena (present requests) k t.0 t.1 t.2
                  (All-imp _ _ (present requests) (λ p l. l.1) lived) placing' in
              let in_order : All (Lived plan.allocations u) (map request_of t.0) =
                subst (All (Lived plan.allocations u))
                  (sym (allocate_intervals-requests (present requests) k t.0 t.1 t.2 placing'))
                  (All-sorted (Lived plan.allocations u) pending_leb (present requests) lived) in
              subst (λ r. IsLaidOut plan.allocations u r.0 r.1) (ok-injective done)
                (record {
                  apart =
                      traverse-Pairwise (boundary_interval plan.allocations) _ Apart
                        (λ a b a' b' f g r.
                          carry-Apart a b a' b' (boundary_interval-fields plan.allocations u a a' f)
                            (boundary_interval-fields plan.allocations u b b' g) r)
                        t.0 arena.apart measured;
                  within =
                      traverse-carries (boundary_interval plan.allocations)
                        (λ (p : Placed). p.offset + p.bytes ≤ t.1) _
                        (λ p i f w.
                          let s = boundary_interval-fields plan.allocations u p i f in
                          omega (arith, s.3, s.4))
                        t.0 arena.within measured;
                  lifetimes =
                      traverse-carries (boundary_interval plan.allocations)
                        (λ (p : Placed). Lived plan.allocations u (request_of p)) _
                        (λ p i f l.
                          let s = boundary_interval-fields plan.allocations u p i f in
                          moved plan.allocations u p i s.0 s.1 s.2 l.0)
                        t.0 (map-All request_of (Lived plan.allocations u) t.0 in_order) measured;
                })

-- Every interval of the root of an operand holds the position of the command.
abbrev pub OperandAlive : List ℕ → List LivenessInterval → ℕ → CommandOperand → Type 0
OperandAlive roots intervals index operand =
    All
      (λ (i : LivenessInterval).
        item roots operand.value_id ≡ ok i.value_id → (i.start ≤ index) × (index ≤ i.end))
      intervals

-- The same for all operands of the commands, which are counted from `index`.
abbrev pub CommandsAlive : List ℕ → List LivenessInterval → ℕ → List CommandPlacement → Type 0
CommandsAlive roots intervals index [] = Unit {0}
CommandsAlive roots intervals index (p ∷ ps) =
    All (OperandAlive roots intervals index) p.command.operands
    × CommandsAlive roots intervals (index + 1) ps

Used-OperandAlive :
    (allocations : List ValueAllocation) (roots : List ℕ) (u : Uses)
    (intervals : List LivenessInterval)
    → All (λ (i : LivenessInterval). IsLifetime allocations u i.value_id i.start i.end) intervals
    → (index : ℕ) (operand : CommandOperand) → Commands.Used allocations roots index u operand
    → OperandAlive roots intervals index operand
Used-OperandAlive allocations roots u intervals lifetimes index operand used =
    All-imp _ _ intervals
      (λ i life found.
        let (lasts, starts) = used i.value_id found in
        let (n, last, later) = lasts in
        let (m, first, sooner) = starts life.allocation life.allocated life.arena in
        let same : m ≡ i.start = some-injective (sym first ∙ life.first) in
        let same' : n ≡ i.end = some-injective (sym last ∙ life.last) in (omega arith, omega arith))
      lifetimes

AllUsed-CommandsAlive :
    (allocations : List ValueAllocation) (roots : List ℕ) (u : Uses)
    (intervals : List LivenessInterval)
    → All (λ (i : LivenessInterval). IsLifetime allocations u i.value_id i.start i.end) intervals
    → (index : ℕ) (ps : List CommandPlacement) → Loop.AllUsed allocations roots index u ps
    → CommandsAlive roots intervals index ps
AllUsed-CommandsAlive allocations roots u intervals life index [] h = tt
AllUsed-CommandsAlive allocations roots u intervals life index (p ∷ ps) h = (
  All-imp _ _ p.command.operands
      (λ o used. Used-OperandAlive allocations roots u intervals life index o used) h.0,
  AllUsed-CommandsAlive allocations roots u intervals life (index + 1) ps h.1,
)

-- A plan for the commands of a schedule.
pub record IsReplanned (schedule : ExecutionSchedule) (base : MemoryPlan)
    (placements : List CommandPlacement) (plan : MemoryPlan) : Type 0 where
  pub records : List CommandPlacement
  pub ordered : order_command_placements schedule base placements ≡ ok records
  pub roots : List ℕ
  pub resolved : value_roots base.allocations schedule.values ≡ ok roots
  pub apart : Pairwise Apart plan.intervals
  pub within :
      All
        (λ (i : LivenessInterval). i.offset + i.allocation_bytes ≤ plan.arena_bytes)
        plan.intervals
  pub alive : CommandsAlive roots plan.intervals 0 records

record IsEntered (schedule : ExecutionSchedule) (plan : MemoryPlan)
    (placements : List CommandPlacement) (e : Entry) : Type 0 where
  ordered : order_command_placements schedule plan placements ≡ ok e.records
  resolved : value_roots plan.allocations schedule.values ≡ ok e.roots

enter_boundary-IsEntered :
    (schedule : ExecutionSchedule) (plan : MemoryPlan) (placements : List CommandPlacement)
    (entry : Entry)
    → enter_boundary schedule plan placements ≡ ok entry
    → IsEntered schedule plan placements entry
unfolding enter_boundary
enter_boundary-IsEntered schedule plan placements entry e =
    >>=-then (order_command_placements schedule plan placements) _ e λ records ordered e1.
      >>=-then (raise_if (length records == 0) _) _ e1 λ _ _ e2.
        >>=-then
          (raise_if
            (not (
              same_ids (map (λ (a : ValueAllocation). a.value_id) plan.allocations)
                (length schedule.values)))
            _)
          _ e2
          λ _ _ e3.
            >>=-then (value_roots plan.allocations schedule.values) _ e3 λ roots resolved e4.
              >>=-then (traverse (λ (r : String × ℕ). item roots r.1) schedule.entry_inputs) _ e4
                λ inputs _ e5.
                  >>=-then (traverse (λ (r : String × ℕ). item roots r.1) schedule.entry_outputs) _
                    e5
                    λ outputs _ e6.
                      >>=-then (raise_if (not (disjoint inputs outputs)) _) _ e6 λ _ _ e7.
                        >>=-then
                          (traverse (λ root. or_key_error (allocation_of plan.allocations root))
                            outputs)
                          _ e7
                          λ regions _ e8.
                            >>=-then
                              (raise_if
                                (not (
                                  all_of (λ (a : ValueAllocation). is_arena_region a.region)
                                    regions))
                                _)
                              _ e8
                              λ _ _ done.
                                let same = ok-injective done in
                                record {
                                  ordered = ordered ∙ ap (λ (x : Entry). ok x.records) same;
                                  resolved = resolved ∙ ap (λ (x : Entry). ok x.roots) same;
                                }

nothing_there : (root n : ℕ) → get {A = ℕ} [] root ≡ some n → ⊥
unfolding get
nothing_there root n f = cc

nothing_written : (root : ℕ) → elem root [] ≡ true → ⊥
unfolding elem
nothing_written root m = cc

module _ (schedule_sha256 : ExecutionSchedule → String)
    (receipts_sha256 : List CommandPlacement → String) where
  -- Where `replan_memory_for_commands` returns a plan, for a base plan whose alignment is a power of two,
  -- any two intervals whose lifetimes meet occupy disjoint bytes, every interval ends within the arena,
  -- and every command, at its position in the order, is within the interval of each root that it
  -- reads or writes.
  pub replan_memory_for_commands-IsReplanned :
      (schedule : ExecutionSchedule) (base : MemoryPlan) (placements : List CommandPlacement)
      (k : ℕ) (plan : MemoryPlan)
      → base.alignment ≡ 2 ^ k
      → replan_memory_for_commands schedule_sha256 receipts_sha256 schedule base placements
        ≡ ok plan
      → IsReplanned schedule base placements plan
  unfolding replan_memory_for_commands
  replan_memory_for_commands-IsReplanned schedule base placements k plan power h =
      >>=-then (raise_if (not (str_eq base.schedule_sha256 (schedule_sha256 schedule))) _) _ h
        λ _ _ h1. >>=-then (enter_boundary schedule base placements) _ h1 λ e entered h2.
          >>=-then (use_commands base.allocations e.roots 0 no_uses e.records) _ h2 λ u used h3.
            >>=-then (raise_if (not (all_of (λ root. elem root u.written) e.outputs)) _) _ h3
              λ _ _ h4. >>=-then (boundary_arena schedule base e u) _ h4 λ r laid h5.
                >>=-then
                  (traverse (boundary_allocation base.allocations e.roots e.outputs r.0)
                    (range 0 (length schedule.values)))
                  _ h5
                  λ allocations _ done.
                    let same = ok-injective done in
                    let s = enter_boundary-IsEntered schedule base placements e entered in
                    let nothing : Commands.Positive base.allocations e.roots [] =
                      λ root n f. absurd (nothing_there root n f) in
                    let positive =
                      Loop.use_commands-Positive base.allocations e.roots 0 no_uses e.records u used
                        nothing in
                    let out = boundary_arena-IsLaidOut schedule base k e u power positive laid in
                    let consistent : Commands.IsConsistent base.allocations e.roots 0 no_uses =
                      record {
                        early = λ root n f. absurd (nothing_there root n f);
                        written = λ root m. absurd (nothing_written root m);
                      } in
                    let all =
                      Loop.use_commands-AllUsed base.allocations e.roots 0 no_uses e.records u used
                        consistent in
                    subst (IsReplanned schedule base placements) same (record {
                      records = e.records;
                      ordered = s.ordered;
                      roots = e.roots;
                      resolved = s.resolved;
                      apart = out.apart;
                      within = out.within;
                      alive =
                          AllUsed-CommandsAlive base.allocations e.roots u r.0 out.lifetimes 0
                            e.records all;
                    })
