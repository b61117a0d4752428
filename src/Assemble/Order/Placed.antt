-- ===== src/Assemble/Order/Placed.antt =====
-- What `order_command_placements` guarantees.
use ag_infer.Assemble.Order.Cycles.{Waiting, take_ready-cycle}
use ag_infer.Assemble.{alias_roots, same_ids, Boundary}
use ag_infer.Assemble.Order.Reads.{ReadsShared, WritesAt, AreRecorded, require_all-AreRecorded}
use ag_infer.Command.{CommandOperand}
use ag_infer.Prelude.{
  false, In, All-In, String, not, ◌+◌, raise_if, raise_if-eq-ok, ◌<◌, ℕ, suc, ◌≡◌, refl, ap, ◌∙◌,
  ◌⊎◌, inl, inr, true, some, List, [], ◌∷◌, ◌++◌, map, ok, err, validation_error, arith, ==_iff,
  >>=-then, ok-injective, subst, traverse, ◌==◌, length, All, All-imp, Bool-cases, Option-cases,
  distinct,
}
use ag_infer.Schedule.{ExecutionSchedule, item}
use ag_infer.Memory.{get, ValueAllocation}
use ag_infer.Memory.Build.{MemoryPlan}
use ag_infer.Assemble.{CommandPlacement, Requirements}
use ag_infer.Assemble.Order.{
  read_dependencies, state_dependencies, dependencies_of, waits_for, order_indices,
  placement_requirements, order_command_placements,
}
use ag_infer.Assemble.Order.Topology.{
  IsTopological, take_ready-IsTopological, start-AreReady, start-eq,
}

-- The loop ends on every set of dependencies between the commands. It returns an order of all commands in
-- which each comes once and behind all those that it waits for; or it raises ValidationError, and then a
-- command waits, by way of others, for itself.
pub order_indices-outcome :
    (keys : List ℕ) (dependencies : List (ℕ × ℕ))
    → All (λ (d : ℕ × ℕ). d.1 < length keys) dependencies
    → ((order : List ℕ) × (order_indices keys dependencies ≡ ok order)
        × (length order ≡ length keys)
        × IsTopological (length keys) dependencies order)
      ⊎ ((order_indices keys dependencies ≡ err validation_error)
          × ((i : ℕ) × Waiting dependencies i i))
unfolding order_indices
order_indices-outcome keys dependencies below =
    let (order, taken, t) =
      take_ready-IsTopological keys (length keys) dependencies _ (start-AreReady keys dependencies)
        (let exact = start-eq keys dependencies in omega arith) in
    elim (Bool-cases (length order == length keys)) [
      | inl all ↦ inl (order, rw (taken, all) refl, (==_iff (length order) (length keys)).0 all, t)
      | inr some_left ↦ inr (
        rw (taken, some_left) refl,
        take_ready-cycle keys dependencies order below taken (λ same. ground arith),
      )
    ]

all_taken : (n m : ℕ) → not (n == m) ≡ false → n ≡ m
all_taken n m h = ground arith

-- What the loop returns, without a bound on the dependencies.
order_indices-IsTopological :
    (keys : List ℕ) (dependencies : List (ℕ × ℕ)) (order : List ℕ)
    → order_indices keys dependencies ≡ ok order
    → (length order ≡ length keys) × IsTopological (length keys) dependencies order
unfolding order_indices
order_indices-IsTopological keys dependencies order e =
    let (order', taken, t) =
      take_ready-IsTopological keys (length keys) dependencies _ (start-AreReady keys dependencies)
        (let exact = start-eq keys dependencies in omega arith) in
    >>=-then (raise_if (not (length order' == length keys)) _) _ (rw taken at e) λ _ whole done.
      let complete = all_taken (length order') (length keys) (raise_if-eq-ok _ _ whole) in
      subst (λ o. (length o ≡ length keys) × IsTopological (length keys) dependencies o)
        (ok-injective done) (complete, t)

-- A reader, and the command that it waits for.
abbrev pub Waits : Requirements → List (ℕ × ℕ) → ℕ × ℕ → Type 0
Waits r dependencies p =
    (writer : ℕ) × (get r.writers p.1 ≡ some writer) × (waits_for dependencies p.0 writer ≡ true)

-- What the placements require, from the roots of the values and of the outputs.
record AreChecked (schedule : ExecutionSchedule) (plan : MemoryPlan)
    (records : List CommandPlacement) (r : Requirements) : Type 0 where
  roots : List ℕ
  resolved : alias_roots plan.allocations (length schedule.values) ≡ ok roots
  inputs : List ℕ
  outputs : List ℕ
  entry : traverse (λ (x : String × ℕ). item roots x.1) schedule.entry_outputs ≡ ok outputs
  recorded :
      AreRecorded
        (record {
          schedule = schedule;
          allocations = plan.allocations;
          roots = roots;
          inputs = inputs;
          outputs = outputs;
        })
        0
        records
        (record { writers = []; reads = []; events = [] })
        r

placement_requirements-AreChecked :
    (schedule : ExecutionSchedule) (plan : MemoryPlan) (records : List CommandPlacement)
    (r : Requirements)
    → placement_requirements schedule plan records ≡ ok r
    → AreChecked schedule plan records r
unfolding placement_requirements
placement_requirements-AreChecked schedule plan records r e =
    >>=-then (raise_if (length records == 0) _) _ e λ _ _ e1.
      >>=-then
        (raise_if
          (not (
            length (distinct (map (λ (p : CommandPlacement). p.execution_index) records))
            == length records))
          _)
        _ e1
        λ _ _ e2.
          >>=-then
            (raise_if
              (not (
                same_ids (map (λ (a : ValueAllocation). a.value_id) plan.allocations)
                  (length schedule.values)))
              _)
            _ e2
            λ _ _ e3.
              >>=-then (alias_roots plan.allocations (length schedule.values)) _ e3
                λ roots resolved e4.
                  >>=-then (traverse (λ (x : String × ℕ). item roots x.1) schedule.entry_inputs) _
                    e4
                    λ inputs _ e5.
                      >>=-then
                        (traverse (λ (x : String × ℕ). item roots x.1) schedule.entry_outputs) _ e5
                        λ outputs entry ran. record {
                          roots = roots;
                          resolved = resolved;
                          inputs = inputs;
                          outputs = outputs;
                          entry = entry;
                          recorded = require_all-AreRecorded _ 0 _ records ran;
                        }

-- A command at a position waits for one that writes a root.
abbrev pub WaitsForWriter : List CommandPlacement → List ℕ → List (ℕ × ℕ) → ℕ → ℕ → Type 0
WaitsForWriter records roots dependencies position root =
    (writer : ℕ) × WritesAt records roots writer root
    × (waits_for dependencies position writer ≡ true)

-- The placements in an order that respects what they require.
pub record IsOrdered (schedule : ExecutionSchedule) (plan : MemoryPlan)
    (records result : List CommandPlacement) : Type 0 where
  pub requirements : Requirements
  pub required : placement_requirements schedule plan records ≡ ok requirements
  pub dependencies : List (ℕ × ℕ)
  pub depends : dependencies_of requirements ≡ ok dependencies
  pub order : List ℕ
  pub picked : traverse (item records) order ≡ ok result
  pub complete : length order ≡ length records
  pub topological : IsTopological (length records) dependencies order
  pub roots : List ℕ
  pub resolved : alias_roots plan.allocations (length schedule.values) ≡ ok roots
  pub outputs : List ℕ
  pub entry : traverse (λ (x : String × ℕ). item roots x.1) schedule.entry_outputs ≡ ok outputs
  pub reads_wait :
      (position : ℕ) (p : CommandPlacement)
      → item records position ≡ ok p
      → All
          (λ (o : CommandOperand).
            (root : ℕ)
            → ReadsShared plan.allocations roots outputs root o
            → WaitsForWriter records roots dependencies position root)
          p.command.operands

waits_for-append :
    (ds es : List (ℕ × ℕ)) (i j : ℕ) → waits_for ds i j ≡ true → waits_for (ds ++ es) i j ≡ true
unfolding waits_for
waits_for-append [] es i j h = cc
waits_for-append (d ∷ ds) es i j h = ground (arith, waits_for-append ds es i j)

waits_for-first : (i w : ℕ) (ds : List (ℕ × ℕ)) → waits_for ((i, w) ∷ ds) i w ≡ true
unfolding waits_for
waits_for-first i w ds = ground arith

waits_for-later :
    (i w : ℕ) (ds : List (ℕ × ℕ)) (j v : ℕ)
    → waits_for ds j v ≡ true
    → waits_for ((i, w) ∷ ds) j v ≡ true
unfolding waits_for
waits_for-later i w ds j v h = ground arith

read_dependencies-Waits :
    (writers : List (ℕ × ℕ)) (reads : List (ℕ × ℕ)) {ds : List (ℕ × ℕ)}
    → read_dependencies writers reads ≡ ok ds
    → All (λ (p : ℕ × ℕ). (w : ℕ) × (get writers p.1 ≡ some w) × (waits_for ds p.0 w ≡ true)) reads
unfolding read_dependencies
read_dependencies-Waits writers [] e = tt
read_dependencies-Waits writers ((index, root) ∷ rest) e = elim (Option-cases (get writers root)) [
  | inl n ↦ absurd (let failed = rw (n, read_dependencies) at e in cc)
  | inr (w, found) ↦
      >>=-then (read_dependencies writers rest) _ (rw (found, read_dependencies) at e)
        λ ds more done.
          subst
            (λ l.
              All (λ (p : ℕ × ℕ). (w : ℕ) × (get writers p.1 ≡ some w) × (waits_for l p.0 w ≡ true))
                ((index, root) ∷ rest))
            (ok-injective done)
            (
              (w, found, waits_for-first index w ds),
              All-imp _ _ rest (λ p h. (h.0, h.1, waits_for-later index w ds p.0 h.0 h.2))
                  (read_dependencies-Waits writers rest more),
            )
]

dependencies_of-Waits :
    (r : Requirements) (dependencies : List (ℕ × ℕ))
    → dependencies_of r ≡ ok dependencies
    → All (Waits r dependencies) r.reads
unfolding dependencies_of
dependencies_of-Waits r dependencies e =
    >>=-then (read_dependencies r.writers r.reads) _ e λ ds reads done.
      let states = state_dependencies r.events (distinct (map (λ e. e.0) r.events)) in
      subst (λ l. All (Waits r l) r.reads) (ok-injective done)
        (All-imp _ _ r.reads (λ p h. (h.0, h.1, waits_for-append ds states p.0 h.0 h.2))
          (read_dependencies-Waits r.writers r.reads reads))

length-map {ℓ κ} :
    {A : Type ℓ} {B : Type κ} (f : A → B) (xs : List A) → length (map f xs) ≡ length xs
length-map f [] = refl
length-map f (x ∷ xs) = ap suc (length-map f xs)

AreRecorded-waiting :
    (b : Boundary) (records : List CommandPlacement) (r : Requirements)
    (dependencies : List (ℕ × ℕ))
    → AreRecorded b 0 records (record { writers = []; reads = []; events = [] }) r
    → All (Waits r dependencies) r.reads
    → (position : ℕ) (p : CommandPlacement) → item records position ≡ ok p
    → All
        (λ (o : CommandOperand).
          (root : ℕ)
          → ReadsShared b.allocations b.roots b.outputs root o
          → WaitsForWriter records b.roots dependencies position root)
        p.command.operands
unfolding get
AreRecorded-waiting b records r dependencies recorded waits position p at =
    All-imp _ _ p.command.operands
      (λ o listed root reads.
        let start : 0 + position ≡ position = omega arith in
        let here = subst (λ (n : ℕ). In (n, root) r.reads) start (listed root reads) in
        let (writer, noted, waiting) =
          All-In (Waits r dependencies) (position, root) r.reads waits here in
        elim (recorded.wrote root writer noted) [
          | inl nothing ↦ absurd (cc)
          | inr (k, same, writes) ↦
              let k_is : k ≡ writer = omega arith in
              (writer, subst (λ (n : ℕ). WritesAt records b.roots n root) k_is writes, waiting)
        ])
      (recorded.read position p at)

pub order_command_placements-IsOrdered :
    (schedule : ExecutionSchedule) (plan : MemoryPlan) (records result : List CommandPlacement)
    → order_command_placements schedule plan records ≡ ok result
    → IsOrdered schedule plan records result
unfolding order_command_placements
order_command_placements-IsOrdered schedule plan records result e =
    let keys = map (λ (p : CommandPlacement). p.execution_index) records in
    >>=-then (placement_requirements schedule plan records) _ e λ r required e1.
      >>=-then (dependencies_of r) _ e1 λ dependencies depends e2.
        >>=-then (order_indices keys dependencies) _ e2 λ order ordered picked.
          let (complete, topological) =
            order_indices-IsTopological keys dependencies order ordered in
          let count = length-map (λ (p : CommandPlacement). p.execution_index) records in
          let c = placement_requirements-AreChecked schedule plan records r required in
          record {
            requirements = r;
            required = required;
            dependencies = dependencies;
            depends = depends;
            order = order;
            picked = picked;
            complete = complete ∙ count;
            topological = subst (λ n. IsTopological n dependencies order) count topological;
            roots = c.roots;
            resolved = c.resolved;
            outputs = c.outputs;
            entry = c.entry;
            reads_wait =
                AreRecorded-waiting _ records r dependencies c.recorded
                  (dependencies_of-Waits r dependencies depends);
          }
