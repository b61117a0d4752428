-- ===== src/DeadCommands/Live.antt =====
-- What `eliminate_dead_commands` returns: no result that is needed is lost, and every execution is
-- still accounted for.
use ag_infer.Prelude.{
  All, ℕ, ◌≡◌, refl, sym, ◌∙◌, ap, ap₂, subst, String, Bool, true, false, ◌||◌, List, [], ◌∷◌, ◌++◌,
  map, ok, traverse, ◌⊎◌, inl, inr, elem, distinct, sorted, leb, arith, >>=-then, ok-injective,
}
use ag_infer.Prelude.Sets.{elem-append, elem-distinct, elem-sorted}
use ag_infer.Schedule.{ExecutionSchedule, item}
use ag_infer.Memory.Build.{MemoryPlan}
use ag_infer.Assemble.{CommandPlacement}
use ag_infer.Assemble.Order.{order_command_placements}
use ag_infer.Assemble.Order.Placed.{IsOrdered, order_command_placements-IsOrdered}
use ag_infer.Prelude.Loops.{traverse-carries}
use ag_infer.Memory.Planner.Live.{everything}
use ag_infer.Command.{CommandOperand, is_write}
use ag_infer.DeadCommands.{
  packed_roots, operand_roots, with_writes, sweep_commands, covered_by, eliminate_dead_commands,
}
use ag_infer.DeadCommands.Swept.{Swept, done, keep, drop, sweep_commands-Good, operand_roots-Listed}

or-cases : (a b : Bool) → a || b ≡ true → (a ≡ true) ⊎ (b ≡ true)
or-cases true b h = inl refl
or-cases false b h = inr h

-- An execution that a removed or a kept command covers.
abbrev pub Accounted : ℕ → List CommandPlacement → List CommandPlacement → Type 0
Accounted i kept removed = (elem i (covered_by removed) ≡ true) ⊎ (elem i (covered_by kept) ≡ true)

covered_by-later :
    (p : CommandPlacement) (ps : List CommandPlacement) (i : ℕ)
    → elem i (covered_by ps) ≡ true
    → elem i (covered_by (p ∷ ps)) ≡ true
unfolding covered_by
covered_by-later p ps i h = elem-append i p.covered (covered_by ps) ∙ (ground arith)

covered_by-first :
    (p : CommandPlacement) (ps : List CommandPlacement) (i : ℕ)
    → elem i p.covered ≡ true
    → elem i (covered_by (p ∷ ps)) ≡ true
unfolding covered_by
covered_by-first p ps i h = elem-append i p.covered (covered_by ps) ∙ (ground arith)

covered_by-cases :
    (p : CommandPlacement) (ps : List CommandPlacement) (i : ℕ)
    → elem i (covered_by (p ∷ ps)) ≡ true
    → (elem i p.covered ≡ true) ⊎ (elem i (covered_by ps) ≡ true)
unfolding covered_by
covered_by-cases p ps i h = or-cases _ _ (sym (elem-append i p.covered (covered_by ps)) ∙ h)

module _ (schedule : ExecutionSchedule) (plan : MemoryPlan) (roots : List ℕ)
    (rows : List (CommandPlacement × List ℕ)) (outputs : List ℕ) where
  Swept-Accounted :
      {rest : List (CommandPlacement × List ℕ)} {kept removed : List CommandPlacement}
      → Swept schedule plan roots rows outputs rest kept removed
      → (i : ℕ) → elem i (covered_by (map (λ row. row.0) rest)) ≡ true
      → Accounted i kept removed
  Swept-Accounted done i h = inr h
  Swept-Accounted (keep row {rest} {kept} {removed} s) i h =
      elim (covered_by-cases row.0 (map (λ row. row.0) rest) i h) [
        | inl here ↦ inr (covered_by-first row.0 kept i here)
        | inr later ↦ elim (Swept-Accounted s i later) [
          | inl gone ↦ inl gone
          | inr stays ↦ inr (covered_by-later row.0 kept i stays)
        ]
      ]
  Swept-Accounted (drop row {rest} {kept} {removed} dead s) i h =
      elim (covered_by-cases row.0 (map (λ row. row.0) rest) i h) [
        | inl here ↦ inl (covered_by-first row.0 removed i here)
        | inr later ↦ elim (Swept-Accounted s i later) [
          | inl gone ↦ inl (covered_by-later row.0 removed i gone)
          | inr stays ↦ inr stays
        ]
      ]

with_writes-first :
    (roots : List ℕ) (records : List CommandPlacement) {rows : List (CommandPlacement × List ℕ)}
    → traverse (with_writes roots) records ≡ ok rows
    → map (λ row. row.0) rows ≡ records
unfolding traverse with_writes
with_writes-first roots [] e = ap (map (λ row. row.0)) (sym (ok-injective e))
with_writes-first roots (p ∷ rest) e = >>=-then (with_writes roots p) _ e λ row first e1.
    >>=-then (traverse (with_writes roots) rest) _ e1 λ rows more made.
      >>=-then (operand_roots roots is_write p.command.operands) _ first λ writes _ built.
        ap (map (λ row. row.0)) (sym (ok-injective made))
        ∙ ap₂ ◌∷◌ (ap (λ r. r.0) (sym (ok-injective built))) (with_writes-first roots rest more)

with_writes-Listed :
    (roots : List ℕ) (records : List CommandPlacement) {rows : List (CommandPlacement × List ℕ)}
    → traverse (with_writes roots) records ≡ ok rows
    → All
        (λ (row : CommandPlacement × List ℕ).
          All
            (λ (o : CommandOperand).
              is_write o.access ≡ true
              → (v : ℕ) → item roots o.value_id ≡ ok v
              → elem v row.1 ≡ true)
            row.0.command.operands)
        rows
unfolding with_writes
with_writes-Listed roots records e =
    traverse-carries (with_writes roots) (λ p. Unit {0}) _
      (λ p row built _.
        >>=-then (operand_roots roots is_write p.command.operands) _ built λ writes listed made.
          subst
            (λ (row : CommandPlacement × List ℕ).
              All
                (λ (o : CommandOperand).
                  is_write o.access ≡ true
                  → (v : ℕ) → item roots o.value_id ≡ ok v
                  → elem v row.1 ≡ true)
                row.0.command.operands)
            (ok-injective made) (operand_roots-Listed roots is_write p.command.operands listed))
      records (everything records) e

-- The result of the removal, from the placements in their order.
pub record IsLive (schedule : ExecutionSchedule) (plan : MemoryPlan)
    (placements : List CommandPlacement) (plan' : MemoryPlan) (kept : List CommandPlacement)
    : Type 0 where
  pub records : List CommandPlacement
  pub ordered : IsOrdered schedule plan placements records
  pub roots : List ℕ
  pub rooted : packed_roots plan.allocations ≡ ok roots
  pub rows : List (CommandPlacement × List ℕ)
  pub same_records : map (λ row. row.0) rows ≡ records
  pub written :
      All
        (λ (row : CommandPlacement × List ℕ).
          All
            (λ (o : CommandOperand).
              is_write o.access ≡ true
              → (v : ℕ) → item roots o.value_id ≡ ok v
              → elem v row.1 ≡ true)
            row.0.command.operands)
        rows
  pub outputs : List ℕ
  pub entry : traverse (λ (r : String × ℕ). item roots r.1) schedule.entry_outputs ≡ ok outputs
  pub removed : List CommandPlacement
  pub swept : Swept schedule plan roots rows outputs rows kept removed
  pub still_elided : (i : ℕ) → elem i plan.elided_ops ≡ true → elem i plan'.elided_ops ≡ true
  pub still_covered :
      (i : ℕ)
      → elem i (covered_by records) ≡ true
      → (elem i plan'.elided_ops ≡ true) ⊎ (elem i (covered_by kept) ≡ true)

elided-after :
    (i : ℕ) (removed elided : List ℕ)
    → elem i (sorted leb (distinct (removed ++ elided))) ≡ (elem i removed || elem i elided)
elided-after i removed elided =
    elem-sorted leb i (distinct (removed ++ elided))
    ∙ elem-distinct i (removed ++ elided)
    ∙ elem-append i removed elided

-- Where `eliminate_dead_commands` returns a plan and placements, a command was removed only where its
-- operations are pure, it writes whole arena values that no other command writes, no output
-- of the entry is among them, and no kept command behind it reads one of them; and every execution that
-- the base plan left out is still left out, and every one that a placement covered is left out or
-- covered by a kept placement.
pub eliminate_dead_commands-IsLive :
    (schedule : ExecutionSchedule) (plan : MemoryPlan) (placements : List CommandPlacement)
    (plan' : MemoryPlan) (kept : List CommandPlacement)
    → eliminate_dead_commands schedule plan placements ≡ ok (plan', kept)
    → IsLive schedule plan placements plan' kept
unfolding eliminate_dead_commands
eliminate_dead_commands-IsLive schedule plan placements plan' kept h =
    >>=-then (order_command_placements schedule plan placements) _ h λ records ordered h1.
      >>=-then (packed_roots plan.allocations) _ h1 λ roots rooted h2.
        >>=-then (traverse (with_writes roots) records) _ h2 λ rows written h3.
          >>=-then (traverse (λ (r : String × ℕ). item roots r.1) schedule.entry_outputs) _ h3
            λ outputs entry h4.
              >>=-then (sweep_commands schedule plan roots rows outputs rows) _ h4 λ s ran made.
                let good = sweep_commands-Good schedule plan roots rows outputs rows s ran in
                let same = with_writes-first roots records written in
                let after = λ (i : ℕ). elided-after i (covered_by s.removed) plan.elided_ops in
                subst
                  (λ (r : MemoryPlan × List CommandPlacement).
                    IsLive schedule plan placements r.0 r.1)
                  (ok-injective made)
                  (record {
                    records = records;
                    ordered =
                        order_command_placements-IsOrdered schedule plan placements records ordered;
                    roots = roots;
                    rooted = rooted;
                    rows = rows;
                    same_records = same;
                    written = with_writes-Listed roots records written;
                    outputs = outputs;
                    entry = entry;
                    removed = s.removed;
                    swept = good.0;
                    still_elided = λ i e. after i ∙ (ground arith);
                    still_covered = λ i c.
                        elim (Swept-Accounted schedule plan roots rows outputs good.0 i
                          (ap (λ l. elem i (covered_by l)) same ∙ c)) [
                            | inl gone ↦ inl (after i ∙ (ground arith))
                            | inr stays ↦ inr stays
                          ];
                  })
