-- ===== src/DeadCommands/Swept.antt =====
-- What the removal of dead commands guarantees.
use ag_infer.Prelude.{
  filter_by, traverse, sym, ℕ, ◌≡◌, refl, ◌∙◌, ap, subst, Bool, true, false, not, ◌&&◌, ◌||◌, ◌==◌,
  List, [], ◌∷◌, ◌++◌, Result, ok, ◌>>=◌, inl, inr, elem, all_of, All, All-imp, Bool-cases, arith,
  >>=-then, ok-injective,
}
use ag_infer.Prelude.Sets.{elem-append, All-elem, all_of-All}
use ag_infer.Schedule.{ScheduledOp, ExecutionSchedule, item}
use ag_infer.Memory.{ValueAllocation}
use ag_infer.Memory.Build.{MemoryPlan}
use ag_infer.Inventory.{is_one_of}
use ag_infer.Command.{OperandAccess, CommandOperand}
use ag_infer.Assemble.{CommandPlacement, reads_value, is_arena_region}
use ag_infer.DeadCommands.{
  pure_ops, operand_roots, times_written, all_result, any_of, is_in_place, is_known_provider,
  is_pure, Sweep, sweep_command, sweep_commands,
}

and_true : (a b : Bool) → a && b ≡ true → (a ≡ true) × (b ≡ true)
and_true true b h = (refl, h)
and_true false b h = cc

-- `all` with a test that may raise: it answered true on every element.
all_result-All :
    {A : Type 0} (test : A → Result Bool) (xs : List A)
    → all_result test xs ≡ ok true
    → All (λ x. test x ≡ ok true) xs
unfolding all_result
all_result-All test [] h = tt
all_result-All test (x ∷ xs) h = >>=-then (test x) _ h λ holds first rest. elim (Bool-cases holds) [
  | inl t ↦ (first ∙ ap ok t, all_result-All test xs (rw t at rest))
  | inr n ↦ absurd (let r = rw n at rest in cc)
]

any_of-All : (test : ℕ → Bool) (xs : List ℕ) → any_of test xs ≡ false → All (λ x. test x ≡ false) xs
unfolding any_of
any_of-All test [] h = tt
any_of-All test (x ∷ xs) h = (ground arith, any_of-All test xs (ground arith))

-- The roots of the operands that pass a test hold the root of each.
pub operand_roots-Listed :
    (roots : List ℕ) (test : OperandAccess → Bool) (operands : List CommandOperand) {found : List ℕ}
    → operand_roots roots test operands ≡ ok found
    → All
        (λ (o : CommandOperand).
          test o.access ≡ true → (v : ℕ) → item roots o.value_id ≡ ok v → elem v found ≡ true)
        operands
unfolding operand_roots filter_by traverse elem
operand_roots-Listed roots test [] e = tt
operand_roots-Listed roots test (o ∷ operands) {found} e = elim (Bool-cases (test o.access)) [
  | inr n ↦
      (λ t. absurd (cc), operand_roots-Listed roots test operands (rw (n, operand_roots) at e))
  | inl t ↦ >>=-then (item roots o.value_id) _ (rw (t, operand_roots) at e) λ root here e1.
      >>=-then (operand_roots roots test operands) _ e1 λ rest more made.
        let same : root ∷ rest ≡ found = ok-injective made in
        (
          λ _ v at.
              let agree : root ≡ v = ok-injective (sym here ∙ at) in
              subst (λ l. elem v l ≡ true) same (ground arith),
          All-imp _ _ operands
              (λ o listed r v at.
                subst (λ l. elem v l ≡ true) same (let m = listed r v at in ground arith))
              (operand_roots-Listed roots test operands more),
        )
]

unneeded_apart :
    (s : Sweep) (v : ℕ) (writes : List ℕ)
    → All (λ w. elem w s.needed ≡ false) writes
    → elem v s.needed ≡ true
    → elem v writes ≡ false
unneeded_apart s v writes unneeded needed = elim (Bool-cases (elem v writes)) [
  | inl t ↦ absurd (let f = All-elem (λ w. elem w s.needed ≡ false) v writes unneeded t in cc)
  | inr n ↦ n
]

module _ (schedule : ExecutionSchedule) (plan : MemoryPlan) (roots : List ℕ)
    (rows : List (CommandPlacement × List ℕ)) (outputs : List ℕ) where
  -- A command none of whose operands reads one of the roots.
  abbrev pub Unread : List ℕ → CommandPlacement → Type 0
  Unread writes k =
      All
        (λ (o : CommandOperand).
          reads_value o.access ≡ true
          → (v : ℕ) → item roots o.value_id ≡ ok v
          → elem v writes ≡ false)
        k.command.operands

  -- A command that may be removed, for the commands behind it that are kept: its operations are pure, it
  -- writes whole arena values that no other command writes, and neither an output nor a kept
  -- command needs them.
  pub record IsDead (row : CommandPlacement × List ℕ) (kept : List CommandPlacement) : Type 0 where
    pub provider : is_known_provider row.0.command ≡ true
    pub operations :
        All
          (λ i.
            (op : ScheduledOp) × (item schedule.ops i ≡ ok op)
            × (is_one_of op.opcode pure_ops ≡ true))
          row.0.covered
    pub whole :
        All
          (λ (o : CommandOperand). not (is_in_place o.access) && o.byte_offset == 0 ≡ true)
          row.0.command.operands
    pub owned :
        All
          (λ v.
            (a : ValueAllocation) × (item plan.allocations v ≡ ok a)
            × (is_arena_region a.region && times_written rows v == 1 ≡ true))
          row.1
    pub no_output : All (λ v. elem v outputs ≡ false) row.1
    pub unread : All (Unread row.1) kept

  -- The commands in their order, those that are kept and those that are removed.
  pub data Swept
      : List (CommandPlacement × List ℕ)
        → List CommandPlacement
        → List CommandPlacement
        → Type 0 where
    done : Swept [] [] []
    keep :
        (row : CommandPlacement × List ℕ) {rest : List (CommandPlacement × List ℕ)}
        {kept removed : List CommandPlacement}
        → Swept rest kept removed
        → Swept (row ∷ rest) (row.0 ∷ kept) removed
    drop :
        (row : CommandPlacement × List ℕ) {rest : List (CommandPlacement × List ℕ)}
        {kept removed : List CommandPlacement}
        → IsDead row kept
        → Swept rest kept removed
        → Swept (row ∷ rest) kept (row.0 ∷ removed)

  -- What the loop needs holds the outputs and all that the kept commands read.
  pub record Needs (s : Sweep) : Type 0 where
    pub of_outputs : (v : ℕ) → elem v outputs ≡ true → elem v s.needed ≡ true
    pub of_kept :
        All
          (λ (k : CommandPlacement).
            All
              (λ (o : CommandOperand).
                reads_value o.access ≡ true
                → (v : ℕ) → item roots o.value_id ≡ ok v
                → elem v s.needed ≡ true)
              k.command.operands)
          s.kept

  abbrev is_pure_op : ℕ → Result Bool
  is_pure_op i = do op ← item schedule.ops i; ok (is_one_of op.opcode pure_ops)

  abbrev is_owned : ℕ → Result Bool
  is_owned v = do
    a ← item plan.allocations v
    ok (is_arena_region a.region && times_written rows v == 1)

  -- What the value of `pure` says, when it is true.
  record IsPure (row : CommandPlacement × List ℕ) : Type 0 where
    provider : is_known_provider row.0.command ≡ true
    operations : all_result is_pure_op row.0.covered ≡ ok true
    whole :
        all_of
          (λ (o : CommandOperand). not (is_in_place o.access) && o.byte_offset == 0)
          row.0.command.operands
        ≡ true
    owned : all_result is_owned row.1 ≡ ok true

  is_pure-IsPure :
      (row : CommandPlacement × List ℕ)
      → is_pure schedule plan rows row.0 row.1 ≡ ok true
      → IsPure row
  unfolding is_pure
  is_pure-IsPure row h = elim (Bool-cases (is_known_provider row.0.command)) [
    | inr n ↦ absurd (let f = rw (n, is_pure) at h in cc)
    | inl t ↦
        >>=-then (all_result is_pure_op row.0.covered) _ (rw (t, is_pure) at h)
          λ operations first rest.
            elim (Bool-cases (
              operations
              && all_of (λ (o : CommandOperand). not (is_in_place o.access) && o.byte_offset == 0)
                  row.0.command.operands)) [
                    | inr n ↦ absurd (let f = rw n at rest in cc)
                    | inl both ↦
                        let (pure_only, whole) = and_true _ _ both in
                        record {
                          provider = t;
                          operations = first ∙ ap ok pure_only;
                          whole = whole;
                          owned = rw both at rest;
                        }
                  ]
  ]

  -- A test of a value that is read from a table, which was true.
  looked_up :
      {A B : Type 0} (m : A → Result B) (test : A → B → Bool) (x : A)
      → (m x >>= λ b. ok (test x b)) ≡ ok true
      → (b : B) × (m x ≡ ok b) × (test x b ≡ true)
  looked_up m test x h = >>=-then (m x) _ h λ b found holds. (b, found, ok-injective holds)

  not_needed :
      (s : Sweep) (v : ℕ) (xs : List ℕ)
      → ((v : ℕ) → elem v xs ≡ true → elem v s.needed ≡ true)
      → elem v s.needed ≡ false
      → elem v xs ≡ false
  not_needed s v xs f n = elim (Bool-cases (elem v xs)) [
    | inl t ↦ absurd (let m = f v t in cc)
    | inr m ↦ m
  ]

  IsPure-IsDead :
      (row : CommandPlacement × List ℕ) (s : Sweep)
      → IsPure row
      → any_of (λ v. elem v s.needed) row.1 ≡ false
      → Needs s
      → IsDead row s.kept
  IsPure-IsDead row s pure unused needs =
      let unneeded = any_of-All (λ v. elem v s.needed) row.1 unused in
      record {
        provider = pure.provider;
        operations =
            All-imp _ _ row.0.covered
              (λ i. looked_up (λ i. item schedule.ops i) (λ i op. is_one_of op.opcode pure_ops) i)
              (all_result-All is_pure_op row.0.covered pure.operations);
        whole = all_of-All _ row.0.command.operands pure.whole;
        owned =
            All-imp _ _ row.1
              (λ v.
                looked_up (λ v. item plan.allocations v)
                  (λ v a. is_arena_region a.region && times_written rows v == 1) v)
              (all_result-All is_owned row.1 pure.owned);
        no_output = All-imp _ _ row.1 (λ v. not_needed s v outputs needs.of_outputs) unneeded;
        unread =
            All-imp _ _ s.kept
              (λ k reads.
                All-imp _ _ k.command.operands
                  (λ o needed r v found. unneeded_apart s v row.1 unneeded (needed r v found))
                  reads)
              needs.of_kept;
      }

  or_right : (a b : Bool) → b ≡ true → a || b ≡ true
  or_right a b h = ground arith

  or_left : (a b : Bool) → a ≡ true → a || b ≡ true
  or_left a b h = ground arith

  -- A kept command adds what it reads.
  keep-Needs :
      (p : CommandPlacement) (s : Sweep) (reads : List ℕ)
      → operand_roots roots reads_value p.command.operands ≡ ok reads
      → Needs s
      → Needs (record { needed = reads ++ s.needed; kept = p ∷ s.kept; removed = s.removed })
  keep-Needs p s reads e needs =
      let more = λ (v : ℕ) (h : elem v s.needed ≡ true).
        elem-append v reads s.needed ∙ or_right (elem v reads) (elem v s.needed) h in
      record {
        of_outputs = λ v h. more v (needs.of_outputs v h);
        of_kept = (
          All-imp _ _ p.command.operands
              (λ o listed r v found.
                elem-append v reads s.needed
                ∙ or_left (elem v reads) (elem v s.needed) (listed r v found))
              (operand_roots-Listed roots reads_value p.command.operands e),
          All-imp _ _ s.kept
              (λ k given.
                All-imp _ _ k.command.operands (λ o h r v found. more v (h r v found)) given)
              needs.of_kept,
        );
      }

  abbrev pub Good : List (CommandPlacement × List ℕ) → Sweep → Type 0
  Good rest s = Swept rest s.kept s.removed × Needs s

  sweep_command-Good :
      (row : CommandPlacement × List ℕ) (rest : List (CommandPlacement × List ℕ)) (s t : Sweep)
      → sweep_command schedule plan roots rows row s ≡ ok t
      → Good rest s
      → Good (row ∷ rest) t
  unfolding sweep_command
  sweep_command-Good row rest s t h good =
      >>=-then (is_pure schedule plan rows row.0 row.1) _ h λ pure tested h1.
        elim (Bool-cases (pure && not (any_of (λ v. elem v s.needed) row.1))) [
          | inl dead ↦
              let (is_true, unneeded) = and_true _ _ dead in
              let facts = is_pure-IsPure row (tested ∙ ap ok is_true) in
              let unused : any_of (λ v. elem v s.needed) row.1 ≡ false = ground arith in
              subst (Good (row ∷ rest)) (ok-injective (rw dead at h1)) (
                drop row (IsPure-IsDead row s facts unused good.1) good.0,
                record { of_outputs = good.1.of_outputs; of_kept = good.1.of_kept },
              )
          | inr live ↦
              >>=-then (operand_roots roots reads_value row.0.command.operands) _ (rw live at h1)
                λ reads found made.
                  subst (Good (row ∷ rest)) (ok-injective made)
                    (keep row good.0, keep-Needs row.0 s reads found good.1)
        ]

  pub sweep_commands-Good :
      (rest : List (CommandPlacement × List ℕ)) (s : Sweep)
      → sweep_commands schedule plan roots rows outputs rest ≡ ok s
      → Good rest s
  unfolding sweep_commands
  sweep_commands-Good [] s h =
      subst (Good []) (ok-injective h) (done, record { of_outputs = λ v m. m; of_kept = tt })
  sweep_commands-Good (row ∷ rest) s h =
      >>=-then (sweep_commands schedule plan roots rows outputs rest) _ h
        λ t before now. sweep_command-Good row rest t s now (sweep_commands-Good rest t before)
