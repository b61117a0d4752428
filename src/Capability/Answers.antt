-- ===== src/Capability/Answers.antt =====
-- What the choice of capabilities answers for every operation.
use ag_infer.Prelude.{
  ℕ, ◌+◌, ◌≤◌, ◌≡◌, refl, sym, ◌∙◌, String, Bool, true, false, not, ◌&&◌, List, [], ◌∷◌, ◌++◌, map,
  ok, raise_if, >>=-then, ok-injective, if◌then◌else◌, ◌==◌, Bool-cases, inl, inr, filter_by,
  length, sum_by, sum_by-append, sum_by-sorted, All, All-sorted, All-imp, In, arith, subst,
  raise_if-eq-ok,
}
use ag_infer.Inventory.{RequirementStatus, InventoryOp, LoweringInventory}
use ag_infer.Command.{CudaArch}
use ag_infer.Capability.{
  ProviderCapability, ProviderReceipt, ResolutionIssue, ProviderResolution, IssueKind, matches,
  digest_leb, receipt_of, issue_of, blocked_detail, all_distinct, answer_required, answer_as,
  answer_all, ordered_by_digest, resolve_provider_capabilities,
}

-- How many capabilities of a registry match an operation.
pub matching : InventoryOp → CudaArch → List ProviderCapability → ℕ
matching op target_arch = sum_by (λ c. if matches op target_arch c then 1 else 0)

module _ {A : Type 0} where
  length-filter :
      (test : A → Bool) (xs : List A)
      → length (filter_by test xs) ≡ sum_by (λ x. if test x then 1 else 0) xs
  unfolding filter_by
  length-filter test [] = refl
  length-filter test (x ∷ xs) = ground (arith, length-filter test xs)

  All-filter :
      (P : A → Type 0) (test : A → Bool) (xs : List A)
      → All P xs
      → All (λ x. P x × (test x ≡ true)) (filter_by test xs)
  unfolding filter_by
  All-filter P test [] h = tt
  All-filter P test (x ∷ xs) h = elim (Bool-cases (test x)) [
    | inl t ↦ rw t ((h.0, t), All-filter P test xs h.1)
    | inr n ↦ rw n (All-filter P test xs h.1)
  ]

  In-self : (xs : List A) → All (λ x. In x xs) xs
  In-self [] = tt
  In-self (x ∷ xs) =
      (inl refl, All-imp (λ y. In y xs) (λ y. In y (x ∷ xs)) xs (λ y m. inr m) (In-self xs))

module _ (digest : ProviderCapability → List ℕ) where
  -- What may be answered for one operation: nothing where it is for compile time only; an issue where
  -- it is blocked, where no capability matches and where several do; and a receipt for the one that
  -- matches.
  pub data Answer (registry : List ProviderCapability) (target_arch : CudaArch) (op : InventoryOp)
      : List ProviderReceipt → List ResolutionIssue → Type 0 where
    skipped : op.status ≡ RequirementStatus.meta → Answer registry target_arch op [] []
    refused :
        op.status ≡ RequirementStatus.blocked
        → (detail : String)
        → Answer registry target_arch op [] (issue_of op IssueKind.inventory_blocked detail [] ∷ [])
    unmatched :
        op.status ≡ RequirementStatus.required
        → matching op target_arch registry ≡ 0
        → (detail : String)
        → Answer registry target_arch op [] (issue_of op IssueKind.unresolved detail [] ∷ [])
    several :
        op.status ≡ RequirementStatus.required
        → 2 ≤ matching op target_arch registry
        → (detail : String) (candidates : List ProviderCapability)
        → length candidates ≡ matching op target_arch registry
        → All (λ c. In c registry × (matches op target_arch c ≡ true)) candidates
        → Answer registry target_arch op []
            (issue_of op IssueKind.ambiguous detail (map digest candidates) ∷ [])
    chosen :
        (c : ProviderCapability)
        → op.status ≡ RequirementStatus.required
        → In c registry
        → matches op target_arch c ≡ true
        → matching op target_arch registry ≡ 1
        → Answer registry target_arch op (receipt_of digest op c ∷ []) []

  -- The answers for all operations, in their order.
  pub data Answers (registry : List ProviderCapability) (target_arch : CudaArch)
      : List InventoryOp → List ProviderReceipt → List ResolutionIssue → Type 0 where
    none_left : Answers registry target_arch [] [] []
    next :
        {op : InventoryOp} {ops : List InventoryOp} {receipts more_receipts : List ProviderReceipt}
        {issues more_issues : List ResolutionIssue}
        → Answer registry target_arch op receipts issues
        → Answers registry target_arch ops more_receipts more_issues
        → Answers registry target_arch
            (op ∷ ops)
            (receipts ++ more_receipts)
            (issues ++ more_issues)

module _ (digest : ProviderCapability → List ℕ)
    (requirement_detail : InventoryOp → CudaArch → String)
    (registry : List ProviderCapability) where
  -- The answer to an operation that requires a provider, from the capabilities that match it.
  answer_required-Answer :
      (target_arch : CudaArch) (op : InventoryOp) (found : List ProviderCapability)
      → op.status ≡ RequirementStatus.required
      → length found ≡ matching op target_arch registry
      → All (λ c. In c registry × (matches op target_arch c ≡ true)) found
      → (let r = answer_required digest requirement_detail target_arch op found in
          Answer digest registry target_arch op r.0 r.1)
  unfolding answer_required
  answer_required-Answer target_arch op [] status count all = unmatched status (sym count) _
  answer_required-Answer target_arch op (c ∷ []) status count all =
      chosen c status all.0.0 all.0.1 (sym count)
  answer_required-Answer target_arch op (c ∷ d ∷ rest) status count all =
      several status (omega (arith, count)) _ (c ∷ d ∷ rest) count all

  matching-ordered :
      (target_arch : CudaArch) (op : InventoryOp)
      → length (filter_by (matches op target_arch) (ordered_by_digest digest registry))
        ≡ matching op target_arch registry
  unfolding matching ordered_by_digest
  matching-ordered target_arch op =
      length-filter (matches op target_arch) (ordered_by_digest digest registry)
      ∙ sum_by-sorted (λ a b. digest_leb (digest a) (digest b))
          (λ c. if matches op target_arch c then 1 else 0) registry

  ordered-In : All (λ c. In c registry) (ordered_by_digest digest registry)
  unfolding ordered_by_digest
  ordered-In =
      All-sorted (λ c. In c registry) (λ a b. digest_leb (digest a) (digest b)) registry
        (In-self registry)

  answer_as-Answer :
      (target_arch : CudaArch) (op : InventoryOp) (s : RequirementStatus)
      → op.status ≡ s
      → (let r =
            answer_as digest requirement_detail target_arch
              (ordered_by_digest digest registry)
              op
              s in
          Answer digest registry target_arch op r.0 r.1)
  unfolding answer_as
  answer_as-Answer target_arch op RequirementStatus.meta e = skipped e
  answer_as-Answer target_arch op RequirementStatus.blocked e =
      refused e (blocked_detail op.blocker)
  answer_as-Answer target_arch op RequirementStatus.required e =
      answer_required-Answer target_arch op _ e (matching-ordered target_arch op) (
        All-filter (λ c. In c registry) (matches op target_arch) (ordered_by_digest digest registry)
          ordered-In)

  answer_all-Answers :
      (target_arch : CudaArch) (ops : List InventoryOp)
      → (let r =
            answer_all digest requirement_detail target_arch
              (ordered_by_digest digest registry)
              ops in
          Answers digest registry target_arch ops r.0 r.1)
  unfolding answer_all
  answer_all-Answers target_arch [] = none_left
  answer_all-Answers target_arch (op ∷ ops) =
      next (answer_as-Answer target_arch op op.status refl) (answer_all-Answers target_arch ops)

-- How often an operation runs, where it is not for compile time only.
abbrev pub runtime_executions : InventoryOp → ℕ
runtime_executions op = elim op.status [ RequirementStatus.meta ↦ 0 | _ ↦ op.executions ]

no_issues : (strict : Bool) (n : ℕ) → strict && not (n == 0) ≡ false → strict ≡ true → n ≡ 0
no_issues strict n h t = let h' = rw t at h in ground arith

module _ (digest : ProviderCapability → List ℕ)
    (requirement_detail : InventoryOp → CudaArch → String)
    (inventory_sha256 : LoweringInventory → List ℕ) where
  -- Where `resolve_provider_capabilities` returns a resolution, every operation of the inventory has the
  -- answer that the registry gives it: none for one of compile time, an issue for a blocked one, an
  -- issue where no capability matches and where more than one does, and the receipt of the
  -- capability that matches where exactly one does. In a strict resolution no issue is left.
  pub resolve_provider_capabilities-Answers :
      (inventory : LoweringInventory) (registry : List ProviderCapability) (target_arch : CudaArch)
      (strict : Bool) (r : ProviderResolution)
      → resolve_provider_capabilities digest requirement_detail inventory_sha256 inventory registry
          target_arch strict
        ≡ ok r
      → Answers digest registry target_arch inventory.ops r.receipts r.issues
        × (strict ≡ true → length r.issues ≡ 0)
  unfolding resolve_provider_capabilities
  resolve_provider_capabilities-Answers inventory registry target_arch strict r e =
      >>=-then (raise_if (not (all_distinct (map digest registry))) _) _ e λ _ _ e1.
        >>=-then (raise_if _ _) _ e1 λ _ checked done.
          subst
            (λ (r : ProviderResolution).
              Answers digest registry target_arch inventory.ops r.receipts r.issues
              × (strict ≡ true → length r.issues ≡ 0))
            (ok-injective done)
            (
              answer_all-Answers digest requirement_detail registry target_arch inventory.ops,
              no_issues strict _ (raise_if-eq-ok _ _ checked),
            )

module _ (digest : ProviderCapability → List ℕ) (registry : List ProviderCapability)
    (target_arch : CudaArch) where
  Answer-executions :
      (op : InventoryOp) (receipts : List ProviderReceipt) (issues : List ResolutionIssue)
      → Answer digest registry target_arch op receipts issues
      → sum_by (λ (x : ProviderReceipt). x.executions) receipts
          + sum_by (λ (x : ResolutionIssue). x.executions) issues
        ≡ runtime_executions op
  unfolding issue_of receipt_of
  Answer-executions op receipts issues (skipped s) = rw s refl
  Answer-executions op receipts issues (refused s detail) = rw s (omega arith)
  Answer-executions op receipts issues (unmatched s none_found detail) = rw s (omega arith)
  Answer-executions op receipts issues (several s two detail candidates count all) =
      rw s (omega arith)
  Answer-executions op receipts issues (chosen c s m t one) = rw s (omega arith)

  Answers-executions :
      (ops : List InventoryOp) (receipts : List ProviderReceipt) (issues : List ResolutionIssue)
      → Answers digest registry target_arch ops receipts issues
      → sum_by (λ (x : ProviderReceipt). x.executions) receipts
          + sum_by (λ (x : ResolutionIssue). x.executions) issues
        ≡ sum_by runtime_executions ops
  Answers-executions ops receipts issues none_left = refl
  Answers-executions ops receipts issues
        (next {op = op} {ops = rest} {receipts = receipts₁} {more_receipts = receipts₂}
          {issues = issues₁} {more_issues = issues₂} here more) =
      omega (
        arith,
        Answer-executions op receipts₁ issues₁ here,
        Answers-executions rest receipts₂ issues₂ more,
        sum_by-append (λ (x : ProviderReceipt). x.executions) receipts₁ receipts₂,
        sum_by-append (λ (x : ResolutionIssue). x.executions) issues₁ issues₂,
      )

module _ (digest : ProviderCapability → List ℕ)
    (requirement_detail : InventoryOp → CudaArch → String)
    (inventory_sha256 : LoweringInventory → List ℕ) where
  -- No execution is lost or counted twice: in a resolution, the executions of the receipts and those of
  -- the issues are together the executions of all operations that are not for compile time only.
  pub resolve_provider_capabilities_executions :
      (inventory : LoweringInventory) (registry : List ProviderCapability) (target_arch : CudaArch)
      (strict : Bool) (r : ProviderResolution)
      → resolve_provider_capabilities digest requirement_detail inventory_sha256 inventory registry
          target_arch strict
        ≡ ok r
      → sum_by (λ (x : ProviderReceipt). x.executions) r.receipts
          + sum_by (λ (x : ResolutionIssue). x.executions) r.issues
        ≡ sum_by runtime_executions inventory.ops
  resolve_provider_capabilities_executions inventory registry target_arch strict r e =
      Answers-executions digest registry target_arch inventory.ops r.receipts r.issues
        (resolve_provider_capabilities-Answers digest requirement_detail inventory_sha256 inventory
          registry target_arch strict r e).0
