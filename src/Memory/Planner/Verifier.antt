-- ===== src/Memory/Planner/Verifier.antt =====
-- What `_verify_memory_plan` guarantees of any plan that it accepts.
use ag_infer.Prelude.{
  ℕ, ◌+◌, ◌≤◌, ◌≡◌, refl, inl, inr, ◌⊎◌, not, none, some, List, [], map, arith, ◌==◌, All, Pairwise,
  ok, raise_if, raise_if-eq-ok, >>=-eq-ok, Option-cases, sorted, traverse, ◌≢◌, length, range,
  list_eq, list_eq→eq,
}
use ag_infer.Schedule.{ExecutionSchedule, item}
use ag_infer.Memory.{get, AllocationRegion, ValueAllocation}
use ag_infer.Memory.Build.{LiteralRecord, MemoryPlan, Materialized}
use ag_infer.Memory.Planner.{
  verify_bounds, verify_literal, verify_owned, verify_allocation, interval_leb, verify_memory_plan,
}
use ag_infer.Prelude.Loops.{traverse-All}
use ag_infer.Memory.Planner.Sweep.{Apart, sorted-Ascending, sweep-Apart}

-- The bytes of an allocation lie within a region of `limit` bytes.
abbrev pub Within : ValueAllocation → ℕ → Type 0
Within a limit =
    (offset : ℕ) × (bytes : ℕ) × (a.offset ≡ some offset)
    × (a.allocation_bytes ≡ some bytes)
    × (offset + bytes ≤ limit)

-- What an accepted allocation is, by its region: an alias names the root of its value, a block of the
-- arena or of the state region lies within it, and so does a materialized literal in the blob.
abbrev pub Holds : MemoryPlan → List ℕ → Materialized → ValueAllocation → AllocationRegion → Type 0
Holds plan roots m a AllocationRegion.alias =
    (target : ℕ) × (a.alias_of ≡ some target) × (item roots a.value_id ≡ ok target)
Holds plan roots m a AllocationRegion.arena =
    (get m.by_value a.value_id ≡ none) × Within a plan.arena_bytes
Holds plan roots m a AllocationRegion.state =
    (get m.by_value a.value_id ≡ none) × Within a plan.state_bytes
Holds plan roots m a AllocationRegion.constant =
    (get m.by_value a.value_id ≡ none) ⊎ Within a m.bytes
Holds plan roots m a _ = get m.by_value a.value_id ≡ none

verify_bounds-Within :
    (a : ValueAllocation) (limit : ℕ) {u : Unit {0}}
    → verify_bounds a.offset a.allocation_bytes limit ≡ ok u
    → Within a limit
unfolding verify_bounds
verify_bounds-Within a limit e = elim (Option-cases a.offset) [
  | inl n ↦ absurd (ground arith)
  | inr (offset, o) ↦ elim (Option-cases a.allocation_bytes) [
    | inl n ↦ absurd (ground arith)
    | inr (bytes, b) ↦ (offset, bytes, o, b, ground arith)
  ]
]

verify_owned-region :
    (plan : MemoryPlan) (m : Materialized) (a : ValueAllocation) {u : Unit {0}}
    → verify_owned plan m a ≡ ok u
    → (get m.by_value a.value_id ≡ none)
      ⊎ ((r : LiteralRecord) × (verify_literal r m.bytes a ≡ ok u))
unfolding verify_owned
verify_owned-region plan m a e = elim (Option-cases a.alias_of) [
  | inr (t, s) ↦ absurd (ground arith)
  | inl n ↦ elim (Option-cases (get m.by_value a.value_id)) [
    | inl o ↦ inl o
    | inr (r, g) ↦ inr (r, ground arith)
  ]
]

verify_literal-Within :
    (r : LiteralRecord) (limit : ℕ) (a : ValueAllocation) {u : Unit {0}}
    → verify_literal r limit a ≡ ok u
    → (a.region ≡ AllocationRegion.constant) × Within a limit
unfolding verify_literal
verify_literal-Within r limit a e = elim (Option-cases a.offset) [
  | inl n ↦ absurd (ground arith)
  | inr (offset, o) ↦ elim (Option-cases a.allocation_bytes) [
    | inl n ↦ absurd (ground arith)
    | inr (bytes, b) ↦ (ground arith, (offset, bytes, o, b, ground arith))
  ]
]

verify_allocation-alias :
    (plan : MemoryPlan) (roots : List ℕ) (m : Materialized) (a : ValueAllocation) {u : Unit {0}}
    → a.region ≡ AllocationRegion.alias
    → verify_allocation plan roots m a ≡ ok u
    → Holds plan roots m a AllocationRegion.alias
unfolding verify_allocation
verify_allocation-alias plan roots m a s e = elim (Option-cases a.alias_of) [
  | inl n ↦ absurd (ground arith)
  | inr (target, t) ↦
      let body = rw (s, verify_allocation, t) at e in
      let (root, found, same) = >>=-eq-ok (item roots a.value_id) _ body in
      let equal : root ≡ target = let passed = raise_if-eq-ok _ _ same in ground arith in
      (target, t, rw equal at found)
]

verify_owned-arena :
    (plan : MemoryPlan) (m : Materialized) (a : ValueAllocation) {u : Unit {0}}
    → a.region ≡ AllocationRegion.arena
    → verify_owned plan m a ≡ ok u
    → (get m.by_value a.value_id ≡ none) × Within a plan.arena_bytes
unfolding verify_owned
verify_owned-arena plan m a s e = elim (verify_owned-region plan m a e) [
  | inl n ↦ (n, verify_bounds-Within a plan.arena_bytes (ground arith))
  | inr (r, literal) ↦ let region = (verify_literal-Within r m.bytes a literal).0 in absurd (cc)
]

verify_owned-state :
    (plan : MemoryPlan) (m : Materialized) (a : ValueAllocation) {u : Unit {0}}
    → a.region ≡ AllocationRegion.state
    → verify_owned plan m a ≡ ok u
    → (get m.by_value a.value_id ≡ none) × Within a plan.state_bytes
unfolding verify_owned
verify_owned-state plan m a s e = elim (verify_owned-region plan m a e) [
  | inl n ↦ (n, verify_bounds-Within a plan.state_bytes (ground arith))
  | inr (r, literal) ↦ let region = (verify_literal-Within r m.bytes a literal).0 in absurd (cc)
]

-- A value of another region is not materialized.
verify_owned-other :
    (plan : MemoryPlan) (m : Materialized) (a : ValueAllocation) {u : Unit {0}}
    → a.region ≢ AllocationRegion.constant
    → verify_owned plan m a ≡ ok u
    → get m.by_value a.value_id ≡ none
verify_owned-other plan m a s e = elim (verify_owned-region plan m a e) [
  | inl n ↦ n
  | inr (r, literal) ↦ absurd (s (verify_literal-Within r m.bytes a literal).0)
]

verify_allocation-Holds :
    (plan : MemoryPlan) (roots : List ℕ) (m : Materialized) (a : ValueAllocation)
    (region : AllocationRegion) {u : Unit {0}}
    → a.region ≡ region
    → verify_allocation plan roots m a ≡ ok u
    → Holds plan roots m a region
unfolding verify_allocation
verify_allocation-Holds plan roots m a AllocationRegion.alias s e =
    verify_allocation-alias plan roots m a s e
verify_allocation-Holds plan roots m a AllocationRegion.arena s e =
    verify_owned-arena plan m a s (rw (s, verify_allocation) at e)
verify_allocation-Holds plan roots m a AllocationRegion.state s e =
    verify_owned-state plan m a s (rw (s, verify_allocation) at e)
verify_allocation-Holds plan roots m a AllocationRegion.constant s e =
    elim (verify_owned-region plan m a (rw (s, verify_allocation) at e)) [
      | inl n ↦ inl n
      | inr (r, literal) ↦ inr (verify_literal-Within r m.bytes a literal).1
    ]
verify_allocation-Holds plan roots m a AllocationRegion.external s e =
    verify_owned-other plan m a (λ c. cc) (rw (s, verify_allocation) at e)
verify_allocation-Holds plan roots m a AllocationRegion.unused s e =
    verify_owned-other plan m a (λ c. cc) (rw (s, verify_allocation) at e)

-- A plan that the verifier may accept.
pub record IsVerified (schedule : ExecutionSchedule) (plan : MemoryPlan) (roots : List ℕ)
    (m : Materialized) : Type 0 where
  pub complete : map (λ a. a.value_id) plan.allocations ≡ range 0 (length schedule.values)
  pub holds : All (λ a. Holds plan roots m a a.region) plan.allocations
  pub apart : Pairwise Apart (sorted interval_leb plan.intervals)

-- Whatever plan the verifier accepts, whoever made it: it has one allocation for each value, in the order of the values; an alias
-- names the root of its value; a block of the arena or of the state region lies within its region and is
-- not of a materialized literal; a materialized literal lies within the blob; and any two intervals
-- whose lifetimes meet occupy disjoint bytes.
pub verify_memory_plan-IsVerified :
    (schedule : ExecutionSchedule) (plan : MemoryPlan) (roots : List ℕ) (m : Materialized)
    → verify_memory_plan schedule plan roots m ≡ ok tt
    → IsVerified schedule plan roots m
unfolding verify_memory_plan
verify_memory_plan-IsVerified schedule plan roots m e =
    let (_, counted, e1) =
      >>=-eq-ok (raise_if (not (length plan.allocations == length schedule.values)) _) _ e in
    let (_, ordered, e2) =
      >>=-eq-ok
        (raise_if
          (not
            (list_eq (map (λ a. a.value_id) plan.allocations) (range 0 (length schedule.values))))
          _)
        _ e1 in
    let (_, passed, swept) =
      >>=-eq-ok (traverse (verify_allocation plan roots m) plan.allocations) _ e2 in
    record {
      complete = list_eq→eq _ _ (let t = raise_if-eq-ok _ _ ordered in ground arith);
      holds =
          traverse-All (verify_allocation plan roots m) (λ a. Holds plan roots m a a.region)
            (λ a u h. verify_allocation-Holds plan roots m a a.region refl h) plan.allocations
            passed;
      apart =
          sweep-Apart 0 [] [] (sorted interval_leb plan.intervals) tt tt
            (sorted-Ascending plan.intervals) swept;
    }
