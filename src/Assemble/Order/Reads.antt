-- ===== src/Assemble/Order/Reads.antt =====
-- What `order_command_placements` records of the operands: every read, and every writer.
use ag_infer.Prelude.{
  ℕ, zero, suc, ◌+◌, ◌≡◌, refl, sym, ap, ◌∙◌, ◌⊎◌, inl, inr, Bool, true, false, not, ◌&&◌, ◌||◌,
  Option, none, some, List, [], ◌∷◌, ◌++◌, Result, ok, err, validation_error, raise_if, >>=-then,
  ok-injective, some-injective, subst, fold_result, ltb, leb, ◌==◌, if◌then◌else◌, length, elem,
  all_of, All, All-imp, In, In-append_left, In-append_right, arith,
}
use ag_infer.Schedule.{item}
use ag_infer.Memory.{get, put, or_key_error, AllocationRegion, ValueAllocation}
use ag_infer.Command.{CommandOperand, is_write}
use ag_infer.Assemble.{
  CommandPlacement, allocation_of, reads_value, is_constant_region, is_arena_region, known,
  Requirements, Boundary, covered_events, read_event, require_state, require_value, require_operand,
  require_all,
}
use native.Mathlib.Decide.{ℕ_discrete}

abbrev pub is_state_region : AllocationRegion → Bool
is_state_region AllocationRegion.state = true
is_state_region _ = false

-- An operand that reads a temporary or an output.
pub record ReadsShared (allocations : List ValueAllocation) (roots outputs : List ℕ) (root : ℕ)
    (o : CommandOperand) : Type 0 where
  pub reading : reads_value o.access ≡ true
  pub rooted : item roots o.value_id ≡ ok root
  pub a : ValueAllocation
  pub found : allocation_of allocations root ≡ some a
  pub no_state : is_state_region a.region ≡ false
  pub shared : (is_arena_region a.region || elem root outputs) ≡ true

-- An operand that writes.
abbrev pub Writes : List ℕ → ℕ → CommandOperand → Type 0
Writes roots root o = (is_write o.access ≡ true) × (item roots o.value_id ≡ ok root)

-- The command at a position writes a root.
abbrev pub WritesAt : List CommandPlacement → List ℕ → ℕ → ℕ → Type 0
WritesAt records roots position root =
    (p : CommandPlacement) × (item records position ≡ ok p)
    × ((o : CommandOperand) × In o p.command.operands × Writes roots root o)

module _ (b : Boundary) (index : ℕ) where
  -- What one operand adds: its read, if it is one of shared storage, and its write.
  record IsRequired (o : CommandOperand) (r r' : Requirements) : Type 0 where
    kept : (p : ℕ × ℕ) → In p r.reads → In p r'.reads
    read :
        (root : ℕ) → ReadsShared b.allocations b.roots b.outputs root o → In (index, root) r'.reads
    wrote :
        (root w : ℕ)
        → get r'.writers root ≡ some w
        → (get r.writers root ≡ some w) ⊎ ((w ≡ index) × Writes b.roots root o)

  require_state-IsRequired :
      (covered : List ℕ) (o : CommandOperand) (root : ℕ) (a : ValueAllocation) (r : Requirements)
      {r' : Requirements}
      → item b.roots o.value_id ≡ ok root
      → allocation_of b.allocations root ≡ some a
      → is_state_region a.region ≡ true
      → require_state b index covered o root r ≡ ok r'
      → IsRequired o r r'
  unfolding require_state
  require_state-IsRequired covered o root a r rooted found state e =
      >>=-then (covered_events b.schedule root (reads_value o.access) (is_write o.access) covered) _
        e
        λ touched _ e1. >>=-then (item b.schedule.values o.value_id) _ e1 λ value _ e2.
          >>=-then (read_event b.schedule (reads_value o.access) value) _ e2 λ produced _ e3.
            >>=-then (raise_if (length (touched ++ produced) == 0) _) _ e3 λ _ _ made.
              subst (IsRequired o r) (ok-injective made) (record {
                kept = λ p m. m;
                read = λ root' s.
                    let same : root ≡ root' = ok-injective (sym rooted ∙ s.rooted) in
                    let agree : a ≡ s.a =
                      some-injective
                        (sym found ∙ ap (allocation_of b.allocations) same ∙ s.found) in
                    let region = ap (λ (a : ValueAllocation). is_state_region a.region) agree in
                    absurd (let f = s.no_state in cc);
                wrote = λ root w g. inl g;
              })

  require_value-IsRequired :
      (o : CommandOperand) (root : ℕ) (a : ValueAllocation) (r : Requirements) {r' : Requirements}
      → item b.roots o.value_id ≡ ok root
      → allocation_of b.allocations root ≡ some a
      → require_value b index o root a.region r ≡ ok r'
      → IsRequired o r r'
  unfolding require_value get
  require_value-IsRequired o root a r rooted found e =
      >>=-then
        (raise_if (is_write o.access && (is_constant_region a.region || elem root b.inputs)) _) _ e
        λ _ _ e1.
          >>=-then (raise_if (is_write o.access && known (get r.writers root)) _) _ e1 λ _ _ made.
            subst (IsRequired o r) (ok-injective made) (record {
              kept = λ p m.
                  keep_read
                    (reads_value o.access && (is_arena_region a.region || elem root b.outputs)) p
                    root r.reads m;
              read = λ root' s.
                  let same : root ≡ root' = ok-injective (sym rooted ∙ s.rooted) in
                  let agree : a ≡ s.a =
                    some-injective (sym found ∙ ap (allocation_of b.allocations) same ∙ s.found) in
                  let shared : (is_arena_region a.region || elem root b.outputs) ≡ true =
                    subst
                      (λ (x : ValueAllocation).
                        (is_arena_region x.region || elem root b.outputs) ≡ true)
                      (sym agree)
                      (subst (λ n. (is_arena_region s.a.region || elem n b.outputs) ≡ true)
                        (sym same) s.shared) in
                  let reads' =
                    if reads_value o.access && (is_arena_region a.region || elem root b.outputs)
                    then r.reads ++ ((index, root) ∷ [])
                    else r.reads in
                  subst (λ (n : ℕ). In {A = ℕ × ℕ} (index, n) reads') same
                    (add_read (reads_value o.access)
                      (is_arena_region a.region || elem root b.outputs) root r.reads s.reading
                      shared);
              wrote =
                  λ root' w g. put_write (is_write o.access) root root' w r.writers rooted refl g;
            })
    where
      keep_read :
          (c : Bool) (p : ℕ × ℕ) (root : ℕ) (reads : List (ℕ × ℕ))
          → In p reads
          → In p (if c then reads ++ ((index, root) ∷ []) else reads)
      keep_read true p root reads m = In-append_left p reads ((index, root) ∷ []) m
      keep_read false p root reads m = m

      add_read :
          (c d : Bool) (root : ℕ) (reads : List (ℕ × ℕ))
          → c ≡ true
          → d ≡ true
          → In (index, root) (if c && d then reads ++ ((index, root) ∷ []) else reads)
      add_read true true root reads h k =
          In-append_right (index, root) reads ((index, root) ∷ []) (inl refl)
      add_read true false root reads h k = cc
      add_read false d root reads h k = cc

      put_write :
          (c : Bool) (root root' w : ℕ) (writers : List (ℕ × ℕ))
          → item b.roots o.value_id ≡ ok root
          → is_write o.access ≡ c
          → get (if c then put writers root index else writers) root' ≡ some w
          → (get writers root' ≡ some w) ⊎ ((w ≡ index) × Writes b.roots root' o)
      put_write false root root' w writers rooted writing g = inl g
      put_write true root root' w writers rooted writing g = elim (ℕ_discrete root root') [
        | yes same ↦ inr (ground arith, (writing, rooted ∙ ap ok same))
        | no other ↦ inl (ground arith)
      ]

  by_region :
      (covered : List ℕ) (o : CommandOperand) (root : ℕ) (a : ValueAllocation) (r : Requirements)
      {r' : Requirements} (g : AllocationRegion)
      → a.region ≡ g
      → item b.roots o.value_id ≡ ok root
      → allocation_of b.allocations root ≡ some a
      → (elim g as (λ _. Result Requirements) [
        | AllocationRegion.unused ↦ err validation_error
        | AllocationRegion.state ↦ require_state b index covered o root r
        | region ↦ require_value b index o root region r
      ])
        ≡ ok r'
      → IsRequired o r r'
  by_region covered o root a r AllocationRegion.unused at rooted found e = absurd (cc)
  by_region covered o root a r AllocationRegion.state at rooted found e =
      require_state-IsRequired covered o root a r rooted found (ap is_state_region at) e
  by_region covered o root a r AllocationRegion.external at rooted found e =
      require_value-IsRequired o root a r rooted found
        (ap (λ g. require_value b index o root g r) at ∙ e)
  by_region covered o root a r AllocationRegion.constant at rooted found e =
      require_value-IsRequired o root a r rooted found
        (ap (λ g. require_value b index o root g r) at ∙ e)
  by_region covered o root a r AllocationRegion.arena at rooted found e =
      require_value-IsRequired o root a r rooted found
        (ap (λ g. require_value b index o root g r) at ∙ e)
  by_region covered o root a r AllocationRegion.alias at rooted found e =
      require_value-IsRequired o root a r rooted found
        (ap (λ g. require_value b index o root g r) at ∙ e)

  or_key_error-some :
      (o : Option ValueAllocation) {a : ValueAllocation} → or_key_error o ≡ ok a → o ≡ some a
  or_key_error-some none e = cc
  or_key_error-some (some a) e = ap some (ok-injective e)

  require_operand-IsRequired :
      (covered : List ℕ) (r : Requirements) (o : CommandOperand) (r' : Requirements)
      → require_operand b index covered r o ≡ ok r'
      → IsRequired o r r'
  unfolding require_operand
  require_operand-IsRequired covered r o r' e =
      >>=-then (raise_if (leb (length b.roots) o.value_id) _) _ e λ _ _ e1.
        >>=-then (item b.roots o.value_id) _ e1 λ root rooted e2.
          >>=-then (or_key_error (allocation_of b.allocations root)) _ e2 λ a found rest.
            by_region covered o root a r a.region refl rooted (or_key_error-some _ found) rest

  -- What all operands of a command add.
  record AreRequired (os : List CommandOperand) (r r' : Requirements) : Type 0 where
    kept : (p : ℕ × ℕ) → In p r.reads → In p r'.reads
    read :
        All
          (λ o.
            (root : ℕ)
            → ReadsShared b.allocations b.roots b.outputs root o
            → In (index, root) r'.reads)
          os
    wrote :
        (root w : ℕ)
        → get r'.writers root ≡ some w
        → (get r.writers root ≡ some w)
          ⊎ ((w ≡ index) × ((o : CommandOperand) × In o os × Writes b.roots root o))

  operands-AreRequired :
      (covered : List ℕ) (os : List CommandOperand) (r r' : Requirements)
      → fold_result (require_operand b index covered) r os ≡ ok r'
      → AreRequired os r r'
  unfolding fold_result
  operands-AreRequired covered [] r r' e =
      subst (AreRequired [] r) (ok-injective e)
        (record { kept = λ p m. m; read = tt; wrote = λ root w g. inl g })
  operands-AreRequired covered (o ∷ os) r r' e =
      >>=-then (require_operand b index covered r o) _ e λ s first rest.
        let f = require_operand-IsRequired covered r o s first in
        let more = operands-AreRequired covered os s r' rest in
        record {
          kept = λ p m. more.kept p (f.kept p m);
          read = (λ root h. more.kept (index, root) (f.read root h), more.read);
          wrote = λ root w g. elim (more.wrote root w g) [
            | inr (here, (o', among, writes)) ↦ inr (here, (o', inr among, writes))
            | inl before ↦ elim (f.wrote root w before) [
              | inl old ↦ inl old
              | inr (here, writes) ↦ inr (here, (o, inl refl, writes))
            ]
          ];
        }

-- What the loop over the commands records.
pub record AreRecorded (b : Boundary) (index : ℕ) (records : List CommandPlacement)
    (r r' : Requirements) : Type 0 where
  pub kept : (p : ℕ × ℕ) → In p r.reads → In p r'.reads
  pub read :
      (k : ℕ) (p : CommandPlacement)
      → item records k ≡ ok p
      → All
          (λ o.
            (root : ℕ)
            → ReadsShared b.allocations b.roots b.outputs root o
            → In (index + k, root) r'.reads)
          p.command.operands
  pub wrote :
      (root w : ℕ)
      → get r'.writers root ≡ some w
      → (get r.writers root ≡ some w)
        ⊎ ((k : ℕ) × (w ≡ index + k) × WritesAt records b.roots k root)

pub require_all-AreRecorded :
    (b : Boundary) (index : ℕ) (r : Requirements) (records : List CommandPlacement)
    {r' : Requirements}
    → require_all b index r records ≡ ok r'
    → AreRecorded b index records r r'
unfolding require_all item
require_all-AreRecorded b index r [] e =
    subst (AreRecorded b index [] r) (ok-injective e)
      (record { kept = λ p m. m; read = λ k p f. absurd (cc); wrote = λ root w g. inl g })
require_all-AreRecorded b index r (p ∷ rest) {r'} e =
    >>=-then (raise_if (not (all_of (λ i. ltb i (length b.schedule.ops)) p.covered)) _) _ e
      λ _ _ e1.
        >>=-then (fold_result (require_operand b index p.covered) r p.command.operands) _ e1
          λ s first later.
            let f = operands-AreRequired b index p.covered p.command.operands r s first in
            let more = require_all-AreRecorded b (index + 1) s rest later in
            record {
              kept = λ q m. more.kept q (f.kept q m);
              read = λ k q at.
                  at_position b index p rest r' k q at
                    (All-imp _ _ p.command.operands
                      (λ o g root h. more.kept (index, root) (g root h)) f.read)
                    more.read;
              wrote = λ root w g. elim (more.wrote root w g) [
                | inr (k, same, writes) ↦ inr (suc k, omega arith, writes)
                | inl before ↦ elim (f.wrote root w before) [
                  | inl old ↦ inl old
                  | inr (here, writes) ↦ inr (zero, omega arith, (p, refl, writes))
                ]
              ];
            }
  where
    at_position :
        (b : Boundary) (index : ℕ) (p : CommandPlacement) (rest : List CommandPlacement)
        (r' : Requirements) (k : ℕ) (q : CommandPlacement)
        → item (p ∷ rest) k ≡ ok q
        → All
            (λ o.
              (root : ℕ)
              → ReadsShared b.allocations b.roots b.outputs root o
              → In (index, root) r'.reads)
            p.command.operands
        → ((k : ℕ) (q : CommandPlacement)
            → item rest k ≡ ok q
            → All
                (λ o.
                  (root : ℕ)
                  → ReadsShared b.allocations b.roots b.outputs root o
                  → In (index + 1 + k, root) r'.reads)
                q.command.operands)
        → All
            (λ o.
              (root : ℕ)
              → ReadsShared b.allocations b.roots b.outputs root o
              → In (index + k, root) r'.reads)
            q.command.operands
    at_position b index p rest r' zero q at here more =
        let same : p ≡ q = ok-injective at in
        let position : index ≡ index + 0 = omega arith in
        subst
          (λ (q : CommandPlacement).
            All
              (λ o.
                (root : ℕ)
                → ReadsShared b.allocations b.roots b.outputs root o
                → In (index + 0, root) r'.reads)
              q.command.operands)
          same
          (All-imp _ _ p.command.operands
            (λ o g root h. subst (λ (n : ℕ). In (n, root) r'.reads) position (g root h)) here)
    at_position b index p rest r' (suc k) q at here more =
        let position : index + 1 + k ≡ index + suc k = omega arith in
        All-imp _ _ q.command.operands
          (λ o g root h. subst (λ (n : ℕ). In (n, root) r'.reads) position (g root h)) (more k q at)
