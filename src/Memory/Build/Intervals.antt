-- ===== src/Memory/Build/Intervals.antt =====
-- The blocks that `build_memory_plan` gives to temporaries: each is the one of an interval.
use ag_infer.Prelude.{
  ℕ, ◌≡◌, refl, sym, ap, ◌∙◌, subst, true, Option, none, some, List, [], ◌∷◌, In, inl, inr, arith,
  ok, ◌==◌, >>=-then, >>=-eq-ok, traverse, All, ok-injective, some-injective, Option-cases,
  Bool-cases,
}
use ag_infer.Schedule.{ValueStorage, ScheduledValue, item}
use ag_infer.Memory.{get, AllocationRegion, ValueAllocation, LivenessInterval, or_key_error}
use ag_infer.Memory.Build.{Tables, Materialized, owned, interval_by_value, allocate_root, allocate}

pub or_key_error-some : {A : Type 0} (o : Option A) {a : A} → or_key_error o ≡ ok a → o ≡ some a
or_key_error-some none e = cc
or_key_error-some (some a) e = ap some (ok-injective e)

-- The allocation of a value: a block of the arena, the one of an interval of the value.
pub record IsPlaced (intervals : List LivenessInterval) (allocations : List ValueAllocation)
    (value_id : ℕ) : Type 0 where
  pub allocation : ValueAllocation
  pub allocated : In allocation allocations
  pub named : allocation.value_id ≡ value_id
  pub region : allocation.region ≡ AllocationRegion.arena
  pub interval : LivenessInterval
  pub listed : In interval intervals
  pub called : interval.value_id ≡ value_id
  pub offset : allocation.offset ≡ some interval.offset
  pub size : allocation.allocation_bytes ≡ some interval.allocation_bytes

-- A temporary that is its own root and no materialized literal.
abbrev pub NeedsArena : List ℕ → Materialized → ScheduledValue → Type 0
NeedsArena roots m value =
    (value.storage ≡ ValueStorage.temporary)
    × (item roots value.value_id ≡ ok value.value_id)
    × (get m.by_value value.value_id ≡ none)

interval_by_value-In :
    (intervals : List LivenessInterval) (value_id : ℕ) {i : LivenessInterval}
    → interval_by_value intervals value_id ≡ some i
    → In i intervals × (i.value_id ≡ value_id)
unfolding interval_by_value
interval_by_value-In [] value_id e = absurd (ground arith)
interval_by_value-In (first ∷ rest) value_id {i} e =
    elim (Option-cases (interval_by_value rest value_id)) [
      | inl n ↦ elim (Bool-cases (first.value_id == value_id)) [
        | inl t ↦
            let same : first ≡ i = some-injective (rw (n, t) at e) in
            let called : first.value_id ≡ value_id = ground arith in
            (inl (sym same), ap (λ x. x.value_id) (sym same) ∙ called)
        | inr f ↦ absurd (ground arith)
      ]
      | inr (later, l) ↦
          let (m, named) = interval_by_value-In rest value_id (l ∙ (rw l at e)) in (inr m, named)
    ]

allocate-IsPlaced :
    (t : Tables) (value : ScheduledValue) (allocations : List ValueAllocation) {a : ValueAllocation}
    → NeedsArena t.roots t.materialized value
    → allocate t value ≡ ok a
    → In a allocations
    → IsPlaced t.intervals allocations value.value_id
unfolding allocate allocate_root
allocate-IsPlaced t value allocations (temporary, root, unmaterialized) e m =
    let e1 = rw (root, allocate) at e in
    >>=-then (item t.byte_sizes value.value_id) _ e1 λ bytes _ e2.
      let itself : value.value_id == value.value_id ≡ true = ground arith in
      let e3 = rw (itself, temporary, allocate_root, unmaterialized) at e2 in
      >>=-then (or_key_error (interval_by_value t.intervals value.value_id)) _ e3 λ i found done.
        let (listed, called) =
          interval_by_value-In t.intervals value.value_id (or_key_error-some _ found) in
        record {
          allocation =
              owned value.value_id AllocationRegion.arena bytes i.offset i.allocation_bytes;
          allocated = subst (λ a. In a allocations) (sym (ok-injective done)) m;
          named = refl;
          region = refl;
          interval = i;
          listed = listed;
          called = called;
          offset = refl;
          size = refl;
        }

-- What is allocated holds each temporary that needs the arena.
pub allocations-ArePlaced :
    (t : Tables) (values : List ScheduledValue) (allocations : List ValueAllocation)
    {made : List ValueAllocation}
    → traverse (allocate t) values ≡ ok made
    → ((a : ValueAllocation) → In a made → In a allocations)
    → All
        (λ v. NeedsArena t.roots t.materialized v → IsPlaced t.intervals allocations v.value_id)
        values
unfolding traverse
allocations-ArePlaced t [] allocations e within = tt
allocations-ArePlaced t (v ∷ values) allocations e within =
    let (a, first, e1) = >>=-eq-ok (allocate t v) _ e in
    let (rest, more, done) = >>=-eq-ok (traverse (allocate t) values) _ e1 in
    let all_within = rw (sym (ok-injective done)) at within in
    (
      (λ needs. allocate-IsPlaced t v allocations needs first (all_within a (inl refl))),
      allocations-ArePlaced t values allocations more (λ b m. all_within b (inr m)),
    )
