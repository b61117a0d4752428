-- ===== src/Assemble/Roots.antt =====
-- The walk along the aliases of a plan ends, at a value that is no alias.
use ag_infer.Prelude.{
  ℕ, zero, suc, ◌<◌, ◌≡◌, refl, inl, inr, Bool, true, false, some, List, [], ◌∷◌, map, arith, ◌==◌,
  length, elem, Result, ok, err, validation_error, Bool-cases, Option-cases, ◌⊎◌,
}
use ag_infer.Memory.{get, AllocationRegion, ValueAllocation}
use ag_infer.Memory.Roots.{unvisited, unvisited-lt, unvisited-length}
use ag_infer.Assemble.{allocation_of, find_alias_root}

-- Each allocation of a plan, under its value.
abbrev entries : List ValueAllocation → List (ℕ × ℕ)
entries = map (λ a. (a.value_id, 0))

get-entries :
    (allocations : List ValueAllocation) (v : ℕ) {a : ValueAllocation}
    → allocation_of allocations v ≡ some a
    → get (entries allocations) v ≡ some 0
unfolding get allocation_of
get-entries [] v e = cc
get-entries (b ∷ rest) v {a} e = elim (Bool-cases (b.value_id == v)) [
  | inl same ↦ rw same refl
  | inr other ↦ rw other (elim (Option-cases (allocation_of rest v)) [
    | inl n ↦ absurd (let failed = rw (n, other) at e in cc)
    | inr (c, later) ↦ get-entries rest v later
  ])
]

abbrev pub is_alias : AllocationRegion → Bool
is_alias AllocationRegion.alias = true
is_alias _ = false

-- From a value along the aliases of a plan to a value that is no alias.
pub data AliasPath (allocations : List ValueAllocation) : ℕ → ℕ → Type 0 where
  root :
      {v : ℕ} (a : ValueAllocation)
      → allocation_of allocations v ≡ some a
      → is_alias a.region ≡ false
      → AliasPath allocations v v
  next :
      {v w r : ℕ} (a : ValueAllocation)
      → allocation_of allocations v ≡ some a
      → is_alias a.region ≡ true
      → a.alias_of ≡ some w
      → AliasPath allocations w r
      → AliasPath allocations v r

abbrev Ends : List ValueAllocation → ℕ → Result ℕ → Type 0
Ends allocations v result =
    ((r : ℕ) × (result ≡ ok r) × AliasPath allocations v r) ⊎ (result ≡ err validation_error)

length-entries :
    (allocations : List ValueAllocation) → length (entries allocations) ≡ length allocations
length-entries [] = refl
length-entries (a ∷ rest) = omega (arith, length-entries rest)

-- The walk stops at a value that is no alias.
find_alias_root-root :
    (allocations : List ValueAllocation) (fuel : ℕ) (seen : List ℕ) (v : ℕ) (a : ValueAllocation)
    → allocation_of allocations v ≡ some a
    → (g : AllocationRegion) → a.region ≡ g
    → is_alias g ≡ false
    → find_alias_root allocations (suc fuel) seen v ≡ ok v
unfolding find_alias_root
find_alias_root-root allocations fuel seen v a found AllocationRegion.unused at n =
    rw (found, find_alias_root, at) refl
find_alias_root-root allocations fuel seen v a found AllocationRegion.external at n =
    rw (found, find_alias_root, at) refl
find_alias_root-root allocations fuel seen v a found AllocationRegion.constant at n =
    rw (found, find_alias_root, at) refl
find_alias_root-root allocations fuel seen v a found AllocationRegion.state at n =
    rw (found, find_alias_root, at) refl
find_alias_root-root allocations fuel seen v a found AllocationRegion.arena at n =
    rw (found, find_alias_root, at) refl
find_alias_root-root allocations fuel seen v a found AllocationRegion.alias at n = cc

-- The walk at an alias.
find_alias_root-alias :
    (allocations : List ValueAllocation) (fuel : ℕ) (seen : List ℕ) (v : ℕ) (a : ValueAllocation)
    → allocation_of allocations v ≡ some a
    → (g : AllocationRegion) → a.region ≡ g
    → is_alias g ≡ true
    → ((w : ℕ)
        → elem v seen ≡ false
        → Ends allocations w (find_alias_root allocations fuel (v ∷ seen) w))
    → Ends allocations v (find_alias_root allocations (suc fuel) seen v)
unfolding find_alias_root
find_alias_root-alias allocations fuel seen v a found AllocationRegion.unused at t later = cc
find_alias_root-alias allocations fuel seen v a found AllocationRegion.external at t later = cc
find_alias_root-alias allocations fuel seen v a found AllocationRegion.constant at t later = cc
find_alias_root-alias allocations fuel seen v a found AllocationRegion.state at t later = cc
find_alias_root-alias allocations fuel seen v a found AllocationRegion.arena at t later = cc
find_alias_root-alias allocations fuel seen v a found AllocationRegion.alias at t later =
    elim (Option-cases a.alias_of) [
      | inl n ↦ inr (rw (found, find_alias_root, at, n) refl)
      | inr (w, target) ↦ elim (Bool-cases (elem v seen)) [
        | inl cyclic ↦ inr (rw (found, find_alias_root, at, target, cyclic) refl)
        | inr fresh ↦
            rw (found, find_alias_root, at, target, fresh)
              (elim (later w fresh) [
                | inl (r, e, p) ↦ inl (r, e, next a found (rw at refl) target p)
                | inr e ↦ inr e
              ])
      ]
    ]

find_alias_root-fuel :
    (allocations : List ValueAllocation) (fuel : ℕ) (seen : List ℕ) (v : ℕ)
    → unvisited (entries allocations) seen < fuel
    → Ends allocations v (find_alias_root allocations fuel seen v)
unfolding find_alias_root
find_alias_root-fuel allocations zero seen v h = absurd (omega arith)
find_alias_root-fuel allocations (suc fuel) seen v h =
    elim (Option-cases (allocation_of allocations v)) [
      | inl n ↦ inr (rw (n, find_alias_root) refl)
      | inr (a, found) ↦ elim (Bool-cases (is_alias a.region)) [
        | inl t ↦ find_alias_root-alias allocations fuel seen v a found a.region refl t (λ w fresh.
            let fewer =
              unvisited-lt (entries allocations) seen v (get-entries allocations v found) fresh in
            find_alias_root-fuel allocations fuel (v ∷ seen) w (omega arith))
        | inr n ↦ inl (
          v,
          find_alias_root-root allocations fuel seen v a found a.region refl n,
          root a found n,
        )
      ]
    ]

-- The steps that the walk along the aliases of a plan is given are enough for every list of
-- allocations, cyclic ones included: the walk returns the value at the end of the aliases, whose
-- allocation is no alias, or reports a ValidationError.
pub find_alias_root-ends :
    (allocations : List ValueAllocation) (v : ℕ)
    → ((r : ℕ) × (find_alias_root allocations (suc (suc (length allocations))) [] v ≡ ok r)
        × AliasPath allocations v r)
      ⊎ (find_alias_root allocations (suc (suc (length allocations))) [] v ≡ err validation_error)
find_alias_root-ends allocations v =
    find_alias_root-fuel allocations (suc (suc (length allocations))) [] v (
      let bound = unvisited-length (entries allocations) in
      let same = length-entries allocations in omega arith)
