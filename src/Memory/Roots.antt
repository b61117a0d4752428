-- ===== src/Memory/Roots.antt =====
-- The walk along the aliases ends, at a value that is no alias.
use ag_infer.Prelude.{
  ℕ, zero, suc, ◌≤◌, ◌<◌, ◌≡◌, refl, inl, inr, true, false, not, none, some, List, [], ◌∷◌, arith,
  length, elem, filter_by, Result, ok, err, validation_error, Bool-cases, Option-cases, ◌⊎◌,
}
use native.Mathlib.Decide.{ℕ_discrete}
use ag_infer.Memory.{get, find_root}

-- From a value along the aliases to a value that is no alias.
pub data AliasPath (aliases : List (ℕ × ℕ)) : ℕ → ℕ → Type 0 where
  root : {v : ℕ} → get aliases v ≡ none → AliasPath aliases v v
  next : {v w r : ℕ} → get aliases v ≡ some w → AliasPath aliases w r → AliasPath aliases v r

-- The entries whose keys were not passed.
pub unvisited : List (ℕ × ℕ) → List ℕ → ℕ
unvisited aliases visited = length (filter_by (λ e. not (elem e.0 visited)) aliases)

unvisited-le :
    (aliases : List (ℕ × ℕ)) (visited : List ℕ) (v : ℕ)
    → unvisited aliases (v ∷ visited) ≤ unvisited aliases visited
unfolding unvisited filter_by elem
unvisited-le [] visited v = omega arith
unvisited-le ((k, w) ∷ rest) visited v = ground (arith, unvisited-le rest visited v)

pub unvisited-lt :
    (aliases : List (ℕ × ℕ)) (visited : List ℕ) (v : ℕ) {w : ℕ}
    → get aliases v ≡ some w
    → elem v visited ≡ false
    → unvisited aliases (v ∷ visited) < unvisited aliases visited
unfolding unvisited filter_by elem get
unvisited-lt [] visited v e n = cc
unvisited-lt ((k, x) ∷ rest) visited v {w} e n = elim (ℕ_discrete k v) [
  | yes same ↦ rw same (ground (arith, unvisited-le rest visited v))
  | no other ↦ ground (arith, unvisited-lt rest visited v {w = w} (ground arith) n)
]

pub unvisited-length : (aliases : List (ℕ × ℕ)) → unvisited aliases [] ≤ length aliases
unfolding unvisited filter_by elem
unvisited-length [] = omega arith
unvisited-length (e ∷ rest) = omega (arith, unvisited-length rest)

-- One or more steps along the aliases.
pub data Leads (aliases : List (ℕ × ℕ)) : ℕ → ℕ → Type 0 where
  step : {v w : ℕ} → get aliases v ≡ some w → Leads aliases v w
  further : {v w u : ℕ} → Leads aliases v w → get aliases w ≡ some u → Leads aliases v u

-- A value from which the aliases run into a cycle.
pub data RunsIntoCycle (aliases : List (ℕ × ℕ)) : ℕ → Type 0 where
  on_cycle : {v : ℕ} → Leads aliases v v → RunsIntoCycle aliases v
  before_cycle :
      {v w : ℕ} → get aliases v ≡ some w → RunsIntoCycle aliases w → RunsIntoCycle aliases v

-- What the walk may end with.
abbrev Ends : List (ℕ × ℕ) → ℕ → Result ℕ → Type 0
Ends aliases v result =
    ((r : ℕ) × (result ≡ ok r) × AliasPath aliases v r)
    ⊎ ((result ≡ err validation_error) × RunsIntoCycle aliases v)

-- The walk came from each value that it passed.
abbrev CameFrom : List (ℕ × ℕ) → List ℕ → ℕ → Type 0
CameFrom aliases visited v = (u : ℕ) → elem u visited ≡ true → Leads aliases u v

CameFrom-next :
    (aliases : List (ℕ × ℕ)) (visited : List ℕ) (v w : ℕ)
    → CameFrom aliases visited v
    → get aliases v ≡ some w
    → CameFrom aliases (v ∷ visited) w
unfolding elem
CameFrom-next aliases visited v w came g u m = elim (ℕ_discrete u v) [
  | yes same ↦ rw same (step g)
  | no other ↦ further (came u (ground arith)) g
]

find_root-fuel :
    (aliases : List (ℕ × ℕ)) (fuel : ℕ) (visited : List ℕ) (v : ℕ)
    → unvisited aliases visited < fuel
    → CameFrom aliases visited v
    → Ends aliases v (find_root aliases fuel visited v)
unfolding find_root
find_root-fuel aliases zero visited v h came = absurd (omega arith)
find_root-fuel aliases (suc fuel) visited v h came = elim (Option-cases (get aliases v)) [
  | inl n ↦ inl (v, rw (n, find_root), root n)
  | inr (w, g) ↦ elim (Bool-cases (elem v visited)) [
    | inl t ↦ inr (rw (g, find_root, t) refl, on_cycle (came v t))
    | inr n ↦
        let fewer = unvisited-lt aliases visited v g n in
        rw (g, find_root, n)
          (elim (find_root-fuel aliases fuel (v ∷ visited) w (omega arith)
            (CameFrom-next aliases visited v w came g)) [
              | inl (r, e, p) ↦ inl (r, e, next g p)
              | inr (e, c) ↦ inr (e, before_cycle g c)
            ])
  ]
]

nothing_visited : (aliases : List (ℕ × ℕ)) (v : ℕ) → CameFrom aliases [] v
unfolding elem
nothing_visited aliases v u m = cc

-- The steps that the walk is given are enough on every alias graph. It returns the value at the end of
-- the aliases; or it raises ValidationError, and then the aliases run into a cycle: they lead from the
-- value, in any number of steps, to one from which they lead back to itself.
pub find_root-ends :
    (aliases : List (ℕ × ℕ)) (v : ℕ)
    → ((r : ℕ) × (find_root aliases (suc (suc (length aliases))) [] v ≡ ok r)
        × AliasPath aliases v r)
      ⊎ ((find_root aliases (suc (suc (length aliases))) [] v ≡ err validation_error)
          × RunsIntoCycle aliases v)
find_root-ends aliases v =
    find_root-fuel aliases (suc (suc (length aliases))) [] v
      (omega (arith, unvisited-length aliases)) (nothing_visited aliases v)
