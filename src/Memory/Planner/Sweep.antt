-- ===== src/Memory/Planner/Sweep.antt =====
-- The sweep of `_verify_memory_plan` over the intervals in the order of their starts.
use ag_infer.Prelude.{
  ℕ, ◌≤◌, ◌<◌, ◌≡◌, refl, inl, inr, ◌⊎◌, false, List, [], ◌∷◌, ◌++◌, arith, leb, filter_by, All,
  All-append, All-imp, In, In-append_left, In-append_right, Pairwise, Pairwise-snoc, append_assoc,
  ok, raise_if, raise_if-eq-ok, >>=-eq-ok, Bool-cases, sorted, insert_sorted, append-nil,
}
use ag_infer.Arena.{overlap}
use ag_infer.Memory.{LivenessInterval}
use ag_infer.Memory.Planner.{interval_leb, collides, sweep}

-- Intervals whose lifetimes meet share no byte.
abbrev pub Apart : LivenessInterval → LivenessInterval → Type 0
Apart a b =
    b.start ≤ a.end
    → a.start ≤ b.end
    → overlap a.offset a.allocation_bytes b.offset b.allocation_bytes ≡ false

abbrev pub Ascending : ℕ → List LivenessInterval → Type 0
Ascending now [] = Unit
Ascending now (i ∷ rest) = (now ≤ i.start) × Ascending i.start rest

Ascending-insert :
    (now : ℕ) (i : LivenessInterval) (is : List LivenessInterval)
    → now ≤ i.start
    → Ascending now is
    → Ascending now (insert_sorted interval_leb i is)
unfolding insert_sorted
Ascending-insert now i [] h a = (h, tt)
Ascending-insert now i (j ∷ js) h a = elim (Bool-cases (interval_leb i j)) [
  | inl t ↦ rw t (h, (ground arith, a.1))
  | inr n ↦ rw n (a.0, Ascending-insert j.start i js (ground arith) a.1)
]

pub sorted-Ascending : (is : List LivenessInterval) → Ascending 0 (sorted interval_leb is)
unfolding sorted
sorted-Ascending [] = tt
sorted-Ascending (i ∷ is) =
    Ascending-insert 0 i (sorted interval_leb is) (omega arith) (sorted-Ascending is)

-- An interval that was passed is over, or it is among the live ones.
abbrev pub Tracked : ℕ → List LivenessInterval → LivenessInterval → Type 0
Tracked now active a = (a.end < now) ⊎ In a active

filter-In :
    (now : ℕ) (a : LivenessInterval) (active : List LivenessInterval)
    → In a active
    → (a.end < now) ⊎ In a (filter_by (λ b. leb now b.end) active)
unfolding filter_by
filter-In now a [] m = absurd m
filter-In now a (b ∷ rest) (inl e) = elim (Bool-cases (leb now b.end)) [
  | inl t ↦ inr (rw t (inl e))
  | inr n ↦ inl (rw e (ground arith))
]
filter-In now a (b ∷ rest) (inr m) = elim (filter-In now a rest m) [
  | inl d ↦ inl d
  | inr r ↦ inr (elim (Bool-cases (leb now b.end)) [ inl t ↦ rw t (inr r) | inr n ↦ rw n r ])
]

collides-In :
    (i a : LivenessInterval) (active : List LivenessInterval)
    → collides i active ≡ false
    → In a active
    → overlap i.offset i.allocation_bytes a.offset a.allocation_bytes ≡ false
unfolding collides
collides-In i a [] h m = absurd m
collides-In i a (b ∷ rest) h (inl e) = rw e (ground arith)
collides-In i a (b ∷ rest) h (inr m) = collides-In i a rest (ground arith) m

Tracked-Apart :
    (i a : LivenessInterval) (live : List LivenessInterval)
    → collides i live ≡ false
    → Tracked i.start live a
    → Apart a i
Tracked-Apart i a live clear (inl d) = λ meets _. absurd (omega arith)
Tracked-Apart i a live clear (inr m) =
    λ _ _. let free_of = collides-In i a live clear m in ground arith

keep-Tracked :
    (now start : ℕ) (active : List LivenessInterval) (a : LivenessInterval)
    → now ≤ start
    → Tracked now active a
    → Tracked start (filter_by (λ b. leb start b.end) active) a
keep-Tracked now start active a h (inl d) = inl (omega arith)
keep-Tracked now start active a h (inr m) = filter-In start a active m

snoc-Tracked :
    (now : ℕ) (active : List LivenessInterval) (i a : LivenessInterval)
    → Tracked now active a
    → Tracked now (active ++ (i ∷ [])) a
snoc-Tracked now active i a (inl d) = inl d
snoc-Tracked now active i a (inr m) = inr (In-append_left a active _ m)

pub sweep-Apart :
    (now : ℕ) (active earlier rest : List LivenessInterval) {u : Unit {0}}
    → All (Tracked now active) earlier
    → Pairwise Apart earlier
    → Ascending now rest
    → sweep active rest ≡ ok u
    → Pairwise Apart (earlier ++ rest)
unfolding sweep
sweep-Apart now active earlier [] t p a e = rw append-nil p
sweep-Apart now active earlier (i ∷ rest) t p a e =
    let live = filter_by (λ b. leb i.start b.end) active in
    let (_, clear, more) = >>=-eq-ok (raise_if (collides i live) _) _ e in
    let kept =
      All-imp (Tracked now active) (Tracked i.start live) earlier
        (λ b. keep-Tracked now i.start active b a.0) t in
    let apart =
      All-imp (Tracked i.start live) (λ b. Apart b i) earlier
        (λ b. Tracked-Apart i b live (raise_if-eq-ok _ _ clear)) kept in
    let tracked =
      All-append (Tracked i.start (live ++ (i ∷ []))) earlier (i ∷ [])
        (All-imp (Tracked i.start live) _ earlier (λ b. snoc-Tracked i.start live i b) kept)
        (inr (In-append_right i live _ (inl refl)), tt) in
    rw (← append_assoc earlier (i ∷ []) rest) (
      sweep-Apart i.start (live ++ (i ∷ [])) (earlier ++ (i ∷ [])) rest tracked
        (Pairwise-snoc Apart earlier i p apart) a.1 more)
