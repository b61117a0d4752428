-- ===== src/Views/Axes.antt =====
-- Strictly increasing axes: what the test by `sorted` and `set` says, and which axes of the result of
-- a broadcast are long.
use ag_infer.Prelude.{
  ℕ, zero, suc, ◌+◌, ◌≤◌, ◌<◌, ◌≡◌, refl, ap, inl, inr, Bool, true, false, List, [], ◌∷◌, arith,
  leb, ◌==◌, if◌then◌else◌, length, range, filter_by, all_of, elem, distinct, sorted, insert_sorted,
  Bool-cases, All, All-imp,
}
use native.Mathlib.Decide.{ℕ_discrete}

-- Each element is at least the one before it, and the first at least `s`.
abbrev Ascending : ℕ → List ℕ → Type 0
Ascending s [] = Unit
Ascending s (x ∷ xs) = (s ≤ x) × Ascending x xs

-- The same, strictly.
abbrev pub Increasing : ℕ → List ℕ → Type 0
Increasing s [] = Unit
Increasing s (x ∷ xs) = (s ≤ x) × Increasing (x + 1) xs

Ascending-insert :
    (s x : ℕ) (xs : List ℕ) → s ≤ x → Ascending s xs → Ascending s (insert_sorted leb x xs)
unfolding insert_sorted
Ascending-insert s x [] h a = (h, tt)
Ascending-insert s x (y ∷ ys) h a = elim (Bool-cases (leb x y)) [
  | inl t ↦ rw t (h, (ground arith, a.1))
  | inr n ↦ rw n (a.0, Ascending-insert y x ys (ground arith) a.1)
]

sorted-Ascending : (xs : List ℕ) → Ascending 0 (sorted leb xs)
unfolding sorted
sorted-Ascending [] = tt
sorted-Ascending (x ∷ xs) = Ascending-insert 0 x (sorted leb xs) (omega arith) (sorted-Ascending xs)

length-distinct-le : (xs : List ℕ) → length (distinct xs) ≤ length xs
unfolding distinct
length-distinct-le [] = omega arith
length-distinct-le (x ∷ xs) = ground (arith, length-distinct-le xs)

Ascending-Increasing :
    (s : ℕ) (xs : List ℕ) → Ascending s xs → length (distinct xs) ≡ length xs → Increasing s xs
unfolding distinct elem
Ascending-Increasing s [] a d = tt
Ascending-Increasing s (x ∷ []) a d = (a.0, tt)
Ascending-Increasing s (x ∷ y ∷ ys) a d =
    let below = length-distinct-le (y ∷ ys) in
    let rest = Ascending-Increasing x (y ∷ ys) a.1 (ground arith) in (a.0, (ground arith, rest.1))

-- The test of the planner on `broadcast_dimensions`.
pub sorted-distinct-Increasing :
    (xs : List ℕ) → sorted leb xs ≡ xs → length (distinct xs) ≡ length xs → Increasing 0 xs
sorted-distinct-Increasing xs s d = Ascending-Increasing 0 xs (rw s at (sorted-Ascending xs)) d

Increasing-elem : (a s : ℕ) (xs : List ℕ) → Increasing s xs → a < s → elem a xs ≡ false
unfolding elem
Increasing-elem a s [] h l = refl
Increasing-elem a s (x ∷ xs) h l = ground (arith, Increasing-elem a (x + 1) xs h.1 (omega arith))

pub all_of-range :
    (test : ℕ → Bool) (start count a : ℕ)
    → all_of test (range start count) ≡ true
    → start ≤ a
    → a < start + count
    → test a ≡ true
unfolding all_of range
all_of-range test start zero a h lo hi = absurd (omega arith)
all_of-range test start (suc count) a h lo hi = elim (Bool-cases (start == a)) [
  | inl t ↦ ground arith
  | inr n ↦ all_of-range test (start + 1) count a (ground arith) (ground arith) (omega arith)
]

-- Where every axis that is not mapped is short, the long axes are the long mapped ones, in order.
pub long-mapped :
    (long : ℕ → Bool) (start count : ℕ) (axes : List ℕ)
    → Increasing start axes
    → All (λ a. a < start + count) axes
    → ((a : ℕ) → start ≤ a → a < start + count → elem a axes ≡ false → long a ≡ false)
    → filter_by long (range start count) ≡ filter_by long axes
unfolding filter_by range elem
long-mapped long start zero [] i b h = refl
long-mapped long start zero (x ∷ xs) i b h = absurd (omega arith)
long-mapped long start (suc count) [] i b h =
    rw (h start (omega arith) (omega arith) refl)
      (long-mapped long (start + 1) count [] tt tt (λ a lo hi n. h a (omega arith) (omega arith) n))
long-mapped long start (suc count) (x ∷ xs) i b h = elim (ℕ_discrete start x) [
  | yes e ↦
      let rest =
        long-mapped long (start + 1) count xs (rw (← e) at i.1)
          (All-imp _ _ xs (λ a p. omega arith) b.1)
          (λ a lo hi n. h a (omega arith) (omega arith) (ground arith)) in
      rw (← e) (ap (λ l. if long start then start ∷ l else l) rest)
  | no e ↦
      let others : elem start xs ≡ false = Increasing-elem start (x + 1) xs i.1 (omega arith) in
      rw (h start (omega arith) (omega arith) (ground arith)) (
        long-mapped long (start + 1) count (x ∷ xs) (omega arith, i.1)
          ((omega arith, All-imp _ _ xs (λ a p. omega arith) b.1))
          (λ a lo hi n. h a (omega arith) (omega arith) n))
]
