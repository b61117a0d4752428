-- ===== src/Prelude/Sort.antt =====
-- `sorted`, for a total order that is given as a Boolean test. On integers and on tuples of integers
-- every sorting algorithm returns the same list.
use Prim.Native.Nat.{ℕ, ◌+◌}
use mathlib.Core.Path.{◌≡◌, refl}
use mathlib.Core.Logic.{inl, inr}
use mathlib.Core.Bool.{Bool}
use mathlib.Core.List.{List, [], ◌∷◌}
use native.Mathlib.Omega.{arith}
use ag_infer.Prelude.Tests.{if◌then◌else◌, Bool-cases}
use ag_infer.Prelude.Lists.{sum_by, All}

module _ {A : Type 0} (le : A → A → Bool) where
  unfoldable pub insert_sorted : A → List A → List A
  insert_sorted x [] = x ∷ []
  insert_sorted x (y ∷ ys) = if le x y then x ∷ y ∷ ys else y ∷ insert_sorted x ys

  unfoldable pub sorted : List A → List A
  unfolding insert_sorted
  sorted [] = []
  sorted (x ∷ xs) = insert_sorted x (sorted xs)

module _ {A : Type 0} (le : A → A → Bool) (f : A → ℕ) where
  sum_by-insert : (x : A) (xs : List A) → sum_by f (insert_sorted le x xs) ≡ f x + sum_by f xs
  unfolding insert_sorted
  sum_by-insert x [] = refl
  sum_by-insert x (y ∷ ys) = ground (arith, sum_by-insert x ys)

  pub sum_by-sorted : (xs : List A) → sum_by f (sorted le xs) ≡ sum_by f xs
  unfolding sorted
  sum_by-sorted [] = refl
  sum_by-sorted (x ∷ xs) = omega (arith, sum_by-insert x (sorted le xs), sum_by-sorted xs)

module _ {κ} {A : Type 0} (P : A → Type κ) (le : A → A → Bool) where
  All-insert : (x : A) (xs : List A) → P x → All P xs → All P (insert_sorted le x xs)
  unfolding insert_sorted
  All-insert x [] h a = (h, tt)
  All-insert x (y ∷ ys) h a = elim (Bool-cases (le x y)) [
    | inl t ↦ rw t (h, a)
    | inr n ↦ rw n (a.0, All-insert x ys h a.1)
  ]

  pub All-sorted : (xs : List A) → All P xs → All P (sorted le xs)
  unfolding sorted
  All-sorted [] a = tt
  All-sorted (x ∷ xs) a = All-insert x (sorted le xs) a.0 (All-sorted xs a.1)
