-- ===== src/Prelude/Sets.antt =====
-- Membership in lists of numbers that stand for sets.
use Prim.Native.Nat.{ℕ}
use mathlib.Core.Path.{◌≡◌, refl, sym, subst, ◌∙◌}
use mathlib.Core.Logic.{inl, inr}
use mathlib.Core.Bool.{Bool, true, ◌||◌}
use mathlib.Core.List.{List, [], ◌∷◌, ◌++◌}
use native.Mathlib.Omega.{arith}
use ag_infer.Prelude.Tests.{◌==◌, Bool-cases, ==_iff}
use ag_infer.Prelude.Lists.{All, elem, distinct, all_of}
use ag_infer.Prelude.Sort.{insert_sorted, sorted}

pub elem-append : (i : ℕ) (xs ys : List ℕ) → elem i (xs ++ ys) ≡ (elem i xs || elem i ys)
unfolding elem
elem-append i [] ys = refl
elem-append i (x ∷ xs) ys = ground (arith, elem-append i xs ys)

pub elem-distinct : (i : ℕ) (xs : List ℕ) → elem i (distinct xs) ≡ elem i xs
unfolding distinct elem
elem-distinct i [] = refl
elem-distinct i (x ∷ xs) = elim (Bool-cases (elem x xs)) [
  | inl t ↦ elim (Bool-cases (i == x)) [
    | inl same ↦
        let e : i ≡ x = (==_iff i x).0 same in
        let h : elem i xs ≡ true = rw e t in rw (t, same) (elem-distinct i xs ∙ h)
    | inr other ↦ rw (t, other) (elem-distinct i xs)
  ]
  | inr n ↦ rw n (ground (arith, elem-distinct i xs))
]

module _ (le : ℕ → ℕ → Bool) where
  elem-insert : (i x : ℕ) (xs : List ℕ) → elem i (insert_sorted le x xs) ≡ ((i == x) || elem i xs)
  unfolding insert_sorted elem
  elem-insert i x [] = refl
  elem-insert i x (y ∷ ys) = ground (arith, elem-insert i x ys)

  pub elem-sorted : (i : ℕ) (xs : List ℕ) → elem i (sorted le xs) ≡ elem i xs
  unfolding sorted elem
  elem-sorted i [] = refl
  elem-sorted i (x ∷ xs) = ground (arith, elem-insert i x (sorted le xs), elem-sorted i xs)

module _ {A : Type 0} where
  pub all_of-All :
      (test : A → Bool) (xs : List A) → all_of test xs ≡ true → All (λ x. test x ≡ true) xs
  unfolding all_of
  all_of-All test [] h = tt
  all_of-All test (x ∷ xs) h = (ground arith, all_of-All test xs (ground arith))

-- What holds of all elements holds of each.
pub All-elem : (P : ℕ → Type 0) (v : ℕ) (xs : List ℕ) → All P xs → elem v xs ≡ true → P v
unfolding elem
All-elem P v [] h m = cc
All-elem P v (x ∷ xs) h m = elim (Bool-cases (v == x)) [
  | inl same ↦ subst P (sym ((==_iff v x).0 same)) h.0
  | inr other ↦ All-elem P v xs h.1 (ground arith)
]
