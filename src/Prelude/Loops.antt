-- ===== src/Prelude/Loops.antt =====
-- Rules for list comprehensions and loops whose bodies may raise.
use mathlib.Core.Path.{◌≡◌}
use mathlib.Core.List.{List, [], ◌∷◌}
use ag_infer.Prelude.Lists.{All, Pairwise}
use ag_infer.Prelude.Outcome.{Result, ok, >>=-eq-ok, ok-injective, traverse, fold_result}
use mathlib.Core.Path.{subst}

module _ {A B : Type 0} (f : A → Result B) where
  -- Every element passed the body.
  pub traverse-All :
      (P : A → Type 0)
      → ((a : A) (b : B) → f a ≡ ok b → P a)
      → (xs : List A) {ys : List B} → traverse f xs ≡ ok ys
      → All P xs
  unfolding traverse
  traverse-All P step [] e = tt
  traverse-All P step (x ∷ xs) e =
      let (y, first, more) = >>=-eq-ok (f x) _ e in
      let (ys, rest, _) = >>=-eq-ok (traverse f xs) _ more in
      (step x y first, traverse-All P step xs rest)

  -- What holds of the elements carries over to the results.
  pub traverse-carries :
      (P : A → Type 0) (Q : B → Type 0)
      → ((a : A) (b : B) → f a ≡ ok b → P a → Q b)
      → (xs : List A) {ys : List B} → All P xs
      → traverse f xs ≡ ok ys
      → All Q ys
  unfolding traverse
  traverse-carries P Q step [] h e = subst (All Q) (ok-injective e) tt
  traverse-carries P Q step (x ∷ xs) h e =
      let (y, first, more) = >>=-eq-ok (f x) _ e in
      let (ys, rest, done) = >>=-eq-ok (traverse f xs) _ more in
      subst (All Q) (ok-injective done) (step x y first h.0, traverse-carries P Q step xs h.1 rest)

  -- A relation between the elements carries over to the results.
  pub traverse-Pairwise :
      (R : A → A → Type 0) (S : B → B → Type 0)
      → ((a b : A) (a' b' : B) → f a ≡ ok a' → f b ≡ ok b' → R a b → S a' b')
      → (xs : List A) {ys : List B} → Pairwise R xs
      → traverse f xs ≡ ok ys
      → Pairwise S ys
  unfolding traverse
  traverse-Pairwise R S step [] h e = subst (Pairwise S) (ok-injective e) tt
  traverse-Pairwise R S step (x ∷ xs) h e =
      let (y, first, more) = >>=-eq-ok (f x) _ e in
      let (ys, rest, done) = >>=-eq-ok (traverse f xs) _ more in
      subst (Pairwise S) (ok-injective done) (
        traverse-carries (R x) (S y) (λ b b' second r. step x b y b' first second r) xs h.0 rest,
        traverse-Pairwise R S step xs h.1 rest,
      )

module _ {A S : Type 0} (f : S → A → Result S) (R : S → Type 0)
    (keep : (s : S) (a : A) (s' : S) → f s a ≡ ok s' → R s → R s') where
  -- An invariant of the body is one of the loop.
  pub fold_result-keeps : (s : S) (xs : List A) {s' : S} → fold_result f s xs ≡ ok s' → R s → R s'
  unfolding fold_result
  fold_result-keeps s [] e h = subst R (ok-injective e) h
  fold_result-keeps s (x ∷ xs) e h =
      let (t, first, rest) = >>=-eq-ok (f s x) _ e in
      fold_result-keeps t xs rest (keep s x t first h)

module _ {A S : Type 0} (f : S → A → Result S) (R : S → A → Type 0)
    (enter : (s : S) (a : A) (s' : S) → f s a ≡ ok s' → R s' a)
    (keep : (s : S) (a : A) (s' : S) (b : A) → f s a ≡ ok s' → R s b → R s' b) where
  -- What each round establishes for its element, and every later round keeps, holds at the end.
  pub fold_result-All : (s : S) (xs : List A) {s' : S} → fold_result f s xs ≡ ok s' → All (R s') xs
  unfolding fold_result
  fold_result-All s [] e = tt
  fold_result-All s (x ∷ xs) e =
      let (t, first, rest) = >>=-eq-ok (f s x) _ e in
      (
        fold_result-keeps f (λ u. R u x) (λ u a u' h. keep u a u' x h) t xs rest
            (enter s x t first),
        fold_result-All t xs rest,
      )
