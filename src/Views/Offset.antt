-- ===== src/Views/Offset.antt =====
-- Where a row-major tensor keeps an element, and that axes of length one do not matter for it.
use native.Mathlib.Numerals.{add-one}
use ag_infer.Prelude.{
  ℕ, zero, suc, ◌+◌, ◌*◌, ◌<◌, ◌≡◌, refl, sym, ap, ap₂, ◌∙◌, not, List, [], ◌∷◌, map, arith, ◌==◌,
  length, get_or, range, filter_by,
}

-- The element of the flat buffer that holds the index: the last axis varies fastest.
row_major_from : ℕ → List ℕ → List ℕ → ℕ
row_major_from place (n ∷ shape) (i ∷ index) = row_major_from (place * n + i) shape index
row_major_from place _ _ = place

unfoldable pub row_major : List ℕ → List ℕ → ℕ
unfolding row_major_from
row_major = row_major_from 0

-- An index of a tensor of that shape.
abbrev pub InBounds : List ℕ → List ℕ → Type 0
InBounds [] [] = Unit
InBounds (n ∷ shape) (i ∷ index) = (i < n) × InBounds shape index
InBounds _ _ = ⊥

-- The elements of `xs` at the given axes.
abbrev pub select : List ℕ → List ℕ → List ℕ
select xs axes = map (λ axis. get_or xs axis 0) axes

-- The place by sizes and indices that are functions of the axis.
place : (ℕ → ℕ) → (ℕ → ℕ) → ℕ → List ℕ → ℕ
place size index acc [] = acc
place size index acc (a ∷ axes) = place size index (acc * size a + index a) axes

place-row_major :
    (size index : ℕ → ℕ) (acc : ℕ) (axes : List ℕ)
    → row_major_from acc (map size axes) (map index axes) ≡ place size index acc axes
unfolding row_major_from place
place-row_major size index acc [] = refl
place-row_major size index acc (a ∷ axes) = place-row_major size index (acc * size a + index a) axes

-- An axis of length one has the index 0, and can be left out.
place-long :
    (size index : ℕ → ℕ) (acc : ℕ) (axes : List ℕ)
    → ((a : ℕ) → size a ≡ 1 → index a ≡ 0)
    → place size index acc axes ≡ place size index acc (filter_by (λ a. not (size a == 1)) axes)
unfolding place filter_by
place-long size index acc [] h = refl
place-long size index acc (a ∷ axes) h =
    ground (arith, h a, place-long size index (acc * size a + index a) axes h)

select-range_from :
    (x : ℕ) (xs : List ℕ) (start count : ℕ)
    → select (x ∷ xs) (range (start + 1) count) ≡ select xs (range start count)
unfolding range
select-range_from x xs start zero = refl
select-range_from x xs start (suc count) =
    ap₂ ◌∷◌ (rw add-one) (select-range_from x xs (start + 1) count)

pub select-range : (xs : List ℕ) → select xs (range 0 (length xs)) ≡ xs
unfolding range
select-range [] = refl
select-range (x ∷ xs) = ap (λ l. x ∷ l) (select-range_from x xs 0 (length xs) ∙ select-range xs)

InBounds-length : (shape index : List ℕ) → InBounds shape index → length index ≡ length shape
InBounds-length [] [] h = refl
InBounds-length [] (i ∷ index) h = absurd h
InBounds-length (n ∷ shape) [] h = absurd h
InBounds-length (n ∷ shape) (i ∷ index) h = ap suc (InBounds-length shape index h.1)

pub InBounds-one :
    (shape index : List ℕ) (a : ℕ)
    → InBounds shape index
    → get_or shape a 0 ≡ 1
    → get_or index a 0 ≡ 0
InBounds-one [] [] a h e = refl
InBounds-one [] (i ∷ index) a h e = absurd h
InBounds-one (n ∷ shape) [] a h e = absurd h
InBounds-one (n ∷ shape) (i ∷ index) zero h e = omega arith
InBounds-one (n ∷ shape) (i ∷ index) (suc a) h e = InBounds-one shape index a h.1 e

-- The place of an index, read off the axes in their order.
row_major-place :
    (shape index : List ℕ)
    → InBounds shape index
    → row_major shape index
      ≡ place (λ a. get_or shape a 0) (λ a. get_or index a 0) 0 (range 0 (length shape))
unfolding row_major
row_major-place shape index h =
    ap₂ (row_major_from 0) (sym (select-range shape)) (
      sym (select-range index) ∙ ap (λ n. select index (range 0 n)) (InBounds-length shape index h))
    ∙ place-row_major _ _ 0 (range 0 (length shape))

-- Axes whose long ones come in the order of the tensor give the place of the index.
pub row_major-select :
    (shape index axes : List ℕ)
    → InBounds shape index
    → filter_by (λ a. not (get_or shape a 0 == 1)) (range 0 (length shape))
      ≡ filter_by (λ a. not (get_or shape a 0 == 1)) axes
    → row_major (select shape axes) (select index axes) ≡ row_major shape index
unfolding row_major
row_major-select shape index axes h e =
    let size : ℕ → ℕ = λ a. get_or shape a 0 in
    let at : ℕ → ℕ = λ a. get_or index a 0 in
    place-row_major size at 0 axes
    ∙ place-long size at 0 axes (λ a. InBounds-one shape index a h)
    ∙ ap (place size at 0) (sym e)
    ∙ sym (place-long size at 0 (range 0 (length shape)) (λ a. InBounds-one shape index a h))
    ∙ sym (row_major-place shape index h)
