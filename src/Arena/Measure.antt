-- ===== src/Arena/Measure.antt =====
-- Measures of the blocks of the allocator that splitting and merging leave alone: their bytes, and
-- for an address the number of blocks that hold it.
use ag_infer.Prelude.{
  ℕ, ◌+◌, ◌-◌, ◌≡◌, refl, inl, inr, ◌&&◌, List, [], ◌∷◌, some, arith, ltb, leb, if◌then◌else◌,
  reverse, sorted, sum_by-sorted, sum_by, sum_by-append, Option-cases,
}
use ag_infer.Arena.{Block, Active, block_leb, merge_loop, merge_free, release, first_fit}
use mathlib.Core.List.{reverse-cons}

-- A measure of a block that adds up over adjacent blocks.
abbrev pub Additive : (ℕ → ℕ → ℕ) → Type 0
Additive f = (o s t : ℕ) → f o (s + t) ≡ f o s + f (o + s) t

-- Is the address `a` in the block?
unfoldable pub holds : ℕ → ℕ → ℕ → ℕ
holds a offset size = if leb offset a && ltb a (offset + size) then 1 else 0

pub holds-Additive : (a : ℕ) → Additive (holds a)
unfolding holds
holds-Additive a o s t = ground arith

abbrev pub bytes_of : ℕ → ℕ → ℕ
bytes_of offset size = size

pub bytes_of-Additive : Additive bytes_of
bytes_of-Additive o s t = refl

module _ (f : ℕ → ℕ → ℕ) where
  abbrev pub of_free : List Block → ℕ
  of_free = sum_by (λ b. f b.offset b.size)

  abbrev pub of_active : List Active → ℕ
  of_active = sum_by (λ a. f a.offset a.size)

sum_by-reverse : {A : Type 0} (f : A → ℕ) (xs : List A) → sum_by f (reverse xs) ≡ sum_by f xs
sum_by-reverse f [] = refl
sum_by-reverse f (x ∷ xs) =
    rw reverse-cons (omega (arith, sum_by-append f (reverse xs) (x ∷ []), sum_by-reverse f xs))

module _ (f : ℕ → ℕ → ℕ) (additive : Additive f) where
  merge_loop-sum :
      (merged rest : List Block)
      → of_free f (merge_loop merged rest) ≡ of_free f merged + of_free f rest
  unfolding merge_loop
  merge_loop-sum merged [] = omega arith
  merge_loop-sum [] (b ∷ rest) = omega (arith, merge_loop-sum (b ∷ []) rest)
  merge_loop-sum (p ∷ merged) (b ∷ rest) = ground (
    arith,
    additive p.offset p.size b.size,
    merge_loop-sum (record { offset = p.offset; size = p.size + b.size } ∷ merged) rest,
    merge_loop-sum (b ∷ p ∷ merged) rest,
  )

  -- Merging keeps the bytes that are free, address by address.
  pub merge_free-sum : (blocks : List Block) → of_free f (merge_free blocks) ≡ of_free f blocks
  unfolding merge_free
  merge_free-sum blocks = omega (
    arith,
    sum_by-reverse (λ (b : Block). f b.offset b.size) (merge_loop [] (sorted block_leb blocks)),
    merge_loop-sum [] (sorted block_leb blocks),
    sum_by-sorted block_leb (λ (b : Block). f b.offset b.size) blocks,
  )

  -- Releasing moves blocks from the live ones to the free ones.
  pub release-sum :
      (start : ℕ) (active : List Active)
      → of_active f active
        ≡ of_active f (release start active).0 + of_free f (release start active).1
  unfolding release
  release-sum start [] = refl
  release-sum start (a ∷ rest) = ground (arith, release-sum start rest)

  -- The block that the search finds is cut out of the free blocks.
  pub first_fit-sum :
      (bytes : ℕ) (free : List Block) {offset : ℕ} {free' : List Block}
      → first_fit bytes free ≡ some (offset, free')
      → of_free f free ≡ f offset bytes + of_free f free'
  unfolding first_fit
  first_fit-sum bytes [] e = cc
  first_fit-sum bytes (b ∷ rest) e = elim (Option-cases (first_fit bytes rest)) [
    | inl n ↦ ground (arith, additive b.offset bytes (b.size - bytes))
    | inr ((o, r), h) ↦ ground (
      arith,
      first_fit-sum bytes rest {offset = o} {free' = r} h,
      additive b.offset bytes (b.size - bytes),
    )
  ]
