-- ===== src/Arena/Space.antt =====
-- The live and the free blocks of the allocator share no byte and lie within the arena.
use ag_infer.Prelude.{
  ℕ, ◌+◌, ◌^◌, ◌≤◌, ◌<◌, ◌≡◌, inl, inr, ◌⊎◌, true, false, max, List, [], ◌∷◌, ◌++◌, some, arith,
  sum_by-append, All, Bool-cases, ok,
}
use ag_infer.Arena.{
  Block, Active, Pending, merge_free, release, first_fit, choose, clashes, overlap, align,
}
use ag_infer.Arena.Align.{align_bounds}
use ag_infer.Arena.Measure.{
  holds, holds-Additive, bytes_of, bytes_of-Additive, Additive, of_free, of_active, merge_free-sum,
  release-sum, first_fit-sum,
}

-- Each byte of the arena lies in one block at most, and no block reaches past the end.
pub record Fits (active : List Active) (free : List Block) (arena_end : ℕ) : Type 0 where
  pub bytes : of_active bytes_of active + of_free bytes_of free ≤ arena_end
  pub once : (a : ℕ) → of_active (holds a) active + of_free (holds a) free ≤ holds a 0 arena_end

abbrev pub IsLive : Active → Type 0
IsLive a = 0 < a.size

abbrev pub block_of : Pending → ℕ → Active
block_of p offset = record { end = p.end; offset = offset; size = p.bytes; value_id = p.value_id }

-- Where a block goes: into a free block, or behind the end of the arena.
pub choose_cases :
    (k bytes : ℕ) (free : List Block) (arena_end : ℕ) {offset arena_end' : ℕ} {free' : List Block}
    → choose (2 ^ k) bytes free arena_end ≡ ok (offset, free', arena_end')
    → ((arena_end' ≡ arena_end) × (first_fit bytes free ≡ some (offset, free')))
      ⊎ ((align arena_end (2 ^ k) ≡ ok offset) × (arena_end' ≡ offset + bytes) × (free' ≡ free))
unfolding choose
choose_cases k bytes free arena_end e = ground arith

-- Releasing and merging lose no byte.
pub recycle-sum :
    (f : ℕ → ℕ → ℕ) (additive : Additive f) (start : ℕ) (active : List Active) (free : List Block)
    → of_active f (release start active).0
        + of_free f (merge_free (free ++ (release start active).1))
      ≡ of_active f active + of_free f free
recycle-sum f additive start active free =
    let freed = (release start active).1 in
    omega (
      arith,
      release-sum f additive start active,
      merge_free-sum f additive (free ++ freed),
      sum_by-append (λ (b : Block). f b.offset b.size) free freed,
    )

pub recycle-Fits :
    (start : ℕ) {active : List Active} {free : List Block} {arena_end : ℕ}
    → Fits active free arena_end
    → Fits (release start active).0 (merge_free (free ++ (release start active).1)) arena_end
recycle-Fits start {active} {free} v = record {
  bytes = rw (recycle-sum bytes_of bytes_of-Additive start active free) v.bytes;
  once = λ a. rw (recycle-sum (holds a) (holds-Additive a) start active free) (v.once a);
}

holds-behind :
    (a offset bytes arena_end : ℕ)
    → arena_end ≤ offset
    → holds a 0 arena_end + holds a offset bytes ≤ holds a 0 (offset + bytes)
unfolding holds
holds-behind a offset bytes arena_end h = ground arith

-- The block that is placed fits too.
pub choose-Fits :
    (k : ℕ) (p : Pending) {active : List Active} {free : List Block} {arena_end : ℕ}
    {offset arena_end' : ℕ} {free' : List Block}
    → Fits active free arena_end
    → choose (2 ^ k) p.bytes free arena_end ≡ ok (offset, free', arena_end')
    → Fits (active ++ (block_of p offset ∷ [])) free' arena_end'
choose-Fits k p {active} {free} {arena_end} {offset} {arena_end'} {free'} v e =
    elim (choose_cases k p.bytes free arena_end e) [
      | inl (same, found) ↦ record {
        bytes = omega (
          arith,
          v.bytes,
          first_fit-sum bytes_of bytes_of-Additive p.bytes free found,
          sum_by-append (λ (a : Active). bytes_of a.offset a.size) active (block_of p offset ∷ []),
        );
        once = λ a. rw same (
            omega (
              arith,
              v.once a,
              first_fit-sum (holds a) (holds-Additive a) p.bytes free found,
              sum_by-append (λ (b : Active). holds a b.offset b.size) active
                  (block_of p offset ∷ []),
            ));
      }
      | inr (aligned, longer, kept) ↦ record {
        bytes = rw kept (
            omega (
              arith,
              v.bytes,
              align_bounds arena_end k aligned,
              sum_by-append (λ (a : Active). bytes_of a.offset a.size) active
                  (block_of p offset ∷ []),
            ));
        once = λ a.
            rw (kept, longer)
              (omega (
                arith,
                v.once a,
                holds-behind a offset p.bytes arena_end (align_bounds arena_end k aligned).0,
                sum_by-append (λ (b : Active). holds a b.offset b.size) active
                    (block_of p offset ∷ []),
              ));
      }
    ]

-- Two blocks that overlap hold a common address.
clash_address :
    (offset bytes : ℕ) (active : List Active)
    → 0 < bytes
    → All IsLive active
    → clashes offset bytes active ≡ true
    → (a : ℕ) × (holds a offset bytes ≡ 1) × (1 ≤ of_active (holds a) active)
unfolding clashes holds
clash_address offset bytes [] h live e = cc
clash_address offset bytes (b ∷ rest) h live e =
    elim (Bool-cases (overlap offset bytes b.offset b.size)) [
      | inl t ↦ (max offset b.offset, ground arith, ground arith)
      | inr n ↦
          let (a, x, y) = clash_address offset bytes rest h live.1 (ground arith) in
          (a, x, omega arith)
    ]

holds-le-one : (a offset size : ℕ) → holds a offset size ≤ 1
unfolding holds
holds-le-one a offset size = ground arith

-- So the test of the new block against the live ones never fails.
pub Fits-clashes :
    (p : Pending) (offset : ℕ) (active : List Active) {free : List Block} {arena_end : ℕ}
    → 0 < p.bytes
    → All IsLive active
    → Fits (active ++ (block_of p offset ∷ [])) free arena_end
    → clashes offset p.bytes active ≡ false
Fits-clashes p offset active {free} {arena_end} h live v =
    elim (Bool-cases (clashes offset p.bytes active)) [
      | inl t ↦
          let (a, x, y) = clash_address offset p.bytes active h live t in
          absurd (
            omega (
              arith,
              v.once a,
              holds-le-one a 0 arena_end,
              sum_by-append (λ (b : Active). holds a b.offset b.size) active
                  (block_of p offset ∷ []),
            ))
      | inr n ↦ n
    ]
