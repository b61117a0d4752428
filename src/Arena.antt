-- ===== src/Arena.antt =====
-- The arena allocator of src/aginfer/lowering/memory.py: `_align`, `_checked_add`, `_overlap`,
-- `_merge_free` and `_allocate_intervals`. A Python integer is a number here: every value that
-- reaches these functions is non-negative, so their tests `value < 0` never fire.
pub mod Align
pub mod Measure
pub mod Space
pub mod Rounds
pub mod Plan
pub mod Growth
mod Runs
use ag_infer.Prelude.{
  ℕ, zero, suc, ◌+◌, ◌-◌, ◌*◌, ◌^◌, ◌≤◌, ◌<◌, ◌≡◌, Bool, true, false, ◌&&◌, ◌||◌, List, [], ◌∷◌,
  ◌++◌, Option, none, some, ltb, leb, ◌==◌, if◌then◌else◌, Result, ok, err, validation_error,
  assertion_error, ◌>>=◌, ◌>>◌, raise_if, sum_by, max, bit_and, reverse, All, sorted,
}

-- `_UINT64_MAX`
abbrev pub uint64_max : ℕ
uint64_max = 2 ^ 64 - 1

-- `_align`: Python's `x & ~m` clears the bits of `m` in `x`, so it is `x - (x & m)`.
pub align : ℕ → ℕ → Result ℕ
align value alignment =
    if ltb uint64_max (value + (alignment - 1))
    then err validation_error
    else (let top = value + alignment - 1 in ok (top - bit_and top (alignment - 1)))

-- `_checked_add`
pub checked_add : ℕ → ℕ → Result (Unit {0})
checked_add left right = raise_if (ltb (uint64_max - right) left) validation_error

-- `_overlap`
abbrev pub overlap : ℕ → ℕ → ℕ → ℕ → Bool
overlap left_offset left_size right_offset right_size =
    ltb left_offset (right_offset + right_size) && ltb right_offset (left_offset + left_size)

-- A tuple `(offset, size)` of the free list.
pub record Block : Type 0 where
  pub offset : ℕ
  pub size : ℕ

-- A tuple `(end, offset, size, value_id)` of the active list.
pub record Active : Type 0 where
  pub end : ℕ
  pub offset : ℕ
  pub size : ℕ
  pub value_id : ℕ

-- A tuple `(start, value_id, end, allocation_bytes)` of the request list.
pub record Pending : Type 0 where
  pub start : ℕ
  pub value_id : ℕ
  pub end : ℕ
  pub bytes : ℕ

-- A tuple `(start, value_id, end, allocation_bytes, offset)` of the result.
pub record Placed : Type 0 where
  pub start : ℕ
  pub value_id : ℕ
  pub end : ℕ
  pub bytes : ℕ
  pub offset : ℕ

-- Python's `<=` on the tuples that are sorted: lexicographic.
abbrev pub block_leb : Block → Block → Bool
block_leb a b = ltb a.offset b.offset || (a.offset == b.offset && leb a.size b.size)

abbrev pub pending_leb : Pending → Pending → Bool
pending_leb a b =
    ltb a.start b.start
    || (a.start == b.start
        && (ltb a.value_id b.value_id
            || (a.value_id == b.value_id
                && (ltb a.end b.end || (a.end == b.end && leb a.bytes b.bytes)))))

-- The loop of `_merge_free`; `merged` is kept with its last element first.
pub merge_loop : List Block → List Block → List Block
merge_loop merged [] = merged
merge_loop [] (b ∷ rest) = merge_loop (b ∷ []) rest
merge_loop (p ∷ merged) (b ∷ rest) =
    merge_loop
      (if p.offset + p.size == b.offset
        then record { offset = p.offset; size = p.size + b.size } ∷ merged
        else b ∷ p ∷ merged)
      rest

-- `_merge_free`
pub merge_free : List Block → List Block
merge_free blocks = reverse (merge_loop [] (sorted block_leb blocks))

-- The first loop of a round: blocks whose value died before `start` go to the free list.
pub release : ℕ → List Active → List Active × List Block
release start [] = ([], [])
release start (a ∷ rest) =
    let (retained, freed) = release start rest in
    if ltb a.end start
    then (retained, record { offset = a.offset; size = a.size } ∷ freed)
    else (a ∷ retained, freed)

-- The search of the free list for the first block that is large enough: its offset, and the free
-- list with that block shortened or taken out.
pub first_fit : ℕ → List Block → Option (ℕ × List Block)
first_fit bytes [] = none
first_fit bytes (b ∷ rest) =
    let found = first_fit bytes rest in
    if ltb b.size bytes
    then elim found [ none ↦ none | some (offset, rest') ↦ some (offset, b ∷ rest') ]
    else some (
      b.offset,
      if b.size == bytes
          then rest
          else record { offset = b.offset + bytes; size = b.size - bytes } ∷ rest,
    )

-- The local variables of `_allocate_intervals` between two rounds.
pub record ArenaState : Type 0 where
  pub active : List Active
  pub free : List Block
  pub arena_end : ℕ
  pub peak_live : ℕ
  pub placed : List Placed

abbrev pub start_state : ArenaState
start_state = record { active = []; free = []; arena_end = 0; peak_live = 0; placed = [] }

-- Where the block goes, the free list after it, and the end of the arena.
pub choose : ℕ → ℕ → List Block → ℕ → Result (ℕ × List Block × ℕ)
choose alignment bytes free arena_end = elim (first_fit bytes free) [
  | some (offset, free') ↦ ok (offset, free', arena_end)
  | none ↦ do
    offset ← align arena_end alignment
    checked_add offset bytes
    ok (offset, free, offset + bytes)
]

-- The test of the new block against the live ones.
pub clashes : ℕ → ℕ → List Active → Bool
clashes offset bytes [] = false
clashes offset bytes (a ∷ rest) = overlap offset bytes a.offset a.size || clashes offset bytes rest

-- The end of a round: the block is entered as live and placed.
pub enter : Pending → ℕ → ℕ → List Active → List Block → ArenaState → ArenaState
enter p offset arena_end active free s =
    let active' =
      active
      ++ (record { end = p.end; offset = offset; size = p.bytes; value_id = p.value_id } ∷ []) in
    record {
      active = active';
      free = free;
      arena_end = arena_end;
      peak_live = max s.peak_live (sum_by (λ (a : Active). a.size) active');
      placed =
          s.placed
          ++ (record {
            start = p.start;
            value_id = p.value_id;
            end = p.end;
            bytes = p.bytes;
            offset = offset;
          }
              ∷ []);
    }

-- One round of the loop over the sorted requests.
pub place : ℕ → ArenaState → Pending → Result ArenaState
place alignment s p = do
  let (retained, freed) = release p.start s.active
  (offset, free', arena_end) ← choose alignment p.bytes (merge_free (s.free ++ freed)) s.arena_end
  raise_if (clashes offset p.bytes retained) assertion_error
  ok (enter p offset arena_end retained free' s)

pub place_all : ℕ → ArenaState → List Pending → Result ArenaState
place_all alignment s [] = ok s
place_all alignment s (p ∷ rest) = do s' ← place alignment s p; place_all alignment s' rest

-- `_allocate_intervals`: the intervals, the size of the arena and the peak of the live bytes.
pub allocate_intervals : List Pending → ℕ → Result (List Placed × ℕ × ℕ)
allocate_intervals pending alignment = do
  s ← place_all alignment start_state (sorted pending_leb pending)
  ok (s.placed, s.arena_end, s.peak_live)

-- What a run of the allocator computes.
unfoldable pub allocator : Unit {0}
unfolding allocate_intervals place_all place enter choose first_fit release merge_free merge_loop
    clashes align checked_add
allocator = tt
