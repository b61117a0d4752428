-- ===== src/Arena/Growth.antt =====
-- Aligned requests: where they go, how large the arena becomes, and that the planner answers.
use ag_infer.Prelude.{
  ℕ, ◌+◌, ◌-◌, ◌%◌, ◌^◌, ◌≤◌, ◌≡◌, refl, inl, inr, Bool-cases, List, [], ◌∷◌, ◌++◌, reverse, arith,
  ◌==◌, All, All-append, ok, some, Option-cases, sym, ◌∙◌, sum_by, ge→ltb, sorted, sum_by-sorted,
  All-sorted,
}
use ag_infer.Prelude.Bits.{pow_pos}
use ag_infer.Arena.{
  Block, Active, Pending, Placed, ArenaState, start_state, pending_leb, block_leb, merge_loop,
  merge_free, release, first_fit, choose, checked_add, enter, place, place_all, allocate_intervals,
  uint64_max,
}
use ag_infer.Arena.Align.{align_total, align_aligned}
use ag_infer.Arena.Space.{choose_cases, recycle-Fits, choose-Fits, Fits-clashes}
use ag_infer.Arena.Rounds.{IsSound, place-IsSound, place-Round, release-IsLive}
use ag_infer.Arena.Plan.{IsRequest, Ascending, sorted-Ascending, start-IsSound}
use native.Mathlib.Nat.{add-mod, mod-mod, zero-mod, zero-add}
use mathlib.Core.List.{reverse-cons}

module _ (m : ℕ) where
  abbrev pub IsMultiple : ℕ → Type 0
  IsMultiple a = a % m ≡ 0

  add-IsMultiple : (a b : ℕ) → IsMultiple a → IsMultiple b → IsMultiple (a + b)
  add-IsMultiple a b p q = add-mod a b m ∙ rw (p, q) (zero-mod m)

  sub-IsMultiple : (a b : ℕ) → b ≤ a → IsMultiple a → IsMultiple b → IsMultiple (a - b)
  sub-IsMultiple a b h p q =
      let split : b + (a - b) ≡ a = omega arith in
      let sum = rw (split, p, q, zero-add) at (add-mod b (a - b) m) in
      sym (mod-mod (a - b) m) ∙ sym sum

  abbrev IsAlignedBlock : Block → Type 0
  IsAlignedBlock b = IsMultiple b.offset × IsMultiple b.size

  abbrev IsAlignedActive : Active → Type 0
  IsAlignedActive a = IsMultiple a.offset × IsMultiple a.size

  All-reverse : (bs : List Block) → All IsAlignedBlock bs → All IsAlignedBlock (reverse bs)
  All-reverse [] a = tt
  All-reverse (b ∷ bs) a =
      rw reverse-cons (All-append IsAlignedBlock (reverse bs) _ (All-reverse bs a.1) (a.0, tt))

  merge_loop-aligned :
      (merged rest : List Block)
      → All IsAlignedBlock merged
      → All IsAlignedBlock rest
      → All IsAlignedBlock (merge_loop merged rest)
  unfolding merge_loop
  merge_loop-aligned merged [] a b = a
  merge_loop-aligned [] (b ∷ rest) a h = merge_loop-aligned (b ∷ []) rest (h.0, tt) h.1
  merge_loop-aligned (p ∷ merged) (b ∷ rest) a h =
      elim (Bool-cases (p.offset + p.size == b.offset)) [
        | inl t ↦ rw t (
            merge_loop-aligned (record { offset = p.offset; size = p.size + b.size } ∷ merged) rest
              ((a.0.0, add-IsMultiple p.size b.size a.0.1 h.0.1), a.1) h.1)
        | inr n ↦ rw n (merge_loop-aligned (b ∷ p ∷ merged) rest (h.0, a) h.1)
      ]

  merge_free-aligned :
      (bs : List Block) → All IsAlignedBlock bs → All IsAlignedBlock (merge_free bs)
  unfolding merge_free
  merge_free-aligned bs a =
      All-reverse _
        (merge_loop-aligned [] (sorted block_leb bs) tt (All-sorted IsAlignedBlock block_leb bs a))

  release-aligned :
      (start : ℕ) (active : List Active)
      → All IsAlignedActive active
      → All IsAlignedActive (release start active).0 × All IsAlignedBlock (release start active).1
  unfolding release
  release-aligned start [] h = (tt, tt)
  release-aligned start (a ∷ rest) h = ground (arith, release-aligned start rest h.1)

  first_fit-aligned :
      (bytes : ℕ) (free : List Block) {offset : ℕ} {free' : List Block}
      → IsMultiple bytes
      → All IsAlignedBlock free
      → first_fit bytes free ≡ some (offset, free')
      → IsMultiple offset × All IsAlignedBlock free'
  unfolding first_fit
  first_fit-aligned bytes [] h a e = cc
  first_fit-aligned bytes (b ∷ rest) h a e = elim (Option-cases (first_fit bytes rest)) [
    | inl n ↦ ground (
      arith,
      add-IsMultiple b.offset bytes a.0.0 h,
      λ (le : bytes ≤ b.size). sub-IsMultiple b.size bytes le a.0.1 h,
    )
    | inr ((o, r), f) ↦ ground (
      arith,
      add-IsMultiple b.offset bytes a.0.0 h,
      λ (le : bytes ≤ b.size). sub-IsMultiple b.size bytes le a.0.1 h,
      first_fit-aligned bytes rest {offset = o} {free' = r} h a.1 f,
    )
  ]

  -- The state of the planner on a grid of `m` bytes.
  pub record IsAligned (s : ArenaState) : Type 0 where
    pub active : All IsAlignedActive s.active
    pub free : All IsAlignedBlock s.free
    pub end : IsMultiple s.arena_end
    pub placed : All (λ (p : Placed). IsMultiple p.offset) s.placed

-- A round on the grid: the arena grows by the bytes of the request at most.
pub record Grown (k : ℕ) (s : ArenaState) (p : Pending) (s' : ArenaState) : Type 0 where
  pub aligned : IsAligned (2 ^ k) s'
  pub bounded : s'.arena_end ≤ s.arena_end + p.bytes

place-Grown :
    (k : ℕ) (s : ArenaState) (p : Pending) {s' : ArenaState}
    → IsMultiple (2 ^ k) p.bytes
    → IsAligned (2 ^ k) s
    → place (2 ^ k) s p ≡ ok s'
    → Grown k s p s'
unfolding enter
place-Grown k s p h v e =
    let r = place-Round k s p e in
    let (kept, freed) = release-aligned (2 ^ k) p.start s.active v.active in
    let pool =
      merge_free-aligned (2 ^ k) _ (All-append (IsAlignedBlock (2 ^ k)) s.free _ v.free freed) in
    elim (choose_cases k p.bytes _ s.arena_end r.chosen) [
      | inl (same, found) ↦
          let (at_grid, rest) = first_fit-aligned (2 ^ k) p.bytes _ h pool found in
          rw r.entered (record {
            aligned = record {
              active = All-append (IsAlignedActive (2 ^ k)) _ _ kept ((at_grid, h), tt);
              free = rest;
              end = rw same v.end;
              placed = All-append _ s.placed _ v.placed (at_grid, tt);
            };
            bounded = omega (arith, same);
          })
      | inr (lined, longer, free_kept) ↦
          let at_end = align_aligned s.arena_end k lined v.end in
          let at_grid : IsMultiple (2 ^ k) r.offset = rw at_end v.end in
          rw r.entered (record {
            aligned = record {
              active = All-append (IsAlignedActive (2 ^ k)) _ _ kept ((at_grid, h), tt);
              free = rw free_kept pool;
              end = rw longer (add-IsMultiple (2 ^ k) r.offset p.bytes at_grid h);
              placed = All-append _ s.placed _ v.placed (at_grid, tt);
            };
            bounded = omega (arith, longer, at_end);
          })
    ]

-- A request that is on the grid too.
abbrev pub IsGridRequest : ℕ → Pending → Type 0
IsGridRequest k p = IsRequest p × IsMultiple (2 ^ k) p.bytes

choose-total :
    (k bytes : ℕ) (free : List Block) (arena_end : ℕ)
    → arena_end % 2 ^ k ≡ 0
    → arena_end + bytes + 2 ^ k ≤ 2 ^ 64
    → (offset : ℕ) × (free' : List Block) × (arena_end' : ℕ) × (choose (2 ^ k) bytes free arena_end
        ≡ ok (offset, free', arena_end'))
unfolding choose checked_add
choose-total k bytes free arena_end h fits =
    let (r, lined) = align_total arena_end k (omega arith) in
    let at_end = align_aligned arena_end k lined h in
    elim (Option-cases (first_fit bytes free)) [
      | inl n ↦ (
        r,
        free,
        r + bytes,
        rw (n, choose, lined)
            (rw (ge→ltb (uint64_max - bytes) r (omega (arith, at_end, pow_pos k)))),
      )
      | inr ((o, free'), f) ↦ (o, free', arena_end, rw (f, choose))
    ]

place-total :
    (k now : ℕ) (s : ArenaState) (p : Pending)
    → IsGridRequest k p
    → IsSound now s
    → IsAligned (2 ^ k) s
    → s.arena_end + p.bytes + 2 ^ k ≤ 2 ^ 64
    → (s' : ArenaState) × (place (2 ^ k) s p ≡ ok s')
unfolding place
place-total k now s p (pos, h) v a fits =
    let retained = (release p.start s.active).0 in
    let (offset, free', arena_end', chosen) =
      choose-total k p.bytes (merge_free (s.free ++ (release p.start s.active).1)) s.arena_end a.end
        fits in
    let placed_fits = choose-Fits k p (recycle-Fits p.start v.space) chosen in
    let clear =
      Fits-clashes p offset retained pos (release-IsLive p.start s.active v.live) placed_fits in
    (enter p offset arena_end' retained free' s, rw (chosen, clear))

place_all-total :
    (k now : ℕ) (s : ArenaState) (ps : List Pending)
    → Ascending now ps
    → All (IsGridRequest k) ps
    → IsSound now s
    → IsAligned (2 ^ k) s
    → s.arena_end + sum_by (λ (p : Pending). p.bytes) ps + 2 ^ k ≤ 2 ^ 64
    → (s' : ArenaState) × (place_all (2 ^ k) s ps ≡ ok s')
      × IsAligned (2 ^ k) s'
      × (s'.arena_end ≤ s.arena_end + sum_by (λ (p : Pending). p.bytes) ps)
unfolding place_all
place_all-total k now s [] asc r v a fits = (s, refl, a, omega arith)
place_all-total k now s (p ∷ ps) asc r v a fits =
    let (t, first) = place-total k now s p r.0 v a (omega arith) in
    let g = place-Grown k s p r.0.1 a first in
    let grown = g.bounded in
    let (s', rest, a', bound) =
      place_all-total k p.start t ps asc.1 r.1 (place-IsSound k now s p asc.0 r.0.0 v first)
        g.aligned (omega arith) in
    (s', rw first rest, a', omega arith)

start-IsAligned : (m : ℕ) → IsAligned m start_state
start-IsAligned m = record { active = tt; free = tt; end = zero-mod m; placed = tt }

-- What the planner returns for requests on the grid.
pub record IsGridPlan (k : ℕ) (pending : List Pending) (placed : List Placed) (arena_end : ℕ)
    : Type 0 where
  pub aligned : All (λ (p : Placed). p.offset % 2 ^ k ≡ 0) placed
  pub reuses : arena_end ≤ sum_by (λ (p : Pending). p.bytes) pending

-- The allocator answers every list of requests of positive sizes that are multiples of the
-- alignment `2 ^ k`, where the sum of the sizes and one alignment more fit in 64 bits: every offset is a
-- multiple of the alignment, and the arena is at most as large as without any reuse.
pub allocate_intervals-total :
    (pending : List Pending) (k : ℕ)
    → All (IsGridRequest k) pending
    → sum_by (λ (p : Pending). p.bytes) pending + 2 ^ k ≤ 2 ^ 64
    → (placed : List Placed) × (arena_end : ℕ) × (peak_live : ℕ) × (allocate_intervals pending
          (2 ^ k)
        ≡ ok (placed, arena_end, peak_live))
      × IsGridPlan k pending placed arena_end
unfolding allocate_intervals
allocate_intervals-total pending k r fits =
    let same = sum_by-sorted pending_leb (λ (p : Pending). p.bytes) pending in
    let (s, run, a, bound) =
      place_all-total k 0 start_state (sorted pending_leb pending) (sorted-Ascending pending)
        (All-sorted (IsGridRequest k) pending_leb pending r) start-IsSound (start-IsAligned (2 ^ k))
        (omega arith) in
    (
      s.placed,
      s.arena_end,
      s.peak_live,
      rw run,
      record { aligned = a.placed; reuses = omega arith },
    )
