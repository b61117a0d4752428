-- ===== src/Arena/Runs.antt =====
-- Runs of the allocator, and its theorems at concrete requests.
use ag_infer.Prelude.{
  ℕ, ◌^◌, ◌≡◌, ◌≢◌, refl, List, [], ◌∷◌, map, arith, ok, err, assertion_error, sorted,
  insert_sorted,
}
use ag_infer.Arena.{
  Pending, Placed, pending_leb, merge_loop, merge_free, release, first_fit, choose, clashes, align,
  checked_add, enter, place, place_all, allocate_intervals,
}
use ag_infer.Arena.Plan.{
  IsArena, request_of, allocate_intervals-IsArena, allocate_intervals-ne-assertion,
  allocate_intervals-requests,
}
use ag_infer.Arena.Growth.{IsGridPlan, allocate_intervals-total}

abbrev request : ℕ → ℕ → ℕ → ℕ → Pending
request start value_id end bytes = record {
  start = start;
  value_id = value_id;
  end = end;
  bytes = bytes;
}

-- Four values: the third reuses the block of the first, and the fourth goes behind all.
abbrev requests : List Pending
requests = request 2 7 3 256 ∷ request 0 4 1 512 ∷ request 1 5 4 256 ∷ request 2 8 3 512 ∷ []

abbrev placed_as : ℕ → ℕ → ℕ → ℕ → ℕ → Placed
placed_as start value_id end bytes offset = record {
  start = start;
  value_id = value_id;
  end = end;
  bytes = bytes;
  offset = offset;
}

abbrev layout : List Placed
layout =
    placed_as 0 4 1 512 0
    ∷ placed_as 1 5 4 256 512
    ∷ placed_as 2 7 3 256 0
    ∷ placed_as 2 8 3 512 768
    ∷ []

allocator : Unit {0}
unfolding allocate_intervals place_all place enter choose first_fit release merge_free merge_loop
    sorted insert_sorted clashes align checked_add
allocator = tt

allocate_requests : allocate_intervals requests (2 ^ 8) ≡ ok (layout, 1280, 1024)
unfolding allocator
allocate_requests = refl

merge_adjacent :
    merge_free (record { offset = 512; size = 256 } ∷ record { offset = 0; size = 512 } ∷ [])
    ≡ record { offset = 0; size = 768 } ∷ []
unfolding allocator
merge_adjacent = refl

allocate_intervals-IsArena_example : IsArena layout 1280 1024
allocate_intervals-IsArena_example =
    allocate_intervals-IsArena requests 8 layout 1280 1024 (omega arith) allocate_requests

allocate_intervals-ne-assertion_example : allocate_intervals requests (2 ^ 8) ≢ err assertion_error
allocate_intervals-ne-assertion_example = allocate_intervals-ne-assertion requests 8 (omega arith)

allocate_intervals-requests_example : map request_of layout ≡ sorted pending_leb requests
allocate_intervals-requests_example =
    allocate_intervals-requests requests 8 layout 1280 1024 allocate_requests

allocate_intervals-total_example :
    (placed : List Placed) × (arena_end : ℕ) × (peak_live : ℕ) × (allocate_intervals requests
        (2 ^ 8)
      ≡ ok (placed, arena_end, peak_live))
    × IsGridPlan 8 requests placed arena_end
allocate_intervals-total_example = allocate_intervals-total requests 8 (omega arith) (omega arith)
