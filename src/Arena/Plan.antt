-- ===== src/Arena/Plan.antt =====
-- What `_allocate_intervals` returns for any list of requests.
use ag_infer.Prelude.{
  ℕ, ◌+◌, ◌^◌, ◌≤◌, ◌<◌, ◌≡◌, ◌≢◌, inl, inr, List, [], ◌∷◌, ◌++◌, map, map-append, append_assoc,
  append-nil, sym, ap, subst, ◌∙◌, arith, All, Pairwise, ok, err, >>=-eq-ok, ok-injective,
  Result-cases, assertion_error, Bool-cases, sorted, insert_sorted, All-sorted,
}
use ag_infer.Arena.{
  Pending, Placed, ArenaState, start_state, pending_leb, enter, place, place_all,
  allocate_intervals,
}
use ag_infer.Arena.Measure.{holds}
use ag_infer.Arena.Rounds.{Apart, IsSound, place-IsSound, place-ne-assertion, place-Round}

abbrev pub IsRequest : Pending → Type 0
IsRequest p = 0 < p.bytes

-- The requests come in the order of their starts.
abbrev pub Ascending : ℕ → List Pending → Type 0
Ascending now [] = Unit
Ascending now (p ∷ rest) = (now ≤ p.start) × Ascending p.start rest

Ascending-insert :
    (now : ℕ) (p : Pending) (ps : List Pending)
    → now ≤ p.start
    → Ascending now ps
    → Ascending now (insert_sorted pending_leb p ps)
unfolding insert_sorted
Ascending-insert now p [] h a = (h, tt)
Ascending-insert now p (q ∷ qs) h a = elim (Bool-cases (pending_leb p q)) [
  | inl t ↦ rw t (h, (ground arith, a.1))
  | inr n ↦ rw n (a.0, Ascending-insert q.start p qs (ground arith) a.1)
]

pub sorted-Ascending : (ps : List Pending) → Ascending 0 (sorted pending_leb ps)
unfolding sorted
sorted-Ascending [] = tt
sorted-Ascending (p ∷ ps) =
    Ascending-insert 0 p (sorted pending_leb ps) (omega arith) (sorted-Ascending ps)

place_all-IsSound :
    (k now : ℕ) (s : ArenaState) (ps : List Pending) {s' : ArenaState}
    → Ascending now ps
    → All IsRequest ps
    → IsSound now s
    → place_all (2 ^ k) s ps ≡ ok s'
    → (later : ℕ) × IsSound later s'
unfolding place_all
place_all-IsSound k now s [] a r v e = (now, rw (ok-injective e) at v)
place_all-IsSound k now s (p ∷ ps) a r v e =
    let (t, first, rest) = >>=-eq-ok (place (2 ^ k) s p) _ e in
    place_all-IsSound k p.start t ps a.1 r.1 (place-IsSound k now s p a.0 r.0 v first) rest

place_all-ne-assertion :
    (k now : ℕ) (s : ArenaState) (ps : List Pending)
    → Ascending now ps
    → All IsRequest ps
    → IsSound now s
    → place_all (2 ^ k) s ps ≢ err assertion_error
unfolding place_all
place_all-ne-assertion k now s [] a r v e = cc
place_all-ne-assertion k now s (p ∷ ps) a r v e = elim (Result-cases (place (2 ^ k) s p)) [
  | inl (t, first) ↦
      place_all-ne-assertion k p.start t ps a.1 r.1 (place-IsSound k now s p a.0 r.0 v first)
        (rw first at e)
  | inr (x, failed) ↦ place-ne-assertion k now s p r.0 v (cc (rw failed at e))
]

pub start-IsSound : IsSound 0 start_state
unfolding holds
start-IsSound = record {
  space = record { bytes = omega arith; once = λ a. ground arith };
  live = tt;
  peak = omega arith;
  within = tt;
  tracked = tt;
  apart = tt;
}

-- The properties of a placement within an arena.
pub record IsArena (placed : List Placed) (arena_end peak_live : ℕ) : Type 0 where
  pub apart : Pairwise Apart placed
  pub within : All (λ (p : Placed). p.offset + p.bytes ≤ arena_end) placed
  pub peak : peak_live ≤ arena_end

-- Where the allocator returns a placement, for an alignment that is a power of two and requests of
-- at least one byte, any two intervals whose lifetimes meet occupy disjoint bytes, every interval
-- ends within the arena, and the peak of the live bytes is at most the size of the arena.
pub allocate_intervals-IsArena :
    (pending : List Pending) (k : ℕ) (placed : List Placed) (arena_end peak_live : ℕ)
    → All IsRequest pending
    → allocate_intervals pending (2 ^ k) ≡ ok (placed, arena_end, peak_live)
    → IsArena placed arena_end peak_live
unfolding allocate_intervals
allocate_intervals-IsArena pending k placed arena_end peak_live r e =
    let (s, run, done) =
      >>=-eq-ok (place_all (2 ^ k) start_state (sorted pending_leb pending)) _ e in
    let (_, v) =
      place_all-IsSound k 0 start_state (sorted pending_leb pending) (sorted-Ascending pending)
        (All-sorted IsRequest pending_leb pending r) start-IsSound run in
    subst (λ t. IsArena t.0 t.1 t.2) (ok-injective done)
      (record { apart = v.apart; within = v.within; peak = v.peak })

-- For an alignment that is a power of two and requests of at least one byte, the allocator's own
-- test for overlaps never fails.
pub allocate_intervals-ne-assertion :
    (pending : List Pending) (k : ℕ)
    → All IsRequest pending
    → allocate_intervals pending (2 ^ k) ≢ err assertion_error
unfolding allocate_intervals
allocate_intervals-ne-assertion pending k r e =
    elim (Result-cases (place_all (2 ^ k) start_state (sorted pending_leb pending))) [
      | inl (s, run) ↦ cc (rw run at e)
      | inr (x, failed) ↦
          place_all-ne-assertion k 0 start_state (sorted pending_leb pending)
            (sorted-Ascending pending) (All-sorted IsRequest pending_leb pending r) start-IsSound
            (cc (rw failed at e))
    ]

abbrev pub request_of : Placed → Pending
request_of p = record { start = p.start; value_id = p.value_id; end = p.end; bytes = p.bytes }

place_all-requests :
    (k : ℕ) (s : ArenaState) (ps : List Pending) {s' : ArenaState}
    → place_all (2 ^ k) s ps ≡ ok s'
    → map request_of s'.placed ≡ map request_of s.placed ++ ps
unfolding place_all enter
place_all-requests k s [] e =
    ap (λ (t : ArenaState). map request_of t.placed) (sym (ok-injective e)) ∙ sym (append-nil _)
place_all-requests k s (p ∷ ps) e =
    let (t, first, rest) = >>=-eq-ok (place (2 ^ k) s p) _ e in
    let r = place-Round k s p first in
    let one : map request_of t.placed ≡ map request_of s.placed ++ (p ∷ []) =
      rw r.entered (rw map-append) in
    place_all-requests k t ps rest
    ∙ ap (λ l. l ++ ps) one
    ∙ append_assoc (map request_of s.placed) (p ∷ []) ps

-- Where the allocator returns a placement, for an alignment that is a power of two, it holds every
-- request once, in the order in which the requests are sorted.
pub allocate_intervals-requests :
    (pending : List Pending) (k : ℕ) (placed : List Placed) (arena_end peak_live : ℕ)
    → allocate_intervals pending (2 ^ k) ≡ ok (placed, arena_end, peak_live)
    → map request_of placed ≡ sorted pending_leb pending
unfolding allocate_intervals
allocate_intervals-requests pending k placed arena_end peak_live e =
    let (s, run, done) =
      >>=-eq-ok (place_all (2 ^ k) start_state (sorted pending_leb pending)) _ e in
    subst (λ t. map request_of t.0 ≡ sorted pending_leb pending) (ok-injective done)
      (place_all-requests k start_state (sorted pending_leb pending) run)
