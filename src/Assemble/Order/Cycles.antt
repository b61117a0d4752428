-- ===== src/Assemble/Order/Cycles.antt =====
-- Where the loop of `order_command_placements` leaves commands behind, they wait for each other in a
-- cycle.
use ag_infer.Prelude.{
  ℕ, zero, suc, ◌+◌, ◌≤◌, ◌<◌, ◌≡◌, ◌≢◌, refl, inl, inr, Bool, true, false, not, ◌&&◌, ◌||◌, some,
  List, [], ◌∷◌, map, ok, ◌==◌, arith, length, get_or, elem, insert_sorted, range, filter_by, All,
  Bool-cases, subst, >>=-then, ok-injective,
}
use ag_infer.Memory.{get}
use ag_infer.Memory.Roots.{unvisited, unvisited-lt, unvisited-length}
use ag_infer.Assemble.Order.{pair_leb, blocked, waits_for, release, woken, push_all, take_ready}
use ag_infer.Assemble.Order.Topology.{
  AreReady, blocked-release, push-AreReady, waiting-release, at_start, start-AreReady, start-eq,
}
use native.Mathlib.Decide.{ℕ_discrete}

-- A command waits for another one, directly or by way of others.
pub data Waiting (dependencies : List (ℕ × ℕ)) : ℕ → ℕ → Type 0 where
  directly : {i j : ℕ} → waits_for dependencies i j ≡ true → Waiting dependencies i j
  by_way :
      {i j k : ℕ}
      → Waiting dependencies i j
      → waits_for dependencies j k ≡ true
      → Waiting dependencies i k

abbrev entries : List ℕ → List (ℕ × ℕ)
entries = map (λ i. (i, 0))

get-entries : (is : List ℕ) (i : ℕ) → elem i is ≡ true → get (entries is) i ≡ some 0
unfolding get elem
get-entries [] i m = cc
get-entries (x ∷ is) i m = ground (arith, get-entries is i)

-- Commands each of which waits for one of them.
abbrev AreHeld : List (ℕ × ℕ) → List ℕ → Type 0
AreHeld dependencies held =
    (i : ℕ)
    → elem i held ≡ true
    → (j : ℕ) × (waits_for dependencies i j ≡ true) × (elem j held ≡ true)

AreHeld-cycle :
    (dependencies : List (ℕ × ℕ)) (held : List ℕ)
    → AreHeld dependencies held
    → (fuel : ℕ) (visited : List ℕ) (v : ℕ) → elem v held ≡ true
    → unvisited (entries held) visited < fuel
    → ((u : ℕ) → elem u visited ≡ true → Waiting dependencies u v)
    → (u : ℕ) × Waiting dependencies u u
unfolding elem
AreHeld-cycle dependencies held next zero visited v m h came = absurd (omega arith)
AreHeld-cycle dependencies held next (suc fuel) visited v m h came =
    elim (Bool-cases (elem v visited)) [
      | inl t ↦ (v, came v t)
      | inr n ↦
          let fewer = unvisited-lt (entries held) visited v (get-entries held v m) n in
          let (w, waits, among) = next v m in
          AreHeld-cycle dependencies held next fuel (v ∷ visited) w among (omega arith) (λ u passed.
            elim (ℕ_discrete u v) [
              | yes same ↦ rw same (directly waits)
              | no other ↦ by_way (came u (ground arith)) waits
            ])
    ]

release-within :
    (dependencies : List (ℕ × ℕ)) (index i j : ℕ)
    → waits_for (release dependencies index) i j ≡ true
    → (waits_for dependencies i j ≡ true) × (j ≢ index)
unfolding release waits_for filter_by
release-within [] index i j h = cc
release-within (d ∷ rest) index i j h = ground (arith, release-within rest index i j)

-- The commands of the ready list.
abbrev indices : List (ℕ × ℕ) → List ℕ
indices = map (λ r. r.1)

elem-insert :
    (i : ℕ) (r : ℕ × ℕ) (ready : List (ℕ × ℕ))
    → elem i (indices (insert_sorted pair_leb r ready)) ≡ ((i == r.1) || elem i (indices ready))
unfolding insert_sorted elem
elem-insert i r [] = refl
elem-insert i r (s ∷ ready) = elim (Bool-cases (pair_leb r s)) [
  | inl t ↦ rw t refl
  | inr n ↦ rw n (ground (arith, elem-insert i r ready))
]

elem-push_all :
    (keys : List ℕ) (i : ℕ) (is : List ℕ) (ready : List (ℕ × ℕ))
    → (elem i is || elem i (indices ready)) ≡ true
    → elem i (indices (push_all keys is ready)) ≡ true
unfolding push_all elem
elem-push_all keys i [] ready h = h
elem-push_all keys i (x ∷ is) ready h =
    let r : ℕ × ℕ = (get_or keys x 0, x) in
    let added = elem-insert i r ready in
    elem-push_all keys i is (insert_sorted pair_leb r ready) (ground arith)

elem-filter :
    (p : ℕ → Bool) (i : ℕ) (xs : List ℕ)
    → p i ≡ true
    → elem i xs ≡ true
    → elem i (filter_by p xs) ≡ true
unfolding filter_by elem
elem-filter p i [] t m = cc
elem-filter p i (x ∷ xs) t m = elim (ℕ_discrete i x) [
  | yes same ↦ let holds : p x ≡ true = rw (← same) t in rw holds (ground arith)
  | no other ↦
      let later = elem-filter p i xs t (ground arith) in
      elim (Bool-cases (p x)) [ inl y ↦ rw y (ground arith) | inr n ↦ rw n later ]
]

filter-elem : (p : ℕ → Bool) (i : ℕ) (xs : List ℕ) → elem i (filter_by p xs) ≡ true → p i ≡ true
unfolding filter_by elem
filter-elem p i [] m = cc
filter-elem p i (x ∷ xs) m = elim (Bool-cases (p x)) [
  | inr n ↦ filter-elem p i xs (rw n at m)
  | inl y ↦
      let m' = rw y at m in
      elim (ℕ_discrete i x) [ yes same ↦ rw same y | no other ↦ filter-elem p i xs (ground arith) ]
]

elem-range : (start count i : ℕ) → start ≤ i → i < start + count → elem i (range start count) ≡ true
unfolding range elem
elem-range start zero i h k = absurd (omega arith)
elem-range start (suc count) i h k = elim (ℕ_discrete i start) [
  | yes same ↦ ground arith
  | no other ↦
      let later = elem-range (start + 1) count i (omega arith) (omega arith) in ground arith
]

-- What the loop may assume of the commands that were taken: every command that waits for nothing is taken or
-- ready, and no command waits for one that was taken.
record AreTaken (count : ℕ) (dependencies ready : List (ℕ × ℕ)) (taken : List ℕ) : Type 0 where
  free :
      (i : ℕ)
      → i < count
      → blocked dependencies i ≡ false
      → (elem i taken || elem i (indices ready)) ≡ true
  done : (i j : ℕ) → waits_for dependencies i j ≡ true → elem j taken ≡ false

-- The dependencies that are left when nothing is ready any more.
record AreLeft (count : ℕ) (dependencies ready left : List (ℕ × ℕ)) (order : List ℕ) : Type 0 where
  counted :
      length order + length (filter_by (blocked left) (range 0 count))
      ≡ length ready + length (filter_by (blocked dependencies) (range 0 count))
  within : (i j : ℕ) → waits_for left i j ≡ true → waits_for dependencies i j ≡ true
  held : (i j : ℕ) → waits_for left i j ≡ true → j < count → blocked left j ≡ true

next-AreTaken :
    (keys : List ℕ) (dependencies : List (ℕ × ℕ)) (key index : ℕ) (ready : List (ℕ × ℕ))
    (taken : List ℕ)
    → AreTaken (length keys) dependencies ((key, index) ∷ ready) taken
    → AreTaken
        (length keys)
        (release dependencies index)
        (push_all keys (woken dependencies index (length keys)) ready)
        (index ∷ taken)
unfolding elem woken
next-AreTaken keys dependencies key index ready taken t =
    let woke =
      λ (i : ℕ). waits_for dependencies i index && not (blocked (release dependencies index) i) in
    record {
      free = λ i below b.
          let split = blocked-release dependencies index i in
          elim (Bool-cases (waits_for dependencies i index)) [
            | inl w ↦
                let test : woke i ≡ true = ground arith in
                let awake =
                  elem-filter woke i (range 0 (length keys)) test
                    (elem-range 0 (length keys) i (omega arith) (omega arith)) in
                let pushed =
                  elem-push_all keys i (filter_by woke (range 0 (length keys))) ready
                    (ground arith) in
                ground arith
            | inr n ↦
                let before = t.free i below (ground arith) in
                elim (Bool-cases (elem i (indices ready))) [
                  | inl r ↦
                      let pushed =
                        elem-push_all keys i (filter_by woke (range 0 (length keys))) ready
                          (ground arith) in
                      ground arith
                  | inr r ↦ ground arith
                ]
          ];
      done = λ i j w.
          let (old, other) = release-within dependencies index i j w in
          let before = t.done i j old in ground arith;
    }

take_ready-AreLeft :
    (keys : List ℕ) (fuel : ℕ) (dependencies ready : List (ℕ × ℕ)) (taken order : List ℕ)
    → AreReady (length keys) dependencies ready
    → AreTaken (length keys) dependencies ready taken
    → take_ready keys fuel dependencies ready ≡ ok order
    → (left : List (ℕ × ℕ)) × AreLeft (length keys) dependencies ready left order
unfolding take_ready elem
take_ready-AreLeft keys fuel dependencies [] taken order v t e = (
  dependencies,
  subst (λ o. AreLeft (length keys) dependencies [] dependencies o) (ok-injective e)
      (record {
        counted = refl;
        within = λ i j w. w;
        held = λ i j w below. elim (Bool-cases (blocked dependencies j)) [
          | inl b ↦ b
          | inr n ↦ absurd (let f = t.free j below n in let d = t.done i j w in ground arith)
        ];
      }),
)
take_ready-AreLeft keys zero dependencies (r ∷ ready) taken order v t e = cc
take_ready-AreLeft keys (suc fuel) dependencies ((key, index) ∷ ready) taken order v t e =
    let after = release dependencies index in
    let ready' = push_all keys (woken dependencies index (length keys)) ready in
    >>=-then (take_ready keys fuel after ready') _ e λ rest ran made.
      let (left, l) =
        take_ready-AreLeft keys fuel after ready' (index ∷ taken) rest
          (push-AreReady keys dependencies key index ready v)
          (next-AreTaken keys dependencies key index ready taken t) ran in
      let shorter = waiting-release keys dependencies key index ready v in
      let counted = l.counted in
      (
        left,
        subst (λ o. AreLeft (length keys) dependencies ((key, index) ∷ ready) left o)
            (ok-injective made)
            (record {
              counted = omega arith;
              within = λ i j w. (release-within dependencies index i j (l.within i j w)).0;
              held = l.held;
            }),
      )

start-AreTaken :
    (keys : List ℕ) (dependencies : List (ℕ × ℕ))
    → AreTaken (length keys) dependencies (at_start keys dependencies) []
unfolding elem
start-AreTaken keys dependencies =
    let free = λ (i : ℕ). not (blocked dependencies i) in
    record {
      free = λ i below b.
          let test : free i ≡ true = ground arith in
          let unblocked =
            elem-filter free i (range 0 (length keys)) test
              (elem-range 0 (length keys) i (omega arith) (omega arith)) in
          elem-push_all keys i (filter_by free (range 0 (length keys))) [] (ground arith);
      done = λ i j w. refl;
    }

blocked-waits :
    (dependencies : List (ℕ × ℕ)) (i : ℕ)
    → blocked dependencies i ≡ true
    → (j : ℕ) × (waits_for dependencies i j ≡ true)
unfolding blocked waits_for
blocked-waits [] i b = cc
blocked-waits (d ∷ rest) i b = elim (Bool-cases (d.0 == i)) [
  | inl here ↦ (d.1, ground arith)
  | inr n ↦ let (j, w) = blocked-waits rest i (rw n at b) in (j, ground arith)
]

waits_for-below :
    (count : ℕ) (dependencies : List (ℕ × ℕ)) (i j : ℕ)
    → All (λ (d : ℕ × ℕ). d.1 < count) dependencies
    → waits_for dependencies i j ≡ true
    → j < count
unfolding waits_for
waits_for-below count [] i j h w = cc
waits_for-below count (d ∷ rest) i j h w = elim (ℕ_discrete d.1 j) [
  | yes same ↦ let first = h.0 in omega arith
  | no other ↦ waits_for-below count rest i j h.1 (ground arith)
]

-- A list that is not empty, and one of its elements.
some-elem : (xs : List ℕ) → length xs ≢ 0 → (x : ℕ) × (elem x xs ≡ true)
unfolding elem
some-elem [] h = absurd (h refl)
some-elem (x ∷ xs) h = (x, ground arith)

nothing_in : (u : ℕ) → elem u [] ≡ true → ⊥
unfolding elem
nothing_in u m = cc

-- Fewer commands than there are mean a cycle.
pub take_ready-cycle :
    (keys : List ℕ) (dependencies : List (ℕ × ℕ)) (order : List ℕ)
    → All (λ (d : ℕ × ℕ). d.1 < length keys) dependencies
    → take_ready keys (length keys) dependencies (at_start keys dependencies) ≡ ok order
    → length order ≢ length keys
    → (u : ℕ) × Waiting dependencies u u
take_ready-cycle keys dependencies order below e short =
    let count = length keys in
    let (left, l) =
      take_ready-AreLeft keys count dependencies (at_start keys dependencies) [] order
        (start-AreReady keys dependencies) (start-AreTaken keys dependencies) e in
    let held = filter_by (blocked left) (range 0 count) in
    let counted = l.counted in
    let (v, among) = some-elem held (λ empty. short (omega (arith, start-eq keys dependencies))) in
    AreHeld-cycle dependencies held
      (λ i m.
        let (j, w) = blocked-waits left i (filter-elem (blocked left) i (range 0 count) m) in
        let waits = l.within i j w in
        let small = waits_for-below count dependencies i j below waits in
        (
          j,
          waits,
          elem-filter (blocked left) j (range 0 count) (l.held i j w small)
              (elem-range 0 count j (omega arith) (omega arith)),
        ))
      (suc (length (entries held))) [] v among (omega (arith, unvisited-length (entries held)))
      (λ u m. absurd (nothing_in u m))
