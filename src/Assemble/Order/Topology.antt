-- ===== src/Assemble/Order/Topology.antt =====
-- The loop of `order_command_placements`: it ends, and it takes the commands in topological order.
use ag_infer.Prelude.{
  ℕ, zero, suc, ◌+◌, ◌≤◌, ◌<◌, ◌≡◌, ◌≢◌, refl, sym, ap, ◌∙◌, Bool, true, false, not, ◌&&◌, ◌||◌,
  List, [], ◌∷◌, ok, arith, length, get_or, insert_sorted, range, filter_by, All, All-imp, Pairwise,
  Bool-cases, inl, inr,
}
use mathlib.Core.Path.{fun_ext}
use ag_infer.Assemble.Order.{pair_leb, blocked, waits_for, release, woken, push_all, take_ready}

-- A command waits for something before another one is taken just if it waits for something after, or for
-- that one.
pub blocked-release :
    (dependencies : List (ℕ × ℕ)) (index i : ℕ)
    → blocked dependencies i
      ≡ (blocked (release dependencies index) i || waits_for dependencies i index)
unfolding blocked release waits_for filter_by
blocked-release [] index i = refl
blocked-release (d ∷ rest) index i = ground (arith, blocked-release rest index i)

waits_for-release :
    (dependencies : List (ℕ × ℕ)) (index i j : ℕ)
    → j ≢ index
    → waits_for (release dependencies index) i j ≡ waits_for dependencies i j
unfolding release waits_for filter_by
waits_for-release [] index i j h = refl
waits_for-release (d ∷ rest) index i j h = ground (arith, waits_for-release rest index i j)

waits_for-blocked :
    (dependencies : List (ℕ × ℕ)) (i j : ℕ)
    → blocked dependencies i ≡ false
    → waits_for dependencies i j ≡ false
unfolding blocked waits_for
waits_for-blocked [] i j h = refl
waits_for-blocked (d ∷ rest) i j h = ground (arith, waits_for-blocked rest i j)

module _ {A : Type 0} where
  -- What one of two tests selects: what the first one selects, and what only the second one does.
  length-filter_or :
      (p q : A → Bool) (xs : List A)
      → length (filter_by (λ x. p x || q x) xs)
        ≡ length (filter_by p xs) + length (filter_by (λ x. q x && not (p x)) xs)
  unfolding filter_by
  length-filter_or p q [] = omega arith
  length-filter_or p q (x ∷ xs) = ground (arith, length-filter_or p q xs)

  filter-All {κ} :
      (P : A → Type κ) (p : A → Bool) (xs : List A)
      → All P xs
      → All (λ x. P x × (p x ≡ true)) (filter_by p xs)
  unfolding filter_by
  filter-All P p [] h = tt
  filter-All P p (x ∷ xs) h = elim (Bool-cases (p x)) [
    | inl t ↦ rw t ((h.0, t), filter-All P p xs h.1)
    | inr n ↦ rw n (filter-All P p xs h.1)
  ]

  All-and : (P Q : A → Type 0) (xs : List A) → All P xs → All Q xs → All (λ x. P x × Q x) xs
  All-and P Q [] h k = tt
  All-and P Q (x ∷ xs) h k = ((h.0, k.0), All-and P Q xs h.1 k.1)

  filter-Pairwise :
      (R : A → A → Type 0) (p : A → Bool) (xs : List A)
      → Pairwise R xs
      → Pairwise R (filter_by p xs)
  unfolding filter_by
  filter-Pairwise R p [] h = tt
  filter-Pairwise R p (x ∷ xs) h = elim (Bool-cases (p x)) [
    | inl t ↦ rw t (
      All-imp _ _ (filter_by p xs) (λ y s. s.0) (filter-All (R x) p xs h.0),
      filter-Pairwise R p xs h.1,
    )
    | inr n ↦ rw n (filter-Pairwise R p xs h.1)
  ]

  module _ (leq : A → A → Bool) where
    length-insert : (x : A) (xs : List A) → length (insert_sorted leq x xs) ≡ length xs + 1
    unfolding insert_sorted
    length-insert x [] = omega arith
    length-insert x (y ∷ ys) = ground (arith, length-insert x ys)

    insert-All :
        (P : A → Type 0) (x : A) (xs : List A) → P x → All P xs → All P (insert_sorted leq x xs)
    unfolding insert_sorted
    insert-All P x [] h k = (h, tt)
    insert-All P x (y ∷ ys) h k = elim (Bool-cases (leq x y)) [
      | inl t ↦ rw t (h, k)
      | inr n ↦ rw n (k.0, insert-All P x ys h k.1)
    ]

    insert-Pairwise :
        (R : A → A → Type 0)
        → ((a b : A) → R a b → R b a)
        → (x : A) (xs : List A) → All (R x) xs
        → Pairwise R xs
        → Pairwise R (insert_sorted leq x xs)
    unfolding insert_sorted
    insert-Pairwise R flip x [] h k = (tt, tt)
    insert-Pairwise R flip x (y ∷ ys) h k = elim (Bool-cases (leq x y)) [
      | inl t ↦ rw t (h, k)
      | inr n ↦ rw n (insert-All (R y) x ys (flip x y h.0) k.0, insert-Pairwise R flip x ys h.1 k.1)
    ]

range-below : (start count : ℕ) → All (λ i. i < start + count) (range start count)
unfolding range
range-below start zero = tt
range-below start (suc count) = (
  omega arith,
  All-imp _ _ (range (start + 1) count) (λ i h. omega arith) (range-below (start + 1) count),
)

range-above : (low start count : ℕ) → low < start → All (λ i. low ≢ i) (range start count)
unfolding range
range-above low start zero h = tt
range-above low start (suc count) h =
    (λ e. omega arith, range-above low (start + 1) count (omega arith))

range-apart : (start count : ℕ) → Pairwise ◌≢◌ (range start count)
unfolding range
range-apart start zero = tt
range-apart start (suc count) =
    (range-above start (start + 1) count (omega arith), range-apart (start + 1) count)

module _ (keys : List ℕ) where
  push_all-All :
      (P : ℕ → Type 0) (is : List ℕ) (ready : List (ℕ × ℕ))
      → All P is
      → All (λ (r : ℕ × ℕ). P r.1) ready
      → All (λ (r : ℕ × ℕ). P r.1) (push_all keys is ready)
  unfolding push_all
  push_all-All P [] ready h k = k
  push_all-All P (i ∷ is) ready h k =
      push_all-All P is (insert_sorted pair_leb (get_or keys i 0, i) ready) h.1
        (insert-All pair_leb (λ (r : ℕ × ℕ). P r.1) (get_or keys i 0, i) ready h.0 k)

  length-push_all :
      (is : List ℕ) (ready : List (ℕ × ℕ))
      → length (push_all keys is ready) ≡ length is + length ready
  unfolding push_all
  length-push_all [] ready = omega arith
  length-push_all (i ∷ is) ready = omega (
    arith,
    length-push_all is (insert_sorted pair_leb (get_or keys i 0, i) ready),
    length-insert pair_leb (get_or keys i 0, i) ready,
  )

  abbrev Distinct : ℕ × ℕ → ℕ × ℕ → Type 0
  Distinct a b = a.1 ≢ b.1

  push_all-Pairwise :
      (is : List ℕ) (ready : List (ℕ × ℕ))
      → Pairwise ◌≢◌ is
      → All (λ i. All (λ (r : ℕ × ℕ). i ≢ r.1) ready) is
      → Pairwise Distinct ready
      → Pairwise Distinct (push_all keys is ready)
  unfolding push_all
  push_all-Pairwise [] ready apart new k = k
  push_all-Pairwise (i ∷ is) ready apart new k =
      let r : ℕ × ℕ = (get_or keys i 0, i) in
      push_all-Pairwise is (insert_sorted pair_leb r ready) apart.1 (both is apart.0 new.1)
        (insert-Pairwise pair_leb Distinct (λ a b h e. h (sym e)) r ready new.0 k)
    where
      both :
          (js : List ℕ)
          → All (λ j. i ≢ j) js
          → All (λ j. All (λ (r : ℕ × ℕ). j ≢ r.1) ready) js
          → All
              (λ j.
                All (λ (r : ℕ × ℕ). j ≢ r.1) (insert_sorted pair_leb (get_or keys i 0, i) ready))
              js
      both [] h k = tt
      both (j ∷ js) h k = (
        insert-All pair_leb (λ (r : ℕ × ℕ). j ≢ r.1) (get_or keys i 0, i) ready (λ e. h.0 (sym e))
            k.0,
        both js h.1 k.1,
      )

-- The ready commands: each is in range and waits for nothing, and none is there twice.
pub record AreReady (count : ℕ) (dependencies ready : List (ℕ × ℕ)) : Type 0 where
  pub free : All (λ (r : ℕ × ℕ). (r.1 < count) × (blocked dependencies r.1 ≡ false)) ready
  pub apart : Pairwise (λ (a b : ℕ × ℕ). a.1 ≢ b.1) ready

-- An order of commands in which each comes once, waits for no later one, and not for itself.
pub record IsTopological (count : ℕ) (dependencies : List (ℕ × ℕ)) (order : List ℕ) : Type 0 where
  pub within : All (λ i. i < count) order
  pub once : Pairwise ◌≢◌ order
  pub ordered : Pairwise (λ i j. waits_for dependencies i j ≡ false) order
  pub loose : All (λ i. waits_for dependencies i i ≡ false) order

woken-Woken :
    (dependencies : List (ℕ × ℕ)) (index count : ℕ)
    → All
        (λ i.
          (i < count)
          × (blocked (release dependencies index) i ≡ false)
          × (blocked dependencies i ≡ true))
        (woken dependencies index count)
unfolding woken
woken-Woken dependencies index count =
    All-imp _ _ (woken dependencies index count)
      (λ i h.
        let split = blocked-release dependencies index i in
        let below = h.0 in let test = h.1 in (omega arith, ground arith, ground arith))
      (filter-All (λ i. i < 0 + count)
        (λ i. waits_for dependencies i index && not (blocked (release dependencies index) i))
        (range 0 count) (range-below 0 count))

woken-apart :
    (dependencies : List (ℕ × ℕ)) (index count : ℕ) → Pairwise ◌≢◌ (woken dependencies index count)
unfolding woken
woken-apart dependencies index count = filter-Pairwise ◌≢◌ _ (range 0 count) (range-apart 0 count)

-- A run of the loop: what it takes, and what it cannot take.
record IsRun (count : ℕ) (dependencies ready : List (ℕ × ℕ)) (order : List ℕ) : Type 0 where
  topological : IsTopological count dependencies order
  fresh :
      (i : ℕ)
      → blocked dependencies i ≡ false
      → All (λ (r : ℕ × ℕ). i ≢ r.1) ready
      → All (λ j. i ≢ j) order

module _ (keys : List ℕ) (dependencies : List (ℕ × ℕ)) (key index : ℕ) (ready : List (ℕ × ℕ))
    (are_ready : AreReady (length keys) dependencies ((key, index) ∷ ready)) where
  -- Commands that are not blocked are not woken.
  awake-apart :
      (i : ℕ)
      → blocked dependencies i ≡ false
      → All (λ j. i ≢ j) (woken dependencies index (length keys))
  awake-apart i h =
      All-imp _ _ (woken dependencies index (length keys))
        (λ j w e. let b = w.2 in cc (rw (sym e) at b))
        (woken-Woken dependencies index (length keys))

  released :
      (i : ℕ) → blocked dependencies i ≡ false → blocked (release dependencies index) i ≡ false
  released i h = let split = blocked-release dependencies index i in ground arith

  push-fresh :
      (i : ℕ)
      → blocked dependencies i ≡ false
      → All (λ (r : ℕ × ℕ). i ≢ r.1) ready
      → All (λ (r : ℕ × ℕ). i ≢ r.1) (push_all keys (woken dependencies index (length keys)) ready)
  push-fresh i h k =
      push_all-All keys (λ j. i ≢ j) (woken dependencies index (length keys)) ready
        (awake-apart i h) k

  pub push-AreReady :
      AreReady
        (length keys)
        (release dependencies index)
        (push_all keys (woken dependencies index (length keys)) ready)
  push-AreReady = record {
    free =
        push_all-All keys
          (λ i. (i < length keys) × (blocked (release dependencies index) i ≡ false))
          (woken dependencies index (length keys)) ready
          (All-imp _ _ (woken dependencies index (length keys)) (λ i w. (w.0, w.1))
            (woken-Woken dependencies index (length keys)))
          (All-imp _ _ ready (λ r f. (f.0, released r.1 f.1)) are_ready.free.1);
    apart =
        push_all-Pairwise keys (woken dependencies index (length keys)) ready
          (woken-apart dependencies index (length keys))
          (All-imp _ _ (woken dependencies index (length keys))
            (λ i w.
              All-imp _ _ ready (λ r f e. let b = w.2 in let b' = f.1 in cc (rw e at b))
                are_ready.free.1)
            (woken-Woken dependencies index (length keys)))
          are_ready.apart.1;
  }

  -- The commands that wait or are ready grow fewer by one.
  pub waiting-release :
      length (push_all keys (woken dependencies index (length keys)) ready)
        + length (filter_by (blocked (release dependencies index)) (range 0 (length keys)))
      ≡ length ready + length (filter_by (blocked dependencies) (range 0 (length keys)))
  unfolding woken
  waiting-release =
      let all = range 0 (length keys) in
      let split =
        ap (λ p. length (filter_by p all)) (fun_ext (blocked-release dependencies index))
        ∙ length-filter_or (blocked (release dependencies index))
            (λ i. waits_for dependencies i index) all in
      omega (arith, split, length-push_all keys (woken dependencies index (length keys)) ready)

  cons-IsRun :
      (rest : List ℕ)
      → IsRun
          (length keys)
          (release dependencies index)
          (push_all keys (woken dependencies index (length keys)) ready)
          rest
      → IsRun (length keys) dependencies ((key, index) ∷ ready) (index ∷ rest)
  cons-IsRun rest run =
      let t = run.topological in
      let first = are_ready.free.0 in
      let behind =
        run.fresh index (released index first.1) (push-fresh index first.1 are_ready.apart.0) in
      let kept =
        λ (i j : ℕ) (other : index ≢ j) (w : waits_for (release dependencies index) i j ≡ false).
          sym (waits_for-release dependencies index i j (λ e. other (sym e))) ∙ w in
      record {
        topological = record {
          within = (first.0, t.within);
          once = (behind, t.once);
          ordered = (
            All-imp _ _ rest (λ j _. waits_for-blocked dependencies index j first.1) behind,
            kept_pairs kept rest behind t.ordered,
          );
          loose = (
            waits_for-blocked dependencies index index first.1,
            All-imp _ _ rest (λ i h. kept i i h.0 h.1) (All-and _ _ rest behind t.loose),
          );
        };
        fresh =
            λ i free others. (others.0, run.fresh i (released i free) (push-fresh i free others.1));
      }
    where
      kept_pairs :
          ((i j : ℕ)
            → index ≢ j
            → waits_for (release dependencies index) i j ≡ false
            → waits_for dependencies i j ≡ false)
          → (xs : List ℕ) → All (λ j. index ≢ j) xs
          → Pairwise (λ i j. waits_for (release dependencies index) i j ≡ false) xs
          → Pairwise (λ i j. waits_for dependencies i j ≡ false) xs
      kept_pairs kept [] h k = tt
      kept_pairs kept (x ∷ xs) h k = (
        All-imp _ _ xs (λ j p. kept x j p.0 p.1) (All-and _ _ xs h.1 k.0),
        kept_pairs kept xs h.1 k.1,
      )

take_ready-IsRun :
    (keys : List ℕ) (fuel : ℕ) (dependencies ready : List (ℕ × ℕ))
    → AreReady (length keys) dependencies ready
    → length ready + length (filter_by (blocked dependencies) (range 0 (length keys))) ≤ fuel
    → (order : List ℕ) × (take_ready keys fuel dependencies ready ≡ ok order)
      × IsRun (length keys) dependencies ready order
unfolding take_ready
take_ready-IsRun keys fuel dependencies [] v h = (
  [],
  refl,
  record {
    topological = record { within = tt; once = tt; ordered = tt; loose = tt };
    fresh = λ i free others. tt;
  },
)
take_ready-IsRun keys zero dependencies (r ∷ ready) v h = absurd (omega arith)
take_ready-IsRun keys (suc fuel) dependencies ((key, index) ∷ ready) v h =
    let shorter = waiting-release keys dependencies key index ready v in
    let (rest, e, run) =
      take_ready-IsRun keys fuel (release dependencies index)
        (push_all keys (woken dependencies index (length keys)) ready)
        (push-AreReady keys dependencies key index ready v) (omega arith) in
    (index ∷ rest, rw e refl, cons-IsRun keys dependencies key index ready v rest run)

pub take_ready-IsTopological :
    (keys : List ℕ) (fuel : ℕ) (dependencies ready : List (ℕ × ℕ))
    → AreReady (length keys) dependencies ready
    → length ready + length (filter_by (blocked dependencies) (range 0 (length keys))) ≤ fuel
    → (order : List ℕ) × (take_ready keys fuel dependencies ready ≡ ok order)
      × IsTopological (length keys) dependencies order
take_ready-IsTopological keys fuel dependencies ready v h =
    let (order, e, run) = take_ready-IsRun keys fuel dependencies ready v h in
    (order, e, run.topological)

-- The commands that are ready at the start.
abbrev pub at_start : List ℕ → List (ℕ × ℕ) → List (ℕ × ℕ)
at_start keys dependencies =
    push_all keys (filter_by (λ i. not (blocked dependencies i)) (range 0 (length keys))) []

pub start-AreReady :
    (keys : List ℕ) (dependencies : List (ℕ × ℕ))
    → AreReady (length keys) dependencies (at_start keys dependencies)
start-AreReady keys dependencies =
    let free = filter_by (λ i. not (blocked dependencies i)) (range 0 (length keys)) in
    record {
      free =
          push_all-All keys (λ i. (i < length keys) × (blocked dependencies i ≡ false)) free []
            (All-imp _ _ free
              (λ i h. let below = h.0 in let test = h.1 in (omega arith, ground arith))
              (filter-All (λ i. i < 0 + length keys) (λ i. not (blocked dependencies i))
                (range 0 (length keys)) (range-below 0 (length keys))))
            tt;
      apart =
          push_all-Pairwise keys free []
            (filter-Pairwise ◌≢◌ _ (range 0 (length keys)) (range-apart 0 (length keys)))
            (everywhere free) tt;
    }
  where
    everywhere : (is : List ℕ) → All (λ (i : ℕ). Unit {0}) is
    everywhere [] = tt
    everywhere (i ∷ is) = (tt, everywhere is)

length-range : (start count : ℕ) → length (range start count) ≡ count
unfolding range
length-range start zero = refl
length-range start (suc count) = omega (arith, length-range (start + 1) count)

length-filter_not :
    (p : ℕ → Bool) (xs : List ℕ)
    → length (filter_by (λ x. not (p x)) xs) + length (filter_by p xs) ≡ length xs
unfolding filter_by
length-filter_not p [] = omega arith
length-filter_not p (x ∷ xs) = ground (arith, length-filter_not p xs)

pub start-eq :
    (keys : List ℕ) (dependencies : List (ℕ × ℕ))
    → length (at_start keys dependencies)
        + length (filter_by (blocked dependencies) (range 0 (length keys)))
      ≡ length keys
start-eq keys dependencies = omega (
  arith,
  length-push_all keys (filter_by (λ i. not (blocked dependencies i)) (range 0 (length keys))) [],
  length-filter_not (blocked dependencies) (range 0 (length keys)),
  length-range 0 (length keys),
)
