-- ===== src/Arena/Rounds.antt =====
-- The loop of `_allocate_intervals`: what each round keeps.
use ag_infer.Prelude.{
  ℕ, ◌+◌, ◌-◌, ◌^◌, ◌≤◌, ◌<◌, ◌≡◌, ◌≢◌, refl, inl, inr, ◌⊎◌, false, List, [], ◌∷◌, ◌++◌, arith, ltb,
  sum_by-append, All, All-append, All-imp, In, In-append_left, In-append_right, Pairwise,
  Pairwise-snoc, Bool-cases, ok, err, >>=-eq-ok, raise_if-eq-ok, assertion_error, validation_error,
  Result-cases, Failure, sym, ok-injective, ltb→lt,
}
use ag_infer.Arena.{
  Block, Active, Pending, Placed, ArenaState, merge_free, release, choose, clashes, overlap, align,
  checked_add, enter, place,
}
use ag_infer.Arena.Align.{align_bounds}
use ag_infer.Arena.Measure.{holds}
use ag_infer.Arena.Space.{
  Fits, IsLive, block_of, choose_cases, recycle-Fits, choose-Fits, Fits-clashes,
}

-- Two intervals do not overlap in the arena if their lifetimes meet.
abbrev pub Apart : Placed → Placed → Type 0
Apart p q = q.start ≤ p.end → p.start ≤ q.end → overlap p.offset p.bytes q.offset q.bytes ≡ false

abbrev active_of : Placed → Active
active_of p = record { end = p.end; offset = p.offset; size = p.bytes; value_id = p.value_id }

abbrev placed_at : Pending → ℕ → Placed
placed_at p offset = record {
  start = p.start;
  value_id = p.value_id;
  end = p.end;
  bytes = p.bytes;
  offset = offset;
}

-- A placed interval is dead at the time `now`, or its block is live.
abbrev Tracked : ℕ → List Active → Placed → Type 0
Tracked now active p = (p.end < now) ⊎ In (active_of p) active

pub record IsSound (now : ℕ) (s : ArenaState) : Type 0 where
  pub space : Fits s.active s.free s.arena_end
  pub live : All IsLive s.active
  pub peak : s.peak_live ≤ s.arena_end
  pub within : All (λ (p : Placed). p.offset + p.bytes ≤ s.arena_end) s.placed
  pub tracked : All (Tracked now s.active) s.placed
  pub apart : Pairwise Apart s.placed

pub release-IsLive :
    (start : ℕ) (active : List Active) → All IsLive active → All IsLive (release start active).0
unfolding release
release-IsLive start [] h = tt
release-IsLive start (a ∷ rest) h = ground (arith, release-IsLive start rest h.1)

release-In :
    (start : ℕ) (a : Active) (active : List Active)
    → In a active
    → (a.end < start) ⊎ In a (release start active).0
unfolding release
release-In start a [] m = absurd m
release-In start a (b ∷ rest) (inl e) = elim (Bool-cases (ltb b.end start)) [
  | inl t ↦ inl (rw e (ltb→lt b.end start t))
  | inr n ↦ inr (rw (n) (inl e))
]
release-In start a (b ∷ rest) (inr m) = elim (release-In start a rest m) [
  | inl d ↦ inl d
  | inr r ↦ inr (elim (Bool-cases (ltb b.end start)) [ inl t ↦ rw t r | inr n ↦ rw n (inr r) ])
]

clashes-In :
    (offset bytes : ℕ) (a : Active) (active : List Active)
    → clashes offset bytes active ≡ false
    → In a active
    → overlap offset bytes a.offset a.size ≡ false
unfolding clashes
clashes-In offset bytes a [] h m = absurd m
clashes-In offset bytes a (b ∷ rest) h (inl e) = rw e (ground arith)
clashes-In offset bytes a (b ∷ rest) h (inr m) = clashes-In offset bytes a rest (ground arith) m

-- The parts of a round that ends well.
pub record Round (k : ℕ) (s : ArenaState) (p : Pending) (s' : ArenaState) : Type 0 where
  pub offset : ℕ
  pub free' : List Block
  pub arena_end' : ℕ
  pub chosen :
      choose (2 ^ k) p.bytes (merge_free (s.free ++ (release p.start s.active).1)) s.arena_end
      ≡ ok (offset, free', arena_end')
  pub clear : clashes offset p.bytes (release p.start s.active).0 ≡ false
  pub entered : s' ≡ enter p offset arena_end' (release p.start s.active).0 free' s

pub place-Round :
    (k : ℕ) (s : ArenaState) (p : Pending) {s' : ArenaState}
    → place (2 ^ k) s p ≡ ok s'
    → Round k s p s'
unfolding place
place-Round k s p {s'} e =
    let ((offset, free', arena_end'), chosen, more) = >>=-eq-ok _ _ e in
    let (_, passed, entered) = >>=-eq-ok _ _ more in
    record {
      offset = offset;
      free' = free';
      arena_end' = arena_end';
      chosen = chosen;
      clear = raise_if-eq-ok _ _ passed;
      entered = sym (ok-injective entered);
    }

-- A block that fits in the arena ends before the end of the arena.
placed-within :
    (p : Pending) (offset : ℕ) (active : List Active) {free : List Block} {arena_end : ℕ}
    → 0 < p.bytes
    → Fits (active ++ (block_of p offset ∷ [])) free arena_end
    → offset + p.bytes ≤ arena_end
unfolding holds
placed-within p offset active {free} {arena_end} h v =
    let last = offset + p.bytes - 1 in
    let once = v.once last in
    let split =
      sum_by-append (λ (b : Active). holds last b.offset b.size) active (block_of p offset ∷ []) in
    ground (arith, once, split)

choose-grows :
    (k bytes : ℕ) (free : List Block) (arena_end : ℕ) {offset arena_end' : ℕ} {free' : List Block}
    → choose (2 ^ k) bytes free arena_end ≡ ok (offset, free', arena_end')
    → arena_end ≤ arena_end'
choose-grows k bytes free arena_end e = elim (choose_cases k bytes free arena_end e) [
  | inl (same, _) ↦ omega arith
  | inr (aligned, longer, _) ↦ omega (arith, align_bounds arena_end k aligned)
]

choose-err :
    (k bytes : ℕ) (free : List Block) (arena_end : ℕ) {x : Failure}
    → choose (2 ^ k) bytes free arena_end ≡ err x
    → x ≡ validation_error
unfolding choose align checked_add
choose-err k bytes free arena_end e = ground arith

-- What is tracked before a round is tracked when its releases are done.
release-Tracked :
    (now start : ℕ) (active : List Active) (p : Placed)
    → now ≤ start
    → Tracked now active p
    → Tracked start (release start active).0 p
release-Tracked now start active p h (inl d) = inl (omega arith)
release-Tracked now start active p h (inr m) = release-In start (active_of p) active m

-- A new interval is apart from each one that is tracked.
Tracked-Apart :
    (p : Pending) (offset : ℕ) (active : List Active) (q : Placed)
    → clashes offset p.bytes active ≡ false
    → Tracked p.start active q
    → Apart q (placed_at p offset)
Tracked-Apart p offset active q clear (inl d) = λ meets _. absurd (omega arith)
Tracked-Apart p offset active q clear (inr m) =
    λ _ _. let free_of = clashes-In offset p.bytes (active_of q) active clear m in ground arith

Tracked-snoc :
    (now : ℕ) (active : List Active) (a : Active) (q : Placed)
    → Tracked now active q
    → Tracked now (active ++ (a ∷ [])) q
Tracked-snoc now active a q (inl d) = inl d
Tracked-snoc now active a q (inr m) = inr (In-append_left _ active _ m)

-- A round keeps the soundness of the state.
pub place-IsSound :
    (k now : ℕ) (s : ArenaState) (p : Pending) {s' : ArenaState}
    → now ≤ p.start
    → 0 < p.bytes
    → IsSound now s
    → place (2 ^ k) s p ≡ ok s'
    → IsSound p.start s'
unfolding enter
place-IsSound k now s p {s'} later pos v e =
    let r = place-Round k s p e in
    let retained = (release p.start s.active).0 in
    let fits : Fits (retained ++ (block_of p r.offset ∷ [])) r.free' r.arena_end' =
      choose-Fits k p (recycle-Fits p.start v.space) r.chosen in
    let grows = choose-grows k p.bytes _ s.arena_end r.chosen in
    let still =
      All-imp (Tracked now s.active) (Tracked p.start retained) s.placed
        (λ q. release-Tracked now p.start s.active q later) v.tracked in
    rw r.entered (record {
      space = fits;
      live = All-append IsLive retained _ (release-IsLive p.start s.active v.live) (pos, tt);
      peak = omega (arith, fits.bytes, v.peak, grows);
      within =
          All-append _ s.placed _
            (All-imp (λ (q : Placed). q.offset + q.bytes ≤ s.arena_end) _ s.placed
              (λ q h. omega arith) v.within)
            (placed-within p r.offset retained pos fits, tt);
      tracked =
          All-append _ s.placed _
            (All-imp (Tracked p.start retained) _ s.placed
              (λ q. Tracked-snoc p.start retained (block_of p r.offset) q) still)
            (inr (In-append_right _ retained _ (inl refl)), tt);
      apart = Pairwise-snoc Apart s.placed _ v.apart (
          All-imp (Tracked p.start retained) _ s.placed
            (λ q. Tracked-Apart p r.offset retained q r.clear) still);
    })

-- A round that is refused is refused for the size of the arena: the test for overlaps passes.
pub place-ne-assertion :
    (k now : ℕ) (s : ArenaState) (p : Pending)
    → 0 < p.bytes
    → IsSound now s
    → place (2 ^ k) s p ≢ err assertion_error
unfolding place
place-ne-assertion k now s p pos v e =
    let retained = (release p.start s.active).0 in
    let merged = merge_free (s.free ++ (release p.start s.active).1) in
    elim (Result-cases (choose (2 ^ k) p.bytes merged s.arena_end)) [
      | inl ((offset, free', arena_end'), chosen) ↦
          let fits = choose-Fits k p (recycle-Fits p.start v.space) chosen in
          let live = release-IsLive p.start s.active v.live in
          cc (rw (chosen, Fits-clashes p offset retained pos live fits) at e)
      | inr (x, failed) ↦
          let refused = choose-err k p.bytes merged s.arena_end failed in cc (rw failed at e)
    ]
