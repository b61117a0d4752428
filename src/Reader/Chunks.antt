-- ===== src/Reader/Chunks.antt =====
-- What the reader gives out is the bytes of the tensor.
use ag_infer.Prelude.{
  ℕ, zero, suc, ◌+◌, ◌-◌, ◌≤◌, ◌<◌, ◌≡◌, refl, sym, ◌∙◌, ap, ap₂, subst, String, List, [], ◌∷◌,
  ◌++◌, ok, raise_if, length, take, drop, ltb, ◌==◌, min, All, arith, Bool-cases, inl, inr, ltb→ge,
  ltb→lt, >>=-then, ok-injective, raise_if-eq-ok,
}
use ag_infer.Prelude.Bytes.{concat}
use ag_infer.Reader.{
  TensorRecord, SafetensorsReader, require_open, tensor, slice, chunk_loop, iter_chunks,
}

length-take : (n : ℕ) (xs : List ℕ) → length (take n xs) ≤ n
length-take zero xs = omega arith
length-take (suc n) [] = omega arith
length-take (suc n) (x ∷ xs) = omega (arith, length-take n xs)

take-nil : (n : ℕ) → take {A = ℕ} n [] ≡ []
take-nil zero = refl
take-nil (suc n) = refl

drop-nil : (n : ℕ) → drop {A = ℕ} n [] ≡ []
drop-nil zero = refl
drop-nil (suc n) = refl

take-add : (a b : ℕ) (xs : List ℕ) → take a xs ++ take b (drop a xs) ≡ take (a + b) xs
take-add zero b xs = ap (λ (n : ℕ). take n xs) (omega arith)
take-add (suc a) b [] = take-nil b ∙ sym (take-nil (suc a + b))
take-add (suc a) b (x ∷ xs) =
    let same : suc (a + b) ≡ suc a + b = omega arith in
    ap (λ l. x ∷ l) (take-add a b xs) ∙ ap (λ (n : ℕ). take n (x ∷ xs)) same

drop-add : (a b : ℕ) (xs : List ℕ) → drop b (drop a xs) ≡ drop (a + b) xs
drop-add zero b xs = ap (λ (n : ℕ). drop n xs) (omega arith)
drop-add (suc a) b [] = drop-nil b ∙ sym (drop-nil (suc a + b))
drop-add (suc a) b (x ∷ xs) =
    let same : suc (a + b) ≡ suc a + b = omega arith in
    drop-add a b xs ∙ ap (λ (n : ℕ). drop n (x ∷ xs)) same

-- Two neighbouring slices are one.
slice-add :
    (start a b : ℕ) (bytes : List ℕ)
    → slice bytes start a ++ slice bytes (start + a) b ≡ slice bytes start (a + b)
slice-add start a b bytes =
    ap (λ l. take a (drop start bytes) ++ take b l) (sym (drop-add start a bytes))
    ∙ take-add a b (drop start bytes)

module _ (mapping : List ℕ) (t : TensorRecord) (chunk_size : ℕ) (positive : 0 < chunk_size) where
  chunk_loop-concat :
      (fuel position : ℕ)
      → t.byte_length - position ≤ fuel
      → concat (chunk_loop mapping t chunk_size fuel position)
        ≡ slice mapping (t.source_offset + position) (t.byte_length - position)
  unfolding chunk_loop concat
  chunk_loop-concat zero position h =
      let nothing_left : 0 ≡ t.byte_length - position = omega arith in
      ap (slice mapping (t.source_offset + position)) nothing_left
  chunk_loop-concat (suc fuel) position h = elim (Bool-cases (ltb position t.byte_length)) [
    | inr n ↦
        let bound = ltb→ge position t.byte_length n in
        let nothing_left : 0 ≡ t.byte_length - position = omega arith in
        rw n (ap (slice mapping (t.source_offset + position)) nothing_left)
    | inl inside ↦
        let before = ltb→lt position t.byte_length inside in
        let count : ℕ = min chunk_size (t.byte_length - position) in
        let left : ℕ = t.byte_length - (position + count) in
        let start : t.source_offset + (position + count) ≡ t.source_offset + position + count =
          omega arith in
        let total : count + left ≡ t.byte_length - position = omega arith in
        rw inside (
          ap (λ l. slice mapping (t.source_offset + position) count ++ l)
            (chunk_loop-concat fuel (position + count) (omega arith))
          ∙ ap (λ (s : ℕ). slice mapping (t.source_offset + position) count ++ slice mapping s left)
              start
          ∙ slice-add (t.source_offset + position) count left mapping
          ∙ ap (slice mapping (t.source_offset + position)) total)
  ]

  chunk_loop-bound :
      (fuel position : ℕ)
      → All (λ c. length c ≤ chunk_size) (chunk_loop mapping t chunk_size fuel position)
  unfolding chunk_loop
  chunk_loop-bound zero position = tt
  chunk_loop-bound (suc fuel) position = elim (Bool-cases (ltb position t.byte_length)) [
    | inr n ↦ rw n tt
    | inl inside ↦ rw inside (
      let small =
            length-take (min chunk_size (t.byte_length - position))
              (drop (t.source_offset + position) mapping) in
          omega arith,
      chunk_loop-bound fuel _,
    )
  ]

-- Where `iter_chunks` yields chunks of a tensor, they are one after the other the bytes of the tensor in the
-- mapped file, and none is longer than `chunk_size`.
pub iter_chunks_whole :
    (r : SafetensorsReader) (name : String) (chunk_size : ℕ) (chunks : List (List ℕ))
    → iter_chunks r name chunk_size ≡ ok chunks
    → (mapping : List ℕ) × (t : TensorRecord) × (require_open r ≡ ok mapping)
      × (tensor r name ≡ ok t)
      × (concat chunks ≡ slice mapping t.source_offset t.byte_length)
      × All (λ c. length c ≤ chunk_size) chunks
unfolding iter_chunks
iter_chunks_whole r name chunk_size chunks h = >>=-then (require_open r) _ h λ mapping opened h1.
    >>=-then (raise_if (chunk_size == 0) _) _ h1 λ _ tested h2.
      >>=-then (tensor r name) _ h2 λ t found made.
        let test = raise_if-eq-ok _ _ tested in
        let positive : 0 < chunk_size = ground arith in
        let start : t.source_offset + 0 ≡ t.source_offset = omega arith in
        let rest : t.byte_length - 0 ≡ t.byte_length = omega arith in
        let whole =
          chunk_loop-concat mapping t chunk_size positive t.byte_length 0 (omega arith)
          ∙ ap₂ (slice mapping) start rest in
        (
          mapping,
          t,
          opened,
          found,
          ap concat (sym (ok-injective made)) ∙ whole,
          subst (All (λ c. length c ≤ chunk_size)) (ok-injective made)
              (chunk_loop-bound mapping t chunk_size positive t.byte_length 0),
        )
