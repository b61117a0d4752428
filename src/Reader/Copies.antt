-- ===== src/Reader/Copies.antt =====
-- What the reader copies stays within the destination and within the tensor.
use ag_infer.Prelude.{
  ℕ, zero, suc, ◌+◌, ◌-◌, ◌≤◌, ◌≡◌, refl, sym, ◌∙◌, ap, subst, String, List, [], ◌∷◌, ◌++◌, ok,
  raise_if, length, take, drop, ltb, ◌==◌, min, not, arith, ltb→ge, >>=-then, ok-injective,
  raise_if-eq-ok, length-append, ◌⊎◌,
}
use ag_infer.Prelude.Bytes.{take-append, drop-append}
use ag_infer.Reader.{TensorRecord, SafetensorsReader, require_open, tensor, slice, readinto}

length-drop : (n : ℕ) (xs : List ℕ) → length (drop n xs) ≡ length xs - n
length-drop zero xs = omega arith
length-drop (suc n) [] = omega arith
length-drop (suc n) (x ∷ xs) = omega (arith, length-drop n xs)

-- A copy of `count` bytes of a tensor, from an offset, over the front of a destination.
pub record IsCopy (mapping : List ℕ) (t : TensorRecord) (destination : List ℕ) (offset : ℕ)
    (r : ℕ × List ℕ) : Type 0 where
  pub within_destination : r.0 ≤ length destination
  pub within_tensor : offset + r.0 ≤ t.byte_length
  pub most : (r.0 ≡ length destination) ⊎ (offset + r.0 ≡ t.byte_length)
  pub same_length : length r.1 ≡ length destination
  pub copied : take r.0 r.1 ≡ slice mapping (t.source_offset + offset) r.0
  pub kept : drop r.0 r.1 ≡ drop r.0 destination

overlay-IsCopy :
    (mapping : List ℕ) (t : TensorRecord) (destination : List ℕ) (offset count : ℕ)
    → offset ≤ t.byte_length
    → count ≡ min (length destination) (t.byte_length - offset)
    → length (slice mapping (t.source_offset + offset) count) ≡ count
    → IsCopy mapping t destination offset
        (count, slice mapping (t.source_offset + offset) count ++ drop count destination)
overlay-IsCopy mapping t destination offset count inside is_min exact =
    let source = slice mapping (t.source_offset + offset) count in
    let rest = drop count destination in
    record {
      within_destination = omega arith;
      within_tensor = omega arith;
      most = ground arith;
      same_length = omega (arith, length-append source rest, length-drop count destination);
      copied = ap (λ (n : ℕ). take n (source ++ rest)) (sym exact) ∙ take-append source rest;
      kept = ap (λ (n : ℕ). drop n (source ++ rest)) (sym exact) ∙ drop-append source rest;
    }

-- Where `readinto` returns a count and a destination, the count is the lesser of the room in the
-- destination and of the bytes that the tensor has from the offset on; the destination keeps its
-- length; its first bytes are those of the tensor; and all bytes behind them are unchanged.
pub readinto-IsCopy :
    (r : SafetensorsReader) (name : String) (destination : List ℕ) (offset : ℕ)
    (result : ℕ × List ℕ)
    → readinto r name destination offset ≡ ok result
    → (mapping : List ℕ) × (t : TensorRecord) × (require_open r ≡ ok mapping)
      × (tensor r name ≡ ok t)
      × IsCopy mapping t destination offset result
unfolding readinto
readinto-IsCopy r name destination offset result h =
    >>=-then (require_open r) _ h λ mapping opened h1. >>=-then (tensor r name) _ h1 λ t found h2.
      >>=-then (raise_if (ltb t.byte_length offset) _) _ h2 λ _ inside h3.
        let count : ℕ = min (length destination) (t.byte_length - offset) in
        let source = slice mapping (t.source_offset + offset) count in
        >>=-then (raise_if (not (length source == count)) _) _ h3 λ _ whole made.
          let fits = raise_if-eq-ok _ _ inside in
          let full = raise_if-eq-ok _ _ whole in
          let exact : length source ≡ count = ground arith in
          (
            mapping,
            t,
            opened,
            found,
            subst (IsCopy mapping t destination offset) (ok-injective made)
                (overlay-IsCopy mapping t destination offset count (ltb→ge _ _ fits) refl exact),
          )
