-- ===== src/Reader/Runs.antt =====
-- Runs of the reader, and its theorems at a concrete file.
use ag_infer.Prelude.{
  ℕ, ◌≤◌, ◌≡◌, refl, true, false, none, some, List, [], ◌∷◌, ok, err, validation_error, length, All,
}
use ag_infer.Prelude.Bytes.{concat}
use ag_infer.Reader.{
  TensorRecord, SafetensorsReader, View, enter, close, require_open, find_record, tensor, slice,
  readinto, chunk_loop, iter_chunks, open_slice, release_slice,
}
use ag_infer.Reader.Chunks.{iter_chunks_whole}
use ag_infer.Reader.Copies.{IsCopy, readinto-IsCopy}

computed : Unit {0}
unfolding enter close require_open find_record tensor readinto chunk_loop iter_chunks open_slice
    release_slice concat
computed = tt

abbrev file : List ℕ
file = 90 ∷ 91 ∷ 1 ∷ 2 ∷ 3 ∷ 4 ∷ 5 ∷ []

abbrev weight : TensorRecord
weight = record { name = "w"; source_offset = 2; byte_length = 5 }

abbrev closed : SafetensorsReader
closed = record {
  records = weight ∷ [];
  mapping = none;
  stream = false;
  exported = 0;
  generation = 0;
}

abbrev opened : SafetensorsReader
opened = record closed { mapping = some file; stream = true; generation = 1 }

enters : enter (some file) closed ≡ (ok tt, opened)
unfolding computed
enters = refl

enter_again : enter (some file) opened ≡ (err validation_error, opened)
unfolding computed
enter_again = refl

closed_refused : iter_chunks closed "w" 2 ≡ err validation_error
unfolding computed
closed_refused = refl

abbrev view : View
view = record { bytes = 2 ∷ 3 ∷ []; generation = 1 }

abbrev viewed : SafetensorsReader
viewed = record opened { exported = 1 }

views : open_slice opened "w" 1 (some 2) ≡ ok (view, viewed)
unfolding computed
views = refl

-- A view is not released: the mapping is given up, and the stream stays open.
close_refused : close viewed ≡ (err validation_error, record viewed { mapping = none })
unfolding computed
close_refused = refl

closes : close (release_slice view viewed) ≡ (ok tt, record closed { generation = 1 })
unfolding computed
closes = refl

abbrev chunks : List (List ℕ)
chunks = (1 ∷ 2 ∷ []) ∷ (3 ∷ 4 ∷ []) ∷ (5 ∷ []) ∷ []

chunked : iter_chunks opened "w" 2 ≡ ok chunks
unfolding computed
chunked = refl

iter_chunks_whole_example :
    (mapping : List ℕ) × (t : TensorRecord) × (require_open opened ≡ ok mapping)
    × (tensor opened "w" ≡ ok t)
    × (concat chunks ≡ slice mapping t.source_offset t.byte_length)
    × All (λ c. length c ≤ 2) chunks
iter_chunks_whole_example = iter_chunks_whole opened "w" 2 chunks chunked

abbrev buffer : List ℕ
buffer = 0 ∷ 0 ∷ 0 ∷ 0 ∷ []

abbrev copied : ℕ × List ℕ
copied = (2, 4 ∷ 5 ∷ 0 ∷ 0 ∷ [])

read_end : readinto opened "w" buffer 3 ≡ ok copied
unfolding computed
read_end = refl

readinto-IsCopy_example :
    (mapping : List ℕ) × (t : TensorRecord) × (require_open opened ≡ ok mapping)
    × (tensor opened "w" ≡ ok t)
    × IsCopy mapping t buffer 3 copied
readinto-IsCopy_example = readinto-IsCopy opened "w" buffer 3 copied read_end
