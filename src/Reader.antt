-- ===== src/Reader.antt =====
-- src/aginfer/safetensors.py: the reader of one file of tensors. What the file system answers when the
-- file is opened and mapped is an argument.
pub mod Chunks
pub mod Copies
mod Runs
use ag_infer.Prelude.{
  ℕ, zero, suc, ◌+◌, ◌-◌, String, Bool, true, false, Option, none, some, List, [], ◌∷◌, ◌++◌,
  Result, ok, err, validation_error, value_error, ◌>>=◌, ◌>>◌, raise_if, if◌then◌else◌, str_eq,
  length, take, drop, ltb, ◌==◌, min, not,
}

-- The fields of `TensorRecord` that the reader uses.
pub record TensorRecord : Type 0 where
  pub name : String
  pub source_offset : ℕ
  pub byte_length : ℕ

-- The reader: the bytes of the mapped file, whether the stream is open, and the number of views of the
-- mapping that are not released. The generation tells the mappings apart that a reader had.
pub record SafetensorsReader : Type 0 where
  pub records : List TensorRecord
  pub mapping : Option (List ℕ)
  pub stream : Bool
  pub exported : ℕ
  pub generation : ℕ

-- `__enter__`; the argument is what opening and mapping the file gives.
pub enter : Option (List ℕ) → SafetensorsReader → Result (Unit {0}) × SafetensorsReader
enter opened r = elim r.mapping [
  | some bytes ↦ (err validation_error, r)
  | none ↦ elim opened [
    | none ↦ (err validation_error, record r { stream = false })
    | some bytes ↦ (
      ok tt,
      record r { mapping = some bytes; stream = true; exported = 0; generation = r.generation + 1 },
    )
  ]
]

-- `close`, and `__exit__`. A mapping with views cannot be closed: the reader gives it up, and the
-- stream stays open.
pub close : SafetensorsReader → Result (Unit {0}) × SafetensorsReader
close r = elim r.mapping [
  | none ↦ (ok tt, record r { stream = false })
  | some bytes ↦
      if r.exported == 0
      then (ok tt, record r { mapping = none; stream = false })
      else (err validation_error, record r { mapping = none })
]

-- `_require_open`
pub require_open : SafetensorsReader → Result (List ℕ)
require_open r = elim r.mapping [ none ↦ err validation_error | some bytes ↦ ok bytes ]

pub find_record : List TensorRecord → String → Option TensorRecord
find_record [] name = none
find_record (t ∷ rest) name = elim (find_record rest name) [
  | some later ↦ some later
  | none ↦ if str_eq t.name name then some t else none
]

-- `tensor`
pub tensor : SafetensorsReader → String → Result TensorRecord
unfolding find_record
tensor r name = elim (find_record r.records name) [ none ↦ err validation_error | some t ↦ ok t ]

-- `mapping[start : start + count]`
abbrev pub slice : List ℕ → ℕ → ℕ → List ℕ
slice bytes start count = take count (drop start bytes)

-- `readinto`, for a destination that may be written: the number of copied bytes and the destination
-- after the copy.
pub readinto : SafetensorsReader → String → List ℕ → ℕ → Result (ℕ × List ℕ)
unfolding require_open tensor
readinto r name destination offset = do
  mapping ← require_open r
  t ← tensor r name
  raise_if (ltb t.byte_length offset) validation_error
  let count = min (length destination) (t.byte_length - offset)
  let source = slice mapping (t.source_offset + offset) count
  raise_if (not (length source == count)) value_error
  ok (count, source ++ drop count destination)

-- The loop of `iter_chunks`. Every chunk has a byte at least, so that the bytes left are enough fuel.
pub chunk_loop : List ℕ → TensorRecord → ℕ → ℕ → ℕ → List (List ℕ)
chunk_loop mapping t chunk_size zero position = []
chunk_loop mapping t chunk_size (suc fuel) position =
    let count = min chunk_size (t.byte_length - position) in
    let rest = chunk_loop mapping t chunk_size fuel (position + count) in
    if ltb position t.byte_length
    then slice mapping (t.source_offset + position) count ∷ rest
    else []

-- `iter_chunks`, as the list of all that it yields.
pub iter_chunks : SafetensorsReader → String → ℕ → Result (List (List ℕ))
unfolding require_open tensor chunk_loop
iter_chunks r name chunk_size = do
  mapping ← require_open r
  raise_if (chunk_size == 0) validation_error
  t ← tensor r name
  ok (chunk_loop mapping t chunk_size t.byte_length 0)

-- A view of a mapping.
pub record View : Type 0 where
  pub bytes : List ℕ
  pub generation : ℕ

-- `mmap_slice` up to its `yield`: the view, and the reader that exports it.
pub open_slice : SafetensorsReader → String → ℕ → Option ℕ → Result (View × SafetensorsReader)
unfolding require_open tensor
open_slice r name offset requested = do
  mapping ← require_open r
  t ← tensor r name
  raise_if (ltb t.byte_length offset) validation_error
  let available = t.byte_length - offset
  let selected : ℕ = elim requested [ none ↦ available | some n ↦ n ]
  raise_if (ltb available selected) validation_error
  ok (
    record { bytes = slice mapping (t.source_offset + offset) selected; generation = r.generation },
    record r { exported = r.exported + 1 },
  )

-- `mmap_slice` behind its `yield`: a view of an earlier mapping does not count for the present one.
pub release_slice : View → SafetensorsReader → SafetensorsReader
release_slice view r =
    if view.generation == r.generation then record r { exported = r.exported - 1 } else r
