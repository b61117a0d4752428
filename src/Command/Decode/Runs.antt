-- ===== src/Command/Decode/Runs.antt =====
-- Runs of the writer and the reader of command streams, and the round trip of a concrete stream.
use ag_infer.Prelude.{
  ◌⊎◌, Result, ℕ, ◌%◌, ◌≡◌, refl, true, false, List, [], ◌∷◌, ok, err, validation_error,
  format_error, replicate, length, traverse, all_of, list_eq,
}
use ag_infer.Prelude.Bytes.{to_hex, from_hex}
use ag_infer.Command.{
  cuda_kernel, memory_copy, read, write, read_write, sm120, ProviderCommand, CommandStream, uint,
  positive_uint, digest_bytes, check_operand, check_command, check_in_stream, check_stream,
  to_bytes,
}
use ag_infer.Command.Decode.{from_bytes}
use ag_infer.Command.Facts.{IsBuilt}
use ag_infer.Command.Decode.Errors.{from_bytes-outcome}
use ag_infer.Command.Decode.RoundTrip.{from_bytes-to_bytes}

-- In place of SHA-256: a digest of the right width.
abbrev digest : List ℕ → List ℕ
digest bytes = length bytes % 256 ∷ replicate 31 0

-- Sixty-four times the character `1`.
abbrev text : List ℕ
text = replicate 64 49

abbrev copy : ProviderCommand
copy = record {
  tag = memory_copy;
  provider_id = 3;
  abi_major = 1;
  abi_minor = 2;
  capability_digest = text;
  operands =
      record { value_id = 4; access = read; byte_offset = 0 }
      ∷ record { value_id = 5; access = write; byte_offset = 512 }
      ∷ [];
  payload = 9 ∷ 8 ∷ 7 ∷ [];
  workspace_offset = 256;
  workspace_bytes = 1024;
  capture_safe = true;
}

abbrev kernel : ProviderCommand
kernel = record copy {
  tag = cuda_kernel;
  operands = record { value_id = 5; access = read_write; byte_offset = 0 } ∷ [];
  payload = 6 ∷ [];
  capture_safe = false;
}

abbrev stream : CommandStream
stream = record {
  target_arch = sm120;
  memory_plan_sha256 = text;
  value_count = 6;
  arena_bytes = 4096;
  state_bytes = 0;
  workspace_bytes = 1280;
  commands = copy ∷ kernel ∷ [];
}

checks : Unit {0}
unfolding uint positive_uint digest_bytes check_operand check_command check_in_stream check_stream
    all_of list_eq to_hex from_hex traverse
checks = tt

stream-IsBuilt : IsBuilt stream
unfolding checks
stream-IsBuilt = record {
  stream = refl;
  commands = (refl, (refl, tt));
  operands = ((refl, (refl, tt)), ((refl, tt), tt));
}

-- A workspace that ends behind that of the stream.
large_workspace_refused :
    check_stream (record stream { workspace_bytes = 1279 }) ≡ err validation_error
unfolding checks
large_workspace_refused = refl

-- Fewer bytes than the header has.
short_refused : from_bytes digest (replicate 191 0) ≡ err format_error
unfolding from_bytes
short_refused = refl

from_bytes-to_bytes_example :
    (bytes : List ℕ) × (to_bytes digest stream ≡ ok bytes) × (from_bytes digest bytes ≡ ok stream)
from_bytes-to_bytes_example = from_bytes-to_bytes digest (λ bytes. refl) stream stream-IsBuilt

-- The bytes of a stream that can be written.
abbrev bytes_of : Result (List ℕ) → List ℕ
bytes_of (ok bytes) = bytes
bytes_of (err failure) = []

abbrev stream_bytes : List ℕ
stream_bytes = bytes_of (to_bytes digest stream)

from_bytes-outcome_example :
    ((s : CommandStream) × (from_bytes digest stream_bytes ≡ ok s) × IsBuilt s)
    ⊎ (from_bytes digest stream_bytes ≡ err format_error)
from_bytes-outcome_example = from_bytes-outcome digest stream_bytes
