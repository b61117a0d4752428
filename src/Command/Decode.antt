-- ===== src/Command/Decode.antt =====
-- `CommandStream.from_bytes` of src/aginfer/lowering/command.py.
pub mod Tables
pub mod Records
pub mod Packed
pub mod Header
pub mod RoundTrip
pub mod Errors
mod Runs
use ag_infer.Prelude.{
  ℕ, zero, suc, ◌+◌, ◌-◌, ◌*◌, not, ◌||◌, List, [], ◌∷◌, Result, ok, err, format_error, ◌>>=◌, ◌>>◌,
  raise_if, ltb, ◌==◌, if◌then◌else◌, length, get_or, take, drop, list_eq, all_of,
}
use ag_infer.Prelude.Bytes.{chunks, number, to_hex}
use ag_infer.Command.{
  CommandTag, cuda_kernel, cublaslt_matmul, attention, memory_copy, OperandAccess, read, write,
  read_write, CudaArch, sm89, sm110, sm120, CommandOperand, ProviderCommand, CommandStream,
  max_commands, max_operands, magic, check_operand, check_command, check_stream,
}

-- `except ValidationError: raise FormatError`
pub as_format {ℓ} : {A : Type ℓ} → Result A → Result A
as_format (ok a) = ok a
as_format (err e) = err format_error

-- `CommandTag(raw)`, `OperandAccess(raw)` and `CudaArch(raw)`
pub tag_of : ℕ → Result CommandTag
tag_of raw =
    if raw == 1
    then ok cuda_kernel
    else if raw == 2
    then ok cublaslt_matmul
    else if raw == 3
    then ok attention
    else if raw == 4
    then ok memory_copy
    else err format_error

pub access_of : ℕ → Result OperandAccess
access_of raw =
    if raw == 1
    then ok read
    else if raw == 2
    then ok write
    else if raw == 3
    then ok read_write
    else err format_error

pub arch_of : ℕ → Result CudaArch
arch_of raw =
    if raw == 89
    then ok sm89
    else if raw == 110
    then ok sm110
    else if raw == 120
    then ok sm120
    else err format_error

-- The numbered field of an unpacked structure.
abbrev pub field : List (List ℕ) → ℕ → List ℕ
field fields i = get_or fields i []

abbrev pub operand_widths : List ℕ
operand_widths = 4 ∷ 4 ∷ 8 ∷ []

abbrev pub command_widths : List ℕ
command_widths = 4 ∷ 4 ∷ 4 ∷ 4 ∷ 4 ∷ 4 ∷ 4 ∷ 4 ∷ 8 ∷ 8 ∷ 8 ∷ 32 ∷ 8 ∷ []

abbrev pub header_widths : List ℕ
header_widths =
    8 ∷ 2 ∷ 2 ∷ 4 ∷ 4 ∷ 4 ∷ 4 ∷ 4 ∷ 4 ∷ 8 ∷ 8 ∷ 8 ∷ 8 ∷ 8 ∷ 8 ∷ 8 ∷ 8 ∷ 8 ∷ 32 ∷ 32 ∷ 20 ∷ []

-- One operand, from its fields.
pub operand_of : List (List ℕ) → Result CommandOperand
unfolding access_of as_format
operand_of fields = do
  access ← access_of (number (field fields 1))
  let operand : CommandOperand = record {
    value_id = number (field fields 0);
    access = access;
    byte_offset = number (field fields 2);
  }
  as_format (check_operand operand)
  ok operand

-- The loop over the operand table; `offset` is `operands_offset + index * 16`.
pub read_operands : List ℕ → ℕ → ℕ → Result (List CommandOperand)
unfolding operand_of
read_operands view offset zero = ok []
read_operands view offset (suc count) = do
  operand ← operand_of (chunks operand_widths (drop offset view))
  rest ← read_operands view (offset + 16) count
  ok (operand ∷ rest)

-- What the loop over the command records reads.
pub record Layout : Type 0 where
  pub operands : List CommandOperand
  pub operand_count : ℕ
  pub payload_offset : ℕ
  pub payload_bytes : ℕ

pub command_of : List ℕ → Layout → List (List ℕ) → ℕ → ℕ → Result ProviderCommand
unfolding tag_of as_format
command_of view l fields next_operand next_payload = do
  let flags = number (field fields 4)
  let first_operand = number (field fields 5)
  let selected = number (field fields 6)
  let payload_size = number (field fields 7)
  let selected_offset = number (field fields 8)
  raise_if (ltb 1 flags || not (all_of (λ b. b == 0) (field fields 12))) format_error
  raise_if
      (not (first_operand == next_operand)
        || selected == 0
        || ltb (l.operand_count - first_operand) selected)
      format_error
  raise_if
      (not (selected_offset == next_payload)
        || ltb (l.payload_bytes - selected_offset) payload_size)
      format_error
  tag ← tag_of (number (field fields 0))
  let command : ProviderCommand = record {
    tag = tag;
    provider_id = number (field fields 1);
    abi_major = number (field fields 2);
    abi_minor = number (field fields 3);
    capability_digest = to_hex (field fields 11);
    operands = take selected (drop first_operand l.operands);
    payload = take payload_size (drop (l.payload_offset + selected_offset) view);
    workspace_offset = number (field fields 9);
    workspace_bytes = number (field fields 10);
    capture_safe = flags == 1;
  }
  as_format (check_command command)
  ok command

-- The loop over the command records; `offset` is `commands_offset + index * 96`. It returns the
-- commands and the numbers of operands and of payload bytes that they take.
pub read_commands : List ℕ → Layout → ℕ → ℕ → ℕ → ℕ → Result (List ProviderCommand × ℕ × ℕ)
unfolding command_of
read_commands view l offset next_operand next_payload zero = ok ([], next_operand, next_payload)
read_commands view l offset next_operand next_payload (suc count) = do
  let fields = chunks command_widths (drop offset view)
  command ← command_of view l fields next_operand next_payload
  (rest, end_operand, end_payload) ←
      read_commands view l (offset + 96) (next_operand + number (field fields 6))
        (next_payload + number (field fields 7)) count
  ok (command ∷ rest, end_operand, end_payload)

-- The tests of the header, but for the digests.
pub check_header : List (List ℕ) → ℕ → Result (Unit {0})
check_header f size = do
  raise_if (not (list_eq (field f 0) magic)) format_error
  raise_if (not (number (field f 1) == 1) || ltb 0 (number (field f 2))) format_error
  raise_if
      (not (number (field f 3) == 192)
        || not (number (field f 7) == 0)
        || not (number (field f 8) == 0)
        || not (all_of (λ b. b == 0) (field f 20)))
      format_error
  let command_count = number (field f 5)
  let operand_count = number (field f 6)
  raise_if (command_count == 0 || ltb max_commands command_count) format_error
  raise_if (operand_count == 0 || ltb max_operands operand_count) format_error
  let operands_offset = 192 + command_count * 96
  let payload_offset = operands_offset + operand_count * 16
  raise_if
      (not (number (field f 13) == 192)
        || not (number (field f 14) == operands_offset)
        || not (number (field f 15) == payload_offset)
        || ltb size (number (field f 15))
        || not (number (field f 16) == size - number (field f 15))
        || not (number (field f 17) == size))
      format_error

module _ (sha256 : List ℕ → List ℕ) where
  -- `CommandStream.from_bytes`
  pub from_bytes : List ℕ → Result CommandStream
  unfolding check_header arch_of read_operands read_commands as_format
  from_bytes view = do
    raise_if (ltb (length view) 192) format_error
    let f = chunks header_widths view
    check_header f (length view)
    raise_if
        (all_of (λ b. b == 0) (field f 18)
          || not (list_eq (sha256 (drop (number (field f 13)) view)) (field f 19)))
        format_error
    arch ← arch_of (number (field f 4))
    operands ← read_operands view (number (field f 14)) (number (field f 6))
    let l : Layout = record {
      operands = operands;
      operand_count = number (field f 6);
      payload_offset = number (field f 15);
      payload_bytes = number (field f 16);
    }
    (commands, next_operand, next_payload) ←
        read_commands view l (number (field f 13)) 0 0 (number (field f 5))
    raise_if (not (next_operand == number (field f 6)) || not (next_payload == number (field f 16)))
        format_error
    let stream : CommandStream = record {
      target_arch = arch;
      memory_plan_sha256 = to_hex (field f 18);
      value_count = number (field f 9);
      arena_bytes = number (field f 10);
      state_bytes = number (field f 11);
      workspace_bytes = number (field f 12);
      commands = commands;
    }
    as_format (check_stream stream)
    ok stream
