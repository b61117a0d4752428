-- ===== src/Command.antt =====
-- The data of src/aginfer/lowering/command.py, the checks of its constructors, and `to_bytes`.
-- Field ranges are those of `struct`: all numbers are unsigned. SHA-256 is the argument `sha256`.
pub mod Decode
pub mod Facts
use ag_infer.Prelude.{
  ℕ, zero, suc, ◌+◌, ◌-◌, ◌*◌, ◌^◌, ◌≤◌, ◌≡◌, Bool, true, false, not, ◌&&◌, ◌||◌, Option, none,
  some, List, [], ◌∷◌, ◌++◌, map, Result, ok, err, validation_error, ◌>>=◌, ◌>>◌, raise_if,
  traverse, ltb, ◌==◌, if◌then◌else◌, length, list_eq, replicate, sum_by, all_of,
}
use ag_infer.Prelude.Bytes.{le, concat, to_hex, from_hex}

pub data CommandTag : Type 0 where
  cuda_kernel cublaslt_matmul attention memory_copy : CommandTag

pub data OperandAccess : Type 0 where
  read write read_write : OperandAccess

-- `CudaArch` of schema.py
pub data CudaArch : Type 0 where
  sm89 sm110 sm120 : CudaArch

abbrev pub tag_code : CommandTag → ℕ
tag_code cuda_kernel = 1
tag_code cublaslt_matmul = 2
tag_code attention = 3
tag_code memory_copy = 4

abbrev pub access_code : OperandAccess → ℕ
access_code read = 1
access_code write = 2
access_code read_write = 3

abbrev pub arch_code : CudaArch → ℕ
arch_code sm89 = 89
arch_code sm110 = 110
arch_code sm120 = 120

pub record CommandOperand : Type 0 where
  pub value_id : ℕ
  pub access : OperandAccess
  pub byte_offset : ℕ

-- The digests are texts of hexadecimal digits, as lists of character codes.
pub record ProviderCommand : Type 0 where
  pub tag : CommandTag
  pub provider_id : ℕ
  pub abi_major : ℕ
  pub abi_minor : ℕ
  pub capability_digest : List ℕ
  pub operands : List CommandOperand
  pub payload : List ℕ
  pub workspace_offset : ℕ
  pub workspace_bytes : ℕ
  pub capture_safe : Bool

pub record CommandStream : Type 0 where
  pub target_arch : CudaArch
  pub memory_plan_sha256 : List ℕ
  pub value_count : ℕ
  pub arena_bytes : ℕ
  pub state_bytes : ℕ
  pub workspace_bytes : ℕ
  pub commands : List ProviderCommand

abbrev pub max_commands : ℕ
max_commands = 1_000_000

abbrev pub max_operands : ℕ
max_operands = 8_000_000

abbrev pub max_command_payload : ℕ
max_command_payload = 64 * 1024 * 1024

-- `_uint`
pub uint : ℕ → ℕ → Result (Unit {0})
uint value bits = raise_if (ltb (2 ^ bits - 1) value) validation_error

-- `_positive_uint`
pub positive_uint : ℕ → ℕ → Result (Unit {0})
unfolding uint
positive_uint value bits = do uint value bits; raise_if (value == 0) validation_error

-- `_digest`: the bytes that the text stands for.
pub digest_bytes : List ℕ → Result (List ℕ)
digest_bytes text = do
  raise_if (not (length text == 64)) validation_error
  elim (from_hex text) [
    | none ↦ err validation_error
    | some decoded ↦
        if not (length decoded == 32)
          || all_of (λ b. b == 0) decoded
          || not (list_eq text (to_hex decoded))
        then err validation_error
        else ok decoded
  ]

-- `CommandOperand.__post_init__`
pub check_operand : CommandOperand → Result (Unit {0})
unfolding uint
check_operand o = do uint o.value_id 32; uint o.byte_offset 64

abbrev pub is_write : OperandAccess → Bool
is_write read = false
is_write _ = true

-- `ProviderCommand.__post_init__`
pub check_command : ProviderCommand → Result (Unit {0})
unfolding uint positive_uint digest_bytes
check_command c = do
  positive_uint c.provider_id 32
  positive_uint c.abi_major 32
  uint c.abi_minor 32
  _ ← digest_bytes c.capability_digest
  raise_if (length c.operands == 0 || ltb max_operands (length c.operands)) validation_error
  raise_if (all_of (λ o. not (is_write o.access)) c.operands) validation_error
  raise_if (ltb max_command_payload (length c.payload)) validation_error
  uint c.workspace_offset 64
  uint c.workspace_bytes 64
  raise_if (c.workspace_bytes == 0 && not (c.workspace_offset == 0)) validation_error

-- The last checks of a stream: the operands and the workspace of one command.
pub check_in_stream : CommandStream → ProviderCommand → Result (Unit {0})
check_in_stream s c = do
  raise_if (not (all_of (λ o. ltb o.value_id s.value_count) c.operands)) validation_error
  raise_if
      (ltb s.workspace_bytes c.workspace_offset
        || ltb (s.workspace_bytes - c.workspace_offset) c.workspace_bytes)
      validation_error

abbrev pub operand_count : List ProviderCommand → ℕ
operand_count = sum_by (λ c. length c.operands)

-- `CommandStream.__post_init__`
pub check_stream : CommandStream → Result (Unit {0})
unfolding uint positive_uint digest_bytes check_in_stream
check_stream s = do
  _ ← digest_bytes s.memory_plan_sha256
  positive_uint s.value_count 32
  uint s.arena_bytes 64
  uint s.state_bytes 64
  uint s.workspace_bytes 64
  raise_if (length s.commands == 0 || ltb max_commands (length s.commands)) validation_error
  raise_if (ltb max_operands (operand_count s.commands)) validation_error
  _ ← traverse (check_in_stream s) s.commands
  ok tt

-- `COMMAND_OPERAND.pack`
pub operand_fields : CommandOperand → List (List ℕ)
operand_fields o = le 4 o.value_id ∷ le 4 (access_code o.access) ∷ le 8 o.byte_offset ∷ []

pub pack_operand : CommandOperand → List ℕ
unfolding operand_fields
pack_operand o = concat (operand_fields o)

pub pack_operands : List CommandOperand → List ℕ
unfolding pack_operand
pack_operands [] = []
pack_operands (o ∷ rest) = pack_operand o ++ pack_operands rest

-- The fields of `COMMAND_RECORD.pack`, for the decoded digest of the command.
pub command_fields : ProviderCommand → List ℕ → ℕ → ℕ → List (List ℕ)
command_fields c digest first_operand payload_offset =
    le 4 (tag_code c.tag)
    ∷ le 4 c.provider_id
    ∷ le 4 c.abi_major
    ∷ le 4 c.abi_minor
    ∷ le 4 (if c.capture_safe then 1 else 0)
    ∷ le 4 first_operand
    ∷ le 4 (length c.operands)
    ∷ le 4 (length c.payload)
    ∷ le 8 payload_offset
    ∷ le 8 c.workspace_offset
    ∷ le 8 c.workspace_bytes
    ∷ digest
    ∷ replicate 8 0
    ∷ []

-- The three tables that `to_bytes` fills in its loop over the commands.
pub record Sections : Type 0 where
  pub commands : List ℕ
  pub operands : List ℕ
  pub payloads : List ℕ

pub pack_commands : List ProviderCommand → ℕ → ℕ → Result Sections
unfolding pack_operands command_fields
pack_commands [] first_operand payload_offset =
    ok (record { commands = []; operands = []; payloads = [] })
pack_commands (c ∷ rest) first_operand payload_offset = do
  digest ← digest_bytes c.capability_digest
  more ← pack_commands rest (first_operand + length c.operands) (payload_offset + length c.payload)
  ok (record {
    commands = concat (command_fields c digest first_operand payload_offset) ++ more.commands;
    operands = pack_operands c.operands ++ more.operands;
    payloads = c.payload ++ more.payloads;
  })

abbrev pub magic : List ℕ
magic = b'A' ∷ b'I' ∷ b'C' ∷ b'M' ∷ b'D' ∷ b'1' ∷ 0 ∷ 0 ∷ []

-- The fields of `COMMAND_STREAM_HEADER.pack`.
pub header_fields : CommandStream → List ℕ → List ℕ → ℕ → ℕ → ℕ → ℕ → List (List ℕ)
header_fields s memory_digest body_digest operands_offset payload_offset payload_bytes
      section_size =
    magic
    ∷ le 2 1
    ∷ le 2 0
    ∷ le 4 192
    ∷ le 4 (arch_code s.target_arch)
    ∷ le 4 (length s.commands)
    ∷ le 4 (operand_count s.commands)
    ∷ le 4 0
    ∷ le 4 0
    ∷ le 8 s.value_count
    ∷ le 8 s.arena_bytes
    ∷ le 8 s.state_bytes
    ∷ le 8 s.workspace_bytes
    ∷ le 8 192
    ∷ le 8 operands_offset
    ∷ le 8 payload_offset
    ∷ le 8 payload_bytes
    ∷ le 8 section_size
    ∷ memory_digest
    ∷ body_digest
    ∷ replicate 20 0
    ∷ []

module _ (sha256 : List ℕ → List ℕ) where
  -- `CommandStream.to_bytes`
  pub to_bytes : CommandStream → Result (List ℕ)
  unfolding pack_commands header_fields
  to_bytes s = do
    t ← pack_commands s.commands 0 0
    let operands_offset = 192 + length t.commands
    let payload_offset = operands_offset + length t.operands
    let section_size = payload_offset + length t.payloads
    raise_if (ltb (2 ^ 64 - 1) section_size) validation_error
    memory_digest ← digest_bytes s.memory_plan_sha256
    let body = t.commands ++ (t.operands ++ t.payloads)
    ok (
        concat (
          header_fields s memory_digest (sha256 body) operands_offset payload_offset
            (length t.payloads) section_size)
        ++ body)

-- What a run of the checks of a stream computes.
unfoldable pub checks : Unit {0}
unfolding uint positive_uint digest_bytes check_operand check_command check_in_stream check_stream
checks = tt
