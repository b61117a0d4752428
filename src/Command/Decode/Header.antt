-- ===== src/Command/Decode/Header.antt =====
-- Reading back the header of a command stream.
use ag_infer.Prelude.{
  ℕ, ◌+◌, ◌-◌, ◌*◌, ◌^◌, ◌<◌, ◌≡◌, refl, ◌∙◌, ap₂, true, false, not, ◌||◌, List, [], ◌∷◌, map,
  arith, ok, ltb, ◌==◌, length, all_of, list_eq,
}
use ag_infer.Prelude.Bytes.{le, number-le, concat, length-concat}
use ag_infer.Command.{CommandStream, operand_count, header_fields}
use ag_infer.Command.Decode.{header_widths, check_header}
use ag_infer.Command.Facts.{StreamFits}

pub list_eq_self : (xs : List ℕ) → list_eq xs xs ≡ true
unfolding list_eq
list_eq_self [] = refl
list_eq_self (x ∷ xs) = ground (arith, list_eq_self xs)

pub check_header-header_fields :
    (s : CommandStream) (memory_digest body_digest : List ℕ)
    (operands_offset payload_offset payload_bytes size : ℕ)
    → StreamFits s
    → 0 < operand_count s.commands
    → operands_offset ≡ 192 + length s.commands * 96
    → payload_offset ≡ operands_offset + operand_count s.commands * 16
    → size ≡ payload_offset + payload_bytes
    → size < 256 ^ 8
    → check_header
        (header_fields s memory_digest body_digest operands_offset payload_offset payload_bytes
          size)
        size
      ≡ ok tt
unfolding check_header header_fields list_eq all_of
check_header-header_fields s md bd oo po pb size fits some_operands at_operands at_payload at_end
      small =
    let some_commands = fits.some_commands in
    let few = fits.commands in
    let few' = fits.operands in
    let counted : (length s.commands == 0 || ltb 1_000_000 (length s.commands)) ≡ false =
      ground arith in
    let counted' : (operand_count s.commands == 0 || ltb 8_000_000 (operand_count s.commands))
        ≡ false =
      ground arith in
    let placed : (not (oo == 192 + length s.commands * 96)
          || not (po == 192 + length s.commands * 96 + operand_count s.commands * 16)
          || ltb size po
          || not (pb == size - po)
          || not (size == size))
        ≡ false =
      ground arith in
    rw (
      number-le 2 1 (omega arith),
      number-le 2 0 (omega arith),
      number-le 4 192 (omega arith),
      number-le 4 0 (omega arith),
      number-le 8 192 (omega arith),
      number-le 4 (length s.commands) (omega arith),
      number-le 4 (operand_count s.commands) (omega arith),
      counted,
      counted',
      number-le 8 oo (omega arith),
      number-le 8 po (omega arith),
      number-le 8 pb (omega arith),
      number-le 8 size small,
      placed,
    )

pub header_fields-widths :
    (s : CommandStream) (memory_digest body_digest : List ℕ)
    (operands_offset payload_offset payload_bytes size : ℕ)
    → length memory_digest ≡ 32
    → length body_digest ≡ 32
    → map length (
        header_fields s memory_digest body_digest operands_offset payload_offset payload_bytes size)
      ≡ header_widths
unfolding header_fields le
header_fields-widths s md bd oo po pb size h h' =
    ap₂
      (λ m b.
        8 ∷ 2 ∷ 2 ∷ 4 ∷ 4 ∷ 4 ∷ 4 ∷ 4 ∷ 4 ∷ 8 ∷ 8 ∷ 8 ∷ 8 ∷ 8 ∷ 8 ∷ 8 ∷ 8 ∷ 8 ∷ m ∷ b ∷ 20 ∷ [])
      h h'

pub length-header :
    (s : CommandStream) (memory_digest body_digest : List ℕ)
    (operands_offset payload_offset payload_bytes size : ℕ)
    → length memory_digest ≡ 32
    → length body_digest ≡ 32
    → length (
        concat (
          header_fields s memory_digest body_digest operands_offset payload_offset payload_bytes
            size))
      ≡ 192
unfolding header_fields le
length-header s md bd oo po pb size h h' =
    length-concat (header_fields s md bd oo po pb size) ∙ rw (h, h') refl
