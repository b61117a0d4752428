-- ===== src/Command/Decode/Tables.antt =====
-- Reading back the bytes of a command stream: the tables of operands and of commands.
use ag_infer.Prelude.{
  ℕ, zero, suc, ◌+◌, ◌≡◌, refl, ◌∙◌, ap, Bool, List, [], ◌∷◌, ◌++◌, append_assoc, arith, ok,
  if◌then◌else◌, length, drop, All,
}
use ag_infer.Prelude.Bytes.{le, number, number-le, concat, chunks}
use ag_infer.Command.{
  CommandTag, cuda_kernel, cublaslt_matmul, attention, memory_copy, OperandAccess, read, write,
  read_write, CudaArch, sm89, sm110, sm120, tag_code, access_code, arch_code, CommandOperand,
  check_operand, operand_fields, pack_operand, pack_operands,
}
use ag_infer.Command.Decode.{
  tag_of, access_of, arch_of, as_format, operand_of, read_operands, operand_widths,
}
use ag_infer.Command.Facts.{check_operand-OperandFits}

access_of-access_code : (a : OperandAccess) → access_of (number (le 4 (access_code a))) ≡ ok a
unfolding access_of number le
access_of-access_code read = refl
access_of-access_code write = refl
access_of-access_code read_write = refl

pub tag_of-tag_code : (t : CommandTag) → tag_of (number (le 4 (tag_code t))) ≡ ok t
unfolding tag_of number le
tag_of-tag_code cuda_kernel = refl
tag_of-tag_code cublaslt_matmul = refl
tag_of-tag_code attention = refl
tag_of-tag_code memory_copy = refl

pub arch_of-arch_code : (a : CudaArch) → arch_of (number (le 4 (arch_code a))) ≡ ok a
unfolding arch_of number le
arch_of-arch_code sm89 = refl
arch_of-arch_code sm110 = refl
arch_of-arch_code sm120 = refl

operand_of-operand_fields :
    (o : CommandOperand) → check_operand o ≡ ok tt → operand_of (operand_fields o) ≡ ok o
unfolding operand_of operand_fields as_format
operand_of-operand_fields o checked =
    let fits = check_operand-OperandFits o checked in
    rw (
      access_of-access_code o.access,
      number-le 4 o.value_id fits.value_id,
      number-le 8 o.byte_offset fits.byte_offset,
      checked,
    )

-- Bytes that are dropped in two steps.
drop-sum : {A : Type 0} (a b n : ℕ) (xs : List A) → n ≡ a + b → drop n xs ≡ drop b (drop a xs)
drop-sum zero b n xs e = let same : n ≡ b = omega arith in ap (λ m. drop m xs) same
drop-sum (suc a) b zero xs e = absurd (omega arith)
drop-sum (suc a) zero (suc n) [] e = refl
drop-sum (suc a) (suc b) (suc n) [] e = refl
drop-sum (suc a) b (suc n) (x ∷ xs) e = drop-sum a b n xs (omega arith)

pub drop-add : {A : Type 0} (a b : ℕ) (xs : List A) → drop (a + b) xs ≡ drop b (drop a xs)
drop-add a b xs = drop-sum a b (a + b) xs refl

chunks-operand :
    (o : CommandOperand) (rest : List ℕ)
    → chunks operand_widths (pack_operand o ++ rest) ≡ operand_fields o
unfolding chunks pack_operand operand_fields le concat
chunks-operand o rest = refl

drop-operand : (o : CommandOperand) (rest : List ℕ) → drop 16 (pack_operand o ++ rest) ≡ rest
unfolding pack_operand operand_fields le concat
drop-operand o rest = refl

pub read_operands-pack_operands :
    (view : List ℕ) (offset : ℕ) (os : List CommandOperand) (tail : List ℕ)
    → All (λ o. check_operand o ≡ ok tt) os
    → drop offset view ≡ pack_operands os ++ tail
    → read_operands view offset (length os) ≡ ok os
unfolding read_operands pack_operands
read_operands-pack_operands view offset [] tail checked here = refl
read_operands-pack_operands view offset (o ∷ os) tail checked here =
    let front = here ∙ append_assoc (pack_operand o) (pack_operands os) tail in
    let fields = ap (chunks operand_widths) front ∙ chunks-operand o (pack_operands os ++ tail) in
    let behind =
      drop-add offset 16 view ∙ ap (drop 16) front ∙ drop-operand o (pack_operands os ++ tail) in
    rw (
      fields,
      operand_of-operand_fields o checked.0,
      read_operands-pack_operands view (offset + 16) os tail checked.1 behind,
    )

flag : Bool → ℕ
flag b = if b then 1 else 0
