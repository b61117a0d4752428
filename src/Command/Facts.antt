-- ===== src/Command/Facts.antt =====
-- What the constructor checks of operands, commands and digests guarantee.
use ag_infer.Prelude.{
  ℕ, ◌-◌, ◌^◌, ◌≤◌, ◌<◌, ◌≡◌, sym, false, not, ◌||◌, List, arith, ok, raise_if, raise_if-eq-ok,
  >>=-then, ltb, ◌==◌, length, list_eq→eq, all_of, All, Option-cases, subst, inl, inr,
}
use ag_infer.Prelude.Bytes.{to_hex, from_hex}
use ag_infer.Command.{
  CommandOperand, ProviderCommand, CommandStream, uint, positive_uint, digest_bytes, check_operand,
  check_command, check_stream, max_commands, max_operands, max_command_payload, is_write,
  operand_count,
}

pub uint-lt : (value bits : ℕ) {u : Unit {0}} → uint value bits ≡ ok u → value ≤ 2 ^ bits - 1
unfolding uint
uint-lt value bits e = let passed = raise_if-eq-ok _ _ e in ground arith

positive_uint-uint :
    (value bits : ℕ) {u : Unit {0}} → positive_uint value bits ≡ ok u → value ≤ 2 ^ bits - 1
unfolding positive_uint
positive_uint-uint value bits e = >>=-then (uint value bits) _ e λ _ h _. uint-lt value bits h

-- The bytes of a digest that was accepted.
pub record IsDigest (text bytes : List ℕ) : Type 0 where
  pub width : length bytes ≡ 32
  pub nonzero : all_of (λ b. b == 0) bytes ≡ false
  pub printed : to_hex bytes ≡ text

pub digest_bytes-IsDigest :
    (text : List ℕ) {bytes : List ℕ} → digest_bytes text ≡ ok bytes → IsDigest text bytes
unfolding digest_bytes
digest_bytes-IsDigest text {bytes} e = >>=-then (raise_if (not (length text == 64)) _) _ e λ _ _ e1.
    elim (Option-cases (from_hex text)) [
      | inl n ↦ absurd (let failed = rw n at e1 in cc)
      | inr (decoded, d) ↦
          let body = rw d at e1 in
          let same : decoded ≡ bytes = ground arith in
          subst (IsDigest text) same (record {
            width = ground arith;
            nonzero = ground arith;
            printed = sym (list_eq→eq text (to_hex decoded) (ground arith));
          })
    ]

pub record OperandFits (o : CommandOperand) : Type 0 where
  pub value_id : o.value_id < 256 ^ 4
  pub byte_offset : o.byte_offset < 256 ^ 8

pub check_operand-OperandFits :
    (o : CommandOperand) {u : Unit {0}} → check_operand o ≡ ok u → OperandFits o
unfolding check_operand
check_operand-OperandFits o e = >>=-then (uint o.value_id 32) _ e λ _ h e1.
    let a = uint-lt o.value_id 32 h in
    let b = uint-lt o.byte_offset 64 e1 in
    record { value_id = omega arith; byte_offset = omega arith }

pub record CommandFits (c : ProviderCommand) : Type 0 where
  pub digest : List ℕ
  pub decoded : digest_bytes c.capability_digest ≡ ok digest
  pub provider_id : c.provider_id < 256 ^ 4
  pub abi_major : c.abi_major < 256 ^ 4
  pub abi_minor : c.abi_minor < 256 ^ 4
  pub operands : 0 < length c.operands
  pub payload : length c.payload ≤ 67_108_864
  pub selected : length c.operands ≤ 8_000_000
  pub workspace_offset : c.workspace_offset < 256 ^ 8
  pub workspace_bytes : c.workspace_bytes < 256 ^ 8

pub check_command-CommandFits :
    (c : ProviderCommand) {u : Unit {0}} → check_command c ≡ ok u → CommandFits c
unfolding check_command
check_command-CommandFits c e = >>=-then (positive_uint c.provider_id 32) _ e λ _ p e1.
    >>=-then (positive_uint c.abi_major 32) _ e1 λ _ q e2.
      >>=-then (uint c.abi_minor 32) _ e2 λ _ r e3.
        >>=-then (digest_bytes c.capability_digest) _ e3 λ digest decoded e4.
          >>=-then (raise_if (length c.operands == 0 || ltb max_operands (length c.operands)) _) _
            e4
            λ _ s e5.
              >>=-then (raise_if (all_of (λ o. not (is_write o.access)) c.operands) _) _ e5
                λ _ _ e6.
                  >>=-then (raise_if (ltb max_command_payload (length c.payload)) _) _ e6 λ _ t e7.
                    >>=-then (uint c.workspace_offset 64) _ e7 λ _ v e8.
                      >>=-then (uint c.workspace_bytes 64) _ e8 λ _ w _.
                        let p' = positive_uint-uint c.provider_id 32 p in
                        let q' = positive_uint-uint c.abi_major 32 q in
                        let r' = uint-lt c.abi_minor 32 r in
                        let s' = raise_if-eq-ok _ _ s in
                        let t' = raise_if-eq-ok _ _ t in
                        let v' = uint-lt c.workspace_offset 64 v in
                        let w' = uint-lt c.workspace_bytes 64 w in
                        record {
                          digest = digest;
                          decoded = decoded;
                          provider_id = omega arith;
                          abi_major = omega arith;
                          abi_minor = omega arith;
                          operands = ground arith;
                          payload = ground arith;
                          selected = ground arith;
                          workspace_offset = omega arith;
                          workspace_bytes = omega arith;
                        }

pub record StreamFits (s : CommandStream) : Type 0 where
  pub digest : List ℕ
  pub decoded : digest_bytes s.memory_plan_sha256 ≡ ok digest
  pub value_count : s.value_count < 256 ^ 4
  pub arena_bytes : s.arena_bytes < 256 ^ 8
  pub state_bytes : s.state_bytes < 256 ^ 8
  pub workspace_bytes : s.workspace_bytes < 256 ^ 8
  pub some_commands : 0 < length s.commands
  pub commands : length s.commands ≤ 1_000_000
  pub operands : operand_count s.commands ≤ 8_000_000

pub check_stream-StreamFits :
    (s : CommandStream) {u : Unit {0}} → check_stream s ≡ ok u → StreamFits s
unfolding check_stream
check_stream-StreamFits s e = >>=-then (digest_bytes s.memory_plan_sha256) _ e λ digest decoded e1.
    >>=-then (positive_uint s.value_count 32) _ e1 λ _ p e2.
      >>=-then (uint s.arena_bytes 64) _ e2 λ _ q e3.
        >>=-then (uint s.state_bytes 64) _ e3 λ _ r e4.
          >>=-then (uint s.workspace_bytes 64) _ e4 λ _ t e5.
            >>=-then (raise_if (length s.commands == 0 || ltb max_commands (length s.commands)) _) _
              e5
              λ _ v e6.
                >>=-then (raise_if (ltb max_operands (operand_count s.commands)) _) _ e6 λ _ w _.
                  let p' = positive_uint-uint s.value_count 32 p in
                  let q' = uint-lt s.arena_bytes 64 q in
                  let r' = uint-lt s.state_bytes 64 r in
                  let t' = uint-lt s.workspace_bytes 64 t in
                  let v' = raise_if-eq-ok _ _ v in
                  let w' = raise_if-eq-ok _ _ w in
                  record {
                    digest = digest;
                    decoded = decoded;
                    value_count = omega arith;
                    arena_bytes = omega arith;
                    state_bytes = omega arith;
                    workspace_bytes = omega arith;
                    some_commands = ground arith;
                    commands = ground arith;
                    operands = ground arith;
                  }

-- A stream whose operands, commands and the stream itself passed the checks of their constructors.
pub record IsBuilt (s : CommandStream) : Type 0 where
  pub stream : check_stream s ≡ ok tt
  pub commands : All (λ c. check_command c ≡ ok tt) s.commands
  pub operands :
      All (λ (c : ProviderCommand). All (λ o. check_operand o ≡ ok tt) c.operands) s.commands
