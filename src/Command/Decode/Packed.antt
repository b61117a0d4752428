-- ===== src/Command/Decode/Packed.antt =====
-- What `to_bytes` packs: the sizes of the tables of a command stream.
use ag_infer.Prelude.{
  ℕ, ◌+◌, ◌*◌, ◌≤◌, ◌≡◌, refl, sym, ◌∙◌, ap, List, [], ◌∷◌, ◌++◌, append_assoc, arith, ok, length,
  length-append, All, All-append,
}
use ag_infer.Prelude.Bytes.{concat}
use ag_infer.Command.{
  CommandOperand, ProviderCommand, check_command, operand_count, operand_fields, pack_operand,
  pack_operands, command_fields, Sections, pack_commands,
}
use ag_infer.Command.Facts.{digest_bytes-IsDigest, check_command-CommandFits}
use ag_infer.Command.Decode.Records.{all_operands, payload_size, length-command}
use ag_infer.Prelude.Bytes.{le}

pub pack_operands-append :
    (os ps : List CommandOperand) → pack_operands (os ++ ps) ≡ pack_operands os ++ pack_operands ps
unfolding pack_operands
pack_operands-append [] ps = refl
pack_operands-append (o ∷ os) ps =
    ap (λ l. pack_operand o ++ l) (pack_operands-append os ps)
    ∙ sym (append_assoc (pack_operand o) (pack_operands os) (pack_operands ps))

length-pack_operand : (o : CommandOperand) → length (pack_operand o) ≡ 16
unfolding pack_operand operand_fields le concat
length-pack_operand o = refl

pub length-pack_operands : (os : List CommandOperand) → length (pack_operands os) ≡ length os * 16
unfolding pack_operands
length-pack_operands [] = refl
length-pack_operands (o ∷ os) = omega (
  arith,
  length-append (pack_operand o) (pack_operands os),
  length-pack_operand o,
  length-pack_operands os,
)

pub operand_count-length : (cs : List ProviderCommand) → operand_count cs ≡ length (all_operands cs)
operand_count-length [] = refl
operand_count-length (c ∷ cs) =
    omega (arith, length-append c.operands (all_operands cs), operand_count-length cs)

pub all_operands-All :
    (P : CommandOperand → Type 0) (cs : List ProviderCommand)
    → All (λ (c : ProviderCommand). All P c.operands) cs
    → All P (all_operands cs)
all_operands-All P [] h = tt
all_operands-All P (c ∷ cs) h =
    All-append P c.operands (all_operands cs) h.0 (all_operands-All P cs h.1)

pub record IsPacked (cs : List ProviderCommand) (t : Sections) : Type 0 where
  pub commands : length t.commands ≡ length cs * 96
  pub operands : t.operands ≡ pack_operands (all_operands cs)
  pub payloads : length t.payloads ≡ payload_size cs
  pub payload_bound : payload_size cs ≤ length cs * 67_108_864
  pub operand_bound : length cs ≤ operand_count cs

pub pack_commands-IsPacked :
    (cs : List ProviderCommand) (first payload : ℕ)
    → All (λ c. check_command c ≡ ok tt) cs
    → (t : Sections) × (pack_commands cs first payload ≡ ok t) × IsPacked cs t
unfolding pack_commands pack_operands
pack_commands-IsPacked [] first payload checked = (
  record { commands = []; operands = []; payloads = [] },
  refl,
  record {
    commands = refl;
    operands = refl;
    payloads = refl;
    payload_bound = omega arith;
    operand_bound = omega arith;
  },
)
pack_commands-IsPacked (c ∷ cs) first payload checked =
    let fits = check_command-CommandFits c checked.0 in
    let digest = digest_bytes-IsDigest c.capability_digest fits.decoded in
    let (t, packed, p) =
      pack_commands-IsPacked cs (first + length c.operands) (payload + length c.payload)
        checked.1 in
    let fields = concat (command_fields c fits.digest first payload) in
    let short = fits.payload in
    let full = fits.operands in
    let bound = p.payload_bound in
    let bound' = p.operand_bound in
    (
      record {
        commands = fields ++ t.commands;
        operands = pack_operands c.operands ++ t.operands;
        payloads = c.payload ++ t.payloads;
      },
      rw (fits.decoded, packed) refl,
      record {
        commands = omega (
          arith,
          length-append fields t.commands,
          length-command c fits.digest first payload digest.width,
          p.commands,
        );
        operands =
            ap (λ l. pack_operands c.operands ++ l) p.operands
            ∙ sym (pack_operands-append c.operands (all_operands cs));
        payloads = omega (arith, length-append c.payload t.payloads, p.payloads);
        payload_bound = omega arith;
        operand_bound = omega arith;
      },
    )
