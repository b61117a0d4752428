-- ===== src/Command/Decode/Records.antt =====
-- Reading back the table of commands of a command stream.
use ag_infer.Prelude.{
  ℕ, ◌+◌, ◌-◌, ◌^◌, ◌≤◌, ◌<◌, ◌≡◌, refl, sym, ◌∙◌, ap, Bool, true, false, not, ◌||◌, List, [], ◌∷◌,
  ◌++◌, map, append_assoc, arith, ok, >>=-then, ltb, ◌==◌, if◌then◌else◌, length, take, drop,
  all_of, ok-injective, All,
}
use ag_infer.Prelude.Bytes.{
  le, number, number-le, concat, chunks, chunks-concat, take-append, drop-append, length-concat,
}
use ag_infer.Command.{
  CommandOperand, ProviderCommand, digest_bytes, check_command, operand_count, command_fields,
  Sections, pack_commands,
}
use ag_infer.Command.Decode.{as_format, command_widths, Layout, command_of, read_commands}
use ag_infer.Command.Facts.{IsDigest, digest_bytes-IsDigest, check_command-CommandFits}
use ag_infer.Command.Decode.Tables.{tag_of-tag_code, drop-add}

flag-read : (b : Bool) → (number (le 4 (if b then 1 else 0)) == 1) ≡ b
unfolding number le
flag-read true = refl
flag-read false = refl

flag-known : (b : Bool) → ltb 1 (number (le 4 (if b then 1 else 0))) ≡ false
unfolding number le
flag-known true = refl
flag-known false = refl

-- Where the operands and the payload of a command lie.
record Lies (view : List ℕ) (l : Layout) (c : ProviderCommand) (first payload : ℕ) : Type 0 where
  operands : List CommandOperand
  operands_here : drop first l.operands ≡ c.operands ++ operands
  payloads : List ℕ
  payload_here : drop (l.payload_offset + payload) view ≡ c.payload ++ payloads
  operands_left : first + length c.operands ≤ l.operand_count
  payload_left : payload + length c.payload ≤ l.payload_bytes
  operand_count : l.operand_count < 256 ^ 4
  payload_bytes : l.payload_bytes < 256 ^ 8

command_of-command_fields :
    (view : List ℕ) (l : Layout) (c : ProviderCommand) (digest : List ℕ) (first payload : ℕ)
    → check_command c ≡ ok tt
    → IsDigest c.capability_digest digest
    → Lies view l c first payload
    → command_of view l (command_fields c digest first payload) first payload ≡ ok c
unfolding command_of command_fields as_format all_of
command_of-command_fields view l c digest first payload checked d here =
    let fits = check_command-CommandFits c checked in
    let left = here.operands_left in
    let room = here.payload_left in
    let few = here.operand_count in
    let small = here.payload_bytes in
    let some_operands = fits.operands in
    let short = fits.payload in
    let operands_taken : take (length c.operands) (drop first l.operands) ≡ c.operands =
      rw here.operands_here (take-append c.operands here.operands) in
    let payload_taken : take (length c.payload) (drop (l.payload_offset + payload) view)
        ≡ c.payload =
      rw here.payload_here (take-append c.payload here.payloads) in
    let operands_fit : (not (first == first)
          || length c.operands == 0
          || ltb (l.operand_count - first) (length c.operands))
        ≡ false =
      ground arith in
    let payload_fits : (not (payload == payload)
          || ltb (l.payload_bytes - payload) (length c.payload))
        ≡ false =
      ground arith in
    rw (
      number-le 4 first (omega arith),
      number-le 4 (length c.operands) (omega arith),
      number-le 4 (length c.payload) (omega arith),
      number-le 8 payload (omega arith),
      flag-known c.capture_safe,
      operands_fit,
      payload_fits,
      tag_of-tag_code c.tag,
      number-le 4 c.provider_id fits.provider_id,
      number-le 4 c.abi_major fits.abi_major,
      number-le 4 c.abi_minor fits.abi_minor,
      d.printed,
      operands_taken,
      payload_taken,
      number-le 8 c.workspace_offset fits.workspace_offset,
      number-le 8 c.workspace_bytes fits.workspace_bytes,
      flag-read c.capture_safe,
      checked,
    )

abbrev pub all_operands : List ProviderCommand → List CommandOperand
all_operands [] = []
all_operands (c ∷ cs) = c.operands ++ all_operands cs

abbrev pub payload_size : List ProviderCommand → ℕ
payload_size [] = 0
payload_size (c ∷ cs) = length c.payload + payload_size cs

command_fields-widths :
    (c : ProviderCommand) (digest : List ℕ) (first payload : ℕ)
    → length digest ≡ 32
    → map length (command_fields c digest first payload) ≡ command_widths
unfolding command_fields le
command_fields-widths c digest first payload h =
    ap (λ n. 4 ∷ 4 ∷ 4 ∷ 4 ∷ 4 ∷ 4 ∷ 4 ∷ 4 ∷ 8 ∷ 8 ∷ 8 ∷ n ∷ 8 ∷ []) h

chunks-command :
    (c : ProviderCommand) (digest : List ℕ) (first payload : ℕ) (rest : List ℕ)
    → length digest ≡ 32
    → chunks command_widths (concat (command_fields c digest first payload) ++ rest)
      ≡ command_fields c digest first payload
chunks-command c digest first payload rest h =
    let fields = command_fields c digest first payload in
    ap (λ w. chunks w (concat fields ++ rest))
      (sym (command_fields-widths c digest first payload h))
    ∙ chunks-concat fields rest

pub length-command :
    (c : ProviderCommand) (digest : List ℕ) (first payload : ℕ)
    → length digest ≡ 32
    → length (concat (command_fields c digest first payload)) ≡ 96
unfolding command_fields le
length-command c digest first payload h =
    length-concat (command_fields c digest first payload)
    ∙ ap (λ n. 4 + (4 + (4 + (4 + (4 + (4 + (4 + (4 + (8 + (8 + (8 + (n + (8 + 0))))))))))))) h

drop-command :
    (c : ProviderCommand) (digest : List ℕ) (first payload : ℕ) (rest : List ℕ)
    → length digest ≡ 32
    → drop 96 (concat (command_fields c digest first payload) ++ rest) ≡ rest
drop-command c digest first payload rest h =
    let bytes = concat (command_fields c digest first payload) in
    ap (λ n. drop n (bytes ++ rest)) (sym (length-command c digest first payload h))
    ∙ drop-append bytes rest

-- Where the tables of the remaining commands lie.
pub record LieAll (view : List ℕ) (l : Layout) (cs : List ProviderCommand) (t : Sections)
    (offset first payload : ℕ) : Type 0 where
  pub behind : List ℕ
  pub commands_here : drop offset view ≡ t.commands ++ behind
  pub operands : List CommandOperand
  pub operands_here : drop first l.operands ≡ all_operands cs ++ operands
  pub payloads : List ℕ
  pub payloads_here : drop (l.payload_offset + payload) view ≡ t.payloads ++ payloads
  pub operands_left : first + operand_count cs ≤ l.operand_count
  pub payload_left : payload + payload_size cs ≤ l.payload_bytes
  pub operand_count : l.operand_count < 256 ^ 4
  pub payload_bytes : l.payload_bytes < 256 ^ 8

-- One command of several, with its decoded digest and the tables of the others.
record Split (c : ProviderCommand) (cs : List ProviderCommand) (t : Sections) (first payload : ℕ)
    : Type 0 where
  digest : List ℕ
  is_digest : IsDigest c.capability_digest digest
  more : Sections
  packed : pack_commands cs (first + length c.operands) (payload + length c.payload) ≡ ok more
  commands : t.commands ≡ concat (command_fields c digest first payload) ++ more.commands
  payloads : t.payloads ≡ c.payload ++ more.payloads

pack_commands-Split :
    (c : ProviderCommand) (cs : List ProviderCommand) (t : Sections) (first payload : ℕ)
    → pack_commands (c ∷ cs) first payload ≡ ok t
    → Split c cs t first payload
unfolding pack_commands
pack_commands-Split c cs t first payload e =
    >>=-then (digest_bytes c.capability_digest) _ e λ digest decoded e1.
      >>=-then (pack_commands cs _ _) _ e1 λ more packed done. record {
        digest = digest;
        is_digest = digest_bytes-IsDigest c.capability_digest decoded;
        more = more;
        packed = packed;
        commands = sym (ap (λ (s : Sections). s.commands) (ok-injective done));
        payloads = sym (ap (λ (s : Sections). s.payloads) (ok-injective done));
      }

module _ (view : List ℕ) (l : Layout) where
  lies_first :
      (c : ProviderCommand) (cs : List ProviderCommand) (t : Sections) (offset first payload : ℕ)
      → Split c cs t first payload
      → LieAll view l (c ∷ cs) t offset first payload
      → Lies view l c first payload
  lies_first c cs t offset first payload s h =
      let left = h.operands_left in
      let room = h.payload_left in
      record {
        operands = all_operands cs ++ h.operands;
        operands_here = h.operands_here ∙ append_assoc c.operands (all_operands cs) h.operands;
        payloads = s.more.payloads ++ h.payloads;
        payload_here =
            h.payloads_here
            ∙ ap (λ x. x ++ h.payloads) s.payloads
            ∙ append_assoc c.payload s.more.payloads h.payloads;
        operands_left = omega arith;
        payload_left = omega arith;
        operand_count = h.operand_count;
        payload_bytes = h.payload_bytes;
      }

  LieAll-front :
      (c : ProviderCommand) (cs : List ProviderCommand) (t : Sections) (offset first payload : ℕ)
      (s : Split c cs t first payload) (h : LieAll view l (c ∷ cs) t offset first payload)
      → drop offset view
        ≡ concat (command_fields c s.digest first payload) ++ (s.more.commands ++ h.behind)
  LieAll-front c cs t offset first payload s h =
      h.commands_here
      ∙ ap (λ x. x ++ h.behind) s.commands
      ∙ append_assoc (concat (command_fields c s.digest first payload)) s.more.commands h.behind

  LieAll-behind :
      (c : ProviderCommand) (cs : List ProviderCommand) (t : Sections) (offset first payload : ℕ)
      (s : Split c cs t first payload)
      → LieAll view l (c ∷ cs) t offset first payload
      → LieAll view l cs s.more
          (offset + 96)
          (first + length c.operands)
          (payload + length c.payload)
  unfolding lies_first
  LieAll-behind c cs t offset first payload s h =
      let left = h.operands_left in
      let room = h.payload_left in
      let one = lies_first c cs t offset first payload s h in
      let front = LieAll-front c cs t offset first payload s h in
      let moved : l.payload_offset + (payload + length c.payload)
          ≡ l.payload_offset + payload + length c.payload =
        omega arith in
      record {
        behind = h.behind;
        commands_here =
            drop-add offset 96 view
            ∙ ap (drop 96) front
            ∙ drop-command c s.digest first payload (s.more.commands ++ h.behind) s.is_digest.width;
        operands = h.operands;
        operands_here =
            drop-add first (length c.operands) l.operands
            ∙ ap (drop (length c.operands)) one.operands_here
            ∙ drop-append c.operands (all_operands cs ++ h.operands);
        payloads = h.payloads;
        payloads_here =
            ap (λ n. drop n view) moved
            ∙ drop-add (l.payload_offset + payload) (length c.payload) view
            ∙ ap (drop (length c.payload)) one.payload_here
            ∙ drop-append c.payload (s.more.payloads ++ h.payloads);
        operands_left = omega arith;
        payload_left = omega arith;
        operand_count = h.operand_count;
        payload_bytes = h.payload_bytes;
      }

  pub read_commands-pack_commands :
      (cs : List ProviderCommand) (t : Sections) (offset first payload : ℕ)
      → All (λ c. check_command c ≡ ok tt) cs
      → pack_commands cs first payload ≡ ok t
      → LieAll view l cs t offset first payload
      → read_commands view l offset first payload (length cs)
        ≡ ok (cs, first + operand_count cs, payload + payload_size cs)
  unfolding read_commands command_fields
  read_commands-pack_commands [] t offset first payload checked e h =
      let same : first + 0 ≡ first = omega arith in
      let same' : payload + 0 ≡ payload = omega arith in rw (same, same')
  read_commands-pack_commands (c ∷ cs) t offset first payload checked e h =
      let s = pack_commands-Split c cs t first payload e in
      let one = lies_first c cs t offset first payload s h in
      let fits = check_command-CommandFits c checked.0 in
      let few = one.operands_left in
      let small = one.payload_left in
      let few' = h.operand_count in
      let small' = h.payload_bytes in
      let fields =
        ap (chunks command_widths) (LieAll-front c cs t offset first payload s h)
        ∙ chunks-command c s.digest first payload (s.more.commands ++ h.behind) s.is_digest.width in
      let rest =
        read_commands-pack_commands cs s.more (offset + 96) (first + length c.operands)
          (payload + length c.payload) checked.1 s.packed
          (LieAll-behind c cs t offset first payload s h) in
      let short = fits.payload in
      let total : first + length c.operands + operand_count cs
          ≡ first + (length c.operands + operand_count cs) =
        omega arith in
      let total' : payload + length c.payload + payload_size cs
          ≡ payload + (length c.payload + payload_size cs) =
        omega arith in
      rw (
        fields,
        command_of-command_fields view l c s.digest first payload checked.0 s.is_digest one,
        number-le 4 (length c.operands) (omega arith),
        number-le 4 (length c.payload) (omega arith),
        rest,
        total,
        total',
      )
