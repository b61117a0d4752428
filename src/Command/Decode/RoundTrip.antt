-- ===== src/Command/Decode/RoundTrip.antt =====
-- Reading back a whole command stream.
use ag_infer.Prelude.{
  ==_self, ge→ltb, ℕ, ◌+◌, ◌-◌, ◌*◌, ◌^◌, ◌≤◌, ◌<◌, ◌≡◌, refl, sym, ◌∙◌, ap, false, not, ◌||◌, List,
  [], ◌++◌, append-nil, arith, ok, ltb, ◌==◌, length, length-append, drop,
}
use ag_infer.Prelude.Bytes.{number-le, concat, chunks, chunks-concat, drop-append}
use ag_infer.Command.{
  ProviderCommand, CommandStream, check_operand, check_stream, operand_count, Sections,
  pack_commands, header_fields, to_bytes,
}
use ag_infer.Command.Decode.{
  as_format, header_widths, read_operands, read_commands, check_header, from_bytes,
}
use ag_infer.Command.Facts.{
  IsDigest, digest_bytes-IsDigest, StreamFits, check_stream-StreamFits, IsBuilt,
}
use ag_infer.Command.Decode.Tables.{arch_of-arch_code, drop-add, read_operands-pack_operands}
use ag_infer.Command.Decode.Packed.{
  operand_count-length, all_operands-All, length-pack_operands, IsPacked, pack_commands-IsPacked,
}
use ag_infer.Command.Decode.Records.{
  all_operands, payload_size, LieAll, read_commands-pack_commands,
}
use ag_infer.Command.Decode.Header.{
  list_eq_self, check_header-header_fields, header_fields-widths, length-header,
}

add_zero : (n : ℕ) → 0 + n ≡ n
add_zero n = omega arith

module _ (sha256 : List ℕ → List ℕ)
    (sha256_width : (bytes : List ℕ) → length (sha256 bytes) ≡ 32) where
  abbrev body_of : Sections → List ℕ
  body_of t = t.commands ++ (t.operands ++ t.payloads)

  length-body_of :
      (cs : List ProviderCommand) (t : Sections)
      → IsPacked cs t
      → length (body_of t) ≡ length cs * 96 + (operand_count cs * 16 + payload_size cs)
  length-body_of cs t p = omega (
    arith,
    length-append t.commands (t.operands ++ t.payloads),
    length-append t.operands t.payloads,
    p.commands,
    p.payloads,
    ap length p.operands,
    length-pack_operands (all_operands cs),
    operand_count-length cs,
  )

  -- The bytes `view`, seen through their header, are the stream `s`.
  record Shows (view : List ℕ) (s : CommandStream) : Type 0 where
    memory_digest : List ℕ
    body_digest : List ℕ
    operands_offset : ℕ
    payload_offset : ℕ
    payload_bytes : ℕ
    size : ℕ
    fields :
        chunks header_widths view
        ≡ header_fields s memory_digest body_digest operands_offset payload_offset payload_bytes
            size
    width : length view ≡ size
    header :
        check_header
          (header_fields s memory_digest body_digest operands_offset payload_offset payload_bytes
            size)
          size
        ≡ ok tt
    digest : IsDigest s.memory_plan_sha256 memory_digest
    hash : sha256 (drop 192 view) ≡ body_digest
    operands :
        read_operands view operands_offset (operand_count s.commands) ≡ ok (all_operands s.commands)
    commands :
        read_commands view
          (record {
            operands = all_operands s.commands;
            operand_count = operand_count s.commands;
            payload_offset = payload_offset;
            payload_bytes = payload_bytes;
          })
          192
          0
          0
          (length s.commands)
        ≡ ok (s.commands, operand_count s.commands, payload_bytes)
    at_operands : 192 ≤ operands_offset
    at_payload : operands_offset ≤ payload_offset
    at_end : payload_offset + payload_bytes ≡ size
    small : size < 256 ^ 8

  from_bytes-Shows :
      (view : List ℕ) (s : CommandStream)
      → check_stream s ≡ ok tt
      → StreamFits s
      → Shows view s
      → from_bytes sha256 view ≡ ok s
  unfolding from_bytes header_fields as_format
  from_bytes-Shows view s checked fits v =
      let few = fits.commands in
      let few' = fits.operands in
      let a = v.at_operands in
      let b = v.at_payload in
      let c = v.at_end in
      let d = v.small in
      let value = fits.value_count in
      let long : ltb v.size 192 ≡ false = ge→ltb v.size 192 (omega arith) in
      let consumed : (not (operand_count s.commands == operand_count s.commands)
            || not (v.payload_bytes == v.payload_bytes))
          ≡ false =
        rw (==_self (operand_count s.commands), ==_self v.payload_bytes) refl in
      rw (
        v.width,
        long,
        v.fields,
        v.header,
        number-le 8 192 (omega arith),
        v.hash,
        list_eq_self v.body_digest,
        v.digest.nonzero,
        arch_of-arch_code s.target_arch,
        number-le 8 v.operands_offset (omega arith),
        number-le 4 (operand_count s.commands) (omega arith),
        v.operands,
        number-le 8 v.payload_offset (omega arith),
        number-le 8 v.payload_bytes (omega arith),
        number-le 4 (length s.commands) (omega arith),
        v.commands,
        consumed,
        v.digest.printed,
        number-le 8 s.value_count (omega arith),
        number-le 8 s.arena_bytes fits.arena_bytes,
        number-le 8 s.state_bytes fits.state_bytes,
        number-le 8 s.workspace_bytes fits.workspace_bytes,
        checked,
      )

  -- The image of a stream with the given tables and digest of the plan.
  abbrev image : CommandStream → Sections → List ℕ → List ℕ
  image s t memory_digest =
      concat (
        header_fields s memory_digest (sha256 (body_of t)) (192 + length t.commands)
          (192 + length t.commands + length t.operands) (length t.payloads)
          (192 + length t.commands + length t.operands + length t.payloads))
      ++ body_of t

  module _ (s : CommandStream) (built : IsBuilt s) (t : Sections)
      (packed : pack_commands s.commands 0 0 ≡ ok t) (p : IsPacked s.commands t)
      (fits : StreamFits s) where
    digest_of : IsDigest s.memory_plan_sha256 fits.digest
    digest_of = digest_bytes-IsDigest s.memory_plan_sha256 fits.decoded

    drop-header : drop 192 (image s t fits.digest) ≡ body_of t
    drop-header =
        let header = concat (
          header_fields s fits.digest (sha256 (body_of t)) (192 + length t.commands)
            (192 + length t.commands + length t.operands) (length t.payloads)
            (192 + length t.commands + length t.operands + length t.payloads)) in
        ap (λ n. drop n (header ++ body_of t))
          (sym (
            length-header s fits.digest (sha256 (body_of t)) _ _ _ _ digest_of.width
              (sha256_width (body_of t))))
        ∙ drop-append header (body_of t)

    drop-commands :
        drop (192 + length t.commands) (image s t fits.digest) ≡ t.operands ++ t.payloads
    drop-commands =
        drop-add 192 (length t.commands) (image s t fits.digest)
        ∙ ap (drop (length t.commands)) drop-header
        ∙ drop-append t.commands (t.operands ++ t.payloads)

    drop-operands :
        drop (192 + length t.commands + length t.operands + 0) (image s t fits.digest)
        ≡ t.payloads ++ []
    drop-operands =
        let same : 192 + length t.commands + length t.operands + 0
            ≡ 192 + length t.commands + length t.operands =
          omega arith in
        ap (λ n. drop n (image s t fits.digest)) same
        ∙ drop-add (192 + length t.commands) (length t.operands) (image s t fits.digest)
        ∙ ap (drop (length t.operands)) drop-commands
        ∙ drop-append t.operands t.payloads
        ∙ sym (append-nil t.payloads)

    length-image :
        length (image s t fits.digest)
        ≡ 192 + length t.commands + length t.operands + length t.payloads
    length-image =
        let header = concat (
          header_fields s fits.digest (sha256 (body_of t)) (192 + length t.commands)
            (192 + length t.commands + length t.operands) (length t.payloads)
            (192 + length t.commands + length t.operands + length t.payloads)) in
        omega (
          arith,
          length-append header (body_of t),
          length-header s fits.digest (sha256 (body_of t)) _ _ _ _ digest_of.width
              (sha256_width (body_of t)),
          length-append t.commands (t.operands ++ t.payloads),
          length-append t.operands t.payloads,
        )

    chunks-header :
        chunks header_widths (image s t fits.digest)
        ≡ header_fields s fits.digest
            (sha256 (body_of t))
            (192 + length t.commands)
            (192 + length t.commands + length t.operands)
            (length t.payloads)
            (192 + length t.commands + length t.operands + length t.payloads)
    chunks-header =
        let fields =
          header_fields s fits.digest (sha256 (body_of t)) (192 + length t.commands)
            (192 + length t.commands + length t.operands) (length t.payloads)
            (192 + length t.commands + length t.operands + length t.payloads) in
        ap (λ w. chunks w (concat fields ++ body_of t))
          (sym (
            header_fields-widths s fits.digest (sha256 (body_of t)) _ _ _ _ digest_of.width
              (sha256_width (body_of t))))
        ∙ chunks-concat fields (body_of t)

    lie_all :
        LieAll
          (image s t fits.digest)
          (record {
            operands = all_operands s.commands;
            operand_count = operand_count s.commands;
            payload_offset = 192 + length t.commands + length t.operands;
            payload_bytes = length t.payloads;
          })
          s.commands
          t
          192
          0
          0
    lie_all =
        let few = fits.operands in
        let few' = fits.commands in
        let small = p.payload_bound in
        let small' = p.payloads in
        record {
          behind = t.operands ++ t.payloads;
          commands_here = drop-header;
          operands = [];
          operands_here = sym (append-nil (all_operands s.commands));
          payloads = [];
          payloads_here = drop-operands;
          operands_left = omega arith;
          payload_left = omega arith;
          operand_count = omega arith;
          payload_bytes = omega arith;
        }

    read_all :
        read_operands (image s t fits.digest) (192 + length t.commands) (operand_count s.commands)
        ≡ ok (all_operands s.commands)
    read_all =
        ap (read_operands (image s t fits.digest) (192 + length t.commands))
          (operand_count-length s.commands)
        ∙ read_operands-pack_operands (image s t fits.digest) (192 + length t.commands)
            (all_operands s.commands) t.payloads
            (all_operands-All (λ o. check_operand o ≡ ok tt) s.commands built.operands)
            (drop-commands ∙ ap (λ l. l ++ t.payloads) p.operands)

    image-Shows : Shows (image s t fits.digest) s
    image-Shows =
        let few = fits.operands in
        let few' = fits.commands in
        let small = p.payload_bound in
        let small' = p.payloads in
        let commands = p.commands in
        let operands = ap length p.operands ∙ length-pack_operands (all_operands s.commands) in
        let counted = operand_count-length s.commands in
        let bound = p.operand_bound in
        let some_commands = fits.some_commands in
        record {
          memory_digest = fits.digest;
          body_digest = sha256 (body_of t);
          operands_offset = 192 + length t.commands;
          payload_offset = 192 + length t.commands + length t.operands;
          payload_bytes = length t.payloads;
          size = 192 + length t.commands + length t.operands + length t.payloads;
          fields = chunks-header;
          width = length-image;
          header =
              check_header-header_fields s fits.digest (sha256 (body_of t)) _ _ _ _ fits
                (omega arith) (omega arith) (omega arith) refl (omega arith);
          digest = digest_of;
          hash = ap sha256 drop-header;
          operands = read_all;
          commands =
              read_commands-pack_commands (image s t fits.digest) _ s.commands t 192 0 0
                built.commands packed lie_all
              ∙ rw
                  (
                    p.payloads,
                    add_zero (operand_count s.commands),
                    add_zero (payload_size s.commands),
                  )
                  refl;
          at_operands = omega arith;
          at_payload = omega arith;
          at_end = refl;
          small = omega arith;
        }

    to_bytes-image : to_bytes sha256 s ≡ ok (image s t fits.digest)
    unfolding to_bytes
    to_bytes-image =
        let few = fits.operands in
        let few' = fits.commands in
        let small = p.payload_bound in
        let small' = p.payloads in
        let commands = p.commands in
        let operands = ap length p.operands ∙ length-pack_operands (all_operands s.commands) in
        let counted = operand_count-length s.commands in
        let fitting : ltb (2 ^ 64 - 1)
              (192 + length t.commands + length t.operands + length t.payloads)
            ≡ false =
          ge→ltb (2 ^ 64 - 1) _ (omega arith) in
        rw (packed, fitting, fits.decoded) refl

  -- Every stream that passed the checks of its constructors can be written, and what is read back from
  -- the bytes is the stream itself, where SHA-256 digests are 32 bytes wide.
  pub from_bytes-to_bytes :
      (s : CommandStream)
      → IsBuilt s
      → (bytes : List ℕ) × (to_bytes sha256 s ≡ ok bytes) × (from_bytes sha256 bytes ≡ ok s)
  from_bytes-to_bytes s built =
      let fits = check_stream-StreamFits s built.stream in
      let (t, packed, p) = pack_commands-IsPacked s.commands 0 0 built.commands in
      (
        image s t fits.digest,
        to_bytes-image s built t packed p fits,
        from_bytes-Shows (image s t fits.digest) s built.stream fits
            (image-Shows s built t packed p fits),
      )
