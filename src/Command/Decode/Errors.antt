-- ===== src/Command/Decode/Errors.antt =====
-- The exceptions of `from_bytes`, and what a stream that it returns has passed.
use ag_infer.Prelude.{
  ℕ, zero, suc, ◌≡◌, refl, Bool, true, false, List, [], ◌∷◌, Result, ok, err, Failure, format_error,
  raise_if, ◌>>=◌, ◌>>◌, All, All-imp, subst, ap, ◌∙◌, list_eq, Result-cases, not, ◌||◌, ◌+◌, ◌-◌,
  ltb, all_of, ◌⊎◌, inl, inr, take, drop, ◌==◌, if◌then◌else◌, length,
}
use ag_infer.Prelude.Bytes.{number, chunks, to_hex}
use ag_infer.Command.{
  CommandOperand, ProviderCommand, CommandStream, check_operand, check_command, check_stream,
}
use ag_infer.Command.Decode.{
  as_format, field, operand_widths, command_widths, header_widths, tag_of, access_of, arch_of,
  operand_of, read_operands, Layout, command_of, read_commands, check_header, from_bytes,
}
use ag_infer.Command.Facts.{IsBuilt}

-- A call that returns what `P` holds of, or raises FormatError.
Yields : {A : Type 0} (P : A → Type 0) → Result A → Type 0
Yields P (ok a) = P a
Yields P (err failure) = failure ≡ format_error

Yields->>= :
    {A B : Type 0} (P : A → Type 0) (Q : B → Type 0) (m : Result A) (f : A → Result B)
    → Yields P m
    → ((a : A) → P a → Yields Q (f a))
    → Yields Q (m >>= f)
unfolding Yields
Yields->>= P Q (ok a) f h step = step a h
Yields->>= P Q (err failure) f h step = h

Yields-raise_if :
    {B : Type 0} (Q : B → Type 0) (c : Bool) (rest : Result B)
    → Yields Q rest
    → Yields Q (raise_if c format_error >> rest)
unfolding Yields
Yields-raise_if Q true rest h = refl
Yields-raise_if Q false rest h = h

Yields-as_format : {A : Type 0} (r : Result A) → Yields (λ a. r ≡ ok a) (as_format r)
unfolding as_format Yields
Yields-as_format (ok a) = refl
Yields-as_format (err failure) = refl

Yields-if :
    {A : Type 0} (P : A → Type 0) (c : Bool) (a : A) (rest : Result A)
    → P a
    → Yields P rest
    → Yields P (if c then ok a else rest)
unfolding Yields
Yields-if P true a rest h k = h
Yields-if P false a rest h k = k

Yields-ok : {A : Type 0} (P : A → Type 0) (a : A) → P a → Yields P (ok a)
unfolding Yields
Yields-ok P a h = h

Yields-value : {A : Type 0} (P : A → Type 0) {a : A} → Yields P (ok a) → P a
unfolding Yields
Yields-value P h = h

Yields-failure :
    {A : Type 0} (P : A → Type 0) {failure : Failure}
    → Yields P (err failure)
    → failure ≡ format_error
unfolding Yields
Yields-failure P h = h

Yields-err : {A : Type 0} (P : A → Type 0) → Yields P (err format_error)
unfolding Yields
Yields-err P = refl

abbrev Known : {A : Type 0} → A → Type 0
Known a = Unit {0}

Yields-raise : (c : Bool) → Yields Known (raise_if c format_error)
unfolding Yields
Yields-raise true = refl
Yields-raise false = tt

access_of-Known : (raw : ℕ) → Yields Known (access_of raw)
unfolding access_of
access_of-Known raw = search (Yields-if, Yields-err)

tag_of-Known : (raw : ℕ) → Yields Known (tag_of raw)
unfolding tag_of
tag_of-Known raw = search (Yields-if, Yields-err)

arch_of-Known : (raw : ℕ) → Yields Known (arch_of raw)
unfolding arch_of
arch_of-Known raw = search (Yields-if, Yields-err)

check_header-Known : (f : List (List ℕ)) (size : ℕ) → Yields Known (check_header f size)
unfolding check_header
check_header-Known f size = search (Yields-raise_if, Yields-raise) depth 9

abbrev Checked : CommandOperand → Type 0
Checked o = check_operand o ≡ ok tt

operand_of-Checked : (fields : List (List ℕ)) → Yields Checked (operand_of fields)
unfolding operand_of
operand_of-Checked fields =
    Yields->>= Known Checked (access_of (number (field fields 1))) _
      (access_of-Known (number (field fields 1)))
      λ access _.
        let o : CommandOperand = record {
          value_id = number (field fields 0);
          access = access;
          byte_offset = number (field fields 2);
        } in
        Yields->>= (λ u. check_operand o ≡ ok u) Checked (as_format (check_operand o)) _
          (Yields-as_format (check_operand o)) (λ u h. Yields-ok Checked o h)

read_operands-Checked :
    (view : List ℕ) (offset count : ℕ) → Yields (All Checked) (read_operands view offset count)
unfolding read_operands
read_operands-Checked view offset zero = Yields-ok (All Checked) [] tt
read_operands-Checked view offset (suc count) =
    Yields->>= Checked (All Checked) (operand_of (chunks operand_widths (drop offset view))) _
      (operand_of-Checked (chunks operand_widths (drop offset view)))
      λ o h.
        Yields->>= (All Checked) (All Checked) (read_operands view (offset + 16) count) _
          (read_operands-Checked view (offset + 16) count)
          (λ rest hs. Yields-ok (All Checked) (o ∷ rest) (h, hs))

All-drop : {A : Type 0} (P : A → Type 0) (n : ℕ) (xs : List A) → All P xs → All P (drop n xs)
All-drop P zero xs h = h
All-drop P (suc n) [] h = tt
All-drop P (suc n) (x ∷ xs) h = All-drop P n xs h.1

All-take : {A : Type 0} (P : A → Type 0) (n : ℕ) (xs : List A) → All P xs → All P (take n xs)
All-take P zero xs h = tt
All-take P (suc n) [] h = tt
All-take P (suc n) (x ∷ xs) h = (h.0, All-take P n xs h.1)

abbrev Accepted : ProviderCommand → Type 0
Accepted c = (check_command c ≡ ok tt) × All Checked c.operands

command_of-Accepted :
    (view : List ℕ) (l : Layout) (fields : List (List ℕ)) (next_operand next_payload : ℕ)
    → All Checked l.operands
    → Yields Accepted (command_of view l fields next_operand next_payload)
unfolding command_of
command_of-Accepted view l f next_operand next_payload h =
    Yields->>= Known Accepted
      (raise_if (ltb 1 (number (field f 4)) || not (all_of (λ b. b == 0) (field f 12)))
        format_error)
      _ (Yields-raise _)
      λ _ _.
        Yields->>= Known Accepted
          (raise_if
            (not (number (field f 5) == next_operand)
              || number (field f 6) == 0
              || ltb (l.operand_count - number (field f 5)) (number (field f 6)))
            format_error)
          _ (Yields-raise _)
          λ _ _.
            Yields->>= Known Accepted
              (raise_if
                (not (number (field f 8) == next_payload)
                  || ltb (l.payload_bytes - number (field f 8)) (number (field f 7)))
                format_error)
              _ (Yields-raise _)
              λ _ _.
                Yields->>= Known Accepted (tag_of (number (field f 0))) _
                  (tag_of-Known (number (field f 0)))
                  λ tag _.
                    let c : ProviderCommand = record {
                      tag = tag;
                      provider_id = number (field f 1);
                      abi_major = number (field f 2);
                      abi_minor = number (field f 3);
                      capability_digest = to_hex (field f 11);
                      operands = take (number (field f 6)) (drop (number (field f 5)) l.operands);
                      payload =
                          take (number (field f 7))
                            (drop (l.payload_offset + number (field f 8)) view);
                      workspace_offset = number (field f 9);
                      workspace_bytes = number (field f 10);
                      capture_safe = number (field f 4) == 1;
                    } in
                    Yields->>= (λ u. check_command c ≡ ok u) Accepted (as_format (check_command c))
                      _ (Yields-as_format (check_command c))
                      λ u e. Yields-ok Accepted c (
                        e,
                        All-take Checked (number (field f 6)) (drop (number (field f 5)) l.operands)
                            (All-drop Checked (number (field f 5)) l.operands h),
                      )

read_commands-Accepted :
    (view : List ℕ) (l : Layout) (offset next_operand next_payload count : ℕ)
    → All Checked l.operands
    → Yields
        (λ (r : List ProviderCommand × ℕ × ℕ). All Accepted r.0)
        (read_commands view l offset next_operand next_payload count)
unfolding read_commands
read_commands-Accepted view l offset i j zero h = Yields-ok _ ([], i, j) tt
read_commands-Accepted view l offset i j (suc count) h =
    let f = chunks command_widths (drop offset view) in
    Yields->>= Accepted _ (command_of view l f i j) _ (command_of-Accepted view l f i j h) λ c e.
      Yields->>= (λ (r : List ProviderCommand × ℕ × ℕ). All Accepted r.0) _
        (read_commands view l (offset + 96) (i + number (field f 6)) (j + number (field f 7)) count)
        _
        (read_commands-Accepted view l (offset + 96) (i + number (field f 6))
          (j + number (field f 7)) count h)
        λ r es. Yields-ok _ (c ∷ r.0, r.1, r.2) (e, es)

All-both :
    (cs : List ProviderCommand)
    → All Accepted cs
    → All (λ c. check_command c ≡ ok tt) cs
      × All (λ (c : ProviderCommand). All Checked c.operands) cs
All-both cs h = (All-imp Accepted _ cs (λ c a. a.0) h, All-imp Accepted _ cs (λ c a. a.1) h)

module _ (sha256 : List ℕ → List ℕ) where
  from_bytes-IsBuilt : (view : List ℕ) → Yields IsBuilt (from_bytes sha256 view)
  unfolding from_bytes
  from_bytes-IsBuilt view =
      let f = chunks header_widths view in
      Yields->>= Known IsBuilt (raise_if (ltb (length view) 192) format_error) _ (Yields-raise _)
        λ _ _.
          Yields->>= Known IsBuilt (check_header f (length view)) _
            (check_header-Known f (length view))
            λ _ _.
              Yields->>= Known IsBuilt
                (raise_if
                  (all_of (λ b. b == 0) (field f 18)
                    || not (list_eq (sha256 (drop (number (field f 13)) view)) (field f 19)))
                  format_error)
                _ (Yields-raise _)
                λ _ _.
                  Yields->>= Known IsBuilt (arch_of (number (field f 4))) _
                    (arch_of-Known (number (field f 4)))
                    λ arch _.
                      Yields->>= (All Checked) IsBuilt
                        (read_operands view (number (field f 14)) (number (field f 6))) _
                        (read_operands-Checked view (number (field f 14)) (number (field f 6)))
                        λ operands os.
                          let l : Layout = record {
                            operands = operands;
                            operand_count = number (field f 6);
                            payload_offset = number (field f 15);
                            payload_bytes = number (field f 16);
                          } in
                          Yields->>= (λ (r : List ProviderCommand × ℕ × ℕ). All Accepted r.0)
                            IsBuilt
                            (read_commands view l (number (field f 13)) 0 0 (number (field f 5))) _
                            (read_commands-Accepted view l (number (field f 13)) 0 0
                              (number (field f 5)) os)
                            λ r cs.
                              Yields->>= Known IsBuilt
                                (raise_if
                                  (not (r.1 == number (field f 6))
                                    || not (r.2 == number (field f 16)))
                                  format_error)
                                _ (Yields-raise _)
                                λ _ _.
                                  let s : CommandStream = record {
                                    target_arch = arch;
                                    memory_plan_sha256 = to_hex (field f 18);
                                    value_count = number (field f 9);
                                    arena_bytes = number (field f 10);
                                    state_bytes = number (field f 11);
                                    workspace_bytes = number (field f 12);
                                    commands = r.0;
                                  } in
                                  let (commands, operands') = All-both r.0 cs in
                                  Yields->>= (λ u. check_stream s ≡ ok u) IsBuilt
                                    (as_format (check_stream s)) _
                                    (Yields-as_format (check_stream s))
                                    λ u e. Yields-ok IsBuilt s (record {
                                      stream = e;
                                      commands = commands;
                                      operands = operands';
                                    })

  -- Whatever the bytes are, `from_bytes` raises FormatError and nothing else, or it returns a stream that
  -- passed, with all its commands and operands, the checks of the constructors.
  pub from_bytes-outcome :
      (bytes : List ℕ)
      → ((s : CommandStream) × (from_bytes sha256 bytes ≡ ok s) × IsBuilt s)
        ⊎ (from_bytes sha256 bytes ≡ err format_error)
  from_bytes-outcome bytes = elim (Result-cases (from_bytes sha256 bytes)) [
    | inl (s, e) ↦
        inl (s, e, Yields-value IsBuilt (subst (Yields IsBuilt) e (from_bytes-IsBuilt bytes)))
    | inr (failure, e) ↦
        inr (
          e ∙ ap err (Yields-failure IsBuilt (subst (Yields IsBuilt) e (from_bytes-IsBuilt bytes))))
  ]
