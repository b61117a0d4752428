-- ===== src/Replan/Loop.antt =====
-- The loop over the commands: every operand is within what is recorded of its root.
use ag_infer.Prelude.{
  ℕ, ◌+◌, ◌≤◌, ◌≡◌, refl, sym, ◌∙◌, ◌⊎◌, inl, inr, true, List, [], ◌∷◌, ok, arith, >>=-then,
  ok-injective, subst, traverse, fold_result, elem, All, All-imp,
}
use ag_infer.Prelude.Loops.{fold_result-keeps, fold_result-All}
use ag_infer.Memory.{ValueAllocation}
use ag_infer.Command.{OperandAccess, read, write, read_write, CommandOperand, is_write}
use ag_infer.Assemble.{CommandPlacement, reads_value}
use ag_infer.Replan.{
  Uses, Access, access_operand, check_read, note_write, use_command, use_commands,
}
use ag_infer.Replan.Commands

module _ (allocations : List ValueAllocation) (roots : List ℕ) where
  abbrev Consistent : ℕ → Uses → Type 0
  Consistent index u = Commands.IsConsistent allocations roots index u

  either_access : (a : OperandAccess) → (reads_value a ≡ true) ⊎ (is_write a ≡ true)
  either_access read = inl refl
  either_access write = inr refl
  either_access read_write = inl refl

  -- Writes of a command leave the last uses and add to the written roots.
  writes-last_use :
      (index : ℕ) (u u' : Uses) (writes : List ℕ)
      → fold_result (note_write allocations index) u writes ≡ ok u'
      → u'.last_use ≡ u.last_use
  writes-last_use index u u' writes e =
      fold_result-keeps (note_write allocations index) (λ (x : Uses). x.last_use ≡ u.last_use)
        (λ s root s' w h.
          (Commands.note_write-IsWrite allocations roots index s root s' w).last_use ∙ h)
        u writes e refl

  write-written :
      (index root : ℕ) (u : Uses) (other : ℕ) (u' : Uses)
      → note_write allocations index u other ≡ ok u'
      → elem root u.written ≡ true
      → elem root u'.written ≡ true
  unfolding elem
  write-written index root u other u' e h =
      let s = Commands.note_write-IsWrite allocations roots index u other u' e in
      subst (λ l. elem root l ≡ true) (sym s.written) (ground arith)

  write_self :
      (index : ℕ) (u : Uses) (root : ℕ) (u' : Uses)
      → note_write allocations index u root ≡ ok u'
      → elem root u'.written ≡ true
  unfolding elem
  write_self index u root u' e =
      let s = Commands.note_write-IsWrite allocations roots index u root u' e in
      subst (λ l. elem root l ≡ true) (sym s.written) (ground arith)

  use_command-Used :
      (index : ℕ) (u : Uses) (p : CommandPlacement) (u' : Uses)
      → use_command allocations roots index u p ≡ ok u'
      → Commands.IsConsistent allocations roots index u
      → Commands.IsConsistent allocations roots index u'
        × All (Commands.Used allocations roots index u') p.command.operands
  unfolding use_command
  use_command-Used index u p u' e c =
      let start : Access = record { reads = []; writes = []; last_use = u.last_use } in
      >>=-then (fold_result (access_operand allocations roots index) start p.command.operands) _ e
        λ a accessed e1.
          >>=-then (traverse (check_read allocations u.written) a.reads) _ e1 λ _ checked noted.
            let middle : Uses = record u { last_use = a.last_use } in
            let touched =
              fold_result-All (access_operand allocations roots index)
                (Commands.Touched allocations roots index)
                (Commands.access_operand-Touched allocations roots index)
                (λ s o s' earlier w h.
                  Commands.access_operand-keeps allocations roots index s o s' earlier w h)
                start p.command.operands accessed in
            let entered : Commands.IsConsistent allocations roots index middle = record {
              early = c.early;
              written = c.written;
            } in
            let consistent =
              fold_result-keeps (note_write allocations index)
                (Commands.IsConsistent allocations roots index)
                (Commands.note_write-IsConsistent allocations roots index) middle a.writes noted
                entered in
            let last = writes-last_use index middle u' a.writes noted in
            let written =
              fold_result-All (note_write allocations index)
                (λ (x : Uses) root. elem root x.written ≡ true) (write_self index)
                (λ s root s' other w h. write-written index other s root s' w h) middle a.writes
                noted in
            let before =
              Commands.check_read-ReadsWritten allocations roots u.written a.reads checked in
            let stays = λ (root : ℕ) (h : elem root u.written ≡ true).
              fold_result-keeps (note_write allocations index)
                (λ (x : Uses). elem root x.written ≡ true)
                (λ s other s' w k. write-written index root s other s' w k) middle a.writes noted
                h in
            (
              consistent,
              All-imp _ _ p.command.operands
                  (λ o t root found.
                    let (lasts, in_reads, in_writes) = t root found in
                    (
                      subst (λ l. Commands.Lasts allocations roots l index root) (sym last) lasts,
                      λ allocation allocated arena.
                          Commands.Consistent-Starts allocations roots index u' root consistent
                            (elim (either_access o.access) [
                              | inl r ↦ stays root (
                                  Commands.elem-All allocations roots _ root a.reads before
                                    (in_reads r) allocation allocated arena)
                              | inr w ↦
                                  Commands.elem-All allocations roots
                                    (λ x. elem x u'.written ≡ true) root a.writes written
                                    (in_writes w)
                            ]),
                    ))
                  touched,
            )

  use_command-keeps :
      (index later : ℕ) (u : Uses) (p : CommandPlacement) (u' : Uses) (operand : CommandOperand)
      → index ≤ later
      → use_command allocations roots later u p ≡ ok u'
      → Commands.Used allocations roots index u operand
      → Commands.Used allocations roots index u' operand
  unfolding use_command
  use_command-keeps index later u p u' operand h e used root found =
      let start : Access = record { reads = []; writes = []; last_use = u.last_use } in
      >>=-then (fold_result (access_operand allocations roots later) start p.command.operands) _ e
        λ a accessed e1.
          >>=-then (traverse (check_read allocations u.written) a.reads) _ e1 λ _ _ noted.
            let middle : Uses = record u { last_use = a.last_use } in
            let (lasts, starts) = used root found in
            (
              subst (λ l. Commands.Lasts allocations roots l index root)
                  (sym (writes-last_use later middle u' a.writes noted))
                  (fold_result-keeps (access_operand allocations roots later)
                    (λ (x : Access). Commands.Lasts allocations roots x.last_use index root)
                    (Commands.access_operand-Lasts allocations roots index later root h) start
                    p.command.operands accessed lasts),
              λ allocation allocated arena.
                  fold_result-keeps (note_write allocations later)
                    (λ (x : Uses). Commands.Starts allocations roots x.first_write index root)
                    (λ s other s' w k.
                      Commands.note_write-Starts allocations roots index later root s other s' w k)
                    middle a.writes noted (starts allocation allocated arena),
            )

  use_commands-keeps :
      (index later : ℕ) (u : Uses) (ps : List CommandPlacement) (u' : Uses)
      (operand : CommandOperand)
      → index ≤ later
      → use_commands allocations roots later u ps ≡ ok u'
      → Commands.Used allocations roots index u operand
      → Commands.Used allocations roots index u' operand
  unfolding use_commands
  use_commands-keeps index later u [] u' operand h e used =
      subst (λ x. Commands.Used allocations roots index x operand) (ok-injective e) used
  use_commands-keeps index later u (p ∷ ps) u' operand h e used =
      >>=-then (use_command allocations roots later u p) _ e λ u1 one rest.
        use_commands-keeps index (later + 1) u1 ps u' operand (omega arith) rest
          (use_command-keeps index later u p u1 operand h one used)

  -- Every operand of every command is within the recorded uses, the commands counted from `index`.
  abbrev pub AllUsed : ℕ → Uses → List CommandPlacement → Type 0
  AllUsed index u [] = Unit {0}
  AllUsed index u (p ∷ ps) =
      All (Commands.Used allocations roots index u) p.command.operands × AllUsed (index + 1) u ps

  next-IsConsistent :
      (index : ℕ) (u : Uses)
      → Commands.IsConsistent allocations roots index u
      → Commands.IsConsistent allocations roots (index + 1) u
  next-IsConsistent index u c = record {
    early = λ root n found. let h = c.early root n found in omega arith;
    written = c.written;
  }

  pub use_commands-AllUsed :
      (index : ℕ) (u : Uses) (ps : List CommandPlacement) (u' : Uses)
      → use_commands allocations roots index u ps ≡ ok u'
      → Commands.IsConsistent allocations roots index u
      → AllUsed index u' ps
  unfolding use_commands
  use_commands-AllUsed index u [] u' e c = tt
  use_commands-AllUsed index u (p ∷ ps) u' e c =
      >>=-then (use_command allocations roots index u p) _ e λ u1 one rest.
        let (c1, used) = use_command-Used index u p u1 one c in
        (
          All-imp _ _ p.command.operands
              (λ o h. use_commands-keeps index (index + 1) u1 ps u' o (omega arith) rest h) used,
          use_commands-AllUsed (index + 1) u1 ps u' rest (next-IsConsistent index u1 c1),
        )

  use_command-Positive :
      (index : ℕ) (u : Uses) (p : CommandPlacement) (u' : Uses)
      → use_command allocations roots index u p ≡ ok u'
      → Commands.Positive allocations roots u.last_use
      → Commands.Positive allocations roots u'.last_use
  unfolding use_command
  use_command-Positive index u p u' e h =
      let start : Access = record { reads = []; writes = []; last_use = u.last_use } in
      >>=-then (fold_result (access_operand allocations roots index) start p.command.operands) _ e
        λ a accessed e1.
          >>=-then (traverse (check_read allocations u.written) a.reads) _ e1 λ _ _ noted.
            subst (Commands.Positive allocations roots)
              (sym (writes-last_use index (record u { last_use = a.last_use }) u' a.writes noted))
              (fold_result-keeps (access_operand allocations roots index)
                (λ (x : Access). Commands.Positive allocations roots x.last_use)
                (λ s o s' w k. Commands.access_operand-Positive allocations roots index s o s' w k)
                start p.command.operands accessed h)

  pub use_commands-Positive :
      (index : ℕ) (u : Uses) (ps : List CommandPlacement) (u' : Uses)
      → use_commands allocations roots index u ps ≡ ok u'
      → Commands.Positive allocations roots u.last_use
      → Commands.Positive allocations roots u'.last_use
  unfolding use_commands
  use_commands-Positive index u [] u' e h =
      subst (λ (x : Uses). Commands.Positive allocations roots x.last_use) (ok-injective e) h
  use_commands-Positive index u (p ∷ ps) u' e h =
      >>=-then (use_command allocations roots index u p) _ e λ u1 one rest.
        use_commands-Positive (index + 1) u1 ps u' rest (use_command-Positive index u p u1 one h)
