-- ===== src/Replan/Commands.antt =====
-- What the loop over the commands records: first writes and last uses.
use ag_infer.Prelude.{
  ℕ, ◌≤◌, ◌<◌, ◌≡◌, refl, sym, ap, ◌∙◌, inl, inr, Bool, true, false, not, ◌&&◌, ◌||◌, some, List,
  [], ◌∷◌, some-injective, ok, arith, raise_if, raise_if-eq-ok, >>=-then, ok-injective, subst,
  traverse, leb, ◌==◌, ==_iff, ==_self, if◌then◌else◌, length, elem, All, Bool-cases, Option-cases,
}
use ag_infer.Prelude.Loops.{traverse-All}
use ag_infer.Schedule.{item}
use ag_infer.Memory.{get, put, or_key_error, ValueAllocation}
use ag_infer.Memory.Build.Intervals.{or_key_error-some}
use ag_infer.Command.{CommandOperand, is_write}
use ag_infer.Assemble.{allocation_of, reads_value, is_arena_region, known}
use ag_infer.Replan.{Uses, Access, access_operand, check_read, is_fixed_region, note_write}

module _ (allocations : List ValueAllocation) (roots : List ℕ) where
  -- What an operand does to the tables.
  pub record IsAccess (index : ℕ) (a : Access) (operand : CommandOperand) (a' : Access)
      : Type 0 where
    pub root : ℕ
    pub found : item roots operand.value_id ≡ ok root
    pub allocation : ValueAllocation
    pub allocated : allocation_of allocations root ≡ some allocation
    pub inside : operand.byte_offset < allocation.byte_size
    pub reads : a'.reads ≡ (if reads_value operand.access then root ∷ a.reads else a.reads)
    pub writes : a'.writes ≡ (if is_write operand.access then root ∷ a.writes else a.writes)
    pub last_use : a'.last_use ≡ put a.last_use root index

  pub access_operand-IsAccess :
      (index : ℕ) (a : Access) (operand : CommandOperand) (a' : Access)
      → access_operand allocations roots index a operand ≡ ok a'
      → IsAccess index a operand a'
  unfolding access_operand
  access_operand-IsAccess index a operand a' e =
      >>=-then (raise_if (leb (length roots) operand.value_id) _) _ e λ _ _ e1.
        >>=-then (item roots operand.value_id) _ e1 λ root found e2.
          >>=-then (or_key_error (allocation_of allocations root)) _ e2 λ allocation allocated e3.
            >>=-then (raise_if (leb allocation.byte_size operand.byte_offset) _) _ e3
              λ _ bounded e4.
                >>=-then (raise_if (is_write operand.access && elem root a.writes) _) _ e4
                  λ _ _ done.
                    let bound = raise_if-eq-ok _ _ bounded in
                    let same = sym (ok-injective done) in
                    record {
                      root = root;
                      found = found;
                      allocation = allocation;
                      allocated = or_key_error-some (allocation_of allocations root) allocated;
                      inside = ground arith;
                      reads = ap (λ (x : Access). x.reads) same;
                      writes = ap (λ (x : Access). x.writes) same;
                      last_use = ap (λ (x : Access). x.last_use) same;
                    }

  -- A root is used by a command at the given position, or by a later one.
  abbrev pub Lasts : List (ℕ × ℕ) → ℕ → ℕ → Type 0
  Lasts last_use index root = (n : ℕ) × (get last_use root ≡ some n) × (index ≤ n)

  -- A root is first written by the command at the given position, or by an earlier one.
  abbrev pub Starts : List (ℕ × ℕ) → ℕ → ℕ → Type 0
  Starts first_write index root = (n : ℕ) × (get first_write root ≡ some n) × (n ≤ index)

  pub put-Lasts :
      (last_use : List (ℕ × ℕ)) (index later root other : ℕ)
      → index ≤ later
      → Lasts last_use index root
      → Lasts (put last_use other later) index root
  unfolding get
  put-Lasts last_use index later root other h (n, found, k) = elim (Bool-cases (other == root)) [
    | inl same ↦ (later, rw same refl, h)
    | inr apart ↦ (n, rw apart found, k)
  ]

  -- Roots that are used have bytes.
  abbrev pub Positive : List (ℕ × ℕ) → Type 0
  Positive last_use =
      (root n : ℕ)
      → get last_use root ≡ some n
      → (a : ValueAllocation) × (allocation_of allocations root ≡ some a) × (0 < a.byte_size)

  pub access_operand-Positive :
      (index : ℕ) (a : Access) (operand : CommandOperand) (a' : Access)
      → access_operand allocations roots index a operand ≡ ok a'
      → Positive a.last_use
      → Positive a'.last_use
  unfolding get
  access_operand-Positive index a operand a' e h root n found =
      let s = access_operand-IsAccess index a operand a' e in
      elim (Bool-cases (s.root == root)) [
        | inl same ↦
            let eq : s.root ≡ root = (==_iff s.root root).0 same in
            let inside = s.inside in
            (
              s.allocation,
              subst (λ r. allocation_of allocations r ≡ some s.allocation) eq s.allocated,
              omega arith,
            )
        | inr other ↦
            h root n
              (rw other at (subst (λ (l : List (ℕ × ℕ)). get l root ≡ some n) s.last_use found))
      ]

  -- What a command has noted of an operand, once it has passed all its operands.
  abbrev pub Touched : ℕ → Access → CommandOperand → Type 0
  Touched index a operand =
      (root : ℕ)
      → item roots operand.value_id ≡ ok root
      → Lasts a.last_use index root
        × (reads_value operand.access ≡ true → elem root a.reads ≡ true)
        × (is_write operand.access ≡ true → elem root a.writes ≡ true)

  elem-first : (root : ℕ) (xs : List ℕ) → elem root (root ∷ xs) ≡ true
  unfolding elem
  elem-first root xs = ground arith

  elem-later :
      (root other : ℕ) (c : Bool) (xs : List ℕ)
      → elem root xs ≡ true
      → elem root (if c then other ∷ xs else xs) ≡ true
  unfolding elem
  elem-later root other true xs h = ground arith
  elem-later root other false xs h = h

  put-get : (uses : List (ℕ × ℕ)) (root index : ℕ) → get (put uses root index) root ≡ some index
  unfolding get
  put-get uses root index = rw (==_self root) refl

  if_true :
      (c : Bool) (root : ℕ) (xs : List ℕ)
      → c ≡ true
      → elem root (if c then root ∷ xs else xs) ≡ true
  if_true true root xs h = elem-first root xs
  if_true false root xs h = cc

  pub access_operand-Touched :
      (index : ℕ) (a : Access) (operand : CommandOperand) (a' : Access)
      → access_operand allocations roots index a operand ≡ ok a'
      → Touched index a' operand
  access_operand-Touched index a operand a' e root found =
      let s = access_operand-IsAccess index a operand a' e in
      let same : s.root ≡ root = ok-injective (sym s.found ∙ found) in
      subst
        (λ r.
          Lasts a'.last_use index r
          × (reads_value operand.access ≡ true → elem r a'.reads ≡ true)
          × (is_write operand.access ≡ true → elem r a'.writes ≡ true))
        same
        (
          (index, ap (λ l. get l s.root) s.last_use ∙ put-get a.last_use s.root index, omega arith),
          λ h. ap (elem s.root) s.reads ∙ if_true (reads_value operand.access) s.root a.reads h,
          λ h. ap (elem s.root) s.writes ∙ if_true (is_write operand.access) s.root a.writes h,
        )

  pub access_operand-keeps :
      (index : ℕ) (a : Access) (operand : CommandOperand) (a' : Access) (earlier : CommandOperand)
      → access_operand allocations roots index a operand ≡ ok a'
      → Touched index a earlier
      → Touched index a' earlier
  access_operand-keeps index a operand a' earlier e h root found =
      let s = access_operand-IsAccess index a operand a' e in
      let t = h root found in
      (
        subst (λ l. Lasts l index root) (sym s.last_use)
            (put-Lasts a.last_use index index root s.root (omega arith) t.0),
        λ r.
            ap (elem root) s.reads
            ∙ elem-later root s.root (reads_value operand.access) a.reads (t.1 r),
        λ w.
            ap (elem root) s.writes
            ∙ elem-later root s.root (is_write operand.access) a.writes (t.2 w),
      )

  -- A later command keeps what is known of the last use.
  pub access_operand-Lasts :
      (index later root : ℕ)
      → index ≤ later
      → (a : Access) (operand : CommandOperand) (a' : Access)
      → access_operand allocations roots later a operand ≡ ok a'
      → Lasts a.last_use index root
      → Lasts a'.last_use index root
  access_operand-Lasts index later root h a operand a' e t =
      let s = access_operand-IsAccess later a operand a' e in
      subst (λ l. Lasts l index root) (sym s.last_use)
        (put-Lasts a.last_use index later root s.root h t)

  -- The first writes belong to the roots that are written, at positions up to `index`.
  pub record IsConsistent (index : ℕ) (u : Uses) : Type 0 where
    pub early : (root n : ℕ) → get u.first_write root ≡ some n → n ≤ index
    pub written : (root : ℕ) → elem root u.written ≡ true → known (get u.first_write root) ≡ true

  -- One write more.
  pub record IsWrite (index : ℕ) (u : Uses) (root : ℕ) (u' : Uses) : Type 0 where
    pub written : u'.written ≡ root ∷ u.written
    pub first_write :
        u'.first_write
        ≡ (if known (get u.first_write root) then u.first_write else put u.first_write root index)
    pub last_use : u'.last_use ≡ u.last_use

  pub note_write-IsWrite :
      (index : ℕ) (u : Uses) (root : ℕ) (u' : Uses)
      → note_write allocations index u root ≡ ok u'
      → IsWrite index u root u'
  unfolding note_write
  note_write-IsWrite index u root u' e =
      >>=-then (or_key_error (allocation_of allocations root)) _ e λ a _ e1.
        >>=-then (raise_if (is_fixed_region a.region) _) _ e1 λ _ _ e2.
          >>=-then (raise_if (is_arena_region a.region && elem root u.written) _) _ e2 λ _ _ done.
            let same = sym (ok-injective done) in
            record {
              written = ap (λ (x : Uses). x.written) same;
              first_write = ap (λ (x : Uses). x.first_write) same;
              last_use = ap (λ (x : Uses). x.last_use) same;
            }

  -- The first write of each root, after one write more.
  get-first_write :
      (uses : List (ℕ × ℕ)) (index root other : ℕ)
      → get (if known (get uses root) then uses else put uses root index) other
        ≡ (if root == other && not (known (get uses root)) then some index else get uses other)
  unfolding get
  get-first_write uses index root other = elim (Bool-cases (known (get uses root))) [
    | inl t ↦ elim (Bool-cases (root == other)) [ inl s ↦ rw (t, s) refl | inr d ↦ rw (t, d) refl ]
    | inr n ↦ elim (Bool-cases (root == other)) [ inl s ↦ rw (n, s) refl | inr d ↦ rw (n, d) refl ]
  ]

  pub note_write-IsConsistent :
      (index : ℕ) (u : Uses) (root : ℕ) (u' : Uses)
      → note_write allocations index u root ≡ ok u'
      → IsConsistent index u
      → IsConsistent index u'
  unfolding elem
  note_write-IsConsistent index u root u' e c =
      let s = note_write-IsWrite index u root u' e in
      let reading = λ (other : ℕ).
        ap (λ l. get l other) s.first_write ∙ get-first_write u.first_write index root other in
      record {
        early = λ other n found. either root other n (sym (reading other) ∙ found);
        written = λ other m.
            subst (λ o. known o ≡ true) (sym (reading other))
              (covered root other (ap (elem other) (sym s.written) ∙ m));
      }
    where
      either :
          (root other n : ℕ)
          → (if root == other && not (known (get u.first_write root))
              then some index
              else get u.first_write other)
            ≡ some n
          → n ≤ index
      either root other n h =
          elim (Bool-cases (root == other && not (known (get u.first_write root)))) [
            | inl t ↦ let same = rw t at h in ground arith
            | inr f ↦ c.early other n (rw f at h)
          ]

      covered :
          (root other : ℕ)
          → (other == root || elem other u.written) ≡ true
          → known (
              if root == other && not (known (get u.first_write root))
              then some index
              else get u.first_write other)
            ≡ true
      covered root other h = elim (Bool-cases (root == other)) [
        | inl same ↦ elim (Bool-cases (known (get u.first_write root))) [
          | inl k ↦
              rw (same, k)
                (subst (λ r. known (get u.first_write r) ≡ true) ((==_iff root other).0 same) k)
          | inr n ↦ rw (same, n) refl
        ]
        | inr apart ↦ rw apart (c.written other (ground arith))
      ]

  pub note_write-Starts :
      (index later root : ℕ) (u : Uses) (other : ℕ) (u' : Uses)
      → note_write allocations later u other ≡ ok u'
      → Starts u.first_write index root
      → Starts u'.first_write index root
  note_write-Starts index later root u other u' e (n, found, h) =
      let s = note_write-IsWrite later u other u' e in
      (
        n,
        ap (λ l. get l root) s.first_write ∙ get-first_write u.first_write later other root ∙ kept,
        h,
      )
    where
      kept :
          (if other == root && not (known (get u.first_write other))
            then some later
            else get u.first_write root)
          ≡ some n
      kept = elim (Bool-cases (other == root)) [
        | inl same ↦
            let eq : other ≡ root = (==_iff other root).0 same in
            let there : known (get u.first_write other) ≡ true = rw (eq, found) refl in
            rw (same, there) found
        | inr apart ↦ rw apart found
      ]

  -- What is known of an operand of a command at the position `index`.
  abbrev pub Used : ℕ → Uses → CommandOperand → Type 0
  Used index u operand =
      (root : ℕ)
      → item roots operand.value_id ≡ ok root
      → Lasts u.last_use index root
        × ((a : ValueAllocation)
            → allocation_of allocations root ≡ some a
            → is_arena_region a.region ≡ true
            → Starts u.first_write index root)

  pub Consistent-Starts :
      (index : ℕ) (u : Uses) (root : ℕ)
      → IsConsistent index u
      → elem root u.written ≡ true
      → Starts u.first_write index root
  Consistent-Starts index u root c m = elim (Option-cases (get u.first_write root)) [
    | inl n ↦ absurd (let k = c.written root m in cc (rw n at k))
    | inr (n, found) ↦ (n, found, c.early root n found)
  ]

  -- The roots that are read were written before, where they lie in the arena.
  abbrev pub ReadsWritten : List ℕ → List ℕ → Type 0
  ReadsWritten written = All (λ root.
      (a : ValueAllocation)
      → allocation_of allocations root ≡ some a
      → is_arena_region a.region ≡ true
      → elem root written ≡ true)

  pub check_read-ReadsWritten :
      (written reads : List ℕ) {us : List (Unit {0})}
      → traverse (check_read allocations written) reads ≡ ok us
      → ReadsWritten written reads
  unfolding check_read
  check_read-ReadsWritten written reads e =
      traverse-All (check_read allocations written) _
        (λ root u h a allocated arena.
          >>=-then (or_key_error (allocation_of allocations root)) _ h λ b found passed.
            let same : a ≡ b =
              some-injective
                (sym allocated ∙ or_key_error-some (allocation_of allocations root) found) in
            tested (is_arena_region b.region) (elem root written)
              (subst (λ (x : ValueAllocation). is_arena_region x.region ≡ true) same arena)
              (raise_if-eq-ok _ _ passed))
        reads e
    where
      tested : (c d : Bool) → c ≡ true → (c && not d) ≡ false → d ≡ true
      tested true true h k = refl
      tested true false h k = cc
      tested false d h k = cc

  pub elem-All : (P : ℕ → Type 0) (root : ℕ) (xs : List ℕ) → All P xs → elem root xs ≡ true → P root
  unfolding elem
  elem-All P root [] h m = cc
  elem-All P root (x ∷ xs) h m = elim (Bool-cases (root == x)) [
    | inl same ↦ subst P (sym ((==_iff root x).0 same)) h.0
    | inr other ↦ elem-All P root xs h.1 (rw other at m)
  ]
