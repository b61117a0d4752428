-- ===== src/Memory/Liveness.antt =====
-- The last uses: every value that an operation reads, or the entry returns, is live until then.
use ag_infer.Prelude.{
  ℕ, ◌≤◌, ◌≡◌, refl, inl, inr, not, ◌||◌, Option, none, some, List, [], ◌∷◌, map, max, arith, ◌==◌,
  length, elem, ok, >>=-eq-ok, ok-injective, fold_result, All, All-imp, Option-cases, Bool-cases,
  String, subst, sym, ◌∙◌,
}
use ag_infer.Prelude.Loops.{fold_result-keeps, fold_result-All}
use ag_infer.Arena.{Pending, align}
use ag_infer.Prelude.{some-injective}
use ag_infer.Schedule.{ScheduledValue, ScheduledOp, ExecutionSchedule, item}
use ag_infer.Memory.{get, use_at, use_value, use_inputs, last_uses, request, present, is_temporary}
use native.Mathlib.Decide.{ℕ_discrete}

-- The root is used at `n` or later.
abbrev pub UsedUntil : List (ℕ × ℕ) → ℕ → ℕ → Type 0
UsedUntil uses root n = (last : ℕ) × (get uses root ≡ some last) × (n ≤ last)

use_at-keeps :
    (uses : List (ℕ × ℕ)) (root index r n : ℕ)
    → UsedUntil uses r n
    → UsedUntil (use_at uses root index) r n
unfolding use_at get
use_at-keeps uses root index r n (last, g, h) = elim (ℕ_discrete root r) [
  | yes e ↦ (max last index, ground arith, omega arith)
  | no e ↦ (last, ground arith, h)
]

use_at-enters :
    (uses : List (ℕ × ℕ)) (root index : ℕ) → UsedUntil (use_at uses root index) root index
unfolding use_at get
use_at-enters uses root index = elim (Option-cases (get uses root)) [
  | inl n ↦ (index, ground arith, omega arith)
  | inr (last, g) ↦ (max last index, ground arith, omega arith)
]

-- The value is used until `n`, if it has a root.
abbrev pub ValueUsed : List ℕ → List (ℕ × ℕ) → ℕ → ℕ → Type 0
ValueUsed roots uses n value = (root : ℕ) → item roots value ≡ ok root → UsedUntil uses root n

module _ (roots : List ℕ) where
  use_value-keeps :
      (index : ℕ) (uses : List (ℕ × ℕ)) (v : ℕ) (uses' : List (ℕ × ℕ)) (n w : ℕ)
      → use_value roots index uses v ≡ ok uses'
      → ValueUsed roots uses n w
      → ValueUsed roots uses' n w
  unfolding use_value
  use_value-keeps index uses v uses' n w e h = λ r g.
      let (root, found, done) = >>=-eq-ok (item roots v) _ e in
      subst (λ u. UsedUntil u r n) (ok-injective done) (use_at-keeps uses root index r n (h r g))

  use_value-enters :
      (index : ℕ) (uses : List (ℕ × ℕ)) (v : ℕ) (uses' : List (ℕ × ℕ))
      → use_value roots index uses v ≡ ok uses'
      → ValueUsed roots uses' index v
  unfolding use_value
  use_value-enters index uses v uses' e = λ r g.
      let (root, found, done) = >>=-eq-ok (item roots v) _ e in
      let same : root ≡ r = ok-injective (sym found ∙ g) in
      subst (λ u. UsedUntil u r index) (ok-injective done)
        (rw (← same) (use_at-enters uses root index))

  use_inputs-keeps :
      (uses : List (ℕ × ℕ)) (op : ScheduledOp) (uses' : List (ℕ × ℕ)) (n w : ℕ)
      → use_inputs roots uses op ≡ ok uses'
      → ValueUsed roots uses n w
      → ValueUsed roots uses' n w
  unfolding use_inputs
  use_inputs-keeps uses op uses' n w e =
      fold_result-keeps (use_value roots op.execution_index) (λ u. ValueUsed roots u n w)
        (λ u v u' h. use_value-keeps op.execution_index u v u' n w h) uses op.inputs e

  -- The operands of an operation are used until its index.
  abbrev OpUsed : List (ℕ × ℕ) → ScheduledOp → Type 0
  OpUsed uses op = All (ValueUsed roots uses op.execution_index) op.inputs

  use_inputs-enters :
      (uses : List (ℕ × ℕ)) (op : ScheduledOp) (uses' : List (ℕ × ℕ))
      → use_inputs roots uses op ≡ ok uses'
      → OpUsed uses' op
  unfolding use_inputs
  use_inputs-enters uses op uses' e =
      let at = op.execution_index in
      fold_result-All (use_value roots at) (λ s v. ValueUsed roots s at v)
        (λ s v s' g. use_value-enters at s v s' g) (λ s v s' w g. use_value-keeps at s v s' at w g)
        uses op.inputs e

  pub last_uses-used :
      (schedule : ExecutionSchedule) {uses : List (ℕ × ℕ)}
      → last_uses schedule roots ≡ ok uses
      → All (λ op. All (ValueUsed roots uses op.execution_index) op.inputs) schedule.ops
        × All (ValueUsed roots uses (length schedule.ops)) (map (λ r. r.1) schedule.entry_outputs)
  unfolding last_uses
  last_uses-used schedule {uses} e =
      let (inner, ran, returned) = >>=-eq-ok (fold_result (use_inputs roots) [] schedule.ops) _ e in
      let last = length schedule.ops in
      let outputs = map (λ (r : String × ℕ). r.1) schedule.entry_outputs in
      let keep_outputs = λ (n w : ℕ).
        fold_result-keeps (use_value roots last) (λ u. ValueUsed roots u n w)
          (λ u v u' h. use_value-keeps last u v u' n w h) inner outputs returned in
      (
        All-imp (OpUsed inner) (OpUsed uses) schedule.ops
            (λ op. All-imp _ _ op.inputs (λ v. keep_outputs op.execution_index v))
            (fold_result-All (use_inputs roots) OpUsed (λ u op u' h. use_inputs-enters u op u' h)
              (λ u op u' other h.
                All-imp _ _ other.inputs (λ v. use_inputs-keeps u op u' other.execution_index v h))
              [] schedule.ops ran),
        fold_result-All (use_value roots last) (λ s v. ValueUsed roots s last v)
            (λ s v s' g. use_value-enters last s v s' g)
            (λ s v s' w g. use_value-keeps last s v s' last w g) inner outputs returned,
      )

-- A request that lasts as long as its value is used.
abbrev pub Lasts : List (ℕ × ℕ) → ℕ → ℕ → Type 0
Lasts uses value end = (n : ℕ) → UsedUntil uses value n → n ≤ end

-- What a request says of its value: it starts with the operation that makes the value and lasts to
-- its last use, and its size is that of the value, aligned.
pub record Requested (alignment : ℕ) (byte_sizes : List ℕ) (uses : List (ℕ × ℕ))
    (value : ScheduledValue) (p : Pending) : Type 0 where
  pub names : p.value_id ≡ value.value_id
  pub starts : value.producer ≡ some p.start
  pub lasts : Lasts uses p.value_id p.end
  pub ordered : p.start ≤ p.end
  pub bytes : ℕ
  pub sized : item byte_sizes value.value_id ≡ ok bytes
  pub lined : align bytes alignment ≡ ok p.bytes

request_from :
    (alignment : ℕ) (byte_sizes : List ℕ) (uses : List (ℕ × ℕ)) (value : ScheduledValue)
    (producer bytes size : ℕ)
    → value.producer ≡ some producer
    → item byte_sizes value.value_id ≡ ok bytes
    → align bytes alignment ≡ ok size
    → Requested alignment byte_sizes uses value (record {
      start = producer;
      value_id = value.value_id;
      end = max producer (elim (get uses value.value_id) [ none ↦ producer | some last ↦ last ]);
      bytes = size;
    })
request_from alignment byte_sizes uses value producer bytes size made sized lined = record {
  names = refl;
  starts = made;
  lasts = λ n (last, g, h). rw g (omega arith);
  ordered = omega arith;
  bytes = bytes;
  sized = sized;
  lined = lined;
}

pub request-Requested :
    (alignment : ℕ) (byte_sizes roots : List ℕ) (uses : List (ℕ × ℕ)) (materialized : List ℕ)
    (value : ScheduledValue) (p : Pending)
    → request alignment byte_sizes roots uses materialized value ≡ ok (some p)
    → Requested alignment byte_sizes uses value p
unfolding request
request-Requested alignment byte_sizes roots uses materialized value p e =
    let (root, found, more) = >>=-eq-ok (item roots value.value_id) _ e in
    elim (Bool-cases (
      not (root == value.value_id)
      || not (is_temporary value.storage)
      || elem value.value_id materialized)) [
        | inl t ↦ absurd (let none_here = rw t at more in cc)
        | inr f ↦ elim (Option-cases value.producer) [
          | inl n ↦ absurd (let none_here = rw (f, n) at more in cc)
          | inr (producer, made) ↦
              let body = rw (f, made) at more in
              let (bytes, sized, rest) = >>=-eq-ok (item byte_sizes value.value_id) _ body in
              let (size, lined, done) = >>=-eq-ok (align bytes alignment) _ rest in
              subst (Requested alignment byte_sizes uses value) (some-injective (ok-injective done))
                (request_from alignment byte_sizes uses value producer bytes size made sized lined)
        ]
      ]

pub present-All :
    (P : Pending → Type 0) (ps : List (Option Pending))
    → All (λ o. (p : Pending) → o ≡ some p → P p) ps
    → All P (present ps)
unfolding present
present-All P [] h = tt
present-All P (none ∷ rest) h = present-All P rest h.1
present-All P (some p ∷ rest) h = (h.0 p refl, present-All P rest h.1)
