-- ===== src/Arena/Align.antt =====
-- What `_align` computes where the alignment is a power of two.
use ag_infer.Prelude.{
  ℕ, suc, ◌+◌, ◌-◌, ◌*◌, ◌/◌, ◌%◌, ◌^◌, ◌≤◌, ◌<◌, ◌≡◌, ok, arith, ge→ltb, bit_and,
}
use ag_infer.Prelude.Bits.{bit_and_mask, pow_pos}
use ag_infer.Arena.{uint64_max, align}
use native.Mathlib.Nat.{div-add-mod, mod-lt, mul-mod_left, mul_comm, mul-le-mul_left}
use native.Mathlib.Decide.{dec_lt}

align_clears :
    (value k : ℕ) {r : ℕ}
    → align value (2 ^ k) ≡ ok r
    → r ≡ value + 2 ^ k - 1 - (value + 2 ^ k - 1) % 2 ^ k
unfolding align
align_clears value k e = ground (arith, bit_and_mask k (value + 2 ^ k - 1))

-- The result is the least multiple of the alignment that is not below `value`.
pub align_bounds :
    (value k : ℕ) {r : ℕ}
    → align value (2 ^ k) ≡ ok r
    → (value ≤ r) × (r < value + 2 ^ k) × (r % 2 ^ k ≡ 0)
align_bounds value k {r} e =
    let top = value + 2 ^ k - 1 in
    let cleared : r ≡ top - top % 2 ^ k = align_clears value k e in
    let small : top % 2 ^ k < 2 ^ k = mod-lt top (pow_pos k) in
    let whole : r ≡ 2 ^ k * (top / 2 ^ k) = omega (arith, div-add-mod top (2 ^ k)) in
    (omega arith, omega (arith, pow_pos k), rw whole (rw mul_comm (mul-mod_left _ _)))

-- `_align` succeeds exactly where the rounding cannot pass uint64.
pub align_total : (value k : ℕ) → value + 2 ^ k ≤ 2 ^ 64 → (r : ℕ) × (align value (2 ^ k) ≡ ok r)
unfolding align
align_total value k h =
    let top = value + 2 ^ k - 1 in
    let fits : value + (2 ^ k - 1) ≤ uint64_max = omega (arith, pow_pos k) in
    (top - bit_and top (2 ^ k - 1), rw (ge→ltb uint64_max (value + (2 ^ k - 1)) fits))

-- Two multiples less than `m` apart are one.
multiples_close : (m a b : ℕ) → m * a ≤ m * b → m * b < m * a + m → m * b ≡ m * a
multiples_close m a b lo hi = elim (dec_lt a b) [
  | yes h ↦ let far : m * suc a ≤ m * b = mul-le-mul_left m h in absurd (omega arith)
  | no h ↦ let near : m * b ≤ m * a = mul-le-mul_left m (omega arith) in omega arith
]

-- An aligned value stays.
pub align_aligned :
    (value k : ℕ) {r : ℕ} → align value (2 ^ k) ≡ ok r → value % 2 ^ k ≡ 0 → r ≡ value
align_aligned value k {r} e h =
    let (lo, hi, whole) = align_bounds value k e in
    let a : value ≡ 2 ^ k * (value / 2 ^ k) = omega (arith, div-add-mod value (2 ^ k)) in
    let b : r ≡ 2 ^ k * (r / 2 ^ k) = omega (arith, div-add-mod r (2 ^ k)) in
    let same = multiples_close (2 ^ k) (value / 2 ^ k) (r / 2 ^ k) (omega arith) (omega arith) in
    omega arith
