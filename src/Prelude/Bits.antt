-- ===== src/Prelude/Bits.antt =====
-- `&` at variables: its recursion on the lowest bit, masks of ones, and the test `a & (a - 1)`.
use Prim.Native.Nat.{
  ℕ, zero, suc, ◌+◌, ◌*◌, ◌-◌, ◌/◌, ◌%◌, ◌^◌, ◌≤◌, ◌<◌, min, bit_and, digits, bit_and-bitwise,
}
use mathlib.Core.Path.{◌≡◌, refl, ap, ◌∙◌}
use native.Mathlib.Omega.{arith}
use native.Mathlib.Nat.{div-add-mod, mod-lt, mod-eq_of_lt, add-mul-mod_self_right, pow-suc}
use native.Mathlib.Decide.{ℕ_discrete}

-- The digits that `&` stands for, with the number of rounds as an argument.
abbrev common_bits : ℕ → ℕ → ℕ → ℕ
common_bits n a b = digits (λ _. zero) min n a b

-- More rounds than the first number has bits change nothing.
common_bits-fuel : (n m a b : ℕ) → a ≤ n → a ≤ m → common_bits n a b ≡ common_bits m a b
common_bits-fuel zero zero a b p q = refl
common_bits-fuel zero (suc m) zero b p q = refl
common_bits-fuel zero (suc m) (suc a) b p q = absurd (omega arith)
common_bits-fuel (suc n) zero zero b p q = refl
common_bits-fuel (suc n) zero (suc a) b p q = absurd (omega arith)
common_bits-fuel (suc n) (suc m) zero b p q = refl
common_bits-fuel (suc n) (suc m) (suc a) b p q =
    let half = common_bits-fuel n m (suc a / 2) (b / 2) (omega arith) (omega arith) in omega arith

zero_and : (b : ℕ) → bit_and 0 b ≡ 0
zero_and b = bit_and-bitwise 0 b

pub bit_and_halves : (a b : ℕ) → bit_and a b ≡ bit_and (a / 2) (b / 2) * 2 + min (a % 2) (b % 2)
bit_and_halves zero b = omega (arith, zero_and b, zero_and (b / 2))
bit_and_halves (suc a) b =
    let enough = common_bits-fuel a (suc a / 2) (suc a / 2) (b / 2) (omega arith) (omega arith) in
    omega (arith, bit_and-bitwise (suc a) b, bit_and-bitwise (suc a / 2) (b / 2), enough)

-- Induction on the bits of a number, `n` bounding it.
and_zero_below : (n a : ℕ) → a ≤ n → bit_and a 0 ≡ 0
and_zero_below n zero h = zero_and 0
and_zero_below zero (suc a) h = absurd (omega arith)
and_zero_below (suc n) (suc a) h =
    omega (arith, bit_and_halves (suc a) 0, and_zero_below n (suc a / 2) (omega arith))

pub bit_and-zero : (a : ℕ) → bit_and a 0 ≡ 0
bit_and-zero a = and_zero_below a a (omega arith)

and_self_below : (n a : ℕ) → a ≤ n → bit_and a a ≡ a
and_self_below n zero h = zero_and 0
and_self_below zero (suc a) h = absurd (omega arith)
and_self_below (suc n) (suc a) h =
    omega (arith, bit_and_halves (suc a) (suc a), and_self_below n (suc a / 2) (omega arith))

pub bit_and_self : (a : ℕ) → bit_and a a ≡ a
bit_and_self a = and_self_below a a (omega arith)

pub pow_pos : (k : ℕ) → 0 < 2 ^ k
pow_pos zero = omega arith
pow_pos (suc k) = omega (arith, pow_pos k, pow-suc 2 k)

-- The remainder by `2 * m`, from the remainder of the half by `m`.
mod_double : (a m : ℕ) → 0 < m → a % (m * 2) ≡ a / 2 % m * 2 + a % 2
mod_double a m h =
    let r : ℕ = a / 2 % m * 2 + a % 2 in
    let small : r < m * 2 = omega (arith, mod-lt (a / 2) h) in
    let split : a ≡ r + a / 2 / m * (m * 2) = omega (arith, div-add-mod (a / 2) m) in
    ap (λ (t : ℕ). t % (m * 2)) split
    ∙ add-mul-mod_self_right r (a / 2 / m) (m * 2)
    ∙ mod-eq_of_lt small

pub bit_and_mask : (k a : ℕ) → bit_and a (2 ^ k - 1) ≡ a % 2 ^ k
bit_and_mask zero a = omega (arith, bit_and-zero a)
bit_and_mask (suc k) a =
    let half : (2 ^ suc k - 1) / 2 ≡ 2 ^ k - 1 = omega (arith, pow_pos k, pow-suc 2 k) in
    let odd : (2 ^ suc k - 1) % 2 ≡ 1 = omega (arith, pow_pos k, pow-suc 2 k) in
    bit_and_halves a (2 ^ suc k - 1)
    ∙ rw (half, odd, bit_and_mask k (a / 2), pow-suc)
        (omega (arith, mod_double a (2 ^ k) (pow_pos k)))

-- A positive number with `a & (a - 1) = 0` is a power of two.
power_below : (n a : ℕ) → a ≤ n → 0 < a → bit_and a (a - 1) ≡ 0 → (k : ℕ) × (a ≡ 2 ^ k)
power_below zero a h p e = absurd (omega arith)
power_below (suc n) a h p e = elim (ℕ_discrete (a % 2) 0) [
  | yes even ↦
      let half : (a - 1) / 2 ≡ a / 2 - 1 = omega arith in
      let step = rw half at (bit_and_halves a (a - 1)) in
      let (k, q) = power_below n (a / 2) (omega arith) (omega arith) (omega arith) in
      (suc k, omega (arith, pow-suc 2 k))
  | no odd ↦
      let half : (a - 1) / 2 ≡ a / 2 = omega arith in
      let step = rw half at (bit_and_halves a (a - 1)) in (0, omega (arith, bit_and_self (a / 2)))
]

pub power_of_two : (a : ℕ) → 0 < a → bit_and a (a - 1) ≡ 0 → (k : ℕ) × (a ≡ 2 ^ k)
power_of_two a p e = power_below a a (omega arith) p e
