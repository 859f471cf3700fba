-- ===== src/Base/Step.antt =====
-- The native bit operations, one binary digit at a time.
use Prim.Native.Nat.{ℕ, zero, suc, ◌+◌, ◌*◌, ◌/◌, ◌%◌, ◌≤◌, bit_and, bit_or}
use Prim.Native.Nat.{min, max, digits, bitwise, bit_and-bitwise, bit_or-bitwise}
use mathlib.Core.Path.{◌≡◌, refl, ◌∙◌}
use native.Mathlib.Decide.{dec_le}
use native.Mathlib.Omega.{arith}

module _ (z : ℕ → ℕ) (f : ℕ → ℕ → ℕ) where
  digits-suc : (n a b : ℕ) → a ≤ n → digits z f (suc n) a b ≡ digits z f n a b
  digits-suc zero a b le = let none : a ≡ 0 = omega arith in rw none refl
  digits-suc (suc n) zero b le = refl
  digits-suc (suc n) (suc a) b le = rw (digits-suc n (suc a / 2) (b / 2) (omega arith))

  -- Fuel beyond the first operand changes nothing.
  digits_exact : (n a b : ℕ) → a ≤ n → digits z f n a b ≡ digits z f a a b
  digits_exact zero a b le = let none : a ≡ 0 = omega arith in rw none refl
  digits_exact (suc n) a b le = elim (dec_le a n) [
    | yes less ↦ digits-suc n a b less ∙ digits_exact n a b less
    | no all ↦ let last : a ≡ suc n = omega arith in rw last refl
  ]

  bitwise_digit :
      (x y : ℕ)
      → bitwise z f (suc x) y ≡ f (suc x % 2) (y % 2) + 2 * bitwise z f (suc x / 2) (y / 2)
  bitwise_digit x y = omega (arith, digits_exact x (suc x / 2) (y / 2) (omega arith))

pub bit_and_step : (x y : ℕ) → bit_and x y ≡ min (x % 2) (y % 2) + 2 * bit_and (x / 2) (y / 2)
bit_and_step zero y = simp bit_and-bitwise (omega arith)
bit_and_step (suc n) y = simp bit_and-bitwise (bitwise_digit (λ d. 0) min n y)

pub bit_or_step : (x y : ℕ) → bit_or x y ≡ max (x % 2) (y % 2) + 2 * bit_or (x / 2) (y / 2)
bit_or_step zero y = simp bit_or-bitwise (omega arith)
bit_or_step (suc n) y = simp bit_or-bitwise (bitwise_digit (λ d. d) max n y)
