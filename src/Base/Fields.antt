-- ===== src/Base/Fields.antt =====
-- Fields of a word: `field j k x` is the `k` digits of `x` from digit `j` on.
use Prim.Native.Nat.{ℕ, zero, suc, ◌+◌, ◌*◌, ◌/◌, ◌%◌, ◌^◌, bit_and, bit_or, max}
use mathlib.Core.Path.{◌≡◌, refl, ◌∙◌}
use native.Mathlib.Nat.{pow-suc, div-div-eq-div-mul, mul_comm}
use native.Mathlib.Omega.{arith}
use kthxvm.Base.Step.{bit_and_step, bit_or_step}
use kthxvm.Base.Bits.{mod-bit_and, digits_of_mod}

abbrev pub field : ℕ → ℕ → ℕ → ℕ
field j k x = x / 2 ^ j % 2 ^ k

half_power : (j a : ℕ) → a / 2 ^ suc j ≡ a / 2 / 2 ^ j
half_power j a = rw (div-div-eq-div-mul, pow-suc 2 j, mul_comm 2 (2 ^ j)) refl

pub div-bit_and : (j a b : ℕ) → bit_and a b / 2 ^ j ≡ bit_and (a / 2 ^ j) (b / 2 ^ j)
div-bit_and zero a b =
    let none : (x : ℕ) → x / 2 ^ 0 ≡ x = λ x. omega arith in
    none (bit_and a b) ∙ rw (none a, none b)
div-bit_and (suc j) a b =
    let top : bit_and a b / 2 ≡ bit_and (a / 2) (b / 2) = omega (arith, bit_and_step a b) in
    rw (half_power j (bit_and a b), half_power j a, half_power j b, top)
      (div-bit_and j (a / 2) (b / 2))

pub div-bit_or : (j a b : ℕ) → bit_or a b / 2 ^ j ≡ bit_or (a / 2 ^ j) (b / 2 ^ j)
div-bit_or zero a b =
    let none : (x : ℕ) → x / 2 ^ 0 ≡ x = λ x. omega arith in none (bit_or a b) ∙ rw (none a, none b)
div-bit_or (suc j) a b =
    let top : bit_or a b / 2 ≡ bit_or (a / 2) (b / 2) = omega (arith, bit_or_step a b) in
    rw (half_power j (bit_or a b), half_power j a, half_power j b, top)
      (div-bit_or j (a / 2) (b / 2))

pub mod-bit_or : (k a b : ℕ) → bit_or a b % 2 ^ k ≡ bit_or (a % 2 ^ k) (b % 2 ^ k)
mod-bit_or zero a b =
    let none_a : a % 2 ^ 0 ≡ 0 = omega arith in
    let none_b : b % 2 ^ 0 ≡ 0 = omega arith in rw (none_a, none_b) (omega arith)
mod-bit_or (suc k) a b =
    let low = a % 2 ^ suc k in
    let low' = b % 2 ^ suc k in
    let half : low / 2 ≡ a / 2 % 2 ^ k = omega (arith, digits_of_mod k a) in
    let half' : low' / 2 ≡ b / 2 % 2 ^ k = omega (arith, digits_of_mod k b) in
    let step : bit_or low low'
        ≡ max (low % 2) (low' % 2) + 2 * bit_or (a / 2 % 2 ^ k) (b / 2 % 2 ^ k) =
      bit_or_step low low' ∙ rw (half, half') refl in
    let top : bit_or a b / 2 ≡ bit_or (a / 2) (b / 2) = omega (arith, bit_or_step a b) in
    let top' : bit_or a b / 2 % 2 ^ k ≡ bit_or (a / 2 % 2 ^ k) (b / 2 % 2 ^ k) =
      rw top (mod-bit_or k (a / 2) (b / 2)) in
    omega (
      arith,
      digits_of_mod k (bit_or a b),
      digits_of_mod k a,
      digits_of_mod k b,
      bit_or_step a b,
      step,
      top',
    )

pub field-bit_and : (j k a b : ℕ) → field j k (bit_and a b) ≡ bit_and (field j k a) (field j k b)
field-bit_and j k a b = rw (div-bit_and j a b) (mod-bit_and k (a / 2 ^ j) (b / 2 ^ j))

pub field-bit_or : (j k a b : ℕ) → field j k (bit_or a b) ≡ bit_or (field j k a) (field j k b)
field-bit_or j k a b = rw (div-bit_or j a b) (mod-bit_or k (a / 2 ^ j) (b / 2 ^ j))
