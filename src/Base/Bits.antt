-- ===== src/Base/Bits.antt =====
-- `&` and `|` at variables: by single binary digits, at a low mask, and of disjoint fields.
use Prim.Native.Nat.{
  ℕ, zero, suc, ◌+◌, ◌-◌, ◌*◌, ◌/◌, ◌%◌, ◌^◌, ◌≤◌, ◌<◌, bit_and, bit_or, min, max,
}
use mathlib.Core.Path.{◌≡◌, refl, sym, ap, ◌∙◌}
use mathlib.Core.Bool.{Bool, true, ◌&&◌}
use native.Mathlib.Nat.{
  pow-suc, one-le-pow, mod-lt, mod-eq_of_lt, div-add-mod, add-mul-mod_self_left, div-div-eq-div-mul,
  mul_comm,
}
use native.Mathlib.Omega.{arith}
use native.Mathlib.Decide.{dec_lt}
use kthxvm.Base.Step.{bit_and_step, bit_or_step}

-- Digit `k` of `a`.
abbrev pub bit_at : ℕ → ℕ → ℕ
bit_at zero a = a % 2
bit_at (suc k) a = bit_at k (a / 2)

pub bit_at-bit_and : (k a b : ℕ) → bit_at k (bit_and a b) ≡ min (bit_at k a) (bit_at k b)
bit_at-bit_and zero a b = omega (arith, bit_and_step a b)
bit_at-bit_and (suc k) a b =
    let half : bit_and a b / 2 ≡ bit_and (a / 2) (b / 2) = omega (arith, bit_and_step a b) in
    rw half (bit_at-bit_and k (a / 2) (b / 2))

pub bit_at-bit_or : (k a b : ℕ) → bit_at k (bit_or a b) ≡ max (bit_at k a) (bit_at k b)
bit_at-bit_or zero a b = omega (arith, bit_or_step a b)
bit_at-bit_or (suc k) a b =
    let half : bit_or a b / 2 ≡ bit_or (a / 2) (b / 2) = omega (arith, bit_or_step a b) in
    rw half (bit_at-bit_or k (a / 2) (b / 2))

bit_and-zero_below : (n a : ℕ) → a ≤ n → bit_and a 0 ≡ 0
bit_and-zero_below zero zero h = refl
bit_and-zero_below zero (suc a) h = absurd (omega arith)
bit_and-zero_below (suc n) zero h = refl
bit_and-zero_below (suc n) (suc a) h =
    omega (arith, bit_and_step (suc a) 0, bit_and-zero_below n (suc a / 2) (omega arith))

pub bit_and-zero : (a : ℕ) → bit_and a 0 ≡ 0
bit_and-zero a = bit_and-zero_below a a (omega arith)

pub zero-bit_and : (a : ℕ) → bit_and 0 a ≡ 0
zero-bit_and a = zero_below a a (omega arith)
  where
    zero_below : (n b : ℕ) → b ≤ n → bit_and 0 b ≡ 0
    zero_below n zero h = refl
    zero_below zero (suc b) h = absurd (omega arith)
    zero_below (suc n) (suc b) h =
        omega (arith, bit_and_step 0 (suc b), zero_below n (suc b / 2) (omega arith))

bit_or-zero_below : (n a : ℕ) → a ≤ n → bit_or a 0 ≡ a
bit_or-zero_below zero zero h = refl
bit_or-zero_below zero (suc a) h = absurd (omega arith)
bit_or-zero_below (suc n) zero h = refl
bit_or-zero_below (suc n) (suc a) h =
    omega (arith, bit_or_step (suc a) 0, bit_or-zero_below n (suc a / 2) (omega arith))

pub bit_or-zero : (a : ℕ) → bit_or a 0 ≡ a
bit_or-zero a = bit_or-zero_below a a (omega arith)

pub zero-bit_or : (a : ℕ) → bit_or 0 a ≡ a
zero-bit_or a = zero_below a a (omega arith)
  where
    zero_below : (n b : ℕ) → b ≤ n → bit_or 0 b ≡ b
    zero_below n zero h = refl
    zero_below zero (suc b) h = absurd (omega arith)
    zero_below (suc n) (suc b) h =
        omega (arith, bit_or_step 0 (suc b), zero_below n (suc b / 2) (omega arith))

bit_or_comm_below : (n a b : ℕ) → a ≤ n → bit_or a b ≡ bit_or b a
bit_or_comm_below zero zero b h = zero-bit_or b ∙ sym (bit_or-zero b)
bit_or_comm_below zero (suc a) b h = absurd (omega arith)
bit_or_comm_below (suc n) zero b h = zero-bit_or b ∙ sym (bit_or-zero b)
bit_or_comm_below (suc n) (suc a) b h = omega (
  arith,
  bit_or_step (suc a) b,
  bit_or_step b (suc a),
  bit_or_comm_below n (suc a / 2) (b / 2) (omega arith),
)

pub bit_or_comm : (a b : ℕ) → bit_or a b ≡ bit_or b a
bit_or_comm a b = bit_or_comm_below a a b (omega arith)

shifted-suc : (m j : ℕ) → m * 2 ^ suc j ≡ m * 2 ^ j * 2
shifted-suc m j = let once = pow-suc 2 j in rw once (omega arith)

-- A high field joined to a low one is their sum.
pub bit_or-fields : (w hi lo : ℕ) → lo < 2 ^ w → bit_or (hi * 2 ^ w) lo ≡ hi * 2 ^ w + lo
bit_or-fields zero hi lo h = ground (arith, bit_or-zero hi)
bit_or-fields (suc w) hi lo h =
    let twice : 2 ^ suc w ≡ 2 ^ w * 2 = omega (arith, pow-suc 2 w) in
    let rest = bit_or-fields w hi (lo / 2) (omega arith) in
    ground (arith, twice, rest, bit_or_step (hi * 2 ^ suc w) lo, shifted-suc hi w)

mod_double : (p a : ℕ) → 0 < p → a % (2 * p) ≡ a / 2 % p * 2 + a % 2
mod_double p a h =
    let q = a / 2 / p in
    let s = a / 2 % p in
    let small : s * 2 + a % 2 < 2 * p = omega (arith, mod-lt (a / 2) h) in
    let split : a ≡ s * 2 + a % 2 + 2 * p * q = omega (arith, div-add-mod (a / 2) p) in
    ap (λ (t : ℕ). t % (2 * p)) split
    ∙ add-mul-mod_self_left (s * 2 + a % 2) (2 * p) q
    ∙ mod-eq_of_lt small

pub digits_of_mod : (k a : ℕ) → a % 2 ^ suc k ≡ a / 2 % 2 ^ k * 2 + a % 2
digits_of_mod k a =
    let double : 2 ^ suc k ≡ 2 * 2 ^ k = omega (arith, pow-suc 2 k) in
    rw double (mod_double (2 ^ k) a (omega (arith, one-le-pow k 2)))

-- A mask of `k` low digits is the remainder by `2 ^ k`.
pub bit_and-low : (k a : ℕ) → bit_and a (2 ^ k - 1) ≡ a % 2 ^ k
bit_and-low zero a = rw bit_and-zero (omega arith)
bit_and-low (suc k) a =
    let mask : (2 ^ suc k - 1) / 2 ≡ 2 ^ k - 1 = omega (arith, pow-suc 2 k, one-le-pow k 2) in
    let rest : bit_and (a / 2) ((2 ^ suc k - 1) / 2) ≡ a / 2 % 2 ^ k =
      rw mask (bit_and-low k (a / 2)) in
    ground
      (arith, rest, bit_and_step a (2 ^ suc k - 1), pow-suc 2 k, one-le-pow k 2, digits_of_mod k a)

-- A field of `k` digits from digit `j` on, cut out of a number.
pub bit_and-field : (j k a : ℕ) → bit_and a ((2 ^ k - 1) * 2 ^ j) ≡ a / 2 ^ j % 2 ^ k * 2 ^ j
bit_and-field zero k a = ground (arith, bit_and-low k a)
bit_and-field (suc j) k a =
    let m = 2 ^ k - 1 in
    let ih : bit_and (a / 2) (m * 2 ^ j) ≡ a / 2 / 2 ^ j % 2 ^ k * 2 ^ j =
      bit_and-field j k (a / 2) in
    let halves : a / 2 / 2 ^ j ≡ a / 2 ^ suc j =
      rw (div-div-eq-div-mul, pow-suc 2 j, mul_comm 2 (2 ^ j)) refl in
    let field = a / 2 ^ suc j % 2 ^ k in
    let ih' : bit_and (a / 2) (m * 2 ^ j) ≡ field * 2 ^ j = rw (← halves) ih in
    let even : m * 2 ^ suc j / 2 ≡ m * 2 ^ j = omega (arith, shifted-suc m j) in
    let ih'' : bit_and (a / 2) (m * 2 ^ suc j / 2) ≡ field * 2 ^ j = rw even ih' in
    omega (arith, bit_and_step a (m * 2 ^ suc j), ih'', shifted-suc m j, shifted-suc field j)

-- The low digits of a conjunction are the conjunction of the low digits.
pub mod-bit_and : (k a b : ℕ) → bit_and a b % 2 ^ k ≡ bit_and (a % 2 ^ k) (b % 2 ^ k)
mod-bit_and zero a b =
    let none_a : a % 2 ^ 0 ≡ 0 = omega arith in
    let none_b : b % 2 ^ 0 ≡ 0 = omega arith in rw (none_a, none_b) (omega arith)
mod-bit_and (suc k) a b =
    let ih = mod-bit_and k (a / 2) (b / 2) in
    let low = a % 2 ^ suc k in
    let low' = b % 2 ^ suc k in
    let half : low / 2 ≡ a / 2 % 2 ^ k = omega (arith, digits_of_mod k a) in
    let half' : low' / 2 ≡ b / 2 % 2 ^ k = omega (arith, digits_of_mod k b) in
    let step : bit_and low low'
        ≡ min (low % 2) (low' % 2) + 2 * bit_and (a / 2 % 2 ^ k) (b / 2 % 2 ^ k) =
      bit_and_step low low' ∙ rw (half, half') refl in
    let top : bit_and a b / 2 ≡ bit_and (a / 2) (b / 2) = omega (arith, bit_and_step a b) in
    let top' : bit_and a b / 2 % 2 ^ k ≡ bit_and (a / 2 % 2 ^ k) (b / 2 % 2 ^ k) = rw top ih in
    omega (
      arith,
      digits_of_mod k (bit_and a b),
      digits_of_mod k a,
      digits_of_mod k b,
      bit_and_step a b,
      step,
      top',
    )

pub bit_at_bound : (k a : ℕ) → bit_at k a ≤ 1
bit_at_bound zero a = omega arith
bit_at_bound (suc k) a = bit_at_bound k (a / 2)

-- A test of each digit of a word, by evaluation.
abbrev pub each_digit : (ℕ → Bool) → ℕ → Bool
each_digit test zero = true
each_digit test (suc w) = each_digit test w && test w

pub each_digit_lem :
    (test : ℕ → Bool) (w : ℕ) {k : ℕ} → k < w → each_digit test w ≡ true → test k ≡ true
each_digit_lem test zero less h = absurd (omega arith)
each_digit_lem test (suc w) {k} less h = elim (dec_lt k w) [
  | yes before ↦ each_digit_lem test w before (ground arith)
  | no last ↦ let same : k ≡ w = omega arith in rw same (ground arith)
]
