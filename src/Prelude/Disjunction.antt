-- ===== src/Prelude/Disjunction.antt =====
-- `x | y`, digit by digit.
use Prim.Native.Nat.{ℕ, zero, suc, ◌+◌, ◌-◌, ◌*◌, ◌/◌, ◌%◌, ◌^◌, ◌≤◌, ◌<◌, max, bit_or, digits}
use Prim.Native.Nat.{bit_or-bitwise}
use mathlib.Core.Path.{◌≡◌, refl, ◌∙◌}
use native.Mathlib.Omega.{arith}
use native.Mathlib.Nat.{div-div-eq-div-mul, pow-suc, one-le-pow}

-- The recursion that the native operation stands for, on `n` rounds of fuel.
abbrev disj : ℕ → ℕ → ℕ → ℕ
disj n a b = digits (λ y. y) max n a b

-- More fuel than the value of the first operand changes nothing.
disj_enough : (n m a b : ℕ) → a ≤ n → a ≤ m → disj n a b ≡ disj m a b
disj_enough zero zero a b p q = refl
disj_enough zero (suc m) zero b p q = refl
disj_enough zero (suc m) (suc a) b p q = absurd (omega arith)
disj_enough (suc n) zero zero b p q = refl
disj_enough (suc n) zero (suc a) b p q = absurd (omega arith)
disj_enough (suc n) (suc m) zero b p q = refl
disj_enough (suc n) (suc m) (suc a) b p q =
    omega (arith, disj_enough n m (suc a / 2) (b / 2) (omega arith) (omega arith))

zero-bit_or : (b : ℕ) → bit_or 0 b ≡ b
zero-bit_or b = bit_or-bitwise 0 b

pub bit_or_halves : (a b : ℕ) → bit_or a b ≡ 2 * bit_or (a / 2) (b / 2) + max (a % 2) (b % 2)
bit_or_halves zero b = omega (arith, zero-bit_or b, zero-bit_or (b / 2))
bit_or_halves (suc a) b = omega (
  arith,
  bit_or-bitwise (suc a) b,
  bit_or-bitwise (suc a / 2) (b / 2),
  disj_enough a (suc a / 2) (suc a / 2) (b / 2) (omega arith) (omega arith),
)

-- The digit `k` of a disjunction.
pub bit_or_digit : (k a b : ℕ) → bit_or a b / 2 ^ k % 2 ≡ max (a / 2 ^ k % 2) (b / 2 ^ k % 2)
bit_or_digit zero a b = omega (arith, bit_or_halves a b)
bit_or_digit (suc k) a b =
    let half : bit_or a b / 2 ≡ bit_or (a / 2) (b / 2) = omega (arith, bit_or_halves a b) in
    let e : 2 ^ suc k ≡ 2 * 2 ^ k = omega (arith, pow-suc 2 k) in
    rw
      (
        e,
        ← div-div-eq-div-mul (bit_or a b) 2 (2 ^ k),
        ← div-div-eq-div-mul a 2 (2 ^ k),
        ← div-div-eq-div-mul b 2 (2 ^ k),
        half,
      )
      (bit_or_digit k (a / 2) (b / 2))

bit_or_fuel-zero : (n a : ℕ) → a ≤ n → bit_or a 0 ≡ a
bit_or_fuel-zero n zero h = zero-bit_or 0
bit_or_fuel-zero zero (suc a) h = absurd (omega arith)
bit_or_fuel-zero (suc n) (suc a) h =
    omega (arith, bit_or_halves (suc a) 0, bit_or_fuel-zero n (suc a / 2) (omega arith))

-- A number below `2 ^ k` fills the `k` lowest digits of a number that ends in as many zeros.
pub bit_or_shifted : (k a b : ℕ) → b < 2 ^ k → bit_or (a * 2 ^ k) b ≡ a * 2 ^ k + b
bit_or_shifted zero a b h =
    let none : b ≡ 0 = omega arith in
    rw none (bit_or_fuel-zero (a * 2 ^ 0) (a * 2 ^ 0) (omega arith) ∙ omega arith)
bit_or_shifted (suc k) a b h =
    let e : 2 ^ suc k ≡ 2 * 2 ^ k = omega (arith, pow-suc 2 k) in
    let twice : a * 2 ^ suc k ≡ 2 * (a * 2 ^ k) = rw e (omega arith) in
    let half : 2 * (a * 2 ^ k) / 2 ≡ a * 2 ^ k = omega arith in
    let even : 2 * (a * 2 ^ k) % 2 ≡ 0 = omega arith in
    rw (twice, bit_or_halves (2 * (a * 2 ^ k)) b, half, even)
      (omega (arith, bit_or_shifted k a (b / 2) (omega (arith, h, e))))

-- Digits above the lowest `k` of a number that ends in as many zeros are put together by themselves.
pub bit_or_above :
    (k a b r : ℕ) → r < 2 ^ k → bit_or (a * 2 ^ k) (b * 2 ^ k + r) ≡ bit_or a b * 2 ^ k + r
bit_or_above zero a b r h =
    let none : r ≡ 0 = omega arith in
    let left : a * 2 ^ 0 ≡ a = omega arith in
    let right : b * 2 ^ 0 + 0 ≡ b = omega arith in rw (none, left, right) (omega arith)
bit_or_above (suc k) a b r h =
    let e : 2 ^ suc k ≡ 2 * 2 ^ k = omega (arith, pow-suc 2 k) in
    let left : a * 2 ^ suc k ≡ 2 * (a * 2 ^ k) = rw e (omega arith) in
    let right : b * 2 ^ suc k + r ≡ 2 * (b * 2 ^ k) + r = rw e (omega arith) in
    let all : bit_or a b * 2 ^ suc k ≡ 2 * (bit_or a b * 2 ^ k) = rw e (omega arith) in
    let half : 2 * (a * 2 ^ k) / 2 ≡ a * 2 ^ k = omega arith in
    let half' : (2 * (b * 2 ^ k) + r) / 2 ≡ b * 2 ^ k + r / 2 = omega arith in
    let even : 2 * (a * 2 ^ k) % 2 ≡ 0 = omega arith in
    let odd : (2 * (b * 2 ^ k) + r) % 2 ≡ r % 2 = omega arith in
    let halves = bit_or_halves (2 * (a * 2 ^ k)) (2 * (b * 2 ^ k) + r) in
    rw (left, right, all, halves, half, half', even, odd)
      (omega (arith, bit_or_above k a b (r / 2) (omega (arith, h, e))))

-- A word of ones takes any number of as many digits.
pub bit_or_ones : (k a : ℕ) → a < 2 ^ k → bit_or a (2 ^ k - 1) ≡ 2 ^ k - 1
bit_or_ones zero a h = let none : a ≡ 0 = omega arith in rw none (zero-bit_or (2 ^ 0 - 1))
bit_or_ones (suc k) a h =
    let e : 2 ^ suc k ≡ 2 * 2 ^ k = omega (arith, pow-suc 2 k) in
    let half : (2 ^ suc k - 1) / 2 ≡ 2 ^ k - 1 = omega (arith, e, one-le-pow k 2) in
    let odd : (2 ^ suc k - 1) % 2 ≡ 1 = omega (arith, e, one-le-pow k 2) in
    rw (bit_or_halves a (2 ^ suc k - 1), half, odd)
      (omega (arith, bit_or_ones k (a / 2) (omega (arith, h, e)), e, one-le-pow k 2))
