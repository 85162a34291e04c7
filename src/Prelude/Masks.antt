-- ===== src/Prelude/Masks.antt =====
-- `x & m` for a mask `m`: the laws of the native conjunction that the masks of the code need.
use Prim.Native.Nat.{ℕ, zero, suc, ◌+◌, ◌-◌, ◌*◌, ◌/◌, ◌%◌, ◌^◌, ◌≤◌, ◌<◌, min, bit_and, digits}
use Prim.Native.Nat.{bit_and-bitwise}
use mathlib.Core.Path.{◌≡◌, refl, ap, ◌∙◌}
use native.Mathlib.Omega.{arith}
use native.Mathlib.Nat.{
  div-div-eq-div-mul, mul-le-mul_left, pow-suc, one-le-pow, add_comm, add-mul-mod_self_left,
  mod-eq_of_lt, mod-lt,
}
use native.Mathlib.Nat.{div-div-eq-div-mul, mul-le-mul_left, div-add-mod}

-- The recursion that the native operation stands for, on `n` rounds of fuel.
abbrev conj : ℕ → ℕ → ℕ → ℕ
conj n a b = digits (λ y. zero) min n a b

-- More fuel than the value of the first operand changes nothing.
conj_enough : (n m a b : ℕ) → a ≤ n → a ≤ m → conj n a b ≡ conj m a b
conj_enough zero zero a b p q = refl
conj_enough zero (suc m) zero b p q = refl
conj_enough zero (suc m) (suc a) b p q = absurd (omega arith)
conj_enough (suc n) zero zero b p q = refl
conj_enough (suc n) zero (suc a) b p q = absurd (omega arith)
conj_enough (suc n) (suc m) zero b p q = refl
conj_enough (suc n) (suc m) (suc a) b p q =
    omega (arith, conj_enough n m (suc a / 2) (b / 2) (omega arith) (omega arith))

zero-bit_and : (b : ℕ) → bit_and 0 b ≡ 0
zero-bit_and b = bit_and-bitwise 0 b

pub bit_and_halves : (a b : ℕ) → bit_and a b ≡ 2 * bit_and (a / 2) (b / 2) + min (a % 2) (b % 2)
bit_and_halves zero b = omega (arith, zero-bit_and b, zero-bit_and (b / 2))
bit_and_halves (suc a) b = omega (
  arith,
  bit_and-bitwise (suc a) b,
  bit_and-bitwise (suc a / 2) (b / 2),
  conj_enough a (suc a / 2) (suc a / 2) (b / 2) (omega arith) (omega arith),
)

bit_and_fuel-le : (n a b : ℕ) → a ≤ n → bit_and a b ≤ b
bit_and_fuel-le n zero b h = omega (arith, zero-bit_and b)
bit_and_fuel-le zero (suc a) b h = absurd (omega arith)
bit_and_fuel-le (suc n) (suc a) b h =
    omega (arith, bit_and_halves (suc a) b, bit_and_fuel-le n (suc a / 2) (b / 2) (omega arith))

-- A masked value is at most the mask.
pub bit_and-le : (a b : ℕ) → bit_and a b ≤ b
bit_and-le a b = bit_and_fuel-le a a b (omega arith)

-- The remainder by `m` of a number that is written with a remainder below `m`.
pub mod_of_parts : (m q r : ℕ) → r < m → (m * q + r) % m ≡ r
mod_of_parts m q r h = rw (add_comm, add-mul-mod_self_left r m q, mod-eq_of_lt h)

pub mod-double : (m a : ℕ) → 0 < m → a % (2 * m) ≡ 2 * (a / 2 % m) + a % 2
mod-double m a h =
    let rest : a % 2 + 2 * (a / 2 % m) < 2 * m = omega (arith, mod-lt (a / 2) h) in
    let whole : a ≡ (2 * m) * (a / 2 / m) + (2 * (a / 2 % m) + a % 2) =
      omega (arith, div-add-mod (a / 2) m) in
    ap (λ t. t % (2 * m)) whole
    ∙ mod_of_parts (2 * m) (a / 2 / m) (2 * (a / 2 % m) + a % 2) (omega arith)

-- A mask of `k` ones is the remainder by `2 ^ k`.
pub bit_and_ones : (k a : ℕ) → bit_and a (2 ^ k - 1) ≡ a % 2 ^ k
bit_and_ones zero a = omega (arith, bit_and-le a 0)
bit_and_ones (suc k) a = ground (
  arith,
  pow-suc 2 k,
  one-le-pow k 2,
  bit_and_halves a (2 ^ suc k - 1),
  bit_and_ones k (a / 2),
  mod-double (2 ^ k) a,
)

-- The digit `k` of `a`, alone.
pub bit_and_power : (k a : ℕ) → bit_and a (2 ^ k) ≡ 2 ^ k * (a / 2 ^ k % 2)
bit_and_power zero a = omega (arith, bit_and_ones 1 a)
bit_and_power (suc k) a =
    let e : 2 ^ suc k ≡ 2 * 2 ^ k = omega (arith, pow-suc 2 k) in
    let half : 2 * 2 ^ k / 2 ≡ 2 ^ k = omega arith in
    let even : 2 * 2 ^ k % 2 ≡ 0 = omega arith in
    rw
      (
        e,
        ← div-div-eq-div-mul a 2 (2 ^ k),
        bit_and_halves a (2 * 2 ^ k),
        half,
        even,
        bit_and_power k (a / 2),
      )
      (omega arith)

-- One more digit of a remainder.
pub mod-double_upper : (m a : ℕ) → 0 < m → a % (2 * m) ≡ a % m + m * (a / m % 2)
mod-double_upper m a h =
    let q = a / m in
    let small : m * (q % 2) ≤ m * 1 = mul-le-mul_left m (omega arith) in
    let parts : m * q ≡ m * (2 * (q / 2) + q % 2) = ap (λ t. m * t) (omega arith) in
    let whole : a ≡ (2 * m) * (q / 2) + (a % m + m * (q % 2)) =
      omega (arith, div-add-mod a m, parts) in
    ap (λ t. t % (2 * m)) whole
    ∙ mod_of_parts (2 * m) (q / 2) (a % m + m * (q % 2)) (omega (arith, mod-lt a h, small))
