-- ===== src/Common/Bits.antt =====
-- `x & (2 ^ k - 1)` is the remainder modulo `2 ^ k`: how a power-of-two capacity wraps a position.
use Prim.Native.Nat.{ℕ, zero, suc, ◌+◌, ◌-◌, ◌*◌, ◌/◌, ◌%◌, ◌^◌, ◌≤◌, ◌<◌, min, max}
use Prim.Native.Nat.{bit_and, bit_or, digits, bit_and-bitwise, bit_or-bitwise}
use native.Mathlib.Nat.{pow-suc, mul_assoc}
use native.Mathlib.Omega.{arith}
use mathlib.Core.Path.{◌≡◌, sym, ap, ◌∙◌}

abbrev ones : ℕ → ℕ
ones k = 2 ^ k - 1

pub pow_pos : (k : ℕ) → 0 < 2 ^ k
pow_pos zero = omega arith
pow_pos (suc k) = omega (arith, pow_pos k, pow-suc 2 k)

pub pow_le : (a k : ℕ) → 2 ^ a ≤ 2 ^ (a + k)
pow_le a zero = omega (arith, ap (λ (n : ℕ). 2 ^ n) (let e : a + 0 ≡ a = omega arith in e))
pow_le a (suc k) = omega (
  arith,
  pow_le a k,
  ap (λ (n : ℕ). 2 ^ n) (let e : a + suc k ≡ suc (a + k) = omega arith in e),
  pow-suc 2 (a + k),
)

ones_halved : (k : ℕ) → (ones (suc k) / 2 ≡ ones k) × (ones (suc k) % 2 ≡ 1)
ones_halved k = (omega (arith, pow-suc 2 k, pow_pos k), omega (arith, pow-suc 2 k, pow_pos k))

mod_double : (a m : ℕ) → 0 < m → (a / 2 % m) * 2 + a % 2 ≡ a % (m * 2)
mod_double a m h = grind arith

-- The digits of `a` under a mask of `k` ones, with `n` digits to go.
masked_digits : (n a k : ℕ) → a ≤ n → digits (λ _. 0) min n a (ones k) ≡ a % 2 ^ k
masked_digits zero zero k h = omega (arith, pow_pos k)
masked_digits zero (suc a) k h = absurd (omega arith)
masked_digits (suc n) zero k h = omega (arith, pow_pos k)
masked_digits (suc n) (suc a) zero h = omega (arith, masked_digits n (suc a / 2) 0 (omega arith))
masked_digits (suc n) (suc a) (suc k) h =
    let (half, low) = ones_halved k in
    let rest =
      ap (digits (λ _. 0) min n (suc a / 2)) half ∙ masked_digits n (suc a / 2) k (omega arith) in
    omega (
      arith,
      rest,
      low,
      mod_double (suc a) (2 ^ k) (pow_pos k),
      ap (λ (m : ℕ). suc a % m) (pow-suc 2 k),
    )

-- A mask of `k` ones keeps the remainder modulo `2 ^ k`.
pub bit_and-mask : (k a : ℕ) → bit_and a (2 ^ k - 1) ≡ a % 2 ^ k
bit_and-mask k a = bit_and-bitwise a (ones k) ∙ masked_digits a a k (omega arith)

-- The digits of `a` joined with those of a multiple of a larger power of two, `n` digits to go.
joined_digits :
    (n a m k : ℕ) → a ≤ n → a < 2 ^ k → digits (λ b. b) max n a (m * 2 ^ k) ≡ a + m * 2 ^ k
joined_digits zero zero m k h small = omega arith
joined_digits zero (suc a) m k h small = absurd (omega arith)
joined_digits (suc n) zero m k h small = omega arith
joined_digits (suc n) (suc a) m zero h small = absurd (omega (arith, small))
joined_digits (suc n) (suc a) m (suc k) h small =
    let shifted : m * 2 ^ suc k ≡ m * 2 ^ k * 2 =
      ap (λ (w : ℕ). m * w) (pow-suc 2 k) ∙ sym (mul_assoc m (2 ^ k) 2) in
    let half : m * 2 ^ suc k / 2 ≡ m * 2 ^ k = omega (arith, shifted) in
    let low : m * 2 ^ suc k % 2 ≡ 0 = omega (arith, shifted) in
    let rest =
      ap (digits (λ b. b) max n (suc a / 2)) half
      ∙ joined_digits n (suc a / 2) m k (omega arith) (omega (arith, small, pow-suc 2 k)) in
    omega (arith, rest, low, shifted)

-- Numbers with no digit in common are joined by adding them.
pub bit_or-add : (k a m : ℕ) → a < 2 ^ k → bit_or a (m * 2 ^ k) ≡ a + m * 2 ^ k
bit_or-add k a m h = bit_or-bitwise a (m * 2 ^ k) ∙ joined_digits a a m k (omega arith) h
