-- ===== src/Base/Bits.antt =====
-- The binary digits of a number, and what the bit operations do to them.
pub mod Table
use Prim.Native.Nat.{
  ℕ, zero, suc, ◌+◌, ◌-◌, ◌*◌, ◌/◌, ◌%◌, ◌^◌, ◌≤◌, ◌<◌, max, bit_and, bit_or, min, digits,
  bit_and-bitwise, bit_or-bitwise,
}
use mathlib.Core.Path.{◌≡◌, refl, ap, ◌∙◌}
use mathlib.Core.Bool.{Bool, true, false}
use native.Mathlib.Omega.{arith}
use native.Mathlib.Nat.{
  pow-suc, one-le-pow, mod-lt, mod-eq_of_lt, div-add-mod, mul_left_comm, mul_comm,
  add-mul-mod_self_right,
}
use go_matter.Base.Tests.{ltb, ◌==◌, if◌then◌else◌}

-- Digit `i` of `n`, 0 or 1.
unfoldable pub bit : ℕ → ℕ → ℕ
bit n zero = n % 2
bit n (suc i) = bit (n / 2) i

pub bit-le-one : (n i : ℕ) → bit n i ≤ 1
unfolding bit
bit-le-one n zero = omega arith
bit-le-one n (suc i) = bit-le-one (n / 2) i

pub bit-zero : (i : ℕ) → bit 0 i ≡ 0
unfolding bit
bit-zero zero = refl
bit-zero (suc i) = bit-zero i

-- The native `bit_or` counts down from its first argument; any count from there up will do.
bit-digits : (n a b i : ℕ) → a ≤ n → bit (digits (λ y. y) max n a b) i ≡ max (bit a i) (bit b i)
unfolding bit
bit-digits zero a b i h = ground (arith, bit-zero i)
bit-digits (suc n) zero b i h = ground (arith, bit-zero i)
bit-digits (suc n) (suc a) b zero h = omega arith
bit-digits (suc n) (suc a) b (suc i) h =
    let tail = digits (λ y. y) max n (suc a / 2) (b / 2) in
    let half : (tail * 2 + max (suc a % 2) (b % 2)) / 2 ≡ tail = omega arith in
    rw half (bit-digits n (suc a / 2) (b / 2) i (omega arith))

pub bit-bit_or : (a b i : ℕ) → bit (bit_or a b) i ≡ max (bit a i) (bit b i)
bit-bit_or a b i = simp bit_or-bitwise (bit-digits a a b i (omega arith))

two-pow-suc : (k : ℕ) → 2 ^ suc k ≡ 2 * 2 ^ k
two-pow-suc k = omega (arith, pow-suc 2 k)

mul-two-pow-suc : (n k : ℕ) → n * 2 ^ suc k ≡ 2 * (n * 2 ^ k)
mul-two-pow-suc n k = omega (arith, ap (λ (t : ℕ). n * t) (pow-suc 2 k))

pub two-pow_pos : (k : ℕ) → 0 < 2 ^ k
two-pow_pos k = omega (arith, one-le-pow k 2 (omega arith))

mod-two-mul : (n m : ℕ) → 0 < m → n % (2 * m) ≡ 2 * (n / 2 % m) + n % 2
mod-two-mul n m h =
    let r = 2 * (n / 2 % m) + n % 2 in
    let small : r < 2 * m = omega (arith, mod-lt (n / 2) h) in
    let split : n ≡ r + n / 2 / m * (2 * m) =
      omega (arith, div-add-mod (n / 2) m, mul_left_comm (n / 2 / m) 2 m, mul_comm m (n / 2 / m)) in
    ap (λ (t : ℕ). t % (2 * m)) split
    ∙ add-mul-mod_self_right r (n / 2 / m) (2 * m)
    ∙ mod-eq_of_lt small

-- `n << s`, before it is cut to the word.
pub bit-shift : (n s i : ℕ) → bit (n * 2 ^ s) i ≡ (if ltb i s then 0 else bit n (i - s))
unfolding bit
bit-shift n zero i = ground arith
bit-shift n (suc s) zero = ground (arith, mul-two-pow-suc n s)
bit-shift n (suc s) (suc i) =
    let half : n * 2 ^ suc s / 2 ≡ n * 2 ^ s = omega (arith, mul-two-pow-suc n s) in
    rw half (ground (arith, bit-shift n s i))

pub bit-mod : (n k i : ℕ) → i < k → bit (n % 2 ^ k) i ≡ bit n i
unfolding bit
bit-mod n zero i h = elim h [ ]
bit-mod n (suc k) zero h = rw two-pow-suc (omega (arith, mod-two-mul n (2 ^ k) (two-pow_pos k)))
bit-mod n (suc k) (suc i) h =
    let half : n % 2 ^ suc k / 2 ≡ n / 2 % 2 ^ k =
      rw two-pow-suc (omega (arith, mod-two-mul n (2 ^ k) (two-pow_pos k))) in
    rw half (bit-mod (n / 2) k i (omega arith))

pub bit-two-pow : (k i : ℕ) → bit (2 ^ k) i ≡ (if i == k then 1 else 0)
unfolding bit
bit-two-pow zero zero = refl
bit-two-pow zero (suc i) = ground (arith, bit-zero i)
bit-two-pow (suc k) zero = ground (arith, two-pow-suc k)
bit-two-pow (suc k) (suc i) =
    let half : 2 ^ suc k / 2 ≡ 2 ^ k = omega (arith, two-pow-suc k) in
    rw half (ground (arith, bit-two-pow k i))

digits-zero : (n a : ℕ) → digits (λ y. 0) min n a 0 ≡ 0
digits-zero zero a = refl
digits-zero (suc n) zero = refl
digits-zero (suc n) (suc a) = omega (arith, digits-zero n (suc a / 2))

digits-two-pow : (n a k : ℕ) → a ≤ n → digits (λ y. 0) min n a (2 ^ k) ≡ bit a k * 2 ^ k
unfolding bit
digits-two-pow zero a k h = ground (arith, bit-zero k)
digits-two-pow (suc n) zero k h = ground (arith, bit-zero k)
digits-two-pow (suc n) (suc a) zero h = omega (arith, digits-zero n (suc a / 2))
digits-two-pow (suc n) (suc a) (suc k) h =
    let half : 2 ^ suc k / 2 ≡ 2 ^ k = omega (arith, two-pow-suc k) in
    let even : 2 ^ suc k % 2 ≡ 0 = omega (arith, two-pow-suc k) in
    rw (half, even)
      (omega (
        arith,
        digits-two-pow n (suc a / 2) k (omega arith),
        mul-two-pow-suc (bit (suc a / 2) k) k,
      ))

-- A mask with one bit reads that bit.
pub bit_and-two-pow : (a k : ℕ) → bit_and a (2 ^ k) ≡ bit a k * 2 ^ k
bit_and-two-pow a k = simp bit_and-bitwise (digits-two-pow a a k (omega arith))
