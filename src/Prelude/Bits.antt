-- ===== src/Prelude/Bits.antt =====
-- `&`, `|` and `^` of the native numbers as arithmetic, in the cases that the code uses: a mask of
-- low bits, fields that do not overlap, and single bits.
use Prim.Native.Nat.{
  ℕ, zero, suc, ◌+◌, ◌*◌, ◌/◌, ◌%◌, ◌^◌, ◌≤◌, ◌<◌, min, max, bit_and, bit_or, bit_xor, digits,
  bitwise, bit_and-bitwise, bit_or-bitwise,
}
use mathlib.Core.Path.{◌≡◌, refl, ap}
use native.Mathlib.Nat.{pow-suc}
use native.Mathlib.Omega.{arith}

-- The recursion on digits does not depend on its fuel, once that covers the first number.
module _ (z : ℕ → ℕ) (f : ℕ → ℕ → ℕ) where
  digits_enough : (a n b : ℕ) (m : ℕ) → a ≤ n → a ≤ m → digits z f n a b ≡ digits z f m a b
  digits_enough a zero b zero p q = refl
  digits_enough zero zero b (suc m) p q = refl
  digits_enough zero (suc n) b zero p q = refl
  digits_enough zero (suc n) b (suc m) p q = refl
  digits_enough (suc a) zero b m p q = absurd (omega arith)
  digits_enough (suc a) (suc n) b zero p q = absurd (omega arith)
  digits_enough (suc a) (suc n) b (suc m) p q =
      ap (λ (t : ℕ). t * 2 + f (suc a % 2) (b % 2))
        (digits_enough (suc a / 2) n (b / 2) m (omega arith) (omega arith))

  last_digit :
      (a b : ℕ)
      → bitwise z f (suc a) b ≡ bitwise z f (suc a / 2) (b / 2) * 2 + f (suc a % 2) (b % 2)
  last_digit a b =
      ap (λ (t : ℕ). t * 2 + f (suc a % 2) (b % 2))
        (digits_enough (suc a / 2) a (b / 2) (suc a / 2) (omega arith) (omega arith))

bit_and-last : (a b : ℕ) → bit_and a b ≡ bit_and (a / 2) (b / 2) * 2 + min (a % 2) (b % 2)
bit_and-last zero b = simp bit_and-bitwise (omega arith)
bit_and-last (suc a) b = simp bit_and-bitwise (last_digit (λ _. 0) min a b)

bit_or-last : (a b : ℕ) → bit_or a b ≡ bit_or (a / 2) (b / 2) * 2 + max (a % 2) (b % 2)
bit_or-last zero b = simp bit_or-bitwise (omega arith)
bit_or-last (suc a) b = simp bit_or-bitwise (last_digit (λ y. y) max a b)

-- With fuel, since the halves are no parts of the number.
bit_and-zero_upto : (n a : ℕ) → a ≤ n → bit_and a 0 ≡ 0
bit_and-zero_upto n zero h = refl
bit_and-zero_upto zero (suc a) h = absurd (omega arith)
bit_and-zero_upto (suc n) (suc a) h =
    omega (arith, bit_and-last (suc a) 0, bit_and-zero_upto n (suc a / 2) (omega arith))

bit_or-zero_upto : (n a : ℕ) → a ≤ n → bit_or a 0 ≡ a
bit_or-zero_upto n zero h = refl
bit_or-zero_upto zero (suc a) h = absurd (omega arith)
bit_or-zero_upto (suc n) (suc a) h =
    omega (arith, bit_or-last (suc a) 0, bit_or-zero_upto n (suc a / 2) (omega arith))

pub bit_and-one : (a : ℕ) → bit_and a 1 ≡ a % 2
bit_and-one a = omega (arith, bit_and-last a 1, bit_and-zero_upto (a / 2) (a / 2) (omega arith))

bit_and_seven : (a : ℕ) → bit_and a 7 ≡ a % 8
bit_and_seven a = omega (arith, bit_and-last a 7, bit_and-last (a / 2) 3, bit_and-one (a / 2 / 2))

bit_and_63 : (a : ℕ) → bit_and a 63 ≡ a % 64
bit_and_63 a = omega (
  arith,
  bit_and-last a 63,
  bit_and-last (a / 2) 31,
  bit_and-last (a / 2 / 2) 15,
  bit_and_seven (a / 2 / 2 / 2),
)

-- `a & 0xFF`
pub bit_and_byte : (a : ℕ) → bit_and a 0xff ≡ a % 256
bit_and_byte a = omega (arith, bit_and-last a 255, bit_and-last (a / 2) 127, bit_and_63 (a / 2 / 2))

-- `a << k | b` when `b` fits under the shift.
pub bit_or-shift : (k a b : ℕ) → b < 2 ^ k → bit_or (a * 2 ^ k) b ≡ a * 2 ^ k + b
bit_or-shift zero a zero h = ground (arith, bit_or-zero_upto a a (omega arith))
bit_or-shift zero a (suc b) h = absurd (omega arith)
bit_or-shift (suc k) a b h =
    let doubled : a * 2 ^ suc k ≡ 2 * (a * 2 ^ k) =
      omega (arith, ap (λ (t : ℕ). a * t) (pow-suc 2 k)) in
    let halved : a * 2 ^ suc k / 2 ≡ a * 2 ^ k = omega (arith, doubled) in
    omega (
      arith,
      doubled,
      bit_or-last (a * 2 ^ suc k) b,
      ap (λ (t : ℕ). bit_or t (b / 2)) halved,
      bit_or-shift k a (b / 2) (omega (arith, pow-suc 2 k)),
    )

pub bit_xor-bits : (a b : ℕ) → a < 2 → b < 2 → bit_xor a b ≡ (a + b) % 2
bit_xor-bits zero zero p q = refl
bit_xor-bits zero (suc zero) p q = refl
bit_xor-bits (suc zero) zero p q = refl
bit_xor-bits (suc zero) (suc zero) p q = refl
bit_xor-bits (suc (suc a)) b p q = absurd (omega arith)
bit_xor-bits zero (suc (suc b)) p q = absurd (omega arith)
bit_xor-bits (suc zero) (suc (suc b)) p q = absurd (omega arith)
