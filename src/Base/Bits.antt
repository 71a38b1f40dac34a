-- ===== src/Base/Bits.antt =====
-- The binary operations by their lowest digits; `|` of a number whose low byte is clear with a byte
-- is their sum.
use Prim.Native.Nat.{
  ℕ, zero, suc, ◌+◌, ◌*◌, ◌/◌, ◌%◌, ◌≤◌, ◌<◌, min, max, bit_or, bit_and, bit_xor, digits, differ,
}
use Prim.Native.Nat.{bit_or-bitwise, bit_and-bitwise, bit_xor-bitwise}
use mathlib.Core.Path.{◌≡◌, refl}
use native.Mathlib.Omega.{arith}

-- More rounds than the first number has digits change nothing.
module _ (z : ℕ → ℕ) (f : ℕ → ℕ → ℕ) where
  enough_digits : (n m a b : ℕ) → a ≤ n → a ≤ m → digits z f n a b ≡ digits z f m a b
  enough_digits zero zero a b p q = refl
  enough_digits zero (suc m) zero b p q = refl
  enough_digits zero (suc m) (suc a) b p q = absurd (omega arith)
  enough_digits (suc n) zero zero b p q = refl
  enough_digits (suc n) zero (suc a) b p q = absurd (omega arith)
  enough_digits (suc n) (suc m) zero b p q = refl
  enough_digits (suc n) (suc m) (suc a) b p q =
      omega (arith, enough_digits n m (suc a / 2) (b / 2) (omega arith) (omega arith))

  lowest_digit :
      (a b : ℕ)
      → digits z f (suc a) (suc a) b
        ≡ digits z f (suc a / 2) (suc a / 2) (b / 2) * 2 + f (suc a % 2) (b % 2)
  lowest_digit a b =
      omega (arith, enough_digits a (suc a / 2) (suc a / 2) (b / 2) (omega arith) (omega arith))

-- What an operation on binary digits does with the lowest ones.
module _ (z : ℕ → ℕ) (f g : ℕ → ℕ → ℕ) (reads : (a b : ℕ) → g a b ≡ digits z f a a b)
    (ends : (b : ℕ) → z b ≡ z (b / 2) * 2 + f 0 (b % 2)) where
  digit_step : (a b : ℕ) → g a b ≡ g (a / 2) (b / 2) * 2 + f (a % 2) (b % 2)
  digit_step zero b =
      let whole : g 0 b ≡ z b = reads 0 b in
      let half : g 0 (b / 2) ≡ z (b / 2) = reads 0 (b / 2) in omega (arith, whole, half, ends b)
  digit_step (suc a) b =
      omega (arith, lowest_digit z f a b, reads (suc a / 2) (b / 2), reads (suc a) b)

pub bit_or_step : (a b : ℕ) → bit_or a b ≡ bit_or (a / 2) (b / 2) * 2 + max (a % 2) (b % 2)
bit_or_step = digit_step (λ y. y) max bit_or bit_or-bitwise (λ b. omega arith)

pub bit_and_step : (a b : ℕ) → bit_and a b ≡ bit_and (a / 2) (b / 2) * 2 + min (a % 2) (b % 2)
bit_and_step = digit_step (λ y. 0) min bit_and bit_and-bitwise (λ b. omega arith)

differ-zero : (y : ℕ) → differ 0 y ≡ y
differ-zero y = refl

pub bit_xor_step : (a b : ℕ) → bit_xor a b ≡ bit_xor (a / 2) (b / 2) * 2 + differ (a % 2) (b % 2)
bit_xor_step =
    digit_step (λ y. y) differ bit_xor bit_xor-bitwise (λ b. omega (arith, differ-zero (b % 2)))

zero-bit_or : (b : ℕ) → bit_or 0 b ≡ b
zero-bit_or = bit_or-bitwise 0

pub zero-bit_and : (b : ℕ) → bit_and 0 b ≡ 0
zero-bit_and = bit_and-bitwise 0

pub zero-bit_xor : (b : ℕ) → bit_xor 0 b ≡ b
zero-bit_xor = bit_xor-bitwise 0

bit_or-zero_fuel : (n a : ℕ) → a ≤ n → bit_or a 0 ≡ a
bit_or-zero_fuel n zero h = zero-bit_or 0
bit_or-zero_fuel zero (suc a) h = absurd (omega arith)
bit_or-zero_fuel (suc n) (suc a) h =
    omega (arith, bit_or_step (suc a) 0, bit_or-zero_fuel n (suc a / 2) (omega arith))

-- One bit of the shift: the high part doubles, the low part halves.
bit_or_double : (a q r : ℕ) → a ≡ q * 2 → bit_or q (r / 2) ≡ q + r / 2 → bit_or a r ≡ a + r
bit_or_double a q r e h =
    let half : a / 2 ≡ q = omega arith in rw (bit_or_step a r, half, h) (omega arith)

module _ (q : ℕ) where
  two_bits : (r : ℕ) → r < 4 → bit_or (q * 4) r ≡ q * 4 + r
  two_bits r h = bit_or_double (q * 4) (q * 2) r (omega arith) (
      bit_or_double (q * 2) q (r / 2) (omega arith) (
        let none_left : r / 2 / 2 ≡ 0 = omega arith in
        rw none_left (omega (arith, bit_or-zero_fuel q q (omega arith)))))

pub bit_or-byte : (q r : ℕ) → r < 256 → bit_or (q * 256) r ≡ q * 256 + r
bit_or-byte q r h = bit_or_double (q * 256) (q * 128) r (omega arith) (
    bit_or_double (q * 128) (q * 64) (r / 2) (omega arith) (
      bit_or_double (q * 64) (q * 32) (r / 2 / 2) (omega arith) (
        bit_or_double (q * 32) (q * 16) (r / 2 / 2 / 2) (omega arith) (
          bit_or_double (q * 16) (q * 8) (r / 2 / 2 / 2 / 2) (omega arith) (
            bit_or_double (q * 8) (q * 4) (r / 2 / 2 / 2 / 2 / 2) (omega arith)
              (two_bits q (r / 2 / 2 / 2 / 2 / 2 / 2) (omega arith)))))))
