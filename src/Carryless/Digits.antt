-- ===== src/Carryless/Digits.antt =====
-- The top byte and the low digits of a number, as `^` and `&` read them.
use Prim.Native.Nat.{differ}
use pyppmd.Base.{
  ℕ, zero, suc, ◌+◌, ◌-◌, ◌*◌, ◌/◌, ◌%◌, ◌^◌, ◌≤◌, ◌<◌, ◌≡◌, refl, sym, ◌∙◌, ap, bit_and, bit_xor,
  arith,
}
use pyppmd.Base.Bits.{bit_and_step, bit_xor_step, zero-bit_xor, zero-bit_and}

differ-lt : (a b : ℕ) → a < 2 → b < 2 → differ a b < 2
differ-lt zero b p q = q
differ-lt (suc zero) zero p q = omega arith
differ-lt (suc zero) (suc b) p q = omega arith
differ-lt (suc (suc a)) b p q = absurd (omega arith)

differ-same : (a b : ℕ) → a < 2 → b < 2 → differ a b ≡ 0 → a ≡ b
differ-same zero b p q h = sym h
differ-same (suc zero) zero p q h = h
differ-same (suc zero) (suc b) p q h = omega (arith, h)
differ-same (suc (suc a)) b p q h = absurd (omega arith)

differ_self : (a : ℕ) → differ a a ≡ 0
differ_self zero = refl
differ_self (suc a) = differ_self a

bit_xor-half : (a b : ℕ) → bit_xor a b / 2 ≡ bit_xor (a / 2) (b / 2)
bit_xor-half a b =
    omega (arith, bit_xor_step a b, differ-lt (a % 2) (b % 2) (omega arith) (omega arith))

bit_xor-zero_fuel : (n a b : ℕ) → a ≤ n → bit_xor a b ≡ 0 → a ≡ b
bit_xor-zero_fuel n zero b small h = sym h ∙ zero-bit_xor b
bit_xor-zero_fuel zero (suc a) b small h = absurd (omega arith)
bit_xor-zero_fuel (suc n) (suc a) b small h =
    let low =
      differ-same (suc a % 2) (b % 2) (omega arith) (omega arith)
        (omega (arith, h, bit_xor_step (suc a) b)) in
    let high =
      bit_xor-zero_fuel n (suc a / 2) (b / 2) (omega arith)
        (omega (arith, h, bit_xor_step (suc a) b)) in
    omega (arith, low, high)

bit_xor-self_fuel : (n a : ℕ) → a ≤ n → bit_xor a a ≡ 0
bit_xor-self_fuel n zero small = zero-bit_xor 0
bit_xor-self_fuel zero (suc a) small = absurd (omega arith)
bit_xor-self_fuel (suc n) (suc a) small = omega (
  arith,
  bit_xor_step (suc a) (suc a),
  differ_self (suc a % 2),
  bit_xor-self_fuel n (suc a / 2) (omega arith),
)

-- Halving `k` times.
half : ℕ → ℕ → ℕ
half zero a = a
half (suc k) a = half k (a / 2)

bit_xor-halves : (k a b : ℕ) → half k (bit_xor a b) ≡ bit_xor (half k a) (half k b)
unfolding half
bit_xor-halves zero a b = refl
bit_xor-halves (suc k) a b = ap (half k) (bit_xor-half a b) ∙ bit_xor-halves k (a / 2) (b / 2)

half-24 : (a : ℕ) → half 24 a ≡ a / 2 ^ 24
unfolding half
half-24 a = omega arith

pub bit_xor-same_top : (a b : ℕ) → bit_xor a b < 2 ^ 24 → a / 2 ^ 24 ≡ b / 2 ^ 24
bit_xor-same_top a b small =
    let none_left : bit_xor (half 24 a) (half 24 b) ≡ 0 =
      sym (bit_xor-halves 24 a b) ∙ half-24 (bit_xor a b) ∙ omega arith in
    sym (half-24 a)
    ∙ bit_xor-zero_fuel (half 24 a) (half 24 a) (half 24 b) (omega arith) none_left
    ∙ half-24 b

pub same_top-bit_xor : (a b : ℕ) → a / 2 ^ 24 ≡ b / 2 ^ 24 → bit_xor a b < 2 ^ 24
same_top-bit_xor a b same =
    let tops : half 24 a ≡ half 24 b = half-24 a ∙ same ∙ sym (half-24 b) in
    let none_left : half 24 (bit_xor a b) ≡ 0 =
      bit_xor-halves 24 a b ∙ rw tops (bit_xor-self_fuel (half 24 b) (half 24 b) (omega arith)) in
    omega (arith, half-24 (bit_xor a b), none_left)

-- A mask of `k` ones, and the `k` lowest digits.
ones : ℕ → ℕ
ones zero = 0
ones (suc k) = ones k * 2 + 1

low_digits : ℕ → ℕ → ℕ
low_digits zero a = 0
low_digits (suc k) a = low_digits k (a / 2) * 2 + a % 2

bit_and-zero_fuel : (n a : ℕ) → a ≤ n → bit_and a 0 ≡ 0
bit_and-zero_fuel n zero small = zero-bit_and 0
bit_and-zero_fuel zero (suc a) small = absurd (omega arith)
bit_and-zero_fuel (suc n) (suc a) small =
    omega (arith, bit_and_step (suc a) 0, bit_and-zero_fuel n (suc a / 2) (omega arith))

bit_and-ones : (k a : ℕ) → bit_and a (ones k) ≡ low_digits k a
unfolding ones low_digits
bit_and-ones zero a = bit_and-zero_fuel a a (omega arith)
bit_and-ones (suc k) a =
    let half_ones : (ones k * 2 + 1) / 2 ≡ ones k = omega arith in
    let step = (rw half_ones at (bit_and_step a (ones k * 2 + 1))) in
    omega (arith, step, bit_and-ones k (a / 2))

low_digits-15 : (a : ℕ) → low_digits 15 a ≡ a % 2 ^ 15
unfolding low_digits
low_digits-15 a = omega arith

pub bit_and-low : (a : ℕ) → bit_and a (2 ^ 15 - 1) ≡ a % 2 ^ 15
unfolding ones
bit_and-low a = bit_and-ones 15 a ∙ low_digits-15 a
