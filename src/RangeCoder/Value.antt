-- ===== src/RangeCoder/Value.antt =====
-- The number that a sequence of bytes stands for, the most significant byte first, and the bytes
-- that RangeEnc_ShiftLow writes.
use pyppmd.Base.{
  ℕ, zero, suc, ◌+◌, ◌*◌, ◌%◌, ◌≤◌, ◌<◌, ◌≡◌, refl, List, [], ◌∷◌, ◌++◌, arith, length,
  length-append,
}
use native.Mathlib.Nat.{zero-add, suc-add}
use pyppmd.RangeCoder.Enc.{pending}

abbrev pub All {ℓ κ} : {A : Type ℓ} → (A → Type κ) → List A → Type κ
All P [] = Unit
All P (x ∷ xs) = P x × All P xs

abbrev pub IsByte : ℕ → Type 0
IsByte b = b < 256

pub All-append : (xs ys : List ℕ) → All IsByte xs → All IsByte ys → All IsByte (xs ++ ys)
All-append [] ys a b = b
All-append (x ∷ xs) ys (h, a) b = (h, All-append xs ys a b)

-- 256 ^ k, by recursion.
unfoldable pub pow256 : ℕ → ℕ
pow256 zero = 1
pow256 (suc k) = 256 * pow256 k

unfoldable pub value : List ℕ → ℕ
value [] = 0
value (b ∷ bs) = b * pow256 (length bs) + value bs

pub pow256_pos : (k : ℕ) → 1 ≤ pow256 k
unfolding pow256
pow256_pos zero = omega arith
pow256_pos (suc k) = omega (arith, pow256_pos k)

pub pow256-add : (j k : ℕ) → pow256 (j + k) ≡ pow256 j * pow256 k
unfolding pow256
pow256-add zero k = rw zero-add (omega arith)
pow256-add (suc j) k = rw suc-add (omega (arith, pow256-add j k))

pub value-append : (xs ys : List ℕ) → value (xs ++ ys) ≡ value xs * pow256 (length ys) + value ys
unfolding value
value-append [] ys = omega arith
value-append (x ∷ xs) ys =
    rw (length-append xs ys, pow256-add (length xs) (length ys), value-append xs ys) (omega arith)

pub length-pending : (n temp carry : ℕ) → length (pending n temp carry) ≡ n
unfolding pending
length-pending zero temp carry = refl
length-pending (suc n) temp carry = omega (arith, length-pending n 0xFF carry)

pub pending-IsByte : (n temp carry : ℕ) → All IsByte (pending n temp carry)
unfolding pending
pending-IsByte zero temp carry = tt
pending-IsByte (suc n) temp carry = (omega arith, pending-IsByte n 0xFF carry)

-- A run of 0xFF with the carry added to each byte is all ones or all zeros.
value-pending_run :
    (n carry : ℕ)
    → carry ≤ 1
    → value (pending n 0xFF carry) + carry * pow256 n + 1 ≡ pow256 n + carry
unfolding pending value pow256
value-pending_run zero carry h = omega arith
value-pending_run (suc n) zero h =
    rw (length-pending n 0xFF 0) (omega (arith, value-pending_run n 0 (omega arith)))
value-pending_run (suc n) (suc carry) h =
    let one : carry ≡ 0 = omega arith in
    rw (one, length-pending n 0xFF 1) (omega (arith, value-pending_run n 1 (omega arith)))

-- The bytes that a flush writes, with room for the carry in the cache.
pub value-pending :
    (c cache carry : ℕ)
    → carry ≤ 1
    → cache + carry < 256
    → value (pending (suc c) cache carry) + 1 ≡ cache * pow256 c + pow256 c + carry
unfolding pending value
value-pending c cache carry h room = rw (length-pending c 0xFF carry) (
    let whole : (cache + carry) % 256 ≡ cache + carry = omega arith in
    rw whole (omega (arith, value-pending_run c carry h)))
