-- ===== src/Carryless/Narrow.antt =====
-- One coding step of both sides: the interval is narrowed, and both loops normalise it.
use pyppmd.Base.{ℕ, ◌+◌, ◌-◌, ◌*◌, ◌/◌, ◌^◌, ◌≤◌, ◌≡◌, true, false, u32, arith, inl, inr}
use mathlib.Core.Path.{ap₂}
use native.Mathlib.Nat.{le-div_iff_mul-le, div-mul-le_self, mul-le-mul_right, mul-le-mul_left}
use pyppmd.RangeCoder.Ops.{Op, interval, bit}
use pyppmd.Carryless.Coder.{
  Encoder, Decoder, normalize_encoder, loop_fuel, range_encode, range_encode_bit_0,
  range_encode_bit_1,
}
use pyppmd.Carryless.Settle.{IsFair}
use pyppmd.Carryless.Ops.{IsStep, encode_step}

-- The counts of a step: a bit is a step of 2 ^ 14 counts.
abbrev pub start_of : Op → ℕ
start_of (interval start size total) = start
start_of (bit false size0) = 0
start_of (bit true size0) = size0

abbrev pub size_of : Op → ℕ
size_of (interval start size total) = size
size_of (bit false size0) = size0
size_of (bit true size0) = 2 ^ 14 - size0

abbrev pub total_of : Op → ℕ
total_of (interval start size total) = total
total_of (bit b size0) = 2 ^ 14

IsStep-counts :
    (op : Op)
    → IsStep op
    → (1 ≤ size_of op) × (start_of op + size_of op ≤ total_of op) × (total_of op ≤ 2 ^ 15)
IsStep-counts (interval start size total) valid = valid
IsStep-counts (bit false size0) valid = omega (arith, valid)
IsStep-counts (bit true size0) valid = omega (arith, valid)

-- The narrowed states, before they are normalised.
abbrev pub narrowed : Encoder → (share start size : ℕ) → Encoder
narrowed e share start size = record e { low = e.low + start * share; range = share * size }

abbrev pub narrowed_dec : Decoder → (share start size : ℕ) → Decoder
narrowed_dec d share start size = record d {
  low = d.low + start * share;
  code = d.code - start * share;
  range = share * size;
}

-- The share of one count is 1 at least, and the counts of a step stay inside the interval.
pub record IsShared (range start size total : ℕ) : Type 0 where
  pub pos : 1 ≤ range / total
  pub size_pos : 1 ≤ range / total * size
  pub inside : start * (range / total) + range / total * size ≤ range

share-IsShared :
    (range start size total : ℕ)
    → 2 ^ 15 ≤ range
    → 1 ≤ size
    → start + size ≤ total
    → total ≤ 2 ^ 15
    → IsShared range start size total
share-IsShared range start size total wide pos fits small =
    let share : 1 ≤ range / total =
      (le-div_iff_mul-le {k = total} {x = 1} {y = range} (omega arith)).1 (omega arith) in
    record {
      pos = share;
      size_pos = omega (arith, mul-le-mul_left (range / total) pos);
      inside = omega (arith, mul-le-mul_right (range / total) fits, div-mul-le_self range total);
    }

module _ (e : Encoder) (fair : IsFair e.low e.range) (wide : 2 ^ 15 ≤ e.range) (op : Op)
    (valid : IsStep op) where
  abbrev share : ℕ
  share = e.range / total_of op

  pub shared : IsShared e.range (start_of op) (size_of op) (total_of op)
  shared =
      let (pos, fits, small) = IsStep-counts op valid in
      share-IsShared e.range (start_of op) (size_of op) (total_of op) wide pos fits small

  abbrev pub target : Encoder
  target = narrowed e share (start_of op) (size_of op)

  pub target-IsFair : IsFair target.low target.range
  target-IsFair = record {
    pos = shared.size_pos;
    low_lt = omega (arith, shared.size_pos, shared.inside, fair.inside);
    range_lt = omega (arith, shared.inside, fair.range_lt);
    inside = omega (arith, shared.inside, fair.inside);
    top = elim fair.top [
      | inl below ↦ inl (omega (arith, shared.inside, below))
      | inr high ↦ inr (omega (arith, high))
    ];
  }

-- What the encoder does, with its wrap-around.
pub encode_step-narrowed :
    (e : Encoder) (op : Op)
    → IsFair e.low e.range
    → IsStep op
    → IsShared e.range (start_of op) (size_of op) (total_of op)
    → encode_step op e
      ≡ normalize_encoder loop_fuel (narrowed e (e.range / total_of op) (start_of op) (size_of op))
unfolding encode_step range_encode range_encode_bit_0 range_encode_bit_1
encode_step-narrowed e (interval start size total) fair valid s =
    ap₂ (λ (l w : ℕ). normalize_encoder loop_fuel (record e { low = l; range = w }))
      (omega (arith, s.size_pos, s.inside, fair.inside, fair.range_lt))
      (omega (arith, s.inside, fair.range_lt))
encode_step-narrowed e (bit false size0) fair valid s =
    ap₂ (λ (l w : ℕ). normalize_encoder loop_fuel (record e { low = l; range = w })) (omega arith)
      (omega (arith, s.inside, fair.range_lt))
encode_step-narrowed e (bit true size0) fair valid s =
    let back : u32 (2 ^ 14 + 2 ^ 32 - size0) ≡ 2 ^ 14 - size0 = omega (arith, valid) in
    rw back (
      ap₂ (λ (l w : ℕ). normalize_encoder loop_fuel (record e { low = l; range = w }))
        (omega (arith, s.size_pos, s.inside, fair.inside, fair.range_lt))
        (omega (arith, s.inside, fair.range_lt)))
