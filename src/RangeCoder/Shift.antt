-- ===== src/RangeCoder/Shift.antt =====
-- RangeEnc_ShiftLow multiplies the number that the encoder stands for by 256, whether it writes the
-- cache out, adds a carry to what it held back, or holds back one more byte.
use pyppmd.Base.{
  ℕ, zero, suc, sym, ◌+◌, ◌-◌, ◌*◌, ◌/◌, ◌%◌, ◌^◌, ◌≤◌, ◌<◌, ◌≡◌, refl, List, ◌++◌, arith, length,
  length-append, Bool, true, false, not, ◌||◌, ltb, ◌==◌, u32, ◌>>>◌,
}
use mathlib.Core.Path.{subst}
use native.Mathlib.Decide.{dec_lt}
use native.Mathlib.Nat.{lt_of_mul-lt-mul_right}
use pyppmd.RangeCoder.Enc.{RangeEnc, pending, rounds, shift_low}
use pyppmd.RangeCoder.Value.{
  All, IsByte, All-append, pending-IsByte, pow256, pow256_pos, value, value-append, length-pending,
  value-pending,
}

-- The bytes written and held back.
abbrev pub total : RangeEnc → ℕ
total e = length e.stream + e.cache_size

-- The bytes written, the cache, the run of 0xFF held back and `low`, as one number.
abbrev pub low_value : RangeEnc → ℕ
low_value e =
    let p = pow256 (e.cache_size - 1) in
    ((value e.stream * 256 + e.cache) * p + (p - 1)) * 2 ^ 32 + e.low

-- The interval of width `w` above `low` leaves room for each carry.
pub record IsReady (w : ℕ) (e : RangeEnc) : Type 0 where
  pub held : 1 ≤ e.cache_size
  pub width : 1 ≤ w
  pub cache_lt : e.cache < 256
  pub low_le : e.low + w ≤ 2 ^ 33
  pub room :
      (e.cache * pow256 (e.cache_size - 1) + pow256 (e.cache_size - 1)) * 2 ^ 32 + e.low + w
      ≤ 256 * pow256 (e.cache_size - 1) * 2 ^ 32 + 2 ^ 32
  pub few : total e + 1 < 2 ^ 64
  pub bytes : All IsByte e.stream

pub record IsShifted (w : ℕ) (e q : RangeEnc) : Type 0 where
  pub held : 1 ≤ q.cache_size
  pub cache_lt : q.cache < 256
  pub low_le : q.low + 256 * w ≤ 2 ^ 33
  pub room :
      (q.cache * pow256 (q.cache_size - 1) + pow256 (q.cache_size - 1)) * 2 ^ 32 + q.low + 256 * w
      ≤ 256 * pow256 (q.cache_size - 1) * 2 ^ 32 + 2 ^ 32
  pub value_eq : low_value q ≡ 256 * low_value e
  pub count : total q ≡ total e + 1
  pub range : q.range ≡ e.range
  pub low_eq : q.low ≡ e.low % 2 ^ 24 * 256
  pub bytes : All IsByte q.stream

module _ (low range cache c : ℕ) (stream : List ℕ) where
  abbrev start : RangeEnc
  start = record { low = low; range = range; cache = cache; cache_size = suc c; stream = stream }

  abbrev flushed : ℕ → RangeEnc
  flushed carry = record {
    low = low % 2 ^ 24 * 256;
    range = range;
    cache = low % 2 ^ 32 / 2 ^ 24;
    cache_size = 1;
    stream = stream ++ pending (suc c) cache carry;
  }

  abbrev kept : RangeEnc
  kept = record {
    low = low % 2 ^ 24 * 256;
    range = range;
    cache = cache;
    cache_size = suc c + 1;
    stream = stream;
  }

  tests : Bool
  tests = ltb (u32 low) 0xFF00_0000 || not (u32 (low >>> 32) == 0)

  rounds_lem : rounds (suc c) ≡ suc c
  unfolding rounds
  rounds_lem = ground arith

  shift_low-flushed :
      (carry : ℕ)
      → low / 2 ^ 32 ≡ carry
      → carry ≤ 1
      → tests ≡ true
      → shift_low start ≡ flushed carry
  unfolding shift_low tests
  shift_low-flushed carry e h t =
      let byte : low / 2 ^ 32 % 2 ^ 8 ≡ carry = omega arith in
      rw (t, byte, rounds_lem) (ground arith)

  shift_low-kept : suc c + 1 < 2 ^ 64 → tests ≡ false → shift_low start ≡ kept
  unfolding shift_low tests
  shift_low-kept h t = rw t (ground arith)

  pred_suc : (n : ℕ) → suc n - 1 ≡ n
  pred_suc n = omega arith

  flushed_value :
      (carry : ℕ)
      → low / 2 ^ 32 ≡ carry
      → carry ≤ 1
      → cache + carry < 256
      → low_value (flushed carry) ≡ 256 * low_value start
  unfolding pow256
  flushed_value carry e one fits =
      rw
        (
          value-append stream (pending (suc c) cache carry),
          length-pending (suc c) cache carry,
          pred_suc c,
        )
        (omega (arith, value-pending c cache carry one fits, pow256_pos c, split))
    where
      split : low ≡ carry * 2 ^ 32 + low % 2 ^ 32
      split = omega arith

  kept_value :
      low / 2 ^ 32 ≡ 0 → 0xFF00_0000 ≤ low % 2 ^ 32 → low_value kept ≡ 256 * low_value start
  unfolding pow256
  kept_value e high = rw (pred_suc c, held) (omega (arith, pow256_pos c, split))
    where
      held : suc c + 1 - 1 ≡ suc c
      held = omega arith

      split : low ≡ 0xFF00_0000 + low % 2 ^ 24
      split = omega arith

  module _ (w : ℕ) (h : IsReady w start) where
    flushed-IsShifted :
        (carry : ℕ)
        → low / 2 ^ 32 ≡ carry
        → carry ≤ 1
        → cache + carry < 256
        → low % 2 ^ 32 + w ≤ 2 ^ 32
        → w ≤ 2 ^ 24
        → IsShifted w start (flushed carry)
    unfolding pow256
    flushed-IsShifted carry e one room fits small = record {
      held = omega arith;
      cache_lt = omega arith;
      low_le = omega arith;
      room = omega arith;
      value_eq = flushed_value carry e one room;
      count =
          rw
            (length-append stream (pending (suc c) cache carry), length-pending (suc c) cache carry)
            (omega arith);
      range = refl;
      low_eq = refl;
      bytes = All-append stream _ h.bytes (pending-IsByte (suc c) cache carry);
    }

    kept-IsShifted :
        low / 2 ^ 32 ≡ 0 → 0xFF00_0000 ≤ low % 2 ^ 32 → w ≤ 2 ^ 24 → IsShifted w start kept
    unfolding pow256
    kept-IsShifted e high small = record {
      held = omega arith;
      cache_lt = h.cache_lt;
      low_le = omega arith;
      room = kept_room;
      value_eq = kept_value e high;
      count = omega arith;
      range = refl;
      low_eq = refl;
      bytes = h.bytes;
    }
      where
        held : suc c + 1 - 1 ≡ suc c
        held = omega arith

        before : (cache * pow256 c + pow256 c) * 2 ^ 32 + low + w ≤ 256 * pow256 c * 2 ^ 32 + 2 ^ 32
        before = rw (pred_suc c) at h.room

        split : low ≡ 0xFF00_0000 + low % 2 ^ 24
        split = omega arith

        kept_room :
            (cache * pow256 (suc c + 1 - 1) + pow256 (suc c + 1 - 1)) * 2 ^ 32
              + low % 2 ^ 24 * 256
              + 256 * w
            ≤ 256 * pow256 (suc c + 1 - 1) * 2 ^ 32 + 2 ^ 32
        kept_room = rw held (omega (arith, before, split))

    spare : 2 ^ 32 ≤ low → cache + 1 < 256
    spare carry = lt_of_mul-lt-mul_right (pow256 c) (omega (arith, before))
      where
        before : (cache * pow256 c + pow256 c) * 2 ^ 32 + low + w ≤ 256 * pow256 c * 2 ^ 32 + 2 ^ 32
        before = rw (pred_suc c) at h.room

    start-IsShifted : w ≤ 2 ^ 24 → IsShifted w start (shift_low start)
    unfolding tests
    start-IsShifted small = elim (dec_lt low 0xFF00_0000) [
      | yes p ↦
          rw (shift_low-flushed 0 (omega arith) (omega arith) (ground arith))
            (flushed-IsShifted 0 (omega arith) (omega arith) (omega arith) (omega arith) small)
      | no p ↦ elim (dec_lt low (2 ^ 32)) [
        | yes q ↦
            rw (shift_low-kept (omega arith) (ground arith))
              (kept-IsShifted (omega arith) (omega arith) small)
        | no q ↦ rw (shift_low-flushed 1 (omega arith) (omega arith) (ground arith)) (
            flushed-IsShifted 1 (omega arith) (omega arith) (spare (omega arith)) (omega arith)
              small)
      ]
    ]

shift_low_of_size :
    (w : ℕ) (e : RangeEnc) (n : ℕ)
    → e.cache_size ≡ n
    → IsReady w e
    → w ≤ 2 ^ 24
    → IsShifted w e (shift_low e)
shift_low_of_size w e zero size h small = absurd (omega arith)
shift_low_of_size w e (suc c) size h small =
    subst (λ (r : RangeEnc). IsShifted w r (shift_low r)) same
      (start-IsShifted e.low e.range e.cache c e.stream w (subst (IsReady w) (sym same) h) small)
  where
    same : start e.low e.range e.cache c e.stream ≡ e
    same = λ i. record {
      low = e.low;
      range = e.range;
      cache = e.cache;
      cache_size = sym size i;
      stream = e.stream;
    }

-- On a ready state RangeEnc_ShiftLow multiplies the number by 256, counts one byte more and keeps
-- the range.
pub shift_low-IsShifted :
    {w : ℕ} {e : RangeEnc} → IsReady w e → w ≤ 2 ^ 24 → IsShifted w e (shift_low e)
shift_low-IsShifted {w} {e} = shift_low_of_size w e e.cache_size refl

-- With `low` at 0 the cache is written out, and a cache of 0 takes its place.
pub shift_low-zero :
    (e : RangeEnc) → e.low ≡ 0 → ((shift_low e).cache_size ≡ 1) × ((shift_low e).cache ≡ 0)
unfolding shift_low
shift_low-zero e h = rw h (refl, refl)
