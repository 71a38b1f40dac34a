-- ===== src/RangeCoder/Answers.antt =====
-- Where the number lies in the interval of a step, the decoder answers what was coded.
use pyppmd.Base.{
  ℕ, ◌+◌, ◌-◌, ◌*◌, ◌/◌, ◌^◌, ◌≤◌, ◌<◌, ◌≡◌, refl, true, false, some, List, arith, length, u32,
  lt→ltb, le→ltb, le→leb,
}
use mathlib.Core.Path.{ap, ap₂}
use native.Mathlib.Nat.{le-div_iff_mul-le, div-lt_iff_lt-mul}
use pyppmd.RangeCoder.Enc.{RangeEnc}
use pyppmd.RangeCoder.Dec.{RangeDec, normalize_dec, get_threshold, decode, decode_bit}
use pyppmd.RangeCoder.Value.{pow256}
use pyppmd.RangeCoder.Shift.{low_value}
use pyppmd.RangeCoder.Encodes.{
  IsRunning, narrow, narrow-IsNarrowed, share_le, share_enough, first_share,
}
use pyppmd.RangeCoder.Decodes.{IsSynced, read-lt, read-le}
use pyppmd.RangeCoder.Ops.{Op, interval, bit, IsOp, decode_op}

-- The decoder's state inside the interval of a step, before its range is brought back to the top.
unfoldable pub narrow_dec : Op → RangeDec → RangeDec
narrow_dec (interval start size total) d = record d {
  range = d.range / total * size;
  code = d.code - start * (d.range / total);
}
narrow_dec (bit false size0) d = record d { range = d.range / 2 ^ 14 * size0 }
narrow_dec (bit true size0) d = record d {
  range = d.range - d.range / 2 ^ 14 * size0;
  code = d.code - d.range / 2 ^ 14 * size0;
}

pub record IsAnswer (number : ℕ) (s rest : List ℕ) (op : Op) (e : RangeEnc) (d : RangeDec)
    : Type 0 where
  pub answers : decode_op op d ≡ some (normalize_dec (narrow_dec op d))
  pub synced : IsSynced number s rest (narrow op e) (narrow_dec op d)
  pub below : (narrow_dec op d).code < (narrow_dec op d).range

module _ {number : ℕ} {s rest : List ℕ} {e : RangeEnc} {d : RangeDec}
    (h : IsSynced number s rest e d) (running : IsRunning e) where
  -- A step up by `shift` of the encoder's low end is one down of the code.
  IsSynced-to :
      (shift width low : ℕ)
      → shift ≤ d.code
      → low ≡ e.low + shift
      → IsSynced number s rest
          (record e { low = low; range = width })
          (record d { range = width; code = d.code - shift })
  IsSynced-to shift width low below moved = record {
    range = refl;
    stream = h.stream;
    bytes = h.bytes;
    sum =
        let same : low_value (record e { low = low; range = width }) + (d.code - shift)
            ≡ low_value e + d.code =
          omega arith in
        rw same h.sum;
  }

  module _ (op : Op) (valid : IsOp op)
      (above : low_value (narrow op e) * pow256 (length s) ≤ number)
      (below : number < (low_value (narrow op e) + (narrow op e).range) * pow256 (length s)) where
    -- The code lies in the interval of the step.
    code_bounds :
        ((narrow op e).low ≤ e.low + d.code)
        × (e.low + d.code < (narrow op e).low + (narrow op e).range)
    code_bounds =
        let g = narrow-IsNarrowed running op valid in
        (omega (arith, read-le h _ above, g.value_eq), omega (arith, read-lt h _ below, g.value_eq))

  moved :
      {range range' code code' : ℕ}
      → range ≡ range'
      → code ≡ code'
      → some (normalize_dec (record d { range = range; code = code }))
        ≡ some (normalize_dec (record d { range = range'; code = code' }))
  moved = ap₂ (λ (r c : ℕ). some (normalize_dec (record d { range = r; code = c })))

  interval-IsAnswer :
      (start size total : ℕ)
      → IsOp (interval start size total)
      → start * (e.range / total) ≤ d.code
      → d.code < start * (e.range / total) + e.range / total * size
      → IsAnswer number s rest (interval start size total) e d
  unfolding narrow narrow_dec decode_op get_threshold decode
  interval-IsAnswer start size total (pos, fits, small) above below =
      let lt = running.range_lt in
      let share = share_le running start size total fits in
      let part : d.range / total ≡ e.range / total = ap (λ (n : ℕ). n / total) h.range in
      let some_part : 1 ≤ e.range / total =
        omega (arith, share_enough running 1 total (omega arith) (omega arith) small) in
      let from : start ≤ d.code / (e.range / total) = (le-div_iff_mul-le some_part).1 above in
      let to : d.code / (e.range / total) < start + size =
        (div-lt_iff_lt-mul some_part).1 (omega arith) in
      let range : u32 (e.range / total * size) ≡ e.range / total * size = omega arith in
      let bound : u32 (start * (e.range / total)) ≡ start * (e.range / total) = omega arith in
      let code : u32 (d.code + 2 ^ 32 - u32 (start * (e.range / total)))
          ≡ d.code - start * (e.range / total) =
        rw bound (omega arith) in
      record {
        answers = rw (part, le→leb _ _ from, lt→ltb _ _ to) (moved range code);
        synced = rw part (IsSynced-to _ _ _ above refl);
        below = rw part (omega arith);
      }

  first-IsAnswer :
      (size0 : ℕ)
      → IsOp (bit false size0)
      → d.code < e.range / 2 ^ 14 * size0
      → IsAnswer number s rest (bit false size0) e d
  unfolding narrow narrow_dec decode_op decode_bit
  first-IsAnswer size0 (pos, small) below =
      let lt = running.range_lt in
      let same = h.range in
      let (_, rest) = first_share running size0 pos small in
      let bound : u32 (e.range / 2 ^ 14 * size0) ≡ e.range / 2 ^ 14 * size0 = omega arith in
      record {
        answers = rw (same, bound, lt→ltb _ _ below) refl;
        synced = rw same (record { range = refl; stream = h.stream; bytes = h.bytes; sum = h.sum });
        below = rw same below;
      }

  second-IsAnswer :
      (size0 : ℕ)
      → IsOp (bit true size0)
      → e.range / 2 ^ 14 * size0 ≤ d.code
      → d.code < e.range
      → IsAnswer number s rest (bit true size0) e d
  unfolding narrow narrow_dec decode_op decode_bit
  second-IsAnswer size0 (pos, small) above below =
      let lt = running.range_lt in
      let same = h.range in
      let (_, rest) = first_share running size0 pos small in
      let bound : u32 (e.range / 2 ^ 14 * size0) ≡ e.range / 2 ^ 14 * size0 = omega arith in
      record {
        answers = rw (same, bound, le→ltb _ _ above) (moved (omega arith) (omega arith));
        synced = rw same (IsSynced-to _ _ _ above refl);
        below = rw same (omega arith);
      }

  -- Where the number lies in the interval of a step, the decoder answers it and stays in step.
  pub answer :
      (op : Op)
      → IsOp op
      → low_value (narrow op e) * pow256 (length s) ≤ number
      → number < (low_value (narrow op e) + (narrow op e).range) * pow256 (length s)
      → IsAnswer number s rest op e d
  unfolding narrow
  answer (interval start size total) valid above below =
      let (lo, hi) = code_bounds (interval start size total) valid above below in
      interval-IsAnswer start size total valid (omega arith) (omega arith)
  answer (bit false size0) valid above below =
      let (lo, hi) = code_bounds (bit false size0) valid above below in
      first-IsAnswer size0 valid (omega arith)
  answer (bit true size0) valid above below =
      let (lo, hi) = code_bounds (bit true size0) valid above below in
      let (_, rest) = first_share running size0 valid.0 valid.1 in
      second-IsAnswer size0 valid (omega arith) (omega arith)
