-- ===== src/RangeCoder/Flush.antt =====
-- Ppmd7z_RangeEnc_FlushData writes all that the encoder stands for.
use pyppmd.Base.{ℕ, ◌+◌, ◌*◌, ◌^◌, ◌<◌, ◌≡◌, List, arith, length}
use pyppmd.RangeCoder.Enc.{RangeEnc, shift_low, flush_rounds, flush_data}
use pyppmd.RangeCoder.Value.{All, IsByte, pow256, value}
use pyppmd.RangeCoder.Shift.{
  total, low_value, IsReady, IsShifted, shift_low-IsShifted, shift_low-zero,
}

-- One more byte, at any width.
narrowest : {w : ℕ} {e : RangeEnc} → IsReady w e → IsReady 1 e
narrowest h = record {
  held = h.held;
  width = omega arith;
  cache_lt = h.cache_lt;
  low_le = omega (arith, h.width, h.low_le);
  room = omega (arith, h.width, h.room);
  few = h.few;
  bytes = h.bytes;
}

shifted-IsReady : {e q : RangeEnc} → IsShifted 1 e q → total q + 1 < 2 ^ 64 → IsReady 1 q
shifted-IsReady s few = record {
  held = s.held;
  width = omega arith;
  cache_lt = s.cache_lt;
  low_le = omega (arith, s.low_le);
  room = omega (arith, s.room);
  few = few;
  bytes = s.bytes;
}

-- What the stream holds after the flush.
pub record IsFlushed (e : RangeEnc) (out : List ℕ) : Type 0 where
  pub value_eq : value out ≡ low_value e
  pub count : length out ≡ total e + 4
  pub bytes : All IsByte out

low_value-clear :
    (e : RangeEnc)
    → e.cache_size ≡ 1
    → e.cache ≡ 0
    → e.low ≡ 0
    → low_value e ≡ value e.stream * 2 ^ 40
unfolding pow256
low_value-clear e one clear empty = simp (one, clear, empty) (omega arith)

pub flush_data-IsFlushed :
    {w : ℕ} {e : RangeEnc} → IsReady w e → total e + 6 < 2 ^ 64 → IsFlushed e (flush_data e).stream
unfolding flush_data pow256 flush_rounds
flush_data-IsFlushed {e} h few =
    let a = shift_low-IsShifted (narrowest h) (omega arith) in
    let b = shift_low-IsShifted (shifted-IsReady a (omega (arith, a.count))) (omega arith) in
    let c =
      shift_low-IsShifted (shifted-IsReady b (omega (arith, a.count, b.count))) (omega arith) in
    let d =
      shift_low-IsShifted (shifted-IsReady c (omega (arith, a.count, b.count, c.count)))
        (omega arith) in
    let f =
      shift_low-IsShifted (shifted-IsReady d (omega (arith, a.count, b.count, c.count, d.count)))
        (omega arith) in
    let empty : (shift_low (shift_low (shift_low (shift_low e)))).low ≡ 0 =
      omega (arith, a.low_eq, b.low_eq, c.low_eq, d.low_eq) in
    let (one, clear) = shift_low-zero _ empty in
    let out =
      low_value-clear (shift_low (shift_low (shift_low (shift_low (shift_low e))))) one clear
        (omega (arith, f.low_eq, empty)) in
    record {
      value_eq = omega (arith, a.value_eq, b.value_eq, c.value_eq, d.value_eq, f.value_eq, out);
      count = omega (arith, a.count, b.count, c.count, d.count, f.count, one);
      bytes = f.bytes;
    }
