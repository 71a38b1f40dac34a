-- ===== src/Carryless/Answer.antt =====
-- The decoder answers a step, where its code lies in the interval of the step, and follows.
use pyppmd.Base.{
  ℕ, ◌+◌, ◌-◌, ◌*◌, ◌/◌, ◌^◌, ◌≤◌, ◌<◌, ◌≡◌, refl, ◌∙◌, ap, true, false, List, u32, arith, lt→ltb,
  le→ltb, le→leb,
}
use native.Mathlib.Nat.{le-div_iff_mul-le, div-lt_iff_lt-mul}
use pyppmd.RangeCoder.Ops.{Op, interval, bit}
use pyppmd.Carryless.Coder.{
  Encoder, Decoder, normalize_decoder, loop_fuel, range_threshold, range_decode,
}
use pyppmd.Carryless.Settle.{IsFair}
use pyppmd.Carryless.Run.{IsFuture, IsSynced}
use pyppmd.Carryless.Followed.{IsFollowed}
use pyppmd.Carryless.Normalize.{IsRun, normalize-loop}
use pyppmd.Carryless.Ops.{IsStep, encode_step, decode_step, bit_threshold}
use pyppmd.Carryless.Narrow.{
  start_of, size_of, total_of, narrowed_dec, IsShared, shared, target, target-IsFair,
  encode_step-narrowed,
}

-- The code lies in the interval of the step.
record IsInside (d : Decoder) (start size total : ℕ) : Type 0 where
  pub ge : start * (d.range / total) ≤ d.code
  pub lt : d.code < start * (d.range / total) + d.range / total * size

module _ (d : Decoder) (low_lt : d.low < 2 ^ 32) (inside : d.low + d.range ≤ 2 ^ 32) where
  range_decode-narrowed :
      (start size total : ℕ)
      → IsShared d.range start size total
      → IsInside d start size total
      → d.range < 2 ^ 32
      → range_decode (record d { range = d.range / total }) start size
        ≡ normalize_decoder loop_fuel (narrowed_dec d (d.range / total) start size)
  unfolding range_decode
  range_decode-narrowed start size total s h range_lt =
      let below : u32 (start * (d.range / total)) ≡ start * (d.range / total) =
        omega (arith, s.inside, range_lt) in
      let low : u32 (d.low + start * (d.range / total)) ≡ d.low + start * (d.range / total) =
        omega (arith, s.inside, s.size_pos, inside) in
      let code : u32 (d.code + 2 ^ 32 - start * (d.range / total))
          ≡ d.code - start * (d.range / total) =
        omega (arith, h.ge, h.lt, s.inside, range_lt) in
      let range : u32 (d.range / total * size) ≡ d.range / total * size =
        omega (arith, s.inside, range_lt) in
      rw (below, low, code, range) refl

  threshold-bounds :
      (start size total : ℕ)
      → IsShared d.range start size total
      → IsInside d start size total
      → (start ≤ d.code / (d.range / total)) × (d.code / (d.range / total) < start + size)
  threshold-bounds start size total s h =
      ((le-div_iff_mul-le s.pos).1 h.ge, (div-lt_iff_lt-mul s.pos).1 (omega (arith, h.lt)))

  decode_step-narrowed :
      (op : Op)
      → IsStep op
      → IsShared d.range (start_of op) (size_of op) (total_of op)
      → IsInside d (start_of op) (size_of op) (total_of op)
      → d.range < 2 ^ 32
      → decode_step op d
        ≡ normalize_decoder loop_fuel
            (narrowed_dec d (d.range / total_of op) (start_of op) (size_of op))
  unfolding decode_step range_threshold bit_threshold
  decode_step-narrowed (interval start size total) valid s h range_lt =
      let (from, to) = threshold-bounds start size total s h in
      rw (le→leb _ _ from, lt→ltb _ _ to) (range_decode-narrowed start size total s h range_lt)
  decode_step-narrowed (bit false size0) valid s h range_lt =
      let (from, to) = threshold-bounds 0 size0 (2 ^ 14) s h in
      rw (lt→ltb (d.code / (d.range / 2 ^ 14)) size0 (omega (arith, to)))
        (range_decode-narrowed 0 size0 (2 ^ 14) s h range_lt)
  decode_step-narrowed (bit true size0) valid s h range_lt =
      let (from, to) = threshold-bounds size0 (2 ^ 14 - size0) (2 ^ 14) s h in
      let back : u32 (2 ^ 14 + 2 ^ 32 - size0) ≡ 2 ^ 14 - size0 = omega (arith, valid) in
      rw (le→ltb _ _ from, back)
        (range_decode-narrowed size0 (2 ^ 14 - size0) (2 ^ 14) s h range_lt)

-- The interval of a step lies in the one before it.
abbrev widen :
    {low range low' range' : ℕ} (t : List ℕ)
    → low ≤ low'
    → low' + range' ≤ low + range
    → IsFuture low' range' t
    → IsFuture low range t
widen t lower upper f = record {
  b0 = f.b0;
  b1 = f.b1;
  b2 = f.b2;
  b3 = f.b3;
  rest = f.rest;
  shape = f.shape;
  bytes = f.bytes;
  above = omega (arith, lower, f.above);
  below = omega (arith, upper, f.below);
}

module _ (e : Encoder) (fair : IsFair e.low e.range) (wide : 2 ^ 15 ≤ e.range) (op : Op)
    (valid : IsStep op) where
  abbrev goal : Encoder
  goal = target e fair wide op valid

  goal-IsRun : IsRun loop_fuel goal
  goal-IsRun = normalize-loop goal (target-IsFair e fair wide op valid)

  abbrev before : (t : List ℕ) → IsFuture goal.low goal.range t → IsFuture e.low e.range t
  before t f = widen t (omega arith) (omega (arith, (shared e fair wide op valid).inside)) f

  -- The decoder takes the same step.
  step_down :
      (t : List ℕ) (f : IsFuture goal.low goal.range t) (d : Decoder)
      → IsSynced (before t f) d
      → (decode_step op d
          ≡ normalize_decoder loop_fuel
              (narrowed_dec d (e.range / total_of op) (start_of op) (size_of op)))
        × IsSynced f (narrowed_dec d (e.range / total_of op) (start_of op) (size_of op))
  step_down t f d s =
      let sh = shared e fair wide op valid in
      let range = s.range_eq in
      let low = s.low_eq in
      let shared_d : IsShared d.range (start_of op) (size_of op) (total_of op) = rw range sh in
      let ge : start_of op * (e.range / total_of op) ≤ d.code = omega (arith, s.code_eq, f.above) in
      let lt : d.code < start_of op * (e.range / total_of op) + e.range / total_of op * size_of op =
        omega (arith, s.code_eq, f.below) in
      let h : IsInside d (start_of op) (size_of op) (total_of op) =
        rw range (record { ge = ge; lt = lt }) in
      (
        decode_step-narrowed d (omega (arith, low, fair.low_lt))
              (omega (arith, low, range, fair.inside)) op valid shared_d h
              (omega (arith, range, fair.range_lt))
            ∙ ap
                (λ (r : ℕ).
                  normalize_decoder loop_fuel
                    (narrowed_dec d (r / total_of op) (start_of op) (size_of op)))
                range,
        record {
          low_eq = omega (arith, low);
          range_eq = refl;
          code_eq = omega (arith, s.code_eq, ge);
          stream = s.stream;
        },
      )

  -- From a state that can code, each valid step of the encoder ends, leaves such a state, and is
  -- followed by the decoder.
  pub encode_step-IsFollowed : IsFollowed (encode_step op) (decode_step op) e
  encode_step-IsFollowed =
      let run = goal-IsRun in
      record {
        last = run.last;
        done = encode_step-narrowed e op fair valid (shared e fair wide op valid) ∙ run.done;
        fair = run.fair;
        wide = run.wide;
        written = run.written;
        stream = run.stream;
        back = λ t u same f. before u (run.back t u same f);
        follow = λ t u same f d s.
            let (first, middle) = step_down u (run.back t u same f) d s in
            let (d', next, end) = run.follow t u same f _ middle in (d', first ∙ next, end);
      }
