-- ===== src/Carryless/Normalize.antt =====
-- The normalising loops of encoder and decoder, round by round.
use pyppmd.Base.{
  ℕ, zero, suc, ◌+◌, ◌*◌, ◌/◌, ◌%◌, ◌^◌, ◌≤◌, ◌<◌, ◌≡◌, refl, ◌∙◌, sym, ap, none, some, [], ◌∷◌,
  ◌++◌, u8, u32, arith, inl, inr, ◌<<<◌, ◌>>>◌, Option-cases,
}
use mathlib.Core.Path.{ap₂}
use mathlib.Core.List.{append_assoc, append-nil}
use pyppmd.Carryless.Coder.{
  Encoder, Decoder, settle, put_byte, take_byte, normalize_encoder, normalize_decoder, loop_fuel,
}
use pyppmd.Carryless.Settle.{IsFair, IsPart, settle-IsSettled}
use pyppmd.Carryless.Followed.{IsFollowed}
use pyppmd.Carryless.Run.{part_lt, scaled-IsFair, IsFuture-back, take_byte-IsSynced}

-- Fewer than `fuel` rounds are needed.
abbrev IsEnding : (fuel low range : ℕ) → Type 0
IsEnding zero low range = 1 ≤ 0
IsEnding (suc fuel) low range =
    (part : ℕ) → IsPart low range part → IsEnding fuel (low % 2 ^ 24 * 256) (part * 256)

wide-IsEnding : (fuel low range : ℕ) → 2 ^ 24 ≤ range → IsEnding (suc fuel) low range
wide-IsEnding fuel low range wide part cut = elim cut.cut [
  | inl same ↦ absurd (omega (arith, same))
  | inr short ↦ absurd (omega (arith, short))
]

-- An interval that ends at 2 ^ 32 is only ever cut, and stays one that ends there.
module _ (low range : ℕ) (end : low + range ≡ 2 ^ 32) (pos : 1 ≤ range) where
  end-part :
      (part : ℕ)
      → IsPart low range part
      → (range < 2 ^ 15) × (low % 2 ^ 24 * 256 + part * 256 ≡ 2 ^ 32) × (part ≡ range)
  end-part part cut = elim cut.cut [
    | inl same ↦ absurd (omega (arith, same, end, pos))
    | inr short ↦ omega (arith, short, end, cut.le)
  ]

  end_1 : (fuel : ℕ) → 2 ^ 15 ≤ range → IsEnding (suc fuel) low range
  end_1 fuel wide part cut = absurd (omega (arith, end-part part cut, wide))

end_2 :
    (fuel low range : ℕ)
    → low + range ≡ 2 ^ 32
    → 2 ^ 8 ≤ range
    → IsEnding (suc (suc fuel)) low range
end_2 fuel low range end wide part cut =
    let (short, next, same) = end-part low range end (omega arith) part cut in
    end_1 (low % 2 ^ 24 * 256) (part * 256) next (omega arith) fuel (omega arith)

end_2-part :
    (fuel low range part : ℕ)
    → IsPart low range part
    → low % 2 ^ 24 + part ≡ 2 ^ 24
    → IsEnding (suc (suc fuel)) (low % 2 ^ 24 * 256) (part * 256)
end_2-part fuel low range part cut crossed =
    end_2 fuel (low % 2 ^ 24 * 256) (part * 256) (omega arith) (omega (arith, cut.pos))

wide_2 : (fuel low range : ℕ) → 2 ^ 16 ≤ range → IsEnding (suc (suc fuel)) low range
wide_2 fuel low range wide part cut = elim cut.cut [
  | inl (same, _) ↦ wide-IsEnding fuel _ (part * 256) (omega (arith, same))
  | inr short ↦ absurd (omega (arith, short))
]

wide_3 : (fuel low range : ℕ) → 2 ^ 8 ≤ range → IsEnding (suc (suc (suc fuel))) low range
wide_3 fuel low range wide part cut = elim cut.cut [
  | inl (same, _) ↦ wide_2 fuel _ (part * 256) (omega (arith, same))
  | inr (_, crossed) ↦ end_2-part fuel low range part cut crossed
]

-- From a range above 0, four rounds are enough.
loop-IsEnding : (low range : ℕ) → IsEnding loop_fuel low range
loop-IsEnding low range part cut = elim cut.cut [
  | inl (same, _) ↦ wide_3 1 _ (part * 256) (omega (arith, cut.pos))
  | inr (_, crossed) ↦ end_2-part 2 low range part cut crossed
]

-- The rounds of both loops, as equations.
normalize_encoder-stop :
    (fuel : ℕ) (p : Encoder) → settle p.low p.range ≡ none → normalize_encoder (suc fuel) p ≡ some p
unfolding normalize_encoder
normalize_encoder-stop fuel p stop = rw (normalize_encoder, stop) refl

normalize_encoder-move :
    (fuel : ℕ) (p : Encoder) {part : ℕ}
    → settle p.low p.range ≡ some part
    → normalize_encoder (suc fuel) p ≡ normalize_encoder fuel (put_byte p part)
unfolding normalize_encoder
normalize_encoder-move fuel p move = rw (normalize_encoder, move) refl

normalize_decoder-stop :
    (fuel : ℕ) (d : Decoder) → settle d.low d.range ≡ none → normalize_decoder (suc fuel) d ≡ some d
unfolding normalize_decoder
normalize_decoder-stop fuel d stop = rw (normalize_decoder, stop) refl

normalize_decoder-move :
    (fuel : ℕ) (d : Decoder) {part : ℕ}
    → settle d.low d.range ≡ some part
    → normalize_decoder (suc fuel) d ≡ normalize_decoder fuel (take_byte d part)
unfolding normalize_decoder
normalize_decoder-move fuel d move = rw (normalize_decoder, move) refl

-- The decoder's loop follows the encoder's.
abbrev pub IsRun : (fuel : ℕ) → Encoder → Type 0
IsRun fuel p = IsFollowed (normalize_encoder fuel) (normalize_decoder fuel) p

module _ (fuel : ℕ) (p : Encoder) (fair : IsFair p.low p.range) where
  stop-IsRun : settle p.low p.range ≡ none → 2 ^ 15 ≤ p.range → IsRun (suc fuel) p
  stop-IsRun stop wide = record {
    last = p;
    done = normalize_encoder-stop fuel p stop;
    fair = fair;
    wide = wide;
    written = [];
    stream = sym (append-nil p.stream);
    back = λ t u e f. record {
      b0 = f.b0;
      b1 = f.b1;
      b2 = f.b2;
      b3 = f.b3;
      rest = f.rest;
      shape = e ∙ f.shape;
      bytes = f.bytes;
      above = f.above;
      below = f.below;
    };
    follow = λ t u e f d s. (
      d,
      normalize_decoder-stop fuel d (ap₂ settle s.low_eq s.range_eq ∙ stop),
      record { low_eq = s.low_eq; range_eq = s.range_eq; code_eq = s.code_eq; stream = s.stream },
    );
  }

  module _ (part : ℕ) (cut : IsPart p.low p.range part) where
    abbrev moved : Encoder
    moved = record {
      low = p.low % 2 ^ 24 * 256;
      range = part * 256;
      stream = p.stream ++ p.low / 2 ^ 24 ∷ [];
    }

    put_byte-moved : put_byte p part ≡ moved
    unfolding put_byte
    put_byte-moved =
        let low : u32 (p.low <<< 8) ≡ p.low % 2 ^ 24 * 256 = omega arith in
        let range : u32 (part <<< 8) ≡ part * 256 =
          omega (arith, part_lt p.low p.range part fair cut) in
        let top : u8 (p.low >>> 24) ≡ p.low / 2 ^ 24 = omega (arith, fair.low_lt) in
        rw (low, range, top) refl

    move-IsRun : settle p.low p.range ≡ some part → IsRun fuel moved → IsRun (suc fuel) p
    move-IsRun move run = record {
      last = run.last;
      done =
          normalize_encoder-move fuel p move
          ∙ ap (normalize_encoder fuel) put_byte-moved
          ∙ run.done;
      fair = run.fair;
      wide = run.wide;
      written = p.low / 2 ^ 24 ∷ run.written;
      stream = run.stream ∙ append_assoc p.stream (p.low / 2 ^ 24 ∷ []) run.written;
      back = λ t u e f.
          IsFuture-back p.low p.range part fair cut (run.written ++ t) u e
            (run.back t (run.written ++ t) refl f);
      follow = λ t u e f d s.
          let next =
            take_byte-IsSynced p.low p.range part fair cut (run.written ++ t) u e
              (run.back t (run.written ++ t) refl f) d s in
          let (d', done, synced) = run.follow t (run.written ++ t) refl f (take_byte d part) next in
          (
            d',
            normalize_decoder-move fuel d (ap₂ settle s.low_eq s.range_eq ∙ move) ∙ done,
            synced,
          );
    }

normalize-IsRun :
    (fuel : ℕ) (p : Encoder) → IsFair p.low p.range → IsEnding fuel p.low p.range → IsRun fuel p
normalize-IsRun zero p fair ending = absurd (omega arith)
normalize-IsRun (suc fuel) p fair ending =
    let settled = settle-IsSettled p.low p.range fair in
    elim (Option-cases (settle p.low p.range)) [
      | inl stop ↦ stop-IsRun fuel p fair stop (rw stop at settled)
      | inr (part, move) ↦
          let cut : IsPart p.low p.range part = (rw move at settled) in
          move-IsRun fuel p fair part cut move (
            normalize-IsRun fuel (moved fuel p fair part cut)
              (scaled-IsFair p.low p.range part fair cut) (ending part cut))
    ]

-- From a state whose interval lies below 2 ^ 32, and has a top byte above 0 where it ends there, the
-- encoder's normalising loop ends within its five rounds of fuel; it leaves a state of that kind
-- whose range is at least 2 ^ 15. For whatever bytes follow that belong to the new state, the bytes
-- that were written belong before them, and a decoder in the old state that has read the first four
-- ends its loop as well, in the encoder's new state.
pub normalize-loop : (p : Encoder) → IsFair p.low p.range → IsRun loop_fuel p
normalize-loop p fair = normalize-IsRun loop_fuel p fair (loop-IsEnding p.low p.range)
