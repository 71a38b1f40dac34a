-- ===== src/RangeCoder/Decodes.antt =====
-- The decoder follows the encoder: what it has read, less what the encoder stands at, is its code.
use pyppmd.Base.{
  ℕ, ◌+◌, ◌*◌, ◌^◌, ◌≤◌, ◌<◌, ◌≡◌, refl, List, [], ◌∷◌, ◌++◌, arith, length, u32, ◌<<<◌, lt→ltb,
  le→ltb, inl, inr,
}
use pyppmd.Base.Bits.{bit_or-byte}
use mathlib.Core.Path.{ap}
use native.Mathlib.Nat.{lt_of_mul-lt-mul_right, mul-le-mul_right}
use pyppmd.RangeCoder.Enc.{RangeEnc}
use pyppmd.RangeCoder.Dec.{RangeDec, read, read_code, renew, normalize_dec}
use pyppmd.RangeCoder.Value.{All, IsByte, pow256, value}
use pyppmd.RangeCoder.Shift.{total, low_value, IsReady}
use pyppmd.RangeCoder.Narrow.{
  IsScaled, renew_enc, rounds_of, scale, once, twice, rounds_cases, rounds_two, rounds_one,
  rounds_zero,
}

-- `s` is what is left of the encoder's bytes, `rest` what follows them, and `number` what all of the
-- encoder's bytes stand for.
pub record IsSynced (number : ℕ) (s rest : List ℕ) (e : RangeEnc) (d : RangeDec) : Type 0 where
  pub range : d.range ≡ e.range
  pub stream : d.stream ≡ s ++ rest
  pub bytes : All IsByte s
  pub sum : (low_value e + d.code) * pow256 (length s) + value s ≡ number

pub value-lt : (s : List ℕ) → All IsByte s → value s < pow256 (length s)
unfolding value pow256
value-lt [] h = omega arith
value-lt (b ∷ s) (h, r) = omega (arith, value-lt s r, mul-le-mul_right (pow256 (length s)) h)

-- Bounds of the number are bounds of what the decoder has read.
module _ {number : ℕ} {s rest : List ℕ} {e : RangeEnc} {d : RangeDec}
    (h : IsSynced number s rest e d) (n : ℕ) where
  pub read-lt : number < n * pow256 (length s) → low_value e + d.code < n
  read-lt inside = lt_of_mul-lt-mul_right (pow256 (length s)) (omega (arith, h.sum))

  pub read-le : n * pow256 (length s) ≤ number → n ≤ low_value e + d.code
  read-le above =
      let below : n < low_value e + d.code + 1 =
        lt_of_mul-lt-mul_right (pow256 (length s)) (omega (arith, h.sum, value-lt s h.bytes)) in
      omega arith

-- What one round of the decoder's loop makes of the state.
abbrev renewed : RangeDec → ℕ → List ℕ → RangeDec
renewed d b t = record { range = d.range * 256; code = d.code * 256 + b; stream = t }

renew_lem :
    (d : RangeDec) (b : ℕ) (t : List ℕ)
    → d.stream ≡ b ∷ t
    → b < 256
    → d.range < 2 ^ 24
    → d.code < d.range
    → renew d ≡ renewed d b t
unfolding renew read_code read
renew_lem d b t e byte small below =
    let code : u32 (d.code <<< 8) ≡ d.code * 256 = omega arith in
    let range : u32 (d.range <<< 8) ≡ d.range * 256 = omega arith in
    rw (e, code, range, bit_or-byte d.code b byte) refl

renewed-IsSynced :
    {number b : ℕ} {s rest : List ℕ} {e g : RangeEnc} {d : RangeDec}
    → IsSynced number (b ∷ s) rest e d
    → IsScaled 1 e g
    → IsSynced number s rest g (renewed d b (s ++ rest))
unfolding value pow256
renewed-IsSynced {number} {b} {s} {g} {d} h k = record {
  range = omega (arith, h.range, k.range);
  stream = refl;
  bytes = h.bytes.1;
  sum = sum;
}
  where
    sum : (low_value g + (d.code * 256 + b)) * pow256 (length s) + value s ≡ number
    sum = omega (arith, h.sum, ap (λ (t : ℕ). t * pow256 (length s)) k.value_eq)

-- One round of both loops.
renew-IsSynced :
    (s : List ℕ) {number : ℕ} {rest : List ℕ} {e g : RangeEnc} {d : RangeDec}
    → IsSynced number s rest e d
    → IsScaled 1 e g
    → e.range < 2 ^ 24
    → d.code < d.range
    → 1 ≤ length s
    → (t : List ℕ) × IsSynced number t rest g (renew d)
      × (length s ≡ length t + 1)
      × ((renew d).code < (renew d).range)
renew-IsSynced [] h k small below more = absurd (omega arith)
renew-IsSynced (b ∷ s) {rest} {d} h k small below more =
    let same = renew_lem d b (s ++ rest) h.stream h.bytes.0 (omega (arith, h.range)) below in
    rw same (s, renewed-IsSynced h k, omega arith, omega (arith, h.bytes.0))

pub normalize_dec-IsSynced :
    (s : List ℕ) {number : ℕ} {rest : List ℕ} {e : RangeEnc} {d : RangeDec}
    → IsSynced number s rest e d
    → IsReady e.range e
    → total e + 4 < 2 ^ 64
    → 2 ^ 8 ≤ e.range
    → d.code < d.range
    → rounds_of e.range ≤ length s
    → (t : List ℕ) × IsSynced number t rest (scale e.range e) (normalize_dec d)
      × (length s ≡ length t + rounds_of e.range)
unfolding normalize_dec
normalize_dec-IsSynced s {e} {d} h ready few enough below more = elim (rounds_cases e.range) [
  | inl p ↦
      let (rounds, scaled) = rounds_two e.range e p in
      let first = once e ready few (omega arith) in
      let second = twice e ready few p in
      let two : 2 ≤ length s = rw rounds at more in
      let (t, synced, shorter, below') =
        renew-IsSynced s h first (omega arith) below (omega arith) in
      let mid : (renew_enc e).range ≡ 256 * e.range = unfold pow256 in omega (arith, first.range) in
      let (t', synced', shorter', _) =
        renew-IsSynced t synced second (omega arith) below' (omega (arith, shorter)) in
      rw
        (
          rounds,
          scaled,
          lt→ltb d.range (2 ^ 24) (omega (arith, h.range)),
          lt→ltb (renew d).range (2 ^ 24) (omega (arith, synced.range)),
        )
        (t', synced', omega (arith, shorter, shorter'))
  | inr (inl (p, q)) ↦
      let (rounds, scaled) = rounds_one e.range e p q in
      let first = once e ready few q in
      let one : 1 ≤ length s = rw rounds at more in
      let mid : (renew_enc e).range ≡ 256 * e.range = unfold pow256 in omega (arith, first.range) in
      let (t, synced, shorter, _) = renew-IsSynced s h first q below one in
      rw
        (
          rounds,
          scaled,
          lt→ltb d.range (2 ^ 24) (omega (arith, h.range)),
          le→ltb (renew d).range (2 ^ 24) (omega (arith, synced.range)),
        )
        (t, synced, shorter)
  | inr (inr p) ↦
      rw
        (
          (rounds_zero e.range e p).0,
          (rounds_zero e.range e p).1,
          le→ltb d.range (2 ^ 24) (omega (arith, h.range)),
        )
        (s, h, omega arith)
]
