-- ===== src/RangeCoder/Narrow.antt =====
-- The encoder's operations narrow the interval of numbers that starts at `low_value` and has the
-- width `range`, and then scale it by 256 until the range is at the top again.
use pyppmd.Base.{
  ℕ, ◌+◌, ◌*◌, ◌^◌, ◌≤◌, ◌<◌, ◌≡◌, refl, ◌⊎◌, inl, inr, some, arith, ltb, lt→ltb, le→ltb,
  if◌then◌else◌, u32, ◌<<<◌, sym,
}
use mathlib.Core.Path.{subst}
use pyppmd.RangeCoder.Enc.{RangeEnc, shift_low, normalize_enc, enc_fuel}
use pyppmd.RangeCoder.Value.{pow256}
use pyppmd.RangeCoder.Shift.{total, low_value, IsReady, IsShifted, shift_low-IsShifted}

-- One round of the normalising loop.
abbrev pub renew_enc : RangeEnc → RangeEnc
renew_enc e = shift_low (record e { range = u32 (e.range <<< 8) })

-- `f` is `e` scaled `k` times.
pub record IsScaled (k : ℕ) (e f : RangeEnc) : Type 0 where
  pub ready : IsReady f.range f
  pub range : f.range ≡ pow256 k * e.range
  pub value_eq : low_value f ≡ pow256 k * low_value e
  pub count : total f ≡ total e + k

IsReady-width : {v w : ℕ} {e : RangeEnc} → w ≡ v → IsReady v e → IsReady w e
IsReady-width {e} same h = subst (λ n. IsReady n e) (sym same) h

IsScaled-none : (e : RangeEnc) → IsReady e.range e → IsScaled 0 e e
unfolding pow256
IsScaled-none e h = record {
  ready = h;
  range = omega arith;
  value_eq = omega arith;
  count = omega arith;
}

module _ {e : RangeEnc} (h : IsReady e.range e) (few : total e + 2 < 2 ^ 64) where
  abbrev wide : RangeEnc
  wide = record e { range = u32 (e.range <<< 8) }

  shifted : e.range < 2 ^ 24 → IsShifted e.range wide (renew_enc e)
  shifted small =
      shift_low-IsShifted
        (record {
          held = h.held;
          width = h.width;
          cache_lt = h.cache_lt;
          low_le = h.low_le;
          room = h.room;
          few = h.few;
          bytes = h.bytes;
        })
        (omega arith)

  pub renew_enc-IsScaled : e.range < 2 ^ 24 → IsScaled 1 e (renew_enc e)
  unfolding pow256
  renew_enc-IsScaled small =
      let s = shifted small in
      let range : (renew_enc e).range ≡ 256 * e.range = omega (arith, s.range) in
      record {
        ready = IsReady-width range (record {
          held = s.held;
          width = omega arith;
          cache_lt = s.cache_lt;
          low_le = s.low_le;
          room = s.room;
          few = omega (arith, s.count);
          bytes = s.bytes;
        });
        range = omega arith;
        value_eq = omega (arith, s.value_eq);
        count = s.count;
      }

IsScaled-again : {e g f : RangeEnc} → IsScaled 1 e g → IsScaled 1 g f → IsScaled 2 e f
unfolding pow256
IsScaled-again a b = record {
  ready = b.ready;
  range = omega (arith, a.range, b.range);
  value_eq = omega (arith, a.value_eq, b.value_eq);
  count = omega (arith, a.count, b.count);
}

-- The rounds that a range needs, and what they do.
pub rounds_of : ℕ → ℕ
rounds_of range = if ltb range (2 ^ 16) then 2 else if ltb range (2 ^ 24) then 1 else 0

pub rounds_of-le : (n : ℕ) → rounds_of n ≤ 2
unfolding rounds_of
rounds_of-le n = ground arith

pub scale : ℕ → RangeEnc → RangeEnc
scale range e =
    if ltb range (2 ^ 16)
    then renew_enc (renew_enc e)
    else if ltb range (2 ^ 24)
    then renew_enc e
    else e

module _ (range : ℕ) (e : RangeEnc) where
  pub rounds_two :
      range < 2 ^ 16 → (rounds_of range ≡ 2) × (scale range e ≡ renew_enc (renew_enc e))
  unfolding rounds_of scale
  rounds_two p = (ground arith, rw (lt→ltb _ _ p) refl)

  pub rounds_one :
      2 ^ 16 ≤ range → range < 2 ^ 24 → (rounds_of range ≡ 1) × (scale range e ≡ renew_enc e)
  unfolding rounds_of scale
  rounds_one p q = (ground arith, rw (le→ltb _ _ p, lt→ltb _ _ q) refl)

  pub rounds_zero : 2 ^ 24 ≤ range → (rounds_of range ≡ 0) × (scale range e ≡ e)
  unfolding rounds_of scale
  rounds_zero p =
      (ground arith, rw (le→ltb range (2 ^ 16) (omega arith), le→ltb range (2 ^ 24) p) refl)

pub rounds_cases :
    (range : ℕ) → (range < 2 ^ 16) ⊎ ((2 ^ 16 ≤ range) × (range < 2 ^ 24)) ⊎ (2 ^ 24 ≤ range)
rounds_cases range = ground arith

-- From 2 ^ 8 on two rounds are enough.
module _ (e : RangeEnc) (h : IsReady e.range e) (few : total e + 4 < 2 ^ 64) where
  pub once : e.range < 2 ^ 24 → IsScaled 1 e (renew_enc e)
  once = renew_enc-IsScaled h (omega arith)

  pub twice : e.range < 2 ^ 16 → IsScaled 1 (renew_enc e) (renew_enc (renew_enc e))
  unfolding pow256
  twice p =
      let s = once (omega arith) in
      renew_enc-IsScaled s.ready (omega (arith, s.count)) (omega (arith, s.range))

  pub scale-IsScaled : IsScaled (rounds_of e.range) e (scale e.range e)
  scale-IsScaled = elim (rounds_cases e.range) [
    | inl p ↦
        let r = rounds_two e.range e p in
        rw (r.0, r.1) (IsScaled-again (once (omega arith)) (twice p))
    | inr (inl (p, q)) ↦ let r = rounds_one e.range e p q in rw (r.0, r.1) (once q)
    | inr (inr p) ↦ let r = rounds_zero e.range e p in rw (r.0, r.1) (IsScaled-none e h)
  ]

  pub normalize_enc-scale : 2 ^ 8 ≤ e.range → normalize_enc enc_fuel e ≡ some (scale e.range e)
  unfolding normalize_enc pow256
  normalize_enc-scale enough = elim (rounds_cases e.range) [
    | inl p ↦
        let s = once (omega arith) in
        let t = twice p in
        rw
          (
            (rounds_two e.range e p).1,
            lt→ltb e.range (2 ^ 24) (omega arith),
            lt→ltb (renew_enc e).range (2 ^ 24) (omega (arith, s.range)),
            le→ltb (renew_enc (renew_enc e)).range (2 ^ 24) (omega (arith, s.range, t.range)),
          )
          refl
    | inr (inl (p, q)) ↦
        let s = once q in
        rw
          (
            (rounds_one e.range e p q).1,
            lt→ltb e.range (2 ^ 24) q,
            le→ltb (renew_enc e).range (2 ^ 24) (omega (arith, s.range)),
          )
          refl
    | inr (inr p) ↦ rw ((rounds_zero e.range e p).1, le→ltb e.range (2 ^ 24) p) refl
  ]

  pub scale_top :
      2 ^ 8 ≤ e.range
      → e.range < 2 ^ 32
      → (2 ^ 24 ≤ (scale e.range e).range) × ((scale e.range e).range < 2 ^ 32)
  unfolding pow256
  scale_top enough range_lt = elim (rounds_cases e.range) [
    | inl p ↦
        let s = (rw (rounds_two e.range e p).0 at scale-IsScaled.range) in
        (omega (arith, s), omega (arith, s))
    | inr (inl (p, q)) ↦
        let s = (rw (rounds_one e.range e p q).0 at scale-IsScaled.range) in
        (omega (arith, s), omega (arith, s))
    | inr (inr p) ↦ rw ((rounds_zero e.range e p).1) (p, range_lt)
  ]
