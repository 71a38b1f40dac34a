-- ===== src/RangeCoder/Encodes.antt =====
-- One coding step narrows the interval, and a sequence of steps nests the intervals.
use pyppmd.Base.{
  ℕ, ◌+◌, ◌-◌, ◌*◌, ◌/◌, ◌^◌, ◌≤◌, ◌<◌, ◌≡◌, refl, true, false, some, List, [], ◌∷◌, arith, length,
  u32, u64,
}
use mathlib.Core.Path.{◌∙◌, ap₂}
use native.Mathlib.Nat.{div-mul-le_self, le-div_iff_mul-le, mul-le-mul_right, mul-le-mul_left}
use pyppmd.RangeCoder.Enc.{RangeEnc, normalize_enc, enc_fuel, encode, encode_bit_0, encode_bit_1}
use pyppmd.RangeCoder.Value.{All, pow256, pow256-add}
use pyppmd.RangeCoder.Shift.{total, low_value, IsReady}
use pyppmd.RangeCoder.Narrow.{
  IsScaled, rounds_of, rounds_of-le, scale, scale-IsScaled, normalize_enc-scale, scale_top,
}
use pyppmd.RangeCoder.Ops.{Op, interval, bit, IsOp, encode_op, encode_ops}

-- The state between two steps.
pub record IsRunning (e : RangeEnc) : Type 0 where
  pub ready : IsReady e.range e
  pub top : 2 ^ 24 ≤ e.range
  pub range_lt : e.range < 2 ^ 32

-- The interval of a step, before its range is brought back to the top.
unfoldable pub narrow : Op → RangeEnc → RangeEnc
narrow (interval start size total) e = record e {
  low = e.low + start * (e.range / total);
  range = e.range / total * size;
}
narrow (bit false size0) e = record e { range = e.range / 2 ^ 14 * size0 }
narrow (bit true size0) e = record e {
  low = e.low + e.range / 2 ^ 14 * size0;
  range = e.range - e.range / 2 ^ 14 * size0;
}

pub record IsNarrowed (e g : RangeEnc) : Type 0 where
  pub ready : IsReady g.range g
  pub enough : 2 ^ 8 ≤ g.range
  pub range_lt : g.range < 2 ^ 32
  pub low_le : e.low ≤ g.low
  pub value_eq : low_value g + e.low ≡ low_value e + g.low
  pub inside : g.low + g.range ≤ e.low + e.range
  pub count : total g ≡ total e

module _ {e : RangeEnc} (h : IsRunning e) where
  narrow_to :
      (low range : ℕ)
      → e.low ≤ low
      → low + range ≤ e.low + e.range
      → 2 ^ 8 ≤ range
      → IsNarrowed e (record e { low = low; range = range })
  narrow_to low range low_le inside enough =
      let r = h.ready in
      record {
        ready = record {
          held = r.held;
          width = omega arith;
          cache_lt = r.cache_lt;
          low_le = omega (arith, r.low_le);
          room = omega (arith, r.room);
          few = r.few;
          bytes = r.bytes;
        };
        enough = enough;
        range_lt = omega (arith, h.range_lt);
        low_le = low_le;
        value_eq = omega arith;
        inside = inside;
        count = refl;
      }

  -- The parts of a range that a step of counts takes.
  pub share_le :
      (start size total : ℕ)
      → start + size ≤ total
      → start * (e.range / total) + e.range / total * size ≤ e.range
  share_le start size total fits =
      omega (arith, mul-le-mul_right (e.range / total) fits, div-mul-le_self e.range total)

  pub share_enough :
      (size total : ℕ) → 1 ≤ size → 1 ≤ total → total ≤ 2 ^ 16 → 2 ^ 8 ≤ e.range / total * size
  share_enough size total pos some_total small =
      let top = h.top in
      let share : 2 ^ 8 ≤ e.range / total =
        (le-div_iff_mul-le {k = total} {x = 2 ^ 8} {y = e.range} some_total).1 (omega arith) in
      omega (arith, mul-le-mul_left (e.range / total) pos)

  -- The share of the first of two symbols leaves something to both.
  pub first_share :
      (size0 : ℕ)
      → 1 ≤ size0
      → size0 < 2 ^ 14
      → (2 ^ 8 ≤ e.range / 2 ^ 14 * size0) × (e.range / 2 ^ 14 * size0 + 2 ^ 8 ≤ e.range)
  first_share size0 pos small =
      let top = h.top in
      let low = mul-le-mul_left (e.range / 2 ^ 14) pos in
      let high : e.range / 2 ^ 14 * (size0 + 1) ≤ e.range / 2 ^ 14 * 2 ^ 14 =
        mul-le-mul_left (e.range / 2 ^ 14) (omega arith) in
      (omega arith, omega arith)

  pub narrow-IsNarrowed : (op : Op) → IsOp op → IsNarrowed e (narrow op e)
  unfolding narrow
  narrow-IsNarrowed (interval start size total) (pos, fits, small) =
      narrow_to _ _ (omega arith) (omega (arith, share_le start size total fits))
        (share_enough size total pos (omega arith) small)
  narrow-IsNarrowed (bit false size0) (pos, small) =
      let (enough, rest) = first_share size0 pos small in
      narrow_to _ _ (omega arith) (omega arith) enough
  narrow-IsNarrowed (bit true size0) (pos, small) =
      let (enough, rest) = first_share size0 pos small in
      narrow_to _ _ (omega arith) (omega arith) (omega arith)

  encode_op-narrow : (op : Op) → IsOp op → encode_op op e ≡ normalize_enc enc_fuel (narrow op e)
  unfolding narrow encode_op encode encode_bit_0 encode_bit_1
  encode_op-narrow (interval start size total) (pos, fits, small) =
      let r = h.ready.low_le in
      let top = h.range_lt in
      let share = share_le start size total fits in
      let low : u64 (e.low + u64 (start * (e.range / total))) ≡ e.low + start * (e.range / total) =
        omega arith in
      let range : u32 (e.range / total * size) ≡ e.range / total * size = omega arith in
      rw (low, range) refl
  encode_op-narrow (bit false size0) (pos, small) =
      let top = h.range_lt in
      let share = first_share size0 pos small in
      let range : u32 (e.range / 2 ^ 14 * size0) ≡ e.range / 2 ^ 14 * size0 =
        omega (arith, share) in
      rw range refl
  encode_op-narrow (bit true size0) (pos, small) =
      let r = h.ready.low_le in
      let top = h.range_lt in
      let (enough, rest) = first_share size0 pos small in
      let bound : u32 (e.range / 2 ^ 14 * size0) ≡ e.range / 2 ^ 14 * size0 = omega arith in
      ap₂ (λ (l w : ℕ). normalize_enc enc_fuel (record e { low = l; range = w }))
        (rw bound (omega arith)) (rw bound (omega arith))

  -- The state behind a step.
  abbrev pub after : Op → RangeEnc
  after op = scale (narrow op e).range (narrow op e)

  module _ (few : total e + 4 < 2 ^ 64) (op : Op) (valid : IsOp op) where
    pub encode_op-after : encode_op op e ≡ some (after op)
    encode_op-after =
        let g = narrow-IsNarrowed op valid in
        encode_op-narrow op valid
        ∙ normalize_enc-scale (narrow op e) g.ready (omega (arith, g.count)) g.enough

    pub after-IsScaled : IsScaled (rounds_of (narrow op e).range) (narrow op e) (after op)
    after-IsScaled =
        let g = narrow-IsNarrowed op valid in
        scale-IsScaled (narrow op e) g.ready (omega (arith, g.count))

    pub after-IsRunning : IsRunning (after op)
    after-IsRunning =
        let g = narrow-IsNarrowed op valid in
        let (top, range_lt) =
          scale_top (narrow op e) g.ready (omega (arith, g.count)) g.enough g.range_lt in
        record { ready = after-IsScaled.ready; top = top; range_lt = range_lt }

-- The interval of `f` lies in that of `e`, scaled `k` times.
pub record IsNested (k : ℕ) (e f : RangeEnc) : Type 0 where
  pub count : total f ≡ total e + k
  pub low_le : pow256 k * low_value e ≤ low_value f
  pub inside : low_value f + f.range ≤ pow256 k * (low_value e + e.range)

IsNested-refl : (e : RangeEnc) → IsNested 0 e e
unfolding pow256
IsNested-refl e = record { count = omega arith; low_le = omega arith; inside = omega arith }

IsNested-trans :
    {j k : ℕ} {e f g : RangeEnc} → IsNested j e f → IsNested k f g → IsNested (j + k) e g
IsNested-trans {j} {k} {e} {f} {g} a b = record {
  count = omega (arith, a.count, b.count);
  low_le = rw (pow256-add j k) (omega (arith, mul-le-mul_left (pow256 k) a.low_le, b.low_le));
  inside = rw (pow256-add j k) (omega (arith, mul-le-mul_left (pow256 k) a.inside, b.inside));
}

narrow_scale-IsNested :
    {k : ℕ} {e g f : RangeEnc} → IsNarrowed e g → IsScaled k g f → IsNested k e f
narrow_scale-IsNested {k} {e} {g} {f} a b =
    let low : low_value e ≤ low_value g = omega (arith, a.value_eq, a.low_le) in
    let high : low_value g + g.range ≤ low_value e + e.range =
      omega (arith, a.value_eq, a.inside) in
    record {
      count = omega (arith, a.count, b.count);
      low_le = omega (arith, b.value_eq, mul-le-mul_left (pow256 k) low);
      inside = omega (arith, b.value_eq, b.range, mul-le-mul_left (pow256 k) high);
    }

-- What a sequence of steps gives.
pub record IsEncoded (ops : List Op) (e f : RangeEnc) (k : ℕ) : Type 0 where
  pub done : encode_ops ops e ≡ some f
  pub running : IsRunning f
  pub nested : IsNested k e f
  pub few : k ≤ 2 * length ops

-- The encoder codes each sequence of valid steps: its loops end, and no width overflows.
pub encode_ops-IsEncoded :
    (ops : List Op) {e : RangeEnc}
    → All IsOp ops
    → IsRunning e
    → total e + 2 * length ops + 4 < 2 ^ 64
    → (f : RangeEnc) × (k : ℕ) × IsEncoded ops e f k
unfolding encode_ops
encode_ops-IsEncoded [] {e} valid h few =
    (e, 0, record { done = refl; running = h; nested = IsNested-refl e; few = omega arith })
encode_ops-IsEncoded (op ∷ ops) {e} (valid, rest) h few =
    let scaled = after-IsScaled h (omega arith) op valid in
    let g = narrow-IsNarrowed h op valid in
    let first = narrow_scale-IsNested g scaled in
    let two = rounds_of-le (narrow op e).range in
    let (f, k, tail) =
      encode_ops-IsEncoded ops rest (after-IsRunning h (omega arith) op valid)
        (omega (arith, first.count)) in
    (
      f,
      rounds_of (narrow op e).range + k,
      record {
        done = rw (encode_op-after h (omega arith) op valid) tail.done;
        running = tail.running;
        nested = IsNested-trans first tail.nested;
        few = omega (arith, tail.few);
      },
    )
