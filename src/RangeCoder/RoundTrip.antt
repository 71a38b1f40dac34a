-- ===== src/RangeCoder/RoundTrip.antt =====
-- What the encoder of the 7-Zip range coder writes, its decoder reads back.
use pyppmd.Base.{
  ℕ, ◌+◌, ◌*◌, ◌^◌, ◌≤◌, ◌<◌, ◌≡◌, refl, List, [], ◌∷◌, ◌++◌, arith, length, ap, sym, ◌∙◌, true,
  some,
}
use mathlib.Core.Path.{subst}
use pyppmd.RangeCoder.Enc.{RangeEnc, init_enc, flush_data}
use pyppmd.RangeCoder.Dec.{RangeDec, normalize_dec, init_dec, is_finished_ok}
use pyppmd.RangeCoder.Value.{All, pow256, pow256-add, value}
use pyppmd.RangeCoder.Shift.{total, low_value}
use pyppmd.RangeCoder.Narrow.{rounds_of, rounds_of-le}
use pyppmd.RangeCoder.Ops.{Op, IsOp, encode_ops, decode_ops}
use pyppmd.RangeCoder.Encodes.{
  IsRunning, narrow, narrow-IsNarrowed, after, after-IsScaled, after-IsRunning, encode_op-after,
  IsNested, encode_ops-IsEncoded,
}
use pyppmd.RangeCoder.Decodes.{IsSynced, normalize_dec-IsSynced}
use pyppmd.RangeCoder.Answers.{narrow_dec, IsAnswer, answer}
use pyppmd.RangeCoder.Start.{init_dec-IsStarted}
use pyppmd.RangeCoder.Flush.{flush_data-IsFlushed}

-- The decoder behind all steps: nothing of the encoder's bytes is left, and its code is 0.
pub record IsDecoded (ops : List Op) (rest : List ℕ) (d d' : RangeDec) : Type 0 where
  pub done : decode_ops ops d ≡ some d'
  pub finished : is_finished_ok d' ≡ true
  pub stream : d'.stream ≡ rest

abbrev step_rounds : Op → RangeEnc → ℕ
step_rounds op e = rounds_of (narrow op e).range

-- One step: what is left to decode is what is left to encode.
module _ (op : Op) {k : ℕ} {s rest : List ℕ} {e f : RangeEnc} {d : RangeDec} (valid : IsOp op)
    (h : IsRunning e) (few : total e + 4 < 2 ^ 64) (tail : IsNested k (after h op) f)
    (pos : 1 ≤ f.range) (sync : IsSynced (low_value f) s rest e d)
    (size : length s + total e ≡ total f) where
  left : length s ≡ step_rounds op e + k
  left =
      let g = narrow-IsNarrowed h op valid in
      let scaled = after-IsScaled h few op valid in omega (arith, g.count, scaled.count, tail.count)

  step-IsAnswer : IsAnswer (low_value f) s rest op e d
  step-IsAnswer =
      let scaled = after-IsScaled h few op valid in
      let low = ap (λ (t : ℕ). pow256 k * t) scaled.value_eq in
      let range = ap (λ (t : ℕ). pow256 k * t) scaled.range in
      let p : pow256 (length s) ≡ pow256 (step_rounds op e) * pow256 k =
        rw left (pow256-add (step_rounds op e) k) in
      answer sync h op valid (rw p (omega (arith, tail.low_le, low)))
        (rw p (omega (arith, tail.inside, low, range)))

  step-IsSynced :
      (t : List ℕ) × IsSynced (low_value f) t rest (after h op) (normalize_dec (narrow_dec op d))
      × (length t + total (after h op) ≡ total f)
  step-IsSynced =
      let g = narrow-IsNarrowed h op valid in
      let scaled = after-IsScaled h few op valid in
      let (t, synced, shorter) =
        normalize_dec-IsSynced s step-IsAnswer.synced g.ready (omega (arith, g.count)) g.enough
          step-IsAnswer.below (omega (arith, left)) in
      (t, synced, omega (arith, shorter, left, tail.count))

some-injective : {A : Type 0} {a b : A} → some a ≡ some b → a ≡ b
some-injective e = cc

decode_ops-IsDecoded :
    (ops : List Op) (s : List ℕ) {rest : List ℕ} {e f : RangeEnc} {d : RangeDec}
    → All IsOp ops
    → IsRunning e
    → total e + 2 * length ops + 4 < 2 ^ 64
    → encode_ops ops e ≡ some f
    → IsSynced (low_value f) s rest e d
    → length s + total e ≡ total f
    → (d' : RangeDec) × IsDecoded ops rest d d'
unfolding decode_ops encode_ops value pow256 is_finished_ok
decode_ops-IsDecoded [] [] {d} valid h few done sync size =
    let same = ap low_value (some-injective done) in
    (d, record { done = refl; finished = ground (arith, sync.sum, same); stream = sync.stream })
decode_ops-IsDecoded [] (b ∷ s) valid h few done sync size =
    let same = ap total (some-injective done) in absurd (omega (arith, same, size))
decode_ops-IsDecoded (op ∷ ops) s {rest} {e} {f} {d} (valid, more) h few done sync size =
    let g = narrow-IsNarrowed h op valid in
    let scaled = after-IsScaled h (omega arith) op valid in
    let running = after-IsRunning h (omega arith) op valid in
    let done' : encode_ops ops (after h op) ≡ some f =
      rw (encode_op-after h (omega arith) op valid) at done in
    let rounds = rounds_of-le (narrow op e).range in
    let room : total (after h op) + 2 * length ops + 4 < 2 ^ 64 =
      omega (arith, g.count, scaled.count, rounds) in
    let (f', k, enc) = encode_ops-IsEncoded ops more running room in
    let same : f' ≡ f = some-injective (sym enc.done ∙ done') in
    let nested = subst (λ r. IsNested k (after h op) r) same enc.nested in
    let pos : 1 ≤ f.range =
      subst (λ (r : RangeEnc). 1 ≤ r.range) same (omega (arith, enc.running.top)) in
    let (t, synced, size') = step-IsSynced op valid h (omega arith) nested pos sync size in
    let (d', decoded) = decode_ops-IsDecoded ops t more running room done' synced size' in
    (
      d',
      record {
        done =
            rw (step-IsAnswer op valid h (omega arith) nested pos sync size).answers decoded.done;
        finished = decoded.finished;
        stream = decoded.stream;
      },
    )

init_enc-IsRunning : IsRunning (init_enc [])
unfolding init_enc pow256
init_enc-IsRunning = record {
  ready = record {
    held = omega arith;
    width = omega arith;
    cache_lt = omega arith;
    low_le = omega arith;
    room = omega arith;
    few = omega arith;
    bytes = tt;
  };
  top = omega arith;
  range_lt = omega arith;
}

-- What becomes of a sequence of steps that is encoded and flushed, followed by other bytes, and
-- decoded.
pub record IsRoundTrip (ops : List Op) (rest : List ℕ) : Type 0 where
  pub coder : RangeEnc
  pub decoder : RangeDec
  pub last : RangeDec
  pub encoded : encode_ops ops (init_enc []) ≡ some coder
  pub started : init_dec ((flush_data coder).stream ++ rest) ≡ (true, decoder)
  pub decoded : IsDecoded ops rest decoder last

-- Any sequence of valid steps (each share at least one count, totals of at most 2 ^ 16 and binary
-- shares below 2 ^ 14) that is short enough for the 64-bit count of held bytes is encoded by loops
-- that end; the decoder starts on the flushed bytes, whatever follows them, answers each step with
-- what was coded, ends with the code 0 and leaves what follows unread.
pub decode_ops-encode_ops :
    (ops : List Op) (rest : List ℕ)
    → All IsOp ops
    → 2 * length ops + 8 < 2 ^ 64
    → IsRoundTrip ops rest
unfolding init_enc value pow256
decode_ops-encode_ops ops rest valid few =
    let (e, k, enc) = encode_ops-IsEncoded ops valid init_enc-IsRunning (omega arith) in
    let flushed =
      flush_data-IsFlushed enc.running.ready (omega (arith, enc.nested.count, enc.few)) in
    let (s, d, start) =
      init_dec-IsStarted k (flush_data e).stream rest flushed.bytes
        (omega (arith, flushed.count, enc.nested.count))
        (omega (arith, enc.nested.inside, enc.running.top, flushed.value_eq)) in
    let synced : IsSynced (low_value e) s rest (init_enc []) d = record {
      range = start.range;
      stream = start.stream;
      bytes = start.bytes;
      sum = omega (arith, start.sum, flushed.value_eq);
    } in
    let (d', decoded) =
      decode_ops-IsDecoded ops s valid init_enc-IsRunning (omega arith) enc.done synced
        (omega (arith, start.size, flushed.count)) in
    record {
      coder = e;
      decoder = d;
      last = d';
      encoded = enc.done;
      started = start.done;
      decoded = decoded;
    }
