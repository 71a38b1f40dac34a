-- ===== src/Ppmd8/Agree/Binary.antt =====
-- The context that a symbol is looked for first, when it has one state only.
use pyppmd.Base.{
  ℕ, suc, ◌^◌, ◌≤◌, ◌<◌, ◌≡◌, ◌≢◌, refl, true, false, arith, ◌>>=◌, Bool-cases, inl, inr, ◌==◌,
  ==_iff, lt→ltb, le→ltb, get_or, set, ◌>>>◌,
}
use pyppmd.Coding.{byte}
use pyppmd.Coding.Coded.{IsCoded, IsCoded-done, IsCoded-step}
use pyppmd.Carryless.Coder.{range_encode_bit_0, range_encode_bit_1}
use pyppmd.RangeCoder.Ops.{bit}
use pyppmd.Carryless.Ops.{encode_step, bit_threshold}
use pyppmd.Ppmd7.State.{one_state}
use pyppmd.Ppmd7.Escape.{update_prob_0, update_prob_1, exp_escape}
use pyppmd.Ppmd7.Successors.{chain_fuel}
use pyppmd.Ppmd7.Encode.{Mask, unmasked, mask_out}
use pyppmd.Ppmd7.Agree.Missed.{mask_out-other}
use pyppmd.Ppmd7.Agree.Round.{answer_for-byte}
use pyppmd.Ppmd8.State.{Ppmd8, symbol}
use pyppmd.Ppmd8.Escape.{get_bin_summ}
use pyppmd.Ppmd8.Symbols.{update_bin}
use pyppmd.Ppmd8.Encode.{encode_bin, encode_rest}
use pyppmd.Ppmd8.Decode.{decode_bin, decode_rest}
use pyppmd.Ppmd8.Agree.Steps.{carryless_coder, decode_step-first, decode_step-second}
use pyppmd.Ppmd8.Agree.Chain.{IsChain, IsChain-IsCoded}
use pyppmd.Ppmd8.Agree.Start.{coded-rest, done-rest, escaped-rest}

-- The probability of the only symbol, and the models behind it and behind an escape.
abbrev pub bin_prob : Ppmd8 → ℕ
bin_prob p = get_or p.bin_summ (get_bin_summ p) 0

abbrev pub bin_hit : Ppmd8 → Ppmd8
bin_hit p = record p {
  bin_summ = set p.bin_summ (get_bin_summ p) (update_prob_0 (bin_prob p));
  found_state = one_state p.min_context;
}

abbrev pub bin_model : Ppmd8 → Ppmd8
bin_model p = record p {
  bin_summ = set p.bin_summ (get_bin_summ p) (update_prob_1 (bin_prob p));
  init_esc = get_or exp_escape (update_prob_1 (bin_prob p) >>> 10) 0;
  prev_success = 0;
}

abbrev pub bin_mask : Ppmd8 → Mask
bin_mask p = mask_out unmasked (symbol p (one_state p.min_context))

-- A first context with one state: a probability of 14 bits that is not 0, and fit contexts to
-- escape to.
pub record IsBinFit (p : Ppmd8) : Type 0 where
  pub pos : 1 ≤ bin_prob p
  pub small : bin_prob p < 2 ^ 14
  pub bytes : (a : ℕ) → p.mem a < 256
  pub chain : IsChain chain_fuel (bin_model p) (bin_mask p)

module _ (p : Ppmd8) (x : ℕ) (fit : IsBinFit p) where
  abbrev s : ℕ
  s = one_state p.min_context

  bin_hit-IsCoded :
      symbol p s ≡ x
      → IsCoded
          (suc chain_fuel)
          x
          (λ e. encode_bin p e x >>= encode_rest x)
          (λ d. decode_bin p d >>= decode_rest)
  unfolding encode_bin decode_bin encode_step get_bin_summ
  bin_hit-IsCoded same =
      let below : x < 256 = omega (arith, same, fit.bytes s) in
      let after = update_bin (bin_hit p) in
      IsCoded-step chain_fuel x (bit false (bin_prob p)) (fit.pos, fit.small)
        (λ e. rw ((==_iff _ _).1 same) (coded-rest x (range_encode_bit_0 e (bin_prob p)) after))
        (λ d d' h.
          let (low, next) = decode_step-first (bin_prob p) d d' h in
          rw (lt→ltb _ _ low, next, answer_for-byte x below, ← same)
            (done-rest (byte (symbol p s)) d' after))
        (IsCoded-done chain_fuel x after)

  bin_miss-IsCoded :
      symbol p s ≢ x
      → IsCoded
          (suc chain_fuel)
          x
          (λ e. encode_bin p e x >>= encode_rest x)
          (λ d. decode_bin p d >>= decode_rest)
  unfolding encode_bin decode_bin encode_step get_bin_summ unmasked
  bin_miss-IsCoded other =
      let test : (symbol p s == x) ≡ false = ground arith in
      IsCoded-step chain_fuel x (bit true (bin_prob p)) (fit.pos, fit.small)
        (λ e.
          rw test (escaped-rest x (range_encode_bit_1 e (bin_prob p)) (bin_model p) (bin_mask p)))
        (λ d d' h.
          let (high, next) = decode_step-second (bin_prob p) d d' h in
          rw (le→ltb (bit_threshold d).0 (bin_prob p) high, next) refl)
        (IsChain-IsCoded x fit.chain (mask_out-other unmasked (symbol p s) x other refl))

  pub encode_bin-IsCoded :
      IsCoded
        (suc chain_fuel)
        x
        (λ e. encode_bin p e x >>= encode_rest x)
        (λ d. decode_bin p d >>= decode_rest)
  encode_bin-IsCoded = elim (Bool-cases (symbol p s == x)) [
    | inl same ↦ bin_hit-IsCoded ((==_iff _ _).0 same)
    | inr other ↦ bin_miss-IsCoded (ground arith)
  ]
