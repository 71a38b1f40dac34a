-- ===== src/Ppmd8/Agree/Start.antt =====
-- The context that a symbol is looked for first, with several states or with one.
use pyppmd.Base.{
  ℕ, suc, ◌+◌, ◌-◌, ◌*◌, ◌^◌, ◌≤◌, ◌<◌, ◌≡◌, ◌≢◌, refl, ap, true, false, arith, ltb, leb, lt→ltb,
  Option, some, none, ◌>>=◌, ◌∙◌, Bool-cases, inl, inr, ◌==◌, ==_iff,
}
use pyppmd.Base.Memory.{do_rounds}
use pyppmd.Coding.{Decoded, with_result, byte}
use pyppmd.Coding.Coded.{IsCoded, IsCoded-done, IsCoded-same, IsCoded-step}
use pyppmd.Carryless.Coder.{Encoder, Decoder, range_encode, range_threshold}
use pyppmd.RangeCoder.Ops.{interval}
use pyppmd.Carryless.Ops.{encode_step}
use pyppmd.Ppmd7.State.{sub32, state_size}
use pyppmd.Ppmd7.Successors.{chain_fuel}
use pyppmd.Ppmd7.Encode.{Mask, unmasked, mask_states, Scan, hit, miss}
use pyppmd.Ppmd7.Agree.First.{sum_behind, Counted, IsScanned, scan-IsScanned}
use pyppmd.Ppmd7.Agree.Missed.{IsMissed, scan-IsMissed, mask_states-Avoids}
use pyppmd.Ppmd7.Agree.Round.{answer_for-byte}
use pyppmd.Ppmd8.State.{Ppmd8, freq, symbol, num_stats, stats, summ_freq}
use pyppmd.Ppmd8.Symbols.{update1, update1_0}
use pyppmd.Ppmd8.Encode
use pyppmd.Ppmd8.Encode.{encode_many, encode_scan, encode_rest}
use pyppmd.Ppmd8.Decode
use pyppmd.Ppmd8.Decode.{decode_many, decode_scan, decode_rest}
use pyppmd.Ppmd8.Agree.Steps.{carryless_coder, decode_step-IsTaken}
use pyppmd.Ppmd8.Agree.Chain.{IsChain, IsChain-IsCoded}

-- The model and the mask behind an escape from a context with several states.
abbrev pub many_model : Ppmd8 → Ppmd8
many_model p = record p { prev_success = 0 }

abbrev pub many_mask : Ppmd8 → Mask
many_mask p =
    let n = num_stats p p.min_context in
    mask_states (n + 1) p.mem (stats p p.min_context + state_size * n) unmasked

-- A first context with several states: at most as many as there are bytes, each counting, with an
-- escape that counts as well, and fit contexts to escape to.
pub record IsManyFit (p : Ppmd8) : Type 0 where
  pub several : 1 ≤ num_stats p p.min_context
  pub states : num_stats p p.min_context ≤ 255
  pub first : 1 ≤ freq p (stats p p.min_context)
  pub counted : Counted (num_stats p p.min_context) p.mem (stats p p.min_context)
  pub sum :
      freq p (stats p p.min_context)
        + sum_behind (num_stats p p.min_context) p.mem (stats p p.min_context)
      < summ_freq p p.min_context
  pub small : summ_freq p p.min_context ≤ 2 ^ 15
  pub bytes : (a : ℕ) → p.mem a < 256
  pub chain : IsChain chain_fuel (many_model p) (many_mask p)

do_rounds-pos : (n : ℕ) → 1 ≤ n → do_rounds n ≡ n
unfolding do_rounds
do_rounds-pos n pos = ground arith

pub coded-rest :
    (x : ℕ) (first : Option Encoder) (after : Option Ppmd8)
    → (first >>= λ e. after >>= λ q. some (Encode.coded q e)) >>= encode_rest x
      ≡ first >>= λ e. after >>= λ q. some (q, e)
coded-rest x none after = refl
coded-rest x (some e) none = refl
coded-rest x (some e) (some q) = refl

pub done-rest :
    (r : Decoded) (d : Decoder) (after : Option Ppmd8)
    → (after >>= λ q. some (Decode.done (with_result r d q))) >>= decode_rest
      ≡ after >>= λ q. some (with_result r d q)
done-rest r d none = refl
done-rest r d (some q) = refl

pub escaped-rest :
    (x : ℕ) (first : Option Encoder) (q : Ppmd8) (m : Mask)
    → (first >>= λ e. some (Encode.escaped q e m)) >>= encode_rest x
      ≡ first >>= λ e. Encode.encode_escaped chain_fuel q e m x
escaped-rest x none q m = refl
escaped-rest x (some e) q m = refl

module _ (p : Ppmd8) (x : ℕ) (fit : IsManyFit p) where
  abbrev c : ℕ
  c = p.min_context

  abbrev s : ℕ
  s = stats p c

  abbrev behind : ℕ
  behind = num_stats p c

  abbrev q : Ppmd8
  q = record p { prev_success = 0 }

  rounds : do_rounds (num_stats p c) ≡ behind
  rounds = do_rounds-pos (num_stats p c) fit.several

  above-first : (count : ℕ) → freq p s ≤ count → ltb count (freq p s) ≡ false
  above-first count above = ground arith

  first-IsCoded :
      symbol p s ≡ x
      → IsCoded
          (suc chain_fuel)
          x
          (λ e. encode_many p e x >>= encode_rest x)
          (λ d. decode_many p d >>= decode_rest)
  unfolding encode_many decode_many encode_step
  first-IsCoded same =
      let below : x < 256 = omega (arith, same, fit.bytes s) in
      let after = update1_0 (record p { found_state = s }) in
      IsCoded-step chain_fuel x (interval 0 (freq p s) (summ_freq p c))
        (omega (arith, fit.first, fit.sum, fit.small))
        (λ e.
          rw ((==_iff _ _).1 same)
            (coded-rest x (range_encode e 0 (freq p s) (summ_freq p c)) after))
        (λ d d' h.
          let a = decode_step-IsTaken 0 (freq p s) (summ_freq p c) h in
          rw
            (
              lt→ltb (range_threshold d (summ_freq p c)).0 (freq p s) (omega (arith, a.lt)),
              a.next,
              answer_for-byte x below,
              ← same,
            )
            (done-rest (byte (symbol p s)) d' after))
        (IsCoded-done chain_fuel x after)

  hit-IsCoded :
      (t low : ℕ)
      → IsScanned behind p.mem s (freq p s) x (hit t low)
      → IsCoded
          (suc chain_fuel)
          x
          (λ e. encode_scan q e (hit t low) >>= encode_rest x)
          (λ d. decode_many p d >>= decode_rest)
  unfolding encode_scan decode_scan decode_many encode_step
  hit-IsCoded t low (same, from, inside, one, hits) =
      let below : x < 256 = omega (arith, same, fit.bytes t) in
      let after = update1 (record q { found_state = t }) in
      IsCoded-step chain_fuel x (interval low (freq p t) (summ_freq p c))
        (omega (arith, fit.sum, fit.small))
        (λ e. coded-rest x (range_encode e low (freq p t) (summ_freq p c)) after)
        (λ d d' h.
          let a = decode_step-IsTaken low (freq p t) (summ_freq p c) h in
          let back : sub32 (low + freq p t) (freq p t) ≡ low = omega (arith, fit.sum, fit.small) in
          rw
            (
              above-first (range_threshold d (summ_freq p c)).0 (omega (arith, from, a.ge)),
              rounds,
              hits _ a.ge a.lt,
              back,
              a.next,
              answer_for-byte x below,
              ← same,
            )
            (done-rest (byte (symbol p t)) d' after))
        (IsCoded-done chain_fuel x after)

  miss-IsCoded :
      (t all : ℕ)
      → symbol p s ≢ x
      → IsScanned behind p.mem s (freq p s) x (miss t all)
      → IsMissed behind p.mem s x (miss t all)
      → IsCoded
          (suc chain_fuel)
          x
          (λ e. encode_scan q e (miss t all) >>= encode_rest x)
          (λ d. decode_many p d >>= decode_rest)
  unfolding encode_scan decode_scan decode_many encode_step
  miss-IsCoded t all other (whole, misses) (end, avoids) =
      let count : behind + 1 ≡ suc behind = omega arith in
      let still : many_mask p x ≡ true =
        ap (λ n. mask_states n p.mem (s + state_size * behind) unmasked x) count
        ∙ (mask_states-Avoids behind p.mem s x other avoids) in
      let less : sub32 (summ_freq p c) all ≡ summ_freq p c - all =
        omega (arith, fit.sum, fit.small) in
      IsCoded-step chain_fuel x (interval all (summ_freq p c - all) (summ_freq p c))
        (omega (arith, fit.sum, fit.small))
        (λ e.
          rw (less, end)
            (escaped-rest x (range_encode e all (summ_freq p c - all) (summ_freq p c))
              (many_model p) (many_mask p)))
        (λ d d' h.
          let a = decode_step-IsTaken all (summ_freq p c - all) (summ_freq p c) h in
          let below : leb (summ_freq p c) (range_threshold d (summ_freq p c)).0 ≡ false =
            ground (arith, a.lt, fit.sum) in
          rw
            (
              above-first (range_threshold d (summ_freq p c)).0 (omega (arith, whole, a.ge)),
              rounds,
              misses _ a.ge,
              below,
              less,
              end,
              a.next,
            )
            refl)
        (IsChain-IsCoded x fit.chain still)

  search-IsCoded :
      (r : Scan)
      → symbol p s ≢ x
      → IsScanned behind p.mem s (freq p s) x r
      → IsMissed behind p.mem s x r
      → IsCoded
          (suc chain_fuel)
          x
          (λ e. encode_scan q e r >>= encode_rest x)
          (λ d. decode_many p d >>= decode_rest)
  search-IsCoded (hit t low) other scanned missed = hit-IsCoded t low scanned
  search-IsCoded (miss t all) other scanned missed = miss-IsCoded t all other scanned missed

  pub encode_many-IsCoded :
      IsCoded
        (suc chain_fuel)
        x
        (λ e. encode_many p e x >>= encode_rest x)
        (λ d. decode_many p d >>= decode_rest)
  unfolding encode_many
  encode_many-IsCoded = elim (Bool-cases (symbol p s == x)) [
    | inl same ↦ first-IsCoded ((==_iff _ _).0 same)
    | inr other ↦
        let scanned =
          scan-IsScanned behind p.mem s (freq p s) x fit.counted
            (omega (arith, fit.sum, fit.small)) in
        let coded =
          search-IsCoded _ (ground arith) scanned (scan-IsMissed behind p.mem s (freq p s) x) in
        IsCoded-same (suc chain_fuel) x (λ e. rw (other, rounds) refl) (λ d. refl) coded
  ]
