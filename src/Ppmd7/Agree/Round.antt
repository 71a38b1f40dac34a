-- ===== src/Ppmd7/Agree/Round.antt =====
-- One round of the loop of escapes: the search in a context, and what is coded for its result.
use pyppmd.Base.{
  ℕ, suc, ◌+◌, ◌^◌, ◌≤◌, ◌<◌, ◌≡◌, refl, sym, ap, true, false, arith, u32, ltb, leb, lt→ltb, Option,
  some, ◌>>=◌, List, if◌then◌else◌, ◌∙◌,
}
use native.Mathlib.Nat.{zero-add}
use pyppmd.Base.Memory.{freq_at}
use pyppmd.RangeCoder.Enc.{RangeEnc, encode}
use pyppmd.RangeCoder.Dec.{RangeDec, get_threshold, decode}
use pyppmd.RangeCoder.Ops.{interval, encode_op}
use pyppmd.Ppmd7.State.{Ppmd7, sub32, freq}
use pyppmd.Ppmd7.Escape.{SeeRef, get_see, put_see, see_update}
use pyppmd.Ppmd7.Symbols.{update2}
use pyppmd.Ppmd7.Encode.{Mask, Search, found, absent, encode_found}
use pyppmd.Ppmd7.Decode.{mask_all, decode_found, DecodeResult, with_result, byte, data_error}
use pyppmd.Ppmd7.Agree.Steps.{decode_op-IsAnswered}
use pyppmd.Ppmd7.Agree.Masked.{free_states, free_sum}
use pyppmd.Ppmd7.Agree.Lookup.{IsSearched}
use pyppmd.Coding.{answer_for}
use pyppmd.Coding.Coded.{IsCoded, IsCoded-done, IsCoded-step}
use pyppmd.Ppmd7.Agree.Steps.{range_coder}

pub answer_for-byte : (x : ℕ) → x < 256 → answer_for x ≡ byte x
unfolding answer_for
answer_for-byte x small = ground arith

-- The round of the encoder, with `k` for the rounds that follow.
abbrev pub encode_round :
    Ppmd7
    → SeeRef
    → (esc : ℕ) → (k : ℕ → RangeEnc → Mask → Option (Ppmd7 × RangeEnc)) → Search
    → RangeEnc
    → Option (Ppmd7 × RangeEnc)
encode_round r see esc k result e = elim result [
  | found s low sum ↦ encode_found r e see esc s low sum
  | absent sum m ↦ encode e sum esc (u32 (sum + esc)) >>= λ e'. k sum e' m
]

-- That of the decoder, once it has collected the states that are not masked.
abbrev pub decode_round :
    Ppmd7
    → SeeRef
    → (esc hi : ℕ) → List ℕ
    → (l : RangeDec → Option DecodeResult) → RangeDec
    → Option DecodeResult
decode_round r see esc hi ps l d =
    let freq_sum = u32 (esc + hi) in
    let (count, d') = get_threshold d freq_sum in
    if ltb count hi
    then decode_found r d' see count ps
    else if leb freq_sum count
    then some (with_result data_error d' r)
    else l (decode d' hi (sub32 freq_sum hi))

module _ (r : Ppmd7) (see : SeeRef) (esc n : ℕ) (m : Mask) (s limit x : ℕ) where
  abbrev hi : ℕ
  hi = free_sum n r.mem m s

  abbrev ps : List ℕ
  ps = free_states n r.mem m s

  found-IsCoded :
      (t low total : ℕ)
      → ((a : ℕ) → r.mem a < 256)
      → esc + hi ≤ 2 ^ 16
      → IsSearched n r.mem m s 0 x (found t low total)
      → (k : ℕ → RangeEnc → Mask → Option (Ppmd7 × RangeEnc)) → (l : RangeDec → Option DecodeResult)
      → IsCoded
          (suc limit)
          x
          (encode_round r see esc k (found t low total))
          (decode_round r see esc hi ps l)
  unfolding encode_found decode_found encode_op
  found-IsCoded t low total bytes small (same, from, inside, one, whole, picks) k l =
      let plain : u32 (esc + hi) ≡ esc + hi = omega arith in
      let plain' : u32 (total + esc) ≡ esc + hi = omega arith in
      let below : x < 256 = omega (arith, same, bytes t) in
      IsCoded-step limit x (interval low (freq r t) (esc + hi)) (omega arith) (λ e. rw plain' refl)
        (λ d d' h.
          let a = decode_op-IsAnswered low (freq r t) (esc + hi) h in
          let inside' : (get_threshold d (esc + hi)).0 < hi = omega (arith, a.lt) in
          let back : sub32 (low + freq_at r.mem t) (freq_at r.mem t) ≡ low = omega arith in
          rw
            (
              plain,
              lt→ltb _ _ inside',
              picks (get_threshold d (esc + hi)).0 a.ge a.lt,
              back,
              a.next,
              answer_for-byte x below,
              ← same,
            )
            refl)
        (IsCoded-done limit x
          (update2 (record (put_see r see (see_update (get_see r see))) { found_state = t })))

  absent-IsCoded :
      (total : ℕ) (m' : Mask)
      → 1 ≤ esc
      → esc + hi ≤ 2 ^ 16
      → IsSearched n r.mem m s 0 x (absent total m')
      → (k : ℕ → RangeEnc → Mask → Option (Ppmd7 × RangeEnc)) → (l : RangeDec → Option DecodeResult)
      → (mask_all r.mem ps m x ≡ true → IsCoded limit x (λ e. k hi e (mask_all r.mem ps m)) l)
      → IsCoded
          (suc limit)
          x
          (encode_round r see esc k (absent total m'))
          (decode_round r see esc hi ps l)
  unfolding encode_op
  absent-IsCoded total m' pos small (whole, mask, still) k l rest =
      let plain : u32 (esc + hi) ≡ esc + hi = omega arith in
      let plain' : u32 (hi + esc) ≡ esc + hi = omega arith in
      IsCoded-step limit x (interval hi esc (esc + hi)) (omega arith)
        (λ e. rw (whole, mask, zero-add, plain') refl)
        (λ d d' h.
          let a = decode_op-IsAnswered hi esc (esc + hi) h in
          let above : ltb (get_threshold d (esc + hi)).0 hi ≡ false = ground (arith, a.ge) in
          let below : leb (esc + hi) (get_threshold d (esc + hi)).0 ≡ false =
            ground (arith, a.lt) in
          let back : sub32 (esc + hi) hi ≡ esc = omega arith in
          rw (plain, above, below, back, a.next) refl)
        (rest (sym (ap (λ (f : Mask). f x) mask) ∙ still))

  -- Whatever the search finds, the rounds agree, if the rounds that follow an escape do.
  pub round-IsCoded :
      (result : Search)
      → ((a : ℕ) → r.mem a < 256)
      → 1 ≤ esc
      → esc + hi ≤ 2 ^ 16
      → IsSearched n r.mem m s 0 x result
      → (k : ℕ → RangeEnc → Mask → Option (Ppmd7 × RangeEnc)) → (l : RangeDec → Option DecodeResult)
      → (mask_all r.mem ps m x ≡ true → IsCoded limit x (λ e. k hi e (mask_all r.mem ps m)) l)
      → IsCoded (suc limit) x (encode_round r see esc k result) (decode_round r see esc hi ps l)
  round-IsCoded (found t low total) bytes pos small searched k l rest =
      found-IsCoded t low total bytes small searched k l
  round-IsCoded (absent total m') bytes pos small searched k l rest =
      absent-IsCoded total m' pos small searched k l rest
