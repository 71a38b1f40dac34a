-- ===== src/Ppmd7/Escape.antt =====
-- Ppmd7_MakeEscFreq, Ppmd_See_Update, and the probabilities of binary contexts.
use pyppmd.Base.{
  ℕ, ◌+◌, ◌-◌, ◌*◌, ◌/◌, ◌^◌, List, [], ◌∷◌, ltb, ◌==◌, if◌then◌else◌, to_int, get_or, set, u8, u16,
  bit_and, ◌<<<◌, ◌>>>◌,
}
use pyppmd.Ppmd7.State.{
  Ppmd7, See, sub32, num_stats, summ_freq, suffix, one_state, symbol, freq, period_bits,
}

-- Where a SEE context stands.
pub data SeeRef : Type 0 where
  dummy : SeeRef
  at : ℕ → SeeRef

abbrev pub no_see : See
no_see = record { summ = 0; shift = 0; count = 0 }

unfoldable pub get_see : Ppmd7 → SeeRef → See
get_see p dummy = p.dummy_see
get_see p (at i) = get_or p.see i no_see

unfoldable pub put_see : Ppmd7 → SeeRef → See → Ppmd7
put_see p dummy v = record p { dummy_see = v }
put_see p (at i) v = record p { see = set p.see i v }

-- `Ppmd_See_Update`
unfoldable pub see_update : See → See
see_update v =
    let count = u8 (v.count + 2 ^ 8 - 1) in
    if ltb v.shift period_bits
    then (if count == 0
        then record {
          summ = u16 (v.summ <<< 1);
          shift = u8 (v.shift + 1);
          count = u8 (3 <<< v.shift);
        }
        else record v { count = count })
    else v

unfoldable pub see_index : Ppmd7 → (num_masked : ℕ) → ℕ
see_index p num_masked =
    let c = p.min_context in
    let n = num_stats p c in
    let non_masked = sub32 n num_masked in
    16 * get_or p.ns2indx (non_masked - 1) 0
    + (to_int (ltb non_masked (sub32 (num_stats p (suffix p c)) n))
        + 2 * to_int (ltb (summ_freq p c) (11 * n))
        + 4 * to_int (ltb non_masked num_masked)
        + p.hi_bits_flag)

-- What a SEE context gives for the escape, with the rest of its sum.
unfoldable pub see_mean : See → ℕ × See
see_mean v =
    let r = v.summ >>> v.shift in
    (r + to_int (r == 0), record v { summ = u16 (v.summ + 2 ^ 16 - r) })

-- The SEE context, the escape's count and the state.
unfoldable pub make_esc_freq : Ppmd7 → (num_masked : ℕ) → SeeRef × ℕ × Ppmd7
unfolding see_index see_mean get_see put_see
make_esc_freq p num_masked =
    let ref = at (see_index p num_masked) in
    let (esc, v) = see_mean (get_see p ref) in
    if num_stats p p.min_context == 256 then (dummy, 1, p) else (ref, esc, put_see p ref v)

abbrev pub get_mean : ℕ → ℕ
get_mean prob = (prob + 2 ^ 5) / 2 ^ 7

-- `PPMD_UPDATE_PROB_0` and `PPMD_UPDATE_PROB_1`
unfoldable pub update_prob_0 : ℕ → ℕ
update_prob_0 prob = u16 (prob + 2 ^ 7 - get_mean prob)

unfoldable pub update_prob_1 : ℕ → ℕ
update_prob_1 prob = u16 (prob - get_mean prob)

abbrev pub exp_escape : List ℕ
exp_escape = 25 ∷ 14 ∷ 9 ∷ 7 ∷ 5 ∷ 5 ∷ 4 ∷ 4 ∷ 4 ∷ 3 ∷ 3 ∷ 3 ∷ 2 ∷ 2 ∷ 2 ∷ 2 ∷ []

-- `Ppmd7_GetBinSumm`: the place of the probability, and the state with HiBitsFlag set.
unfoldable pub get_bin_summ : Ppmd7 → ℕ × Ppmd7
get_bin_summ p =
    let c = p.min_context in
    let s = one_state c in
    let flag = get_or p.hb2flag (symbol p p.found_state) 0 in
    (
      (freq p s - 1) * 64
          + (p.prev_success
              + get_or p.ns2bsindx (num_stats p (suffix p c) - 1) 0
              + flag
              + 2 * get_or p.hb2flag (symbol p s) 0
              + bit_and (p.run_length >>> 26) 0x20),
      record p { hi_bits_flag = flag },
    )
