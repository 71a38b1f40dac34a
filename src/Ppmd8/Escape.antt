-- ===== src/Ppmd8/Escape.antt =====
-- Ppmd8_MakeEscFreq and Ppmd8_GetBinSumm.
use pyppmd.Base.{ℕ, ◌+◌, ◌-◌, ◌*◌, ltb, ◌==◌, if◌then◌else◌, to_int, get_or, set, bit_and, ◌>>>◌}
use pyppmd.Ppmd7.State.{See, one_state}
use pyppmd.Ppmd7.Escape.{SeeRef, dummy, at, no_see, see_mean}
use pyppmd.Ppmd8.State.{Ppmd8, num_stats, flags, summ_freq, suffix, freq}

unfoldable pub get_see : Ppmd8 → SeeRef → See
get_see p dummy = p.dummy_see
get_see p (at i) = get_or p.see i no_see

unfoldable pub put_see : Ppmd8 → SeeRef → See → Ppmd8
put_see p dummy v = record p { dummy_see = v }
put_see p (at i) v = record p { see = set p.see i v }

unfoldable pub see_index : Ppmd8 → (num_masked : ℕ) → ℕ
see_index p num_masked =
    let c = p.min_context in
    let n = num_stats p c in
    32 * (get_or p.ns2indx (n + 2) 0 - 3)
    + (to_int (ltb (11 * (n + 1)) (summ_freq p c))
        + 2 * to_int (ltb (2 * n) (num_stats p (suffix p c) + num_masked))
        + flags p c)

-- The SEE context, the escape's count and the state.
unfoldable pub make_esc_freq : Ppmd8 → (num_masked : ℕ) → SeeRef × ℕ × Ppmd8
unfolding see_index get_see put_see
make_esc_freq p num_masked =
    let ref = at (see_index p num_masked) in
    let (esc, v) = see_mean (get_see p ref) in
    if num_stats p p.min_context == 0xFF then (dummy, 1, p) else (ref, esc, put_see p ref v)

-- The place of a binary context's probability.
unfoldable pub get_bin_summ : Ppmd8 → ℕ
get_bin_summ p =
    let c = p.min_context in
    64 * get_or p.ns2indx (freq p (one_state c) - 1) 0
    + (get_or p.ns2bsindx (num_stats p (suffix p c)) 0
        + p.prev_success
        + flags p c
        + bit_and (p.run_length >>> 26) 0x20)
