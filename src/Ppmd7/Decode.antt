-- ===== src/Ppmd7/Decode.antt =====
-- Ppmd7_DecodeSymbol. `none` stands for a loop that does not end within its fuel.
use pyppmd.Base.{
  ℕ, zero, suc, ◌+◌, Option, none, some, ◌>>=◌, List, [], ◌∷◌, ◌++◌, ltb, leb, ◌==◌, if◌then◌else◌,
  get_or, set, u32, ◌>>>◌,
}
use pyppmd.Base.Memory.{Memory, symbol_at, freq_at, do_rounds}
pub use pyppmd.Coding.{Decoded, byte, end_mark, data_error, Answer, with_result}
use pyppmd.RangeCoder.Dec.{RangeDec, get_threshold, decode, decode_bit}
use pyppmd.Ppmd7.State.{
  Ppmd7, sub32, num_stats, summ_freq, stats, one_state, symbol, freq, state_size,
}
use pyppmd.Ppmd7.Successors.{chain_fuel, search_fuel}
use pyppmd.Ppmd7.Escape.{
  SeeRef, get_see, put_see, see_update, make_esc_freq, update_prob_0, update_prob_1, exp_escape,
  get_bin_summ,
}
use pyppmd.Ppmd7.Symbols.{update1, update1_0, update_bin, update2}
use pyppmd.Ppmd7.Encode.{
  Mask, unmasked, mask_out, mask_states, masked_freq, root, reached, climb, add_escape,
}

abbrev pub DecodeResult : Type 0
DecodeResult = Answer Ppmd7 RangeDec

pub data First : Type 0 where
  done : DecodeResult → First
  escaped : Ppmd7 → RangeDec → Mask → First

-- `do if ((hiCnt += (++s)->Freq) > count) …; while (--i);`
pub data Scan : Type 0 where
  hit : (s hi : ℕ) → Scan
  miss : (s hi : ℕ) → Scan

unfoldable pub scan : ℕ → Memory → (s hi count : ℕ) → Scan
scan zero mem s hi count = miss s hi
scan (suc n) mem s hi count =
    let s' = s + state_size in
    let hi' = u32 (hi + freq_at mem s') in
    let rest = scan n mem s' hi' count in if ltb count hi' then hit s' hi' else rest

unfoldable pub decode_scan : Ppmd7 → RangeDec → (count : ℕ) → Scan → Option First
decode_scan p rc count (hit s hi) =
    let f = freq p s in
    update1 (record p { found_state = s }) >>= λ q.
    some (done (with_result (byte (symbol p s)) (decode rc (sub32 hi f) f) q))
decode_scan p rc count (miss s hi) =
    let c = p.min_context in
    let q = record p { hi_bits_flag = get_or p.hb2flag (symbol p p.found_state) 0 } in
    some (
      if leb (summ_freq p c) count
      then done (with_result data_error rc p)
      else escaped q (decode rc hi (sub32 (summ_freq p c) hi))
          (mask_states (num_stats p c) p.mem s unmasked))

unfoldable pub decode_many : Ppmd7 → RangeDec → Option First
decode_many p rc =
    let c = p.min_context in
    let s = stats p c in
    let f = freq p s in
    let (count, rc') = get_threshold rc (summ_freq p c) in
    let q = record p { prev_success = 0 } in
    if ltb count f
    then (update1_0 (record p { found_state = s }) >>= λ r.
        some (done (with_result (byte (symbol p s)) (decode rc' 0 f) r)))
    else decode_scan q rc' count (scan (do_rounds (sub32 (num_stats p c) 1)) q.mem s f count)

unfoldable pub decode_bin : Ppmd7 → RangeDec → Option First
decode_bin p rc =
    let (i, q) = get_bin_summ p in
    let prob = get_or q.bin_summ i 0 in
    let s = one_state q.min_context in
    let prob1 = update_prob_1 prob in
    let (bit, rc') = decode_bit rc prob in
    if bit == 0
    then (update_bin
          (record q { bin_summ = set q.bin_summ i (update_prob_0 prob); found_state = s })
        >>= λ r. some (done (with_result (byte (symbol q s)) rc' r)))
    else some (
        escaped
          (record q {
            bin_summ = set q.bin_summ i prob1;
            init_esc = get_or exp_escape (prob1 >>> 10) 0;
            prev_success = 0;
          })
          rc' (mask_out unmasked (symbol q s)))

-- The states that are not masked, in order, until there are `num` of them, and their sum.
unfoldable pub collect : ℕ → Memory → Mask → (s num hi : ℕ) → List ℕ → Option (List ℕ × ℕ)
unfolding masked_freq
collect zero mem m s num hi ps = none
collect (suc fuel) mem m s num hi ps =
    let hi' = u32 (hi + masked_freq mem m s) in
    let free = m (symbol_at mem s) in
    let ps' = if free then ps ++ s ∷ [] else ps in
    let num' = if free then sub32 num 1 else num in
    let rest = collect fuel mem m (s + state_size) num' hi' ps' in
    if num' == 0 then some (ps', hi') else rest

-- `for (hiCnt = 0; (hiCnt += (*pps)->Freq) <= count; pps++);` with what `hiCnt` is at the end.
unfoldable pub pick : Memory → (hi count : ℕ) → List ℕ → Option (ℕ × ℕ)
pick mem hi count [] = none
pick mem hi count (s ∷ ps) =
    let hi' = u32 (hi + freq_at mem s) in
    let rest = pick mem hi' count ps in if leb hi' count then rest else some (s, hi')

unfoldable pub mask_all : Memory → List ℕ → Mask → Mask
mask_all mem [] m = m
mask_all mem (s ∷ ps) m = mask_out (mask_all mem ps m) (symbol_at mem s)

unfoldable pub decode_found : Ppmd7 → RangeDec → SeeRef → (count : ℕ) → List ℕ → Option DecodeResult
decode_found p rc see count ps = pick p.mem 0 count ps >>= λ r.
    let (s, hi) = r in
    let f = freq p s in
    update2 (record (put_see p see (see_update (get_see p see))) { found_state = s }) >>= λ q.
    some (with_result (byte (symbol p s)) (decode rc (sub32 hi f) f) q)

unfoldable pub decode_escaped : ℕ → Ppmd7 → RangeDec → Mask → Option DecodeResult
decode_escaped zero p rc m = none
decode_escaped (suc fuel) p rc m =
    let num_masked = num_stats p p.min_context in
    climb chain_fuel p num_masked >>= elim [
      | root q ↦ some (with_result end_mark rc q)
      | reached q ↦
          let c = q.min_context in
          collect search_fuel q.mem m (stats q c) (sub32 (num_stats q c) num_masked) 0 []
          >>= λ found.
              let (ps, hi) = found in
              let (see, esc, r) = make_esc_freq q num_masked in
              let freq_sum = u32 (esc + hi) in
              let (count, rc') = get_threshold rc freq_sum in
              let rest =
                decode_escaped fuel (add_escape r see freq_sum 0)
                  (decode rc' hi (sub32 freq_sum hi)) (mask_all r.mem ps m) in
              if ltb count hi
              then decode_found r rc' see count ps
              else if leb freq_sum count
              then some (with_result data_error rc' r)
              else rest
    ]

abbrev pub decode_rest : First → Option DecodeResult
decode_rest (done r) = some r
decode_rest (escaped q rc m) = decode_escaped chain_fuel q rc m

unfoldable pub decode_symbol : Ppmd7 → RangeDec → Option DecodeResult
decode_symbol p rc =
    (if num_stats p p.min_context == 1 then decode_bin p rc else decode_many p rc) >>= decode_rest
