-- ===== src/Ppmd8/Decode.antt =====
-- Ppmd8_DecodeSymbol (src/lib/ppmd/Ppmd8Dec.c). `none` stands for a loop that does not end within
-- its fuel.
use pyppmd.Base.{
  ℕ, zero, suc, ◌+◌, ◌^◌, Option, none, some, ◌>>=◌, List, [], ltb, leb, ◌==◌, if◌then◌else◌,
  get_or, set, u32, ◌>>>◌,
}
use pyppmd.Base.Memory.{do_rounds}
use pyppmd.Coding.{byte, end_mark, data_error, Answer, with_result}
use pyppmd.Carryless.Coder.{Decoder, range_threshold, range_decode}
use pyppmd.Carryless.Ops.{bit_threshold}
use pyppmd.Ppmd7.State.{sub32, one_state}
use pyppmd.Ppmd7.Successors.{chain_fuel, search_fuel}
use pyppmd.Ppmd7.Escape.{SeeRef, see_update, update_prob_0, update_prob_1, exp_escape}
use pyppmd.Ppmd7.Encode.{Mask, unmasked, mask_out, mask_states}
use pyppmd.Ppmd7.Decode.{Scan, hit, miss, scan, collect, pick, mask_all}
use pyppmd.Ppmd8.State.{Ppmd8, num_stats, summ_freq, stats, symbol, freq}
use pyppmd.Ppmd8.Escape.{get_see, put_see, make_esc_freq, get_bin_summ}
use pyppmd.Ppmd8.Symbols.{update1, update1_0, update_bin, update2}
use pyppmd.Ppmd8.Encode.{root, reached, climb, add_escape}

abbrev pub DecodeResult : Type 0
DecodeResult = Answer Ppmd8 Decoder

pub data First : Type 0 where
  done : DecodeResult → First
  escaped : Ppmd8 → Decoder → Mask → First

unfoldable pub decode_scan : Ppmd8 → Decoder → (count : ℕ) → Scan → Option First
decode_scan p rc count (hit s hi) =
    let f = freq p s in
    range_decode rc (sub32 hi f) f >>= λ rc'. update1 (record p { found_state = s }) >>= λ q.
    some (done (with_result (byte (symbol p s)) rc' q))
decode_scan p rc count (miss s hi) =
    let c = p.min_context in
    if leb (summ_freq p c) count
    then some (done (with_result data_error rc p))
    else (range_decode rc hi (sub32 (summ_freq p c) hi) >>= λ rc'.
        some (escaped p rc' (mask_states (num_stats p c + 1) p.mem s unmasked)))

unfoldable pub decode_many : Ppmd8 → Decoder → Option First
decode_many p rc =
    let c = p.min_context in
    let s = stats p c in
    let f = freq p s in
    let (count, rc') = range_threshold rc (summ_freq p c) in
    let q = record p { prev_success = 0 } in
    if ltb count f
    then (range_decode rc' 0 f >>= λ t. update1_0 (record p { found_state = s }) >>= λ r.
        some (done (with_result (byte (symbol p s)) t r)))
    else decode_scan q rc' count (scan (do_rounds (num_stats p c)) q.mem s f count)

unfoldable pub decode_bin : Ppmd8 → Decoder → Option First
decode_bin p rc =
    let i = get_bin_summ p in
    let prob = get_or p.bin_summ i 0 in
    let s = one_state p.min_context in
    let prob1 = update_prob_1 prob in
    let (count, rc') = bit_threshold rc in
    if ltb count prob
    then (range_decode rc' 0 prob >>= λ t.
        update_bin (record p { bin_summ = set p.bin_summ i (update_prob_0 prob); found_state = s })
        >>= λ r. some (done (with_result (byte (symbol p s)) t r)))
    else (range_decode rc' prob (sub32 (2 ^ 14) prob) >>= λ t. some (
        escaped
          (record p {
            bin_summ = set p.bin_summ i prob1;
            init_esc = get_or exp_escape (prob1 >>> 10) 0;
            prev_success = 0;
          })
          t (mask_out unmasked (symbol p s))))

unfoldable pub decode_found : Ppmd8 → Decoder → SeeRef → (count : ℕ) → List ℕ → Option DecodeResult
decode_found p rc see count ps = pick p.mem 0 count ps >>= λ r.
    let (s, hi) = r in
    let f = freq p s in
    range_decode rc (sub32 hi f) f >>= λ rc'.
    update2 (record (put_see p see (see_update (get_see p see))) { found_state = s }) >>= λ q.
    some (with_result (byte (symbol p s)) rc' q)

unfoldable pub decode_escaped : ℕ → Ppmd8 → Decoder → Mask → Option DecodeResult
decode_escaped zero p rc m = none
decode_escaped (suc fuel) p rc m =
    let num_masked = num_stats p p.min_context in
    climb chain_fuel p num_masked >>= elim [
      | root q ↦ some (with_result end_mark rc q)
      | reached q ↦
          let c = q.min_context in
          collect search_fuel q.mem m (stats q c) (sub32 (num_stats q c) num_masked) 0 []
          >>= λ found.
              let (ps, hi) = found in
              let (see, esc, r) = make_esc_freq q num_masked in
              let freq_sum = u32 (esc + hi) in
              let (count, rc') = range_threshold rc freq_sum in
              let rest =
                (range_decode rc' hi (sub32 freq_sum hi) >>= λ t.
                decode_escaped fuel (add_escape r see freq_sum 0) t (mask_all r.mem ps m)) in
              if ltb count hi
              then decode_found r rc' see count ps
              else if leb freq_sum count
              then some (with_result data_error rc' r)
              else rest
    ]

abbrev pub decode_rest : First → Option DecodeResult
decode_rest (done r) = some r
decode_rest (escaped q rc m) = decode_escaped chain_fuel q rc m

unfoldable pub decode_symbol : Ppmd8 → Decoder → Option DecodeResult
decode_symbol p rc =
    (if num_stats p p.min_context == 0 then decode_bin p rc else decode_many p rc) >>= decode_rest
