-- ===== src/Ppmd8/Encode.antt =====
-- Ppmd8_EncodeSymbol (src/lib/ppmd/Ppmd8Enc.c). A symbol is a byte; any number above 255 is the end
-- mark -1, which no state has. `none` stands for a loop that does not end within its fuel. A context
-- has one state more than NumStats says.
use pyppmd.Base.{
  ℕ, zero, suc, ◌+◌, Option, none, some, ◌>>=◌, ◌==◌, if◌then◌else◌, get_or, set, u16, u32, ◌>>>◌,
}
use pyppmd.Base.Memory.{do_rounds}
use pyppmd.Carryless.Coder.{Encoder, range_encode, range_encode_bit_0, range_encode_bit_1}
use pyppmd.Ppmd7.State.{sub32, one_state}
use pyppmd.Ppmd7.Successors.{chain_fuel}
use pyppmd.Ppmd7.Escape.{SeeRef, see_update, update_prob_0, update_prob_1, exp_escape}
use pyppmd.Ppmd7.Encode.{
  Mask, unmasked, mask_out, mask_states, Scan, hit, miss, scan, found, absent, search_masked,
}
use pyppmd.Ppmd8.State.{Ppmd8, num_stats, summ_freq, stats, suffix, symbol, freq}
use pyppmd.Ppmd8.Escape.{get_see, put_see, make_esc_freq, get_bin_summ}
use pyppmd.Ppmd8.Symbols.{update1, update1_0, update_bin, update2}

-- What the first context does: the symbol is coded, or an escape from it.
pub data First : Type 0 where
  coded : Ppmd8 → Encoder → First
  escaped : Ppmd8 → Encoder → Mask → First

unfoldable pub encode_scan : Ppmd8 → Encoder → Scan → Option First
encode_scan p rc (hit s sum) = range_encode rc sum (freq p s) (summ_freq p p.min_context) >>= λ rc'.
    update1 (record p { found_state = s }) >>= λ q. some (coded q rc')
encode_scan p rc (miss s sum) =
    let c = p.min_context in
    range_encode rc sum (sub32 (summ_freq p c) sum) (summ_freq p c) >>= λ rc'.
    some (escaped p rc' (mask_states (num_stats p c + 1) p.mem s unmasked))

unfoldable pub encode_many : Ppmd8 → Encoder → (sym : ℕ) → Option First
encode_many p rc sym =
    let c = p.min_context in
    let s = stats p c in
    let q = record p { prev_success = 0 } in
    if symbol p s == sym
    then (range_encode rc 0 (freq p s) (summ_freq p c) >>= λ rc'.
        update1_0 (record p { found_state = s }) >>= λ r. some (coded r rc'))
    else encode_scan q rc (scan (do_rounds (num_stats p c)) q.mem s (freq p s) sym)

unfoldable pub encode_bin : Ppmd8 → Encoder → (sym : ℕ) → Option First
encode_bin p rc sym =
    let i = get_bin_summ p in
    let prob = get_or p.bin_summ i 0 in
    let s = one_state p.min_context in
    let prob1 = update_prob_1 prob in
    if symbol p s == sym
    then (range_encode_bit_0 rc prob >>= λ rc'.
        update_bin (record p { bin_summ = set p.bin_summ i (update_prob_0 prob); found_state = s })
        >>= λ r. some (coded r rc'))
    else (range_encode_bit_1 rc prob >>= λ rc'. some (
        escaped
          (record p {
            bin_summ = set p.bin_summ i prob1;
            init_esc = get_or exp_escape (prob1 >>> 10) 0;
            prev_success = 0;
          })
          rc' (mask_out unmasked (symbol p s))))

-- Up the suffixes to a context with other states. `root` is the end of the chain.
pub data Climb : Type 0 where
  root : Ppmd8 → Climb
  reached : Ppmd8 → Climb

unfoldable pub climb : ℕ → Ppmd8 → (num_masked : ℕ) → Option Climb
climb zero p num_masked = none
climb (suc fuel) p num_masked =
    let q = record p { order_fall = u32 (p.order_fall + 1) } in
    let r = record q { min_context = suffix q q.min_context } in
    let rest = climb fuel r num_masked in
    if suffix q q.min_context == 0
    then some (root q)
    else if num_stats r r.min_context == num_masked
    then rest
    else some (reached r)

unfoldable pub encode_found :
    Ppmd8 → Encoder → SeeRef → (esc s low sum : ℕ) → Option (Ppmd8 × Encoder)
encode_found p rc see esc s low sum = range_encode rc low (freq p s) (u32 (sum + esc)) >>= λ rc'.
    update2 (record (put_see p see (see_update (get_see p see))) { found_state = s }) >>= λ q.
    some (q, rc')

-- The end of a round that does not find the symbol.
unfoldable pub add_escape : Ppmd8 → SeeRef → (sum esc : ℕ) → Ppmd8
add_escape p see sum esc =
    let v = get_see p see in put_see p see (record v { summ = u16 (v.summ + sum + esc) })

unfoldable pub encode_escaped : ℕ → Ppmd8 → Encoder → Mask → (sym : ℕ) → Option (Ppmd8 × Encoder)
encode_escaped zero p rc m sym = none
encode_escaped (suc fuel) p rc m sym = climb chain_fuel p (num_stats p p.min_context) >>= elim [
  | root q ↦ some (q, rc)
  | reached q ↦
      let (see, esc, r) = make_esc_freq q (num_stats p p.min_context) in
      let c = r.min_context in
      elim (search_masked (num_stats r c + 1) r.mem m (stats r c) 0 sym) [
        | found s low sum ↦ encode_found r rc see esc s low sum
        | absent sum m' ↦ range_encode rc sum esc (u32 (sum + esc)) >>= λ rc'.
            encode_escaped fuel (add_escape r see sum esc) rc' m' sym
      ]
]

abbrev pub encode_rest : (sym : ℕ) → First → Option (Ppmd8 × Encoder)
encode_rest sym (coded q rc) = some (q, rc)
encode_rest sym (escaped q rc m) = encode_escaped chain_fuel q rc m sym

unfoldable pub encode_symbol : Ppmd8 → Encoder → (sym : ℕ) → Option (Ppmd8 × Encoder)
encode_symbol p rc sym =
    (if num_stats p p.min_context == 0 then encode_bin p rc sym else encode_many p rc sym)
    >>= encode_rest sym
