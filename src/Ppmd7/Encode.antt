-- ===== src/Ppmd7/Encode.antt =====
-- Ppmd7_EncodeSymbol. A symbol is a byte; any number above 255 is the end mark -1, which no state
-- has. `none` stands for a loop that does not end within its fuel.
use pyppmd.Base.{
  ℕ, zero, suc, ◌+◌, ◌-◌, Bool, true, false, Option, none, some, ◌>>=◌, ◌==◌, if◌then◌else◌, get_or,
  set, u16, u32, ◌>>>◌,
}
use pyppmd.Base.Memory.{Memory, symbol_at, freq_at, do_rounds}
use pyppmd.RangeCoder.Enc.{RangeEnc, encode, encode_bit_0, encode_bit_1}
use pyppmd.Ppmd7.State.{
  Ppmd7, sub32, num_stats, summ_freq, stats, suffix, one_state, symbol, freq, state_size,
}
use pyppmd.Ppmd7.Successors.{chain_fuel}
use pyppmd.Ppmd7.Escape.{
  SeeRef, get_see, put_see, see_update, make_esc_freq, update_prob_0, update_prob_1, exp_escape,
  get_bin_summ,
}
use pyppmd.Ppmd7.Symbols.{update1, update1_0, update_bin, update2}

-- `charMask`: false where the byte is 0, true where it is 0xFF.
abbrev pub Mask : Type 0
Mask = ℕ → Bool

unfoldable pub unmasked : Mask
unmasked x = true

unfoldable pub mask_out : Mask → ℕ → Mask
mask_out m sym x = if x == sym then false else m x

-- `Freq & MASK(Symbol)`
unfoldable pub masked_freq : Memory → Mask → (s : ℕ) → ℕ
masked_freq mem m s = if m (symbol_at mem s) then freq_at mem s else 0

-- Out of the states from `s` down, `n` of them, each symbol is masked.
unfoldable pub mask_states : ℕ → Memory → (s : ℕ) → Mask → Mask
mask_states zero mem s m = m
mask_states (suc n) mem s m = mask_states n mem (s - state_size) (mask_out m (symbol_at mem s))

-- The search through the states behind the first.
pub data Scan : Type 0 where
  hit : (s sum : ℕ) → Scan
  miss : (s sum : ℕ) → Scan

unfoldable pub scan : ℕ → Memory → (s sum sym : ℕ) → Scan
scan zero mem s sum sym = miss s sum
scan (suc n) mem s sum sym =
    let s' = s + state_size in
    let rest = scan n mem s' (u32 (sum + freq_at mem s')) sym in
    if symbol_at mem s' == sym then hit s' sum else rest

-- What the first context does: the symbol is coded, or an escape from it.
pub data First : Type 0 where
  coded : Ppmd7 → RangeEnc → First
  escaped : Ppmd7 → RangeEnc → Mask → First

unfoldable pub encode_scan : Ppmd7 → RangeEnc → Scan → Option First
encode_scan p rc (hit s sum) = encode rc sum (freq p s) (summ_freq p p.min_context) >>= λ rc'.
    update1 (record p { found_state = s }) >>= λ q. some (coded q rc')
encode_scan p rc (miss s sum) =
    let c = p.min_context in
    let q = record p { hi_bits_flag = get_or p.hb2flag (symbol p p.found_state) 0 } in
    encode rc sum (sub32 (summ_freq p c) sum) (summ_freq p c) >>= λ rc'.
    some (escaped q rc' (mask_states (num_stats p c) p.mem s unmasked))

unfoldable pub encode_many : Ppmd7 → RangeEnc → (sym : ℕ) → Option First
encode_many p rc sym =
    let c = p.min_context in
    let s = stats p c in
    let q = record p { prev_success = 0 } in
    if symbol p s == sym
    then (encode rc 0 (freq p s) (summ_freq p c) >>= λ rc'.
        update1_0 (record p { found_state = s }) >>= λ r. some (coded r rc'))
    else encode_scan q rc (scan (do_rounds (sub32 (num_stats p c) 1)) q.mem s (freq p s) sym)

unfoldable pub encode_bin : Ppmd7 → RangeEnc → (sym : ℕ) → Option First
encode_bin p rc sym =
    let (i, q) = get_bin_summ p in
    let prob = get_or q.bin_summ i 0 in
    let s = one_state q.min_context in
    let prob1 = update_prob_1 prob in
    if symbol q s == sym
    then (encode_bit_0 rc prob >>= λ rc'.
        update_bin (record q { bin_summ = set q.bin_summ i (update_prob_0 prob); found_state = s })
        >>= λ r. some (coded r rc'))
    else (encode_bit_1 rc prob >>= λ rc'. some (
        escaped
          (record q {
            bin_summ = set q.bin_summ i prob1;
            init_esc = get_or exp_escape (prob1 >>> 10) 0;
            prev_success = 0;
          })
          rc' (mask_out unmasked (symbol q s))))

-- Up the suffixes to a context with other states. `root` is the end of the chain.
pub data Climb : Type 0 where
  root : Ppmd7 → Climb
  reached : Ppmd7 → Climb

unfoldable pub climb : ℕ → Ppmd7 → (num_masked : ℕ) → Option Climb
climb zero p num_masked = none
climb (suc fuel) p num_masked =
    let q = record p { order_fall = u32 (p.order_fall + 1) } in
    let r = record q { min_context = suffix q q.min_context } in
    let rest = climb fuel r num_masked in
    if suffix q q.min_context == 0
    then some (root q)
    else if num_stats r r.min_context == num_masked
    then rest
    else some (reached r)

-- The sum of what is not masked from `s` on.
unfoldable pub rest_sum : ℕ → Memory → Mask → (s sum : ℕ) → ℕ
unfolding masked_freq
rest_sum zero mem m s sum = sum
rest_sum (suc n) mem m s sum = rest_sum n mem m (s + state_size) (u32 (sum + masked_freq mem m s))

-- The search in a context that is escaped to. A hit has what lies below it and the whole sum.
pub data Search : Type 0 where
  found : (s low sum : ℕ) → Search
  absent : (sum : ℕ) → Mask → Search

unfoldable pub search_masked : ℕ → Memory → Mask → (s sum sym : ℕ) → Search
unfolding masked_freq
search_masked zero mem m s sum sym = absent sum m
search_masked (suc n) mem m s sum sym =
    let sum' = u32 (sum + masked_freq mem m s) in
    let rest = search_masked n mem (mask_out m (symbol_at mem s)) (s + state_size) sum' sym in
    if symbol_at mem s == sym then found s sum (rest_sum (suc n) mem m s sum) else rest

unfoldable pub encode_found :
    Ppmd7 → RangeEnc → SeeRef → (esc s low sum : ℕ) → Option (Ppmd7 × RangeEnc)
encode_found p rc see esc s low sum = encode rc low (freq p s) (u32 (sum + esc)) >>= λ rc'.
    update2 (record (put_see p see (see_update (get_see p see))) { found_state = s }) >>= λ q.
    some (q, rc')

-- The end of a round that does not find the symbol.
unfoldable pub add_escape : Ppmd7 → SeeRef → (sum esc : ℕ) → Ppmd7
add_escape p see sum esc =
    let v = get_see p see in put_see p see (record v { summ = u16 (v.summ + sum + esc) })

unfoldable pub encode_escaped : ℕ → Ppmd7 → RangeEnc → Mask → (sym : ℕ) → Option (Ppmd7 × RangeEnc)
encode_escaped zero p rc m sym = none
encode_escaped (suc fuel) p rc m sym = climb chain_fuel p (num_stats p p.min_context) >>= elim [
  | root q ↦ some (q, rc)
  | reached q ↦
      let (see, esc, r) = make_esc_freq q (num_stats p p.min_context) in
      let c = r.min_context in
      elim (search_masked (do_rounds (num_stats r c)) r.mem m (stats r c) 0 sym) [
        | found s low sum ↦ encode_found r rc see esc s low sum
        | absent sum m' ↦ encode rc sum esc (u32 (sum + esc)) >>= λ rc'.
            encode_escaped fuel (add_escape r see sum esc) rc' m' sym
      ]
]

abbrev pub encode_rest : (sym : ℕ) → First → Option (Ppmd7 × RangeEnc)
encode_rest sym (coded q rc) = some (q, rc)
encode_rest sym (escaped q rc m) = encode_escaped chain_fuel q rc m sym

unfoldable pub encode_symbol : Ppmd7 → RangeEnc → (sym : ℕ) → Option (Ppmd7 × RangeEnc)
encode_symbol p rc sym =
    (if num_stats p p.min_context == 1 then encode_bin p rc sym else encode_many p rc sym)
    >>= encode_rest sym
