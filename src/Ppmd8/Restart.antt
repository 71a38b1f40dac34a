-- ===== src/Ppmd8/Restart.antt =====
-- RestartModel and Ppmd8_Init.
use pyppmd.Base.{
  ℕ, zero, suc, ◌+◌, ◌-◌, ◌*◌, ◌/◌, List, [], ◌∷◌, ◌++◌, get_or, replicate, ltb, ◌==◌,
  if◌then◌else◌, u16, ◌<<<◌,
}
use pyppmd.Ppmd7.State.{See, sub32, num_indexes, unit_size, period_bits, u2b}
use pyppmd.Ppmd7.Restart.{bin_scale, init_bin_esc, init_states, repeat}
use pyppmd.Ppmd8.State.{Ppmd8, set_num_stats, set_flags, set_summ_freq, set_stats, set_suffix}

-- `while (p->NS2Indx[i] == v) i++;`, with the entries from `i` on.
unfoldable pub skip_equal : List ℕ → (i v : ℕ) → ℕ × List ℕ
skip_equal [] i v = (i, [])
skip_equal (x ∷ xs) i v = let rest = skip_equal xs (i + 1) v in if x == v then rest else (i, x ∷ xs)

unfoldable pub bin_value : ℕ → ℕ → ℕ
bin_value i k = u16 (bin_scale - get_or init_bin_esc k 0 / (i + 1))

-- The first eight entries of a row, from `k` on.
unfoldable pub bin_octet : ℕ → ℕ → ℕ → List ℕ
unfolding bin_value
bin_octet zero i k = []
bin_octet (suc n) i k = bin_value i k ∷ bin_octet n i (k + 1)

unfoldable pub bin_rows : ℕ → (m i : ℕ) → List ℕ → List ℕ
unfolding skip_equal bin_octet
bin_rows zero m i entries = []
bin_rows (suc n) m i entries =
    let (i', entries') = skip_equal entries i m in
    repeat 8 (bin_octet 8 i' 0) ++ bin_rows n (m + 1) i' entries'

unfoldable pub see_rows : ℕ → (m i : ℕ) → List ℕ → List See
unfolding skip_equal
see_rows zero m i entries = []
see_rows (suc n) m i entries =
    let (i', entries') = skip_equal entries i (m + 3) in
    replicate 32 (record {
      summ = u16 ((2 * i' + 5) <<< (period_bits - 4));
      shift = period_bits - 4;
      count = 7;
    })
    ++ see_rows n (m + 1) i' entries'

-- The entries from the third on.
unfoldable pub behind_three : List ℕ → List ℕ
behind_three (x ∷ y ∷ z ∷ xs) = xs
behind_three xs = []

-- The pointers, the counters and the order-0 context.
unfoldable pub restart_units : Ppmd8 → Ppmd8
restart_units p =
    let text = p.align_offset in
    let top = text + p.size in
    let start = top - p.size / 8 / unit_size * 7 * unit_size in
    let run = sub32 0 ((if ltb p.max_order 12 then p.max_order else 12) + 1) in
    record p {
      free_list = replicate num_indexes 0;
      stamps = replicate num_indexes 0;
      text = text;
      hi_unit = top - unit_size;
      lo_unit = start + u2b 128;
      units_start = start;
      glue_count = 0;
      order_fall = p.max_order;
      run_length = run;
      init_rl = run;
      prev_success = 0;
      min_context = top - unit_size;
      max_context = top - unit_size;
      found_state = start;
    }

unfoldable pub restart_context : Ppmd8 → Ppmd8
restart_context p =
    let c = p.min_context in
    let q = set_flags (set_num_stats (set_suffix p c 0) c 255) c 0 in
    let q = set_stats (set_summ_freq q c 257) c p.found_state in
    record q { mem = init_states 256 0 q.found_state q.mem }

unfoldable pub restart_model : Ppmd8 → Ppmd8
unfolding restart_units restart_context bin_rows see_rows behind_three
restart_model p = record (restart_context (restart_units p)) {
  bin_summ = bin_rows 25 0 0 p.ns2indx;
  see = see_rows 24 0 0 (behind_three p.ns2indx);
}

unfoldable pub init : Ppmd8 → (max_order restore_method : ℕ) → Ppmd8
unfolding restart_model
init p max_order restore_method =
    record (restart_model (record p { max_order = max_order; restore_method = restore_method })) {
      dummy_see = record { summ = 0; shift = period_bits; count = 64 };
    }
