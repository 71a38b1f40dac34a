-- ===== src/Ppmd7/Restart.antt =====
-- RestartModel and Ppmd7_Init.
use pyppmd.Base.{
  ℕ, zero, suc, ◌+◌, ◌-◌, ◌*◌, ◌/◌, ◌^◌, List, [], ◌∷◌, ◌++◌, get_or, replicate, ltb, if◌then◌else◌,
  u16, ◌<<<◌,
}
use pyppmd.Base.Memory.{Memory, store8, set_successor}
use pyppmd.Ppmd7.State.{
  Ppmd7, See, sub32, num_indexes, unit_size, state_size, period_bits, u2b, set_num_stats,
  set_summ_freq, set_stats, set_suffix,
}

abbrev pub bin_scale : ℕ
bin_scale = 2 ^ 14

abbrev pub init_bin_esc : List ℕ
init_bin_esc = 0x3CDD ∷ 0x1F3F ∷ 0x59BF ∷ 0x48F3 ∷ 0x64A1 ∷ 0x5ABC ∷ 0x6632 ∷ 0x6051 ∷ []

-- The states of the order-0 context, with `n` of them left.
unfoldable pub init_states : ℕ → (i s : ℕ) → Memory → Memory
init_states zero i s m = m
init_states (suc n) i s m =
    init_states n (i + 1) (s + state_size) (set_successor (store8 (store8 m s i) (s + 1) 1) s 0)

-- `p->BinSumm[i]`: the value for each `k` stands at each `m + k`.
unfoldable pub bin_value : ℕ → ℕ → ℕ
bin_value i k = u16 (bin_scale - get_or init_bin_esc k 0 / (i + 2))

unfoldable pub bin_octet : ℕ → ℕ → ℕ → List ℕ
unfolding bin_value
bin_octet zero i k = []
bin_octet (suc n) i k = bin_value i k ∷ bin_octet n i (k + 1)

unfoldable pub repeat : ℕ → List ℕ → List ℕ
repeat zero a = []
repeat (suc n) a = a ++ repeat n a

unfoldable pub bin_rows : ℕ → ℕ → List ℕ
unfolding bin_octet repeat
bin_rows zero i = []
bin_rows (suc n) i = repeat 8 (bin_octet 8 i 0) ++ bin_rows n (i + 1)

unfoldable pub see_rows : ℕ → ℕ → List See
see_rows zero i = []
see_rows (suc n) i =
    replicate 16 (record {
      summ = u16 ((5 * i + 10) <<< (period_bits - 4));
      shift = period_bits - 4;
      count = 4;
    })
    ++ see_rows n (i + 1)

-- The pointers, the counters and the order-0 context.
unfoldable pub restart_units : Ppmd7 → Ppmd7
restart_units p =
    let text = p.align_offset in
    let top = text + p.size in
    let start = top - p.size / 8 / unit_size * 7 * unit_size in
    let run = sub32 0 ((if ltb p.max_order 12 then p.max_order else 12) + 1) in
    record p {
      free_list = replicate num_indexes 0;
      text = text;
      hi_unit = top - unit_size;
      lo_unit = start + u2b 128;
      units_start = start;
      glue_count = 0;
      order_fall = p.max_order;
      run_length = run;
      init_rl = run;
      prev_success = 0;
      min_context = top - unit_size;
      max_context = top - unit_size;
      found_state = start;
    }

unfoldable pub restart_context : Ppmd7 → Ppmd7
unfolding init_states
restart_context p =
    let c = p.min_context in
    let q =
      set_stats (set_summ_freq (set_num_stats (set_suffix p c 0) c 256) c 257) c p.found_state in
    record q { mem = init_states 256 0 q.found_state q.mem }

unfoldable pub restart_model : Ppmd7 → Ppmd7
unfolding restart_units restart_context bin_rows see_rows
restart_model p = record (restart_context (restart_units p)) {
  bin_summ = bin_rows 128 0;
  see = see_rows 25 0;
}

unfoldable pub init : Ppmd7 → (max_order : ℕ) → Ppmd7
init p max_order = record (restart_model (record p { max_order = max_order })) {
  dummy_see = record { summ = 0; shift = period_bits; count = 64 };
}
