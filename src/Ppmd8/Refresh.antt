-- ===== src/Ppmd8/Refresh.antt =====
-- Refresh, and the flag that a context has for symbols from 0x40 on.
use pyppmd.Base.{ℕ, zero, suc, ◌+◌, ◌*◌, ◌/◌, ◌^◌, leb, to_int, u8, u16, u32, bit_and, bit_or}
use pyppmd.Base.Memory.{Memory, do_rounds, symbol_at, freq_at, store8, load_state, store_state}
use pyppmd.Ppmd7.State.{sub32, state_size, one_state}
use pyppmd.Ppmd8.State.{
  Ppmd8, num_stats, flags, summ_freq, stats, symbol, freq, set_flags, set_summ_freq, set_stats,
  set_freq,
}
use pyppmd.Ppmd8.Units.{shrink_units}

-- `0x08 * (symbol >= 0x40)`
unfoldable pub high_flag : (sym : ℕ) → ℕ
high_flag sym = 8 * to_int (leb 0x40 sym)

-- The loop over the states: the memory, what is left of the sum, the new sum and the flags.
pub record Scaled : Type 0 where
  pub mem : Memory
  pub esc : ℕ
  pub sum : ℕ
  pub flag_bits : ℕ

-- `(x + scale) >> scale`
unfoldable pub scale_down : (x scale : ℕ) → ℕ
scale_down x scale = (x + scale) / 2 ^ scale

-- The states behind `s`, with `n` of them left.
unfoldable pub scale_states : ℕ → (s scale : ℕ) → Scaled → Scaled
unfolding scale_down high_flag
scale_states zero s scale a = a
scale_states (suc n) s scale a =
    let s' = s + state_size in
    let f = u8 (scale_down (freq_at a.mem s') scale) in
    scale_states n s' scale (record {
      mem = store8 a.mem (s' + 1) f;
      esc = sub32 a.esc (freq_at a.mem s');
      sum = u32 (a.sum + f);
      flag_bits = bit_or a.flag_bits (high_flag (symbol_at a.mem s'));
    })

unfoldable pub refresh : Ppmd8 → (c old_nu scale : ℕ) → Ppmd8
unfolding scale_states
refresh p c old_nu scale =
    let i = num_stats p c in
    let (s, q) = shrink_units p (stats p c) old_nu ((i + 2) / 2) in
    let q = set_stats q c s in
    let f = u8 (scale_down (freq q s) scale) in
    let a = scale_states (do_rounds i) s scale (record {
      mem = store8 q.mem (s + 1) f;
      esc = sub32 (summ_freq q c) (freq q s);
      sum = f;
      flag_bits = bit_and (flags q c) (0x10 + 4 * scale) + high_flag (symbol q s);
    }) in
    let r = set_summ_freq (record q { mem = a.mem }) c (u16 (a.sum + scale_down a.esc scale)) in
    set_flags r c (u8 a.flag_bits)

-- The state at `s` becomes the context's only one: its flags and the copy into the context.
unfoldable pub keep_one : Ppmd8 → (c s : ℕ) → Ppmd8
unfolding high_flag
keep_one p c s =
    let q = set_flags p c (u8 (bit_and (flags p c) 0x10 + high_flag (symbol p s))) in
    record q { mem = store_state q.mem (one_state c) (load_state q.mem s) }

-- `ONE_STATE(c)->Freq = (Byte)((ONE_STATE(c)->Freq + 11) >> 3)`
unfoldable pub lower_one : Ppmd8 → (c : ℕ) → Ppmd8
lower_one p c = set_freq p (one_state c) (u8 ((freq p (one_state c) + 11) / 2 ^ 3))
