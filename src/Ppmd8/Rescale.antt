-- ===== src/Ppmd8/Rescale.antt =====
-- Rescale. `none` stands for a loop that does not end within its fuel.
use pyppmd.Base.{
  ℕ, zero, suc, ◌+◌, ◌-◌, ◌*◌, ◌/◌, ◌^◌, not, Option, some, ◌>>=◌, ltb, ◌==◌, if◌then◌else◌, to_int,
  u8, u16, u32, bit_and, bit_or,
}
use pyppmd.Base.Memory.{do_rounds, load_state, store_state, store8}
use pyppmd.Ppmd7.State.{sub32, one_state, state_size, max_freq}
use pyppmd.Ppmd7.Successors.{search_fuel}
use pyppmd.Ppmd7.Rescale.{move_to_front, halve_states, count_zeros}
use pyppmd.Ppmd8.State.{
  Ppmd8, num_stats, flags, summ_freq, stats, symbol, freq, set_num_stats, set_flags, set_summ_freq,
  set_stats, u2i,
}
use pyppmd.Ppmd8.Alloc.{insert_node}
use pyppmd.Ppmd8.Units.{shrink_units}
use pyppmd.Ppmd8.Refresh.{high_flag}

-- Only one state is left: it moves into the context.
unfoldable pub to_one_state : Ppmd8 → (first numb esc : ℕ) → Ppmd8
to_one_state p first numb esc =
    let tmp = load_state p.mem first in
    let f = u8 (sub32 (u32 (2 * tmp.freq + esc)) 1 / esc) in
    let f' = if ltb (max_freq / 3) f then max_freq / 3 else f in
    let c = p.min_context in
    let q = insert_node p first (u2i p ((numb + 2) / 2)) in
    let q = set_flags q c (u8 (bit_and (flags q c) 0x10 + high_flag tmp.symbol)) in
    record q {
      found_state = one_state c;
      mem = store_state q.mem (one_state c) (record tmp { freq = f' });
    }

-- The flags of the states behind `s`, with `n` of them left, joined to those of the context `c`.
unfoldable pub join_flags : ℕ → Ppmd8 → (c s : ℕ) → Ppmd8
join_flags zero p c s = p
join_flags (suc n) p c s =
    let s' = s + state_size in
    join_flags n (set_flags p c (bit_or (flags p c) (high_flag (symbol p s')))) c s'

unfoldable pub finish_rescale : Ppmd8 → (sum esc : ℕ) → Ppmd8
finish_rescale p sum esc =
    let c = p.min_context in
    let q = set_summ_freq p c (u16 (sub32 (u32 (sum + esc)) (esc / 2))) in
    let q = set_flags q c (bit_or (flags q c) 4) in record q { found_state = stats q c }

-- The states whose frequency fell to 0, at the end of the context, are dropped. `0xF7` is `~0x08`
-- on a byte.
unfoldable pub drop_states : Ppmd8 → (sum esc first last : ℕ) → Option Ppmd8
unfolding to_one_state join_flags finish_rescale
drop_states p sum esc first last =
    let c = p.min_context in
    let numb = num_stats p c in
    count_zeros search_fuel p.mem last 0 >>= λ i.
    let q = set_num_stats p c (u8 (numb + 2 ^ 8 - i)) in
    let esc' = u32 (esc + i) in
    let n0 = (numb + 2) / 2 in
    let n1 = (num_stats q c + 2) / 2 in
    let (ptr, shrunk) = shrink_units q first n0 n1 in
    let r = if n0 == n1 then q else set_stats shrunk c ptr in
    let s = stats r c in
    let low = bit_and (flags r c) 0xF7 in
    let r = set_flags r c (bit_or low (high_flag (symbol r s))) in
    some (
      if num_stats q c == 0
      then to_one_state q first numb esc'
      else finish_rescale (join_flags (do_rounds (num_stats r c)) r c s) sum esc')

unfoldable pub rescale : Ppmd8 → Option Ppmd8
unfolding drop_states finish_rescale
rescale p =
    let c = p.min_context in
    let first = stats p c in
    let adder = to_int (not (p.order_fall == 0)) in
    move_to_front search_fuel p.mem p.found_state first (load_state p.mem p.found_state) >>= λ m.
    let q = record p { mem = m } in
    let esc = sub32 (summ_freq q c) (freq q first) in
    let f = u8 ((u8 (freq q first + 4) + adder) / 2) in
    let n = do_rounds (num_stats p c) in
    halve_states n first first adder
      (record { mem = store8 q.mem (first + 1) f; esc = esc; sum = f })
    >>= λ a.
        let last = first + n * state_size in
        let r = record q { mem = a.mem } in
        if freq r last == 0
        then drop_states r a.sum a.esc first last
        else some (finish_rescale r a.sum a.esc)
