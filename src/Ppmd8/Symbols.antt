-- ===== src/Ppmd8/Symbols.antt =====
-- NextContext, Ppmd8_Update1, Ppmd8_Update1_0, Ppmd8_UpdateBin and Ppmd8_Update2.
use pyppmd.Base.{
  ◌+◌, ◌-◌, ◌*◌, ◌&&◌, Option, some, ◌>>=◌, ltb, leb, ◌==◌, if◌then◌else◌, to_int, u8, u32,
}
use pyppmd.Base.Memory.{swap_states, successor}
use pyppmd.Ppmd7.State.{state_size, max_freq}
use pyppmd.Ppmd8.State.{Ppmd8, summ_freq, freq, set_summ_freq, set_freq}
use pyppmd.Ppmd8.Update.{update_model}
use pyppmd.Ppmd8.Rescale.{rescale}

unfoldable pub next_context : Ppmd8 → Option Ppmd8
next_context p =
    let c = successor p.mem p.found_state in
    if p.order_fall == 0 && leb p.units_start c
    then some (record p { min_context = c; max_context = c })
    else (update_model p >>= λ q. some (record q { min_context = q.max_context }))

-- `s->Freq += 4` and `SummFreq += 4`.
unfoldable pub count_found : Ppmd8 → Ppmd8
count_found p =
    let q = set_freq p p.found_state (freq p p.found_state + 4) in
    set_summ_freq q q.min_context (summ_freq q q.min_context + 4)

unfoldable pub rescale_found : Ppmd8 → Option Ppmd8
rescale_found p = if ltb max_freq (freq p p.found_state) then rescale p else some p

unfoldable pub update1 : Ppmd8 → Option Ppmd8
unfolding count_found rescale_found next_context
update1 p =
    let q = count_found p in
    let s = q.found_state in
    let before = s - state_size in
    (if ltb (freq q before) (freq q s)
      then rescale_found (record q { mem = swap_states q.mem s before; found_state = before })
      else some q)
    >>= next_context

unfoldable pub update1_0 : Ppmd8 → Option Ppmd8
unfolding rescale_found next_context
update1_0 p =
    let success = to_int (leb (summ_freq p p.min_context) (2 * freq p p.found_state)) in
    let q = record p { prev_success = success; run_length = u32 (p.run_length + success) } in
    let q = set_summ_freq q q.min_context (summ_freq q q.min_context + 4) in
    rescale_found (set_freq q q.found_state (freq q q.found_state + 4)) >>= next_context

unfoldable pub update_bin : Ppmd8 → Option Ppmd8
unfolding next_context
update_bin p =
    let f = freq p p.found_state in
    let q = set_freq p p.found_state (u8 (f + to_int (ltb f 196))) in
    next_context (record q { prev_success = 1; run_length = u32 (q.run_length + 1) })

unfoldable pub update2 : Ppmd8 → Option Ppmd8
unfolding rescale_found
update2 p =
    let q = set_summ_freq p p.min_context (summ_freq p p.min_context + 4) in
    rescale_found (set_freq q q.found_state (freq q q.found_state + 4)) >>= λ r.
    update_model (record r { run_length = r.init_rl }) >>= λ t.
    some (record t { min_context = t.max_context })
