-- ===== src/Ppmd8/Restore.antt =====
-- RestoreModel: what happens when the memory is used up. `none` stands for a loop that does not end
-- within its fuel.
use pyppmd.Base.{
  ℕ, zero, suc, ◌+◌, ◌-◌, ◌*◌, ◌/◌, ◌^◌, ◌||◌, Option, none, some, ◌>>=◌, ltb, ◌==◌, if◌then◌else◌,
  u8, u16,
}
use pyppmd.Ppmd7.State.{one_state}
use pyppmd.Ppmd7.Successors.{chain_fuel}
use pyppmd.Ppmd8.State.{
  Ppmd8, num_stats, summ_freq, stats, suffix, freq, set_num_stats, set_summ_freq, set_freq,
}
use pyppmd.Ppmd8.Units.{special_free_unit}
use pyppmd.Ppmd8.TextArea.{expand_text_area, get_used_memory}
use pyppmd.Ppmd8.Restart.{restart_model}
use pyppmd.Ppmd8.Refresh.{refresh, keep_one, lower_one}
use pyppmd.Ppmd8.CutOff.{cut_off}

-- `PPMD8_RESTORE_METHOD_RESTART` and `PPMD8_RESTORE_METHOD_CUT_OFF`
abbrev pub method_restart : ℕ
method_restart = 0

abbrev pub method_cut_off : ℕ
method_cut_off = 1

-- The contexts that have got the new symbol lose it.
unfoldable pub drop_newest : Ppmd8 → (c : ℕ) → Ppmd8
drop_newest p c =
    let q = set_num_stats p c (u8 (num_stats p c + 2 ^ 8 - 1)) in
    let s = stats q c in
    if num_stats q c == 0
    then lower_one (special_free_unit (keep_one q c s) s) c
    else refresh q c ((num_stats q c + 3) / 2) 0

unfoldable pub drop_chain : ℕ → Ppmd8 → (c c1 : ℕ) → Option Ppmd8
unfolding drop_newest
drop_chain zero p c c1 = none
drop_chain (suc fuel) p c c1 =
    let q = drop_newest p c in
    let rest = drop_chain fuel q (suffix q c) c1 in if c == c1 then some p else rest

-- The others, down to MinContext, are halved.
unfoldable pub age : Ppmd8 → (c : ℕ) → Ppmd8
age p c =
    let f = freq p (one_state c) in
    let q = set_summ_freq p c (u16 (summ_freq p c + 4)) in
    if num_stats p c == 0
    then set_freq p (one_state c) (u8 (f - f / 2))
    else if ltb (128 + 4 * num_stats q c) (summ_freq q c)
    then refresh q c ((num_stats q c + 2) / 2) 1
    else q

unfoldable pub age_chain : ℕ → Ppmd8 → (c : ℕ) → Option Ppmd8
unfolding age
age_chain zero p c = none
age_chain (suc fuel) p c =
    let q = age p c in
    let rest = age_chain fuel q (suffix q c) in if c == p.min_context then some p else rest

-- `while (p->MaxContext->Suffix) p->MaxContext = SUFFIX(p->MaxContext);`
unfoldable pub to_root : ℕ → Ppmd8 → Option Ppmd8
to_root zero p = none
to_root (suc fuel) p =
    let rest = to_root fuel (record p { max_context = suffix p p.max_context }) in
    if suffix p p.max_context == 0 then some p else rest

-- `do { CutOff(…); ExpandTextArea(p); } while (GetUsedMemory(p) > 3 * (p->Size >> 2));`
unfoldable pub cut_rounds : ℕ → Ppmd8 → Option Ppmd8
cut_rounds zero p = none
cut_rounds (suc fuel) p = cut_off chain_fuel p p.max_context 0 >>= λ r.
    expand_text_area r.1 >>= λ q.
    let rest = cut_rounds fuel q in
    if ltb (3 * (q.size / 2 ^ 2)) (get_used_memory q) then rest else some q

unfoldable pub restore_model : Ppmd8 → (c1 : ℕ) → Option Ppmd8
unfolding drop_chain age_chain to_root cut_rounds
restore_model p c1 =
    drop_chain chain_fuel (record p { text = p.align_offset }) p.max_context c1 >>= λ q.
    age_chain chain_fuel q c1 >>= λ r.
    if r.restore_method == method_restart || ltb (get_used_memory r) (r.size / 2)
    then some (restart_model r)
    else (to_root chain_fuel r >>= λ s.
        cut_rounds s.size s >>= λ t. some (record t { glue_count = 0; order_fall = t.max_order }))
