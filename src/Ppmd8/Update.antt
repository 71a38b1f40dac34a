-- ===== src/Ppmd8/Update.antt =====
-- UpdateModel. `none` stands for a loop that does not end within its fuel.
use pyppmd.Base.{
  ℕ, zero, suc, ◌+◌, ◌-◌, ◌*◌, ◌/◌, ◌%◌, Bool, true, false, not, ◌&&◌, Option, none, some, ◌>>=◌,
  ltb, leb, ◌==◌, if◌then◌else◌, to_int, u8, u16, u32, bit_or,
}
use pyppmd.Base.Memory.{
  copy_units, do_rounds, load_state, store_state, successor, set_successor, swap_states, store8,
}
use pyppmd.Ppmd7.State.{sub32, one_state, state_size, max_freq}
use pyppmd.Ppmd7.Successors.{find_symbol, search_fuel, chain_fuel}
use pyppmd.Ppmd8.State.{
  Ppmd8, num_stats, flags, summ_freq, stats, suffix, symbol, freq, put8, set_num_stats, set_flags,
  set_summ_freq, set_stats, set_freq, u2i,
}
use pyppmd.Ppmd8.Alloc.{insert_node}
use pyppmd.Ppmd8.Units.{alloc_units}
use pyppmd.Ppmd8.Restore.{restore_model}
use pyppmd.Ppmd8.Refresh.{high_flag}
use pyppmd.Ppmd8.Successors.{create_successors}
use pyppmd.Ppmd8.Reduce.{count_twice, reduce_order}

-- In the suffix context the symbol's state moves up by one.
unfoldable pub move_up : Ppmd8 → (s : ℕ) → ℕ × Ppmd8
move_up p s =
    if leb (freq p (s - state_size)) (freq p s)
    then (s - state_size, record p { mem = swap_states p.mem s (s - state_size) })
    else (s, p)

-- The symbol's state in the suffix context, 0 for none, with its count raised.
unfoldable pub update_suffix : Ppmd8 → Option (ℕ × Ppmd8)
unfolding move_up
update_suffix p =
    let c = suffix p p.min_context in
    let s = one_state c in
    let sym = symbol p p.found_state in
    if ltb (freq p p.found_state) (max_freq / 4) && not (suffix p p.min_context == 0)
    then (if num_stats p c == 0
        then some (s, if ltb (freq p s) 32 then set_freq p s (freq p s + 1) else p)
        else if symbol p (stats p c) == sym
        then some (stats p c, count_twice p c (stats p c))
        else (find_symbol search_fuel p.mem (stats p c + state_size) sym >>= λ t.
            let (t', q) = move_up p t in some (t', count_twice q c t')))
    else some (0, p)

-- A full unit of a context of `ns1 + 1` states is extended; a first result 0 is NULL.
unfoldable pub expand_units : Ppmd8 → (c ns1 : ℕ) → Option (ℕ × Ppmd8)
expand_units p c ns1 =
    let old_nu = (ns1 + 1) / 2 in
    let i = u2i p old_nu in
    if ns1 % 2 == 1 && not (i == u2i p (old_nu + 1))
    then (alloc_units p (i + 1) >>= λ r.
        let (ptr, q) = r in
        let old = stats q c in
        let q' = record q { mem = copy_units (do_rounds old_nu) q.mem ptr old } in
        some (if ptr == 0 then (0, q) else (ptr, set_stats (insert_node q' old i) c ptr)))
    else some (stats p c, p)

unfoldable pub grow_many : Ppmd8 → (c ns1 ns : ℕ) → Option (ℕ × Ppmd8)
unfolding expand_units
grow_many p c ns1 ns = expand_units p c ns1 >>= λ r.
    let (ptr, q) = r in
    some (
      if ptr == 0
      then (0, q)
      else (ptr, set_summ_freq q c (u16 (summ_freq q c + to_int (ltb (3 * ns1 + 1) ns)))))

-- A context of one state gets a unit for two.
unfoldable pub grow_one : Ppmd8 → (c ns : ℕ) → Option (ℕ × Ppmd8)
grow_one p c ns = alloc_units p 0 >>= λ r.
    let (s, q) = r in
    let q = record q { mem = store_state q.mem s (load_state q.mem (one_state c)) } in
    let q = set_stats q c s in
    let f = freq q s in
    let q = set_freq q s (if ltb f (max_freq / 4 - 1) then 2 * f else max_freq - 4) in
    some (
      if s == 0
      then r
      else (s, set_summ_freq q c (u16 (freq q s + q.init_esc + to_int (ltb 2 ns)))))

-- The frequency that a new state gets, and what its context's sum grows by.
unfoldable pub new_freq : (cf sf : ℕ) → ℕ × ℕ
new_freq cf sf =
    let many =
      4
      + to_int (ltb (u32 (9 * sf)) cf)
      + to_int (ltb (u32 (12 * sf)) cf)
      + to_int (ltb (u32 (15 * sf)) cf) in
    if ltb cf (u32 (6 * sf))
    then (1 + to_int (ltb sf cf) + to_int (leb (u32 (4 * sf)) cf), 4)
    else (many, many)

-- What the contexts get: a state for the symbol, with the count `f_freq` of the found one.
pub record NewState : Type 0 where
  pub f_symbol : ℕ
  pub f_freq : ℕ
  pub successor_at : ℕ
  pub ns : ℕ
  pub s0 : ℕ

unfoldable pub add_state : Ppmd8 → (c ns1 : ℕ) → NewState → Ppmd8
unfolding new_freq
add_state p c ns1 new =
    let cf = u32 (2 * new.f_freq * (summ_freq p c + 6)) in
    let sf = u32 (new.s0 + summ_freq p c) in
    let (f, grown) = new_freq cf sf in
    let q = set_summ_freq p c (u16 (summ_freq p c + grown)) in
    let s = stats q c + (ns1 + 1) * state_size in
    let q = record q { mem = set_successor q.mem s new.successor_at } in
    let q = set_freq (put8 q s new.f_symbol) s (u8 f) in
    let q = set_flags q c (bit_or (flags q c) (high_flag new.f_symbol)) in
    set_num_stats q c (u8 (ns1 + 1))

-- The contexts from `c` down to MinContext. The first result is false where the model was restored.
unfoldable pub add_states : ℕ → Ppmd8 → (c : ℕ) → NewState → Option (Bool × Ppmd8)
unfolding grow_many grow_one add_state
add_states zero p c new = none
add_states (suc fuel) p c new =
    let ns1 = num_stats p c in
    let next = (if ns1 == 0 then grow_one p c new.ns else grow_many p c ns1 new.ns) >>= λ r.
    let q = add_state r.1 c ns1 new in
    let rest = add_states fuel q (suffix q c) new in
    if r.0 == 0 then (restore_model r.1 c >>= λ t. some (false, t)) else rest in
    if c == p.min_context then some (true, p) else next

-- The part of UpdateModel behind the successor of the found state.
unfoldable pub finish_update : Ppmd8 → (f_freq f_symbol succ f_succ c : ℕ) → Option Ppmd8
unfolding add_states
finish_update p f_freq f_symbol succ f_succ c =
    let lowered = record p { order_fall = sub32 p.order_fall 1 } in
    let last = lowered.order_fall == 0 in
    let q =
      (if last
        then record lowered {
          text = lowered.text - to_int (not (lowered.max_context == lowered.min_context));
        }
        else lowered) in
    let ns = num_stats q q.min_context in
    let new : NewState = record {
      f_symbol = f_symbol;
      f_freq = f_freq;
      successor_at = if last then f_succ else succ;
      ns = ns;
      s0 = sub32 (sub32 (summ_freq q q.min_context) ns) f_freq;
    } in
    add_states chain_fuel q c new >>= λ r.
    some (if r.0 then record r.1 { max_context = f_succ; min_context = f_succ } else r.1)

-- The context that the found state leads to, made where it is still text; 0 is NULL.
unfoldable pub find_next : Ppmd8 → (f_succ s1 : ℕ) → Option (ℕ × Ppmd8)
find_next p f_succ s1 =
    if f_succ == 0
    then reduce_order p s1 p.min_context
    else if ltb f_succ p.units_start
    then create_successors p false s1 p.min_context
    else some (f_succ, p)

-- The symbol is written to the text.
unfoldable pub extend_text : Ppmd8 → (f_freq f_symbol f_succ s1 : ℕ) → Option Ppmd8
unfolding find_next finish_update
extend_text p f_freq f_symbol f_succ s1 =
    let c = p.max_context in
    let q = record p { mem = store8 p.mem p.text (symbol p p.found_state); text = p.text + 1 } in
    if leb q.units_start q.text
    then restore_model q c
    else (find_next q f_succ s1 >>= λ r.
        if r.0 == 0 then restore_model r.1 c else finish_update r.1 f_freq f_symbol q.text r.0 c)

-- At the highest order only the successors of the symbol are made.
unfoldable pub extend_order : Ppmd8 → (s1 : ℕ) → Option Ppmd8
extend_order p s1 =
    let c = p.max_context in
    create_successors p true s1 p.min_context >>= λ r.
    let (cs, q) = r in
    let q = record q { mem = set_successor q.mem q.found_state cs } in
    if cs == 0 then restore_model q c else some (record q { max_context = cs })

unfoldable pub update_model : Ppmd8 → Option Ppmd8
unfolding update_suffix extend_order extend_text
update_model p =
    let f_succ = successor p.mem p.found_state in
    let f_freq = freq p p.found_state in
    let f_symbol = symbol p p.found_state in
    update_suffix p >>= λ r.
    let (s1, q) = r in
    if q.order_fall == 0 && not (f_succ == 0)
    then extend_order q s1
    else extend_text q f_freq f_symbol f_succ s1
