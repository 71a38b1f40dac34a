-- ===== src/Ppmd7/Update.antt =====
-- UpdateModel. `none` stands for a loop that does not end within its fuel.
use pyppmd.Base.{
  ℕ, zero, suc, ◌+◌, ◌-◌, ◌*◌, ◌/◌, ◌%◌, Bool, true, false, not, ◌&&◌, Option, none, some, ◌>>=◌,
  ltb, leb, ◌==◌, if◌then◌else◌, to_int, u8, u16, u32,
}
use pyppmd.Base.Memory.{
  copy_units, do_rounds, load_state, store_state, successor, set_successor, swap_states, store8,
}
use pyppmd.Ppmd7.State.{
  Ppmd7, sub32, num_stats, summ_freq, stats, suffix, one_state, symbol, freq, state_size, put8,
  max_freq, set_num_stats, set_summ_freq, set_stats, set_freq, u2i,
}
use pyppmd.Ppmd7.Alloc.{insert_node}
use pyppmd.Ppmd7.Units.{alloc_units}
use pyppmd.Ppmd7.Restart.{restart_model}
use pyppmd.Ppmd7.Successors.{find_symbol, search_fuel, chain_fuel, create_successors}

-- In the suffix context the symbol's state moves up by one, and its count grows.
unfoldable pub bump_first : Ppmd7 → (s : ℕ) → ℕ × Ppmd7
bump_first p s =
    if leb (freq p (s - state_size)) (freq p s)
    then (s - state_size, record p { mem = swap_states p.mem s (s - state_size) })
    else (s, p)

unfoldable pub bump_count : Ppmd7 → (c s : ℕ) → Ppmd7
bump_count p c s =
    if ltb (freq p s) (max_freq - 9)
    then (let q = set_freq p s (freq p s + 2) in set_summ_freq q c (summ_freq q c + 2))
    else p

unfoldable pub update_suffix : Ppmd7 → Option Ppmd7
unfolding bump_first bump_count
update_suffix p =
    let c = suffix p p.min_context in
    let s = one_state c in
    let sym = symbol p p.found_state in
    if ltb (freq p p.found_state) (max_freq / 4) && not (suffix p p.min_context == 0)
    then (if num_stats p c == 1
        then some (if ltb (freq p s) 32 then set_freq p s (freq p s + 1) else p)
        else if symbol p (stats p c) == sym
        then some (bump_count p c (stats p c))
        else (find_symbol search_fuel p.mem (stats p c + state_size) sym >>= λ t.
            let (t', q) = bump_first p t in some (bump_count q c t')))
    else some p

-- The units of a context of `ns1` states are extended for one more, if their size class is full.
unfoldable pub expand_units : Ppmd7 → (c ns1 : ℕ) → Option (ℕ × Ppmd7)
expand_units p c ns1 =
    let old_nu = ns1 / 2 in
    let i = u2i p old_nu in
    let old_ptr = stats p c in
    if ns1 % 2 == 0 && not (i == u2i p (old_nu + 1))
    then (alloc_units p (i + 1) >>= λ r.
        let (ptr, q) = r in
        let old = stats q c in
        let q' = record q { mem = copy_units (do_rounds old_nu) q.mem ptr old } in
        some (if ptr == 0 then (0, q) else (ptr, set_stats (insert_node q' old i) c ptr)))
    else some (old_ptr, p)

-- A context of several states makes room; `0` as a first result is a failed allocation.
unfoldable pub grow_many : Ppmd7 → (c ns1 ns : ℕ) → Option (ℕ × Ppmd7)
unfolding expand_units
grow_many p c ns1 ns = expand_units p c ns1 >>= λ r.
    let (ptr, q) = r in
    let summ = summ_freq q c in
    let few = to_int (leb (4 * ns1) ns && leb summ (8 * ns1)) in
    some (
      if ptr == 0
      then (0, q)
      else (ptr, set_summ_freq q c (u16 (summ + to_int (ltb (2 * ns1) ns) + 2 * few))))

-- A context of one state gets a unit for two.
unfoldable pub grow_one : Ppmd7 → (c ns : ℕ) → Option (ℕ × Ppmd7)
grow_one p c ns = alloc_units p 0 >>= λ r.
    let (s, q) = r in
    let q = record q { mem = store_state q.mem s (load_state q.mem (one_state c)) } in
    let q = set_stats q c s in
    let f = freq q s in
    let q = set_freq q s (if ltb f (max_freq / 4 - 1) then 2 * f else max_freq - 4) in
    some (
      if s == 0
      then r
      else (s, set_summ_freq q c (u16 (freq q s + q.init_esc + to_int (ltb 3 ns)))))

-- The frequency that a new state gets, and what its context's sum grows by.
unfoldable pub new_freq : (cf sf : ℕ) → ℕ × ℕ
new_freq cf sf =
    let many =
      4
      + to_int (leb (u32 (9 * sf)) cf)
      + to_int (leb (u32 (12 * sf)) cf)
      + to_int (leb (u32 (15 * sf)) cf) in
    if ltb cf (u32 (6 * sf))
    then (1 + to_int (ltb sf cf) + to_int (leb (u32 (4 * sf)) cf), 3)
    else (many, many)

unfoldable pub add_state : Ppmd7 → (c ns1 s0 succ : ℕ) → Ppmd7
unfolding new_freq
add_state p c ns1 s0 succ =
    let cf = u32 (2 * freq p p.found_state * (summ_freq p c + 6)) in
    let sf = u32 (s0 + summ_freq p c) in
    let (f, grown) = new_freq cf sf in
    let q = set_summ_freq p c (u16 (summ_freq p c + grown)) in
    let s = stats q c + ns1 * state_size in
    let q = record q { mem = set_successor q.mem s succ } in
    let q = put8 q s (symbol q q.found_state) in
    let q = set_freq q s (u8 f) in set_num_stats q c (u16 (ns1 + 1))

-- The contexts from `c` up to MinContext get the symbol. The first result is false where the model
-- was restarted.
unfoldable pub add_states : ℕ → Ppmd7 → (c ns s0 succ : ℕ) → Option (Bool × Ppmd7)
unfolding grow_many grow_one add_state
add_states zero p c ns s0 succ = none
add_states (suc fuel) p c ns s0 succ =
    let ns1 = num_stats p c in
    let next = (if ns1 == 1 then grow_one p c ns else grow_many p c ns1 ns) >>= λ r.
    let q = add_state r.1 c ns1 s0 succ in
    let rest = add_states fuel q (suffix q c) ns s0 succ in
    if r.0 == 0 then some (false, restart_model r.1) else rest in
    if c == p.min_context then some (true, p) else next

-- The last part of UpdateModel, with the successor of the new states and the next context.
unfoldable pub finish_update : Ppmd7 → (succ next : ℕ) → Option Ppmd7
unfolding add_states
finish_update p succ next =
    let ns = num_stats p p.min_context in
    let s0 = sub32 (sub32 (summ_freq p p.min_context) ns) (sub32 (freq p p.found_state) 1) in
    add_states chain_fuel p p.max_context ns s0 succ >>= λ r.
    some (if r.0 then record r.1 { max_context = next; min_context = next } else r.1)

-- `if (--p->OrderFall == 0)`
unfoldable pub lower_order : Ppmd7 → (succ next : ℕ) → Option Ppmd7
unfolding finish_update
lower_order p succ next =
    let q = record p { order_fall = sub32 p.order_fall 1 } in
    if q.order_fall == 0
    then finish_update (record q { text = q.text - to_int (not (q.max_context == q.min_context)) })
        next next
    else finish_update q succ next

-- The symbol is written to the text, and the found state gets a successor.
unfoldable pub extend_text : Ppmd7 → (f_succ : ℕ) → Option Ppmd7
unfolding lower_order
extend_text p f_succ =
    let q = record p { mem = store8 p.mem p.text (symbol p p.found_state); text = p.text + 1 } in
    let succ = q.text in
    if leb q.units_start q.text
    then some (restart_model q)
    else if f_succ == 0
    then finish_update (record q { mem = set_successor q.mem q.found_state succ }) succ
        q.min_context
    else if leb f_succ succ
    then (create_successors q false >>= λ r.
        if r.0 == 0 then some (restart_model r.1) else lower_order r.1 succ r.0)
    else lower_order q succ f_succ

-- At the highest order only the successors of the symbol are made.
unfoldable pub extend_order : Ppmd7 → Option Ppmd7
extend_order p = create_successors p true >>= λ r.
    let (c, q) = r in
    let q = record q { min_context = c; max_context = c } in
    some
      (if c == 0 then restart_model q else record q { mem = set_successor q.mem q.found_state c })

unfoldable pub update_model : Ppmd7 → Option Ppmd7
unfolding update_suffix extend_order extend_text
update_model p =
    let f_succ = successor p.mem p.found_state in
    update_suffix p >>= λ q. if q.order_fall == 0 then extend_order q else extend_text q f_succ
