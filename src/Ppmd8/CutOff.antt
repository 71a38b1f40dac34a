-- ===== src/Ppmd8/CutOff.antt =====
-- CutOff: the contexts whose text is about to go lose their states, from the leaves down. A result 0
-- is a context that was freed; `none` stands for a recursion that does not end within its fuel.
use pyppmd.Base.{
  ℕ, zero, suc, ◌+◌, ◌-◌, ◌*◌, ◌/◌, ◌^◌, not, ◌||◌, Option, none, some, ◌>>=◌, ltb, leb, ◌==◌,
  if◌then◌else◌, to_int, u8,
}
use pyppmd.Base.Memory.{successor, set_successor, swap_states}
use pyppmd.Ppmd7.State.{state_size, one_state}
use pyppmd.Ppmd7.Successors.{chain_fuel}
use pyppmd.Ppmd8.State.{Ppmd8, num_stats, summ_freq, stats, set_num_stats, set_stats}
use pyppmd.Ppmd8.Units.{free_units, special_free_unit, move_units_up}
use pyppmd.Ppmd8.Refresh.{refresh, keep_one, lower_one}

abbrev put_successor : Ppmd8 → (s v : ℕ) → Ppmd8
put_successor p s v = record p { mem = set_successor p.mem s v }

-- The states from the last one at `s` to the first. `kept` is `i + 1`, how many still have a
-- successor above the text; the others are swapped to the end. `child` cuts off the context of a
-- successor, where the order allows one.
unfoldable pub cut_states :
    ℕ → (Ppmd8 → ℕ → Option (ℕ × Ppmd8)) → Ppmd8 → (c s kept : ℕ) → Option (ℕ × Ppmd8)
cut_states zero child p c s kept = none
cut_states (suc fuel) child p c s kept =
    let dropped = put_successor p s 0 in
    let last = stats p c + (kept - 1) * state_size in
    let swapped = record dropped { mem = swap_states dropped.mem s last } in
    let gone = cut_states fuel child swapped c (s - state_size) (kept - 1) in
    let stays = child p (successor p.mem s) >>= λ r.
    cut_states fuel child (put_successor r.1 s r.0) c (s - state_size) kept in
    if ltb s (stats p c)
    then some (kept, p)
    else if ltb (successor p.mem s) p.units_start
    then gone
    else stays

-- What becomes of a context of several states, of which `kept` are left.
unfoldable pub shed_states : Ppmd8 → (c order kept nu : ℕ) → ℕ × Ppmd8
shed_states p c order kept nu =
    let q = set_num_stats p c (u8 (kept + 2 ^ 8 - 1)) in
    let s = stats q c in
    if kept == num_stats p c + 1 || order == 0
    then (c, p)
    else if kept == 0
    then (0, special_free_unit (free_units q s nu) c)
    else if kept == 1
    then (c, lower_one (free_units (keep_one q c s) s nu) c)
    else (c, refresh q c nu (to_int (ltb (16 * (kept - 1)) (summ_freq q c))))

-- A context of one state, behind the cut of its successor.
unfoldable pub shed_one : Ppmd8 → (c order : ℕ) → ℕ × Ppmd8
shed_one p c order =
    if not (successor p.mem (one_state c) == 0) || leb order 9
    then (c, p)
    else (0, special_free_unit p c)

unfoldable pub cut_off : ℕ → Ppmd8 → (c order : ℕ) → Option (ℕ × Ppmd8)
unfolding cut_states shed_states shed_one
cut_off zero p c order = none
cut_off (suc fuel) p c order =
    let child = λ (q : Ppmd8) (c' : ℕ).
      let deeper = cut_off fuel q c' (order + 1) in
      if ltb order q.max_order then deeper else some (0, q) in
    let s = one_state c in
    let one =
      (if leb p.units_start (successor p.mem s)
        then (child p (successor p.mem s) >>= λ r.
            some (shed_one (put_successor r.1 s r.0) c order))
        else some (0, special_free_unit p c)) in
    let nu = (num_stats p c + 2) / 2 in
    let (ptr, moved) = move_units_up p (stats p c) nu in
    let q = set_stats moved c ptr in
    let several =
      cut_states (chain_fuel + 1) child q c (stats q c + num_stats q c * state_size)
        (num_stats q c + 1)
      >>= λ r. some (shed_states r.1 c order r.0 nu) in
    if num_stats p c == 0 then one else several
