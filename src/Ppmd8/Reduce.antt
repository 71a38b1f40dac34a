-- ===== src/Ppmd8/Reduce.antt =====
-- ReduceOrder. A state `s1` of 0 is NULL, and so is a result 0; `none` stands for a walk that does
-- not end within its fuel.
use pyppmd.Base.{
  ℕ, zero, suc, ◌+◌, ◌-◌, ◌&&◌, false, Option, none, some, ◌>>=◌, ltb, leb, ◌==◌, if◌then◌else◌,
  to_int, u8, u16, u32,
}
use pyppmd.Base.Memory.{successor, set_successor}
use pyppmd.Ppmd7.State.{one_state, max_freq}
use pyppmd.Ppmd7.Successors.{search_fuel, chain_fuel, find_symbol}
use pyppmd.Ppmd8.State.{
  Ppmd8, num_stats, summ_freq, stats, suffix, symbol, freq, set_summ_freq, set_freq,
}
use pyppmd.Ppmd8.Successors.{create_successors}

unfoldable pub count_twice : Ppmd8 → (c s : ℕ) → Ppmd8
count_twice p c s =
    if ltb (freq p s) (max_freq - 9)
    then (let q = set_freq p s (freq p s + 2) in set_summ_freq q c (u16 (summ_freq q c + 2)))
    else p

-- The state of the symbol in the context `c`, with its count raised.
unfoldable pub raise_state : Ppmd8 → (c : ℕ) → Option (ℕ × Ppmd8)
unfolding count_twice
raise_state p c =
    let s = one_state c in
    if num_stats p c == 0
    then some (s, set_freq p s (u8 (freq p s + to_int (ltb (freq p s) 32))))
    else (find_symbol search_fuel p.mem (stats p c) (symbol p p.found_state) >>= λ t.
        some (t, count_twice p c t))

-- Where the walk up the suffixes ends: at the root, or at a state that has a successor.
pub data Reduced : Type 0 where
  at_root : (c : ℕ) → Reduced
  at_state : (c s : ℕ) → Reduced

-- One round behind the choice of the state: its successor becomes the text, if it has none.
unfoldable pub reduce_walk : ℕ → Ppmd8 → (up_branch s1 c : ℕ) → Option (Reduced × Ppmd8)
unfolding raise_state
reduce_walk zero p up_branch s1 c = none
reduce_walk (suc fuel) p up_branch s1 c =
    let c' = suffix p c in
    let next = (if s1 == 0 then raise_state p c' else some (s1, p)) >>= λ r.
    let (s, q) = r in
    let marked = record q {
      mem = set_successor q.mem s up_branch;
      order_fall = u32 (q.order_fall + 1);
    } in
    let rest = reduce_walk fuel marked up_branch 0 c' in
    if successor q.mem s == 0 then rest else some (at_state c' s, q) in
    if s1 == 0 && c' == 0 then some (at_root c, p) else next

-- The successors of the state at the end of the walk are made, where it points into the text.
unfoldable pub reduce_create : Ppmd8 → (up_branch c s : ℕ) → Option Ppmd8
reduce_create p up_branch c s =
    let found = p.found_state in
    if leb (successor p.mem s) up_branch
    then (create_successors (record p { found_state = s }) false 0 c >>= λ r.
        let (succ, q) = r in
        some (record q { mem = set_successor q.mem s succ; found_state = found }))
    else some p

unfoldable pub reduce_end : Ppmd8 → (up_branch c1 : ℕ) → Reduced → Option (ℕ × Ppmd8)
unfolding reduce_create
reduce_end p up_branch c1 (at_root c) = some (c, p)
reduce_end p up_branch c1 (at_state c s) = reduce_create p up_branch c s >>= λ q.
    let r =
      (if q.order_fall == 1 && c1 == q.max_context
        then record q {
          mem = set_successor q.mem q.found_state (successor q.mem s);
          text = q.text - 1;
        }
        else q) in
    some (successor r.mem s, r)

unfoldable pub reduce_order : Ppmd8 → (s1 c : ℕ) → Option (ℕ × Ppmd8)
unfolding reduce_walk reduce_end
reduce_order p s1 c =
    let up_branch = p.text in
    let marked = record p {
      mem = set_successor p.mem p.found_state up_branch;
      order_fall = u32 (p.order_fall + 1);
    } in
    reduce_walk chain_fuel marked up_branch s1 c >>= λ r. reduce_end r.1 up_branch c r.0
