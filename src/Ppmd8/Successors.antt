-- ===== src/Ppmd8/Successors.antt =====
-- CreateSuccessors. A state `s1` of 0 is NULL. `none` stands for a walk that does not end within its
-- fuel, or leaves the array of states empty where the code pops it.
use pyppmd.Base.{
  ℕ, zero, suc, ◌+◌, ◌-◌, ◌*◌, ◌/◌, ◌^◌, not, ◌&&◌, Bool, Option, none, some, ◌>>=◌, List, [], ◌∷◌,
  ltb, leb, ◌==◌, if◌then◌else◌, to_int, u8, u16, u32,
}
use pyppmd.Base.Memory.{CState, store_state, successor, set_successor}
use pyppmd.Ppmd7.State.{sub32, one_state, max_freq}
use pyppmd.Ppmd7.Successors.{search_fuel, chain_fuel, find_symbol, Walk, found, stopped, walk_end}
use pyppmd.Ppmd8.State.{
  Ppmd8, num_stats, summ_freq, stats, suffix, symbol, freq, set_num_stats, set_flags, set_summ_freq,
  set_suffix, set_freq,
}
use pyppmd.Ppmd8.Units.{alloc_context}
use pyppmd.Ppmd8.Refresh.{high_flag}

-- The state of the symbol in the suffix context `c`, whose count grows.
unfoldable pub count_up : Ppmd8 → (c s : ℕ) → Ppmd8
count_up p c s =
    if ltb (freq p s) (max_freq - 9)
    then (let q = set_freq p s (freq p s + 1) in set_summ_freq q c (u16 (summ_freq q c + 1)))
    else p

unfoldable pub count_one : Ppmd8 → (c : ℕ) → Ppmd8
count_one p c =
    let s = one_state c in
    let few = num_stats p (suffix p c) == 0 && ltb (freq p s) 24 in
    set_freq p s (u8 (freq p s + to_int few))

unfoldable pub next_state : Ppmd8 → (s1 c : ℕ) → Option (ℕ × Ppmd8)
unfolding count_up count_one
next_state p s1 c =
    if not (s1 == 0)
    then some (s1, p)
    else if num_stats p c == 0
    then some (one_state c, count_one p c)
    else (find_symbol search_fuel p.mem (stats p c) (symbol p p.found_state) >>= λ s.
        some (s, count_up p c s))

unfoldable pub walk : ℕ → Ppmd8 → (up_branch s1 c : ℕ) → List ℕ → Option (Walk × Ppmd8)
unfolding next_state
walk zero p up_branch s1 c ps = none
walk (suc fuel) p up_branch s1 c ps =
    let c' = suffix p c in
    let next = next_state p s1 c' >>= λ r.
    let (s, q) = r in
    let succ = successor q.mem s in
    let rest = walk fuel q up_branch 0 c' (s ∷ ps) in
    if succ == up_branch then rest else some (walk_end succ ps, q) in
    if c' == 0 then some (stopped c ps, p) else next

-- The frequency of the new contexts' only state, from the context that the symbol comes from.
unfoldable pub up_freq : (state_freq summ num : ℕ) → ℕ
up_freq state_freq summ num =
    let cf = sub32 state_freq 1 in
    let s0 = sub32 (sub32 summ num) cf in
    u8 (
      1
      + (if leb (u32 (2 * cf)) s0
          then to_int (ltb s0 (u32 (5 * cf)))
          else (sub32 (u32 (cf + u32 (2 * s0))) 3) / s0))

unfoldable pub up_state : Ppmd8 → (up_branch c : ℕ) → Option CState
unfolding up_freq
up_state p up_branch c = do
  let sym = p.mem up_branch
  f ←
      (if num_stats p c == 0
        then some (freq p (one_state c))
        else (find_symbol search_fuel p.mem (stats p c) sym >>= λ s.
            some (up_freq (freq p s) (summ_freq p c) (num_stats p c))))
  some (record {
    symbol = sym;
    freq = f;
    successor_low = u16 (up_branch + 1);
    successor_high = u16 (u32 (up_branch + 1) / 2 ^ 16);
  })

-- One context for each state; a result 0 is NULL.
unfoldable pub create_children : Ppmd8 → CState → (flag c : ℕ) → List ℕ → Option (ℕ × Ppmd8)
create_children p up flag c [] = some (c, p)
create_children p up flag c (s ∷ ps) = alloc_context p >>= λ r.
    let c1 = r.0 in
    let q = set_flags (set_num_stats r.1 c1 0) c1 flag in
    let q = record q { mem = store_state q.mem (one_state c1) up } in
    let q = set_suffix q c1 c in
    let q = record q { mem = set_successor q.mem s c1 } in
    let rest = create_children q up flag c1 ps in if c1 == 0 then some (0, r.1) else rest

unfoldable pub build : Ppmd8 → (up_branch : ℕ) → Walk → Option (ℕ × Ppmd8)
unfolding up_state create_children
build p up_branch (found c) = some (c, p)
build p up_branch (stopped c []) = none
build p up_branch (stopped c (s ∷ ps)) =
    let flag = 2 * high_flag (symbol p p.found_state) + high_flag (p.mem up_branch) in
    up_state p up_branch c >>= λ up. create_children p up flag c (s ∷ ps)

unfoldable pub create_successors : Ppmd8 → (skip : Bool) → (s1 c : ℕ) → Option (ℕ × Ppmd8)
unfolding walk build
create_successors p skip s1 c =
    let up_branch = successor p.mem p.found_state in
    walk chain_fuel p up_branch s1 c (if skip then [] else p.found_state ∷ []) >>= λ r.
    build r.1 up_branch r.0
