-- ===== src/Ppmd7/Successors.antt =====
-- CreateSuccessors. `none` stands for a walk that does not end within its fuel, or leaves the array
-- of states empty where the code pops it.
use pyppmd.Base.{
  ℕ, zero, suc, ◌+◌, ◌*◌, ◌/◌, ◌^◌, Bool, Option, none, some, ◌>>=◌, List, [], ◌∷◌, ltb, leb, ◌==◌,
  if◌then◌else◌, to_int, u8, u16, u32,
}
use pyppmd.Base.Memory.{Memory, symbol_at, CState, store_state, successor, set_successor}
use pyppmd.Ppmd7.State.{
  Ppmd7, sub32, num_stats, summ_freq, stats, suffix, one_state, symbol, freq, state_size,
  set_num_stats, set_suffix,
}
use pyppmd.Ppmd7.Units.{alloc_context}

-- A context has at most 256 states.
abbrev pub search_fuel : ℕ
search_fuel = 256

-- A chain of suffixes is as long as the order, which is at most 64, and one more.
abbrev pub chain_fuel : ℕ
chain_fuel = 256

-- `for (s = STATS(c); s->Symbol != sym; s++);`
unfoldable pub find_symbol : ℕ → Memory → (s sym : ℕ) → Option ℕ
find_symbol zero mem s sym = none
find_symbol (suc fuel) mem s sym =
    let rest = find_symbol fuel mem (s + state_size) sym in
    if symbol_at mem s == sym then some s else rest

-- The state of the context `c` that has the symbol.
unfoldable pub state_of : Ppmd7 → (c sym : ℕ) → Option ℕ
unfolding find_symbol
state_of p c sym =
    if num_stats p c == 1 then some (one_state c) else find_symbol search_fuel p.mem (stats p c) sym

-- Where the walk up the suffixes ends: with a context to return, or one to build on, and the states
-- whose successors are to be set, the last one first.
pub data Walk : Type 0 where
  found : ℕ → Walk
  stopped : ℕ → List ℕ → Walk

-- With no state to set, the context of the successor is returned.
unfoldable pub walk_end : (succ : ℕ) → List ℕ → Walk
walk_end succ [] = found succ
walk_end succ (s ∷ ps) = stopped succ (s ∷ ps)

unfoldable pub walk : ℕ → Ppmd7 → (up_branch c : ℕ) → List ℕ → Option Walk
unfolding state_of walk_end
walk zero p up_branch c ps = none
walk (suc fuel) p up_branch c ps =
    let c' = suffix p c in
    let next = state_of p c' (symbol p p.found_state) >>= λ s.
    let succ = successor p.mem s in
    let rest = walk fuel p up_branch c' (s ∷ ps) in
    if succ == up_branch then rest else some (walk_end succ ps) in
    if c' == 0 then some (stopped c ps) else next

-- The frequency of the new contexts' only state, from the context that the symbol comes from.
unfoldable pub up_freq : (state_freq summ num : ℕ) → ℕ
up_freq state_freq summ num =
    let cf = sub32 state_freq 1 in
    let s0 = sub32 (sub32 summ num) cf in
    u8 (
      1
      + (if leb (u32 (2 * cf)) s0
          then to_int (ltb s0 (u32 (5 * cf)))
          else (sub32 (u32 (u32 (2 * cf) + u32 (3 * s0))) 1) / u32 (2 * s0)))

unfoldable pub up_state : Ppmd7 → (up_branch c : ℕ) → Option CState
unfolding find_symbol up_freq
up_state p up_branch c = do
  let sym = p.mem up_branch
  f ←
      (if num_stats p c == 1
        then some (freq p (one_state c))
        else (find_symbol search_fuel p.mem (stats p c) sym >>= λ s.
            some (up_freq (freq p s) (summ_freq p c) (num_stats p c))))
  some (record {
    symbol = sym;
    freq = f;
    successor_low = u16 (up_branch + 1);
    successor_high = u16 (u32 (up_branch + 1) / 2 ^ 16);
  })

-- One context for each state; a result 0 is NULL.
unfoldable pub create_children : Ppmd7 → CState → (c : ℕ) → List ℕ → Option (ℕ × Ppmd7)
create_children p up c [] = some (c, p)
create_children p up c (s ∷ ps) = alloc_context p >>= λ r.
    let c1 = r.0 in
    let q = set_num_stats r.1 c1 1 in
    let q = record q { mem = store_state q.mem (one_state c1) up } in
    let q = set_suffix q c1 c in
    let q = record q { mem = set_successor q.mem s c1 } in
    let rest = create_children q up c1 ps in if c1 == 0 then some (0, r.1) else rest

unfoldable pub build : Ppmd7 → (up_branch : ℕ) → Walk → Option (ℕ × Ppmd7)
unfolding up_state create_children
build p up_branch (found c) = some (c, p)
build p up_branch (stopped c []) = none
build p up_branch (stopped c (s ∷ ps)) =
    up_state p up_branch c >>= λ up. create_children p up c (s ∷ ps)

unfoldable pub create_successors : Ppmd7 → (skip : Bool) → Option (ℕ × Ppmd7)
unfolding walk build
create_successors p skip =
    let up_branch = successor p.mem p.found_state in
    walk chain_fuel p up_branch p.min_context (if skip then [] else p.found_state ∷ [])
    >>= build p up_branch
