-- ===== src/Ppmd7/Rescale.antt =====
-- Rescale. `none` stands for a loop that does not end within its fuel.
use pyppmd.Base.{
  ℕ, zero, suc, ◌+◌, ◌-◌, ◌*◌, ◌/◌, ◌^◌, not, ◌&&◌, Option, none, some, ◌>>=◌, ltb, ◌==◌,
  if◌then◌else◌, to_int, u8, u16, u32,
}
use pyppmd.Base.Memory.{Memory, freq_at, store8, CState, do_rounds, load_state, store_state}
use pyppmd.Ppmd7.State.{
  Ppmd7, sub32, num_stats, summ_freq, stats, one_state, freq, state_size, set_num_stats,
  set_summ_freq, set_stats, u2i,
}
use pyppmd.Ppmd7.Alloc.{insert_node}
use pyppmd.Ppmd7.Units.{shrink_units}
use pyppmd.Ppmd7.Successors.{search_fuel}

-- `for (; s != stats; s--) s[0] = s[-1];` and the store of `tmp` at its end.
unfoldable pub move_to_front : ℕ → Memory → (s first : ℕ) → CState → Option Memory
move_to_front zero m s first tmp = none
move_to_front (suc fuel) m s first tmp =
    let rest =
      move_to_front fuel (store_state m s (load_state m (s - state_size))) (s - state_size) first
        tmp in
    if s == first then some (store_state m s tmp) else rest

-- `do s1[0] = s1[-1]; while (--s1 != stats && tmp.Freq > s1[-1].Freq);` and the store of `tmp`.
unfoldable pub insert_state : ℕ → Memory → (s1 first : ℕ) → CState → Option Memory
insert_state zero m s1 first tmp = none
insert_state (suc fuel) m s1 first tmp =
    let m' = store_state m s1 (load_state m (s1 - state_size)) in
    let s' = s1 - state_size in
    let rest = insert_state fuel m' s' first tmp in
    if not (s' == first) && ltb (m' (s' - state_size + 1)) tmp.freq
    then rest
    else some (store_state m' s' tmp)

pub record Sums : Type 0 where
  pub mem : Memory
  pub esc : ℕ
  pub sum : ℕ

-- The states behind the first are halved and kept in order, with `n` of them left behind `s`.
unfoldable pub halve_states : ℕ → (s first adder : ℕ) → Sums → Option Sums
unfolding insert_state
halve_states zero s first adder a = some a
halve_states (suc n) s first adder a =
    let s' = s + state_size in
    let f = u8 ((freq_at a.mem s' + adder) / 2) in
    let m = store8 a.mem (s' + 1) f in
    let esc = sub32 a.esc (freq_at a.mem s') in
    let sum = u32 (a.sum + f) in
    (if ltb (freq_at m s) (freq_at m s')
      then insert_state search_fuel m s' first (load_state m s')
      else some m)
    >>= λ m'. halve_states n s' first adder (record { mem = m'; esc = esc; sum = sum })

-- `do { i++; } while ((--s)->Freq == 0);`
unfoldable pub count_zeros : ℕ → Memory → (s i : ℕ) → Option ℕ
count_zeros zero mem s i = none
count_zeros (suc fuel) mem s i =
    let rest = count_zeros fuel mem (s - state_size) (i + 1) in
    if freq_at mem (s - state_size) == 0 then rest else some (i + 1)

-- `do { tmp.Freq -= tmp.Freq >> 1; escFreq >>= 1; } while (escFreq > 1);`
unfoldable pub halve_one : ℕ → (f esc : ℕ) → Option ℕ
halve_one zero f esc = none
halve_one (suc fuel) f esc =
    let f' = u8 (f - f / 2) in
    let rest = halve_one fuel f' (esc / 2) in if ltb 1 (esc / 2) then rest else some f'

-- Only one state is left: it moves into the context.
unfoldable pub to_one_state : Ppmd7 → (first numb esc : ℕ) → Option Ppmd7
unfolding halve_one
to_one_state p first numb esc =
    let tmp = load_state p.mem first in
    let c = p.min_context in
    halve_one 33 tmp.freq esc >>= λ f.
    let q = insert_node p first (u2i p ((numb + 1) / 2)) in
    some (record q {
      found_state = one_state c;
      mem = store_state q.mem (one_state c) (record tmp { freq = f });
    })

unfoldable pub finish_rescale : Ppmd7 → (sum esc : ℕ) → Ppmd7
finish_rescale p sum esc =
    let c = p.min_context in
    let q = set_summ_freq p c (u16 (sub32 (u32 (sum + esc)) (esc / 2))) in
    record q { found_state = stats q c }

-- The states whose frequency fell to 0, at the end of the context, are dropped.
unfoldable pub drop_states : Ppmd7 → (sum esc first last : ℕ) → Option Ppmd7
unfolding count_zeros to_one_state finish_rescale
drop_states p sum esc first last =
    let c = p.min_context in
    let numb = num_stats p c in
    count_zeros search_fuel p.mem last 0 >>= λ i.
    let q = set_num_stats p c (u16 (numb + 2 ^ 16 - i)) in
    let esc' = u32 (esc + i) in
    let n0 = (numb + 1) / 2 in
    let n1 = (num_stats q c + 1) / 2 in
    let (ptr, shrunk) = shrink_units q first n0 n1 in
    let r = if n0 == n1 then q else set_stats shrunk c ptr in
    if num_stats q c == 1 then to_one_state q first numb esc' else some (finish_rescale r sum esc')

unfoldable pub rescale : Ppmd7 → Option Ppmd7
unfolding move_to_front halve_states drop_states finish_rescale
rescale p =
    let c = p.min_context in
    let first = stats p c in
    let adder = to_int (not (p.order_fall == 0)) in
    move_to_front search_fuel p.mem p.found_state first (load_state p.mem p.found_state) >>= λ m.
    let q = record p { mem = m } in
    let esc = sub32 (summ_freq q c) (freq q first) in
    let f = u8 ((u8 (freq q first + 4) + adder) / 2) in
    let n = do_rounds (sub32 (num_stats p c) 1) in
    halve_states n first first adder
      (record { mem = store8 q.mem (first + 1) f; esc = esc; sum = f })
    >>= λ a.
        let last = first + n * state_size in
        let r = record q { mem = a.mem } in
        if freq r last == 0
        then drop_states r a.sum a.esc first last
        else some (finish_rescale r a.sum a.esc)
