-- ===== src/Ppmd8/Fresh.antt =====
-- The model as Ppmd8_Init leaves it.
use pyppmd.Base.{ℕ, ◌+◌, ◌-◌, ◌*◌, ◌/◌, ◌^◌, ◌≤◌, ◌<◌, ◌≡◌, ◌∙◌, refl, inr, arith, replicate}
use pyppmd.Base.Memory.{Memory, load16, load32, store8, store16, store32}
use pyppmd.Base.Memory.Stored.{load32-store32}
use pyppmd.Ppmd7.State.{num_indexes}
use pyppmd.Ppmd7.Restart.{init_states}
use pyppmd.Ppmd7.Fresh.{
  init_states-outside, init_states-symbol, init_states-freq, load16-init_states, load32-init_states,
}
use pyppmd.Ppmd8.State.{Ppmd8, num_stats, flags, summ_freq, stats, suffix, symbol, freq}
use pyppmd.Ppmd8.Restart.{restart_units, restart_context, restart_model, init}

-- One context without a suffix, whose 256 states lie where the units start, each symbol once and with
-- the count 1; the units behind them are free, up to the context.
pub record IsFresh (p : Ppmd8) : Type 0 where
  pub alone : p.max_context ≡ p.min_context
  pub states : num_stats p p.min_context ≡ 255
  pub no_flags : flags p p.min_context ≡ 0
  pub sum : summ_freq p p.min_context ≡ 257
  pub place : stats p p.min_context ≡ p.units_start
  pub no_suffix : suffix p p.min_context ≡ 0
  pub symbols : (k : ℕ) → k < 256 → symbol p (p.units_start + 6 * k) ≡ k
  pub counts : (k : ℕ) → k < 256 → freq p (p.units_start + 6 * k) ≡ 1
  pub behind : p.lo_unit ≡ p.units_start + 6 * 256
  pub units : p.lo_unit ≤ p.hi_unit
  pub top : p.hi_unit ≡ p.min_context
  pub text_below : p.text ≤ p.units_start
  pub lists : p.free_list ≡ replicate num_indexes 0

-- The context that is written before its states.
abbrev root_memory : (c s : ℕ) → Memory → Memory
root_memory c s m =
    store32 (store16 (store8 (store8 (store32 m (c + 8) 0) c 255) (c + 1) 0) (c + 2) 257) (c + 4) s

module _ (c s : ℕ) (m : Memory) where
  root-num_stats : root_memory c s m c ≡ 255
  unfolding store32 store16 store8
  root-num_stats = ground arith

  root-flags : root_memory c s m (c + 1) ≡ 0
  unfolding store32 store16 store8
  root-flags = ground arith

  root-summ_freq : load16 (root_memory c s m) (c + 2) ≡ 257
  unfolding load16 store32 store16 store8
  root-summ_freq = ground arith

  root-suffix : load32 (root_memory c s m) (c + 8) ≡ 0
  unfolding load32 store32 store16 store8
  root-suffix = ground arith

module _ (r : Ppmd8) (c s : ℕ) (m : Memory)
    (written : r.mem ≡ init_states 256 0 s (root_memory c s m)) (apart : s + 6 * 256 ≤ c)
    (small : s < 2 ^ 32) where
  abbrev first : Memory
  first = root_memory c s m

  written-num_stats : r.mem c ≡ 255
  written-num_stats =
      rw written (init_states-outside 256 0 s first c (inr apart) ∙ root-num_stats c s m)

  written-flags : r.mem (c + 1) ≡ 0
  written-flags =
      rw written (init_states-outside 256 0 s first (c + 1) (inr (omega arith)) ∙ root-flags c s m)

  written-summ_freq : load16 r.mem (c + 2) ≡ 257
  written-summ_freq =
      rw written (load16-init_states 256 0 s first (c + 2) (omega arith) ∙ root-summ_freq c s m)

  written-stats : load32 r.mem (c + 4) ≡ s
  written-stats =
      rw written
        (load32-init_states 256 0 s first (c + 4) (omega arith) ∙ load32-store32 _ (c + 4) s small)

  written-suffix : load32 r.mem (c + 8) ≡ 0
  written-suffix =
      rw written (load32-init_states 256 0 s first (c + 8) (omega arith) ∙ root-suffix c s m)

  written-symbol : (k : ℕ) → k < 256 → r.mem (s + 6 * k) ≡ k
  written-symbol k less = rw written (init_states-symbol 256 0 s first k less ∙ omega arith)

  written-freq : (k : ℕ) → k < 256 → r.mem (s + 6 * k + 1) ≡ 1
  written-freq k less = rw written (init_states-freq 256 0 s first k less)

-- Ppmd8_Init leaves, on a block of at least 2 ^ 11 bytes that is small enough for 32-bit offsets,
-- whatever the block and the rest of the model held, one context: it has no suffix, and 256 states,
-- each symbol once and with the count 1, where the units start; the units behind them are free, up
-- to the context, and the free lists are empty.
pub init-IsFresh :
    (p : Ppmd8) (max_order restore_method : ℕ)
    → 2 ^ 11 ≤ p.size
    → p.align_offset + p.size < 2 ^ 32
    → IsFresh (init p max_order restore_method)
unfolding init restart_model restart_units restart_context
init-IsFresh p max_order restore_method big fits =
    let r = init p max_order restore_method in
    let top = p.align_offset + p.size in
    let s = top - p.size / 8 / 12 * 7 * 12 in
    let c = top - 12 in
    let apart : s + 6 * 256 ≤ c = omega arith in
    let small : s < 2 ^ 32 = omega arith in
    record {
      alone = refl;
      states = written-num_stats r c s p.mem refl apart small;
      no_flags = written-flags r c s p.mem refl apart small;
      sum = written-summ_freq r c s p.mem refl apart small;
      place = written-stats r c s p.mem refl apart small;
      no_suffix = written-suffix r c s p.mem refl apart small;
      symbols = written-symbol r c s p.mem refl apart small;
      counts = written-freq r c s p.mem refl apart small;
      behind = omega arith;
      units = omega arith;
      top = refl;
      text_below = omega arith;
      lists = refl;
    }
