-- ===== src/Ppmd7/Initial.antt =====
-- The model as RestartModel and Ppmd7_Init leave it can code each symbol.
use pyppmd.Base.{
  ℕ, zero, suc, ◌+◌, ◌-◌, ◌*◌, ◌/◌, ◌^◌, ◌≤◌, ◌<◌, ◌≡◌, inr, refl, ap, sym, false, arith, ◌∙◌, u32,
}
use pyppmd.Base.Memory.{Memory, symbol_at, freq_at}
use pyppmd.Ppmd7.State.{Ppmd7, num_stats, summ_freq, stats, suffix, freq}
use pyppmd.Ppmd7.Restart.{init_states, restart_units, restart_context, restart_model, init}
use pyppmd.Ppmd7.Encode.{climb}
use pyppmd.Ppmd7.Agree.First.{Counted, sum_behind}
use pyppmd.Ppmd7.Agree.Missed.{mask_states-masked}
use pyppmd.Ppmd7.Agree.Chain.{ends}
use pyppmd.Ppmd7.Agree.Start.{IsManyFit, many_model, many_mask}
use pyppmd.Ppmd7.Agree.Symbol.{IsSound}
use pyppmd.Ppmd7.Fresh.{
  init_states-symbol, init_states-freq, init_states-byte, load16-init_states, load32-init_states,
  root_memory, root-num_stats, root-summ_freq, root-stats, root-suffix, root-byte,
}

-- States that count once each.
module _ (mem : Memory) where
  pub Counted-ones :
      (n s : ℕ) → ((k : ℕ) → k < n → freq_at mem (s + 6 * (k + 1)) ≡ 1) → Counted n mem s
  Counted-ones zero s ones = omega arith
  Counted-ones (suc n) s ones =
      let place : s + 6 ≡ s + 6 * (0 + 1) = omega arith in
      (
        rw place (omega (arith, ones 0 (omega arith))),
        Counted-ones n (s + 6) (λ k small.
            let next : s + 6 + 6 * (k + 1) ≡ s + 6 * (suc k + 1) = omega arith in
            rw next (ones (suc k) (omega arith))),
      )

  pub sum_behind-ones :
      (n s : ℕ) → ((k : ℕ) → k < n → freq_at mem (s + 6 * (k + 1)) ≡ 1) → sum_behind n mem s ≡ n
  unfolding sum_behind
  sum_behind-ones zero s ones = refl
  sum_behind-ones (suc n) s ones =
      let place : s + 6 ≡ s + 6 * (0 + 1) = omega arith in
      let first : freq_at mem (s + 6) ≡ 1 = rw place (ones 0 (omega arith)) in
      omega (
        arith,
        first,
        sum_behind-ones n (s + 6) (λ k small.
            let next : s + 6 + 6 * (k + 1) ≡ s + 6 * (suc k + 1) = omega arith in
            rw next (ones (suc k) (omega arith))),
      )

module _ (r : Ppmd7) (c s : ℕ) (m : Memory) (here : r.min_context ≡ c)
    (written : r.mem ≡ init_states 256 0 s (root_memory c s m)) (bytes : (a : ℕ) → m a < 256)
    (apart : s + 6 * 256 ≤ c) (small : s < 2 ^ 32) where
  abbrev root_first : Memory
  root_first = root_memory c s m

  states-256 : num_stats r r.min_context ≡ 256
  states-256 =
      rw (here, written) (load16-init_states 256 0 s root_first c apart ∙ root-num_stats c s m)

  sum-257 : summ_freq r r.min_context ≡ 257
  sum-257 =
      rw (here, written)
        (load16-init_states 256 0 s root_first (c + 2) (omega arith) ∙ root-summ_freq c s m)

  stats-start : stats r r.min_context ≡ s
  stats-start =
      rw (here, written)
        (load32-init_states 256 0 s root_first (c + 4) (omega arith) ∙ root-stats c s m small)

  suffix-none : suffix r r.min_context ≡ 0
  suffix-none =
      rw (here, written)
        (load32-init_states 256 0 s root_first (c + 8) (omega arith) ∙ root-suffix c s m)

  freq-one : (k : ℕ) → k < 256 → freq_at r.mem (s + 6 * k) ≡ 1
  freq-one k less = rw written (init_states-freq 256 0 s root_first k less)

  first-one : freq r s ≡ 1
  first-one =
      let place : s ≡ s + 6 * 0 = omega arith in ap (freq_at r.mem) place ∙ freq-one 0 (omega arith)

  symbol-byte : (k : ℕ) → k < 256 → symbol_at r.mem (s + 6 * k) ≡ k
  symbol-byte k less = rw written (init_states-symbol 256 0 s root_first k less ∙ omega arith)

  ones : (k : ℕ) → k < 255 → freq_at r.mem (s + 6 * (k + 1)) ≡ 1
  ones k less = freq-one (k + 1) (omega arith)

  masked-byte : (x : ℕ) → x < 256 → many_mask r x ≡ false
  masked-byte x less =
      let place : s + 6 * x ≡ s + 6 * 255 - 6 * (255 - x) = omega arith in
      rw (states-256, stats-start)
        (mask_states-masked 256 r.mem (s + 6 * 255) x _ (255 - x) (omega arith)
          (ap r.mem (sym place) ∙ symbol-byte x less))

  pub fresh-IsManyFit : IsManyFit r
  unfolding climb
  fresh-IsManyFit = record {
    several = omega (arith, states-256);
    states = omega (arith, states-256);
    first = rw stats-start (omega (arith, first-one));
    counted = rw (states-256, stats-start) (Counted-ones r.mem 255 s ones);
    sum =
        rw (states-256, stats-start, sum-257)
          (omega (arith, first-one, sum_behind-ones r.mem 255 s ones));
    small = omega (arith, sum-257);
    bytes = rw written (init_states-byte 256 0 s root_first (root-byte c s m bytes));
    chain =
        ends {q = record (many_model r) { order_fall = u32 (r.order_fall + 1) }}
          (rw suffix-none refl) masked-byte;
  }

-- Ppmd7_Init leaves a model that can code each symbol from its context: on a block of bytes of at
-- least 2 ^ 11, small enough for 32-bit offsets, whatever the block and the rest of the model held.
pub init-IsSound :
    (p : Ppmd7) (max_order : ℕ)
    → ((a : ℕ) → p.mem a < 256)
    → 2 ^ 11 ≤ p.size
    → p.align_offset + p.size < 2 ^ 32
    → IsSound (init p max_order)
unfolding init restart_model restart_units restart_context
init-IsSound p max_order bytes big fits =
    let top = p.align_offset + p.size in
    inr (
      fresh-IsManyFit (init p max_order) (top - 12) (top - p.size / 8 / 12 * 7 * 12) p.mem refl refl
        bytes (omega arith) (omega arith))
