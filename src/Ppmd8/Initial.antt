-- ===== src/Ppmd8/Initial.antt =====
-- The model as Ppmd8_Init leaves it can code each symbol.
use pyppmd.Base.{ℕ, ◌+◌, ◌*◌, ◌-◌, ◌^◌, ◌≤◌, ◌<◌, ◌≡◌, ap, sym, false, arith, ◌∙◌, u32, refl}
use pyppmd.Base.Memory.{freq_at}
use pyppmd.Ppmd7.Fresh.{init_states-byte, store8-byte, store16-byte, store32-byte}
use pyppmd.Ppmd7.Initial.{Counted-ones, sum_behind-ones}
use pyppmd.Ppmd7.Agree.Missed.{mask_states-masked}
use pyppmd.Ppmd8.State.{Ppmd8}
use pyppmd.Ppmd8.Encode.{climb}
use pyppmd.Ppmd8.Restart.{restart_units, restart_context, restart_model, init}
use pyppmd.Ppmd8.Fresh.{IsFresh, init-IsFresh}
use pyppmd.Ppmd8.Agree.Chain.{ends}
use pyppmd.Ppmd8.Agree.Start.{IsManyFit, many_model, many_mask}

module _ (r : Ppmd8) (fresh : IsFresh r) where
  abbrev s : ℕ
  s = r.units_start

  ones : (k : ℕ) → k < 255 → freq_at r.mem (s + 6 * (k + 1)) ≡ 1
  ones k less = fresh.counts (k + 1) (omega arith)

  first-one : freq_at r.mem s ≡ 1
  first-one =
      let place : s ≡ s + 6 * 0 = omega arith in
      ap (freq_at r.mem) place ∙ fresh.counts 0 (omega arith)

  masked-byte : (x : ℕ) → x < 256 → many_mask r x ≡ false
  masked-byte x less =
      let place : s + 6 * x ≡ s + 6 * 255 - 6 * (255 - x) = omega arith in
      rw (fresh.states, fresh.place)
        (mask_states-masked 256 r.mem (s + 6 * 255) x _ (255 - x) (omega arith)
          (ap r.mem (sym place) ∙ fresh.symbols x less))

  -- A fresh model in a memory of bytes can code each symbol from its context.
  pub IsFresh-IsManyFit : ((a : ℕ) → r.mem a < 256) → IsManyFit r
  unfolding climb
  IsFresh-IsManyFit bytes = record {
    several = omega (arith, fresh.states);
    states = omega (arith, fresh.states);
    first = rw fresh.place (omega (arith, first-one));
    counted = rw (fresh.states, fresh.place) (Counted-ones r.mem 255 s ones);
    sum =
        rw (fresh.states, fresh.place, fresh.sum)
          (omega (arith, first-one, sum_behind-ones r.mem 255 s ones));
    small = omega (arith, fresh.sum);
    bytes = bytes;
    chain =
        ends {q = record (many_model r) { order_fall = u32 (r.order_fall + 1) }}
          (rw fresh.no_suffix refl) masked-byte;
  }

-- Ppmd8_Init leaves a model that can code each symbol from its context: on a block of bytes of at
-- least 2 ^ 11, small enough for 32-bit offsets, whatever the block and the rest of the model held,
-- and for each restoration method.
pub init-IsManyFit :
    (p : Ppmd8) (max_order restore_method : ℕ)
    → ((a : ℕ) → p.mem a < 256)
    → 2 ^ 11 ≤ p.size
    → p.align_offset + p.size < 2 ^ 32
    → IsManyFit (init p max_order restore_method)
unfolding init restart_model restart_units restart_context
init-IsManyFit p max_order restore_method bytes big fits =
    IsFresh-IsManyFit (init p max_order restore_method)
      (init-IsFresh p max_order restore_method big fits)
      (init_states-byte 256 0 _ _ (
        store32-byte _ _ _
          (store16-byte _ _ _ (store8-byte _ _ _ (store8-byte _ _ _ (store32-byte _ _ _ bytes))))))
