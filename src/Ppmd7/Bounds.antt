-- ===== src/Ppmd7/Bounds.antt =====
-- Bounds of the binary probabilities: PPMD_UPDATE_PROB_0 and PPMD_UPDATE_PROB_1.
use pyppmd.Base.{ℕ, ◌^◌, ◌≤◌, ◌<◌, arith}
use pyppmd.Ppmd7.Escape.{update_prob_0, update_prob_1}

-- A probability that the range coder takes.
abbrev pub IsShare : ℕ → Type 0
IsShare prob = (1 ≤ prob) × (prob < 2 ^ 14)

-- From a probability above 0 and below 2 ^ 14, both updates lead to one of this kind; the update for
-- the expected symbol does not lower it, the one for an escape does not raise it.
pub update_prob-IsShare :
    (prob : ℕ)
    → IsShare prob
    → IsShare (update_prob_0 prob)
      × IsShare (update_prob_1 prob)
      × (prob ≤ update_prob_0 prob)
      × (update_prob_1 prob ≤ prob)
unfolding update_prob_0 update_prob_1
update_prob-IsShare prob (pos, small) = omega arith
