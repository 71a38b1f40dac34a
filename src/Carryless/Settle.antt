-- ===== src/Carryless/Settle.antt =====
-- What the condition of the normalising loops decides.
use pyppmd.Base.{
  ℕ, ◌+◌, ◌-◌, ◌/◌, ◌%◌, ◌^◌, ◌≤◌, ◌<◌, ◌≡◌, ◌⊎◌, inl, inr, refl, ◌∙◌, leb, Option, none, some, ltb,
  Bool-cases, ltb→lt, bit_and, bit_xor, u32, arith,
}
use pyppmd.Carryless.Coder.{settle}
use pyppmd.Carryless.Digits.{bit_xor-same_top, same_top-bit_xor, bit_and-low}

-- The interval from `low` on of the width `range` lies below 2 ^ 32. Where it ends there, its start
-- has a top byte, so that the wrapped end cannot pass for one with the same top byte.
pub record IsFair (low range : ℕ) : Type 0 where
  pub pos : 1 ≤ range
  pub low_lt : low < 2 ^ 32
  pub range_lt : range < 2 ^ 32
  pub inside : low + range ≤ 2 ^ 32
  pub top : (low + range < 2 ^ 32) ⊎ (2 ^ 24 ≤ low)

-- The part of the interval, of the width `part`, that is scaled: its numbers have the top byte of
-- `low`.
pub record IsPart (low range part : ℕ) : Type 0 where
  pub pos : 1 ≤ part
  pub le : part ≤ range
  pub same_top : low % 2 ^ 24 + part ≤ 2 ^ 24
  pub cut :
      ((part ≡ range) × (low % 2 ^ 24 + range < 2 ^ 24))
      ⊎ ((range < 2 ^ 15) × (low % 2 ^ 24 + part ≡ 2 ^ 24))

abbrev pub IsSettled : (low range : ℕ) → Option ℕ → Type 0
IsSettled low range none = 2 ^ 15 ≤ range
IsSettled low range (some part) = IsPart low range part

module _ (low range : ℕ) (fair : IsFair low range) where
  same_below : low / 2 ^ 24 ≡ u32 (low + range) / 2 ^ 24 → low % 2 ^ 24 + range < 2 ^ 24
  same_below same = elim fair.top [
    | inl below ↦ omega (arith, same, below, fair.pos)
    | inr high ↦ omega (arith, same, high, fair.pos, fair.inside, fair.low_lt)
  ]

  same-IsPart : low / 2 ^ 24 ≡ u32 (low + range) / 2 ^ 24 → IsPart low range range
  same-IsPart same = record {
    pos = fair.pos;
    le = omega arith;
    same_top = omega (arith, same_below same);
    cut = inl (refl, same_below same);
  }

  -- A short interval that does not keep its top byte crosses one multiple of 2 ^ 24.
  crossed :
      (2 ^ 24 ≤ bit_xor low (u32 (low + range)))
      → range < 2 ^ 15
      → (2 ^ 24 ≤ low % 2 ^ 24 + range) × (1 ≤ low % 2 ^ 24)
  crossed differs small = elim (Bool-cases (leb (2 ^ 24) (low % 2 ^ 24 + range))) [
    | inl over ↦ (ground (arith, over), ground (arith, over))
    | inr under ↦
        let below : low % 2 ^ 24 + range < 2 ^ 24 = ground (arith, under) in
        let same : low / 2 ^ 24 ≡ u32 (low + range) / 2 ^ 24 =
          omega (arith, fair.inside, fair.low_lt, fair.pos) in
        absurd (omega (arith, same_top-bit_xor low (u32 (low + range)) same, differs))
  ]

  cut-IsPart :
      (2 ^ 24 ≤ bit_xor low (u32 (low + range)))
      → range < 2 ^ 15
      → IsPart low range (bit_and (u32 (2 ^ 32 - low)) (2 ^ 15 - 1))
  cut-IsPart differs small =
      let part : bit_and (u32 (2 ^ 32 - low)) (2 ^ 15 - 1) ≡ 2 ^ 24 - low % 2 ^ 24 =
        bit_and-low (u32 (2 ^ 32 - low)) ∙ omega (arith, crossed differs small) in
      let (ends, pos) = crossed differs small in
      rw part (record {
        pos = omega arith;
        le = omega arith;
        same_top = omega arith;
        cut = inr (omega arith);
      })

  pub settle-IsSettled : IsSettled low range (settle low range)
  unfolding settle
  settle-IsSettled = elim (Bool-cases (ltb (bit_xor low (u32 (low + range))) (2 ^ 24))) [
    | inl same ↦ rw same (same-IsPart (bit_xor-same_top low (u32 (low + range)) (ltb→lt _ _ same)))
    | inr differs ↦ elim (Bool-cases (ltb range (2 ^ 15))) [
      | inl small ↦ rw (differs, small) (cut-IsPart (ground (arith, differs)) (ltb→lt _ _ small))
      | inr large ↦ rw (differs, large) (ground arith)
    ]
  ]
