-- ===== src/Carryless/Run.antt =====
-- A round of the normalising loops on both sides: the encoder writes the top byte of Low, and the
-- decoder, which holds four bytes, reads the one behind them.
use pyppmd.Base.{
  ℕ, ◌+◌, ◌*◌, ◌/◌, ◌%◌, ◌^◌, ◌≤◌, ◌<◌, ◌≡◌, refl, ◌∙◌, ap, List, ◌∷◌, u32, arith, inl, inr, ◌⊎◌,
  leb, Bool-cases, ◌<<<◌,
}
use pyppmd.Base.Bits.{bit_or-byte}
use pyppmd.RangeCoder.Dec.{read}
use pyppmd.Carryless.Coder.{Decoder, get_byte, take_byte}
use pyppmd.Carryless.Settle.{IsFair, IsPart}

-- The bytes that follow a state of the coder: the first four are a number in its interval.
pub record IsFuture (low range : ℕ) (s : List ℕ) : Type 0 where
  pub b0 : ℕ
  pub b1 : ℕ
  pub b2 : ℕ
  pub b3 : ℕ
  pub rest : List ℕ
  pub shape : s ≡ b0 ∷ b1 ∷ b2 ∷ b3 ∷ rest
  pub bytes : (b0 < 256) × (b1 < 256) × (b2 < 256) × (b3 < 256)
  pub above : low ≤ ((b0 * 256 + b1) * 256 + b2) * 256 + b3
  pub below : ((b0 * 256 + b1) * 256 + b2) * 256 + b3 < low + range

abbrev pub number : {low range : ℕ} {s : List ℕ} → IsFuture low range s → ℕ
number f = ((f.b0 * 256 + f.b1) * 256 + f.b2) * 256 + f.b3

-- The decoder has read these four bytes, and has the state of the encoder.
pub record IsSynced {low range : ℕ} {s : List ℕ} (f : IsFuture low range s) (d : Decoder)
    : Type 0 where
  pub low_eq : d.low ≡ low
  pub range_eq : d.range ≡ range
  pub code_eq : d.code + low ≡ number f
  pub stream : d.stream ≡ f.rest

module _ (low range part : ℕ) (fair : IsFair low range) (cut : IsPart low range part) where
  pub part_lt : part < 2 ^ 24
  part_lt = elim cut.cut [
    | inl less ↦ omega (arith, less)
    | inr short ↦ omega (arith, short, cut.le)
  ]

  ends : part < 2 ^ 15 → (low % 2 ^ 24 * 256 + part * 256 < 2 ^ 32) ⊎ (2 ^ 24 ≤ low % 2 ^ 24 * 256)
  ends short = elim (Bool-cases (leb (2 ^ 24) (low % 2 ^ 24 * 256))) [
    | inl high ↦ inr (ground (arith, high))
    | inr small ↦ inl (ground (arith, small))
  ]

  pub scaled-IsFair : IsFair (low % 2 ^ 24 * 256) (part * 256)
  scaled-IsFair = record {
    pos = omega (arith, cut.pos);
    low_lt = omega arith;
    range_lt = omega (arith, part_lt);
    inside = omega (arith, cut.same_top);
    top = elim cut.cut [
      | inl less ↦ inl (omega (arith, less))
      | inr short ↦ ends (omega (arith, short, cut.le))
    ];
  }

  abbrev pub IsFuture-back :
      (t s : List ℕ)
      → s ≡ low / 2 ^ 24 ∷ t
      → IsFuture (low % 2 ^ 24 * 256) (part * 256) t
      → IsFuture low range s
  IsFuture-back t s e f = record {
    b0 = low / 2 ^ 24;
    b1 = f.b0;
    b2 = f.b1;
    b3 = f.b2;
    rest = f.b3 ∷ f.rest;
    shape = e ∙ ap (λ (u : List ℕ). low / 2 ^ 24 ∷ u) f.shape;
    bytes = (omega (arith, fair.low_lt), f.bytes.0, f.bytes.1, f.bytes.2);
    above = omega (arith, f.above, f.bytes);
    below = omega (arith, f.below, f.bytes, cut.le);
  }

  pub take_byte-IsSynced :
      (t s : List ℕ) (e : s ≡ low / 2 ^ 24 ∷ t) (f : IsFuture (low % 2 ^ 24 * 256) (part * 256) t)
      (d : Decoder)
      → IsSynced (IsFuture-back t s e f) d
      → IsSynced f (take_byte d part)
  unfolding take_byte get_byte read
  take_byte-IsSynced t u e f d s =
      let small : d.code < 2 ^ 24 = omega (arith, s.code_eq, f.below, f.bytes, part_lt) in
      let plain : u32 (d.code <<< 8) ≡ d.code * 256 = omega arith in
      let joined = bit_or-byte d.code f.b3 (f.bytes.3) in
      rw (s.stream, plain, joined)
        (record {
          low_eq = omega (arith, s.low_eq);
          range_eq = omega (arith, part_lt);
          code_eq = omega (arith, s.code_eq);
          stream = refl;
        })
