-- ===== src/Ppmd7/Agree/First.antt =====
-- The search in the first context: the state that the encoder stops at, with the sum below it, is
-- the one that the decoder finds for each count of its share.
use pyppmd.Base.{
  ℕ, zero, suc, ◌+◌, ◌^◌, ◌≤◌, ◌<◌, ◌≡◌, refl, arith, u32, ◌==◌, ==_iff, ◌∙◌, Bool-cases, inl, inr,
  lt→ltb, le→ltb,
}
use pyppmd.Base.Memory.{Memory, symbol_at, freq_at}
use pyppmd.Ppmd7.State.{state_size}
use pyppmd.Ppmd7.Encode
use pyppmd.Ppmd7.Decode

-- The sum of the `n` states behind `s`.
unfoldable pub sum_behind : ℕ → Memory → (s : ℕ) → ℕ
sum_behind zero mem s = 0
sum_behind (suc n) mem s = freq_at mem (s + state_size) + sum_behind n mem (s + state_size)

-- Each of them counts.
abbrev pub Counted : ℕ → Memory → (s : ℕ) → Type 0
Counted zero mem s = Unit
Counted (suc n) mem s = (1 ≤ freq_at mem (s + state_size)) × Counted n mem (s + state_size)

-- What the decoder's search does for a result of the encoder's.
abbrev pub IsScanned : ℕ → Memory → (s sum sym : ℕ) → Encode.Scan → Type 0
IsScanned n mem s sum sym (Encode.Scan.hit t low) =
    (symbol_at mem t ≡ sym)
    × (sum ≤ low)
    × (low + freq_at mem t ≤ sum + sum_behind n mem s)
    × (1 ≤ freq_at mem t)
    × ((count : ℕ)
        → low ≤ count
        → count < low + freq_at mem t
        → Decode.scan n mem s sum count ≡ Decode.Scan.hit t (low + freq_at mem t))
IsScanned n mem s sum sym (Encode.Scan.miss t all) =
    (all ≡ sum + sum_behind n mem s)
    × ((count : ℕ) → all ≤ count → Decode.scan n mem s sum count ≡ Decode.Scan.miss t all)

module _ (n : ℕ) (mem : Memory) (s sum sym : ℕ) where
  abbrev next : ℕ
  next = s + state_size

  -- A state that is passed over is passed over by both.
  passed :
      (count : ℕ)
      → sum + freq_at mem next < 2 ^ 32
      → sum + freq_at mem next ≤ count
      → Decode.scan (suc n) mem s sum count ≡ Decode.scan n mem next (sum + freq_at mem next) count
  unfolding Decode.scan
  passed count small above =
      let plain : u32 (sum + freq_at mem next) ≡ sum + freq_at mem next = omega arith in
      rw (plain, le→ltb count _ above) refl

  IsScanned-suc :
      (r : Encode.Scan)
      → sum + freq_at mem next < 2 ^ 32
      → IsScanned n mem next (sum + freq_at mem next) sym r
      → IsScanned (suc n) mem s sum sym r
  unfolding sum_behind
  IsScanned-suc (Encode.Scan.hit t low) small (same, from, inside, some_count, found) = (
    same,
    omega arith,
    omega arith,
    some_count,
    λ count h k. passed count small (omega arith) ∙ found count h k,
  )
  IsScanned-suc (Encode.Scan.miss t all) small (whole, missed) =
      (omega arith, λ count h. passed count small (omega arith) ∙ missed count h)

pub scan-IsScanned :
    (n : ℕ) (mem : Memory) (s sum sym : ℕ)
    → Counted n mem s
    → sum + sum_behind n mem s < 2 ^ 32
    → IsScanned n mem s sum sym (Encode.scan n mem s sum sym)
unfolding Encode.scan Decode.scan sum_behind
scan-IsScanned zero mem s sum sym counted small = (omega arith, λ count h. refl)
scan-IsScanned (suc n) mem s sum sym (one, counted) small =
    let f = freq_at mem (s + state_size) in
    let plain : u32 (sum + f) ≡ sum + f = omega arith in
    elim (Bool-cases (symbol_at mem (s + state_size) == sym)) [
      | inl same ↦
          rw (same, plain)
            (
              (==_iff _ _).0 same,
              omega arith,
              omega arith,
              one,
              λ count h k. rw (lt→ltb count (sum + f) k) refl,
            )
      | inr other ↦
          rw (other, plain)
            (IsScanned-suc n mem s sum sym _ (omega arith)
              (scan-IsScanned n mem (s + state_size) (sum + f) sym counted (omega arith)))
    ]
