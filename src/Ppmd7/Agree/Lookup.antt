-- ===== src/Ppmd7/Agree/Lookup.antt =====
-- The encoder's search in a context that is escaped to, next to what the decoder picks there.
use pyppmd.Base.{
  ℕ, zero, suc, ◌+◌, ◌^◌, ◌≤◌, ◌<◌, ◌≡◌, refl, sym, ap, true, false, arith, u32, ◌==◌, ==_iff, ◌∙◌,
  Bool-cases, inl, inr, leb, le→leb, List, ◌∷◌, some,
}
use pyppmd.Base.Memory.{Memory, symbol_at, freq_at}
use pyppmd.Ppmd7.State.{state_size}
use pyppmd.Ppmd7.Encode.{
  Mask, mask_out, masked_freq, rest_sum, Search, found, absent, search_masked,
}
use pyppmd.Ppmd7.Decode.{pick, mask_all}
use pyppmd.Ppmd7.Agree.Masked.{
  free_states, free_sum, Lacks, IsDistinct, free_states-mask_out, free_sum-mask_out,
  mask_all-mask_out, mask_out-masked, rest_sum-free_sum,
}

-- What the decoder does for a result of the encoder's search.
abbrev pub IsSearched : ℕ → Memory → Mask → (s sum sym : ℕ) → Search → Type 0
IsSearched n mem m s sum sym (found t low total) =
    (symbol_at mem t ≡ sym)
    × (sum ≤ low)
    × (low + freq_at mem t ≤ total)
    × (1 ≤ freq_at mem t)
    × (total ≡ sum + free_sum n mem m s)
    × ((count : ℕ)
        → low ≤ count
        → count < low + freq_at mem t
        → pick mem sum count (free_states n mem m s) ≡ some (t, low + freq_at mem t))
IsSearched n mem m s sum sym (absent total m') =
    (total ≡ sum + free_sum n mem m s)
    × (m' ≡ mask_all mem (free_states n mem m s) m)
    × (m' sym ≡ true)

pick-above :
    (mem : Memory) (hi count s : ℕ) (ps : List ℕ)
    → hi + freq_at mem s < 2 ^ 32
    → hi + freq_at mem s ≤ count
    → pick mem hi count (s ∷ ps) ≡ pick mem (hi + freq_at mem s) count ps
unfolding pick
pick-above mem hi count s ps small above =
    let plain : u32 (hi + freq_at mem s) ≡ hi + freq_at mem s = omega arith in
    rw (plain, le→leb _ count above) refl

pick-below :
    (mem : Memory) (hi count s : ℕ) (ps : List ℕ)
    → hi + freq_at mem s < 2 ^ 32
    → count < hi + freq_at mem s
    → pick mem hi count (s ∷ ps) ≡ some (s, hi + freq_at mem s)
unfolding pick
pick-below mem hi count s ps small below =
    let plain : u32 (hi + freq_at mem s) ≡ hi + freq_at mem s = omega arith in
    let test : leb (hi + freq_at mem s) count ≡ false = ground arith in rw (plain, test) refl

module _ (n : ℕ) (mem : Memory) (m : Mask) (s sum sym : ℕ) where
  abbrev next : ℕ
  next = s + state_size

  IsSearched-free :
      (r : Search)
      → m (symbol_at mem s) ≡ true
      → sum + freq_at mem s < 2 ^ 32
      → Lacks n mem next (symbol_at mem s)
      → IsSearched n mem (mask_out m (symbol_at mem s)) next (sum + freq_at mem s) sym r
      → IsSearched (suc n) mem m s sum sym r
  unfolding free_states free_sum masked_freq mask_all
  IsSearched-free (found t low total) free small lacks
        (same, from, inside, some_count, whole, picks) =
      rw free (
        same,
        omega arith,
        inside,
        some_count,
        omega (arith, free_sum-mask_out mem m (symbol_at mem s) n next lacks),
        λ count h k.
            pick-above mem sum count s _ small (omega arith)
            ∙ rw (← free_states-mask_out mem m (symbol_at mem s) n next lacks) (picks count h k),
      )
  IsSearched-free (absent total m') free small lacks (whole, mask, still) = rw free (
    omega (arith, free_sum-mask_out mem m (symbol_at mem s) n next lacks),
    mask
        ∙ rw (free_states-mask_out mem m (symbol_at mem s) n next lacks)
            (mask_all-mask_out mem m (symbol_at mem s) (free_states n mem m next)),
    still,
  )

  IsSearched-masked :
      (r : Search)
      → m (symbol_at mem s) ≡ false
      → IsSearched n mem m next sum sym r
      → IsSearched (suc n) mem m s sum sym r
  unfolding free_states free_sum masked_freq
  IsSearched-masked (found t low total) masked (same, from, inside, some_count, whole, picks) =
      rw masked (same, from, inside, some_count, omega arith, picks)
  IsSearched-masked (absent total m') masked (whole, mask, still) =
      rw masked (omega arith, mask, still)

  IsSearched-first :
      symbol_at mem s ≡ sym
      → m (symbol_at mem s) ≡ true
      → 1 ≤ freq_at mem s
      → sum + free_sum (suc n) mem m s < 2 ^ 32
      → IsSearched (suc n) mem m s sum sym (found s sum (rest_sum (suc n) mem m s sum))
  unfolding free_states free_sum masked_freq
  IsSearched-first same free one small =
      let small' = (rw free at small) in
      let whole : rest_sum (suc n) mem m s sum ≡ sum + (freq_at mem s + free_sum n mem m next) =
        rw free at (rest_sum-free_sum (suc n) mem m s sum small) in
      rw free (
        same,
        omega arith,
        omega (arith, whole, small'),
        one,
        whole,
        λ count h k. pick-below mem sum count s _ (omega (arith, small')) k,
      )

-- In a context with distinct symbols that count, searched for a symbol that is not masked: where the
-- encoder finds it, the decoder picks the same state for each count of its share, among the states
-- that are not masked; where it does not, the encoder has the sum of these states, and has masked
-- what the decoder masks.
pub search_masked-IsSearched :
    (n : ℕ) (mem : Memory) (m : Mask) (s sum sym : ℕ)
    → IsDistinct n mem s
    → m sym ≡ true
    → sum + free_sum n mem m s < 2 ^ 32
    → IsSearched n mem m s sum sym (search_masked n mem m s sum sym)
unfolding search_masked free_sum free_states masked_freq mask_out mask_all
search_masked-IsSearched zero mem m s sum sym distinct free small = (omega arith, refl, free)
search_masked-IsSearched (suc n) mem m s sum sym (one, lacks, distinct) free small =
    let x = symbol_at mem s in
    elim (Bool-cases (x == sym)) [
      | inl same ↦ rw same (
          IsSearched-first n mem m s sum sym ((==_iff x sym).0 same)
            (ap m ((==_iff x sym).0 same) ∙ free) one small)
      | inr other ↦
          let still : mask_out m x sym ≡ true = ground arith in
          elim (Bool-cases (m x)) [
            | inl unmasked ↦
                let small' = (rw unmasked at small) in
                let plain : u32 (sum + freq_at mem s) ≡ sum + freq_at mem s =
                  omega (arith, small') in
                rw (other, unmasked, plain)
                  (IsSearched-free n mem m s sum sym _ unmasked (omega (arith, small')) lacks (
                    search_masked-IsSearched n mem (mask_out m x) (s + state_size)
                      (sum + freq_at mem s) sym distinct still
                      (omega (arith, small', free_sum-mask_out mem m x n (s + state_size) lacks))))
            | inr masked ↦
                let small' = (rw masked at small) in
                let plain : u32 (sum + 0) ≡ sum = omega (arith, small') in
                rw (other, masked, plain, mask_out-masked mem m x masked)
                  (IsSearched-masked n mem m s sum sym _ masked (
                    search_masked-IsSearched n mem m (s + state_size) sum sym distinct free
                      (omega (arith, small'))))
          ]
    ]
