-- ===== src/Ppmd7/Agree/Missed.antt =====
-- The mask behind a search in the first context that finds nothing.
use pyppmd.Base.{
  ℕ, zero, suc, ◌+◌, ◌-◌, ◌*◌, ◌<◌, ◌≡◌, ◌≢◌, refl, ap, sym, true, false, arith, u32, ◌==◌, ==_iff,
  ◌∙◌, Bool-cases, inl, inr,
}
use pyppmd.Base.Memory.{Memory, symbol_at, freq_at}
use pyppmd.Ppmd7.State.{state_size}
use pyppmd.Ppmd7.Encode.{Mask, mask_out, mask_states, unmasked, Scan, hit, miss, scan}

-- The symbol is that of none of the `n` states behind `s`.
abbrev pub Avoids : ℕ → Memory → (s x : ℕ) → Type 0
Avoids n mem s x = (i : ℕ) → i < n → symbol_at mem (s + state_size * (i + 1)) ≢ x

-- A miss ends at the last state.
abbrev pub IsMissed : ℕ → Memory → (s x : ℕ) → Scan → Type 0
IsMissed n mem s x (hit t low) = Unit
IsMissed n mem s x (miss t all) = (t ≡ s + state_size * n) × Avoids n mem s x

module _ (n : ℕ) (mem : Memory) (s x : ℕ) (other : symbol_at mem (s + state_size) ≢ x) where
  Avoids-suc : Avoids n mem (s + state_size) x → Avoids (suc n) mem s x
  Avoids-suc rest zero small same = other same
  Avoids-suc rest (suc i) small same =
      let place : s + state_size + state_size * (i + 1) ≡ s + state_size * (suc i + 1) =
        omega arith in
      rest i (omega arith) (rw place same)

  IsMissed-suc : (r : Scan) → IsMissed n mem (s + state_size) x r → IsMissed (suc n) mem s x r
  IsMissed-suc (hit t low) missed = missed
  IsMissed-suc (miss t all) (end, rest) = (omega arith, Avoids-suc rest)

pub scan-IsMissed : (n : ℕ) (mem : Memory) (s sum x : ℕ) → IsMissed n mem s x (scan n mem s sum x)
unfolding scan
scan-IsMissed zero mem s sum x = (omega arith, λ i small. absurd (omega arith))
scan-IsMissed (suc n) mem s sum x =
    let s' = s + state_size in
    elim (Bool-cases (symbol_at mem s' == x)) [
      | inl same ↦ rw same (omega arith)
      | inr other ↦ rw other (
          IsMissed-suc n mem s x (ground arith) _
            (scan-IsMissed n mem s' (u32 (sum + freq_at mem s')) x))
    ]

pub mask_out-other : (m : Mask) (y x : ℕ) → y ≢ x → m x ≡ true → mask_out m y x ≡ true
unfolding mask_out
mask_out-other m y x other free = ground arith

mask_states-free :
    (n : ℕ) (mem : Memory) (t x : ℕ) (m : Mask)
    → m x ≡ true
    → ((i : ℕ) → i < n → symbol_at mem (t - state_size * i) ≢ x)
    → mask_states n mem t m x ≡ true
unfolding mask_states
mask_states-free zero mem t x m free avoids = free
mask_states-free (suc n) mem t x m free avoids =
    mask_states-free n mem (t - state_size) x _
      (mask_out-other m _ x
        (λ same.
          let place : t ≡ t - state_size * 0 = omega arith in
          avoids 0 (omega arith) (ap mem (sym place) ∙ same))
        free)
      (λ i small same.
        let place : t - state_size - state_size * i ≡ t - state_size * (i + 1) = omega arith in
        avoids (i + 1) (omega arith) (ap mem (sym place) ∙ same))

-- A symbol that the first state and those behind it lack stays unmasked.
pub mask_states-Avoids :
    (n : ℕ) (mem : Memory) (s x : ℕ)
    → symbol_at mem s ≢ x
    → Avoids n mem s x
    → mask_states (suc n) mem (s + state_size * n) unmasked x ≡ true
unfolding unmasked
mask_states-Avoids n mem s x other avoids =
    mask_states-free (suc n) mem (s + state_size * n) x unmasked refl (λ i small same.
      elim (Bool-cases (i == n)) [
        | inl last ↦
            let place : s ≡ s + state_size * n - state_size * i =
              omega (arith, (==_iff i n).0 last) in
            other (ap mem place ∙ same)
        | inr before ↦
            let less : i < n = ground arith in
            let place : s + state_size * (n - i - 1 + 1) ≡ s + state_size * n - state_size * i =
              omega arith in
            avoids (n - i - 1) (omega arith) (ap mem place ∙ same)
      ])

mask_out-false : (m : Mask) (y x : ℕ) → m x ≡ false → mask_out m y x ≡ false
unfolding mask_out
mask_out-false m y x h = ground arith

mask_out-same : (m : Mask) (y x : ℕ) → y ≡ x → mask_out m y x ≡ false
unfolding mask_out
mask_out-same m y x h = ground arith

mask_states-false :
    (n : ℕ) (mem : Memory) (t x : ℕ) (m : Mask) → m x ≡ false → mask_states n mem t m x ≡ false
unfolding mask_states
mask_states-false zero mem t x m h = h
mask_states-false (suc n) mem t x m h = mask_states-false n mem (t - 6) x _ (mask_out-false m _ x h)

-- A symbol that one of the states has is masked.
pub mask_states-masked :
    (n : ℕ) (mem : Memory) (t x : ℕ) (m : Mask) (i : ℕ)
    → i < n
    → symbol_at mem (t - 6 * i) ≡ x
    → mask_states n mem t m x ≡ false
unfolding mask_states
mask_states-masked zero mem t x m i small same = absurd (omega arith)
mask_states-masked (suc n) mem t x m zero small same =
    let place : t ≡ t - 6 * 0 = omega arith in
    let here : symbol_at mem t ≡ x = ap mem place ∙ same in
    mask_states-false n mem (t - 6) x _ (mask_out-same m _ x here)
mask_states-masked (suc n) mem t x m (suc i) small same =
    let place : t - 6 - 6 * i ≡ t - 6 * suc i = omega arith in
    mask_states-masked n mem (t - 6) x _ i (omega arith) (ap mem place ∙ same)
