-- ===== src/Ppmd7/Agree/Masked.antt =====
-- The search in a context that is escaped to: the encoder masks each state that it passes, the
-- decoder first collects the states that are not masked, and both count the same.
use pyppmd.Base.{
  ℕ, zero, suc, ◌+◌, ◌-◌, ◌^◌, ◌≤◌, ◌<◌, ◌≡◌, ◌≢◌, refl, sym, ap, true, false, arith, u32, ◌==◌,
  ==_iff, ◌∙◌, Bool-cases, inl, inr, List, [], ◌∷◌, ◌++◌, length, some, if◌then◌else◌,
}
use mathlib.Core.Path.{fun_ext}
use native.Mathlib.Nat.{zero-add, add-zero, add_assoc}
use mathlib.Core.List.{append_assoc}
use pyppmd.Base.Memory.{Memory, symbol_at, freq_at}
use pyppmd.Ppmd7.State.{state_size, sub32}
use pyppmd.Ppmd7.Encode.{Mask, mask_out, masked_freq, rest_sum}
use pyppmd.Ppmd7.Decode.{collect, mask_all}

-- Among the `n` states from `s` on: those that are not masked, and their sum.
unfoldable pub free_states : ℕ → Memory → Mask → (s : ℕ) → List ℕ
free_states zero mem m s = []
free_states (suc n) mem m s =
    let rest = free_states n mem m (s + state_size) in
    if m (symbol_at mem s) then s ∷ rest else rest

unfoldable pub free_sum : ℕ → Memory → Mask → (s : ℕ) → ℕ
unfolding masked_freq
free_sum zero mem m s = 0
free_sum (suc n) mem m s = masked_freq mem m s + free_sum n mem m (s + state_size)

-- The symbol is that of none of them.
abbrev pub Lacks : ℕ → Memory → (s sym : ℕ) → Type 0
Lacks zero mem s sym = Unit
Lacks (suc n) mem s sym = (symbol_at mem s ≢ sym) × Lacks n mem (s + state_size) sym

-- Their symbols differ, and each counts.
abbrev pub IsDistinct : ℕ → Memory → (s : ℕ) → Type 0
IsDistinct zero mem s = Unit
IsDistinct (suc n) mem s =
    (1 ≤ freq_at mem s)
    × Lacks n mem (s + state_size) (symbol_at mem s)
    × IsDistinct n mem (s + state_size)

module _ (mem : Memory) (m : Mask) (x : ℕ) where
  -- Masking a symbol changes nothing for the states that lack it.
  masked_freq-mask_out :
      (s : ℕ) → symbol_at mem s ≢ x → masked_freq mem (mask_out m x) s ≡ masked_freq mem m s
  unfolding masked_freq mask_out
  masked_freq-mask_out s ne = ground arith

  pub free_states-mask_out :
      (n s : ℕ) → Lacks n mem s x → free_states n mem (mask_out m x) s ≡ free_states n mem m s
  unfolding free_states mask_out
  free_states-mask_out zero s lacks = refl
  free_states-mask_out (suc n) s (ne, lacks) =
      ground (arith, free_states-mask_out n (s + state_size) lacks)

  pub free_sum-mask_out :
      (n s : ℕ) → Lacks n mem s x → free_sum n mem (mask_out m x) s ≡ free_sum n mem m s
  unfolding free_sum
  free_sum-mask_out zero s lacks = refl
  free_sum-mask_out (suc n) s (ne, lacks) =
      omega (arith, masked_freq-mask_out s ne, free_sum-mask_out n (s + state_size) lacks)

  pub mask_all-mask_out :
      (ps : List ℕ) → mask_all mem ps (mask_out m x) ≡ mask_out (mask_all mem ps m) x
  unfolding mask_all mask_out
  mask_all-mask_out [] = refl
  mask_all-mask_out (s ∷ ps) =
      fun_ext λ y. ground (arith, ap (λ (f : Mask). f y) (mask_all-mask_out ps))

  pub mask_out-masked : m x ≡ false → mask_out m x ≡ m
  unfolding mask_out
  mask_out-masked h = fun_ext λ y. elim (Bool-cases (y == x)) [
    | inl e ↦ rw e (sym (ap m ((==_iff y x).0 e) ∙ h))
    | inr e ↦ rw e refl
  ]

pub rest_sum-free_sum :
    (n : ℕ) (mem : Memory) (m : Mask) (s sum : ℕ)
    → sum + free_sum n mem m s < 2 ^ 32
    → rest_sum n mem m s sum ≡ sum + free_sum n mem m s
unfolding rest_sum free_sum
rest_sum-free_sum zero mem m s sum small = omega arith
rest_sum-free_sum (suc n) mem m s sum small =
    let plain : u32 (sum + masked_freq mem m s) ≡ sum + masked_freq mem m s = omega arith in
    rw plain (omega (arith, rest_sum-free_sum n mem m (s + state_size) (sum + masked_freq mem m s)))

free_states-none :
    (n : ℕ) (mem : Memory) (m : Mask) (s : ℕ)
    → length (free_states n mem m s) ≡ 0
    → (free_states n mem m s ≡ []) × (free_sum n mem m s ≡ 0)
unfolding free_states free_sum masked_freq
free_states-none zero mem m s len = (refl, refl)
free_states-none (suc n) mem m s len = elim (Bool-cases (m (symbol_at mem s))) [
  | inl free ↦ absurd (omega (arith, (rw free at len)))
  | inr masked ↦
      let rest = free_states-none n mem m (s + state_size) (rw masked at len) in
      rw masked (rest.0, omega (arith, rest.1))
]

-- With its tests decided, a round of the collection.
module _ (fuel : ℕ) (mem : Memory) (m : Mask) (s num hi : ℕ) (ps : List ℕ) where
  collect-masked :
      m (symbol_at mem s) ≡ false
      → 1 ≤ num
      → hi < 2 ^ 32
      → collect (suc fuel) mem m s num hi ps ≡ collect fuel mem m (s + state_size) num hi ps
  unfolding collect masked_freq
  collect-masked masked pos small =
      let test : (num == 0) ≡ false = ground arith in
      let plain : u32 (hi + 0) ≡ hi = omega arith in rw (masked, test, plain) refl

  collect-free :
      m (symbol_at mem s) ≡ true
      → 2 ≤ num
      → num < 2 ^ 32
      → hi + freq_at mem s < 2 ^ 32
      → collect (suc fuel) mem m s num hi ps
        ≡ collect fuel mem m (s + state_size) (num - 1) (hi + freq_at mem s) (ps ++ s ∷ [])
  unfolding collect masked_freq
  collect-free free more range small =
      let less : sub32 num 1 ≡ num - 1 = omega arith in
      let test : (num - 1 == 0) ≡ false = ground arith in
      let plain : u32 (hi + freq_at mem s) ≡ hi + freq_at mem s = omega arith in
      rw (free, less, test, plain) refl

  collect-last :
      m (symbol_at mem s) ≡ true
      → num ≡ 1
      → hi + freq_at mem s < 2 ^ 32
      → collect (suc fuel) mem m s num hi ps ≡ some (ps ++ s ∷ [], hi + freq_at mem s)
  unfolding collect masked_freq
  collect-last free one small =
      let less : sub32 num 1 ≡ 0 = omega arith in
      let plain : u32 (hi + freq_at mem s) ≡ hi + freq_at mem s = omega arith in
      rw (free, less, plain) refl

-- The decoder collects the states that are not masked, if there are `num` of them.
pub collect-free_states :
    (n fuel : ℕ) (mem : Memory) (m : Mask) (s num hi : ℕ) (ps : List ℕ)
    → n ≤ fuel
    → 1 ≤ num
    → num < 2 ^ 32
    → length (free_states n mem m s) ≡ num
    → hi + free_sum n mem m s < 2 ^ 32
    → collect fuel mem m s num hi ps ≡ some (ps ++ free_states n mem m s, hi + free_sum n mem m s)
unfolding free_states free_sum masked_freq
collect-free_states zero fuel mem m s num hi ps enough pos range len small = absurd (omega arith)
collect-free_states (suc n) zero mem m s num hi ps enough pos range len small = absurd (omega arith)
collect-free_states (suc n) (suc fuel) mem m s num hi ps enough pos range len small =
    elim (Bool-cases (m (symbol_at mem s))) [
      | inr masked ↦
          let len' = (rw masked at len) in
          let small' = (rw masked at small) in
          rw
            (
              collect-masked fuel mem m s num hi ps masked pos (omega (arith, small')),
              masked,
              zero-add,
            )
            (collect-free_states n fuel mem m (s + state_size) num hi ps (omega arith) pos range
              len' (omega (arith, small')))
      | inl free ↦
          let len' = (rw free at len) in
          let small' = (rw free at small) in
          elim (Bool-cases (num == 1)) [
            | inl one ↦
                let (none_left, no_sum) =
                  free_states-none n mem m (s + state_size)
                    (omega (arith, len', (==_iff num 1).0 one)) in
                rw
                  (
                    collect-last fuel mem m s num hi ps free ((==_iff num 1).0 one)
                        (omega (arith, small')),
                    free,
                    none_left,
                    no_sum,
                    add-zero,
                  )
                  refl
            | inr more ↦
                let two : 2 ≤ num = ground arith in
                rw
                  (
                    collect-free fuel mem m s num hi ps free two range (omega (arith, small')),
                    free,
                    ← add_assoc,
                  )
                  (collect-free_states n fuel mem m (s + state_size) (num - 1) (hi + freq_at mem s)
                      (ps ++ s ∷ []) (omega arith) (omega arith) (omega arith) (omega (arith, len'))
                      (omega (arith, small'))
                    ∙ ap
                        (λ (l : List ℕ).
                          some (l, hi + freq_at mem s + free_sum n mem m (s + state_size)))
                        (append_assoc ps (s ∷ []) (free_states n mem m (s + state_size))))
          ]
    ]
