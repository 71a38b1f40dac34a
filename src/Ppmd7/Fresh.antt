-- ===== src/Ppmd7/Fresh.antt =====
-- The model as RestartModel leaves it.
use pyppmd.Base.{ℕ, zero, suc, ◌+◌, ◌*◌, ◌^◌, ◌≤◌, ◌<◌, ◌≡◌, ◌⊎◌, inl, inr, refl, arith, ◌∙◌, u8}
use pyppmd.Base.Memory.Stored.{load32-store32}
use pyppmd.Base.Memory.{Memory, load16, load32, store32, store8, store16, set_successor}
use pyppmd.Ppmd7.Restart.{init_states}

-- One state of the loop.
one-outside :
    (m : Memory) (s i a : ℕ)
    → (a < s) ⊎ (s + 6 ≤ a)
    → set_successor (store8 (store8 m s i) (s + 1) 1) s 0 a ≡ m a
unfolding set_successor store16 store8
one-outside m s i a (inl h) = ground arith
one-outside m s i a (inr h) = ground arith

one-symbol : (m : Memory) (s i : ℕ) → set_successor (store8 (store8 m s i) (s + 1) 1) s 0 s ≡ u8 i
unfolding set_successor store16 store8
one-symbol m s i = ground arith

one-freq : (m : Memory) (s i : ℕ) → set_successor (store8 (store8 m s i) (s + 1) 1) s 0 (s + 1) ≡ 1
unfolding set_successor store16 store8
one-freq m s i = ground arith

one-byte :
    (m : Memory) (s i : ℕ)
    → ((a : ℕ) → m a < 256)
    → (a : ℕ) → set_successor (store8 (store8 m s i) (s + 1) 1) s 0 a < 256
unfolding set_successor store16 store8
one-byte m s i bytes a = ground (arith, bytes a)

pub init_states-outside :
    (n i s : ℕ) (m : Memory) (a : ℕ) → (a < s) ⊎ (s + 6 * n ≤ a) → init_states n i s m a ≡ m a
unfolding init_states
init_states-outside zero i s m a out = refl
init_states-outside (suc n) i s m a (inl h) =
    init_states-outside n (i + 1) (s + 6) _ a (inl (omega arith)) ∙ one-outside m s i a (inl h)
init_states-outside (suc n) i s m a (inr h) =
    init_states-outside n (i + 1) (s + 6) _ a (inr (omega arith))
    ∙ one-outside m s i a (inr (omega arith))

pub init_states-symbol :
    (n i s : ℕ) (m : Memory) (k : ℕ) → k < n → init_states n i s m (s + 6 * k) ≡ u8 (i + k)
unfolding init_states
init_states-symbol zero i s m k small = absurd (omega arith)
init_states-symbol (suc n) i s m zero small =
    let place : s ≡ s + 6 * 0 = omega arith in
    let first : i ≡ i + 0 = omega arith in
    rw (← place, ← first)
      (init_states-outside n (i + 1) (s + 6) _ s (inl (omega arith)) ∙ one-symbol m s i)
init_states-symbol (suc n) i s m (suc k) small =
    let place : s + 6 + 6 * k ≡ s + 6 * suc k = omega arith in
    let next : i + 1 + k ≡ i + suc k = omega arith in
    rw (← place, ← next) (init_states-symbol n (i + 1) (s + 6) _ k (omega arith))

pub init_states-freq :
    (n i s : ℕ) (m : Memory) (k : ℕ) → k < n → init_states n i s m (s + 6 * k + 1) ≡ 1
unfolding init_states
init_states-freq zero i s m k small = absurd (omega arith)
init_states-freq (suc n) i s m zero small =
    let place : s + 1 ≡ s + 6 * 0 + 1 = omega arith in
    rw (← place)
      (init_states-outside n (i + 1) (s + 6) _ (s + 1) (inl (omega arith)) ∙ one-freq m s i)
init_states-freq (suc n) i s m (suc k) small =
    let place : s + 6 + 6 * k + 1 ≡ s + 6 * suc k + 1 = omega arith in
    rw (← place) (init_states-freq n (i + 1) (s + 6) _ k (omega arith))

pub init_states-byte :
    (n i s : ℕ) (m : Memory) → ((a : ℕ) → m a < 256) → (a : ℕ) → init_states n i s m a < 256
unfolding init_states
init_states-byte zero i s m bytes = bytes
init_states-byte (suc n) i s m bytes = init_states-byte n (i + 1) (s + 6) _ (one-byte m s i bytes)

module _ (n i s : ℕ) (m : Memory) (a : ℕ) (above : s + 6 * n ≤ a) where
  pub load16-init_states : load16 (init_states n i s m) a ≡ load16 m a
  unfolding load16
  load16-init_states =
      rw
        (
          init_states-outside n i s m a (inr above),
          init_states-outside n i s m (a + 1) (inr (omega arith)),
        )
        refl

  pub load32-init_states : load32 (init_states n i s m) a ≡ load32 m a
  unfolding load32
  load32-init_states =
      rw
        (
          init_states-outside n i s m a (inr above),
          init_states-outside n i s m (a + 1) (inr (omega arith)),
          init_states-outside n i s m (a + 2) (inr (omega arith)),
          init_states-outside n i s m (a + 3) (inr (omega arith)),
        )
        refl

-- The context that is written before its states.
abbrev pub root_memory : (c s : ℕ) → Memory → Memory
root_memory c s m = store32 (store16 (store16 (store32 m (c + 8) 0) c 256) (c + 2) 257) (c + 4) s

module _ (c s : ℕ) (m : Memory) where
  pub root-num_stats : load16 (root_memory c s m) c ≡ 256
  unfolding load16 store32 store16 store8
  root-num_stats = ground arith

  pub root-summ_freq : load16 (root_memory c s m) (c + 2) ≡ 257
  unfolding load16 store32 store16 store8
  root-summ_freq = ground arith

  pub root-stats : s < 2 ^ 32 → load32 (root_memory c s m) (c + 4) ≡ s
  root-stats small = load32-store32 _ (c + 4) s small

  pub root-suffix : load32 (root_memory c s m) (c + 8) ≡ 0
  unfolding load32 store32 store16 store8
  root-suffix = ground arith

pub store8-byte : (m : Memory) (a v : ℕ) → ((x : ℕ) → m x < 256) → (x : ℕ) → store8 m a v x < 256
unfolding store8
store8-byte m a v bytes x = ground (arith, bytes x)

pub store16-byte : (m : Memory) (a v : ℕ) → ((x : ℕ) → m x < 256) → (x : ℕ) → store16 m a v x < 256
unfolding store16
store16-byte m a v bytes = store8-byte _ _ _ (store8-byte _ _ _ bytes)

pub store32-byte : (m : Memory) (a v : ℕ) → ((x : ℕ) → m x < 256) → (x : ℕ) → store32 m a v x < 256
unfolding store32
store32-byte m a v bytes =
    store8-byte _ _ _ (store8-byte _ _ _ (store8-byte _ _ _ (store8-byte _ _ _ bytes)))

pub root-byte : (c s : ℕ) (m : Memory) → ((x : ℕ) → m x < 256) → (x : ℕ) → root_memory c s m x < 256
root-byte c s m bytes =
    store32-byte _ _ _ (store16-byte _ _ _ (store16-byte _ _ _ (store32-byte _ _ _ bytes)))
