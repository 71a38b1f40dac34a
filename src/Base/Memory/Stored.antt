-- ===== src/Base/Memory/Stored.antt =====
-- What is read back after a write.
use pyppmd.Base.{ℕ, ◌+◌, ◌^◌, ◌≤◌, ◌<◌, ◌≡◌, ◌≢◌, arith, u8}
use pyppmd.Base.Memory.{Memory, load16, load32, store8, store16, store32}

pub store8-same : (m : Memory) (a v : ℕ) → store8 m a v a ≡ u8 v
unfolding store8
store8-same m a v = ground arith

pub store8-other : (m : Memory) (a v x : ℕ) → x ≢ a → store8 m a v x ≡ m x
unfolding store8
store8-other m a v x other = ground arith

pub load16-store16 : (m : Memory) (a v : ℕ) → v < 2 ^ 16 → load16 (store16 m a v) a ≡ v
unfolding load16 store16 store8
load16-store16 m a v small = ground arith

pub load32-store32 : (m : Memory) (a v : ℕ) → v < 2 ^ 32 → load32 (store32 m a v) a ≡ v
unfolding load32 store32 store8
load32-store32 m a v small = ground arith

store32-before : (m : Memory) (b v x : ℕ) → x < b → store32 m b v x ≡ m x
unfolding store32 store8
store32-before m b v x before = ground arith

-- A write further on leaves a word as it was.
pub load32-store32_behind :
    (m : Memory) (a b v : ℕ) → a + 4 ≤ b → load32 (store32 m b v) a ≡ load32 m a
unfolding load32
load32-store32_behind m a b v behind = omega (
  arith,
  store32-before m b v a (omega arith),
  store32-before m b v (a + 1) (omega arith),
  store32-before m b v (a + 2) (omega arith),
  store32-before m b v (a + 3) (omega arith),
)
