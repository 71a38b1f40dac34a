-- ===== src/Base/Memory.antt =====
-- The block of memory of a model: bytes at addresses relative to its base, and the little-endian
-- 16-bit and 32-bit values of the supported machines. Address 0 is no address of an object, and
-- stands for the null pointer.
pub mod Stored
use Prim.Native.Nat.{ℕ, zero, suc, ◌+◌, ◌*◌, ◌/◌, ◌%◌, ◌^◌, bit_or}
use pyppmd.Base.Tests.{◌==◌, if◌then◌else◌}
use pyppmd.Base.Words.{u8, ◌<<<◌}

abbrev pub Memory : Type 0
Memory = ℕ → ℕ

unfoldable pub load16 : Memory → ℕ → ℕ
load16 m a = m a + 256 * m (a + 1)

unfoldable pub load32 : Memory → ℕ → ℕ
load32 m a = m a + 256 * m (a + 1) + 65536 * m (a + 2) + 16777216 * m (a + 3)

unfoldable pub store8 : Memory → ℕ → ℕ → Memory
store8 m a v x = if x == a then u8 v else m x

unfoldable pub store16 : Memory → ℕ → ℕ → Memory
unfolding store8
store16 m a v = store8 (store8 m a v) (a + 1) (v / 2 ^ 8)

unfoldable pub store32 : Memory → ℕ → ℕ → Memory
unfolding store8
store32 m a v =
    store8 (store8 (store8 (store8 m a v) (a + 1) (v / 2 ^ 8)) (a + 2) (v / 2 ^ 16)) (a + 3)
      (v / 2 ^ 24)

-- `MyMem12Cpy`: three 32-bit words for each unit, in ascending order.
unfoldable pub copy_unit : Memory → ℕ → ℕ → Memory
copy_unit m dest src =
    let m₁ = store32 m dest (load32 m src) in
    let m₂ = store32 m₁ (dest + 4) (load32 m₁ (src + 4)) in
    store32 m₂ (dest + 8) (load32 m₂ (src + 8))

unfoldable pub copy_units : ℕ → Memory → ℕ → ℕ → Memory
copy_units zero m dest src = m
copy_units (suc n) m dest src = copy_units n (copy_unit m dest src) (dest + 12) (src + 12)

-- The rounds of `do … while (--n)` over an `unsigned` counter.
unfoldable pub do_rounds : ℕ → ℕ
do_rounds n = if n == 0 then 2 ^ 32 else n

-- Up to its alignment a model's memory holds states of six bytes: symbol, frequency and the two
-- halves of the successor.
pub record CState : Type 0 where
  pub symbol : ℕ
  pub freq : ℕ
  pub successor_low : ℕ
  pub successor_high : ℕ

-- `s->Symbol` and `s->Freq`
abbrev pub symbol_at : Memory → ℕ → ℕ
symbol_at m s = m s

abbrev pub freq_at : Memory → ℕ → ℕ
freq_at m s = m (s + 1)

unfoldable pub load_state : Memory → ℕ → CState
load_state m s = record {
  symbol = m s;
  freq = m (s + 1);
  successor_low = load16 m (s + 2);
  successor_high = load16 m (s + 4);
}

unfoldable pub store_state : Memory → ℕ → CState → Memory
store_state m s v =
    store16 (store16 (store8 (store8 m s v.symbol) (s + 1) v.freq) (s + 2) v.successor_low) (s + 4)
      v.successor_high

-- `SUCCESSOR` and `SetSuccessor`.
unfoldable pub successor : Memory → ℕ → ℕ
successor m s = bit_or (load16 m (s + 2)) (load16 m (s + 4) <<< 16)

unfoldable pub set_successor : Memory → ℕ → ℕ → Memory
set_successor m s v = store16 (store16 m (s + 2) (v % 2 ^ 16)) (s + 4) (v / 2 ^ 16 % 2 ^ 16)

unfoldable pub swap_states : Memory → ℕ → ℕ → Memory
swap_states m t1 t2 = store_state (store_state m t1 (load_state m t2)) t2 (load_state m t1)
