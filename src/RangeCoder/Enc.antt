-- ===== src/RangeCoder/Enc.antt =====
-- The encoder of src/lib/ppmd/Ppmd7Enc.c, lines 7 to 72.
use pyppmd.Base.{
  ℕ, zero, suc, ◌+◌, ◌-◌, ◌*◌, ◌/◌, ◌^◌, ◌||◌, not, Option, none, some, List, [], ◌∷◌, ◌++◌, ltb,
  ◌==◌, if◌then◌else◌, u8, u32, u64, ◌<<<◌, ◌>>>◌,
}

-- `stream` holds the bytes written so far, the oldest first.
pub record RangeEnc : Type 0 where
  pub low : ℕ
  pub range : ℕ
  pub cache : ℕ
  pub cache_size : ℕ
  pub stream : List ℕ

abbrev pub top_value : ℕ
top_value = 2 ^ 24

-- `Ppmd7z_RangeEnc_Init`; the caller has set the stream.
unfoldable pub init_enc : List ℕ → RangeEnc
init_enc stream = record {
  low = 0;
  range = 0xFFFF_FFFF;
  cache = 0;
  cache_size = 1;
  stream = stream;
}

-- The bytes that the do-while loop writes in `n` rounds, the first made from `temp`.
unfoldable pub pending : ℕ → ℕ → ℕ → List ℕ
pending zero temp carry = []
pending (suc n) temp carry = u8 (temp + carry) ∷ pending n 0xFF carry

-- `--p->CacheSize != 0` is tested behind the body and wraps around at 0.
unfoldable pub rounds : ℕ → ℕ
rounds n = if n == 0 then 2 ^ 64 else n

unfoldable pub shift_low : RangeEnc → RangeEnc
shift_low p =
    let flushed = record p {
      stream = p.stream ++ pending (rounds p.cache_size) p.cache (u8 (p.low >>> 32));
      cache_size = 0;
      cache = u8 (u32 p.low >>> 24);
    } in
    let q = if ltb (u32 p.low) 0xFF00_0000 || not (u32 (p.low >>> 32) == 0) then flushed else p in
    record q { cache_size = u64 (q.cache_size + 1); low = u32 (u32 p.low <<< 8) }

-- The loop that ends each operation. At range 0 it does not end, and the fuel runs out.
unfoldable pub normalize_enc : ℕ → RangeEnc → Option RangeEnc
normalize_enc zero p = none
normalize_enc (suc fuel) p =
    let rest = normalize_enc fuel (shift_low (record p { range = u32 (p.range <<< 8) })) in
    if ltb p.range top_value then rest else some p

-- A range above 0 reaches the top in three rounds.
abbrev pub enc_fuel : ℕ
enc_fuel = 4

unfoldable pub encode : RangeEnc → (start size total : ℕ) → Option RangeEnc
encode p start size total =
    let range = p.range / total in
    normalize_enc enc_fuel
      (record p { low = u64 (p.low + u64 (start * range)); range = u32 (range * size) })

unfoldable pub encode_bit_0 : RangeEnc → (size0 : ℕ) → Option RangeEnc
encode_bit_0 p size0 = normalize_enc enc_fuel (record p { range = u32 ((p.range >>> 14) * size0) })

unfoldable pub encode_bit_1 : RangeEnc → (size0 : ℕ) → Option RangeEnc
encode_bit_1 p size0 =
    let new_bound = u32 ((p.range >>> 14) * size0) in
    normalize_enc enc_fuel
      (record p { low = u64 (p.low + new_bound); range = u32 (p.range + 2 ^ 32 - new_bound) })

unfoldable pub flush_rounds : ℕ → RangeEnc → RangeEnc
flush_rounds zero p = p
flush_rounds (suc n) p = flush_rounds n (shift_low p)

unfoldable pub flush_data : RangeEnc → RangeEnc
unfolding flush_rounds
flush_data p = flush_rounds 5 p
