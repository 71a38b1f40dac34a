-- ===== src/Carryless/Ops.antt =====
-- The coding steps of Ppmd8Enc.c and Ppmd8Dec.c, as the encoder performs them, and as the decoder
-- answers them. The steps themselves are those of the other range coder.
use pyppmd.Base.{
  ℕ, ◌+◌, ◌-◌, ◌/◌, ◌^◌, ◌≤◌, ◌<◌, true, false, ◌&&◌, Option, none, some, List, [], ◌∷◌, ltb, leb,
  if◌then◌else◌, ◌>>=◌, ◌>>>◌, u32,
}
use pyppmd.RangeCoder.Ops.{Op, interval, bit}
use pyppmd.Carryless.Coder.{
  Encoder, Decoder, range_encode, range_encode_bit_0, range_encode_bit_1, range_threshold,
  range_decode,
}

-- Totals are at most `kBot`, which the range never falls below.
abbrev pub IsStep : Op → Type 0
IsStep (interval start size total) = (1 ≤ size) × (start + size ≤ total) × (total ≤ 2 ^ 15)
IsStep (bit b size0) = (1 ≤ size0) × (size0 < 2 ^ 14)

unfoldable pub encode_step : Op → Encoder → Option Encoder
encode_step (interval start size total) e = range_encode e start size total
encode_step (bit false size0) e = range_encode_bit_0 e size0
encode_step (bit true size0) e = range_encode_bit_1 e size0

unfoldable pub encode_steps : List Op → Encoder → Option Encoder
encode_steps [] e = some e
encode_steps (op ∷ ops) e = encode_step op e >>= encode_steps ops

-- `p->Code / (p->Range >>= 14)`
unfoldable pub bit_threshold : Decoder → ℕ × Decoder
bit_threshold p = let range = p.range >>> 14 in (p.code / range, record p { range = range })

-- The decoder is told the counts. `none` is an answer other than the one that was coded.
unfoldable pub decode_step : Op → Decoder → Option Decoder
decode_step (interval start size total) d =
    let (count, d') = range_threshold d total in
    if leb start count && ltb count (start + size) then range_decode d' start size else none
decode_step (bit false size0) d =
    let (count, d') = bit_threshold d in if ltb count size0 then range_decode d' 0 size0 else none
decode_step (bit true size0) d =
    let (count, d') = bit_threshold d in
    if ltb count size0 then none else range_decode d' size0 (u32 (2 ^ 14 + 2 ^ 32 - size0))

unfoldable pub decode_steps : List Op → Decoder → Option Decoder
decode_steps [] d = some d
decode_steps (op ∷ ops) d = decode_step op d >>= decode_steps ops
