-- ===== src/RangeCoder/Ops.antt =====
-- A sequence of coding steps, as the encoder performs them, and as the decoder answers them.
use pyppmd.Base.{
  ℕ, ◌+◌, ◌^◌, ◌≤◌, ◌<◌, Bool, true, false, ◌&&◌, Option, none, some, List, [], ◌∷◌, ltb, leb, ◌==◌,
  if◌then◌else◌, ◌>>=◌,
}
use pyppmd.RangeCoder.Enc.{RangeEnc, encode, encode_bit_0, encode_bit_1}
use pyppmd.RangeCoder.Dec.{RangeDec, get_threshold, decode, decode_bit}

-- A choice among `total` counts, the ones from `start` on for `size`, or a binary choice.
pub data Op : Type 0 where
  interval : (start size total : ℕ) → Op
  bit : Bool → (size0 : ℕ) → Op

abbrev pub IsOp : Op → Type 0
IsOp (interval start size total) = (1 ≤ size) × (start + size ≤ total) × (total ≤ 2 ^ 16)
IsOp (bit b size0) = (1 ≤ size0) × (size0 < 2 ^ 14)

unfoldable pub encode_op : Op → RangeEnc → Option RangeEnc
encode_op (interval start size total) e = encode e start size total
encode_op (bit false size0) e = encode_bit_0 e size0
encode_op (bit true size0) e = encode_bit_1 e size0

unfoldable pub encode_ops : List Op → RangeEnc → Option RangeEnc
unfolding encode_op
encode_ops [] e = some e
encode_ops (op ∷ ops) e = encode_op op e >>= encode_ops ops

-- The decoder is told the counts. `none` is an answer other than the one that was coded.
unfoldable pub decode_op : Op → RangeDec → Option RangeDec
decode_op (interval start size total) d =
    let (count, d') = get_threshold d total in
    if leb start count && ltb count (start + size) then some (decode d' start size) else none
decode_op (bit false size0) d =
    let (symbol, d') = decode_bit d size0 in if symbol == 0 then some d' else none
decode_op (bit true size0) d =
    let (symbol, d') = decode_bit d size0 in if symbol == 1 then some d' else none

unfoldable pub decode_ops : List Op → RangeDec → Option RangeDec
unfolding decode_op
decode_ops [] d = some d
decode_ops (op ∷ ops) d = decode_op op d >>= decode_ops ops
