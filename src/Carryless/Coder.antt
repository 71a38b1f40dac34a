-- ===== src/Carryless/Coder.antt =====
-- The encoder and the decoder. Their fields Low, Range, Code and Stream are part of CPpmd8, whose
-- other fields they do not touch, and stand in records of their own here. `none` is a loop that does
-- not end within its fuel.
use pyppmd.Base.{
  ℕ, zero, suc, ◌+◌, ◌-◌, ◌*◌, ◌/◌, ◌^◌, Bool, Option, none, some, List, [], ◌∷◌, ◌++◌, ltb, ◌==◌,
  if◌then◌else◌, u8, u32, bit_and, bit_or, bit_xor, ◌<<<◌, ◌>>>◌,
}
use pyppmd.RangeCoder.Dec.{read}

-- `stream` holds the bytes written so far, the oldest first.
pub record Encoder : Type 0 where
  pub low : ℕ
  pub range : ℕ
  pub stream : List ℕ

-- `stream` holds the bytes that are still to be read.
pub record Decoder : Type 0 where
  pub low : ℕ
  pub range : ℕ
  pub code : ℕ
  pub stream : List ℕ

-- `kTop` and `kBot`
abbrev pub k_top : ℕ
k_top = 2 ^ 24

abbrev pub k_bot : ℕ
k_bot = 2 ^ 15

-- The condition of the normalising loops, with what it leaves in Range where it holds.
unfoldable pub settle : (low range : ℕ) → Option ℕ
settle low range =
    if ltb (bit_xor low (u32 (low + range))) k_top
    then some range
    else if ltb range k_bot
    then some (bit_and (u32 (2 ^ 32 - low)) (k_bot - 1))
    else none

-- At most four rounds are needed from a range above 0.
abbrev pub loop_fuel : ℕ
loop_fuel = 5

unfoldable pub init_encoder : List ℕ → Encoder
init_encoder stream = record { low = 0; range = 0xFFFF_FFFF; stream = stream }

unfoldable pub flush_bytes : ℕ → Encoder → Encoder
flush_bytes zero p = p
flush_bytes (suc n) p =
    flush_bytes n
      (record p { stream = p.stream ++ u8 (p.low >>> 24) ∷ []; low = u32 (p.low <<< 8) })

-- `Ppmd8_RangeEnc_FlushData`
unfoldable pub flush_encoder : Encoder → Encoder
unfolding flush_bytes
flush_encoder p = flush_bytes 4 p

-- The body of the encoder's loop.
unfoldable pub put_byte : Encoder → (range : ℕ) → Encoder
put_byte p range = record {
  low = u32 (p.low <<< 8);
  range = u32 (range <<< 8);
  stream = p.stream ++ u8 (p.low >>> 24) ∷ [];
}

unfoldable pub normalize_encoder : ℕ → Encoder → Option Encoder
unfolding settle put_byte
normalize_encoder zero p = none
normalize_encoder (suc fuel) p = elim (settle p.low p.range) [
  | none ↦ some p
  | some range ↦ normalize_encoder fuel (put_byte p range)
]

unfoldable pub range_encode : Encoder → (start size total : ℕ) → Option Encoder
range_encode p start size total =
    let range = p.range / total in
    normalize_encoder loop_fuel
      (record p { low = u32 (p.low + u32 (start * range)); range = u32 (range * size) })

unfoldable pub range_encode_bit_0 : Encoder → (size0 : ℕ) → Option Encoder
range_encode_bit_0 p size0 =
    normalize_encoder loop_fuel (record p { range = u32 ((p.range >>> 14) * size0) })

unfoldable pub range_encode_bit_1 : Encoder → (size0 : ℕ) → Option Encoder
range_encode_bit_1 p size0 =
    let range = p.range >>> 14 in
    normalize_encoder loop_fuel (record p {
      low = u32 (p.low + u32 (size0 * range));
      range = u32 (range * u32 (2 ^ 14 + 2 ^ 32 - size0));
    })

-- `p->Code = (p->Code << 8) | IByteIn_Read(p->Stream.In)`
unfoldable pub get_byte : Decoder → Decoder
unfolding read
get_byte p =
    let (b, bs) = read p.stream in record p { code = bit_or (u32 (p.code <<< 8)) b; stream = bs }

unfoldable pub get_bytes : ℕ → Decoder → Decoder
unfolding get_byte
get_bytes zero p = p
get_bytes (suc n) p = get_bytes n (get_byte p)

-- `Ppmd8_RangeDec_Init` on a stream, with what it returns.
unfoldable pub init_decoder : List ℕ → Bool × Decoder
unfolding get_bytes
init_decoder stream =
    let p = get_bytes 4 (record { low = 0; range = 0xFFFF_FFFF; code = 0; stream = stream }) in
    (ltb p.code 0xFFFF_FFFF, p)

unfoldable pub range_threshold : Decoder → (total : ℕ) → ℕ × Decoder
range_threshold p total =
    let range = p.range / total in (p.code / range, record p { range = range })

-- The body of the decoder's loop.
unfoldable pub take_byte : Decoder → (range : ℕ) → Decoder
unfolding get_byte
take_byte p range = record (get_byte p) { low = u32 (p.low <<< 8); range = u32 (range <<< 8) }

unfoldable pub normalize_decoder : ℕ → Decoder → Option Decoder
unfolding settle take_byte
normalize_decoder zero p = none
normalize_decoder (suc fuel) p = elim (settle p.low p.range) [
  | none ↦ some p
  | some range ↦ normalize_decoder fuel (take_byte p range)
]

unfoldable pub range_decode : Decoder → (start size : ℕ) → Option Decoder
range_decode p start size =
    let below = u32 (start * p.range) in
    normalize_decoder loop_fuel (record p {
      low = u32 (p.low + below);
      code = u32 (p.code + 2 ^ 32 - below);
      range = u32 (p.range * size);
    })

-- `Ppmd8_RangeDec_IsFinishedOK`
unfoldable pub is_finished : Decoder → Bool
is_finished p = p.code == 0
