-- ===== src/RangeCoder/Dec.antt =====
-- The decoder of src/lib/ppmd/Ppmd7Dec.c, lines 7 to 64.
use pyppmd.Base.{
  ℕ, zero, suc, ◌+◌, ◌-◌, ◌*◌, ◌/◌, ◌^◌, Bool, false, List, [], ◌∷◌, bit_or, ltb, ◌==◌,
  if◌then◌else◌, u32, ◌<<<◌, ◌>>>◌,
}
use pyppmd.RangeCoder.Enc.{top_value}

-- `stream` holds the bytes that are still to be read.
pub record RangeDec : Type 0 where
  pub range : ℕ
  pub code : ℕ
  pub stream : List ℕ

-- `IByteIn_Read` returns 0 at the end of the input.
unfoldable pub read : List ℕ → ℕ × List ℕ
read [] = (0, [])
read (b ∷ bs) = (b, bs)

-- `p->Code = (p->Code << 8) | IByteIn_Read(p->Stream)`
unfoldable pub read_code : RangeDec → RangeDec
unfolding read
read_code p =
    let (b, bs) = read p.stream in record p { code = bit_or (u32 (p.code <<< 8)) b; stream = bs }

unfoldable pub read_codes : ℕ → RangeDec → RangeDec
read_codes zero p = p
read_codes (suc n) p = read_codes n (read_code p)

-- `Ppmd7z_RangeDec_Init` on a stream, with what it returns.
unfoldable pub init_dec : List ℕ → Bool × RangeDec
init_dec stream =
    let (b, bs) = read stream in
    let p : RangeDec = record { range = 0xFFFF_FFFF; code = 0; stream = bs } in
    if b == 0 then (let q = read_codes 4 p in (ltb q.code 0xFFFF_FFFF, q)) else (false, p)

unfoldable pub get_threshold : RangeDec → (total : ℕ) → ℕ × RangeDec
get_threshold p total = let range = p.range / total in (p.code / range, record p { range = range })

unfoldable pub renew : RangeDec → RangeDec
renew p = let q = read_code p in record q { range = u32 (p.range <<< 8) }

unfoldable pub normalize_dec : RangeDec → RangeDec
normalize_dec p =
    let once = renew p in
    let twice = renew once in
    if ltb p.range top_value then (if ltb once.range top_value then twice else once) else p

unfoldable pub decode : RangeDec → (start size : ℕ) → RangeDec
decode p start size = normalize_dec (record p {
  code = u32 (p.code + 2 ^ 32 - u32 (start * p.range));
  range = u32 (p.range * size);
})

unfoldable pub decode_bit : RangeDec → (size0 : ℕ) → ℕ × RangeDec
decode_bit p size0 =
    let new_bound = u32 ((p.range >>> 14) * size0) in
    if ltb p.code new_bound then (0, normalize_dec (record p { range = new_bound })) else (
      1,
      normalize_dec (record p {
        code = u32 (p.code + 2 ^ 32 - new_bound);
        range = u32 (p.range + 2 ^ 32 - new_bound);
      }),
    )

-- `Ppmd7z_RangeDec_IsFinishedOK`
unfoldable pub is_finished_ok : RangeDec → Bool
is_finished_ok p = p.code == 0
