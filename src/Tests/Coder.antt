-- ===== src/Tests/Coder.antt =====
-- The range coder at a message of three steps.
use pyppmd.Base.{◌≡◌, refl, ◌∷◌, [], List, ℕ, arith, true, ◌+◌, ◌^◌}
use pyppmd.RangeCoder.Enc.{RangeEnc, pending, rounds, shift_low, flush_data}
use pyppmd.RangeCoder.Value.{pow256}
use pyppmd.RangeCoder.Shift.{IsReady, IsShifted, shift_low-IsShifted}
use pyppmd.RangeCoder.Ops.{Op, interval, bit}
use pyppmd.RangeCoder.Encodes.{IsRunning, IsEncoded, encode_ops-IsEncoded}
use pyppmd.RangeCoder.Flush.{IsFlushed, flush_data-IsFlushed}
use pyppmd.RangeCoder.RoundTrip.{IsRoundTrip, decode_ops-encode_ops}

abbrev message : List Op
message = interval 97 1 257 ∷ bit true 9000 ∷ interval 3 4 10 ∷ []

decode_ops-encode_ops_example : IsRoundTrip message (7 ∷ [])
decode_ops-encode_ops_example = decode_ops-encode_ops message (7 ∷ []) (omega arith) (omega arith)

-- A carry runs through a cache and two bytes held back.
abbrev carrying : RangeEnc
carrying = record { low = 2 ^ 32 + 5; range = 7; cache = 16; cache_size = 3; stream = 0 ∷ [] }

carrying-IsReady : IsReady 7 carrying
unfolding pow256
carrying-IsReady = omega arith

shift_low-IsShifted_example : IsShifted 7 carrying (shift_low carrying)
shift_low-IsShifted_example = shift_low-IsShifted carrying-IsReady (omega arith)

shift_low_carries : (shift_low carrying).stream ≡ 0 ∷ 17 ∷ 0 ∷ 0 ∷ []
unfolding shift_low pending rounds
shift_low_carries = refl

flush_data-IsFlushed_example : IsFlushed carrying (flush_data carrying).stream
flush_data-IsFlushed_example = flush_data-IsFlushed carrying-IsReady (omega arith)

abbrev running : RangeEnc
running = record { low = 5; range = 2 ^ 30; cache = 16; cache_size = 3; stream = 0 ∷ [] }

running-IsRunning : IsRunning running
unfolding pow256
running-IsRunning = omega arith

encode_ops-IsEncoded_example : (f : RangeEnc) × (k : ℕ) × IsEncoded message running f k
encode_ops-IsEncoded_example =
    encode_ops-IsEncoded message (omega arith) running-IsRunning (omega arith)
