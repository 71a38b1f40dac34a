-- ===== src/Tests/Carryless.antt =====
-- The carry-less range coder at a message of three steps, and at an interval that crosses a multiple
-- of 2 ^ 24.
use pyppmd.Base.{◌≡◌, refl, ◌∷◌, [], List, arith, true, false, some}
use pyppmd.RangeCoder.Ops.{Op, interval, bit}
use pyppmd.Carryless.Coder.{Encoder, settle, loop_fuel}
use pyppmd.Carryless.Settle.{IsFair}
use pyppmd.Carryless.Normalize.{IsRun, normalize-loop}
use pyppmd.Carryless.RoundTrip.{IsRoundTrip, decode_steps-encode_steps}

abbrev message : List Op
message = interval 97 1 257 ∷ bit true 9000 ∷ interval 3 4 10 ∷ bit false 1 ∷ []

decode_steps-encode_steps_example : IsRoundTrip message (7 ∷ [])
decode_steps-encode_steps_example = decode_steps-encode_steps message (7 ∷ []) (omega arith)

abbrev crossing : Encoder
crossing = record { low = 0x12FF_FFF0; range = 0x40; stream = [] }

crossing-IsFair : IsFair 0x12FF_FFF0 0x40
crossing-IsFair = omega arith

normalize-loop_example : IsRun loop_fuel crossing
normalize-loop_example = normalize-loop crossing crossing-IsFair

-- The interval is cut to 16 numbers, so that its top byte is known.
crossing_is_cut : settle 0x12FF_FFF0 0x40 ≡ some 16
unfolding settle
crossing_is_cut = refl
