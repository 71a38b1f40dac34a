-- ===== src/Tests/Message.antt =====
-- A model of variant I as Ppmd8_Init leaves it, and what it makes of a message.
use pyppmd.Base.{
  ℕ, ◌+◌, ◌-◌, ◌*◌, ◌/◌, ◌%◌, ◌<◌, ◌≡◌, ◌∙◌, refl, sym, ap, arith, inr, List, [], ◌∷◌, some, none,
  Option, ltb, ◌==◌, if◌then◌else◌,
}
use pyppmd.Base.Memory.{
  Memory, load16, load32, store8, store16, swap_states, store_state, load_state, successor,
  do_rounds, freq_at,
}
use pyppmd.Ppmd7.Encode.{scan}
use pyppmd.Ppmd7.Initial.{Counted-ones, sum_behind-ones}
use pyppmd.Ppmd7.Agree.Missed.{mask_states-masked}
use pyppmd.Coding.Coded.{IsCoded}
use pyppmd.Coding.Message.{encode_message}
use pyppmd.Carryless.Coder.{
  Encoder, init_encoder, range_encode, normalize_encoder, settle, put_byte,
}
use pyppmd.Ppmd8.State.{Ppmd8}
use pyppmd.Ppmd8.Restart.{init}
use pyppmd.Ppmd8.Encode.{encode_symbol, encode_many, encode_scan, climb}
use pyppmd.Ppmd8.Symbols.{update1, next_context, count_found, rescale_found}
use pyppmd.Ppmd8.Agree.Chain.{ends}
use pyppmd.Ppmd8.Decode.{decode_symbol}
use pyppmd.Ppmd8.Agree.Start.{IsManyFit}
use pyppmd.Ppmd8.Agree.Symbol.{decode_symbol-encode_symbol}
use pyppmd.Ppmd8.Initial.{init-IsManyFit}
use pyppmd.Ppmd8.Message.{ppmd8_codec, IsMessageRoundTrip, decode_message-encode_message}
use pyppmd.Ppmd8.Agree.Steps.{carryless_coder}
use pyppmd.Tests.Variant.{stocked}

abbrev blank : Ppmd8
blank = record stocked { mem = λ a. 0 }

abbrev model : Ppmd8
model = init blank 6 1

init-IsManyFit_example : IsManyFit (init blank 6 1)
init-IsManyFit_example = init-IsManyFit blank 6 1 (λ a. omega arith) (omega arith) (omega arith)

model-IsManyFit : IsManyFit model
model-IsManyFit = init-IsManyFit blank 6 1 (λ a. omega arith) (omega arith) (omega arith)

decode_symbol-encode_symbol_example :
    IsCoded 257 98 (λ e. encode_symbol model e 98) (λ d. decode_symbol model d)
decode_symbol-encode_symbol_example = decode_symbol-encode_symbol model 98 (inr model-IsManyFit)

-- A context at 24 with its states from 48 on. Each has its number for a symbol, counts once, and
-- has 24 for a successor.
abbrev pub memory : Memory
memory a =
    if ltb a 48
    then (if a == 24
        then 255
        else if a == 26
        then 1
        else if a == 27
        then 1
        else if a == 28
        then 48
        else 0)
    else if (a - 48) % 6 == 0
    then (a - 48) / 6 % 256
    else if (a - 48) % 6 == 1
    then 1
    else if (a - 48) % 6 == 2
    then 24
    else 0

abbrev pub looping : Ppmd8
looping = record stocked {
  min_context = 24;
  max_context = 24;
  found_state = 48;
  units_start = 0;
  mem = memory;
}

memory-symbol : (i : ℕ) → i < 256 → memory (48 + 6 * i) ≡ i
memory-symbol i small = ground arith

memory-freq : (i : ℕ) → memory (48 + 6 * i + 1) ≡ 1
memory-freq i = ground arith

memory-byte : (a : ℕ) → memory a < 256
memory-byte a = ground arith

pub looping-IsManyFit : IsManyFit looping
unfolding load16 load32 climb
looping-IsManyFit =
    let ones : (k : ℕ) → k < 255 → freq_at memory (48 + 6 * (k + 1)) ≡ 1 =
      λ k small. memory-freq (k + 1) in
    record {
      several = omega arith;
      states = omega arith;
      first = omega arith;
      counted = Counted-ones memory 255 48 ones;
      sum = omega (arith, sum_behind-ones memory 255 48 ones);
      small = omega arith;
      bytes = memory-byte;
      chain = ends refl (λ x small.
          let place : 48 + 6 * x ≡ 48 + 6 * 255 - 6 * (255 - x) = omega arith in
          mask_states-masked 256 memory (48 + 6 * 255) x _ (255 - x) (omega arith)
            (ap memory (sym place) ∙ memory-symbol x small));
    }

abbrev pub message : List ℕ
message = 98 ∷ []

-- The run of the encoder, as it evaluates.
abbrev pub or_start : Option (Ppmd8 × Encoder) → Ppmd8 × Encoder
or_start none = (looping, init_encoder [])
or_start (some r) = r

abbrev pub outcome : Ppmd8 × Encoder
outcome = or_start (encode_message ppmd8_codec message looping (init_encoder []))

pub message-encoded :
    encode_message ppmd8_codec message looping (init_encoder []) ≡ some (outcome.0, outcome.1)
unfolding encode_message encode_symbol load16 load32 encode_many encode_scan scan do_rounds
    range_encode normalize_encoder init_encoder settle put_byte update1 store16 store8 swap_states
    store_state load_state successor next_context count_found rescale_found
message-encoded = refl

-- What the range coder holds then.
abbrev pub last_coder : Encoder
last_coder = record { low = 1637769630; range = 16711935; stream = [] }

pub outcome_coder : outcome.1 ≡ last_coder
unfolding encode_message encode_symbol load16 load32 encode_many encode_scan scan do_rounds
    range_encode normalize_encoder init_encoder settle put_byte update1 store16 store8 swap_states
    store_state load_state successor next_context count_found rescale_found
outcome_coder = refl

decode_message-encode_message_example :
    IsMessageRoundTrip message looping outcome.0 outcome.1 (7 ∷ [])
decode_message-encode_message_example =
    decode_message-encode_message message looping outcome.0 outcome.1 (7 ∷ [])
      (inr looping-IsManyFit, λ q f h. omega arith) message-encoded
