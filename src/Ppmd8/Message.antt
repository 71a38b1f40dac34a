-- ===== src/Ppmd8/Message.antt =====
-- A message as the callers code it: Ppmd8_EncodeSymbol or Ppmd8_DecodeSymbol for one symbol after
-- the other, on one model and one range coder.
use pyppmd.Base.{ℕ, ◌≡◌, sym, true, some, List, [], ◌++◌, length, map, ◌∙◌}
use mathlib.Core.Option.{some-injective}
use pyppmd.Coding.{answer_for}
use pyppmd.Coding.Message.{
  Codec, encode_message, decode_message, IsSoundAlong, encode_message-IsTranscript,
}
use pyppmd.Carryless.Coder.{
  Encoder, Decoder, init_encoder, flush_encoder, init_decoder, is_finished,
}
use pyppmd.Carryless.RoundTrip.{decode_steps-encode_steps}
use pyppmd.Ppmd8.State.{Ppmd8}
use pyppmd.Ppmd8.Encode.{encode_symbol}
use pyppmd.Ppmd8.Decode.{decode_symbol}
use pyppmd.Ppmd8.Agree.Steps.{carryless_coder}
use pyppmd.Ppmd8.Agree.Symbol.{IsSound, decode_symbol-encode_symbol}

-- The symbol coder of variant I.
abbrev pub ppmd8_codec : Codec Ppmd8 Encoder Decoder
ppmd8_codec = record {
  coder = carryless_coder;
  encode_symbol = encode_symbol;
  decode_symbol = decode_symbol;
  IsSound = IsSound;
  agrees = decode_symbol-encode_symbol;
}

-- What becomes of a message that is encoded and flushed, followed by other bytes, and decoded with
-- the same model.
pub record IsMessageRoundTrip (xs : List ℕ) (p q : Ppmd8) (f : Encoder) (rest : List ℕ)
    : Type 0 where
  pub decoder : Decoder
  pub last : Decoder
  pub started : init_decoder ((flush_encoder f).stream ++ rest) ≡ (true, decoder)
  pub decoded : decode_message ppmd8_codec (length xs) p decoder ≡ some (map answer_for xs, q, last)
  pub finished : is_finished last ≡ true
  pub stream : last.stream ≡ rest

-- A message that the encoder of variant I codes, each symbol from a model that can code it, and
-- flushes, is decoded by the same number of decoding calls on the same model, whatever bytes follow:
-- the decoder starts, returns each byte as it was and the end mark for each number above 255, comes
-- to the encoder's model, ends with the code 0 and leaves what follows unread.
pub decode_message-encode_message :
    (xs : List ℕ) (p q : Ppmd8) (f : Encoder) (rest : List ℕ)
    → IsSoundAlong ppmd8_codec xs p (init_encoder [])
    → encode_message ppmd8_codec xs p (init_encoder []) ≡ some (q, f)
    → IsMessageRoundTrip xs p q f rest
decode_message-encode_message xs p q f rest sound done =
    let script = encode_message-IsTranscript ppmd8_codec xs p (init_encoder []) (q, f) sound done in
    let trip = decode_steps-encode_steps script.ops rest script.valid in
    let same : trip.coder ≡ f = some-injective _ _ (sym trip.encoded ∙ script.encodes) in
    record {
      decoder = trip.decoder;
      last = trip.last;
      started = rw same at trip.started;
      decoded = script.decodes trip.decoder trip.last trip.decoded;
      finished = trip.finished;
      stream = trip.stream;
    }
