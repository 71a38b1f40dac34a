-- ===== src/Ppmd7/Message.antt =====
-- A message as the callers code it: Ppmd7_EncodeSymbol or Ppmd7_DecodeSymbol for one symbol after
-- the other, on one model and one range coder.
use pyppmd.Base.{
  ℕ, ◌+◌, ◌*◌, ◌^◌, ◌<◌, ◌≡◌, sym, true, arith, Option, some, List, [], ◌++◌, length, map, ◌∙◌,
}
use mathlib.Core.Option.{some-injective}
use pyppmd.RangeCoder.Enc.{RangeEnc, init_enc, flush_data}
use pyppmd.RangeCoder.Dec.{RangeDec, init_dec, is_finished_ok}
use pyppmd.RangeCoder.RoundTrip.{decode_ops-encode_ops}
use pyppmd.Coding.Message.{
  Codec, encode_message, decode_message, IsSoundAlong, encode_message-IsTranscript,
}
use pyppmd.Ppmd7.State.{Ppmd7}
use pyppmd.Ppmd7.Encode.{encode_symbol}
use pyppmd.Ppmd7.Decode.{Decoded, decode_symbol}
use pyppmd.Coding.{answer_for}
use pyppmd.Ppmd7.Agree.Steps.{range_coder}
use pyppmd.Ppmd7.Agree.Symbol.{IsSound, encode_symbol-IsCoded}

-- The symbol coder of variant H.
abbrev pub ppmd7_codec : Codec Ppmd7 RangeEnc RangeDec
ppmd7_codec = record {
  coder = range_coder;
  encode_symbol = encode_symbol;
  decode_symbol = decode_symbol;
  IsSound = IsSound;
  agrees = encode_symbol-IsCoded;
}

abbrev pub encode_symbols : List ℕ → Ppmd7 → RangeEnc → Option (Ppmd7 × RangeEnc)
encode_symbols = encode_message ppmd7_codec

abbrev pub decode_symbols : ℕ → Ppmd7 → RangeDec → Option (List Decoded × Ppmd7 × RangeDec)
decode_symbols = decode_message ppmd7_codec

-- What becomes of a message that is encoded and flushed, followed by other bytes, and decoded with
-- the same model.
pub record IsMessageRoundTrip (xs : List ℕ) (p q : Ppmd7) (f : RangeEnc) (rest : List ℕ)
    : Type 0 where
  pub decoder : RangeDec
  pub last : RangeDec
  pub started : init_dec ((flush_data f).stream ++ rest) ≡ (true, decoder)
  pub decoded : decode_symbols (length xs) p decoder ≡ some (map answer_for xs, q, last)
  pub finished : is_finished_ok last ≡ true
  pub stream : last.stream ≡ rest

-- A message that the encoder codes, each symbol from a model that can code it, and flushes, is
-- decoded by the same number of decoding calls on the same model, whatever bytes follow: the
-- decoder starts, returns each byte as it was and the end mark for each number above 255, comes to
-- the encoder's model, ends with the code 0 and leaves what follows unread.
pub decode_symbols-encode_symbols :
    (xs : List ℕ) (p q : Ppmd7) (f : RangeEnc) (rest : List ℕ)
    → IsSoundAlong ppmd7_codec xs p (init_enc [])
    → 514 * length xs + 8 < 2 ^ 64
    → encode_symbols xs p (init_enc []) ≡ some (q, f)
    → IsMessageRoundTrip xs p q f rest
decode_symbols-encode_symbols xs p q f rest sound few done =
    let script = encode_message-IsTranscript ppmd7_codec xs p (init_enc []) (q, f) sound done in
    let trip = decode_ops-encode_ops script.ops rest script.valid (omega (arith, script.few)) in
    let same : trip.coder ≡ f = some-injective _ _ (sym trip.encoded ∙ script.encodes) in
    record {
      decoder = trip.decoder;
      last = trip.last;
      started = rw same at trip.started;
      decoded = script.decodes trip.decoder trip.last trip.decoded.done;
      finished = trip.decoded.finished;
      stream = trip.decoded.stream;
    }
