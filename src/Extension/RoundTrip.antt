-- ===== src/Extension/RoundTrip.antt =====
-- What encode and flush of an object return, the decoders read back.
use pyppmd.Base.{
  ℕ, ◌+◌, ◌^◌, ◌<◌, ◌≤◌, ◌≡◌, ◌∙◌, ap, Bool, true, false, none, some, List, [], ◌∷◌, ◌++◌, arith,
  length, length-append, map,
}
use pyppmd.Blocks.Buffer.{Output, init_and_grow}
use pyppmd.Coding.{answer_for}
use pyppmd.Coding.Message.{IsSoundAlong, encode_message, decode_message}
use pyppmd.RangeCoder.Enc.{RangeEnc, init_enc}
use pyppmd.RangeCoder.Dec.{RangeDec, init_dec, is_finished_ok}
use pyppmd.Carryless.Coder.{Encoder, Decoder, init_encoder, init_decoder, is_finished}
use pyppmd.Ppmd7.State.{Ppmd7}
use pyppmd.Ppmd7.Message.{ppmd7_codec, decode_symbols-encode_symbols}
use pyppmd.Ppmd8.State.{Ppmd8}
use pyppmd.Ppmd8.Message.{ppmd8_codec, decode_message-encode_message}
use pyppmd.Extension.Arguments.{EncoderObject}
use pyppmd.Extension.Encoder.{Python, ppmd7_engine, ppmd8_engine}
use pyppmd.Extension.Room.{IsGenerous}
use pyppmd.Extension.Written.{HasRoom}
use pyppmd.Extension.Sent.{mark, IsSent, encode-IsSent}
use pyppmd.Extension.Engines.{ppmd7_engine-IsStreamed, ppmd8_engine-IsStreamed}

length-mark : (xs : List ℕ) (endmark : Bool) → length (xs ++ mark endmark) ≤ length xs + 1
length-mark xs true = omega (arith, length-append xs (256 ∷ []))
length-mark xs false = omega (arith, length-append xs [])

-- The bytes that encode and flush return, followed by others, start the decoder, which decodes as
-- many symbols as there were to what they were, and the end mark behind them where it was asked for.
pub record IsRead7 (py : Python) (endmark : Bool) (xs : List ℕ) (p : Ppmd7)
    (self : EncoderObject Ppmd7 RangeEnc) (q : Ppmd7) (f : RangeEnc) (rest : List ℕ) : Type 0 where
  pub sent : IsSent ppmd7_codec ppmd7_engine py endmark xs (p, init_enc []) self q f
  pub decoder : RangeDec
  pub last : RangeDec
  pub started : init_dec ((sent.first ++ sent.second) ++ rest) ≡ (true, decoder)
  pub decoded :
      decode_message ppmd7_codec (length (xs ++ mark endmark)) p decoder
      ≡ some (map answer_for (xs ++ mark endmark), q, last)
  pub finished : is_finished_ok last ≡ true
  pub stream : last.stream ≡ rest

-- On an object of Ppmd7Encoder with a new coder that has not been flushed, with memory for each
-- request and room in the block for what each symbol makes the encoder write, where the encoder codes
-- the data, of less than 2 ^ 32 bytes, and the end mark, if it is asked for, from models that can
-- code them: encode and flush return, and what they return, put together and followed by any bytes,
-- is decoded with the object's first model to the data and the end mark, and the rest stays unread.
pub decode_message-ppmd7_encode :
    (py : Python) (endmark : Bool) (xs : List ℕ) (p q : Ppmd7) (self : EncoderObject Ppmd7 RangeEnc)
    (f : RangeEnc) (rest : List ℕ)
    → IsGenerous py
    → length xs < 2 ^ 32
    → self.flushed ≡ false
    → IsSoundAlong ppmd7_codec (xs ++ mark endmark) p (init_enc [])
    → ((out : Output)
        → init_and_grow py.new_bytes py.list_made none ≡ some out
        → HasRoom ppmd7_codec ppmd7_engine py endmark xs p (init_enc []) out)
    → encode_message ppmd7_codec (xs ++ mark endmark) p (init_enc []) ≡ some (q, f)
    → IsRead7 py endmark xs p self q f rest
unfolding init_enc
decode_message-ppmd7_encode py endmark xs p q self f rest generous short unflushed sound room
      coded =
    let sent =
      encode-IsSent ppmd7_codec py ppmd7_engine-IsStreamed endmark xs (p, init_enc []) self (q, f)
        generous short unflushed sound room coded in
    let trip =
      decode_symbols-encode_symbols (xs ++ mark endmark) p q f rest sound
        (omega (arith, short, length-mark xs endmark)) coded in
    record {
      sent = sent;
      decoder = trip.decoder;
      last = trip.last;
      started = ap (λ s. init_dec (s ++ rest)) sent.bytes ∙ trip.started;
      decoded = trip.decoded;
      finished = trip.finished;
      stream = trip.stream;
    }

-- The same of the other object.
pub record IsRead8 (py : Python) (endmark : Bool) (xs : List ℕ) (p : Ppmd8)
    (self : EncoderObject Ppmd8 Encoder) (q : Ppmd8) (f : Encoder) (rest : List ℕ) : Type 0 where
  pub sent : IsSent ppmd8_codec ppmd8_engine py endmark xs (p, init_encoder []) self q f
  pub decoder : Decoder
  pub last : Decoder
  pub started : init_decoder ((sent.first ++ sent.second) ++ rest) ≡ (true, decoder)
  pub decoded :
      decode_message ppmd8_codec (length (xs ++ mark endmark)) p decoder
      ≡ some (map answer_for (xs ++ mark endmark), q, last)
  pub finished : is_finished last ≡ true
  pub stream : last.stream ≡ rest

-- On an object of Ppmd8Encoder with a new coder that has not been flushed, with memory for each
-- request and room in the block for what each symbol makes the encoder write, where the encoder codes
-- the data, of less than 2 ^ 32 bytes, and the end mark, if it is asked for, from models that can
-- code them: encode and flush return, and what they return, put together and followed by any bytes,
-- is decoded with the object's first model to the data and the end mark, and the rest stays unread.
pub decode_message-ppmd8_encode :
    (py : Python) (endmark : Bool) (xs : List ℕ) (p q : Ppmd8) (self : EncoderObject Ppmd8 Encoder)
    (f : Encoder) (rest : List ℕ)
    → IsGenerous py
    → length xs < 2 ^ 32
    → self.flushed ≡ false
    → IsSoundAlong ppmd8_codec (xs ++ mark endmark) p (init_encoder [])
    → ((out : Output)
        → init_and_grow py.new_bytes py.list_made none ≡ some out
        → HasRoom ppmd8_codec ppmd8_engine py endmark xs p (init_encoder []) out)
    → encode_message ppmd8_codec (xs ++ mark endmark) p (init_encoder []) ≡ some (q, f)
    → IsRead8 py endmark xs p self q f rest
unfolding init_encoder
decode_message-ppmd8_encode py endmark xs p q self f rest generous short unflushed sound room
      coded =
    let sent =
      encode-IsSent ppmd8_codec py ppmd8_engine-IsStreamed endmark xs (p, init_encoder []) self
        (q, f) generous short unflushed sound room coded in
    let trip = decode_message-encode_message (xs ++ mark endmark) p q f rest sound coded in
    record {
      sent = sent;
      decoder = trip.decoder;
      last = trip.last;
      started = ap (λ s. init_decoder (s ++ rest)) sent.bytes ∙ trip.started;
      decoded = trip.decoded;
      finished = trip.finished;
      stream = trip.stream;
    }
