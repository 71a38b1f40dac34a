-- ===== src/Carryless/RoundTrip.antt =====
-- What the encoder of the carry-less range coder writes, its decoder reads back.
use pyppmd.Base.{
  ℕ, ◌+◌, ◌*◌, ◌/◌, ◌%◌, ◌^◌, ◌≤◌, ◌<◌, ◌≡◌, refl, ◌∙◌, ap, sym, true, some, List, [], ◌∷◌, ◌++◌,
  u8, u32, arith, lt→ltb, ltb, ◌<<<◌, ◌>>>◌,
}
use mathlib.Core.List.{append_assoc, append-nil}
use pyppmd.Base.Bits.{bit_or-byte}
use pyppmd.RangeCoder.Dec.{read}
use pyppmd.RangeCoder.Value.{All}
use pyppmd.RangeCoder.Ops.{Op}
use pyppmd.Carryless.Coder.{
  Encoder, Decoder, init_encoder, flush_bytes, flush_encoder, get_byte, get_bytes, init_decoder,
  is_finished,
}
use pyppmd.Carryless.Settle.{IsFair}
use pyppmd.Carryless.Run.{IsFuture, IsSynced, number}
use pyppmd.Carryless.Followed.{IsFollowed, IsFollowed-then}
use pyppmd.Carryless.Ops.{IsStep, encode_steps, decode_steps}
use pyppmd.Carryless.Answer.{encode_step-IsFollowed}

-- From a state that can code, the encoder codes each sequence of valid steps: its loops end, and the
-- decoder follows it.
pub encode_steps-IsFollowed :
    (ops : List Op) (e : Encoder)
    → All IsStep ops
    → IsFair e.low e.range
    → 2 ^ 15 ≤ e.range
    → IsFollowed (encode_steps ops) (decode_steps ops) e
unfolding encode_steps decode_steps
encode_steps-IsFollowed [] e valid fair wide = record {
  last = e;
  done = refl;
  fair = fair;
  wide = wide;
  written = [];
  stream = sym (append-nil e.stream);
  back = λ t s same f. record {
    b0 = f.b0;
    b1 = f.b1;
    b2 = f.b2;
    b3 = f.b3;
    rest = f.rest;
    shape = same ∙ f.shape;
    bytes = f.bytes;
    above = f.above;
    below = f.below;
  };
  follow = λ t s same f d h. (
    d,
    refl,
    record { low_eq = h.low_eq; range_eq = h.range_eq; code_eq = h.code_eq; stream = h.stream },
  );
}
encode_steps-IsFollowed (op ∷ ops) e (one, more) fair wide =
    let first = encode_step-IsFollowed e fair wide op one in
    IsFollowed-then first (encode_steps-IsFollowed ops first.last more first.fair first.wide)

-- The four bytes of Low.
abbrev flushed : ℕ → List ℕ → List ℕ
flushed low rest = low / 2 ^ 24 ∷ low / 2 ^ 16 % 256 ∷ low / 2 ^ 8 % 256 ∷ low % 256 ∷ rest

flush_encoder-stream :
    (e : Encoder) (rest : List ℕ)
    → e.low < 2 ^ 32
    → (flush_encoder e).stream ++ rest ≡ e.stream ++ flushed e.low rest
unfolding flush_encoder flush_bytes
flush_encoder-stream e rest small =
    let b0 : u8 (e.low >>> 24) ≡ e.low / 2 ^ 24 = omega arith in
    let b1 : u8 (u32 (e.low <<< 8) >>> 24) ≡ e.low / 2 ^ 16 % 256 = omega arith in
    let b2 : u8 (u32 (u32 (e.low <<< 8) <<< 8) >>> 24) ≡ e.low / 2 ^ 8 % 256 = omega arith in
    let b3 : u8 (u32 (u32 (u32 (e.low <<< 8) <<< 8) <<< 8) >>> 24) ≡ e.low % 256 = omega arith in
    rw (b0, b1, b2, b3) (simp append_assoc)

flushed-IsFuture :
    (low range : ℕ) (rest : List ℕ)
    → IsFair low range
    → (f : IsFuture low range (flushed low rest)) × (number f ≡ low) × (f.rest ≡ rest)
flushed-IsFuture low range rest fair = (
  record {
    b0 = low / 2 ^ 24;
    b1 = low / 2 ^ 16 % 256;
    b2 = low / 2 ^ 8 % 256;
    b3 = low % 256;
    rest = rest;
    shape = refl;
    bytes = omega (arith, fair.low_lt);
    above = omega arith;
    below = omega (arith, fair.pos);
  },
  omega arith,
  refl,
)

get_byte_lem :
    (d : Decoder) (b : ℕ) (s : List ℕ)
    → d.stream ≡ b ∷ s
    → b < 256
    → d.code < 2 ^ 24
    → get_byte d ≡ record d { code = d.code * 256 + b; stream = s }
unfolding get_byte read
get_byte_lem d b s e byte small =
    let plain : u32 (d.code <<< 8) ≡ d.code * 256 = omega arith in
    rw (e, plain, bit_or-byte d.code b byte) refl

abbrev loading : (code : ℕ) → List ℕ → Decoder
loading code s = record { low = 0; range = 0xFFFF_FFFF; code = code; stream = s }

-- The decoder starts on the bytes that follow the encoder's first state.
init_decoder-IsSynced :
    (s : List ℕ) (f : IsFuture 0 0xFFFF_FFFF s)
    → (d : Decoder) × (init_decoder s ≡ (true, d)) × IsSynced f d
unfolding init_decoder get_bytes
init_decoder-IsSynced s f =
    let (byte0, byte1, byte2, byte3) = f.bytes in
    let e0 =
      get_byte_lem (loading 0 s) f.b0 (f.b1 ∷ f.b2 ∷ f.b3 ∷ f.rest) f.shape byte0 (omega arith) in
    let e1 =
      get_byte_lem (loading (0 * 256 + f.b0) (f.b1 ∷ f.b2 ∷ f.b3 ∷ f.rest)) f.b1
        (f.b2 ∷ f.b3 ∷ f.rest) refl byte1 (omega arith) in
    let e2 =
      get_byte_lem (loading ((0 * 256 + f.b0) * 256 + f.b1) (f.b2 ∷ f.b3 ∷ f.rest)) f.b2
        (f.b3 ∷ f.rest) refl byte2 (omega arith) in
    let e3 =
      get_byte_lem (loading (((0 * 256 + f.b0) * 256 + f.b1) * 256 + f.b2) (f.b3 ∷ f.rest)) f.b3
        f.rest refl byte3 (omega (arith, f.below)) in
    let read_all : get_byte (get_byte (get_byte (get_byte (loading 0 s))))
        ≡ loading (number f) f.rest =
      ap (λ d. get_byte (get_byte (get_byte d))) e0
      ∙ ap (λ d. get_byte (get_byte d)) e1
      ∙ ap get_byte e2
      ∙ e3
      ∙ ap (λ c. loading c f.rest) (omega arith) in
    (
      loading (number f) f.rest,
      ap (λ (d : Decoder). (ltb d.code 0xFFFF_FFFF, d)) read_all
          ∙ ap (λ b. (b, loading (number f) f.rest))
              (lt→ltb (number f) 0xFFFF_FFFF (omega (arith, f.below))),
      record { low_eq = refl; range_eq = refl; code_eq = omega arith; stream = refl },
    )

init_encoder-IsFair : IsFair 0 0xFFFF_FFFF
init_encoder-IsFair = record {
  pos = omega arith;
  low_lt = omega arith;
  range_lt = omega arith;
  inside = omega arith;
  top = omega arith;
}

-- What becomes of a sequence of steps that is encoded and flushed, followed by other bytes, and
-- decoded.
pub record IsRoundTrip (ops : List Op) (rest : List ℕ) : Type 0 where
  pub coder : Encoder
  pub decoder : Decoder
  pub last : Decoder
  pub encoded : encode_steps ops (init_encoder []) ≡ some coder
  pub started : init_decoder ((flush_encoder coder).stream ++ rest) ≡ (true, decoder)
  pub decoded : decode_steps ops decoder ≡ some last
  pub finished : is_finished last ≡ true
  pub stream : last.stream ≡ rest

-- Any sequence of valid steps (each share at least one count, totals of at most 2 ^ 15 and binary
-- shares below 2 ^ 14) is encoded by loops that end; the decoder starts on the flushed bytes,
-- whatever follows them, answers each step with what was coded, ends with the code 0 and leaves what
-- follows unread.
pub decode_steps-encode_steps :
    (ops : List Op) (rest : List ℕ) → All IsStep ops → IsRoundTrip ops rest
unfolding init_encoder is_finished
decode_steps-encode_steps ops rest valid =
    let coded =
      encode_steps-IsFollowed ops (init_encoder []) valid init_encoder-IsFair (omega arith) in
    let (f, value, behind) = flushed-IsFuture coded.last.low coded.last.range rest coded.fair in
    let bytes : (flush_encoder coded.last).stream ++ rest
        ≡ coded.written ++ flushed coded.last.low rest =
      flush_encoder-stream coded.last rest coded.fair.low_lt
      ∙ ap (λ s. s ++ flushed coded.last.low rest) coded.stream in
    let (d, started, first) =
      init_decoder-IsSynced _ (coded.back (flushed coded.last.low rest) _ bytes f) in
    let (d', decoded, end) = coded.follow (flushed coded.last.low rest) _ bytes f d first in
    record {
      coder = coded.last;
      decoder = d;
      last = d';
      encoded = coded.done;
      started = started;
      decoded = decoded;
      finished = ground (arith, end.code_eq, value);
      stream = end.stream ∙ behind;
    }
