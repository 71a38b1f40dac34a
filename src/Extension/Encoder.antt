-- ===== src/Extension/Encoder.antt =====
-- encode and flush of the encoder objects, which differ in the symbol encoder and in the default for
-- the end mark only. The lock of an object makes its calls come one after the other.
use pyppmd.Base.{ℕ, Bool, Option, none, some, List, [], ◌∷◌, ◌==◌, if◌then◌else◌, length}
use pyppmd.Blocks.Buffer.{Output, NewBytes, init_and_grow, grow, finish, writer}
use pyppmd.RangeCoder.Enc.{RangeEnc, flush_data}
use pyppmd.Carryless.Coder.{Encoder, flush_encoder}
use pyppmd.Ppmd7.State.{Ppmd7}
use pyppmd.Ppmd7.Encode as Encode7
use pyppmd.Ppmd8.State.{Ppmd8}
use pyppmd.Ppmd8.Encode as Encode8
use pyppmd.Extension.Arguments.{
  out_of_memory, no_memory, flush_twice, Reply, returned, raised, endless, EncoderObject,
}

-- What Python answers: to PyBytes_FromStringAndSize, to PyList_New, and to PyList_Append on a list
-- of as many blocks.
pub record Python : Type 0 where
  pub new_bytes : NewBytes
  pub list_made : Bool
  pub appended : ℕ → Bool

-- The range coder that an object has: its end, the bytes that it has written to its stream, and the
-- coder on a new stream.
pub record Engine (E : Type 0) : Type 0 where
  pub flush_coder : E → E
  pub stream : E → List ℕ
  pub clear : E → E

-- Each byte of the stream goes through Writer.
unfoldable pub write_all : Output → List ℕ → Output
write_all out [] = out
write_all out (b ∷ bs) = write_all (writer out b) bs

-- Behind a symbol.
unfoldable pub renew : Python → Output → Option Output
renew py out =
    if out.ob.size == out.ob.pos
    then grow py.new_bytes (py.appended (length out.buffer.list)) out
    else some out

-- Where the loop ends: at the end of the data, at a buffer that does not grow, or not at all.
pub data Progress (M E : Type 0) : Type 0 where
  done : M → E → Output → Progress M E
  stuck : M → E → Progress M E
  lost : Progress M E

module _ {M E : Type 0} (encode_symbol : M → E → ℕ → Option (M × E)) (k : Engine E)
    (py : Python) where
  -- For data of less than 2 ^ 32 bytes, which the loop's index can count.
  unfoldable pub encode_loop : List ℕ → M → E → Output → Progress M E
  unfolding write_all renew
  encode_loop [] p e out = done p e out
  encode_loop (x ∷ xs) p e out = elim (encode_symbol p (k.clear e) x) [
    | none ↦ lost
    | some (q, f) ↦ elim (renew py (write_all out (k.stream f))) [
      | none ↦ stuck q f
      | some out' ↦ encode_loop xs q f out'
    ]
  ]

  abbrev pub Call : Type 0
  Call = Reply (List ℕ) × EncoderObject M E

  unfoldable pub give : EncoderObject M E → Option (List ℕ) → Call
  give self none = (raised out_of_memory, self)
  give self (some bytes) = (returned bytes, self)

  unfoldable pub close : EncoderObject M E → Progress M E → Call
  unfolding give
  close self (done p e out) = give (record self { parts = some (p, e) }) (finish py.new_bytes out)
  close self (stuck p e) = (raised no_memory, record self { parts = some (p, e) })
  close self lost = (endless, self)

  -- Ppmd7Encoder_encode and Ppmd8Encoder_encode, on the parts that __init__ has made.
  unfoldable pub encode : (data' : List ℕ) → M × E → EncoderObject M E → Call
  unfolding encode_loop close
  encode xs parts self = elim (init_and_grow py.new_bytes py.list_made none) [
    | none ↦ (raised no_memory, self)
    | some out ↦ close self (encode_loop xs parts.0 parts.1 out)
  ]

  unfoldable pub end_of : (endmark : Bool) → M × E → Option (M × E)
  end_of endmark parts =
      if endmark
      then encode_symbol parts.0 (k.clear parts.1) 256
      else some (parts.0, k.clear parts.1)

  -- Ppmd7Encoder_flush and Ppmd8Encoder_flush, which do not set `flushed`.
  unfoldable pub flush : (endmark : Bool) → M × E → EncoderObject M E → Call
  unfolding end_of give write_all
  flush endmark parts self =
      if self.flushed
      then (raised flush_twice, self)
      else elim (init_and_grow py.new_bytes py.list_made none) [
        | none ↦ (raised no_memory, self)
        | some out ↦ elim (end_of endmark parts) [
          | none ↦ (endless, self)
          | some (q, f) ↦
              let g = k.flush_coder f in
              give (record self { parts = some (q, g) })
                (finish py.new_bytes (write_all out (k.stream g)))
        ]
      ]

-- The calls on the two objects.
abbrev pub ppmd7_engine : Engine RangeEnc
ppmd7_engine = record {
  flush_coder = flush_data;
  stream = λ e. e.stream;
  clear = λ e. record e { stream = [] };
}

abbrev pub ppmd8_engine : Engine Encoder
ppmd8_engine = record {
  flush_coder = flush_encoder;
  stream = λ e. e.stream;
  clear = λ e. record e { stream = [] };
}

abbrev pub ppmd7_encode :
    Python
    → List ℕ
    → Ppmd7 × RangeEnc
    → EncoderObject Ppmd7 RangeEnc
    → Reply (List ℕ) × EncoderObject Ppmd7 RangeEnc
ppmd7_encode = encode Encode7.encode_symbol ppmd7_engine

abbrev pub ppmd7_flush :
    Python
    → (endmark : Bool) → Ppmd7 × RangeEnc
    → EncoderObject Ppmd7 RangeEnc
    → Reply (List ℕ) × EncoderObject Ppmd7 RangeEnc
ppmd7_flush = flush Encode7.encode_symbol ppmd7_engine

abbrev pub ppmd8_encode :
    Python
    → List ℕ
    → Ppmd8 × Encoder
    → EncoderObject Ppmd8 Encoder
    → Reply (List ℕ) × EncoderObject Ppmd8 Encoder
ppmd8_encode = encode Encode8.encode_symbol ppmd8_engine

abbrev pub ppmd8_flush :
    Python
    → (endmark : Bool) → Ppmd8 × Encoder
    → EncoderObject Ppmd8 Encoder
    → Reply (List ℕ) × EncoderObject Ppmd8 Encoder
ppmd8_flush = flush Encode8.encode_symbol ppmd8_engine
