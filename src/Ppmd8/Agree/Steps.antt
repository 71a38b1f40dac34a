-- ===== src/Ppmd8/Agree/Steps.antt =====
-- What a decoder that answers a step has computed, and the coder as it is compared on.
use pyppmd.Base.{ℕ, ◌+◌, ◌^◌, ◌≤◌, ◌<◌, ◌≡◌, refl, true, false, some, List, [], ◌∷◌, ◌>>=◌, arith}
use pyppmd.Coding.{Coder}
use pyppmd.RangeCoder.Ops.{Op, interval, bit}
use pyppmd.Ppmd7.State.{sub32}
use pyppmd.Carryless.Coder.{Encoder, Decoder, range_threshold, range_decode}
use pyppmd.Carryless.Ops.{
  IsStep, encode_step, encode_steps, bit_threshold, decode_step, decode_steps,
}

-- The threshold lies in the interval, and decoding takes it.
pub record IsTaken (start size total : ℕ) (d d' : Decoder) : Type 0 where
  pub ge : start ≤ (range_threshold d total).0
  pub lt : (range_threshold d total).0 < start + size
  pub next : range_decode (range_threshold d total).1 start size ≡ some d'

pub decode_step-IsTaken :
    (start size total : ℕ) {d d' : Decoder}
    → decode_step (interval start size total) d ≡ some d'
    → IsTaken start size total d d'
unfolding decode_step
decode_step-IsTaken start size total h = ground arith

pub decode_step-first :
    (size0 : ℕ) (d d' : Decoder)
    → decode_step (bit false size0) d ≡ some d'
    → ((bit_threshold d).0 < size0) × (range_decode (bit_threshold d).1 0 size0 ≡ some d')
unfolding decode_step
decode_step-first size0 d d' h = ground arith

pub decode_step-second :
    (size0 : ℕ) (d d' : Decoder)
    → decode_step (bit true size0) d ≡ some d'
    → (size0 ≤ (bit_threshold d).0)
      × (range_decode (bit_threshold d).1 size0 (sub32 (2 ^ 14) size0) ≡ some d')
unfolding decode_step
decode_step-second size0 d d' h = ground arith

pub encode_steps-nil : (e : Encoder) → encode_steps [] e ≡ some e
unfolding encode_steps
encode_steps-nil e = refl

pub decode_steps-nil : (d : Decoder) → decode_steps [] d ≡ some d
unfolding decode_steps
decode_steps-nil d = refl

pub encode_steps-cons :
    (op : Op) (ops : List Op) (e : Encoder)
    → encode_steps (op ∷ ops) e ≡ encode_step op e >>= encode_steps ops
unfolding encode_steps
encode_steps-cons op ops e = refl

pub decode_steps-cons :
    (op : Op) (ops : List Op) (d : Decoder)
    → decode_steps (op ∷ ops) d ≡ decode_step op d >>= decode_steps ops
unfolding decode_steps
decode_steps-cons op ops d = refl

-- The steps as an interface.
instance abbrev pub carryless_coder : Coder Encoder Decoder
carryless_coder = record {
  IsValid = IsStep;
  encode = encode_step;
  decode = decode_step;
  encode_all = encode_steps;
  decode_all = decode_steps;
  encode_nil = encode_steps-nil;
  decode_nil = decode_steps-nil;
  encode_cons = encode_steps-cons;
  decode_cons = decode_steps-cons;
}
