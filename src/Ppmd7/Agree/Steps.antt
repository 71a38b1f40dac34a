-- ===== src/Ppmd7/Agree/Steps.antt =====
-- What a decoder that answers a step has computed, and the coder as it is compared on.
use pyppmd.Base.{ℕ, ◌+◌, ◌>>=◌, ◌≤◌, ◌<◌, ◌≡◌, true, false, some, List, [], ◌∷◌, refl, arith}
use pyppmd.RangeCoder.Enc.{RangeEnc}
use pyppmd.RangeCoder.Dec.{RangeDec, get_threshold, decode, decode_bit}
use pyppmd.Coding.{Coder}
use pyppmd.RangeCoder.Ops.{IsOp, Op, interval, bit, encode_op, encode_ops, decode_op, decode_ops}

-- The threshold lies in the interval, and decoding takes it.
pub record IsAnswered (start size total : ℕ) (d d' : RangeDec) : Type 0 where
  pub ge : start ≤ (get_threshold d total).0
  pub lt : (get_threshold d total).0 < start + size
  pub next : d' ≡ decode (get_threshold d total).1 start size

pub decode_op-IsAnswered :
    (start size total : ℕ) {d d' : RangeDec}
    → decode_op (interval start size total) d ≡ some d'
    → IsAnswered start size total d d'
unfolding decode_op
decode_op-IsAnswered start size total h = ground arith

pub decode_op-first :
    (size0 : ℕ) (d d' : RangeDec)
    → decode_op (bit false size0) d ≡ some d'
    → decode_bit d size0 ≡ (0, d')
unfolding decode_op
decode_op-first size0 d d' h = ground arith

pub decode_op-second :
    (size0 : ℕ) (d d' : RangeDec)
    → decode_op (bit true size0) d ≡ some d'
    → decode_bit d size0 ≡ (1, d')
unfolding decode_op
decode_op-second size0 d d' h = ground arith

pub encode_ops-nil : (e : RangeEnc) → encode_ops [] e ≡ some e
unfolding encode_ops
encode_ops-nil e = refl

pub decode_ops-nil : (d : RangeDec) → decode_ops [] d ≡ some d
unfolding decode_ops
decode_ops-nil d = refl

pub encode_ops-cons :
    (op : Op) (ops : List Op) (e : RangeEnc)
    → encode_ops (op ∷ ops) e ≡ encode_op op e >>= encode_ops ops
unfolding encode_ops
encode_ops-cons op ops e = refl

pub decode_ops-cons :
    (op : Op) (ops : List Op) (d : RangeDec)
    → decode_ops (op ∷ ops) d ≡ decode_op op d >>= decode_ops ops
unfolding decode_ops
decode_ops-cons op ops d = refl

-- The steps as an interface.
instance abbrev pub range_coder : Coder RangeEnc RangeDec
range_coder = record {
  IsValid = IsOp;
  encode = encode_op;
  decode = decode_op;
  encode_all = encode_ops;
  decode_all = decode_ops;
  encode_nil = encode_ops-nil;
  decode_nil = decode_ops-nil;
  encode_cons = encode_ops-cons;
  decode_cons = decode_ops-cons;
}
