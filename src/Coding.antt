-- ===== src/Coding.antt =====
-- What the symbol coders of both variants have in common: what decoding a symbol returns, and the
-- interface of a range coder that they are compared on.
use pyppmd.Base.{ℕ, ◌≡◌, Option, some, List, [], ◌∷◌, ◌>>=◌, ltb, if◌then◌else◌}
use pyppmd.RangeCoder.Ops.{Op}
use pyppmd.RangeCoder.Value.{All}
pub mod Coded
pub mod Message

-- A byte, -1 and -2.
pub data Decoded : Type 0 where
  byte : ℕ → Decoded
  end_mark : Decoded
  data_error : Decoded

-- With the model and the coder that decoding leaves.
pub record Answer (M D : Type 0) : Type 0 where
  pub result : Decoded
  pub model : M
  pub coder : D

abbrev pub with_result : {M D : Type 0} → Decoded → D → M → Answer M D
with_result r d p = record { result = r; model = p; coder = d }

-- What the decoder shall return for a symbol.
unfoldable pub answer_for : ℕ → Decoded
answer_for x = if ltb x 256 then byte x else end_mark

-- A range coder: its steps one by one and in a row, the ones that its encoder takes, and that a row
-- is performed step by step.
pub record Coder (E D : Type 0) : Type 1 where
  pub IsValid : Op → Type 0
  pub encode : Op → E → Option E
  pub decode : Op → D → Option D
  pub encode_all : List Op → E → Option E
  pub decode_all : List Op → D → Option D
  pub encode_nil : (e : E) → encode_all [] e ≡ some e
  pub decode_nil : (d : D) → decode_all [] d ≡ some d
  pub encode_cons :
      (op : Op) (ops : List Op) (e : E) → encode_all (op ∷ ops) e ≡ encode op e >>= encode_all ops
  pub decode_cons :
      (op : Op) (ops : List Op) (d : D) → decode_all (op ∷ ops) d ≡ decode op d >>= decode_all ops
