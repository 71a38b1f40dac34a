-- ===== src/Tests/Objects.antt =====
-- The objects of the extension at a message of one byte, with an allocator that never refuses.
use pyppmd.Base.{
  ◌*◌, ◌≤◌, ◌≡◌, ◌∙◌, refl, sym, ap, true, false, arith, inr, [], ◌∷◌, some, none, length,
  replicate, length-replicate,
}
use mathlib.Core.Option.{some-injective}
use mathlib.Core.Path.{subst}
use pyppmd.Blocks.Buffer.{Output, init_and_grow, first_block}
use pyppmd.RangeCoder.Enc.{RangeEnc, init_enc, shift_low, flush_data, flush_rounds, pending, rounds}
use pyppmd.Coding.Message.{encode_message, encode_message-cons}
use pyppmd.Ppmd7.State.{Ppmd7}
use pyppmd.Ppmd7.Encode as Encode7
use pyppmd.Ppmd7.Message.{ppmd7_codec}
use pyppmd.Extension.Arguments.{new_encoder}
use pyppmd.Extension.Encoder.{Python, end_of, ppmd7_engine}
use pyppmd.Extension.Room.{IsGenerous}
use pyppmd.Extension.Written.{HasRoom}
use pyppmd.Extension.RoundTrip.{IsRead7, decode_message-ppmd7_encode}
use pyppmd.Tests.Model.{
  model, model-IsManyFit, message, outcome, message-encoded, last_coder, outcome_coder,
}

abbrev pub python : Python
python = record { new_bytes = λ n. some (replicate n 0); list_made = true; appended = λ n. true }

pub python-IsGenerous : IsGenerous python
python-IsGenerous = record {
  faithful = λ n b h. ap length (sym (some-injective _ _ h)) ∙ length-replicate n 0;
  bytes = λ n. (replicate n 0, refl);
  list_made = refl;
  appended = λ n. refl;
}

pub size_of_first :
    (out : Output)
    → init_and_grow python.new_bytes true none ≡ some out
    → (out.ob.size ≡ 32 * 1024) × (out.ob.pos ≡ 0)
unfolding init_and_grow first_block
size_of_first out h =
    let same = some-injective _ _ h in
    (ap (λ (o : Output). o.ob.size) (sym same), ap (λ (o : Output). o.ob.pos) (sym same))

-- What flush writes behind the message.
flushed_length : length (flush_data (record last_coder { stream = [] })).stream ≤ 32 * 1024
unfolding flush_data flush_rounds shift_low pending rounds
flushed_length = omega arith

coded_coder :
    (q : Ppmd7) (f : RangeEnc)
    → Encode7.encode_symbol model (init_enc []) 98 ≡ some (q, f)
    → f ≡ last_coder
unfolding encode_message
coded_coder q f coded =
    let (t, one, rest) =
      encode_message-cons ppmd7_codec 98 [] model (init_enc []) _ message-encoded in
    let end : t ≡ outcome = some-injective _ _ rest in
    ap (λ (r : Ppmd7 × RangeEnc). r.1) (some-injective _ _ (sym coded ∙ one) ∙ end) ∙ outcome_coder

model-HasRoom :
    (out : Output)
    → init_and_grow python.new_bytes true none ≡ some out
    → HasRoom ppmd7_codec ppmd7_engine python false message model (init_enc []) out
unfolding init_enc end_of
model-HasRoom out made q f coded =
    let (size, pos) = size_of_first out made in
    let same = coded_coder q f coded in
    (
      omega (arith, size, pos, ap (λ (e : RangeEnc). length e.stream) same),
      λ r renewed q' f' end.
          let clear : record f { stream = [] } ≡ f' =
            ap (λ (u : Ppmd7 × RangeEnc). u.1) (some-injective _ _ end) in
          subst (λ (e : RangeEnc). length (flush_data e).stream ≤ 32 * 1024)
            (ap (λ (e : RangeEnc). record e { stream = [] }) (sym same) ∙ clear) flushed_length,
    )

decode_message-ppmd7_encode_example :
    IsRead7 python false message model new_encoder outcome.0 outcome.1 (7 ∷ [])
unfolding new_encoder
decode_message-ppmd7_encode_example =
    decode_message-ppmd7_encode python false message model outcome.0 new_encoder outcome.1 (7 ∷ [])
      python-IsGenerous (omega arith) refl (inr model-IsManyFit, λ q f h. tt) model-HasRoom
      message-encoded
