-- ===== src/Tests/Objects8.antt =====
-- The objects of variant I at a message of one byte, and what __init__ leaves.
use pyppmd.Base.{
  ℕ, ◌*◌, ◌≤◌, ◌≡◌, ◌∙◌, refl, sym, ap, true, false, arith, inr, [], ◌∷◌, some, none, length,
}
use mathlib.Core.Option.{some-injective}
use mathlib.Core.Path.{subst}
use pyppmd.Blocks.Buffer.{Output, init_and_grow}
use pyppmd.Carryless.Coder.{Encoder, init_encoder, flush_encoder, flush_bytes}
use pyppmd.Coding.Message.{encode_message, encode_message-cons}
use pyppmd.Ppmd8.State.{Ppmd8}
use pyppmd.Ppmd8.Encode as Encode8
use pyppmd.Ppmd8.Message.{ppmd8_codec}
use pyppmd.Extension.Arguments.{nothing, number, Allocation, new_encoder, ppmd7_encoder_init}
use pyppmd.Extension.Encoder.{end_of, ppmd8_engine}
use pyppmd.Extension.Written.{HasRoom}
use pyppmd.Extension.RoundTrip.{IsRead8, decode_message-ppmd8_encode}
use pyppmd.Extension.Ready.{IsReady, ppmd7_encoder_init-IsReady}
use pyppmd.Tests.Objects.{python, python-IsGenerous, size_of_first}
use pyppmd.Ppmd7.State.{Ppmd7}
use pyppmd.Tests.Model as Tests7
use pyppmd.Tests.Message.{
  looping, looping-IsManyFit, message, outcome, message-encoded, last_coder, outcome_coder,
}

-- What flush writes behind the message.
flushed_length : length (flush_encoder (record last_coder { stream = [] })).stream ≤ 32 * 1024
unfolding flush_encoder flush_bytes
flushed_length = omega arith

coded_coder :
    (q : Ppmd8) (f : Encoder)
    → Encode8.encode_symbol looping (init_encoder []) 98 ≡ some (q, f)
    → f ≡ last_coder
unfolding encode_message
coded_coder q f coded =
    let (t, one, rest) =
      encode_message-cons ppmd8_codec 98 [] looping (init_encoder []) _ message-encoded in
    let end : t ≡ outcome = some-injective _ _ rest in
    ap (λ (r : Ppmd8 × Encoder). r.1) (some-injective _ _ (sym coded ∙ one) ∙ end) ∙ outcome_coder

looping-HasRoom :
    (out : Output)
    → init_and_grow python.new_bytes true none ≡ some out
    → HasRoom ppmd8_codec ppmd8_engine python false message looping (init_encoder []) out
unfolding init_encoder end_of
looping-HasRoom out made q f coded =
    let (size, pos) = size_of_first out made in
    let same = coded_coder q f coded in
    (
      omega (arith, size, pos, ap (λ (e : Encoder). length e.stream) same),
      λ r renewed q' f' end.
          let clear : record f { stream = [] } ≡ f' =
            ap (λ (u : Ppmd8 × Encoder). u.1) (some-injective _ _ end) in
          subst (λ (e : Encoder). length (flush_encoder e).stream ≤ 32 * 1024)
            (ap (λ (e : Encoder). record e { stream = [] }) (sym same) ∙ clear) flushed_length,
    )

decode_message-ppmd8_encode_example :
    IsRead8 python false message looping new_encoder outcome.0 outcome.1 (7 ∷ [])
unfolding new_encoder
decode_message-ppmd8_encode_example =
    decode_message-ppmd8_encode python false message looping outcome.0 new_encoder outcome.1
      (7 ∷ []) python-IsGenerous (omega arith) refl (inr looping-IsManyFit, λ q f h. tt)
      looping-HasRoom message-encoded

-- An allocator that gives a block of zeros.
abbrev zeros : Allocation Ppmd7
zeros = record { model = some Tests7.model; block = λ n. some (λ a. 0); coder = true }

ppmd7_encoder_init-IsReady_example :
    IsReady zeros (number 100) nothing (ppmd7_encoder_init zeros (number 100) nothing new_encoder)
ppmd7_encoder_init-IsReady_example =
    ppmd7_encoder_init-IsReady zeros (number 100) nothing (λ n b h x.
      let same : 0 ≡ b x = ap (λ (m : ℕ → ℕ). m x) (some-injective _ _ h) in omega (arith, same))
