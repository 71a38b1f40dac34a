-- ===== src/Tests/Decoders.antt =====
-- A new decoder object of variant H, from an allocator that gives a block of zeros.
use pyppmd.Base.{ℕ, ◌≡◌, refl, ap, true, arith, some, []}
use mathlib.Core.Option.{some-injective}
use pyppmd.RangeCoder.Dec.{RangeDec}
use pyppmd.Ppmd7.State.{Ppmd7}
use pyppmd.Tests.Model as Tests7
use pyppmd.Extension.Arguments.{nothing, number, misfit, bad_argument, raised, order_of}
use pyppmd.Extension.Decoders.{
  DecoderAllocation, new_decoder, ppmd7_decoder_init, ppmd8_decoder_init, Decoder8,
  init_decoder_object,
}
use pyppmd.Extension.Paired.{IsPaired, ppmd7_decoder_init-IsPaired}

abbrev zeros : DecoderAllocation Ppmd7
zeros = record {
  buffer_reader = true;
  blocks_output_buffer = true;
  in_buffer = true;
  out_buffer = true;
  thread_info = true;
  model = some Tests7.model;
  block = λ n. some (λ a. 0);
  thread_control = true;
}

abbrev fields : RangeDec
fields = record { range = 0; code = 0; stream = [] }

ppmd7_decoder_init-IsPaired_example :
    IsPaired zeros
      (some fields)
      (number 1)
      (number 9000)
      (ppmd7_decoder_init zeros (some fields) (number 1) (number 9000) new_decoder)
ppmd7_decoder_init-IsPaired_example =
    ppmd7_decoder_init-IsPaired zeros (some fields) (number 1) (number 9000) (λ n b h x.
      let same : 0 ≡ b x = ap (λ (m : ℕ → ℕ). m x) (some-injective _ _ h) in omega (arith, same))

-- A decoder of variant I asks for input even where its argument is refused.
refused :
    (a : DecoderAllocation Decoder8)
    → ppmd8_decoder_init a 0 misfit nothing new_decoder
      ≡ (raised bad_argument, record new_decoder { inited = true; needs_input = true })
unfolding ppmd8_decoder_init init_decoder_object new_decoder order_of
refused a = refl
