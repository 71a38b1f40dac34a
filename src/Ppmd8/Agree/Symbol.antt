-- ===== src/Ppmd8/Agree/Symbol.antt =====
-- The coding of a symbol as a whole.
use pyppmd.Base.{ℕ, suc, ◌≡◌, ◌⊎◌, false, arith, inl, inr, ◌==◌}
use pyppmd.Coding.Coded.{IsCoded}
use pyppmd.Ppmd7.Successors.{chain_fuel}
use pyppmd.Ppmd8.State.{Ppmd8, num_stats}
use pyppmd.Ppmd8.Encode.{encode_symbol}
use pyppmd.Ppmd8.Decode.{decode_symbol}
use pyppmd.Ppmd8.Agree.Steps.{carryless_coder}
use pyppmd.Ppmd8.Agree.Start.{IsManyFit, encode_many-IsCoded}
use pyppmd.Ppmd8.Agree.Binary.{IsBinFit, encode_bin-IsCoded}

-- The model can code a symbol from its current context.
abbrev pub IsSound : Ppmd8 → Type 0
IsSound p = ((num_stats p p.min_context ≡ 0) × IsBinFit p) ⊎ IsManyFit p

-- For each number and each model that can code from its context, Ppmd8_EncodeSymbol and
-- Ppmd8_DecodeSymbol perform the same valid steps of the range coder, at most 257, and then the same
-- update; where the decoder answers these steps it returns the byte that was coded, or the end mark
-- for a number above 255.
pub decode_symbol-encode_symbol :
    (p : Ppmd8) (x : ℕ)
    → IsSound p
    → IsCoded (suc chain_fuel) x (λ e. encode_symbol p e x) (λ d. decode_symbol p d)
unfolding encode_symbol decode_symbol
decode_symbol-encode_symbol p x (inl (single, fit)) = rw single (encode_bin-IsCoded p x fit)
decode_symbol-encode_symbol p x (inr fit) =
    let test : (num_stats p p.min_context == 0) ≡ false = ground (arith, fit.several) in
    rw test (encode_many-IsCoded p x fit)
