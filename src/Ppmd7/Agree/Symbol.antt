-- ===== src/Ppmd7/Agree/Symbol.antt =====
-- The coding of a symbol as a whole, and its round trip through a range coder.
use pyppmd.Base.{ℕ, suc, ◌≡◌, ◌⊎◌, false, arith, inl, inr, ◌==◌}
use pyppmd.Ppmd7.State.{Ppmd7, num_stats}
use pyppmd.Ppmd7.Successors.{chain_fuel}
use pyppmd.Ppmd7.Encode.{encode_symbol}
use pyppmd.Ppmd7.Decode.{decode_symbol}
use pyppmd.Coding.Coded.{IsCoded}
use pyppmd.Ppmd7.Agree.Steps.{range_coder}
use pyppmd.Ppmd7.Agree.Start.{IsManyFit, encode_many-IsCoded}
use pyppmd.Ppmd7.Agree.Binary.{IsBinFit, encode_bin-IsCoded}

-- The model can code a symbol from its current context.
abbrev pub IsSound : Ppmd7 → Type 0
IsSound p = ((num_stats p p.min_context ≡ 1) × IsBinFit p) ⊎ IsManyFit p

-- For each number and each model that can code from its context, Ppmd7_EncodeSymbol and
-- Ppmd7_DecodeSymbol perform the same valid steps of the range coder, at most 257, and then the same
-- update; where the decoder answers these steps it returns the byte that was coded, or the end mark
-- for a number above 255.
pub encode_symbol-IsCoded :
    (p : Ppmd7) (x : ℕ)
    → IsSound p
    → IsCoded (suc chain_fuel) x (λ e. encode_symbol p e x) (λ d. decode_symbol p d)
unfolding encode_symbol decode_symbol
encode_symbol-IsCoded p x (inl (single, fit)) = rw single (encode_bin-IsCoded p x fit)
encode_symbol-IsCoded p x (inr fit) =
    let test : (num_stats p p.min_context == 1) ≡ false = ground (arith, fit.several) in
    rw test (encode_many-IsCoded p x fit)
