-- ===== src/Tests/Model.antt =====
-- A model with one context, of 256 states that count once each and lead back to it, and what it
-- makes of a message.
use pyppmd.Base.{
  ℕ, zero, suc, ◌+◌, ◌-◌, ◌*◌, ◌/◌, ◌%◌, ◌^◌, ◌≤◌, ◌<◌, ◌≡◌, refl, sym, ap, false, true, arith, inr,
  List, [], ◌∷◌, ltb, ◌==◌, if◌then◌else◌, some, none, Option, ◌∙◌,
}
use pyppmd.Base.Memory.{
  Memory, load16, load32, store8, store32, store16, swap_states, store_state, load_state, successor,
  do_rounds,
}
use pyppmd.RangeCoder.Enc.{RangeEnc, init_enc, encode, normalize_enc, shift_low, rounds, pending}
use pyppmd.Ppmd7.State.{Ppmd7, See}
use pyppmd.Ppmd7.Alloc.{insert_node, remove_node}
use pyppmd.Ppmd7.FreeLists.{remove_node-insert_node}
use pyppmd.Ppmd7.Successors.{chain_fuel}
use pyppmd.Ppmd7.Encode.{
  Mask, unmasked, mask_out, mask_states, masked_freq, search_masked, climb, encode_many,
  encode_scan, scan, encode_escaped, encode_symbol,
}
use pyppmd.Ppmd7.Symbols.{update1, next_context, count_found, rescale_found}
use pyppmd.Ppmd7.Decode.{decode_escaped, decode_symbol}
use pyppmd.Ppmd7.Escape.{update_prob_0, update_prob_1}
use pyppmd.Ppmd7.Bounds.{IsShare, update_prob-IsShare}
use pyppmd.Ppmd7.Agree.Masked.{IsDistinct, free_sum}
use pyppmd.Ppmd7.Agree.Lookup.{IsSearched, search_masked-IsSearched}
use pyppmd.Ppmd7.Agree.Missed.{mask_states-masked}
use pyppmd.Ppmd7.Restart.{init}
use pyppmd.Ppmd7.Initial.{init-IsSound}
use pyppmd.Ppmd7.Agree.First.{Counted, sum_behind}
use pyppmd.Ppmd7.Agree.Chain.{ends, IsChain-IsCoded}
use pyppmd.Ppmd7.Agree.Start.{IsManyFit, many_model, many_mask}
use pyppmd.Coding.Coded.{IsCoded}
use pyppmd.Ppmd7.Agree.Steps.{range_coder}
use pyppmd.Ppmd7.Agree.Symbol.{IsSound, encode_symbol-IsCoded}
use pyppmd.Coding.Message.{encode_message}
use pyppmd.Ppmd7.Message.{encode_symbols, IsMessageRoundTrip, decode_symbols-encode_symbols}

-- A context at 24 with its states from 48 on. Each has its number for a symbol, counts once, and
-- has 24 for a successor.
abbrev pub memory : Memory
memory a =
    if ltb a 48
    then (if a == 25
        then 1
        else if a == 26
        then 1
        else if a == 27
        then 1
        else if a == 28
        then 48
        else 0)
    else if (a - 48) % 6 == 0
    then (a - 48) / 6 % 256
    else if (a - 48) % 6 == 1
    then 1
    else if (a - 48) % 6 == 2
    then 24
    else 0

abbrev no_see : See
no_see = record { summ = 0; shift = 0; count = 0 }

abbrev pub model : Ppmd7
model = record {
  min_context = 24;
  max_context = 24;
  found_state = 48;
  order_fall = 0;
  init_esc = 0;
  prev_success = 0;
  max_order = 6;
  hi_bits_flag = 0;
  run_length = 0;
  init_rl = 0;
  size = 2048;
  glue_count = 0;
  allocated = true;
  lo_unit = 0;
  hi_unit = 0;
  text = 0;
  units_start = 0;
  align_offset = 0;
  indx2units = [];
  units2indx = [];
  free_list = [];
  ns2indx = [];
  ns2bsindx = [];
  hb2flag = [];
  dummy_see = no_see;
  see = [];
  bin_summ = [];
  mem = memory;
}

memory-symbol : (i : ℕ) → i < 256 → memory (48 + 6 * i) ≡ i
memory-symbol i small = ground arith

memory-freq : (i : ℕ) → memory (48 + 6 * i + 1) ≡ 1
memory-freq i = ground arith

memory-byte : (a : ℕ) → memory a < 256
memory-byte a = ground arith

counted : (n k : ℕ) → Counted n memory (48 + 6 * k)
counted zero k = omega arith
counted (suc n) k =
    let place : 48 + 6 * k + 6 ≡ 48 + 6 * (k + 1) = omega arith in
    rw place (omega (arith, memory-freq (k + 1)), counted n (k + 1))

sum_behind-memory : (n k : ℕ) → sum_behind n memory (48 + 6 * k) ≡ n
unfolding sum_behind
sum_behind-memory zero k = refl
sum_behind-memory (suc n) k =
    let place : 48 + 6 * k + 6 ≡ 48 + 6 * (k + 1) = omega arith in
    rw place (omega (arith, memory-freq (k + 1), sum_behind-memory n (k + 1)))

pub model-IsManyFit : IsManyFit model
unfolding load16 load32 climb
model-IsManyFit = record {
  several = omega arith;
  states = omega arith;
  first = omega arith;
  counted = counted 255 0;
  sum = omega (arith, sum_behind-memory 255 0);
  small = omega arith;
  bytes = memory-byte;
  chain = ends refl (λ x small.
      let place : 48 + 6 * x ≡ 48 + 6 * 255 - 6 * (255 - x) = omega arith in
      mask_states-masked 256 memory (48 + 6 * 255) x _ (255 - x) (omega arith)
        (ap memory (sym place) ∙ memory-symbol x small));
}

encode_symbol-IsCoded_example :
    IsCoded 257 98 (λ e. encode_symbol model e 98) (λ d. decode_symbol model d)
encode_symbol-IsCoded_example = encode_symbol-IsCoded model 98 (inr model-IsManyFit)

abbrev pub message : List ℕ
message = 98 ∷ []

-- The run of the encoder, as it evaluates.
abbrev pub or_start : Option (Ppmd7 × RangeEnc) → Ppmd7 × RangeEnc
or_start none = (model, init_enc [])
or_start (some r) = r

abbrev pub outcome : Ppmd7 × RangeEnc
outcome = or_start (encode_symbols message model (init_enc []))

pub message-encoded : encode_symbols message model (init_enc []) ≡ some (outcome.0, outcome.1)
unfolding encode_message encode_symbol load16 load32 encode_many encode_scan scan do_rounds encode
    normalize_enc init_enc shift_low update1 store16 store8 swap_states store_state load_state
    successor next_context count_found rescale_found rounds pending
message-encoded = refl

-- What the range coder holds then.
abbrev pub last_coder : RangeEnc
last_coder = record {
  low = 2657197568;
  range = 4278255360;
  cache = 97;
  cache_size = 1;
  stream = 0 ∷ [];
}

pub outcome_coder : outcome.1 ≡ last_coder
unfolding encode_message encode_symbol load16 load32 encode_many encode_scan scan do_rounds encode
    normalize_enc init_enc shift_low update1 store16 store8 swap_states store_state load_state
    successor next_context count_found rescale_found rounds pending
outcome_coder = refl

decode_symbols-encode_symbols_example :
    IsMessageRoundTrip message model outcome.0 outcome.1 (7 ∷ [])
decode_symbols-encode_symbols_example =
    decode_symbols-encode_symbols message model outcome.0 outcome.1 (7 ∷ [])
      (inr model-IsManyFit, λ q f h. omega arith) (omega arith) message-encoded

update_prob-IsShare_example :
    IsShare (update_prob_0 5000)
    × IsShare (update_prob_1 5000)
    × (5000 ≤ update_prob_0 5000)
    × (update_prob_1 5000 ≤ 5000)
update_prob-IsShare_example = update_prob-IsShare 5000 (omega arith)

-- The states of 0, 1 and 2, with 1 masked.
abbrev without_one : Mask
without_one x = if x == 1 then false else true

memory-IsDistinct : IsDistinct 3 memory 48
memory-IsDistinct = ground arith

three_states : 0 + free_sum 3 memory without_one 48 < 2 ^ 32
unfolding free_sum masked_freq
three_states = omega arith

search_masked-IsSearched_example :
    IsSearched 3 memory without_one 48 0 2 (search_masked 3 memory without_one 48 0 2)
search_masked-IsSearched_example =
    search_masked-IsSearched 3 memory without_one 48 0 2 memory-IsDistinct refl three_states

end_unmasked : many_mask model 256 ≡ true
unfolding mask_states mask_out unmasked load16 load32
end_unmasked = refl

IsChain-IsCoded_example :
    IsCoded chain_fuel 256
      (λ e. encode_escaped chain_fuel (many_model model) e (many_mask model) 256)
      (λ d. decode_escaped chain_fuel (many_model model) d (many_mask model))
IsChain-IsCoded_example = IsChain-IsCoded 256 model-IsManyFit.chain end_unmasked

-- With a node in each of two free lists.
abbrev stocked : Ppmd7
stocked = record model { free_list = 1200 ∷ 1800 ∷ [] }

remove_node-insert_node_example :
    remove_node (insert_node stocked 2400 1) 1
    ≡ (2400, record stocked { mem = store32 memory 2400 1800 })
remove_node-insert_node_example = remove_node-insert_node stocked 2400 1 (omega arith) (omega arith)

-- With a block of zeros.
abbrev pub blank : Ppmd7
blank = record model { mem = λ a. 0; align_offset = 4 }

init-IsSound_example : IsSound (init blank 6)
init-IsSound_example = init-IsSound blank 6 (λ a. omega arith) (omega arith) (omega arith)
