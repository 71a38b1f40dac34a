-- ===== src/Ppmd8/Agree/Chain.antt =====
-- The loop of escapes: up the chain of suffixes, one round after the other, to the symbol or past
-- the root.
use pyppmd.Base.{
  ℕ, suc, ◌+◌, ◌-◌, ◌^◌, ◌≤◌, ◌<◌, ◌≡◌, refl, ap, true, false, Bool-cases, inl, inr, arith, u32,
  Option, some, [], length, ◌==◌,
}
use native.Mathlib.Nat.{zero-add}
use pyppmd.Base.Memory.{Memory}
use pyppmd.Coding.Coded.{IsCoded, IsCoded-same, IsCoded-done}
use pyppmd.Carryless.Coder.{Encoder, Decoder}
use pyppmd.Ppmd7.State.{See, sub32}
use pyppmd.Ppmd7.Escape.{SeeRef, dummy, at, see_mean}
use pyppmd.Ppmd7.Successors.{chain_fuel, search_fuel}
use pyppmd.Ppmd7.Encode.{Mask, search_masked}
use pyppmd.Ppmd7.Decode.{mask_all}
use pyppmd.Ppmd7.Agree.Masked.{free_states, free_sum, IsDistinct, collect-free_states}
use pyppmd.Ppmd7.Agree.Lookup.{search_masked-IsSearched}
use pyppmd.Ppmd7.Agree.Chain.{answer_for-masked}
use pyppmd.Ppmd8.State.{Ppmd8, num_stats, stats}
use pyppmd.Ppmd8.Escape.{get_see, put_see, make_esc_freq}
use pyppmd.Ppmd8.Encode.{climb, root, reached, add_escape, encode_escaped}
use pyppmd.Ppmd8.Decode.{DecodeResult, decode_escaped}
use pyppmd.Ppmd8.Agree.Steps.{carryless_coder}
use pyppmd.Ppmd8.Agree.Round.{encode_round, decode_round, round-IsCoded}

pub make_esc_freq-pos : (q : Ppmd8) (n : ℕ) → 1 ≤ (make_esc_freq q n).1
unfolding make_esc_freq see_mean
make_esc_freq-pos q n = ground arith

put_see-mem : (p : Ppmd8) (ref : SeeRef) (v : See) → (put_see p ref v).mem ≡ p.mem
unfolding put_see
put_see-mem p dummy v = refl
put_see-mem p (at i) v = refl

make_esc_freq-mem : (q : Ppmd8) (n : ℕ) → (make_esc_freq q n).2.mem ≡ q.mem
unfolding make_esc_freq
make_esc_freq-mem q n = elim (Bool-cases (num_stats q q.min_context == 0xFF)) [
  | inl h ↦ rw h refl
  | inr h ↦ rw h refl
]

make_esc_freq-min_context : (q : Ppmd8) (n : ℕ) → (make_esc_freq q n).2.min_context ≡ q.min_context
unfolding make_esc_freq
make_esc_freq-min_context q n = elim (Bool-cases (num_stats q q.min_context == 0xFF)) [
  | inl h ↦ rw h refl
  | inr h ↦ rw h refl
]

add_escape-sum :
    (p : Ppmd8) (see : SeeRef) (hi esc : ℕ)
    → esc + hi < 2 ^ 32
    → add_escape p see (u32 (esc + hi)) 0 ≡ add_escape p see hi esc
unfolding add_escape
add_escape-sum p see hi esc small =
    let same : (get_see p see).summ + u32 (esc + hi) + 0 ≡ (get_see p see).summ + hi + esc =
      omega arith in
    rw same refl

-- A context that is escaped to, which has one state more than it says: no more than there are bytes, all different and counting,
-- of which `num_masked` are masked, and a sum that stays within what the coder takes.
pub record IsFit (q : Ppmd8) (num_masked : ℕ) (m : Mask) : Type 0 where
  pub states : num_stats q q.min_context ≤ 255
  pub more : num_masked < num_stats q q.min_context
  pub free :
      length (free_states (num_stats q q.min_context + 1) q.mem m (stats q q.min_context))
      ≡ num_stats q q.min_context - num_masked
  pub distinct : IsDistinct (num_stats q q.min_context + 1) q.mem (stats q q.min_context)
  pub bytes : (a : ℕ) → q.mem a < 256
  pub sum :
      (make_esc_freq q num_masked).1
        + free_sum (num_stats q q.min_context + 1) q.mem m (stats q q.min_context)
      ≤ 2 ^ 15

-- The model and the mask behind an escape from it.
abbrev pub escape_model : Ppmd8 → (num_masked : ℕ) → Mask → Ppmd8
escape_model q num_masked m =
    let (see, esc, r) = make_esc_freq q num_masked in
    add_escape r see (free_sum (num_stats q q.min_context + 1) q.mem m (stats q q.min_context)) esc

abbrev pub escape_mask : Ppmd8 → Mask → Mask
escape_mask q m =
    mask_all q.mem (free_states (num_stats q q.min_context + 1) q.mem m (stats q q.min_context)) m

-- From a context up, each one that has states to offer fits, and at the root no byte is left.
pub data IsChain : ℕ → Ppmd8 → Mask → Type 0 where
  ends :
      {fuel : ℕ} {p q : Ppmd8} {m : Mask}
      → climb chain_fuel p (num_stats p p.min_context) ≡ some (root q)
      → ((x : ℕ) → x < 256 → m x ≡ false)
      → IsChain (suc fuel) p m
  climbs :
      {fuel : ℕ} {p q : Ppmd8} {m : Mask}
      → climb chain_fuel p (num_stats p p.min_context) ≡ some (reached q)
      → IsFit q (num_stats p p.min_context) m
      → IsChain fuel (escape_model q (num_stats p p.min_context) m) (escape_mask q m)
      → IsChain (suc fuel) p m

-- A round in the memory that the search is made in.
search_masked-IsCoded :
    (r : Ppmd8) (see : SeeRef) (esc n : ℕ) (m : Mask) (s limit x : ℕ) (mem : Memory)
    → r.mem ≡ mem
    → ((a : ℕ) → mem a < 256)
    → 1 ≤ esc
    → esc + free_sum n mem m s ≤ 2 ^ 15
    → IsDistinct n mem s
    → m x ≡ true
    → (k : ℕ → Encoder → Mask → Option (Ppmd8 × Encoder)) → (l : Decoder → Option DecodeResult)
    → (mask_all mem (free_states n mem m s) m x ≡ true
        → IsCoded limit x
            (λ e. k (free_sum n mem m s) e (mask_all mem (free_states n mem m s) m))
            l)
    → IsCoded
        (suc limit)
        x
        (encode_round r see esc k (search_masked n mem m s 0 x))
        (decode_round r see esc (free_sum n mem m s) (free_states n mem m s) l)
search_masked-IsCoded r see esc n m s limit x mem same bytes pos sum distinct free k l rest =
    let search = search_masked-IsSearched n mem m s 0 x distinct free (omega arith) in
    rw (← same) (
      round-IsCoded r see esc n m s limit x (search_masked n r.mem m s 0 x) (rw (← same) at bytes)
        pos (rw (← same) at sum) (rw (← same) at search) k l (rw (← same) at rest))

-- The search of the encoder, in terms of the context before its SEE context is chosen.
search_masked-same :
    (r q : Ppmd8) (m : Mask) (x : ℕ)
    → r.mem ≡ q.mem
    → r.min_context ≡ q.min_context
    → search_masked (num_stats r r.min_context + 1) r.mem m (stats r r.min_context) 0 x
      ≡ search_masked (num_stats q q.min_context + 1) q.mem m (stats q q.min_context) 0 x
search_masked-same r q m x same place = rw (same, place) refl

-- A round of each side, once the climb has ended at a context.
module _ (fuel : ℕ) (p q : Ppmd8) (m : Mask) (x : ℕ)
    (up : climb chain_fuel p (num_stats p p.min_context) ≡ some (reached q))
    (fit : IsFit q (num_stats p p.min_context) m) where
  abbrev num_masked : ℕ
  num_masked = num_stats p p.min_context

  abbrev n : ℕ
  n = num_stats q q.min_context

  abbrev s : ℕ
  s = stats q q.min_context

  abbrev chosen : SeeRef × ℕ × Ppmd8
  chosen = make_esc_freq q num_masked

  abbrev encode_next : ℕ → Encoder → Mask → Option (Ppmd8 × Encoder)
  encode_next sum e m' = encode_escaped fuel (add_escape chosen.2 chosen.0 sum chosen.1) e m' x

  abbrev decode_next : Decoder → Option DecodeResult
  decode_next d = decode_escaped fuel (escape_model q num_masked m) d (escape_mask q m)

  encode_escaped-round :
      (e : Encoder)
      → encode_escaped (suc fuel) p e m x
        ≡ encode_round chosen.2 chosen.0 chosen.1 encode_next
            (search_masked (n + 1) q.mem m s 0 x)
            e
  unfolding encode_escaped
  encode_escaped-round e = rw up (
      ap (λ r. encode_round chosen.2 chosen.0 chosen.1 encode_next r e)
        (search_masked-same chosen.2 q m x (make_esc_freq-mem q num_masked)
          (make_esc_freq-min_context q num_masked)))

  decode_escaped-round :
      (d : Decoder)
      → decode_escaped (suc fuel) p d m
        ≡ decode_round chosen.2 chosen.0 chosen.1
            (free_sum (n + 1) q.mem m s)
            (free_states (n + 1) q.mem m s)
            decode_next
            d
  unfolding decode_escaped
  decode_escaped-round d =
      let left : sub32 n num_masked ≡ n - num_masked = omega (arith, fit.more, fit.states) in
      let got =
        collect-free_states (n + 1) search_fuel q.mem m s (n - num_masked) 0 []
          (omega (arith, fit.states)) (omega (arith, fit.more)) (omega (arith, fit.states)) fit.free
          (omega (arith, fit.sum)) in
      rw
        (
          up,
          left,
          got,
          zero-add,
          make_esc_freq-mem q num_masked,
          add_escape-sum chosen.2 chosen.0 (free_sum (n + 1) q.mem m s) chosen.1
              (omega (arith, fit.sum)),
        )
        refl

-- Behind an escape, where the contexts up the chain fit and the symbol is not masked, the loops of
-- Ppmd8_EncodeSymbol and Ppmd8_DecodeSymbol end, after the same valid steps of the range coder and
-- the same update, with the symbol found by both, or with the end mark past the root.
pub IsChain-IsCoded :
    {fuel : ℕ} {p : Ppmd8} {m : Mask} (x : ℕ)
    → IsChain fuel p m
    → m x ≡ true
    → IsCoded fuel x (λ e. encode_escaped fuel p e m x) (λ d. decode_escaped fuel p d m)
unfolding encode_escaped decode_escaped
IsChain-IsCoded x (ends {fuel = fuel} {q = q} {m = m} stop masked) free = rw stop (
    rw (answer_for-masked x m masked free) at
      (IsCoded-done {E = Encoder} {D = Decoder} (suc fuel) x (some q)))
IsChain-IsCoded x (climbs {fuel = fuel} {p = p} {q = q} {m = m} up fit rest) free =
    IsCoded-same (suc fuel) x (encode_escaped-round fuel p q m x up fit)
      (decode_escaped-round fuel p q m x up fit)
      (search_masked-IsCoded (chosen fuel p q m x up fit).2 (chosen fuel p q m x up fit).0
        (chosen fuel p q m x up fit).1 _ m _ fuel x q.mem
        (make_esc_freq-mem q (num_stats p p.min_context)) fit.bytes
        (make_esc_freq-pos q (num_stats p p.min_context)) fit.sum fit.distinct free
        (encode_next fuel p q m x up fit) (decode_next fuel p q m x up fit)
        (λ still. IsChain-IsCoded x rest still))
