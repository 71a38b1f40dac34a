-- ===== src/Extension/Engines.antt =====
-- Both encoders write what they write wherever their stream stands.
use pyppmd.Base.{
  ℕ, zero, suc, ◌≡◌, refl, ◌∙◌, sym, ap, true, false, Bool-cases, not, ◌||◌, Option, none, some,
  ◌>>=◌, List, [], ◌∷◌, ◌++◌, ltb, ◌==◌, u32, ◌>>>◌, ◌<<<◌, Option-cases, inl, inr,
}
use mathlib.Core.List.{append_assoc, append-nil}
use pyppmd.RangeCoder.Ops.{Op, interval, bit, encode_op}
use pyppmd.RangeCoder.Enc.{
  RangeEnc, shift_low, normalize_enc, top_value, encode, encode_bit_0, encode_bit_1, flush_rounds,
  flush_data,
}
use pyppmd.Carryless.Coder.{
  Encoder, put_byte, normalize_encoder, settle, range_encode, range_encode_bit_0,
  range_encode_bit_1, flush_bytes, flush_encoder,
}
use pyppmd.Carryless.Ops.{encode_step}
use pyppmd.Coding.Message.{Codec}
use pyppmd.Ppmd7.Encode as Encode7
use pyppmd.Ppmd7.Agree.Symbol as Symbol7
use pyppmd.Ppmd7.Message.{ppmd7_codec}
use pyppmd.Ppmd8.Encode as Encode8
use pyppmd.Ppmd8.Agree.Symbol as Symbol8
use pyppmd.Ppmd8.Message.{ppmd8_codec}
use pyppmd.Extension.Encoder.{ppmd7_engine, ppmd8_engine}
use pyppmd.Extension.Stream.{IsStreamed}

-- What holds for each step holds for a symbol.
module _ {M E D : Type 0} (c : Codec M E D) (prepend : List ℕ → E → E)
    (one : (op : Op) (s : List ℕ) (e : E)
      → c.coder.encode op (prepend s e) ≡ c.coder.encode op e >>= λ f. some (prepend s f)) where
  encode_all-prepend :
      (ops : List Op) (s : List ℕ) (e : E)
      → c.coder.encode_all ops (prepend s e) ≡ c.coder.encode_all ops e >>= λ f. some (prepend s f)
  encode_all-prepend [] s e = rw (c.coder.encode_nil (prepend s e), c.coder.encode_nil e) refl
  encode_all-prepend (op ∷ ops) s e = elim (Option-cases (c.coder.encode op e)) [
    | inl h ↦
        rw (c.coder.encode_cons op ops (prepend s e), c.coder.encode_cons op ops e, one op s e, h)
          refl
    | inr (f, h) ↦
        rw (c.coder.encode_cons op ops (prepend s e), c.coder.encode_cons op ops e, one op s e, h)
          (encode_all-prepend ops s f)
  ]

  abbrev update : Option M → E → Option (M × E)
  update after f = after >>= λ q. some (q, f)

  abbrev behind_bytes : List ℕ → M × E → Option (M × E)
  behind_bytes s r = some (r.0, prepend s r.1)

  bind-prepend :
      (first : Option E) (after : Option M) (s : List ℕ)
      → (first >>= λ f. some (prepend s f)) >>= update after
        ≡ (first >>= update after) >>= behind_bytes s
  bind-prepend none after s = refl
  bind-prepend (some f) none s = refl
  bind-prepend (some f) (some q) s = refl

  symbol-prepend :
      (p : M) (e : E) (x : ℕ) (s : List ℕ)
      → c.IsSound p
      → c.encode_symbol p (prepend s e) x ≡ c.encode_symbol p e x >>= λ r. some (r.0, prepend s r.1)
  symbol-prepend p e x s sound =
      let coded = c.agrees p x sound in
      coded.encodes (prepend s e)
      ∙ ap (λ o. o >>= update coded.after) (encode_all-prepend coded.ops s e)
      ∙ bind-prepend (c.coder.encode_all coded.ops e) coded.after s
      ∙ ap (λ o. o >>= behind_bytes s) (sym (coded.encodes e))

-- The range coder of variant H.
abbrev behind : List ℕ → RangeEnc → RangeEnc
behind s e = record e { stream = s ++ e.stream }

shift_low-behind : (s : List ℕ) (p : RangeEnc) → shift_low (behind s p) ≡ behind s (shift_low p)
unfolding shift_low
shift_low-behind s p =
    elim (Bool-cases (ltb (u32 p.low) 0xFF00_0000 || not (u32 (p.low >>> 32) == 0))) [
      | inl h ↦ rw (h, append_assoc s p.stream _) refl
      | inr h ↦ rw h refl
    ]

normalize_enc-behind :
    (fuel : ℕ) (s : List ℕ) (p : RangeEnc)
    → normalize_enc fuel (behind s p) ≡ normalize_enc fuel p >>= λ f. some (behind s f)
unfolding normalize_enc
normalize_enc-behind zero s p = refl
normalize_enc-behind (suc fuel) s p = elim (Bool-cases (ltb p.range top_value)) [
  | inl h ↦
      let q = record p { range = u32 (p.range <<< 8) } in
      rw h (ap (normalize_enc fuel) (shift_low-behind s q) ∙ normalize_enc-behind fuel s _)
  | inr h ↦ rw h refl
]

encode_op-behind :
    (op : Op) (s : List ℕ) (e : RangeEnc)
    → encode_op op (behind s e) ≡ encode_op op e >>= λ f. some (behind s f)
unfolding encode_op encode encode_bit_0 encode_bit_1
encode_op-behind (interval start size total) s e = normalize_enc-behind _ s _
encode_op-behind (bit false size0) s e = normalize_enc-behind _ s _
encode_op-behind (bit true size0) s e = normalize_enc-behind _ s _

flush_rounds-behind :
    (n : ℕ) (s : List ℕ) (p : RangeEnc) → flush_rounds n (behind s p) ≡ behind s (flush_rounds n p)
unfolding flush_rounds
flush_rounds-behind zero s p = refl
flush_rounds-behind (suc n) s p =
    ap (flush_rounds n) (shift_low-behind s p) ∙ flush_rounds-behind n s (shift_low p)

pub ppmd7_engine-IsStreamed : IsStreamed Encode7.encode_symbol ppmd7_engine Symbol7.IsSound
unfolding flush_data
ppmd7_engine-IsStreamed = record {
  prepend = behind;
  whole = λ e. rw (append-nil e.stream) refl;
  stream_prepend = λ s e. refl;
  clear_prepend = λ s e. refl;
  clear_clear = λ e. refl;
  stream_clear = λ e. refl;
  symbol_prepend = symbol-prepend ppmd7_codec behind encode_op-behind;
  flush_prepend = flush_rounds-behind 5;
}

-- The carry-less one of variant I.
abbrev after_bytes : List ℕ → Encoder → Encoder
after_bytes s e = record e { stream = s ++ e.stream }

put_byte-after_bytes :
    (s : List ℕ) (p : Encoder) (range : ℕ)
    → put_byte (after_bytes s p) range ≡ after_bytes s (put_byte p range)
unfolding put_byte
put_byte-after_bytes s p range = rw (append_assoc s p.stream _) refl

normalize_encoder-after_bytes :
    (fuel : ℕ) (s : List ℕ) (p : Encoder)
    → normalize_encoder fuel (after_bytes s p)
      ≡ normalize_encoder fuel p >>= λ f. some (after_bytes s f)
unfolding normalize_encoder
normalize_encoder-after_bytes zero s p = refl
normalize_encoder-after_bytes (suc fuel) s p = elim (Option-cases (settle p.low p.range)) [
  | inl h ↦ rw (normalize_encoder, h) refl
  | inr (range, h) ↦
      rw (normalize_encoder, h)
        (ap (normalize_encoder fuel) (put_byte-after_bytes s p range)
          ∙ normalize_encoder-after_bytes fuel s (put_byte p range))
]

encode_step-after_bytes :
    (op : Op) (s : List ℕ) (e : Encoder)
    → encode_step op (after_bytes s e) ≡ encode_step op e >>= λ f. some (after_bytes s f)
unfolding encode_step range_encode range_encode_bit_0 range_encode_bit_1
encode_step-after_bytes (interval start size total) s e = normalize_encoder-after_bytes _ s _
encode_step-after_bytes (bit false size0) s e = normalize_encoder-after_bytes _ s _
encode_step-after_bytes (bit true size0) s e = normalize_encoder-after_bytes _ s _

flush_bytes-after_bytes :
    (n : ℕ) (s : List ℕ) (p : Encoder)
    → flush_bytes n (after_bytes s p) ≡ after_bytes s (flush_bytes n p)
unfolding flush_bytes
flush_bytes-after_bytes zero s p = refl
flush_bytes-after_bytes (suc n) s p = rw (append_assoc s p.stream _) (flush_bytes-after_bytes n s _)

pub ppmd8_engine-IsStreamed : IsStreamed Encode8.encode_symbol ppmd8_engine Symbol8.IsSound
unfolding flush_encoder
ppmd8_engine-IsStreamed = record {
  prepend = after_bytes;
  whole = λ e. rw (append-nil e.stream) refl;
  stream_prepend = λ s e. refl;
  clear_prepend = λ s e. refl;
  clear_clear = λ e. refl;
  stream_clear = λ e. refl;
  symbol_prepend = symbol-prepend ppmd8_codec after_bytes encode_step-after_bytes;
  flush_prepend = flush_bytes-after_bytes 4;
}
