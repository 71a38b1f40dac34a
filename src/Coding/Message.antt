-- ===== src/Coding/Message.antt =====
-- A message as the callers code it: a symbol after the other, on one model and one range coder.
use pyppmd.Base.{
  ℕ, zero, suc, ◌*◌, ◌≤◌, ◌≡◌, refl, sym, ap, arith, Option, some, none, ◌>>=◌, List, [], ◌∷◌, ◌++◌,
  length, length-append, map, ◌∙◌, Option-cases, inl, inr,
}
use mathlib.Core.Option.{some-injective}
use pyppmd.RangeCoder.Value.{All}
use pyppmd.RangeCoder.Ops.{Op}
use pyppmd.Coding.{Coder, Decoded, Answer, answer_for}
use pyppmd.Coding.Coded.{IsCoded, decode_all-cons}

-- A symbol coder on a range coder: its encoder and its decoder, the models that can code from their
-- context, and that both perform the same steps from such a model.
pub record Codec (M E D : Type 0) : Type 1 where
  pub coder : Coder E D
  pub encode_symbol : M → E → ℕ → Option (M × E)
  pub decode_symbol : M → D → Option (Answer M D)
  pub IsSound : M → Type 0
  pub agrees :
      (p : M) (x : ℕ)
      → IsSound p
      → IsCoded ⦃c = coder⦄ 257 x (λ e. encode_symbol p e x) (λ d. decode_symbol p d)

module _ {M E D : Type 0} (k : Codec M E D) where
  unfoldable pub encode_message : List ℕ → M → E → Option (M × E)
  encode_message [] p e = some (p, e)
  encode_message (x ∷ xs) p e = k.encode_symbol p e x >>= λ r. encode_message xs r.0 r.1

  unfoldable pub decode_message : ℕ → M → D → Option (List Decoded × M × D)
  decode_message zero p d = some ([], p, d)
  decode_message (suc n) p d = k.decode_symbol p d >>= λ r.
      decode_message n r.model r.coder >>= λ rest. some (r.result ∷ rest.0, rest.1, rest.2)

  -- At each symbol of the message, the model that the encoder has come to can code it.
  abbrev pub IsSoundAlong : List ℕ → M → E → Type 0
  IsSoundAlong [] p e = Unit
  IsSoundAlong (x ∷ xs) p e =
      k.IsSound p × ((q : M) (f : E) → k.encode_symbol p e x ≡ some (q, f) → IsSoundAlong xs q f)

  -- The coding steps of a message.
  pub record IsTranscript (xs : List ℕ) (p : M) (e : E) (q : M) (f : E) : Type 0 where
    pub ops : List Op
    pub few : length ops ≤ 257 * length xs
    pub valid : All k.coder.IsValid ops
    pub encodes : k.coder.encode_all ops e ≡ some f
    pub decodes :
        (d d' : D)
        → k.coder.decode_all ops d ≡ some d'
        → decode_message (length xs) p d ≡ some (map answer_for xs, q, d')

module _ {E D : Type 0} (c : Coder E D) where
  encode_all-append :
      (a b : List Op) (e : E) → c.encode_all (a ++ b) e ≡ c.encode_all a e >>= c.encode_all b
  encode_all-append [] b e = rw (c.encode_nil e) refl
  encode_all-append (op ∷ a) b e = elim (Option-cases (c.encode op e)) [
    | inl h ↦ rw (c.encode_cons op (a ++ b) e, c.encode_cons op a e, h) refl
    | inr (t, h) ↦
        rw (c.encode_cons op (a ++ b) e, c.encode_cons op a e, h) (encode_all-append a b t)
  ]

  decode_all-append :
      (a b : List Op) (d d' : D)
      → c.decode_all (a ++ b) d ≡ some d'
      → (t : D) × (c.decode_all a d ≡ some t) × (c.decode_all b t ≡ some d')
  decode_all-append [] b d d' h = (d, c.decode_nil d, h)
  decode_all-append (op ∷ a) b d d' h =
      let (t, one, rest) = decode_all-cons c op (a ++ b) d d' h in
      let (u, first, second) = decode_all-append a b t d' rest in
      (u, rw (c.decode_cons op a d, one) first, second)

  All-IsValid : (a b : List Op) → All c.IsValid a → All c.IsValid b → All c.IsValid (a ++ b)
  All-IsValid [] b here there = there
  All-IsValid (op ∷ a) b (one, here) there = (one, All-IsValid a b here there)

-- What an encoder that returns has done.
coded-both :
    {M E : Type 0} (first : Option E) (after : Option M) (r : M × E)
    → (first >>= λ e. after >>= λ q. some (q, e)) ≡ some r
    → (first ≡ some r.1) × (after ≡ some r.0)
coded-both none after r h = cc h
coded-both (some e) none r h = cc h
coded-both {M} {E} (some e) (some q) r h =
    let same = some-injective _ _ h in
    (ap (λ (r' : M × E). some r'.1) same, ap (λ (r' : M × E). some r'.0) same)

module _ {M E D : Type 0} (k : Codec M E D) where
  pub encode_message-cons :
      (x : ℕ) (xs : List ℕ) (p : M) (e : E) (r : M × E)
      → encode_message k (x ∷ xs) p e ≡ some r
      → (t : M × E) × (k.encode_symbol p e x ≡ some t) × (encode_message k xs t.0 t.1 ≡ some r)
  unfolding encode_message
  encode_message-cons x xs p e r h = elim (Option-cases (k.encode_symbol p e x)) [
    | inl none_left ↦ cc (rw none_left at h)
    | inr (t, one) ↦ (t, one, rw one at h)
  ]

  -- A message that the encoder codes, each symbol from a model that can code it, is a row of valid
  -- steps, at most 257 for a symbol, whose answers the decoder decodes to the message.
  pub encode_message-IsTranscript :
      (xs : List ℕ) (p : M) (e : E) (r : M × E)
      → IsSoundAlong k xs p e
      → encode_message k xs p e ≡ some r
      → IsTranscript k xs p e r.0 r.1
  unfolding encode_message decode_message
  encode_message-IsTranscript [] p e r sound h =
      let same = some-injective _ _ h in
      record {
        ops = [];
        few = omega arith;
        valid = omega arith;
        encodes = k.coder.encode_nil e ∙ ap (λ (r' : M × E). some r'.1) same;
        decodes = λ d d' done.
            let model = ap (λ (r' : M × E). r'.0) same in
            let coder = some-injective d d' (sym (k.coder.decode_nil d) ∙ done) in
            rw (← model, ← coder) refl;
      }
  encode_message-IsTranscript (x ∷ xs) p e r (sound, along) h =
      let c = k.coder in
      let (t, one, more) = encode_message-cons x xs p e r h in
      let coded = k.agrees p x sound in
      let (first, after) =
        coded-both (c.encode_all coded.ops e) coded.after t (sym (coded.encodes e) ∙ one) in
      let rest = encode_message-IsTranscript xs t.0 t.1 r (along t.0 t.1 one) more in
      record {
        ops = coded.ops ++ rest.ops;
        few = omega (arith, length-append coded.ops rest.ops, coded.few, rest.few);
        valid = All-IsValid c coded.ops rest.ops coded.valid rest.valid;
        encodes = encode_all-append c coded.ops rest.ops e ∙ rw first rest.encodes;
        decodes = λ d d' done.
            let (u, here, there) = decode_all-append c coded.ops rest.ops d d' done in
            let answered = coded.decodes d u here in
            rw (answered, after, rest.decodes u d' there) refl;
      }
