-- ===== src/Coding/Coded.antt =====
-- A part of the encoder and the part of the decoder that answers it: both perform the same coding
-- steps, and then the same change of the model.
use pyppmd.Base.{
  ℕ, suc, ◌≤◌, length, ◌≡◌, refl, Option, none, some, List, [], ◌∷◌, arith, ◌>>=◌, ◌∙◌, sym,
  Option-cases, inl, inr,
}
use mathlib.Core.Option.{some-injective}
use pyppmd.RangeCoder.Ops.{Op}
use pyppmd.RangeCoder.Value.{All}
use pyppmd.Coding.{Coder, Answer, with_result, answer_for}

pub decode_all-cons :
    {E D : Type 0} (c : Coder E D) (op : Op) (ops : List Op) (d d' : D)
    → c.decode_all (op ∷ ops) d ≡ some d'
    → (t : D) × (c.decode op d ≡ some t) × (c.decode_all ops t ≡ some d')
decode_all-cons c op ops d d' h = elim (Option-cases (c.decode op d)) [
  | inl e ↦ cc (rw (c.decode_cons op ops d, e) at h)
  | inr (t, e) ↦ (t, e, rw (c.decode_cons op ops d, e) at h)
]

bind-step :
    {M E : Type 0} (first : Option E) (k : E → Option (M × E)) (g : E → Option E)
    (l : E → Option (M × E))
    → ((e : E) → k e ≡ g e >>= l)
    → first >>= k ≡ (first >>= g) >>= l
bind-step none k g l same = refl
bind-step (some e) k g l same = same e

module _ {E D : Type 0} ⦃c : Coder E D⦄ where
  -- There are at most `limit` steps. `after` is what becomes of the model, `none` if an update does
  -- not end within its fuel.
  pub record IsCoded {M : Type 0} (limit x : ℕ) (enc : E → Option (M × E))
      (dec : D → Option (Answer M D)) : Type 0 where
    pub ops : List Op
    pub after : Option M
    pub few : length ops ≤ limit
    pub valid : All c.IsValid ops
    pub encodes : (e : E) → enc e ≡ c.encode_all ops e >>= λ f. after >>= λ q. some (q, f)
    pub decodes :
        (d d' : D)
        → c.decode_all ops d ≡ some d'
        → dec d ≡ after >>= λ q. some (with_result (answer_for x) d' q)

  module _ {M : Type 0} (limit x : ℕ) where
    pub IsCoded-done :
        (after : Option M)
        → IsCoded limit x
            (λ e. after >>= λ q. some (q, e))
            (λ d. after >>= λ q. some (with_result (answer_for x) d q))
    IsCoded-done after = record {
      ops = [];
      after = after;
      few = omega arith;
      valid = omega arith;
      encodes = λ e. rw (c.encode_nil e) refl;
      decodes = λ d d' h.
          let same : d ≡ d' = some-injective d d' (sym (c.decode_nil d) ∙ h) in rw same refl;
    }

    module _ {enc enc' : E → Option (M × E)} {dec dec' : D → Option (Answer M D)} where
      pub IsCoded-step :
          (op : Op)
          → c.IsValid op
          → ((e : E) → enc e ≡ c.encode op e >>= enc')
          → ((d d' : D) → c.decode op d ≡ some d' → dec d ≡ dec' d')
          → IsCoded limit x enc' dec'
          → IsCoded (suc limit) x enc dec
      IsCoded-step op valid encodes decodes rest = record {
        ops = op ∷ rest.ops;
        after = rest.after;
        few = omega (arith, rest.few);
        valid = (valid, rest.valid);
        encodes = λ e. rw (c.encode_cons op rest.ops e) (
            encodes e
            ∙ bind-step (c.encode op e) enc' (c.encode_all rest.ops)
                (λ f. rest.after >>= λ q. some (q, f)) rest.encodes);
        decodes = λ d d' h.
            let (t, one, others) = decode_all-cons c op rest.ops d d' h in
            decodes d t one ∙ rest.decodes t d' others;
      }

      pub IsCoded-same :
          ((e : E) → enc e ≡ enc' e)
          → ((d : D) → dec d ≡ dec' d)
          → IsCoded limit x enc' dec'
          → IsCoded limit x enc dec
      IsCoded-same encodes decodes coded = record {
        ops = coded.ops;
        after = coded.after;
        few = coded.few;
        valid = coded.valid;
        encodes = λ e. encodes e ∙ coded.encodes e;
        decodes = λ d d' h. decodes d ∙ coded.decodes d d' h;
      }
