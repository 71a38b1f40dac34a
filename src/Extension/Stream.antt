-- ===== src/Extension/Stream.antt =====
-- What an encoder writes does not depend on what it has written.
use pyppmd.Base.{ℕ, ◌≡◌, refl, ◌∙◌, sym, ap, Option, none, some, ◌>>=◌, List, [], ◌++◌}
use mathlib.Core.Option.{some-injective}
use pyppmd.Extension.Encoder.{Engine}

-- The coder with bytes before those that it has written.
pub record IsStreamed {M E : Type 0} (encode_symbol : M → E → ℕ → Option (M × E)) (k : Engine E)
    (IsSound : M → Type 0) : Type 0 where
  pub prepend : List ℕ → E → E
  pub whole : (e : E) → prepend (k.stream e) (k.clear e) ≡ e
  pub stream_prepend : (s : List ℕ) (e : E) → k.stream (prepend s e) ≡ s ++ k.stream e
  pub clear_prepend : (s : List ℕ) (e : E) → k.clear (prepend s e) ≡ k.clear e
  pub clear_clear : (e : E) → k.clear (k.clear e) ≡ k.clear e
  pub stream_clear : (e : E) → k.stream (k.clear e) ≡ []
  pub symbol_prepend :
      (p : M) (e : E) (x : ℕ) (s : List ℕ)
      → IsSound p
      → encode_symbol p (prepend s e) x ≡ encode_symbol p e x >>= λ r. some (r.0, prepend s r.1)
  pub flush_prepend :
      (s : List ℕ) (e : E) → k.flush_coder (prepend s e) ≡ prepend s (k.flush_coder e)

bind-some :
    {A B : Type 0} (x : Option A) (g : A → B) (b : B)
    → x >>= (λ a. some (g a)) ≡ some b
    → (a : A) × (x ≡ some a) × (b ≡ g a)
bind-some none g b h = cc h
bind-some (some a) g b h = (a, refl, sym (some-injective _ _ h))

module _ {M E : Type 0} {encode_symbol : M → E → ℕ → Option (M × E)} {k : Engine E}
    {IsSound : M → Type 0} (law : IsStreamed encode_symbol k IsSound) where
  -- A coder that has the bytes `s` and the registers of `e` codes as `e` does on a new stream.
  pub encode_symbol-clear :
      (p : M) (e t : E) (x : ℕ) (s : List ℕ) (r : M × E)
      → IsSound p
      → t ≡ law.prepend s (k.clear e)
      → encode_symbol p t x ≡ some r
      → (f : E) × (encode_symbol p (k.clear e) x ≡ some (r.0, f))
        × (r.1 ≡ law.prepend s f)
        × (r.1 ≡ law.prepend (s ++ k.stream f) (k.clear f))
  encode_symbol-clear p e t x s r sound same done =
      let ((q, f), here, end) =
        bind-some _ (λ (r : M × E). (r.0, law.prepend s r.1)) r
          (sym (law.symbol_prepend p (k.clear e) x s sound)
            ∙ ap (λ u. encode_symbol p u x) (sym same)
            ∙ done) in
      let coder : r.1 ≡ law.prepend s f = ap (λ (r' : M × E). r'.1) end in
      let model : q ≡ r.0 = sym (ap (λ (r' : M × E). r'.0) end) in
      (
        f,
        here ∙ ap (λ m. some (m, f)) model,
        coder,
        coder
            ∙ sym (law.whole (law.prepend s f))
            ∙ ap (λ u. law.prepend u (k.clear (law.prepend s f))) (law.stream_prepend s f)
            ∙ ap (law.prepend (s ++ k.stream f)) (law.clear_prepend s f),
      )

  pub clear-whole : (e : E) → k.clear e ≡ law.prepend [] (k.clear e)
  clear-whole e =
      sym (law.whole (k.clear e))
      ∙ ap (λ s. law.prepend s (k.clear (k.clear e))) (law.stream_clear e)
      ∙ ap (law.prepend []) (law.clear_clear e)
