-- ===== src/Extension/Sent.antt =====
-- What encode and flush return, put together, is what the encoder writes to one stream.
use pyppmd.Base.{
  ℕ, ◌*◌, ◌^◌, ◌<◌, ◌≡◌, refl, ◌∙◌, sym, ap, Bool, true, false, Option, none, some, List, [], ◌∷◌,
  ◌++◌, arith, length,
}
use mathlib.Core.Path.{subst}
use mathlib.Core.Option.{some-injective}
use pyppmd.Blocks.Buffer.{Output, first_block, init_and_grow, finish}
use pyppmd.Blocks.Output.{init_and_grow-IsFilled, finish-IsFinished, IsFinished}
use pyppmd.Coding.Message.{Codec, encode_message, IsSoundAlong, encode_message-cons}
use pyppmd.Extension.Arguments.{EncoderObject, returned}
use pyppmd.Extension.Encoder.{
  Python, Engine, write_all, done, encode_loop, encode, flush, close, give, end_of,
}
use pyppmd.Extension.Room.{IsGenerous, IsHolding, write_all-IsHolding}
use pyppmd.Extension.Stream.{IsStreamed, encode_symbol-clear, clear-whole}
use pyppmd.Extension.Written.{HasRoom, encode_loop-IsDone}

-- The first block, and the end.
module _ (py : Python) (generous : IsGenerous py) where
  pub init-generous :
      (out : Output) × (init_and_grow py.new_bytes py.list_made none ≡ some out)
      × (out.ob.size ≡ 32 * 1024)
      × (out.ob.pos ≡ 0)
      × IsHolding out [] (32 * 1024)
  unfolding init_and_grow first_block
  init-generous =
      let (b, got) = generous.bytes (32 * 1024) in
      let out : Output = record {
        buffer = record { list = b ∷ []; allocated = 32 * 1024; max_length = none };
        ob = record { dst = 0; size = 32 * 1024; pos = 0 };
      } in
      let made : init_and_grow py.new_bytes py.list_made none ≡ some out =
        rw (got, generous.list_made) refl in
      (
        out,
        made,
        refl,
        refl,
        record {
          filled =
              (init_and_grow-IsFilled py.new_bytes py.list_made none out generous.faithful made).0;
          unlimited = refl;
          allocated = omega arith;
        },
      )

  finished-bytes :
      (bytes : List ℕ) (r : Option (List ℕ)) → IsFinished py.new_bytes bytes r → r ≡ some bytes
  finished-bytes bytes none failed =
      let (b, got) = generous.bytes (length bytes) in cc (rw failed at got)
  finished-bytes bytes (some r) same = ap some same

  pub finish-generous :
      (out : Output) (bytes : List ℕ) (size : ℕ)
      → IsHolding out bytes size
      → finish py.new_bytes out ≡ some bytes
  finish-generous out bytes size h =
      finished-bytes bytes _ (finish-IsFinished py.new_bytes generous.faithful h.filled)

-- The end mark, where there is one.
abbrev pub mark : Bool → List ℕ
mark true = 256 ∷ []
mark false = []

module _ {M E D : Type 0} (c : Codec M E D) where
  encode_message-append :
      (xs ys : List ℕ) (p : M) (t : E) (r : M × E)
      → IsSoundAlong c (xs ++ ys) p t
      → encode_message c (xs ++ ys) p t ≡ some r
      → (u : M × E) × (encode_message c xs p t ≡ some u)
        × (encode_message c ys u.0 u.1 ≡ some r)
        × IsSoundAlong c xs p t
        × IsSoundAlong c ys u.0 u.1
  unfolding encode_message
  encode_message-append [] ys p t r sound coded = ((p, t), refl, coded, tt, sound)
  encode_message-append (x ∷ xs) ys p t r (sound, along) coded =
      let (u, one, rest) = encode_message-cons c x (xs ++ ys) p t r coded in
      let (v, first, second, here, there) =
        encode_message-append xs ys u.0 u.1 r (along u.0 u.1 one) rest in
      let same : (q : M) (f : E) → c.encode_symbol p t x ≡ some (q, f) → IsSoundAlong c xs q f =
        λ q f h.
          subst (λ (w : M × E). IsSoundAlong c xs w.0 w.1) (some-injective _ _ (sym one ∙ h))
            here in
      (v, rw one first, second, (sound, same), there)

-- What the calls return: `first` and `second` together are what the encoder has written in `f`.
pub record IsSent {M E D : Type 0} (c : Codec M E D) (k : Engine E) (py : Python) (endmark : Bool)
    (xs : List ℕ) (parts : M × E) (self : EncoderObject M E) (q : M) (f : E) : Type 0 where
  pub first : List ℕ
  pub second : List ℕ
  pub between : M × E
  pub last : M × E
  pub encoded :
      encode c.encode_symbol k py xs parts self
      ≡ (returned first, record self { parts = some between })
  pub flushed :
      flush c.encode_symbol k py endmark between (record self { parts = some between })
      ≡ (returned second, record self { parts = some last })
  pub model : last.0 ≡ q
  pub bytes : first ++ second ≡ k.stream (k.flush_coder f)

-- The ways through the calls.
module _ {M E : Type 0} (encode_symbol : M → E → ℕ → Option (M × E)) (k : Engine E) (py : Python)
    (out : Output) (made : init_and_grow py.new_bytes py.list_made none ≡ some out)
    (self : EncoderObject M E) where
  encode-returned :
      (xs : List ℕ) (parts : M × E) (p : M) (e : E) (out' : Output) (bytes : List ℕ)
      → encode_loop encode_symbol k py xs parts.0 parts.1 out ≡ done p e out'
      → finish py.new_bytes out' ≡ some bytes
      → encode encode_symbol k py xs parts self
        ≡ (returned bytes, record self { parts = some (p, e) })
  unfolding encode close give
  encode-returned xs parts p e out' bytes ends end = rw (encode, made, ends, end) refl

  flush-returned :
      (endmark : Bool) (parts : M × E) (q : M) (f : E) (bytes : List ℕ)
      → self.flushed ≡ false
      → end_of encode_symbol k py endmark parts ≡ some (q, f)
      → finish py.new_bytes (write_all out (k.stream (k.flush_coder f))) ≡ some bytes
      → flush encode_symbol k py endmark parts self
        ≡ (returned bytes, record self { parts = some (q, k.flush_coder f) })
  unfolding flush give
  flush-returned endmark parts q f bytes unflushed ends end =
      rw (flush, unflushed, made, ends, end)
        (ap
          (λ (b : Bool).
            (returned bytes, record self { flushed = b; parts = some (q, k.flush_coder f) }))
          unflushed)

module _ {M E D : Type 0} (c : Codec M E D) {k : Engine E} (py : Python)
    (law : IsStreamed c.encode_symbol k c.IsSound) where
  -- The symbol that flush codes.
  end_of-prepend :
      (endmark : Bool) (e : E) (s : List ℕ) (u r : M × E)
      → u.1 ≡ law.prepend s (k.clear e)
      → IsSoundAlong c (mark endmark) u.0 u.1
      → encode_message c (mark endmark) u.0 u.1 ≡ some r
      → (f : E) × (end_of c.encode_symbol k py endmark (u.0, e) ≡ some (r.0, f))
        × (r.1 ≡ law.prepend s f)
  unfolding encode_message end_of
  end_of-prepend true e s u r same (sound, along) coded =
      let (v, one, rest) = encode_message-cons c 256 [] u.0 u.1 r coded in
      let end : v ≡ r = some-injective _ _ rest in
      let (f, here, front, next) =
        encode_symbol-clear law u.0 e u.1 256 s r sound same (one ∙ ap some end) in
      (f, here, front)
  end_of-prepend false e s u r same sound coded =
      let end : u ≡ r = some-injective _ _ coded in
      (k.clear e, ap (λ (r' : M × E). some (r'.0, k.clear e)) end, ap (λ r'. r'.1) (sym end) ∙ same)

  -- On an object that has not been flushed, with memory for each request and room for each symbol,
  -- where the encoder codes the data and the end mark to `f` from a new stream: encode and flush
  -- return, and their bytes together are those that the encoder has then written and flushed.
  pub encode-IsSent :
      (endmark : Bool) (xs : List ℕ) (parts : M × E) (self : EncoderObject M E) (r : M × E)
      → IsGenerous py
      → length xs < 2 ^ 32
      → self.flushed ≡ false
      → IsSoundAlong c (xs ++ mark endmark) parts.0 (k.clear parts.1)
      → ((out : Output)
          → init_and_grow py.new_bytes py.list_made none ≡ some out
          → HasRoom c k py endmark xs parts.0 parts.1 out)
      → encode_message c (xs ++ mark endmark) parts.0 (k.clear parts.1) ≡ some r
      → IsSent c k py endmark xs parts self r.0 r.1
  encode-IsSent endmark xs parts self r generous short unflushed sound room coded =
      let (u, before, behind, sound', sound'') =
        encode_message-append c xs (mark endmark) parts.0 (k.clear parts.1) r sound coded in
      let (out, made, size, pos, holding) = init-generous py generous in
      let loop =
        encode_loop-IsDone {c = c} law generous xs parts.0 parts.1 (k.clear parts.1) [] out []
          (32 * 1024) u (clear-whole law parts.1) sound' (omega (arith, short)) holding
          (room out made) before in
      let (f, end, front) =
        end_of-prepend endmark loop.coder loop.more u r loop.same sound'' behind in
      let fits = loop.room r.0 f end in
      let g = k.flush_coder f in
      let written =
        write_all-IsHolding (k.stream g) out [] (32 * 1024) (omega (arith, fits, size, pos))
          holding in
      let encoded = finish-generous py generous loop.output loop.more loop.size loop.holding in
      let flushed = finish-generous py generous _ (k.stream g) (32 * 1024) written in
      record {
        first = loop.more;
        second = k.stream g;
        between = (u.0, loop.coder);
        last = (r.0, g);
        encoded =
            encode-returned c.encode_symbol k py out made self xs parts u.0 loop.coder loop.output
              loop.more loop.ends encoded;
        flushed =
            flush-returned c.encode_symbol k py out made
              (record self { parts = some (u.0, loop.coder) }) endmark (u.0, loop.coder) r.0 f
              (k.stream g) unflushed end flushed;
        model = refl;
        bytes = sym (
            ap (λ e. k.stream (k.flush_coder e)) front
            ∙ ap k.stream (law.flush_prepend loop.more f)
            ∙ law.stream_prepend loop.more g);
      }
