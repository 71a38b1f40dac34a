-- ===== src/Extension/Written.antt =====
-- The encoding loop, where there is memory and room: it writes what the encoder writes to one stream.
use pyppmd.Base.{
  ℕ, ◌+◌, ◌-◌, ◌*◌, ◌^◌, ◌≤◌, ◌≡◌, refl, ◌∙◌, sym, ap, Bool, some, List, [], ◌∷◌, ◌++◌, arith,
  length,
}
use mathlib.Core.List.{append_assoc, append-nil}
use mathlib.Core.Option.{some-injective}
use pyppmd.Blocks.Buffer.{Output, ssize_max}
use pyppmd.Coding.Message.{Codec, encode_message, IsSoundAlong, encode_message-cons}
use pyppmd.Extension.Encoder.{Python, Engine, write_all, renew, done, encode_loop, end_of}
use pyppmd.Extension.Room.{IsGenerous, IsHolding, write_all-IsHolding, renew-IsHolding}
use pyppmd.Extension.Stream.{IsStreamed, encode_symbol-clear}

module _ {M E D : Type 0} (c : Codec M E D) (k : Engine E) (py : Python) (endmark : Bool) where
  -- At each symbol, the bytes that it makes the encoder write fit into what is left of the block, and
  -- at the end, what flush writes fits into its first block.
  abbrev pub HasRoom : List ℕ → M → E → Output → Type 0
  HasRoom [] p e out =
      (q : M) (f : E)
      → end_of c.encode_symbol k py endmark (p, e) ≡ some (q, f)
      → length (k.stream (k.flush_coder f)) ≤ 32 * 1024
  HasRoom (x ∷ xs) p e out =
      (q : M) (f : E)
      → c.encode_symbol p (k.clear e) x ≡ some (q, f)
      → (length (k.stream f) ≤ out.ob.size - out.ob.pos)
        × ((r : Output) → renew py (write_all out (k.stream f)) ≡ some r → HasRoom xs q f r)

  -- The loop ends, and `more` is what it has written.
  pub record IsDone (xs : List ℕ) (p : M) (e : E) (out : Output) (bytes s : List ℕ) (r : M × E)
      (prepend : List ℕ → E → E) : Type 0 where
    pub coder : E
    pub output : Output
    pub more : List ℕ
    pub size : ℕ
    pub ends : encode_loop c.encode_symbol k py xs p e out ≡ done r.0 coder output
    pub holding : IsHolding output (bytes ++ more) size
    pub same : r.1 ≡ prepend (s ++ more) (k.clear coder)
    pub room : HasRoom [] r.0 coder output

  encode_loop-next :
      (x : ℕ) (xs : List ℕ) (p q : M) (e f : E) (out out' : Output)
      → c.encode_symbol p (k.clear e) x ≡ some (q, f)
      → renew py (write_all out (k.stream f)) ≡ some out'
      → encode_loop c.encode_symbol k py (x ∷ xs) p e out
        ≡ encode_loop c.encode_symbol k py xs q f out'
  unfolding encode_loop
  encode_loop-next x xs p q e f out out' here renewed = rw (encode_loop, here, renewed) refl

module _ {M E D : Type 0} {c : Codec M E D} {k : Engine E} {py : Python} {endmark : Bool}
    (law : IsStreamed c.encode_symbol k c.IsSound) (generous : IsGenerous py) where
  pub encode_loop-IsDone :
      (xs : List ℕ) (p : M) (e t : E) (s : List ℕ) (out : Output) (bytes : List ℕ) (size : ℕ)
      (r : M × E)
      → t ≡ law.prepend s (k.clear e)
      → IsSoundAlong c xs p t
      → size + 2 ^ 28 * length xs ≤ ssize_max
      → IsHolding out bytes size
      → HasRoom c k py endmark xs p e out
      → encode_message c xs p t ≡ some r
      → IsDone c k py endmark xs p e out bytes s r law.prepend
  unfolding encode_message encode_loop
  encode_loop-IsDone [] p e t s out bytes size r same sound small holding room coded =
      let end = some-injective _ _ coded in
      record {
        coder = e;
        output = out;
        more = [];
        size = size;
        ends = ap (λ (r' : M × E). done r'.0 e out) end;
        holding = rw (append-nil bytes) holding;
        same = rw (append-nil s) (sym (ap (λ (r' : M × E). r'.1) end) ∙ same);
        room = rw (← ap (λ (r' : M × E). r'.0) end) room;
      }
  encode_loop-IsDone (x ∷ xs) p e t s out bytes size r same (sound, along) small holding room
        coded =
      let (u, one, rest) = encode_message-cons c x xs p t r coded in
      let (f, here, front, next) = encode_symbol-clear law p e t x s u sound same one in
      let (fits, later) = room u.0 f here in
      let written = write_all-IsHolding (k.stream f) out bytes size fits holding in
      let (out', renewed, held) =
        renew-IsHolding py (write_all out (k.stream f)) (bytes ++ k.stream f) size generous
          (omega (arith, small)) written in
      let end =
        encode_loop-IsDone xs u.0 f u.1 (s ++ k.stream f) out' (bytes ++ k.stream f) (size + 2 ^ 28)
          r next (along u.0 u.1 one) (omega (arith, small)) held (later out' renewed) rest in
      record {
        coder = end.coder;
        output = end.output;
        more = k.stream f ++ end.more;
        size = end.size;
        ends = encode_loop-next c k py endmark x xs p u.0 e f out out' here renewed ∙ end.ends;
        holding = rw (← append_assoc bytes (k.stream f) end.more) end.holding;
        same = rw (← append_assoc s (k.stream f) end.more) end.same;
        room = end.room;
      }
