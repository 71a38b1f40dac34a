-- ===== src/Extension/Kept.antt =====
-- What decode keeps of its input behind the decoding.
use pyppmd.Base.{
  ℕ, ◌+◌, ◌-◌, ◌≤◌, ◌<◌, ◌≡◌, ◌⊎◌, refl, ◌∙◌, sym, ap, true, false, Bool-cases, Option, none, some,
  ◌>>=◌, List, [], ◌++◌, ltb, ◌==◌, arith, length, length-append, take, drop, length-drop,
  length-none, length-take, Option-cases, inl, inr,
}
use mathlib.Core.List.{append_assoc}
use mathlib.Core.Path.{subst}
use pyppmd.Blocks.Buffer.{memcpy}
use pyppmd.Extension.Input.{Unconsumed, Malloc, block, Prepared, fitting, keep_rest}
use pyppmd.Extension.Queue.{IsHeld, IsMalloc, IsSupplied, drop-before, take-drop, memcpy-front}

module _ (malloc : Malloc) (faithful : IsMalloc malloc) where
  -- The object has no block for `n` bytes.
  abbrev pub Lacks : Unconsumed → (n : ℕ) → Type 0
  Lacks s n = (s.input_buffer ≡ none) ⊎ (s.input_buffer_size < n)

  -- A block for `n` bytes.
  abbrev IsFitting : Unconsumed → (n : ℕ) → Option Unconsumed → Type 0
  IsFitting s n none = Lacks s n × (malloc n ≡ none)
  IsFitting s n (some t) = (t.input_buffer_size ≡ length (block t)) × (n ≤ length (block t))

  IsFitting-fresh :
      (s : Unconsumed) (n : ℕ)
      → Lacks s n
      → IsFitting s n
          (malloc n >>= λ b. some (record s { input_buffer = some b; input_buffer_size = n }))
  IsFitting-fresh s n lacks = elim (Option-cases (malloc n)) [
    | inl failed ↦ rw failed (lacks, failed)
    | inr (b, got) ↦ let long = faithful n b got in rw got (sym long, omega (arith, long))
  ]

  fitting-null :
      (s : Unconsumed) (n : ℕ)
      → s.input_buffer ≡ none
      → fitting malloc s n
        ≡ (malloc n >>= λ b. some (record s { input_buffer = some b; input_buffer_size = n }))
  unfolding fitting
  fitting-null s n null = rw (fitting, null) refl

  fitting-small :
      (s : Unconsumed) (n : ℕ) (b : List ℕ)
      → s.input_buffer ≡ some b
      → ltb s.input_buffer_size n ≡ true
      → fitting malloc s n
        ≡ (malloc n >>= λ b. some (record s { input_buffer = some b; input_buffer_size = n }))
  unfolding fitting
  fitting-small s n b there small = rw (fitting, there, small) refl

  fitting-same :
      (s : Unconsumed) (n : ℕ) (b : List ℕ)
      → s.input_buffer ≡ some b
      → ltb s.input_buffer_size n ≡ false
      → fitting malloc s n ≡ some s
  unfolding fitting
  fitting-same s n b there enough =
      rw (fitting, there, enough)
        (ap (λ (o : Option (List ℕ)). some (record s { input_buffer = o })) there)

  fitting-IsFitting :
      (s : Unconsumed) (n : ℕ)
      → s.input_buffer_size ≡ length (block s)
      → IsFitting s n (fitting malloc s n)
  fitting-IsFitting s n size = elim (Option-cases s.input_buffer) [
    | inl null ↦
        subst (IsFitting s n) (sym (fitting-null s n null)) (IsFitting-fresh s n (inl null))
    | inr (b, there) ↦ elim (Bool-cases (ltb s.input_buffer_size n)) [
      | inl small ↦
          subst (IsFitting s n) (sym (fitting-small s n b there small))
            (IsFitting-fresh s n (inr (ground (arith, small))))
      | inr enough ↦ rw (fitting-same s n b there enough) (size, ground (arith, enough, size))
    ]
  ]

  -- The object then holds what is unread, or there is no memory for it.
  abbrev pub IsKept : (r : Prepared) (bytes : List ℕ) → Option Unconsumed → Type 0
  IsKept r bytes none =
      (r.use_input_buffer ≡ false)
      × (r.input.pos < r.input.size)
      × Lacks r.held (r.input.size - r.input.pos)
      × (malloc (r.input.size - r.input.pos) ≡ none)
  IsKept r bytes (some t) = IsHeld t (drop r.input.pos bytes)

  -- The bytes that are read up to `pos` leave the object's buffer.
  advanced :
      {s : Unconsumed} {bytes : List ℕ} (pos : ℕ)
      → IsHeld s bytes
      → pos ≤ length bytes
      → IsHeld (record s { in_begin = s.in_begin + pos }) (drop pos bytes)
  advanced {s} {bytes} pos h small =
      let split : h.pre ++ (bytes ++ h.post)
          ≡ (h.pre ++ take pos bytes) ++ (drop pos bytes ++ h.post) =
        ap (λ ys. h.pre ++ (ys ++ h.post)) (sym (take-drop pos bytes))
        ∙ ap (λ ys. h.pre ++ ys) (append_assoc (take pos bytes) (drop pos bytes) h.post)
        ∙ sym (append_assoc h.pre (take pos bytes) (drop pos bytes ++ h.post)) in
      let front = length-append h.pre (take pos bytes) in
      let taken = length-take pos bytes small in
      record {
        pre = h.pre ++ take pos bytes;
        post = h.post;
        shape = h.shape ∙ split;
        start = omega (arith, h.start, front, taken);
        stop = omega (arith, h.stop, front, taken, length-drop pos bytes, small);
        size = h.size;
      }

  copied : (t : Unconsumed) (src : List ℕ) (n : ℕ) → Unconsumed
  copied t src n = record t {
    input_buffer = some (memcpy (block t) 0 src n);
    in_begin = 0;
    in_end = n;
  }

  copied-IsHeld :
      (t : Unconsumed) (bytes tail : List ℕ) (n : ℕ)
      → length bytes ≡ n
      → t.input_buffer_size ≡ length (block t)
      → n ≤ length (block t)
      → IsHeld (copied t (bytes ++ tail) n) bytes
  unfolding copied
  copied-IsHeld t bytes tail n same size room =
      let written = memcpy-front (block t) bytes tail n same room in
      record {
        pre = [];
        post = drop n (block t);
        shape = written;
        start = refl;
        stop = omega (arith, same);
        size = omega (
          arith,
          size,
          ap length written,
          length-append bytes (drop n (block t)),
          length-drop n (block t),
          same,
          room,
        );
      }

  copy-IsKept :
      {r : Prepared} {bytes : List ℕ} (h : IsSupplied r bytes) (t : Option Unconsumed)
      → r.use_input_buffer ≡ false
      → r.input.pos < r.input.size
      → IsFitting r.held (r.input.size - r.input.pos) t
      → IsKept r bytes
          (t >>= λ t. some (copied t (drop r.input.pos r.input.src) (r.input.size - r.input.pos)))
  copy-IsKept h none unused small (lacks, failed) = (unused, small, lacks, failed)
  copy-IsKept {r} {bytes} h (some t) unused small (size, room) =
      let n = r.input.size - r.input.pos in
      let unread : drop r.input.pos r.input.src ≡ drop r.input.pos bytes ++ h.tail =
        ap (drop r.input.pos) h.src
        ∙ drop-before r.input.pos bytes h.tail (omega (arith, small, h.size)) in
      rw unread (
        copied-IsHeld t (drop r.input.pos bytes) h.tail n
          (omega (arith, length-drop r.input.pos bytes, h.size)) size room)

  emptied :
      (s : Unconsumed)
      → s.input_buffer_size ≡ length (block s)
      → IsHeld (record s { in_begin = 0; in_end = 0 }) []
  emptied s size = record {
    pre = [];
    post = block s;
    shape = refl;
    start = refl;
    stop = refl;
    size = size;
  }

  keep_rest-unused :
      (r : Prepared)
      → (r.input.pos == r.input.size) ≡ false
      → r.use_input_buffer ≡ false
      → keep_rest malloc r ≡ (
          fitting malloc r.held (r.input.size - r.input.pos) >>= λ t.
          some (copied t (drop r.input.pos r.input.src) (r.input.size - r.input.pos)))
  unfolding keep_rest copied
  keep_rest-unused r some_left unused = rw (keep_rest, some_left, unused) refl

  -- Where the decoder has not read behind the end of its input: what it has not read stays with the
  -- object, in its order, whether it came from the object's buffer or was handed in; that fails only
  -- where some of what was handed in is left, the object has no block that is large enough, and there
  -- is no memory for one.
  pub keep_rest-IsKept :
      {r : Prepared} {bytes : List ℕ}
      → IsSupplied r bytes
      → r.input.pos ≤ r.input.size
      → IsKept r bytes (keep_rest malloc r)
  unfolding keep_rest copied
  keep_rest-IsKept {r} {bytes} h small = elim (Bool-cases (r.input.pos == r.input.size)) [
    | inl all ↦
        let none_left : drop r.input.pos bytes ≡ [] =
          length-none _ (ground (arith, all, h.size, length-drop r.input.pos bytes)) in
        elim (Bool-cases r.use_input_buffer) [
          | inl used ↦ rw (keep_rest, all, used, none_left) (emptied r.held (h.used used).size)
          | inr unused ↦ rw (keep_rest, all, unused, none_left) (h.unused unused)
        ]
    | inr some_left ↦ elim (Bool-cases r.use_input_buffer) [
      | inl used ↦
          rw (keep_rest, some_left, used)
            (advanced r.input.pos (h.used used) (omega (arith, small, h.size)))
      | inr unused ↦ subst (IsKept r bytes) (sym (keep_rest-unused r some_left unused)) (
          copy-IsKept h (fitting malloc r.held (r.input.size - r.input.pos)) unused
            (ground (arith, small, some_left)) (fitting-IsFitting r.held _ (h.unused unused).size))
    ]
  ]
